-- ===== src/Graph/Builder/Mirror.antt =====
-- What the graphs of graph/builder.go hold: the dependencies, and the dependents that mirror them.
use go_bzlmod.Prelude.{
  none, some, Option-cases, List, [], ◌∷◌, ◌≡◌, ◌≢◌, refl, sym, ap, subst, ◌∙◌, ◌↔◌, inl, inr,
  nat_eq, list_eq, Memᴰ,
}
use go_bzlmod.Prelude.Memᴰ
use go_bzlmod.Prelude.Maps.{Map, lookup, keys, IsMap, lookup_of_key}
use go_bzlmod.Selection.Types.{ModuleKey, key_eq, DepSpec, Module, SelectionResult}
use go_bzlmod.Graph.{
  Node, Graph, direct_deps, direct_dependents, transitive_deps, transitive_dependents,
}
use go_bzlmod.Graph.Searching.{Leads, here, step}
use go_bzlmod.Graph.Closure.{transitive_deps_correct, transitive_dependents_correct}
use go_bzlmod.Graph.Builder.{
  Builder, find_resolved_version, resolved_dependencies, create_nodes, link_nodes, add_dependent,
  add_request, build_from_selection, SimpleModule, simple_nodes, build,
}
use go_bzlmod.Graph.Builder.Links.{edges_in, dependencies_in, Has, link_nodes-Linked}
use go_bzlmod.Graph.Builder.Resolved.{
  mirrored, add_request-Adds, add_dependent-Adds, simple_nodes_lem, create_nodes-IsMap,
  create_nodes-NoDependents, lookup-create_nodes, find_resolved_version-key, IsFirstOf,
  find_resolved_version_iff,
}

-- The graph has the modules of the resolved graph. A module has as dependencies the first keys with
-- the names of its dependencies, and the dependents mirror these.
pub record IsGraphOf (resolved : Map ModuleKey Module) (g : Graph) : Type 0 where
  pub same_keys : (k : ModuleKey) → (lookup k g.modules ≡ none) ↔ (lookup k resolved ≡ none)
  pub dependencies :
      (k : ModuleKey) (m : Module)
      → lookup k resolved ≡ some m
      → (c : ModuleKey)
      → Memᴰ c (direct_deps g k)
        ↔ ((dep : DepSpec) × Memᴰ dep m.deps × IsFirstOf dep.name c resolved)
  pub inside : (p k : ModuleKey) → Memᴰ k (direct_deps g p) → lookup k g.modules ≢ none
  pub mirror : (p k : ModuleKey) → Memᴰ p (direct_dependents g k) ↔ Memᴰ k (direct_deps g p)

resolved_dependencies_iff :
    (resolved : Map ModuleKey Module) (deps : List DepSpec) (c : ModuleKey)
    → Memᴰ c (resolved_dependencies resolved deps)
      ↔ ((dep : DepSpec) × Memᴰ dep deps × IsFirstOf dep.name c resolved)
unfolding resolved_dependencies
resolved_dependencies_iff resolved [] c = (λ i. elim i [ ], λ (_, i, _). elim i [ ])
resolved_dependencies_iff resolved (dep ∷ deps) c =
    let ih = resolved_dependencies_iff resolved deps c in
    let f = find_resolved_version_iff resolved dep.name c in
    elim (Option-cases (find_resolved_version resolved dep.name)) [
      | inl h ↦
          rw (h, resolved_dependencies)
            (
              λ i. let (d, m, r) = ih.0 i in (d, Memᴰ.tail m, r),
              λ (d, m, r). elim (Memᴰ.cases_cons m) [
                | inl e ↦ absurd (
                    let z : none ≡ some c =
                      sym h ∙ f.1 (subst (λ x. IsFirstOf x.name c resolved) e r) in
                    cc)
                | inr t ↦ ih.1 (d, t, r)
              ],
            )
      | inr (j, h) ↦
          rw (h, resolved_dependencies)
            (
              λ i. elim (Memᴰ.cases_cons i) [
                | inl e ↦ (dep, Memᴰ.head refl, f.0 (h ∙ ap some (sym e)))
                | inr t ↦ let (d, m, r) = ih.0 t in (d, Memᴰ.tail m, r)
              ],
              λ (d, m, r). elim (Memᴰ.cases_cons m) [
                | inl e ↦ Memᴰ.head (
                    let z : some j ≡ some c =
                      sym h ∙ f.1 (subst (λ x. IsFirstOf x.name c resolved) e r) in
                    cc)
                | inr t ↦ Memᴰ.tail (ih.1 (d, t, r))
              ],
            )
    ]

mem-resolved_dependencies :
    (resolved : Map ModuleKey Module) (deps : List DepSpec) (k : ModuleKey)
    → Memᴰ k (resolved_dependencies resolved deps)
    → Memᴰ k (keys resolved)
unfolding resolved_dependencies
mem-resolved_dependencies resolved [] k i = elim i [ ]
mem-resolved_dependencies resolved (dep ∷ deps) k i =
    elim (Option-cases (find_resolved_version resolved dep.name)) [
      | inl h ↦ mem-resolved_dependencies resolved deps k (rw (h, resolved_dependencies) at i)
      | inr (j, h) ↦ elim (Memᴰ.cases_cons (rw (h, resolved_dependencies) at i)) [
        | inl e ↦
            subst (λ x. Memᴰ x (keys resolved)) (sym e)
              (find_resolved_version-key resolved dep.name j h).0
        | inr t ↦ mem-resolved_dependencies resolved deps k t
      ]
    ]

module _ (b : Builder) (result : SelectionResult) (root_key : ModuleKey) where
  abbrev resolved : Map ModuleKey Module
  resolved = result.resolved_graph

  abbrev nodes : Map ModuleKey Node
  nodes = create_nodes b root_key resolved resolved

  dependency_inside : (p k : ModuleKey) → Memᴰ k (dependencies_in nodes p) → Has nodes k
  dependency_inside p k i e = elim (lookup-create_nodes b root_key resolved resolved p) [
    | inl (_, h) ↦ absurd (Memᴰ.not-nil (rw (h, edges_in) at i))
    | inr (m, n, _, h, q) ↦
        let j : Memᴰ k (resolved_dependencies resolved m.deps) =
          subst (Memᴰ k) q (rw (h, edges_in) at i) in
        let (m', f) = lookup_of_key k resolved (mem-resolved_dependencies resolved m.deps k j) in
        elim (lookup-create_nodes b root_key resolved resolved k) [
          | inl (g, _) ↦ (let z : none ≡ some m' = sym g ∙ f in cc)
          | inr (_, n', _, g, _) ↦ (let z : none ≡ some n' = sym e ∙ g in cc)
        ]
  ]

  deps_at :
      (k : ModuleKey) (m' : Module)
      → lookup k resolved ≡ some m'
      → dependencies_in (link_nodes (add_request b) nodes nodes) k
        ≡ resolved_dependencies resolved m'.deps
  deps_at k m' e =
      let l = link_nodes-Linked (add_request b) (add_request-Adds b) nodes nodes in
      l.same_deps k ∙ elim (lookup-create_nodes b root_key resolved resolved k) [
        | inl (h, _) ↦ absurd (let z : none ≡ some m' = sym h ∙ e in cc)
        | inr (m₂, n, h, g, q) ↦
            let s : m₂ ≡ m' = some_inj (sym h ∙ e) in
            ap (λ x. elim x [ none ↦ [] | some t ↦ t.dependencies ]) g
            ∙ q
            ∙ ap (λ x. resolved_dependencies resolved x.deps) s
      ]
    where
      some_inj : {a c : Module} → some a ≡ some c → a ≡ c
      some_inj e = cc

  pub build_from_selection-IsGraphOf :
      IsMap resolved → IsGraphOf resolved (build_from_selection b result root_key)
  unfolding build_from_selection
  build_from_selection-IsGraphOf is_map =
      let l = link_nodes-Linked (add_request b) (add_request-Adds b) nodes nodes in
      let m =
        mirrored (add_request b) (add_request-Adds b) nodes
          (create_nodes-IsMap b root_key resolved resolved is_map)
          (create_nodes-NoDependents b root_key resolved resolved) in
      record {
        same_keys = λ k. (
          λ e. elim (lookup-create_nodes b root_key resolved resolved k) [
            | inl (h, _) ↦ h
            | inr (_, n, _, h, _) ↦
                absurd (let z : none ≡ some n = sym ((l.same_keys k).0 e) ∙ h in cc)
          ],
          λ e. (l.same_keys k).1 (elim (lookup-create_nodes b root_key resolved resolved k) [
            | inl (_, h) ↦ h
            | inr (m', _, h, _, _) ↦ absurd (let z : none ≡ some m' = sym e ∙ h in cc)
          ]),
        );
        dependencies = λ k m' e c.
            subst
              (λ ds.
                Memᴰ c ds ↔ ((dep : DepSpec) × Memᴰ dep m'.deps × IsFirstOf dep.name c resolved))
              (sym (deps_at k m' e)) (resolved_dependencies_iff resolved m'.deps c);
        inside = λ p k i e.
            dependency_inside p k (subst (Memᴰ k) (l.same_deps p) i) ((l.same_keys k).0 e);
        mirror = λ p k. (
          λ i. ((m k p).0 i).0,
          λ i. (m k p).1 (i, dependency_inside p k (subst (Memᴰ k) (l.same_deps p) i)),
        );
      }

-- In the graph built from a list of modules, a node stands among the dependents of another node
-- exactly if it depends on it.
pub build-mirror :
    (root : ModuleKey) (modules : List SimpleModule) (p k : ModuleKey)
    → Memᴰ p (direct_dependents (build root modules) k) ↔ (
        Memᴰ k (direct_deps (build root modules) p)
        × (lookup k (build root modules).modules ≢ none))
unfolding build
build-mirror root modules p k =
    let (is_map, fresh) = simple_nodes_lem root modules [] tt tt in
    let nodes = simple_nodes root modules [] in
    let l = link_nodes-Linked add_dependent add_dependent-Adds nodes nodes in
    let m = mirrored add_dependent add_dependent-Adds nodes is_map fresh k p in
    (
      λ i. let (a, has) = m.0 i in (a, λ e. has ((l.same_keys k).0 e)),
      λ (a, has). m.1 (a, λ e. has ((l.same_keys k).1 e)),
    )

Leads-trans :
    {edges : ModuleKey → List ModuleKey} {a c d : ModuleKey}
    → Leads edges a c
    → Leads edges c d
    → Leads edges a d
Leads-trans {edges} {a} x (here e) = subst (Leads edges a) (sym e) x
Leads-trans x (step y m) = step (Leads-trans x y) m

reverse-Leads :
    {f g : ModuleKey → List ModuleKey} {a c : ModuleKey}
    → ((p k : ModuleKey) → Memᴰ k (f p) → Memᴰ p (g k))
    → Leads f a c
    → Leads g c a
reverse-Leads h (here e) = here (sym e)
reverse-Leads h (step {k} {j} l m) = Leads-trans (step (here refl) (h k j m)) (reverse-Leads h l)

-- In the graph built from a selection, the search for the dependencies of `a` finds `c` exactly if
-- the search for the dependents of `c` finds `a`; both searches end.
pub transitive_deps-converse :
    (b : Builder) (result : SelectionResult) (root_key a c : ModuleKey)
    → IsMap result.resolved_graph
    → (deps : List ModuleKey) × (dependents : List ModuleKey) × (transitive_deps
          (build_from_selection b result root_key)
          a
        ≡ some deps)
      × (transitive_dependents (build_from_selection b result root_key) c ≡ some dependents)
      × (Memᴰ c deps ↔ Memᴰ a dependents)
transitive_deps-converse b result root_key a c is_map =
    let g = build_from_selection b result root_key in
    let m = (build_from_selection-IsGraphOf b result root_key is_map).mirror in
    let (ds, d, x) = transitive_deps_correct g a in
    let (us, u, y) = transitive_dependents_correct g c in
    (
      ds,
      us,
      d,
      u,
      (
        λ i.
            let (l, n) = (x.members c).0 i in
            (y.members a).1 (reverse-Leads (λ p k. (m p k).1) l, λ e. n (sym e)),
        λ i.
            let (l, n) = (y.members a).0 i in
            (x.members c).1 (reverse-Leads (λ p k. (m k p).0) l, λ e. n (sym e)),
      ),
    )
