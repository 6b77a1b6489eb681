-- ===== src/Graph/Builder/Resolved.antt =====
-- The graphs of graph/builder.go: their edges, the two directions of which mirror each other.
use go_bzlmod.Prelude.{
  Str, none, some, Option-cases, List, [], ◌∷◌, All, All-at, ◌≡◌, ◌≢◌, refl, sym, ap, subst, ◌∙◌,
  ◌↔◌, ◌⊎◌, inl, inr, ==_cases, ==_iff, nat_eq, list_eq, Memᴰ,
}
use go_bzlmod.Prelude.Memᴰ
use go_bzlmod.Prelude.Maps.{
  Map, lookup, keys, IsMap, insert-IsMap, All-insert, mem_of_lookup, lookup_of_mem,
}
use go_bzlmod.Selection.Types.{ModuleKey, key_eq, Module}
use go_bzlmod.Graph.{Node}
use go_bzlmod.Graph.Builder.{
  Builder, find_resolved_version, resolved_dependencies, new_node, create_nodes, link_nodes,
  add_dependent, add_request, SimpleModule, simple_nodes,
}
use go_bzlmod.Graph.Builder.Links.{
  edges_in, dependencies_in, dependents_in, Has, Adds, link_nodes-Linked,
}

abbrev pub NoDependents : ModuleKey × Node → Type 0
NoDependents (_, n) = n.dependents ≡ []

module _ (update : ModuleKey → ModuleKey → Node → Node) (adds : Adds update)
    (nodes : Map ModuleKey Node) (is_map : IsMap nodes) (fresh : All NoDependents nodes) where
  none_before : (k : ModuleKey) → dependents_in nodes k ≡ []
  none_before k = elim (Option-cases (lookup k nodes)) [
    | inl h ↦ rw (h, edges_in)
    | inr (n, h) ↦ rw (h, edges_in) (All-at NoDependents nodes fresh (mem_of_lookup k nodes h))
  ]

  pub mirrored :
      (k p : ModuleKey)
      → Memᴰ p (dependents_in (link_nodes update nodes nodes) k)
        ↔ (Memᴰ k (dependencies_in (link_nodes update nodes nodes) p) × Has nodes k)
  mirrored k p =
      let l = link_nodes-Linked update adds nodes nodes in
      (
        λ i. elim ((l.new_dependents k p).0 i) [
          | inl j ↦ absurd (Memᴰ.not-nil (rw (none_before k) at j))
          | inr ((n, m, j), has) ↦
              let at_p : dependencies_in nodes p ≡ n.dependencies =
                ap (λ x. elim x [ none ↦ [] | some t ↦ t.dependencies ])
                  (lookup_of_mem nodes is_map m) in
              (subst (Memᴰ k) (sym (l.same_deps p ∙ at_p)) j, has)
        ],
        λ (i, has).
            let i' : Memᴰ k (dependencies_in nodes p) = subst (Memᴰ k) (l.same_deps p) i in
            (l.new_dependents k p).1 (
              inr (
                elim (Option-cases (lookup p nodes)) [
                  | inl h ↦ absurd (Memᴰ.not-nil (rw (h, edges_in) at i'))
                  | inr (n, h) ↦ (n, mem_of_lookup p nodes h, rw (h, edges_in) at i')
                ],
                has,
              )),
      )

pub add_request-Adds : (b : Builder) → Adds (add_request b)
add_request-Adds b = record { dependents = λ k d n. refl; dependencies = λ k d n. refl }

pub add_dependent-Adds : Adds add_dependent
add_dependent-Adds = record { dependents = λ k d n. refl; dependencies = λ k d n. refl }

-- The nodes of the first passes.
pub simple_nodes_lem :
    (root : ModuleKey) (ms : List SimpleModule) (nodes : Map ModuleKey Node)
    → IsMap nodes
    → All NoDependents nodes
    → IsMap (simple_nodes root ms nodes) × All NoDependents (simple_nodes root ms nodes)
unfolding simple_nodes
simple_nodes_lem root [] nodes a b = (a, b)
simple_nodes_lem root (m ∷ ms) nodes a b =
    simple_nodes_lem root ms _ (insert-IsMap _ _ nodes a) (All-insert NoDependents _ _ nodes refl b)

module _ (b : Builder) (root_key : ModuleKey) (resolved : Map ModuleKey Module) where
  keys-create_nodes :
      (ms : Map ModuleKey Module) → keys (create_nodes b root_key resolved ms) ≡ keys ms
  unfolding create_nodes
  keys-create_nodes [] = refl
  keys-create_nodes ((k, m) ∷ ms) = ap (λ x. k ∷ x) (keys-create_nodes ms)

  pub create_nodes-IsMap :
      (ms : Map ModuleKey Module) → IsMap ms → IsMap (create_nodes b root_key resolved ms)
  unfolding create_nodes
  create_nodes-IsMap [] h = tt
  create_nodes-IsMap ((k, m) ∷ ms) h =
      (λ i. h.0 (rw (keys-create_nodes ms) at i), create_nodes-IsMap ms h.1)

  pub create_nodes-NoDependents :
      (ms : Map ModuleKey Module) → All NoDependents (create_nodes b root_key resolved ms)
  unfolding create_nodes
  create_nodes-NoDependents [] = tt
  create_nodes-NoDependents ((k, m) ∷ ms) = (refl, create_nodes-NoDependents ms)

  pub lookup-create_nodes :
      (ms : Map ModuleKey Module) (k : ModuleKey)
      → ((lookup k ms ≡ none) × (lookup k (create_nodes b root_key resolved ms) ≡ none))
        ⊎ ((m : Module) × (n : Node) × (lookup k ms ≡ some m)
            × (lookup k (create_nodes b root_key resolved ms) ≡ some n)
            × (n.dependencies ≡ resolved_dependencies resolved m.deps))
  unfolding create_nodes
  lookup-create_nodes [] k = inl (refl, refl)
  lookup-create_nodes ((j, m) ∷ ms) k = elim (==_cases j k) [
    | inl e ↦
        inr
          (m, new_node b root_key resolved j m, rw ((==_iff j k).1 e), rw ((==_iff j k).1 e), refl)
    | inr (q, _) ↦ rw q (lookup-create_nodes ms k)
  ]

pub find_resolved_version-key :
    (resolved : Map ModuleKey Module) (name : Str) (k : ModuleKey)
    → find_resolved_version resolved name ≡ some k
    → Memᴰ k (keys resolved) × (k.name ≡ name)
unfolding find_resolved_version
find_resolved_version-key [] name k h = absurd cc
find_resolved_version-key ((j, _) ∷ rest) name k h = elim (==_cases j.name name) [
  | inl e ↦
      let same : some j ≡ some k = rw ((==_iff j.name name).1 e) at h in
      let q : k ≡ j = cc in (Memᴰ.head q, ap (λ x. x.name) q ∙ e)
  | inr (q, _) ↦ let (m, e) = find_resolved_version-key rest name k (rw q at h) in (Memᴰ.tail m, e)
]

-- The first key of that name.
abbrev pub IsFirstOf : Str → ModuleKey → Map ModuleKey Module → Type 0
IsFirstOf name k [] = ⊥
IsFirstOf name k ((j, _) ∷ rest) =
    ((j.name ≡ name) × (k ≡ j)) ⊎ ((j.name ≢ name) × IsFirstOf name k rest)

pub find_resolved_version_iff :
    (resolved : Map ModuleKey Module) (name : Str) (k : ModuleKey)
    → (find_resolved_version resolved name ≡ some k) ↔ IsFirstOf name k resolved
unfolding find_resolved_version
find_resolved_version_iff [] name k = (λ e. cc, λ h. absurd h)
find_resolved_version_iff ((j, m) ∷ rest) name k = elim (==_cases j.name name) [
  | inl e ↦
      rw ((==_iff j.name name).1 e, find_resolved_version)
        (
          λ h. inl (e, (let z : some j ≡ some k = h in cc)),
          λ s. elim s [ inl (_, p) ↦ ap some (sym p) | inr (n, _) ↦ absurd (n e) ],
        )
  | inr (q, n) ↦
      rw (q, find_resolved_version)
        (
          λ h. inr (n, (find_resolved_version_iff rest name k).0 h),
          λ s. elim s [
            | inl (e, _) ↦ absurd (n e)
            | inr (_, r) ↦ (find_resolved_version_iff rest name k).1 r
          ],
        )
]
