-- ===== src/Selection/Groups/Allowed.antt =====
-- The versions that `computeAllowedVersionSets` of selection/selection.go allows: all that the
-- multiple-version overrides list.
use go_bzlmod.Prelude.{
  Str, none, some, List, [], ◌∷◌, ◌++◌, ◌≡◌, refl, sym, ap, ◌∙◌, subst, ==_cases, ==_iff, nat_eq,
  list_eq, inl, inr, Memᴰ, ok, Result-cases, Option-cases,
}
use go_bzlmod.Prelude.Memᴰ
use go_bzlmod.Prelude.Int.{int_eq}
use go_bzlmod.Prelude.Maps.{Map, lookup, insert, lookup-insert, lookup-insert_self}
use go_bzlmod.Version.Sorting.{mem-sort}
use go_bzlmod.Selection.Types.{
  key_eq, Module, DepGraph, Override, multiple_version, single_version, non_registry,
  ModuleNameAndCompatLevel, name_and_compat_eq,
}
use go_bzlmod.Selection.Groups.{
  AllowedVersionSets, allowed_of, add_allowed_versions, add_overrides, sort_allowed,
  compute_allowed_version_sets,
}

-- An override lists `v`, and the graph has that version at the level of `k`.
pub record IsAllowed (overrides : Map Str Override) (graph : DepGraph)
    (k : ModuleNameAndCompatLevel) (v : Str) : Type 0 where
  pub versions : List Str
  pub registry : Str
  pub listed : Memᴰ (k.module_name, multiple_version versions registry) overrides
  pub occurs : Memᴰ v versions
  pub found : Module
  pub in_graph : lookup (record { name = k.module_name; version = v }) graph.modules ≡ some found
  pub level : found.compat_level ≡ k.compat_level

module _ (graph : DepGraph) where
  allowed_of-insert :
      (k j : ModuleNameAndCompatLevel) (v : Str) (sets : AllowedVersionSets) {u : Str}
      → Memᴰ u (allowed_of j sets)
      → Memᴰ u (allowed_of j (insert k (allowed_of k sets ++ v ∷ []) sets))
  allowed_of-insert k j v sets {u} m =
      subst (λ o. Memᴰ u (elim o [ none ↦ [] | some versions ↦ versions ]))
        (sym (lookup-insert k j (allowed_of k sets ++ v ∷ []) sets))
        (elim (==_cases k j) [
          | inl e ↦
              rw ((==_iff k j).1 e)
                (Memᴰ.append_left (v ∷ []) (subst (λ x. Memᴰ u (allowed_of x sets)) (sym e) m))
          | inr (q, _) ↦ rw q m
        ])

  allowed_of-insert_self :
      (k : ModuleNameAndCompatLevel) (v : Str) (sets : AllowedVersionSets)
      → Memᴰ v (allowed_of k (insert k (allowed_of k sets ++ v ∷ []) sets))
  allowed_of-insert_self k v sets =
      rw (lookup-insert_self k (allowed_of k sets ++ v ∷ []) sets, allowed_of)
        (Memᴰ.append_right (allowed_of k sets) (Memᴰ.head refl))

  -- What is allowed stays allowed.
  abbrev Keeps : AllowedVersionSets → AllowedVersionSets → Type 0
  Keeps sets sets' =
      (k : ModuleNameAndCompatLevel) (u : Str)
      → Memᴰ u (allowed_of k sets)
      → Memᴰ u (allowed_of k sets')

  -- The sets allow the versions of a name that the list has, each at the level that the graph gives.
  abbrev Takes : Str → List Str → AllowedVersionSets → Type 0
  Takes name vs sets =
      (v : Str) (m : Module)
      → Memᴰ v vs
      → lookup (record { name = name; version = v }) graph.modules ≡ some m
      → Memᴰ v (allowed_of (record { module_name = name; compat_level = m.compat_level }) sets)

  add_allowed_versions_complete :
      (name : Str) (vs : List Str) (sets sets' : AllowedVersionSets)
      → add_allowed_versions graph name vs sets ≡ ok sets'
      → Keeps sets sets' × Takes name vs sets'
  unfolding add_allowed_versions
  add_allowed_versions_complete name [] sets sets' e =
      let q : sets ≡ sets' = cc in
      ((λ k u m. subst (λ x. Memᴰ u (allowed_of k x)) q m), (λ v m i. elim i [ ]))
  add_allowed_versions_complete name (v ∷ vs) sets sets' e =
      elim (Option-cases (lookup (record { name = name; version = v }) graph.modules)) [
        | inl missing ↦ absurd (let p = rw (missing, add_allowed_versions) at e in cc p)
        | inr (m, found) ↦
            let k : ModuleNameAndCompatLevel = record {
              module_name = name;
              compat_level = m.compat_level;
            } in
            let (keeps, takes) =
              add_allowed_versions_complete name vs (insert k (allowed_of k sets ++ v ∷ []) sets)
                sets' (rw (found, add_allowed_versions) at e) in
            (
              λ j u i. keeps j u (allowed_of-insert k j v sets i),
              λ u n i f. elim (Memᴰ.cases_cons i) [
                | inl p ↦
                    let z : some m ≡ some n =
                      sym found
                      ∙ ap (λ x. lookup (record { name = name; version = x }) graph.modules) (sym p)
                      ∙ f in
                    let q : m ≡ n = cc in
                    subst
                      (λ x. Memᴰ u (
                        allowed_of (record { module_name = name; compat_level = x.compat_level })
                          sets'))
                      q
                      (subst (λ x. Memᴰ x (allowed_of k sets')) (sym p)
                        (keeps k v (allowed_of-insert_self k v sets)))
                | inr t ↦ takes u n t f
              ],
            )
      ]

  abbrev TakesAll : Map Str Override → AllowedVersionSets → Type 0
  TakesAll overrides sets =
      (name : Str) (versions : List Str) (registry : Str)
      → Memᴰ (name, multiple_version versions registry) overrides
      → Takes name versions sets

  add_overrides_complete :
      (rest : Map Str Override) (sets sets' : AllowedVersionSets)
      → add_overrides graph rest sets ≡ ok sets'
      → Keeps sets sets' × TakesAll rest sets'
  unfolding add_overrides
  add_overrides_complete [] sets sets' e =
      let q : sets ≡ sets' = cc in
      ((λ k u m. subst (λ x. Memᴰ u (allowed_of k x)) q m), (λ n vs r i. elim i [ ]))
  add_overrides_complete ((name, multiple_version versions registry) ∷ rest) sets sets' e =
      elim (Result-cases (add_allowed_versions graph name versions sets)) [
        | inr (f, p) ↦ absurd (let q = rw (p, add_overrides) at e in cc q)
        | inl (next, p) ↦
            let (keeps, takes) = add_allowed_versions_complete name versions sets next p in
            let (later, all) =
              add_overrides_complete rest next sets' (rw (p, add_overrides) at e) in
            (
              λ k u m. later k u (keeps k u m),
              λ n vs r i v m j f. elim (Memᴰ.cases_cons i) [
                | inl q ↦
                    let a : n ≡ name = ap (λ x. x.0) q in
                    let b : multiple_version vs r ≡ multiple_version versions registry =
                      ap (λ x. x.1) q in
                    let c : vs ≡ versions = cc in
                    subst
                      (λ x. Memᴰ v (
                        allowed_of (record { module_name = x; compat_level = m.compat_level })
                          sets'))
                      (sym a)
                      (later _ v (
                        takes v m (subst (Memᴰ v) c j) (
                          subst
                            (λ x. lookup (record { name = x; version = v }) graph.modules ≡ some m)
                            a f)))
                | inr t ↦ all n vs r t v m j f
              ],
            )
      ]
  add_overrides_complete ((name, single_version v r p) ∷ rest) sets sets' e =
      let (keeps, all) = add_overrides_complete rest sets sets' e in
      (
        keeps,
        λ n vs g i. elim (Memᴰ.cases_cons i) [
          | inl q ↦
              absurd (let z : multiple_version vs g ≡ single_version v r p = ap (λ x. x.1) q in cc)
          | inr t ↦ all n vs g t
        ],
      )
  add_overrides_complete ((name, non_registry k p) ∷ rest) sets sets' e =
      let (keeps, all) = add_overrides_complete rest sets sets' e in
      (
        keeps,
        λ n vs g i. elim (Memᴰ.cases_cons i) [
          | inl q ↦
              absurd (let z : multiple_version vs g ≡ non_registry k p = ap (λ x. x.1) q in cc)
          | inr t ↦ all n vs g t
        ],
      )

  allowed_of-sort_allowed :
      (sets : AllowedVersionSets) (k : ModuleNameAndCompatLevel) (u : Str)
      → Memᴰ u (allowed_of k sets)
      → Memᴰ u (allowed_of k (sort_allowed sets))
  unfolding sort_allowed
  allowed_of-sort_allowed [] k u m = m
  allowed_of-sort_allowed ((j, vs) ∷ rest) k u m = elim (==_cases j k) [
    | inl e ↦
        rw ((==_iff j k).1 e, allowed_of) (mem-sort vs (rw ((==_iff j k).1 e, allowed_of) at m))
    | inr (q, _) ↦ rw (q, allowed_of) (allowed_of-sort_allowed rest k u (rw (q, allowed_of) at m))
  ]

  pub sets-complete :
      (overrides : Map Str Override) (sets : AllowedVersionSets)
      → compute_allowed_version_sets overrides graph ≡ ok sets
      → (k : ModuleNameAndCompatLevel) (v : Str) → IsAllowed overrides graph k v
      → Memᴰ v (allowed_of k sets)
  unfolding compute_allowed_version_sets
  sets-complete overrides sets e k v a = elim (Result-cases (add_overrides graph overrides [])) [
    | inr (f, p) ↦ absurd (let q = rw (p, compute_allowed_version_sets) at e in cc q)
    | inl (found, p) ↦
        let q : sort_allowed found ≡ sets =
          (let z : ok (sort_allowed found) ≡ ok sets = rw (p, compute_allowed_version_sets) at e in
            cc) in
        let (_, takes) = add_overrides_complete overrides [] found p in
        subst (λ x. Memᴰ v (allowed_of k x)) q
          (allowed_of-sort_allowed found k v (
            subst
              (λ l.
                Memᴰ v
                  (allowed_of (record { module_name = k.module_name; compat_level = l }) found))
              a.level
              (takes k.module_name a.versions a.registry a.listed v a.found a.occurs a.in_graph)))
  ]
