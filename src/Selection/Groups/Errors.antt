-- ===== src/Selection/Groups/Errors.antt =====
-- When `computeAllowedVersionSets` of selection/selection.go fails.
use mathlib.Core.List.Memᴰ
use go_bzlmod.Prelude.{
  Str, none, List, [], ◌∷◌, ◌≡◌, ◌≢◌, refl, ap, subst, ◌∙◌, inl, inr, Memᴰ, ok, err, Result-cases,
  Option-cases,
}
use go_bzlmod.Prelude.Maps.{Map, lookup}
use go_bzlmod.Selection.Types.{
  key_eq, DepGraph, Override, multiple_version, single_version, non_registry, SelectionError,
  allowed_version_missing,
}
use go_bzlmod.Selection.Groups.{
  AllowedVersionSets, add_allowed_versions, add_overrides, compute_allowed_version_sets,
}

-- An override lists a version that the graph does not have, and `e` says so.
pub record Missing (graph : DepGraph) (overrides : Map Str Override) (e : SelectionError)
    : Type 0 where
  pub name : Str
  pub version : Str
  pub versions : List Str
  pub registry : Str
  pub listed : Memᴰ (name, multiple_version versions registry) overrides
  pub occurs : Memᴰ version versions
  pub not_there : lookup (record { name = name; version = version }) graph.modules ≡ none
  pub is_error : e ≡ allowed_version_missing name version

later :
    {graph : DepGraph} {overrides : Map Str Override} {entry : Str × Override} {e : SelectionError}
    → Missing graph overrides e
    → Missing graph (entry ∷ overrides) e
later m = record {
  name = m.name;
  version = m.version;
  versions = m.versions;
  registry = m.registry;
  listed = Memᴰ.tail m.listed;
  occurs = m.occurs;
  not_there = m.not_there;
  is_error = m.is_error;
}

earlier :
    {graph : DepGraph} {overrides : Map Str Override} {entry : Str × Override} {e : SelectionError}
    → (m : Missing graph (entry ∷ overrides) e)
    → Memᴰ (m.name, multiple_version m.versions m.registry) overrides
    → Missing graph overrides e
earlier m t = record {
  name = m.name;
  version = m.version;
  versions = m.versions;
  registry = m.registry;
  listed = t;
  occurs = m.occurs;
  not_there = m.not_there;
  is_error = m.is_error;
}

module _ (graph : DepGraph) where
  versions_error :
      (name : Str) (vs : List Str) (sets : AllowedVersionSets) (e : SelectionError)
      → add_allowed_versions graph name vs sets ≡ err e
      → (v : Str) × Memᴰ v vs
        × (lookup (record { name = name; version = v }) graph.modules ≡ none)
        × (e ≡ allowed_version_missing name v)
  unfolding add_allowed_versions
  versions_error name [] sets e h = absurd (cc h)
  versions_error name (v ∷ vs) sets e h =
      elim (Option-cases (lookup (record { name = name; version = v }) graph.modules)) [
        | inl p ↦ let q = rw (p, add_allowed_versions) at h in (v, Memᴰ.head refl, p, cc q)
        | inr (m, p) ↦
            let (u, n, missing, same) =
              versions_error name vs _ e (rw (p, add_allowed_versions) at h) in
            (u, Memᴰ.tail n, missing, same)
      ]

  versions_found :
      (name : Str) (vs : List Str) (sets sets' : AllowedVersionSets)
      → add_allowed_versions graph name vs sets ≡ ok sets'
      → (v : Str) → Memᴰ v vs
      → lookup (record { name = name; version = v }) graph.modules ≢ none
  unfolding add_allowed_versions
  versions_found name [] sets sets' h v m = elim m [ ]
  versions_found name (u ∷ vs) sets sets' h v m =
      elim (Option-cases (lookup (record { name = name; version = u }) graph.modules)) [
        | inl p ↦ absurd (let q = rw (p, add_allowed_versions) at h in cc q)
        | inr (n, p) ↦ elim (Memᴰ.cases_cons m) [
          | inl same ↦ λ q. cc (same, p, q)
          | inr t ↦ versions_found name vs _ sets' (rw (p, add_allowed_versions) at h) v t
        ]
      ]

  overrides_error :
      (overrides : Map Str Override) (sets : AllowedVersionSets) (e : SelectionError)
      → add_overrides graph overrides sets ≡ err e
      → Missing graph overrides e
  unfolding add_overrides
  overrides_error [] sets e h = absurd (cc h)
  overrides_error ((name, multiple_version vs r) ∷ rest) sets e h =
      elim (Result-cases (add_allowed_versions graph name vs sets)) [
        | inl (next, p) ↦ later (overrides_error rest next e (rw (p, add_overrides) at h))
        | inr (f, p) ↦
            let q = rw (p, add_overrides) at h in
            let f-eq-e : f ≡ e = cc q in
            let (v, m, missing, same) = versions_error name vs sets e (p ∙ ap err f-eq-e) in
            record {
              name = name;
              version = v;
              versions = vs;
              registry = r;
              listed = Memᴰ.head refl;
              occurs = m;
              not_there = missing;
              is_error = same;
            }
      ]
  overrides_error ((name, single_version v r p) ∷ rest) sets e h =
      later (overrides_error rest sets e h)
  overrides_error ((name, non_registry k p) ∷ rest) sets e h = later (overrides_error rest sets e h)

  overrides_found :
      (overrides : Map Str Override) (sets sets' : AllowedVersionSets)
      → add_overrides graph overrides sets ≡ ok sets'
      → (e : SelectionError) → ¬ Missing graph overrides e
  unfolding add_overrides
  overrides_found [] sets sets' h e = λ m. Memᴰ.not-nil m.listed
  overrides_found ((name, multiple_version vs r) ∷ rest) sets sets' h e =
      elim (Result-cases (add_allowed_versions graph name vs sets)) [
        | inr (f, p) ↦ absurd (let q = rw (p, add_overrides) at h in cc q)
        | inl (next, p) ↦ λ m. elim (Memᴰ.cases_cons m.listed) [
          | inl same ↦
              let name' : m.name ≡ name = ap (λ t. t.0) same in
              let vs' : m.versions ≡ vs = cc same in
              versions_found name vs sets next p m.version (subst (Memᴰ m.version) vs' m.occurs) (
                subst (λ x. lookup (record { name = x; version = m.version }) graph.modules ≡ none)
                  name' m.not_there)
          | inr t ↦ overrides_found rest next sets' (rw (p, add_overrides) at h) e (earlier m t)
        ]
      ]
  overrides_found ((name, single_version v r p) ∷ rest) sets sets' h e = λ m.
      elim (Memᴰ.cases_cons m.listed) [
        | inl same ↦ absurd (cc same)
        | inr t ↦ overrides_found rest sets sets' h e (earlier m t)
      ]
  overrides_found ((name, non_registry k p) ∷ rest) sets sets' h e = λ m.
      elim (Memᴰ.cases_cons m.listed) [
        | inl same ↦ absurd (cc same)
        | inr t ↦ overrides_found rest sets sets' h e (earlier m t)
      ]

-- The sets fail with `e` only if some multiple-version override lists a version that the graph does
-- not have, and `e` names it; and if there is such an override the sets are not computed.
pub allowed_sets_error :
    (graph : DepGraph) (overrides : Map Str Override)
    → ((e : SelectionError)
        → compute_allowed_version_sets overrides graph ≡ err e
        → Missing graph overrides e)
      × ((e : SelectionError)
          → Missing graph overrides e
          → (sets : AllowedVersionSets) → compute_allowed_version_sets overrides graph ≢ ok sets)
unfolding compute_allowed_version_sets
allowed_sets_error graph overrides = elim (Result-cases (add_overrides graph overrides [])) [
  | inl (sets, p) ↦
      rw (p, compute_allowed_version_sets)
        ((λ e q. absurd (cc q)), (λ e m s q. overrides_found graph overrides [] sets p e m))
  | inr (f, p) ↦
      rw (p, compute_allowed_version_sets)
        (
          (λ e q. overrides_error graph overrides [] e (p ∙ ap err (let r : f ≡ e = cc q in r))),
          (λ e m s q. cc q),
        )
]
