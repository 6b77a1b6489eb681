-- ===== src/SelectionApi/Listed.antt =====
-- What `buildResult` and `Resolve` of selection_api.go list.
use go_bzlmod.Prelude.{
  Bool, true, false, not, ◌&&◌, ◌||◌, Bool-cases, Str, Result, List, [], ◌∷◌, contains,
  mem_of_contains, contains_of_mem, nat_eq, list_eq, ◌≡◌, refl, sym, ap, subst, ◌∙◌, ◌↔◌, inl, inr,
  Memᴰ,
}
use go_bzlmod.Prelude.Memᴰ
use go_bzlmod.Prelude.Maps.{Map, keys}
use go_bzlmod.Selection.Types.{ModuleKey, key_eq, Module, SelectionResult}
use go_bzlmod.Modules.{ModuleInfo, ModuleToResolve, override_index, registry_url_for_module}
use go_bzlmod.Metadata.{Metadata}
use go_bzlmod.Diff.{sort_by_name}
use go_bzlmod.Diff.Sorting.{NamesAscend, mem-sort_by_name, sort_by_name-NamesAscend}
use go_bzlmod.Resolver.Resolution.{ResolutionOptions}
use go_bzlmod.Resolver.Resolution.Entries.{
  Same, Same-refl, Same-sym, Same-mem, Same-NamesAscend, check_module_metadata-Same,
}
use go_bzlmod.SelectionApi.{
  compute_reachable_keys, prod_starts, dev_starts, is_root, required_by_of, result_module,
  result_modules, resolved_modules,
}
use go_bzlmod.SelectionApi.Starts.{ForDev, ForDev_lem}
use go_bzlmod.SelectionApi.Reachable.{ReachedFrom, compute_reachable_keys-ReachedFrom}

mem-result_modules :
    (skip : ModuleKey → Bool) (make : ModuleKey → ModuleToResolve) (graph : Map ModuleKey Module)
    {key : ModuleKey}
    → Memᴰ key (keys graph)
    → skip key ≡ false
    → Memᴰ (make key) (result_modules skip make graph)
unfolding result_modules
mem-result_modules skip make [] m h = elim m [ ]
mem-result_modules skip make ((k, v) ∷ rest) m h = elim (Memᴰ.cases_cons m) [
  | inl e ↦ rw (subst (λ x. skip x ≡ false) e h, result_modules) (Memᴰ.head (ap make e))
  | inr t ↦ elim (Bool-cases (skip k)) [
    | inl q ↦ rw (q, result_modules) (mem-result_modules skip make rest t h)
    | inr q ↦ rw (q, result_modules) (Memᴰ.tail (mem-result_modules skip make rest t h))
  ]
]

result_modules-mem :
    (skip : ModuleKey → Bool) (make : ModuleKey → ModuleToResolve) (graph : Map ModuleKey Module)
    {m : ModuleToResolve}
    → Memᴰ m (result_modules skip make graph)
    → (key : ModuleKey) × Memᴰ key (keys graph) × (skip key ≡ false) × (m ≡ make key)
unfolding result_modules
result_modules-mem skip make [] m = elim m [ ]
result_modules-mem skip make ((k, v) ∷ rest) m = elim (Bool-cases (skip k)) [
  | inl q ↦
      let (key, n, h, e) = result_modules-mem skip make rest (rw (q, result_modules) at m) in
      (key, Memᴰ.tail n, h, e)
  | inr q ↦ elim (Memᴰ.cases_cons (rw (q, result_modules) at m)) [
    | inl e ↦ (k, Memᴰ.head refl, q, e)
    | inr t ↦ let (key, n, h, e) = result_modules-mem skip make rest t in (key, Memᴰ.tail n, h, e)
  ]
]

and_not_iff :
    {A B : Type 0} (a b : Bool)
    → (a ≡ true) ↔ A
    → (b ≡ true) ↔ B
    → ((a && not b) ≡ true) ↔ (A × ¬ B)
and_not_iff true true f g =
    (λ h. absurd (let z : false ≡ true = h in cc), λ (x, n). absurd (n (g.0 refl)))
and_not_iff true false f g = (λ h. (f.0 refl, λ y. let z : false ≡ true = g.1 y in cc), λ h. refl)
and_not_iff false b f g = (
  λ h. absurd (let z : false ≡ true = h in cc),
  λ (x, n). absurd (let z : false ≡ true = f.1 x in cc),
)

iff_trans : {A B C : Type 0} → A ↔ B → B ↔ C → A ↔ C
iff_trans f g = (λ a. g.0 (f.0 a), λ c. f.1 (g.1 c))

contains-ReachedFrom :
    (graph : Map ModuleKey Module) (starts : List ModuleKey) (key : ModuleKey)
    → (contains (compute_reachable_keys graph starts) key ≡ true) ↔ ReachedFrom graph starts key
contains-ReachedFrom graph starts key = (
  λ h.
      (compute_reachable_keys-ReachedFrom graph starts key).0
        (mem_of_contains (compute_reachable_keys graph starts) key h),
  λ r.
      contains_of_mem (compute_reachable_keys graph starts) key
        ((compute_reachable_keys-ReachedFrom graph starts key).1 r),
)

module _ {ℓ} {E : Type ℓ} (get_module_metadata : Str → Result E Metadata) (default_registry : Str)
    (options : ResolutionOptions) (root_module : ModuleInfo) (result : SelectionResult) where
  abbrev graph : Map ModuleKey Module
  graph = result.resolved_graph

  abbrev is_dev : ModuleKey → Bool
  is_dev key =
      contains (compute_reachable_keys graph (dev_starts root_module graph)) key
      && not (contains (compute_reachable_keys graph (prod_starts root_module graph)) key)

  abbrev make : ModuleKey → ModuleToResolve
  make =
      result_module
        (λ name.
          registry_url_for_module default_registry name (override_index root_module.overrides []))
        is_dev (λ key. required_by_of key graph)

  abbrev made : List ModuleToResolve
  made = result_modules (is_root root_module) make graph

  abbrev listed : List ModuleToResolve
  listed = resolved_modules get_module_metadata default_registry options root_module result

  listed-Same : Same (sort_by_name (λ m. m.name) made) listed
  unfolding resolved_modules
  listed-Same = elim (Bool-cases (options.check_yanked || options.warn_deprecated)) [
    | inl h ↦
        rw (h, resolved_modules)
          (check_module_metadata-Same get_module_metadata options.allow_yanked_versions _)
    | inr h ↦ rw (h, resolved_modules) (Same-refl _)
  ]

  pub resolved_modules_correct :
      NamesAscend (λ m. m.name) listed
      × ((key : ModuleKey)
          → Memᴰ key (keys graph)
          → is_root root_module key ≡ false
          → (m : ModuleToResolve) × Memᴰ m listed
            × (m.name ≡ key.name)
            × (m.version ≡ key.version)
            × ((m.dev_dependency ≡ true) ↔ ForDev graph root_module key))
      × ((m : ModuleToResolve)
          → Memᴰ m listed
          → (key : ModuleKey) × Memᴰ key (keys graph)
            × (is_root root_module key ≡ false)
            × (m.name ≡ key.name)
            × (m.version ≡ key.version))
  resolved_modules_correct = (
    Same-NamesAscend _ listed listed-Same (sort_by_name-NamesAscend (λ m. m.name) made),
    (λ key n h.
        let i =
          (mem-sort_by_name (λ m. m.name) made).1
            (mem-result_modules (is_root root_module) make graph n h) in
        let (m, k, s) = Same-mem _ listed listed-Same i in
        (
          m,
          k,
          sym s.0,
          sym s.1,
          subst (λ b. (b ≡ true) ↔ ForDev graph root_module key) s.2
              (iff_trans
                (and_not_iff _ _ (contains-ReachedFrom graph (dev_starts root_module graph) key)
                  (contains-ReachedFrom graph (prod_starts root_module graph) key))
                (ForDev_lem graph root_module key)),
        )),
    λ m k.
        let (x, i, s) = Same-mem listed _ (Same-sym _ listed listed-Same) k in
        let (key, n, h, e) =
          result_modules-mem (is_root root_module) make graph
            ((mem-sort_by_name (λ m. m.name) made).0 i) in
        (key, n, h, s.0 ∙ ap (λ y. y.name) e, s.1 ∙ ap (λ y. y.version) e),
  )
