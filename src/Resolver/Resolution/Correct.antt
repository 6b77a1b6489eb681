-- ===== src/Resolver/Resolution/Correct.antt =====
-- What a resolution list of resolver.go holds, and when there is none.
use go_bzlmod.Prelude.{
  suc, ◌+◌, Bool, true, false, not, ◌&&◌, ◌||◌, Bool-cases, Str, Option, some, Result, ok, err,
  Result-cases, List, [], ◌∷◌, map, length, All, if◌then◌else◌, ◌==◌, ==_iff, nat_eq, list_eq, ◌≡◌,
  ◌≢◌, refl, sym, ap, subst, ◌∙◌, ◌↔◌, ◌⊎◌, inl, inr, Memᴰ, arith,
}
use go_bzlmod.Prelude.Maps.{Map, lookup, keys, IsMap, lookup_of_mem, mem_of_lookup}
use go_bzlmod.Modules.{ModuleToResolve, ModuleInfo, override_index}
use go_bzlmod.Metadata.{Metadata, check_module_metadata}
use go_bzlmod.Compat.{check_module_bazel_compatibility}
use go_bzlmod.Diff.{sort_by_name}
use go_bzlmod.Diff.Sorting.{NamesAscend, mem-sort_by_name, sort_by_name-NamesAscend}
use go_bzlmod.Resolver.{DepRequest}
use go_bzlmod.Resolver.Depths.{calculate_module_depths}
use go_bzlmod.Resolver.Resolution.{
  YankedVersionBehavior, yanked_version_allow, yanked_version_warn, yanked_version_error,
  BazelCompatibilityMode, bazel_compatibility_off, bazel_compatibility_warn,
  bazel_compatibility_error, ResolutionOptions, Warning, ResolutionList, ResolutionError,
  yanked_versions_error, bazel_incompatibility_error, yanked_warning, incompatible_warning,
  root_dep_names, resolved_module_deps, registry_of, new_module, new_modules, count, summarize,
  modules_with, yanked_warnings, incompatible_warnings, is_off, listed_modules,
  build_resolution_list,
}
use go_bzlmod.Resolver.Resolution.Picks.{Picks, modules_with-Picks, IsSummary, summarize-IsSummary}
use go_bzlmod.Resolver.Resolution.Entries.{
  Same, Same-refl, Same-trans, Same-sym, Same-length, Same-mem, Same-NamesAscend,
  check_module_metadata-Same, check_module_bazel_compatibility-Same, length-sort_by_name,
  length-new_modules, mem-new_modules, new_modules-mem,
}

count_split :
    (ms : List ModuleToResolve)
    → count (λ m. not m.dev_dependency) ms + count (λ m. m.dev_dependency) ms ≡ length ms
unfolding count
count_split [] = refl
count_split (m ∷ ms) = ground (arith, count_split ms)

count_zero :
    (p : ModuleToResolve → Bool) (ms : List ModuleToResolve)
    → count p ms ≡ 0
    → All (λ m. p m ≡ false) ms
unfolding count
count_zero p [] h = tt
count_zero p (m ∷ ms) h = elim (Bool-cases (p m)) [
  | inl q ↦ absurd (let z : suc (count p ms) ≡ 0 = rw (q, count) at h in omega arith)
  | inr q ↦ (q, count_zero p ms (rw (q, count) at h))
]

modules_with-none :
    (p : ModuleToResolve → Bool) (ms : List ModuleToResolve)
    → modules_with p ms ≡ []
    → count p ms ≡ 0
unfolding count modules_with
modules_with-none p [] h = refl
modules_with-none p (m ∷ ms) h = elim (Bool-cases (p m)) [
  | inl q ↦ absurd (let z : m ∷ modules_with p ms ≡ [] = rw (q, modules_with) at h in cc)
  | inr q ↦ rw (q, count) (modules_with-none p ms (rw (q, modules_with) at h))
]

-- The outcomes of the two checks that may refuse the modules.
abbrev YankedOutcome :
    YankedVersionBehavior → List ModuleToResolve → Result ResolutionError (List Warning) → Type 0
YankedOutcome b ms (ok ws) = (b ≢ yanked_version_error) ⊎ All (λ m. m.yanked ≡ false) ms
YankedOutcome b ms (err e) =
    (e ≡ yanked_versions_error (modules_with (λ m. m.yanked) ms))
    × (b ≡ yanked_version_error)
    × (modules_with (λ m. m.yanked) ms ≢ [])

abbrev IncompatibleOutcome :
    BazelCompatibilityMode
    → Str
    → List ModuleToResolve
    → Result ResolutionError (List Warning)
    → Type 0
IncompatibleOutcome b version ms (ok ws) =
    (b ≢ bazel_compatibility_error) ⊎ All (λ m. m.is_bazel_incompatible ≡ false) ms
IncompatibleOutcome b version ms (err e) =
    (e ≡ bazel_incompatibility_error version (modules_with (λ m. m.is_bazel_incompatible) ms))
    × (b ≡ bazel_compatibility_error)
    × (modules_with (λ m. m.is_bazel_incompatible) ms ≢ [])

some_of_count :
    (p : ModuleToResolve → Bool) (ms : List ModuleToResolve)
    → count p ms == 0 ≡ false
    → modules_with p ms ≢ []
some_of_count p ms h e =
    let k : count p ms ≡ 0 = modules_with-none p ms e in
    let z : true ≡ false = sym ((==_iff (count p ms) 0).1 k) ∙ h in cc

yanked_warnings-YankedOutcome :
    (b : YankedVersionBehavior) (ms : List ModuleToResolve)
    → YankedOutcome b ms (yanked_warnings b ms)
unfolding yanked_warnings
yanked_warnings-YankedOutcome b ms = elim (Bool-cases (count (λ m. m.yanked) ms == 0)) [
  | inl h ↦
      rw (h, yanked_warnings)
        (inr (count_zero (λ m. m.yanked) ms ((==_iff (count (λ m. m.yanked) ms) 0).0 h)))
  | inr h ↦ rw (h, yanked_warnings) (by_behavior b h)
]
  where
    by_behavior :
        (b : YankedVersionBehavior)
        → count (λ m. m.yanked) ms == 0 ≡ false
        → YankedOutcome b ms (elim b [
          | yanked_version_allow ↦ ok []
          | yanked_version_warn ↦ ok (map yanked_warning (modules_with (λ m. m.yanked) ms))
          | yanked_version_error ↦ err (yanked_versions_error (modules_with (λ m. m.yanked) ms))
        ])
    by_behavior yanked_version_allow h = inl (λ q. cc)
    by_behavior yanked_version_warn h = inl (λ q. cc)
    by_behavior yanked_version_error h = (refl, refl, some_of_count (λ m. m.yanked) ms h)

incompatible_warnings-IncompatibleOutcome :
    (b : BazelCompatibilityMode) (version : Str) (ms : List ModuleToResolve)
    → IncompatibleOutcome b version ms (incompatible_warnings b version ms)
unfolding incompatible_warnings
incompatible_warnings-IncompatibleOutcome b version ms =
    elim (Bool-cases (count (λ m. m.is_bazel_incompatible) ms == 0)) [
      | inl h ↦
          rw (h, incompatible_warnings)
            (inr (
              count_zero (λ m. m.is_bazel_incompatible) ms
                ((==_iff (count (λ m. m.is_bazel_incompatible) ms) 0).0 h)))
      | inr h ↦ rw (h, incompatible_warnings) (by_mode b h)
    ]
  where
    by_mode :
        (b : BazelCompatibilityMode)
        → count (λ m. m.is_bazel_incompatible) ms == 0 ≡ false
        → IncompatibleOutcome b version ms (elim b [
          | bazel_compatibility_off ↦ ok []
          | bazel_compatibility_warn ↦
              ok (
                map (incompatible_warning version) (modules_with (λ m. m.is_bazel_incompatible) ms))
          | bazel_compatibility_error ↦
              err (
                bazel_incompatibility_error version
                  (modules_with (λ m. m.is_bazel_incompatible) ms))
        ])
    by_mode bazel_compatibility_off h = inl (λ q. cc)
    by_mode bazel_compatibility_warn h = inl (λ q. cc)
    by_mode bazel_compatibility_error h =
        (refl, refl, some_of_count (λ m. m.is_bazel_incompatible) ms h)

module _ {ℓ} {Error : Type ℓ} (get_module_metadata : Str → Result Error Metadata)
    (default_registry : Str) (chain : Option (Str → Str)) (options : ResolutionOptions)
    (selected : Map Str DepRequest) (module_deps : Map Str (List Str))
    (module_info_cache : Map Str ModuleInfo) (root_module : ModuleInfo) where
  abbrev make : Str → DepRequest → ModuleToResolve
  make =
      let deps = resolved_module_deps module_deps selected [] in
      new_module (registry_of default_registry chain (override_index root_module.overrides [])) deps
        (keys selected)
        (calculate_module_depths (root_dep_names options.include_dev_deps root_module.dependencies)
          deps (keys selected))

  abbrev sorted : List ModuleToResolve
  sorted = sort_by_name (λ m. m.name) (new_modules make selected)

  abbrev listed : List ModuleToResolve
  listed =
      listed_modules get_module_metadata default_registry chain options selected module_deps
        module_info_cache root_module

  listed-Same : Same sorted listed
  unfolding listed_modules
  listed-Same = elim (Bool-cases (options.check_yanked || options.warn_deprecated)) [
    | inl h ↦
        rw (h, listed_modules)
          (compatible
            (check_module_metadata get_module_metadata options.allow_yanked_versions sorted)
            (check_module_metadata-Same get_module_metadata options.allow_yanked_versions sorted))
    | inr h ↦ rw (h, listed_modules) (compatible sorted (Same-refl sorted))
  ]
    where
      compatible :
          (ms : List ModuleToResolve)
          → Same sorted ms
          → Same sorted (
              if not (is_off options.bazel_compatibility_mode) && not (options.bazel_version == [])
              then check_module_bazel_compatibility module_info_cache options.bazel_version ms
              else ms)
      compatible ms s =
          elim (Bool-cases
            (not (is_off options.bazel_compatibility_mode) && not (options.bazel_version == []))) [
              | inl h ↦ rw h (
                  Same-trans sorted ms _ s (
                    check_module_bazel_compatibility-Same module_info_cache options.bazel_version
                      ms))
              | inr h ↦ rw h s
            ]

  -- The names of the listed modules ascend; a module is listed at a version exactly if that version
  -- is selected for it, where the selection has one entry for each name; there are as many entries as
  -- selected versions, and the numbers of production and development modules add up to theirs.
  pub listed_modules_correct :
      IsMap selected
      → NamesAscend (λ m. m.name) listed
        × ((name version : Str)
            → ((m : ModuleToResolve) × Memᴰ m listed × (m.name ≡ name) × (m.version ≡ version))
              ↔ ((req : DepRequest) × (lookup name selected ≡ some req) × (req.version ≡ version)))
        × (length listed ≡ length selected)
        × ((summarize listed).production_modules + (summarize listed).dev_modules
            ≡ (summarize listed).total_modules)
  unfolding summarize
  listed_modules_correct d = (
    Same-NamesAscend sorted listed listed-Same
        (sort_by_name-NamesAscend (λ m. m.name) (new_modules make selected)),
    (λ name version. (
      λ (m, k, n, v).
          let (x, i, s) = Same-mem listed sorted (Same-sym sorted listed listed-Same) k in
          let (a, req, j, e) =
            new_modules-mem make selected
              ((mem-sort_by_name (λ m. m.name) (new_modules make selected)).0 i) in
          let p : a ≡ name = sym (ap (λ y. y.name) e) ∙ sym s.0 ∙ n in
          (
            req,
            lookup_of_mem selected d (subst (λ y. Memᴰ (y, req) selected) p j),
            sym (ap (λ y. y.version) e) ∙ sym s.1 ∙ v,
          ),
      λ (req, l, v).
          let i =
            (mem-sort_by_name (λ m. m.name) (new_modules make selected)).1
              (mem-new_modules make selected (mem_of_lookup name selected l)) in
          let (m, k, s) = Same-mem sorted listed listed-Same i in (m, k, sym s.0, sym s.1 ∙ v),
    )),
    sym (Same-length sorted listed listed-Same)
        ∙ length-sort_by_name (new_modules make selected)
        ∙ length-new_modules make selected,
    count_split listed,
  )

  -- A list, or the modules that the options refuse.
  abbrev pub Outcome : Result ResolutionError ResolutionList → Type 0
  Outcome (ok list) =
      (list.modules ≡ listed)
      × IsSummary listed list.summary
      × ((options.yanked_behavior ≢ yanked_version_error) ⊎ All (λ m. m.yanked ≡ false) listed)
      × ((options.bazel_compatibility_mode ≢ bazel_compatibility_error)
          ⊎ All (λ m. m.is_bazel_incompatible ≡ false) listed)
  Outcome (err (yanked_versions_error ms)) =
      (options.yanked_behavior ≡ yanked_version_error) × Picks (λ m. m.yanked) listed ms × (ms ≢ [])
  Outcome (err (bazel_incompatibility_error version ms)) =
      (options.bazel_compatibility_mode ≡ bazel_compatibility_error)
      × (version ≡ options.bazel_version)
      × Picks (λ m. m.is_bazel_incompatible) listed ms
      × (ms ≢ [])

  pub build_resolution_list-Outcome : Outcome (
      build_resolution_list get_module_metadata default_registry chain options selected module_deps
        module_info_cache root_module)
  unfolding build_resolution_list
  build_resolution_list-Outcome =
      elim (Result-cases (yanked_warnings options.yanked_behavior listed)) [
        | inr (e, h) ↦
            let (p, q, n) =
              subst (YankedOutcome options.yanked_behavior listed) h
                (yanked_warnings-YankedOutcome options.yanked_behavior listed) in
            rw (h, build_resolution_list, p) (q, modules_with-Picks (λ m. m.yanked) listed, n)
        | inl (ws, h) ↦
            let y =
              subst (YankedOutcome options.yanked_behavior listed) h
                (yanked_warnings-YankedOutcome options.yanked_behavior listed) in
            elim (Result-cases (
              incompatible_warnings options.bazel_compatibility_mode options.bazel_version
                listed)) [
                  | inr (e, k) ↦
                      let (p, q, n) =
                        subst
                          (IncompatibleOutcome options.bazel_compatibility_mode
                            options.bazel_version listed)
                          k
                          (incompatible_warnings-IncompatibleOutcome
                            options.bazel_compatibility_mode options.bazel_version listed) in
                      rw (h, build_resolution_list, k, p)
                        (q, refl, modules_with-Picks (λ m. m.is_bazel_incompatible) listed, n)
                  | inl (vs, k) ↦
                      let i =
                        subst
                          (IncompatibleOutcome options.bazel_compatibility_mode
                            options.bazel_version listed)
                          k
                          (incompatible_warnings-IncompatibleOutcome
                            options.bazel_compatibility_mode options.bazel_version listed) in
                      rw (h, build_resolution_list, k) (refl, summarize-IsSummary listed, y, i)
                ]
      ]
