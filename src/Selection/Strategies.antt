-- ===== src/Selection/Strategies.antt =====
-- selection/selection.go, step 4 of `Run`: the resolution strategies, one for each combination of
-- the versions that a dependency with a maximal compatibility level can resolve to.
pub mod Possible
pub mod Product
pub mod Default
pub mod Enumerate
pub mod Seen
pub mod Complete
pub mod Plain
use go_bzlmod.Prelude.{
  Ordering, lt, eq, gt, Str, strings_compare, Bool, true, false, not, ◌||◌, Option, none, some,
  List, [], ◌∷◌, ◌++◌, map, length, ltb, Eq, ◌==◌, ==_iff, nat_eq, list_eq, if◌then◌else◌, ◌&&◌,
  ◌≡◌, ◌↔◌, arith,
}
use go_bzlmod.Prelude.Int.{ℤ, pos, ltb_ℤ, compare_ℤ, int_eq}
use go_bzlmod.Prelude.Maps.{Map, keys, lookup, insert}
use go_bzlmod.Version
use go_bzlmod.Selection.Types.{
  ModuleKey, key_eq, DepSpec, to_module_key, Module, DepGraph, SelectionGroup, group_eq,
}
use go_bzlmod.Selection.Groups.{SelectionGroups, SelectedVersions}

pub record ResolutionResult : Type 0 where
  pub version : Str
  pub compat_level : ℤ

-- The body of the loop over the selected versions in
-- `computePossibleResolutionResultsForOneDepSpec`.
unfoldable pub offer_version : DepSpec → ℤ → ℤ → SelectionGroup → Str → Map ℤ Str → Map ℤ Str
offer_version dep low high group selected results =
    if not (group.module_name == dep.name)
    then results
    else if ltb_ℤ group.compat_level low || ltb_ℤ high group.compat_level
    then results
    else elim (Version.compare selected dep.version) [
      | lt ↦ results
      | _ ↦ elim (lookup group.compat_level results) [
        | none ↦ insert group.compat_level selected results
        | some existing ↦ elim (Version.compare selected existing) [
          | lt ↦ insert group.compat_level selected results
          | _ ↦ results
        ]
      ]
    ]

unfoldable pub offer_versions : DepSpec → ℤ → ℤ → SelectedVersions → Map ℤ Str → Map ℤ Str
offer_versions dep low high [] results = results
offer_versions dep low high ((group, selected) ∷ rest) results =
    offer_versions dep low high rest (offer_version dep low high group selected results)

-- `slices.SortFunc` by the compatibility level, here by insertion; the levels are distinct.
unfoldable pub insert_result : ResolutionResult → List ResolutionResult → List ResolutionResult
insert_result r [] = r ∷ []
insert_result r (s ∷ rest) =
    let later = insert_result r rest in
    elim (compare_ℤ r.compat_level s.compat_level) [ gt ↦ s ∷ later | _ ↦ r ∷ s ∷ rest ]

unfoldable pub sorted_results : Map ℤ Str → List ResolutionResult
sorted_results [] = []
sorted_results ((level, v) ∷ rest) =
    insert_result (record { version = v; compat_level = level }) (sorted_results rest)

-- `maxCompatLevel`
abbrev pub max_level : DepSpec → ℤ → ℤ
max_level dep low =
    if ltb_ℤ dep.max_compatibility_level (pos 0) then low else dep.max_compatibility_level

-- `computePossibleResolutionResultsForOneDepSpec`
unfoldable pub compute_possible_resolution_results_for_one_dep_spec :
    DepSpec → DepGraph → SelectedVersions → List ResolutionResult
compute_possible_resolution_results_for_one_dep_spec dep graph selected =
    elim (lookup (to_module_key dep) graph.modules) [
      | none ↦ record { version = dep.version; compat_level = pos 0 } ∷ []
      | some target ↦
          let low = target.compat_level in
          let high = max_level dep low in
          if ltb_ℤ high low then [] else sorted_results (offer_versions dep low high selected [])
    ]

-- `depSpecKey` has the fields of a `ModuleKey`, and serves as one here.
abbrev pub DepSpecKey : Type 0
DepSpecKey = ModuleKey

-- The two inner loops of `computeAllPossibleResolutions`, over the dependencies of one module.
unfoldable pub see_deps : List DepSpec → Map DepSpecKey DepSpec → Map DepSpecKey DepSpec
see_deps [] seen = seen
see_deps (dep ∷ deps) seen = see_deps deps (
    if ltb_ℤ dep.max_compatibility_level (pos 0)
    then seen
    else elim (lookup (to_module_key dep) seen) [
      | none ↦ insert (to_module_key dep) dep seen
      | some _ ↦ seen
    ])

unfoldable pub see_modules : Map ModuleKey Module → Map DepSpecKey DepSpec → Map DepSpecKey DepSpec
see_modules [] seen = seen
see_modules ((_, module') ∷ rest) seen =
    see_modules rest (see_deps module'.nodep_deps (see_deps module'.deps seen))

-- The last loop: the entries with more than one possibility.
unfoldable pub ambiguous :
    DepGraph → SelectedVersions → Map DepSpecKey DepSpec → Map DepSpecKey (List ResolutionResult)
ambiguous graph selected [] = []
ambiguous graph selected ((key, dep) ∷ rest) =
    let possible = compute_possible_resolution_results_for_one_dep_spec dep graph selected in
    let later = ambiguous graph selected rest in
    if ltb 1 (length possible) then (key, possible) ∷ later else later

unfoldable pub compute_all_possible_resolutions :
    DepGraph → SelectedVersions → Map DepSpecKey (List ResolutionResult)
compute_all_possible_resolutions graph selected =
    ambiguous graph selected (see_modules graph.modules [])

abbrev pub Strategy : Type 0
Strategy = DepSpec → Str

-- `selectedVersions[group]`; a missing key reads as the empty string.
abbrev pub selected_of : SelectionGroup → SelectedVersions → Str
selected_of group selected = elim (lookup group selected) [ none ↦ [] | some v ↦ v ]

unfoldable pub make_default_strategy : SelectionGroups → SelectedVersions → Strategy
make_default_strategy groups selected dep = elim (lookup (to_module_key dep) groups) [
  | none ↦ dep.version
  | some group ↦ selected_of group selected
]

unfoldable pub make_strategy_from_combination :
    Map DepSpecKey Str → SelectionGroups → SelectedVersions → Strategy
make_strategy_from_combination combination groups selected dep =
    elim (lookup (to_module_key dep) combination) [
      | some v ↦ v
      | none ↦ elim (lookup (to_module_key dep) groups) [
        | none ↦ dep.version
        | some group ↦ selected_of group selected
      ]
    ]

-- The two inner loops of `cartesianProduct`: every combination so far with every possibility.
unfoldable pub extend_one :
    DepSpecKey → Map DepSpecKey Str → List ResolutionResult → List (Map DepSpecKey Str)
extend_one key existing [] = []
extend_one key existing (poss ∷ rest) =
    insert key poss.version existing ∷ extend_one key existing rest

unfoldable pub extend_all :
    DepSpecKey → List ResolutionResult → List (Map DepSpecKey Str) → List (Map DepSpecKey Str)
extend_all key possibilities [] = []
extend_all key possibilities (existing ∷ rest) =
    extend_one key existing possibilities ++ extend_all key possibilities rest

-- `allPossible[key]`; a missing key reads as nil.
abbrev pub possibilities_of :
    DepSpecKey → Map DepSpecKey (List ResolutionResult) → List ResolutionResult
possibilities_of key all = elim (lookup key all) [ none ↦ [] | some rs ↦ rs ]

unfoldable pub cartesian_product :
    List DepSpecKey
    → Map DepSpecKey (List ResolutionResult)
    → List (Map DepSpecKey Str)
    → List (Map DepSpecKey Str)
cartesian_product [] all result = result
cartesian_product (key ∷ rest) all result =
    cartesian_product rest all (extend_all key (possibilities_of key all) result)

-- The comparison by which `enumerateStrategies` sorts its keys.
abbrev pub compare_keys : DepSpecKey → DepSpecKey → Ordering
compare_keys a b =
    if a.name == b.name then strings_compare a.version b.version else strings_compare a.name b.name

unfoldable pub insert_key : DepSpecKey → List DepSpecKey → List DepSpecKey
insert_key k [] = k ∷ []
insert_key k (j ∷ js) =
    let later = insert_key k js in elim (compare_keys k j) [ gt ↦ j ∷ later | _ ↦ k ∷ j ∷ js ]

unfoldable pub sort_keys : List DepSpecKey → List DepSpecKey
sort_keys [] = []
sort_keys (k ∷ ks) = insert_key k (sort_keys ks)

unfoldable pub strategies_of :
    SelectionGroups → SelectedVersions → List (Map DepSpecKey Str) → List Strategy
strategies_of groups selected [] = []
strategies_of groups selected (combo ∷ rest) =
    make_strategy_from_combination combo groups selected ∷ strategies_of groups selected rest

-- `enumerateStrategies` behind the call of `computeAllPossibleResolutions`.
unfoldable pub strategies_for :
    SelectionGroups → SelectedVersions → Map DepSpecKey (List ResolutionResult) → List Strategy
strategies_for groups selected [] = make_default_strategy groups selected ∷ []
strategies_for groups selected (entry ∷ rest) =
    strategies_of groups selected
      (cartesian_product (sort_keys (keys (entry ∷ rest))) (entry ∷ rest) ([] ∷ []))

unfoldable pub enumerate_strategies : DepGraph → SelectionGroups → SelectedVersions → List Strategy
enumerate_strategies graph groups selected =
    strategies_for groups selected (compute_all_possible_resolutions graph selected)
