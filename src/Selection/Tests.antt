-- ===== src/Selection/Tests.antt =====
-- Runs of the selection on small graphs, and the theorems at them.
use go_bzlmod.Prelude.{
  ◌↔◌, ◌<◌, length, Str, codes, some, none, List, [], ◌∷◌, ◌≡◌, refl, ok, err, Result, split, span,
  true, if◌then◌else◌, ◌==◌, nat_eq, list_eq, ◌≢◌, ◌⊎◌, Memᴰ, All, map,
}
use go_bzlmod.Prelude.Int.{ℤ, pos, negsuc}
use go_bzlmod.Prelude.Maps.{Map, lookup}
use go_bzlmod.Version
use go_bzlmod.Version.{
  match_build, match_prerelease, match_pattern, parse_uint, parse_identifier, compare_identifiers,
  parsed_of_groups, parse, first_difference, compare_identifier_lists, compare_parsed,
  compare_results, insert_sorted,
}
use go_bzlmod.Selection.Types.{
  Override, multiple_version, SelectionError, to_module_key, key_eq, SelectionGroup, group_eq,
  out_of_fuel, ModuleNameAndCompatLevel, name_and_compat_eq, ModuleKey, DepSpec, Module, DepGraph,
  SelectionResult,
}
use go_bzlmod.Selection.Groups.{
  add_allowed_versions, add_overrides, sort_allowed, compute_allowed_version_sets, ceiling,
  compute_selection_group, selection_groups, select_version, selected_versions,
}
use go_bzlmod.Selection.Strategies.{
  offer_version, offer_versions, insert_result, sorted_results,
  compute_possible_resolution_results_for_one_dep_spec, see_deps, see_modules, ambiguous,
  compute_all_possible_resolutions, make_default_strategy, make_strategy_from_combination,
  extend_one, extend_all, cartesian_product, insert_key, sort_keys, strategies_of, strategies_for,
  enumerate_strategies,
}
use go_bzlmod.Selection.Walker.{
  excessive_level, transform_deps, multiple_versions, visit, enqueue, new_module, add_module,
  process, walk_loop, walk,
}
use go_bzlmod.Selection.Run.{unpruned_graph_of, try_strategy, try_strategies, run}
use go_bzlmod.Selection.Groups.{AllowedVersionSets, SelectionGroups, SelectedVersions}
use go_bzlmod.Selection.Groups.Highest.{AllValid, Occurs, IsHighest, selected_versions-IsHighest}
use go_bzlmod.Selection.Groups.Allowed.{IsAllowed}
use go_bzlmod.Selection.Groups.Ceiling.{ModulesValid, IsCeiling, target_correct}
use go_bzlmod.Selection.Groups.Errors.{Missing, allowed_sets_error}
use go_bzlmod.Selection.Strategies.{Strategy, ResolutionResult, DepSpecKey, possibilities_of}
use go_bzlmod.Selection.Strategies.Default.{default_strategy_selects_highest}
use go_bzlmod.Selection.Strategies.Product.{Assigns, Combination, cartesian_product_correct}
use go_bzlmod.Selection.Strategies.Seen.{IsLimited}
use go_bzlmod.Selection.Strategies.Complete.{IsCandidate, Follows, enumerate_strategies_correct}
use go_bzlmod.Selection.Walker.{Walker, WalkState, start, resolve}
use go_bzlmod.Selection.Walker.Reachable.{IsCollected, walk_correct}
use go_bzlmod.Selection.Run.{walker_of}
use go_bzlmod.Selection.Run.Selected.{IsSelected, run_correct, run_total}
use go_bzlmod.Selection.Run.Plain.{ResolvesToHighest, run_selects_highest}
use go_bzlmod.Version.Order.{IsValid}
use go_bzlmod.Version.Sorting.{Le}

-- Opens all that a run computes with.
opened : Unit {0}
unfolding Version.compare Version.sort match_build match_prerelease match_pattern parse_uint
    parse_identifier compare_identifiers parsed_of_groups parse first_difference
    compare_identifier_lists compare_parsed compare_results insert_sorted split span
    add_allowed_versions add_overrides sort_allowed compute_allowed_version_sets ceiling
    compute_selection_group selection_groups select_version selected_versions offer_version
    offer_versions insert_result sorted_results compute_possible_resolution_results_for_one_dep_spec
    see_deps see_modules ambiguous compute_all_possible_resolutions make_default_strategy
    make_strategy_from_combination extend_one extend_all cartesian_product insert_key sort_keys
    strategies_of strategies_for enumerate_strategies excessive_level transform_deps
    multiple_versions visit enqueue new_module add_module process walk_loop walk unpruned_graph_of
    try_strategy try_strategies run
opened = tt

abbrev key : Str → Str → ModuleKey
key name version = record { name = name; version = version }

abbrev dep : Str → Str → DepSpec
dep name version = record { name = name; version = version; max_compatibility_level = negsuc 0 }

abbrev dep_up_to : Str → Str → ℤ → DepSpec
dep_up_to name version level = record {
  name = name;
  version = version;
  max_compatibility_level = level;
}

abbrev entry : ModuleKey → ℤ → List DepSpec → ModuleKey × Module
entry k level deps = (k, record { key = k; deps = deps; compat_level = level; nodep_deps = [] })

abbrev root_key : ModuleKey
root_key = key (codes "root") []

abbrev a : Str
a = codes "a"

abbrev b : Str
b = codes "b"

-- The root asks for a 1.0 and b 1.0, which asks for a 1.10.
abbrev diamond : DepGraph
diamond = record {
  modules =
      entry root_key (pos 0) (dep a (codes "1.0") ∷ dep b (codes "1.0") ∷ [])
      ∷ entry (key a (codes "1.0")) (pos 0) []
      ∷ entry (key a (codes "1.10")) (pos 0) []
      ∷ entry (key b (codes "1.0")) (pos 0) (dep a (codes "1.10") ∷ [])
      ∷ [];
  root_key = root_key;
}

abbrev resolved_diamond : Map ModuleKey Module
resolved_diamond =
    entry root_key (pos 0) (dep a (codes "1.10") ∷ dep b (codes "1.0") ∷ [])
    ∷ entry (key a (codes "1.10")) (pos 0) []
    ∷ entry (key b (codes "1.0")) (pos 0) (dep a (codes "1.10") ∷ [])
    ∷ []

abbrev diamond_result : SelectionResult
diamond_result = record {
  resolved_graph = resolved_diamond;
  unpruned_graph =
      entry root_key (pos 0) (dep a (codes "1.10") ∷ dep b (codes "1.0") ∷ [])
      ∷ entry (key a (codes "1.0")) (pos 0) []
      ∷ entry (key a (codes "1.10")) (pos 0) []
      ∷ entry (key b (codes "1.0")) (pos 0) (dep a (codes "1.10") ∷ [])
      ∷ [];
  bfs_order = root_key ∷ key a (codes "1.10") ∷ key b (codes "1.0") ∷ [];
}

run-diamond : run diamond [] ≡ ok (some diamond_result)
unfolding opened
run-diamond = refl

-- The theorems at the diamond.

from_ok : WalkState → Result SelectionError WalkState → WalkState
from_ok t (ok s) = s
from_ok t (err e) = t

abbrev highest_a : Strategy
highest_a d = if d.name == a then codes "1.10" else d.version

abbrev walker : Walker
walker = walker_of true diamond [] []

abbrev walked : WalkState
walked = from_ok (start diamond) (walk walker highest_a)

walk-diamond : walk walker highest_a ≡ ok walked
unfolding opened from_ok
walk-diamond = refl

walked_order : walked.bfs_order ≡ root_key ∷ key a (codes "1.10") ∷ key b (codes "1.0") ∷ []
unfolding opened from_ok
walked_order = refl

valid_empty : IsValid []
unfolding opened
valid_empty = record { parsed = _; parses = refl }

valid_1_0 : IsValid (codes "1.0")
unfolding opened
valid_1_0 = record { parsed = _; parses = refl }

valid_1_10 : IsValid (codes "1.10")
unfolding opened
valid_1_10 = record { parsed = _; parses = refl }

diamond_valid : ModulesValid diamond
diamond_valid = (valid_empty, (valid_1_0, (valid_1_10, (valid_1_0, tt))))

abbrev group_of : Str → SelectionGroup
group_of name = record { module_name = name; compat_level = pos 0; target_allowed_version = [] }

abbrev groups : SelectionGroups
groups =
    (key a (codes "1.0"), group_of a)
    ∷ (key a (codes "1.10"), group_of a)
    ∷ (key b (codes "1.0"), group_of b)
    ∷ []

groups_valid : AllValid groups
groups_valid = (valid_1_0, (valid_1_10, (valid_1_0, tt)))

highest-groups :
    selected_versions groups [] ≡ (group_of a, codes "1.10") ∷ (group_of b, codes "1.0") ∷ []
unfolding opened
highest-groups = refl

run_correct_example : IsSelected diamond [] diamond_result
run_correct_example = run_correct diamond [] diamond_result run-diamond

run_total_example : (run diamond [] ≢ ok none) × (run diamond [] ≢ err out_of_fuel)
run_total_example = run_total diamond []

walk_correct_example : IsCollected walker highest_a walked
walk_correct_example = walk_correct walker highest_a walked walk-diamond

run_selects_highest_example :
    (sets : AllowedVersionSets) × (strategy : Strategy) × (compute_allowed_version_sets [] diamond
      ≡ ok sets)
    × ((k : ModuleKey) (m old : Module)
        → lookup k diamond_result.resolved_graph ≡ some m
        → lookup k diamond.modules ≡ some old
        → m.deps ≡ map (resolve strategy) old.deps)
    × ((d : DepSpec) (target : Module)
        → lookup (to_module_key d) diamond.modules ≡ some target
        → ResolvesToHighest sets diamond d target (strategy d))
run_selects_highest_example =
    run_selects_highest diamond [] diamond_result diamond_valid
      (((refl, (refl, tt)), tt), ((tt, tt), ((tt, tt), (((refl, tt), tt), tt)))) run-diamond

selected_versions-IsHighest_example : IsHighest groups (selected_versions groups [])
selected_versions-IsHighest_example = selected_versions-IsHighest groups groups_valid

default_strategy_selects_highest_example :
    Occurs groups
      (group_of a)
      (make_default_strategy groups (selected_versions groups []) (dep a (codes "1.0")))
    × Le
        (codes "1.0")
        (make_default_strategy groups (selected_versions groups []) (dep a (codes "1.0")))
    × ((k : ModuleKey)
        → Memᴰ (k, group_of a) groups
        → Le k.version
            (make_default_strategy groups (selected_versions groups []) (dep a (codes "1.0"))))
default_strategy_selects_highest_example =
    default_strategy_selects_highest groups (dep a (codes "1.0")) (group_of a) groups_valid refl

-- An override of `a` that allows 1.10 alone, and one that names a version that is not there.
abbrev only_1_10 : Map Str Override
only_1_10 = (a, multiple_version (codes "1.10" ∷ []) []) ∷ []

abbrev level_of_a : ModuleNameAndCompatLevel
level_of_a = record { module_name = a; compat_level = pos 0 }

abbrev allowed_a : AllowedVersionSets
allowed_a = (level_of_a, codes "1.10" ∷ []) ∷ []

allowed-only : compute_allowed_version_sets only_1_10 diamond ≡ ok allowed_a
unfolding opened
allowed-only = refl

abbrev old_a : Module
old_a = record { key = key a (codes "1.0"); deps = []; compat_level = pos 0; nodep_deps = [] }

target_correct_example :
    (((v : Str) → ¬ IsAllowed only_1_10 diamond level_of_a v)
      × ((compute_selection_group old_a allowed_a).target_allowed_version ≡ []))
    ⊎ ((allowed : List Str) × ((v : Str)
          → Memᴰ v allowed ↔ IsAllowed only_1_10 diamond level_of_a v)
        × IsCeiling
            (codes "1.0")
            allowed
            (compute_selection_group old_a allowed_a).target_allowed_version)
target_correct_example = target_correct only_1_10 diamond allowed_a diamond_valid allowed-only old_a

-- The graph has no such version of `a`.
abbrev only_9_9 : Map Str Override
only_9_9 = (a, multiple_version (codes "9.9" ∷ []) []) ∷ []

allowed_sets_error_example :
    ((e : SelectionError)
      → compute_allowed_version_sets only_9_9 diamond ≡ err e
      → Missing diamond only_9_9 e)
    × ((e : SelectionError)
        → Missing diamond only_9_9 e
        → (sets : AllowedVersionSets) → compute_allowed_version_sets only_9_9 diamond ≢ ok sets)
allowed_sets_error_example = allowed_sets_error diamond only_9_9

-- Two levels of `a` that a dependency with the maximum 2 can resolve to.
abbrev leveled : DepGraph
leveled = record {
  modules =
      entry root_key (pos 0) (dep_up_to a (codes "1.0") (pos 2) ∷ [])
      ∷ entry (key a (codes "1.0")) (pos 1) []
      ∷ entry (key a (codes "2.0")) (pos 2) []
      ∷ [];
  root_key = root_key;
}

abbrev at_level : ℤ → SelectionGroup
at_level level = record { module_name = a; compat_level = level; target_allowed_version = [] }

abbrev leveled_selected : SelectedVersions
leveled_selected = (at_level (pos 1), codes "1.0") ∷ (at_level (pos 2), codes "2.0") ∷ []

abbrev one : ResolutionResult
one = record { version = codes "1.0"; compat_level = pos 1 }

abbrev two : ResolutionResult
two = record { version = codes "2.0"; compat_level = pos 2 }

possible-leveled :
    compute_possible_resolution_results_for_one_dep_spec
      (dep_up_to a (codes "1.0") (pos 2))
      leveled
      leveled_selected
    ≡ one ∷ two ∷ []
unfolding opened
possible-leveled = refl

abbrev target_a : Module
target_a = record { key = key a (codes "1.0"); deps = []; compat_level = pos 1; nodep_deps = [] }

abbrev choices : Map DepSpecKey (List ResolutionResult)
choices = (key a (codes "1.0"), one ∷ two ∷ []) ∷ []

cartesian_product_correct_example :
    All
      (λ combo. (k : DepSpecKey) → Memᴰ k (key a (codes "1.0") ∷ []) → Assigns choices combo k)
      (cartesian_product (key a (codes "1.0") ∷ []) choices ([] ∷ []))
    × ((choice : DepSpecKey → ResolutionResult)
        → ((k : DepSpecKey)
            → Memᴰ k (key a (codes "1.0") ∷ [])
            → Memᴰ (choice k) (possibilities_of k choices))
        → (c : Combination) × Memᴰ c
            (cartesian_product (key a (codes "1.0") ∷ []) choices ([] ∷ []))
          × ((k : DepSpecKey)
              → Memᴰ k (key a (codes "1.0") ∷ [])
              → lookup k c ≡ some (choice k).version))
cartesian_product_correct_example = cartesian_product_correct choices (key a (codes "1.0") ∷ [])

enumerate_strategies_correct_example :
    All (IsCandidate leveled [] leveled_selected) (enumerate_strategies leveled [] leveled_selected)
    × ((choice : ModuleKey → ResolutionResult)
        → ((d : DepSpec)
            → IsLimited leveled.modules d
            → 1
              < length
                  (compute_possible_resolution_results_for_one_dep_spec d leveled leveled_selected)
            → Memᴰ
                (choice (to_module_key d))
                (compute_possible_resolution_results_for_one_dep_spec d leveled leveled_selected))
        → (s : DepSpec → Str) × Memᴰ s (enumerate_strategies leveled [] leveled_selected)
          × Follows leveled [] leveled_selected choice s)
enumerate_strategies_correct_example = enumerate_strategies_correct leveled [] leveled_selected
