-- ===== src/SelectionApi/Tests.antt =====
-- A resolution with selection_api.go from a discovery that is done, and the theorems at it.
use go_bzlmod.Prelude.{
  ℕ, Bool, true, false, Str, codes, split, span, some, Result, ok, err, List, [], ◌∷◌, nat_eq,
  list_eq, ◌≡◌, refl, Memᴰ,
}
use go_bzlmod.Prelude.Int.{pos, negsuc}
use go_bzlmod.Version
use go_bzlmod.Version.{
  match_build, match_prerelease, match_pattern, parse_uint, parse_identifier, compare_identifiers,
  parsed_of_groups, parse, first_difference, compare_identifier_lists, compare_parsed,
  compare_results, insert_sorted,
}
use go_bzlmod.Selection.Types.{
  key_eq, group_eq, name_and_compat_eq, ModuleKey, DepSpec, Module, SelectionResult,
}
use go_bzlmod.Selection.Groups.{
  add_allowed_versions, add_overrides, sort_allowed, compute_allowed_version_sets, ceiling,
  compute_selection_group, selection_groups, select_version, selected_versions,
}
use go_bzlmod.Selection.Strategies.{
  offer_version, offer_versions, insert_result, sorted_results,
  compute_possible_resolution_results_for_one_dep_spec, see_deps, see_modules, ambiguous,
  compute_all_possible_resolutions, make_default_strategy, make_strategy_from_combination,
  extend_one, extend_all, cartesian_product, insert_key, sort_keys, strategies_of, strategies_for,
  enumerate_strategies,
}
use go_bzlmod.Selection.Walker.{
  excessive_level, transform_deps, multiple_versions, visit, enqueue, new_module, add_module,
  process, walk_loop, walk,
}
use go_bzlmod.Selection.Run.{unpruned_graph_of, try_strategy, try_strategies, run}
-- Opens all that a run computes with.
use go_bzlmod.Metadata.{Metadata}
use go_bzlmod.Modules.{OverrideType, ModuleToResolve, index_overrides, convert_overrides}
use go_bzlmod.Discovery.{root_key, build_dep_specs, unvisited, take_target, end_fetch}
use go_bzlmod.Discovery.Spec.{outcome, Leads}
use go_bzlmod.Discovery.Tests.{sources, last, run as test_run, run-IsDone}
use go_bzlmod.Diff.{insert_by_name, sort_by_name}
use go_bzlmod.Resolver.Resolution.{
  yanked_version_allow, direct_deps_off, bazel_compatibility_off, ResolutionOptions, count,
  yanked_warnings,
}
use go_bzlmod.SelectionApi.{
  ResolvedResult, resolved_modules, result_modules, put_keys, reach_loop, all_dep_keys,
  compute_reachable_keys, root_names, starts_of, unpruned_modules, build_result,
  resolve as api_resolve, dev_starts, no_selection,
}
use go_bzlmod.SelectionApi.Resolved.{resolve-Leads}

opened : Unit {0}
unfolding Version.compare Version.sort match_build match_prerelease match_pattern parse_uint
    parse_identifier compare_identifiers parsed_of_groups parse first_difference
    compare_identifier_lists compare_parsed compare_results insert_sorted split span
    add_allowed_versions add_overrides sort_allowed compute_allowed_version_sets ceiling
    compute_selection_group selection_groups select_version selected_versions offer_version
    offer_versions insert_result sorted_results compute_possible_resolution_results_for_one_dep_spec
    see_deps see_modules ambiguous compute_all_possible_resolutions make_default_strategy
    make_strategy_from_combination extend_one extend_all cartesian_product insert_key sort_keys
    strategies_of strategies_for enumerate_strategies excessive_level transform_deps
    multiple_versions visit enqueue new_module add_module process walk_loop walk unpruned_graph_of
    try_strategy try_strategies run build_dep_specs unvisited take_target end_fetch index_overrides
    convert_overrides insert_by_name sort_by_name count yanked_warnings resolved_modules
    result_modules put_keys reach_loop all_dep_keys compute_reachable_keys root_names starts_of
    unpruned_modules build_result api_resolve
opened = tt

abbrev options : ResolutionOptions
options = record {
  include_dev_deps = true;
  substitute_yanked = true;
  check_yanked = false;
  warn_deprecated = false;
  allow_yanked_versions = [];
  yanked_behavior = yanked_version_allow;
  direct_deps_mode = direct_deps_off;
  bazel_compatibility_mode = bazel_compatibility_off;
  bazel_version = [];
}

abbrev get_metadata : Str → Result ℕ Metadata
get_metadata name = err 404

abbrev kind : OverrideType → Str
kind t = codes "local_path"

abbrev resolved : Result (go_bzlmod.SelectionApi.ResolveError ℕ) ResolvedResult
resolved = api_resolve sources get_metadata (codes "bcr") options kind last

abbrev module_names : List ModuleToResolve → List (Str × Bool)
module_names [] = []
module_names (m ∷ ms) = (m.name, m.dev_dependency) ∷ module_names ms

abbrev no_result : ResolvedResult
no_result = record {
  modules = [];
  summary = go_bzlmod.SelectionApi.summary_of [];
  warnings = [];
  unpruned = [];
  bfs_order = [];
}

abbrev value : Result (go_bzlmod.SelectionApi.ResolveError ℕ) ResolvedResult → ResolvedResult
value (ok r) = r
value (err _) = no_result

resolved_ok : resolved ≡ ok (value resolved)
unfolding opened
resolved_ok = refl

-- `b` is a development dependency of the root, and a production dependency of `a`.
resolved_names :
    module_names (value resolved).modules ≡ (codes "a", false) ∷ (codes "b", false) ∷ []
unfolding opened
resolved_names = refl

abbrev first_module : List ModuleToResolve → ModuleToResolve
first_module [] =
    go_bzlmod.SelectionApi.result_module (λ n. n) (λ k. false) (λ k. [])
      (record { name = []; version = [] })
first_module (m ∷ _) = m

first_listed : Memᴰ (first_module (value resolved).modules) (value resolved).modules
unfolding opened
first_listed = Memᴰ.head refl

resolve-Leads_example :
    (key : ModuleKey) × Leads sources key
    × ((found : Module) × (outcome sources key ≡ ok (some found)))
    × ((first_module (value resolved).modules).name ≡ key.name)
    × ((first_module (value resolved).modules).version ≡ key.version)
resolve-Leads_example =
    resolve-Leads sources get_metadata (codes "bcr") options kind test_run run-IsDone
      (value resolved) resolved_ok (first_module (value resolved).modules) first_listed

abbrev key_a : ModuleKey
key_a = record { name = codes "a"; version = codes "1" }

abbrev key_b : ModuleKey
key_b = record { name = codes "b"; version = [] }

abbrev node : ModuleKey → List DepSpec → Module
node key deps = record { key = key; deps = deps; compat_level = pos 0; nodep_deps = [] }

abbrev dep_on : ModuleKey → DepSpec
dep_on key = record { name = key.name; version = key.version; max_compatibility_level = negsuc 0 }

abbrev selected : SelectionResult
selected = record {
  resolved_graph =
      (root_key sources, node (root_key sources) (dep_on key_a ∷ dep_on key_b ∷ []))
      ∷ (key_a, node key_a (dep_on key_b ∷ []))
      ∷ (key_b, node key_b [])
      ∷ [];
  unpruned_graph = [];
  bfs_order = [];
}
