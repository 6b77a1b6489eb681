-- ===== src/Resolver/Dependencies/Tests.antt =====
-- A resolution with resolver.go that pins a version, and the theorem at it.
use go_bzlmod.Prelude.{
  ℕ, true, false, Str, codes, none, Result, ok, err, [], ◌≡◌, refl, Memᴰ, nat_eq, list_eq,
}
use go_bzlmod.Modules.{
  ModuleInfo, ModuleToResolve, index_overrides, override_index, registry_url_for_module,
}
use go_bzlmod.Metadata.{Metadata}
use go_bzlmod.Diff.{sort_by_name, insert_by_name}
use go_bzlmod.Resolver.{
  add_request, apply_override, apply_overrides, apply_mvs, select_all, max_request,
  check_direct_deps, substitute_yanked_versions_in_graph, replacements, replace_versions,
  find_non_yanked_version,
}
use go_bzlmod.Resolver.Depths.{put_levels, depth_loop, calculate_module_depths}
use go_bzlmod.Resolver.Resolution.{
  yanked_version_error, direct_deps_warn, bazel_compatibility_off, ResolutionOptions,
  ResolutionList, root_dep_names, resolved_module_deps, selected_deps, new_modules, count,
  summarize, yanked_warnings, deprecated_warnings, incompatible_warnings, check_field_compatibility,
  listed_modules, build_resolution_list,
}
use go_bzlmod.Resolver.Building.{enqueue, process_dep, open_module, followed_names}
use go_bzlmod.Resolver.Building.Rounds.{run_frame, after_frame, start_round}
use go_bzlmod.Resolver.Building.Tests.{pinned, root_module, inputs, second_state, second}
use go_bzlmod.Resolver.Dependencies.{ResolveError, select_versions, resolve_dependencies}
use go_bzlmod.Resolver.Dependencies.Pinned.{resolve_dependencies_pins}

opened : Unit {0}
unfolding index_overrides override_index registry_url_for_module sort_by_name insert_by_name
    add_request enqueue process_dep open_module followed_names run_frame after_frame start_round
    apply_override apply_overrides apply_mvs select_all max_request check_direct_deps
    substitute_yanked_versions_in_graph replacements replace_versions find_non_yanked_version
    put_levels depth_loop calculate_module_depths root_dep_names resolved_module_deps selected_deps
    new_modules count summarize yanked_warnings deprecated_warnings incompatible_warnings
    check_field_compatibility listed_modules build_resolution_list select_versions
    resolve_dependencies
opened = tt

abbrev options : ResolutionOptions
options = record {
  include_dev_deps = true;
  substitute_yanked = true;
  check_yanked = false;
  warn_deprecated = false;
  allow_yanked_versions = [];
  yanked_behavior = yanked_version_error;
  direct_deps_mode = direct_deps_warn;
  bazel_compatibility_mode = bazel_compatibility_off;
  bazel_version = [];
}

abbrev get_metadata : Str → Result ℕ Metadata
get_metadata name = err 404

abbrev get_file : Str → Str → Result ℕ ModuleInfo
get_file name version = err 404

abbrev resolved : Result (ResolveError ℕ) ResolutionList
resolved =
    resolve_dependencies get_metadata get_file (codes "bcr") none options root_module second_state

abbrev value : Result (ResolveError ℕ) ResolutionList → ResolutionList
value (ok list) = list
value (err _) = record { modules = []; summary = summarize []; field_warnings = []; warnings = [] }

resolved_ok : resolved ≡ ok (value resolved)
unfolding opened
resolved_ok = refl

resolve_dependencies_pins_example :
    (m : ModuleToResolve) × Memᴰ m (value resolved).modules
    × (m.name ≡ codes "a")
    × (m.version ≡ codes "1.5")
resolve_dependencies_pins_example =
    resolve_dependencies_pins inputs get_metadata get_file (codes "bcr") none options root_module
      second_state (value resolved) [] pinned [] second resolved_ok refl refl (λ e. cc) tt
