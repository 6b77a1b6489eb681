-- ===== src/Resolver/Building/Tests.antt =====
-- A first round of resolver.go that takes one dependency of the root, and the theorems at it.
use go_bzlmod.Prelude.{
  ℕ, true, false, Str, codes, some, err, [], ◌∷◌, span, All, ◌≡◌, refl, Memᴰ, nat_eq, list_eq,
}
use go_bzlmod.Prelude.Int.{pos}
use go_bzlmod.Prelude.Maps.{Map, lookup}
use go_bzlmod.Modules.{single_version, Override, Dependency, ModuleInfo, index_overrides}
use go_bzlmod.Version
use go_bzlmod.Version.Order.{IsValid}
use go_bzlmod.Version.Sorting.{Le}
use go_bzlmod.Discovery.{not_found}
use go_bzlmod.Resolver.{DepRequest, add_request, apply_mvs}
use go_bzlmod.Resolver.Building.{
  Inputs, Frame, Build, frame_of, enqueue, process_dep, open_module, followed_names,
}
use go_bzlmod.Resolver.Building.Rounds.{
  run_frame, after_frame, Reached, begin, next, work, start_round, empty_build,
}
use go_bzlmod.Resolver.Building.Keyed.{IsProper}
use go_bzlmod.Resolver.Building.Proper.{Reached-IsProper, reached_selects}

opened : Unit {0}
unfolding index_overrides add_request enqueue process_dep open_module followed_names run_frame
    after_frame start_round Version.parse Version.match_pattern span Version.match_prerelease
opened = tt

abbrev pub needs_a : Dependency
needs_a = record {
  name = codes "a";
  version = codes "1.9";
  max_compatibility_level = pos 0;
  repo_name = codes "a";
  dev_dependency = false;
  is_nodep_dep = false;
}

abbrev pub pinned : Override
pinned = record {
  type = single_version;
  module_name = codes "a";
  version = codes "1.5";
  versions = [];
  registry = [];
  path = [];
}

abbrev pub root_module : ModuleInfo
root_module = record {
  name = codes "r";
  version = [];
  compatibility_level = pos 0;
  bazel_compatibility = [];
  dependencies = needs_a ∷ [];
  nodep_dependencies = [];
  overrides = pinned ∷ [];
}

abbrev pub inputs : Inputs ℕ
inputs = record {
  get_module_file = λ name version. err not_found;
  get_module_file_at = λ registry name version. err not_found;
  include_dev_deps = false;
  root_module = root_module;
  override_modules = [];
  explicit_root_prod_dep_names = codes "a" ∷ [];
}

abbrev pub first_state : Build ℕ
first_state = start_round inputs (codes "r" ∷ []) (empty_build inputs)

abbrev pub root_frame : Frame
root_frame = frame_of inputs root_module true (codes "<root>" ∷ [])

abbrev pub second_state : Build ℕ
second_state = after_frame inputs [] [] [] (run_frame inputs root_frame first_state)

pub second : Reached inputs second_state
unfolding opened
second = next begin (work [] root_frame [] [] refl refl)

abbrev versions : Map Str DepRequest
versions =
    (
      codes "1.5",
      record { version = codes "1.5"; dev_dependency = false; required_by = codes "<root>" ∷ [] },
    )
    ∷ []

second_requests : lookup (codes "a") second_state.dep_graph ≡ some versions
unfolding opened
second_requests = refl

valid_5 : IsValid (codes "1.5")
unfolding opened
valid_5 = record { parsed = _; parses = refl }

Reached-IsProper_example : IsProper second_state.dep_graph
Reached-IsProper_example = Reached-IsProper inputs second

reached_selects_example :
    (r : DepRequest) × (lookup (codes "a") (apply_mvs second_state.dep_graph) ≡ some r)
    × ((v : Str) × Memᴰ (v, r) versions)
    × All (λ entry. Le (entry.1).version r.version) versions
reached_selects_example =
    reached_selects inputs (codes "a") versions second second_requests (valid_5, tt)
