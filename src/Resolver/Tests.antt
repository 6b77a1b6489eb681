-- ===== src/Resolver/Tests.antt =====
-- A small resolution of resolver.go: requests, an override, a yanked version, and the list; and the
-- theorems at them.
use go_bzlmod.Prelude.{
  ℕ, ◌+◌, ◌≤◌, true, false, Str, codes, none, some, Result, ok, List, [], ◌∷◌, length, span, ==_iff,
  nat_eq, list_eq, ◌≡◌, refl, ◌↔◌, inl, inr, Memᴰ,
}
use go_bzlmod.Prelude.Memᴰ
use go_bzlmod.Prelude.Int.{pos}
use go_bzlmod.Prelude.Maps.{Map, lookup, IsMap}
use go_bzlmod.Modules.{single_version, Override, ModuleInfo, ModuleToResolve}
use go_bzlmod.Metadata.{Metadata, is_yanked, non_yanked_versions, filter_versions}
use go_bzlmod.Version
use go_bzlmod.Version.Order.{IsValid}
use go_bzlmod.Diff.Sorting.{NamesAscend}
use go_bzlmod.Resolver.{
  DepRequest, DepRequests, add_request, apply_overrides, apply_override, apply_mvs, select_all,
  max_request, find_non_yanked_version,
}
use go_bzlmod.Resolver.Yanked.{Replaces, IsNotYanked, find_non_yanked_version_correct}
use go_bzlmod.Resolver.Depths.{put_levels, depth_loop, calculate_module_depths}
use go_bzlmod.Resolver.Depths.Search.{PathTo}
use go_bzlmod.Resolver.Depths.Shortest.{calculate_module_depths-shortest}
use go_bzlmod.Resolver.Resolution.{
  yanked_version_error, direct_deps_warn, bazel_compatibility_off, ResolutionOptions,
  listed_modules, summarize,
}
use go_bzlmod.Resolver.Resolution.Correct.{listed_modules_correct}

opened : Unit {0}
unfolding add_request apply_overrides apply_override apply_mvs select_all max_request put_levels
    depth_loop calculate_module_depths filter_versions non_yanked_versions is_yanked Version.parse
    Version.match_pattern span Version.match_prerelease find_non_yanked_version
opened = tt

abbrev request : Str → DepRequest
request version = record {
  version = version;
  dev_dependency = false;
  required_by = codes "<root>" ∷ [];
}

abbrev a_versions : Map Str DepRequest
a_versions = (codes "1.9", request (codes "1.9")) ∷ (codes "1.10", request (codes "1.10")) ∷ []

abbrev graph : DepRequests
graph = (codes "a", a_versions) ∷ []

graph_added :
    add_request
      (codes "a")
      (codes "1.10")
      false
      (codes "<root>")
      (add_request (codes "a") (codes "1.9") false (codes "<root>") [])
    ≡ graph
unfolding opened
graph_added = refl

graph-IsMap : IsMap graph
graph-IsMap = ((λ m. elim m [ ]), tt)

valid_9 : IsValid (codes "1.9")
unfolding opened
valid_9 = record { parsed = _; parses = refl }

valid_10 : IsValid (codes "1.10")
unfolding opened
valid_10 = record { parsed = _; parses = refl }

abbrev pinned : Override
pinned = record {
  type = single_version;
  module_name = codes "a";
  version = codes "1.5";
  versions = [];
  registry = [];
  path = [];
}

override_result :
    lookup (codes "a") (apply_mvs (apply_overrides graph (pinned ∷ [])))
    ≡ some (record {
      version = codes "1.5";
      dev_dependency = false;
      required_by = codes "<override>" ∷ [];
    })
unfolding opened
override_result = refl

-- Version 1.9 is yanked.
abbrev metadata : Metadata
metadata = record {
  versions = codes "1.9" ∷ codes "1.10" ∷ [];
  yanked_versions = (codes "1.9", codes "broken") ∷ [];
  deprecated = [];
}

abbrev module_file : ModuleInfo
module_file = record {
  name = codes "a";
  version = [];
  compatibility_level = pos 1;
  bazel_compatibility = [];
  dependencies = [];
  nodep_dependencies = [];
  overrides = [];
}

abbrev get_metadata : Str → Result ℕ Metadata
get_metadata name = ok metadata

abbrev get_file : Str → Str → Result ℕ ModuleInfo
get_file name version = ok module_file

find_non_yanked_version_correct_example :
    Replaces get_metadata get_file
      (codes "a")
      (codes "1.9")
      (pos 1)
      (IsNotYanked metadata)
      (find_non_yanked_version get_metadata get_file (codes "a") (codes "1.9"))
find_non_yanked_version_correct_example =
    find_non_yanked_version_correct get_metadata get_file (codes "a") (codes "1.9") metadata
      module_file refl (codes "broken") refl refl (valid_9, (valid_10, tt))

-- `a` and `b` are selected; the root needs `a`, and `a` needs `b`.
abbrev deps : Map Str (List Str)
deps = (codes "a", codes "b" ∷ codes "c" ∷ []) ∷ []

abbrev names : List Str
names = codes "a" ∷ codes "b" ∷ []

depth_b : lookup (codes "b") (calculate_module_depths (codes "a" ∷ []) deps names) ≡ some 2
unfolding opened
depth_b = refl

calculate_module_depths-shortest_example :
    (lookup (codes "b") (calculate_module_depths (codes "a" ∷ []) deps names) ≡ some 2) ↔ (
      PathTo (codes "a" ∷ []) deps names (codes "b") 2
      × ((n : ℕ) → PathTo (codes "a" ∷ []) deps names (codes "b") n → 2 ≤ n))
calculate_module_depths-shortest_example =
    calculate_module_depths-shortest (codes "a" ∷ []) deps names (codes "b") 2

abbrev options : ResolutionOptions
options = record {
  include_dev_deps = true;
  substitute_yanked = true;
  check_yanked = true;
  warn_deprecated = false;
  allow_yanked_versions = [];
  yanked_behavior = yanked_version_error;
  direct_deps_mode = direct_deps_warn;
  bazel_compatibility_mode = bazel_compatibility_off;
  bazel_version = [];
}

abbrev selected : Map Str DepRequest
selected = (codes "b", request (codes "1.10")) ∷ (codes "a", request (codes "1.9")) ∷ []

selected-IsMap : IsMap selected
selected-IsMap = (
  (λ m. elim (Memᴰ.cases_cons m) [
    | inl e ↦ absurd (let z : false ≡ true = (==_iff (codes "b") (codes "a")).1 e in cc)
    | inr t ↦ elim t [ ]
  ]),
  ((λ m. elim m [ ]), tt),
)

abbrev module_deps : Map Str (List Str)
module_deps = (codes "a@1.9", codes "b" ∷ codes "c" ∷ []) ∷ []

listed_modules_correct_example :
    NamesAscend
      (λ m. m.name)
      (listed_modules get_metadata [] none options selected module_deps [] module_file)
    × ((name version : Str)
        → ((m : ModuleToResolve) × Memᴰ m
              (listed_modules get_metadata [] none options selected module_deps [] module_file)
            × (m.name ≡ name)
            × (m.version ≡ version))
          ↔ ((req : DepRequest) × (lookup name selected ≡ some req) × (req.version ≡ version)))
    × (length (listed_modules get_metadata [] none options selected module_deps [] module_file)
        ≡ length selected)
    × ((summarize (
            listed_modules get_metadata [] none options selected module_deps []
              module_file)).production_modules
          + (summarize (
              listed_modules get_metadata [] none options selected module_deps []
                module_file)).dev_modules
        ≡ (summarize (
            listed_modules get_metadata [] none options selected module_deps []
              module_file)).total_modules)
listed_modules_correct_example =
    listed_modules_correct get_metadata [] none options selected module_deps [] module_file
      selected-IsMap
