-- ===== src/SelectionApi.antt =====
-- selection_api.go: `Resolve`, which discovers the graph, selects versions and lists the result, with
-- `buildResult` up to the sources of modules and `computeReachableKeys`.
pub mod Reachable
pub mod Starts
pub mod Listed
pub mod Resolved
pub mod Tests
use go_bzlmod.Prelude.{
  ℕ, suc, zero, ◌+◌, Bool, true, false, not, ◌&&◌, ◌||◌, Str, Option, none, some, Result, ok, err,
  ◌>>=◌, List, [], ◌∷◌, ◌++◌, map, length, contains, if◌then◌else◌, ◌==◌, nat_eq, list_eq,
}
use go_bzlmod.Prelude.Maps.{Map, lookup}
use go_bzlmod.Selection.Types.{
  ModuleKey, key_eq, key_string, DepSpec, to_module_key, Module, DepGraph, SelectionResult,
  SelectionError,
}
use go_bzlmod.Selection.Run
use go_bzlmod.Modules.{
  Dependency, OverrideType, Override, ModuleInfo, ModuleToResolve, override_index,
  registry_url_for_module, convert_overrides,
}
use go_bzlmod.Metadata.{Metadata, check_module_metadata}
use go_bzlmod.Diff.{sort_by_name}
use go_bzlmod.Discovery.{Sources, Discovery, discovered}
use go_bzlmod.Resolver.Resolution.{
  ResolutionOptions, ResolutionError, ResolutionSummary, Warning, count, yanked_warnings,
  deprecated_warnings,
}

pub record Reach : Type 0 where
  pub reachable : List ModuleKey
  pub queue : List ModuleKey

abbrev pub put_key : ModuleKey → Reach → Reach
put_key key s = record { reachable = key ∷ s.reachable; queue = s.queue ++ key ∷ [] }

unfoldable pub put_keys : List ModuleKey → Reach → Reach
put_keys [] s = s
put_keys (key ∷ keys) s = put_keys keys (if contains s.reachable key then s else put_key key s)

abbrev pub dep_keys : Option Module → List ModuleKey
dep_keys none = []
dep_keys (some m) = map to_module_key m.deps

unfoldable pub reach_loop : Map ModuleKey Module → ℕ → Reach → Reach
reach_loop graph zero s = s
reach_loop graph (suc fuel) s = elim s.queue [
  | [] ↦ s
  | key ∷ queue ↦
      reach_loop graph fuel
        (put_keys (dep_keys (lookup key graph)) (record { reachable = s.reachable; queue = queue }))
]

unfoldable pub all_dep_keys : Map ModuleKey Module → List ModuleKey
all_dep_keys [] = []
all_dep_keys ((_, m) ∷ rest) = map to_module_key m.deps ++ all_dep_keys rest

-- Every key enters the queue once, and is a start or a dependency.
unfoldable pub compute_reachable_keys : Map ModuleKey Module → List ModuleKey → List ModuleKey
compute_reachable_keys graph starts =
    (reach_loop graph (length (starts ++ all_dep_keys graph))
      (put_keys starts (record { reachable = []; queue = [] }))).reachable

-- The names of the root's dependencies that are for development, or are not.
unfoldable pub root_names : Bool → List Dependency → List Str
root_names dev [] = []
root_names dev (dep ∷ deps) =
    let rest = root_names dev deps in
    if dep.dev_dependency
    then (if dev then dep.name ∷ rest else rest)
    else if dev
    then rest
    else dep.name ∷ rest

-- The root's resolved dependencies that a test on names admits.
unfoldable pub starts_of : (Str → Bool) → List DepSpec → List ModuleKey
starts_of p [] = []
starts_of p (dep ∷ deps) =
    let rest = starts_of p deps in if p dep.name then to_module_key dep ∷ rest else rest

abbrev pub root_deps : Option Module → List DepSpec
root_deps none = []
root_deps (some m) = m.deps

module _ (root_module : ModuleInfo) where
  abbrev pub is_root : ModuleKey → Bool
  is_root key = key.name == root_module.name && key.version == root_module.version

  abbrev pub root_node : Map ModuleKey Module → List DepSpec
  root_node graph =
      root_deps (lookup (record { name = root_module.name; version = root_module.version }) graph)

  abbrev pub prod_starts : Map ModuleKey Module → List ModuleKey
  prod_starts graph =
      starts_of (contains (root_names false root_module.dependencies)) (root_node graph)

  abbrev pub dev_starts : Map ModuleKey Module → List ModuleKey
  dev_starts graph =
      starts_of
        (λ name.
          contains (root_names true root_module.dependencies) name
          && not (contains (root_names false root_module.dependencies) name))
        (root_node graph)

-- The dependencies at a key, as its requester.
unfoldable pub requires_of : ModuleKey → Str → List DepSpec → List Str
requires_of key requester [] = []
requires_of key requester (dep ∷ deps) =
    let rest = requires_of key requester deps in
    if dep.name == key.name && dep.version == key.version then requester ∷ rest else rest

unfoldable pub required_by_of : ModuleKey → Map ModuleKey Module → List Str
required_by_of key [] = []
required_by_of key ((dep_key, m) ∷ rest) =
    requires_of key (key_string dep_key) m.deps ++ required_by_of key rest

abbrev pub result_module :
    (Str → Str) → (ModuleKey → Bool) → (ModuleKey → List Str) → ModuleKey → ModuleToResolve
result_module registry is_dev required_by key = record {
  name = key.name;
  version = key.version;
  registry = registry key.name;
  depth = 0;
  dev_dependency = is_dev key;
  dependencies = [];
  required_by = required_by key;
  yanked = false;
  yank_reason = [];
  is_deprecated = false;
  deprecation_reason = [];
  bazel_compatibility = [];
  is_bazel_incompatible = false;
  bazel_incompatibility_reason = [];
}

unfoldable pub result_modules :
    (ModuleKey → Bool) → (ModuleKey → ModuleToResolve) → Map ModuleKey Module → List ModuleToResolve
result_modules skip make [] = []
result_modules skip make ((key, _) ∷ rest) =
    let ms = result_modules skip make rest in if skip key then ms else make key ∷ ms

abbrev pub keys_but : (ModuleKey → Bool) → List ModuleKey → List Str
keys_but skip [] = []
keys_but skip (key ∷ rest) =
    if skip key then keys_but skip rest else key_string key ∷ keys_but skip rest

pub record ResolvedResult : Type 0 where
  pub modules : List ModuleToResolve
  pub summary : ResolutionSummary
  pub warnings : List Warning
  pub unpruned : List ModuleToResolve
  pub bfs_order : List Str

pub data ResolveError (Error : Type 0) : Type 0 where
  build_error : Error → ResolveError Error
  selection_error : SelectionError → ResolveError Error
  no_selection : ResolveError Error
  list_error : ResolutionError → ResolveError Error

-- The list leaves out what it does not check: incompatible modules.
abbrev pub summary_of : List ModuleToResolve → ResolutionSummary
summary_of ms = record {
  total_modules = length ms;
  production_modules = count (λ m. not m.dev_dependency) ms;
  dev_modules = count (λ m. m.dev_dependency) ms;
  yanked_modules = count (λ m. m.yanked) ms;
  deprecated_modules = count (λ m. m.is_deprecated) ms;
  incompatible_modules = 0;
}

module _ {ℓ} {E : Type ℓ} (get_module_metadata : Str → Result E Metadata) (default_registry : Str)
    (options : ResolutionOptions) (root_module : ModuleInfo) where
  unfoldable pub resolved_modules : SelectionResult → List ModuleToResolve
  resolved_modules result =
      let graph = result.resolved_graph in
      let prod_reachable = compute_reachable_keys graph (prod_starts root_module graph) in
      let dev_reachable = compute_reachable_keys graph (dev_starts root_module graph) in
      let sorted =
        sort_by_name (λ m. m.name)
          (result_modules (is_root root_module)
            (result_module
              (λ name.
                registry_url_for_module default_registry name
                  (override_index root_module.overrides []))
              (λ key. contains dev_reachable key && not (contains prod_reachable key))
              (λ key. required_by_of key graph))
            graph) in
      if options.check_yanked || options.warn_deprecated
      then check_module_metadata get_module_metadata options.allow_yanked_versions sorted
      else sorted

  unfoldable pub unpruned_modules : SelectionResult → List ModuleToResolve
  unpruned_modules result =
      sort_by_name (λ m. m.name)
        (result_modules (is_root root_module)
          (result_module (λ name. []) (λ key. false) (λ key. [])) result.unpruned_graph)

  -- Without the call of `enrichResolutionList`, and the error that it may return where registry files
  -- are traced.
  unfoldable pub build_result : SelectionResult → Result ResolutionError ResolvedResult
  build_result result =
      let ms = resolved_modules result in
      yanked_warnings options.yanked_behavior ms >>= λ yanked. ok (record {
        modules = ms;
        summary = summary_of ms;
        warnings = yanked ++ deprecated_warnings options.warn_deprecated ms;
        unpruned = unpruned_modules result;
        bfs_order = keys_but (is_root root_module) result.bfs_order;
      })

abbrev pub mapped_error {ℓ κ μ} :
    {E : Type ℓ} {F : Type κ} {A : Type μ} → (E → F) → Result E A → Result F A
mapped_error f (ok a) = ok a
mapped_error f (err e) = err (f e)

abbrev pub present {ℓ} : {E : Type 0} {A : Type ℓ} → Option A → Result (ResolveError E) A
present none = err no_selection
present (some a) = ok a

-- `Resolve`, once the discovery is done.
unfoldable pub resolve {ℓ} :
    {Error : Type 0} {E : Type ℓ} (w : Sources Error)
    → (Str → Result E Metadata)
    → Str
    → ResolutionOptions
    → (OverrideType → Str)
    → Discovery Error
    → Result (ResolveError Error) ResolvedResult
resolve w get_module_metadata default_registry options kind s =
    mapped_error build_error (discovered w s) >>= λ graph.
    mapped_error selection_error (Run.run graph (convert_overrides kind w.root_module.overrides []))
    >>= λ selected. present selected >>= λ result.
        mapped_error list_error
          (build_result get_module_metadata default_registry options w.root_module result)
