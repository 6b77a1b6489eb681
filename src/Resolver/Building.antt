-- ===== src/Resolver/Building.antt =====
-- `buildDependencyGraph` of resolver.go and the rounds around it. Workers take tasks from a queue,
-- fetch module files, and go through their dependencies; each dependency is one locked region. A
-- worker is a stack of frames, since the module of an override is gone through inside the one that
-- needs it. A step may be of any worker, so the runs are the interleavings.
pub mod Rounds
pub mod Keyed
pub mod Proper
pub mod Tests
use go_bzlmod.Prelude.{
  ℕ, suc, ◌+◌, Bool, true, false, not, ◌&&◌, ◌||◌, Str, codes, Option, none, some, Result, ok, err,
  List, [], ◌∷◌, ◌++◌, length, contains, ltb, if◌then◌else◌, ◌==◌, ◌≡◌, ◌≢◌, nat_eq, list_eq,
}
use go_bzlmod.Prelude.Maps.{Map, lookup, insert, keys}
use go_bzlmod.Modules.{
  Dependency, OverrideType, Override, ModuleInfo, index_overrides, is_non_registry,
}
use go_bzlmod.Metadata.{at_version, has_value}
use go_bzlmod.Discovery.{FetchFailure, not_found, failed, skips, overridden_version}
use go_bzlmod.Resolver.{DepRequest, DepRequests, versions_of, add_request, remove_dependency}

pub data BuildError (Error : Type 0) : Type 0 where
  empty_version : Str → BuildError Error
  max_depth_exceeded : List Str → BuildError Error
  fetch_failed : Str → Str → Error → BuildError Error
  missing_module : Str → Str → BuildError Error

-- The registries, and the options and modules that do not change.
pub record Inputs (Error : Type 0) : Type 0 where
  pub get_module_file : Str → Str → Result (FetchFailure Error) ModuleInfo
  pub get_module_file_at : Str → Str → Str → Result (FetchFailure Error) ModuleInfo
  pub include_dev_deps : Bool
  pub root_module : ModuleInfo
  pub override_modules : Map Str ModuleInfo
  pub explicit_root_prod_dep_names : List Str

-- The last element of a path stands first.
pub record Task : Type 0 where
  pub name : Str
  pub version : Str
  pub path : List Str

-- What is left of a module's dependencies.
pub record Frame : Type 0 where
  pub path : List Str
  pub is_root : Bool
  pub deps : List Dependency
  pub nodep_deps : List Dependency

pub record Build (Error : Type 0) : Type 0 where
  pub dep_graph : DepRequests
  pub module_deps : Map Str (List Str)
  pub module_info_cache : Map Str ModuleInfo
  pub visiting : List Str
  pub unfulfilled : List Str
  pub prev_round : List Str
  pub queue : List Task
  pub fetching : List Task
  pub workers : List (List Frame)
  pub failure : Option (BuildError Error)

abbrev pub requester_of : List Str → Str
requester_of [] = []
requester_of (p ∷ _) = p

abbrev pub max_dependency_depth : ℕ
max_dependency_depth = 1000

abbrev pub too_deep : List Str → Bool
too_deep path = ltb max_dependency_depth (length path)

module _ {Error : Type 0} (w : Inputs Error) where
  abbrev pub overrides : Map Str Override
  overrides = index_overrides w.root_module.overrides []

  abbrev pub skips_fetch : Option Override → Bool
  skips_fetch none = false
  skips_fetch (some o) = is_non_registry o.type

  abbrev pub with_graph : DepRequests → Build Error → Build Error
  with_graph graph s = record {
    dep_graph = graph;
    module_deps = s.module_deps;
    module_info_cache = s.module_info_cache;
    visiting = s.visiting;
    unfulfilled = s.unfulfilled;
    prev_round = s.prev_round;
    queue = s.queue;
    fetching = s.fetching;
    workers = s.workers;
    failure = s.failure;
  }

  abbrev pub with_visiting : List Str → Build Error → Build Error
  with_visiting visiting s = record {
    dep_graph = s.dep_graph;
    module_deps = s.module_deps;
    module_info_cache = s.module_info_cache;
    visiting = visiting;
    unfulfilled = s.unfulfilled;
    prev_round = s.prev_round;
    queue = s.queue;
    fetching = s.fetching;
    workers = s.workers;
    failure = s.failure;
  }

  abbrev pub with_unfulfilled : List Str → Build Error → Build Error
  with_unfulfilled names s = record {
    dep_graph = s.dep_graph;
    module_deps = s.module_deps;
    module_info_cache = s.module_info_cache;
    visiting = s.visiting;
    unfulfilled = names;
    prev_round = s.prev_round;
    queue = s.queue;
    fetching = s.fetching;
    workers = s.workers;
    failure = s.failure;
  }

  abbrev pub with_tasks : List Task → List Task → List (List Frame) → Build Error → Build Error
  with_tasks queue fetching workers s = record {
    dep_graph = s.dep_graph;
    module_deps = s.module_deps;
    module_info_cache = s.module_info_cache;
    visiting = s.visiting;
    unfulfilled = s.unfulfilled;
    prev_round = s.prev_round;
    queue = queue;
    fetching = fetching;
    workers = workers;
    failure = s.failure;
  }

  abbrev pub first_failure :
      Option (BuildError Error) → BuildError Error → Option (BuildError Error)
  first_failure none e = some e
  first_failure (some first) e = some first

  -- `setErr`
  abbrev pub set_err : BuildError Error → Build Error → Build Error
  set_err e s = record {
    dep_graph = s.dep_graph;
    module_deps = s.module_deps;
    module_info_cache = s.module_info_cache;
    visiting = s.visiting;
    unfulfilled = s.unfulfilled;
    prev_round = s.prev_round;
    queue = s.queue;
    fetching = s.fetching;
    workers = s.workers;
    failure = first_failure s.failure e;
  }

  unfoldable pub followed_names : Bool → List Dependency → List Str
  followed_names is_root [] = []
  followed_names is_root (dep ∷ deps) =
      let rest = followed_names is_root deps in
      if skips w.include_dev_deps is_root dep then rest else dep.name ∷ rest

  abbrev pub put_deps : Str → List Str → Map Str (List Str) → Map Str (List Str)
  put_deps key [] module_deps = module_deps
  put_deps key (d ∷ ds) module_deps = insert key (d ∷ ds) module_deps

  -- The start of `processDeps`: the names of the dependencies are noted, and a frame is opened.
  unfoldable pub open_module : ModuleInfo → Bool → Build Error → Build Error
  open_module m is_root s = record {
    dep_graph = s.dep_graph;
    module_deps =
        if m.name == []
        then s.module_deps
        else put_deps (at_version m.name m.version) (followed_names is_root m.dependencies)
            s.module_deps;
    module_info_cache = s.module_info_cache;
    visiting = s.visiting;
    unfulfilled = s.unfulfilled;
    prev_round = s.prev_round;
    queue = s.queue;
    fetching = s.fetching;
    workers = s.workers;
    failure = s.failure;
  }

  abbrev pub frame_of : ModuleInfo → Bool → List Str → Frame
  frame_of m is_root path = record {
    path = path;
    is_root = is_root;
    deps = m.dependencies;
    nodep_deps = m.nodep_dependencies;
  }

  -- `enqueue`: nothing once the context is cancelled by a failure.
  unfoldable pub enqueue : Str → Str → List Str → Build Error → Build Error
  enqueue name version path s =
      if has_value s.failure || contains s.visiting (at_version name version)
      then s
      else if too_deep path
      then set_err (max_depth_exceeded path)
          (with_visiting (at_version name version ∷ s.visiting) s)
      else with_tasks (s.queue ++ record { name = name; version = version; path = path } ∷ [])
          s.fetching s.workers (with_visiting (at_version name version ∷ s.visiting) s)

  -- A state, and the frames that are put on the worker's stack; or an error.
  pub data Progress : Type 0 where
    goes : Build Error → List Frame → Progress
    stops : Build Error → BuildError Error → Progress

  -- A dependency on the module of an override, whose file may be known.
  unfoldable pub open_override : Str → List Str → Option ModuleInfo → Build Error → Progress
  open_override key path none s = goes s []
  open_override key path (some m) s =
      if too_deep path
      then stops s (max_depth_exceeded path)
      else if contains s.visiting key
      then goes s []
      else goes (open_module m false (with_visiting (key ∷ s.visiting) s))
          (frame_of m false path ∷ [])

  -- One dependency in the first loop of `processDeps`. The request, and the marking of its key by
  -- `enqueue`, are two locked regions in the source.
  unfoldable pub process_dep : Frame → Dependency → Build Error → Progress
  process_dep fr dep s =
      let o = lookup dep.name overrides in
      let version = overridden_version o dep.version in
      let path = at_version dep.name version ∷ fr.path in
      let requested =
        with_graph
          (add_request dep.name version dep.dev_dependency (requester_of fr.path) s.dep_graph) s in
      if skips w.include_dev_deps fr.is_root dep
      then goes s []
      else if version == [] && not (skips_fetch o)
      then stops s (empty_version dep.name)
      else if skips_fetch o
      then open_override (at_version dep.name version) path (lookup dep.name w.override_modules)
          requested
      else goes (enqueue dep.name version path requested) []

  abbrev pub nodep_requester : List Str → Str
  nodep_requester path = requester_of path ++ codes " (nodep)"

  -- A nodep dependency adds a requester, and does not change whether an earlier request is for
  -- development.
  abbrev pub nodep_request : Str → Bool → Str → Option DepRequest → DepRequest
  nodep_request version dev requester none = record {
    version = version;
    dev_dependency = dev;
    required_by = requester ∷ [];
  }
  nodep_request version dev requester (some existing) = record {
    version = existing.version;
    dev_dependency = existing.dev_dependency;
    required_by = existing.required_by ++ requester ∷ [];
  }

  unfoldable pub add_nodep_request : Str → Str → Bool → Str → DepRequests → DepRequests
  add_nodep_request name version dev requester graph =
      let versions = versions_of (lookup name graph) in
      insert name
        (insert version (nodep_request version dev requester (lookup version versions)) versions)
        graph

  -- One dependency in the second loop of `processDeps`.
  unfoldable pub process_nodep : Frame → Dependency → Build Error → Build Error
  process_nodep fr dep s =
      let version = overridden_version (lookup dep.name overrides) dep.version in
      if skips w.include_dev_deps fr.is_root dep
      then s
      else if has_value (lookup dep.name s.dep_graph) || contains s.prev_round dep.name
      then with_visiting (at_version dep.name version ∷ s.visiting) (
          with_graph
            (add_nodep_request dep.name version dep.dev_dependency (nodep_requester fr.path)
              s.dep_graph)
            s)
      else with_unfulfilled (dep.name ∷ s.unfulfilled) s
