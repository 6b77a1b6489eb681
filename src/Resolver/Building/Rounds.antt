-- ===== src/Resolver/Building/Rounds.antt =====
-- The steps of the workers in `buildDependencyGraph` of resolver.go, and the rounds of
-- `ResolveDependencies`.
use go_bzlmod.Prelude.{
  Bool, true, false, not, ◌&&◌, ◌||◌, Str, codes, Option, none, some, Result, ok, err, List, [],
  ◌∷◌, ◌++◌, contains, if◌then◌else◌, ◌==◌, ◌≡◌, ◌≢◌, nat_eq, list_eq,
}
use go_bzlmod.Prelude.Maps.{Map, lookup, insert, keys}
use go_bzlmod.Modules.{Dependency, Override, ModuleInfo}
use go_bzlmod.Metadata.{at_version}
use go_bzlmod.Discovery.{FetchFailure, not_found, failed}
use go_bzlmod.Resolver.{DepRequest, versions_of, remove_dependency}
use go_bzlmod.Resolver.Building.{
  fetch_failed, missing_module, Inputs, Task, Frame, Build, overrides, with_graph, with_tasks,
  set_err, open_module, frame_of, Progress, goes, stops, process_dep, process_nodep,
}

module _ {Error : Type 0} (w : Inputs Error) where
  abbrev pub frame_left : Frame → List Dependency → List Dependency → Frame
  frame_left fr deps nodeps = record {
    path = fr.path;
    is_root = fr.is_root;
    deps = deps;
    nodep_deps = nodeps;
  }

  -- What a worker does next with the frame on its stack.
  unfoldable pub run_frame : Frame → Build Error → Progress w × List Frame
  run_frame fr s = elim fr.deps [
    | dep ∷ deps ↦ (process_dep w fr dep s, frame_left fr deps fr.nodep_deps ∷ [])
    | [] ↦ elim fr.nodep_deps [
      | dep ∷ nodeps ↦ (goes (process_nodep w fr dep s) [], frame_left fr [] nodeps ∷ [])
      | [] ↦ (goes s [], [])
    ]
  ]

  -- The other workers stay; one that stops ends with its error.
  unfoldable pub after_frame :
      List (List Frame) → List Frame → List (List Frame) → Progress w × List Frame → Build Error
  after_frame before stack after (goes s opened, left) =
      with_tasks w s.queue s.fetching (before ++ (opened ++ (left ++ stack)) ∷ after) s
  after_frame before stack after (stops s e, left) =
      set_err w e (with_tasks w s.queue s.fetching (before ++ after) s)

  -- The registry of an override counts for its module.
  abbrev pub fetch_from : Option Override → Str → Str → Result (FetchFailure Error) ModuleInfo
  fetch_from none name version = w.get_module_file name version
  fetch_from (some o) name version =
      if o.registry == []
      then w.get_module_file name version
      else w.get_module_file_at o.registry name version

  abbrev pub is_missing_root_dep : Str → Option DepRequest → Bool
  is_missing_root_dep name none = false
  is_missing_root_dep name (some req) =
      not req.dev_dependency
      && (contains w.explicit_root_prod_dep_names name && contains req.required_by (codes "<root>"))

  -- A module that the registry does not have: its request is removed, and it is an error if the root
  -- needs it for production.
  unfoldable pub remove_missing : Task → Build Error → Build Error
  remove_missing task s =
      let removed = with_graph w (remove_dependency task.name task.version s.dep_graph) s in
      if is_missing_root_dep task.name
        (lookup task.version (versions_of (lookup task.name s.dep_graph)))
      then set_err w (missing_module task.name task.version) removed
      else removed

  abbrev pub cached : Str → ModuleInfo → Map Str ModuleInfo → Map Str ModuleInfo
  cached key info cache = elim info.bazel_compatibility [ [] ↦ cache | _ ↦ insert key info cache ]

  abbrev pub with_cache : Map Str ModuleInfo → Build Error → Build Error
  with_cache cache s = record {
    dep_graph = s.dep_graph;
    module_deps = s.module_deps;
    module_info_cache = cache;
    visiting = s.visiting;
    unfulfilled = s.unfulfilled;
    prev_round = s.prev_round;
    queue = s.queue;
    fetching = s.fetching;
    workers = s.workers;
    failure = s.failure;
  }

  -- What a worker does with the registry's answer. The cache of module files and the dependencies are
  -- written in two locked regions of the source, and in one step here.
  unfoldable pub end_task : Task → Build Error → Build Error
  end_task task s = elim (fetch_from (lookup task.name (overrides w)) task.name task.version) [
    | err not_found ↦ remove_missing task s
    | err (failed e) ↦ set_err w (fetch_failed task.name task.version e) s
    | ok info ↦
        let opened =
          open_module w info false
            (with_cache (cached (at_version task.name task.version) info s.module_info_cache) s) in
        with_tasks w opened.queue opened.fetching
          ((frame_of w info false task.path ∷ []) ∷ opened.workers) opened
  ]

  -- One step of a worker; after a failure a task may end without its fetch, or without its answer.
  pub data Step (s : Build Error) : Build Error → Type 0 where
    work :
        {t : Build Error} (before : List (List Frame)) (fr : Frame) (stack : List Frame)
        (after : List (List Frame))
        → s.workers ≡ before ++ (fr ∷ stack) ∷ after
        → t ≡ after_frame before stack after (run_frame fr s)
        → Step s t
    rest :
        {t : Build Error} (before after : List (List Frame))
        → s.workers ≡ before ++ [] ∷ after
        → t ≡ with_tasks w s.queue s.fetching (before ++ after) s
        → Step s t
    take :
        {t : Build Error} (task : Task) (queue : List Task)
        → s.queue ≡ task ∷ queue
        → t ≡ with_tasks w queue (task ∷ s.fetching) s.workers s
        → Step s t
    finish :
        {t : Build Error} (before : List Task) (task : Task) (after : List Task)
        → s.fetching ≡ before ++ task ∷ after
        → t ≡ end_task task (with_tasks w s.queue (before ++ after) s.workers s)
        → Step s t
    abandon :
        {t : Build Error} (before : List Task) (task : Task) (after : List Task)
        → s.fetching ≡ before ++ task ∷ after
        → s.failure ≢ none
        → t ≡ with_tasks w s.queue (before ++ after) s.workers s
        → Step s t

  abbrev pub empty_build : Build Error
  empty_build = record {
    dep_graph = [];
    module_deps = [];
    module_info_cache = [];
    visiting = [];
    unfulfilled = [];
    prev_round = w.root_module.name ∷ [];
    queue = [];
    fetching = [];
    workers = [];
    failure = none;
  }

  -- A round starts at the root again, and keeps what the rounds before it found and visited.
  unfoldable pub start_round : List Str → Build Error → Build Error
  start_round prev_round s = open_module w w.root_module true (record {
    dep_graph = s.dep_graph;
    module_deps = s.module_deps;
    module_info_cache = s.module_info_cache;
    visiting = s.visiting;
    unfulfilled = [];
    prev_round = prev_round;
    queue = [];
    fetching = [];
    workers = (frame_of w w.root_module true (codes "<root>" ∷ []) ∷ []) ∷ [];
    failure = none;
  })

  abbrev pub is_any_in : List Str → List Str → Bool
  is_any_in [] names = false
  is_any_in (n ∷ ns) names = contains names n || is_any_in ns names

  pub record IsDone (s : Build Error) : Type 0 where
    pub no_queue : s.queue ≡ []
    pub no_fetching : s.fetching ≡ []
    pub no_workers : s.workers ≡ []

  -- The states of the rounds: another round comes after one that is done without a failure and has
  -- found a module that a nodep dependency missed. The limit of 100 rounds is left out.
  pub data Reached : Build Error → Type 0 where
    begin : Reached (start_round (w.root_module.name ∷ []) empty_build)
    next : {s t : Build Error} → Reached s → Step s t → Reached t
    again :
        {s : Build Error}
        → Reached s
        → IsDone s
        → s.failure ≡ none
        → is_any_in s.unfulfilled (keys s.dep_graph) ≡ true
        → Reached (start_round (keys s.dep_graph) s)
