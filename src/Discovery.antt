-- ===== src/Discovery.antt =====
-- `buildDepGraph` of selection_api.go: the discovery of all modules that the root module leads to.
-- A main loop takes dependencies from a queue and starts a fetch for each new key; fetches end in
-- any order. The state holds what the mutex guards, and one step is one locked region; a step may
-- come at any time, so there are more interleavings here than in the source, where the main loop
-- waits for all fetches before it looks at the queue again. That the caller's context ends is left
-- out.
pub mod Keys
pub mod Spec
pub mod Invariant
pub mod Steps
pub mod Complete
pub mod Progress
pub mod Tests
use go_bzlmod.Prelude.{
  Bool, true, false, not, ◌&&◌, ◌||◌, Str, Option, none, some, Result, ok, err, List, [], ◌∷◌, ◌++◌,
  contains, ◌≡◌, ◌≢◌, if◌then◌else◌, ◌==◌, nat_eq, list_eq,
}
use go_bzlmod.Prelude.Int.{ℤ, pos, negsuc, int_eq}
use go_bzlmod.Prelude.Maps.{Map, lookup, insert}
use go_bzlmod.Selection.Types.{ModuleKey, key_eq, DepSpec, to_module_key, Module, DepGraph}
use go_bzlmod.Modules.{
  Dependency, OverrideType, single_version, multiple_version, git, local_path, archive, other_type,
  Override, ModuleInfo, index_overrides,
}

-- What a registry answers when it has no module file: that there is none, or another error.
pub data FetchFailure (Error : Type 0) : Type 0 where
  not_found : FetchFailure Error
  failed : Error → FetchFailure Error

-- What the discovery reads: the registry, the module files of local_path overrides, the option, and
-- the root module.
pub record Sources (Error : Type 0) : Type 0 where
  pub get_module_file : Str → Str → Result (FetchFailure Error) ModuleInfo
  pub parse_local_module : Str → Result Error ModuleInfo
  pub include_dev_deps : Bool
  pub root_module : ModuleInfo

-- Whether a dependency is left out: `dep.DevDependency && (!isRoot || !IncludeDevDeps)`.
abbrev pub skips : Bool → Bool → Dependency → Bool
skips include_dev_deps is_root dep = dep.dev_dependency && (not is_root || not include_dev_deps)

abbrev pub overridden_version : Option Override → Str → Str
overridden_version none version = version
overridden_version (some o) version = elim o.type [
  | single_version ↦ if o.version == [] then version else o.version
  | git ↦ []
  | local_path ↦ []
  | archive ↦ []
  | multiple_version ↦ version
  | other_type ↦ version
]

abbrev pub spec_of : Map Str Override → Dependency → DepSpec
spec_of overrides dep = record {
  name = dep.name;
  version = overridden_version (lookup dep.name overrides) dep.version;
  max_compatibility_level =
      if dep.max_compatibility_level == pos 0 then negsuc 0 else dep.max_compatibility_level;
}

-- `buildDepSpecs`
unfoldable pub build_dep_specs : Bool → Map Str Override → List Dependency → Bool → List DepSpec
build_dep_specs include overrides [] is_root = []
build_dep_specs include overrides (dep ∷ deps) is_root =
    let rest = build_dep_specs include overrides deps is_root in
    if skips include is_root dep then rest else spec_of overrides dep ∷ rest

-- Where the module of a dependency comes from.
pub data Target : Type 0 where
  local_module : (key : ModuleKey) (path : Str) → Target
  placeholder : (key : ModuleKey) → Target
  from_registry : (key : ModuleKey) → Target

abbrev pub unversioned : ModuleKey → ModuleKey
unversioned key = record { name = key.name; version = [] }

abbrev pub overridden_target : Option Override → ModuleKey → Target
overridden_target none key = from_registry key
overridden_target (some o) key = elim o.type [
  | single_version ↦
      from_registry
        (if o.version == [] then key else record { name = key.name; version = o.version })
  | git ↦ placeholder (unversioned key)
  | local_path ↦
      if o.path == [] then placeholder (unversioned key) else local_module (unversioned key) o.path
  | archive ↦ placeholder (unversioned key)
  | multiple_version ↦ from_registry key
  | other_type ↦ from_registry key
]

abbrev pub target_key : Target → ModuleKey
target_key (local_module key _) = key
target_key (placeholder key) = key
target_key (from_registry key) = key

pub record Discovery (Error : Type 0) : Type 0 where
  pub modules : Map ModuleKey Module
  pub visited : List ModuleKey
  pub queue : List DepSpec
  pub fetching : List ModuleKey
  pub failure : Option Error

-- The dependencies of a new module whose keys are not visited.
unfoldable pub unvisited : List ModuleKey → List DepSpec → List DepSpec
unvisited visited [] = []
unvisited visited (d ∷ ds) =
    let rest = unvisited visited ds in if contains visited (to_module_key d) then rest else d ∷ rest

module _ {Error : Type 0} (w : Sources Error) where
  abbrev pub overrides : Map Str Override
  overrides = index_overrides w.root_module.overrides []

  abbrev pub root_key : ModuleKey
  root_key = record { name = w.root_module.name; version = w.root_module.version }

  abbrev pub specs : List Dependency → Bool → List DepSpec
  specs = build_dep_specs w.include_dev_deps overrides

  abbrev pub target : ModuleKey → Target
  target key = overridden_target (lookup key.name overrides) key

  abbrev pub module_of : ModuleKey → ModuleInfo → Bool → Module
  module_of key info is_root = record {
    key = key;
    deps = specs info.dependencies is_root;
    compat_level = info.compatibility_level;
    nodep_deps = specs info.nodep_dependencies is_root;
  }

  abbrev pub placeholder_module : ModuleKey → Module
  placeholder_module key = record { key = key; deps = []; compat_level = pos 0; nodep_deps = [] }

  -- The start: the root's nodep dependencies are not put in the queue.
  abbrev pub start : Discovery Error
  start = record {
    modules = insert root_key (module_of root_key w.root_module true) [];
    visited = root_key ∷ [];
    queue = specs w.root_module.dependencies true;
    fetching = [];
    failure = none;
  }

  -- A module is put in the graph, and its dependencies in the queue.
  abbrev pub add_module : ModuleKey → Module → Discovery Error → Discovery Error
  add_module key m s = record {
    modules = insert key m s.modules;
    visited = s.visited;
    queue = s.queue ++ (unvisited s.visited m.deps ++ unvisited s.visited m.nodep_deps);
    fetching = s.fetching;
    failure = s.failure;
  }

  abbrev pub visit : ModuleKey → Discovery Error → Discovery Error
  visit key s = record {
    modules = s.modules;
    visited = key ∷ s.visited;
    queue = s.queue;
    fetching = s.fetching;
    failure = s.failure;
  }

  -- A local module file that cannot be read ends the discovery with that error.
  abbrev pub give_up : Error → Discovery Error → Discovery Error
  give_up e s = record {
    modules = s.modules;
    visited = s.visited;
    queue = [];
    fetching = [];
    failure = some e;
  }

  abbrev pub begin_fetch : ModuleKey → Discovery Error → Discovery Error
  begin_fetch key s = record {
    modules = s.modules;
    visited = key ∷ s.visited;
    queue = s.queue;
    fetching = key ∷ s.fetching;
    failure = s.failure;
  }

  -- What the main loop does for the target of a dependency that it took from the queue.
  unfoldable pub take_target : Target → Discovery Error → Discovery Error
  take_target (local_module key path) s = elim (w.parse_local_module path) [
    | err e ↦ give_up e s
    | ok info ↦
        if contains s.visited key
        then s
        else add_module key (module_of key info false) (visit key s)
  ]
  take_target (placeholder key) s =
      if contains s.visited key then s else add_module key (placeholder_module key) (visit key s)
  take_target (from_registry key) s = if contains s.visited key then s else begin_fetch key s

  -- The channel of errors holds one: the first counts.
  abbrev pub note_failure : Option Error → Error → Option Error
  note_failure none e = some e
  note_failure (some first) e = some first

  abbrev pub fail : Error → Discovery Error → Discovery Error
  fail e s = record {
    modules = s.modules;
    visited = s.visited;
    queue = s.queue;
    fetching = s.fetching;
    failure = note_failure s.failure e;
  }

  -- What a fetch does with the registry's answer.
  unfoldable pub end_fetch : ModuleKey → Discovery Error → Discovery Error
  end_fetch key s = elim (w.get_module_file key.name key.version) [
    | err not_found ↦ s
    | err (failed e) ↦ fail e s
    | ok info ↦ add_module key (module_of key info false) s
  ]

  abbrev pub with_queue : List DepSpec → Discovery Error → Discovery Error
  with_queue queue s = record {
    modules = s.modules;
    visited = s.visited;
    queue = queue;
    fetching = s.fetching;
    failure = s.failure;
  }

  abbrev pub with_fetching : List ModuleKey → Discovery Error → Discovery Error
  with_fetching fetching s = record {
    modules = s.modules;
    visited = s.visited;
    queue = s.queue;
    fetching = fetching;
    failure = s.failure;
  }

  -- One step: the main loop takes a dependency, a fetch ends, or, once the context is cancelled by
  -- a failure, a fetch ends without its answer.
  pub data Step (s : Discovery Error) : Discovery Error → Type 0 where
    take :
        {t : Discovery Error} (dep : DepSpec) (rest : List DepSpec)
        → s.queue ≡ dep ∷ rest
        → t ≡ take_target (target (to_module_key dep)) (with_queue rest s)
        → Step s t
    finish :
        {t : Discovery Error} (before : List ModuleKey) (key : ModuleKey) (after : List ModuleKey)
        → s.fetching ≡ before ++ key ∷ after
        → t ≡ end_fetch key (with_fetching (before ++ after) s)
        → Step s t
    abandon :
        {t : Discovery Error} (before : List ModuleKey) (key : ModuleKey) (after : List ModuleKey)
        → s.fetching ≡ before ++ key ∷ after
        → s.failure ≢ none
        → t ≡ with_fetching (before ++ after) s
        → Step s t

  pub data Run : Discovery Error → Type 0 where
    begin : Run start
    next : {s t : Discovery Error} → Run s → Step s t → Run t

  -- The queue is empty and no fetch runs: the function returns.
  pub record IsDone (s : Discovery Error) : Type 0 where
    pub no_queue : s.queue ≡ []
    pub no_fetching : s.fetching ≡ []

  -- What is returned.
  abbrev pub discovered : Discovery Error → Result Error DepGraph
  discovered s = elim s.failure [
    | some e ↦ err e
    | none ↦ ok (record { modules = s.modules; root_key = root_key })
  ]
