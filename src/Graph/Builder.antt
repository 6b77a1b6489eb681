-- ===== src/Graph/Builder.antt =====
-- graph/builder.go: the graph of a selection result, and that of a list of modules.
pub mod Links
pub mod Resolved
pub mod Mirror
pub mod Keys
use go_bzlmod.Prelude.{
  ℕ, Bool, false, true, ◌||◌, Str, codes, Option, none, some, List, [], ◌∷◌, ◌++◌, map, contains,
  if◌then◌else◌, ◌==◌, nat_eq, list_eq,
}
use go_bzlmod.Prelude.Maps.{Map, lookup, insert}
use go_bzlmod.Selection.Types.{ModuleKey, key_eq, key_string, DepSpec, Module, SelectionResult}
use go_bzlmod.Graph.{
  SelectionStrategy, mvs, override_version, VersionCandidate, SelectionInfo, Node, Graph,
}

pub record Builder : Type 0 where
  pub pre_selection_requests : Map Str (Map Str (List Str))
  pub overrides : Map Str Str

abbrev pub new_builder : Builder
new_builder = record { pre_selection_requests = []; overrides = [] }

-- A missing key reads as a nil map, or a nil slice.
abbrev pub requests_of : Str → Map Str (Map Str (List Str)) → Map Str (List Str)
requests_of name requests = elim (lookup name requests) [ none ↦ [] | some versions ↦ versions ]

abbrev pub requesters_of : Str → Map Str (List Str) → List Str
requesters_of version versions = elim (lookup version versions) [ none ↦ [] | some rs ↦ rs ]

unfoldable pub record_request : Str → Str → Str → Builder → Builder
record_request module_name version requester b =
    let versions = requests_of module_name b.pre_selection_requests in
    record {
      pre_selection_requests =
          insert module_name
            (insert version (requesters_of version versions ++ requester ∷ []) versions)
            b.pre_selection_requests;
      overrides = b.overrides;
    }

unfoldable pub record_override : Str → Str → Builder → Builder
record_override module_name version b = record {
  pre_selection_requests = b.pre_selection_requests;
  overrides = insert module_name version b.overrides;
}

-- The first key of that name that the loop meets.
unfoldable pub find_resolved_version : Map ModuleKey Module → Str → Option ModuleKey
find_resolved_version [] name = none
find_resolved_version ((key, _) ∷ rest) name =
    if key.name == name then some key else find_resolved_version rest name

-- Whether one of the requesters is `requester`, by its text or its name.
abbrev requested_by : ModuleKey → List Str → Bool
requested_by requester [] = false
requested_by requester (r ∷ rs) =
    r == key_string requester || (r == requester.name || requested_by requester rs)

abbrev first_requested : ModuleKey → Map Str (List Str) → Str
first_requested requester [] = []
first_requested requester ((version, requesters) ∷ rest) =
    if requested_by requester requesters then version else first_requested requester rest

unfoldable pub get_requested_version : Builder → ModuleKey → Str → Str
get_requested_version b requester module_name =
    first_requested requester (requests_of module_name b.pre_selection_requests)

-- The parts around the last `@`.
unfoldable pub split_at_last : Str → Option (Str × Str)
split_at_last [] = none
split_at_last (c ∷ s) = elim (split_at_last s) [
  | some (name, version) ↦ some (c ∷ name, version)
  | none ↦ if c == b'@' then some ([], s) else none
]

unfoldable pub parse_module_key : Str → ModuleKey
parse_module_key s = elim (split_at_last s) [
  | none ↦ record { name = s; version = [] }
  | some (name, version) ↦ record {
    name = name;
    version = if version == codes "_" then [] else version;
  }
]

abbrev candidate_of : Str → Str → List Str → VersionCandidate
candidate_of selected_version version requesters = record {
  version = version;
  requested_by = map parse_module_key requesters;
  selected = version == selected_version;
  rejection_reason =
      if version == selected_version then [] else codes "lower version (MVS selects highest)";
}

abbrev candidates_of : Str → Map Str (List Str) → List VersionCandidate
candidates_of selected_version [] = []
candidates_of selected_version ((version, requesters) ∷ rest) =
    candidate_of selected_version version requesters ∷ candidates_of selected_version rest

abbrev deciding_factor_of : List VersionCandidate → Str
deciding_factor_of [] = codes "only version requested"
deciding_factor_of (_ ∷ []) = codes "only version requested"
deciding_factor_of (_ ∷ _ ∷ _) = codes "highest version among candidates"

abbrev mvs_info : Builder → Str → Str → SelectionInfo
mvs_info b module_name selected_version =
    let candidates =
      candidates_of selected_version (requests_of module_name b.pre_selection_requests) in
    record {
      strategy = mvs;
      selected_version = selected_version;
      candidates = candidates;
      deciding_factor = deciding_factor_of candidates;
    }

unfoldable pub build_selection_info : Builder → Str → Str → SelectionInfo
build_selection_info b module_name selected_version = elim (lookup module_name b.overrides) [
  | none ↦ mvs_info b module_name selected_version
  | some override_to ↦
      if override_to == selected_version
      then record {
        strategy = override_version;
        selected_version = selected_version;
        candidates = [];
        deciding_factor = codes "single_version_override";
      }
      else mvs_info b module_name selected_version
]

-- The dependencies that have a resolved version.
unfoldable pub resolved_dependencies : Map ModuleKey Module → List DepSpec → List ModuleKey
resolved_dependencies resolved [] = []
resolved_dependencies resolved (dep ∷ deps) =
    let rest = resolved_dependencies resolved deps in
    elim (find_resolved_version resolved dep.name) [ none ↦ rest | some key ↦ key ∷ rest ]

abbrev pub new_node : Builder → ModuleKey → Map ModuleKey Module → ModuleKey → Module → Node
new_node b root_key resolved key m = record {
  key = key;
  dependencies = resolved_dependencies resolved m.deps;
  dependents = [];
  requested_versions = [];
  selection = some (build_selection_info b key.name key.version);
  is_root = key == root_key;
  dev_dependency = false;
}

-- The first pass of `BuildFromSelection`, over the modules of the resolved graph.
unfoldable pub create_nodes :
    Builder → ModuleKey → Map ModuleKey Module → Map ModuleKey Module → Map ModuleKey Node
create_nodes b root_key resolved [] = []
create_nodes b root_key resolved ((key, m) ∷ rest) =
    (key, new_node b root_key resolved key m) ∷ create_nodes b root_key resolved rest

-- The second pass. `update` is what the loop body does to the node of a dependency.
unfoldable pub link_deps :
    (ModuleKey → ModuleKey → Node → Node)
    → ModuleKey
    → List ModuleKey
    → Map ModuleKey Node
    → Map ModuleKey Node
link_deps update key [] nodes = nodes
link_deps update key (dep_key ∷ dep_keys) nodes =
    link_deps update key dep_keys (elim (lookup dep_key nodes) [
      | none ↦ nodes
      | some dep_node ↦ insert dep_key (update key dep_key dep_node) nodes
    ])

unfoldable pub link_nodes :
    (ModuleKey → ModuleKey → Node → Node)
    → Map ModuleKey Node
    → Map ModuleKey Node
    → Map ModuleKey Node
link_nodes update [] nodes = nodes
link_nodes update ((key, node) ∷ rest) nodes =
    link_nodes update rest (link_deps update key node.dependencies nodes)

abbrev pub add_dependent : ModuleKey → ModuleKey → Node → Node
add_dependent key dep_key node = record {
  key = node.key;
  dependencies = node.dependencies;
  dependents = node.dependents ++ key ∷ [];
  requested_versions = node.requested_versions;
  selection = node.selection;
  is_root = node.is_root;
  dev_dependency = node.dev_dependency;
}

abbrev pub add_request : Builder → ModuleKey → ModuleKey → Node → Node
add_request b key dep_key node = record {
  key = node.key;
  dependencies = node.dependencies;
  dependents = node.dependents ++ key ∷ [];
  requested_versions =
      insert key (get_requested_version b key dep_key.name) node.requested_versions;
  selection = node.selection;
  is_root = node.is_root;
  dev_dependency = node.dev_dependency;
}

unfoldable pub build_from_selection : Builder → SelectionResult → ModuleKey → Graph
build_from_selection b result root_key =
    let nodes = create_nodes b root_key result.resolved_graph result.resolved_graph in
    record { root = root_key; modules = link_nodes (add_request b) nodes nodes }

pub record SimpleModule : Type 0 where
  pub name : Str
  pub version : Str
  pub dependencies : List ModuleKey
  pub dev_dependency : Bool

unfoldable pub simple_nodes :
    ModuleKey → List SimpleModule → Map ModuleKey Node → Map ModuleKey Node
simple_nodes root [] nodes = nodes
simple_nodes root (m ∷ ms) nodes =
    let key : ModuleKey = record { name = m.name; version = m.version } in
    simple_nodes root ms (
      insert key
        (record {
          key = key;
          dependencies = m.dependencies;
          dependents = [];
          requested_versions = [];
          selection = none;
          is_root = key == root;
          dev_dependency = m.dev_dependency;
        })
        nodes)

unfoldable pub build : ModuleKey → List SimpleModule → Graph
build root modules =
    let nodes = simple_nodes root modules [] in
    record { root = root; modules = link_nodes add_dependent nodes nodes }
