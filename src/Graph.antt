-- ===== src/Graph.antt =====
-- graph: the resolved module dependency graph, and the queries of graph/query.go on it.
pub mod Searching
pub mod Closure
pub mod Shape
pub mod Builder
pub mod Tests
use go_bzlmod.Prelude.{
  ℕ, suc, zero, ◌+◌, Bool, false, true, Str, Option, none, some, List, [], ◌∷◌, ◌++◌, length,
  contains, if◌then◌else◌,
}
use go_bzlmod.Prelude.Maps.{Map, lookup}
use go_bzlmod.Selection.Types.{ModuleKey, key_eq}

pub data SelectionStrategy : Type 0 where
  mvs override_version single_version root_module : SelectionStrategy

pub record VersionCandidate : Type 0 where
  pub version : Str
  pub requested_by : List ModuleKey
  pub selected : Bool
  pub rejection_reason : Str

pub record SelectionInfo : Type 0 where
  pub strategy : SelectionStrategy
  pub selected_version : Str
  pub candidates : List VersionCandidate
  pub deciding_factor : Str

pub record Node : Type 0 where
  pub key : ModuleKey
  pub dependencies : List ModuleKey
  pub dependents : List ModuleKey
  pub requested_versions : Map ModuleKey Str
  pub selection : Option SelectionInfo
  pub is_root : Bool
  pub dev_dependency : Bool

pub record Graph : Type 0 where
  pub root : ModuleKey
  pub modules : Map ModuleKey Node

abbrev pub get : Graph → ModuleKey → Option Node
get g key = lookup key g.modules

-- `Node.Dependencies` of a key, where a key that is not in the graph has none.
abbrev pub direct_deps : Graph → ModuleKey → List ModuleKey
direct_deps g key = elim (get g key) [ none ↦ [] | some node ↦ node.dependencies ]

abbrev pub direct_dependents : Graph → ModuleKey → List ModuleKey
direct_dependents g key = elim (get g key) [ none ↦ [] | some node ↦ node.dependents ]

-- The variables of `TransitiveDeps` and `TransitiveDependents`; `visited` lists the keys that the
-- map holds true.
pub record Search : Type 0 where
  pub visited : List ModuleKey
  pub result : List ModuleKey
  pub queue : List ModuleKey

abbrev pub add_key : ModuleKey → Search → Search
add_key key s = record {
  visited = key ∷ s.visited;
  result = s.result ++ key ∷ [];
  queue = s.queue ++ key ∷ [];
}

-- The inner loop.
unfoldable pub add_keys : List ModuleKey → Search → Search
add_keys [] s = s
add_keys (key ∷ keys) s = add_keys keys (if contains s.visited key then s else add_key key s)

-- The outer loop. The two functions differ in the edges that they follow.
unfoldable pub search_loop : (ModuleKey → List ModuleKey) → ℕ → Search → Option (List ModuleKey)
search_loop edges zero s = none
search_loop edges (suc n) s = elim s.queue [
  | [] ↦ some s.result
  | current ∷ queue ↦
      search_loop edges n (
        add_keys (edges current) (record { visited = s.visited; result = s.result; queue = queue }))
]

abbrev pub start_search : ModuleKey → Search
start_search key = record { visited = key ∷ []; result = []; queue = key ∷ [] }

-- All edges of one kind.
abbrev pub all_edges : (Node → List ModuleKey) → Map ModuleKey Node → List ModuleKey
all_edges edges [] = []
all_edges edges ((_, node) ∷ rest) = edges node ++ all_edges edges rest

-- A key enters the queue at most once for each edge, besides the first; one more round finds the
-- queue empty.
unfoldable pub transitive_deps : Graph → ModuleKey → Option (List ModuleKey)
transitive_deps g key =
    search_loop (direct_deps g) (2 + length (all_edges (λ node. node.dependencies) g.modules))
      (start_search key)

unfoldable pub transitive_dependents : Graph → ModuleKey → Option (List ModuleKey)
transitive_dependents g key =
    search_loop (direct_dependents g) (2 + length (all_edges (λ node. node.dependents) g.modules))
      (start_search key)
