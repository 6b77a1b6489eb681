-- ===== src/Selection/Run.antt =====
-- `Run` and `tryStrategy` of selection/selection.go. Go returns a result and an error; the model
-- returns an error, or an `Option` that would be `none` where Go returned two nils.
pub mod Selected
pub mod Plain
use go_bzlmod.Prelude.{
  Str, Bool, true, false, Option, none, some, List, [], ◌∷◌, map, Result, ok, err, ◌>>=◌,
}
use go_bzlmod.Prelude.Maps.{Map}
use go_bzlmod.Selection.Types.{
  ModuleKey, Module, DepGraph, Override, SelectionResult, SelectionError,
}
use go_bzlmod.Selection.Groups.{
  SelectionGroups, compute_allowed_version_sets, selection_groups, selected_versions,
}
use go_bzlmod.Selection.Strategies.{Strategy, enumerate_strategies}
use go_bzlmod.Selection.Walker.{Walker, walk, resolve}

abbrev pub walker_of : Bool → DepGraph → Map Str Override → SelectionGroups → Walker
walker_of ignore graph overrides groups = record {
  old_graph = graph;
  overrides = overrides;
  selection_groups = groups;
  ignore_nodep_deps = ignore;
}

-- All modules of the graph, with their dependencies resolved.
unfoldable pub unpruned_graph_of : Strategy → Map ModuleKey Module → Map ModuleKey Module
unpruned_graph_of strategy [] = []
unpruned_graph_of strategy ((key, m) ∷ rest) =
    (
      key,
      record {
        key = key;
        deps = map (resolve strategy) m.deps;
        compat_level = m.compat_level;
        nodep_deps = map (resolve strategy) m.nodep_deps;
      },
    )
    ∷ unpruned_graph_of strategy rest

unfoldable pub try_strategy :
    DepGraph → Map Str Override → SelectionGroups → Strategy → Result SelectionError SelectionResult
try_strategy graph overrides groups strategy = do
  _ ← walk (walker_of false graph overrides groups) strategy
  t ← walk (walker_of true graph overrides groups) strategy
  ok (record {
    resolved_graph = t.new_graph;
    unpruned_graph = unpruned_graph_of strategy graph.modules;
    bfs_order = t.bfs_order;
  })

-- `firstError`, once a strategy has failed with `e`.
abbrev pub keep_first : Option SelectionError → SelectionError → Option SelectionError
keep_first none e = some e
keep_first (some first) e = some first

abbrev pub returned : Option SelectionError → Result SelectionError (Option SelectionResult)
returned none = ok none
returned (some e) = err e

-- The loop over the strategies.
unfoldable pub try_strategies :
    DepGraph
    → Map Str Override
    → SelectionGroups
    → List Strategy
    → Option SelectionError
    → Result SelectionError (Option SelectionResult)
try_strategies graph overrides groups [] first = returned first
try_strategies graph overrides groups (strategy ∷ rest) first =
    elim (try_strategy graph overrides groups strategy) [
      | ok r ↦ ok (some r)
      | err e ↦ try_strategies graph overrides groups rest (keep_first first e)
    ]

unfoldable pub run : DepGraph → Map Str Override → Result SelectionError (Option SelectionResult)
run graph overrides = do
  sets ← compute_allowed_version_sets overrides graph
  let groups = selection_groups sets graph.modules
  let strategies = enumerate_strategies graph groups (selected_versions groups [])
  try_strategies graph overrides groups strategies none
