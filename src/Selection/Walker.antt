-- ===== src/Selection/Walker.antt =====
-- `depGraphWalker` of selection/selection.go: the breadth-first walk from the root that collects the
-- reachable modules and looks for conflicts. The `for` loop runs on fuel; `Walker/Ends` shows that
-- the fuel of `walk` is enough.
pub mod Deps
pub mod Queue
pub mod Invariant
pub mod Ends
pub mod Reachable
pub mod Conflicts
use go_bzlmod.Prelude.{
  ℕ, zero, suc, ◌+◌, Str, Bool, true, false, not, Option, none, some, List, [], ◌∷◌, ◌++◌, map,
  length, Eq, ◌==◌, contains, nat_eq, list_eq, if◌then◌else◌, Result, ok, err, ◌>>=◌,
}
use go_bzlmod.Prelude.Int.{ℤ, pos, ltb_ℤ, int_eq}
use go_bzlmod.Prelude.Maps.{Map, lookup, insert}
use go_bzlmod.Selection.Types.{
  ModuleKey, key_eq, DepSpec, to_module_key, Module, DepGraph, Override, multiple_version,
  SelectionGroup, SelectionError, dep_level_too_high, nodep_level_too_high, version_not_allowed,
  compat_level_conflict, out_of_fuel,
}
use go_bzlmod.Selection.Groups.{SelectionGroups}
use go_bzlmod.Selection.Strategies.{Strategy}

pub record Walker : Type 0 where
  pub old_graph : DepGraph
  pub overrides : Map Str Override
  pub selection_groups : SelectionGroups
  pub ignore_nodep_deps : Bool

pub record ExistingModule : Type 0 where
  pub key : ModuleKey
  pub compat_level : ℤ
  pub dependent : Option ModuleKey

pub record QueueItem : Type 0 where
  pub key : ModuleKey
  pub dependent : Option ModuleKey

-- The keys that the map `known` holds true, and the queue.
pub record Frontier : Type 0 where
  pub known : List ModuleKey
  pub queue : List QueueItem

-- The variables of `walk`.
pub record WalkState : Type 0 where
  pub module_by_name : Map Str ExistingModule
  pub new_graph : Map ModuleKey Module
  pub bfs_order : List ModuleKey
  pub frontier : Frontier
  pub open frontier use *

abbrev pub resolve : Strategy → DepSpec → DepSpec
resolve strategy dep = record dep { version = strategy dep }

-- Whether the resolved module's compatibility level exceeds the maximum of the dependency: the
-- level, if it does.
unfoldable pub excessive_level : DepGraph → Strategy → DepSpec → Option ℤ
excessive_level graph strategy dep =
    if ltb_ℤ dep.max_compatibility_level (pos 0)
    then none
    else elim (lookup (to_module_key (resolve strategy dep)) graph.modules) [
      | none ↦ none
      | some resolved ↦
          if ltb_ℤ dep.max_compatibility_level resolved.compat_level
          then some resolved.compat_level
          else none
    ]

-- The loops over `oldModule.Deps` and `oldModule.NodepDeps`, which differ in the message.
unfoldable pub transform_deps :
    (ModuleKey → DepSpec → Str → ℤ → SelectionError)
    → DepGraph
    → Strategy
    → ModuleKey
    → List DepSpec
    → Result SelectionError (List DepSpec)
transform_deps too_high graph strategy key [] = ok []
transform_deps too_high graph strategy key (dep ∷ deps) =
    elim (excessive_level graph strategy dep) [
      | some level ↦ err (too_high key dep (strategy dep) level)
      | none ↦ do
        rest ← transform_deps too_high graph strategy key deps
        ok (resolve strategy dep ∷ rest)
    ]

-- The versions that the multiple-version override of a module allows, if it has one.
unfoldable pub multiple_versions : Map Str Override → Str → Option (List Str)
multiple_versions overrides name = elim (lookup name overrides) [
  | some (multiple_version versions registry) ↦ some versions
  | _ ↦ none
]

-- `w.selectionGroups[key].TargetAllowedVersion`; a missing key reads as a group of zero values.
abbrev pub target_of : SelectionGroups → ModuleKey → Str
target_of groups key = elim (lookup key groups) [ none ↦ [] | some g ↦ g.target_allowed_version ]

unfoldable pub visit :
    Walker
    → ModuleKey
    → Module
    → Option ModuleKey
    → Map Str ExistingModule
    → Result SelectionError (Map Str ExistingModule)
visit w key module' from by_name = elim (multiple_versions w.overrides key.name) [
  | some versions ↦
      if target_of w.selection_groups key == []
      then err (version_not_allowed from key versions)
      else ok by_name
  | none ↦
      let entered =
        insert module'.key.name
          (record { key = key; compat_level = module'.compat_level; dependent = from }) by_name in
      elim (lookup module'.key.name by_name) [
        | none ↦ ok entered
        | some existing ↦
            if existing.compat_level == module'.compat_level
            then ok entered
            else err (
                compat_level_conflict from key module'.compat_level existing.dependent existing.key
                  existing.compat_level)
      ]
]

abbrev pub push : ModuleKey → ModuleKey → Frontier → Frontier
push dependent k f = record {
  known = k ∷ f.known;
  queue = f.queue ++ record { key = k; dependent = some dependent } ∷ [];
}

-- The loops that add dependencies to the queue.
unfoldable pub enqueue : ModuleKey → List DepSpec → Frontier → Frontier
enqueue dependent [] f = f
enqueue dependent (dep ∷ deps) f =
    enqueue dependent deps
      (if contains f.known (to_module_key dep) then f else push dependent (to_module_key dep) f)

-- The new module that stands for `old_module`.
unfoldable pub new_module : DepGraph → Strategy → ModuleKey → Module → Result SelectionError Module
new_module graph strategy key old_module = do
  deps ← transform_deps dep_level_too_high graph strategy key old_module.deps
  nodep_deps ← transform_deps nodep_level_too_high graph strategy key old_module.nodep_deps
  ok (record {
    key = key;
    deps = deps;
    compat_level = old_module.compat_level;
    nodep_deps = nodep_deps;
  })

-- The dependencies whose keys are added to the queue.
abbrev pub followed : Walker → Module → List DepSpec
followed w m = if w.ignore_nodep_deps then m.deps else m.deps ++ m.nodep_deps

-- The rest of the round behind the call of `visit`.
unfoldable pub add_module :
    Walker → ModuleKey → Module → Map Str ExistingModule → WalkState → WalkState
add_module w key m by_name s =
    let f = enqueue key m.deps s.frontier in
    record {
      module_by_name = by_name;
      new_graph = insert key m s.new_graph;
      bfs_order = s.bfs_order ++ key ∷ [];
      frontier = if w.ignore_nodep_deps then f else enqueue key m.nodep_deps f;
    }

-- One round of the loop, after `item` left the queue.
unfoldable pub process : Walker → Strategy → QueueItem → WalkState → Result SelectionError WalkState
process w strategy item s = elim (lookup item.key w.old_graph.modules) [
  | none ↦ ok s
  | some old_module ↦ do
    m ← new_module w.old_graph strategy item.key old_module
    by_name ← visit w item.key m item.dependent s.module_by_name
    ok (add_module w item.key m by_name s)
]

unfoldable pub walk_loop : Walker → Strategy → ℕ → WalkState → Result SelectionError WalkState
walk_loop w strategy zero s = elim s.queue [ [] ↦ ok s | _ ∷ _ ↦ err out_of_fuel ]
walk_loop w strategy (suc fuel) s = elim s.queue [
  | [] ↦ ok s
  | item ∷ rest ↦
      process w strategy item (record s { frontier = record { known = s.known; queue = rest } })
      >>= λ s'. walk_loop w strategy fuel s'
]

abbrev pub start : DepGraph → WalkState
start graph = record {
  module_by_name = [];
  new_graph = [];
  bfs_order = [];
  frontier = record {
    known = graph.root_key ∷ [];
    queue = record { key = graph.root_key; dependent = none } ∷ [];
  };
}

-- The dependencies of all modules.
abbrev pub all_deps : Map ModuleKey Module → List DepSpec
all_deps [] = []
all_deps ((_, m) ∷ rest) = (m.deps ++ m.nodep_deps) ++ all_deps rest

-- `walk`: the final state holds the new graph and the order. Every round takes an item from the
-- queue, and an item enters it for the root and at most once for each dependency of the graph.
unfoldable pub walk : Walker → Strategy → Result SelectionError WalkState
walk w strategy =
    walk_loop w strategy (suc (length (all_deps w.old_graph.modules))) (start w.old_graph)
