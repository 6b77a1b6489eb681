-- ===== src/Selection/Groups.antt =====
-- selection/selection.go, steps 1 to 3 of `Run`: the allowed versions of each multiple-version
-- override, the selection group of each module, and the version selected for each group.
pub mod Highest
pub mod Allowed
pub mod Ceiling
pub mod Errors
use go_bzlmod.Prelude.{
  ℕ, Ordering, lt, eq, gt, Str, Bool, true, false, Option, none, some, List, [], ◌∷◌, ◌++◌, Result,
  ok, err, Eq,
}
use go_bzlmod.Prelude.Maps.{Map, lookup, insert}
use go_bzlmod.Version
use go_bzlmod.Selection.Types.{
  ModuleKey, key_eq, Module, DepGraph, Override, multiple_version, SelectionGroup, group_eq,
  SelectionError, allowed_version_missing, ModuleNameAndCompatLevel, name_and_compat_eq,
}

abbrev pub AllowedVersionSets : Type 0
AllowedVersionSets = Map ModuleNameAndCompatLevel (List Str)

-- A missing key reads as nil, the empty slice.
abbrev pub allowed_of : ModuleNameAndCompatLevel → AllowedVersionSets → List Str
allowed_of k sets = elim (lookup k sets) [ none ↦ [] | some versions ↦ versions ]

-- The inner loop of `computeAllowedVersionSets`, over the versions of one override.
unfoldable pub add_allowed_versions :
    DepGraph → Str → List Str → AllowedVersionSets → Result SelectionError AllowedVersionSets
add_allowed_versions graph name [] sets = ok sets
add_allowed_versions graph name (v ∷ vs) sets =
    elim (lookup (record { name = name; version = v }) graph.modules) [
      | none ↦ err (allowed_version_missing name v)
      | some module' ↦
          let k : ModuleNameAndCompatLevel = record {
            module_name = name;
            compat_level = module'.compat_level;
          } in
          add_allowed_versions graph name vs (insert k (allowed_of k sets ++ v ∷ []) sets)
    ]

-- The outer loop, over the overrides.
unfoldable pub add_overrides :
    DepGraph → Map Str Override → AllowedVersionSets → Result SelectionError AllowedVersionSets
add_overrides graph [] sets = ok sets
add_overrides graph ((name, multiple_version versions registry) ∷ rest) sets =
    elim (add_allowed_versions graph name versions sets) [
      | err e ↦ err e
      | ok sets' ↦ add_overrides graph rest sets'
    ]
add_overrides graph (_ ∷ rest) sets = add_overrides graph rest sets

unfoldable pub sort_allowed : AllowedVersionSets → AllowedVersionSets
sort_allowed [] = []
sort_allowed ((k, versions) ∷ rest) = (k, Version.sort versions) ∷ sort_allowed rest

unfoldable pub compute_allowed_version_sets :
    Map Str Override → DepGraph → Result SelectionError AllowedVersionSets
compute_allowed_version_sets overrides graph = elim (add_overrides graph overrides []) [
  | err e ↦ err e
  | ok sets ↦ ok (sort_allowed sets)
]

-- The first allowed version that is no lower than `v`, or the empty string.
unfoldable pub ceiling : Str → List Str → Str
ceiling v [] = []
ceiling v (av ∷ avs) = elim (Version.compare av v) [ lt ↦ ceiling v avs | _ ↦ av ]

unfoldable pub compute_selection_group : Module → AllowedVersionSets → SelectionGroup
compute_selection_group module' sets =
    let level = module'.compat_level in
    let name = module'.key.name in
    elim (lookup (record { module_name = name; compat_level = level }) sets) [
      | none ↦ record { module_name = name; compat_level = level; target_allowed_version = [] }
      | some allowed ↦ record {
        module_name = name;
        compat_level = level;
        target_allowed_version = ceiling module'.key.version allowed;
      }
    ]

abbrev pub SelectionGroups : Type 0
SelectionGroups = Map ModuleKey SelectionGroup

abbrev pub SelectedVersions : Type 0
SelectedVersions = Map SelectionGroup Str

-- Step 2 of `Run`: each key of the graph is assigned once.
unfoldable pub selection_groups : AllowedVersionSets → Map ModuleKey Module → SelectionGroups
selection_groups sets [] = []
selection_groups sets ((key, module') ∷ rest) =
    (key, compute_selection_group module' sets) ∷ selection_groups sets rest

-- The body of the loop of step 3.
unfoldable pub select_version : ModuleKey → SelectionGroup → SelectedVersions → SelectedVersions
select_version key group selected = elim (lookup group selected) [
  | none ↦ insert group key.version selected
  | some existing ↦ elim (Version.compare key.version existing) [
    | gt ↦ insert group key.version selected
    | _ ↦ selected
  ]
]

unfoldable pub selected_versions : SelectionGroups → SelectedVersions → SelectedVersions
selected_versions [] selected = selected
selected_versions ((key, group) ∷ rest) selected =
    selected_versions rest (select_version key group selected)
