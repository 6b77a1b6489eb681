-- ===== src/Modules.antt =====
-- types.go: the data of modules, dependencies and overrides, and the indices of overrides that
-- resolver.go, selection_api.go and registry_trace.go make.
use go_bzlmod.Prelude.{
  ℕ, Bool, true, false, Str, Option, none, some, List, [], ◌∷◌, if◌then◌else◌, ◌==◌, nat_eq,
  list_eq,
}
use go_bzlmod.Prelude.Int.{ℤ}
use go_bzlmod.Prelude.Maps.{Map, lookup, insert}
use go_bzlmod.Selection.Types

pub record Dependency : Type 0 where
  pub name : Str
  pub version : Str
  pub max_compatibility_level : ℤ
  pub repo_name : Str
  pub dev_dependency : Bool
  pub is_nodep_dep : Bool

-- The texts that `Override.Type` holds, and any other.
pub data OverrideType : Type 0 where
  single_version multiple_version git local_path archive other_type : OverrideType

pub record Override : Type 0 where
  pub type : OverrideType
  pub module_name : Str
  pub version : Str
  pub versions : List Str
  pub registry : Str
  pub path : Str

pub record ModuleInfo : Type 0 where
  pub name : Str
  pub version : Str
  pub compatibility_level : ℤ
  pub bazel_compatibility : List Str
  pub dependencies : List Dependency
  pub nodep_dependencies : List Dependency
  pub overrides : List Override

-- The fields of a resolved module, but for `Source`, which a registry fills in.
pub record ModuleToResolve : Type 0 where
  pub name : Str
  pub version : Str
  pub registry : Str
  pub depth : ℕ
  pub dev_dependency : Bool
  pub dependencies : List Str
  pub required_by : List Str
  pub yanked : Bool
  pub yank_reason : Str
  pub is_deprecated : Bool
  pub deprecation_reason : Str
  pub bazel_compatibility : List Str
  pub is_bazel_incompatible : Bool
  pub bazel_incompatibility_reason : Str

-- `isNonRegistryOverride`
abbrev pub is_non_registry : OverrideType → Bool
is_non_registry single_version = false
is_non_registry multiple_version = false
is_non_registry git = true
is_non_registry local_path = true
is_non_registry archive = true
is_non_registry other_type = false

-- `indexOverrides`: the last override of a name counts, and one without a name is skipped.
unfoldable pub index_overrides : List Override → Map Str Override → Map Str Override
index_overrides [] index = index
index_overrides (o ∷ os) index =
    index_overrides os (if o.module_name == [] then index else insert o.module_name o index)

-- `overrideIndex` of registry_trace.go, which keeps an override without a name.
unfoldable pub override_index : List Override → Map Str Override → Map Str Override
override_index [] index = index
override_index (o ∷ os) index = override_index os (insert o.module_name o index)

-- `registryURLForModule`
unfoldable pub registry_url_for_module : Str → Str → Map Str Override → Str
registry_url_for_module default_registry module_name overrides =
    elim (lookup module_name overrides) [
      | none ↦ default_registry
      | some o ↦
          if is_non_registry o.type
          then []
          else if o.registry == []
          then default_registry
          else o.registry
    ]

-- What the body of `convertOverrides` makes of one override. `kind` tells the type of an override
-- that is not a registry's.
abbrev pub converted : (OverrideType → Str) → Override → Option Types.Override
converted kind o = elim o.type [
  | single_version ↦ some (Types.single_version o.version o.registry [])
  | multiple_version ↦ some (Types.multiple_version o.versions o.registry)
  | git ↦ some (Types.non_registry (kind git) o.path)
  | local_path ↦ some (Types.non_registry (kind local_path) o.path)
  | archive ↦ some (Types.non_registry (kind archive) o.path)
  | other_type ↦ none
]

unfoldable pub convert_overrides :
    (OverrideType → Str) → List Override → Map Str Types.Override → Map Str Types.Override
convert_overrides kind [] result = result
convert_overrides kind (o ∷ os) result =
    convert_overrides kind os
      (elim (converted kind o) [ none ↦ result | some c ↦ insert o.module_name c result ])
