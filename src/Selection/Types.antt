-- ===== src/Selection/Types.antt =====
-- selection/types.go, and the small types of selection/selection.go: the data of version selection.
use go_bzlmod.Prelude.{
  Str, Bool, true, ◌&&◌, Option, List, [], ◌∷◌, ◌++◌, Eq, ◌==◌, ==_iff, nat_eq, list_eq,
  if◌then◌else◌, codes, ◌≡◌, ◌↔◌, arith,
}
use go_bzlmod.Prelude.Int.{ℤ, int_eq}
use go_bzlmod.Prelude.Maps.{Map}

pub record ModuleKey : Type 0 where
  pub name : Str
  pub version : Str

-- `ModuleKey.String`
unfoldable pub key_string : ModuleKey → Str
key_string k = if k.version == [] then k.name ++ codes "@_" else k.name ++ (b'@' ∷ k.version)

abbrev pub key_beq : ModuleKey → ModuleKey → Bool
key_beq a b = a.name == b.name && a.version == b.version

pub key_beq_iff : (a b : ModuleKey) → (key_beq a b ≡ true) ↔ (a ≡ b)
key_beq_iff a b = (
  λ h. ground (arith, ==_iff a.name b.name, ==_iff a.version b.version),
  λ h. ground (arith, ==_iff a.name b.name, ==_iff a.version b.version),
)

instance abbrev pub key_eq : Eq ModuleKey
key_eq = record { same = key_beq; same_iff = key_beq_iff }

-- A negative `max_compatibility_level` sets no maximum.
pub record DepSpec : Type 0 where
  pub name : Str
  pub version : Str
  pub max_compatibility_level : ℤ

abbrev pub to_module_key : DepSpec → ModuleKey
to_module_key d = record { name = d.name; version = d.version }

pub record Module : Type 0 where
  pub key : ModuleKey
  pub deps : List DepSpec
  pub compat_level : ℤ
  pub nodep_deps : List DepSpec

pub record DepGraph : Type 0 where
  pub modules : Map ModuleKey Module
  pub root_key : ModuleKey

pub data Override : Type 0 where
  single_version : (version registry : Str) (patches : List Str) → Override
  multiple_version : (versions : List Str) (registry : Str) → Override
  non_registry : (kind path : Str) → Override

-- `Result` of the source.
pub record SelectionResult : Type 0 where
  pub resolved_graph : Map ModuleKey Module
  pub unpruned_graph : Map ModuleKey Module
  pub bfs_order : List ModuleKey

-- An empty `target_allowed_version` stands for no multiple-version override.
pub record SelectionGroup : Type 0 where
  pub module_name : Str
  pub compat_level : ℤ
  pub target_allowed_version : Str

abbrev pub group_beq : SelectionGroup → SelectionGroup → Bool
group_beq a b =
    a.module_name == b.module_name
    && (a.compat_level == b.compat_level && a.target_allowed_version == b.target_allowed_version)

pub group_beq_iff : (a b : SelectionGroup) → (group_beq a b ≡ true) ↔ (a ≡ b)
group_beq_iff a b = (
  λ h. ground (
    arith,
    ==_iff a.module_name b.module_name,
    ==_iff a.compat_level b.compat_level,
    ==_iff a.target_allowed_version b.target_allowed_version,
  ),
  λ h. ground (
    arith,
    ==_iff a.module_name b.module_name,
    ==_iff a.compat_level b.compat_level,
    ==_iff a.target_allowed_version b.target_allowed_version,
  ),
)

instance abbrev pub group_eq : Eq SelectionGroup
group_eq = record { same = group_beq; same_iff = group_beq_iff }

-- The errors, one constructor for each place that makes a `SelectionError`, with the values that
-- its message prints. The code is "VERSION_RESOLUTION_ERROR" at every place. The last one is the
-- model's own: a loop ran out of fuel.
pub data SelectionError : Type 0 where
  allowed_version_missing : (module_name allowed_version : Str) → SelectionError
  dep_level_too_high :
      (key : ModuleKey) (dep : DepSpec) (version : Str) (level : ℤ) → SelectionError
  nodep_level_too_high :
      (key : ModuleKey) (dep : DepSpec) (version : Str) (level : ℤ) → SelectionError
  version_not_allowed :
      (dependent : Option ModuleKey) (key : ModuleKey) (allowed : List Str) → SelectionError
  compat_level_conflict :
      (dependent : Option ModuleKey) (key : ModuleKey) (level : ℤ)
      (other_dependent : Option ModuleKey) (other : ModuleKey) (other_level : ℤ)
      → SelectionError
  out_of_fuel : SelectionError

pub record ModuleNameAndCompatLevel : Type 0 where
  pub module_name : Str
  pub compat_level : ℤ

abbrev pub name_and_compat_beq : ModuleNameAndCompatLevel → ModuleNameAndCompatLevel → Bool
name_and_compat_beq a b = a.module_name == b.module_name && a.compat_level == b.compat_level

pub name_and_compat_beq_iff :
    (a b : ModuleNameAndCompatLevel) → (name_and_compat_beq a b ≡ true) ↔ (a ≡ b)
name_and_compat_beq_iff a b = (
  λ h. ground (arith, ==_iff a.module_name b.module_name, ==_iff a.compat_level b.compat_level),
  λ h. ground (arith, ==_iff a.module_name b.module_name, ==_iff a.compat_level b.compat_level),
)

instance abbrev pub name_and_compat_eq : Eq ModuleNameAndCompatLevel
name_and_compat_eq = record { same = name_and_compat_beq; same_iff = name_and_compat_beq_iff }
