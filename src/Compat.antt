-- ===== src/Compat.antt =====
-- What a Bazel version allows: internal/compat/fields.go, the fields that a version supports, and
-- bazel_compat.go, the constraints of modules on the version. Texts for messages are values here.
pub mod Reading
pub mod Releases
pub mod Constraints
pub mod Tests
use go_bzlmod.Prelude.{
  ℕ, ◌+◌, ◌-◌, ◌*◌, ◌^◌, Ordering, lt, eq, gt, Bool, true, false, not, ◌&&◌, ◌||◌, Str, codes,
  Option, none, some, List, [], ◌∷◌, ◌++◌, ltb, leb, split, if◌then◌else◌, ◌==◌, nat_eq, list_eq,
}
use go_bzlmod.Prelude.Maps.{Map, lookup}
use go_bzlmod.Modules.{ModuleInfo, ModuleToResolve}
use go_bzlmod.Metadata.{at_version}
use go_bzlmod.Version

pub data FieldLocation : Type 0 where
  location_module location_source location_registry : FieldLocation

pub record FieldRequirement : Type 0 where
  pub name : Str
  pub min_version : Str
  pub location : FieldLocation

-- `fieldRegistry`, without the descriptions.
abbrev pub field_registry : List FieldRequirement
field_registry =
    record { name = codes "mirror_urls"; min_version = codes "7.7.0"; location = location_source }
    ∷ record {
      name = codes "max_compatibility_level";
      min_version = codes "7.0.0";
      location = location_module;
    }
    ∷ record { name = codes "include"; min_version = codes "7.2.0"; location = location_module }
    ∷ record {
      name = codes "use_repo_rule";
      min_version = codes "7.0.0";
      location = location_module;
    }
    ∷ record {
      name = codes "override_repo";
      min_version = codes "8.0.0";
      location = location_module;
    }
    ∷ record { name = codes "inject_repo"; min_version = codes "8.0.0"; location = location_module }
    ∷ []

pub record FieldWarning : Type 0 where
  pub field : Str
  pub min_version : Str
  pub used_version : Str
  pub location : FieldLocation

abbrev pub is_lt : Ordering → Bool
is_lt lt = true
is_lt eq = false
is_lt gt = false

abbrev pub is_gt : Ordering → Bool
is_gt lt = false
is_gt eq = false
is_gt gt = true

unfoldable pub find_requirement : List FieldRequirement → Str → Option FieldRequirement
find_requirement [] name = none
find_requirement (r ∷ rs) name = if r.name == name then some r else find_requirement rs name

-- `GetRequirement`
abbrev pub get_requirement : Str → Option FieldRequirement
get_requirement = find_requirement field_registry

-- The loop of `IsSupported`.
unfoldable pub supported_by : List FieldRequirement → Str → Str → Bool
supported_by [] bazel_version name = true
supported_by (r ∷ rs) bazel_version name =
    if r.name == name
    then not (is_lt (Version.compare bazel_version r.min_version))
    else supported_by rs bazel_version name

unfoldable pub is_supported : Str → Str → Bool
is_supported bazel_version name =
    if bazel_version == [] then true else supported_by field_registry bazel_version name

unfoldable pub check_requirement : Str → Str → Option FieldRequirement → Option FieldWarning
check_requirement bazel_version name none = none
check_requirement bazel_version name (some req) =
    if is_lt (Version.compare bazel_version req.min_version)
    then some (record {
      field = name;
      min_version = req.min_version;
      used_version = bazel_version;
      location = req.location;
    })
    else none

unfoldable pub check_field : Str → Str → Option FieldWarning
check_field bazel_version name =
    if bazel_version == []
    then none
    else check_requirement bazel_version name (get_requirement name)

pub data Operator : Type 0 where
  at_least at_most above below except : Operator

pub record BazelCompatConstraint : Type 0 where
  pub operator : Operator
  pub version : Str

abbrev pub is_digit : ℕ → Bool
is_digit c = leb b'0' c && leb c b'9'

abbrev pub is_digits : Str → Bool
is_digits [] = false
is_digits (c ∷ []) = is_digit c
is_digits (c ∷ d ∷ s) = is_digit c && is_digits (d ∷ s)

-- `\d+\.\d+\.\d+`
abbrev pub is_triple : List Str → Bool
is_triple (a ∷ b ∷ c ∷ []) = is_digits a && (is_digits b && is_digits c)
is_triple _ = false

abbrev pub is_release_triple : Str → Bool
is_release_triple s = is_triple (split b'.' s)

-- The operator that a text begins with, and the rest: `>=`, `<=`, `>`, `<` or `-`.
abbrev pub after_operator : Str → Option (Operator × Str)
after_operator [] = none
after_operator (c ∷ s) =
    if c == b'>'
    then some (equal_sign at_least above s)
    else if c == b'<'
    then some (equal_sign at_most below s)
    else if c == b'-'
    then some (except, s)
    else none
  where
    equal_sign : Operator → Operator → Str → Operator × Str
    equal_sign with_equal without [] = (without, [])
    equal_sign with_equal without (d ∷ t) = if d == b'=' then (with_equal, t) else (without, d ∷ t)

unfoldable pub parse_bazel_compat_constraint : Str → Option BazelCompatConstraint
parse_bazel_compat_constraint s = elim (after_operator s) [
  | none ↦ none
  | some (op, rest) ↦
      if is_release_triple rest then some (record { operator = op; version = rest }) else none
]

abbrev pub satisfies : Operator → Ordering → Bool
satisfies at_least c = not (is_lt c)
satisfies at_most c = not (is_gt c)
satisfies above c = is_gt c
satisfies below c = is_lt c
satisfies except c = is_lt c || is_gt c

unfoldable pub check : BazelCompatConstraint → Str → Bool
check c bazel_version = satisfies c.operator (Version.compare bazel_version c.version)

-- The text up to the first `-` or `+`.
unfoldable pub before_suffix : Str → Str
before_suffix [] = []
before_suffix (c ∷ s) =
    let rest = before_suffix s in if c == b'-' || c == b'+' then [] else c ∷ rest

abbrev digits_value : ℕ → Str → ℕ
digits_value n [] = n
digits_value n (c ∷ s) = digits_value (n * 10 + (c - b'0')) s

-- Whether `strconv.Atoi` succeeds at a text without signs, for 64-bit integers.
abbrev pub is_int : Str → Bool
is_int s = is_digits s && ltb (digits_value 0 s) (2 ^ 63)

abbrev normalized : Str → List Str → Str
normalized v (a ∷ b ∷ c ∷ rest) =
    if is_int a && (is_int b && is_int c) then a ++ b'.' ∷ (b ++ b'.' ∷ c) else v
normalized v _ = v

unfoldable pub normalize_bazel_version : Str → Str
normalize_bazel_version v = let cut = before_suffix v in normalized cut (split b'.' cut)

pub record Checked : Type 0 where
  pub compatible : Bool
  pub reason : Str
  pub invalid_constraints : List Str

-- `strings.Join(parts, " and ")`
abbrev join_and : List Str → Str
join_and [] = []
join_and (s ∷ []) = s
join_and (s ∷ t ∷ rest) = s ++ codes " and " ++ join_and (t ∷ rest)

abbrev pub fails : Str → Option BazelCompatConstraint → Bool
fails bazel_version none = false
fails bazel_version (some c) = not (check c bazel_version)

unfoldable pub failed_constraints : Str → List Str → List Str
failed_constraints bazel_version [] = []
failed_constraints bazel_version (s ∷ rest) =
    let failed = failed_constraints bazel_version rest in
    if fails bazel_version (parse_bazel_compat_constraint s) then s ∷ failed else failed

abbrev is_none {ℓ} : {A : Type ℓ} → Option A → Bool
is_none none = true
is_none (some _) = false

unfoldable pub invalid_constraints : List Str → List Str
invalid_constraints [] = []
invalid_constraints (s ∷ rest) =
    let invalid = invalid_constraints rest in
    if is_none (parse_bazel_compat_constraint s) then s ∷ invalid else invalid

abbrev pub checked : List Str → List Str → Checked
checked [] invalid = record { compatible = true; reason = []; invalid_constraints = invalid }
checked (s ∷ failed) invalid = record {
  compatible = false;
  reason = codes "requires " ++ join_and (s ∷ failed);
  invalid_constraints = invalid;
}

abbrev unchecked : Checked
unchecked = record { compatible = true; reason = []; invalid_constraints = [] }

unfoldable pub check_bazel_compatibility : Str → List Str → Checked
check_bazel_compatibility bazel_version constraints =
    if bazel_version == []
    then unchecked
    else checked (failed_constraints (normalize_bazel_version bazel_version) constraints)
        (invalid_constraints constraints)

abbrev pub mark_incompatible : List Str → Checked → ModuleToResolve → ModuleToResolve
mark_incompatible constraints result m = record {
  name = m.name;
  version = m.version;
  registry = m.registry;
  depth = m.depth;
  dev_dependency = m.dev_dependency;
  dependencies = m.dependencies;
  required_by = m.required_by;
  yanked = m.yanked;
  yank_reason = m.yank_reason;
  is_deprecated = m.is_deprecated;
  deprecation_reason = m.deprecation_reason;
  bazel_compatibility = constraints;
  is_bazel_incompatible = if result.compatible then m.is_bazel_incompatible else true;
  bazel_incompatibility_reason =
      if result.compatible then m.bazel_incompatibility_reason else result.reason;
}

-- What the loop of `checkModuleBazelCompatibility` does to one module.
abbrev pub with_info : Str → ModuleToResolve → Option ModuleInfo → ModuleToResolve
with_info bazel_version m none = m
with_info bazel_version m (some info) = elim info.bazel_compatibility [
  | [] ↦ m
  | s ∷ rest ↦ mark_incompatible (s ∷ rest) (check_bazel_compatibility bazel_version (s ∷ rest)) m
]

unfoldable pub check_module_bazel_compatibility :
    Map Str ModuleInfo → Str → List ModuleToResolve → List ModuleToResolve
check_module_bazel_compatibility module_info_cache bazel_version [] = []
check_module_bazel_compatibility module_info_cache bazel_version (m ∷ ms) =
    with_info bazel_version m (lookup (at_version m.name m.version) module_info_cache)
    ∷ check_module_bazel_compatibility module_info_cache bazel_version ms
