-- ===== src/Metadata.antt =====
-- The metadata of a module: registry/types.go's `Metadata` and metadata.go, which marks the yanked
-- and deprecated modules of a resolution. Its goroutines read the name and the version of their own
-- module, and each result is written at that module's index: the marks do not depend on an order,
-- and are a map over the list.
use go_bzlmod.Prelude.{
  Bool, true, false, not, ◌&&◌, ◌||◌, Str, codes, Option, none, some, Result, ok, err, List, [],
  ◌∷◌, ◌++◌, map, contains, if◌then◌else◌, ◌==◌, nat_eq, list_eq,
}
use go_bzlmod.Prelude.Maps.{Map, lookup}
use go_bzlmod.Modules.{ModuleToResolve}

pub record Metadata : Type 0 where
  pub versions : List Str
  pub yanked_versions : Map Str Str
  pub deprecated : Str

abbrev pub has_value {ℓ} : {A : Type ℓ} → Option A → Bool
has_value none = false
has_value (some _) = true

unfoldable pub is_yanked : Metadata → Str → Bool
is_yanked m version = has_value (lookup version m.yanked_versions)

-- A missing key reads as the empty text.
abbrev pub text_or_empty : Option Str → Str
text_or_empty none = []
text_or_empty (some t) = t

unfoldable pub yank_reason : Metadata → Str → Str
yank_reason m version = text_or_empty (lookup version m.yanked_versions)

unfoldable pub is_deprecated : Metadata → Bool
is_deprecated m = not (m.deprecated == [])

unfoldable pub filter_versions : (Str → Bool) → List Str → List Str
filter_versions p [] = []
filter_versions p (v ∷ vs) = let rest = filter_versions p vs in if p v then v ∷ rest else rest

unfoldable pub non_yanked_versions : Metadata → List Str
non_yanked_versions m = filter_versions (λ v. not (is_yanked m v)) m.versions

-- `buildAllowedYankedSet`: the texts that are in the set.
abbrev pub build_allowed_yanked_set : List Str → List Str
build_allowed_yanked_set allowed = allowed

-- `name + "@" + version`
abbrev pub at_version : Str → Str → Str
at_version name version = name ++ codes "@" ++ version

unfoldable pub is_allowed_yanked : List Str → Str → Str → Bool
is_allowed_yanked allowed name version =
    contains allowed (codes "all") || contains allowed (at_version name version)

abbrev pub mark_yanked : Bool → Str → ModuleToResolve → ModuleToResolve
mark_yanked yanked reason m = record {
  name = m.name;
  version = m.version;
  registry = m.registry;
  depth = m.depth;
  dev_dependency = m.dev_dependency;
  dependencies = m.dependencies;
  required_by = m.required_by;
  yanked = if yanked then true else m.yanked;
  yank_reason = if yanked then reason else m.yank_reason;
  is_deprecated = m.is_deprecated;
  deprecation_reason = m.deprecation_reason;
  bazel_compatibility = m.bazel_compatibility;
  is_bazel_incompatible = m.is_bazel_incompatible;
  bazel_incompatibility_reason = m.bazel_incompatibility_reason;
}

abbrev pub mark_deprecated : Bool → Str → ModuleToResolve → ModuleToResolve
mark_deprecated deprecated reason m = record {
  name = m.name;
  version = m.version;
  registry = m.registry;
  depth = m.depth;
  dev_dependency = m.dev_dependency;
  dependencies = m.dependencies;
  required_by = m.required_by;
  yanked = m.yanked;
  yank_reason = m.yank_reason;
  is_deprecated = if deprecated then true else m.is_deprecated;
  deprecation_reason = if deprecated then reason else m.deprecation_reason;
  bazel_compatibility = m.bazel_compatibility;
  is_bazel_incompatible = m.is_bazel_incompatible;
  bazel_incompatibility_reason = m.bazel_incompatibility_reason;
}

module _ {ℓ} {Error : Type ℓ} (get_module_metadata : Str → Result Error Metadata)
    (allowed : List Str) where
  -- What one goroutine and the loop over the results do to one module.
  unfoldable pub mark_module : ModuleToResolve → ModuleToResolve
  mark_module m = elim (get_module_metadata m.name) [
    | err _ ↦ m
    | ok metadata ↦ mark_deprecated (is_deprecated metadata) metadata.deprecated (
        mark_yanked
          (is_yanked metadata m.version
            && not (is_allowed_yanked (build_allowed_yanked_set allowed) m.name m.version))
          (yank_reason metadata m.version) m)
  ]

  unfoldable pub check_module_metadata : List ModuleToResolve → List ModuleToResolve
  check_module_metadata modules = map mark_module modules
