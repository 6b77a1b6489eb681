-- ===== src/Resolver/Resolution.antt =====
-- `buildResolutionList` of resolver.go, up to `enrichResolutionList`, and `buildGraph`. The warnings
-- are values where the source formats texts.
pub mod Entries
pub mod Picks
pub mod Correct
use go_bzlmod.Prelude.{
  ℕ, suc, zero, ◌+◌, Bool, true, false, not, ◌&&◌, ◌||◌, Str, Option, none, some, Result, ok, err,
  ◌>>=◌, List, [], ◌∷◌, ◌++◌, map, length, contains, if◌then◌else◌, ◌==◌, nat_eq, list_eq,
}
use go_bzlmod.Prelude.Int.{ℤ, pos, ltb_ℤ}
use go_bzlmod.Prelude.Maps.{Map, lookup, insert, keys}
use go_bzlmod.Selection.Types.{ModuleKey}
use go_bzlmod.Modules.{
  Dependency, Override, ModuleInfo, ModuleToResolve, override_index, registry_url_for_module,
}
use go_bzlmod.Metadata.{Metadata, at_version, check_module_metadata, has_value}
use go_bzlmod.Compat.{FieldWarning, check_field, check_module_bazel_compatibility}
use go_bzlmod.Diff.{sort_by_name}
use go_bzlmod.Graph.{Graph}
use go_bzlmod.Graph.Builder.{SimpleModule, build}
use go_bzlmod.Resolver.{DepRequest, DirectDepMismatch, check_direct_deps}
use go_bzlmod.Resolver.Depths.{deps_of, depth_of, calculate_module_depths}

pub data YankedVersionBehavior : Type 0 where
  yanked_version_allow yanked_version_warn yanked_version_error : YankedVersionBehavior

pub data DirectDepsCheckMode : Type 0 where
  direct_deps_off direct_deps_warn direct_deps_error : DirectDepsCheckMode

pub data BazelCompatibilityMode : Type 0 where
  bazel_compatibility_off bazel_compatibility_warn bazel_compatibility_error :
      BazelCompatibilityMode

-- The options that the list depends on.
pub record ResolutionOptions : Type 0 where
  pub include_dev_deps : Bool
  pub substitute_yanked : Bool
  pub check_yanked : Bool
  pub warn_deprecated : Bool
  pub allow_yanked_versions : List Str
  pub yanked_behavior : YankedVersionBehavior
  pub direct_deps_mode : DirectDepsCheckMode
  pub bazel_compatibility_mode : BazelCompatibilityMode
  pub bazel_version : Str

pub record ResolutionSummary : Type 0 where
  pub total_modules : ℕ
  pub production_modules : ℕ
  pub dev_modules : ℕ
  pub yanked_modules : ℕ
  pub deprecated_modules : ℕ
  pub incompatible_modules : ℕ

pub data Warning : Type 0 where
  yanked_warning : ModuleToResolve → Warning
  deprecated_warning : ModuleToResolve → Warning
  incompatible_warning : Str → ModuleToResolve → Warning
  mismatch_warning : DirectDepMismatch → Warning

pub record ResolutionList : Type 0 where
  pub modules : List ModuleToResolve
  pub summary : ResolutionSummary
  pub field_warnings : List (Str × FieldWarning)
  pub warnings : List Warning

pub data ResolutionError : Type 0 where
  yanked_versions_error : List ModuleToResolve → ResolutionError
  bazel_incompatibility_error : Str → List ModuleToResolve → ResolutionError

-- The root's dependencies for the depths.
unfoldable pub root_dep_names : Bool → List Dependency → List Str
root_dep_names include [] = []
root_dep_names include (dep ∷ deps) =
    let rest = root_dep_names include deps in
    if dep.dev_dependency && not include then rest else dep.name ∷ rest

-- The dependencies of the selected versions, by name.
unfoldable pub resolved_module_deps :
    Map Str (List Str) → Map Str DepRequest → Map Str (List Str) → Map Str (List Str)
resolved_module_deps module_deps [] result = result
resolved_module_deps module_deps ((name, req) ∷ rest) result =
    resolved_module_deps module_deps rest (elim (lookup (at_version name req.version) module_deps) [
      | none ↦ result
      | some deps ↦ insert name deps result
    ])

-- For a chain of registries, the one that provided the module counts.
abbrev pub registry_of : Str → Option (Str → Str) → Map Str Override → Str → Str
registry_of default_registry none overrides name =
    registry_url_for_module default_registry name overrides
registry_of default_registry (some chain) overrides name =
    let url = registry_url_for_module default_registry name overrides in
    if url == default_registry && not (chain name == []) then chain name else url

unfoldable pub selected_deps : List Str → List Str → List Str
selected_deps selected_names [] = []
selected_deps selected_names (dep ∷ deps) =
    let rest = selected_deps selected_names deps in
    if contains selected_names dep then dep ∷ rest else rest

-- An entry of the list; `registry`, `deps` and `depths` are those of the whole resolution.
abbrev pub new_module :
    (Str → Str) → Map Str (List Str) → List Str → Map Str ℕ → Str → DepRequest → ModuleToResolve
new_module registry deps selected_names depths name req = record {
  name = name;
  version = req.version;
  registry = registry name;
  depth = depth_of (lookup name depths);
  dev_dependency = req.dev_dependency;
  dependencies = selected_deps selected_names (deps_of (lookup name deps));
  required_by = req.required_by;
  yanked = false;
  yank_reason = [];
  is_deprecated = false;
  deprecation_reason = [];
  bazel_compatibility = [];
  is_bazel_incompatible = false;
  bazel_incompatibility_reason = [];
}

unfoldable pub new_modules :
    (Str → DepRequest → ModuleToResolve) → Map Str DepRequest → List ModuleToResolve
new_modules make [] = []
new_modules make ((name, req) ∷ rest) = make name req ∷ new_modules make rest

unfoldable pub count : (ModuleToResolve → Bool) → List ModuleToResolve → ℕ
count p [] = 0
count p (m ∷ ms) = let rest = count p ms in if p m then suc rest else rest

unfoldable pub summarize : List ModuleToResolve → ResolutionSummary
summarize ms = record {
  total_modules = length ms;
  production_modules = count (λ m. not m.dev_dependency) ms;
  dev_modules = count (λ m. m.dev_dependency) ms;
  yanked_modules = count (λ m. m.yanked) ms;
  deprecated_modules = count (λ m. m.is_deprecated) ms;
  incompatible_modules = count (λ m. m.is_bazel_incompatible) ms;
}

unfoldable pub modules_with : (ModuleToResolve → Bool) → List ModuleToResolve → List ModuleToResolve
modules_with p [] = []
modules_with p (m ∷ ms) = let rest = modules_with p ms in if p m then m ∷ rest else rest

unfoldable pub yanked_warnings :
    YankedVersionBehavior → List ModuleToResolve → Result ResolutionError (List Warning)
yanked_warnings behavior ms = if count (λ m. m.yanked) ms == 0 then ok [] else elim behavior [
  | yanked_version_allow ↦ ok []
  | yanked_version_warn ↦ ok (map yanked_warning (modules_with (λ m. m.yanked) ms))
  | yanked_version_error ↦ err (yanked_versions_error (modules_with (λ m. m.yanked) ms))
]

unfoldable pub deprecated_warnings : Bool → List ModuleToResolve → List Warning
deprecated_warnings warn ms =
    if warn then map deprecated_warning (modules_with (λ m. m.is_deprecated) ms) else []

unfoldable pub incompatible_warnings :
    BazelCompatibilityMode → Str → List ModuleToResolve → Result ResolutionError (List Warning)
incompatible_warnings mode bazel_version ms =
    if count (λ m. m.is_bazel_incompatible) ms == 0 then ok [] else elim mode [
      | bazel_compatibility_off ↦ ok []
      | bazel_compatibility_warn ↦ ok (
          map (incompatible_warning bazel_version) (modules_with (λ m. m.is_bazel_incompatible) ms))
      | bazel_compatibility_error ↦ err (
          bazel_incompatibility_error bazel_version
            (modules_with (λ m. m.is_bazel_incompatible) ms))
    ]

-- `checkFieldCompatibility`: the first dependency that has the field and may not, with its warning.
unfoldable pub check_field_compatibility : Str → List Dependency → List (Str × FieldWarning)
check_field_compatibility bazel_version [] = []
check_field_compatibility bazel_version (dep ∷ deps) =
    let rest = check_field_compatibility bazel_version deps in
    if ltb_ℤ (pos 0) dep.max_compatibility_level
    then elim (check_field bazel_version (go_bzlmod.Prelude.codes "max_compatibility_level")) [
      | some w ↦ (dep.name, w) ∷ []
      | none ↦ rest
    ]
    else rest

abbrev pub mismatch_warnings : DirectDepsCheckMode → List DirectDepMismatch → List Warning
mismatch_warnings direct_deps_off ms = []
mismatch_warnings direct_deps_warn ms = map mismatch_warning ms
mismatch_warnings direct_deps_error ms = []

abbrev is_off : BazelCompatibilityMode → Bool
is_off bazel_compatibility_off = true
is_off bazel_compatibility_warn = false
is_off bazel_compatibility_error = false

module _ {ℓ} {Error : Type ℓ} (get_module_metadata : Str → Result Error Metadata)
    (default_registry : Str) (chain : Option (Str → Str)) (options : ResolutionOptions) where
  -- The entries, with the marks that the options ask for.
  unfoldable pub listed_modules :
      Map Str DepRequest
      → Map Str (List Str)
      → Map Str ModuleInfo
      → ModuleInfo
      → List ModuleToResolve
  listed_modules selected module_deps module_info_cache root_module =
      let deps = resolved_module_deps module_deps selected [] in
      let names = keys selected in
      let depths =
        calculate_module_depths (root_dep_names options.include_dev_deps root_module.dependencies)
          deps names in
      let registry = registry_of default_registry chain (override_index root_module.overrides []) in
      let sorted =
        sort_by_name (λ m. m.name) (new_modules (new_module registry deps names depths) selected) in
      let marked =
        if options.check_yanked || options.warn_deprecated
        then check_module_metadata get_module_metadata options.allow_yanked_versions sorted
        else sorted in
      if not (is_off options.bazel_compatibility_mode) && not (options.bazel_version == [])
      then check_module_bazel_compatibility module_info_cache options.bazel_version marked
      else marked

  unfoldable pub build_resolution_list :
      Map Str DepRequest
      → Map Str (List Str)
      → Map Str ModuleInfo
      → ModuleInfo
      → Result ResolutionError ResolutionList
  build_resolution_list selected module_deps module_info_cache root_module =
      let ms = listed_modules selected module_deps module_info_cache root_module in
      yanked_warnings options.yanked_behavior ms >>= λ yanked.
      incompatible_warnings options.bazel_compatibility_mode options.bazel_version ms
      >>= λ incompatible. ok (record {
        modules = ms;
        summary = summarize ms;
        field_warnings = check_field_compatibility options.bazel_version root_module.dependencies;
        warnings =
            yanked
            ++ (deprecated_warnings options.warn_deprecated ms
                ++ (incompatible
                    ++ mismatch_warnings options.direct_deps_mode (
                        check_direct_deps options.include_dev_deps root_module.dependencies
                          selected)));
      })

-- The names with versions, as keys.
unfoldable pub versioned_deps : Map Str Str → List Str → List ModuleKey
versioned_deps module_versions [] = []
versioned_deps module_versions (name ∷ names) =
    let rest = versioned_deps module_versions names in
    elim (lookup name module_versions) [
      | none ↦ rest
      | some version ↦ record { name = name; version = version } ∷ rest
    ]

unfoldable pub simple_modules : Map Str Str → List ModuleToResolve → List SimpleModule
simple_modules module_versions [] = []
simple_modules module_versions (m ∷ ms) =
    record {
      name = m.name;
      version = m.version;
      dependencies = versioned_deps module_versions m.dependencies;
      dev_dependency = m.dev_dependency;
    }
    ∷ simple_modules module_versions ms

unfoldable pub module_versions_of : List ModuleToResolve → Map Str Str → Map Str Str
module_versions_of [] versions = versions
module_versions_of (m ∷ ms) versions = module_versions_of ms (insert m.name m.version versions)

unfoldable pub dep_names : List Dependency → List Str
dep_names [] = []
dep_names (dep ∷ deps) = dep.name ∷ dep_names deps

unfoldable pub build_graph : ModuleInfo → List ModuleToResolve → Graph
build_graph root_module modules =
    let versions = module_versions_of modules [] in
    build (record { name = root_module.name; version = root_module.version })
      (record {
        name = root_module.name;
        version = root_module.version;
        dependencies = versioned_deps versions (dep_names root_module.dependencies);
        dev_dependency = false;
      }
        ∷ simple_modules versions modules)
