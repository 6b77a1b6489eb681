-- ===== src/Resolver.antt =====
-- resolver.go: the requests for versions that the discovery collects, the overrides and the choice
-- of the highest version, the replacement of yanked versions, and the check of direct dependencies.
-- The order of the entries of a map is the order of its `range` loop.
pub mod Mvs
pub mod Overrides
pub mod Yanked
pub mod Depths
pub mod Resolution
pub mod Building
pub mod Dependencies
pub mod Tests
use go_bzlmod.Prelude.{
  ℕ, suc, zero, ◌+◌, Ordering, lt, eq, gt, Bool, true, false, not, ◌&&◌, ◌||◌, Str, codes, Option,
  none, some, Result, ok, err, List, [], ◌∷◌, ◌++◌, map, length, contains, if◌then◌else◌, ◌==◌,
  nat_eq, list_eq,
}
use go_bzlmod.Prelude.Int.{ℤ, int_eq}
use go_bzlmod.Prelude.Maps.{Map, lookup, insert, delete, keys}
use go_bzlmod.Modules.{
  Dependency, OverrideType, single_version, multiple_version, git, local_path, archive, other_type,
  Override, ModuleInfo,
}
use go_bzlmod.Metadata.{Metadata, is_yanked, non_yanked_versions}
use go_bzlmod.Version

pub record DepRequest : Type 0 where
  pub version : Str
  pub dev_dependency : Bool
  pub required_by : List Str

-- `map[string]map[string]*depRequest`: by module name and by version.
abbrev pub DepRequests : Type 0
DepRequests = Map Str (Map Str DepRequest)

abbrev pub versions_of : Option (Map Str DepRequest) → Map Str DepRequest
versions_of none = []
versions_of (some versions) = versions

-- What `processDeps` does to the request for a version: a new one, or one more requester of it.
abbrev pub merged_request : Str → Bool → Str → Option DepRequest → DepRequest
merged_request version dev requester none = record {
  version = version;
  dev_dependency = dev;
  required_by = requester ∷ [];
}
merged_request version dev requester (some existing) = record {
  version = existing.version;
  dev_dependency = if dev then existing.dev_dependency else false;
  required_by = existing.required_by ++ requester ∷ [];
}

unfoldable pub add_request : Str → Str → Bool → Str → DepRequests → DepRequests
add_request name version dev requester graph =
    let versions = versions_of (lookup name graph) in
    insert name
      (insert version (merged_request version dev requester (lookup version versions)) versions)
      graph

-- `removeDependency`
unfoldable pub remove_dependency : Str → Str → DepRequests → DepRequests
remove_dependency name version graph = elim (lookup name graph) [
  | none ↦ graph
  | some versions ↦ elim (delete version versions) [
    | [] ↦ delete name graph
    | entry ∷ rest ↦ insert name (entry ∷ rest) graph
  ]
]

abbrev pub override_request : Str → Option DepRequest → DepRequest
override_request version none = record {
  version = version;
  dev_dependency = false;
  required_by = codes "<override>" ∷ [];
}
override_request version (some request) = request

unfoldable pub apply_override : Override → DepRequests → DepRequests
apply_override o graph = elim o.type [
  | single_version ↦
      if o.version == []
      then graph
      else insert o.module_name
          ((
            o.version,
            override_request o.version
                (lookup o.version (versions_of (lookup o.module_name graph))),
          )
            ∷ [])
          graph
  | multiple_version ↦ graph
  | git ↦ graph
  | local_path ↦ graph
  | archive ↦ graph
  | other_type ↦ graph
]

unfoldable pub apply_overrides : DepRequests → List Override → DepRequests
apply_overrides graph [] = graph
apply_overrides graph (o ∷ os) = apply_overrides (apply_override o graph) os

-- `maxReq == nil || version.Compare(req.Version, maxReq.Version) > 0`
abbrev pub higher_request : DepRequest → Option DepRequest → DepRequest
higher_request request none = request
higher_request request (some best) = elim (Version.compare request.version best.version) [
  | gt ↦ request
  | eq ↦ best
  | lt ↦ best
]

unfoldable pub max_request : Map Str DepRequest → Option DepRequest → Option DepRequest
max_request [] best = best
max_request ((_, request) ∷ rest) best = max_request rest (some (higher_request request best))

abbrev pub with_selected : Str → Option DepRequest → Map Str DepRequest → Map Str DepRequest
with_selected name none selected = selected
with_selected name (some request) selected = insert name request selected

unfoldable pub select_all : DepRequests → Map Str DepRequest → Map Str DepRequest
select_all [] selected = selected
select_all ((name, versions) ∷ graph) selected =
    select_all graph (with_selected name (max_request versions none) selected)

-- `applyMVS`
unfoldable pub apply_mvs : DepRequests → Map Str DepRequest
apply_mvs graph = select_all graph []

pub record DirectDepMismatch : Type 0 where
  pub name : Str
  pub declared_version : Str
  pub resolved_version : Str

abbrev pub mismatch_of : Dependency → Option DepRequest → List DirectDepMismatch
mismatch_of dep none = []
mismatch_of dep (some resolved) =
    if resolved.version == dep.version
    then []
    else record {
      name = dep.name;
      declared_version = dep.version;
      resolved_version = resolved.version;
    }
      ∷ []

-- `checkDirectDeps`
unfoldable pub check_direct_deps :
    Bool → List Dependency → Map Str DepRequest → List DirectDepMismatch
check_direct_deps include_dev_deps [] selected = []
check_direct_deps include_dev_deps (dep ∷ deps) selected =
    let rest = check_direct_deps include_dev_deps deps selected in
    if dep.dev_dependency && not include_dev_deps
    then rest
    else mismatch_of dep (lookup dep.name selected) ++ rest

abbrev pub same_level_or {ℓ} : {Error : Type ℓ} → ℤ → Result Error ModuleInfo → Str → Str → Str
same_level_or level (ok candidate) v rest =
    if candidate.compatibility_level == level then v else rest
same_level_or level (err _) v rest = rest

module _ {ℓ} {Error : Type ℓ} (get_module_metadata : Str → Result Error Metadata)
    (get_module_file : Str → Str → Result Error ModuleInfo) where
  -- The loop over the candidates of `findNonYankedVersion`.
  unfoldable pub first_replacement : Str → Str → ℤ → List Str → Str
  first_replacement name requested level [] = requested
  first_replacement name requested level (v ∷ vs) =
      let rest = first_replacement name requested level vs in
      elim (Version.compare v requested) [
        | lt ↦ rest
        | eq ↦ same_level_or level (get_module_file name v) v rest
        | gt ↦ same_level_or level (get_module_file name v) v rest
      ]

  unfoldable pub find_non_yanked_version : Str → Str → Str
  find_non_yanked_version name requested = elim (get_module_metadata name) [
    | err _ ↦ requested
    | ok metadata ↦
        if is_yanked metadata requested
        then elim (get_module_file name requested) [
          | err _ ↦ requested
          | ok requested_module ↦
              first_replacement name requested requested_module.compatibility_level
                (Version.sort (non_yanked_versions metadata))
        ]
        else requested
  ]

  -- The replacements of the versions of one module.
  unfoldable pub replacements : Str → List Str → Map Str Str
  replacements name [] = []
  replacements name (v ∷ vs) =
      let rest = replacements name vs in
      let replacement = find_non_yanked_version name v in
      if replacement == v then rest else (v, replacement) ∷ rest

  -- A request moves to the new version, over the one that stands there. The old version is a key.
  unfoldable pub replace_version : Str → Str → Map Str DepRequest → Map Str DepRequest
  replace_version old_version new_version versions = elim (lookup old_version versions) [
    | none ↦ versions
    | some request ↦
        insert new_version
          (record {
            version = new_version;
            dev_dependency = request.dev_dependency;
            required_by = request.required_by;
          })
          (delete old_version versions)
  ]

  unfoldable pub replace_versions : Map Str Str → Map Str DepRequest → Map Str DepRequest
  replace_versions [] versions = versions
  replace_versions ((old_version, new_version) ∷ rest) versions =
      replace_versions rest (replace_version old_version new_version versions)

  unfoldable pub substitute_yanked_versions_in_graph : DepRequests → DepRequests
  substitute_yanked_versions_in_graph [] = []
  substitute_yanked_versions_in_graph ((name, versions) ∷ graph) =
      (name, replace_versions (replacements name (keys versions)) versions)
      ∷ substitute_yanked_versions_in_graph graph
