-- ===== src/Resolver/Dependencies.antt =====
-- `ResolveDependencies` of resolver.go, once the rounds are over: from the graph of requests to the
-- resolution list.
pub mod Pinned
pub mod Tests
use go_bzlmod.Prelude.{
  Bool, true, false, Str, Option, none, some, Result, ok, err, ◌>>=◌, List, [], ◌∷◌, if◌then◌else◌,
}
use go_bzlmod.Prelude.Maps.{Map}
use go_bzlmod.Modules.{Override, ModuleInfo}
use go_bzlmod.Metadata.{Metadata}
use go_bzlmod.Resolver.{
  DepRequest, DepRequests, DirectDepMismatch, apply_overrides, apply_mvs, check_direct_deps,
  substitute_yanked_versions_in_graph,
}
use go_bzlmod.Resolver.Resolution.{
  DirectDepsCheckMode, direct_deps_off, direct_deps_warn, direct_deps_error, ResolutionOptions,
  ResolutionError, ResolutionList, build_resolution_list,
}
use go_bzlmod.Resolver.Building.{BuildError, Build}

pub data ResolveError (Error : Type 0) : Type 0 where
  build_error : BuildError Error → ResolveError Error
  direct_deps_mismatch_error : List DirectDepMismatch → ResolveError Error
  list_error : ResolutionError → ResolveError Error

abbrev pub build_result {ℓ} :
    {Error : Type 0} {A : Type ℓ} → Option (BuildError Error) → A → Result (ResolveError Error) A
build_result none a = ok a
build_result (some e) a = err (build_error e)

-- Mismatches of direct dependencies are an error in one mode.
abbrev pub refuse_mismatches :
    {Error : Type 0}
    → DirectDepsCheckMode
    → List DirectDepMismatch
    → Result (ResolveError Error) (Unit {0})
refuse_mismatches mode [] = ok tt
refuse_mismatches direct_deps_off (m ∷ ms) = ok tt
refuse_mismatches direct_deps_warn (m ∷ ms) = ok tt
refuse_mismatches direct_deps_error (m ∷ ms) = err (direct_deps_mismatch_error (m ∷ ms))

abbrev pub listed_or_error {ℓ} :
    {Error : Type 0} {A : Type ℓ} → Result ResolutionError A → Result (ResolveError Error) A
listed_or_error (ok a) = ok a
listed_or_error (err e) = err (list_error e)

module _ {ℓ} {E : Type ℓ} (get_module_metadata : Str → Result E Metadata)
    (get_module_file : Str → Str → Result E ModuleInfo) (default_registry : Str)
    (chain : Option (Str → Str)) (options : ResolutionOptions) (root_module : ModuleInfo) where
  -- The versions that are selected from the requests.
  unfoldable pub select_versions : DepRequests → Map Str DepRequest
  select_versions graph =
      let substituted =
        if options.substitute_yanked
        then substitute_yanked_versions_in_graph get_module_metadata get_module_file graph
        else graph in
      apply_mvs (apply_overrides substituted root_module.overrides)

  unfoldable pub resolve_dependencies :
      {Error : Type 0} → Build Error → Result (ResolveError Error) ResolutionList
  resolve_dependencies s = build_result s.failure s.dep_graph >>= λ graph.
      let selected = select_versions graph in
      refuse_mismatches options.direct_deps_mode
        (check_direct_deps options.include_dev_deps root_module.dependencies selected)
      >>= λ _. listed_or_error (
          build_resolution_list get_module_metadata default_registry chain options selected
            s.module_deps s.module_info_cache root_module)
