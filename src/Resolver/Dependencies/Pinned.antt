-- ===== src/Resolver/Dependencies/Pinned.antt =====
-- `ResolveDependencies` of resolver.go lists a module at the version that an override names.
use go_bzlmod.Prelude.{
  bind_ok, Bool-cases, Str, Option, none, some, Option-cases, Result, ok, err, List, [], ◌∷◌, ◌++◌,
  All, ==_iff, ==_cases, ◌≡◌, ◌≢◌, refl, sym, ap, subst, ◌∙◌, inl, inr, Memᴰ, nat_eq, list_eq,
}
use go_bzlmod.Prelude.Maps.{Map, lookup, delete, keys, IsMap, insert-IsMap}
use go_bzlmod.Modules.{Override, single_version, ModuleInfo, ModuleToResolve}
use go_bzlmod.Metadata.{Metadata}
use go_bzlmod.Resolver.{
  DepRequest, DepRequests, apply_overrides, apply_mvs, select_all, max_request, with_selected,
  replacements, replace_version, replace_versions, substitute_yanked_versions_in_graph,
  check_direct_deps,
}
use go_bzlmod.Resolver.Mvs.{IsKeyed}
use go_bzlmod.Resolver.Overrides.{override_decides}
use go_bzlmod.Resolver.Resolution.{
  ResolutionOptions, ResolutionList, build_resolution_list, listed_modules,
}
use go_bzlmod.Resolver.Resolution.Correct.{
  listed_modules_correct, build_resolution_list-Outcome, Outcome,
}
use go_bzlmod.Resolver.Building.{Inputs, Build}
use go_bzlmod.Resolver.Building.Rounds.{Reached}
use go_bzlmod.Resolver.Building.Keyed.{IsProper, Keyed, insert-Keyed, lookup-delete}
use go_bzlmod.Resolver.Building.Proper.{Reached-IsProper}
use go_bzlmod.Resolver.Dependencies.{
  build_result, refuse_mismatches, listed_or_error, select_versions, resolve_dependencies,
}

select_all-IsMap :
    (graph : DepRequests) (selected : Map Str DepRequest)
    → IsMap selected
    → IsMap (select_all graph selected)
unfolding select_all
select_all-IsMap [] selected d = d
select_all-IsMap ((name, versions) ∷ graph) selected d =
    select_all-IsMap graph (with_selected name (max_request versions none) selected)
      (put (max_request versions none))
  where
    put : (o : Option DepRequest) → IsMap (with_selected name o selected)
    put none = d
    put (some r) = insert-IsMap name r selected d

apply_mvs-IsMap : (graph : DepRequests) → IsMap (apply_mvs graph)
unfolding apply_mvs
apply_mvs-IsMap graph = select_all-IsMap graph [] tt

module _ {ℓ} {E : Type ℓ} (get_module_metadata : Str → Result E Metadata)
    (get_module_file : Str → Str → Result E ModuleInfo) where
  replace_version-Keyed :
      (old_version new_version : Str) (versions : Map Str DepRequest)
      → Keyed versions
      → Keyed (replace_version get_module_metadata get_module_file old_version new_version versions)
  unfolding replace_version Keyed
  replace_version-Keyed old_version new_version versions k =
      elim (Option-cases (lookup old_version versions)) [
        | inl e ↦ rw (e, replace_version) k
        | inr (r, e) ↦
            rw (e, replace_version)
              (insert-Keyed (delete old_version versions) new_version _
                (λ v q h. k v q (lookup-delete old_version v versions h).0) refl)
      ]

  replace_versions-Keyed :
      (rs : Map Str Str) (versions : Map Str DepRequest)
      → Keyed versions
      → Keyed (replace_versions get_module_metadata get_module_file rs versions)
  unfolding replace_versions
  replace_versions-Keyed [] versions k = k
  replace_versions-Keyed ((old_version, new_version) ∷ rest) versions k =
      replace_versions-Keyed rest _ (replace_version-Keyed old_version new_version versions k)

  abbrev substituted : DepRequests → DepRequests
  substituted = substitute_yanked_versions_in_graph get_module_metadata get_module_file

  keys-substituted : (graph : DepRequests) → keys (substituted graph) ≡ keys graph
  unfolding substitute_yanked_versions_in_graph
  keys-substituted [] = refl
  keys-substituted ((name, versions) ∷ graph) = ap (λ ks. name ∷ ks) (keys-substituted graph)

  substituted-IsMap : (graph : DepRequests) → IsMap graph → IsMap (substituted graph)
  unfolding substitute_yanked_versions_in_graph
  substituted-IsMap [] d = tt
  substituted-IsMap ((name, versions) ∷ graph) d =
      ((λ m. d.0 (subst (Memᴰ name) (keys-substituted graph) m)), substituted-IsMap graph d.1)

  lookup-substituted :
      (graph : DepRequests) (name : Str) {versions : Map Str DepRequest}
      → lookup name (substituted graph) ≡ some versions
      → (before : Map Str DepRequest) × (lookup name graph ≡ some before)
        × (versions
            ≡ replace_versions get_module_metadata get_module_file
                (replacements get_module_metadata get_module_file name (keys before))
                before)
  unfolding substitute_yanked_versions_in_graph
  lookup-substituted [] name {versions} h = absurd (let z : none ≡ some versions = h in cc)
  lookup-substituted ((k, vs) ∷ graph) name {versions} h = elim (==_cases k name) [
    | inr (q, _) ↦
        let (before, a, b) = lookup-substituted graph name (rw q at h) in (before, rw q a, b)
    | inl e ↦
        let replaced : Map Str DepRequest =
          replace_versions get_module_metadata get_module_file
            (replacements get_module_metadata get_module_file k (keys vs)) vs in
        let x : some replaced ≡ some versions = rw ((==_iff k name).1 e) at h in
        let c : replaced ≡ versions = cc in
        (
          vs,
          rw ((==_iff k name).1 e) refl,
          sym c
              ∙ ap
                  (λ n.
                    replace_versions get_module_metadata get_module_file
                      (replacements get_module_metadata get_module_file n (keys vs)) vs)
                  e,
        )
  ]

  substituted-IsKeyed : (graph : DepRequests) → IsKeyed graph → IsKeyed (substituted graph)
  unfolding Keyed
  substituted-IsKeyed graph k name versions v r h g =
      let (before, a, b) = lookup-substituted graph name h in
      replace_versions-Keyed (replacements get_module_metadata get_module_file name (keys before))
        before (λ u q l. k name before u q a l) v r (ap (lookup v) (sym b) ∙ g)

module _ {ℓ} {Error : Type 0} {E : Type ℓ} (w : Inputs Error)
    (get_module_metadata : Str → Result E Metadata)
    (get_module_file : Str → Str → Result E ModuleInfo) (default_registry : Str)
    (chain : Option (Str → Str)) (options : ResolutionOptions) (root_module : ModuleInfo) where
  abbrev selected_from : DepRequests → Map Str DepRequest
  selected_from =
      select_versions get_module_metadata get_module_file default_registry chain options root_module

  select_versions-IsMap : (graph : DepRequests) → IsMap (selected_from graph)
  unfolding select_versions
  select_versions-IsMap graph = apply_mvs-IsMap _

  select_versions-pins :
      (graph : DepRequests) (before : List Override) (o : Override) (after : List Override)
      → IsProper graph
      → root_module.overrides ≡ before ++ o ∷ after
      → o.type ≡ single_version
      → o.version ≢ []
      → All (λ p. p.module_name ≢ o.module_name) after
      → (r : DepRequest) × (lookup o.module_name (selected_from graph) ≡ some r)
        × (r.version ≡ o.version)
  unfolding select_versions
  select_versions-pins graph before o after p e t n a =
      elim (Bool-cases options.substitute_yanked) [
        | inl h ↦
            rw (h, select_versions, e)
              (override_decides (substituted get_module_metadata get_module_file graph) before o
                after (substituted-IsMap get_module_metadata get_module_file graph p.one_entry)
                (substituted-IsKeyed get_module_metadata get_module_file graph p.keyed) t n a)
        | inr h ↦
            rw (h, select_versions, e)
              (override_decides graph before o after p.one_entry p.keyed t n a)
      ]

  listed_of_ok :
      (s : Build Error) (list : ResolutionList)
      → resolve_dependencies get_module_metadata get_module_file default_registry chain options
          root_module s
        ≡ ok list
      → list.modules
        ≡ listed_modules get_module_metadata default_registry chain options
            (selected_from s.dep_graph)
            s.module_deps
            s.module_info_cache
            root_module
  unfolding resolve_dependencies
  listed_of_ok s list h =
      let (g, p, h₁) = bind_ok (build_result s.failure s.dep_graph) _ h in
      let (u, q, h₂) =
        bind_ok
          (refuse_mismatches options.direct_deps_mode
            (check_direct_deps options.include_dev_deps root_module.dependencies (selected_from g)))
          _ h₁ in
      let built =
        build_resolution_list get_module_metadata default_registry chain options (selected_from g)
          s.module_deps s.module_info_cache root_module in
      let e : built ≡ ok list = listed-ok built h₂ in
      let o =
        subst
          (Outcome get_module_metadata default_registry chain options (selected_from g)
            s.module_deps s.module_info_cache root_module)
          e
          (build_resolution_list-Outcome get_module_metadata default_registry chain options
            (selected_from g) s.module_deps s.module_info_cache root_module) in
      o.0
      ∙ ap
          (λ x.
            listed_modules get_module_metadata default_registry chain options (selected_from x)
              s.module_deps s.module_info_cache root_module)
          (graph_of s.failure p)
    where
      listed-ok :
          (x : Result go_bzlmod.Resolver.Resolution.ResolutionError ResolutionList)
          → listed_or_error {Error = Error} x ≡ ok list
          → x ≡ ok list
      listed-ok (ok a) p = let q : a ≡ list = cc in ap ok q
      listed-ok (err e) p = absurd cc

      graph_of :
          (f : Option (go_bzlmod.Resolver.Building.BuildError Error)) {g : DepRequests}
          → build_result f s.dep_graph ≡ ok g
          → g ≡ s.dep_graph
      graph_of none {g} p = let q : s.dep_graph ≡ g = cc in sym q
      graph_of (some e) p = absurd cc

  -- Whatever the workers found, in whatever order, and whether yanked versions are replaced: where
  -- `ResolveDependencies` has a list and the root's last override of a module that names a single
  -- version does so, the list has that module at that version.
  pub resolve_dependencies_pins :
      (s : Build Error) (list : ResolutionList) (before : List Override) (o : Override)
      (after : List Override)
      → Reached w s
      → resolve_dependencies get_module_metadata get_module_file default_registry chain options
          root_module s
        ≡ ok list
      → root_module.overrides ≡ before ++ o ∷ after
      → o.type ≡ single_version
      → o.version ≢ []
      → All (λ p. p.module_name ≢ o.module_name) after
      → (m : ModuleToResolve) × Memᴰ m list.modules
        × (m.name ≡ o.module_name)
        × (m.version ≡ o.version)
  resolve_dependencies_pins s list before o after r h e t n a =
      let pinned = select_versions-pins s.dep_graph before o after (Reached-IsProper w r) e t n a in
      let correct =
        listed_modules_correct get_module_metadata default_registry chain options
          (selected_from s.dep_graph) s.module_deps s.module_info_cache root_module
          (select_versions-IsMap s.dep_graph) in
      let (m, k, x, y) = (correct.1 o.module_name o.version).1 pinned in
      (m, subst (Memᴰ m) (sym (listed_of_ok s list h)) k, x, y)
