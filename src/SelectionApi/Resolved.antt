-- ===== src/SelectionApi/Resolved.antt =====
-- `Resolve` of selection_api.go, from the discovery to the list.
use go_bzlmod.Prelude.{
  bind_ok, Str, Option, none, some, Option-cases, Result, ok, err, ◌>>=◌, [], ◌≡◌, ◌≢◌, refl, sym,
  ap, subst, ◌∙◌, ◌⊎◌, inl, inr, Memᴰ, nat_eq, list_eq,
}
use go_bzlmod.Prelude.Maps.{lookup, keys, lookup_of_key}
use go_bzlmod.Selection.Types.{ModuleKey, key_eq, Module, DepGraph, SelectionResult, SelectionError}
use go_bzlmod.Selection.Run
use go_bzlmod.Selection.Run.Selected.{run_correct, run_total}
use go_bzlmod.Modules.{OverrideType, ModuleToResolve, convert_overrides}
use go_bzlmod.Metadata.{Metadata}
use go_bzlmod.Discovery
use go_bzlmod.Discovery.{Sources, Discovery, IsDone, discovered}
use go_bzlmod.Discovery.Spec.{outcome, Leads}
use go_bzlmod.Discovery.Complete.{discovered-Answers, Answers}
use go_bzlmod.Resolver.Resolution.{ResolutionOptions, yanked_warnings}
use go_bzlmod.SelectionApi.{
  resolved_modules, build_result, ResolvedResult, ResolveError, build_error, selection_error,
  no_selection, list_error, mapped_error, present, resolve,
}
use go_bzlmod.SelectionApi.Listed.{resolved_modules_correct}

bind_err {ℓ κ μ} :
    {E : Type ℓ} {A : Type κ} {B : Type μ} (x : Result E A) (f : A → Result E B) {e : E}
    → (x >>= f) ≡ err e
    → (x ≡ err e) ⊎ ((a : A) × (x ≡ ok a) × (f a ≡ err e))
bind_err (ok a) f h = inr (a, refl, h)
bind_err (err e) f h = inl (let q : e ≡ _ = cc in ap err q)

mapped-ok {ℓ κ μ} :
    {E : Type ℓ} {F : Type κ} {A : Type μ} (f : E → F) (x : Result E A) {a : A}
    → mapped_error f x ≡ ok a
    → x ≡ ok a
mapped-ok f (ok b) h = let q : b ≡ _ = cc in ap ok q
mapped-ok f (err e) h = absurd cc

present-ok {ℓ} :
    {E : Type 0} {A : Type ℓ} (x : Option A) {a : A} → present {E = E} x ≡ ok a → x ≡ some a
present-ok (some b) h = let q : b ≡ _ = cc in ap some q
present-ok none h = absurd cc

module _ {ℓ} {Error : Type 0} {E : Type ℓ} (w : Sources Error)
    (get_module_metadata : Str → Result E Metadata) (default_registry : Str)
    (options : ResolutionOptions) (kind : OverrideType → Str) {s : Discovery Error}
    (r : Discovery.Run w s) (end : IsDone w s) where
  found_in_graph :
      (g : DepGraph) (selected : SelectionResult) (key : ModuleKey)
      → discovered w s ≡ ok g
      → Run.run g (convert_overrides kind w.root_module.overrides []) ≡ ok (some selected)
      → Memᴰ key (keys selected.resolved_graph)
      → Leads w key × ((found : Module) × (outcome w key ≡ ok (some found)))
  found_in_graph g selected key d p m =
      let sel = run_correct g (convert_overrides kind w.root_module.overrides []) selected p in
      let (x, l) = lookup_of_key key selected.resolved_graph m in
      let e =
        (sel.succeeds.collected.entries key x).0
          (ap (lookup key) (sym sel.succeeds.resolved_graph) ∙ l) in
      let old : Module = e.1.0 in
      let a : Answers w (ok g) = subst (Answers w) d (discovered-Answers w r end) in
      let leads : Leads w key = a.2 key old e.1.1 in (leads, (old, a.1 key leads ∙ ap ok e.1.1))

  -- Once the discovery is done, every module in a result of `Resolve` is one that the root leads to and
  -- whose source has a module at that version.
  pub resolve-Leads :
      (result : ResolvedResult)
      → resolve w get_module_metadata default_registry options kind s ≡ ok result
      → (m : ModuleToResolve) → Memᴰ m result.modules
      → (key : ModuleKey) × Leads w key
        × ((found : Module) × (outcome w key ≡ ok (some found)))
        × (m.name ≡ key.name)
        × (m.version ≡ key.version)
  unfolding resolve build_result
  resolve-Leads result h m k =
      let (g, p, h₁) = bind_ok _ _ h in
      let (o, q, h₂) = bind_ok _ _ h₁ in
      let (selected, t, h₃) = bind_ok _ _ h₂ in
      let (ws, y, h₄) =
        bind_ok
          (yanked_warnings options.yanked_behavior
            (resolved_modules get_module_metadata default_registry options w.root_module selected))
          _
          (mapped-ok list_error
            (build_result get_module_metadata default_registry options w.root_module selected)
            h₃) in
      let same : resolved_modules get_module_metadata default_registry options w.root_module
            selected
          ≡ result.modules =
        ap (λ x. elim x [ ok z ↦ z.modules | err _ ↦ [] ]) h₄ in
      let listed =
        (resolved_modules_correct get_module_metadata default_registry options w.root_module
            selected).2
          m (subst (Memᴰ m) (sym same) k) in
      let (key, n, _, a, b) = listed in
      let (l, f) =
        found_in_graph g selected key (mapped-ok build_error (discovered w s) p)
          (mapped-ok selection_error (Run.run g (convert_overrides kind w.root_module.overrides []))
              q
            ∙ ap ok (present-ok {E = Error} o t))
          n in
      (key, l, f, a, b)

mapped-err {ℓ κ μ} :
    {E : Type ℓ} {F : Type κ} {A : Type μ} (f : E → F) (x : Result E A) {e : F}
    → mapped_error f x ≡ err e
    → (d : E) × (x ≡ err d) × (f d ≡ e)
mapped-err f (ok b) h = absurd cc
mapped-err f (err d) {e} h = (d, refl, (let q : f d ≡ e = cc in q))

-- `Resolve` never meets a selection that is neither a result nor an error.
pub resolve_selects {ℓ} :
    {Error : Type 0} {E : Type ℓ} (w : Sources Error)
    (get_module_metadata : Str → Result E Metadata) (default_registry : Str)
    (options : ResolutionOptions) (kind : OverrideType → Str) (s : Discovery Error)
    → resolve w get_module_metadata default_registry options kind s ≢ err no_selection
unfolding resolve
resolve_selects {Error} w get_module_metadata default_registry options kind s h =
    let run_on : DepGraph → Result SelectionError (Option SelectionResult) =
      λ g. Run.run g (convert_overrides kind w.root_module.overrides []) in
    let list_of : SelectionResult → Result (ResolveError Error) ResolvedResult = λ r.
      mapped_error list_error
        (build_result get_module_metadata default_registry options w.root_module r) in
    let list_from : Option SelectionResult → Result (ResolveError Error) ResolvedResult =
      λ o. present o >>= list_of in
    let select_from : DepGraph → Result (ResolveError Error) ResolvedResult =
      λ g. mapped_error selection_error (run_on g) >>= list_from in
    elim (bind_err (mapped_error build_error (discovered w s)) select_from h) [
      | inl p ↦
          let (d, _, q) = mapped-err build_error (discovered w s) p in
          (let z : build_error d ≡ no_selection = q in cc)
      | inr (g, _, h₁) ↦ elim (bind_err (mapped_error selection_error (run_on g)) list_from h₁) [
        | inl p ↦
            let (d, _, q) = mapped-err selection_error (run_on g) p in
            (let z : selection_error d ≡ no_selection = q in cc)
        | inr (o, t, h₂) ↦ elim (Option-cases o) [
          | inl e ↦
              (run_total g (convert_overrides kind w.root_module.overrides [])).0
                (mapped-ok selection_error (run_on g) t ∙ ap ok e)
          | inr (selected, e) ↦
              let h₃ : list_of selected ≡ err no_selection =
                subst (λ x. list_from x ≡ err no_selection) e h₂ in
              let (d, _, q) =
                mapped-err list_error
                  (build_result get_module_metadata default_registry options w.root_module selected)
                  h₃ in
              (let z : list_error d ≡ no_selection = q in cc)
        ]
      ]
    ]
