-- ===== src/Resolver/Mvs.antt =====
-- The choice of versions in resolver.go, and what overrides do to it.
use go_bzlmod.Prelude.{
  gt, false, Str, Option, none, some, [], ◌∷◌, All, ◌==◌, ==_iff, ==_cases, nat_eq, list_eq, ◌≡◌,
  ◌≢◌, refl, sym, ap, subst, ◌∙◌, ◌⊎◌, inl, inr, ⊎_elim, Memᴰ, arith,
}
use go_bzlmod.Prelude.Maps.{Map, lookup, lookup-insert, keys, IsMap, insert-IsMap}
use go_bzlmod.Modules.{Override}
use go_bzlmod.Version
use go_bzlmod.Version.Order.{IsValid, compare_refl, compare-swap_args}
use go_bzlmod.Version.Sorting.{Le, Le_trans}
use go_bzlmod.Resolver.{
  DepRequest, DepRequests, versions_of, override_request, apply_override, higher_request,
  max_request, with_selected, select_all, apply_mvs,
}

-- The requests for one module are under their versions, which are valid.
abbrev pub AllValid : Map Str DepRequest → Type 0
AllValid = All (λ entry. IsValid (entry.1).version)

higher_request-cases :
    (q b : DepRequest)
    → ((Version.compare q.version b.version ≡ gt) × (higher_request q (some b) ≡ q))
      ⊎ (Le q.version b.version × (higher_request q (some b) ≡ b))
higher_request-cases q b = ground arith

Le_refl : (v : Str) → Le v v
Le_refl v h = ground (arith, compare_refl v)

Le_of_gt : (v w : Str) → Version.compare v w ≡ gt → Le w v
Le_of_gt v w h = ground (arith, compare-swap_args v w)

-- The maximum of some requests and one that is held so far.
max_request-from :
    (versions : Map Str DepRequest) (best : DepRequest)
    → AllValid versions
    → IsValid best.version
    → (r : DepRequest) × (max_request versions (some best) ≡ some r)
      × ((r ≡ best) ⊎ ((v : Str) × Memᴰ (v, r) versions))
      × IsValid r.version
      × Le best.version r.version
      × All (λ entry. Le (entry.1).version r.version) versions
unfolding max_request
max_request-from [] best a b = (best, refl, inl refl, b, Le_refl best.version, tt)
max_request-from ((v, q) ∷ rest) best a b = elim (higher_request-cases q best) [
  | inl (h, e) ↦
      let (r, p, from, valid, l, all) = max_request-from rest q a.1 a.0 in
      (
        r,
        ap (λ x. max_request rest (some x)) e ∙ p,
        ⊎_elim (λ s. inr (v, Memᴰ.head (ap (λ x. (v, x)) s))) (λ (u, m). inr (u, Memᴰ.tail m)) from,
        valid,
        Le_trans best.version q.version r.version b a.0 valid (Le_of_gt q.version best.version h) l,
        (l, all),
      )
  | inr (h, e) ↦
      let (r, p, from, valid, l, all) = max_request-from rest best a.1 b in
      (
        r,
        ap (λ x. max_request rest (some x)) e ∙ p,
        ⊎_elim inl (λ (u, m). inr (u, Memᴰ.tail m)) from,
        valid,
        l,
        (Le_trans q.version best.version r.version a.0 b valid h l, all),
      )
]

lookup-select_all_other :
    (name : Str) (graph : DepRequests) (selected : Map Str DepRequest)
    → ¬ Memᴰ name (keys graph)
    → lookup name (select_all graph selected) ≡ lookup name selected
unfolding select_all
lookup-select_all_other name [] selected n = refl
lookup-select_all_other name ((k, versions) ∷ graph) selected n =
    lookup-select_all_other name graph (with_selected k (max_request versions none) selected)
      (λ m. n (Memᴰ.tail m))
    ∙ other (max_request versions none)
  where
    other :
        (o : Option DepRequest) → lookup name (with_selected k o selected) ≡ lookup name selected
    other none = refl
    other (some r) = elim (==_cases k name) [
      | inl e ↦ absurd (n (Memᴰ.head (sym e)))
      | inr (q, _) ↦ lookup-insert k name r selected ∙ rw q
    ]

-- What is selected for a name that the graph has.
abbrev pub chosen : Option (Map Str DepRequest) → Option DepRequest
chosen none = none
chosen (some versions) = max_request versions none

lookup-select_all :
    (name : Str) (graph : DepRequests) (selected : Map Str DepRequest)
    → IsMap graph
    → lookup name selected ≡ none
    → lookup name (select_all graph selected) ≡ chosen (lookup name graph)
unfolding select_all
lookup-select_all name [] selected d h = h
lookup-select_all name ((k, versions) ∷ graph) selected d h = elim (==_cases k name) [
  | inl e ↦ rw ((==_iff k name).1 e) (
      lookup-select_all_other name graph (with_selected k (max_request versions none) selected)
        (subst (λ x. ¬ Memᴰ x (keys graph)) e d.0)
      ∙ here e (max_request versions none))
  | inr (q, _) ↦ rw q (lookup-select_all name graph _ d.1 (there q (max_request versions none)))
]
  where
    here : k ≡ name → (o : Option DepRequest) → lookup name (with_selected k o selected) ≡ o
    here e none = h
    here e (some r) = lookup-insert k name r selected ∙ rw ((==_iff k name).1 e)

    there :
        k == name ≡ false
        → (o : Option DepRequest) → lookup name (with_selected k o selected) ≡ none
    there q none = h
    there q (some r) = lookup-insert k name r selected ∙ rw q h

pub lookup-apply_mvs :
    (name : Str) (graph : DepRequests)
    → IsMap graph
    → lookup name (apply_mvs graph) ≡ chosen (lookup name graph)
unfolding apply_mvs
lookup-apply_mvs name graph d = lookup-select_all name graph [] d refl

-- In a graph of requests with one entry for each name, the request that is selected for a name with
-- some requests, all at valid versions, is one of them, and no other is at a higher version.
pub highest_selected :
    (graph : DepRequests) (name : Str) (versions : Map Str DepRequest)
    → IsMap graph
    → lookup name graph ≡ some versions
    → versions ≢ []
    → AllValid versions
    → (r : DepRequest) × (lookup name (apply_mvs graph) ≡ some r)
      × ((v : Str) × Memᴰ (v, r) versions)
      × All (λ entry. Le (entry.1).version r.version) versions
unfolding max_request
highest_selected graph name [] d h n a = absurd (n refl)
highest_selected graph name ((v, q) ∷ rest) d h n a =
    let (r, p, from, valid, l, all) = max_request-from rest q a.1 a.0 in
    (
      r,
      lookup-apply_mvs name graph d ∙ ap chosen h ∙ p,
      ⊎_elim (λ e. (v, Memᴰ.head (ap (λ x. (v, x)) e))) (λ (u, m). (u, Memᴰ.tail m)) from,
      (l, all),
    )

-- Every request is under its version.
abbrev pub IsKeyed : DepRequests → Type 0
IsKeyed graph =
    (name : Str) (versions : Map Str DepRequest) (v : Str) (r : DepRequest)
    → lookup name graph ≡ some versions
    → lookup v versions ≡ some r
    → r.version ≡ v

pub apply_override-IsMap :
    (o : Override) (graph : DepRequests) → IsMap graph → IsMap (apply_override o graph)
unfolding apply_override
apply_override-IsMap o graph d = ground (
  arith,
  insert-IsMap o.module_name
      ((
        o.version,
        override_request o.version (lookup o.version (versions_of (lookup o.module_name graph))),
      )
        ∷ [])
      graph d,
)

pub apply_override_other :
    (o : Override) (graph : DepRequests) (name : Str)
    → o.module_name ≢ name
    → lookup name (apply_override o graph) ≡ lookup name graph
unfolding apply_override
apply_override_other o graph name n = ground (
  arith,
  ==_iff o.module_name name,
  lookup-insert o.module_name name
      ((
        o.version,
        override_request o.version (lookup o.version (versions_of (lookup o.module_name graph))),
      )
        ∷ [])
      graph,
)
