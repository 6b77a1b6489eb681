-- ===== src/Resolver/Overrides.antt =====
-- The overrides of resolver.go pin the versions that are selected.
use go_bzlmod.Prelude.{
  Str, Option, none, some, List, [], ◌∷◌, ◌++◌, All, ==_iff, ==_cases, nat_eq, list_eq, ◌≡◌, ◌≢◌,
  refl, sym, ap, subst, ◌∙◌, ◌⊎◌, inl, inr, arith,
}
use go_bzlmod.Prelude.Maps.{Map, lookup, insert, lookup-insert, lookup-insert_self, IsMap}
use go_bzlmod.Modules.{single_version, Override}
use go_bzlmod.Resolver.{
  DepRequest, DepRequests, versions_of, override_request, apply_override, apply_overrides,
  max_request, apply_mvs,
}
use go_bzlmod.Resolver.Mvs.{
  IsKeyed, lookup-apply_mvs, chosen, apply_override-IsMap, apply_override_other,
}

-- The request that an override leaves.
abbrev left_request : Override → DepRequests → DepRequest
left_request o graph =
    override_request o.version (lookup o.version (versions_of (lookup o.module_name graph)))

apply_override_same :
    (o : Override) (graph : DepRequests)
    → o.type ≡ single_version
    → o.version ≢ []
    → lookup o.module_name (apply_override o graph) ≡ some ((o.version, left_request o graph) ∷ [])
unfolding apply_override
apply_override_same o graph t n = elim (==_cases o.version []) [
  | inl e ↦ absurd (n e)
  | inr (q, _) ↦
      rw (t, apply_override, q)
        (lookup-insert_self o.module_name ((o.version, left_request o graph) ∷ []) graph)
]

version-left_request :
    (o : Override) (graph : DepRequests)
    → IsKeyed graph
    → (left_request o graph).version ≡ o.version
version-left_request o graph k = at_versions (lookup o.module_name graph) refl
  where
    at_request :
        (r : Option DepRequest) (versions : Map Str DepRequest)
        → lookup o.module_name graph ≡ some versions
        → lookup o.version versions ≡ r
        → (override_request o.version r).version ≡ o.version
    at_request none versions h g = refl
    at_request (some r) versions h g = k o.module_name versions o.version r h g

    at_versions :
        (vs : Option (Map Str DepRequest))
        → lookup o.module_name graph ≡ vs
        → (override_request o.version (lookup o.version (versions_of vs))).version ≡ o.version
    at_versions none h = refl
    at_versions (some versions) h = at_request (lookup o.version versions) versions h refl

-- An override pins one version, or leaves the graph as it is.
apply_override-cases :
    (o : Override) (graph : DepRequests)
    → (apply_override o graph ≡ graph)
      ⊎ (apply_override o graph
          ≡ insert o.module_name ((o.version, left_request o graph) ∷ []) graph)
unfolding apply_override
apply_override-cases o graph = ground arith

apply_override-IsKeyed :
    (o : Override) (graph : DepRequests) → IsKeyed graph → IsKeyed (apply_override o graph)
apply_override-IsKeyed o graph k = elim (apply_override-cases o graph) [
  | inl e ↦ subst IsKeyed (sym e) k
  | inr e ↦ subst IsKeyed (sym e) pinned
]
  where
    pinned : IsKeyed (insert o.module_name ((o.version, left_request o graph) ∷ []) graph)
    pinned name versions v r h g = elim (==_cases o.module_name name) [
      | inr (q, _) ↦
          k name versions v r
            (sym (
                lookup-insert o.module_name name ((o.version, left_request o graph) ∷ []) graph
                ∙ rw q)
              ∙ h)
            g
      | inl e ↦
          let a : some ((o.version, left_request o graph) ∷ []) ≡ some versions =
            sym (
              lookup-insert o.module_name name ((o.version, left_request o graph) ∷ []) graph
              ∙ rw ((==_iff o.module_name name).1 e))
            ∙ h in
          let b : (o.version, left_request o graph) ∷ [] ≡ versions = cc in
          single (ap (lookup v) b ∙ g)
    ]
      where
        single : lookup v ((o.version, left_request o graph) ∷ []) ≡ some r → r.version ≡ v
        single p = elim (==_cases o.version v) [
          | inr (q, _) ↦ absurd (let z : none ≡ some r = rw q at p in cc)
          | inl e ↦
              let q : some (left_request o graph) ≡ some r = rw ((==_iff o.version v).1 e) at p in
              let c : left_request o graph ≡ r = cc in
              ap (λ x. x.version) (sym c) ∙ version-left_request o graph k ∙ e
        ]

apply_overrides_other :
    (os : List Override) (graph : DepRequests) (name : Str)
    → All (λ p. p.module_name ≢ name) os
    → lookup name (apply_overrides graph os) ≡ lookup name graph
unfolding apply_overrides
apply_overrides_other [] graph name a = refl
apply_overrides_other (o ∷ os) graph name a =
    apply_overrides_other os (apply_override o graph) name a.1
    ∙ apply_override_other o graph name a.0

apply_overrides-IsMap :
    (os : List Override) (graph : DepRequests) → IsMap graph → IsMap (apply_overrides graph os)
unfolding apply_overrides
apply_overrides-IsMap [] graph d = d
apply_overrides-IsMap (o ∷ os) graph d =
    apply_overrides-IsMap os (apply_override o graph) (apply_override-IsMap o graph d)

-- A single-version override that names a version, and that no later override of the module follows,
-- decides: whatever versions are requested, the version that is selected for its module is its own.
-- The requests are those of a graph with one entry for each name and every request under its version.
pub override_decides :
    (graph : DepRequests) (before : List Override) (o : Override) (after : List Override)
    → IsMap graph
    → IsKeyed graph
    → o.type ≡ single_version
    → o.version ≢ []
    → All (λ p. p.module_name ≢ o.module_name) after
    → (r : DepRequest) × (lookup o.module_name
          (apply_mvs (apply_overrides graph (before ++ o ∷ after)))
        ≡ some r)
      × (r.version ≡ o.version)
unfolding apply_overrides max_request
override_decides graph [] o after d k t n a = (
  left_request o graph,
  lookup-apply_mvs o.module_name (apply_overrides (apply_override o graph) after)
        (apply_overrides-IsMap after (apply_override o graph) (apply_override-IsMap o graph d))
      ∙ ap chosen (
          apply_overrides_other after (apply_override o graph) o.module_name a
          ∙ apply_override_same o graph t n),
  version-left_request o graph k,
)
override_decides graph (p ∷ before) o after d k t n a =
    override_decides (apply_override p graph) before o after (apply_override-IsMap p graph d)
      (apply_override-IsKeyed p graph k) t n a
