-- ===== src/Prelude/Unknown.antt =====
-- How many of some keys a growing set does not hold yet: the measure of a search.
use Prim.Native.Nat.{ℕ, suc, ◌≤◌}
use mathlib.Core.Path.{◌≡◌, subst}
use mathlib.Core.Logic.{inl, inr}
use mathlib.Core.Bool.{true, false}
use mathlib.Core.List.{List, [], ◌∷◌, Memᴰ}
use mathlib.Core.List.Memᴰ
use native.Mathlib.Omega.{arith}
use go_bzlmod.Prelude.Tests.{if◌then◌else◌}
use go_bzlmod.Prelude.Lists.{length}
use go_bzlmod.Prelude.Classes.{Eq, ◌==◌, ==_iff, ==_cases, contains}

module _ {ℓ} {K : Type ℓ} ⦃keys : Eq K⦄ where
  abbrev pub unknown : List K → List K → ℕ
  unknown [] known = 0
  unknown (u ∷ us) known = if contains known u then unknown us known else suc (unknown us known)

  unknown_mono : (us known : List K) (k : K) → unknown us (k ∷ known) ≤ unknown us known
  unknown_mono [] known k = omega arith
  unknown_mono (u ∷ us) known k = ground (arith, unknown_mono us known k)

  pub unknown_drops :
      (us known : List K) (k : K)
      → Memᴰ k us
      → contains known k ≡ false
      → suc (unknown us (k ∷ known)) ≤ unknown us known
  unknown_drops [] known k m h = elim m [ ]
  unknown_drops (u ∷ us) known k m h = elim (==_cases k u) [
    | inl e ↦
        let here : k == u ≡ true = (==_iff k u).1 e in
        let fresh : contains known u ≡ false = subst (λ x. contains known x ≡ false) e h in
        ground (arith, unknown_mono us known k)
    | inr (q, ne) ↦ elim (Memᴰ.cases_cons m) [
      | inl e ↦ absurd (ne e)
      | inr t ↦ ground (arith, unknown_drops us known k t h)
    ]
  ]

  pub unknown-length : (us known : List K) → unknown us known ≤ length us
  unknown-length [] known = omega arith
  unknown-length (u ∷ us) known = ground (arith, unknown-length us known)
