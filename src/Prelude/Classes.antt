-- ===== src/Prelude/Classes.antt =====
-- Equality tests as an interface, and membership by such a test.
use Prim.Native.Nat.{ℕ}
use mathlib.Core.Path.{◌≡◌, refl, sym}
use mathlib.Core.Logic.{◌↔◌, ◌⊎◌, inl, inr}
use mathlib.Core.Bool.{Bool, true, false, ◌&&◌, ◌||◌}
use mathlib.Core.List.{List, [], ◌∷◌, Memᴰ}
use native.Mathlib.Omega.{arith}
use go_bzlmod.Prelude.Tests.{nat_beq, nat_beq_iff, Bool-cases}

infix 50 ◌==◌
-- The types of keys whose equality a Boolean decides.
pub record Eq {ℓ} (K : Type ℓ) : Type ℓ where
  pub same : K → K → Bool
  pub same_iff : (x y : K) → (same x y ≡ true) ↔ (x ≡ y)

abbrev pub ◌==◌ {ℓ} : {K : Type ℓ} ⦃keys : Eq K⦄ → K → K → Bool
◌==◌ ⦃keys⦄ x y = keys.same x y

module _ {ℓ} {A : Type ℓ} ⦃e : Eq A⦄ where
  pub ==_iff : (a b : A) → (a == b ≡ true) ↔ (a ≡ b)
  ==_iff a b = e.same_iff a b

  pub ==_refl : (a : A) → a == a ≡ true
  ==_refl a = (e.same_iff a a).1 refl

  pub ==_cases : (a b : A) → (a ≡ b) ⊎ ((a == b ≡ false) × ¬ (a ≡ b))
  ==_cases a b = elim (Bool-cases (a == b)) [
    | inl h ↦ inl ((==_iff a b).0 h)
    | inr h ↦ inr (h, λ p. ground (arith, ==_iff a b))
  ]

  -- A lookup in a `map[K]bool` that is only ever set to true.
  abbrev pub contains : List A → A → Bool
  contains [] a = false
  contains (x ∷ xs) a = x == a || contains xs a

  pub mem_of_contains : (xs : List A) (a : A) → contains xs a ≡ true → Memᴰ a xs
  mem_of_contains [] a h = cc
  mem_of_contains (x ∷ xs) a h = elim (==_cases x a) [
    | inl p ↦ Memᴰ.head (sym p)
    | inr (q, _) ↦ Memᴰ.tail (mem_of_contains xs a (ground arith))
  ]

  pub contains_of_mem : (xs : List A) (a : A) → Memᴰ a xs → contains xs a ≡ true
  contains_of_mem [] a m = elim m [ ]
  contains_of_mem (x ∷ xs) a (Memᴰ.head p) = ground (arith, ==_iff x a)
  contains_of_mem (x ∷ xs) a (Memᴰ.tail m) = ground (arith, contains_of_mem xs a m)

instance abbrev pub nat_eq : Eq ℕ
nat_eq = record { same = nat_beq; same_iff = nat_beq_iff }

abbrev pub list_beq {ℓ} : {A : Type ℓ} ⦃e : Eq A⦄ → List A → List A → Bool
list_beq [] [] = true
list_beq (x ∷ xs) (y ∷ ys) = x == y && list_beq xs ys
list_beq _ _ = false

pub list_beq_iff {ℓ} : {A : Type ℓ} ⦃e : Eq A⦄ (a b : List A) → (list_beq a b ≡ true) ↔ (a ≡ b)
list_beq_iff [] [] = (λ _. refl, λ _. refl)
list_beq_iff [] (y ∷ ys) = (λ h. cc, λ h. cc)
list_beq_iff (x ∷ xs) [] = (λ h. cc, λ h. cc)
list_beq_iff (x ∷ xs) (y ∷ ys) = (
  λ h. ground (arith, ==_iff x y, list_beq_iff xs ys),
  λ h. ground (arith, ==_iff x y, list_beq_iff xs ys),
)

instance abbrev pub list_eq {ℓ} : {A : Type ℓ} ⦃e : Eq A⦄ → Eq (List A)
list_eq = record { same = list_beq; same_iff = list_beq_iff }

abbrev pub bool_beq : Bool → Bool → Bool
bool_beq true b = b
bool_beq false true = false
bool_beq false false = true

pub bool_beq_iff : (a b : Bool) → (bool_beq a b ≡ true) ↔ (a ≡ b)
bool_beq_iff a b = (λ h. ground arith, λ h. ground arith)

instance abbrev pub bool_eq : Eq Bool
bool_eq = record { same = bool_beq; same_iff = bool_beq_iff }
