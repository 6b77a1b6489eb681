-- ===== src/Prelude/Orders.antt =====
-- Three-way comparisons. Go returns -1, 0 or 1; the model returns `lt`, `eq` or `gt`.
use Prim.Native.Nat.{ℕ, compare, Ordering, lt, eq, gt}
use mathlib.Core.Path.{◌≡◌, refl}
use mathlib.Core.Logic.{◌≢◌}
use mathlib.Core.List.{List, [], ◌∷◌}
use native.Mathlib.Omega.{arith}

abbrev pub flip : Ordering → Ordering
flip lt = gt
flip eq = eq
flip gt = lt

-- What the comparisons of a with b and of b with c say of the one of a with c.
abbrev pub Chain : Ordering → Ordering → Ordering → Type 0
Chain lt lt r = r ≡ lt
Chain lt eq r = r ≡ lt
Chain lt gt r = Unit
Chain eq s r = r ≡ s
Chain gt lt r = Unit
Chain gt eq r = r ≡ gt
Chain gt gt r = r ≡ gt

-- A comparison that orders `A` totally, up to elements that compare equal.
pub record IsPreorder {ℓ} {A : Type ℓ} (cmp : A → A → Ordering) : Type ℓ where
  pub swap : (a b : A) → cmp b a ≡ flip (cmp a b)
  pub chain : (a b c : A) → Chain (cmp a b) (cmp b c) (cmp a c)

-- The first test that tells the two apart decides.
abbrev pub then_by : Ordering → Ordering → Ordering
then_by lt s = lt
then_by eq s = s
then_by gt s = gt

pub flip-then_by : (r s : Ordering) → flip (then_by r s) ≡ then_by (flip r) (flip s)
flip-then_by lt s = refl
flip-then_by eq s = refl
flip-then_by gt s = refl

Chain-lt_left : (r : Ordering) → Chain lt r lt
Chain-lt_left lt = refl
Chain-lt_left eq = refl
Chain-lt_left gt = tt

Chain-lt_right : (r : Ordering) → Chain r lt lt
Chain-lt_right lt = refl
Chain-lt_right eq = refl
Chain-lt_right gt = tt

Chain-gt_left : (r : Ordering) → Chain gt r gt
Chain-gt_left lt = tt
Chain-gt_left eq = refl
Chain-gt_left gt = refl

Chain-gt_right : (r : Ordering) → Chain r gt gt
Chain-gt_right lt = tt
Chain-gt_right eq = refl
Chain-gt_right gt = refl

pub Chain-then_by :
    (a b c d e f : Ordering)
    → Chain a b c
    → Chain d e f
    → Chain (then_by a d) (then_by b e) (then_by c f)
Chain-then_by lt lt c d e f h k = rw h
Chain-then_by lt eq c d e f h k = rw h (Chain-lt_left e)
Chain-then_by lt gt c d e f h k = tt
Chain-then_by eq lt c d e f h k = rw h (Chain-lt_right d)
Chain-then_by eq eq c d e f h k = rw h k
Chain-then_by eq gt c d e f h k = rw h (Chain-gt_right d)
Chain-then_by gt lt c d e f h k = tt
Chain-then_by gt eq c d e f h k = rw h (Chain-gt_left e)
Chain-then_by gt gt c d e f h k = rw h

pub Chain-ge : (a b c : Ordering) → Chain a b c → a ≢ lt → b ≢ lt → c ≢ lt
Chain-ge lt b c h p q = absurd (p refl)
Chain-ge a lt c h p q = absurd (q refl)
Chain-ge eq eq c h p q = cc
Chain-ge eq gt c h p q = cc
Chain-ge gt eq c h p q = cc
Chain-ge gt gt c h p q = cc

pub flip-flip : (a : Ordering) → flip (flip a) ≡ a
flip-flip lt = refl
flip-flip eq = refl
flip-flip gt = refl

pub eq_of_flip : (a : Ordering) → a ≡ flip a → a ≡ eq
eq_of_flip lt h = cc
eq_of_flip eq h = refl
eq_of_flip gt h = cc

-- The order on numbers.
pub compare-swap : (a b : ℕ) → compare b a ≡ flip (compare a b)
compare-swap a b = ground arith

pub nat_compare-Chain : (a b c : ℕ) → Chain (compare a b) (compare b c) (compare a c)
nat_compare-Chain a b c = ground arith

pub ℕ-IsPreorder : IsPreorder compare
ℕ-IsPreorder = record { swap = compare-swap; chain = nat_compare-Chain }

-- Elements compared by an image.
pub IsPreorder-on {ℓ κ} :
    {A : Type ℓ} {B : Type κ} {cmp : B → B → Ordering} (f : A → B)
    → IsPreorder cmp
    → IsPreorder (λ a b. cmp (f a) (f b))
IsPreorder-on f h = record {
  swap = λ a b. h.swap (f a) (f b);
  chain = λ a b c. h.chain (f a) (f b) (f c);
}

-- By a first comparison, then by a second.
pub IsPreorder-then_by {ℓ} :
    {A : Type ℓ} {c₁ c₂ : A → A → Ordering}
    → IsPreorder c₁
    → IsPreorder c₂
    → IsPreorder (λ a b. then_by (c₁ a b) (c₂ a b))
IsPreorder-then_by {c₁} {c₂} h k = record {
  swap = λ a b. rw (flip-then_by, h.swap a b, k.swap a b);
  chain = λ a b c. Chain-then_by _ _ _ _ _ _ (h.chain a b c) (k.chain a b c);
}

module _ {ℓ} {A : Type ℓ} (cmp : A → A → Ordering) where
  -- Lists by their first difference, and a proper prefix first.
  abbrev pub lex : List A → List A → Ordering
  lex [] [] = eq
  lex [] (y ∷ ys) = lt
  lex (x ∷ xs) [] = gt
  lex (x ∷ xs) (y ∷ ys) = then_by (cmp x y) (lex xs ys)

  module _ (h : IsPreorder cmp) where
    lex-swap : (a b : List A) → lex b a ≡ flip (lex a b)
    lex-swap [] [] = refl
    lex-swap [] (y ∷ ys) = refl
    lex-swap (x ∷ xs) [] = refl
    lex-swap (x ∷ xs) (y ∷ ys) = rw (flip-then_by, h.swap x y, lex-swap xs ys)

    lex-Chain : (a b c : List A) → Chain (lex a b) (lex b c) (lex a c)
    lex-Chain [] [] c = refl
    lex-Chain [] (y ∷ ys) [] = tt
    lex-Chain [] (y ∷ ys) (z ∷ zs) = Chain-lt_left _
    lex-Chain (x ∷ xs) [] [] = refl
    lex-Chain (x ∷ xs) [] (z ∷ zs) = tt
    lex-Chain (x ∷ xs) (y ∷ ys) [] = Chain-gt_right _
    lex-Chain (x ∷ xs) (y ∷ ys) (z ∷ zs) =
        Chain-then_by _ _ _ _ _ _ (h.chain x y z) (lex-Chain xs ys zs)

    pub lex-IsPreorder : IsPreorder lex
    lex-IsPreorder = record { swap = lex-swap; chain = lex-Chain }
