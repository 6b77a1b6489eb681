-- ===== src/Prelude/Strings.antt =====
-- Go's strings as lists of bytes, and what the program uses of the package strings.
use Prim.Native.Nat.{ℕ, compare, Ordering, eq}
use mathlib.Core.Path.{◌≡◌, refl, ap}
use mathlib.Core.Logic.{inl, inr}
use mathlib.Core.Bool.{Bool, true, false}
use mathlib.Core.List.{List, [], ◌∷◌, ◌++◌}
use native.Mathlib.Omega.{arith}
use go_bzlmod.Prelude.Tests.{if◌then◌else◌, Bool-cases}
use go_bzlmod.Prelude.Classes.{◌==◌, nat_eq}
use go_bzlmod.Prelude.Orders.{IsPreorder, ℕ-IsPreorder, lex, lex-IsPreorder}

abbrev pub Str : Type 0
Str = List ℕ

-- `strings.Compare` and `cmp.Compare` at strings.
abbrev pub strings_compare : Str → Str → Ordering
strings_compare = lex compare

pub Str-IsPreorder : IsPreorder strings_compare
Str-IsPreorder = lex-IsPreorder compare ℕ-IsPreorder

pub strings_compare_refl : (s : Str) → strings_compare s s ≡ eq
strings_compare_refl [] = refl
strings_compare_refl (c ∷ s) = ground (arith, strings_compare_refl s)

pub eq_of_strings_compare : (a b : Str) → strings_compare a b ≡ eq → a ≡ b
eq_of_strings_compare [] [] h = refl
eq_of_strings_compare [] (y ∷ ys) h = cc
eq_of_strings_compare (x ∷ xs) [] h = cc
eq_of_strings_compare (x ∷ xs) (y ∷ ys) h = ground (arith, eq_of_strings_compare xs ys)

abbrev pub cons_head : ℕ → List Str → List Str
cons_head c [] = (c ∷ []) ∷ []
cons_head c (p ∷ ps) = (c ∷ p) ∷ ps

-- `strings.Split` at a separator of one byte.
unfoldable pub split : ℕ → Str → List Str
split sep [] = [] ∷ []
split sep (c ∷ s) = let rest = split sep s in if c == sep then [] ∷ rest else cons_head c rest

-- The longest prefix of bytes in a class, and what follows it.
unfoldable pub span : (ℕ → Bool) → Str → Str × Str
span p [] = ([], [])
span p (c ∷ s) = let (a, b) = span p s in if p c then (c ∷ a, b) else ([], c ∷ s)

abbrev pub all : (ℕ → Bool) → Str → Bool
all p [] = true
all p (c ∷ s) = if p c then all p s else false

-- A text that does not begin with a byte of the class.
abbrev pub Stops : (ℕ → Bool) → Str → Type 0
Stops p [] = Unit
Stops p (c ∷ s) = p c ≡ false

pub span-append : (p : ℕ → Bool) (a b : Str) → all p a ≡ true → Stops p b → span p (a ++ b) ≡ (a, b)
unfolding span
span-append p [] [] h k = refl
span-append p [] (c ∷ b) h k = rw k
span-append p (c ∷ a) b h k = elim (Bool-cases (p c)) [
  | inl q ↦ rw (span-append p a b (rw q at h) k, q)
  | inr q ↦ absurd (ground arith)
]

pub span_parts : (p : ℕ → Bool) (s : Str) → s ≡ (span p s).0 ++ (span p s).1
unfolding span
span_parts p [] = refl
span_parts p (c ∷ s) = elim (Bool-cases (p c)) [
  | inl q ↦ rw q (ap (◌∷◌ c) (span_parts p s))
  | inr q ↦ rw q
]

pub span-all : (p : ℕ → Bool) (s : Str) → all p (span p s).0 ≡ true
unfolding span
span-all p [] = refl
span-all p (c ∷ s) = elim (Bool-cases (p c)) [ inl q ↦ rw (q, q, span-all p s) | inr q ↦ rw q ]

pub span-Stops : (p : ℕ → Bool) (s : Str) → Stops p (span p s).1
unfolding span
span-Stops p [] = tt
span-Stops p (c ∷ s) = elim (Bool-cases (p c)) [ inl q ↦ rw q (span-Stops p s) | inr q ↦ rw q q ]
