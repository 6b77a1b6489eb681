-- ===== src/Prelude/Lists.antt =====
-- Lists measured by native numbers, and membership as a family that can be matched.
use Prim.Native.Nat.{ℕ, suc, ◌+◌}
use mathlib.Core.Path.{◌≡◌, refl, ap, sym}
use mathlib.Core.Logic.{◌⊎◌, inl, inr, ◌↔◌, ⊎_elim}
use mathlib.Core.List.{List, [], ◌∷◌, ◌++◌, map, Memᴰ}
use mathlib.Core.List.Memᴰ
use native.Mathlib.Omega.{arith}
use Prim.Native.Char.{code}
use Prim.Native.String.{String}

-- The code points of a text: its bytes, if it is ASCII.
abbrev pub codes : String → List ℕ
codes String.[] = []
codes (String.◌∷◌ c s) = code c ∷ codes s

module _ {ℓ} {A : Type ℓ} where
  abbrev pub length : List A → ℕ
  length [] = 0
  length (_ ∷ xs) = suc (length xs)

  pub length-append : (xs ys : List A) → length (xs ++ ys) ≡ length xs + length ys
  length-append [] ys = omega arith
  length-append (x ∷ xs) ys = omega (arith, length-append xs ys)

  pub List-cases : (xs : List A) → (xs ≡ []) ⊎ ((x : A) × (rest : List A) × (xs ≡ x ∷ rest))
  List-cases [] = inl refl
  List-cases (x ∷ xs) = inr (x, xs, refl)

  pub mem-cons : (a x : A) (xs : List A) → Memᴰ a (x ∷ xs) ↔ ((a ≡ x) ⊎ Memᴰ a xs)
  mem-cons a x xs = (Memᴰ.cases_cons, ⊎_elim Memᴰ.head Memᴰ.tail)

  -- Every element satisfies `P`.
  abbrev pub All {κ} : (A → Type κ) → List A → Type κ
  All P [] = Unit
  All P (x ∷ xs) = P x × All P xs

module _ {ℓ κ} {A : Type ℓ} (P : A → Type κ) where
  pub All-at : (xs : List A) {a : A} → All P xs → Memᴰ a xs → P a
  All-at [] h m = elim m [ ]
  All-at (x ∷ xs) h (Memᴰ.head e) = rw e h.0
  All-at (x ∷ xs) h (Memᴰ.tail m) = All-at xs h.1 m

  pub All-of_mem : (xs : List A) → ((a : A) → Memᴰ a xs → P a) → All P xs
  All-of_mem [] h = tt
  All-of_mem (x ∷ xs) h = (h x (Memᴰ.head refl), All-of_mem xs (λ a m. h a (Memᴰ.tail m)))

  pub All-append : (xs ys : List A) → All P xs → All P ys → All P (xs ++ ys)
  All-append [] ys h k = k
  All-append (x ∷ xs) ys h k = (h.0, All-append xs ys h.1 k)

pub length-map {ℓ κ} :
    {A : Type ℓ} {B : Type κ} (f : A → B) (xs : List A) → length (map f xs) ≡ length xs
length-map f [] = refl
length-map f (x ∷ xs) = ap suc (length-map f xs)

pub All-imp {ℓ κ μ} :
    {A : Type ℓ} {P : A → Type κ} {Q : A → Type μ} (xs : List A)
    → ((a : A) → P a → Q a)
    → All P xs
    → All Q xs
All-imp [] f h = tt
All-imp (x ∷ xs) f h = (f x h.0, All-imp xs f h.1)

module _ {ℓ} {A : Type ℓ} where
  -- No element stands twice.
  abbrev pub Distinct : List A → Type ℓ
  Distinct [] = Unit
  Distinct (x ∷ xs) = (¬ Memᴰ x xs) × Distinct xs

  pub Distinct-concat : (xs : List A) (x : A) → Distinct xs → ¬ Memᴰ x xs → Distinct (xs ++ x ∷ [])
  Distinct-concat [] x d h = (λ m. elim m [ ], tt)
  Distinct-concat (y ∷ xs) x d h = (
    λ m. elim (Memᴰ.append_cases xs m) [
      | inl n ↦ d.0 n
      | inr e ↦ h (Memᴰ.head (sym (Memᴰ.eq_of_singleton e)))
    ],
    Distinct-concat xs x d.1 (λ m. h (Memᴰ.tail m)),
  )

  pub mem_skip :
      (xs : List A) (x : A) (ys : List A) {a : A} → Memᴰ a (xs ++ ys) → Memᴰ a (xs ++ x ∷ ys)
  mem_skip xs x ys m =
      ⊎_elim (Memᴰ.append_left (x ∷ ys)) (λ n. Memᴰ.append_right xs (Memᴰ.tail n))
        (Memᴰ.append_cases xs m)

  pub Distinct-drop :
      (xs : List A) (x : A) (ys : List A) → Distinct (xs ++ x ∷ ys) → Distinct (xs ++ ys)
  Distinct-drop [] x ys d = d.1
  Distinct-drop (y ∷ xs) x ys d = ((λ m. d.0 (mem_skip xs x ys m)), Distinct-drop xs x ys d.1)

  pub Distinct-append_left : (xs ys : List A) → Distinct (xs ++ ys) → Distinct xs
  Distinct-append_left [] ys d = tt
  Distinct-append_left (x ∷ xs) ys d =
      ((λ m. d.0 (Memᴰ.append_left ys m)), Distinct-append_left xs ys d.1)
