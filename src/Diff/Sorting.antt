-- ===== src/Diff/Sorting.antt =====
-- The sorting of a diff by the names of the modules: diff.go, `sortModuleChanges` and
-- `sortModuleUpgrades`.
use go_bzlmod.Prelude.{
  Str, strings_compare, Str-IsPreorder, List, [], ◌∷◌, ◌≡◌, ◌≢◌, ◌↔◌, ◌⊎◌, inl, inr, ⊎_elim, refl,
  Ordering, lt, eq, gt, All, Memᴰ, arith,
}
use go_bzlmod.Prelude.Memᴰ
use go_bzlmod.Diff.{insert_by_name, sort_by_name}

abbrev NameLe : Str → Str → Type 0
NameLe a b = strings_compare a b ≢ gt

Ordering-cases : (r : Ordering) → (r ≡ gt) ⊎ (r ≢ gt)
Ordering-cases lt = inr (λ h. cc)
Ordering-cases eq = inr (λ h. cc)
Ordering-cases gt = inl refl

module _ {A : Type 0} (name : A → Str) where
  -- Every name is no later than those that follow it.
  abbrev pub NamesAscend : List A → Type 0
  NamesAscend [] = Unit
  NamesAscend (x ∷ xs) = All (λ y. NameLe (name x) (name y)) xs × NamesAscend xs

  insert_later :
      (x y : A) (ys : List A)
      → strings_compare (name x) (name y) ≡ gt
      → insert_by_name name x (y ∷ ys) ≡ y ∷ insert_by_name name x ys
  unfolding insert_by_name
  insert_later x y ys h = rw (h, insert_by_name)

  insert_here :
      (x y : A) (ys : List A)
      → NameLe (name x) (name y)
      → insert_by_name name x (y ∷ ys) ≡ x ∷ y ∷ ys
  unfolding insert_by_name
  insert_here x y ys h = ground arith

  mem-insert_by_name :
      (x : A) (ys : List A) {z : A} → Memᴰ z (insert_by_name name x ys) ↔ Memᴰ z (x ∷ ys)
  unfolding insert_by_name
  mem-insert_by_name x [] = (λ m. m, λ m. m)
  mem-insert_by_name x (y ∷ ys) {z} = elim (Ordering-cases (strings_compare (name x) (name y))) [
    | inr h ↦ rw (insert_here x y ys h) (λ m. m, λ m. m)
    | inl h ↦ rw (insert_later x y ys h) (
      λ m. elim (Memᴰ.cases_cons m) [
        | inl e ↦ Memᴰ.tail (Memᴰ.head e)
        | inr t ↦ elim (Memᴰ.cases_cons ((mem-insert_by_name x ys).0 t)) [
          | inl e ↦ Memᴰ.head e
          | inr r ↦ Memᴰ.tail (Memᴰ.tail r)
        ]
      ],
      λ m. elim (Memᴰ.cases_cons m) [
        | inl e ↦ Memᴰ.tail ((mem-insert_by_name x ys).1 (Memᴰ.head e))
        | inr t ↦ elim (Memᴰ.cases_cons t) [
          | inl e ↦ Memᴰ.head e
          | inr r ↦ Memᴰ.tail ((mem-insert_by_name x ys).1 (Memᴰ.tail r))
        ]
      ],
    )
  ]

  pub mem-sort_by_name : (xs : List A) {z : A} → Memᴰ z (sort_by_name name xs) ↔ Memᴰ z xs
  unfolding sort_by_name
  mem-sort_by_name [] = (λ m. m, λ m. m)
  mem-sort_by_name (x ∷ xs) = (
    λ m.
        ⊎_elim (λ e. Memᴰ.head e) (λ t. Memᴰ.tail ((mem-sort_by_name xs).0 t))
          (Memᴰ.cases_cons ((mem-insert_by_name x (sort_by_name name xs)).0 m)),
    λ m. (mem-insert_by_name x (sort_by_name name xs)).1 (
        ⊎_elim (λ e. Memᴰ.head e) (λ t. Memᴰ.tail ((mem-sort_by_name xs).1 t)) (Memᴰ.cases_cons m)),
  )

  All-insert_by_name :
      (P : A → Type 0) (x : A) (ys : List A) → P x → All P ys → All P (insert_by_name name x ys)
  unfolding insert_by_name
  All-insert_by_name P x [] p h = (p, tt)
  All-insert_by_name P x (y ∷ ys) p h = elim (Ordering-cases (strings_compare (name x) (name y))) [
    | inl g ↦ rw (insert_later x y ys g) (h.0, All-insert_by_name P x ys p h.1)
    | inr g ↦ rw (insert_here x y ys g) (p, h)
  ]

  NameLe-trans : (a b c : Str) → NameLe a b → NameLe b c → NameLe a c
  NameLe-trans a b c h k = ground (arith, Str-IsPreorder.chain a b c)

  All-NameLe-trans :
      (a b : Str) (ys : List A)
      → NameLe a b
      → All (λ y. NameLe b (name y)) ys
      → All (λ y. NameLe a (name y)) ys
  All-NameLe-trans a b [] h k = tt
  All-NameLe-trans a b (y ∷ ys) h k =
      (NameLe-trans a b (name y) h k.0, All-NameLe-trans a b ys h k.1)

  insert_by_name-NamesAscend :
      (x : A) (ys : List A) → NamesAscend ys → NamesAscend (insert_by_name name x ys)
  unfolding insert_by_name
  insert_by_name-NamesAscend x [] s = (tt, tt)
  insert_by_name-NamesAscend x (y ∷ ys) s =
      elim (Ordering-cases (strings_compare (name x) (name y))) [
        | inl g ↦ rw (insert_later x y ys g) (
          All-insert_by_name (λ z. NameLe (name y) (name z)) x ys
              (λ h. ground (arith, Str-IsPreorder.swap (name x) (name y))) s.0,
          insert_by_name-NamesAscend x ys s.1,
        )
        | inr g ↦ rw (insert_here x y ys g) ((g, All-NameLe-trans (name x) (name y) ys g s.0), s)
      ]

  pub sort_by_name-NamesAscend : (xs : List A) → NamesAscend (sort_by_name name xs)
  unfolding sort_by_name
  sort_by_name-NamesAscend [] = tt
  sort_by_name-NamesAscend (x ∷ xs) =
      insert_by_name-NamesAscend x (sort_by_name name xs) (sort_by_name-NamesAscend xs)
