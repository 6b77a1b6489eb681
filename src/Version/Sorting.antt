-- ===== src/Version/Sorting.antt =====
-- `Sort` of selection/version/version.go.
use mathlib.Core.List.{Perm}
use mathlib.Core.List.Perm
use go_bzlmod.Prelude.{
  Ordering, lt, eq, gt, Str, List, [], ◌∷◌, All, ◌≡◌, ◌≢◌, refl, ◌⊎◌, inl, inr, arith, Memᴰ, All-at,
  All-of_mem,
}
use go_bzlmod.Prelude.Memᴰ
use go_bzlmod.Version.{compare, insert_sorted, sort}
use go_bzlmod.Version.Order.{IsValid, compare-swap_args, compare-Chain}

-- `v` is at most as high as `w`.
abbrev pub Le : Str → Str → Type 0
Le v w = compare v w ≢ gt

-- Every version is at most as high as all that follow it.
abbrev pub IsSorted : List Str → Type 0
IsSorted [] = Unit
IsSorted (v ∷ vs) = All (Le v) vs × IsSorted vs

Ordering-cases : (r : Ordering) → (r ≡ gt) ⊎ (r ≢ gt)
Ordering-cases lt = inr (λ h. cc)
Ordering-cases eq = inr (λ h. cc)
Ordering-cases gt = inl refl

insert_sorted_later :
    (v w : Str) (vs : List Str)
    → compare v w ≡ gt
    → insert_sorted v (w ∷ vs) ≡ w ∷ insert_sorted v vs
unfolding insert_sorted
insert_sorted_later v w vs h = rw (h, insert_sorted)

insert_sorted_here :
    (v w : Str) (vs : List Str) → compare v w ≢ gt → insert_sorted v (w ∷ vs) ≡ v ∷ w ∷ vs
unfolding insert_sorted
insert_sorted_here v w vs h = ground arith

insert_sorted-perm : (v : Str) (vs : List Str) → Perm (insert_sorted v vs) (v ∷ vs)
unfolding insert_sorted
insert_sorted-perm v [] = Perm.refl (v ∷ [])
insert_sorted-perm v (w ∷ vs) = elim (Ordering-cases (compare v w)) [
  | inl h ↦
      rw (insert_sorted_later v w vs h)
        (Perm.trans (Perm.cons w (insert_sorted-perm v vs)) (Perm.swap v w vs))
  | inr h ↦ rw (insert_sorted_here v w vs h) (Perm.refl (v ∷ w ∷ vs))
]

All-insert_sorted {κ} :
    (P : Str → Type κ) (v : Str) (vs : List Str) → P v → All P vs → All P (insert_sorted v vs)
unfolding insert_sorted
All-insert_sorted P v [] p h = (p, tt)
All-insert_sorted P v (w ∷ vs) p h = elim (Ordering-cases (compare v w)) [
  | inl g ↦ rw (insert_sorted_later v w vs g) (h.0, All-insert_sorted P v vs p h.1)
  | inr g ↦ rw (insert_sorted_here v w vs g) (p, h)
]

pub Le_trans : (u v w : Str) → IsValid u → IsValid v → IsValid w → Le u v → Le v w → Le u w
Le_trans u v w a b c h k = ground (arith, compare-Chain u v w a b c)

All-Le_trans :
    (v w : Str) (vs : List Str)
    → IsValid v
    → IsValid w
    → All IsValid vs
    → Le v w
    → All (Le w) vs
    → All (Le v) vs
All-Le_trans v w [] a b c h k = tt
All-Le_trans v w (u ∷ us) a b c h k =
    (Le_trans v w u a b c.0 h k.0, All-Le_trans v w us a b c.1 h k.1)

insert_sorted-IsSorted :
    (v : Str) (vs : List Str)
    → IsValid v
    → All IsValid vs
    → IsSorted vs
    → IsSorted (insert_sorted v vs)
unfolding insert_sorted
insert_sorted-IsSorted v [] a c s = (tt, tt)
insert_sorted-IsSorted v (w ∷ vs) a c s = elim (Ordering-cases (compare v w)) [
  | inl g ↦ rw (insert_sorted_later v w vs g) (
    All-insert_sorted (Le w) v vs (λ h. ground (arith, compare-swap_args v w)) s.0,
    insert_sorted-IsSorted v vs a c.1 s.1,
  )
  | inr g ↦ rw (insert_sorted_here v w vs g) ((g, All-Le_trans v w vs a c.0 c.1 g s.0), s)
]

pub All-sort {κ} : (P : Str → Type κ) (vs : List Str) → All P vs → All P (sort vs)
unfolding sort
All-sort P [] h = tt
All-sort P (v ∷ vs) h = All-insert_sorted P v (sort vs) h.0 (All-sort P vs h.1)

mem-insert_sorted :
    (v : Str) (vs : List Str) {u : Str} → Memᴰ u (v ∷ vs) → Memᴰ u (insert_sorted v vs)
unfolding insert_sorted
mem-insert_sorted v [] m = m
mem-insert_sorted v (w ∷ vs) m = elim (Ordering-cases (compare v w)) [
  | inr h ↦ rw (insert_sorted_here v w vs h) m
  | inl h ↦ rw (insert_sorted_later v w vs h) (elim (Memᴰ.cases_cons m) [
    | inl e ↦ Memᴰ.tail (mem-insert_sorted v vs (Memᴰ.head e))
    | inr t ↦ elim (Memᴰ.cases_cons t) [
      | inl e ↦ Memᴰ.head e
      | inr r ↦ Memᴰ.tail (mem-insert_sorted v vs (Memᴰ.tail r))
    ]
  ])
]

pub mem-sort : (vs : List Str) {u : Str} → Memᴰ u vs → Memᴰ u (sort vs)
unfolding sort
mem-sort [] m = m
mem-sort (v ∷ vs) m =
    mem-insert_sorted v (sort vs)
      (elim (Memᴰ.cases_cons m) [ inl e ↦ Memᴰ.head e | inr t ↦ Memᴰ.tail (mem-sort vs t) ])

pub sort-mem : (vs : List Str) {u : Str} → Memᴰ u (sort vs) → Memᴰ u vs
sort-mem vs m =
    All-at (λ u. Memᴰ u vs) (sort vs)
      (All-sort (λ u. Memᴰ u vs) vs (All-of_mem (λ u. Memᴰ u vs) vs (λ u n. n))) m

pub sort-perm : (vs : List Str) → Perm (sort vs) vs
unfolding sort
sort-perm [] = Perm.refl []
sort-perm (v ∷ vs) = Perm.trans (insert_sorted-perm v (sort vs)) (Perm.cons v (sort-perm vs))

pub sort-IsSorted : (vs : List Str) → All IsValid vs → IsSorted (sort vs)
unfolding sort
sort-IsSorted [] h = tt
sort-IsSorted (v ∷ vs) h =
    insert_sorted-IsSorted v (sort vs) h.0 (All-sort IsValid vs h.1) (sort-IsSorted vs h.1)

-- Sorting versions that parse rearranges them, each at most as high as all that follow it.
pub sort_correct : (vs : List Str) → All IsValid vs → Perm (sort vs) vs × IsSorted (sort vs)
sort_correct vs h = (sort-perm vs, sort-IsSorted vs h)
