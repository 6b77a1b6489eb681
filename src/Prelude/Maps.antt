-- ===== src/Prelude/Maps.antt =====
-- Go's maps as association lists. The order of the entries is the order of a `range` loop, which
-- Go leaves open: a theorem over every such list holds for every order.
use mathlib.Core.Path.{◌≡◌, refl, sym, ap, ◌∙◌, subst}
use mathlib.Core.Logic.{◌⊎◌, inl, inr, ⊎_elim}
use mathlib.Core.Option.{Option, none, some}
use mathlib.Core.List.{List, [], ◌∷◌, Memᴰ}
use mathlib.Core.List.Memᴰ
use native.Mathlib.Omega.{arith}
use go_bzlmod.Prelude.Tests.{if◌then◌else◌}
use go_bzlmod.Prelude.Lists.{All, All-at}
use go_bzlmod.Prelude.Classes.{Eq, ◌==◌, ==_iff, ==_cases, ==_refl}

abbrev pub Map {ℓ κ} : Type ℓ → Type κ → Type (ℓ ⊔ κ)
Map K V = List (K × V)

abbrev pub keys {ℓ κ} : {K : Type ℓ} {V : Type κ} → Map K V → List K
keys [] = []
keys ((k, _) ∷ m) = k ∷ keys m

module _ {ℓ κ} {K : Type ℓ} {V : Type κ} ⦃e : Eq K⦄ where
  -- `v, ok := m[k]`
  abbrev pub lookup : K → Map K V → Option V
  lookup k [] = none
  lookup k ((j, v) ∷ m) = if j == k then some v else lookup k m

  -- `m[k] = v`
  abbrev pub insert : K → V → Map K V → Map K V
  insert k v [] = (k, v) ∷ []
  insert k v ((j, w) ∷ m) = if j == k then (j, v) ∷ m else (j, w) ∷ insert k v m

  -- `delete(m, k)`
  abbrev pub delete : K → Map K V → Map K V
  delete k [] = []
  delete k ((j, w) ∷ m) = if j == k then delete k m else (j, w) ∷ delete k m

  pub lookup-insert :
      (k j : K) (v : V) (m : Map K V)
      → lookup j (insert k v m) ≡ (if k == j then some v else lookup j m)
  lookup-insert k j v [] = refl
  lookup-insert k j v ((i, w) ∷ m) =
      ground (arith, ==_iff i k, ==_iff i j, ==_iff k j, lookup-insert k j v m)

  pub lookup-insert_self : (k : K) (v : V) (m : Map K V) → lookup k (insert k v m) ≡ some v
  lookup-insert_self k v m = ground (arith, lookup-insert k k v m, ==_refl k)

  pub mem_of_lookup : (k : K) (m : Map K V) {v : V} → lookup k m ≡ some v → Memᴰ (k, v) m
  mem_of_lookup k [] h = cc
  mem_of_lookup k ((j, w) ∷ m) {v} h = elim (==_cases j k) [
    | inl p ↦ Memᴰ.head (ground (arith, ==_iff j k))
    | inr (q, _) ↦ Memᴰ.tail (mem_of_lookup k m (ground arith))
  ]

  pub mem_insert :
      (k : K) (v : V) (m : Map K V) {j : K} {w : V}
      → Memᴰ (j, w) (insert k v m)
      → ((j ≡ k) × (w ≡ v)) ⊎ Memᴰ (j, w) m
  mem_insert k v [] h = inl (mem_head (Memᴰ.cases_cons h))
    where
      mem_head : {a : K × V} → (a ≡ (k, v)) ⊎ Memᴰ a [] → (a.0 ≡ k) × (a.1 ≡ v)
      mem_head (inl p) = (ap (λ t. t.0) p, ap (λ t. t.1) p)
      mem_head (inr m) = elim m [ ]
  mem_insert k v ((i, u) ∷ m) {j} {w} h = elim (==_cases i k) [
    | inl p ↦ elim (Memᴰ.cases_cons (rw ((==_iff i k).1 p) at h)) [
      | inl q ↦ inl (ap (λ t. t.0) q ∙ p, ap (λ t. t.1) q)
      | inr r ↦ inr (Memᴰ.tail r)
    ]
    | inr (q, _) ↦ elim (Memᴰ.cases_cons (rw q at h)) [
      | inl p ↦ inr (Memᴰ.head p)
      | inr r ↦ ⊎_elim inl (λ t. inr (Memᴰ.tail t)) (mem_insert k v m r)
    ]
  ]

  pub mem-keys-insert :
      (k : K) (v : V) (m : Map K V) {j : K}
      → Memᴰ j (keys (insert k v m))
      → (j ≡ k) ⊎ Memᴰ j (keys m)
  mem-keys-insert k v [] h = ⊎_elim inl inr (Memᴰ.cases_cons h)
  mem-keys-insert k v ((i, u) ∷ m) h = elim (==_cases i k) [
    | inl p ↦ inr (rw ((==_iff i k).1 p) at h)
    | inr (q, _) ↦ elim (Memᴰ.cases_cons (rw q at h)) [
      | inl p ↦ inr (Memᴰ.head p)
      | inr r ↦ ⊎_elim inl (λ t. inr (Memᴰ.tail t)) (mem-keys-insert k v m r)
    ]
  ]

-- Every key stands in one entry.
abbrev pub IsMap {ℓ κ} : {K : Type ℓ} {V : Type κ} → Map K V → Type ℓ
IsMap [] = Unit
IsMap ((k, _) ∷ m) = (¬ Memᴰ k (keys m)) × IsMap m

module _ {ℓ κ} {K : Type ℓ} {V : Type κ} ⦃e : Eq K⦄ where
  pub mem-keys : (m : Map K V) {k : K} {v : V} → Memᴰ (k, v) m → Memᴰ k (keys m)
  mem-keys [] h = elim h [ ]
  mem-keys ((j, w) ∷ m) (Memᴰ.head p) = Memᴰ.head (ap (λ t. t.0) p)
  mem-keys ((j, w) ∷ m) (Memᴰ.tail h) = Memᴰ.tail (mem-keys m h)

  pub lookup_of_mem : (m : Map K V) {k : K} {v : V} → IsMap m → Memᴰ (k, v) m → lookup k m ≡ some v
  lookup_of_mem [] d h = elim h [ ]
  lookup_of_mem ((j, w) ∷ m) {k} {v} d (Memᴰ.head p) =
      let q : k ≡ j = ap (λ t. t.0) p in
      rw ((==_iff j k).1 (sym q)) (ap some (sym (ap (λ t. t.1) p)))
  lookup_of_mem ((j, w) ∷ m) {k} {v} d (Memᴰ.tail h) = elim (==_cases j k) [
    | inl p ↦ absurd (d.0 (rw p (mem-keys m h)))
    | inr (q, _) ↦ rw q (lookup_of_mem m d.1 h)
  ]

  pub insert-IsMap : (k : K) (v : V) (m : Map K V) → IsMap m → IsMap (insert k v m)
  insert-IsMap k v [] d = (λ h. elim h [ ], tt)
  insert-IsMap k v ((j, w) ∷ m) d = elim (==_cases j k) [
    | inl p ↦ rw ((==_iff j k).1 p) (d.0, d.1)
    | inr (q, n) ↦
        rw q (λ h. ⊎_elim (λ p. n p) (λ r. d.0 r) (mem-keys-insert k v m h), insert-IsMap k v m d.1)
  ]

module _ {ℓ κ μ} {K : Type ℓ} {V : Type κ} ⦃e : Eq K⦄ (P : K × V → Type μ) where
  pub All-insert : (k : K) (v : V) (m : Map K V) → P (k, v) → All P m → All P (insert k v m)
  All-insert k v [] p h = (p, tt)
  All-insert k v ((j, w) ∷ m) p h = elim (==_cases j k) [
    | inl q ↦ rw ((==_iff j k).1 q) (subst (λ i. P (i, v)) (sym q) p, h.1)
    | inr (q, _) ↦ rw q (h.0, All-insert k v m p h.1)
  ]

  pub All-lookup : (k : K) (m : Map K V) {v : V} → All P m → lookup k m ≡ some v → P (k, v)
  All-lookup k m h f = All-at P m h (mem_of_lookup k m f)

module _ {ℓ κ} {K : Type ℓ} {V : Type κ} ⦃e : Eq K⦄ where
  pub lookup_of_key : (k : K) (m : Map K V) → Memᴰ k (keys m) → (v : V) × (lookup k m ≡ some v)
  lookup_of_key k [] h = elim h [ ]
  lookup_of_key k ((j, w) ∷ m) h = elim (==_cases j k) [
    | inl p ↦ (w, rw ((==_iff j k).1 p))
    | inr (q, n) ↦ elim (Memᴰ.cases_cons h) [
      | inl p ↦ absurd (n (sym p))
      | inr t ↦ let (v, f) = lookup_of_key k m t in (v, rw q f)
    ]
  ]
