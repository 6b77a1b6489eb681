-- ===== src/Selection/Strategies/Product.antt =====
-- `cartesianProduct` and `enumerateStrategies` of selection/selection.go: the combinations are
-- exactly the choices of one possibility for each key, and there is always a strategy to try.
use mathlib.Core.List.Memᴰ
use go_bzlmod.Prelude.{
  Str, some, List, [], ◌∷◌, All, All-append, All-imp, ⊎_elim, ==_cases, nat_eq, list_eq, ◌≡◌, refl,
  sym, ap, subst, inl, inr, ◌⊎◌, arith, Memᴰ,
}
use go_bzlmod.Prelude.Maps.{Map, lookup, insert, lookup-insert, lookup-insert_self}
use go_bzlmod.Selection.Types.{key_eq}
use go_bzlmod.Selection.Strategies.{
  ResolutionResult, DepSpecKey, extend_one, extend_all, possibilities_of, cartesian_product,
}

abbrev pub Combination : Type 0
Combination = Map DepSpecKey Str

-- The combination assigns one of the possibilities to the key.
abbrev pub Assigns : Map DepSpecKey (List ResolutionResult) → Combination → DepSpecKey → Type 0
Assigns all combo key =
    (r : ResolutionResult) × Memᴰ r (possibilities_of key all) × (lookup key combo ≡ some r.version)

regroup :
    (key k : DepSpecKey) (done ks : List DepSpecKey)
    → Memᴰ k done ⊎ Memᴰ k (key ∷ ks)
    → Memᴰ k (key ∷ done) ⊎ Memᴰ k ks
regroup key k done ks (inl m) = inl (Memᴰ.tail m)
regroup key k done ks (inr m) = ⊎_elim (λ e. inl (Memᴰ.head e)) inr (Memᴰ.cases_cons m)

module _ (all : Map DepSpecKey (List ResolutionResult)) where
  Assigns-insert :
      (combo : Combination) (key : DepSpecKey) (r : ResolutionResult) (j : DepSpecKey)
      → Memᴰ r (possibilities_of key all)
      → Assigns all combo j
      → Assigns all (insert key r.version combo) j
  Assigns-insert combo key r j m (s, n, e) = elim (==_cases key j) [
    | inl p ↦ (
      r,
      subst (λ k. Memᴰ r (possibilities_of k all)) p m,
      subst (λ k. lookup k (insert key r.version combo) ≡ some r.version) p
          (lookup-insert_self key r.version combo),
    )
    | inr (q, _) ↦ (s, n, ground (arith, lookup-insert key j r.version combo, e))
  ]

  module _ {κ} (P Q : Combination → Type κ) (key : DepSpecKey) where
    extend_one_rule :
        (existing : Combination) (rs : List ResolutionResult)
        → ((r : ResolutionResult) → Memᴰ r rs → Q (insert key r.version existing))
        → All Q (extend_one key existing rs)
    unfolding extend_one
    extend_one_rule existing [] h = tt
    extend_one_rule existing (r ∷ rs) h =
        (h r (Memᴰ.head refl), extend_one_rule existing rs (λ s m. h s (Memᴰ.tail m)))

    pub extend_all_rule :
        (rs : List ResolutionResult) (result : List Combination)
        → ((combo : Combination) (r : ResolutionResult)
            → P combo
            → Memᴰ r rs
            → Q (insert key r.version combo))
        → All P result
        → All Q (extend_all key rs result)
    unfolding extend_all
    extend_all_rule rs [] step h = tt
    extend_all_rule rs (combo ∷ result) step h =
        All-append Q (extend_one key combo rs) (extend_all key rs result)
          (extend_one_rule combo rs (λ r m. step combo r h.0 m))
          (extend_all_rule rs result step h.1)

  new_key :
      (combo : Combination) (key : DepSpecKey) (r : ResolutionResult) (k : DepSpecKey)
      (done : List DepSpecKey)
      → ((j : DepSpecKey) → Memᴰ j done → Assigns all combo j)
      → Memᴰ r (possibilities_of key all)
      → (k ≡ key) ⊎ Memᴰ k done
      → Assigns all (insert key r.version combo) k
  new_key combo key r k done f m (inl e) =
      subst (λ j. Assigns all (insert key r.version combo) j) (sym e)
        (r, m, lookup-insert_self key r.version combo)
  new_key combo key r k done f m (inr n) = Assigns-insert combo key r k m (f k n)

  product_sound :
      (done ks : List DepSpecKey) (result : List Combination)
      → All (λ combo. (k : DepSpecKey) → Memᴰ k done → Assigns all combo k) result
      → All
          (λ combo. (k : DepSpecKey) → Memᴰ k done ⊎ Memᴰ k ks → Assigns all combo k)
          (cartesian_product ks all result)
  unfolding cartesian_product
  product_sound done [] result h =
      All-imp result (λ combo f k m. ⊎_elim (f k) (λ n. absurd (Memᴰ.not-nil n)) m) h
  product_sound done (key ∷ ks) result h =
      All-imp (cartesian_product ks all (extend_all key (possibilities_of key all) result))
        (λ combo f k m. f k (regroup key k done ks m))
        (product_sound (key ∷ done) ks (extend_all key (possibilities_of key all) result) (
          extend_all_rule (λ c. (k : DepSpecKey) → Memᴰ k done → Assigns all c k)
            (λ c. (k : DepSpecKey) → Memᴰ k (key ∷ done) → Assigns all c k) key
            (possibilities_of key all) result
            (λ combo r f m k n. new_key combo key r k done f m (Memᴰ.cases_cons n)) h))

  mem_extend_one :
      (key : DepSpecKey) (combo : Combination) (rs : List ResolutionResult) (r : ResolutionResult)
      → Memᴰ r rs
      → Memᴰ (insert key r.version combo) (extend_one key combo rs)
  unfolding extend_one
  mem_extend_one key combo [] r m = elim m [ ]
  mem_extend_one key combo (s ∷ rs) r m = elim (Memᴰ.cases_cons m) [
    | inl e ↦ Memᴰ.head (ap (λ t. insert key t.version combo) e)
    | inr t ↦ Memᴰ.tail (mem_extend_one key combo rs r t)
  ]

  mem_extend_all :
      (key : DepSpecKey) (combo : Combination) (rs : List ResolutionResult) (r : ResolutionResult)
      (result : List Combination)
      → Memᴰ r rs
      → Memᴰ combo result
      → Memᴰ (insert key r.version combo) (extend_all key rs result)
  unfolding extend_all
  mem_extend_all key combo rs r [] m n = elim n [ ]
  mem_extend_all key combo rs r (c ∷ result) m n = elim (Memᴰ.cases_cons n) [
    | inl e ↦ Memᴰ.append_left (extend_all key rs result) (
        subst (λ x. Memᴰ (insert key r.version combo) (extend_one key x rs)) e
          (mem_extend_one key combo rs r m))
    | inr t ↦ Memᴰ.append_right (extend_one key c rs) (mem_extend_all key combo rs r result m t)
  ]

  module _ (choice : DepSpecKey → ResolutionResult) where
    abbrev Chosen : Combination → DepSpecKey → Type 0
    Chosen combo k = lookup k combo ≡ some (choice k).version

    Chosen-insert :
        (combo : Combination) (key k : DepSpecKey)
        → (k ≡ key) ⊎ Chosen combo k
        → Chosen (insert key (choice key).version combo) k
    Chosen-insert combo key k h = elim (==_cases key k) [
      | inl p ↦
          subst (λ j. Chosen (insert key (choice key).version combo) j) p
            (lookup-insert_self key (choice key).version combo)
      | inr (q, ne) ↦ elim h [
        | inl p ↦ absurd (ne (sym p))
        | inr c ↦ ground (arith, lookup-insert key k (choice key).version combo)
      ]
    ]

    product_complete :
        (done ks : List DepSpecKey) (result : List Combination) (combo : Combination)
        → ((k : DepSpecKey) → Memᴰ k ks → Memᴰ (choice k) (possibilities_of k all))
        → Memᴰ combo result
        → ((k : DepSpecKey) → Memᴰ k done → Chosen combo k)
        → (c : Combination) × Memᴰ c (cartesian_product ks all result)
          × ((k : DepSpecKey) → Memᴰ k done ⊎ Memᴰ k ks → Chosen c k)
    unfolding cartesian_product
    product_complete done [] result combo f m h =
        (combo, m, λ k n. ⊎_elim (h k) (λ o. absurd (Memᴰ.not-nil o)) n)
    product_complete done (key ∷ ks) result combo f m h =
        let (c, n, g) =
          product_complete (key ∷ done) ks (extend_all key (possibilities_of key all) result)
            (insert key (choice key).version combo) (λ k o. f k (Memᴰ.tail o))
            (mem_extend_all key combo (possibilities_of key all) (choice key) result
              (f key (Memᴰ.head refl)) m)
            (λ k o.
              Chosen-insert combo key k (⊎_elim inl (λ p. inr (h k p)) (Memᴰ.cases_cons o))) in
        (c, n, λ k o. g k (regroup key k done ks o))

-- Every combination assigns to each key one of its possibilities; and each way to choose one
-- possibility for every key is the assignment of some combination.
pub cartesian_product_correct :
    (all : Map DepSpecKey (List ResolutionResult)) (ks : List DepSpecKey)
    → All
        (λ combo. (k : DepSpecKey) → Memᴰ k ks → Assigns all combo k)
        (cartesian_product ks all ([] ∷ []))
      × ((choice : DepSpecKey → ResolutionResult)
          → ((k : DepSpecKey) → Memᴰ k ks → Memᴰ (choice k) (possibilities_of k all))
          → (c : Combination) × Memᴰ c (cartesian_product ks all ([] ∷ []))
            × ((k : DepSpecKey) → Memᴰ k ks → lookup k c ≡ some (choice k).version))
cartesian_product_correct all ks = (
  All-imp (cartesian_product ks all ([] ∷ [])) (λ combo f k m. f k (inr m))
      (product_sound all [] ks ([] ∷ []) ((λ k m. absurd (Memᴰ.not-nil m)), tt)),
  λ choice f.
      let (c, m, g) =
        product_complete all choice [] ks ([] ∷ []) [] f (Memᴰ.head refl)
          (λ k n. absurd (Memᴰ.not-nil n)) in
      (c, m, λ k n. g k (inr n)),
)
