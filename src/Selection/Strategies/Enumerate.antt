-- ===== src/Selection/Strategies/Enumerate.antt =====
-- `enumerateStrategies` of selection/selection.go: there is always a strategy to try, and every
-- strategy departs from the default one only by the possibilities of an ambiguous dependency.
use mathlib.Core.List.Memᴰ
use go_bzlmod.Prelude.{
  ◌<◌, Str, Ordering, lt, eq, gt, some, List, [], ◌∷◌, All, Option-cases, Bool-cases, ==_cases,
  nat_eq, list_eq, ◌≡◌, ◌≢◌, refl, sym, subst, inl, inr, ◌⊎◌, ⊎_elim, arith, Memᴰ, length, ltb,
  ltb→lt,
}
use go_bzlmod.Prelude.Int.{pos}
use go_bzlmod.Prelude.Maps.{
  Map, lookup, insert, lookup-insert, lookup-insert_self, keys, All-lookup, lookup_of_key,
}
use go_bzlmod.Selection.Types.{key_eq, DepSpec, to_module_key, DepGraph}
use go_bzlmod.Selection.Groups.{SelectionGroups, SelectedVersions}
use go_bzlmod.Selection.Strategies.{
  ResolutionResult, DepSpecKey, Strategy, possibilities_of, cartesian_product, strategies_of,
  strategies_for, enumerate_strategies, ambiguous, compute_all_possible_resolutions,
  compute_possible_resolution_results_for_one_dep_spec, make_default_strategy,
  make_strategy_from_combination, sort_keys, insert_key, extend_all, compare_keys,
}
use go_bzlmod.Selection.Strategies.Product.{Combination, extend_all_rule, cartesian_product_correct}

-- The possibilities of every key are at least two.
abbrev pub Several : Map DepSpecKey (List ResolutionResult) → Type 0
Several = All (λ e. 1 < length e.1)

ambiguous-Several :
    (graph : DepGraph) (selected : SelectedVersions) (seen : Map DepSpecKey DepSpec)
    → Several (ambiguous graph selected seen)
unfolding ambiguous
ambiguous-Several graph selected [] = tt
ambiguous-Several graph selected ((key, dep) ∷ rest) =
    let possible = compute_possible_resolution_results_for_one_dep_spec dep graph selected in
    elim (Bool-cases (ltb 1 (length possible))) [
      | inl e ↦ rw e (ltb→lt 1 (length possible) e, ambiguous-Several graph selected rest)
      | inr e ↦ rw e (ambiguous-Several graph selected rest)
    ]

mem-insert_key :
    (k j : DepSpecKey) (ks : List DepSpecKey) → Memᴰ k (insert_key j ks) → (k ≡ j) ⊎ Memᴰ k ks
unfolding insert_key
mem-insert_key k j [] m = Memᴰ.cases_cons m
mem-insert_key k j (i ∷ ks) m = after_compare (compare_keys j i) (mem-insert_key k j ks) m
  where
    after_compare :
        (r : Ordering)
        → (Memᴰ k (insert_key j ks) → (k ≡ j) ⊎ Memᴰ k ks)
        → Memᴰ k (elim r [ gt ↦ i ∷ insert_key j ks | _ ↦ j ∷ i ∷ ks ])
        → (k ≡ j) ⊎ Memᴰ k (i ∷ ks)
    after_compare gt ih n =
        ⊎_elim (λ e. inr (Memᴰ.head e)) (λ t. ⊎_elim inl (λ u. inr (Memᴰ.tail u)) (ih t))
          (Memᴰ.cases_cons n)
    after_compare lt ih n = Memᴰ.cases_cons n
    after_compare eq ih n = Memᴰ.cases_cons n

pub mem-sort_keys : (k : DepSpecKey) (ks : List DepSpecKey) → Memᴰ k (sort_keys ks) → Memᴰ k ks
unfolding sort_keys
mem-sort_keys k [] m = m
mem-sort_keys k (j ∷ ks) m =
    ⊎_elim Memᴰ.head (λ t. Memᴰ.tail (mem-sort_keys k ks t)) (mem-insert_key k j (sort_keys ks) m)

abbrev first_or : List ResolutionResult → ResolutionResult
first_or [] = record { version = []; compat_level = pos 0 }
first_or (r ∷ _) = r

mem-first_or : (rs : List ResolutionResult) → 1 < length rs → Memᴰ (first_or rs) rs
mem-first_or [] h = absurd (omega arith)
mem-first_or (r ∷ rs) h = Memᴰ.head refl

combination_exists :
    (all : Map DepSpecKey (List ResolutionResult))
    → Several all
    → (c : Combination) × Memᴰ c (cartesian_product (sort_keys (keys all)) all ([] ∷ []))
combination_exists all h =
    let (c, m, _) =
      (cartesian_product_correct all (sort_keys (keys all))).1
        (λ k. first_or (possibilities_of k all))
        (λ k m. has_first k (mem-sort_keys k (keys all) m)) in
    (c, m)
  where
    has_first :
        (k : DepSpecKey)
        → Memᴰ k (keys all)
        → Memᴰ (first_or (possibilities_of k all)) (possibilities_of k all)
    has_first k m =
        let (rs, e) = lookup_of_key k all m in
        let p : possibilities_of k all ≡ rs = rw (e, possibilities_of) in
        subst (λ x. Memᴰ (first_or x) x) (sym p)
          (mem-first_or rs (All-lookup (λ e. 1 < length e.1) k all h e))

strategies_of-ne-nil :
    (groups : SelectionGroups) (selected : SelectedVersions) (cs : List Combination)
    (c : Combination)
    → Memᴰ c cs
    → strategies_of groups selected cs ≢ []
unfolding strategies_of
strategies_of-ne-nil groups selected [] c m = elim m [ ]
strategies_of-ne-nil groups selected (d ∷ cs) c m = λ e. cc

strategies_for-ne-nil :
    (groups : SelectionGroups) (selected : SelectedVersions)
    (all : Map DepSpecKey (List ResolutionResult))
    → Several all
    → strategies_for groups selected all ≢ []
unfolding strategies_for
strategies_for-ne-nil groups selected [] h = λ e. cc
strategies_for-ne-nil groups selected (entry ∷ rest) h =
    let (c, m) = combination_exists (entry ∷ rest) h in strategies_of-ne-nil groups selected _ c m

-- There is always a strategy to try.
pub enumerate_strategies-ne-nil :
    (graph : DepGraph) (groups : SelectionGroups) (selected : SelectedVersions)
    → enumerate_strategies graph groups selected ≢ []
unfolding enumerate_strategies compute_all_possible_resolutions
enumerate_strategies-ne-nil graph groups selected =
    strategies_for-ne-nil groups selected _ (ambiguous-Several graph selected _)

module _ (all : Map DepSpecKey (List ResolutionResult)) where
  -- What a combination assigns to a key is a possibility of that key.
  abbrev pub Within : Combination → Type 0
  Within combo =
      (k : DepSpecKey) (v : Str)
      → lookup k combo ≡ some v
      → (r : ResolutionResult) × Memᴰ r (possibilities_of k all) × (v ≡ r.version)

  Within-insert :
      (key : DepSpecKey) (combo : Combination) (r : ResolutionResult)
      → Within combo
      → Memᴰ r (possibilities_of key all)
      → Within (insert key r.version combo)
  Within-insert key combo r w m k v e = elim (==_cases key k) [
    | inl p ↦ (
      r,
      subst (λ j. Memᴰ r (possibilities_of j all)) p m,
      let q =
            subst (λ j. lookup j (insert key r.version combo) ≡ some r.version) p
              (lookup-insert_self key r.version combo) in
          cc (q, e),
    )
    | inr (q, _) ↦ w k v (ground (arith, lookup-insert key k r.version combo))
  ]

  pub product-Within :
      (ks : List DepSpecKey) (result : List Combination)
      → All Within result
      → All Within (cartesian_product ks all result)
  unfolding cartesian_product
  product-Within [] result h = h
  product-Within (key ∷ ks) result h =
      product-Within ks (extend_all key (possibilities_of key all) result) (
        extend_all_rule all Within Within key (possibilities_of key all) result
          (λ combo r w m. Within-insert key combo r w m) h)

  -- A strategy resolves as the default one does, or to a possibility of the dependency.
  abbrev pub Resolves : SelectionGroups → SelectedVersions → Strategy → Type 0
  Resolves groups selected s =
      (dep : DepSpec)
      → (s dep ≡ make_default_strategy groups selected dep)
        ⊎ ((r : ResolutionResult) × Memᴰ r (possibilities_of (to_module_key dep) all)
            × (s dep ≡ r.version))

  combination-Resolves :
      (groups : SelectionGroups) (selected : SelectedVersions) (combo : Combination)
      → Within combo
      → Resolves groups selected (make_strategy_from_combination combo groups selected)
  unfolding make_strategy_from_combination make_default_strategy
  combination-Resolves groups selected combo w dep =
      elim (Option-cases (lookup (to_module_key dep) combo)) [
        | inl e ↦ inl (rw (e, make_strategy_from_combination))
        | inr (v, e) ↦
            let (r, m, p) = w (to_module_key dep) v e in
            inr (r, m, rw (e, make_strategy_from_combination) p)
      ]

  strategies_of-Resolve :
      (groups : SelectionGroups) (selected : SelectedVersions) (cs : List Combination)
      → All Within cs
      → All (Resolves groups selected) (strategies_of groups selected cs)
  unfolding strategies_of
  strategies_of-Resolve groups selected [] h = tt
  strategies_of-Resolve groups selected (c ∷ cs) h =
      (combination-Resolves groups selected c h.0, strategies_of-Resolve groups selected cs h.1)

pub strategies_for-Resolve :
    (groups : SelectionGroups) (selected : SelectedVersions)
    (all : Map DepSpecKey (List ResolutionResult))
    → All (Resolves all groups selected) (strategies_for groups selected all)
unfolding strategies_for
strategies_for-Resolve groups selected [] = ((λ dep. inl refl), tt)
strategies_for-Resolve groups selected (entry ∷ rest) =
    let all = entry ∷ rest in
    strategies_of-Resolve all groups selected
      (cartesian_product (sort_keys (keys all)) all ([] ∷ []))
      (product-Within all (sort_keys (keys all)) ([] ∷ []) ((λ k v e. absurd (cc e)), tt))
