-- ===== src/Selection/Strategies/Complete.antt =====
-- `enumerateStrategies` of selection/selection.go: the strategies are the choices of one possible
-- result for every ambiguous dependency.
use mathlib.Core.List.Memᴰ
use go_bzlmod.Prelude.{
  ◌<◌, ◌≤◌, none, some, List, [], ◌∷◌, All, All-at, All-imp, Option-cases, nat_eq, list_eq, ◌≡◌,
  refl, sym, ap, subst, ◌∙◌, inl, inr, ◌⊎◌, ⊎_elim, Memᴰ, length, Ordering, lt, eq, gt,
}
use go_bzlmod.Prelude.Maps.{Map, lookup, keys, lookup_of_key, mem-keys, mem_of_lookup}
use go_bzlmod.Selection.Types.{key_eq, DepSpec, to_module_key, DepGraph}
use go_bzlmod.Selection.Groups.{SelectionGroups, SelectedVersions}
use go_bzlmod.Selection.Strategies.{
  ResolutionResult, DepSpecKey, Strategy, possibilities_of, cartesian_product, strategies_of,
  strategies_for, enumerate_strategies, compute_all_possible_resolutions,
  compute_possible_resolution_results_for_one_dep_spec, make_default_strategy,
  make_strategy_from_combination, sort_keys, insert_key, compare_keys,
}
use go_bzlmod.Selection.Strategies.Product.{Combination, cartesian_product_correct}
use go_bzlmod.Selection.Strategies.Enumerate.{
  mem-sort_keys, Within, product-Within, Resolves, strategies_for-Resolve,
}
use go_bzlmod.Selection.Strategies.Seen.{IsLimited, ambiguous_cases}

insert_key-mem :
    (k j : DepSpecKey) (ks : List DepSpecKey) → (k ≡ j) ⊎ Memᴰ k ks → Memᴰ k (insert_key j ks)
unfolding insert_key
insert_key-mem k j [] m = ⊎_elim Memᴰ.head Memᴰ.tail m
insert_key-mem k j (i ∷ ks) m = after_compare (compare_keys j i) (insert_key-mem k j ks) m
  where
    after_compare :
        (r : Ordering)
        → ((k ≡ j) ⊎ Memᴰ k ks → Memᴰ k (insert_key j ks))
        → (k ≡ j) ⊎ Memᴰ k (i ∷ ks)
        → Memᴰ k (elim r [ gt ↦ i ∷ insert_key j ks | _ ↦ j ∷ i ∷ ks ])
    after_compare gt ih (inl e) = Memᴰ.tail (ih (inl e))
    after_compare gt ih (inr n) = ⊎_elim Memᴰ.head (λ t. Memᴰ.tail (ih (inr t))) (Memᴰ.cases_cons n)
    after_compare lt ih n = ⊎_elim Memᴰ.head Memᴰ.tail n
    after_compare eq ih n = ⊎_elim Memᴰ.head Memᴰ.tail n

sort_keys-mem : (k : DepSpecKey) (ks : List DepSpecKey) → Memᴰ k ks → Memᴰ k (sort_keys ks)
unfolding sort_keys
sort_keys-mem k [] m = m
sort_keys-mem k (j ∷ ks) m =
    insert_key-mem k j (sort_keys ks)
      (⊎_elim inl (λ t. inr (sort_keys-mem k ks t)) (Memᴰ.cases_cons m))

mem-strategies_of :
    (groups : SelectionGroups) (selected : SelectedVersions) (cs : List Combination)
    (c : Combination)
    → Memᴰ c cs
    → Memᴰ (make_strategy_from_combination c groups selected) (strategies_of groups selected cs)
unfolding strategies_of
mem-strategies_of groups selected [] c m = elim m [ ]
mem-strategies_of groups selected (d ∷ cs) c m = elim (Memᴰ.cases_cons m) [
  | inl e ↦ Memᴰ.head (ap (λ x. make_strategy_from_combination x groups selected) e)
  | inr t ↦ Memᴰ.tail (mem-strategies_of groups selected cs c t)
]

module _ (groups : SelectionGroups) (selected : SelectedVersions)
    (choice : DepSpecKey → ResolutionResult) where
  -- The strategy makes the choice for the keys of the map, and is the default one elsewhere.
  abbrev Makes : Map DepSpecKey (List ResolutionResult) → Strategy → Type 0
  Makes all s =
      (dep : DepSpec)
      → ((lookup (to_module_key dep) all ≡ none)
          → s dep ≡ make_default_strategy groups selected dep)
        × (Memᴰ (to_module_key dep) (keys all) → s dep ≡ (choice (to_module_key dep)).version)

  combination-Makes :
      (all : Map DepSpecKey (List ResolutionResult)) (c : Combination)
      → Within all c
      → ((k : DepSpecKey) → Memᴰ k (keys all) → lookup k c ≡ some (choice k).version)
      → Makes all (make_strategy_from_combination c groups selected)
  unfolding make_strategy_from_combination make_default_strategy
  combination-Makes all c w h dep = (
    λ absent. elim (Option-cases (lookup (to_module_key dep) c)) [
      | inl e ↦ rw (e, make_strategy_from_combination) refl
      | inr (v, e) ↦
          let (r, m, _) = w (to_module_key dep) v e in
          absurd (Memᴰ.not-nil (rw (absent, possibilities_of) at m))
    ],
    λ m. rw (h (to_module_key dep) m, make_strategy_from_combination) refl,
  )

  strategies_for_complete :
      (all : Map DepSpecKey (List ResolutionResult))
      → ((k : DepSpecKey) → Memᴰ k (keys all) → Memᴰ (choice k) (possibilities_of k all))
      → (s : Strategy) × Memᴰ s (strategies_for groups selected all) × Makes all s
  unfolding strategies_for
  strategies_for_complete [] h =
      (make_default_strategy groups selected, Memᴰ.head refl, λ dep. ((λ e. refl), λ m. elim m [ ]))
  strategies_for_complete (entry ∷ rest) h =
      let all = entry ∷ rest in
      let ks = sort_keys (keys all) in
      let (c, m, g) =
        (cartesian_product_correct all ks).1 choice (λ k n. h k (mem-sort_keys k (keys all) n)) in
      (
        make_strategy_from_combination c groups selected,
        mem-strategies_of groups selected (cartesian_product ks all ([] ∷ [])) c m,
        combination-Makes all c
            (All-at (Within all) (cartesian_product ks all ([] ∷ []))
              (product-Within all ks ([] ∷ []) ((λ k v e. absurd (cc e)), tt)) m)
            (λ k n. g k (sort_keys-mem k (keys all) n)),
      )

module _ (graph : DepGraph) (groups : SelectionGroups) (selected : SelectedVersions) where
  abbrev possible : DepSpec → List ResolutionResult
  possible d = compute_possible_resolution_results_for_one_dep_spec d graph selected

  abbrev all : Map DepSpecKey (List ResolutionResult)
  all = compute_all_possible_resolutions graph selected

  -- A dependency that limits the level of the module that `dep` asks for.
  abbrev pub Limits : DepSpec → DepSpec → Type 0
  Limits dep d = IsLimited graph.modules d × (to_module_key d ≡ to_module_key dep)

  -- The strategy is the default one at `dep`, or resolves it to one of several possible results.
  abbrev pub IsCandidate : Strategy → Type 0
  IsCandidate s =
      (dep : DepSpec)
      → (s dep ≡ make_default_strategy groups selected dep)
        ⊎ ((d : DepSpec) × Limits dep d
            × (1 < length (possible d))
            × ((r : ResolutionResult) × Memᴰ r (possible d) × (s dep ≡ r.version)))

  -- The strategy resolves to the choice exactly where there are several possible results.
  abbrev pub Follows : (DepSpecKey → ResolutionResult) → Strategy → Type 0
  Follows choice s =
      (dep : DepSpec)
      → ((s dep ≡ make_default_strategy groups selected dep)
          × (((d : DepSpec) → ¬ Limits dep d)
              ⊎ ((d : DepSpec) × Limits dep d × (length (possible d) ≤ 1))))
        ⊎ ((s dep ≡ (choice (to_module_key dep)).version)
            × ((d : DepSpec) × Limits dep d × (1 < length (possible d))))

  Resolves-IsCandidate : (s : Strategy) → Resolves all groups selected s → IsCandidate s
  Resolves-IsCandidate s h dep = elim (h dep) [
    | inl e ↦ inl e
    | inr (r, m, e) ↦ elim (ambiguous_cases graph selected (to_module_key dep)) [
      | inl (absent, _) ↦ absurd (Memᴰ.not-nil (rw (absent, possibilities_of) at m))
      | inr (d, l, k, several, found) ↦
          inr (d, (l, k), several, (r, rw (found, possibilities_of) at m, e))
    ]
  ]

  Makes-Follows :
      (choice : DepSpecKey → ResolutionResult) (s : Strategy)
      → Makes groups selected choice all s
      → Follows choice s
  Makes-Follows choice s h dep = elim (ambiguous_cases graph selected (to_module_key dep)) [
    | inl (absent, inl n) ↦ inl ((h dep).0 absent, inl λ d (l, k). n d l k)
    | inl (absent, inr (d, l, k, few)) ↦ inl ((h dep).0 absent, inr (d, (l, k), few))
    | inr (d, l, k, several, found) ↦
        inr ((h dep).1 (mem-keys all (mem_of_lookup _ all found)), (d, (l, k), several))
  ]

  -- Every strategy resolves a dependency as the default one does, or to one of the possible results
  -- of a dependency with the same name and version that sets a maximal compatibility level and has
  -- several results. For each choice of such a result by name and version there is a strategy that
  -- makes it, and that is the default one where no dependency with that name and version sets a
  -- maximum, or one that does has at most one result.
  pub enumerate_strategies_correct :
      All IsCandidate (enumerate_strategies graph groups selected)
      × ((choice : DepSpecKey → ResolutionResult)
          → ((d : DepSpec)
              → IsLimited graph.modules d
              → 1 < length (possible d)
              → Memᴰ (choice (to_module_key d)) (possible d))
          → (s : Strategy) × Memᴰ s (enumerate_strategies graph groups selected) × Follows choice s)
  unfolding enumerate_strategies
  enumerate_strategies_correct = (
    All-imp (enumerate_strategies graph groups selected) Resolves-IsCandidate
        (strategies_for-Resolve groups selected all),
    λ choice h.
        let (s, m, makes) = strategies_for_complete groups selected choice all (λ k n.
          elim (ambiguous_cases graph selected k) [
            | inl (absent, _) ↦
                let (v, f) = lookup_of_key k all n in (let z : none ≡ some v = sym absent ∙ f in cc)
            | inr (d, l, e, several, found) ↦
                rw (found, possibilities_of)
                  (subst (λ x. Memᴰ (choice x) (possible d)) e (h d l several))
          ]) in
        (s, m, Makes-Follows choice s makes),
  )
