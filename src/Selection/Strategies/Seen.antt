-- ===== src/Selection/Strategies/Seen.antt =====
-- `computeAllPossibleResolutions` of selection/selection.go: which dependencies are ambiguous.
use mathlib.Core.List.Memᴰ
use go_bzlmod.Prelude.{
  ◌<◌, ◌≤◌, none, some, List, [], ◌∷◌, All, Option-cases, Bool-cases, ==_cases, ==_iff, nat_eq,
  list_eq, ◌≡◌, refl, sym, ap, subst, ◌∙◌, inl, inr, ◌⊎◌, arith, Memᴰ, length, ltb, if◌then◌else◌,
}
use go_bzlmod.Prelude.Int.{pos, ◌≤ℤ◌, ltb_ℤ, ltb_ℤ_false}
use go_bzlmod.Prelude.Maps.{
  Map, lookup, insert, lookup-insert, lookup-insert_self, keys, IsMap, insert-IsMap, All-insert,
  All-lookup, mem-keys, mem_of_lookup,
}
use go_bzlmod.Selection.Types.{ModuleKey, key_eq, DepSpec, to_module_key, Module, DepGraph}
use go_bzlmod.Selection.Groups.{SelectedVersions}
use go_bzlmod.Selection.Strategies.{
  ResolutionResult, DepSpecKey, see_deps, see_modules, ambiguous, compute_all_possible_resolutions,
  compute_possible_resolution_results_for_one_dep_spec,
}

-- A dependency of a module of the graph that sets a maximal compatibility level.
pub record IsLimited (modules : Map ModuleKey Module) (d : DepSpec) : Type 0 where
  pub key : ModuleKey
  pub m : Module
  pub in_graph : Memᴰ (key, m) modules
  pub occurs : Memᴰ d m.deps ⊎ Memᴰ d m.nodep_deps
  pub limit : pos 0 ≤ℤ d.max_compatibility_level

abbrev see_one : DepSpec → Map DepSpecKey DepSpec → Map DepSpecKey DepSpec
see_one dep seen =
    if ltb_ℤ dep.max_compatibility_level (pos 0)
    then seen
    else elim (lookup (to_module_key dep) seen) [
      | none ↦ insert (to_module_key dep) dep seen
      | some _ ↦ seen
    ]

module _ (modules : Map ModuleKey Module) where
  abbrev IsSeen : DepSpecKey × DepSpec → Type 0
  IsSeen e = IsLimited modules e.1 × (e.0 ≡ to_module_key e.1)

  abbrev Good : Map DepSpecKey DepSpec → Type 0
  Good seen = All IsSeen seen × IsMap seen

  -- What was seen stays, and the dependencies in the list are seen if they set a maximum.
  pub record Sees (deps : List DepSpec) (seen seen' : Map DepSpecKey DepSpec) : Type 0 where
    pub good : Good seen'
    pub stays : (k : DepSpecKey) (d : DepSpec) → lookup k seen ≡ some d → lookup k seen' ≡ some d
    pub sees :
        (d : DepSpec)
        → Memᴰ d deps
        → pos 0 ≤ℤ d.max_compatibility_level
        → (d' : DepSpec) × (lookup (to_module_key d) seen' ≡ some d')

  abbrev Occurs : DepSpec → Type 0
  Occurs d = pos 0 ≤ℤ d.max_compatibility_level → IsLimited modules d

  see_one-Sees :
      (dep : DepSpec) (seen : Map DepSpecKey DepSpec)
      → Occurs dep
      → Good seen
      → Sees (dep ∷ []) seen (see_one dep seen)
  see_one-Sees dep seen o g = elim (Bool-cases (ltb_ℤ dep.max_compatibility_level (pos 0))) [
    | inl q ↦ rw q (record {
      good = g;
      stays = λ k d e. e;
      sees = λ d m l. elim (Memᴰ.cases_cons m) [
        | inl e ↦ absurd (
            let l' : pos 0 ≤ℤ dep.max_compatibility_level =
              subst (λ x. pos 0 ≤ℤ x.max_compatibility_level) e l in
            ground (arith, q, l'))
        | inr t ↦ elim t [ ]
      ];
    })
    | inr q ↦ elim (Option-cases (lookup (to_module_key dep) seen)) [
      | inr (d₀, f) ↦
          rw (q, f)
            (record {
              good = g;
              stays = λ k d e. e;
              sees = λ d m l. elim (Memᴰ.cases_cons m) [
                | inl e ↦ (d₀, ap (λ x. lookup (to_module_key x) seen) e ∙ f)
                | inr t ↦ elim t [ ]
              ];
            })
      | inl f ↦
          rw (q, f)
            (record {
              good = (
                All-insert IsSeen (to_module_key dep) dep seen
                    (o (ltb_ℤ_false dep.max_compatibility_level (pos 0) q), refl) g.0,
                insert-IsMap (to_module_key dep) dep seen g.1,
              );
              stays = λ k d e.
                  lookup-insert (to_module_key dep) k dep seen
                  ∙ elim (==_cases (to_module_key dep) k) [
                    | inl p ↦
                        absurd (let z : none ≡ some d = sym f ∙ ap (λ x. lookup x seen) p ∙ e in cc)
                    | inr (n, _) ↦ rw n e
                  ];
              sees = λ d m l. elim (Memᴰ.cases_cons m) [
                | inl e ↦ (
                  dep,
                  ap (λ x. lookup (to_module_key x) (insert (to_module_key dep) dep seen)) e
                      ∙ lookup-insert_self (to_module_key dep) dep seen,
                )
                | inr t ↦ elim t [ ]
              ];
            })
    ]
  ]

  Sees-more :
      (dep : DepSpec) (deps : List DepSpec) (seen next seen' : Map DepSpecKey DepSpec)
      → Sees (dep ∷ []) seen next
      → Sees deps next seen'
      → Sees (dep ∷ deps) seen seen'
  Sees-more dep deps seen next seen' a b = record {
    good = b.good;
    stays = λ k d e. b.stays k d (a.stays k d e);
    sees = λ d m l. elim (Memᴰ.cases_cons m) [
      | inl e ↦ let (d', f) = a.sees d (Memᴰ.head e) l in (d', b.stays _ d' f)
      | inr t ↦ b.sees d t l
    ];
  }

  see_deps-Sees :
      (deps : List DepSpec) (seen : Map DepSpecKey DepSpec)
      → ((d : DepSpec) → Memᴰ d deps → Occurs d)
      → Good seen
      → Sees deps seen (see_deps deps seen)
  unfolding see_deps
  see_deps-Sees [] seen o g = record { good = g; stays = λ k d e. e; sees = λ d m l. elim m [ ] }
  see_deps-Sees (dep ∷ deps) seen o g =
      let first = see_one-Sees dep seen (o dep (Memᴰ.head refl)) g in
      Sees-more dep deps seen (see_one dep seen) (see_deps deps (see_one dep seen)) first
        (see_deps-Sees deps (see_one dep seen) (λ d m. o d (Memᴰ.tail m)) first.good)

  -- Every limited dependency of the modules is seen.
  pub record SeesAll (rest : Map ModuleKey Module) (seen seen' : Map DepSpecKey DepSpec)
      : Type 0 where
    pub good : Good seen'
    pub stays : (k : DepSpecKey) (d : DepSpec) → lookup k seen ≡ some d → lookup k seen' ≡ some d
    pub sees :
        (d : DepSpec)
        → IsLimited rest d
        → (d' : DepSpec) × (lookup (to_module_key d) seen' ≡ some d')

  see_modules-SeesAll :
      (rest : Map ModuleKey Module) (seen : Map DepSpecKey DepSpec)
      → ((key : ModuleKey) (m : Module) → Memᴰ (key, m) rest → Memᴰ (key, m) modules)
      → Good seen
      → SeesAll rest seen (see_modules rest seen)
  unfolding see_modules
  see_modules-SeesAll [] seen o g = record {
    good = g;
    stays = λ k d e. e;
    sees = λ d l. elim l.in_graph [ ];
  }
  see_modules-SeesAll ((key, m) ∷ rest) seen o g =
      let this : Memᴰ (key, m) modules = o key m (Memᴰ.head refl) in
      let a =
        see_deps-Sees m.deps seen
          (λ d i l. record { key = key; m = m; in_graph = this; occurs = inl i; limit = l }) g in
      let b =
        see_deps-Sees m.nodep_deps (see_deps m.deps seen)
          (λ d i l. record { key = key; m = m; in_graph = this; occurs = inr i; limit = l })
          a.good in
      let c =
        see_modules-SeesAll rest (see_deps m.nodep_deps (see_deps m.deps seen))
          (λ k n i. o k n (Memᴰ.tail i)) b.good in
      record {
        good = c.good;
        stays = λ k d e. c.stays k d (b.stays k d (a.stays k d e));
        sees = λ d l. elim (Memᴰ.cases_cons l.in_graph) [
          | inr t ↦
              c.sees d
                (record { key = l.key; m = l.m; in_graph = t; occurs = l.occurs; limit = l.limit })
          | inl p ↦
              let q : l.m ≡ m = ap (λ x. x.1) p in
              elim (subst (λ x. Memᴰ d x.deps ⊎ Memᴰ d x.nodep_deps) q l.occurs) [
                | inl i ↦ let (d', f) = a.sees d i l.limit in (d', c.stays _ d' (b.stays _ d' f))
                | inr i ↦ let (d', f) = b.sees d i l.limit in (d', c.stays _ d' f)
              ]
        ];
      }

module _ (graph : DepGraph) (selected : SelectedVersions) where
  abbrev possible : DepSpec → List ResolutionResult
  possible d = compute_possible_resolution_results_for_one_dep_spec d graph selected

  keys-ambiguous :
      (seen : Map DepSpecKey DepSpec) {k : DepSpecKey}
      → Memᴰ k (keys (ambiguous graph selected seen))
      → Memᴰ k (keys seen)
  unfolding ambiguous
  keys-ambiguous [] m = m
  keys-ambiguous ((key, dep) ∷ rest) m = elim (Bool-cases (ltb 1 (length (possible dep)))) [
    | inl q ↦ elim (Memᴰ.cases_cons (rw q at m)) [
      | inl e ↦ Memᴰ.head e
      | inr t ↦ Memᴰ.tail (keys-ambiguous rest t)
    ]
    | inr q ↦ Memᴰ.tail (keys-ambiguous rest (rw q at m))
  ]

  none_of_absent :
      (k : DepSpecKey) (m : Map DepSpecKey (List ResolutionResult))
      → ¬ Memᴰ k (keys m)
      → lookup k m ≡ none
  none_of_absent k m n = elim (Option-cases (lookup k m)) [
    | inl e ↦ e
    | inr (v, e) ↦ absurd (n (mem-keys m (mem_of_lookup k m e)))
  ]

  lookup-ambiguous :
      (seen : Map DepSpecKey DepSpec) (k : DepSpecKey)
      → IsMap seen
      → ((lookup k (ambiguous graph selected seen) ≡ none)
          × ((d : DepSpec) → lookup k seen ≡ some d → length (possible d) ≤ 1))
        ⊎ ((d : DepSpec) × (lookup k seen ≡ some d)
            × (1 < length (possible d))
            × (lookup k (ambiguous graph selected seen) ≡ some (possible d)))
  unfolding ambiguous
  lookup-ambiguous [] k u = inl (refl, λ d e. cc)
  lookup-ambiguous ((key, dep) ∷ rest) k u = elim (Bool-cases (ltb 1 (length (possible dep)))) [
    | inl q ↦ elim (==_cases key k) [
      | inl e ↦
          inr
            (dep, rw ((==_iff key k).1 e) refl, ground (arith, q), rw (q, (==_iff key k).1 e) refl)
      | inr (n, _) ↦ rw (q, n) (lookup-ambiguous rest k u.1)
    ]
    | inr q ↦ elim (==_cases key k) [
      | inl e ↦ inl (
        rw q (
            none_of_absent k (ambiguous graph selected rest)
              (λ m. u.0 (subst (λ x. Memᴰ x (keys rest)) (sym e) (keys-ambiguous rest m)))),
        λ d f.
            (let z : some dep ≡ some d = rw ((==_iff key k).1 e) at f in
              let w : dep ≡ d = cc in subst (λ x. length (possible x) ≤ 1) w (ground (arith, q))),
      )
      | inr (n, _) ↦ rw (q, n) (lookup-ambiguous rest k u.1)
    ]
  ]

  -- The ambiguous dependencies are limited ones with several results, and no others; for a key that
  -- several limited dependencies have, the one that is met first counts.
  pub ambiguous_cases :
      (k : DepSpecKey)
      → let all = compute_all_possible_resolutions graph selected in
        ((lookup k all ≡ none)
          × (((d : DepSpec) → IsLimited graph.modules d → to_module_key d ≡ k → ⊥)
              ⊎ ((d : DepSpec) × IsLimited graph.modules d
                  × (to_module_key d ≡ k)
                  × (length (possible d) ≤ 1))))
        ⊎ ((d : DepSpec) × IsLimited graph.modules d
            × (to_module_key d ≡ k)
            × (1 < length (possible d))
            × (lookup k all ≡ some (possible d)))
  unfolding compute_all_possible_resolutions
  ambiguous_cases k =
      let s = see_modules-SeesAll graph.modules graph.modules [] (λ key m i. i) (tt, tt) in
      let seen = see_modules graph.modules [] in
      elim (lookup-ambiguous seen k s.good.1) [
        | inr (d, f, l, e) ↦
            let (lim, p) = All-lookup (IsSeen graph.modules) k seen s.good.0 f in
            inr (d, lim, sym p, l, e)
        | inl (e, h) ↦ elim (Option-cases (lookup k seen)) [
          | inl f ↦ inl (
            e,
            inl λ d lim p.
                (let (d', g) = s.sees d lim in
                  let z : none ≡ some d' = sym f ∙ ap (λ x. lookup x seen) (sym p) ∙ g in cc),
          )
          | inr (d, f) ↦
              let (lim, p) = All-lookup (IsSeen graph.modules) k seen s.good.0 f in
              inl (e, inr (d, lim, sym p, h d f))
        ]
      ]
