-- ===== src/Resolver/Depths/Shortest.antt =====
-- The depths of resolver.go are the lengths of shortest paths.
use mathlib.Core.List.{append-nil}
use go_bzlmod.Prelude.{
  ℕ, suc, zero, ◌+◌, ◌≤◌, Bool-cases, Str, none, some, Option-cases, List, [], ◌∷◌, ◌++◌,
  List-cases, length, length-append, contains, mem_of_contains, if◌then◌else◌, ==_iff, ==_cases,
  nat_eq, list_eq, ◌≡◌, refl, sym, ap, subst, ◌∙◌, ◌↔◌, ◌⊎◌, inl, inr, Memᴰ, arith,
}
use go_bzlmod.Prelude.Memᴰ
use go_bzlmod.Prelude.Maps.{Map, lookup, insert, lookup-insert}
use go_bzlmod.Metadata.{has_value}
use go_bzlmod.Resolver.Depths.{
  Levels, deps_of, depth_of, put_level, put_levels, depth_loop, calculate_module_depths,
}
use go_bzlmod.Resolver.Depths.Search.{
  PathTo, Known, Followed, AtDepth, Inv, put_levels-Inv, put_levels-stays, put_levels-known,
}

-- How many of some names have no depth yet.
abbrev unseen : Map Str ℕ → List Str → ℕ
unseen depths [] = 0
unseen depths (u ∷ us) =
    if has_value (lookup u depths) then unseen depths us else suc (unseen depths us)

unseen-length : (depths : Map Str ℕ) (us : List Str) → unseen depths us ≤ length us
unseen-length depths [] = omega arith
unseen-length depths (u ∷ us) = ground (arith, unseen-length depths us)

unseen-insert_any :
    (depths : Map Str ℕ) (name : Str) (d : ℕ) (us : List Str)
    → unseen (insert name d depths) us ≤ unseen depths us
unseen-insert_any depths name d [] = omega arith
unseen-insert_any depths name d (u ∷ us) =
    ground (arith, lookup-insert name u d depths, unseen-insert_any depths name d us)

unseen-insert :
    (depths : Map Str ℕ) (name : Str) (d : ℕ) (us : List Str)
    → Memᴰ name us
    → lookup name depths ≡ none
    → suc (unseen (insert name d depths) us) ≤ unseen depths us
unseen-insert depths name d [] m f = elim m [ ]
unseen-insert depths name d (u ∷ us) m f = elim (==_cases name u) [
  | inl e ↦
      subst (λ x. suc (unseen (insert name d depths) (x ∷ us)) ≤ unseen depths (x ∷ us)) e
        (ground (
          arith,
          lookup-insert name name d depths,
          ==_iff name name,
          unseen-insert_any depths name d us,
        ))
  | inr (q, n) ↦ elim (Memᴰ.cases_cons m) [
    | inl e ↦ absurd (n e)
    | inr t ↦ ground (arith, lookup-insert name u d depths, unseen-insert depths name d us t f)
  ]
]

module _ (root_deps : List Str) (module_deps : Map Str (List Str)) (selected : List Str) where
  abbrev work : Levels → ℕ
  work s = length s.queue + unseen s.depths selected

  put_levels-work :
      (depth : ℕ) (names : List Str) (s : Levels)
      → work (put_levels selected depth names s) ≤ work s
  unfolding put_levels
  put_levels-work depth [] s = omega arith
  put_levels-work depth (name ∷ names) s = elim (Bool-cases (contains selected name)) [
    | inr c ↦ rw (c, put_levels) (put_levels-work depth names s)
    | inl c ↦ elim (Option-cases (lookup name s.depths)) [
      | inl f ↦
          rw (c, put_levels, f)
            (omega (
              arith,
              put_levels-work depth names (put_level depth name s),
              length-append s.queue (name ∷ []),
              unseen-insert s.depths name depth selected (mem_of_contains selected name c) f,
            ))
      | inr (d, f) ↦ rw (c, put_levels, f) (put_levels-work depth names s)
    ]
  ]

  -- The queue's first module is taken: the invariant at its depth.
  pop-Inv :
      (h : ℕ) (s : Levels) (current : Str) (rest : List Str)
      → s.queue ≡ current ∷ rest
      → Inv root_deps module_deps selected [] h s
      → (d : ℕ) × (lookup current s.depths ≡ some d)
        × Inv root_deps module_deps selected
            (current ∷ [])
            d
            (record { depths = s.depths; queue = rest })
  pop-Inv h s current rest e i = elim (List-cases i.first) [
    | inl f ↦
        let q : i.second ≡ current ∷ rest = ap (λ x. x ++ i.second) (sym f) ∙ sym i.splits ∙ e in
        let l : AtDepth root_deps module_deps selected s (suc h) (current ∷ rest) =
          subst (AtDepth root_deps module_deps selected s (suc h)) q i.second_level in
        (
          suc h,
          l.0,
          record {
            first = rest;
            second = [];
            splits = sym (append-nil rest);
            first_level = l.1;
            second_level = tt;
            low = λ x d o. (let k = i.low x d o in omega arith);
            sound = i.sound;
            closed = opened;
          },
        )
    | inr (x, more, f) ↦
        let q : x ∷ (more ++ i.second) ≡ current ∷ rest =
          ap (λ y. y ++ i.second) (sym f) ∙ sym i.splits ∙ e in
        let l : AtDepth root_deps module_deps selected s h (x ∷ more) =
          subst (AtDepth root_deps module_deps selected s h) f i.first_level in
        let p : x ≡ current = cc in
        (
          h,
          subst (λ y. lookup y s.depths ≡ some h) p l.0,
          record {
            first = more;
            second = i.second;
            splits = sym (let r : more ++ i.second ≡ rest = cc in r);
            first_level = l.1;
            second_level = i.second_level;
            low = i.low;
            sound = i.sound;
            closed = opened;
          },
        )
  ]
    where
      opened :
          (name : Str) (d : ℕ)
          → lookup name s.depths ≡ some d
          → Memᴰ name (current ∷ [])
            ⊎ Memᴰ name rest
            ⊎ Followed root_deps module_deps selected s name d
      opened name d o = elim (i.closed name d o) [
        | inl m ↦ elim m [ ]
        | inr (inl m) ↦ elim (Memᴰ.cases_cons (subst (Memᴰ name) e m)) [
          | inl p ↦ inl (Memᴰ.head p)
          | inr t ↦ inr (inl t)
        ]
        | inr (inr g) ↦ inr (inr g)
      ]

  close-Inv :
      (h : ℕ) (s : Levels) (current : Str)
      → lookup current s.depths ≡ some h
      → Followed root_deps module_deps selected s current h
      → Inv root_deps module_deps selected (current ∷ []) h s
      → Inv root_deps module_deps selected [] h s
  close-Inv h s current o f i = record {
    first = i.first;
    second = i.second;
    splits = i.splits;
    first_level = i.first_level;
    second_level = i.second_level;
    low = i.low;
    sound = i.sound;
    closed = λ name d l. elim (i.closed name d l) [
      | inl m ↦
          let e : name ≡ current = Memᴰ.eq_of_singleton m in
          let q : some h ≡ some d = sym o ∙ ap (λ x. lookup x s.depths) (sym e) ∙ l in
          let r : h ≡ d = cc in
          inr (
            inr (
              subst (Followed root_deps module_deps selected s name) r
                (subst (λ x. Followed root_deps module_deps selected s x h) (sym e) f)))
      | inr x ↦ inr x
    ];
  }

  step-Inv :
      (d : ℕ) (s : Levels) (current : Str)
      → lookup current s.depths ≡ some d
      → Inv root_deps module_deps selected (current ∷ []) d s
      → Inv root_deps module_deps selected [] d
          (put_levels selected (suc d) (deps_of (lookup current module_deps)) s)
  step-Inv d s current o i =
      let deps : List Str = deps_of (lookup current module_deps) in
      let t : Levels = put_levels selected (suc d) deps s in
      let j =
        put_levels-Inv root_deps module_deps selected (current ∷ []) d deps s
          (λ name m c. PathTo.further current d (i.sound current d o) m c refl) i in
      close-Inv d t current
        (put_levels-stays root_deps module_deps selected deps s current (suc d) o)
        (λ c m k.
          let (e, f) = put_levels-known root_deps module_deps selected deps s c (suc d) m k in
          (e, f, j.low c e f))
        j

  -- What a search that is over has.
  record Over (s : Levels) : Type 0 where
    right :
        (name : Str) (d : ℕ)
        → lookup name s.depths ≡ some d
        → PathTo root_deps module_deps selected name d
    follows :
        (name : Str) (d : ℕ)
        → lookup name s.depths ≡ some d
        → Followed root_deps module_deps selected s name d

  Over-of_empty :
      (h : ℕ) (s : Levels) → s.queue ≡ [] → Inv root_deps module_deps selected [] h s → Over s
  Over-of_empty h s e i = record {
    right = i.sound;
    follows = λ name d o. elim (i.closed name d o) [
      | inl m ↦ elim m [ ]
      | inr (inl m) ↦ elim (subst (Memᴰ name) e m) [ ]
      | inr (inr f) ↦ f
    ];
  }

  depth_loop-Over :
      (fuel h : ℕ) (s : Levels)
      → work s ≤ fuel
      → Inv root_deps module_deps selected [] h s
      → Over (depth_loop module_deps selected fuel s)
  unfolding depth_loop
  depth_loop-Over zero h s b i = elim (List-cases s.queue) [
    | inl e ↦ Over-of_empty h s e i
    | inr (x, rest, e) ↦
        absurd (let l : length s.queue ≡ suc (length rest) = ap length e in omega arith)
  ]
  depth_loop-Over (suc fuel) h s b i = elim (List-cases s.queue) [
    | inl e ↦ rw (e, depth_loop) (Over-of_empty h s e i)
    | inr (current, rest, e) ↦
        let (d, o, j) = pop-Inv h s current rest e i in
        let popped : Levels = record { depths = s.depths; queue = rest } in
        let l : length s.queue ≡ suc (length rest) = ap length e in
        rw (e, depth_loop, o)
          (depth_loop-Over fuel d
            (put_levels selected (suc d) (deps_of (lookup current module_deps)) popped)
            (omega (arith, put_levels-work (suc d) (deps_of (lookup current module_deps)) popped))
            (step-Inv d popped current o j))
  ]

  depth_loop-stays :
      (fuel : ℕ) (s : Levels) (name : Str) {d : ℕ}
      → lookup name s.depths ≡ some d
      → lookup name (depth_loop module_deps selected fuel s).depths ≡ some d
  unfolding depth_loop
  depth_loop-stays zero s name o = o
  depth_loop-stays (suc fuel) s name o = elim (List-cases s.queue) [
    | inl e ↦ rw (e, depth_loop) o
    | inr (current, rest, e) ↦
        rw (e, depth_loop)
          (depth_loop-stays fuel _ name (
            put_levels-stays root_deps module_deps selected (deps_of (lookup current module_deps))
              (record { depths = s.depths; queue = rest }) name
              (suc (depth_of (lookup current s.depths))) o))
  ]

  abbrev empty : Levels
  empty = record { depths = []; queue = [] }

  start-Inv : Inv root_deps module_deps selected [] 0 empty
  start-Inv = record {
    first = [];
    second = [];
    splits = refl;
    first_level = tt;
    second_level = tt;
    low = λ name d o. absurd (let q : none ≡ some d = o in cc);
    sound = λ name d o. absurd (let q : none ≡ some d = o in cc);
    closed = λ name d o. absurd (let q : none ≡ some d = o in cc);
  }

  abbrev first_level : Levels
  first_level = put_levels selected 1 root_deps empty

  abbrev last : Levels
  last = depth_loop module_deps selected (length selected) first_level

  first_level-Inv : Inv root_deps module_deps selected [] 0 first_level
  first_level-Inv =
      put_levels-Inv root_deps module_deps selected [] 0 root_deps empty
        (λ name m c. PathTo.direct m c refl) start-Inv

  last-Over : Over last
  last-Over =
      depth_loop-Over (length selected) 0 first_level
        (omega (arith, put_levels-work 1 root_deps empty, unseen-length [] selected))
        first_level-Inv

  Known-of_path :
      (name : Str) (n : ℕ)
      → PathTo root_deps module_deps selected name n
      → Known root_deps module_deps selected last name n
  Known-of_path name n (PathTo.direct m c e) =
      let (d, o) = put_levels-known root_deps module_deps selected root_deps empty name 1 m c in
      (
        d,
        depth_loop-stays (length selected) first_level name o,
        (let k = first_level-Inv.low name d o in omega arith),
      )
  Known-of_path name n (PathTo.further from j p m c e) =
      let (d, o, l) = Known-of_path from j p in
      let (x, y, z) = last-Over.follows from d o name m c in (x, y, omega arith)

  -- A selected module gets a depth if and only if the root leads to it over selected modules, and the
  -- depth is the length of a shortest such path, where the root's own dependencies have length 1.
  pub calculate_module_depths-shortest :
      (name : Str) (d : ℕ)
      → (lookup name (calculate_module_depths root_deps module_deps selected) ≡ some d) ↔ (
          PathTo root_deps module_deps selected name d
          × ((n : ℕ) → PathTo root_deps module_deps selected name n → d ≤ n))
  unfolding calculate_module_depths
  calculate_module_depths-shortest name d = (
    λ o. (
      last-Over.right name d o,
      λ n p.
          let (e, f, l) = Known-of_path name n p in
          let q : some d ≡ some e = sym o ∙ f in let r : d ≡ e = cc in omega arith,
    ),
    λ (p, least).
        let (e, f, l) = Known-of_path name d p in
        let k = least e (last-Over.right name e f) in let q : e ≡ d = omega arith in f ∙ ap some q,
  )
