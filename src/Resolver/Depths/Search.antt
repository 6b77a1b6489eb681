-- ===== src/Resolver/Depths/Search.antt =====
-- The invariant of the search for depths in resolver.go, and what its inner loops keep.
use mathlib.Core.List.{append_assoc}
use go_bzlmod.Prelude.{
  ℕ, suc, ◌≤◌, true, not, ◌&&◌, Bool-cases, Str, none, some, Option-cases, List, [], ◌∷◌, ◌++◌,
  contains, All, All-append, All-imp, if◌then◌else◌, ==_iff, ==_cases, nat_eq, list_eq, ◌≡◌, refl,
  sym, ap, subst, ◌∙◌, ◌⊎◌, inl, inr, Memᴰ, arith,
}
use go_bzlmod.Prelude.Memᴰ
use go_bzlmod.Prelude.Maps.{Map, lookup, lookup-insert}
use go_bzlmod.Metadata.{has_value}
use go_bzlmod.Resolver.Depths.{Levels, deps_of, put_level, put_levels}

module _ (root_deps : List Str) (module_deps : Map Str (List Str)) (selected : List Str) where
  -- A path of selected modules from the root, with its length.
  pub data PathTo : Str → ℕ → Type 0 where
    direct :
        {name : Str} {n : ℕ}
        → Memᴰ name root_deps
        → contains selected name ≡ true
        → n ≡ 1
        → PathTo name n
    further :
        {name : Str} {n : ℕ} (from : Str) (m : ℕ)
        → PathTo from m
        → Memᴰ name (deps_of (lookup from module_deps))
        → contains selected name ≡ true
        → n ≡ suc m
        → PathTo name n

  abbrev pub Known : Levels → Str → ℕ → Type 0
  Known s name bound = (e : ℕ) × (lookup name s.depths ≡ some e) × (e ≤ bound)

  -- The dependencies of a module of depth `d` have their depths.
  abbrev pub Followed : Levels → Str → ℕ → Type 0
  Followed s name d =
      (c : Str)
      → Memᴰ c (deps_of (lookup name module_deps))
      → contains selected c ≡ true
      → Known s c (suc d)

  abbrev pub AtDepth : Levels → ℕ → List Str → Type 0
  AtDepth s d = All (λ x. lookup x s.depths ≡ some d)

  -- The queue has modules of depth `h`, and then of depth `suc h`; those in `opens` are looked at.
  pub record Inv (opens : List Str) (h : ℕ) (s : Levels) : Type 0 where
    pub first : List Str
    pub second : List Str
    pub splits : s.queue ≡ first ++ second
    pub first_level : AtDepth s h first
    pub second_level : AtDepth s (suc h) second
    pub low : (name : Str) (d : ℕ) → lookup name s.depths ≡ some d → d ≤ suc h
    pub sound : (name : Str) (d : ℕ) → lookup name s.depths ≡ some d → PathTo name d
    pub closed :
        (name : Str) (d : ℕ)
        → lookup name s.depths ≡ some d
        → Memᴰ name opens ⊎ Memᴰ name s.queue ⊎ Followed s name d

  lookup-put_level :
      (s : Levels) (name : Str) (depth : ℕ)
      → lookup name (put_level depth name s).depths ≡ some depth
  lookup-put_level s name depth =
      ground (arith, lookup-insert name name depth s.depths, ==_iff name name)

  put_level-stays :
      (s : Levels) (name other : Str) (depth : ℕ) {d : ℕ}
      → lookup name s.depths ≡ none
      → lookup other s.depths ≡ some d
      → lookup other (put_level depth name s).depths ≡ some d
  put_level-stays s name other depth {d} fresh h = elim (==_cases name other) [
    | inl e ↦ absurd (let z : none ≡ some d = sym fresh ∙ ap (λ n. lookup n s.depths) e ∙ h in cc)
    | inr (q, _) ↦ lookup-insert name other depth s.depths ∙ rw q h
  ]

  put_level-back :
      (s : Levels) (name other : Str) (depth d : ℕ)
      → lookup other (put_level depth name s).depths ≡ some d
      → ((other ≡ name) × (d ≡ depth)) ⊎ (lookup other s.depths ≡ some d)
  put_level-back s name other depth d h = elim (==_cases name other) [
    | inl e ↦
        let q : some depth ≡ some d =
          sym (lookup-put_level s name depth)
          ∙ ap (λ n. lookup n (put_level depth name s).depths) e
          ∙ h in
        inl (sym e, (let r : d ≡ depth = cc in r))
    | inr (q, _) ↦ inr (sym (lookup-insert name other depth s.depths ∙ rw q) ∙ h)
  ]

  put_level-Inv :
      (opens : List Str) (h : ℕ) (s : Levels) (name : Str)
      → lookup name s.depths ≡ none
      → PathTo name (suc h)
      → Inv opens h s
      → Inv opens h (put_level (suc h) name s)
  put_level-Inv opens h s name fresh p i = record {
    first = i.first;
    second = i.second ++ name ∷ [];
    splits = ap (λ q. q ++ name ∷ []) i.splits ∙ append_assoc i.first i.second (name ∷ []);
    first_level = All-imp i.first (λ x e. put_level-stays s name x (suc h) fresh e) i.first_level;
    second_level =
        All-append _ i.second (name ∷ [])
          (All-imp i.second (λ x e. put_level-stays s name x (suc h) fresh e) i.second_level)
          (lookup-put_level s name (suc h), tt);
    low = λ x d e. elim (put_level-back s name x (suc h) d e) [
      | inl (_, q) ↦ omega arith
      | inr o ↦ i.low x d o
    ];
    sound = λ x d e. elim (put_level-back s name x (suc h) d e) [
      | inl (q, r) ↦ subst (λ y. PathTo y d) (sym q) (subst (PathTo name) (sym r) p)
      | inr o ↦ i.sound x d o
    ];
    closed = λ x d e. elim (put_level-back s name x (suc h) d e) [
      | inl (q, _) ↦ inr (inl (Memᴰ.append_right s.queue (Memᴰ.head q)))
      | inr o ↦ elim (i.closed x d o) [
        | inl m ↦ inl m
        | inr (inl m) ↦ inr (inl (Memᴰ.append_left (name ∷ []) m))
        | inr (inr f) ↦ inr (
            inr (λ c m t.
              let (y, a, b) = f c m t in (y, put_level-stays s name c (suc h) fresh a, b)))
      ]
    ];
  }

  -- One dependency of a loop.
  abbrev put_if : ℕ → Str → Levels → Levels
  put_if depth name s =
      if contains selected name && not (has_value (lookup name s.depths))
      then put_level depth name s
      else s

  put_if-Inv :
      (opens : List Str) (h : ℕ) (s : Levels) (name : Str)
      → (contains selected name ≡ true → PathTo name (suc h))
      → Inv opens h s
      → Inv opens h (put_if (suc h) name s)
  put_if-Inv opens h s name p i = elim (Bool-cases (contains selected name)) [
    | inr c ↦ rw c i
    | inl c ↦ elim (Option-cases (lookup name s.depths)) [
      | inl f ↦ rw (c, f) (put_level-Inv opens h s name f (p c) i)
      | inr (d, f) ↦ rw (c, f) i
    ]
  ]

  put_if-stays :
      (s : Levels) (name other : Str) (depth : ℕ) {d : ℕ}
      → lookup other s.depths ≡ some d
      → lookup other (put_if depth name s).depths ≡ some d
  put_if-stays s name other depth e = elim (Bool-cases (contains selected name)) [
    | inr c ↦ rw c e
    | inl c ↦ elim (Option-cases (lookup name s.depths)) [
      | inl f ↦ rw (c, f) (put_level-stays s name other depth f e)
      | inr (d, f) ↦ rw (c, f) e
    ]
  ]

  put_if-known :
      (s : Levels) (name : Str) (depth : ℕ)
      → contains selected name ≡ true
      → (d : ℕ) × (lookup name (put_if depth name s).depths ≡ some d)
  put_if-known s name depth c = elim (Option-cases (lookup name s.depths)) [
    | inl f ↦ rw (c, f) (depth, lookup-put_level s name depth)
    | inr (d, f) ↦ (d, rw (c, f) f)
  ]

  pub put_levels-Inv :
      (opens : List Str) (h : ℕ) (names : List Str) (s : Levels)
      → ((name : Str) → Memᴰ name names → contains selected name ≡ true → PathTo name (suc h))
      → Inv opens h s
      → Inv opens h (put_levels selected (suc h) names s)
  unfolding put_levels
  put_levels-Inv opens h [] s p i = i
  put_levels-Inv opens h (name ∷ names) s p i =
      put_levels-Inv opens h names (put_if (suc h) name s) (λ x m. p x (Memᴰ.tail m))
        (put_if-Inv opens h s name (p name (Memᴰ.head refl)) i)

  pub put_levels-stays :
      (names : List Str) (s : Levels) (other : Str) (depth : ℕ) {d : ℕ}
      → lookup other s.depths ≡ some d
      → lookup other (put_levels selected depth names s).depths ≡ some d
  unfolding put_levels
  put_levels-stays [] s other depth e = e
  put_levels-stays (name ∷ names) s other depth e =
      put_levels-stays names (put_if depth name s) other depth (put_if-stays s name other depth e)

  pub put_levels-known :
      (names : List Str) (s : Levels) (other : Str) (depth : ℕ)
      → Memᴰ other names
      → contains selected other ≡ true
      → (d : ℕ) × (lookup other (put_levels selected depth names s).depths ≡ some d)
  unfolding put_levels
  put_levels-known [] s other depth m c = elim m [ ]
  put_levels-known (name ∷ names) s other depth m c = elim (Memᴰ.cases_cons m) [
    | inl e ↦
        let (d, k) = put_if-known s name depth (subst (λ x. contains selected x ≡ true) e c) in
        (
          d,
          subst
              (λ x.
                lookup x (put_levels selected depth names (put_if depth name s)).depths ≡ some d)
              (sym e) (put_levels-stays names (put_if depth name s) name depth k),
        )
    | inr t ↦ put_levels-known names (put_if depth name s) other depth t c
  ]
