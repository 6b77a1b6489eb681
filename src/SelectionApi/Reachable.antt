-- ===== src/SelectionApi/Reachable.antt =====
-- `computeReachableKeys` of selection_api.go finds the keys that the starts lead to.
use go_bzlmod.Prelude.{
  ℕ, suc, zero, ◌+◌, ◌≤◌, Bool-cases, Option-cases, List, [], ◌∷◌, ◌++◌, map, List-cases, length,
  length-append, contains, mem_of_contains, if◌then◌else◌, ◌≡◌, refl, sym, ap, subst, ◌↔◌, ◌⊎◌, inl,
  inr, Memᴰ, arith,
}
use go_bzlmod.Prelude.Memᴰ
use go_bzlmod.Prelude.Maps.{Map, lookup, mem_of_lookup}
use go_bzlmod.Prelude.Unknown.{unknown, unknown_drops, unknown-length}
use go_bzlmod.Selection.Types.{ModuleKey, key_eq, to_module_key, Module}
use go_bzlmod.SelectionApi.{
  Reach, put_key, put_keys, dep_keys, reach_loop, all_dep_keys, compute_reachable_keys,
}

mem-all_dep_keys :
    (graph : Map ModuleKey Module) {key : ModuleKey} {m : Module} {k : ModuleKey}
    → Memᴰ (key, m) graph
    → Memᴰ k (map to_module_key m.deps)
    → Memᴰ k (all_dep_keys graph)
unfolding all_dep_keys
mem-all_dep_keys [] n h = elim n [ ]
mem-all_dep_keys ((j, w) ∷ rest) {key} {m} {k} n h = elim (Memᴰ.cases_cons n) [
  | inl e ↦
      Memᴰ.append_left (all_dep_keys rest) (subst (λ x. Memᴰ k (map to_module_key (x.1).deps)) e h)
  | inr t ↦ Memᴰ.append_right (map to_module_key w.deps) (mem-all_dep_keys rest t h)
]

module _ (graph : Map ModuleKey Module) (starts : List ModuleKey) where
  -- The keys that the starts lead to along the dependencies.
  pub data ReachedFrom : ModuleKey → Type 0 where
    start : {key : ModuleKey} → Memᴰ key starts → ReachedFrom key
    step :
        {key from : ModuleKey}
        → ReachedFrom from
        → Memᴰ key (dep_keys (lookup from graph))
        → ReachedFrom key

  -- The keys in `opens` are looked at.
  record Inv (opens : List ModuleKey) (s : Reach) : Type 0 where
    sound : (key : ModuleKey) → Memᴰ key s.reachable → ReachedFrom key
    queued : (key : ModuleKey) → Memᴰ key s.queue → Memᴰ key s.reachable
    closed :
        (key : ModuleKey)
        → Memᴰ key s.reachable
        → Memᴰ key opens
          ⊎ Memᴰ key s.queue
          ⊎ ((j : ModuleKey) → Memᴰ j (dep_keys (lookup key graph)) → Memᴰ j s.reachable)

  put_key-Inv :
      (opens : List ModuleKey) (key : ModuleKey) (s : Reach)
      → ReachedFrom key
      → Inv opens s
      → Inv opens (put_key key s)
  put_key-Inv opens key s r i = record {
    sound = λ k m. elim (Memᴰ.cases_cons m) [
      | inl e ↦ subst ReachedFrom (sym e) r
      | inr t ↦ i.sound k t
    ];
    queued = λ k m. elim (Memᴰ.append_cases s.queue m) [
      | inl q ↦ Memᴰ.tail (i.queued k q)
      | inr e ↦ Memᴰ.head (Memᴰ.eq_of_singleton e)
    ];
    closed = λ k m. elim (Memᴰ.cases_cons m) [
      | inl e ↦ inr (inl (Memᴰ.append_right s.queue (Memᴰ.head e)))
      | inr t ↦ elim (i.closed k t) [
        | inl o ↦ inl o
        | inr (inl q) ↦ inr (inl (Memᴰ.append_left (key ∷ []) q))
        | inr (inr f) ↦ inr (inr (λ j n. Memᴰ.tail (f j n)))
      ]
    ];
  }

  put_keys-Inv :
      (opens keys : List ModuleKey) (s : Reach)
      → ((key : ModuleKey) → Memᴰ key keys → ReachedFrom key)
      → Inv opens s
      → Inv opens (put_keys keys s)
  unfolding put_keys
  put_keys-Inv opens [] s r i = i
  put_keys-Inv opens (key ∷ keys) s r i = elim (Bool-cases (contains s.reachable key)) [
    | inl c ↦ rw (c, put_keys) (put_keys-Inv opens keys s (λ k m. r k (Memᴰ.tail m)) i)
    | inr c ↦
        rw (c, put_keys)
          (put_keys-Inv opens keys (put_key key s) (λ k m. r k (Memᴰ.tail m))
            (put_key-Inv opens key s (r key (Memᴰ.head refl)) i))
  ]

  put_keys-stays :
      (keys : List ModuleKey) (s : Reach) {k : ModuleKey}
      → Memᴰ k s.reachable
      → Memᴰ k (put_keys keys s).reachable
  unfolding put_keys
  put_keys-stays [] s m = m
  put_keys-stays (key ∷ keys) s m = elim (Bool-cases (contains s.reachable key)) [
    | inl c ↦ rw (c, put_keys) (put_keys-stays keys s m)
    | inr c ↦ rw (c, put_keys) (put_keys-stays keys (put_key key s) (Memᴰ.tail m))
  ]

  mem-put_keys :
      (keys : List ModuleKey) (s : Reach) {k : ModuleKey}
      → Memᴰ k keys
      → Memᴰ k (put_keys keys s).reachable
  unfolding put_keys
  mem-put_keys [] s m = elim m [ ]
  mem-put_keys (key ∷ keys) s {k} m = elim (Memᴰ.cases_cons m) [
    | inr t ↦ mem-put_keys keys (if contains s.reachable key then s else put_key key s) t
    | inl e ↦ elim (Bool-cases (contains s.reachable key)) [
      | inl c ↦
          rw (c, put_keys)
            (put_keys-stays keys s
              (subst (λ x. Memᴰ x s.reachable) (sym e) (mem_of_contains s.reachable key c)))
      | inr c ↦ rw (c, put_keys) (put_keys-stays keys (put_key key s) (Memᴰ.head e))
    ]
  ]

  abbrev us : List ModuleKey
  us = starts ++ all_dep_keys graph

  abbrev work : Reach → ℕ
  work s = length s.queue + unknown us s.reachable

  put_keys-work :
      (keys : List ModuleKey) (s : Reach)
      → ((key : ModuleKey) → Memᴰ key keys → Memᴰ key us)
      → work (put_keys keys s) ≤ work s
  unfolding put_keys
  put_keys-work [] s h = omega arith
  put_keys-work (key ∷ keys) s h = elim (Bool-cases (contains s.reachable key)) [
    | inl c ↦ rw (c, put_keys) (put_keys-work keys s (λ k m. h k (Memᴰ.tail m)))
    | inr c ↦
        rw (c, put_keys)
          (omega (
            arith,
            put_keys-work keys (put_key key s) (λ k m. h k (Memᴰ.tail m)),
            length-append s.queue (key ∷ []),
            unknown_drops us s.reachable key (h key (Memᴰ.head refl)) c,
          ))
  ]

  dep_keys-us : (key : ModuleKey) {k : ModuleKey} → Memᴰ k (dep_keys (lookup key graph)) → Memᴰ k us
  dep_keys-us key {k} m = elim (Option-cases (lookup key graph)) [
    | inl e ↦ elim (subst (λ x. Memᴰ k (dep_keys x)) e m) [ ]
    | inr (n, e) ↦
        Memᴰ.append_right starts (
          mem-all_dep_keys graph (mem_of_lookup key graph e) (subst (λ x. Memᴰ k (dep_keys x)) e m))
  ]

  pop-Inv :
      (s : Reach) (key : ModuleKey) (rest : List ModuleKey)
      → s.queue ≡ key ∷ rest
      → Inv [] s
      → Inv (key ∷ []) (record { reachable = s.reachable; queue = rest })
  pop-Inv s key rest e i = record {
    sound = i.sound;
    queued = λ k m. i.queued k (subst (Memᴰ k) (sym e) (Memᴰ.tail m));
    closed = λ k m. elim (i.closed k m) [
      | inl o ↦ elim o [ ]
      | inr (inl q) ↦ elim (Memᴰ.cases_cons (subst (Memᴰ k) e q)) [
        | inl p ↦ inl (Memᴰ.head p)
        | inr t ↦ inr (inl t)
      ]
      | inr (inr f) ↦ inr (inr f)
    ];
  }

  step-Inv :
      (s : Reach) (key : ModuleKey)
      → ReachedFrom key
      → Inv (key ∷ []) s
      → Inv [] (put_keys (dep_keys (lookup key graph)) s)
  step-Inv s key r i =
      let keys : List ModuleKey = dep_keys (lookup key graph) in
      let t : Reach = put_keys keys s in
      let j = put_keys-Inv (key ∷ []) keys s (λ k m. ReachedFrom.step r m) i in
      record {
        sound = j.sound;
        queued = j.queued;
        closed = λ k m. elim (j.closed k m) [
          | inl o ↦
              let e : k ≡ key = Memᴰ.eq_of_singleton o in
              inr (
                inr (λ x n.
                  mem-put_keys keys s (subst (λ y. Memᴰ x (dep_keys (lookup y graph))) e n)))
          | inr c ↦ inr c
        ];
      }

  -- The loop ends with no key in the queue.
  reach_loop-Inv :
      (fuel : ℕ) (s : Reach)
      → work s ≤ fuel
      → Inv [] s
      → Inv [] (reach_loop graph fuel s) × ((reach_loop graph fuel s).queue ≡ [])
  unfolding reach_loop
  reach_loop-Inv zero s b i = elim (List-cases s.queue) [
    | inl e ↦ (i, e)
    | inr (x, rest, e) ↦
        absurd (let l : length s.queue ≡ suc (length rest) = ap length e in omega arith)
  ]
  reach_loop-Inv (suc fuel) s b i = elim (List-cases s.queue) [
    | inl e ↦ rw (e, reach_loop) (i, e)
    | inr (key, rest, e) ↦
        let popped : Reach = record { reachable = s.reachable; queue = rest } in
        let l : length s.queue ≡ suc (length rest) = ap length e in
        let q : Memᴰ key s.queue = subst (Memᴰ key) (sym e) (Memᴰ.head refl) in
        rw (e, reach_loop)
          (reach_loop-Inv fuel (put_keys (dep_keys (lookup key graph)) popped)
            (omega (
              arith,
              put_keys-work (dep_keys (lookup key graph)) popped (λ k m. dep_keys-us key m),
            ))
            (step-Inv popped key (i.sound key (i.queued key q)) (pop-Inv s key rest e i)))
  ]

  reach_loop-stays :
      (fuel : ℕ) (s : Reach) {k : ModuleKey}
      → Memᴰ k s.reachable
      → Memᴰ k (reach_loop graph fuel s).reachable
  unfolding reach_loop
  reach_loop-stays zero s m = m
  reach_loop-stays (suc fuel) s m = elim (List-cases s.queue) [
    | inl e ↦ rw (e, reach_loop) m
    | inr (key, rest, e) ↦
        rw (e, reach_loop)
          (reach_loop-stays fuel _ (
            put_keys-stays (dep_keys (lookup key graph))
              (record { reachable = s.reachable; queue = rest }) m))
  ]

  abbrev empty : Reach
  empty = record { reachable = []; queue = [] }

  empty-Inv : Inv [] empty
  empty-Inv = record {
    sound = λ k m. elim m [ ];
    queued = λ k m. elim m [ ];
    closed = λ k m. elim m [ ];
  }

  -- The keys that are found are exactly those that the starts lead to along the dependencies of the
  -- graph.
  pub compute_reachable_keys-ReachedFrom :
      (key : ModuleKey) → Memᴰ key (compute_reachable_keys graph starts) ↔ ReachedFrom key
  unfolding compute_reachable_keys
  compute_reachable_keys-ReachedFrom key = (λ m. over.0.sound key m, complete key)
    where
      over :
          Inv [] (reach_loop graph (length us) (put_keys starts empty))
          × ((reach_loop graph (length us) (put_keys starts empty)).queue ≡ [])
      over =
          reach_loop-Inv (length us) (put_keys starts empty)
            (omega (
              arith,
              put_keys-work starts empty (λ k m. Memᴰ.append_left (all_dep_keys graph) m),
              unknown-length us [],
            ))
            (put_keys-Inv [] starts empty (λ k m. ReachedFrom.start m) empty-Inv)

      complete :
          (k : ModuleKey)
          → ReachedFrom k
          → Memᴰ k (reach_loop graph (length us) (put_keys starts empty)).reachable
      complete k (ReachedFrom.start m) =
          reach_loop-stays (length us) (put_keys starts empty) (mem-put_keys starts empty m)
      complete k (ReachedFrom.step {from} r m) = elim (over.0.closed from (complete from r)) [
        | inl o ↦ elim o [ ]
        | inr (inl q) ↦ elim (subst (Memᴰ from) over.1 q) [ ]
        | inr (inr f) ↦ f k m
      ]
