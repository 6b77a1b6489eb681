-- ===== src/Graph/Searching.antt =====
-- The loops of graph/query.go that search the graph: their invariant, and what they find.
use go_bzlmod.Prelude.{
  ℕ, suc, zero, ◌+◌, ◌≤◌, false, true, Bool-cases, some, List, [], ◌∷◌, List-cases, if◌then◌else◌,
  length, length-append, Distinct, Distinct-concat, contains, contains_of_mem, mem_of_contains, ◌≡◌,
  ◌≢◌, refl, sym, ap, subst, ◌↔◌, ◌⊎◌, inl, inr, ⊎_elim, Memᴰ, arith,
}
use go_bzlmod.Prelude.Memᴰ
use go_bzlmod.Prelude.Unknown.{unknown, unknown_drops, unknown-length}
use go_bzlmod.Selection.Types.{ModuleKey, key_eq}
use go_bzlmod.Graph.{Search, add_key, add_keys, search_loop, start_search}

-- The keys that `from` leads to along the edges.
pub data Leads (edges : ModuleKey → List ModuleKey) (from : ModuleKey) : ModuleKey → Type 0 where
  here : {k : ModuleKey} → k ≡ from → Leads edges from k
  step : {k j : ModuleKey} → Leads edges from k → Memᴰ j (edges k) → Leads edges from j

-- A rule for what adding the keys preserves.
add_keys_rule {κ} :
    (P : Search → Type κ) (keys : List ModuleKey) (s : Search)
    → ((t : Search) (j : ModuleKey)
        → Memᴰ j keys
        → contains t.visited j ≡ false
        → P t
        → P (add_key j t))
    → P s
    → P (add_keys keys s)
unfolding add_keys
add_keys_rule P [] s f h = h
add_keys_rule P (key ∷ keys) s f h = elim (Bool-cases (contains s.visited key)) [
  | inl c ↦ rw (c, add_keys) (add_keys_rule P keys s (λ t j m. f t j (Memᴰ.tail m)) h)
  | inr c ↦
      rw (c, add_keys)
        (add_keys_rule P keys (add_key key s) (λ t j m. f t j (Memᴰ.tail m))
          (f s key (Memᴰ.head refl) c h))
]

visited_stays :
    (keys : List ModuleKey) (s : Search) {k : ModuleKey}
    → Memᴰ k s.visited
    → Memᴰ k (add_keys keys s).visited
visited_stays keys s {k} =
    add_keys_rule (λ t. Memᴰ k t.visited) keys s (λ t j m fresh h. Memᴰ.tail h)

visited-add_keys :
    (keys : List ModuleKey) (s : Search) {k : ModuleKey}
    → Memᴰ k keys
    → Memᴰ k (add_keys keys s).visited
unfolding add_keys
visited-add_keys [] s m = elim m [ ]
visited-add_keys (key ∷ keys) s {k} m = elim (Memᴰ.cases_cons m) [
  | inr t ↦ visited-add_keys keys (if contains s.visited key then s else add_key key s) t
  | inl e ↦
      visited_stays keys (if contains s.visited key then s else add_key key s)
        (elim (Bool-cases (contains s.visited key)) [
          | inl c ↦
              rw c
                (mem_of_contains s.visited k (subst (λ x. contains s.visited x ≡ true) (sym e) c))
          | inr c ↦ rw c (Memᴰ.head e)
        ])
]

module _ (edges : ModuleKey → List ModuleKey) (from : ModuleKey) where
  -- All edges of a key lead to visited keys.
  abbrev Closed : Search → ModuleKey → Type 0
  Closed s k = (j : ModuleKey) → Memᴰ j (edges k) → Memᴰ j s.visited

  -- The invariant; the edges of the keys in `opens` are not followed yet.
  record Inv (opens : List ModuleKey) (s : Search) : Type 0 where
    distinct : Distinct s.result
    not_from : ¬ Memᴰ from s.result
    listed : (k : ModuleKey) → Memᴰ k s.visited ↔ ((k ≡ from) ⊎ Memᴰ k s.result)
    sound : (k : ModuleKey) → Memᴰ k s.visited → Leads edges from k
    queued : (k : ModuleKey) → Memᴰ k s.queue → Memᴰ k s.visited
    done : (k : ModuleKey) → Memᴰ k s.visited → Memᴰ k opens ⊎ Memᴰ k s.queue ⊎ Closed s k

  add_key-Inv :
      {opens : List ModuleKey} (s : Search) (j : ModuleKey)
      → contains s.visited j ≡ false
      → Leads edges from j
      → Inv opens s
      → Inv opens (add_key j s)
  add_key-Inv {opens} s j fresh l h =
      let new : ¬ Memᴰ j s.visited = λ m. cc (fresh, contains_of_mem s.visited j m) in
      record {
        distinct = Distinct-concat s.result j h.distinct (λ m. new ((h.listed j).1 (inr m)));
        not_from = λ m. elim (Memᴰ.append_cases s.result m) [
          | inl n ↦ h.not_from n
          | inr e ↦ new ((h.listed j).1 (inl (sym (Memᴰ.eq_of_singleton e))))
        ];
        listed = λ k. (
          λ m. elim (Memᴰ.cases_cons m) [
            | inl e ↦ inr (Memᴰ.append_right s.result (Memᴰ.head e))
            | inr t ↦ ⊎_elim inl (λ n. inr (Memᴰ.append_left (j ∷ []) n)) ((h.listed k).0 t)
          ],
          λ m. elim m [
            | inl e ↦ Memᴰ.tail ((h.listed k).1 (inl e))
            | inr n ↦ elim (Memᴰ.append_cases s.result n) [
              | inl a ↦ Memᴰ.tail ((h.listed k).1 (inr a))
              | inr e ↦ Memᴰ.head (Memᴰ.eq_of_singleton e)
            ]
          ],
        );
        sound = λ k m. elim (Memᴰ.cases_cons m) [
          | inl e ↦ subst (Leads edges from) (sym e) l
          | inr t ↦ h.sound k t
        ];
        queued = λ k m. elim (Memᴰ.append_cases s.queue m) [
          | inl q ↦ Memᴰ.tail (h.queued k q)
          | inr r ↦ Memᴰ.head (Memᴰ.eq_of_singleton r)
        ];
        done = λ k m. elim (Memᴰ.cases_cons m) [
          | inl e ↦ inr (inl (Memᴰ.append_right s.queue (Memᴰ.head e)))
          | inr t ↦ elim (h.done k t) [
            | inl o ↦ inl o
            | inr (inl q) ↦ inr (inl (Memᴰ.append_left (j ∷ []) q))
            | inr (inr c) ↦ inr (inr (λ i n. Memᴰ.tail (c i n)))
          ]
        ];
      }

  abbrev popped : Search → List ModuleKey → Search
  popped s queue = record { visited = s.visited; result = s.result; queue = queue }

  -- A round keeps the invariant.
  round-Inv :
      (s : Search) (current : ModuleKey) (queue : List ModuleKey)
      → s.queue ≡ current ∷ queue
      → Inv [] s
      → Inv [] (add_keys (edges current) (popped s queue))
  round-Inv s current queue e h =
      let t = add_keys (edges current) (popped s queue) in
      let reached : Memᴰ current s.visited =
        h.queued current (subst (Memᴰ current) (sym e) (Memᴰ.head refl)) in
      let start : Inv (current ∷ []) (popped s queue) = record {
        distinct = h.distinct;
        not_from = h.not_from;
        listed = h.listed;
        sound = h.sound;
        queued = λ k m. h.queued k (subst (Memᴰ k) (sym e) (Memᴰ.tail m));
        done = λ k m. elim (h.done k m) [
          | inl o ↦ elim o [ ]
          | inr (inl q) ↦
              ⊎_elim (λ c. inl (Memᴰ.head c)) (λ r. inr (inl r)) (Memᴰ.cases_cons (rw e at q))
          | inr (inr c) ↦ inr (inr c)
        ];
      } in
      let after : Inv (current ∷ []) t =
        add_keys_rule (Inv (current ∷ [])) (edges current) (popped s queue)
          (λ t j m fresh g. add_key-Inv t j fresh (step (h.sound current reached) m) g) start in
      record {
        distinct = after.distinct;
        not_from = after.not_from;
        listed = after.listed;
        sound = after.sound;
        queued = after.queued;
        done = λ k m. elim (after.done k m) [
          | inl o ↦ inr (
              inr (
                subst (Closed t) (sym (Memᴰ.eq_of_singleton o))
                  (λ j n. visited-add_keys (edges current) (popped s queue) n)))
          | inr r ↦ inr r
        ];
      }

  -- What a search returns: each key once, and exactly those other than the first that it leads to.
  pub record IsClosure (found : List ModuleKey) : Type 0 where
    pub distinct : Distinct found
    pub members : (k : ModuleKey) → Memᴰ k found ↔ (Leads edges from k × (k ≢ from))

  all_visited :
      (s : Search) {k : ModuleKey} → s.queue ≡ [] → Inv [] s → Leads edges from k → Memᴰ k s.visited
  all_visited s e h (here p) = (h.listed _).1 (inl p)
  all_visited s e h (step {k} {j} l m) = elim (h.done k (all_visited s e h l)) [
    | inl o ↦ elim o [ ]
    | inr (inl q) ↦ absurd (Memᴰ.not-nil (rw e at q))
    | inr (inr c) ↦ c j m
  ]

  at_end : (s : Search) → s.queue ≡ [] → Inv [] s → IsClosure s.result
  at_end s e h = record {
    distinct = h.distinct;
    members = λ k. (
      λ m. (h.sound k ((h.listed k).1 (inr m)), λ p. h.not_from (subst (λ x. Memᴰ x s.result) p m)),
      λ (l, n). ⊎_elim (λ p. absurd (n p)) (λ m. m) ((h.listed k).0 (all_visited s e h l)),
    );
  }

  module _ (us : List ModuleKey) (inside : (k j : ModuleKey) → Memᴰ j (edges k) → Memᴰ j us) where
    abbrev measure : Search → ℕ
    measure s = unknown us s.visited + length s.queue

    measure-add_keys :
        (current : ModuleKey) (s : Search) → measure (add_keys (edges current) s) ≤ measure s
    measure-add_keys current s =
        add_keys_rule (λ t. measure t ≤ measure s) (edges current) s
          (λ t j m fresh h. omega (
            arith,
            unknown_drops us t.visited j (inside current j m) fresh,
            length-append t.queue (j ∷ []),
            h,
          ))
          (omega arith)

    search_loop_ends :
        (n : ℕ) (s : Search)
        → suc (measure s) ≤ n
        → Inv [] s
        → (found : List ModuleKey) × (search_loop edges n s ≡ some found) × IsClosure found
    unfolding search_loop
    search_loop_ends zero s b h = absurd (omega (arith, b))
    search_loop_ends (suc n) s b h = elim (List-cases s.queue) [
      | inl e ↦ (s.result, rw (e, search_loop), at_end s e h)
      | inr (current, queue, e) ↦
          let t = add_keys (edges current) (popped s queue) in
          let lower : suc (measure t) ≤ n =
            omega (arith, measure-add_keys current (popped s queue), b, ap length e) in
          let (found, p, c) = search_loop_ends n t lower (round-Inv s current queue e h) in
          (found, rw (e, search_loop) p, c)
    ]

    pub search_correct :
        (n : ℕ)
        → 2 + length us ≤ n
        → (found : List ModuleKey) × (search_loop edges n (start_search from) ≡ some found)
          × IsClosure found
    search_correct n b =
        search_loop_ends n (start_search from) (omega (arith, unknown-length us (from ∷ []), b))
          (record {
            distinct = tt;
            not_from = λ m. elim m [ ];
            listed = λ k. (
              λ m. inl (Memᴰ.eq_of_singleton m),
              λ m. ⊎_elim (λ p. Memᴰ.head p) (λ e. elim e [ ]) m,
            );
            sound = λ k m. here (Memᴰ.eq_of_singleton m);
            queued = λ k m. m;
            done = λ k m. inr (inl m);
          })
