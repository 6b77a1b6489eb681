-- ===== src/Discovery/Progress.antt =====
-- The discovery of selection_api.go ends: a measure that every step lowers, when the root leads to
-- finitely many keys, and a step of every state that is not done.
use go_bzlmod.Prelude.{
  ℕ, suc, zero, ◌+◌, ◌≤◌, false, Bool-cases, Option, none, some, Result, ok, err, Result-cases,
  List, [], ◌∷◌, ◌++◌, contains, length, length-append, ◌≡◌, refl, sym, ap, subst, ◌∙◌, ◌⊎◌, inl,
  inr, ==_iff, ==_cases, Memᴰ, arith, if◌then◌else◌, List-cases,
}
use go_bzlmod.Prelude.Memᴰ
use go_bzlmod.Selection.Types.{ModuleKey, key_eq, DepSpec, to_module_key, Module}
use go_bzlmod.Modules.{ModuleInfo}
use go_bzlmod.Discovery.{
  FetchFailure, not_found, failed, Sources, Target, local_module, placeholder, from_registry,
  target_key, target, Discovery, unvisited, start, add_module, visit, with_queue, with_fetching,
  Step, Run, take, finish, abandon, begin, next, take_target, end_fetch, module_of,
  placeholder_module, IsDone,
}
use go_bzlmod.Discovery.Keys.{target_idem}
use go_bzlmod.Discovery.Spec.{target_outcome, fetch_outcome, local_outcome, Leads}
use go_bzlmod.Discovery.Invariant.{Inv}
use go_bzlmod.Discovery.Complete.{Run-Inv}

length-unvisited :
    (visited : List ModuleKey) (ds : List DepSpec) → length (unvisited visited ds) ≤ length ds
unfolding unvisited
length-unvisited visited [] = omega arith
length-unvisited visited (d ∷ ds) = elim (Bool-cases (contains visited (to_module_key d))) [
  | inl h ↦ rw (h, unvisited) (omega (arith, length-unvisited visited ds))
  | inr h ↦ rw (h, unvisited) (omega (arith, length-unvisited visited ds))
]

abbrev pub dep_count : Module → ℕ
dep_count m = length m.deps + length m.nodep_deps

unvisited_both-length :
    (visited : List ModuleKey) (m : Module)
    → length (unvisited visited m.deps ++ unvisited visited m.nodep_deps) ≤ dep_count m
unvisited_both-length visited m = omega (
  arith,
  length-append (unvisited visited m.deps) (unvisited visited m.nodep_deps),
  length-unvisited visited m.deps,
  length-unvisited visited m.nodep_deps,
)

module _ {Error : Type 0} (w : Sources Error) where
  abbrev pub outcome_size : Result Error (Option Module) → ℕ
  outcome_size (ok (some m)) = dep_count m
  outcome_size (ok none) = 0
  outcome_size (err e) = 0

  -- The steps that a fetch and what it puts in the queue still take.
  abbrev pub fetch_weight : ModuleKey → ℕ
  fetch_weight key = suc (outcome_size (target_outcome w (target w key)))

  -- The same for the keys in a list that are not visited.
  unfoldable pub open_weight : List ModuleKey → List ModuleKey → ℕ
  open_weight visited [] = 0
  open_weight visited (k ∷ ks) =
      (if contains visited k then 0 else suc (fetch_weight k)) + open_weight visited ks

  unfoldable pub fetching_weight : List ModuleKey → ℕ
  fetching_weight [] = 0
  fetching_weight (k ∷ ks) = fetch_weight k + fetching_weight ks

  -- A bound of the steps that are left, for a list of all the keys.
  abbrev pub steps_left : List ModuleKey → Discovery Error → ℕ
  steps_left ks s = open_weight s.visited ks + fetching_weight s.fetching + length s.queue

  open_weight-visit_any :
      (visited : List ModuleKey) (key : ModuleKey) (ks : List ModuleKey)
      → open_weight (key ∷ visited) ks ≤ open_weight visited ks
  unfolding open_weight
  open_weight-visit_any visited key [] = omega arith
  open_weight-visit_any visited key (k ∷ ks) = ground (arith, open_weight-visit_any visited key ks)

  open_weight-visit :
      (visited : List ModuleKey) (key : ModuleKey) (ks : List ModuleKey)
      → contains visited key ≡ false
      → Memᴰ key ks
      → open_weight (key ∷ visited) ks + suc (fetch_weight key) ≤ open_weight visited ks
  unfolding open_weight
  open_weight-visit visited key [] c m = elim m [ ]
  open_weight-visit visited key (k ∷ ks) c m = elim (==_cases key k) [
    | inl e ↦
        subst
          (λ j.
            open_weight (key ∷ visited) (j ∷ ks) + suc (fetch_weight key)
            ≤ open_weight visited (j ∷ ks))
          e
          (rw ((==_iff key key).1 refl, c, open_weight)
            (omega (arith, open_weight-visit_any visited key ks)))
    | inr (q, n) ↦ elim (Memᴰ.cases_cons m) [
      | inl e ↦ absurd (n e)
      | inr t ↦ rw (q, open_weight) (omega (arith, open_weight-visit visited key ks c t))
    ]
  ]

  fetching_weight-middle :
      (before : List ModuleKey) (key : ModuleKey) (after : List ModuleKey)
      → fetching_weight (before ++ key ∷ after)
        ≡ fetch_weight key + fetching_weight (before ++ after)
  unfolding fetching_weight
  fetching_weight-middle [] key after = refl
  fetching_weight-middle (k ∷ ks) key after = omega (arith, fetching_weight-middle ks key after)

  add_module-steps_left :
      (ks : List ModuleKey) (key : ModuleKey) (m : Module) (s : Discovery Error)
      → steps_left ks (add_module w key m s) ≤ steps_left ks s + dep_count m
  add_module-steps_left ks key m s = omega (
    arith,
    unvisited_both-length s.visited m,
    length-append s.queue (unvisited s.visited m.deps ++ unvisited s.visited m.nodep_deps),
  )

  enter-steps_left :
      (ks : List ModuleKey) (key : ModuleKey) (m : Module) (s : Discovery Error)
      → contains s.visited key ≡ false
      → Memᴰ key ks
      → target_outcome w (target w key) ≡ ok (some m)
      → steps_left ks (add_module w key m (visit w key s)) ≤ steps_left ks s
  enter-steps_left ks key m s c n o =
      let e : outcome_size (target_outcome w (target w key)) ≡ dep_count m = ap outcome_size o in
      omega (
        arith,
        add_module-steps_left ks key m (visit w key s),
        open_weight-visit s.visited key ks c n,
      )

  take_target-steps_left :
      (ks : List ModuleKey) (t : Target) (s : Discovery Error)
      → target w (target_key t) ≡ t
      → Memᴰ (target_key t) ks
      → steps_left ks (take_target w t s) ≤ steps_left ks s
  unfolding take_target open_weight fetching_weight
  take_target-steps_left ks (local_module key path) s e n =
      elim (Result-cases (w.parse_local_module path)) [
        | inr (x, h) ↦ rw (h, take_target) (omega arith)
        | inl (info, h) ↦ elim (Bool-cases (contains s.visited key)) [
          | inl c ↦ rw (h, take_target, c) (omega arith)
          | inr c ↦
              rw (h, take_target, c)
                (enter-steps_left ks key (module_of w key info false) s c n
                  (ap (target_outcome w) e ∙ ap (local_outcome w key) h))
        ]
      ]
  take_target-steps_left ks (placeholder key) s e n = elim (Bool-cases (contains s.visited key)) [
    | inl c ↦ rw (c, take_target) (omega arith)
    | inr c ↦
        rw (c, take_target)
          (enter-steps_left ks key (placeholder_module w key) s c n (ap (target_outcome w) e))
  ]
  take_target-steps_left ks (from_registry key) s e n = elim (Bool-cases (contains s.visited key)) [
    | inl c ↦ rw (c, take_target) (omega arith)
    | inr c ↦
        rw (c, take_target, fetching_weight) (omega (arith, open_weight-visit s.visited key ks c n))
  ]

  end_fetch-steps_left :
      (ks : List ModuleKey) (key : ModuleKey) (s : Discovery Error)
      → target w key ≡ from_registry key
      → suc (steps_left ks (end_fetch w key s)) ≤ steps_left ks s + fetch_weight key
  unfolding end_fetch
  end_fetch-steps_left ks key s t = cases (w.get_module_file key.name key.version) refl
    where
      cases :
          (r : Result (FetchFailure Error) ModuleInfo)
          → w.get_module_file key.name key.version ≡ r
          → suc (steps_left ks (end_fetch w key s)) ≤ steps_left ks s + fetch_weight key
      cases (ok info) h =
          let m : Module = module_of w key info false in
          let e : outcome_size (target_outcome w (target w key)) ≡ dep_count m =
            ap outcome_size (ap (target_outcome w) t ∙ ap (fetch_outcome w key) h) in
          rw (h, end_fetch) (omega (arith, add_module-steps_left ks key m s))
      cases (err not_found) h = rw (h, end_fetch) (omega arith)
      cases (err (failed x)) h = rw (h, end_fetch) (omega arith)

  fetching_over :
      (ks before : List ModuleKey) (key : ModuleKey) (after : List ModuleKey) (s : Discovery Error)
      → s.fetching ≡ before ++ key ∷ after
      → steps_left ks s ≡ steps_left ks (with_fetching w (before ++ after) s) + fetch_weight key
  fetching_over ks before key after s e =
      let q : fetching_weight s.fetching ≡ fetching_weight (before ++ key ∷ after) =
        ap fetching_weight e in
      omega (arith, fetching_weight-middle before key after)

  Step-steps_left :
      (ks : List ModuleKey) {s t : Discovery Error}
      → ((key : ModuleKey) → Leads w key → Memᴰ key ks)
      → Inv w [] [] s
      → Step w s t
      → suc (steps_left ks t) ≤ steps_left ks s
  Step-steps_left ks {s} {t} all i (take dep rest e q) =
      let key = to_module_key dep in
      let m : Memᴰ dep s.queue = subst (Memᴰ dep) (sym e) (Memᴰ.head refl) in
      let n : target_key (target w key) ≡ key = i.normal dep m in
      let l : length s.queue ≡ suc (length rest) = ap length e in
      let p : steps_left ks t ≡ steps_left ks (take_target w (target w key) (with_queue w rest s)) =
        ap (steps_left ks) q in
      omega (
        arith,
        take_target-steps_left ks (target w key) (with_queue w rest s) (target_idem w key)
            (subst (λ k. Memᴰ k ks) (sym n) (all key (i.queued dep m))),
      )
  Step-steps_left ks {s} {t} all i (finish before key after e q) =
      let m : Memᴰ key s.fetching =
        subst (Memᴰ key) (sym e) (Memᴰ.append_right before (Memᴰ.head refl)) in
      let p : steps_left ks t
          ≡ steps_left ks (end_fetch w key (with_fetching w (before ++ after) s)) =
        ap (steps_left ks) q in
      omega (
        arith,
        end_fetch-steps_left ks key (with_fetching w (before ++ after) s) (i.registered key m),
        fetching_over ks before key after s e,
      )
  Step-steps_left ks {s} {t} all i (abandon before key after e ne q) =
      let p : steps_left ks t ≡ steps_left ks (with_fetching w (before ++ after) s) =
        ap (steps_left ks) q in
      omega (arith, fetching_over ks before key after s e)

  abbrev pub step_count : {s : Discovery Error} → Run w s → ℕ
  step_count begin = 0
  step_count (next r _) = suc (step_count r)

  -- Where the root leads to finitely many keys, listed in `ks`, a run of the discovery that has come to
  -- a state has at most as many steps behind it as the bound of the start has above the bound of that
  -- state: no order of steps goes on forever.
  pub step_count-bounded :
      (ks : List ModuleKey) {s : Discovery Error} (r : Run w s)
      → ((key : ModuleKey) → Leads w key → Memᴰ key ks)
      → step_count r + steps_left ks s ≤ steps_left ks (start w)
  step_count-bounded ks begin all = omega arith
  step_count-bounded ks (next r st) all =
      omega (arith, step_count-bounded ks r all, Step-steps_left ks all (Run-Inv w r) st)

  -- A state of the discovery that is not done has a step: the loop never waits for nothing.
  pub not_stuck : (s : Discovery Error) → IsDone w s ⊎ ((t : Discovery Error) × Step w s t)
  not_stuck s = elim (List-cases s.queue) [
    | inr (dep, rest, e) ↦
        inr
          (take_target w (target w (to_module_key dep)) (with_queue w rest s), take dep rest e refl)
    | inl e ↦ elim (List-cases s.fetching) [
      | inr (key, rest, f) ↦
          inr (end_fetch w key (with_fetching w rest s), finish [] key rest f refl)
      | inl f ↦ inl (record { no_queue = e; no_fetching = f })
    ]
  ]

  -- A choice of the next step in every state of a run that is not done.
  abbrev pub Schedule : Type 0
  Schedule = (s : Discovery Error) → Run w s → IsDone w s ⊎ ((t : Discovery Error) × Step w s t)

  abbrev pub follow :
      {s : Discovery Error}
      → Run w s
      → IsDone w s ⊎ ((t : Discovery Error) × Step w s t)
      → (t : Discovery Error) × Run w t
  follow {s} r (inl d) = (s, r)
  follow r (inr (t, st)) = (t, next r st)

  -- The run after that many choices.
  unfoldable pub run_for : Schedule → ℕ → (s : Discovery Error) × Run w s
  run_for schedule zero = (start w, begin)
  run_for schedule (suc n) = let r = run_for schedule n in follow r.1 (schedule r.0 r.1)

  no_step_when_done : {s t : Discovery Error} → IsDone w s → Step w s t → (T : Type 0) → T
  no_step_when_done {s} d (take dep rest e q) T =
      (let z : dep ∷ rest ≡ [] = sym e ∙ d.no_queue in cc)
  no_step_when_done {s} d (finish before key after e q) T = absurd (
      Memᴰ.not-nil
        (subst (Memᴰ key) (sym e ∙ d.no_fetching) (Memᴰ.append_right before (Memᴰ.head refl))))
  no_step_when_done {s} d (abandon before key after e n q) T = absurd (
      Memᴰ.not-nil
        (subst (Memᴰ key) (sym e ∙ d.no_fetching) (Memᴰ.append_right before (Memᴰ.head refl))))

  follow_lem :
      (n : ℕ) {s : Discovery Error} (r : Run w s)
      (c : IsDone w s ⊎ ((t : Discovery Error) × Step w s t))
      → IsDone w s ⊎ (step_count r ≡ n)
      → IsDone w (follow r c).0 ⊎ (step_count (follow r c).1 ≡ suc n)
  follow_lem n r (inl d) h = inl d
  follow_lem n r (inr (t, st)) (inl d) = no_step_when_done d st _
  follow_lem n r (inr (t, st)) (inr e) = inr (ap suc e)

  run_for_lem :
      (schedule : Schedule) (n : ℕ)
      → IsDone w (run_for schedule n).0 ⊎ (step_count (run_for schedule n).1 ≡ n)
  unfolding run_for
  run_for_lem schedule zero = inr refl
  run_for_lem schedule (suc n) =
      let r = run_for schedule n in follow_lem n r.1 (schedule r.0 r.1) (run_for_lem schedule n)

  -- Whatever step is chosen in each state that is not done, the discovery is done after as many
  -- choices as the bound of the start, where the root leads to finitely many keys, listed in `ks`.
  pub every_schedule_ends :
      (ks : List ModuleKey) (schedule : Schedule)
      → ((key : ModuleKey) → Leads w key → Memᴰ key ks)
      → IsDone w (run_for schedule (steps_left ks (start w))).0
  every_schedule_ends ks schedule all =
      let n = steps_left ks (start w) in
      elim (run_for_lem schedule n) [
        | inl d ↦ d
        | inr e ↦
            let (s, r) = run_for schedule n in
            let bound = step_count-bounded ks r all in
            elim (not_stuck s) [
              | inl d ↦ d
              | inr (t, st) ↦
                  absurd
                    (let l = Step-steps_left ks all (Run-Inv w r) st in omega (arith, e, bound))
            ]
      ]
