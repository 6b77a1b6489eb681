-- ===== src/Discovery/Complete.antt =====
-- A discovery of selection_api.go that is done has found the graph of its specification, whatever
-- the order of its steps.
use go_bzlmod.Prelude.{
  true, false, Bool-cases, none, some, Option-cases, Result, ok, err, Result-cases, List, [], ◌∷◌,
  ◌++◌, contains, mem_of_contains, contains_of_mem, All-at, ◌≡◌, ◌≢◌, refl, sym, ap, subst, ◌∙◌,
  inl, inr, ⊎_elim, ==_iff, ==_cases, ==_refl, Memᴰ,
}
use go_bzlmod.Prelude.Memᴰ
use go_bzlmod.Prelude.Maps.{lookup}
use go_bzlmod.Selection.Types.{ModuleKey, key_eq, to_module_key, Module}
use go_bzlmod.Discovery.{
  Sources, Target, local_module, placeholder, from_registry, target_key, target, Discovery,
  root_key, start, add_module, visit, with_queue, with_fetching,
}
use go_bzlmod.Discovery.Keys.{IsNormal, specs-IsNormal}
use go_bzlmod.Discovery.Spec.{outcome, followed, Leads}
use go_bzlmod.Discovery.{
  FetchFailure, not_found, failed, Step, Run, take, finish, abandon, begin, next, take_target,
  end_fetch, module_of, placeholder_module,
}
use go_bzlmod.Modules.{ModuleInfo}
use go_bzlmod.Discovery.Keys.{target_idem}
use go_bzlmod.Discovery.Spec.{target_outcome, fetch_outcome, local_outcome}
use go_bzlmod.Discovery.Invariant.{Settled, IsFailure, Inv, take-Inv, known-Inv, visit-Inv, pop-Inv}
use go_bzlmod.Discovery.{IsDone, discovered}
use go_bzlmod.Discovery.Steps.{add_module-Inv, begin_fetch-Inv, absent-Inv, fail-Inv, give_up-Inv}
use go_bzlmod.Selection.Types.{DepGraph}

module _ {Error : Type 0} (w : Sources Error) where
  outcome_other :
      (key : ModuleKey) → key ≢ root_key w → outcome w key ≡ target_outcome w (target w key)
  outcome_other key ne = ⊎_elim (λ e. absurd (ne e)) (λ q. rw q.0) (==_cases key (root_key w))

  not_root_of_new :
      (s : Discovery Error) (key : ModuleKey) {opens pend : List ModuleKey}
      → Inv w opens pend s
      → contains s.visited key ≡ false
      → key ≢ root_key w
  not_root_of_new s key i c e =
      let z : true ≡ false =
        sym (contains_of_mem s.visited key (subst (λ x. Memᴰ x s.visited) (sym e) i.root_visited))
        ∙ c in
      cc

  -- A new key gets a module at once.
  enter-Inv :
      (s : Discovery Error) (key : ModuleKey) (m : Module)
      → contains s.visited key ≡ false
      → Leads w key
      → target_outcome w (target w key) ≡ ok (some m)
      → Inv w [] (key ∷ []) s
      → Inv w [] [] (add_module w key m (visit w key s))
  enter-Inv s key m c l o i =
      let ne = not_root_of_new s key i c in
      add_module-Inv w (visit w key s) key m (Memᴰ.head refl) ne (outcome_other key ne ∙ o)
        (visit-Inv w s key l i)

  take_target-Inv :
      (s : Discovery Error) (t : Target)
      → target w (target_key t) ≡ t
      → Leads w (target_key t)
      → Inv w [] (target_key t ∷ []) s
      → Inv w [] [] (take_target w t s)
  unfolding take_target
  take_target-Inv s (local_module key path) e l i =
      elim (Result-cases (w.parse_local_module path)) [
        | inr (x, h) ↦
            rw (h, take_target)
              (give_up-Inv w s key x l (ap (target_outcome w) e ∙ ap (local_outcome w key) h) i)
        | inl (info, h) ↦ elim (Bool-cases (contains s.visited key)) [
          | inl c ↦ rw (h, take_target, c) (known-Inv w s key (mem_of_contains s.visited key c) i)
          | inr c ↦
              rw (h, take_target, c)
                (enter-Inv s key (module_of w key info false) c l
                  (ap (target_outcome w) e ∙ ap (local_outcome w key) h) i)
        ]
      ]
  take_target-Inv s (placeholder key) e l i = elim (Bool-cases (contains s.visited key)) [
    | inl c ↦ rw (c, take_target) (known-Inv w s key (mem_of_contains s.visited key c) i)
    | inr c ↦
        rw (c, take_target)
          (enter-Inv s key (placeholder_module w key) c l (ap (target_outcome w) e) i)
  ]
  take_target-Inv s (from_registry key) e l i = elim (Bool-cases (contains s.visited key)) [
    | inl c ↦ rw (c, take_target) (known-Inv w s key (mem_of_contains s.visited key c) i)
    | inr c ↦ rw (c, take_target) (begin_fetch-Inv w s key (not_root_of_new s key i c) e l i)
  ]

  end_fetch-Inv :
      (s : Discovery Error) (key : ModuleKey)
      → Memᴰ key s.visited
      → key ≢ root_key w
      → target w key ≡ from_registry key
      → Inv w (key ∷ []) [] s
      → Inv w [] [] (end_fetch w key s)
  unfolding end_fetch
  end_fetch-Inv s key v ne t i = cases (w.get_module_file key.name key.version) refl
    where
      cases :
          (r : Result (FetchFailure Error) ModuleInfo)
          → w.get_module_file key.name key.version ≡ r
          → Inv w [] [] (end_fetch w key s)
      cases (ok info) h =
          rw (h, end_fetch)
            (add_module-Inv w s key (module_of w key info false) v ne
              (outcome_other key ne ∙ ap (target_outcome w) t ∙ ap (fetch_outcome w key) h) i)
      cases (err not_found) h =
          rw (h, end_fetch)
            (absent-Inv w s key
              (outcome_other key ne ∙ ap (target_outcome w) t ∙ ap (fetch_outcome w key) h) i)
      cases (err (failed x)) h =
          rw (h, end_fetch)
            (fail-Inv w s key x (i.sound key v)
              (ap (target_outcome w) t ∙ ap (fetch_outcome w key) h) i)

  -- An abandoned fetch leaves its key open, after a failure.
  abandon-Inv :
      (s : Discovery Error) (key : ModuleKey)
      → s.failure ≢ none
      → Inv w (key ∷ []) [] s
      → Inv w [] [] s
  abandon-Inv s key ne i = record {
    root_visited = i.root_visited;
    sound = i.sound;
    normal = i.normal;
    queued = i.queued;
    fetched = i.fetched;
    not_root = i.not_root;
    registered = i.registered;
    entered = i.entered;
    failures = i.failures;
    done = λ k f m. absurd (ne f);
    closed = i.closed;
  }

  mem_middle :
      (before : List ModuleKey) (key : ModuleKey) (after : List ModuleKey)
      → Memᴰ key (before ++ key ∷ after)
  mem_middle before key after = Memᴰ.append_right before (Memᴰ.head refl)

  pub Step-Inv : {s t : Discovery Error} → Step w s t → Inv w [] [] s → Inv w [] [] t
  Step-Inv {s} (take dep rest e q) i =
      let key = to_module_key dep in
      let m : Memᴰ dep s.queue = subst (Memᴰ dep) (sym e) (Memᴰ.head refl) in
      let n : target_key (target w key) ≡ key = i.normal dep m in
      subst (Inv w [] []) (sym q) (
        take_target-Inv (with_queue w rest s) (target w key) (target_idem w key)
          (subst (Leads w) (sym n) (i.queued dep m))
          (subst (λ k. Inv w [] (k ∷ []) (with_queue w rest s)) (sym n)
            (take-Inv w s dep rest e i)))
  Step-Inv {s} (finish before key after e q) i =
      let m : Memᴰ key s.fetching = subst (Memᴰ key) (sym e) (mem_middle before key after) in
      subst (Inv w [] []) (sym q) (
        end_fetch-Inv (with_fetching w (before ++ after) s) key (i.fetched key m) (i.not_root key m)
          (i.registered key m) (pop-Inv w s before key after e i))
  Step-Inv {s} (abandon before key after e ne q) i =
      subst (Inv w [] []) (sym q) (
        abandon-Inv (with_fetching w (before ++ after) s) key ne (pop-Inv w s before key after e i))

  root_outcome : outcome w (root_key w) ≡ ok (some (module_of w (root_key w) w.root_module true))
  root_outcome = rw (==_refl (root_key w))

  root_followed : (m : Module) → followed w (root_key w) m ≡ m.deps
  root_followed m = rw (==_refl (root_key w))

  start-Inv : Inv w [] [] (start w)
  start-Inv =
      let root_module : Module = module_of w (root_key w) w.root_module true in
      let at_root : (key : ModuleKey) (m : Module)
          → lookup key (start w).modules ≡ some m
          → (key ≡ root_key w) × (m ≡ root_module) =
        λ key m l. (elim (==_cases (root_key w) key) [
          | inl e ↦ (sym e, first key m e l)
          | inr (q, _) ↦ absurd (let z : none ≡ some m = rw q at l in cc)
        ]) in
      record {
        root_visited = Memᴰ.head refl;
        sound = λ key m. Leads.root (Memᴰ.eq_of_singleton m);
        normal = λ d m.
            All-at (IsNormal w) (start w).queue (specs-IsNormal w w.root_module.dependencies true)
              m;
        queued = λ d m.
            Leads.step root_module d (Leads.root refl) root_outcome
              (subst (Memᴰ d) (sym (root_followed root_module)) m) refl;
        fetched = λ key m. elim m [ ];
        not_root = λ key m. elim m [ ];
        registered = λ key m. elim m [ ];
        entered = λ key m l.
            let (e, q) = at_root key m l in
            (Memᴰ.head e, ap (outcome w) e ∙ root_outcome ∙ ap (λ x. ok (some x)) (sym q));
        failures = λ e f. absurd (let q : none ≡ some e = f in cc);
        done = λ key f m. inr (
            inr (
              some root_module,
              ap (outcome w) (Memᴰ.eq_of_singleton m) ∙ root_outcome,
              ap (λ k. lookup k (start w).modules) (Memᴰ.eq_of_singleton m) ∙ root_entry,
            ));
        closed = λ key m d f l n.
            let (e, q) = at_root key m l in
            let n' : Memᴰ d (followed w (root_key w) root_module) =
              subst (λ k. Memᴰ d (followed w k root_module)) e
                (subst (λ x. Memᴰ d (followed w key x)) q n) in
            inr (inl (subst (Memᴰ d) (root_followed root_module) n'));
      }
    where
      root_entry :
          lookup (root_key w) (start w).modules ≡ some (module_of w (root_key w) w.root_module true)
      root_entry = rw (==_refl (root_key w))

      first :
          (key : ModuleKey) (m : Module)
          → root_key w ≡ key
          → lookup key (start w).modules ≡ some m
          → m ≡ module_of w (root_key w) w.root_module true
      first key m e l =
          let q : some (module_of w (root_key w) w.root_module true) ≡ some m =
            rw ((==_iff (root_key w) key).1 e) at l in
          cc

  pub Run-Inv : {s : Discovery Error} → Run w s → Inv w [] [] s
  Run-Inv begin = start-Inv
  Run-Inv (next r st) = Step-Inv st (Run-Inv r)

  -- An answer of the discovery: exactly the modules that the root leads to and their sources have, or
  -- the error of one of the sources.
  abbrev pub Answers : Result Error DepGraph → Type 0
  Answers (ok g) =
      (g.root_key ≡ root_key w)
      × ((key : ModuleKey) → Leads w key → outcome w key ≡ ok (lookup key g.modules))
      × ((key : ModuleKey) (m : Module) → lookup key g.modules ≡ some m → Leads w key)
  Answers (err e) = IsFailure w e

  module _ {s : Discovery Error} (r : Run w s) (end : IsDone w s) where
    Settled-of_visited : (key : ModuleKey) → s.failure ≡ none → Memᴰ key s.visited → Settled w s key
    Settled-of_visited key f m = elim ((Run-Inv r).done key f m) [
      | inl o ↦ elim o [ ]
      | inr (inl x) ↦ elim (subst (Memᴰ key) end.no_fetching x) [ ]
      | inr (inr x) ↦ x
    ]

    visited_of_Leads : (key : ModuleKey) → s.failure ≡ none → Leads w key → Memᴰ key s.visited
    visited_of_Leads key f (Leads.root e) =
        subst (λ k. Memᴰ k s.visited) (sym e) (Run-Inv r).root_visited
    visited_of_Leads key f (Leads.step {key = from} m dep l o n e) =
        let (x, a, b) = Settled-of_visited from f (visited_of_Leads from f l) in
        let q : ok (some m) ≡ ok x = sym o ∙ a in
        let p : x ≡ some m = cc in
        subst (λ k. Memᴰ k s.visited) (sym e)
          (elim ((Run-Inv r).closed from m dep f (b ∙ p) n) [
            | inl v ↦ v
            | inr (inl v) ↦ elim (subst (Memᴰ dep) end.no_queue v) [ ]
            | inr (inr v) ↦ elim v [ ]
          ])

    found_of_Leads :
        (key : ModuleKey)
        → s.failure ≡ none
        → Leads w key
        → outcome w key ≡ ok (lookup key s.modules)
    found_of_Leads key f l =
        let (x, a, b) = Settled-of_visited key f (visited_of_Leads key f l) in a ∙ ap ok (sym b)

    -- When a run of the discovery is done, in whatever order the fetches ended, what it returns is the
    -- graph that has the root's key, that has for every key the root leads to the module of its source,
    -- or none if the registry has none, and that has no other keys; or it is the error of the source of
    -- a key that the root leads to.
    pub discovered-Answers : Answers (discovered w s)
    discovered-Answers = elim (Option-cases s.failure) [
      | inl f ↦
          rw (f, discovered)
            (
              refl,
              (λ key l. found_of_Leads key f l),
              λ key m e. (Run-Inv r).sound key ((Run-Inv r).entered key m e).0,
            )
      | inr (e, f) ↦ rw (f, discovered) ((Run-Inv r).failures e f)
    ]

  -- Two runs of the discovery that are done and did not fail have the same modules, in whatever orders
  -- their fetches ended.
  pub order_irrelevant :
      {s t : Discovery Error}
      → Run w s
      → Run w t
      → IsDone w s
      → IsDone w t
      → s.failure ≡ none
      → t.failure ≡ none
      → (key : ModuleKey) → lookup key s.modules ≡ lookup key t.modules
  order_irrelevant {s} {t} r u d e f g key = elim (Option-cases (lookup key s.modules)) [
    | inr (m, h) ↦ same (entered-Leads r key m h)
    | inl h ↦ elim (Option-cases (lookup key t.modules)) [
      | inr (m, k) ↦ same (entered-Leads u key m k)
      | inl k ↦ h ∙ sym k
    ]
  ]
    where
      entered-Leads :
          {v : Discovery Error} (x : Run w v) (key : ModuleKey) (m : Module)
          → lookup key v.modules ≡ some m
          → Leads w key
      entered-Leads x key m h = (Run-Inv x).sound key ((Run-Inv x).entered key m h).0

      same : Leads w key → lookup key s.modules ≡ lookup key t.modules
      same l =
          let q : ok (lookup key s.modules) ≡ ok (lookup key t.modules) =
            sym (found_of_Leads r d key f l) ∙ found_of_Leads u e key g l in
          cc
