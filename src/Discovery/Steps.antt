-- ===== src/Discovery/Steps.antt =====
-- Every step of the discovery in selection_api.go keeps its invariant.
use go_bzlmod.Prelude.{
  Bool, true, false, Option, none, some, Option-cases, Result, ok, err, List, [], ◌∷◌, ◌++◌, All,
  All-at, All-append, ◌≡◌, ◌≢◌, refl, sym, ap, subst, ◌∙◌, inl, inr, ⊎_elim, ◌==◌, ==_iff, ==_cases,
  Memᴰ,
}
use go_bzlmod.Prelude.Memᴰ
use go_bzlmod.Prelude.Maps.{lookup, insert, lookup-insert}
use go_bzlmod.Selection.Types.{ModuleKey, key_eq, DepSpec, Module}
use go_bzlmod.Discovery.{
  Sources, Target, local_module, placeholder, from_registry, target, Discovery, unvisited, specs,
  root_key, add_module, give_up, begin_fetch, fail, note_failure,
}
use go_bzlmod.Discovery.Keys.{IsNormal, specs-IsNormal}
use go_bzlmod.Discovery.Spec.{outcome, followed, Leads}
use go_bzlmod.Discovery.{FetchFailure, not_found, failed, module_of, placeholder_module}
use go_bzlmod.Modules.{ModuleInfo}
use go_bzlmod.Discovery.Spec.{target_outcome, fetch_outcome, local_outcome}
use go_bzlmod.Discovery.Invariant.{mem-unvisited, unvisited-mem, IsFailure, Inv, visit-Inv}

module _ {Error : Type 0} (w : Sources Error) where
  abbrev AllNormal : Module → Type 0
  AllNormal m = All (IsNormal w) (m.deps ++ m.nodep_deps)

  module_of-AllNormal :
      (key : ModuleKey) (info : ModuleInfo) (b : Bool) → AllNormal (module_of w key info b)
  module_of-AllNormal key info b =
      All-append (IsNormal w) (specs w info.dependencies b) (specs w info.nodep_dependencies b)
        (specs-IsNormal w info.dependencies b) (specs-IsNormal w info.nodep_dependencies b)

  of_ok :
      {m n : Module}
      → AllNormal m
      → ◌≡◌ {A = Result Error (Option Module)} (ok (some m)) (ok (some n))
      → AllNormal n
  of_ok {m} {n} a e = let q : m ≡ n = cc in subst AllNormal q a

  fetch_outcome-AllNormal :
      (key : ModuleKey) (r : Result (FetchFailure Error) ModuleInfo) (m : Module)
      → fetch_outcome w key r ≡ ok (some m)
      → AllNormal m
  fetch_outcome-AllNormal key (ok info) m e = of_ok (module_of-AllNormal key info false) e
  fetch_outcome-AllNormal key (err not_found) m e = absurd cc
  fetch_outcome-AllNormal key (err (failed x)) m e = absurd cc

  local_outcome-AllNormal :
      (key : ModuleKey) (r : Result Error ModuleInfo) (m : Module)
      → local_outcome w key r ≡ ok (some m)
      → AllNormal m
  local_outcome-AllNormal key (ok info) m e = of_ok (module_of-AllNormal key info false) e
  local_outcome-AllNormal key (err x) m e = absurd cc

  target_outcome-AllNormal :
      (t : Target) (m : Module) → target_outcome w t ≡ ok (some m) → AllNormal m
  target_outcome-AllNormal (local_module key path) m e =
      local_outcome-AllNormal key (w.parse_local_module path) m e
  target_outcome-AllNormal (placeholder key) m e = of_ok {m = placeholder_module w key} tt e
  target_outcome-AllNormal (from_registry key) m e =
      fetch_outcome-AllNormal key (w.get_module_file key.name key.version) m e

  -- The keys of a found module's dependencies are those of their targets.
  outcome-IsNormal :
      (key : ModuleKey) (m : Module)
      → outcome w key ≡ ok (some m)
      → All (IsNormal w) (m.deps ++ m.nodep_deps)
  outcome-IsNormal key m e = elim (==_cases key (root_key w)) [
    | inl p ↦
        of_ok (module_of-AllNormal (root_key w) w.root_module true)
          (rw ((==_iff key (root_key w)).1 p) at e)
    | inr (q, _) ↦ target_outcome-AllNormal (target w key) m (rw q at e)
  ]

  followed-mem :
      (key : ModuleKey) (m : Module) (d : DepSpec)
      → Memᴰ d (followed w key m)
      → Memᴰ d (m.deps ++ m.nodep_deps)
  followed-mem key m d n = elim (==_cases key (root_key w)) [
    | inl e ↦ Memᴰ.append_left m.nodep_deps (rw ((==_iff key (root_key w)).1 e) at n)
    | inr (q, _) ↦ rw q at n
  ]

  unvisited_both :
      (visited : List ModuleKey) (m : Module) (d : DepSpec)
      → Memᴰ d (unvisited visited m.deps ++ unvisited visited m.nodep_deps)
      → Memᴰ d (m.deps ++ m.nodep_deps)
  unvisited_both visited m d n = elim (Memᴰ.append_cases (unvisited visited m.deps) n) [
    | inl a ↦ Memᴰ.append_left m.nodep_deps (unvisited-mem visited m.deps a)
    | inr b ↦ Memᴰ.append_right m.deps (unvisited-mem visited m.nodep_deps b)
  ]

  -- An open key gets its module.
  pub add_module-Inv :
      (s : Discovery Error) (key : ModuleKey) (m : Module)
      → Memᴰ key s.visited
      → key ≢ root_key w
      → outcome w key ≡ ok (some m)
      → Inv w (key ∷ []) [] s
      → Inv w [] [] (add_module w key m s)
  add_module-Inv s key m v ne o i =
      let fresh : List DepSpec = unvisited s.visited m.deps ++ unvisited s.visited m.nodep_deps in
      let all_followed : followed w key m ≡ m.deps ++ m.nodep_deps =
        ⊎_elim (λ e. absurd (ne e)) (λ q. rw q.0) (==_cases key (root_key w)) in
      record {
        root_visited = i.root_visited;
        sound = i.sound;
        normal = λ d n. elim (Memᴰ.append_cases s.queue n) [
          | inl q ↦ i.normal d q
          | inr f ↦
              All-at (IsNormal w) (m.deps ++ m.nodep_deps) (outcome-IsNormal key m o)
                (unvisited_both s.visited m d f)
        ];
        queued = λ d n. elim (Memᴰ.append_cases s.queue n) [
          | inl q ↦ i.queued d q
          | inr f ↦
              Leads.step m d (i.sound key v) o
                (subst (Memᴰ d) (sym all_followed) (unvisited_both s.visited m d f)) refl
        ];
        fetched = i.fetched;
        not_root = i.not_root;
        registered = i.registered;
        entered = λ k n l. elim (==_cases key k) [
          | inl e ↦
              let q : some m ≡ some n = sym (lookup_here k m e) ∙ l in
              let p : m ≡ n = cc in
              (
                subst (λ x. Memᴰ x s.visited) e v,
                subst (λ x. outcome w x ≡ ok (some n)) e (o ∙ ap (λ x. ok (some x)) p),
              )
          | inr (q, _) ↦ i.entered k n (sym (lookup_there k m q) ∙ l)
        ];
        failures = i.failures;
        done = λ k f n. elim (==_cases key k) [
          | inl e ↦
              inr (inr (some m, subst (λ x. outcome w x ≡ ok (some m)) e o, lookup_here k m e))
          | inr (q, other) ↦ elim (i.done k f n) [
            | inl p ↦ absurd (other (sym (Memᴰ.eq_of_singleton p)))
            | inr (inl x) ↦ inr (inl x)
            | inr (inr (r, a, b)) ↦ inr (inr (r, a, lookup_there k m q ∙ b))
          ]
        ];
        closed = λ k n d f l x. elim (==_cases key k) [
          | inl e ↦
              let q : some m ≡ some n = sym (lookup_here k m e) ∙ l in
              let p : m ≡ n = cc in
              let x' : Memᴰ d (m.deps ++ m.nodep_deps) =
                subst (λ y. Memᴰ d (y.deps ++ y.nodep_deps)) (sym p) (followed-mem k n d x) in
              elim (Memᴰ.append_cases m.deps x') [
                | inl a ↦
                    ⊎_elim inl
                      (λ u. inr (
                        inl (
                          Memᴰ.append_right s.queue
                            (Memᴰ.append_left (unvisited s.visited m.nodep_deps) u))))
                      (mem-unvisited s.visited m.deps d a)
                | inr b ↦
                    ⊎_elim inl
                      (λ u. inr (
                        inl (
                          Memᴰ.append_right s.queue
                            (Memᴰ.append_right (unvisited s.visited m.deps) u))))
                      (mem-unvisited s.visited m.nodep_deps d b)
              ]
          | inr (q, _) ↦ elim (i.closed k n d f (sym (lookup_there k m q) ∙ l) x) [
            | inl a ↦ inl a
            | inr (inl b) ↦ inr (inl (Memᴰ.append_left fresh b))
            | inr (inr c) ↦ elim c [ ]
          ]
        ];
      }
    where
      lookup_here :
          (k : ModuleKey) (m : Module) → key ≡ k → lookup k (insert key m s.modules) ≡ some m
      lookup_here k m e = rw (lookup-insert key k m s.modules, (==_iff key k).1 e)

      lookup_there :
          (k : ModuleKey) (m : Module)
          → key == k ≡ false
          → lookup k (insert key m s.modules) ≡ lookup k s.modules
      lookup_there k m q = rw (lookup-insert key k m s.modules, q)

  -- A fetch begins.
  pub begin_fetch-Inv :
      (s : Discovery Error) (key : ModuleKey)
      → key ≢ root_key w
      → target w key ≡ from_registry key
      → Leads w key
      → Inv w [] (key ∷ []) s
      → Inv w [] [] (begin_fetch w key s)
  begin_fetch-Inv s key ne t l i =
      let v = visit-Inv w s key l i in
      record {
        root_visited = v.root_visited;
        sound = v.sound;
        normal = v.normal;
        queued = v.queued;
        fetched = λ k m. ⊎_elim (λ e. Memᴰ.head e) (λ n. v.fetched k n) (Memᴰ.cases_cons m);
        not_root = λ k m.
            ⊎_elim (λ e. subst (λ x. x ≢ root_key w) (sym e) ne) (λ n. v.not_root k n)
              (Memᴰ.cases_cons m);
        registered = λ k m.
            ⊎_elim (λ e. subst (λ x. target w x ≡ from_registry x) (sym e) t)
              (λ n. v.registered k n) (Memᴰ.cases_cons m);
        entered = v.entered;
        failures = v.failures;
        done = λ k f m. elim (v.done k f m) [
          | inl o ↦ inr (inl (Memᴰ.head (Memᴰ.eq_of_singleton o)))
          | inr (inl x) ↦ inr (inl (Memᴰ.tail x))
          | inr (inr x) ↦ inr (inr x)
        ];
        closed = v.closed;
      }

  -- The registry has no such module.
  pub absent-Inv :
      (s : Discovery Error) (key : ModuleKey)
      → outcome w key ≡ ok none
      → Inv w (key ∷ []) [] s
      → Inv w [] [] s
  absent-Inv s key o i = record {
    root_visited = i.root_visited;
    sound = i.sound;
    normal = i.normal;
    queued = i.queued;
    fetched = i.fetched;
    not_root = i.not_root;
    registered = i.registered;
    entered = i.entered;
    failures = i.failures;
    done = λ k f m. elim (i.done k f m) [
      | inl p ↦ inr (
          inr (
            none,
            subst (λ x. outcome w x ≡ ok none) (sym (Memᴰ.eq_of_singleton p)) o,
            subst (λ x. lookup x s.modules ≡ none) (sym (Memᴰ.eq_of_singleton p)) missing,
          ))
      | inr r ↦ inr r
    ];
    closed = i.closed;
  }
    where
      missing : lookup key s.modules ≡ none
      missing = elim (Option-cases (lookup key s.modules)) [
        | inl e ↦ e
        | inr (m, e) ↦ absurd (let q : ok none ≡ ok (some m) = sym o ∙ (i.entered key m e).1 in cc)
      ]

  -- An error is noted.
  pub fail-Inv :
      (s : Discovery Error) (key : ModuleKey) (e : Error)
      → Leads w key
      → target_outcome w (target w key) ≡ err e
      → Inv w (key ∷ []) [] s
      → Inv w [] [] (fail w e s)
  fail-Inv s key e l o i = record {
    root_visited = i.root_visited;
    sound = i.sound;
    normal = i.normal;
    queued = i.queued;
    fetched = i.fetched;
    not_root = i.not_root;
    registered = i.registered;
    entered = i.entered;
    failures = λ x f. from s.failure x i.failures f;
    done = λ k f m. absurd (never s.failure f);
    closed = λ k m d f q n. absurd (never s.failure f);
  }
    where
      never : (f : Option Error) → note_failure w f e ≡ none → ⊥
      never none p = let q : some e ≡ none = p in cc
      never (some x) p = let q : some x ≡ none = p in cc

      from :
          (f : Option Error) (x : Error)
          → ((y : Error) → f ≡ some y → IsFailure w y)
          → note_failure w f e ≡ some x
          → IsFailure w x
      from none x h p = let q : e ≡ x = some_inj p in subst (IsFailure w) q (key, l, o)
        where
          some_inj : {a b : Error} → some a ≡ some b → a ≡ b
          some_inj r = cc
      from (some y) x h p = h x p

  pub give_up-Inv :
      (s : Discovery Error) (key : ModuleKey) (e : Error)
      → Leads w key
      → target_outcome w (target w key) ≡ err e
      → Inv w [] (key ∷ []) s
      → Inv w [] [] (give_up w e s)
  give_up-Inv s key e l o i = record {
    root_visited = i.root_visited;
    sound = i.sound;
    normal = λ d m. elim m [ ];
    queued = λ d m. elim m [ ];
    fetched = λ k m. elim m [ ];
    not_root = λ k m. elim m [ ];
    registered = λ k m. elim m [ ];
    entered = i.entered;
    failures = λ x f. subst (IsFailure w) (let q : e ≡ x = cc in q) (key, l, o);
    done = λ k f m. absurd (let q : some e ≡ none = f in cc);
    closed = λ k m d f q n. absurd (let z : some e ≡ none = f in cc);
  }
