-- ===== src/Discovery/Invariant.antt =====
-- The invariant of the discovery in selection_api.go, and what keeps it.
use go_bzlmod.Prelude.{
  Bool-cases, Option, none, some, ok, err, List, [], ◌∷◌, ◌++◌, contains, mem_of_contains, ◌≡◌, ◌≢◌,
  sym, ap, subst, ◌⊎◌, inl, inr, ⊎_elim, Memᴰ,
}
use go_bzlmod.Prelude.Memᴰ
use go_bzlmod.Prelude.Maps.{lookup}
use go_bzlmod.Selection.Types.{ModuleKey, key_eq, DepSpec, to_module_key, Module}
use go_bzlmod.Discovery.{
  Sources, from_registry, target, Discovery, unvisited, root_key, visit, with_queue, with_fetching,
}
use go_bzlmod.Discovery.Keys.{IsNormal}
use go_bzlmod.Discovery.Spec.{target_outcome, outcome, followed, Leads}

pub mem-unvisited :
    (visited : List ModuleKey) (deps : List DepSpec) (d : DepSpec)
    → Memᴰ d deps
    → Memᴰ (to_module_key d) visited ⊎ Memᴰ d (unvisited visited deps)
unfolding unvisited
mem-unvisited visited [] d m = elim m [ ]
mem-unvisited visited (x ∷ xs) d m = elim (Bool-cases (contains visited (to_module_key x))) [
  | inl h ↦
      rw (h, unvisited)
        (elim (Memᴰ.cases_cons m) [
          | inl e ↦ inl (rw e (mem_of_contains visited (to_module_key x) h))
          | inr t ↦ mem-unvisited visited xs d t
        ])
  | inr h ↦
      rw (h, unvisited)
        (elim (Memᴰ.cases_cons m) [
          | inl e ↦ inr (Memᴰ.head e)
          | inr t ↦ ⊎_elim inl (λ i. inr (Memᴰ.tail i)) (mem-unvisited visited xs d t)
        ])
]

pub unvisited-mem :
    (visited : List ModuleKey) (deps : List DepSpec) {d : DepSpec}
    → Memᴰ d (unvisited visited deps)
    → Memᴰ d deps
unfolding unvisited
unvisited-mem visited [] m = m
unvisited-mem visited (x ∷ xs) m = elim (Bool-cases (contains visited (to_module_key x))) [
  | inl h ↦ Memᴰ.tail (unvisited-mem visited xs (rw (h, unvisited) at m))
  | inr h ↦ elim (Memᴰ.cases_cons (rw (h, unvisited) at m)) [
    | inl e ↦ Memᴰ.head e
    | inr t ↦ Memᴰ.tail (unvisited-mem visited xs t)
  ]
]

module _ {Error : Type 0} (w : Sources Error) where
  -- A key whose module is in the graph as it should be.
  abbrev pub Settled : Discovery Error → ModuleKey → Type 0
  Settled s key = (o : Option Module) × (outcome w key ≡ ok o) × (lookup key s.modules ≡ o)

  -- The error of the source of a key that the root leads to.
  abbrev pub IsFailure : Error → Type 0
  IsFailure e = (key : ModuleKey) × Leads w key × (target_outcome w (target w key) ≡ err e)

  -- The keys in `opens` are visited and not settled; that in `pend` was taken from the queue.
  pub record Inv (opens pend : List ModuleKey) (s : Discovery Error) : Type 0 where
    pub root_visited : Memᴰ (root_key w) s.visited
    pub sound : (key : ModuleKey) → Memᴰ key s.visited → Leads w key
    pub normal : (d : DepSpec) → Memᴰ d s.queue → IsNormal w d
    pub queued : (d : DepSpec) → Memᴰ d s.queue → Leads w (to_module_key d)
    pub fetched : (key : ModuleKey) → Memᴰ key s.fetching → Memᴰ key s.visited
    pub not_root : (key : ModuleKey) → Memᴰ key s.fetching → key ≢ root_key w
    pub registered : (key : ModuleKey) → Memᴰ key s.fetching → target w key ≡ from_registry key
    pub entered :
        (key : ModuleKey) (m : Module)
        → lookup key s.modules ≡ some m
        → Memᴰ key s.visited × (outcome w key ≡ ok (some m))
    pub failures : (e : Error) → s.failure ≡ some e → IsFailure e
    pub done :
        (key : ModuleKey)
        → s.failure ≡ none
        → Memᴰ key s.visited
        → Memᴰ key opens ⊎ Memᴰ key s.fetching ⊎ Settled s key
    pub closed :
        (key : ModuleKey) (m : Module) (d : DepSpec)
        → s.failure ≡ none
        → lookup key s.modules ≡ some m
        → Memᴰ d (followed w key m)
        → Memᴰ (to_module_key d) s.visited ⊎ Memᴰ d s.queue ⊎ Memᴰ (to_module_key d) pend

  -- The main loop takes a dependency.
  pub take-Inv :
      (s : Discovery Error) (dep : DepSpec) (rest : List DepSpec)
      → s.queue ≡ dep ∷ rest
      → Inv [] [] s
      → Inv [] (to_module_key dep ∷ []) (with_queue w rest s)
  take-Inv s dep rest e i = record {
    root_visited = i.root_visited;
    sound = i.sound;
    normal = λ d m. i.normal d (subst (Memᴰ d) (sym e) (Memᴰ.tail m));
    queued = λ d m. i.queued d (subst (Memᴰ d) (sym e) (Memᴰ.tail m));
    fetched = i.fetched;
    not_root = i.not_root;
    registered = i.registered;
    entered = i.entered;
    failures = i.failures;
    done = i.done;
    closed = λ key m d f l n. elim (i.closed key m d f l n) [
      | inl v ↦ inl v
      | inr (inl q) ↦ elim (Memᴰ.cases_cons (subst (Memᴰ d) e q)) [
        | inl p ↦ inr (inr (Memᴰ.head (ap to_module_key p)))
        | inr t ↦ inr (inl t)
      ]
      | inr (inr p) ↦ elim p [ ]
    ];
  }

  -- Its key is visited already.
  pub known-Inv :
      (s : Discovery Error) (key : ModuleKey)
      → Memᴰ key s.visited
      → Inv [] (key ∷ []) s
      → Inv [] [] s
  known-Inv s key v i = record {
    root_visited = i.root_visited;
    sound = i.sound;
    normal = i.normal;
    queued = i.queued;
    fetched = i.fetched;
    not_root = i.not_root;
    registered = i.registered;
    entered = i.entered;
    failures = i.failures;
    done = i.done;
    closed = λ k m d f l n. elim (i.closed k m d f l n) [
      | inl o ↦ inl o
      | inr (inl q) ↦ inr (inl q)
      | inr (inr p) ↦ inl (subst (λ x. Memᴰ x s.visited) (sym (Memᴰ.eq_of_singleton p)) v)
    ];
  }

  -- It is new, and becomes visited.
  pub visit-Inv :
      (s : Discovery Error) (key : ModuleKey)
      → Leads w key
      → Inv [] (key ∷ []) s
      → Inv (key ∷ []) [] (visit w key s)
  visit-Inv s key l i = record {
    root_visited = Memᴰ.tail i.root_visited;
    sound =
        λ k m. elim (Memᴰ.cases_cons m) [ inl e ↦ subst (Leads w) (sym e) l | inr t ↦ i.sound k t ];
    normal = i.normal;
    queued = i.queued;
    fetched = λ k m. Memᴰ.tail (i.fetched k m);
    not_root = i.not_root;
    registered = i.registered;
    entered = λ k m e. let (v, o) = i.entered k m e in (Memᴰ.tail v, o);
    failures = i.failures;
    done = λ k f m. elim (Memᴰ.cases_cons m) [
      | inl e ↦ inl (Memᴰ.head e)
      | inr t ↦ elim (i.done k f t) [ inl o ↦ elim o [ ] | inr r ↦ inr r ]
    ];
    closed = λ k m d f e n. elim (i.closed k m d f e n) [
      | inl v ↦ inl (Memᴰ.tail v)
      | inr (inl q) ↦ inr (inl q)
      | inr (inr p) ↦ inl (Memᴰ.head (Memᴰ.eq_of_singleton p))
    ];
  }

  -- A fetch is over: its key is open again.
  pub pop-Inv :
      (s : Discovery Error) (before : List ModuleKey) (key : ModuleKey) (after : List ModuleKey)
      → s.fetching ≡ before ++ key ∷ after
      → Inv [] [] s
      → Inv (key ∷ []) [] (with_fetching w (before ++ after) s)
  pop-Inv s before key after e i = record {
    root_visited = i.root_visited;
    sound = i.sound;
    normal = i.normal;
    queued = i.queued;
    fetched = λ k m. i.fetched k (back m);
    not_root = λ k m. i.not_root k (back m);
    registered = λ k m. i.registered k (back m);
    entered = i.entered;
    failures = i.failures;
    done = λ k f m. elim (i.done k f m) [
      | inl o ↦ elim o [ ]
      | inr (inl x) ↦ elim (Memᴰ.append_cases before (subst (Memᴰ k) e x)) [
        | inl b ↦ inr (inl (Memᴰ.append_left after b))
        | inr c ↦ elim (Memᴰ.cases_cons c) [
          | inl p ↦ inl (Memᴰ.head p)
          | inr t ↦ inr (inl (Memᴰ.append_right before t))
        ]
      ]
      | inr (inr x) ↦ inr (inr x)
    ];
    closed = i.closed;
  }
    where
      back : {k : ModuleKey} → Memᴰ k (before ++ after) → Memᴰ k s.fetching
      back {k} m = subst (Memᴰ k) (sym e) (elim (Memᴰ.append_cases before m) [
        | inl b ↦ Memᴰ.append_left (key ∷ after) b
        | inr c ↦ Memᴰ.append_right before (Memᴰ.tail c)
      ])
