-- ===== src/Selection/Walker/Reachable.antt =====
-- A successful `walk` of selection/selection.go collects exactly the reachable modules.
use mathlib.Core.List.Memᴰ
use mathlib.Core.List.{append_assoc}
use go_bzlmod.Prelude.{
  none, some, List, [], ◌∷◌, ◌++◌, Distinct, Distinct-drop, Distinct-append_left, mem_skip, ◌≡◌,
  refl, sym, ap, subst, ◌∙◌, ◌↔◌, inl, inr, ◌⊎◌, Memᴰ, ok, ==_cases,
}
use go_bzlmod.Prelude.Maps.{lookup, insert, lookup-insert, lookup-insert_self}
use go_bzlmod.Selection.Types.{ModuleKey, key_eq, Module}
use go_bzlmod.Selection.Strategies.{Strategy}
use go_bzlmod.Selection.Walker.{
  Walker, QueueItem, Frontier, WalkState, process, walk, start, followed, enqueue, add_module,
}
use go_bzlmod.Selection.Walker.Deps.{Found, resolved_module, process_cases}
use go_bzlmod.Selection.Walker.Invariant.{popped, walk_rule}
use go_bzlmod.Selection.Walker.Queue.{
  dep_keys, queued_keys, Listed, Accounted, enqueue-Listed, enqueue-Accounted, known-enqueue,
  known_stays, dep-known, frontier-add_module,
}

-- The keys that the root leads to through followed dependencies of modules of the graph.
pub data Reach (w : Walker) (strategy : Strategy) : ModuleKey → Type 0 where
  root : {k : ModuleKey} → k ≡ w.old_graph.root_key → Reach w strategy k
  step :
      {k j : ModuleKey} (old : Module)
      → Reach w strategy k
      → lookup k w.old_graph.modules ≡ some old
      → Memᴰ j (dep_keys (followed w (resolved_module strategy k old)))
      → Reach w strategy j

module _ (w : Walker) (strategy : Strategy) where
  abbrev dependencies : ModuleKey → Module → List ModuleKey
  dependencies k old = dep_keys (followed w (resolved_module strategy k old))

  -- What the new graph holds of a key that was visited, while `known` are the known keys.
  record Visited (s : WalkState) (k : ModuleKey) : Type 0 where
    old : Module
    in_graph : lookup k w.old_graph.modules ≡ some old
    entry : lookup k s.new_graph ≡ some (resolved_module strategy k old)
    closed : (j : ModuleKey) → Memᴰ j (dependencies k old) → Memᴰ j s.known

  -- Visited, or not a module of the graph.
  abbrev Done : WalkState → ModuleKey → Type 0
  Done s k = Memᴰ k s.bfs_order ⊎ (lookup k w.old_graph.modules ≡ none)

  record Inv (s : WalkState) : Type 0 where
    listed : Listed s.bfs_order s.frontier
    accounted : Accounted (Done s) s.frontier
    root_known : Memᴰ w.old_graph.root_key s.known
    sound : (k : ModuleKey) → Memᴰ k s.known → Reach w strategy k
    visited : (k : ModuleKey) → Memᴰ k s.bfs_order → Visited s k
    entered : (k : ModuleKey) (m : Module) → lookup k s.new_graph ≡ some m → Memᴰ k s.bfs_order

  Inv-start : Inv (start w.old_graph)
  Inv-start = record {
    listed = record { distinct = ((λ m. elim m [ ]), tt); are_known = λ k m. m };
    accounted = λ k m. inl m;
    root_known = Memᴰ.head refl;
    sound = λ k m. root (Memᴰ.eq_of_singleton m);
    visited = λ k m. elim m [ ];
    entered = λ k m e. absurd (cc e);
  }

  module _ (s : WalkState) (item : QueueItem) (rest : List QueueItem) (q : s.queue ≡ item ∷ rest)
      (h : Inv s) where
    queue_keys : queued_keys s.queue ≡ item.key ∷ queued_keys rest
    queue_keys = ap queued_keys q

    listed_keys : s.bfs_order ++ queued_keys s.queue ≡ s.bfs_order ++ (item.key ∷ queued_keys rest)
    listed_keys = ap (λ ks. s.bfs_order ++ ks) queue_keys

    -- An item whose module is missing is dropped.
    Inv-drop : lookup item.key w.old_graph.modules ≡ none → Inv (popped s rest)
    Inv-drop missing = record {
      listed = record {
        distinct =
            Distinct-drop s.bfs_order item.key (queued_keys rest)
              (subst Distinct listed_keys h.listed.distinct);
        are_known = λ k m.
            h.listed.are_known k (
              subst (Memᴰ k) (sym listed_keys)
                (mem_skip s.bfs_order item.key (queued_keys rest) m));
      };
      accounted = λ k m. elim (h.accounted k m) [
        | inr done ↦ inr done
        | inl queued ↦ elim (Memᴰ.cases_cons (subst (Memᴰ k) queue_keys queued)) [
          | inl e ↦ inr (inr (subst (λ x. lookup x w.old_graph.modules ≡ none) (sym e) missing))
          | inr t ↦ inl t
        ]
      ];
      root_known = h.root_known;
      sound = h.sound;
      visited = λ k m.
          let v = h.visited k m in
          record { old = v.old; in_graph = v.in_graph; entry = v.entry; closed = v.closed };
      entered = h.entered;
    }

    module _ (s' : WalkState) (f : Found w strategy item (popped s rest) s') where
      abbrev added : Module
      added = resolved_module strategy item.key f.old

      abbrev frontier' : Frontier
      frontier' = enqueue item.key (followed w added) (popped s rest).frontier

      abbrev next : WalkState
      next = record {
        module_by_name = f.by_name;
        new_graph = insert item.key added s.new_graph;
        bfs_order = s.bfs_order ++ item.key ∷ [];
        frontier = frontier';
      }

      s'-eq-next : s' ≡ next
      unfolding add_module
      s'-eq-next =
          f.result
          ∙ ap
              (λ x. record {
                module_by_name = f.by_name;
                new_graph = insert item.key added s.new_graph;
                bfs_order = s.bfs_order ++ item.key ∷ [];
                frontier = x;
              })
              (frontier-add_module w item.key added f.by_name (popped s rest))

      item_known : Memᴰ item.key s.known
      item_known =
          h.listed.are_known item.key (
            subst (Memᴰ item.key) (sym listed_keys)
              (Memᴰ.append_right s.bfs_order (Memᴰ.head refl)))

      stays : (k : ModuleKey) → Memᴰ k s.known → Memᴰ k frontier'.known
      stays k = known_stays item.key (followed w added) (popped s rest).frontier k

      Listed-popped : Listed (s.bfs_order ++ item.key ∷ []) (popped s rest).frontier
      Listed-popped =
          let e = append_assoc s.bfs_order (item.key ∷ []) (queued_keys rest) in
          record {
            distinct = subst Distinct (sym e) (subst Distinct listed_keys h.listed.distinct);
            are_known =
                λ k m. h.listed.are_known k (subst (Memᴰ k) (sym listed_keys) (subst (Memᴰ k) e m));
          }

      Accounted-popped : Accounted (Done next) (popped s rest).frontier
      Accounted-popped k m = elim (h.accounted k m) [
        | inr (inl n) ↦ inr (inl (Memᴰ.append_left (item.key ∷ []) n))
        | inr (inr missing) ↦ inr (inr missing)
        | inl queued ↦ elim (Memᴰ.cases_cons (subst (Memᴰ k) queue_keys queued)) [
          | inl e ↦ inr (inl (Memᴰ.append_right s.bfs_order (Memᴰ.head e)))
          | inr t ↦ inl t
        ]
      ]

      Visited-here : Visited next item.key
      Visited-here = record {
        old = f.old;
        in_graph = f.in_graph;
        entry = lookup-insert_self item.key added s.new_graph;
        closed = λ j m. dep-known item.key (followed w added) (popped s rest).frontier j m;
      }

      Visited-before : (k : ModuleKey) → Visited s k → Visited next k
      Visited-before k v = elim (==_cases item.key k) [
        | inl p ↦ subst (Visited next) p Visited-here
        | inr (n, _) ↦ record {
          old = v.old;
          in_graph = v.in_graph;
          entry = lookup-insert item.key k added s.new_graph ∙ (rw n v.entry);
          closed = λ j m. stays j (v.closed j m);
        }
      ]

      Inv-add : Inv next
      Inv-add = record {
        listed =
            enqueue-Listed (s.bfs_order ++ item.key ∷ []) item.key (followed w added)
              (popped s rest).frontier Listed-popped;
        accounted =
            enqueue-Accounted (Done next) item.key (followed w added) (popped s rest).frontier
              Accounted-popped;
        root_known = stays w.old_graph.root_key h.root_known;
        sound = λ k m.
            elim (known-enqueue item.key (followed w added) (popped s rest).frontier k m) [
              | inl old ↦ h.sound k old
              | inr dep ↦ step f.old (h.sound item.key item_known) f.in_graph dep
            ];
        visited = λ k m. elim (Memᴰ.append_cases s.bfs_order m) [
          | inl n ↦ Visited-before k (h.visited k n)
          | inr n ↦ subst (Visited next) (sym (Memᴰ.eq_of_singleton n)) Visited-here
        ];
        entered = λ k m e. elim (==_cases item.key k) [
          | inl p ↦ Memᴰ.append_right s.bfs_order (Memᴰ.head (sym p))
          | inr (n, _) ↦ Memᴰ.append_left (item.key ∷ []) (
              h.entered k m
                (let l = lookup-insert item.key k added s.new_graph in rw n at (sym l) ∙ e))
        ];
      }

  Inv-step :
      (s s' : WalkState) (item : QueueItem) (rest : List QueueItem)
      → s.queue ≡ item ∷ rest
      → process w strategy item (popped s rest) ≡ ok s'
      → Inv s
      → Inv s'
  Inv-step s s' item rest q e h = elim (process_cases w strategy item (popped s rest) s' e) [
    | inl (missing, same) ↦ subst Inv (sym same) (Inv-drop s item rest q h missing)
    | inr f ↦ subst Inv (sym (s'-eq-next s item rest q h s' f)) (Inv-add s item rest q h s' f)
  ]

  -- With an empty queue the known keys are closed under followed dependencies.
  complete :
      (t : WalkState) → Inv t → t.queue ≡ [] → {k : ModuleKey} → Reach w strategy k → Memᴰ k t.known
  complete t h empty (root e) = subst (λ x. Memᴰ x t.known) (sym e) h.root_known
  complete t h empty (step {k} {j} old r e m) = elim (h.accounted k (complete t h empty r)) [
    | inl queued ↦ absurd (Memᴰ.not-nil (subst (λ x. Memᴰ k (queued_keys x)) empty queued))
    | inr (inr missing) ↦ absurd (cc (missing, e))
    | inr (inl n) ↦
        let v = h.visited k n in
        let p : v.old ≡ old = cc (v.in_graph, e) in
        v.closed j (subst (λ x. Memᴰ j (dependencies k x)) (sym p) m)
  ]

  reached-visited :
      (t : WalkState)
      → Inv t
      → t.queue ≡ []
      → (k : ModuleKey) → Reach w strategy k
      → (old : Module) → lookup k w.old_graph.modules ≡ some old
      → Memᴰ k t.bfs_order
  reached-visited t h empty k r old e = elim (h.accounted k (complete t h empty r)) [
    | inl queued ↦ absurd (Memᴰ.not-nil (subst (λ x. Memᴰ k (queued_keys x)) empty queued))
    | inr (inr missing) ↦ absurd (cc (missing, e))
    | inr (inl n) ↦ n
  ]

-- What a finished walk has collected.
pub record IsCollected (w : Walker) (strategy : Strategy) (t : WalkState) : Type 0 where
  pub once : Distinct t.bfs_order
  pub exactly :
      (k : ModuleKey)
      → Memᴰ k t.bfs_order
        ↔ (Reach w strategy k × ((old : Module) × (lookup k w.old_graph.modules ≡ some old)))
  pub entries :
      (k : ModuleKey) (m : Module)
      → (lookup k t.new_graph ≡ some m) ↔ (
          Memᴰ k t.bfs_order
          × ((old : Module) × (lookup k w.old_graph.modules ≡ some old)
              × (m ≡ resolved_module strategy k old)))

-- A successful walk visits each module once; it visits exactly the modules of the old graph that
-- the root leads to through followed dependencies, each resolved by the strategy; and the new graph
-- has exactly the visited modules, with their dependencies resolved.
pub walk_correct :
    (w : Walker) (strategy : Strategy) (t : WalkState)
    → walk w strategy ≡ ok t
    → IsCollected w strategy t
unfolding walk
walk_correct w strategy t e =
    let (h, empty) =
      walk_rule w strategy (Inv w strategy) (Inv-step w strategy) _ (start w.old_graph) t e
        (Inv-start w strategy) in
    record {
      once = Distinct-append_left t.bfs_order (queued_keys t.queue) h.listed.distinct;
      exactly = λ k. (
        λ m.
            let v = h.visited k m in
            (
              h.sound k (h.listed.are_known k (Memᴰ.append_left (queued_keys t.queue) m)),
              (v.old, v.in_graph),
            ),
        λ r. reached-visited w strategy t h empty k r.0 r.1.0 r.1.1,
      );
      entries = λ k m. (
        λ p.
            let n = h.entered k m p in
            let v = h.visited k n in (n, (v.old, v.in_graph, cc (p, v.entry))),
        λ r.
            let v = h.visited k r.0 in
            let p : v.old ≡ r.1.0 = cc (v.in_graph, r.1.1) in
            v.entry ∙ ap some (ap (resolved_module strategy k) p ∙ sym r.1.2),
      );
    }
