-- ===== src/Selection/Walker/Conflicts.antt =====
-- Compatibility levels in a successful `walk` of selection/selection.go.
use mathlib.Core.List.Memᴰ
use go_bzlmod.Prelude.{
  Str, Option, none, some, List, [], ◌∷◌, ◌≡◌, ◌≢◌, refl, sym, ap, subst, ◌∙◌, inl, inr, ◌⊎◌, arith,
  Memᴰ, ok, ==_iff, ==_cases, nat_eq, list_eq, Option-cases,
}
use go_bzlmod.Prelude.Int.{ℤ, int_eq}
use go_bzlmod.Prelude.Maps.{Map, lookup, insert, lookup-insert, lookup-insert_self}
use go_bzlmod.Selection.Types.{ModuleKey, key_eq, Module}
use go_bzlmod.Selection.Strategies.{Strategy}
use go_bzlmod.Selection.Walker.{
  Walker, ExistingModule, QueueItem, WalkState, process, walk, start, visit, add_module,
  multiple_versions, target_of,
}
use go_bzlmod.Selection.Walker.Deps.{Found, LevelsFit, resolved_module, process_cases}
use go_bzlmod.Selection.Walker.Invariant.{popped, walk_rule}

-- A visit that succeeds: the module's version is allowed, or its level is that of its name.
visit_cases :
    (w : Walker) (key : ModuleKey) (m : Module) (from : Option ModuleKey)
    (by_name by_name' : Map Str ExistingModule)
    → visit w key m from by_name ≡ ok by_name'
    → ((versions : List Str) × (multiple_versions w.overrides key.name ≡ some versions)
        × (target_of w.selection_groups key ≢ [])
        × (by_name' ≡ by_name))
      ⊎ ((multiple_versions w.overrides key.name ≡ none)
          × ((e : ExistingModule)
              → lookup m.key.name by_name ≡ some e
              → e.compat_level ≡ m.compat_level)
          × (by_name'
              ≡ insert m.key.name
                  (record { key = key; compat_level = m.compat_level; dependent = from })
                  by_name))
unfolding visit
visit_cases w key m from by_name by_name' h =
    elim (Option-cases (multiple_versions w.overrides key.name)) [
      | inr (versions, e) ↦
          inl (
            versions,
            e,
            ground (arith, ==_iff (target_of w.selection_groups key) []),
            ground arith,
          )
      | inl e ↦ elim (Option-cases (lookup m.key.name by_name)) [
        | inl fresh ↦ inr (e, (λ x p. absurd (cc (fresh, p))), ground arith)
        | inr (x, old) ↦ inr (
          e,
          λ y p.
              let q : x ≡ y = cc (old, p) in
              subst (λ z. z.compat_level ≡ m.compat_level) q
                (ground (arith, ==_iff x.compat_level m.compat_level)),
          ground arith,
        )
      ]
    ]

module _ (w : Walker) (strategy : Strategy) where
  -- What the walk has checked of a module that it visited.
  record Checked (by_name : Map Str ExistingModule) (k : ModuleKey) : Type 0 where
    old : Module
    in_graph : lookup k w.old_graph.modules ≡ some old
    level :
        multiple_versions w.overrides k.name ≡ none
        → (x : ExistingModule) × (lookup k.name by_name ≡ some x)
          × (x.compat_level ≡ old.compat_level)
    allowed :
        (versions : List Str)
        → multiple_versions w.overrides k.name ≡ some versions
        → target_of w.selection_groups k ≢ []
    deps_fit : LevelsFit w.old_graph strategy old.deps
    nodep_deps_fit : LevelsFit w.old_graph strategy old.nodep_deps

  abbrev AllChecked : WalkState → Type 0
  AllChecked s = (k : ModuleKey) → Memᴰ k s.bfs_order → Checked s.module_by_name k

  module _ (s s' : WalkState) (item : QueueItem) (rest : List QueueItem)
      (f : Found w strategy item (popped s rest) s') where
    abbrev added : Module
    added = resolved_module strategy item.key f.old

    Checked-here : Checked f.by_name item.key
    Checked-here = record {
      old = f.old;
      in_graph = f.in_graph;
      level = λ e.
          elim (visit_cases w item.key added item.dependent s.module_by_name f.by_name f.visited) [
            | inl (versions, e', _, _) ↦ absurd (cc (e, e'))
            | inr (_, _, p) ↦ (
              record {
                key = item.key;
                compat_level = f.old.compat_level;
                dependent = item.dependent;
              },
              ap (lookup item.key.name) p ∙ lookup-insert_self item.key.name _ s.module_by_name,
              refl,
            )
          ];
      allowed = λ versions e.
          elim (visit_cases w item.key added item.dependent s.module_by_name f.by_name f.visited) [
            | inl (_, _, ne, _) ↦ ne
            | inr (e', _, _) ↦ absurd (cc (e, e'))
          ];
      deps_fit = f.deps_fit;
      nodep_deps_fit = f.nodep_deps_fit;
    }

    level_stays :
        (k : ModuleKey) (c : ℤ)
        → (x : ExistingModule) × (lookup k.name s.module_by_name ≡ some x) × (x.compat_level ≡ c)
        → (x : ExistingModule) × (lookup k.name f.by_name ≡ some x) × (x.compat_level ≡ c)
    level_stays k c (x, found, same) =
        elim (visit_cases w item.key added item.dependent s.module_by_name f.by_name f.visited) [
          | inl (_, _, _, p) ↦ (x, ap (lookup k.name) p ∙ found, same)
          | inr (_, agree, p) ↦ elim (==_cases item.key.name k.name) [
            | inr (n, _) ↦ (
              x,
              ap (lookup k.name) p
                  ∙ lookup-insert item.key.name k.name _ s.module_by_name
                  ∙ (rw n found),
              same,
            )
            | inl e ↦ (
              record {
                key = item.key;
                compat_level = f.old.compat_level;
                dependent = item.dependent;
              },
              subst
                  (λ n.
                    lookup n f.by_name
                    ≡ some (record {
                      key = item.key;
                      compat_level = f.old.compat_level;
                      dependent = item.dependent;
                    }))
                  e
                  (ap (lookup item.key.name) p
                    ∙ lookup-insert_self item.key.name _ s.module_by_name),
              sym (agree x (subst (λ n. lookup n s.module_by_name ≡ some x) (sym e) found)) ∙ same,
            )
          ]
        ]

    Checked-before : (k : ModuleKey) → Checked s.module_by_name k → Checked f.by_name k
    Checked-before k c = record {
      old = c.old;
      in_graph = c.in_graph;
      level = λ e. level_stays k c.old.compat_level (c.level e);
      allowed = c.allowed;
      deps_fit = c.deps_fit;
      nodep_deps_fit = c.nodep_deps_fit;
    }

    AllChecked-add :
        AllChecked s → AllChecked (add_module w item.key added f.by_name (popped s rest))
    unfolding add_module
    AllChecked-add h k m = elim (Memᴰ.append_cases s.bfs_order m) [
      | inl n ↦ Checked-before k (h k n)
      | inr n ↦ subst (Checked f.by_name) (sym (Memᴰ.eq_of_singleton n)) Checked-here
    ]

  AllChecked-step :
      (s s' : WalkState) (item : QueueItem) (rest : List QueueItem)
      → s.queue ≡ item ∷ rest
      → process w strategy item (popped s rest) ≡ ok s'
      → AllChecked s
      → AllChecked s'
  AllChecked-step s s' item rest q e h = elim (process_cases w strategy item (popped s rest) s' e) [
    | inl (missing, same) ↦ subst AllChecked (sym same) h
    | inr f ↦ subst AllChecked (sym f.result) (AllChecked-add s s' item rest f h)
  ]

-- What a finished walk has checked.
pub record IsConsistent (w : Walker) (strategy : Strategy) (t : WalkState) : Type 0 where
  pub one_level :
      (j k : ModuleKey) (m n : Module)
      → Memᴰ j t.bfs_order
      → Memᴰ k t.bfs_order
      → j.name ≡ k.name
      → multiple_versions w.overrides j.name ≡ none
      → lookup j w.old_graph.modules ≡ some m
      → lookup k w.old_graph.modules ≡ some n
      → m.compat_level ≡ n.compat_level
  pub allowed :
      (k : ModuleKey) (versions : List Str)
      → Memᴰ k t.bfs_order
      → multiple_versions w.overrides k.name ≡ some versions
      → target_of w.selection_groups k ≢ []
  pub levels_fit :
      (k : ModuleKey) (m : Module)
      → Memᴰ k t.bfs_order
      → lookup k w.old_graph.modules ≡ some m
      → LevelsFit w.old_graph strategy m.deps × LevelsFit w.old_graph strategy m.nodep_deps

pub walk-IsConsistent :
    (w : Walker) (strategy : Strategy) (t : WalkState)
    → walk w strategy ≡ ok t
    → IsConsistent w strategy t
unfolding walk
walk-IsConsistent w strategy t e =
    let (h, _) =
      walk_rule w strategy (AllChecked w strategy) (AllChecked-step w strategy) _
        (start w.old_graph) t e (λ k m. elim m [ ]) in
    record {
      one_level = λ j k m n a b same single p q.
          let (x, fx, lx) = (h j a).level single in
          let (y, fy, ly) =
            (h k b).level (subst (λ s. multiple_versions w.overrides s ≡ none) same single) in
          let xy : x ≡ y = cc (fx, fy, same) in
          let pm : (h j a).old ≡ m = cc ((h j a).in_graph, p) in
          let pn : (h k b).old ≡ n = cc ((h k b).in_graph, q) in cc (lx, ly, xy, pm, pn);
      allowed = λ k versions a. (h k a).allowed versions;
      levels_fit = λ k m a p.
          let c = h k a in
          let q : c.old ≡ m = cc (c.in_graph, p) in
          subst
            (λ x.
              LevelsFit w.old_graph strategy x.deps × LevelsFit w.old_graph strategy x.nodep_deps)
            q (c.deps_fit, c.nodep_deps_fit);
    }
