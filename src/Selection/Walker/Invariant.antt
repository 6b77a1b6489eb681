-- ===== src/Selection/Walker/Invariant.antt =====
-- What every round of the loop of `walk` in selection/selection.go keeps holds at its end.
use go_bzlmod.Prelude.{
  bind_ok, ℕ, zero, suc, List, [], ◌∷◌, List-cases, ◌≡◌, subst, inl, inr, Result, ok,
}
use go_bzlmod.Selection.Types.{SelectionError}
use go_bzlmod.Selection.Strategies.{Strategy}
use go_bzlmod.Selection.Walker.{Walker, QueueItem, WalkState, process, walk_loop}

-- The state when the first item has left the queue.
abbrev pub popped : WalkState → List QueueItem → WalkState
popped s rest = record s { frontier = record { known = s.known; queue = rest } }

at_end {κ} :
    (P : WalkState → Type κ) (s t : WalkState)
    → ◌≡◌ {A = Result SelectionError WalkState} (ok s) (ok t)
    → s.queue ≡ []
    → P s
    → P t × (t.queue ≡ [])
at_end P s t e empty h = let q : s ≡ t = cc e in (subst P q h, subst (λ x. x.queue ≡ []) q empty)

pub walk_rule {κ} :
    (w : Walker) (strategy : Strategy) (P : WalkState → Type κ)
    → ((s s' : WalkState) (item : QueueItem) (rest : List QueueItem)
        → s.queue ≡ item ∷ rest
        → process w strategy item (popped s rest) ≡ ok s'
        → P s
        → P s')
    → (fuel : ℕ) (s t : WalkState) → walk_loop w strategy fuel s ≡ ok t
    → P s
    → P t × (t.queue ≡ [])
unfolding walk_loop
walk_rule w strategy P step zero s t e h = elim (List-cases s.queue) [
  | inl empty ↦ at_end P s t (rw (empty, walk_loop) at e) empty h
  | inr (item, rest, q) ↦ absurd (let p = rw (q, walk_loop) at e in cc p)
]
walk_rule w strategy P step (suc fuel) s t e h = elim (List-cases s.queue) [
  | inl empty ↦ at_end P s t (rw (empty, walk_loop) at e) empty h
  | inr (item, rest, q) ↦
      let (s', p, e') =
        bind_ok (process w strategy item (popped s rest)) _ (rw (q, walk_loop) at e) in
      walk_rule w strategy P step fuel s' t e' (step s s' item rest q p h)
]
