-- ===== src/Selection/Walker/Queue.antt =====
-- The loops of `walk` in selection/selection.go that add dependencies to the queue.
use mathlib.Core.List.Memᴰ
use mathlib.Core.List.{append_assoc, map-append}
use go_bzlmod.Prelude.{
  Str, ℕ, suc, ◌+◌, ◌≤◌, true, false, some, List, [], ◌∷◌, ◌++◌, map, Bool-cases, Distinct,
  Distinct-concat, if◌then◌else◌, ◌≡◌, refl, sym, ap, subst, ◌∙◌, inl, inr, ◌⊎◌, ⊎_elim, arith,
  Memᴰ, length, length-append, contains, mem_of_contains, contains_of_mem, ◌==◌, ==_iff, ==_cases,
}
use go_bzlmod.Selection.Types.{ModuleKey, key_eq, DepSpec, to_module_key, Module}
use go_bzlmod.Selection.Walker.{
  Walker, ExistingModule, QueueItem, Frontier, WalkState, push, enqueue, followed, add_module,
}
use go_bzlmod.Prelude.Maps.{Map}

abbrev pub dep_keys : List DepSpec → List ModuleKey
dep_keys = map to_module_key

abbrev pub queued_keys : List QueueItem → List ModuleKey
queued_keys = map (λ item. item.key)

-- What every addition of a new key keeps, the loop keeps.
pub enqueue_rule {κ} :
    (P : Frontier → Type κ) (key : ModuleKey) (deps : List DepSpec) (f : Frontier)
    → ((g : Frontier) (k : ModuleKey)
        → Memᴰ k (dep_keys deps)
        → contains g.known k ≡ false
        → P g
        → P (push key k g))
    → P f
    → P (enqueue key deps f)
unfolding enqueue
enqueue_rule P key [] f step h = h
enqueue_rule P key (d ∷ deps) f step h = elim (Bool-cases (contains f.known (to_module_key d))) [
  | inl e ↦ rw e (enqueue_rule P key deps f (λ g k m. step g k (Memᴰ.tail m)) h)
  | inr e ↦ rw e (
      enqueue_rule P key deps (push key (to_module_key d) f) (λ g k m. step g k (Memᴰ.tail m))
        (step f (to_module_key d) (Memᴰ.head refl) e h))
]

-- The loop over one list and then another is the loop over both.
pub enqueue-append :
    (key : ModuleKey) (a b : List DepSpec) (f : Frontier)
    → enqueue key (a ++ b) f ≡ enqueue key b (enqueue key a f)
unfolding enqueue
enqueue-append key [] b f = refl
enqueue-append key (d ∷ a) b f = enqueue-append key a b _

pub frontier-add_module :
    (w : Walker) (key : ModuleKey) (m : Module) (by_name : Map Str ExistingModule) (s : WalkState)
    → (add_module w key m by_name s).frontier ≡ enqueue key (followed w m) s.frontier
unfolding add_module
frontier-add_module w key m by_name s = elim (Bool-cases w.ignore_nodep_deps) [
  | inl e ↦ rw e
  | inr e ↦ rw e (sym (enqueue-append key m.deps m.nodep_deps s.frontier))
]

-- The known keys grow by the keys of the dependencies.
pub known-enqueue :
    (key : ModuleKey) (deps : List DepSpec) (f : Frontier) (k : ModuleKey)
    → Memᴰ k (enqueue key deps f).known
    → Memᴰ k f.known ⊎ Memᴰ k (dep_keys deps)
known-enqueue key deps f k =
    enqueue_rule (λ g. Memᴰ k g.known → Memᴰ k f.known ⊎ Memᴰ k (dep_keys deps)) key deps f
      (λ g j m fresh h n. elim (Memᴰ.cases_cons n) [
        | inl e ↦ inr (subst (λ x. Memᴰ x (dep_keys deps)) (sym e) m)
        | inr t ↦ h t
      ])
      inl

pub known_stays :
    (key : ModuleKey) (deps : List DepSpec) (f : Frontier) (k : ModuleKey)
    → Memᴰ k f.known
    → Memᴰ k (enqueue key deps f).known
known_stays key deps f k =
    enqueue_rule (λ g. Memᴰ k f.known → Memᴰ k g.known) key deps f
      (λ g j m fresh h n. Memᴰ.tail (h n)) (λ n. n)

pub dep-known :
    (key : ModuleKey) (deps : List DepSpec) (f : Frontier) (k : ModuleKey)
    → Memᴰ k (dep_keys deps)
    → Memᴰ k (enqueue key deps f).known
unfolding enqueue
dep-known key [] f k m = elim m [ ]
dep-known key (d ∷ deps) f k m = elim (Bool-cases (contains f.known (to_module_key d))) [
  | inl e ↦
      rw (e, enqueue)
        (elim (Memᴰ.cases_cons m) [
          | inl p ↦
              known_stays key deps f k
                (subst (λ x. Memᴰ x f.known) (sym p) (mem_of_contains f.known (to_module_key d) e))
          | inr t ↦ dep-known key deps f k t
        ])
  | inr e ↦
      rw (e, enqueue)
        (elim (Memᴰ.cases_cons m) [
          | inl p ↦ known_stays key deps (push key (to_module_key d) f) k (Memᴰ.head p)
          | inr t ↦ dep-known key deps (push key (to_module_key d) f) k t
        ])
]

queued_keys-push :
    (key k : ModuleKey) (f : Frontier)
    → queued_keys (push key k f).queue ≡ queued_keys f.queue ++ k ∷ []
queued_keys-push key k f = rw map-append

-- Every known key is queued or has the property `Q`.
abbrev pub Accounted {κ} : (ModuleKey → Type κ) → Frontier → Type κ
Accounted Q f = (k : ModuleKey) → Memᴰ k f.known → Memᴰ k (queued_keys f.queue) ⊎ Q k

pub enqueue-Accounted {κ} :
    (Q : ModuleKey → Type κ) (key : ModuleKey) (deps : List DepSpec) (f : Frontier)
    → Accounted Q f
    → Accounted Q (enqueue key deps f)
enqueue-Accounted Q key deps f = enqueue_rule (Accounted Q) key deps f λ g j m fresh h k n.
    rw (queued_keys-push key j g) (elim (Memᴰ.cases_cons n) [
      | inl e ↦ inl (Memᴰ.append_right (queued_keys g.queue) (Memᴰ.head e))
      | inr t ↦ ⊎_elim (λ q. inl (Memᴰ.append_left (j ∷ []) q)) inr (h k t)
    ])

-- The keys visited and those queued are distinct and known.
pub record Listed (order : List ModuleKey) (f : Frontier) : Type 0 where
  pub distinct : Distinct (order ++ queued_keys f.queue)
  pub are_known : (k : ModuleKey) → Memᴰ k (order ++ queued_keys f.queue) → Memᴰ k f.known

push-Listed :
    (order : List ModuleKey) (key j : ModuleKey) (g : Frontier)
    → contains g.known j ≡ false
    → Listed order g
    → Listed order (push key j g)
push-Listed order key j g fresh h =
    let e : order ++ queued_keys (push key j g).queue ≡ (order ++ queued_keys g.queue) ++ j ∷ [] =
      ap (λ q. order ++ q) (queued_keys-push key j g)
      ∙ sym (append_assoc order (queued_keys g.queue) (j ∷ [])) in
    record {
      distinct = subst Distinct (sym e) (
          Distinct-concat (order ++ queued_keys g.queue) j h.distinct
            (λ m. cc (fresh, contains_of_mem g.known j (h.are_known j m))));
      are_known = λ k m.
          elim (Memᴰ.append_cases (order ++ queued_keys g.queue) (subst (Memᴰ k) e m)) [
            | inl n ↦ Memᴰ.tail (h.are_known k n)
            | inr n ↦ Memᴰ.head (Memᴰ.eq_of_singleton n)
          ];
    }

pub enqueue-Listed :
    (order : List ModuleKey) (key : ModuleKey) (deps : List DepSpec) (f : Frontier)
    → Listed order f
    → Listed order (enqueue key deps f)
enqueue-Listed order key deps f =
    enqueue_rule (Listed order) key deps f (λ g j m fresh h. push-Listed order key j g fresh h)

-- How many of the keys `us` are not known yet.
abbrev pub unknown : List ModuleKey → List ModuleKey → ℕ
unknown [] known = 0
unknown (u ∷ us) known = if contains known u then unknown us known else suc (unknown us known)

unknown_mono :
    (us known : List ModuleKey) (k : ModuleKey) → unknown us (k ∷ known) ≤ unknown us known
unknown_mono [] known k = omega arith
unknown_mono (u ∷ us) known k = ground (arith, unknown_mono us known k)

unknown_drops :
    (us known : List ModuleKey) (k : ModuleKey)
    → Memᴰ k us
    → contains known k ≡ false
    → suc (unknown us (k ∷ known)) ≤ unknown us known
unknown_drops [] known k m h = elim m [ ]
unknown_drops (u ∷ us) known k m h = elim (==_cases k u) [
  | inl e ↦
      let here : k == u ≡ true = (==_iff k u).1 e in
      let fresh : contains known u ≡ false = subst (λ x. contains known x ≡ false) e h in
      ground (arith, unknown_mono us known k)
  | inr (q, ne) ↦ elim (Memᴰ.cases_cons m) [
    | inl e ↦ absurd (ne e)
    | inr t ↦ ground (arith, unknown_drops us known k t h)
  ]
]

abbrev pub measure : List ModuleKey → Frontier → ℕ
measure us f = unknown us f.known + length f.queue

-- Adding dependencies whose keys are among `us` does not raise the measure.
pub measure-enqueue :
    (us : List ModuleKey) (key : ModuleKey) (deps : List DepSpec) (f : Frontier)
    → ((k : ModuleKey) → Memᴰ k (dep_keys deps) → Memᴰ k us)
    → measure us (enqueue key deps f) ≤ measure us f
measure-enqueue us key deps f inside =
    enqueue_rule (λ g. measure us g ≤ measure us f) key deps f
      (λ g j m fresh h. omega (
        arith,
        unknown_drops us g.known j (inside j m) fresh,
        length-append g.queue (record { key = j; dependent = some key } ∷ []),
        h,
      ))
      (omega arith)
