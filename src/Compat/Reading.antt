-- ===== src/Compat/Reading.antt =====
-- The texts of the constraints of bazel_compat.go, and the Bazel versions that they are about.
use go_bzlmod.Prelude.{
  ℕ, ◌≤◌, Ordering, lt, eq, gt, Bool, true, false, Bool-cases, Str, codes, none, some, List, [],
  ◌∷◌, ◌++◌, All, split, List-cases, ◌&&◌, Option-cases, ==_iff, ==_cases, nat_eq, list_eq, ◌≡◌,
  ◌≢◌, refl, sym, ap, subst, ◌∙◌, ◌↔◌, inl, inr, arith,
}
use go_bzlmod.Version
use go_bzlmod.Compat.{
  is_digits, Operator, at_least, at_most, above, below, except, BazelCompatConstraint,
  is_release_triple, is_triple, after_operator, parse_bazel_compat_constraint, satisfies, check,
}

abbrev pub IsDigit : ℕ → Type 0
IsDigit c = (b'0' ≤ c) × (c ≤ b'9')

abbrev pub IsNumber : Str → Type 0
IsNumber s = (s ≢ []) × All IsDigit s

-- Three numbers with points between them.
pub record IsTriple (v : Str) : Type 0 where
  pub a : Str
  pub b : Str
  pub c : Str
  pub text : v ≡ a ++ b'.' ∷ (b ++ b'.' ∷ c)
  pub a_number : IsNumber a
  pub b_number : IsNumber b
  pub c_number : IsNumber c

abbrev pub spelling : Operator → Str
spelling at_least = codes ">="
spelling at_most = codes "<="
spelling above = codes ">"
spelling below = codes "<"
spelling except = codes "-"

-- A constraint: an operator, and a version after it.
abbrev pub Reads : Operator → Str → Str → Type 0
Reads op v s = (s ≡ spelling op ++ v) × IsTriple v

-- The versions that a constraint admits.
abbrev pub Admits : Operator → Str → Str → Type 0
Admits at_least v bazel_version = Version.compare bazel_version v ≢ lt
Admits at_most v bazel_version = Version.compare bazel_version v ≢ gt
Admits above v bazel_version = Version.compare bazel_version v ≡ gt
Admits below v bazel_version = Version.compare bazel_version v ≡ lt
Admits except v bazel_version = Version.compare bazel_version v ≢ eq

pub satisfies_iff :
    (op : Operator) (v bazel_version : Str)
    → (check (record { operator = op; version = v }) bazel_version ≡ true)
      ↔ Admits op v bazel_version
unfolding check
satisfies_iff op v bazel_version = by_result op (Version.compare bazel_version v) refl
  where
    by_result :
        (op : Operator) (r : Ordering)
        → Version.compare bazel_version v ≡ r
        → (satisfies op (Version.compare bazel_version v) ≡ true) ↔ Admits op v bazel_version
    by_result at_least lt e = rw e (λ h. cc, λ h. absurd (h refl))
    by_result at_least eq e = rw e (λ h z. cc, λ h. refl)
    by_result at_least gt e = rw e (λ h z. cc, λ h. refl)
    by_result at_most lt e = rw e (λ h z. cc, λ h. refl)
    by_result at_most eq e = rw e (λ h z. cc, λ h. refl)
    by_result at_most gt e = rw e (λ h. cc, λ h. absurd (h refl))
    by_result above lt e = rw e (λ h. cc, λ h. cc)
    by_result above eq e = rw e (λ h. cc, λ h. cc)
    by_result above gt e = rw e (λ h. refl, λ h. refl)
    by_result below lt e = rw e (λ h. refl, λ h. refl)
    by_result below eq e = rw e (λ h. cc, λ h. cc)
    by_result below gt e = rw e (λ h. cc, λ h. cc)
    by_result except lt e = rw e (λ h z. cc, λ h. refl)
    by_result except eq e = rw e (λ h. cc, λ h. absurd (h refl))
    by_result except gt e = rw e (λ h z. cc, λ h. refl)

pub is_digits_iff : (s : Str) → (is_digits s ≡ true) ↔ IsNumber s
is_digits_iff [] = (λ h. cc, λ (n, _). absurd (n refl))
is_digits_iff (c ∷ []) = (λ h. ((λ z. cc), (ground arith, tt)), λ (_, (d, _)). ground arith)
is_digits_iff (c ∷ d ∷ s) =
    let ih = is_digits_iff (d ∷ s) in
    (
      λ h. ((λ z. cc), (ground arith, (ih.0 (ground arith)).1)),
      λ (_, (p, q)). let k : is_digits (d ∷ s) ≡ true = ih.1 ((λ z. cc), q) in ground arith,
    )

join : ℕ → List Str → Str
join sep [] = []
join sep (x ∷ []) = x
join sep (x ∷ y ∷ r) = x ++ sep ∷ join sep (y ∷ r)

join-cons_head :
    (sep c : ℕ) (x : Str) (xs : List Str) → join sep ((c ∷ x) ∷ xs) ≡ c ∷ join sep (x ∷ xs)
unfolding join
join-cons_head sep c x [] = refl
join-cons_head sep c x (y ∷ ys) = refl

split-join :
    (sep : ℕ) (s : Str)
    → (x : Str) × (xs : List Str) × (split sep s ≡ x ∷ xs) × (join sep (x ∷ xs) ≡ s)
unfolding split join
split-join sep [] = ([], [], refl, refl)
split-join sep (c ∷ s) =
    let (x, xs, e, j) = split-join sep s in
    elim (==_cases c sep) [
      | inl p ↦ ([], x ∷ xs, rw ((==_iff c sep).1 p, e) refl, rw j (ap (λ d. d ∷ s) (sym p)))
      | inr (q, _) ↦ (c ∷ x, xs, rw (q, e) refl, join-cons_head sep c x xs ∙ ap (λ t. c ∷ t) j)
    ]

split-part :
    (sep : ℕ) (x s : Str) → All (λ c. c ≢ sep) x → split sep (x ++ sep ∷ s) ≡ x ∷ split sep s
unfolding split
split-part sep [] s h = rw ((==_iff sep sep).1 refl) refl
split-part sep (c ∷ x) s h = elim (==_cases c sep) [
  | inl p ↦ absurd (h.0 p)
  | inr (q, _) ↦ rw (q, split-part sep x s h.1) refl
]

split-last : (sep : ℕ) (x : Str) → All (λ c. c ≢ sep) x → split sep x ≡ x ∷ []
unfolding split
split-last sep [] h = refl
split-last sep (c ∷ x) h = elim (==_cases c sep) [
  | inl p ↦ absurd (h.0 p)
  | inr (q, _) ↦ rw (q, split-last sep x h.1) refl
]

no_point : (s : Str) → All IsDigit s → All (λ c. c ≢ b'.') s
no_point [] h = tt
no_point (c ∷ s) ((p, q), h) = ((λ e. omega (arith, e, p)), no_point s h)

pub split-triple : (v : Str) (t : IsTriple v) → split b'.' v ≡ t.a ∷ t.b ∷ t.c ∷ []
split-triple v t =
    ap (split b'.') t.text
    ∙ split-part b'.' t.a _ (no_point t.a t.a_number.1)
    ∙ ap (λ r. t.a ∷ r)
        (split-part b'.' t.b _ (no_point t.b t.b_number.1)
          ∙ ap (λ r. t.b ∷ r) (split-last b'.' t.c (no_point t.c t.c_number.1)))

and_iff : (a b : Bool) → ((a && b) ≡ true) ↔ ((a ≡ true) × (b ≡ true))
and_iff true b = (λ h. (refl, h), λ (_, h). h)
and_iff false b = (λ h. cc, λ (h, _). cc)

is_triple-parts :
    (v : Str) (parts : List Str) → join b'.' parts ≡ v → is_triple parts ≡ true → IsTriple v
unfolding join
is_triple-parts v [] e h = cc
is_triple-parts v (a ∷ []) e h = cc
is_triple-parts v (a ∷ b ∷ []) e h = cc
is_triple-parts v (a ∷ b ∷ c ∷ []) e h =
    let (p, q) = (and_iff (is_digits a) _).0 h in
    let (r, s) = (and_iff (is_digits b) (is_digits c)).0 q in
    record {
      a = a;
      b = b;
      c = c;
      text = sym e;
      a_number = (is_digits_iff a).0 p;
      b_number = (is_digits_iff b).0 r;
      c_number = (is_digits_iff c).0 s;
    }
is_triple-parts v (a ∷ b ∷ c ∷ d ∷ r) e h = cc

is_release_triple_iff : (v : Str) → (is_release_triple v ≡ true) ↔ IsTriple v
is_release_triple_iff v = (
  λ h.
      let (x, xs, e, j) = split-join b'.' v in
      is_triple-parts v (x ∷ xs) j (ap is_triple (sym e) ∙ h),
  λ t.
      ap is_triple (split-triple v t)
      ∙ (and_iff (is_digits t.a) _).1 (
        (is_digits_iff t.a).1 t.a_number,
        (and_iff (is_digits t.b) (is_digits t.c)).1
            ((is_digits_iff t.b).1 t.b_number, (is_digits_iff t.c).1 t.c_number),
      ),
)

after_operator-spelling :
    (s : Str) (op : Operator) (rest : Str)
    → after_operator s ≡ some (op, rest)
    → s ≡ spelling op ++ rest
after_operator-spelling [] op rest h = cc
after_operator-spelling (c ∷ []) op rest h =
    ground (arith, ==_iff c b'>', ==_iff c b'<', ==_iff c b'-')
after_operator-spelling (c ∷ d ∷ s) op rest h =
    ground (arith, ==_iff c b'>', ==_iff c b'<', ==_iff c b'-', ==_iff d b'=')

-- No operator is read for a part of another one before a version.
spelling-after_operator :
    (op : Operator) (v : Str) → IsTriple v → after_operator (spelling op ++ v) ≡ some (op, v)
spelling-after_operator op v t = by_text op v (first_digit v t)
  where
    first_digit : (v : Str) → IsTriple v → (d : ℕ) × (s : Str) × (v ≡ d ∷ s) × IsDigit d
    first_digit v t = elim (List-cases t.a) [
      | inl e ↦ absurd (t.a_number.0 e)
      | inr (d, s, e) ↦ (
        d,
        s ++ b'.' ∷ (t.b ++ b'.' ∷ t.c),
        t.text ∙ ap (λ x. x ++ b'.' ∷ (t.b ++ b'.' ∷ t.c)) e,
        (subst (All IsDigit) e t.a_number.1).0,
      )
    ]

    by_text :
        (op : Operator) (v : Str)
        → (d : ℕ) × (s : Str) × (v ≡ d ∷ s) × IsDigit d
        → after_operator (spelling op ++ v) ≡ some (op, v)
    by_text at_least v x = refl
    by_text at_most v x = refl
    by_text above v (d, s, e, (p, q)) = rw e (ground (arith, ==_iff d b'='))
    by_text below v (d, s, e, (p, q)) = rw e (ground (arith, ==_iff d b'='))
    by_text except v x = refl

pub parse_iff :
    (op : Operator) (v s : Str)
    → (parse_bazel_compat_constraint s ≡ some (record { operator = op; version = v }))
      ↔ Reads op v s
unfolding parse_bazel_compat_constraint
parse_iff op v s = (
  λ h. elim (Option-cases (after_operator s)) [
    | inl e ↦ absurd (
        let z : none ≡ some (record { operator = op; version = v }) =
          rw (e, parse_bazel_compat_constraint) at h in
        cc)
    | inr ((o, rest), e) ↦ elim (Bool-cases (is_release_triple rest)) [
      | inr q ↦ absurd (
          let z : none ≡ some (record { operator = op; version = v }) =
            rw (e, q, parse_bazel_compat_constraint) at h in
          cc)
      | inl q ↦
          let z : some (record { operator = o; version = rest })
              ≡ some (record { operator = op; version = v }) =
            rw (e, q, parse_bazel_compat_constraint) at h in
          let k : (record { operator = o; version = rest })
              ≡ (record { operator = op; version = v }) =
            constraint_inj z in
          let p : o ≡ op = ap (λ c. c.operator) k in
          let r : rest ≡ v = ap (λ c. c.version) k in
          (
            after_operator-spelling s o rest e
                ∙ ap (λ x. spelling x ++ rest) p
                ∙ ap (λ x. spelling op ++ x) r,
            subst IsTriple r ((is_release_triple_iff rest).0 q),
          )
    ]
  ],
  λ (e, t).
      rw
        (
          e,
          spelling-after_operator op v t,
          (is_release_triple_iff v).1 t,
          parse_bazel_compat_constraint,
        )
        refl,
)
  where
    constraint_inj : {c d : BazelCompatConstraint} → some c ≡ some d → c ≡ d
    constraint_inj e = cc
