-- ===== src/Registry/Fetch.antt =====
-- What the requests of registry_chain.go return and remember.
use go_bzlmod.Prelude.{
  ℕ, suc, zero, ◌+◌, some, List, [], ◌∷◌, ◌++◌, length, All, Result, ok, err, Result-cases,
  ==_cases, ==_iff, nat_eq, list_eq, ◌≡◌, refl, ap, ◌∙◌, ◌⊎◌, inl, inr, Memᴰ, arith,
}
use go_bzlmod.Registry.{Client, get_elem?, try_others, try_in_order}

pub get_elem?-mem : {A : Type 0} (xs : List A) (i : ℕ) {x : A} → get_elem? xs i ≡ some x → Memᴰ x xs
get_elem?-mem [] i h = absurd cc
get_elem?-mem (y ∷ ys) zero {x} h = let q : x ≡ y = cc in Memᴰ.head q
get_elem?-mem (y ∷ ys) (suc i) h = Memᴰ.tail (get_elem?-mem ys i h)

module _ {Info Metadata Source Error A Noted : Type 0}
    (call : Client Info Metadata Source Error → Result Error A)
    (note : Noted → Client Info Metadata Source Error → Error → Noted) where
  -- The client has no answer.
  abbrev pub Fails : Client Info Metadata Source Error → Type 0
  Fails c = (e : Error) × (call c ≡ err e)

  -- The first client that answers, which has index `i`, answers `a`.
  pub record IsFirst (clients : List (Client Info Metadata Source Error)) (i : ℕ) (a : A)
      : Type 0 where
    pub before : List (Client Info Metadata Source Error)
    pub client : Client Info Metadata Source Error
    pub after : List (Client Info Metadata Source Error)
    pub parts : clients ≡ before ++ client ∷ after
    pub index : i ≡ length before
    pub failed_before : All Fails before
    pub answer : call client ≡ ok a

  pub try_in_order_lem :
      (i : ℕ) (clients : List (Client Info Metadata Source Error)) (noted : Noted)
      → ((a : A) × (j : ℕ) × (try_in_order call note i clients noted ≡ ok (a, i + j))
          × IsFirst clients j a)
        ⊎ (All Fails clients × ((all : Noted) × (try_in_order call note i clients noted ≡ err all)))
  unfolding try_in_order
  try_in_order_lem i [] noted = inr (tt, (noted, refl))
  try_in_order_lem i (c ∷ cs) noted = elim (Result-cases (call c)) [
    | inl (a, h) ↦
        let z : i ≡ i + 0 = omega arith in
        inl (
          a,
          0,
          rw (h, try_in_order) (ap (λ k. ok (a, k)) z),
          record {
            before = [];
            client = c;
            after = cs;
            parts = refl;
            index = refl;
            failed_before = tt;
            answer = h;
          },
        )
    | inr (e, h) ↦ elim (try_in_order_lem (suc i) cs (note noted c e)) [
      | inl (a, j, q, f) ↦
          let z : suc i + j ≡ i + suc j = omega arith in
          inl (
            a,
            suc j,
            rw (h, try_in_order) (q ∙ ap (λ k. ok (a, k)) z),
            record {
              before = c ∷ f.before;
              client = f.client;
              after = f.after;
              parts = ap (λ t. c ∷ t) f.parts;
              index = ap suc f.index;
              failed_before = ((e, h), f.failed_before);
              answer = f.answer;
            },
          )
      | inr (fs, (all, q)) ↦ inr (((e, h), fs), (all, rw (h, try_in_order) q))
    ]
  ]

  -- Every client but the one with index `skip` fails.
  pub try_others_lem :
      (skip i : ℕ) (clients : List (Client Info Metadata Source Error)) (noted : Noted)
      → ((j : ℕ) (c : Client Info Metadata Source Error)
          → get_elem? clients j ≡ some c
          → i + j ≡ skip
          → Fails c)
      → ((a : A) × (c : Client Info Metadata Source Error) × (try_others call note skip i clients
              noted
            ≡ ok a)
          × Memᴰ c clients
          × (call c ≡ ok a))
        ⊎ (All Fails clients
            × ((all : Noted) × (try_others call note skip i clients noted ≡ err all)))
  unfolding try_others
  try_others_lem skip i [] noted s = inr (tt, (noted, refl))
  try_others_lem skip i (c ∷ cs) noted s =
      let s' : (j : ℕ) (d : Client Info Metadata Source Error)
          → get_elem? cs j ≡ some d
          → suc i + j ≡ skip
          → Fails d =
        λ j d g q. s (suc j) d g (omega (arith, q)) in
      elim (==_cases i skip) [
        | inl e ↦ elim (try_others_lem skip (suc i) cs noted s') [
          | inl (a, d, q, m, h) ↦ inl (a, d, rw ((==_iff i skip).1 e, try_others) q, Memᴰ.tail m, h)
          | inr (fs, (all, q)) ↦
              inr
                ((s 0 c refl (omega (arith, e)), fs), (all, rw ((==_iff i skip).1 e, try_others) q))
        ]
        | inr (n, _) ↦ elim (Result-cases (call c)) [
          | inl (a, h) ↦ inl (a, c, rw (n, h, try_others), Memᴰ.head refl, h)
          | inr (x, h) ↦ elim (try_others_lem skip (suc i) cs (note noted c x) s') [
            | inl (a, d, q, m, k) ↦ inl (a, d, rw (n, h, try_others) q, Memᴰ.tail m, k)
            | inr (fs, (all, q)) ↦ inr (((x, h), fs), (all, rw (n, h, try_others) q))
          ]
        ]
      ]
