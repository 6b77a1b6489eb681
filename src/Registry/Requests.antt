-- ===== src/Registry/Requests.antt =====
-- What the requests of registry_chain.go return and remember.
use go_bzlmod.Prelude.{
  ℕ, ◌+◌, Str, Option, if◌then◌else◌, ◌==◌, none, some, Option-cases, List, [], ◌∷◌, ◌++◌, length,
  All, Result, ok, err, Result-cases, ==_cases, ==_iff, nat_eq, list_eq, ◌≡◌, refl, sym, ap, subst,
  ◌∙◌, ◌⊎◌, inl, inr, Memᴰ, arith,
}
use go_bzlmod.Prelude.Memᴰ
use go_bzlmod.Prelude.Maps.{lookup, lookup-insert}
use go_bzlmod.Registry.{
  Client, RegistryChain, FetchError, failed, get_elem?, try_in_order, fetch, get_module_file,
  get_module_metadata, get_module_source, note_all, note_last,
}
use go_bzlmod.Registry.Fetch.{Fails, IsFirst, get_elem?-mem, try_in_order_lem, try_others_lem}

get_elem?-append :
    {A : Type 0} (xs : List A) (x : A) (ys : List A) → get_elem? (xs ++ x ∷ ys) (length xs) ≡ some x
get_elem?-append [] x ys = refl
get_elem?-append (z ∷ xs) x ys = get_elem?-append xs x ys

module _ {Info Metadata Source Error : Type 0} where
  -- Every remembered index is that of a registry.
  abbrev pub InRange : RegistryChain Info Metadata Source Error → Type 0
  InRange rc =
      (name : Str) (i : ℕ)
      → lookup name rc.module_registry ≡ some i
      → (c : Client Info Metadata Source Error) × (get_elem? rc.clients i ≡ some c)

  module _ {A Noted : Type 0} (call : Client Info Metadata Source Error → Result Error A)
      (note : Noted → Client Info Metadata Source Error → Error → Noted) where
    -- The answer of one of the registries, or an error if all of them fail.
    abbrev pub Answers :
        RegistryChain Info Metadata Source Error → Result (FetchError Noted) A → Type 0
    Answers rc r =
        ((a : A) × (c : Client Info Metadata Source Error) × (r ≡ ok a)
          × Memᴰ c rc.clients
          × (call c ≡ ok a))
        ⊎ (All (Fails call note) rc.clients × ((all : Noted) × (r ≡ err (failed all))))

    -- The registry of a module that is remembered is asked first, and the memory is kept. For a module
    -- that is not, the first registry that answers is the one that does, and is remembered; the memory
    -- is kept if there is none.
    abbrev pub Remembers :
        Str
        → RegistryChain Info Metadata Source Error
        → Result (FetchError Noted) A
        → RegistryChain Info Metadata Source Error
        → Type 0
    Remembers name rc r rc' =
        ((i : ℕ) × (lookup name rc.module_registry ≡ some i)
          × (rc' ≡ rc)
          × ((c : Client Info Metadata Source Error) (a : A)
              → get_elem? rc.clients i ≡ some c
              → call c ≡ ok a
              → r ≡ ok a))
        ⊎ ((lookup name rc.module_registry ≡ none)
            × (((i : ℕ) × (a : A) × (r ≡ ok a)
                  × IsFirst call note rc.clients i a
                  × (rc'.clients ≡ rc.clients)
                  × ((n : Str)
                      → lookup n rc'.module_registry
                        ≡ (if name == n then some i else lookup n rc.module_registry)))
                ⊎ (All (Fails call note) rc.clients × (rc' ≡ rc))))

    pub fetch_lem :
        (noted : Noted) (name : Str) (rc : RegistryChain Info Metadata Source Error)
        → InRange rc
        → Answers rc (fetch call note noted name rc).0
          × Remembers name rc (fetch call note noted name rc).0 (fetch call note noted name rc).1
    unfolding fetch
    fetch_lem noted name rc h = elim (Option-cases (lookup name rc.module_registry)) [
      | inl f ↦ elim (try_in_order_lem call note 0 rc.clients noted) [
        | inl (a, i, q, first) ↦
            let m : Memᴰ first.client rc.clients =
              subst (Memᴰ first.client) (sym first.parts)
                (Memᴰ.append_right first.before (Memᴰ.head refl)) in
            let q' : try_in_order call note 0 rc.clients noted ≡ ok (a, i) =
              q ∙ ap (λ k. ok (a, k)) (omega arith) in
            rw (f, q', fetch)
              (
                inl (a, first.client, refl, m, first.answer),
                inr (
                  refl,
                  inl (i, a, refl, first, refl, λ n. lookup-insert name n i rc.module_registry),
                ),
              )
        | inr (fs, (all, q)) ↦ rw (f, q, fetch) (inr (fs, (all, refl)), inr (refl, inr (fs, refl)))
      ]
      | inr (i, f) ↦
          let (c, g) = h name i f in
          elim (Result-cases (call c)) [
            | inl (a, k) ↦
                rw (f, g, k, fetch)
                  (
                    inl (a, c, refl, get_elem?-mem rc.clients i g, k),
                    inl (i, refl, refl, λ d x at_i y. ap ok (agrees c d a x g k at_i y)),
                  )
            | inr (e, k) ↦
                let skipped : (j : ℕ) (d : Client Info Metadata Source Error)
                    → get_elem? rc.clients j ≡ some d
                    → 0 + j ≡ i
                    → Fails call note d =
                  λ j d at_j same.
                    let p : some d ≡ some c =
                      sym at_j
                      ∙ ap (get_elem? rc.clients) (let z : j ≡ i = omega (arith, same) in z)
                      ∙ g in
                    let q : c ≡ d = cc in (e, subst (λ x. call x ≡ err e) q k) in
                elim (try_others_lem call note i 0 rc.clients (note noted c e) skipped) [
                  | inl (a, d, q, m, t) ↦
                      rw (f, g, k, q, fetch)
                        (
                          inl (a, d, refl, m, t),
                          inl (i, refl, refl, λ u x at_i y. absurd (fails c u e x g k at_i y)),
                        )
                  | inr (fs, (all, q)) ↦
                      rw (f, g, k, q, fetch)
                        (
                          inr (fs, (all, refl)),
                          inl (i, refl, refl, λ u x at_i y. absurd (fails c u e x g k at_i y)),
                        )
                ]
          ]
    ]
      where
        agrees :
            (c d : Client Info Metadata Source Error) (a x : A)
            {o : Option (Client Info Metadata Source Error)}
            → o ≡ some c
            → call c ≡ ok a
            → o ≡ some d
            → call d ≡ ok x
            → a ≡ x
        agrees c d a x g k at_i y =
            let p : some c ≡ some d = sym g ∙ at_i in
            let q : c ≡ d = cc in let z : ok a ≡ ok x = sym k ∙ ap call q ∙ y in cc

        fails :
            (c d : Client Info Metadata Source Error) (e : Error) (x : A)
            {o : Option (Client Info Metadata Source Error)}
            → o ≡ some c
            → call c ≡ err e
            → o ≡ some d
            → call d ≡ ok x
            → ⊥
        fails c d e x g k at_i y =
            (let p : some c ≡ some d = sym g ∙ at_i in
              let q : c ≡ d = cc in let z : err e ≡ ok x = sym k ∙ ap call q ∙ y in cc)

    Remembers-InRange :
        (name : Str) (rc : RegistryChain Info Metadata Source Error)
        (r : Result (FetchError Noted) A) (rc' : RegistryChain Info Metadata Source Error)
        → InRange rc
        → Remembers name rc r rc'
        → InRange rc'
    Remembers-InRange name rc r rc' h (inl (i, f, e, _)) = subst InRange (sym e) h
    Remembers-InRange name rc r rc' h (inr (f, inr (_, e))) = subst InRange (sym e) h
    Remembers-InRange name rc r rc' h (inr (f, inl (i, a, _, first, c, e))) = λ n j g.
        elim (==_cases name n) [
          | inl p ↦
              let q : some i ≡ some j = sym (rw ((==_iff name n).1 p) at (e n)) ∙ g in
              let same : j ≡ i = cc in
              (
                first.client,
                ap (λ cs. get_elem? cs j) c
                    ∙ ap (get_elem? rc.clients) (same ∙ first.index)
                    ∙ ap (λ cs. get_elem? cs (length first.before)) first.parts
                    ∙ get_elem?-append first.before first.client first.after,
              )
          | inr (p, _) ↦
              let (d, k) = h n j (sym (rw p at (e n)) ∙ g) in (d, ap (λ cs. get_elem? cs j) c ∙ k)
        ]

    Remembers-stays :
        (name : Str) (rc : RegistryChain Info Metadata Source Error)
        (r : Result (FetchError Noted) A) (rc' : RegistryChain Info Metadata Source Error) (n : Str)
        (j : ℕ)
        → Remembers name rc r rc'
        → lookup n rc.module_registry ≡ some j
        → lookup n rc'.module_registry ≡ some j
    Remembers-stays name rc r rc' n j (inl (i, f, e, _)) g =
        ap (λ x. lookup n x.module_registry) e ∙ g
    Remembers-stays name rc r rc' n j (inr (f, inr (_, e))) g =
        ap (λ x. lookup n x.module_registry) e ∙ g
    Remembers-stays name rc r rc' n j (inr (f, inl (i, a, _, first, c, e))) g =
        e n ∙ elim (==_cases name n) [
          | inl p ↦
              absurd
                (let z : none ≡ some j = sym f ∙ ap (λ x. lookup x rc.module_registry) p ∙ g in cc)
          | inr (p, _) ↦ rw p g
        ]

  pub get_module_file_correct :
      (name version : Str) (rc : RegistryChain Info Metadata Source Error)
      → InRange rc
      → Answers (λ c. c.module_file name version) note_all rc (get_module_file name version rc).0
        × Remembers
            (λ c. c.module_file name version)
            note_all
            name
            rc
            (get_module_file name version rc).0
            (get_module_file name version rc).1
  unfolding get_module_file
  get_module_file_correct name version rc h =
      fetch_lem (λ c. c.module_file name version) note_all [] name rc h

  -- A request for metadata returns the answer of one of the registries, and fails only if all of
  -- them fail; it remembers a registry only for a module that had none: the first that answers. The
  -- remembered indices are assumed to be in range.
  pub get_module_metadata_correct :
      (name : Str) (rc : RegistryChain Info Metadata Source Error)
      → InRange rc
      → Answers (λ c. c.module_metadata name) note_last rc (get_module_metadata name rc).0
        × Remembers
            (λ c. c.module_metadata name)
            note_last
            name
            rc
            (get_module_metadata name rc).0
            (get_module_metadata name rc).1
  unfolding get_module_metadata
  get_module_metadata_correct name rc h =
      fetch_lem (λ c. c.module_metadata name) note_last none name rc h

  -- A request for a source returns the answer of one of the registries, and fails only if all of
  -- them fail; it remembers a registry only for a module that had none: the first that answers. The
  -- remembered indices are assumed to be in range.
  pub get_module_source_correct :
      (name version : Str) (rc : RegistryChain Info Metadata Source Error)
      → InRange rc
      → Answers
          (λ c. c.module_source name version)
          note_last
          rc
          (get_module_source name version rc).0
        × Remembers
            (λ c. c.module_source name version)
            note_last
            name
            rc
            (get_module_source name version rc).0
            (get_module_source name version rc).1
  unfolding get_module_source
  get_module_source_correct name version rc h =
      fetch_lem (λ c. c.module_source name version) note_last none name rc h

  -- A request of each kind keeps every remembered index in range, and keeps what is remembered.
  pub requests-InRange :
      (name version : Str) (rc : RegistryChain Info Metadata Source Error)
      → InRange rc
      → InRange (get_module_file name version rc).1
        × InRange (get_module_metadata name rc).1
        × InRange (get_module_source name version rc).1
        × ((n : Str) (j : ℕ)
            → lookup n rc.module_registry ≡ some j
            → (lookup n (get_module_file name version rc).1.module_registry ≡ some j)
              × (lookup n (get_module_metadata name rc).1.module_registry ≡ some j)
              × (lookup n (get_module_source name version rc).1.module_registry ≡ some j))
  requests-InRange name version rc h =
      let f = (get_module_file_correct name version rc h).1 in
      let m = (get_module_metadata_correct name rc h).1 in
      let s = (get_module_source_correct name version rc h).1 in
      (
        Remembers-InRange _ note_all name rc _ _ h f,
        Remembers-InRange _ note_last name rc _ _ h m,
        Remembers-InRange _ note_last name rc _ _ h s,
        λ n j g. (
          Remembers-stays _ note_all name rc _ _ n j f g,
          Remembers-stays _ note_last name rc _ _ n j m g,
          Remembers-stays _ note_last name rc _ _ n j s g,
        ),
      )
