-- ===== src/Version/Cycle.antt =====
-- `Compare` of selection/version/version.go compares texts that do not parse byte by byte, also
-- with texts that do parse. So it is no order on all texts.
use go_bzlmod.Prelude.{
  ℕ, ◌<◌, lt, gt, Str, strings_compare, true, Option, none, some, [], ◌∷◌, ◌++◌, err, Result-cases,
  ◌≡◌, refl, sym, ◌∙◌, ap, subst, inl, inr, arith, all, All, All-append, Option-cases,
}
use go_bzlmod.Prelude.Orders.{flip}
use go_bzlmod.Version.{
  is_release_char, is_prerelease_char, match_pattern, parse, compare, compare_results, ParseError,
}
use go_bzlmod.Version.Order.{IsValid, compare-swap_args}
use go_bzlmod.Version.Pattern.{IsOptionalPart, after, match_pattern_iff}

-- Above the byte `!`.
abbrev IsHigh : Str → Type 0
IsHigh = All (λ c. b'!' < c)

release-IsHigh : (s : Str) → all is_release_char s ≡ true → IsHigh s
release-IsHigh [] h = tt
release-IsHigh (c ∷ s) h = (ground arith, release-IsHigh s (ground arith))

prerelease-IsHigh : (s : Str) → all is_prerelease_char s ≡ true → IsHigh s
prerelease-IsHigh [] h = tt
prerelease-IsHigh (c ∷ s) h = (ground arith, prerelease-IsHigh s (ground arith))

optional-IsHigh :
    (sign : ℕ) (o : Option Str) → b'!' < sign → IsOptionalPart o → IsHigh (after sign o)
optional-IsHigh sign none h k = tt
optional-IsHigh sign (some s) h k = (h, prerelease-IsHigh s k.0)

IsValid-IsHigh : (s : Str) → IsValid s → IsHigh s
unfolding parse
IsValid-IsHigh [] v = tt
IsValid-IsHigh (c ∷ s) v = elim (Option-cases (match_pattern (c ∷ s))) [
  | inl e ↦ absurd (let p = v.parses in ground arith)
  | inr ((r, g), e) ↦
      let (p, b, h, t, _) = (match_pattern_iff (c ∷ s) r g).0 e in
      subst IsHigh (sym t) (
        All-append (λ c. b'!' < c) r (after b'-' p ++ after b'+' b)
          (release-IsHigh r h.release_part.0)
          (All-append (λ c. b'!' < c) (after b'-' p) (after b'+' b)
            (optional-IsHigh b'-' p (omega arith) h.prerelease_part)
            (optional-IsHigh b'+' b (omega arith) h.build_part)))
]

marked : Str → Str
marked s = s ++ b'!' ∷ []

not-IsHigh : (s : Str) → ¬ IsHigh (marked s)
unfolding marked
not-IsHigh [] h = omega arith
not-IsHigh (c ∷ s) h = not-IsHigh s h.1

not_parsed : (s : Str) → ¬ IsHigh s → (e : ParseError) × (parse s ≡ err e)
not_parsed s h = elim (Result-cases (parse s)) [
  | inl (v, p) ↦ absurd (h (IsValid-IsHigh s (record { parsed = v; parses = p })))
  | inr failed ↦ failed
]

bytewise : (a b : Str) (e : ParseError) → parse b ≡ err e → compare a b ≡ strings_compare a b
unfolding compare compare_results
bytewise a b e h = elim (Result-cases (parse a)) [ inl (v, p) ↦ rw (p, h) | inr (f, p) ↦ rw p ]

compare_marked : (s : Str) → strings_compare s (marked s) ≡ lt
unfolding marked
compare_marked [] = refl
compare_marked (c ∷ s) = ground (arith, compare_marked s)

marked_below : (a b : Str) → IsHigh a → strings_compare a b ≡ gt → strings_compare a (marked b) ≡ gt
unfolding marked
marked_below [] [] h k = cc
marked_below [] (c ∷ b) h k = cc
marked_below (c ∷ a) [] h k = ground arith
marked_below (c ∷ a) (d ∷ b) h k = ground (arith, marked_below a b)

-- Wherever the order of two versions that parse differs from the order of their bytes, there is a
-- text `c` with which they make a cycle: a < b, b < c and c < a.
pub compare_cycle :
    (a b : Str)
    → IsValid a
    → compare a b ≡ lt
    → strings_compare a b ≡ gt
    → (c : Str) × (compare b c ≡ lt) × (compare c a ≡ lt)
compare_cycle a b v h k =
    let (e, p) = not_parsed (marked b) (not-IsHigh b) in
    (
      marked b,
      bytewise b (marked b) e p ∙ compare_marked b,
      compare-swap_args a (marked b)
          ∙ ap flip (bytewise a (marked b) e p ∙ marked_below a b (IsValid-IsHigh a v) k),
    )
