-- ===== src/Version/Pattern.antt =====
-- The language of `versionPattern` in selection/version/version.go: RELEASE[-PRERELEASE][+BUILD].
use go_bzlmod.Prelude.{
  ℕ, ◌<◌, Str, span, all, Stops, span-append, span_parts, span-all, Bool, true, Option, none, some,
  [], ◌∷◌, ◌++◌, length, ◌≡◌, refl, sym, ◌∙◌, ap₂, ◌↔◌, inl, inr, arith, Bool-cases, ==_iff, ◌==◌,
  nat_eq, Option-cases,
}
use go_bzlmod.Version.{
  is_release_char, is_prerelease_char, match_build, match_prerelease, match_pattern,
}

-- A non-empty text over a class of bytes.
abbrev pub IsPart : (ℕ → Bool) → Str → Type 0
IsPart p s = (all p s ≡ true) × (0 < length s)

abbrev pub IsOptionalPart : Option Str → Type 0
IsOptionalPart none = Unit
IsOptionalPart (some s) = IsPart is_prerelease_char s

abbrev pub after : ℕ → Option Str → Str
after sign none = []
after sign (some s) = sign ∷ s

-- RELEASE[-PRERELEASE][+BUILD]
abbrev pub render : Str → Option Str → Option Str → Str
render release prerelease build = release ++ (after b'-' prerelease ++ after b'+' build)

-- What the group of an optional part holds.
abbrev pub group : Option Str → Str
group none = []
group (some s) = s

pub record IsGrammatical (release : Str) (prerelease build : Option Str) : Type 0 where
  pub release_part : IsPart is_release_char release
  pub prerelease_part : IsOptionalPart prerelease
  pub build_part : IsOptionalPart build

build_matches : (build : Option Str) → IsOptionalPart build → match_build (after b'+' build) ≡ true
unfolding match_build
build_matches none h = refl
build_matches (some []) h = absurd (omega arith)
build_matches (some (c ∷ s)) h = h.0

build-Stops : (build : Option Str) → Stops is_prerelease_char (after b'+' build)
build-Stops none = tt
build-Stops (some s) = refl

tail-Stops :
    (prerelease build : Option Str)
    → Stops is_release_char (after b'-' prerelease ++ after b'+' build)
tail-Stops none none = tt
tail-Stops none (some b) = refl
tail-Stops (some p) b = refl

prerelease_matches :
    (prerelease build : Option Str)
    → IsOptionalPart prerelease
    → IsOptionalPart build
    → match_prerelease (after b'-' prerelease ++ after b'+' build) ≡ some (group prerelease)
unfolding match_prerelease
prerelease_matches none none h k = refl
prerelease_matches none (some b) h k = rw (build_matches (some b) k)
prerelease_matches (some p) build h k =
    rw (span-append is_prerelease_char p (after b'+' build) h.0 (build-Stops build))
      (ground (arith, build_matches build k))

render_matches :
    (release : Str) (prerelease build : Option Str)
    → IsGrammatical release prerelease build
    → match_pattern (render release prerelease build) ≡ some (release, group prerelease)
unfolding match_pattern
render_matches release prerelease build h =
    rw
      (span-append is_release_char release (after b'-' prerelease ++ after b'+' build)
        h.release_part.0 (tail-Stops prerelease build))
      (rw (prerelease_matches prerelease build h.prerelease_part h.build_part)
        (ground (arith, h.release_part.1)))

build_found :
    (s : Str)
    → match_build s ≡ true
    → (build : Option Str) × IsOptionalPart build × (s ≡ after b'+' build)
unfolding match_build
build_found [] h = (none, tt, refl)
build_found (c ∷ []) h = absurd (ground arith)
build_found (c ∷ d ∷ s) h =
    (some (d ∷ s), (ground arith, omega arith), ground (arith, ==_iff c b'+'))

prerelease_found :
    (s g : Str)
    → match_prerelease s ≡ some g
    → (prerelease : Option Str) × (build : Option Str) × IsOptionalPart prerelease
      × IsOptionalPart build
      × (s ≡ after b'-' prerelease ++ after b'+' build)
      × (group prerelease ≡ g)
unfolding match_prerelease
prerelease_found [] g h = (none, none, tt, tt, refl, ground arith)
prerelease_found (c ∷ s) g h = elim (Bool-cases (c == b'-')) [
  | inr other ↦
      let (build, part, e) = build_found (c ∷ s) (ground arith) in
      (none, build, tt, part, e, ground arith)
  | inl dash ↦
      let (build, part, e) = build_found (span is_prerelease_char s).1 (ground arith) in
      (
        some (span is_prerelease_char s).0,
        build,
        (span-all is_prerelease_char s, ground arith),
        part,
        ground (arith, ==_iff c b'-', span_parts is_prerelease_char s),
        ground arith,
      )
]

groups_found :
    (s release g : Str)
    → match_pattern s ≡ some (release, g)
    → (release ≡ (span is_release_char s).0)
      × (0 < length release)
      × (match_prerelease (span is_release_char s).1 ≡ some g)
unfolding match_pattern
groups_found s release g h = elim (Option-cases (match_prerelease (span is_release_char s).1)) [
  | inl e ↦ absurd (ground arith)
  | inr (p, e) ↦ (ground arith, ground arith, ground arith)
]

-- The scan finds the groups of the pattern: a text matches with groups `release` and `g` exactly
-- when it is RELEASE[-PRERELEASE][+BUILD] over the classes of the pattern, with that release, and
-- with `g` the prerelease, empty if there is none.
pub match_pattern_iff :
    (s release g : Str)
    → (match_pattern s ≡ some (release, g)) ↔ (
        (prerelease : Option Str) × (build : Option Str) × IsGrammatical release prerelease build
        × (s ≡ render release prerelease build)
        × (group prerelease ≡ g))
match_pattern_iff s release g = (
  λ h.
      let (e, pos, rest) = groups_found s release g h in
      let (prerelease, build, p, b, t, q) = prerelease_found (span is_release_char s).1 g rest in
      (
        prerelease,
        build,
        record {
          release_part = (rw e (span-all is_release_char s), pos);
          prerelease_part = p;
          build_part = b;
        },
        span_parts is_release_char s ∙ ap₂ ◌++◌ (sym e) t,
        q,
      ),
  λ h. rw (h.3, ← h.4) (render_matches release h.0 h.1 h.2),
)
