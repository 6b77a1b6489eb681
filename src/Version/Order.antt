-- ===== src/Version/Order.antt =====
-- The order of versions: `Compare` of selection/version/version.go is a total preorder on the
-- versions that parse.
use go_bzlmod.Prelude.{
  ℕ, Ordering, lt, eq, gt, Str, strings_compare, Str-IsPreorder, Bool, true, false, not, List, [],
  ◌∷◌, ltb, length, if◌then◌else◌, Result, ok, err, ◌≡◌, refl, ◌≢◌, arith, ◌⊎◌, fun_ext,
  compare as compare_ℕ,
}
use go_bzlmod.Prelude.Orders.{
  IsPreorder, Chain, flip, then_by, lex, lex-IsPreorder, compare-swap, nat_compare-Chain,
  eq_of_flip, IsPreorder-on, IsPreorder-then_by,
}
use go_bzlmod.Version.{
  Identifier, ParsedVersion, ParseError, parse, compare_identifiers, first_difference,
  compare_identifier_lists, compare_parsed, compare_results, compare, max,
}

-- Numbers before texts, numbers by value, texts byte by byte.
abbrev identifier_order : Bool → ℕ → Str → Bool → ℕ → Str → Ordering
identifier_order true m s true n t = compare_ℕ m n
identifier_order true m s false n t = lt
identifier_order false m s true n t = gt
identifier_order false m s false n t = strings_compare s t

compare_identifiers_lem :
    (a b : Identifier)
    → compare_identifiers a b
      ≡ identifier_order a.is_digits_only a.as_number a.as_string b.is_digits_only b.as_number
          b.as_string
unfolding compare_identifiers
compare_identifiers_lem a b = ground arith

identifier_order-swap :
    (d : Bool) (m : ℕ) (s : Str) (e : Bool) (n : ℕ) (t : Str)
    → identifier_order e n t d m s ≡ flip (identifier_order d m s e n t)
identifier_order-swap true m s true n t = compare-swap m n
identifier_order-swap true m s false n t = refl
identifier_order-swap false m s true n t = refl
identifier_order-swap false m s false n t = Str-IsPreorder.swap s t

Chain-lt-lt : (r : Ordering) → Chain lt r lt
Chain-lt-lt lt = refl
Chain-lt-lt eq = refl
Chain-lt-lt gt = tt

Chain-any_lt : (r : Ordering) → Chain r lt lt
Chain-any_lt lt = refl
Chain-any_lt eq = refl
Chain-any_lt gt = tt

Chain-gt-gt : (r : Ordering) → Chain gt r gt
Chain-gt-gt lt = tt
Chain-gt-gt eq = refl
Chain-gt-gt gt = refl

Chain-any_gt : (r : Ordering) → Chain r gt gt
Chain-any_gt lt = tt
Chain-any_gt eq = refl
Chain-any_gt gt = refl

identifier_order-Chain :
    (d : Bool) (m : ℕ) (s : Str) (e : Bool) (n : ℕ) (t : Str) (f : Bool) (o : ℕ) (u : Str)
    → Chain
        (identifier_order d m s e n t)
        (identifier_order e n t f o u)
        (identifier_order d m s f o u)
identifier_order-Chain true m s true n t true o u = nat_compare-Chain m n o
identifier_order-Chain true m s true n t false o u = Chain-any_lt _
identifier_order-Chain true m s false n t true o u = tt
identifier_order-Chain true m s false n t false o u = Chain-lt-lt _
identifier_order-Chain false m s true n t true o u = Chain-gt-gt _
identifier_order-Chain false m s true n t false o u = tt
identifier_order-Chain false m s false n t true o u = Chain-any_gt _
identifier_order-Chain false m s false n t false o u = Str-IsPreorder.chain s t u

pub compare_identifiers-IsPreorder : IsPreorder compare_identifiers
compare_identifiers-IsPreorder = record {
  swap = λ a b.
      rw (compare_identifiers_lem a b, compare_identifiers_lem b a)
        (identifier_order-swap a.is_digits_only a.as_number a.as_string b.is_digits_only b.as_number
          b.as_string);
  chain = λ a b c. simp compare_identifiers_lem (
      identifier_order-Chain a.is_digits_only a.as_number a.as_string b.is_digits_only b.as_number
        b.as_string c.is_digits_only c.as_number c.as_string);
}

-- The indexed loop and the comparison of the lengths are the lexicographic order.
pub compare_identifier_lists_lem :
    (a b : List Identifier) → compare_identifier_lists a b ≡ lex compare_identifiers a b
unfolding compare_identifier_lists first_difference
compare_identifier_lists_lem [] [] = refl
compare_identifier_lists_lem [] (y ∷ ys) = ground arith
compare_identifier_lists_lem (x ∷ xs) [] = ground arith
compare_identifier_lists_lem (x ∷ xs) (y ∷ ys) = ground (arith, compare_identifier_lists_lem xs ys)

pub compare_identifier_lists-IsPreorder : IsPreorder compare_identifier_lists
compare_identifier_lists-IsPreorder =
    rw (fun_ext (λ a. fun_ext (λ b. compare_identifier_lists_lem a b)))
      (lex-IsPreorder compare_identifiers compare_identifiers-IsPreorder)

-- `true` before `false`.
abbrev true_first : Bool → Bool → Ordering
true_first true true = eq
true_first true false = lt
true_first false true = gt
true_first false false = eq

true_first-IsPreorder : IsPreorder true_first
true_first-IsPreorder = record { swap = λ a b. ground arith; chain = true_first-chain }
  where
    true_first-chain : (a b c : Bool) → Chain (true_first a b) (true_first b c) (true_first a c)
    true_first-chain true true true = refl
    true_first-chain true true false = refl
    true_first-chain true false true = tt
    true_first-chain true false false = refl
    true_first-chain false true true = refl
    true_first-chain false true false = tt
    true_first-chain false false true = refl
    true_first-chain false false false = refl

-- `len(v.Prerelease) > 0`
abbrev pub is_prerelease : ParsedVersion → Bool
is_prerelease v = ltb 0 (length v.prerelease)

-- The comparison as a chain of independent criteria, after the comments of the source.
abbrev pub version_order : ParsedVersion → ParsedVersion → Ordering
version_order a b = then_by (true_first (not a.is_empty) (not b.is_empty)) (
    then_by (compare_identifier_lists a.release b.release) (
      then_by (true_first (is_prerelease a) (is_prerelease b))
        (compare_identifier_lists a.prerelease b.prerelease)))

-- The empty version has no other parts.
abbrev pub significant : ParsedVersion → ParsedVersion
significant v =
    if v.is_empty
    then record { release = []; prerelease = []; normalized = []; is_empty = true }
    else v

version_order-IsPreorder : IsPreorder version_order
version_order-IsPreorder =
    IsPreorder-then_by (IsPreorder-on (λ v. not v.is_empty) true_first-IsPreorder) (
      IsPreorder-then_by (IsPreorder-on (λ v. v.release) compare_identifier_lists-IsPreorder) (
        IsPreorder-then_by (IsPreorder-on is_prerelease true_first-IsPreorder)
          (IsPreorder-on (λ v. v.prerelease) compare_identifier_lists-IsPreorder)))

no_identifiers : compare_identifier_lists [] [] ≡ eq
unfolding compare_identifier_lists first_difference
no_identifiers = refl

compare_parsed_lem :
    (a b : ParsedVersion) → compare_parsed a b ≡ version_order (significant a) (significant b)
unfolding compare_parsed
compare_parsed_lem a b = ground (arith, no_identifiers)

pub compare_parsed-IsPreorder : IsPreorder compare_parsed
compare_parsed-IsPreorder =
    rw (fun_ext (λ a. fun_ext (λ b. compare_parsed_lem a b)))
      (IsPreorder-on significant version_order-IsPreorder)

-- A text that `Parse` accepts.
pub record IsValid (s : Str) : Type 0 where
  pub parsed : ParsedVersion
  pub parses : parse s ≡ ok parsed

pub compare-eq-compare_parsed :
    (a b : Str) (v : IsValid a) (w : IsValid b) → compare a b ≡ compare_parsed v.parsed w.parsed
unfolding compare compare_results
compare-eq-compare_parsed a b v w = rw (v.parses, w.parses)

compare_results-swap :
    (a b : Str) (va vb : Result ParseError ParsedVersion)
    → compare_results b a vb va ≡ flip (compare_results a b va vb)
unfolding compare_results
compare_results-swap a b (ok va) (ok vb) = compare_parsed-IsPreorder.swap va vb
compare_results-swap a b (ok va) (err e) = Str-IsPreorder.swap a b
compare_results-swap a b (err e) (ok vb) = Str-IsPreorder.swap a b
compare_results-swap a b (err e) (err e') = Str-IsPreorder.swap a b

-- Exchanging the arguments reverses the result, for all texts.
pub compare-swap_args : (a b : Str) → compare b a ≡ flip (compare a b)
unfolding compare compare_results
compare-swap_args a b = compare_results-swap a b (parse a) (parse b)

pub compare_refl : (a : Str) → compare a a ≡ eq
compare_refl a = eq_of_flip (compare a a) (compare-swap_args a a)

-- On texts that parse, the comparisons of a with b and of b with c determine the one of a with c
-- wherever a total preorder does.
pub compare-Chain :
    (a b c : Str)
    → IsValid a
    → IsValid b
    → IsValid c
    → Chain (compare a b) (compare b c) (compare a c)
compare-Chain a b c u v w =
    rw
      (
        compare-eq-compare_parsed a b u v,
        compare-eq-compare_parsed b c v w,
        compare-eq-compare_parsed a c u w,
      )
      (compare_parsed-IsPreorder.chain u.parsed v.parsed w.parsed)

-- The result is one of the two, and no less than either.
pub max_upper_bound :
    (a b : Str)
    → ((max a b ≡ a) ⊎ (max a b ≡ b)) × (compare (max a b) a ≢ lt) × (compare (max a b) b ≢ lt)
unfolding max
max_upper_bound a b = ground (arith, compare_refl a, compare_refl b, compare-swap_args a b)
