-- ===== src/Graph/Builder/Keys.antt =====
-- `parseModuleKey` of graph/builder.go reads what `ModuleKey.String` of selection/types.go writes.
use go_bzlmod.Prelude.{
  Str, codes, false, none, some, [], ◌∷◌, ◌++◌, ◌≡◌, ◌≢◌, refl, ◌==◌, ==_iff, ==_cases, contains,
  nat_eq, list_eq, inl, inr, arith,
}
use go_bzlmod.Selection.Types.{ModuleKey, key_string}
use go_bzlmod.Graph.Builder.{split_at_last, parse_module_key}

split_at_last-none : (s : Str) → contains s b'@' ≡ false → split_at_last s ≡ none
unfolding split_at_last
split_at_last-none [] h = refl
split_at_last-none (c ∷ s) h =
    let here : c == b'@' ≡ false = ground arith in
    let later : split_at_last s ≡ none = split_at_last-none s (ground arith) in rw (later, here)

split_at_last-append :
    (name version : Str)
    → contains version b'@' ≡ false
    → split_at_last (name ++ b'@' ∷ version) ≡ some (name, version)
unfolding split_at_last
split_at_last-append [] version h = rw (split_at_last-none version h)
split_at_last-append (c ∷ name) version h = rw (split_at_last-append name version h)

-- A key is read back from its text, if its version has no `@` and is not `_`. Its name may have an
-- `@`.
pub parse_module_key-key_string :
    (k : ModuleKey)
    → contains k.version b'@' ≡ false
    → k.version ≢ codes "_"
    → parse_module_key (key_string k) ≡ k
unfolding parse_module_key key_string
parse_module_key-key_string k h n = elim (==_cases k.version []) [
  | inl e ↦
      let s : split_at_last (k.name ++ codes "@_") ≡ some (k.name, codes "_") =
        split_at_last-append k.name (codes "_") refl in
      rw ((==_iff k.version []).1 e, key_string, s, parse_module_key) cc
  | inr (q, _) ↦ elim (==_cases k.version (codes "_")) [
    | inl e ↦ absurd (n e)
    | inr (r, _) ↦
        rw (q, key_string, split_at_last-append k.name k.version h, parse_module_key, r) refl
  ]
]
