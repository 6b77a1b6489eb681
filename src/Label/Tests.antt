-- ===== src/Label/Tests.antt =====
-- Labels and names, and the theorem at one.
use go_bzlmod.Prelude.{codes, ok, err, ◌∷◌, ◌++◌, nat_eq, list_eq, ◌≡◌, refl}
use go_bzlmod.Label.{invalid_name, match_module_tail, new_module, parse_apparent_label}
use go_bzlmod.Label.Parts.{parse_apparent_label-parts}

module_rejected : new_module (codes "rules_") ≡ err (invalid_name (codes "rules_"))
unfolding new_module match_module_tail
module_rejected = refl

parse_apparent_label-parts_example :
    parse_apparent_label
      (b'@' ∷ (codes "rules_go" ++ b'/' ∷ b'/' ∷ (codes "go" ++ b':' ∷ codes "def.bzl")))
    ≡ ok (record {
      repo = codes "rules_go";
      pkg = codes "go";
      target = codes "def.bzl";
      raw = codes "@rules_go//go:def.bzl";
    })
parse_apparent_label-parts_example =
    parse_apparent_label-parts (codes "rules_go") (codes "go") (codes "def.bzl") refl
      ((λ e. cc), ((λ e. cc), tt))
