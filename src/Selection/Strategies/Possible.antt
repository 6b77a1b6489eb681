-- ===== src/Selection/Strategies/Possible.antt =====
-- What `computePossibleResolutionResultsForOneDepSpec` of selection/selection.go offers.
use go_bzlmod.Prelude.{lt, Str, List, [], ◌∷◌, All, nat_eq, list_eq, ◌≡◌, ◌≢◌, Memᴰ}
use go_bzlmod.Prelude.Int.{ℤ, compare_ℤ, int_eq, ◌≤ℤ◌}
use go_bzlmod.Prelude.Maps.{Map, IsMap}
use go_bzlmod.Version
use go_bzlmod.Selection.Types.{key_eq, DepSpec, SelectionGroup, group_eq}
use go_bzlmod.Selection.Groups.{SelectedVersions}
use go_bzlmod.Selection.Strategies.{ResolutionResult}

-- `v` is selected for a group of the dependency's module at level `c` in range, and is no lower
-- than the version asked for.
pub record IsPossible (dep : DepSpec) (low high : ℤ) (selected : SelectedVersions) (c : ℤ) (v : Str)
    : Type 0 where
  pub group : SelectionGroup
  pub in_selected : Memᴰ (group, v) selected
  pub name : group.module_name ≡ dep.name
  pub level : group.compat_level ≡ c
  pub above : low ≤ℤ c
  pub below : c ≤ℤ high
  pub no_lower : Version.compare v dep.version ≢ lt

-- Every level is lower than all that follow it.
abbrev pub IsAscending : List ResolutionResult → Type 0
IsAscending [] = Unit
IsAscending (r ∷ rs) = All (λ s. compare_ℤ r.compat_level s.compat_level ≡ lt) rs × IsAscending rs

module _ (dep : DepSpec) (low high : ℤ) (all : SelectedVersions) where
  abbrev Offered : Map ℤ Str → Type 0
  Offered results = All (λ e. IsPossible dep low high all e.0 e.1) results × IsMap results

abbrev Lower : ResolutionResult → ResolutionResult → Type 0
Lower r s = compare_ℤ r.compat_level s.compat_level ≡ lt
