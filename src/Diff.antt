-- ===== src/Diff.antt =====
-- diff.go: the differences between two resolutions.
pub mod Sorting
pub mod Gather
pub mod Changes
pub mod Correct
pub mod Empty
pub mod Tests
use go_bzlmod.Prelude.{
  ℕ, ◌+◌, Ordering, lt, eq, gt, Bool, false, true, ◌&&◌, Str, Option, none, some, List, [], ◌∷◌,
  ◌++◌, length, strings_compare, ◌==◌, nat_eq, list_eq, if◌then◌else◌,
}
use go_bzlmod.Prelude.Maps.{Map, lookup, insert}
use go_bzlmod.Version

pub record ModuleChange : Type 0 where
  pub name : Str
  pub version : Str

pub record ModuleUpgrade : Type 0 where
  pub name : Str
  pub old_version : Str
  pub new_version : Str

pub record ResolutionDiff : Type 0 where
  pub added : List ModuleChange
  pub removed : List ModuleChange
  pub upgraded : List ModuleUpgrade
  pub downgraded : List ModuleUpgrade

-- The fields of `ModuleToResolve` that a diff reads.
pub record ModuleToResolve : Type 0 where
  pub name : Str
  pub version : Str

-- `len(s) == 0`
abbrev pub no_elements {ℓ} : {A : Type ℓ} → List A → Bool
no_elements [] = true
no_elements (_ ∷ _) = false

unfoldable pub is_empty : ResolutionDiff → Bool
is_empty d =
    no_elements d.added
    && (no_elements d.removed && (no_elements d.upgraded && no_elements d.downgraded))

unfoldable pub total_changes : ResolutionDiff → ℕ
total_changes d = length d.added + length d.removed + length d.upgraded + length d.downgraded

-- The loops that build the lookup maps.
unfoldable pub lookup_map : List ModuleToResolve → Map Str Str → Map Str Str
lookup_map [] versions = versions
lookup_map (m ∷ ms) versions = lookup_map ms (insert m.name m.version versions)

-- The map of a list, where nil is treated as empty.
abbrev pub versions_of : Option (List ModuleToResolve) → Map Str Str
versions_of none = []
versions_of (some ms) = lookup_map ms []

abbrev pub no_changes : ResolutionDiff
no_changes = record { added = []; removed = []; upgraded = []; downgraded = [] }

abbrev pub append_changes : ResolutionDiff → ResolutionDiff → ResolutionDiff
append_changes d e = record {
  added = d.added ++ e.added;
  removed = d.removed ++ e.removed;
  upgraded = d.upgraded ++ e.upgraded;
  downgraded = d.downgraded ++ e.downgraded;
}

-- What the loop over the new modules appends for one of them.
unfoldable pub change_of : Map Str Str → Str → Str → ResolutionDiff
change_of old name new_version = elim (lookup name old) [
  | none ↦ record {
    added = record { name = name; version = new_version } ∷ [];
    removed = [];
    upgraded = [];
    downgraded = [];
  }
  | some old_version ↦
      let upgrade : ModuleUpgrade = record {
        name = name;
        old_version = old_version;
        new_version = new_version;
      } in
      if old_version == new_version
      then no_changes
      else elim (Version.compare new_version old_version) [
        | gt ↦ record { added = []; removed = []; upgraded = upgrade ∷ []; downgraded = [] }
        | lt ↦ record { added = []; removed = []; upgraded = []; downgraded = upgrade ∷ [] }
        | eq ↦ no_changes
      ]
]

-- What the loop over the old modules appends for one of them.
unfoldable pub removal_of : Map Str Str → Str → Str → ResolutionDiff
removal_of new name old_version = elim (lookup name new) [
  | none ↦ record {
    added = [];
    removed = record { name = name; version = old_version } ∷ [];
    upgraded = [];
    downgraded = [];
  }
  | some _ ↦ no_changes
]

-- A loop over a map that appends to the diff.
unfoldable pub gather : (Str → Str → ResolutionDiff) → Map Str Str → ResolutionDiff → ResolutionDiff
gather f [] d = d
gather f ((name, version) ∷ rest) d = gather f rest (append_changes d (f name version))

-- `slices.SortFunc` by the name, here by insertion.
module _ {A : Type 0} (name : A → Str) where
  unfoldable pub insert_by_name : A → List A → List A
  insert_by_name x [] = x ∷ []
  insert_by_name x (y ∷ ys) =
      let rest = insert_by_name x ys in
      elim (strings_compare (name x) (name y)) [ gt ↦ y ∷ rest | _ ↦ x ∷ y ∷ ys ]

  unfoldable pub sort_by_name : List A → List A
  sort_by_name [] = []
  sort_by_name (x ∷ xs) = insert_by_name x (sort_by_name xs)

abbrev pub sort_module_changes : List ModuleChange → List ModuleChange
sort_module_changes = sort_by_name (λ c. c.name)

abbrev pub sort_module_upgrades : List ModuleUpgrade → List ModuleUpgrade
sort_module_upgrades = sort_by_name (λ u. u.name)

abbrev pub sorted_changes : ResolutionDiff → ResolutionDiff
sorted_changes d = record {
  added = sort_module_changes d.added;
  removed = sort_module_changes d.removed;
  upgraded = sort_module_upgrades d.upgraded;
  downgraded = sort_module_upgrades d.downgraded;
}

unfoldable pub diff_resolutions :
    Option (List ModuleToResolve) → Option (List ModuleToResolve) → ResolutionDiff
diff_resolutions old_list new_list =
    let old = versions_of old_list in
    let new = versions_of new_list in
    sorted_changes (gather (removal_of new) old (gather (change_of old) new no_changes))
