-- ===== src/Selection/Strategies/Default.antt =====
-- The default strategy of selection/selection.go resolves each dependency to the highest version of
-- its group, which is no lower than the version that it asks for.
use go_bzlmod.Prelude.{some, [], ◌≡◌, subst, Memᴰ}
use go_bzlmod.Prelude.Maps.{lookup, mem_of_lookup}
use go_bzlmod.Version.Sorting.{Le}
use go_bzlmod.Selection.Types.{ModuleKey, key_eq, DepSpec, to_module_key, SelectionGroup, group_eq}
use go_bzlmod.Selection.Groups.{SelectionGroups, selected_versions}
use go_bzlmod.Selection.Groups.Highest.{AllValid, Occurs, selected_versions-IsHighest}
use go_bzlmod.Selection.Strategies.{make_default_strategy, selected_of}

-- A dependency on a module of the graph resolves to the version of a module of the same selection
-- group, and that version is no lower than those of all modules of the group; so it is no lower
-- than the one asked for. This is for versions that parse.
pub default_strategy_selects_highest :
    (groups : SelectionGroups) (dep : DepSpec) (g : SelectionGroup)
    → AllValid groups
    → lookup (to_module_key dep) groups ≡ some g
    → let v = make_default_strategy groups (selected_versions groups []) dep in
      Occurs groups g v × Le dep.version v × ((k : ModuleKey) → Memᴰ (k, g) groups → Le k.version v)
unfolding make_default_strategy
default_strategy_selects_highest groups dep g a e =
    let h = selected_versions-IsHighest groups a in
    let (v, found, le) =
      h.covers (to_module_key dep) g (mem_of_lookup (to_module_key dep) groups e) in
    let same : v ≡ make_default_strategy groups (selected_versions groups []) dep =
      rw (e, make_default_strategy) (rw (found, selected_of)) in
    subst
      (λ x.
        Occurs groups g x
        × Le dep.version x
        × ((k : ModuleKey) → Memᴰ (k, g) groups → Le k.version x))
      same
      (
        h.occurs g v found,
        le,
        λ k m.
            let (w, found', le') = h.covers k g m in
            let q : w ≡ v = cc (found, found') in subst (Le k.version) q le',
      )
