-- ===== src/Resolver/Building/Proper.antt =====
-- Every state of the rounds in resolver.go has a proper graph of requests, which is what the choice
-- of versions needs.
use go_bzlmod.Prelude.{
  Bool, false, not, ◌&&◌, ◌||◌, Bool-cases, Str, Option, none, some, Result, ok, err, List, [], ◌∷◌,
  List-cases, contains, All, ◌==◌, ◌≡◌, refl, sym, subst, inl, inr, Memᴰ, nat_eq, list_eq,
}
use go_bzlmod.Prelude.Maps.{Map, lookup}
use go_bzlmod.Modules.{Dependency, Override, ModuleInfo}
use go_bzlmod.Metadata.{at_version, has_value}
use go_bzlmod.Discovery.{FetchFailure, not_found, failed, skips, overridden_version}
use go_bzlmod.Resolver.{DepRequest, versions_of, add_request, apply_mvs}
use go_bzlmod.Resolver.Mvs.{AllValid, highest_selected}
use go_bzlmod.Version.Sorting.{Le}
use go_bzlmod.Resolver.Building.{
  Inputs, Task, Frame, Build, overrides, enqueue, open_module, open_override, too_deep, with_graph,
  with_visiting, Progress, goes, stops, process_dep, process_nodep, requester_of, nodep_requester,
  skips_fetch,
}
use go_bzlmod.Resolver.Building.Rounds.{
  run_frame, after_frame, fetch_from, remove_missing, is_missing_root_dep, end_task, Step, work,
  rest, take, finish, abandon, start_round, Reached, begin, next, again,
}
use go_bzlmod.Resolver.Building.Keyed.{
  IsProper, add_request-IsProper, add_nodep_request-IsProper, remove_dependency-IsProper,
}

module _ {Error : Type 0} (w : Inputs Error) where
  abbrev ProperAt : Build Error → Type 0
  ProperAt s = IsProper s.dep_graph

  abbrev ProperAfter : Progress w → Type 0
  ProperAfter (goes s opened) = ProperAt s
  ProperAfter (stops s e) = ProperAt s

  enqueue-ProperAt :
      (name version : Str) (path : List Str) (s : Build Error)
      → ProperAt s
      → ProperAt (enqueue w name version path s)
  unfolding enqueue
  enqueue-ProperAt name version path s p =
      elim (Bool-cases (has_value s.failure || contains s.visiting (at_version name version))) [
        | inl h ↦ rw (h, enqueue) p
        | inr h ↦ elim (Bool-cases (too_deep path)) [
          | inl d ↦ rw (h, enqueue, d) p
          | inr d ↦ rw (h, enqueue, d) p
        ]
      ]

  open_module-ProperAt :
      (m : ModuleInfo) (is_root : Bool) (s : Build Error)
      → ProperAt s
      → ProperAt (open_module w m is_root s)
  unfolding open_module
  open_module-ProperAt m is_root s p = p

  open_override-ProperAfter :
      (key : Str) (path : List Str) (o : Option ModuleInfo) (s : Build Error)
      → ProperAt s
      → ProperAfter (open_override w key path o s)
  unfolding open_override
  open_override-ProperAfter key path none s p = p
  open_override-ProperAfter key path (some m) s p = elim (Bool-cases (too_deep path)) [
    | inl d ↦ rw (d, open_override) p
    | inr d ↦ elim (Bool-cases (contains s.visiting key)) [
      | inl h ↦ rw (d, open_override, h) p
      | inr h ↦
          rw (d, open_override, h)
            (open_module-ProperAt m false (with_visiting w (key ∷ s.visiting) s) p)
    ]
  ]

  process_dep-ProperAfter :
      (fr : Frame) (dep : Dependency) (s : Build Error)
      → ProperAt s
      → ProperAfter (process_dep w fr dep s)
  unfolding process_dep
  process_dep-ProperAfter fr dep s p =
      let o : Option Override = lookup dep.name (overrides w) in
      let version : Str = overridden_version o dep.version in
      let requested : Build Error =
        with_graph w
          (add_request dep.name version dep.dev_dependency (requester_of fr.path) s.dep_graph) s in
      let q : ProperAt requested =
        add_request-IsProper dep.name version dep.dev_dependency (requester_of fr.path) s.dep_graph
          p in
      elim (Bool-cases (skips w.include_dev_deps fr.is_root dep)) [
        | inl h ↦ rw (h, process_dep) p
        | inr h ↦ elim (Bool-cases (version == [] && not (skips_fetch w o))) [
          | inl v ↦ rw (h, process_dep, v) p
          | inr v ↦ elim (Bool-cases (skips_fetch w o)) [
            | inl f ↦
                rw (h, process_dep, v, f)
                  (open_override-ProperAfter (at_version dep.name version)
                    (at_version dep.name version ∷ fr.path) (lookup dep.name w.override_modules)
                    requested q)
            | inr f ↦
                rw (h, process_dep, v, f)
                  (enqueue-ProperAt dep.name version (at_version dep.name version ∷ fr.path)
                    requested q)
          ]
        ]
      ]

  process_nodep-ProperAt :
      (fr : Frame) (dep : Dependency) (s : Build Error)
      → ProperAt s
      → ProperAt (process_nodep w fr dep s)
  unfolding process_nodep
  process_nodep-ProperAt fr dep s p = elim (Bool-cases (skips w.include_dev_deps fr.is_root dep)) [
    | inl h ↦ rw (h, process_nodep) p
    | inr h ↦
        elim (Bool-cases
          (has_value (lookup dep.name s.dep_graph) || contains s.prev_round dep.name)) [
            | inl v ↦
                rw (h, process_nodep, v)
                  (add_nodep_request-IsProper w dep.name
                    (overridden_version (lookup dep.name (overrides w)) dep.version)
                    dep.dev_dependency (nodep_requester w fr.path) s.dep_graph p)
            | inr v ↦ rw (h, process_nodep, v) p
          ]
  ]

  run_frame-ProperAfter :
      (fr : Frame) (s : Build Error) → ProperAt s → ProperAfter (run_frame w fr s).0
  unfolding run_frame
  run_frame-ProperAfter fr s p = elim (List-cases fr.deps) [
    | inr (dep, deps, e) ↦ rw (e, run_frame) (process_dep-ProperAfter fr dep s p)
    | inl e ↦ elim (List-cases fr.nodep_deps) [
      | inr (dep, nodeps, d) ↦ rw (e, run_frame, d) (process_nodep-ProperAt fr dep s p)
      | inl d ↦ rw (e, run_frame, d) p
    ]
  ]

  after_frame-ProperAt :
      (before : List (List Frame)) (stack : List Frame) (after : List (List Frame))
      (x : Progress w × List Frame)
      → ProperAfter x.0
      → ProperAt (after_frame w before stack after x)
  unfolding after_frame
  after_frame-ProperAt before stack after (goes s opened, left) p = p
  after_frame-ProperAt before stack after (stops s e, left) p = p

  remove_missing-ProperAt :
      (task : Task) (s : Build Error) → ProperAt s → ProperAt (remove_missing w task s)
  unfolding remove_missing
  remove_missing-ProperAt task s p =
      let q = remove_dependency-IsProper task.name task.version s.dep_graph p in
      elim (Bool-cases (
        is_missing_root_dep w task.name
          (lookup task.version (versions_of (lookup task.name s.dep_graph))))) [
            | inl h ↦ rw (h, remove_missing) q
            | inr h ↦ rw (h, remove_missing) q
          ]

  end_task-ProperAt : (task : Task) (s : Build Error) → ProperAt s → ProperAt (end_task w task s)
  unfolding end_task open_module
  end_task-ProperAt task s p =
      cases (fetch_from w (lookup task.name (overrides w)) task.name task.version) refl
    where
      cases :
          (r : Result (FetchFailure Error) ModuleInfo)
          → fetch_from w (lookup task.name (overrides w)) task.name task.version ≡ r
          → ProperAt (end_task w task s)
      cases (ok info) h = rw (h, end_task) p
      cases (err not_found) h = rw (h, end_task) (remove_missing-ProperAt task s p)
      cases (err (failed e)) h = rw (h, end_task) p

  Step-ProperAt : {s t : Build Error} → Step w s t → ProperAt s → ProperAt t
  Step-ProperAt {s} (work before fr stack after e q) p =
      subst ProperAt (sym q)
        (after_frame-ProperAt before stack after (run_frame w fr s) (run_frame-ProperAfter fr s p))
  Step-ProperAt (rest before after e q) p = subst ProperAt (sym q) p
  Step-ProperAt (take task queue e q) p = subst ProperAt (sym q) p
  Step-ProperAt (finish before task after e q) p =
      subst ProperAt (sym q) (end_task-ProperAt task _ p)
  Step-ProperAt (abandon before task after e n q) p = subst ProperAt (sym q) p

  -- In every state that the workers and rounds come to, in any order of steps, the graph of requests
  -- has one entry for each name, every request stands under its version, and no name is without
  -- requests.
  pub Reached-IsProper : {s : Build Error} → Reached w s → IsProper s.dep_graph
  unfolding start_round open_module
  Reached-IsProper begin = record {
    one_entry = tt;
    keyed = λ name versions v r h g. absurd (let z : none ≡ some versions = h in cc);
    requested = λ name versions h e. absurd (let z : none ≡ some versions = h in cc);
  }
  Reached-IsProper (next r st) = Step-ProperAt st (Reached-IsProper r)
  Reached-IsProper (again r d f u) = Reached-IsProper r

  -- In every state that the workers and rounds come to, a name that has requests, all at valid
  -- versions, gets one of them selected, and no other of them is at a higher version.
  pub reached_selects :
      {s : Build Error} (name : Str) (versions : Map Str DepRequest)
      → Reached w s
      → lookup name s.dep_graph ≡ some versions
      → AllValid versions
      → (r : DepRequest) × (lookup name (apply_mvs s.dep_graph) ≡ some r)
        × ((v : Str) × Memᴰ (v, r) versions)
        × All (λ entry. Le (entry.1).version r.version) versions
  reached_selects {s} name versions r h a =
      let p = Reached-IsProper r in
      highest_selected s.dep_graph name versions p.one_entry h (p.requested name versions h) a
