-- ===== src/Planning/Reducer/Update.antt =====
-- `update_tasks`: the tasks of its result.
use bauhinia_agent.Planning.Projection.Lookup.{keys-map, get-map_self}
use bauhinia_agent.Common.Dict.{of_list-Unique, Dict, get}
use bauhinia_agent.Planning.Errors.{unknown_task, root}
use bauhinia_agent.Common.Int.{pos}
use bauhinia_agent.Planning.Values.{int, Task, TaskPlan, TaskPatch, Value}
use bauhinia_agent.Planning.Commands.{
  require_revision, parse_all, parse_task_patch, require_unique_command_ids, require_list,
}
use bauhinia_agent.Planning.Reducer.{
  lift, Edits, ReductionResult, replacement, apply_patch, differs, apply_patches, find_task,
  record_edit, update_tasks,
}
use bauhinia_agent.Common.{
  All-pure, ◌&&◌, require-eq-ok, String, ◌≡◌, refl, sym, ◌∙◌, ap, Bool, true, false, not, Option,
  none, some, List, [], ◌∷◌, map, ◌==◌, string_eq, elem, All, All-map, Unique, arith, ok, err,
  ◌>>=◌, >>=-eq-ok, Bool-cases, inl, inr, if◌then◌else◌,
}
use bauhinia_agent.Planning.Projection.{tasks_by_id}
use bauhinia_agent.Planning.Projection.Sort.{ids}
use bauhinia_agent.Planning.Validation.Checks.{not_seen}
use bauhinia_agent.Planning.Reducer.Outcome.{
  Outcome, lift-eq-ok, require_revision_lem, finish-Outcome, finish-tasks,
}
use bauhinia_agent.Planning.Reducer.Edit.{
  replacement-none, replacement-edit, fresh-edit, unreported-edit,
}
use bauhinia_agent.Planning.Reducer.Patches.{differs_eq, task_after, apply_patch-task_after}

-- The first patch for an id.
abbrev pub patch_for : String → List TaskPatch → Option TaskPatch
patch_for id [] = none
patch_for id (p ∷ ps) = if p.id == id then some p else patch_for id ps

-- A task under a list of patches: changed by the one for its id, if there is one.
abbrev pub patched : List TaskPatch → Task → Task
patched ps t = elim (patch_for t.id ps) [ none ↦ t | some p ↦ task_after p t ]

applied-patched :
    (ps : List TaskPatch) (t : Task)
    → ◌≡◌ {A = Task}
        (elim (patch_for t.id ps) [ none ↦ t | some p ↦ (apply_patch p t).0 ])
        (patched ps t)
applied-patched ps t = go (patch_for t.id ps)
  where
    go :
        (o : Option TaskPatch)
        → ◌≡◌ {A = Task}
            (elim o [ none ↦ t | some p ↦ (apply_patch p t).0 ])
            (elim o [ none ↦ t | some p ↦ task_after p t ])
    go none = refl
    go (some p) = apply_patch-task_after p t

abbrev patch_ids : List TaskPatch → List String
patch_ids ps = map (λ p. p.id) ps

-- The loop that refuses a second command for one task.
pub require_unique_command_ids_lem :
    (seen xs : List String)
    → require_unique_command_ids seen xs ≡ ok tt
    → Unique xs × All (λ x. elem x seen ≡ false) xs
unfolding require_unique_command_ids
require_unique_command_ids_lem seen [] h = (tt, tt)
require_unique_command_ids_lem seen (x ∷ xs) h =
    let (fresh, h1) = require-eq-ok (not (elem x seen)) _ _ h in
    let (distinct, apart) = require_unique_command_ids_lem (x ∷ seen) xs h1 in
    let (old, new) = not_seen x seen xs apart in ((new, distinct), (ground arith, old))

module _ (by_id : Dict Task) where
  patches-inv :
      (edits : Edits) (p : TaskPatch) (ps : List TaskPatch) {out : Edits}
      → apply_patches by_id edits (p ∷ ps) ≡ ok out
      → (original : Task) × (find_task p.id edits.0 by_id ≡ some original)
        × (apply_patches by_id (record_edit p.id edits original (apply_patch p original)) ps
            ≡ ok out)
  unfolding apply_patches
  patches-inv edits p ps {out} h = go (find_task p.id edits.0 by_id) h
    where
      go :
          (o : Option Task)
          → (elim o [
            | none ↦ err (unknown_task p.id)
            | some original ↦
                apply_patches by_id (record_edit p.id edits original (apply_patch p original)) ps
          ])
            ≡ ok out
          → (original : Task) × (o ≡ some original)
            × (apply_patches by_id (record_edit p.id edits original (apply_patch p original)) ps
                ≡ ok out)
      go none k = cc
      go (some original) k = (original, refl, k)

  patches_done : (edits : Edits) {out : Edits} → apply_patches by_id edits [] ≡ ok out → edits ≡ out
  unfolding apply_patches
  patches_done edits h = cc

  -- A loop that reported no change has replaced no task.
  patches_unchanged :
      (edits : Edits) (ps : List TaskPatch) {out : Edits}
      → (edits.1 ≡ [] → edits.0 ≡ [])
      → apply_patches by_id edits ps ≡ ok out
      → out.1 ≡ []
      → out.0 ≡ []
  patches_unchanged edits [] {out} keep h e =
      let same = patches_done edits h in
      sym (ap (λ (x : Edits). x.0) same) ∙ keep (ap (λ (x : Edits). x.1) same ∙ e)
  patches_unchanged edits (p ∷ ps) keep h e =
      let (original, found, h') = patches-inv edits p ps h in
      patches_unchanged (record_edit p.id edits original (apply_patch p original)) ps
        (unreported-edit p.id (apply_patch p original).0 (apply_patch p original).1 edits
          (differs (apply_patch p original).0 original) keep)
        h' e

  fresh_edit :
      (p : TaskPatch) (edits : Edits) (original : Task) (ps : List TaskPatch)
      → elem p.id (patch_ids ps) ≡ false
      → All (λ q. get q.id edits.0 ≡ none) ps
      → All (λ q. get q.id (record_edit p.id edits original (apply_patch p original)).0 ≡ none) ps
  fresh_edit p edits original [] n h = tt
  fresh_edit p edits original (q ∷ ps) n h = (
    fresh-edit p.id (apply_patch p original).0 (apply_patch p original).1 edits
        (differs (apply_patch p original).0 original) q.id
        (ground (arith, n, string_eq.equal_iff p.id q.id, string_eq.equal_iff q.id p.id)) h.0,
    fresh_edit p edits original ps (ground arith) h.1,
  )

  no_patch_for :
      (x : String) (ps : List TaskPatch) → elem x (patch_ids ps) ≡ false → patch_for x ps ≡ none
  no_patch_for x [] h = refl
  no_patch_for x (p ∷ ps) h = ground (arith, no_patch_for x ps)

  replacement_edit :
      (p : TaskPatch) (edits : Edits) (original t : Task)
      → replacement (record_edit p.id edits original (apply_patch p original)).0 t ≡ (
          if differs (apply_patch p original).0 original && p.id == t.id
          then (apply_patch p original).0
          else replacement edits.0 t)
  replacement_edit p edits original t =
      replacement-edit p.id (apply_patch p original).0 (apply_patch p original).1 edits
        (differs (apply_patch p original).0 original) t

  found_own :
      (p : TaskPatch) (edits : Edits) (original t : Task)
      → get t.id by_id ≡ some t
      → find_task p.id edits.0 by_id ≡ some original
      → get p.id edits.0 ≡ none
      → p.id ≡ t.id
      → t ≡ original
  found_own p edits original t at found fresh same =
      let looked : get p.id by_id ≡ some original =
        sym (first_look (get p.id edits.0) fresh) ∙ found in
      cc (looked, ap (λ x. get x by_id) same)
    where
      first_look :
          (o : Option Task)
          → o ≡ none
          → (elim o [ none ↦ get p.id by_id | some u ↦ some u ]) ≡ get p.id by_id
      first_look none e = refl
      first_look (some u) e = cc

  skip : (u v : Task) (a b : Bool) → b ≡ false → (if a && b then u else v) ≡ v
  skip u v a b h = ground arith

  -- The patch for a task's own id: the task that it finds is the task.
  own_patch :
      (p : TaskPatch) (edits : Edits) (original t : Task)
      → get t.id by_id ≡ some t
      → find_task p.id edits.0 by_id ≡ some original
      → get p.id edits.0 ≡ none
      → (p.id == t.id) ≡ true
      → replacement (record_edit p.id edits original (apply_patch p original)).0 t
        ≡ (apply_patch p t).0
  own_patch p edits original t at found fresh here =
      let id_eq = (string_eq.equal_iff p.id t.id).0 here in
      let same : t ≡ original = found_own p edits original t at found fresh id_eq in
      replacement_edit p edits original t
      ∙ rw (← same) (elim (Bool-cases (differs (apply_patch p t).0 t)) [
        | inl changed ↦ rw (changed, here)
        | inr kept ↦ rw kept (
            replacement-none t edits.0 (rw id_eq at fresh)
            ∙ sym (differs_eq (apply_patch p t).0 t kept))
      ])

  apply_patches_lem :
      (edits : Edits) (ps : List TaskPatch) {out : Edits} (t : Task)
      → get t.id by_id ≡ some t
      → apply_patches by_id edits ps ≡ ok out
      → Unique (patch_ids ps)
      → All (λ p. get p.id edits.0 ≡ none) ps
      → replacement out.0 t
        ≡ (elim (patch_for t.id ps) [ none ↦ replacement edits.0 t | some p ↦ (apply_patch p t).0 ])
  apply_patches_lem edits [] t at h distinct fresh =
      ap (λ (x : Edits). replacement x.0 t) (sym (patches_done edits h))
  apply_patches_lem edits (p ∷ ps) t at h distinct fresh =
      let (original, found, h') = patches-inv edits p ps h in
      let edits' = record_edit p.id edits original (apply_patch p original) in
      let rest =
        apply_patches_lem edits' ps t at h' distinct.1
          (fresh_edit p edits original ps distinct.0 fresh.1) in
      elim (Bool-cases (p.id == t.id)) [
        | inl here ↦ rw here (
            rest
            ∙ rw (no_patch_for t.id ps (rw ((string_eq.equal_iff p.id t.id).0 here) at distinct.0))
                (own_patch p edits original t at found fresh.0 here))
        | inr other ↦ rw other (
            rest
            ∙ ap (λ u. elim (patch_for t.id ps) [ none ↦ u | some q ↦ (apply_patch q t).0 ])
                (replacement_edit p edits original t
                  ∙ skip _ _ (differs (apply_patch p original).0 original) (p.id == t.id) other))
      ]

-- The tasks under the patches, where the ids of the plan are unique.
patched_tasks :
    (plan : TaskPlan) (ps : List TaskPatch) {out : Edits}
    → Unique (ids plan.tasks)
    → Unique (patch_ids ps)
    → apply_patches (tasks_by_id plan.tasks) ([], []) ps ≡ ok out
    → map (replacement out.0) plan.tasks ≡ map (patched ps) plan.tasks
unfolding tasks_by_id get
patched_tasks plan ps {out} once distinct h = map_congr plan.tasks (
    All-map (λ t. get t.id (map (λ u. (u.id, u)) plan.tasks) ≡ some t)
      (λ t. replacement out.0 t ≡ patched ps t) plan.tasks
      (λ t found.
        apply_patches_lem (tasks_by_id plan.tasks) ([], []) ps t
          (ap (get t.id) (of_list-Unique _ (rw (keys-map (λ u. u) plan.tasks) once)) ∙ found) h
          distinct (All-pure (λ p. get p.id [] ≡ none) ps (λ p. refl))
        ∙ ap (λ u. elim (patch_for t.id ps) [ none ↦ u | some p ↦ (apply_patch p t).0 ])
            (replacement-none t [] refl)
        ∙ applied-patched ps t)
      (get-map_self (λ u. u) plan.tasks once))
  where
    map_congr :
        (ts : List Task)
        → All (λ t. replacement out.0 t ≡ patched ps t) ts
        → map (replacement out.0) ts ≡ map (patched ps) ts
    map_congr [] k = refl
    map_congr (t ∷ ts) k = cc (k.0, map_congr ts k.1)

-- `update_tasks` on a plan with unique ids, where it returns: the caller named the plan's revision;
-- the result is the plan as it was, or a valid plan of the next revision with the changes reported;
-- and its tasks are the plan's tasks in their order, each changed by the patch that names it and by
-- no other: a patch sets the status and the owner that it gives, and the dependencies are those of the
-- old ones that it does not remove, then those that it adds and that are not there.
pub update_tasks_result :
    (plan : TaskPlan) (expected_revision updates : Value) (r : ReductionResult)
    → Unique (ids plan.tasks)
    → update_tasks plan expected_revision updates ≡ ok r
    → (expected_revision ≡ int (pos plan.revision))
      × Outcome plan r
      × (r.plan.mode ≡ plan.mode)
      × (ps : List TaskPatch) × ((require_list updates (root "updates")
            >>= parse_all parse_task_patch "updates" 0)
          ≡ ok ps)
      × (r.plan.tasks ≡ map (patched ps) plan.tasks)
unfolding update_tasks
update_tasks_result plan expected_revision updates r once h =
    let (u, current, h1) =
      >>=-eq-ok (lift (require_revision expected_revision plan.revision)) _ h in
    let (raw, listed, h2) = >>=-eq-ok (lift (require_list updates (root "updates"))) _ h1 in
    let (ps, parsed, h3) = >>=-eq-ok (lift (parse_all parse_task_patch "updates" 0 raw)) _ h2 in
    let (u', distinct, h4) =
      >>=-eq-ok (lift (require_unique_command_ids [] (map (λ p. p.id) ps))) _ h3 in
    let (edits, applied, done) =
      >>=-eq-ok (lift (apply_patches (tasks_by_id plan.tasks) ([], []) ps)) _ h4 in
    let loop = lift-eq-ok (apply_patches (tasks_by_id plan.tasks) ([], []) ps) applied in
    let (tasks, mode) =
      finish-tasks plan edits.0 edits.1
        (patches_unchanged (tasks_by_id plan.tasks) ([], []) ps (λ _. refl) loop) done in
    (
      require_revision_lem expected_revision plan.revision (lift-eq-ok _ current),
      finish-Outcome plan edits.0 edits.1 done,
      mode,
      ps,
      ap (λ m. m >>= parse_all parse_task_patch "updates" 0) (lift-eq-ok _ listed)
          ∙ lift-eq-ok _ parsed,
      tasks
          ∙ patched_tasks plan ps once
              (require_unique_command_ids_lem [] (patch_ids ps) (lift-eq-ok _ distinct)).0 loop,
    )
