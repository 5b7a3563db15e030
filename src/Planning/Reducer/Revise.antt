-- ===== src/Planning/Reducer/Revise.antt =====
-- `revise_tasks`: the tasks of its result.
use bauhinia_agent.Common.{
  String, ◌≡◌, refl, sym, ◌∙◌, ap, true, false, not, Option, none, some, List, [], ◌∷◌, map, ◌==◌,
  string_eq, elem, All, All-map, All-pure, Unique, arith, ok, err, ◌>>=◌, >>=-eq-ok, Bool-cases,
  inl, inr, if◌then◌else◌,
}
use bauhinia_agent.Common.Int.{pos}
use bauhinia_agent.Common.Dict.{Dict, get, of_list-Unique}
use bauhinia_agent.Planning.Values.{Task, TaskPlan, TaskRevision, Value, int}
use bauhinia_agent.Planning.Errors.{root, unknown_task}
use bauhinia_agent.Planning.Projection.{tasks_by_id}
use bauhinia_agent.Planning.Projection.Sort.{ids}
use bauhinia_agent.Planning.Projection.Lookup.{get-map_self, keys-map}
use bauhinia_agent.Planning.Commands.{
  require_revision, parse_all, parse_task_revision, require_unique_command_ids, require_list,
}
use bauhinia_agent.Planning.Reducer.{
  Edits, ReductionResult, lift, replacement, apply_revisions, record_revision, revised,
  revise_tasks,
}
use bauhinia_agent.Planning.Reducer.Outcome.{
  Outcome, lift-eq-ok, require_revision_lem, finish-Outcome, finish-tasks,
}
use bauhinia_agent.Planning.Reducer.Edit.{
  replacement-none, replacement-edit, fresh-edit, unreported-edit,
}
use bauhinia_agent.Planning.Reducer.Update.{require_unique_command_ids_lem}

abbrev pub revision_for : String → List TaskRevision → Option TaskRevision
revision_for id [] = none
revision_for id (r ∷ rs) = if r.id == id then some r else revision_for id rs

-- A task under a list of revisions: with the content of the one for its id, if there is one.
abbrev pub revised_task : List TaskRevision → Task → Task
revised_task rs t = elim (revision_for t.id rs) [
  | none ↦ t
  | some r ↦ record t { content = r.content }
]

abbrev revision_ids : List TaskRevision → List String
revision_ids rs = map (λ r. r.id) rs

no_revision_for :
    (x : String) (rs : List TaskRevision)
    → elem x (revision_ids rs) ≡ false
    → revision_for x rs ≡ none
no_revision_for x [] h = refl
no_revision_for x (r ∷ rs) h = ground (arith, no_revision_for x rs)

module _ (by_id : Dict Task) where
  revisions-inv :
      (edits : Edits) (r : TaskRevision) (rs : List TaskRevision) {out : Edits}
      → apply_revisions by_id edits (r ∷ rs) ≡ ok out
      → (t : Task) × (get r.id by_id ≡ some t)
        × (apply_revisions by_id (record_revision edits t r) rs ≡ ok out)
  unfolding apply_revisions
  revisions-inv edits r rs {out} h = go (get r.id by_id) h
    where
      go :
          (o : Option Task)
          → (elim o [
            | none ↦ err (unknown_task r.id)
            | some t ↦ apply_revisions by_id (record_revision edits t r) rs
          ])
            ≡ ok out
          → (t : Task) × (o ≡ some t)
            × (apply_revisions by_id (record_revision edits t r) rs ≡ ok out)
      go none k = cc
      go (some t) k = (t, refl, k)

  revisions_done :
      (edits : Edits) {out : Edits} → apply_revisions by_id edits [] ≡ ok out → edits ≡ out
  unfolding apply_revisions
  revisions_done edits h = cc

  revisions_unreported :
      (edits : Edits) (rs : List TaskRevision) {out : Edits}
      → (edits.1 ≡ [] → edits.0 ≡ [])
      → apply_revisions by_id edits rs ≡ ok out
      → out.1 ≡ []
      → out.0 ≡ []
  revisions_unreported edits [] keep h e =
      let same = revisions_done edits h in
      sym (ap (λ (x : Edits). x.0) same) ∙ keep (ap (λ (x : Edits). x.1) same ∙ e)
  revisions_unreported edits (r ∷ rs) keep h e =
      let (t, found, h') = revisions-inv edits r rs h in
      revisions_unreported (record_revision edits t r) rs
        (unreported-edit r.id (record t { content = r.content }) (revised r.id r.content) edits
          (not (t.content == r.content)) keep)
        h' e

  -- A revision of another task leaves the replacement of a task alone.
  other_revision :
      (edits : Edits) (r : TaskRevision) (u t : Task)
      → (r.id == t.id) ≡ false
      → replacement (record_revision edits u r).0 t ≡ replacement edits.0 t
  other_revision edits r u t other =
      replacement-edit r.id (record u { content = r.content }) (revised r.id r.content) edits
        (not (u.content == r.content)) t
      ∙ ground (arith, other)

  own_revision :
      (edits : Edits) (r : TaskRevision) (t : Task)
      → get t.id edits.0 ≡ none
      → (r.id == t.id) ≡ true
      → replacement (record_revision edits t r).0 t ≡ record t { content = r.content }
  own_revision edits r t fresh here =
      replacement-edit r.id (record t { content = r.content }) (revised r.id r.content) edits
        (not (t.content == r.content)) t
      ∙ elim (Bool-cases (t.content == r.content)) [
        | inl same ↦ rw (same) (
            replacement-none t edits.0 fresh ∙ λ i. record t {
              content = (string_eq.equal_iff t.content r.content).0 same i;
            })
        | inr changed ↦ rw (changed, here)
      ]

  abbrev Fresh : Edits → List TaskRevision → Type 0
  Fresh edits rs = All (λ r. get r.id edits.0 ≡ none) rs

  Fresh-revision :
      (r : TaskRevision) (edits : Edits) (u : Task) (rs : List TaskRevision)
      → elem r.id (revision_ids rs) ≡ false
      → Fresh edits rs
      → Fresh (record_revision edits u r) rs
  Fresh-revision r edits u [] n h = tt
  Fresh-revision r edits u (q ∷ rs) n h = (
    fresh-edit r.id (record u { content = r.content }) (revised r.id r.content) edits
        (not (u.content == r.content)) q.id
        (ground (arith, n, string_eq.equal_iff r.id q.id, string_eq.equal_iff q.id r.id)) h.0,
    Fresh-revision r edits u rs (ground arith) h.1,
  )

  apply_revisions_lem :
      (edits : Edits) (rs : List TaskRevision) {out : Edits} (t : Task)
      → get t.id by_id ≡ some t
      → apply_revisions by_id edits rs ≡ ok out
      → Unique (revision_ids rs)
      → Fresh edits rs
      → replacement out.0 t ≡ (elim (revision_for t.id rs) [
        | none ↦ replacement edits.0 t
        | some r ↦ record t { content = r.content }
      ])
  apply_revisions_lem edits [] t at h distinct fresh =
      ap (λ (x : Edits). replacement x.0 t) (sym (revisions_done edits h))
  apply_revisions_lem edits (r ∷ rs) t at h distinct fresh =
      let (u, found, h') = revisions-inv edits r rs h in
      let rest =
        apply_revisions_lem (record_revision edits u r) rs t at h' distinct.1
          (Fresh-revision r edits u rs distinct.0 fresh.1) in
      elim (Bool-cases (r.id == t.id)) [
        | inl here ↦
            let id_eq = (string_eq.equal_iff r.id t.id).0 here in
            let same : t ≡ u = cc (found, at, ap (λ x. get x by_id) id_eq) in
            rw here (
              rest
              ∙ rw (no_revision_for t.id rs (rw id_eq at distinct.0))
                  (rw (← same) (own_revision edits r t (rw id_eq at fresh.0) here)))
        | inr other ↦ rw other (
            rest
            ∙ ap
                (λ v. elim (revision_for t.id rs) [
                  | none ↦ v
                  | some q ↦ record t { content = q.content }
                ])
                (other_revision edits r u t other))
      ]

-- The tasks under the revisions, where the ids of the plan are unique.
revised_tasks :
    (plan : TaskPlan) (rs : List TaskRevision) {out : Edits}
    → Unique (ids plan.tasks)
    → Unique (revision_ids rs)
    → apply_revisions (tasks_by_id plan.tasks) ([], []) rs ≡ ok out
    → map (replacement out.0) plan.tasks ≡ map (revised_task rs) plan.tasks
unfolding tasks_by_id get
revised_tasks plan rs {out} once distinct h = map_congr plan.tasks (
    All-map (λ t. get t.id (map (λ u. (u.id, u)) plan.tasks) ≡ some t)
      (λ t. replacement out.0 t ≡ revised_task rs t) plan.tasks
      (λ t found.
        apply_revisions_lem (tasks_by_id plan.tasks) ([], []) rs t
          (ap (get t.id) (of_list-Unique _ (rw (keys-map (λ u. u) plan.tasks) once)) ∙ found) h
          distinct (All-pure (λ r. get r.id [] ≡ none) rs (λ r. refl))
        ∙ ap
            (λ u. elim (revision_for t.id rs) [
              | none ↦ u
              | some r ↦ record t { content = r.content }
            ])
            (replacement-none t [] refl))
      (get-map_self (λ u. u) plan.tasks once))
  where
    map_congr :
        (ts : List Task)
        → All (λ t. replacement out.0 t ≡ revised_task rs t) ts
        → map (replacement out.0) ts ≡ map (revised_task rs) ts
    map_congr [] k = refl
    map_congr (t ∷ ts) k = cc (k.0, map_congr ts k.1)

-- `revise_tasks` on a plan with unique ids, where it returns: the caller named the plan's revision;
-- the result is the plan as it was, or a valid plan of the next revision with the changes reported;
-- and its tasks are the plan's tasks in their order, each with the content of the revision that
-- names it, and otherwise as it was.
pub revise_tasks_result :
    (plan : TaskPlan) (expected_revision revisions : Value) (r : ReductionResult)
    → Unique (ids plan.tasks)
    → revise_tasks plan expected_revision revisions ≡ ok r
    → (expected_revision ≡ int (pos plan.revision))
      × Outcome plan r
      × (r.plan.mode ≡ plan.mode)
      × (rs : List TaskRevision) × ((require_list revisions (root "revisions")
            >>= parse_all parse_task_revision "revisions" 0)
          ≡ ok rs)
      × (r.plan.tasks ≡ map (revised_task rs) plan.tasks)
unfolding revise_tasks
revise_tasks_result plan expected_revision revisions r once h =
    let (u, current, h1) =
      >>=-eq-ok (lift (require_revision expected_revision plan.revision)) _ h in
    let (raw, listed, h2) = >>=-eq-ok (lift (require_list revisions (root "revisions"))) _ h1 in
    let (rs, parsed, h3) =
      >>=-eq-ok (lift (parse_all parse_task_revision "revisions" 0 raw)) _ h2 in
    let (u', distinct, h4) =
      >>=-eq-ok (lift (require_unique_command_ids [] (map (λ q. q.id) rs))) _ h3 in
    let (edits, applied, done) =
      >>=-eq-ok (lift (apply_revisions (tasks_by_id plan.tasks) ([], []) rs)) _ h4 in
    let loop = lift-eq-ok (apply_revisions (tasks_by_id plan.tasks) ([], []) rs) applied in
    let (tasks, mode) =
      finish-tasks plan edits.0 edits.1
        (revisions_unreported (tasks_by_id plan.tasks) ([], []) rs (λ _. refl) loop) done in
    (
      require_revision_lem expected_revision plan.revision (lift-eq-ok _ current),
      finish-Outcome plan edits.0 edits.1 done,
      mode,
      rs,
      ap (λ m. m >>= parse_all parse_task_revision "revisions" 0) (lift-eq-ok _ listed)
          ∙ lift-eq-ok _ parsed,
      tasks
          ∙ revised_tasks plan rs once
              (require_unique_command_ids_lem [] (revision_ids rs) (lift-eq-ok _ distinct)).0 loop,
    )
