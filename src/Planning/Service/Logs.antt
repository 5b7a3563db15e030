-- ===== src/Planning/Service/Logs.antt =====
-- The logs of the plan service under failing, competing and arbitrary calls.
use bauhinia_agent.Common.{
  ℕ, ◌+◌, ◌≡◌, refl, sym, ◌∙◌, ap, true, false, ◌==◌, nat_eq, String, Option, none, some, [], ◌∷◌,
  ◌++◌, arith, ok, err, ◌⊎◌, inl, inr,
}
use bauhinia_agent.Common.Int.{pos}
use bauhinia_agent.Planning.Values.{TaskPlan, int}
use bauhinia_agent.Planning.Errors.{Error, command_error, revision_conflict}
use bauhinia_agent.Planning.Projection.{Raises}
use bauhinia_agent.Planning.Commands.{require_revision}
use bauhinia_agent.Planning.Reducer.{
  ReductionResult, plan_revision, create_tasks, update_tasks, revise_tasks, unchanged,
}
use bauhinia_agent.Planning.Reducer.Outcome.{Follows}
use bauhinia_agent.Planning.Session.{other_event, Log, rebuild_plan}
use bauhinia_agent.Planning.Session.Replay.{
  CurrentIsGood, plan_events, rebuild_plan_sound, rebuild_plan-other,
}
use bauhinia_agent.Planning.Service.{
  TaskPlanMutation, Observer, on_current, create, update, revise, require_current_plan,
}
use bauhinia_agent.Planning.Service.Calls.{
  Call, create_plan, update_plan, revise_plan, run, run_lem, expected, reduce, reduce-Reduced,
}
use bauhinia_agent.Planning.Service.Commits.{call_outcome}

-- A log that cannot be read fails every call.
run_unreadable :
    (observer : Option Observer) (call : Call) (log : Log) {e : Error}
    → rebuild_plan log ≡ err e
    → run observer call log ≡ (err e, log)
unfolding create update revise require_current_plan
run_unreadable observer (create_plan mode x tasks start) log h = rw (h, create) refl
run_unreadable observer (update_plan x updates) log h =
    rw (h, update, on_current, require_current_plan) refl
run_unreadable observer (revise_plan x revisions) log h =
    rw (h, revise, on_current, require_current_plan) refl

-- Whatever the log, a call that raises leaves it as it was: nothing is appended before all is done.
pub failed_call_keeps_log :
    (observer : Option Observer) (call : Call) (log after : Log) (e : Error)
    → run observer call log ≡ (err e, after)
    → after ≡ log
failed_call_keeps_log observer call log after e h = go (rebuild_plan log) refl
  where
    go : (m : Raises (Option TaskPlan)) → rebuild_plan log ≡ m → after ≡ log
    go (ok current) k = elim (call_outcome observer call log current k) [
      | inl (e', refused, same) ↦ cc
      | inr (r, accepted, done) ↦ cc (done.2)
    ]
    go (err e') k = cc (run_unreadable observer call log k)

-- A command for another revision than the current one is refused, before anything else is looked at.
stale :
    (n : ℕ) (call : Call) (p : TaskPlan)
    → expected call ≡ int (pos n)
    → (n == p.revision) ≡ false
    → reduce call (some p) ≡ err (command_error (revision_conflict n p.revision))
unfolding create_tasks update_tasks revise_tasks require_revision
stale n (create_plan mode x tasks start) p h other = rw (h, other) refl
stale n (update_plan x updates) p h other = rw (h, other) refl
stale n (revise_plan x revisions) p h other = rw (h, other) refl

returned_eq : {a b : TaskPlanMutation} → ◌≡◌ {A = Raises TaskPlanMutation} (ok a) (ok b) → a ≡ b
returned_eq h = cc

next_number :
    (current : Option TaskPlan) (r : ReductionResult)
    → r.changed ≡ true
    → ((p : TaskPlan) × (current ≡ some p) × (r ≡ unchanged p)) ⊎ Follows (plan_revision current) r
    → r.plan.revision ≡ plan_revision current + 1
unfolding unchanged
next_number current r changed (inl (p, same, kept)) = cc
next_number current r changed (inr grown) = grown.next_revision

-- Of two calls that expect the same revision only one can change the plan: after a call that did,
-- the other one raises the revision conflict, with the expected and the new revision, and leaves
-- the log as it is.
pub second_writer_conflicts :
    (observer observer' : Option Observer) (first second : Call) (log after : Log)
    (current : Option TaskPlan) (m : TaskPlanMutation)
    → rebuild_plan log ≡ ok current
    → run observer first log ≡ (ok m, after)
    → m.changed ≡ true
    → expected second ≡ expected first
    → run observer' second after ≡ (
      err (command_error (revision_conflict (plan_revision current) (plan_revision current + 1))),
      after,
    )
second_writer_conflicts observer observer' first second log after current m h ran changed same =
    elim (call_outcome observer first log current h) [
      | inl (e, refused, failed) ↦ absurd (cc (failed, ran))
      | inr (r, accepted, done) ↦
          let (view, shown, returns, read) = done in
          let (wrote, reduced) =
            reduce-Reduced first current r (rebuild_plan_sound log current h).0 accepted in
          let is_changed : r.changed ≡ true =
            ap (λ (x : TaskPlanMutation). x.changed)
              (returned_eq (ap (λ (x : Raises TaskPlanMutation × Log). x.0) (sym returns ∙ ran)))
            ∙ changed in
          let now : rebuild_plan after ≡ ok (some r.plan) =
            ap rebuild_plan (ap (λ (x : Raises TaskPlanMutation × Log). x.1) (sym ran ∙ returns))
            ∙ read in
          let number = next_number current r is_changed reduced.outcome in
          run_lem observer' second after (some r.plan) now
          ∙ rw (stale (plan_revision current) second r.plan (same ∙ wrote) (ground (arith, number)))
              (ap (λ k. (err (command_error (revision_conflict (plan_revision current) k)), after))
                number)
    ]

-- The logs that calls of the service and other events make, in any order.
pub data Reachable : Log → Type 0 where
  empty : Reachable []
  called :
      (observer : Option Observer) (call : Call) (log : Log)
      → Reachable log
      → Reachable (run observer call log).1
  other :
      (kind : String) (log : Log) → Reachable log → Reachable (log ++ other_event kind none ∷ [])

readable :
    (log : Log) → Reachable log → (current : Option TaskPlan) × (rebuild_plan log ≡ ok current)
unfolding rebuild_plan
readable _ empty = (none, refl)
readable _ (called observer call log reached) =
    let (current, read) = readable log reached in
    elim (call_outcome observer call log current read) [
      | inl (e, refused, failed) ↦
          (current, ap (λ (x : Raises TaskPlanMutation × Log). rebuild_plan x.1) failed ∙ read)
      | inr (r, accepted, done) ↦ (
        some r.plan,
        ap (λ (x : Raises TaskPlanMutation × Log). rebuild_plan x.1) done.2 ∙ done.3,
      )
    ]
readable _ (other kind log reached) =
    let (current, read) = readable log reached in (current, rebuild_plan-other log kind read)

-- Whatever the calls and their arguments, the log that they make among other events, each of which is
-- read without an error, can always be read: it holds no plan, or a valid one that can be serialized,
-- whose revision is the number of plan updates.
pub Reachable-rebuilds :
    (log : Log)
    → Reachable log
    → (current : Option TaskPlan) × (rebuild_plan log ≡ ok current)
      × CurrentIsGood current
      × (plan_revision current ≡ plan_events log)
Reachable-rebuilds log reached =
    let (current, read) = readable log reached in
    let (good, number) = rebuild_plan_sound log current read in (current, read, good, number)
