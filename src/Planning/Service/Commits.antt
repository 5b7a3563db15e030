-- ===== src/Planning/Service/Commits.antt =====
-- What a call of the plan service does to the log, and what the logs hold that calls can make.
use bauhinia_agent.Common.{
  ℕ, ◌≡◌, refl, ◌∙◌, ap, false, String, Option, some, [], ◌∷◌, ◌++◌, ok, err, ◌>>=◌, ◌⊎◌, inl, inr,
  is_blank, if◌then◌else◌,
}
use bauhinia_agent.Planning.Values.{TaskPlan}
use bauhinia_agent.Planning.Errors.{Error}
use bauhinia_agent.Planning.Projection.{Raises, Projection, project_plan}
use bauhinia_agent.Planning.Views.{project_plan_views}
use bauhinia_agent.Planning.Reducer.{ReductionResult, plan_revision, unchanged}
use bauhinia_agent.Planning.Session.{Log, plan_event, rebuild_plan}
use bauhinia_agent.Planning.Session.Replay.{rebuild_plan_sound, append_task_plan_updated_lem}
use bauhinia_agent.Planning.Service
use bauhinia_agent.Planning.Service.{
  TaskPlanMutation, Action, Observer, observe, record_result, mutation,
}
use bauhinia_agent.Planning.Service.Calls.{
  Call, run, run_lem, operation, reduce, Reduced, reduce-Reduced,
}

-- The log after a result: one more event, if it is a change.
abbrev pub log_after : String → Option TaskPlan → ReductionResult → Log → Log
log_after name current r log =
    if r.changed then log ++ plan_event (plan_revision current) name r.changes r.plan ∷ [] else log

-- What the caller gets of a result.
abbrev pub returned : Option Observer → String → ReductionResult → Projection → TaskPlanMutation
returned observer name r view = record {
  plan = r.plan;
  projection = view;
  changed = r.changed;
  changes = r.changes;
  evo_diagnostic = observe observer r.changed r.plan name;
}

operation_full : (call : Call) → is_blank (operation call) ≡ false
unfolding is_blank
operation_full (Call.create_plan mode e tasks start) = refl
operation_full (Call.update_plan e updates) = refl
operation_full (Call.revise_plan e revisions) = refl

-- The result is recorded: the log is then read as its plan.
recorded :
    (name : String) (log : Log) (current : Option TaskPlan) (r : ReductionResult)
    → is_blank name ≡ false
    → rebuild_plan log ≡ ok current
    → Reduced current r
    → (record_result name (plan_revision current) r log ≡ ok (log_after name current r log))
      × (rebuild_plan (log_after name current r log) ≡ ok (some r.plan))
unfolding unchanged
recorded name log current r full h d = elim d.outcome [
  | inl (p, same, kept) ↦ rw kept (refl, h ∙ ap ok same)
  | inr grown ↦ rw grown.changed (
      append_task_plan_updated_lem log current name r.changes r.plan h full d.good
        grown.next_revision)
]

-- A call on a log whose plan the reducer accepts.
abbrev pub Commits : Option Observer → Call → Log → Option TaskPlan → ReductionResult → Type 0
Commits observer call log current r =
    (view : Projection) × (project_plan r.plan ≡ ok view)
    × (run observer call log ≡ (
      ok (returned observer (operation call) r view),
      log_after (operation call) current r log,
    ))
    × (rebuild_plan (log_after (operation call) current r log) ≡ ok (some r.plan))

finish_lem :
    (observer : Option Observer) (name : String) (n : ℕ) (r : ReductionResult) (log : Log)
    {log' : Log} {view : Projection}
    → record_result name n r log ≡ ok log'
    → project_plan r.plan ≡ ok view
    → Service.finish observer name n r log ≡ (ok (returned observer name r view), log')
unfolding Service.finish
finish_lem observer name n r log {log'} written shown =
    ap
      (λ (m : Raises Log). elim m [
        | ok after ↦ (mutation observer name r, after)
        | err e ↦ (err e, log)
      ])
      written
    ∙ ap (λ (m : Raises Projection). (m >>= λ view. ok (returned observer name r view), log')) shown

commits :
    (observer : Option Observer) (call : Call) (log : Log) (current : Option TaskPlan)
    (r : ReductionResult)
    → rebuild_plan log ≡ ok current
    → reduce call current ≡ ok r
    → Commits observer call log current r
commits observer call log current r h k =
    let (good_now, number) = rebuild_plan_sound log current h in
    let (named, d) = reduce-Reduced call current r good_now k in
    let (levels, found, shown) = project_plan_views r.plan d.good.valid in
    let (written, read) = recorded (operation call) log current r (operation_full call) h d in
    let view : Projection = _ in
    (
      view,
      shown,
      run_lem observer call log current h
          ∙ rw k (finish_lem observer (operation call) (plan_revision current) r log written shown),
      read,
    )

-- What a call does to a log whose plan can be rebuilt: if the reducer refuses the command, the call
-- raises what the reducer raises, and the log stays; if it accepts it, the call returns the plan of
-- the result with its views, the log grows by the one event of that plan if the command changed
-- anything and stays otherwise, and the plan that is rebuilt from it is the one that was returned.
pub call_outcome :
    (observer : Option Observer) (call : Call) (log : Log) (current : Option TaskPlan)
    → rebuild_plan log ≡ ok current
    → ((e : Error) × (reduce call current ≡ err e) × (run observer call log ≡ (err e, log)))
      ⊎ ((r : ReductionResult) × (reduce call current ≡ ok r) × Commits observer call log current r)
call_outcome observer call log current h = go (reduce call current) refl
  where
    go :
        (m : Raises ReductionResult)
        → reduce call current ≡ m
        → ((e : Error) × (reduce call current ≡ err e) × (run observer call log ≡ (err e, log)))
          ⊎ ((r : ReductionResult) × (reduce call current ≡ ok r)
              × Commits observer call log current r)
    go (ok r) k = inr (r, k, commits observer call log current r h k)
    go (err e) k = inl (e, k, run_lem observer call log current h ∙ rw k refl)
