-- ===== src/Background/Collected.antt =====
-- What collect_completed of agent/background.py hands out.
use bauhinia_agent.Common.{
  Bool, sym, none, string_eq, not, All-map, Result, ok, err, ◌⊎◌, ◌↔◌, ◌≢◌, ◌&&◌, All-right, ℕ, ◌≡◌,
  refl, ap, ◌∙◌, String, true, false, Option, some, List, [], ◌∷◌, ◌++◌, filter, elem, All,
  All-filter, Unique, Unique-filter, nat_eq, nat_beq_iff, ◌==◌, if◌then◌else◌, Bool-cases, inl, inr,
  arith, All-pure,
}
use Prim.Native.String.{◌++◌ as append}
use bauhinia_agent.Background.{
  in_session, completed, failed, Status, is_completed, BackgroundJob, BackgroundNotification, new,
  find, change,
}
use bauhinia_agent.Background.Report.{summarize, notification_for}
use bauhinia_agent.Background.Collect.{
  chosen, completion, Callbacks, finalize, wanted, deliver, collect_completed,
}
use bauhinia_agent.Background.Steps.{Move, run, told_ids}
use bauhinia_agent.Background.Invariant.{new-Inv, job_ids, job_ids-change, elem-find, find-All}
use bauhinia_agent.Background.Kept.Collects.{told_ids-collect_completed}
use bauhinia_agent.Background.Limits.{run-Inv}
use bauhinia_agent.Background.Cancelling.{change_found}

-- Whether the session that is asked for, if one is, is that of a job.
abbrev is_asked : Option String → Option String → Bool
is_asked none owner = true
is_asked (some s) none = false
is_asked (some s) (some owner) = owner == s

abbrev pub of_session : Option String → List BackgroundJob → ℕ → Bool
of_session session jobs id = elim (find id jobs) [
  | none ↦ false
  | some j ↦ is_asked session j.session_id
]

-- What the callback makes of a job: of one that completed and has a callback, that it took note of
-- it, or that it failed; another job is left.
abbrev pub Finalized : Callbacks → BackgroundJob → BackgroundJob → Type 0
Finalized callback before after =
    ((before.status ≡ completed)
      × (before.has_on_completed ≡ true)
      × (((text : Option String) × (callback before ≡ ok text)
            × (after ≡ record before { task_plan_completion = text }))
          ⊎ ((e : String) × (callback before ≡ err e)
              × (after ≡ record before {
                status = failed;
                error = some (append "Failed to record TaskPlan completion: " e);
                task_plan_completion =
                    some "TaskPlan completion failed; task state was not confirmed.";
              }))))
    ⊎ (((before.status ≢ completed) ⊎ (before.has_on_completed ≡ false)) × (after ≡ before))

-- The notification tells of the job.
pub record Tells (j : BackgroundJob) (n : BackgroundNotification) : Type 0 where
  pub job_id : n.job_id ≡ j.id
  pub tool_name : n.tool_name ≡ j.tool_name
  pub status : n.status ≡ j.status
  pub is_ok : (n.is_ok ≡ true) ↔ (j.status ≡ completed)
  pub summary : n.summary ≡ summarize j
  pub session_id : n.session_id ≡ j.session_id
  pub label : n.label ≡ j.label
  pub task_id : n.task_id ≡ j.task_id
  pub observed_revision : n.observed_revision ≡ j.observed_revision
  pub task_plan_completion : n.task_plan_completion ≡ j.task_plan_completion

-- The notification tells of one of the jobs as the callback leaves it.
pub record Delivered (callback : Callbacks) (jobs later : List BackgroundJob)
    (n : BackgroundNotification) : Type 0 where
  pub before : BackgroundJob
  pub after : BackgroundJob
  pub was : find n.job_id jobs ≡ some before
  pub is : find n.job_id later ≡ some after
  pub finalized : Finalized callback before after
  pub tells : Tells after n

wanted-of_session :
    (session : Option String) (jobs : List BackgroundJob) (id : ℕ)
    → wanted session jobs id ≡ of_session session jobs id
wanted-of_session session jobs id = go (find id jobs)
  where
    same : (session owner : Option String) → in_session session owner ≡ is_asked session owner
    same none owner = refl
    same (some s) none = refl
    same (some s) (some owner) = refl

    go :
        (o : Option BackgroundJob)
        → ◌≡◌ {A = Bool}
            (elim o [ none ↦ false | some j ↦ in_session session j.session_id ])
            (elim o [ none ↦ false | some j ↦ is_asked session j.session_id ])
    go none = refl
    go (some j) = same session j.session_id

filter-of_session :
    (p q : ℕ → Bool) (ids : List ℕ) → ((id : ℕ) → p id ≡ q id) → filter p ids ≡ filter q ids
filter-of_session p q [] h = refl
filter-of_session p q (id ∷ ids) h = rw (h id, filter-of_session p q ids h)

is_completed_iff : (s : Status) → (is_completed s ≡ true) ↔ (s ≡ completed)
is_completed_iff s = ground arith

notification_for-Tells : (j : BackgroundJob) → Tells j (notification_for j)
unfolding notification_for
notification_for-Tells j = record {
  job_id = refl;
  tool_name = refl;
  status = refl;
  is_ok = is_completed_iff j.status;
  summary = refl;
  session_id = refl;
  label = refl;
  task_id = refl;
  observed_revision = refl;
  task_plan_completion = refl;
}

finalize-Finalized :
    (callback : Callbacks) (j : BackgroundJob) → Finalized callback j (finalize callback j)
unfolding finalize
finalize-Finalized callback j = elim (Bool-cases (is_completed j.status && j.has_on_completed)) [
  | inl both ↦ rw both (
      inl (
        (is_completed_iff j.status).0 (ground (arith, both)),
        ground (arith, both),
        go (callback j),
      ))
  | inr not_both ↦ rw not_both (inr (apart (is_completed j.status) refl not_both, refl))
]
  where
    apart :
        (b : Bool)
        → is_completed j.status ≡ b
        → (b && j.has_on_completed) ≡ false
        → (j.status ≢ completed) ⊎ (j.has_on_completed ≡ false)
    apart true e h = inr h
    apart false e h = inl (λ c. cc (sym e ∙ (is_completed_iff j.status).1 c))

    go :
        (r : Result String (Option String))
        → ((text : Option String) × (r ≡ ok text)
            × (completion r j ≡ record j { task_plan_completion = text }))
          ⊎ ((e : String) × (r ≡ err e)
              × (completion r j ≡ record j {
                status = failed;
                error = some (append "Failed to record TaskPlan completion: " e);
                task_plan_completion =
                    some "TaskPlan completion failed; task state was not confirmed.";
              }))
    go (ok text) = inl (text, refl, refl)
    go (err e) = inr (e, refl, refl)

finalize-id : (callback : Callbacks) (j : BackgroundJob) → (finalize callback j).id ≡ j.id
unfolding finalize
finalize-id callback j = ground arith

find-change_other :
    (id i : ℕ) (callback : Callbacks) (jobs : List BackgroundJob)
    → (i == id) ≡ false
    → find id (change i (finalize callback) jobs) ≡ find id jobs
find-change_other id i callback [] h = refl
find-change_other id i callback (j ∷ jobs) h = elim (Bool-cases (j.id == i)) [
  | inl hit ↦
      let other : (j.id == id) ≡ false =
        ground (arith, h, hit, nat_beq_iff j.id i, nat_beq_iff j.id id, nat_beq_iff i id) in
      rw (hit, finalize-id callback j, other) (find-change_other id i callback jobs h)
  | inr miss ↦
      rw miss (ap (λ o. if j.id == id then some j else o) (find-change_other id i callback jobs h))
]

find-deliver_other :
    (id : ℕ) (callback : Callbacks) (ids : List ℕ) (jobs : List BackgroundJob)
    → elem id ids ≡ false
    → find id (deliver callback ids jobs).1 ≡ find id jobs
unfolding deliver
find-deliver_other id callback [] jobs h = refl
find-deliver_other id callback (i ∷ ids) jobs h =
    find-deliver_other id callback ids (change i (finalize callback) jobs) (ground (arith, h))
    ∙ find-change_other id i callback jobs (ground (arith, h))

deliver-Delivered :
    (callback : Callbacks) (ids : List ℕ) (jobs : List BackgroundJob)
    → Unique ids
    → All (λ id. elem id (job_ids jobs) ≡ true) ids
    → All
        (λ n. (elem n.job_id ids ≡ true) × Delivered callback jobs (deliver callback ids jobs).1 n)
        (deliver callback ids jobs).0
unfolding deliver
deliver-Delivered callback [] jobs u h = tt
deliver-Delivered callback (id ∷ ids) jobs u h =
    let jobs1 = change id (finalize callback) jobs in
    let later = (deliver callback ids jobs1).1 in
    let same = job_ids-change id (finalize callback) jobs (λ j. finalize-id callback j) in
    let (j, found) = elem-find id jobs h.0 in
    let named : j.id ≡ id = (find-All (λ _. Unit {0}) id jobs found (All-pure _ _ (λ _. tt))).0 in
    let after = finalize callback j in
    let changed : find id jobs1 ≡ some after =
      change_found id (finalize callback) jobs found (finalize-id callback j) in
    let kept : find id later ≡ some after =
      find-deliver_other id callback ids jobs1 u.0 ∙ changed in
    let n = notification_for after in
    let tells = notification_for-Tells after in
    let is_id : n.job_id ≡ id = tells.job_id ∙ finalize-id callback j ∙ named in
    rw (deliver, changed)
      (
        (
          ground (arith, is_id, nat_beq_iff id n.job_id),
          record {
            before = j;
            after = after;
            was = ap (λ i. find i jobs) is_id ∙ found;
            is = ap (λ i. find i later) is_id ∙ kept;
            finalized = finalize-Finalized callback j;
            tells = tells;
          },
        ),
        All-map _ _ (deliver callback ids jobs1).0
            (λ k d. (
              ground (arith, d.0),
              record {
                before = d.1.before;
                after = d.1.after;
                was =
                    sym (
                      find-change_other k.job_id id callback jobs
                        (ground (arith, d.0, u.0, nat_beq_iff id k.job_id)))
                    ∙ d.1.was;
                is = d.1.is;
                finalized = d.1.finalized;
                tells = d.1.tells;
              },
            ))
            (deliver-Delivered callback ids jobs1 u.1 (rw same (h.1))),
      )

Unique-right : (xs ys : List ℕ) → Unique (xs ++ ys) → Unique ys
Unique-right [] ys u = u
Unique-right (x ∷ xs) ys u = Unique-right xs ys u.1

-- Whatever the threads did before, a collection hands out one notification for each queued job of the
-- session, or of all sessions, in the order in which the jobs ended, and keeps the others queued in
-- theirs. The callback of a job that completed is called, and what it returns or raises is noted in
-- the job; and each notification tells of its job after that.
pub collect_completed_lem :
    (max_jobs max_workers : ℕ) (moves : List Move) (session : Option String) (callback : Callbacks)
    → let m = (run (new max_jobs max_workers) moves).1 in
      let (told, after) = collect_completed session callback m in
      (told_ids told ≡ filter (of_session session m.jobs) m.completed)
      × (after.completed ≡ filter (λ id. not (of_session session m.jobs id)) m.completed)
      × All (Delivered callback m.jobs after.jobs) told
unfolding collect_completed
collect_completed_lem max_jobs max_workers moves session callback =
    let (told, m) = run (new max_jobs max_workers) moves in
    let i = run-Inv [] (new max_jobs max_workers) moves (new-Inv max_jobs max_workers) in
    let gone = told_ids told ++ m.collecting in
    let same = wanted-of_session session m.jobs in
    (
      told_ids-collect_completed gone m session callback i ∙ filter-of_session _ _ m.completed same,
      filter-of_session _ _ m.completed (λ id. ap not (same id)),
      All-map _ _ (deliver callback (chosen session m) m.jobs).0 (λ n d. d.1)
          (deliver-Delivered callback (chosen session m) m.jobs
            (Unique-filter (wanted session m.jobs) m.completed
              (Unique-right gone m.completed i.once))
            (All-filter _ (wanted session m.jobs) m.completed
              (All-right (λ id. elem id (job_ids m.jobs) ≡ true) gone m.completed i.known))),
    )
