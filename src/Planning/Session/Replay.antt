-- ===== src/Planning/Session/Replay.antt =====
-- Replaying a session log: what its plan is, and how an appended event changes it.
use mathlib.Core.Path.{subst}
use bauhinia_agent.Common.{
  ℕ, ◌+◌, ◌≡◌, refl, sym, ◌∙◌, ap, false, nat_eq, beq_refl, String, Option, none, some, List, [],
  ◌∷◌, ◌++◌, arith, Result, ok, err, ◌>>=◌, >>=-eq-ok, map_err, is_blank,
}
use bauhinia_agent.Common.Int.{pos}
use bauhinia_agent.Planning.Values.{TaskPlan, Value, null, int, Fields, get_or, find}
use bauhinia_agent.Planning.Errors.{PlanError, plan_error}
use bauhinia_agent.Planning.Models.{plan_from_dict, plan_to_dict}
use bauhinia_agent.Planning.Models.RoundTrip.{
  IsWellFormed, plan_round_trip, plan_from_dict-IsWellFormed,
}
use bauhinia_agent.Planning.Projection.{Raises}
use bauhinia_agent.Planning.Validation.{validate_plan}
use bauhinia_agent.Planning.Validation.Spec.{IsValid}
use bauhinia_agent.Planning.Validation.Sound.{validate_plan_sound}
use bauhinia_agent.Planning.Validation.Complete.{validate_plan_complete}
use bauhinia_agent.Planning.Reducer.{plan_revision, Change}
use bauhinia_agent.Planning.Session.{
  task_plan_updated, other_event, Log, plan_event, append_task_plan_updated, read_snapshot,
  check_chain, apply_task_plan_payload, apply_event, replay, rebuild_plan, as_corrupt,
}

-- A plan that the log can hold: valid, and such that it can be serialized and read back.
pub record IsGood (plan : TaskPlan) : Type 0 where
  pub formed : IsWellFormed plan
  pub valid : IsValid plan

abbrev pub CurrentIsGood : Option TaskPlan → Type 0
CurrentIsGood none = Unit {0}
CurrentIsGood (some p) = IsGood p

-- How many of the events are updates of the plan.
abbrev pub plan_events : Log → ℕ
plan_events [] = 0
plan_events (task_plan_updated fs ∷ es) = plan_events es + 1
plan_events (other_event k problem ∷ es) = plan_events es

raise_eq : {A : Type 0} {a b : A} → ◌≡◌ {A = Raises A} (ok a) (ok b) → a ≡ b
raise_eq h = cc

from_plan_error :
    {A : Type 0} (m : Result PlanError A) {a : A} → map_err plan_error m ≡ ok a → m ≡ ok a
from_plan_error (ok a) h = cc
from_plan_error (err e) h = cc

from_corrupt : {A : Type 0} (m : Raises A) {a : A} → map_err as_corrupt m ≡ ok a → m ≡ ok a
from_corrupt (ok a) h = cc
from_corrupt (err e) h = cc

read_snapshot-IsGood : (v : Value) {p : TaskPlan} → read_snapshot v ≡ ok p → IsGood p
unfolding read_snapshot
read_snapshot-IsGood v h =
    let (p, parsed, h1) = >>=-eq-ok (map_err plan_error (plan_from_dict v)) _ h in
    let (u, valid, h2) = >>=-eq-ok (validate_plan p) _ h1 in
    subst IsGood (raise_eq h2) (record {
      formed = plan_from_dict-IsWellFormed v (from_plan_error (plan_from_dict v) parsed);
      valid = validate_plan_sound p valid;
    })

read_snapshot_of : (p : TaskPlan) → IsGood p → read_snapshot (plan_to_dict p) ≡ ok p
unfolding read_snapshot
read_snapshot_of p g = rw (plan_round_trip p g.formed, validate_plan_complete p g.valid) refl

check_chain_inv :
    (previous revision : Value) (expected actual : ℕ)
    → check_chain previous revision expected actual ≡ ok tt
    → actual ≡ expected + 1
unfolding check_chain
check_chain_inv from to expected actual h = ground arith

check_chain_ok :
    (expected actual : ℕ)
    → actual ≡ expected + 1
    → check_chain (int (pos expected)) (int (pos actual)) expected actual ≡ ok tt
unfolding check_chain
check_chain_ok expected actual h =
    rw (beq_refl expected, (nat_eq.equal_iff actual (expected + 1)).1 h, beq_refl actual) refl

-- A plan that is read from an event is good, and of the next revision.
apply_task_plan_payload_inv :
    (current : Option TaskPlan) (payload : Fields) {next : Option TaskPlan}
    → apply_task_plan_payload current payload ≡ ok next
    → (p : TaskPlan) × (next ≡ some p) × IsGood p × (p.revision ≡ plan_revision current + 1)
unfolding apply_task_plan_payload
apply_task_plan_payload_inv current payload h =
    let (p, read, h1) =
      >>=-eq-ok (map_err as_corrupt (read_snapshot (get_or null "snapshot" payload))) _ h in
    let (u, chained, h2) =
      >>=-eq-ok
        (check_chain (get_or null "previous_revision" payload) (get_or null "revision" payload)
          (plan_revision current) p.revision)
        _ h1 in
    (
      p,
      sym (raise_eq h2),
      read_snapshot-IsGood (get_or null "snapshot" payload)
          (from_corrupt (read_snapshot (get_or null "snapshot" payload)) read),
      check_chain_inv (get_or null "previous_revision" payload) (get_or null "revision" payload)
          (plan_revision current) p.revision chained,
    )

replay_lem :
    (current : Option TaskPlan) (log : Log) {next : Option TaskPlan}
    → CurrentIsGood current
    → replay current log ≡ ok next
    → CurrentIsGood next × (plan_revision next ≡ plan_revision current + plan_events log)
unfolding replay
replay_lem current [] {next} g h =
    subst (λ n. CurrentIsGood n × (plan_revision n ≡ plan_revision current + 0)) (raise_eq h)
      (g, omega arith)
replay_lem current (task_plan_updated fs ∷ es) g h =
    let (step, applied, h1) = >>=-eq-ok (apply_event current (task_plan_updated fs)) _ h in
    let (p, same, good, next_revision) = apply_task_plan_payload_inv current fs applied in
    let (last_good, number) = replay_lem step es (subst CurrentIsGood (sym same) good) h1 in
    (last_good, number ∙ (ap (λ c. plan_revision c + plan_events es) same ∙ omega arith))
replay_lem current (other_event k none ∷ es) g h = replay_lem current es g h
replay_lem current (other_event k (some problem) ∷ es) g h = cc

-- Whatever the log, a plan that is rebuilt from it is valid and can be serialized and read back, and
-- its revision is the number of plan updates in the log; without a plan there are none.
pub rebuild_plan_sound :
    (log : Log) (current : Option TaskPlan)
    → rebuild_plan log ≡ ok current
    → CurrentIsGood current × (plan_revision current ≡ plan_events log)
unfolding rebuild_plan
rebuild_plan_sound log current h =
    let (good, number) = replay_lem none log tt h in (good, number ∙ omega arith)

bind_assoc :
    {A B C : Type 0} (m : Raises A) (f : A → Raises C) (g : A → Raises B) (h : B → Raises C)
    → ((a : A) → f a ≡ (g a >>= h))
    → (m >>= f) ≡ (m >>= g >>= h)
bind_assoc (ok a) f g h same = same a
bind_assoc (err e) f g h same = refl

replay-append :
    (current : Option TaskPlan) (xs ys : Log)
    → replay current (xs ++ ys) ≡ (replay current xs >>= λ next. replay next ys)
unfolding replay
replay-append current [] ys = refl
replay-append current (x ∷ xs) ys =
    bind_assoc (apply_event current x) (λ c. replay c (xs ++ ys)) (λ c. replay c xs)
      (λ next. replay next ys) (λ c. replay-append c xs ys)

-- The event of a good plan of the next revision makes that plan the current one.
apply-plan_event :
    (current : Option TaskPlan) (operation : String) (changes : List Change) (p : TaskPlan)
    → IsGood p
    → p.revision ≡ plan_revision current + 1
    → apply_event current (plan_event (plan_revision current) operation changes p) ≡ ok (some p)
unfolding apply_event plan_event find apply_task_plan_payload
apply-plan_event current operation changes p g n =
    rw (read_snapshot_of p g, check_chain_ok (plan_revision current) p.revision n) refl

-- Appending a good plan of the next revision succeeds, and the log is then read as that plan.
pub append_task_plan_updated_lem :
    (log : Log) (current : Option TaskPlan) (operation : String) (changes : List Change)
    (p : TaskPlan)
    → rebuild_plan log ≡ ok current
    → is_blank operation ≡ false
    → IsGood p
    → p.revision ≡ plan_revision current + 1
    → (append_task_plan_updated (plan_revision current) operation changes p log
        ≡ ok (log ++ plan_event (plan_revision current) operation changes p ∷ []))
      × (rebuild_plan (log ++ plan_event (plan_revision current) operation changes p ∷ [])
          ≡ ok (some p))
unfolding append_task_plan_updated rebuild_plan replay
append_task_plan_updated_lem log current operation changes p h full g n =
    let event = plan_event (plan_revision current) operation changes p in
    (
      rw
          (
            full,
            plan_round_trip p g.formed,
            validate_plan_complete p g.valid,
            (nat_eq.equal_iff p.revision (plan_revision current + 1)).1 n,
          )
          refl,
      replay-append none log (event ∷ [])
          ∙ ap (λ m. m >>= λ next. replay next (event ∷ [])) h
          ∙ ap (λ m. m >>= λ next. replay next [])
              (apply-plan_event current operation changes p g n),
    )

-- Another event leaves the plan as it is.
pub rebuild_plan-other :
    (log : Log) (kind : String) {current : Option TaskPlan}
    → rebuild_plan log ≡ ok current
    → rebuild_plan (log ++ other_event kind none ∷ []) ≡ ok current
unfolding rebuild_plan apply_event replay
rebuild_plan-other log kind h =
    replay-append none log (other_event kind none ∷ [])
    ∙ ap (λ m. m >>= λ next. replay next (other_event kind none ∷ [])) h
