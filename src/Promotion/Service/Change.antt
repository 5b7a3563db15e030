-- ===== src/Promotion/Service/Change.antt =====
-- `_transition` of CandidateLifecycleService in evolution/promotion.py, with which its calls end.
use bauhinia_agent.Common.{
  String, Bool, true, false, not, Option, none, some, List, [], ◌∷◌, Result, ok, err, ◌>>=◌, ◌>>◌,
  require, ◌==◌, nat_eq, string_eq, is_blank, strip,
}
use bauhinia_agent.Common.Dict.{insert_all}
use bauhinia_agent.Planning.Values.{Value, bool, str}
use bauhinia_agent.Promotion.{
  Lifecycle, lifecycle_text, lifecycle_eq, PromotionChanged, promotion_changed, EvoEvent, Log,
  ArtifactRecord, Raises, blank_reason, blank_reviewer, unexpected_state, artifact, state,
}
use bauhinia_agent.Promotion.Store.{
  Trouble, StoreError, AppendResult, append, Report, latest_artifact_event,
}

pub record Host : Type 0 where
  pub redact : String → String
  pub facts_hold : Log → Report → Bool
  pub store_error_text : StoreError → String

-- New identifiers, the time, and what befalls the store during the call.
pub record Moment : Type 0 where
  pub promotion_id : String
  pub event_id : String
  pub now : String
  pub trouble : Trouble

pub record PromotionReviewerIdentity : Type 0 where
  pub subject : String
  pub role : String
  pub authenticated_by : String

pub record PromotionRecord : Type 0 where
  pub event_id : String
  pub promotion_id : String
  pub artifact_id : String
  pub run_id : String
  pub occurred_at : String
  pub payload : PromotionChanged

pub record PromotionResult : Type 0 where
  pub persisted : Bool
  pub promotion : Option PromotionRecord
  pub diagnostic : Option (String × String)

abbrev or_else : Option String → String → String
or_else none d = d
or_else (some s) d = s

abbrev pub require_reviewer : Option String → Raises (Unit {0})
require_reviewer none = ok tt
require_reviewer (some r) = require (not (is_blank r)) blank_reviewer

-- The arguments of `_transition`.
pub record Transition : Type 0 where
  pub from : Lifecycle
  pub target : Lifecycle
  pub reviewer : Option String
  pub reason : String
  pub evaluation_event_ids : List String
  pub rollback_target : Option String
  pub extensions : List (String × Value)

module _ (host : Host) where
  abbrev hidden : Option String → Option String
  hidden none = none
  hidden (some s) = some (host.redact (strip s))

  abbrev pub changed_payload : Transition → PromotionChanged
  changed_payload t = record {
    from_state = lifecycle_text t.from;
    to_state = lifecycle_text t.target;
    reason = host.redact (strip t.reason);
    reviewer = hidden t.reviewer;
    evaluation_event_ids = t.evaluation_event_ids;
    rollback_target = t.rollback_target;
    extensions =
        insert_all
          (("service_version", str "p8-003") ∷ ("runtime_permissions_changed", bool false) ∷ [])
          t.extensions;
  }

  abbrev pub changed_event : Moment → Log → ArtifactRecord → String → Transition → EvoEvent
  changed_event moment events a id t = record {
    event_id = moment.event_id;
    sequence = none;
    occurred_at = moment.now;
    run_id = a.run_id;
    candidate_id = none;
    artifact_id = some id;
    evidence_id = none;
    promotion_id = some moment.promotion_id;
    parent_event_id = some (or_else (latest_artifact_event events id) a.event_id);
    payload = promotion_changed (changed_payload t);
  }

  abbrev pub promotion_record : Moment → ArtifactRecord → String → Transition → PromotionRecord
  promotion_record moment a id t = record {
    event_id = moment.event_id;
    promotion_id = moment.promotion_id;
    artifact_id = id;
    run_id = a.run_id;
    occurred_at = moment.now;
    payload = changed_payload t;
  }

  abbrev pub recorded :
      PromotionRecord → Log → Result StoreError (AppendResult × Log) → PromotionResult × Log
  recorded r events (ok (done, after)) =
      (record { persisted = true; promotion = some r; diagnostic = done.diagnostic }, after)
  recorded r events (err e) = (
    record {
      persisted = false;
      promotion = none;
      diagnostic = some ("promotion_recording_failed", host.store_error_text e);
    },
    events,
  )

  -- `_transition`
  unfoldable pub transition : Moment → String → Transition → Log → Raises (PromotionResult × Log)
  unfolding state artifact append latest_artifact_event insert_all
  transition moment id t events = do
    a ← artifact events id
    current ← state events id
    require (current == t.from) (unexpected_state t.from current)
    require (not (is_blank t.reason)) blank_reason
    require_reviewer t.reviewer
    ok (
        recorded (promotion_record moment a id t) events
          (append moment.trouble (changed_event moment events a id t) events))
