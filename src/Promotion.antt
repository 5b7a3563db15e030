-- ===== src/Promotion.antt =====
-- evolution/promotion.py, and what it reads of evolution/events.py, evolution/evidence.py and
-- evolution/candidate_artifacts.py: the events of learned artifacts, and the lifecycle that an artifact
-- has by them. Of a payload only the fields that are read or made here are kept; the type of an event is
-- that of its payload. A rate is compared only, so a number stands for it.
pub mod Trials
pub mod Store
pub mod Service
pub mod Calls
pub mod History
pub mod Approval
pub mod Walks
pub mod Gate
pub mod Unattended
pub mod Lineage
pub mod Rollback
mod Samples
mod Examples
use bauhinia_agent.Common.{
  ℕ, String, ◌≡◌, ◌↔◌, Bool, true, false, Option, none, some, List, [], ◌∷◌, Result, ok, err, ◌>>=◌,
  ◌>>◌, require, map_err, ◌==◌, string_eq, if◌then◌else◌, arith, Eq,
}
use bauhinia_agent.Common.Dict.{Dict}
use bauhinia_agent.Common.Int.{ℤ}
use bauhinia_agent.Planning.Values.{Value}
use bauhinia_agent.Evo.Graph.{EvoError, require_evo_id}

-- CandidateArtifactLifecycle
pub data Lifecycle : Type 0 where
  candidate shadow validated promoted deprecated rejected : Lifecycle

abbrev pub lifecycle_text : Lifecycle → String
lifecycle_text candidate = "Candidate"
lifecycle_text shadow = "Shadow"
lifecycle_text validated = "Validated"
lifecycle_text promoted = "Promoted"
lifecycle_text deprecated = "Deprecated"
lifecycle_text rejected = "Rejected"

-- The fields of CandidateArtifactCreatedPayload that its hash is of.
pub record Content : Type 0 where
  pub kind : String
  pub name : String
  pub description : String
  pub instructions : String
  pub inputs : List String
  pub outputs : List String
  pub dependencies : List String
  pub effects : List String
  pub triggers : List String
  pub scope : String
  pub applicability : String
  pub risks : List String

-- A `float`, as the fraction that it is; infinities and NaN are left out.
pub record Fraction : Type 0 where
  pub numerator : ℤ
  pub denominator : ℕ

-- CandidateArtifactCreatedPayload
pub record Artifact : Type 0 where
  pub artifact_schema_version : String
  pub lineage_id : String
  pub artifact_version : ℕ
  pub content : Content
  pub source_candidate_ids : List String
  pub support_candidate_ids : List String
  pub counterexample_candidate_ids : List String
  pub source_run_ids : List String
  pub evidence_refs : List String
  pub counterexamples : List String
  pub confidence : Fraction
  pub content_hash : String
  pub lifecycle_state : String
  pub supersedes_artifact_id : Option String
  pub extensions : Dict Value

-- ExperienceCandidateCreatedPayload
pub record Experience : Type 0 where
  pub source_run_ids : List String
  pub evidence_refs : List String
  pub counterexamples : List String

-- CandidateReviewRecordedPayload
pub record Review : Type 0 where
  pub candidate_id : String
  pub decision : String

-- CandidateShadowTrialRecordedPayload
pub record ShadowTrial : Type 0 where
  pub artifact_id : String
  pub evidence_refs : List String
  pub passed : Bool

-- EvidenceRecordedPayload; an exit code is read for whether it is there and is 0
pub record Evidence : Type 0 where
  pub evidence_type : String
  pub verified : Bool
  pub exit_code : Option ℕ

-- EvaluationComparisonCompletedPayload
pub record Comparison : Type 0 where
  pub report_id : String
  pub artifact_id : String
  pub artifact_version : ℕ
  pub baseline_success_rate : ℕ
  pub candidate_success_rate : ℕ
  pub baseline_verification_quality : ℕ
  pub candidate_verification_quality : ℕ
  pub candidate_risk_event_count : ℕ
  pub eligible : Bool
  pub blocking_reasons : List String
  pub integrity_violations : List String

-- PromotionChangedPayload
pub record PromotionChanged : Type 0 where
  pub from_state : String
  pub to_state : String
  pub reason : String
  pub reviewer : Option String
  pub evaluation_event_ids : List String
  pub rollback_target : Option String
  pub extensions : Dict Value

pub data Payload : Type 0 where
  experience_created : Experience → Payload
  review_recorded : Review → Payload
  artifact_created : Artifact → Payload
  shadow_trial_recorded : ShadowTrial → Payload
  evidence_recorded : Evidence → Payload
  comparison_completed : Comparison → Payload
  promotion_changed : PromotionChanged → Payload
  other_payload : (event_type : String) → Payload

-- EvoEvent with its EvoReferences
pub record EvoEvent : Type 0 where
  pub event_id : String
  pub sequence : Option ℕ
  pub occurred_at : String
  pub run_id : String
  pub candidate_id : Option String
  pub artifact_id : Option String
  pub evidence_id : Option String
  pub promotion_id : Option String
  pub parent_event_id : Option String
  pub payload : Payload

abbrev pub Log : Type 0
Log = List EvoEvent

-- CandidateArtifactRecord
pub record ArtifactRecord : Type 0 where
  pub event_id : String
  pub artifact_id : String
  pub run_id : String
  pub occurred_at : String
  pub payload : Artifact

-- What the lifecycle raises; `bad_state` is the ValueError for the text of no state.
pub data PromotionError : Type 0 where
  bad_identifier : EvoError → PromotionError
  bad_state : String → PromotionError
  unknown_artifact unknown_report : String → PromotionError
  not_a_candidate no_shadow_trial not_in_shadow not_validated not_shadow_or_validated not_promoted :
      PromotionError
  report_not_latest report_not_eligible report_eligible facts_not_verified : PromotionError
  no_reviewer incomplete_reviewer other_reviewer not_an_approver : PromotionError
  blank_impact_scope blank_reason blank_reviewer : PromotionError
  unexpected_state : (expected found : Lifecycle) → PromotionError

abbrev pub Raises : Type 0 → Type 0
Raises A = Result PromotionError A

abbrev lifecycle_beq : Lifecycle → Lifecycle → Bool
lifecycle_beq candidate candidate = true
lifecycle_beq shadow shadow = true
lifecycle_beq validated validated = true
lifecycle_beq promoted promoted = true
lifecycle_beq deprecated deprecated = true
lifecycle_beq rejected rejected = true
lifecycle_beq _ _ = false

pub lifecycle_beq_iff : (a b : Lifecycle) → (lifecycle_beq a b ≡ true) ↔ (a ≡ b)
lifecycle_beq_iff a b = ground arith

instance abbrev pub lifecycle_eq : Eq Lifecycle
lifecycle_eq = record { equal = lifecycle_beq; equal_iff = lifecycle_beq_iff }

-- `CandidateArtifactLifecycle(text)`
unfoldable pub lifecycle_of_text : String → Raises Lifecycle
lifecycle_of_text s =
    if s == "Candidate"
    then ok candidate
    else if s == "Shadow"
    then ok shadow
    else if s == "Validated"
    then ok validated
    else if s == "Promoted"
    then ok promoted
    else if s == "Deprecated"
    then ok deprecated
    else if s == "Rejected"
    then ok rejected
    else err (bad_state s)

-- `event.refs.artifact_id == artifact_id`
abbrev pub names : Option String → String → Bool
names none id = false
names (some x) id = x == id

abbrev pub created : Payload → Option Artifact
created (artifact_created a) = some a
created _ = none

abbrev pub record_of : EvoEvent → Option String → Option Artifact → Option ArtifactRecord
record_of e (some id) (some a) = some (record {
  event_id = e.event_id;
  artifact_id = id;
  run_id = e.run_id;
  occurred_at = e.occurred_at;
  payload = a;
})
record_of e _ _ = none

abbrev pub first_of : Option ArtifactRecord → Option ArtifactRecord → Option ArtifactRecord
first_of none later = later
first_of (some r) later = some r

-- The first event that created the artifact.
unfoldable pub find_artifact : String → Log → Option ArtifactRecord
find_artifact id [] = none
find_artifact id (e ∷ es) =
    let rest = find_artifact id es in
    first_of
      (if names e.artifact_id id then record_of e e.artifact_id (created e.payload) else none) rest

abbrev pub evo_id : String → (field : String) → Raises (Unit {0})
evo_id value field = map_err bad_identifier (require_evo_id value field)

-- `_artifact`
unfoldable pub artifact : Log → String → Raises ArtifactRecord
artifact events id = do
  evo_id id "artifact_id"
  elim (find_artifact id events) [ none ↦ err (unknown_artifact id) | some r ↦ ok r ]

-- The state to which the event takes the artifact, if it does.
abbrev pub target_of : Payload → Option String
target_of (promotion_changed p) = some p.to_state
target_of _ = none

abbrev pub after_event : String → EvoEvent → Lifecycle → Raises Lifecycle
after_event id e s =
    if names e.artifact_id id
    then elim (target_of e.payload) [ none ↦ ok s | some t ↦ lifecycle_of_text t ]
    else ok s

unfoldable pub replay_states : String → Log → Lifecycle → Raises Lifecycle
unfolding lifecycle_of_text
replay_states id [] s = ok s
replay_states id (e ∷ es) s = do t ← after_event id e s; replay_states id es t

-- `CandidateLifecycleService.state`
unfoldable pub state : Log → String → Raises Lifecycle
unfolding artifact replay_states
state events id = do
  evo_id id "artifact_id"
  found ← artifact events id
  replay_states id events candidate
