-- ===== src/Promotion/Samples.antt =====
-- Small logs of evolution/promotion.py, with one artifact and with three versions of one.
use bauhinia_agent.Common.{
  ℕ, String, true, Option, none, some, List, [], ◌∷◌, map, nat_eq, string_eq, Result, ok, err,
}
use bauhinia_agent.Common.Int.{pos}
use bauhinia_agent.Promotion.{
  Comparison, Payload, Artifact, artifact_created, shadow_trial_recorded, evidence_recorded,
  comparison_completed, promotion_changed, EvoEvent, Log, ArtifactRecord,
}
use bauhinia_agent.Promotion.Store.{no_trouble}
use bauhinia_agent.Promotion.Service.{
  Host, Moment, PromotionReviewerIdentity, PromotionResult, changed_event, to_shadow,
}

abbrev pub toy : Host
toy = record {
  redact = λ s. s;
  facts_hold = λ events report. true;
  store_error_text = λ e. "store";
}

abbrev pub moment : String → Moment
moment id = record {
  promotion_id = "p1";
  event_id = id;
  now = "2026-01-01T00:00:00Z";
  trouble = no_trouble;
}

abbrev pub plain : (lineage_id : String) (version : ℕ) → Artifact
plain lineage_id version = record {
  artifact_schema_version = "v1";
  lineage_id = lineage_id;
  artifact_version = version;
  content = record {
    kind = "memory_rule";
    name = "rule";
    description = "A rule.";
    instructions = "Look first.";
    inputs = "question" ∷ [];
    outputs = "answer" ∷ [];
    dependencies = [];
    effects = "none" ∷ [];
    triggers = [];
    scope = "project";
    applicability = "always";
    risks = "few" ∷ [];
  };
  source_candidate_ids = "c1" ∷ [];
  support_candidate_ids = "c1" ∷ [];
  counterexample_candidate_ids = [];
  source_run_ids = "run1" ∷ [];
  evidence_refs = [];
  counterexamples = [];
  confidence = record { numerator = pos 1; denominator = 2 };
  content_hash = "h1";
  lifecycle_state = "Candidate";
  supersedes_artifact_id = none;
  extensions = [];
}

abbrev pub event : String → Option ℕ → Option String → Option String → Payload → EvoEvent
event id sequence owner evidence payload = record {
  event_id = id;
  sequence = sequence;
  occurred_at = "2026-01-01T00:00:00Z";
  run_id = "run1";
  candidate_id = none;
  artifact_id = owner;
  evidence_id = evidence;
  promotion_id = none;
  parent_event_id = none;
  payload = payload;
}

abbrev pub creation : EvoEvent
creation = event "e1" (some 1) (some "a1") none (artifact_created (plain "a1" 1))

abbrev pub proof : EvoEvent
proof =
    event "e2" (some 2) none (some "ev1")
      (evidence_recorded (record { evidence_type = "test"; verified = true; exit_code = some 0 }))

abbrev pub trial : EvoEvent
trial = event "e3" (some 3) none none (
    shadow_trial_recorded
      (record { artifact_id = "a1"; evidence_refs = "ev1" ∷ []; passed = true }))

abbrev pub tried : Log
tried = creation ∷ proof ∷ trial ∷ []

abbrev pub comparison : Comparison
comparison = record {
  report_id = "r1";
  artifact_id = "a1";
  artifact_version = 1;
  baseline_success_rate = 60;
  candidate_success_rate = 80;
  baseline_verification_quality = 70;
  candidate_verification_quality = 70;
  candidate_risk_event_count = 0;
  eligible = true;
  blocking_reasons = [];
  integrity_violations = [];
}

abbrev pub report : EvoEvent
report = event "e5" (some 5) none none (comparison_completed comparison)

abbrev pub entered : EvoEvent
entered =
    record (changed_event toy (moment "e4") tried
      (record {
        event_id = "e1";
        artifact_id = "a1";
        run_id = "run1";
        occurred_at = "2026-01-01T00:00:00Z";
        payload = plain "a1" 1;
      })
      "a1" (to_shadow toy "ann" "good trial")) { sequence = some 4; parent_event_id = some "e1" }

abbrev pub after_of : Result String (PromotionResult × Log) → Log
after_of (ok r) = r.1
after_of (err e) = []

abbrev pub ann : PromotionReviewerIdentity
ann = record { subject = "ann"; role = "owner"; authenticated_by = "session" }

abbrev pub a1 : ArtifactRecord
a1 = record {
  event_id = "e1";
  artifact_id = "a1";
  run_id = "run1";
  occurred_at = "2026-01-01T00:00:00Z";
  payload = plain "a1" 1;
}

abbrev pub change_of : (id owner from target : String) (back : Option String) → EvoEvent
change_of id owner from target back = event id none (some owner) none (
    promotion_changed (record {
      from_state = from;
      to_state = target;
      reason = "because";
      reviewer = none;
      evaluation_event_ids = [];
      rollback_target = back;
      extensions = [];
    }))

-- Three promoted versions of one artifact; then the second is rolled back to the first.
abbrev pub version : (id owner : String) (n : ℕ) → EvoEvent
version id owner n = event id none (some owner) none (artifact_created (plain "a1" n))

abbrev pub versions : Log
versions =
    version "g1" "a1" 1
    ∷ version "g2" "a2" 2
    ∷ version "g3" "a3" 3
    ∷ change_of "g4" "a1" "Validated" "Promoted" none
    ∷ change_of "g5" "a2" "Validated" "Promoted" none
    ∷ change_of "g6" "a3" "Validated" "Promoted" none
    ∷ []

abbrev pub names_of : Option (List ArtifactRecord) → List String
names_of none = []
names_of (some rs) = map (λ (r : ArtifactRecord). r.artifact_id) rs
