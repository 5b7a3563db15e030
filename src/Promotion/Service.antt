-- ===== src/Promotion/Service.antt =====
-- CandidateLifecycleService of evolution/promotion.py. A call reads the log once and, unless it raises,
-- appends at most one event; no other writer comes between. Credentials are hidden by `redact`, and
-- whether the facts behind a report still give that report is `facts_hold`, both of other modules.
mod Change
unfoldable pub use Change.*
use bauhinia_agent.Common.{
  String, Bool, true, false, not, ◌&&◌, ◌||◌, Option, none, some, List, [], ◌∷◌, map, any, elem,
  Result, ok, err, ◌>>=◌, ◌>>◌, require, ltb, ◌==◌, nat_eq, string_eq, if◌then◌else◌, is_empty,
  is_blank, strip,
}
use bauhinia_agent.Common.Dict.{insert_all}
use bauhinia_agent.Common.Int.{pos}
use bauhinia_agent.Planning.Values.{Value, bool, int, str, list, of_items}
use bauhinia_agent.Promotion.{
  Lifecycle, candidate, shadow, validated, promoted, deprecated, rejected, lifecycle_text,
  lifecycle_eq, Comparison, PromotionChanged, promotion_changed, EvoEvent, Log, ArtifactRecord,
  Raises, not_a_candidate, no_shadow_trial, not_in_shadow, not_validated, not_shadow_or_validated,
  not_promoted, report_not_eligible, report_eligible, facts_not_verified, no_reviewer,
  incomplete_reviewer, other_reviewer, not_an_approver, blank_impact_scope, blank_reason,
  blank_reviewer, unexpected_state, evo_id, artifact, state,
}
use bauhinia_agent.Promotion.Trials.{is_valid_shadow_trial}
use bauhinia_agent.Promotion.Store.{
  Trouble, StoreError, AppendResult, append, Report, report_named, latest_artifact_event,
  require_latest_report, previous_promoted,
}

module _ (host : Host) where
  abbrev pub to_shadow : (reviewer reason : String) → Transition
  to_shadow reviewer reason = record {
    from = candidate;
    target = shadow;
    reviewer = some reviewer;
    reason = reason;
    evaluation_event_ids = [];
    rollback_target = none;
    extensions = [];
  }

  unfoldable pub start_shadow :
      Moment → (id reviewer reason : String) → Log → Raises (PromotionResult × Log)
  unfolding transition is_valid_shadow_trial
  start_shadow moment id reviewer reason events = do
    a ← artifact events id
    current ← state events id
    require (current == candidate) not_a_candidate
    require (any (λ e. is_valid_shadow_trial e events id) events) no_shadow_trial
    transition host moment id (to_shadow reviewer reason) events

  -- The report is the latest one for the artifact, and of its version.
  abbrev pub is_of : ArtifactRecord → String → Comparison → Bool
  is_of a id c = c.artifact_id == id && c.artifact_version == a.payload.artifact_version

  abbrev pub to_validated : (event_id : String) → Transition
  to_validated event_id = record {
    from = shadow;
    target = validated;
    reviewer = none;
    reason = "Deterministic held-out Promotion Gate passed.";
    evaluation_event_ids = event_id ∷ [];
    rollback_target = none;
    extensions = [];
  }

  unfoldable pub validate_from_report :
      Moment → (id report_id : String) → Log → Raises (PromotionResult × Log)
  unfolding transition report_named require_latest_report
  validate_from_report moment id report_id events = do
    evo_id report_id "report_id"
    current ← state events id
    require (current == shadow) not_in_shadow
    a ← artifact events id
    report ← report_named events report_id
    require_latest_report events id report.0.event_id
    require (is_of a id report.1 && report.1.eligible) report_not_eligible
    require (host.facts_hold events report) facts_not_verified
    transition host moment id (to_validated report.0.event_id) events

  abbrev pub approver_roles : List String
  approver_roles = "maintainer" ∷ "owner" ∷ []

  abbrev pub check_reviewer :
      Option PromotionReviewerIdentity → (reviewer role : String) → Raises PromotionReviewerIdentity
  check_reviewer none reviewer role = err no_reviewer
  check_reviewer (some i) reviewer role = do
    require (not (is_blank i.subject) && not (is_blank i.role) && not (is_blank i.authenticated_by))
        incomplete_reviewer
    require (i.subject == reviewer && i.role == role) other_reviewer
    require (elem i.role approver_roles) not_an_approver
    ok i

  abbrev pub to_promoted :
      PromotionReviewerIdentity → (event_id reviewer reason : String) → Transition
  to_promoted i event_id reviewer reason = record {
    from = validated;
    target = promoted;
    reviewer = some reviewer;
    reason = reason;
    evaluation_event_ids = event_id ∷ [];
    rollback_target = none;
    extensions =
        ("reviewer_role", str i.role)
        ∷ ("reviewer_authenticated_by", str i.authenticated_by)
        ∷ ("permissions_changed", bool false)
        ∷ ("materialized", bool false)
        ∷ [];
  }

  unfoldable pub approve :
      Moment
      → Option PromotionReviewerIdentity
      → (id report_id reviewer role reason : String) → Log
      → Raises (PromotionResult × Log)
  unfolding transition report_named require_latest_report
  approve moment identity id report_id reviewer role reason events = do
    i ← check_reviewer identity reviewer role
    current ← state events id
    require (current == validated) not_validated
    a ← artifact events id
    report ← report_named events report_id
    require_latest_report events id report.0.event_id
    require (is_of a id report.1 && report.1.eligible) report_not_eligible
    require (host.facts_hold events report) facts_not_verified
    transition host moment id (to_promoted i report.0.event_id reviewer reason) events

  abbrev pub to_rejected : Lifecycle → Report → (reason : String) → Transition
  to_rejected current report reason = record {
    from = current;
    target = rejected;
    reviewer = none;
    reason = reason;
    evaluation_event_ids = report.0.event_id ∷ [];
    rollback_target = none;
    extensions =
        ("automatic_rejection", bool true)
        ∷ ("integrity_violations", list (of_items (map str report.1.integrity_violations)))
        ∷ ("risk_event_count", int (pos report.1.candidate_risk_event_count))
        ∷ [];
  }

  unfoldable pub reject_from_report :
      Moment → (id report_id reason : String) → Log → Raises (PromotionResult × Log)
  unfolding transition report_named require_latest_report
  reject_from_report moment id report_id reason events = do
    current ← state events id
    require (current == shadow || current == validated) not_shadow_or_validated
    a ← artifact events id
    report ← report_named events report_id
    require_latest_report events id report.0.event_id
    require (is_of a id report.1 && not report.1.eligible) report_eligible
    transition host moment id (to_rejected current report reason) events

  abbrev is_critical : Comparison → Bool
  is_critical c = not (is_empty c.integrity_violations) || ltb 0 c.candidate_risk_event_count

  abbrev pub target_id : Option ArtifactRecord → Option String
  target_id none = none
  target_id (some r) = some r.artifact_id

  abbrev pub to_deprecated :
      Option ArtifactRecord → Report → (impact_scope reason : String) → Transition
  to_deprecated back report impact_scope reason = record {
    from = promoted;
    target = deprecated;
    reviewer = none;
    reason = reason;
    evaluation_event_ids = report.0.event_id ∷ [];
    rollback_target = target_id back;
    extensions =
        ("automatic_rollback", bool true)
        ∷ ("impact_scope", str (host.redact (strip impact_scope)))
        ∷ (
          "rollback_sla",
          str (
              if is_critical report.1
              then "immediate"
              else "logical-disable-now-review-within-24h"),
        )
        ∷ ("materialized_side_effects_reverted", bool false)
        ∷ [];
  }

  unfoldable pub rollback_on_regression :
      Moment → (id report_id impact_scope reason : String) → Log → Raises (PromotionResult × Log)
  unfolding transition report_named require_latest_report previous_promoted
  rollback_on_regression moment id report_id impact_scope reason events = do
    require (not (is_blank impact_scope)) blank_impact_scope
    current ← state events id
    require (current == promoted) not_promoted
    a ← artifact events id
    report ← report_named events report_id
    require_latest_report events id report.0.event_id
    require (is_of a id report.1 && not report.1.eligible) report_eligible
    back ← previous_promoted events id
    transition host moment id (to_deprecated back report impact_scope reason) events
