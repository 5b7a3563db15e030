-- ===== src/Promotion/Calls.antt =====
-- The calls of the lifecycle service of evolution/promotion.py, and the change that each makes.
use bauhinia_agent.Promotion.{
  ArtifactRecord, Lifecycle, candidate, shadow, validated, promoted, deprecated, rejected,
  lifecycle_eq, Log, Raises, evo_id, artifact, state,
}
use text.Mathlib.TextEquality.{eq_iff}
use bauhinia_agent.Common.{
  ◌≡◌, refl, String, Bool, true, not, ◌&&◌, ◌||◌, Option, none, some, any, elem, ok, ◌==◌, nat_eq,
  string_eq, is_blank, >>=-eq-ok, require-eq-ok, arith,
}
use bauhinia_agent.Promotion.Trials.{is_valid_shadow_trial}
use bauhinia_agent.Promotion.Store.{Report, report_named, require_latest_report, previous_promoted}
use bauhinia_agent.Promotion.Service.{
  Host, Moment, PromotionReviewerIdentity, PromotionResult, Transition, is_of, transition,
  start_shadow, validate_from_report, approve, reject_from_report, rollback_on_regression,
  to_shadow, to_validated, to_promoted, to_rejected, to_deprecated, target_id, approver_roles,
  check_reviewer,
}

pub data Call : Type 0 where
  starts_shadow : (id reviewer reason : String) → Call
  validates : (id report_id : String) → Call
  approves :
      (identity : Option PromotionReviewerIdentity) (id report_id reviewer role reason : String)
      → Call
  rejects : (id report_id reason : String) → Call
  rolls_back : (id report_id impact_scope reason : String) → Call

abbrev pub subject_of : Call → String
subject_of (starts_shadow id _ _) = id
subject_of (validates id _) = id
subject_of (approves _ id _ _ _ _) = id
subject_of (rejects id _ _) = id
subject_of (rolls_back id _ _ _) = id

-- Where a call takes its artifact.
abbrev pub goal : Call → Lifecycle
goal (starts_shadow _ _ _) = shadow
goal (validates _ _) = validated
goal (approves _ _ _ _ _ _) = promoted
goal (rejects _ _ _) = rejected
goal (rolls_back _ _ _ _) = deprecated

-- The transitions of the lifecycle.
infix 40 ◌⟶◌
pub data ◌⟶◌ : Lifecycle → Lifecycle → Type 0 where
  enter : candidate ⟶ shadow
  validate : shadow ⟶ validated
  promote : validated ⟶ promoted
  reject_shadow : shadow ⟶ rejected
  reject_validated : validated ⟶ rejected
  roll_back : promoted ⟶ deprecated

module _ (host : Host) where
  abbrev pub perform : Moment → Call → Log → Raises (PromotionResult × Log)
  perform moment (starts_shadow id reviewer reason) = start_shadow host moment id reviewer reason
  perform moment (validates id report_id) = validate_from_report host moment id report_id
  perform moment (approves identity id report_id reviewer role reason) =
      approve host moment identity id report_id reviewer role reason
  perform moment (rejects id report_id reason) = reject_from_report host moment id report_id reason
  perform moment (rolls_back id report_id impact_scope reason) =
      rollback_on_regression host moment id report_id impact_scope reason

  -- A report that speaks for a promotion: the latest one for the artifact, eligible, and given by the
  -- facts before it.
  pub record Supports (events : Log) (id report_id : String) : Type 0 where
    pub report : Report
    pub is_named : report_named events report_id ≡ ok report
    pub is_latest : require_latest_report events id report.0.event_id ≡ ok tt
    pub is_eligible : report.1.eligible ≡ true
    pub facts : host.facts_hold events report ≡ true

  -- What a call that returns went through: its transition, and what the transition is for.
  pub record Through (moment : Moment) (call : Call) (events : Log) (r : PromotionResult × Log)
      : Type 0 where
    pub change : Transition
    pub edge : change.from ⟶ change.target
    pub reaches : change.target ≡ goal call
    pub ran : transition host moment (subject_of call) change events ≡ ok r

  start-Through :
      (moment : Moment) (id reviewer reason : String) (events : Log) (r : PromotionResult × Log)
      → start_shadow host moment id reviewer reason events ≡ ok r
      → Through moment (starts_shadow id reviewer reason) events r
  unfolding start_shadow
  start-Through moment id reviewer reason events r h =
      let (a, found, h1) = >>=-eq-ok (artifact events id) _ h in
      let (current, now, h2) = >>=-eq-ok (state events id) _ h1 in
      let (is_candidate, h3) = require-eq-ok (current == candidate) _ _ h2 in
      let (tried, h4) =
        require-eq-ok (any (λ e. is_valid_shadow_trial e events id) events) _ _ h3 in
      record { change = to_shadow host reviewer reason; edge = enter; reaches = refl; ran = h4 }

  Supports-of_checks :
      (events : Log) (id report_id : String) (report : Report) (version : Bool)
      → report_named events report_id ≡ ok report
      → require_latest_report events id report.0.event_id ≡ ok tt
      → (version && report.1.eligible) ≡ true
      → host.facts_hold events report ≡ true
      → Supports events id report_id
  Supports-of_checks events id report_id report version a b c d = record {
    report = report;
    is_named = a;
    is_latest = b;
    is_eligible = ground (arith, c);
    facts = d;
  }

  unit_eq : (u : Unit {0}) → u ≡ tt
  unit_eq tt = refl

  validate-Through :
      (moment : Moment) (id report_id : String) (events : Log) (r : PromotionResult × Log)
      → validate_from_report host moment id report_id events ≡ ok r
      → Supports events id report_id × Through moment (validates id report_id) events r
  unfolding validate_from_report
  validate-Through moment id report_id events r h =
      let (u, well, h1) = >>=-eq-ok (evo_id report_id "report_id") _ h in
      let (current, now, h2) = >>=-eq-ok (state events id) _ h1 in
      let (in_shadow, h3) = require-eq-ok (current == shadow) _ _ h2 in
      let (a, found, h4) = >>=-eq-ok (artifact events id) _ h3 in
      let (report, named, h5) = >>=-eq-ok (report_named events report_id) _ h4 in
      let (v, latest, h6) = >>=-eq-ok (require_latest_report events id report.0.event_id) _ h5 in
      let (fits, h7) = require-eq-ok (is_of host a id report.1 && report.1.eligible) _ _ h6 in
      let (facts, h8) = require-eq-ok (host.facts_hold events report) _ _ h7 in
      (
        Supports-of_checks events id report_id report (is_of host a id report.1) named latest fits
            facts,
        record {
          change = to_validated host report.0.event_id;
          edge = validate;
          reaches = refl;
          ran = h8;
        },
      )

  -- The reviewer is known, is the one that is named, and has the role of an approver.
  pub record Approver (identity : Option PromotionReviewerIdentity) (reviewer role : String)
      : Type 0 where
    pub who : PromotionReviewerIdentity
    pub is_known : identity ≡ some who
    pub is_named : who.subject ≡ reviewer
    pub has_role : who.role ≡ role
    pub may_approve : elem who.role (approver_roles host) ≡ true

  Approver-of_check :
      (identity : Option PromotionReviewerIdentity) (reviewer role : String)
      (i : PromotionReviewerIdentity)
      → check_reviewer host identity reviewer role ≡ ok i
      → Approver identity reviewer role
  Approver-of_check none reviewer role i h = cc
  Approver-of_check (some j) reviewer role i h =
      let (whole, h1) =
        require-eq-ok
          (not (is_blank j.subject) && not (is_blank j.role) && not (is_blank j.authenticated_by)) _
          _ h in
      let (same, h2) = require-eq-ok (j.subject == reviewer && j.role == role) _ _ h1 in
      let (may, h3) = require-eq-ok (elem j.role (approver_roles host)) _ _ h2 in
      record {
        who = j;
        is_known = refl;
        is_named = (eq_iff j.subject reviewer).0 (ground (arith, same));
        has_role = (eq_iff j.role role).0 (ground (arith, same));
        may_approve = may;
      }

  pub approve-Through :
      (moment : Moment) (identity : Option PromotionReviewerIdentity)
      (id report_id reviewer role reason : String) (events : Log) (r : PromotionResult × Log)
      → approve host moment identity id report_id reviewer role reason events ≡ ok r
      → Approver identity reviewer role
        × Supports events id report_id
        × Through moment (approves identity id report_id reviewer role reason) events r
  unfolding approve
  approve-Through moment identity id report_id reviewer role reason events r h =
      let (i, checked, h1) = >>=-eq-ok (check_reviewer host identity reviewer role) _ h in
      let (current, now, h2) = >>=-eq-ok (state events id) _ h1 in
      let (in_validated, h3) = require-eq-ok (current == validated) _ _ h2 in
      let (a, found, h4) = >>=-eq-ok (artifact events id) _ h3 in
      let (report, named, h5) = >>=-eq-ok (report_named events report_id) _ h4 in
      let (v, latest, h6) = >>=-eq-ok (require_latest_report events id report.0.event_id) _ h5 in
      let (fits, h7) = require-eq-ok (is_of host a id report.1 && report.1.eligible) _ _ h6 in
      let (facts, h8) = require-eq-ok (host.facts_hold events report) _ _ h7 in
      (
        Approver-of_check identity reviewer role i checked,
        Supports-of_checks events id report_id report (is_of host a id report.1) named latest fits
            facts,
        record {
          change = to_promoted host i report.0.event_id reviewer reason;
          edge = promote;
          reaches = refl;
          ran = h8;
        },
      )

  rejection : (s : Lifecycle) → (s == shadow || s == validated) ≡ true → s ⟶ rejected
  rejection shadow h = reject_shadow
  rejection validated h = reject_validated
  rejection candidate h = cc
  rejection promoted h = cc
  rejection deprecated h = cc
  rejection rejected h = cc

  reject-Through :
      (moment : Moment) (id report_id reason : String) (events : Log) (r : PromotionResult × Log)
      → reject_from_report host moment id report_id reason events ≡ ok r
      → Through moment (rejects id report_id reason) events r
  unfolding reject_from_report
  reject-Through moment id report_id reason events r h =
      let (current, now, h1) = >>=-eq-ok (state events id) _ h in
      let (may, h2) = require-eq-ok (current == shadow || current == validated) _ _ h1 in
      let (a, found, h3) = >>=-eq-ok (artifact events id) _ h2 in
      let (report, named, h4) = >>=-eq-ok (report_named events report_id) _ h3 in
      let (v, latest, h5) = >>=-eq-ok (require_latest_report events id report.0.event_id) _ h4 in
      let (fits, h6) = require-eq-ok (is_of host a id report.1 && not report.1.eligible) _ _ h5 in
      record {
        change = to_rejected host current report reason;
        edge = rejection current may;
        reaches = refl;
        ran = h6;
      }

  -- A rollback goes back to the version that `previous_promoted` finds.
  pub record Back (moment : Moment) (call : Call) (events : Log) (r : PromotionResult × Log)
      : Type 0 where
    pub through : Through moment call events r
    pub back : Option ArtifactRecord
    pub previous : previous_promoted events (subject_of call) ≡ ok back
    pub back_to : through.change.rollback_target ≡ target_id host back

  pub rollback-Back :
      (moment : Moment) (id report_id impact_scope reason : String) (events : Log)
      (r : PromotionResult × Log)
      → rollback_on_regression host moment id report_id impact_scope reason events ≡ ok r
      → Back moment (rolls_back id report_id impact_scope reason) events r
  unfolding rollback_on_regression
  rollback-Back moment id report_id impact_scope reason events r h =
      let (scoped, h0) = require-eq-ok (not (is_blank impact_scope)) _ _ h in
      let (current, now, h1) = >>=-eq-ok (state events id) _ h0 in
      let (was_promoted, h2) = require-eq-ok (current == promoted) _ _ h1 in
      let (a, found, h3) = >>=-eq-ok (artifact events id) _ h2 in
      let (report, named, h4) = >>=-eq-ok (report_named events report_id) _ h3 in
      let (v, latest, h5) = >>=-eq-ok (require_latest_report events id report.0.event_id) _ h4 in
      let (fits, h6) = require-eq-ok (is_of host a id report.1 && not report.1.eligible) _ _ h5 in
      let (back, previous, h7) = >>=-eq-ok (previous_promoted events id) _ h6 in
      record {
        through = record {
          change = to_deprecated host back report impact_scope reason;
          edge = roll_back;
          reaches = refl;
          ran = h7;
        };
        back = back;
        previous = previous;
        back_to = refl;
      }

  pub perform-Through :
      (moment : Moment) (call : Call) (events : Log) (r : PromotionResult × Log)
      → perform moment call events ≡ ok r
      → Through moment call events r
  perform-Through moment (starts_shadow id reviewer reason) events r h =
      start-Through moment id reviewer reason events r h
  perform-Through moment (validates id report_id) events r h =
      (validate-Through moment id report_id events r h).1
  perform-Through moment (approves identity id report_id reviewer role reason) events r h =
      (approve-Through moment identity id report_id reviewer role reason events r h).2
  perform-Through moment (rejects id report_id reason) events r h =
      reject-Through moment id report_id reason events r h
  perform-Through moment (rolls_back id report_id impact_scope reason) events r h =
      (rollback-Back moment id report_id impact_scope reason events r h).through
