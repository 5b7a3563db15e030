-- ===== src/Promotion/Gate.antt =====
-- PromotionGate and active_promoted of evolution/promotion.py. What the comparison returns and makes of
-- the log is an argument, of the module that compares; so is the lower case of a text.
use bauhinia_agent.Common.{
  String, Bool, true, false, not, ◌||◌, Option, none, some, List, [], ◌∷◌, any, Result, ok, ◌>>=◌,
  ◌>>◌, require, map_err, ◌==◌, nat_eq, string_eq, if◌then◌else◌,
}
use bauhinia_agent.Permissions.Commands.{contains}
use bauhinia_agent.Promotion.{
  shadow, lifecycle_eq, Comparison, Payload, promotion_changed, Log, ArtifactRecord, PromotionError,
  Raises, state,
}
use bauhinia_agent.Promotion.Store.{Report}
use bauhinia_agent.Promotion.Service.{Host, Moment, validate_from_report, reject_from_report}
use bauhinia_agent.Promotion.{PromotionChanged, record_of, created}
use Prim.Native.Nat.{Ordering}
use Prim.Native.String.{compare}
use bauhinia_agent.Common.{is_empty, ltb}
use bauhinia_agent.Common.Dict.{Dict, get, put, of_list}
use bauhinia_agent.Promotion.{not_in_shadow}
use bauhinia_agent.Promotion.Service.{PromotionRecord}

-- `_requires_rejection`
unfoldable pub requires_rejection : (lower : String → String) → Comparison → Bool
unfolding contains
requires_rejection lower c =
    not (is_empty c.integrity_violations)
    || ltb 0 c.candidate_risk_event_count
    || ltb c.candidate_success_rate c.baseline_success_rate
    || ltb c.candidate_verification_quality c.baseline_verification_quality
    || any
        (λ reason.
          contains "cost exceeds" (lower reason) || contains "latency exceeds" (lower reason))
        c.blocking_reasons

pub data GateError : Type 0 where
  lifecycle_raises : PromotionError → GateError
  comparison_raises : String → GateError

-- What `EvaluationComparisonService.compare` returns, with the log after it.
pub record Compared : Type 0 where
  pub report : Option Report
  pub diagnostic : Option (String × String)
  pub log : Log

pub record GateResult : Type 0 where
  pub is_validated : Bool
  pub report : Option Report
  pub change : Option PromotionRecord
  pub diagnostic : Option (String × String)

abbrev or_diagnostic : Option (String × String) → Option (String × String)
or_diagnostic none = some ("comparison_failed", "comparison failed without a diagnostic")
or_diagnostic (some d) = some d

module _ (host : Host) (lower : String → String) where
  abbrev pub settle : Moment → String → Compared → Option Report → Raises (GateResult × Log)
  settle moment id c none = ok (
    record {
      is_validated = false;
      report = none;
      change = none;
      diagnostic = or_diagnostic c.diagnostic;
    },
    c.log,
  )
  settle moment id c (some report) = elim report.1.eligible [
    | true ↦ do
      (done, after) ← validate_from_report host moment id report.1.report_id c.log
      ok (
        record {
          is_validated = done.persisted;
          report = some report;
          change = done.promotion;
          diagnostic = done.diagnostic;
        },
        after,
      )
    | false ↦ elim (requires_rejection lower report.1) [
      | true ↦ do
        (done, after) ←
            reject_from_report host moment id report.1.report_id
              "Candidate showed a material held-out regression or reward-integrity violation." c.log
        ok (
          record {
            is_validated = false;
            report = some report;
            change = done.promotion;
            diagnostic = done.diagnostic;
          },
          after,
        )
      | false ↦ ok (
        record { is_validated = false; report = some report; change = none; diagnostic = none },
        c.log,
      )
    ]
  ]

  -- `PromotionGate.evaluate_and_validate`
  unfoldable pub evaluate_and_validate :
      (comparing : Log → Result String Compared)
      → Moment
      → String
      → Log
      → Result GateError (GateResult × Log)
  unfolding state validate_from_report reject_from_report requires_rejection
  evaluate_and_validate comparing moment id events = do
    current ← map_err lifecycle_raises (state events id)
    require (current == shadow) (lifecycle_raises not_in_shadow)
    c ← map_err comparison_raises (comparing events)
    map_err lifecycle_raises (settle moment id c c.report)

-- The artifacts of the log, by identifier.
abbrev pub created_in : Log → List (String × ArtifactRecord)
created_in [] = []
created_in (e ∷ es) =
    let rest = created_in es in
    elim (record_of e e.artifact_id (created e.payload)) [
      | none ↦ rest
      | some r ↦ (r.artifact_id, r) ∷ rest
    ]

abbrev change_of : Payload → Option PromotionChanged
change_of (promotion_changed p) = some p
change_of _ = none

abbrev dropped : String → Dict String → Dict String
dropped k [] = []
dropped k ((j, v) ∷ d) = let rest = dropped k d in if j == k then rest else (j, v) ∷ rest

abbrev is_selected : Option String → String → Bool
is_selected none id = false
is_selected (some x) id = x == id

abbrev select : ArtifactRecord → PromotionChanged → Dict String → Dict String
select a p d =
    let lineage = a.payload.lineage_id in
    if p.to_state == "Promoted"
    then put lineage a.artifact_id d
    else if p.to_state == "Deprecated"
    then elim p.rollback_target [
      | some back ↦ put lineage back d
      | none ↦ if is_selected (get lineage d) a.artifact_id then dropped lineage d else d
    ]
    else d

abbrev known : Dict ArtifactRecord → Option String → Option ArtifactRecord
known artifacts none = none
known artifacts (some id) = get id artifacts

unfoldable pub selected : Dict ArtifactRecord → Log → Dict String → Dict String
unfolding get put
selected artifacts [] d = d
selected artifacts (e ∷ es) d = selected artifacts es (elim (change_of e.payload) [
  | none ↦ d
  | some p ↦ elim (known artifacts e.artifact_id) [ none ↦ d | some a ↦ select a p d ]
])

abbrev is_above : String → String → Bool
is_above a b = elim (compare a b) [ Ordering.gt ↦ true | _ ↦ false ]

abbrev insert_item : String × String → Dict String → Dict String
insert_item x [] = x ∷ []
insert_item x (y ∷ ys) =
    let rest = insert_item x ys in if is_above x.0 y.0 then y ∷ rest else x ∷ y ∷ ys

abbrev sort_items : Dict String → Dict String
sort_items [] = []
sort_items (x ∷ xs) = insert_item x (sort_items xs)

-- `artifacts[artifact_id]` for each; `none` for a KeyError.
abbrev look_up_all : Dict ArtifactRecord → Dict String → Option (List ArtifactRecord)
look_up_all artifacts [] = some []
look_up_all artifacts ((k, id) ∷ d) = elim (get id artifacts) [
  | none ↦ none
  | some a ↦ elim (look_up_all artifacts d) [ none ↦ none | some rest ↦ some (a ∷ rest) ]
]

unfoldable pub active_promoted : Log → Option (List ArtifactRecord)
unfolding selected get of_list
active_promoted events =
    let artifacts = of_list (created_in events) in
    look_up_all artifacts (sort_items (selected artifacts events []))
