-- ===== src/Promotion/Examples.antt =====
-- The lifecycle of evolution/promotion.py on small logs.
use bauhinia_agent.Common.{
  ◌≤◌, ◌≡◌, ◌⊎◌, refl, inr, String, true, false, Option, none, some, [], ◌∷◌, ◌++◌, nat_eq,
  string_eq, Result, ok, strip, is_blank, each,
}
use bauhinia_agent.Common.Dict.{get, put, of_list, insert_all}
use bauhinia_agent.Evo.Graph.{require_evo_id}
use bauhinia_agent.Promotion.{
  Lifecycle, validated, promoted, PromotionChanged, artifact_created, comparison_completed,
  promotion_changed, EvoEvent, Log, ArtifactRecord, artifact, find_artifact, state, replay_states,
  lifecycle_of_text,
}
use bauhinia_agent.Promotion.Trials.{is_valid_shadow_trial, resolve_evidence_records}
use bauhinia_agent.Promotion.Store.{
  append, find_report, report_named, reversed, latest_artifact_event, require_latest_report,
  previous_promoted,
}
use bauhinia_agent.Promotion.Service.{
  PromotionResult, transition, start_shadow, validate_from_report, approve, target_id,
  rollback_on_regression,
}
use bauhinia_agent.Promotion.Calls.{Call, starts_shadow, approves, subject_of, ◌⟶◌, perform}
use bauhinia_agent.Promotion.History.{call-effect}
use bauhinia_agent.Promotion.Approval.{Approved, promotion_needs_approval}
use bauhinia_agent.Promotion.Walks.{Walk, changes, Reachable, empty, other, called, lifecycle-Walk}
use bauhinia_agent.Promotion.Gate.{
  Compared, GateResult, evaluate_and_validate, active_promoted, selected,
}
use bauhinia_agent.Promotion.Rollback.{IsNewestOf, rollback_to_newest}
use bauhinia_agent.Promotion.Unattended.{gate_never_promotes}
use bauhinia_agent.Promotion.Samples.{
  toy, moment, plain, event, creation, proof, trial, tried, comparison, report, entered, ann, a1,
  change_of, versions, names_of,
}

is_valid_trial : is_valid_shadow_trial trial tried "a1" ≡ true
unfolding is_valid_shadow_trial resolve_evidence_records require_evo_id strip each
is_valid_trial = refl

enters_shadow :
    (r : PromotionResult) × (start_shadow toy (moment "e4") "a1" "ann" "good trial" tried
      ≡ ok (r, tried ++ entered ∷ []))
unfolding start_shadow artifact find_artifact state replay_states lifecycle_of_text require_evo_id
    strip each is_valid_shadow_trial resolve_evidence_records transition append
    latest_artifact_event is_blank insert_all put
enters_shadow = (_, refl)

call-effect_example :
    let call = starts_shadow "a1" "ann" "good trial" in
    let after = tried ++ entered ∷ [] in
    (from : Lifecycle) × (to : Lifecycle) × (from ⟶ to)
    × (state tried (subject_of call) ≡ ok from)
    × (state after "a2" ≡ state tried "a2")
    × (((enters_shadow.0.persisted ≡ false) × (after ≡ tried))
        ⊎ ((enters_shadow.0.persisted ≡ true) × (state after (subject_of call) ≡ ok to)))
call-effect_example =
    call-effect toy (moment "e4") (starts_shadow "a1" "ann" "good trial") "a2" tried
      (tried ++ entered ∷ []) enters_shadow.0 enters_shadow.1 refl

shadow_log : Reachable toy (tried ++ entered ∷ [])
shadow_log =
    called (moment "e4") (starts_shadow "a1" "ann" "good trial") tried (tried ++ entered ∷ [])
      enters_shadow.0 enters_shadow.1
      (other (creation ∷ proof ∷ []) trial refl
        (other (creation ∷ []) proof refl (other [] creation refl empty)))

lifecycle-Walk_example :
    let log = tried ++ entered ∷ [] in
    (s : Lifecycle) × (state log "a1" ≡ ok s) × Walk (changes "a1" log) s × (changes "a1" log ≤ 4)
unfolding artifact find_artifact require_evo_id strip
lifecycle-Walk_example = lifecycle-Walk toy (tried ++ entered ∷ []) "a1" a1 shadow_log refl

abbrev validated_log : Log
validated_log = creation ∷ report ∷ change_of "e6" "a1" "Shadow" "Validated" none ∷ []

abbrev approval : Call
approval = approves (some ann) "a1" "r1" "ann" "owner" "looks good"

approves_a1 :
    (r : PromotionResult) × (after : Log) × (perform toy (moment "e7") approval validated_log
      ≡ ok (r, after))
    × (state after "a1" ≡ ok promoted)
unfolding approve artifact find_artifact state replay_states lifecycle_of_text require_evo_id strip
    is_blank report_named find_report require_latest_report reversed transition append
    latest_artifact_event insert_all put
approves_a1 = (_, _, refl, refl)

promotion_needs_approval_example :
    (state validated_log "a1" ≡ ok promoted)
    ⊎ ((subject_of approval ≡ "a1") × Approved toy approval validated_log)
promotion_needs_approval_example =
    promotion_needs_approval toy (moment "e7") approval "a1" validated_log approves_a1.1
      approves_a1.0 approves_a1.2 approves_a1.3

-- Another artifact, promoted before.
abbrev second : EvoEvent
second = event "f1" none (some "a2") none (artifact_created (plain "a2" 1))

abbrev gate_log : Log
gate_log =
    second
    ∷ change_of "f2" "a2" "Validated" "Promoted" none
    ∷ creation
    ∷ change_of "f3" "a1" "Candidate" "Shadow" none
    ∷ []

abbrev comparing : Log → Result String Compared
comparing log =
    ok (record { report = some (report, comparison); diagnostic = none; log = log ++ report ∷ [] })

gate_validates :
    (r : GateResult) × (after : Log) × (evaluate_and_validate toy
        (λ s. s)
        comparing
        (moment "f4")
        "a1"
        gate_log
      ≡ ok (r, after))
    × (r.is_validated ≡ true)
    × (state after "a1" ≡ ok validated)
    × (state after "a2" ≡ ok promoted)
unfolding evaluate_and_validate validate_from_report artifact find_artifact state replay_states
    lifecycle_of_text require_evo_id strip is_blank report_named find_report require_latest_report
    reversed transition append latest_artifact_event insert_all put
gate_validates = (_, _, refl, refl, refl, refl)

gate_never_promotes_example : state gate_log "a2" ≡ ok promoted
gate_never_promotes_example =
    gate_never_promotes toy (λ s. s) comparing (moment "f4") "a1" "a2" gate_log gate_validates.1
      gate_validates.0
      (record {
        report = some (report, comparison);
        diagnostic = none;
        log = gate_log ++ report ∷ [];
      })
      refl (inr (report, comparison, refl, refl)) gate_validates.2 gate_validates.5

newest_is_active : names_of (active_promoted versions) ≡ "a3" ∷ []
unfolding active_promoted selected get put of_list
newest_is_active = refl

old_version_rolls_back :
    (previous_promoted versions "a2"
      ≡ ok (
          some (record {
            event_id = "g1";
            artifact_id = "a1";
            run_id = "run1";
            occurred_at = "2026-01-01T00:00:00Z";
            payload = plain "a1" 1;
          })))
    × (names_of (
          active_promoted
            (versions ++ change_of "g7" "a2" "Promoted" "Deprecated" (some "a1") ∷ []))
        ≡ "a1" ∷ [])
unfolding active_promoted selected get put of_list previous_promoted artifact find_artifact
    replay_states lifecycle_of_text require_evo_id strip
old_version_rolls_back = (refl, refl)

abbrev regression : EvoEvent
regression = event "g8" none none none (
    comparison_completed (record comparison {
      report_id = "r2";
      artifact_id = "a2";
      artifact_version = 2;
      eligible = false;
    }))

abbrev regressed : Log
regressed = versions ++ regression ∷ []

rolls_a2_back :
    (r : PromotionResult) × (after : Log) × (rollback_on_regression toy
        (moment "g9")
        "a2"
        "r2"
        "one project"
        "slower"
        regressed
      ≡ ok (r, after))
unfolding rollback_on_regression artifact find_artifact state replay_states lifecycle_of_text
    require_evo_id strip is_blank report_named find_report require_latest_report reversed transition
    append latest_artifact_event insert_all put previous_promoted
rolls_a2_back = (_, _, refl)

rollback_to_newest_example :
    let (r, after, _) = rolls_a2_back in
    (current : ArtifactRecord) × (artifact regressed "a2" ≡ ok current)
    × (back : Option ArtifactRecord) × IsNewestOf regressed current back
    × (((r.persisted ≡ false) × (after ≡ regressed))
        ⊎ ((r.persisted ≡ true)
            × (e : EvoEvent) × (c : PromotionChanged) × (after ≡ regressed ++ e ∷ [])
            × (e.payload ≡ promotion_changed c)
            × (c.rollback_target ≡ target_id toy back)))
rollback_to_newest_example =
    rollback_to_newest toy (moment "g9") "a2" "r2" "one project" "slower" regressed rolls_a2_back.1
      rolls_a2_back.0 (refl, (refl, (refl, tt))) rolls_a2_back.2
