-- ===== src/Promotion/Trials.antt =====
-- resolve_evidence_records of evolution/evidence.py, and _is_valid_shadow_trial of
-- evolution/promotion.py.
use bauhinia_agent.Common.{
  ℕ, String, Bool, true, false, not, ◌&&◌, ◌||◌, Option, none, some, List, [], ◌∷◌, all, elem,
  Result, ok, err, ◌>>=◌, ◌>>◌, require, map_err, ltb, leb, ◌==◌, nat_eq, string_eq, if◌then◌else◌,
  is_empty, each,
}
use bauhinia_agent.Evo.Graph.{EvoError, require_evo_id}
use bauhinia_agent.Promotion.{
  Evidence, ShadowTrial, Payload, evidence_recorded, shadow_trial_recorded, EvoEvent, Log, names,
}

pub data EvidenceError : Type 0 where
  no_reference repeated_reference bad_sequence : EvidenceError
  bad_reference : EvoError → EvidenceError
  missing_evidence ambiguous not_before other_run not_verified not_deterministic no_exit_code :
      (ref : String) → EvidenceError

pub record EvidenceRecord : Type 0 where
  pub event_id : String
  pub evidence_id : String
  pub run_id : String
  pub occurred_at : String
  pub payload : Evidence

-- The keyword arguments of `resolve_evidence_records`.
pub record Wanted : Type 0 where
  pub run_id : Option String
  pub require_verified : Bool
  pub deterministic_only : Bool
  pub require_exit_code : Bool
  pub before_sequence : Option ℕ

abbrev repeats : List String → Bool
repeats [] = false
repeats (x ∷ xs) = elem x xs || repeats xs

abbrev evidence_of : Payload → Option Evidence
evidence_of (evidence_recorded p) = some p
evidence_of _ = none

abbrev with_record :
    String
    → EvoEvent
    → Option Evidence
    → List (EvoEvent × EvidenceRecord)
    → List (EvoEvent × EvidenceRecord)
with_record ref e none rest = rest
with_record ref e (some p) rest =
    (
      e,
      record {
        event_id = e.event_id;
        evidence_id = ref;
        run_id = e.run_id;
        occurred_at = e.occurred_at;
        payload = p;
      },
    )
    ∷ rest

-- `matches[ref]`
unfoldable pub matches : String → Log → List (EvoEvent × EvidenceRecord)
matches ref [] = []
matches ref (e ∷ es) =
    let rest = matches ref es in
    if names e.evidence_id ref then with_record ref e (evidence_of e.payload) rest else rest

abbrev is_before : Option ℕ → Option ℕ → Bool
is_before none s = true
is_before (some b) none = false
is_before (some b) (some s) = ltb s b

abbrev in_run : Option String → String → Bool
in_run none r = true
in_run (some wanted) r = r == wanted

abbrev has_value : Option ℕ → Bool
has_value none = false
has_value (some n) = true

abbrev pub deterministic_types : List String
deterministic_types = "test" ∷ "lint" ∷ "type_check" ∷ "build" ∷ "diff" ∷ []

abbrev check_evidence :
    Wanted → String → EvoEvent → EvidenceRecord → Result EvidenceError EvidenceRecord
check_evidence w ref e r = do
  require (is_before w.before_sequence e.sequence) (not_before ref)
  require (in_run w.run_id e.run_id) (other_run ref)
  require (not w.require_verified || r.payload.verified) (not_verified ref)
  require (not w.deterministic_only || elem r.payload.evidence_type deterministic_types)
      (not_deterministic ref)
  require (not w.require_exit_code || has_value r.payload.exit_code) (no_exit_code ref)
  ok r

abbrev only :
    Wanted → String → List (EvoEvent × EvidenceRecord) → Result EvidenceError EvidenceRecord
only w ref [] = err (missing_evidence ref)
only w ref ((e, r) ∷ []) = check_evidence w ref e r
only w ref (x ∷ y ∷ more) = err (ambiguous ref)

unfoldable pub resolve_each :
    Wanted → Log → List String → Result EvidenceError (List EvidenceRecord)
unfolding matches
resolve_each w events [] = ok []
resolve_each w events (ref ∷ refs) = do
  r ← only w ref (matches ref events)
  rs ← resolve_each w events refs
  ok (r ∷ rs)

abbrev check_run : Option String → Result EvidenceError (Unit {0})
check_run none = ok tt
check_run (some r) = map_err bad_reference (require_evo_id r "run_id")

abbrev is_positive : Option ℕ → Bool
is_positive none = true
is_positive (some n) = leb 1 n

unfoldable pub resolve_evidence_records :
    Log → List String → Wanted → Result EvidenceError (List EvidenceRecord)
unfolding resolve_each
resolve_evidence_records events refs w = do
  require (not (is_empty refs)) no_reference
  require (not (repeats refs)) repeated_reference
  each (λ ref. map_err bad_reference (require_evo_id ref "evidence_refs[]")) refs
  check_run w.run_id
  require (is_positive w.before_sequence) bad_sequence
  resolve_each w events refs

abbrev exited_with_zero : EvidenceRecord → Bool
exited_with_zero r = elim r.payload.exit_code [ none ↦ false | some n ↦ n == 0 ]

abbrev trial_of : Payload → Option ShadowTrial
trial_of (shadow_trial_recorded t) = some t
trial_of _ = none

abbrev agrees : Bool → Result EvidenceError (List EvidenceRecord) → Bool
agrees passed (err e) = false
agrees passed (ok rs) = if all exited_with_zero rs then passed else not passed

-- `_is_valid_shadow_trial`
unfoldable pub is_valid_shadow_trial : EvoEvent → Log → String → Bool
unfolding resolve_evidence_records
is_valid_shadow_trial e events id = elim (trial_of e.payload) [
  | none ↦ false
  | some t ↦
      t.artifact_id == id
      && agrees t.passed (
          resolve_evidence_records events t.evidence_refs (record {
            run_id = some e.run_id;
            require_verified = true;
            deterministic_only = true;
            require_exit_code = true;
            before_sequence = e.sequence;
          }))
]
