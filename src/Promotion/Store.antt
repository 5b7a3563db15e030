-- ===== src/Promotion/Store.antt =====
-- EvoEventStore.append of evolution/store.py, on the events that a sound source holds, and the look-ups
-- of evolution/promotion.py.
use Prim.Native.String.{◌++◌ as append_text}
use bauhinia_agent.Common.{
  ℕ, ◌+◌, String, Bool, true, false, not, ◌&&◌, Option, none, some, List, [], ◌∷◌, ◌++◌, map, elem,
  length, Result, ok, err, ◌>>=◌, ◌>>◌, require, ltb, ◌==◌, nat_eq, string_eq, if◌then◌else◌,
}
use bauhinia_agent.Common.Dict.{of_list}
use bauhinia_agent.Promotion.{
  candidate, promoted, lifecycle_eq, Comparison, Payload, comparison_completed, EvoEvent, Log,
  ArtifactRecord, Raises, unknown_report, report_not_latest, names, created, record_of, artifact,
  replay_states,
}

-- What may go wrong outside the program: the write of the source raises, or, after it, the update of
-- the projection.
pub data Trouble : Type 0 where
  no_trouble : Trouble
  write_fails : String → Trouble
  projection_fails : String → Trouble

pub data StoreError : Type 0 where
  duplicate_event : String → StoreError
  wrong_sequence : (next found : ℕ) → StoreError
  write_failed : String → StoreError

pub record AppendResult : Type 0 where
  pub event : EvoEvent
  pub projection_applied : Bool
  pub diagnostic : Option (String × String)

abbrev sequence_fits : ℕ → Option ℕ → Result StoreError (Unit {0})
sequence_fits next none = ok tt
sequence_fits next (some n) = require (n == next) (wrong_sequence next n)

abbrev pub appended : Trouble → EvoEvent → Log → Result StoreError (AppendResult × Log)
appended no_trouble e events =
    ok (record { event = e; projection_applied = true; diagnostic = none }, events ++ e ∷ [])
appended (write_fails m) e events = err (write_failed m)
appended (projection_fails m) e events = ok (
  record {
    event = e;
    projection_applied = false;
    diagnostic = some (
      "projection_update_failed",
      append_text "raw Evo event "
          (append_text e.event_id (append_text " was persisted but projection update failed: " m)),
    );
  },
  events ++ e ∷ [],
)

-- `EvoEventStore.append`
unfoldable pub append : Trouble → EvoEvent → Log → Result StoreError (AppendResult × Log)
append trouble e events = do
  require (not (elem e.event_id (map (λ (x : EvoEvent). x.event_id) events)))
      (duplicate_event e.event_id)
  sequence_fits (length events + 1) e.sequence
  appended trouble (record e { sequence = some (length events + 1) }) events

abbrev pub comparison_of : Payload → Option Comparison
comparison_of (comparison_completed c) = some c
comparison_of _ = none

-- A report is the event of a comparison, with the comparison.
abbrev pub Report : Type 0
Report = EvoEvent × Comparison

unfoldable pub find_report : (Comparison → Bool) → Log → Option Report
find_report p [] = none
find_report p (e ∷ es) =
    let rest = find_report p es in
    elim (comparison_of e.payload) [ none ↦ rest | some c ↦ if p c then some (e, c) else rest ]

-- `_report`
unfoldable pub report_named : Log → String → Raises Report
unfolding find_report
report_named events id = elim (find_report (λ c. c.report_id == id) events) [
  | none ↦ err (unknown_report id)
  | some r ↦ ok r
]

unfoldable pub reversed : Log → Log
reversed [] = []
reversed (e ∷ es) = reversed es ++ e ∷ []

-- `_latest_artifact_event`
unfoldable pub last_event : String → Log → Option String
last_event id [] = none
last_event id (e ∷ es) =
    let rest = last_event id es in if names e.artifact_id id then some e.event_id else rest

unfoldable pub latest_artifact_event : Log → String → Option String
unfolding reversed last_event
latest_artifact_event events id = last_event id (reversed events)

-- `_require_latest_report`
unfoldable pub require_latest_report : Log → String → (event_id : String) → Raises (Unit {0})
unfolding reversed find_report
require_latest_report events id event_id =
    elim (find_report (λ c. c.artifact_id == id) (reversed events)) [
      | none ↦ err report_not_latest
      | some (e, c) ↦ require (e.event_id == event_id) report_not_latest
    ]

-- The earlier versions of the artifact's lineage, by identifier: the later event replaces the earlier.
unfoldable pub lineage_before : ArtifactRecord → Log → List (String × ArtifactRecord)
lineage_before current [] = []
lineage_before current (e ∷ es) =
    let rest = lineage_before current es in
    elim (record_of e e.artifact_id (created e.payload)) [
      | none ↦ rest
      | some r ↦
          if r.payload.lineage_id == current.payload.lineage_id
            && ltb r.payload.artifact_version current.payload.artifact_version
          then (r.artifact_id, r) ∷ rest
          else rest
    ]

-- Those whose state is Promoted.
unfoldable pub promoted_among : Log → List (String × ArtifactRecord) → Raises (List ArtifactRecord)
unfolding replay_states
promoted_among events [] = ok []
promoted_among events ((id, r) ∷ rs) = do
  s ← replay_states id events candidate
  rest ← promoted_among events rs
  ok (if s == promoted then r ∷ rest else rest)

-- `max(..., key=artifact_version)`: the first of the greatest.
abbrev pub newest : ArtifactRecord → List ArtifactRecord → ArtifactRecord
newest best [] = best
newest best (r ∷ rs) =
    newest (if ltb best.payload.artifact_version r.payload.artifact_version then r else best) rs

abbrev pub newest_of : List ArtifactRecord → Option ArtifactRecord
newest_of [] = none
newest_of (r ∷ rs) = some (newest r rs)

-- `_previous_promoted`
unfoldable pub previous_promoted : Log → String → Raises (Option ArtifactRecord)
unfolding artifact lineage_before promoted_among of_list
previous_promoted events id = do
  current ← artifact events id
  rs ← promoted_among events (of_list (lineage_before current events))
  ok (newest_of rs)
