-- ===== src/Artifacts/Registry.antt =====
-- CandidateArtifactRegistry and the manifest of evolution/candidate_artifacts.py. A call reads the log
-- once, and no other writer comes between its reading and its appending.
pub mod Outcome
pub mod Reviews
pub mod Sources
pub mod Accepted
pub mod Numbered
pub mod Latest
pub mod Versions
mod Examples
use bauhinia_agent.Common.{
  ℕ, ◌+◌, String, Bool, true, false, not, ◌&&◌, Option, none, some, List, [], ◌∷◌, filter, elem,
  is_empty, Result, ok, err, ◌>>=◌, ◌>>◌, require, map_err, ◌==◌, nat_eq, string_eq, if◌then◌else◌,
}
use bauhinia_agent.Common.Dict.{Dict, get, of_list}
use bauhinia_agent.Evo.Graph.{require_evo_id}
use bauhinia_agent.Promotion.{
  Artifact, Experience, experience_created, Review, review_recorded, artifact_created, Payload,
  EvoEvent, Log, ArtifactRecord,
}
use bauhinia_agent.Promotion.Store.{Trouble, StoreError, AppendResult, append, newest_of}
use bauhinia_agent.Promotion.Gate.{created_in}
use bauhinia_agent.Artifacts.{
  no_sources, repeated_sources, unknown_sources, not_accepted, bad_identifier, unknown_superseded,
  not_latest, changes_identity, same_content, Raises, Draft, Texts, Source, repeats, sorted_set,
  source_ids, artifact_payload,
}

-- New identifiers, the time, and what befalls the store during the call.
pub record Moment : Type 0 where
  pub artifact_id : String
  pub event_id : String
  pub now : String
  pub trouble : Trouble
  pub store_error_text : StoreError → String

-- CandidateArtifactResult
pub record ArtifactResult : Type 0 where
  pub persisted : Bool
  pub artifact : Option ArtifactRecord
  pub diagnostic : Option (String × String)

abbrev pub experience_of : Payload → Option Experience
experience_of (experience_created x) = some x
experience_of _ = none

abbrev pub source_of : EvoEvent → Option String → Option Experience → Option Source
source_of e (some id) (some x) =
    some (record { event_id = e.event_id; candidate_id = id; run_id = e.run_id; payload = x })
source_of e _ _ = none

abbrev pub candidates_in : Log → List (String × Source)
candidates_in [] = []
candidates_in (e ∷ es) =
    let rest = candidates_in es in
    elim (source_of e e.candidate_id (experience_of e.payload)) [
      | none ↦ rest
      | some s ↦ (s.candidate_id, s) ∷ rest
    ]

abbrev pub is_known : Dict Source → String → Bool
is_known d id = elim (get id d) [ none ↦ false | some s ↦ true ]

-- `candidates[id] for id in candidate_ids`; those that are missing raised before.
abbrev pub picked : Dict Source → List String → List Source
picked d [] = []
picked d (id ∷ ids) = let rest = picked d ids in elim (get id d) [ none ↦ rest | some s ↦ s ∷ rest ]

-- `_source_candidates`
unfoldable pub source_candidates : Log → List String → Raises (List Source)
unfolding get of_list
source_candidates events ids = do
  require (not (is_empty ids)) no_sources
  require (not (repeats ids)) repeated_sources
  let d = of_list (candidates_in events)
  let missing = filter (λ id. not (is_known d id)) ids
  require (is_empty missing) (unknown_sources missing)
  ok (picked d ids)

abbrev pub review_of : Payload → Option Review
review_of (review_recorded r) = some r
review_of _ = none

abbrev pub reviews_in : Log → List (String × Review)
reviews_in [] = []
reviews_in (e ∷ es) =
    let rest = reviews_in es in
    elim (review_of e.payload) [ none ↦ rest | some r ↦ (r.candidate_id, r) ∷ rest ]

-- Whether the identifier is in `_accepted_candidate_ids`.
unfoldable pub is_accepted : Log → String → Bool
unfolding get of_list
is_accepted events id = elim (get id (of_list (reviews_in events))) [
  | none ↦ false
  | some r ↦ r.decision == "accept"
]

-- `_artifact_events`
abbrev pub artifact_events : Log → Dict ArtifactRecord
artifact_events events = of_list (created_in events)

abbrev pub of_lineage : String → Dict ArtifactRecord → List ArtifactRecord
of_lineage lineage [] = []
of_lineage lineage ((id, r) ∷ d) =
    let rest = of_lineage lineage d in if r.payload.lineage_id == lineage then r ∷ rest else rest

abbrev pub require_latest : Option ArtifactRecord → String → Raises (Unit {0})
require_latest none id = err not_latest
require_latest (some latest) id = require (latest.artifact_id == id) not_latest

-- The version that a draft supersedes, which is the latest of its lineage.
unfoldable pub superseded : Log → Option String → Raises (Option ArtifactRecord)
unfolding get of_list
superseded events none = ok none
superseded events (some id) = do
  map_err bad_identifier (require_evo_id id "supersedes_artifact_id")
  elim (get id (artifact_events events)) [
    | none ↦ err (unknown_superseded id)
    | some previous ↦ do
      require_latest (newest_of (of_lineage previous.payload.lineage_id (artifact_events events)))
          id
      ok (some previous)
  ]

-- `_validate_successor`
unfoldable pub check_successor : Option ArtifactRecord → Artifact → Raises (Unit {0})
check_successor none current = ok tt
check_successor (some previous) current = do
  require
      (current.content.kind == previous.payload.content.kind
        && current.content.name == previous.payload.content.name
        && current.content.scope == previous.payload.content.scope)
      changes_identity
  require (not (current.content_hash == previous.payload.content_hash)) same_content

abbrev pub lineage_for : String → Option ArtifactRecord → String
lineage_for artifact_id none = artifact_id
lineage_for artifact_id (some previous) = previous.payload.lineage_id

abbrev pub version_for : Option ArtifactRecord → ℕ
version_for none = 1
version_for (some previous) = previous.payload.artifact_version + 1

-- `payload.source_run_ids[0]`, of a list that is not empty
abbrev first_run : List String → String
first_run [] = ""
first_run (x ∷ xs) = x

abbrev parent_of : Option ArtifactRecord → List Source → Option String
parent_of (some previous) sources = some previous.event_id
parent_of none [] = none
parent_of none (s ∷ ss) = some s.event_id

abbrev pub creation_event : Moment → Artifact → Option String → EvoEvent
creation_event moment payload parent = record {
  event_id = moment.event_id;
  sequence = none;
  occurred_at = moment.now;
  run_id = first_run payload.source_run_ids;
  candidate_id = none;
  artifact_id = some moment.artifact_id;
  evidence_id = none;
  promotion_id = none;
  parent_event_id = parent;
  payload = artifact_created payload;
}

abbrev pub artifact_record : Moment → Artifact → ArtifactRecord
artifact_record moment payload = record {
  event_id = moment.event_id;
  artifact_id = moment.artifact_id;
  run_id = first_run payload.source_run_ids;
  occurred_at = moment.now;
  payload = payload;
}

abbrev pub recorded :
    Moment → Artifact → Log → Result StoreError (AppendResult × Log) → ArtifactResult × Log
recorded moment payload events (ok (done, after)) = (
  record {
    persisted = true;
    artifact = some (artifact_record moment payload);
    diagnostic = done.diagnostic;
  },
  after,
)
recorded moment payload events (err e) = (
  record {
    persisted = false;
    artifact = none;
    diagnostic = some ("artifact_recording_failed", moment.store_error_text e);
  },
  events,
)

-- `CandidateArtifactRegistry.create`
unfoldable pub create : Texts → Moment → Draft → Log → Raises (ArtifactResult × Log)
unfolding source_candidates is_accepted superseded artifact_payload check_successor append
create texts moment draft events = do
  sources ← source_candidates events draft.source_candidate_ids
  let missing = filter (λ id. not (is_accepted events id)) draft.source_candidate_ids
  require (is_empty missing) (not_accepted (sorted_set missing))
  previous ← superseded events draft.supersedes_artifact_id
  payload ←
      artifact_payload texts draft sources (lineage_for moment.artifact_id previous)
        (version_for previous)
  check_successor previous payload
  map_err bad_identifier (require_evo_id (first_run payload.source_run_ids) "run_id")
  ok (
      recorded moment payload events
        (append moment.trouble (creation_event moment payload (parent_of previous sources)) events))

-- `CandidateArtifactRegistry.manifest`
abbrev pub records : Dict ArtifactRecord → List ArtifactRecord
records [] = []
records ((id, r) ∷ d) = r ∷ records d

unfoldable pub manifest : Log → List ArtifactRecord
manifest events = records (created_in events)

-- `CandidateArtifactManifest.versions`
unfoldable pub versions : List ArtifactRecord → (lineage_id : String) → Raises (List ArtifactRecord)
versions artifacts lineage_id = do
  map_err bad_identifier (require_evo_id lineage_id "lineage_id")
  ok (filter (λ (r : ArtifactRecord). r.payload.lineage_id == lineage_id) artifacts)

abbrev last_of : List ArtifactRecord → Option ArtifactRecord
last_of [] = none
last_of (r ∷ rs) = elim (last_of rs) [ none ↦ some r | some l ↦ some l ]

-- `CandidateArtifactManifest.latest`
unfoldable pub latest : List ArtifactRecord → (lineage_id : String) → Raises (Option ArtifactRecord)
unfolding versions
latest artifacts lineage_id = do rs ← versions artifacts lineage_id; ok (last_of rs)
