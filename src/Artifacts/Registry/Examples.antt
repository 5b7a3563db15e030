-- ===== src/Artifacts/Registry/Examples.antt =====
-- The registry of evolution/candidate_artifacts.py on a small log.
use bauhinia_agent.Common.{
  ◌≡◌, ◌⊎◌, refl, String, true, false, none, some, List, [], ◌∷◌, ◌++◌, length, All, ok, err,
  nat_eq, string_eq, strip, is_blank, each,
}
use bauhinia_agent.Common.Dict.{get, put, of_list, insert_all}
use bauhinia_agent.Common.Int.{pos}
use bauhinia_agent.Evo.Graph.{require_evo_id}
use bauhinia_agent.Promotion.{
  Artifact, artifact_created, experience_created, review_recorded, Payload, EvoEvent, Log,
  ArtifactRecord, lifecycle_text, candidate,
}
use bauhinia_agent.Promotion.Store.{no_trouble, append}
use bauhinia_agent.Artifacts.{
  Draft, Texts, memory_rule, not_accepted, safe_name, redacted, redacted_items, content_of,
  confidence_of, check_roles, artifact_payload, Raises,
}
use bauhinia_agent.Artifacts.Registry.{
  Moment, ArtifactResult, source_candidates, is_accepted, superseded, check_successor, create,
  manifest, versions,
}
use bauhinia_agent.Artifacts.Registry.Reviews.{AcceptedBy}
use bauhinia_agent.Artifacts.Registry.Sources.{AreRoles}
use bauhinia_agent.Artifacts.Registry.Accepted.{created_from_accepted}
use bauhinia_agent.Artifacts.Registry.Numbered.{counting, versions_of}
use bauhinia_agent.Artifacts.Registry.Versions.{Reachable, empty, other, called, versions_count}

abbrev plain_texts : Texts
plain_texts = record { redact = λ s. s; lower = λ s. s; content_hash = λ c. c.instructions }

abbrev moment : (artifact_id event_id : String) → Moment
moment artifact_id event_id = record {
  artifact_id = artifact_id;
  event_id = event_id;
  now = "2026-01-01T00:00:00Z";
  trouble = no_trouble;
  store_error_text = λ e. "store";
}

abbrev event : (id : String) → (candidate_id : String) → Payload → EvoEvent
event id candidate_id payload = record {
  event_id = id;
  sequence = none;
  occurred_at = "2026-01-01T00:00:00Z";
  run_id = "run1";
  candidate_id = some candidate_id;
  artifact_id = none;
  evidence_id = none;
  promotion_id = none;
  parent_event_id = none;
  payload = payload;
}

abbrev seen : EvoEvent
seen =
    event "e1" "c1" (
      experience_created (record { source_run_ids = []; evidence_refs = []; counterexamples = [] }))

abbrev reviewed : String → EvoEvent
reviewed decision =
    event "e2" "c1" (review_recorded (record { candidate_id = "c1"; decision = decision }))

abbrev rule : (instructions : String) → Draft
rule instructions = record {
  kind = memory_rule;
  name = "look-first";
  description = "A rule.";
  instructions = instructions;
  inputs = "question" ∷ [];
  outputs = "answer" ∷ [];
  dependencies = [];
  effects = "none" ∷ [];
  scope = "project";
  applicability = "always";
  risks = "few" ∷ [];
  source_candidate_ids = "c1" ∷ [];
  confidence = record { numerator = pos 1; denominator = 2 };
  triggers = [];
  support_candidate_ids = [];
  counterexample_candidate_ids = [];
  supersedes_artifact_id = none;
}

abbrev accepted : Log
accepted = seen ∷ reviewed "accept" ∷ []

unreviewed_is_refused :
    create plain_texts (moment "a1" "e3") (rule "Look.") (seen ∷ reviewed "reject" ∷ [])
    ≡ err (not_accepted ("c1" ∷ []))
unfolding create source_candidates is_accepted get put of_list insert_all
unreviewed_is_refused = refl

creates_a1 :
    (r : ArtifactResult) × (after : Log) × (create plain_texts
        (moment "a1" "e3")
        (rule "Look.")
        accepted
      ≡ ok (r, after))
unfolding create source_candidates is_accepted get put of_list insert_all superseded
    artifact_payload content_of safe_name redacted redacted_items confidence_of check_roles
    check_successor append require_evo_id strip is_blank each
creates_a1 = (_, _, refl)

-- A second version of the artifact.
creates_a2 :
    (r : ArtifactResult) × (after : Log) × (create plain_texts
        (moment "a2" "e4")
        (record (rule "Look twice.") { supersedes_artifact_id = some "a1" })
        creates_a1.1
      ≡ ok (r, after))
    × (versions_of (manifest after) ≡ 1 ∷ 2 ∷ [])
unfolding creates_a1 create source_candidates is_accepted get put of_list insert_all superseded
    artifact_payload content_of safe_name redacted redacted_items confidence_of check_roles
    check_successor append require_evo_id strip is_blank each manifest
creates_a2 = (_, _, refl, refl)

created_from_accepted_example :
    let (r, after, _) = creates_a1 in
    ((r.persisted ≡ false) × (after ≡ accepted))
    ⊎ ((r.persisted ≡ true)
        × (e : EvoEvent) × (a : Artifact) × (after ≡ accepted ++ e ∷ [])
        × (e.payload ≡ artifact_created a)
        × (a.lifecycle_state ≡ lifecycle_text candidate)
        × (a.source_candidate_ids ≡ "c1" ∷ [])
        × All (AcceptedBy accepted) ("c1" ∷ [])
        × AreRoles a.source_candidate_ids a.support_candidate_ids a.counterexample_candidate_ids)
created_from_accepted_example =
    created_from_accepted plain_texts (moment "a1" "e3") (rule "Look.") accepted creates_a1.1
      creates_a1.0 creates_a1.2

two_versions : Reachable plain_texts creates_a2.1
unfolding creates_a1
two_versions =
    called (moment "a2" "e4") (record (rule "Look twice.") { supersedes_artifact_id = some "a1" })
      creates_a1.1 creates_a2.1 creates_a2.0 refl creates_a2.2
      (called (moment "a1" "e3") (rule "Look.") accepted creates_a1.1 creates_a1.0 refl creates_a1.2
        (other (seen ∷ []) (reviewed "accept") refl (other [] seen refl empty)))

abbrev read_versions : Raises (List ArtifactRecord)
read_versions = versions (manifest creates_a2.1) "a1"

the_versions : (rs : List ArtifactRecord) × (read_versions ≡ ok rs) × (length rs ≡ 2)
unfolding creates_a1 creates_a2 versions manifest require_evo_id strip
the_versions = (_, refl, refl)

versions_count_example : versions_of the_versions.0 ≡ counting (length the_versions.0)
versions_count_example =
    versions_count plain_texts creates_a2.1 "a1" the_versions.0 two_versions the_versions.1
