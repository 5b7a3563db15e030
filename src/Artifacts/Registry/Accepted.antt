-- ===== src/Artifacts/Registry/Accepted.antt =====
-- What an artifact of evolution/candidate_artifacts.py comes from.
use bauhinia_agent.Artifacts.Registry.{version_for, lineage_for, Moment, ArtifactResult, create}
use bauhinia_agent.Artifacts.{candidate, lifecycle_text, Draft, Texts}
use bauhinia_agent.Artifacts.Registry.Reviews.{AcceptedBy, is_accepted-AcceptedBy}
use bauhinia_agent.Artifacts.Registry.Sources.{
  AreRoles, artifact_payload-Made, source_candidates-ids,
}
use bauhinia_agent.Common.{
  ◌≡◌, ◌∙◌, ◌⊎◌, inl, inr, true, false, [], ◌∷◌, ◌++◌, All, All-map, ok, string_eq,
}
use bauhinia_agent.Promotion.{Artifact, artifact_created, EvoEvent, Log}
use bauhinia_agent.Artifacts.Registry.Outcome.{create-Created}

-- A call of `create` that returns leaves the log as it was and says so, or appends one artifact in the
-- state Candidate. Its sources are those of the draft, each with a latest review that accepts it, and
-- each either a support or a counterexample.
pub created_from_accepted :
    (texts : Texts) (moment : Moment) (draft : Draft) (events after : Log) (result : ArtifactResult)
    → create texts moment draft events ≡ ok (result, after)
    → ((result.persisted ≡ false) × (after ≡ events))
      ⊎ ((result.persisted ≡ true)
          × (e : EvoEvent) × (a : Artifact) × (after ≡ events ++ e ∷ [])
          × (e.payload ≡ artifact_created a)
          × (a.lifecycle_state ≡ lifecycle_text candidate)
          × (a.source_candidate_ids ≡ draft.source_candidate_ids)
          × All (AcceptedBy events) draft.source_candidate_ids
          × AreRoles a.source_candidate_ids a.support_candidate_ids a.counterexample_candidate_ids)
created_from_accepted texts moment draft events after result h =
    let c = create-Created texts moment draft events (result, after) h in
    let made =
      artifact_payload-Made texts draft c.sources (lineage_for moment.artifact_id c.previous)
        (version_for c.previous) c.payload c.is_payload in
    elim (c.effect) [
      | inl failed ↦ inl failed
      | inr (kept, w) ↦ inr (
        kept,
        w.event,
        c.payload,
        w.is_last,
        w.creates,
        made.begins,
        made.ids ∙ source_candidates-ids events draft.source_candidate_ids c.sources c.are_sources,
        All-map _ _ draft.source_candidate_ids (is_accepted-AcceptedBy events) c.are_accepted,
        made.roles,
      )
    ]
