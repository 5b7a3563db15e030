-- ===== src/Artifacts/Registry/Outcome.antt =====
-- What CandidateArtifactRegistry.create of evolution/candidate_artifacts.py went through, if it returns.
use bauhinia_agent.Common.{
  ◌≡◌, refl, sym, ap, ◌∙◌, ◌⊎◌, inl, inr, String, Bool, true, false, not, Option, some, List, [],
  ◌∷◌, ◌++◌, filter, is_empty, All, length, ok, string_eq, >>=-eq-ok, require-eq-ok, Bool-cases,
  map_err, ◌+◌,
}
use bauhinia_agent.Evo.Graph.{require_evo_id}
use bauhinia_agent.Promotion.{Artifact, artifact_created, EvoEvent, Log, ArtifactRecord}
use bauhinia_agent.Promotion.Store.{append}
use bauhinia_agent.Promotion.History.{append-outcome}
use bauhinia_agent.Artifacts.{
  Raises, Draft, Texts, Source, sorted_set, artifact_payload, not_accepted, bad_identifier,
}
use bauhinia_agent.Artifacts.Registry.{
  Moment, ArtifactResult, source_candidates, is_accepted, superseded, check_successor, lineage_for,
  version_for, creation_event, recorded, create, parent_of, first_run,
}

-- Nothing, or one event that creates the artifact.
pub record Written (id : String) (a : Artifact) (events after : Log) : Type 0 where
  pub event : EvoEvent
  pub is_last : after ≡ events ++ event ∷ []
  pub owner : event.artifact_id ≡ some id
  pub creates : event.payload ≡ artifact_created a

abbrev pub Effect : String → Artifact → Log → ArtifactResult × Log → Type 0
Effect id a events r =
    ((r.0.persisted ≡ false) × (r.1 ≡ events)) ⊎ ((r.0.persisted ≡ true) × Written id a events r.1)

pub record Created (texts : Texts) (moment : Moment) (draft : Draft) (events : Log)
    (r : ArtifactResult × Log) : Type 0 where
  pub sources : List Source
  pub previous : Option ArtifactRecord
  pub payload : Artifact
  pub are_sources : source_candidates events draft.source_candidate_ids ≡ ok sources
  pub are_accepted : All (λ id. is_accepted events id ≡ true) draft.source_candidate_ids
  pub is_previous : superseded events draft.supersedes_artifact_id ≡ ok previous
  pub is_payload :
      artifact_payload texts draft sources
        (lineage_for moment.artifact_id previous)
        (version_for previous)
      ≡ ok payload
  pub succeeds : check_successor previous payload ≡ ok tt
  pub effect : Effect moment.artifact_id payload events r

ok_inj :
    {x y : ArtifactResult × Log} → ◌≡◌ {A = Raises (ArtifactResult × Log)} (ok x) (ok y) → x ≡ y
ok_inj h = cc

all_pass :
    (p : String → Bool) (xs : List String)
    → is_empty (filter (λ x. not (p x)) xs) ≡ true
    → All (λ x. p x ≡ true) xs
all_pass p [] h = tt
all_pass p (x ∷ xs) h = elim (Bool-cases (p x)) [
  | inl passes ↦ (passes, all_pass p xs (rw passes at h))
  | inr fails ↦ cc
]

recorded-Effect :
    (moment : Moment) (a : Artifact) (events : Log) (parent : Option String)
    (r : ArtifactResult × Log)
    → recorded moment a events (append moment.trouble (creation_event moment a parent) events) ≡ r
    → Effect moment.artifact_id a events r
recorded-Effect moment a events parent r h =
    let e = creation_event moment a parent in
    elim (append-outcome moment.trouble e events refl) [
      | inl (x, failed) ↦
          let left = ap (recorded moment a events) (sym failed) ∙ h in
          inl (
            ap (λ (y : ArtifactResult × Log). y.0.persisted) (sym left),
            ap (λ (y : ArtifactResult × Log). y.1) (sym left),
          )
      | inr (d, done) ↦
          let left = ap (recorded moment a events) (sym done) ∙ h in
          inr (
            ap (λ (y : ArtifactResult × Log). y.0.persisted) (sym left),
            record {
              event = record e { sequence = some (length events + 1) };
              is_last = ap (λ (y : ArtifactResult × Log). y.1) (sym left);
              owner = refl;
              creates = refl;
            },
          )
    ]

pub create-Created :
    (texts : Texts) (moment : Moment) (draft : Draft) (events : Log) (r : ArtifactResult × Log)
    → create texts moment draft events ≡ ok r
    → Created texts moment draft events r
unfolding create
create-Created texts moment draft events r h =
    let ids = draft.source_candidate_ids in
    let (sources, found, h1) = >>=-eq-ok (source_candidates events ids) _ h in
    let missing = filter (λ id. not (is_accepted events id)) ids in
    let (passed, h2) = require-eq-ok (is_empty missing) (not_accepted (sorted_set missing)) _ h1 in
    let (previous, superseding, h3) =
      >>=-eq-ok (superseded events draft.supersedes_artifact_id) _ h2 in
    let (payload, made, h4) =
      >>=-eq-ok
        (artifact_payload texts draft sources (lineage_for moment.artifact_id previous)
          (version_for previous))
        _ h3 in
    let (u, checked, h5) = >>=-eq-ok (check_successor previous payload) _ h4 in
    let (v, well, h6) =
      >>=-eq-ok
        (map_err bad_identifier (require_evo_id (first_run payload.source_run_ids) "run_id")) _
        h5 in
    record {
      sources = sources;
      previous = previous;
      payload = payload;
      are_sources = found;
      are_accepted = all_pass (is_accepted events) ids passed;
      is_previous = superseding;
      is_payload = made;
      succeeds = checked;
      effect = recorded-Effect moment payload events (parent_of previous sources) r (ok_inj h6);
    }
