-- ===== src/Artifacts/Registry/Versions.antt =====
-- The versions of a lineage of artifacts in evolution/candidate_artifacts.py.
use bauhinia_agent.Common.{
  length-append, length, map_err, ℕ, zero, suc, ◌≡◌, refl, sym, ap, ◌∙◌, ◌⊎◌, inl, inr, String,
  true, false, Option, none, some, List, [], ◌∷◌, ◌++◌, filter, elem, ok, ◌==◌, string_eq, nat_eq,
  >>=-eq-ok, arith,
}
use bauhinia_agent.Artifacts.{bad_identifier, Raises, Draft, Texts}
use bauhinia_agent.Artifacts.Registry.{
  superseded, Moment, ArtifactResult, of_lineage, records, create, manifest, versions, lineage_for,
  version_for,
}
use bauhinia_agent.Common.Dict.{keys}
use bauhinia_agent.Artifacts.Registry.Numbered.{
  versions_of, counting, numbers, Numbered, created_in-append, created_in-none, created_in-new,
  new_record, numbers-none, Numbered-snoc,
}
use bauhinia_agent.Artifacts.Registry.Outcome.{create-Created, Created}
use bauhinia_agent.Artifacts.Registry.Sources.{artifact_payload-Made}
use bauhinia_agent.Evo.Graph.{require_evo_id}
use mathlib.Core.List.{append-nil}
use bauhinia_agent.Artifacts.Registry.Latest.{superseded-last}
use mathlib.Core.Path.{subst}
use bauhinia_agent.Promotion.{EvoEvent, Log, ArtifactRecord, created}
use bauhinia_agent.Promotion.Gate.{created_in}

-- The logs that `create` makes, among other events, when a new identifier names no artifact before.
pub data Reachable (texts : Texts) : Log → Type 0 where
  empty : Reachable texts []
  other :
      (log : Log) (e : EvoEvent)
      → created e.payload ≡ none
      → Reachable texts log
      → Reachable texts (log ++ e ∷ [])
  called :
      (moment : Moment) (draft : Draft) (log after : Log) (result : ArtifactResult)
      → elem moment.artifact_id (keys (created_in log)) ≡ false
      → create texts moment draft log ≡ ok (result, after)
      → Reachable texts log
      → Reachable texts after

-- The number of a new artifact is the next one of its lineage.
record Next (log : Log) (id : String) (o : Option ArtifactRecord) : Type 0 where
  pub before : ℕ
  pub root : (elem (lineage_for id o) (keys (created_in log)) ≡ true) ⊎ (lineage_for id o ≡ id)
  pub count : numbers (lineage_for id o) (created_in log) ≡ counting before
  pub next : version_for o ≡ suc before

superseded-Next :
    (log : Log) (id : String) (supersedes : Option String) (o : Option ArtifactRecord)
    → Numbered (created_in log)
    → elem id (keys (created_in log)) ≡ false
    → superseded log supersedes ≡ ok o
    → Next log id o
superseded-Next log id supersedes none i fresh h = record {
  before = 0;
  root = inr refl;
  count = numbers-none id (keys (created_in log)) (created_in log) i.rooted fresh;
  next = refl;
}
superseded-Next log id supersedes (some p) i fresh h =
    let (old, count) = superseded-last log supersedes p i h in
    record {
      before = p.payload.artifact_version;
      root = inl old;
      count = count;
      next = omega arith;
    }

Created-Numbered :
    (texts : Texts) (moment : Moment) (draft : Draft) (log : Log) (r : ArtifactResult × Log)
    → elem moment.artifact_id (keys (created_in log)) ≡ false
    → Created texts moment draft log r
    → Numbered (created_in log)
    → Numbered (created_in r.1)
Created-Numbered texts moment draft log r fresh c i = elim (c.effect) [
  | inl (failed, same) ↦ subst (λ es. Numbered (created_in es)) (sym same) i
  | inr (kept, w) ↦
      let id = moment.artifact_id in
      let made =
        artifact_payload-Made texts draft c.sources (lineage_for id c.previous)
          (version_for c.previous) c.payload c.is_payload in
      let n =
        superseded-Next log id draft.supersedes_artifact_id c.previous i fresh c.is_previous in
      subst Numbered
        (sym (
          ap created_in w.is_last
          ∙ created_in-append log (w.event ∷ [])
          ∙ ap (λ d. created_in log ++ d) (created_in-new w.event id c.payload w.owner w.creates)))
        (Numbered-snoc (created_in log) (new_record w.event id c.payload) n.before i fresh
          (rw made.lineage n.root) (rw made.lineage n.count) (made.numbered ∙ n.next))
]

Reachable-Numbered : (texts : Texts) (log : Log) → Reachable texts log → Numbered (created_in log)
Reachable-Numbered texts _ empty = record {
  unique = tt;
  named = tt;
  rooted = tt;
  numbered = λ l. (0, refl);
}
Reachable-Numbered texts _ (other log e plain before) =
    subst Numbered
      (sym (
        created_in-append log (e ∷ [])
        ∙ ap (λ d. created_in log ++ d) (created_in-none e plain)
        ∙ append-nil (created_in log)))
      (Reachable-Numbered texts log before)
Reachable-Numbered texts _ (called moment draft log after result fresh h before) =
    Created-Numbered texts moment draft log (result, after) fresh
      (create-Created texts moment draft log (result, after) h)
      (Reachable-Numbered texts log before)

filter-records :
    (lineage : String) (d : List (String × ArtifactRecord))
    → filter (λ (r : ArtifactRecord). r.payload.lineage_id == lineage) (records d)
      ≡ of_lineage lineage d
filter-records lineage [] = refl
filter-records lineage ((id, r) ∷ d) = ground (arith, filter-records lineage d)

length-counting : (n : ℕ) → length (counting n) ≡ n
length-counting zero = refl
length-counting (suc n) = ground (arith, length-counting n, length-append (counting n) (suc n ∷ []))

-- In every log that calls of the registry make one at a time, each with a new identifier, among other
-- events that create no artifact, the versions of a lineage in the manifest are 1, 2, 3 and so on,
-- without a gap, and in this order.
pub versions_count :
    (texts : Texts) (log : Log) (lineage : String) (rs : List ArtifactRecord)
    → Reachable texts log
    → versions (manifest log) lineage ≡ ok rs
    → versions_of rs ≡ counting (length rs)
unfolding versions manifest
versions_count texts log lineage rs reached h =
    let (u, well, h1) =
      >>=-eq-ok (map_err bad_identifier (require_evo_id lineage "lineage_id")) _ h in
    let (n, count) = (Reachable-Numbered texts log reached).numbered lineage in
    let counted : versions_of rs ≡ counting n =
      ap versions_of (sym (records_ok_inj h1) ∙ filter-records lineage (created_in log)) ∙ count in
    counted
    ∙ ap counting (
        sym (length-counting n)
        ∙ ap (λ (ks : List ℕ). length ks) (sym counted)
        ∙ length-versions_of rs)
  where
    records_ok_inj :
        {xs ys : List ArtifactRecord}
        → ◌≡◌ {A = Raises (List ArtifactRecord)} (ok xs) (ok ys)
        → xs ≡ ys
    records_ok_inj h = cc

    length-versions_of : (rs : List ArtifactRecord) → length (versions_of rs) ≡ length rs
    length-versions_of [] = refl
    length-versions_of (r ∷ rs) = ground (arith, length-versions_of rs)
