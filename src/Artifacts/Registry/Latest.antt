-- ===== src/Artifacts/Registry/Latest.antt =====
-- The latest version of a lineage in evolution/candidate_artifacts.py is its last.
use bauhinia_agent.Common.{
  All-and, map_err, require, ◌>>◌, beq_refl, ℕ, ◌≤◌, ◌≡◌, refl, sym, ap, ◌∙◌, inl, inr, String,
  Bool, true, false, Option, none, some, List, [], ◌∷◌, elem, All, All-map, Unique, ok, err, ◌==◌,
  string_eq, nat_eq, >>=-eq-ok, Bool-cases, arith,
}
use bauhinia_agent.Artifacts.{not_latest, bad_identifier, unknown_superseded, Raises}
use bauhinia_agent.Artifacts.Registry.{superseded, of_lineage, require_latest}
use bauhinia_agent.Common.Dict.{get-All, get, of_list, of_list-Unique, keys}
use bauhinia_agent.Artifacts.Registry.Numbered.{
  versions_of, counting, numbers, Numbered, counting-AtMost, counting-elem,
}
use bauhinia_agent.Promotion.Store.{newest, newest_of}
use bauhinia_agent.Promotion.Rollback.{newest-All, newest-NoNewer}
use bauhinia_agent.Evo.Graph.{require_evo_id}
use mathlib.Core.Path.{subst}
use text.Mathlib.TextEquality.{eq_iff}
use bauhinia_agent.Promotion.{Log, ArtifactRecord}
use bauhinia_agent.Promotion.Gate.{created_in}

get-each :
    (d : List (String × ArtifactRecord)) → Unique (keys d) → All (λ x. get x.0 d ≡ some x.1) d
unfolding get
get-each [] u = tt
get-each ((k, v) ∷ d) u = (
  rw (beq_refl k) refl,
  All-map _ _ d (λ x h. rw (h.0, h.1)) (All-and _ _ d (apart k d u.0) (get-each d u.1)),
)
  where
    apart :
        (k : String) (d : List (String × ArtifactRecord))
        → elem k (keys d) ≡ false
        → All (λ x. (k == x.0) ≡ false) d
    apart k [] h = tt
    apart k (x ∷ d) h =
        (ground (arith, h, eq_iff k x.0, eq_iff x.0 k), apart k d (ground (arith, h)))

each_in :
    (rs : List ArtifactRecord)
    → All (λ (r : ArtifactRecord). elem r.payload.artifact_version (versions_of rs) ≡ true) rs
each_in [] = tt
each_in (r ∷ rs) = (
  ground (arith, beq_refl r.payload.artifact_version),
  All-map _ _ rs (λ x h. ground (arith, h)) (each_in rs),
)

of_lineage-All :
    (P : ArtifactRecord → Type 0) (lineage : String) (d : List (String × ArtifactRecord))
    → All (λ x. P x.1) d
    → All P (of_lineage lineage d)
of_lineage-All P lineage [] h = tt
of_lineage-All P lineage ((id, r) ∷ d) h = elim (Bool-cases (r.payload.lineage_id == lineage)) [
  | inl same ↦ rw same (h.0, of_lineage-All P lineage d h.1)
  | inr differs ↦ rw differs (of_lineage-All P lineage d h.1)
]

AtMost-versions_of :
    (v : ℕ) (rs : List ArtifactRecord)
    → All (λ (r : ArtifactRecord). r.payload.artifact_version ≤ v) rs
    → All (λ k. k ≤ v) (versions_of rs)
AtMost-versions_of v [] h = tt
AtMost-versions_of v (r ∷ rs) h = (h.0, AtMost-versions_of v rs h.1)

record_ok_inj :
    {x y : ArtifactRecord}
    → ◌≡◌ {A = Raises (Option ArtifactRecord)} (ok (some x)) (ok (some y))
    → x ≡ y
record_ok_inj h = cc

record_some_inj : {x y : ArtifactRecord} → ◌≡◌ {A = Option ArtifactRecord} (some x) (some y) → x ≡ y
record_some_inj h = cc

-- The newest of the versions of a lineage is the last.
newest-last :
    (d : List (String × ArtifactRecord)) (lineage id : String) (p : ArtifactRecord)
    → Numbered d
    → get id d ≡ some p
    → (rs : List ArtifactRecord) → of_lineage lineage d ≡ rs
    → require_latest (newest_of rs) id ≡ ok tt
    → numbers lineage d ≡ counting p.payload.artifact_version
newest-last d lineage id p i found [] are h = cc
newest-last d lineage id p i found (r ∷ rs) are h =
    let best = newest r rs in
    let (n, count) = i.numbered lineage in
    let each = subst (All (λ (x : ArtifactRecord). get x.artifact_id d ≡ some x)) are (
      of_lineage-All (λ x. get x.artifact_id d ≡ some x) lineage d
        (All-map _ _ d (λ x h. ap (λ j. get j d) h.0 ∙ h.1)
          (All-and _ _ d i.named (get-each d i.unique)))) in
    let same : best ≡ p = record_some_inj (
      sym (newest-All (λ x. get x.artifact_id d ≡ some x) r rs each.0 each.1)
      ∙ ap (λ j. get j d) ((eq_iff best.artifact_id id).0 (passed (best.artifact_id == id) h))
      ∙ found) in
    let v = best.payload.artifact_version in
    let counted = sym (ap versions_of are) ∙ count in
    let above =
      counting-AtMost n v
        (subst (All (λ k. k ≤ v)) counted (AtMost-versions_of v (r ∷ rs) (newest-NoNewer r rs))) in
    let members = each_in (r ∷ rs) in
    let below = counting-elem n v (
      ap (λ (ks : List ℕ). elem v ks) (sym counted)
      ∙ newest-All (λ x. elem x.payload.artifact_version (versions_of (r ∷ rs)) ≡ true) r rs
          members.0 members.1) in
    let equal : n ≡ v = omega (arith, above, below) in
    count ∙ ap counting (equal ∙ ap (λ (x : ArtifactRecord). x.payload.artifact_version) same)
  where
    passed : (b : Bool) → require b not_latest ≡ ok tt → b ≡ true
    passed true k = refl
    passed false k = cc

-- A version that may be superseded is the last one of its lineage.
pub superseded-last :
    (log : Log) (o : Option String) (p : ArtifactRecord)
    → Numbered (created_in log)
    → superseded log o ≡ ok (some p)
    → (elem p.payload.lineage_id (keys (created_in log)) ≡ true)
      × (numbers p.payload.lineage_id (created_in log) ≡ counting p.payload.artifact_version)
unfolding superseded
superseded-last log none p i h = cc
superseded-last log (some id) p i h =
    let (u, well, h1) =
      >>=-eq-ok (map_err bad_identifier (require_evo_id id "supersedes_artifact_id")) _ h in
    go (get id (of_list (created_in log))) refl h1
  where
    whole : of_list (created_in log) ≡ created_in log
    whole = of_list-Unique (created_in log) i.unique

    go :
        (o : Option ArtifactRecord)
        → get id (of_list (created_in log)) ≡ o
        → (elim o [
          | none ↦ err (unknown_superseded id)
          | some q ↦ do
            require_latest
                (newest_of (of_lineage q.payload.lineage_id (of_list (created_in log))))
                id
            ok (some q)
        ])
          ≡ ok (some p)
        → (elem p.payload.lineage_id (keys (created_in log)) ≡ true)
          × (numbers p.payload.lineage_id (created_in log) ≡ counting p.payload.artifact_version)
    go none found k = cc
    go (some q) found k =
        let (u, fits, k1) =
          >>=-eq-ok
            (require_latest (newest_of (of_lineage q.payload.lineage_id (of_list (created_in log))))
              id)
            _ k in
        let present = subst (λ d. get id d ≡ some q) whole found in
        subst
          (λ (p : ArtifactRecord).
            (elem p.payload.lineage_id (keys (created_in log)) ≡ true)
            × (numbers p.payload.lineage_id (created_in log) ≡ counting p.payload.artifact_version))
          (record_ok_inj k1)
          (
            get-All (λ x. elem x.1.payload.lineage_id (keys (created_in log)) ≡ true) id
                (created_in log) q i.rooted present,
            newest-last (created_in log) q.payload.lineage_id id q i present
                (of_lineage q.payload.lineage_id (created_in log)) refl
                (subst
                  (λ d. require_latest (newest_of (of_lineage q.payload.lineage_id d)) id ≡ ok tt)
                  whole fits),
          )
