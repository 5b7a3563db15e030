-- ===== src/Artifacts/Registry/Numbered.antt =====
-- Artifacts of evolution/candidate_artifacts.py whose versions are counted in each lineage.
use bauhinia_agent.Common.Dict.{keys-append, keys}
use mathlib.Core.Path.{subst}
use mathlib.Core.List.{append-nil}
use text.Mathlib.TextEquality.{eq_iff}
use bauhinia_agent.Common.{
  ◌||◌, beq_refl, Unique-append, ℕ, zero, suc, ◌≤◌, ◌≡◌, refl, sym, ap, ◌∙◌, ◌⊎◌, inl, inr, String,
  true, false, Option, none, some, List, [], ◌∷◌, ◌++◌, map, elem, All, All-map, All-append,
  All-right, Unique, ◌==◌, string_eq, nat_eq, if◌then◌else◌, Bool-cases, arith, elem-append,
}
use bauhinia_agent.Promotion.{
  Artifact, artifact_created, EvoEvent, Log, ArtifactRecord, record_of, created,
}
use bauhinia_agent.Promotion.Gate.{created_in}
use bauhinia_agent.Artifacts.Registry.{of_lineage}

-- 1, 2, …, n
abbrev pub counting : ℕ → List ℕ
counting zero = []
counting (suc n) = counting n ++ suc n ∷ []

abbrev pub versions_of : List ArtifactRecord → List ℕ
versions_of = map (λ (r : ArtifactRecord). r.payload.artifact_version)

-- The versions of the lineage, in the order of the log.
abbrev pub numbers : String → List (String × ArtifactRecord) → List ℕ
numbers lineage d = versions_of (of_lineage lineage d)

-- No identifier stands twice, a lineage is named by its first artifact, and its versions are counted.
pub record Numbered (d : List (String × ArtifactRecord)) : Type 0 where
  pub unique : Unique (keys d)
  pub named : All (λ x. x.1.artifact_id ≡ x.0) d
  pub rooted : All (λ x. elem x.1.payload.lineage_id (keys d) ≡ true) d
  pub numbered : (lineage : String) → (n : ℕ) × (numbers lineage d ≡ counting n)

abbrev pub item : ArtifactRecord → String × ArtifactRecord
item r = (r.artifact_id, r)

pub created_in-append : (log es : Log) → created_in (log ++ es) ≡ created_in log ++ created_in es
created_in-append [] es = refl
created_in-append (d ∷ log) es =
    go (record_of d d.artifact_id (created d.payload)) (created_in-append log es)
  where
    go :
        (o : Option ArtifactRecord)
        → created_in (log ++ es) ≡ created_in log ++ created_in es
        → ◌≡◌ {A = List (String × ArtifactRecord)}
            (elim o [ none ↦ created_in (log ++ es) | some r ↦ item r ∷ created_in (log ++ es) ])
            ((elim o [ none ↦ created_in log | some r ↦ item r ∷ created_in log ]) ++ created_in es)
    go none ih = ih
    go (some r) ih = ap (λ (d : List (String × ArtifactRecord)). item r ∷ d) ih

pub created_in-none : (e : EvoEvent) → created e.payload ≡ none → created_in (e ∷ []) ≡ []
created_in-none e h = rw (h, created_in) (nothing e.artifact_id)
  where
    nothing :
        (o : Option String)
        → ◌≡◌ {A = List (String × ArtifactRecord)}
            (elim (record_of e o none) [ none ↦ [] | some r ↦ item r ∷ [] ])
            []
    nothing none = refl
    nothing (some x) = refl

abbrev pub new_record : EvoEvent → String → Artifact → ArtifactRecord
new_record e id a = record {
  event_id = e.event_id;
  artifact_id = id;
  run_id = e.run_id;
  occurred_at = e.occurred_at;
  payload = a;
}

pub created_in-new :
    (e : EvoEvent) (id : String) (a : Artifact)
    → e.artifact_id ≡ some id
    → e.payload ≡ artifact_created a
    → created_in (e ∷ []) ≡ item (new_record e id a) ∷ []
created_in-new e id a owner made = rw (owner, made, created_in) refl

of_lineage-append :
    (lineage : String) (d e : List (String × ArtifactRecord))
    → of_lineage lineage (d ++ e) ≡ of_lineage lineage d ++ of_lineage lineage e
of_lineage-append lineage [] e = refl
of_lineage-append lineage ((id, r) ∷ d) e = ground (arith, of_lineage-append lineage d e)

pub counting-AtMost : (n v : ℕ) → All (λ k. k ≤ v) (counting n) → n ≤ v
counting-AtMost zero v h = omega arith
counting-AtMost (suc n) v h = (All-right (λ k. k ≤ v) (counting n) (suc n ∷ []) h).0

pub counting-elem : (n v : ℕ) → elem v (counting n) ≡ true → v ≤ n
counting-elem zero v h = cc
counting-elem (suc n) v h =
    ground (arith, h, elem-append v (counting n) (suc n ∷ []), counting-elem n v)

-- A lineage without a first artifact has no version.
pub numbers-none :
    (lineage : String) (ks : List String) (d : List (String × ArtifactRecord))
    → All (λ x. elem x.1.payload.lineage_id ks ≡ true) d
    → elem lineage ks ≡ false
    → numbers lineage d ≡ []
numbers-none lineage ks [] h away = refl
numbers-none lineage ks ((id, r) ∷ d) h away = elim (Bool-cases (r.payload.lineage_id == lineage)) [
  | inl same ↦
      cc (sym (h.0) ∙ ap (λ x. elem x ks) ((eq_iff r.payload.lineage_id lineage).0 same) ∙ away)
  | inr differs ↦ rw differs (numbers-none lineage ks d h.1 away)
]

versions_of-append :
    (xs ys : List ArtifactRecord) → versions_of (xs ++ ys) ≡ versions_of xs ++ versions_of ys
versions_of-append [] ys = refl
versions_of-append (x ∷ xs) ys =
    ap (λ (ns : List ℕ). x.payload.artifact_version ∷ ns) (versions_of-append xs ys)

numbers-snoc :
    (lineage : String) (d : List (String × ArtifactRecord)) (r : ArtifactRecord)
    → numbers lineage (d ++ item r ∷ []) ≡ (
        if r.payload.lineage_id == lineage
        then numbers lineage d ++ r.payload.artifact_version ∷ []
        else numbers lineage d)
numbers-snoc lineage d r = elim (Bool-cases (r.payload.lineage_id == lineage)) [
  | inl same ↦
      rw (of_lineage-append lineage d (item r ∷ []), same)
        (versions_of-append (of_lineage lineage d) (r ∷ []))
  | inr differs ↦
      rw (of_lineage-append lineage d (item r ∷ []), differs, append-nil (of_lineage lineage d))
        refl
]

apart : (k : String) (ks : List String) → elem k ks ≡ false → All (λ x. elem x (k ∷ []) ≡ false) ks
apart k [] h = tt
apart k (x ∷ ks) h = (ground (arith, h, eq_iff k x, eq_iff x k), apart k ks (ground (arith, h)))

-- The next version of a lineage keeps the count.
pub Numbered-snoc :
    (d : List (String × ArtifactRecord)) (r : ArtifactRecord) (n : ℕ)
    → Numbered d
    → elem r.artifact_id (keys d) ≡ false
    → ((elem r.payload.lineage_id (keys d) ≡ true) ⊎ (r.payload.lineage_id ≡ r.artifact_id))
    → numbers r.payload.lineage_id d ≡ counting n
    → r.payload.artifact_version ≡ suc n
    → Numbered (d ++ item r ∷ [])
Numbered-snoc d r n i fresh root count next = record {
  unique = rw (keys-append d (item r ∷ [])) (
      Unique-append (keys d) (r.artifact_id ∷ []) i.unique (refl, tt)
        (apart r.artifact_id (keys d) fresh));
  named = All-append _ d (item r ∷ []) i.named (refl, tt);
  rooted =
      All-append _ d (item r ∷ [])
        (All-map _ _ d (λ x h. grown x.1.payload.lineage_id (ground (arith, h))) i.rooted)
        (
          grown r.payload.lineage_id (elim root [
            | inl old ↦ ground (arith, old)
            | inr own ↦ ground (arith, own, eq_iff r.artifact_id r.payload.lineage_id)
          ]),
          tt,
        );
  numbered = λ lineage. elim (Bool-cases (r.payload.lineage_id == lineage)) [
    | inl same ↦ (
      suc n,
      subst (λ l. numbers l (d ++ item r ∷ []) ≡ counting (suc n))
          ((eq_iff r.payload.lineage_id lineage).0 same)
          (numbers-snoc r.payload.lineage_id d r
            ∙ rw (beq_refl r.payload.lineage_id, count, next) refl),
    )
    | inr differs ↦ let (k, h) = i.numbered lineage in (k, numbers-snoc lineage d r ∙ rw differs h)
  ];
}
  where
    grown :
        (l : String)
        → (elem l (keys d) || r.artifact_id == l) ≡ true
        → elem l (keys (d ++ item r ∷ [])) ≡ true
    grown l h =
        rw (keys-append d (item r ∷ []))
          (elem-append l (keys d) (r.artifact_id ∷ []) ∙ ground (arith, h))
