-- ===== src/Promotion/Lineage.antt =====
-- Earlier versions of a lineage: the loop over the log in `_previous_promoted`
-- (evolution/promotion.py).
use bauhinia_agent.Promotion.{lifecycle_eq, Log, ArtifactRecord, record_of, created}
use mathlib.Core.Path.{subst}
use text.Mathlib.TextEquality.{eq_iff}
use bauhinia_agent.Common.{
  ◌<◌, ◌≡◌, refl, ◌⊎◌, inl, inr, String, Bool, false, ◌&&◌, Option, none, some, [], ◌∷◌, All,
  All-map, ◌==◌, string_eq, nat_eq, ltb, if◌then◌else◌, Bool-cases, arith,
}
use bauhinia_agent.Common.Dict.{of_list}
use bauhinia_agent.Promotion.Store.{lineage_before}
use bauhinia_agent.Common.{Unique, elem}
use bauhinia_agent.Common.Dict.{keys, of_list-Unique}
use bauhinia_agent.Promotion.Gate.{created_in}

-- An earlier version of the same lineage.
abbrev pub IsEarlier : ArtifactRecord → String × ArtifactRecord → Type 0
IsEarlier current (id, r) =
    (r.artifact_id ≡ id)
    × (r.payload.lineage_id ≡ current.payload.lineage_id)
    × (r.payload.artifact_version < current.payload.artifact_version)

pub lineage_before-IsEarlier :
    (current : ArtifactRecord) (events : Log)
    → All (IsEarlier current) (lineage_before current events)
unfolding lineage_before
lineage_before-IsEarlier current [] = tt
lineage_before-IsEarlier current (e ∷ events) =
    go (record_of e e.artifact_id (created e.payload)) (lineage_before-IsEarlier current events)
  where
    go :
        (o : Option ArtifactRecord)
        → All (IsEarlier current) (lineage_before current events)
        → All (IsEarlier current) (elim o [
          | none ↦ lineage_before current events
          | some r ↦
              if r.payload.lineage_id == current.payload.lineage_id
                && ltb r.payload.artifact_version current.payload.artifact_version
              then (r.artifact_id, r) ∷ lineage_before current events
              else lineage_before current events
        ])
    go none ih = ih
    go (some r) ih =
        elim (Bool-cases (
          r.payload.lineage_id == current.payload.lineage_id
          && ltb r.payload.artifact_version current.payload.artifact_version)) [
            | inl fits ↦ rw fits (
              (
                refl,
                (eq_iff r.payload.lineage_id current.payload.lineage_id).0 (ground (arith, fits)),
                ground (arith, fits),
              ),
              ih,
            )
            | inr misses ↦ rw misses ih
          ]

-- An event of the log created the artifact with this record.
abbrev pub WasCreated : ArtifactRecord → Log → Type 0
WasCreated r [] = ⊥
WasCreated r (e ∷ events) =
    (record_of e e.artifact_id (created e.payload) ≡ some r) ⊎ WasCreated r events

pub lineage_before-WasCreated :
    (current : ArtifactRecord) (events : Log)
    → All (λ x. WasCreated x.1 events) (lineage_before current events)
unfolding lineage_before
lineage_before-WasCreated current [] = tt
lineage_before-WasCreated current (e ∷ events) =
    go (record_of e e.artifact_id (created e.payload)) refl (
      All-map _ _ (lineage_before current events) (λ x h. inr h)
        (lineage_before-WasCreated current events))
  where
    go :
        (o : Option ArtifactRecord)
        → record_of e e.artifact_id (created e.payload) ≡ o
        → All (λ x. WasCreated x.1 (e ∷ events)) (lineage_before current events)
        → All
            (λ x. WasCreated x.1 (e ∷ events))
            (elim o [
              | none ↦ lineage_before current events
              | some r ↦
                  if r.payload.lineage_id == current.payload.lineage_id
                    && ltb r.payload.artifact_version current.payload.artifact_version
                  then (r.artifact_id, r) ∷ lineage_before current events
                  else lineage_before current events
            ])
    go none at ih = ih
    go (some r) at ih =
        elim (Bool-cases (
          r.payload.lineage_id == current.payload.lineage_id
          && ltb r.payload.artifact_version current.payload.artifact_version)) [
            | inl fits ↦ rw fits (inl at, ih)
            | inr away ↦ rw away ih
          ]

-- What holds of the records that the loop keeps holds of every earlier version that was created.
pub lineage_before-created_in :
    (Q : String × ArtifactRecord → Type 0) (current : ArtifactRecord) (events : Log)
    → All Q (lineage_before current events)
    → All (λ x. (¬ IsEarlier current x) ⊎ Q x) (created_in events)
unfolding lineage_before
lineage_before-created_in Q current [] h = tt
lineage_before-created_in Q current (e ∷ events) h =
    go (record_of e e.artifact_id (created e.payload)) (lineage_before-created_in Q current events)
      h
  where
    go :
        (o : Option ArtifactRecord)
        → (All Q (lineage_before current events)
            → All (λ x. (¬ IsEarlier current x) ⊎ Q x) (created_in events))
        → All Q (elim o [
          | none ↦ lineage_before current events
          | some r ↦
              if r.payload.lineage_id == current.payload.lineage_id
                && ltb r.payload.artifact_version current.payload.artifact_version
              then (r.artifact_id, r) ∷ lineage_before current events
              else lineage_before current events
        ])
        → All
            (λ x. (¬ IsEarlier current x) ⊎ Q x)
            (elim o [ none ↦ created_in events | some r ↦ (r.artifact_id, r) ∷ created_in events ])
    go none ih h = ih h
    go (some r) ih h =
        elim (Bool-cases (
          r.payload.lineage_id == current.payload.lineage_id
          && ltb r.payload.artifact_version current.payload.artifact_version)) [
            | inl fits ↦ let (q, rest) = subst (kept r) fits h in (inr q, ih rest)
            | inr away ↦
                let rest = subst (kept r) away h in
                (
                  inl (λ earlier. ground (
                    arith,
                    away,
                    (eq_iff r.payload.lineage_id current.payload.lineage_id).1 earlier.1,
                    earlier.2,
                  )),
                  ih rest,
                )
          ]
      where
        kept : ArtifactRecord → Bool → Type 0
        kept r b = All Q (
            if b
            then (r.artifact_id, r) ∷ lineage_before current events
            else lineage_before current events)

elem-lineage_before :
    (k : String) (current : ArtifactRecord) (events : Log)
    → elem k (keys (created_in events)) ≡ false
    → elem k (keys (lineage_before current events)) ≡ false
unfolding lineage_before
elem-lineage_before k current [] h = refl
elem-lineage_before k current (e ∷ events) h =
    go (record_of e e.artifact_id (created e.payload)) (elem-lineage_before k current events) h
  where
    go :
        (o : Option ArtifactRecord)
        → (elem k (keys (created_in events)) ≡ false
            → elem k (keys (lineage_before current events)) ≡ false)
        → elem k (
            keys (elim o [
              | none ↦ created_in events
              | some r ↦ (r.artifact_id, r) ∷ created_in events
            ]))
          ≡ false
        → elem k (
            keys (elim o [
              | none ↦ lineage_before current events
              | some r ↦
                  if r.payload.lineage_id == current.payload.lineage_id
                    && ltb r.payload.artifact_version current.payload.artifact_version
                  then (r.artifact_id, r) ∷ lineage_before current events
                  else lineage_before current events
            ]))
          ≡ false
    go none ih h = ih h
    go (some r) ih h =
        elim (Bool-cases (
          r.payload.lineage_id == current.payload.lineage_id
          && ltb r.payload.artifact_version current.payload.artifact_version)) [
            | inl fits ↦ rw fits (ground (arith, h, ih))
            | inr away ↦ rw away (ih (ground (arith, h)))
          ]

lineage_before-Unique :
    (current : ArtifactRecord) (events : Log)
    → Unique (keys (created_in events))
    → Unique (keys (lineage_before current events))
unfolding lineage_before
lineage_before-Unique current [] u = tt
lineage_before-Unique current (e ∷ events) u =
    go (record_of e e.artifact_id (created e.payload)) (lineage_before-Unique current events) u
  where
    go :
        (o : Option ArtifactRecord)
        → (Unique (keys (created_in events)) → Unique (keys (lineage_before current events)))
        → Unique (
            keys (elim o [
              | none ↦ created_in events
              | some r ↦ (r.artifact_id, r) ∷ created_in events
            ]))
        → Unique (
            keys (elim o [
              | none ↦ lineage_before current events
              | some r ↦
                  if r.payload.lineage_id == current.payload.lineage_id
                    && ltb r.payload.artifact_version current.payload.artifact_version
                  then (r.artifact_id, r) ∷ lineage_before current events
                  else lineage_before current events
            ]))
    go none ih u = ih u
    go (some r) ih u =
        elim (Bool-cases (
          r.payload.lineage_id == current.payload.lineage_id
          && ltb r.payload.artifact_version current.payload.artifact_version)) [
            | inl fits ↦ rw fits (elem-lineage_before r.artifact_id current events u.0, ih u.1)
            | inr away ↦ rw away (ih u.1)
          ]

-- Where no identifier is created twice, the dictionary of the loop is its list.
pub of_list-lineage_before :
    (current : ArtifactRecord) (events : Log)
    → Unique (keys (created_in events))
    → of_list (lineage_before current events) ≡ lineage_before current events
of_list-lineage_before current events u =
    of_list-Unique (lineage_before current events) (lineage_before-Unique current events u)
