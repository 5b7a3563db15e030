-- ===== src/Promotion/Rollback.antt =====
-- The version that a rollback of evolution/promotion.py goes back to.
use bauhinia_agent.Promotion.{
  PromotionChanged, Lifecycle, candidate, promoted, lifecycle_eq, lifecycle_beq_iff,
  promotion_changed, EvoEvent, Log, ArtifactRecord, Raises, artifact, replay_states,
}
use mathlib.Core.Path.{subst}
use bauhinia_agent.Common.{
  ◌≤◌, ◌≡◌, sym, ap, ◌∙◌, ◌⊎◌, inl, inr, String, Bool, true, false, Option, none, some, List, [],
  ◌∷◌, ◌++◌, All, All-map, ok, ◌==◌, string_eq, nat_eq, ltb, if◌then◌else◌, >>=-eq-ok, Bool-cases,
  arith,
}
use bauhinia_agent.Common.Dict.{of_list}
use bauhinia_agent.Promotion.Store.{
  lineage_before, promoted_among, newest, newest_of, previous_promoted,
}
use bauhinia_agent.Promotion.Service.{
  Host, Moment, PromotionResult, target_id, changed_payload, rollback_on_regression,
}
use bauhinia_agent.Promotion.Calls.{rollback-Back}
use bauhinia_agent.Promotion.History.{transition-Effect}
use bauhinia_agent.Common.{Unique}
use bauhinia_agent.Common.Dict.{keys}
use bauhinia_agent.Promotion.Gate.{created_in}
use bauhinia_agent.Promotion.Lineage.{
  IsEarlier, WasCreated, lineage_before-IsEarlier, lineage_before-WasCreated,
  lineage_before-created_in, of_list-lineage_before,
}

-- The events leave the artifact in the state Promoted.
abbrev pub IsPromoted : Log → String → Type 0
IsPromoted events id = replay_states id events candidate ≡ ok promoted

-- What `promoted_among` finds: versions that are promoted, and all of these.
record Among (events : Log) (xs : List (String × ArtifactRecord)) (rs : List ArtifactRecord)
    : Type 1 where
  pub sound :
      (P : String × ArtifactRecord → Type 0)
      → All (λ x. (x.1.artifact_id ≡ x.0) × P x) xs
      → All (λ r. P (r.artifact_id, r) × IsPromoted events r.artifact_id) rs
  pub complete :
      (Q : ArtifactRecord → Type 0) → All Q rs → All (λ x. (¬ IsPromoted events x.0) ⊎ Q x.1) xs

records_ok_inj :
    {xs ys : List ArtifactRecord} → ◌≡◌ {A = Raises (List ArtifactRecord)} (ok xs) (ok ys) → xs ≡ ys
records_ok_inj h = cc

other_state :
    (events : Log) (id : String) (s : Lifecycle)
    → replay_states id events candidate ≡ ok s
    → (s == promoted) ≡ false
    → ¬ IsPromoted events id
other_state events id s now differs reached =
    let same : s ≡ promoted = lifecycle_ok_inj (sym now ∙ reached) in
    cc (sym ((lifecycle_beq_iff s promoted).1 same) ∙ differs)
  where
    lifecycle_ok_inj : {s t : Lifecycle} → ◌≡◌ {A = Raises Lifecycle} (ok s) (ok t) → s ≡ t
    lifecycle_ok_inj h = cc

promoted_among-Among :
    (events : Log) (xs : List (String × ArtifactRecord)) (rs : List ArtifactRecord)
    → promoted_among events xs ≡ ok rs
    → Among events xs rs
unfolding promoted_among
promoted_among-Among events [] rs h =
    subst (Among events []) (records_ok_inj h) (record { sound = λ P a. tt; complete = λ Q a. tt })
promoted_among-Among events ((id, r) ∷ xs) rs h =
    let (s, now, h1) = >>=-eq-ok (replay_states id events candidate) _ h in
    let (rest, found, h2) = >>=-eq-ok (promoted_among events xs) _ h1 in
    let ih = promoted_among-Among events xs rest found in
    elim (Bool-cases (s == promoted)) [
      | inl is_promoted ↦
          let reached : IsPromoted events id =
            now ∙ ap ok ((lifecycle_beq_iff s promoted).0 is_promoted) in
          subst (Among events ((id, r) ∷ xs))
            (ap (λ b. if b then r ∷ rest else rest) (sym is_promoted) ∙ records_ok_inj h2)
            (record {
              sound = λ P a. (
                (
                  subst (λ k. P (k, r)) (sym a.0.0) a.0.1,
                  subst (IsPromoted events) (sym a.0.0) reached,
                ),
                ih.sound P a.1,
              );
              complete = λ Q a. (inr a.0, ih.complete Q a.1);
            })
      | inr is_other ↦
          subst (Among events ((id, r) ∷ xs))
            (ap (λ b. if b then r ∷ rest else rest) (sym is_other) ∙ records_ok_inj h2)
            (record {
              sound = λ P a. ih.sound P a.1;
              complete = λ Q a. (inl (other_state events id s now is_other), ih.complete Q a);
            })
    ]

-- `newest` takes one of the records, and none of them is newer.
pub newest-All :
    (P : ArtifactRecord → Type 0) (best : ArtifactRecord) (rs : List ArtifactRecord)
    → P best
    → All P rs
    → P (newest best rs)
newest-All P best [] p h = p
newest-All P best (r ∷ rs) p h =
    newest-All P (if ltb best.payload.artifact_version r.payload.artifact_version then r else best)
      rs (pick (ltb best.payload.artifact_version r.payload.artifact_version)) h.1
  where
    pick : (b : Bool) → P (if b then r else best)
    pick true = h.0
    pick false = p

abbrev pub NoNewer : ArtifactRecord → List ArtifactRecord → Type 0
NoNewer best =
    All (λ (r : ArtifactRecord). r.payload.artifact_version ≤ best.payload.artifact_version)

pub newest-NoNewer :
    (best : ArtifactRecord) (rs : List ArtifactRecord) → NoNewer (newest best rs) (best ∷ rs)
newest-NoNewer best [] = (omega arith, tt)
newest-NoNewer best (r ∷ rs) =
    elim (Bool-cases (ltb best.payload.artifact_version r.payload.artifact_version)) [
      | inl newer ↦
          let ih = newest-NoNewer r rs in subst picked (sym newer) (ground (arith, newer, ih.0), ih)
      | inr older ↦
          let ih = newest-NoNewer best rs in
          subst picked (sym older) (ih.0, (ground (arith, older, ih.0), ih.1))
    ]
  where
    picked : Bool → Type 0
    picked b = NoNewer (newest (if b then r else best) rs) (best ∷ r ∷ rs)

-- An earlier version than `current` that the log created is not promoted, or is not newer than `r`.
abbrev pub NotNewer : Log → (current r : ArtifactRecord) → String × ArtifactRecord → Type 0
NotNewer events current r x =
    (¬ IsEarlier current x)
    ⊎ (¬ IsPromoted events x.0)
    ⊎ (x.1.payload.artifact_version ≤ r.payload.artifact_version)

-- What a rollback goes back to: nothing, where no earlier version that the log created is promoted, or
-- an earlier version that the log created and that is promoted, where none of these is newer.
abbrev pub IsNewestOf : Log → ArtifactRecord → Option ArtifactRecord → Type 0
IsNewestOf events current none =
    All (λ x. (¬ IsEarlier current x) ⊎ (¬ IsPromoted events x.0)) (created_in events)
IsNewestOf events current (some r) =
    IsEarlier current (r.artifact_id, r)
    × WasCreated r events
    × IsPromoted events r.artifact_id
    × All (NotNewer events current r) (created_in events)

newest_of-IsNewestOf :
    (events : Log) (current : ArtifactRecord) (rs : List ArtifactRecord)
    → Among events (lineage_before current events) rs
    → IsNewestOf events current (newest_of rs)
newest_of-IsNewestOf events current [] among =
    lineage_before-created_in (λ x. ¬ IsPromoted events x.0) current events
      (All-map _ _ (lineage_before current events)
        (λ x h. elim h [ inl away ↦ away | inr absurd ↦ λ p. absurd ]) (among.complete (λ r. ⊥) tt))
newest_of-IsNewestOf events current (r ∷ rs) among =
    let best = newest r rs in
    let sound =
      among.sound (λ x. IsEarlier current x × WasCreated x.1 events)
        (All-both (lineage_before current events) (lineage_before-IsEarlier current events)
          (lineage_before-WasCreated current events)) in
    let found =
      newest-All
        (λ r.
          (IsEarlier current (r.artifact_id, r) × WasCreated r events)
          × IsPromoted events r.artifact_id)
        r rs sound.0 sound.1 in
    (
      found.0.0,
      found.0.1,
      found.1,
      lineage_before-created_in
          (λ x.
            (¬ IsPromoted events x.0)
            ⊎ (x.1.payload.artifact_version ≤ best.payload.artifact_version))
          current events
          (among.complete (λ r. r.payload.artifact_version ≤ best.payload.artifact_version)
            (newest-NoNewer r rs)),
    )
  where
    All-both :
        (xs : List (String × ArtifactRecord))
        → All (IsEarlier current) xs
        → All (λ x. WasCreated x.1 events) xs
        → All (λ x. (x.1.artifact_id ≡ x.0) × (IsEarlier current x × WasCreated x.1 events)) xs
    All-both [] h k = tt
    All-both (x ∷ xs) h k = ((h.0.0, (h.0, k.0)), All-both xs h.1 k.1)

back_ok_inj :
    {x y : Option ArtifactRecord} → ◌≡◌ {A = Raises (Option ArtifactRecord)} (ok x) (ok y) → x ≡ y
back_ok_inj h = cc

previous_promoted-IsNewestOf :
    (events : Log) (id : String) (back : Option ArtifactRecord)
    → Unique (keys (created_in events))
    → previous_promoted events id ≡ ok back
    → (current : ArtifactRecord) × (artifact events id ≡ ok current)
      × IsNewestOf events current back
unfolding previous_promoted
previous_promoted-IsNewestOf events id back once h =
    let (current, found, h1) = >>=-eq-ok (artifact events id) _ h in
    let (rs, among, h2) =
      >>=-eq-ok (promoted_among events (of_list (lineage_before current events))) _ h1 in
    (
      current,
      found,
      subst (IsNewestOf events current) (back_ok_inj h2) (
          newest_of-IsNewestOf events current rs (
            subst (λ xs. Among events xs rs) (of_list-lineage_before current events once)
              (promoted_among-Among events _ rs among))),
    )

-- Where no artifact identifier is created twice in the log, a rollback that returns goes back to a
-- record that an event of the log created, of the same lineage and of a lower version, that is promoted
-- and such that no other lower version of the lineage that the log created is both promoted and newer;
-- or to nothing, where no lower version of the lineage that the log created is promoted. The event that
-- it appends names that version as its target. Where the store fails, it says so and leaves the log as
-- it was.
pub rollback_to_newest :
    (host : Host) (moment : Moment) (id report_id impact_scope reason : String) (events after : Log)
    (result : PromotionResult)
    → Unique (keys (created_in events))
    → rollback_on_regression host moment id report_id impact_scope reason events
      ≡ ok (result, after)
    → (current : ArtifactRecord) × (artifact events id ≡ ok current)
      × (back : Option ArtifactRecord) × IsNewestOf events current back
      × (((result.persisted ≡ false) × (after ≡ events))
          ⊎ ((result.persisted ≡ true)
              × (e : EvoEvent) × (c : PromotionChanged) × (after ≡ events ++ e ∷ [])
              × (e.payload ≡ promotion_changed c)
              × (c.rollback_target ≡ target_id host back)))
rollback_to_newest host moment id report_id impact_scope reason events after result once h =
    let b = rollback-Back host moment id report_id impact_scope reason events (result, after) h in
    let (current, found, best) = previous_promoted-IsNewestOf events id b.back once b.previous in
    let effect =
      (transition-Effect host moment id b.through.change events (result, after) b.through.ran).1 in
    (
      current,
      found,
      b.back,
      best,
      elim effect [
        | inl failed ↦ inl failed
        | inr (kept, w) ↦
            inr
              (kept, w.event, changed_payload host b.through.change, w.is_last, w.change, b.back_to)
      ],
    )
