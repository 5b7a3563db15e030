-- ===== src/Promotion/Walks.antt =====
-- The walk of an artifact through the lifecycle, over the whole log of evolution/promotion.py.
use mathlib.Core.Path.{subst}
use text.Mathlib.TextEquality.{eq_iff}
use bauhinia_agent.Common.{
  ℕ, ◌+◌, ◌≡◌, refl, sym, ap, ◌∙◌, inl, inr, String, Bool, true, false, ◌&&◌, none, some, [], ◌∷◌,
  ◌++◌, ok, ◌>>=◌, ◌==◌, nat_eq, string_eq, if◌then◌else◌, beq_refl, >>=-eq-ok, Bool-cases, arith,
}
use bauhinia_agent.Promotion.{
  Lifecycle, candidate, shadow, validated, promoted, deprecated, rejected, lifecycle_eq, Payload,
  experience_created, review_recorded, artifact_created, shadow_trial_recorded, evidence_recorded,
  comparison_completed, other_payload, promotion_changed, EvoEvent, Log, ArtifactRecord, Raises,
  evo_id, artifact, state, names, target_of,
}
use bauhinia_agent.Promotion.Service.{Host, Moment, PromotionResult, Transition, changed_payload}
use bauhinia_agent.Promotion.{after_event, replay_states, evo_id}
use bauhinia_agent.Promotion.Calls.{
  Call, subject_of, ◌⟶◌, enter, validate, promote, reject_shadow, reject_validated, roll_back,
  perform, perform-Through,
}
use bauhinia_agent.Promotion.History.{Effect, Written, transition-Effect, after_own, after_other}
use bauhinia_agent.Promotion.History.{replay_states-snoc}
use bauhinia_agent.Common.{◌≤◌, suc, string_eq}

-- The walks from Candidate, by their number of transitions.
pub data Walk : ℕ → Lifecycle → Type 0 where
  created_as : Walk 0 candidate
  onward : {n : ℕ} {s t : Lifecycle} → Walk n s → s ⟶ t → Walk (suc n) t

abbrev is_change : Payload → Bool
is_change (promotion_changed p) = true
is_change _ = false

-- How often the state of the artifact was changed.
abbrev pub changes : String → Log → ℕ
changes id [] = 0
changes id (e ∷ es) =
    let rest = changes id es in
    if names e.artifact_id id && is_change e.payload then suc rest else rest

-- The logs that calls of the service make, among any other events.
pub data Reachable (host : Host) : Log → Type 0 where
  empty : Reachable host []
  other :
      (log : Log) (e : EvoEvent)
      → is_change e.payload ≡ false
      → Reachable host log
      → Reachable host (log ++ e ∷ [])
  called :
      (moment : Moment) (call : Call) (log after : Log) (result : PromotionResult)
      → perform host moment call log ≡ ok (result, after)
      → Reachable host log
      → Reachable host after

changes-snoc :
    (id : String) (log : Log) (e : EvoEvent)
    → changes id (log ++ e ∷ []) ≡ (
        if names e.artifact_id id && is_change e.payload
        then suc (changes id log)
        else changes id log)
changes-snoc id [] e = refl
changes-snoc id (d ∷ log) e = ground (arith, changes-snoc id log e)

-- The events so far put the artifact at the end of a walk.
abbrev Walked : String → Log → Type 0
Walked id log = (s : Lifecycle) × (replay_states id log candidate ≡ ok s) × Walk (changes id log) s

still_there :
    (id : String) (log : Log) (e : EvoEvent)
    → (names e.artifact_id id && is_change e.payload) ≡ false
    → ((s : Lifecycle) → after_event id e s ≡ ok s)
    → Walked id log
    → Walked id (log ++ e ∷ [])
still_there id log e plain stays (s, now, walk) = (
  s,
  replay_states-snoc id log e candidate
      ∙ ap (λ (m : Raises Lifecycle). m >>= λ t. after_event id e t) now
      ∙ stays s,
  subst (λ n. Walk n s) (sym (changes-snoc id log e ∙ ground (arith, plain))) walk,
)

no_target : (p : Payload) → is_change p ≡ false → target_of p ≡ none
no_target (promotion_changed p) h = cc
no_target (experience_created p) h = refl
no_target (review_recorded p) h = refl
no_target (artifact_created p) h = refl
no_target (shadow_trial_recorded p) h = refl
no_target (evidence_recorded p) h = refl
no_target (comparison_completed p) h = refl
no_target (other_payload t) h = refl

after_plain :
    (id : String) (e : EvoEvent) (s : Lifecycle)
    → is_change e.payload ≡ false
    → after_event id e s ≡ ok s
after_plain id e s h = elim (Bool-cases (names e.artifact_id id)) [
  | inl own ↦ rw (own, no_target e.payload h)
  | inr differs ↦ rw differs
]

-- The state is what the events give, for an artifact that exists.
state-replay :
    (log : Log) (id : String) {s : Lifecycle}
    → state log id ≡ ok s
    → replay_states id log candidate ≡ ok s
unfolding state
state-replay log id h =
    let (u, well, h1) = >>=-eq-ok (evo_id id "artifact_id") _ h in
    let (a, found, h2) = >>=-eq-ok (artifact log id) _ h1 in h2

state-of_replay :
    (log : Log) (id : String) (a : ArtifactRecord) {s : Lifecycle}
    → artifact log id ≡ ok a
    → replay_states id log candidate ≡ ok s
    → state log id ≡ ok s
unfolding state artifact
state-of_replay log id a found now =
    let (u, well, h1) = >>=-eq-ok (evo_id id "artifact_id") _ found in
    rw (well, state, artifact)
      (ap (λ (m : Raises ArtifactRecord). m >>= λ r. replay_states id log candidate) h1 ∙ now)

-- The length of the longest walk to a state.
abbrev depth : Lifecycle → ℕ
depth candidate = 0
depth shadow = 1
depth validated = 2
depth promoted = 3
depth rejected = 3
depth deprecated = 4

deeper : (s t : Lifecycle) → s ⟶ t → depth s + 1 ≤ depth t
deeper _ _ enter = omega arith
deeper _ _ validate = omega arith
deeper _ _ promote = omega arith
deeper _ _ reject_shadow = omega arith
deeper _ _ reject_validated = omega arith
deeper _ _ roll_back = omega arith

Walk-depth : (n : ℕ) (s : Lifecycle) → Walk n s → n ≤ depth s
Walk-depth _ _ created_as = omega arith
Walk-depth _ t (onward {n = n} {s = s} walk edge) =
    omega (arith, Walk-depth n s walk, deeper s t edge)

depth_bound : (s : Lifecycle) → depth s ≤ 4
depth_bound s = ground arith

module _ (host : Host) where
  moved :
      (moment : Moment) (call : Call) (log after : Log) (result : PromotionResult) (x : String)
      → perform host moment call log ≡ ok (result, after)
      → Walked x log
      → Walked x after
  moved moment call log after result x h (s, now, walk) =
      let id = subject_of call in
      let through = perform-Through host moment call log (result, after) h in
      let t = through.change in
      let (before, effect) = transition-Effect host moment id t log (result, after) through.ran in
      go t through.edge before effect
    where
      at_from : (t : Transition) → replay_states x log candidate ≡ ok t.from → s ≡ t.from
      at_from t there = cc (sym now ∙ there)

      own :
          (t : Transition)
          → t.from ⟶ t.target
          → state log (subject_of call) ≡ ok t.from
          → (w : Written host (subject_of call) t log after) → subject_of call ≡ x
          → Walked x (log ++ w.event ∷ [])
      own t edge before w eq =
          let owner = w.owner ∙ ap some eq in
          let there =
            ap (λ i. replay_states i log candidate) (sym eq)
            ∙ state-replay log (subject_of call) before in
          (
            t.target,
            replay_states-snoc x log w.event candidate
                ∙ ap (λ (m : Raises Lifecycle). m >>= λ u. after_event x w.event u) now
                ∙ after_own x w.event (changed_payload host t) t.target s owner w.change refl,
            subst (λ n. Walk n t.target)
                (sym (changes-snoc x log w.event ∙ rw (owner, w.change, beq_refl x) refl))
                (onward (subst (Walk (changes x log)) (at_from t there) walk) edge),
          )

      go :
          (t : Transition)
          → t.from ⟶ t.target
          → state log (subject_of call) ≡ ok t.from
          → Effect host (subject_of call) t log (result, after)
          → Walked x after
      go t edge before (inl (failed, same)) = subst (Walked x) (sym same) (s, now, walk)
      go t edge before (inr (kept, w)) =
          subst (Walked x) (sym w.is_last) (elim (Bool-cases (subject_of call == x)) [
            | inr differs ↦
                still_there x log w.event (rw (w.owner, differs) refl)
                  (λ u. after_other (subject_of call) x w.event u w.owner differs) (s, now, walk)
            | inl same ↦ own t edge before w ((eq_iff (subject_of call) x).0 same)
          ])

  walked : (x : String) (log : Log) → Reachable host log → Walked x log
  unfolding replay_states
  walked x _ empty = (candidate, refl, created_as)
  walked x _ (other log e plain reached) =
      still_there x log e (ground (arith, plain)) (λ s. after_plain x e s plain)
        (walked x log reached)
  walked x _ (called moment call log after result h reached) =
      moved moment call log after result x h (walked x log reached)

  -- In a log that calls of the service make one at a time, among other events that are no promotion
  -- changes, the state of an artifact of the log can be read, and is the end of a walk through the
  -- lifecycle from Candidate, of as many transitions as the log has changes of the artifact, which
  -- are four at most.
  pub lifecycle-Walk :
      (log : Log) (id : String) (a : ArtifactRecord)
      → Reachable host log
      → artifact log id ≡ ok a
      → (s : Lifecycle) × (state log id ≡ ok s) × Walk (changes id log) s × (changes id log ≤ 4)
  lifecycle-Walk log id a reached found =
      let (s, now, walk) = walked id log reached in
      (
        s,
        state-of_replay log id a found now,
        walk,
        omega (arith, Walk-depth (changes id log) s walk, depth_bound s),
      )
