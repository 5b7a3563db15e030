-- ===== src/Promotion/History.antt =====
-- The states of artifacts along the log of evolution/promotion.py.
use bauhinia_agent.Common.{
  ◌+◌, ◌≡◌, refl, sym, ap, ◌∙◌, ◌⊎◌, inl, inr, String, Bool, true, false, not, Option, none, some,
  [], ◌∷◌, ◌++◌, map, elem, length, ok, err, ◌>>=◌, ◌==◌, nat_eq, string_eq, if◌then◌else◌,
  is_blank, beq_refl, >>=-eq-ok, require-eq-ok, Bool-cases,
}
use bauhinia_agent.Promotion.{
  Lifecycle, candidate, shadow, validated, promoted, deprecated, rejected, lifecycle_text,
  lifecycle_eq, lifecycle_beq_iff, promotion_changed, EvoEvent, Log, ArtifactRecord, Raises, evo_id,
  artifact, state, names,
}
use bauhinia_agent.Promotion.Store.{
  Trouble, no_trouble, write_fails, projection_fails, StoreError, duplicate_event, AppendResult,
  append, appended,
}
use bauhinia_agent.Promotion.Service.{
  Host, Moment, PromotionResult, Transition, changed_event, changed_payload, transition,
}
use bauhinia_agent.Promotion.{
  PromotionChanged, record_of, created, find_artifact, first_of, after_event, replay_states,
  lifecycle_of_text, evo_id,
}
use bauhinia_agent.Promotion.Service.{recorded, promotion_record, require_reviewer}
use bauhinia_agent.Promotion.Calls.{Call, subject_of, ◌⟶◌, perform, perform-Through}

lifecycle_of_text-lifecycle_text : (s : Lifecycle) → lifecycle_of_text (lifecycle_text s) ≡ ok s
unfolding lifecycle_of_text
lifecycle_of_text-lifecycle_text candidate = refl
lifecycle_of_text-lifecycle_text shadow = refl
lifecycle_of_text-lifecycle_text validated = refl
lifecycle_of_text-lifecycle_text promoted = refl
lifecycle_of_text-lifecycle_text deprecated = refl
lifecycle_of_text-lifecycle_text rejected = refl

-- The states after a further event.
pub replay_states-snoc :
    (id : String) (events : Log) (e : EvoEvent) (s : Lifecycle)
    → replay_states id (events ++ e ∷ []) s
      ≡ (replay_states id events s >>= λ t. after_event id e t)
unfolding replay_states
replay_states-snoc id [] e s = last (after_event id e s)
  where
    last : (m : Raises Lifecycle) → (m >>= λ t. ok t) ≡ m
    last (ok t) = refl
    last (err x) = refl
replay_states-snoc id (d ∷ events) e s =
    go (after_event id d s) (λ t. replay_states-snoc id events e t)
  where
    go :
        (m : Raises Lifecycle)
        → ((t : Lifecycle)
            → replay_states id (events ++ e ∷ []) t
              ≡ (replay_states id events t >>= λ u. after_event id e u))
        → (m >>= λ t. replay_states id (events ++ e ∷ []) t)
          ≡ ((m >>= λ t. replay_states id events t) >>= λ t. after_event id e t)
    go (ok t) ih = ih t
    go (err x) ih = refl

-- An event that creates no artifact leaves what is found.
find_artifact-snoc :
    (id : String) (events : Log) (e : EvoEvent)
    → created e.payload ≡ none
    → find_artifact id (events ++ e ∷ []) ≡ find_artifact id events
unfolding find_artifact
find_artifact-snoc id [] e h = rw h (nothing (names e.artifact_id id) e.artifact_id)
  where
    nothing :
        (b : Bool) (o : Option String)
        → first_of (if b then record_of e o none else none) none ≡ none
    nothing true none = refl
    nothing true (some x) = refl
    nothing false o = refl
find_artifact-snoc id (d ∷ events) e h =
    ap
      (first_of
        (if names d.artifact_id id then record_of d d.artifact_id (created d.payload) else none))
      (find_artifact-snoc id events e h)

artifact-snoc :
    (id : String) (events : Log) (e : EvoEvent)
    → created e.payload ≡ none
    → artifact (events ++ e ∷ []) id ≡ artifact events id
unfolding artifact
artifact-snoc id events e h = rw (find_artifact-snoc id events e h) refl

-- The state of an artifact after an event that creates none.
pub state-snoc :
    (id : String) (events : Log) (e : EvoEvent)
    → created e.payload ≡ none
    → state (events ++ e ∷ []) id ≡ (state events id >>= λ t. after_event id e t)
unfolding state
state-snoc id events e h =
    rw (artifact-snoc id events e h, replay_states-snoc id events e candidate)
      (go (evo_id id "artifact_id") (artifact events id) (replay_states id events candidate))
  where
    go :
        (a : Raises (Unit {0})) (b : Raises ArtifactRecord) (m : Raises Lifecycle)
        → (a >>= λ _. b >>= λ _. m >>= λ t. after_event id e t)
          ≡ ((a >>= λ _. b >>= λ _. m) >>= λ t. after_event id e t)
    go (err x) b m = refl
    go (ok tt) (err x) m = refl
    go (ok tt) (ok r) m = refl

-- The event of a change moves its own artifact, and no other.
pub after_own :
    (id : String) (e : EvoEvent) (p : PromotionChanged) (to s : Lifecycle)
    → e.artifact_id ≡ some id
    → e.payload ≡ promotion_changed p
    → p.to_state ≡ lifecycle_text to
    → after_event id e s ≡ ok to
after_own id e p to s owner changed text =
    rw (owner, changed, beq_refl id, text) (lifecycle_of_text-lifecycle_text to)

pub after_other :
    (id x : String) (e : EvoEvent) (s : Lifecycle)
    → e.artifact_id ≡ some id
    → (id == x) ≡ false
    → after_event x e s ≡ ok s
after_other id x e s owner differs = rw (owner, differs)

-- What `append` makes of a new event.
pub append-outcome :
    (trouble : Trouble) (e : EvoEvent) (events : Log)
    → e.sequence ≡ none
    → ((x : StoreError) × (append trouble e events ≡ err x))
      ⊎ ((d : AppendResult) × (append trouble e events
            ≡ ok (d, events ++ record e { sequence = some (length events + 1) } ∷ [])))
unfolding append
append-outcome trouble e events new =
    elim (Bool-cases (elem e.event_id (map (λ (x : EvoEvent). x.event_id) events))) [
      | inl known ↦ inl (duplicate_event e.event_id, rw known refl)
      | inr fresh ↦ rw (fresh, new) (go trouble)
    ]
  where
    go :
        (t : Trouble)
        → ((x : StoreError) × (appended t (record e { sequence = some (length events + 1) }) events
              ≡ err x))
          ⊎ ((d : AppendResult) × (appended t
                  (record e { sequence = some (length events + 1) })
                  events
                ≡ ok (d, events ++ record e { sequence = some (length events + 1) } ∷ [])))
    go no_trouble = inr (_, refl)
    go (write_fails m) = inl (_, refl)
    go (projection_fails m) = inr (_, refl)

module _ (host : Host) where
  -- What a transition leaves: nothing, or one event of the artifact with the change.
  pub record Written (id : String) (t : Transition) (events after : Log) : Type 0 where
    pub event : EvoEvent
    pub is_last : after ≡ events ++ event ∷ []
    pub owner : event.artifact_id ≡ some id
    pub change : event.payload ≡ promotion_changed (changed_payload host t)

  abbrev pub Effect : String → Transition → Log → PromotionResult × Log → Type 0
  Effect id t events r =
      ((r.0.persisted ≡ false) × (r.1 ≡ events))
      ⊎ ((r.0.persisted ≡ true) × Written id t events r.1)

  ok_inj :
      {x y : PromotionResult × Log} → ◌≡◌ {A = Raises (PromotionResult × Log)} (ok x) (ok y) → x ≡ y
  ok_inj h = cc

  recorded-Effect :
      (moment : Moment) (id : String) (t : Transition) (events : Log) (a : ArtifactRecord)
      (r : PromotionResult × Log)
      → recorded host
          (promotion_record host moment a id t)
          events
          (append moment.trouble (changed_event host moment events a id t) events)
        ≡ r
      → Effect id t events r
  recorded-Effect moment id t events a r h =
      let e = changed_event host moment events a id t in
      elim (append-outcome moment.trouble e events refl) [
        | inl (x, failed) ↦
            let left =
              ap (recorded host (promotion_record host moment a id t) events) (sym failed) ∙ h in
            inl (
              ap (λ (y : PromotionResult × Log). y.0.persisted) (sym left),
              ap (λ (y : PromotionResult × Log). y.1) (sym left),
            )
        | inr (d, done) ↦
            let left =
              ap (recorded host (promotion_record host moment a id t) events) (sym done) ∙ h in
            inr (
              ap (λ (y : PromotionResult × Log). y.0.persisted) (sym left),
              record {
                event = record e { sequence = some (length events + 1) };
                is_last = ap (λ (y : PromotionResult × Log). y.1) (sym left);
                owner = refl;
                change = refl;
              },
            )
      ]

  pub transition-Effect :
      (moment : Moment) (id : String) (t : Transition) (events : Log) (r : PromotionResult × Log)
      → transition host moment id t events ≡ ok r
      → (state events id ≡ ok t.from) × Effect id t events r
  unfolding transition
  transition-Effect moment id t events r h =
      let (a, found, h1) = >>=-eq-ok (artifact events id) _ h in
      let (current, now, h2) = >>=-eq-ok (state events id) _ h1 in
      let (same, h3) = require-eq-ok (current == t.from) _ _ h2 in
      let (reasoned, h4) = require-eq-ok (not (is_blank t.reason)) _ _ h3 in
      let (u, reviewed, h5) = >>=-eq-ok (require_reviewer t.reviewer) _ h4 in
      (
        now ∙ ap ok ((lifecycle_beq_iff current t.from).0 same),
        recorded-Effect moment id t events a r (ok_inj h5),
      )

  -- A call that returns moves its artifact along an edge of the lifecycle, or, where the store fails,
  -- says so and leaves the log as it was; the states of all other artifacts stay.
  pub call-effect :
      (moment : Moment) (call : Call) (other : String) (events after : Log)
      (result : PromotionResult)
      → perform host moment call events ≡ ok (result, after)
      → (subject_of call == other) ≡ false
      → (from : Lifecycle) × (to : Lifecycle) × (from ⟶ to)
        × (state events (subject_of call) ≡ ok from)
        × (state after other ≡ state events other)
        × (((result.persisted ≡ false) × (after ≡ events))
            ⊎ ((result.persisted ≡ true) × (state after (subject_of call) ≡ ok to)))
  call-effect moment call other events after result h differs =
      let id = subject_of call in
      let through = perform-Through host moment call events (result, after) h in
      let t = through.change in
      let (now, effect) = transition-Effect moment id t events (result, after) through.ran in
      (t.from, t.target, through.edge, now, others t effect, own t now effect)
    where
      stays :
          (x : String) (e : EvoEvent) (m : Raises Lifecycle)
          → ((s : Lifecycle) → after_event x e s ≡ ok s)
          → (m >>= λ s. after_event x e s) ≡ m
      stays x e (ok s) f = f s
      stays x e (err y) f = refl

      others :
          (t : Transition)
          → Effect (subject_of call) t events (result, after)
          → state after other ≡ state events other
      others t (inl (failed, same)) = ap (λ log. state log other) same
      others t (inr (kept, w)) =
          ap (λ log. state log other) w.is_last
          ∙ state-snoc other events w.event (ap created w.change)
          ∙ stays other w.event (state events other)
              (λ s. after_other (subject_of call) other w.event s w.owner differs)

      own :
          (t : Transition)
          → state events (subject_of call) ≡ ok t.from
          → Effect (subject_of call) t events (result, after)
          → ((result.persisted ≡ false) × (after ≡ events))
            ⊎ ((result.persisted ≡ true) × (state after (subject_of call) ≡ ok t.target))
      own t now (inl failed) = inl failed
      own t now (inr (kept, w)) =
          let id = subject_of call in
          inr (
            kept,
            ap (λ log. state log id) w.is_last
                ∙ state-snoc id events w.event (ap created w.change)
                ∙ ap (λ (m : Raises Lifecycle). m >>= λ s. after_event id w.event s) now
                ∙ after_own id w.event (changed_payload host t) t.target t.from w.owner w.change
                    refl,
          )
