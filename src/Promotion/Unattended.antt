-- ===== src/Promotion/Unattended.antt =====
-- PromotionGate of evolution/promotion.py promotes nothing by itself.
use bauhinia_agent.Common.{
  ◌≡◌, refl, sym, ap, ◌∙◌, ◌⊎◌, inl, inr, String, Option, none, some, [], ◌∷◌, ◌++◌, Result, ok,
  err, ◌>>=◌, map_err, ◌==◌, nat_eq, string_eq, >>=-eq-ok, require-eq-ok, Bool-cases,
}
use bauhinia_agent.Promotion.{
  Lifecycle, shadow, promoted, lifecycle_eq, Comparison, EvoEvent, Log, Raises, state, names,
}
use bauhinia_agent.Promotion.Store.{Report}
use bauhinia_agent.Promotion.Service.{
  Host, Moment, PromotionResult, validate_from_report, reject_from_report,
}
use bauhinia_agent.Promotion.{created, after_event}
use bauhinia_agent.Promotion.Calls.{Call, perform}
use bauhinia_agent.Promotion.Calls.{validates, rejects}
use bauhinia_agent.Promotion.History.{state-snoc}
use bauhinia_agent.Promotion.Approval.{Approved, promotion_needs_approval}
use bauhinia_agent.Promotion.{comparison_completed}
use bauhinia_agent.Promotion.History.{state-snoc}
use bauhinia_agent.Promotion.Gate.{
  lifecycle_raises, GateResult, Compared, settle, evaluate_and_validate, requires_rejection,
}

map_err-eq-ok {ℓ κ μ} :
    {E : Type ℓ} {F : Type κ} {A : Type μ} (f : E → F) (m : Result E A) {a : A}
    → map_err f m ≡ ok a
    → m ≡ ok a
map_err-eq-ok f (ok x) h = cc
map_err-eq-ok f (err e) h = cc

-- A comparison appends the event of its report, or nothing.
abbrev pub Adds : Log → Log → Type 0
Adds events after =
    (after ≡ events)
    ⊎ ((e : EvoEvent) × (c : Comparison) × (after ≡ events ++ e ∷ [])
        × (e.payload ≡ comparison_completed c))

-- A comparison changes no state.
compared_state :
    (events after : Log) (x : String) → Adds events after → state after x ≡ state events x
compared_state events after x (inl same) = ap (λ log. state log x) same
compared_state events after x (inr (e, c, grown, payload)) =
    ap (λ log. state log x) grown ∙ state-snoc x events e (ap created payload) ∙ go (state events x)
  where
    go : (m : Raises Lifecycle) → (m >>= λ s. after_event x e s) ≡ m
    go (err y) = refl
    go (ok s) = elim (Bool-cases (names e.artifact_id x)) [
      | inl own ↦ rw (own, payload)
      | inr differs ↦ rw differs
    ]

module _ (host : Host) (lower : String → String) where
  by_call :
      (moment : Moment) (call : Call) (x : String) (events after : Log) (result : PromotionResult)
      → ¬ Approved host call events
      → perform host moment call events ≡ ok (result, after)
      → state after x ≡ ok promoted
      → state events x ≡ ok promoted
  by_call moment call x events after result never h now =
      elim (promotion_needs_approval host moment call x events after result h now) [
        | inl before ↦ before
        | inr (own, approved) ↦ absurd (never approved)
      ]

  settled :
      (moment : Moment) (id x : String) (c : Compared) (o : Option Report) (result : GateResult)
      (after : Log)
      → settle host lower moment id c o ≡ ok (result, after)
      → state after x ≡ ok promoted
      → state c.log x ≡ ok promoted
  settled moment id x c none result after h now =
      let same : c.log ≡ after = cc h in ap (λ log. state log x) same ∙ now
  settled moment id x c (some report) result after h now = elim (Bool-cases report.1.eligible) [
    | inl fit ↦
        let ((done, mid), ran, end) =
          >>=-eq-ok (validate_from_report host moment id report.1.report_id c.log) _
            (rw (settle, fit) at h) in
        let same : mid ≡ after = cc end in
        by_call moment (validates id report.1.report_id) x c.log mid done (λ a. a) ran
          (ap (λ log. state log x) same ∙ now)
    | inr unfit ↦ elim (Bool-cases (requires_rejection lower report.1)) [
      | inl bad ↦
          let reason : String =
            "Candidate showed a material held-out regression or reward-integrity violation." in
          let ((done, mid), ran, end) =
            >>=-eq-ok (reject_from_report host moment id report.1.report_id reason c.log) _
              (rw (settle, unfit, bad) at h) in
          let same : mid ≡ after = cc end in
          by_call moment (rejects id report.1.report_id reason) x c.log mid done (λ a. a) ran
            (ap (λ log. state log x) same ∙ now)
      | inr mild ↦
          let same : c.log ≡ after = cc (rw (settle, unfit, mild) at h) in
          ap (λ log. state log x) same ∙ now
    ]
  ]

  -- The gate may validate or reject, but never promotes: if its comparison adds at most a report, an
  -- artifact that is Promoted after it was Promoted before it.
  pub gate_never_promotes :
      (comparing : Log → Result String Compared) (moment : Moment) (id x : String)
      (events after : Log) (result : GateResult) (c : Compared)
      → comparing events ≡ ok c
      → Adds events c.log
      → evaluate_and_validate host lower comparing moment id events ≡ ok (result, after)
      → state after x ≡ ok promoted
      → state events x ≡ ok promoted
  unfolding evaluate_and_validate
  gate_never_promotes comparing moment id x events after result c compared adds h now =
      let (current, before, h1) = >>=-eq-ok (map_err lifecycle_raises (state events id)) _ h in
      let (in_shadow, h2) = require-eq-ok (current == shadow) _ _ h1 in
      let h3 = rw compared at h2 in
      let last = map_err-eq-ok lifecycle_raises (settle host lower moment id c c.report) h3 in
      sym (compared_state events c.log x adds)
      ∙ settled moment id x c c.report result after last now
