-- ===== src/Promotion/Approval.antt =====
-- An artifact of evolution/promotion.py becomes Promoted by a human approval only.
use text.Mathlib.TextEquality.{eq_iff}
use bauhinia_agent.Common.{
  ◌≡◌, refl, sym, ap, ◌∙◌, ◌⊎◌, inl, inr, String, ok, ◌>>=◌, ◌==◌, nat_eq, string_eq, Bool-cases,
}
use bauhinia_agent.Promotion.{Lifecycle, promoted, lifecycle_eq, Log, Raises, state}
use bauhinia_agent.Promotion.Service.{Host, Moment, PromotionResult, changed_payload}
use bauhinia_agent.Promotion.{created, after_event}
use bauhinia_agent.Promotion.Calls.{Call, subject_of, perform, perform-Through}
use bauhinia_agent.Promotion.Calls.{
  goal, starts_shadow, validates, approves, rejects, rolls_back, Approver, Supports,
  approve-Through,
}
use bauhinia_agent.Promotion.History.{transition-Effect, after_own, state-snoc, call-effect}

module _ (host : Host) where
  -- An approval by a known reviewer with the role of an approver, of a report that supports it.
  abbrev pub Approved : Call → Log → Type 0
  Approved (approves identity id report_id reviewer role reason) events =
      Approver host identity reviewer role × Supports host events id report_id
  Approved _ events = ⊥

  Approved-of :
      (moment : Moment) (call : Call) (events : Log) (r : PromotionResult × Log)
      → perform host moment call events ≡ ok r
      → goal call ≡ promoted
      → Approved call events
  Approved-of moment (approves identity id report_id reviewer role reason) events r h g =
      let (who, supports, through) =
        approve-Through host moment identity id report_id reviewer role reason events r h in
      (who, supports)
  Approved-of moment (starts_shadow id reviewer reason) events r h g = cc
  Approved-of moment (validates id report_id) events r h g = cc
  Approved-of moment (rejects id report_id reason) events r h g = cc
  Approved-of moment (rolls_back id report_id impact_scope reason) events r h g = cc

  pub call-target :
      (moment : Moment) (call : Call) (events after : Log) (result : PromotionResult)
      → perform host moment call events ≡ ok (result, after)
      → (after ≡ events) ⊎ (state after (subject_of call) ≡ ok (goal call))
  call-target moment call events after result h =
      let id = subject_of call in
      let through = perform-Through host moment call events (result, after) h in
      let t = through.change in
      let (now, effect) = transition-Effect host moment id t events (result, after) through.ran in
      elim effect [
        | inl (failed, same) ↦ inl same
        | inr (kept, w) ↦ inr (
            ap (λ log. state log id) w.is_last
            ∙ state-snoc id events w.event (ap created w.change)
            ∙ ap (λ (m : Raises Lifecycle). m >>= λ s. after_event id w.event s) now
            ∙ after_own id w.event (changed_payload host t) t.target t.from w.owner w.change refl
            ∙ ap ok through.reaches)
      ]

  state_ok_inj : {s t : Lifecycle} → ◌≡◌ {A = Raises Lifecycle} (ok s) (ok t) → s ≡ t
  state_ok_inj h = cc

  -- No call of the service promotes an artifact but an approval of that artifact, by a reviewer who
  -- was authenticated, is the one named and is a maintainer or owner, for a report that is the latest
  -- one of the artifact, is eligible, and follows from the facts before it. An artifact that is
  -- Promoted after any call that returns was so before, or was approved like this by the call.
  pub promotion_needs_approval :
      (moment : Moment) (call : Call) (x : String) (events after : Log) (result : PromotionResult)
      → perform host moment call events ≡ ok (result, after)
      → state after x ≡ ok promoted
      → (state events x ≡ ok promoted) ⊎ ((subject_of call ≡ x) × Approved call events)
  promotion_needs_approval moment call x events after result h now =
      elim (Bool-cases (subject_of call == x)) [
        | inr differs ↦
            let (from, to, edge, before, stays, own) =
              call-effect host moment call x events after result h differs in
            inl (sym stays ∙ now)
        | inl same ↦
            let eq = (eq_iff (subject_of call) x).0 same in
            elim (call-target moment call events after result h) [
              | inl unchanged ↦ inl (ap (λ log. state log x) (sym unchanged) ∙ now)
              | inr moved ↦ inr (
                eq,
                Approved-of moment call events (result, after) h
                    (state_ok_inj (sym moved ∙ ap (state after) eq ∙ now)),
              )
            ]
      ]
