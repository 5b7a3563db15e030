-- ===== src/Permissions/Manager/Answers.antt =====
-- The answers of the user: what they allow, and which grants they save.
use bauhinia_agent.Common.{
  strip, String, ◌≡◌, ◌≢◌, ◌⊎◌, inl, inr, refl, sym, ◌∙◌, ap, true, Option, none, some, string_eq,
  Bool-cases, is_empty_text,
}
use bauhinia_agent.Permissions.Manager.Choices.{normalize_choice-Meant}
use bauhinia_agent.Permissions.Types.{
  Platform, PermissionDecision, allow, deny, ask, PermissionConfirmationChoice, deny_choice,
  reject_with_feedback, allow_once, allow_always_same_scope, action_eq,
}
use bauhinia_agent.Permissions.Policy.{Request, flag}
use bauhinia_agent.Permissions.Manager.{
  Manager, normalize_request, check, preflight, normalize_choice, settle, resolve_confirmation,
  allow_always,
}
use bauhinia_agent.Permissions.Manager.Guard.{guard-check}
use bauhinia_agent.Permissions.Manager.Resolved.{Resolved, settle-Resolved}

module _ (os : Platform) (m : Manager os) (r : Request os) where
  -- What an answer may do: leave the grants, or save one that allows the request's own scope.
  abbrev pub Settled :
      Option PermissionConfirmationChoice
      → (now : String) → PermissionDecision × Manager os
      → Type 0
  Settled choice now out =
      ((out.0.kind ≡ deny) × (out.1 ≡ m))
      ⊎ ((out.0 ≡ check os m r) × (out.1 ≡ m) × (out.0.kind ≡ allow))
      ⊎ ((choice ≡ some allow_once)
          × ((check os m r).kind ≡ ask)
          × (out.0.kind ≡ allow)
          × (out.1 ≡ m))
      ⊎ ((choice ≡ some allow_always_same_scope)
          × ((check os m r).kind ≡ ask)
          × (flag os "allow_always" r ≡ true)
          × (out ≡ allow_always os now m r))

  pub settle-Settled :
      (c : Option PermissionConfirmationChoice × String) (choice now : String)
      → Settled c.0 now (settle os c choice now m r)
  settle-Settled (none, feedback) choice now = inl (refl, refl)
  settle-Settled (some deny_choice, feedback) choice now = inl (refl, refl)
  settle-Settled (some reject_with_feedback, feedback) choice now =
      elim (Bool-cases (is_empty_text feedback)) [
        | inl empty ↦ rw empty (inl (refl, refl))
        | inr full ↦ rw full (inl (refl, refl))
      ]
  settle-Settled (some allow_once, feedback) choice now = elim (guard-check os m r) [
    | inl (passes, asks, missing) ↦ rw (passes, settle) (inr (inr (inl (refl, asks, refl, refl))))
    | inr (stopped, kind) ↦
        rw (stopped, settle)
          (elim kind [
            | inl denies ↦ inl (denies, refl)
            | inr allows ↦ inr (inl (refl, refl, allows))
          ])
  ]
  settle-Settled (some allow_always_same_scope, feedback) choice now =
      elim (Bool-cases (flag os "allow_always" r)) [
        | inr disabled ↦ rw (disabled, settle) (inl (refl, refl))
        | inl enabled ↦ elim (guard-check os m r) [
          | inl (passes, asks, missing) ↦
              rw (enabled, passes, settle) (inr (inr (inr (refl, asks, refl, refl))))
          | inr (stopped, kind) ↦
              rw (enabled, stopped, settle)
                (elim kind [
                  | inl denies ↦ inl (denies, refl)
                  | inr allows ↦ inr (inl (refl, refl, allows))
                ])
        ]
      ]

-- Whatever text the user answers, one of four things happens.
resolve_confirmation-Settled :
    (os : Platform) (m : Manager os) (r : Request os) (choice now : String)
    → Settled os m
        (normalize_request os m.project_root r)
        (normalize_choice os choice).0
        now
        (resolve_confirmation os choice now m r)
unfolding resolve_confirmation
resolve_confirmation-Settled os m r choice now =
    settle-Settled os m (normalize_request os m.project_root r) (normalize_choice os choice) choice
      now

-- What an answer does is told by its text without the spaces around it and in lower case. "2" and
-- "allow_once": where the check asks, the request is allowed and the manager stays; where it does not
-- ask, its decision is returned and the manager stays. "3" and "allow_always_same_scope": a request
-- that forbids it is denied and the manager stays; otherwise, where the check asks, the request is
-- allowed and one grant that allows its action in its own scope is put at the end of the grants, and
-- where it does not ask, its decision is returned and the manager stays. Every other text denies the
-- request and the manager stays.
pub resolve_confirmation_outcome :
    (os : Platform) (m : Manager os) (r : Request os) (choice now : String)
    → Resolved os m
        (normalize_request os m.project_root r)
        (os.lower (strip choice))
        (resolve_confirmation os choice now m r)
unfolding resolve_confirmation
resolve_confirmation_outcome os m r choice now =
    settle-Resolved os m (normalize_request os m.project_root r) (os.lower (strip choice))
      (normalize_choice os choice).0 (normalize_choice os choice).1 choice now
      (normalize_choice-Meant os choice)

-- No answer overrides a denial: a request that `preflight` denies is denied whatever the user
-- answers, and no grant is saved.
pub denied_stays_denied :
    (os : Platform) (m : Manager os) (r : Request os) (choice now : String)
    → (preflight os m r).kind ≡ deny
    → ((resolve_confirmation os choice now m r).0.kind ≡ deny)
      × ((resolve_confirmation os choice now m r).1 ≡ m)
unfolding preflight
denied_stays_denied os m r choice now h = elim (resolve_confirmation-Settled os m r choice now) [
  | inl denied ↦ denied
  | inr (inl (same, kept, allows)) ↦ (ap (λ (d : PermissionDecision). d.kind) same ∙ h, kept)
  | inr (inr (inl (chosen, asks, allows, kept))) ↦ absurd (apart (sym h ∙ asks))
  | inr (inr (inr (chosen, asks, enabled, saved))) ↦ absurd (apart (sym h ∙ asks))
]
  where
    apart : deny ≢ ask
    apart e = cc
