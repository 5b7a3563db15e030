-- ===== src/Permissions/Manager/Resolved.antt =====
-- What the text of an answer makes of a request (`resolve_confirmation` of permissions/manager.py).
use bauhinia_agent.Common.{
  [], ◌∷◌, ◌++◌, false, String, ◌≡◌, ◌≢◌, ◌⊎◌, inl, inr, refl, sym, ◌∙◌, ap, true, Option, none,
  some, string_eq, Bool-cases, is_empty_text,
}
use mathlib.Core.Path.{subst}
use bauhinia_agent.Permissions.Manager.Choices.{Refuses, Meant, SaysOnce, SaysAlways}
use bauhinia_agent.Permissions.Types.{
  PermissionGrant, Platform, PermissionDecision, allow, deny, ask, PermissionConfirmationChoice,
  deny_choice, reject_with_feedback, allow_once, allow_always_same_scope, action_eq,
}
use bauhinia_agent.Permissions.Policy.{Request, flag}
use bauhinia_agent.Permissions.Manager.{
  Manager, check, settle, new_grant, default_scope_for_request,
}
use bauhinia_agent.Permissions.Manager.Guard.{guard-check}

module _ (os : Platform) (m : Manager os) (q : Request os) where
  -- The request is denied, and the manager stays.
  abbrev pub Refused : PermissionDecision × Manager os → Type 0
  Refused out = (out.0.kind ≡ deny) × (out.1 ≡ m)

  -- The check does not ask: what it says is returned, and the manager stays.
  abbrev pub Unasked : PermissionDecision × Manager os → Type 0
  Unasked out = ((check os m q).kind ≢ ask) × (out ≡ (check os m q, m))

  abbrev pub AllowedOnce : PermissionDecision × Manager os → Type 0
  AllowedOnce out = ((check os m q).kind ≡ ask) × (out.0.kind ≡ allow) × (out.1 ≡ m)

  -- The request is allowed, and the only change is a grant that allows the action of the request in
  -- its own scope, at the end of the grants.
  abbrev pub AllowedAlways : PermissionDecision × Manager os → Type 0
  AllowedAlways out =
      ((check os m q).kind ≡ ask)
      × (out.0.kind ≡ allow)
      × (g : PermissionGrant) × (out.1 ≡ record m { grants = m.grants ++ g ∷ [] })
      × (g.effect ≡ "allow")
      × (g.action ≡ q.action)
      × ((g.scope_type, g.scope_value) ≡ default_scope_for_request os m.project_root q)

  -- What the text `t` makes of the request.
  abbrev pub Resolved : (t : String) → PermissionDecision × Manager os → Type 0
  Resolved t out =
      (SaysOnce t × (AllowedOnce out ⊎ Unasked out))
      ⊎ (SaysAlways t
          × (((flag os "allow_always" q ≡ false) × Refused out)
              ⊎ ((flag os "allow_always" q ≡ true) × (AllowedAlways out ⊎ Unasked out))))
      ⊎ ((¬ SaysOnce t) × (¬ SaysAlways t) × Refused out)

  stopped_kind :
      (d : PermissionDecision)
      → d ≡ check os m q
      → (d.kind ≡ deny) ⊎ (d.kind ≡ allow)
      → (check os m q).kind ≢ ask
  stopped_kind d same (inl denies) asks =
      cc (sym denies ∙ ap (λ (x : PermissionDecision). x.kind) same ∙ asks)
  stopped_kind d same (inr allows) asks =
      cc (sym allows ∙ ap (λ (x : PermissionDecision). x.kind) same ∙ asks)

  settle-once :
      (feedback choice now : String)
      → AllowedOnce (settle os (some allow_once, feedback) choice now m q)
        ⊎ Unasked (settle os (some allow_once, feedback) choice now m q)
  settle-once feedback choice now = elim (guard-check os m q) [
    | inl (passes, asks, missing) ↦ rw (passes, settle) (inl (asks, refl, refl))
    | inr (stopped, kind) ↦ rw (stopped, settle) (inr (stopped_kind (check os m q) refl kind, refl))
  ]

  settle-always :
      (feedback choice now : String)
      → flag os "allow_always" q ≡ true
      → AllowedAlways (settle os (some allow_always_same_scope, feedback) choice now m q)
        ⊎ Unasked (settle os (some allow_always_same_scope, feedback) choice now m q)
  settle-always feedback choice now enabled = elim (guard-check os m q) [
    | inl (passes, asks, missing) ↦
        rw (enabled, passes, settle)
          (inl (asks, refl, new_grant os now m.project_root q, refl, refl, refl, refl))
    | inr (stopped, kind) ↦
        rw (enabled, stopped, settle) (inr (stopped_kind (check os m q) refl kind, refl))
  ]

  pub settle-Resolved :
      (t : String) (c : Option PermissionConfirmationChoice) (feedback choice now : String)
      → Meant os t c
      → Resolved t (settle os (c, feedback) choice now m q)
  settle-Resolved t c feedback choice now (inl (says, chosen)) =
      subst (λ c. Resolved t (settle os (c, feedback) choice now m q)) (sym chosen)
        (inl (says, settle-once feedback choice now))
  settle-Resolved t c feedback choice now (inr (inl (says, chosen))) =
      subst (λ c. Resolved t (settle os (c, feedback) choice now m q)) (sym chosen)
        (inr (
          inl (
            says,
            elim (Bool-cases (flag os "allow_always" q)) [
              | inl enabled ↦ inr (enabled, settle-always feedback choice now enabled)
              | inr disabled ↦ inl (disabled, rw (disabled, settle) (refl, refl))
            ],
          )))
  settle-Resolved t c feedback choice now (inr (inr (once, always, refuses))) =
      inr (inr (once, always, refused refuses))
    where
      at :
          (k : Option PermissionConfirmationChoice)
          → Refused (settle os (k, feedback) choice now m q)
          → k ≡ c
          → Refused (settle os (c, feedback) choice now m q)
      at k r e = subst (λ c. Refused (settle os (c, feedback) choice now m q)) e r

      refused : Refuses c → Refused (settle os (c, feedback) choice now m q)
      refused (inl e) = at none (refl, refl) (sym e)
      refused (inr (inl e)) = at (some deny_choice) (refl, refl) (sym e)
      refused (inr (inr e)) =
          at (some reject_with_feedback)
            (elim (Bool-cases (is_empty_text feedback)) [
              | inl empty ↦ rw empty (refl, refl)
              | inr full ↦ rw full (refl, refl)
            ])
            (sym e)
