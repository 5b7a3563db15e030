-- ===== src/Permissions/Manager/Guard.antt =====
-- When an answer of the user counts (`_confirmation_guard` of permissions/manager.py).
use bauhinia_agent.Common.{◌≡◌, ◌⊎◌, inl, inr, refl, Option, none, some, string_eq}
use bauhinia_agent.Permissions.Types.{
  Platform, PermissionDecision, PermissionDecisionKind, allow, deny, ask, action_eq,
}
use bauhinia_agent.Permissions.Policy.{Request, decide}
use bauhinia_agent.Permissions.Grants.{matching_decision}
use bauhinia_agent.Permissions.Grants.Matches.{MatchOutcome, matching_decision_outcome}
use bauhinia_agent.Permissions.Manager.{Manager, or_policy, check, confirmation_guard}

module _ (os : Platform) (m : Manager os) (r : Request os) where
  -- The guard passes exactly the requests on which the check still asks.
  abbrev pub Guarded : Option PermissionDecision → PermissionDecision → Type 0
  Guarded guard checked =
      ((guard ≡ none) × (checked.kind ≡ ask) × (matching_decision os m.grants r ≡ none))
      ⊎ ((guard ≡ some checked) × ((checked.kind ≡ deny) ⊎ (checked.kind ≡ allow)))

  pub guard-check : Guarded (confirmation_guard os m r) (check os m r)
  unfolding confirmation_guard check
  guard-check = go (matching_decision os m.grants r) refl (matching_decision_outcome os m.grants r)
    where
      by_policy :
          (d : PermissionDecision) (k : PermissionDecisionKind)
          → d.kind ≡ k
          → matching_decision os m.grants r ≡ none
          → Guarded (elim k [ ask ↦ none | _ ↦ some d ]) d
      by_policy d allow kind missing = inr (refl, inr kind)
      by_policy d deny kind missing = inr (refl, inl kind)
      by_policy d ask kind missing = inl (refl, kind, missing)

      go :
          (o : Option PermissionDecision)
          → matching_decision os m.grants r ≡ o
          → MatchOutcome os r m.grants o
          → Guarded
              (elim o [
                | some d ↦ some d
                | none ↦
                    let d = decide os m.mode m.project_root r in
                    elim d.kind [ ask ↦ none | _ ↦ some d ]
              ])
              (or_policy o (decide os m.mode m.project_root r))
      go none missing out =
          by_policy (decide os m.mode m.project_root r) (decide os m.mode m.project_root r).kind
            refl missing
      go (some d) found out =
          inr (refl, elim out.3 [ inl denies ↦ inl denies.0 | inr allows ↦ inr allows.0 ])
