-- ===== src/Permissions/Manager/Repeats.antt =====
-- A saved grant answers the next check.
use mathlib.Core.Path.{subst}
use bauhinia_agent.Common.{
  String, ◌≡◌, inl, inr, refl, ◌∙◌, true, false, ◌&&◌, ◌||◌, Option, none, some, List, [], ◌∷◌,
  ◌++◌, ◌==◌, string_eq, beq_refl, arith,
}
use bauhinia_agent.Permissions.Types.{
  Platform, PermissionGrant, PermissionDecision, allow, deny, ask, PermissionConfirmationChoice,
  deny_choice, reject_with_feedback, allow_once, allow_always_same_scope, action_eq,
}
use bauhinia_agent.Permissions.Policy.{Request, decide, flag}
use bauhinia_agent.Permissions.Grants.{grant_matches, scope_matches, matching_decision}
use bauhinia_agent.Permissions.Grants.Matches.{matched, MatchOutcome, matching_decision_outcome}
use bauhinia_agent.Permissions.Manager.{
  Manager, or_policy, normalize_request, check, preflight, confirmation_guard, normalize_choice,
  settle, resolve_confirmation, new_grant, add_grant, allow_always, default_scope_for_request,
}
use bauhinia_agent.Permissions.Manager.Guard.{guard-check}

module _ (os : Platform) (r : Request os) where
  matched-append :
      (effect : String) (gs : List PermissionGrant) (g : PermissionGrant)
      → matched os r effect (gs ++ g ∷ [])
        ≡ (matched os r effect gs || (grant_matches os g r && g.effect == effect))
  unfolding matched
  matched-append effect [] g = ground arith
  matched-append effect (h ∷ gs) g = ground (arith, matched-append effect gs g)

  -- The grants decide the check when they match.
  check-deny : (m : Manager os) → matched os r "deny" m.grants ≡ true → (check os m r).kind ≡ deny
  unfolding check
  check-deny m h = go (matching_decision os m.grants r) (matching_decision_outcome os m.grants r)
    where
      go :
          (o : Option PermissionDecision)
          → MatchOutcome os r m.grants o
          → (or_policy o (decide os m.mode m.project_root r)).kind ≡ deny
      go none out = cc
      go (some d) (g, named, matches, inl denies) = denies.0
      go (some d) (g, named, matches, inr allows) = cc (allows.2)

  check-allow :
      (m : Manager os)
      → matched os r "deny" m.grants ≡ false
      → matched os r "allow" m.grants ≡ true
      → (check os m r).kind ≡ allow
  unfolding check
  check-allow m n h = go (matching_decision os m.grants r) (matching_decision_outcome os m.grants r)
    where
      go :
          (o : Option PermissionDecision)
          → MatchOutcome os r m.grants o
          → (or_policy o (decide os m.mode m.project_root r)).kind ≡ allow
      go none out = cc
      go (some d) (g, named, matches, inl denies) = cc (denies.2)
      go (some d) (g, named, matches, inr allows) = allows.0

  abbrev OwnScope : Manager os → Type 0
  OwnScope m =
      scope_matches os (default_scope_for_request os m.project_root r).0
        (default_scope_for_request os m.project_root r).1 r
      ≡ true

  new_grant-matches :
      (m : Manager os) (now : String)
      → OwnScope m
      → grant_matches os (new_grant os now m.project_root r) r ≡ true
  unfolding grant_matches
  new_grant-matches m now own = ground (arith, own, beq_refl r.action)

  unmatched :
      (m : Manager os)
      → matching_decision os m.grants r ≡ none
      → matched os r "deny" m.grants ≡ false
  unmatched m missing =
      let out : MatchOutcome os r m.grants none =
        subst (MatchOutcome os r m.grants) missing (matching_decision_outcome os m.grants r) in
      out.0

  saved_allows :
      (m : Manager os) (now : String)
      → OwnScope m
      → matching_decision os m.grants r ≡ none
      → (check os (add_grant os m (new_grant os now m.project_root r)) r).kind ≡ allow
  saved_allows m now own missing =
      let g = new_grant os now m.project_root r in
      check-allow (add_grant os m g)
        (matched-append "deny" m.grants g ∙ ground (arith, unmatched m missing))
        (matched-append "allow" m.grants g ∙ ground (arith, new_grant-matches m now own))

settle_always :
    (os : Platform) (c : Option PermissionConfirmationChoice × String) (choice now : String)
    (m : Manager os) (r : Request os)
    → c.0 ≡ some allow_always_same_scope
    → flag os "allow_always" r ≡ true
    → confirmation_guard os m r ≡ none
    → settle os c choice now m r ≡ allow_always os now m r
settle_always os (some allow_always_same_scope, feedback) choice now m r chosen enabled passes =
    rw (enabled, passes, settle) refl
settle_always os (some deny_choice, feedback) choice now m r chosen enabled passes = cc
settle_always os (some reject_with_feedback, feedback) choice now m r chosen enabled passes = cc
settle_always os (some allow_once, feedback) choice now m r chosen enabled passes = cc
settle_always os (none, feedback) choice now m r chosen enabled passes = cc

-- A request that a saved deny grant matches is denied, in every mode, also where the policy or an
-- allow grant would allow it.
pub preflight_denied :
    (os : Platform) (m : Manager os) (r : Request os)
    → matched os (normalize_request os m.project_root r) "deny" m.grants ≡ true
    → (preflight os m r).kind ≡ deny
unfolding preflight
preflight_denied os m r h = check-deny os (normalize_request os m.project_root r) m h

-- After the answer to allow always to a request on which the check asks, and which does not forbid
-- the answer, the same request passes the check, if the scope that is saved for it matches it.
pub allow_always_repeats :
    (os : Platform) (m : Manager os) (r : Request os) (choice now : String)
    → (normalize_choice os choice).0 ≡ some allow_always_same_scope
    → flag os "allow_always" (normalize_request os m.project_root r) ≡ true
    → (preflight os m r).kind ≡ ask
    → scope_matches os
        (default_scope_for_request os m.project_root (normalize_request os m.project_root r)).0
        (default_scope_for_request os m.project_root (normalize_request os m.project_root r)).1
        (normalize_request os m.project_root r)
      ≡ true
    → (preflight os (resolve_confirmation os choice now m r).1 r).kind ≡ allow
unfolding preflight resolve_confirmation
allow_always_repeats os m r choice now chosen enabled asks own =
    elim (guard-check os m (normalize_request os m.project_root r)) [
      | inl (passes, still, missing) ↦
          rw
            (settle_always os (normalize_choice os choice) choice now m
              (normalize_request os m.project_root r) chosen enabled passes)
            (saved_allows os (normalize_request os m.project_root r) m now own missing)
      | inr (stopped, kind) ↦ elim kind [ inl denies ↦ cc | inr allows ↦ cc ]
    ]
