-- ===== src/Permissions/Grants/Matches.antt =====
-- The decision of the grants that match a request.
use bauhinia_agent.Common.{
  String, ◌≡◌, ◌⊎◌, inl, inr, refl, Bool, true, false, ◌&&◌, Option, none, some, List, [], ◌∷◌, any,
  filter, ◌==◌, string_eq, Bool-cases,
}
use bauhinia_agent.Permissions.Types.{Platform, PermissionGrant, PermissionDecision, allow, deny}
use bauhinia_agent.Permissions.Policy.{Request}
use bauhinia_agent.Permissions.Grants.{grant_matches, matching_decision, first_with}

module _ (os : Platform) (r : Request os) where
  -- Some grant of an effect matches the request.
  unfoldable pub matched : String → List PermissionGrant → Bool
  matched effect grants = any (λ g. grant_matches os g r && g.effect == effect) grants

  -- The grant of a decision: it matches, and has the effect.
  abbrev pub Rests : String → PermissionGrant → List PermissionGrant → Type 0
  Rests effect g grants = (g.effect ≡ effect) × (grant_matches os g r ≡ true)

  first-matched :
      (effect : String) (grants : List PermissionGrant)
      → ((matched effect grants ≡ false)
          × (first_with os effect (filter (λ g. grant_matches os g r) grants) ≡ none))
        ⊎ ((matched effect grants ≡ true)
            × ((g : PermissionGrant) × (first_with os effect
                    (filter (λ g. grant_matches os g r) grants)
                  ≡ some g)
                × (g.effect ≡ effect)
                × (grant_matches os g r ≡ true)))
  unfolding matched first_with
  first-matched effect [] = inl (refl, refl)
  first-matched effect (g ∷ gs) = elim (Bool-cases (grant_matches os g r)) [
    | inr apart ↦ rw apart (first-matched effect gs)
    | inl matches ↦ elim (Bool-cases (g.effect == effect)) [
      | inl same ↦ inr (
          rw (matches, same)
            (refl, (g, refl, (string_eq.equal_iff g.effect effect).0 same, matches)))
      | inr other ↦ rw (matches, other) (first-matched effect gs)
    ]
  ]

  -- The decision of the grants.
  abbrev pub MatchOutcome : List PermissionGrant → Option PermissionDecision → Type 0
  MatchOutcome grants none = (matched "deny" grants ≡ false) × (matched "allow" grants ≡ false)
  MatchOutcome grants (some d) =
      (g : PermissionGrant) × (d.grant ≡ some g)
      × (grant_matches os g r ≡ true)
      × (((d.kind ≡ deny) × (g.effect ≡ "deny") × (matched "deny" grants ≡ true))
          ⊎ ((d.kind ≡ allow) × (g.effect ≡ "allow") × (matched "deny" grants ≡ false)))

-- A deny grant that matches wins over every allow grant, wherever they stand: the grants deny the
-- request if a deny grant matches, allow it if an allow grant and no deny grant matches, and say
-- nothing otherwise; and the decision names a grant of that effect that matches.
pub matching_decision_outcome :
    (os : Platform) (grants : List PermissionGrant) (r : Request os)
    → MatchOutcome os r grants (matching_decision os grants r)
unfolding matching_decision
matching_decision_outcome os grants r = elim (first-matched os r "deny" grants) [
  | inr (denies, found) ↦ rw found.1 (found.0, refl, found.3, inl (refl, found.2, denies))
  | inl (none_denies, missing) ↦ elim (first-matched os r "allow" grants) [
    | inr (allows, found) ↦
        rw (missing, found.1) (found.0, refl, found.3, inr (refl, found.2, none_denies))
    | inl (none_allows, missing') ↦ rw (missing, missing') (none_denies, none_allows)
  ]
]
