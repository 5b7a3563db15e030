-- ===== src/Permissions/Manager/Choices.antt =====
-- What the user's text chooses (`_normalize_choice` of permissions/manager.py).
use bauhinia_agent.Common.{
  String, Bool, true, false, ◌≡◌, ◌⊎◌, inl, inr, refl, sym, ◌∙◌, ap, Option, none, some, string_eq,
  ◌==◌, ◌||◌, Bool-cases, strip, arith,
}
use bauhinia_agent.Permissions.Types.{
  Platform, PermissionConfirmationChoice, deny_choice, reject_with_feedback, allow_once,
  allow_always_same_scope,
}
use bauhinia_agent.Permissions.Commands.{starts_with}
use bauhinia_agent.Permissions.Manager.{normalize_choice}

-- The text is one of two texts.
abbrev pub IsOneOf : String → String → String → Type 0
IsOneOf a b t = (t ≡ a) ⊎ (t ≡ b)

abbrev pub SaysOnce : String → Type 0
SaysOnce = IsOneOf "2" "allow_once"

abbrev pub SaysAlways : String → Type 0
SaysAlways = IsOneOf "3" "allow_always_same_scope"

-- A choice that allows nothing.
abbrev pub Refuses : Option PermissionConfirmationChoice → Type 0
Refuses c = (c ≡ none) ⊎ (c ≡ some deny_choice) ⊎ (c ≡ some reject_with_feedback)

hits : (a b t : String) → (t == a || t == b) ≡ true → IsOneOf a b t
hits a b t h = elim (Bool-cases (t == a)) [
  | inl same ↦ inl ((string_eq.equal_iff t a).0 same)
  | inr other ↦ inr ((string_eq.equal_iff t b).0 (rw other at h))
]

misses : (a b t : String) → (t == a || t == b) ≡ false → ¬ IsOneOf a b t
misses a b t h (inl e) = cc (sym h ∙ ap (λ x. x || t == b) ((string_eq.equal_iff t a).1 e))
misses a b t h (inr e) = ground (arith, h, (string_eq.equal_iff t b).1 e)

-- A test that fails on two texts tells a text that passes it from both.
fails_both :
    (test : String → Bool) (a b t : String)
    → test t ≡ true
    → test a ≡ false
    → test b ≡ false
    → ¬ IsOneOf a b t
fails_both test a b t h at_a at_b (inl e) = cc (sym h ∙ ap test e ∙ at_a)
fails_both test a b t h at_a at_b (inr e) = cc (sym h ∙ ap test e ∙ at_b)

module _ (os : Platform) where
  -- How the choice that is read depends on the text.
  abbrev pub Meant : String → Option PermissionConfirmationChoice → Type 0
  Meant t c =
      (SaysOnce t × (c ≡ some allow_once))
      ⊎ (SaysAlways t × (c ≡ some allow_always_same_scope))
      ⊎ ((¬ SaysOnce t) × (¬ SaysAlways t) × Refuses c)

  refusing :
      (test : String → Bool) (t : String) (c : Option PermissionConfirmationChoice)
      → test t ≡ true
      → (test "2" ≡ false) × (test "allow_once" ≡ false)
      → (test "3" ≡ false) × (test "allow_always_same_scope" ≡ false)
      → Refuses c
      → Meant t c
  refusing test t c h once always refuses = inr (
      inr (
        fails_both test "2" "allow_once" t h once.0 once.1,
        fails_both test "3" "allow_always_same_scope" t h always.0 always.1,
        refuses,
      ))

  pub normalize_choice-Meant :
      (choice : String) → Meant (os.lower (strip choice)) (normalize_choice os choice).0
  unfolding normalize_choice starts_with
  normalize_choice-Meant choice =
      let t = os.lower (strip choice) in
      elim (Bool-cases (starts_with "reject_with_feedback:" t)) [
        | inl long ↦ rw long (
            refusing (starts_with "reject_with_feedback:") t _ long (refl, refl) (refl, refl)
              (inr (inr refl)))
        | inr l ↦ elim (Bool-cases (starts_with "reject:" t)) [
          | inl short ↦
              rw (l, short)
                (refusing (starts_with "reject:") t _ short (refl, refl) (refl, refl)
                  (inr (inr refl)))
          | inr s ↦ elim (Bool-cases (t == "1" || t == "deny")) [
            | inl one ↦
                rw (l, s, one)
                  (refusing (λ x. x == "1" || x == "deny") t _ one (refl, refl) (refl, refl)
                    (inr (inl refl)))
            | inr o ↦ elim (Bool-cases (t == "2" || t == "allow_once")) [
              | inl two ↦ rw (l, s, o, two) (inl (hits "2" "allow_once" t two, refl))
              | inr w ↦ elim (Bool-cases (t == "3" || t == "allow_always_same_scope")) [
                | inl three ↦
                    rw (l, s, o, w, three)
                      (inr (inl (hits "3" "allow_always_same_scope" t three, refl)))
                | inr h ↦ elim (Bool-cases (t == "4" || t == "reject_with_feedback")) [
                  | inl four ↦
                      rw (l, s, o, w, h, four)
                        (inr (
                          inr (
                            misses "2" "allow_once" t w,
                            misses "3" "allow_always_same_scope" t h,
                            inr (inr refl),
                          )))
                  | inr f ↦
                      rw (l, s, o, w, h, f)
                        (inr (
                          inr (
                            misses "2" "allow_once" t w,
                            misses "3" "allow_always_same_scope" t h,
                            inl refl,
                          )))
                ]
              ]
            ]
          ]
        ]
      ]
