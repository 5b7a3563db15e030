-- ===== src/Common/Lists.antt =====
-- Lists under Boolean tests, and predicates by recursion.
use Prim.Native.Nat.{ℕ, suc, ◌+◌, ◌≤◌}
use mathlib.Core.Path.{◌≡◌, refl, ap, subst}
use mathlib.Core.Logic.{◌↔◌, inl, inr}
use mathlib.Core.Bool.{Bool, true, false, ◌&&◌, ◌||◌}
use mathlib.Core.List.{List, [], ◌∷◌, ◌++◌, map}
use native.Mathlib.Omega.{arith}
use bauhinia_agent.Common.Tests.{Eq, ◌==◌, string_eq, if◌then◌else◌, Bool-cases, beq_refl}

module _ {ℓ} {A : Type ℓ} where
  abbrev pub length : List A → ℕ
  length [] = 0
  length (x ∷ xs) = suc (length xs)

  abbrev pub filter : (A → Bool) → List A → List A
  filter p [] = []
  filter p (x ∷ xs) = let rest = filter p xs in if p x then x ∷ rest else rest

  abbrev pub any : (A → Bool) → List A → Bool
  any p [] = false
  any p (x ∷ xs) = p x || any p xs

  abbrev pub all : (A → Bool) → List A → Bool
  all p [] = true
  all p (x ∷ xs) = p x && all p xs

  abbrev pub All {κ} : (A → Type κ) → List A → Type κ
  All P [] = Unit
  All P (x ∷ xs) = P x × All P xs

  abbrev pub is_empty : List A → Bool
  is_empty [] = true
  is_empty (x ∷ xs) = false

-- `x in xs`
abbrev pub elem {ℓ} : {A : Type ℓ} ⦃e : Eq A⦄ → A → List A → Bool
elem x [] = false
elem x (y ∷ ys) = y == x || elem x ys

abbrev pub Unique {ℓ} : {A : Type ℓ} ⦃e : Eq A⦄ → List A → Type 0
Unique [] = Unit
Unique (x ∷ xs) = (elem x xs ≡ false) × Unique xs

module _ {ℓ} {A : Type ℓ} where
  pub length-append : (xs ys : List A) → length (xs ++ ys) ≡ length xs + length ys
  length-append [] ys = omega arith
  length-append (x ∷ xs) ys = omega (arith, length-append xs ys)

  pub All-map {κ μ} :
      (P : A → Type κ) (Q : A → Type μ) (xs : List A) → ((x : A) → P x → Q x) → All P xs → All Q xs
  All-map P Q [] f h = tt
  All-map P Q (x ∷ xs) f h = (f x h.0, All-map P Q xs f h.1)

  pub All-and {κ μ} :
      (P : A → Type κ) (Q : A → Type μ) (xs : List A)
      → All P xs
      → All Q xs
      → All (λ x. P x × Q x) xs
  All-and P Q [] h k = tt
  All-and P Q (x ∷ xs) h k = ((h.0, k.0), All-and P Q xs h.1 k.1)

  pub All-append {κ} : (P : A → Type κ) (xs ys : List A) → All P xs → All P ys → All P (xs ++ ys)
  All-append P [] ys h k = k
  All-append P (x ∷ xs) ys h k = (h.0, All-append P xs ys h.1 k)

  pub All-right {κ} : (P : A → Type κ) (xs ys : List A) → All P (xs ++ ys) → All P ys
  All-right P [] ys h = h
  All-right P (x ∷ xs) ys h = All-right P xs ys h.1

  pub All-pure {κ} : (P : A → Type κ) (xs : List A) → ((x : A) → P x) → All P xs
  All-pure P [] f = tt
  All-pure P (x ∷ xs) f = (f x, All-pure P xs f)

module _ {ℓ} {A : Type ℓ} ⦃e : Eq A⦄ where
  pub elem-append : (x : A) (xs ys : List A) → elem x (xs ++ ys) ≡ (elem x xs || elem x ys)
  elem-append x [] ys = refl
  elem-append x (y ∷ xs) ys = ground (arith, elem-append x xs ys)

  -- What holds of every item holds of a member.
  pub All-elem {κ} : (P : A → Type κ) (x : A) (xs : List A) → All P xs → elem x xs ≡ true → P x
  All-elem P x [] h m = cc
  All-elem P x (y ∷ ys) h m = elim (Bool-cases (y == x)) [
    | inl same ↦ subst P ((e.equal_iff y x).0 same) h.0
    | inr other ↦ All-elem P x ys h.1 (rw other at m)
  ]

  -- A property of all members is a property of every item.
  pub All-of_elem {κ} :
      (P : A → Type κ) (xs : List A) → ((x : A) → elem x xs ≡ true → P x) → All P xs
  All-of_elem P [] f = tt
  All-of_elem P (x ∷ xs) f = (f x (rw (beq_refl x)), All-of_elem P xs (λ y m. f y (grow y x m)))
    where
      grow : (y x : A) → elem y xs ≡ true → (x == y || elem y xs) ≡ true
      grow y x m = ground arith

  pub elem-map_of_elem {κ} :
      {B : Type κ} ⦃o : Eq B⦄ (f : A → B) (x : A) (xs : List A)
      → elem x xs ≡ true
      → elem (f x) (map f xs) ≡ true
  elem-map_of_elem f x [] m = cc
  elem-map_of_elem ⦃o⦄ f x (y ∷ ys) m = elim (Bool-cases (y == x)) [
    | inl same ↦ rw ((o.equal_iff (f y) (f x)).1 (ap f ((e.equal_iff y x).0 same)))
    | inr other ↦ ground (arith, elem-map_of_elem f x ys)
  ]

  pub elem-filter : (p : A → Bool) (x : A) (xs : List A) → elem x (filter p xs) ≡ (p x && elem x xs)
  elem-filter p x [] = ground arith
  elem-filter p x (y ∷ ys) = elim (Bool-cases (y == x)) [
    | inl same ↦ let eq = (e.equal_iff y x).0 same in ground (arith, elem-filter p x ys, ap p eq)
    | inr other ↦ ground (arith, elem-filter p x ys)
  ]

module _ {ℓ} {A : Type ℓ} where
  -- Two tests that no item passes both count no item twice.
  pub length-filter-disjoint :
      (p q : A → Bool) (xs : List A)
      → All (λ x. p x ≡ true → q x ≡ false) xs
      → length (filter p xs) + length (filter q xs) ≤ length xs
  length-filter-disjoint p q [] h = omega arith
  length-filter-disjoint p q (x ∷ xs) h = ground (arith, h.0, length-filter-disjoint p q xs h.1)

  pub all_iff : (p : A → Bool) (xs : List A) → (all p xs ≡ true) ↔ All (λ x. p x ≡ true) xs
  all_iff p xs = (to xs, from xs)
    where
      to : (xs : List A) → all p xs ≡ true → All (λ x. p x ≡ true) xs
      to [] h = tt
      to (x ∷ xs) h = (ground arith, to xs (ground arith))

      from : (xs : List A) → All (λ x. p x ≡ true) xs → all p xs ≡ true
      from [] h = refl
      from (x ∷ xs) h = rw (h.0, from xs h.1)

  pub filter-All : (p : A → Bool) (xs : List A) → All (λ x. p x ≡ true) (filter p xs)
  filter-All p [] = tt
  filter-All p (x ∷ xs) = elim (Bool-cases (p x)) [
    | inl kept ↦ rw kept (kept, filter-All p xs)
    | inr dropped ↦ rw dropped (filter-All p xs)
  ]

  pub All-filter {κ} :
      (P : A → Type κ) (p : A → Bool) (xs : List A) → All P xs → All P (filter p xs)
  All-filter P p [] h = tt
  All-filter P p (x ∷ xs) h = elim (Bool-cases (p x)) [
    | inl kept ↦ rw kept (h.0, All-filter P p xs h.1)
    | inr dropped ↦ rw dropped (All-filter P p xs h.1)
  ]

module _ {ℓ} {A : Type ℓ} ⦃e : Eq A⦄ where
  pub Unique-filter : (p : A → Bool) (xs : List A) → Unique xs → Unique (filter p xs)
  Unique-filter p [] u = tt
  Unique-filter p (x ∷ xs) u = elim (Bool-cases (p x)) [
    | inl kept ↦ rw kept (ground (arith, elem-filter p x xs, u.0), Unique-filter p xs u.1)
    | inr dropped ↦ rw dropped (Unique-filter p xs u.1)
  ]

  pub Unique-append :
      (xs ys : List A) → Unique xs → Unique ys → All (λ x. elem x ys ≡ false) xs → Unique (xs ++ ys)
  Unique-append [] ys u v h = v
  Unique-append (x ∷ xs) ys u v h =
      (ground (arith, elem-append x xs ys, u.0, h.0), Unique-append xs ys u.1 v h.1)

module _ {ℓ} {A : Type ℓ} where
  pub All-of_filter {κ} :
      (P : A → Type κ) (p : A → Bool) (xs : List A)
      → All P (filter p xs)
      → All (λ x. p x ≡ true → P x) xs
  All-of_filter P p [] h = tt
  All-of_filter P p (x ∷ xs) h = elim (Bool-cases (p x)) [
    | inl kept ↦
        let k : P x × All P (filter p xs) = rw kept at h in ((λ _. k.0), All-of_filter P p xs k.1)
    | inr dropped ↦ ((λ e. cc), All-of_filter P p xs (rw dropped at h))
  ]

  pub All-filter_of {κ} :
      (P : A → Type κ) (p : A → Bool) (xs : List A)
      → All (λ x. p x ≡ true → P x) xs
      → All P (filter p xs)
  All-filter_of P p [] h = tt
  All-filter_of P p (x ∷ xs) h = elim (Bool-cases (p x)) [
    | inl kept ↦ rw kept (h.0 kept, All-filter_of P p xs h.1)
    | inr dropped ↦ rw dropped (All-filter_of P p xs h.1)
  ]

  pub filter_congr :
      (p q : A → Bool) (xs : List A) → All (λ x. p x ≡ q x) xs → filter p xs ≡ filter q xs
  filter_congr p q [] h = refl
  filter_congr p q (x ∷ xs) h = rw (h.0, filter_congr p q xs h.1)
