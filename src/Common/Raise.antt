-- ===== src/Common/Raise.antt =====
-- Functions that may raise: an exception is a value, and a `do` block stops at the first.
use mathlib.Core.Path.{◌≡◌, refl}
use mathlib.Core.Logic.{inl, inr}
use mathlib.Core.Bool.{Bool, true, false}
use mathlib.Core.List.{List, [], ◌∷◌}
use bauhinia_agent.Common.Tests.{if◌then◌else◌, Bool-cases}
use bauhinia_agent.Common.Lists.{All, filter, all}

pub data Result {ℓ κ} (E : Type ℓ) (A : Type κ) : Type (ℓ ⊔ κ) where
  ok : A → Result E A
  err : E → Result E A

infixl 5 ◌>>=◌ ◌>>◌
abbrev pub ◌>>=◌ {ℓ κ μ} :
    {E : Type ℓ} {A : Type κ} {B : Type μ} → Result E A → (A → Result E B) → Result E B
ok a >>= f = f a
err e >>= f = err e

abbrev pub ◌>>◌ {ℓ κ} : {E : Type ℓ} {B : Type κ} → Result E (Unit {0}) → Result E B → Result E B
m >> k = m >>= λ _. k

-- `if not b: raise e`
abbrev pub require {ℓ} : {E : Type ℓ} → Bool → E → Result E (Unit {0})
require true e = ok tt
require false e = err e

-- `try: m except E as error: raise f(error)`
abbrev pub map_err {ℓ κ μ} :
    {E : Type ℓ} {F : Type κ} {A : Type μ} → (E → F) → Result E A → Result F A
map_err f (ok a) = ok a
map_err f (err e) = err (f e)

-- A block that returns: its first step does, and so does the rest after it.
pub >>=-eq-ok {ℓ κ μ} :
    {E : Type ℓ} {A : Type κ} {C : Type μ} (first : Result E A) (rest : A → Result E C) {c : C}
    → (first >>= rest) ≡ ok c
    → (x : A) × (first ≡ ok x) × (rest x ≡ ok c)
>>=-eq-ok (err e) rest h = cc
>>=-eq-ok (ok x) rest h = (x, refl, h)

pub require-eq-ok {ℓ κ} :
    {E : Type ℓ} {B : Type κ} (b : Bool) (e : E) (k : Result E B) {c : B}
    → (require b e >> k) ≡ ok c
    → (b ≡ true) × (k ≡ ok c)
require-eq-ok true e k h = (refl, h)
require-eq-ok false e k h = (cc, cc)

module _ {ℓ κ} {E : Type ℓ} {A : Type κ} where
  -- `all(f(x) for x in xs)`, where `f` may raise: it stops at the first false.
  unfoldable pub all_ok : (A → Result E Bool) → List A → Result E Bool
  all_ok f [] = ok true
  all_ok f (x ∷ xs) = do b ← f x; if b then all_ok f xs else ok false

  -- `[x for x in xs if f(x)]`
  unfoldable pub filter_ok : (A → Result E Bool) → List A → Result E (List A)
  filter_ok f [] = ok []
  filter_ok f (x ∷ xs) = do b ← f x; rest ← filter_ok f xs; ok (if b then x ∷ rest else rest)

  pub all_ok_pure :
      (f : A → Result E Bool) (g : A → Bool) (xs : List A)
      → All (λ x. f x ≡ ok (g x)) xs
      → all_ok f xs ≡ ok (all g xs)
  unfolding all_ok
  all_ok_pure f g [] h = refl
  all_ok_pure f g (x ∷ xs) h = elim (Bool-cases (g x)) [
    | inl holds ↦ rw (h.0, holds) (all_ok_pure f g xs h.1)
    | inr fails ↦ rw (h.0, fails)
  ]

  pub filter_ok_pure :
      (f : A → Result E Bool) (g : A → Bool) (xs : List A)
      → All (λ x. f x ≡ ok (g x)) xs
      → filter_ok f xs ≡ ok (filter g xs)
  unfolding filter_ok
  filter_ok_pure f g [] h = refl
  filter_ok_pure f g (x ∷ xs) h = rw (h.0, filter_ok_pure f g xs h.1)

  -- `for x in xs: f(x)`, which raises what the first failing `x` raises.
  unfoldable pub each : (A → Result E (Unit {0})) → List A → Result E (Unit {0})
  each f [] = ok tt
  each f (x ∷ xs) = do f x; each f xs

  pub each-eq-ok :
      (f : A → Result E (Unit {0})) (xs : List A) → each f xs ≡ ok tt → All (λ x. f x ≡ ok tt) xs
  unfolding each
  each-eq-ok f [] h = tt
  each-eq-ok f (x ∷ xs) h =
      let (u, first, rest) = >>=-eq-ok (f x) (λ _. each f xs) h in (first, each-eq-ok f xs rest)

  pub each_ok :
      (f : A → Result E (Unit {0})) (xs : List A) → All (λ x. f x ≡ ok tt) xs → each f xs ≡ ok tt
  unfolding each
  each_ok f [] h = refl
  each_ok f (x ∷ xs) h = rw (h.0) (each_ok f xs h.1)
