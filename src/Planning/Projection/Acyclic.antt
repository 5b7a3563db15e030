-- ===== src/Planning/Projection/Acyclic.antt =====
-- `topological_levels` finds the levels of every acyclic plan, and says cycle of no other.
use bauhinia_agent.Common.{
  ap, All-filter, all_iff, not, elem-filter, All-map, All-elem, Bool-cases, ◌≢◌, beq_refl,
  elem-append, refl, ◌∙◌, zero, suc, ℕ, ◌≤◌, ◌<◌, String, ◌≡◌, ◌⊎◌, inl, inr, true, List, [], ◌∷◌,
  ◌++◌, string_eq, elem, All, length, arith, ok, err, ◌>>=◌,
}
use mathlib.Core.Path.{subst}
use native.Mathlib.Decide.{dec_le}
use native.Mathlib.Nat.{le_trans, le_refl}
use bauhinia_agent.Common.Dict.{Dict}
use bauhinia_agent.Planning.Errors.{cycle, plan_error}
use bauhinia_agent.Planning.Projection.{levels_from}
use bauhinia_agent.Planning.Projection.Levels.{
  deps_at, IsKnown, free, left, level_pure, left_shrinks, is_free, Known-left,
}

module _ (d : Dict (List String)) where
  levels-step :
      (fuel : ℕ) (done : List String) (id : String) (ids : List String) (c : String)
      (cs : List String)
      → All (IsKnown d) (id ∷ ids)
      → free d done (id ∷ ids) ≡ c ∷ cs
      → levels_from (suc fuel) d done (id ∷ ids) ≡ (
          levels_from fuel d (done ++ c ∷ cs) (left d (done ++ c ∷ cs) (id ∷ ids)) >>= λ rest.
          ok ((c ∷ cs) ∷ rest))
  unfolding levels_from
  levels-step fuel done id ids c cs known e = rw (level_pure d done (id ∷ ids) known, e)

  levels-stuck :
      (fuel : ℕ) (done : List String) (id : String) (ids : List String)
      → All (IsKnown d) (id ∷ ids)
      → free d done (id ∷ ids) ≡ []
      → levels_from (suc fuel) d done (id ∷ ids) ≡ err (plan_error cycle)
  unfolding levels_from
  levels-stuck fuel done id ids known e = rw (level_pure d done (id ∷ ids) known, e)

  List-cases : (xs : List String) → (xs ≡ []) ⊎ ((y : String) × (ys : List String) × (xs ≡ y ∷ ys))
  List-cases [] = inl refl
  List-cases (y ∷ ys) = inr (y, ys, refl)

  shrinks :
      (done remaining : List String) (c : String) (cs : List String)
      → free d done remaining ≡ c ∷ cs
      → length (left d (done ++ c ∷ cs) remaining) < length remaining
  shrinks done remaining c cs e =
      subst (λ x. length (left d (done ++ x) remaining) < length remaining) e
        (left_shrinks d done remaining (λ p. cc))

  -- Enough rounds: the loop finds the levels or a cycle.
  pub levels_outcome :
      (fuel : ℕ) (done remaining : List String)
      → All (IsKnown d) remaining
      → length remaining ≤ fuel
      → ((ls : List (List String)) × (levels_from fuel d done remaining ≡ ok ls))
        ⊎ (levels_from fuel d done remaining ≡ err (plan_error cycle))
  levels_outcome fuel done [] known enough = inl ([], no_more fuel)
    where
      no_more : (n : ℕ) → levels_from n d done [] ≡ ok []
      no_more n = unfold levels_from in refl
  levels_outcome zero done (id ∷ ids) known enough = absurd (omega arith)
  levels_outcome (suc fuel) done (id ∷ ids) known enough =
      elim (List-cases (free d done (id ∷ ids))) [
        | inl stuck ↦ inr (levels-stuck fuel done id ids known stuck)
        | inr (c, cs, e) ↦
            elim (levels_outcome fuel (done ++ c ∷ cs) (left d (done ++ c ∷ cs) (id ∷ ids))
              (Known-left d (done ++ c ∷ cs) (id ∷ ids) known)
              (omega (arith, shrinks done (id ∷ ids) c cs e))) [
                | inl (ls, found) ↦
                    inl ((c ∷ cs) ∷ ls, levels-step fuel done id ids c cs known e ∙ rw found)
                | inr none_found ↦ inr (levels-step fuel done id ids c cs known e ∙ rw none_found)
              ]
      ]

  least :
      (r : String → ℕ) (x : String) (xs : List String)
      → (m : String) × (elem m (x ∷ xs) ≡ true) × All (λ y. r m ≤ r y) (x ∷ xs)
  least r x [] = (x, rw (beq_refl x), (le_refl (r x), tt))
  least r x (y ∷ ys) =
      let (m, in_tail, low) = least r y ys in
      elim (dec_le (r x) (r m)) [
        | yes first ↦ (
          x,
          rw (beq_refl x),
          (
            le_refl (r x),
            All-map (λ z. r m ≤ r z) (λ z. r x ≤ r z) (y ∷ ys) (λ z h. le_trans first h) low,
          ),
        )
        | no later ↦ (m, ground (arith, in_tail), (omega arith, low))
      ]

  -- What a remaining task waits for is done, or remains at a smaller rank.
  abbrev pub Below : (r : String → ℕ) (done remaining : List String) → String → Type 0
  Below r done remaining i =
      All (λ x. (elem x done ≡ true) ⊎ ((elem x remaining ≡ true) × (r x < r i))) (deps_at d i)

  some_free :
      (r : String → ℕ) (done : List String) (id : String) (ids : List String)
      → All (Below r done (id ∷ ids)) (id ∷ ids)
      → free d done (id ∷ ids) ≢ []
  some_free r done id ids below e =
      let (m, present, low) = least r id ids in
      let is_done =
        All-map (λ x. (elem x done ≡ true) ⊎ ((elem x (id ∷ ids) ≡ true) × (r x < r m)))
          (λ x. elem x done ≡ true) (deps_at d m) (λ x h. minimal m low x h)
          (All-elem (Below r done (id ∷ ids)) m (id ∷ ids) below present) in
      let free_m = (all_iff (λ x. elem x done) (deps_at d m)).1 is_done in
      cc (elem-filter (is_free d done) m (id ∷ ids), free_m, present, ap (elem m) e)
    where
      minimal :
          (m : String)
          → All (λ y. r m ≤ r y) (id ∷ ids)
          → (x : String) → (elem x done ≡ true) ⊎ ((elem x (id ∷ ids) ≡ true) × (r x < r m))
          → elem x done ≡ true
      minimal m low x (inl before) = before
      minimal m low x (inr (remains, smaller)) =
          absurd (omega (arith, All-elem (λ y. r m ≤ r y) x (id ∷ ids) low remains))

  Below-left :
      (r : String → ℕ) (done c remaining : List String)
      → All (Below r done remaining) remaining
      → All (Below r (done ++ c) (left d (done ++ c) remaining)) (left d (done ++ c) remaining)
  Below-left r done c remaining h =
      All-filter (Below r (done ++ c) (left d (done ++ c) remaining))
        (λ i. not (elem i (done ++ c))) remaining
        (All-map (Below r done remaining) (Below r (done ++ c) (left d (done ++ c) remaining))
          remaining
          (λ i k.
            All-map (λ x. (elem x done ≡ true) ⊎ ((elem x remaining ≡ true) × (r x < r i)))
              (λ x.
                (elem x (done ++ c) ≡ true)
                ⊎ ((elem x (left d (done ++ c) remaining) ≡ true) × (r x < r i)))
              (deps_at d i) (λ x. keep i x) k)
          h)
    where
      keep :
          (i x : String)
          → (elem x done ≡ true) ⊎ ((elem x remaining ≡ true) × (r x < r i))
          → (elem x (done ++ c) ≡ true)
            ⊎ ((elem x (left d (done ++ c) remaining) ≡ true) × (r x < r i))
      keep i x (inl before) = inl (ground (arith, elem-append x done c))
      keep i x (inr (remains, smaller)) = elim (Bool-cases (elem x (done ++ c))) [
        | inl now ↦ inl now
        | inr later ↦
            inr (ground (arith, elem-filter (λ j. not (elem j (done ++ c))) x remaining), smaller)
      ]

  -- With a rank that falls along every dependency the loop finds the levels.
  pub levels_total :
      (r : String → ℕ) (fuel : ℕ) (done remaining : List String)
      → All (IsKnown d) remaining
      → All (Below r done remaining) remaining
      → length remaining ≤ fuel
      → (ls : List (List String)) × (levels_from fuel d done remaining ≡ ok ls)
  levels_total r fuel done [] known below enough = ([], no_more fuel)
    where
      no_more : (n : ℕ) → levels_from n d done [] ≡ ok []
      no_more n = unfold levels_from in refl
  levels_total r zero done (id ∷ ids) known below enough = absurd (omega arith)
  levels_total r (suc fuel) done (id ∷ ids) known below enough =
      elim (List-cases (free d done (id ∷ ids))) [
        | inl stuck ↦ absurd (some_free r done id ids below stuck)
        | inr (c, cs, e) ↦
            let (ls, found) =
              levels_total r fuel (done ++ c ∷ cs) (left d (done ++ c ∷ cs) (id ∷ ids))
                (Known-left d (done ++ c ∷ cs) (id ∷ ids) known)
                (Below-left r done (c ∷ cs) (id ∷ ids) below)
                (omega (arith, shrinks done (id ∷ ids) c cs e)) in
            ((c ∷ cs) ∷ ls, levels-step fuel done id ids c cs known e ∙ rw found)
      ]
