-- ===== src/Evo/Graph/Rounds.antt =====
-- The loop that looks for a cycle has rounds enough.
use bauhinia_agent.Common.{
  ℕ, zero, suc, ◌+◌, ◌≤◌, ◌≡◌, refl, Bool, true, false, not, String, List, [], ◌∷◌, map, filter,
  elem, length, is_empty, ok, err, ◌⊎◌, inl, inr, arith, string_eq, Bool-cases, beq_refl, ◌==◌,
}
use bauhinia_agent.Evo.Graph.{cycle, Waiting, ready_ids, after_round, peel}

length-filter : {A : Type 0} (p : A → Bool) (xs : List A) → length (filter p xs) ≤ length xs
length-filter p [] = omega arith
length-filter p (x ∷ xs) = ground (arith, length-filter p xs)

length-map : {A B : Type 0} (f : A → B) (xs : List A) → length (map f xs) ≡ length xs
length-map f [] = refl
length-map f (x ∷ xs) = ground (arith, length-map f xs)

-- One that fails the test makes the rest shorter.
length-filter_drop :
    (p : String × List String → Bool) (id : String) (es : Waiting)
    → elem id (map (λ (e : String × List String). e.0) (filter (λ e. is_empty e.1) es)) ≡ true
    → ((e : String × List String) → e.0 ≡ id → p e ≡ false)
    → length (filter p es) + 1 ≤ length es
length-filter_drop p id [] m drops = cc
length-filter_drop p id (e ∷ es) m drops = elim (Bool-cases (is_empty e.1)) [
  | inr waits ↦ let rest = length-filter_drop p id es (rw waits at m) drops in ground (arith, rest)
  | inl ready ↦ elim (Bool-cases (e.0 == id)) [
    | inl here ↦
        let gone = drops e ((string_eq.equal_iff e.0 id).0 here) in
        rw gone (let rest = length-filter p es in omega arith)
    | inr other ↦
        let rest = length-filter_drop p id es (rw (ready, other) at m) drops in ground (arith, rest)
  ]
]

-- A round drops the nodes that wait for nothing.
after_round-length :
    (remaining : Waiting) (r : String) (rs : List String)
    → ready_ids remaining ≡ r ∷ rs
    → length (after_round remaining) + 1 ≤ length remaining
after_round-length remaining r rs h =
    rw
      (length-map {B = String × List String}
        (λ (e : String × List String). (e.0, filter (λ d. not (elem d (ready_ids remaining))) e.1))
        (filter (λ (e : String × List String). not (elem e.0 (ready_ids remaining))) remaining))
      (length-filter_drop (λ (e : String × List String). not (elem e.0 (ready_ids remaining))) r
        remaining (rw h (rw (beq_refl r) refl)) (λ e same. rw (same, h, beq_refl r) refl))

-- With as many rounds as there are nodes, the search for a cycle answers: it passes, or finds one.
pub peel_outcome :
    (fuel : ℕ) (remaining : Waiting)
    → length remaining ≤ fuel
    → (peel fuel remaining ≡ ok tt) ⊎ (peel fuel remaining ≡ err cycle)
unfolding peel
peel_outcome fuel [] enough = inl refl
peel_outcome zero (e ∷ es) enough = absurd (omega arith)
peel_outcome (suc fuel) (e ∷ es) enough =
    go (ready_ids (e ∷ es)) refl (λ small. peel_outcome fuel (after_round (e ∷ es)) small)
  where
    go :
        (ready : List String)
        → ready_ids (e ∷ es) ≡ ready
        → (length (after_round (e ∷ es)) ≤ fuel
            → (peel fuel (after_round (e ∷ es)) ≡ ok tt)
              ⊎ (peel fuel (after_round (e ∷ es)) ≡ err cycle))
        → ((elim ready [ [] ↦ err cycle | r ∷ rs ↦ peel fuel (after_round (e ∷ es)) ]) ≡ ok tt)
          ⊎ ((elim ready [ [] ↦ err cycle | r ∷ rs ↦ peel fuel (after_round (e ∷ es)) ])
              ≡ err cycle)
    go [] h rest = inr refl
    go (r ∷ rs) h rest = let shorter = after_round-length (e ∷ es) r rs h in rest (omega arith)
