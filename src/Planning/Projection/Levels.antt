-- ===== src/Planning/Projection/Levels.antt =====
-- The loop of `topological_levels`: what its levels say, and when it finds them.
use bauhinia_agent.Common.{
  zero, All-filter, All-elem, filter-All, >>=-eq-ok, all_iff, err, ℕ, suc, ◌<◌, String, ◌≡◌, ◌⊎◌,
  inl, inr, elem-append, ◌≢◌, refl, Bool, true, false, not, none, some, List, [], ◌∷◌, ◌++◌,
  string_eq, elem, elem-filter, All, All-map, All-of_elem, length, arith, Bool-cases, if◌then◌else◌,
  filter, all, length-filter-disjoint, ok, ◌>>=◌, filter_ok_pure,
}
use bauhinia_agent.Common.Dict.{Dict, get}
use bauhinia_agent.Planning.Errors.{cycle, plan_error}
use bauhinia_agent.Planning.Projection.{levels_from, index, level}

-- `dependencies[id]`, or no dependency where there is none to read.
abbrev pub deps_at : Dict (List String) → String → List String
deps_at d id = elim (get id d) [ none ↦ [] | some ds ↦ ds ]

abbrev pub flat : List (List String) → List String
flat [] = []
flat (l ∷ ls) = l ++ flat ls

-- The number of the level that holds the id.
unfoldable pub rank_in : List (List String) → String → ℕ
rank_in [] id = 0
rank_in (l ∷ ls) id = if elem id l then 0 else suc (rank_in ls id)

abbrev pub IsKnown : Dict (List String) → String → Type 0
IsKnown d id = get id d ≡ some (deps_at d id)

module _ (d : Dict (List String)) where
  abbrev pub is_free : List String → String → Bool
  is_free done id = all (λ x. elem x done) (deps_at d id)

  abbrev pub free : List String → List String → List String
  free done remaining = filter (is_free done) remaining

  abbrev pub left : List String → List String → List String
  left done remaining = filter (λ i. not (elem i done)) remaining

  index-known : (id : String) → IsKnown d id → index d id ≡ ok (deps_at d id)
  unfolding index
  index-known id h = rw (h, index)

  pub level_pure :
      (done remaining : List String)
      → All (IsKnown d) remaining
      → level d done remaining ≡ ok (free done remaining)
  level_pure done remaining k =
      filter_ok_pure (λ id. index d id >>= λ ds. ok (all (λ x. elem x done) ds)) (is_free done)
        remaining
        (All-map (IsKnown d)
          (λ id. (index d id >>= λ ds. ok (all (λ x. elem x done) ds)) ≡ ok (is_free done id))
          remaining (λ id h. rw (index-known id h)) k)

  -- A round takes from the remaining ids those that are free.
  pub left_shrinks :
      (done remaining : List String)
      → free done remaining ≢ []
      → length (left (done ++ free done remaining) remaining) < length remaining
  left_shrinks done remaining h = ground (
    arith,
    length-filter-disjoint (λ i. not (elem i (done ++ free done remaining))) (is_free done)
        remaining
        (All-of_elem
          (λ x. (not (elem x (done ++ free done remaining)) ≡ true → is_free done x ≡ false))
          remaining gone),
    filled (free done remaining) h,
  )
    where
      filled : (xs : List String) → xs ≢ [] → 0 < length xs
      filled [] h = absurd (h refl)
      filled (x ∷ xs) h = omega arith

      gone :
          (x : String)
          → elem x remaining ≡ true
          → not (elem x (done ++ free done remaining)) ≡ true
          → is_free done x ≡ false
      gone x m out =
          ground (
            arith,
            elem-append x done (free done remaining),
            elem-filter (is_free done) x remaining,
          )

  -- A task of a level waits only for tasks of earlier levels, or for those that were done before.
  abbrev pub Ordered : List String → List (List String) → String → Type 0
  Ordered done ls id =
      All (λ x. (elem x done ≡ true) ⊎ (rank_in ls x < rank_in ls id)) (deps_at d id)

  Round : List String → List String → List (List String) → Type 0
  Round done [] ls = ls ≡ []
  Round done (id ∷ ids) ls =
      (rest : List (List String)) × (free done (id ∷ ids) ≢ []) × (ls ≡ free done (id ∷ ids) ∷ rest)

  Ordered-step :
      (done c : List String) (ls : List (List String)) (id : String)
      → elem id c ≡ false
      → Ordered (done ++ c) ls id
      → Ordered done (c ∷ ls) id
  unfolding rank_in
  Ordered-step done c ls id out h =
      All-map (λ x. (elem x (done ++ c) ≡ true) ⊎ (rank_in ls x < rank_in ls id))
        (λ x. (elem x done ≡ true) ⊎ (rank_in (c ∷ ls) x < rank_in (c ∷ ls) id)) (deps_at d id)
        (λ x k. step x k) h
    where
      step :
          (x : String)
          → (elem x (done ++ c) ≡ true) ⊎ (rank_in ls x < rank_in ls id)
          → (elem x done ≡ true) ⊎ (rank_in (c ∷ ls) x < rank_in (c ∷ ls) id)
      step x k = elim (Bool-cases (elem x done)) [
        | inl before ↦ inl before
        | inr fresh ↦ elim (Bool-cases (elem x c)) [
          | inl first ↦ inr (rw (out, first) (omega arith))
          | inr later ↦ elim k [
            | inl placed ↦ absurd (ground (arith, elem-append x done c))
            | inr below ↦ inr (rw (out, later) (omega arith))
          ]
        ]
      ]

  Ordered-free :
      (done c : List String) (ls : List (List String)) (id : String)
      → is_free done id ≡ true
      → Ordered done (c ∷ ls) id
  Ordered-free done c ls id h =
      All-map (λ x. elem x done ≡ true)
        (λ x. (elem x done ≡ true) ⊎ (rank_in (c ∷ ls) x < rank_in (c ∷ ls) id)) (deps_at d id)
        (λ x m. inl m) ((all_iff (λ x. elem x done) (deps_at d id)).0 h)

  after_round :
      (fuel : ℕ) (done remaining current : List String) {ls : List (List String)}
      → (elim current [
        | [] ↦ err (plan_error cycle)
        | c ∷ cs ↦ levels_from fuel d (done ++ c ∷ cs) (left (done ++ c ∷ cs) remaining) >>= λ rest.
            ok ((c ∷ cs) ∷ rest)
      ])
        ≡ ok ls
      → (rest : List (List String)) × (levels_from fuel d
            (done ++ current)
            (left (done ++ current) remaining)
          ≡ ok rest)
        × (ls ≡ current ∷ rest)
        × (current ≢ [])
  after_round fuel done remaining [] h = cc
  after_round fuel done remaining (c ∷ cs) h =
      let (rest, e, same) =
        >>=-eq-ok (levels_from fuel d (done ++ c ∷ cs) (left (done ++ c ∷ cs) remaining))
          (λ rest. ok ((c ∷ cs) ∷ rest)) h in
      (rest, e, cc, λ p. cc)

  pub levels-inv :
      (fuel : ℕ) (done : List String) (id : String) (rest_ids : List String)
      {ls : List (List String)}
      → All (IsKnown d) (id ∷ rest_ids)
      → levels_from (suc fuel) d done (id ∷ rest_ids) ≡ ok ls
      → (let c = free done (id ∷ rest_ids) in
          (rest : List (List String)) × (levels_from fuel d
              (done ++ c)
              (left (done ++ c) (id ∷ rest_ids))
            ≡ ok rest)
          × (ls ≡ c ∷ rest)
          × (c ≢ []))
  unfolding levels_from
  levels-inv fuel done id rest_ids known h =
      after_round fuel done (id ∷ rest_ids) (free done (id ∷ rest_ids))
        (rw (level_pure done (id ∷ rest_ids) known) at h)

  pub Known-left :
      (done remaining : List String)
      → All (IsKnown d) remaining
      → All (IsKnown d) (left done remaining)
  Known-left done remaining = All-filter (IsKnown d) (λ i. not (elem i done)) remaining

  pub left_fresh :
      (done remaining : List String) → All (λ i. elem i done ≡ false) (left done remaining)
  left_fresh done remaining =
      All-map (λ i. not (elem i done) ≡ true) (λ i. elem i done ≡ false) (left done remaining)
        (λ i h. ground arith) (filter-All (λ i. not (elem i done)) remaining)

  pub no_rounds :
      (done : List String) (id : String) (ids : List String) {ls : List (List String)}
      → ¬ (levels_from zero d done (id ∷ ids) ≡ ok ls)
  unfolding levels_from
  no_rounds done id ids e = cc

  -- Every task of the levels stands behind the tasks that it waits for.
  pub levels-Ordered :
      (fuel : ℕ) (done remaining : List String) {ls : List (List String)}
      → All (IsKnown d) remaining
      → All (λ i. elem i done ≡ false) remaining
      → levels_from fuel d done remaining ≡ ok ls
      → All (Ordered done ls) remaining
  levels-Ordered fuel done [] known fresh h = tt
  levels-Ordered zero done (id ∷ ids) known fresh h = absurd (no_rounds done id ids h)
  levels-Ordered (suc fuel) done (id ∷ ids) {ls} known fresh h =
      let (rest, e, same, some_free) = levels-inv fuel done id ids known h in
      let c = free done (id ∷ ids) in
      let later =
        levels-Ordered fuel (done ++ c) (left (done ++ c) (id ∷ ids)) {ls = rest}
          (Known-left (done ++ c) (id ∷ ids) known) (left_fresh (done ++ c) (id ∷ ids)) e in
      All-of_elem (Ordered done ls) (id ∷ ids)
        (λ i m. rw same (place done (id ∷ ids) rest fresh later i m))
    where
      place :
          (done remaining : List String) (rest : List (List String))
          → All (λ i. elem i done ≡ false) remaining
          → All
              (Ordered (done ++ free done remaining) rest)
              (left (done ++ free done remaining) remaining)
          → (i : String) → elem i remaining ≡ true
          → Ordered done (free done remaining ∷ rest) i
      place done remaining rest fresh later i m = elim (Bool-cases (is_free done i)) [
        | inl now ↦ Ordered-free done (free done remaining) rest i now
        | inr waits ↦
            let out : elem i (free done remaining) ≡ false =
              ground (arith, elem-filter (is_free done) i remaining) in
            Ordered-step done (free done remaining) rest i out (
              All-elem (Ordered (done ++ free done remaining) rest) i
                (left (done ++ free done remaining) remaining) later
                (ground (
                  arith,
                  elem-filter (λ j. not (elem j (done ++ free done remaining))) i remaining,
                  elem-append i done (free done remaining),
                  All-elem (λ j. elem j done ≡ false) i remaining fresh,
                )))
      ]
