-- ===== src/Planning/Projection/Partition.antt =====
-- The levels hold each task once.
use bauhinia_agent.Common.{
  All-elem, zero, suc, ℕ, String, ◌≡◌, refl, ◌∙◌, true, false, not, List, [], ◌∷◌, ◌++◌, string_eq,
  elem, elem-append, elem-filter, All, All-of_elem, Unique, Unique-append, Unique-filter, arith, ok,
}
use bauhinia_agent.Common.Dict.{Dict}
use bauhinia_agent.Planning.Projection.{levels_from}
use bauhinia_agent.Planning.Projection.Levels.{
  flat, IsKnown, is_free, free, left, Known-left, levels-inv, left_fresh, no_rounds,
}

module _ (d : Dict (List String)) where
  pub Unique-levels :
      (fuel : ℕ) (done remaining : List String) {ls : List (List String)}
      → All (IsKnown d) remaining
      → All (λ i. elem i done ≡ false) remaining
      → Unique remaining
      → levels_from fuel d done remaining ≡ ok ls
      → Unique (flat ls) × ((x : String) → elem x (flat ls) ≡ elem x remaining)
  Unique-levels fuel done [] {ls} known fresh once h = rw (empty fuel h) (tt, λ x. refl)
    where
      empty : (n : ℕ) → levels_from n d done [] ≡ ok ls → ls ≡ []
      empty n e = unfold levels_from in cc
  Unique-levels zero done (id ∷ ids) known fresh once h = absurd (no_rounds d done id ids h)
  Unique-levels (suc fuel) done (id ∷ ids) {ls} known fresh once h =
      let (rest, e, same, some_free) = levels-inv d fuel done id ids known h in
      let c = free d done (id ∷ ids) in
      let later =
        Unique-levels fuel (done ++ c) (left d (done ++ c) (id ∷ ids)) {ls = rest}
          (Known-left d (done ++ c) (id ∷ ids) known) (left_fresh d (done ++ c) (id ∷ ids))
          (Unique-filter (λ i. not (elem i (done ++ c))) (id ∷ ids) once) e in
      rw same (join (id ∷ ids) rest fresh once later.0 later.1)
    where
      join :
          (remaining : List String) (rest : List (List String))
          → All (λ i. elem i done ≡ false) remaining
          → Unique remaining
          → Unique (flat rest)
          → ((x : String)
              → elem x (flat rest) ≡ elem x (left d (done ++ free d done remaining) remaining))
          → Unique (flat (free d done remaining ∷ rest))
            × ((x : String) → elem x (flat (free d done remaining ∷ rest)) ≡ elem x remaining)
      join remaining rest fresh once rest_once rest_same = (
        Unique-append (free d done remaining) (flat rest)
            (Unique-filter (is_free d done) remaining once) rest_once
            (All-of_elem (λ x. elem x (flat rest) ≡ false) (free d done remaining)
              (λ x m.
                rest_same x
                ∙ ground (
                  arith,
                  elem-filter (λ j. not (elem j (done ++ free d done remaining))) x remaining,
                  elem-append x done (free d done remaining),
                ))),
        λ x.
            elem-append x (free d done remaining) (flat rest)
            ∙ ground (
              arith,
              rest_same x,
              elem-filter (λ j. not (elem j (done ++ free d done remaining))) x remaining,
              elem-append x done (free d done remaining),
              elem-filter (is_free d done) x remaining,
              fresh_at x remaining fresh,
            ),
      )
        where
          fresh_at :
              (x : String) (remaining : List String)
              → All (λ i. elem i done ≡ false) remaining
              → elem x remaining ≡ true
              → elem x done ≡ false
          fresh_at x remaining f m = All-elem (λ i. elem i done ≡ false) x remaining f m
