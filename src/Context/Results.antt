-- ===== src/Context/Results.antt =====
-- The tool results of a message (the last loop of context/tool_sequence.py).
use bauhinia_agent.Common.{
  String, Bool, true, false, not, ◌||◌, ◌&&◌, ◌≡◌, inl, inr, refl, sym, ◌∙◌, ap, List, [], ◌∷◌,
  filter, elem, Unique, ◌==◌, string_eq, ok, Bool-cases, arith, >>=-eq-ok, require-eq-ok,
  elem-filter, beq_refl,
}
use bauhinia_agent.Context.ToolSequence.{
  MessagePart, Checked, required_id, settle_results, orphan_result,
}
use bauhinia_agent.Context.Pairs.{
  IsResult, Ids, no_part, named, other, Within, Less, eq_comm, required_id-Names, Names-required_id,
}

abbrev is_result : String → Bool
is_result kind = kind == "tool_result" || kind == "archive_placeholder"

is_result-IsResult : (kind : String) → is_result kind ≡ true → IsResult kind
is_result-IsResult kind h = elim (Bool-cases (kind == "tool_result")) [
  | inl same ↦ inl ((string_eq.equal_iff kind "tool_result").0 same)
  | inr differs ↦
      inr ((string_eq.equal_iff kind "archive_placeholder").0 (ground (arith, h, differs)))
]

IsResult-is_result : (kind : String) → IsResult kind → is_result kind ≡ true
IsResult-is_result kind (inl e) = ground (arith, (string_eq.equal_iff kind "tool_result").1 e)
IsResult-is_result kind (inr e) =
    ground (arith, (string_eq.equal_iff kind "archive_placeholder").1 e)

-- The open calls without the one that a result answers.
abbrev without : String → List String → List String
without id pending = filter (λ q. not (q == id)) pending

elem-without :
    (x id : String) (pending : List String)
    → elem x (without id pending) ≡ (not (id == x) && elem x pending)
elem-without x id pending =
    elem-filter (λ q. not (q == id)) x pending ∙ ap (λ b. not b && elem x pending) (eq_comm x id)

at_same : (id x : String) (ids : List String) → (id == x) ≡ true → elem x ids ≡ elem id ids
at_same id x ids same = ap (λ k. elem k ids) (sym ((string_eq.equal_iff id x).0 same))

Less-more :
    (id : String) (pending left ids : List String)
    → Less (without id pending) left ids
    → Less pending left (id ∷ ids)
Less-more id pending left ids less x = ground (arith, less x, elem-without x id pending)

pub settle_results-Ids :
    (pending left : List String) (ps : List MessagePart)
    → settle_results pending ps ≡ ok left
    → (ids : List String) × Ids IsResult ps ids
      × Unique ids
      × Within ids pending
      × Less pending left ids
unfolding settle_results
settle_results-Ids pending left [] h =
    ([], no_part, tt, (λ x e. cc), λ x. ground (arith, ap (elem x) (same h)))
  where
    same : {s t : List String} → ◌≡◌ {A = Checked (List String)} (ok s) (ok t) → s ≡ t
    same e = cc
settle_results-Ids pending left (p ∷ ps) h =
    elim (Bool-cases (p.kind == "tool_result" || p.kind == "archive_placeholder")) [
      | inl like ↦
          let (id, names, h1) = >>=-eq-ok (required_id p) _ (rw (like, settle_results) at h) in
          let (open_call, h2) = require-eq-ok (elem id pending) (orphan_result id) _ h1 in
          let (ids, results, once, within, less) =
            settle_results-Ids (without id pending) left ps h2 in
          (
            id ∷ ids,
            named (is_result-IsResult p.kind like) (required_id-Names p id names) results,
            (apart id ids within, once),
            (λ x e. inside id ids open_call within x e),
            Less-more id pending left ids less,
          )
      | inr unlike ↦
          let (ids, results, once, within, less) =
            settle_results-Ids pending left ps (rw (unlike, settle_results) at h) in
          (
            ids,
            other (λ k. cc (sym unlike ∙ IsResult-is_result p.kind k)) results,
            once,
            within,
            less,
          )
    ]
  where
    apart :
        (id : String) (ids : List String) → Within ids (without id pending) → elem id ids ≡ false
    apart id ids within = elim (Bool-cases (elem id ids)) [
      | inl again ↦ cc (
          sym (within id again)
          ∙ elem-without id id pending
          ∙ ap (λ b. not b && elem id pending) (beq_refl id))
      | inr new ↦ new
    ]

    inside :
        (id : String) (ids : List String)
        → elem id pending ≡ true
        → Within ids (without id pending)
        → Within (id ∷ ids) pending
    inside id ids open_call within x e = elim (Bool-cases (id == x)) [
      | inl same ↦ at_same id x pending same ∙ open_call
      | inr differs ↦
          ground (arith, within x (ground (arith, e, differs)), elem-without x id pending)
    ]

pub Ids-settle_results :
    (pending : List String) (ps : List MessagePart) (ids : List String)
    → Ids IsResult ps ids
    → Unique ids
    → Within ids pending
    → (left : List String) × (settle_results pending ps ≡ ok left) × Less pending left ids
unfolding settle_results
Ids-settle_results pending _ _ no_part once within = (pending, refl, λ x. ground arith)
Ids-settle_results pending (p ∷ ps) (id ∷ ids) (named k names results) once within =
    let (left, run, less) = Ids-settle_results (without id pending) ps ids results once.1 (λ x e.
      elim (Bool-cases (id == x)) [
        | inl same ↦ cc (sym e ∙ at_same id x ids same ∙ once.0)
        | inr differs ↦
            ground (arith, within x (ground (arith, e)), elem-without x id pending, differs)
      ]) in
    (
      left,
      rw
          (
            IsResult-is_result p.kind k,
            Names-required_id p id names,
            within id (ground (arith, beq_refl id)),
            settle_results,
          )
          run,
      Less-more id pending left ids less,
    )
Ids-settle_results pending (p ∷ ps) ids (other away results) once within =
    elim (Bool-cases (p.kind == "tool_result" || p.kind == "archive_placeholder")) [
      | inl like ↦ absurd (away (is_result-IsResult p.kind like))
      | inr unlike ↦
          let (left, run, less) = Ids-settle_results pending ps ids results once within in
          (left, rw (unlike, settle_results) run, less)
    ]
