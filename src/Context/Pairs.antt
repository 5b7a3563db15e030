-- ===== src/Context/Pairs.antt =====
-- Histories whose tool results answer the tool calls before them, described without the loop of
-- context/tool_sequence.py.
use bauhinia_agent.Common.{
  if◌then◌else◌, String, true, false, not, ◌||◌, ◌&&◌, ◌≡◌, ◌≢◌, ◌⊎◌, inl, inr, refl, sym, ◌∙◌, ap,
  Option, none, some, List, [], ◌∷◌, elem, ◌==◌, string_eq, is_empty_text, ok, err, Bool-cases,
  arith, >>=-eq-ok,
}
use bauhinia_agent.Context.ToolSequence.{
  MessagePart, Checked, required_id, add_id, add_calls, missing_id,
}

abbrev pub IsCall : String → Type 0
IsCall kind = kind ≡ "tool_call"

abbrev pub IsResult : String → Type 0
IsResult kind = (kind ≡ "tool_result") ⊎ (kind ≡ "archive_placeholder")

abbrev pub Names : MessagePart → String → Type 0
Names p id = (p.tool_call_id ≡ some id) × (id ≢ "")

-- The identifiers that the parts of some kinds name, in order; each of these parts names one.
pub data Ids (K : String → Type 0) : List MessagePart → List String → Type 0 where
  no_part : Ids K [] []
  named :
      {p : MessagePart} {ps : List MessagePart} {id : String} {ids : List String}
      → K p.kind
      → Names p id
      → Ids K ps ids
      → Ids K (p ∷ ps) (id ∷ ids)
  other :
      {p : MessagePart} {ps : List MessagePart} {ids : List String}
      → (¬ K p.kind)
      → Ids K ps ids
      → Ids K (p ∷ ps) ids

-- Two lists with the same identifiers.
abbrev pub SameIds : List String → List String → Type 0
SameIds xs ys = (id : String) → elem id xs ≡ elem id ys

abbrev pub Within : List String → List String → Type 0
Within xs ys = (id : String) → elem id xs ≡ true → elem id ys ≡ true

-- The second list has what the first had and the third does not.
abbrev pub Less : List String → List String → List String → Type 0
Less pending left ids = (id : String) → elem id left ≡ (elem id pending && not (elem id ids))

pub eq_comm : (x y : String) → (x == y) ≡ (y == x)
eq_comm x y = elim (Bool-cases (x == y)) [
  | inl same ↦ same ∙ sym ((string_eq.equal_iff y x).1 (sym ((string_eq.equal_iff x y).0 same)))
  | inr apart ↦ elim (Bool-cases (y == x)) [
    | inl same ↦
        cc (sym apart ∙ (string_eq.equal_iff x y).1 (sym ((string_eq.equal_iff y x).0 same)))
    | inr differs ↦ apart ∙ sym differs
  ]
]

pub required_id-Names : (p : MessagePart) (id : String) → required_id p ≡ ok id → Names p id
unfolding required_id
required_id-Names p id h = go p.tool_call_id h
  where
    same : {s t : String} → ◌≡◌ {A = Checked String} (ok s) (ok t) → s ≡ t
    same e = cc

    text :
        (s : String)
        → (if is_empty_text s then err (missing_id p.kind) else ok s) ≡ ok id
        → (some s ≡ some id) × (id ≢ "")
    text String.[] e = cc
    text (String.◌∷◌ c s) e = (ap some (same e), λ blank. cc (ap is_empty_text (same e ∙ blank)))

    go :
        (o : Option String)
        → (elim o [
          | none ↦ err (missing_id p.kind)
          | some s ↦ if is_empty_text s then err (missing_id p.kind) else ok s
        ])
          ≡ ok id
        → (o ≡ some id) × (id ≢ "")
    go none e = cc
    go (some s) e = text s e

pub Names-required_id : (p : MessagePart) (id : String) → Names p id → required_id p ≡ ok id
unfolding required_id
Names-required_id p id (names, full) =
    ap
      (λ o. elim o [
        | none ↦ err (missing_id p.kind)
        | some s ↦ if is_empty_text s then err (missing_id p.kind) else ok s
      ])
      names
    ∙ text id full
  where
    text :
        (s : String) → s ≢ "" → (if is_empty_text s then err (missing_id p.kind) else ok s) ≡ ok s
    text String.[] e = absurd (e refl)
    text (String.◌∷◌ c s) e = refl

elem-add_id :
    (x id : String) (pending : List String)
    → elem x (add_id id pending) ≡ (id == x || elem x pending)
elem-add_id x id pending = elim (Bool-cases (elem id pending)) [
  | inl old ↦ rw old (go (Bool-cases (id == x)) old)
  | inr new ↦ rw new refl
]
  where
    go :
        ((id == x) ≡ true) ⊎ ((id == x) ≡ false)
        → elem id pending ≡ true
        → elem x pending ≡ (id == x || elem x pending)
    go (inl same) old =
        rw same (ap (λ k. elem k pending) (sym ((string_eq.equal_iff id x).0 same)) ∙ old)
    go (inr apart) old = rw apart refl

pub add_calls-Ids :
    (pending left : List String) (ps : List MessagePart)
    → add_calls pending ps ≡ ok left
    → (ids : List String) × Ids IsCall ps ids
      × ((x : String) → elem x left ≡ (elem x pending || elem x ids))
unfolding add_calls
add_calls-Ids pending left [] h = ([], no_part, λ x. ground (arith, ap (elem x) (same h)))
  where
    same : {s t : List String} → ◌≡◌ {A = Checked (List String)} (ok s) (ok t) → s ≡ t
    same e = cc
add_calls-Ids pending left (p ∷ ps) h = elim (Bool-cases (p.kind == "tool_call")) [
  | inl is_call ↦
      let (id, names, h1) = >>=-eq-ok (required_id p) _ (rw (is_call, add_calls) at h) in
      let (ids, calls, has) = add_calls-Ids (add_id id pending) left ps h1 in
      (
        id ∷ ids,
        named ((string_eq.equal_iff p.kind "tool_call").0 is_call) (required_id-Names p id names)
            calls,
        λ x. ground (arith, has x, elem-add_id x id pending),
      )
  | inr no_call ↦
      let (ids, calls, has) = add_calls-Ids pending left ps (rw (no_call, add_calls) at h) in
      (ids, other (λ k. cc (sym no_call ∙ (string_eq.equal_iff p.kind "tool_call").1 k)) calls, has)
]

pub Ids-add_calls :
    (pending : List String) (ps : List MessagePart) (ids : List String)
    → Ids IsCall ps ids
    → (left : List String) × (add_calls pending ps ≡ ok left)
      × ((x : String) → elem x left ≡ (elem x pending || elem x ids))
unfolding add_calls
Ids-add_calls pending _ _ no_part = (pending, refl, λ x. ground arith)
Ids-add_calls pending (p ∷ ps) (id ∷ ids) (named k names calls) =
    let (left, run, has) = Ids-add_calls (add_id id pending) ps ids calls in
    (
      left,
      rw ((string_eq.equal_iff p.kind "tool_call").1 k, Names-required_id p id names, add_calls)
          run,
      λ x. ground (arith, has x, elem-add_id x id pending),
    )
Ids-add_calls pending (p ∷ ps) ids (other away calls) = elim (Bool-cases (p.kind == "tool_call")) [
  | inl is_call ↦ absurd (away ((string_eq.equal_iff p.kind "tool_call").0 is_call))
  | inr no_call ↦
      let (left, run, has) = Ids-add_calls pending ps ids calls in
      (left, rw (no_call, add_calls) run, has)
]
