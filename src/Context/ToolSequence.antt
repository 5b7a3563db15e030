-- ===== src/Context/ToolSequence.antt =====
-- context/tool_sequence.py: whether the tool results of a history answer the tool calls before them.
use bauhinia_agent.Common.{
  String, true, false, not, ◌||◌, ◌≡◌, refl, Option, none, some, List, [], ◌∷◌, ◌++◌, filter, elem,
  ◌==◌, string_eq, if◌then◌else◌, is_empty_text, Result, ok, err, ◌>>=◌, ◌>>◌, require, >>=-eq-ok,
  ap,
}

-- Of the metadata of a part only `tool_call_id` is read.
pub record MessagePart : Type 0 where
  pub kind : String
  pub tool_call_id : Option String

pub record AgentMessage : Type 0 where
  pub role : String
  pub parts : List MessagePart

pub data SequenceError : Type 0 where
  missing_id orphan_result : String → SequenceError
  missing_result : List String → SequenceError

abbrev pub Checked : Type 0 → Type 0
Checked A = Result SequenceError A

-- `_required_metadata`
unfoldable pub required_id : MessagePart → Checked String
required_id p = elim p.tool_call_id [
  | none ↦ err (missing_id p.kind)
  | some s ↦ if is_empty_text s then err (missing_id p.kind) else ok s
]

-- `_raise_if_pending`
abbrev pub raise_if_pending : List String → Checked (Unit {0})
raise_if_pending [] = ok tt
raise_if_pending (p ∷ ps) = err (missing_result (p ∷ ps))

-- `pending.add(id)`
abbrev pub add_id : String → List String → List String
add_id id pending = if elem id pending then pending else id ∷ pending

-- The loops over the parts of a message.
unfoldable pub add_calls : List String → List MessagePart → Checked (List String)
add_calls pending [] = ok pending
add_calls pending (p ∷ ps) = elim (p.kind == "tool_call") [
  | true ↦ required_id p >>= λ id. add_calls (add_id id pending) ps
  | false ↦ add_calls pending ps
]

unfoldable pub settle_results : List String → List MessagePart → Checked (List String)
settle_results pending [] = ok pending
settle_results pending (p ∷ ps) =
    elim (p.kind == "tool_result" || p.kind == "archive_placeholder") [
      | true ↦ do
        id ← required_id p
        require (elem id pending) (orphan_result id)
        settle_results (filter (λ q. not (q == id)) pending) ps
      | false ↦ settle_results pending ps
    ]

-- One round of the loop over the messages.
unfoldable pub check_message : List String → AgentMessage → Checked (List String)
check_message pending m =
    if m.role == "assistant"
    then raise_if_pending pending >> add_calls [] m.parts
    else if m.role == "tool"
    then settle_results pending m.parts
    else raise_if_pending pending >> ok []

unfoldable pub check_messages : List String → List AgentMessage → Checked (List String)
check_messages pending [] = ok pending
check_messages pending (m ∷ ms) = do next ← check_message pending m; check_messages next ms

unfoldable pub validate_tool_call_sequence : List AgentMessage → Checked (Unit {0})
validate_tool_call_sequence messages = do
  pending ← check_messages [] messages
  raise_if_pending pending

pub nothing_open : (pending : List String) → raise_if_pending pending ≡ ok tt → pending ≡ []
nothing_open [] h = refl
nothing_open (p ∷ ps) h = cc

ok_eq : {a b : List String} → ◌≡◌ {A = Checked (List String)} (ok a) (ok b) → a ≡ b
ok_eq h = cc

pub check_messages-append :
    (pending : List String) (xs ys : List AgentMessage) {rest : List String}
    → check_messages pending xs ≡ ok rest
    → check_messages pending (xs ++ ys) ≡ check_messages rest ys
unfolding check_messages
check_messages-append pending [] ys h = ap (λ p. check_messages p ys) (ok_eq h)
check_messages-append pending (x ∷ xs) ys h =
    let (next, first, h1) = >>=-eq-ok (check_message pending x) _ h in
    rw first (check_messages-append next xs ys h1)
