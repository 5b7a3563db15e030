-- ===== src/Context/Histories.antt =====
-- The histories that context/tool_sequence.py accepts.
use bauhinia_agent.Common.{
  inl, inr, String, false, ◌||◌, ◌&&◌, ◌≡◌, ◌≢◌, refl, sym, ◌∙◌, ap, List, [], ◌∷◌, ◌++◌, elem,
  Unique, ◌==◌, string_eq, ok, Bool-cases, arith, elem-append, beq_refl,
}
use bauhinia_agent.Context.ToolSequence.{
  AgentMessage, check_message, check_messages, check_messages-append,
}
use bauhinia_agent.Context.Pairs.{IsCall, IsResult, Ids, SameIds, Ids-add_calls}
use bauhinia_agent.Context.Results.{Ids-settle_results}

-- The messages are a tool's, and these are the identifiers of their results, in order.
pub data Answers : List AgentMessage → List String → Type 0 where
  no_message : Answers [] []
  answer :
      {m : AgentMessage} {ms : List AgentMessage} {ids rest : List String}
      → m.role ≡ "tool"
      → Ids IsResult m.parts ids
      → Answers ms rest
      → Answers (m ∷ ms) (ids ++ rest)

-- A history in which each message of the assistant is followed by the messages of tools that answer
-- it: each call has one result, no call has two, and there is no result without a call. Other messages
-- stand between these rounds, also those of tools that hold no result.
pub data IsPaired : List AgentMessage → Type 0 where
  ends : IsPaired []
  passes :
      {m : AgentMessage} {ms : List AgentMessage}
      → m.role ≢ "assistant"
      → m.role ≢ "tool"
      → IsPaired ms
      → IsPaired (m ∷ ms)
  idles :
      {m : AgentMessage} {ms : List AgentMessage}
      → m.role ≡ "tool"
      → Ids IsResult m.parts []
      → IsPaired ms
      → IsPaired (m ∷ ms)
  calls :
      {m : AgentMessage} {ts rest : List AgentMessage} {asked results : List String}
      → m.role ≡ "assistant"
      → Ids IsCall m.parts asked
      → Answers ts results
      → Unique results
      → SameIds asked results
      → IsPaired rest
      → IsPaired (m ∷ ts ++ rest)

pub none_in : (pending : List String) → ((x : String) → elem x pending ≡ false) → pending ≡ []
none_in [] h = refl
none_in (p ∷ ps) h = cc (sym (h p) ∙ ap (λ b. b || elem p ps) (beq_refl p))

unequal_texts : (s t : String) → s ≢ t → (s == t) ≡ false
unequal_texts s t apart = elim (Bool-cases (s == t)) [
  | inl same ↦ absurd (apart ((string_eq.equal_iff s t).0 same))
  | inr other ↦ other
]

left_of_Unique : (xs ys : List String) → Unique (xs ++ ys) → Unique xs
left_of_Unique [] ys u = tt
left_of_Unique (x ∷ xs) ys u = (ground (arith, elem-append x xs ys, u.0), left_of_Unique xs ys u.1)

right_of_Unique : (xs ys : List String) → Unique (xs ++ ys) → Unique ys
right_of_Unique [] ys u = u
right_of_Unique (x ∷ xs) ys u = right_of_Unique xs ys u.1

apart_of_Unique :
    (k : String) (xs ys : List String) → Unique (xs ++ ys) → (elem k xs && elem k ys) ≡ false
apart_of_Unique k [] ys u = refl
apart_of_Unique k (x ∷ xs) ys u = elim (Bool-cases (x == k)) [
  | inl same ↦
      let at : elem k (xs ++ ys) ≡ false =
        ap (λ j. elem j (xs ++ ys)) (sym ((string_eq.equal_iff x k).0 same)) ∙ u.0 in
      ground (arith, at, elem-append k xs ys)
  | inr other ↦ ground (arith, other, apart_of_Unique k xs ys u.1)
]

-- Messages that answer the calls that are open leave none open.
answered :
    (pending : List String) (ts : List AgentMessage) (results : List String)
    → Answers ts results
    → Unique results
    → SameIds pending results
    → check_messages pending ts ≡ ok []
unfolding check_messages check_message
answered pending _ _ no_message once same = ap ok (none_in pending same)
answered pending (m ∷ ts) _ (answer {ids = ids} {rest = rest} role results more) once same =
    let (left, run, less) =
      Ids-settle_results pending m.parts ids results (left_of_Unique ids rest once)
        (λ x e. ground (arith, same x, elem-append x ids rest, e)) in
    rw (ap (λ r. r == "assistant") role, ap (λ r. r == "tool") role, run, check_message)
      (answered left ts rest more (right_of_Unique ids rest once) (λ x.
        ground (arith, less x, same x, elem-append x ids rest, apart_of_Unique x ids rest once)))

pub IsPaired-accepted : (ms : List AgentMessage) → IsPaired ms → check_messages [] ms ≡ ok []
unfolding check_messages check_message
IsPaired-accepted _ ends = refl
IsPaired-accepted (m ∷ ms) (passes no_assistant no_tool p) =
    rw
      (
        unequal_texts m.role "assistant" no_assistant,
        unequal_texts m.role "tool" no_tool,
        check_message,
      )
      (IsPaired-accepted ms p)
IsPaired-accepted (m ∷ ms) (idles role parts p) =
    check_messages-append [] (m ∷ []) ms
      (answered [] (m ∷ []) [] (answer role parts no_message) tt (λ x. refl))
    ∙ IsPaired-accepted ms p
IsPaired-accepted (m ∷ _)
      (calls {ts = ts} {rest = rest} {asked = asked} {results = results} role parts more once same
        p) =
    let (left, run, has) = Ids-add_calls [] m.parts asked parts in
    rw (ap (λ r. r == "assistant") role, run, check_message)
      (check_messages-append left ts rest
          (answered left ts results more once (λ x. ground (arith, has x, same x)))
        ∙ IsPaired-accepted rest p)
