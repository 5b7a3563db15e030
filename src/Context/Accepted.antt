-- ===== src/Context/Accepted.antt =====
-- What the loop of context/tool_sequence.py accepts.
use bauhinia_agent.Common.{
  inl, inr, String, false, ◌&&◌, ◌≡◌, ◌↔◌, refl, sym, ◌∙◌, ap, List, [], ◌∷◌, ◌++◌, elem, Unique,
  ◌==◌, string_eq, ok, Bool-cases, arith, >>=-eq-ok, elem-append, beq_refl,
}
use mathlib.Core.Path.{subst}
use bauhinia_agent.Context.ToolSequence.{
  AgentMessage, Checked, raise_if_pending, nothing_open, check_message, check_messages,
  validate_tool_call_sequence,
}
use bauhinia_agent.Context.Pairs.{IsResult, Ids, SameIds, Within, Less, add_calls-Ids}
use bauhinia_agent.Context.Results.{settle_results-Ids}
use bauhinia_agent.Context.Histories.{
  Answers, no_message, answer, IsPaired, ends, passes, idles, calls, none_in, IsPaired-accepted,
}

Unique-join :
    (xs ys : List String)
    → Unique xs
    → Unique ys
    → ((k : String) → (elem k xs && elem k ys) ≡ false)
    → Unique (xs ++ ys)
Unique-join [] ys u v apart = v
Unique-join (x ∷ xs) ys u v apart = (
  ground (arith, elem-append x xs ys, u.0, apart x, beq_refl x),
  Unique-join xs ys u.1 v (λ k. ground (arith, apart k)),
)

ok_eq : {a b : List String} → ◌≡◌ {A = Checked (List String)} (ok a) (ok b) → a ≡ b
ok_eq h = cc

-- What follows a place where calls are open.
record Follows (pending : List String) (ms : List AgentMessage) : Type 0 where
  pub before : List AgentMessage
  pub after : List AgentMessage
  pub results : List String
  pub split : ms ≡ before ++ after
  pub answers : Answers before results
  pub once : Unique results
  pub same : SameIds pending results
  pub is_paired : IsPaired after

-- Where no call is open, what follows is paired.
closed :
    (ts after : List AgentMessage) (results : List String)
    → Answers ts results
    → ((x : String) → elem x results ≡ false)
    → IsPaired after
    → IsPaired (ts ++ after)
closed _ after _ no_message none p = p
closed (m ∷ ts) after _ (answer {ids = ids} {rest = rest} role parts more) nothing p =
    idles role
      (subst (Ids IsResult m.parts)
        (none_in ids (λ x. ground (arith, nothing x, elem-append x ids rest))) parts)
      (closed ts after rest more (λ x. ground (arith, nothing x, elem-append x ids rest)) p)

Follows-paired : (ms : List AgentMessage) → Follows [] ms → IsPaired ms
Follows-paired ms f =
    subst IsPaired (sym f.split)
      (closed f.before f.after f.results f.answers (λ x. sym (f.same x)) f.is_paired)

check_messages-Follows :
    (pending : List String) (ms : List AgentMessage)
    → check_messages pending ms ≡ ok []
    → Follows pending ms
unfolding check_messages check_message
check_messages-Follows pending [] h = record {
  before = [];
  after = [];
  results = [];
  split = refl;
  answers = no_message;
  once = tt;
  same = λ x. ap (elem x) (ok_eq h);
  is_paired = ends;
}
check_messages-Follows pending (m ∷ ms) h = elim (Bool-cases (m.role == "assistant")) [
  | inl asks ↦
      let (next, first, h1) = >>=-eq-ok (check_message pending m) _ h in
      let (u, closed_before, first1) =
        >>=-eq-ok (raise_if_pending pending) _ (rw (asks, check_message) at first) in
      let (asked, parts, has) = add_calls-Ids [] next m.parts first1 in
      let f = check_messages-Follows next ms h1 in
      idle pending (nothing_open pending closed_before) (
        subst (λ k. IsPaired (m ∷ k)) (sym f.split)
          (calls ((string_eq.equal_iff m.role "assistant").0 asks) parts f.answers f.once
            (λ x. sym (has x) ∙ f.same x) f.is_paired))
  | inr not_asks ↦ elim (Bool-cases (m.role == "tool")) [
    | inl tells ↦
        let (next, first, h1) = >>=-eq-ok (check_message pending m) _ h in
        let (ids, parts, unique, within, less) =
          settle_results-Ids pending next m.parts (rw (not_asks, tells, check_message) at first) in
        let f = check_messages-Follows next ms h1 in
        record {
          before = m ∷ f.before;
          after = f.after;
          results = ids ++ f.results;
          split = ap (λ k. m ∷ k) f.split;
          answers = answer ((string_eq.equal_iff m.role "tool").0 tells) parts f.answers;
          once = Unique-join ids f.results unique f.once (λ x. ground (arith, less x, f.same x));
          same = λ x. covers x ids f.results next within less f.same;
          is_paired = f.is_paired;
        }
    | inr not_tells ↦
        let (next, first, h1) = >>=-eq-ok (check_message pending m) _ h in
        let (u, closed_before, first1) =
          >>=-eq-ok (raise_if_pending pending) _
            (rw (not_asks, not_tells, check_message) at first) in
        let f = check_messages-Follows [] ms (ap (λ k. check_messages k ms) (ok_eq first1) ∙ h1) in
        idle pending (nothing_open pending closed_before) (
          passes (λ e. cc (sym not_asks ∙ (string_eq.equal_iff m.role "assistant").1 e))
            (λ e. cc (sym not_tells ∙ (string_eq.equal_iff m.role "tool").1 e))
            (Follows-paired ms f))
  ]
]
  where
    idle : (pending : List String) → pending ≡ [] → IsPaired (m ∷ ms) → Follows pending (m ∷ ms)
    idle pending empty p = record {
      before = [];
      after = m ∷ ms;
      results = [];
      split = refl;
      answers = no_message;
      once = tt;
      same = λ x. ap (elem x) empty;
      is_paired = p;
    }

    covers :
        (x : String) (ids results next : List String)
        → Within ids pending
        → Less pending next ids
        → SameIds next results
        → elem x pending ≡ elem x (ids ++ results)
    covers x ids results next within less same = elim (Bool-cases (elem x ids)) [
      | inl inside ↦ ground (arith, within x inside, elem-append x ids results, inside)
      | inr outside ↦ ground (arith, less x, same x, elem-append x ids results, outside)
    ]

pub validate_tool_call_sequence_iff :
    (messages : List AgentMessage)
    → (validate_tool_call_sequence messages ≡ ok tt) ↔ IsPaired messages
unfolding validate_tool_call_sequence
validate_tool_call_sequence_iff messages = (
  λ h.
      let (pending, read, at_end) = >>=-eq-ok (check_messages [] messages) _ h in
      Follows-paired messages
        (check_messages-Follows [] messages (read ∙ ap ok (nothing_open pending at_end))),
  λ p. rw (IsPaired-accepted messages p) refl,
)
