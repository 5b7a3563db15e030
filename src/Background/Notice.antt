-- ===== src/Background/Notice.antt =====
-- render_task_notification of agent/background.py, with the `escape` of Python's html module and the
-- texts of numbers.
use Prim.Native.Char.{code}
use Prim.Native.String.{◌++◌ as append}
use text.Mathlib.TextLemmas.{cons-append, nil-append}
use bauhinia_agent.Common.{
  ℕ, zero, suc, ◌+◌, ◌*◌, ◌/◌, ◌%◌, ◌≡◌, refl, ◌∙◌, String, Option, none, some, List, [], ◌∷◌, ◌++◌,
  ltb, ◌==◌, nat_eq, if◌then◌else◌, is_empty_text, All, arith, Bool-cases, inl, inr,
}
use bauhinia_agent.Background.{
  Status, running, completed, failed, cancelled, BackgroundNotification,
}

-- `escape(text, quote=False)`
unfoldable pub escape : String → String
escape String.[] = String.[]
escape (String.◌∷◌ c s) =
    let rest = escape s in
    if code c == 38
    then append "&amp;" rest
    else if code c == 60
    then append "&lt;" rest
    else if code c == 62
    then append "&gt;" rest
    else String.◌∷◌ c rest

abbrev nth : ℕ → List String → String
nth n [] = ""
nth zero (s ∷ ss) = s
nth (suc n) (s ∷ ss) = nth n ss

abbrev digits : List String
digits = "0" ∷ "1" ∷ "2" ∷ "3" ∷ "4" ∷ "5" ∷ "6" ∷ "7" ∷ "8" ∷ "9" ∷ []

abbrev digit : ℕ → String
digit n = nth n digits

-- The digits of a number before a text; as many rounds as the number are enough.
unfoldable decimal_before : (fuel n : ℕ) → String → String
decimal_before zero n after = append (digit n) after
decimal_before (suc f) n after =
    let rest = decimal_before f (n / 10) (append (digit (n % 10)) after) in
    if ltb n 10 then append (digit n) after else rest

unfoldable pub decimal : ℕ → String
unfolding decimal_before
decimal n = decimal_before n n ""

-- `f"bg_{counter:04d}"`
unfoldable pub job_name : ℕ → String
unfolding decimal
job_name n = append "bg_" (
    append (if ltb n 10 then "000" else if ltb n 100 then "00" else if ltb n 1000 then "0" else "")
      (decimal n))

abbrev pub status_text : Status → String
status_text running = "running"
status_text completed = "completed"
status_text failed = "failed"
status_text cancelled = "cancelled"

abbrev element : (open_tag close_tag text : String) → String
element open_tag close_tag text = append open_tag (append text close_tag)

-- `if text:` of an optional text
abbrev optional : Option String → (String → String) → List String
optional none f = []
optional (some s) f = if is_empty_text s then [] else f s ∷ []

abbrev numbered : Option ℕ → (ℕ → String) → List String
numbered none f = []
numbered (some n) f = f n ∷ []

abbrev pub lines_of : BackgroundNotification → List String
lines_of n =
    "<task_notification>"
    ∷ element "  <job_id>" "</job_id>" (escape (job_name n.job_id))
    ∷ element "  <kind>" "</kind>" (escape n.kind)
    ∷ element "  <tool_name>" "</tool_name>" (escape n.tool_name)
    ∷ (optional n.label (λ s. element "  <label>" "</label>" (escape s))
        ++ (optional n.task_id (λ s. element "  <task_id>" "</task_id>" (escape s))
            ++ (numbered n.observed_revision
                  (λ k. element "  <observed_revision>" "</observed_revision>" (decimal k))
                ++ (optional n.task_plan_completion
                      (λ s. element "  <task_plan_completion>" "</task_plan_completion>" (escape s))
                    ++ (element "  <status>" "</status>" (escape (status_text n.status))
                        ∷ element "  <summary>" "</summary>" (escape n.summary)
                        ∷ "</task_notification>"
                        ∷ [])))))

-- `"\n".join(lines)`
unfoldable pub join_lines : List String → String
join_lines [] = ""
join_lines (s ∷ []) = s
join_lines (s ∷ t ∷ rest) = append s (append "\n" (join_lines (t ∷ rest)))

unfoldable pub render_task_notification : BackgroundNotification → String
unfolding escape decimal job_name join_lines
render_task_notification n = join_lines (lines_of n)

-- How many tags a text opens or closes: its signs `<`.
abbrev pub tags : String → ℕ
tags String.[] = 0
tags (String.◌∷◌ c s) = let rest = tags s in if code c == 60 then suc rest else rest

pub tags-append : (s t : String) → tags (append s t) ≡ tags s + tags t
tags-append String.[] t = rw (nil-append t) (omega arith)
tags-append (String.◌∷◌ c s) t = rw (cons-append c s t) (ground (arith, tags-append s t))

escape-tags : (s : String) → tags (escape s) ≡ 0
unfolding escape
escape-tags String.[] = refl
escape-tags (String.◌∷◌ c s) = ground (
  arith,
  escape-tags s,
  tags-append "&amp;" (escape s),
  tags-append "&lt;" (escape s),
  tags-append "&gt;" (escape s),
)

nth-tags : (n : ℕ) (ss : List String) → All (λ s. tags s ≡ 0) ss → tags (nth n ss) ≡ 0
nth-tags n [] h = refl
nth-tags zero (s ∷ ss) h = h.0
nth-tags (suc n) (s ∷ ss) h = nth-tags n ss h.1

digit-tags : (n : ℕ) → tags (digit n) ≡ 0
digit-tags n = nth-tags n digits zeros
  where
    zeros : All (λ s. tags s ≡ 0) digits
    zeros = (refl, (refl, (refl, (refl, (refl, (refl, (refl, (refl, (refl, (refl, tt))))))))))

decimal_before-tags :
    (fuel n : ℕ) (after : String) → tags (decimal_before fuel n after) ≡ tags after
unfolding decimal_before
decimal_before-tags zero n after = omega (arith, tags-append (digit n) after, digit-tags n)
decimal_before-tags (suc f) n after =
    let last = append (digit (n % 10)) after in
    ground (
      arith,
      decimal_before-tags f (n / 10) last,
      tags-append (digit n) after,
      tags-append (digit (n % 10)) after,
      digit-tags n,
      digit-tags (n % 10),
    )

decimal-tags : (n : ℕ) → tags (decimal n) ≡ 0
unfolding decimal
decimal-tags n = decimal_before-tags n n ""

abbrev sum_tags : List String → ℕ
sum_tags [] = 0
sum_tags (s ∷ rest) = tags s + sum_tags rest

sum_tags-append : (xs ys : List String) → sum_tags (xs ++ ys) ≡ sum_tags xs + sum_tags ys
sum_tags-append [] ys = omega arith
sum_tags-append (x ∷ xs) ys = omega (arith, sum_tags-append xs ys)

join_lines-tags : (xs : List String) → tags (join_lines xs) ≡ sum_tags xs
unfolding join_lines
join_lines-tags [] = refl
join_lines-tags (s ∷ []) = omega arith
join_lines-tags (s ∷ t ∷ rest) = omega (
  arith,
  tags-append s (append "\n" (join_lines (t ∷ rest))),
  tags-append "\n" (join_lines (t ∷ rest)),
  join_lines-tags (t ∷ rest),
)

element-tags : (a b s : String) → tags s ≡ 0 → tags (element a b s) ≡ tags a + tags b
element-tags a b s h = omega (arith, tags-append a (append s b), tags-append s b, h)

-- The parts of a notification that are there only with a text, or a number.
abbrev pub shown : Option String → ℕ
shown none = 0
shown (some s) = if is_empty_text s then 0 else 1

abbrev pub counted : Option ℕ → ℕ
counted none = 0
counted (some n) = 1

optional-tags :
    (o : Option String) (a b : String)
    → tags a ≡ 1
    → tags b ≡ 1
    → sum_tags (optional o (λ s. element a b (escape s))) ≡ 2 * shown o
optional-tags none a b h k = refl
optional-tags (some s) a b h k = elim (Bool-cases (is_empty_text s)) [
  | inl empty ↦ rw empty refl
  | inr full ↦ rw full (omega (arith, element-tags a b (escape s) (escape-tags s), h, k))
]

numbered-tags :
    (o : Option ℕ) (a b : String)
    → tags a ≡ 1
    → tags b ≡ 1
    → sum_tags (numbered o (λ k. element a b (decimal k))) ≡ 2 * counted o
numbered-tags none a b h k = refl
numbered-tags (some n) a b h k = omega (arith, element-tags a b (decimal n) (decimal-tags n), h, k)

-- No text in a notification can open or close an element: whatever its fields hold, the rendered
-- notification has the signs `<` of its own elements, two for each one, and no other.
pub tags-render_task_notification :
    (n : BackgroundNotification)
    → tags (render_task_notification n)
      ≡ 2
        * (6
            + shown n.label
            + shown n.task_id
            + counted n.observed_revision
            + shown n.task_plan_completion)
unfolding render_task_notification
tags-render_task_notification n =
    let label = optional n.label (λ s. element "  <label>" "</label>" (escape s)) in
    let task_id = optional n.task_id (λ s. element "  <task_id>" "</task_id>" (escape s)) in
    let revision =
      numbered n.observed_revision
        (λ k. element "  <observed_revision>" "</observed_revision>" (decimal k)) in
    let completion =
      optional n.task_plan_completion
        (λ s. element "  <task_plan_completion>" "</task_plan_completion>" (escape s)) in
    let last =
      element "  <status>" "</status>" (escape (status_text n.status))
      ∷ element "  <summary>" "</summary>" (escape n.summary)
      ∷ "</task_notification>"
      ∷ [] in
    join_lines-tags (lines_of n)
    ∙ omega (
      arith,
      element-tags "  <job_id>" "</job_id>" (escape (job_name n.job_id))
          (escape-tags (job_name n.job_id)),
      element-tags "  <kind>" "</kind>" (escape n.kind) (escape-tags n.kind),
      element-tags "  <tool_name>" "</tool_name>" (escape n.tool_name) (escape-tags n.tool_name),
      element-tags "  <status>" "</status>" (escape (status_text n.status))
          (escape-tags (status_text n.status)),
      element-tags "  <summary>" "</summary>" (escape n.summary) (escape-tags n.summary),
      sum_tags-append label (task_id ++ (revision ++ (completion ++ last))),
      sum_tags-append task_id (revision ++ (completion ++ last)),
      sum_tags-append revision (completion ++ last),
      sum_tags-append completion last,
      optional-tags n.label "  <label>" "</label>" refl refl,
      optional-tags n.task_id "  <task_id>" "</task_id>" refl refl,
      numbered-tags n.observed_revision "  <observed_revision>" "</observed_revision>" refl refl,
      optional-tags n.task_plan_completion "  <task_plan_completion>" "</task_plan_completion>" refl
          refl,
    )
