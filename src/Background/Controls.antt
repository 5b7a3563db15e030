-- ===== src/Background/Controls.antt =====
-- strip_background_controls and has_background_control_fields of agent/background.py: the control
-- fields that a tool call carries beside the arguments of the tool.
use text.Mathlib.TextEquality.{eq_iff}
use bauhinia_agent.Common.{
  ℕ, zero, suc, ◌≡◌, refl, sym, ap, ◌∙◌, String, Bool, true, false, not, ◌||◌, Option, none, some,
  ◌==◌, string_eq, if◌then◌else◌, is_empty_text, is_blank, strip, arith, Bool-cases, inl, inr,
}
use bauhinia_agent.Common.Int.{pos, negsuc}
use bauhinia_agent.Planning.Values.{
  Value, null, bool, int, str, list, tuple, object, task, patch, revision, opaque, nil, cons,
  Fields, end, field, Key, name, other, find,
}

-- What `strip_background_controls` returns.
pub record Stripped : Type 0 where
  pub arguments : Value
  pub run_in_background : Bool
  pub label : Option String
  pub task_id : Option String

abbrev pub is_control : String → Bool
is_control s = s == "run_in_background" || s == "background_label" || s == "task_id"

abbrev pub is_control_key : Key → Bool
is_control_key (name s) = is_control s
is_control_key (other k) = false

abbrev pub without_controls : Fields → Fields
without_controls end = end
without_controls (field k v fs) =
    let rest = without_controls fs in if is_control_key k then rest else field k v rest

-- `isinstance(raw, str) and raw.strip()`, stripped
abbrev pub text_or_none : Option Value → Option String
text_or_none (some (str s)) = if is_blank s then none else some (strip s)
text_or_none _ = none

module _ (opaque_truth : ℕ → Bool) where
  -- `bool(value)`
  abbrev pub truth : Value → Bool
  truth null = false
  truth (bool b) = b
  truth (int (pos zero)) = false
  truth (int (pos (suc n))) = true
  truth (int (negsuc n)) = true
  truth (str s) = not (is_empty_text s)
  truth (list nil) = false
  truth (list (cons v vs)) = true
  truth (tuple nil) = false
  truth (tuple (cons v vs)) = true
  truth (object end) = false
  truth (object (field k v fs)) = true
  truth (task t) = true
  truth (patch p) = true
  truth (revision r) = true
  truth (opaque n) = opaque_truth n

  abbrev pub truth_or_false : Option Value → Bool
  truth_or_false none = false
  truth_or_false (some v) = truth v

  unfoldable pub strip_background_controls : Value → Stripped
  unfolding find
  strip_background_controls (object fs) = record {
    arguments = object (without_controls fs);
    run_in_background = truth_or_false (find "run_in_background" fs);
    label = text_or_none (find "background_label" fs);
    task_id = text_or_none (find "task_id" fs);
  }
  strip_background_controls null = record {
    arguments = object end;
    run_in_background = false;
    label = none;
    task_id = none;
  }
  strip_background_controls v = record {
    arguments = v;
    run_in_background = false;
    label = none;
    task_id = none;
  }

abbrev pub any_control : Fields → Bool
any_control end = false
any_control (field k v fs) = is_control_key k || any_control fs

unfoldable pub has_background_control_fields : Value → Bool
has_background_control_fields (object fs) = any_control fs
has_background_control_fields v = false

any_control-without : (fs : Fields) → any_control (without_controls fs) ≡ false
any_control-without end = refl
any_control-without (field k v fs) = ground (arith, any_control-without fs)

find-without :
    (n : String) (fs : Fields) → is_control n ≡ false → find n (without_controls fs) ≡ find n fs
unfolding find
find-without n end h = refl
find-without n (field (name k) v fs) h = elim (Bool-cases (is_control k)) [
  | inl control ↦ elim (Bool-cases (k == n)) [
    | inl same ↦ absurd (cc (sym control ∙ ap is_control ((eq_iff k n).0 same) ∙ h))
    | inr differs ↦ rw (control, differs) (find-without n fs h)
  ]
  | inr plain ↦ rw plain (ground (arith, find-without n fs h))
]
find-without n (field (other k) v fs) h = find-without n fs h

-- What is left for the tool has no control field, and every other argument of the call has the value
-- that it had.
strip_background_controls_result :
    (opaque_truth : ℕ → Bool) (v : Value) (fs : Fields) (n : String)
    → is_control n ≡ false
    → let left = (strip_background_controls opaque_truth (object fs)).arguments in
      (has_background_control_fields (strip_background_controls opaque_truth v).arguments ≡ false)
      × (left ≡ object (without_controls fs))
      × (find n (without_controls fs) ≡ find n fs)
unfolding strip_background_controls has_background_control_fields
strip_background_controls_result opaque_truth v fs n h = (clean v, refl, find-without n fs h)
  where
    clean :
        (v : Value)
        → has_background_control_fields (strip_background_controls opaque_truth v).arguments ≡ false
    clean (object gs) = any_control-without gs
    clean null = refl
    clean (bool b) = refl
    clean (int i) = refl
    clean (str s) = refl
    clean (list xs) = refl
    clean (tuple xs) = refl
    clean (task t) = refl
    clean (patch p) = refl
    clean (revision r) = refl
    clean (opaque k) = refl
