-- ===== src/Planning/Commands/Checked.antt =====
-- What the parsers of the commands' arguments have checked.
use bauhinia_agent.Planning.Commands.{
  read_task_revision, parse_task_revision, parse_string_sequence, parse_owner_field,
  parse_optional_status, parse_fields, read_created_task, repeats_value, validate_patch,
  require_non_blank_string, read_task_patch, parse_all, Command, require_text, parse_task_patch,
  require_texts, parse_created_task,
}
use mathlib.Core.Path.{subst}
use bauhinia_agent.Common.{
  ℕ, suc, ◌≡◌, not, String, List, [], ◌∷◌, elem, string_eq, All, arith, Result, ok, err, ◌>>=◌,
  ◌>>◌, >>=-eq-ok, require-eq-ok, map_err,
}
use bauhinia_agent.Planning.Values.{
  Task, TaskPatch, TaskRevision, Value, null, str, list, object, task, patch, revision, Items,
  get_or, find,
}
use bauhinia_agent.Planning.Errors.{Label, item, member, PlanError, invalid_task}
use bauhinia_agent.Planning.Models.{task_from_dict, task_to_dict}
use bauhinia_agent.Planning.Models.RoundTrip.{NotBlank, IsNamed, task_from_dict-IsNamed}

command_eq : {A : Type 0} {a b : A} → ◌≡◌ {A = Command A} (ok a) (ok b) → a ≡ b
command_eq h = cc

from_plan_error :
    {A : Type 0} (label : Label) (m : Result PlanError A) {a : A}
    → map_err (invalid_task label) m ≡ ok a
    → m ≡ ok a
from_plan_error label (ok a) h = cc
from_plan_error label (err e) h = cc

read_created_task-IsNamed :
    (v : Value) (label : Label) {t : Task} → read_created_task v label ≡ ok t → IsNamed t
unfolding read_created_task
read_created_task-IsNamed v label h =
    let (payload, read, h1) =
      >>=-eq-ok (parse_fields v ("id" ∷ "content" ∷ "status" ∷ "depends_on" ∷ "owner" ∷ []) label) _
        h in
    task_from_dict-IsNamed (object payload)
      (from_plan_error label (task_from_dict (object payload)) h1)

-- A task to create is read by `Task.from_dict`, whether it is given as a task or as a mapping.
pub parse_created_task-IsNamed :
    (v : Value) (label : Label) {t : Task} → parse_created_task v label ≡ ok t → IsNamed t
unfolding parse_created_task
parse_created_task-IsNamed (task t) label h =
    task_from_dict-IsNamed (task_to_dict t)
      (from_plan_error label (task_from_dict (task_to_dict t)) h)
parse_created_task-IsNamed v label h = read_created_task-IsNamed v label h

require_text_inv :
    (s : String) (label : Label) {u : String} → require_text s label ≡ ok u → NotBlank u
unfolding require_text
require_text_inv s label h = ground arith

require_text_arg :
    (s : String) (label : Label) {u : String} → require_text s label ≡ ok u → NotBlank s
unfolding require_text
require_text_arg s label h = ground arith

require_texts_inv :
    (seen ss : List String) (label : Label) → require_texts seen ss label ≡ ok tt → All NotBlank ss
unfolding require_texts
require_texts_inv seen [] label h = tt
require_texts_inv seen (s ∷ ss) label h =
    let (u, full, h1) = >>=-eq-ok (require_text s label >>= λ _. ok tt) _ h in
    let (x, text, h2) = >>=-eq-ok (require_text s label) _ full in
    let (new, h3) = require-eq-ok (not (elem s seen)) (repeats_value label s) _ h1 in
    (require_text_arg s label text, require_texts_inv (s ∷ seen) ss label h3)

validate_patch_inv :
    (p : TaskPatch) (label : Label) → validate_patch p label ≡ ok tt → All NotBlank p.add_depends_on
unfolding validate_patch
validate_patch_inv p label h =
    let (u, full, h1) = >>=-eq-ok (require_text p.id (member label "id") >>= λ _. ok tt) _ h in
    let (v, added, h2) =
      >>=-eq-ok (require_texts [] p.add_depends_on (member label "add_depends_on")) _ h1 in
    require_texts_inv [] p.add_depends_on (member label "add_depends_on") added

AddsText : TaskPatch → Type 0
AddsText p = All NotBlank p.add_depends_on

checked_patch :
    (made : TaskPatch) (label : Label) {p : TaskPatch}
    → (validate_patch made label >> ok made) ≡ ok p
    → All NotBlank p.add_depends_on
unfolding AddsText
checked_patch made label h =
    let (u, checked, same) = >>=-eq-ok (validate_patch made label) _ h in
    subst AddsText (command_eq same) (validate_patch_inv made label checked)

read_task_patch-NotBlank :
    (v : Value) (label : Label) {p : TaskPatch}
    → read_task_patch v label ≡ ok p
    → All NotBlank p.add_depends_on
unfolding read_task_patch
read_task_patch-NotBlank v label h =
    let (payload, read, h1) =
      >>=-eq-ok
        (parse_fields v ("id" ∷ "status" ∷ "owner" ∷ "add_depends_on" ∷ "remove_depends_on" ∷ [])
          label)
        _ h in
    let (id, h_id, h2) =
      >>=-eq-ok (require_non_blank_string (get_or null "id" payload) (member label "id")) _ h1 in
    let (status, h_status, h3) =
      >>=-eq-ok (parse_optional_status (get_or null "status" payload) (member label "status")) _
        h2 in
    let (owner, h_owner, h4) =
      >>=-eq-ok (parse_owner_field (find "owner" payload) (member label "owner")) _ h3 in
    let (added, h_added, h5) =
      >>=-eq-ok
        (parse_string_sequence (get_or (list Items.nil) "add_depends_on" payload)
          (member label "add_depends_on"))
        _ h4 in
    let (removed, h_removed, h6) =
      >>=-eq-ok
        (parse_string_sequence (get_or (list Items.nil) "remove_depends_on" payload)
          (member label "remove_depends_on"))
        _ h5 in
    checked_patch
      (record {
        id = id;
        status = status;
        owner = owner;
        add_depends_on = added;
        remove_depends_on = removed;
      })
      label h6

-- The dependencies that a patch adds are not blank.
pub parse_task_patch-NotBlank :
    (v : Value) (label : Label) {p : TaskPatch}
    → parse_task_patch v label ≡ ok p
    → All NotBlank p.add_depends_on
unfolding parse_task_patch
parse_task_patch-NotBlank (patch p) label h = checked_patch p label h
parse_task_patch-NotBlank v label h = read_task_patch-NotBlank v label h

non_blank_string_inv :
    (v : Value) (label : Label) {s : String} → require_non_blank_string v label ≡ ok s → NotBlank s
unfolding require_non_blank_string
non_blank_string_inv (str s) label h = require_text_inv s label h
non_blank_string_inv _ label h = cc

read_task_revision-NotBlank :
    (v : Value) (label : Label) {r : TaskRevision}
    → read_task_revision v label ≡ ok r
    → NotBlank r.content
unfolding read_task_revision
read_task_revision-NotBlank v label h =
    let (payload, read, h1) = >>=-eq-ok (parse_fields v ("id" ∷ "content" ∷ []) label) _ h in
    let (id, h_id, h2) =
      >>=-eq-ok (require_non_blank_string (get_or null "id" payload) (member label "id")) _ h1 in
    let (content, full, h3) =
      >>=-eq-ok (require_non_blank_string (get_or null "content" payload) (member label "content"))
        _ h2 in
    subst (λ (r : TaskRevision). NotBlank r.content) (command_eq h3)
      (non_blank_string_inv (get_or null "content" payload) (member label "content") full)

-- The content of a revision is not blank.
pub parse_task_revision-NotBlank :
    (v : Value) (label : Label) {r : TaskRevision}
    → parse_task_revision v label ≡ ok r
    → NotBlank r.content
unfolding parse_task_revision
parse_task_revision-NotBlank (revision r) label h =
    let (id, h_id, h1) = >>=-eq-ok (require_text r.id (member label "id")) _ h in
    let (content, full, h2) = >>=-eq-ok (require_text r.content (member label "content")) _ h1 in
    subst (λ (r : TaskRevision). NotBlank r.content) (command_eq h2)
      (require_text_inv r.content (member label "content") full)
parse_task_revision-NotBlank v label h = read_task_revision-NotBlank v label h

module _ {A : Type 0} (P : A → Type 0) (parse : Value → Label → Command A) where
  pub parse_all-All :
      (sound : (v : Value) (label : Label) (a : A) → parse v label ≡ ok a → P a) (kind : String)
      (n : ℕ) (vs : List Value) {out : List A}
      → parse_all parse kind n vs ≡ ok out
      → All P out
  unfolding parse_all
  parse_all-All sound kind n [] h = subst (All P) (command_eq h) tt
  parse_all-All sound kind n (v ∷ vs) h =
      let (x, first, h1) = >>=-eq-ok (parse v (item kind n)) _ h in
      let (rest, more, h2) = >>=-eq-ok (parse_all parse kind (suc n) vs) _ h1 in
      subst (All P) (command_eq h2)
        (sound v (item kind n) x first, parse_all-All sound kind (suc n) vs more)
