-- ===== src/Permissions/Dialog.antt =====
-- build_confirmation and build_prewrite_review_confirmation of permissions/manager.py: what the user is
-- asked, as the UserInputRequest of runtime/user_input.py.
use Prim.Native.String.{◌++◌ as append}
use bauhinia_agent.Common.{
  String, Bool, true, false, Option, none, some, List, [], ◌∷◌, map, elem, string_eq, if◌then◌else◌,
  is_empty_text, ◌≡◌, refl, Bool-cases, inl, inr,
}
use bauhinia_agent.Permissions.Types.{Platform, PermissionScopeType, action_name, scope_name}
use bauhinia_agent.Permissions.Policy.{Request, flag}
use bauhinia_agent.Permissions.Manager.{Manager, normalize_request, default_scope_for_request}

pub record UserInputOption : Type 0 where
  pub id : String
  pub label : String
  pub description : String

-- The payload of a confirmation, a key of the dictionary to a field; a review has no scope.
pub record ConfirmationPayload : Type 0 where
  pub request_type : String
  pub permission_request_id : String
  pub action : String
  pub target : String
  pub reason : String
  pub scope : Option (String × String)
  pub allow_always : Bool

pub record UserInputRequest : Type 0 where
  pub id : String
  pub kind : String
  pub question : String
  pub options : List UserInputOption
  pub payload : ConfirmationPayload

abbrev option : (id label description : String) → UserInputOption
option id label description = record { id = id; label = label; description = description }

module _ (os : Platform) where
  abbrev reason_line : String → String
  reason_line reason = if is_empty_text reason then "" else append "\n原因：" reason

  -- `_question_for_request`
  unfoldable pub question_for_request : Request os → String
  question_for_request r =
      append "允许执行权限操作 `" (
        append (action_name r.action) (append "` 吗？\n目标：" (append r.target (reason_line r.reason))))

  abbrev always_option : Bool → PermissionScopeType × String → List UserInputOption
  always_option false scope = []
  always_option true (kind, value) =
      option "allow_always_same_scope" "Allow always" (append (scope_name kind) (append ": " value))
      ∷ []

  -- The dialog for a normalized request.
  abbrev dialog : PermissionScopeType × String → Request os → UserInputRequest
  dialog (kind, value) r = record {
    id = r.id;
    kind = "permission_confirmation";
    question = question_for_request r;
    options =
        option "deny" "Deny" ""
        ∷ option "allow_once" "Allow once" ""
        ∷ always_option (flag os "allow_always" r) (kind, value);
    payload = record {
      request_type = "permission_confirmation";
      permission_request_id = r.id;
      action = action_name r.action;
      target = r.target;
      reason = r.reason;
      scope = some (scope_name kind, value);
      allow_always = flag os "allow_always" r;
    };
  }

  unfoldable pub build_confirmation : Manager os → Request os → UserInputRequest
  build_confirmation m r =
      let asked = normalize_request os m.project_root r in
      dialog (default_scope_for_request os m.project_root asked) asked

  abbrev review : Request os → UserInputRequest
  review r = record {
    id = r.id;
    kind = "permission_confirmation";
    question = question_for_request r;
    options = option "deny" "Deny" "" ∷ option "allow_once" "Apply reviewed change" "" ∷ [];
    payload = record {
      request_type = "prewrite_review_confirmation";
      permission_request_id = r.id;
      action = action_name r.action;
      target = r.target;
      reason = "应用已预览的本地文件修改。";
      scope = none;
      allow_always = false;
    };
  }

  unfoldable pub build_prewrite_review_confirmation : Manager os → Request os → UserInputRequest
  build_prewrite_review_confirmation m r = review (normalize_request os m.project_root r)

-- The dialog offers to allow always exactly if the request does not forbid it, and so says its payload.
pub build_confirmation_options :
    (os : Platform) (m : Manager os) (r : Request os)
    → (elem "allow_always_same_scope"
          (map (λ (o : UserInputOption). o.id) (build_confirmation os m r).options)
        ≡ flag os "allow_always" (normalize_request os m.project_root r))
      × ((build_confirmation os m r).payload.allow_always
          ≡ flag os "allow_always" (normalize_request os m.project_root r))
unfolding build_confirmation
build_confirmation_options os m r =
    elim (Bool-cases (flag os "allow_always" (normalize_request os m.project_root r))) [
      | inl enabled ↦ rw enabled (refl, refl)
      | inr disabled ↦ rw disabled (refl, refl)
    ]
