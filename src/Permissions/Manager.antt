-- ===== src/Permissions/Manager.antt =====
-- permissions/manager.py: the check before an action, and the answer of the user.
pub mod Guard
pub mod Choices
pub mod Resolved
pub mod Answers
pub mod Repeats
use Prim.Native.String.{◌++◌ as append}
use Prim.Native.Char.{code}
use bauhinia_agent.Common.{
  String, Bool, true, false, not, ◌&&◌, ◌||◌, Option, none, some, List, [], ◌∷◌, ◌++◌, ◌==◌, nat_eq,
  string_eq, if◌then◌else◌, is_empty_text, is_space, strip,
}
use bauhinia_agent.Permissions.Types.{
  Platform, PermissionAction, read_path, write_path, delete_path, execute_shell, network_request,
  git_operation, read_env, mcp_tool, PermissionScopeType, exact_path, command_prefix, host, env_key,
  tool, PermissionRequest, PermissionGrant, PermissionDecision, PermissionDecisionKind, allow, deny,
  ask, PermissionMode, once, always, PermissionConfirmationChoice, deny_choice,
  reject_with_feedback, allow_once, allow_always_same_scope,
}
use bauhinia_agent.Permissions.Commands.{starts_with, rtrim, words}
use bauhinia_agent.Permissions.Policy.{Request, decision, decide, flag, absolute, host_or_text}
use bauhinia_agent.Permissions.Grants.{matching_decision}

-- `text[n:]` for the length of a prefix.
unfoldable pub drop_prefix : (prefix text : String) → String
drop_prefix String.[] text = text
drop_prefix (String.◌∷◌ p ps) String.[] = ""
drop_prefix (String.◌∷◌ p ps) (String.◌∷◌ c cs) = drop_prefix ps cs

-- `if grant_decision is not None: return grant_decision`
abbrev pub or_policy : Option PermissionDecision → PermissionDecision → PermissionDecision
or_policy (some d) by_policy = d
or_policy none by_policy = by_policy

module _ (os : Platform) where
  open os use {FilePath, of_text, text, is_absolute, join_path, resolve, lower, upper}

  pub record Manager : Type 0 where
    pub project_root : FilePath
    pub mode : PermissionMode
    pub grants : List PermissionGrant

  abbrev is_path_action : PermissionAction → Bool
  is_path_action read_path = true
  is_path_action write_path = true
  is_path_action delete_path = true
  is_path_action _ = false

  abbrev pub with_cwd : FilePath → Request os → Request os
  with_cwd p r = record r { cwd = some p }

  unfoldable pub normalize_request : FilePath → Request os → Request os
  normalize_request root r = elim r.cwd [
    | some p ↦ if is_absolute p then r else with_cwd (resolve (join_path root p)) r
    | none ↦ if is_path_action r.action then with_cwd root r else r
  ]

  -- `preflight` on a request that is normalized.
  unfoldable pub check : Manager → Request os → PermissionDecision
  check m r = or_policy (matching_decision os m.grants r) (decide os m.mode m.project_root r)

  unfoldable pub preflight : Manager → Request os → PermissionDecision
  preflight m r = check m (normalize_request m.project_root r)

  -- `_confirmation_guard`
  unfoldable pub confirmation_guard : Manager → Request os → Option PermissionDecision
  confirmation_guard m r = elim (matching_decision os m.grants r) [
    | some d ↦ some d
    | none ↦ let d = decide os m.mode m.project_root r in elim d.kind [ ask ↦ none | _ ↦ some d ]
  ]

  unfoldable pub path_scope_value : FilePath → Request os → String
  path_scope_value root r =
      let base : FilePath = elim r.cwd [ none ↦ root | some p ↦ p ] in
      text (absolute os base (of_text r.target))

  -- `_command_prefix`
  abbrev first_words : List String → String
  first_words [] = ""
  first_words (w ∷ []) = w
  first_words (w ∷ v ∷ ws) = if w == "git" then append w (append " " v) else w

  unfoldable pub git_command_scope : String → String
  unfolding words strip
  git_command_scope command = first_words (words (strip command))

  -- `_host_scope_value`; unlike `host_from_target` it drops the dots at the end.
  unfoldable pub host_scope_value : String → String
  unfolding rtrim
  host_scope_value target = lower (rtrim (λ c. c == 46) (host_or_text os target))

  abbrev pub default_scope : FilePath → PermissionAction → Request os → PermissionScopeType × String
  default_scope root read_path r = (exact_path, path_scope_value root r)
  default_scope root write_path r = (exact_path, path_scope_value root r)
  default_scope root delete_path r = (exact_path, path_scope_value root r)
  default_scope root execute_shell r = (command_prefix, strip r.target)
  default_scope root network_request r = (host, host_scope_value r.target)
  default_scope root read_env r = (env_key, upper r.target)
  default_scope root git_operation r = (command_prefix, git_command_scope r.target)
  default_scope root mcp_tool r = (tool, r.target)

  unfoldable pub default_scope_for_request : FilePath → Request os → PermissionScopeType × String
  default_scope_for_request root r = default_scope root r.action r

  abbrev choice_named : String → Option PermissionConfirmationChoice
  choice_named text =
      if text == "1" || text == "deny"
      then some deny_choice
      else if text == "2" || text == "allow_once"
      then some allow_once
      else if text == "3" || text == "allow_always_same_scope"
      then some allow_always_same_scope
      else if text == "4" || text == "reject_with_feedback"
      then some reject_with_feedback
      else none

  -- `_normalize_choice`: the choice, and the feedback that came with it.
  unfoldable pub normalize_choice : String → Option PermissionConfirmationChoice × String
  unfolding strip starts_with drop_prefix
  normalize_choice choice =
      let normalized = lower (strip choice) in
      if starts_with "reject_with_feedback:" normalized
      then (some reject_with_feedback, strip (drop_prefix "reject_with_feedback:" (strip choice)))
      else if starts_with "reject:" normalized
      then (some reject_with_feedback, strip (drop_prefix "reject:" (strip choice)))
      else (choice_named normalized, "")

  abbrev pub new_grant : (now : String) → FilePath → Request os → PermissionGrant
  new_grant now root r = record {
    id = append "grant_" r.id;
    effect = "allow";
    action = r.action;
    scope_type = (default_scope_for_request root r).0;
    scope_value = (default_scope_for_request root r).1;
    created_at = now;
    reason = "用户选择 allow always。";
  }

  abbrev pub add_grant : Manager → PermissionGrant → Manager
  add_grant m g = record m { grants = m.grants ++ g ∷ [] }

  abbrev pub allow_always : (now : String) → Manager → Request os → PermissionDecision × Manager
  allow_always now m r =
      let g = new_grant now m.project_root r in
      (
        record {
          kind = allow;
          persistence = always;
          reason = "用户允许同范围后续执行。";
          feedback = "";
          grant = some g;
        },
        add_grant m g,
      )

  abbrev pub rejected : String → PermissionDecision
  rejected feedback =
      if is_empty_text feedback
      then decision deny "用户拒绝了权限请求。"
      else record (decision deny (append "用户拒绝了权限请求：" feedback)) { feedback = feedback }

  -- What a choice makes of a normalized request.
  abbrev pub settle :
      Option PermissionConfirmationChoice × String
      → (choice now : String) → Manager
      → Request os
      → PermissionDecision × Manager
  settle (none, feedback) choice now m r = (decision deny (append "未知权限选择：" choice), m)
  settle (some deny_choice, feedback) choice now m r = (decision deny "用户拒绝了权限请求。", m)
  settle (some reject_with_feedback, feedback) choice now m r = (rejected feedback, m)
  settle (some allow_once, feedback) choice now m r = elim (confirmation_guard m r) [
    | some d ↦ (d, m)
    | none ↦ (decision allow "用户允许本次执行。", m)
  ]
  settle (some allow_always_same_scope, feedback) choice now m r =
      if not (flag os "allow_always" r)
      then (decision deny "该权限请求不支持长期授权。", m)
      else elim (confirmation_guard m r) [ some d ↦ (d, m) | none ↦ allow_always now m r ]

  -- The decision, and the manager with the grants after it. `now` is the time of the clock.
  unfoldable pub resolve_confirmation :
      (choice now : String) → Manager → Request os → PermissionDecision × Manager
  resolve_confirmation choice now m r =
      settle (normalize_choice choice) choice now m (normalize_request m.project_root r)
