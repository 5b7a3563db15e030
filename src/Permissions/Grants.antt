-- ===== src/Permissions/Grants.antt =====
-- permissions/grants.py: the saved grants and the decision of those that match a request.
pub mod Matches
pub mod Files
use Prim.Native.Char.{code}
use bauhinia_agent.Common.{
  String, Bool, true, false, not, ◌&&◌, ◌||◌, Option, none, some, List, [], ◌∷◌, ◌++◌, any, filter,
  ◌==◌, nat_eq, string_eq, if◌then◌else◌, is_empty_text,
}
use bauhinia_agent.Permissions.Types.{
  Platform, PermissionAction, execute_shell, git_operation, mcp_tool, action_eq,
  PermissionScopeType, exact_path, path_tree, command_prefix, host, env_key, tool,
  PermissionRequest, PermissionGrant, PermissionDecision, PermissionDecisionKind, allow, deny,
  always,
}
use bauhinia_agent.Permissions.Commands.{has_shell_control_operator, before, command_matches_prefix}
use bauhinia_agent.Permissions.Policy.{Request, host_or_text}

module _ (os : Platform) where
  open os use {
    FilePath, same_path, of_text, text, is_absolute, join_path, resolve, parents, normcase, lower,
    upper,
  }

  unfoldable pub canonical_path : String → Option FilePath → String
  canonical_path value none = normcase (text (resolve (of_text value)))
  canonical_path value (some cwd) =
      let path = of_text value in
      normcase (text (resolve (if is_absolute path then path else join_path cwd path)))

  abbrev is_command : PermissionAction → Bool
  is_command execute_shell = true
  is_command git_operation = true
  is_command _ = false

  unfoldable pub in_tree : (root target : FilePath) → Bool
  in_tree root target = same_path target root || any (λ p. same_path root p) (parents target)

  -- `_host_from_target`
  unfoldable pub host_from_target : String → String
  host_from_target target = lower (host_or_text os target)

  unfoldable pub scope_matches : PermissionScopeType → String → Request os → Bool
  scope_matches exact_path value r = canonical_path value r.cwd == canonical_path r.target r.cwd
  scope_matches path_tree value r =
      in_tree (of_text (canonical_path value r.cwd)) (of_text (canonical_path r.target r.cwd))
  scope_matches command_prefix value r =
      not (is_command r.action && has_shell_control_operator r.target)
      && command_matches_prefix r.target value
  scope_matches host value r = host_from_target r.target == lower value
  scope_matches env_key value r = upper r.target == upper value
  scope_matches tool value r = r.action == mcp_tool && r.target == value

  unfoldable pub grant_matches : PermissionGrant → Request os → Bool
  grant_matches g r = g.action == r.action && scope_matches g.scope_type g.scope_value r

  -- `next((grant for grant in matches if grant.effect == effect), None)`
  unfoldable pub first_with : String → List PermissionGrant → Option PermissionGrant
  first_with effect [] = none
  first_with effect (g ∷ gs) = if g.effect == effect then some g else first_with effect gs

  abbrev pub grant_decision : PermissionDecisionKind → String → PermissionGrant → PermissionDecision
  grant_decision kind default g = record {
    kind = kind;
    persistence = always;
    reason = if is_empty_text g.reason then default else g.reason;
    feedback = "";
    grant = some g;
  }

  -- The decision of the first deny grant and the first allow grant among the matches.
  abbrev pub decide_first : (denies allows : Option PermissionGrant) → Option PermissionDecision
  decide_first (some g) allows = some (grant_decision deny "命中长期拒绝授权。" g)
  decide_first none (some g) = some (grant_decision allow "命中长期允许授权。" g)
  decide_first none none = none

  -- Without a match there is no first one either.
  unfoldable pub matching_decision : List PermissionGrant → Request os → Option PermissionDecision
  matching_decision grants r =
      let matches = filter (λ g. grant_matches g r) grants in
      decide_first (first_with "deny" matches) (first_with "allow" matches)
