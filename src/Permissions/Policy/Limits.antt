-- ===== src/Permissions/Policy/Limits.antt =====
-- What the default policy allows, and what it denies.
use bauhinia_agent.Common.{◌≡◌, ◌≢◌, ◌↔◌, refl, true, false, arith, strip}
use bauhinia_agent.Permissions.Types.{
  Platform, PermissionMode, standard, aggressive, bypass, PermissionAction, read_path, write_path,
  delete_path, execute_shell, network_request, git_operation, read_env, mcp_tool, allow, deny,
}
use bauhinia_agent.Permissions.Commands.{has_shell_control_operator}
use bauhinia_agent.Permissions.Policy.{
  Request, decide, decide_action, inside_root, sensitive, flag, request_cwd_inside_root,
  is_readonly_git, is_dangerous_shell_command, is_aggressive_allowed_shell_command,
  is_sensitive_key, decide_read, decide_write, decide_delete, decide_env, decide_git, decide_shell,
  decide_network,
}

module _ (os : Platform) where
  open os use {FilePath}

  -- What is allowed without asking, for each action.
  abbrev pub Allowed : PermissionAction → PermissionMode → FilePath → Request os → Type 0
  Allowed read_path mode root r = (inside_root os root r ≡ true) × (sensitive os root r ≡ false)
  Allowed write_path mode root r =
      (inside_root os root r ≡ true)
      × (sensitive os root r ≡ false)
      × (flag os "allow_auto" r ≡ true)
      × (mode ≡ aggressive)
  Allowed git_operation mode root r =
      (has_shell_control_operator (strip r.target) ≡ false)
      × (is_readonly_git os (strip r.target) ≡ true)
      × (request_cwd_inside_root os root r ≡ true)
  Allowed execute_shell mode root r =
      (has_shell_control_operator (strip r.target) ≡ false)
      × (flag os "allow_auto" r ≡ true)
      × (mode ≡ aggressive)
      × (request_cwd_inside_root os root r ≡ true)
      × (is_dangerous_shell_command (strip r.target) ≡ false)
      × (is_aggressive_allowed_shell_command (strip r.target) ≡ true)
  Allowed _ mode root r = ⊥

  -- What is denied without asking.
  abbrev pub Denied : PermissionAction → FilePath → Request os → Type 0
  Denied delete_path root r = inside_root os root r ≡ false
  Denied read_env root r = is_sensitive_key os r.target ≡ true
  Denied _ root r = ⊥

  action_allow_iff :
      (a : PermissionAction) (mode : PermissionMode) (root : FilePath) (r : Request os)
      → ((decide_action os a mode root r).kind ≡ allow) ↔ Allowed a mode root r
  unfolding decide_read decide_write decide_delete decide_env decide_git decide_shell decide_network
  action_allow_iff read_path mode root r = ground arith
  action_allow_iff write_path standard root r = ground arith
  action_allow_iff write_path aggressive root r = ground arith
  action_allow_iff write_path bypass root r = ground arith
  action_allow_iff delete_path mode root r = ground arith
  action_allow_iff read_env mode root r = ground arith
  action_allow_iff git_operation mode root r = ground arith
  action_allow_iff execute_shell standard root r = ground arith
  action_allow_iff execute_shell aggressive root r = ground arith
  action_allow_iff execute_shell bypass root r = ground arith
  action_allow_iff network_request mode root r = ground arith
  action_allow_iff mcp_tool mode root r = ground arith

  action_deny_iff :
      (a : PermissionAction) (mode : PermissionMode) (root : FilePath) (r : Request os)
      → ((decide_action os a mode root r).kind ≡ deny) ↔ Denied a root r
  unfolding decide_read decide_write decide_delete decide_env decide_git decide_shell decide_network
  action_deny_iff read_path mode root r = ground arith
  action_deny_iff write_path mode root r = ground arith
  action_deny_iff delete_path mode root r = ground arith
  action_deny_iff read_env mode root r = ground arith
  action_deny_iff git_operation mode root r = ground arith
  action_deny_iff execute_shell mode root r = ground arith
  action_deny_iff network_request mode root r = ground arith
  action_deny_iff mcp_tool mode root r = ground arith

-- Outside bypass mode the default policy allows exactly this without asking: to read plain paths
-- inside the project; in aggressive mode to write them, unless the request forbids it; git status, diff and
-- log inside the project; and in aggressive mode the listed checks as shell commands inside the
-- project, without control characters and unless the request forbids it. So it never allows a deletion,
-- an environment variable, a network request or an MCP tool.
pub decide_allow_iff :
    (os : Platform) (mode : PermissionMode) (root : os.FilePath) (r : Request os)
    → mode ≢ bypass
    → ((decide os mode root r).kind ≡ allow) ↔ Allowed os r.action mode root r
unfolding decide
decide_allow_iff os standard root r n = action_allow_iff os r.action standard root r
decide_allow_iff os aggressive root r n = action_allow_iff os r.action aggressive root r
decide_allow_iff os bypass root r n = absurd (n refl)

-- Outside bypass mode the default policy denies exactly this: to delete a path outside the project, and to
-- read an environment variable whose name says that it is a secret.
pub decide_deny_iff :
    (os : Platform) (mode : PermissionMode) (root : os.FilePath) (r : Request os)
    → mode ≢ bypass
    → ((decide os mode root r).kind ≡ deny) ↔ Denied os r.action root r
unfolding decide
decide_deny_iff os standard root r n = action_deny_iff os r.action standard root r
decide_deny_iff os aggressive root r n = action_deny_iff os r.action aggressive root r
decide_deny_iff os bypass root r n = absurd (n refl)
