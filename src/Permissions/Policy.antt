-- ===== src/Permissions/Policy.antt =====
-- permissions/policy.py: the decision on a request that no grant matches.
use bauhinia_agent.Common.{
  ℕ, strip, is_space, is_empty_text, nat_eq, String, Bool, true, false, not, ◌&&◌, ◌||◌, Option,
  none, some, List, [], ◌∷◌, map, any, all, elem, ◌==◌, string_eq, if◌then◌else◌,
}
pub mod Limits
use Prim.Native.Char.{code}
use bauhinia_agent.Common.Dict.{get}
use bauhinia_agent.Permissions.Types.{
  Platform, PermissionMode, standard, aggressive, bypass, PermissionAction, read_path, write_path,
  delete_path, execute_shell, network_request, git_operation, read_env, mcp_tool, PermissionRequest,
  PermissionDecision, PermissionDecisionKind, allow, deny, ask, once,
}
use bauhinia_agent.Permissions.Commands.{
  starts_with, ends_with, rtrim, ltrim, contains, has_shell_control_operator, before,
  command_matches_prefix, target_paths,
}

abbrev pub decision : PermissionDecisionKind → String → PermissionDecision
decision kind reason = record {
  kind = kind;
  persistence = once;
  reason = reason;
  feedback = "";
  grant = none;
}

abbrev pub aggressive_allowed_commands : List String
aggressive_allowed_commands =
    "pytest" ∷ "python -m pytest" ∷ "python -m unittest" ∷ "python3 -m pytest"
    ∷ "python3 -m unittest" ∷ "ruff" ∷ "mypy" ∷ "git status" ∷ "git diff" ∷ "git log" ∷ "git apply"
    ∷ "npm test" ∷ "pnpm test" ∷ "yarn test" ∷ "go test" ∷ "cargo test" ∷ "make test" ∷ []

abbrev pub dangerous_shell_prefixes : List String
dangerous_shell_prefixes =
    "rm" ∷ "sudo" ∷ "curl" ∷ "wget" ∷ "chmod" ∷ "chown" ∷ "python -m pip" ∷ "python3 -m pip" ∷ "pip"
    ∷ "pip3" ∷ []

unfoldable pub is_aggressive_allowed_shell_command : String → Bool
is_aggressive_allowed_shell_command command =
    any (λ prefix. command_matches_prefix command prefix) aggressive_allowed_commands

unfoldable pub is_dangerous_shell_command : String → Bool
is_dangerous_shell_command command =
    any (λ prefix. command_matches_prefix command prefix) dangerous_shell_prefixes

module _ (os : Platform) where
  open os use {
    FilePath, same_path, of_text, is_absolute, join_path, resolve, parents, relative_parts, name,
    suffix, hostname, is_private_address, lower, upper,
  }

  abbrev pub Request : Type 0
  Request = PermissionRequest FilePath

  -- `bool(request.metadata.get(key, True))`
  unfoldable pub flag : String → Request → Bool
  flag key r = elim (get key r.metadata) [ none ↦ true | some b ↦ b ]

  abbrev pub absolute : (base path : FilePath) → FilePath
  absolute base path = resolve (if is_absolute path then path else join_path base path)

  abbrev pub base : FilePath → Request → FilePath
  base root r = elim r.cwd [ none ↦ root | some p ↦ p ]

  -- `project_root` is resolved.
  unfoldable pub resolve_paths : (root : FilePath) → Request → List FilePath
  resolve_paths root r =
      map (λ value. absolute (base root r) (of_text value)) (target_paths r.target)

  unfoldable pub is_inside : (root path : FilePath) → Bool
  is_inside root path = same_path path root || any (λ p. same_path root p) (parents path)

  unfoldable pub request_cwd_inside_root : FilePath → Request → Bool
  request_cwd_inside_root root r = is_inside root (resolve (base root r))

  abbrev path_parts : FilePath → FilePath → List String
  path_parts root path = elim (relative_parts root path) [ none ↦ os.parts path | some ps ↦ ps ]

  unfoldable pub is_sensitive_path : FilePath → FilePath → Bool
  is_sensitive_path root path =
      elem ".git" (path_parts root path)
      || elem (name path) (".env" ∷ [])
      || elem (lower (suffix path)) (".pem" ∷ ".key" ∷ [])

  unfoldable pub inside_root : FilePath → Request → Bool
  inside_root root r = all (is_inside root) (resolve_paths root r)

  unfoldable pub sensitive : FilePath → Request → Bool
  sensitive root r = any (is_sensitive_path root) (resolve_paths root r)

  unfoldable pub decide_read : FilePath → Request → PermissionDecision
  decide_read root r =
      if inside_root root r && not (sensitive root r)
      then decision allow "允许读取项目根目录内普通路径。"
      else decision ask "读取项目根目录外或敏感路径需要用户确认。"

  abbrev is_aggressive : PermissionMode → Bool
  is_aggressive aggressive = true
  is_aggressive _ = false

  unfoldable pub decide_write : PermissionMode → FilePath → Request → PermissionDecision
  decide_write mode root r =
      if not (inside_root root r)
      then decision ask "写入项目根目录外路径需要用户确认。"
      else if sensitive root r
      then decision ask "写入敏感路径需要用户确认。"
      else if not (flag "allow_auto" r)
      then decision ask "该写入操作需要用户确认。"
      else if is_aggressive mode
      then decision allow "激进模式允许写入项目根目录内普通路径。"
      else decision ask "写入文件需要用户确认。"

  unfoldable pub decide_delete : FilePath → Request → PermissionDecision
  decide_delete root r =
      if not (inside_root root r) then decision deny "拒绝删除项目根目录外路径。" else decision ask "删除路径需要用户确认。"

  unfoldable pub is_sensitive_key : String → Bool
  is_sensitive_key target =
      any (λ keyword. contains keyword (upper target))
        ("KEY" ∷ "TOKEN" ∷ "SECRET" ∷ "PASSWORD" ∷ "COOKIE" ∷ [])

  unfoldable pub decide_env : Request → PermissionDecision
  decide_env r =
      if is_sensitive_key r.target
      then decision deny "拒绝读取或展示敏感环境变量明文。"
      else decision ask "读取环境变量需要用户确认。"

  abbrev pub subcommand : String → String
  subcommand command = before is_space command

  unfoldable pub is_readonly_git : String → Bool
  unfolding before
  is_readonly_git command = elem (subcommand command) ("status" ∷ "diff" ∷ "log" ∷ [])

  unfoldable pub decide_git : FilePath → Request → PermissionDecision
  decide_git root r =
      if has_shell_control_operator (strip r.target)
      then decision ask "包含 shell 控制符的 git 操作需要用户确认。"
      else if is_readonly_git (strip r.target) && request_cwd_inside_root root r
      then decision allow "允许项目根目录内只读 git 操作。"
      else decision ask "git 操作需要用户确认。"

  -- The last two tests of `_decide_shell`, in aggressive mode inside the project.
  abbrev pub decide_common_command : String → PermissionDecision
  decide_common_command command =
      if is_dangerous_shell_command command
      then decision ask "高风险 shell 命令需要用户确认。"
      else if is_aggressive_allowed_shell_command command
      then decision allow "激进模式允许项目根目录内常见验证命令。"
      else decision ask "shell 命令需要用户确认。"

  unfoldable pub decide_shell : PermissionMode → FilePath → Request → PermissionDecision
  decide_shell mode root r =
      if has_shell_control_operator (strip r.target)
      then decision ask "包含 shell 控制符的命令需要用户确认。"
      else if not (flag "allow_auto" r)
      then decision ask "该 shell 操作需要用户确认。"
      else if is_aggressive mode && request_cwd_inside_root root r
      then decide_common_command (strip r.target)
      else decision ask "shell 命令需要用户确认。"

  -- `parsed.hostname or target.split("/", 1)[0].split(":", 1)[0]`
  unfoldable pub host_or_text : String → String
  unfolding before
  host_or_text target =
      let text = before (λ c. c == 58) (before (λ c. c == 47) target) in
      elim (hostname target) [ none ↦ text | some h ↦ if is_empty_text h then text else h ]

  abbrev is_bracket : ℕ → Bool
  is_bracket c = c == 91 || c == 93

  unfoldable pub is_private_network_target : String → Bool
  unfolding rtrim ltrim ends_with
  is_private_network_target target =
      let host = lower (rtrim (λ c. c == 46) (host_or_text target)) in
      elem host ("localhost" ∷ "ip6-localhost" ∷ [])
      || ends_with ".localhost" host
      || is_private_address (ltrim is_bracket (rtrim is_bracket host))

  unfoldable pub decide_network : Request → PermissionDecision
  decide_network r =
      if is_private_network_target r.target
      then decision ask "访问本机、内网或链路本地地址需要用户确认。"
      else decision ask "网络请求需要用户确认。"

  abbrev pub decide_action :
      PermissionAction → PermissionMode → FilePath → Request → PermissionDecision
  decide_action read_path mode root r = decide_read root r
  decide_action write_path mode root r = decide_write mode root r
  decide_action delete_path mode root r = decide_delete root r
  decide_action read_env mode root r = decide_env r
  decide_action git_operation mode root r = decide_git root r
  decide_action execute_shell mode root r = decide_shell mode root r
  decide_action network_request mode root r = decide_network r
  decide_action mcp_tool mode root r = decision ask "MCP 工具调用需要用户确认。"

  unfoldable pub decide : PermissionMode → FilePath → Request → PermissionDecision
  decide bypass root r = decision allow "bypass 模式允许权限请求。"
  decide mode root r = decide_action r.action mode root r
