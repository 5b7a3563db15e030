-- ===== src/Permissions/Types.antt =====
-- permissions/types.py, and what the permission system uses of the platform.
use bauhinia_agent.Common.{String, Bool, true, false, ◌≡◌, ◌↔◌, Option, List, arith, Eq}
use bauhinia_agent.Common.Dict.{Dict}

pub data PermissionAction : Type 0 where
  read_path write_path delete_path execute_shell network_request git_operation read_env mcp_tool :
      PermissionAction

pub data PermissionMode : Type 0 where
  standard aggressive bypass : PermissionMode

pub data PermissionDecisionKind : Type 0 where
  allow deny ask : PermissionDecisionKind

pub data PermissionPersistence : Type 0 where
  once always : PermissionPersistence

pub data PermissionScopeType : Type 0 where
  exact_path path_tree command_prefix host env_key tool : PermissionScopeType

pub data PermissionConfirmationChoice : Type 0 where
  deny_choice reject_with_feedback allow_once allow_always_same_scope : PermissionConfirmationChoice

-- Of a metadata value only its truth is read.
pub record PermissionRequest (FilePath : Type 0) : Type 0 where
  pub id : String
  pub action : PermissionAction
  pub target : String
  pub reason : String
  pub cwd : Option FilePath
  pub metadata : Dict Bool

-- The effect is a text: one that is loaded from a file is not checked.
pub record PermissionGrant : Type 0 where
  pub id : String
  pub effect : String
  pub action : PermissionAction
  pub scope_type : PermissionScopeType
  pub scope_value : String
  pub created_at : String
  pub reason : String

pub record PermissionDecision : Type 0 where
  pub kind : PermissionDecisionKind
  pub persistence : PermissionPersistence
  pub reason : String
  pub feedback : String
  pub grant : Option PermissionGrant

abbrev pub action_name : PermissionAction → String
action_name read_path = "read_path"
action_name write_path = "write_path"
action_name delete_path = "delete_path"
action_name execute_shell = "execute_shell"
action_name network_request = "network_request"
action_name git_operation = "git_operation"
action_name read_env = "read_env"
action_name mcp_tool = "mcp_tool"

abbrev pub scope_name : PermissionScopeType → String
scope_name exact_path = "exact_path"
scope_name path_tree = "path_tree"
scope_name command_prefix = "command_prefix"
scope_name host = "host"
scope_name env_key = "env_key"
scope_name tool = "mcp_tool"

abbrev action_equal : PermissionAction → PermissionAction → Bool
action_equal read_path read_path = true
action_equal write_path write_path = true
action_equal delete_path delete_path = true
action_equal execute_shell execute_shell = true
action_equal network_request network_request = true
action_equal git_operation git_operation = true
action_equal read_env read_env = true
action_equal mcp_tool mcp_tool = true
action_equal _ _ = false

pub action_equal_iff : (a b : PermissionAction) → (action_equal a b ≡ true) ↔ (a ≡ b)
action_equal_iff a b = ground arith

instance abbrev pub action_eq : Eq PermissionAction
action_eq = record { equal = action_equal; equal_iff = action_equal_iff }

-- What the source takes from pathlib, os.path, urllib, ipaddress and the Unicode tables of `str`.
pub record Platform : Type 1 where
  pub FilePath : Type 0
  pub same_path : FilePath → FilePath → Bool
  pub of_text : String → FilePath
  pub text : FilePath → String
  pub is_absolute : FilePath → Bool
  pub join_path : FilePath → FilePath → FilePath
  pub resolve : FilePath → FilePath
  pub parents : FilePath → List FilePath
  pub parts : FilePath → List String
  -- `path.relative_to(root).parts`, with `none` for its `ValueError`
  pub relative_parts : (root path : FilePath) → Option (List String)
  pub name : FilePath → String
  pub suffix : FilePath → String
  pub normcase : String → String
  -- `urlparse(target).hostname`
  pub hostname : String → Option String
  -- whether `ipaddress.ip_address` accepts the text, and one of the tests on the address holds
  pub is_private_address : String → Bool
  pub lower : String → String
  pub upper : String → String
