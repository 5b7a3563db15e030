-- ===== src/Permissions/Grants/Files.antt =====
-- `_grant_to_dict`, `_grant_from_dict` and `_load_grants` of permissions/grants.py: the saved grants. A value
-- of a dictionary is the text that `str` makes of it; the text of the file is not modelled.
use bauhinia_agent.Common.{
  String, ◌≡◌, refl, Option, none, some, List, [], ◌∷◌, map, Result, ok, err, ◌>>=◌, ◌==◌,
  string_eq, if◌then◌else◌,
}
use bauhinia_agent.Common.Dict.{Dict, get}
use bauhinia_agent.Permissions.Types.{
  PermissionAction, read_path, write_path, delete_path, execute_shell, network_request,
  git_operation, read_env, mcp_tool, PermissionScopeType, exact_path, path_tree, command_prefix,
  host, env_key, tool, PermissionGrant, action_name, scope_name,
}

-- The exceptions that `_load_grants` catches.
pub data GrantError : Type 0 where
  missing_key : String → GrantError
  unknown_action unknown_scope : String → GrantError

abbrev pub Read : Type 0 → Type 0
Read A = Result GrantError A

first_named : {A : Type 0} → (A → String) → String → List A → Option A
first_named text s [] = none
first_named text s (a ∷ rest) = if text a == s then some a else first_named text s rest

abbrev or_raise : {A : Type 0} → Option A → GrantError → Read A
or_raise none e = err e
or_raise (some a) e = ok a

-- `PermissionAction(text)` and `PermissionScopeType(text)`
unfoldable pub action_of_text : String → Read PermissionAction
unfolding first_named
action_of_text s =
    or_raise
      (first_named action_name s (
        read_path ∷ write_path ∷ delete_path ∷ execute_shell ∷ network_request ∷ git_operation
        ∷ read_env ∷ mcp_tool ∷ []))
      (unknown_action s)

unfoldable pub scope_of_text : String → Read PermissionScopeType
unfolding first_named
scope_of_text s =
    or_raise
      (first_named scope_name s
        (exact_path ∷ path_tree ∷ command_prefix ∷ host ∷ env_key ∷ tool ∷ []))
      (unknown_scope s)

unfoldable pub grant_to_dict : PermissionGrant → Dict String
grant_to_dict g =
    ("id", g.id)
    ∷ ("effect", g.effect)
    ∷ ("action", action_name g.action)
    ∷ ("scope_type", scope_name g.scope_type)
    ∷ ("scope_value", g.scope_value)
    ∷ ("created_at", g.created_at)
    ∷ ("reason", g.reason)
    ∷ []

-- `data[key]`
abbrev item : String → Dict String → Read String
item key d = or_raise (get key d) (missing_key key)

abbrev item_or_empty : Option String → String
item_or_empty none = ""
item_or_empty (some s) = s

unfoldable pub grant_from_dict : Dict String → Read PermissionGrant
unfolding get
grant_from_dict d = do
  id ← item "id" d
  effect ← item "effect" d
  action_text ← item "action" d
  action ← action_of_text action_text
  scope ← item "scope_type" d
  scope_type ← scope_of_text scope
  scope_value ← item "scope_value" d
  created_at ← item "created_at" d
  ok (record {
    id = id;
    effect = effect;
    action = action;
    scope_type = scope_type;
    scope_value = scope_value;
    created_at = created_at;
    reason = item_or_empty (get "reason" d);
  })

abbrev keep_read : Read PermissionGrant → List PermissionGrant → List PermissionGrant
keep_read (ok g) gs = g ∷ gs
keep_read (err e) gs = gs

-- The loop of `_load_grants`: an entry that cannot be read is skipped.
unfoldable pub load_grants : List (Dict String) → List PermissionGrant
load_grants [] = []
load_grants (d ∷ ds) = keep_read (grant_from_dict d) (load_grants ds)

action_round_trip : (a : PermissionAction) → action_of_text (action_name a) ≡ ok a
unfolding action_of_text
action_round_trip read_path = refl
action_round_trip write_path = refl
action_round_trip delete_path = refl
action_round_trip execute_shell = refl
action_round_trip network_request = refl
action_round_trip git_operation = refl
action_round_trip read_env = refl
action_round_trip mcp_tool = refl

scope_round_trip : (s : PermissionScopeType) → scope_of_text (scope_name s) ≡ ok s
unfolding scope_of_text
scope_round_trip exact_path = refl
scope_round_trip path_tree = refl
scope_round_trip command_prefix = refl
scope_round_trip host = refl
scope_round_trip env_key = refl
scope_round_trip tool = refl

grant_round_trip : (g : PermissionGrant) → grant_from_dict (grant_to_dict g) ≡ ok g
unfolding grant_from_dict grant_to_dict
grant_round_trip g = rw (action_round_trip g.action, scope_round_trip g.scope_type) refl

-- The grants that are saved, in their order and with all their fields, are the grants that are loaded.
pub load_grants_saved : (gs : List PermissionGrant) → load_grants (map grant_to_dict gs) ≡ gs
unfolding load_grants
load_grants_saved [] = refl
load_grants_saved (g ∷ gs) = rw (grant_round_trip g, load_grants_saved gs) refl
