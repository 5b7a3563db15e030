-- ===== src/Permissions/Examples.antt =====
-- The permission system on a small platform: paths are texts, and case is left alone.
use Prim.Native.String.{◌++◌ as append}
use bauhinia_agent.Common.{
  strip, String, ◌≡◌, ◌≢◌, ◌↔◌, refl, false, none, List, [], ◌∷◌, ◌==◌, string_eq, if◌then◌else◌,
  nat_eq,
}
use bauhinia_agent.Common.Dict.{get}
use bauhinia_agent.Permissions.Types.{
  Platform, PermissionMode, standard, bypass, PermissionAction, read_path, delete_path,
  network_request, mcp_tool, exact_path, PermissionGrant, allow, deny, ask,
}
use bauhinia_agent.Permissions.Commands.{
  starts_with, split_at, target_paths, rtrim, ltrim, ends_with,
}
use bauhinia_agent.Permissions.Policy.{
  Request, decide, flag, resolve_paths, is_inside, inside_root, decide_delete, decide_network,
  is_private_network_target, host_or_text,
}
use bauhinia_agent.Permissions.Policy.Limits.{Allowed, Denied, decide_allow_iff, decide_deny_iff}
use bauhinia_agent.Permissions.Grants.{
  grant_matches, scope_matches, canonical_path, matching_decision, first_with, host_from_target,
}
use bauhinia_agent.Common.{map}
use bauhinia_agent.Permissions.Grants.Files.{grant_to_dict, load_grants, load_grants_saved}
use bauhinia_agent.Permissions.Grants.Matches.{matched, MatchOutcome, matching_decision_outcome}
use bauhinia_agent.Permissions.Manager.{
  Manager, normalize_request, check, preflight, confirmation_guard, normalize_choice,
  resolve_confirmation, default_scope_for_request, host_scope_value,
}
use bauhinia_agent.Permissions.Manager.Answers.{resolve_confirmation_outcome, denied_stays_denied}
use bauhinia_agent.Permissions.Manager.Resolved.{Resolved}
use bauhinia_agent.Permissions.Manager.Repeats.{preflight_denied, allow_always_repeats}

abbrev toy : Platform
toy = record {
  FilePath = String;
  same_path = λ p q. p == q;
  of_text = λ t. t;
  text = λ p. p;
  is_absolute = starts_with "/";
  join_path = λ p q. append p (append "/" q);
  resolve = λ p. p;
  parents = λ p. if starts_with "/project/" p then "/project" ∷ [] else [];
  parts = split_at (λ c. c == 47);
  relative_parts = λ root p. none;
  name = λ p. p;
  suffix = λ p. "";
  normcase = λ t. t;
  hostname = λ t. none;
  is_private_address = λ t. false;
  lower = λ t. t;
  upper = λ t. t;
}

abbrev request : PermissionAction → String → Request toy
request a target = record {
  id = "r1";
  action = a;
  target = target;
  reason = "";
  cwd = none;
  metadata = [];
}

abbrev grant : String → PermissionAction → String → PermissionGrant
grant effect a target = record {
  id = "g1";
  effect = effect;
  action = a;
  scope_type = exact_path;
  scope_value = target;
  created_at = "now";
  reason = "";
}

abbrev manager : PermissionMode → List PermissionGrant → Manager toy
manager mode grants = record { project_root = "/project"; mode = mode; grants = grants }

standard-apart : standard ≢ bypass
standard-apart e = cc

decide_allow_iff_example :
    ((decide toy standard "/project" (request read_path "notes.txt")).kind ≡ allow)
    ↔ Allowed toy read_path standard "/project" (request read_path "notes.txt")
decide_allow_iff_example =
    decide_allow_iff toy standard "/project" (request read_path "notes.txt") standard-apart

decide_deny_iff_example :
    ((decide toy standard "/project" (request delete_path "/etc/hosts")).kind ≡ deny)
    ↔ Denied toy delete_path "/project" (request delete_path "/etc/hosts")
decide_deny_iff_example =
    decide_deny_iff toy standard "/project" (request delete_path "/etc/hosts") standard-apart

abbrev both : List PermissionGrant
both = grant "allow" read_path "/a" ∷ grant "deny" read_path "/a" ∷ []

matching_decision_outcome_example :
    MatchOutcome toy
      (request read_path "/a")
      both
      (matching_decision toy both (request read_path "/a"))
matching_decision_outcome_example = matching_decision_outcome toy both (request read_path "/a")

preflight_denied_example :
    (preflight toy (manager bypass both) (request read_path "/a")).kind ≡ deny
unfolding matched grant_matches scope_matches canonical_path normalize_request starts_with
preflight_denied_example = preflight_denied toy (manager bypass both) (request read_path "/a") refl

resolve_confirmation_outcome_example :
    Resolved toy
      (manager standard [])
      (normalize_request toy "/project" (request mcp_tool "db.query"))
      "2"
      (resolve_confirmation toy "2" "now" (manager standard []) (request mcp_tool "db.query"))
unfolding strip
resolve_confirmation_outcome_example =
    resolve_confirmation_outcome toy (manager standard []) (request mcp_tool "db.query") "2" "now"

denied_stays_denied_example :
    ((resolve_confirmation toy "3" "now"
        (manager standard [])
        (request delete_path "/etc/hosts")).0.kind
      ≡ deny)
    × ((resolve_confirmation toy "3" "now"
          (manager standard [])
          (request delete_path "/etc/hosts")).1
        ≡ manager standard [])
unfolding preflight check matching_decision first_with decide decide_delete inside_root
    resolve_paths is_inside target_paths normalize_request
denied_stays_denied_example =
    denied_stays_denied toy (manager standard []) (request delete_path "/etc/hosts") "3" "now" refl

allow_always_repeats_example :
    (preflight toy
      (resolve_confirmation toy "3" "now" (manager standard []) (request mcp_tool "db.query")).1
      (request mcp_tool "db.query")).kind
    ≡ allow
unfolding preflight check matching_decision first_with decide normalize_request normalize_choice
    flag get scope_matches default_scope_for_request
allow_always_repeats_example =
    allow_always_repeats toy (manager standard []) (request mcp_tool "db.query") "3" "now" refl refl
      refl refl

-- The grant that is saved for a host with a dot at its end does not match the same request.
dotted_host_is_asked_again :
    (preflight toy
      (resolve_confirmation toy "3" "now"
        (manager standard [])
        (request network_request "example.com.")).1
      (request network_request "example.com.")).kind
    ≡ ask
unfolding preflight check matching_decision first_with grant_matches scope_matches decide
    decide_network is_private_network_target rtrim ltrim ends_with host_or_text host_from_target
    host_scope_value normalize_request normalize_choice flag get default_scope_for_request
    resolve_confirmation confirmation_guard
dotted_host_is_asked_again = refl

load_grants_saved_example : load_grants (map grant_to_dict both) ≡ both
load_grants_saved_example = load_grants_saved both
