-- ===== src/Evo/Graph.antt =====
-- PlanBudget, PlanNode and PlanGraph of planning/evo.py, and the identifiers of
-- evolution/identifiers.py.
pub mod Rounds
use Prim.Native.Char.{code}
use Prim.Native.String.{count}
use bauhinia_agent.Common.{
  ℕ, zero, suc, ◌+◌, String, Bool, true, false, not, ◌&&◌, ◌||◌, Option, none, some, List, [], ◌∷◌,
  map, filter, any, all, elem, length, is_empty, leb, ltb, ◌==◌, nat_eq, string_eq, Eq,
  if◌then◌else◌, Result, ok, err, ◌>>=◌, ◌>>◌, require, each, is_blank, is_space, is_empty_text,
  strip, ◌≡◌, ◌↔◌, arith,
}
use bauhinia_agent.Common.Dict.{Dict, get, keys, of_list}

pub data PlanNodeStatus : Type 0 where
  pending in_progress completed failed blocked cancelled superseded : PlanNodeStatus

-- The messages of `PlanGraphError`, and of an identifier that is refused. `key_error` and
-- `out_of_fuel` are of the model: that a key is missing, or a loop was given too few rounds.
pub data EvoError : Type 0 where
  not_identifier not_text repeats : (field : String) → EvoError
  too_many_attempts ids_not_unique cycle : EvoError
  depends_on_self missing_parent not_ready unknown_node key_error : (node : String) → EvoError
  depends_on_missing : (node dependency : String) → EvoError
  version_conflict : (expected actual : ℕ) → EvoError
  bad_transition : (node : String) (from to : PlanNodeStatus) → EvoError
  plan_exists unknown_plan : (plan : String) → EvoError
  nothing_changed out_of_fuel : EvoError

abbrev pub Raises : Type 0 → Type 0
Raises A = Result EvoError A

pub record PlanBudget : Type 0 where
  pub max_tool_calls : Option ℕ
  pub max_attempts : ℕ
  pub max_tokens : Option ℕ

pub record PlanNode : Type 0 where
  pub node_id : String
  pub goal : String
  pub depends_on : List String
  pub preconditions : List String
  pub risks : List String
  pub budget : PlanBudget
  pub verification_conditions : List String
  pub status : PlanNodeStatus
  pub attempts : ℕ
  pub evidence_refs : List String
  pub parent_node_id : Option String

pub record PlanGraph : Type 0 where
  pub plan_id : String
  pub goal : String
  pub version : ℕ
  pub nodes : List PlanNode

abbrev status_equal : PlanNodeStatus → PlanNodeStatus → Bool
status_equal pending pending = true
status_equal in_progress in_progress = true
status_equal completed completed = true
status_equal failed failed = true
status_equal blocked blocked = true
status_equal cancelled cancelled = true
status_equal superseded superseded = true
status_equal _ _ = false

pub status_equal_iff : (a b : PlanNodeStatus) → (status_equal a b ≡ true) ↔ (a ≡ b)
status_equal_iff a b = ground arith

instance abbrev pub status_eq : Eq PlanNodeStatus
status_eq = record { equal = status_equal; equal_iff = status_equal_iff }

-- `_TRANSITIONS`
abbrev pub transitions : PlanNodeStatus → List PlanNodeStatus
transitions pending = in_progress ∷ completed ∷ failed ∷ blocked ∷ cancelled ∷ superseded ∷ []
transitions in_progress = completed ∷ failed ∷ blocked ∷ cancelled ∷ superseded ∷ []
transitions completed = []
transitions failed = pending ∷ cancelled ∷ superseded ∷ []
transitions blocked = pending ∷ cancelled ∷ superseded ∷ []
transitions cancelled = pending ∷ []
transitions superseded = []

has_unsafe : String → Bool
has_unsafe String.[] = false
has_unsafe (String.◌∷◌ c cs) =
    is_space (code c) || ltb (code c) 32 || code c == 127 || has_unsafe cs

-- `require_evo_id`
unfoldable pub require_evo_id : String → (field : String) → Raises (Unit {0})
unfolding has_unsafe strip
require_evo_id value field = do
  require (not (is_empty_text value) && strip value == value) (not_identifier field)
  require (leb (count value) 256) (not_identifier field)
  require (not (has_unsafe value)) (not_identifier field)

unfoldable pub require_text : String → (field : String) → Raises (Unit {0})
unfolding is_blank
require_text value field = require (not (is_blank value)) (not_text field)

has_repeats : List String → Bool
has_repeats [] = false
has_repeats (x ∷ xs) = elem x xs || has_repeats xs

-- `_string_tuple` of a tuple of texts
unfoldable pub require_texts : List String → (field : String) → Raises (Unit {0})
unfolding has_repeats each
require_texts values field = do
  each (λ v. require_text v field) values
  require (not (has_repeats values)) (repeats field)

abbrev require_parent : Option String → Raises (Unit {0})
require_parent none = ok tt
require_parent (some p) = require_evo_id p "parent_node_id"

-- `PlanNode.__post_init__`; the fields have their declared types.
unfoldable pub check_node : PlanNode → Raises (Unit {0})
check_node n = do
  require_evo_id n.node_id "node_id"
  require_text n.goal "goal"
  require_texts n.depends_on "depends_on"
  require_texts n.preconditions "preconditions"
  require_texts n.risks "risks"
  require_texts n.verification_conditions "verification_conditions"
  require_texts n.evidence_refs "evidence_refs"
  require (leb n.attempts n.budget.max_attempts) too_many_attempts
  require_parent n.parent_node_id

unfoldable pub nodes_by_id : List PlanNode → Dict PlanNode
unfolding of_list
nodes_by_id nodes = of_list (map (λ n. (n.node_id, n)) nodes)

abbrev pub is_completed : Dict PlanNode → String → Raises Bool
is_completed by_id d = elim (get d by_id) [
  | none ↦ err (key_error d)
  | some n ↦ ok (n.status == completed)
]

unfoldable pub all_completed : Dict PlanNode → List String → Raises Bool
all_completed by_id [] = ok true
all_completed by_id (d ∷ ds) = do
  done ← is_completed by_id d
  elim done [ true ↦ all_completed by_id ds | false ↦ ok false ]

abbrev pub parent_known : Dict PlanNode → Option String → Bool
parent_known by_id none = true
parent_known by_id (some p) = elem p (keys by_id)

abbrev check_started : Dict PlanNode → PlanNode → Raises (Unit {0})
check_started by_id n = elim (n.status == in_progress) [
  | false ↦ ok tt
  | true ↦ all_completed by_id n.depends_on >>= λ ready. require ready (not_ready n.node_id)
]

-- The loop over the nodes in `validate`.
unfoldable pub check_edges : Dict PlanNode → PlanNode → Raises (Unit {0})
unfolding all_completed each
check_edges by_id n = do
  require (not (elem n.node_id n.depends_on)) (depends_on_self n.node_id)
  each (λ d. require (elem d (keys by_id)) (depends_on_missing n.node_id d)) n.depends_on
  require (parent_known by_id n.parent_node_id) (missing_parent n.node_id)
  check_started by_id n

abbrev pub Waiting : Type 0
Waiting = List (String × List String)

abbrev pub ready_ids : Waiting → List String
ready_ids remaining = map (λ (e : String × List String). e.0) (filter (λ e. is_empty e.1) remaining)

abbrev pub after_round : Waiting → Waiting
after_round remaining =
    map (λ (e : String × List String). (e.0, filter (λ d. not (elem d (ready_ids remaining))) e.1))
      (filter (λ (e : String × List String). not (elem e.0 (ready_ids remaining))) remaining)

-- The loop that finds a cycle.
unfoldable pub peel : ℕ → Waiting → Raises (Unit {0})
peel fuel [] = ok tt
peel zero (e ∷ es) = err out_of_fuel
peel (suc fuel) (e ∷ es) = elim (ready_ids (e ∷ es)) [
  | [] ↦ err cycle
  | r ∷ rs ↦ peel fuel (after_round (e ∷ es))
]

-- Each round drops a node, so as many rounds as nodes are enough.
unfoldable pub validate : PlanGraph → Raises (Unit {0})
unfolding each
validate g = do
  require (length (nodes_by_id g.nodes) == length g.nodes) ids_not_unique
  each (check_edges (nodes_by_id g.nodes)) g.nodes
  peel (length g.nodes) (map (λ n. (n.node_id, n.depends_on)) g.nodes)

-- `PlanGraph.__post_init__`
unfoldable pub check_graph : PlanGraph → Raises (Unit {0})
check_graph g = do require_evo_id g.plan_id "plan_id"; require_text g.goal "goal"; validate g

unfoldable pub find_node : String → List PlanNode → Option PlanNode
find_node id [] = none
find_node id (n ∷ ns) = if n.node_id == id then some n else find_node id ns

-- `PlanGraph.node`
abbrev pub node : PlanGraph → String → Raises PlanNode
node g id = elim (find_node id g.nodes) [ none ↦ err (unknown_node id) | some n ↦ ok n ]

abbrev pub may_follow : Option PlanNode → PlanNode → Bool
may_follow none n = true
may_follow (some before) n = before.status == n.status || elem n.status (transitions before.status)

abbrev pub status_of : Option PlanNode → PlanNodeStatus
status_of none = pending
status_of (some n) = n.status

unfoldable pub check_transition : Dict PlanNode → PlanNode → Raises (Unit {0})
check_transition previous n =
    require (may_follow (get n.node_id previous) n)
      (bad_transition n.node_id (status_of (get n.node_id previous)) n.status)

abbrev pub next_graph : PlanGraph → List PlanNode → PlanGraph
next_graph g nodes = record g { version = g.version + 1; nodes = nodes }

unfoldable pub replace_nodes : PlanGraph → List PlanNode → (expected_version : ℕ) → Raises PlanGraph
replace_nodes g nodes expected = do
  require (expected == g.version) (version_conflict expected g.version)
  check_graph (next_graph g nodes)
  each (check_transition (nodes_by_id g.nodes)) nodes
  ok (next_graph g nodes)
