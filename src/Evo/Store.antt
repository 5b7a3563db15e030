-- ===== src/Evo/Store.antt =====
-- `EvoPlanningService` of planning/evo.py: the graphs of an append-only log of events.
pub mod Updates
pub mod Ready
use bauhinia_agent.Common.{
  ℕ, ◌+◌, String, Bool, true, false, not, ◌&&◌, ◌||◌, Option, none, some, List, [], ◌∷◌, ◌++◌, map,
  filter, elem, is_empty, ◌==◌, nat_eq, string_eq, if◌then◌else◌, ok, err, ◌>>=◌, ◌>>◌, require,
  each,
}
use bauhinia_agent.Evo.Graph.{
  EvoError, Raises, PlanBudget, PlanNode, PlanGraph, status_eq, version_conflict, plan_exists,
  unknown_plan, nothing_changed, check_node, check_graph, require_text, require_evo_id, find_node,
  node, replace_nodes, next_graph,
}

-- An event holds its graph or node itself: serialization is not modelled.
pub data EvoEvent : Type 0 where
  plan_created : PlanGraph → EvoEvent
  node_updated : (plan_id : String) (version : ℕ) → PlanNode → EvoEvent
  decision_recorded : (plan_id node_id : String) → EvoEvent

abbrev pub Log : Type 0
Log = List EvoEvent

abbrev pub replace_in : PlanNode → List PlanNode → List PlanNode
replace_in n ms = map (λ (m : PlanNode). if m.node_id == n.node_id then n else m) ms

abbrev if_new : Option PlanNode → PlanNode → List PlanNode
if_new none n = n ∷ []
if_new (some old) n = []

-- The nodes of a graph with one node put in the place of the one of its id, or at the end.
unfoldable pub put_node : PlanNode → List PlanNode → List PlanNode
put_node n ms = replace_in n ms ++ if_new (find_node n.node_id ms) n

abbrev pub with_node : PlanGraph → ℕ → PlanNode → PlanGraph
with_node g version n = record g { version = version; nodes = put_node n g.nodes }

abbrev check_both : PlanNode → PlanGraph → Raises (Option PlanGraph)
check_both n g = do check_node n; check_graph g; ok (some g)

-- `PlanGraph.from_dict`: the fields, the nodes, and then the graph.
unfoldable pub read_graph : PlanGraph → Raises (Option PlanGraph)
read_graph g = do
  require_evo_id g.plan_id "plan_id"
  require_text g.goal "goal"
  each check_node g.nodes
  check_graph g
  ok (some g)

-- One event of the loop of `get`, for an event of another plan or of no plan yet too.
unfoldable pub apply_event : String → Option PlanGraph → EvoEvent → Raises (Option PlanGraph)
apply_event plan_id current (plan_created g) = elim (g.plan_id == plan_id) [
  | true ↦ read_graph g
  | false ↦ ok current
]
apply_event plan_id none (node_updated id version n) = ok none
apply_event plan_id (some g) (node_updated id version n) = elim (id == plan_id) [
  | true ↦ check_both n (with_node g version n)
  | false ↦ ok (some g)
]
apply_event plan_id current (decision_recorded id node_id) = ok current

unfoldable pub replay : String → Option PlanGraph → Log → Raises (Option PlanGraph)
replay plan_id current [] = ok current
replay plan_id current (e ∷ es) = do next ← apply_event plan_id current e; replay plan_id next es

unfoldable pub get : String → Log → Raises (Option PlanGraph)
get plan_id log = do require_evo_id plan_id "plan_id"; replay plan_id none log

abbrev pub require_plan : String → Log → Raises PlanGraph
require_plan plan_id log = do
  current ← get plan_id log
  elim current [ none ↦ err (unknown_plan plan_id) | some g ↦ ok g ]

unfoldable pub create : PlanGraph → Log → Raises Log
create g log = do
  current ← get g.plan_id log
  elim current [ none ↦ ok (log ++ plan_created g ∷ []) | some h ↦ err (plan_exists g.plan_id) ]

-- The events of changed nodes, in the order of the graph.
abbrev pub updates : PlanGraph → List PlanNode → Log
updates g nodes = map (λ n. node_updated g.plan_id g.version n) nodes

abbrev optional_number_equal : Option ℕ → Option ℕ → Bool
optional_number_equal none none = true
optional_number_equal (some a) (some b) = a == b
optional_number_equal _ _ = false

abbrev optional_text_equal : Option String → Option String → Bool
optional_text_equal none none = true
optional_text_equal (some a) (some b) = a == b
optional_text_equal _ _ = false

abbrev texts_equal : List String → List String → Bool
texts_equal [] [] = true
texts_equal (x ∷ xs) (y ∷ ys) = x == y && texts_equal xs ys
texts_equal _ _ = false

-- `==` of two nodes, field by field
unfoldable pub same_node : PlanNode → PlanNode → Bool
same_node a b =
    a.node_id == b.node_id
    && a.goal == b.goal
    && texts_equal a.depends_on b.depends_on
    && texts_equal a.preconditions b.preconditions
    && texts_equal a.risks b.risks
    && optional_number_equal a.budget.max_tool_calls b.budget.max_tool_calls
    && a.budget.max_attempts == b.budget.max_attempts
    && optional_number_equal a.budget.max_tokens b.budget.max_tokens
    && texts_equal a.verification_conditions b.verification_conditions
    && a.status == b.status
    && a.attempts == b.attempts
    && texts_equal a.evidence_refs b.evidence_refs
    && optional_text_equal a.parent_node_id b.parent_node_id

-- `_node_changed`
unfoldable pub node_changed : PlanGraph → PlanNode → Bool
node_changed previous n = elim (find_node n.node_id previous.nodes) [
  | none ↦ true
  | some m ↦ not (same_node m n)
]

-- A node update without effect returns the graph and appends nothing.
abbrev pub apply_update :
    PlanGraph → ℕ → PlanNode → (change_summary : String) → PlanNode → Log → Raises (PlanGraph × Log)
apply_update g expected n summary existing log = elim (same_node existing n) [
  | true ↦ ok (g, log)
  | false ↦ do
    next ← replace_nodes g (replace_in n g.nodes) expected
    require_text summary "change_summary"
    ok (next, log ++ updates next (n ∷ []))
]

unfoldable pub update_node :
    String
    → (expected_version : ℕ) → PlanNode
    → (change_summary : String) → Log
    → Raises (PlanGraph × Log)
update_node plan_id expected n summary log = do
  g ← require_plan plan_id log
  require (g.version == expected) (version_conflict expected g.version)
  existing ← node g n.node_id
  apply_update g expected n summary existing log

-- `synchronize`; the texts of the summaries of several changed nodes are the same.
unfoldable pub synchronize :
    PlanGraph → (expected_version : ℕ) → (change_summary : String) → Log → Raises (PlanGraph × Log)
synchronize g expected summary log = do
  current ← require_plan g.plan_id log
  require (current.version == expected) (version_conflict expected current.version)
  next ← replace_nodes current g.nodes expected
  let changed = filter (node_changed current) g.nodes
  elim changed [
    | [] ↦ ok (current, log)
    | n ∷ ns ↦ do require_text summary "change_summary"; ok (g, log ++ updates g (n ∷ ns))
  ]

-- `replan`, whose request holds the graph that is to be next. The summary of each update is not blank.
unfoldable pub replan : PlanGraph → (expected_version : ℕ) → Log → Raises (PlanGraph × Log)
replan g expected log = do
  current ← require_plan g.plan_id log
  require (current.version == expected) (version_conflict expected current.version)
  next ← replace_nodes current g.nodes expected
  let changed = filter (node_changed current) g.nodes
  elim changed [
    | [] ↦ err nothing_changed
    | n ∷ ns ↦ do
      known ← node current n.node_id
      ok (g, log ++ decision_recorded g.plan_id n.node_id ∷ updates g (n ∷ ns))
  ]
