-- ===== src/Evo/Examples.antt =====
-- Small plan graphs and logs.
use bauhinia_agent.Common.{
  All, ◌↔◌, some, ℕ, String, ◌≡◌, refl, none, List, [], ◌∷◌, ok, err, ◌>>=◌, ◌⊎◌, arith, each,
  is_blank,
}
use bauhinia_agent.Evo.Store.{
  Log, node_updated, plan_created, put_node, read_graph, apply_event, replay, get, create,
  same_node, node_changed, update_node, synchronize,
}
use bauhinia_agent.Common.Dict
use bauhinia_agent.Evo.Graph.{
  PlanNode, PlanGraph, PlanNodeStatus, pending, in_progress, completed, cycle, not_ready, Waiting,
  peel, require_evo_id, require_text, require_texts, check_node, check_graph, check_edges,
  check_transition, validate, nodes_by_id, find_node, replace_nodes,
}
use bauhinia_agent.Evo.Graph.Rounds.{peel_outcome}
use bauhinia_agent.Evo.Store.Updates.{Replaced, replace_nodes_result}
use bauhinia_agent.Evo.Store.Ready.{IsReady}

abbrev step : String → PlanNodeStatus → List String → PlanNode
step id status deps = record {
  node_id = id;
  goal = "work";
  depends_on = deps;
  preconditions = [];
  risks = [];
  budget = record { max_tool_calls = none; max_attempts = 1; max_tokens = none };
  verification_conditions = [];
  status = status;
  attempts = 0;
  evidence_refs = [];
  parent_node_id = none;
}

abbrev graph : ℕ → List PlanNode → PlanGraph
graph version nodes = record { plan_id = "p"; goal = "ship"; version = version; nodes = nodes }

-- The second step runs; the first waits for it.
abbrev running : PlanGraph
running = graph 1 (step "second" pending ("first" ∷ []) ∷ step "first" in_progress [] ∷ [])

-- The first step is done, and the second runs.
abbrev handed_over : PlanGraph
handed_over = graph 2 (step "second" in_progress ("first" ∷ []) ∷ step "first" completed [] ∷ [])

unfoldable pub evo : Unit {0}
unfolding Dict.get each is_blank require_evo_id require_text require_texts check_node check_graph
    check_edges check_transition validate peel nodes_by_id find_node replace_nodes put_node
    read_graph apply_event replay get create same_node node_changed update_node synchronize
evo = tt

replace_nodes_result_example :
    ((replace_nodes running handed_over.nodes 1 ≡ ok handed_over)
      ↔ Replaced running handed_over handed_over.nodes 1)
    × (replace_nodes running handed_over.nodes 1 ≡ ok handed_over
        → All (IsReady (nodes_by_id handed_over.nodes)) handed_over.nodes)
replace_nodes_result_example = replace_nodes_result running handed_over handed_over.nodes 1

-- The graph that is handed over is what the replacement makes.
hands_over : replace_nodes running handed_over.nodes 1 ≡ ok handed_over
unfolding evo
hands_over = refl

abbrev knot : Waiting
knot = ("a", "b" ∷ []) ∷ ("b", "a" ∷ []) ∷ []

peel_outcome_example : (peel 2 knot ≡ ok tt) ⊎ (peel 2 knot ≡ err cycle)
peel_outcome_example = peel_outcome 2 knot (omega arith)

-- A change of two steps at once is accepted and written, and the log that it makes cannot be read: the
-- update of the second step comes first, and is refused before the first step is done.
synchronized_log_is_unreadable :
    (synchronize handed_over 1 "hand over" (plan_created running ∷ []) >>= λ out. get "p" out.1)
    ≡ err (not_ready "second")
unfolding evo
synchronized_log_is_unreadable = refl

abbrev finished : PlanGraph
finished = graph 2 (step "second" pending ("first" ∷ []) ∷ step "first" completed [] ∷ [])

abbrev finished_log : Log
finished_log = plan_created running ∷ node_updated "p" 2 (step "first" completed []) ∷ []

finished_is_read : get "p" finished_log ≡ ok (some finished)
unfolding evo
finished_is_read = refl
