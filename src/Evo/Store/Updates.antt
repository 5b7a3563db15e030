-- ===== src/Evo/Store/Updates.antt =====
-- What a replacement of the nodes keeps.
use bauhinia_agent.Common.{
  ◌↔◌, each_ok, beq_refl, arith, string_eq, ◌∙◌, ℕ, ◌≡◌, ◌⊎◌, inl, inr, refl, sym, ap, Bool, true,
  false, Option, none, some, List, elem, All, All-map, ok, >>=-eq-ok, require-eq-ok, require,
  Bool-cases, ◌==◌, nat_eq, each, each-eq-ok,
}
use bauhinia_agent.Common.Dict.{Dict, get}
use bauhinia_agent.Evo.Store.Ready.{IsReady, check_graph-IsReady}
use bauhinia_agent.Evo.Graph.{
  PlanNodeStatus, pending, in_progress, completed, failed, blocked, cancelled, superseded, EvoError,
  Raises, PlanNode, PlanGraph, status_eq, transitions, version_conflict, check_graph, nodes_by_id,
  check_transition, may_follow, status_of, bad_transition, next_graph, replace_nodes,
}

abbrev IsOpen : PlanNodeStatus → Type 0
IsOpen s = (s ≡ pending) ⊎ (s ≡ in_progress)

abbrev IsHalted : PlanNodeStatus → Type 0
IsHalted s = (s ≡ failed) ⊎ (s ≡ blocked)

-- The changes of a node: what is pending starts; what is open ends or is halted; what is not over is
-- given up; and what was halted or cancelled is pending again. A completed or superseded node stays.
pub data Becomes : PlanNodeStatus → PlanNodeStatus → Type 0 where
  starts : Becomes pending in_progress
  completes : {s : PlanNodeStatus} → IsOpen s → Becomes s completed
  fails : {s : PlanNodeStatus} → IsOpen s → Becomes s failed
  blocks : {s : PlanNodeStatus} → IsOpen s → Becomes s blocked
  cancels : {s : PlanNodeStatus} → IsOpen s ⊎ IsHalted s → Becomes s cancelled
  supersedes : {s : PlanNodeStatus} → IsOpen s ⊎ IsHalted s → Becomes s superseded
  reopens : {s : PlanNodeStatus} → IsHalted s ⊎ (s ≡ cancelled) → Becomes s pending

-- The status of a node may follow the one that the node had.
abbrev pub Follows : Option PlanNode → PlanNode → Type 0
Follows none n = Unit {0}
Follows (some before) n = (before.status ≡ n.status) ⊎ Becomes before.status n.status

Becomes-transitions : (s t : PlanNodeStatus) → Becomes s t → elem t (transitions s) ≡ true
Becomes-transitions _ _ starts = refl
Becomes-transitions s _ (completes h) = elim h [ inl e ↦ rw e refl | inr e ↦ rw e refl ]
Becomes-transitions s _ (fails h) = elim h [ inl e ↦ rw e refl | inr e ↦ rw e refl ]
Becomes-transitions s _ (blocks h) = elim h [ inl e ↦ rw e refl | inr e ↦ rw e refl ]
Becomes-transitions s _ (cancels h) = elim h [
  | inl o ↦ elim o [ inl e ↦ rw e refl | inr e ↦ rw e refl ]
  | inr o ↦ elim o [ inl e ↦ rw e refl | inr e ↦ rw e refl ]
]
Becomes-transitions s _ (supersedes h) = elim h [
  | inl o ↦ elim o [ inl e ↦ rw e refl | inr e ↦ rw e refl ]
  | inr o ↦ elim o [ inl e ↦ rw e refl | inr e ↦ rw e refl ]
]
Becomes-transitions s _ (reopens h) = elim h [
  | inl o ↦ elim o [ inl e ↦ rw e refl | inr e ↦ rw e refl ]
  | inr e ↦ rw e refl
]

transitions-Becomes : (s t : PlanNodeStatus) → elem t (transitions s) ≡ true → Becomes s t
transitions-Becomes pending in_progress h = starts
transitions-Becomes pending completed h = completes (inl refl)
transitions-Becomes pending failed h = fails (inl refl)
transitions-Becomes pending blocked h = blocks (inl refl)
transitions-Becomes pending cancelled h = cancels (inl (inl refl))
transitions-Becomes pending superseded h = supersedes (inl (inl refl))
transitions-Becomes pending pending h = cc
transitions-Becomes in_progress completed h = completes (inr refl)
transitions-Becomes in_progress failed h = fails (inr refl)
transitions-Becomes in_progress blocked h = blocks (inr refl)
transitions-Becomes in_progress cancelled h = cancels (inl (inr refl))
transitions-Becomes in_progress superseded h = supersedes (inl (inr refl))
transitions-Becomes in_progress pending h = cc
transitions-Becomes in_progress in_progress h = cc
transitions-Becomes failed pending h = reopens (inl (inl refl))
transitions-Becomes failed cancelled h = cancels (inr (inl refl))
transitions-Becomes failed superseded h = supersedes (inr (inl refl))
transitions-Becomes failed in_progress h = cc
transitions-Becomes failed completed h = cc
transitions-Becomes failed failed h = cc
transitions-Becomes failed blocked h = cc
transitions-Becomes blocked pending h = reopens (inl (inr refl))
transitions-Becomes blocked cancelled h = cancels (inr (inr refl))
transitions-Becomes blocked superseded h = supersedes (inr (inr refl))
transitions-Becomes blocked in_progress h = cc
transitions-Becomes blocked completed h = cc
transitions-Becomes blocked failed h = cc
transitions-Becomes blocked blocked h = cc
transitions-Becomes cancelled pending h = reopens (inr refl)
transitions-Becomes cancelled in_progress h = cc
transitions-Becomes cancelled completed h = cc
transitions-Becomes cancelled failed h = cc
transitions-Becomes cancelled blocked h = cc
transitions-Becomes cancelled cancelled h = cc
transitions-Becomes cancelled superseded h = cc
transitions-Becomes completed t h = cc
transitions-Becomes superseded t h = cc

passed : (b : Bool) (e : EvoError) → require b e ≡ ok tt → b ≡ true
passed true e h = refl
passed false e h = cc

transition-Follows :
    (previous : Dict PlanNode) (n : PlanNode)
    → check_transition previous n ≡ ok tt
    → Follows (get n.node_id previous) n
unfolding check_transition
transition-Follows previous n h = go (get n.node_id previous) (
    passed (may_follow (get n.node_id previous) n)
      (bad_transition n.node_id (status_of (get n.node_id previous)) n.status) h)
  where
    go : (o : Option PlanNode) → may_follow o n ≡ true → Follows o n
    go none e = tt
    go (some before) e = elim (Bool-cases (before.status == n.status)) [
      | inl same ↦ inl ((status_eq.equal_iff before.status n.status).0 same)
      | inr other ↦ inr (transitions-Becomes before.status n.status (rw other at e))
    ]

Follows-transition :
    (previous : Dict PlanNode) (n : PlanNode)
    → Follows (get n.node_id previous) n
    → check_transition previous n ≡ ok tt
unfolding check_transition
Follows-transition previous n h = go (get n.node_id previous) h
  where
    go :
        (o : Option PlanNode)
        → Follows o n
        → require (may_follow o n) (bad_transition n.node_id (status_of o) n.status) ≡ ok tt
    go none f = refl
    go (some before) (inl same) = rw (same, beq_refl n.status) refl
    go (some before) (inr b) = ground (arith, Becomes-transitions before.status n.status b)

-- What a replacement asks for: the version that is named is the graph's; the graph keeps its id and its
-- goal, is of the next version, has the given nodes and is valid; and each node that was there has a
-- status that may follow the one that it had.
abbrev pub Replaced : (g next : PlanGraph) → List PlanNode → ℕ → Type 0
Replaced g next nodes expected =
    (expected ≡ g.version)
    × (next ≡ next_graph g nodes)
    × (check_graph next ≡ ok tt)
    × All (λ n. Follows (get n.node_id (nodes_by_id g.nodes)) n) nodes

pub replace_nodes-Replaced :
    (g next : PlanGraph) (nodes : List PlanNode) (expected : ℕ)
    → replace_nodes g nodes expected ≡ ok next
    → Replaced g next nodes expected
unfolding replace_nodes
replace_nodes-Replaced g next nodes expected h =
    let (same, h1) =
      require-eq-ok (expected == g.version) (version_conflict expected g.version) _ h in
    let (u, valid, h2) = >>=-eq-ok (check_graph (next_graph g nodes)) _ h1 in
    let (v, follow, h3) = >>=-eq-ok (each (check_transition (nodes_by_id g.nodes)) nodes) _ h2 in
    let made : next_graph g nodes ≡ next = ok_eq h3 in
    (
      (nat_eq.equal_iff expected g.version).0 same,
      sym made,
      ap check_graph (sym made) ∙ valid,
      All-map (λ n. check_transition (nodes_by_id g.nodes) n ≡ ok tt)
          (λ n. Follows (get n.node_id (nodes_by_id g.nodes)) n) nodes
          (λ n passed. transition-Follows (nodes_by_id g.nodes) n passed)
          (each-eq-ok (check_transition (nodes_by_id g.nodes)) nodes follow),
    )
  where
    ok_eq : {a b : PlanGraph} → ◌≡◌ {A = Raises PlanGraph} (ok a) (ok b) → a ≡ b
    ok_eq e = cc

Replaced-replace_nodes :
    (g next : PlanGraph) (nodes : List PlanNode) (expected : ℕ)
    → Replaced g next nodes expected
    → replace_nodes g nodes expected ≡ ok next
unfolding replace_nodes
Replaced-replace_nodes g next nodes expected (version, made, valid, follow) =
    rw
      (
        (nat_eq.equal_iff expected g.version).1 version,
        ap check_graph (sym made) ∙ valid,
        each_ok (check_transition (nodes_by_id g.nodes)) nodes (
            All-map (λ n. Follows (get n.node_id (nodes_by_id g.nodes)) n)
              (λ n. check_transition (nodes_by_id g.nodes) n ≡ ok tt) nodes
              (λ n f. Follows-transition (nodes_by_id g.nodes) n f) follow),
      )
      (ap ok (sym made))

-- Replacing the nodes of a graph returns exactly where the version that is named is the graph's, the
-- graph of the next version with the given nodes is valid, and the status of each node that was there
-- is the same or one that it may become; and in the graph that it returns the nodes that a started node
-- waits for are completed.
pub replace_nodes_result :
    (g next : PlanGraph) (nodes : List PlanNode) (expected : ℕ)
    → ((replace_nodes g nodes expected ≡ ok next) ↔ Replaced g next nodes expected)
      × (replace_nodes g nodes expected ≡ ok next
          → All (IsReady (nodes_by_id next.nodes)) next.nodes)
replace_nodes_result g next nodes expected = (
  (replace_nodes-Replaced g next nodes expected, Replaced-replace_nodes g next nodes expected),
  λ h. check_graph-IsReady next (replace_nodes-Replaced g next nodes expected h).2,
)
