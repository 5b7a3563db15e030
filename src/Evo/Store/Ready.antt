-- ===== src/Evo/Store/Ready.antt =====
-- The started nodes of a valid graph (planning/evo.py).
use bauhinia_agent.Common.{
  [], ◌∷◌, err, string_eq, String, length, not, ◌>>=◌, ◌∙◌, ◌≡◌, refl, sym, ap, Bool, true, false,
  Option, none, some, List, elem, All, All-map, ok, >>=-eq-ok, require-eq-ok, require, ◌==◌, nat_eq,
  each, each-eq-ok,
}
use bauhinia_agent.Common.Dict.{Dict, get, keys}
use bauhinia_agent.Evo.Graph.{
  in_progress, completed, ids_not_unique, depends_on_missing, not_ready, key_error, require_evo_id,
  require_text, validate, check_edges, parent_known, all_completed, is_completed, EvoError, Raises,
  PlanNode, PlanGraph, status_eq, check_graph, nodes_by_id,
}

passed : (b : Bool) (e : EvoError) → require b e ≡ ok tt → b ≡ true
passed true e h = refl
passed false e h = cc

-- What a started node waits for is completed.
abbrev pub IsReady : Dict PlanNode → PlanNode → Type 0
IsReady by_id n =
    n.status ≡ in_progress
    → All (λ d. (m : PlanNode) × (get d by_id ≡ some m) × (m.status ≡ completed)) n.depends_on

all_completed-All :
    (by_id : Dict PlanNode) (ds : List String)
    → all_completed by_id ds ≡ ok true
    → All (λ d. (m : PlanNode) × (get d by_id ≡ some m) × (m.status ≡ completed)) ds
unfolding all_completed
all_completed-All by_id [] h = tt
all_completed-All by_id (d ∷ ds) h =
    let (done, found, h1) = >>=-eq-ok (is_completed by_id d) _ h in
    go done found h1 (all_completed-All by_id ds)
  where
    at :
        (o : Option PlanNode)
        → get d by_id ≡ o
        → (elim o [ none ↦ err (key_error d) | some n ↦ ok (n.status == completed) ]) ≡ ok true
        → (m : PlanNode) × (get d by_id ≡ some m) × (m.status ≡ completed)
    at none e k = cc
    at (some m) e k = (m, e, (status_eq.equal_iff m.status completed).0 (bool_ok k))
      where
        bool_ok : {b : Bool} → ◌≡◌ {A = Raises Bool} (ok b) (ok true) → b ≡ true
        bool_ok k = cc

    go :
        (done : Bool)
        → is_completed by_id d ≡ ok done
        → (elim done [ true ↦ all_completed by_id ds | false ↦ ok false ]) ≡ ok true
        → (all_completed by_id ds ≡ ok true
            → All (λ d. (m : PlanNode) × (get d by_id ≡ some m) × (m.status ≡ completed)) ds)
        → All (λ d. (m : PlanNode) × (get d by_id ≡ some m) × (m.status ≡ completed)) (d ∷ ds)
    go true found k ih = (at (get d by_id) refl found, ih k)
    go false found k ih = cc

edges-IsReady :
    (by_id : Dict PlanNode) (n : PlanNode) → check_edges by_id n ≡ ok tt → IsReady by_id n
unfolding check_edges
edges-IsReady by_id n k started =
    let (other, k1) = require-eq-ok (not (elem n.node_id n.depends_on)) _ _ k in
    let (a, known, k2) =
      >>=-eq-ok
        (each (λ d. require (elem d (keys by_id)) (depends_on_missing n.node_id d)) n.depends_on) _
        k1 in
    let (parent, k3) = require-eq-ok (parent_known by_id n.parent_node_id) _ _ k2 in
    let running : (all_completed by_id n.depends_on >>= λ ready.
    require ready (not_ready n.node_id))
        ≡ ok tt =
      ap
        (λ b. elim b [
          | false ↦ ok tt
          | true ↦ all_completed by_id n.depends_on >>= λ ready. require ready (not_ready n.node_id)
        ])
        (sym ((status_eq.equal_iff n.status in_progress).1 started))
      ∙ k3 in
    let (ready, all_done, k4) = >>=-eq-ok (all_completed by_id n.depends_on) _ running in
    all_completed-All by_id n.depends_on (all_done ∙ ap ok (passed ready (not_ready n.node_id) k4))

pub check_graph-IsReady :
    (g : PlanGraph) → check_graph g ≡ ok tt → All (IsReady (nodes_by_id g.nodes)) g.nodes
unfolding check_graph validate
check_graph-IsReady g h =
    let (u, named, h1) = >>=-eq-ok (require_evo_id g.plan_id "plan_id") _ h in
    let (v, aimed, h2) = >>=-eq-ok (require_text g.goal "goal") _ h1 in
    let (once, h3) =
      require-eq-ok (length (nodes_by_id g.nodes) == length g.nodes) ids_not_unique _ h2 in
    let (w, edges, h4) = >>=-eq-ok (each (check_edges (nodes_by_id g.nodes)) g.nodes) _ h3 in
    All-map (λ n. check_edges (nodes_by_id g.nodes) n ≡ ok tt) (IsReady (nodes_by_id g.nodes))
      g.nodes (λ n k. edges-IsReady (nodes_by_id g.nodes) n k)
      (each-eq-ok (check_edges (nodes_by_id g.nodes)) g.nodes edges)
