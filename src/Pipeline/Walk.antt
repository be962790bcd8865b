-- ===== src/Pipeline/Walk.antt =====
-- A pinned graph and the moves over it: the instantiation, the graph accessors and the derived
-- transitions of packages/core/src/pipeline.ts. An error of the source is an `err` with its data.
pub mod Lookup
pub mod Rows
pub mod Moves
pub mod Legal
pub mod Restart
use specmate.Prelude.{
  ℕ, Bool, true, false, not, ◌&&◌, ◌||◌, List, [], ◌∷◌, ◌++◌, map, Option, none, some, ◌==◌,
  if◌then◌else◌, leb, find?, find_idx_from, filter, includes, dedupe, get_elem?, suc, is_some,
  Result, ok, err, ◌>>=◌, String,
}
use specmate.Lifecycle.{
  TaskState, task_state_eq, draft, waiting_human, paused, blocked, cancelled, failed, is_terminal,
}
use specmate.Pipeline.Nodes.{
  PipelineNode, stage, gate, action, key_of, PinnedGraph, PipelineDefinition, StageNode, GateNode,
  LoopEdge, GateRedirect, option_list, rework_targets,
}

pub data WalkError : Type 0 where
  -- `node … is not in pipeline …`
  not_in_pipeline : TaskState → String → WalkError
  -- `…: nodes: cannot instantiate an empty definition`
  empty_definition : String → WalkError

abbrev pub has_key : TaskState → PipelineNode → Bool
has_key key node = key_of node == key

-- `nodeAt`.
unfoldable pub node_at : PinnedGraph → TaskState → Option PipelineNode
node_at graph key = find? (has_key key) graph.nodes

abbrev pub is_stage : PipelineNode → Bool
is_stage (stage n) = true
is_stage (gate n) = false
is_stage (action n) = false

-- `stageNodeKeys`.
unfoldable pub stage_node_keys : PinnedGraph → List TaskState
stage_node_keys graph = map key_of (filter is_stage graph.nodes)

abbrev pub key_or : TaskState → Option PipelineNode → TaskState
key_or terminal none = terminal
key_or terminal (some node) = key_of node

-- `forwardTarget`.
unfoldable pub forward_target : PinnedGraph → TaskState → Result WalkError TaskState
forward_target graph key = elim (find_idx_from (has_key key) 0 graph.nodes) [
  | none ↦ err (not_in_pipeline key graph.pipeline)
  | some i ↦ ok (key_or graph.terminal (get_elem? graph.nodes (suc i)))
]

-- `instantiateDefinition`. The copy is structural, and values do not alias here.
unfoldable pub instantiate_definition : PipelineDefinition → Result WalkError PinnedGraph
instantiate_definition d = elim (get_elem? d.nodes 0) [
  | none ↦ err (empty_definition d.id)
  | some entry ↦
      ok (record { pipeline = d.id; entry = key_of entry; terminal = d.terminal; nodes = d.nodes })
]

-- `table` of `graphTransitions`: the row of each state.
abbrev pub Table : Type 0
Table = TaskState → List TaskState

abbrev pub set_row : Table → TaskState → List TaskState → Table
set_row table key row state = if state == key then row else table state

abbrev pub loop_targets : StageNode → List TaskState
loop_targets n = map (λ (e : LoopEdge). e.target) (option_list n.loop_edge)

abbrev pub redirect_targets : GateNode → List TaskState
redirect_targets n = map (λ (r : GateRedirect). r.target) (option_list n.redirect)

-- The table before the loop over the nodes.
pub base_table : PinnedGraph → Table
unfolding stage_node_keys
base_table graph draft = graph.entry ∷ cancelled ∷ []
base_table graph blocked = graph.entry ∷ cancelled ∷ []
base_table graph failed = stage_node_keys graph ++ cancelled ∷ []
base_table graph _ = []

abbrev pub stage_row : StageNode → TaskState → List TaskState
stage_row n next = dedupe (next ∷ loop_targets n ++ failed ∷ [])

abbrev pub action_row : TaskState → List TaskState
action_row next = next ∷ failed ∷ cancelled ∷ []

abbrev pub gate_row : GateNode → List TaskState
gate_row n = dedupe (n.approve ∷ redirect_targets n ++ (rework_targets n ++ cancelled ∷ []))

-- What the loop writes for one node.
pub row_of : PinnedGraph → PipelineNode → Result WalkError (List TaskState)
unfolding forward_target
row_of graph (stage n) = forward_target graph n.key >>= λ next. ok (stage_row n next)
row_of graph (action n) = forward_target graph n.key >>= λ next. ok (action_row next)
row_of graph (gate n) = ok (gate_row n)

pub fill_table : PinnedGraph → Table → List PipelineNode → Result WalkError Table
unfolding row_of
fill_table graph table [] = ok table
fill_table graph table (node ∷ rest) =
    row_of graph node >>= λ row. fill_table graph (set_row table (key_of node) row) rest

-- `graphTransitions`.
unfoldable pub graph_transitions : PinnedGraph → Result WalkError Table
unfolding fill_table base_table
graph_transitions graph = fill_table graph (base_table graph) graph.nodes

abbrev pub index_of : TaskState → List TaskState → Option ℕ
index_of state states = find_idx_from (λ s. s == state) 0 states

abbrev le_index : Option ℕ → Option ℕ → Bool
le_index none failed_at = false
le_index (some i) none = false
le_index (some i) (some j) = leb i j

-- `isRestartable`.
unfoldable pub is_restartable : PinnedGraph → TaskState → TaskState → Bool
unfolding stage_node_keys
is_restartable graph target failed_at =
    let order = stage_node_keys graph in le_index (index_of target order) (index_of failed_at order)

abbrev pub is_interrupt : TaskState → Bool
is_interrupt to = to == waiting_human || (to == paused || (to == blocked || to == cancelled))

-- `canTransition`.
unfoldable pub can_transition : PinnedGraph → TaskState → TaskState → Result WalkError Bool
unfolding graph_transitions node_at
can_transition graph source to =
    if (source == waiting_human || source == paused) && is_some (node_at graph to)
    then ok true
    else graph_transitions graph >>= λ table.
        ok (includes to (table source) || (is_interrupt to && not (is_terminal source)))
