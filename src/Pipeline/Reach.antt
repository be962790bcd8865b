-- ===== src/Pipeline/Reach.antt =====
-- `reachesTerminal` of packages/core/src/pipeline.ts: a walk over the edges of a definition, with the
-- nodes seen so far and a queue that is popped at its end. The head of `queue` here is that end.
-- The loop takes fuel, and `none` means that it ran out; `Reach.Total` shows that it never does.
pub mod Total
pub mod Correct
use specmate.Prelude.{
  ℕ, zero, suc, ◌+◌, Bool, true, false, List, [], ◌∷◌, ◌++◌, map, Option, none, some, ◌==◌,
  if◌then◌else◌, includes, length,
}
use specmate.Lifecycle.{TaskState, task_state_eq}
use specmate.Pipeline.Nodes.{
  PipelineNode, stage, gate, action, key_of, PipelineDefinition, rework_targets,
}
use specmate.Pipeline.Walk.{key_or, loop_targets, redirect_targets, has_key}
use specmate.Pipeline.Advance.{reversed}

-- The nodes from the first one with this key on: `findIndex`, with what stands at `i` and `i + 1`.
abbrev pub suffix_at : TaskState → List PipelineNode → List PipelineNode
suffix_at key [] = []
suffix_at key (n ∷ ns) = let later = suffix_at key ns in if has_key key n then n ∷ ns else later

abbrev pub next_key : TaskState → List PipelineNode → TaskState
next_key terminal [] = terminal
next_key terminal (n ∷ ns) = key_of n

-- What is pushed for a node, in the order of the pushes.
abbrev pub pushes : TaskState → PipelineNode → List PipelineNode → List TaskState
pushes terminal (stage n) rest = next_key terminal rest ∷ loop_targets n
pushes terminal (gate n) rest = n.approve ∷ redirect_targets n ++ rework_targets n
pushes terminal (action n) rest = next_key terminal rest ∷ []

abbrev pub pushes_at : TaskState → List PipelineNode → List TaskState
pushes_at terminal [] = []
pushes_at terminal (n ∷ rest) = pushes terminal n rest

abbrev pub successors : PipelineDefinition → TaskState → List TaskState
successors d key = pushes_at d.terminal (suffix_at key d.nodes)

search_loop : PipelineDefinition → ℕ → List TaskState → List TaskState → Option Bool
search_loop d fuel seen [] = some false
search_loop d zero seen (key ∷ queue) = none
search_loop d (suc fuel) seen (key ∷ queue) =
    let skip = search_loop d fuel seen queue in
    let expand = search_loop d fuel (key ∷ seen) (reversed (successors d key) ++ queue) in
    if includes key seen then skip else if key == d.terminal then some true else expand

-- The pushes of all nodes.
pub out_degrees : TaskState → List PipelineNode → ℕ
out_degrees terminal [] = 0
out_degrees terminal (n ∷ ns) = length (pushes terminal n ns) + out_degrees terminal ns

pub search_fuel : PipelineDefinition → ℕ
unfolding out_degrees
search_fuel d = 1 + out_degrees d.terminal d.nodes

unfoldable pub reaches_terminal : PipelineDefinition → TaskState → Option Bool
unfolding search_loop search_fuel
reaches_terminal d source = search_loop d (search_fuel d) [] (source ∷ [])
