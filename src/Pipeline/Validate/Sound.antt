-- ===== src/Pipeline/Validate/Sound.antt =====
-- A definition that `validateDefinition` accepts is well formed.
use specmate.Prelude.{
  Bool, true, false, not, ◌&&◌, List, [], ◌∷◌, ◌≡◌, ◌≢◌, ◌⊎◌, inl, inr, refl, arith, ◌==◌,
  if◌then◌else◌, Memᴰ, append-eq-nil, flat_map, is_empty, ap,
}
use specmate.Lifecycle.{
  TaskState, task_state_eq, same_state, archived, cancelled, failed, is_terminal,
}
use specmate.Pipeline.Nodes.{PipelineNode, PipelineDefinition, key_of}
use specmate.Pipeline.Walk.Lookup.{keys_of, Distinct}
use specmate.Pipeline.Reach.Correct.{Walk, reaches_terminal_iff}
use specmate.Pipeline.Validate.{
  Defect, first_loop, index_from, terminal_defects, edge_defects, reach_defects, local_defects,
  validate_definition,
}
use specmate.Pipeline.Validate.Passes.{flat_map-nil, report-nil}
use specmate.Pipeline.Validate.Entries.{NodeFits, first_loop-nil}
use specmate.Pipeline.Validate.Edges.{EdgesFit, edge_defects-nil}

pub record IsWellFormed (d : PipelineDefinition) : Type 0 where
  pub inhabited : d.nodes ≢ []
  pub distinct : Distinct (keys_of d.nodes)
  pub ends : (d.terminal ≡ archived) ⊎ (d.terminal ≡ cancelled)
  pub node_fits : (n : PipelineNode) → Memᴰ n d.nodes → NodeFits n
  pub edges_fit : (n : PipelineNode) → Memᴰ n d.nodes → EdgesFit d n
  pub finishes : (n : PipelineNode) → Memᴰ n d.nodes → Walk d (key_of n) d.terminal

terminal_cases :
    (s : TaskState)
    → not (is_terminal s && not (s == failed)) ≡ false
    → (s ≡ archived) ⊎ (s ≡ cancelled)
unfolding is_terminal same_state
terminal_cases archived h = inl refl
terminal_cases cancelled h = inr refl
terminal_cases _ h = cc

terminal-nil :
    (d : PipelineDefinition)
    → terminal_defects d ≡ []
    → (d.terminal ≡ archived) ⊎ (d.terminal ≡ cancelled)
unfolding terminal_defects
terminal-nil d h = terminal_cases d.terminal (report-nil d _ _ _ h)

reach-nil :
    (d : PipelineDefinition) (n : PipelineNode)
    → reach_defects d n ≡ []
    → Walk d (key_of n) d.terminal
unfolding reach_defects
reach-nil d n h =
    let (b, e, iff) = reaches_terminal_iff d (key_of n) in
    iff.0 (ground (arith, report-nil d _ _ _ h))

staged :
    (b : Bool) (x : Defect) (found reach : List Defect)
    → (if b then x ∷ [] else if is_empty found then reach else found) ≡ []
    → (b ≡ false) × (found ≡ []) × (reach ≡ [])
staged true x found reach h = cc
staged false x [] reach h = (refl, refl, h)
staged false x (y ∷ found) reach h = cc

validate_nil :
    (d : PipelineDefinition)
    → validate_definition d ≡ []
    → (is_empty d.nodes ≡ false)
      × (local_defects d ≡ [])
      × (flat_map (reach_defects d) d.nodes ≡ [])
unfolding validate_definition
validate_nil d h = staged _ _ (local_defects d) (flat_map (reach_defects d) d.nodes) h

-- A definition in which `validateDefinition` finds no defect has a node; no two of its nodes share a
-- key and none claims a reserved status; its roles are pipeline roles, its cross reviews have a loop
-- edge, its conditions have no defect; it ends in `archived` or `cancelled`; its loop edges and the
-- sessions that it resumes point strictly back, the latter to a stage of the same role; its gates
-- lead to nodes of the definition, or approve into the terminal; and from every node a walk leads to
-- the terminal.
pub validate_definition-IsWellFormed :
    (d : PipelineDefinition) → validate_definition d ≡ [] → IsWellFormed d
unfolding local_defects
validate_definition-IsWellFormed d h =
    let (some_node, silent, reached) = validate_nil d h in
    let (first, rest) = append-eq-nil (first_loop d 0 [] d.nodes) _ silent in
    let (last, edges) = append-eq-nil (terminal_defects d) _ rest in
    let loop = first_loop-nil d 0 [] d.nodes first in
    record {
      inhabited = λ e. cc (some_node, ap is_empty e);
      distinct = loop.distinct;
      ends = terminal-nil d last;
      node_fits = loop.fits;
      edges_fit = λ n m.
          edge_defects-nil d loop.distinct n m
            (flat_map-nil (edge_defects d (index_from 0 [] d.nodes)) d.nodes edges n m);
      finishes = λ n m. reach-nil d n (flat_map-nil (reach_defects d) d.nodes reached n m);
    }
