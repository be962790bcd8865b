-- ===== src/Pipeline/Validate.antt =====
-- `validateDefinition` of packages/core/src/pipeline.ts. A defect is the data of its message: the
-- definition, the element and the problem, with what the sentence interpolates.
pub mod Passes
pub mod Entries
pub mod Edges
pub mod Sound
use specmate.Prelude.{
  ℕ, zero, suc, Bool, true, false, not, ◌&&◌, List, [], ◌∷◌, ◌++◌, map, Option, none, some, String,
  ◌==◌, if◌then◌else◌, includes, is_some, find?, is_empty, flat_map, leb, filter,
}
use specmate.Lifecycle.{TaskState, task_state_eq, task_states, is_terminal, failed}
use specmate.Roles.{AgentRole, agent_role_eq, agent_roles, pipeline_roles}
use specmate.Pipeline.Nodes.{
  LoopKind, loop_kind_eq, loop_kinds, LoopEdge, PipelineNode, StageNode, GateNode, stage, gate,
  action, key_of, PipelineDefinition, ProviderBinding, role_default, cross_review, NodeCondition,
  reserved_states, rework_targets,
}
use specmate.Pipeline.Conditions.{ConditionDefect, condition_defects, node_predicate, conditions_of}
use specmate.Pipeline.Walk.{has_key, redirect_targets}
use specmate.Pipeline.Reach.{reaches_terminal}

pub data Element : Type 0 where
  nodes : Element
  node terminal gate_of : TaskState → Element
  loop_edge : (source target : TaskState) → Element

pub data Problem : Type 0 where
  no_nodes duplicate_key illegal_status reserved_status review_without_loop : Problem
  unknown_role not_pipeline_role : AgentRole → Problem
  bad_condition : ConditionDefect → Problem
  terminal_not_terminal : Problem
  resumes_missing resumes_not_earlier resumes_not_stage : TaskState → Problem
  resumes_other_role : TaskState → AgentRole → AgentRole → Problem
  target_missing points_forward : Problem
  unknown_loop : LoopKind → Problem
  approve_unresolved redirect_unresolved rework_unresolved : TaskState → Problem
  terminal_unreachable : Problem

pub record Defect : Type 0 where
  pub definition : String
  pub element : Element
  pub problem : Problem

abbrev pub at : PipelineDefinition → Element → Problem → Defect
at d element problem = record { definition = d.id; element = element; problem = problem }

abbrev pub report : PipelineDefinition → Bool → Element → Problem → List Defect
report d broken element problem = if broken then at d element problem ∷ [] else []

-- The map `index`: a later entry of a key hides an earlier one.
abbrev pub Index : Type 0
Index = List (TaskState × ℕ)

abbrev pub index_get : TaskState → Index → Option ℕ
index_get key [] = none
index_get key ((k, i) ∷ index) = let rest = index_get key index in if k == key then some i else rest

abbrev pub index_has : TaskState → Index → Bool
index_has key index = is_some (index_get key index)

status_defects : PipelineDefinition → PipelineNode → List Defect
status_defects d n =
    if not (includes (key_of n) task_states)
    then at d (node (key_of n)) illegal_status ∷ []
    else report d (includes (key_of n) reserved_states) (node (key_of n)) reserved_status

role_defects : PipelineDefinition → PipelineNode → List Defect
role_defects d (stage n) =
    if not (includes n.role agent_roles)
    then at d (node n.key) (unknown_role n.role) ∷ []
    else report d (not (includes n.role pipeline_roles)) (node n.key) (not_pipeline_role n.role)
role_defects d (gate n) = []
role_defects d (action n) = []

abbrev pub is_cross_review : ProviderBinding → Bool
is_cross_review role_default = false
is_cross_review cross_review = true

review_defects : PipelineDefinition → PipelineNode → List Defect
review_defects d (stage n) =
    report d (is_cross_review n.binding && not (is_some n.loop_edge)) (node n.key)
      review_without_loop
review_defects d (gate n) = []
review_defects d (action n) = []

guard_defects : PipelineDefinition → PipelineNode → List Defect
guard_defects d n =
    flat_map
      (λ (c : NodeCondition).
        map (λ x. at d (node (key_of n)) (bad_condition x))
          (condition_defects c (node_predicate c.predicate)))
      (conditions_of n)

-- The body of the first loop, after the node's key was looked up and entered.
pub node_defects : PipelineDefinition → Index → PipelineNode → List Defect
unfolding status_defects role_defects review_defects guard_defects
node_defects d index n =
    report d (index_has (key_of n) index) (node (key_of n)) duplicate_key
    ++ (status_defects d n ++ (role_defects d n ++ (review_defects d n ++ guard_defects d n)))

pub first_loop : PipelineDefinition → ℕ → Index → List PipelineNode → List Defect
unfolding node_defects
first_loop d i index [] = []
first_loop d i index (n ∷ ns) =
    node_defects d index n ++ first_loop d (suc i) ((key_of n, i) ∷ index) ns

-- `index` when the first loop has ended.
pub index_from : ℕ → Index → List PipelineNode → Index
index_from i index [] = index
index_from i index (n ∷ ns) = index_from (suc i) ((key_of n, i) ∷ index) ns

pub terminal_defects : PipelineDefinition → List Defect
terminal_defects d =
    report d (not (is_terminal d.terminal && not (d.terminal == failed))) (terminal d.terminal)
      terminal_not_terminal

-- `from !== undefined && to >= from`.
abbrev pub not_earlier : ℕ → Option ℕ → Bool
not_earlier to none = false
not_earlier to (some source) = leb source to

resumed_role : PipelineDefinition → StageNode → TaskState → Option PipelineNode → List Defect
resumed_role d n resumed (some (stage r)) =
    report d (not (r.role == n.role)) (node n.key) (resumes_other_role resumed r.role n.role)
resumed_role d n resumed _ = at d (node n.key) (resumes_not_stage resumed) ∷ []

resumed_at : PipelineDefinition → StageNode → TaskState → Option ℕ → Option ℕ → List Defect
unfolding resumed_role
resumed_at d n resumed none source = at d (node n.key) (resumes_missing resumed) ∷ []
resumed_at d n resumed (some to) source =
    if not_earlier to source
    then at d (node n.key) (resumes_not_earlier resumed) ∷ []
    else resumed_role d n resumed (find? (has_key resumed) d.nodes)

resume_defects : PipelineDefinition → Index → StageNode → Option TaskState → List Defect
unfolding resumed_at
resume_defects d index n none = []
resume_defects d index n (some resumed) =
    resumed_at d n resumed (index_get resumed index) (index_get n.key index)

target_defects : PipelineDefinition → Element → Option ℕ → Option ℕ → List Defect
target_defects d element none source = at d element target_missing ∷ []
target_defects d element (some to) source = report d (not_earlier to source) element points_forward

loop_defects : PipelineDefinition → Index → StageNode → Option LoopEdge → List Defect
unfolding target_defects
loop_defects d index n none = []
loop_defects d index n (some edge) =
    let element = loop_edge n.key edge.target in
    target_defects d element (index_get edge.target index) (index_get n.key index)
    ++ report d (not (includes edge.loop loop_kinds)) element (unknown_loop edge.loop)

gate_defects : PipelineDefinition → Index → GateNode → List Defect
gate_defects d index n =
    report d (not (index_has n.approve index) && not (n.approve == d.terminal)) (gate_of n.key)
      (approve_unresolved n.approve)
    ++ (flat_map
          (λ target.
            report d (not (index_has target index)) (gate_of n.key) (redirect_unresolved target))
          (redirect_targets n)
        ++ flat_map
            (λ target.
              report d (not (index_has target index)) (gate_of n.key) (rework_unresolved target))
            (rework_targets n))

-- The body of the second loop.
pub edge_defects : PipelineDefinition → Index → PipelineNode → List Defect
unfolding resume_defects loop_defects gate_defects
edge_defects d index (stage n) =
    resume_defects d index n n.resumes ++ loop_defects d index n n.loop_edge
edge_defects d index (gate n) = gate_defects d index n
edge_defects d index (action n) = []

is_true : Option Bool → Bool
is_true none = false
is_true (some b) = b

pub reach_defects : PipelineDefinition → PipelineNode → List Defect
unfolding is_true
reach_defects d n =
    report d (not (is_true (reaches_terminal d (key_of n)))) (node (key_of n)) terminal_unreachable

-- `defects` where the code asks whether there are any.
pub local_defects : PipelineDefinition → List Defect
unfolding first_loop index_from terminal_defects edge_defects
local_defects d =
    first_loop d 0 [] d.nodes
    ++ (terminal_defects d ++ flat_map (edge_defects d (index_from 0 [] d.nodes)) d.nodes)

-- `validateDefinition`.
unfoldable pub validate_definition : PipelineDefinition → List Defect
unfolding local_defects reach_defects
validate_definition d =
    if is_empty d.nodes
    then at d nodes no_nodes ∷ []
    else let defects = local_defects d in
      if is_empty defects then flat_map (reach_defects d) d.nodes else defects
