-- ===== src/Pipeline/Nodes.antt =====
-- Nodes, definitions and pinned graphs: the types at the head of packages/core/src/pipeline.ts.
use specmate.Prelude.{ℕ, List, [], ◌∷◌, Option, none, some, String, Eq, eq_of_discrete}
use specmate.Lifecycle.{
  TaskState, Caps, draft, waiting_human, paused, blocked, archived, cancelled, failed,
}
use specmate.Roles.{AgentRole}

pub data LoopKind : Type 0 where
  spec impl : LoopKind

unfoldable pub LoopKind-discrete : Discrete LoopKind
LoopKind-discrete = hlevel

instance abbrev pub loop_kind_eq : Eq LoopKind
loop_kind_eq = eq_of_discrete LoopKind-discrete

abbrev pub loop_kinds : List LoopKind
loop_kinds = LoopKind.spec ∷ impl ∷ []

-- `keyof Caps`, and the field that a key names.
pub data CapKey : Type 0 where
  max_spec_iterations max_impl_iterations max_kickoff_regenerations : CapKey
  repeated_finding_threshold max_plan_depth max_prerequisite_tasks : CapKey
  max_questions_per_stage : CapKey

abbrev pub cap_of : Caps → CapKey → ℕ
cap_of caps max_spec_iterations = caps.max_spec_iterations
cap_of caps max_impl_iterations = caps.max_impl_iterations
cap_of caps max_kickoff_regenerations = caps.max_kickoff_regenerations
cap_of caps repeated_finding_threshold = caps.repeated_finding_threshold
cap_of caps max_plan_depth = caps.max_plan_depth
cap_of caps max_prerequisite_tasks = caps.max_prerequisite_tasks
cap_of caps max_questions_per_stage = caps.max_questions_per_stage

-- `LOOP_CAPS`.
abbrev pub loop_cap : LoopKind → CapKey
loop_cap spec = max_spec_iterations
loop_cap impl = max_impl_iterations

pub data ProviderBinding : Type 0 where
  role_default cross_review : ProviderBinding

pub record LoopEdge : Type 0 where
  pub target : TaskState
  pub loop : LoopKind

pub data PredicateId : Type 0 where
  spec_scenarios_at_least spec_suite_in_force : PredicateId

pub record NodeCondition : Type 0 where
  pub predicate : PredicateId
  pub threshold : Option ℕ

-- One condition, or several of which all must hold.
pub data NodeConditions : Type 0 where
  one : NodeCondition → NodeConditions
  every : List NodeCondition → NodeConditions

pub record StageNode : Type 0 where
  pub key : TaskState
  pub role : AgentRole
  pub binding : ProviderBinding
  pub loop_edge : Option LoopEdge
  pub resumes : Option TaskState
  pub condition : Option NodeConditions

pub record GateRedirect : Type 0 where
  pub target : TaskState
  pub cap : CapKey

pub record GateNode : Type 0 where
  pub key : TaskState
  pub approve : TaskState
  pub redirect : Option GateRedirect
  pub rework : Option (List TaskState)
  pub condition : Option NodeConditions

pub record ActionNode : Type 0 where
  pub key : TaskState

pub data PipelineNode : Type 0 where
  stage : StageNode → PipelineNode
  gate : GateNode → PipelineNode
  action : ActionNode → PipelineNode

abbrev pub key_of : PipelineNode → TaskState
key_of (stage n) = n.key
key_of (gate n) = n.key
key_of (action n) = n.key

pub record PipelineDefinition : Type 0 where
  pub id : String
  pub nodes : List PipelineNode
  pub terminal : TaskState

pub record PinnedGraph : Type 0 where
  pub pipeline : String
  pub entry : TaskState
  pub terminal : TaskState
  pub nodes : List PipelineNode

-- `edge ?? []`, for the optional parts of a node.
abbrev pub option_list {ℓ} : {A : Type ℓ} → Option A → List A
option_list none = []
option_list (some a) = a ∷ []

abbrev pub rework_targets : GateNode → List TaskState
rework_targets n = elim n.rework [ none ↦ [] | some targets ↦ targets ]

-- `RESERVED_STATES`.
abbrev pub reserved_states : List TaskState
reserved_states = draft ∷ waiting_human ∷ paused ∷ blocked ∷ archived ∷ cancelled ∷ failed ∷ []
