-- ===== src/Examples/Walking.antt =====
-- The graph accessors and the load-time checks of packages/core/src/pipeline.ts, on the shipped
-- definitions and on a definition that cannot end.
use specmate.Prelude.{
  true, false, [], ◌∷◌, some, none, ok, ◌≡◌, refl, ◌↔◌, ◌≢◌, arith, Memᴰ, discrete_beq, Bool,
  includes, includes-Memᴰ,
}
use specmate.Lifecycle.{
  TaskState, task_state_eq, default_caps, planning, specify, spec_review, human_spec_gate,
  implement, validate, same_state, is_terminal, archived, failed, publish,
}
use specmate.Pipeline.Nodes.{PipelineNode, StageNode, stage, NodeCondition, spec_scenarios_at_least}
use specmate.Pipeline.Conditions.{NodeFacts}
use specmate.Pipeline.Walk.{stage_node_keys, can_transition, is_restartable, node_at}
use specmate.Pipeline.Walk.Lookup.{keys_of}
use specmate.Pipeline.Walk.Legal.{Allowed, can_transition_iff}
use specmate.Pipeline.Walk.Restart.{FromOn, is_restartable-can_transition}
use specmate.Pipeline.Reach.{reaches_terminal}
use specmate.Pipeline.Reach.Correct.{Walk, reaches_terminal_iff}
use specmate.Pipeline.Validate.Sound.{IsWellFormed, validate_definition-IsWellFormed}
use specmate.Pipeline.Reduction.{validate_reduction}
use specmate.Pipeline.Reduction.Sound.{IsReduction, validate_reduction-IsReduction}
use specmate.Pipeline.Catalog.{feature_bugfix_pipeline, feature_bugfix_compact}
use specmate.Pipeline.Binding.{bind_stage_provider}
use specmate.Pipeline.Binding.Laws.{bind_stage_provider-cross_review}
use specmate.Roles.{claude_code, codex}
use specmate.Examples.Inputs.{shipped_graph, shipped_valid, shipped-Distinct}

can_transition_iff_example :
    (b : Bool) × (can_transition shipped_graph validate implement ≡ ok b)
    × ((b ≡ true) ↔ Allowed shipped_graph validate implement)
can_transition_iff_example = can_transition_iff shipped_graph validate implement shipped-Distinct

archived_not_included : includes archived (keys_of shipped_graph.nodes) ≡ false
unfolding same_state
archived_not_included = refl

archived_absent : ¬ Memᴰ archived (keys_of shipped_graph.nodes)
archived_absent m =
    ground (arith, archived_not_included, includes-Memᴰ archived (keys_of shipped_graph.nodes))

restarts : is_restartable shipped_graph planning implement ≡ true
unfolding is_restartable same_state
restarts = refl

failed_not_included : includes failed (keys_of shipped_graph.nodes) ≡ false
unfolding same_state
failed_not_included = refl

failed_absent : ¬ Memᴰ failed (keys_of shipped_graph.nodes)
failed_absent m =
    ground (arith, failed_not_included, includes-Memᴰ failed (keys_of shipped_graph.nodes))

is_restartable-can_transition_example : (is_restartable shipped_graph planning implement ≡ true) ↔ (
    FromOn planning implement (stage_node_keys shipped_graph)
    × (can_transition shipped_graph failed planning ≡ ok true))
is_restartable-can_transition_example =
    is_restartable-can_transition shipped_graph planning implement shipped-Distinct failed_absent

reaches_terminal_iff_example :
    (b : Bool) × (reaches_terminal feature_bugfix_pipeline planning ≡ some b)
    × ((b ≡ true) ↔ Walk feature_bugfix_pipeline planning archived)
reaches_terminal_iff_example = reaches_terminal_iff feature_bugfix_pipeline planning

validate_definition-IsWellFormed_example : IsWellFormed feature_bugfix_pipeline
validate_definition-IsWellFormed_example =
    validate_definition-IsWellFormed feature_bugfix_pipeline shipped_valid

compact_reduces : validate_reduction feature_bugfix_pipeline feature_bugfix_compact ≡ []
unfolding validate_reduction same_state discrete_beq
    specmate.Pipeline.Reduction.PipelineNode-discrete specmate.Lifecycle.TaskState-discrete
compact_reduces = refl

validate_reduction-IsReduction_example : IsReduction feature_bugfix_pipeline feature_bugfix_compact
validate_reduction-IsReduction_example =
    validate_reduction-IsReduction feature_bugfix_pipeline feature_bugfix_compact compact_reduces

abbrev few_scenarios : NodeFacts
few_scenarios = record { spec_scenario_count = some 2; spec_suite_in_force = some true }

review_stage : (n : PipelineNode) × (node_at shipped_graph spec_review ≡ some n)
unfolding node_at same_state
review_stage = (_, refl)

abbrev bare_floor : NodeCondition
bare_floor = record { predicate = spec_scenarios_at_least; threshold = none }

validate_node : (n : StageNode) × (node_at shipped_graph validate ≡ some (stage n))
unfolding node_at same_state
validate_node = (_, refl)

bind_stage_provider-cross_review_example :
    Memᴰ
      (bind_stage_provider validate_node.0
        (some claude_code)
        (claude_code ∷ codex ∷ [])
        (some claude_code))
      (claude_code ∷ codex ∷ [])
    × (bind_stage_provider validate_node.0
          (some claude_code)
          (claude_code ∷ codex ∷ [])
          (some claude_code)
        ≢ claude_code)
unfolding validate_node
bind_stage_provider-cross_review_example =
    bind_stage_provider-cross_review validate_node.0 claude_code codex (claude_code ∷ codex ∷ [])
      (some claude_code) refl (Memᴰ.tail (Memᴰ.head refl)) cc
