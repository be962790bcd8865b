-- ===== src/Pipeline/Catalog.antt =====
-- The shipped definitions: `FEATURE_BUGFIX_PIPELINE`, its compact reduction, and what a declared
-- size selects, of packages/core/src/pipeline.ts. The sizes are those of packages/core/src/plan.ts.
use specmate.Prelude.{ℕ, not, List, [], ◌∷◌, Option, none, some, filter, includes}
use specmate.Lifecycle.{
  TaskState, task_state_eq, planning, human_kickoff_gate, specify, spec_review, human_spec_gate,
  implement, validate, summarize, human_final_gate, publish, archived, Caps,
}
use specmate.Roles.{planner, reviewer, implementer, validator, summarizer}
use specmate.Pipeline.Nodes.{
  LoopKind, role_default, cross_review, NodeCondition, spec_suite_in_force, spec_scenarios_at_least,
  one, every, max_kickoff_regenerations, PipelineNode, stage, gate, action, key_of,
  PipelineDefinition,
}

pub data TaskType : Type 0 where
  feature bugfix : TaskType

pub data PlanSize : Type 0 where
  small medium large : PlanSize

pub data PipelineProfile : Type 0 where
  full compact : PipelineProfile

abbrev pub spec_review_scenario_floor : ℕ
spec_review_scenario_floor = 4

abbrev suite : NodeCondition
suite = record { predicate = spec_suite_in_force; threshold = none }

abbrev enough_scenarios : NodeCondition
enough_scenarios = record {
  predicate = spec_scenarios_at_least;
  threshold = some spec_review_scenario_floor;
}

-- `FEATURE_BUGFIX_PIPELINE.nodes`.
abbrev feature_bugfix_nodes : List PipelineNode
feature_bugfix_nodes =
    stage (record {
      key = planning;
      role = planner;
      binding = role_default;
      loop_edge = none;
      resumes = none;
      condition = none;
    })
    ∷ gate (record {
      key = human_kickoff_gate;
      approve = specify;
      redirect = some (record { target = planning; cap = max_kickoff_regenerations });
      rework = none;
      condition = none;
    })
    ∷ stage (record {
      key = specify;
      role = planner;
      binding = role_default;
      loop_edge = none;
      resumes = some planning;
      condition = some (one suite);
    })
    ∷ stage (record {
      key = spec_review;
      role = reviewer;
      binding = cross_review;
      loop_edge = some (record { target = specify; loop = LoopKind.spec });
      resumes = none;
      condition = some (every (suite ∷ enough_scenarios ∷ []));
    })
    ∷ gate (record {
      key = human_spec_gate;
      approve = implement;
      redirect = none;
      rework = some (specify ∷ []);
      condition = some (one suite);
    })
    ∷ stage (record {
      key = implement;
      role = implementer;
      binding = role_default;
      loop_edge = none;
      resumes = none;
      condition = none;
    })
    ∷ stage (record {
      key = validate;
      role = validator;
      binding = cross_review;
      loop_edge = some (record { target = implement; loop = LoopKind.impl });
      resumes = none;
      condition = none;
    })
    ∷ stage (record {
      key = summarize;
      role = summarizer;
      binding = role_default;
      loop_edge = none;
      resumes = none;
      condition = none;
    })
    ∷ gate (record {
      key = human_final_gate;
      approve = publish;
      redirect = none;
      rework = some (implement ∷ specify ∷ []);
      condition = none;
    })
    ∷ action (record { key = publish })
    ∷ []

abbrev pub feature_bugfix_pipeline : PipelineDefinition
feature_bugfix_pipeline = record {
  id = "feature-bugfix";
  nodes = feature_bugfix_nodes;
  terminal = archived;
}

abbrev compact_drops : List TaskState
compact_drops = spec_review ∷ []

-- `FEATURE_BUGFIX_COMPACT`.
abbrev pub feature_bugfix_compact : PipelineDefinition
feature_bugfix_compact = record feature_bugfix_pipeline {
  id = "feature-bugfix-compact";
  nodes = filter (λ n. not (includes (key_of n) compact_drops)) feature_bugfix_nodes;
}

-- `PROFILE_FOR_SIZE`.
abbrev pub profile_for_size : PlanSize → PipelineProfile
profile_for_size small = compact
profile_for_size medium = full
profile_for_size large = full

-- `definitionFor`, on the shipped catalog.
unfoldable pub definition_for : TaskType → PipelineProfile → PipelineDefinition
definition_for type full = feature_bugfix_pipeline
definition_for type compact = feature_bugfix_compact

unfoldable pub definition_for_size : TaskType → PlanSize → PipelineDefinition
unfolding definition_for
definition_for_size type size = definition_for type (profile_for_size size)

-- `Partial<Caps>`.
pub record PartialCaps : Type 0 where
  pub max_spec_iterations : Option ℕ
  pub max_impl_iterations : Option ℕ
  pub max_kickoff_regenerations : Option ℕ
  pub repeated_finding_threshold : Option ℕ
  pub max_plan_depth : Option ℕ
  pub max_prerequisite_tasks : Option ℕ
  pub max_questions_per_stage : Option ℕ

abbrev pub get_or : Option ℕ → ℕ → ℕ
get_or none d = d
get_or (some n) d = n

-- `{ ...current, ...given }`.
abbrev pub spread : Caps → PartialCaps → Caps
spread current given = record {
  max_spec_iterations = get_or given.max_spec_iterations current.max_spec_iterations;
  max_impl_iterations = get_or given.max_impl_iterations current.max_impl_iterations;
  max_kickoff_regenerations =
      get_or given.max_kickoff_regenerations current.max_kickoff_regenerations;
  repeated_finding_threshold =
      get_or given.repeated_finding_threshold current.repeated_finding_threshold;
  max_plan_depth = get_or given.max_plan_depth current.max_plan_depth;
  max_prerequisite_tasks = get_or given.max_prerequisite_tasks current.max_prerequisite_tasks;
  max_questions_per_stage = get_or given.max_questions_per_stage current.max_questions_per_stage;
}

abbrev pub no_caps : PartialCaps
no_caps = record {
  max_spec_iterations = none;
  max_impl_iterations = none;
  max_kickoff_regenerations = none;
  repeated_finding_threshold = none;
  max_plan_depth = none;
  max_prerequisite_tasks = none;
  max_questions_per_stage = none;
}

-- `CAPS_FOR_SIZE`.
unfoldable pub caps_for_size_table : PlanSize → PartialCaps
caps_for_size_table small = record no_caps {
  max_spec_iterations = some 1;
  max_impl_iterations = some 2;
}
caps_for_size_table medium = record no_caps {
  max_spec_iterations = some 2;
  max_impl_iterations = some 3;
}
caps_for_size_table large = record no_caps {
  max_spec_iterations = some 3;
  max_impl_iterations = some 4;
}

-- `capsForSize`.
unfoldable pub caps_for_size : PlanSize → Caps → PartialCaps → Caps
unfolding caps_for_size_table
caps_for_size size current override = spread (spread current (caps_for_size_table size)) override
