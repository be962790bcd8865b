-- ===== src/Pipeline/Reduction.antt =====
-- `validateReduction` of packages/core/src/pipeline.ts, and the loading of catalogs and profiles.
pub mod Sound
use native.Mathlib.Decide.{ℕ_discrete}
use specmate.Prelude.{
  ℕ, Bool, true, false, not, List, [], ◌∷◌, ◌++◌, map, Option, none, some, String, ◌==◌,
  if◌then◌else◌, includes, Eq, eq_of_discrete, is_empty, flat_map, filter, Result, ok, err,
}
use specmate.Lifecycle.{TaskState, task_state_eq, TaskState-discrete}
use specmate.Pipeline.Nodes.{
  PipelineNode, StageNode, GateNode, stage, gate, action, key_of, PipelineDefinition,
  rework_targets,
}
use specmate.Pipeline.Walk.{loop_targets, redirect_targets}
use specmate.Pipeline.Reach.{suffix_at}
use specmate.Pipeline.Validate.{Defect, validate_definition}
use specmate.Pipeline.Catalog.{PipelineProfile, full, compact, TaskType, feature, bugfix}

-- The texts of two nodes under `JSON.stringify` are the same where their fields are.
unfoldable pub PipelineNode-discrete : Discrete PipelineNode
PipelineNode-discrete = hlevel (ℕ_discrete, TaskState-discrete)

instance abbrev pub pipeline_node_eq : Eq PipelineNode
pipeline_node_eq = eq_of_discrete PipelineNode-discrete

pub data ReductionElement : Type 0 where
  terminal node gate_of : TaskState → ReductionElement
  loop_edge : (source target : TaskState) → ReductionElement

pub data ReductionProblem : Type 0 where
  differs_from_terminal : TaskState → ReductionProblem
  not_in_base differs_from_base target_dropped : ReductionProblem
  resumes_dropped approve_dropped redirect_dropped rework_dropped : TaskState → ReductionProblem

-- The reduction's id, and that of the base where the sentence names it.
pub record ReductionDefect : Type 0 where
  pub definition : String
  pub base : String
  pub element : ReductionElement
  pub problem : ReductionProblem

module _ (base reduction : PipelineDefinition) where
  abbrev pub report : Bool → ReductionElement → ReductionProblem → List ReductionDefect
  report broken element problem =
      if broken
      then record {
        definition = reduction.id;
        base = base.id;
        element = element;
        problem = problem;
      }
        ∷ []
      else []

  -- The loop with the cursor. `remaining` is what of the base's nodes is at or after it, and `found`
  -- what of those stands from the node of this key on.
  pub cursor_after : List PipelineNode → List PipelineNode → List PipelineNode
  cursor_after remaining [] = remaining
  cursor_after remaining (b ∷ later) = later

  pub order_at : PipelineNode → List PipelineNode → List ReductionDefect
  order_at n [] = report true (node (key_of n)) not_in_base
  order_at n (b ∷ later) = report (not (b == n)) (node (key_of n)) differs_from_base

  pub order_defects : List PipelineNode → List PipelineNode → List ReductionDefect
  unfolding order_at cursor_after
  order_defects remaining [] = []
  order_defects remaining (n ∷ ns) =
      let found = suffix_at (key_of n) remaining in
      order_at n found ++ order_defects (cursor_after remaining found) ns

  abbrev kept : List TaskState
  kept = map key_of reduction.nodes

  abbrev pub dropped : List TaskState
  dropped = map key_of (filter (λ n. not (includes (key_of n) kept)) base.nodes)

  abbrev resumed_targets : StageNode → List TaskState
  resumed_targets n = elim n.resumes [ none ↦ [] | some r ↦ r ∷ [] ]

  pub strand_defects : PipelineNode → List ReductionDefect
  strand_defects (stage n) =
      flat_map (λ t. report (includes t dropped) (loop_edge n.key t) target_dropped)
        (loop_targets n)
      ++ flat_map (λ t. report (includes t dropped) (node n.key) (resumes_dropped t))
          (resumed_targets n)
  strand_defects (gate n) =
      report (includes n.approve dropped) (gate_of n.key) (approve_dropped n.approve)
      ++ (flat_map (λ t. report (includes t dropped) (gate_of n.key) (redirect_dropped t))
            (redirect_targets n)
          ++ flat_map (λ t. report (includes t dropped) (gate_of n.key) (rework_dropped t))
              (rework_targets n))
  strand_defects (action n) = []

  -- `validateReduction`.
  unfoldable pub validate_reduction : List ReductionDefect
  unfolding order_defects strand_defects
  validate_reduction =
      report (not (reduction.terminal == base.terminal)) (terminal reduction.terminal)
        (differs_from_terminal base.terminal)
      ++ (order_defects base.nodes reduction.nodes ++ flat_map strand_defects reduction.nodes)

pub data ProfileDefect : Type 0 where
  structural : Defect → ProfileDefect
  reduced : ReductionDefect → ProfileDefect

-- A catalog by task type, and a catalog of profiles by task type.
abbrev pub Catalog : Type 0
Catalog = TaskType → PipelineDefinition

abbrev pub Profiles : Type 0
Profiles = TaskType → PipelineProfile → PipelineDefinition

-- `loadPipelineCatalog`, on the catalog's two task types.
unfoldable pub load_pipeline_catalog : Catalog → Result (List Defect) Catalog
load_pipeline_catalog catalog =
    let defects = validate_definition (catalog feature) ++ validate_definition (catalog bugfix) in
    if is_empty defects then ok catalog else err defects

abbrev is_full : PipelineProfile → Bool
is_full full = true
is_full compact = false

profile_defects : (PipelineProfile → PipelineDefinition) → PipelineProfile → List ProfileDefect
profile_defects profiles profile =
    let found = validate_definition (profiles profile) in
    map structural found
    ++ (if is_empty found
        then if is_full profile
          then []
          else map reduced (validate_reduction (profiles full) (profiles profile))
        else [])

-- `loadPipelineProfiles`, on the catalog's two task types.
unfoldable pub load_pipeline_profiles : Profiles → Result (List ProfileDefect) Profiles
unfolding profile_defects
load_pipeline_profiles catalog =
    let defects =
      (profile_defects (catalog feature) full ++ profile_defects (catalog feature) compact)
      ++ (profile_defects (catalog bugfix) full ++ profile_defects (catalog bugfix) compact) in
    if is_empty defects then ok catalog else err defects
