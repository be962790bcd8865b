-- ===== src/Examples/Inputs.antt =====
-- The graph of the shipped definition, packages/core/src/pipeline.ts, and a revision asked of it.
use specmate.Prelude.{true, [], ◌∷◌, some, none, ◌≡◌, refl, string_eq, discrete_beq}
use specmate.Lifecycle.{task_state_eq, same_state, is_terminal, archived, planning}
use specmate.Findings.{revise, blocking, ReviewFinding}
use specmate.Roles.{AgentRole-discrete}
use specmate.Pipeline.Nodes.{PinnedGraph, LoopKind, LoopKind-discrete}
use specmate.Pipeline.Conditions.{condition_defects, node_predicate, fact_kind}
use specmate.Pipeline.Walk.Lookup.{keys_of, Distinct}
use specmate.Pipeline.Advance.{StageOutcomeSummary, RecordedRound, RoundToRecord, ok_status}
use specmate.Pipeline.Validate.{validate_definition}
use specmate.Pipeline.Reach.{reaches_terminal}
use specmate.Pipeline.Validate.Sound.{validate_definition-IsWellFormed}
use specmate.Pipeline.Catalog.{feature_bugfix_pipeline}

abbrev pub shipped_graph : PinnedGraph
shipped_graph = record {
  pipeline = "feature-bugfix";
  entry = planning;
  terminal = archived;
  nodes = feature_bugfix_pipeline.nodes;
}

-- The shipped definitions pass the check that runs when the module is loaded.
pub shipped_valid : validate_definition feature_bugfix_pipeline ≡ []
unfolding validate_definition is_terminal same_state reaches_terminal condition_defects
    node_predicate fact_kind AgentRole-discrete LoopKind-discrete discrete_beq
shipped_valid = refl

pub shipped-Distinct : Distinct (keys_of shipped_graph.nodes)
shipped-Distinct = (validate_definition-IsWellFormed feature_bugfix_pipeline shipped_valid).distinct

abbrev pub same_title : ReviewFinding
same_title = record { id = "R-1"; severity = blocking; title = "No rollback"; detail_md = "" }

-- A review that asks for a revision over one finding.
abbrev pub revising : StageOutcomeSummary
revising = record {
  status = ok_status;
  verdict = some revise;
  findings = some (same_title ∷ []);
  has_blocking_decision = none;
}

-- The first round of the specification's loop, with the same finding.
abbrev pub first_round : RecordedRound
first_round = record {
  loop = LoopKind.spec;
  round = 1;
  verdict = revise;
  findings = some (same_title ∷ []);
  counted = some true;
}

abbrev pub second_record : RoundToRecord
second_record = record {
  loop = LoopKind.spec;
  round = 2;
  verdict = revise;
  findings = same_title ∷ [];
}

abbrev pub first_record : RoundToRecord
first_record = record {
  loop = LoopKind.spec;
  round = 1;
  verdict = revise;
  findings = same_title ∷ [];
}
