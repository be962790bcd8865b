-- ===== src/Pipeline/Advance.antt =====
-- One step of a task over its pinned graph: `advance`, `repeatedRoundStreak` and `stalledFindings`
-- of packages/core/src/pipeline.ts.
pub mod Stalled
pub mod Branches
pub mod Records
pub mod Moves
use specmate.Prelude.{
  ℕ, suc, ◌+◌, max, Bool, true, false, not, ◌&&◌, List, [], ◌∷◌, ◌++◌, map, Option, none, some,
  String, ◌==◌, nat_eq, string_eq, if◌then◌else◌, leb, ltb, is_some, any, filter, length, Result,
  ok, err, ◌>>=◌,
}
use specmate.Lifecycle.{TaskState, Caps}
use specmate.Findings.{ReviewVerdict, approve, revise, escalate, ReviewFinding, review_verdict_eq}
use specmate.Pipeline.Nodes.{
  LoopKind, loop_kind_eq, loop_cap, cap_of, LoopEdge, PipelineNode, StageNode, stage, PinnedGraph,
}
use specmate.Pipeline.Walk.{WalkError, node_at, forward_target}

pub data StageStatus : Type 0 where
  ok_status needs_decision_status : StageStatus

-- An optional list that is absent is `none`.
pub record StageOutcomeSummary : Type 0 where
  pub status : StageStatus
  pub verdict : Option ReviewVerdict
  pub findings : Option (List ReviewFinding)
  pub has_blocking_decision : Option Bool

pub record RecordedRound : Type 0 where
  pub loop : LoopKind
  pub round : ℕ
  pub verdict : ReviewVerdict
  pub findings : Option (List ReviewFinding)
  pub counted : Option Bool

pub record RoundToRecord : Type 0 where
  pub loop : LoopKind
  pub round : ℕ
  pub verdict : ReviewVerdict
  pub findings : List ReviewFinding

pub data ParkCause : Type 0 where
  escalate_cause repeated_finding cap_exhausted needs_decision : ParkCause

pub data AdvanceDecision : Type 0 where
  advance_to : TaskState → Option RoundToRecord → AdvanceDecision
  loop_to : TaskState → RoundToRecord → AdvanceDecision
  park : ParkCause → TaskState → Option RoundToRecord → AdvanceDecision

pub data AdvanceError : Type 0 where
  not_a_stage : TaskState → String → AdvanceError
  no_verdict : TaskState → String → AdvanceError
  no_forward : WalkError → AdvanceError

abbrev pub or_empty {ℓ} : {A : Type ℓ} → Option (List A) → List A
or_empty none = []
or_empty (some xs) = xs

abbrev pub is_set : Option Bool → Bool
is_set none = false
is_set (some b) = b

-- `counted !== false`.
abbrev pub is_counted : RecordedRound → Bool
is_counted r = elim r.counted [ none ↦ true | some b ↦ b ]

abbrev pub in_loop : LoopKind → RecordedRound → Bool
in_loop kind r = r.loop == kind

abbrev pub is_revise : RecordedRound → Bool
is_revise r = r.verdict == revise

abbrev pub has_id : String → ReviewFinding → Bool
has_id id finding = finding.id == id

abbrev pub carries : String → RecordedRound → Bool
carries id r = any (has_id id) (or_empty r.findings)

-- `Math.max(0, ...rounds.map((round) => round.round))`.
abbrev pub last_round : List RecordedRound → ℕ
last_round [] = 0
last_round (r ∷ rs) = max r.round (last_round rs)

-- The loops of `repeatedRoundStreak` and `stalledFindings` walk the rounds from the last to the
-- first; `streak_from` takes them in that order.
streak_from : String → ℕ → List RecordedRound → ℕ
streak_from id streak [] = streak
streak_from id streak (r ∷ rs) =
    let longer = streak_from id (streak + 1) rs in if carries id r then longer else streak

abbrev pub reversed {ℓ} : {A : Type ℓ} → List A → List A
reversed [] = []
reversed (x ∷ xs) = reversed xs ++ x ∷ []

-- `repeatedRoundStreak`.
unfoldable pub repeated_round_streak : String → List RecordedRound → ℕ
unfolding streak_from
repeated_round_streak id trailing = streak_from id 1 (reversed trailing)

pub record StalledFinding : Type 0 where
  pub id : String
  pub rounds : List ℕ

-- The inner loop of `stalledFindings`: the numbers pushed after the first.
pub rounds_from : String → List RecordedRound → List ℕ
rounds_from id [] = []
rounds_from id (r ∷ rs) =
    let more = rounds_from id rs in if carries id r then r.round ∷ more else []

stalled_from : ℕ → List RecordedRound → ℕ → List ReviewFinding → List StalledFinding
unfolding rounds_from
stalled_from round counted threshold [] = []
stalled_from round counted threshold (f ∷ fs) =
    let rounds = round ∷ rounds_from f.id (reversed counted) in
    let rest = stalled_from round counted threshold fs in
    if leb threshold (length rounds) then record { id = f.id; rounds = rounds } ∷ rest else rest

-- `stalledFindings`.
unfoldable pub stalled_findings : RoundToRecord → List RecordedRound → ℕ → List StalledFinding
unfolding stalled_from
stalled_findings rec counted threshold = stalled_from rec.round counted threshold rec.findings

-- `countedRounds` of `advance`, for the loop of an edge.
abbrev pub loop_rounds : LoopKind → List RecordedRound → List RecordedRound
loop_rounds kind rounds = filter (in_loop kind) rounds

abbrev pub counted_rounds : LoopKind → List RecordedRound → List RecordedRound
counted_rounds kind rounds = filter is_counted (loop_rounds kind rounds)

-- `stalled` of `advance`.
unfoldable pub is_stalled : List ReviewFinding → List RecordedRound → ℕ → Bool
unfolding repeated_round_streak
is_stalled findings counted threshold =
    any (λ (f : ReviewFinding). leb threshold (repeated_round_streak f.id counted)) findings

-- `used` of `advance`.
abbrev pub used_rounds : LoopKind → List RecordedRound → ℕ
used_rounds kind rounds = length (filter is_revise (counted_rounds kind rounds))

abbrev pub record_of :
    LoopEdge → ReviewVerdict → List ReviewFinding → List RecordedRound → RoundToRecord
record_of edge verdict findings rounds = record {
  loop = edge.loop;
  round = last_round (loop_rounds edge.loop rounds) + 1;
  verdict = verdict;
  findings = findings;
}

module _ (graph : PinnedGraph) (key : TaskState) where
  abbrev pub forward : Option RoundToRecord → Result AdvanceError AdvanceDecision
  forward rec = elim (forward_target graph key) [
    | ok next ↦ ok (advance_to next rec)
    | err e ↦ err (no_forward e)
  ]

  -- The answer to a verdict on a loop edge, with no blocking decision in the way.
  unfoldable pub answer_verdict :
      LoopEdge
      → ReviewVerdict
      → List ReviewFinding
      → List RecordedRound
      → Caps
      → Result AdvanceError AdvanceDecision
  unfolding is_stalled
  answer_verdict edge approve findings rounds caps =
      forward (some (record_of edge approve findings rounds))
  answer_verdict edge escalate findings rounds caps =
      ok (park escalate_cause key (some (record_of edge escalate findings rounds)))
  answer_verdict edge revise findings rounds caps =
      let rec = record_of edge revise findings rounds in
      if is_stalled findings (counted_rounds edge.loop rounds) caps.repeated_finding_threshold
      then ok (park repeated_finding key (some rec))
      else if ltb (used_rounds edge.loop rounds) (cap_of caps (loop_cap edge.loop))
      then ok (loop_to edge.target rec)
      else ok (park cap_exhausted key (some rec))

  unfoldable pub advance_edge :
      LoopEdge
      → Option ReviewVerdict
      → Bool
      → List ReviewFinding
      → List RecordedRound
      → Caps
      → Result AdvanceError AdvanceDecision
  unfolding answer_verdict
  advance_edge edge none true findings rounds caps = ok (park needs_decision key none)
  advance_edge edge none false findings rounds caps = err (no_verdict key graph.pipeline)
  advance_edge edge (some v) true findings rounds caps =
      ok (park needs_decision key (some (record_of edge v findings rounds)))
  advance_edge edge (some v) false findings rounds caps = answer_verdict edge v findings rounds caps

  unfoldable pub advance_stage :
      StageNode
      → StageOutcomeSummary
      → List RecordedRound
      → Caps
      → Result AdvanceError AdvanceDecision
  unfolding advance_edge
  advance_stage node outcome rounds caps =
      let blocked_on = is_set outcome.has_blocking_decision in
      elim node.loop_edge [
        | none ↦ if blocked_on then ok (park needs_decision key none) else forward none
        | some edge ↦
            advance_edge edge outcome.verdict blocked_on (or_empty outcome.findings) rounds caps
      ]

  abbrev pub dispatch :
      Option PipelineNode
      → StageOutcomeSummary
      → List RecordedRound
      → Caps
      → Result AdvanceError AdvanceDecision
  dispatch (some (stage node)) outcome rounds caps = advance_stage node outcome rounds caps
  dispatch _ outcome rounds caps = err (not_a_stage key graph.pipeline)

  -- `advance`.
  unfoldable pub advance :
      StageOutcomeSummary → List RecordedRound → Caps → Result AdvanceError AdvanceDecision
  unfolding advance_stage
  advance outcome rounds caps = dispatch (node_at graph key) outcome rounds caps
