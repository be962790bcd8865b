-- ===== src/Iterations/History.antt =====
-- A task's rounds over its whole life: stages end, rounds are recorded, and reworks start anew.
use specmate.Prelude.{
  ℕ, ◌+◌, ◌<◌, false, List, [], ◌∷◌, ◌++◌, Option, none, some, ◌≡◌, refl, ◌∙◌, arith, ok, Memᴰ,
  if◌then◌else◌, ◌==◌, nat_eq, any, discrete_beq_iff,
}
use specmate.Lifecycle.{TaskState, Caps}
use specmate.Findings.{review_verdict_eq}
use specmate.Pipeline.Nodes.{LoopKind, loop_kind_eq, LoopKind-discrete, PinnedGraph}
use specmate.Pipeline.Advance.{
  StageOutcomeSummary, RoundToRecord, AdvanceDecision, advance_to, loop_to, park, advance,
  last_round, loop_rounds,
}
use specmate.Pipeline.Advance.Records.{record_in, advance_record}
use specmate.Iterations.{IterationRow, rounds_for, new_row, same_slot, record_round}
use specmate.Iterations.Counting.{round-le-last}

-- The table after a decision, `if (decision.record) await recordRound(…)`.
abbrev pub record_decision : List IterationRow → AdvanceDecision → ℕ → List IterationRow
record_decision rows d now = elim (record_in d) [
  | none ↦ rows
  | some rec ↦ record_round rows rec now
]

-- How often a decision goes round the loop of this kind.
abbrev pub loops_in : LoopKind → AdvanceDecision → ℕ
loops_in kind (loop_to to rec) = if rec.loop == kind then 1 else 0
loops_in kind (advance_to to rec) = 0
loops_in kind (park cause resume rec) = 0

-- A history: the table, the time of the last rework, the time of the last event, and how often the
-- loop was taken since the last rework. A stage is any key of any graph, with any outcome; each
-- event comes at a later time than the one before.
pub data History (caps : Caps) (kind : LoopKind)
    : List IterationRow → Option ℕ → ℕ → ℕ → Type 0 where
  start : {now : ℕ} → History caps kind [] none now 0
  stage_ends :
      {rows : List IterationRow} {reworked : Option ℕ} {now n : ℕ}
      → History caps kind rows reworked now n
      → (later : ℕ) → now < later
      → (graph : PinnedGraph) (key : TaskState) (outcome : StageOutcomeSummary)
        (d : AdvanceDecision)
      → advance graph key outcome (rounds_for rows reworked) caps ≡ ok d
      → History caps kind (record_decision rows d later) reworked later (n + loops_in kind d)
  rework :
      {rows : List IterationRow} {reworked : Option ℕ} {now n : ℕ}
      → History caps kind rows reworked now n
      → (later : ℕ) → now < later
      → History caps kind rows (some later) later 0

no_slot :
    (rec : RoundToRecord) (rows : List IterationRow)
    → ((r : IterationRow) → Memᴰ r rows → r.loop ≡ rec.loop → r.round < rec.round)
    → any (same_slot rec) rows ≡ false
no_slot rec [] below = refl
no_slot rec (x ∷ rows) below = ground (
  arith,
  below x (Memᴰ.head refl),
  no_slot rec rows (λ r m. below r (Memᴰ.tail m)),
  discrete_beq_iff LoopKind-discrete x.loop rec.loop,
)

-- `advance` numbers a round past every row of its loop, so the unique index turns nothing away.
pub record_round_new :
    (graph : PinnedGraph) (key : TaskState) (outcome : StageOutcomeSummary) (caps : Caps)
    (rows : List IterationRow) (reworked : Option ℕ) (d : AdvanceDecision) (rec : RoundToRecord)
    (now : ℕ)
    → advance graph key outcome (rounds_for rows reworked) caps ≡ ok d
    → record_in d ≡ some rec
    → record_round rows rec now ≡ rows ++ new_row rec now ∷ []
unfolding record_round
record_round_new graph key outcome caps rows reworked d rec now h r =
    let (n, edge, v, at, le, e, same) =
      advance_record graph key outcome (rounds_for rows reworked) caps d rec h r in
    let kind_eq : rec.loop ≡ edge.loop = cc (same) in
    let number : rec.round ≡ last_round (loop_rounds edge.loop (rounds_for rows reworked)) + 1 =
      cc (same) in
    let free =
      no_slot rec rows
        (λ x m k. omega (arith, round-le-last edge.loop reworked rows x m (k ∙ kind_eq))) in
    rw free
