-- ===== src/Iterations.antt =====
-- The iterations table of a task: `roundsFor` and `recordRound` of apps/orchestrator/src/store.ts.
-- A table holds the rows of one task, in the order of insertion; times are numbers.
pub mod Counting
pub mod History
pub mod Bounded
use specmate.Prelude.{
  ℕ, Bool, true, false, ◌&&◌, ◌||◌, List, [], ◌∷◌, ◌++◌, map, Option, none, some, ltb, leb,
  if◌then◌else◌, any, ◌==◌, nat_eq,
}
use specmate.Findings.{ReviewVerdict, ReviewFinding}
use specmate.Pipeline.Nodes.{LoopKind, spec, impl, loop_kind_eq}
use specmate.Pipeline.Advance.{RecordedRound, RoundToRecord}

-- A row of `iterations`, less its id and its task.
pub record IterationRow : Type 0 where
  pub loop : LoopKind
  pub round : ℕ
  pub reviewer_verdict : ReviewVerdict
  pub findings : List ReviewFinding
  pub created_at : ℕ

-- The order of the enum `loop_kind`, then of the round.
loop_rank : LoopKind → ℕ
loop_rank spec = 0
loop_rank impl = 1

abbrev row_le : IterationRow → IterationRow → Bool
row_le a b = ltb (loop_rank a.loop) (loop_rank b.loop) || (a.loop == b.loop && leb a.round b.round)

insert_row : IterationRow → List IterationRow → List IterationRow
insert_row r [] = r ∷ []
insert_row r (x ∷ rows) =
    let rest = insert_row r rows in if row_le r x then r ∷ x ∷ rows else x ∷ rest

-- `orderBy(asc(iterations.loop), asc(iterations.round))`.
order_rows : List IterationRow → List IterationRow
unfolding insert_row loop_rank
order_rows [] = []
order_rows (r ∷ rows) = insert_row r (order_rows rows)

abbrev pub counted_since : Option ℕ → ℕ → Bool
counted_since none created = true
counted_since (some after) created = ltb after created

abbrev pub to_round : Option ℕ → IterationRow → RecordedRound
to_round counted_after row = record {
  loop = row.loop;
  round = row.round;
  verdict = row.reviewer_verdict;
  findings = some row.findings;
  counted = some (counted_since counted_after row.created_at);
}

-- `roundsFor`.
unfoldable pub rounds_for : List IterationRow → Option ℕ → List RecordedRound
unfolding order_rows
rounds_for rows counted_after = map (to_round counted_after) (order_rows rows)

abbrev pub new_row : RoundToRecord → ℕ → IterationRow
new_row rec now = record {
  loop = rec.loop;
  round = rec.round;
  reviewer_verdict = rec.verdict;
  findings = rec.findings;
  created_at = now;
}

abbrev pub same_slot : RoundToRecord → IterationRow → Bool
same_slot rec row = row.loop == rec.loop && row.round == rec.round

-- `recordRound`: an insert that a row of the unique index (task, loop, round) turns into nothing.
unfoldable pub record_round : List IterationRow → RoundToRecord → ℕ → List IterationRow
record_round rows rec now = if any (same_slot rec) rows then rows else rows ++ new_row rec now ∷ []
