-- ===== src/Iterations/Counting.antt =====
-- What the order of the rows leaves alone: how many rounds count, and the last round's number.
use mathlib.Core.List.Memᴰ
use specmate.Prelude.{
  ℕ, suc, ◌+◌, ◌≤◌, max, ◌&&◌, List, [], ◌∷◌, ◌++◌, map, Option, ◌≡◌, refl, arith, Memᴰ, Bool-cases,
  inl, inr, if◌then◌else◌, ◌==◌, nat_eq, discrete_beq_iff,
}
use specmate.Findings.{revise, review_verdict_eq}
use specmate.Pipeline.Nodes.{LoopKind, loop_kind_eq, LoopKind-discrete}
use specmate.Pipeline.Advance.{RecordedRound, used_rounds, last_round, loop_rounds}
use specmate.Iterations.{
  IterationRow, row_le, insert_row, order_rows, to_round, rounds_for, counted_since,
}

-- The rows of a loop that count and asked for a revision.
abbrev pub spent : LoopKind → Option ℕ → List IterationRow → ℕ
spent kind after [] = 0
spent kind after (r ∷ rows) =
    let rest = spent kind after rows in
    if r.loop == kind && (counted_since after r.created_at && r.reviewer_verdict == revise)
    then suc rest
    else rest

used_cons :
    (kind : LoopKind) (r : RecordedRound) (rounds : List RecordedRound)
    → used_rounds kind (r ∷ rounds) ≡ used_rounds kind (r ∷ []) + used_rounds kind rounds
used_cons kind r rounds = ground arith

spent_cons :
    (kind : LoopKind) (after : Option ℕ) (r : IterationRow) (rows : List IterationRow)
    → spent kind after (r ∷ rows) ≡ spent kind after (r ∷ []) + spent kind after rows
spent_cons kind after r rows = ground arith

pub spent_append :
    (kind : LoopKind) (after : Option ℕ) (rows : List IterationRow) (r : IterationRow)
    → spent kind after (rows ++ r ∷ []) ≡ spent kind after rows + spent kind after (r ∷ [])
spent_append kind after [] r = omega arith
spent_append kind after (x ∷ rows) r = omega (
  arith,
  spent_append kind after rows r,
  spent_cons kind after x (rows ++ r ∷ []),
  spent_cons kind after x rows,
)

used_insert :
    (kind : LoopKind) (after : Option ℕ) (r : IterationRow) (rows : List IterationRow)
    → used_rounds kind (map (to_round after) (insert_row r rows))
      ≡ used_rounds kind (to_round after r ∷ []) + used_rounds kind (map (to_round after) rows)
unfolding insert_row
used_insert kind after r [] = omega arith
used_insert kind after r (x ∷ rows) =
    let rounds = map (to_round after) rows in
    elim (Bool-cases (row_le r x)) [
      | inl e ↦ rw e (used_cons kind (to_round after r) (to_round after x ∷ rounds))
      | inr e ↦ rw e (
          omega (
            arith,
            used_insert kind after r rows,
            used_cons kind (to_round after x) (map (to_round after) (insert_row r rows)),
            used_cons kind (to_round after x) rounds,
          ))
    ]

used_one :
    (kind : LoopKind) (after : Option ℕ) (r : IterationRow)
    → used_rounds kind (to_round after r ∷ []) ≡ spent kind after (r ∷ [])
used_one kind after r = ground arith

-- The rounds that `advance` counts are the rows of the loop that count, in whatever order.
pub used_rounds-rounds_for :
    (kind : LoopKind) (after : Option ℕ) (rows : List IterationRow)
    → used_rounds kind (rounds_for rows after) ≡ spent kind after rows
unfolding rounds_for
used_rounds-rounds_for kind after [] = refl
used_rounds-rounds_for kind after (r ∷ rows) = omega (
  arith,
  used_insert kind after r (order_rows rows),
  used_rounds-rounds_for kind after rows,
  used_one kind after r,
  spent_cons kind after r rows,
)

top : LoopKind → List RecordedRound → ℕ
top kind rounds = last_round (loop_rounds kind rounds)

top_cons :
    (kind : LoopKind) (r : RecordedRound) (rounds : List RecordedRound)
    → top kind (r ∷ rounds) ≡ max (top kind (r ∷ [])) (top kind rounds)
unfolding top
top_cons kind r rounds = ground arith

top_insert :
    (kind : LoopKind) (after : Option ℕ) (r : IterationRow) (rows : List IterationRow)
    → top kind (map (to_round after) (insert_row r rows))
      ≡ max (top kind (to_round after r ∷ [])) (top kind (map (to_round after) rows))
unfolding insert_row
top_insert kind after r [] = top_cons kind (to_round after r) []
top_insert kind after r (x ∷ rows) =
    let rounds = map (to_round after) rows in
    elim (Bool-cases (row_le r x)) [
      | inl e ↦ rw e (top_cons kind (to_round after r) (to_round after x ∷ rounds))
      | inr e ↦ rw e (
          omega (
            arith,
            top_insert kind after r rows,
            top_cons kind (to_round after x) (map (to_round after) (insert_row r rows)),
            top_cons kind (to_round after x) rounds,
          ))
    ]

top_one :
    (kind : LoopKind) (after : Option ℕ) (r : IterationRow)
    → r.loop ≡ kind
    → top kind (to_round after r ∷ []) ≡ r.round
unfolding top
top_one kind after r e = ground (arith, discrete_beq_iff LoopKind-discrete r.loop kind)

-- The last round of a loop is at or above the number of each of its rows.
pub round-le-last :
    (kind : LoopKind) (after : Option ℕ) (rows : List IterationRow) (r : IterationRow)
    → Memᴰ r rows
    → r.loop ≡ kind
    → r.round ≤ last_round (loop_rounds kind (rounds_for rows after))
unfolding rounds_for top
round-le-last kind after [] r m e = absurd (Memᴰ.not-nil m)
round-le-last kind after (x ∷ rows) r (Memᴰ.head same) e =
    let same_loop : x.loop ≡ kind = cc (same, e) in
    let same_round : r.round ≡ x.round = cc (same) in
    omega (arith, top_insert kind after x (order_rows rows), top_one kind after x same_loop)
round-le-last kind after (x ∷ rows) r (Memᴰ.tail m) e =
    omega (arith, top_insert kind after x (order_rows rows), round-le-last kind after rows r m e)
