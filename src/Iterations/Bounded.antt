-- ===== src/Iterations/Bounded.antt =====
-- However a task's stages end, each of its loops is bounded by its cap.
use native.Mathlib.Nat.{add-zero}
use specmate.Prelude.{
  ℕ, suc, ◌+◌, ◌≤◌, ◌<◌, true, List, [], ◌∷◌, Option, none, some, ◌≡◌, inl, inr, refl, subst, arith,
  ok, nat_eq, discrete_beq_iff, beq_cases,
}
use specmate.Lifecycle.{TaskState, Caps}
use specmate.Findings.{revise, review_verdict_eq, ReviewVerdict-discrete}
use specmate.Pipeline.Nodes.{
  LoopKind, loop_kind_eq, LoopKind-discrete, loop_cap, cap_of, PinnedGraph,
}
use specmate.Pipeline.Advance.{
  StageOutcomeSummary, RoundToRecord, AdvanceDecision, advance_to, loop_to, park, advance,
  used_rounds,
}
use specmate.Pipeline.Advance.Branches.{advance-loop_to_iff}
use specmate.Iterations.{IterationRow, rounds_for, counted_since, new_row, record_round}
use specmate.Iterations.Counting.{spent, spent_append, used_rounds-rounds_for}
use specmate.Iterations.History.{
  History, start, stage_ends, rework, record_decision, loops_in, record_round_new,
}

spent-record_round :
    (kind : LoopKind) (after : Option ℕ) (rows : List IterationRow) (rec : RoundToRecord) (now : ℕ)
    → spent kind after rows ≤ spent kind after (record_round rows rec now)
unfolding record_round
spent-record_round kind after rows rec now =
    ground (arith, spent_append kind after rows (new_row rec now))

spent-record_decision :
    (kind : LoopKind) (after : Option ℕ) (rows : List IterationRow) (d : AdvanceDecision) (now : ℕ)
    → spent kind after rows ≤ spent kind after (record_decision rows d now)
spent-record_decision kind after rows (loop_to to rec) now =
    spent-record_round kind after rows rec now
spent-record_decision kind after rows (advance_to to none) now = omega arith
spent-record_decision kind after rows (advance_to to (some rec)) now =
    spent-record_round kind after rows rec now
spent-record_decision kind after rows (park cause resume none) now = omega arith
spent-record_decision kind after rows (park cause resume (some rec)) now =
    spent-record_round kind after rows rec now

pub record IsBounded (caps : Caps) (kind : LoopKind) (rows : List IterationRow)
    (reworked : Option ℕ) (now n : ℕ) : Type 0 where
  pub past : (t : ℕ) → now < t → counted_since reworked t ≡ true
  pub spends : n ≤ spent kind reworked rows
  pub capped : n ≤ cap_of caps (loop_cap kind)

spent_revise :
    (kind : LoopKind) (after : Option ℕ) (rec : RoundToRecord) (now : ℕ)
    → rec.loop ≡ kind
    → rec.verdict ≡ revise
    → counted_since after now ≡ true
    → spent kind after (new_row rec now ∷ []) ≡ 1
spent_revise kind after rec now l v c = ground (
  arith,
  discrete_beq_iff LoopKind-discrete rec.loop kind,
  discrete_beq_iff ReviewVerdict-discrete rec.verdict revise,
)

module _ (caps : Caps) (kind : LoopKind) where
  turn-IsBounded :
      (rows : List IterationRow) (reworked : Option ℕ) (now later n : ℕ) (graph : PinnedGraph)
      (key : TaskState) (outcome : StageOutcomeSummary) (to : TaskState) (rec : RoundToRecord)
      → IsBounded caps kind rows reworked now n
      → now < later
      → advance graph key outcome (rounds_for rows reworked) caps ≡ ok (loop_to to rec)
      → rec.loop ≡ kind
      → (suc n ≤ spent kind reworked (record_round rows rec later))
        × (suc n ≤ cap_of caps (loop_cap kind))
  turn-IsBounded rows reworked now later n graph key outcome to rec b lt h k =
      let (node, edge, at, le, l, t, r) =
        (advance-loop_to_iff graph key outcome (rounds_for rows reworked) caps to rec).0 h in
      let kind_eq : edge.loop ≡ kind = cc (r, k) in
      let verdict : rec.verdict ≡ revise = cc (r) in
      let room : used_rounds kind (rounds_for rows reworked) < cap_of caps (loop_cap kind) =
        subst (λ j. used_rounds j (rounds_for rows reworked) < cap_of caps (loop_cap j)) kind_eq
          l.room in
      let inserted =
        record_round_new graph key outcome caps rows reworked (loop_to to rec) rec later h refl in
      (
        rw inserted (
            omega (
              arith,
              spent_append kind reworked rows (new_row rec later),
              spent_revise kind reworked rec later k verdict (b.past later lt),
              b.spends,
            )),
        omega (arith, used_rounds-rounds_for kind reworked rows, b.spends),
      )

  stay-IsBounded :
      (rows : List IterationRow) (reworked : Option ℕ) (now later n : ℕ) (d : AdvanceDecision)
      → IsBounded caps kind rows reworked now n
      → now < later
      → IsBounded caps kind (record_decision rows d later) reworked later n
  stay-IsBounded rows reworked now later n d b lt = record {
    past = λ t h. b.past t (omega arith);
    spends = omega (arith, spent-record_decision kind reworked rows d later, b.spends);
    capped = b.capped;
  }

  end-IsBounded :
      (rows : List IterationRow) (reworked : Option ℕ) (now later n : ℕ) (graph : PinnedGraph)
      (key : TaskState) (outcome : StageOutcomeSummary) (d : AdvanceDecision)
      → IsBounded caps kind rows reworked now n
      → now < later
      → advance graph key outcome (rounds_for rows reworked) caps ≡ ok d
      → IsBounded caps kind (record_decision rows d later) reworked later (n + loops_in kind d)
  end-IsBounded rows reworked now later n graph key outcome (advance_to to rec) b lt h =
      rw add-zero (stay-IsBounded rows reworked now later n (advance_to to rec) b lt)
  end-IsBounded rows reworked now later n graph key outcome (park cause resume rec) b lt h =
      rw add-zero (stay-IsBounded rows reworked now later n (park cause resume rec) b lt)
  end-IsBounded rows reworked now later n graph key outcome (loop_to to rec) b lt h =
      elim (beq_cases rec.loop kind) [
        | inl (t, k) ↦
            let (spends, capped) =
              turn-IsBounded rows reworked now later n graph key outcome to rec b lt h k in
            rw t (record {
              past = λ x later_still. b.past x (omega arith);
              spends = omega (arith, spends);
              capped = omega (arith, capped);
            })
        | inr (f, _) ↦
            rw (f, add-zero) (stay-IsBounded rows reworked now later n (loop_to to rec) b lt)
      ]

  pub History-IsBounded :
      {rows : List IterationRow} {reworked : Option ℕ} {now n : ℕ}
      → History caps kind rows reworked now n
      → IsBounded caps kind rows reworked now n
  History-IsBounded start = record {
    past = λ t h. refl;
    spends = omega arith;
    capped = omega arith;
  }
  History-IsBounded (rework p later lt) = record {
    past = λ t h. ground arith;
    spends = omega arith;
    capped = omega arith;
  }
  History-IsBounded (stage_ends {rows} {reworked} {now} {n} p later lt graph key outcome d h) =
      end-IsBounded rows reworked now later n graph key outcome d (History-IsBounded p) lt h

-- However its stages end, between two reworks a task goes round a loop at most as often as the
-- loop's cap says.
pub History-bounded :
    {caps : Caps} {kind : LoopKind} {rows : List IterationRow} {reworked : Option ℕ} {now n : ℕ}
    → History caps kind rows reworked now n
    → n ≤ cap_of caps (loop_cap kind)
History-bounded {caps} {kind} p = (History-IsBounded caps kind p).capped
