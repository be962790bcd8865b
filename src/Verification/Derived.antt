-- ===== src/Verification/Derived.antt =====
-- The findings that are derived from a matrix: packages/core/src/verification.ts.
use specmate.Prelude.{
  ◌≡◌, refl, sym, ◌∙◌, true, not, ◌||◌, List, [], ◌∷◌, map, String, ◌==◌, string_eq, discrete_beq,
  filter, filter-Memᴰ, any, is_empty, includes, arith, Memᴰ, Memᴰ-append, beq_refl,
}
use specmate.Findings.{approve, review_verdict_eq, ReviewFinding}
use specmate.Verification.{
  MatrixRow, MatrixOutcome, MatrixOutcome-discrete, pass, fail, uncovered, matrix_outcome_eq,
  corroborate, rows_of, is_violation, is_failing, is_uncovered, derive_findings, derived_findings,
}
use specmate.Verification.Laws.{filter-is_empty}

outcome_split : (o : MatrixOutcome) → not (o == pass) ≡ (o == fail) || (o == uncovered)
unfolding MatrixOutcome-discrete discrete_beq
outcome_split pass = refl
outcome_split _ = refl

outcomes_split :
    (rows : List MatrixRow)
    → any (λ (r : MatrixRow). not (r.outcome == pass)) rows
      ≡ is_failing rows || any (λ (r : MatrixRow). r.outcome == uncovered) rows
outcomes_split [] = refl
outcomes_split (r ∷ rows) = ground (arith, outcome_split r.outcome, outcomes_split rows)

-- A scenario that keeps an approval from being accepted is one that a finding is derived for.
is_violation-split :
    (matrix : List MatrixRow) (s : String)
    → is_violation matrix s ≡ is_failing (rows_of matrix s) || is_uncovered (rows_of matrix s)
is_violation-split matrix s = ground (arith, outcomes_split (rows_of matrix s))

module _ (finding_id : String → String) (matrix : List MatrixRow) where
  derived_findings-is_empty :
      (inventory : List String)
      → is_empty (derived_findings finding_id inventory matrix)
        ≡ not (any (is_violation matrix) inventory)
  unfolding derived_findings
  derived_findings-is_empty [] = refl
  derived_findings-is_empty (s ∷ inventory) =
      ground (arith, derived_findings-is_empty inventory, is_violation-split matrix s)

  -- An approval is accepted exactly where no finding is derived from the matrix it came with.
  pub corroborate-derived_findings :
      (inventory : List String)
      → (corroborate inventory matrix approve).ok
        ≡ is_empty (derived_findings finding_id inventory matrix)
  unfolding corroborate
  corroborate-derived_findings inventory =
      rw (beq_refl approve) (
        filter-is_empty (is_violation matrix) inventory ∙ sym (derived_findings-is_empty inventory))

  -- In the merged findings, whatever has the identifier of a derived finding is a derived one.
  pub derive_findings-derived_wins :
      (inventory : List String) (agent_findings : List ReviewFinding) (f : ReviewFinding)
      → Memᴰ f (derive_findings finding_id inventory matrix agent_findings)
      → includes f.id
          (map (λ (g : ReviewFinding). g.id) (derived_findings finding_id inventory matrix))
        ≡ true
      → Memᴰ f (derived_findings finding_id inventory matrix)
  unfolding derive_findings
  derive_findings-derived_wins inventory agent_findings f m clash =
      let derived = derived_findings finding_id inventory matrix in
      let ids = map (λ (g : ReviewFinding). g.id) derived in
      let own = filter (λ (g : ReviewFinding). not (includes g.id ids)) agent_findings in
      ground (
        arith,
        Memᴰ-append f derived own,
        filter-Memᴰ (λ (g : ReviewFinding). not (includes g.id ids)) f agent_findings,
      )
