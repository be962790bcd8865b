-- ===== src/Findings.antt =====
-- Verdicts and findings of a review, the part of packages/core/src/result.ts that the pipeline reads.
use specmate.Prelude.{String, Eq, eq_of_discrete}

pub data ReviewVerdict : Type 0 where
  approve revise escalate : ReviewVerdict

unfoldable pub ReviewVerdict-discrete : Discrete ReviewVerdict
ReviewVerdict-discrete = hlevel

instance abbrev pub review_verdict_eq : Eq ReviewVerdict
review_verdict_eq = eq_of_discrete ReviewVerdict-discrete

pub data Severity : Type 0 where
  blocking major minor nit : Severity

pub record ReviewFinding : Type 0 where
  pub id : String
  pub severity : Severity
  pub title : String
  pub detail_md : String
