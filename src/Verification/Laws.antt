-- ===== src/Verification/Laws.antt =====
-- What corroboration and the derived findings guarantee: packages/core/src/verification.ts.
use specmate.Prelude.{
  ◌≡◌, refl, ◌↔◌, inl, inr, Bool, true, false, not, ◌||◌, List, [], ◌∷◌, String, ◌==◌, string_eq,
  filter, filter-Memᴰ, any, is_empty, arith, Memᴰ, Memᴰ-cons, Bool-cases, beq_cases,
  discrete_beq_iff, List-cases,
}
use specmate.Findings.{ReviewVerdict, approve, review_verdict_eq}
use specmate.Verification.{
  MatrixRow, MatrixOutcome-discrete, pass, matrix_outcome_eq, corroborate, rows_of, is_violation,
}
use mathlib.Core.List.Memᴰ

-- Some row is there for the scenario, and all of them passed.
pub record IsCovered (matrix : List MatrixRow) (scenario : String) : Type 0 where
  pub some_row : (row : MatrixRow) × (Memᴰ row matrix × (row.scenario ≡ scenario))
  pub all_pass : (row : MatrixRow) → Memᴰ row matrix → row.scenario ≡ scenario → row.outcome ≡ pass

any-false {ℓ} :
    {A : Type ℓ}
    → (p : A → Bool) (xs : List A) → any p xs ≡ false
    → (x : A) → Memᴰ x xs
    → p x ≡ false
any-false p [] h y m = absurd (Memᴰ.not-nil m)
any-false p (x ∷ xs) h y m = elim (Bool-cases (p x)) [
  | inl t ↦ absurd (cc (rw t at h))
  | inr f ↦ elim ((Memᴰ-cons y x xs).0 m) [
    | inl e ↦ rw e f
    | inr later ↦ any-false p xs (rw f at h) y later
  ]
]

all-any-false {ℓ} :
    {A : Type ℓ}
    → (p : A → Bool) (xs : List A) → ((x : A) → Memᴰ x xs → p x ≡ false)
    → any p xs ≡ false
all-any-false p [] h = refl
all-any-false p (x ∷ xs) h =
    rw (h x (Memᴰ.head refl)) (all-any-false p xs (λ y m. h y (Memᴰ.tail m)))

pub filter-is_empty {ℓ} :
    {A : Type ℓ} → (p : A → Bool) (xs : List A) → is_empty (filter p xs) ≡ not (any p xs)
filter-is_empty p [] = refl
filter-is_empty p (x ∷ xs) = ground (arith, filter-is_empty p xs)

rows_of-Memᴰ :
    (matrix : List MatrixRow) (scenario : String) (row : MatrixRow)
    → Memᴰ row (rows_of matrix scenario) ↔ (Memᴰ row matrix × (row.scenario ≡ scenario))
rows_of-Memᴰ matrix scenario row = ground (
  arith,
  filter-Memᴰ (λ (r : MatrixRow). r.scenario == scenario) row matrix,
  string_eq.beq_iff row.scenario scenario,
)

or-false : (a b : Bool) → a || b ≡ false → (a ≡ false) × (b ≡ false)
or-false a b h = ground arith

is_empty-Memᴰ {ℓ} : {A : Type ℓ} → (x : A) (xs : List A) → Memᴰ x xs → is_empty xs ≡ false
is_empty-Memᴰ x [] m = absurd (Memᴰ.not-nil m)
is_empty-Memᴰ x (y ∷ xs) m = refl

is_violation-IsCovered :
    (matrix : List MatrixRow) (scenario : String)
    → is_violation matrix scenario ≡ false
    → IsCovered matrix scenario
is_violation-IsCovered matrix scenario h = elim (List-cases (rows_of matrix scenario)) [
  | inl none_there ↦ absurd (cc (rw (none_there, is_violation) at h))
  | inr (row, rest, there) ↦
      let quiet =
        any-false (λ (r : MatrixRow). not (r.outcome == pass)) (rows_of matrix scenario)
          (or-false _ _ h).1 in
      record {
        some_row = (row, (rows_of-Memᴰ matrix scenario row).0 (rw there (Memᴰ.head refl)));
        all_pass = λ r m e. ground (
          arith,
          quiet r ((rows_of-Memᴰ matrix scenario r).1 (m, e)),
          discrete_beq_iff MatrixOutcome-discrete r.outcome pass,
        );
      }
]

IsCovered-is_violation :
    (matrix : List MatrixRow) (scenario : String)
    → IsCovered matrix scenario
    → is_violation matrix scenario ≡ false
IsCovered-is_violation matrix scenario covered =
    let (row, here) = covered.some_row in
    let rows = rows_of matrix scenario in
    let quiet =
      all-any-false (λ (r : MatrixRow). not (r.outcome == pass)) rows
        (λ r m. ground (
          arith,
          covered.all_pass r,
          rows_of-Memᴰ matrix scenario r,
          discrete_beq_iff MatrixOutcome-discrete r.outcome pass,
        )) in
    rw (is_empty-Memᴰ row rows ((rows_of-Memᴰ matrix scenario row).1 here)) quiet

-- An approval is accepted exactly where every declared scenario has a row and all its rows passed;
-- any other verdict is accepted as it is.
pub corroborate_iff :
    (inventory : List String) (matrix : List MatrixRow) (verdict : ReviewVerdict)
    → ((corroborate inventory matrix verdict).ok ≡ true)
      ↔ (verdict ≡ approve → (s : String) → Memᴰ s inventory → IsCovered matrix s)
unfolding corroborate
corroborate_iff inventory matrix verdict = elim (beq_cases verdict approve) [
  | inl (t, same) ↦ (
    λ h e s m. is_violation-IsCovered matrix s (
        any-false (is_violation matrix) inventory
          (ground
            (arith, filter-is_empty (is_violation matrix) inventory, rw (t, corroborate) at h))
          s m),
    λ h.
        rw
          (
            t,
            filter-is_empty (is_violation matrix) inventory,
            all-any-false (is_violation matrix) inventory
                (λ s m. IsCovered-is_violation matrix s (h same s m)),
          )
          refl,
  )
  | inr (f, other) ↦ (λ h e. absurd (other e), λ h. rw f refl)
]
