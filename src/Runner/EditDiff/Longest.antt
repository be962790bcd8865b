-- ===== src/Runner/EditDiff/Longest.antt =====
-- The middle of an alignment, packages/runner/src/edit-diff.ts, keeps as many lines as can be kept.
use specmate.Prelude.{
  ℕ, ◌+◌, ◌≤◌, false, not, List, [], ◌∷◌, map, String, string_eq, beq_cases, ◌<◌, subst, Bool-cases,
  leb, leb_iff, ◌≡◌, refl, sym, inl, inr, arith,
}
use specmate.Runner.EditDiff.{
  Op, is_changed, count_kind, deletes_from, inserts_from, head_or_zero, tail, first_row, rows_below,
  fill_row, zero_row, fill_table, walk_back, align_middle,
}
use specmate.Runner.EditDiff.Common.{Common, longest, Common-le, Common-longest}

lt_of_leb : (a b : ℕ) → leb a b ≡ false → b < a
lt_of_leb a b h = ground arith

-- A row of the table holds the longest lengths for what is left of the after-text at each column.
abbrev RowOf : List String → List String → List ℕ → Type 0
RowOf xs [] row = head_or_zero row ≡ longest xs []
RowOf xs (y ∷ ys) row = (head_or_zero row ≡ longest xs (y ∷ ys)) × RowOf xs ys (tail row)

RowOf-head :
    (xs ys : List String) (row : List ℕ) → RowOf xs ys row → head_or_zero row ≡ longest xs ys
RowOf-head xs [] row h = h
RowOf-head xs (y ∷ ys) row h = h.0

zero_row-RowOf : (ys : List String) → RowOf [] ys (zero_row ys)
unfolding longest
zero_row-RowOf [] = refl
zero_row-RowOf (y ∷ ys) = (refl, zero_row-RowOf ys)

fill_row-RowOf :
    (x : String) (xs ys : List String) (below : List ℕ)
    → RowOf xs ys below
    → RowOf (x ∷ xs) ys (fill_row x ys below)
unfolding longest fill_row
fill_row-RowOf x xs [] below h = refl
fill_row-RowOf x xs (y ∷ ys) below h =
    let rest = fill_row-RowOf x xs ys (tail below) h.1 in
    let first = RowOf-head (x ∷ xs) ys (fill_row x ys (tail below)) rest in
    let diagonal = RowOf-head xs ys (tail below) h.1 in (rw (h.0, first, diagonal) refl, rest)

abbrev TableOf : List String → List String → List (List ℕ) → Type 0
TableOf [] ys rows = RowOf [] ys (first_row rows)
TableOf (x ∷ xs) ys rows = RowOf (x ∷ xs) ys (first_row rows) × TableOf xs ys (rows_below rows)

TableOf-row :
    (xs ys : List String) (rows : List (List ℕ)) → TableOf xs ys rows → RowOf xs ys (first_row rows)
TableOf-row [] ys rows h = h
TableOf-row (x ∷ xs) ys rows h = h.0

fill_table-TableOf : (xs ys : List String) → TableOf xs ys (fill_table xs ys)
unfolding fill_table
fill_table-TableOf [] ys = zero_row-RowOf ys
fill_table-TableOf (x ∷ xs) ys =
    let rest = fill_table-TableOf xs ys in
    (
      fill_row-RowOf x xs ys (first_row (fill_table xs ys))
          (TableOf-row xs ys (fill_table xs ys) rest),
      rest,
    )

first_row-tail : (rows : List (List ℕ)) → first_row (map tail rows) ≡ tail (first_row rows)
first_row-tail [] = refl
first_row-tail (row ∷ rows) = refl

rows_below-tail : (rows : List (List ℕ)) → rows_below (map tail rows) ≡ map tail (rows_below rows)
rows_below-tail [] = refl
rows_below-tail (row ∷ rows) = refl

TableOf-tail :
    (y : String) (xs ys : List String) (rows : List (List ℕ))
    → TableOf xs (y ∷ ys) rows
    → TableOf xs ys (map tail rows)
TableOf-tail y [] ys rows h = rw (first_row-tail rows) h.1
TableOf-tail y (x ∷ xs) ys rows h = (
  rw (first_row-tail rows) h.0.1,
  rw (rows_below-tail rows) (TableOf-tail y xs ys (rows_below rows) h.1),
)

-- The lines that an alignment keeps.
abbrev pub kept : List Op → ℕ
kept ops = count_kind (λ kind. not (is_changed kind)) ops

kept-deletes : (i : ℕ) (xs : List String) → kept (deletes_from i xs) ≡ 0
kept-deletes i [] = refl
kept-deletes i (x ∷ xs) = kept-deletes (i + 1) xs

kept-inserts : (j : ℕ) (xs : List String) → kept (inserts_from j xs) ≡ 0
kept-inserts j [] = refl
kept-inserts j (x ∷ xs) = kept-inserts (j + 1) xs

walk_back-longest :
    (i j : ℕ) (xs ys : List String) (rows : List (List ℕ))
    → TableOf xs ys rows
    → kept (walk_back i j xs ys rows) ≡ longest xs ys
unfolding walk_back longest
walk_back-longest i j [] ys rows h = kept-inserts j ys
walk_back-longest i j (x ∷ xs) [] rows h = kept-deletes i (x ∷ xs)
walk_back-longest i j (x ∷ xs) (y ∷ ys) rows h =
    let down =
      RowOf-head xs (y ∷ ys) (first_row (rows_below rows))
        (TableOf-row xs (y ∷ ys) (rows_below rows) h.1) in
    let along = RowOf-head (x ∷ xs) ys (tail (first_row rows)) h.0.1 in
    elim (beq_cases x y) [
      | inl (t, e) ↦ rw t (
          omega (
            arith,
            walk_back-longest (i + 1) (j + 1) xs ys (map tail (rows_below rows))
                (TableOf-tail y xs ys (rows_below rows) h.1),
          ))
      | inr (f, ne) ↦
          elim (Bool-cases (
            leb (head_or_zero (tail (first_row rows)))
              (head_or_zero (first_row (rows_below rows))))) [
                | inl less ↦
                    rw (f, less)
                      (omega (
                        arith,
                        walk_back-longest (i + 1) j xs (y ∷ ys) (rows_below rows) h.1,
                        down,
                        along,
                        (leb_iff _ _).0 less,
                      ))
                | inr more ↦
                    rw (f, more)
                      (omega (
                        arith,
                        walk_back-longest i (j + 1) (x ∷ xs) ys (map tail rows)
                            (TableOf-tail y (x ∷ xs) ys rows h),
                        down,
                        along,
                        lt_of_leb _ _ more,
                      ))
              ]
    ]

-- As many as any common subsequence has, and no more.
pub record IsLongest (xs ys : List String) (n : ℕ) : Type 0 where
  pub common : Common xs ys n
  pub most : (k : ℕ) → Common xs ys k → k ≤ n

-- The alignment of the middle keeps the lines of a longest common subsequence: that many can be kept
-- together, and no choice keeps more.
pub align_middle-IsLongest :
    (before after : List String) → IsLongest before after (kept (align_middle before after))
unfolding align_middle
align_middle-IsLongest before after =
    let e =
      walk_back-longest 1 1 before after (fill_table before after)
        (fill_table-TableOf before after) in
    record {
      common = subst (Common before after) (sym e) (Common-longest before after);
      most = λ k c. omega (arith, Common-le c, e);
    }
