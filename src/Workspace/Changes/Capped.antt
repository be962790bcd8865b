-- ===== src/Workspace/Changes/Capped.antt =====
-- The ceiling on the files of a comparison: `capDiffFiles` of packages/workspace/src/diff.ts.
use specmate.Prelude.{
  ℕ, ◌+◌, ◌-◌, ◌<◌, min, not, List, [], ◌∷◌, filter, length, nat_eq, Bool-cases, leb, leb_iff, ◌≡◌,
  inl, inr, arith, beq_cases,
}
use specmate.Workspace.Changes.{DiffFile, is_spec, max_diff_files, keep_files, cap_diff_files}

-- Some of the files, in their order.
pub data Kept : List DiffFile → List DiffFile → Type 0 where
  none_left : Kept [] []
  kept : {x : DiffFile} {xs ys : List DiffFile} → Kept xs ys → Kept (x ∷ xs) (x ∷ ys)
  cut : {y : DiffFile} {xs ys : List DiffFile} → Kept xs ys → Kept xs (y ∷ ys)

abbrev pub specs : List DiffFile → ℕ
specs files = length (filter (λ file. is_spec file.group) files)

abbrev pub codes : List DiffFile → ℕ
codes files = length (filter (λ file. not (is_spec file.group)) files)

specs-codes : (files : List DiffFile) → specs files + codes files ≡ length files
specs-codes [] = omega arith
specs-codes (x ∷ xs) = ground (arith, specs-codes xs)

keep_files-Kept : (s c : ℕ) (files : List DiffFile) → Kept (keep_files s c files) files
unfolding keep_files
keep_files-Kept s c [] = none_left
keep_files-Kept s c (x ∷ xs) = elim (Bool-cases (is_spec x.group)) [
  | inl spec ↦ elim (beq_cases s 0) [
    | inl (t, e) ↦ rw (spec, t) (cut (keep_files-Kept s c xs))
    | inr (f, e) ↦ rw (spec, f) (kept (keep_files-Kept (s - 1) c xs))
  ]
  | inr code ↦ elim (beq_cases c 0) [
    | inl (t, e) ↦ rw (code, t) (cut (keep_files-Kept s c xs))
    | inr (f, e) ↦ rw (code, f) (kept (keep_files-Kept s (c - 1) xs))
  ]
]

-- Of each group the loop keeps what there is room for.
keep_files-counts :
    (s c : ℕ) (files : List DiffFile)
    → (specs (keep_files s c files) ≡ min s (specs files))
      × (codes (keep_files s c files) ≡ min c (codes files))
unfolding keep_files
keep_files-counts s c [] = (omega arith, omega arith)
keep_files-counts s c (x ∷ xs) = elim (Bool-cases (is_spec x.group)) [
  | inl spec ↦ elim (beq_cases s 0) [
    | inl (t, e) ↦ let (p, q) = keep_files-counts s c xs in rw (spec, t) (omega (arith, p, e), q)
    | inr (f, e) ↦
        let (p, q) = keep_files-counts (s - 1) c xs in rw (spec, f, spec) (omega (arith, p, e), q)
  ]
  | inr code ↦ elim (beq_cases c 0) [
    | inl (t, e) ↦ let (p, q) = keep_files-counts s c xs in rw (code, t) (p, omega (arith, q, e))
    | inr (f, e) ↦
        let (p, q) = keep_files-counts s (c - 1) xs in rw (code, f, code) (p, omega (arith, q, e))
  ]
]

Kept-all : (files : List DiffFile) → Kept files files
Kept-all [] = none_left
Kept-all (x ∷ xs) = kept (Kept-all xs)

-- What the ceiling leaves of the files.
pub record Capped (files left : List DiffFile) : Type 0 where
  pub in_order : Kept left files
  pub most : length left ≡ min (length files) max_diff_files
  pub spec_first : specs left ≡ min (specs files) max_diff_files

-- A comparison held to the ceiling is some of its files in their order, as many of them as the ceiling
-- allows; the specification goes in first, so that all of it is left wherever it fits by itself.
pub cap_diff_files-Capped : (files : List DiffFile) → Capped files (cap_diff_files files)
unfolding cap_diff_files
cap_diff_files-Capped files = elim (Bool-cases (leb (length files) max_diff_files)) [
  | inl fits ↦
      let small = (leb_iff (length files) max_diff_files).0 fits in
      let parts = specs-codes files in
      rw fits (record { in_order = Kept-all files; most = omega arith; spec_first = omega arith })
  | inr over ↦
      let large : max_diff_files < length files = ground arith in
      let left =
        keep_files (min (specs files) max_diff_files) (max_diff_files - specs files) files in
      let (s, c) =
        keep_files-counts (min (specs files) max_diff_files) (max_diff_files - specs files) files in
      rw over (record {
        in_order =
            keep_files-Kept (min (specs files) max_diff_files) (max_diff_files - specs files) files;
        most = omega (arith, s, c, specs-codes left, specs-codes files);
        spec_first = omega (arith, s);
      })
]
