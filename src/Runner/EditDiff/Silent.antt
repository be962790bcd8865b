-- ===== src/Runner/EditDiff/Silent.antt =====
-- When a diff is empty: packages/runner/src/edit-diff.ts.
use specmate.Prelude.{
  ℕ, ◌+◌, ◌-◌, Bool, List, [], ◌∷◌, map, reverse, take, drop, length, String, nat_eq, string_eq,
  beq_refl, Bool-cases, ◌≡◌, ◌↔◌, refl, sym, ap, ◌∙◌, inl, inr, arith,
}
use mathlib.Core.List.{append-nil}
use specmate.Runner.EditDiff.{
  Op, OpKind, is_insert, is_delete, equals_from, count_kind, common_head, align_at, align_middle,
  walk_back, align_lines, split_lines, unified_diff,
}
use specmate.Runner.EditDiff.Aligns.{numbered, side, align_lines-Aligns}

texts-numbered : (n : ℕ) (xs : List String) → map (λ (e : String × ℕ). e.0) (numbered n xs) ≡ xs
texts-numbered n [] = refl
texts-numbered n (x ∷ xs) = ap (λ ys. x ∷ ys) (texts-numbered (n + 1) xs)

-- With nothing inserted or deleted, both sides show every operation.
side-all :
    (off : OpKind → Bool) (line : Op → ℕ) (ops : List Op)
    → count_kind off ops ≡ 0
    → map (λ (e : String × ℕ). e.0) (side off line ops) ≡ map (λ (op : Op). op.text) ops
side-all off line [] e = refl
side-all off line (op ∷ ops) e = elim (Bool-cases (off op.kind)) [
  | inl gone ↦ absurd (ground arith)
  | inr kept ↦ rw kept (ap (λ xs. op.text ∷ xs) (side-all off line ops (rw kept at e)))
]

unchanged-eq :
    (before after : List String)
    → count_kind is_insert (align_lines before after) ≡ 0
    → count_kind is_delete (align_lines before after) ≡ 0
    → before ≡ after
unchanged-eq before after ins del =
    let ops = align_lines before after in
    let both = align_lines-Aligns before after in
    let text = λ (e : String × ℕ). e.0 in
    sym (texts-numbered 1 before)
    ∙ (sym (ap (map text) both.left)
        ∙ (side-all is_insert (λ op. op.before) ops ins
            ∙ (sym (side-all is_delete (λ op. op.after) ops del)
                ∙ (ap (map text) both.right ∙ texts-numbered 1 after))))

common_head_self : (xs : List String) → common_head xs xs ≡ length xs
unfolding common_head
common_head_self [] = refl
common_head_self (x ∷ xs) = rw (beq_refl x) (omega (arith, common_head_self xs))

drop_all : (xs : List String) → drop (length xs) xs ≡ []
drop_all [] = refl
drop_all (x ∷ xs) = drop_all xs

take_all : (xs : List String) → take (length xs) xs ≡ xs
take_all [] = refl
take_all (x ∷ xs) = ap (λ ys. x ∷ ys) (take_all xs)

align_at_self : (xs : List String) → align_at (length xs) 0 xs xs ≡ equals_from 1 1 xs
unfolding align_middle walk_back
align_at_self xs =
    let none_left : length xs - 0 ≡ length xs = omega arith in
    let none_between : length xs - length xs ≡ 0 = omega arith in
    rw (none_left, take_all xs, drop_all xs, none_between) (append-nil (equals_from 1 1 xs))

align_lines_self : (xs : List String) → align_lines xs xs ≡ equals_from 1 1 xs
unfolding align_lines common_head
align_lines_self xs =
    (λ i.
      align_at (common_head_self xs i)
        (common_head (reverse (drop (common_head_self xs i) xs))
          (reverse (drop (common_head_self xs i) xs)))
        xs xs)
    ∙ ((λ i.
          align_at (length xs) (common_head (reverse (drop_all xs i)) (reverse (drop_all xs i))) xs
            xs)
        ∙ align_at_self xs)

unchanged-equals :
    (i j : ℕ) (xs : List String)
    → (count_kind is_insert (equals_from i j xs) ≡ 0)
      × (count_kind is_delete (equals_from i j xs) ≡ 0)
unchanged-equals i j [] = (refl, refl)
unchanged-equals i j (x ∷ xs) = unchanged-equals (i + 1) (j + 1) xs

module _ (show : ℕ → String) (before after : String) where
  counts :
      ((unified_diff show before after).additions
        ≡ count_kind is_insert (align_lines (split_lines before) (split_lines after)))
      × ((unified_diff show before after).deletions
          ≡ count_kind is_delete (align_lines (split_lines before) (split_lines after)))
  unfolding unified_diff
  counts = ground arith

  -- A diff counts no change exactly where the two texts have the same lines.
  pub unified_diff-silent_iff :
      (((unified_diff show before after).additions ≡ 0)
        × ((unified_diff show before after).deletions ≡ 0))
      ↔ (split_lines before ≡ split_lines after)
  unified_diff-silent_iff = (
    λ (ins, del).
        unchanged-eq (split_lines before) (split_lines after) (sym counts.0 ∙ ins)
          (sym counts.1 ∙ del),
    λ same.
        let ops : align_lines (split_lines before) (split_lines after)
            ≡ equals_from 1 1 (split_lines after) =
          ap (λ xs. align_lines xs (split_lines after)) same
          ∙ align_lines_self (split_lines after) in
        let (ins, del) = unchanged-equals 1 1 (split_lines after) in
        (
          counts.0 ∙ (ap (count_kind is_insert) ops ∙ ins),
          counts.1 ∙ (ap (count_kind is_delete) ops ∙ del),
        ),
  )
