-- ===== src/Runner/EditDiff/Aligns.antt =====
-- The alignment of two texts, packages/runner/src/edit-diff.ts, is an edit script from the one to the
-- other.
use mathlib.Core.List.{append-nil}
use specmate.Prelude.{
  ℕ, suc, ◌+◌, Bool, true, not, List, [], ◌∷◌, ◌++◌, map, filter, length, String, nat_eq, string_eq,
  beq_cases, Bool-cases, ltb, leb, ◌||◌, ◌≡◌, refl, sym, ap, ◌∙◌, subst, inl, inr, arith,
}
use specmate.Runner.EditDiff.{
  Op, OpKind, is_insert, is_delete, equals_from, deletes_from, inserts_from, replace_wholly,
  walk_back, fill_table, align_middle, align_limit, shift, shift_line, align_within, align_at,
  align_lines, rows_below, tail, head_or_zero, first_row,
}
use specmate.Runner.EditDiff.Ends.{align_lines-Split, align_at-parts}

-- The lines of a text with their numbers, from `n` on.
abbrev pub numbered : ℕ → List String → List (String × ℕ)
numbered n [] = []
numbered n (line ∷ lines) = (line, n) ∷ numbered (n + 1) lines

-- What the operations say of one side: the lines that stand on it, with their numbers.
abbrev pub side : (OpKind → Bool) → (Op → ℕ) → List Op → List (String × ℕ)
side off line ops = map (λ op. (op.text, line op)) (filter (λ op. not (off op.kind)) ops)

-- A line has the number 0 on the side that it does not stand on.
abbrev pub IsBlank : Op → Type 0
IsBlank op = (is_insert op.kind ≡ true → op.before ≡ 0) × (is_delete op.kind ≡ true → op.after ≡ 0)

abbrev pub AllBlank : List Op → Type 0
AllBlank [] = Unit
AllBlank (op ∷ ops) = IsBlank op × AllBlank ops

-- The operations without the inserts are the before-text, those without the deletes the after-text,
-- line by line, each with its own number and with 0 on the side that lacks it.
pub record Aligns (i j : ℕ) (before after : List String) (ops : List Op) : Type 0 where
  pub left : side is_insert (λ op. op.before) ops ≡ numbered i before
  pub right : side is_delete (λ op. op.after) ops ≡ numbered j after
  pub blank : AllBlank ops

side-append :
    (off : OpKind → Bool) (line : Op → ℕ) (xs ys : List Op)
    → side off line (xs ++ ys) ≡ side off line xs ++ side off line ys
side-append off line [] ys = refl
side-append off line (x ∷ xs) ys = elim (Bool-cases (off x.kind)) [
  | inl skipped ↦ rw skipped (side-append off line xs ys)
  | inr kept ↦ rw kept (ap (λ rest. (x.text, line x) ∷ rest) (side-append off line xs ys))
]

numbered-append :
    (n : ℕ) (xs ys : List String)
    → numbered n (xs ++ ys) ≡ numbered n xs ++ numbered (n + length xs) ys
numbered-append n [] ys = ap (λ k. numbered k ys) (omega arith)
numbered-append n (x ∷ xs) ys =
    ap (λ rest. (x, n) ∷ rest)
      (numbered-append (n + 1) xs ys ∙ ap (λ k. numbered (n + 1) xs ++ numbered k ys) (omega arith))

AllBlank-append : (xs ys : List Op) → AllBlank xs → AllBlank ys → AllBlank (xs ++ ys)
AllBlank-append [] ys p q = q
AllBlank-append (x ∷ xs) ys p q = (p.0, AllBlank-append xs ys p.1 q)

Aligns-append :
    {i j : ℕ} {b b' a a' : List String} {xs ys : List Op}
    → Aligns i j b a xs
    → Aligns (i + length b) (j + length a) b' a' ys
    → Aligns i j (b ++ b') (a ++ a') (xs ++ ys)
Aligns-append {i} {j} {b} {b'} {a} {a'} {xs} {ys} p q = record {
  left =
      rw (side-append is_insert (λ op. op.before) xs ys, p.left, q.left, numbered-append i b b')
        refl;
  right =
      rw (side-append is_delete (λ op. op.after) xs ys, p.right, q.right, numbered-append j a a')
        refl;
  blank = AllBlank-append xs ys p.blank q.blank;
}

equals_from-Aligns : (i j : ℕ) (xs : List String) → Aligns i j xs xs (equals_from i j xs)
equals_from-Aligns i j [] = record { left = refl; right = refl; blank = tt }
equals_from-Aligns i j (x ∷ xs) =
    let rest = equals_from-Aligns (i + 1) (j + 1) xs in
    record {
      left = ap (λ ys. (x, i) ∷ ys) rest.left;
      right = ap (λ ys. (x, j) ∷ ys) rest.right;
      blank = ((λ t. cc, λ t. cc), rest.blank);
    }

deletes_from-Aligns : (i j : ℕ) (xs : List String) → Aligns i j xs [] (deletes_from i xs)
deletes_from-Aligns i j [] = record { left = refl; right = refl; blank = tt }
deletes_from-Aligns i j (x ∷ xs) =
    let rest = deletes_from-Aligns (i + 1) j xs in
    record {
      left = ap (λ ys. (x, i) ∷ ys) rest.left;
      right = rest.right;
      blank = ((λ t. cc, λ t. refl), rest.blank);
    }

inserts_from-Aligns : (i j : ℕ) (xs : List String) → Aligns i j [] xs (inserts_from j xs)
inserts_from-Aligns i j [] = record { left = refl; right = refl; blank = tt }
inserts_from-Aligns i j (x ∷ xs) =
    let rest = inserts_from-Aligns i (j + 1) xs in
    record {
      left = rest.left;
      right = ap (λ ys. (x, j) ∷ ys) rest.right;
      blank = ((λ t. refl, λ t. cc), rest.blank);
    }

replace_wholly-Aligns :
    (before after : List String) → Aligns 1 1 before after (replace_wholly before after)
unfolding replace_wholly
replace_wholly-Aligns before after =
    subst (λ b. Aligns 1 1 b after (replace_wholly before after)) (append-nil before)
      (Aligns-append (deletes_from-Aligns 1 1 before)
        (inserts_from-Aligns (1 + length before) (1 + 0) after))

-- Whatever the table says, the walk back is an alignment.
walk_back-Aligns :
    (i j : ℕ) (before after : List String) (rows : List (List ℕ))
    → Aligns i j before after (walk_back i j before after rows)
unfolding walk_back
walk_back-Aligns i j [] after rows = inserts_from-Aligns i j after
walk_back-Aligns i j (x ∷ before) [] rows = deletes_from-Aligns i j (x ∷ before)
walk_back-Aligns i j (x ∷ before) (y ∷ after) rows = elim (beq_cases x y) [
  | inl (t, e) ↦
      let rest = walk_back-Aligns (i + 1) (j + 1) before after (map tail (rows_below rows)) in
      rw t (record {
        left = ap (λ ys. (x, i) ∷ ys) rest.left;
        right = rw (← e) (ap (λ ys. (x, j) ∷ ys) rest.right);
        blank = ((λ u. cc, λ u. cc), rest.blank);
      })
  | inr (f, ne) ↦
      elim (Bool-cases
        (leb (head_or_zero (tail (first_row rows))) (head_or_zero (first_row (rows_below rows))))) [
          | inl down ↦
              let rest = walk_back-Aligns (i + 1) j before (y ∷ after) (rows_below rows) in
              rw (f, down)
                (record {
                  left = ap (λ ys. (x, i) ∷ ys) rest.left;
                  right = rest.right;
                  blank = ((λ u. cc, λ u. refl), rest.blank);
                })
          | inr along ↦
              let rest = walk_back-Aligns i (j + 1) (x ∷ before) after (map tail rows) in
              rw (f, along)
                (record {
                  left = rest.left;
                  right = ap (λ ys. (y, j) ∷ ys) rest.right;
                  blank = ((λ u. refl, λ u. cc), rest.blank);
                })
        ]
]

align_within-Aligns :
    (before after : List String) → Aligns 1 1 before after (align_within before after)
unfolding align_middle
align_within-Aligns before after =
    elim (Bool-cases (ltb align_limit (length before) || ltb align_limit (length after))) [
      | inl large ↦ rw large (replace_wholly-Aligns before after)
      | inr small ↦ rw small (walk_back-Aligns 1 1 before after (fill_table before after))
    ]

abbrev shift_entry : ℕ → String × ℕ → String × ℕ
shift_entry head (text, line) = (text, shift_line head line)

side-shift :
    (off : OpKind → Bool) (head : ℕ) (ops : List Op)
    → (side off (λ op. op.before) (map (shift head) ops)
        ≡ map (shift_entry head) (side off (λ op. op.before) ops))
      × (side off (λ op. op.after) (map (shift head) ops)
          ≡ map (shift_entry head) (side off (λ op. op.after) ops))
side-shift off head [] = (refl, refl)
side-shift off head (op ∷ ops) =
    let (b, a) = side-shift off head ops in
    elim (Bool-cases (off op.kind)) [
      | inl skipped ↦ rw skipped (b, a)
      | inr kept ↦ rw kept (
        ap (λ xs. (op.text, shift_line head op.before) ∷ xs) b,
        ap (λ xs. (op.text, shift_line head op.after) ∷ xs) a,
      )
    ]

shift_line-suc : (head n : ℕ) → shift_line head (suc n) ≡ suc n + head
shift_line-suc head n = ground arith

shift-numbered :
    (head n : ℕ) (xs : List String)
    → map (shift_entry head) (numbered (suc n) xs) ≡ numbered (suc n + head) xs
shift-numbered head n [] = refl
shift-numbered head n (x ∷ xs) =
    let next : map (shift_entry head) (numbered (suc n + 1) xs) ≡ numbered (suc n + head + 1) xs =
      ap (λ (k : ℕ). map (shift_entry head) (numbered k xs)) (omega arith)
      ∙ (shift-numbered head (suc n) xs ∙ ap (λ (k : ℕ). numbered k xs) (omega arith)) in
    λ i. (x, shift_line-suc head n i) ∷ next i

shift-AllBlank : (head : ℕ) (ops : List Op) → AllBlank ops → AllBlank (map (shift head) ops)
shift-AllBlank head [] p = tt
shift-AllBlank head (op ∷ ops) p = (
  (λ t. ap (shift_line head) (p.0.0 t), λ t. ap (shift_line head) (p.0.1 t)),
  shift-AllBlank head ops p.1,
)

shift-Aligns :
    (head : ℕ) (b a : List String) (ops : List Op)
    → Aligns 1 1 b a ops
    → Aligns (1 + head) (1 + head) b a (map (shift head) ops)
shift-Aligns head b a ops p = record {
  left =
      (side-shift is_insert head ops).0
      ∙ (ap (map (shift_entry head)) p.left ∙ shift-numbered head 0 b);
  right =
      (side-shift is_delete head ops).1
      ∙ (ap (map (shift_entry head)) p.right ∙ shift-numbered head 0 a);
  blank = shift-AllBlank head ops p.blank;
}

-- The alignment of two texts is an edit script from the one to the other: its operations without the
-- inserts are the lines of the before-text and those without the deletes the lines of the after-text,
-- in order and each with its own number, and with 0 on the side that lacks it, wherever the common
-- lines end and whichever way the middle is aligned.
pub align_lines-Aligns :
    (before after : List String) → Aligns 1 1 before after (align_lines before after)
align_lines-Aligns before after =
    let s = align_lines-Split before after in
    let ops =
      s.aligned
      ∙ ((λ i. align_at (length s.head) (length s.last) (s.before_parts i) (s.after_parts i))
          ∙ align_at-parts s.head s.left s.right s.last) in
    let whole = Aligns-append (equals_from-Aligns 1 1 s.head) (
      Aligns-append
        (shift-Aligns (length s.head) s.left s.right (align_within s.left s.right)
          (align_within-Aligns s.left s.right))
        (equals_from-Aligns (1 + length s.head + length s.left) (1 + length s.head + length s.right)
          s.last)) in
    record {
      left =
          ap (side is_insert (λ op. op.before)) ops
          ∙ (whole.left ∙ ap (numbered 1) (sym s.before_parts));
      right =
          ap (side is_delete (λ op. op.after)) ops
          ∙ (whole.right ∙ ap (numbered 1) (sym s.after_parts));
      blank = subst AllBlank (sym ops) whole.blank;
    }
