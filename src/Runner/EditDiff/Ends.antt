-- ===== src/Runner/EditDiff/Ends.antt =====
-- The lines that two texts begin and end with, taken off before the rest is aligned:
-- packages/runner/src/edit-diff.ts.
use mathlib.Core.List.{append_assoc, reverse-reverse, reverse-append}
use specmate.Prelude.{
  ◌+◌, ◌-◌, List, [], ◌∷◌, ◌++◌, map, reverse, take, drop, length, length-append, length-reverse,
  take-append, drop-append, String, nat_eq, string_eq, beq_cases, ◌≡◌, refl, sym, ap, ◌∙◌, inl, inr,
  arith,
}
use specmate.Runner.EditDiff.{equals_from, common_head, shift, align_within, align_at, align_lines}

-- The lines that the two sides begin with.
pub record Shared (xs ys : List String) : Type 0 where
  pub front : List String
  pub left : List String
  pub right : List String
  pub left_parts : xs ≡ front ++ left
  pub right_parts : ys ≡ front ++ right
  pub counted : common_head xs ys ≡ length front

none-Shared : (xs ys : List String) → common_head xs ys ≡ 0 → Shared xs ys
none-Shared xs ys e = record {
  front = [];
  left = xs;
  right = ys;
  left_parts = refl;
  right_parts = refl;
  counted = e;
}

pub common_head-Shared : (xs ys : List String) → Shared xs ys
unfolding common_head
common_head-Shared [] ys = none-Shared [] ys refl
common_head-Shared (x ∷ xs) [] = none-Shared (x ∷ xs) [] refl
common_head-Shared (x ∷ xs) (y ∷ ys) = elim (beq_cases x y) [
  | inl (t, e) ↦
      let rest = common_head-Shared xs ys in
      record {
        front = x ∷ rest.front;
        left = rest.left;
        right = rest.right;
        left_parts = ap (λ zs. x ∷ zs) rest.left_parts;
        right_parts = rw (← e) (ap (λ zs. x ∷ zs) rest.right_parts);
        counted = rw t (omega (arith, rest.counted));
      }
  | inr (f, ne) ↦ none-Shared (x ∷ xs) (y ∷ ys) (rw f refl)
]

-- Two texts with their common lines first and last.
pub record Split (before after : List String) : Type 0 where
  pub head : List String
  pub left : List String
  pub right : List String
  pub last : List String
  pub before_parts : before ≡ head ++ (left ++ last)
  pub after_parts : after ≡ head ++ (right ++ last)
  pub aligned : align_lines before after ≡ align_at (length head) (length last) before after

reversed :
    (xs front rest : List String) → reverse xs ≡ front ++ rest → xs ≡ reverse rest ++ reverse front
reversed xs front rest e = sym (reverse-reverse xs) ∙ (ap reverse e ∙ reverse-append front rest)

pub align_lines-Split : (before after : List String) → Split before after
unfolding align_lines
align_lines-Split before after =
    let start = common_head-Shared before after in
    let ends = common_head-Shared (reverse start.left) (reverse start.right) in
    let drop_left : drop (common_head before after) before ≡ start.left =
      rw (start.counted)
        (ap (drop (length start.front)) start.left_parts ∙ drop-append start.front start.left) in
    let drop_right : drop (common_head before after) after ≡ start.right =
      rw (start.counted)
        (ap (drop (length start.front)) start.right_parts ∙ drop-append start.front start.right) in
    let counted : common_head (reverse (drop (common_head before after) before))
          (reverse (drop (common_head before after) after))
        ≡ length (reverse ends.front) =
      (λ i. common_head (reverse (drop_left i)) (reverse (drop_right i)))
      ∙ (ends.counted ∙ sym (length-reverse ends.front)) in
    record {
      head = start.front;
      left = reverse ends.left;
      right = reverse ends.right;
      last = reverse ends.front;
      before_parts =
          start.left_parts
          ∙ ap (λ zs. start.front ++ zs) (reversed start.left ends.front ends.left ends.left_parts);
      after_parts =
          start.right_parts
          ∙ ap (λ zs. start.front ++ zs)
              (reversed start.right ends.front ends.right ends.right_parts);
      aligned = λ i. align_at (start.counted i) (counted i) before after;
    }

drop_past : (head mid last : List String) → drop (length head) (head ++ (mid ++ last)) ≡ mid ++ last
drop_past head mid last = drop-append head (mid ++ last)

middle_of :
    (head mid last : List String)
    → take
        (length (head ++ (mid ++ last)) - length last - length head)
        (drop (length head) (head ++ (mid ++ last)))
      ≡ mid
middle_of head mid last = rw (drop_past head mid last) (
    ap (λ n. take n (mid ++ last))
      (omega (arith, length-append {0} head (mid ++ last), length-append {0} mid last))
    ∙ take-append mid last)

last_of :
    (head mid last : List String)
    → drop (length (head ++ (mid ++ last)) - length last) (head ++ (mid ++ last)) ≡ last
last_of head mid last =
    ap (drop (length (head ++ (mid ++ last)) - length last)) (sym (append_assoc head mid last))
    ∙ (ap (λ n. drop n ((head ++ mid) ++ last))
          (omega (
            arith,
            length-append {0} head (mid ++ last),
            length-append {0} mid last,
            length-append {0} head mid,
          ))
        ∙ drop-append (head ++ mid) last)

end_of :
    (head mid last : List String)
    → length (head ++ (mid ++ last)) - length last + 1 ≡ 1 + length head + length mid
end_of head mid last =
    omega (arith, length-append {0} head (mid ++ last), length-append {0} mid last)

-- The operations of an alignment with its common lines taken off.
pub align_at-parts :
    (head left right last : List String)
    → align_at (length head) (length last) (head ++ (left ++ last)) (head ++ (right ++ last))
      ≡ equals_from 1 1 head
        ++ (map (shift (length head)) (align_within left right)
            ++ equals_from (1 + length head + length left) (1 + length head + length right) last)
align_at-parts head left right last =
    rw
      (
        take-append head (left ++ last),
        middle_of head left last,
        middle_of head right last,
        last_of head left last,
        end_of head left last,
        end_of head right last,
      )
      refl
