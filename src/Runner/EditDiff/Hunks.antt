-- ===== src/Runner/EditDiff/Hunks.antt =====
-- The hunks of a diff, packages/runner/src/edit-diff.ts: each change is shown, and no line twice.
use mathlib.Core.List.Memᴰ
use mathlib.Core.Option.{some-injective}
use specmate.Prelude.{
  ℕ, zero, suc, ◌+◌, ◌-◌, ◌*◌, ◌≤◌, ◌<◌, min, true, false, List, [], ◌∷◌, some, get_elem?, length,
  Memᴰ, Memᴰ-cons, Bool-cases, leb, ◌≡◌, refl, ap, ◌∙◌, subst, ◌⊎◌, inl, inr, arith,
}
use specmate.Runner.EditDiff.{
  Op, is_changed, Group, context_lines, changed_from, groups_from, groups_of, hunk_start, hunk_end,
}

-- Numbers from `n` on, each past the one before it.
abbrev Ascending : ℕ → List ℕ → Type 0
Ascending n [] = Unit
Ascending n (x ∷ xs) = (n ≤ x) × Ascending (x + 1) xs

Ascending-le : (m n : ℕ) (xs : List ℕ) → m ≤ n → Ascending n xs → Ascending m xs
Ascending-le m n [] h a = tt
Ascending-le m n (x ∷ xs) h a = (omega arith, a.1)

changed_from-Ascending : (n : ℕ) (ops : List Op) → Ascending n (changed_from n ops)
changed_from-Ascending n [] = tt
changed_from-Ascending n (op ∷ ops) =
    let rest = changed_from-Ascending (n + 1) ops in
    elim (Bool-cases (is_changed op.kind)) [
      | inl change ↦ rw change (omega arith, rest)
      | inr same ↦ rw same (Ascending-le n (n + 1) (changed_from (n + 1) ops) (omega arith) rest)
    ]

changed_from-Memᴰ :
    (n i : ℕ) (ops : List Op) {op : Op}
    → get_elem? ops i ≡ some op
    → is_changed op.kind ≡ true
    → Memᴰ (n + i) (changed_from n ops)
changed_from-Memᴰ n i [] e c = cc
changed_from-Memᴰ n zero (x ∷ ops) {op} e c =
    let same = some-injective x op e in
    rw (ap (λ (o : Op). is_changed o.kind) same ∙ c) (Memᴰ.head (omega arith))
changed_from-Memᴰ n (suc i) (x ∷ ops) e c =
    let later : Memᴰ (n + suc i) (changed_from (n + 1) ops) =
      subst (λ k. Memᴰ k (changed_from (n + 1) ops)) (omega arith)
        (changed_from-Memᴰ (n + 1) i ops e c) in
    elim (Bool-cases (is_changed x.kind)) [
      | inl change ↦ rw change (Memᴰ.tail later)
      | inr same ↦ rw same later
    ]

-- The hunks of the groups follow one another from operation `lower` on, and none is empty.
abbrev pub Apart : ℕ → ℕ → List Group → Type 0
Apart count lower [] = Unit
Apart count lower (g ∷ gs) =
    (lower ≤ hunk_start g) × (hunk_start g < hunk_end count g) × Apart count (hunk_end count g) gs

far_enough :
    (count x e : ℕ)
    → leb (x - e) (context_lines * 2) ≡ false
    → min (count - 1) (e + context_lines) + 1 ≤ x - context_lines
far_enough count x e far = let past : 6 < x - e = ground arith in omega arith

module _ (count : ℕ) where
  groups_from-Apart :
      (lower : ℕ) (last : Group) (xs : List ℕ)
      → lower ≤ hunk_start last
      → last.start ≤ last.end
      → last.end < count
      → Ascending (last.end + 1) xs
      → ((x : ℕ) → Memᴰ x xs → x < count)
      → Apart count lower (groups_from last xs)
  unfolding groups_from
  groups_from-Apart lower last [] low run fits up inside = (low, omega arith, tt)
  groups_from-Apart lower last (x ∷ xs) low run fits up inside =
      let here = inside x (Memᴰ.head refl) in
      let rest = λ (y : ℕ) (m : Memᴰ y xs). inside y (Memᴰ.tail m) in
      elim (Bool-cases (leb (x - last.end) (context_lines * 2))) [
        | inl near ↦ rw near (
            groups_from-Apart lower (record last { end = x }) xs low (omega (arith, up.0)) here up.1
              rest)
        | inr far ↦ rw far (
          low,
          omega arith,
          groups_from-Apart (hunk_end count last) (record { start = x; end = x }) xs
              (far_enough count x last.end far) (omega arith) here up.1 rest,
        )
      ]

-- A group that an index lies in.
abbrev In : ℕ → List Group → Type 0
In x gs = (g : Group) × Memᴰ g gs × (g.start ≤ x) × (x ≤ g.end)

grown :
    (last : Group) (y : ℕ) (ys : List ℕ) (x : ℕ)
    → last.start ≤ last.end
    → last.end + 1 ≤ y
    → ((last.start ≤ x) × (x ≤ last.end)) ⊎ Memᴰ x (y ∷ ys)
    → ((last.start ≤ x) × (x ≤ y)) ⊎ Memᴰ x ys
grown last y ys x run past (inl within) = inl (within.0, omega (arith, within.1))
grown last y ys x run past (inr (Memᴰ.head e)) = inl (omega (arith, e), omega (arith, e))
grown last y ys x run past (inr (Memᴰ.tail m)) = inr m

In-later : (g : Group) (gs : List Group) (x : ℕ) → In x gs → In x (g ∷ gs)
In-later g gs x (h, m, low, high) = (h, Memᴰ.tail m, low, high)

parted :
    (last : Group) (y : ℕ) (ys : List ℕ) (gs : List Group) (x : ℕ)
    → ((last.start ≤ x) × (x ≤ last.end)) ⊎ Memᴰ x (y ∷ ys)
    → (((y ≤ x) × (x ≤ y)) ⊎ Memᴰ x ys → In x gs)
    → In x (last ∷ gs)
parted last y ys gs x (inl within) rest = (last, Memᴰ.head refl, within.0, within.1)
parted last y ys gs x (inr (Memᴰ.head e)) rest =
    In-later last gs x (rest (inl (omega (arith, e), omega (arith, e))))
parted last y ys gs x (inr (Memᴰ.tail m)) rest = In-later last gs x (rest (inr m))

groups_from-In :
    (last : Group) (xs : List ℕ) (x : ℕ)
    → last.start ≤ last.end
    → Ascending (last.end + 1) xs
    → ((last.start ≤ x) × (x ≤ last.end)) ⊎ Memᴰ x xs
    → In x (groups_from last xs)
unfolding groups_from
groups_from-In last [] x run up (inl within) = (last, Memᴰ.head refl, within.0, within.1)
groups_from-In last [] x run up (inr m) = absurd (Memᴰ.not-nil m)
groups_from-In last (y ∷ ys) x run up at =
    elim (Bool-cases (leb (y - last.end) (context_lines * 2))) [
      | inl near ↦ rw near (
          groups_from-In (record last { end = y }) ys x (omega (arith, up.0)) up.1
            (grown last y ys x run up.0 at))
      | inr far ↦ rw far (
          parted last y ys (groups_from (record { start = y; end = y }) ys) x at
            (groups_from-In (record { start = y; end = y }) ys x (omega arith) up.1))
    ]

-- The hunks of the operations: in order and apart, with each change in one of them.
pub record Shows (ops : List Op) (gs : List Group) : Type 0 where
  pub apart : Apart (length ops) 0 gs
  pub shown :
      (i : ℕ) (op : Op)
      → get_elem? ops i ≡ some op
      → is_changed op.kind ≡ true
      → (g : Group) × Memᴰ g gs × (hunk_start g ≤ i) × (i < hunk_end (length ops) g)

changed_from-lt : (n x : ℕ) (ops : List Op) → Memᴰ x (changed_from n ops) → x < n + length ops
changed_from-lt n x [] m = absurd (Memᴰ.not-nil m)
changed_from-lt n x (op ∷ ops) m = elim (Bool-cases (is_changed op.kind)) [
  | inl change ↦ elim ((Memᴰ-cons x n (changed_from (n + 1) ops)).0 (rw change at m)) [
    | inl e ↦ omega arith
    | inr later ↦ omega (arith, changed_from-lt (n + 1) x ops later)
  ]
  | inr same ↦ omega (arith, changed_from-lt (n + 1) x ops (rw same at m))
]

groups_of-Apart :
    (count : ℕ) (xs : List ℕ)
    → Ascending 0 xs
    → ((x : ℕ) → Memᴰ x xs → x < count)
    → Apart count 0 (groups_of xs)
unfolding groups_of
groups_of-Apart count [] up inside = tt
groups_of-Apart count (x ∷ xs) up inside =
    groups_from-Apart count 0 (record { start = x; end = x }) xs (omega arith) (omega arith)
      (inside x (Memᴰ.head refl)) up.1 (λ y m. inside y (Memᴰ.tail m))

groups_of-In : (xs : List ℕ) (x : ℕ) → Ascending 0 xs → Memᴰ x xs → In x (groups_of xs)
unfolding groups_of
groups_of-In [] x up m = absurd (Memᴰ.not-nil m)
groups_of-In (y ∷ ys) x up (Memᴰ.head e) =
    groups_from-In (record { start = y; end = y }) ys x (omega arith) up.1
      (inl (omega (arith, e), omega (arith, e)))
groups_of-In (y ∷ ys) x up (Memᴰ.tail m) =
    groups_from-In (record { start = y; end = y }) ys x (omega arith) up.1 (inr m)

in_hunk :
    (count x start end : ℕ)
    → x < count
    → start ≤ x
    → x ≤ end
    → (start - context_lines ≤ x) × (x < min (count - 1) (end + context_lines) + 1)
in_hunk count x start end here low high = omega arith

-- The hunks of a diff are not empty, follow one another and share no operation, and every operation
-- that is a change stands in one of them.
pub groups_of-Shows : (ops : List Op) → Shows ops (groups_of (changed_from 0 ops))
groups_of-Shows ops =
    let up = changed_from-Ascending 0 ops in
    let inside = λ (x : ℕ) (m : Memᴰ x (changed_from 0 ops)). changed_from-lt 0 x ops m in
    record {
      apart =
          groups_of-Apart (length ops) (changed_from 0 ops) up (λ x m. omega (arith, inside x m));
      shown = λ i op e c.
          let m = changed_from-Memᴰ 0 i ops e c in
          let (g, k, low, high) = groups_of-In (changed_from 0 ops) (0 + i) up m in
          let (from, to) =
            in_hunk (length ops) i g.start g.end (omega (arith, inside (0 + i) m)) (omega arith)
              (omega arith) in
          (g, k, from, to);
    }
