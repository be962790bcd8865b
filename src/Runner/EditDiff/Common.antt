-- ===== src/Runner/EditDiff/Common.antt =====
-- The lines that two lists have in common, and the most of them that there are.
use specmate.Prelude.{
  ℕ, suc, ◌+◌, ◌≤◌, max, List, [], ◌∷◌, String, ◌==◌, string_eq, beq_cases, beq_refl, subst,
  if◌then◌else◌, inl, inr, arith,
}
use native.Mathlib.Decide.{dec_le}

-- The lines of the one list and of the other that can be kept together, `k` of them: a common
-- subsequence.
pub data Common : List String → List String → ℕ → Type 0 where
  done : Common [] [] 0
  drop_before : {x : String} {xs ys : List String} {k : ℕ} → Common xs ys k → Common (x ∷ xs) ys k
  drop_after : {y : String} {xs ys : List String} {k : ℕ} → Common xs ys k → Common xs (y ∷ ys) k
  keep :
      {x : String} {xs ys : List String} {k : ℕ} → Common xs ys k → Common (x ∷ xs) (x ∷ ys) (suc k)

-- The length of a longest one, by the recursion that the table is filled by.
unfoldable pub longest : List String → List String → ℕ
longest [] ys = 0
longest (x ∷ xs) [] = 0
longest (x ∷ xs) (y ∷ ys) =
    let here = longest xs ys in
    let down = longest xs (y ∷ ys) in
    let along = longest (x ∷ xs) ys in if x == y then here + 1 else max down along

pub longest-step :
    (x : String) (xs ys : List String)
    → ((y : String) (zs : List String) → longest xs (y ∷ zs) ≤ longest xs zs + 1)
    → longest xs ys ≤ longest (x ∷ xs) ys
unfolding longest
longest-step x [] [] h = omega arith
longest-step x (z ∷ xs) [] h = omega arith
longest-step x xs (y ∷ ys) h = elim (beq_cases x y) [
  | inl (t, e) ↦ rw t (h y ys)
  | inr (f, ne) ↦ rw f (omega arith)
]

-- One line more allows one line more.
pub longest-drop : (y : String) (xs ys : List String) → longest xs (y ∷ ys) ≤ longest xs ys + 1
unfolding longest
longest-drop y [] ys = omega arith
longest-drop y (x ∷ xs) ys =
    let less = longest-step x xs ys (λ z zs. longest-drop z xs zs) in
    elim (beq_cases x y) [
      | inl (t, e) ↦ rw t (omega arith)
      | inr (f, ne) ↦ rw f (omega (arith, longest-drop y xs ys))
    ]

pub longest-extra :
    (x : String) (xs ys : List String)
    → ((y : String) (zs : List String) → longest xs zs ≤ longest xs (y ∷ zs))
    → longest (x ∷ xs) ys ≤ longest xs ys + 1
unfolding longest
longest-extra x xs [] h = omega arith
longest-extra x xs (y ∷ ys) h = elim (beq_cases x y) [
  | inl (t, e) ↦ rw t (omega (arith, h y ys))
  | inr (f, ne) ↦ rw f (omega (arith, h y ys, longest-extra x xs ys h))
]

pub longest-grows : (y : String) (xs ys : List String) → longest xs ys ≤ longest xs (y ∷ ys)
unfolding longest
longest-grows y [] ys = omega arith
longest-grows y (x ∷ xs) ys = elim (beq_cases x y) [
  | inl (t, e) ↦ rw t (longest-extra x xs ys (λ z zs. longest-grows z xs zs))
  | inr (f, ne) ↦ rw f (omega arith)
]

-- No common subsequence is longer.
pub Common-le : {xs ys : List String} {k : ℕ} → Common xs ys k → k ≤ longest xs ys
unfolding longest
Common-le done = omega arith
Common-le (drop_before {x} {xs} {ys} c) =
    omega (arith, Common-le c, longest-step x xs ys (λ z zs. longest-drop z xs zs))
Common-le (drop_after {y} {xs} {ys} c) = omega (arith, Common-le c, longest-grows y xs ys)
Common-le (keep {x} c) = rw (beq_refl x) (omega (arith, Common-le c))

pub Common-nil : (ys : List String) → Common [] ys 0
Common-nil [] = done
Common-nil (y ∷ ys) = drop_after (Common-nil ys)

pub Common-nil_right : (xs : List String) → Common xs [] 0
Common-nil_right [] = done
Common-nil_right (x ∷ xs) = drop_before (Common-nil_right xs)

pub Common-longest : (xs ys : List String) → Common xs ys (longest xs ys)
unfolding longest
Common-longest [] ys = Common-nil ys
Common-longest (x ∷ xs) [] = drop_before (Common-nil_right xs)
Common-longest (x ∷ xs) (y ∷ ys) = elim (beq_cases x y) [
  | inl (t, e) ↦
      rw (t, e)
        (subst (Common (y ∷ xs) (y ∷ ys)) (omega arith) (keep {x = y} (Common-longest xs ys)))
  | inr (f, ne) ↦ elim (dec_le (longest (x ∷ xs) ys) (longest xs (y ∷ ys))) [
    | yes h ↦
        rw f (
          subst (Common (x ∷ xs) (y ∷ ys)) (omega arith) (drop_before (Common-longest xs (y ∷ ys))))
    | no h ↦
        rw f
          (subst (Common (x ∷ xs) (y ∷ ys)) (omega arith) (drop_after (Common-longest (x ∷ xs) ys)))
  ]
]
