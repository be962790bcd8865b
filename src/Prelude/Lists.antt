-- ===== src/Prelude/Lists.antt =====
-- The array methods of the source over `List`, and what their results mean.
use Prim.Native.Nat.{ℕ, zero, suc, ◌+◌, ◌≤◌}
use mathlib.Core.Path.{◌≡◌, refl, sym, ap}
use mathlib.Core.Logic.{◌↔◌, ◌⊎◌, inl, inr, ⊎_elim}
use mathlib.Core.Bool.{Bool, true, false, not, ◌&&◌, ◌||◌}
use mathlib.Core.Option.{Option, none, some, some-injective}
use mathlib.Core.List.{List, [], ◌∷◌, ◌++◌, map, reverse_aux, reverse, Memᴰ}
use mathlib.Core.List.Memᴰ
use native.Mathlib.Omega.{arith}
use specmate.Prelude.Tests.{if◌then◌else◌, Bool-cases}
use specmate.Prelude.Equality.{Eq, ◌==◌}

module _ {ℓ} {A : Type ℓ} where
  abbrev pub length : List A → ℕ
  length [] = 0
  length (x ∷ xs) = suc (length xs)

  abbrev pub get_elem? : List A → ℕ → Option A
  get_elem? [] i = none
  get_elem? (x ∷ xs) zero = some x
  get_elem? (x ∷ xs) (suc i) = get_elem? xs i

  -- `filter` of the source.
  abbrev pub filter : (A → Bool) → List A → List A
  filter p [] = []
  filter p (x ∷ xs) = let rest = filter p xs in if p x then x ∷ rest else rest

  -- `some` of the source.
  abbrev pub any : (A → Bool) → List A → Bool
  any p [] = false
  any p (x ∷ xs) = p x || any p xs

  abbrev pub all : (A → Bool) → List A → Bool
  all p [] = true
  all p (x ∷ xs) = p x && all p xs

  abbrev pub find? : (A → Bool) → List A → Option A
  find? p [] = none
  find? p (x ∷ xs) = let rest = find? p xs in if p x then some x else rest

  -- `findIndex` of the source, with `none` for -1; the index of the head is `i`.
  abbrev pub find_idx_from : (A → Bool) → ℕ → List A → Option ℕ
  find_idx_from p i [] = none
  find_idx_from p i (x ∷ xs) = let rest = find_idx_from p (suc i) xs in if p x then some i else rest

  abbrev pub is_empty : List A → Bool
  is_empty [] = true
  is_empty (x ∷ xs) = false

  abbrev pub flat_map {κ} : {B : Type κ} → (A → List B) → List A → List B
  flat_map f [] = []
  flat_map f (x ∷ xs) = f x ++ flat_map f xs

  -- `slice(0, n)` and `slice(n)` of the source.
  abbrev pub take : ℕ → List A → List A
  take zero xs = []
  take (suc n) [] = []
  take (suc n) (x ∷ xs) = x ∷ take n xs

  abbrev pub drop : ℕ → List A → List A
  drop zero xs = xs
  drop (suc n) [] = []
  drop (suc n) (x ∷ xs) = drop n xs

  pub take-drop : (n : ℕ) (xs : List A) → take n xs ++ drop n xs ≡ xs
  take-drop zero xs = refl
  take-drop (suc n) [] = refl
  take-drop (suc n) (x ∷ xs) = ap (λ ys. x ∷ ys) (take-drop n xs)

  pub length-take : (n : ℕ) (xs : List A) → length (take n xs) ≤ n
  length-take zero xs = omega arith
  length-take (suc n) [] = omega arith
  length-take (suc n) (x ∷ xs) = omega (arith, length-take n xs)

  pub take-append : (xs ys : List A) → take (length xs) (xs ++ ys) ≡ xs
  take-append [] ys = refl
  take-append (x ∷ xs) ys = ap (λ zs. x ∷ zs) (take-append xs ys)

  pub drop-append : (xs ys : List A) → drop (length xs) (xs ++ ys) ≡ ys
  drop-append [] ys = refl
  drop-append (x ∷ xs) ys = drop-append xs ys

  pub length-reverse_aux : (xs ys : List A) → length (reverse_aux xs ys) ≡ length xs + length ys
  length-reverse_aux [] ys = omega arith
  length-reverse_aux (x ∷ xs) ys = omega (arith, length-reverse_aux xs (x ∷ ys))

  pub length-reverse : (xs : List A) → length (reverse xs) ≡ length xs
  length-reverse xs = omega (arith, length-reverse_aux xs [])

  pub length-append : (xs ys : List A) → length (xs ++ ys) ≡ length xs + length ys
  length-append [] ys = omega arith
  length-append (x ∷ xs) ys = omega (arith, length-append xs ys)

  pub List-cases : (xs : List A) → (xs ≡ []) ⊎ ((x : A) × (rest : List A) × (xs ≡ x ∷ rest))
  List-cases [] = inl refl
  List-cases (x ∷ xs) = inr (x, xs, refl)

  pub Memᴰ-cons : (a x : A) (xs : List A) → Memᴰ a (x ∷ xs) ↔ ((a ≡ x) ⊎ Memᴰ a xs)
  Memᴰ-cons a x xs = (Memᴰ.cases_cons, ⊎_elim Memᴰ.head Memᴰ.tail)

  pub Memᴰ-append : (a : A) (xs ys : List A) → Memᴰ a (xs ++ ys) ↔ (Memᴰ a xs ⊎ Memᴰ a ys)
  Memᴰ-append a xs ys =
      (λ m. Memᴰ.append_cases xs m, ⊎_elim (Memᴰ.append_left ys) (Memᴰ.append_right xs))

  -- An element of a list with one more at its end is of the list, or is that one.
  pub Memᴰ-append_new : (xs : List A) (x : A) {a : A} → Memᴰ a (xs ++ x ∷ []) → Memᴰ a xs ⊎ (a ≡ x)
  Memᴰ-append_new xs x {a} m = elim ((Memᴰ-append a xs (x ∷ [])).0 m) [
    | inl old ↦ inl old
    | inr new ↦ elim ((Memᴰ-cons a x []).0 new) [ inl e ↦ inr e | inr k ↦ absurd (Memᴰ.not-nil k) ]
  ]

  pub append-eq-nil : (xs ys : List A) → xs ++ ys ≡ [] → (xs ≡ []) × (ys ≡ [])
  append-eq-nil [] ys h = (refl, h)
  append-eq-nil (x ∷ xs) ys h = cc

module _ {ℓ} {A : Type ℓ} ⦃e : Eq A⦄ where
  abbrev pub includes : A → List A → Bool
  includes a [] = false
  includes a (x ∷ xs) = x == a || includes a xs

  -- `[...new Set(xs)]`: the first occurrence of each element, in order.
  abbrev pub dedupe : List A → List A
  dedupe [] = []
  dedupe (x ∷ xs) = x ∷ filter (λ y. not (y == x)) (dedupe xs)

  pub includes-Memᴰ : (a : A) (xs : List A) → (includes a xs ≡ true) ↔ Memᴰ a xs
  includes-Memᴰ a [] = (λ h. cc, λ m. absurd (Memᴰ.not-nil m))
  includes-Memᴰ a (x ∷ xs) =
      ground (arith, Memᴰ-cons a x xs, includes-Memᴰ a xs, e.beq_iff x a, e.beq_iff a x)

module _ {ℓ} {A : Type ℓ} where
  pub filter-Memᴰ :
      (p : A → Bool) (a : A) (xs : List A) → Memᴰ a (filter p xs) ↔ (Memᴰ a xs × (p a ≡ true))
  filter-Memᴰ p a [] = (λ m. absurd (Memᴰ.not-nil m), λ m. absurd (Memᴰ.not-nil m.0))
  filter-Memᴰ p a (x ∷ xs) =
      ground (arith, Memᴰ-cons a x xs, Memᴰ-cons a x (filter p xs), filter-Memᴰ p a xs)

module _ {ℓ} {A : Type ℓ} ⦃e : Eq A⦄ where
  pub dedupe-Memᴰ : (a : A) (xs : List A) → Memᴰ a (dedupe xs) ↔ Memᴰ a xs
  dedupe-Memᴰ a [] = (λ m. m, λ m. m)
  dedupe-Memᴰ a (x ∷ xs) = ground (
    arith,
    Memᴰ-cons a x xs,
    Memᴰ-cons a x (filter (λ y. not (y == x)) (dedupe xs)),
    filter-Memᴰ (λ y. not (y == x)) a (dedupe xs),
    dedupe-Memᴰ a xs,
    e.beq_iff a x,
  )

module _ {ℓ} {A : Type ℓ} (p : A → Bool) where
  -- What a search finds is an element that meets the test.
  pub find?-some : (xs : List A) {x : A} → find? p xs ≡ some x → Memᴰ x xs × (p x ≡ true)
  find?-some [] e = cc
  find?-some (y ∷ ys) {x} e = elim (Bool-cases (p y)) [
    | inl fits ↦ let q = some-injective y x (rw fits at e) in (Memᴰ.head (sym q), cc (q, fits))
    | inr other ↦ let (m, k) = find?-some ys (rw other at e) in (Memᴰ.tail m, k)
  ]

  pub find?-append_left :
      (xs ys : List A) {x : A} → find? p xs ≡ some x → find? p (xs ++ ys) ≡ some x
  find?-append_left [] ys e = cc
  find?-append_left (y ∷ xs) ys {x} e = elim (Bool-cases (p y)) [
    | inl fits ↦ rw fits (rw fits at e)
    | inr other ↦ rw other (find?-append_left xs ys (rw other at e))
  ]

  pub find?-append_new :
      (xs : List A) (x : A)
      → ((y : A) → Memᴰ y xs → p y ≡ false)
      → p x ≡ true
      → find? p (xs ++ x ∷ []) ≡ some x
  find?-append_new [] x none_fits fits = rw fits refl
  find?-append_new (y ∷ xs) x none_fits fits =
      rw (none_fits y (Memᴰ.head refl))
        (find?-append_new xs x (λ z m. none_fits z (Memᴰ.tail m)) fits)

  pub find?-map :
      (f : A → A) (xs : List A) {x : A}
      → ((y : A) → p (f y) ≡ p y)
      → find? p xs ≡ some x
      → find? p (map f xs) ≡ some (f x)
  find?-map f [] same e = cc
  find?-map f (y ∷ xs) {x} same e = elim (Bool-cases (p y)) [
    | inl fits ↦ rw (same y, fits) (ap (λ z. some (f z)) (some-injective y x (rw fits at e)))
    | inr other ↦ rw (same y, other) (find?-map f xs same (rw other at e))
  ]

  pub find?-map_back :
      (f : A → A) (xs : List A) {b : A}
      → ((y : A) → p (f y) ≡ p y)
      → find? p (map f xs) ≡ some b
      → (a : A) × (find? p xs ≡ some a) × (b ≡ f a)
  find?-map_back f [] same e = cc
  find?-map_back f (y ∷ xs) {b} same e = elim (Bool-cases (p y)) [
    | inl fits ↦ (y, rw fits refl, sym (some-injective (f y) b (rw (same y, fits) at e)))
    | inr other ↦
        let (a, found, q) = find?-map_back f xs same (rw (same y, other) at e) in
        (a, rw other found, q)
  ]

  pub any-none : (xs : List A) → ((y : A) → Memᴰ y xs → p y ≡ false) → any p xs ≡ false
  any-none [] none_fits = refl
  any-none (y ∷ xs) none_fits =
      rw (none_fits y (Memᴰ.head refl)) (any-none xs (λ z m. none_fits z (Memᴰ.tail m)))

module _ {ℓ κ} {A : Type ℓ} {B : Type κ} where
  -- An element of a mapped list is the image of one.
  pub map-Memᴰ :
      (f : A → B) (xs : List A) {b : B} → Memᴰ b (map f xs) → (a : A) × Memᴰ a xs × (b ≡ f a)
  map-Memᴰ f [] m = absurd (Memᴰ.not-nil m)
  map-Memᴰ f (x ∷ xs) (Memᴰ.head e) = (x, Memᴰ.head refl, e)
  map-Memᴰ f (x ∷ xs) (Memᴰ.tail m) = let (a, k, e) = map-Memᴰ f xs m in (a, Memᴰ.tail k, e)
