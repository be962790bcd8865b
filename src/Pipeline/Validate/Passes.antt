-- ===== src/Pipeline/Validate/Passes.antt =====
-- What it means that each part of the validation reports nothing.
use mathlib.Core.List.Memᴰ
use mathlib.Core.Option.{some-injective}
use specmate.Prelude.{
  ℕ, suc, Bool, true, false, List, [], ◌∷◌, ◌++◌, Option, none, some, ◌≡◌, ap, ◌∙◌, inl, inr, refl,
  sym, subst, arith, ◌==◌, Memᴰ, Memᴰ-cons, append-eq-nil, flat_map, find_idx_from, beq_cases,
  Option-cases, leb,
}
use specmate.Lifecycle.{TaskState, task_state_eq}
use specmate.Pipeline.Nodes.{PipelineNode, PipelineDefinition, key_of}
use specmate.Pipeline.Walk.Lookup.{keys_of, Distinct}
use specmate.Pipeline.Walk.Restart.{order_split}
use specmate.Pipeline.Validate.{Element, Problem, report, Index, index_get, index_from, not_earlier}

pub flat_map-nil :
    {A B : Type 0} (f : A → List B) (xs : List A)
    → flat_map f xs ≡ []
    → (x : A) → Memᴰ x xs
    → f x ≡ []
flat_map-nil f [] h x m = absurd (Memᴰ.not-nil m)
flat_map-nil f (y ∷ xs) h x (Memᴰ.head e) = ap f e ∙ (append-eq-nil (f y) _ h).0
flat_map-nil f (y ∷ xs) h x (Memᴰ.tail m) = flat_map-nil f xs (append-eq-nil (f y) _ h).1 x m

pub report-nil :
    (d : PipelineDefinition) (broken : Bool) (e : Element) (p : Problem)
    → report d broken e p ≡ []
    → broken ≡ false
report-nil d true e p h = cc
report-nil d false e p h = refl

-- The position of a key.
abbrev pub place : TaskState → ℕ → List TaskState → Option ℕ
place key i keys = find_idx_from (λ s. s == key) i keys

place-none :
    (key : TaskState) (i : ℕ) (keys : List TaskState) → ¬ Memᴰ key keys → place key i keys ≡ none
place-none key i [] absent = refl
place-none key i (s ∷ keys) absent = elim (beq_cases s key) [
  | inl (t, same) ↦ absurd (absent (Memᴰ.head (sym same)))
  | inr (f, other) ↦ rw f (place-none key (suc i) keys (λ m. absent (Memᴰ.tail m)))
]

pub place_some :
    (key : TaskState) (i : ℕ) (keys : List TaskState) {j : ℕ}
    → place key i keys ≡ some j
    → Memᴰ key keys
place_some key i [] h = cc
place_some key i (s ∷ keys) h = elim (beq_cases s key) [
  | inl (t, same) ↦ Memᴰ.head (sym same)
  | inr (f, other) ↦ Memᴰ.tail (place_some key (suc i) keys (rw f at h))
]

abbrev or_else : Option ℕ → Option ℕ → Option ℕ
or_else none other = other
or_else (some i) other = some i

-- Where no key repeats, the map of the first loop holds each key's position.
index_get-from :
    (key : TaskState) (i : ℕ) (index : Index) (ns : List PipelineNode)
    → Distinct (keys_of ns)
    → index_get key (index_from i index ns)
      ≡ or_else (place key i (keys_of ns)) (index_get key index)
unfolding index_from
index_get-from key i index [] distinct = refl
index_get-from key i index (n ∷ ns) (fresh, distinct) =
    let rest = index_get-from key (suc i) ((key_of n, i) ∷ index) ns distinct in
    elim (beq_cases (key_of n) key) [
      | inl (t, same) ↦
          let gone =
            place-none key (suc i) (keys_of ns)
              (λ m. fresh (subst (λ s. Memᴰ s (keys_of ns)) (sym same) m)) in
          rest ∙ rw (gone, t)
      | inr (f, other) ↦ rest ∙ rw f
    ]

pub index_get-place :
    (key : TaskState) (ns : List PipelineNode)
    → Distinct (keys_of ns)
    → index_get key (index_from 0 [] ns) ≡ place key 0 (keys_of ns)
index_get-place key ns distinct =
    index_get-from key 0 [] ns distinct
    ∙ elim (Option-cases (place key 0 (keys_of ns))) [ inl e ↦ rw e | inr (i, e) ↦ rw e ]

place_total :
    (key : TaskState) (i : ℕ) (keys : List TaskState)
    → Memᴰ key keys
    → (j : ℕ) × (place key i keys ≡ some j)
place_total key i [] m = absurd (Memᴰ.not-nil m)
place_total key i (s ∷ keys) m = elim (beq_cases s key) [
  | inl (t, same) ↦ (i, rw t)
  | inr (f, other) ↦
      let (j, e) = place_total key (suc i) keys (ground (arith, Memᴰ-cons key s keys)) in
      (j, rw f e)
]

-- `earlier` stands before `key` in the order.
abbrev pub StandsBefore : TaskState → TaskState → List TaskState → Type 0
StandsBefore earlier key keys =
    (front back : List TaskState) × (keys ≡ front ++ earlier ∷ back) × Memᴰ key back

amid-Memᴰ : (s : TaskState) (front back : List TaskState) → Memᴰ s (front ++ s ∷ back)
amid-Memᴰ s [] back = Memᴰ.head refl
amid-Memᴰ s (x ∷ front) back = Memᴰ.tail (amid-Memᴰ s front back)

pub StandsBefore-Memᴰ :
    (earlier key : TaskState) (keys : List TaskState)
    → StandsBefore earlier key keys
    → Memᴰ earlier keys
StandsBefore-Memᴰ earlier key keys (front, back, e, m) =
    subst (Memᴰ earlier) (sym e) (amid-Memᴰ earlier front back)

pub not_earlier-StandsBefore :
    (target key : TaskState) (ns : List PipelineNode) (to : ℕ)
    → Distinct (keys_of ns)
    → Memᴰ key (keys_of ns)
    → index_get target (index_from 0 [] ns) ≡ some to
    → not_earlier to (index_get key (index_from 0 [] ns)) ≡ false
    → StandsBefore target key (keys_of ns)
not_earlier-StandsBefore target key ns to distinct m t h =
    let keys = keys_of ns in
    let at_target : place target 0 keys ≡ some to = sym (index_get-place target ns distinct) ∙ t in
    let (j, at_key) = place_total key 0 keys m in
    let found : index_get key (index_from 0 [] ns) ≡ some j =
      index_get-place key ns distinct ∙ at_key in
    let later : leb j to ≡ false = rw found at h in
    let (front, back, split, _, onward) =
      order_split target key 0 keys at_target at_key (ground arith) in
    elim (Memᴰ.cases_cons onward) [
      | inl same ↦
          let one_place : some to ≡ some j =
            sym at_target ∙ subst (λ s. place s 0 keys ≡ some j) same at_key in
          absurd (ground (arith, some-injective to j one_place))
      | inr after ↦ (front, back, split, after)
    ]
