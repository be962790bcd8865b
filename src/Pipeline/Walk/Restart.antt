-- ===== src/Pipeline/Walk/Restart.antt =====
-- Restarts after a failure: what `isRestartable` lets a task re-enter.
use mathlib.Core.List.Memᴰ
use mathlib.Core.Option.{some-injective}
use specmate.Prelude.{
  beq_refl, leb_iff, ◌↔◌, ℕ, suc, ◌≤◌, true, List, [], ◌∷◌, ◌++◌, some, ◌≡◌, ap, inl, inr, refl,
  sym, subst, arith, Memᴰ, Memᴰ-cons, ok, ◌==◌, Option-cases, beq_cases, find_idx_from,
}
use specmate.Lifecycle.{TaskState, task_state_eq, cancelled, failed}
use specmate.Pipeline.Nodes.{PinnedGraph}
use specmate.Pipeline.Walk.{base_table, stage_node_keys, can_transition, is_restartable, index_of}
use specmate.Pipeline.Walk.Lookup.{keys_of, Distinct}
use specmate.Pipeline.Walk.Legal.{can_transition-Allowed}

index_of_bound :
    (s : TaskState) (k : ℕ) (order : List TaskState) {i : ℕ}
    → find_idx_from (λ x. x == s) k order ≡ some i
    → (k ≤ i) × Memᴰ s order
index_of_bound s k [] e = cc
index_of_bound s k (x ∷ order) e = elim (beq_cases x s) [
  | inl (t, same) ↦ ground (arith, Memᴰ-cons s x order)
  | inr (f, other) ↦
      let (later, m) = index_of_bound s (suc k) order (rw f at e) in (omega arith, Memᴰ.tail m)
]

-- `to` stands at the first `target` of the order or after it.
abbrev pub FromOn : TaskState → TaskState → List TaskState → Type 0
FromOn target to order =
    (earlier later : List TaskState) × (order ≡ earlier ++ target ∷ later)
    × (¬ Memᴰ to earlier)
    × Memᴰ to (target ∷ later)

pub order_split :
    (target to : TaskState) (k : ℕ) (order : List TaskState) {i j : ℕ}
    → find_idx_from (λ x. x == target) k order ≡ some i
    → find_idx_from (λ x. x == to) k order ≡ some j
    → i ≤ j
    → FromOn target to order
order_split target to k [] e f h = cc
order_split target to k (x ∷ order) {i} {j} e f h = elim (beq_cases x target) [
  | inl (t, same) ↦ (
    [],
    order,
    rw same,
    Memᴰ.not-nil,
    subst (λ y. Memᴰ to (y ∷ order)) same (index_of_bound to k (x ∷ order) f).1,
  )
  | inr (differs, _) ↦
      let after = rw differs at e in
      elim (beq_cases x to) [
        | inl (t, _) ↦ absurd (
            omega
              (arith, index_of_bound target (suc k) order after, some-injective k j (rw t at f)))
        | inr (g, other) ↦
            let (earlier, later, split, absent, m) =
              order_split target to (suc k) order after (rw g at f) h in
            (
              x ∷ earlier,
              later,
              ap (λ ss. x ∷ ss) split,
              λ n. elim ((Memᴰ-cons to x earlier).0 n) [
                | inl e' ↦ other (sym e')
                | inr n' ↦ absent n'
              ],
              m,
            )
      ]
]

-- What is in the order has an index there.
index_of_found :
    (s : TaskState) (k : ℕ) (order : List TaskState)
    → Memᴰ s order
    → (i : ℕ) × (find_idx_from (λ x. x == s) k order ≡ some i) × (k ≤ i)
index_of_found s k [] m = absurd (Memᴰ.not-nil m)
index_of_found s k (x ∷ order) m = elim (beq_cases x s) [
  | inl (t, same) ↦ (k, rw t refl, omega arith)
  | inr (f, other) ↦ elim ((Memᴰ-cons s x order).0 m) [
    | inl e ↦ absurd (other (sym e))
    | inr later ↦
        let (i, found, above) = index_of_found s (suc k) order later in
        (i, rw f found, omega (arith, above))
  ]
]

split_order :
    (target to : TaskState) (k : ℕ) (earlier later : List TaskState)
    → ¬ Memᴰ to earlier
    → Memᴰ to (target ∷ later)
    → (i j : ℕ) × (find_idx_from (λ x. x == target) k (earlier ++ target ∷ later) ≡ some i)
      × (find_idx_from (λ x. x == to) k (earlier ++ target ∷ later) ≡ some j)
      × (i ≤ j)
split_order target to k [] later absent m =
    let (j, found, above) = index_of_found to k (target ∷ later) m in
    (k, j, rw (beq_refl target) refl, found, above)
split_order target to k (x ∷ earlier) later absent m =
    let (i, j, at_target, at_to, le) =
      split_order target to (suc k) earlier later (λ n. absent (Memᴰ.tail n)) m in
    elim (beq_cases x to) [
      | inl (t, same) ↦ absurd (absent (Memᴰ.head (sym same)))
      | inr (g, _) ↦ elim (beq_cases x target) [
        | inl (t, same) ↦ (
          k,
          j,
          rw t refl,
          rw g at_to,
          ground (arith, (index_of_bound to (suc k) (earlier ++ target ∷ later) at_to).0),
        )
        | inr (f, _) ↦ (i, j, rw f at_target, rw g at_to, le)
      ]
    ]

-- A restart re-enters the stage that failed, or a stage before it in the walking order.
pub is_restartable-FromOn :
    (graph : PinnedGraph) (target failed_at : TaskState)
    → is_restartable graph target failed_at ≡ true
    → FromOn target failed_at (stage_node_keys graph)
unfolding is_restartable
is_restartable-FromOn graph target failed_at h =
    let order = stage_node_keys graph in
    elim (Option-cases (index_of target order)) [
      | inl e ↦ absurd (ground arith)
      | inr (i, e) ↦ elim (Option-cases (index_of failed_at order)) [
        | inl f ↦ absurd (ground arith)
        | inr (j, f) ↦ order_split target failed_at 0 order e f (ground arith)
      ]
    ]

FromOn-is_restartable :
    (graph : PinnedGraph) (target failed_at : TaskState)
    → FromOn target failed_at (stage_node_keys graph)
    → is_restartable graph target failed_at ≡ true
unfolding is_restartable
FromOn-is_restartable graph target failed_at (earlier, later, split, absent, m) =
    let (i, j, at_target, at_failed, le) = split_order target failed_at 0 earlier later absent m in
    rw (split, at_target, at_failed) (ground (arith, leb_iff i j, le))

-- On a graph whose keys are distinct and do not have `failed` among them, a task may be restarted at a
-- target exactly where that is one of its stages, the one that failed or one before it in the walking
-- order, and `canTransition` allows the move out of `failed`.
pub is_restartable-can_transition :
    (graph : PinnedGraph) (target failed_at : TaskState)
    → Distinct (keys_of graph.nodes)
    → ¬ Memᴰ failed (keys_of graph.nodes)
    → (is_restartable graph target failed_at ≡ true) ↔ (
        FromOn target failed_at (stage_node_keys graph)
        × (can_transition graph failed target ≡ ok true))
unfolding base_table
is_restartable-can_transition graph target failed_at distinct absent = (
  λ h.
      let (earlier, later, split, before, reached) =
        is_restartable-FromOn graph target failed_at h in
      let m = subst (Memᴰ target) (sym split) (Memᴰ.append_right earlier (Memᴰ.head refl)) in
      (
        (earlier, later, split, before, reached),
        can_transition-Allowed graph failed target distinct
            (inr (inl (inr (absent, Memᴰ.append_left (cancelled ∷ []) m)))),
      ),
  λ (from_on, legal). FromOn-is_restartable graph target failed_at from_on,
)
