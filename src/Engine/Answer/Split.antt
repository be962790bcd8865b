-- ===== src/Engine/Answer/Split.antt =====
-- The tasks that a split makes: `createPlannedPrerequisites` of apps/orchestrator/src/engine.ts.
use specmate.Prelude.{
  max, ℕ, suc, ◌+◌, ◌≤◌, ◌<◌, true, false, List, [], ◌∷◌, map, any, take, length, length-take,
  is_empty, ltb, ltb_iff, String, ok, >>=-eq-ok, ok-injective, if◌then◌else◌, ◌≡◌, refl, sym, ap,
  subst, arith, Bool-cases, inl, inr, ◌⊎◌,
}
use specmate.Lifecycle.{TaskState, is_terminal, blocked, Caps}
use specmate.Results.{PlanPrerequisite}
use specmate.PlanChoice.{plan_choice_for, split_creates_work, proposed_of}
use specmate.Engine.State.{World}
use specmate.Engine.Transition.{MoveOptions, moved, apply_transition}
use specmate.Engine.Gates.{by_actor}
use specmate.Engine.Settled.{apply_transition-moved, moved-task}
use specmate.Engine.Answer.{
  Planned, NewTask, new_tasks, id_of, is_task, proposals_of, harness_fallback,
  create_planned_prerequisites,
}

or_one-length {ℓ} :
    {A : Type ℓ} (x : A) (n : ℕ) (xs : List A)
    → length xs ≤ n
    → (0 < length (if is_empty xs then x ∷ [] else xs))
      × (length (if is_empty xs then x ∷ [] else xs) ≤ max 1 n)
or_one-length x n [] few = (omega arith, omega arith)
or_one-length x n (y ∷ ys) few = (omega arith, omega (arith, few))

module _ (mint : ℕ → String) where
  abbrev AllDeeper : Planned → List NewTask → Type 0
  AllDeeper planned [] = Unit
  AllDeeper planned (task ∷ tasks) =
      ((task.plan_depth ≡ planned.plan_depth + 1) × (task.origin_task_id ≡ planned.task_id))
      × AllDeeper planned tasks

  new_tasks-AllDeeper :
      (planned : Planned) (n : ℕ) (ps : List PlanPrerequisite)
      → AllDeeper planned (new_tasks mint planned n ps)
  new_tasks-AllDeeper planned n [] = tt
  new_tasks-AllDeeper planned n (p ∷ ps) = ((refl, refl), new_tasks-AllDeeper planned (suc n) ps)

  length-new_tasks :
      (planned : Planned) (n : ℕ) (ps : List PlanPrerequisite)
      → length (new_tasks mint planned n ps) ≡ length ps
  length-new_tasks planned n [] = refl
  length-new_tasks planned n (p ∷ ps) = ap suc (length-new_tasks planned (suc n) ps)

  -- What a split that makes tasks leaves.
  pub record IsSplit (w after : World) (planned : Planned) (made : List NewTask) : Type 0 where
    pub waits : after.task.status ≡ blocked
    pub blockers : after.task.blocked_by ≡ map id_of made
    pub some_made : 0 < length made
    pub few : length made ≤ max 1 w.task.caps.max_prerequisite_tasks
    pub deeper : AllDeeper planned made
    pub shallow : planned.plan_depth + 1 ≤ w.task.caps.max_plan_depth
    pub apart : any (is_task planned.task_id) made ≡ false

  moved-blocked_by :
      (w : World) (source to : TaskState) (opts : MoveOptions)
      → (moved w source to opts).task.blocked_by ≡ w.task.blocked_by
  unfolding moved
  moved-blocked_by w source to opts = elim (Bool-cases (is_terminal to)) [
    | inl ends ↦ rw ends refl
    | inr goes ↦ rw goes refl
  ]

  -- A plan is split while it is above the depth cap, into one task at least.
  split_creates_work-splittable :
      (caps : Caps) (planned : Planned)
      → let choice = plan_choice_for caps planned.plan_depth planned.assessment planned.plan in
        split_creates_work choice ≡ true
        → (planned.plan_depth < caps.max_plan_depth)
          × (0 < length (proposals_of planned choice))
          × (length (proposals_of planned choice) ≤ max 1 caps.max_prerequisite_tasks)
  unfolding plan_choice_for split_creates_work
  split_creates_work-splittable caps planned works =
      elim (Bool-cases (ltb planned.plan_depth caps.max_plan_depth)) [
        | inr deep ↦ cc (rw deep at works)
        | inl above ↦
            let taken = take caps.max_prerequisite_tasks (proposed_of planned.plan) in
            let (one, few) =
              or_one-length (harness_fallback planned) caps.max_prerequisite_tasks taken
                (length-take caps.max_prerequisite_tasks (proposed_of planned.plan)) in
            ((ltb_iff planned.plan_depth caps.max_plan_depth).0 above, rw above one, rw above few)
      ]

  made-IsSplit :
      (w : World) (planned : Planned) (opts : MoveOptions) (ps : List PlanPrerequisite)
      → any (is_task planned.task_id) (new_tasks mint planned 0 ps) ≡ false
      → (planned.plan_depth < w.task.caps.max_plan_depth)
        × (0 < length ps)
        × (length ps ≤ max 1 w.task.caps.max_prerequisite_tasks)
      → let made = new_tasks mint planned 0 ps in
        IsSplit w
          (moved
            (record w { task = record w.task { blocked_by = map id_of made } })
            w.task.status
            blocked
            opts)
          planned
          made
  made-IsSplit w planned opts ps others (above, one, few) =
      let made = new_tasks mint planned 0 ps in
      let blocking = record w { task = record w.task { blocked_by = map id_of made } } in
      let (at_blocked, _, _) = moved-task blocking w.task.status blocked opts in
      let count = length-new_tasks planned 0 ps in
      record {
        waits = at_blocked;
        blockers = moved-blocked_by blocking w.task.status blocked opts;
        some_made = omega (arith, count, one);
        few = omega (arith, count, few);
        deeper = new_tasks-AllDeeper planned 0 ps;
        shallow = omega (arith, above);
        apart = others;
      }

  -- A split makes nothing and leaves the rows as they are; or the task waits for the tasks that it made,
  -- one at least, as many as the cap on them at most unless that is zero, each one level deeper and no
  -- deeper than the cap, and none of them itself.
  pub create_planned_prerequisites-IsSplit :
      (w after : World) (planned : Planned) (actor : String) (made : List NewTask)
      → create_planned_prerequisites mint w planned actor ≡ ok (after, made)
      → ((made ≡ []) × (after ≡ w)) ⊎ IsSplit w after planned made
  unfolding create_planned_prerequisites
  create_planned_prerequisites-IsSplit w after planned actor made h =
      let choice = plan_choice_for w.task.caps planned.plan_depth planned.assessment planned.plan in
      let proposals = proposals_of planned choice in
      let asked = new_tasks mint planned 0 proposals in
      let blocking = record w { task = record w.task { blocked_by = map id_of asked } } in
      let opts = by_actor "harness_split" actor in
      elim (Bool-cases (split_creates_work choice)) [
        | inr nothing ↦
            let e = ok-injective (rw nothing at h) in
            inl (
              ap (λ (r : World × List NewTask). r.1) (sym e),
              ap (λ (r : World × List NewTask). r.0) (sym e),
            )
        | inl works ↦ elim (Bool-cases (any (is_task planned.task_id) asked)) [
          | inl itself ↦ cc (rw (works, itself) at h)
          | inr others ↦
              let (there, moves, ends) =
                >>=-eq-ok (apply_transition blocking w.graph w.task.status blocked opts)
                  (λ u. ok (u, asked)) (rw (works, others) at h) in
              let (landed, _, _) =
                apply_transition-moved blocking there w.graph w.task.status blocked opts moves in
              inr (
                subst (λ (r : World × List NewTask). IsSplit w r.0 planned r.1) (ok-injective ends)
                  (subst (λ (u : World). IsSplit w u planned asked) (sym landed)
                    (made-IsSplit w planned opts proposals others
                      (split_creates_work-splittable w.task.caps planned works))))
        ]
      ]
