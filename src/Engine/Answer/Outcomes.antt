-- ===== src/Engine/Answer/Outcomes.antt =====
-- What answering a decision leaves of its task: apps/orchestrator/src/engine.ts.
use specmate.Prelude.{
  ℕ, Bool, true, false, not, ◌&&◌, List, map, any, find?, Option, none, some, is_some, String, ◌==◌,
  nat_eq, string_eq, if◌then◌else◌, Result, ok, err, ◌>>=◌, >>=-eq-ok, ok-injective, ◌≡◌, refl, sym,
  ◌∙◌, subst, ap, arith, Memᴰ, Bool-cases, Option-cases, Result-cases, inl, inr,
}
use specmate.Lifecycle.{is_terminal, blocked, Budgets}
use specmate.Budget.{BudgetKey, Spend}
use specmate.Decisions.{StoredDecision, is_open, blocking_open}
use specmate.Pipeline.Nodes.{PinnedGraph}
use specmate.Pipeline.Walk.Lookup.{keys_of}
use specmate.Engine.Raise.Unique.{AtMostOne}
use specmate.PlanChoice.{plan_choice_for, split_creates_work}
use specmate.Engine.State.{World, EngineError}
use specmate.Engine.Transition.{apply_transition}
use specmate.Engine.Resolve.{
  ResolutionInput, by_answer, resolve_decision, is_coverage_decision, is_budget_decision, has_id,
  given, trimmed, waive_harness_status,
}
use specmate.Engine.Gates.{by_actor, cancel}
use specmate.Engine.Spending.{raise_budget}
use specmate.Engine.Settled.{is_stopped, Routes, IsSettled, apply_transition-moving}
use specmate.Engine.Settled.Owner.{cancel-IsSettled}
use specmate.Engine.Settled.Decided.{resolve_decision-IsSettled}
use specmate.Engine.Settled.Runs.{raise_budget-IsSettled}
use specmate.Engine.Settled.Blocked.{blocked_moves}
use specmate.Engine.Answer.{
  Planned, is_task, NewTask, committed, committed_tasks, new_tasks, id_of, proposals_of,
  create_planned_prerequisites, apply_coverage_choice, is_offered, budget_to_raise, is_cancel,
  is_raised, read_value, answer_raise, chosen, answer_plainly, answer_found, answer,
}

committed-IsSettled :
    (w : World) (r : Result EngineError World)
    → IsSettled w
    → ((after : World) → r ≡ ok after → IsSettled after)
    → IsSettled (committed w r).world
committed-IsSettled w (ok after) settled lands = lands after refl
committed-IsSettled w (err e) settled lands = settled

committed_tasks-IsSettled :
    (w : World) (r : Result EngineError (World × List NewTask))
    → IsSettled w
    → ((after : World) (made : List NewTask) → r ≡ ok (after, made) → IsSettled after)
    → IsSettled (committed_tasks w r).world
committed_tasks-IsSettled w (ok (after, made)) settled lands = lands after made refl
committed_tasks-IsSettled w (err e) settled lands = settled

-- A task that differs in nothing that is asked of a settled one.
alike-IsSettled :
    (w u : World)
    → u.task.status ≡ w.task.status
    → u.task.resume_status ≡ w.task.resume_status
    → u.decisions ≡ w.decisions
    → u.graph ≡ w.graph
    → IsSettled w
    → IsSettled u
alike-IsSettled w u status resume rows graph settled = record {
  parked = λ e. ap blocking_open rows ∙ settled.parked (sym status ∙ e);
  resumes = λ s.
      let (to, kept, key) = settled.resumes (ap is_stopped (sym status) ∙ s) in
      (to, resume ∙ kept, subst (λ (g : PinnedGraph). Memᴰ to (keys_of g.nodes)) (sym graph) key);
  closed = λ t. ap (any is_open) rows ∙ settled.closed (ap is_terminal (sym status) ∙ t);
  unique = subst AtMostOne (sym rows) settled.unique;
  routes = subst (λ (g : PinnedGraph). Routes g) (sym graph) settled.routes;
}

waive_harness_status-alike :
    (w : World)
    → ((waive_harness_status w).task.status ≡ w.task.status)
      × ((waive_harness_status w).task.resume_status ≡ w.task.resume_status)
      × ((waive_harness_status w).decisions ≡ w.decisions)
      × ((waive_harness_status w).graph ≡ w.graph)
unfolding waive_harness_status
waive_harness_status-alike w = ground arith

waive_harness_status-IsSettled : (w : World) → IsSettled w → IsSettled (waive_harness_status w)
waive_harness_status-IsSettled w settled =
    let (status, resume, rows, graph) = waive_harness_status-alike w in
    alike-IsSettled w (waive_harness_status w) status resume rows graph settled

module _ (mint : ℕ → String) where
  create_planned_prerequisites-IsSettled :
      (w after : World) (planned : Planned) (actor : String) (made : List NewTask)
      → IsSettled w
      → create_planned_prerequisites mint w planned actor ≡ ok (after, made)
      → IsSettled after
  unfolding create_planned_prerequisites
  create_planned_prerequisites-IsSettled w after planned actor made settled h =
      let choice = plan_choice_for w.task.caps planned.plan_depth planned.assessment planned.plan in
      let asked = new_tasks mint planned 0 (proposals_of planned choice) in
      let blocking = record w { task = record w.task { blocked_by = map id_of asked } } in
      elim (Bool-cases (split_creates_work choice)) [
        | inr nothing ↦
            subst (λ (r : World × List NewTask). IsSettled r.0) (ok-injective (rw nothing at h))
              settled
        | inl works ↦ elim (Bool-cases (any (is_task planned.task_id) asked)) [
          | inl itself ↦ cc (rw (works, itself) at h)
          | inr others ↦
              let (moved_world, moves, ends) =
                >>=-eq-ok
                  (apply_transition blocking w.graph w.task.status blocked
                    (by_actor "harness_split" actor))
                  (λ u. ok (u, asked)) (rw (works, others) at h) in
              subst (λ (r : World × List NewTask). IsSettled r.0) (ok-injective ends)
                (apply_transition-moving blocking moved_world w.graph w.task.status blocked _
                  settled.unique settled.routes blocked_moves moves)
        ]
      ]

  apply_coverage_choice-IsSettled :
      (w : World) (planned : Planned) (actor option_id : String)
      → IsSettled w
      → IsSettled (apply_coverage_choice mint w planned actor option_id).world
  unfolding apply_coverage_choice
  apply_coverage_choice-IsSettled w planned actor option_id settled =
      elim (Bool-cases (option_id == "proceed")) [
        | inl proceeds ↦ rw proceeds (waive_harness_status-IsSettled w settled)
        | inr other ↦ elim (Bool-cases (option_id == "split")) [
          | inl splits ↦
              rw (other, splits)
                (committed_tasks-IsSettled w (create_planned_prerequisites mint w planned actor)
                  settled
                  (λ after made h.
                    create_planned_prerequisites-IsSettled w after planned actor made settled h))
          | inr neither ↦ elim (Bool-cases (option_id == "cancel")) [
            | inl cancels ↦
                rw (other, neither, cancels)
                  (committed-IsSettled w (cancel w actor) settled
                    (λ after h. cancel-IsSettled w after actor settled h))
            | inr nothing ↦ rw (other, neither, nothing) settled
          ]
        ]
      ]

module _ (trim : String → String) (prompt : Spend → Budgets → List BudgetKey → String)
    (number : BudgetKey → String → Option ℕ) (mint : ℕ → String) where
  raised-IsSettled :
      (w raised after : World) (id : ℕ) (actor : String) (input : ResolutionInput) (resumes : Bool)
      → IsSettled raised
      → (if resumes then resolve_decision trim raised id actor by_answer input else ok raised)
        ≡ ok after
      → IsSettled after
  raised-IsSettled w raised after id actor input true settled h =
      resolve_decision-IsSettled trim raised after id actor by_answer input settled h
  raised-IsSettled w raised after id actor input false settled h =
      subst (λ (u : World). IsSettled u) (ok-injective h) settled

  answer_raise-IsSettled :
      (w : World) (id : ℕ) (actor : String) (input : ResolutionInput) (budget : BudgetKey)
      (value : Option ℕ)
      → IsSettled w
      → IsSettled (answer_raise trim prompt number mint w id actor input budget value).world
  unfolding answer_raise
  answer_raise-IsSettled w id actor input budget none settled = settled
  answer_raise-IsSettled w id actor input budget (some value) settled =
      committed-IsSettled w
        (raise_budget prompt w actor budget value >>= λ u.
          if is_raised w budget value
          then resolve_decision trim u id actor by_answer input
          else ok u)
        settled
        λ after h.
          let (raised, made, ends) =
            >>=-eq-ok (raise_budget prompt w actor budget value)
              (λ u.
                if is_raised w budget value
                then resolve_decision trim u id actor by_answer input
                else ok u)
              h in
          raised-IsSettled w raised after id actor input (is_raised w budget value)
            (raise_budget-IsSettled prompt w raised actor budget value settled made) ends

  chosen-IsSettled :
      (w : World) (planned : Planned) (d : StoredDecision) (actor : String) (option : Option String)
      → IsSettled w
      → IsSettled (chosen trim prompt number mint w planned d actor option).world
  chosen-IsSettled w planned d actor none settled = settled
  chosen-IsSettled w planned d actor (some option_id) settled =
      elim (Bool-cases (is_coverage_decision d)) [
        | inl covers ↦
            rw covers (apply_coverage_choice-IsSettled mint w planned actor option_id settled)
        | inr other ↦ rw other settled
      ]

  answer_plainly-IsSettled :
      (w : World) (planned : Planned) (d : StoredDecision) (actor : String)
      (input : ResolutionInput)
      → IsSettled w
      → IsSettled (answer_plainly trim prompt number mint w planned d actor input).world
  unfolding answer_plainly
  answer_plainly-IsSettled w planned d actor input settled =
      elim (Bool-cases (is_budget_decision d && is_cancel input.option_id)) [
        | inl cancels ↦ rw cancels (
            committed-IsSettled w
              (resolve_decision trim w d.id actor by_answer input >>= λ u. cancel u actor) settled
              λ after h.
                let (answered, made, ends) =
                  >>=-eq-ok (resolve_decision trim w d.id actor by_answer input)
                    (λ u. cancel u actor) h in
                cancel-IsSettled answered after actor
                  (resolve_decision-IsSettled trim w answered d.id actor by_answer input settled
                    made)
                  ends)
        | inr other ↦ elim (Result-cases (resolve_decision trim w d.id actor by_answer input)) [
          | inr (e, failed) ↦ rw (other, failed) settled
          | inl (answered, made) ↦
              rw (other, made)
                (chosen-IsSettled answered planned d actor (given input.option_id) (
                  resolve_decision-IsSettled trim w answered d.id actor by_answer input settled
                    made))
        ]
      ]

  answer_found-IsSettled :
      (w : World) (planned : Planned) (d : StoredDecision) (actor : String)
      (input : ResolutionInput)
      → IsSettled w
      → IsSettled (answer_found trim prompt number mint w planned d actor input).world
  unfolding answer_found
  answer_found-IsSettled w planned d actor input settled =
      elim (Bool-cases (is_budget_decision d && not (is_offered d input.option_id))) [
        | inl a ↦ rw a settled
        | inr b ↦
            elim (Bool-cases (
              is_coverage_decision d
              && (is_some (given input.option_id) && not (is_offered d input.option_id)))) [
                | inl a ↦ rw (b, a) settled
                | inr c ↦ elim (Option-cases (budget_to_raise d input)) [
                  | inl plain ↦
                      rw (b, c, plain) (answer_plainly-IsSettled w planned d actor input settled)
                  | inr (budget, raises) ↦
                      rw (b, c, raises)
                        (answer_raise-IsSettled w d.id actor input budget
                          (read_value (number budget) (given input.text)) settled)
                ]
              ]
      ]

  -- Whatever an answer does, refuses or breaks off in the middle of, the rows that it leaves are those of
  -- a settled task, if they were before.
  pub answer-IsSettled :
      (w : World) (planned : Planned) (id : ℕ) (actor : String) (input : ResolutionInput)
      → IsSettled w
      → IsSettled (answer trim prompt number mint w planned id actor input).world
  unfolding answer
  answer-IsSettled w planned id actor input settled =
      elim (Bool-cases
        (not (is_some (trimmed trim input.text)) && not (is_some (given input.option_id)))) [
          | inl silent ↦ rw silent settled
          | inr said ↦ elim (Option-cases (find? (has_id id) w.decisions)) [
            | inl missing ↦ rw (said, missing) settled
            | inr (d, found) ↦
                rw (said, found) (answer_found-IsSettled w planned d actor input settled)
          ]
        ]
