-- ===== src/Engine/Plan/Recorded.antt =====
-- What a planning stage leaves in the rows: `recordPlanOutcome` of apps/orchestrator/src/store.ts.
use specmate.Prelude.{
  true, false, not, ◌&&◌, any, Option, none, some, String, ◌==◌, nat_eq, string_eq, if◌then◌else◌,
  ok, ◌≡◌, ◌≢◌, ◌⊎◌, ◌↔◌, refl, sym, ◌∙◌, ap, arith, Bool-cases, inl, inr,
}
use specmate.Lifecycle.{task_state_eq}
use specmate.Pipeline.Catalog.{definition_for_size}
use specmate.Results.{PlanShape, HarnessCoverageAssessment}
use specmate.PlanChoice.{PlanChoice, needs_plan_choice}
use specmate.Engine.State.{World}
use specmate.Engine.Raise.{attach_to_open_decision, inserted}
use specmate.Engine.Raise.Unique.{raise_decision-cases}
use specmate.Engine.Plan.{
  PlanRow, PlanResult, is_adequate, is_settled_card, dismiss_coverage_decision, choice_of,
  choice_insert, planned_world, with_plan, record_plan_outcome,
}
use specmate.Engine.Plan.Asks.{is_asked, record_plan_outcome-asks}
use specmate.Engine.Plan.Choice.{IsShort, Proposes, needs_plan_choice_iff}
use specmate.Engine.Plan.Keeps.{Kept, dismiss_coverage_decision-Kept, attach-Kept, inserted-Kept}
use specmate.Engine.Plan.Inherits.{recorded_status, planned_world-IsInherited}

-- The rows after a planning stage, of the rows before it and of what the stage returned.
pub record IsRecorded (w : World) (row : PlanRow) (result : PlanResult) (after : World)
    (saved : PlanRow) : Type 0 where
  pub asked :
      (is_asked after ≡ true)
      ↔ ((IsShort result.assessment × (w.waiver ≡ false)) ⊎ Proposes result.plan)
  pub task : after.task ≡ record w.task {
    harness_status = recorded_status w.waiver result.assessment w.task.harness_status;
  }
  pub waiver : after.waiver ≡ (w.waiver && not (is_adequate result.assessment))
  pub settled :
      IsShort result.assessment → w.waiver ≡ true → any is_settled_card after.decisions ≡ true
  pub undeclared :
      result.plan ≡ none
      → (saved.title ≡ row.title) × (saved.type ≡ row.type) × (saved.plan_size ≡ row.plan_size)
  pub declared : (plan : PlanShape) → result.plan ≡ some plan → saved.title ≡ plan.title
  pub sized :
      (plan : PlanShape)
      → result.plan ≡ some plan
      → (definition_for_size row.type plan.size).id ≡ result.running
      → saved.plan_size ≡ some plan.size
  pub unsized :
      (plan : PlanShape)
      → result.plan ≡ some plan
      → (definition_for_size row.type plan.size).id ≢ result.running
      → saved.plan_size ≡ row.plan_size
  pub retyped :
      (plan : PlanShape)
      → result.plan ≡ some plan
      → (definition_for_size plan.type plan.size).id ≡ result.running
      → saved.type ≡ plan.type
  pub pinned :
      (plan : PlanShape)
      → result.plan ≡ some plan
      → (definition_for_size plan.type plan.size).id ≢ result.running
      → saved.type ≡ row.type

-- A name, a type or a size of a declared plan, where it applies.
same_running : (a b : String) → a ≡ b → (a == b) ≡ true
same_running a b e = (string_eq.beq_iff a b).1 e

other_running : (a b : String) → a ≢ b → (a == b) ≡ false
other_running a b apart = ground (arith, string_eq.beq_iff a b, apart)

with_plan-sized :
    (row : PlanRow) (result : PlanResult) (plan : PlanShape)
    → (definition_for_size row.type plan.size).id ≡ result.running
    → (with_plan row result (some plan)).plan_size ≡ some plan.size
with_plan-sized row result plan e =
    ap (λ b. if b then some plan.size else row.plan_size)
      (same_running (definition_for_size row.type plan.size).id result.running e)

with_plan-retyped :
    (row : PlanRow) (result : PlanResult) (plan : PlanShape)
    → (definition_for_size plan.type plan.size).id ≡ result.running
    → (with_plan row result (some plan)).type ≡ plan.type
with_plan-retyped row result plan e =
    ap (λ b. if b then plan.type else row.type)
      (same_running (definition_for_size plan.type plan.size).id result.running e)

with_plan-pinned :
    (row : PlanRow) (result : PlanResult) (plan : PlanShape)
    → (definition_for_size plan.type plan.size).id ≢ result.running
    → (with_plan row result (some plan)).type ≡ row.type
with_plan-pinned row result plan apart =
    ap (λ b. if b then plan.type else row.type)
      (other_running (definition_for_size plan.type plan.size).id result.running apart)

with_plan-unsized :
    (row : PlanRow) (result : PlanResult) (plan : PlanShape)
    → (definition_for_size row.type plan.size).id ≢ result.running
    → (with_plan row result (some plan)).plan_size ≡ row.plan_size
with_plan-unsized row result plan apart =
    ap (λ b. if b then some plan.size else row.plan_size)
      (other_running (definition_for_size row.type plan.size).id result.running apart)

module _ (inherited_prompt : HarnessCoverageAssessment → String → String)
    (prompt : PlanChoice → String) where
  record_plan_outcome-Kept :
      (w : World) (row : PlanRow) (result : PlanResult)
      → (r : World × PlanRow) × (record_plan_outcome inherited_prompt prompt w row result ≡ ok r)
        × Kept (planned_world inherited_prompt prompt w row result) r.0
        × (r.1 ≡ with_plan row result result.plan)
  unfolding record_plan_outcome
  record_plan_outcome-Kept w row result =
      let choice = choice_of inherited_prompt prompt w row result in
      let planned = planned_world inherited_prompt prompt w row result in
      let saved = with_plan row result result.plan in
      let stage = some result.stage_id in
      let input = choice_insert inherited_prompt prompt choice in
      elim (Bool-cases (needs_plan_choice choice)) [
        | inr settled ↦ (
          (dismiss_coverage_decision planned "system", saved),
          rw settled refl,
          dismiss_coverage_decision-Kept planned "system",
          refl,
        )
        | inl open_question ↦ elim (raise_decision-cases planned stage input) [
          | inl (d, m, fits, e) ↦ (
            (attach_to_open_decision planned stage d input, saved),
            rw (open_question, e) refl,
            attach-Kept planned stage d input,
            refl,
          )
          | inr (free, e) ↦ (
            (inserted planned stage input, saved),
            rw (open_question, e) refl,
            inserted-Kept planned stage input,
            refl,
          )
        ]
      ]

  -- What a planning stage found is recorded, never refused. The owner then has the card on coverage open
  -- exactly where coverage fell short and nobody has accepted that for the repository, or where the plan
  -- proposes work to do first. The task, of which nothing else changes, takes the class that was found,
  -- or counts as waived where a gap was accepted, and a settled card then shows it; adequate coverage ends
  -- the acceptance. A declared plan gives its title; it gives its size where that, with the type of the
  -- task, leads to the definition that runs, and its type where that and its size do, and otherwise size
  -- and type stand. Where no plan is declared all three stand.
  pub record_plan_outcome-IsRecorded :
      (w : World) (row : PlanRow) (result : PlanResult)
      → (r : World × PlanRow) × (record_plan_outcome inherited_prompt prompt w row result ≡ ok r)
        × IsRecorded w row result r.0 r.1
  record_plan_outcome-IsRecorded w row result =
      let (r, e, kept, written) = record_plan_outcome-Kept w row result in
      let planned = planned_world-IsInherited inherited_prompt prompt w row result in
      let (to_need, of_need) = needs_plan_choice_iff inherited_prompt prompt w row result in
      let asks = record_plan_outcome-asks inherited_prompt prompt w r.0 row r.1 result e in
      let from =
        λ (p : Option PlanShape) (q : result.plan ≡ p). written ∙ ap (with_plan row result) q in
      (
        r,
        e,
        record {
          asked = ((λ h. to_need (sym asks ∙ h)), λ need. asks ∙ of_need need);
          task = kept.task ∙ planned.task;
          waiver = kept.waiver ∙ planned.waiver;
          settled = λ gap accepted. kept.settled (planned.settled gap accepted);
          undeclared = λ q. (
            ap (λ (k : PlanRow). k.title) (from none q),
            ap (λ (k : PlanRow). k.type) (from none q),
            ap (λ (k : PlanRow). k.plan_size) (from none q),
          );
          declared = λ plan q. ap (λ (k : PlanRow). k.title) (from (some plan) q);
          sized = λ plan q fits.
              ap (λ (k : PlanRow). k.plan_size) (from (some plan) q)
              ∙ with_plan-sized row result plan fits;
          unsized = λ plan q apart.
              ap (λ (k : PlanRow). k.plan_size) (from (some plan) q)
              ∙ with_plan-unsized row result plan apart;
          retyped = λ plan q fits.
              ap (λ (k : PlanRow). k.type) (from (some plan) q)
              ∙ with_plan-retyped row result plan fits;
          pinned = λ plan q apart.
              ap (λ (k : PlanRow). k.type) (from (some plan) q)
              ∙ with_plan-pinned row result plan apart;
        },
      )
