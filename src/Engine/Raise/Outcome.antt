-- ===== src/Engine/Raise/Outcome.antt =====
-- What is open once a decision is raised, and what raising leaves alone: apps/orchestrator/src/store.ts.
use mathlib.Core.List.Memᴰ
use specmate.Prelude.{
  ℕ, ◌+◌, Bool, true, false, not, ◌&&◌, ◌||◌, List, [], ◌∷◌, ◌++◌, map, any, find?, Option, none,
  some, String, ◌==◌, nat_eq, string_eq, Result, ok, err, ◌≡◌, ◌⊎◌, ◌∙◌, subst, ok-injective, refl,
  sym, arith, Memᴰ, Memᴰ-append, Memᴰ-cons, beq_refl, beq_cases, Option-cases, Bool-cases, inl, inr,
  ap, &&-eq-true, if◌then◌else◌,
}
use specmate.Lifecycle.{task_state_eq}
use specmate.Decisions.{
  DecisionInsert, StoredDecision, decision_status_eq, opened, is_open, blocking_open,
}
use specmate.Engine.State.{World}
use specmate.Engine.Raise.{
  matches, is_unchanged, decision_kind_eq, rewritten, rewrite_row, attach_to_open_decision,
  new_decision, bool_eq, raise_decision,
}
use specmate.Engine.Raise.Unique.{matches-key, raise_decision-cases}

-- An open row that says what was asked.
abbrev pub Recorded : DecisionInsert → World → Type 0
Recorded input w =
    (d : StoredDecision) × Memᴰ d w.decisions
    × (is_open d ≡ true)
    × (d.key ≡ input.key)
    × (d.kind ≡ input.kind)
    × (d.prompt_md ≡ input.prompt_md)
    × (d.blocking ≡ input.blocking)

bool_eq-eq-true : (a b : Bool) → bool_eq a b ≡ true → a ≡ b
bool_eq-eq-true a b h = ground arith

unchanged-same :
    (stage : Option ℕ) (input : DecisionInsert) (d : StoredDecision)
    → is_unchanged stage input d ≡ true
    → (d.kind ≡ input.kind) × (d.prompt_md ≡ input.prompt_md) × (d.blocking ≡ input.blocking)
unchanged-same stage input d h = ground (
  arith,
  decision_kind_eq.beq_iff d.kind input.kind,
  string_eq.beq_iff d.prompt_md input.prompt_md,
  bool_eq-eq-true d.blocking input.blocking,
)

rewritten-Memᴰ :
    (stage : Option ℕ) (input : DecisionInsert) (d : StoredDecision) (ds : List StoredDecision)
    → Memᴰ d ds
    → Memᴰ (rewritten stage input d) (map (rewrite_row d.id stage input) ds)
rewritten-Memᴰ stage input d [] m = absurd (Memᴰ.not-nil m)
rewritten-Memᴰ stage input d (x ∷ ds) m = elim ((Memᴰ-cons d x ds).0 m) [
  | inl e ↦ Memᴰ.head (
      subst (λ (y : StoredDecision). rewritten stage input d ≡ rewrite_row d.id stage input y) e
        (rw (beq_refl d.id) refl))
  | inr later ↦ Memᴰ.tail (rewritten-Memᴰ stage input d ds later)
]

attach-Recorded :
    (w : World) (stage : Option ℕ) (d : StoredDecision) (input : DecisionInsert)
    → Memᴰ d w.decisions
    → matches input d ≡ true
    → Recorded input (attach_to_open_decision w stage d input)
unfolding attach_to_open_decision
attach-Recorded w stage d input m fits =
    let (k, o) = matches-key input d fits in
    elim (Bool-cases (is_unchanged stage input d)) [
      | inl same ↦
          let (kind, prompt, blocks) = unchanged-same stage input d same in
          rw same (d, m, o, k, kind, prompt, blocks)
      | inr changed ↦ rw changed (
        rewritten stage input d,
        rewritten-Memᴰ stage input d w.decisions m,
        o,
        k,
        refl,
        refl,
        refl,
      )
    ]

-- However a decision is raised, an open row has its key, kind and prompt, and blocks as it asks.
pub raise_decision-Recorded :
    (w after : World) (stage : Option ℕ) (input : DecisionInsert)
    → raise_decision w stage input ≡ ok after
    → Recorded input after
unfolding specmate.Prelude.discrete_beq specmate.Decisions.DecisionStatus-discrete
raise_decision-Recorded w after stage input h = elim (raise_decision-cases w stage input) [
  | inl (d, m, fits, e) ↦
      subst (λ (u : World). Recorded input u) (ok-injective (sym e ∙ h))
        (attach-Recorded w stage d input m fits)
  | inr (free, e) ↦
      subst (λ (u : World). Recorded input u) (ok-injective (sym e ∙ h))
        (
          new_decision w.next_id stage input,
          (Memᴰ-append (new_decision w.next_id stage input) w.decisions
                (new_decision w.next_id stage input ∷ [])).1
              (inr (Memᴰ.head refl)),
          refl,
          refl,
          refl,
          refl,
          refl,
        )
]

attach-same :
    (w : World) (stage : Option ℕ) (d : StoredDecision) (input : DecisionInsert)
    → ((attach_to_open_decision w stage d input).task ≡ w.task)
      × ((attach_to_open_decision w stage d input).graph ≡ w.graph)
      × ((attach_to_open_decision w stage d input).stages ≡ w.stages)
unfolding attach_to_open_decision
attach-same w stage d input = elim (Bool-cases (is_unchanged stage input d)) [
  | inl same ↦ (rw same refl, rw same refl, rw same refl)
  | inr changed ↦ (rw changed refl, rw changed refl, rw changed refl)
]

-- Raising a decision leaves the task, its graph and its stages alone.
pub raise_decision-same :
    (w after : World) (stage : Option ℕ) (input : DecisionInsert)
    → raise_decision w stage input ≡ ok after
    → (after.task ≡ w.task) × (after.graph ≡ w.graph) × (after.stages ≡ w.stages)
raise_decision-same w after stage input h =
    let Same = λ (u : World). (u.task ≡ w.task) × (u.graph ≡ w.graph) × (u.stages ≡ w.stages) in
    elim (raise_decision-cases w stage input) [
      | inl (d, m, fits, e) ↦ subst Same (ok-injective (sym e ∙ h)) (attach-same w stage d input)
      | inr (free, e) ↦ subst Same (ok-injective (sym e ∙ h)) (refl, refl, refl)
    ]

pub any-Memᴰ {ℓ} :
    {A : Type ℓ} (p : A → Bool) (x : A) (xs : List A) → Memᴰ x xs → p x ≡ true → any p xs ≡ true
any-Memᴰ p x [] m h = absurd (Memᴰ.not-nil m)
any-Memᴰ p x (y ∷ ys) m h = elim ((Memᴰ-cons x y ys).0 m) [
  | inl e ↦ rw (ap p (sym e) ∙ h) refl
  | inr later ↦ ground (arith, any-Memᴰ p x ys later h)
]

-- A blocking decision that is raised blocks the task.
pub raise_decision-blocking_open :
    (w after : World) (stage : Option ℕ) (input : DecisionInsert)
    → input.blocking ≡ true
    → raise_decision w stage input ≡ ok after
    → blocking_open after.decisions ≡ true
unfolding blocking_open
raise_decision-blocking_open w after stage input b h =
    let (d, m, o, _, _, _, same) = raise_decision-Recorded w after stage input h in
    any-Memᴰ (λ (x : StoredDecision). x.blocking && is_open x) d after.decisions m
      (rw (same ∙ b, o) refl)
