-- ===== src/Pipeline/Reach/Correct.antt =====
-- The search finds the terminal exactly where a walk leads to it.
use mathlib.Core.List.Memᴰ
use specmate.Prelude.{
  ℕ, zero, suc, Bool, true, false, List, [], ◌∷◌, ◌++◌, some, ◌≡◌, ◌≢◌, ◌↔◌, ◌⊎◌, inl, inr, refl,
  sym, ap, ◌∙◌, subst, arith, includes, includes-Memᴰ, Memᴰ, Memᴰ-cons, Memᴰ-append, Bool-cases,
  beq_cases,
}
use specmate.Lifecycle.{TaskState, task_state_eq}
use specmate.Pipeline.Nodes.{PipelineDefinition}
use specmate.Pipeline.Advance.{reversed}
use specmate.Pipeline.Reach.{successors, search_loop, search_fuel, reaches_terminal}
use specmate.Pipeline.Reach.Total.{reaches_terminal_total}

-- The walks over the edges that the engine can follow, which end where they reach the terminal.
pub data Walk (d : PipelineDefinition) (source : TaskState) : TaskState → Type 0 where
  here : Walk d source source
  step :
      {key next : TaskState}
      → Walk d source key
      → key ≢ d.terminal
      → Memᴰ next (successors d key)
      → Walk d source next

reversed-Memᴰ : {A : Type 0} (a : A) (xs : List A) → Memᴰ a (reversed xs) ↔ Memᴰ a xs
reversed-Memᴰ a [] = (λ m. m, λ m. m)
reversed-Memᴰ a (x ∷ xs) = ground (
  arith,
  Memᴰ-append a (reversed xs) (x ∷ []),
  Memᴰ-cons a x xs,
  Memᴰ-cons a x [],
  Memᴰ.not-nil {a = a},
  reversed-Memᴰ a xs,
)

module _ (d : PipelineDefinition) (source : TaskState) where
  search_sound :
      (fuel : ℕ) (seen queue : List TaskState)
      → ((key : TaskState) → Memᴰ key queue → Walk d source key)
      → search_loop d fuel seen queue ≡ some true
      → Walk d source d.terminal
  unfolding search_loop
  search_sound fuel seen [] walks h = cc
  search_sound zero seen (key ∷ queue) walks h = cc
  search_sound (suc fuel) seen (key ∷ queue) walks h = elim (Bool-cases (includes key seen)) [
    | inl old ↦ search_sound fuel seen queue (λ k m. walks k (Memᴰ.tail m)) (rw old at h)
    | inr new ↦ elim (beq_cases key d.terminal) [
      | inl (t, same) ↦ subst (Walk d source) same (walks key (Memᴰ.head refl))
      | inr (f, other) ↦
          search_sound fuel (key ∷ seen) (reversed (successors d key) ++ queue)
            (λ k m. elim ((Memᴰ-append k (reversed (successors d key)) queue).0 m) [
              | inl fresh ↦
                  step (walks key (Memᴰ.head refl)) other
                    ((reversed-Memᴰ k (successors d key)).0 fresh)
              | inr waiting ↦ walks k (Memᴰ.tail waiting)
            ])
            (rw (new, f) at h)
    ]
  ]

  -- What holds of the loop's variables while the terminal was not popped.
  record Inv (seen queue : List TaskState) : Type 0 where
    begun : Memᴰ source seen ⊎ Memᴰ source queue
    missed : ¬ Memᴰ d.terminal seen
    closed :
        (key next : TaskState)
        → Memᴰ key seen
        → Memᴰ next (successors d key)
        → Memᴰ next seen ⊎ Memᴰ next queue

  drop_old :
      (k key : TaskState) (seen queue : List TaskState)
      → Memᴰ key seen
      → Memᴰ k seen ⊎ Memᴰ k (key ∷ queue)
      → Memᴰ k seen ⊎ Memᴰ k queue
  drop_old k key seen queue old (inl m) = inl m
  drop_old k key seen queue old (inr (Memᴰ.head e)) = inl (Memᴰ.cast e old)
  drop_old k key seen queue old (inr (Memᴰ.tail m)) = inr m

  move_new :
      (k key : TaskState) (seen queue more : List TaskState)
      → Memᴰ k seen ⊎ Memᴰ k (key ∷ queue)
      → Memᴰ k (key ∷ seen) ⊎ Memᴰ k (more ++ queue)
  move_new k key seen queue more (inl m) = inl (Memᴰ.tail m)
  move_new k key seen queue more (inr (Memᴰ.head e)) = inl (Memᴰ.head e)
  move_new k key seen queue more (inr (Memᴰ.tail m)) = inr (Memᴰ.append_right more m)

  Inv-old :
      (key : TaskState) (seen queue : List TaskState)
      → Memᴰ key seen
      → Inv seen (key ∷ queue)
      → Inv seen queue
  Inv-old key seen queue old inv = record {
    begun = drop_old source key seen queue old inv.begun;
    missed = inv.missed;
    closed = λ k next m s. drop_old next key seen queue old (inv.closed k next m s);
  }

  Inv-new :
      (key : TaskState) (seen queue : List TaskState)
      → key ≢ d.terminal
      → Inv seen (key ∷ queue)
      → Inv (key ∷ seen) (reversed (successors d key) ++ queue)
  Inv-new key seen queue other inv = record {
    begun = move_new source key seen queue more inv.begun;
    missed = λ m. elim (Memᴰ.cases_cons m) [ inl e ↦ other (sym e) | inr old ↦ inv.missed old ];
    closed = λ k next m s. elim (Memᴰ.cases_cons m) [
      | inl e ↦ inr (
          Memᴰ.append_left queue (
            (reversed-Memᴰ next (successors d key)).1
              (subst (λ x. Memᴰ next (successors d x)) e s)))
      | inr old ↦ move_new next key seen queue more (inv.closed k next old s)
    ];
  }
    where
      more : List TaskState
      more = reversed (successors d key)

  search_complete :
      (fuel : ℕ) (seen queue : List TaskState)
      → Inv seen queue
      → search_loop d fuel seen queue ≡ some false
      → (final : List TaskState) × Inv final []
  unfolding search_loop
  search_complete fuel seen [] inv h = (seen, inv)
  search_complete zero seen (key ∷ queue) inv h = cc
  search_complete (suc fuel) seen (key ∷ queue) inv h = elim (Bool-cases (includes key seen)) [
    | inl old ↦
        search_complete fuel seen queue
          (Inv-old key seen queue ((includes-Memᴰ key seen).0 old) inv) (rw old at h)
    | inr new ↦ elim (beq_cases key d.terminal) [
      | inl (t, same) ↦ absurd (ground arith)
      | inr (f, other) ↦
          search_complete fuel (key ∷ seen) (reversed (successors d key) ++ queue)
            (Inv-new key seen queue other inv) (rw (new, f) at h)
    ]
  ]

  -- With an empty queue, all that a walk leads to was seen.
  walks_seen :
      {key : TaskState} (final : List TaskState) → Inv final [] → Walk d source key → Memᴰ key final
  walks_seen final inv here = elim inv.begun [ inl m ↦ m | inr m ↦ absurd (Memᴰ.not-nil m) ]
  walks_seen final inv (step {key} {next} w other s) =
      elim (inv.closed key next (walks_seen final inv w) s) [
        | inl m ↦ m
        | inr m ↦ absurd (Memᴰ.not-nil m)
      ]

  Inv-start : Inv [] (source ∷ [])
  Inv-start = record {
    begun = inr (Memᴰ.head refl);
    missed = λ m. Memᴰ.not-nil m;
    closed = λ key next m s. absurd (Memᴰ.not-nil m);
  }

  -- `reachesTerminal` answers, and answers true exactly where some walk over the definition's edges
  -- leads from the state to the terminal.
  pub reaches_terminal_iff :
      (b : Bool) × (reaches_terminal d source ≡ some b) × ((b ≡ true) ↔ Walk d source d.terminal)
  unfolding reaches_terminal
  reaches_terminal_iff =
      let (b, e) = reaches_terminal_total d source in
      elim (Bool-cases b) [
        | inl yes_b ↦ (
          true,
          e ∙ ap some yes_b,
          (
            λ _.
                search_sound (search_fuel d) [] (source ∷ [])
                  (λ k m. subst (Walk d source) (sym (Memᴰ.eq_of_singleton m)) here)
                  (e ∙ ap some yes_b),
            λ _. refl,
          ),
        )
        | inr no_b ↦
            let (final, inv) =
              search_complete (search_fuel d) [] (source ∷ []) Inv-start (e ∙ ap some no_b) in
            (false, e ∙ ap some no_b, (λ h. cc, λ w. absurd (inv.missed (walks_seen final inv w))))
      ]
