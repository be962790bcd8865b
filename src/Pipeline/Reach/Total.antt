-- ===== src/Pipeline/Reach/Total.antt =====
-- The fuel of the search suffices.
use specmate.Prelude.{
  ℕ, zero, suc, ◌+◌, ◌≤◌, Bool, true, false, List, [], ◌∷◌, ◌++◌, some, ◌≡◌, refl, arith, ◌==◌,
  if◌then◌else◌, includes, length, length-append, Bool-cases, beq_cases, beq_refl, inl, inr,
}
use specmate.Lifecycle.{TaskState, task_state_eq, same_state_iff}
use specmate.Pipeline.Nodes.{PipelineNode, PipelineDefinition, key_of}
use specmate.Pipeline.Advance.{reversed}
use specmate.Pipeline.Reach.{
  suffix_at, pushes, pushes_at, successors, search_loop, out_degrees, search_fuel, reaches_terminal,
}

length-reversed : {A : Type 0} (xs : List A) → length (reversed xs) ≡ length xs
length-reversed [] = refl
length-reversed (x ∷ xs) = omega (arith, length-append (reversed xs) (x ∷ []), length-reversed xs)

-- The pushes that are still to come: those of the nodes whose key was not seen.
left_over : TaskState → List TaskState → List PipelineNode → ℕ
left_over terminal seen [] = 0
left_over terminal seen (n ∷ ns) =
    let rest = left_over terminal seen ns in
    if includes (key_of n) seen then rest else length (pushes terminal n ns) + rest

left_over-none :
    (terminal : TaskState) (ns : List PipelineNode)
    → left_over terminal [] ns ≡ out_degrees terminal ns
unfolding left_over out_degrees
left_over-none terminal [] = refl
left_over-none terminal (n ∷ ns) = omega (arith, left_over-none terminal ns)

left_over-le :
    (terminal key : TaskState) (seen : List TaskState) (ns : List PipelineNode)
    → left_over terminal (key ∷ seen) ns ≤ left_over terminal seen ns
unfolding left_over
left_over-le terminal key seen [] = omega arith
left_over-le terminal key seen (n ∷ ns) = ground (arith, left_over-le terminal key seen ns)

-- To see a key for the first time takes its pushes off what is left over.
left_over-seen :
    (terminal key : TaskState) (seen : List TaskState) (ns : List PipelineNode)
    → includes key seen ≡ false
    → left_over terminal (key ∷ seen) ns + length (pushes_at terminal (suffix_at key ns))
      ≤ left_over terminal seen ns
unfolding left_over
left_over-seen terminal key seen [] h = omega arith
left_over-seen terminal key seen (n ∷ ns) h = elim (beq_cases (key_of n) key) [
  | inl (t, same) ↦ rw (t, same, beq_refl key, h) (omega (arith, left_over-le terminal key seen ns))
  | inr (f, other) ↦
      ground (arith, same_state_iff key (key_of n), left_over-seen terminal key seen ns h)
]

search_loop_total :
    (d : PipelineDefinition) (fuel : ℕ) (seen queue : List TaskState)
    → length queue + left_over d.terminal seen d.nodes ≤ fuel
    → (b : Bool) × (search_loop d fuel seen queue ≡ some b)
unfolding search_loop
search_loop_total d fuel seen [] h = (false, refl)
search_loop_total d zero seen (key ∷ queue) h = absurd (omega arith)
search_loop_total d (suc fuel) seen (key ∷ queue) h = elim (Bool-cases (includes key seen)) [
  | inl old ↦ let (b, e) = search_loop_total d fuel seen queue (omega arith) in (b, rw old e)
  | inr new ↦ elim (Bool-cases (key == d.terminal)) [
    | inl done ↦ (true, rw (new, done))
    | inr more ↦
        let (b, e) = search_loop_total d fuel (key ∷ seen) (reversed (successors d key) ++ queue) (
          omega (
            arith,
            length-append (reversed (successors d key)) queue,
            length-reversed (successors d key),
            left_over-seen d.terminal key seen d.nodes new,
          )) in
        (b, rw (new, more) e)
  ]
]

-- The search of `reachesTerminal` ends: from any state it answers, within one round for the state
-- it starts from and one for each edge of the definition.
pub reaches_terminal_total :
    (d : PipelineDefinition) (source : TaskState)
    → (b : Bool) × (reaches_terminal d source ≡ some b)
unfolding reaches_terminal
reaches_terminal_total d source =
    search_loop_total d (search_fuel d) [] (source ∷ [])
      (omega (arith, left_over-none d.terminal d.nodes))
