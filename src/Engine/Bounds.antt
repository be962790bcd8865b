-- ===== src/Engine/Bounds.antt =====
-- The bounds that the owner's and the agents' operations keep: apps/orchestrator/src/engine.ts.
use specmate.Prelude.{
  ℕ, suc, ◌+◌, ◌≤◌, ◌<◌, Bool, false, List, [], ◌∷◌, ◌++◌, map, any, filter, length, length-append,
  Option, none, some, String, ◌==◌, leb, leb_iff, includes, ok, >>=-eq-ok, refuse-eq-ok, err-eq-ok,
  ◌≡◌, refl, ◌∙◌, ap, arith, Bool-cases, inl, inr, beq_refl,
}
use specmate.Lifecycle.{TaskState, task_state_eq, is_terminal, failed, waiting_human}
use specmate.Roles.{ProviderId}
use specmate.Pipeline.Nodes.{GateNode, GateRedirect, StageNode, cap_of}
use specmate.Budget.{budget_exhaustion}
use specmate.Engine.State.{World, Event, gate_redirected, DismissCause, terminal, task_spend}
use specmate.Decisions.{StoredDecision, is_open}
use specmate.Engine.Transition.{moved, MoveOptions, move_event, dismissal, dismiss_open_decisions}
use specmate.Engine.Gates.{
  at_gate, redirect, redirect_along, redirect_to, count_redirects, skipped_nodes, is_redirect_of,
}
use specmate.Engine.Attempts.{attempt_streak, is_running, dispatched}
use specmate.Engine.Settled.{apply_transition-moved, moved-task}

filter-append {ℓ} :
    {A : Type ℓ} (p : A → Bool) (xs ys : List A) → filter p (xs ++ ys) ≡ filter p xs ++ filter p ys
filter-append p [] ys = refl
filter-append p (x ∷ xs) ys = elim (Bool-cases (p x)) [
  | inl fits ↦ rw fits (ap (λ zs. x ∷ zs) (filter-append p xs ys))
  | inr other ↦ rw other (filter-append p xs ys)
]

count_redirects-append :
    (xs ys : List Event) (key : TaskState)
    → count_redirects (xs ++ ys) key ≡ count_redirects xs key + count_redirects ys key
unfolding count_redirects
count_redirects-append xs ys key =
    ap length (filter-append (is_redirect_of key) xs ys)
    ∙ length-append (filter (is_redirect_of key) xs) (filter (is_redirect_of key) ys)

count_redirects-dismissal :
    (now : ℕ) (cause : DismissCause) (ds : List StoredDecision) (key : TaskState)
    → count_redirects (map (dismissal now cause) ds) key ≡ 0
unfolding count_redirects
count_redirects-dismissal now cause [] key = refl
count_redirects-dismissal now cause (d ∷ ds) key = count_redirects-dismissal now cause ds key

abbrev step_event : TaskState → TaskState → MoveOptions → ℕ → Event
step_event source to opts at_time = record {
  type = move_event source to opts;
  stage_id = opts.stage_id;
  created_at = at_time;
}

move_event-redirect :
    (source to key : TaskState) (opts : MoveOptions) (at_time : ℕ)
    → count_redirects (step_event source to opts at_time ∷ []) key ≡ 0
unfolding count_redirects
move_event-redirect source to key opts at_time = elim (Bool-cases (to == failed)) [
  | inl ends ↦ rw ends refl
  | inr goes ↦ elim (Bool-cases (to == waiting_human)) [
    | inl parks ↦ rw (goes, parks) refl
    | inr walks ↦ rw (goes, walks) refl
  ]
]

-- A move is no redirect.
moved-count_redirects :
    (w : World) (source to key : TaskState) (opts : MoveOptions)
    → count_redirects (moved w source to opts).events key ≡ count_redirects w.events key
unfolding moved dismiss_open_decisions
moved-count_redirects w source to key opts =
    let step = step_event source to opts w.now in
    let closing = map (dismissal w.now terminal) (filter is_open w.decisions) in
    let walked = count_redirects-append w.events (step ∷ []) key in
    let all_events = count_redirects-append (w.events ++ step ∷ []) closing key in
    let no_step = move_event-redirect source to key opts w.now in
    let no_closing = count_redirects-dismissal w.now terminal (filter is_open w.decisions) key in
    elim (Bool-cases (is_terminal to)) [
      | inl ends ↦ rw ends (omega arith)
      | inr goes ↦ rw goes (omega arith)
    ]

-- What a redirect that succeeded did.
abbrev pub Redirected : World → World → Type 0
Redirected w after =
    (g : GateNode) × (edge : GateRedirect) × (at_gate w ≡ ok g)
    × (g.redirect ≡ some edge)
    × (after.task.status ≡ edge.target)
    × (includes edge.target (skipped_nodes w) ≡ false)
    × (count_redirects after.events g.key ≡ suc (count_redirects w.events g.key))
    × (count_redirects after.events g.key ≤ cap_of w.task.caps edge.cap)

own_redirect :
    (gate to : TaskState) (round at_time : ℕ)
    → count_redirects
        (record { type = gate_redirected gate to round; stage_id = none; created_at = at_time }
          ∷ [])
        gate
      ≡ 1
unfolding count_redirects
own_redirect gate to round at_time = rw (beq_refl gate) refl

redirect_to-Redirected :
    (w after : World) (g : GateNode) (edge : GateRedirect) (actor : String)
    (comment : Option String)
    → at_gate w ≡ ok g
    → g.redirect ≡ some edge
    → redirect_to w g edge actor comment ≡ ok after
    → Redirected w after
unfolding redirect_to
redirect_to-Redirected w after g edge actor comment at r h =
    let used = count_redirects w.events g.key in
    let limit = cap_of w.task.caps edge.cap in
    let (unskipped, unspent) = refuse-eq-ok (includes edge.target (skipped_nodes w)) _ _ h in
    let (room, move) = refuse-eq-ok (leb limit used) _ _ unspent in
    let (e, _, _) = apply_transition-moved _ after w.graph w.task.status edge.target _ move in
    let landed =
      ap (λ (u : World). u.task.status) e ∙ (moved-task _ w.task.status edge.target _).0 in
    let noted =
      count_redirects-append w.events _ g.key
      ∙ ap (λ n. used + n) (own_redirect g.key edge.target (suc used) w.now) in
    let counted =
      ap (λ (u : World). count_redirects u.events g.key) e
      ∙ (moved-count_redirects _ w.task.status edge.target g.key _ ∙ noted) in
    (
      g,
      edge,
      at,
      r,
      landed,
      unskipped,
      omega arith,
      ground (arith, counted, room, leb_iff limit used),
    )

redirect_along-Redirected :
    (w after : World) (g : GateNode) (o : Option GateRedirect) (actor : String)
    (comment : Option String)
    → at_gate w ≡ ok g
    → g.redirect ≡ o
    → redirect_along w g actor comment o ≡ ok after
    → Redirected w after
redirect_along-Redirected w after g none actor comment at r h = err-eq-ok _ _ h
redirect_along-Redirected w after g (some edge) actor comment at r h =
    redirect_to-Redirected w after g edge actor comment at r h

-- A redirect that succeeds is one of the gate at which the task stands: the task is then at the target
-- of the edge that the gate declares, which this walk did not skip; the redirect is counted, and with it the redirects of that
-- gate are at most the cap that the edge names.
pub redirect-Redirected :
    (w after : World) (actor : String) (comment : Option String)
    → redirect w actor comment ≡ ok after
    → Redirected w after
unfolding redirect
redirect-Redirected w after actor comment h =
    let (g, at, move) = >>=-eq-ok (at_gate w) _ h in
    redirect_along-Redirected w after g g.redirect actor comment at refl move

-- A new attempt of a node, and what it started under.
abbrev pub Dispatches : World → ℕ → StageNode → ProviderId → ℕ → World → Type 0
Dispatches w graph_id node provider attempt_cap after =
    (w.task.status ≡ node.key)
    × (any is_running w.stages ≡ false)
    × ((budget_exhaustion (task_spend w) w.task.budgets).exhausted ≡ false)
    × (attempt_streak w graph_id node.key attempt_cap < attempt_cap)
    × (after ≡ dispatched w graph_id node provider attempt_cap)
