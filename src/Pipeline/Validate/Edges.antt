-- ===== src/Pipeline/Validate/Edges.antt =====
-- What a silent second loop of `validateDefinition` says of the edges.
use specmate.Prelude.{
  ℕ, Bool, true, false, not, ◌&&◌, List, [], Option, none, some, ◌≡◌, ◌∙◌, ◌⊎◌, inl, inr, refl, sym,
  subst, arith, ◌==◌, Memᴰ, append-eq-nil, flat_map, is_some_value, Bool-cases, discrete_beq_iff,
  find?,
}
use specmate.Lifecycle.{TaskState, task_state_eq, same_state_iff}
use specmate.Roles.{agent_role_eq, AgentRole-discrete}
use specmate.Pipeline.Nodes.{
  LoopEdge, PipelineNode, StageNode, GateNode, stage, gate, action, key_of, PipelineDefinition,
  rework_targets,
}
use specmate.Pipeline.Walk.{redirect_targets, has_key}
use specmate.Pipeline.Walk.Lookup.{keys_of, Distinct, keys_of-Memᴰ}
use specmate.Pipeline.Validate.{
  Index, index_get, index_has, index_from, not_earlier, Element, resumed_role, resumed_at,
  resume_defects, target_defects, loop_defects, gate_defects, edge_defects,
}
use specmate.Pipeline.Validate.Passes.{
  flat_map-nil, report-nil, StandsBefore, not_earlier-StandsBefore, index_get-place, place_some,
}

not-false : (b : Bool) → not b ≡ false → b ≡ true
not-false b h = ground arith

module _ (d : PipelineDefinition) where
  abbrev keys : List TaskState
  keys = keys_of d.nodes

  abbrev index : Index
  index = index_from 0 [] d.nodes

  -- The edges of a node lead where they may: back for a loop or a resumed session, to nodes of the
  -- definition for a gate (or, for its approval, to the terminal).
  pub record EdgesFit (n : PipelineNode) : Type 0 where
    pub loops_back :
        (s : StageNode) (edge : LoopEdge)
        → n ≡ stage s
        → s.loop_edge ≡ some edge
        → StandsBefore edge.target s.key (keys_of d.nodes)
    pub resumes_back :
        (s : StageNode) (resumed : TaskState)
        → n ≡ stage s
        → s.resumes ≡ some resumed
        → StandsBefore resumed s.key (keys_of d.nodes)
          × ((r : StageNode) × (find? (has_key resumed) d.nodes ≡ some (stage r))
              × (r.role ≡ s.role))
    pub approves :
        (g : GateNode) → n ≡ gate g → Memᴰ g.approve (keys_of d.nodes) ⊎ (g.approve ≡ d.terminal)
    pub redirects :
        (g : GateNode) (t : TaskState)
        → n ≡ gate g
        → Memᴰ t (redirect_targets g)
        → Memᴰ t (keys_of d.nodes)
    pub reworks :
        (g : GateNode) (t : TaskState)
        → n ≡ gate g
        → Memᴰ t (rework_targets g)
        → Memᴰ t (keys_of d.nodes)

  module _ (distinct : Distinct (keys_of d.nodes)) where
    index_has-Memᴰ : (key : TaskState) → index_has key index ≡ true → Memᴰ key keys
    index_has-Memᴰ key h =
        let (i, e) = is_some_value (index_get key index) h in
        place_some key 0 keys (sym (index_get-place key d.nodes distinct) ∙ e)

    target-nil :
        (s : StageNode) (target : TaskState) (element : Element) (to : Option ℕ)
        → Memᴰ s.key keys
        → index_get target index ≡ to
        → target_defects d element to (index_get s.key index) ≡ []
        → StandsBefore target s.key keys
    unfolding target_defects
    target-nil s target element none m e h = cc
    target-nil s target element (some to) m e h =
        not_earlier-StandsBefore target s.key d.nodes to distinct m e (report-nil d _ _ _ h)

    approve-nil :
        (g : GateNode)
        → (not (index_has g.approve index) && not (g.approve == d.terminal)) ≡ false
        → Memᴰ g.approve keys ⊎ (g.approve ≡ d.terminal)
    approve-nil g h = elim (Bool-cases (index_has g.approve index)) [
      | inl t ↦ inl (index_has-Memᴰ g.approve t)
      | inr f ↦ inr ((same_state_iff g.approve d.terminal).0 (ground arith))
    ]

    loop-nil :
        (s : StageNode) (edge : LoopEdge)
        → Memᴰ s.key keys
        → loop_defects d index s (some edge) ≡ []
        → StandsBefore edge.target s.key keys
    unfolding loop_defects
    loop-nil s edge m h =
        target-nil s edge.target _ (index_get edge.target index) m refl (append-eq-nil _ _ h).0

    role-nil :
        (s : StageNode) (resumed : TaskState) (o : Option PipelineNode)
        → resumed_role d s resumed o ≡ []
        → (r : StageNode) × (o ≡ some (stage r)) × (r.role ≡ s.role)
    unfolding resumed_role
    role-nil s resumed none h = cc
    role-nil s resumed (some (gate g)) h = cc
    role-nil s resumed (some (action a)) h = cc
    role-nil s resumed (some (stage r)) h =
        (r, refl, ground (arith, discrete_beq_iff AgentRole-discrete r.role s.role))

    resumed-nil :
        (s : StageNode) (resumed : TaskState) (to : Option ℕ)
        → Memᴰ s.key keys
        → index_get resumed index ≡ to
        → resumed_at d s resumed to (index_get s.key index) ≡ []
        → StandsBefore resumed s.key keys
          × ((r : StageNode) × (find? (has_key resumed) d.nodes ≡ some (stage r))
              × (r.role ≡ s.role))
    unfolding resumed_at
    resumed-nil s resumed none m e h = cc
    resumed-nil s resumed (some to) m e h =
        elim (Bool-cases (not_earlier to (index_get s.key index))) [
          | inl late ↦ absurd (ground arith)
          | inr early ↦ (
            not_earlier-StandsBefore resumed s.key d.nodes to distinct m e early,
            role-nil s resumed (find? (has_key resumed) d.nodes) (rw early at h),
          )
        ]

    gate-nil :
        (g : GateNode)
        → gate_defects d index g ≡ []
        → (Memᴰ g.approve keys ⊎ (g.approve ≡ d.terminal))
          × ((t : TaskState) → Memᴰ t (redirect_targets g) → Memᴰ t keys)
          × ((t : TaskState) → Memᴰ t (rework_targets g) → Memᴰ t keys)
    unfolding gate_defects
    gate-nil g h =
        let (a, rest) = append-eq-nil _ _ h in
        let (b, c) = append-eq-nil (flat_map _ (redirect_targets g)) _ rest in
        (
          approve-nil g (report-nil d _ _ _ a),
          λ t m. index_has-Memᴰ t (not-false _ (report-nil d _ _ _ (flat_map-nil _ _ b t m))),
          λ t m. index_has-Memᴰ t (not-false _ (report-nil d _ _ _ (flat_map-nil _ _ c t m))),
        )

    -- A silent second loop: the edges of every node lead where they may.
    pub edge_defects-nil :
        (n : PipelineNode) → Memᴰ n d.nodes → edge_defects d index n ≡ [] → EdgesFit n
    unfolding edge_defects
    edge_defects-nil n m h = record {
      loops_back = λ s edge k e.
          let both = append-eq-nil _ _ (silent_at (stage s) k) in
          loop-nil s edge (inside (stage s) k)
            (subst (λ o. loop_defects d index s o ≡ []) e both.1);
      resumes_back = λ s resumed k e.
          let both = append-eq-nil _ _ (silent_at (stage s) k) in
          let silent = subst (λ o. resume_defects d index s o ≡ []) e both.0 in
          resumed-nil s resumed (index_get resumed index) (inside (stage s) k) refl silent;
      approves = λ g k. (gate-nil g (silent_at (gate g) k)).0;
      redirects = λ g t k. (gate-nil g (silent_at (gate g) k)).1 t;
      reworks = λ g t k. (gate-nil g (silent_at (gate g) k)).2 t;
    }
      where
        silent_at : (x : PipelineNode) → n ≡ x → edge_defects d index x ≡ []
        silent_at x k = subst (λ y. edge_defects d index y ≡ []) k h

        inside : (x : PipelineNode) → n ≡ x → Memᴰ (key_of x) keys
        inside x k = keys_of-Memᴰ x d.nodes (subst (λ y. Memᴰ y d.nodes) k m)
