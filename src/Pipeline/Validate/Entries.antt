-- ===== src/Pipeline/Validate/Entries.antt =====
-- What a silent first loop of `validateDefinition` says of the nodes.
use mathlib.Core.List.Memᴰ
use specmate.Prelude.{
  ℕ, suc, Bool, true, false, not, List, [], ◌∷◌, map, some, ◌≡◌, ◌≢◌, inl, inr, refl, sym, subst,
  arith, if◌then◌else◌, Memᴰ, beq_refl, append-eq-nil, is_some_value, includes, includes-Memᴰ,
}
use specmate.Lifecycle.{TaskState, task_state_eq, includes-task_states}
use specmate.Roles.{agent_role_eq, agent_roles, pipeline_roles}
use specmate.Pipeline.Nodes.{
  LoopEdge, PipelineNode, StageNode, stage, key_of, PipelineDefinition, cross_review, NodeCondition,
  reserved_states,
}
use specmate.Pipeline.Conditions.{condition_defects, node_predicate, conditions_of}
use specmate.Pipeline.Walk.Lookup.{keys_of, Distinct}
use specmate.Pipeline.Validate.{
  Defect, Element, Problem, Index, index_get, index_has, node_defects, first_loop, report,
  status_defects, role_defects, review_defects, guard_defects,
}
use specmate.Pipeline.Validate.Passes.{flat_map-nil, report-nil}

-- What the first loop asks of a node by itself.
pub record NodeFits (n : PipelineNode) : Type 0 where
  pub unreserved : includes (key_of n) reserved_states ≡ false
  pub role_known : (s : StageNode) → n ≡ stage s → Memᴰ s.role pipeline_roles
  pub reviewed :
      (s : StageNode)
      → n ≡ stage s
      → s.binding ≡ cross_review
      → (edge : LoopEdge) × (s.loop_edge ≡ some edge)
  pub guarded :
      (c : NodeCondition)
      → Memᴰ c (conditions_of n)
      → condition_defects c (node_predicate c.predicate) ≡ []

status-nil :
    (d : PipelineDefinition) (n : PipelineNode)
    → status_defects d n ≡ []
    → includes (key_of n) reserved_states ≡ false
unfolding status_defects
status-nil d n h = ground (arith, includes-task_states (key_of n))

nested-nil :
    (d : PipelineDefinition) (a b : Bool) (x : Defect) (e : Element) (p : Problem)
    → (if not a then x ∷ [] else report d (not b) e p) ≡ []
    → b ≡ true
nested-nil d a b x e p h = ground arith

role-nil :
    (d : PipelineDefinition) (s : StageNode)
    → role_defects d (stage s) ≡ []
    → Memᴰ s.role pipeline_roles
unfolding role_defects
role-nil d s h =
    (includes-Memᴰ s.role pipeline_roles).0
      (nested-nil d (includes s.role agent_roles) (includes s.role pipeline_roles) _ _ _ h)

review-nil :
    (d : PipelineDefinition) (s : StageNode)
    → review_defects d (stage s) ≡ []
    → s.binding ≡ cross_review
    → (edge : LoopEdge) × (s.loop_edge ≡ some edge)
unfolding review_defects
review-nil d s h b = is_some_value s.loop_edge (ground arith)

map-nil : {A B : Type 0} (f : A → B) (xs : List A) → map f xs ≡ [] → xs ≡ []
map-nil f [] h = refl
map-nil f (x ∷ xs) h = cc

guard-nil :
    (d : PipelineDefinition) (n : PipelineNode)
    → guard_defects d n ≡ []
    → (c : NodeCondition) → Memᴰ c (conditions_of n)
    → condition_defects c (node_predicate c.predicate) ≡ []
unfolding guard_defects
guard-nil d n h c m = map-nil _ _ (flat_map-nil _ (conditions_of n) h c m)

node_defects-nil :
    (d : PipelineDefinition) (index : Index) (n : PipelineNode)
    → node_defects d index n ≡ []
    → (index_has (key_of n) index ≡ false) × NodeFits n
unfolding node_defects
node_defects-nil d index n h =
    let (a, rest) = append-eq-nil (report d (index_has (key_of n) index) _ _) _ h in
    let (b, rest) = append-eq-nil (status_defects d n) _ rest in
    let (c, rest) = append-eq-nil (role_defects d n) _ rest in
    let (e, f) = append-eq-nil (review_defects d n) _ rest in
    (
      report-nil d (index_has (key_of n) index) _ _ a,
      record {
        unreserved = status-nil d n b;
        role_known = λ s k. role-nil d s (subst (λ x. role_defects d x ≡ []) k c);
        reviewed = λ s k r. review-nil d s (subst (λ x. review_defects d x ≡ []) k e) r;
        guarded = guard-nil d n f;
      },
    )

not_index_has :
    (key : TaskState) (index : Index) {i : ℕ}
    → index_get key index ≡ some i
    → index_has key index ≢ false
not_index_has key index e h = ground arith

-- A key is in the map once it was entered.
index_get-head :
    (key : TaskState) (i : ℕ) (index : Index) → index_get key ((key, i) ∷ index) ≡ some i
index_get-head key i index = rw (beq_refl key)

-- A key that is in the map stays in it.
index_has-cons :
    (key other : TaskState) (i : ℕ) (index : Index)
    → index_has key ((other, i) ∷ index) ≡ false
    → index_has key index ≡ false
index_has-cons key other i index h = ground arith

-- The first loop reports nothing: no key repeats, none was entered before, and each node fits.
pub record LoopFits (index : Index) (ns : List PipelineNode) : Type 0 where
  pub distinct : Distinct (keys_of ns)
  pub fresh : (key : TaskState) → Memᴰ key (keys_of ns) → index_has key index ≡ false
  pub fits : (n : PipelineNode) → Memᴰ n ns → NodeFits n

pub first_loop-nil :
    (d : PipelineDefinition) (i : ℕ) (index : Index) (ns : List PipelineNode)
    → first_loop d i index ns ≡ []
    → LoopFits index ns
unfolding first_loop
first_loop-nil d i index [] h = record {
  distinct = tt;
  fresh = λ key m. absurd (Memᴰ.not-nil m);
  fits = λ n m. absurd (Memᴰ.not-nil m);
}
first_loop-nil d i index (n ∷ ns) h =
    let (first, rest) = append-eq-nil (node_defects d index n) _ h in
    let (free, fit) = node_defects-nil d index n first in
    let later = first_loop-nil d (suc i) ((key_of n, i) ∷ index) ns rest in
    record {
      distinct = (
        λ m.
            not_index_has (key_of n) ((key_of n, i) ∷ index) (index_get-head (key_of n) i index)
              (later.fresh (key_of n) m),
        later.distinct,
      );
      fresh = λ key m. elim (Memᴰ.cases_cons m) [
        | inl e ↦ subst (λ s. index_has s index ≡ false) (sym e) free
        | inr x ↦ index_has-cons key (key_of n) i index (later.fresh key x)
      ];
      fits = λ x m. elim (Memᴰ.cases_cons m) [
        | inl e ↦ subst NodeFits (sym e) fit
        | inr y ↦ later.fits x y
      ];
    }
