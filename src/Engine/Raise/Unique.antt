-- ===== src/Engine/Raise/Unique.antt =====
-- What raising a decision guarantees of the table of decisions: apps/orchestrator/src/store.ts.
use specmate.Prelude.{
  find?-some, ℕ, Bool, true, false, ◌||◌, List, [], ◌∷◌, ◌++◌, map, any, find?, Option, none, some,
  String, ◌==◌, nat_eq, string_eq, ok, ◌≡◌, ◌⊎◌, ◌∙◌, subst, ok-injective, refl, sym, arith, Memᴰ,
  Option-cases, Bool-cases, inl, inr, ap,
}
use specmate.Lifecycle.{TaskState, task_state_eq}
use specmate.Decisions.{DecisionInsert, StoredDecision, decision_status_eq, is_open}
use specmate.Engine.State.{World}
use specmate.Engine.Raise.{
  same_open, matches, engine_owned, find_open_decision, is_unchanged, decision_kind_eq, rewrite_row,
  attach_to_open_decision, new_decision, insert_decision, inserted, raise_decision,
}

-- No two open decisions have the node and the key in common, as the partial index demands.
abbrev pub AtMostOne : List StoredDecision → Type 0
AtMostOne [] = Unit
AtMostOne (d ∷ ds) = (is_open d ≡ true → any (same_open d.node_key d.key) ds ≡ false) × AtMostOne ds

find?-none {ℓ} :
    {A : Type ℓ} (p q : A → Bool) (xs : List A)
    → ((x : A) → q x ≡ true → p x ≡ true)
    → find? p xs ≡ none
    → any q xs ≡ false
find?-none p q [] h e = refl
find?-none p q (x ∷ xs) h e = ground (arith, h x, find?-none p q xs h)

same_open-node :
    (node : TaskState) (key : String) (d : StoredDecision)
    → same_open node key d ≡ true
    → (d.node_key ≡ node) × (d.key ≡ key) × (is_open d ≡ true)
same_open-node node key d h =
    ground (arith, task_state_eq.beq_iff d.node_key node, string_eq.beq_iff d.key key)

same_open-matches :
    (input : DecisionInsert) (d : StoredDecision)
    → same_open input.node_key input.key d ≡ true
    → matches input d ≡ true
same_open-matches input d h =
    let (node, _, _) = same_open-node input.node_key input.key d h in
    let owned = ap (λ (n : TaskState). engine_owned n input.key) node in
    elim (Bool-cases (engine_owned input.node_key input.key)) [
      | inl yes_owned ↦ ground (arith, yes_owned, h)
      | inr not_owned ↦ ground (arith, owned, not_owned, h)
    ]

pub matches-key :
    (input : DecisionInsert) (d : StoredDecision)
    → matches input d ≡ true
    → (d.key ≡ input.key) × (is_open d ≡ true)
matches-key input d h = ground (arith, string_eq.beq_iff d.key input.key)

raise_decision-found :
    (w : World) (stage : Option ℕ) (input : DecisionInsert) (d : StoredDecision)
    → find? (matches input) w.decisions ≡ some d
    → raise_decision w stage input ≡ ok (attach_to_open_decision w stage d input)
unfolding raise_decision find_open_decision
raise_decision-found w stage input d found = rw (found, raise_decision)

open_slot :
    (w : World) (input : DecisionInsert)
    → find? (matches input) w.decisions ≡ none
    → any (same_open input.node_key input.key) w.decisions ≡ false
open_slot w input missed =
    find?-none (matches input) (same_open input.node_key input.key) w.decisions
      (same_open-matches input) missed

raise_decision-missed :
    (w : World) (stage : Option ℕ) (input : DecisionInsert)
    → find? (matches input) w.decisions ≡ none
    → raise_decision w stage input ≡ ok (inserted w stage input)
unfolding raise_decision find_open_decision insert_decision
raise_decision-missed w stage input missed = rw (missed, open_slot w input missed, raise_decision)

-- A decision is always raised: the search widens the index, so where it finds no row the insert
-- meets none either, and `raiseDecision` neither retries nor throws. It attaches to a row that
-- matches, or inserts a new one where no open row has its node and key.
pub raise_decision-cases :
    (w : World) (stage : Option ℕ) (input : DecisionInsert)
    → ((d : StoredDecision) × Memᴰ d w.decisions
        × (matches input d ≡ true)
        × (raise_decision w stage input ≡ ok (attach_to_open_decision w stage d input)))
      ⊎ ((any (same_open input.node_key input.key) w.decisions ≡ false)
          × (raise_decision w stage input ≡ ok (inserted w stage input)))
raise_decision-cases w stage input = elim (Option-cases (find? (matches input) w.decisions)) [
  | inl missed ↦ inr (open_slot w input missed, raise_decision-missed w stage input missed)
  | inr (d, found) ↦
      let (m, fits) = find?-some (matches input) w.decisions found in
      inl (d, m, fits, raise_decision-found w stage input d found)
]

-- A change of rows that keeps their node and key and opens none.
abbrev pub Keeps : (StoredDecision → StoredDecision) → Type 0
Keeps f =
    (d : StoredDecision)
    → ((f d).node_key ≡ d.node_key)
      × ((f d).key ≡ d.key)
      × (is_open (f d) ≡ true → is_open d ≡ true)

any-same_open-map :
    (f : StoredDecision → StoredDecision) (node : TaskState) (key : String)
    (ds : List StoredDecision)
    → Keeps f
    → any (same_open node key) ds ≡ false
    → any (same_open node key) (map f ds) ≡ false
any-same_open-map f node key [] keeps h = refl
any-same_open-map f node key (d ∷ ds) keeps h =
    let (n, k, o) = keeps d in ground (arith, n, k, o, any-same_open-map f node key ds keeps)

pub AtMostOne-map :
    (f : StoredDecision → StoredDecision) (ds : List StoredDecision)
    → Keeps f
    → AtMostOne ds
    → AtMostOne (map f ds)
AtMostOne-map f [] keeps u = tt
AtMostOne-map f (d ∷ ds) keeps (first, rest) =
    let (n, k, opens) = keeps d in
    (
      λ o. any-same_open-map f (f d).node_key (f d).key ds keeps (rw (n, k) (first (opens o))),
      AtMostOne-map f ds keeps rest,
    )

pub any-append {ℓ} :
    {A : Type ℓ} (p : A → Bool) (xs ys : List A) → any p (xs ++ ys) ≡ any p xs || any p ys
any-append p [] ys = refl
any-append p (x ∷ xs) ys = ground (arith, any-append p xs ys)

same_open-sym :
    (x d : StoredDecision)
    → is_open x ≡ true
    → same_open d.node_key d.key x ≡ false
    → same_open x.node_key x.key d ≡ false
same_open-sym x d o h = ground (
  arith,
  o,
  task_state_eq.beq_iff d.node_key x.node_key,
  task_state_eq.beq_iff x.node_key d.node_key,
  string_eq.beq_iff d.key x.key,
  string_eq.beq_iff x.key d.key,
)

AtMostOne-append :
    (ds : List StoredDecision) (d : StoredDecision)
    → any (same_open d.node_key d.key) ds ≡ false
    → AtMostOne ds
    → AtMostOne (ds ++ d ∷ [])
AtMostOne-append [] d h u = (λ o. refl, tt)
AtMostOne-append (x ∷ ds) d h (first, rest) = (
  λ o.
      ground (
        arith,
        first o,
        o,
        same_open-sym x d o,
        any-append (same_open x.node_key x.key) ds (d ∷ []),
      ),
  AtMostOne-append ds d (ground arith) rest,
)

rewrite_row-Keeps :
    (id : ℕ) (stage : Option ℕ) (input : DecisionInsert) → Keeps (rewrite_row id stage input)
rewrite_row-Keeps id stage input d = elim (Bool-cases (d.id == id)) [
  | inl this ↦ (rw this, rw this, λ o. rw this at o)
  | inr other ↦ (rw other, rw other, λ o. rw other at o)
]

attach-AtMostOne :
    (w : World) (stage : Option ℕ) (d : StoredDecision) (input : DecisionInsert)
    → AtMostOne w.decisions
    → AtMostOne (attach_to_open_decision w stage d input).decisions
unfolding attach_to_open_decision
attach-AtMostOne w stage d input one = elim (Bool-cases (is_unchanged stage input d)) [
  | inl same ↦ rw same one
  | inr changed ↦ rw changed (
      AtMostOne-map (rewrite_row d.id stage input) w.decisions (rewrite_row-Keeps d.id stage input)
        one)
]

-- Raising a decision keeps at most one open decision for a node and a key.
pub raise_decision-AtMostOne :
    (w after : World) (stage : Option ℕ) (input : DecisionInsert)
    → AtMostOne w.decisions
    → raise_decision w stage input ≡ ok after
    → AtMostOne after.decisions
raise_decision-AtMostOne w after stage input one h = elim (raise_decision-cases w stage input) [
  | inl (d, m, fits, e) ↦
      subst (λ (u : World). AtMostOne u.decisions) (ok-injective (sym e ∙ h))
        (attach-AtMostOne w stage d input one)
  | inr (free, e) ↦
      subst (λ (u : World). AtMostOne u.decisions) (ok-injective (sym e ∙ h))
        (AtMostOne-append w.decisions (new_decision w.next_id stage input) free one)
]
