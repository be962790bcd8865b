-- ===== src/Conversations/Repeated.antt =====
-- Opening a conversation, and opening it again: packages/core/src/conversations.ts.
use specmate.Prelude.{
  List, [], ◌∷◌, ◌++◌, any, Option, none, some, String, ◌==◌, nat_eq, string_eq, ok, err, ◌≡◌, refl,
  sym, ◌∙◌, subst, arith, Option-cases, Bool-cases, ◌⊎◌, inl, inr, find?-append_new, find?-some,
  ok-injective, nat_beq_iff, beq_refl,
}
use specmate.Lifecycle.{is_terminal}
use specmate.Conversations.{
  Conversation, Store, ConversationError, TaskContext, created, first_some, created_for,
  find_by_key, find_task, task_not_found, terminal_task,
}
use specmate.Conversations.Writing.{
  OpenInput, new_conversation, with_conversation, open_conversation, has_subject, conflict_of,
}
use specmate.Conversations.Rows.{IsKept}
use specmate.Conversations.Opening.{with_conversation-IsKept}

pub first_some-append_last {ℓ κ} :
    {A : Type ℓ} {B : Type κ} (f : A → Option B) (xs : List A) (x : A)
    → first_some f xs ≡ none
    → first_some f (xs ++ x ∷ []) ≡ f x
first_some-append_last f [] x e = elim (Option-cases (f x)) [
  | inl q ↦ rw q refl
  | inr (y, q) ↦ rw q refl
]
first_some-append_last f (y ∷ xs) x e = elim (Option-cases (f y)) [
  | inl missing ↦ rw missing (first_some-append_last f xs x (rw missing at e))
  | inr (z, found) ↦ cc (rw found at e)
]

-- An opening fails, or finds the conversation of its key, or adds one where the key has none.
open_conversation-cases :
    (s : Store) (input : OpenInput)
    → ((e : ConversationError) × (open_conversation s input ≡ err e))
      ⊎ (((c : Conversation) × (open_conversation s input ≡ ok (c, s)))
          ⊎ ((open_conversation s input ≡ ok (new_conversation s input, with_conversation s input))
              × (task : TaskContext) × (find_task s input.task_id ≡ some task)
              × (find_by_key s task.id input.key ≡ none)))
unfolding open_conversation
open_conversation-cases s input = elim (Option-cases (find_task s input.task_id)) [
  | inl missing ↦ inl (task_not_found input.task_id, rw (open_conversation, missing) refl)
  | inr (task, there) ↦ elim (Option-cases (find_by_key s task.id input.key)) [
    | inr (c, found) ↦ inr (inl (c, rw (open_conversation, there, found) refl))
    | inl new ↦ elim (Bool-cases (is_terminal task.status)) [
      | inl over ↦
          inl (terminal_task task.id task.status, rw (open_conversation, there, new, over) refl)
      | inr live ↦ elim (Bool-cases (any (has_subject input) s.conversations)) [
        | inl taken ↦ inl (
          conflict_of input.task_id input.subject_kind input.subject_id,
          rw (open_conversation, there, new, live, taken) refl,
        )
        | inr free ↦
            inr (inr (rw (open_conversation, there, new, live, free) refl, task, there, new))
      ]
    ]
  ]
]

open_conversation-found :
    (s : Store) (input : OpenInput) (task : TaskContext) (c : Conversation)
    → find_task s input.task_id ≡ some task
    → find_by_key s task.id input.key ≡ some c
    → open_conversation s input ≡ ok (c, s)
unfolding open_conversation
open_conversation-found s input task c there found = rw (open_conversation, there, found) refl

-- No event names the key where no conversation is found by it.
no_creation :
    (s : Store) (task_id key : String)
    → IsKept s
    → find_by_key s task_id key ≡ none
    → first_some (created_for task_id key) s.events ≡ none
unfolding find_by_key
no_creation s task_id key kept missed =
    elim (Option-cases (first_some (created_for task_id key) s.events)) [
      | inl missing ↦ missing
      | inr (id, named) ↦
          let (c, found) = kept.opened task_id key id named in
          cc (rw (find_by_key, named, found) at missed)
    ]

find_by_key-added :
    (s : Store) (input : OpenInput) (task_id : String)
    → IsKept s
    → task_id ≡ input.task_id
    → find_by_key s task_id input.key ≡ none
    → find_by_key (with_conversation s input) task_id input.key ≡ some (new_conversation s input)
unfolding find_by_key
find_by_key-added s input task_id kept same missed =
    rw
      (
        find_by_key,
        first_some-append_last (created_for task_id input.key) s.events
            (created input.task_id s.next_id input.key)
            (no_creation s task_id input.key kept missed),
        same,
        beq_refl input.task_id,
        beq_refl input.key,
      )
      (find?-append_new (λ c. c.id == s.next_id) s.conversations (new_conversation s input)
        (λ c k. ground (arith, nat_beq_iff c.id s.next_id, kept.conversations_numbered c k))
        ((nat_beq_iff s.next_id s.next_id).1 refl))

-- Where an opening succeeds the rows stay kept, and repeating it with the same key gives the same
-- conversation and changes nothing.
pub open_conversation-repeats :
    (s after : Store) (input : OpenInput) (c : Conversation)
    → IsKept s
    → open_conversation s input ≡ ok (c, after)
    → IsKept after × (open_conversation after input ≡ ok (c, after))
open_conversation-repeats s after input c kept e = elim (open_conversation-cases s input) [
  | inl (x, refused) ↦ cc (e, refused)
  | inr (inl (d, found)) ↦
      let q = ok-injective (sym found ∙ e) in
      subst (λ (r : Conversation × Store). IsKept r.1 × (open_conversation r.1 input ≡ ok r)) q
        (kept, found)
  | inr (inr (added, task, there, missed)) ↦
      let q = ok-injective (sym added ∙ e) in
      let same =
        (string_eq.beq_iff task.id input.task_id).0
          ((find?-some (λ t. t.id == input.task_id) s.tasks there).1) in
      subst (λ (r : Conversation × Store). IsKept r.1 × (open_conversation r.1 input ≡ ok r)) q
        (
          with_conversation-IsKept s input kept,
          open_conversation-found (with_conversation s input) input task (new_conversation s input)
              there (find_by_key-added s input task.id kept same missed),
        )
]
