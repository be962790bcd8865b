-- ===== src/Conversations/Sent.antt =====
-- Sending a message, and sending it again: `appendOwnerMessage` of packages/core/src/conversations.ts.
use specmate.Prelude.{
  ℕ, ◌+◌, false, List, map, none, some, String, ◌==◌, nat_eq, string_eq, ok, err, ◌≡◌, refl, sym,
  ◌∙◌, subst, Option-cases, Bool-cases, ◌⊎◌, inl, inr, find?-some, ok-injective, nat_beq_iff,
  beq_refl,
}
use specmate.Lifecycle.{is_terminal}
use specmate.Conversations.{
  Conversation, Message, Store, ConversationError, TaskContext, posted, first_some, posted_for,
  find_conversation, find_pair, find_task, empty_message, conversation_not_found,
  conversation_closed, task_not_found, terminal_task,
}
use specmate.Conversations.Writing.{
  Posted, append_owner_message, post, is_open_conversation, add_sequences,
}
use specmate.Conversations.Rows.{
  IsKept, post-rows, posted_store, found_id, sent_message, sent_reply, find_conversation-numbered,
}
use specmate.Conversations.Posting.{posted_store-IsKept, posted_store-found}
use specmate.Conversations.Repeated.{first_some-append_last}

module _ (trim : String → String) where
  abbrev AppendCases : Store → ℕ → String → String → Type 0
  AppendCases s id text key =
      ((e : ConversationError) × (append_owner_message trim s id text key ≡ err e))
      ⊎ (((p : Posted) × (append_owner_message trim s id text key ≡ ok (p, s)))
          ⊎ ((c : Conversation) × (task : TaskContext) × ((trim text == "") ≡ false)
              × (find_conversation id s.conversations ≡ some c)
              × (find_pair s c.task_id c.id key ≡ none)
              × (find_task s c.task_id ≡ some task)
              × (append_owner_message trim s id text key ≡ post s c task (trim text) key)))

  -- Sending fails before anything is written, or finds the messages of its key, or posts new ones.
  append_owner_message-cases : (s : Store) (id : ℕ) (text key : String) → AppendCases s id text key
  unfolding append_owner_message
  append_owner_message-cases s id text key = elim (Bool-cases (trim text == "")) [
    | inl empty ↦ inl (empty_message, rw (append_owner_message, empty) refl)
    | inr said ↦ elim (Option-cases (find_conversation id s.conversations)) [
      | inl missing ↦ inl (conversation_not_found id, rw (append_owner_message, said, missing) refl)
      | inr (c, found) ↦ elim (Option-cases (find_pair s c.task_id c.id key)) [
        | inr (pair, sent) ↦ inr (
            inl (
              record { message = pair.0; reply = pair.1 },
              rw (append_owner_message, said, found, sent) refl,
            ))
        | inl new ↦ elim (Bool-cases (is_open_conversation c.status)) [
          | inr shut ↦
              inl (conversation_closed c.id, rw (append_owner_message, said, found, new, shut) refl)
          | inl live_status ↦ elim (Option-cases (find_task s c.task_id)) [
            | inl gone ↦ inl (
              task_not_found c.task_id,
              rw (append_owner_message, said, found, new, live_status, gone) refl,
            )
            | inr (task, there) ↦ elim (Bool-cases (is_terminal task.status)) [
              | inl over ↦ inl (
                terminal_task task.id task.status,
                rw (append_owner_message, said, found, new, live_status, there, over) refl,
              )
              | inr live ↦ inr (
                  inr (
                    c,
                    task,
                    said,
                    found,
                    new,
                    there,
                    rw (append_owner_message, said, found, new, live_status, there, live) refl,
                  ))
            ]
          ]
        ]
      ]
    ]
  ]

  append_owner_message-found :
      (s : Store) (id : ℕ) (text key : String) (c : Conversation) (m reply : Message)
      → (trim text == "") ≡ false
      → find_conversation id s.conversations ≡ some c
      → find_pair s c.task_id c.id key ≡ some (m, reply)
      → append_owner_message trim s id text key ≡ ok (record { message = m; reply = reply }, s)
  unfolding append_owner_message
  append_owner_message-found s id text key c m reply said found sent =
      rw (append_owner_message, said, found, sent) refl

no_posting :
    (s : Store) (task_id : String) (id : ℕ) (key : String)
    → IsKept s
    → find_pair s task_id id key ≡ none
    → first_some (posted_for task_id id key) s.events ≡ none
unfolding find_pair
no_posting s task_id id key kept missed =
    elim (Option-cases (first_some (posted_for task_id id key) s.events)) [
      | inl missing ↦ missing
      | inr (ids, named) ↦
          let (pair, a, b) = kept.sent task_id id key ids named in
          cc (rw (find_pair, named, a, b) at missed)
    ]

find_pair-posted :
    (s : Store) (c : Conversation) (task : TaskContext) (content key : String)
    → IsKept s
    → task.id ≡ c.task_id
    → find_pair s c.task_id c.id key ≡ none
    → find_pair (posted_store s c task content key) c.task_id c.id key
      ≡ some (sent_message s c task content, sent_reply s c task content)
unfolding find_pair
find_pair-posted s c task content key kept same missed =
    let m = sent_message s c task content in
    let (a, b) = posted_store-found s c task content key kept in
    rw
      (
        find_pair,
        first_some-append_last (posted_for c.task_id c.id key) s.events
            (posted task.id m.stage_id c.id s.next_id (s.next_id + 1) m.sequence key)
            (no_posting s c.task_id c.id key kept missed),
        (string_eq.beq_iff task.id c.task_id).1 same,
        (nat_beq_iff c.id c.id).1 refl,
        beq_refl key,
        a,
        b,
      )
      refl

-- The conversation that a message was posted to.
abbrev after_post : Conversation → Conversation
after_post c = record c { last_sequence = c.last_sequence + 2 }

find_conversation-posted :
    (id : ℕ) (c : Conversation) (cs : List Conversation)
    → find_conversation id cs ≡ some c
    → find_conversation id (map (add_sequences c.id 2) cs) ≡ some (after_post c)
find_conversation-posted id c cs found =
    rw ((nat_beq_iff c.id c.id).1 refl) at (find_conversation-numbered c.id 2 id cs found)

-- Where a message is accepted the rows stay kept, and sending it again with the same key gives the same
-- message and reply and changes nothing.
pub append_owner_message-repeats :
    (trim : String → String) (s after : Store) (id : ℕ) (text key : String) (p : Posted)
    → IsKept s
    → append_owner_message trim s id text key ≡ ok (p, after)
    → IsKept after × (append_owner_message trim after id text key ≡ ok (p, after))
append_owner_message-repeats trim s after id text key p kept e =
    elim (append_owner_message-cases trim s id text key) [
      | inl (x, refused) ↦ cc (e, refused)
      | inr (inl (d, found)) ↦
          subst
            (λ (r : Posted × Store).
              IsKept r.1 × (append_owner_message trim r.1 id text key ≡ ok r))
            (ok-injective (sym found ∙ e)) (kept, found)
      | inr (inr (c, task, said, found, missed, there, sent)) ↦
          let at =
            subst (λ i. find_conversation i s.conversations ≡ some c)
              (sym (found_id id s.conversations found)) found in
          let written = post-rows s c task (trim text) key kept at in
          let same =
            (string_eq.beq_iff task.id c.task_id).0
              ((find?-some (λ t. t.id == c.task_id) s.tasks there).1) in
          subst
            (λ (r : Posted × Store).
              IsKept r.1 × (append_owner_message trim r.1 id text key ≡ ok r))
            (ok-injective (sym written ∙ (sym sent ∙ e)))
            (
              posted_store-IsKept s c task (trim text) key kept at,
              append_owner_message-found trim (posted_store s c task (trim text) key) id text key
                  (after_post c) (sent_message s c task (trim text))
                  (sent_reply s c task (trim text)) said
                  (find_conversation-posted id c s.conversations found)
                  (find_pair-posted s c task (trim text) key kept same missed),
            )
    ]
