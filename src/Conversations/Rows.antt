-- ===== src/Conversations/Rows.antt =====
-- The rows of conversations as every operation keeps them, and that posting a message always succeeds
-- there: packages/core/src/conversations.ts over packages/db/src/conversation-store.ts.
use specmate.Prelude.{
  false, Option-cases, sym, ℕ, ◌+◌, ◌<◌, ◌≤◌, List, [], ◌∷◌, ◌++◌, map, some, String, ◌==◌, nat_eq,
  string_eq, ok, ◌≡◌, refl, sym, ap, arith, Memᴰ, Bool-cases, inl, inr, find?-map, find?-some,
  any-none, subst, Memᴰ-append_new, nat_beq_iff,
}
use specmate.Conversations.{
  Conversation, Message, Store, TaskContext, first_some, created_for, posted_for, find_conversation,
  find_message, find_current_stage,
}
use specmate.Conversations.Writing.{
  Posted, add_sequences, allocate_sequences, insert_message, same_slot, same_reply, replies_alike,
  owner_message, reply_message, with_records, post,
}

-- Numbers are below the next one, a message's sequence is at most the last of its conversation, and an event
-- names rows that are there.
pub record IsKept (s : Store) : Type 0 where
  pub conversations_numbered : (c : Conversation) → Memᴰ c s.conversations → c.id < s.next_id
  pub messages_numbered : (m : Message) → Memᴰ m s.messages → m.id < s.next_id
  pub replies : (m : Message) (id : ℕ) → Memᴰ m s.messages → m.reply_to ≡ some id → id < s.next_id
  pub addressed : (m : Message) → Memᴰ m s.messages → m.conversation_id < s.next_id
  pub ordered :
      (m : Message) (c : Conversation)
      → Memᴰ m s.messages
      → find_conversation m.conversation_id s.conversations ≡ some c
      → m.sequence ≤ c.last_sequence
  pub opened :
      (task_id key : String) (id : ℕ)
      → first_some (created_for task_id key) s.events ≡ some id
      → (c : Conversation) × (find_conversation id s.conversations ≡ some c)
  pub sent :
      (task_id : String) (conversation_id : ℕ) (key : String) (ids : ℕ × ℕ)
      → first_some (posted_for task_id conversation_id key) s.events ≡ some ids
      → (pair : Message × Message) × (find_message ids.0 s.messages ≡ some pair.0)
        × (find_message ids.1 s.messages ≡ some pair.1)

-- The rows after a message, its reply and their records.
abbrev pub sent_message : Store → Conversation → TaskContext → String → Message
sent_message s c task content =
    owner_message s.next_id c (c.last_sequence + 2) (find_current_stage s task.id) task.status
      content

abbrev pub sent_reply : Store → Conversation → TaskContext → String → Message
sent_reply s c task content =
    reply_message (s.next_id + 1) (sent_message s c task content) (c.last_sequence + 2)

abbrev pub rows_after : Store → Conversation → TaskContext → String → Store
rows_after s c task content = record s {
  conversations = map (add_sequences c.id 2) s.conversations;
  messages = (s.messages ++ sent_message s c task content ∷ []) ++ sent_reply s c task content ∷ [];
  next_id = s.next_id + 1 + 1;
}

abbrev pub posted_store : Store → Conversation → TaskContext → String → String → Store
posted_store s c task content key =
    with_records (rows_after s c task content) task (find_current_stage s task.id) content
      (sent_message s c task content) (sent_reply s c task content) key

abbrev pub posted_of : Store → Conversation → TaskContext → String → Posted
posted_of s c task content = record {
  message = sent_message s c task content;
  reply = sent_reply s c task content;
}

pub keeps_id :
    (id n other : ℕ) (c : Conversation) → ((add_sequences id n c).id == other) ≡ (c.id == other)
keeps_id id n other c = elim (Bool-cases (c.id == id)) [ inl e ↦ rw e refl | inr e ↦ rw e refl ]

pub found_id :
    (id : ℕ) (cs : List Conversation) {c : Conversation}
    → find_conversation id cs ≡ some c
    → c.id ≡ id
found_id id cs {c} e = (nat_beq_iff c.id id).0 ((find?-some (λ c. c.id == id) cs e).1)

-- The row that is found has grown by the count, if it is the one that is numbered.
pub find_conversation-numbered :
    (id n other : ℕ) (cs : List Conversation) {c : Conversation}
    → find_conversation other cs ≡ some c
    → find_conversation other (map (add_sequences id n) cs) ≡ some (add_sequences id n c)
find_conversation-numbered id n other cs e =
    find?-map (λ c. c.id == other) (add_sequences id n) cs (keeps_id id n other) e

allocate_sequences-found :
    (s : Store) (c : Conversation) (n : ℕ)
    → find_conversation c.id s.conversations ≡ some c
    → allocate_sequences s c.id n
      ≡ ok (
        c.last_sequence + n,
        record s { conversations = map (add_sequences c.id n) s.conversations },
      )
unfolding allocate_sequences
allocate_sequences-found s c n found =
    rw
      (
        allocate_sequences,
        find_conversation-numbered c.id n c.id s.conversations found,
        (nat_beq_iff c.id c.id).1 refl,
      )
      refl

insert_message-free :
    (s : Store) (m : Message)
    → ((other : Message)
        → Memᴰ other s.messages
        → other.conversation_id ≡ m.conversation_id
        → other.sequence < m.sequence)
    → ((other : Message) → Memᴰ other s.messages → same_reply m.reply_to other ≡ false)
    → insert_message s m
      ≡ ok (record s { messages = s.messages ++ m ∷ []; next_id = s.next_id + 1 })
unfolding insert_message
insert_message-free s m below unanswered =
    rw
      (
        any-none (same_slot m.conversation_id m.sequence) s.messages (λ other k. ground (
          arith,
          nat_beq_iff other.conversation_id m.conversation_id,
          nat_beq_iff other.sequence m.sequence,
          below other k,
        )),
        any-none (same_reply m.reply_to) s.messages unanswered,
      )
      refl

-- A reply to the message that takes the next number is the first one to it.
first_reply :
    (s : Store)
    → IsKept s
    → (m : Message) → Memᴰ m s.messages
    → replies_alike (some s.next_id) m.reply_to ≡ false
first_reply s kept m k = elim (Option-cases m.reply_to) [
  | inl nothing ↦ rw nothing refl
  | inr (id, e) ↦ rw e (ground (arith, nat_beq_iff s.next_id id, kept.replies m id k e))
]

-- No message of the conversation has a sequence above its last one.
below_last :
    (s : Store)
    → IsKept s
    → (c : Conversation) → find_conversation c.id s.conversations ≡ some c
    → (m : Message) → Memᴰ m s.messages
    → m.conversation_id ≡ c.id
    → m.sequence ≤ c.last_sequence
below_last s kept c found m k same =
    kept.ordered m c k
      (subst (λ id. find_conversation id s.conversations ≡ some c) (sym same) found)

-- On kept rows nothing of a posting is refused, and these are the rows that it leaves.
pub post-rows :
    (s : Store) (c : Conversation) (task : TaskContext) (content key : String)
    → IsKept s
    → find_conversation c.id s.conversations ≡ some c
    → post s c task content key ≡ ok (posted_of s c task content, posted_store s c task content key)
unfolding post
post-rows s c task content key kept found =
    let m = sent_message s c task content in
    let reply = sent_reply s c task content in
    let numbered = record s { conversations = map (add_sequences c.id 2) s.conversations } in
    let sent = record numbered { messages = s.messages ++ m ∷ []; next_id = s.next_id + 1 } in
    rw
      (
        post,
        allocate_sequences-found s c 2 found,
        insert_message-free numbered m
            (λ other k same. ground (arith, below_last s kept c found other k same))
            (λ other k. refl),
        insert_message-free sent reply
            (λ other k same. elim (Memᴰ-append_new s.messages m k) [
              | inl old ↦ ground (arith, below_last s kept c found other old same)
              | inr new ↦ rw (ap (λ (x : Message). x.sequence) new) (ground arith)
            ])
            (λ other k. elim (Memᴰ-append_new s.messages m k) [
              | inl old ↦ first_reply s kept other old
              | inr new ↦ rw (ap (λ (x : Message). x.reply_to) new) refl
            ]),
      )
      refl
