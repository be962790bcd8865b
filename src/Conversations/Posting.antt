-- ===== src/Conversations/Posting.antt =====
-- What posting a message keeps of the rows: packages/core/src/conversations.ts.
use specmate.Prelude.{
  ℕ, ◌+◌, ◌≤◌, false, ◌&&◌, List, [], ◌∷◌, ◌++◌, map, some, String, ◌==◌, nat_eq, string_eq, ◌≡◌,
  refl, sym, ◌∙◌, ap, subst, arith, Memᴰ, Bool-cases, inl, inr, find?-append_left, find?-append_new,
  find?-map_back, find?-some, map-Memᴰ, Memᴰ-append_new, nat_beq_iff,
}
use mathlib.Core.Option.{some-injective}
use specmate.Conversations.{
  Conversation, Message, Store, TaskContext, posted, created_for, posted_for, find_conversation,
  find_message,
}
use specmate.Conversations.Writing.{add_sequences}
use specmate.Conversations.Rows.{
  IsKept, posted_store, sent_message, sent_reply, find_conversation-numbered, keeps_id,
}
use specmate.Conversations.Opening.{first_some-append_new, given_if}

add_sequences-id : (id n : ℕ) (c : Conversation) → (add_sequences id n c).id ≡ c.id
add_sequences-id id n c = elim (Bool-cases (c.id == id)) [ inl e ↦ rw e refl | inr e ↦ rw e refl ]

add_sequences-last :
    (id n : ℕ) (c : Conversation) → c.last_sequence ≤ (add_sequences id n c).last_sequence
add_sequences-last id n c = elim (Bool-cases (c.id == id)) [
  | inl e ↦ rw e (ground arith)
  | inr e ↦ rw e (ground arith)
]

-- The conversation that a message is posted to has the last sequence moved by two.
last_after :
    (c y : Conversation) (cs : List Conversation)
    → find_conversation c.id cs ≡ some c
    → find_conversation c.id (map (add_sequences c.id 2) cs) ≡ some y
    → y.last_sequence ≡ c.last_sequence + 2
last_after c y cs at found =
    let same =
      some-injective (add_sequences c.id 2 c) y
        (sym (find_conversation-numbered c.id 2 c.id cs at) ∙ found) in
    ap (λ (x : Conversation). x.last_sequence) (sym same) ∙ rw ((nat_beq_iff c.id c.id).1 refl) refl

posted_store-ordered :
    (s : Store) (c : Conversation) (task : TaskContext) (content key : String)
    → IsKept s
    → find_conversation c.id s.conversations ≡ some c
    → (x : Message) (y : Conversation) → Memᴰ x (posted_store s c task content key).messages
    → find_conversation x.conversation_id (map (add_sequences c.id 2) s.conversations) ≡ some y
    → x.sequence ≤ y.last_sequence
posted_store-ordered s c task content key kept at x y k found =
    let m = sent_message s c task content in
    let reply = sent_reply s c task content in
    let newest = λ (e : x.conversation_id ≡ c.id). last_after c y s.conversations at (
      subst (λ i. find_conversation i (map (add_sequences c.id 2) s.conversations) ≡ some y) e
        found) in
    elim (Memᴰ-append_new (s.messages ++ m ∷ []) reply k) [
      | inl early ↦ elim (Memᴰ-append_new s.messages m early) [
        | inl old ↦
            let (before, there, grown) =
              find?-map_back (λ z. z.id == x.conversation_id) (add_sequences c.id 2) s.conversations
                (keeps_id c.id 2 x.conversation_id) found in
            ground (
              arith,
              kept.ordered x before old there,
              ap (λ (z : Conversation). z.last_sequence) grown,
              add_sequences-last c.id 2 before,
            )
        | inr e ↦ ground (
          arith,
          newest (ap (λ (z : Message). z.conversation_id) e),
          ap (λ (z : Message). z.sequence) e,
        )
      ]
      | inr e ↦ ground (
        arith,
        newest (ap (λ (z : Message). z.conversation_id) e),
        ap (λ (z : Message). z.sequence) e,
      )
    ]

unlike :
    (s : Store) (n : ℕ)
    → IsKept s
    → s.next_id ≤ n
    → (x : Message) → Memᴰ x s.messages
    → (x.id == n) ≡ false
unlike s n kept after x k = ground (arith, nat_beq_iff x.id n, kept.messages_numbered x k)

pub posted_store-found :
    (s : Store) (c : Conversation) (task : TaskContext) (content key : String)
    → IsKept s
    → (find_message s.next_id (posted_store s c task content key).messages
        ≡ some (sent_message s c task content))
      × (find_message (s.next_id + 1) (posted_store s c task content key).messages
          ≡ some (sent_reply s c task content))
posted_store-found s c task content key kept =
    let m = sent_message s c task content in
    let reply = sent_reply s c task content in
    (
      find?-append_left (λ x. x.id == s.next_id) (s.messages ++ m ∷ []) (reply ∷ [])
          (find?-append_new (λ x. x.id == s.next_id) s.messages m
            (unlike s s.next_id kept (ground arith)) ((nat_beq_iff s.next_id s.next_id).1 refl)),
      find?-append_new (λ x. x.id == s.next_id + 1) (s.messages ++ m ∷ []) reply
          (λ x k. elim (Memᴰ-append_new s.messages m k) [
            | inl old ↦ unlike s (s.next_id + 1) kept (ground arith) x old
            | inr e ↦ ground (arith, nat_beq_iff x.id (s.next_id + 1), ap (λ (z : Message). z.id) e)
          ])
          ((nat_beq_iff (s.next_id + 1) (s.next_id + 1)).1 refl),
    )

pub posted_store-IsKept :
    (s : Store) (c : Conversation) (task : TaskContext) (content key : String)
    → IsKept s
    → find_conversation c.id s.conversations ≡ some c
    → IsKept (posted_store s c task content key)
posted_store-IsKept s c task content key kept at =
    let m = sent_message s c task content in
    let reply = sent_reply s c task content in
    let sent = s.messages ++ m ∷ [] in
    let owned =
      kept.conversations_numbered c ((find?-some (λ x. x.id == c.id) s.conversations at).0) in
    record {
      conversations_numbered = λ x k.
          let (before, there, e) = map-Memᴰ (add_sequences c.id 2) s.conversations k in
          ground (
            arith,
            kept.conversations_numbered before there,
            ap (λ (z : Conversation). z.id) e,
            add_sequences-id c.id 2 before,
          );
      messages_numbered = λ x k. elim (Memᴰ-append_new sent reply k) [
        | inl early ↦ elim (Memᴰ-append_new s.messages m early) [
          | inl old ↦ ground (arith, kept.messages_numbered x old)
          | inr e ↦ rw (ap (λ (y : Message). y.id) e) (ground arith)
        ]
        | inr e ↦ rw (ap (λ (y : Message). y.id) e) (ground arith)
      ];
      replies = λ x id k e. elim (Memᴰ-append_new sent reply k) [
        | inl early ↦ elim (Memᴰ-append_new s.messages m early) [
          | inl old ↦ ground (arith, kept.replies x id old e)
          | inr new ↦ cc (e, ap (λ (y : Message). y.reply_to) new)
        ]
        | inr new ↦
            ground
              (arith, some-injective id s.next_id (sym e ∙ ap (λ (y : Message). y.reply_to) new))
      ];
      addressed = λ x k. elim (Memᴰ-append_new sent reply k) [
        | inl early ↦ elim (Memᴰ-append_new s.messages m early) [
          | inl old ↦ ground (arith, kept.addressed x old)
          | inr e ↦ rw (ap (λ (y : Message). y.conversation_id) e) (ground arith)
        ]
        | inr e ↦ rw (ap (λ (y : Message). y.conversation_id) e) (ground arith)
      ];
      ordered = posted_store-ordered s c task content key kept at;
      opened = λ task_id k id e.
          elim (first_some-append_new (created_for task_id k) s.events
            (posted task.id m.stage_id c.id m.id reply.id m.sequence key) e) [
              | inl old ↦
                  let (before, found) = kept.opened task_id k id old in
                  (
                    add_sequences c.id 2 before,
                    find_conversation-numbered c.id 2 id s.conversations found,
                  )
              | inr last ↦ cc
            ];
      sent = λ task_id conversation_id k ids e.
          elim (first_some-append_new (posted_for task_id conversation_id k) s.events
            (posted task.id m.stage_id c.id m.id reply.id m.sequence key) e) [
              | inl old ↦
                  let (pair, a, b) = kept.sent task_id conversation_id k ids old in
                  (
                    pair,
                    find?-append_left (λ x. x.id == ids.0) sent (reply ∷ [])
                        (find?-append_left (λ x. x.id == ids.0) s.messages (m ∷ []) a),
                    find?-append_left (λ x. x.id == ids.1) sent (reply ∷ [])
                        (find?-append_left (λ x. x.id == ids.1) s.messages (m ∷ []) b),
                  )
              | inr last ↦
                  let q =
                    given_if (task.id == task_id && (c.id == conversation_id && key == k))
                      (s.next_id, s.next_id + 1) last in
                  let (a, b) = posted_store-found s c task content key kept in
                  subst
                    (λ (i : ℕ × ℕ).
                      (pair : Message × Message) × (find_message i.0 (sent ++ reply ∷ [])
                        ≡ some pair.0)
                      × (find_message i.1 (sent ++ reply ∷ []) ≡ some pair.1))
                    q ((m, reply), a, b)
            ];
    }
