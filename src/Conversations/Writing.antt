-- ===== src/Conversations/Writing.antt =====
-- Opening a conversation and posting to it: packages/core/src/conversations.ts and what
-- packages/db/src/conversation-store.ts writes for it.
use specmate.Prelude.{
  ℕ, ◌+◌, ◌-◌, Bool, true, false, not, ◌&&◌, ◌||◌, [], ◌∷◌, ◌++◌, map, any, Option, none, some,
  String, ◌==◌, nat_eq, string_eq, if◌then◌else◌, Result, ok, err, ◌>>=◌,
}
use specmate.Lifecycle.{TaskState, is_terminal}
use specmate.Roles.{AgentRole, ProviderId}
use specmate.Conversations.{
  ConversationStatus, TaskContext, StageContext, Conversation, Message, Store, ConversationError,
  find_task, find_conversation, find_by_key, find_pair, find_current_stage, accepting, closed,
  owner, assistant, completed, queued, created, posted, empty_message, task_not_found,
  conversation_not_found, terminal_task, conversation_closed, subject_conflict, subject_taken,
  sequence_taken, already_replied, disappeared,
}

pub record OpenInput : Type 0 where
  pub task_id : String
  pub subject_kind : Option String
  pub subject_id : Option String
  pub key : String

-- Both are given, and they are those of the row.
abbrev pub same_subject : Option String → Option String → Bool
same_subject none b = false
same_subject (some a) none = false
same_subject (some a) (some b) = a == b

-- The index `conversations_subject_idx`.
abbrev pub has_subject : OpenInput → Conversation → Bool
has_subject input c =
    c.task_id == input.task_id
    && (same_subject c.subject_kind input.subject_kind
        && same_subject c.subject_id input.subject_id)

-- What the violation of the index is thrown as: an empty part of a subject counts as none.
abbrev pub conflict_of : String → Option String → Option String → ConversationError
conflict_of task_id none id = subject_taken
conflict_of task_id (some kind) none = subject_taken
conflict_of task_id (some kind) (some id) =
    if kind == "" || id == "" then subject_taken else subject_conflict task_id kind id

abbrev pub new_conversation : Store → OpenInput → Conversation
new_conversation s input = record {
  id = s.next_id;
  task_id = input.task_id;
  subject_kind = input.subject_kind;
  subject_id = input.subject_id;
  status = accepting;
  last_sequence = 0;
}

-- The row and its event.
abbrev pub with_conversation : Store → OpenInput → Store
with_conversation s input = record s {
  conversations = s.conversations ++ new_conversation s input ∷ [];
  events = s.events ++ created input.task_id s.next_id input.key ∷ [];
  next_id = s.next_id + 1;
}

-- `openConversation`.
unfoldable pub open_conversation :
    Store → OpenInput → Result ConversationError (Conversation × Store)
unfolding find_by_key
open_conversation s input = elim (find_task s input.task_id) [
  | none ↦ err (task_not_found input.task_id)
  | some task ↦ elim (find_by_key s task.id input.key) [
    | some existing ↦ ok (existing, s)
    | none ↦
        if is_terminal task.status
        then err (terminal_task task.id task.status)
        else if any (has_subject input) s.conversations
        then err (conflict_of input.task_id input.subject_kind input.subject_id)
        else ok (new_conversation s input, with_conversation s input)
  ]
]

pub record Posted : Type 0 where
  pub message : Message
  pub reply : Message

abbrev pub add_sequences : ℕ → ℕ → Conversation → Conversation
add_sequences id count c =
    if c.id == id then record c { last_sequence = c.last_sequence + count } else c

abbrev pub last_sequence_of : Option Conversation → Option ℕ
last_sequence_of none = none
last_sequence_of (some c) = some c.last_sequence

-- `allocateSequences`, with the last of the sequences.
unfoldable pub allocate_sequences : Store → ℕ → ℕ → Result ConversationError (ℕ × Store)
allocate_sequences s id count =
    let updated = map (add_sequences id count) s.conversations in
    elim (last_sequence_of (find_conversation id updated)) [
      | none ↦ err (disappeared id)
      | some last ↦ ok (last, record s { conversations = updated })
    ]

abbrev pub same_slot : ℕ → ℕ → Message → Bool
same_slot conversation_id sequence m =
    m.conversation_id == conversation_id && m.sequence == sequence

-- The index `conversation_messages_reply_idx`: a message that replies to nothing takes no place in it.
abbrev pub replies_alike : Option ℕ → Option ℕ → Bool
replies_alike none b = false
replies_alike (some a) none = false
replies_alike (some a) (some b) = a == b

abbrev pub same_reply : Option ℕ → Message → Bool
same_reply reply_to m = replies_alike reply_to m.reply_to

-- `insertMessage`, under the two indexes that its rows can meet; the row takes the next number.
unfoldable pub insert_message : Store → Message → Result ConversationError Store
insert_message s m =
    if any (same_slot m.conversation_id m.sequence) s.messages
    then err (sequence_taken m.conversation_id m.sequence)
    else if any (same_reply m.reply_to) s.messages
    then err already_replied
    else ok (record s { messages = s.messages ++ m ∷ []; next_id = s.next_id + 1 })

abbrev pub stage_id_of : Option StageContext → Option ℕ
stage_id_of none = none
stage_id_of (some stage) = some stage.id

abbrev pub stage_role_of : Option StageContext → Option AgentRole
stage_role_of none = none
stage_role_of (some stage) = some stage.role

abbrev pub stage_provider_of : Option StageContext → Option ProviderId
stage_provider_of none = none
stage_provider_of (some stage) = some stage.provider

abbrev pub owner_message : ℕ → Conversation → ℕ → Option StageContext → TaskState → String → Message
owner_message id c last stage status content = record {
  id = id;
  conversation_id = c.id;
  sequence = last - 1;
  reply_to = none;
  role = owner;
  content_md = content;
  status = completed;
  stage_id = stage_id_of stage;
  task_state = status;
}

abbrev pub reply_message : ℕ → Message → ℕ → Message
reply_message id m last = record {
  id = id;
  conversation_id = m.conversation_id;
  sequence = last;
  reply_to = some m.id;
  role = assistant;
  content_md = "";
  status = queued;
  stage_id = m.stage_id;
  task_state = m.task_state;
}

abbrev pub with_records :
    Store → TaskContext → Option StageContext → String → Message → Message → String → Store
with_records s task stage content m reply key = record s {
  feedback =
      s.feedback
      ++ record {
        task_id = task.id;
        stage_id = stage_id_of stage;
        role = stage_role_of stage;
        provider = stage_provider_of stage;
        text_md = content;
      }
        ∷ [];
  events =
      s.events
      ++ posted task.id (stage_id_of stage) m.conversation_id m.id reply.id m.sequence key ∷ [];
}

-- What `appendOwnerMessage` writes.
unfoldable pub post :
    Store → Conversation → TaskContext → String → String → Result ConversationError (Posted × Store)
unfolding allocate_sequences insert_message
post s c task content key =
    let stage = find_current_stage s task.id in
    allocate_sequences s c.id 2 >>= λ (last, numbered).
    let m = owner_message numbered.next_id c last stage task.status content in
    insert_message numbered m >>= λ sent.
    let reply = reply_message sent.next_id m last in
    insert_message sent reply >>= λ answered.
    ok (record { message = m; reply = reply }, with_records answered task stage content m reply key)

abbrev pub is_open_conversation : ConversationStatus → Bool
is_open_conversation accepting = true
is_open_conversation closed = false

-- `appendOwnerMessage`.
unfoldable pub append_owner_message :
    (String → String) → Store → ℕ → String → String → Result ConversationError (Posted × Store)
unfolding find_pair post
append_owner_message trim s conversation_id text key =
    let content = trim text in
    if content == ""
    then err empty_message
    else elim (find_conversation conversation_id s.conversations) [
      | none ↦ err (conversation_not_found conversation_id)
      | some c ↦ elim (find_pair s c.task_id c.id key) [
        | some (m, reply) ↦ ok (record { message = m; reply = reply }, s)
        | none ↦
            if not (is_open_conversation c.status)
            then err (conversation_closed c.id)
            else elim (find_task s c.task_id) [
              | none ↦ err (task_not_found c.task_id)
              | some task ↦
                  if is_terminal task.status
                  then err (terminal_task task.id task.status)
                  else post s c task content key
            ]
      ]
    ]
