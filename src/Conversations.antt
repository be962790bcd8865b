-- ===== src/Conversations.antt =====
-- Conversations with the owner: packages/core/src/conversations.ts over the rows that
-- packages/db/src/conversation-store.ts reads and writes. Rows are listed in the order of insertion and
-- take their numbers from one counter; trimming a text is the platform's.
pub mod Opening
pub mod Posted
pub mod Posting
pub mod Rows
pub mod Sent
pub mod Writing
pub mod Repeated
use specmate.Prelude.{
  ℕ, ◌+◌, ◌-◌, Bool, true, false, not, ◌&&◌, ◌||◌, List, [], ◌∷◌, ◌++◌, map, any, find?, reverse,
  Option, none, some, is_some, String, ◌==◌, nat_eq, string_eq, if◌then◌else◌, Result, ok, err,
  ◌>>=◌,
}
use specmate.Lifecycle.{TaskState, is_terminal}
use specmate.Roles.{AgentRole, ProviderId}

pub data ConversationStatus : Type 0 where
  accepting closed : ConversationStatus

pub data MessageRole : Type 0 where
  owner assistant system : MessageRole

pub data MessageStatus : Type 0 where
  completed queued responding failed_message : MessageStatus

-- `ConversationTaskContext`.
pub record TaskContext : Type 0 where
  pub id : String
  pub status : TaskState

-- `ConversationStageContext`, with the columns that `findCurrentStage` selects by.
pub record StageContext : Type 0 where
  pub id : ℕ
  pub task_id : String
  pub is_running : Bool
  pub role : AgentRole
  pub provider : ProviderId

-- `ConversationRecord`, without what no operation here reads.
pub record Conversation : Type 0 where
  pub id : ℕ
  pub task_id : String
  pub subject_kind : Option String
  pub subject_id : Option String
  pub status : ConversationStatus
  pub last_sequence : ℕ

-- `ConversationMessageRecord`, likewise.
pub record Message : Type 0 where
  pub id : ℕ
  pub conversation_id : ℕ
  pub sequence : ℕ
  pub reply_to : Option ℕ
  pub role : MessageRole
  pub content_md : String
  pub status : MessageStatus
  pub stage_id : Option ℕ
  pub task_state : TaskState

pub record FeedbackRow : Type 0 where
  pub task_id : String
  pub stage_id : Option ℕ
  pub role : Option AgentRole
  pub provider : Option ProviderId
  pub text_md : String

pub data ConversationEvent : Type 0 where
  created : (task_id : String) (conversation_id : ℕ) (key : String) → ConversationEvent
  posted :
      (task_id : String) (stage_id : Option ℕ) (conversation_id message_id response_id sequence : ℕ)
      (key : String)
      → ConversationEvent

pub record Store : Type 0 where
  pub tasks : List TaskContext
  pub stages : List StageContext
  pub conversations : List Conversation
  pub messages : List Message
  pub feedback : List FeedbackRow
  pub events : List ConversationEvent
  pub next_id : ℕ

pub data ConversationError : Type 0 where
  empty_message : ConversationError
  task_not_found : String → ConversationError
  conversation_not_found : ℕ → ConversationError
  terminal_task : String → TaskState → ConversationError
  conversation_closed : ℕ → ConversationError
  subject_conflict : (task_id kind id : String) → ConversationError
  subject_taken : ConversationError
  sequence_taken : (conversation_id sequence : ℕ) → ConversationError
  already_replied : ConversationError
  disappeared : ℕ → ConversationError

abbrev pub or_later {ℓ} : {A : Type ℓ} → Option A → Option A → Option A
or_later none later = later
or_later (some a) later = some a

abbrev pub first_some {ℓ κ} : {A : Type ℓ} {B : Type κ} → (A → Option B) → List A → Option B
first_some f [] = none
first_some f (x ∷ xs) = or_later (f x) (first_some f xs)

-- `findTask`.
abbrev pub find_task : Store → String → Option TaskContext
find_task s id = find? (λ task. task.id == id) s.tasks

-- `findConversation`.
abbrev pub find_conversation : ℕ → List Conversation → Option Conversation
find_conversation id conversations = find? (λ c. c.id == id) conversations

abbrev pub find_message : ℕ → List Message → Option Message
find_message id messages = find? (λ m. m.id == id) messages

-- The conversation of the event, if it is the creation that the query looks for.
abbrev pub created_for : String → String → ConversationEvent → Option ℕ
created_for task_id key (created task id k) = if task == task_id && k == key then some id else none
created_for task_id key (posted _ _ _ _ _ _ _) = none

-- `findConversationByIdempotencyKey`.
unfoldable pub find_by_key : Store → String → String → Option Conversation
find_by_key s task_id key = elim (first_some (created_for task_id key) s.events) [
  | none ↦ none
  | some id ↦ find_conversation id s.conversations
]

abbrev pub posted_for : String → ℕ → String → ConversationEvent → Option (ℕ × ℕ)
posted_for task_id conversation_id key (created _ _ _) = none
posted_for task_id conversation_id key (posted task _ conversation owner_id response_id _ k) =
    if task == task_id && (conversation == conversation_id && k == key)
    then some (owner_id, response_id)
    else none

abbrev pub both_messages : Option Message → Option Message → Option (Message × Message)
both_messages none reply = none
both_messages (some m) none = none
both_messages (some m) (some reply) = some (m, reply)

-- `findMessagePairByIdempotencyKey`.
unfoldable pub find_pair : Store → String → ℕ → String → Option (Message × Message)
find_pair s task_id conversation_id key =
    elim (first_some (posted_for task_id conversation_id key) s.events) [
      | none ↦ none
      | some (owner_id, response_id) ↦
          both_messages (find_message owner_id s.messages) (find_message response_id s.messages)
    ]

-- `findCurrentStage`: the latest running one.
abbrev pub find_current_stage : Store → String → Option StageContext
find_current_stage s task_id =
    find? (λ stage. stage.task_id == task_id && stage.is_running) (reverse s.stages)
