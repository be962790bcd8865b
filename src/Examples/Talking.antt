-- ===== src/Examples/Talking.antt =====
-- A conversation of one message: packages/core/src/conversations.ts.
use mathlib.Core.List.Memᴰ
use specmate.Prelude.{[], ◌∷◌, none, String, ok, ◌≡◌, refl}
use specmate.Lifecycle.{specify, is_terminal, same_state}
use specmate.Conversations.{Conversation, Store, TaskContext}
use specmate.Conversations.Writing.{
  Posted, OpenInput, open_conversation, new_conversation, with_conversation, post,
  append_owner_message,
}
use specmate.Conversations.Rows.{IsKept, posted_of, posted_store}
use specmate.Conversations.Posted.{IsPosted, post-posted}
use specmate.Conversations.Repeated.{open_conversation-repeats}
use specmate.Conversations.Sent.{append_owner_message-repeats}

abbrev task : TaskContext
task = record { id = "t1"; status = specify }

-- A task, and no conversation yet.
abbrev quiet : Store
quiet = record {
  tasks = task ∷ [];
  stages = [];
  conversations = [];
  messages = [];
  feedback = [];
  events = [];
  next_id = 1;
}

quiet-IsKept : IsKept quiet
quiet-IsKept = record {
  conversations_numbered = λ c m. absurd (Memᴰ.not-nil m);
  messages_numbered = λ c m. absurd (Memᴰ.not-nil m);
  replies = λ x id m e. absurd (Memᴰ.not-nil m);
  addressed = λ c m. absurd (Memᴰ.not-nil m);
  ordered = λ x c m e. absurd (Memᴰ.not-nil m);
  opened = λ task_id key id e. cc;
  sent = λ task_id id key ids e. cc;
}

abbrev opening : OpenInput
opening = record { task_id = "t1"; subject_kind = none; subject_id = none; key = "k1" }

abbrev talking : Store
talking = with_conversation quiet opening

abbrev talk : Conversation
talk = new_conversation quiet opening

opens : open_conversation quiet opening ≡ ok (talk, talking)
unfolding open_conversation is_terminal same_state
opens = refl

open_conversation-repeats_example :
    IsKept talking × (open_conversation talking opening ≡ ok (talk, talking))
open_conversation-repeats_example =
    open_conversation-repeats quiet talking opening talk quiet-IsKept opens

talking-IsKept : IsKept talking
talking-IsKept = (open_conversation-repeats quiet talking opening talk quiet-IsKept opens).0

post-posted_example :
    (r : Posted × Store) × (post talking talk task "why?" "k2" ≡ ok r)
    × IsPosted talking talk task "why?" "k2" r.0 r.1
post-posted_example = post-posted talking talk task "why?" "k2" talking-IsKept refl

abbrev as_is : String → String
as_is text = text

abbrev answered : Store
answered = posted_store talking talk task "why?" "k2"

sends :
    append_owner_message as_is talking 1 "why?" "k2"
    ≡ ok (posted_of talking talk task "why?", answered)
unfolding append_owner_message is_terminal same_state
sends = refl

append_owner_message-repeats_example :
    IsKept answered
    × (append_owner_message as_is answered 1 "why?" "k2"
        ≡ ok (posted_of talking talk task "why?", answered))
append_owner_message-repeats_example =
    append_owner_message-repeats as_is talking answered 1 "why?" "k2"
      (posted_of talking talk task "why?") talking-IsKept sends
