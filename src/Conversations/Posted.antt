-- ===== src/Conversations/Posted.antt =====
-- What posting a message writes: `appendOwnerMessage` of packages/core/src/conversations.ts, past its
-- checks.
use specmate.Prelude.{
  ℕ, ◌+◌, ◌-◌, [], ◌∷◌, ◌++◌, map, Option, none, some, String, ◌==◌, nat_eq, nat_beq_iff, ok, ◌≡◌,
  ◌≢◌, refl, sym, ◌∙◌, arith, Bool-cases, inl, inr,
}
use specmate.Conversations.{
  Conversation, Store, TaskContext, StageContext, FeedbackRow, posted, owner, assistant, completed,
  queued, find_conversation, find_current_stage,
}
use specmate.Conversations.Writing.{
  Posted, post, stage_id_of, stage_role_of, stage_provider_of, add_sequences,
}
use specmate.Conversations.Rows.{
  IsKept, post-rows, posted_of, posted_store, find_conversation-numbered, found_id,
}

-- The records of a message that was sent while no stage ran, and while this one did.
abbrev pub quiet_feedback : TaskContext → String → FeedbackRow
quiet_feedback task content = record {
  task_id = task.id;
  stage_id = none;
  role = none;
  provider = none;
  text_md = content;
}

abbrev pub stage_feedback : TaskContext → StageContext → String → FeedbackRow
stage_feedback task stage content = record {
  task_id = task.id;
  stage_id = some stage.id;
  role = some stage.role;
  provider = some stage.provider;
  text_md = content;
}

abbrev pub feedback_of : TaskContext → String → Option StageContext → FeedbackRow
feedback_of task content none = quiet_feedback task content
feedback_of task content (some stage) = stage_feedback task stage content

abbrev pub running_id : Option StageContext → Option ℕ
running_id none = none
running_id (some stage) = some stage.id

-- Two messages, their numbers and their sequences, one row of feedback and one event are new.
pub record IsPosted (s : Store) (c : Conversation) (task : TaskContext) (content key : String)
    (p : Posted) (after : Store) : Type 0 where
  pub message : p.message ≡ record {
    id = s.next_id;
    conversation_id = c.id;
    sequence = c.last_sequence + 1;
    reply_to = none;
    role = owner;
    content_md = content;
    status = completed;
    stage_id = running_id (find_current_stage s task.id);
    task_state = task.status;
  }
  pub reply : p.reply ≡ record {
    id = s.next_id + 1;
    conversation_id = c.id;
    sequence = c.last_sequence + 2;
    reply_to = some s.next_id;
    role = assistant;
    content_md = "";
    status = queued;
    stage_id = running_id (find_current_stage s task.id);
    task_state = task.status;
  }
  pub messages : after.messages ≡ (s.messages ++ p.message ∷ []) ++ p.reply ∷ []
  pub counted :
      find_conversation c.id after.conversations
      ≡ some (record c { last_sequence = c.last_sequence + 2 })
  pub others :
      (id : ℕ) (other : Conversation)
      → id ≢ c.id
      → find_conversation id s.conversations ≡ some other
      → find_conversation id after.conversations ≡ some other
  pub feedback :
      after.feedback ≡ s.feedback ++ feedback_of task content (find_current_stage s task.id) ∷ []
  pub events :
      after.events
      ≡ s.events
        ++ posted task.id
            (running_id (find_current_stage s task.id))
            c.id
            s.next_id
            (s.next_id + 1)
            (c.last_sequence + 1)
            key
          ∷ []
  pub untouched : (after.tasks ≡ s.tasks) × (after.stages ≡ s.stages)
  pub numbered : after.next_id ≡ s.next_id + 2

running_id-same : (o : Option StageContext) → stage_id_of o ≡ running_id o
running_id-same none = refl
running_id-same (some stage) = refl

feedback_of-same :
    (task : TaskContext) (content : String) (o : Option StageContext)
    → ◌≡◌ {A = FeedbackRow}
        (record {
          task_id = task.id;
          stage_id = stage_id_of o;
          role = stage_role_of o;
          provider = stage_provider_of o;
          text_md = content;
        })
        (feedback_of task content o)
feedback_of-same task content none = refl
feedback_of-same task content (some stage) = refl

-- The conversation itself is the one that is counted on; another one stands as it was.
counted_on :
    (s : Store) (c : Conversation)
    → find_conversation c.id s.conversations ≡ some c
    → find_conversation c.id (map (add_sequences c.id 2) s.conversations)
      ≡ some (record c { last_sequence = c.last_sequence + 2 })
counted_on s c found =
    rw
      (find_conversation-numbered c.id 2 c.id s.conversations found, (nat_beq_iff c.id c.id).1 refl)
      refl

not_counted :
    (s : Store) (c : Conversation) (id : ℕ) (other : Conversation)
    → id ≢ c.id
    → find_conversation id s.conversations ≡ some other
    → find_conversation id (map (add_sequences c.id 2) s.conversations) ≡ some other
not_counted s c id other apart found = elim (Bool-cases (other.id == c.id)) [
  | inl same ↦
      absurd (apart (sym (found_id id s.conversations found) ∙ (nat_beq_iff other.id c.id).0 same))
  | inr differs ↦ rw (find_conversation-numbered c.id 2 id s.conversations found, differs) refl
]

first_of_two : (n : ℕ) → n + 2 - 1 ≡ n + 1
first_of_two n = omega arith

-- On kept rows a message to a conversation that is there is posted, never refused: the message and a
-- queued reply that names it take the next two numbers and the two sequences after the last one, with the
-- stage that runs and the status of the task; the conversation counts two sequences more and every other one
-- stands; one row of feedback, of the stage that runs, and one event that names both are new, and no task
-- and no stage changes.
pub post-posted :
    (s : Store) (c : Conversation) (task : TaskContext) (content key : String)
    → IsKept s
    → find_conversation c.id s.conversations ≡ some c
    → (r : Posted × Store) × (post s c task content key ≡ ok r)
      × IsPosted s c task content key r.0 r.1
post-posted s c task content key kept found =
    let stage = find_current_stage s task.id in
    let same = running_id-same stage in
    (
      (posted_of s c task content, posted_store s c task content key),
      post-rows s c task content key kept found,
      record {
        message = rw (same, first_of_two c.last_sequence) refl;
        reply = rw same refl;
        messages = refl;
        counted = counted_on s c found;
        others = not_counted s c;
        feedback = rw (feedback_of-same task content stage) refl;
        events = rw (same, first_of_two c.last_sequence) refl;
        untouched = (refl, refl);
        numbered = omega arith;
      },
    )
