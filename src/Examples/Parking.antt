-- ===== src/Examples/Parking.antt =====
-- The end of `completeStage` of apps/orchestrator/src/engine.ts on the shipped graph: the second round
-- over a finding parks the task.
use specmate.Prelude.{false, [], ◌∷◌, some, ok, ◌≡◌, refl, inl}
use specmate.Lifecycle.{specify, spec_review, waiting_human, same_state, is_terminal}
use specmate.Pipeline.Advance.{repeated_finding, loop_to}
use specmate.Engine.State.{World}
use specmate.Engine.Parks.{park_stage, finish_stage}
use specmate.Engine.Parks.Settles.{park_stage-IsSettled}
use specmate.Engine.Parks.Ends.{finish_stage-IsSettled}
use specmate.Engine.Settled.{IsSettled}
use specmate.Examples.Inputs.{shipped-Distinct, revising, first_round, first_record, second_record}
use specmate.Examples.Rounds.{loops, stalls_at_review, repeated_finding-unasked, review_node}
use specmate.Examples.Living.{world_at, shipped-Routes, one_number, one_prompt}

review_lives : is_terminal spec_review ≡ false
unfolding is_terminal same_state
review_lives = refl

park_stage-IsSettled_example :
    (after : World) × (park_stage one_number one_prompt
        (world_at spec_review)
        4
        review_node.0
        repeated_finding
        spec_review
        (some second_record)
        (first_round ∷ [])
      ≡ ok after)
    × (after.task.status ≡ waiting_human)
    × (after.task.resume_status ≡ some spec_review)
    × IsSettled after
park_stage-IsSettled_example =
    park_stage-IsSettled one_number one_prompt (world_at spec_review) 4 review_node.0 revising
      (first_round ∷ []) repeated_finding spec_review (some second_record) shipped-Distinct
      shipped-Routes tt review_lives review_node.1 stalls_at_review (inl repeated_finding-unasked)

-- The first round leads back to the specification.
finish_stage-IsSettled_example :
    (after : World) × (finish_stage one_number one_prompt
        (world_at spec_review)
        4
        review_node.0
        (loop_to specify first_record)
        []
      ≡ ok after)
    × (after.task.status ≡ specify)
    × IsSettled after
finish_stage-IsSettled_example =
    finish_stage-IsSettled one_number one_prompt (world_at spec_review) 4 review_node.0 revising []
      (loop_to specify first_record) shipped-Distinct shipped-Routes tt review_lives review_node.1
      loops tt
