-- ===== src/Lifecycle.antt =====
-- The task lifecycle: packages/core/src/state.ts and the shapes of packages/core/src/state-schemas.ts.
-- A cost is counted in billionths of a dollar, since there are no floats; see `Budgets`.
use specmate.Prelude.{
  ℕ, Bool, true, List, [], ◌∷◌, some, Eq, includes, get_elem?, nat_beq, nat_beq_iff, ◌≡◌, ◌↔◌, refl,
  ap,
}

pub data TaskState : Type 0 where
  draft planning kickoff_brief human_kickoff_gate specify research spec_review : TaskState
  human_spec_gate implement validate verify code_review summarize : TaskState
  human_final_gate publish archived waiting_human paused blocked cancelled failed : TaskState

-- `TASK_STATES`.
abbrev pub task_states : List TaskState
task_states =
    draft ∷ planning ∷ kickoff_brief ∷ human_kickoff_gate ∷ specify ∷ research ∷ spec_review
    ∷ human_spec_gate ∷ implement ∷ validate ∷ verify ∷ code_review ∷ summarize ∷ human_final_gate
    ∷ publish ∷ archived ∷ waiting_human ∷ paused ∷ blocked ∷ cancelled ∷ failed ∷ []

-- The position of a state in `task_states`.
ordinal : TaskState → ℕ
ordinal draft = 0
ordinal planning = 1
ordinal kickoff_brief = 2
ordinal human_kickoff_gate = 3
ordinal specify = 4
ordinal research = 5
ordinal spec_review = 6
ordinal human_spec_gate = 7
ordinal implement = 8
ordinal validate = 9
ordinal verify = 10
ordinal code_review = 11
ordinal summarize = 12
ordinal human_final_gate = 13
ordinal publish = 14
ordinal archived = 15
ordinal waiting_human = 16
ordinal paused = 17
ordinal blocked = 18
ordinal cancelled = 19
ordinal failed = 20

get_elem?-ordinal : (s : TaskState) → get_elem? task_states (ordinal s) ≡ some s
unfolding ordinal
get_elem?-ordinal draft = refl
get_elem?-ordinal _ = refl

-- `===` on statuses.
unfoldable pub same_state : TaskState → TaskState → Bool
unfolding ordinal
same_state a b = nat_beq (ordinal a) (ordinal b)

pub same_state_iff : (a b : TaskState) → (same_state a b ≡ true) ↔ (a ≡ b)
unfolding same_state
same_state_iff a b = (
  λ h. cc ((nat_beq_iff (ordinal a) (ordinal b)).0 h, get_elem?-ordinal a, get_elem?-ordinal b),
  λ e. (nat_beq_iff (ordinal a) (ordinal b)).1 (ap ordinal e),
)

instance abbrev pub task_state_eq : Eq TaskState
task_state_eq = record { beq = same_state; beq_iff = same_state_iff }

abbrev pub human_gates : List TaskState
human_gates = human_kickoff_gate ∷ human_spec_gate ∷ human_final_gate ∷ []

abbrev pub terminal_states : List TaskState
terminal_states = archived ∷ cancelled ∷ failed ∷ []

unfoldable pub is_terminal : TaskState → Bool
is_terminal state = includes state terminal_states

unfoldable pub is_human_gate : TaskState → Bool
is_human_gate state = includes state human_gates

pub record Caps : Type 0 where
  pub max_spec_iterations : ℕ
  pub max_impl_iterations : ℕ
  pub max_kickoff_regenerations : ℕ
  pub repeated_finding_threshold : ℕ
  pub max_plan_depth : ℕ
  pub max_prerequisite_tasks : ℕ
  pub max_questions_per_stage : ℕ

abbrev pub default_caps : Caps
default_caps = record {
  max_spec_iterations = 3;
  max_impl_iterations = 3;
  max_kickoff_regenerations = 2;
  repeated_finding_threshold = 2;
  max_plan_depth = 1;
  max_prerequisite_tasks = 2;
  max_questions_per_stage = 3;
}

-- `max_cost_usd` in billionths of a dollar.
pub record Budgets : Type 0 where
  pub max_wall_clock_minutes : ℕ
  pub max_cost_usd : ℕ

abbrev pub default_budgets : Budgets
default_budgets = record { max_wall_clock_minutes = 180; max_cost_usd = 20000000000 }

-- Every value of the type is listed, so a typed key is always a legal status.
pub includes-task_states : (s : TaskState) → includes s task_states ≡ true
unfolding same_state
includes-task_states draft = refl
includes-task_states _ = refl

unfoldable pub TaskState-discrete : Discrete TaskState
TaskState-discrete = hlevel
