-- ===== src/Roles.antt =====
-- Roles, their contracts and the choice of a reviewing provider: packages/core/src/roles.ts.
use specmate.Prelude.{
  Bool, true, false, not, List, [], ◌∷◌, none, some, String, Eq, eq_of_discrete, ◌==◌, filter,
  find?,
}

pub data AgentRole : Type 0 where
  planner researcher spec_writer implementer verifier validator reviewer : AgentRole
  summarizer answerer retro : AgentRole

unfoldable pub AgentRole-discrete : Discrete AgentRole
AgentRole-discrete = hlevel

instance abbrev pub agent_role_eq : Eq AgentRole
agent_role_eq = eq_of_discrete AgentRole-discrete

-- `AGENT_ROLES`.
abbrev pub agent_roles : List AgentRole
agent_roles =
    planner ∷ researcher ∷ spec_writer ∷ implementer ∷ verifier ∷ validator ∷ reviewer ∷ summarizer
    ∷ answerer ∷ retro ∷ []

-- `PIPELINE_ROLES`.
abbrev pub pipeline_roles : List AgentRole
pipeline_roles = filter (λ role. not (role == answerer)) agent_roles

pub data ProviderId : Type 0 where
  claude_code codex copilot : ProviderId

unfoldable pub ProviderId-discrete : Discrete ProviderId
ProviderId-discrete = hlevel

instance abbrev pub provider_id_eq : Eq ProviderId
provider_id_eq = eq_of_discrete ProviderId-discrete

abbrev pub providers : List ProviderId
providers = claude_code ∷ codex ∷ copilot ∷ []

pub data ArtifactKind : Type 0 where
  proposal spec design tasks review verification summary decision_log : ArtifactKind

abbrev pub artifact_kinds : List ArtifactKind
artifact_kinds =
    proposal ∷ spec ∷ design ∷ tasks ∷ review ∷ verification ∷ summary ∷ decision_log ∷ []

pub record RoleContract : Type 0 where
  pub role : AgentRole
  pub reads : List ArtifactKind
  pub writes : List ArtifactKind
  pub writes_code : Bool
  pub inject_spec_skill : Bool
  pub returns_verdict : Bool
  pub probes_harness : Bool
  pub declares_plan : Bool
  pub corroborated : Bool
  pub checks_proposal_completeness : Bool
  pub default_provider : ProviderId
  pub prompt_file : String

-- `ROLE_CONTRACTS`.
unfoldable pub role_contract : AgentRole → RoleContract
role_contract planner = record {
  role = planner;
  reads = proposal ∷ design ∷ spec ∷ decision_log ∷ [];
  writes = proposal ∷ design ∷ spec ∷ [];
  writes_code = false;
  inject_spec_skill = true;
  returns_verdict = false;
  probes_harness = true;
  declares_plan = true;
  corroborated = false;
  checks_proposal_completeness = true;
  default_provider = claude_code;
  prompt_file = "roles/planner.md";
}
role_contract researcher = record {
  role = researcher;
  reads = proposal ∷ decision_log ∷ [];
  writes = proposal ∷ design ∷ spec ∷ [];
  writes_code = false;
  inject_spec_skill = true;
  returns_verdict = false;
  probes_harness = false;
  declares_plan = false;
  corroborated = false;
  checks_proposal_completeness = false;
  default_provider = claude_code;
  prompt_file = "roles/researcher.md";
}
role_contract spec_writer = record {
  role = spec_writer;
  reads = proposal ∷ design ∷ spec ∷ decision_log ∷ review ∷ [];
  writes = spec ∷ tasks ∷ [];
  writes_code = false;
  inject_spec_skill = true;
  returns_verdict = false;
  probes_harness = false;
  declares_plan = false;
  corroborated = false;
  checks_proposal_completeness = false;
  default_provider = claude_code;
  prompt_file = "roles/spec-writer.md";
}
role_contract implementer = record {
  role = implementer;
  reads = tasks ∷ design ∷ spec ∷ decision_log ∷ review ∷ [];
  writes = tasks ∷ [];
  writes_code = true;
  inject_spec_skill = false;
  returns_verdict = false;
  probes_harness = false;
  declares_plan = false;
  corroborated = false;
  checks_proposal_completeness = false;
  default_provider = codex;
  prompt_file = "roles/implementer.md";
}
role_contract verifier = record {
  role = verifier;
  reads = spec ∷ design ∷ tasks ∷ [];
  writes = verification ∷ [];
  writes_code = true;
  inject_spec_skill = false;
  returns_verdict = true;
  probes_harness = false;
  declares_plan = false;
  corroborated = true;
  checks_proposal_completeness = false;
  default_provider = codex;
  prompt_file = "roles/verifier.md";
}
role_contract validator = record {
  role = validator;
  reads = proposal ∷ design ∷ spec ∷ tasks ∷ verification ∷ decision_log ∷ [];
  writes = verification ∷ review ∷ [];
  writes_code = true;
  inject_spec_skill = true;
  returns_verdict = true;
  probes_harness = false;
  declares_plan = false;
  corroborated = true;
  checks_proposal_completeness = false;
  default_provider = claude_code;
  prompt_file = "roles/validator.md";
}
role_contract reviewer = record {
  role = reviewer;
  reads = proposal ∷ design ∷ spec ∷ tasks ∷ verification ∷ decision_log ∷ [];
  writes = review ∷ [];
  writes_code = false;
  inject_spec_skill = true;
  returns_verdict = true;
  probes_harness = false;
  declares_plan = false;
  corroborated = false;
  checks_proposal_completeness = false;
  default_provider = codex;
  prompt_file = "roles/reviewer.md";
}
role_contract summarizer = record {
  role = summarizer;
  reads = proposal ∷ design ∷ spec ∷ tasks ∷ verification ∷ review ∷ decision_log ∷ [];
  writes = summary ∷ [];
  writes_code = false;
  inject_spec_skill = true;
  returns_verdict = false;
  probes_harness = false;
  declares_plan = false;
  corroborated = false;
  checks_proposal_completeness = false;
  default_provider = claude_code;
  prompt_file = "roles/summarizer.md";
}
role_contract answerer = record {
  role = answerer;
  reads = artifact_kinds;
  writes = [];
  writes_code = false;
  inject_spec_skill = false;
  returns_verdict = false;
  probes_harness = false;
  declares_plan = false;
  corroborated = false;
  checks_proposal_completeness = false;
  default_provider = claude_code;
  prompt_file = "roles/answerer.md";
}
role_contract retro = record {
  role = retro;
  reads = [];
  writes = proposal ∷ [];
  writes_code = false;
  inject_spec_skill = false;
  returns_verdict = false;
  probes_harness = false;
  declares_plan = false;
  corroborated = false;
  checks_proposal_completeness = false;
  default_provider = claude_code;
  prompt_file = "roles/retro.md";
}

-- `pickReviewProvider`; a caller that names no list passes `providers`.
unfoldable pub pick_review_provider : ProviderId → List ProviderId → ProviderId
pick_review_provider writer available = elim (find? (λ p. not (p == writer)) available) [
  | some other ↦ other
  | none ↦ writer
]
