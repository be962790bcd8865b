-- ===== src/Failures.antt =====
-- The failure vocabulary of packages/core/src/failures.ts.
pub mod Laws
use specmate.Prelude.{
  Bool, true, false, List, [], ◌∷◌, Option, none, some, String, find?, ◌==◌, string_eq,
}

-- `FailureReason`, the keys of `FAILURE_KINDS`.
pub data FailureReason : Type 0 where
  timeout backend_error backend_unavailable provider_error no_result invalid_result : FailureReason
  agent_failed scope_violation incomplete_brief uncorroborated : FailureReason
  uncheckable_verdict malformed_message cleanup_failed : FailureReason

pub record FailureKind : Type 0 where
  pub produced_result : Bool
  pub retryable : Bool
  pub sentence : String

-- `FAILURE_KINDS`.
unfoldable pub failure_kind : FailureReason → FailureKind
failure_kind timeout = record {
  produced_result = false;
  retryable = true;
  sentence = "The run did not finish inside its time limit.";
}
failure_kind backend_error = record {
  produced_result = false;
  retryable = false;
  sentence = "The run could not be started: its image is missing on the host that must run it.";
}
failure_kind backend_unavailable = record {
  produced_result = false;
  retryable = true;
  sentence = "The run could not be started: the container runtime did not answer.";
}
failure_kind provider_error = record {
  produced_result = false;
  retryable = true;
  sentence = "The provider did not produce a result.";
}
failure_kind no_result = record {
  produced_result = false;
  retryable = true;
  sentence = "The run finished and left no result.";
}
failure_kind invalid_result = record {
  produced_result = false;
  retryable = true;
  sentence = "The run left a result that could not be read.";
}
failure_kind agent_failed = record {
  produced_result = false;
  retryable = true;
  sentence = "The agent reported that it could not do the work.";
}
failure_kind scope_violation = record {
  produced_result = true;
  retryable = true;
  sentence = "The run changed files its role may not touch.";
}
failure_kind incomplete_brief = record {
  produced_result = true;
  retryable = true;
  sentence = "The brief is missing what the pipeline needs to start.";
}
failure_kind uncorroborated = record {
  produced_result = true;
  retryable = true;
  sentence = "The run approved what its own report does not support.";
}
failure_kind uncheckable_verdict = record {
  produced_result = true;
  retryable = true;
  sentence = "The run left a verdict the harness could not check against its report.";
}
failure_kind malformed_message = record {
  produced_result = false;
  retryable = true;
  sentence = "The reply could not be read.";
}
failure_kind cleanup_failed = record {
  produced_result = false;
  retryable = true;
  sentence = "The stopped run could not be cleaned up.";
}

abbrev pub failure_reasons : List FailureReason
failure_reasons =
    timeout ∷ backend_error ∷ backend_unavailable ∷ provider_error ∷ no_result ∷ invalid_result
    ∷ agent_failed ∷ scope_violation ∷ incomplete_brief ∷ uncorroborated ∷ uncheckable_verdict
    ∷ malformed_message ∷ cleanup_failed ∷ []

-- The key of a reason in the table.
unfoldable pub key_text : FailureReason → String
key_text timeout = "timeout"
key_text backend_error = "backend_error"
key_text backend_unavailable = "backend_unavailable"
key_text provider_error = "provider_error"
key_text no_result = "no_result"
key_text invalid_result = "invalid_result"
key_text agent_failed = "agent_failed"
key_text scope_violation = "scope_violation"
key_text incomplete_brief = "incomplete_brief"
key_text uncorroborated = "uncorroborated"
key_text uncheckable_verdict = "uncheckable_verdict"
key_text malformed_message = "malformed_message"
key_text cleanup_failed = "cleanup_failed"

-- `isFailureReason`: the reason that the text names, if it names one.
unfoldable pub is_failure_reason : String → Option FailureReason
unfolding key_text
is_failure_reason value = find? (λ r. key_text r == value) failure_reasons

sentence_of : Option FailureReason → Option String
unfolding failure_kind
sentence_of none = none
sentence_of (some r) = some (failure_kind r).sentence

-- `failureSentence`.
unfoldable pub failure_sentence : String → Option String
unfolding is_failure_reason sentence_of
failure_sentence reason = sentence_of (is_failure_reason reason)

retryable_of : Option FailureReason → Bool
unfolding failure_kind
retryable_of none = true
retryable_of (some r) = (failure_kind r).retryable

-- `isRetryable`.
unfoldable pub is_retryable : String → Bool
unfolding is_failure_reason retryable_of
is_retryable reason = retryable_of (is_failure_reason reason)
