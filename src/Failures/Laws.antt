-- ===== src/Failures/Laws.antt =====
-- Which failures are worth another attempt: packages/core/src/failures.ts.
use mathlib.Core.Option.{some-injective}
use specmate.Prelude.{
  ◌≡◌, refl, ◌↔◌, inl, inr, Bool, true, false, List, [], ◌∷◌, Option, some, String, find?, ◌==◌,
  string_eq, sym, Bool-cases,
}
use specmate.Failures.{
  FailureReason, backend_error, timeout, failure_kind, failure_reasons, key_text, is_failure_reason,
  is_retryable, retryable_of,
}

-- What `find?` returns passes the test.
find?-passes {ℓ} :
    {A : Type ℓ} → (p : A → Bool) (xs : List A) (a : A) → find? p xs ≡ some a → p a ≡ true
find?-passes p [] a h = cc
find?-passes p (x ∷ xs) a h = elim (Bool-cases (p x)) [
  | inl t ↦ let same : x ≡ a = some-injective x a (rw t at h) in rw (sym same) t
  | inr f ↦ find?-passes p xs a (rw f at h)
]

is_failure_reason-key :
    (value : String) (r : FailureReason) → is_failure_reason value ≡ some r → key_text r ≡ value
unfolding is_failure_reason
is_failure_reason-key value r h =
    (string_eq.beq_iff (key_text r) value).0
      (find?-passes (λ s. key_text s == value) failure_reasons r h)

-- Every reason is found under its own key.
pub is_failure_reason-key_text : (r : FailureReason) → is_failure_reason (key_text r) ≡ some r
unfolding is_failure_reason key_text
is_failure_reason-key_text timeout = refl
is_failure_reason-key_text _ = refl

retryable_of-false :
    (value : String) (found : Option FailureReason)
    → is_failure_reason value ≡ found
    → retryable_of found ≡ false
    → value ≡ "backend_error"
unfolding failure_kind key_text retryable_of
retryable_of-false value (some backend_error) e h =
    sym (is_failure_reason-key value backend_error e)
retryable_of-false value _ e h = cc

-- The only text whose retries are withheld is `backend_error`; every other reason, known to the
-- table or not, keeps them.
pub is_retryable-false_iff :
    (reason : String) → (is_retryable reason ≡ false) ↔ (reason ≡ "backend_error")
unfolding is_retryable is_failure_reason retryable_of failure_kind key_text
is_retryable-false_iff reason =
    (retryable_of-false reason (is_failure_reason reason) refl, λ e. rw e refl)
