-- ===== src/Conversations/Opening.antt =====
-- What opening a conversation keeps of the rows: packages/core/src/conversations.ts.
use specmate.Prelude.{
  Bool, true, false, ◌&&◌, List, [], ◌∷◌, ◌++◌, find?, Option, none, some, ◌==◌, nat_eq, string_eq,
  ◌≡◌, refl, sym, ap, subst, arith, Option-cases, Bool-cases, if◌then◌else◌, ◌⊎◌, inl, inr,
  find?-append_left, find?-append_new, Memᴰ-append_new, nat_beq_iff,
}
use mathlib.Core.Option.{some-injective}
use specmate.Conversations.{
  Conversation, Store, created, first_some, created_for, posted_for, find_conversation,
}
use specmate.Conversations.Writing.{OpenInput, new_conversation, with_conversation}
use specmate.Conversations.Rows.{IsKept, found_id}

-- What is found with one more event is found before it, or is the last event's.
pub first_some-append_new {ℓ κ} :
    {A : Type ℓ} {B : Type κ} (f : A → Option B) (xs : List A) (x : A) {b : B}
    → first_some f (xs ++ x ∷ []) ≡ some b
    → (first_some f xs ≡ some b) ⊎ (f x ≡ some b)
first_some-append_new f [] x e = elim (Option-cases (f x)) [
  | inl missing ↦ inl (rw missing at e)
  | inr (y, found) ↦ inr (rw found (rw found at e))
]
first_some-append_new f (y ∷ xs) x e = elim (Option-cases (f y)) [
  | inl missing ↦ rw missing (first_some-append_new f xs x (rw missing at e))
  | inr (z, found) ↦ inl (rw found (rw found at e))
]

find?-append_cases {ℓ} :
    {A : Type ℓ} (p : A → Bool) (xs : List A) (x : A) {a : A}
    → find? p (xs ++ x ∷ []) ≡ some a
    → (find? p xs ≡ some a) ⊎ (a ≡ x)
find?-append_cases p [] x {a} e = elim (Bool-cases (p x)) [
  | inl fits ↦ inr (sym (some-injective x a (rw fits at e)))
  | inr other ↦ inl (rw other at e)
]
find?-append_cases p (y ∷ xs) x e = elim (Bool-cases (p y)) [
  | inl fits ↦ inl (rw fits (rw fits at e))
  | inr other ↦ rw other (find?-append_cases p xs x (rw other at e))
]

pub given_if {ℓ} :
    {A : Type ℓ} (b : Bool) (x : A) {y : A} → (if b then some x else none) ≡ some y → x ≡ y
given_if true x {y} e = some-injective x y e
given_if false x e = cc

pub with_conversation-IsKept :
    (s : Store) (input : OpenInput) → IsKept s → IsKept (with_conversation s input)
with_conversation-IsKept s input kept =
    let new = new_conversation s input in
    let found_new =
      find?-append_new (λ c. c.id == s.next_id) s.conversations new
        (λ c k. ground (arith, nat_beq_iff c.id s.next_id, kept.conversations_numbered c k))
        ((nat_beq_iff s.next_id s.next_id).1 refl) in
    record {
      conversations_numbered = λ c k. elim (Memᴰ-append_new s.conversations new k) [
        | inl old ↦ ground (arith, kept.conversations_numbered c old)
        | inr e ↦ rw (ap (λ (x : Conversation). x.id) e) (ground arith)
      ];
      messages_numbered = λ m k. ground (arith, kept.messages_numbered m k);
      replies = λ m id k e. ground (arith, kept.replies m id k e);
      addressed = λ m k. ground (arith, kept.addressed m k);
      ordered = λ m c k found.
          elim (find?-append_cases (λ x. x.id == m.conversation_id) s.conversations new found) [
            | inl old ↦ kept.ordered m c k old
            | inr e ↦ ground (
              arith,
              found_id m.conversation_id (s.conversations ++ new ∷ []) found,
              ap (λ (x : Conversation). x.id) e,
              kept.addressed m k,
            )
          ];
      opened = λ task_id key id e.
          elim (first_some-append_new (created_for task_id key) s.events
            (created input.task_id s.next_id input.key) e) [
              | inl old ↦
                  let (c, found) = kept.opened task_id key id old in
                  (c, find?-append_left (λ x. x.id == id) s.conversations (new ∷ []) found)
              | inr last ↦ (
                new,
                subst (λ i. find_conversation i (s.conversations ++ new ∷ []) ≡ some new)
                    (given_if (input.task_id == task_id && input.key == key) s.next_id last)
                    found_new,
              )
            ];
      sent = λ task_id conversation_id key ids e.
          elim (first_some-append_new (posted_for task_id conversation_id key) s.events
            (created input.task_id s.next_id input.key) e) [
              | inl old ↦ kept.sent task_id conversation_id key ids old
              | inr last ↦ cc
            ];
    }
