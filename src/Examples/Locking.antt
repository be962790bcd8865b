-- ===== src/Examples/Locking.antt =====
-- Processes at the lock of a mirror: packages/workspace/src/lock.ts.
use specmate.Prelude.{ℕ, ◌==◌, Bool-cases, inl, inr, some, nat_eq, ◌≡◌, ◌≢◌, refl}
use specmate.Workspace.Lock.{
  System, Pc, set_pc, refused, removing, created, holding, meet, moved, Reach, create, sign,
  moved_on, fresh_dir, signed,
}
use specmate.Workspace.Lock.Exclusion.{start, next, idle, Calm-exclusion}
use specmate.Workspace.Lock.Takeover.{Alone, Others, refused-holds, takeover-shared}

-- The first process has made the directory.
abbrev made : System
made = moved_on idle (some (fresh_dir 0)) 0 created

-- The second one finds it there.
abbrev met : System
met = moved made 1 refused

-- The first one has written its token.
abbrev locked : System
locked = moved_on met (signed 0 0 met.dir) 0 holding

nobody_removes :
    (pc : ℕ → Pc) (i : ℕ) (p : Pc)
    → p ≢ removing
    → ((j : ℕ) → pc j ≢ removing)
    → (j : ℕ) → set_pc pc i p j ≢ removing
nobody_removes pc i p other quiet j e = elim (Bool-cases (j == i)) [
  | inl same ↦ other (rw same at e)
  | inr apart ↦ quiet j (rw apart at e)
]

made-quiet : (i : ℕ) → made.pc i ≢ removing
made-quiet = nobody_removes idle.pc 0 created (λ e. cc) (λ i e. cc)

met-quiet : (i : ℕ) → met.pc i ≢ removing
met-quiet = nobody_removes made.pc 1 refused (λ e. cc) made-quiet

locked-quiet : (i : ℕ) → locked.pc i ≢ removing
locked-quiet = nobody_removes met.pc 0 holding (λ e. cc) met-quiet

Calm-exclusion_example : ◌≡◌ {A = ℕ} 0 0
Calm-exclusion_example =
    Calm-exclusion 30 locked 0 0
      (next
        (next (next start (create idle 0 refl refl) made-quiet) (meet made 1 refl refl) met-quiet)
        (sign met 0 refl) locked-quiet)
      refl refl

-- Two processes have met a directory that was last touched forty seconds ago.
abbrev left_over : System
left_over = record {
  dir = some (record { token = some 7; touched = 0 });
  now = 40;
  pc = λ i. refused;
}

refused-holds_example :
    (t : System) × Alone 30 1 left_over t × (t.pc 1 ≡ holding) × (t.now ≡ 40) × Others left_over t 1
refused-holds_example = refused-holds 30 left_over 1 refl refl

one-two : ◌≢◌ {A = ℕ} 1 2
one-two e = cc

takeover-shared_example :
    (t : System) × Reach 30 left_over t × (t.pc 1 ≡ holding) × (t.pc 2 ≡ holding)
takeover-shared_example = takeover-shared 30 left_over 1 2 one-two refl refl refl
