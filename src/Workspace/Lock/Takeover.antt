-- ===== src/Workspace/Lock/Takeover.antt =====
-- What becomes of an abandoned lock: packages/workspace/src/lock.ts.
use specmate.Prelude.{
  ℕ, true, Option, none, some, nat_eq, beq_cases, beq_refl, ◌≡◌, ◌≢◌, refl, sym, ◌∙◌, inl, inr,
}
use specmate.Workspace.Lock.{
  Pc, trying, refused, removing, created, holding, System, set_pc, moved, moved_on, signed,
  fresh_dir, is_abandoned, create, meet, judge, retry, time_out, remove, sign, beat, finish,
  release, tick, Step, Reach, here, next,
}

set_pc_self : (pc : ℕ → Pc) (i : ℕ) (p : Pc) → set_pc pc i p i ≡ p
set_pc_self pc i p = rw (beq_refl i) refl

set_pc_other : (pc : ℕ → Pc) (i : ℕ) (p : Pc) (j : ℕ) → j ≢ i → set_pc pc i p j ≡ pc j
set_pc_other pc i p j ne = elim (beq_cases j i) [
  | inl (t, e) ↦ absurd (ne e)
  | inr (f, e) ↦ rw f refl
]

Reach-trans : {stale : ℕ} {s t u : System} → Reach stale s t → Reach stale t u → Reach stale s u
Reach-trans path here = path
Reach-trans path (next more step) = next (Reach-trans path more) step

-- The process whose step it is; the clock's is nobody's.
abbrev pub actor : {stale : ℕ} {s t : System} → Step stale s t → Option ℕ
actor (create s i at free) = some i
actor (meet s i at there) = some i
actor (judge s i at old) = some i
actor (retry s i at young) = some i
actor (time_out s i at young) = some i
actor (remove s i at) = some i
actor (sign s i at) = some i
actor (beat s i at) = some i
actor (finish s i at) = some i
actor (release s i at) = some i
actor (tick s later) = none

-- The states that steps of one process lead to, with the others and the clock at rest.
pub data Alone (stale i : ℕ) (s : System) : System → Type 0 where
  stays : Alone stale i s s
  steps :
      {t u : System}
      → Alone stale i s t
      → (step : Step stale t u) → actor step ≡ some i
      → Alone stale i s u

Alone-trans :
    {stale i : ℕ} {s t u : System} → Alone stale i s t → Alone stale i t u → Alone stale i s u
Alone-trans path stays = path
Alone-trans path (steps more step own) = steps (Alone-trans path more) step own

Alone-Reach : {stale i : ℕ} {s t : System} → Alone stale i s t → Reach stale s t
Alone-Reach stays = here
Alone-Reach (steps path step own) = next (Alone-Reach path) step

-- Only a step of the clock moves it.
Step-now :
    {stale i : ℕ} {s t : System} (step : Step stale s t) → actor step ≡ some i → t.now ≡ s.now
Step-now (create s i at free) own = refl
Step-now (meet s i at there) own = refl
Step-now (judge s i at old) own = refl
Step-now (retry s i at young) own = refl
Step-now (time_out s i at young) own = refl
Step-now (remove s i at) own = refl
Step-now (sign s i at) own = refl
Step-now (beat s i at) own = refl
Step-now (finish s i at) own = refl
Step-now (release s i at) own = refl
Step-now (tick s later) own = cc

Alone-now : {stale i : ℕ} {s t : System} → Alone stale i s t → t.now ≡ s.now
Alone-now stays = refl
Alone-now (steps path step own) = Step-now step own ∙ Alone-now path

-- Another process is where it was.
abbrev pub Others : System → System → ℕ → Type 0
Others s t i = (j : ℕ) → j ≢ i → t.pc j ≡ s.pc j

-- A process that is about to remove the directory goes on to hold a new one, whatever is there by then.
removing-holds :
    (stale : ℕ) (s : System) (i : ℕ)
    → s.pc i ≡ removing
    → (t : System) × Alone stale i s t × (t.pc i ≡ holding) × Others s t i
removing-holds stale s i at =
    let a = moved_on s none i trying in
    let b = moved_on a (some (fresh_dir s.now)) i created in
    let t = moved_on b (signed i s.now (some (fresh_dir s.now))) i holding in
    (
      t,
      steps
          (steps (steps stays (remove s i at) refl) (create a i (set_pc_self s.pc i trying) refl)
            refl)
          (sign b i (set_pc_self a.pc i created)) refl,
      set_pc_self b.pc i holding,
      λ j ne.
          set_pc_other b.pc i holding j ne
          ∙ (set_pc_other a.pc i created j ne ∙ set_pc_other s.pc i trying j ne),
    )

-- The lock of a process that died does not hold the others up: whichever of them has met the directory
-- and finds it abandoned can come to hold the lock by its own steps alone, in which the clock and every
-- other process stay where they are.
pub refused-holds :
    (stale : ℕ) (s : System) (i : ℕ)
    → s.pc i ≡ refused
    → is_abandoned stale s.now s.dir ≡ true
    → (t : System) × Alone stale i s t × (t.pc i ≡ holding) × (t.now ≡ s.now) × Others s t i
refused-holds stale s i at old =
    let (t, path, holds, others) =
      removing-holds stale (moved s i removing) i (set_pc_self s.pc i removing) in
    let whole = Alone-trans (steps stays (judge s i at old) refl) path in
    (t, whole, holds, Alone-now whole, λ j ne. others j ne ∙ set_pc_other s.pc i removing j ne)

-- Two processes that meet the same abandoned directory can both come to hold the lock at once: judging
-- it and removing it are two steps, and the second one removes what the first one made.
pub takeover-shared :
    (stale : ℕ) (s : System) (i j : ℕ)
    → i ≢ j
    → s.pc i ≡ refused
    → s.pc j ≡ refused
    → is_abandoned stale s.now s.dir ≡ true
    → (t : System) × Reach stale s t × (t.pc i ≡ holding) × (t.pc j ≡ holding)
takeover-shared stale s i j apart at_i at_j old =
    let other : j ≢ i = λ e. apart (sym e) in
    let a = moved s i removing in
    let b = moved a j removing in
    let seen = set_pc_other s.pc i removing j other ∙ at_j in
    let i_removes = set_pc_other a.pc j removing i apart ∙ set_pc_self s.pc i removing in
    let (t, first, i_holds, same_t) = removing-holds stale b i i_removes in
    let (u, second, j_holds, same_u) =
      removing-holds stale t j (same_t j other ∙ set_pc_self a.pc j removing) in
    (
      u,
      Reach-trans (next (next here (judge s i at_i old)) (judge a j seen old))
          (Reach-trans (Alone-Reach first) (Alone-Reach second)),
      same_u i apart ∙ i_holds,
      j_holds,
    )
