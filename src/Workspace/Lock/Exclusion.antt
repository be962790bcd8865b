-- ===== src/Workspace/Lock/Exclusion.antt =====
-- Two processes are in the locked section together only over a lock that was judged abandoned:
-- packages/workspace/src/lock.ts.
use specmate.Prelude.{
  ℕ, Bool, true, false, Option, none, some, is_some, nat_eq, beq_cases, clash, if◌then◌else◌, ◌≡◌,
  ◌≢◌, refl, sym, ap, ◌∙◌, ◌⊎◌, inl, inr,
}
use specmate.Workspace.Lock.{
  Dir, Pc, trying, refused, removing, created, holding, releasing, gone, System, set_pc, moved_on,
  signed, after_signing, beaten, is_ours, Step, create, meet, judge, retry, time_out, remove, sign,
  beat, finish, release, tick,
}

-- From making the directory to removing it.
abbrev pub in_section : Pc → Bool
in_section created = true
in_section holding = true
in_section releasing = true
in_section _ = false

-- The states that steps lead to without any process taking the directory for abandoned.
pub data Calm (stale : ℕ) (s : System) : System → Type 0 where
  start : Calm stale s s
  next :
      {t u : System}
      → Calm stale s t
      → Step stale t u
      → ((i : ℕ) → u.pc i ≢ removing)
      → Calm stale s u

pub record Inv (s : System) : Type 0 where
  pub held : (i : ℕ) → in_section (s.pc i) ≡ true → is_some s.dir ≡ true
  pub single : (i j : ℕ) → in_section (s.pc i) ≡ true → in_section (s.pc j) ≡ true → i ≡ j

section_moved :
    (pc : ℕ → Pc) (i : ℕ) (p : Pc) (j : ℕ)
    → in_section (set_pc pc i p j) ≡ true
    → ((j ≡ i) × (in_section p ≡ true)) ⊎ ((j ≢ i) × (in_section (pc j) ≡ true))
section_moved pc i p j h = elim (beq_cases j i) [
  | inl (t, e) ↦ inl (e, rw t at h)
  | inr (f, ne) ↦ inr (ne, rw f at h)
]

before :
    (s : System) (i : ℕ) (p : Pc) (j : ℕ)
    → (in_section p ≡ true → in_section (s.pc i) ≡ true)
    → in_section (set_pc s.pc i p j) ≡ true
    → in_section (s.pc j) ≡ true
before s i p j was h = elim (section_moved s.pc i p j h) [
  | inl (e, c) ↦ ap (λ k. in_section (s.pc k)) e ∙ was c
  | inr (ne, c) ↦ c
]

-- A process steps out, or stays in.
steps-Inv :
    (s : System) (dir : Option Dir) (i : ℕ) (p : Pc)
    → (in_section p ≡ true → in_section (s.pc i) ≡ true)
    → (in_section p ≡ true → is_some dir ≡ true)
    → ((j : ℕ) → j ≢ i → in_section (s.pc j) ≡ true → is_some dir ≡ true)
    → Inv s
    → Inv (moved_on s dir i p)
steps-Inv s dir i p was stays others inv = record {
  held = λ j h. elim (section_moved s.pc i p j h) [
    | inl (e, c) ↦ stays c
    | inr (ne, c) ↦ others j ne c
  ];
  single = λ j k h g. inv.single j k (before s i p j was h) (before s i p k was g);
}

nobody : (s : System) → s.dir ≡ none → Inv s → (j : ℕ) → in_section (s.pc j) ≢ true
nobody s free inv j c = clash (is_some s.dir) (inv.held j c) (ap is_some free)

signed_kept : (i now : ℕ) (dir : Option Dir) → is_some (signed i now dir) ≡ is_some dir
signed_kept i now none = refl
signed_kept i now (some dir) = refl

beaten_kept : (now : ℕ) (dir : Option Dir) → is_some (beaten now dir) ≡ is_some dir
beaten_kept now none = refl
beaten_kept now (some dir) = refl

Step-Inv :
    {stale : ℕ} {s t : System} → Step stale s t → ((i : ℕ) → s.pc i ≢ removing) → Inv s → Inv t
Step-Inv (create s i at free) calm inv = record {
  held = λ j h. refl;
  single = λ j k h g. elim (section_moved s.pc i created j h) [
    | inl (e, c) ↦ elim (section_moved s.pc i created k g) [
      | inl (e', c') ↦ e ∙ sym e'
      | inr (ne, c') ↦ absurd (nobody s free inv k c')
    ]
    | inr (ne, c) ↦ absurd (nobody s free inv j c)
  ];
}
Step-Inv (meet s i at there) calm inv =
    steps-Inv s s.dir i refused (λ c. cc) (λ c. cc) (λ j ne c. inv.held j c) inv
Step-Inv (judge s i at old) calm inv =
    steps-Inv s s.dir i removing (λ c. cc) (λ c. cc) (λ j ne c. inv.held j c) inv
Step-Inv (retry s i at young) calm inv =
    steps-Inv s s.dir i trying (λ c. cc) (λ c. cc) (λ j ne c. inv.held j c) inv
Step-Inv (time_out s i at young) calm inv =
    steps-Inv s s.dir i gone (λ c. cc) (λ c. cc) (λ j ne c. inv.held j c) inv
Step-Inv (remove s i at) calm inv = absurd (calm i at)
Step-Inv (sign s i at) calm inv =
    let same = signed_kept i s.now s.dir in
    let inside = ap in_section at in
    steps-Inv s (signed i s.now s.dir) i (after_signing s.dir) (λ c. inside)
      (λ c. same ∙ inv.held i inside) (λ j ne c. same ∙ inv.held j c) inv
Step-Inv (beat s i at) calm inv = record {
  held = λ j h. beaten_kept s.now s.dir ∙ inv.held j h;
  single = inv.single;
}
Step-Inv (finish s i at) calm inv =
    let inside = ap in_section at in
    steps-Inv s s.dir i (if is_ours i s.dir then releasing else gone) (λ c. inside)
      (λ c. inv.held i inside) (λ j ne c. inv.held j c) inv
Step-Inv (release s i at) calm inv =
    steps-Inv s none i gone (λ c. cc) (λ c. cc)
      (λ j ne c. absurd (ne (inv.single j i c (ap in_section at)))) inv
Step-Inv (tick s later) calm inv = record { held = inv.held; single = inv.single }

-- Before anyone starts: no directory, and every process is about to try.
abbrev pub idle : System
idle = record { dir = none; now = 0; pc = λ i. trying }

Calm-quiet :
    {stale : ℕ} {s t : System}
    → ((i : ℕ) → s.pc i ≢ removing)
    → Calm stale s t
    → (i : ℕ) → t.pc i ≢ removing
Calm-quiet quiet start = quiet
Calm-quiet quiet (next path step calm) = calm

Calm-Inv :
    {stale : ℕ} {s t : System} → ((i : ℕ) → s.pc i ≢ removing) → Inv s → Calm stale s t → Inv t
Calm-Inv quiet inv start = inv
Calm-Inv quiet inv (next path step calm) =
    Step-Inv step (Calm-quiet quiet path) (Calm-Inv quiet inv path)

idle-Inv : Inv idle
idle-Inv = record { held = λ i h. cc; single = λ i j h g. cc }

-- However the steps of any number of processes interleave, as long as no process takes the directory
-- for abandoned: two processes are never between making the directory and removing it at once.
pub Calm-exclusion :
    (stale : ℕ) (t : System) (i j : ℕ)
    → Calm stale idle t
    → in_section (t.pc i) ≡ true
    → in_section (t.pc j) ≡ true
    → i ≡ j
Calm-exclusion stale t i j path a b = (Calm-Inv (λ k e. cc) idle-Inv path).single i j a b
