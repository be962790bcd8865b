-- ===== src/Workspace/Lock.antt =====
-- The lock on a repository's mirror: `withDiskLock` and `isAbandoned` of packages/workspace/src/lock.ts,
-- as the steps of processes that share a directory. A process is a number, which is also its token.
-- What a step does on disk is atomic, a step of the source each; a process that dies makes no more.
pub mod Exclusion
pub mod Takeover
use specmate.Prelude.{
  ℕ, ◌+◌, ◌-◌, Bool, true, false, not, ◌||◌, Option, none, some, ◌==◌, nat_eq, ltb, is_some,
  if◌then◌else◌, ◌≡◌,
}

-- The lock's directory, with its holder's token once that is written, and when it was last touched.
pub record Dir : Type 0 where
  pub token : Option ℕ
  pub touched : ℕ

-- Where a process stands in `withDiskLock`.
pub data Pc : Type 0 where
  -- about to make the directory
  trying : Pc
  -- found it there
  refused : Pc
  -- judged it abandoned, about to remove it
  removing : Pc
  -- made it, about to write the holder
  created : Pc
  -- runs `fn`
  holding : Pc
  -- read the holder, about to remove the directory
  releasing : Pc
  -- left, or threw
  gone : Pc

pub record System : Type 0 where
  pub dir : Option Dir
  pub now : ℕ
  pub pc : ℕ → Pc

abbrev pub set_pc : (ℕ → Pc) → ℕ → Pc → ℕ → Pc
set_pc pc i p j = if j == i then p else pc j

-- `isAbandoned`, of the directory as it is.
abbrev pub is_abandoned : ℕ → ℕ → Option Dir → Bool
is_abandoned stale now none = true
is_abandoned stale now (some dir) = ltb stale (now - dir.touched)

abbrev pub fresh_dir : ℕ → Dir
fresh_dir now = record { token = none; touched = now }

abbrev pub signed : ℕ → ℕ → Option Dir → Option Dir
signed i now none = none
signed i now (some dir) = some (record { token = some i; touched = now })

-- Writing the holder into a directory that is gone throws.
abbrev pub after_signing : Option Dir → Pc
after_signing none = gone
after_signing (some dir) = holding

-- `utimes` on the holder file, whosever it is; without the file it fails and nothing is done.
abbrev pub beaten : ℕ → Option Dir → Option Dir
beaten now none = none
beaten now (some dir) = some (if is_some dir.token then record dir { touched = now } else dir)

-- `!current || current.token === token`.
abbrev pub token_is : ℕ → Option ℕ → Bool
token_is i none = true
token_is i (some token) = token == i

abbrev pub is_ours : ℕ → Option Dir → Bool
is_ours i none = true
is_ours i (some dir) = token_is i dir.token

abbrev pub moved : System → ℕ → Pc → System
moved s i p = record s { pc = set_pc s.pc i p }

abbrev pub moved_on : System → Option Dir → ℕ → Pc → System
moved_on s dir i p = record s { dir = dir; pc = set_pc s.pc i p }

-- One step of a process, or of the clock.
pub data Step (stale : ℕ) : System → System → Type 0 where
  create :
      (s : System) (i : ℕ)
      → s.pc i ≡ trying
      → s.dir ≡ none
      → Step stale s (moved_on s (some (fresh_dir s.now)) i created)
  meet :
      (s : System) (i : ℕ)
      → s.pc i ≡ trying
      → is_some s.dir ≡ true
      → Step stale s (moved s i refused)
  judge :
      (s : System) (i : ℕ)
      → s.pc i ≡ refused
      → is_abandoned stale s.now s.dir ≡ true
      → Step stale s (moved s i removing)
  retry :
      (s : System) (i : ℕ)
      → s.pc i ≡ refused
      → is_abandoned stale s.now s.dir ≡ false
      → Step stale s (moved s i trying)
  time_out :
      (s : System) (i : ℕ)
      → s.pc i ≡ refused
      → is_abandoned stale s.now s.dir ≡ false
      → Step stale s (moved s i gone)
  remove : (s : System) (i : ℕ) → s.pc i ≡ removing → Step stale s (moved_on s none i trying)
  sign :
      (s : System) (i : ℕ)
      → s.pc i ≡ created
      → Step stale s (moved_on s (signed i s.now s.dir) i (after_signing s.dir))
  beat :
      (s : System) (i : ℕ) → s.pc i ≡ holding → Step stale s (record s { dir = beaten s.now s.dir })
  finish :
      (s : System) (i : ℕ)
      → s.pc i ≡ holding
      → Step stale s (moved s i (if is_ours i s.dir then releasing else gone))
  release : (s : System) (i : ℕ) → s.pc i ≡ releasing → Step stale s (moved_on s none i gone)
  tick : (s : System) (later : ℕ) → Step stale s (record s { now = s.now + later })

-- The states that steps lead to.
pub data Reach (stale : ℕ) (s : System) : System → Type 0 where
  here : Reach stale s s
  next : {t u : System} → Reach stale s t → Step stale t u → Reach stale s u
