-- ===== src/Workspace/Changes.antt =====
-- What a task's branch changed: packages/workspace/src/diff.ts, on what git printed. The number that a
-- text spells is the platform's.
pub mod Parsed
pub mod Capped
use Prim.Native.String as Text
use Prim.Native.Char.{Char, code}
use text.Mathlib.Text.{starts_with}
use specmate.Prelude.{
  ℕ, zero, suc, ◌+◌, ◌-◌, max, min, Bool, true, false, not, ◌&&◌, List, [], ◌∷◌, ◌++◌, map, filter,
  length, Option, none, some, String, concat, split_on, ◌==◌, nat_eq, string_eq, nat_beq, leb,
  if◌then◌else◌,
}

pub data DiffFileStatus : Type 0 where
  added modified deleted type_changed : DiffFileStatus

pub data DiffFileGroup : Type 0 where
  spec_file code_file : DiffFileGroup

-- `DiffFile`; a binary file has no counts.
pub record DiffFile : Type 0 where
  pub path : String
  pub status : DiffFileStatus
  pub group : DiffFileGroup
  pub additions : Option ℕ
  pub deletions : Option ℕ

abbrev pub max_diff_files : ℕ
max_diff_files = 2000

-- `STATUS_LETTERS`, with `modified` for any other letter.
abbrev pub status_of : String → DiffFileStatus
status_of letter =
    if letter == "A"
    then added
    else if letter == "D"
    then deleted
    else if letter == "T"
    then type_changed
    else modified

-- The fields that git ends with NUL each, without the empty ones.
unfoldable pub nul_fields : String → List String
unfolding split_on
nul_fields raw = filter (λ part. not (part == "")) (split_on 0 raw)

pub record NameStatus : Type 0 where
  pub status : String
  pub path : String

abbrev pub first_char : String → String
first_char Text.[] = "M"
first_char (Text.◌∷◌ c text) = Text.◌∷◌ c Text.[]

-- The loop that reads two tokens at a time; a last token that has no path is passed over.
abbrev pub name_statuses : List String → List NameStatus
name_statuses [] = []
name_statuses (status ∷ []) = []
name_statuses (status ∷ path ∷ tokens) =
    record { status = first_char status; path = path } ∷ name_statuses tokens

-- `parseNameStatus`.
unfoldable pub parse_name_status : String → List NameStatus
unfolding nul_fields
parse_name_status raw = name_statuses (nul_fields raw)

abbrev after_char : Char → Option (String × String) → Option (String × String)
after_char c none = none
after_char c (some (before, after)) = some (Text.◌∷◌ c before, after)

-- What stands before and after the first of a character.
unfoldable pub cut_at : ℕ → String → Option (String × String)
cut_at at Text.[] = none
cut_at at (Text.◌∷◌ c text) =
    let rest = cut_at at text in if nat_beq (code c) at then some ("", text) else after_char c rest

pub record LineCount : Type 0 where
  pub path : String
  pub additions : Option ℕ
  pub deletions : Option ℕ

module _ (number : String → ℕ) where
  abbrev pub count_of : String → Option ℕ
  count_of raw = if raw == "-" then none else some (number raw)

  -- One record of `--numstat`: only the first two tabs are structural.
  unfoldable pub numstat_record : String → Option LineCount
  unfolding cut_at
  numstat_record raw = elim (cut_at 9 raw) [
    | none ↦ none
    | some (added_raw, rest) ↦ elim (cut_at 9 rest) [
      | none ↦ none
      | some (removed_raw, path) ↦
          if path == ""
          then none
          else some (record {
            path = path;
            additions = count_of added_raw;
            deletions = count_of removed_raw;
          })
    ]
  ]

  abbrev pub add_count : Option LineCount → List LineCount → List LineCount
  add_count none counts = counts
  add_count (some count) counts = counts ++ count ∷ []

  abbrev pub read_counts : List LineCount → List String → List LineCount
  read_counts counts [] = counts
  read_counts counts (raw ∷ rest) = read_counts (add_count (numstat_record raw) counts) rest

  -- `parseNumstat`, in the order of writing.
  unfoldable pub parse_numstat : String → List LineCount
  unfolding nul_fields numstat_record
  parse_numstat raw = read_counts [] (nul_fields raw)

  -- `counts.get(path)`: the last one written.
  abbrev pub count_at : String → Option LineCount → List LineCount → Option LineCount
  count_at path found [] = found
  count_at path found (count ∷ counts) =
      count_at path (if count.path == path then some count else found) counts

  abbrev additions_of : Option LineCount → Option ℕ
  additions_of none = none
  additions_of (some count) = count.additions

  abbrev deletions_of : Option LineCount → Option ℕ
  deletions_of none = none
  deletions_of (some count) = count.deletions

  -- `taskFilesChanged`, of the two outputs.
  unfoldable pub task_files_changed : String → String → String → List DiffFile
  unfolding parse_numstat parse_name_status
  task_files_changed numstat name_status change_dir =
      let counts = parse_numstat numstat in
      map
        (λ entry. record {
          path = entry.path;
          status = status_of entry.status;
          group =
              if starts_with entry.path (concat (change_dir ∷ "/" ∷ []))
              then spec_file
              else code_file;
          additions = additions_of (count_at entry.path none counts);
          deletions = deletions_of (count_at entry.path none counts);
        })
        (parse_name_status name_status)

abbrev pub is_spec : DiffFileGroup → Bool
is_spec spec_file = true
is_spec code_file = false

-- The loop of `capDiffFiles`, with the room that each group has left.
unfoldable pub keep_files : ℕ → ℕ → List DiffFile → List DiffFile
keep_files spec_room code_room [] = []
keep_files spec_room code_room (file ∷ files) =
    let with_spec = file ∷ keep_files (spec_room - 1) code_room files in
    let with_code = file ∷ keep_files spec_room (code_room - 1) files in
    let without = keep_files spec_room code_room files in
    if is_spec file.group
    then (if spec_room == 0 then without else with_spec)
    else (if code_room == 0 then without else with_code)

-- `capDiffFiles`.
unfoldable pub cap_diff_files : List DiffFile → List DiffFile
unfolding keep_files
cap_diff_files files =
    let spec_files = length (filter (λ file. is_spec file.group) files) in
    if leb (length files) max_diff_files
    then files
    else keep_files (min spec_files max_diff_files) (max_diff_files - spec_files) files
