-- ===== src/Runner/EditDiff.antt =====
-- Unified diffs for what a tool use did: packages/runner/src/edit-diff.ts. The text of a number is
-- the platform's; a line's index in a loop is the length of what stands before it.
pub mod Aligns
pub mod Common
pub mod Ends
pub mod Silent
pub mod Longest
pub mod Hunks
use specmate.Prelude.{
  ℕ, zero, suc, ◌+◌, ◌-◌, ◌*◌, max, min, Bool, true, false, not, ◌&&◌, ◌||◌, List, [], ◌∷◌, ◌++◌,
  map, reverse, filter, take, drop, length, is_empty, String, concat, join_lines, split_on, ◌==◌,
  nat_eq, string_eq, ltb, leb, if◌then◌else◌,
}

abbrev pub context_lines : ℕ
context_lines = 3

abbrev pub align_limit : ℕ
align_limit = 600

-- `UnifiedDiff`.
pub record UnifiedDiff : Type 0 where
  pub text : String
  pub additions : ℕ
  pub deletions : ℕ

-- An empty last line is popped.
abbrev pub without_phantom : List String → List String
without_phantom [] = []
without_phantom (line ∷ []) = if line == "" then [] else line ∷ []
without_phantom (line ∷ next ∷ lines) = line ∷ without_phantom (next ∷ lines)

-- `splitLines`.
unfoldable pub split_lines : String → List String
unfolding split_on
split_lines text = if text == "" then [] else without_phantom (split_on 10 text)

pub data OpKind : Type 0 where
  equal delete insert : OpKind

-- `Op`, with its 1-based lines; 0 for the side that has none.
pub record Op : Type 0 where
  pub kind : OpKind
  pub text : String
  pub before : ℕ
  pub after : ℕ

abbrev pub is_insert : OpKind → Bool
is_insert insert = true
is_insert _ = false

abbrev pub is_delete : OpKind → Bool
is_delete delete = true
is_delete _ = false

abbrev pub is_changed : OpKind → Bool
is_changed equal = false
is_changed _ = true

-- Lines that stand on both sides, from line `i` of the one and line `j` of the other.
abbrev pub equals_from : ℕ → ℕ → List String → List Op
equals_from i j [] = []
equals_from i j (line ∷ lines) =
    record { kind = equal; text = line; before = i; after = j } ∷ equals_from (i + 1) (j + 1) lines

abbrev pub deletes_from : ℕ → List String → List Op
deletes_from i [] = []
deletes_from i (line ∷ lines) =
    record { kind = delete; text = line; before = i; after = 0 } ∷ deletes_from (i + 1) lines

abbrev pub inserts_from : ℕ → List String → List Op
inserts_from j [] = []
inserts_from j (line ∷ lines) =
    record { kind = insert; text = line; before = 0; after = j } ∷ inserts_from (j + 1) lines

-- `replaceWholly`.
unfoldable pub replace_wholly : List String → List String → List Op
replace_wholly before after = deletes_from 1 before ++ inserts_from 1 after

abbrev pub head_or_zero : List ℕ → ℕ
head_or_zero [] = 0
head_or_zero (n ∷ ns) = n

abbrev pub tail : List ℕ → List ℕ
tail [] = []
tail (n ∷ ns) = ns

abbrev pub first_row : List (List ℕ) → List ℕ
first_row [] = []
first_row (row ∷ rows) = row

abbrev pub rows_below : List (List ℕ) → List (List ℕ)
rows_below [] = []
rows_below (row ∷ rows) = rows

-- The inner loop over a row of `lengths`, from the right, given the row below.
unfoldable pub fill_row : String → List String → List ℕ → List ℕ
fill_row x [] below = 0 ∷ []
fill_row x (y ∷ ys) below =
    let rest = fill_row x ys (tail below) in
    (if x == y then head_or_zero (tail below) + 1 else max (head_or_zero below) (head_or_zero rest))
    ∷ rest

abbrev pub zero_row : List String → List ℕ
zero_row [] = 0 ∷ []
zero_row (y ∷ ys) = 0 ∷ zero_row ys

-- `lengths`, row by row from the last one: a row for each line of the before-text, and the zero row.
unfoldable pub fill_table : List String → List String → List (List ℕ)
unfolding fill_row
fill_table [] after = zero_row after ∷ []
fill_table (x ∷ before) after =
    let rest = fill_table before after in fill_row x after (first_row rest) ∷ rest

-- The walk back: `rows` are the rows from `i` on, each from column `j` on.
unfoldable pub walk_back : ℕ → ℕ → List String → List String → List (List ℕ) → List Op
walk_back i j [] after rows = inserts_from j after
walk_back i j (x ∷ before) [] rows = deletes_from i (x ∷ before)
walk_back i j (x ∷ before) (y ∷ after) rows =
    let here = walk_back (i + 1) (j + 1) before after (map tail (rows_below rows)) in
    let down = walk_back (i + 1) j before (y ∷ after) (rows_below rows) in
    let along = walk_back i (j + 1) (x ∷ before) after (map tail rows) in
    if x == y
    then record { kind = equal; text = x; before = i; after = j } ∷ here
    else if leb (head_or_zero (tail (first_row rows))) (head_or_zero (first_row (rows_below rows)))
    then record { kind = delete; text = x; before = i; after = 0 } ∷ down
    else record { kind = insert; text = y; before = 0; after = j } ∷ along

-- `alignMiddle`.
unfoldable pub align_middle : List String → List String → List Op
unfolding walk_back fill_table
align_middle before after = walk_back 1 1 before after (fill_table before after)

-- The loop that counts `head`.
unfoldable pub common_head : List String → List String → ℕ
common_head [] after = 0
common_head (x ∷ before) [] = 0
common_head (x ∷ before) (y ∷ after) =
    let rest = common_head before after in if x == y then rest + 1 else 0

abbrev pub shift_line : ℕ → ℕ → ℕ
shift_line head line = if line == 0 then 0 else line + head

abbrev pub shift : ℕ → Op → Op
shift head op = record op { before = shift_line head op.before; after = shift_line head op.after }

abbrev pub align_within : List String → List String → List Op
align_within before after =
    if ltb align_limit (length before) || ltb align_limit (length after)
    then replace_wholly before after
    else align_middle before after

-- The operations of an alignment with `head` common lines first and `tail` common lines last.
abbrev pub align_at : ℕ → ℕ → List String → List String → List Op
align_at head tail before after =
    let before_end = length before - tail in
    let after_end = length after - tail in
    equals_from 1 1 (take head before)
    ++ (map (shift head) (
          align_within (take (before_end - head) (drop head before))
            (take (after_end - head) (drop head after)))
        ++ equals_from (before_end + 1) (after_end + 1) (drop before_end before))

-- `alignLines`: the loop that counts `tail` reads both ends backwards, down to the head.
unfoldable pub align_lines : List String → List String → List Op
unfolding common_head replace_wholly align_middle
align_lines before after =
    let head = common_head before after in
    let tail = common_head (reverse (drop head before)) (reverse (drop head after)) in
    align_at head tail before after

abbrev pub count_kind : (OpKind → Bool) → List Op → ℕ
count_kind p ops = length (filter (λ op. p op.kind) ops)

-- `MARKERS`.
abbrev pub marker : OpKind → String
marker equal = " "
marker delete = "-"
marker insert = "+"

-- A run of changes, by the indices of its first and its last one.
pub record Group : Type 0 where
  pub start : ℕ
  pub end : ℕ

-- `changed`: the indices of the changes, the first operation having index `i`.
abbrev pub changed_from : ℕ → List Op → List ℕ
changed_from i [] = []
changed_from i (op ∷ ops) =
    let rest = changed_from (i + 1) ops in if is_changed op.kind then i ∷ rest else rest

-- The loop over `changed` after its first index: the last group grows, or another one starts.
unfoldable pub groups_from : Group → List ℕ → List Group
groups_from last [] = last ∷ []
groups_from last (index ∷ changed) =
    let grown = groups_from (record last { end = index }) changed in
    let next = last ∷ groups_from (record { start = index; end = index }) changed in
    if leb (index - last.end) (context_lines * 2) then grown else next

-- `groups`.
unfoldable pub groups_of : List ℕ → List Group
unfolding groups_from
groups_of [] = []
groups_of (index ∷ changed) = groups_from (record { start = index; end = index }) changed

-- The operations that the hunk of a group shows, from the first one to the one after its last.
abbrev pub hunk_start : Group → ℕ
hunk_start group = group.start - context_lines

abbrev pub hunk_end : ℕ → Group → ℕ
hunk_end count group = min (count - 1) (group.end + context_lines) + 1

abbrev first_line : (Op → ℕ) → List Op → ℕ
first_line line [] = 0
first_line line (op ∷ ops) = line op

abbrev pub hunk_of : List Op → Group → List Op
hunk_of ops group =
    let from = hunk_start group in take (hunk_end (length ops) group - from) (drop from ops)

module _ (show : ℕ → String) where
  -- `renderHunk`.
  unfoldable pub render_hunk : List Op → String
  render_hunk ops =
      let before_lines = filter (λ op. not (is_insert op.kind)) ops in
      let after_lines = filter (λ op. not (is_delete op.kind)) ops in
      join_lines (
        concat (
          "@@ -"
          ∷ show (first_line (λ op. op.before) before_lines)
          ∷ ","
          ∷ show (length before_lines)
          ∷ " +"
          ∷ show (first_line (λ op. op.after) after_lines)
          ∷ ","
          ∷ show (length after_lines)
          ∷ " @@"
          ∷ [])
        ∷ map (λ op. concat (marker op.kind ∷ op.text ∷ [])) ops)

  -- `renderHunks`.
  unfoldable pub render_hunks : List Op → String
  unfolding render_hunk groups_of
  render_hunks ops =
      join_lines (map (λ group. render_hunk (hunk_of ops group)) (groups_of (changed_from 0 ops)))

  -- `unifiedDiff`.
  unfoldable pub unified_diff : String → String → UnifiedDiff
  unfolding render_hunks align_lines split_lines
  unified_diff before after =
      let ops = align_lines (split_lines before) (split_lines after) in
      let additions = count_kind is_insert ops in
      let deletions = count_kind is_delete ops in
      if additions == 0 && deletions == 0
      then record { text = ""; additions = 0; deletions = 0 }
      else record { text = render_hunks ops; additions = additions; deletions = deletions }

pub record Clamped : Type 0 where
  pub text : String
  pub clamped : Bool

-- `clampDiff`.
unfoldable pub clamp_diff : String → ℕ → Clamped
unfolding split_on
clamp_diff diff max_lines =
    let lines = if diff == "" then [] else split_on 10 diff in
    if leb (length lines) max_lines
    then record { text = diff; clamped = false }
    else record { text = join_lines (take max_lines lines); clamped = true }
