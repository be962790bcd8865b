-- ===== src/Examples/Diffing.antt =====
-- A change of two lines: packages/runner/src/edit-diff.ts and packages/workspace/src.
use specmate.Prelude.{has_char, ℕ, zero, suc, String, List, [], ◌∷◌, some, ◌≡◌, ◌↔◌, refl}
use specmate.Runner.EditDiff.{
  align_lines, align_middle, unified_diff, split_lines, groups_of, changed_from,
}
use specmate.Runner.EditDiff.Aligns.{Aligns, align_lines-Aligns}
use specmate.Runner.EditDiff.Silent.{unified_diff-silent_iff}
use specmate.Runner.EditDiff.Longest.{IsLongest, kept, align_middle-IsLongest}
use specmate.Runner.EditDiff.Hunks.{Shows, groups_of-Shows}
use specmate.Workspace.Paths.{change_layout_of, change_dir, repository, change_layout_of-change_dir}
use specmate.Workspace.Changes.{
  NameStatus, parse_name_status, DiffFile, cap_diff_files, modified, added, spec_file, code_file,
}
use specmate.Workspace.Changes.Parsed.{IsEntry, print_name_status, parse_name_status-print}
use specmate.Workspace.Changes.Capped.{Capped, cap_diff_files-Capped}

abbrev old_lines : List String
old_lines = "use a" ∷ "let x = 1" ∷ "let y = 2" ∷ "end" ∷ []

abbrev new_lines : List String
new_lines = "use a" ∷ "let y = 2" ∷ "let z = 3" ∷ "end" ∷ []

abbrev decimal : ℕ → String
decimal zero = "0"
decimal (suc zero) = "1"
decimal (suc (suc n)) = "many"

align_lines-Aligns_example : Aligns 1 1 old_lines new_lines (align_lines old_lines new_lines)
align_lines-Aligns_example = align_lines-Aligns old_lines new_lines

align_middle-IsLongest_example :
    IsLongest old_lines new_lines (kept (align_middle old_lines new_lines))
align_middle-IsLongest_example = align_middle-IsLongest old_lines new_lines

unified_diff-silent_iff_example :
    (((unified_diff decimal "a\nb" "a\nb\n").additions ≡ 0)
      × ((unified_diff decimal "a\nb" "a\nb\n").deletions ≡ 0))
    ↔ (split_lines "a\nb" ≡ split_lines "a\nb\n")
unified_diff-silent_iff_example = unified_diff-silent_iff decimal "a\nb" "a\nb\n"

groups_of-Shows_example :
    Shows
      (align_lines old_lines new_lines)
      (groups_of (changed_from 0 (align_lines old_lines new_lines)))
groups_of-Shows_example = groups_of-Shows (align_lines old_lines new_lines)

change_layout_of-change_dir_example :
    change_layout_of (change_dir repository "fix-login" (some "2026-fix-login")) ≡ repository
change_layout_of-change_dir_example =
    change_layout_of-change_dir repository "fix-login" (some "2026-fix-login")

abbrev entries : List NameStatus
entries =
    record { status = "M"; path = "src/a.ts" } ∷ record { status = "A"; path = "docs/b.md" } ∷ []

src-IsEntry : IsEntry (record { status = "M"; path = "src/a.ts" })
unfolding has_char
src-IsEntry = record { letter = "M"; status = refl; not_nul = refl; free = refl; there = λ e. cc }

docs-IsEntry : IsEntry (record { status = "A"; path = "docs/b.md" })
unfolding has_char
docs-IsEntry = record { letter = "A"; status = refl; not_nul = refl; free = refl; there = λ e. cc }

parse_name_status-print_example : parse_name_status (print_name_status entries) ≡ entries
parse_name_status-print_example = parse_name_status-print entries (src-IsEntry, (docs-IsEntry, tt))

abbrev changed_files : List DiffFile
changed_files =
    record {
      path = "src/a.ts";
      status = modified;
      group = code_file;
      additions = some 3;
      deletions = some 1;
    }
    ∷ record {
      path = ".specmate/changes/login/spec.md";
      status = added;
      group = spec_file;
      additions = some 9;
      deletions = some 0;
    }
    ∷ []

cap_diff_files-Capped_example : Capped changed_files (cap_diff_files changed_files)
cap_diff_files-Capped_example = cap_diff_files-Capped changed_files
