-- ===== src/Workspace/Changes/Parsed.antt =====
-- What git prints is read back: packages/workspace/src/diff.ts.
use Prim.Native.String as Text
use Prim.Native.Char.{Char, code}
use specmate.Prelude.{
  ◌||◌, false, List, [], ◌∷◌, String, split_on-append, has_char, string_eq, nat_beq, beq_cases, ◌≡◌,
  ◌≢◌, refl, sym, ap, ◌∙◌, inl, inr,
}
use text.Mathlib.TextLemmas.{cons-ne-nil}
use specmate.Workspace.Changes.{
  NameStatus, nul_fields, first_char, name_statuses, parse_name_status,
}

abbrev pub nul : Char
nul = "\0"

-- A field as git ends it under `-z`.
abbrev pub field : String → String → String
field part rest = Text.◌++◌ part (Text.◌∷◌ nul rest)

-- A field is read off where it is not empty and has no NUL.
pub nul_fields-field :
    (part rest : String)
    → has_char 0 part ≡ false
    → part ≢ ""
    → nul_fields (field part rest) ≡ part ∷ nul_fields rest
unfolding nul_fields
nul_fields-field part rest free there = elim (beq_cases part "") [
  | inl (t, e) ↦ absurd (there e)
  | inr (f, ne) ↦ rw (split_on-append nul part rest free, f) refl
]

-- `--name-status -z` of entries.
pub print_name_status : List NameStatus → String
print_name_status [] = ""
print_name_status (entry ∷ entries) =
    field entry.status (field entry.path (print_name_status entries))

-- A status of one letter, and a path.
pub record IsEntry (entry : NameStatus) : Type 0 where
  pub letter : Char
  pub status : entry.status ≡ Text.◌∷◌ letter ""
  pub not_nul : nat_beq (code letter) 0 ≡ false
  pub free : has_char 0 entry.path ≡ false
  pub there : entry.path ≢ ""

abbrev pub AllEntries : List NameStatus → Type 0
AllEntries [] = Unit
AllEntries (entry ∷ entries) = IsEntry entry × AllEntries entries

status_free : (entry : NameStatus) → IsEntry entry → has_char 0 entry.status ≡ false
unfolding has_char
status_free entry fits = ap (has_char 0) fits.status ∙ ap (λ b. b || false) fits.not_nul

status_there : (entry : NameStatus) → IsEntry entry → entry.status ≢ ""
status_there entry fits e = cons-ne-nil fits.letter "" (sym fits.status ∙ e)

read_entry :
    (entry : NameStatus) (rest : List NameStatus)
    → IsEntry entry
    → ◌≡◌ {A = List NameStatus}
        (record { status = first_char entry.status; path = entry.path } ∷ rest)
        (entry ∷ rest)
read_entry entry rest fits =
    ap (λ (s : String). record { status = s; path = entry.path } ∷ rest)
      (ap first_char fits.status ∙ sym fits.status)

-- `parseNameStatus` reads back the entries that git prints under `--name-status -z`, each a one-letter
-- status and a path that is neither empty nor has a NUL.
pub parse_name_status-print :
    (entries : List NameStatus)
    → AllEntries entries
    → parse_name_status (print_name_status entries) ≡ entries
unfolding parse_name_status print_name_status
parse_name_status-print [] all = refl
parse_name_status-print (entry ∷ entries) all =
    ap name_statuses (
      nul_fields-field entry.status (field entry.path (print_name_status entries))
        (status_free entry all.0) (status_there entry all.0)
      ∙ ap (λ tokens. entry.status ∷ tokens)
          (nul_fields-field entry.path (print_name_status entries) all.0.free all.0.there))
    ∙ (read_entry entry (name_statuses (nul_fields (print_name_status entries))) all.0
        ∙ ap (λ es. entry ∷ es) (parse_name_status-print entries all.1))
