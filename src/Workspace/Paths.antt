-- ===== src/Workspace/Paths.antt =====
-- The change folder of a task: `changeDir` and what reads it back, packages/workspace/src/paths.ts.
use Prim.Native.String as Text
use text.Mathlib.Text.{starts_with}
use text.Mathlib.TextEquality.{starts_with_iff}
use Prim.Native.Char.{Char, code}
use text.Mathlib.TextLemmas.{append_assoc, cons-append}
use text.Mathlib.TextPositions.{starts_with-append}
use specmate.Prelude.{
  ℕ, ◌≢◌, [], ◌∷◌, true, Option, none, some, String, concat, ◌==◌, string_eq, if◌then◌else◌, ◌≡◌,
  refl, sym, ap, ◌∙◌, Bool-cases, inl, inr, arith,
}

-- `SpecLayout` of packages/core/src/spec-conventions.ts.
pub data SpecLayout : Type 0 where
  repository internal : SpecLayout

-- `CHANGE_ROOTS`.
abbrev pub change_root : SpecLayout → String
change_root repository = "openspec/changes"
change_root internal = ".specmate/changes"

abbrev name_or : String → Option String → String
name_or slug none = slug
name_or slug (some name) = if name == "" then slug else name

-- `changeDir`.
unfoldable pub change_dir : SpecLayout → String → Option String → String
change_dir layout slug change_name =
    concat (change_root layout ∷ "/" ∷ name_or slug change_name ∷ [])

-- `changeLayoutOf`.
unfoldable pub change_layout_of : String → SpecLayout
change_layout_of dir = if starts_with dir ".specmate/changes/" then internal else repository

-- `changeRootOf`.
unfoldable pub change_root_of : String → String
unfolding change_layout_of
change_root_of dir = change_root (change_layout_of dir)

first_code : String → ℕ
first_code Text.[] = 0
first_code (Text.◌∷◌ c text) = code c

first_code-append :
    (c : Char) (text more : String) → first_code (Text.◌++◌ (Text.◌∷◌ c text) more) ≡ code c
unfolding first_code
first_code-append c text more = rw (cons-append c text more) refl

internal_starts :
    (name : String)
    → starts_with (concat (".specmate/changes" ∷ "/" ∷ name ∷ [])) ".specmate/changes/" ≡ true
internal_starts name =
    ap (λ dir. starts_with dir ".specmate/changes/")
      (sym (append_assoc ".specmate/changes" "/" name))
    ∙ starts_with-append ".specmate/changes/" name

repository_starts :
    (name : String)
    → starts_with (concat ("openspec/changes" ∷ "/" ∷ name ∷ [])) ".specmate/changes/" ≢ true
repository_starts name h =
    let (rest, e) =
      (starts_with_iff (concat ("openspec/changes" ∷ "/" ∷ name ∷ [])) ".specmate/changes/").0 h in
    let same : ◌≡◌ {A = ℕ} 46 111 =
      sym (first_code-append "." "specmate/changes/" rest)
      ∙ (ap first_code e ∙ first_code-append "o" "penspec/changes" (concat ("/" ∷ name ∷ []))) in
    omega arith

-- The layout of a change folder is read back from its path, whatever the folder is called.
pub change_layout_of-change_dir :
    (layout : SpecLayout) (slug : String) (change_name : Option String)
    → change_layout_of (change_dir layout slug change_name) ≡ layout
unfolding change_layout_of change_dir
change_layout_of-change_dir internal slug name = rw (internal_starts (name_or slug name)) refl
change_layout_of-change_dir repository slug name =
    elim (Bool-cases (starts_with (change_dir repository slug name) ".specmate/changes/")) [
      | inl found ↦ absurd (repository_starts (name_or slug name) found)
      | inr other ↦ rw other refl
    ]
