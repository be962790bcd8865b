-- ===== src/Prelude/Texts.antt =====
-- Texts of several parts.
use Prim.Native.String as Text
use Prim.Native.Nat.{ℕ}
use Prim.Native.Char.{Char, code}
use Prim.Native.String.{String}
use mathlib.Core.Path.{◌≡◌, refl}
use mathlib.Core.Bool.{Bool, true, false, ◌||◌}
use mathlib.Core.List.{List, [], ◌∷◌}
use native.Mathlib.Omega.{arith}
use text.Mathlib.TextLemmas.{nil-append, cons-append}
use specmate.Prelude.Tests.{nat_beq, if◌then◌else◌}

-- A template of the source: its parts, one after the other.
abbrev pub concat : List String → String
concat [] = ""
concat (part ∷ []) = part
concat (part ∷ next ∷ parts) = Text.◌++◌ part (concat (next ∷ parts))

-- `lines.join('\n')`.
abbrev pub join_lines : List String → String
join_lines [] = ""
join_lines (line ∷ []) = line
join_lines (line ∷ next ∷ lines) = concat (line ∷ "\n" ∷ join_lines (next ∷ lines) ∷ [])

-- A character before the first part of a split text.
abbrev pub push_char : Char → List String → List String
push_char c [] = []
push_char c (part ∷ parts) = Text.◌∷◌ c part ∷ parts

-- `text.split(c)` at a character, by its code: one part more than the text has of it.
unfoldable pub split_on : ℕ → String → List String
split_on at Text.[] = "" ∷ []
split_on at (Text.◌∷◌ c text) =
    let rest = split_on at text in if nat_beq (code c) at then "" ∷ rest else push_char c rest

-- Does the text have the character?
unfoldable pub has_char : ℕ → String → Bool
has_char at Text.[] = false
has_char at (Text.◌∷◌ c text) = nat_beq (code c) at || has_char at text

nat_beq_self : (n : ℕ) → nat_beq n n ≡ true
nat_beq_self n = ground arith

neither : (a b : Bool) → (a || b) ≡ false → (a ≡ false) × (b ≡ false)
neither a b h = ground arith

-- A part without the character, and the character after it, split off.
pub split_on-append :
    (c : Char) (part rest : String)
    → has_char (code c) part ≡ false
    → split_on (code c) (Text.◌++◌ part (Text.◌∷◌ c rest)) ≡ part ∷ split_on (code c) rest
unfolding split_on has_char
split_on-append c Text.[] rest free = rw (nil-append (Text.◌∷◌ c rest), nat_beq_self (code c)) refl
split_on-append c (Text.◌∷◌ d part) rest free =
    let (other, more) = neither (nat_beq (code d) (code c)) (has_char (code c) part) free in
    rw (cons-append d part (Text.◌∷◌ c rest), other, split_on-append c part rest more) refl
