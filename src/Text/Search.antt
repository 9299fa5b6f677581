-- ===== src/Text/Search.antt =====
-- `contains`, `starts_with`, `split`, `find`, `rfind` and `trim`.
use Prim.Native.Char.{code}
use deadmkt_node.Prelude.{
  ℕ, Bool, true, false, ◌&&◌, ◌||◌, leb, ◌==◌, nat_eq, if◌then◌else◌, Option, none, some, List, [],
  ◌∷◌, String,
}

abbrev pub Text : Type 0
Text = List ℕ

-- The code points of a literal.
abbrev pub codes : String → Text
codes String.[] = []
codes (String.◌∷◌ c s) = code c ∷ codes s

abbrev pub starts_with : Text → Text → Bool
starts_with [] s = true
starts_with (p ∷ ps) [] = false
starts_with (p ∷ ps) (c ∷ s) = p == c && starts_with ps s

abbrev pub contains_text : Text → Text → Bool
contains_text needle [] = starts_with needle []
contains_text needle (c ∷ s) = starts_with needle (c ∷ s) || contains_text needle s

-- The part before the first of a character and the part after it.
abbrev pub split_once : ℕ → Text → Option (Text × Text)
split_once c [] = none
split_once c (x ∷ s) =
    if x == c
    then some ([], s)
    else elim (split_once c s) [ none ↦ none | some (before, after) ↦ some (x ∷ before, after) ]

-- The part after the last of a character.
abbrev pub after_last : ℕ → Text → Option Text
after_last c [] = none
after_last c (x ∷ s) = elim (after_last c s) [
  | some rest ↦ some rest
  | none ↦ if x == c then some s else none
]

-- `split(c)`, which gives at least one part
abbrev pub split : ℕ → Text → List Text
split c [] = [] ∷ []
split c (x ∷ s) =
    if x == c
    then [] ∷ split c s
    else elim (split c s) [ [] ↦ (x ∷ []) ∷ [] | (part ∷ rest) ↦ (x ∷ part) ∷ rest ]

-- `char::is_whitespace`: White_Space of Unicode.
abbrev pub is_whitespace : ℕ → Bool
is_whitespace c =
    (leb 9 c && leb c 13)
    || c == 32
    || c == 133
    || c == 160
    || c == 5760
    || (leb 8192 c && leb c 8202)
    || c == 8232
    || c == 8233
    || c == 8239
    || c == 8287
    || c == 12288

abbrev pub trim_start : Text → Text
trim_start [] = []
trim_start (c ∷ s) = if is_whitespace c then trim_start s else c ∷ s

abbrev pub trim_end : Text → Text
trim_end [] = []
trim_end (c ∷ s) = elim (trim_end s) [
  | [] ↦ if is_whitespace c then [] else c ∷ []
  | (d ∷ rest) ↦ c ∷ d ∷ rest
]

abbrev pub trim : Text → Text
trim s = trim_end (trim_start s)

-- `strip_prefix`
abbrev pub strip_prefix : Text → Text → Option Text
strip_prefix [] s = some s
strip_prefix (p ∷ ps) [] = none
strip_prefix (p ∷ ps) (c ∷ s) = if p == c then strip_prefix ps s else none
