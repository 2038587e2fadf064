-- ===== src/Python/Text.antt =====
-- Python's `str`, as the list of its code points, with the methods that the plugin calls. The
-- classes of characters (white space, digits) are those of ASCII.
pub mod Laws
pub mod Number
pub mod Words
use Prim.Native.Char.{code}
use whitebox_tempest_plugin.Prelude.{
  ℕ, String, Bool, true, false, ◌&&◌, ◌||◌, List, [], ◌∷◌, ◌++◌, Option, none, some, leb, eqb,
  if◌then◌else◌,
}

abbrev pub Text : Type 0
Text = List ℕ

-- A literal.
abbrev pub codes : String → Text
codes String.[] = []
codes (String.◌∷◌ c s) = code c ∷ codes s

unfoldable pub text_eq : Text → Text → Bool
text_eq [] [] = true
text_eq [] (d ∷ t) = false
text_eq (c ∷ s) [] = false
text_eq (c ∷ s) (d ∷ t) = eqb c d && text_eq s t

-- `c.isspace()`
abbrev pub is_space : ℕ → Bool
is_space c = (leb 9 c && leb c 13) || (leb 28 c && leb c 32)

unfoldable pub lstrip : Text → Text
lstrip [] = []
lstrip (c ∷ s) = if is_space c then lstrip s else c ∷ s

unfoldable pub rstrip : Text → Text
rstrip [] = []
rstrip (c ∷ s) = elim (rstrip s) [ [] ↦ if is_space c then [] else c ∷ [] | d ∷ t ↦ c ∷ d ∷ t ]

unfoldable pub strip : Text → Text
unfolding lstrip rstrip
strip s = rstrip (lstrip s)

abbrev cons_head : ℕ → List Text → List Text
cons_head c [] = (c ∷ []) ∷ []
cons_head c (p ∷ ps) = (c ∷ p) ∷ ps

-- `s.split(sep)` for a separator of one character. There is always at least one part.
unfoldable pub split : ℕ → Text → List Text
split sep [] = [] ∷ []
split sep (c ∷ s) = let rest = split sep s in if eqb c sep then [] ∷ rest else cons_head c rest

-- `s.split(sep, 1)`: the parts before and after the first separator, or `none` for one part.
unfoldable pub split_once : ℕ → Text → Option (Text × Text)
split_once sep [] = none
split_once sep (c ∷ s) = elim (eqb c sep) [
  | true ↦ some ([], s)
  | false ↦ elim (split_once sep s) [ none ↦ none | some (p, q) ↦ some (c ∷ p, q) ]
]

-- `sep.join(parts)`
unfoldable pub join : Text → List Text → Text
join sep [] = []
join sep (p ∷ ps) = elim ps [ [] ↦ p | q ∷ qs ↦ p ++ (sep ++ join sep ps) ]

-- `s.startswith(prefix)`
unfoldable pub starts_with : Text → Text → Bool
starts_with s [] = true
starts_with [] (d ∷ prefix) = false
starts_with (c ∷ s) (d ∷ prefix) = eqb c d && starts_with s prefix

-- `part in s`
unfoldable pub has_part : Text → Text → Bool
unfolding starts_with
has_part [] part = starts_with [] part
has_part (c ∷ s) part = starts_with (c ∷ s) part || has_part s part

-- The pieces of a text between its white space, and `s.split()`, which leaves out empty pieces.
unfoldable pub pieces : Text → List Text
pieces [] = [] ∷ []
pieces (c ∷ s) = let rest = pieces s in if is_space c then [] ∷ rest else cons_head c rest

abbrev pub nonempty : List Text → List Text
nonempty [] = []
nonempty ([] ∷ ps) = nonempty ps
nonempty ((c ∷ p) ∷ ps) = (c ∷ p) ∷ nonempty ps

unfoldable pub split_space : Text → List Text
unfolding pieces
split_space s = nonempty (pieces s)

-- The ASCII characters that end a line.
abbrev is_line_break : ℕ → Bool
is_line_break c = (leb 10 c && leb c 13) || (leb 28 c && leb c 30)

-- `s.splitlines()`, where "\r\n" ends one line.
unfoldable pub splitlines : Text → List Text
unfolding starts_with
splitlines [] = []
splitlines (c ∷ s) =
    let rest = splitlines s in
    if is_line_break c
    then (if eqb c 13 && starts_with s (10 ∷ []) then rest else [] ∷ rest)
    else cons_head c rest
