-- ===== src/Prelude/Text.antt =====
-- Python's text operations that the program uses: `str.strip`, and the code points of a text.
use Prim.Native.Nat.{ℕ, ◌+◌, ◌*◌, ◌-◌}
use Prim.Native.Char.{code}
use Prim.Native.String.{String, ◌++◌ as str_append}
use mathlib.Core.Bool.{Bool, true, false, ◌&&◌, ◌||◌}
use mathlib.Core.Option.{Option, none, some}
use mathlib.Core.List.{List, [], ◌∷◌}
use gjallar.Prelude.Tests.{leb, nat_eq, ◌==◌, if◌then◌else◌}

abbrev in_range : ℕ → ℕ → ℕ → Bool
in_range lo hi c = leb lo c && leb c hi

-- `str.isspace` of one code point
abbrev pub is_space : ℕ → Bool
is_space c =
    in_range 9 13 c
    || in_range 28 32 c
    || nat_eq c 0x85
    || nat_eq c 0xa0
    || nat_eq c 0x1680
    || in_range 0x2000 0x200a c
    || in_range 0x2028 0x2029 c
    || nat_eq c 0x202f
    || nat_eq c 0x205f
    || nat_eq c 0x3000

abbrev pub lstrip : String → String
lstrip String.[] = String.[]
lstrip (String.◌∷◌ c s) = let rest = lstrip s in if is_space (code c) then rest else String.◌∷◌ c s

abbrev pub rstrip : String → String
rstrip String.[] = String.[]
rstrip (String.◌∷◌ c s) =
    let rest = rstrip s in
    if is_space (code c) && (rest == "") then String.[] else String.◌∷◌ c rest

unfoldable pub strip : String → String
strip s = rstrip (lstrip s)

-- `not str(s).strip()`
unfoldable pub is_blank : String → Bool
unfolding strip
is_blank s = strip s == ""

-- s[len(start):] where s.startswith(start)
abbrev pub after_prefix : String → String → Option String
after_prefix String.[] s = some s
after_prefix (String.◌∷◌ c start) String.[] = none
after_prefix (String.◌∷◌ c start) (String.◌∷◌ d s) =
    let rest = after_prefix start s in if nat_eq (code c) (code d) then rest else none

abbrev pub is_digit : ℕ → Bool
is_digit c = leb b'0' c && leb c b'9'

-- [A-Za-z0-9]
abbrev pub is_alnum : ℕ → Bool
is_alnum c = (leb b'A' c && leb c b'Z') || (leb b'a' c && leb c b'z') || is_digit c

-- The code points of a text.
abbrev pub codes : String → List ℕ
codes String.[] = []
codes (String.◌∷◌ c s) = code c ∷ codes s

-- every code point passes
abbrev pub all_codes : (ℕ → Bool) → List ℕ → Bool
all_codes test [] = true
all_codes test (c ∷ cs) = test c && all_codes test cs

-- int() of ASCII digits, after the value of those before
abbrev pub digits_value : ℕ → List ℕ → ℕ
digits_value n [] = n
digits_value n (c ∷ cs) = digits_value (10 * n + (c - b'0')) cs

-- re.fullmatch("[0-9]+", s), and its int()
unfoldable pub number_of : String → Option ℕ
number_of s = elim (codes s) [
  | [] ↦ none
  | c ∷ cs ↦ if all_codes is_digit (c ∷ cs) then some (digits_value 0 (c ∷ cs)) else none
]

-- The word that a text starts with, and the words after it.
abbrev split_words : String → String × List String
split_words String.[] = (String.[], [])
split_words (String.◌∷◌ c s) =
    let rest = split_words s in
    if is_space (code c)
    then (String.[], if rest.0 == "" then rest.1 else rest.0 ∷ rest.1)
    else (String.◌∷◌ c rest.0, rest.1)

-- s.split()
unfoldable pub words : String → List String
words s = let parts = split_words s in if parts.0 == "" then parts.1 else parts.0 ∷ parts.1

-- " ".join(ws)
abbrev pub join_words : List String → String
join_words [] = ""
join_words (w ∷ []) = w
join_words (w ∷ v ∷ ws) = str_append w (str_append " " (join_words (v ∷ ws)))

-- The code points of the digits that a text starts with, and the text after them.
abbrev pub span_digits : String → List ℕ × String
span_digits String.[] = ([], String.[])
span_digits (String.◌∷◌ c s) =
    let rest = span_digits s in
    if is_digit (code c) then (code c ∷ rest.0, rest.1) else ([], String.◌∷◌ c s)

-- the line boundaries of `str.splitlines`
abbrev is_break : ℕ → Bool
is_break c =
    in_range 10 13 c || in_range 28 30 c || nat_eq c 0x85 || nat_eq c 0x2028 || nat_eq c 0x2029

abbrev starts_with_newline : String → Bool
starts_with_newline String.[] = false
starts_with_newline (String.◌∷◌ c s) = nat_eq (code c) 10

-- s.splitlines()
abbrev pub splitlines : String → List String
splitlines String.[] = []
splitlines (String.◌∷◌ c s) =
    let rest = splitlines s in
    if nat_eq (code c) 13 && starts_with_newline s
    then rest
    else if is_break (code c)
    then "" ∷ rest
    else elim rest [ [] ↦ String.◌∷◌ c String.[] ∷ [] | line ∷ lines ↦ String.◌∷◌ c line ∷ lines ]
