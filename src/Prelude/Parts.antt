-- ===== src/Prelude/Parts.antt =====
-- Texts cut at a character: `str.split` with a separator, and `str.join`.
use Prim.Native.Nat.{ℕ}
use Prim.Native.Char.{Char, code}
use Prim.Native.String.{String, ◌++◌ as str_append}
use mathlib.Core.Bool.{Bool, not}
use mathlib.Core.Option.{Option, none, some}
use mathlib.Core.List.{List, [], ◌∷◌}
use gjallar.Prelude.Tests.{nat_eq, if◌then◌else◌}
use gjallar.Prelude.Text.{codes, all_codes}

-- The character in front of the first part.
abbrev pub in_front : Char → List String → List String
in_front c [] = String.◌∷◌ c String.[] ∷ []
in_front c (w ∷ ws) = String.◌∷◌ c w ∷ ws

-- s.split(sep)
unfoldable pub split_at : ℕ → String → List String
split_at sep String.[] = String.[] ∷ []
split_at sep (String.◌∷◌ c s) =
    let rest = split_at sep s in if nat_eq (code c) sep then String.[] ∷ rest else in_front c rest

-- The text before the first separator and the text after it.
unfoldable pub cut_once : ℕ → String → Option (String × String)
cut_once sep String.[] = none
cut_once sep (String.◌∷◌ c s) =
    let rest = cut_once sep s in
    if nat_eq (code c) sep
    then some (String.[], s)
    else elim rest [ none ↦ none | some parts ↦ some (String.◌∷◌ c parts.0, parts.1) ]

-- sep.join(ws)
unfoldable pub join_with : String → List String → String
join_with sep [] = String.[]
join_with sep (w ∷ ws) =
    let rest = join_with sep ws in elim ws [ [] ↦ w | v ∷ vs ↦ str_append w (str_append sep rest) ]

-- No character of the text has the code.
abbrev pub lacks : ℕ → String → Bool
lacks sep s = all_codes (λ c. not (nat_eq c sep)) (codes s)
