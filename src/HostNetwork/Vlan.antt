-- ===== src/HostNetwork/Vlan.antt =====
-- `vlan_ranges` of backend/app/operations/host_network/domain.py: the canonical text of a set of VLANs.
pub mod Values
pub mod Canonical
use Prim.Native.String.{◌∷◌ as text_cons, ◌++◌ as str_append}
use Prim.Native.Char.{code}
use gjallar.Prelude.{
  ℕ, zero, suc, ◌+◌, ◌-◌, String, Bool, true, false, not, ◌&&◌, ◌||◌, Option, none, some, List, [],
  ◌∷◌, length, leb, ltb, nat_eq, ◌==◌, if◌then◌else◌,
}
use gjallar.Prelude.Text.{
  is_blank, codes, words, join_words, span_digits, digits_value, after_prefix,
}
use gjallar.Json.{Json, text}
use gjallar.Result.{Result, ok, err, ◌>>=◌, ◌>>◌, raise_if, value_error}
use gjallar.Lock.{decimal}

-- [1-9][0-9]{0,3}, and its int()
unfoldable pub vlan_number : List ℕ → Option ℕ
vlan_number [] = none
vlan_number (c ∷ cs) =
    if nat_eq c b'0' || ltb 3 (length cs) then none else some (digits_value 0 (c ∷ cs))

-- The regular expression of a part, and its bounds.
unfoldable pub bounds_of : String → Option (ℕ × ℕ)
unfolding vlan_number
bounds_of part =
    let head = span_digits part in
    elim (vlan_number head.0) [
      | none ↦ none
      | some start ↦ if head.1 == "" then some (start, start) else elim (after_prefix "-" head.1) [
        | none ↦ none
        | some rest ↦
            let tail = span_digits rest in
            if not (tail.1 == "")
            then none
            else elim (vlan_number tail.0) [ none ↦ none | some end ↦ some (start, end) ]
      ]
    ]

-- `values.add`; a set of numbers is its sorted list
unfoldable pub insert_value : ℕ → List ℕ → List ℕ
insert_value n [] = n ∷ []
insert_value n (x ∷ xs) =
    let rest = insert_value n xs in
    if ltb n x then n ∷ x ∷ xs else if nat_eq n x then x ∷ xs else x ∷ rest

-- values.update(range(start, start + count))
unfoldable pub add_range : ℕ → ℕ → List ℕ → List ℕ
unfolding insert_value
add_range start zero values = values
add_range start (suc count) values = insert_value start (add_range (start + 1) count values)

-- 1 <= start <= end <= 4094
abbrev pub is_vlan_range : ℕ × ℕ → Bool
is_vlan_range bounds = leb 1 bounds.0 && leb bounds.0 bounds.1 && leb bounds.1 4094

-- The loop over the parts.
unfoldable pub vlan_values : List String → List ℕ → Result (List ℕ)
unfolding bounds_of add_range
vlan_values [] values = ok values
vlan_values (part ∷ parts) values = elim (bounds_of part) [
  | none ↦ err value_error
  | some bounds ↦ elim (is_vlan_range bounds) [
    | false ↦ err value_error
    | true ↦ vlan_values parts (add_range bounds.0 ((bounds.1 + 1) - bounds.0) values)
  ]
]

-- The loop over the ordered values, with the current `start` and `end`.
unfoldable pub groups_from : ℕ → ℕ → List ℕ → List (ℕ × ℕ)
groups_from start end [] = (start, end) ∷ []
groups_from start end (value ∷ values) = elim (nat_eq value (end + 1)) [
  | true ↦ groups_from start value values
  | false ↦ (start, end) ∷ groups_from value value values
]

-- The groups of `ordered`, which has a value since the text has a part.
unfoldable pub groups_of : List ℕ → List (ℕ × ℕ)
unfolding groups_from
groups_of [] = []
groups_of (value ∷ values) = groups_from value value values

-- str(start) if start == end else f"{start}-{end}"
abbrev pub group_text : ℕ × ℕ → String
group_text group =
    if nat_eq group.0 group.1
    then decimal group.0
    else str_append (decimal group.0) (str_append "-" (decimal group.1))

abbrev pub group_texts : List (ℕ × ℕ) → List String
group_texts [] = []
group_texts (group ∷ groups) = group_text group ∷ group_texts groups

-- `vlan_ranges` of a text
unfoldable pub vlan_ranges : String → Result String
unfolding vlan_values groups_of decimal
vlan_ranges value = do
  raise_if (ltb 1024 (length (codes value)) || is_blank value) value_error
  values ← vlan_values (words value) []
  ok (join_words (group_texts (groups_of values)))
