-- ===== src/VmNetwork.antt =====
-- backend/app/operations/vm_network/domain.py: the options of a VM's net0, and the change of its bridge
-- and VLAN tag.
pub mod Options
pub mod Parsed
pub mod Replaced
pub mod Texts
pub mod Roundtrip
use Prim.Native.String.{◌++◌ as str_append}
use gjallar.Prelude.{
  ℕ, zero, suc, ◌+◌, String, Bool, true, false, not, ◌&&◌, ◌||◌, Option, none, some, List, [], ◌∷◌,
  any, length, leb, ltb, nat_eq, ◌==◌, if◌then◌else◌,
}
use gjallar.Prelude.Text.{codes, is_alnum, all_codes}
use gjallar.Prelude.Parts.{split_at, cut_once, join_with}
use gjallar.Operation.Event.{Platform}
use gjallar.Result.{
  Result, ok, err, ◌>>=◌, ◌>>◌, raise_if, value_error, network_error, vm_network_config_unsupported,
}
use gjallar.Lock.{decimal}
use gjallar.HostConfig.{is_identifier}

-- A dict of options, in its order.
abbrev pub Options : Type 0
Options = List (String × String)

-- options.get(key)
unfoldable pub lookup : String → Options → Option String
lookup key [] = none
lookup key (pair ∷ pairs) = if pair.0 == key then some pair.1 else lookup key pairs

-- re.fullmatch("[A-Za-z0-9_-]+", s)
unfoldable pub is_option_key : String → Bool
is_option_key s =
    not (s == "") && all_codes (λ c. is_alnum c || nat_eq c b'_' || nat_eq c b'-') (codes s)

-- part.split("=", 1), where it is a key and a value
unfoldable pub pair_of : String → Option (String × String)
unfolding is_option_key
pair_of part = elim (cut_once b'=' part) [
  | none ↦ none
  | some pair ↦ if is_option_key pair.0 && not (pair.1 == "") then some pair else none
]

-- `pairs`, where no part is refused
unfoldable pub pairs_of : List String → Option Options
unfolding pair_of
pairs_of [] = some []
pairs_of (part ∷ parts) =
    let rest = pairs_of parts in
    elim (pair_of part) [
      | none ↦ none
      | some pair ↦ elim rest [ none ↦ none | some pairs ↦ some (pair ∷ pairs) ]
    ]

-- some pair has the key
abbrev pub has_option : String → Options → Bool
has_option key = any (λ pair. pair.0 == key)

-- len(dict(pairs)) == len(pairs)
unfoldable pub has_distinct_keys : Options → Bool
has_distinct_keys [] = true
has_distinct_keys (pair ∷ pairs) = not (has_option pair.0 pairs) && has_distinct_keys pairs

-- [0-9a-fA-F]
abbrev pub is_hex : ℕ → Bool
is_hex c = (leb b'0' c && leb c b'9') || (leb b'a' c && leb c b'f') || (leb b'A' c && leb c b'F')

-- (?:[0-9a-fA-F]{2}:){n}[0-9a-fA-F]{2}
unfoldable pub is_hex_pairs : ℕ → List ℕ → Bool
is_hex_pairs zero (a ∷ b ∷ []) = is_hex a && is_hex b
is_hex_pairs (suc n) (a ∷ b ∷ c ∷ cs) =
    let rest = is_hex_pairs n cs in is_hex a && is_hex b && nat_eq c b':' && rest
is_hex_pairs _ _ = false

abbrev pub nic_models : List String
nic_models =
    "virtio" ∷ "e1000" ∷ "e1000-82540em" ∷ "e1000-82544gc" ∷ "e1000-82545em" ∷ "i82551" ∷ "i82557b"
    ∷ "i82559er" ∷ "ne2k_pci" ∷ "pcnet" ∷ "rtl8139" ∷ "vmxnet3" ∷ []

-- The tests on the first pair: the MAC and the model.
unfoldable pub is_nic : Options → Bool
unfolding is_hex_pairs
is_nic [] = false
is_nic (pair ∷ pairs) = is_hex_pairs 5 (codes pair.1) && any (λ model. model == pair.0) nic_models

-- options.get("bridge", "") is an identifier
unfoldable pub has_bridge : Options → Bool
unfolding lookup
has_bridge options = elim (lookup "bridge" options) [
  | none ↦ false
  | some bridge ↦ is_identifier bridge
]

unfoldable pub is_nic_options : Options → Bool
unfolding is_nic has_bridge has_distinct_keys
is_nic_options options =
    has_distinct_keys options
    && is_nic options
    && not (has_option "trunks" options)
    && has_bridge options

abbrev unsupported : {A : Type 0} → Result A
unsupported = err (network_error vm_network_config_unsupported)

-- The test of the tag. int() raises ValueError for some texts that isdigit() accepts.
unfoldable pub tag_test : Platform → Options → Result (Unit {0})
unfolding lookup
tag_test p options = elim (lookup "tag" options) [
  | none ↦ ok tt
  | some tag ↦ if not (p.is_digit_text tag) then unsupported else elim (p.int_of_text tag) [
    | none ↦ err value_error
    | some value ↦ elim value [
      | none ↦ unsupported
      | some n ↦ if leb 1 n && leb n 4094 then ok tt else unsupported
    ]
  ]
]

-- `parse_net0` of a text
unfoldable pub parse_net0 : Platform → String → Result Options
unfolding pairs_of is_nic_options tag_test
parse_net0 p value = do
  raise_if ((value == "") || ltb 2048 (length (codes value)))
      (network_error vm_network_config_unsupported)
  elim (pairs_of (split_at b',' value)) [
    | none ↦ unsupported
    | some options ↦ do
      raise_if (not (is_nic_options options)) (network_error vm_network_config_unsupported)
      tag_test p options
      ok options
  ]

-- options[key] = value
unfoldable pub set_option : String → String → Options → Options
set_option key value [] = (key, value) ∷ []
set_option key value (pair ∷ pairs) =
    let rest = set_option key value pairs in
    if pair.0 == key then (key, value) ∷ pairs else pair ∷ rest

-- options.pop(key, None)
unfoldable pub drop_option : String → Options → Options
drop_option key [] = []
drop_option key (pair ∷ pairs) =
    let rest = drop_option key pairs in if pair.0 == key then pairs else pair ∷ rest

-- The options of the new text.
unfoldable pub replaced_options : String → Option ℕ → Options → Options
unfolding set_option drop_option decimal
replaced_options bridge tag options =
    let set = set_option "bridge" bridge options in
    elim tag [ none ↦ drop_option "tag" set | some n ↦ set_option "tag" (decimal n) set ]

abbrev pub option_text : String × String → String
option_text pair = str_append pair.0 (str_append "=" pair.1)

abbrev pub option_texts : Options → List String
option_texts [] = []
option_texts (pair ∷ pairs) = option_text pair ∷ option_texts pairs

-- `replace_network`
unfoldable pub replace_network : Platform → String → String → Option ℕ → Result String
unfolding parse_net0 replaced_options
replace_network p net0 bridge tag = do
  options ← parse_net0 p net0
  ok (join_with "," (option_texts (replaced_options bridge tag options)))
