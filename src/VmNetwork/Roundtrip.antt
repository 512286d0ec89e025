-- ===== src/VmNetwork/Roundtrip.antt =====
-- `replace_network` of backend/app/operations/vm_network/domain.py, read back by `parse_net0`.
use gjallar.Prelude.{
  ℕ, ◌≡◌, ◌≤◌, refl, sym, subst, ap, ◌∙◌, String, true, false, Option, none, some, All, any, length,
  leb, arith, ◌==◌, if◌then◌else◌,
}
use gjallar.Prelude.Text.{codes}
use gjallar.Operation.Event.{Platform}
use gjallar.Result.{ok, result_value}
use gjallar.Lock.{decimal}
use gjallar.HostConfig.{is_identifier}
use gjallar.VmNetwork.{
  Options, lookup, has_option, has_distinct_keys, is_nic, has_bridge, is_nic_options, tag_test,
  parse_net0, set_option, nic_models, drop_option, replaced_options, replace_network,
}
use gjallar.VmNetwork.Parsed.{IsOption, IsNet0, text_of, parse_net0-IsNet0, IsNet0-parse_net0}
use gjallar.VmNetwork.Replaced.{
  set_option-All, drop_option-All, lookup-set_option, lookup-drop_option, has_option-set_option,
  has_option-drop_option, has_distinct_keys-set_option, has_distinct_keys-drop_option,
  is_nic-set_option, is_nic-drop_option,
}
use gjallar.VmNetwork.Texts.{tag-IsOption, bridge-IsOption}

-- The text of a tag is a number in range for isdigit() and int().
unfoldable pub IsTagRead : Platform → Option ℕ → Type 0
IsTagRead p none = Unit
IsTagRead p (some n) =
    (p.is_digit_text (decimal n) ≡ true)
    × (p.int_of_text (decimal n) ≡ some (some n))
    × (1 ≤ n)
    × (n ≤ 4094)

abbrev pub tag_text : Option ℕ → Option String
tag_text none = none
tag_text (some n) = some (decimal n)

-- What a change keeps.
record Kept (options : Options) : Type 0 where
  distinct : has_distinct_keys options ≡ true
  nic : is_nic options ≡ true
  no_trunks : has_option "trunks" options ≡ false

is_nic_options-Kept : (options : Options) → is_nic_options options ≡ true → Kept options
unfolding is_nic_options
is_nic_options-Kept options h = record {
  distinct = ground (arith, h);
  nic = ground (arith, h);
  no_trunks = ground (arith, h);
}

set-Kept :
    (k v : String) (options : Options)
    → any (λ model. model == k) nic_models ≡ false
    → (k == "trunks") ≡ false
    → Kept options
    → Kept (set_option k v options)
set-Kept k v options m t q = record {
  distinct = has_distinct_keys-set_option k v options q.distinct;
  nic = is_nic-set_option k v options m q.nic;
  no_trunks = has_option-set_option "trunks" k v options t ∙ q.no_trunks;
}

drop-Kept :
    (k : String) (options : Options)
    → any (λ model. model == k) nic_models ≡ false
    → Kept options
    → Kept (drop_option k options)
drop-Kept k options m q = record {
  distinct = has_distinct_keys-drop_option k options q.distinct;
  nic = is_nic-drop_option k options m q.nic;
  no_trunks = has_option-drop_option "trunks" k options q.no_trunks;
}

abbrev pub replaced_lookup : String → Option ℕ → Options → String → Option String
replaced_lookup bridge tag options key =
    if "tag" == key
    then tag_text tag
    else if "bridge" == key
    then some bridge
    else lookup key options

-- The options of the changed dict.
lookup-replaced_options :
    (bridge : String) (tag : Option ℕ) (options : Options) (key : String)
    → has_distinct_keys options ≡ true
    → lookup key (replaced_options bridge tag options) ≡ replaced_lookup bridge tag options key
unfolding replaced_options
lookup-replaced_options bridge none options key d =
    lookup-drop_option key "tag" (set_option "bridge" bridge options)
      (has_distinct_keys-set_option "bridge" bridge options d)
    ∙ ap (λ rest. if "tag" == key then none else rest)
        (lookup-set_option key "bridge" bridge options)
lookup-replaced_options bridge (some n) options key d =
    lookup-set_option key "tag" (decimal n) (set_option "bridge" bridge options)
    ∙ ap (λ rest. if "tag" == key then some (decimal n) else rest)
        (lookup-set_option key "bridge" bridge options)

Kept-nic :
    (bridge : String) (options : Options)
    → Kept options
    → lookup "bridge" options ≡ some bridge
    → is_identifier bridge ≡ true
    → is_nic_options options ≡ true
unfolding is_nic_options has_bridge
Kept-nic bridge options q found h =
    let distinct = q.distinct in
    let nic = q.nic in
    let no_trunks = q.no_trunks in
    rw (distinct, nic, no_trunks, found, h, is_nic_options, has_bridge) refl

replaced-Kept :
    (bridge : String) (tag : Option ℕ) (options : Options)
    → Kept options
    → Kept (replaced_options bridge tag options)
unfolding replaced_options
replaced-Kept bridge none options q =
    drop-Kept "tag" (set_option "bridge" bridge options) refl
      (set-Kept "bridge" bridge options refl refl q)
replaced-Kept bridge (some n) options q =
    set-Kept "tag" (decimal n) (set_option "bridge" bridge options) refl refl
      (set-Kept "bridge" bridge options refl refl q)

replaced-All :
    (bridge : String) (tag : Option ℕ) (options : Options)
    → is_identifier bridge ≡ true
    → All IsOption options
    → All IsOption (replaced_options bridge tag options)
unfolding replaced_options
replaced-All bridge none options h a =
    drop_option-All "tag" (set_option "bridge" bridge options)
      (set_option-All "bridge" bridge options (bridge-IsOption bridge h) a)
replaced-All bridge (some n) options h a =
    set_option-All "tag" (decimal n) (set_option "bridge" bridge options) (tag-IsOption n)
      (set_option-All "bridge" bridge options (bridge-IsOption bridge h) a)

tag_test-passes :
    (p : Platform) (tag : Option ℕ) (options : Options)
    → IsTagRead p tag
    → lookup "tag" options ≡ tag_text tag
    → tag_test p options ≡ ok tt
unfolding tag_test IsTagRead
tag_test-passes p none options r found = rw (found, tag_test) refl
tag_test-passes p (some n) options r found =
    let (digits, value, low, high) = r in
    let above : leb 1 n ≡ true = ground (arith, low) in
    let below : leb n 4094 ≡ true = ground (arith, high) in
    rw (found, digits, value, above, below, tag_test) refl

replaced-IsNet0 :
    (p : Platform) (bridge : String) (tag : Option ℕ) (options : Options)
    → is_identifier bridge ≡ true
    → IsTagRead p tag
    → IsNet0 p options
    → IsNet0 p (replaced_options bridge tag options)
replaced-IsNet0 p bridge tag options h r n =
    let q = is_nic_options-Kept options n.nic in
    record {
      parts = replaced-All bridge tag options h n.parts;
      nic =
          Kept-nic bridge (replaced_options bridge tag options) (replaced-Kept bridge tag options q)
            (lookup-replaced_options bridge tag options "bridge" q.distinct) h;
      tagged =
          tag_test-passes p tag (replaced_options bridge tag options) r
            (lookup-replaced_options bridge tag options "tag" q.distinct);
    }

-- Where `parse_net0` reads the options of a net0, the new bridge is an identifier, isdigit() and int()
-- read the text of the new tag, and the tag is in 1 to 4094, the text that `replace_network` returns, if
-- it has at most 2048 characters, is one that `parse_net0` reads. Its options have the new bridge and the
-- new tag, or no tag where there is none, and every other option as it was.
pub replace_network-parse_net0 :
    (p : Platform) (net0 bridge result : String) (tag : Option ℕ) (options : Options)
    → is_identifier bridge ≡ true
    → IsTagRead p tag
    → parse_net0 p net0 ≡ ok options
    → replace_network p net0 bridge tag ≡ ok result
    → length (codes result) ≤ 2048
    → (new : Options) × (parse_net0 p result ≡ ok new)
      × ((key : String) → lookup key new ≡ replaced_lookup bridge tag options key)
unfolding replace_network
replace_network-parse_net0 p net0 bridge result tag options h r parsed replaced short =
    let n = parse_net0-IsNet0 p net0 options parsed in
    let new = replaced_options bridge tag options in
    let done : ok (text_of new) ≡ ok result = rw (parsed, replace_network) at replaced in
    let e = result_value done in
    (
      new,
      subst (λ s. parse_net0 p s ≡ ok new) e
          (IsNet0-parse_net0 p new (replaced-IsNet0 p bridge tag options h r n)
            (subst (λ s. length (codes s) ≤ 2048) (sym e) short)),
      λ key.
          lookup-replaced_options bridge tag options key
            (is_nic_options-Kept options n.nic).distinct,
    )
