-- ===== src/VmNetwork/Parsed.antt =====
-- The options that `parse_net0` of backend/app/operations/vm_network/domain.py returns, and their text.
use Prim.Native.String.{◌++◌ as str_append}
use gjallar.Prelude.{
  ℕ, ◌≡◌, ◌≢◌, ◌≤◌, refl, subst, ap, ◌∙◌, String, true, false, not, ◌&&◌, ◌||◌, inl, inr, some,
  List, [], ◌∷◌, All, length, ltb, arith, ◌==◌, str_eq_iff, some_value, Bool-cases, Option-cases,
}
use gjallar.Prelude.Text.{codes}
use gjallar.Prelude.Parts.{split_at, cut_once, join_with, lacks}
use gjallar.Operation.Event.{Platform}
use gjallar.Result.{
  ok, raise_if, >>=-eq-ok, result_value, network_error, vm_network_config_unsupported,
}
use gjallar.VmNetwork.{
  Options, is_option_key, pair_of, pairs_of, is_nic, is_nic_options, tag_test, parse_net0,
  option_text, option_texts,
}
use gjallar.VmNetwork.Options.{
  lacks-append, split_at-join_with, split_at-lacks, cut_once-append, cut_once-lacks, key-lacks,
}

-- A key, and a value that is not empty and has no comma.
pub record IsOption (pair : String × String) : Type 0 where
  pub keyed : is_option_key pair.0 ≡ true
  pub filled : (pair.1 == "") ≡ false
  pub whole : lacks b',' pair.1 ≡ true

-- What `parse_net0` tests of its options.
pub record IsNet0 (p : Platform) (options : Options) : Type 0 where
  pub parts : All IsOption options
  pub nic : is_nic_options options ≡ true
  pub tagged : tag_test p options ≡ ok tt

abbrev pub text_of : Options → String
text_of options = join_with "," (option_texts options)

pair_of-IsOption :
    (part : String) (pair : String × String)
    → lacks b',' part ≡ true
    → pair_of part ≡ some pair
    → IsOption pair
unfolding pair_of
pair_of-IsOption part pair l h = elim (Option-cases (cut_once b'=' part)) [
  | inl absent ↦ ground (arith, absent, h)
  | inr (cut, found) ↦ elim (Bool-cases (is_option_key cut.0 && not (cut.1 == ""))) [
    | inr fails ↦ ground (arith, found, fails, h)
    | inl passes ↦
        let e : cut ≡ pair = some_value (rw (found, passes, pair_of) at h) in
        subst IsOption e (record {
          keyed = ground (arith, passes);
          filled = ground (arith, passes);
          whole = cut_once-lacks b',' b'=' part cut.0 cut.1 found l;
        })
  ]
]

pairs_of-IsOption :
    (parts : List String) (options : Options)
    → All (λ w. lacks b',' w ≡ true) parts
    → pairs_of parts ≡ some options
    → All IsOption options
unfolding pairs_of
pairs_of-IsOption [] options l h = subst (All IsOption) (some_value h) tt
pairs_of-IsOption (part ∷ parts) options l h = elim (Option-cases (pair_of part)) [
  | inl absent ↦ ground (arith, absent, h)
  | inr (pair, found) ↦ elim (Option-cases (pairs_of parts)) [
    | inl absent ↦ ground (arith, found, absent, h)
    | inr (pairs, rest) ↦
        let e : pair ∷ pairs ≡ options = some_value (rw (found, rest, pairs_of) at h) in
        subst (All IsOption) e
          (pair_of-IsOption part pair l.0 found, pairs_of-IsOption parts pairs l.1 rest)
  ]
]

pair_of-text : (pair : String × String) → IsOption pair → pair_of (option_text pair) ≡ some pair
unfolding pair_of
pair_of-text pair o =
    let cut = cut_once-append pair.0 pair.1 (key-lacks pair.0 o.keyed).0 in
    let keyed = o.keyed in let filled = o.filled in ground (arith, cut, keyed, filled)

pairs_of-texts :
    (options : Options) → All IsOption options → pairs_of (option_texts options) ≡ some options
unfolding pairs_of
pairs_of-texts [] a = refl
pairs_of-texts (pair ∷ pairs) a =
    let first = pair_of-text pair a.0 in
    let rest = pairs_of-texts pairs a.1 in rw (first, rest, pairs_of) refl

text-lacks : (pair : String × String) → IsOption pair → lacks b',' (option_text pair) ≡ true
text-lacks pair o =
    let key = (key-lacks pair.0 o.keyed).1 in
    let value = o.whole in
    let outer = lacks-append b',' pair.0 (str_append "=" pair.1) in
    let inner = lacks-append b',' "=" pair.1 in ground (arith, key, value, outer, inner)

texts-lacks :
    (options : Options)
    → All IsOption options
    → All (λ w. lacks b',' w ≡ true) (option_texts options)
texts-lacks [] a = tt
texts-lacks (pair ∷ pairs) a = (text-lacks pair a.0, texts-lacks pairs a.1)

pub parse_net0-IsNet0 :
    (p : Platform) (value : String) (options : Options)
    → parse_net0 p value ≡ ok options
    → IsNet0 p options
unfolding parse_net0
parse_net0-IsNet0 p value options h =
    let (u, sized, rest) =
      >>=-eq-ok
        (raise_if ((value == "") || ltb 2048 (length (codes value)))
          (network_error vm_network_config_unsupported))
        _ h in
    elim (Option-cases (pairs_of (split_at b',' value))) [
      | inl absent ↦ ground (arith, absent, rest)
      | inr (pairs, found) ↦
          let run = rw found at rest in
          let (v, nic, rest1) =
            >>=-eq-ok
              (raise_if (not (is_nic_options pairs)) (network_error vm_network_config_unsupported))
              _ run in
          let (w, tagged, done) = >>=-eq-ok (tag_test p pairs) _ rest1 in
          subst (IsNet0 p) (result_value done) (record {
            parts = pairs_of-IsOption (split_at b',' value) pairs (split_at-lacks b',' value) found;
            nic = ground (arith, nic);
            tagged = tagged;
          })
    ]

no_pair : (options : Options) → pairs_of ("" ∷ []) ≢ some options
unfolding pairs_of pair_of cut_once
no_pair options h = cc h

not_longer : (n : ℕ) → n ≤ 2048 → ltb 2048 n ≡ false
not_longer n h = ground (arith, h)

-- A text whose parts are options that pass the tests.
read_back :
    (p : Platform) (value : String) (options : Options)
    → IsNet0 p options
    → pairs_of (split_at b',' value) ≡ some options
    → length (codes value) ≤ 2048
    → parse_net0 p value ≡ ok options
unfolding parse_net0 split_at
read_back p value options n found short = elim (Bool-cases (value == "")) [
  | inl blank ↦
      let e = (str_eq_iff value "").0 blank in
      let none_read : pairs_of ("" ∷ []) ≡ some options =
        subst (λ s. pairs_of (split_at b',' s) ≡ some options) e found in
      absurd (no_pair options none_read)
  | inr text_left ↦
      let fits = not_longer (length (codes value)) short in
      let nic = n.nic in
      let tagged = n.tagged in rw (text_left, fits, found, nic, tagged, parse_net0) refl
]

-- Options that pass the tests are read back from their text.
pub IsNet0-parse_net0 :
    (p : Platform) (options : Options)
    → IsNet0 p options
    → length (codes (text_of options)) ≤ 2048
    → parse_net0 p (text_of options) ≡ ok options
unfolding parse_net0 pairs_of is_nic_options is_nic
IsNet0-parse_net0 p [] n short = let nic = n.nic in ground (arith, nic)
IsNet0-parse_net0 p (pair ∷ pairs) n short =
    let texts = texts-lacks (pair ∷ pairs) n.parts in
    let parts = split_at-join_with (option_text pair) (option_texts pairs) texts in
    let found : pairs_of (split_at b',' (text_of (pair ∷ pairs))) ≡ some (pair ∷ pairs) =
      ap pairs_of parts ∙ pairs_of-texts (pair ∷ pairs) n.parts in
    read_back p (text_of (pair ∷ pairs)) (pair ∷ pairs) n found short
