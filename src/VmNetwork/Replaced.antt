-- ===== src/VmNetwork/Replaced.antt =====
-- The change of a dict of options by `replace_network` of backend/app/operations/vm_network/domain.py.
use gjallar.Prelude.{
  ◌≡◌, refl, sym, subst, String, Bool, true, false, not, ◌&&◌, inl, inr, none, some, [], ◌∷◌, All,
  any, arith, ◌==◌, str_eq_iff, Bool-cases, if◌then◌else◌,
}
use gjallar.Prelude.Text.{codes}
use gjallar.VmNetwork.{
  Options, lookup, has_option, has_distinct_keys, is_nic, nic_models, is_hex_pairs, set_option,
  drop_option,
}
use gjallar.VmNetwork.Parsed.{IsOption}

pub set_option-All :
    (k v : String) (options : Options)
    → IsOption (k, v)
    → All IsOption options
    → All IsOption (set_option k v options)
unfolding set_option
set_option-All k v [] o a = (o, tt)
set_option-All k v (pair ∷ pairs) o a = elim (Bool-cases (pair.0 == k)) [
  | inl same ↦ rw (same, set_option) (o, a.1)
  | inr other ↦ rw (other, set_option) (a.0, set_option-All k v pairs o a.1)
]

pub drop_option-All :
    (k : String) (options : Options) → All IsOption options → All IsOption (drop_option k options)
unfolding drop_option
drop_option-All k [] a = tt
drop_option-All k (pair ∷ pairs) a = elim (Bool-cases (pair.0 == k)) [
  | inl same ↦ rw (same, drop_option) a.1
  | inr other ↦ rw (other, drop_option) (a.0, drop_option-All k pairs a.1)
]

pub lookup-set_option :
    (key k v : String) (options : Options)
    → lookup key (set_option k v options) ≡ (if k == key then some v else lookup key options)
unfolding lookup set_option
lookup-set_option key k v [] = refl
lookup-set_option key k v (pair ∷ pairs) = ground (
  arith,
  lookup-set_option key k v pairs,
  str_eq_iff pair.0 k,
  str_eq_iff pair.0 key,
  str_eq_iff k key,
)

lookup-absent :
    (key : String) (options : Options) → has_option key options ≡ false → lookup key options ≡ none
unfolding lookup
lookup-absent key [] h = refl
lookup-absent key (pair ∷ pairs) h = ground (arith, h, lookup-absent key pairs)

pub lookup-drop_option :
    (key k : String) (options : Options)
    → has_distinct_keys options ≡ true
    → lookup key (drop_option k options) ≡ (if k == key then none else lookup key options)
unfolding lookup drop_option has_distinct_keys
lookup-drop_option key k [] d = ground arith
lookup-drop_option key k (pair ∷ pairs) d =
    let rest = lookup-drop_option key k pairs in
    let gone = lookup-absent pair.0 pairs in
    ground (arith, d, rest, gone, str_eq_iff pair.0 k, str_eq_iff pair.0 key, str_eq_iff k key)

pub has_option-set_option :
    (key k v : String) (options : Options)
    → (k == key) ≡ false
    → has_option key (set_option k v options) ≡ has_option key options
unfolding set_option
has_option-set_option key k v [] h = ground (arith, h)
has_option-set_option key k v (pair ∷ pairs) h = ground (
  arith,
  h,
  has_option-set_option key k v pairs h,
  str_eq_iff pair.0 k,
  str_eq_iff pair.0 key,
  str_eq_iff k key,
)

pub has_option-drop_option :
    (key k : String) (options : Options)
    → has_option key options ≡ false
    → has_option key (drop_option k options) ≡ false
unfolding drop_option
has_option-drop_option key k [] h = refl
has_option-drop_option key k (pair ∷ pairs) h =
    ground (arith, h, has_option-drop_option key k pairs)

pub has_distinct_keys-set_option :
    (k v : String) (options : Options)
    → has_distinct_keys options ≡ true
    → has_distinct_keys (set_option k v options) ≡ true
unfolding has_distinct_keys set_option
has_distinct_keys-set_option k v [] d = refl
has_distinct_keys-set_option k v (pair ∷ pairs) d = elim (Bool-cases (pair.0 == k)) [
  | inl same ↦
      let e = (str_eq_iff pair.0 k).0 same in
      rw (same, set_option)
        (subst (λ x. (not (has_option x pairs) && has_distinct_keys pairs) ≡ true) e d)
  | inr other ↦
      let apart : (k == pair.0) ≡ false =
        ground (arith, other, str_eq_iff pair.0 k, str_eq_iff k pair.0) in
      let kept = has_option-set_option pair.0 k v pairs apart in
      let rest = has_distinct_keys-set_option k v pairs in ground (arith, other, kept, rest, d)
]

pub has_distinct_keys-drop_option :
    (k : String) (options : Options)
    → has_distinct_keys options ≡ true
    → has_distinct_keys (drop_option k options) ≡ true
unfolding has_distinct_keys drop_option
has_distinct_keys-drop_option k [] d = refl
has_distinct_keys-drop_option k (pair ∷ pairs) d =
    let rest = has_distinct_keys-drop_option k pairs in
    let gone = has_option-drop_option pair.0 k pairs in ground (arith, rest, gone, d)

and_right : (a b : Bool) → (a && b) ≡ true → b ≡ true
and_right a b h = ground (arith, h)

-- The first option stays where its key is another one.
pub is_nic-set_option :
    (k v : String) (options : Options)
    → any (λ model. model == k) nic_models ≡ false
    → is_nic options ≡ true
    → is_nic (set_option k v options) ≡ true
unfolding is_nic set_option
is_nic-set_option k v [] m h = ground (arith, h)
is_nic-set_option k v (pair ∷ pairs) m h = elim (Bool-cases (pair.0 == k)) [
  | inl same ↦
      let e = (str_eq_iff pair.0 k).0 same in
      let none_left = subst (λ x. any (λ model. model == x) nic_models ≡ false) (sym e) m in
      let tested =
        and_right (is_hex_pairs 5 (codes pair.1)) (any (λ model. model == pair.0) nic_models) h in
      cc (none_left, tested)
  | inr other ↦ rw (other, set_option) h
]

pub is_nic-drop_option :
    (k : String) (options : Options)
    → any (λ model. model == k) nic_models ≡ false
    → is_nic options ≡ true
    → is_nic (drop_option k options) ≡ true
unfolding is_nic drop_option
is_nic-drop_option k [] m h = h
is_nic-drop_option k (pair ∷ pairs) m h = elim (Bool-cases (pair.0 == k)) [
  | inl same ↦
      let e = (str_eq_iff pair.0 k).0 same in
      let none_left = subst (λ x. any (λ model. model == x) nic_models ≡ false) (sym e) m in
      let tested =
        and_right (is_hex_pairs 5 (codes pair.1)) (any (λ model. model == pair.0) nic_models) h in
      cc (none_left, tested)
  | inr other ↦ rw (other, drop_option) h
]
