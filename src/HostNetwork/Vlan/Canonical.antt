-- ===== src/HostNetwork/Vlan/Canonical.antt =====
-- `vlan_ranges` of backend/app/operations/host_network/domain.py against the set of VLANs that a text names.
use gjallar.Prelude.{
  ℕ, ◌+◌, ◌≡◌, ◌≤◌, ◌<◌, refl, sym, ap, ◌∙◌, String, Bool, ◌||◌, inl, inr, List, [], ◌∷◌, any,
  length, ltb, nat_eq, nat_eq_iff, arith, Bool-cases,
}
use gjallar.Prelude.Text.{words, join_words, codes, is_blank}
use gjallar.Result.{ok, >>=-eq-ok, result_value, raise_if, value_error}
use gjallar.HostNetwork.Vlan.{vlan_values, groups_from, groups_of, group_texts, vlan_ranges}
use gjallar.HostNetwork.Vlan.Values.{
  has, within, names, IsRising, rising_unique, vlan_values-Collected,
}

-- Some group has the number.
abbrev pub covers : ℕ → List (ℕ × ℕ) → Bool
covers k = any (within k)

-- Groups of at least one number with a gap of at least one between two of them, after the number n.
unfoldable pub IsApart : ℕ → List (ℕ × ℕ) → Type 0
IsApart n [] = Unit
IsApart n (group ∷ groups) = (n < group.0) × (group.0 ≤ group.1) × IsApart (group.1 + 1) groups

-- The groups of a rising list cover its numbers.
covers-groups_from :
    (k start end : ℕ) (xs : List ℕ)
    → start ≤ end
    → IsRising end xs
    → covers k (groups_from start end xs) ≡ (within k (start, end) || has k xs)
unfolding groups_from IsRising
covers-groups_from k start end [] le r = refl
covers-groups_from k start end (x ∷ xs) le r =
    let above = r.0 in
    let joined = covers-groups_from k start x xs (omega (arith, le, above)) r.1 in
    let apart = covers-groups_from k x x xs (omega arith) r.1 in
    elim (Bool-cases (nat_eq x (end + 1))) [
      | inl next_one ↦ ground (arith, next_one, joined, le, nat_eq_iff x (end + 1), nat_eq_iff k x)
      | inr gap ↦ ground (arith, gap, apart, nat_eq_iff k x)
    ]

groups_from-IsApart :
    (n start end : ℕ) (xs : List ℕ)
    → n < start
    → start ≤ end
    → IsRising end xs
    → IsApart n (groups_from start end xs)
unfolding groups_from IsRising IsApart
groups_from-IsApart n start end [] lt le r = (lt, le, tt)
groups_from-IsApart n start end (x ∷ xs) lt le r =
    let above = r.0 in
    elim (Bool-cases (nat_eq x (end + 1))) [
      | inl next_one ↦
          rw (next_one, groups_from)
            (groups_from-IsApart n start x xs lt (omega (arith, le, above)) r.1)
      | inr gap ↦
          let far : end + 1 < x = ground (arith, gap, above, nat_eq_iff x (end + 1)) in
          rw (gap, groups_from) (lt, le, groups_from-IsApart (end + 1) x x xs far (omega arith) r.1)
    ]

covers-groups_of : (k : ℕ) (xs : List ℕ) → IsRising 0 xs → covers k (groups_of xs) ≡ has k xs
unfolding groups_of IsRising
covers-groups_of k [] r = refl
covers-groups_of k (x ∷ xs) r =
    let all = covers-groups_from k x x xs (omega arith) r.1 in ground (arith, all, nat_eq_iff k x)

groups_of-IsApart : (xs : List ℕ) → IsRising 0 xs → IsApart 0 (groups_of xs)
unfolding groups_of IsRising IsApart
groups_of-IsApart [] r = tt
groups_of-IsApart (x ∷ xs) r = groups_from-IsApart 0 x x xs r.0 (omega arith) r.1

-- What a call that returns has collected.
record Parsed (value result : String) : Type 0 where
  values : List ℕ
  rising : IsRising 0 values
  named : (k : ℕ) → has k values ≡ names k (words value)
  written : result ≡ join_words (group_texts (groups_of values))

vlan_ranges-Parsed : (value result : String) → vlan_ranges value ≡ ok result → Parsed value result
unfolding vlan_ranges IsRising
vlan_ranges-Parsed value result h =
    let (u, tested, rest) =
      >>=-eq-ok (raise_if (ltb 1024 (length (codes value)) || is_blank value) value_error) _ h in
    let (values, collected, done) = >>=-eq-ok (vlan_values (words value) []) _ rest in
    let c = vlan_values-Collected (words value) [] values collected in
    record {
      values = values;
      rising = c.rising tt;
      named = c.named;
      written = sym (result_value done);
    }

-- The text that `vlan_ranges` returns is made of groups, each of one VLAN or of a rising range, in
-- rising order and with a gap between two of them. The groups cover exactly the VLANs that the parts of
-- the given text name.
pub vlan_ranges_cover :
    (value result : String)
    → vlan_ranges value ≡ ok result
    → (groups : List (ℕ × ℕ)) × (result ≡ join_words (group_texts groups))
      × IsApart 0 groups
      × ((k : ℕ) → covers k groups ≡ names k (words value))
vlan_ranges_cover value result h =
    let q = vlan_ranges-Parsed value result h in
    (
      groups_of q.values,
      q.written,
      groups_of-IsApart q.values q.rising,
      λ k. covers-groups_of k q.values q.rising ∙ q.named k,
    )

-- Two texts that `vlan_ranges` accepts and that name the same VLANs have the same result.
pub vlan_ranges_unique :
    (value value' result result' : String)
    → vlan_ranges value ≡ ok result
    → vlan_ranges value' ≡ ok result'
    → ((k : ℕ) → names k (words value) ≡ names k (words value'))
    → result ≡ result'
vlan_ranges_unique value value' result result' h h' same =
    let q = vlan_ranges-Parsed value result h in
    let r = vlan_ranges-Parsed value' result' h' in
    let e =
      rising_unique 0 q.values r.values q.rising r.rising
        (λ k. q.named k ∙ same k ∙ sym (r.named k)) in
    q.written ∙ ap (λ values. join_words (group_texts (groups_of values))) e ∙ sym r.written
