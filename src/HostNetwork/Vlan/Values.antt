-- ===== src/HostNetwork/Vlan/Values.antt =====
-- `vlan_ranges` of backend/app/operations/host_network/domain.py and the rising lists that its loop over the
-- parts builds.
use gjallar.Prelude.{
  ℕ, zero, suc, ◌+◌, ◌-◌, ◌≡◌, ◌≤◌, ◌<◌, refl, sym, subst, ◌∙◌, String, Bool, false, ◌&&◌, ◌||◌,
  inl, inr, none, some, List, [], ◌∷◌, any, leb, ltb, nat_eq, nat_eq_iff, arith, Bool-cases,
  Option-cases,
}
use gjallar.Result.{ok, result_value}
use gjallar.HostNetwork.Vlan.{bounds_of, insert_value, add_range, is_vlan_range, vlan_values}

-- The numbers of a list, and of a range.
abbrev pub has : ℕ → List ℕ → Bool
has k = any (nat_eq k)

abbrev pub within : ℕ → ℕ × ℕ → Bool
within k bounds = leb bounds.0 k && leb k bounds.1

-- Some part names the VLAN.
abbrev pub names : ℕ → List String → Bool
names k = any (λ part. elim (bounds_of part) [ none ↦ false | some bounds ↦ within k bounds ])

-- Strictly rising numbers, all above n.
unfoldable pub IsRising : ℕ → List ℕ → Type 0
IsRising n [] = Unit
IsRising n (x ∷ xs) = (n < x) × IsRising x xs

insert_value-IsRising :
    (m n : ℕ) (xs : List ℕ) → m < n → IsRising m xs → IsRising m (insert_value n xs)
unfolding IsRising insert_value
insert_value-IsRising m n [] lt r = (lt, tt)
insert_value-IsRising m n (x ∷ xs) lt r = elim (Bool-cases (ltb n x)) [
  | inl before ↦ rw before (lt, (ground (arith, before), r.1))
  | inr after ↦ elim (Bool-cases (nat_eq n x)) [
    | inl same ↦ rw (after, same) r
    | inr differs ↦
        let above : x < n = ground (arith, after, differs, nat_eq_iff n x) in
        rw (after, differs) (r.0, insert_value-IsRising x n xs above r.1)
  ]
]

has-insert_value : (k n : ℕ) (xs : List ℕ) → has k (insert_value n xs) ≡ (nat_eq k n || has k xs)
unfolding insert_value
has-insert_value k n [] = ground arith
has-insert_value k n (x ∷ xs) =
    ground (arith, has-insert_value k n xs, nat_eq_iff n x, nat_eq_iff k n, nat_eq_iff k x)

add_range-IsRising :
    (start count : ℕ) (xs : List ℕ)
    → 1 ≤ start
    → IsRising 0 xs
    → IsRising 0 (add_range start count xs)
unfolding add_range
add_range-IsRising start zero xs le r = r
add_range-IsRising start (suc count) xs le r =
    insert_value-IsRising 0 start (add_range (start + 1) count xs) (omega (arith, le))
      (add_range-IsRising (start + 1) count xs (omega (arith, le)) r)

has-add_range :
    (k start count : ℕ) (xs : List ℕ)
    → has k (add_range start count xs) ≡ ((leb start k && ltb k (start + count)) || has k xs)
unfolding add_range
has-add_range k start zero xs = ground arith
has-add_range k start (suc count) xs =
    let first = has-insert_value k start (add_range (start + 1) count xs) in
    let rest = has-add_range k (start + 1) count xs in
    ground (arith, first, rest, nat_eq_iff k start)

-- What the loop over the parts returns.
pub record Collected (parts : List String) (before after : List ℕ) : Type 0 where
  pub rising : IsRising 0 before → IsRising 0 after
  pub named : (k : ℕ) → has k after ≡ (has k before || names k parts)

pub vlan_values-Collected :
    (parts : List String) (before after : List ℕ)
    → vlan_values parts before ≡ ok after
    → Collected parts before after
unfolding vlan_values
vlan_values-Collected [] before after h =
    subst (Collected [] before) (result_value h)
      (record { rising = λ r. r; named = λ k. ground arith })
vlan_values-Collected (part ∷ parts) before after h = elim (Option-cases (bounds_of part)) [
  | inl unknown ↦ ground (arith, unknown)
  | inr (bounds, parsed) ↦ elim (Bool-cases (is_vlan_range bounds)) [
    | inr outside ↦ ground (arith, parsed, outside)
    | inl inside ↦
        let count = (bounds.1 + 1) - bounds.0 in
        let rest =
          vlan_values-Collected parts (add_range bounds.0 count before) after
            (rw (parsed, inside, vlan_values) at h) in
        record {
          rising = λ r.
              rest.rising (add_range-IsRising bounds.0 count before (ground (arith, inside)) r);
          named = λ k.
              let later = rest.named k in
              let added = has-add_range k bounds.0 count before in
              ground (arith, parsed, inside, later, added);
        }
  ]
]

has_none_below : (k n : ℕ) (xs : List ℕ) → IsRising n xs → k ≤ n → has k xs ≡ false
unfolding IsRising
has_none_below k n [] r le = refl
has_none_below k n (x ∷ xs) r le =
    let above = r.0 in
    let rest = has_none_below k x xs r.1 (omega (arith, above, le)) in
    ground (arith, rest, above, le, nat_eq_iff k x)

heads_agree :
    (x y : ℕ) (xs ys : List ℕ)
    → IsRising x xs
    → IsRising y ys
    → has x (x ∷ xs) ≡ has x (y ∷ ys)
    → has y (x ∷ xs) ≡ has y (y ∷ ys)
    → x ≡ y
heads_agree x y xs ys r s at_x at_y = elim (Bool-cases (nat_eq x y)) [
  | inl same ↦ (nat_eq_iff x y).0 same
  | inr differs ↦ elim (Bool-cases (ltb x y)) [
    | inl before ↦
        let gone = has_none_below x y ys s (ground (arith, before)) in
        ground (arith, gone, differs, at_x, nat_eq_iff x x)
    | inr after ↦
        let gone = has_none_below y x xs r (ground (arith, after)) in
        ground (arith, gone, differs, at_y, nat_eq_iff y y, nat_eq_iff y x, nat_eq_iff x y)
  ]
]

tails_agree :
    (k x y : ℕ) (xs ys : List ℕ)
    → x ≡ y
    → IsRising x xs
    → IsRising y ys
    → has k (x ∷ xs) ≡ has k (y ∷ ys)
    → has k xs ≡ has k ys
tails_agree k x y xs ys e r s h = elim (Bool-cases (nat_eq k x)) [
  | inl same ↦
      let at = (nat_eq_iff k x).0 same in
      let none_left = has_none_below k x xs r (omega (arith, at)) in
      let none_right = has_none_below k y ys s (omega (arith, at, e)) in none_left ∙ sym none_right
  | inr differs ↦ ground (arith, differs, h, e, nat_eq_iff k x, nat_eq_iff k y)
]

-- Rising lists with the same numbers are the same.
pub rising_unique :
    (n : ℕ) (xs ys : List ℕ)
    → IsRising n xs
    → IsRising n ys
    → ((k : ℕ) → has k xs ≡ has k ys)
    → xs ≡ ys
unfolding IsRising
rising_unique n [] [] r s h = refl
rising_unique n [] (y ∷ ys) r s h = let at_y = h y in ground (arith, at_y, nat_eq_iff y y)
rising_unique n (x ∷ xs) [] r s h = let at_x = h x in ground (arith, at_x, nat_eq_iff x x)
rising_unique n (x ∷ xs) (y ∷ ys) r s h =
    let e : x ≡ y = heads_agree x y xs ys r.1 s.1 (h x) (h y) in
    let tails : (k : ℕ) → has k xs ≡ has k ys = λ k. tails_agree k x y xs ys e r.1 s.1 (h k) in
    let rest = rising_unique x xs ys r.1 (subst (λ z. IsRising z ys) (sym e) s.1) tails in
    λ i. e i ∷ rest i
