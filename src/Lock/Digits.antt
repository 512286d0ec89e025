-- ===== src/Lock/Digits.antt =====
-- The decimal numbers in the locator keys of backend/app/operations/locks/domain.py.
use gjallar.Prelude.{
  ℕ, zero, suc, ◌+◌, ◌-◌, ◌/◌, ◌≤◌, ◌≡◌, refl, ap, ◌∙◌, inl, inr, arith, ltb, Bool-cases,
}
use gjallar.Lock.{decimal_from, decimal}

decimal_from-suc : (fuel n : ℕ) → n ≤ fuel → decimal_from (suc fuel) n ≡ decimal_from fuel n
unfolding decimal_from
decimal_from-suc zero n h = ground arith
decimal_from-suc (suc fuel) n h = elim (Bool-cases (ltb n 10)) [
  | inl small ↦ rw small refl
  | inr large ↦
      let rest = decimal_from-suc fuel (n / 10) (ground (arith, large, h)) in rw (large, rest) refl
]

decimal_from-add : (extra n : ℕ) → decimal_from (n + extra) n ≡ decimal_from n n
decimal_from-add zero n = ap (λ k. decimal_from k n) (omega arith)
decimal_from-add (suc extra) n =
    let e : n + suc extra ≡ suc (n + extra) = omega arith in
    ap (λ k. decimal_from k n) e
    ∙ decimal_from-suc (n + extra) n (omega arith)
    ∙ decimal_from-add extra n

-- The number's own value is enough fuel to print it: with any more, the text is the same.
pub decimal_enough : (fuel n : ℕ) → n ≤ fuel → decimal_from fuel n ≡ decimal n
unfolding decimal
decimal_enough fuel n h =
    let e : fuel ≡ n + (fuel - n) = omega (arith, h) in
    ap (λ k. decimal_from k n) e ∙ decimal_from-add (fuel - n) n
