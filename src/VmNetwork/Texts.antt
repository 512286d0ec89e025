-- ===== src/VmNetwork/Texts.antt =====
-- The texts that `replace_network` of backend/app/operations/vm_network/domain.py writes as options.
use Prim.Native.Char.{code}
use Prim.Native.String.{◌++◌ as str_append}
use text.Mathlib.TextLemmas.{nil-append, cons-append}
use gjallar.Prelude.{
  ℕ, zero, suc, ◌/◌, ◌%◌, ◌≡◌, refl, subst, ◌∙◌, String, Bool, true, false, not, ◌&&◌, ◌||◌, inl,
  inr, List, [], ◌∷◌, All, length, leb, ltb, nat_eq, nat_eq_iff, arith, ◌==◌, str_eq_iff,
  Bool-cases, if◌then◌else◌,
}
use gjallar.Prelude.Text.{codes, is_alnum, all_codes}
use gjallar.Prelude.Parts.{lacks}
use gjallar.Lock.{digit, decimal, decimal_from}
use gjallar.HostConfig.{is_identifier}
use gjallar.VmNetwork.{is_option_key}
use gjallar.VmNetwork.Options.{all_codes-weaken, lacks-append}
use gjallar.VmNetwork.Parsed.{IsOption}

either :
    (test : String → Bool) (b : Bool) (s t : String)
    → test s ≡ true
    → test t ≡ true
    → test (if b then s else t) ≡ true
either test true s t p q = p
either test false s t p q = q

-- What holds of the ten digits holds of a digit.
every_digit :
    (test : String → Bool) (n : ℕ)
    → All (λ s. test s ≡ true) ("0" ∷ "1" ∷ "2" ∷ "3" ∷ "4" ∷ "5" ∷ "6" ∷ "7" ∷ "8" ∷ "9" ∷ [])
    → test (digit n) ≡ true
every_digit test n (p0, (p1, (p2, (p3, (p4, (p5, (p6, (p7, (p8, (p9, u)))))))))) =
    either test (nat_eq n 0) _ _ p0 (
      either test (nat_eq n 1) _ _ p1 (
        either test (nat_eq n 2) _ _ p2 (
          either test (nat_eq n 3) _ _ p3 (
            either test (nat_eq n 4) _ _ p4 (
              either test (nat_eq n 5) _ _ p5 (
                either test (nat_eq n 6) _ _ p6
                  (either test (nat_eq n 7) _ _ p7 (either test (nat_eq n 8) _ _ p8 p9))))))))

digit-lacks : (n : ℕ) → lacks b',' (digit n) ≡ true
digit-lacks n =
    every_digit (lacks b',') n
      (refl, (refl, (refl, (refl, (refl, (refl, (refl, (refl, (refl, (refl, tt))))))))))

digit_filled : (n : ℕ) → (digit n == "") ≡ false
digit_filled n =
    let filled =
      every_digit (λ s. not (s == "")) n
        (refl, (refl, (refl, (refl, (refl, (refl, (refl, (refl, (refl, (refl, tt)))))))))) in
    ground (arith, filled)

codes_filled : (s : String) (c : ℕ) (cs : List ℕ) → codes s ≡ c ∷ cs → (s == "") ≡ false
codes_filled s c cs h = elim (Bool-cases (s == "")) [
  | inr filled ↦ filled
  | inl blank ↦
      let e : [] ≡ c ∷ cs = subst (λ t. codes t ≡ c ∷ cs) ((str_eq_iff s "").0 blank) h in cc e
]

append_filled : (s t : String) → (t == "") ≡ false → (str_append s t == "") ≡ false
append_filled String.[] t h = rw nil-append h
append_filled (String.◌∷◌ c s) t h =
    rw cons-append
      (codes_filled (String.◌∷◌ c (str_append s t)) (code c) (codes (str_append s t)) refl)

and_true : {a b : Bool} → a ≡ true → b ≡ true → (a && b) ≡ true
and_true h k = cc (h, k)

decimal_from-lacks : (fuel n : ℕ) → lacks b',' (decimal_from fuel n) ≡ true
unfolding decimal_from
decimal_from-lacks zero n = digit-lacks n
decimal_from-lacks (suc fuel) n = elim (Bool-cases (ltb n 10)) [
  | inl small ↦ rw (small, decimal_from) (digit-lacks n)
  | inr large ↦
      let both = lacks-append b',' (decimal_from fuel (n / 10)) (digit (n % 10)) in
      let rest = decimal_from-lacks fuel (n / 10) in
      let last = digit-lacks (n % 10) in rw (large, decimal_from) (both ∙ and_true rest last)
]

decimal_from-filled : (fuel n : ℕ) → (decimal_from fuel n == "") ≡ false
unfolding decimal_from
decimal_from-filled zero n = digit_filled n
decimal_from-filled (suc fuel) n = elim (Bool-cases (ltb n 10)) [
  | inl small ↦ rw (small, decimal_from) (digit_filled n)
  | inr large ↦
      rw (large, decimal_from)
        (append_filled (decimal_from fuel (n / 10)) (digit (n % 10)) (digit_filled (n % 10)))
]

pub tag-IsOption : (n : ℕ) → IsOption ("tag", decimal n)
unfolding decimal is_option_key
tag-IsOption n = record {
  keyed = refl;
  filled = decimal_from-filled n n;
  whole = decimal_from-lacks n n;
}

identifier_filled : (s : String) → is_identifier s ≡ true → (s == "") ≡ false
unfolding is_identifier
identifier_filled s h = elim (Bool-cases (s == "")) [
  | inr filled ↦ filled
  | inl blank ↦
      let e : false ≡ true = subst (λ t. is_identifier t ≡ true) ((str_eq_iff s "").0 blank) h in
      cc e
]

identifier_codes :
    (cs : List ℕ)
    → elim cs [
      | [] ↦ false
      | c ∷ rest ↦
          is_alnum c
          && leb (length rest) 63
          && all_codes (λ d. is_alnum d || nat_eq d b'_' || nat_eq d b'.' || nat_eq d b'-') rest
    ]
      ≡ true
    → all_codes (λ c. not (nat_eq c b',')) cs ≡ true
identifier_codes [] h = refl
identifier_codes (c ∷ cs) h =
    let rest =
      all_codes-weaken (λ d. is_alnum d || nat_eq d b'_' || nat_eq d b'.' || nat_eq d b'-')
        (λ d. not (nat_eq d b',')) cs (λ d w. ground (arith, w, nat_eq_iff d b',')) in
    ground (arith, h, rest, nat_eq_iff c b',')

pub bridge-IsOption : (bridge : String) → is_identifier bridge ≡ true → IsOption ("bridge", bridge)
unfolding is_identifier is_option_key
bridge-IsOption bridge h = record {
  keyed = refl;
  filled = identifier_filled bridge h;
  whole = identifier_codes (codes bridge) h;
}
