-- ===== src/VmNetwork/Options.antt =====
-- The text of the options of a net0, cut into parts and joined again, for
-- backend/app/operations/vm_network/domain.py.
use Prim.Native.Char.{Char, code}
use Prim.Native.String.{◌++◌ as str_append, ◌∷◌ as text_cons}
use text.Mathlib.TextLemmas.{nil-append, cons-append}
use gjallar.Prelude.{
  ℕ, ◌≡◌, refl, subst, ap, ◌∙◌, String, Bool, true, false, not, ◌&&◌, ◌||◌, inl, inr, some, List,
  [], ◌∷◌, All, nat_eq, nat_eq_iff, arith, some_value, Bool-cases, Option-cases,
}
use gjallar.Prelude.Text.{codes, all_codes, is_alnum}
use gjallar.Prelude.Parts.{in_front, split_at, cut_once, join_with, lacks}
use gjallar.VmNetwork.{is_option_key}

pub all_codes-weaken :
    (f g : ℕ → Bool) (cs : List ℕ)
    → ((c : ℕ) → f c ≡ true → g c ≡ true)
    → all_codes f cs ≡ true
    → all_codes g cs ≡ true
all_codes-weaken f g [] w h = refl
all_codes-weaken f g (c ∷ cs) w h = elim (Bool-cases (f c)) [
  | inl passes ↦
      let now = w c passes in
      let rest = all_codes-weaken f g cs w in ground (arith, passes, now, rest, h)
  | inr fails ↦ ground (arith, fails, h)
]

pub lacks-append :
    (sep : ℕ) (s t : String) → lacks sep (str_append s t) ≡ (lacks sep s && lacks sep t)
lacks-append sep String.[] t = rw nil-append refl
lacks-append sep (String.◌∷◌ c s) t = rw cons-append (ground (arith, lacks-append sep s t))

split_at-alone : (sep : ℕ) (s : String) → lacks sep s ≡ true → split_at sep s ≡ s ∷ []
unfolding split_at
split_at-alone sep String.[] h = refl
split_at-alone sep (String.◌∷◌ c s) h = ground (arith, h, split_at-alone sep s)

comma-append : (t : String) → str_append "," t ≡ text_cons "," t
comma-append t = cons-append "," "" t ∙ ap (text_cons ",") (nil-append t)

equals-append : (t : String) → str_append "=" t ≡ text_cons "=" t
equals-append t = cons-append "=" "" t ∙ ap (text_cons "=") (nil-append t)

split_at-cons :
    (s t : String)
    → lacks b',' s ≡ true
    → split_at b',' (str_append s (text_cons "," t)) ≡ s ∷ split_at b',' t
unfolding split_at
split_at-cons String.[] t h = rw nil-append refl
split_at-cons (String.◌∷◌ c s) t h = rw cons-append (ground (arith, h, split_at-cons s t))

split_at-append :
    (s t : String)
    → lacks b',' s ≡ true
    → split_at b',' (str_append s (str_append "," t)) ≡ s ∷ split_at b',' t
split_at-append s t h = rw comma-append (split_at-cons s t h)

pub split_at-join_with :
    (w : String) (ws : List String)
    → All (λ v. lacks b',' v ≡ true) (w ∷ ws)
    → split_at b',' (join_with "," (w ∷ ws)) ≡ w ∷ ws
unfolding join_with
split_at-join_with w [] a = split_at-alone b',' w a.0
split_at-join_with w (v ∷ vs) a =
    split_at-append w (join_with "," (v ∷ vs)) a.0
    ∙ ap (λ rest. w ∷ rest) (split_at-join_with v vs a.1)

in_front-lacks :
    (sep : ℕ) (c : Char) (ws : List String)
    → nat_eq (code c) sep ≡ false
    → All (λ w. lacks sep w ≡ true) ws
    → All (λ w. lacks sep w ≡ true) (in_front c ws)
in_front-lacks sep c [] h a = (ground (arith, h), tt)
in_front-lacks sep c (w ∷ ws) h a = let first = a.0 in (ground (arith, h, first), a.1)

pub split_at-lacks : (sep : ℕ) (s : String) → All (λ w. lacks sep w ≡ true) (split_at sep s)
unfolding split_at
split_at-lacks sep String.[] = (refl, tt)
split_at-lacks sep (String.◌∷◌ c s) = elim (Bool-cases (nat_eq (code c) sep)) [
  | inl cut ↦ rw (cut, split_at) (refl, split_at-lacks sep s)
  | inr stays ↦
      rw (stays, split_at) (in_front-lacks sep c (split_at sep s) stays (split_at-lacks sep s))
]

cut_once-cons :
    (k v : String)
    → lacks b'=' k ≡ true
    → cut_once b'=' (str_append k (text_cons "=" v)) ≡ some (k, v)
unfolding cut_once
cut_once-cons String.[] v h = rw nil-append refl
cut_once-cons (String.◌∷◌ c k) v h = rw cons-append (ground (arith, h, cut_once-cons k v))

pub cut_once-append :
    (k v : String)
    → lacks b'=' k ≡ true
    → cut_once b'=' (str_append k (str_append "=" v)) ≡ some (k, v)
cut_once-append k v h = rw equals-append (cut_once-cons k v h)

-- The value of a part has no character that the part lacks.
pub cut_once-lacks :
    (other sep : ℕ) (s k v : String)
    → cut_once sep s ≡ some (k, v)
    → lacks other s ≡ true
    → lacks other v ≡ true
unfolding cut_once
cut_once-lacks other sep String.[] k v h l = cc
cut_once-lacks other sep (String.◌∷◌ c s) k v h l = elim (Bool-cases (nat_eq (code c) sep)) [
  | inl cut ↦
      let e : (String.[], s) ≡ (k, v) = some_value (rw (cut, cut_once) at h) in
      subst (λ t. lacks other t ≡ true) (ap (λ (t : String × String). t.1) e) (ground (arith, l))
  | inr stays ↦ elim (Option-cases (cut_once sep s)) [
    | inl absent ↦ ground (arith, stays, absent, h)
    | inr (parts, found) ↦
        let e : (String.◌∷◌ c parts.0, parts.1) ≡ (k, v) =
          some_value (rw (stays, found, cut_once) at h) in
        subst (λ t. lacks other t ≡ true) (ap (λ (t : String × String). t.1) e)
          (cut_once-lacks other sep s parts.0 parts.1 found (ground (arith, l)))
  ]
]

-- A key has neither separator.
pub key-lacks :
    (k : String) → is_option_key k ≡ true → (lacks b'=' k ≡ true) × (lacks b',' k ≡ true)
unfolding is_option_key
key-lacks k h = (
  all_codes-weaken (λ c. is_alnum c || nat_eq c b'_' || nat_eq c b'-') (λ c. not (nat_eq c b'='))
      (codes k) (λ c w. ground (arith, w, nat_eq_iff c b'=')) (ground (arith, h)),
  all_codes-weaken (λ c. is_alnum c || nat_eq c b'_' || nat_eq c b'-') (λ c. not (nat_eq c b','))
      (codes k) (λ c w. ground (arith, w, nat_eq_iff c b',')) (ground (arith, h)),
)
