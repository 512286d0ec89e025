-- ===== src/Redaction/Safety.antt =====
-- What backend/app/core/redaction.py guarantees of its result.
use gjallar.Prelude.{
  ℕ, ◌≡◌, refl, ap, ◌⊎◌, String, Bool, true, false, ◌&&◌, List, [], ◌∷◌, map, Bool-cases,
  if◌then◌else◌, inl, inr, arith,
}
use gjallar.Prelude.Text.{codes}
use gjallar.Json.{
  Json, null, bool, number, text, array, object, Items, nil, cons, Fields, empty, field,
}
use gjallar.Redaction.{
  Patterns, redacted, is_secret_key, redact_string, redact_secrets, redact_items, redact_fields,
  has_marker, lower, contains,
}

-- A stored text names no secret marker, unless it is the substitution in a text that has both signs of
-- a URL with credentials and whose public keys are masked.
abbrev pub IsSafeText : Patterns → String → Type 0
IsSafeText p s =
    (has_marker (map lower (codes s)) ≡ false)
    ⊎ ((given u : String) × (u ≡ p.ssh_public_key_sub given)
        × (contains (codes "://") (codes u) ≡ true)
        × (contains (codes "@") (codes u) ≡ true)
        × (s ≡ p.credential_url_sub u))

-- At every depth the value of a secret key is the marker, and every text is safe.
mutual
  pub data IsClean (p : Patterns) : Json → Type 0 where
    null_clean : IsClean p null
    bool_clean : (b : Bool) → IsClean p (bool b)
    number_clean : (n : ℕ) → IsClean p (number n)
    text_clean : (s : String) → IsSafeText p s → IsClean p (text s)
    array_clean : (xs : Items) → AreClean p xs → IsClean p (array xs)
    object_clean : (fs : Fields) → HasCleanFields p fs → IsClean p (object fs)

  pub data AreClean (p : Patterns) : Items → Type 0 where
    nil_clean : AreClean p nil
    cons_clean : (x : Json) (xs : Items) → IsClean p x → AreClean p xs → AreClean p (cons x xs)

  pub data HasCleanFields (p : Patterns) : Fields → Type 0 where
    empty_clean : HasCleanFields p empty
    field_clean :
        (k : String) (v : Json) (fs : Fields)
        → (is_secret_key k ≡ true → v ≡ text redacted)
        → IsClean p v
        → HasCleanFields p fs
        → HasCleanFields p (field k v fs)

redact_string-IsSafe : (p : Patterns) (s : String) → IsSafeText p (redact_string p s)
unfolding redact_string
redact_string-IsSafe p s =
    let masked = p.ssh_public_key_sub s in
    elim (Bool-cases
      (contains (codes "://") (codes masked) && contains (codes "@") (codes masked))) [
        | inl url ↦ inr (s, masked, refl, ground (arith, url), ground (arith, url), rw url)
        | inr plain ↦ elim (Bool-cases (has_marker (map lower (codes masked)))) [
          | inl marked ↦ inl (rw (plain, marked))
          | inr unmarked ↦ inl (rw (plain, unmarked) unmarked)
        ]
      ]

field_value-IsClean :
    (p : Patterns) (k : String) (v : Json)
    → IsClean p v
    → (is_secret_key k ≡ true → (if is_secret_key k then text redacted else v) ≡ text redacted)
      × IsClean p (if is_secret_key k then text redacted else v)
field_value-IsClean p k v c = elim (Bool-cases (is_secret_key k)) [
  | inl secret ↦ rw secret (λ _. refl, text_clean redacted (inl refl))
  | inr open_key ↦ rw open_key (λ h. cc, c)
]

mutual
  unfolding redact_secrets

  redact-IsClean : (p : Patterns) (v : Json) → IsClean p (redact_secrets p v)
  redact-IsClean p null = null_clean
  redact-IsClean p (bool b) = bool_clean b
  redact-IsClean p (number n) = number_clean n
  redact-IsClean p (text s) = text_clean (redact_string p s) (redact_string-IsSafe p s)
  redact-IsClean p (array xs) = array_clean (redact_items p xs) (redact_items-AreClean p xs)
  redact-IsClean p (object fs) = object_clean (redact_fields p fs) (redact_fields-IsClean p fs)

  redact_items-AreClean : (p : Patterns) (xs : Items) → AreClean p (redact_items p xs)
  redact_items-AreClean p nil = nil_clean
  redact_items-AreClean p (cons x xs) =
      cons_clean (redact_secrets p x) (redact_items p xs) (redact-IsClean p x)
        (redact_items-AreClean p xs)

  redact_fields-IsClean : (p : Patterns) (fs : Fields) → HasCleanFields p (redact_fields p fs)
  redact_fields-IsClean p empty = empty_clean
  redact_fields-IsClean p (field k v fs) =
      let (a, b) = field_value-IsClean p k (redact_secrets p v) (redact-IsClean p v) in
      field_clean k (if is_secret_key k then text redacted else redact_secrets p v)
        (redact_fields p fs) a b (redact_fields-IsClean p fs)

-- Whatever value is redacted, at every depth of the result each secret key holds the marker, and
-- each text names no secret marker, or is what the substitution in credentialed URLs makes of a text
-- that contains `://` and `@` after its public keys were masked.
pub redact_secrets-IsClean : (p : Patterns) (v : Json) → IsClean p (redact_secrets p v)
redact_secrets-IsClean p v = redact-IsClean p v

-- The keys of a mapping, in order.
abbrev pub keys : Fields → List String
keys empty = []
keys (field k v fs) = k ∷ keys fs

-- Redaction keeps the keys of a mapping and their order.
pub keys-redact_fields : (p : Patterns) (fs : Fields) → keys (redact_fields p fs) ≡ keys fs
unfolding redact_secrets
keys-redact_fields p empty = refl
keys-redact_fields p (field k v fs) = ap (λ (r : List String). k ∷ r) (keys-redact_fields p fs)
