-- ===== src/Redaction.antt =====
-- backend/app/core/redaction.py: secret redaction of payloads before they are stored.
-- The two regular expression substitutions are a parameter (`Patterns`); `str.lower` is modelled where
-- its result is an ASCII letter alone, since every marker and key that it is compared with is ASCII. (The
-- one other letter that it makes an ASCII letter of, the dotted capital I, gets a combining dot after the
-- i, and no marker or key ends in an i.)
pub mod Safety
use gjallar.Prelude.{
  ℕ, ◌+◌, String, Bool, true, false, ◌&&◌, ◌||◌, List, [], ◌∷◌, map, any, leb, nat_eq, ◌==◌,
  if◌then◌else◌,
}
use gjallar.Prelude.Text.{codes}
use gjallar.Json.{
  Json, null, bool, number, text, array, object, Items, nil, cons, Fields, empty, field,
}

-- `re.sub` at the two patterns of the module, from Python's library.
pub record Patterns : Type 0 where
  -- _SSH_PUBLIC_KEY_VALUE_PATTERN.sub("[REDACTED_SSH_PUBLIC_KEY]", value)
  pub ssh_public_key_sub : String → String
  -- sub(r"(://[^:/@]+:)[^@]+(@)", …, value)
  pub credential_url_sub : String → String

abbrev pub redacted : String
redacted = "[REDACTED]"

abbrev pub secret_key_markers : List String
secret_key_markers =
    "secret" ∷ "token" ∷ "password" ∷ "passwd" ∷ "private_key" ∷ "credential" ∷ "database_url"
    ∷ "connection_string" ∷ []

abbrev pub secret_exact_keys : List String
secret_exact_keys =
    "sshkeys" ∷ "sshkey" ∷ "ssh_public_key" ∷ "sshpublickey" ∷ "public_key" ∷ "publickey" ∷ []

abbrev pub safe_keys : List String
safe_keys = "password_login" ∷ []

-- str.lower of one character: an ASCII letter, or the Kelvin sign, which becomes a k
abbrev pub lower : ℕ → ℕ
lower c = if leb b'A' c && leb c b'Z' then c + 32 else if nat_eq c 8490 then b'k' else c

-- str.replace("-", "_") of one character
abbrev pub dash_to_underscore : ℕ → ℕ
dash_to_underscore c = if nat_eq c b'-' then b'_' else c

-- str.replace("_", "")
abbrev pub drop_underscores : List ℕ → List ℕ
drop_underscores [] = []
drop_underscores (c ∷ s) = let rest = drop_underscores s in if nat_eq c b'_' then rest else c ∷ rest

abbrev pub text_eq : List ℕ → List ℕ → Bool
text_eq [] [] = true
text_eq (c ∷ s) (d ∷ t) = nat_eq c d && text_eq s t
text_eq _ _ = false

abbrev pub prefix : List ℕ → List ℕ → Bool
prefix [] s = true
prefix (c ∷ p) [] = false
prefix (c ∷ p) (d ∷ s) = nat_eq c d && prefix p s

-- `part in s`
abbrev pub contains : List ℕ → List ℕ → Bool
contains part [] = prefix part []
contains part (c ∷ s) = prefix part (c ∷ s) || contains part s

abbrev pub has_marker : List ℕ → Bool
has_marker s = any (λ marker. contains (codes marker) s) secret_key_markers

-- `_is_secret_key`
unfoldable pub is_secret_key : String → Bool
is_secret_key key =
    let normalized = map lower (map dash_to_underscore (codes key)) in
    let compact = drop_underscores normalized in
    if any (λ k. text_eq (codes k) normalized) safe_keys
    then false
    else if any (λ k. text_eq (codes k) normalized || text_eq (codes k) compact) secret_exact_keys
    then true
    else has_marker normalized

-- `_redact_string`
unfoldable pub redact_string : Patterns → String → String
redact_string p value =
    let masked = p.ssh_public_key_sub value in
    if contains (codes "://") (codes masked) && contains (codes "@") (codes masked)
    then p.credential_url_sub masked
    else if has_marker (map lower (codes masked))
    then redacted
    else masked

-- `redact_secrets`
unfoldable mutual
  pub redact_secrets : Patterns → Json → Json
  redact_secrets p null = null
  redact_secrets p (bool b) = bool b
  redact_secrets p (number n) = number n
  redact_secrets p (text s) = text (redact_string p s)
  redact_secrets p (array xs) = array (redact_items p xs)
  redact_secrets p (object fs) = object (redact_fields p fs)

  pub redact_items : Patterns → Items → Items
  redact_items p nil = nil
  redact_items p (cons x xs) = cons (redact_secrets p x) (redact_items p xs)

  pub redact_fields : Patterns → Fields → Fields
  redact_fields p empty = empty
  redact_fields p (field k v fs) =
      let rest = redact_fields p fs in
      field k (if is_secret_key k then text redacted else redact_secrets p v) rest
