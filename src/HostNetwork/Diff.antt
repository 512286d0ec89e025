-- ===== src/HostNetwork/Diff.antt =====
-- `assert_pending_diff` of backend/app/operations/host_network/domain.py: the pending change of the
-- interfaces file, line by line.
pub mod Loop
pub mod Safety
use Prim.Native.String.{◌∷◌ as text_cons, ◌++◌ as str_append}
use Prim.Native.Char.{code}
use gjallar.Prelude.{
  ℕ, zero, suc, ◌+◌, String, Bool, true, false, not, ◌&&◌, ◌||◌, Option, none, some, List, [], ◌∷◌,
  length, leb, ltb, nat_eq, ◌==◌, if◌then◌else◌,
}
use gjallar.Prelude.Text.{
  is_blank, codes, words, join_words, span_digits, digits_value, after_prefix, splitlines,
}
use gjallar.Result.{
  Result, ok, err, ◌>>=◌, ◌>>◌, raise_if, BridgeCode, bridge_error, host_network_diff_unverified,
  host_network_foreign_changes,
}
use gjallar.HostNetwork.Vlan.{vlan_ranges}

-- review["desired"] and review["observed_before"], by the keys that the diff is compared with
pub record BridgeConfig : Type 0 where
  pub autostart : Bool
  pub vlan_aware : Bool
  pub vlan_ids : Option String

-- `is_create` is `mode == "create"`
pub record Review : Type 0 where
  pub bridge_id : String
  pub is_create : Bool
  pub desired : BridgeConfig
  pub observed_before : Option BridgeConfig

pub data Sign : Type 0 where
  kept removed added : Sign

-- `line[0]` and `line[1:]`; none where the line is blank or starts with another character
unfoldable pub signed_line : String → Option (Sign × String)
signed_line String.[] = none
signed_line (String.◌∷◌ c rest) =
    if nat_eq (code c) b' '
    then some (kept, rest)
    else if nat_eq (code c) b'+'
    then some (added, rest)
    else if nat_eq (code c) b'-'
    then some (removed, rest)
    else none

-- vlan_ranges(text) == ids, false where it raises
unfoldable pub same_ranges : String → Option String → Bool
unfolding vlan_ranges
same_ranges value ids = elim (vlan_ranges value) [
  | err e ↦ false
  | ok ranges ↦ elim ids [ none ↦ false | some expected ↦ ranges == expected ]
]

-- The directives of a new bridge.
abbrev pub is_new_directive : String → String → Bool
is_new_directive bridge_id stripped =
    (stripped == str_append "iface " (str_append bridge_id " inet manual"))
    || (stripped == "bridge-ports none")
    || (stripped == "bridge-stp off")
    || (stripped == "bridge-fd 0")

abbrev pub is_added : Sign → Bool
is_added added = true
is_added _ = false

-- `config`
abbrev pub config_of : Sign → Review → Option BridgeConfig
config_of sign review = if is_added sign then some review.desired else review.observed_before

-- The tests of `_allowed_diff_line` on a directive.
unfoldable pub allowed_directive : Sign → Review → BridgeConfig → String → Bool
unfolding same_ranges
allowed_directive sign review config stripped =
    if stripped == str_append "auto " review.bridge_id
    then config.autostart
    else if stripped == "bridge-vlan-aware yes"
    then config.vlan_aware
    else elim (after_prefix "bridge-vids " stripped) [
      | some value ↦ config.vlan_aware && same_ranges value config.vlan_ids
      | none ↦ review.is_create && is_added sign && is_new_directive review.bridge_id stripped
    ]

-- `_allowed_diff_line`
unfoldable pub allowed_diff_line : String → Sign → Review → Bool
unfolding allowed_directive words
allowed_diff_line line sign review =
    let stripped = join_words (words line) in
    if stripped == "" then true else elim (config_of sign review) [
      | none ↦ false
      | some config ↦ allowed_directive sign review config stripped
    ]

-- [0-9]+(?:,([0-9]+))?, with the count of the group, 1 where it is absent, and the text after it
unfoldable pub hunk_range : String → Option (ℕ × String)
hunk_range s =
    let first = span_digits s in
    elim first.0 [
      | [] ↦ none
      | c ∷ cs ↦ elim (after_prefix "," first.1) [
        | none ↦ some (1, first.1)
        | some rest ↦
            let count = span_digits rest in
            elim count.0 [ [] ↦ none | d ∷ ds ↦ some (digits_value 0 (d ∷ ds), count.1) ]
      ]
    ]

-- The regular expression of a hunk header, with its two counts.
unfoldable pub hunk_header : String → Option (ℕ × ℕ)
unfolding hunk_range
hunk_header line = elim (after_prefix "@@ -" line) [
  | none ↦ none
  | some s ↦ elim (hunk_range s) [
    | none ↦ none
    | some old ↦ elim (after_prefix " +" old.1) [
      | none ↦ none
      | some t ↦ elim (hunk_range t) [
        | none ↦ none
        | some new ↦ elim (after_prefix " @@" new.1) [
          | none ↦ none
          | some rest ↦
              if rest == ""
              then some (old.0, new.0)
              else elim (after_prefix " " rest) [ none ↦ none | some u ↦ some (old.0, new.0) ]
        ]
      ]
    ]
  ]
]

-- The variables of the loop. A count that would pass below zero is refused, so they are natural.
pub record Progress : Type 0 where
  pub remaining_old : ℕ
  pub remaining_new : ℕ
  pub changed : Bool
  pub hunks : ℕ

abbrev unverified : {A : Type 0} → Result A
unverified = err (bridge_error host_network_diff_unverified)

-- A line that starts with "@@".
unfoldable pub read_header : String → Progress → Result Progress
unfolding hunk_header
read_header line p = elim (hunk_header line) [
  | none ↦ unverified
  | some counts ↦ do
    raise_if (not (nat_eq p.remaining_old 0) || not (nat_eq p.remaining_new 0))
        (bridge_error host_network_diff_unverified)
    ok (record p { remaining_old = counts.0; remaining_new = counts.1; hunks = p.hunks + 1 })
]

abbrev pub counts_old : Sign → Bool
counts_old added = false
counts_old _ = true

abbrev pub counts_new : Sign → Bool
counts_new removed = false
counts_new _ = true

abbrev pub is_change : Sign → Bool
is_change kept = false
is_change _ = true

-- n - 1, of a positive number
abbrev pub lowered : Bool → ℕ → ℕ
lowered true (suc n) = n
lowered _ n = n

-- A line of a hunk.
unfoldable pub read_line : Review → Sign → String → Progress → Result Progress
unfolding allowed_diff_line
read_line review sign value p = do
  raise_if
      ((counts_old sign && nat_eq p.remaining_old 0)
        || (counts_new sign && nat_eq p.remaining_new 0))
      (bridge_error host_network_diff_unverified)
  raise_if (is_change sign && not (allowed_diff_line value sign review))
      (bridge_error host_network_foreign_changes)
  ok (record p {
    remaining_old = lowered (counts_old sign) p.remaining_old;
    remaining_new = lowered (counts_new sign) p.remaining_new;
    changed = p.changed || (is_change sign && not (is_blank value));
  })

-- One round of the loop.
unfoldable pub read_diff_line : Review → String → Progress → Result Progress
unfolding read_header read_line signed_line
read_diff_line review line p = elim (after_prefix "@@" line) [
  | some rest ↦ read_header line p
  | none ↦ if nat_eq p.hunks 0 then unverified else elim (signed_line line) [
    | none ↦ unverified
    | some signed ↦ read_line review signed.0 signed.1 p
  ]
]

unfoldable pub read_diff : Review → List String → Progress → Result Progress
unfolding read_diff_line
read_diff review [] p = ok p
read_diff review (line ∷ lines) p = do
  next_one ← read_diff_line review line p
  read_diff review lines next_one

abbrev pub starts_with : String → String → Bool
starts_with start s = elim (after_prefix start s) [ none ↦ false | some rest ↦ true ]

-- The lines after the two of the file names.
unfoldable pub diff_lines : String → Option (List String)
diff_lines changes = elim (splitlines changes) [
  | [] ↦ none
  | old ∷ more ↦ elim more [
    | [] ↦ none
    | new ∷ lines ↦ elim lines [
      | [] ↦ none
      | line ∷ rest ↦
          if starts_with "--- /etc/network/interfaces\t" old
            && starts_with "+++ /etc/network/interfaces.new\t" new
          then some (line ∷ rest)
          else none
    ]
  ]
]

-- `assert_pending_diff` of a text
unfoldable pub assert_pending_diff : String → Review → Result (Unit {0})
unfolding diff_lines read_diff
assert_pending_diff changes review = do
  raise_if (ltb 262144 (length (codes changes))) (bridge_error host_network_diff_unverified)
  elim (diff_lines changes) [
    | none ↦ unverified
    | some lines ↦ do
      p ←
          read_diff review lines
            (record { remaining_old = 0; remaining_new = 0; changed = false; hunks = 0 })
      raise_if
          (nat_eq p.hunks 0
            || not p.changed
            || not (nat_eq p.remaining_old 0)
            || not (nat_eq p.remaining_new 0))
          (bridge_error host_network_diff_unverified)
  ]
