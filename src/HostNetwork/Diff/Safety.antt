-- ===== src/HostNetwork/Diff/Safety.antt =====
-- What an accepted diff of `assert_pending_diff` in backend/app/operations/host_network/domain.py changes.
use Prim.Native.String.{◌++◌ as str_append}
use gjallar.Prelude.{
  ◌≡◌, refl, sym, ◌∙◌, String, Bool, true, false, not, ◌||◌, inl, inr, some, List, All, All-map,
  any, length, ltb, nat_eq_iff, arith, ◌==◌, Bool-cases, Option-cases,
}
use gjallar.Prelude.Text.{words, join_words, codes}
use gjallar.Result.{ok, raise_if, >>=-eq-ok, bridge_error, host_network_diff_unverified}
use gjallar.HostNetwork.Diff.{
  Review, BridgeConfig, Sign, signed_line, config_of, allowed_directive, allowed_diff_line,
  Progress, counts_old, counts_new, is_change, read_diff, starts_with, diff_lines,
  assert_pending_diff,
}
use gjallar.HostNetwork.Diff.Loop.{
  signed_as, is_header, is_allowed, is_edit, declared, shown, Scanned, read_diff-Scanned,
}

abbrev start : Progress
start = record { remaining_old = 0; remaining_new = 0; changed = false; hunks = 0 }

-- What an accepted diff has passed.
record Accepted (changes : String) (review : Review) : Type 0 where
  lines : List String
  cut : diff_lines changes ≡ some lines
  last : Progress
  scanned : Scanned review lines start last
  changed : last.changed ≡ true
  old_done : last.remaining_old ≡ 0
  new_done : last.remaining_new ≡ 0

assert_pending_diff-Accepted :
    (changes : String) (review : Review)
    → assert_pending_diff changes review ≡ ok tt
    → Accepted changes review
unfolding assert_pending_diff
assert_pending_diff-Accepted changes review h =
    let (u, short, rest) =
      >>=-eq-ok
        (raise_if (ltb 262144 (length (codes changes))) (bridge_error host_network_diff_unverified))
        _ h in
    elim (Option-cases (diff_lines changes)) [
      | inl malformed ↦ ground (arith, malformed, rest)
      | inr (lines, cut) ↦
          let run = rw cut at rest in
          let (last, scanned, done) = >>=-eq-ok (read_diff review lines start) _ run in
          record {
            lines = lines;
            cut = cut;
            last = last;
            scanned = read_diff-Scanned review lines start last scanned;
            changed = ground (arith, done);
            old_done = ground (arith, done, nat_eq_iff last.remaining_old 0);
            new_done = ground (arith, done, nat_eq_iff last.remaining_new 0);
          }
    ]

-- In a diff that `assert_pending_diff` accepts, every line after the two file names is a hunk header, a
-- kept line, or a line that `_allowed_diff_line` allows with its sign; some line adds or removes more
-- than blanks; and the hunks have as many old and new lines as their headers declare.
pub assert_pending_diff_lines :
    (changes : String) (review : Review)
    → assert_pending_diff changes review ≡ ok tt
    → (lines : List String) × (diff_lines changes ≡ some lines)
      × All (λ line. is_allowed review line ≡ true) lines
      × (any is_edit lines ≡ true)
      × (shown counts_old lines ≡ declared (λ counts. counts.0) lines)
      × (shown counts_new lines ≡ declared (λ counts. counts.1) lines)
assert_pending_diff_lines changes review h =
    let a = assert_pending_diff-Accepted changes review h in
    let edits = a.scanned.edits in
    let changed = a.changed in
    let old = a.scanned.old in
    let new = a.scanned.new in
    let old_done = a.old_done in
    let new_done = a.new_done in
    (
      a.lines,
      a.cut,
      a.scanned.allowed,
      sym edits ∙ changed,
      omega (arith, old, old_done),
      omega (arith, new, new_done),
    )

-- A text of one of the directives of a review: the start of the bridge, its VLAN switch, or its VLANs.
abbrev pub is_reviewed : Review → String → Bool
is_reviewed review stripped =
    (stripped == "")
    || (stripped == str_append "auto " review.bridge_id)
    || (stripped == "bridge-vlan-aware yes")
    || starts_with "bridge-vids " stripped

-- A line that keeps its text, or that changes one of those directives.
abbrev pub is_confined : Review → String → Bool
is_confined review line =
    is_header line
    || signed_as
        (λ sign value. not (is_change sign) || is_reviewed review (join_words (words value))) line

directive_confined :
    (stripped : String) (sign : Sign) (review : Review) (config : BridgeConfig)
    → review.is_create ≡ false
    → allowed_directive sign review config stripped ≡ true
    → is_reviewed review stripped ≡ true
unfolding allowed_directive
directive_confined stripped sign review config update h = ground (arith, update, h)

allowed_diff_line_confined :
    (value : String) (sign : Sign) (review : Review)
    → review.is_create ≡ false
    → allowed_diff_line value sign review ≡ true
    → is_reviewed review (join_words (words value)) ≡ true
unfolding allowed_diff_line
allowed_diff_line_confined value sign review update h =
    elim (Bool-cases (join_words (words value) == "")) [
      | inl blank ↦ rw blank refl
      | inr text_left ↦ elim (Option-cases (config_of sign review)) [
        | inl absent ↦ ground (arith, text_left, absent)
        | inr (config, given) ↦
            directive_confined (join_words (words value)) sign review config update
              (rw (text_left, given, allowed_diff_line) at h)
      ]
    ]

line_confined :
    (review : Review) (line : String)
    → review.is_create ≡ false
    → is_allowed review line ≡ true
    → is_confined review line ≡ true
line_confined review line update h = elim (Option-cases (signed_line line)) [
  | inl malformed ↦ ground (arith, malformed, h)
  | inr (signed, parsed) ↦ elim (Bool-cases (allowed_diff_line signed.1 signed.0 review)) [
    | inl allowed ↦
        let reviewed = allowed_diff_line_confined signed.1 signed.0 review update allowed in
        ground (arith, parsed, h, reviewed)
    | inr refused ↦ ground (arith, parsed, h, refused)
  ]
]

-- In a diff that `assert_pending_diff` accepts for the update of a bridge, every line is a hunk header, a
-- kept line, or one whose words are none, the bridge's `auto` directive, the VLAN switch or a VLAN list.
pub assert_pending_diff_confined :
    (changes : String) (review : Review)
    → review.is_create ≡ false
    → assert_pending_diff changes review ≡ ok tt
    → (lines : List String) × (diff_lines changes ≡ some lines)
      × All (λ line. is_confined review line ≡ true) lines
assert_pending_diff_confined changes review update h =
    let a = assert_pending_diff-Accepted changes review h in
    (
      a.lines,
      a.cut,
      All-map (λ line. is_allowed review line ≡ true) (λ line. is_confined review line ≡ true)
          a.lines (λ line allowed. line_confined review line update allowed) a.scanned.allowed,
    )
