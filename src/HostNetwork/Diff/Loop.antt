-- ===== src/HostNetwork/Diff/Loop.antt =====
-- What the loop of `assert_pending_diff` in backend/app/operations/host_network/domain.py has read.
use gjallar.Prelude.{
  ℕ, zero, suc, ◌+◌, ◌≡◌, refl, subst, String, Bool, true, false, not, ◌&&◌, ◌||◌, inl, inr, none,
  some, List, [], ◌∷◌, All, any, nat_eq, nat_eq_iff, arith, Bool-cases, Option-cases, if◌then◌else◌,
}
use gjallar.Prelude.Text.{is_blank, after_prefix}
use gjallar.Result.{ok, >>=-eq-ok, result_value}
use gjallar.HostNetwork.Diff.{
  Review, Sign, signed_line, allowed_diff_line, hunk_header, Progress, read_header, counts_old,
  counts_new, is_change, lowered, read_line, read_diff_line, read_diff, starts_with,
}

-- Whether a line of a hunk passes a test of its sign and text.
abbrev pub signed_as : (Sign → String → Bool) → String → Bool
signed_as test line =
    not (starts_with "@@" line)
    && elim (signed_line line) [ none ↦ false | some signed ↦ test signed.0 signed.1 ]

-- A line that starts as a hunk header does and has the two ranges of one.
unfoldable pub is_header : String → Bool
unfolding hunk_header
is_header line =
    starts_with "@@" line && elim (hunk_header line) [ none ↦ false | some counts ↦ true ]

-- A header, or a line of a hunk that keeps its text or is allowed.
abbrev pub is_allowed : Review → String → Bool
is_allowed review line =
    is_header line
    || signed_as (λ sign value. not (is_change sign) || allowed_diff_line value sign review) line

-- A line that changes more than blanks.
abbrev pub is_edit : String → Bool
is_edit = signed_as (λ sign value. is_change sign && not (is_blank value))

-- The lines that a list declares in its headers, by one of the two counts, and those that it has.
unfoldable pub declared : (ℕ × ℕ → ℕ) → List String → ℕ
unfolding hunk_header
declared part [] = 0
declared part (line ∷ lines) =
    let rest = declared part lines in
    if starts_with "@@" line
    then elim (hunk_header line) [ none ↦ rest | some counts ↦ part counts + rest ]
    else rest

unfoldable pub shown : (Sign → Bool) → List String → ℕ
shown test [] = 0
shown test (line ∷ lines) =
    let rest = shown test lines in
    if signed_as (λ sign value. test sign) line then rest + 1 else rest

-- What one round that goes on has read.
record Read (review : Review) (line : String) (p q : Progress) : Type 0 where
  allowed : is_allowed review line ≡ true
  edits : q.changed ≡ (p.changed || is_edit line)
  old :
      p.remaining_old + declared (λ counts. counts.0) (line ∷ [])
      ≡ q.remaining_old + shown counts_old (line ∷ [])
  new :
      p.remaining_new + declared (λ counts. counts.1) (line ∷ [])
      ≡ q.remaining_new + shown counts_new (line ∷ [])

lowered_back :
    (test : Bool) (n : ℕ)
    → (test && nat_eq n 0) ≡ false
    → lowered test n + (if test then 1 else 0) ≡ n
lowered_back true zero h = ground (arith, h)
lowered_back true (suc n) h = omega arith
lowered_back false n h = ground arith

header-Read :
    (review : Review) (line rest : String) (p q : Progress)
    → after_prefix "@@" line ≡ some rest
    → read_header line p ≡ ok q
    → Read review line p q
unfolding read_header declared shown is_header
header-Read review line rest p q at h = elim (Option-cases (hunk_header line)) [
  | inl malformed ↦ ground (arith, malformed)
  | inr (counts, parsed) ↦
      elim (Bool-cases (not (nat_eq p.remaining_old 0) || not (nat_eq p.remaining_new 0))) [
        | inl open_hunk ↦ ground (arith, parsed, open_hunk)
        | inr closed ↦ record {
          allowed = ground (arith, at, parsed);
          edits = ground (arith, at, parsed, closed);
          old = ground (arith, at, parsed, closed, nat_eq_iff p.remaining_old 0);
          new = ground (arith, at, parsed, closed, nat_eq_iff p.remaining_new 0);
        }
      ]
]

line-Read :
    (review : Review) (line value : String) (sign : Sign) (p q : Progress)
    → after_prefix "@@" line ≡ none
    → signed_line line ≡ some (sign, value)
    → read_line review sign value p ≡ ok q
    → Read review line p q
unfolding read_line declared shown
line-Read review line value sign p q plain parsed h =
    elim (Bool-cases (
      (counts_old sign && nat_eq p.remaining_old 0)
      || (counts_new sign && nat_eq p.remaining_new 0))) [
        | inl over ↦ ground (arith, over)
        | inr room ↦
            elim (Bool-cases (is_change sign && not (allowed_diff_line value sign review))) [
              | inl foreign ↦ ground (arith, room, foreign)
              | inr fine ↦
                  let old = lowered_back (counts_old sign) p.remaining_old (ground (arith, room)) in
                  let new = lowered_back (counts_new sign) p.remaining_new (ground (arith, room)) in
                  record {
                    allowed = ground (arith, plain, parsed, fine);
                    edits = ground (arith, plain, parsed, room, fine);
                    old = ground (arith, plain, parsed, room, fine, old);
                    new = ground (arith, plain, parsed, room, fine, new);
                  }
            ]
      ]

read_diff_line-Read :
    (review : Review) (line : String) (p q : Progress)
    → read_diff_line review line p ≡ ok q
    → Read review line p q
unfolding read_diff_line
read_diff_line-Read review line p q h = elim (Option-cases (after_prefix "@@" line)) [
  | inr (rest, header) ↦ header-Read review line rest p q header (rw (header, read_diff_line) at h)
  | inl plain ↦ elim (Bool-cases (nat_eq p.hunks 0)) [
    | inl outside ↦ ground (arith, plain, outside)
    | inr inside ↦ elim (Option-cases (signed_line line)) [
      | inl malformed ↦ ground (arith, plain, inside, malformed)
      | inr (signed, parsed) ↦
          line-Read review line signed.1 signed.0 p q plain parsed
            (rw (plain, inside, parsed, read_diff_line) at h)
    ]
  ]
]

declared_first :
    (part : ℕ × ℕ → ℕ) (line : String) (lines : List String)
    → declared part (line ∷ lines) ≡ declared part (line ∷ []) + declared part lines
unfolding declared
declared_first part line lines = elim (Option-cases (hunk_header line)) [
  | inl malformed ↦ ground (arith, malformed)
  | inr (counts, parsed) ↦ ground (arith, parsed)
]

shown_first :
    (test : Sign → Bool) (line : String) (lines : List String)
    → shown test (line ∷ lines) ≡ shown test (line ∷ []) + shown test lines
unfolding shown
shown_first test line lines = ground arith

-- What the loop has read where it ends.
pub record Scanned (review : Review) (lines : List String) (p q : Progress) : Type 0 where
  pub allowed : All (λ line. is_allowed review line ≡ true) lines
  pub edits : q.changed ≡ (p.changed || any is_edit lines)
  pub old :
      p.remaining_old + declared (λ counts. counts.0) lines
      ≡ q.remaining_old + shown counts_old lines
  pub new :
      p.remaining_new + declared (λ counts. counts.1) lines
      ≡ q.remaining_new + shown counts_new lines

pub read_diff-Scanned :
    (review : Review) (lines : List String) (p q : Progress)
    → read_diff review lines p ≡ ok q
    → Scanned review lines p q
unfolding read_diff declared shown
read_diff-Scanned review [] p q h =
    subst (Scanned review [] p) (result_value h)
      (record { allowed = tt; edits = ground arith; old = refl; new = refl })
read_diff-Scanned review (line ∷ lines) p q h =
    let (m, first, rest) = >>=-eq-ok (read_diff_line review line p) _ h in
    let a = read_diff_line-Read review line p m first in
    let b = read_diff-Scanned review lines m q rest in
    record {
      allowed = (a.allowed, b.allowed);
      edits = let x = a.edits in let y = b.edits in ground (arith, x, y);
      old =
          let x = a.old in
          let y = b.old in
          let s = declared_first (λ counts. counts.0) line lines in
          let t = shown_first counts_old line lines in omega (arith, x, y, s, t);
      new =
          let x = a.new in
          let y = b.new in
          let s = declared_first (λ counts. counts.1) line lines in
          let t = shown_first counts_new line lines in omega (arith, x, y, s, t);
    }
