-- ===== src/Operation/Status.antt =====
-- backend/app/operations/core/domain.py: the Operation statuses and the transition table.
-- A status is a text in the source. `unsupported` stands for every text outside
-- OPERATION_STATUSES; the column constraint of OperationRecord keeps it out of the store.
pub mod Paths
use gjallar.Prelude.{
  ℕ, ◌≡◌, refl, ◌↔◌, String, Bool, true, false, not, ◌&&◌, List, [], ◌∷◌, any, arith, nat_eq,
  nat_eq_iff, if◌then◌else◌,
}

pub data OperationStatus : Type 0 where
  draft planned awaiting_approval approved dispatching running : OperationStatus
  awaiting_operator awaiting_verification verifying succeeded blocked : OperationStatus
  rejected expired failed needs_reconciliation cancelled unsupported : OperationStatus

-- A number for each status, by which statuses are compared.
abbrev pub status_code : OperationStatus → ℕ
status_code draft = 0
status_code planned = 1
status_code awaiting_approval = 2
status_code approved = 3
status_code dispatching = 4
status_code running = 5
status_code awaiting_operator = 6
status_code awaiting_verification = 7
status_code verifying = 8
status_code succeeded = 9
status_code blocked = 10
status_code rejected = 11
status_code expired = 12
status_code failed = 13
status_code needs_reconciliation = 14
status_code cancelled = 15
status_code unsupported = 16

-- The text of a status, by its name in the source.
abbrev pub status_text : OperationStatus → String
status_text draft = "draft"
status_text planned = "planned"
status_text awaiting_approval = "awaiting_approval"
status_text approved = "approved"
status_text dispatching = "dispatching"
status_text running = "running"
status_text awaiting_operator = "awaiting_operator"
status_text awaiting_verification = "awaiting_verification"
status_text verifying = "verifying"
status_text succeeded = "succeeded"
status_text blocked = "blocked"
status_text rejected = "rejected"
status_text expired = "expired"
status_text failed = "failed"
status_text needs_reconciliation = "needs_reconciliation"
status_text cancelled = "cancelled"
status_text unsupported = "unsupported"

-- `current == other`
unfoldable pub status_eq : OperationStatus → OperationStatus → Bool
status_eq s t = nat_eq (status_code s) (status_code t)

-- `status in OPERATION_STATUSES`
unfoldable pub is_operation_status : OperationStatus → Bool
is_operation_status unsupported = false
is_operation_status _ = true

-- `status in statuses`
unfoldable pub status_in : OperationStatus → List OperationStatus → Bool
unfolding status_eq
status_in s statuses = any (status_eq s) statuses

-- TERMINAL_OPERATION_STATUSES
abbrev pub terminal_operation_statuses : List OperationStatus
terminal_operation_statuses = succeeded ∷ blocked ∷ rejected ∷ expired ∷ failed ∷ cancelled ∷ []

-- `_ALLOWED_TRANSITIONS.get(status, set())`
abbrev pub allowed_transitions : OperationStatus → List OperationStatus
allowed_transitions draft = planned ∷ cancelled ∷ []
allowed_transitions planned =
    awaiting_approval ∷ approved ∷ dispatching ∷ awaiting_operator ∷ blocked ∷ expired ∷ failed
    ∷ cancelled ∷ []
allowed_transitions awaiting_approval = approved ∷ rejected ∷ expired ∷ cancelled ∷ []
allowed_transitions approved = dispatching ∷ awaiting_operator ∷ blocked ∷ expired ∷ cancelled ∷ []
allowed_transitions dispatching = running ∷ failed ∷ needs_reconciliation ∷ []
allowed_transitions running = verifying ∷ failed ∷ needs_reconciliation ∷ []
allowed_transitions awaiting_operator =
    awaiting_verification ∷ expired ∷ cancelled ∷ needs_reconciliation ∷ []
allowed_transitions awaiting_verification = verifying ∷ expired ∷ needs_reconciliation ∷ []
allowed_transitions verifying = succeeded ∷ failed ∷ needs_reconciliation ∷ []
allowed_transitions needs_reconciliation = verifying ∷ succeeded ∷ failed ∷ cancelled ∷ []
allowed_transitions expired = needs_reconciliation ∷ []
allowed_transitions _ = []

-- The two tests of `ensure_operation_transition`: true where it returns, false where it raises.
unfoldable pub transition_allowed : OperationStatus → OperationStatus → Bool
unfolding is_operation_status status_in
transition_allowed current next =
    is_operation_status current
    && is_operation_status next
    && status_in next (allowed_transitions current)

abbrev decode : ℕ → OperationStatus
decode n =
    if nat_eq n 0
    then draft
    else if nat_eq n 1
    then planned
    else if nat_eq n 2
    then awaiting_approval
    else if nat_eq n 3
    then approved
    else if nat_eq n 4
    then dispatching
    else if nat_eq n 5
    then running
    else if nat_eq n 6
    then awaiting_operator
    else if nat_eq n 7
    then awaiting_verification
    else if nat_eq n 8
    then verifying
    else if nat_eq n 9
    then succeeded
    else if nat_eq n 10
    then blocked
    else if nat_eq n 11
    then rejected
    else if nat_eq n 12
    then expired
    else if nat_eq n 13
    then failed
    else if nat_eq n 14
    then needs_reconciliation
    else if nat_eq n 15
    then cancelled
    else unsupported

decode-status_code : (s : OperationStatus) → decode (status_code s) ≡ s
decode-status_code draft = refl
decode-status_code _ = refl

pub status_eq_sound : (s t : OperationStatus) → status_eq s t ≡ true → s ≡ t
unfolding status_eq
status_eq_sound s t h =
    let e : status_code s ≡ status_code t = (nat_eq_iff (status_code s) (status_code t)).0 h in
    cc (decode-status_code s, decode-status_code t, e)

pub status_eq_refl : (s : OperationStatus) → status_eq s s ≡ true
unfolding status_eq
status_eq_refl s = (nat_eq_iff (status_code s) (status_code s)).1 refl
