-- ===== src/Operation/Status/Paths.antt =====
-- What the transition table of backend/app/operations/core/domain.py rules in and out.
use gjallar.Prelude.{◌≡◌, refl, ◌≢◌, true, ◌&&◌, ◌⊎◌, inl, inr, List, [], ◌∷◌, arith}
use gjallar.Operation.Status.{
  OperationStatus, draft, planned, awaiting_approval, approved, dispatching, running,
  awaiting_operator, awaiting_verification, verifying, succeeded, rejected, expired, failed,
  needs_reconciliation, cancelled, unsupported, transition_allowed, status_in, status_eq,
  terminal_operation_statuses,
}

-- One accepted transition.
pub data Step (s t : OperationStatus) : Type 0 where
  step : transition_allowed s t ≡ true → Step s t

-- A history of accepted transitions, oldest first.
pub data Reach (s : OperationStatus) : OperationStatus → Type 0 where
  here : Reach s s
  next : {t u : OperationStatus} → Reach s t → Step t u → Reach s u

-- Some transition of the history enters `v`.
abbrev pub Visits : (v : OperationStatus) {s t : OperationStatus} → Reach s t → Type 0
Visits v here = ⊥
Visits v (next {u = u} r m) = (u ≡ v) ⊎ Visits v r

-- From a terminal status the only transition is the one from expired to needs_reconciliation.
pub exits_of_terminal :
    (s t : OperationStatus)
    → status_in s terminal_operation_statuses ≡ true
    → transition_allowed s t ≡ (status_eq s expired && status_eq t needs_reconciliation)
unfolding transition_allowed
exits_of_terminal s t h = ground arith

-- From every status of the table a history leads to a terminal status.
pub terminal_reachable :
    (s : OperationStatus)
    → s ≢ unsupported
    → (t : OperationStatus) × Reach s t × (status_in t terminal_operation_statuses ≡ true)
unfolding transition_allowed
terminal_reachable draft h = (cancelled, next here (step refl), refl)
terminal_reachable awaiting_approval h = (cancelled, next here (step refl), refl)
terminal_reachable approved h = (cancelled, next here (step refl), refl)
terminal_reachable awaiting_operator h = (cancelled, next here (step refl), refl)
terminal_reachable awaiting_verification h = (expired, next here (step refl), refl)
terminal_reachable planned h = (failed, next here (step refl), refl)
terminal_reachable dispatching h = (failed, next here (step refl), refl)
terminal_reachable running h = (failed, next here (step refl), refl)
terminal_reachable verifying h = (failed, next here (step refl), refl)
terminal_reachable needs_reconciliation h = (failed, next here (step refl), refl)
terminal_reachable unsupported h = absurd (h refl)
terminal_reachable s h = (s, here, refl)

entry_succeeded :
    (s : OperationStatus)
    → transition_allowed s succeeded ≡ true
    → (s ≡ verifying) ⊎ (s ≡ needs_reconciliation)
unfolding transition_allowed
entry_succeeded s h = ground arith

abbrev unapproved : List OperationStatus
unapproved =
    awaiting_approval ∷ rejected ∷ expired ∷ cancelled ∷ needs_reconciliation ∷ verifying
    ∷ succeeded ∷ failed ∷ []

unapproved_step :
    (s t : OperationStatus)
    → status_in s unapproved ≡ true
    → transition_allowed s t ≡ true
    → (status_in t unapproved ≡ true) ⊎ (t ≡ approved)
unfolding transition_allowed
unapproved_step s t h m = ground arith

unapproved_path :
    {t : OperationStatus} (r : Reach awaiting_approval t)
    → (status_in t unapproved ≡ true) ⊎ Visits approved r
unfolding status_in
unapproved_path here = inl refl
unapproved_path (next r (step m)) = elim (unapproved_path r) [
  | inl u ↦ elim (unapproved_step _ _ u m) [ inl v ↦ inl v | inr e ↦ inr (inl e) ]
  | inr v ↦ inr (inr v)
]

-- An Operation that awaits approval is dispatched only after a transition to approved.
pub approval_before_dispatch : (r : Reach awaiting_approval dispatching) → Visits approved r
unfolding status_in
approval_before_dispatch r = elim (unapproved_path r) [ inl u ↦ cc | inr v ↦ v ]

-- A history from draft that ends in succeeded was verifying or needs_reconciliation before, so no
-- Operation succeeds straight from its plan, its dispatch or its approval.
pub success_is_observed :
    (r : Reach draft succeeded) → Visits verifying r ⊎ Visits needs_reconciliation r
unfolding transition_allowed
success_is_observed (next here (step m)) = cc
success_is_observed (next (next r (step l)) (step m)) = elim (entry_succeeded _ m) [
  | inl e ↦ inl (inr (inl e))
  | inr e ↦ inr (inr (inl e))
]
