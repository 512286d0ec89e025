-- ===== src/Operation/Store/Listing.antt =====
-- `list_events` of backend/app/operations/core/infrastructure/repository.py: an event with the next
-- sequence comes last in its own Operation's list and changes no other list.
use gjallar.Prelude.{
  ℕ, ◌<◌, ◌≡◌, ◌≢◌, refl, String, false, List, [], ◌∷◌, ◌++◌, All, arith, ◌==◌, str_eq_iff,
  Bool-cases, inl, inr,
}
use gjallar.Operation.Event.{OperationEvent}
use gjallar.Operation.Store.{insert_by_sequence, list_events, has_event}

insert_by_sequence-last :
    (x e : OperationEvent) (l : List OperationEvent)
    → x.sequence < e.sequence
    → insert_by_sequence x (l ++ e ∷ []) ≡ insert_by_sequence x l ++ e ∷ []
unfolding insert_by_sequence
insert_by_sequence-last x e [] h = ground arith
insert_by_sequence-last x e (y ∷ l) h = ground (arith, insert_by_sequence-last x e l h)

insert_by_sequence-greatest :
    (e : OperationEvent) (l : List OperationEvent)
    → All (λ (y : OperationEvent). y.sequence < e.sequence) l
    → insert_by_sequence e l ≡ l ++ e ∷ []
unfolding insert_by_sequence
insert_by_sequence-greatest e [] h = refl
insert_by_sequence-greatest e (y ∷ l) h = ground (arith, insert_by_sequence-greatest e l h.1)

All-insert_by_sequence :
    (n : ℕ) (x : OperationEvent) (l : List OperationEvent)
    → All (λ (y : OperationEvent). y.sequence < n) (insert_by_sequence x l)
    → (x.sequence < n) × All (λ (y : OperationEvent). y.sequence < n) l
unfolding insert_by_sequence
All-insert_by_sequence n x [] h = (h.0, tt)
All-insert_by_sequence n x (y ∷ l) h = ground (arith, All-insert_by_sequence n x l)

-- An event of another Operation is not listed.
pub list_events-append_ne :
    (id : String) (es : List OperationEvent) (e : OperationEvent)
    → e.operation_id ≢ id
    → list_events id (es ++ e ∷ []) ≡ list_events id es
unfolding list_events
list_events-append_ne id [] e h = ground (arith, str_eq_iff e.operation_id id)
list_events-append_ne id (x ∷ es) e h = cc (list_events-append_ne id es e h)

-- An event of the Operation with a greater sequence than all those listed is listed last.
pub list_events-append_self :
    (id : String) (es : List OperationEvent) (e : OperationEvent)
    → e.operation_id ≡ id
    → All (λ (y : OperationEvent). y.sequence < e.sequence) (list_events id es)
    → list_events id (es ++ e ∷ []) ≡ list_events id es ++ e ∷ []
unfolding list_events
list_events-append_self id [] e h b =
    unfold insert_by_sequence in ground (arith, str_eq_iff e.operation_id id)
list_events-append_self id (x ∷ es) e h b = elim (Bool-cases (x.operation_id == id)) [
  | inl mine ↦
      let (lt, rest) = All-insert_by_sequence e.sequence x (list_events id es) (rw mine at b) in
      rw (mine, list_events-append_self id es e h rest)
        (insert_by_sequence-last x e (list_events id es) lt)
  | inr other ↦ rw other (list_events-append_self id es e h (rw other at b))
]

-- With every listed sequence below it, the next sequence does not break the unique constraint.
pub has_event-next :
    (id : String) (n : ℕ) (es : List OperationEvent)
    → All (λ (y : OperationEvent). y.sequence < n) (list_events id es)
    → has_event id n es ≡ false
unfolding has_event list_events
has_event-next id n [] b = refl
has_event-next id n (x ∷ es) b = elim (Bool-cases (x.operation_id == id)) [
  | inl mine ↦
      let (lt, rest) = All-insert_by_sequence n x (list_events id es) (rw mine at b) in
      ground (arith, mine, lt, has_event-next id n es rest)
  | inr other ↦ ground (arith, other, has_event-next id n es (rw other at b))
]
