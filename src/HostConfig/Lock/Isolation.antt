-- ===== src/HostConfig/Lock/Isolation.antt =====
-- A host configuration lock beside the other locks of its cluster: the writes of
-- backend/app/operations/host_config/infrastructure.py and of
-- backend/app/operations/locks/infrastructure/repository.py on one lock table.
use gjallar.Prelude.{
  ℕ, ◌+◌, ◌≤◌, ◌≡◌, refl, subst, String, Bool, true, false, inl, inr, none, List, [], ◌∷◌, ◌++◌,
  arith, ◌==◌, str_eq_iff, Bool-cases, Option-cases, if◌then◌else◌,
}
use gjallar.Database.{OperationLockRecord, replace_lock, is_locator}
use gjallar.Lock.{released_row, holds_configuration, configuration_holder}
use gjallar.HostConfig.Lock.{is_open_in, open_lock_in}

-- The rows that pass a test.
unfoldable pub count : (OperationLockRecord → Bool) → List OperationLockRecord → ℕ
count test [] = 0
count test (row ∷ rows) = let rest = count test rows in if test row then rest + 1 else rest

-- Where a cluster has an open configuration lock, it is the only open lock of the cluster.
pub record IsIsolated (locks : List OperationLockRecord) : Type 0 where
  pub alone :
      (cluster_id : String)
      → 1 ≤ count (holds_configuration cluster_id) locks
      → count (is_open_in cluster_id) locks ≤ 1

count-append :
    (test : OperationLockRecord → Bool) (rows : List OperationLockRecord)
    (row : OperationLockRecord)
    → count test (rows ++ row ∷ []) ≡ count test rows + (if test row then 1 else 0)
unfolding count
count-append test [] row = ground arith
count-append test (x ∷ rows) row = ground (arith, count-append test rows row)

-- A write of a row that fails the test.
count-replace :
    (test : OperationLockRecord → Bool) (new : OperationLockRecord)
    (rows : List OperationLockRecord)
    → test new ≡ false
    → count test (replace_lock new rows) ≤ count test rows
unfolding count replace_lock
count-replace test new [] h = omega arith
count-replace test new (x ∷ rows) h = ground (arith, h, count-replace test new rows h)

pub released-IsIsolated :
    (now : ℕ) (reason : String) (row : OperationLockRecord) (rows : List OperationLockRecord)
    → IsIsolated rows
    → IsIsolated (replace_lock (released_row now reason row) rows)
released-IsIsolated now reason row rows x = record {
  alone = λ c some_left.
      let hosts =
        count-replace (holds_configuration c) (released_row now reason row) rows (ground arith) in
      let opens = count-replace (is_open_in c) (released_row now reason row) rows (ground arith) in
      let old = x.alone c (omega (arith, hosts, some_left)) in omega (arith, opens, old);
}

count_no_configuration :
    (c : String) (rows : List OperationLockRecord)
    → configuration_holder c rows ≡ none
    → count (holds_configuration c) rows ≡ 0
unfolding count configuration_holder
count_no_configuration c [] h = refl
count_no_configuration c (x ∷ rows) h = ground (arith, h, count_no_configuration c rows)

count_no_open :
    (c : String) (rows : List OperationLockRecord)
    → open_lock_in c rows ≡ none
    → count (is_open_in c) rows ≡ 0
unfolding count open_lock_in
count_no_open c [] h = refl
count_no_open c (x ∷ rows) h = elim (Bool-cases (is_open_in c x)) [
  | inl opened ↦ elim (Option-cases (open_lock_in c rows)) [
    | inl rest ↦ ground (arith, opened, rest)
    | inr (other, rest) ↦ ground (arith, opened, rest)
  ]
  | inr shut ↦ ground (arith, shut, count_no_open c rows)
]

-- A VM lock is added where the cluster has no open configuration lock.
pub locator-IsIsolated :
    (row : OperationLockRecord) (rows : List OperationLockRecord)
    → is_locator row.scope_type ≡ true
    → configuration_holder row.cluster_id rows ≡ none
    → IsIsolated rows
    → IsIsolated (rows ++ row ∷ [])
locator-IsIsolated row rows vm free x = record {
  alone = λ c some_left.
      let hosts = count-append (holds_configuration c) rows row in
      let opens = count-append (is_open_in c) rows row in
      let zero_at = count_no_configuration row.cluster_id rows free in
      elim (Bool-cases (row.cluster_id == c)) [
        | inl same ↦
            let gone =
              subst (λ k. count (holds_configuration k) rows ≡ 0)
                ((str_eq_iff row.cluster_id c).0 same) zero_at in
            ground (arith, vm, hosts, gone, some_left)
        | inr other ↦ let old = x.alone c in ground (arith, vm, other, hosts, opens, some_left, old)
      ];
}

-- A configuration lock is added where the cluster has no open lock.
pub configuration-IsIsolated :
    (row : OperationLockRecord) (rows : List OperationLockRecord)
    → open_lock_in row.cluster_id rows ≡ none
    → IsIsolated rows
    → IsIsolated (rows ++ row ∷ [])
configuration-IsIsolated row rows free x = record {
  alone = λ c some_left.
      let hosts = count-append (holds_configuration c) rows row in
      let opens = count-append (is_open_in c) rows row in
      let zero_at = count_no_open row.cluster_id rows free in
      elim (Bool-cases (row.cluster_id == c)) [
        | inl same ↦
            let gone =
              subst (λ k. count (is_open_in k) rows ≡ 0) ((str_eq_iff row.cluster_id c).0 same)
                zero_at in
            ground (arith, opens, gone)
        | inr other ↦ let old = x.alone c in ground (arith, other, hosts, opens, some_left, old)
      ];
}
