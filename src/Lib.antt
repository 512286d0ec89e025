-- ===== src/Lib.antt =====
-- Gjallar's durable operations, checked: what backend/app does between a request that changes a
-- Proxmox VM and the evidence that it leaves.
--
-- The parts, and the files that hold them:
-- * Redaction (backend/app/core/redaction.py): `redact_secrets`, through which every payload and
--   every `details` column passes. The two regular expressions are fields of `Patterns`.
-- * Operation (backend/app/operations/core): Status is the status table of domain.py, Event the
--   checksummed events, Store the projection with its append-only events (`append_in_session` of
--   infrastructure/repository.py), Create the idempotent `create`,
--   Guarded the transitions that read the target lock and the recovery item first, Query `list`.
-- * Setup (backend/app/setup_integration/runtime.py): `pin_selection`, `admit_mutation` and
--   `admit_host_mutation`, which admit a change by the connection's credential.
-- * Lock (backend/app/operations/locks): durable locks on VM locators. `acquire` asks Setup for
--   admission inside its transaction. Refines is the abstract map from locators to owners, and
--   the call of the map that stands for each call of the repository.
-- * Recovery (backend/app/operations/recovery): leases on recovery items, fenced by a generation and
--   a token; a claim reads the Operation's version and checksum. Commit is `commit_observation`, one
--   transaction over all four tables, and Targets the exact locks that it may release; Steps runs the
--   repository's operations in any order.
-- * HostConfig (backend/app/operations/host_config): the targets and lock bindings of host
--   configuration operations, which a commit must preserve; Lock is the configuration lock of a
--   cluster, and Admission the transaction that takes it, creates the
--   Operation and claims its recovery item. Lock/Binding (operations/locks/binding.py)
--   reads the lock references of VM operations.
-- * Auth (backend/app/auth): accounts, roles and sessions, whose users are the actors of events.
-- * HostNetwork (backend/app/operations/host_network/domain.py): Vlan is `vlan_ranges`, a set of VLANs as
--   its sorted list, and Diff `assert_pending_diff`, its loop as a fold over the lines.
-- * VmNetwork (backend/app/operations/vm_network/domain.py): `parse_net0` and `replace_network`, the change
--   of a network card's bridge and VLAN tag, a dict of options as its list of pairs.
-- * Database holds the tables that Operation, Lock and Recovery share, Result the exceptions, Json
--   the values of JSON columns, Prelude the names and lemmas that all of them use. Tests applies
--   the theorems at concrete inputs.
--
-- How code and definitions correspond: a repository method is the function of its own name, from
-- the arguments, the clock's value, the ids and tokens that it draws and the database to a `Result`
-- with the new database. Where the method raises, the transaction rolls back and there is no new
-- database. A method that reads in one transaction and writes in a later one takes two databases,
-- so that other transactions can commit in between (`create`, `acquire`, `create_user`). A unique constraint or a
-- partial unique index is a test at the insertion. Rows are lists in insertion order, and a query
-- takes the first row that passes its test, or sorts by the keys of its `order_by`. The relations
-- `Step` and `Reach` of Lock, Recovery and Auth run the operations in any order.
--
-- Bounds: times are natural numbers of one unit, microseconds in Recovery, where the shortest lease
-- of 1.0 second is 1000000. The loop that prints a decimal number has the number as its fuel, and a
-- number above 9 has fewer digits than its value. Every other recursion is structural.
--
-- Parameters: the substitutions of Python's `re`, SHA-256, `json.dumps`, `isoformat`, `str` of a list or
-- dict, `int` and `isdigit` of a text (`Platform`), the projector of a commit, which reads and writes
-- tables of its own, PBKDF2 and the token hash (`Hashing`), whether the AES-GCM cipher opens a
-- credential, and the rows that another transaction has locked (`skip_locked`).
--
-- Not modelled: HTTP routers, the Proxmox client and inventory, the VM workflows and planners, the
-- reviews of host networks and storages, insights and monitoring, database migrations and the client's
-- installer. They call the operations here, serve other services, or are I/O.
pub mod Auth
pub mod Database
pub mod HostConfig
pub mod HostNetwork
pub mod Json
pub mod Lock
pub mod Operation
pub mod Prelude
pub mod Recovery
pub mod Redaction
pub mod Result
pub mod Setup
pub mod Tests
pub mod VmNetwork
