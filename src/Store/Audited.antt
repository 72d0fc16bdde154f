-- ===== src/Store/Audited.antt =====
-- internal/store/admin_users.go and admin_models.go: a write and its audit entry in one transaction.
-- `Transaction` tells whether the database has transactions, begins one and commits it; a write is a
-- function on the states of the database, and a transaction that is not committed is rolled back.
pub mod Atomicity
use cliproxy_new.Base.{◌&&◌, ◌||◌, Bool, true, false, not, if◌then◌else◌, GoString, Result, ok, err}
use cliproxy_new.Store.{StoreError, invalid_input, other, Done, QueryError}
use cliproxy_new.Store.OauthSessions.{AuditEntry, is_entry}

pub record Transaction : Type 0 where
  pub transactional : Bool
  pub begins : Bool
  pub commits : Bool

-- The insert of the audit log.
abbrev pub Insert : Type 0 → Type 0
Insert D = AuditEntry → D → Result QueryError Done × D

unfoldable pub entered : {D : Type 0} → Result QueryError Done × D → Result StoreError Done × D
entered (err e, d) = (err other, d)
entered (ok u, d) = (ok tt, d)

-- `AdminAuditLogRepository.Insert` over the insert.
unfoldable pub insert_audit :
    {D : Type 0} → (GoString → Bool) → Insert D → AuditEntry → D → Result StoreError Done × D
unfolding entered
insert_audit valid_json insert e d =
    if is_entry valid_json e then entered (insert e d) else (err invalid_input, d)

module _ {D A : Type 0} where
  with_value : A → Result StoreError Done × D → Result StoreError A × D
  with_value a (err x, d) = (err x, d)
  with_value a (ok u, d) = (ok a, d)

  -- What follows the write in the transaction.
  unfoldable pub audited :
      (GoString → Bool) → Insert D → AuditEntry → Result StoreError A × D → Result StoreError A × D
  unfolding with_value
  audited valid_json insert e (err x, d) = (err x, d)
  audited valid_json insert e (ok a, d) = with_value a (insert_audit valid_json insert e d)

  -- The end of the transaction, on the state before it and that in it.
  unfoldable pub ended : D → Bool → Result StoreError A × D → Result StoreError A × D
  ended before commits (err e, d) = (err e, before)
  ended before true (ok a, d) = (ok a, d)
  ended before false (ok a, d) = (err other, before)

  unfoldable pub in_transaction :
      (GoString → Bool)
      → Insert D
      → Transaction
      → AuditEntry
      → (D → Result StoreError A × D)
      → D
      → Result StoreError A × D
  in_transaction valid_json insert tx e write d =
      if not tx.transactional || not tx.begins
      then (err other, d)
      else ended d tx.commits (audited valid_json insert e (write d))
