-- ===== src/Store/AdminUsers/Atomicity.antt =====
-- The transaction of internal/store/admin_users.go: the status and its entry, or nothing.
use cliproxy_new.Base.{
  refl, inl, inr, Bool, Bool-cases, ◌||◌, ◌&&◌, not, Option, ◌==◌, list_eq, nat_eq, ℤ, is_positive,
  GoString, Result,
}
use cliproxy_new.Store.{StoreError, Done, active, blocked}
use cliproxy_new.Store.Audited.{Transaction}
use cliproxy_new.Store.Audited.Atomicity.{Written, Outcome, in_transaction-Outcome}
use cliproxy_new.Store.Users as Users
use cliproxy_new.Store.AdminUsers.{AdminQueries, status_entry, set_status_with_audit}

module _ {D : Type 0} (valid_json : GoString → Bool) (q : AdminQueries D) (actor target : ℤ)
    (status : GoString) (ip : Option GoString) (d : D) where
  -- The status of the target set, and then the entry of the actor inserted.
  abbrev pub StatusWritten : D → Type 0
  StatusWritten after =
      Written valid_json q.insert_entry (status_entry actor target status ip)
        (Users.set_status q.users target status) d tt after

  abbrev pub StatusOutcome : Result StoreError Done × D → Type 0
  StatusOutcome =
      Outcome valid_json q.insert_entry (status_entry actor target status ip)
        (Users.set_status q.users target status) d

  -- The change of a user's status with its audit entry, whatever the database answers: where it
  -- reports success, the status was set and the entry, which is a valid one, was inserted after it;
  -- where it reports an error, the database is what it was.
  pub set_status_with_audit-Outcome :
      (tx : Transaction)
      → StatusOutcome (set_status_with_audit q valid_json actor target status ip tx d)
  unfolding set_status_with_audit
  set_status_with_audit-Outcome tx =
      elim (Bool-cases (
        not (is_positive actor)
        || not (is_positive target)
        || (not (status == active) && not (status == blocked)))) [
          | inl bad ↦ rw bad refl
          | inr good ↦ rw good (
              in_transaction-Outcome valid_json q.insert_entry _
                (Users.set_status q.users target status) d tx)
        ]
