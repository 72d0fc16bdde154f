-- ===== src/Store/AdminUsers.antt =====
-- internal/store/admin_users.go: the status of a user and its audit entry in one transaction. The
-- queries are those of the user repository and the insert of the audit log.
pub mod Atomicity
use cliproxy_new.Base.{
  Bool, ◌&&◌, ◌||◌, not, Option, List, ◌++◌, ℤ, is_positive, list_eq, nat_eq, ◌==◌, if◌then◌else◌,
  GoString, bytes, format_int, Result, err,
}
use cliproxy_new.Store.{StoreError, invalid_input, Done, active, blocked}
use cliproxy_new.Store.OauthSessions.{AuditEntry}
use cliproxy_new.Store.Audited.{Transaction, Insert, in_transaction}
use cliproxy_new.Store.Users as Users
use cliproxy_new.Store.Users.{User, UserQueries}

-- The database as the repository is given it.
pub record AdminQueries (D : Type 0) : Type 0 where
  pub users : UserQueries D
  pub insert_entry : Insert D

unfoldable pub status_entry : ℤ → ℤ → GoString → Option GoString → AuditEntry
status_entry actor target status ip = record {
  actor_user_id = actor;
  action = bytes "user.status.changed";
  target_type = bytes "user";
  target_id = format_int target;
  details = bytes "{\"status\":\"" ++ (status ++ bytes "\"}");
  actor_ip = ip;
}

module _ {D : Type 0} (q : AdminQueries D) where
  unfoldable pub list : D → Result StoreError (List User)
  list d = Users.list q.users d

  unfoldable pub set_status_with_audit :
      (GoString → Bool)
      → ℤ
      → ℤ
      → GoString
      → Option GoString
      → Transaction
      → D
      → Result StoreError Done × D
  set_status_with_audit valid_json actor target status ip tx d =
      if not (is_positive actor)
        || not (is_positive target)
        || (not (status == active) && not (status == blocked))
      then (err invalid_input, d)
      else in_transaction valid_json q.insert_entry tx (status_entry actor target status ip)
          (Users.set_status q.users target status) d
