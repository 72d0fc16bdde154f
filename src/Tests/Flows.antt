-- ===== src/Tests/Flows.antt =====
-- Runs of internal/store/oauth_sessions.go.
use cliproxy_new.Base.{
  refl, true, false, none, some, List, [], ◌∷◌, pos, list_eq, nat_eq, list_beq, GoString, bytes,
}
use cliproxy_new.Store.OauthSessions.{
  OauthRow, OauthDb, Transaction, find_row, pending, cancel_entry, cancel_with_audit,
}
use cliproxy_new.Store.OauthSessions.Audit.{Atomic, cancel_with_audit-Atomic}
use cliproxy_new.Store.OauthSessions.Final.{
  Op, cancels, fails, deletes_account, apply_all, Ended, Kept, apply_all-Ended,
}

abbrev row_with : GoString → OauthRow
row_with status = record {
  state = bytes "s";
  provider = bytes "claude";
  flow_type = bytes "callback";
  status = status;
  auth_id = none;
  pkce_verifier = none;
  device_code = none;
  user_code = none;
  error_message = none;
  expires_at = 100;
  created_at = 1;
  updated_at = 1;
}

abbrev db_with : GoString → OauthDb
db_with status = record { rows = row_with status ∷ []; audit = [] }

-- The insert of the audit entry fails, so the cancellation is undone.
abbrev no_insert : Transaction
no_insert = record { begins = true; cancels = true; inserts = false; commits = true }

cancel_with_audit-Atomic_example :
    Atomic (bytes "s") (cancel_entry (pos 1) (bytes "s") none) 5 (db_with (bytes "pending")) (
      cancel_with_audit
        (λ json. true)
        (pos 1)
        (bytes "s")
        none
        no_insert
        5
        (db_with (bytes "pending")))
cancel_with_audit-Atomic_example =
    cancel_with_audit-Atomic (λ json. true) (pos 1) (bytes "s") none no_insert 5
      (db_with (bytes "pending"))

abbrev ops : List Op
ops =
    cancels (bytes "s") true 5
    ∷ fails (bytes "s") (bytes "late") true 6
    ∷ deletes_account (bytes "a")
    ∷ []

abbrev completed : OauthRow
completed = record (row_with (bytes "completed")) { auth_id = some (bytes "a") }

abbrev ended : OauthDb
ended = record { rows = completed ∷ []; audit = [] }

apply_all-Ended_example :
    (row' : OauthRow) × Ended (bytes "s") row' (apply_all (λ json. true) ended ops)
    × Kept ops completed row'
unfolding Ended find_row pending list_beq
apply_all-Ended_example =
    apply_all-Ended (λ json. true) (bytes "s") completed ended ops (refl, refl)
