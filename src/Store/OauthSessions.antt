-- ===== src/Store/OauthSessions.antt =====
-- internal/store/oauth_sessions.go and admin_audit.go: OAuth flows as rows that are updated while
-- they are `pending`,
-- and the audit entry of a cancellation in one transaction. The table and the queries are those of
-- db/queries/oauth_sessions.sql and its migration; `up` tells whether a query is answered, and one
-- that is not changes nothing. The validity of JSON is a parameter.
pub mod Accounts
pub mod Final
pub mod Audit
use cliproxy_new.Base.{
  ℕ, zero, suc, Bool, true, false, ◌&&◌, ◌||◌, not, Option, none, some, List, [], ◌∷◌, ◌++◌, map, ℤ,
  is_positive, is_empty, list_eq, nat_eq, if◌then◌else◌, ◌==◌, GoString, bytes, Result, ok, err,
  filter,
}
use cliproxy_new.Store.{StoreError, not_found, invalid_input, other, Done, nullable_text}

unfoldable pub pending : GoString
pending = bytes "pending"

pub record OauthRow : Type 0 where
  pub state : GoString
  pub provider : GoString
  pub flow_type : GoString
  pub status : GoString
  pub auth_id : Option GoString
  pub pkce_verifier : Option GoString
  pub device_code : Option GoString
  pub user_code : Option GoString
  pub error_message : Option GoString
  pub expires_at : ℕ
  pub created_at : ℕ
  pub updated_at : ℕ

pub record OauthSession : Type 0 where
  pub state : GoString
  pub provider : GoString
  pub flow_type : GoString
  pub status : GoString
  pub auth_id : GoString
  pub pkce_verifier : GoString
  pub device_code : GoString
  pub user_code : GoString
  pub error_message : GoString
  pub expires_at : ℕ
  pub created_at : ℕ
  pub updated_at : ℕ

-- `expires_at` is none for the zero time.
pub record CreateOauthParams : Type 0 where
  pub state : GoString
  pub provider : GoString
  pub flow_type : GoString
  pub pkce_verifier : GoString
  pub device_code : GoString
  pub user_code : GoString
  pub expires_at : Option ℕ

pub record AuditEntry : Type 0 where
  pub actor_user_id : ℤ
  pub action : GoString
  pub target_type : GoString
  pub target_id : GoString
  pub details : GoString
  pub actor_ip : Option GoString

pub record OauthDb : Type 0 where
  pub rows : List OauthRow
  pub audit : List AuditEntry

-- `SELECT … WHERE state = $1`; the state is the primary key.
unfoldable pub find_row : List OauthRow → GoString → Option OauthRow
find_row [] state = none
find_row (r ∷ rs) state = if r.state == state then some r else find_row rs state

-- `UPDATE … WHERE state = $1 AND status = 'pending'`, with the number of rows.
pub is_pending_at : GoString → OauthRow → Bool
is_pending_at state r = r.state == state && r.status == pending

pub update_pending : (OauthRow → OauthRow) → GoString → List OauthRow → List OauthRow × ℕ
update_pending f state [] = ([], 0)
update_pending f state (r ∷ rs) =
    let rest = update_pending f state rs in
    if is_pending_at state r then (f r ∷ rest.0, suc rest.1) else (r ∷ rest.0, rest.1)

text_of : Option GoString → GoString
text_of none = []
text_of (some s) = s

unfoldable pub session_of : OauthRow → OauthSession
unfolding text_of
session_of r = record {
  state = r.state;
  provider = r.provider;
  flow_type = r.flow_type;
  status = r.status;
  auth_id = text_of r.auth_id;
  pkce_verifier = text_of r.pkce_verifier;
  device_code = text_of r.device_code;
  user_code = text_of r.user_code;
  error_message = text_of r.error_message;
  expires_at = r.expires_at;
  created_at = r.created_at;
  updated_at = r.updated_at;
}

new_row : CreateOauthParams → ℕ → ℕ → OauthRow
new_row p expires now = record {
  state = p.state;
  provider = p.provider;
  flow_type = p.flow_type;
  status = pending;
  auth_id = none;
  pkce_verifier = nullable_text p.pkce_verifier;
  device_code = nullable_text p.device_code;
  user_code = nullable_text p.user_code;
  error_message = none;
  expires_at = expires;
  created_at = now;
  updated_at = now;
}

is_invalid : CreateOauthParams → Bool
is_invalid p =
    is_empty p.state
    || is_empty p.provider
    || (not (p.flow_type == bytes "callback") && not (p.flow_type == bytes "device"))

-- The insert fails on a state that is there.
insert_row : Option OauthRow → Bool → OauthRow → OauthDb → Result StoreError Done × OauthDb
insert_row (some old) up r db = (err other, db)
insert_row none false r db = (err other, db)
insert_row none true r db = (ok tt, record db { rows = db.rows ++ r ∷ [] })

create_until : Option ℕ → CreateOauthParams → Bool → ℕ → OauthDb → Result StoreError Done × OauthDb
unfolding insert_row new_row
create_until none p up now db = (err invalid_input, db)
create_until (some expires) p up now db =
    insert_row (find_row db.rows p.state) up (new_row p expires now) db

unfoldable pub create : CreateOauthParams → Bool → ℕ → OauthDb → Result StoreError Done × OauthDb
unfolding create_until is_invalid
create p up now db =
    if is_invalid p then (err invalid_input, db) else create_until p.expires_at p up now db

found_session : Option OauthRow → Result StoreError OauthSession
unfolding session_of
found_session none = err not_found
found_session (some r) = ok (session_of r)

unfoldable pub get : GoString → Bool → OauthDb → Result StoreError OauthSession
unfolding found_session
get state up db = if up then found_session (find_row db.rows state) else err other

has_pending_status : OauthRow → Bool
has_pending_status r = r.status == pending

-- In the order of the table; the query sorts by the time of creation, newest first.
unfoldable pub list_pending : Bool → OauthDb → Result StoreError (List OauthSession)
unfolding has_pending_status session_of
list_pending up db =
    if up then ok (map session_of (filter has_pending_status db.rows)) else err other

-- The three updates, by the rows that the query changed.
changed : List OauthRow × ℕ → OauthDb → Result StoreError Done × OauthDb
changed (rows, zero) db = (err not_found, record db { rows = rows })
changed (rows, suc n) db = (ok tt, record db { rows = rows })

pub cancelled_row : ℕ → OauthRow → OauthRow
cancelled_row now r = record r { status = bytes "cancelled"; updated_at = now }

pub completed_row : Option GoString → ℕ → OauthRow → OauthRow
completed_row auth_id now r = record r {
  status = bytes "completed";
  auth_id = auth_id;
  error_message = none;
  updated_at = now;
}

pub failed_row : Option GoString → ℕ → OauthRow → OauthRow
failed_row message now r = record r {
  status = bytes "error";
  error_message = message;
  updated_at = now;
}

pub update : (OauthRow → OauthRow) → GoString → Bool → OauthDb → Result StoreError Done × OauthDb
unfolding changed
update f state up db = if up then changed (update_pending f state db.rows) db else (err other, db)

pub cancel : GoString → Bool → ℕ → OauthDb → Result StoreError Done × OauthDb
cancel state up now db = update (cancelled_row now) state up db

pub complete : GoString → GoString → Bool → ℕ → OauthDb → Result StoreError Done × OauthDb
complete state auth_id up now db = update (completed_row (nullable_text auth_id) now) state up db

pub fail : GoString → GoString → Bool → ℕ → OauthDb → Result StoreError Done × OauthDb
fail state message up now db = update (failed_row (nullable_text message) now) state up db

-- `auth_id … REFERENCES upstream_accounts(id) ON DELETE SET NULL`: what the deletion of an account
-- does to a row.
pub without_account : Option GoString → GoString → OauthRow → OauthRow
without_account none id r = r
without_account (some auth_id) id r = if auth_id == id then record r { auth_id = none } else r

unfoldable pub account_deleted : GoString → OauthDb → OauthDb
unfolding without_account
account_deleted id db = record db { rows = map (λ r. without_account r.auth_id id r) db.rows }

append_entry : Bool → AuditEntry → OauthDb → Result StoreError Done × OauthDb
append_entry true e db = (ok tt, record db { audit = db.audit ++ e ∷ [] })
append_entry false e db = (err other, db)

insert_valid : Bool → Bool → AuditEntry → OauthDb → Result StoreError Done × OauthDb
unfolding append_entry
insert_valid true up e db = append_entry up e db
insert_valid false up e db = (err invalid_input, db)

unfoldable pub is_entry : (GoString → Bool) → AuditEntry → Bool
is_entry valid_json e =
    is_positive e.actor_user_id
    && not (is_empty e.action)
    && not (is_empty e.target_type)
    && not (is_empty e.target_id)
    && (is_empty e.details || valid_json e.details)

-- `AdminAuditLogRepository.Insert`.
unfoldable pub insert_audit :
    (GoString → Bool) → AuditEntry → Bool → OauthDb → Result StoreError Done × OauthDb
unfolding insert_valid is_entry
insert_audit valid_json e up db = insert_valid (is_entry valid_json e) up e db

-- Which steps of the transaction are answered.
pub record Transaction : Type 0 where
  pub begins : Bool
  pub cancels : Bool
  pub inserts : Bool
  pub commits : Bool

unfoldable pub cancel_entry : ℤ → GoString → Option GoString → AuditEntry
cancel_entry actor state ip = record {
  actor_user_id = actor;
  action = bytes "oauth.session.cancelled";
  target_type = bytes "oauth_session";
  target_id = state;
  details = bytes "{\"status\":\"cancelled\"}";
  actor_ip = ip;
}

-- The end of the transaction on the state before it and what was written in it.
committed : OauthDb → Bool → Result StoreError Done × OauthDb → Result StoreError Done × OauthDb
committed before commits (err e, db) = (err e, before)
committed before false (ok u, db) = (err other, before)
committed before true (ok u, db) = (ok tt, db)

audited :
    (GoString → Bool)
    → OauthDb
    → AuditEntry
    → Transaction
    → Result StoreError Done × OauthDb
    → Result StoreError Done × OauthDb
unfolding committed
audited valid_json before e tx (err x, db) = (err x, before)
audited valid_json before e tx (ok u, db) =
    committed before tx.commits (insert_audit valid_json e tx.inserts db)

pub cancel_with_audit :
    (GoString → Bool)
    → ℤ
    → GoString
    → Option GoString
    → Transaction
    → ℕ
    → OauthDb
    → Result StoreError Done × OauthDb
unfolding audited
cancel_with_audit valid_json actor state ip tx now db =
    if not (is_positive actor) || is_empty state
    then (err invalid_input, db)
    else (if tx.begins
        then audited valid_json db (cancel_entry actor state ip) tx (cancel state tx.cancels now db)
        else (err other, db))
