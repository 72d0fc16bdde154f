-- ===== src/Store/Sessions.antt =====
-- internal/store/sessions.go: sessions by the SHA-256 of their tokens. The sqlc queries are an
-- interface over database states; the digest, in hexadecimal, is a parameter.
pub mod Lookups
use cliproxy_new.Base.{
  ℕ, ◌&&◌, ◌||◌, not, Option, ℤ, GoString, bytes, ◌==◌, list_eq, nat_eq, is_positive, is_empty,
  if◌then◌else◌, Result, ok, err,
}
use cliproxy_new.Store.{
  StoreError, Done, invalid_credential, invalid_input, other, QueryError, no_rows, failed, active,
  valid_identity_source,
}

pub record Session : Type 0 where
  pub id : ℤ
  pub user_id : ℤ
  pub token_hash : GoString
  pub role : GoString
  pub expires_at : ℕ
  pub created_ip : Option GoString
  pub created_at : ℕ

-- A session and the status of its user, as the two lookups return them.
pub record SessionRow : Type 0 where
  pub session : Session
  pub user_status : GoString

pub record CreateSessionParams : Type 0 where
  pub user_id : ℤ
  pub token : GoString
  pub role : GoString
  pub expires_at : ℕ
  pub created_ip : Option GoString

-- The parameters of the query, with the hash in place of the token.
pub record InsertSessionParams : Type 0 where
  pub user_id : ℤ
  pub token_hash : GoString
  pub role : GoString
  pub expires_at : ℕ
  pub created_ip : Option GoString

pub record SessionQueries (D : Type 0) : Type 0 where
  pub create_session : InsertSessionParams → D → Result QueryError Session × D
  pub get_by_token_hash : GoString → D → Result QueryError SessionRow
  pub get_by_token_hash_for_source : GoString → GoString → D → Result QueryError SessionRow
  pub delete_sessions_by_user : ℤ → D → Result QueryError Done × D
  pub delete_by_token_hash_for_source : GoString → GoString → D → Result QueryError ℕ × D
  pub delete_expired_sessions : D → Result QueryError ℕ × D

created : {D : Type 0} → Result QueryError Session × D → Result StoreError Session × D
created (err e, d) = (err other, d)
created (ok row, d) = (ok row, d)

-- A row is a session only while its user is active.
active_session : Result QueryError SessionRow → Result StoreError Session
active_session (err no_rows) = err invalid_credential
active_session (err failed) = err other
active_session (ok row) =
    if row.user_status == active then ok row.session else err invalid_credential

deleted : {D : Type 0} → Result QueryError Done × D → Result StoreError Done × D
deleted (err e, d) = (err other, d)
deleted (ok u, d) = (ok tt, d)

deleted_some : {D : Type 0} → Result QueryError ℕ × D → Result StoreError Done × D
deleted_some (err e, d) = (err other, d)
deleted_some (ok n, d) = (if n == 0 then err invalid_credential else ok tt, d)

counted : {D : Type 0} → Result QueryError ℕ × D → Result StoreError ℕ × D
counted (err e, d) = (err other, d)
counted (ok n, d) = (ok n, d)

module _ {D : Type 0} (hash_session_token : GoString → GoString) (q : SessionQueries D) where
  unfoldable pub create : CreateSessionParams → D → Result StoreError Session × D
  unfolding created
  create p d =
      if not (is_positive p.user_id)
        || is_empty p.token
        || (not (p.role == bytes "user") && not (p.role == bytes "admin"))
      then (err invalid_input, d)
      else created (
          q.create_session
            (record {
              user_id = p.user_id;
              token_hash = hash_session_token p.token;
              role = p.role;
              expires_at = p.expires_at;
              created_ip = p.created_ip;
            })
            d)

  unfoldable pub get_by_token : GoString → D → Result StoreError Session
  unfolding active_session
  get_by_token token d =
      if is_empty token
      then err invalid_credential
      else active_session (q.get_by_token_hash (hash_session_token token) d)

  pub get_by_token_for_source : GoString → GoString → D → Result StoreError Session
  unfolding active_session
  get_by_token_for_source token identity_source d =
      if is_empty token || not (valid_identity_source identity_source)
      then err invalid_credential
      else active_session
          (q.get_by_token_hash_for_source (hash_session_token token) identity_source d)

  unfoldable pub delete_by_user : ℤ → D → Result StoreError Done × D
  unfolding deleted
  delete_by_user user_id d = deleted (q.delete_sessions_by_user user_id d)

  unfoldable pub delete_by_token_for_source : GoString → GoString → D → Result StoreError Done × D
  unfolding deleted_some
  delete_by_token_for_source token identity_source d =
      if is_empty token || not (valid_identity_source identity_source)
      then (err invalid_credential, d)
      else deleted_some
          (q.delete_by_token_hash_for_source (hash_session_token token) identity_source d)

  unfoldable pub delete_expired : D → Result StoreError ℕ × D
  unfolding counted
  delete_expired d = counted (q.delete_expired_sessions d)
