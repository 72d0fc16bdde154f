-- ===== src/Store/Users.antt =====
-- internal/store/users.go: the repository of users. The sqlc queries are an interface over database
-- states; a row's nullable email is read as "" where it is NULL.
pub mod Status
use cliproxy_new.Base.{
  ℕ, true, false, Bool, ◌&&◌, ◌||◌, not, Option, none, some, List, [], map, ℤ, GoString, bytes,
  ◌==◌, list_eq, nat_eq, if◌then◌else◌, is_empty, has_prefix, Result, ok, err,
}
use cliproxy_new.Store.{
  StoreError, Done, not_found, invalid_input, other, QueryError, no_rows, failed, active, blocked,
  nullable_text,
}

pub record UserRow : Type 0 where
  pub id : ℤ
  pub username : GoString
  pub email : Option GoString
  pub role : GoString
  pub status : GoString
  pub identity_source : GoString
  pub created_at : ℕ
  pub updated_at : ℕ

pub record User : Type 0 where
  pub id : ℤ
  pub username : GoString
  pub email : GoString
  pub role : GoString
  pub status : GoString
  pub identity_source : GoString
  pub created_at : ℕ
  pub updated_at : ℕ

pub record UpsertUserParams : Type 0 where
  pub username : GoString
  pub email : GoString
  pub role : GoString

-- The queries: an upsert takes the user's name, nullable email and role.
pub record UserQueries (D : Type 0) : Type 0 where
  pub upsert_user_from_ldap :
      GoString → Option GoString → GoString → D → Result QueryError UserRow × D
  pub upsert_static_user : GoString → Option GoString → GoString → D → Result QueryError UserRow × D
  pub get_user_by_id : ℤ → D → Result QueryError UserRow
  pub list_users : D → Result QueryError (List UserRow)
  pub block_user_and_delete_sessions : ℤ → D → Result QueryError ℕ × D
  pub set_user_status : ℤ → GoString → D → Result QueryError ℕ × D

email_of : Option GoString → GoString
email_of none = []
email_of (some email) = email

unfoldable pub user_from_values : UserRow → User
unfolding email_of
user_from_values row = record {
  id = row.id;
  username = row.username;
  email = email_of row.email;
  role = row.role;
  status = row.status;
  identity_source = row.identity_source;
  created_at = row.created_at;
  updated_at = row.updated_at;
}

unfoldable pub valid_user_params : UpsertUserParams → Bool
valid_user_params p =
    not (is_empty p.username) && ((p.role == bytes "user") || (p.role == bytes "admin"))

unfoldable pub is_static_name : UpsertUserParams → Bool
is_static_name p = has_prefix p.username (bytes "static:")

upserted : {D : Type 0} → Result QueryError UserRow × D → Result StoreError User × D
unfolding user_from_values
upserted (err e, d) = (err other, d)
upserted (ok row, d) = (ok (user_from_values row), d)

found_user : Result QueryError UserRow → Result StoreError User
unfolding user_from_values
found_user (err no_rows) = err not_found
found_user (err failed) = err other
found_user (ok row) = ok (user_from_values row)

listed_users : Result QueryError (List UserRow) → Result StoreError (List User)
unfolding user_from_values
listed_users (err e) = err other
listed_users (ok rows) = ok (map user_from_values rows)

row_written : {D : Type 0} → Bool → D → Result StoreError Done × D
row_written true d = (err not_found, d)
row_written false d = (ok tt, d)

updated : {D : Type 0} → Result QueryError ℕ × D → Result StoreError Done × D
unfolding row_written
updated (err e, d) = (err other, d)
updated (ok n, d) = row_written (n == 0) d

module _ {D : Type 0} (q : UserQueries D) where
  unfoldable pub upsert_from_ldap : UpsertUserParams → D → Result StoreError User × D
  unfolding upserted valid_user_params is_static_name
  upsert_from_ldap p d =
      if not (valid_user_params p) || is_static_name p
      then (err invalid_input, d)
      else upserted (q.upsert_user_from_ldap p.username (nullable_text p.email) p.role d)

  unfoldable pub upsert_static : UpsertUserParams → D → Result StoreError User × D
  unfolding upserted valid_user_params is_static_name
  upsert_static p d =
      if not (valid_user_params p) || not (is_static_name p)
      then (err invalid_input, d)
      else upserted (q.upsert_static_user p.username (nullable_text p.email) p.role d)

  unfoldable pub get_by_id : ℤ → D → Result StoreError User
  unfolding found_user
  get_by_id id d = found_user (q.get_user_by_id id d)

  unfoldable pub list : D → Result StoreError (List User)
  unfolding listed_users
  list d = listed_users (q.list_users d)

  -- By the tests of "active" and "blocked".
  change_status : Bool → Bool → ℤ → GoString → D → Result StoreError Done × D
  unfolding updated
  change_status false false id status d = (err invalid_input, d)
  change_status is_active true id status d = updated (q.block_user_and_delete_sessions id d)
  change_status true false id status d = updated (q.set_user_status id status d)

  unfoldable pub set_status : ℤ → GoString → D → Result StoreError Done × D
  unfolding change_status
  set_status id status d = change_status (status == active) (status == blocked) id status d
