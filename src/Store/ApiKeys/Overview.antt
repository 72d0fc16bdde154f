-- ===== src/Store/ApiKeys/Overview.antt =====
-- internal/store/api_keys.go: the keys of all users with their owners, by the query of
-- `ListAllAPIKeys`.
use cliproxy_new.Base.{List, [], ◌∷◌, GoString, Result, ok, err}
use cliproxy_new.Store.{StoreError, other, QueryError}
use cliproxy_new.Store.ApiKeys.{ApiKey, KeyRow, key_of_row}

pub record OwnedRow : Type 0 where
  pub key : KeyRow
  pub owner_username : GoString
  pub owner_identity_source : GoString
  pub owner_status : GoString

pub record AdminApiKey : Type 0 where
  pub api_key : ApiKey
  pub owner_username : GoString
  pub owner_identity_source : GoString
  pub owner_status : GoString

unfoldable pub owned_key : OwnedRow → AdminApiKey
owned_key row = record {
  api_key = key_of_row row.key;
  owner_username = row.owner_username;
  owner_identity_source = row.owner_identity_source;
  owner_status = row.owner_status;
}

unfoldable pub owned_keys : List OwnedRow → List AdminApiKey
owned_keys [] = []
owned_keys (row ∷ rows) = owned_key row ∷ owned_keys rows

listed : Result QueryError (List OwnedRow) → Result StoreError (List AdminApiKey)
listed (err e) = err other
listed (ok rows) = ok (owned_keys rows)

unfoldable pub list_all :
    {D : Type 0}
    → (D → Result QueryError (List OwnedRow))
    → D
    → Result StoreError (List AdminApiKey)
unfolding listed
list_all query d = listed (query d)
