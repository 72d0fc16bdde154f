-- ===== src/Http/KeyOverview.antt =====
-- internal/httpapi/admin_keys.go: the administrator's list of the API keys of all users.
use cliproxy_new.Base.{ℕ, Option, List, map, ℤ, GoString, bytes, Result, ok, err}
use cliproxy_new.Store.{StoreError}
use cliproxy_new.Store.ApiKeys.Overview.{AdminApiKey}
use cliproxy_new.Http.Management.{Refusal, Reply, refuse, reply}

pub record AdminApiKeyStore (S : Type 0) : Type 0 where
  pub list_all : S → Result StoreError (List AdminApiKey)

pub record AdminApiKeyResponse : Type 0 where
  pub id : ℤ
  pub user_id : ℤ
  pub prefix : GoString
  pub name : GoString
  pub status : GoString
  pub expires_at : Option ℕ
  pub scope : GoString
  pub last_used_at : Option ℕ
  pub created_at : ℕ
  pub owner_username : GoString
  pub owner_identity_source : GoString
  pub owner_status : GoString

unfoldable pub response_of : AdminApiKey → AdminApiKeyResponse
response_of k = record {
  id = k.api_key.id;
  user_id = k.api_key.user_id;
  prefix = k.api_key.prefix;
  name = k.api_key.name;
  status = k.api_key.status;
  expires_at = k.api_key.expires_at;
  scope = k.api_key.scope;
  last_used_at = k.api_key.last_used_at;
  created_at = k.api_key.created_at;
  owner_username = k.owner_username;
  owner_identity_source = k.owner_identity_source;
  owner_status = k.owner_status;
}

listed : Result StoreError (List AdminApiKey) → Result Refusal (Reply (List AdminApiKeyResponse))
unfolding reply refuse
listed (err e) = refuse 500 (bytes "list API keys failed")
listed (ok keys) = reply 200 (map response_of keys)

-- `List` of a handler with a store.
unfoldable pub list :
    {S : Type 0} → AdminApiKeyStore S → S → Result Refusal (Reply (List AdminApiKeyResponse))
unfolding listed
list store s = listed (store.list_all s)
