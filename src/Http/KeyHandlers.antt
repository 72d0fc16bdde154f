-- ===== src/Http/KeyHandlers.antt =====
-- internal/httpapi/api_keys.go: the API keys of the user of the session. The store is an interface
-- over its states; gin's binding of the body, the validity of JSON and base64 are parameters.
pub mod Pipeline
use cliproxy_new.Base.{
  ℕ, ◌≡◌, Bool, true, false, ◌&&◌, ◌||◌, not, Option, none, some, List, [], ◌∷◌, ◌++◌, map, ℤ,
  is_positive, list_eq, nat_eq, ◌==◌, if◌then◌else◌, GoString, bytes, trim_space, parse_int, Result,
  ok, err, ◌>>=◌,
}
use cliproxy_new.Store.{
  StoreError, not_found, invalid_credential, invalid_input, corrupt_credential, other, Done,
}
use cliproxy_new.Store.ApiKeys.{ApiKey, CreateKeyParams}
use cliproxy_new.Http.Management.{Refusal, Reply, refuse, reply, Context, current_user_id}

pub record ApiKeyStore (S : Type 0) : Type 0 where
  pub list_by_user : ℤ → S → Result StoreError (List ApiKey)
  pub create : CreateKeyParams → S → Result StoreError ApiKey × S
  pub revoke : ℤ → ℤ → S → Result StoreError Done × S

-- The metadata of a key: all but the user.
pub record ApiKeyResponse : Type 0 where
  pub id : ℤ
  pub prefix : GoString
  pub name : GoString
  pub status : GoString
  pub expires_at : Option ℕ
  pub scope : GoString
  pub last_used_at : Option ℕ
  pub created_at : ℕ

pub record CreateRequest : Type 0 where
  pub name : GoString
  pub expires_at : Option ℕ
  pub scope : GoString

pub record CreateResponse : Type 0 where
  pub api_key : ApiKeyResponse
  pub key : GoString

unfoldable pub new_response : ApiKey → ApiKeyResponse
new_response k = record {
  id = k.id;
  prefix = k.prefix;
  name = k.name;
  status = k.status;
  expires_at = k.expires_at;
  scope = k.scope;
  last_used_at = k.last_used_at;
  created_at = k.created_at;
}

-- An object, an array or null; a text that is not empty behind `json.Valid`.
opens_container : GoString → Bool
opens_container [] = false
opens_container (c ∷ s) = c == b'{' || c == b'['

unfoldable pub valid_scope : (GoString → Bool) → GoString → Bool
unfolding opens_container
valid_scope json_valid [] = true
valid_scope json_valid (c ∷ s) =
    let scope = trim_space (c ∷ s) in
    json_valid scope && (scope == bytes "null" || opens_container scope)

-- `generateAPIKey`, by the 32 bytes that are read.
unfoldable pub generate_api_key : (GoString → GoString) → Option GoString → Option GoString
generate_api_key encode_base64 none = none
generate_api_key encode_base64 (some raw) = some (bytes "cpn_" ++ encode_base64 raw)

listed : Result StoreError (List ApiKey) → Result Refusal (Reply (List ApiKeyResponse))
unfolding reply refuse
listed (err e) = refuse 500 (bytes "list API keys failed")
listed (ok keys) = reply 200 (map new_response keys)

created :
    {S : Type 0}
    → GoString
    → Result StoreError ApiKey × S
    → Result Refusal (Reply CreateResponse) × S
unfolding reply refuse
created plaintext (err e, s) = (refuse 500 (bytes "create API key failed"), s)
created plaintext (ok key, s) =
    (reply 201 (record { api_key = new_response key; key = plaintext }), s)

unfoldable pub revoked : {S : Type 0} → Result StoreError Done × S → Result Refusal (Reply Done) × S
unfolding reply refuse
revoked (ok u, s) = (reply 204 tt, s)
revoked (err not_found, s) = (refuse 404 (bytes "API key not found"), s)
revoked (err invalid_credential, s) = (refuse 500 (bytes "revoke API key failed"), s)
revoked (err invalid_input, s) = (refuse 500 (bytes "revoke API key failed"), s)
revoked (err corrupt_credential, s) = (refuse 500 (bytes "revoke API key failed"), s)
revoked (err other, s) = (refuse 500 (bytes "revoke API key failed"), s)

module _ {S : Type 0} (store : ApiKeyStore S) where
  list_of : Option ℤ → S → Result Refusal (Reply (List ApiKeyResponse))
  unfolding listed refuse
  list_of none s = refuse 401 (bytes "unauthorized")
  list_of (some id) s = listed (store.list_by_user id s)

  -- `List`; unlike the others it does not look at the sign of the id.
  unfoldable pub list : Context → S → Result Refusal (Reply (List ApiKeyResponse))
  unfolding list_of
  list c s = list_of c.user_id s

  create_with : ℤ → CreateRequest → Option GoString → S → Result Refusal (Reply CreateResponse) × S
  unfolding created refuse
  create_with user_id request none s = (refuse 500 (bytes "generate API key failed"), s)
  create_with user_id request (some plaintext) s = created plaintext (
      store.create
        (record {
          user_id = user_id;
          plaintext = plaintext;
          name = request.name;
          expires_at = request.expires_at;
          scope = request.scope;
        })
        s)

  create_for :
      (GoString → Bool)
      → Result Refusal ℤ
      → Option CreateRequest
      → Option GoString
      → S
      → Result Refusal (Reply CreateResponse) × S
  unfolding create_with refuse
  create_for json_valid (err refusal) request key s = (err refusal, s)
  create_for json_valid (ok user_id) none key s = (refuse 400 (bytes "invalid API key request"), s)
  create_for json_valid (ok user_id) (some request) key s =
      if valid_scope json_valid request.scope
      then create_with user_id request key s
      else (refuse 400 (bytes "invalid API key request"), s)

  -- `Create`, by the bound body and the generated key.
  unfoldable pub create :
      (GoString → Bool)
      → Context
      → Option CreateRequest
      → Option GoString
      → S
      → Result Refusal (Reply CreateResponse) × S
  unfolding create_for
  create json_valid c request key s = create_for json_valid (current_user_id c) request key s

  unfoldable pub revoke_for : Result Refusal ℤ → Option ℤ → S → Result Refusal (Reply Done) × S
  unfolding refuse
  revoke_for (err refusal) key_id s = (err refusal, s)
  revoke_for (ok user_id) none s = (refuse 400 (bytes "invalid API key ID"), s)
  revoke_for (ok user_id) (some key_id) s =
      if is_positive key_id
      then revoked (store.revoke user_id key_id s)
      else (refuse 400 (bytes "invalid API key ID"), s)

  -- `Revoke`, by the parameter of the path.
  unfoldable pub revoke : Context → GoString → S → Result Refusal (Reply Done) × S
  revoke c param s = revoke_for (current_user_id c) (parse_int param) s
