-- ===== src/Http/OauthAdmin.antt =====
-- internal/httpapi/admin_oauth_sessions.go: the status and the cancellation of OAuth flows. The store
-- is an interface over its states.
use cliproxy_new.Base.{
  ℕ, Option, List, map, ℤ, GoString, bytes, is_empty, if◌then◌else◌, Result, ok, err,
}
use cliproxy_new.Store.{
  StoreError, not_found, invalid_credential, invalid_input, corrupt_credential, other, Done,
}
use cliproxy_new.Store.OauthSessions.{OauthSession}
use cliproxy_new.Http.Management.{Refusal, Reply, refuse, reply, Context, current_user_id}

pub record AdminOauthSessionStore (S : Type 0) : Type 0 where
  pub get : GoString → S → Result StoreError OauthSession
  pub list_pending : S → Result StoreError (List OauthSession)
  pub cancel_with_audit : ℤ → GoString → Option GoString → S → Result StoreError Done × S

-- A session without its PKCE verifier and its device code.
pub record OauthSessionResponse : Type 0 where
  pub state : GoString
  pub provider : GoString
  pub flow_type : GoString
  pub status : GoString
  pub auth_id : GoString
  pub error_message : GoString
  pub user_code : GoString
  pub expires_at : ℕ
  pub created_at : ℕ
  pub updated_at : ℕ

unfoldable pub response_of : OauthSession → OauthSessionResponse
response_of s = record {
  state = s.state;
  provider = s.provider;
  flow_type = s.flow_type;
  status = s.status;
  auth_id = s.auth_id;
  error_message = s.error_message;
  user_code = s.user_code;
  expires_at = s.expires_at;
  created_at = s.created_at;
  updated_at = s.updated_at;
}

listed : Result StoreError (List OauthSession) → Result Refusal (Reply (List OauthSessionResponse))
unfolding reply refuse
listed (err e) = refuse 500 (bytes "list OAuth sessions failed")
listed (ok sessions) = reply 200 (map response_of sessions)

gotten : Result StoreError OauthSession → Result Refusal (Reply OauthSessionResponse)
unfolding reply refuse
gotten (ok session) = reply 200 (response_of session)
gotten (err not_found) = refuse 404 (bytes "OAuth session not found")
gotten (err invalid_credential) = refuse 500 (bytes "get OAuth session failed")
gotten (err invalid_input) = refuse 500 (bytes "get OAuth session failed")
gotten (err corrupt_credential) = refuse 500 (bytes "get OAuth session failed")
gotten (err other) = refuse 500 (bytes "get OAuth session failed")

cancelled : {S : Type 0} → Result StoreError Done × S → Result Refusal (Reply Done) × S
unfolding reply refuse
cancelled (ok u, s) = (reply 204 tt, s)
cancelled (err not_found, s) = (refuse 404 (bytes "OAuth session not found"), s)
cancelled (err invalid_credential, s) = (refuse 500 (bytes "cancel OAuth session failed"), s)
cancelled (err invalid_input, s) = (refuse 500 (bytes "cancel OAuth session failed"), s)
cancelled (err corrupt_credential, s) = (refuse 500 (bytes "cancel OAuth session failed"), s)
cancelled (err other, s) = (refuse 500 (bytes "cancel OAuth session failed"), s)

module _ {S : Type 0} (store : AdminOauthSessionStore S) where
  pub list_pending : S → Result Refusal (Reply (List OauthSessionResponse))
  unfolding listed
  list_pending s = listed (store.list_pending s)

  pub get : GoString → S → Result Refusal (Reply OauthSessionResponse)
  unfolding gotten
  get param s = gotten (store.get param s)

  cancel_as : Result Refusal ℤ → GoString → Option GoString → S → Result Refusal (Reply Done) × S
  unfolding cancelled refuse
  cancel_as (err refusal) state ip s = (err refusal, s)
  cancel_as (ok actor) state ip s =
      if is_empty state
      then (refuse 400 (bytes "invalid OAuth state"), s)
      else cancelled (store.cancel_with_audit actor state ip s)

  pub cancel : Context → GoString → Option GoString → S → Result Refusal (Reply Done) × S
  unfolding cancel_as
  cancel c state ip s = cancel_as (current_user_id c) state ip s
