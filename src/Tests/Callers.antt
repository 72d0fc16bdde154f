-- ===== src/Tests/Callers.antt =====
-- Runs of internal/access.
use cliproxy_new.Base.{
  ℕ, ◌≡◌, refl, none, some, [], pos, GoString, bytes, trim_space, suc, list_beq, list_eq, nat_eq,
  ◌==◌, if◌then◌else◌, Result, ok, err, arith,
}
use cliproxy_new.Store.{StoreError, invalid_credential}
use cliproxy_new.Store.ApiKeys.{ApiKeyPrincipal}
use cliproxy_new.Access.Principal.{encode_principal, decode_principal, decode-encode}
use cliproxy_new.Access.Provider.{KeyRepository, Request, request_credentials, authenticate}
use cliproxy_new.Access.Provider.Outcome.{Explained, authenticate-Explained}

trim_space_runs : trim_space (bytes "  a b\t ") ≡ bytes "a b"
unfolding trim_space
trim_space_runs = refl

decode-encode_example :
    decode_principal (encode_principal (pos 12) (pos 345))
    ≡ ok (record { user_id = pos 12; api_key_id = some (pos 345) })
decode-encode_example = decode-encode 12 345 (omega arith) (omega arith) (omega arith) (omega arith)

-- A repository that knows the key "good" and counts its calls.
abbrev answer_to : GoString → Result StoreError ApiKeyPrincipal
answer_to plaintext =
    if plaintext == bytes "good"
    then ok (record { user_id = pos 3; api_key_id = pos 7 })
    else err invalid_credential

abbrev counting : KeyRepository ℕ
counting = record { authenticate_key = λ plaintext source n. (suc n, answer_to plaintext) }

-- The bearer token is refused, the Goog key is accepted.
abbrev two_credentials : Request
two_credentials = record {
  authorization = bytes "Bearer bad";
  goog_api_key = bytes "good";
  anthropic_api_key = [];
  url = none;
}

authenticate-Explained_example :
    Explained counting (bytes "ldap") 0 (request_credentials (some two_credentials)).0 (
      authenticate
        (some (record { repository = some counting; identity_source = bytes "ldap" }))
        (some two_credentials)
        0)
unfolding request_credentials list_beq
authenticate-Explained_example =
    authenticate-Explained counting (bytes "ldap") (some two_credentials) 0 refl
