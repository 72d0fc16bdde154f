-- ===== src/Access/Provider.antt =====
-- internal/access/provider.go: the credentials of a request, tried in turn against the repository.
-- The tracing spans are left out: they record what happens and decide nothing.
pub mod Outcome
use cliproxy_new.Base.{
  ℕ, ◌+◌, ◌≡◌, Bool, true, false, ◌&&◌, ◌||◌, not, Option, none, some, List, [], ◌∷◌, map, ℤ,
  if◌then◌else◌, leb, GoString, bytes, ◌==◌, list_eq, nat_eq, trim_space, format_int, Result, ok,
  err,
}
use cliproxy_new.Store.{StoreError, invalid_credential, other}
use cliproxy_new.Store.ApiKeys.{
  ApiKeyPrincipal, ApiKeyRepository, Hashing, KeyQueries, Moment, authenticate_for_source,
}
use cliproxy_new.Access.Principal.{encode_principal}

-- The interface `APIKeyRepository` over states.
pub record KeyRepository (S : Type 0) : Type 0 where
  pub authenticate_key : GoString → GoString → S → S × Result StoreError ApiKeyPrincipal

-- The repository of package store, whose n-th call meets the n-th moment.
abbrev pub stored_keys :
    {D : Type 0} → Hashing → KeyQueries D → (ℕ → Moment D) → KeyRepository (ApiKeyRepository × ℕ)
stored_keys h q moments = record {
  authenticate_key = λ plaintext source s.
      let (r, found) = authenticate_for_source h q s.0 plaintext source (moments s.1) in
      ((r, s.1 + 1), found);
}

pub record Provider (S : Type 0) : Type 0 where
  pub repository : Option (KeyRepository S)
  pub identity_source : GoString

-- What `Authenticate` reads of a request: three headers, and two query parameters if it has a URL.
pub record Query : Type 0 where
  pub key : GoString
  pub auth_token : GoString

pub record Request : Type 0 where
  pub authorization : GoString
  pub goog_api_key : GoString
  pub anthropic_api_key : GoString
  pub url : Option Query

pub record AccessResult : Type 0 where
  pub provider : GoString
  pub principal : GoString
  pub metadata : List (GoString × GoString)

pub data AuthError : Type 0 where
  internal_error no_credentials rejected : AuthError

unfoldable pub provider_identifier : GoString
provider_identifier = bytes "db-apikey"

unfoldable pub metadata_api_key_id : GoString
metadata_api_key_id = bytes "api_key_id"

-- `strings.SplitN(s, " ", 2)`: the text before the first space and the text behind it.
unfoldable pub cut_space : GoString → Option (GoString × GoString)
cut_space [] = none
cut_space (c ∷ s) =
    if c == b' '
    then some ([], s)
    else elim (cut_space s) [ none ↦ none | some (before, rest) ↦ some (c ∷ before, rest) ]

pub lower : ℕ → ℕ
lower c = if leb b'A' c && leb c b'Z' then c + 32 else c

-- `strings.EqualFold(s, "bearer")`: no letter of the word has a fold outside ASCII.
unfoldable pub is_bearer : GoString → Bool
unfolding lower
is_bearer s = map lower s == bytes "bearer"

bearer_token : GoString → Option (GoString × GoString) → GoString
bearer_token header none = trim_space header
bearer_token header (some (scheme, token)) =
    if is_bearer scheme then trim_space token else trim_space header

unfoldable pub extract_bearer_token : GoString → GoString
unfolding bearer_token
extract_bearer_token header = bearer_token header (cut_space header)

query_key : Option Query → GoString
query_key none = []
query_key (some u) = u.key

query_auth_token : Option Query → GoString
query_auth_token none = []
query_auth_token (some u) = u.auth_token

is_set : GoString → Bool
is_set s = not (s == [])

-- The credentials in the order in which they are tried, and whether any was supplied.
unfoldable pub request_credentials : Option Request → List GoString × Bool
unfolding query_key query_auth_token is_set
request_credentials none = ([], false)
request_credentials (some r) = (
  extract_bearer_token r.authorization
      ∷ r.goog_api_key
      ∷ r.anthropic_api_key
      ∷ query_key r.url
      ∷ query_auth_token r.url
      ∷ [],
  is_set r.authorization
      || is_set r.goog_api_key
      || is_set r.anthropic_api_key
      || is_set (query_key r.url)
      || is_set (query_auth_token r.url),
)

unfoldable pub accepted : ApiKeyPrincipal → AccessResult
accepted p = record {
  provider = provider_identifier;
  principal = encode_principal p.user_id p.api_key_id;
  metadata = (metadata_api_key_id, format_int p.api_key_id) ∷ [];
}

module _ {S : Type 0} (repository : KeyRepository S) (source : GoString) where
  -- One credential's answer: accepted, broken, or the loop goes on.
  answer :
      S × Result StoreError ApiKeyPrincipal
      → (S → S × Result AuthError AccessResult)
      → S × Result AuthError AccessResult
  answer (s, ok p) rest = (s, ok (accepted p))
  answer (s, err invalid_credential) rest = rest s
  answer (s, err e) rest = (s, err internal_error)

  pub try_credentials : List GoString → S → S × Result AuthError AccessResult
  unfolding answer
  try_credentials [] s = (s, err rejected)
  try_credentials (c ∷ cs) s =
      let rest = try_credentials cs in
      if c == [] then rest s else answer (repository.authenticate_key c source s) rest

supplied_or_none :
    {S : Type 0}
    → KeyRepository S
    → GoString
    → List GoString × Bool
    → S
    → S × Result AuthError AccessResult
unfolding try_credentials
supplied_or_none repository source (credentials, false) s = (s, err no_credentials)
supplied_or_none repository source (credentials, true) s =
    try_credentials repository source credentials s

authenticate_with :
    {S : Type 0}
    → Option (KeyRepository S)
    → GoString
    → Option Request
    → S
    → S × Result AuthError AccessResult
unfolding supplied_or_none
authenticate_with none source request s = (s, err internal_error)
authenticate_with (some repository) source request s =
    supplied_or_none repository source (request_credentials request) s

-- `Authenticate` of a provider, or of the nil pointer.
unfoldable pub authenticate :
    {S : Type 0} → Option (Provider S) → Option Request → S → S × Result AuthError AccessResult
unfolding authenticate_with
authenticate none request s = (s, err internal_error)
authenticate (some p) request s = authenticate_with p.repository p.identity_source request s
