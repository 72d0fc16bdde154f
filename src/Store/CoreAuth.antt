-- ===== src/Store/CoreAuth.antt =====
-- internal/store/coreauth_store.go: what is stored of a credential. The SDK's `Auth` is the record of
-- the fields that the code reads or writes, with the others as one text; a Go map is the list of its
-- entries. The SDK's methods and constants, the JSON codec and AES-GCM are parameters.
pub mod Tables
pub mod Encoding
pub mod Contents
pub mod Places
pub mod Listing
pub mod Writes
pub mod Transactions
pub mod Deletion
pub mod Rows
pub mod HiddenState
use cliproxy_new.Base.{
  ℕ, Bool, true, false, ◌&&◌, ◌||◌, not, Option, none, some, List, [], ◌∷◌, ℤ, find, assign,
  assign_all, keep_keys, is_empty, list_eq, nat_eq, if◌then◌else◌, ◌==◌, GoString, bytes,
  trim_space, Result, ok, err, ◌>>=◌,
}
use cliproxy_new.Store.{StoreError, invalid_input, corrupt_credential, other, nullable_text}
use cliproxy_new.Security.Keyring.{KeyringError, Aead, EncryptedValue, Keyring, encrypt, is_version}

-- A value of a `map[string]any`; any but a text and a Boolean as its JSON text.
pub data JsonValue : Type 0 where
  text : GoString → JsonValue
  flag : Bool → JsonValue
  json : GoString → JsonValue

abbrev pub Metadata : Type 0
Metadata = List (GoString × JsonValue)

abbrev pub Attributes : Type 0
Attributes = List (GoString × GoString)

-- What the code asks of a token storage: `RawJSON()` if it has the method, whether it has hidden state,
-- as `HiddenState` searches for it, and what `json.Marshal` makes of it.
pub record TokenStorage : Type 0 where
  pub raw_json : Option GoString
  pub hidden_state : Bool
  pub encoded : Option GoString

pub data AuthKind : Type 0 where
  oauth api_key unknown_kind : AuthKind

pub data AuthStatus : Type 0 where
  status_disabled status_error status_other : AuthStatus

-- A time is none if it is zero.
pub record Auth : Type 0 where
  pub id : GoString
  pub provider : GoString
  pub label : GoString
  pub proxy_url : GoString
  pub attributes : Attributes
  pub metadata : Metadata
  pub storage : Option TokenStorage
  pub disabled : Bool
  pub unavailable : Bool
  pub status : AuthStatus
  pub last_refreshed_at : Option ℕ
  pub next_refresh_after : Option ℕ
  pub others : GoString

-- `AuthKind`, `AttributeSourceBackend` and `AuthSourcePostgres` of the SDK, and `json.Marshal` and
-- `json.Unmarshal` at the types that the code uses them at. An object is none if it is `null`.
pub record Sdk : Type 0 where
  pub auth_kind : Auth → AuthKind
  pub source_backend : GoString
  pub source_postgres : GoString
  pub marshal : Auth → Option GoString
  pub unmarshal : GoString → Option Auth
  pub marshal_attributes : Attributes → Option GoString
  pub decode_object : GoString → Option (Option Metadata)

-- The columns of a row of `upstream_accounts` but `created_at`, which nothing reads.
pub record Account : Type 0 where
  pub id : GoString
  pub provider : GoString
  pub email : GoString
  pub auth_type : GoString
  pub label : Option GoString
  pub credentials_enc : GoString
  pub enc_key_version : ℤ
  pub attributes : Option GoString
  pub status : GoString
  pub last_refreshed_at : Option ℕ
  pub next_refresh_after : Option ℕ

unfoldable pub database_auth_type : AuthKind → Result StoreError GoString
database_auth_type oauth = ok (bytes "oauth")
database_auth_type api_key = ok (bytes "api-key")
database_auth_type unknown_kind = err invalid_input

is_disabled : AuthStatus → Bool
is_disabled status_disabled = true
is_disabled status_error = false
is_disabled status_other = false

is_error : AuthStatus → Bool
is_error status_disabled = false
is_error status_error = true
is_error status_other = false

unfoldable pub database_auth_status : Auth → GoString
unfolding is_disabled is_error
database_auth_status a =
    if a.disabled || is_disabled a.status
    then bytes "disabled"
    else if a.unavailable || is_error a.status
    then bytes "unavailable"
    else bytes "active"

email_or : GoString → GoString → GoString
email_or id [] = id
email_or id (c ∷ s) = c ∷ s

email_of : GoString → Option JsonValue → GoString
unfolding email_or
email_of id none = id
email_of id (some (text s)) = email_or id (trim_space s)
email_of id (some (flag b)) = id
email_of id (some (json s)) = id

unfoldable pub account_email : Auth → GoString
unfolding email_of
account_email a = email_of a.id (find a.metadata (bytes "email"))

unfoldable pub is_public_key : GoString → Bool
is_public_key key =
    key == bytes "base_url" || key == bytes "compat_name" || key == bytes "excluded_models"

-- The entries of the allow-list.
unfoldable pub public_attributes : Attributes → Attributes
public_attributes attributes = keep_keys is_public_key attributes

unfoldable pub or_other : Option GoString → Result StoreError GoString
or_other none = err other
or_other (some s) = ok s

pub has_type : Option JsonValue → Bool
has_type none = false
has_type (some (text s)) = not (is_empty (trim_space s))
has_type (some (flag b)) = false
has_type (some (json s)) = false

unfoldable pub with_type : GoString → Metadata → Metadata
unfolding has_type
with_type provider m =
    if has_type (find m (bytes "type")) then m else assign (bytes "type") (text provider) m

-- The metadata that is written: the storage's entries under the credential's own, with a type and
-- the flag.
unfoldable pub merged : Auth → Metadata → Metadata
merged a entries =
    assign (bytes "disabled") (flag a.disabled)
      (with_type a.provider (assign_all a.metadata (assign_all entries [])))

decoded_object : Option (Option Metadata) → Result StoreError (Option Metadata)
decoded_object none = err other
decoded_object (some entries) = ok entries

-- The storage's JSON must hold an entry.
some_entries : Option Metadata → Result StoreError Metadata
some_entries none = err invalid_input
some_entries (some []) = err invalid_input
some_entries (some (e ∷ es)) = ok (e ∷ es)

unfoldable pub encrypted : Result KeyringError EncryptedValue → Result StoreError EncryptedValue
encrypted (err e) = err other
encrypted (ok value) = ok value

-- The version must fit a PostgreSQL integer.
unfoldable pub fitting : EncryptedValue → Result StoreError EncryptedValue
fitting value = if is_version value.key_version then ok value else err invalid_input

unfoldable pub row_of : Auth → GoString → EncryptedValue → Option GoString → Account
row_of p auth_type value attributes = record {
  id = p.id;
  provider = p.provider;
  email = account_email p;
  auth_type = auth_type;
  label = nullable_text p.label;
  credentials_enc = value.ciphertext;
  enc_key_version = value.key_version;
  attributes = attributes;
  status = database_auth_status p;
  last_refreshed_at = p.last_refreshed_at;
  next_refresh_after = p.next_refresh_after;
}

module _ (sdk : Sdk) where
  pub marshal_public : Attributes → Result StoreError (Option GoString)
  marshal_public [] = ok none
  marshal_public (e ∷ public) =
      or_other (sdk.marshal_attributes (e ∷ public)) >>= (λ s. ok (some s))

  unfoldable pub public_attributes_json : Attributes → Result StoreError (Option GoString)
  unfolding marshal_public
  public_attributes_json attributes = marshal_public (public_attributes attributes)

  unfoldable pub ensure_postgres_source : Auth → Auth
  ensure_postgres_source a = record a {
    attributes = assign sdk.source_backend sdk.source_postgres a.attributes;
  }

  pub decode_storage_metadata : GoString → Result StoreError (Option Metadata)
  unfolding decoded_object
  decode_storage_metadata [] = ok none
  decode_storage_metadata (c ∷ raw) = decoded_object (sdk.decode_object (c ∷ raw))

  raw_metadata : Option GoString → Result StoreError (Option Metadata)
  unfolding decode_storage_metadata
  raw_metadata none = ok none
  raw_metadata (some raw) = decode_storage_metadata raw

  encoded_metadata : Option GoString → Result StoreError Metadata
  unfolding decode_storage_metadata some_entries
  encoded_metadata none = err other
  encoded_metadata (some raw) = decode_storage_metadata raw >>= some_entries

  or_encoded : TokenStorage → Option Metadata → Result StoreError Metadata
  unfolding encoded_metadata
  or_encoded storage (some entries) = ok entries
  or_encoded storage none =
      if storage.hidden_state then err invalid_input else encoded_metadata storage.encoded

  pub token_storage_metadata : TokenStorage → Result StoreError Metadata
  unfolding raw_metadata or_encoded
  token_storage_metadata storage = raw_metadata storage.raw_json >>= or_encoded storage

  unfoldable pub storage_metadata : Option TokenStorage → Result StoreError Metadata
  unfolding token_storage_metadata
  storage_metadata none = ok []
  storage_metadata (some storage) = token_storage_metadata storage

  unfoldable pub persisted_credential_metadata : Auth → Result StoreError (Metadata)
  unfolding storage_metadata
  persisted_credential_metadata a =
      storage_metadata a.storage >>= (λ entries. ok (merged a entries))

  -- The copy of a credential that is written.
  unfoldable pub persisted : Auth → Result StoreError Auth
  unfolding persisted_credential_metadata
  persisted a =
      let copy =
        ensure_postgres_source
          (record a { id = trim_space a.id; provider = trim_space a.provider; proxy_url = [] }) in
      persisted_credential_metadata copy >>= (λ metadata. ok (record copy { metadata = metadata }))

  -- The parameters of the upsert.
  unfoldable pub encode : Aead → Keyring → GoString → Auth → Result StoreError Account
  encode aead k nonce p = do
    auth_type ← database_auth_type (sdk.auth_kind p)
    plaintext ← or_other (sdk.marshal p)
    value ← encrypted (encrypt aead k nonce plaintext)
    fit ← fitting value
    attributes ← public_attributes_json p.attributes
    ok (row_of p auth_type fit attributes)

  unfoldable pub account_of : Aead → Keyring → GoString → Auth → Result StoreError Account
  account_of aead k nonce a = persisted a >>= encode aead k nonce
