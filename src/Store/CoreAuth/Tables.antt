-- ===== src/Store/CoreAuth/Tables.antt =====
-- internal/store/coreauth_store.go: `List`, `Save` and `Delete` over the tables of the migrations and
-- the statements of db/queries. `answers` tells which statements are answered; one that is not
-- changes nothing, and a transaction that fails is rolled back. `less` is the order of the database
-- on ids.
use cliproxy_new.Base.{
  ℕ, ◌+◌, ◌^◌, Bool, false, ◌&&◌, ◌||◌, not, Option, none, some, List, [], ◌∷◌, ◌++◌, ltb, is_empty,
  list_eq, nat_eq, if◌then◌else◌, ◌==◌, GoString, bytes, trim_space, Result, ok, err, ◌>>=◌, filter,
  order_by,
}
use cliproxy_new.Store.{StoreError, invalid_input, corrupt_credential, other, Done}
use cliproxy_new.Store.OauthSessions.{AuditEntry, is_entry}
use cliproxy_new.Security.Keyring.{KeyringError, Aead, Keyring, decrypt, is_version}
use cliproxy_new.Store.CoreAuth.{Sdk, Auth, Account, account_of, ensure_postgres_source}

-- `revision` is that of the upstream accounts, if the table has its row.
pub record Tables : Type 0 where
  pub accounts : List Account
  pub revision : Option ℕ
  pub audit : List AuditEntry

-- A `DBTX` with the method `Begin`, or without it.
pub data Connection : Type 0 where
  pool plain : Connection

-- A nil database or keyring is none.
pub record CoreAuthStore : Type 0 where
  pub connection : Option Connection
  pub keyring : Option Keyring

-- The account's row replaced, or a new one.
unfoldable pub upsert_account : Account → List Account → List Account
upsert_account a [] = a ∷ []
upsert_account a (r ∷ rs) = if r.id == a.id then a ∷ rs else r ∷ upsert_account a rs

-- `UNIQUE (provider, email)`, broken by another row.
unfoldable pub is_taken : Account → List Account → Bool
is_taken a [] = false
is_taken a (r ∷ rs) =
    (not (r.id == a.id) && r.provider == a.provider && r.email == a.email) || is_taken a rs

-- The CHECK constraints of a row.
unfoldable pub meets_checks : Account → Bool
meets_checks a =
    (a.auth_type == bytes "oauth" || a.auth_type == bytes "api-key")
    && is_version a.enc_key_version
    && (a.status == bytes "active"
        || a.status == bytes "disabled"
        || a.status == bytes "unavailable")

-- `UpsertUpstreamAccount`
unfoldable pub upsert : Bool → Account → Tables → Result StoreError Tables
upsert up a t =
    if up && not (is_taken a t.accounts) && meets_checks a
    then ok (record t { accounts = upsert_account a t.accounts })
    else err other

-- `ListUpstreamAccounts`: ordered by the id.
unfoldable pub list_accounts : (GoString → GoString → Bool) → Tables → List Account
list_accounts less t = order_by less (λ r. r.id) t.accounts

-- `DeleteUpstreamAccount`
unfoldable pub has_other_id : GoString → Account → Bool
has_other_id id a = not (a.id == id)

unfoldable pub delete_account : Bool → GoString → Tables → Result StoreError Tables
unfolding has_other_id
delete_account up id t =
    if up then ok (record t { accounts = filter (has_other_id id) t.accounts }) else err other

-- `IncrementRuntimeRevision`; the revision is a `bigint`.
unfoldable pub incremented : Option ℕ → Tables → Result StoreError Tables
incremented none t = err other
incremented (some n) t =
    if ltb (n + 1) (2 ^ 63) then ok (record t { revision = some (n + 1) }) else err other

unfoldable pub increment : Bool → Tables → Result StoreError Tables
unfolding incremented
increment up t = if up then incremented t.revision t else err other

-- `RuntimeRevisionRepository.Get` over `GetRuntimeRevision`; a row that is not there is an error.
revision_or_error : Option ℕ → Result StoreError ℕ
revision_or_error none = err other
revision_or_error (some n) = ok n

unfoldable pub get_revision : Bool → Tables → Result StoreError ℕ
unfolding revision_or_error
get_revision up t = if up then revision_or_error t.revision else err other

-- The audit entry of the context, if it has one, with the id of the account as its target.
unfoldable pub targeted : GoString → AuditEntry → AuditEntry
targeted id e = record e { target_id = id }

unfoldable pub insert_entry :
    (GoString → Bool) → Bool → AuditEntry → Tables → Result StoreError Tables
insert_entry valid_json up e t =
    if is_entry valid_json e
    then (if up then ok (record t { audit = t.audit ++ e ∷ [] }) else err other)
    else err invalid_input

unfoldable pub audit_save :
    (GoString → Bool) → Bool → GoString → Option AuditEntry → Tables → Result StoreError Tables
unfolding insert_entry targeted
audit_save valid_json up id none t = ok t
audit_save valid_json up id (some e) t = insert_entry valid_json up (targeted id e) t

-- Which statements are answered.
pub record Answers : Type 0 where
  pub begins : Bool
  pub writes : Bool
  pub increments : Bool
  pub audits : Bool
  pub commits : Bool

unfoldable pub commit : Bool → Tables → Result StoreError Tables
commit up t = if up then ok t else err other

-- The tables behind a transaction, by what it came to.
unfoldable pub settle {ℓ} :
    {A : Type ℓ} → A → Tables → Result StoreError Tables → Result StoreError A × Tables
settle value before (err e) = (err e, before)
settle value before (ok after) = (ok value, after)

module _ (valid_json : GoString → Bool) (answers : Answers) where
  unfoldable pub save_transaction : Account → Option AuditEntry → Tables → Result StoreError Tables
  unfolding audit_save commit
  save_transaction a audit t =
      upsert answers.writes a t
      >>= increment answers.increments
      >>= audit_save valid_json answers.audits a.id audit
      >>= commit answers.commits

  -- Without transactions the audit entry is refused and the revision is left.
  unfoldable pub save_plain : Account → Option AuditEntry → Tables → Result StoreError Tables
  save_plain a none t = upsert answers.writes a t
  save_plain a (some e) t = err invalid_input

  unfoldable pub save_account :
      Connection → Account → Option AuditEntry → Tables → Result StoreError GoString × Tables
  save_account pool a audit t =
      if answers.begins then settle a.id t (save_transaction a audit t) else (err other, t)
  save_account plain a audit t = settle a.id t (save_plain a audit t)

  unfoldable pub save_encoded :
      Connection
      → Result StoreError Account
      → Option AuditEntry
      → Tables
      → Result StoreError GoString × Tables
  save_encoded connection (err e) audit t = (err e, t)
  save_encoded connection (ok a) audit t = save_account connection a audit t

unfoldable pub decrypted : Result KeyringError GoString → Result StoreError GoString
decrypted (err e) = err other
decrypted (ok plaintext) = ok plaintext

unfoldable pub decoded_auth : Option Auth → Result StoreError Auth
decoded_auth none = err corrupt_credential
decoded_auth (some a) = ok a

-- The id and the provider in the text must be those of the row.
unfoldable pub checked : Sdk → Account → Auth → Result StoreError Auth
checked sdk r a =
    if not (a.id == r.id) || not (a.provider == r.provider)
    then err corrupt_credential
    else ok (ensure_postgres_source sdk (record a { proxy_url = [] }))

module _ (sdk : Sdk) (aead : Aead) where
  module _ (valid_json : GoString → Bool) (answers : Answers) where
    unfoldable pub save_with :
        Option Connection
        → Option Keyring
        → Option Auth
        → GoString
        → Option AuditEntry
        → Tables
        → Result StoreError GoString × Tables
    unfolding save_encoded
    save_with none k a nonce audit t = (err invalid_input, t)
    save_with (some c) none a nonce audit t = (err invalid_input, t)
    save_with (some c) (some k) none nonce audit t = (err invalid_input, t)
    save_with (some c) (some k) (some a) nonce audit t =
        if is_empty (trim_space a.id) || is_empty (trim_space a.provider)
        then (err invalid_input, t)
        else save_encoded valid_json answers c (account_of sdk aead k nonce a) audit t

    unfoldable pub save :
        CoreAuthStore
        → Option Auth
        → GoString
        → Option AuditEntry
        → Tables
        → Result StoreError GoString × Tables
    unfolding save_with
    save s a nonce audit t = save_with s.connection s.keyring a nonce audit t

  unfoldable pub list_row : Keyring → Account → Result StoreError Auth
  unfolding decrypted decoded_auth
  list_row k r =
      decrypted (
        decrypt aead k (record { key_version = r.enc_key_version; ciphertext = r.credentials_enc }))
      >>= (λ plaintext. decoded_auth (sdk.unmarshal plaintext))
      >>= checked sdk r

  unfoldable pub list_rows : Keyring → List Account → Result StoreError (List Auth)
  list_rows k [] = ok []
  list_rows k (r ∷ rs) = do a ← list_row k r; rest ← list_rows k rs; ok (a ∷ rest)

  unfoldable pub list_with :
      (GoString → GoString → Bool)
      → Option Connection
      → Option Keyring
      → Bool
      → Tables
      → Result StoreError (List Auth)
  unfolding list_rows list_accounts
  list_with less none k up t = err invalid_input
  list_with less (some c) none up t = err invalid_input
  list_with less (some c) (some k) up t =
      if up then list_rows k (list_accounts less t) else err other

  unfoldable pub list :
      (GoString → GoString → Bool) → CoreAuthStore → Bool → Tables → Result StoreError (List Auth)
  unfolding list_with
  list less s up t = list_with less s.connection s.keyring up t

-- `Delete` in a transaction, or statement by statement.
module _ (answers : Answers) where
  unfoldable pub delete_transaction : GoString → Tables → Result StoreError Tables
  unfolding commit
  delete_transaction id t =
      delete_account answers.writes id t >>= increment answers.increments >>= commit answers.commits

  -- The rows are deleted though the revision may not be incremented.
  unfoldable pub incremented_after :
      Result StoreError Tables → Tables → Result StoreError Done × Tables
  incremented_after (err e) t = (err e, t)
  incremented_after (ok deleted) t = settle tt deleted (increment answers.increments deleted)

  unfoldable pub delete_with :
      Option Connection → GoString → Tables → Result StoreError Done × Tables
  unfolding delete_transaction incremented_after
  delete_with none id t = (err invalid_input, t)
  delete_with (some pool) id t =
      if is_empty id
      then (err invalid_input, t)
      else if answers.begins
      then settle tt t (delete_transaction id t)
      else (err other, t)
  delete_with (some plain) id t =
      if is_empty id
      then (err invalid_input, t)
      else incremented_after (delete_account answers.writes id t) t

  unfoldable pub delete : CoreAuthStore → GoString → Tables → Result StoreError Done × Tables
  unfolding delete_with
  delete s id t = delete_with s.connection (trim_space id) t
