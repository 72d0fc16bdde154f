-- ===== src/Tests/Credentials.antt =====
-- Runs of internal/store/coreauth_store.go: a codec that knows one credential, and the toy cipher.
use native.Mathlib.Decide.{ℕ_discrete}
use mathlib.Core.Logic.{ite, if_pos, if_neg}
use cliproxy_new.Base.{
  ◌≡◌, refl, sym, subst, true, false, Option, none, some, [], ◌∷◌, pos, int_eq, nat_eq, list_eq,
  list_beq, GoString, bytes, ok, trim_space, find, assign, assign_all, keep_keys, filter, Bool, ltb,
  ◌==◌, ◌||◌, ◌&&◌, if◌then◌else◌, IsOrder, order_by, insert_by, is_utf8, ok_injective, ◌∙◌, arith,
}
use cliproxy_new.Security.Keyring.{
  Keyring, new_keyring, find_key, copy_keys, encrypt, decrypt, gcm, is_version, key_version_aad,
}
use cliproxy_new.Store.OauthSessions.{AuditEntry, is_entry}
use cliproxy_new.Store.CoreAuth.{
  Sdk, Auth, Account, JsonValue, text, flag, AuthStatus, api_key, status_other, account_of,
  persisted, ensure_postgres_source, persisted_credential_metadata, storage_metadata, merged,
  with_type, encode, database_auth_type, or_other, encrypted, fitting, row_of, account_email,
  database_auth_status, public_attributes_json, public_attributes, is_public_key,
}
use cliproxy_new.Store.CoreAuth.Tables.{
  Tables, Answers, CoreAuthStore, pool, save, save_with, save_encoded, save_account,
  save_transaction, settle, upsert, upsert_account, is_taken, meets_checks, increment, incremented,
  audit_save, insert_entry, commit, targeted, list, list_with, list_accounts, list_rows, list_row,
  decrypted, decoded_auth, checked, delete, delete_with, delete_transaction, delete_account,
  has_other_id,
}
use cliproxy_new.Store.CoreAuth.Transactions.{Outcome, save-Outcome}
use cliproxy_new.Store.CoreAuth.Rows.{Column, account_of-Public}
use cliproxy_new.Store.CoreAuth.Deletion.{Deleted, list-delete}
use cliproxy_new.Store.{nullable_text}
use cliproxy_new.Store.CoreAuth.Contents.{IsPlain, IsPlainValue, IsCodec, Same, Kept}
use cliproxy_new.Store.CoreAuth.Listing.{Rotated, list-save, place}
use cliproxy_new.Store.CoreAuth.Places.{DistinctIds, has_other}
use cliproxy_new.Tests.Keyrings.{
  toy, toy-IsAead, first_keys, rotated_keys, first_ring, rotated_ring,
}

Status-discrete : Discrete AuthStatus
Status-discrete = hlevel

Json-discrete : Discrete JsonValue
Json-discrete = hlevel (ℕ_discrete)

Auth-discrete : Discrete Auth
Auth-discrete = hlevel (ℕ_discrete, Status-discrete, Json-discrete)

-- A credential of a provider, with a secret among its attributes and an untrimmed id.
abbrev pub given : Auth
given = record {
  id = bytes " key-1";
  provider = bytes "claude";
  label = bytes "Work";
  proxy_url = bytes "http://proxy";
  attributes = (bytes "api_key", bytes "s3cret") ∷ (bytes "base_url", bytes "https://up") ∷ [];
  metadata = (bytes "email", text (bytes "a@b")) ∷ [];
  storage = none;
  disabled = false;
  unavailable = false;
  status = status_other;
  last_refreshed_at = none;
  next_refresh_after = some 9;
  others = [];
}

-- The copy of it that is written.
abbrev pub copy : Auth
copy = record given {
  id = bytes "key-1";
  proxy_url = [];
  attributes =
      (bytes "api_key", bytes "s3cret")
      ∷ (bytes "base_url", bytes "https://up")
      ∷ (bytes "backend", bytes "postgres")
      ∷ [];
  metadata =
      (bytes "email", text (bytes "a@b"))
      ∷ (bytes "type", text (bytes "claude"))
      ∷ (bytes "disabled", flag false)
      ∷ [];
}

-- Another credential, which a store holds before.
abbrev pub second : Auth
second = record copy { id = bytes "key-2"; metadata = [] }

-- A codec that writes one credential and reads two.
pub marshal_copy : Auth → Option GoString
marshal_copy a = ite (Auth-discrete a copy) (some (bytes "coded")) none

marshal_copy-copy : marshal_copy copy ≡ some (bytes "coded")
unfolding marshal_copy
marshal_copy-copy = rw (if_pos (Auth-discrete copy copy) refl) refl

abbrev pub sdk : Sdk
sdk = record {
  auth_kind = λ a. api_key;
  source_backend = bytes "backend";
  source_postgres = bytes "postgres";
  marshal = marshal_copy;
  unmarshal = λ s. if s == bytes "second" then some second else some copy;
  marshal_attributes = λ es. some (bytes "{..}");
  decode_object = λ s. none;
}

Same-copy : (a : Auth) → a ≡ copy → Same a copy
Same-copy a e =
    subst (λ b. Same b copy) (sym e)
      (record {
        id = refl;
        provider = refl;
        attributes = λ key. refl;
        metadata = λ key. refl;
        label = refl;
        disabled = refl;
        unavailable = refl;
        status = refl;
        last_refreshed_at = refl;
        next_refresh_after = refl;
        others = refl;
      })

marshalled_copy : (a : Auth) (s : GoString) → marshal_copy a ≡ some s → a ≡ copy
unfolding marshal_copy
marshalled_copy a s h = elim (Auth-discrete a copy) [
  | yes e ↦ e
  | no d ↦ let nothing : none ≡ some s = rw (if_neg (Auth-discrete a copy) d) at h in cc
]

coded_text : (a : Auth) (s : GoString) → marshal_copy a ≡ some s → bytes "coded" ≡ s
unfolding marshal_copy
coded_text a s h = elim (Auth-discrete a copy) [
  | yes e ↦
      let same : some (bytes "coded") ≡ some s = rw (if_pos (Auth-discrete a copy) e) at h in cc
  | no d ↦ let nothing : none ≡ some s = rw (if_neg (Auth-discrete a copy) d) at h in cc
]

sdk-IsCodec : IsCodec sdk (λ s. false)
unfolding list_beq
sdk-IsCodec = record {
  decodes = λ a s plain h. (
    copy,
    subst (λ u. sdk.unmarshal u ≡ some copy) (coded_text a s h) refl,
    Same-copy a (marshalled_copy a s h),
  );
}

-- The order of bytes, of the collation "C".
bytes_less : GoString → GoString → Bool
bytes_less [] [] = false
bytes_less [] (d ∷ t) = true
bytes_less (c ∷ s) [] = false
bytes_less (c ∷ s) (d ∷ t) = let rest = bytes_less s t in ltb c d || c == d && rest

bytes_less-irreflexive : (a : GoString) → bytes_less a a ≡ false
unfolding bytes_less
bytes_less-irreflexive [] = refl
bytes_less-irreflexive (c ∷ s) = ground (arith, bytes_less-irreflexive s)

bytes_less-transitive :
    (a b c : GoString) → bytes_less a b ≡ true → bytes_less b c ≡ true → bytes_less a c ≡ true
unfolding bytes_less
bytes_less-transitive [] [] c h k = cc
bytes_less-transitive (x ∷ a) [] c h k = cc
bytes_less-transitive [] (y ∷ b) [] h k = cc
bytes_less-transitive (x ∷ a) (y ∷ b) [] h k = cc
bytes_less-transitive [] (y ∷ b) (z ∷ c) h k = refl
bytes_less-transitive (x ∷ a) (y ∷ b) (z ∷ c) h k = ground (arith, bytes_less-transitive a b c)

bytes_less-total : (a b : GoString) → bytes_less a b ≡ false → bytes_less b a ≡ false → a ≡ b
unfolding bytes_less
bytes_less-total [] [] h k = refl
bytes_less-total [] (y ∷ b) h k = cc
bytes_less-total (x ∷ a) [] h k = cc
bytes_less-total (x ∷ a) (y ∷ b) h k = ground (arith, bytes_less-total a b)

bytes_less-IsOrder : IsOrder bytes_less
bytes_less-IsOrder = record {
  irreflexive = bytes_less-irreflexive;
  transitive = bytes_less-transitive;
  total = bytes_less-total;
}

rotation : Rotated first_ring rotated_ring
unfolding new_keyring copy_keys find_key
rotation = record {
  version = pos 1;
  later_version = pos 2;
  keys = first_keys;
  later = rotated_keys;
  made = refl;
  remade = refl;
  shared = refl;
}

abbrev pub no_rows : Tables
no_rows = record { accounts = []; revision = some 4; audit = [] }

abbrev pub all_up : Answers
all_up = record { begins = true; writes = true; increments = true; audits = true; commits = true }

abbrev pub account : Account
account = record {
  id = bytes "key-1";
  provider = bytes "claude";
  email = bytes "a@b";
  auth_type = bytes "api-key";
  label = some (bytes "Work");
  credentials_enc = 3 ∷ 4 ∷ 7 ∷ bytes "coded";
  enc_key_version = pos 1;
  attributes = some (bytes "{..}");
  status = bytes "active";
  last_refreshed_at = none;
  next_refresh_after = some 9;
}

given_is_copied : persisted sdk given ≡ ok copy
unfolding persisted ensure_postgres_source persisted_credential_metadata storage_metadata merged
    with_type assign assign_all find list_beq trim_space
given_is_copied = refl

copy_is_encoded : encode sdk toy first_ring (3 ∷ 4 ∷ []) copy ≡ ok account
unfolding encode database_auth_type or_other encrypted encrypt gcm find_key fitting is_version
    row_of account_email database_auth_status public_attributes_json public_attributes keep_keys
    is_public_key nullable_text find list_beq trim_space key_version_aad
copy_is_encoded = rw marshal_copy-copy refl

account_of-given : account_of sdk toy first_ring (3 ∷ 4 ∷ []) given ≡ ok account
unfolding account_of
account_of-given = rw given_is_copied copy_is_encoded

-- An audit entry whose target is not known before the save.
abbrev pub import_entry : AuditEntry
import_entry = record {
  actor_user_id = pos 3;
  action = bytes "oauth.credential.imported";
  target_type = bytes "upstream_account";
  target_id = bytes "pending";
  details = [];
  actor_ip = none;
}

abbrev pub one_row : Tables
one_row = record {
  accounts = account ∷ [];
  revision = some 5;
  audit = record import_entry { target_id = bytes "key-1" } ∷ [];
}

abbrev pub store_of : Keyring → CoreAuthStore
store_of k = record { connection = some pool; keyring = some k }

pub given_is_saved :
    save sdk toy
      (λ s. true)
      all_up
      (store_of first_ring)
      (some given)
      (3 ∷ 4 ∷ [])
      (some import_entry)
      no_rows
    ≡ (ok (bytes "key-1"), one_row)
unfolding save save_with save_encoded save_account save_transaction settle upsert upsert_account
    is_taken meets_checks increment incremented audit_save insert_entry is_entry commit targeted
    list_beq is_version trim_space
given_is_saved = rw account_of-given refl

-- The row of the other credential, and the table before and behind the save.
abbrev second_account : Account
second_account = record account {
  id = bytes "key-2";
  email = bytes "z@b";
  credentials_enc = 3 ∷ 4 ∷ 7 ∷ bytes "second";
}

abbrev held : Tables
held = record { accounts = second_account ∷ []; revision = some 4; audit = [] }

abbrev both : Tables
both = record {
  accounts = second_account ∷ account ∷ [];
  revision = some 5;
  audit = record import_entry { target_id = bytes "key-1" } ∷ [];
}

given_is_added :
    save sdk toy
      (λ s. true)
      all_up
      (store_of first_ring)
      (some given)
      (3 ∷ 4 ∷ [])
      (some import_entry)
      held
    ≡ (ok (bytes "key-1"), both)
unfolding save save_with save_encoded save_account save_transaction settle upsert upsert_account
    is_taken meets_checks increment incremented audit_save insert_entry is_entry commit targeted
    list_beq is_version trim_space
given_is_added = rw account_of-given refl

copy-IsPlain : IsPlain (λ s. false) copy
unfolding is_utf8 IsPlainValue
copy-IsPlain = record {
  id = refl;
  provider = refl;
  label = refl;
  others = refl;
  attributes = ((refl, refl), ((refl, refl), ((refl, refl), tt)));
  metadata = ((refl, refl), ((refl, refl), ((refl, tt), tt)));
}

-- The store lists the second credential; the first goes before it, though its row is behind.
list-save_example :
    (q : Auth) × Kept sdk given q
    × (list sdk toy bytes_less (store_of rotated_ring) true both
        ≡ ok (place bytes_less q (second ∷ [])))
unfolding list list_with list_accounts list_rows list_row decrypted decoded_auth checked decrypt gcm
    find_key key_version_aad ensure_postgres_source assign list_beq order_by insert_by DistinctIds
list-save_example =
    list-save sdk toy bytes_less (λ s. false) (λ s. true) all_up pool first_ring rotated_ring given
      (3 ∷ 4 ∷ []) (some import_entry) held both (bytes "key-1") (second ∷ []) bytes_less-IsOrder
      toy-IsAead sdk-IsCodec rotation refl
      (λ p e.
        subst (IsPlain (λ s. false)) (ok_injective copy p (sym given_is_copied ∙ e)) copy-IsPlain)
      (tt, tt) refl given_is_added

save-Outcome_example :
    Outcome (account_of sdk toy first_ring (3 ∷ 4 ∷ []) given) pool (some import_entry) no_rows (
      save sdk toy
        (λ s. true)
        all_up
        (store_of first_ring)
        (some given)
        (3 ∷ 4 ∷ [])
        (some import_entry)
        no_rows)
save-Outcome_example =
    save-Outcome sdk toy (λ s. true) all_up pool first_ring given (3 ∷ 4 ∷ []) (some import_entry)
      no_rows

account_of-Public_example :
    (p : Auth) × Kept sdk given p
    × (meets_checks account ≡ true)
    × Column sdk p.attributes account.attributes
    × (account.status ≡ database_auth_status given)
account_of-Public_example =
    account_of-Public sdk toy first_ring (3 ∷ 4 ∷ []) given account account_of-given

abbrev deleted_row : Tables
deleted_row = record one_row { accounts = []; revision = some 6 }

list-delete_example :
    Deleted (trim_space (bytes "key-1 ")) one_row deleted_row
    × (list sdk toy bytes_less (store_of first_ring) true deleted_row
        ≡ ok (filter (has_other (trim_space (bytes "key-1 "))) (copy ∷ [])))
unfolding list list_with list_accounts order_by insert_by list_rows list_row decrypted decoded_auth
    checked delete delete_with delete_transaction delete_account settle increment incremented commit
    filter has_other_id list_beq trim_space decrypt gcm find_key key_version_aad
    ensure_postgres_source assign
list-delete_example =
    list-delete sdk toy bytes_less all_up pool first_ring (bytes "key-1 ") one_row deleted_row
      (copy ∷ []) bytes_less-IsOrder refl refl
