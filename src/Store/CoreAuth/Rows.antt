-- ===== src/Store/CoreAuth/Rows.antt =====
-- What a row of `Save` in internal/store/coreauth_store.go holds in the clear.
use cliproxy_new.Base.{
  ◌≡◌, refl, sym, ap, ◌∙◌, subst, Bool, true, false, ◌||◌, Option, none, some, [], ◌∷◌, list_eq,
  list_beq, nat_eq, find, find-keep_keys, if◌then◌else◌, ◌==◌, GoString, bytes, ok, >>=_inversion,
  ok_injective,
}
use cliproxy_new.Security.Keyring.{Aead, Keyring, is_version}
use cliproxy_new.Store.CoreAuth.{
  Sdk, Auth, Account, AuthKind, oauth, api_key, unknown_kind, or_other, account_of,
  database_auth_type, database_auth_status, public_attributes, public_attributes_json,
  marshal_public, Attributes, is_public_key,
}
use cliproxy_new.Store.CoreAuth.Tables.{meets_checks}
use cliproxy_new.Store.CoreAuth.Contents.{Kept, persisted-Kept}
use cliproxy_new.Store.CoreAuth.Encoding.{account_of-Encoded}

-- The attributes that stand in the clear are those of the allow-list and no other, as they are.
pub record Public (sdk : Sdk) (attributes : Attributes) (column : GoString) : Type 0 where
  pub shown : Attributes
  pub encoded : sdk.marshal_attributes shown ≡ some column
  pub listed : (key : GoString) → is_public_key key ≡ true → find shown key ≡ find attributes key
  pub secret : (key : GoString) → is_public_key key ≡ false → find shown key ≡ none

-- The column, null if no attribute is to be shown.
abbrev pub Column : Sdk → Attributes → Option GoString → Type 0
Column sdk attributes none =
    (key : GoString) → is_public_key key ≡ true → find attributes key ≡ none
Column sdk attributes (some column) = Public sdk attributes column

marshalled_column : (o : Option GoString) (s : GoString) → or_other o ≡ ok s → o ≡ some s
unfolding or_other
marshalled_column none s h = cc
marshalled_column (some s') s h = ap some (ok_injective s' s h)

-- The entries that are shown, as the filter makes them.
Filtered : Attributes → Attributes → Type 0
Filtered attributes shown =
    (key : GoString) → find shown key ≡ (if is_public_key key then find attributes key else none)

filtered : (attributes : Attributes) → Filtered attributes (public_attributes attributes)
unfolding public_attributes Filtered
filtered attributes key = find-keep_keys is_public_key attributes key

marshal_public-Column :
    (sdk : Sdk) (attributes shown : Attributes) (column : Option GoString)
    → Filtered attributes shown
    → marshal_public sdk shown ≡ ok column
    → Column sdk attributes column
unfolding marshal_public Filtered find
marshal_public-Column sdk attributes [] column f h =
    subst (Column sdk attributes) (ok_injective none column h) (λ key p. sym (f key ∙ rw p refl))
marshal_public-Column sdk attributes (e ∷ shown) column f h =
    let (s, coded, same) = >>=_inversion (or_other (sdk.marshal_attributes (e ∷ shown))) _ h in
    subst (Column sdk attributes) (ok_injective (some s) column same) (record {
      shown = e ∷ shown;
      encoded = marshalled_column (sdk.marshal_attributes (e ∷ shown)) s coded;
      listed = λ key p. f key ∙ rw p refl;
      secret = λ key p. f key ∙ rw p refl;
    })

public_attributes_json-Column :
    (sdk : Sdk) (attributes : Attributes) (column : Option GoString)
    → public_attributes_json sdk attributes ≡ ok column
    → Column sdk attributes column
unfolding public_attributes_json
public_attributes_json-Column sdk attributes column h =
    marshal_public-Column sdk attributes (public_attributes attributes) column (filtered attributes)
      h

kind_text :
    (kind : AuthKind) (s : GoString)
    → database_auth_type kind ≡ ok s
    → (s == bytes "oauth" || s == bytes "api-key") ≡ true
unfolding database_auth_type list_beq
kind_text oauth s h = rw (← ok_injective (bytes "oauth") s h) refl
kind_text api_key s h = rw (← ok_injective (bytes "api-key") s h) refl
kind_text unknown_kind s h = cc

abbrev is_status : GoString → Bool
is_status s = s == bytes "active" || s == bytes "disabled" || s == bytes "unavailable"

status_cases :
    (disabled unavailable : Bool)
    → is_status (
        if disabled
        then bytes "disabled"
        else if unavailable
        then bytes "unavailable"
        else bytes "active")
      ≡ true
unfolding list_beq
status_cases true unavailable = refl
status_cases false true = refl
status_cases false false = refl

status_text : (a : Auth) → is_status (database_auth_status a) ≡ true
unfolding database_auth_status
status_text a = status_cases _ _

status_of_copy :
    (sdk : Sdk) (a p : Auth) → Kept sdk a p → database_auth_status p ≡ database_auth_status a
unfolding database_auth_status
status_of_copy sdk a p k = rw (k.disabled, k.unavailable, k.status) refl

checks_met :
    (r : Account) (kind version status : Bool)
    → (r.auth_type == bytes "oauth" || r.auth_type == bytes "api-key") ≡ kind
    → is_version r.enc_key_version ≡ version
    → is_status r.status ≡ status
    → kind ≡ true
    → version ≡ true
    → status ≡ true
    → meets_checks r ≡ true
unfolding meets_checks
checks_met r kind version status k v s k' v' s' = rw (k ∙ k', v ∙ v', s ∙ s') refl

-- A credential that is encoded for the table, with the copy `p` of it that is encrypted: the row
-- meets every CHECK of the table, it shows in the clear no attribute but those of the allow-list,
-- those as they are, and none at all if there is none, and its status is that of the credential.
pub account_of-Public :
    (sdk : Sdk) (aead : Aead) (k : Keyring) (nonce : GoString) (a : Auth) (r : Account)
    → account_of sdk aead k nonce a ≡ ok r
    → (p : Auth) × Kept sdk a p
      × (meets_checks r ≡ true)
      × Column sdk p.attributes r.attributes
      × (r.status ≡ database_auth_status a)
account_of-Public sdk aead k nonce a r h =
    let (p, copied, row) = account_of-Encoded sdk aead k nonce a r h in
    let kept = persisted-Kept sdk a p copied in
    (
      p,
      kept,
      checks_met r _ _ _ refl refl refl (kind_text (sdk.auth_kind p) r.auth_type row.kind)
          row.version (ap is_status row.status ∙ status_text p),
      public_attributes_json-Column sdk p.attributes r.attributes row.public,
      row.status ∙ status_of_copy sdk a p kept,
    )
