-- ===== src/Store/CoreAuth/Encoding.antt =====
-- How `Save` of internal/store/coreauth_store.go makes a row of a credential that it writes.
use cliproxy_new.Base.{
  ◌≡◌, refl, sym, ap, ◌∙◌, subst, true, Bool-cases, inl, inr, Option, none, some, list_eq, nat_eq,
  int_eq, GoString, Result, ok, err, >>=_inversion, ok_injective,
}
use cliproxy_new.Store.{invalid_input}
use cliproxy_new.Security.Keyring.{KeyringError, Aead, EncryptedValue, Keyring, encrypt, is_version}
use cliproxy_new.Store.CoreAuth.{
  Sdk, Auth, Account, persisted, or_other, encrypted, fitting, encode, row_of, account_of,
  database_auth_type, database_auth_status, public_attributes_json,
}

-- A row that is encrypted under a version that the rotated keyring has the key of.
pub record Encoded (sdk : Sdk) (aead : Aead) (k : Keyring) (nonce : GoString) (p : Auth)
    (r : Account) : Type 0 where
  pub id : r.id ≡ p.id
  pub provider : r.provider ≡ p.provider
  pub plaintext : GoString
  pub marshalled : sdk.marshal p ≡ some plaintext
  pub sealed :
      encrypt aead k nonce plaintext
      ≡ ok (record { key_version = r.enc_key_version; ciphertext = r.credentials_enc })
  pub version : is_version r.enc_key_version ≡ true
  pub kind : database_auth_type (sdk.auth_kind p) ≡ ok r.auth_type
  pub status : r.status ≡ database_auth_status p
  pub public : public_attributes_json sdk p.attributes ≡ ok r.attributes

marshalled_text : (o : Option GoString) (s : GoString) → or_other o ≡ ok s → o ≡ some s
unfolding or_other
marshalled_text none s h = cc
marshalled_text (some s') s h = ap some (ok_injective s' s h)

sealed_value :
    (o : Result KeyringError EncryptedValue) (v : EncryptedValue) → encrypted o ≡ ok v → o ≡ ok v
unfolding encrypted
sealed_value (err e) v h = cc
sealed_value (ok v') v h = ap ok (ok_injective v' v h)

fitting_value :
    (v w : EncryptedValue) → fitting v ≡ ok w → (v ≡ w) × (is_version w.key_version ≡ true)
unfolding fitting
fitting_value v w h = elim (Bool-cases (is_version v.key_version)) [
  | inl e ↦
      let same = ok_injective v w (rw e at h) in
      (same, sym (ap (λ u. is_version u.key_version) same) ∙ e)
  | inr e ↦ let refused : err invalid_input ≡ ok w = rw e at h in cc
]

Encoded-row_of :
    (sdk : Sdk) (aead : Aead) (k : Keyring) (nonce : GoString) (p : Auth)
    (plaintext kind : GoString) (value fit : EncryptedValue) (attributes : Option GoString)
    → or_other (sdk.marshal p) ≡ ok plaintext
    → encrypted (encrypt aead k nonce plaintext) ≡ ok value
    → fitting value ≡ ok fit
    → database_auth_type (sdk.auth_kind p) ≡ ok kind
    → public_attributes_json sdk p.attributes ≡ ok attributes
    → Encoded sdk aead k nonce p (row_of p kind fit attributes)
unfolding row_of
Encoded-row_of sdk aead k nonce p plaintext kind value fit attributes coded sealed fits typed
      public =
    let (same, version) = fitting_value value fit fits in
    record {
      id = refl;
      provider = refl;
      plaintext = plaintext;
      marshalled = marshalled_text (sdk.marshal p) plaintext coded;
      sealed = sealed_value (encrypt aead k nonce plaintext) value sealed ∙ ap ok same;
      version = version;
      kind = typed;
      status = refl;
      public = public;
    }

encode-Encoded :
    (sdk : Sdk) (aead : Aead) (k : Keyring) (nonce : GoString) (p : Auth) (r : Account)
    → encode sdk aead k nonce p ≡ ok r
    → Encoded sdk aead k nonce p r
unfolding encode
encode-Encoded sdk aead k nonce p r h =
    let (kind, typed, h2) = >>=_inversion (database_auth_type (sdk.auth_kind p)) _ h in
    let (plaintext, coded, h3) = >>=_inversion (or_other (sdk.marshal p)) _ h2 in
    let (value, sealed, h4) = >>=_inversion (encrypted (encrypt aead k nonce plaintext)) _ h3 in
    let (fit, fits, h5) = >>=_inversion (fitting value) _ h4 in
    let (attributes, public, h6) = >>=_inversion (public_attributes_json sdk p.attributes) _ h5 in
    let same = ok_injective (row_of p kind fit attributes) r h6 in
    subst (Encoded sdk aead k nonce p) same (
      Encoded-row_of sdk aead k nonce p plaintext kind value fit attributes coded sealed fits typed
        public)

pub account_of-Encoded :
    (sdk : Sdk) (aead : Aead) (k : Keyring) (nonce : GoString) (a : Auth) (r : Account)
    → account_of sdk aead k nonce a ≡ ok r
    → (p : Auth) × (persisted sdk a ≡ ok p) × Encoded sdk aead k nonce p r
unfolding account_of
account_of-Encoded sdk aead k nonce a r h =
    let (p, kept, coded) = >>=_inversion (persisted sdk a) (encode sdk aead k nonce) h in
    (p, kept, encode-Encoded sdk aead k nonce p r coded)
