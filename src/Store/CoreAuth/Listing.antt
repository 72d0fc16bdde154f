-- ===== src/Store/CoreAuth/Listing.antt =====
-- `Save`, `Delete` and `List` of internal/store/coreauth_store.go against an abstract store: the
-- list of the credentials that are kept, by id.
use cliproxy_new.Base.{
  ◌≡◌, refl, sym, ap, ◌∙◌, Bool, true, Option, some, List, ℤ, length, list_eq, nat_eq, filter,
  ==_iff, GoString, ok, ok_injective, IsOrder, insert_by, order_by, order_by-filter,
}
use cliproxy_new.Store.OauthSessions.{AuditEntry}
use cliproxy_new.Security.Keyring.{
  Aead, Keys, EncryptedValue, Keyring, encrypt, decrypt, find_key, new_keyring,
}
use cliproxy_new.Security.Keyring.RoundTrip.{IsAead, decrypt-encrypt}
use cliproxy_new.Store.CoreAuth.{Sdk, Auth, Account, account_of, persisted}
use cliproxy_new.Store.CoreAuth.Tables.{
  Tables, Answers, Connection, list_row, list_rows, checked, decoded_auth, decrypted, has_other_id,
  save, list, list_with, list_accounts,
}
use cliproxy_new.Store.CoreAuth.Transactions.{save-Outcome, saved_row}
use cliproxy_new.Store.CoreAuth.Encoding.{Encoded, account_of-Encoded}
use cliproxy_new.Store.CoreAuth.Contents.{
  Kept, IsPlain, IsCodec, relisted, relisted-Kept, persisted-Kept,
}
use cliproxy_new.Store.CoreAuth.Places.{
  has_other, list_row-id, list_rows-insert_by, DistinctIds, order_by-upsert, list_rows-delete,
}

-- The keyring that lists was made with the key that the keyring that saves has active.
pub record Rotated (k rotated : Keyring) : Type 0 where
  pub version : ℤ
  pub later_version : ℤ
  pub keys : Keys
  pub later : Keys
  pub made : new_keyring version keys ≡ ok k
  pub remade : new_keyring later_version later ≡ ok rotated
  pub shared : find_key later version ≡ find_key keys version

-- The abstract store, a list by id: the credential goes to its place among those of other ids.
pub place : (GoString → GoString → Bool) → Auth → List Auth → List Auth
unfolding has_other
place less p auths = insert_by less (λ a. a.id) p (filter (has_other p.id) auths)

-- The checks of `List` pass a copy that is kept.
checked_copy :
    (sdk : Sdk) (b : Auth) (r : Account)
    → b.id ≡ r.id
    → b.provider ≡ r.provider
    → checked sdk r b ≡ ok (relisted sdk b)
unfolding checked
checked_copy sdk b r id provider =
    rw ((==_iff b.id r.id).1 id, (==_iff b.provider r.provider).1 provider) refl

decrypted_row :
    (aead : Aead) (k rotated : Keyring) (nonce text : GoString) (value : EncryptedValue)
    → IsAead aead
    → Rotated k rotated
    → length nonce ≡ aead.nonce_size
    → encrypt aead k nonce text ≡ ok value
    → decrypt aead rotated value ≡ ok text
decrypted_row aead k rotated nonce text value lawful r n e =
    let (value', e', _, back) =
      decrypt-encrypt aead r.version r.later_version r.keys r.later k rotated nonce text lawful
        r.made r.remade r.shared n in
    ap (decrypt aead rotated) (ok_injective value value' (sym e ∙ e')) ∙ back

-- A row reads back as what was written into it.
read_back :
    (sdk : Sdk) (aead : Aead) (k rotated : Keyring) (nonce : GoString) (a p : Auth) (r : Account)
    (canonical : GoString → Bool)
    → IsAead aead
    → IsCodec sdk canonical
    → Rotated k rotated
    → length nonce ≡ aead.nonce_size
    → IsPlain canonical p
    → Kept sdk a p
    → Encoded sdk aead k nonce p r
    → (q : Auth) × Kept sdk a q × (list_row sdk aead rotated r ≡ ok q)
unfolding list_row decoded_auth decrypted
read_back sdk aead k rotated nonce a p r canonical lawful codec rot n plain kept e =
    let (b, decoded, same) = codec.decodes p e.plaintext plain e.marshalled in
    (
      relisted sdk b,
      relisted-Kept sdk a p b kept same,
      rw (decrypted_row aead k rotated nonce e.plaintext _ lawful rot n e.sealed, decoded)
          (checked_copy sdk b r (same.id ∙ sym e.id) (same.provider ∙ sym e.provider)),
    )

-- For an order of texts, an AEAD that opens what it seals, and a codec that reads what it writes of
-- credentials that JSON keeps: if a store whose rows have distinct ids lists `auths`, and a
-- credential is saved of which such a copy is written, under whichever key version was then active,
-- then a store with that key lists the credentials of `auths` with other ids and a copy of the saved
-- one, in the place that its id has in the order. The copy is kept as `Kept` says.
pub list-save :
    (sdk : Sdk) (aead : Aead) (less : GoString → GoString → Bool) (canonical : GoString → Bool)
    (valid_json : GoString → Bool) (answers : Answers) (c : Connection) (k rotated : Keyring)
    (a : Auth) (nonce : GoString) (audit : Option AuditEntry) (t after : Tables) (id : GoString)
    (auths : List Auth)
    → IsOrder less
    → IsAead aead
    → IsCodec sdk canonical
    → Rotated k rotated
    → length nonce ≡ aead.nonce_size
    → ((p : Auth) → persisted sdk a ≡ ok p → IsPlain canonical p)
    → DistinctIds t.accounts
    → list sdk aead less (record { connection = some c; keyring = some rotated }) true t ≡ ok auths
    → save sdk aead valid_json answers
        (record { connection = some c; keyring = some k })
        (some a)
        nonce
        audit
        t
      ≡ (ok id, after)
    → (q : Auth) × Kept sdk a q
      × (list sdk aead less (record { connection = some c; keyring = some rotated }) true after
          ≡ ok (place less q auths))
unfolding list list_with list_accounts place
list-save sdk aead less canonical valid_json answers c k rotated a nonce audit t after id auths
      order lawful codec rot n plain distinct listed saved =
    let (r, encoded, accounts) =
      saved_row (account_of sdk aead k nonce a) c audit t after id _
        (save-Outcome sdk aead valid_json answers c k a nonce audit t) saved in
    let (p, copied, row) = account_of-Encoded sdk aead k nonce a r encoded in
    let (q, kept, back) =
      read_back sdk aead k rotated nonce a p r canonical lawful codec rot n (plain p copied)
        (persisted-Kept sdk a p copied) row in
    let named : r.id ≡ q.id = sym (list_row-id sdk aead rotated r q back) in
    (
      q,
      kept,
      ap (λ rs. list_rows sdk aead rotated (order_by less (λ x. x.id) rs)) accounts
          ∙ ap (list_rows sdk aead rotated) (
              order_by-upsert less r t.accounts order distinct
              ∙ ap (insert_by less (λ x. x.id) r)
                  (order_by-filter less (λ x. x.id) order (has_other_id r.id) t.accounts))
          ∙ list_rows-insert_by sdk aead rotated less r q
              (filter (has_other_id r.id) (order_by less (λ x. x.id) t.accounts))
              (filter (has_other r.id) auths) back
              (list_rows-delete sdk aead rotated r.id (order_by less (λ x. x.id) t.accounts) auths
                listed)
          ∙ ap (λ i. ok (insert_by less (λ x. x.id) q (filter (has_other i) auths))) named,
    )
