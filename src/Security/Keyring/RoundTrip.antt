-- ===== src/Security/Keyring/RoundTrip.antt =====
-- `NewKeyring`, `Encrypt` and `Decrypt` of internal/security/keyring.go, one after the other.
use cliproxy_new.Base.{
  ◌+◌, ◌≡◌, refl, sym, ap, ap₂, ◌∙◌, Bool, true, false, not, ◌||◌, Option, none, some, [], ◌∷◌,
  ◌++◌, ℤ, int_eq, nat_eq, is_positive, length, length-append, take, drop, ltb, if◌then◌else◌, ◌==◌,
  All, GoString, Result, ok, err, ◌>>=◌, >>=_inversion, arith,
}
use cliproxy_new.Security.Keyring.{
  KeyringError, invalid_key, Aead, Keys, find_key, EncryptedValue, Keyring, copy_keys, keyring_of,
  new_keyring, cipher_key, gcm, opened, encrypt, open_value, decrypt, key_version_aad,
  aes256_key_size,
}

-- What the documentation of `cipher.AEAD` says of `Seal` and `Open`.
pub record IsAead (a : Aead) : Type 0 where
  pub opens :
      (key nonce text aad : GoString)
      → length nonce ≡ a.nonce_size
      → a.open_sealed key nonce (a.seal key nonce text aad) aad ≡ some text
  pub seal_length :
      (key nonce text aad : GoString)
      → length nonce ≡ a.nonce_size
      → length (a.seal key nonce text aad) ≡ length text + a.overhead

-- An entry with a positive version and a key of 32 bytes.
pub ValidEntry : ℤ × GoString → Type 0
ValidEntry (version, key) = (is_positive version ≡ true) × (length key ≡ 32)

copied_entry :
    (refused : Bool) (rest : Result KeyringError Keys) (entry : ℤ × GoString) (copies : Keys)
    → (if refused then err invalid_key else rest >>= (λ more. ok (entry ∷ more))) ≡ ok copies
    → (refused ≡ false) × (more : Keys) × (rest ≡ ok more) × (copies ≡ entry ∷ more)
copied_entry true rest entry copies h = cc
copied_entry false (err e) entry copies h = cc
copied_entry false (ok more) entry copies h = (refl, more, refl, cc)

accepted_entry :
    (version : ℤ) (key : GoString)
    → (not (is_positive version) || not (length key == aes256_key_size)) ≡ false
    → ValidEntry (version, key)
unfolding ValidEntry
accepted_entry version key h = ground arith

copy_keys-ok :
    (keys copies : Keys) → copy_keys keys ≡ ok copies → (copies ≡ keys) × All ValidEntry keys
unfolding copy_keys
copy_keys-ok [] copies h = (cc, tt)
copy_keys-ok ((version, key) ∷ keys) copies h =
    let (fits, more, e, same) = copied_entry _ (copy_keys keys) (version, key) copies h in
    let (equal, all) = copy_keys-ok keys more e in
    (same ∙ ap (◌∷◌ (version, key)) equal, (accepted_entry version key fits, all))

pub find_key-length :
    (keys : Keys) (version : ℤ) (key : GoString)
    → All ValidEntry keys
    → find_key keys version ≡ some key
    → length key ≡ 32
unfolding find_key ValidEntry
find_key-length [] version key all h = cc
find_key-length ((v, k) ∷ keys) version key all h =
    ground (arith, find_key-length keys version key all.1)

-- What a keyring that `NewKeyring` made is.
pub Made : ℤ → Keys → Keyring → Type 0
Made active_version keys k =
    (k.active_version ≡ active_version)
    × (k.keys ≡ keys)
    × (is_positive active_version ≡ true)
    × All ValidEntry keys
    × (key : GoString) × (find_key keys active_version ≡ some key)
    × (length key ≡ 32)

made_ok : Keyring → Result KeyringError Keyring
made_ok k = ok k

ok_injective : (j k : Keyring) → made_ok j ≡ made_ok k → j ≡ k
unfolding made_ok
ok_injective j k h = cc

keyring_of-Made :
    (v : ℤ) (positive : Bool) (found : Option GoString) (keys : Keys) (k : Keyring)
    → is_positive v ≡ positive
    → find_key keys v ≡ found
    → keyring_of v positive found keys ≡ ok k
    → Made v keys k
unfolding keyring_of Made made_ok
keyring_of-Made v false found keys k p f h = cc
keyring_of-Made v true none keys k p f h = cc
keyring_of-Made v true (some key) keys k p f h =
    let (copies, e, same) =
      >>=_inversion (copy_keys keys) (λ copies. ok (record { active_version = v; keys = copies }))
        h in
    let (equal, all) = copy_keys-ok keys copies e in
    let built = ok_injective (record { active_version = v; keys = copies }) k same in
    (
      sym (ap (λ r. r.active_version) built),
      sym (ap (λ r. r.keys) built) ∙ equal,
      p,
      all,
      key,
      f,
      find_key-length keys v key all f,
    )

pub new_keyring-Made :
    (v : ℤ) (keys : Keys) (k : Keyring) → new_keyring v keys ≡ ok k → Made v keys k
unfolding new_keyring
new_keyring-Made v keys k h = keyring_of-Made v (is_positive v) (find_key keys v) keys k refl refl h

-- A keyring gives the key of every version that it has.
gcm_of :
    (k : Keyring) (version : ℤ) (key : GoString)
    → find_key k.keys version ≡ some key
    → length key ≡ 32
    → gcm k version ≡ ok key
unfolding gcm cipher_key
gcm_of k version key f n = rw (f, n) refl

take-append : (xs ys : GoString) → take (length xs) (xs ++ ys) ≡ xs
take-append [] ys = refl
take-append (x ∷ xs) ys = ap (◌∷◌ x) (take-append xs ys)

drop-append : (xs ys : GoString) → drop (length xs) (xs ++ ys) ≡ ys
drop-append [] ys = refl
drop-append (x ∷ xs) ys = drop-append xs ys

sealed_length :
    (a : Aead)
    → IsAead a
    → (key nonce text aad : GoString) → length nonce ≡ a.nonce_size
    → ltb (length (nonce ++ a.seal key nonce text aad)) (a.nonce_size + a.overhead) ≡ false
sealed_length a aead key nonce text aad n =
    ground (
      arith,
      length-append nonce (a.seal key nonce text aad),
      aead.seal_length key nonce text aad n,
    )

sealed_opens :
    (a : Aead)
    → IsAead a
    → (version : ℤ) (key nonce text : GoString) → length nonce ≡ a.nonce_size
    → open_value a
        (record {
          key_version = version;
          ciphertext = nonce ++ a.seal key nonce text (key_version_aad version);
        })
        key
      ≡ ok text
unfolding open_value opened
sealed_opens a aead version key nonce text n =
    let aad = key_version_aad version in
    let sealed = a.seal key nonce text aad in
    rw (sealed_length a aead key nonce text aad n) (
      ap opened (
        ap₂ (λ head rest. a.open_sealed key head rest aad)
          (ap (λ m. take m (nonce ++ sealed)) (sym n) ∙ take-append nonce sealed)
          (ap (λ m. drop m (nonce ++ sealed)) (sym n) ∙ drop-append nonce sealed)
        ∙ aead.opens key nonce text aad n))

pub Made-active : (v : ℤ) (keys : Keys) (k : Keyring) → Made v keys k → k.active_version ≡ v
unfolding Made
Made-active v keys k made = made.0

pub Made-keys : (v : ℤ) (keys : Keys) (k : Keyring) → Made v keys k → k.keys ≡ keys
unfolding Made
Made-keys v keys k made = made.1

pub Made-entries : (v : ℤ) (keys : Keys) (k : Keyring) → Made v keys k → All ValidEntry keys
unfolding Made
Made-entries v keys k made = made.3

Made-gcm :
    (v : ℤ) (keys : Keys) (k : Keyring)
    → Made v keys k
    → (key : GoString) × (find_key keys v ≡ some key) × (length key ≡ 32) × (gcm k v ≡ ok key)
unfolding Made
Made-gcm v keys k (a, e, p, all, key, f, n) =
    (key, f, n, gcm_of k v key (ap (λ ks. find_key ks v) e ∙ f) n)

-- For an AEAD that opens what it seals: whatever a keyring that `NewKeyring` made encrypts, with a
-- nonce of the right size, is stored under the keyring's active version, and every keyring that
-- `NewKeyring` makes with the same key under that version, whichever version it has made active
-- since, decrypts it to the same text.
pub decrypt-encrypt :
    (a : Aead) (v w : ℤ) (keys later : Keys) (k rotated : Keyring) (nonce text : GoString)
    → IsAead a
    → new_keyring v keys ≡ ok k
    → new_keyring w later ≡ ok rotated
    → find_key later v ≡ find_key keys v
    → length nonce ≡ a.nonce_size
    → (value : EncryptedValue) × (encrypt a k nonce text ≡ ok value)
      × (value.key_version ≡ v)
      × (decrypt a rotated value ≡ ok text)
unfolding encrypt decrypt gcm Made-gcm key_version_aad
decrypt-encrypt a v w keys later k rotated nonce text aead made_k made_rotated shared n =
    let (key, f, len, g) = Made-gcm v keys k (new_keyring-Made v keys k made_k) in
    let active = Made-active v keys k (new_keyring-Made v keys k made_k) in
    let stored = Made-keys w later rotated (new_keyring-Made w later rotated made_rotated) in
    let found = ap (λ ks. find_key ks v) stored ∙ shared ∙ f in
    (
      record { key_version = v; ciphertext = nonce ++ a.seal key nonce text (key_version_aad v) },
      rw (active, g) refl,
      refl,
      rw (gcm_of rotated v key found len) (sealed_opens a aead v key nonce text n),
    )
