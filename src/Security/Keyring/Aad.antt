-- ===== src/Security/Keyring/Aad.antt =====
-- `keyVersionAAD` and the results of `Decrypt`, of internal/security/keyring.go.
use cliproxy_new.Base.{
  ℕ, ◌+◌, ◌*◌, ◌^◌, ◌<◌, ◌≤◌, ◌≡◌, refl, sym, ap, ltb→lt, All, ◌⊎◌, ◌∙◌, false, Option, none, some,
  [], ◌∷◌, ℤ, pos, negsuc, length, take, drop, ltb, GoString, Result, ok, err, ◌>>=◌, arith,
  Bool-cases, inl, inr,
}
use cliproxy_new.Security.Keyring.{
  KeyringError, invalid_key, unknown_key_version, invalid_ciphertext, cipher_failure, Aead, Keys,
  find_key, EncryptedValue, Keyring, cipher_key, gcm, opened, open_value, decrypt, new_keyring,
  to_uint64, big_endian, key_version_aad,
}
use cliproxy_new.Security.Keyring.RoundTrip.{
  ValidEntry, find_key-length, new_keyring-Made, Made-keys, Made-entries,
}

-- The bytes, most significant first, as a number.
of_bytes : ℕ → GoString → ℕ
of_bytes n [] = n
of_bytes n (b ∷ bs) = of_bytes (256 * n + b) bs

of_bytes-big_endian : (n : ℕ) → n < 2 ^ 64 → of_bytes 0 (big_endian n) ≡ n
unfolding of_bytes big_endian
of_bytes-big_endian n b = omega arith

-- The range of an `int` of 64 bits.
pub IsInt64 : ℤ → Type 0
IsInt64 (pos n) = n < 2 ^ 63
IsInt64 (negsuc n) = n < 2 ^ 63

to_uint64-bound : (v : ℤ) → IsInt64 v → to_uint64 v < 2 ^ 64
unfolding to_uint64 IsInt64
to_uint64-bound (pos n) b = omega arith
to_uint64-bound (negsuc n) b = omega arith

to_uint64-injective : (v w : ℤ) → IsInt64 v → IsInt64 w → to_uint64 v ≡ to_uint64 w → v ≡ w
unfolding to_uint64 IsInt64
to_uint64-injective (pos n) (pos m) a b e = ap pos (omega arith)
to_uint64-injective (negsuc n) (negsuc m) a b e = ap negsuc (omega arith)
to_uint64-injective (pos n) (negsuc m) a b e = ground arith
to_uint64-injective (negsuc n) (pos m) a b e = ground arith

-- Two versions in the range of a 64-bit `int` that have the same additional data are the same.
pub key_version_aad-injective :
    (v w : ℤ) → IsInt64 v → IsInt64 w → key_version_aad v ≡ key_version_aad w → v ≡ w
unfolding key_version_aad
key_version_aad-injective v w a b e = to_uint64-injective v w a b (
    sym (of_bytes-big_endian (to_uint64 v) (to_uint64-bound v a))
    ∙ ap (of_bytes 0) e
    ∙ of_bytes-big_endian (to_uint64 w) (to_uint64-bound w b))

-- `Open` as `Decrypt` calls it.
pub opening : Aead → EncryptedValue → GoString → Option GoString
opening a value key =
    a.open_sealed key (take a.nonce_size value.ciphertext) (drop a.nonce_size value.ciphertext)
      (key_version_aad value.key_version)

-- The ways in which a decryption ends.
pub Verdict : Aead → Keys → EncryptedValue → Result KeyringError GoString → Type 0
Verdict a keys value (ok text) =
    (key : GoString) × (find_key keys value.key_version ≡ some key)
    × (a.nonce_size + a.overhead ≤ length value.ciphertext)
    × (opening a value key ≡ some text)
Verdict a keys value (err unknown_key_version) = find_key keys value.key_version ≡ none
Verdict a keys value (err invalid_ciphertext) =
    (key : GoString) × (find_key keys value.key_version ≡ some key)
    × ((length value.ciphertext < a.nonce_size + a.overhead) ⊎ (opening a value key ≡ none))
Verdict a keys value (err invalid_key) = ⊥
Verdict a keys value (err cipher_failure) = ⊥

ltb-false : (m n : ℕ) → ltb m n ≡ false → n ≤ m
ltb-false m n h = ground arith

opened-Verdict :
    (a : Aead) (keys : Keys) (value : EncryptedValue) (key : GoString) (o : Option GoString)
    → find_key keys value.key_version ≡ some key
    → a.nonce_size + a.overhead ≤ length value.ciphertext
    → opening a value key ≡ o
    → Verdict a keys value (opened o)
unfolding opened Verdict
opened-Verdict a keys value key none f n e = (key, f, inr e)
opened-Verdict a keys value key (some text) f n e = (key, f, n, e)

open_value-Verdict :
    (a : Aead) (keys : Keys) (value : EncryptedValue) (key : GoString)
    → find_key keys value.key_version ≡ some key
    → Verdict a keys value (open_value a value key)
unfolding open_value opening Verdict
open_value-Verdict a keys value key f =
    elim (Bool-cases (ltb (length value.ciphertext) (a.nonce_size + a.overhead))) [
      | inl short ↦
          rw short
            (key, f, inl (ltb→lt (length value.ciphertext) (a.nonce_size + a.overhead) short))
      | inr enough ↦ rw enough (
          opened-Verdict a keys value key (opening a value key) f
            (ltb-false (length value.ciphertext) (a.nonce_size + a.overhead) enough) refl)
    ]

keyed-Verdict :
    (a : Aead) (keys : Keys) (value : EncryptedValue) (o : Option GoString)
    → find_key keys value.key_version ≡ o
    → All ValidEntry keys
    → Verdict a keys value (cipher_key o >>= open_value a value)
unfolding cipher_key Verdict
keyed-Verdict a keys value none f all = f
keyed-Verdict a keys value (some key) f all =
    rw (find_key-length keys value.key_version key all f) (open_value-Verdict a keys value key f)

-- What `Decrypt` of a keyring that `NewKeyring` made returns: a text only if the value's version
-- has a key, the ciphertext is long enough and `Open` gives that text; the error of an
-- unknown version only if the version has no key; the error of a bad ciphertext only if it has one
-- and the ciphertext is too short or is not opened; and no other error.
pub decrypt-Verdict :
    (a : Aead) (v : ℤ) (keys : Keys) (k : Keyring) (value : EncryptedValue)
    → new_keyring v keys ≡ ok k
    → Verdict a keys value (decrypt a k value)
unfolding decrypt gcm
decrypt-Verdict a v keys k value h =
    let made = new_keyring-Made v keys k h in
    rw (Made-keys v keys k made) (
      keyed-Verdict a keys value (find_key keys value.key_version) refl
        (Made-entries v keys k made))
