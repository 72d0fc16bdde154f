-- ===== src/Security/Keyring.antt =====
-- internal/security/keyring.go: the active master key, the previous versions, and AES-256-GCM with
-- the version of the key as additional data. A Go map is the list of its entries in the order in
-- which `range` comes to them. AES-GCM, base64 and JSON are parameters.
pub mod RoundTrip
pub mod Configured
pub mod Aad
use cliproxy_new.Base.{
  ℕ, ◌+◌, ◌/◌, ◌%◌, ◌^◌, ◌-◌, ◌≡◌, Bool, true, false, ◌&&◌, ◌||◌, not, Option, none, some, List, [],
  ◌∷◌, ◌++◌, ℤ, pos, negsuc, int_eq, nat_eq, is_positive, leb, ltb, length, take, drop,
  if◌then◌else◌, ◌==◌, GoString, trim_space, parse_int, Result, ok, err, ◌>>=◌,
}

abbrev pub aes256_key_size : ℕ
aes256_key_size = 32

-- `cipher_failure` is an error of `aes.NewCipher`.
pub data KeyringError : Type 0 where
  invalid_key unknown_key_version invalid_ciphertext cipher_failure : KeyringError

-- The size of the nonce and the overhead of a `cipher.AEAD`, and its `Seal` and `Open` under a key:
-- of the nonce, the text and the additional data.
pub record Aead : Type 0 where
  pub nonce_size : ℕ
  pub overhead : ℕ
  pub seal : GoString → GoString → GoString → GoString → GoString
  pub open_sealed : GoString → GoString → GoString → GoString → Option GoString

-- `base64.StdEncoding.DecodeString`, and `json.Unmarshal` into a `map[string]string`.
pub record Decoders : Type 0 where
  pub decode_base64 : GoString → Option GoString
  pub decode_json : GoString → Option (List (GoString × GoString))

abbrev pub Keys : Type 0
Keys = List (ℤ × GoString)

-- `keys[version]`
unfoldable pub find_key : Keys → ℤ → Option GoString
find_key [] version = none
find_key ((v, key) ∷ keys) version = if v == version then some key else find_key keys version

pub record EncryptedValue : Type 0 where
  pub key_version : ℤ
  pub ciphertext : GoString

pub record Keyring : Type 0 where
  pub active_version : ℤ
  pub keys : Keys

unfoldable pub copy_keys : Keys → Result KeyringError Keys
copy_keys [] = ok []
copy_keys ((version, key) ∷ keys) =
    let rest = copy_keys keys in
    if not (is_positive version) || not (length key == aes256_key_size)
    then err invalid_key
    else rest >>= (λ copies. ok ((version, key) ∷ copies))

-- `NewKeyring`, by the test of the version and the lookup of its key.
keyring_of : ℤ → Bool → Option GoString → Keys → Result KeyringError Keyring
unfolding copy_keys
keyring_of active_version false active_key keys = err invalid_key
keyring_of active_version true none keys = err unknown_key_version
keyring_of active_version true (some key) keys = do
  copies ← copy_keys keys
  ok (record { active_version = active_version; keys = copies })

unfoldable pub new_keyring : ℤ → Keys → Result KeyringError Keyring
unfolding keyring_of find_key
new_keyring active_version keys =
    keyring_of active_version (is_positive active_version) (find_key keys active_version) keys

-- `0 < version` and `version <= math.MaxInt32`.
unfoldable pub is_version : ℤ → Bool
is_version (pos n) = ltb 0 n && leb n 2_147_483_647
is_version (negsuc n) = false

sized_key : Option GoString → Result KeyringError GoString
sized_key none = err invalid_key
sized_key (some key) = if length key == aes256_key_size then ok key else err invalid_key

is_absent : Option GoString → Bool
is_absent none = true
is_absent (some key) = false

-- A previous version, as `strconv.Atoi` reads it: in range and not yet among the keys.
version_of : Option ℤ → Keys → Result KeyringError ℤ
unfolding is_absent is_version find_key
version_of none keys = err invalid_key
version_of (some version) keys =
    if is_version version && is_absent (find_key keys version) then ok version else err invalid_key

module _ (d : Decoders) where
  unfoldable pub parse_base64_key : GoString → Result KeyringError GoString
  unfolding sized_key
  parse_base64_key encoded = sized_key (d.decode_base64 (trim_space encoded))

  -- The loop over the decoded JSON.
  unfoldable pub add_previous : List (GoString × GoString) → Keys → Result KeyringError Keys
  unfolding version_of
  add_previous [] keys = ok keys
  add_previous ((raw_version, encoded) ∷ entries) keys = do
    version ← version_of (parse_int (trim_space raw_version)) keys
    key ← parse_base64_key encoded
    add_previous entries ((version, key) ∷ keys)

  add_decoded : Option (List (GoString × GoString)) → Keys → Result KeyringError Keys
  unfolding add_previous
  add_decoded none keys = err invalid_key
  add_decoded (some entries) keys = add_previous entries keys

  previous_keys : GoString → Keys → Result KeyringError Keys
  unfolding add_decoded
  previous_keys [] keys = ok keys
  previous_keys (c ∷ json) keys = add_decoded (d.decode_json (c ∷ json)) keys

  unfoldable pub new_keyring_from_base64 : ℤ → GoString → GoString → Result KeyringError Keyring
  unfolding previous_keys
  new_keyring_from_base64 active_version active_encoded previous_json =
      if is_version active_version
      then (do
        active_key ← parse_base64_key active_encoded
        keys ← previous_keys (trim_space previous_json) ((active_version, active_key) ∷ [])
        new_keyring active_version keys)
      else err invalid_key

-- `uint64(version)` of an `int`.
to_uint64 : ℤ → ℕ
to_uint64 (pos n) = n % 2 ^ 64
to_uint64 (negsuc n) = (2 ^ 64 - 1) - n % 2 ^ 64

-- `binary.BigEndian.PutUint64`
big_endian : ℕ → GoString
big_endian n =
    (n / 2 ^ 56) % 256
    ∷ (n / 2 ^ 48) % 256
    ∷ (n / 2 ^ 40) % 256
    ∷ (n / 2 ^ 32) % 256
    ∷ (n / 2 ^ 24) % 256
    ∷ (n / 2 ^ 16) % 256
    ∷ (n / 2 ^ 8) % 256
    ∷ n % 256
    ∷ []

unfoldable pub key_version_aad : ℤ → GoString
unfolding to_uint64 big_endian
key_version_aad version = big_endian (to_uint64 version)

-- `aes.NewCipher` takes a key of 16, 24 or 32 bytes.
cipher_key : Option GoString → Result KeyringError GoString
cipher_key none = err unknown_key_version
cipher_key (some key) =
    if (length key == 16) || (length key == 24) || (length key == 32)
    then ok key
    else err cipher_failure

-- `gcm`: the key that the AEAD is made from.
unfoldable pub gcm : Keyring → ℤ → Result KeyringError GoString
unfolding cipher_key
gcm k version = cipher_key (find_key k.keys version)

opened : Option GoString → Result KeyringError GoString
opened none = err invalid_ciphertext
opened (some plaintext) = ok plaintext

module _ (a : Aead) where
  -- The nonce is what `rand.Read` gives; since Go 1.24 it does not fail.
  unfoldable pub encrypt : Keyring → GoString → GoString → Result KeyringError EncryptedValue
  encrypt k nonce plaintext = do
    key ← gcm k k.active_version
    ok (record {
      key_version = k.active_version;
      ciphertext = nonce ++ a.seal key nonce plaintext (key_version_aad k.active_version);
    })

  open_value : EncryptedValue → GoString → Result KeyringError GoString
  unfolding opened
  open_value value key =
      if ltb (length value.ciphertext) (a.nonce_size + a.overhead)
      then err invalid_ciphertext
      else opened (
          a.open_sealed key (take a.nonce_size value.ciphertext)
            (drop a.nonce_size value.ciphertext) (key_version_aad value.key_version))

  unfoldable pub decrypt : Keyring → EncryptedValue → Result KeyringError GoString
  unfolding open_value
  decrypt k value = do key ← gcm k value.key_version; open_value value key
