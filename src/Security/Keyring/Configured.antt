-- ===== src/Security/Keyring/Configured.antt =====
-- `NewKeyringFromBase64` of internal/security/keyring.go: the keys of a configuration.
use cliproxy_new.Base.{
  ◌≡◌, refl, sym, ap, subst, ◌∙◌, Bool, true, false, Option, none, some, List, [], ◌∷◌, ℤ, int_eq,
  if◌then◌else◌, ◌==◌, ==_iff, ==_refl, All, GoString, trim_space, parse_int, Result, ok, err,
  ◌>>=◌, >>=_inversion, Bool-cases, inl, inr, arith,
}
use cliproxy_new.Security.Keyring.{
  KeyringError, invalid_key, Decoders, Keys, find_key, Keyring, new_keyring, is_version, is_absent,
  version_of, parse_base64_key, add_previous, add_decoded, previous_keys, new_keyring_from_base64,
}
use cliproxy_new.Security.Keyring.RoundTrip.{new_keyring-Made, Made-active, Made-keys}

-- An entry of the previous keys: its version is in range, and its key is found under it.
pub Configured : Decoders → Keys → GoString × GoString → Type 0
Configured d keys (raw_version, encoded) =
    (version : ℤ) × (key : GoString) × (parse_int (trim_space raw_version) ≡ some version)
    × (is_version version ≡ true)
    × (parse_base64_key d encoded ≡ ok key)
    × (find_key keys version ≡ some key)

version_of-ok :
    (read : Option ℤ) (keys : Keys) (version : ℤ)
    → version_of read keys ≡ ok version
    → (read ≡ some version) × (is_version version ≡ true) × (find_key keys version ≡ none)
unfolding version_of is_absent
version_of-ok none keys version h = cc
version_of-ok (some v) keys version h = ground arith

find_key-cons :
    (keys : Keys) (v w : ℤ) (key more : GoString)
    → find_key keys v ≡ none
    → find_key keys w ≡ some key
    → find_key ((v, more) ∷ keys) w ≡ some key
unfolding find_key
find_key-cons keys v w key more fresh found = elim (Bool-cases (v == w)) [
  | inl same ↦ cc ((==_iff v w).0 same)
  | inr other ↦ rw other found
]

-- What the keys of a loop have to do with those it starts from.
Kept : Keys → Keys → Type 0
Kept keys after =
    (w : ℤ) (key : GoString) → find_key keys w ≡ some key → find_key after w ≡ some key

found_head : (keys : Keys) (v : ℤ) (key : GoString) → find_key ((v, key) ∷ keys) v ≡ some key
unfolding find_key
found_head keys v key = simp ==_refl refl

guarded :
    (test : Bool) (built : Result KeyringError Keyring) (k : Keyring)
    → (if test then built else err invalid_key) ≡ ok k
    → (test ≡ true) × (built ≡ ok k)
guarded true built k h = (refl, h)
guarded false built k h = cc

module _ (d : Decoders) where
  add_previous-ok :
      (entries : List (GoString × GoString)) (keys after : Keys)
      → add_previous d entries keys ≡ ok after
      → Kept keys after × All (Configured d after) entries
  unfolding add_previous Kept Configured
  add_previous-ok [] keys after h = ((λ w key found. cc), tt)
  add_previous-ok ((raw, encoded) ∷ entries) keys after h =
      let (version, e, rest) =
        >>=_inversion (version_of (parse_int (trim_space raw)) keys)
          (λ version.
            parse_base64_key d encoded >>= (λ key. add_previous d entries ((version, key) ∷ keys)))
          h in
      let (read, ranged, fresh) = version_of-ok (parse_int (trim_space raw)) keys version e in
      let (key, decoded, more) =
        >>=_inversion (parse_base64_key d encoded)
          (λ key. add_previous d entries ((version, key) ∷ keys)) rest in
      let (kept, all) = add_previous-ok entries ((version, key) ∷ keys) after more in
      (
        (λ w old found. kept w old (find_key-cons keys version w old key fresh found)),
        (
          (version, key, read, ranged, decoded, kept version key (found_head keys version key)),
          all,
        ),
      )

  -- The entries of the JSON, if there is any.
  pub previous_entries : GoString → List (GoString × GoString)
  previous_entries [] = []
  previous_entries (c ∷ json) = elim (d.decode_json (c ∷ json)) [ none ↦ [] | some es ↦ es ]

  add_decoded-ok :
      (decoded : Option (List (GoString × GoString))) (keys after : Keys)
      → add_decoded d decoded keys ≡ ok after
      → Kept keys after × All (Configured d after) (elim decoded [ none ↦ [] | some es ↦ es ])
  unfolding add_decoded
  add_decoded-ok none keys after h = cc
  add_decoded-ok (some entries) keys after h = add_previous-ok entries keys after h

  previous_keys-ok :
      (json : GoString) (keys after : Keys)
      → previous_keys d json keys ≡ ok after
      → Kept keys after × All (Configured d after) (previous_entries json)
  unfolding previous_keys previous_entries Kept
  previous_keys-ok [] keys after h = ((λ w key found. cc), tt)
  previous_keys-ok (c ∷ json) keys after h = add_decoded-ok (d.decode_json (c ∷ json)) keys after h

  -- When `NewKeyringFromBase64` succeeds, the active version is the given one and is in
  -- 1..MaxInt32; the decoded active key is found under it; and each entry of the previous keys' JSON
  -- has a version in that range, and its decoded key is found under that version.
  pub new_keyring_from_base64-Configured :
      (version : ℤ) (encoded previous_json : GoString) (k : Keyring)
      → new_keyring_from_base64 d version encoded previous_json ≡ ok k
      → (k.active_version ≡ version)
        × (is_version version ≡ true)
        × ((key : GoString) × (parse_base64_key d encoded ≡ ok key)
            × (find_key k.keys version ≡ some key))
        × All (Configured d k.keys) (previous_entries (trim_space previous_json))
  unfolding new_keyring_from_base64 Kept
  new_keyring_from_base64-Configured version encoded previous_json k h =
      let (ranged, rest) =
        guarded (is_version version)
          (parse_base64_key d encoded >>= (λ active_key.
            previous_keys d (trim_space previous_json) ((version, active_key) ∷ [])
            >>= (λ keys. new_keyring version keys)))
          k h in
      let (key, decoded, more) =
        >>=_inversion (parse_base64_key d encoded)
          (λ active_key.
            previous_keys d (trim_space previous_json) ((version, active_key) ∷ [])
            >>= (λ keys. new_keyring version keys))
          rest in
      let (keys, e, made) =
        >>=_inversion (previous_keys d (trim_space previous_json) ((version, key) ∷ []))
          (λ keys. new_keyring version keys) more in
      let (kept, all) = previous_keys-ok (trim_space previous_json) ((version, key) ∷ []) keys e in
      let stored = Made-keys version keys k (new_keyring-Made version keys k made) in
      (
        Made-active version keys k (new_keyring-Made version keys k made),
        ranged,
        (
          key,
          decoded,
          ap (λ ks. find_key ks version) stored ∙ kept version key (found_head [] version key),
        ),
        subst (λ ks. All (Configured d ks) (previous_entries (trim_space previous_json)))
            (sym stored) all,
      )
