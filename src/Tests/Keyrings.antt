-- ===== src/Tests/Keyrings.antt =====
-- Runs of internal/security/keyring.go, with a toy cipher: a tag of one byte before the text. Its
-- hypotheses hold, which is all that the theorems ask of it.
use mathlib.Core.Option
use cliproxy_new.Base.{
  ℕ, ◌≡◌, refl, true, Option, none, some, [], ◌∷◌, pos, int_eq, nat_eq, list_eq, ◌==◌,
  if◌then◌else◌, GoString, bytes, All, ok, arith, trim_space, list_beq, parse_int,
}
use cliproxy_new.Security.Keyring.{
  Aead, Decoders, Keys, find_key, copy_keys, EncryptedValue, Keyring, new_keyring, encrypt, decrypt,
  is_version, parse_base64_key, new_keyring_from_base64, add_previous,
}
use cliproxy_new.Security.Keyring.RoundTrip.{IsAead, decrypt-encrypt}
use cliproxy_new.Security.Keyring.Configured.{
  Configured, previous_entries, new_keyring_from_base64-Configured,
}
use cliproxy_new.Security.Keyring.Aad.{Verdict, decrypt-Verdict}

-- The text behind a tag of one byte; the tag is not checked.
abbrev pub untagged : GoString → Option GoString
untagged [] = none
untagged (tag ∷ text) = some text

abbrev pub toy : Aead
toy = record {
  nonce_size = 2;
  overhead = 1;
  seal = λ key nonce text aad. 7 ∷ text;
  open_sealed = λ key nonce sealed aad. untagged sealed;
}

pub toy-IsAead : IsAead toy
toy-IsAead = record {
  opens = λ key nonce text aad n. refl;
  seal_length = λ key nonce text aad n. omega arith;
}

abbrev pub thirty_two : ℕ → GoString
thirty_two b =
    b ∷ b ∷ b ∷ b ∷ b ∷ b ∷ b ∷ b ∷ b ∷ b ∷ b ∷ b ∷ b ∷ b ∷ b ∷ b ∷ b ∷ b ∷ b ∷ b ∷ b ∷ b ∷ b ∷ b
    ∷ b ∷ b ∷ b ∷ b ∷ b ∷ b ∷ b ∷ b ∷ []

-- Version 1 is active, then version 2.
abbrev pub first_keys : Keys
first_keys = (pos 1, thirty_two 9) ∷ []

abbrev pub rotated_keys : Keys
rotated_keys = (pos 2, thirty_two 8) ∷ (pos 1, thirty_two 9) ∷ []

abbrev pub first_ring : Keyring
first_ring = record { active_version = pos 1; keys = first_keys }

abbrev pub rotated_ring : Keyring
rotated_ring = record { active_version = pos 2; keys = rotated_keys }

decrypt-encrypt_example :
    (value : EncryptedValue) × (encrypt toy first_ring (3 ∷ 4 ∷ []) (bytes "token") ≡ ok value)
    × (value.key_version ≡ pos 1)
    × (decrypt toy rotated_ring value ≡ ok (bytes "token"))
unfolding new_keyring copy_keys find_key
decrypt-encrypt_example =
    decrypt-encrypt toy (pos 1) (pos 2) first_keys rotated_keys first_ring rotated_ring (3 ∷ 4 ∷ [])
      (bytes "token") toy-IsAead refl refl refl refl

abbrev lost : EncryptedValue
lost = record { key_version = pos 2; ciphertext = bytes "nntagtext" }

decrypt-Verdict_example : Verdict toy first_keys lost (decrypt toy first_ring lost)
unfolding new_keyring copy_keys find_key
decrypt-Verdict_example = decrypt-Verdict toy (pos 1) first_keys first_ring lost refl

-- Decoders that know two encoded keys and one JSON text.
abbrev decoders : Decoders
decoders = record {
  decode_base64 = λ s. if s == bytes "nine" then some (thirty_two 9) else some (thirty_two 8);
  decode_json = λ s. some ((bytes "1", bytes "eight") ∷ []);
}

abbrev configured_ring : Keyring
configured_ring = record {
  active_version = pos 2;
  keys = (pos 1, thirty_two 8) ∷ (pos 2, thirty_two 9) ∷ [];
}

new_keyring_from_base64-Configured_example :
    (configured_ring.active_version ≡ pos 2)
    × (is_version (pos 2) ≡ true)
    × ((key : GoString) × (parse_base64_key decoders (bytes "nine") ≡ ok key)
        × (find_key configured_ring.keys (pos 2) ≡ some key))
    × All
        (Configured decoders configured_ring.keys)
        (previous_entries decoders (trim_space (bytes "{}")))
unfolding new_keyring_from_base64 new_keyring copy_keys find_key is_version parse_base64_key
    add_previous trim_space parse_int list_beq Option.bind
new_keyring_from_base64-Configured_example =
    new_keyring_from_base64-Configured decoders (pos 2) (bytes "nine") (bytes "{}") configured_ring
      refl
