-- ===== src/Access/Principal.antt =====
-- internal/access/principal.go: the text that carries a caller through the usage records.
use cliproxy_new.Base.{
  ℕ, ◌^◌, ◌<◌, ◌≡◌, ap, ◌∙◌, Option, none, some, List, [], ◌∷◌, ◌++◌, arith, ℤ, pos, negsuc,
  is_positive, if◌then◌else◌, GoString, bytes, cut_prefix, split, format_int, format_nat, parse_int,
  split-append, split_whole, cut_prefix-append, format_nat-has_byte, parse_int-format_nat,
  format_nat-head, parse_int-lt, inr, Result, ok, err, ◌>>=◌, >>=_inversion,
}

pub record Principal : Type 0 where
  pub user_id : ℤ
  pub api_key_id : Option ℤ

pub data Invalid : Type 0 where
  invalid_principal : Invalid

unfoldable pub principal_prefix : GoString
principal_prefix = bytes "cliproxy:v1:"

pub encode_principal : ℤ → ℤ → GoString
unfolding principal_prefix
encode_principal user_id api_key_id =
    principal_prefix ++ (format_int user_id ++ (b':' ∷ format_int api_key_id))

in_range : Option ℤ → Result Invalid ℤ
in_range none = err invalid_principal
in_range (some id) = if is_positive id then ok id else err invalid_principal

unfoldable pub positive_id : GoString → Result Invalid ℤ
unfolding in_range
positive_id value = in_range (parse_int value)

-- The parts behind the prefix: two, or the text is invalid.
decode_parts : List GoString → Result Invalid Principal
decode_parts (u ∷ k ∷ []) = do
  user_id ← positive_id u
  api_key_id ← positive_id k
  ok (record { user_id = user_id; api_key_id = some api_key_id })
decode_parts parts = err invalid_principal

-- The text without the prefix, if it has it, or else the legacy form: a bare user ID.
decode_by : Option GoString → GoString → Result Invalid Principal
unfolding decode_parts
decode_by (some rest) value = decode_parts (split rest b':')
decode_by none value = do
  user_id ← positive_id value
  ok (record { user_id = user_id; api_key_id = none })

unfoldable pub decode_principal : GoString → Result Invalid Principal
unfolding decode_by principal_prefix
decode_principal value = decode_by (cut_prefix value principal_prefix) value

positive_id-format : (n : ℕ) → 0 < n → n < 2 ^ 63 → positive_id (format_nat n) ≡ ok (pos n)
unfolding positive_id
positive_id-format n lo hi = ground (arith, parse_int-format_nat n hi)

split-ids :
    (u k : ℕ)
    → split (format_nat u ++ (b':' ∷ format_nat k)) b':' ≡ format_nat u ∷ format_nat k ∷ []
split-ids u k = rw (
  split-append (format_nat u) (format_nat k) b':' (format_nat-has_byte u b':' (inr (omega arith))),
  split_whole (format_nat k) b':' (format_nat-has_byte k b':' (inr (omega arith))),
)

decode_parts-ids :
    (u k : ℕ)
    → 0 < u
    → u < 2 ^ 63
    → 0 < k
    → k < 2 ^ 63
    → decode_parts (format_nat u ∷ format_nat k ∷ [])
      ≡ ok (record { user_id = pos u; api_key_id = some (pos k) })
unfolding decode_parts
decode_parts-ids u k u0 u63 k0 k63 = rw (positive_id-format u u0 u63, positive_id-format k k0 k63)

decode_by-prefix :
    (prefix s : GoString)
    → decode_by (cut_prefix (prefix ++ s) prefix) (prefix ++ s) ≡ decode_parts (split s b':')
unfolding decode_by
decode_by-prefix prefix s = rw (cut_prefix-append prefix s)

-- A principal of two positive int64 IDs decodes to those IDs.
pub decode-encode :
    (u k : ℕ)
    → 0 < u
    → u < 2 ^ 63
    → 0 < k
    → k < 2 ^ 63
    → decode_principal (encode_principal (pos u) (pos k))
      ≡ ok (record { user_id = pos u; api_key_id = some (pos k) })
unfolding decode_principal encode_principal format_int
decode-encode u k u0 u63 k0 k63 =
    decode_by-prefix principal_prefix (format_nat u ++ (b':' ∷ format_nat k))
    ∙ ap decode_parts (split-ids u k)
    ∙ decode_parts-ids u k u0 u63 k0 k63

-- A bare user ID, a positive int64, is the legacy form: it decodes to the user with no key.
pub decode_legacy :
    (u : ℕ)
    → 0 < u
    → u < 2 ^ 63
    → decode_principal (format_int (pos u)) ≡ ok (record { user_id = pos u; api_key_id = none })
unfolding decode_principal principal_prefix decode_by cut_prefix format_int
decode_legacy u u0 u63 =
    let (c, s, e, lo, hi) = format_nat-head u in
    let plain : cut_prefix (format_nat u) principal_prefix ≡ none = rw e (ground arith) in
    rw (plain, positive_id-format u u0 u63)

-- A positive int64.
abbrev pub IsId : ℤ → Type 0
IsId (pos n) = (0 < n) × (n < 2 ^ 63)
IsId (negsuc n) = ⊥

abbrev pub IsKeyId : Option ℤ → Type 0
IsKeyId none = Unit
IsKeyId (some id) = IsId id

positive_id-IsId : (s : GoString) (id : ℤ) → positive_id s ≡ ok id → IsId id
unfolding positive_id
positive_id-IsId s (pos n) h = ground (arith, parse_int-lt s n)
positive_id-IsId s (negsuc n) h = ground arith

decode_parts-IsId :
    (parts : List GoString) (p : Principal)
    → decode_parts parts ≡ ok p
    → IsId p.user_id × IsKeyId p.api_key_id
unfolding decode_parts
decode_parts-IsId (u ∷ k ∷ []) p h =
    let (id, eu, h') = >>=_inversion (positive_id u) _ h in
    let (key, ek, h'') = >>=_inversion (positive_id k) _ h' in
    ground (arith, positive_id-IsId u id eu, positive_id-IsId k key ek)
decode_parts-IsId parts p h = ground arith

decode_by-IsId :
    (rest : Option GoString) (value : GoString) (p : Principal)
    → decode_by rest value ≡ ok p
    → IsId p.user_id × IsKeyId p.api_key_id
unfolding decode_by
decode_by-IsId (some rest) value p h = decode_parts-IsId (split rest b':') p h
decode_by-IsId none value p h =
    let (id, e, h') = >>=_inversion (positive_id value) _ h in
    ground (arith, positive_id-IsId value id e)

-- Whatever the text, the IDs of a principal that is decoded are positive int64 values.
decode-IsId :
    (value : GoString) (p : Principal)
    → decode_principal value ≡ ok p
    → IsId p.user_id × IsKeyId p.api_key_id
unfolding decode_principal
decode-IsId value p h = decode_by-IsId _ value p h
