-- ===== src/Http/RequestId.antt =====
-- internal/httpapi/request_id.go: the correlation ID of a request.
use cliproxy_new.Base.{
  ℕ, ◌+◌, ◌-◌, ◌*◌, ◌/◌, ◌%◌, ◌≤◌, ◌≡◌, refl, ap, ◌∙◌, Bool, true, false, ◌&&◌, ◌||◌, List, [], ◌∷◌,
  length, ltb, leb, is_empty, nat_eq, if◌then◌else◌, ◌==◌, GoString, trim_space, arith, Bool-cases,
  inl, inr,
}

abbrev pub max_request_id_len : ℕ
max_request_id_len = 128

-- A character that an ID may have. A rune outside ASCII has bytes that are no such character.
pub is_safe : ℕ → Bool
is_safe c =
    (leb b'a' c && leb c b'z')
    || (leb b'A' c && leb c b'Z')
    || (leb b'0' c && leb c b'9')
    || c == b'-'
    || c == b'_'
    || c == b'.'

all_safe : GoString → Bool
unfolding is_safe
all_safe [] = true
all_safe (c ∷ s) = if is_safe c then all_safe s else false

pub valid_request_id : GoString → Bool
unfolding all_safe
valid_request_id id =
    if is_empty id || ltb max_request_id_len (length id) then false else all_safe id

-- A digit of `base64.RawURLEncoding`.
base64_digit : ℕ → ℕ
base64_digit n =
    if ltb n 26
    then b'A' + n
    else (if ltb n 52
        then b'a' + (n - 26)
        else (if ltb n 62 then b'0' + (n - 52) else (if n == 62 then b'-' else b'_')))

pub encode_base64 : List ℕ → GoString
unfolding base64_digit
encode_base64 [] = []
encode_base64 (a ∷ []) = base64_digit (a / 4) ∷ base64_digit (a % 4 * 16) ∷ []
encode_base64 (a ∷ b ∷ []) =
    base64_digit (a / 4) ∷ base64_digit (a % 4 * 16 + b / 16) ∷ base64_digit (b % 16 * 4) ∷ []
encode_base64 (a ∷ b ∷ c ∷ bytes) =
    base64_digit (a / 4)
    ∷ base64_digit (a % 4 * 16 + b / 16)
    ∷ base64_digit (b % 16 * 4 + c / 64)
    ∷ base64_digit (c % 64)
    ∷ encode_base64 bytes

-- `newRequestID` of the sixteen bytes of `rand.Read`, which does not fail.
pub new_request_id : List ℕ → GoString
new_request_id random = encode_base64 random

-- The ID that the middleware sets in the response and in the context, by the header of the request.
pub request_id : GoString → List ℕ → GoString
request_id header random =
    let id = trim_space header in if valid_request_id id then id else new_request_id random

base64_digit-safe : (n : ℕ) → is_safe (base64_digit n) ≡ true
unfolding is_safe base64_digit
base64_digit-safe n = ground arith

all_safe-cons :
    (c : ℕ) (s : GoString) → is_safe c ≡ true → all_safe s ≡ true → all_safe (c ∷ s) ≡ true
unfolding all_safe
all_safe-cons c s safe rest = ap (λ b. if b then all_safe s else false) safe ∙ rest

digits-safe : (n : ℕ) (s : GoString) → all_safe s ≡ true → all_safe (base64_digit n ∷ s) ≡ true
digits-safe n s rest = all_safe-cons (base64_digit n) s (base64_digit-safe n) rest

no_bytes : all_safe [] ≡ true
unfolding all_safe
no_bytes = refl

encode_base64-all_safe : (bytes : List ℕ) → all_safe (encode_base64 bytes) ≡ true
unfolding encode_base64
encode_base64-all_safe [] = no_bytes
encode_base64-all_safe (a ∷ []) =
    digits-safe (a / 4) (base64_digit (a % 4 * 16) ∷ []) (digits-safe (a % 4 * 16) [] no_bytes)
encode_base64-all_safe (a ∷ b ∷ []) =
    let last = base64_digit (b % 16 * 4) ∷ [] in
    let middle = base64_digit (a % 4 * 16 + b / 16) ∷ last in
    digits-safe (a / 4) middle
      (digits-safe (a % 4 * 16 + b / 16) last (digits-safe (b % 16 * 4) [] no_bytes))
encode_base64-all_safe (a ∷ b ∷ c ∷ bytes) =
    let rest = encode_base64 bytes in
    let last = base64_digit (c % 64) ∷ rest in
    let third = base64_digit (b % 16 * 4 + c / 64) ∷ last in
    let second = base64_digit (a % 4 * 16 + b / 16) ∷ third in
    digits-safe (a / 4) second (
      digits-safe (a % 4 * 16 + b / 16) third (
        digits-safe (b % 16 * 4 + c / 64) last
          (digits-safe (c % 64) rest (encode_base64-all_safe bytes))))

encode_base64-length : (bytes : List ℕ) → length (encode_base64 bytes) ≤ 2 * length bytes
unfolding encode_base64
encode_base64-length [] = omega arith
encode_base64-length (a ∷ []) = omega arith
encode_base64-length (a ∷ b ∷ []) = omega arith
encode_base64-length (a ∷ b ∷ c ∷ bytes) = omega (arith, encode_base64-length bytes)

encode_base64-filled : (a : ℕ) (bytes : List ℕ) → is_empty (encode_base64 (a ∷ bytes)) ≡ false
unfolding encode_base64
encode_base64-filled a [] = refl
encode_base64-filled a (b ∷ []) = refl
encode_base64-filled a (b ∷ c ∷ bytes) = refl

valid_of :
    (id : GoString)
    → is_empty id ≡ false
    → length id ≤ 128
    → all_safe id ≡ true
    → valid_request_id id ≡ true
unfolding valid_request_id
valid_of id filled short safe = ground arith

filled_of : (bytes : List ℕ) → length bytes ≡ 16 → is_empty (encode_base64 bytes) ≡ false
filled_of [] n = ground arith
filled_of (a ∷ bytes) n = encode_base64-filled a bytes

-- Whatever the header of the request: with sixteen random bytes, the ID that the middleware sets is
-- one that it would accept in a request.
pub request_id-valid :
    (header : GoString) (random : List ℕ)
    → length random ≡ 16
    → valid_request_id (request_id header random) ≡ true
unfolding request_id new_request_id
request_id-valid header random n = elim (Bool-cases (valid_request_id (trim_space header))) [
  | inl valid ↦ rw valid valid
  | inr bad ↦ rw bad (
      valid_of (encode_base64 random) (filled_of random n)
        (omega (arith, encode_base64-length random, n)) (encode_base64-all_safe random))
]
