-- ===== src/Base/Decimal.antt =====
-- Decimal text of 64-bit integers: `strconv.FormatInt(_, 10)` and `strconv.ParseInt(_, 10, 64)`.
use Prim.Native.Nat.{ℕ, zero, suc, ◌+◌, ◌-◌, ◌*◌, ◌/◌, ◌%◌, ◌^◌, ◌≤◌, ◌<◌}
use mathlib.Core.Path.{◌≡◌, refl}
use mathlib.Core.Logic.{◌⊎◌, inl, inr}
use mathlib.Core.Bool.{Bool, true, false, ◌&&◌}
use mathlib.Core.Option.{Option, none, some}
use mathlib.Core.Option
use mathlib.Core.List.{[], ◌∷◌}
use native.Mathlib.Omega.{arith}
use cliproxy_new.Base.Tests.{ltb, leb, if◌then◌else◌, Bool-cases}
use cliproxy_new.Base.Classes.{◌==◌, nat_eq}
use cliproxy_new.Base.Int.{ℤ, pos, negsuc}
use cliproxy_new.Base.Text.{GoString, has_byte}

-- The digits of a number before a text that follows it, on fuel above the number.
digits_before : ℕ → ℕ → GoString → GoString
digits_before zero n rest = rest
digits_before (suc fuel) n rest =
    let more = digits_before fuel (n / 10) ((b'0' + n % 10) ∷ rest) in
    if ltb n 10 then (b'0' + n) ∷ rest else more

pub format_nat : ℕ → GoString
unfolding digits_before
format_nat n = digits_before (suc n) n []

unfoldable pub format_int : ℤ → GoString
unfolding format_nat
format_int (pos n) = format_nat n
format_int (negsuc n) = b'-' ∷ format_nat (suc n)

is_digit : ℕ → Bool
is_digit c = leb b'0' c && leb c b'9'

-- The value of the digits behind those that are read, if there is nothing else. `ParseUint` stops
-- at the first value out of range, which no later digit brings back.
parse_from : ℕ → GoString → Option ℕ
unfolding is_digit
parse_from v [] = some v
parse_from v (c ∷ s) = if is_digit c then parse_from (10 * v + (c - b'0')) s else none

parse_nat : GoString → Option ℕ
unfolding parse_from
parse_nat [] = none
parse_nat (c ∷ s) = parse_from 0 (c ∷ s)

to_int64 : Bool → ℕ → Option ℤ
to_int64 false n = if ltb n (2 ^ 63) then some (pos n) else none
to_int64 true zero = some (pos 0)
to_int64 true (suc n) = if ltb n (2 ^ 63) then some (negsuc n) else none

unfoldable pub parse_int : GoString → Option ℤ
unfolding parse_nat to_int64
parse_int [] = none
parse_int (c ∷ s) =
    if c == b'-'
    then Option.bind (parse_nat s) (to_int64 true)
    else if c == b'+'
    then Option.bind (parse_nat s) (to_int64 false)
    else Option.bind (parse_nat (c ∷ s)) (to_int64 false)

parse-digits_before :
    (fuel n : ℕ) (rest : GoString)
    → n < fuel
    → parse_from 0 (digits_before fuel n rest) ≡ parse_from n rest
unfolding digits_before parse_from
parse-digits_before zero n rest h = elim h [ ]
parse-digits_before (suc fuel) n rest h =
    ground (arith, parse-digits_before fuel (n / 10) ((b'0' + n % 10) ∷ rest))

-- Digits all the way, and at least one.
digits_head :
    (fuel n : ℕ) (rest : GoString)
    → n < fuel
    → (c : ℕ) × (s : GoString) × (digits_before fuel n rest ≡ c ∷ s) × (b'0' ≤ c) × (c ≤ b'9')
unfolding digits_before
digits_head zero n rest h = elim h [ ]
digits_head (suc fuel) n rest h = elim (Bool-cases (ltb n 10)) [
  | inl small ↦ (b'0' + n, rest, rw small, omega arith, ground arith)
  | inr big ↦ rw big (digits_head fuel (n / 10) ((b'0' + n % 10) ∷ rest) (ground arith))
]

digits-has_byte :
    (fuel n b : ℕ) (rest : GoString)
    → n < fuel
    → (b < b'0') ⊎ (b'9' < b)
    → has_byte rest b ≡ false
    → has_byte (digits_before fuel n rest) b ≡ false
unfolding digits_before has_byte
digits-has_byte zero n b rest h k e = elim h [ ]
digits-has_byte (suc fuel) n b rest h k e =
    ground (arith, digits-has_byte fuel (n / 10) b ((b'0' + n % 10) ∷ rest))

-- The text of a number has no byte but digits.
pub format_nat-has_byte : (n b : ℕ) → (b < b'0') ⊎ (b'9' < b) → has_byte (format_nat n) b ≡ false
unfolding format_nat has_byte
format_nat-has_byte n b k = digits-has_byte (suc n) n b [] (omega arith) k refl

parse_int_unsigned :
    (c n : ℕ) (s : GoString)
    → b'0' ≤ c
    → parse_from 0 (c ∷ s) ≡ some n
    → n < 2 ^ 63
    → parse_int (c ∷ s) ≡ some (pos n)
unfolding parse_int Option.bind
parse_int_unsigned c n s lo value h = ground arith

format_nat-value : (n : ℕ) → parse_from 0 (digits_before (suc n) n []) ≡ some n
unfolding parse_from
format_nat-value n = parse-digits_before (suc n) n [] (omega arith)

-- A text that is printed reads back as the number.
pub parse_int-format_nat : (n : ℕ) → n < 2 ^ 63 → parse_int (format_nat n) ≡ some (pos n)
unfolding format_nat
parse_int-format_nat n h =
    let (c, s, e, lo, hi) = digits_head (suc n) n [] (omega arith) in
    rw e (parse_int_unsigned c n s lo (rw e at (format_nat-value n)) h)

pub format_nat-head :
    (n : ℕ) → (c : ℕ) × (s : GoString) × (format_nat n ≡ c ∷ s) × (b'0' ≤ c) × (c ≤ b'9')
unfolding format_nat
format_nat-head n = digits_head (suc n) n [] (omega arith)

to_int64-lt :
    (sign : Bool) (o : Option ℕ) (n : ℕ) → Option.bind o (to_int64 sign) ≡ some (pos n) → n < 2 ^ 63
unfolding to_int64 Option.bind
to_int64-lt sign none n h = ground arith
to_int64-lt false (some m) n h = ground arith
to_int64-lt true (some zero) n h = ground arith
to_int64-lt true (some (suc m)) n h = ground arith

-- What is read fits an int64.
pub parse_int-lt : (s : GoString) (n : ℕ) → parse_int s ≡ some (pos n) → n < 2 ^ 63
unfolding parse_int
parse_int-lt [] n h = ground arith
parse_int-lt (c ∷ s) n h = ground (
  arith,
  to_int64-lt true (parse_nat s) n,
  to_int64-lt false (parse_nat s) n,
  to_int64-lt false (parse_nat (c ∷ s)) n,
)
