-- ===== src/Base/Results.antt =====
-- A Go result `(A, error)` with `E` the errors that the callers tell apart.
use mathlib.Core.Path.{◌≡◌, refl, ap}

infixl 4 ◌>>=◌
pub data Result {ℓ κ} (E : Type κ) (A : Type ℓ) : Type (ℓ ⊔ κ) where
  err : E → Result E A
  ok : A → Result E A

-- `if err != nil { return err }` behind a call, and what follows.
abbrev pub ◌>>=◌ {ℓ κ μ} :
    {E : Type κ} {A : Type ℓ} {B : Type μ} → Result E A → (A → Result E B) → Result E B
err reason >>= next = err reason
ok value >>= next = next value

-- Calls in a row that succeed: the first gave a value, and the next succeeded on it.
pub >>=_inversion {ℓ κ μ} :
    {E : Type κ} {A : Type ℓ} {B : Type μ} (call : Result E A) (next : A → Result E B) {result : B}
    → (call >>= next) ≡ ok result
    → (value : A) × (call ≡ ok value) × (next value ≡ ok result)
>>=_inversion (err reason) next succeeds = cc
>>=_inversion (ok value) next succeeds = (value, refl, succeeds)

value_or {ℓ κ} : {E : Type κ} {A : Type ℓ} → A → Result E A → A
value_or default (err reason) = default
value_or default (ok value) = value

pub ok_injective {ℓ κ} :
    {E : Type κ} {A : Type ℓ} (a b : A) → ◌≡◌ {A = Result E A} (ok a) (ok b) → a ≡ b
unfolding value_or
ok_injective a b same = ap (value_or a) same
