-- ===== src/Base/Maps.antt =====
-- Go's maps as finite partial functions: a lookup, and an update at one key.
use mathlib.Core.Option.{Option, none, some}
use cliproxy_new.Base.Tests.{if◌then◌else◌}
use cliproxy_new.Base.Classes.{Comparable, ◌==◌}

abbrev pub Map {ℓ κ} : Type ℓ → Type κ → Type (ℓ ⊔ κ)
Map K V = K → Option V

abbrev pub empty {ℓ κ} : {K : Type ℓ} {V : Type κ} → Map K V
empty k = none

module _ {ℓ κ} {K : Type ℓ} {V : Type κ} ⦃e : Comparable K⦄ where
  -- `m[k] = v`
  abbrev pub insert : K → V → Map K V → Map K V
  insert k v m j = if k == j then some v else m j

  -- `delete(m, k)`
  abbrev pub erase : K → Map K V → Map K V
  erase k m j = if k == j then none else m j
