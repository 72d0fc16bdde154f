-- ===== src/Base/Entries.antt =====
-- Go's maps as the finite lists of their entries, in some order: what a range goes over.
use mathlib.Core.Path.{◌≡◌, refl, ap}
use mathlib.Core.Bool.{Bool}
use mathlib.Core.Option.{Option, none, some}
use mathlib.Core.List.{List, [], ◌∷◌}
use native.Mathlib.Omega.{arith}
use cliproxy_new.Base.Tests.{if◌then◌else◌, Bool-cases}
use cliproxy_new.Base.Classes.{Comparable, ◌==◌}
use mathlib.Core.Logic.{inl, inr}

module _ {K V : Type 0} ⦃c : Comparable K⦄ where
  -- `m[k]`
  unfoldable pub find : List (K × V) → K → Option V
  find [] k = none
  find ((j, v) ∷ m) k = if j == k then some v else find m k

  -- `m[k] = v`
  unfoldable pub assign : K → V → List (K × V) → List (K × V)
  assign k v [] = (k, v) ∷ []
  assign k v ((j, w) ∷ m) = if j == k then (j, v) ∷ m else (j, w) ∷ assign k v m

  -- `for k, v := range es { m[k] = v }`
  unfoldable pub assign_all : List (K × V) → List (K × V) → List (K × V)
  assign_all [] m = m
  assign_all ((k, v) ∷ es) m = assign k v (assign_all es m)

  -- The entries whose key passes a test.
  unfoldable pub keep_keys : (K → Bool) → List (K × V) → List (K × V)
  keep_keys test [] = []
  keep_keys test ((k, v) ∷ m) = if test k then (k, v) ∷ keep_keys test m else keep_keys test m

  pub find-assign :
      (k j : K) (v : V) (m : List (K × V))
      → find (assign k v m) j ≡ (if k == j then some v else find m j)
  unfolding find assign
  find-assign k j v [] = refl
  find-assign k j v ((i, w) ∷ m) =
      ground (arith, c.equal_iff k j, c.equal_iff i k, c.equal_iff i j, find-assign k j v m)

  pub find-assign_all :
      (es m : List (K × V)) (j : K) (v : V) → find es j ≡ some v → find (assign_all es m) j ≡ some v
  unfolding find assign_all
  find-assign_all [] m j v h = cc
  find-assign_all ((k, w) ∷ es) m j v h =
      ground (arith, find-assign k j w (assign_all es m), find-assign_all es m j v)

  pub find-keep_keys :
      (test : K → Bool) (m : List (K × V)) (k : K)
      → find (keep_keys test m) k ≡ (if test k then find m k else none)
  unfolding find keep_keys
  find-keep_keys test [] k = ground arith
  find-keep_keys test ((j, v) ∷ m) k = elim (Bool-cases (j == k)) [
    | inl e ↦ let same = ap test ((c.equal_iff j k).0 e) in ground (arith, find-keep_keys test m k)
    | inr e ↦ ground (arith, find-keep_keys test m k)
  ]
