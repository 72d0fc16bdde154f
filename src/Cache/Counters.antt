-- ===== src/Cache/Counters.antt =====
-- The hit and miss counters of the TTL cache, over a history of calls.
use cliproxy_new.Base.{
  ℕ, ◌+◌, ◌%◌, ◌^◌, ◌≡◌, refl, true, Option, none, some, List, [], ◌∷◌, ℤ, is_positive, Comparable,
  arith,
}
use native.Mathlib.Nat.{add_assoc, zero-add}
use cliproxy_new.Cache
use cliproxy_new.Cache.{Ttl, Stats, stats, new_ttl, bump, get, set}
use cliproxy_new.Cache.History.{Call, gets, step, run}

module _ {ℓ κ} {K : Type ℓ} {V : Type κ} where
  -- What a call and its result add to the hits and to the misses.
  pub hit : Call K V → Option V → ℕ
  hit (gets k) (some v) = 1
  hit call v = 0

  pub miss : Call K V → Option V → ℕ
  miss (gets k) none = 1
  miss call v = 0

  pub total : (Call K V → Option V → ℕ) → List (ℕ × Call K V) → List (Option V) → ℕ
  total count ((_, call) ∷ calls) (v ∷ vs) = count call v + total count calls vs
  total count [] vs = 0
  total count calls [] = 0

  abbrev Counted : ℕ → ℕ → Option (Ttl K V) → Type 0
  Counted h m none = ⊥
  Counted h m (some c) =
      (is_positive c.ttl ≡ true) × (c.hits ≡ h % 2 ^ 64) × (c.misses ≡ m % 2 ^ 64)

  Counted-stats :
      (h m : ℕ) (c : Option (Ttl K V))
      → Counted h m c
      → stats c ≡ record { hits = h % 2 ^ 64; misses = m % 2 ^ 64 }
  unfolding stats
  Counted-stats h m none k = absurd k
  Counted-stats h m (some c) k = ground arith

module _ {ℓ κ} {K : Type ℓ} {V : Type κ} ⦃e : Comparable K⦄ where
  pub final : Option (Ttl K V) → List (ℕ × Call K V) → Option (Ttl K V)
  final c [] = c
  final c ((now, call) ∷ calls) = final (step c now call).0 calls

  step-Counted :
      (h m : ℕ) (c : Option (Ttl K V)) (now : ℕ) (call : Call K V)
      → Counted h m c
      → let r = step c now call in Counted (h + hit call r.1) (m + miss call r.1) r.0
  unfolding step get set Cache.delete Cache.delete_where Cache.clear hit miss
  step-Counted h m none now call k = absurd k
  step-Counted h m (some c) now (gets j) k = ground arith
  step-Counted h m (some c) now call k = ground arith

  final-Counted :
      (h m : ℕ) (c : Option (Ttl K V)) (calls : List (ℕ × Call K V))
      → Counted h m c
      → Counted
          (h + total hit calls (run c calls))
          (m + total miss calls (run c calls))
          (final c calls)
  unfolding final run total
  final-Counted h m none [] k = absurd k
  final-Counted h m (some c) [] k = ground arith
  final-Counted h m c ((now, call) ∷ calls) k =
      let r = step c now call in
      simp (← add_assoc) (
        final-Counted (h + hit call r.1) (m + miss call r.1) r.0 calls
          (step-Counted h m c now call k))

  -- After any history of a new cache with a positive TTL, `Stats` reports as hits the reads that
  -- returned a value and as misses those that did not, each modulo the uint64 counter.
  pub stats-final :
      (ttl : ℤ) (calls : List (ℕ × Call K V))
      → is_positive ttl ≡ true
      → let vs = run (new_ttl ttl) calls in
        stats (final (new_ttl ttl) calls)
        ≡ record { hits = total hit calls vs % 2 ^ 64; misses = total miss calls vs % 2 ^ 64 }
  unfolding new_ttl
  stats-final ttl calls p =
      Counted-stats _ _ (final _ calls)
        (simp zero-add at (final-Counted 0 0 (new_ttl ttl) calls (p, refl, refl)))
