-- ===== src/Cache/History.antt =====
-- Histories of calls of the TTL cache, against an abstract cache that never removes an entry by
-- itself: a function from keys and times to the value that a read returns.
use cliproxy_new.Base.{
  ℕ, ◌≤◌, ◌≡◌, refl, ap₂, ◌∙◌, Bool, false, Option, none, some, List, [], ◌∷◌, ℤ, is_positive, ltb,
  if◌then◌else◌, Comparable, ◌==◌, arith,
}
use cliproxy_new.Cache
use cliproxy_new.Cache.{Ttl, new_ttl, get, set, add_duration, bump}
use cliproxy_new.Cache.Reads.{
  visible, lives, unless_match, get-visible, visible-get, visible-set, visible-delete,
  visible-delete_where, visible-clear,
}

pub data Call {ℓ κ} (K : Type ℓ) (V : Type κ) : Type (ℓ ⊔ κ) where
  gets deletes : K → Call K V
  sets : K → V → Call K V
  deletes_where : (K → V → Bool) → Call K V
  clears : Call K V

-- The calls are timed, and time does not run backwards.
abbrev pub Ordered {ℓ κ} : {K : Type ℓ} {V : Type κ} → ℕ → List (ℕ × Call K V) → Type 0
Ordered now [] = Unit
Ordered now ((t, _) ∷ calls) = (now ≤ t) × Ordered t calls

module _ {ℓ κ} {K : Type ℓ} {V : Type κ} ⦃e : Comparable K⦄ where
  -- A call's effect, and what it returns (`none` but for a hit).
  unfoldable pub step : Option (Ttl K V) → ℕ → Call K V → Option (Ttl K V) × Option V
  step c now (gets k) = get c k now
  step c now (deletes k) = (Cache.delete c k, none)
  step c now (sets k v) = (set c k v now, none)
  step c now (deletes_where match) = (Cache.delete_where c (some match), none)
  step c now clears = (Cache.clear c, none)

  -- The values that the calls return, in order.
  unfoldable pub run : Option (Ttl K V) → List (ℕ × Call K V) → List (Option V)
  run c [] = []
  run c ((now, call) ∷ calls) = let (c', v) = step c now call in v ∷ run c' calls

  -- The abstract cache: a write is seen for `ttl`, and nothing is seen of one that is not positive.
  pub ideal_step : ℤ → (K → ℕ → Option V) → ℕ → Call K V → (K → ℕ → Option V)
  ideal_step ttl m now (gets k) j t = m j t
  ideal_step ttl m now (deletes k) j t = if k == j then none else m j t
  ideal_step ttl m now (sets k v) j t =
      if k == j
      then (if is_positive ttl
          then (if ltb t (add_duration now ttl) then some v else none)
          else none)
      else m j t
  ideal_step ttl m now (deletes_where match) j t = unless_match match j (m j t)
  ideal_step ttl m now clears j t = none

  pub ideal_value : (K → ℕ → Option V) → ℕ → Call K V → Option V
  ideal_value m now (gets k) = m k now
  ideal_value m now _ = none

  pub ideal_run : ℤ → (K → ℕ → Option V) → List (ℕ × Call K V) → List (Option V)
  ideal_run ttl m [] = []
  ideal_run ttl m ((now, call) ∷ calls) =
      ideal_value m now call ∷ ideal_run ttl (ideal_step ttl m now call) calls

  abbrev TtlOf : Option (Ttl K V) → ℤ → Type 0
  TtlOf none ttl = ⊥
  TtlOf (some c) ttl = c.ttl ≡ ttl

  step-TtlOf :
      (c : Option (Ttl K V)) (ttl : ℤ) (now : ℕ) (call : Call K V)
      → TtlOf c ttl
      → TtlOf (step c now call).0 ttl
  unfolding step get set Cache.delete Cache.delete_where Cache.clear
  step-TtlOf none ttl now call h = absurd h
  step-TtlOf (some c) ttl now (gets k) h = ground arith
  step-TtlOf (some c) ttl now call h = ground arith

  lives_ttl :
      (c : Option (Ttl K V)) (ttl : ℤ) (now t : ℕ)
      → TtlOf c ttl
      → lives c now t ≡ (if is_positive ttl then ltb t (add_duration now ttl) else false)
  unfolding lives
  lives_ttl none ttl now t h = absurd h
  lives_ttl (some c) ttl now t h = ground arith

  -- From `now` on, every read of the cache is that of the abstract cache.
  record Sees (ttl : ℤ) (now : ℕ) (c : Option (Ttl K V)) (m : K → ℕ → Option V) : Type (ℓ ⊔ κ) where
    same_ttl : TtlOf c ttl
    same_reads : (k : K) (t : ℕ) → now ≤ t → visible c k t ≡ m k t

  step-reads :
      (ttl : ℤ) (now : ℕ) (c : Option (Ttl K V)) (m : K → ℕ → Option V) (call : Call K V) (j : K)
      (t : ℕ)
      → TtlOf c ttl
      → now ≤ t
      → visible c j t ≡ m j t
      → visible (step c now call).0 j t ≡ ideal_step ttl m now call j t
  unfolding step ideal_step
  step-reads ttl now c m (gets k) j t h le r = ground (arith, visible-get c k j now t)
  step-reads ttl now c m (deletes k) j t h le r = ground (arith, visible-delete c k j t)
  step-reads ttl now c m (sets k v) j t h le r =
      ground (arith, visible-set c k j v now t, lives_ttl c ttl now t h)
  step-reads ttl now c m (deletes_where match) j t h le r =
      ground (arith, visible-delete_where c match j t)
  step-reads ttl now c m clears j t h le r = visible-clear c j t

  step-value :
      (now : ℕ) (c : Option (Ttl K V)) (m : K → ℕ → Option V) (call : Call K V)
      → ((k : K) → visible c k now ≡ m k now)
      → (step c now call).1 ≡ ideal_value m now call
  unfolding step ideal_value
  step-value now c m (gets k) h = get-visible c k now ∙ h k
  step-value now c m call h = refl

  run-Sees :
      (ttl : ℤ) (start : ℕ) (c : Option (Ttl K V)) (m : K → ℕ → Option V)
      (calls : List (ℕ × Call K V))
      → Ordered start calls
      → Sees ttl start c m
      → run c calls ≡ ideal_run ttl m calls
  unfolding run ideal_run
  run-Sees ttl start c m [] o s = refl
  run-Sees ttl start c m ((now, call) ∷ calls) (le, o) s =
      ap₂ ◌∷◌ (step-value now c m call (λ k. s.same_reads k now le))
        (run-Sees ttl now _ (ideal_step ttl m now call) calls o next)
    where
      next : Sees ttl now (step c now call).0 (ideal_step ttl m now call)
      next = record {
        same_ttl = step-TtlOf c ttl now call s.same_ttl;
        same_reads =
            λ j t h. step-reads ttl now c m call j t s.same_ttl h (s.same_reads j t (omega arith));
      }

  -- On a clock that does not run backwards every history of calls of a new cache returns what the
  -- abstract cache returns: a read hits exactly when the last write of its key is younger than the
  -- TTL and no deletion came after it. That reads remove the entries that they find expired shows
  -- in no result. A TTL that is not positive stores nothing.
  pub run-ideal_run :
      (ttl : ℤ) (start : ℕ) (calls : List (ℕ × Call K V))
      → Ordered start calls
      → run (new_ttl ttl) calls ≡ ideal_run ttl (λ _ _. none) calls
  unfolding new_ttl visible
  run-ideal_run ttl start calls o =
      run-Sees ttl start _ _ calls o
        (record { same_ttl = refl; same_reads = λ k t _. ground arith })
