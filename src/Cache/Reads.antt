-- ===== src/Cache/Reads.antt =====
-- What a read of the TTL cache returns after each operation.
use cliproxy_new.Base.{
  ℕ, ◌≤◌, ◌≡◌, refl, Bool, false, Option, none, some, is_positive, ltb, if◌then◌else◌, Comparable,
  ◌==◌, arith,
}
use cliproxy_new.Cache.{Ttl, Entry, get, set, delete, delete_where, clear, add_duration}

-- The value of an entry until it expires.
pub fresh {ℓ} : {V : Type ℓ} → ℕ → Option (Entry V) → Option V
fresh t none = none
fresh t (some e) = if ltb t e.expires_at then some e.value else none

module _ {ℓ κ} {K : Type ℓ} {V : Type κ} where
  -- The value that a read of the key at a time would return, with no effect.
  unfoldable pub visible : Option (Ttl K V) → K → ℕ → Option V
  unfolding fresh
  visible none k t = none
  visible (some c) k t = if is_positive c.ttl then fresh t (c.entries k) else none

  -- The times at which a write at `now` is visible.
  unfoldable pub lives : Option (Ttl K V) → ℕ → ℕ → Bool
  lives none now t = false
  lives (some c) now t = if is_positive c.ttl then ltb t (add_duration now c.ttl) else false

module _ {ℓ κ} {K : Type ℓ} {V : Type κ} ⦃e : Comparable K⦄ where
  pub get-visible : (c : Option (Ttl K V)) (k : K) (t : ℕ) → (get c k t).1 ≡ visible c k t
  unfolding get visible
  get-visible none k t = refl
  get-visible (some c) k t = ground arith

  -- A read changes nothing that a read at the same time or later can see.
  pub visible-get :
      (c : Option (Ttl K V)) (k j : K) (now t : ℕ)
      → now ≤ t
      → visible (get c k now).0 j t ≡ visible c j t
  unfolding get visible
  visible-get none k j now t h = refl
  visible-get (some c) k j now t h = ground (arith, e.equal_iff k j)

  pub lives-get :
      (c : Option (Ttl K V)) (k : K) (at now t : ℕ) → lives (get c k at).0 now t ≡ lives c now t
  unfolding get lives
  lives-get none k at now t = refl
  lives-get (some c) k at now t = ground arith

  pub visible-set :
      (c : Option (Ttl K V)) (k j : K) (v : V) (now t : ℕ)
      → visible (set c k v now) j t
        ≡ (if k == j then (if lives c now t then some v else none) else visible c j t)
  unfolding set visible lives
  visible-set none k j v now t = ground arith
  visible-set (some c) k j v now t = ground arith

  pub visible-delete :
      (c : Option (Ttl K V)) (k j : K) (t : ℕ)
      → visible (delete c k) j t ≡ (if k == j then none else visible c j t)
  unfolding delete visible
  visible-delete none k j t = ground arith
  visible-delete (some c) k j t = ground arith

-- The value, unless it matches.
abbrev pub unless_match {ℓ κ} : {K : Type ℓ} {V : Type κ} → (K → V → Bool) → K → Option V → Option V
unless_match match k none = none
unless_match match k (some v) = if match k v then none else some v

module _ {ℓ κ} {K : Type ℓ} {V : Type κ} where
  pub visible-delete_where :
      (c : Option (Ttl K V)) (match : K → V → Bool) (j : K) (t : ℕ)
      → visible (delete_where c (some match)) j t ≡ unless_match match j (visible c j t)
  unfolding delete_where visible
  visible-delete_where none match j t = refl
  visible-delete_where (some c) match j t = ground arith

  pub visible-clear : (c : Option (Ttl K V)) (j : K) (t : ℕ) → visible (clear c) j t ≡ none
  unfolding clear visible
  visible-clear none j t = refl
  visible-clear (some c) j t = ground arith
