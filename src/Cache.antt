-- ===== src/Cache.antt =====
-- internal/cache/ttl.go: the in-process TTL cache, over any comparable key. The clock is an argument
-- of each call, in nanoseconds, since `now` is a function that the constructor is given. A call
-- holds the mutex from its first read to its last write, so calls are steps on one state. A `none`
-- cache is the nil pointer, which every method accepts.
pub mod Reads
pub mod History
pub mod Counters
pub mod Entries
use cliproxy_new.Base.{
  ℕ, ◌+◌, ◌-◌, ◌%◌, ◌^◌, suc, Bool, true, false, ◌&&◌, Option, none, some, ℤ, pos, negsuc,
  is_positive, ltb, if◌then◌else◌, Map, empty, insert, erase, Comparable, ◌==◌,
}

pub record Entry {ℓ} (V : Type ℓ) : Type ℓ where
  pub value : V
  pub expires_at : ℕ

pub record Stats : Type 0 where
  pub hits : ℕ
  pub misses : ℕ

pub record Ttl {ℓ κ} (K : Type ℓ) (V : Type κ) : Type (ℓ ⊔ κ) where
  pub ttl : ℤ
  pub entries : Map K (Entry V)
  pub hits : ℕ
  pub misses : ℕ

-- `c.hits++` on a uint64.
pub bump : ℕ → ℕ
bump n = (n + 1) % 2 ^ 64

-- `time.Add`. Times before the epoch stay at 0.
unfoldable pub add_duration : ℕ → ℤ → ℕ
add_duration t (pos d) = t + d
add_duration t (negsuc d) = t - suc d

module _ {ℓ κ} {K : Type ℓ} {V : Type κ} where
  unfoldable pub new_ttl : ℤ → Option (Ttl K V)
  new_ttl ttl = some (record { ttl = ttl; entries = empty; hits = 0; misses = 0 })

  pub stats : Option (Ttl K V) → Stats
  stats none = record { hits = 0; misses = 0 }
  stats (some c) = record { hits = c.hits; misses = c.misses }

  -- The loop of `DeleteWhere` removes each entry that matches, at whatever place the iteration of
  -- the map meets it.
  matching : (K → V → Bool) → Map K (Entry V) → Map K (Entry V)
  matching match entries k = elim (entries k) [
    | none ↦ none
    | some e ↦ if match k e.value then none else some e
  ]

  unfoldable pub delete_where : Option (Ttl K V) → Option (K → V → Bool) → Option (Ttl K V)
  unfolding matching
  delete_where none match = none
  delete_where (some c) none = some c
  delete_where (some c) (some match) = some (record c { entries = matching match c.entries })

  unfoldable pub clear : Option (Ttl K V) → Option (Ttl K V)
  clear none = none
  clear (some c) = some (record c { entries = empty })

module _ {ℓ κ} {K : Type ℓ} {V : Type κ} ⦃e : Comparable K⦄ where
  -- The body of `Get` behind its guard, by the entry found.
  found : Ttl K V → K → ℕ → Option (Entry V) → Ttl K V × Option V
  unfolding bump
  found c key now none = (record c { misses = bump c.misses }, none)
  found c key now (some entry) =
      if ltb now entry.expires_at
      then (record c { hits = bump c.hits }, some entry.value)
      else (record c { entries = erase key c.entries; misses = bump c.misses }, none)

  unfoldable pub get : Option (Ttl K V) → K → ℕ → Option (Ttl K V) × Option V
  unfolding found
  get none key now = (none, none)
  get (some c) key now =
      if is_positive c.ttl
      then (let (c', v) = found c key now (c.entries key) in (some c', v))
      else (some c, none)

  unfoldable pub set : Option (Ttl K V) → K → V → ℕ → Option (Ttl K V)
  set none key value now = none
  set (some c) key value now =
      if is_positive c.ttl
      then some (record c {
        entries =
            insert key (record { value = value; expires_at = add_duration now c.ttl }) c.entries;
      })
      else some c

  unfoldable pub delete : Option (Ttl K V) → K → Option (Ttl K V)
  delete none key = none
  delete (some c) key = some (record c { entries = erase key c.entries })
