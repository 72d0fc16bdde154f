-- ===== src/Store/ApiKeys.antt =====
-- internal/store/api_keys.go: client API keys, found by prefix and checked by bcrypt, behind two
-- caches of ten seconds.
mod Data
pub mod Staleness
pub mod Calls
pub mod History
pub mod Verdict
pub mod Invalidation
pub mod Overview
unfoldable pub use Data.*
use cliproxy_new.Base.{
  ℕ, ◌≡◌, Bool, true, false, ◌&&◌, not, ◌||◌, Option, none, some, List, [], ◌∷◌, map, ℤ, pos,
  is_positive, int_eq, length, take, ltb, if◌then◌else◌, GoString, Comparable, ◌==◌, ◌↔◌, list_eq,
  nat_eq, ==_iff, arith, Result, ok, err,
}
use cliproxy_new.Cache
use cliproxy_new.Cache.{Ttl, Stats, new_ttl}
use cliproxy_new.Store.{
  StoreError, not_found, invalid_credential, invalid_input, other, QueryError, no_rows, failed,
  ldap, static, active, valid_identity_source, nullable_text,
}

-- `apiKeyCacheTTL`: ten seconds.
abbrev pub api_key_cache_ttl : ℤ
api_key_cache_ttl = pos 10_000_000_000

abbrev pub prefix_length : ℕ
prefix_length = 8

unfoldable pub new_repository : ApiKeyRepository
new_repository = record {
  candidates_cache = new_ttl api_key_cache_ttl;
  verified_cache = new_ttl api_key_cache_ttl;
}

-- The statistics of the verified cache.
pub cache_stats : ApiKeyRepository → Stats
cache_stats r = Cache.stats r.verified_cache

pub invalidate_candidates : GoString → ApiKeyRepository → ApiKeyRepository
invalidate_candidates prefix r =
    let none_left =
      Cache.delete r.candidates_cache (record { prefix = prefix; identity_source = [] }) in
    let no_ldap = Cache.delete none_left (record { prefix = prefix; identity_source = ldap }) in
    record r {
      candidates_cache =
          Cache.delete no_ldap (record { prefix = prefix; identity_source = static });
    }

unfoldable pub invalidate_user : ℤ → ApiKeyRepository → ApiKeyRepository
invalidate_user user_id r =
    if is_positive user_id
    then record r {
      verified_cache = Cache.delete_where r.verified_cache (some (λ _ p. p.user_id == user_id));
    }
    else r

module _ {D : Type 0} (q : KeyQueries D) where
  -- The rows behind a cache key: the query by source, or the one of any source for "".
  unfoldable pub find_rows : ApiKeyCacheKey → D → Result QueryError (List CandidateRow)
  find_rows key d =
      if key.identity_source == []
      then q.find_candidates key.prefix d
      else q.find_candidates_for_source key.prefix key.identity_source d

  store_candidates :
      ApiKeyRepository
      → ApiKeyCacheKey
      → ℕ
      → Result QueryError (List CandidateRow)
      → ApiKeyRepository × Result StoreError (List ApiKeyCandidate)
  store_candidates r key now (err e) = (r, err other)
  store_candidates r key now (ok rows) = (
    record r { candidates_cache = Cache.set r.candidates_cache key (candidates_of rows) now },
    ok (candidates_of rows),
  )

  cached_or_found :
      ApiKeyRepository
      → ApiKeyCacheKey
      → Moment D
      → Option (List ApiKeyCandidate)
      → ApiKeyRepository × Result StoreError (List ApiKeyCandidate)
  unfolding store_candidates
  cached_or_found r key m (some candidates) = (r, ok candidates)
  cached_or_found r key m none = store_candidates r key m.candidates_write (find_rows key m.at_find)

  unfoldable pub find_candidates :
      ApiKeyRepository
      → ApiKeyCacheKey
      → Moment D
      → ApiKeyRepository × Result StoreError (List ApiKeyCandidate)
  unfolding cached_or_found
  find_candidates r key m =
      let (cache, hit) = Cache.get r.candidates_cache key m.candidates_read in
      cached_or_found (record r { candidates_cache = cache }) key m hit

  active_of : Result QueryError GoString → Result StoreError Bool
  active_of (err no_rows) = ok false
  active_of (err failed) = err other
  active_of (ok status) = ok (status == active)

  unfoldable pub user_is_active : ℤ → D → Result StoreError Bool
  unfolding active_of
  user_is_active user_id d = active_of (q.user_status user_id d)

  pub list_by_user : ℤ → D → Result StoreError (List ApiKey)
  list_by_user user_id d = elim (q.list_by_user user_id d) [
    | err e ↦ err other
    | ok rows ↦ ok (keys_of_rows rows)
  ]

  revoked_rows :
      ApiKeyRepository → Result QueryError ℕ → ApiKeyRepository × Result StoreError (Unit {0})
  revoked_rows r (err e) = (r, err other)
  revoked_rows r (ok n) = if n == 0 then (r, err not_found) else (
    record {
      candidates_cache = Cache.clear r.candidates_cache;
      verified_cache = Cache.clear r.verified_cache;
    },
    ok tt,
  )

  unfoldable pub revoke :
      ApiKeyRepository → ℤ → ℤ → D → (ApiKeyRepository × Result StoreError (Unit {0})) × D
  unfolding revoked_rows
  revoke r user_id key_id d =
      let (n, d') = q.revoke_api_key key_id user_id d in (revoked_rows r n, d')

unfoldable pub verified_key : Hashing → GoString → GoString → VerifiedKey
verified_key h plaintext source = record { digest = h.sha256 plaintext; identity_source = source }

unfoldable pub cache_key : GoString → GoString → ApiKeyCacheKey
cache_key plaintext source = record {
  prefix = take prefix_length plaintext;
  identity_source = source;
}

module _ {D : Type 0} (h : Hashing) (q : KeyQueries D) where
  inserted :
      ApiKeyRepository
      → GoString
      → Result QueryError KeyRow
      → ApiKeyRepository × Result StoreError ApiKey
  inserted r prefix (err e) = (r, err other)
  inserted r prefix (ok row) = (invalidate_candidates prefix r, ok (key_of_row row))

  create_hashed :
      ApiKeyRepository
      → CreateKeyParams
      → D
      → Option GoString
      → (ApiKeyRepository × Result StoreError ApiKey) × D
  unfolding inserted
  create_hashed r p d none = ((r, err other), d)
  create_hashed r p d (some hash) =
      let (row, d') =
        q.create_api_key
          (record {
            user_id = p.user_id;
            key_hash = hash;
            key_prefix = take prefix_length p.plaintext;
            name = nullable_text p.name;
            expires_at = p.expires_at;
            scope = p.scope;
          })
          d in
      (inserted r (take prefix_length p.plaintext) row, d')

  pub create :
      ApiKeyRepository → ℕ → CreateKeyParams → D → (ApiKeyRepository × Result StoreError ApiKey) × D
  unfolding create_hashed
  create r salt p d =
      if not (is_positive p.user_id) || ltb (length p.plaintext) prefix_length
      then ((r, err invalid_input), d)
      else create_hashed r p d (h.generate salt p.plaintext)

  -- A candidate whose hash fits: its user's state decides, or the loop goes on to `rest`.
  accept :
      ApiKeyRepository
      → VerifiedKey
      → Moment D
      → ApiKeyCandidate
      → ApiKeyRepository × Result StoreError ApiKeyPrincipal
      → Result StoreError Bool
      → ApiKeyRepository × Result StoreError ApiKeyPrincipal
  accept r key m c rest (err e) = (r, err e)
  accept r key m c rest (ok false) = rest
  accept r key m c rest (ok true) =
      let principal : ApiKeyPrincipal = record { user_id = c.user_id; api_key_id = c.id } in
      (
        record r { verified_cache = Cache.set r.verified_cache key principal m.verified_write },
        ok principal,
      )

  -- The loop over the candidates: the first whose hash fits and whose user is active.
  check_candidates :
      ApiKeyRepository
      → VerifiedKey
      → GoString
      → Moment D
      → List ApiKeyCandidate
      → ApiKeyRepository × Result StoreError ApiKeyPrincipal
  unfolding accept
  check_candidates r key plaintext m [] = (r, err invalid_credential)
  check_candidates r key plaintext m (c ∷ cs) =
      let rest = check_candidates r key plaintext m cs in
      if h.compare c.key_hash plaintext
      then accept r key m c rest (user_is_active q c.user_id m.at_user)
      else rest

  check_found :
      VerifiedKey
      → GoString
      → Moment D
      → ApiKeyRepository × Result StoreError (List ApiKeyCandidate)
      → ApiKeyRepository × Result StoreError ApiKeyPrincipal
  unfolding check_candidates
  check_found key plaintext m (r, err e) = (r, err e)
  check_found key plaintext m (r, ok cs) = check_candidates r key plaintext m cs

  cached_or_checked :
      ApiKeyRepository
      → GoString
      → GoString
      → Moment D
      → Option ApiKeyPrincipal
      → ApiKeyRepository × Result StoreError ApiKeyPrincipal
  unfolding check_found
  cached_or_checked r plaintext source m (some principal) = (r, ok principal)
  cached_or_checked r plaintext source m none =
      check_found (verified_key h plaintext source) plaintext m
        (find_candidates q r (cache_key plaintext source) m)

  unfoldable pub authenticate_any :
      ApiKeyRepository
      → GoString
      → GoString
      → Moment D
      → ApiKeyRepository × Result StoreError ApiKeyPrincipal
  unfolding cached_or_checked verified_key
  authenticate_any r plaintext source m =
      let (cache, hit) =
        Cache.get r.verified_cache (verified_key h plaintext source) m.verified_read in
      cached_or_checked (record r { verified_cache = cache }) plaintext source m hit

  pub authenticate :
      ApiKeyRepository → GoString → Moment D → ApiKeyRepository × Result StoreError ApiKeyPrincipal
  authenticate r plaintext m =
      if ltb (length plaintext) prefix_length
      then (r, err invalid_credential)
      else authenticate_any r plaintext [] m

  unfoldable pub authenticate_for_source :
      ApiKeyRepository
      → GoString
      → GoString
      → Moment D
      → ApiKeyRepository × Result StoreError ApiKeyPrincipal
  authenticate_for_source r plaintext source m =
      if ltb (length plaintext) prefix_length || not (valid_identity_source source)
      then (r, err invalid_credential)
      else authenticate_any r plaintext source m
