-- ===== src/Store/ApiKeys/Staleness.antt =====
-- How old the evidence behind an accepted API key can be, over every history of calls.
use cliproxy_new.Base.{
  ℕ, Among, ◌+◌, ◌≤◌, ◌<◌, ◌≡◌, refl, Bool, true, false, Option, none, some, List, [], ◌∷◌, ℤ,
  GoString, arith, Result, ok, err, Bool-cases, inl, inr,
}
use cliproxy_new.Cache
use cliproxy_new.Cache.{add_duration}
use cliproxy_new.Cache.Entries.{Holds, Holds-get, Holds-set, get-Holds}
use cliproxy_new.Store.{StoreError, QueryError}
use cliproxy_new.Store.ApiKeys.{
  Hashing, ApiKeyPrincipal, ApiKeyCacheKey, ApiKeyCandidate, VerifiedKey, ApiKeyRepository,
  CandidateRow, KeyQueries, Moment, api_key_cache_ttl, candidates_of, find_rows, store_candidates,
  find_candidates, cached_or_found, accept, cached_or_checked, user_is_active, check_candidates,
  check_found, authenticate_any, verified_key, cache_key, cache_key_eq, verified_key_eq,
}

-- The clock does not run backwards within a call.
pub record IsOrdered {D : Type 0} (m : Moment D) : Type 0 where
  pub read_first : m.verified_read ≤ m.candidates_read
  pub then_find : m.candidates_read ≤ m.candidates_write
  pub then_write : m.candidates_write ≤ m.verified_write

abbrev pub ttl : ℕ
ttl = 10_000_000_000

-- `Fetched key cs t`: the database gave the candidates `cs` for `key` to a call that stored them at
-- `t`. `Active user s t`: a call that looked for candidates at `s` found the user active, and stored
-- its result at `t`.
module _ {D : Type 0} (h : Hashing) (q : KeyQueries D)
    (Fetched : ApiKeyCacheKey → List ApiKeyCandidate → ℕ → Type 0)
    (Active : ℤ → ℕ → ℕ → Type 0) where
  abbrev pub CandidateEntry : ApiKeyCacheKey → List ApiKeyCandidate → ℕ → Type 0
  CandidateEntry key cs expires = (t : ℕ) × (expires ≡ t + ttl) × Fetched key cs t

  -- The evidence for a principal that is stored at `stored`.
  pub record Checked (key : VerifiedKey) (p : ApiKeyPrincipal) (stored : ℕ) : Type 0 where
    pub plaintext : GoString
    pub same_digest : h.sha256 plaintext ≡ key.digest
    pub candidates : List ApiKeyCandidate
    pub listed : ℕ
    pub looked : ℕ
    pub fetched : Fetched (cache_key plaintext key.identity_source) candidates listed
    pub recent : looked < listed + ttl
    pub candidate : ApiKeyCandidate
    pub member : Among candidate candidates
    pub same_user : candidate.user_id ≡ p.user_id
    pub same_key : candidate.id ≡ p.api_key_id
    pub hash_fits : h.compare candidate.key_hash plaintext ≡ true
    pub was_active : Active p.user_id looked stored

  abbrev pub VerifiedEntry : VerifiedKey → ApiKeyPrincipal → ℕ → Type 0
  VerifiedEntry key p expires = (t : ℕ) × (expires ≡ t + ttl) × Checked key p t

  pub record Inv (r : ApiKeyRepository) : Type 0 where
    pub candidates : Holds CandidateEntry api_key_cache_ttl r.candidates_cache
    pub verified : Holds VerifiedEntry api_key_cache_ttl r.verified_cache

  -- What the database answers to a call is on record.
  pub record Answers (m : Moment D) : Type 0 where
    pub ordered : IsOrdered m
    pub finds :
        (key : ApiKeyCacheKey) (rows : List CandidateRow)
        → find_rows q key m.at_find ≡ ok rows
        → Fetched key (candidates_of rows) m.candidates_write
    pub users :
        (user : ℤ)
        → user_is_active q user m.at_user ≡ ok true
        → Active user m.candidates_read m.verified_write

  -- The evidence for the candidates that a lookup returns.
  abbrev Found : ApiKeyCacheKey → Moment D → Result StoreError (List ApiKeyCandidate) → Type 0
  Found key m (err e) = Unit
  Found key m (ok cs) = (t : ℕ) × Fetched key cs t × (m.candidates_read < t + ttl)

  store_candidates-Inv :
      (r : ApiKeyRepository) (key : ApiKeyCacheKey) (m : Moment D)
      (a : Result QueryError (List CandidateRow))
      → find_rows q key m.at_find ≡ a
      → Inv r
      → Answers m
      → let (r', cs) = store_candidates q r key m.candidates_write a in Inv r' × Found key m cs
  unfolding store_candidates add_duration
  store_candidates-Inv r key m (err e) same v a = (v, tt)
  store_candidates-Inv r key m (ok rows) same v a =
      let new = a.finds key rows same in
      (
        record {
          candidates =
              Holds-set CandidateEntry api_key_cache_ttl r.candidates_cache key _ _ v.candidates
                (m.candidates_write, refl, new);
          verified = v.verified;
        },
        (m.candidates_write, new, omega (arith, a.ordered.then_find)),
      )

  cached_or_found-Inv :
      (r : ApiKeyRepository) (key : ApiKeyCacheKey) (m : Moment D)
      (hit : Option (List ApiKeyCandidate))
      → ((cs : List ApiKeyCandidate) → hit ≡ some cs → Found key m (ok cs))
      → Inv r
      → Answers m
      → let (r', cs) = cached_or_found q r key m hit in Inv r' × Found key m cs
  unfolding cached_or_found
  cached_or_found-Inv r key m (some cs) old v a = (v, old cs refl)
  cached_or_found-Inv r key m none old v a = store_candidates-Inv r key m _ refl v a

  find_candidates-Inv :
      (r : ApiKeyRepository) (key : ApiKeyCacheKey) (m : Moment D)
      → Inv r
      → Answers m
      → let (r', cs) = find_candidates q r key m in Inv r' × Found key m cs
  unfolding find_candidates
  find_candidates-Inv r key m v a =
      cached_or_found-Inv _ key m _ cached
        (record {
          candidates =
              Holds-get CandidateEntry api_key_cache_ttl r.candidates_cache key _ v.candidates;
          verified = v.verified;
        })
        a
    where
      cached :
          (cs : List ApiKeyCandidate)
          → (Cache.get r.candidates_cache key m.candidates_read).1 ≡ some cs
          → Found key m (ok cs)
      cached cs e =
          let (expires, (t, same, fetched), young) =
            get-Holds CandidateEntry api_key_cache_ttl r.candidates_cache key m.candidates_read cs
              v.candidates e in
          (t, fetched, omega (arith, same, young))

  -- The evidence for the principal that a call returns.
  abbrev pub Justified : VerifiedKey → Moment D → Result StoreError ApiKeyPrincipal → Type 0
  Justified key m (err e) = Unit
  Justified key m (ok p) = (t : ℕ) × Checked key p t × (m.verified_read < t + ttl)

  abbrev pub Good :
      VerifiedKey → Moment D → ApiKeyRepository × Result StoreError ApiKeyPrincipal → Type 0
  Good key m (r, p) = Inv r × Justified key m p

  accept-Good :
      (r : ApiKeyRepository) (key : VerifiedKey) (m : Moment D) (c : ApiKeyCandidate)
      (rest : ApiKeyRepository × Result StoreError ApiKeyPrincipal) (state : Result StoreError Bool)
      → Inv r
      → IsOrdered m
      → (state ≡ ok true
          → Checked key (record { user_id = c.user_id; api_key_id = c.id }) m.verified_write)
      → Good key m rest
      → Good key m (accept h q r key m c rest state)
  unfolding accept add_duration
  accept-Good r key m c rest (err e) v o new g = (v, tt)
  accept-Good r key m c rest (ok false) v o new g = g
  accept-Good r key m c rest (ok true) v o new g = (
    record {
      candidates = v.candidates;
      verified =
          Holds-set VerifiedEntry api_key_cache_ttl r.verified_cache key _ _ v.verified
            (m.verified_write, refl, new refl);
    },
    (m.verified_write, new refl, omega (arith, o.read_first, o.then_find, o.then_write)),
  )

  check_candidates-Good :
      (r : ApiKeyRepository) (key : VerifiedKey) (plaintext : GoString) (m : Moment D)
      (cs : List ApiKeyCandidate)
      → Inv r
      → IsOrdered m
      → ((c : ApiKeyCandidate)
          → Among c cs
          → h.compare c.key_hash plaintext ≡ true
          → user_is_active q c.user_id m.at_user ≡ ok true
          → Checked key (record { user_id = c.user_id; api_key_id = c.id }) m.verified_write)
      → Good key m (check_candidates h q r key plaintext m cs)
  unfolding check_candidates
  check_candidates-Good r key plaintext m [] v o all = (v, tt)
  check_candidates-Good r key plaintext m (c ∷ cs) v o all =
      let later = check_candidates-Good r key plaintext m cs v o (λ d n. all d (inr n)) in
      elim (Bool-cases (h.compare c.key_hash plaintext)) [
        | inl fits ↦ rw fits (accept-Good r key m c _ _ v o (λ e. all c (inl refl) fits e) later)
        | inr wrong ↦ rw wrong later
      ]

  check_found-Good :
      (plaintext source : GoString) (m : Moment D)
      (f : ApiKeyRepository × Result StoreError (List ApiKeyCandidate))
      → Answers m
      → Inv f.0 × Found (cache_key plaintext source) m f.1
      → Good
          (verified_key h plaintext source)
          m
          (check_found h q (verified_key h plaintext source) plaintext m f)
  unfolding check_found verified_key
  check_found-Good plaintext source m (r, err e) a (v, f) = (v, tt)
  check_found-Good plaintext source m (r, ok cs) a (v, (t, fetched, recent)) =
      check_candidates-Good r _ plaintext m cs v a.ordered λ c n fits state. record {
        plaintext = plaintext;
        same_digest = refl;
        candidates = cs;
        listed = t;
        looked = m.candidates_read;
        fetched = fetched;
        recent = recent;
        candidate = c;
        member = n;
        same_user = refl;
        same_key = refl;
        hash_fits = fits;
        was_active = a.users c.user_id state;
      }

  cached_or_checked-Good :
      (r : ApiKeyRepository) (plaintext source : GoString) (m : Moment D)
      (hit : Option ApiKeyPrincipal)
      → Inv r
      → Answers m
      → ((p : ApiKeyPrincipal)
          → hit ≡ some p
          → Justified (verified_key h plaintext source) m (ok p))
      → Good (verified_key h plaintext source) m (cached_or_checked h q r plaintext source m hit)
  unfolding cached_or_checked
  cached_or_checked-Good r plaintext source m (some p) v a old = (v, old p refl)
  cached_or_checked-Good r plaintext source m none v a old =
      check_found-Good plaintext source m _ a (find_candidates-Inv r _ m v a)

  -- A call keeps the evidence, and has some for what it returns.
  pub authenticate_any-Good :
      (r : ApiKeyRepository) (plaintext source : GoString) (m : Moment D)
      → Inv r
      → Answers m
      → Good (verified_key h plaintext source) m (authenticate_any h q r plaintext source m)
  unfolding authenticate_any
  authenticate_any-Good r plaintext source m v a =
      cached_or_checked-Good _ plaintext source m _
        (record {
          candidates = v.candidates;
          verified = Holds-get VerifiedEntry api_key_cache_ttl r.verified_cache _ _ v.verified;
        })
        a cached
    where
      key : VerifiedKey
      key = verified_key h plaintext source

      cached :
          (p : ApiKeyPrincipal)
          → (Cache.get r.verified_cache key m.verified_read).1 ≡ some p
          → Justified key m (ok p)
      cached p e =
          let (expires, (t, same, checked), young) =
            get-Holds VerifiedEntry api_key_cache_ttl r.verified_cache key m.verified_read p
              v.verified e in
          (t, checked, omega (arith, same, young))
