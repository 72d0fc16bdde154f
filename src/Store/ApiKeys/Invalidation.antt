-- ===== src/Store/ApiKeys/Invalidation.antt =====
-- What revocation and blocking change for the next authentication on the same replica, and what the
-- two caches let pass on another one.
use cliproxy_new.Base.{
  ℕ, ◌≡◌, ◌≢◌, ◌⊎◌, refl, sym, ◌∙◌, subst, true, false, ◌||◌, not, Option, none, some, List, [],
  ◌∷◌, ℤ, is_positive, length, ltb, ◌==◌, ==_iff, ==_refl, int_eq, nat_eq, GoString, arith, Result,
  ok, err, Bool-cases, inl, inr,
}
use cliproxy_new.Cache
use cliproxy_new.Cache.{Ttl}
use cliproxy_new.Cache.Reads.{
  visible, lives, lives-get, unless_match, get-visible, visible-set, visible-clear,
  visible-delete_where,
}
use cliproxy_new.Store.{StoreError, QueryError, valid_identity_source}
use cliproxy_new.Store.ApiKeys.{
  Hashing, ApiKeyPrincipal, ApiKeyCandidate, VerifiedKey, ApiKeyRepository, KeyQueries, Moment,
  cached_or_found, find_candidates, user_is_active, invalidate_user, revoked_rows, revoke, accept,
  check_candidates, check_found, cached_or_checked, authenticate_any, authenticate_for_source,
  verified_key, cache_key, cache_key_eq, verified_key_eq, prefix_length,
}
use cliproxy_new.Store.ApiKeys.Verdict.{verdict_for_source, for_source-verdict}

unmatched :
    (user_id : ℤ) (k : VerifiedKey) (o : Option ApiKeyPrincipal) (p : ApiKeyPrincipal)
    → p.user_id ≡ user_id
    → unless_match (λ _ p'. p'.user_id == user_id) k o ≢ some p
unmatched user_id k none p same = ground arith
unmatched user_id k (some p') p same = ground (arith, ==_iff p'.user_id user_id)

unlisted :
    (user_id : ℤ) (r : ApiKeyRepository) (k : VerifiedKey) (t : ℕ) (p : ApiKeyPrincipal)
    → is_positive user_id ≡ true
    → p.user_id ≡ user_id
    → visible (invalidate_user user_id r).verified_cache k t ≢ some p
unfolding invalidate_user
unlisted user_id r k t p valid same =
    rw (valid, visible-delete_where r.verified_cache (λ _ p'. p'.user_id == user_id) k t)
      (unmatched user_id k (visible r.verified_cache k t) p same)

module _ {D : Type 0} (h : Hashing) (q : KeyQueries D) where
  revoked_rows-verdict :
      (r : ApiKeyRepository) (n : Result QueryError ℕ) (plaintext source : GoString) (m : Moment D)
      → (revoked_rows q r n).1 ≡ ok tt
      → (authenticate_for_source h q (revoked_rows q r n).0 plaintext source m).1
        ≡ verdict_for_source h q plaintext source m
  unfolding revoked_rows
  revoked_rows-verdict r (err e) plaintext source m done = absurd (ground arith)
  revoked_rows-verdict r (ok n) plaintext source m done = elim (Bool-cases (n == 0)) [
    | inl nothing ↦ absurd (ground arith)
    | inr some_rows ↦ rw some_rows (
        for_source-verdict h q _ plaintext source m (visible-clear r.verified_cache)
          (visible-clear r.candidates_cache))
  ]

  -- A revocation that succeeds leaves nothing in the caches of its replica: whatever they held, the
  -- next authentication of any text answers what the database says at that moment.
  pub revoke-verdict :
      (r : ApiKeyRepository) (user_id key_id : ℤ) (d : D) (plaintext source : GoString)
      (m : Moment D)
      → (revoke q r user_id key_id d).0.1 ≡ ok tt
      → (authenticate_for_source h q (revoke q r user_id key_id d).0.0 plaintext source m).1
        ≡ verdict_for_source h q plaintext source m
  unfolding revoke
  revoke-verdict r user_id key_id d plaintext source m done =
      revoked_rows-verdict r (q.revoke_api_key key_id user_id d).0 plaintext source m done

  -- Who is accepted without the verified cache was active in the database.
  check-active :
      (r : ApiKeyRepository) (key : VerifiedKey) (plaintext : GoString) (m : Moment D)
      (cs : List ApiKeyCandidate) (p : ApiKeyPrincipal)
      → (check_candidates h q r key plaintext m cs).1 ≡ ok p
      → user_is_active q p.user_id m.at_user ≡ ok true
  unfolding check_candidates accept
  check-active r key plaintext m [] p e = absurd (ground arith)
  check-active r key plaintext m (c ∷ cs) p e = ground (arith, check-active r key plaintext m cs p)

  found-active :
      (key : VerifiedKey) (plaintext : GoString) (m : Moment D)
      (f : ApiKeyRepository × Result StoreError (List ApiKeyCandidate)) (p : ApiKeyPrincipal)
      → (check_found h q key plaintext m f).1 ≡ ok p
      → user_is_active q p.user_id m.at_user ≡ ok true
  unfolding check_found
  found-active key plaintext m (r, err e) p q' = absurd (ground arith)
  found-active key plaintext m (r, ok cs) p e = check-active r key plaintext m cs p e

  -- Whoever is accepted stood in the verified cache, or was active.
  hit-or-active :
      (r : ApiKeyRepository) (plaintext source : GoString) (m : Moment D) (p : ApiKeyPrincipal)
      (hit : Option ApiKeyPrincipal)
      → (cached_or_checked h q r plaintext source m hit).1 ≡ ok p
      → (hit ≡ some p) ⊎ (user_is_active q p.user_id m.at_user ≡ ok true)
  unfolding cached_or_checked
  hit-or-active r plaintext source m p (some p') e = inl (ground arith)
  hit-or-active r plaintext source m p none e = inr (found-active _ plaintext m _ p e)

  -- After the entries of a user, with a positive ID, are dropped, the user is accepted by no text unless the database called
  -- the user active during that very call; this holds whatever the caches held before.
  pub invalidate_user-active :
      (user_id : ℤ) (r : ApiKeyRepository) (plaintext source : GoString) (m : Moment D)
      (p : ApiKeyPrincipal)
      → is_positive user_id ≡ true
      → p.user_id ≡ user_id
      → (authenticate_for_source h q (invalidate_user user_id r) plaintext source m).1 ≡ ok p
      → user_is_active q user_id m.at_user ≡ ok true
  unfolding authenticate_for_source authenticate_any
  invalidate_user-active user_id r plaintext source m p valid same e =
      elim (Bool-cases
        (ltb (length plaintext) prefix_length || not (valid_identity_source source))) [
          | inl bad ↦ absurd (ground arith)
          | inr good ↦
              elim (hit-or-active _ plaintext source m p
                (Cache.get (invalidate_user user_id r).verified_cache key m.verified_read).1
                (rw good at e)) [
                  | inl hit ↦ absurd (
                      unlisted user_id r key m.verified_read p valid same (
                        sym (
                          get-visible (invalidate_user user_id r).verified_cache key
                            m.verified_read)
                        ∙ hit))
                  | inr state ↦ subst (λ u. user_is_active q u m.at_user ≡ ok true) same state
                ]
        ]
    where
      key : VerifiedKey
      key = verified_key h plaintext source

  accepted : ApiKeyRepository → GoString → GoString → Moment D → ApiKeyCandidate → ApiKeyRepository
  accepted r plaintext source m c =
      let vk = verified_key h plaintext source in
      let p : ApiKeyPrincipal = record { user_id = c.user_id; api_key_id = c.id } in
      record {
        candidates_cache =
            (Cache.get r.candidates_cache (cache_key plaintext source) m.candidates_read).0;
        verified_cache =
            Cache.set (Cache.get r.verified_cache vk m.verified_read).0 vk p m.verified_write;
      }

  cached-accept :
      (r : ApiKeyRepository) (plaintext source : GoString) (m : Moment D) (c : ApiKeyCandidate)
      (cs : List ApiKeyCandidate)
      → visible r.verified_cache (verified_key h plaintext source) m.verified_read ≡ none
      → visible r.candidates_cache (cache_key plaintext source) m.candidates_read ≡ some (c ∷ cs)
      → h.compare c.key_hash plaintext ≡ true
      → user_is_active q c.user_id m.at_user ≡ ok true
      → authenticate_any h q r plaintext source m
        ≡ (accepted r plaintext source m c, ok (record { user_id = c.user_id; api_key_id = c.id }))
  unfolding authenticate_any cached_or_checked find_candidates cached_or_found check_found
      check_candidates accept accepted
  cached-accept r plaintext source m c cs nv yc fits state =
      let vk = verified_key h plaintext source in
      let ck = cache_key plaintext source in
      rw (get-visible r.verified_cache vk m.verified_read ∙ nv, cached_or_checked)
        (rw (get-visible r.candidates_cache ck m.candidates_read ∙ yc, cached_or_found)
          (rw (fits, state) refl))

  verified-accept :
      (r : ApiKeyRepository) (plaintext source : GoString) (m : Moment D) (p : ApiKeyPrincipal)
      → visible r.verified_cache (verified_key h plaintext source) m.verified_read ≡ some p
      → (authenticate_any h q r plaintext source m).1 ≡ ok p
  unfolding authenticate_any cached_or_checked
  verified-accept r plaintext source m p yv = rw (
    get-visible r.verified_cache (verified_key h plaintext source) m.verified_read ∙ yv,
    cached_or_checked,
  )

  accepted-visible :
      (r : ApiKeyRepository) (plaintext source : GoString) (m : Moment D) (c : ApiKeyCandidate)
      (t : ℕ)
      → lives r.verified_cache m.verified_write t ≡ true
      → visible (accepted r plaintext source m c).verified_cache (verified_key h plaintext source) t
        ≡ some (record { user_id = c.user_id; api_key_id = c.id })
  unfolding accepted
  accepted-visible r plaintext source m c t alive =
      let vk = verified_key h plaintext source in
      let p : ApiKeyPrincipal = record { user_id = c.user_id; api_key_id = c.id } in
      rw (
        visible-set (Cache.get r.verified_cache vk m.verified_read).0 vk vk p m.verified_write t,
        ==_refl vk,
        lives-get r.verified_cache vk m.verified_read m.verified_write t,
        alive,
      )

  -- For a text that is long enough, a known source and no entry in the verified cache: if the
  -- candidates cache shows, first, a candidate whose hash fits and whose user is active, the text is
  -- accepted, and it is accepted again by a later call that reads the verified cache while the entry
  -- lives that the first call writes, whatever the database says of the key at either call.
  pub stale_twice :
      (r : ApiKeyRepository) (plaintext source : GoString) (m m' : Moment D) (c : ApiKeyCandidate)
      (cs : List ApiKeyCandidate)
      → (ltb (length plaintext) prefix_length || not (valid_identity_source source)) ≡ false
      → visible r.verified_cache (verified_key h plaintext source) m.verified_read ≡ none
      → visible r.candidates_cache (cache_key plaintext source) m.candidates_read ≡ some (c ∷ cs)
      → h.compare c.key_hash plaintext ≡ true
      → user_is_active q c.user_id m.at_user ≡ ok true
      → lives r.verified_cache m.verified_write m'.verified_read ≡ true
      → let p : ApiKeyPrincipal = record { user_id = c.user_id; api_key_id = c.id } in
        let (r', first) = authenticate_for_source h q r plaintext source m in
        (first ≡ ok p) × ((authenticate_for_source h q r' plaintext source m').1 ≡ ok p)
  unfolding authenticate_for_source
  stale_twice r plaintext source m m' c cs good nv yc fits state alive =
      rw (good, cached-accept r plaintext source m c cs nv yc fits state)
        (
          refl,
          verified-accept _ plaintext source m' _ (accepted-visible r plaintext source m c _ alive),
        )
