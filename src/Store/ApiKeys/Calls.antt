-- ===== src/Store/ApiKeys/Calls.antt =====
-- Calls of the repository of internal/store/api_keys.go in sequence, each with the database states
-- that it meets, and the invariant of its caches.
use cliproxy_new.Base.{
  ℕ, ◌||◌, not, Option, none, some, List, [], ◌∷◌, ℤ, is_positive, length, ltb, ◌==◌, nat_eq,
  GoString, Result, ok, err, Bool-cases, inl, inr, All,
}
use cliproxy_new.Cache.Entries.{Holds-new_ttl, Holds-clear, Holds-delete, Holds-delete_where}
use cliproxy_new.Store.{QueryError, valid_identity_source}
use cliproxy_new.Store.ApiKeys.{
  Hashing, ApiKeyCacheKey, ApiKeyCandidate, ApiKeyRepository, KeyRow, KeyQueries, Moment,
  CreateKeyParams, api_key_cache_ttl, new_repository, invalidate_candidates, invalidate_user,
  inserted, create_hashed, create, revoked_rows, revoke, authenticate, authenticate_for_source,
  verified_key, cache_key_eq, prefix_length,
}
use cliproxy_new.Store.ApiKeys.Staleness.{Inv, Answers, CandidateEntry, Good, authenticate_any-Good}

pub data KeyCall (D : Type 0) : Type 0 where
  authenticates : GoString → GoString → Moment D → KeyCall D
  authenticates_any : GoString → Moment D → KeyCall D
  creates : ℕ → CreateKeyParams → D → KeyCall D
  revokes : ℤ → ℤ → D → KeyCall D
  invalidates : ℤ → KeyCall D

module _ {D : Type 0} (h : Hashing) (q : KeyQueries D) where
  unfoldable pub step : ApiKeyRepository → KeyCall D → ApiKeyRepository
  step r (authenticates plaintext source m) = (authenticate_for_source h q r plaintext source m).0
  step r (authenticates_any plaintext m) = (authenticate h q r plaintext m).0
  step r (creates salt p d) = (create h q r salt p d).0.0
  step r (revokes user_id key_id d) = (revoke q r user_id key_id d).0.0
  step r (invalidates user_id) = invalidate_user user_id r

  unfoldable pub after : ApiKeyRepository → List (KeyCall D) → ApiKeyRepository
  after r [] = r
  after r (c ∷ cs) = after (step r c) cs

  module _ (Fetched : ApiKeyCacheKey → List ApiKeyCandidate → ℕ → Type 0)
      (Active : ℤ → ℕ → ℕ → Type 0) where
    abbrev pub Ok : ApiKeyRepository → Type 0
    Ok = Inv h q Fetched Active

    invalidate_candidates-Inv :
        (r : ApiKeyRepository) (prefix : GoString) → Ok r → Ok (invalidate_candidates prefix r)
    unfolding invalidate_candidates
    invalidate_candidates-Inv r prefix v =
        let P = CandidateEntry h q Fetched Active in
        let ttl = api_key_cache_ttl in
        record {
          candidates =
              Holds-delete P ttl _ _
                (Holds-delete P ttl _ _ (Holds-delete P ttl r.candidates_cache _ v.candidates));
          verified = v.verified;
        }

    inserted-Inv :
        (r : ApiKeyRepository) (prefix : GoString) (row : Result QueryError KeyRow)
        → Ok r
        → Ok (inserted h q r prefix row).0
    unfolding inserted
    inserted-Inv r prefix (err e) v = v
    inserted-Inv r prefix (ok row) v = invalidate_candidates-Inv r prefix v

    create_hashed-Inv :
        (r : ApiKeyRepository) (p : CreateKeyParams) (d : D) (hash : Option GoString)
        → Ok r
        → Ok (create_hashed h q r p d hash).0.0
    unfolding create_hashed
    create_hashed-Inv r p d none v = v
    create_hashed-Inv r p d (some hash) v = inserted-Inv r _ _ v

    create-Inv :
        (r : ApiKeyRepository) (salt : ℕ) (p : CreateKeyParams) (d : D)
        → Ok r
        → Ok (create h q r salt p d).0.0
    unfolding create
    create-Inv r salt p d v =
        elim (Bool-cases (not (is_positive p.user_id) || ltb (length p.plaintext) prefix_length)) [
          | inl bad ↦ rw bad v
          | inr good ↦ rw good (create_hashed-Inv r p d _ v)
        ]

    revoked_rows-Inv :
        (r : ApiKeyRepository) (n : Result QueryError ℕ) → Ok r → Ok (revoked_rows q r n).0
    unfolding revoked_rows
    revoked_rows-Inv r (err e) v = v
    revoked_rows-Inv r (ok n) v = elim (Bool-cases (n == 0)) [
      | inl none_left ↦ rw none_left v
      | inr some_left ↦ rw some_left (record {
        candidates = Holds-clear _ api_key_cache_ttl r.candidates_cache v.candidates;
        verified = Holds-clear _ api_key_cache_ttl r.verified_cache v.verified;
      })
    ]

    invalidate_user-Inv :
        (r : ApiKeyRepository) (user_id : ℤ) → Ok r → Ok (invalidate_user user_id r)
    unfolding invalidate_user
    invalidate_user-Inv r user_id v = elim (Bool-cases (is_positive user_id)) [
      | inl valid ↦ rw valid (record {
        candidates = v.candidates;
        verified = Holds-delete_where _ api_key_cache_ttl r.verified_cache _ v.verified;
      })
      | inr invalid ↦ rw invalid v
    ]

    pub authenticate_for_source-Good :
        (r : ApiKeyRepository) (plaintext source : GoString) (m : Moment D)
        → Ok r
        → Answers h q Fetched Active m
        → Good h q Fetched Active
            (verified_key h plaintext source)
            m
            (authenticate_for_source h q r plaintext source m)
    unfolding authenticate_for_source
    authenticate_for_source-Good r plaintext source m v a =
        elim (Bool-cases
          (ltb (length plaintext) prefix_length || not (valid_identity_source source))) [
            | inl bad ↦ rw bad (v, tt)
            | inr good ↦ rw good (authenticate_any-Good h q Fetched Active r plaintext source m v a)
          ]

    authenticate-Inv :
        (r : ApiKeyRepository) (plaintext : GoString) (m : Moment D)
        → Ok r
        → Answers h q Fetched Active m
        → Ok (authenticate h q r plaintext m).0
    unfolding authenticate
    authenticate-Inv r plaintext m v a = elim (Bool-cases (ltb (length plaintext) prefix_length)) [
      | inl bad ↦ rw bad v
      | inr good ↦ rw good (authenticate_any-Good h q Fetched Active r plaintext [] m v a).0
    ]

    -- What the database answers to the call is on record.
    abbrev pub Recorded : KeyCall D → Type 0
    Recorded (authenticates plaintext source m) = Answers h q Fetched Active m
    Recorded (authenticates_any plaintext m) = Answers h q Fetched Active m
    Recorded _ = Unit

    step-Inv : (r : ApiKeyRepository) (c : KeyCall D) → Recorded c → Ok r → Ok (step r c)
    unfolding step revoke
    step-Inv r (authenticates plaintext source m) a v =
        (authenticate_for_source-Good r plaintext source m v a).0
    step-Inv r (authenticates_any plaintext m) a v = authenticate-Inv r plaintext m v a
    step-Inv r (creates salt p d) a v = create-Inv r salt p d v
    step-Inv r (revokes user_id key_id d) a v =
        revoked_rows-Inv r (q.revoke_api_key key_id user_id d).0 v
    step-Inv r (invalidates user_id) a v = invalidate_user-Inv r user_id v

    pub after-Inv :
        (r : ApiKeyRepository) (cs : List (KeyCall D)) → All Recorded cs → Ok r → Ok (after r cs)
    unfolding after
    after-Inv r [] a v = v
    after-Inv r (c ∷ cs) a v = after-Inv (step r c) cs a.1 (step-Inv r c a.0 v)

    pub new_repository-Inv : Ok new_repository
    unfolding new_repository
    new_repository-Inv = record {
      candidates = Holds-new_ttl _ api_key_cache_ttl;
      verified = Holds-new_ttl _ api_key_cache_ttl;
    }

-- The moments of the calls that authenticate.
unfoldable pub moments : {D : Type 0} → List (KeyCall D) → List (Moment D)
moments [] = []
moments (authenticates plaintext source m ∷ cs) = m ∷ moments cs
moments (authenticates_any plaintext m ∷ cs) = m ∷ moments cs
moments (_ ∷ cs) = moments cs
