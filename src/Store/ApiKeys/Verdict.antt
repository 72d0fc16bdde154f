-- ===== src/Store/ApiKeys/Verdict.antt =====
-- What the database alone says of a text, without the caches of internal/store/api_keys.go.
use cliproxy_new.Base.{
  ℕ, ◌≡◌, refl, ◌∙◌, true, false, ◌||◌, not, none, List, [], ◌∷◌, length, ltb, int_eq, nat_eq,
  if◌then◌else◌, GoString, arith, Result, ok, err, Bool-cases, inl, inr,
}
use cliproxy_new.Cache.Reads.{visible, get-visible}
use cliproxy_new.Store.{StoreError, invalid_credential, other, QueryError, valid_identity_source}
use cliproxy_new.Store.ApiKeys.{
  Hashing, ApiKeyPrincipal, ApiKeyCacheKey, VerifiedKey, ApiKeyRepository, CandidateRow, KeyQueries,
  Moment, candidates_of, find_rows, store_candidates, cached_or_found, find_candidates,
  user_is_active, accept, check_candidates, check_found, cached_or_checked, authenticate_any,
  authenticate_for_source, verified_key, cache_key, cache_key_eq, verified_key_eq, prefix_length,
}

module _ {D : Type 0} (h : Hashing) (q : KeyQueries D) where
  -- The database's own verdict, with no cache: of the rows in order, the first whose hash fits and
  -- whose user is active.
  pub verdict : GoString → D → List CandidateRow → Result StoreError ApiKeyPrincipal
  verdict plaintext d [] = err invalid_credential
  verdict plaintext d (row ∷ rows) =
      let rest = verdict plaintext d rows in
      if h.compare row.key_hash plaintext
      then elim (user_is_active q row.user_id d) [
        | err e ↦ err e
        | ok true ↦ ok (record { user_id = row.user_id; api_key_id = row.id })
        | ok false ↦ rest
      ]
      else rest

  pub verdict_of_rows :
      GoString → D → Result QueryError (List CandidateRow) → Result StoreError ApiKeyPrincipal
  verdict_of_rows plaintext d (err e) = err other
  verdict_of_rows plaintext d (ok rows) = verdict plaintext d rows

  pub verdict_for_source : GoString → GoString → Moment D → Result StoreError ApiKeyPrincipal
  verdict_for_source plaintext source m =
      if ltb (length plaintext) prefix_length || not (valid_identity_source source)
      then err invalid_credential
      else verdict_of_rows plaintext m.at_user (find_rows q (cache_key plaintext source) m.at_find)

  check-verdict :
      (r : ApiKeyRepository) (key : VerifiedKey) (plaintext : GoString) (m : Moment D)
      (rows : List CandidateRow)
      → (check_candidates h q r key plaintext m (candidates_of rows)).1
        ≡ verdict plaintext m.at_user rows
  unfolding check_candidates candidates_of accept verdict
  check-verdict r key plaintext m [] = refl
  check-verdict r key plaintext m (row ∷ rows) =
      ground (arith, check-verdict r key plaintext m rows)

  found-verdict :
      (r : ApiKeyRepository) (ck : ApiKeyCacheKey) (vk : VerifiedKey) (plaintext : GoString)
      (m : Moment D) (a : Result QueryError (List CandidateRow))
      → (check_found h q vk plaintext m (store_candidates q r ck m.candidates_write a)).1
        ≡ verdict_of_rows plaintext m.at_user a
  unfolding check_found store_candidates verdict_of_rows
  found-verdict r ck vk plaintext m (err e) = refl
  found-verdict r ck vk plaintext m (ok rows) = check-verdict _ vk plaintext m rows

  uncached-verdict :
      (r : ApiKeyRepository) (plaintext source : GoString) (m : Moment D)
      → visible r.verified_cache (verified_key h plaintext source) m.verified_read ≡ none
      → visible r.candidates_cache (cache_key plaintext source) m.candidates_read ≡ none
      → (authenticate_any h q r plaintext source m).1
        ≡ verdict_of_rows plaintext m.at_user (find_rows q (cache_key plaintext source) m.at_find)
  unfolding authenticate_any cached_or_checked find_candidates cached_or_found
  uncached-verdict r plaintext source m nv nc =
      let vk = verified_key h plaintext source in
      let ck = cache_key plaintext source in
      rw (get-visible r.verified_cache vk m.verified_read ∙ nv, cached_or_checked)
        (rw (get-visible r.candidates_cache ck m.candidates_read ∙ nc, cached_or_found)
          (found-verdict _ ck vk plaintext m (find_rows q ck m.at_find)))

  -- Where the caches show nothing, the answer is the database's verdict.
  pub for_source-verdict :
      (r : ApiKeyRepository) (plaintext source : GoString) (m : Moment D)
      → ((k : VerifiedKey) (t : ℕ) → visible r.verified_cache k t ≡ none)
      → ((k : ApiKeyCacheKey) (t : ℕ) → visible r.candidates_cache k t ≡ none)
      → (authenticate_for_source h q r plaintext source m).1 ≡ verdict_for_source plaintext source m
  unfolding authenticate_for_source verdict_for_source
  for_source-verdict r plaintext source m nv nc =
      elim (Bool-cases
        (ltb (length plaintext) prefix_length || not (valid_identity_source source))) [
          | inl bad ↦ rw bad refl
          | inr good ↦ rw good (uncached-verdict r plaintext source m (nv _ _) (nc _ _))
        ]
