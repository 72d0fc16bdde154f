-- ===== src/Store/ApiKeys/History.antt =====
-- Histories of calls of the repository, from an empty one, while other replicas change the
-- database: each call carries the database states that it meets.
use cliproxy_new.Base.{
  ℕ, Among, ◌+◌, ◌<◌, ◌≡◌, refl, ap, sym, ◌∙◌, subst, true, List, [], ◌∷◌, ℤ, nat_eq, GoString,
  arith, ok, inl, inr, All,
}
use cliproxy_new.Store.ApiKeys.{
  Hashing, ApiKeyPrincipal, ApiKeyCacheKey, ApiKeyCandidate, CandidateRow, KeyQueries, Moment,
  new_repository, candidates_of, candidate_of, find_rows, user_is_active, authenticate_for_source,
  verified_key, cache_key, cache_key_eq,
}
use cliproxy_new.Store.ApiKeys.Staleness.{IsOrdered, ttl, Checked, Answers, Justified}
use cliproxy_new.Store.ApiKeys.Calls.{
  KeyCall, creates, authenticates, authenticates_any, revokes, invalidates, after, moments,
  Recorded, after-Inv, new_repository-Inv, authenticate_for_source-Good,
}

module _ {D : Type 0} (h : Hashing) (q : KeyQueries D) where
  -- A call of the history found these candidates in the database, and stored them at `t`.
  abbrev pub FetchedIn : List (Moment D) → ApiKeyCacheKey → List ApiKeyCandidate → ℕ → Type 0
  FetchedIn ms key cs t =
      (m : Moment D) × Among m ms
      × (m.candidates_write ≡ t)
      × (rows : List CandidateRow) × (find_rows q key m.at_find ≡ ok rows)
      × (candidates_of rows ≡ cs)

  -- A call of the history found the user active.
  abbrev pub ActiveIn : List (Moment D) → ℤ → ℕ → ℕ → Type 0
  ActiveIn ms user s t =
      (m : Moment D) × Among m ms
      × (m.candidates_read ≡ s)
      × (m.verified_write ≡ t)
      × (user_is_active q user m.at_user ≡ ok true)

  answers :
      (ms : List (Moment D)) (m : Moment D)
      → Among m ms
      → IsOrdered m
      → Answers h q (FetchedIn ms) (ActiveIn ms) m
  answers ms m n o = record {
    ordered = o;
    finds = λ key rows e. (m, n, refl, rows, e, refl);
    users = λ user e. (m, n, refl, refl, e);
  }

row_of :
    (rows : List CandidateRow) (c : ApiKeyCandidate)
    → Among c (candidates_of rows)
    → (row : CandidateRow) × Among row rows × (c ≡ candidate_of row)
unfolding candidates_of
row_of [] c n = absurd n
row_of (row ∷ rows) c (inl e) = (row, inl refl, e)
row_of (row ∷ rows) c (inr n) = let (found, m, e) = row_of rows c n in (found, inr m, e)

-- Why a principal was accepted for a plaintext at `now`: a row of the database whose hash fits a
-- text of the same digest, and its user active, both read by calls of the history, and how long ago.
pub record Evidence {D : Type 0} (h : Hashing) (q : KeyQueries D) (ms : List (Moment D))
    (plaintext source : GoString) (p : ApiKeyPrincipal) (now : ℕ) : Type 0 where
  pub presented : GoString
  pub same_digest : h.sha256 presented ≡ h.sha256 plaintext
  pub listing : Moment D
  pub listing_in : Among listing ms
  pub rows : List CandidateRow
  pub listed : find_rows q (cache_key presented source) listing.at_find ≡ ok rows
  pub row : CandidateRow
  pub row_in : Among row rows
  pub same_key : row.id ≡ p.api_key_id
  pub same_user : row.user_id ≡ p.user_id
  pub hash_fits : h.compare row.key_hash presented ≡ true
  pub check : Moment D
  pub check_in : Among check ms
  pub was_active : user_is_active q p.user_id check.at_user ≡ ok true
  pub listing_age : check.candidates_read < listing.candidates_write + ttl
  pub check_age : now < check.verified_write + ttl

module _ {D : Type 0} (h : Hashing) (q : KeyQueries D) where
  recorded :
      (ms : List (Moment D)) (cs : List (KeyCall D))
      → ((m : Moment D) → Among m (moments cs) → Among m ms)
      → All IsOrdered (moments cs)
      → All (Recorded h q (FetchedIn h q ms) (ActiveIn h q ms)) cs
  unfolding moments
  recorded ms [] sub o = tt
  recorded ms (authenticates plaintext source m ∷ cs) sub o =
      (answers h q ms m (sub m (inl refl)) o.0, recorded ms cs (λ n k. sub n (inr k)) o.1)
  recorded ms (authenticates_any plaintext m ∷ cs) sub o =
      (answers h q ms m (sub m (inl refl)) o.0, recorded ms cs (λ n k. sub n (inr k)) o.1)
  recorded ms (creates salt p d ∷ cs) sub o = (tt, recorded ms cs sub o)
  recorded ms (revokes user_id key_id d ∷ cs) sub o = (tt, recorded ms cs sub o)
  recorded ms (invalidates user_id ∷ cs) sub o = (tt, recorded ms cs sub o)

  evidence :
      (ms : List (Moment D)) (plaintext source : GoString) (p : ApiKeyPrincipal) (now t : ℕ)
      → Checked h q (FetchedIn h q ms) (ActiveIn h q ms) (verified_key h plaintext source) p t
      → now < t + ttl
      → Evidence h q ms plaintext source p now
  unfolding verified_key candidate_of
  evidence ms plaintext source p now t c young =
      let (listing, listing_in, listing_at, rows, found, same) = c.fetched in
      let (check, check_in, looked_at, stored_at, state) = c.was_active in
      let (row, row_in, of_row) =
        row_of rows c.candidate (subst (Among c.candidate) (sym same) c.member) in
      record {
        presented = c.plaintext;
        same_digest = c.same_digest;
        listing = listing;
        listing_in = listing_in;
        rows = rows;
        listed = found;
        row = row;
        row_in = row_in;
        same_key = ap (λ (d : ApiKeyCandidate). d.id) (sym of_row) ∙ c.same_key;
        same_user = ap (λ (d : ApiKeyCandidate). d.user_id) (sym of_row) ∙ c.same_user;
        hash_fits =
            subst (λ (d : ApiKeyCandidate). h.compare d.key_hash c.plaintext ≡ true) of_row
              c.hash_fits;
        check = check;
        check_in = check_in;
        was_active = state;
        listing_age = omega (arith, c.recent, looked_at, listing_at);
        check_age = omega (arith, young, stored_at);
      }

  -- Whatever the history, and whatever other replicas did to the database meanwhile: for a plaintext
  -- that `AuthenticateForSource` accepts, a text of its digest fits the hash of the accepted key,
  -- which the database listed for the prefix and the source, and the database called the key's user
  -- active. The user was read by a call of the history that stored its result less than ten seconds
  -- ago, and the key by one that stored its candidates less than ten seconds before that call looked
  -- for them. The clock is ordered within each call.
  pub authenticate-Evidence :
      (cs : List (KeyCall D)) (plaintext source : GoString) (m : Moment D) (p : ApiKeyPrincipal)
      → All IsOrdered (m ∷ moments cs)
      → (authenticate_for_source h q (after h q new_repository cs) plaintext source m).1 ≡ ok p
      → Evidence h q (m ∷ moments cs) plaintext source p m.verified_read
  authenticate-Evidence cs plaintext source m p o e =
      let ms = m ∷ moments cs in
      let F = FetchedIn h q ms in
      let A = ActiveIn h q ms in
      let v =
        after-Inv h q F A new_repository cs (recorded ms cs (λ n k. inr k) o.1)
          (new_repository-Inv h q F A) in
      let good =
        authenticate_for_source-Good h q F A _ plaintext source m v
          (answers h q ms m (inl refl) o.0) in
      let (t, checked, young) =
        subst (Justified h q F A (verified_key h plaintext source) m) e good.1 in
      evidence ms plaintext source p m.verified_read t checked young
