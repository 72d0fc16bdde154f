-- ===== src/Tests/Keys.antt =====
-- Runs of internal/store/api_keys.go: a database with one key, which is live or not.
use cliproxy_new.Base.{
  ℕ, ◌≡◌, refl, Bool, true, false, none, some, List, [], ◌∷◌, pos, GoString, bytes, ◌==◌, nat_eq,
  list_eq, list_beq, int_eq, ok, err, arith,
}
use cliproxy_new.Store.{ldap, active, failed, valid_identity_source}
use cliproxy_new.Store.ApiKeys.{
  Hashing, KeyQueries, CandidateRow, Moment, ApiKeyPrincipal, ApiKeyRepository, new_repository,
  authenticate_for_source, revoke, invalidate_user, user_is_active, authenticate_any, verified_key,
  cache_key, find_candidates, find_rows, candidates_of, candidate_of,
}
use cliproxy_new.Cache.{new_ttl, add_duration, get, set, delete_where, clear}
use cliproxy_new.Cache.Reads.{visible, lives}
use cliproxy_new.Store.ApiKeys.Staleness.{IsOrdered}
use cliproxy_new.Store.ApiKeys.Calls.{KeyCall, authenticates, step, after, moments}
use cliproxy_new.Store.ApiKeys.History.{Evidence, authenticate-Evidence}
use cliproxy_new.Store.ApiKeys.Verdict.{verdict_for_source}
use cliproxy_new.Store.ApiKeys.Invalidation.{revoke-verdict, invalidate_user-active, stale_twice}

abbrev plain_hashing : Hashing
plain_hashing = record {
  sha256 = λ s. s;
  generate = λ salt s. some s;
  compare = λ hash plaintext. hash == plaintext;
}

abbrev one_row : CandidateRow
one_row = record {
  id = pos 7;
  user_id = pos 3;
  key_hash = bytes "sk-0123456789";
  status = bytes "active";
  expires_at = none;
  user_status = bytes "active";
}

abbrev rows_if : Bool → List CandidateRow
rows_if true = one_row ∷ []
rows_if false = []

abbrev one_key : KeyQueries Bool
one_key = record {
  create_api_key = λ p d. (err failed, d);
  find_candidates = λ prefix d. ok (rows_if d);
  find_candidates_for_source = λ prefix source d. ok (rows_if d);
  revoke_api_key = λ key_id user_id d. (ok 1, false);
  list_by_user = λ user_id d. ok [];
  user_status = λ user_id d. ok (bytes "active");
}

-- A call of a few nanoseconds that meets one state of the database.
abbrev moment_at : ℕ → Bool → Moment Bool
moment_at t live = record {
  verified_read = t;
  candidates_read = t;
  candidates_write = t;
  verified_write = t;
  at_find = live;
  at_user = live;
}

abbrev owner : ApiKeyPrincipal
owner = record { user_id = pos 3; api_key_id = pos 7 }

abbrev sk : GoString
sk = bytes "sk-0123456789"

moment-IsOrdered : (t : ℕ) (live : Bool) → IsOrdered (moment_at t live)
moment-IsOrdered t live = record {
  read_first = omega arith;
  then_find = omega arith;
  then_write = omega arith;
}

abbrev one_call : List (KeyCall Bool)
one_call = authenticates sk ldap (moment_at 5 true) ∷ []

authenticate-Evidence_example :
    Evidence plain_hashing one_key (moment_at 6 false ∷ moments one_call) sk ldap owner 6
unfolding moments after step new_repository authenticate_for_source authenticate_any find_candidates
    find_rows candidates_of candidate_of user_is_active invalidate_user revoke verified_key
    cache_key ldap active valid_identity_source list_beq new_ttl get set delete_where clear visible
    lives add_duration
authenticate-Evidence_example =
    authenticate-Evidence plain_hashing one_key one_call sk ldap (moment_at 6 false) owner
      (moment-IsOrdered 6 false, (moment-IsOrdered 5 true, tt)) refl

revoke-verdict_example :
    (authenticate_for_source plain_hashing one_key
      (revoke one_key
        (after plain_hashing one_key new_repository one_call)
        (pos 3)
        (pos 7)
        true).0.0
      sk
      ldap
      (moment_at 6 false)).1
    ≡ verdict_for_source plain_hashing one_key sk ldap (moment_at 6 false)
unfolding moments after step new_repository authenticate_for_source authenticate_any find_candidates
    find_rows candidates_of candidate_of user_is_active invalidate_user revoke verified_key
    cache_key ldap active valid_identity_source list_beq new_ttl get set delete_where clear visible
    lives add_duration
revoke-verdict_example =
    revoke-verdict plain_hashing one_key (after plain_hashing one_key new_repository one_call)
      (pos 3) (pos 7) true sk ldap (moment_at 6 false) refl

abbrev after_call : ApiKeyRepository
after_call = after plain_hashing one_key new_repository one_call

invalidate_user-active_example : user_is_active one_key (pos 3) true ≡ ok true
unfolding moments after step new_repository authenticate_for_source authenticate_any find_candidates
    find_rows candidates_of candidate_of user_is_active invalidate_user revoke verified_key
    cache_key ldap active valid_identity_source list_beq new_ttl get set delete_where clear visible
    lives add_duration
invalidate_user-active_example =
    invalidate_user-active plain_hashing one_key (pos 3) after_call sk ldap (moment_at 6 true) owner
      refl refl refl

-- The candidates were cached at 5, and are still served at 9 seconds; the verdict of that call is
-- served at 18 seconds, when the key has not been in the database for long.
abbrev seeded : ApiKeyRepository
seeded = record {
  candidates_cache = after_call.candidates_cache;
  verified_cache = new_repository.verified_cache;
}

stale_twice_example :
    ((authenticate_for_source plain_hashing one_key seeded sk ldap
        (moment_at 9_000_000_000 false)).1
      ≡ ok owner)
    × ((authenticate_for_source plain_hashing one_key
          (authenticate_for_source plain_hashing one_key seeded sk ldap
            (moment_at 9_000_000_000 false)).0
          sk
          ldap
          (moment_at 18_000_000_000 false)).1
        ≡ ok owner)
unfolding moments after step new_repository authenticate_for_source authenticate_any find_candidates
    find_rows candidates_of candidate_of user_is_active invalidate_user revoke verified_key
    cache_key ldap active valid_identity_source list_beq new_ttl get set delete_where clear visible
    lives add_duration
stale_twice_example =
    stale_twice plain_hashing one_key seeded sk ldap (moment_at 9_000_000_000 false)
      (moment_at 18_000_000_000 false) (record { id = pos 7; user_id = pos 3; key_hash = sk }) []
      refl refl refl refl refl refl
