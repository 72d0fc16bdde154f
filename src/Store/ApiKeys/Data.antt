-- ===== src/Store/ApiKeys/Data.antt =====
-- The data of internal/store/api_keys.go: keys and principals (models.go), the entries of the two
-- caches, the rows of the queries, and what a call of `authenticate` meets.
use cliproxy_new.Base.{
  ℕ, ◌≡◌, Bool, true, ◌&&◌, Option, none, some, List, [], ◌∷◌, ℤ, int_eq, GoString, Comparable,
  ◌==◌, ◌↔◌, list_eq, nat_eq, ==_iff, arith, Result,
}
use cliproxy_new.Cache.{Ttl}
use cliproxy_new.Store.{QueryError}

-- Package crypto/sha256 and golang.org/x/crypto/bcrypt. The salt of `generate` is an argument.
pub record Hashing : Type 0 where
  pub sha256 : GoString → GoString
  pub generate : ℕ → GoString → Option GoString
  pub compare : GoString → GoString → Bool

pub record ApiKeyPrincipal : Type 0 where
  pub user_id : ℤ
  pub api_key_id : ℤ

pub record ApiKeyCacheKey : Type 0 where
  pub prefix : GoString
  pub identity_source : GoString

pub record ApiKeyCandidate : Type 0 where
  pub id : ℤ
  pub user_id : ℤ
  pub key_hash : GoString

pub record VerifiedKey : Type 0 where
  pub digest : GoString
  pub identity_source : GoString

pub record ApiKeyRepository : Type 0 where
  pub candidates_cache : Option (Ttl ApiKeyCacheKey (List ApiKeyCandidate))
  pub verified_cache : Option (Ttl VerifiedKey ApiKeyPrincipal)

abbrev pub cache_key_beq : ApiKeyCacheKey → ApiKeyCacheKey → Bool
cache_key_beq a b = a.prefix == b.prefix && a.identity_source == b.identity_source

pub cache_key_beq_iff : (a b : ApiKeyCacheKey) → (cache_key_beq a b ≡ true) ↔ (a ≡ b)
cache_key_beq_iff a b =
    ground (arith, ==_iff a.prefix b.prefix, ==_iff a.identity_source b.identity_source)

instance abbrev pub cache_key_eq : Comparable ApiKeyCacheKey
cache_key_eq = record { equal = cache_key_beq; equal_iff = cache_key_beq_iff }

abbrev pub verified_key_beq : VerifiedKey → VerifiedKey → Bool
verified_key_beq a b = a.digest == b.digest && a.identity_source == b.identity_source

pub verified_key_beq_iff : (a b : VerifiedKey) → (verified_key_beq a b ≡ true) ↔ (a ≡ b)
verified_key_beq_iff a b =
    ground (arith, ==_iff a.digest b.digest, ==_iff a.identity_source b.identity_source)

instance abbrev pub verified_key_eq : Comparable VerifiedKey
verified_key_eq = record { equal = verified_key_beq; equal_iff = verified_key_beq_iff }

-- The rows of the queries that the repository reads.
pub record CandidateRow : Type 0 where
  pub id : ℤ
  pub user_id : ℤ
  pub key_hash : GoString
  pub status : GoString
  pub expires_at : Option ℕ
  pub user_status : GoString

pub record KeyRow : Type 0 where
  pub id : ℤ
  pub user_id : ℤ
  pub key_prefix : GoString
  pub name : Option GoString
  pub status : GoString
  pub expires_at : Option ℕ
  pub scope : GoString
  pub last_used_at : Option ℕ
  pub created_at : ℕ

pub record ApiKey : Type 0 where
  pub id : ℤ
  pub user_id : ℤ
  pub prefix : GoString
  pub name : GoString
  pub status : GoString
  pub expires_at : Option ℕ
  pub scope : GoString
  pub last_used_at : Option ℕ
  pub created_at : ℕ

pub record CreateKeyParams : Type 0 where
  pub user_id : ℤ
  pub plaintext : GoString
  pub name : GoString
  pub expires_at : Option ℕ
  pub scope : GoString

pub record InsertKeyParams : Type 0 where
  pub user_id : ℤ
  pub key_hash : GoString
  pub key_prefix : GoString
  pub name : Option GoString
  pub expires_at : Option ℕ
  pub scope : GoString

-- The sqlc queries of the repository over database states.
pub record KeyQueries (D : Type 0) : Type 0 where
  pub create_api_key : InsertKeyParams → D → Result QueryError KeyRow × D
  pub find_candidates : GoString → D → Result QueryError (List CandidateRow)
  pub find_candidates_for_source : GoString → GoString → D → Result QueryError (List CandidateRow)
  pub revoke_api_key : ℤ → ℤ → D → Result QueryError ℕ × D
  pub list_by_user : ℤ → D → Result QueryError (List KeyRow)
  pub user_status : ℤ → D → Result QueryError GoString

-- One call of `authenticate`: what the clock shows at its four uses, and the database when the
-- candidates and when the users are read.
pub record Moment (D : Type 0) : Type 0 where
  pub verified_read : ℕ
  pub candidates_read : ℕ
  pub candidates_write : ℕ
  pub verified_write : ℕ
  pub at_find : D
  pub at_user : D

unfoldable pub candidate_of : CandidateRow → ApiKeyCandidate
candidate_of row = record { id = row.id; user_id = row.user_id; key_hash = row.key_hash }

unfoldable pub candidates_of : List CandidateRow → List ApiKeyCandidate
unfolding candidate_of
candidates_of [] = []
candidates_of (row ∷ rows) = candidate_of row ∷ candidates_of rows

name_text : Option GoString → GoString
name_text none = []
name_text (some s) = s

unfoldable pub key_of_row : KeyRow → ApiKey
unfolding name_text
key_of_row row = record {
  id = row.id;
  user_id = row.user_id;
  prefix = row.key_prefix;
  name = name_text row.name;
  status = row.status;
  expires_at = row.expires_at;
  scope = row.scope;
  last_used_at = row.last_used_at;
  created_at = row.created_at;
}

unfoldable pub keys_of_rows : List KeyRow → List ApiKey
keys_of_rows [] = []
keys_of_rows (row ∷ rows) = key_of_row row ∷ keys_of_rows rows
