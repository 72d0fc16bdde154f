-- ===== src/Store/UsageEvents.antt =====
-- internal/store/usage_events.go: the repository of usage events, over an interface of its queries. A
-- row has int32 counters and NULL for an empty text.
pub mod Batches
use cliproxy_new.Base.{
  ℕ, ◌-◌, ◌%◌, Bool, true, false, ◌||◌, not, ltb, Option, none, some, List, [], ◌∷◌, map, ℤ, pos,
  negsuc, is_positive, is_negative, if◌then◌else◌, GoString, Result, ok, err, ◌>>=◌,
}
use cliproxy_new.Store.{StoreError, invalid_input, other, Done, QueryError, nullable_text}
use cliproxy_new.Usage.{UsageEvent}

pub record EventRow : Type 0 where
  pub user_id : Option ℤ
  pub api_key_id : Option ℤ
  pub upstream_account_id : Option GoString
  pub provider : Option GoString
  pub model : Option GoString
  pub input_tokens : ℤ
  pub output_tokens : ℤ
  pub reasoning_tokens : ℤ
  pub cached_tokens : ℤ
  pub total_tokens : ℤ
  pub status_code : ℤ
  pub error : Option GoString
  pub latency_ms : ℤ
  pub ttft_ms : ℤ
  pub is_failed : Bool

pub record Totals : Type 0 where
  pub request_count : ℤ
  pub failed_request_count : ℤ
  pub input_tokens : ℤ
  pub output_tokens : ℤ
  pub reasoning_tokens : ℤ
  pub cached_tokens : ℤ
  pub total_tokens : ℤ

-- The counts of a model or of an API key.
pub record Counts (K : Type 0) : Type 0 where
  pub key : K
  pub request_count : ℤ
  pub failed_request_count : ℤ
  pub total_tokens : ℤ

pub record UsageSummary : Type 0 where
  pub total : Totals
  pub by_model : List (Counts GoString)
  pub by_api_key : List (Counts ℤ)

-- The queries; a batch answers for each of its statements.
pub record EventQueries (D : Type 0) : Type 0 where
  pub insert_usage_event : EventRow → D → Result QueryError Done × D
  pub insert_usage_events : List EventRow → D → List (Result QueryError Done) × D
  pub touch_api_keys_last_used : List ℤ → D → Result QueryError Done × D
  pub get_usage_summary_by_user : ℤ → ℕ → ℕ → D → Result QueryError Totals
  pub list_usage_by_model_for_user :
      ℤ → ℕ → ℕ → D → Result QueryError (List (Counts (Option GoString)))
  pub list_usage_by_api_key_for_user : ℤ → ℕ → ℕ → D → Result QueryError (List (Counts (Option ℤ)))

-- The int32 of 32 bits.
signed : ℕ → ℤ
signed m = if ltb m 2_147_483_648 then pos m else negsuc (4_294_967_295 - m)

-- Go's conversion to int32, which wraps around.
pub int32 : ℤ → ℤ
unfolding signed
int32 (pos n) = signed (n % 4_294_967_296)
int32 (negsuc n) = signed (4_294_967_295 - n % 4_294_967_296)

abbrev pub above_max_int32 : ℤ → Bool
above_max_int32 (pos n) = ltb 2_147_483_647 n
above_max_int32 (negsuc n) = false

unfoldable pub any_outside : List ℤ → Bool
any_outside [] = false
any_outside (v ∷ vs) = (is_negative v || above_max_int32 v) || any_outside vs

unfoldable pub values : UsageEvent → List ℤ
values e =
    e.input_tokens ∷ e.output_tokens ∷ e.reasoning_tokens ∷ e.cached_tokens ∷ e.total_tokens
    ∷ e.latency_ms ∷ e.ttft_ms ∷ []

unfoldable pub row_of : UsageEvent → EventRow
row_of e = record {
  user_id = e.user_id;
  api_key_id = e.api_key_id;
  upstream_account_id = nullable_text e.upstream_account_id;
  provider = nullable_text e.provider;
  model = nullable_text e.model;
  input_tokens = int32 e.input_tokens;
  output_tokens = int32 e.output_tokens;
  reasoning_tokens = int32 e.reasoning_tokens;
  cached_tokens = int32 e.cached_tokens;
  total_tokens = int32 e.total_tokens;
  status_code = int32 e.status_code;
  error = nullable_text e.error;
  latency_ms = int32 e.latency_ms;
  ttft_ms = int32 e.ttft_ms;
  is_failed = e.is_failed;
}

unfoldable pub usage_event_params : UsageEvent → Result StoreError EventRow
usage_event_params e =
    if is_negative e.status_code || is_negative e.latency_ms || is_negative e.ttft_ms
    then err invalid_input
    else if any_outside (values e)
    then err invalid_input
    else if above_max_int32 e.status_code
    then err invalid_input
    else ok (row_of e)

-- The rows of a batch: the first event that has none ends the loop.
unfoldable pub batch_params : List UsageEvent → Result StoreError (List EventRow)
batch_params [] = ok []
batch_params (e ∷ events) = do
  row ← usage_event_params e
  rows ← batch_params events
  ok (row ∷ rows)

-- The first error of the batch.
unfoldable pub first_error : List (Result QueryError Done) → Result QueryError Done
first_error [] = ok tt
first_error (ok u ∷ results) = first_error results
first_error (err e ∷ results) = err e

unfoldable pub wrapped : {A : Type 0} → Result QueryError A → Result StoreError A
wrapped (err e) = err other
wrapped (ok a) = ok a

model_of : Option GoString → GoString
model_of none = []
model_of (some model) = model

key_of : Option ℤ → ℤ
key_of none = pos 0
key_of (some id) = id

abbrev with_key : {K L : Type 0} → (K → L) → Counts K → Counts L
with_key key c = record {
  key = key c.key;
  request_count = c.request_count;
  failed_request_count = c.failed_request_count;
  total_tokens = c.total_tokens;
}

module _ {D : Type 0} (q : EventQueries D) where
  insert_row : Result StoreError EventRow → D → Result StoreError Done × D
  insert_row (err e) d = (err e, d)
  insert_row (ok row) d = let (result, d') = q.insert_usage_event row d in (wrapped result, d')

  unfoldable pub insert : UsageEvent → D → Result StoreError Done × D
  unfolding insert_row
  insert e d = insert_row (usage_event_params e) d

  unfoldable pub insert_rows : Result StoreError (List EventRow) → D → Result StoreError Done × D
  insert_rows (err e) d = (err e, d)
  insert_rows (ok rows) d =
      let (results, d') = q.insert_usage_events rows d in (wrapped (first_error results), d')

  unfoldable pub insert_batch : List UsageEvent → D → Result StoreError Done × D
  insert_batch [] d = (ok tt, d)
  insert_batch (e ∷ events) d = insert_rows (batch_params (e ∷ events)) d

  unfoldable pub touch_api_keys_last_used : List ℤ → D → Result StoreError Done × D
  touch_api_keys_last_used [] d = (ok tt, d)
  touch_api_keys_last_used (id ∷ ids) d =
      let (result, d') = q.touch_api_keys_last_used (id ∷ ids) d in (wrapped result, d')

  unfoldable pub get_summary_by_user : ℤ → ℕ → ℕ → D → Result StoreError UsageSummary
  unfolding model_of key_of
  get_summary_by_user user_id from to d =
      if not (is_positive user_id) || not (ltb from to) then err invalid_input else do
        total ← wrapped (q.get_usage_summary_by_user user_id from to d)
        models ← wrapped (q.list_usage_by_model_for_user user_id from to d)
        keys ← wrapped (q.list_usage_by_api_key_for_user user_id from to d)
        ok (record {
          total = total;
          by_model = map (with_key model_of) models;
          by_api_key = map (with_key key_of) keys;
        })
