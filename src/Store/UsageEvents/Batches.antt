-- ===== src/Store/UsageEvents/Batches.antt =====
-- What internal/store/usage_events.go writes: the rows of events, and those of a batch.
use cliproxy_new.Base.{
  ◌<◌, ◌≡◌, refl, ◌⊎◌, inl, inr, Bool, true, false, Bool-cases, ◌||◌, Option, none, some, List, [],
  ◌∷◌, map, All, ℤ, pos, negsuc, is_negative, GoString, Result, ok, err, ◌>>=◌, arith,
}
use cliproxy_new.Store.{StoreError, invalid_input, other, Done, QueryError, nullable_text}
use cliproxy_new.Usage.{UsageEvent}
use cliproxy_new.Store.UsageEvents.{
  EventRow, EventQueries, signed, int32, above_max_int32, any_outside, values, row_of,
  usage_event_params, batch_params, first_error, wrapped, insert_rows, insert_batch,
}

-- A counter that int32 holds, and that is not negative.
abbrev pub Fits : ℤ → Type 0
Fits (pos n) = n < 2_147_483_648
Fits (negsuc n) = ⊥

abbrev pub FitsRow : UsageEvent → Type 0
FitsRow e = Fits e.status_code × All Fits (values e)

-- A row, read as the event it stands for.
text_of : Option GoString → GoString
text_of none = []
text_of (some s) = s

pub event_of : EventRow → UsageEvent
unfolding text_of
event_of r = record {
  user_id = r.user_id;
  api_key_id = r.api_key_id;
  upstream_account_id = text_of r.upstream_account_id;
  provider = text_of r.provider;
  model = text_of r.model;
  input_tokens = r.input_tokens;
  output_tokens = r.output_tokens;
  reasoning_tokens = r.reasoning_tokens;
  cached_tokens = r.cached_tokens;
  total_tokens = r.total_tokens;
  status_code = r.status_code;
  error = text_of r.error;
  latency_ms = r.latency_ms;
  ttft_ms = r.ttft_ms;
  is_failed = r.is_failed;
}

int32-Fits : (v : ℤ) → Fits v → int32 v ≡ v
unfolding int32 signed
int32-Fits (pos n) fits = ground arith
int32-Fits (negsuc n) fits = elim fits [ ]

text_of-nullable_text : (s : GoString) → text_of (nullable_text s) ≡ s
unfolding text_of nullable_text
text_of-nullable_text [] = refl
text_of-nullable_text (c ∷ s) = refl

outside-Fits : (v : ℤ) → (is_negative v || above_max_int32 v) ≡ false → Fits v
outside-Fits (pos n) inside = ground arith
outside-Fits (negsuc n) inside = cc

Fits-negative : (v : ℤ) → Fits v → is_negative v ≡ false
Fits-negative (pos n) fits = refl
Fits-negative (negsuc n) fits = elim fits [ ]

Fits-above : (v : ℤ) → Fits v → above_max_int32 v ≡ false
Fits-above (pos n) fits = ground arith
Fits-above (negsuc n) fits = elim fits [ ]

any_outside-All : (vs : List ℤ) → any_outside vs ≡ false → All Fits vs
unfolding any_outside
any_outside-All [] inside = tt
any_outside-All (v ∷ vs) inside = elim (Bool-cases (is_negative v || above_max_int32 v)) [
  | inl out ↦ cc (rw out at inside)
  | inr fits ↦ (outside-Fits v fits, any_outside-All vs (rw fits at inside))
]

All-any_outside : (vs : List ℤ) → All Fits vs → any_outside vs ≡ false
unfolding any_outside
All-any_outside [] fit = refl
All-any_outside (v ∷ vs) fit =
    rw (Fits-negative v fit.0) (rw (Fits-above v fit.0) (All-any_outside vs fit.1))

-- The row of an event that fits is read as the event.
row_of-event_of : (e : UsageEvent) → FitsRow e → event_of (row_of e) ≡ e
unfolding event_of row_of values
row_of-event_of e
      (status, (input, (output, (reasoning, (cached, (total, (latency, (ttft, u)))))))) =
    rw
      (
        int32-Fits e.status_code status,
        int32-Fits e.input_tokens input,
        int32-Fits e.output_tokens output,
        int32-Fits e.reasoning_tokens reasoning,
        int32-Fits e.cached_tokens cached,
        int32-Fits e.total_tokens total,
        int32-Fits e.latency_ms latency,
        int32-Fits e.ttft_ms ttft,
        text_of-nullable_text e.upstream_account_id,
        text_of-nullable_text e.provider,
        text_of-nullable_text e.model,
        text_of-nullable_text e.error,
      )
      refl

-- What the row of an event is.
abbrev pub Exact : UsageEvent → Result StoreError EventRow → Type 0
Exact e (err reason) = (reason ≡ invalid_input) × ¬ FitsRow e
Exact e (ok row) = (event_of row ≡ e) × FitsRow e

-- No counter of an event that fits is negative.
FitsRow-negative :
    (e : UsageEvent)
    → FitsRow e
    → (is_negative e.status_code || is_negative e.latency_ms || is_negative e.ttft_ms) ≡ false
unfolding values
FitsRow-negative e
      (status, (input, (output, (reasoning, (cached, (total, (latency, (ttft, u)))))))) =
    rw
      (
        Fits-negative e.status_code status,
        Fits-negative e.latency_ms latency,
        Fits-negative e.ttft_ms ttft,
      )
      refl

signs-Fits : (v : ℤ) → is_negative v ≡ false → above_max_int32 v ≡ false → Fits v
signs-Fits v sign below = outside-Fits v (rw (sign, below) refl)

||_false : (a b : Bool) → (a || b) ≡ false → a ≡ false
||_false true b h = h
||_false false b h = refl

pub usage_event_params-Exact : (e : UsageEvent) → Exact e (usage_event_params e)
unfolding usage_event_params
usage_event_params-Exact e =
    elim (Bool-cases
      (is_negative e.status_code || is_negative e.latency_ms || is_negative e.ttft_ms)) [
        | inl negative ↦ rw negative (refl, λ fits. cc (FitsRow-negative e fits, negative))
        | inr signs ↦ rw signs (elim (Bool-cases (any_outside (values e))) [
          | inl out ↦ rw out (refl, λ fits. cc (All-any_outside (values e) fits.1, out))
          | inr inside ↦ rw inside (elim (Bool-cases (above_max_int32 e.status_code)) [
            | inl above ↦ rw above (refl, λ fits. cc (Fits-above e.status_code fits.0, above))
            | inr below ↦
                let fits : FitsRow e = (
                  signs-Fits e.status_code (||_false _ _ (||_false _ _ signs)) below,
                  any_outside-All (values e) inside,
                ) in
                rw below (row_of-event_of e fits, fits)
          ])
        ])
      ]

-- What the rows of a batch are.
abbrev pub ExactRows : List UsageEvent → Result StoreError (List EventRow) → Type 0
ExactRows events (err reason) = (reason ≡ invalid_input) × ¬ All FitsRow events
ExactRows events (ok rows) = (map event_of rows ≡ events) × All FitsRow events

batch_params-ExactRows : (events : List UsageEvent) → ExactRows events (batch_params events)
unfolding batch_params
batch_params-ExactRows [] = (refl, tt)
batch_params-ExactRows (e ∷ events) =
    join (usage_event_params e) (batch_params events) (usage_event_params-Exact e)
      (batch_params-ExactRows events)
  where
    join :
        (first : Result StoreError EventRow) (rest : Result StoreError (List EventRow))
        → Exact e first
        → ExactRows events rest
        → ExactRows (e ∷ events) (first >>= λ row. rest >>= λ rows. ok (row ∷ rows))
    join (err reason) rest exact rows = (exact.0, λ fit. exact.1 fit.0)
    join (ok row) (err reason) exact rows = (rows.0, λ fit. rows.1 fit.1)
    join (ok row) (ok rest) exact rows = (cc (exact.0, rows.0), (exact.1, rows.1))

abbrev pub Stored : Result QueryError Done → Type 0
Stored result = result ≡ ok tt

-- What the first error says of the results.
abbrev Summary : List (Result QueryError Done) → Result QueryError Done → Type 0
Summary results (ok u) = All Stored results
Summary results (err e) = ¬ All Stored results

first_error-Summary :
    (results : List (Result QueryError Done)) → Summary results (first_error results)
unfolding first_error
first_error-Summary [] = tt
first_error-Summary (err e ∷ results) = λ all. cc (all.0)
first_error-Summary (ok u ∷ results) = later (first_error results) (first_error-Summary results)
  where
    later :
        (first : Result QueryError Done) → Summary results first → Summary (ok u ∷ results) first
    later (ok v) all = (refl, all)
    later (err e) some_failed = λ all. some_failed all.1

module _ {D : Type 0} (q : EventQueries D) (events : List UsageEvent) (d : D) where
  -- The one call of the batch: its rows are the events, each of which fits.
  pub record Sent (results : List (Result QueryError Done)) (after : D) : Type 0 where
    pub rows : List EventRow
    pub same : map event_of rows ≡ events
    pub fit : All FitsRow events
    pub call : q.insert_usage_events rows d ≡ (results, after)

  abbrev pub Outcome : Result StoreError Done × D → Type 0
  Outcome (ok u, after) =
      ((events ≡ []) × (after ≡ d))
      ⊎ ((results : List (Result QueryError Done)) × Sent results after × All Stored results)
  Outcome (err reason, after) =
      ((reason ≡ invalid_input) × (¬ All FitsRow events) × (after ≡ d))
      ⊎ ((reason ≡ other)
          × (results : List (Result QueryError Done)) × Sent results after
          × (¬ All Stored results))

  answered-Outcome :
      (results : List (Result QueryError Done)) (after : D) (first : Result QueryError Done)
      → Sent results after
      → Summary results first
      → Outcome (wrapped first, after)
  unfolding wrapped
  answered-Outcome results after (ok u) sent all = inr (results, sent, all)
  answered-Outcome results after (err e) sent some_failed = inr (refl, results, sent, some_failed)

  insert_rows-Outcome :
      (o : Result StoreError (List EventRow)) → ExactRows events o → Outcome (insert_rows q o d)
  unfolding insert_rows
  insert_rows-Outcome (err reason) exact = inl (exact.0, exact.1, refl)
  insert_rows-Outcome (ok rows) exact =
      let answer = q.insert_usage_events rows d in
      answered-Outcome answer.0 answer.1 (first_error answer.0)
        (record { rows = rows; same = exact.0; fit = exact.1; call = refl })
        (first_error-Summary answer.0)

-- InsertBatch, whatever the database answers. It succeeds only if there are no events, or all of
-- them were sent in one call whose rows, with int32 counters and NULL for an empty text, are exactly
-- these events, and every statement of it succeeded. It answers that the input is invalid only if a
-- counter of some event is negative or above int32, and then the database is what it was; any other
-- error is that of a statement of such a call.
pub insert_batch-Outcome :
    {D : Type 0} (q : EventQueries D) (events : List UsageEvent) (d : D)
    → Outcome q events d (insert_batch q events d)
unfolding insert_batch
insert_batch-Outcome q [] d = inl (refl, refl)
insert_batch-Outcome q (e ∷ events) d =
    insert_rows-Outcome q (e ∷ events) d (batch_params (e ∷ events))
      (batch_params-ExactRows (e ∷ events))
