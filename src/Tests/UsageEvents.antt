-- ===== src/Tests/UsageEvents.antt =====
-- Runs of internal/usage.
use mathlib.Core.Option
use cliproxy_new.Base.{
  ℕ, ◌≡◌, ◌↔◌, refl, true, false, some, List, [], ◌∷◌, ◌++◌, pos, bytes, cut_prefix, parse_int,
  list_beq, Among,
}
use cliproxy_new.Base.{◌+◌, ◌⊎◌, length, map, All, Result, ok, err}
use cliproxy_new.Store.{Done, QueryError, failed}
use cliproxy_new.Store.UsageEvents.{
  EventQueries, insert_batch, insert_rows, batch_params, usage_event_params, any_outside, values,
  wrapped, first_error,
}
use cliproxy_new.Store.UsageEvents.Batches.{Sent, Stored, insert_batch-Outcome}
use cliproxy_new.Usage.{Record, UsageEvent, usage_event_from_record}
use cliproxy_new.Access.Principal.{decode_principal, principal_prefix, positive_id}
use cliproxy_new.Usage.KeyIds.{api_key_ids}
use cliproxy_new.Usage.KeyIds.Members.{Touched, api_key_ids-Touched}
use cliproxy_new.Usage.Buffer.{
  BufferedPlugin, Writer, new_buffered_plugin, close, queue_depth, handle_usage, receive, tick,
  flush,
}
use cliproxy_new.Usage.Buffer.Invariant.{
  Action, handles, receives, ticks, run, step, written, contents, taken_all, run-contents,
}
use cliproxy_new.Usage.Buffer.Receives.{receive_all, Drained}
use cliproxy_new.Usage.Buffer.Drain.{close-Drained}
use cliproxy_new.Usage.Buffer.Bounds.{Bounded, new-Bounded, run-Bounded}

-- A record of user 5, in the legacy form.
abbrev one_record : Record
one_record = record {
  api_key = bytes "5";
  auth_id = bytes "a";
  provider = bytes "claude";
  model = bytes "m";
  alias = [];
  input_tokens = pos 1;
  output_tokens = pos 2;
  reasoning_tokens = pos 0;
  cached_tokens = pos 0;
  total_tokens = pos 3;
  fail_status_code = pos 0;
  fail_body = [];
  latency = pos 2_000_000;
  ttft = pos 1_000_000;
  is_failed = false;
}

abbrev toucher : Writer
toucher = record { is_updater = true }

-- Three records are taken; one is received and written by a tick, one is received.
abbrev acts : List Action
acts =
    handles one_record
    ∷ handles one_record
    ∷ receives true
    ∷ ticks true
    ∷ handles one_record
    ∷ receives true
    ∷ []

abbrev started : BufferedPlugin
started = new_buffered_plugin (some toucher)

run-contents_example : contents (run started acts) ≡ contents started ++ taken_all started acts
run-contents_example = run-contents started acts

run-Bounded_example : Bounded (run started acts)
run-Bounded_example = run-Bounded started acts (new-Bounded (some toucher))

-- One record is taken and still queued.
abbrev one_act : List Action
one_act = handles one_record ∷ []

close-Drained_example :
    Drained (receive_all (close (run started one_act)) (true ∷ false ∷ []))
    × (written (receive_all (close (run started one_act)) (true ∷ false ∷ [])).writes
        ≡ taken_all started one_act)
unfolding run step handle_usage receive tick flush queue_depth new_buffered_plugin
    usage_event_from_record decode_principal principal_prefix positive_id cut_prefix parse_int
    list_beq Option.bind
close-Drained_example = close-Drained (some toucher) one_act (true ∷ false ∷ []) refl

abbrev event_of : ℕ → UsageEvent
event_of key = record {
  user_id = some (pos 5);
  api_key_id = some (pos key);
  upstream_account_id = [];
  provider = [];
  model = [];
  input_tokens = pos 0;
  output_tokens = pos 0;
  reasoning_tokens = pos 0;
  cached_tokens = pos 0;
  total_tokens = pos 0;
  status_code = pos 200;
  error = [];
  latency_ms = pos 0;
  ttft_ms = pos 0;
  is_failed = false;
}

abbrev events : List UsageEvent
events = event_of 9 ∷ event_of 4 ∷ event_of 9 ∷ event_of 0 ∷ []

api_key_ids_runs : api_key_ids events ≡ pos 4 ∷ pos 9 ∷ []
unfolding api_key_ids
api_key_ids_runs = refl

api_key_ids-Touched_example : Among (pos 4) (api_key_ids events) ↔ Touched (pos 4) events
api_key_ids-Touched_example = api_key_ids-Touched (pos 4) events

-- A database that counts the rows of its batches.
abbrev counting : EventQueries ℕ
counting = record {
  insert_usage_event = λ row d. (ok tt, d + 1);
  insert_usage_events = λ rows d. (map (λ row. ok tt) rows, d + length rows);
  touch_api_keys_last_used = λ ids d. (ok tt, d);
  get_usage_summary_by_user = λ id from to d. err failed;
  list_usage_by_model_for_user = λ id from to d. ok [];
  list_usage_by_api_key_for_user = λ id from to d. ok [];
}

insert_batch-Outcome_example :
    ((event_of 9 ∷ event_of 4 ∷ [] ≡ []) × (◌≡◌ {A = ℕ} 2 0))
    ⊎ ((results : List (Result QueryError Done)) × Sent counting
          (event_of 9 ∷ event_of 4 ∷ [])
          0
          results
          2
        × All Stored results)
unfolding insert_batch insert_rows batch_params usage_event_params any_outside values wrapped
    first_error
insert_batch-Outcome_example = insert_batch-Outcome counting (event_of 9 ∷ event_of 4 ∷ []) 0
