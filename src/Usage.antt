-- ===== src/Usage.antt =====
-- internal/usage: the analytics of upstream calls. This file is the event that a usage record gives
-- (the end of buffered_plugin.go, plugin.go); `Buffer` is the queue and the writer, `KeyIds` the IDs
-- that a batch touches, `Hook` the counters of hook.go, and `Plugin` the plugin of
-- plugin.go.
pub mod Buffer
pub mod KeyIds
pub mod Hook
pub mod Plugin
use cliproxy_new.Base.{
  ℕ, zero, suc, ◌/◌, ◌≡◌, Bool, true, false, ◌&&◌, not, Option, none, some, List, [], ◌∷◌, ℤ, pos,
  negsuc, if◌then◌else◌, GoString, ◌==◌, int_eq, list_eq, nat_eq, Result, ok, err, ◌>>=◌,
}
use cliproxy_new.Access.Principal.{Principal, Invalid, decode_principal}

-- The SDK's record of a finished call.
pub record Record : Type 0 where
  pub api_key : GoString
  pub auth_id : GoString
  pub provider : GoString
  pub model : GoString
  pub alias : GoString
  pub input_tokens : ℤ
  pub output_tokens : ℤ
  pub reasoning_tokens : ℤ
  pub cached_tokens : ℤ
  pub total_tokens : ℤ
  pub fail_status_code : ℤ
  pub fail_body : GoString
  pub latency : ℤ
  pub ttft : ℤ
  pub is_failed : Bool

pub record UsageEvent : Type 0 where
  pub user_id : Option ℤ
  pub api_key_id : Option ℤ
  pub upstream_account_id : GoString
  pub provider : GoString
  pub model : GoString
  pub input_tokens : ℤ
  pub output_tokens : ℤ
  pub reasoning_tokens : ℤ
  pub cached_tokens : ℤ
  pub total_tokens : ℤ
  pub status_code : ℤ
  pub error : GoString
  pub latency_ms : ℤ
  pub ttft_ms : ℤ
  pub is_failed : Bool

-- A quotient that is rounded towards zero.
negated : ℕ → ℤ
negated zero = pos 0
negated (suc n) = negsuc n

-- `Duration.Milliseconds` of nanoseconds.
pub milliseconds : ℤ → ℤ
unfolding negated
milliseconds (pos n) = pos (n / 1_000_000)
milliseconds (negsuc n) = negated (suc n / 1_000_000)

status_code_of : Record → ℤ
status_code_of r =
    if r.fail_status_code == pos 0 && not r.is_failed then pos 200 else r.fail_status_code

model_of : Record → GoString
model_of r = if r.alias == [] then r.model else r.alias

event_for : Record → Principal → UsageEvent
unfolding status_code_of model_of milliseconds
event_for r p = record {
  user_id = some p.user_id;
  api_key_id = p.api_key_id;
  upstream_account_id = r.auth_id;
  provider = r.provider;
  model = model_of r;
  input_tokens = r.input_tokens;
  output_tokens = r.output_tokens;
  reasoning_tokens = r.reasoning_tokens;
  cached_tokens = r.cached_tokens;
  total_tokens = r.total_tokens;
  status_code = status_code_of r;
  error = r.fail_body;
  latency_ms = milliseconds r.latency;
  ttft_ms = milliseconds r.ttft;
  is_failed = r.is_failed;
}

unfoldable pub usage_event_from_record : Record → Result Invalid UsageEvent
unfolding event_for
usage_event_from_record r = do principal ← decode_principal r.api_key; ok (event_for r principal)
