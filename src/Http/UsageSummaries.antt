-- ===== src/Http/UsageSummaries.antt =====
-- internal/httpapi/usage.go: the usage of the user of the session. Instants are nanoseconds from a
-- time that is thirty days before the first that RFC 3339 can write, so that the default start is
-- exact; `parse_time` is `time.Parse` of RFC 3339.
pub mod Range
use cliproxy_new.Base.{
  ℕ, ◌-◌, Bool, true, false, ltb, Option, none, some, List, [], ◌∷◌, ℤ, GoString, bytes,
  if◌then◌else◌, Result, ok, err,
}
use cliproxy_new.Store.{StoreError}
use cliproxy_new.Store.UsageEvents.{UsageSummary}
use cliproxy_new.Http.Management.{Refusal, Reply, refuse, reply, Context, current_user_id}

-- `defaultUsagePeriod`: thirty days.
abbrev pub default_usage_period : ℕ
default_usage_period = 2_592_000_000_000_000

pub record UsageSummaryReader (S : Type 0) : Type 0 where
  pub get_summary_by_user : ℤ → ℕ → ℕ → S → Result StoreError UsageSummary

pub record UsageResponse : Type 0 where
  pub from : ℕ
  pub to : ℕ
  pub summary : UsageSummary

-- The query parameters of a request; "" where one is not given.
pub record Interval : Type 0 where
  pub from : GoString
  pub to : GoString

unfoldable pub parse_usage_time : (GoString → Option ℕ) → GoString → ℕ → Option ℕ
parse_usage_time parse_time [] default = some default
parse_usage_time parse_time (c ∷ raw) default = parse_time (c ∷ raw)

unfoldable pub ordered : Option ℕ → ℕ → Option (ℕ × ℕ)
ordered none to = none
ordered (some from) to = if ltb from to then some (from, to) else none

unfoldable pub until : (GoString → Option ℕ) → GoString → Option ℕ → Option (ℕ × ℕ)
until parse_time from none = none
until parse_time from (some to) =
    ordered (parse_usage_time parse_time from (to - default_usage_period)) to

unfoldable pub usage_range : (GoString → Option ℕ) → Interval → ℕ → Option (ℕ × ℕ)
usage_range parse_time i now = until parse_time i.from (parse_usage_time parse_time i.to now)

unfoldable pub summarised :
    ℕ → ℕ → Result StoreError UsageSummary → Result Refusal (Reply UsageResponse)
unfolding refuse reply
summarised from to (err e) = refuse 500 (bytes "get usage failed")
summarised from to (ok summary) = reply 200 (record { from = from; to = to; summary = summary })

module _ {S : Type 0} (reader : UsageSummaryReader S) where
  unfoldable pub get_within : ℤ → Option (ℕ × ℕ) → S → Result Refusal (Reply UsageResponse)
  unfolding refuse
  get_within user_id none s = refuse 400 (bytes "invalid usage interval")
  get_within user_id (some (from, to)) s =
      summarised from to (reader.get_summary_by_user user_id from to s)

  unfoldable pub get_for :
      Result Refusal ℤ → Option (ℕ × ℕ) → S → Result Refusal (Reply UsageResponse)
  get_for (err refusal) range s = err refusal
  get_for (ok user_id) range s = get_within user_id range s

  -- `Get` of a handler with a reader, at `now`.
  unfoldable pub get :
      (GoString → Option ℕ) → Context → Interval → ℕ → S → Result Refusal (Reply UsageResponse)
  get parse_time c i now s = get_for (current_user_id c) (usage_range parse_time i now) s
