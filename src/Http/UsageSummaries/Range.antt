-- ===== src/Http/UsageSummaries/Range.antt =====
-- The interval of internal/httpapi/usage.go, and the summary that internal/store/usage_events.go
-- gives for it.
use cliproxy_new.Base.{
  ℕ, ◌-◌, ◌<◌, ◌≡◌, refl, ◌⊎◌, inl, inr, true, Bool-cases, ltb, ltb→lt, Option, none, some, [], ◌∷◌,
  ℤ, is_positive, GoString, Result, ok, err,
}
use cliproxy_new.Store.{StoreError}
use cliproxy_new.Store.UsageEvents.{EventQueries, UsageSummary, get_summary_by_user}
use cliproxy_new.Http.Management.{
  Refusal, Reply, refuse, reply, Context, positive_user, current_user_id,
}
use cliproxy_new.Http.UsageSummaries.{
  UsageSummaryReader, UsageResponse, Interval, default_usage_period, parse_usage_time, ordered,
  until, usage_range, summarised, get_within, get_for, get,
}

-- A bound of the interval: the default, or what the parameter is read as.
abbrev pub Bound : (GoString → Option ℕ) → GoString → ℕ → ℕ → Type 0
Bound parse_time [] default t = t ≡ default
Bound parse_time (c ∷ raw) default t = parse_time (c ∷ raw) ≡ some t

parse_usage_time-Bound :
    (parse_time : GoString → Option ℕ) (raw : GoString) (default t : ℕ)
    → parse_usage_time parse_time raw default ≡ some t
    → Bound parse_time raw default t
unfolding parse_usage_time
parse_usage_time-Bound parse_time [] default t e = cc
parse_usage_time-Bound parse_time (c ∷ raw) default t e = e

unfoldable pub reader_of : {D : Type 0} → EventQueries D → UsageSummaryReader D
reader_of q = record { get_summary_by_user = get_summary_by_user q }

module _ {D : Type 0} (q : EventQueries D) (parse_time : GoString → Option ℕ) (i : Interval)
    (now : ℕ) (d : D) where
  -- A reply: the summary of the user of the context, between the bounds of the request.
  pub record Summarised (user : Option ℤ) (r : UsageResponse) : Type 0 where
    pub user_id : ℤ
    pub is_user : user ≡ some user_id
    pub positive : is_positive user_id ≡ true
    pub end : Bound parse_time i.to now r.to
    pub start : Bound parse_time i.from (r.to - default_usage_period) r.from
    pub order : r.from < r.to
    pub answer : get_summary_by_user q user_id r.from r.to d ≡ ok r.summary

  abbrev pub Verdict : Option ℤ → Result Refusal (Reply UsageResponse) → Type 0
  Verdict user (ok r) = (r.status ≡ 200) × Summarised user r.body
  Verdict user (err f) =
      ((f.status ≡ 401) × (user ≡ none))
      ⊎ ((f.status ≡ 400) × (usage_range parse_time i now ≡ none))
      ⊎ (f.status ≡ 500)

  -- The interval of a request that has one.
  abbrev Ranged : Option (ℕ × ℕ) → Type 0
  Ranged none = Unit {0}
  Ranged (some (from, to)) =
      Bound parse_time i.to now to
      × Bound parse_time i.from (to - default_usage_period) from
      × (from < to)

  ordered-Ranged :
      (to : ℕ) (from : Option ℕ)
      → Bound parse_time i.to now to
      → parse_usage_time parse_time i.from (to - default_usage_period) ≡ from
      → Ranged (ordered from to)
  unfolding ordered
  ordered-Ranged to none end start = tt
  ordered-Ranged to (some from) end start = elim (Bool-cases (ltb from to)) [
    | inl less ↦
        rw less (end, parse_usage_time-Bound parse_time i.from _ from start, ltb→lt from to less)
    | inr more ↦ rw more tt
  ]

  until-Ranged :
      (to : Option ℕ)
      → parse_usage_time parse_time i.to now ≡ to
      → Ranged (until parse_time i.from to)
  unfolding until
  until-Ranged none end = tt
  until-Ranged (some to) end =
      ordered-Ranged to _ (parse_usage_time-Bound parse_time i.to now to end) refl

  summarised-Verdict :
      (user_id : ℤ) (from to : ℕ) (o : Result StoreError UsageSummary)
      → is_positive user_id ≡ true
      → Ranged (some (from, to))
      → get_summary_by_user q user_id from to d ≡ o
      → Verdict (some user_id) (summarised from to o)
  unfolding summarised refuse reply
  summarised-Verdict user_id from to (err e) pos range answer = inr (inr refl)
  summarised-Verdict user_id from to (ok summary) pos range answer = (
    refl,
    record {
      user_id = user_id;
      is_user = refl;
      positive = pos;
      end = range.0;
      start = range.1;
      order = range.2;
      answer = answer;
    },
  )

  within-Verdict :
      (user_id : ℤ) (range : Option (ℕ × ℕ))
      → is_positive user_id ≡ true
      → Ranged range
      → usage_range parse_time i now ≡ range
      → Verdict (some user_id) (get_within (reader_of q) user_id range d)
  unfolding get_within refuse reader_of
  within-Verdict user_id none pos ranged e = inr (inl (refl, e))
  within-Verdict user_id (some (from, to)) pos ranged e =
      summarised-Verdict user_id from to (get_summary_by_user q user_id from to d) pos ranged refl

  ranged : Ranged (usage_range parse_time i now)
  unfolding usage_range
  ranged = until-Ranged (parse_usage_time parse_time i.to now) refl

  user-Verdict :
      (user : Option ℤ)
      → Verdict user (get_for (reader_of q) (positive_user user) (usage_range parse_time i now) d)
  unfolding get_for positive_user refuse
  user-Verdict none = inl (refl, refl)
  user-Verdict (some user_id) = elim (Bool-cases (is_positive user_id)) [
    | inl pos ↦ rw pos (within-Verdict user_id (usage_range parse_time i now) pos ranged refl)
    | inr neg ↦ rw neg (inr (inr refl))
  ]

  -- The usage of a user over the repository of events, for any answers of the database. A reply is
  -- the summary of exactly the positive user of the request's context, from its `from` to its `to`,
  -- which are in order; `to` is by default the time of the request and `from` thirty days before
  -- `to`. It is refused with 401 only without a user, and with 400 only where there is no such
  -- interval.
  pub get-Verdict : (c : Context) → Verdict c.user_id (get (reader_of q) parse_time c i now d)
  unfolding get current_user_id
  get-Verdict c = user-Verdict c.user_id
