-- ===== src/Watcher/Poller/Detection.antt =====
-- When the poller of internal/watcher/revision_poller.go shuts its replica down.
use cliproxy_new.Base.{
  ℕ, ◌≡◌, ◌≢◌, refl, ap, inl, inr, ◌↔◌, Bool, false, ◌&&◌, not, Bool-cases, Option, none, some,
  List, [], ◌∷◌, ◌++◌, is_positive, nat_eq, ◌==◌, ==_iff, All, arith,
}
use cliproxy_new.Watcher.Poller.{
  RevisionPoller, Event, done, tick, stopped, shut_down, changed, poll, is_disabled, run, started,
}

-- A tick at which the revision is not read, or is what it was.
abbrev pub Quiet : ℕ → Event → Type 0
Quiet baseline done = ⊥
Quiet baseline (tick none elapsed) = Unit {0}
Quiet baseline (tick (some value) elapsed) = value ≡ baseline

-- Quiet ticks, and then another revision and, if there is a jitter, its end before the context's.
pub record Detects (p : RevisionPoller) (baseline : ℕ) (es : List Event) : Type 0 where
  pub before : List Event
  pub value : ℕ
  pub elapsed : Bool
  pub after : List Event
  pub events : es ≡ before ++ tick (some value) elapsed ∷ after
  pub quiet : All (Quiet baseline) before
  pub other : value ≢ baseline
  pub waited : (is_positive p.jitter && not elapsed) ≡ false

-- One more quiet tick.
later :
    (p : RevisionPoller) (baseline : ℕ) (e : Event) (es : List Event)
    → Quiet baseline e
    → Detects p baseline es
    → Detects p baseline (e ∷ es)
later p baseline e es q d = record {
  before = e ∷ d.before;
  value = d.value;
  elapsed = d.elapsed;
  after = d.after;
  events = ap (◌∷◌ e) d.events;
  quiet = (q, d.quiet);
  other = d.other;
  waited = d.waited;
}

changed-shut_down :
    (p : RevisionPoller) (elapsed : Bool)
    → changed p elapsed ≡ shut_down
    → (is_positive p.jitter && not elapsed) ≡ false
unfolding changed
changed-shut_down p elapsed h = elim (Bool-cases (is_positive p.jitter && not elapsed)) [
  | inl e ↦ let left : stopped ≡ shut_down = rw e at h in cc
  | inr e ↦ e
]

poll-Detects :
    (p : RevisionPoller) (baseline : ℕ) (es : List Event)
    → poll p baseline es ≡ shut_down
    → Detects p baseline es
unfolding poll
poll-Detects p baseline [] h = cc
poll-Detects p baseline (done ∷ es) h = cc
poll-Detects p baseline (tick none elapsed ∷ es) h =
    later p baseline (tick none elapsed) es tt (poll-Detects p baseline es h)
poll-Detects p baseline (tick (some value) elapsed ∷ es) h = elim (Bool-cases (value == baseline)) [
  | inl e ↦
      later p baseline (tick (some value) elapsed) es ((==_iff value baseline).0 e)
        (poll-Detects p baseline es (rw e at h))
  | inr e ↦ record {
    before = [];
    value = value;
    elapsed = elapsed;
    after = es;
    events = refl;
    quiet = tt;
    other = λ same. ground (arith, same);
    waited = changed-shut_down p elapsed (rw e at h);
  }
]

poll_of :
    (p : RevisionPoller) (baseline value : ℕ) (elapsed : Bool) (before after : List Event)
    → All (Quiet baseline) before
    → value ≢ baseline
    → (is_positive p.jitter && not elapsed) ≡ false
    → poll p baseline (before ++ tick (some value) elapsed ∷ after) ≡ shut_down
unfolding poll changed
poll_of p baseline value elapsed [] after q d w = elim (Bool-cases (value == baseline)) [
  | inl e ↦ absurd (d ((==_iff value baseline).0 e))
  | inr e ↦ rw (e, w) refl
]
poll_of p baseline value elapsed (done ∷ es) after q d w = absurd q.0
poll_of p baseline value elapsed (tick none x ∷ es) after q d w =
    poll_of p baseline value elapsed es after q.1 d w
poll_of p baseline value elapsed (tick (some v) x ∷ es) after q d w =
    rw ((==_iff v baseline).1 q.0) (poll_of p baseline value elapsed es after q.1 d w)

started-Detects :
    (p : RevisionPoller) (baseline : Option ℕ) (es : List Event)
    → started p baseline es ≡ shut_down
    → (b : ℕ) × (baseline ≡ some b) × Detects p b es
unfolding started
started-Detects p none es h = cc
started-Detects p (some b) es h = (b, refl, poll-Detects p b es h)

-- Whatever the context, the ticker and the reader do: the poller shuts its replica down if and only
-- if it has a reader, a shutdown and an interval, the revision was read at the start, and then came
-- ticks at which it was not read or the same, and one at which it was another, and the context was
-- not done before nor, if there is a jitter, before that ended.
pub run-Detects :
    (p : RevisionPoller) (baseline : Option ℕ) (es : List Event)
    → (run p baseline es ≡ shut_down)
      ↔ ((is_disabled p ≡ false) × ((b : ℕ) × (baseline ≡ some b) × Detects p b es))
unfolding run started
run-Detects p baseline es = (
  (λ h. elim (Bool-cases (is_disabled p)) [
    | inl e ↦ let left : stopped ≡ shut_down = rw e at h in cc
    | inr e ↦ (e, started-Detects p baseline es (rw e at h))
  ]),
  (λ (enabled, (b, read, d)).
      rw (enabled, read, d.events)
        (poll_of p b d.value d.elapsed d.before d.after d.quiet d.other d.waited)),
)
