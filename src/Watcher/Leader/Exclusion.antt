-- ===== src/Watcher/Leader/Exclusion.antt =====
-- One leader at a time, over every interleaving of the replicas of internal/watcher/leader.go.
use cliproxy_new.Base.{
  ℕ, ◌≡◌, refl, sym, ap, ◌∙◌, ◌⊎◌, inl, inr, true, false, Bool-cases, Option, some, List, [], ◌∷◌,
  nat_eq, ◌==◌, ==_iff, arith,
}
use cliproxy_new.Watcher.Leader.{
  LeaderRunner, Session, session_eq, Phase, leading, Cluster, Event, cancelled, try_lock, job_ends,
  wait_ends, lost, end_session, dropped, step, run, first_phase, start,
}
use cliproxy_new.Watcher.Leader.Locks.{
  Held, Keeps, same_session, end_session-Keeps, cancelled-Held, tried-Held, waited-Held,
  released-Held,
}

-- The server ends the session in the course of the events.
abbrev pub Lost : Session → List Event → Type 0
Lost s [] = ⊥
Lost s (lost t ∷ es) = (t ≡ s) ⊎ Lost s es
Lost s (cancelled i ∷ es) = Lost s es
Lost s (try_lock i a ∷ es) = Lost s es
Lost s (job_ends i u ∷ es) = Lost s es
Lost s (wait_ends i e ∷ es) = Lost s es

gone_or :
    (Gone : Session → Type 0) (s t : Session) (holder holder' : Option Session)
    → Keeps t holder holder'
    → (holder ≡ some t) ⊎ Gone t
    → (holder' ≡ some t) ⊎ (Gone t ⊎ (s ≡ t))
gone_or Gone s t holder holder' keeps (inl h) = inl (keeps h)
gone_or Gone s t holder holder' keeps (inr g) = inr (inl g)

weaker_or :
    (Gone More : Session → Type 0) (t : Session) (holder : Option Session)
    → (Gone t → More t)
    → (holder ≡ some t) ⊎ Gone t
    → (holder ≡ some t) ⊎ More t
weaker_or Gone More t holder more (inl h) = inl h
weaker_or Gone More t holder more (inr g) = inr (more g)

Lost-now :
    (Gone : Session → Type 0) (s t : Session) → Gone t ⊎ (s ≡ t) → Gone t ⊎ Lost t (lost s ∷ [])
Lost-now Gone s t (inl g) = inl g
Lost-now Gone s t (inr e) = inr (inl e)

-- A leader whose session ends is counted as gone.
lost-Held :
    (Gone : Session → Type 0) (s : Session) (c : Cluster)
    → Held Gone c.phase c.holder
    → Held (λ t. Gone t ⊎ (s ≡ t)) c.phase (end_session s c.holder c.count).0
unfolding Held
lost-Held Gone s c held i t e = elim (Bool-cases (s == t)) [
  | inl same ↦ ((held i t e).0, inr (inr ((==_iff s t).0 same)))
  | inr other ↦ (
    (held i t e).0,
    gone_or Gone s t c.holder _
        (end_session-Keeps s t c.holder c.count
          (λ same. let clash : true ≡ false = sym ((==_iff s t).1 same) ∙ other in cc))
        (held i t e).1,
  )
]

weaker :
    (Gone More : Session → Type 0) (phase : ℕ → Phase) (holder : Option Session)
    → ((t : Session) → Gone t → More t)
    → Held Gone phase holder
    → Held More phase holder
unfolding Held
weaker Gone More phase holder more held i t e =
    let (mine, has) = held i t e in (mine, weaker_or Gone More t holder (more t) has)

-- One event, with the sessions that it ends.
step-Held :
    (Gone : Session → Type 0) (e : Event) (c : Cluster)
    → Held Gone c.phase c.holder
    → Held (λ t. Gone t ⊎ Lost t (e ∷ [])) (step e c).phase (step e c).holder
unfolding step dropped
step-Held Gone (cancelled i) c held =
    weaker Gone _ _ _ (λ t. inl) (cancelled-Held Gone (c.phase i) i c held)
step-Held Gone (try_lock i a) c held =
    weaker Gone _ _ _ (λ t. inl) (tried-Held Gone (c.phase i) i a c held)
step-Held Gone (job_ends i u) c held =
    weaker Gone _ _ _ (λ t. inl) (released-Held Gone (c.phase i) i u c refl held)
step-Held Gone (wait_ends i elapsed) c held =
    weaker Gone _ _ _ (λ t. inl) (waited-Held Gone (c.phase i) i elapsed c held)
step-Held Gone (lost s) c held =
    weaker (λ t. Gone t ⊎ (s ≡ t)) _ _ _ (Lost-now Gone s) (lost-Held Gone s c held)

Lost-later :
    (Gone : Session → Type 0) (e : Event) (es : List Event) (t : Session)
    → (Gone t ⊎ Lost t (e ∷ [])) ⊎ Lost t es
    → Gone t ⊎ Lost t (e ∷ es)
Lost-later Gone e es t (inl (inl g)) = inl g
Lost-later Gone (lost s) es t (inl (inr (inl l))) = inr (inl l)
Lost-later Gone (lost s) es t (inl (inr (inr n))) = elim n [ ]
Lost-later Gone (cancelled i) es t (inl (inr n)) = elim n [ ]
Lost-later Gone (try_lock i a) es t (inl (inr n)) = elim n [ ]
Lost-later Gone (job_ends i u) es t (inl (inr n)) = elim n [ ]
Lost-later Gone (wait_ends i x) es t (inl (inr n)) = elim n [ ]
Lost-later Gone (lost s) es t (inr l) = inr (inr l)
Lost-later Gone (cancelled i) es t (inr l) = inr l
Lost-later Gone (try_lock i a) es t (inr l) = inr l
Lost-later Gone (job_ends i u) es t (inr l) = inr l
Lost-later Gone (wait_ends i x) es t (inr l) = inr l

run-Held :
    (Gone : Session → Type 0) (es : List Event) (c : Cluster)
    → Held Gone c.phase c.holder
    → Held (λ t. Gone t ⊎ Lost t es) (run es c).phase (run es c).holder
unfolding run
run-Held Gone [] c held = weaker Gone _ _ _ (λ t. inl) held
run-Held Gone (e ∷ es) c held =
    weaker _ _ _ _ (Lost-later Gone e es)
      (run-Held (λ t. Gone t ⊎ Lost t (e ∷ [])) es (step e c) (step-Held Gone e c held))

start-Held :
    (runners : ℕ → LeaderRunner) → Held (λ t. ⊥) (start runners).phase (start runners).holder
unfolding start first_phase Held
start-Held runners i s e = ground arith

one_leader :
    (i j : ℕ) (s t : Session) (holder : Option Session) (L M : Type 0)
    → (s.replica ≡ i) × ((holder ≡ some s) ⊎ (⊥ ⊎ L))
    → (t.replica ≡ j) × ((holder ≡ some t) ⊎ (⊥ ⊎ M))
    → (i ≡ j) ⊎ L ⊎ M
one_leader i j s t holder L M (p, inl a) (q, inl b) =
    let same : s ≡ t = same_session (sym a ∙ b) in inl (sym p ∙ ap (λ r. r.replica) same ∙ q)
one_leader i j s t holder L M (p, inr (inr l)) (q, b) = inr (inl l)
one_leader i j s t holder L M (p, inl a) (q, inr (inr m)) = inr (inr m)
one_leader i j s t holder L M (p, inr (inl n)) (q, b) = absurd n
one_leader i j s t holder L M (p, inl a) (q, inr (inl n)) = absurd n

-- Over every interleaving of the events of any number of replicas from the start: two replicas that
-- run the job at once are one, unless the server has ended the session of one of them.
pub run-Exclusive :
    (runners : ℕ → LeaderRunner) (es : List Event) (i j : ℕ) (s t : Session)
    → (run es (start runners)).phase i ≡ leading s
    → (run es (start runners)).phase j ≡ leading t
    → (i ≡ j) ⊎ Lost s es ⊎ Lost t es
unfolding Held
run-Exclusive runners es i j s t a b =
    let held = run-Held (λ r. ⊥) es (start runners) (start-Held runners) in
    one_leader i j s t (run es (start runners)).holder (Lost s es) (Lost t es) (held i s a)
      (held j t b)
