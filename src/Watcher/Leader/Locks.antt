-- ===== src/Watcher/Leader/Locks.antt =====
-- The advisory lock and the replicas that lead by it, for each operation of
-- internal/watcher/leader.go.
use cliproxy_new.Base.{
  ℕ, ◌≡◌, ◌≢◌, refl, sym, ap, ◌∙◌, subst, ◌⊎◌, inl, inr, Bool, true, false, Bool-cases, Option,
  none, some, nat_eq, ◌==◌, ==_iff,
}
use cliproxy_new.Watcher.Leader.{
  Session, session_eq, Phase, idle, leading, pausing, returned, Cluster, Attempt, no_connection,
  query_fails, answered, Unlock, replied, broken, at, take_lock, drop_lock, end_session, with_lock,
  took, session_of, attempt, unlock, cancelled_at, tried_at, released_at, waited_at,
}

-- A replica leads by a session of its own that has the lock, or by one of `gone`.
unfoldable pub Held : (Session → Type 0) → (ℕ → Phase) → Option Session → Type 0
Held Gone phase holder =
    (i : ℕ) (s : Session) → phase i ≡ leading s → (s.replica ≡ i) × ((holder ≡ some s) ⊎ Gone s)

-- Whoever leads by `t` keeps the lock where the lock of other sessions is changed.
abbrev pub Keeps : Session → Option Session → Option Session → Type 0
Keeps t holder holder' = holder ≡ some t → holder' ≡ some t

pub same_session : {r t : Session} → ◌≡◌ {A = Option Session} (some r) (some t) → r ≡ t
same_session h = cc

differ : (i j : ℕ) → (i == j) ≡ false → i ≢ j
differ i j e same =
    let equal = (==_iff i j).1 same in let clash : true ≡ false = sym equal ∙ e in cc

take_lock-Keeps :
    (s t : Session) (holder : Option Session) (count : ℕ)
    → Keeps t holder (take_lock s holder count).1
unfolding take_lock
take_lock-Keeps s t none count h = cc
take_lock-Keeps s t (some r) count h = elim (Bool-cases (r == s)) [
  | inl e ↦ rw e h
  | inr e ↦ rw e h
]

took_by :
    (s : Session) (holder : Option Session) (count : ℕ)
    → (take_lock s holder count).0 ≡ true
    → (take_lock s holder count).1 ≡ some s
unfolding take_lock
took_by s none count h = refl
took_by s (some r) count h = elim (Bool-cases (r == s)) [
  | inl e ↦ rw e (ap some ((==_iff r s).0 e))
  | inr e ↦ let refused : false ≡ true = rw e at h in cc
]

drop_lock-Keeps :
    (s t : Session) (holder : Option Session) (count : ℕ)
    → s ≢ t
    → Keeps t holder (drop_lock s holder count).0
unfolding drop_lock
drop_lock-Keeps s t none count d h = cc
drop_lock-Keeps s t (some r) count d h = elim (Bool-cases (r == s)) [
  | inl e ↦ absurd (d (sym ((==_iff r s).0 e) ∙ same_session h))
  | inr e ↦ rw e h
]

pub end_session-Keeps :
    (s t : Session) (holder : Option Session) (count : ℕ)
    → s ≢ t
    → Keeps t holder (end_session s holder count).0
unfolding end_session
end_session-Keeps s t none count d h = cc
end_session-Keeps s t (some r) count d h = elim (Bool-cases (r == s)) [
  | inl e ↦ absurd (d (sym ((==_iff r s).0 e) ∙ same_session h))
  | inr e ↦ rw e h
]

unlock-Keeps :
    (s t : Session) (holder : Option Session) (count : ℕ) (u : Unlock)
    → s ≢ t
    → Keeps t holder (unlock s holder count u).0
unfolding unlock
unlock-Keeps s t holder count replied d h = drop_lock-Keeps s t holder count d h
unlock-Keeps s t holder count (broken true) d h = end_session-Keeps s t holder count d h
unlock-Keeps s t holder count (broken false) d h = h

module _ (Gone : Session → Type 0) where
  pub still :
      (t : Session) (holder holder' : Option Session)
      → Keeps t holder holder'
      → (holder ≡ some t) ⊎ Gone t
      → (holder' ≡ some t) ⊎ Gone t
  still t holder holder' keeps (inl h) = inl (keeps h)
  still t holder holder' keeps (inr g) = inr g

  -- One replica goes on to another phase and the lock changes: the others keep what they have.
  at-Held :
      (phase : ℕ → Phase) (holder holder' : Option Session) (i : ℕ) (p : Phase)
      → Held Gone phase holder
      → ((t : Session) → t.replica ≢ i → Keeps t holder holder')
      → ((s : Session) → p ≡ leading s → (s.replica ≡ i) × (holder' ≡ some s))
      → Held Gone (at i p phase) holder'
  unfolding Held at
  at-Held phase holder holder' i p held keeps own j t h = elim (Bool-cases (i == j)) [
    | inl e ↦ let (mine, has) = own t (rw e at h) in (mine ∙ (==_iff i j).0 e, inl has)
    | inr e ↦
        let (mine, has) = held j t (rw e at h) in
        (mine, still t holder holder' (keeps t (λ same. differ i j e (sym same ∙ mine))) has)
  ]

  -- A replica that does not lead.
  pause-Held :
      (phase : ℕ → Phase) (holder holder' : Option Session) (i : ℕ) (p : Phase)
      → Held Gone phase holder
      → ((t : Session) → t.replica ≢ i → Keeps t holder holder')
      → ((s : Session) → p ≢ leading s)
      → Held Gone (at i p phase) holder'
  pause-Held phase holder holder' i p held keeps other =
      at-Held phase holder holder' i p held keeps (λ s e. absurd (other s e))

  took-Held :
      (c : Cluster) (i : ℕ) (s : Session) (lock : Bool × Option Session × ℕ)
      → Held Gone c.phase c.holder
      → s.replica ≡ i
      → ((t : Session) → Keeps t c.holder lock.1)
      → (lock.0 ≡ true → lock.1 ≡ some s)
      → Held Gone (took c i s lock).phase (took c i s lock).holder
  unfolding took with_lock
  took-Held c i s (true, holder, count) held mine keeps has =
      at-Held c.phase c.holder holder i (leading s) held (λ t d. keeps t)
        (λ t e.
          let same : s ≡ t = cc in
          subst (λ r. (r.replica ≡ i) × (holder ≡ some r)) same (mine, has refl))
  took-Held c i s (false, holder, count) held mine keeps has =
      pause-Held c.phase c.holder holder i pausing held (λ t d. keeps t) (λ t e. cc)

  attempt-Held :
      (c : Cluster) (i : ℕ) (a : Attempt)
      → Held Gone c.phase c.holder
      → Held Gone (attempt c i a).phase (attempt c i a).holder
  unfolding attempt with_lock session_of
  attempt-Held c i no_connection held =
      pause-Held c.phase c.holder c.holder i pausing held (λ t d h. h) (λ t e. cc)
  attempt-Held c i (query_fails number false) held =
      pause-Held c.phase c.holder c.holder i pausing held (λ t d h. h) (λ t e. cc)
  attempt-Held c i (query_fails number true) held =
      pause-Held c.phase c.holder _ i pausing held
        (λ t d. take_lock-Keeps (session_of i number) t c.holder c.count) (λ t e. cc)
  attempt-Held c i (answered number) held =
      took-Held c i (session_of i number) (take_lock (session_of i number) c.holder c.count) held
        refl (λ t. take_lock-Keeps (session_of i number) t c.holder c.count)
        (took_by (session_of i number) c.holder c.count)

  pub cancelled-Held :
      (p : Phase) (i : ℕ) (c : Cluster)
      → Held Gone c.phase c.holder
      → Held Gone (cancelled_at p i c).phase (cancelled_at p i c).holder
  unfolding cancelled_at with_lock
  cancelled-Held idle i c held =
      pause-Held c.phase c.holder c.holder i returned held (λ t d h. h) (λ t e. cc)
  cancelled-Held (leading s) i c held = held
  cancelled-Held pausing i c held = held
  cancelled-Held returned i c held = held

  pub tried-Held :
      (p : Phase) (i : ℕ) (a : Attempt) (c : Cluster)
      → Held Gone c.phase c.holder
      → Held Gone (tried_at p i a c).phase (tried_at p i a c).holder
  unfolding tried_at
  tried-Held idle i a c held = attempt-Held c i a held
  tried-Held (leading s) i a c held = held
  tried-Held pausing i a c held = held
  tried-Held returned i a c held = held

  pub waited-Held :
      (p : Phase) (i : ℕ) (elapsed : Bool) (c : Cluster)
      → Held Gone c.phase c.holder
      → Held Gone (waited_at p i elapsed c).phase (waited_at p i elapsed c).holder
  unfolding waited_at with_lock
  waited-Held idle i elapsed c held = held
  waited-Held (leading s) i elapsed c held = held
  waited-Held pausing i true c held =
      pause-Held c.phase c.holder c.holder i idle held (λ t d h. h) (λ t e. cc)
  waited-Held pausing i false c held =
      pause-Held c.phase c.holder c.holder i returned held (λ t d h. h) (λ t e. cc)
  waited-Held returned i elapsed c held = held

  pub released-Held :
      (p : Phase) (i : ℕ) (u : Unlock) (c : Cluster)
      → c.phase i ≡ p
      → Held Gone c.phase c.holder
      → Held Gone (released_at p i u c).phase (released_at p i u c).holder
  unfolding released_at with_lock Held
  released-Held idle i u c e held = held
  released-Held (leading s) i u c e held =
      pause-Held c.phase c.holder _ i pausing held
        (λ t d.
          unlock-Keeps s t c.holder c.count u
            (λ same. d (sym (ap (λ r. r.replica) same) ∙ (held i s e).0)))
        (λ t f. cc)
  released-Held pausing i u c e held = held
  released-Held returned i u c e held = held
