-- ===== src/Usage/Hook.antt =====
-- internal/usage/hook.go: the counters of credentials and upstream results.
use cliproxy_new.Base.{
  ℕ, ◌+◌, ◌%◌, ◌^◌, ◌<◌, ◌≡◌, sym, subst, not, Bool-cases, inl, inr, refl, ap, ◌∙◌, Bool, true,
  false, Option, none, some, List, [], ◌∷◌, arith, if◌then◌else◌,
}

-- A `Hook` that is not nil; its snapshot has the same fields.
pub record Hook : Type 0 where
  pub auth_registered : ℕ
  pub auth_updated : ℕ
  pub results : ℕ
  pub succeeded : ℕ
  pub failed : ℕ

pub new_hook : Hook
new_hook = record { auth_registered = 0; auth_updated = 0; results = 0; succeeded = 0; failed = 0 }

-- `atomic.Uint64.Add` of 1.
add_one : ℕ → ℕ
add_one n = (n + 1) % 2 ^ 64

pub on_auth_registered : Hook → Hook
unfolding add_one
on_auth_registered h = record h { auth_registered = add_one h.auth_registered }

pub on_auth_updated : Hook → Hook
unfolding add_one
on_auth_updated h = record h { auth_updated = add_one h.auth_updated }

pub on_result : Hook → Bool → Hook
unfolding add_one
on_result h true = record h { results = add_one h.results; succeeded = add_one h.succeeded }
on_result h false = record h { results = add_one h.results; failed = add_one h.failed }

pub snapshot : Option Hook → Hook
unfolding new_hook
snapshot none = new_hook
snapshot (some h) = h

pub data Call : Type 0 where
  registers updates : Call
  reports : Bool → Call

pub observe : Hook → Call → Hook
unfolding on_auth_registered on_auth_updated on_result
observe h registers = on_auth_registered h
observe h updates = on_auth_updated h
observe h (reports succeeded) = on_result h succeeded

pub observe_all : Hook → List Call → Hook
unfolding observe
observe_all h [] = h
observe_all h (c ∷ cs) = observe_all (observe h c) cs

pub is_registration : Call → Bool
is_registration registers = true
is_registration updates = false
is_registration (reports b) = false

pub is_update : Call → Bool
is_update registers = false
is_update updates = true
is_update (reports b) = false

pub is_report : Call → Bool
is_report registers = false
is_report updates = false
is_report (reports b) = true

pub is_success : Call → Bool
is_success registers = false
is_success updates = false
is_success (reports b) = b

pub is_failure : Call → Bool
is_failure registers = false
is_failure updates = false
is_failure (reports b) = not b

pub count : (Call → Bool) → List Call → ℕ
count f [] = 0
count f (c ∷ cs) = (if f c then 1 else 0) + count f cs

counted : (Call → Bool) → Call → ℕ → ℕ
unfolding add_one
counted f c n = if f c then add_one n else n

counted-bound : (f : Call → Bool) (c : Call) (n : ℕ) → n < 2 ^ 64 → counted f c n < 2 ^ 64
unfolding counted add_one
counted-bound f c n b = ground arith

counted-count :
    (f : Call → Bool) (c : Call) (n k : ℕ)
    → n < 2 ^ 64
    → (counted f c n + k) % 2 ^ 64 ≡ (n + ((if f c then 1 else 0) + k)) % 2 ^ 64
unfolding counted add_one
counted-count f c n k b = elim (Bool-cases (f c)) [
  | inl e ↦ simp e (omega arith)
  | inr e ↦ simp e (omega arith)
]

-- A counter that each call raises where `f` says so.
observe_all-count :
    (field : Hook → ℕ) (f : Call → Bool) (h : Hook) (cs : List Call)
    → ((k : Hook) (c : Call) → field (observe k c) ≡ counted f c (field k))
    → field h < 2 ^ 64
    → field (observe_all h cs) ≡ (field h + count f cs) % 2 ^ 64
unfolding observe_all count
observe_all-count field f h [] each b = omega arith
observe_all-count field f h (c ∷ cs) each b =
    observe_all-count field f (observe h c) cs each
      (subst (λ n. n < 2 ^ 64) (sym (each h c)) (counted-bound f c (field h) b))
    ∙ ap (λ n. (n + count f cs) % 2 ^ 64) (each h c)
    ∙ counted-count f c (field h) (count f cs) b

observe_all_new :
    (field : Hook → ℕ) (f : Call → Bool) (cs : List Call)
    → ((k : Hook) (c : Call) → field (observe k c) ≡ counted f c (field k))
    → field new_hook ≡ 0
    → field (observe_all new_hook cs) ≡ count f cs % 2 ^ 64
observe_all_new field f cs each z =
    observe_all-count field f new_hook cs each (omega arith)
    ∙ ap (λ n. n % 2 ^ 64) (ap (λ n. n + count f cs) z ∙ omega arith)

registered-each :
    (h : Hook) (c : Call)
    → (observe h c).auth_registered ≡ counted is_registration c h.auth_registered
unfolding observe on_auth_registered on_auth_updated on_result counted is_registration
registered-each h registers = refl
registered-each h updates = refl
registered-each h (reports true) = refl
registered-each h (reports false) = refl

updated-each :
    (h : Hook) (c : Call) → (observe h c).auth_updated ≡ counted is_update c h.auth_updated
unfolding observe on_auth_registered on_auth_updated on_result counted is_update
updated-each h registers = refl
updated-each h updates = refl
updated-each h (reports true) = refl
updated-each h (reports false) = refl

results-each : (h : Hook) (c : Call) → (observe h c).results ≡ counted is_report c h.results
unfolding observe on_auth_registered on_auth_updated on_result counted is_report
results-each h registers = refl
results-each h updates = refl
results-each h (reports true) = refl
results-each h (reports false) = refl

succeeded-each : (h : Hook) (c : Call) → (observe h c).succeeded ≡ counted is_success c h.succeeded
unfolding observe on_auth_registered on_auth_updated on_result counted is_success
succeeded-each h registers = refl
succeeded-each h updates = refl
succeeded-each h (reports true) = refl
succeeded-each h (reports false) = refl

failed-each : (h : Hook) (c : Call) → (observe h c).failed ≡ counted is_failure c h.failed
unfolding observe on_auth_registered on_auth_updated on_result counted is_failure
failed-each h registers = refl
failed-each h updates = refl
failed-each h (reports true) = refl
failed-each h (reports false) = refl

-- After any sequence of calls of a new hook, the snapshot has, modulo 2^64, the numbers of
-- registrations, of updates, of results, of results that are a success and of those that are not.
pub snapshot-counts :
    (cs : List Call)
    → ((snapshot (some (observe_all new_hook cs))).auth_registered
        ≡ count is_registration cs % 2 ^ 64)
      × ((snapshot (some (observe_all new_hook cs))).auth_updated ≡ count is_update cs % 2 ^ 64)
      × ((snapshot (some (observe_all new_hook cs))).results ≡ count is_report cs % 2 ^ 64)
      × ((snapshot (some (observe_all new_hook cs))).succeeded ≡ count is_success cs % 2 ^ 64)
      × ((snapshot (some (observe_all new_hook cs))).failed ≡ count is_failure cs % 2 ^ 64)
unfolding snapshot new_hook
snapshot-counts cs = (
  observe_all_new (λ h. h.auth_registered) is_registration cs registered-each refl,
  observe_all_new (λ h. h.auth_updated) is_update cs updated-each refl,
  observe_all_new (λ h. h.results) is_report cs results-each refl,
  observe_all_new (λ h. h.succeeded) is_success cs succeeded-each refl,
  observe_all_new (λ h. h.failed) is_failure cs failed-each refl,
)
