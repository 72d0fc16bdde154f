-- ===== src/Auth/Checker/Outcome.antt =====
-- What the test of internal/auth/testing/checker.go says of an account.
use cliproxy_new.Base.{
  ℕ, ◌≤◌, ◌<◌, arith, ◌≡◌, refl, ◌⊎◌, inl, inr, Bool, true, false, Bool-cases, Option, none, some,
  [], GoString, bytes, trim_space, Result, ok, err,
}
use cliproxy_new.Auth.Checker.{
  CheckError, account_not_found, other, Kind, oauth, api_key, other_kind, Sdk, ProbeRequest,
  Executor, Manager, TestResult, is_success, http_error, result_for_auth, probe_request, updated,
  refreshed, test_oauth, answered, probed, test_api_key, by_kind, with_executor, with_account, test,
}

in_range : (code : ℕ) → is_success code ≡ true → (200 ≤ code) × (code < 300)
unfolding is_success
in_range code h = ground arith

out_of_range : (code : ℕ) → is_success code ≡ false → (code < 200) ⊎ (300 ≤ code)
unfolding is_success
out_of_range code h = ground arith

module _ {A S : Type 0} (sdk : Sdk A) (to_lower : GoString → GoString)
    (with_key : GoString → GoString → GoString) (is_target : GoString → Bool) (m : Manager A S)
    (account_id : GoString) (s : S) where
  -- An account of the id, and the executor of its provider.
  pub record Tested : Type 0 where
    pub account : A
    pub found : m.get_by_id (trim_space account_id) s ≡ some account
    pub executor : Executor A S
    pub runs : m.executor (sdk.provider account) s ≡ some executor

  -- A credential that the executor refreshed, with what the manager answered to its update.
  pub record Renewed (t : Tested) (answer : Result CheckError (Option A)) (after : S) : Type 0 where
    pub is_oauth : sdk.kind t.account ≡ oauth
    pub fresh : A
    pub between : S
    pub renewal : t.executor.refresh t.account s ≡ (some fresh, between)
    pub update : m.update fresh between ≡ (answer, after)

  -- The status code that an executor got for the probe of an account.
  pub record Probed (t : Tested) (code : ℕ) (after : S) : Type 0 where
    pub is_api_key : sdk.kind t.account ≡ api_key
    pub request : ProbeRequest
    pub built : probe_request sdk to_lower with_key is_target t.account ≡ ok request
    pub answer : t.executor.http_request t.account request s ≡ (some code, after)

  -- Why a result is valid.
  abbrev pub Confirmed : TestResult → S → Type 0
  Confirmed r after =
      (t : Tested) × (((kept : A) × Renewed t (ok (some kept)) after
          × (r.expires_at ≡ sdk.expiration kept))
        ⊎ (Probed t r.status_code after × (200 ≤ r.status_code) × (r.status_code < 300)))

  -- What the error of a result may say.
  abbrev pub Message : TestResult → Type 0
  Message r =
      ((r.status_code ≡ 0) × (r.error ≡ bytes "credential refresh failed"))
      ⊎ ((r.status_code ≡ 0) × (r.error ≡ bytes "credential probe failed"))
      ⊎ (((r.status_code < 200) ⊎ (300 ≤ r.status_code)) × (r.error ≡ http_error r.status_code))

  abbrev pub Verdict : Result CheckError TestResult × S → Type 0
  Verdict (ok r, after) =
      ((r.is_valid ≡ true) × (r.error ≡ []) × Confirmed r after)
      ⊎ ((r.is_valid ≡ false) × Message r)
  Verdict (err e, after) =
      (after ≡ s)
      ⊎ ((t : Tested) × ((Renewed t (ok none) after × (e ≡ account_not_found))
            ⊎ ((reason : CheckError) × Renewed t (err reason) after × (e ≡ other))))

  updated-Verdict :
      (t : Tested) (o : Result CheckError (Option A) × S)
      → ((answer : Result CheckError (Option A)) (after : S)
          → o ≡ (answer, after)
          → Renewed t answer after)
      → Verdict (updated sdk to_lower with_key is_target m o)
  unfolding updated result_for_auth
  updated-Verdict t (err e, after) renewed = inr (t, inr (e, renewed (err e) after refl, refl))
  updated-Verdict t (ok none, after) renewed = inr (t, inl (renewed (ok none) after refl, refl))
  updated-Verdict t (ok (some kept), after) renewed =
      inl (refl, refl, (t, inl (kept, renewed (ok (some kept)) after refl, refl)))

  refreshed-Verdict :
      (t : Tested) (o : Option A × S)
      → sdk.kind t.account ≡ oauth
      → t.executor.refresh t.account s ≡ o
      → Verdict (refreshed sdk to_lower with_key is_target m t.account o)
  unfolding refreshed result_for_auth
  refreshed-Verdict t (none, after) kind renewal = inr (refl, inl (refl, refl))
  refreshed-Verdict t (some fresh, between) kind renewal =
      updated-Verdict t (m.update fresh between) (λ answer after call. record {
        is_oauth = kind;
        fresh = fresh;
        between = between;
        renewal = renewal;
        update = call;
      })

  answered-Verdict :
      (t : Tested) (o : Option ℕ × S)
      → ((code : ℕ) (after : S) → o ≡ (some code, after) → Probed t code after)
      → Verdict (answered sdk to_lower with_key is_target m t.account o)
  unfolding answered result_for_auth
  answered-Verdict t (none, after) probe = inr (refl, inr (inl (refl, refl)))
  answered-Verdict t (some code, after) probe = elim (Bool-cases (is_success code)) [
    | inl good ↦ rw good (
        inl (
          refl,
          refl,
          (t, inr (probe code after refl, (in_range code good).0, (in_range code good).1)),
        ))
    | inr bad ↦ rw bad (inr (refl, inr (inr (out_of_range code bad, refl))))
  ]

  probed-Verdict :
      (t : Tested) (o : Result CheckError ProbeRequest)
      → sdk.kind t.account ≡ api_key
      → probe_request sdk to_lower with_key is_target t.account ≡ o
      → Verdict (probed sdk to_lower with_key is_target m t.account t.executor o s)
  unfolding probed
  probed-Verdict t (err e) kind built = inl refl
  probed-Verdict t (ok request) kind built =
      answered-Verdict t (t.executor.http_request t.account request s) (λ code after answer.
        record { is_api_key = kind; request = request; built = built; answer = answer })

  by_kind-Verdict :
      (t : Tested) (kind : Kind)
      → sdk.kind t.account ≡ kind
      → Verdict (by_kind sdk to_lower with_key is_target m kind t.account t.executor s)
  unfolding by_kind test_oauth test_api_key
  by_kind-Verdict t oauth e = refreshed-Verdict t (t.executor.refresh t.account s) e refl
  by_kind-Verdict t api_key e =
      probed-Verdict t (probe_request sdk to_lower with_key is_target t.account) e refl
  by_kind-Verdict t other_kind e = inl refl

  with_executor-Verdict :
      (account : A) (executor : Option (Executor A S))
      → m.get_by_id (trim_space account_id) s ≡ some account
      → m.executor (sdk.provider account) s ≡ executor
      → Verdict (with_executor sdk to_lower with_key is_target m account executor s)
  unfolding with_executor
  with_executor-Verdict account none found runs = inl refl
  with_executor-Verdict account (some executor) found runs =
      by_kind-Verdict
        (record { account = account; found = found; executor = executor; runs = runs })
        (sdk.kind account) refl

  with_account-Verdict :
      (account : Option A)
      → m.get_by_id (trim_space account_id) s ≡ account
      → Verdict (with_account sdk to_lower with_key is_target m account s)
  unfolding with_account
  with_account-Verdict none found = inl refl
  with_account-Verdict (some account) found =
      with_executor-Verdict account (m.executor (sdk.provider account) s) found refl

  -- The test of an account, whatever the SDK's manager and executors answer. Its result is valid,
  -- without an error, only if the account has an executor and either is an OAuth one whose refresh
  -- gave a credential that the manager kept, and whose expiration the result has, or is an API-key
  -- one whose probe was answered with the status code of the result, from 200 to 299. The error of any
  -- other result is one of two fixed texts or one made of the status code, which is then outside that range.
  -- A test that answers an error left the state of the SDK as it was, but where the manager failed
  -- to keep a refreshed credential.
  pub test-Verdict : Verdict (test sdk to_lower with_key is_target m account_id s)
  unfolding test
  test-Verdict = with_account-Verdict (m.get_by_id (trim_space account_id) s) refl
