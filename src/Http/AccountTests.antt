-- ===== src/Http/AccountTests.antt =====
-- internal/httpapi/admin_accounts.go: the test of an upstream account by an administrator. The
-- checker is given the audit entry of the request's context.
use cliproxy_new.Base.{
  Option, ℤ, GoString, bytes, trim_space, is_empty, [], if◌then◌else◌, Result, ok, err,
}
use cliproxy_new.Store.OauthSessions.{AuditEntry}
use cliproxy_new.Auth.Checker.{
  CheckError, account_not_found, executor_unavailable, unsupported_provider, other, TestResult,
}
use cliproxy_new.Http.Management.{Refusal, Reply, refuse, reply, Context, current_user_id}

pub record AccountChecker (S : Type 0) : Type 0 where
  pub test : AuditEntry → GoString → S → Result CheckError TestResult × S

unfoldable pub test_entry : ℤ → Option GoString → AuditEntry
test_entry actor ip = record {
  actor_user_id = actor;
  action = bytes "upstream_account.tested";
  target_type = bytes "upstream_account";
  target_id = bytes "pending";
  details = [];
  actor_ip = ip;
}

pub tested : {S : Type 0} → Result CheckError TestResult × S → Result Refusal (Reply TestResult) × S
unfolding reply refuse
tested (ok r, s) = (reply 200 r, s)
tested (err account_not_found, s) = (refuse 404 (bytes "upstream account not found"), s)
tested (err unsupported_provider, s) =
    (refuse 400 (bytes "unsupported upstream account health check"), s)
tested (err executor_unavailable, s) = (refuse 500 (bytes "upstream account test failed"), s)
tested (err other, s) = (refuse 500 (bytes "upstream account test failed"), s)

module _ {S : Type 0} (checker : AccountChecker S) (ip : Option GoString) where
  test_as : Result Refusal ℤ → GoString → S → Result Refusal (Reply TestResult) × S
  unfolding tested refuse
  test_as (err refusal) account_id s = (err refusal, s)
  test_as (ok actor) account_id s =
      if is_empty account_id
      then (refuse 400 (bytes "invalid upstream account ID"), s)
      else tested (checker.test (test_entry actor ip) account_id s)

  -- `Test` of a handler with a checker, by the parameter of the path.
  unfoldable pub test : GoString → Context → S → Result Refusal (Reply TestResult) × S
  unfolding test_as
  test param c s = test_as (current_user_id c) (trim_space param) s
