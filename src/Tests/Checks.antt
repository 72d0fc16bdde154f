-- ===== src/Tests/Checks.antt =====
-- Runs of internal/auth/testing: one account of an API key, whose probe is answered 204.
use cliproxy_new.Base.{
  ℕ, ◌≡◌, ◌⊎◌, true, false, none, some, [], ◌++◌, pos, nat_eq, list_eq, list_beq, bytes, GoString,
  trim_space, err,
}
use cliproxy_new.Auth.Checker.{
  Sdk, Executor, Manager, TestResult, account_not_found, api_key, test, test_api_key, probe_request,
  probed, answered, by_kind, with_executor, with_account, is_success, result_for_auth, quota_of,
  method_http_probe,
}
use cliproxy_new.Auth.Checker.Outcome.{Confirmed, Message, test-Verdict}

abbrev account_sdk : Sdk ℕ
account_sdk = record {
  provider = λ a. bytes "codex";
  kind = λ a. api_key;
  attribute = λ a name. [];
  attribute_api_key = bytes "k";
  expiration = λ a. none;
  last_refreshed_at = λ a. none;
  exceeded = λ a. false;
  reason = λ a. [];
  next_recover_at = λ a. none;
  backoff_level = λ a. pos 0;
}

abbrev prober : Executor ℕ ℕ
prober = record { refresh = λ a s. (none, s); http_request = λ a request s. (some 204, s) }

abbrev manager : Manager ℕ ℕ
manager = record {
  get_by_id = λ id s. some 1;
  executor = λ provider s. some prober;
  update = λ a s. (err account_not_found, s);
}

abbrev good : TestResult
good = record {
  is_valid = true;
  method = bytes "http_probe";
  status_code = 204;
  expires_at = none;
  last_refreshed_at = none;
  quota = record { exceeded = false; reason = []; next_recover_at = none; is_unknown = true };
  error = [];
}

test-Verdict_example :
    ((◌≡◌ true true)
      × (◌≡◌ {A = GoString} [] [])
      × Confirmed account_sdk
          (λ p. p)
          (λ url key. url ++ key)
          (λ url. true)
          manager
          (bytes " a")
          0
          good
          0)
    ⊎ ((◌≡◌ true false)
        × Message account_sdk
            (λ p. p)
            (λ url key. url ++ key)
            (λ url. true)
            manager
            (bytes " a")
            0
            good)
unfolding test with_account with_executor by_kind test_api_key probed probe_request answered
    is_success result_for_auth quota_of method_http_probe trim_space list_beq
test-Verdict_example =
    test-Verdict account_sdk (λ p. p) (λ url key. url ++ key) (λ url. true) manager (bytes " a") 0
