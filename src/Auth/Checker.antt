-- ===== src/Auth/Checker.antt =====
-- internal/auth/testing/checker.go: the test of an upstream account without a call of a model. The
-- SDK's manager and executors are interfaces over a state of theirs, its credentials are read by
-- `Sdk`; lower case, the query of a URL and the parsing of a target are parameters.
pub mod Outcome
use cliproxy_new.Base.{
  ℕ, ◌≡◌, Bool, true, false, ◌&&◌, not, Option, none, some, List, [], ◌∷◌, ◌++◌, ℤ, pos, negsuc,
  int_eq, leb, ltb, list_eq, nat_eq, ◌==◌, is_empty, if◌then◌else◌, GoString, bytes, trim_space,
  format_int, Result, ok, err,
}

pub data CheckError : Type 0 where
  account_not_found executor_unavailable unsupported_provider other : CheckError

pub data Kind : Type 0 where
  oauth api_key other_kind : Kind

-- What the SDK tells of a credential; `none` is a zero time.
pub record Sdk (A : Type 0) : Type 0 where
  pub provider : A → GoString
  pub kind : A → Kind
  pub attribute : A → GoString → GoString
  pub attribute_api_key : GoString
  pub expiration : A → Option ℕ
  pub last_refreshed_at : A → Option ℕ
  pub exceeded : A → Bool
  pub reason : A → GoString
  pub next_recover_at : A → Option ℕ
  pub backoff_level : A → ℤ

pub record ProbeRequest : Type 0 where
  pub target : GoString
  pub headers : List (GoString × GoString)

-- An executor: the credential that a refresh gives, and the status code of an answer; `none` is an
-- error, or nil.
pub record Executor (A S : Type 0) : Type 0 where
  pub refresh : A → S → Option A × S
  pub http_request : A → ProbeRequest → S → Option ℕ × S

-- `Update` fails, or gives a credential or nil.
pub record Manager (A S : Type 0) : Type 0 where
  pub get_by_id : GoString → S → Option A
  pub executor : GoString → S → Option (Executor A S)
  pub update : A → S → Result CheckError (Option A) × S

pub record QuotaInfo : Type 0 where
  pub exceeded : Bool
  pub reason : GoString
  pub next_recover_at : Option ℕ
  pub is_unknown : Bool

pub record TestResult : Type 0 where
  pub is_valid : Bool
  pub method : GoString
  pub status_code : ℕ
  pub expires_at : Option ℕ
  pub last_refreshed_at : Option ℕ
  pub quota : QuotaInfo
  pub error : GoString

unfoldable pub method_refresh : GoString
method_refresh = bytes "refresh"

unfoldable pub method_http_probe : GoString
method_http_probe = bytes "http_probe"

-- `strings.TrimRight(s, "/")`.
pub trim_slashes : GoString → GoString
trim_slashes [] = []
trim_slashes (c ∷ s) =
    let rest = trim_slashes s in if is_empty rest && (c == b'/') then [] else c ∷ rest

is_zero : Option ℕ → Bool
is_zero none = true
is_zero (some t) = false

unfoldable pub is_success : ℕ → Bool
is_success code = leb 200 code && ltb code 300

-- The text of a status code that is not a success.
unfoldable pub http_error : ℕ → GoString
http_error code = bytes "upstream returned HTTP " ++ format_int (pos code)

module _ {A : Type 0} (sdk : Sdk A) where
  unfoldable pub quota_of : A → QuotaInfo
  unfolding is_zero
  quota_of a = record {
    exceeded = sdk.exceeded a;
    reason = sdk.reason a;
    next_recover_at = sdk.next_recover_at a;
    is_unknown =
        not (sdk.exceeded a)
        && is_empty (sdk.reason a)
        && is_zero (sdk.next_recover_at a)
        && (sdk.backoff_level a == pos 0);
  }

  unfoldable pub result_for_auth : A → GoString → ℕ → Bool → GoString → TestResult
  result_for_auth a method status_code valid message = record {
    is_valid = valid;
    method = method;
    status_code = status_code;
    expires_at = sdk.expiration a;
    last_refreshed_at = sdk.last_refreshed_at a;
    quota = quota_of a;
    error = message;
  }

  module _ (to_lower : GoString → GoString) (with_key : GoString → GoString → GoString)
      (is_target : GoString → Bool) where
    new_request : GoString → List (GoString × GoString) → Result CheckError ProbeRequest
    new_request target headers =
        if is_target target then ok (record { target = target; headers = headers }) else err other

    -- A request to a target that wants an attribute which is not empty.
    request_with : GoString → (GoString → GoString) → Result CheckError ProbeRequest
    unfolding new_request
    request_with [] target = err unsupported_provider
    request_with (c ∷ s) target = new_request (target (c ∷ s)) []

    unfoldable pub probe_request : A → Result CheckError ProbeRequest
    unfolding new_request request_with trim_slashes
    probe_request a =
        let provider = to_lower (trim_space (sdk.provider a)) in
        if provider == bytes "claude"
        then new_request (bytes "https://api.anthropic.com/v1/models")
            ((bytes "anthropic-version", bytes "2023-06-01") ∷ [])
        else if provider == bytes "codex"
        then new_request (bytes "https://chatgpt.com/backend-api/me") []
        else if provider == bytes "gemini"
        then request_with (trim_space (sdk.attribute a sdk.attribute_api_key))
            (with_key (bytes "https://generativelanguage.googleapis.com/v1beta/models"))
        else if provider == bytes "openai-compatibility"
        then request_with (trim_space (sdk.attribute a (bytes "base_url")))
            (λ base. trim_slashes base ++ bytes "/models")
        else err unsupported_provider

    module _ {S : Type 0} (m : Manager A S) where
      unfoldable pub updated : Result CheckError (Option A) × S → Result CheckError TestResult × S
      updated (err e, s) = (err other, s)
      updated (ok none, s) = (err account_not_found, s)
      updated (ok (some a), s) = (ok (result_for_auth a method_refresh 200 true []), s)

      unfoldable pub refreshed : A → Option A × S → Result CheckError TestResult × S
      unfolding updated
      refreshed a (none, s) =
          (ok (result_for_auth a method_refresh 0 false (bytes "credential refresh failed")), s)
      refreshed a (some b, s) = updated (m.update b s)

      unfoldable pub test_oauth : A → Executor A S → S → Result CheckError TestResult × S
      unfolding refreshed
      test_oauth a x s = refreshed a (x.refresh a s)

      unfoldable pub answered : A → Option ℕ × S → Result CheckError TestResult × S
      answered a (none, s) =
          (ok (result_for_auth a method_http_probe 0 false (bytes "credential probe failed")), s)
      answered a (some code, s) = (
        ok (
            if is_success code
            then result_for_auth a method_http_probe code true []
            else result_for_auth a method_http_probe code false (http_error code)),
        s,
      )

      unfoldable pub probed :
          A → Executor A S → Result CheckError ProbeRequest → S → Result CheckError TestResult × S
      unfolding answered
      probed a x (err e) s = (err e, s)
      probed a x (ok request) s = answered a (x.http_request a request s)

      unfoldable pub test_api_key : A → Executor A S → S → Result CheckError TestResult × S
      unfolding probed
      test_api_key a x s = probed a x (probe_request a) s

      unfoldable pub by_kind : Kind → A → Executor A S → S → Result CheckError TestResult × S
      by_kind oauth a x s = test_oauth a x s
      by_kind api_key a x s = test_api_key a x s
      by_kind other_kind a x s = (err unsupported_provider, s)

      unfoldable pub with_executor :
          A → Option (Executor A S) → S → Result CheckError TestResult × S
      unfolding by_kind
      with_executor a none s = (err executor_unavailable, s)
      with_executor a (some x) s = by_kind (sdk.kind a) a x s

      unfoldable pub with_account : Option A → S → Result CheckError TestResult × S
      unfolding with_executor
      with_account none s = (err account_not_found, s)
      with_account (some a) s = with_executor a (m.executor (sdk.provider a) s) s

      -- `Test` of a checker with a manager.
      unfoldable pub test : GoString → S → Result CheckError TestResult × S
      unfolding with_account
      test account_id s = with_account (m.get_by_id (trim_space account_id) s) s
