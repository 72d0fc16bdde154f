-- ===== src/Tests/Handlers.antt =====
-- Runs of internal/httpapi: a store of one key and a database of users and audit entries, each with
-- the number of its writes.
use cliproxy_new.Base.{
  ℕ, ◌+◌, ◌≡◌, true, Option, none, some, [], pos, nat_eq, list_eq, list_beq, bytes, parse_int, ok,
  err,
}
use cliproxy_new.Store.{failed, no_rows, not_found, active, blocked}
use cliproxy_new.Store.Users as Users
use cliproxy_new.Store.Users.{UserQueries}
use cliproxy_new.Store.AdminUsers.{AdminQueries, status_entry, set_status_with_audit}
use cliproxy_new.Store.ApiKeys.{new_repository}
use cliproxy_new.Store.Sessions.{Session}
use cliproxy_new.Auth.Identity.{role_admin}
use cliproxy_new.Auth.Identity.Sessions.{
  SessionPrincipal, SessionAuthenticator, Request, Instant, Lookup, authenticate_request,
  authenticate_token, new_session_authenticator, session_cache_key,
}
use cliproxy_new.Http.KeyHandlers.{ApiKeyStore}
use cliproxy_new.Http.KeyHandlers.Pipeline as Keys
use cliproxy_new.Http.KeyHandlers.Pipeline.{Called, revoke_request-Verdict}
use cliproxy_new.Http.UserAdmin.Pipeline.{Served, Changed, set_status_request-Verdict}
use cliproxy_new.Http.Management.{reply}
use cliproxy_new.Store.UsageEvents.{EventQueries, Totals, get_summary_by_user, wrapped}
use cliproxy_new.Http.UsageSummaries.{
  get, get_for, get_within, usage_range, until, ordered, parse_usage_time, summarised,
}
use cliproxy_new.Http.UsageSummaries.Range.{Summarised, reader_of, get-Verdict}
use cliproxy_new.Http.KeyHandlers as KeyHandlers
use cliproxy_new.Http.UserAdmin as UserAdmin
use cliproxy_new.Http.UserAdmin.{invalidate_all, status_set}
use cliproxy_new.Http.UserAdmin.Pipeline.{set_status_request, admin_handler, on_database}
use cliproxy_new.Http.Management.{
  in_session, in_role, behind, session_middleware, context_of, current_user_id, require_role, allow,
  allowed_role,
}
use cliproxy_new.Store.Audited.{Transaction, in_transaction, audited, insert_audit, ended, entered}
use cliproxy_new.Store.OauthSessions.{is_entry}
use cliproxy_new.Store.ApiKeys as ApiKeys
use cliproxy_new.Auth.Identity.Sessions as Sessions
use cliproxy_new.Cache as Cache
use cliproxy_new.Cache.{new_ttl}
use cliproxy_new.Base.{format_int}
use mathlib.Core.Option as Option

abbrev admin_session : Session
admin_session = record {
  id = pos 1;
  user_id = pos 3;
  token_hash = bytes "t";
  role = bytes "admin";
  expires_at = 100;
  created_ip = none;
  created_at = 0;
}

abbrev lookup : Lookup
lookup token source = ok admin_session

abbrev an_admin : SessionPrincipal
an_admin = record { user_id = pos 3; role = bytes "admin" }

abbrev with_cookie : Option Request
with_cookie = some (record { session_cookie = some (bytes "t") })

abbrev instant : Instant
instant = record { read = 5; write = 5 }

abbrev authenticator : SessionAuthenticator
authenticator = record { has_lookup = true; identity_source = bytes "ldap"; cache = none }

abbrev one_key : ApiKeyStore ℕ
one_key = record {
  list_by_user = λ user_id s. ok [];
  create = λ params s. (err not_found, s);
  revoke = λ user_id key_id s. (ok tt, s + 1);
}

revoke_request-Verdict_example :
    (◌≡◌ {A = ℕ} 204 204) × Called one_key (bytes "7") 0 (ok an_admin) (ok tt) 1
unfolding Keys.revoke_request in_session behind session_middleware context_of authenticate_request
    Cache.get KeyHandlers.revoke KeyHandlers.revoke_for current_user_id parse_int Option.bind
    KeyHandlers.revoked
revoke_request-Verdict_example =
    revoke_request-Verdict (λ s. s) one_key authenticator with_cookie instant lookup (bytes "7") 0

abbrev counted_users : UserQueries ℕ
counted_users = record {
  upsert_user_from_ldap = λ username email role d. (err failed, d);
  upsert_static_user = λ username email role d. (err failed, d);
  get_user_by_id = λ id d. err no_rows;
  list_users = λ d. ok [];
  block_user_and_delete_sessions = λ id d. (ok 1, d + 1);
  set_user_status = λ id status d. (ok 1, d + 1);
}

abbrev audited_users : AdminQueries ℕ
audited_users = record { users = counted_users; insert_entry = λ e d. (ok tt, d + 1) }

abbrev complete : Transaction
complete = record { transactional = true; begins = true; commits = true }

abbrev served : ℕ → Served ℕ
served d = record { database = d; sessions = authenticator; keys = new_repository }

set_status_request-Verdict_example :
    (◌≡◌ {A = ℕ} 204 204)
    × Changed
        (λ s. true)
        audited_users
        complete
        (bytes "7")
        (some (bytes "blocked"))
        none
        (served 0)
        (ok an_admin)
        (served 2)
unfolding set_status_request behind session_middleware context_of authenticate_request Cache.get
    in_role require_role allow allowed_role list_beq role_admin UserAdmin.set_status
    UserAdmin.set_for UserAdmin.set_known current_user_id parse_int Option.bind admin_handler
    on_database invalidate_all status_set set_status_with_audit in_transaction audited insert_audit
    ended entered status_entry is_entry format_int Users.set_status active blocked
    Sessions.invalidate_user ApiKeys.invalidate_user new_repository new_ttl Cache.delete_where
    Cache.set
set_status_request-Verdict_example =
    set_status_request-Verdict (λ s. true) audited_users complete (λ s. s) with_cookie instant
      lookup (bytes "7") (some (bytes "blocked")) none (served 0)

abbrev no_totals : Totals
no_totals = record {
  request_count = pos 0;
  failed_request_count = pos 0;
  input_tokens = pos 0;
  output_tokens = pos 0;
  reasoning_tokens = pos 0;
  cached_tokens = pos 0;
  total_tokens = pos 0;
}

-- A database without events, and a request without parameters.
abbrev no_events : EventQueries ℕ
no_events = record {
  insert_usage_event = λ row d. (ok tt, d);
  insert_usage_events = λ rows d. ([], d);
  touch_api_keys_last_used = λ ids d. (ok tt, d);
  get_usage_summary_by_user = λ id from to d. ok no_totals;
  list_usage_by_model_for_user = λ id from to d. ok [];
  list_usage_by_api_key_for_user = λ id from to d. ok [];
}

get-Verdict_example :
    (◌≡◌ {A = ℕ} 200 200)
    × Summarised no_events
        (λ s. none)
        (record { from = []; to = [] })
        2_592_000_000_000_005
        0
        (some (pos 3))
        (record {
          from = 5;
          to = 2_592_000_000_000_005;
          summary = record { total = no_totals; by_model = []; by_api_key = [] };
        })
unfolding get get_for get_within usage_range until ordered parse_usage_time reader_of summarised
    get_summary_by_user wrapped current_user_id reply
get-Verdict_example =
    get-Verdict no_events (λ s. none) (record { from = []; to = [] }) 2_592_000_000_000_005 0
      (record { user_id = some (pos 3); role = none })
