-- ===== src/Store/Sessions/Lookups.antt =====
-- The results of the lookups of internal/store/sessions.go.
use cliproxy_new.Base.{
  ◌≡◌, refl, ap, ◌∙◌, ◌↔◌, Bool, true, false, ◌||◌, not, list_eq, nat_eq, is_empty, if◌then◌else◌,
  ◌==◌, ==_iff, GoString, Result, ok, err,
}
use cliproxy_new.Store.{
  StoreError, invalid_credential, QueryError, no_rows, failed, active, valid_identity_source,
}
use cliproxy_new.Store.Sessions.{
  Session, SessionRow, SessionQueries, active_session, get_by_token_for_source,
}

-- The query gives a row with the session, of a user that is active.
pub Live : Result QueryError SessionRow → Session → Type 0
Live rows session =
    (row : SessionRow) × (rows ≡ ok row) × (row.user_status ≡ active) × (row.session ≡ session)

live_row :
    (is_active : Bool) (session found : Session)
    → (if is_active then ok found else err invalid_credential) ≡ ok session
    → (is_active ≡ true) × (found ≡ session)
live_row true session found h = (refl, cc)
live_row false session found h = cc

relive :
    (row live : SessionRow) (session : Session)
    → row ≡ live
    → live.user_status ≡ active
    → live.session ≡ session
    → active_session (ok row) ≡ ok session
unfolding active_session
relive row live session e status same =
    ap (λ b. if b then ok row.session else err invalid_credential)
      ((==_iff row.user_status active).1 (ap (λ r. r.user_status) e ∙ status))
    ∙ ap (λ s. ok s) (ap (λ r. r.session) e ∙ same)

active_session-Live :
    (rows : Result QueryError SessionRow) (session : Session)
    → (active_session rows ≡ ok session) ↔ Live rows session
unfolding active_session Live
active_session-Live (err no_rows) session = ((λ h. cc), (λ l. cc (l.1)))
active_session-Live (err failed) session = ((λ h. cc), (λ l. cc (l.1)))
active_session-Live (ok row) session = (
  (λ h.
      let (on, same) = live_row (row.user_status == active) session row.session h in
      (row, refl, (==_iff row.user_status active).0 on, same)),
  (λ l. relive row l.0 session (cc (l.1)) l.2 l.3),
)

past_guards :
    (empty known : Bool) (found : Result StoreError Session) (session : Session)
    → ((if empty || not known then err invalid_credential else found) ≡ ok session)
      ↔ ((empty ≡ false) × (known ≡ true) × (found ≡ ok session))
past_guards true known found session = ((λ h. cc), (λ l. cc (l.0)))
past_guards false true found session = ((λ h. (refl, refl, h)), (λ l. l.2))
past_guards false false found session = ((λ h. cc), (λ l. cc (l.1)))

module _ {D : Type 0} (hash : GoString → GoString) (q : SessionQueries D) where
  -- A lookup for a source gives a session if and only if the token is not empty, the source is
  -- known, and the query for the hash of the token and the source gives that session with a user who
  -- is active.
  pub get_by_token_for_source_iff :
      (token source : GoString) (d : D) (session : Session)
      → (get_by_token_for_source hash q token source d ≡ ok session) ↔ (
          (is_empty token ≡ false)
          × (valid_identity_source source ≡ true)
          × Live (q.get_by_token_hash_for_source (hash token) source d) session)
  unfolding get_by_token_for_source
  get_by_token_for_source_iff token source d session =
      let rows = q.get_by_token_hash_for_source (hash token) source d in
      let guards =
        past_guards (is_empty token) (valid_identity_source source) (active_session rows) session in
      let alive = active_session-Live rows session in
      (
        (λ h. let (filled, known, found) = guards.0 h in (filled, known, alive.0 found)),
        (λ l. guards.1 (l.0, l.1, alive.1 l.2)),
      )
