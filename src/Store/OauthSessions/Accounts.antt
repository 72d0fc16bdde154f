-- ===== src/Store/OauthSessions/Accounts.antt =====
-- What the deletion of an upstream account does to the rows of internal/store/oauth_sessions.go.
use cliproxy_new.Base.{
  ◌≡◌, refl, ap, Bool, true, false, Option, none, some, List, [], ◌∷◌, list_eq, nat_eq,
  if◌then◌else◌, ◌==◌, GoString, Bool-cases, ◌⊎◌, inl, inr, map,
}
use cliproxy_new.Store.OauthSessions.{OauthRow, find_row, without_account}

-- The row at the head of a table: either it is the one of the state, or the search goes on.
pub found_cases :
    (b : Bool) (x : OauthRow) (rest : Option OauthRow) (row : OauthRow)
    → (if b then some x else rest) ≡ some row
    → ((b ≡ true) × (x ≡ row)) ⊎ ((b ≡ false) × (rest ≡ some row))
found_cases true x rest row h = inl (refl, cc)
found_cases false x rest row h = inr (refl, h)

without_account-state :
    (auth_id : Option GoString) (id : GoString) (r : OauthRow)
    → (without_account auth_id id r).state ≡ r.state
unfolding without_account
without_account-state none id r = refl
without_account-state (some auth_id) id r = elim (Bool-cases (auth_id == id)) [
  | inl same ↦ rw same refl
  | inr other ↦ rw other refl
]

pub without_account-status :
    (auth_id : Option GoString) (id : GoString) (r : OauthRow)
    → (without_account auth_id id r).status ≡ r.status
unfolding without_account
without_account-status none id r = refl
without_account-status (some auth_id) id r = elim (Bool-cases (auth_id == id)) [
  | inl same ↦ rw same refl
  | inr other ↦ rw other refl
]

pub find_row-account_deleted :
    (id state : GoString) (row : OauthRow) (rows : List OauthRow)
    → find_row rows state ≡ some row
    → find_row (map (λ r. without_account r.auth_id id r) rows) state
      ≡ some (without_account row.auth_id id row)
unfolding find_row without_account
find_row-account_deleted id state row [] h = cc
find_row-account_deleted id state row (x ∷ rows) h =
    let named = without_account-state x.auth_id id x in
    elim (found_cases (x.state == state) x (find_row rows state) row h) [
      | inl (here, same) ↦ rw (named, here) (ap (λ r. some (without_account r.auth_id id r)) same)
      | inr (other_state, more) ↦
          rw (named, other_state) (find_row-account_deleted id state row rows more)
    ]
