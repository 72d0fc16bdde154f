-- ===== src/Http/UserAdmin.antt =====
-- internal/httpapi/admin_users.go: the administration of users. The store is an interface over its
-- states, as are the caches to invalidate; gin's binding of the body and the IP are arguments.
pub mod Pipeline
use cliproxy_new.Base.{
  ℕ, Bool, true, false, ◌||◌, Option, none, some, List, [], ◌∷◌, map, ℤ, is_positive, list_eq,
  nat_eq, ◌==◌, if◌then◌else◌, GoString, bytes, parse_int, Result, ok, err,
}
use cliproxy_new.Store.{
  StoreError, not_found, invalid_credential, invalid_input, corrupt_credential, other, Done, active,
  blocked,
}
use cliproxy_new.Store.Users.{User}
use cliproxy_new.Http.Management.{Refusal, Reply, refuse, reply, Context, current_user_id}

pub record AdminUserStore (S : Type 0) : Type 0 where
  pub list : S → Result StoreError (List User)
  pub set_status_with_audit : ℤ → ℤ → GoString → Option GoString → S → Result StoreError Done × S

-- `AdminUserHandler`, with the `InvalidateUser` of each invalidator.
pub record AdminUserHandler (S : Type 0) : Type 0 where
  pub store : AdminUserStore S
  pub invalidators : List (ℤ → S → S)

listed : Result StoreError (List User) → Result Refusal (Reply (List User))
unfolding reply refuse
listed (err e) = refuse 500 (bytes "list users failed")
listed (ok users) = reply 200 users

-- `List`; the response has the fields of the store's user.
unfoldable pub list : {S : Type 0} → AdminUserHandler S → S → Result Refusal (Reply (List User))
unfolding listed
list h s = listed (h.store.list s)

unfoldable pub invalidate_all : {S : Type 0} → List (ℤ → S → S) → ℤ → S → S
invalidate_all [] user_id s = s
invalidate_all (invalidate ∷ rest) user_id s = invalidate_all rest user_id (invalidate user_id s)

-- What follows the answer of the store.
unfoldable pub status_set :
    {S : Type 0}
    → List (ℤ → S → S)
    → ℤ
    → Result StoreError Done × S
    → Result Refusal (Reply Done) × S
unfolding reply refuse
status_set invalidators user_id (ok u, s) = (reply 204 tt, invalidate_all invalidators user_id s)
status_set invalidators user_id (err not_found, s) = (refuse 404 (bytes "user not found"), s)
status_set invalidators user_id (err invalid_input, s) =
    (refuse 400 (bytes "invalid user status"), s)
status_set invalidators user_id (err invalid_credential, s) =
    (refuse 500 (bytes "set user status failed"), s)
status_set invalidators user_id (err corrupt_credential, s) =
    (refuse 500 (bytes "set user status failed"), s)
status_set invalidators user_id (err other, s) = (refuse 500 (bytes "set user status failed"), s)

module _ {S : Type 0} (h : AdminUserHandler S) (ip : Option GoString) where
  unfoldable pub set_known : ℤ → ℤ → Option GoString → S → Result Refusal (Reply Done) × S
  unfolding refuse
  set_known actor target none s = (refuse 400 (bytes "invalid user status"), s)
  set_known actor target (some status) s =
      if status == active || status == blocked
      then status_set h.invalidators target (h.store.set_status_with_audit actor target status ip s)
      else (refuse 400 (bytes "invalid user status"), s)

  unfoldable pub set_for :
      Result Refusal ℤ → Option ℤ → Option GoString → S → Result Refusal (Reply Done) × S
  unfolding refuse
  set_for (err refusal) target body s = (err refusal, s)
  set_for (ok actor) none body s = (refuse 400 (bytes "invalid user ID"), s)
  set_for (ok actor) (some target) body s =
      if is_positive target
      then set_known actor target body s
      else (refuse 400 (bytes "invalid user ID"), s)

  -- `SetStatus`, by the parameter of the path and the `status` of the bound body.
  unfoldable pub set_status :
      GoString → Option GoString → Context → S → Result Refusal (Reply Done) × S
  set_status param body c s = set_for (current_user_id c) (parse_int param) body s
