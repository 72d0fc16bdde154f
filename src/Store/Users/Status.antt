-- ===== src/Store/Users/Status.antt =====
-- The results of `SetStatus` of internal/store/users.go.
use cliproxy_new.Base.{
  ℕ, ◌≡◌, refl, ◌⊎◌, inl, inr, Bool, true, false, ℤ, list_eq, nat_eq, ◌==◌, ==_iff, GoString,
  Result, ok, err,
}
use cliproxy_new.Store.{Done, QueryError, active, blocked}
use cliproxy_new.Store.Users.{UserQueries, row_written, updated, change_status, set_status}

-- A statement that changed a row, from a state to another.
pub Changed : {D : Type 0} → Result QueryError ℕ × D → D → Type 0
Changed o after = (n : ℕ) × (o ≡ (ok n, after)) × ((n == 0) ≡ false)

counted :
    {D : Type 0} (n : ℕ) (d : D) (u : Done) (after : D) (none_changed : Bool)
    → (n == 0) ≡ none_changed
    → row_written none_changed d ≡ (ok u, after)
    → Changed (ok n, d) after
unfolding Changed row_written
counted n d u after true z h = cc
counted n d u after false z h = (n, cc h, z)

updated-Changed :
    {D : Type 0} (o : Result QueryError ℕ × D) (u : Done) (after : D)
    → updated o ≡ (ok u, after)
    → Changed o after
unfolding updated Changed
updated-Changed (err e, d) u after h = cc
updated-Changed (ok n, d) u after h = counted n d u after (n == 0) refl h

module _ {D : Type 0} (q : UserQueries D) where
  change_status-Changed :
      (is_active is_blocked : Bool) (id : ℤ) (status : GoString) (d : D) (u : Done) (after : D)
      → (status == active) ≡ is_active
      → (status == blocked) ≡ is_blocked
      → change_status q is_active is_blocked id status d ≡ (ok u, after)
      → ((status ≡ blocked) × Changed (q.block_user_and_delete_sessions id d) after)
        ⊎ ((status ≡ active) × Changed (q.set_user_status id status d) after)
  unfolding change_status
  change_status-Changed false false id status d u after a b h = cc
  change_status-Changed false true id status d u after a b h = inl (
    (==_iff status blocked).0 b,
    updated-Changed (q.block_user_and_delete_sessions id d) u after h,
  )
  change_status-Changed true true id status d u after a b h = inl (
    (==_iff status blocked).0 b,
    updated-Changed (q.block_user_and_delete_sessions id d) u after h,
  )
  change_status-Changed true false id status d u after a b h =
      inr ((==_iff status active).0 a, updated-Changed (q.set_user_status id status d) u after h)

  -- When `SetStatus` succeeds, the status is blocked, and the statement that blocks the user and
  -- deletes the user's sessions changed a row; or it is active, and the statement that sets the
  -- status changed one. The state is the one that this statement left.
  pub set_status-Changed :
      (id : ℤ) (status : GoString) (d : D) (u : Done) (after : D)
      → set_status q id status d ≡ (ok u, after)
      → ((status ≡ blocked) × Changed (q.block_user_and_delete_sessions id d) after)
        ⊎ ((status ≡ active) × Changed (q.set_user_status id status d) after)
  unfolding set_status
  set_status-Changed id status d u after h =
      change_status-Changed (status == active) (status == blocked) id status d u after refl refl h
