-- ===== src/Store/CoreAuth/Places.antt =====
-- The rows and the credentials of internal/store/coreauth_store.go in the order of their ids.
use cliproxy_new.Base.{
  ◌≡◌, refl, sym, ap, ap₂, ◌∙◌, subst, Bool, not, Bool-cases, inl, inr, List, [], ◌∷◌, list_eq,
  nat_eq, filter, ◌==◌, ==_iff, GoString, ok, err, >>=_inversion, ok_injective, All, false, IsOrder,
  insert_by, order_by, insert_by-swap,
}
use cliproxy_new.Store.{corrupt_credential}
use cliproxy_new.Security.Keyring.{Aead, Keyring}
use cliproxy_new.Store.CoreAuth.{Sdk, Auth, Account, ensure_postgres_source}
use cliproxy_new.Store.CoreAuth.Tables.{list_row, list_rows, checked, upsert_account, has_other_id}

-- The credentials of other ids.
unfoldable pub has_other : GoString → Auth → Bool
has_other id a = not (a.id == id)

checked-id : (sdk : Sdk) (r : Account) (a b : Auth) → checked sdk r a ≡ ok b → b.id ≡ r.id
unfolding checked ensure_postgres_source
checked-id sdk r a b h = elim (Bool-cases (a.id == r.id)) [
  | inl i ↦ elim (Bool-cases (a.provider == r.provider)) [
    | inl p ↦
        ap (λ c. c.id)
          (sym (
            ok_injective (ensure_postgres_source sdk (record a { proxy_url = [] })) b
              (rw (i, p) at h)))
        ∙ (==_iff a.id r.id).0 i
    | inr p ↦ let refused : err corrupt_credential ≡ ok b = rw (i, p) at h in cc
  ]
  | inr i ↦ let refused : err corrupt_credential ≡ ok b = rw i at h in cc
]

-- What is listed has the id of its row.
pub list_row-id :
    (sdk : Sdk) (aead : Aead) (k : Keyring) (r : Account) (b : Auth)
    → list_row sdk aead k r ≡ ok b
    → b.id ≡ r.id
unfolding list_row
list_row-id sdk aead k r b h =
    let (a, _, passed) = >>=_inversion _ (checked sdk r) h in checked-id sdk r a b passed

-- A listing that succeeds, row by row.
list_rows-ok :
    (sdk : Sdk) (aead : Aead) (k : Keyring) (r : Account) (rs : List Account) (auths : List Auth)
    → list_rows sdk aead k (r ∷ rs) ≡ ok auths
    → (b : Auth) × (rest : List Auth) × (list_row sdk aead k r ≡ ok b)
      × (list_rows sdk aead k rs ≡ ok rest)
      × (auths ≡ b ∷ rest)
      × (b.id ≡ r.id)
unfolding list_rows
list_rows-ok sdk aead k r rs auths h =
    let (b, one, more) = >>=_inversion (list_row sdk aead k r) _ h in
    let (rest, all, same) = >>=_inversion (list_rows sdk aead k rs) _ more in
    (b, rest, one, all, sym (ok_injective (b ∷ rest) auths same), list_row-id sdk aead k r b one)

nothing_listed : (sdk : Sdk) (aead : Aead) (k : Keyring) → list_rows sdk aead k [] ≡ ok []
unfolding list_rows
nothing_listed sdk aead k = refl

list_rows-nil :
    (sdk : Sdk) (aead : Aead) (k : Keyring) (auths : List Auth)
    → list_rows sdk aead k [] ≡ ok auths
    → [] ≡ auths
unfolding list_rows
list_rows-nil sdk aead k auths h = ok_injective [] auths h

list_rows-cons :
    (sdk : Sdk) (aead : Aead) (k : Keyring) (r : Account) (rs : List Account) (b : Auth)
    (rest : List Auth)
    → list_row sdk aead k r ≡ ok b
    → list_rows sdk aead k rs ≡ ok rest
    → list_rows sdk aead k (r ∷ rs) ≡ ok (b ∷ rest)
unfolding list_rows
list_rows-cons sdk aead k r rs b rest one all = rw (one, all) refl

pub list_rows-insert_by :
    (sdk : Sdk) (aead : Aead) (k : Keyring) (less : GoString → GoString → Bool) (a : Account)
    (q : Auth) (rs : List Account) (auths : List Auth)
    → list_row sdk aead k a ≡ ok q
    → list_rows sdk aead k rs ≡ ok auths
    → list_rows sdk aead k (insert_by less (λ r. r.id) a rs)
      ≡ ok (insert_by less (λ b. b.id) q auths)
unfolding insert_by
list_rows-insert_by sdk aead k less a q [] auths one all =
    subst (λ l. list_rows sdk aead k (a ∷ []) ≡ ok (insert_by less (λ b. b.id) q l))
      (list_rows-nil sdk aead k auths all)
      (list_rows-cons sdk aead k a [] q [] one (nothing_listed sdk aead k))
list_rows-insert_by sdk aead k less a q (r ∷ rs) auths one all =
    let (b, rest, first, others, same, id) = list_rows-ok sdk aead k r rs auths all in
    let equal : less a.id r.id ≡ less q.id b.id =
      ap₂ less (sym (list_row-id sdk aead k a q one)) (sym id) in
    rw same (elim (Bool-cases (less q.id b.id)) [
      | inl e ↦
          rw (equal, e)
            (list_rows-cons sdk aead k a (r ∷ rs) q (b ∷ rest) one
              (list_rows-cons sdk aead k r rs b rest first others))
      | inr e ↦
          rw (equal, e)
            (list_rows-cons sdk aead k r (insert_by less (λ x. x.id) a rs) b
              (insert_by less (λ x. x.id) q rest) first
              (list_rows-insert_by sdk aead k less a q rs rest one others))
    ])

-- The rows have the ids once each, by the primary key.
unfoldable pub DistinctIds : List Account → Type 0
DistinctIds [] = Unit
DistinctIds (r ∷ rs) = All (λ x. (x.id == r.id) ≡ false) rs × DistinctIds rs

filter-others :
    (id : GoString) (rs : List Account)
    → All (λ x. (x.id == id) ≡ false) rs
    → filter (has_other_id id) rs ≡ rs
unfolding filter has_other_id
filter-others id [] others = refl
filter-others id (r ∷ rs) others = rw (others.0, filter-others id rs others.1) refl

-- An upsert, as the ordered query sees it.
pub order_by-upsert :
    (less : GoString → GoString → Bool) (a : Account) (rs : List Account)
    → IsOrder less
    → DistinctIds rs
    → order_by less (λ r. r.id) (upsert_account a rs)
      ≡ insert_by less (λ r. r.id) a (order_by less (λ r. r.id) (filter (has_other_id a.id) rs))
unfolding order_by upsert_account filter has_other_id DistinctIds
order_by-upsert less a [] o distinct = refl
order_by-upsert less a (r ∷ rs) o distinct = elim (Bool-cases (r.id == a.id)) [
  | inl e ↦
      let others : filter (has_other_id a.id) rs ≡ rs =
        filter-others a.id rs
          (subst (λ id. All (λ x. (x.id == id) ≡ false) rs) ((==_iff r.id a.id).0 e) distinct.0) in
      simp (e, others)
  | inr e ↦
      simp (e, order_by-upsert less a rs o distinct.1)
        (insert_by-swap less (λ x. x.id) o r a
          (order_by less (λ x. x.id) (filter (has_other_id a.id) rs))
          (λ same. cc ((==_iff r.id a.id).1 same, e)))
]

pub list_rows-delete :
    (sdk : Sdk) (aead : Aead) (k : Keyring) (id : GoString) (rs : List Account) (auths : List Auth)
    → list_rows sdk aead k rs ≡ ok auths
    → list_rows sdk aead k (filter (has_other_id id) rs) ≡ ok (filter (has_other id) auths)
unfolding filter has_other has_other_id
list_rows-delete sdk aead k id [] auths all =
    subst (λ l. list_rows sdk aead k [] ≡ ok (filter (has_other id) l))
      (list_rows-nil sdk aead k auths all) (nothing_listed sdk aead k)
list_rows-delete sdk aead k id (r ∷ rs) auths all =
    let (b, rest, first, others, same, named) = list_rows-ok sdk aead k r rs auths all in
    let equal : (r.id == id) ≡ (b.id == id) = ap (λ x. x == id) (sym named) in
    let fewer = list_rows-delete sdk aead k id rs rest others in
    rw same (elim (Bool-cases (b.id == id)) [
      | inl e ↦ rw (equal, e) fewer
      | inr e ↦
          rw (equal, e)
            (list_rows-cons sdk aead k r (filter (has_other_id id) rs) b
              (filter (has_other id) rest) first fewer)
    ])

All-upsert :
    (P : Account → Type 0) (a : Account) (rs : List Account)
    → P a
    → All P rs
    → All P (upsert_account a rs)
unfolding upsert_account
All-upsert P a [] p ps = (p, tt)
All-upsert P a (r ∷ rs) p ps = elim (Bool-cases (r.id == a.id)) [
  | inl e ↦ rw e (p, ps.1)
  | inr e ↦ rw e (ps.0, All-upsert P a rs p ps.1)
]

-- An upsert keeps the ids distinct.
upsert_account-DistinctIds :
    (a : Account) (rs : List Account) → DistinctIds rs → DistinctIds (upsert_account a rs)
unfolding upsert_account DistinctIds
upsert_account-DistinctIds a [] distinct = (tt, tt)
upsert_account-DistinctIds a (r ∷ rs) distinct = elim (Bool-cases (r.id == a.id)) [
  | inl e ↦ rw e (
    subst (λ id. All (λ x. (x.id == id) ≡ false) rs) ((==_iff r.id a.id).0 e) distinct.0,
    distinct.1,
  )
  | inr e ↦ rw e (
    All-upsert (λ x. (x.id == r.id) ≡ false) a rs (unequal a.id r.id e) distinct.0,
    upsert_account-DistinctIds a rs distinct.1,
  )
]
  where
    unequal : (x y : GoString) → (y == x) ≡ false → (x == y) ≡ false
    unequal x y e = elim (Bool-cases (x == y)) [
      | inl same ↦ cc ((==_iff y x).1 (sym ((==_iff x y).0 same)), e)
      | inr other ↦ other
    ]
