-- ===== src/Base/Order.antt =====
-- Rows in the order of a text column, as the queries with ORDER BY answer them.
use mathlib.Core.Path.{◌≡◌, refl, sym}
use mathlib.Core.Logic.{◌≢◌, ◌⊎◌, inl, inr}
use mathlib.Core.Bool.{Bool, true, false}
use mathlib.Core.List.{List, [], ◌∷◌}
use cliproxy_new.Base.Tests.{if◌then◌else◌, Bool-cases}
use cliproxy_new.Base.Lists.{All, filter}
use cliproxy_new.Base.Text.{GoString}

-- What a deterministic collation promises of `<` on texts.
pub record IsOrder (less : GoString → GoString → Bool) : Type 0 where
  pub irreflexive : (a : GoString) → less a a ≡ false
  pub transitive : (a b c : GoString) → less a b ≡ true → less b c ≡ true → less a c ≡ true
  pub total : (a b : GoString) → less a b ≡ false → less b a ≡ false → a ≡ b

module _ {A : Type 0} (less : GoString → GoString → Bool) (key : A → GoString) where
  unfoldable pub insert_by : A → List A → List A
  insert_by a [] = a ∷ []
  insert_by a (r ∷ rows) =
      let rest = insert_by a rows in if less (key a) (key r) then a ∷ r ∷ rows else r ∷ rest

  unfoldable pub order_by : List A → List A
  order_by [] = []
  order_by (r ∷ rows) = insert_by r (order_by rows)

  -- No row is before one that it follows.
  pub Sorted : List A → Type 0
  Sorted [] = Unit
  Sorted (r ∷ rows) = All (λ x. less (key x) (key r) ≡ false) rows × Sorted rows

  All-insert_by : (P : A → Type 0) (a : A) (l : List A) → P a → All P l → All P (insert_by a l)
  unfolding insert_by
  All-insert_by P a [] p ps = (p, tt)
  All-insert_by P a (r ∷ l) p ps = elim (Bool-cases (less (key a) (key r))) [
    | inl e ↦ rw e (p, ps)
    | inr e ↦ rw e (ps.0, All-insert_by P a l p ps.1)
  ]

  insert_by-front :
      (a : A) (l : List A) → All (λ x. less (key a) (key x) ≡ true) l → insert_by a l ≡ a ∷ l
  unfolding insert_by
  insert_by-front a [] before = refl
  insert_by-front a (r ∷ l) before = rw before.0 refl

  All-filter : (P : A → Type 0) (keep : A → Bool) (l : List A) → All P l → All P (filter keep l)
  unfolding filter
  All-filter P keep [] ps = tt
  All-filter P keep (r ∷ l) ps = elim (Bool-cases (keep r)) [
    | inl e ↦ rw e (ps.0, All-filter P keep l ps.1)
    | inr e ↦ rw e (All-filter P keep l ps.1)
  ]

  module _ (o : IsOrder less) where
    asymmetric : (x y : GoString) → less x y ≡ true → less y x ≡ false
    asymmetric x y h = elim (Bool-cases (less y x)) [
      | inl e ↦ let loop = o.transitive x y x h e in cc (loop, o.irreflexive x)
      | inr e ↦ e
    ]

    -- Before a row, and so before all that the row is not behind.
    before : (x r y : GoString) → less x r ≡ true → less y r ≡ false → less x y ≡ true
    before x r y h n = elim (Bool-cases (less x y)) [
      | inl e ↦ e
      | inr e ↦ elim (Bool-cases (less y x)) [
        | inl f ↦ let clash = o.transitive y x r f h in cc (clash, n)
        | inr f ↦ let same = o.total x y e f in cc (h, n, same)
      ]
    ]

    All-before :
        (x r : GoString) (l : List A)
        → less x r ≡ true
        → All (λ y. less (key y) r ≡ false) l
        → All (λ y. less x (key y) ≡ true) l
    All-before x r [] h ns = tt
    All-before x r (y ∷ l) h ns = (before x r (key y) h ns.0, All-before x r l h ns.1)

    All-behind :
        (x : GoString) (l : List A)
        → All (λ y. less x (key y) ≡ true) l
        → All (λ y. less (key y) x ≡ false) l
    All-behind x [] hs = tt
    All-behind x (y ∷ l) hs = (asymmetric x (key y) hs.0, All-behind x l hs.1)

    insert_by-Sorted : (a : A) (l : List A) → Sorted l → Sorted (insert_by a l)
    unfolding insert_by Sorted
    insert_by-Sorted a [] s = (tt, tt)
    insert_by-Sorted a (r ∷ l) s = elim (Bool-cases (less (key a) (key r))) [
      | inl e ↦ rw e (
        (asymmetric (key a) (key r) e, All-behind (key a) l (All-before (key a) (key r) l e s.0)),
        s,
      )
      | inr e ↦
          rw e
            (All-insert_by (λ x. less (key x) (key r) ≡ false) a l e s.0, insert_by-Sorted a l s.1)
    ]

    order_by-Sorted : (l : List A) → Sorted (order_by l)
    unfolding order_by Sorted
    order_by-Sorted [] = tt
    order_by-Sorted (r ∷ l) = insert_by-Sorted r (order_by l) (order_by-Sorted l)

    -- A row that is dropped, and one that is kept, of rows in order.
    filter-insert_by-dropped :
        (keep : A → Bool) (a : A) (l : List A)
        → keep a ≡ false
        → filter keep (insert_by a l) ≡ filter keep l
    unfolding filter insert_by
    filter-insert_by-dropped keep a [] d = rw d refl
    filter-insert_by-dropped keep a (r ∷ l) d = elim (Bool-cases (less (key a) (key r))) [
      | inl e ↦ simp (e, d)
      | inr e ↦ simp (e, filter-insert_by-dropped keep a l d)
    ]

    filter-insert_by-kept :
        (keep : A → Bool) (a : A) (l : List A)
        → keep a ≡ true
        → Sorted l
        → filter keep (insert_by a l) ≡ insert_by a (filter keep l)
    unfolding filter insert_by Sorted
    filter-insert_by-kept keep a [] k s = rw k refl
    filter-insert_by-kept keep a (r ∷ l) k s = elim (Bool-cases (less (key a) (key r))) [
      | inl e ↦
          let all : All (λ x. less (key a) (key x) ≡ true) (r ∷ l) =
            (e, All-before (key a) (key r) l e s.0) in
          simp (e, k)
            (sym (
              insert_by-front a (filter keep (r ∷ l))
                (All-filter (λ x. less (key a) (key x) ≡ true) keep (r ∷ l) all)))
      | inr e ↦ elim (Bool-cases (keep r)) [
        | inl kept ↦ simp (e, kept, filter-insert_by-kept keep a l k s.1)
        | inr dropped ↦ simp (e, dropped, filter-insert_by-kept keep a l k s.1)
      ]
    ]

    -- The kept rows of a table are in the order that they have among all of them.
    pub order_by-filter :
        (keep : A → Bool) (l : List A) → order_by (filter keep l) ≡ filter keep (order_by l)
    unfolding filter order_by
    order_by-filter keep [] = refl
    order_by-filter keep (r ∷ l) = elim (Bool-cases (keep r)) [
      | inl kept ↦
          simp (kept, order_by-filter keep l)
            (sym (filter-insert_by-kept keep r (order_by l) kept (order_by-Sorted l)))
      | inr dropped ↦
          simp (dropped, order_by-filter keep l)
            (sym (filter-insert_by-dropped keep r (order_by l) dropped))
    ]

    apart :
        (x y : GoString)
        → x ≢ y
        → ((less x y ≡ true) × (less y x ≡ false)) ⊎ ((less x y ≡ false) × (less y x ≡ true))
    apart x y d = elim (Bool-cases (less x y)) [
      | inl e ↦ inl (e, asymmetric x y e)
      | inr e ↦ elim (Bool-cases (less y x)) [
        | inl f ↦ inr (e, f)
        | inr f ↦ absurd (d (o.total x y e f))
      ]
    ]

    -- Rows with other keys go to the same places in either sequence.
    pub insert_by-swap :
        (a b : A) (l : List A)
        → key a ≢ key b
        → insert_by a (insert_by b l) ≡ insert_by b (insert_by a l)
    unfolding insert_by
    insert_by-swap a b [] d = elim (apart (key a) (key b) d) [
      | inl (ab, ba) ↦ simp (ab, ba)
      | inr (ab, ba) ↦ simp (ab, ba)
    ]
    insert_by-swap a b (r ∷ l) d = elim (Bool-cases (less (key a) (key r))) [
      | inl ar ↦ elim (Bool-cases (less (key b) (key r))) [
        | inl br ↦ elim (apart (key a) (key b) d) [
          | inl (ab, ba) ↦ simp (ar, br, ab, ba)
          | inr (ab, ba) ↦ simp (ar, br, ab, ba)
        ]
        | inr br ↦
            let ab = before (key a) (key r) (key b) ar br in
            simp (ar, br, asymmetric (key a) (key b) ab)
      ]
      | inr ar ↦ elim (Bool-cases (less (key b) (key r))) [
        | inl br ↦
            let ba = before (key b) (key r) (key a) br ar in
            simp (ar, br, asymmetric (key b) (key a) ba)
        | inr br ↦ simp (ar, br, insert_by-swap a b l d)
      ]
    ]
