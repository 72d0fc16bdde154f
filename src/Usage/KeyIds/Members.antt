-- ===== src/Usage/KeyIds/Members.antt =====
-- Which IDs `apiKeyIDs` returns.
use cliproxy_new.Base.{
  ◌≡◌, refl, sym, ap, ◌∙◌, ◌↔◌, ◌⊎◌, inl, inr, true, Option, none, some, List, [], ◌∷◌, ℤ,
  is_positive, ◌==◌, ==_iff, int_eq, Among, arith, Bool-cases,
}
use cliproxy_new.Usage.{UsageEvent}
use cliproxy_new.Usage.KeyIds.{
  int_ltb, add_once, positive_key, add_key, unique_ids, insert_sorted, sort_ids, api_key_ids,
}

-- A member is kept behind another one.
or_under : {P Q R S : Type 0} → P ↔ (Q ⊎ R) → (S ⊎ P) ↔ (Q ⊎ (S ⊎ R))
or_under {P} {Q} {R} {S} e = (split, join)
  where
    split : S ⊎ P → Q ⊎ (S ⊎ R)
    split (inl s) = inr (inl s)
    split (inr p) = elim (e.0 p) [ inl q ↦ inl q | inr r ↦ inr (inr r) ]

    join : Q ⊎ (S ⊎ R) → S ⊎ P
    join (inl q) = inr (e.1 (inl q))
    join (inr (inl s)) = inl s
    join (inr (inr r)) = inr (e.1 (inr r))

insert-Among : (id x : ℤ) (xs : List ℤ) → Among id (insert_sorted x xs) ↔ ((id ≡ x) ⊎ Among id xs)
unfolding insert_sorted
insert-Among id x [] = ((λ m. m), (λ m. m))
insert-Among id x (y ∷ ys) = elim (Bool-cases (int_ltb x y)) [
  | inl less ↦ rw less ((λ m. m), (λ m. m))
  | inr more ↦ rw more (or_under (insert-Among id x ys))
]

sort-Among : (id : ℤ) (xs : List ℤ) → Among id (sort_ids xs) ↔ Among id xs
unfolding sort_ids
sort-Among id [] = ((λ m. m), (λ m. m))
sort-Among id (x ∷ xs) =
    let here = insert-Among id x (sort_ids xs) in
    let rest = sort-Among id xs in
    (
      λ m. elim (here.0 m) [ inl e ↦ inl e | inr n ↦ inr (rest.0 n) ],
      λ m. here.1 (elim m [ inl e ↦ inl e | inr n ↦ inr (rest.1 n) ]),
    )

add_once-Among : (id x : ℤ) (xs : List ℤ) → Among id (add_once x xs) ↔ ((id ≡ x) ⊎ Among id xs)
unfolding add_once
add_once-Among id x [] = ((λ m. m), (λ m. m))
add_once-Among id x (y ∷ ys) = elim (Bool-cases (x == y)) [
  | inl same ↦
      rw same ((λ m. inr m), (λ m. elim m [ inl e ↦ inl (e ∙ (==_iff x y).0 same) | inr n ↦ n ]))
  | inr other ↦ rw other (or_under (add_once-Among id x ys))
]

-- An event of the batch carries the ID, and it is positive.
abbrev pub Touched : ℤ → List UsageEvent → Type 0
Touched id es = (e : UsageEvent) × Among e es × (e.api_key_id ≡ some id) × (is_positive id ≡ true)

positive_key-eq :
    (id : ℤ) (o : Option ℤ) → positive_key o ≡ some id → (o ≡ some id) × (is_positive id ≡ true)
unfolding positive_key
positive_key-eq id none h = absurd (ground arith)
positive_key-eq id (some x) h = ground arith

positive_key-of :
    (id : ℤ) (o : Option ℤ) → o ≡ some id → is_positive id ≡ true → positive_key o ≡ some id
unfolding positive_key
positive_key-of id none h p = ground arith
positive_key-of id (some x) h p = ground arith

add_key-Among :
    (id : ℤ) (o : Option ℤ) (xs : List ℤ) → Among id (add_key o xs) ↔ ((o ≡ some id) ⊎ Among id xs)
unfolding add_key
add_key-Among id none xs =
    ((λ m. inr m), (λ m. elim m [ inl e ↦ absurd (ground arith) | inr n ↦ n ]))
add_key-Among id (some x) xs =
    let here = add_once-Among id x xs in
    (
      λ m. elim (here.0 m) [ inl e ↦ inl (ap some (sym e)) | inr n ↦ inr n ],
      λ m. here.1 (elim m [ inl e ↦ inl (ground arith) | inr n ↦ inr n ]),
    )

unique→Touched :
    (id : ℤ) (es : List UsageEvent) (ids : List ℤ)
    → Among id (unique_ids ids es)
    → Among id ids ⊎ Touched id es
unfolding unique_ids
unique→Touched id [] ids m = inl m
unique→Touched id (e ∷ es) ids m =
    elim (unique→Touched id es (add_key (positive_key e.api_key_id) ids) m) [
      | inr (f, n, same, positive) ↦ inr (f, inr n, same, positive)
      | inl n ↦ elim ((add_key-Among id (positive_key e.api_key_id) ids).0 n) [
        | inr old ↦ inl old
        | inl here ↦
            let (same, positive) = positive_key-eq id e.api_key_id here in
            inr (e, inl refl, same, positive)
      ]
    ]

unique-keeps :
    (id : ℤ) (es : List UsageEvent) (ids : List ℤ)
    → Among id ids ⊎ Touched id es
    → Among id (unique_ids ids es)
unfolding unique_ids
unique-keeps id [] ids (inl m) = m
unique-keeps id [] ids (inr (f, n, same, positive)) = absurd n
unique-keeps id (e ∷ es) ids (inl m) =
    unique-keeps id es (add_key (positive_key e.api_key_id) ids)
      (inl ((add_key-Among id (positive_key e.api_key_id) ids).1 (inr m)))
unique-keeps id (e ∷ es) ids (inr (f, inl here, same, positive)) =
    unique-keeps id es (add_key (positive_key e.api_key_id) ids) (
      inl (
        (add_key-Among id (positive_key e.api_key_id) ids).1
          (inl (positive_key-of id e.api_key_id (ground arith) positive))))
unique-keeps id (e ∷ es) ids (inr (f, inr n, same, positive)) =
    unique-keeps id es (add_key (positive_key e.api_key_id) ids) (inr (f, n, same, positive))

-- The IDs that a batch touches are exactly the positive key IDs of its events.
pub api_key_ids-Touched :
    (id : ℤ) (events : List UsageEvent) → Among id (api_key_ids events) ↔ Touched id events
unfolding api_key_ids
api_key_ids-Touched id events =
    let sorted = sort-Among id (unique_ids [] events) in
    (
      λ m. elim (unique→Touched id events [] (sorted.0 m)) [ inl n ↦ absurd n | inr t ↦ t ],
      λ t. sorted.1 (unique-keeps id events [] (inr t)),
    )
