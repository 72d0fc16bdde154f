-- ===== src/Usage/KeyIds.antt =====
-- `apiKeyIDs` of internal/usage/buffered_plugin.go: the key IDs of a batch, collected and sorted.
pub mod Members
use mathlib.Core.Bool.{false≢true}
use cliproxy_new.Base.{
  ℕ, ◌≡◌, refl, sym, ◌∙◌, ◌≢◌, ◌↔◌, ◌⊎◌, inl, inr, Bool, true, false, Option, none, some, List, [],
  ◌∷◌, ℤ, pos, negsuc, is_positive, ltb, if◌then◌else◌, ◌==◌, ==_iff, int_eq, All, Among, arith,
  Bool-cases,
}
use cliproxy_new.Usage.{UsageEvent}

-- `a < b` on int64.
pub int_ltb : ℤ → ℤ → Bool
int_ltb (pos a) (pos b) = ltb a b
int_ltb (pos a) (negsuc b) = false
int_ltb (negsuc a) (pos b) = true
int_ltb (negsuc a) (negsuc b) = ltb b a

-- `unique[id] = struct{}{}`, on the set's members in some order.
add_once : ℤ → List ℤ → List ℤ
add_once id [] = id ∷ []
add_once id (x ∷ xs) = if id == x then x ∷ xs else x ∷ add_once id xs

positive_key : Option ℤ → Option ℤ
positive_key none = none
positive_key (some id) = if is_positive id then some id else none

add_key : Option ℤ → List ℤ → List ℤ
unfolding add_once
add_key none ids = ids
add_key (some id) ids = add_once id ids

unique_ids : List ℤ → List UsageEvent → List ℤ
unfolding positive_key add_key
unique_ids ids [] = ids
unique_ids ids (e ∷ es) = unique_ids (add_key (positive_key e.api_key_id) ids) es

-- `sort.Slice` by `<`: the ascending order of distinct IDs, which no other order of equal keys
-- disturbs.
insert_sorted : ℤ → List ℤ → List ℤ
unfolding int_ltb
insert_sorted id [] = id ∷ []
insert_sorted id (x ∷ xs) = if int_ltb id x then id ∷ x ∷ xs else x ∷ insert_sorted id xs

sort_ids : List ℤ → List ℤ
unfolding insert_sorted
sort_ids [] = []
sort_ids (x ∷ xs) = insert_sorted x (sort_ids xs)

unfoldable pub api_key_ids : List UsageEvent → List ℤ
unfolding unique_ids sort_ids
api_key_ids events = sort_ids (unique_ids [] events)

-- Strictly ascending.
abbrev pub Ascending : List ℤ → Type 0
Ascending [] = Unit
Ascending (x ∷ xs) = All (λ y. int_ltb x y ≡ true) xs × Ascending xs

-- The ID stands nowhere in the list.
abbrev Missing : ℤ → List ℤ → Type 0
Missing id xs = All (λ x. id ≢ x) xs

abbrev Distinct : List ℤ → Type 0
Distinct [] = Unit
Distinct (x ∷ xs) = Missing x xs × Distinct xs

int_ltb-total : (a b : ℤ) → a ≢ b → int_ltb a b ≡ false → int_ltb b a ≡ true
unfolding int_ltb
int_ltb-total (pos a) (pos b) n h = ground arith
int_ltb-total (negsuc a) (negsuc b) n h = ground arith
int_ltb-total (pos a) (negsuc b) n h = refl
int_ltb-total (negsuc a) (pos b) n h = ground arith

int_ltb_trans : (a b c : ℤ) → int_ltb a b ≡ true → int_ltb b c ≡ true → int_ltb a c ≡ true
unfolding int_ltb
int_ltb_trans (pos a) (pos b) (pos c) h k = ground arith
int_ltb_trans (negsuc a) (negsuc b) (negsuc c) h k = ground arith
int_ltb_trans (negsuc a) b (pos c) h k = refl
int_ltb_trans (pos a) (negsuc b) c h k = ground arith
int_ltb_trans (pos a) (pos b) (negsuc c) h k = ground arith
int_ltb_trans (negsuc a) (pos b) (negsuc c) h k = ground arith

All-above :
    (a b : ℤ) (xs : List ℤ)
    → int_ltb a b ≡ true
    → All (λ y. int_ltb b y ≡ true) xs
    → All (λ y. int_ltb a y ≡ true) xs
All-above a b [] h all = tt
All-above a b (x ∷ xs) h all = (int_ltb_trans a b x h all.0, All-above a b xs h all.1)

All-insert {κ} :
    (P : ℤ → Type κ) (id : ℤ) (xs : List ℤ) → P id → All P xs → All P (insert_sorted id xs)
unfolding insert_sorted
All-insert P id [] p all = (p, all)
All-insert P id (x ∷ xs) p all = elim (Bool-cases (int_ltb id x)) [
  | inl less ↦ rw less (p, all)
  | inr more ↦ rw more (all.0, All-insert P id xs p all.1)
]

insert-Ascending :
    (id : ℤ) (xs : List ℤ) → Missing id xs → Ascending xs → Ascending (insert_sorted id xs)
unfolding insert_sorted
insert-Ascending id [] m a = (tt, tt)
insert-Ascending id (x ∷ xs) m a = elim (Bool-cases (int_ltb id x)) [
  | inl less ↦ rw less ((less, All-above id x xs less a.0), a)
  | inr more ↦
      rw more (All-insert _ id xs (int_ltb-total id x m.0 more) a.0, insert-Ascending id xs m.1 a.1)
]

All-sort {κ} : (P : ℤ → Type κ) (xs : List ℤ) → All P xs → All P (sort_ids xs)
unfolding sort_ids
All-sort P [] all = all
All-sort P (x ∷ xs) all = All-insert P x (sort_ids xs) all.0 (All-sort P xs all.1)

sort-Ascending : (xs : List ℤ) → Distinct xs → Ascending (sort_ids xs)
unfolding sort_ids
sort-Ascending [] d = tt
sort-Ascending (x ∷ xs) d =
    insert-Ascending x (sort_ids xs) (All-sort _ xs d.0) (sort-Ascending xs d.1)

All-add_once {κ} :
    (P : ℤ → Type κ) (id : ℤ) (xs : List ℤ) → P id → All P xs → All P (add_once id xs)
unfolding add_once
All-add_once P id [] p all = (p, all)
All-add_once P id (x ∷ xs) p all = elim (Bool-cases (id == x)) [
  | inl same ↦ rw same all
  | inr other ↦ rw other (all.0, All-add_once P id xs p all.1)
]

add_once-Distinct : (id : ℤ) (xs : List ℤ) → Distinct xs → Distinct (add_once id xs)
unfolding add_once
add_once-Distinct id [] d = (tt, tt)
add_once-Distinct id (x ∷ xs) d = elim (Bool-cases (id == x)) [
  | inl same ↦ rw same d
  | inr other ↦ rw other (
    All-add_once _ id xs (λ e. false≢true (sym other ∙ (==_iff id x).1 (sym e))) d.0,
    add_once-Distinct id xs d.1,
  )
]

unique-Distinct :
    (ids : List ℤ) (es : List UsageEvent) → Distinct ids → Distinct (unique_ids ids es)
unfolding unique_ids
unique-Distinct ids [] d = d
unique-Distinct ids (e ∷ es) d =
    unique-Distinct (add_key (positive_key e.api_key_id) ids) es
      (add-Distinct (positive_key e.api_key_id) ids d)
  where
    add-Distinct : (o : Option ℤ) (xs : List ℤ) → Distinct xs → Distinct (add_key o xs)
    add-Distinct none xs d = d
    add-Distinct (some id) xs d = add_once-Distinct id xs d

-- The IDs are strictly ascending, so none is there twice.
pub api_key_ids-Ascending : (events : List UsageEvent) → Ascending (api_key_ids events)
unfolding api_key_ids
api_key_ids-Ascending events = sort-Ascending _ (unique-Distinct [] events tt)
