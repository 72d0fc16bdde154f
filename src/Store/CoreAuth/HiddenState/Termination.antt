-- ===== src/Store/CoreAuth/HiddenState/Termination.antt =====
-- The search for hidden state of internal/store/coreauth_store.go ends, also on a cyclic heap.
use cliproxy_new.Base.{
  ℕ, zero, suc, ◌+◌, ◌≤◌, ◌<◌, ◌≡◌, refl, inl, inr, Bool, true, false, Bool-cases, none, some, List,
  [], ◌∷◌, nat_eq, length, All, Among, if◌then◌else◌, arith,
}
use cliproxy_new.Store.CoreAuth.HiddenState.{
  Reference, Value, invalid, nil_interface, interface, leaf, refers, struct, array, Fields,
  no_fields, field, Values, end, next, Heap, cell_at, value_supports_json, is_visited, Answer,
  or_next, visit_reference, has_hidden, fields_hidden, values_hidden, follow_on,
  json_value_has_hidden_state,
}

-- Every reference of a value has one of some numbers.
unfoldable mutual
  pub InValue : List ℕ → Value → Type 0
  InValue known invalid = Unit
  InValue known nil_interface = Unit
  InValue known (interface v) = InValue known v
  InValue known (leaf m) = Unit
  InValue known (refers m r) = Among r.visit known
  InValue known (struct m fs) = InFields known fs
  InValue known (array m vs) = InValues known vs

  pub InFields : List ℕ → Fields → Type 0
  InFields known no_fields = Unit
  InFields known (field ignored is_zero v fs) = InValue known v × InFields known fs

  pub InValues : List ℕ → Values → Type 0
  InValues known end = Unit
  InValues known (next v vs) = InValue known v × InValues known vs

-- How many of the known references are not yet visited.
unvisited : List ℕ → List ℕ → ℕ
unvisited [] visited = 0
unvisited (v ∷ known) visited = (if is_visited visited v then 0 else 1) + unvisited known visited

unvisited-le-length : (known visited : List ℕ) → unvisited known visited ≤ length known
unfolding unvisited
unvisited-le-length [] visited = omega arith
unvisited-le-length (v ∷ known) visited = ground (arith, unvisited-le-length known visited)

unvisited-cons-le :
    (known visited : List ℕ) (w : ℕ) → unvisited known (w ∷ visited) ≤ unvisited known visited
unfolding unvisited is_visited
unvisited-cons-le [] visited w = omega arith
unvisited-cons-le (v ∷ known) visited w = ground (arith, unvisited-cons-le known visited w)

unvisited-cons-lt :
    (known visited : List ℕ) (w : ℕ)
    → Among w known
    → is_visited visited w ≡ false
    → unvisited known (w ∷ visited) < unvisited known visited
unfolding unvisited is_visited
unvisited-cons-lt [] visited w a new = absurd a
unvisited-cons-lt (v ∷ known) visited w (inl same) new =
    ground (arith, same, unvisited-cons-le known visited w)
unvisited-cons-lt (v ∷ known) visited w (inr later) new =
    ground (arith, unvisited-cons-lt known visited w later new)

-- An answer is there, with at most so many references not yet visited.
abbrev Ends : List ℕ → ℕ → Answer → Type 0
Ends known bound none = ⊥
Ends known bound (some (found, visited)) = unvisited known visited ≤ bound

Ends-le : (known : List ℕ) (m n : ℕ) (o : Answer) → m ≤ n → Ends known m o → Ends known n o
Ends-le known m n none h e = e
Ends-le known m n (some (found, visited)) h e = omega arith

or_next-Ends :
    (known : List ℕ) (n : ℕ) (o : Answer) (rest : List ℕ → Answer)
    → Ends known n o
    → ((visited : List ℕ) → unvisited known visited ≤ n → Ends known n (rest visited))
    → Ends known n (or_next o rest)
unfolding or_next
or_next-Ends known n none rest e k = e
or_next-Ends known n (some (true, visited)) rest e k = e
or_next-Ends known n (some (false, visited)) rest e k = k visited e

if-Ends :
    (known : List ℕ) (n : ℕ) (test : Bool) (o p : Answer)
    → Ends known n o
    → Ends known n p
    → Ends known n (if test then o else p)
if-Ends known n true o p e f = e
if-Ends known n false o p e f = f

module _ (known : List ℕ) (n : ℕ) (follow : ℕ → List ℕ → Answer)
    (follows : (r : Reference) (visited : List ℕ)
      → Among r.visit known
      → is_visited visited r.visit ≡ false
      → unvisited known visited ≤ n
      → Ends known n (follow r.cell (r.visit ∷ visited))) where
  visit-Ends :
      (r : Reference) (visited : List ℕ)
      → Among r.visit known
      → unvisited known visited ≤ n
      → Ends known n (visit_reference follow r visited)
  unfolding visit_reference
  visit-Ends r visited a h = elim (Bool-cases (is_visited visited r.visit)) [
    | inl e ↦ rw e h
    | inr e ↦ rw e (follows r visited a e h)
  ]

  mutual
    unfolding has_hidden InValue

    hidden-Ends :
        (v : Value) (visited : List ℕ)
        → InValue known v
        → unvisited known visited ≤ n
        → Ends known n (has_hidden follow v visited)
    hidden-Ends invalid visited i h = h
    hidden-Ends nil_interface visited i h = h
    hidden-Ends (interface v) visited i h = hidden-Ends v visited i h
    hidden-Ends (leaf m) visited i h = h
    hidden-Ends (refers m r) visited i h =
        if-Ends known n (value_supports_json m) (some (false, visited)) _ h
          (visit-Ends r visited i h)
    hidden-Ends (struct m fs) visited i h =
        if-Ends known n (value_supports_json m) (some (false, visited)) _ h
          (fields-Ends fs visited i h)
    hidden-Ends (array m vs) visited i h =
        if-Ends known n (value_supports_json m) (some (false, visited)) _ h
          (values-Ends vs visited i h)

    fields-Ends :
        (fs : Fields) (visited : List ℕ)
        → InFields known fs
        → unvisited known visited ≤ n
        → Ends known n (fields_hidden follow fs visited)
    fields-Ends no_fields visited i h = h
    fields-Ends (field true is_zero v fs) visited i h =
        if-Ends known n is_zero _ (some (true, visited)) (fields-Ends fs visited i.1 h) h
    fields-Ends (field false is_zero v fs) visited i h =
        or_next-Ends known n (has_hidden follow v visited) (fields_hidden follow fs)
          (hidden-Ends v visited i.0 h) (λ seen g. fields-Ends fs seen i.1 g)

    values-Ends :
        (vs : Values) (visited : List ℕ)
        → InValues known vs
        → unvisited known visited ≤ n
        → Ends known n (values_hidden follow vs visited)
    values-Ends end visited i h = h
    values-Ends (next v vs) visited i h =
        or_next-Ends known n (has_hidden follow v visited) (values_hidden follow vs)
          (hidden-Ends v visited i.0 h) (λ seen g. values-Ends vs seen i.1 g)

cell_at-In :
    (known : List ℕ) (heap : Heap) (i : ℕ)
    → All (InValues known) heap
    → InValues known (cell_at heap i)
unfolding cell_at InValues
cell_at-In known [] i all = tt
cell_at-In known (vs ∷ heap) zero all = all.0
cell_at-In known (vs ∷ heap) (suc i) all = cell_at-In known heap i all.1

follow_on-Ends :
    (known : List ℕ) (heap : Heap) (n : ℕ)
    → All (InValues known) heap
    → (r : Reference) (visited : List ℕ) → Among r.visit known
    → is_visited visited r.visit ≡ false
    → unvisited known visited ≤ n
    → Ends known n (follow_on heap n r.cell (r.visit ∷ visited))
unfolding follow_on
follow_on-Ends known heap zero all r visited a new h =
    absurd (omega (arith, unvisited-cons-lt known visited r.visit a new))
follow_on-Ends known heap (suc n) all r visited a new h =
    Ends-le known n (suc n) (follow_on heap (suc n) r.cell (r.visit ∷ visited)) (omega arith) (
      values-Ends known n (follow_on heap n) (follow_on-Ends known heap n all) (cell_at heap r.cell)
        (r.visit ∷ visited) (cell_at-In known heap r.cell all)
        (omega (arith, unvisited-cons-lt known visited r.visit a new)))

answer_of :
    (known : List ℕ) (n : ℕ) (o : Answer)
    → Ends known n o
    → (found : Bool) × (visited : List ℕ) × (o ≡ some (found, visited))
answer_of known n none e = absurd e
answer_of known n (some (found, visited)) e = (found, visited, refl)

-- The search ends with an answer on every value and every heap, cyclic ones included: fuel for as
-- many references as the value and the heap have is enough, and so is more.
pub json_value_has_hidden_state-answers :
    (heap : Heap) (v : Value) (known : List ℕ) (fuel : ℕ)
    → InValue known v
    → All (InValues known) heap
    → length known ≤ fuel
    → (found : Bool) × (visited : List ℕ) × (json_value_has_hidden_state heap fuel v []
        ≡ some (found, visited))
unfolding json_value_has_hidden_state
json_value_has_hidden_state-answers heap v known fuel inside all enough =
    answer_of known fuel (has_hidden (follow_on heap fuel) v []) (
      hidden-Ends known fuel (follow_on heap fuel) (follow_on-Ends known heap fuel all) v [] inside
        (omega (arith, unvisited-le-length known [])))
