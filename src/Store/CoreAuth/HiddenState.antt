-- ===== src/Store/CoreAuth/HiddenState.antt =====
-- internal/store/coreauth_store.go: the search of a token storage for state that its JSON leaves
-- out, by reflection. A `reflect.Value` is a tree whose pointers, maps and slices refer to cells of
-- a heap, so that it may be cyclic; the set of visited references is passed on from value to value.
pub mod Termination
use cliproxy_new.Base.{
  ℕ, zero, suc, Bool, true, false, ◌&&◌, ◌||◌, Option, none, some, List, [], ◌∷◌, nat_eq, ◌==◌,
  length, if◌then◌else◌,
}

-- What `valueSupportsJSON` asks of a value: whether it, or its address, can be an interface, and
-- then whether that is a `json.Marshaler` or an `encoding.TextMarshaler`.
pub record Methods : Type 0 where
  pub can_interface : Bool
  pub is_marshaler : Bool
  pub has_address : Bool
  pub address_is_marshaler : Bool

-- A pointer, a map or a slice that is not nil: the number of its type and address, and the cell of
-- what it refers to, the length of a slice counted in.
pub record Reference : Type 0 where
  pub visit : ℕ
  pub cell : ℕ

-- By kind; `leaf` is any other kind, and a nil pointer, map or slice. A field has whether it is not
-- exported or has the tag "-", and whether it is zero.
mutual
  pub data Value : Type 0 where
    invalid : Value
    nil_interface : Value
    interface : Value → Value
    leaf : Methods → Value
    refers : Methods → Reference → Value
    struct : Methods → Fields → Value
    array : Methods → Values → Value

  pub data Fields : Type 0 where
    no_fields : Fields
    field : Bool → Bool → Value → Fields → Fields

  pub data Values : Type 0 where
    end : Values
    next : Value → Values → Values

-- The cells of a heap; one that is not there is empty.
abbrev pub Heap : Type 0
Heap = List Values

unfoldable pub cell_at : Heap → ℕ → Values
cell_at [] i = end
cell_at (vs ∷ heap) zero = vs
cell_at (vs ∷ heap) (suc i) = cell_at heap i

unfoldable pub value_supports_json : Methods → Bool
value_supports_json m =
    (m.can_interface && m.is_marshaler) || (m.has_address && m.address_is_marshaler)

unfoldable pub is_visited : List ℕ → ℕ → Bool
is_visited [] v = false
is_visited (w ∷ visited) v = w == v || is_visited visited v

-- Whether there is hidden state, and the references visited; none if the fuel ran out.
abbrev pub Answer : Type 0
Answer = Option (Bool × List ℕ)

-- A return of true ends the search.
pub or_next : Answer → (List ℕ → Answer) → Answer
or_next none rest = none
or_next (some (true, visited)) rest = some (true, visited)
or_next (some (false, visited)) rest = rest visited

module _ (follow : ℕ → List ℕ → Answer) where
  -- `reflectionValueVisited`, and what the reference refers to.
  unfoldable pub visit_reference : Reference → List ℕ → Answer
  visit_reference r visited =
      if is_visited visited r.visit
      then some (false, visited)
      else follow r.cell (r.visit ∷ visited)

  unfoldable mutual
    unfolding visit_reference or_next

    pub has_hidden : Value → List ℕ → Answer
    has_hidden invalid visited = some (false, visited)
    has_hidden nil_interface visited = some (false, visited)
    has_hidden (interface v) visited = has_hidden v visited
    has_hidden (leaf m) visited = some (false, visited)
    has_hidden (refers m r) visited =
        if value_supports_json m then some (false, visited) else visit_reference r visited
    has_hidden (struct m fs) visited =
        let inside = fields_hidden fs visited in
        if value_supports_json m then some (false, visited) else inside
    has_hidden (array m vs) visited =
        let inside = values_hidden vs visited in
        if value_supports_json m then some (false, visited) else inside

    pub fields_hidden : Fields → List ℕ → Answer
    fields_hidden no_fields visited = some (false, visited)
    fields_hidden (field true is_zero v fs) visited =
        let rest = fields_hidden fs visited in if is_zero then rest else some (true, visited)
    fields_hidden (field false is_zero v fs) visited =
        or_next (has_hidden v visited) (fields_hidden fs)

    pub values_hidden : Values → List ℕ → Answer
    values_hidden end visited = some (false, visited)
    values_hidden (next v vs) visited = or_next (has_hidden v visited) (values_hidden vs)

-- What a reference refers to, followed on fuel.
unfoldable pub follow_on : Heap → ℕ → ℕ → List ℕ → Answer
follow_on heap zero cell visited = none
follow_on heap (suc fuel) cell visited =
    values_hidden (follow_on heap fuel) (cell_at heap cell) visited

-- On fuel for the references that are visited one inside another.
unfoldable pub json_value_has_hidden_state : Heap → ℕ → Value → List ℕ → Answer
json_value_has_hidden_state heap fuel v visited = has_hidden (follow_on heap fuel) v visited
