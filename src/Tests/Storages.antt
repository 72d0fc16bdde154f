-- ===== src/Tests/Storages.antt =====
-- Runs of the search for hidden state in internal/store/coreauth_store.go.
use cliproxy_new.Base.{ℕ, ◌≡◌, refl, inl, true, false, Bool, some, List, [], ◌∷◌, nat_eq, arith}
use cliproxy_new.Store.CoreAuth.HiddenState.{
  Methods, Value, leaf, refers, struct, no_fields, field, end, next, Heap, has_hidden,
  visit_reference, follow_on, cell_at, value_supports_json, is_visited, json_value_has_hidden_state,
}
use cliproxy_new.Store.CoreAuth.HiddenState.Termination.{
  InValue, json_value_has_hidden_state-answers,
}

-- A value whose type has no method for JSON.
abbrev no_methods : Methods
no_methods = record {
  can_interface = true;
  is_marshaler = false;
  has_address = false;
  address_is_marshaler = false;
}

abbrev pointer : ℕ → Value
pointer i = refers no_methods (record { visit = i; cell = i })

-- A node that points to itself.
abbrev cycle : Heap
cycle = next (struct no_methods (field false false (pointer 0) no_fields)) end ∷ []

json_value_has_hidden_state-answers_example :
    (found : Bool) × (visited : List ℕ) × (json_value_has_hidden_state cycle 1 (pointer 0) []
      ≡ some (found, visited))
unfolding InValue
json_value_has_hidden_state-answers_example =
    json_value_has_hidden_state-answers cycle (pointer 0) (0 ∷ []) 1 (inl refl)
      (((inl refl, tt), tt), tt) (omega arith)

-- A value whose only field is not exported and not zero.
abbrev secret : Value
secret = struct no_methods (field true false (leaf no_methods) no_fields)

pointed_secret :
    json_value_has_hidden_state (next secret end ∷ []) 1 (pointer 0) [] ≡ some (true, 0 ∷ [])
unfolding json_value_has_hidden_state has_hidden visit_reference is_visited follow_on cell_at
    value_supports_json
pointed_secret = refl

-- Two slices of one type that begin at one address, the longer of which goes on to a secret, are one
-- visit: the secret is not found behind the shorter one.
abbrev prefix_first : Value
prefix_first = struct no_methods (
    field false false (refers no_methods (record { visit = 0; cell = 0 }))
      (field false false (refers no_methods (record { visit = 0; cell = 1 })) no_fields))

longer_slice_missed :
    json_value_has_hidden_state
      ((next (leaf no_methods) end) ∷ (next (leaf no_methods) (next secret end)) ∷ [])
      2
      prefix_first
      []
    ≡ some (false, 0 ∷ [])
unfolding json_value_has_hidden_state has_hidden visit_reference is_visited follow_on cell_at
    value_supports_json
longer_slice_missed = refl
