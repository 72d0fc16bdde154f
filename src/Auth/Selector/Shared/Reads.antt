-- ===== src/Auth/Selector/Shared/Reads.antt =====
-- What a loop over the shared slice of internal/auth/selector/selector.go can see.
use cliproxy_new.Base.{
  ℕ, zero, suc, ◌≡◌, ◌≢◌, true, List, [], ◌∷◌, ◌++◌, list_eq, nat_eq, ==_iff, ok, err, arith,
}
use cliproxy_new.Auth.Selector.{ModelOverride, not_allowed, match_override}
use cliproxy_new.Auth.Selector.Shared.{
  Memory, copy_field, cells, put_cell, put_cells, stores_of, refresh_cache, store, cell, at_row,
  ended, seen, read, Event, refreshes, stores, reads, run,
}

-- An event a number of times.
abbrev pub times : ℕ → Event → List Event
times zero e = []
times (suc n) e = e ∷ times n e

-- A cache that fills its array.
abbrev pub cached : List ModelOverride → ℕ → Memory
cached rows n = record { arrays = rows ∷ []; cache = record { array = 0; size = n }; pending = [] }

-- The cache holds three overrides in an array of their number, and a loop over its slice is behind
-- the first one when another call refreshes the cache with the last two, the first being deleted:
-- both lists give the model of the second override its provider, if it is enabled and the other two
-- are of other models, and yet the loop ends by refusing the model as not allowed.
pub run_misses :
    (a b c : ModelOverride)
    → a.model_alias ≢ b.model_alias
    → c.model_alias ≢ b.model_alias
    → b.enabled ≡ true
    → (match_override (a ∷ b ∷ c ∷ []) b.model_alias ≡ ok b.provider)
      × (match_override (b ∷ c ∷ []) b.model_alias ≡ ok b.provider)
      × (run b.model_alias
            (cached (a ∷ b ∷ c ∷ []) 3)
            (at_row (record { array = 0; size = 3 }) 0)
            (times 6 reads ++ refreshes (b ∷ c ∷ []) [] ∷ times 12 stores ++ times 13 reads)
          ≡ ended (err not_allowed))
unfolding match_override run read seen refresh_cache store stores_of cells put_cells put_cell cell
    copy_field
run_misses a b c first last on = ground (
  arith,
  ==_iff a.model_alias b.model_alias,
  ==_iff b.model_alias b.model_alias,
  ==_iff c.model_alias b.model_alias,
)

-- The cache holds two overrides in an array of their number, and a loop over its slice has copied
-- the id and the provider of the first one when another call refreshes the cache with the second,
-- the first being deleted: both lists give the model of the second override its provider, if it is
-- enabled and the first is of another model, and yet the loop ends with the provider of the first.
pub run_mixes :
    (a b : ModelOverride)
    → a.model_alias ≢ b.model_alias
    → b.enabled ≡ true
    → (match_override (a ∷ b ∷ []) b.model_alias ≡ ok b.provider)
      × (match_override (b ∷ []) b.model_alias ≡ ok b.provider)
      × (run b.model_alias
            (cached (a ∷ b ∷ []) 2)
            (at_row (record { array = 0; size = 2 }) 0)
            (times 2 reads ++ refreshes (b ∷ []) [] ∷ times 6 stores ++ times 4 reads)
          ≡ ended (ok a.provider))
unfolding match_override run read seen refresh_cache store stores_of cells put_cells put_cell cell
    copy_field
run_mixes a b first on =
    ground (arith, ==_iff a.model_alias b.model_alias, ==_iff b.model_alias b.model_alias)
