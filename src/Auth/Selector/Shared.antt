-- ===== src/Auth/Selector/Shared.antt =====
-- The slice that `listOverrides` of internal/auth/selector/selector.go returns: it shares its array
-- with the cache, and `providerForModel` reads it when the mutex is free again. A call that refreshes
-- the cache meanwhile writes into that array by `append(s.cache[:0], …)`, if it has the capacity. A
-- row is copied field by field, out of the array and into it, and anything may come between. What
-- Go leaves open beyond that, other orders of the fields and a text of which the halves differ, is
-- left out.
pub mod Reads
use cliproxy_new.Base.{
  ℕ, zero, suc, ◌+◌, Bool, true, false, Option, none, some, List, [], ◌∷◌, ◌++◌, length, leb, ltb,
  ℤ, pos, list_eq, nat_eq, ◌==◌, if◌then◌else◌, GoString, Result, ok, err,
}
use cliproxy_new.Auth.Selector.{ModelOverride, PickError, disabled, not_allowed}

-- A slice of the array of a number.
pub record Slice : Type 0 where
  pub array : ℕ
  pub size : ℕ

pub data Field : Type 0 where
  id provider model_alias upstream_model enabled config : Field

abbrev fields : List Field
fields = id ∷ provider ∷ model_alias ∷ upstream_model ∷ enabled ∷ config ∷ []

unfoldable pub copy_field : Field → ModelOverride → ModelOverride → ModelOverride
copy_field id from into = record into { id = from.id }
copy_field provider from into = record into { provider = from.provider }
copy_field model_alias from into = record into { model_alias = from.model_alias }
copy_field upstream_model from into = record into { upstream_model = from.upstream_model }
copy_field enabled from into = record into { enabled = from.enabled }
copy_field config from into = record into { config = from.config }

-- A field of a row that `append` has still to write into an array.
pub record Store : Type 0 where
  pub index : ℕ
  pub field : Field
  pub row : ModelOverride

-- The arrays that were allocated, each with all cells of its capacity, `s.cache`, and what is still
-- to be written into its array; the mutex is taken while there is any.
pub record Memory : Type 0 where
  pub arrays : List (List ModelOverride)
  pub cache : Slice
  pub pending : List Store

unfoldable pub cells : List (List ModelOverride) → ℕ → List ModelOverride
cells [] n = []
cells (array ∷ arrays) zero = array
cells (array ∷ arrays) (suc n) = cells arrays n

unfoldable pub put_cell : Store → ℕ → List ModelOverride → List ModelOverride
put_cell w i [] = []
put_cell w zero (r ∷ rows) = copy_field w.field w.row r ∷ rows
put_cell w (suc i) (r ∷ rows) = r ∷ put_cell w i rows

unfoldable pub put_cells : Store → List (List ModelOverride) → ℕ → List (List ModelOverride)
unfolding put_cell
put_cells w [] n = []
put_cells w (array ∷ arrays) zero = put_cell w w.index array ∷ arrays
put_cells w (array ∷ arrays) (suc n) = array ∷ put_cells w arrays n

stores_of_row : ℕ → ModelOverride → List Field → List Store
stores_of_row i row [] = []
stores_of_row i row (f ∷ fs) = record { index = i; field = f; row = row } ∷ stores_of_row i row fs

unfoldable pub stores_of : ℕ → List ModelOverride → List Store
unfolding stores_of_row
stores_of i [] = []
stores_of i (row ∷ rows) = stores_of_row i row fields ++ stores_of (i + 1) rows

-- `s.cache = append(s.cache[:0], rows...)`, for whoever takes the mutex; `spare` are the cells that
-- a new array has behind the rows, and nobody reads a new array before it is filled.
append_rows : List ModelOverride → List ModelOverride → Memory → Memory
append_rows rows spare m =
    if leb (length rows) (length (cells m.arrays m.cache.array))
    then record m {
      cache = record { array = m.cache.array; size = length rows };
      pending = stores_of 0 rows;
    }
    else record m {
      arrays = m.arrays ++ (rows ++ spare) ∷ [];
      cache = record { array = length m.arrays; size = length rows };
    }

refresh_if_free : List Store → List ModelOverride → List ModelOverride → Memory → Memory
unfolding append_rows
refresh_if_free [] rows spare m = append_rows rows spare m
refresh_if_free (w ∷ ws) rows spare m = m

unfoldable pub refresh_cache : List ModelOverride → List ModelOverride → Memory → Memory
unfolding refresh_if_free
refresh_cache rows spare m = refresh_if_free m.pending rows spare m

-- The next write of a refresh, if there is one.
store_first : List Store → Memory → Memory
store_first [] m = m
store_first (w ∷ ws) m = record m { arrays = put_cells w m.arrays m.cache.array; pending = ws }

unfoldable pub store : Memory → Memory
unfolding store_first
store m = store_first m.pending m

unfoldable pub cell : List ModelOverride → ℕ → Option ModelOverride
cell [] i = none
cell (r ∷ rows) zero = some r
cell (r ∷ rows) (suc i) = cell rows i

-- The loop of `providerForModel` over its slice: at an index, with its variable and the fields that
-- are still to be copied into it; or behind its end.
pub data Reader : Type 0 where
  at : Slice → ℕ → ModelOverride → List Field → Reader
  ended : Result PickError GoString → Reader

abbrev zero_row : ModelOverride
zero_row = record {
  id = pos 0;
  provider = [];
  model_alias = [];
  upstream_model = [];
  enabled = false;
  config = [];
}

-- The loop at an index, before it copies anything.
abbrev pub at_row : Slice → ℕ → Reader
at_row s i = at s i zero_row fields

seen : GoString → Slice → ℕ → ModelOverride → Reader
seen model s i o =
    if o.model_alias == model
    then (if o.enabled then ended (ok o.provider) else ended (err disabled))
    else at_row s (i + 1)

-- A row that is copied is tested.
copied : GoString → Slice → ℕ → ModelOverride → List Field → Reader
unfolding seen
copied model s i o [] = seen model s i o
copied model s i o (f ∷ fs) = at s i o (f ∷ fs)

read_field : GoString → Slice → ℕ → ModelOverride → List Field → Option ModelOverride → Reader
unfolding copied
read_field model s i o fs none = ended (err not_allowed)
read_field model s i o [] (some from) = copied model s i o []
read_field model s i o (f ∷ fs) (some from) = copied model s i (copy_field f from o) fs

-- The loop copies its next field, or ends.
unfoldable pub read : GoString → Memory → Reader → Reader
unfolding read_field
read model m (ended result) = ended result
read model m (at s i o fs) =
    if ltb i s.size
    then read_field model s i o fs (cell (cells m.arrays s.array) i)
    else ended (err not_allowed)

-- What happens next: another call takes the mutex to refresh the cache, it writes a field, or the
-- loop reads one.
pub data Event : Type 0 where
  refreshes : List ModelOverride → List ModelOverride → Event
  stores reads : Event

unfoldable pub run : GoString → Memory → Reader → List Event → Reader
run model m r [] = r
run model m r (refreshes rows spare ∷ events) = run model (refresh_cache rows spare m) r events
run model m r (stores ∷ events) = run model (store m) r events
run model m r (reads ∷ events) = run model m (read model m r) events
