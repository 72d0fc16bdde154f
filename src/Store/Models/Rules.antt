-- ===== src/Store/Models/Rules.antt =====
-- The overrides that internal/store/model_overrides.go lists, as the selector of
-- internal/auth/selector/selector.go reads them: a finite map from aliases to rules.
use cliproxy_new.Base.{
  ◌≡◌, ◌≢◌, refl, ◌∙◌, inl, inr, Bool, Bool-cases, Option, none, some, List, [], ◌∷◌, map, All,
  find, list_eq, nat_eq, ==_iff, if◌then◌else◌, GoString, Result, ok, err, arith,
}
use cliproxy_new.Store.Models.{insert_ordered, ordered}
use cliproxy_new.Auth.Selector.{
  ModelOverride, PickError, not_allowed, disabled, match_override, resolve,
}

-- What an override says of its alias.
pub record Rule : Type 0 where
  pub provider : GoString
  pub enabled : Bool

abbrev pub Rules : Type 0
Rules = List (GoString × Rule)

verdict : Option Rule → Result PickError GoString
verdict none = err not_allowed
verdict (some r) = if r.enabled then ok r.provider else err disabled

-- The provider of a model by the rules; no rules at all allow every model.
pub allowed : Rules → GoString → GoString → Result PickError GoString
unfolding verdict
allowed [] provider model = ok provider
allowed (e ∷ rules) provider model = verdict (find (e ∷ rules) model)

abbrev pub entry : ModelOverride → GoString × Rule
entry r = (r.model_alias, record { provider = r.provider; enabled = r.enabled })

-- No row has the alias; and each alias has one row.
abbrev pub Fresh : GoString → List ModelOverride → Type 0
Fresh alias rows = All (λ r. r.model_alias ≢ alias) rows

abbrev pub Distinct : List ModelOverride → Type 0
Distinct [] = Unit
Distinct (r ∷ rows) = Fresh r.model_alias rows × Distinct rows

match_override-find :
    (rows : List ModelOverride) (model : GoString)
    → match_override rows model ≡ verdict (find (map entry rows) model)
unfolding match_override find verdict
match_override-find [] model = refl
match_override-find (r ∷ rows) model = ground (arith, match_override-find rows model)

match_override-insert_ordered :
    (less : GoString → GoString → Bool) (r : ModelOverride) (rows : List ModelOverride)
    (model : GoString)
    → Fresh r.model_alias rows
    → match_override (insert_ordered less r rows) model ≡ match_override (r ∷ rows) model
unfolding match_override insert_ordered
match_override-insert_ordered less r [] model fresh = refl
match_override-insert_ordered less r (s ∷ rows) model fresh = ground (
  arith,
  match_override-insert_ordered less r rows model,
  ==_iff r.model_alias model,
  ==_iff s.model_alias model,
)

Fresh-insert_ordered :
    (less : GoString → GoString → Bool) (r : ModelOverride) (rows : List ModelOverride)
    (alias : GoString)
    → r.model_alias ≢ alias
    → Fresh alias rows
    → Fresh alias (insert_ordered less r rows)
unfolding insert_ordered
Fresh-insert_ordered less r [] alias differs fresh = (differs, tt)
Fresh-insert_ordered less r (s ∷ rows) alias differs fresh =
    elim (Bool-cases (less s.model_alias r.model_alias)) [
      | inl e ↦ rw e (fresh.0, Fresh-insert_ordered less r rows alias differs fresh.1)
      | inr e ↦ rw e (differs, fresh)
    ]

Fresh-ordered :
    (less : GoString → GoString → Bool) (rows : List ModelOverride) (alias : GoString)
    → Fresh alias rows
    → Fresh alias (ordered less rows)
unfolding ordered
Fresh-ordered less [] alias fresh = tt
Fresh-ordered less (r ∷ rows) alias fresh =
    Fresh-insert_ordered less r (ordered less rows) alias fresh.0
      (Fresh-ordered less rows alias fresh.1)

match_override-ordered :
    (less : GoString → GoString → Bool) (rows : List ModelOverride) (model : GoString)
    → Distinct rows
    → match_override (ordered less rows) model ≡ match_override rows model
unfolding ordered match_override
match_override-ordered less [] model distinct = refl
match_override-ordered less (r ∷ rows) model distinct =
    match_override-insert_ordered less r (ordered less rows) model
      (Fresh-ordered less rows r.model_alias distinct.0)
    ∙ ground (arith, match_override-ordered less rows model distinct.1)

resolve-insert_ordered :
    (less : GoString → GoString → Bool) (r : ModelOverride) (rows : List ModelOverride)
    (provider model : GoString)
    → resolve (insert_ordered less r rows) provider model
      ≡ match_override (insert_ordered less r rows) model
unfolding insert_ordered resolve
resolve-insert_ordered less r [] provider model = refl
resolve-insert_ordered less r (s ∷ rows) provider model =
    elim (Bool-cases (less s.model_alias r.model_alias)) [ inl e ↦ rw e refl | inr e ↦ rw e refl ]

-- The rows as they are listed say what their entries say.
pub resolve-ordered :
    (less : GoString → GoString → Bool) (rows : List ModelOverride) (provider model : GoString)
    → Distinct rows
    → resolve (ordered less rows) provider model ≡ allowed (map entry rows) provider model
unfolding ordered resolve allowed
resolve-ordered less [] provider model distinct = refl
resolve-ordered less (r ∷ rows) provider model distinct =
    resolve-insert_ordered less r (ordered less rows) provider model
    ∙ match_override-ordered less (r ∷ rows) model distinct
    ∙ match_override-find (r ∷ rows) model
