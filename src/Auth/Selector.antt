-- ===== src/Auth/Selector.antt =====
-- internal/auth/selector/selector.go: the allow-list of models before the SDK's own choice. The
-- mutex makes `listOverrides` one step, and its rows are a value here; `Shared` is the array that they
-- share with the cache. Times are nanoseconds.
pub mod Choice
pub mod Recent
pub mod Shared
use cliproxy_new.Base.{
  ℕ, ◌+◌, ◌*◌, ◌≡◌, Bool, true, false, not, Option, none, some, List, [], ◌∷◌, ltb, if◌then◌else◌,
  ◌==◌, nat_eq, list_eq, GoString, ℤ, Result, ok, err, ◌>>=◌, filter,
}

abbrev pub override_cache_ttl : ℕ
override_cache_ttl = 5_000_000_000

pub record ModelOverride : Type 0 where
  pub id : ℤ
  pub provider : GoString
  pub model_alias : GoString
  pub upstream_model : GoString
  pub enabled : Bool
  pub config : GoString

-- The SDK's credential, as far as the program reads it.
pub record Auth : Type 0 where
  pub id : GoString
  pub provider : GoString

pub data PickError : Type 0 where
  list_failed disabled not_allowed no_candidates fallback_failed : PickError

-- `has_overrides`: the source of overrides is not nil. `expires_at` is none while it is zero.
pub record Selector : Type 0 where
  pub has_overrides : Bool
  pub cache : List ModelOverride
  pub expires_at : Option ℕ

unfoldable pub new : Bool → Selector
new has_overrides = record { has_overrides = has_overrides; cache = []; expires_at = none }

-- The readings of `time.Now()` in a call of `listOverrides`: at the test of `expiresAt`, and behind
-- the answer of `overrides.List`, if it is asked.
pub record Clock : Type 0 where
  pub tested : ℕ
  pub answered : ℕ

-- The answer of `overrides.List`, should it be asked.
abbrev pub Answer : Type 0
Answer = Result PickError (List ModelOverride)

is_fresh : Option ℕ → ℕ → Bool
is_fresh none now = false
is_fresh (some expires_at) now = ltb now expires_at

refresh : Selector → Clock → Answer → Selector × Answer
refresh s now (err e) = (s, err list_failed)
refresh s now (ok rows) =
    (record s { cache = rows; expires_at = some (now.answered + override_cache_ttl) }, ok rows)

listed : Selector → Clock → Answer → Bool → Selector × Answer
unfolding refresh
listed s now answer true = (s, ok s.cache)
listed s now answer false = refresh s now answer

-- `listOverrides`
unfoldable pub list_overrides : Selector → Clock → Answer → Selector × Answer
unfolding listed is_fresh
list_overrides s now answer = listed s now answer (is_fresh s.expires_at now.tested)

-- The first override of the model.
unfoldable pub match_override : List ModelOverride → GoString → Result PickError GoString
match_override [] model = err not_allowed
match_override (o ∷ os) model =
    if o.model_alias == model
    then (if o.enabled then ok o.provider else err disabled)
    else match_override os model

-- An empty list allows every model.
unfoldable pub resolve : List ModelOverride → GoString → GoString → Result PickError GoString
unfolding match_override
resolve [] provider model = ok provider
resolve (o ∷ os) provider model = match_override (o ∷ os) model

provider_by :
    Bool → Selector → Clock → Answer → GoString → GoString → Selector × Result PickError GoString
unfolding resolve
provider_by false s now answer provider model = (s, ok provider)
provider_by true s now answer provider model =
    let (after, overrides) = list_overrides s now answer in
    (after, overrides >>= (λ os. resolve os provider model))

unfoldable pub provider_for_model :
    Selector → Clock → Answer → GoString → GoString → Selector × Result PickError GoString
unfolding provider_by
provider_for_model s now answer provider model =
    provider_by s.has_overrides s now answer provider model

-- A pointer to a credential of the provider.
is_of : GoString → Option Auth → Bool
is_of provider none = false
is_of provider (some auth) = auth.provider == provider

-- An empty provider keeps every pointer.
unfoldable pub filter_by_provider : List (Option Auth) → GoString → List (Option Auth)
unfolding is_of
filter_by_provider auths [] = auths
filter_by_provider auths (c ∷ provider) = filter (is_of (c ∷ provider)) auths

-- `coreauth.FillFirstSelector.Pick`: of a provider, a model and the candidates.
abbrev pub Fallback : Type 0
Fallback = GoString → GoString → List (Option Auth) → Result PickError (Option Auth)

choose : Fallback → GoString → GoString → List (Option Auth) → Result PickError (Option Auth)
choose fallback provider model [] = err no_candidates
choose fallback provider model (c ∷ cs) = fallback provider model (c ∷ cs)

pick_for :
    Fallback
    → Result PickError GoString
    → GoString
    → List (Option Auth)
    → Result PickError (Option Auth)
unfolding choose filter_by_provider
pick_for fallback (err e) model auths = err e
pick_for fallback (ok target) model auths =
    choose fallback target model (filter_by_provider auths target)

unfoldable pub pick :
    Fallback
    → Selector
    → Clock
    → Answer
    → GoString
    → GoString
    → List (Option Auth)
    → Selector × Result PickError (Option Auth)
unfolding pick_for
pick fallback s now answer provider model auths =
    let (after, target) = provider_for_model s now answer provider model in
    (after, pick_for fallback target model auths)
