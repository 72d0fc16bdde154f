-- ===== src/Auth/Selector/Choice.antt =====
-- The credentials that `Pick` of internal/auth/selector/selector.go gives.
use cliproxy_new.Base.{
  ◌≡◌, refl, ap, subst, ◌∙◌, ◌⊎◌, inl, inr, Bool, true, false, Option, some, List, [], ◌∷◌, ◌==◌,
  ==_iff, nat_eq, list_eq, filter, if◌then◌else◌, Result, ok, err, >>=_inversion, Among, GoString,
  Bool-cases,
}
use cliproxy_new.Auth.Selector.{
  Selector, Clock, Answer, Auth, ModelOverride, PickError, disabled, list_overrides, match_override,
  resolve, provider_by, provider_for_model, is_of, filter_by_provider, Fallback, choose, pick_for,
  pick,
}

-- The provider that the rows allow for a model: without rows the one that was asked for, else the
-- one of an enabled override of the model.
pub Allows : List ModelOverride → GoString → GoString → GoString → Type 0
Allows rows provider model target =
    ((rows ≡ []) × (target ≡ provider))
    ⊎ ((o : ModelOverride) × Among o rows
        × (o.model_alias ≡ model)
        × (o.enabled ≡ true)
        × (o.provider ≡ target))

enabled_row :
    (enabled : Bool) (provider target : GoString)
    → (if enabled then ok provider else err disabled) ≡ ok target
    → (enabled ≡ true) × (provider ≡ target)
enabled_row true provider target h = (refl, cc)
enabled_row false provider target h = cc

allowed_row :
    (rows : List ModelOverride) (model target : GoString)
    → match_override rows model ≡ ok target
    → (o : ModelOverride) × Among o rows
      × (o.model_alias ≡ model)
      × (o.enabled ≡ true)
      × (o.provider ≡ target)
unfolding match_override
allowed_row [] model target h = cc
allowed_row (o ∷ os) model target h = elim (Bool-cases (o.model_alias == model)) [
  | inl same ↦
      let (enabled, provider) = enabled_row o.enabled o.provider target (cc (h, same)) in
      (o, inl refl, (==_iff o.model_alias model).0 same, enabled, provider)
  | inr other ↦
      let (p, m, named, enabled, of) = allowed_row os model target (cc (h, other)) in
      (p, inr m, named, enabled, of)
]

resolve-Allows :
    (rows : List ModelOverride) (provider model target : GoString)
    → resolve rows provider model ≡ ok target
    → Allows rows provider model target
unfolding resolve Allows
resolve-Allows [] provider model target h = inl (refl, cc)
resolve-Allows (o ∷ os) provider model target h = inr (allowed_row (o ∷ os) model target h)

Among-filter :
    (keep : Option Auth → Bool) (auths : List (Option Auth)) (a : Option Auth)
    → Among a (filter keep auths)
    → Among a auths × (keep a ≡ true)
unfolding filter
Among-filter keep [] a m = elim m [ ]
Among-filter keep (b ∷ auths) a m = elim (Bool-cases (keep b)) [
  | inl kept ↦
      elim (subst (λ t. Among a (if t then b ∷ filter keep auths else filter keep auths)) kept m) [
        | inl e ↦ (inl e, ap keep e ∙ kept)
        | inr more ↦ let (among, fits) = Among-filter keep auths a more in (inr among, fits)
      ]
  | inr dropped ↦
      let (among, fits) =
        Among-filter keep auths a (
          subst (λ t. Among a (if t then b ∷ filter keep auths else filter keep auths)) dropped
            m) in
      (inr among, fits)
]

filter_by_provider-Among :
    (auths : List (Option Auth)) (target : GoString) (a : Auth)
    → Among (some a) (filter_by_provider auths target)
    → Among (some a) auths × ((target ≡ []) ⊎ (a.provider ≡ target))
unfolding filter_by_provider is_of
filter_by_provider-Among auths [] a m = (m, inl refl)
filter_by_provider-Among auths (c ∷ target) a m =
    let (among, fits) = Among-filter (is_of (c ∷ target)) auths (some a) m in
    (among, inr ((==_iff a.provider (c ∷ target)).0 fits))

-- What the SDK's selector promises: a credential that it gives is one of the candidates.
unfoldable pub PicksCandidates : Fallback → Type 0
PicksCandidates fallback =
    (provider model : GoString) (candidates : List (Option Auth)) (a : Auth)
    → fallback provider model candidates ≡ ok (some a)
    → Among (some a) candidates

choose-Among :
    (fallback : Fallback) (provider model : GoString) (candidates : List (Option Auth)) (a : Auth)
    → PicksCandidates fallback
    → choose fallback provider model candidates ≡ ok (some a)
    → Among (some a) candidates
unfolding choose PicksCandidates
choose-Among fallback provider model [] a picks h = cc
choose-Among fallback provider model (c ∷ cs) a picks h = picks provider model (c ∷ cs) a h

pick_for-Among :
    (fallback : Fallback) (target : Result PickError GoString) (model : GoString)
    (auths : List (Option Auth)) (a : Auth)
    → PicksCandidates fallback
    → pick_for fallback target model auths ≡ ok (some a)
    → (provider : GoString) × (target ≡ ok provider)
      × Among (some a) auths
      × ((provider ≡ []) ⊎ (a.provider ≡ provider))
unfolding pick_for
pick_for-Among fallback (err e) model auths a picks h = cc
pick_for-Among fallback (ok provider) model auths a picks h =
    let (among, fits) =
      filter_by_provider-Among auths provider a
        (choose-Among fallback provider model (filter_by_provider auths provider) a picks h) in
    (provider, refl, among, fits)

-- The target of a selector with overrides is allowed by the rows that `listOverrides` returns.
provider_by-Allows :
    (has : Bool) (s : Selector) (now : Clock) (answer : Answer) (provider model target : GoString)
    → has ≡ true
    → (provider_by has s now answer provider model).1 ≡ ok target
    → (rows : List ModelOverride) × ((list_overrides s now answer).1 ≡ ok rows)
      × Allows rows provider model target
unfolding provider_by
provider_by-Allows false s now answer provider model target e h = cc
provider_by-Allows true s now answer provider model target e h =
    let (rows, listed, resolved) =
      >>=_inversion (list_overrides s now answer).1 (λ os. resolve os provider model) h in
    (rows, listed, resolve-Allows rows provider model target resolved)

-- For an SDK selector that picks candidates, and a selector with a source of overrides: a credential
-- that `Pick` gives is one of those offered; `listOverrides` succeeded; its rows are empty and the
-- credential is of the provider asked for, or they hold an enabled override of the model and it is
-- of that override's provider (an empty provider name stands for any).
pub pick-Allows :
    (fallback : Fallback) (s : Selector) (now : Clock) (answer : Answer) (provider model : GoString)
    (auths : List (Option Auth)) (a : Auth)
    → PicksCandidates fallback
    → s.has_overrides ≡ true
    → (pick fallback s now answer provider model auths).1 ≡ ok (some a)
    → Among (some a) auths
      × ((target : GoString) × ((target ≡ []) ⊎ (a.provider ≡ target))
          × ((rows : List ModelOverride) × ((list_overrides s now answer).1 ≡ ok rows)
              × Allows rows provider model target))
unfolding pick provider_for_model
pick-Allows fallback s now answer provider model auths a picks has h =
    let (target, resolved, among, fits) =
      pick_for-Among fallback (provider_for_model s now answer provider model).1 model auths a picks
        h in
    (
      among,
      (
        target,
        fits,
        provider_by-Allows s.has_overrides s now answer provider model target has resolved,
      ),
    )
