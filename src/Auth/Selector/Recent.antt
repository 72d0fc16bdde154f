-- ===== src/Auth/Selector/Recent.antt =====
-- Histories of `listOverrides` of internal/auth/selector/selector.go.
use cliproxy_new.Base.{
  ℕ, ◌+◌, ◌<◌, ◌≡◌, refl, subst, ◌⊎◌, inl, inr, Bool, true, false, Option, none, some, List, [],
  ◌∷◌, ok, err, Among, arith,
}
use cliproxy_new.Auth.Selector.{
  Selector, new, Clock, Answer, ModelOverride, is_fresh, refresh, listed, list_overrides,
  override_cache_ttl,
}

-- A call of `listOverrides`: its clock, and the answer that the source would give then.
abbrev pub Call : Type 0
Call = Clock × Answer

unfoldable pub listing : Selector → List Call → Selector
listing s [] = s
listing s ((now, answer) ∷ calls) = listing (list_overrides s now answer).0 calls

-- What is cached was answered in a call of the past, which read the clock behind the answer
-- `override_cache_ttl` before it expires.
Backed : List Call → Selector → Type 0
Backed past s =
    (s.expires_at ≡ none)
    ⊎ ((t : Clock) × Among (t, ok s.cache) past
        × (s.expires_at ≡ some (t.answered + override_cache_ttl)))

pub later : List Call → List Call → List Call
later past [] = past
later past (c ∷ calls) = later (c ∷ past) calls

new-Backed : (has_overrides : Bool) → Backed [] (new has_overrides)
unfolding Backed new
new-Backed has_overrides = inl refl

refresh-Backed :
    (past : List Call) (s : Selector) (now : Clock) (answer : Answer)
    → Backed past s
    → Backed ((now, answer) ∷ past) (refresh s now answer).0
unfolding refresh Backed
refresh-Backed past s now (err e) (inl z) = inl z
refresh-Backed past s now (err e) (inr (t, m, x)) = inr (t, inr m, x)
refresh-Backed past s now (ok rows) b = inr (now, inl refl, refl)

listed-Backed :
    (past : List Call) (s : Selector) (now : Clock) (answer : Answer) (fresh : Bool)
    → Backed past s
    → Backed ((now, answer) ∷ past) (listed s now answer fresh).0
unfolding listed Backed
listed-Backed past s now answer true (inl z) = inl z
listed-Backed past s now answer true (inr (t, m, x)) = inr (t, inr m, x)
listed-Backed past s now answer false b = refresh-Backed past s now answer b

listing-Backed :
    (past calls : List Call) (s : Selector)
    → Backed past s
    → Backed (later past calls) (listing s calls)
unfolding listing later list_overrides
listing-Backed past [] s b = b
listing-Backed past ((now, answer) ∷ calls) s b =
    listing-Backed ((now, answer) ∷ past) calls (list_overrides s now answer).0
      (listed-Backed past s now answer (is_fresh s.expires_at now.tested) b)

-- Where rows come from: the source in this call, or in an earlier call whose second reading of the
-- clock is less than 5 seconds before the test of this one.
pub IsRecent : List Call → Clock → Answer → List ModelOverride → Type 0
IsRecent past now answer rows =
    (answer ≡ ok rows)
    ⊎ ((t : Clock) × Among (t, ok rows) past × (now.tested < t.answered + override_cache_ttl))

refresh-IsRecent :
    (past : List Call) (s : Selector) (now : Clock) (answer : Answer) (rows : List ModelOverride)
    → (refresh s now answer).1 ≡ ok rows
    → IsRecent past now answer rows
unfolding refresh IsRecent
refresh-IsRecent past s now (err e) rows h = cc
refresh-IsRecent past s now (ok fetched) rows h = inl h

fresh_before : (x : Option ℕ) (now t : ℕ) → is_fresh x now ≡ true → x ≡ some t → now < t
unfolding is_fresh
fresh_before none now t f e = cc
fresh_before (some x) now t f e = ground arith

listed-IsRecent :
    (past : List Call) (s : Selector) (now : Clock) (answer : Answer) (fresh : Bool)
    (rows : List ModelOverride)
    → is_fresh s.expires_at now.tested ≡ fresh
    → Backed past s
    → (listed s now answer fresh).1 ≡ ok rows
    → IsRecent past now answer rows
unfolding listed Backed is_fresh IsRecent
listed-IsRecent past s now answer true rows f (inl z) h = cc
listed-IsRecent past s now answer true rows f (inr (t, m, x)) h = inr (
  t,
  subst (λ answered. Among (t, answered) past) h m,
  fresh_before s.expires_at now.tested (t.answered + override_cache_ttl) f x,
)
listed-IsRecent past s now answer false rows f b h = refresh-IsRecent past s now answer rows h

-- After any calls of a new selector, at whatever times and whatever the source answered: rows that
-- `listOverrides` returns are those the source answers in this call, or those it answered in an
-- earlier call; the time that the earlier call read once the source had answered is then less than 5
-- seconds before the time that this call reads first. How long the source took is not bounded.
pub list_overrides-IsRecent :
    (has_overrides : Bool) (calls : List Call) (now : Clock) (answer : Answer)
    (rows : List ModelOverride)
    → (list_overrides (listing (new has_overrides) calls) now answer).1 ≡ ok rows
    → IsRecent (later [] calls) now answer rows
unfolding list_overrides
list_overrides-IsRecent has_overrides calls now answer rows h =
    let s = listing (new has_overrides) calls in
    listed-IsRecent (later [] calls) s now answer (is_fresh s.expires_at now.tested) rows refl
      (listing-Backed [] calls (new has_overrides) (new-Backed has_overrides)) h
