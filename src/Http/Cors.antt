-- ===== src/Http/Cors.antt =====
-- internal/httpapi/cors.go: cross-origin requests to the management API.
use cliproxy_new.Base.{
  ◌≡◌, ◌≢◌, refl, sym, ap, ◌⊎◌, inl, inr, Bool, true, false, ◌&&◌, ◌||◌, not, Option, none, some,
  List, [], ◌∷◌, list_eq, nat_eq, ◌==◌, ==_iff, is_empty, GoString, bytes, has_prefix, Among, arith,
  Bool-cases,
}

-- What the middleware reads of a request.
pub record Request : Type 0 where
  pub path : GoString
  pub method : GoString
  pub origin : GoString
  pub requested_method : GoString

-- The headers that it sets for an origin, and those of a preflight.
pub record Allowed : Type 0 where
  pub allow_origin : GoString
  pub allow_credentials : GoString
  pub expose_headers : GoString
  pub vary : GoString
  pub allow_methods : Option GoString
  pub allow_headers : Option GoString

-- The request goes on, with the headers set if any; it ends with 204, with headers; or with 403.
pub data Outcome : Type 0 where
  passes : Option Allowed → Outcome
  ends_no_content : Allowed → Outcome
  ends_forbidden : Outcome

pub management_api_path : GoString
management_api_path = bytes "/api/v1"

unfoldable pub is_management_path : GoString → Bool
unfolding management_api_path
is_management_path path = path == management_api_path || has_prefix path (bytes "/api/v1/")

-- A member of the set of allowed origins.
unfoldable pub is_allowed : List GoString → GoString → Bool
is_allowed [] origin = false
is_allowed (o ∷ os) origin = (o == origin) || is_allowed os origin

is_preflight : Request → Bool
is_preflight r = (r.method == bytes "OPTIONS") && not (is_empty r.requested_method)

refused : Bool → Outcome
refused true = ends_forbidden
refused false = passes none

-- The headers of any request from an allowed origin.
allowed : GoString → Allowed
allowed origin = record {
  allow_origin = origin;
  allow_credentials = bytes "true";
  expose_headers = bytes "X-Request-ID";
  vary = bytes "Origin";
  allow_methods = none;
  allow_headers = none;
}

granted : GoString → Bool → Outcome
unfolding allowed
granted origin true = ends_no_content (record (allowed origin) {
  allow_methods = some (bytes "GET, POST, PUT, PATCH, DELETE, OPTIONS");
  allow_headers = some (bytes "Content-Type, X-Request-ID");
})
granted origin false = passes (some (allowed origin))

-- A request of the management API with an origin.
from_origin : List GoString → Request → Bool → Outcome
unfolding refused granted is_preflight
from_origin allowed_origins r true = granted r.origin (is_preflight r)
from_origin allowed_origins r false = refused (is_preflight r)

with_origin : List GoString → Request → GoString → Outcome
unfolding from_origin is_allowed
with_origin allowed_origins r [] = passes none
with_origin allowed_origins r (c ∷ origin) =
    from_origin allowed_origins r (is_allowed allowed_origins r.origin)

in_management : List GoString → Request → Bool → Outcome
unfolding with_origin
in_management allowed_origins r false = passes none
in_management allowed_origins r true = with_origin allowed_origins r r.origin

unfoldable pub cors : List GoString → Request → Outcome
unfolding in_management is_management_path
cors allowed_origins r = in_management allowed_origins r (is_management_path r.path)

is_allowed-Among :
    (os : List GoString) (origin : GoString) → is_allowed os origin ≡ true → Among origin os
unfolding is_allowed
is_allowed-Among [] origin h = cc
is_allowed-Among (o ∷ os) origin h = elim (Bool-cases (o == origin)) [
  | inl same ↦ inl (sym ((==_iff o origin).0 same))
  | inr different ↦ inr (is_allowed-Among os origin (ground arith))
]

-- The headers of an outcome, if it has any.
unfoldable pub headers : Outcome → Option Allowed
headers (passes h) = h
headers (ends_no_content h) = some h
headers ends_forbidden = none

-- A grant to a management path, for an origin of the list, which is the request's, and that caches
-- keep apart by the origin.
pub IsGrant : List GoString → Request → Allowed → Type 0
IsGrant allowed_origins r h =
    ((r.path ≡ bytes "/api/v1") ⊎ (has_prefix r.path (bytes "/api/v1/") ≡ true))
    × (r.origin ≢ [])
    × Among r.origin allowed_origins
    × (h.allow_origin ≡ r.origin)
    × (h.vary ≡ bytes "Origin")

some_injective : {a b : Allowed} → ◌≡◌ {A = Option Allowed} (some a) (some b) → a ≡ b
some_injective h = cc

granted-origin :
    (origin : GoString) (preflight : Bool) (h : Allowed)
    → headers (granted origin preflight) ≡ some h
    → (h.allow_origin ≡ origin) × (h.vary ≡ bytes "Origin")
unfolding granted headers allowed
granted-origin origin true h e =
    let same = some_injective e in
    (ap (λ x. x.allow_origin) (sym same), ap (λ x. x.vary) (sym same))
granted-origin origin false h e =
    let same = some_injective e in
    (ap (λ x. x.allow_origin) (sym same), ap (λ x. x.vary) (sym same))

refused-headers : (preflight : Bool) (h : Allowed) → headers (refused preflight) ≢ some h
unfolding refused headers
refused-headers true h e = cc
refused-headers false h e = cc

from_origin-Among :
    (os : List GoString) (r : Request) (allowed : Bool) (h : Allowed)
    → is_allowed os r.origin ≡ allowed
    → headers (from_origin os r allowed) ≡ some h
    → Among r.origin os × (h.allow_origin ≡ r.origin) × (h.vary ≡ bytes "Origin")
unfolding from_origin
from_origin-Among os r true h a e =
    let (same, vary) = granted-origin r.origin (is_preflight r) h e in
    (is_allowed-Among os r.origin a, same, vary)
from_origin-Among os r false h a e = absurd (refused-headers (is_preflight r) h e)

with_origin-IsGrant :
    (os : List GoString) (r : Request) (origin : GoString) (h : Allowed)
    → r.origin ≡ origin
    → headers (with_origin os r origin) ≡ some h
    → (r.origin ≢ []) × Among r.origin os × (h.allow_origin ≡ r.origin) × (h.vary ≡ bytes "Origin")
unfolding with_origin headers
with_origin-IsGrant os r [] h o e = cc
with_origin-IsGrant os r (c ∷ origin) h o e =
    let (among, same, vary) = from_origin-Among os r (is_allowed os r.origin) h refl e in
    ((λ none_left. cc (o, none_left)), among, same, vary)

path_cases :
    (path : GoString)
    → is_management_path path ≡ true
    → (path ≡ bytes "/api/v1") ⊎ (has_prefix path (bytes "/api/v1/") ≡ true)
unfolding is_management_path management_api_path
path_cases path i = elim (Bool-cases (path == bytes "/api/v1")) [
  | inl same ↦ inl ((==_iff path (bytes "/api/v1")).0 same)
  | inr other ↦ inr (rw other at i)
]

in_management-IsGrant :
    (os : List GoString) (r : Request) (inside : Bool) (h : Allowed)
    → is_management_path r.path ≡ inside
    → headers (in_management os r inside) ≡ some h
    → IsGrant os r h
unfolding in_management headers IsGrant
in_management-IsGrant os r false h i e = cc
in_management-IsGrant os r true h i e =
    let (filled, among, same, vary) = with_origin-IsGrant os r r.origin h refl e in
    (path_cases r.path i, filled, among, same, vary)

-- The middleware sets CORS headers only if the request is to the management API and has an origin,
-- not empty, that is on the configured list; the origin that they allow is that one, and they have
-- `Vary: Origin`.
pub cors-IsGrant :
    (os : List GoString) (r : Request) (h : Allowed) → headers (cors os r) ≡ some h → IsGrant os r h
unfolding cors
cors-IsGrant os r h e = in_management-IsGrant os r (is_management_path r.path) h refl e
