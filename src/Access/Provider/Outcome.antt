-- ===== src/Access/Provider/Outcome.antt =====
-- Why the provider accepts, rejects or fails.
use cliproxy_new.Base.{
  ◌≡◌, ◌≢◌, refl, ap, sym, ◌∙◌, subst, list_eq, nat_eq, Bool, true, false, Option, some, List, [],
  ◌∷◌, ◌++◌, GoString, ◌==◌, ==_iff, Result, ok, err, Bool-cases, inl, inr,
}
use mathlib.Core.Bool.{false≢true}
use cliproxy_new.Store.{
  StoreError, not_found, invalid_credential, invalid_input, corrupt_credential, other,
}
use cliproxy_new.Store.ApiKeys.{ApiKeyPrincipal}
use cliproxy_new.Access.Provider.{
  KeyRepository, Request, AccessResult, AuthError, internal_error, no_credentials, rejected,
  request_credentials, accepted, answer, try_credentials, supplied_or_none, authenticate_with,
  authenticate,
}

module _ {S : Type 0} (repository : KeyRepository S) (source : GoString) where
  -- From `s` to `t` each of the credentials, in turn, was empty or was refused as invalid.
  pub data Tried : S → List GoString → S → Type 0 where
    start : {s : S} → Tried s [] s
    skip : {s t : S} {cs : List GoString} → Tried s cs t → Tried s ([] ∷ cs) t
    refuse :
        {s u t : S} {c : GoString} {cs : List GoString}
        → c ≢ []
        → repository.authenticate_key c source s ≡ (u, err invalid_credential)
        → Tried u cs t
        → Tried s (c ∷ cs) t

  -- Behind refused credentials there is one for which the repository gave `a`.
  pub record Decisive (s : S) (cs : List GoString) (t : S) (a : Result StoreError ApiKeyPrincipal)
      : Type 0 where
    pub before : List GoString
    pub credential : GoString
    pub behind : List GoString
    pub split : cs ≡ before ++ (credential ∷ behind)
    pub reached : S
    pub tried : Tried s before reached
    pub supplied : credential ≢ []
    pub answered : repository.authenticate_key credential source reached ≡ (t, a)

  abbrev pub Explained : S → List GoString → S × Result AuthError AccessResult → Type 0
  Explained s cs (t, ok res) = (p : ApiKeyPrincipal) × (res ≡ accepted p) × Decisive s cs t (ok p)
  Explained s cs (t, err rejected) = Tried s cs t
  Explained s cs (t, err internal_error) =
      (e : StoreError) × (e ≢ invalid_credential) × Decisive s cs t (err e)
  Explained s cs (t, err no_credentials) = ⊥

  -- One credential that was passed over, before the explanation of the rest.
  extend-Decisive :
      (s u t : S) (c : GoString) (cs : List GoString) (a : Result StoreError ApiKeyPrincipal)
      → ((before : List GoString) (v : S) → Tried u before v → Tried s (c ∷ before) v)
      → Decisive u cs t a
      → Decisive s (c ∷ cs) t a
  extend-Decisive s u t c cs a passed d = record {
    before = c ∷ d.before;
    credential = d.credential;
    behind = d.behind;
    split = ap (◌∷◌ c) d.split;
    reached = d.reached;
    tried = passed d.before d.reached d.tried;
    supplied = d.supplied;
    answered = d.answered;
  }

  extend :
      (s u : S) (c : GoString) (cs : List GoString) (r : S × Result AuthError AccessResult)
      → ((before : List GoString) (v : S) → Tried u before v → Tried s (c ∷ before) v)
      → Explained u cs r
      → Explained s (c ∷ cs) r
  extend s u c cs (t, ok res) passed (p, same, d) = (p, same, extend-Decisive s u t c cs _ passed d)
  extend s u c cs (t, err rejected) passed x = passed cs t x
  extend s u c cs (t, err internal_error) passed (e, other_error, d) =
      (e, other_error, extend-Decisive s u t c cs _ passed d)
  extend s u c cs (t, err no_credentials) passed x = x

  decide :
      (s t : S) (c : GoString) (cs : List GoString) (a : Result StoreError ApiKeyPrincipal)
      → c ≢ []
      → repository.authenticate_key c source s ≡ (t, a)
      → Decisive s (c ∷ cs) t a
  decide s t c cs a supplied e = record {
    before = [];
    credential = c;
    behind = cs;
    split = refl;
    reached = s;
    tried = start;
    supplied = supplied;
    answered = e;
  }

  answer-Explained :
      (s : S) (c : GoString) (cs : List GoString) (a : S × Result StoreError ApiKeyPrincipal)
      (rest : S → S × Result AuthError AccessResult)
      → c ≢ []
      → repository.authenticate_key c source s ≡ a
      → ((u : S) → Explained u cs (rest u))
      → Explained s (c ∷ cs) (answer repository source a rest)
  unfolding answer
  answer-Explained s c cs (t, ok p) rest n e x = (p, refl, decide s t c cs (ok p) n e)
  answer-Explained s c cs (t, err invalid_credential) rest n e x =
      extend s t c cs (rest t) (λ before v. refuse n e) (x t)
  answer-Explained s c cs (t, err not_found) rest n e x =
      (not_found, (λ p. cc), decide s t c cs _ n e)
  answer-Explained s c cs (t, err invalid_input) rest n e x =
      (invalid_input, (λ p. cc), decide s t c cs _ n e)
  answer-Explained s c cs (t, err corrupt_credential) rest n e x =
      (corrupt_credential, (λ p. cc), decide s t c cs _ n e)
  answer-Explained s c cs (t, err other) rest n e x = (other, (λ p. cc), decide s t c cs _ n e)

  -- The loop over the credentials, from any state of the repository.
  try_credentials-Explained :
      (cs : List GoString) (s : S) → Explained s cs (try_credentials repository source cs s)
  unfolding try_credentials
  try_credentials-Explained [] s = start
  try_credentials-Explained (c ∷ cs) s = elim (Bool-cases (c == [])) [
    | inl empty ↦
        let e = (==_iff c []).0 empty in
        rw empty (
          extend s s c cs _ (λ before v x. subst (λ d. Tried s (d ∷ before) v) (sym e) (skip x))
            (try_credentials-Explained cs s))
    | inr full ↦ rw full (
        answer-Explained s c cs _ _ (λ e. false≢true (sym full ∙ (==_iff c []).1 e)) refl
          (try_credentials-Explained cs))
  ]

supplied-Explained :
    {S : Type 0} (repository : KeyRepository S) (source : GoString) (r : List GoString × Bool)
    (s : S)
    → r.1 ≡ true
    → Explained repository source s r.0 (supplied_or_none repository source r s)
unfolding supplied_or_none
supplied-Explained repository source (cs, false) s h = absurd (false≢true h)
supplied-Explained repository source (cs, true) s h =
    try_credentials-Explained repository source cs s

-- A request that supplies a credential is accepted by the first of them that is neither empty nor
-- refused as invalid, with the principal of the IDs that the repository gave. It is rejected only
-- if every credential that it has was refused as invalid, in order, and any other error of the
-- repository ends it at once as an internal error: no later credential is tried.
pub authenticate-Explained :
    {S : Type 0} (repository : KeyRepository S) (source : GoString) (request : Option Request)
    (s : S)
    → (request_credentials request).1 ≡ true
    → Explained repository source s (request_credentials request).0 (
        authenticate
          (some (record { repository = some repository; identity_source = source }))
          request
          s)
unfolding authenticate authenticate_with
authenticate-Explained repository source request s h =
    supplied-Explained repository source (request_credentials request) s h
