-- ===== src/Store/CoreAuth/Contents.antt =====
-- What `Save` of internal/store/coreauth_store.go writes of a credential, and what is read of it.
use cliproxy_new.Base.{
  ◌≡◌, ◌≢◌, refl, sym, ◌∙◌, subst, Bool, true, false, Bool-cases, inl, inr, Option, some, [], find,
  assign_all, find-assign, find-assign_all, list_eq, nat_eq, int_eq, if◌then◌else◌, ◌==◌, ==_iff,
  ==_refl, GoString, bytes, trim_space, Result, ok, err, ◌>>=◌, ok_injective,
}
use cliproxy_new.Base.{is_utf8, All}
use cliproxy_new.Store.{StoreError}
use cliproxy_new.Store.CoreAuth.{
  Sdk, Auth, JsonValue, flag, text, json, Metadata, with_type, has_type, merged, persisted,
  persisted_credential_metadata, ensure_postgres_source, storage_metadata,
}

-- What is written of a credential `a`: the id and the provider trimmed, no proxy, the source of the
-- attributes set, the metadata kept but for its type and its flag, and all else as it was.
pub record Kept (sdk : Sdk) (a p : Auth) : Type 0 where
  pub id : p.id ≡ trim_space a.id
  pub provider : p.provider ≡ trim_space a.provider
  pub proxy_url : p.proxy_url ≡ []
  pub attributes :
      (key : GoString)
      → find p.attributes key
        ≡ (if sdk.source_backend == key then some sdk.source_postgres else find a.attributes key)
  pub metadata :
      (key : GoString) (v : JsonValue)
      → find a.metadata key ≡ some v
      → key ≢ bytes "type"
      → key ≢ bytes "disabled"
      → find p.metadata key ≡ some v
  pub disabled_flag : find p.metadata (bytes "disabled") ≡ some (flag a.disabled)
  pub label : p.label ≡ a.label
  pub disabled : p.disabled ≡ a.disabled
  pub unavailable : p.unavailable ≡ a.unavailable
  pub status : p.status ≡ a.status
  pub last_refreshed_at : p.last_refreshed_at ≡ a.last_refreshed_at
  pub next_refresh_after : p.next_refresh_after ≡ a.next_refresh_after
  pub others : p.others ≡ a.others

-- The copy with its metadata.
abbrev copied : Sdk → Auth → Auth
copied sdk a =
    ensure_postgres_source sdk
      (record a { id = trim_space a.id; provider = trim_space a.provider; proxy_url = [] })

abbrev written : Sdk → Auth → Metadata → Auth
written sdk a m = record (copied sdk a) { metadata = m }

differs : (key k : GoString) → key ≢ k → (k == key) ≡ false
differs key k d = elim (Bool-cases (k == key)) [
  | inl e ↦ absurd (d (sym ((==_iff k key).0 e)))
  | inr e ↦ e
]

with_type-other :
    (provider : GoString) (m : Metadata) (key : GoString)
    → key ≢ bytes "type"
    → find (with_type provider m) key ≡ find m key
unfolding with_type
with_type-other provider m key d = elim (Bool-cases (has_type (find m (bytes "type")))) [
  | inl e ↦ rw e refl
  | inr e ↦
      rw e
        (find-assign (bytes "type") key (text provider) m ∙ rw (differs key (bytes "type") d) refl)
]

merged-keeps :
    (a : Auth) (es : Metadata) (key : GoString) (v : JsonValue)
    → find a.metadata key ≡ some v
    → key ≢ bytes "type"
    → key ≢ bytes "disabled"
    → find (merged a es) key ≡ some v
unfolding merged
merged-keeps a es key v has t d =
    find-assign (bytes "disabled") key (flag a.disabled) _
    ∙ rw (differs key (bytes "disabled") d) (
        with_type-other a.provider _ key t
        ∙ find-assign_all a.metadata (assign_all es []) key v has)

merged-disabled :
    (a : Auth) (es : Metadata) → find (merged a es) (bytes "disabled") ≡ some (flag a.disabled)
unfolding merged
merged-disabled a es =
    find-assign (bytes "disabled") (bytes "disabled") (flag a.disabled) _
    ∙ rw (==_refl (bytes "disabled")) refl

written-Kept :
    (sdk : Sdk) (a : Auth) (es : Metadata) → Kept sdk a (written sdk a (merged (copied sdk a) es))
unfolding ensure_postgres_source
written-Kept sdk a es = record {
  id = refl;
  provider = refl;
  proxy_url = refl;
  attributes = λ key. find-assign sdk.source_backend key sdk.source_postgres a.attributes;
  metadata = merged-keeps (copied sdk a) es;
  disabled_flag = merged-disabled (copied sdk a) es;
  label = refl;
  disabled = refl;
  unavailable = refl;
  status = refl;
  last_refreshed_at = refl;
  next_refresh_after = refl;
  others = refl;
}

written_by :
    (sdk : Sdk) (a p : Auth) (o : Result StoreError Metadata)
    → ((o >>= (λ es. ok (merged (copied sdk a) es))) >>= (λ m. ok (written sdk a m))) ≡ ok p
    → (es : Metadata) × (written sdk a (merged (copied sdk a) es) ≡ p)
written_by sdk a p (err e) h = cc
written_by sdk a p (ok es) h = (es, ok_injective (written sdk a (merged (copied sdk a) es)) p h)

-- Whatever is written is kept as `Kept` says.
pub persisted-Kept : (sdk : Sdk) (a p : Auth) → persisted sdk a ≡ ok p → Kept sdk a p
unfolding persisted persisted_credential_metadata
persisted-Kept sdk a p h =
    let (es, same) = written_by sdk a p (storage_metadata sdk (copied sdk a).storage) h in
    subst (Kept sdk a) same (written-Kept sdk a es)

-- What a JSON text keeps of a credential: all but the token storage, and maps up to their order.
pub record Same (a b : Auth) : Type 0 where
  pub id : b.id ≡ a.id
  pub provider : b.provider ≡ a.provider
  pub attributes : (key : GoString) → find b.attributes key ≡ find a.attributes key
  pub metadata : (key : GoString) → find b.metadata key ≡ find a.metadata key
  pub label : b.label ≡ a.label
  pub disabled : b.disabled ≡ a.disabled
  pub unavailable : b.unavailable ≡ a.unavailable
  pub status : b.status ≡ a.status
  pub last_refreshed_at : b.last_refreshed_at ≡ a.last_refreshed_at
  pub next_refresh_after : b.next_refresh_after ≡ a.next_refresh_after
  pub others : b.others ≡ a.others

-- A value that JSON keeps: a text is UTF-8, since `json.Marshal` replaces what is not, and any other
-- is such that the text read and written again is the same.
unfoldable pub IsPlainValue : (GoString → Bool) → JsonValue → Type 0
IsPlainValue canonical (text s) = is_utf8 s ≡ true
IsPlainValue canonical (flag b) = Unit
IsPlainValue canonical (json s) = canonical s ≡ true

-- A credential whose texts and values JSON keeps.
pub record IsPlain (canonical : GoString → Bool) (a : Auth) : Type 0 where
  pub id : is_utf8 a.id ≡ true
  pub provider : is_utf8 a.provider ≡ true
  pub label : is_utf8 a.label ≡ true
  pub others : is_utf8 a.others ≡ true
  pub attributes : All (λ e. (is_utf8 e.0 ≡ true) × (is_utf8 e.1 ≡ true)) a.attributes
  pub metadata : All (λ e. (is_utf8 e.0 ≡ true) × IsPlainValue canonical e.1) a.metadata

-- `json.Unmarshal` reads what `json.Marshal` wrote of such a credential. `canonical` tells which
-- JSON texts are written again as they were read.
pub record IsCodec (sdk : Sdk) (canonical : GoString → Bool) : Type 0 where
  pub decodes :
      (a : Auth) (s : GoString)
      → IsPlain canonical a
      → sdk.marshal a ≡ some s
      → (b : Auth) × (sdk.unmarshal s ≡ some b) × Same a b

-- What is read of a copy that is kept, with its source set again.
abbrev pub relisted : Sdk → Auth → Auth
relisted sdk b = ensure_postgres_source sdk (record b { proxy_url = [] })

source_again :
    (test : Bool) (source found kept base : Option GoString)
    → found ≡ kept
    → kept ≡ (if test then source else base)
    → (if test then source else found) ≡ (if test then source else base)
source_again true source found kept base e k = refl
source_again false source found kept base e k = e ∙ k

pub relisted-Kept :
    (sdk : Sdk) (a p b : Auth) → Kept sdk a p → Same p b → Kept sdk a (relisted sdk b)
unfolding ensure_postgres_source
relisted-Kept sdk a p b k s = record {
  id = s.id ∙ k.id;
  provider = s.provider ∙ k.provider;
  proxy_url = refl;
  attributes = λ key.
      find-assign sdk.source_backend key sdk.source_postgres b.attributes
      ∙ source_again (sdk.source_backend == key) (some sdk.source_postgres) (find b.attributes key)
          (find p.attributes key) (find a.attributes key) (s.attributes key) (k.attributes key);
  metadata = λ key v h t d. s.metadata key ∙ k.metadata key v h t d;
  disabled_flag = s.metadata (bytes "disabled") ∙ k.disabled_flag;
  label = s.label ∙ k.label;
  disabled = s.disabled ∙ k.disabled;
  unavailable = s.unavailable ∙ k.unavailable;
  status = s.status ∙ k.status;
  last_refreshed_at = s.last_refreshed_at ∙ k.last_refreshed_at;
  next_refresh_after = s.next_refresh_after ∙ k.next_refresh_after;
  others = s.others ∙ k.others;
}
