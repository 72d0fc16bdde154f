-- ===== src/Cache/Entries.antt =====
-- A property of every entry that a TTL cache holds, and the calls that keep it.
use cliproxy_new.Base.{
  ℕ, ◌≡◌, refl, Bool, Option, none, some, ℤ, is_positive, ltb, ◌<◌, Comparable, ◌==◌, arith,
  Bool-cases, inl, inr, insert, Map, subst,
}
use cliproxy_new.Cache.{
  Ttl, Entry, get, set, delete, delete_where, clear, add_duration, new_ttl, found,
}

module _ {ℓ κ μ} {K : Type ℓ} {V : Type κ} (P : K → V → ℕ → Type μ) where
  -- `P` at the key, the value and the expiry of each entry, in a cache with the given TTL.
  abbrev pub Holds : ℤ → Option (Ttl K V) → Type (ℓ ⊔ κ ⊔ μ)
  Holds ttl none = Unit
  Holds ttl (some c) =
      (c.ttl ≡ ttl) × ((k : K) (e : Entry V) → c.entries k ≡ some e → P k e.value e.expires_at)

  pub Holds-new_ttl : (ttl : ℤ) → Holds ttl (new_ttl ttl)
  unfolding new_ttl
  Holds-new_ttl ttl = (refl, λ k e h. absurd (ground arith))

  pub Holds-clear : (ttl : ℤ) (c : Option (Ttl K V)) → Holds ttl c → Holds ttl (clear c)
  unfolding clear
  Holds-clear ttl none h = h
  Holds-clear ttl (some c) h = (h.0, λ k e q. absurd (ground arith))

  pub Holds-delete_where :
      (ttl : ℤ) (c : Option (Ttl K V)) (match : K → V → Bool)
      → Holds ttl c
      → Holds ttl (delete_where c (some match))
  unfolding delete_where
  Holds-delete_where ttl none match h = h
  Holds-delete_where ttl (some c) match h = (h.0, λ k e q. h.1 k e (ground arith))

module _ {ℓ κ μ} {K : Type ℓ} {V : Type κ} ⦃e : Comparable K⦄ (P : K → V → ℕ → Type μ) where
  pub Holds-delete :
      (ttl : ℤ) (c : Option (Ttl K V)) (key : K) → Holds P ttl c → Holds P ttl (delete c key)
  unfolding delete
  Holds-delete ttl none key h = h
  Holds-delete ttl (some c) key h = (h.0, λ k f q. h.1 k f (ground arith))

  found-Holds :
      (ttl : ℤ) (c : Ttl K V) (key : K) (now : ℕ) (o : Option (Entry V))
      → Holds P ttl (some c)
      → Holds P ttl (some (found c key now o).0)
  unfolding found
  found-Holds ttl c key now none h = h
  found-Holds ttl c key now (some x) h = elim (Bool-cases (ltb now x.expires_at)) [
    | inl young ↦ rw young h
    | inr old ↦ rw old (h.0, λ k f q. h.1 k f (ground arith))
  ]

  insert-keeps :
      (m : Map K (Entry V)) (key : K) (x : Entry V)
      → ((k : K) (f : Entry V) → m k ≡ some f → P k f.value f.expires_at)
      → P key x.value x.expires_at
      → (k : K) (f : Entry V) → insert key x m k ≡ some f
      → P k f.value f.expires_at
  insert-keeps m key x h p k f q = elim (Bool-cases (key == k)) [
    | inl same ↦
        let here : x ≡ f = ground arith in
        subst (λ y. P k y.value y.expires_at) here
          (subst (λ j. P j x.value x.expires_at) ((e.equal_iff key k).0 same) p)
    | inr other ↦ h k f (ground arith)
  ]

  pub Holds-get :
      (ttl : ℤ) (c : Option (Ttl K V)) (key : K) (now : ℕ)
      → Holds P ttl c
      → Holds P ttl (get c key now).0
  unfolding get
  Holds-get ttl none key now h = h
  Holds-get ttl (some c) key now h = elim (Bool-cases (is_positive c.ttl)) [
    | inl on ↦ rw on (found-Holds ttl c key now (c.entries key) h)
    | inr off ↦ rw off h
  ]

  pub Holds-set :
      (ttl : ℤ) (c : Option (Ttl K V)) (key : K) (v : V) (now : ℕ)
      → Holds P ttl c
      → P key v (add_duration now ttl)
      → Holds P ttl (set c key v now)
  unfolding set
  Holds-set ttl none key v now h p = h
  Holds-set ttl (some c) key v now h p = elim (Bool-cases (is_positive c.ttl)) [
    | inl on ↦ rw on (h.0, insert-keeps c.entries key _ h.1 (rw h.0 p))
    | inr off ↦ rw off h
  ]

  found-some :
      (c : Ttl K V) (key : K) (now : ℕ) (v : V) (o : Option (Entry V))
      → (found c key now o).1 ≡ some v
      → (x : Entry V) × (o ≡ some x) × (now < x.expires_at) × (x.value ≡ v)
  unfolding found
  found-some c key now v none q = absurd (ground arith)
  found-some c key now v (some x) q = (x, refl, ground arith, ground arith)

  -- What a read returns has the property, and is not expired.
  pub get-Holds :
      (ttl : ℤ) (c : Option (Ttl K V)) (key : K) (now : ℕ) (v : V)
      → Holds P ttl c
      → (get c key now).1 ≡ some v
      → (expires : ℕ) × P key v expires × (now < expires)
  unfolding get
  get-Holds ttl none key now v h q = absurd (ground arith)
  get-Holds ttl (some c) key now v h q =
      let (x, e, young, same) = found-some c key now v (c.entries key) (ground arith) in
      (x.expires_at, subst (λ w. P key w x.expires_at) same (h.1 key x e), young)

module _ {ℓ κ μ ν} {K : Type ℓ} {V : Type κ} (P : K → V → ℕ → Type μ) (Q : K → V → ℕ → Type ν) where
  pub Holds-mono :
      ((k : K) (v : V) (t : ℕ) → P k v t → Q k v t)
      → (ttl : ℤ) (c : Option (Ttl K V)) → Holds P ttl c
      → Holds Q ttl c
  Holds-mono weaker ttl none h = tt
  Holds-mono weaker ttl (some c) h = (h.0, λ k e q. weaker k e.value e.expires_at (h.1 k e q))
