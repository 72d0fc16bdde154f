-- ===== src/Auth/Ldap/Access.antt =====
-- Whom the LDAP provider of internal/auth/ldap/provider.go lets in.
use cliproxy_new.Base.{
  ◌≡◌, refl, sym, ap, ◌⊎◌, ◌↔◌, inl, inr, Bool, true, false, ◌||◌, Bool-cases, Option, none, some,
  List, [], ◌∷◌, is_empty, list_eq, nat_eq, if◌then◌else◌, GoString, trim_space, has_prefix, Result,
  ok, err, >>=_inversion, ok_injective,
}
use cliproxy_new.Store.{ldap}
use cliproxy_new.Auth.Identity.{
  Identity, IdentityError, invalid_credentials, access_denied, other, role_user, role_admin,
}
use cliproxy_new.Auth.Identity.Static.{static_username_prefix}
use cliproxy_new.Auth.Ldap.{
  Config, Entry, Library, Directory, new_provider, includes_dn, role_for_groups, filter_for,
  one_entry, find_user, identity_of, bound, authenticate_as, authenticate_trimmed, authenticate,
}
use cliproxy_new.Auth.Ldap.Filters.{Placed, new_provider-Placed}

-- The role that the groups of an entry give: of the administrators first.
abbrev pub HasRole : Library → Config → Entry → GoString → Type 0
HasRole lib c entry role =
    ((role ≡ role_admin) × (includes_dn lib entry.member_of c.admin_group_dn ≡ true))
    ⊎ ((role ≡ role_user)
        × (includes_dn lib entry.member_of c.admin_group_dn ≡ false)
        × (includes_dn lib entry.member_of c.user_group_dn ≡ true))

-- What the directory answered for an identity, and the role of the groups.
pub record Checked (lib : Library) (c : Config) (d : Directory) (cancelled : Bool)
    (username password : GoString) (i : Identity) : Type 0 where
  pub running : cancelled ≡ false
  pub reached : d.dials c.url ≡ true
  pub service : d.binds c.bind_dn c.bind_password ≡ true
  pub entry : Entry
  pub found : d.search c.user_base (filter_for lib c username) ≡ some (some (entry ∷ []))
  pub verified : d.binds entry.dn password ≡ true
  pub role : GoString
  pub has : HasRole lib c entry role
  pub identity : record { username = username; email = entry.mail; role = role; source = ldap } ≡ i

-- Why an identity is confirmed for a user name and a password: neither is empty, the name is not of
-- the static provider, and the directory agrees.
pub record Granted (lib : Library) (c : Config) (d : Directory) (cancelled : Bool)
    (username password : GoString) (i : Identity) : Type 0 where
  pub named : is_empty username ≡ false
  pub secret : is_empty password ≡ false
  pub unreserved : has_prefix username static_username_prefix ≡ false
  pub checked : Checked lib c d cancelled username password i

bound-ok : (b : Bool) (e : IdentityError) (u : Unit {0}) → bound b e ≡ ok u → b ≡ true
unfolding bound
bound-ok true e u h = refl
bound-ok false e u h = cc

role_for_groups-ok :
    (lib : Library) (c : Config) (entry : Entry) (role : GoString)
    → role_for_groups lib c entry.member_of ≡ ok role
    → HasRole lib c entry role
unfolding role_for_groups
role_for_groups-ok lib c entry role h =
    elim (Bool-cases (includes_dn lib entry.member_of c.admin_group_dn)) [
      | inl a ↦ inl (sym (ok_injective role_admin role (rw a at h)), a)
      | inr a ↦ elim (Bool-cases (includes_dn lib entry.member_of c.user_group_dn)) [
        | inl u ↦ inr (sym (ok_injective role_user role (rw (a, u) at h)), a, u)
        | inr u ↦ let denied : err access_denied ≡ ok role = rw (a, u) at h in cc
      ]
    ]

ok-role_for_groups :
    (lib : Library) (c : Config) (entry : Entry) (role : GoString)
    → HasRole lib c entry role
    → role_for_groups lib c entry.member_of ≡ ok role
unfolding role_for_groups
ok-role_for_groups lib c entry role (inl (e, a)) = rw (a, e) refl
ok-role_for_groups lib c entry role (inr (e, a, u)) = rw (a, u, e) refl

one_entry-ok :
    (found : Option (Option (List Entry))) (entry : Entry)
    → one_entry found ≡ ok entry
    → found ≡ some (some (entry ∷ []))
unfolding one_entry
one_entry-ok none entry h = cc
one_entry-ok (some none) entry h = cc
one_entry-ok (some (some [])) entry h = cc
one_entry-ok (some (some (e ∷ []))) entry h =
    ap (λ x. some (some (x ∷ []))) (ok_injective e entry h)
one_entry-ok (some (some (e ∷ f ∷ es))) entry h = cc

find_user-ok :
    (lib : Library) (c : Config) (d : Directory) (cancelled : Bool) (username : GoString)
    (entry : Entry)
    → find_user lib c d cancelled username ≡ ok entry
    → (cancelled ≡ false)
      × (d.search c.user_base (filter_for lib c username) ≡ some (some (entry ∷ [])))
unfolding find_user
find_user-ok lib c d true username entry h = cc
find_user-ok lib c d false username entry h = (refl, one_entry-ok _ entry h)

open_guard :
    (a b c : Bool) (o : Result IdentityError Identity) (i : Identity)
    → (if a || b || c then err invalid_credentials else o) ≡ ok i
    → (a ≡ false) × (b ≡ false) × (c ≡ false) × (o ≡ ok i)
open_guard true b c o i h = cc
open_guard false true c o i h = cc
open_guard false false true o i h = cc
open_guard false false false o i h = (refl, refl, refl, h)

authenticate_as-Checked :
    (lib : Library) (c : Config) (d : Directory) (cancelled : Bool) (username password : GoString)
    (i : Identity)
    → authenticate_as lib c d cancelled username password ≡ ok i
    → Checked lib c d cancelled username password i
unfolding authenticate_as identity_of
authenticate_as-Checked lib c d cancelled username password i h =
    let (entry, before, later) = >>=_inversion _ _ h in
    let (_, binds, finds) = >>=_inversion _ (λ _. find_user lib c d cancelled username) before in
    let (u, dials, served) =
      >>=_inversion _ (λ _. bound (d.binds c.bind_dn c.bind_password) other) binds in
    let (role, grouped, same) =
      >>=_inversion _ (λ role. ok (identity_of username entry role)) later in
    let (v, verified, groups) =
      >>=_inversion _ (λ _. role_for_groups lib c entry.member_of) grouped in
    let (running, found) = find_user-ok lib c d cancelled username entry finds in
    record {
      running = running;
      reached = bound-ok (d.dials c.url) other u dials;
      service = bound-ok (d.binds c.bind_dn c.bind_password) other _ served;
      entry = entry;
      found = found;
      verified = bound-ok (d.binds entry.dn password) invalid_credentials v verified;
      role = role;
      has = role_for_groups-ok lib c entry role groups;
      identity = ok_injective (identity_of username entry role) i same;
    }

Checked-authenticate_as :
    (lib : Library) (c : Config) (d : Directory) (cancelled : Bool) (username password : GoString)
    (i : Identity)
    → Checked lib c d cancelled username password i
    → authenticate_as lib c d cancelled username password ≡ ok i
unfolding authenticate_as identity_of bound find_user one_entry
Checked-authenticate_as lib c d cancelled username password i k =
    rw
      (
        k.reached,
        k.service,
        k.running,
        k.found,
        k.verified,
        ok-role_for_groups lib c k.entry k.role k.has,
      )
      (ap ok k.identity)

-- A provider that `NewProvider` made, at a user name that is trimmed first: it confirms an identity
-- if and only if the name and the password are not empty, the name is not one of the static
-- provider, the request is not cancelled, the directory is reached, the service bind is taken, the
-- search for the name finds exactly one entry, the
-- directory takes the password for that entry, and its groups have a role: that of the
-- administrators first. The identity is the trimmed name with the entry's mail and that role. The
-- search's filter is the configured one with the escaped name in the one place of the mark.
pub authenticate-Granted :
    (lib : Library) (given c : Config) (d : Directory) (cancelled : Bool)
    (username password : GoString) (i : Identity)
    → new_provider lib given ≡ ok c
    → ((authenticate lib c d cancelled username password ≡ ok i)
        ↔ Granted lib c d cancelled (trim_space username) password i)
      × Placed lib c
unfolding authenticate authenticate_trimmed
authenticate-Granted lib given c d cancelled username password i made = (
  (
    (λ h.
        let (n, s, u, call) =
          open_guard _ _ _ (authenticate_as lib c d cancelled (trim_space username) password) i h in
        record {
          named = n;
          secret = s;
          unreserved = u;
          checked = authenticate_as-Checked lib c d cancelled (trim_space username) password i call;
        }),
    (λ g.
        rw (g.named, g.secret, g.unreserved)
          (Checked-authenticate_as lib c d cancelled (trim_space username) password i g.checked)),
  ),
  new_provider-Placed lib given c made,
)
