-- ===== src/Auth/Ldap.antt =====
-- internal/auth/ldap/provider.go: a service bind, a search, a bind as the user, and a role by
-- group. The directory, the escaping of filters, the parsing of URLs and Unicode's case folding are
-- parameters.
pub mod Filters
pub mod Access
use Prim.Native.Nat.{ℕ, zero, suc}
use cliproxy_new.Base.{
  ◌≡◌, Bool, true, false, ◌&&◌, ◌||◌, not, Option, none, some, List, [], ◌∷◌, ◌++◌, is_empty,
  length, list_eq, nat_eq, if◌then◌else◌, ◌==◌, GoString, bytes, trim_space, cut_prefix, has_prefix,
  Result, ok, err, ◌>>=◌,
}
use cliproxy_new.Store.{ldap}
use cliproxy_new.Auth.Identity.{
  Identity, IdentityError, invalid_credentials, access_denied, other, role_user, role_admin,
}
use cliproxy_new.Auth.Identity.Static.{static_username_prefix}

-- `strings.Index` with what stands before and behind the first occurrence of a text that is not
-- empty.
unfoldable pub cons_before : ℕ → Option (GoString × GoString) → Option (GoString × GoString)
cons_before c none = none
cons_before c (some (before, behind)) = some (c ∷ before, behind)

unfoldable pub cut_or :
    ℕ → Option GoString → Option (GoString × GoString) → Option (GoString × GoString)
cut_or c (some behind) later = some ([], behind)
cut_or c none later = cons_before c later

unfoldable pub cut_at : GoString → GoString → Option (GoString × GoString)
cut_at [] sub = none
cut_at (c ∷ s) sub = let later = cut_at s sub in cut_or c (cut_prefix (c ∷ s) sub) later

-- `strings.Count`; an occurrence is not empty, so the length of the text is fuel enough.
unfoldable pub count_from : ℕ → Option (GoString × GoString) → GoString → ℕ
count_from zero found sub = 0
count_from (suc fuel) none sub = 0
count_from (suc fuel) (some (before, behind)) sub = suc (count_from fuel (cut_at behind sub) sub)

unfoldable pub count : GoString → GoString → ℕ
count s sub = count_from (length s) (cut_at s sub) sub

-- `strings.Replace` of the first occurrence.
unfoldable pub replaced : GoString → Option (GoString × GoString) → GoString → GoString
replaced s none new = s
replaced s (some (before, behind)) new = before ++ (new ++ behind)

unfoldable pub replace_first : GoString → GoString → GoString → GoString
replace_first s sub new = replaced s (cut_at s sub) new

pub record Config : Type 0 where
  pub url : GoString
  pub bind_dn : GoString
  pub bind_password : GoString
  pub user_base : GoString
  pub user_filter : GoString
  pub user_group_dn : GoString
  pub admin_group_dn : GoString

-- An entry with the values of its `memberOf`, and the first of its `mail` or "".
pub record Entry : Type 0 where
  pub dn : GoString
  pub mail : GoString
  pub member_of : List GoString

-- The sentinel `ErrInvalidConfiguration`.
pub data ConfigError : Type 0 where
  invalid_configuration : ConfigError

-- `url.Parse` into scheme and host, `ldap.EscapeFilter` and `strings.EqualFold`.
pub record Library : Type 0 where
  pub parse_url : GoString → Option (GoString × GoString)
  pub escape_filter : GoString → GoString
  pub equal_fold : GoString → GoString → Bool

-- The directory behind an address: whether it is reached, whether it takes a bind as a name with a
-- password, and what it finds under a base by a filter with a limit of two entries: an error, or a
-- result, which may be nil.
pub record Directory : Type 0 where
  pub dials : GoString → Bool
  pub binds : GoString → GoString → Bool
  pub search : GoString → GoString → Option (Option (List Entry))

unfoldable pub username_mark : GoString
username_mark = bytes "{username}"

is_ldaps : Option (GoString × GoString) → Bool
is_ldaps none = false
is_ldaps (some (scheme, host)) = scheme == bytes "ldaps" && not (is_empty host)

unfoldable pub one_entry : Option (Option (List Entry)) → Result IdentityError Entry
one_entry none = err other
one_entry (some none) = err invalid_credentials
one_entry (some (some [])) = err invalid_credentials
one_entry (some (some (e ∷ []))) = ok e
one_entry (some (some (e ∷ f ∷ es))) = err invalid_credentials

unfoldable pub identity_of : GoString → Entry → GoString → Identity
identity_of username entry role = record {
  username = username;
  email = entry.mail;
  role = role;
  source = ldap;
}

unfoldable pub bound : Bool → IdentityError → Result IdentityError (Unit {0})
bound true e = ok tt
bound false e = err e

module _ (lib : Library) where
  unfoldable pub validate_config : Config → Bool
  unfolding is_ldaps
  validate_config c =
      is_ldaps (lib.parse_url c.url)
      && not (
          is_empty (trim_space c.bind_dn)
          || is_empty c.bind_password
          || is_empty (trim_space c.user_base)
          || not (count c.user_filter username_mark == 1)
          || is_empty (trim_space c.user_group_dn)
          || is_empty (trim_space c.admin_group_dn))

  -- A provider is its configuration, with the dialer of the directory.
  unfoldable pub new_provider : Config → Result ConfigError Config
  new_provider c = if validate_config c then ok c else err invalid_configuration

  unfoldable pub includes_dn : List GoString → GoString → Bool
  includes_dn [] wanted = false
  includes_dn (group ∷ groups) wanted =
      lib.equal_fold (trim_space group) (trim_space wanted) || includes_dn groups wanted

  unfoldable pub role_for_groups : Config → List GoString → Result IdentityError GoString
  role_for_groups c groups =
      if includes_dn groups c.admin_group_dn
      then ok role_admin
      else if includes_dn groups c.user_group_dn
      then ok role_user
      else err access_denied

  unfoldable pub filter_for : Config → GoString → GoString
  filter_for c username = replace_first c.user_filter username_mark (lib.escape_filter username)

  -- `cancelled` is whether the context is done when the search is made.
  unfoldable pub find_user : Config → Directory → Bool → GoString → Result IdentityError Entry
  find_user c d cancelled username =
      if cancelled then err other else one_entry (d.search c.user_base (filter_for c username))

  unfoldable pub authenticate_as :
      Config → Directory → Bool → GoString → GoString → Result IdentityError Identity
  authenticate_as c d cancelled username password =
      bound (d.dials c.url) other
      >>= (λ _. bound (d.binds c.bind_dn c.bind_password) other)
      >>= (λ _. find_user c d cancelled username)
      >>= (λ entry.
          bound (d.binds entry.dn password) invalid_credentials
          >>= (λ _. role_for_groups c entry.member_of)
          >>= (λ role. ok (identity_of username entry role)))

  unfoldable pub authenticate_trimmed :
      Config → Directory → Bool → GoString → GoString → Result IdentityError Identity
  authenticate_trimmed c d cancelled username password =
      if is_empty username || is_empty password || has_prefix username static_username_prefix
      then err invalid_credentials
      else authenticate_as c d cancelled username password

  unfoldable pub authenticate :
      Config → Directory → Bool → GoString → GoString → Result IdentityError Identity
  authenticate c d cancelled username password =
      authenticate_trimmed c d cancelled (trim_space username) password
