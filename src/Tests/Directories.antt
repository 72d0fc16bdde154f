-- ===== src/Tests/Directories.antt =====
-- Runs of internal/auth/ldap/provider.go on a directory with one person.
use cliproxy_new.Base.{
  ◌≡◌, ◌↔◌, refl, true, false, ◌&&◌, ◌||◌, some, [], ◌∷◌, ◌==◌, list_eq, nat_eq, list_beq, bytes,
  ok, err, trim_space, has_prefix, if◌then◌else◌, cut_prefix,
}
use cliproxy_new.Store.{ldap}
use cliproxy_new.Auth.Identity.{Identity, role_admin, invalid_credentials}
use cliproxy_new.Auth.Identity.Static.{static_username_prefix}
use cliproxy_new.Auth.Ldap.{
  Config, Entry, Library, Directory, new_provider, validate_config, count, count_from, cut_at,
  cut_or, cons_before, authenticate, authenticate_trimmed, authenticate_as, find_user, filter_for,
  replace_first, replaced, one_entry, role_for_groups, includes_dn, bound, identity_of,
  username_mark,
}
use cliproxy_new.Auth.Ldap.Filters.{Placed}
use cliproxy_new.Auth.Ldap.Access.{Granted, authenticate-Granted}

-- Escaping of the star only, and texts that are equal with their case.
abbrev library : Library
library = record {
  parse_url = λ s. some (bytes "ldaps", bytes "host");
  escape_filter = λ s. if s == bytes "a*" then bytes "a\\2a" else s;
  equal_fold = λ s t. s == t;
}

abbrev config : Config
config = record {
  url = bytes "ldaps://host";
  bind_dn = bytes "svc";
  bind_password = bytes "pw";
  user_base = bytes "dc=x";
  user_filter = bytes "(uid={username})";
  user_group_dn = bytes "users";
  admin_group_dn = bytes "admins";
}

abbrev alice : Entry
alice = record {
  dn = bytes "cn=al";
  mail = bytes "a@x";
  member_of = bytes "users" ∷ bytes "admins" ∷ [];
}

abbrev directory : Directory
directory = record {
  dials = λ url. true;
  binds = λ name password.
      (name == bytes "svc" && password == bytes "pw")
      || (name == bytes "cn=al" && password == bytes "secret");
  search = λ base filter.
      if filter == bytes "(uid=al)" then some (some (alice ∷ [])) else some (some []);
}

abbrev administrator : Identity
administrator = record {
  username = bytes "al";
  email = bytes "a@x";
  role = role_admin;
  source = ldap;
}

authenticate-Granted_example :
    ((authenticate library config directory false (bytes " al ") (bytes "secret")
        ≡ ok administrator)
      ↔ Granted library config directory false
          (trim_space (bytes " al "))
          (bytes "secret")
          administrator)
    × Placed library config
unfolding new_provider validate_config count count_from cut_at cut_or cons_before cut_prefix
    list_beq username_mark trim_space
authenticate-Granted_example =
    authenticate-Granted library config config directory false (bytes " al ") (bytes "secret")
      administrator refl

-- The administrator is let in, a star finds nobody, and an empty password is refused.
let_in :
    authenticate library config directory false (bytes " al ") (bytes "secret") ≡ ok administrator
unfolding authenticate authenticate_trimmed authenticate_as find_user filter_for replace_first
    replaced one_entry role_for_groups includes_dn bound identity_of cut_at cut_or cons_before
    cut_prefix list_beq username_mark trim_space has_prefix static_username_prefix
let_in = refl

star_refused :
    authenticate library config directory false (bytes "a*") (bytes "secret")
    ≡ err invalid_credentials
unfolding authenticate authenticate_trimmed authenticate_as find_user filter_for replace_first
    replaced one_entry role_for_groups includes_dn bound identity_of cut_at cut_or cons_before
    cut_prefix list_beq username_mark trim_space has_prefix static_username_prefix
star_refused = refl

unauthenticated_bind_refused :
    authenticate library config directory false (bytes "al") [] ≡ err invalid_credentials
unfolding authenticate authenticate_trimmed list_beq trim_space has_prefix static_username_prefix
unauthenticated_bind_refused = refl
