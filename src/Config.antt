-- ===== src/Config.antt =====
-- internal/config/config.go: the part of the configuration that `Validate` reads, the overrides by
-- the environment, and the validation before any connection is made. `url.ParseRequestURI` is a
-- parameter. YAML, the file and the other sections are left out.
pub mod Valid
use cliproxy_new.Base.{
  ℕ, Bool, true, false, ◌&&◌, ◌||◌, not, Option, none, some, List, [], ◌∷◌, list_eq, nat_eq,
  if◌then◌else◌, ◌==◌, is_empty, GoString, bytes, trim_space, split,
}

pub record ServerConfig : Type 0 where
  pub addr : GoString
  pub environment : GoString
  pub cors_allowed_origins : List GoString

pub record AuthConfig : Type 0 where
  pub mode : GoString
  pub static_username : GoString
  pub static_password : GoString
  pub static_role : GoString

pub record Config : Type 0 where
  pub server : ServerConfig
  pub auth : AuthConfig
  pub dsn : GoString
  pub log_level : GoString

-- The error that `Validate` returns, if any.
pub data ConfigError : Type 0 where
  unknown_environment invalid_origin unknown_mode : ConfigError
  static_in_production no_static_credentials unknown_role : ConfigError

-- A `url.URL`; `has_user` for a user that is not nil, `force_query` for an empty query behind a `?`.
pub record Url : Type 0 where
  pub scheme : GoString
  pub host : GoString
  pub has_user : Bool
  pub path : GoString
  pub raw_query : GoString
  pub force_query : Bool
  pub fragment : GoString

unfoldable pub production : GoString
production = bytes "production"

unfoldable pub is_environment : GoString → Bool
unfolding production
is_environment e = e == bytes "development" || e == bytes "test" || e == production

unfoldable pub default : Config
unfolding production
default = record {
  server = record { addr = bytes ":8080"; environment = production; cors_allowed_origins = [] };
  auth = record {
    mode = bytes "ldap";
    static_username = [];
    static_password = [];
    static_role = [];
  };
  dsn = [];
  log_level = bytes "info";
}

-- The variables of the environment; the origins tell an unset variable from an empty one.
pub record Environment : Type 0 where
  pub server_addr : GoString
  pub db_dsn : GoString
  pub log_level : GoString
  pub server_environment : GoString
  pub auth_mode : GoString
  pub cors_allowed_origins : Option GoString
  pub static_username : GoString
  pub static_password : GoString
  pub static_role : GoString

-- A value that is set replaces the old one.
override : GoString → GoString → GoString
override [] old = old
override (c ∷ v) old = c ∷ v

keep_filled : List GoString → List GoString
keep_filled [] = []
keep_filled (part ∷ parts) =
    let rest = keep_filled parts in
    if is_empty (trim_space part) then rest else trim_space part ∷ rest

pub split_csv : GoString → List GoString
unfolding keep_filled
split_csv value = keep_filled (split value b',')

override_origins : Option GoString → List GoString → List GoString
unfolding split_csv
override_origins none old = old
override_origins (some value) old = split_csv value

unfoldable pub apply_env_overrides : Environment → Config → Config
unfolding override override_origins
apply_env_overrides e c = record {
  server = record {
    addr = override e.server_addr c.server.addr;
    environment = override (trim_space e.server_environment) c.server.environment;
    cors_allowed_origins = override_origins e.cors_allowed_origins c.server.cors_allowed_origins;
  };
  auth = record {
    mode = override (trim_space e.auth_mode) c.auth.mode;
    static_username = e.static_username;
    static_password = e.static_password;
    static_role = e.static_role;
  };
  dsn = override e.db_dsn c.dsn;
  log_level = override (trim_space e.log_level) c.log_level;
}

unfoldable pub from_environment : Environment → Config
from_environment e = apply_env_overrides e default

unfoldable pub is_origin_url : Option Url → Bool
is_origin_url none = false
is_origin_url (some u) =
    not (
      is_empty u.scheme
      || is_empty u.host
      || u.has_user
      || not (is_empty u.path)
      || not (is_empty u.raw_query)
      || not (is_empty u.fragment))
    && (u.scheme == bytes "http" || u.scheme == bytes "https")

-- The tests in the order of the code, behind the trimmed environment and mode.
static_error : Config → Option ConfigError
static_error c =
    if c.server.environment == production
    then some static_in_production
    else (if is_empty (trim_space c.auth.static_username) || is_empty c.auth.static_password
        then some no_static_credentials
        else (if trim_space c.auth.static_role == bytes "user"
              || trim_space c.auth.static_role == bytes "admin"
            then none
            else some unknown_role))

mode_error : Config → Option ConfigError
unfolding static_error
mode_error c =
    if c.auth.mode == bytes "ldap"
    then none
    else (if c.auth.mode == bytes "static" then static_error c else some unknown_mode)

trimmed : Config → Config
trimmed c = record c {
  server = record c.server { environment = trim_space c.server.environment };
  auth = record c.auth { mode = trim_space c.auth.mode };
}

module _ (parse_request_uri : GoString → Option Url) where
  unfoldable pub valid_cors_origins : List GoString → Bool
  unfolding is_origin_url
  valid_cors_origins [] = true
  valid_cors_origins (o ∷ os) =
      if is_origin_url (parse_request_uri o) then valid_cors_origins os else false

  config_error : Config → Option ConfigError
  unfolding mode_error
  config_error c =
      if is_environment c.server.environment
      then (if valid_cors_origins c.server.cors_allowed_origins
          then mode_error c
          else some invalid_origin)
      else some unknown_environment

  -- The configuration is left with its trimmed environment and mode.
  unfoldable pub validate : Config → Config × Option ConfigError
  unfolding config_error trimmed
  validate c = (trimmed c, config_error (trimmed c))
