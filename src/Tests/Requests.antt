-- ===== src/Tests/Requests.antt =====
-- Runs of internal/httpapi and internal/config.
use cliproxy_new.Base.{
  refl, false, Option, none, some, [], ◌∷◌, list_eq, nat_eq, ◌==◌, list_beq, GoString, bytes,
  trim_space, has_prefix, if◌then◌else◌,
}
use cliproxy_new.Http.Cors.{
  Request, Allowed, cors, is_management_path, is_allowed, headers, IsGrant, cors-IsGrant,
}
use cliproxy_new.Config.{
  Config, Url, validate, production, is_environment, valid_cors_origins, is_origin_url,
}
use cliproxy_new.Config.Valid.{Sound, validate-Sound}

abbrev app : GoString
app = bytes "https://app"

abbrev from_app : Request
from_app = record {
  path = bytes "/api/v1/me";
  method = bytes "GET";
  origin = app;
  requested_method = [];
}

abbrev to_app : Allowed
to_app = record {
  allow_origin = app;
  allow_credentials = bytes "true";
  expose_headers = bytes "X-Request-ID";
  vary = bytes "Origin";
  allow_methods = none;
  allow_headers = none;
}

cors-IsGrant_example : IsGrant (app ∷ []) from_app to_app
unfolding cors is_management_path is_allowed headers list_beq has_prefix
cors-IsGrant_example = cors-IsGrant (app ∷ []) from_app to_app refl

-- One URL: https://app.
abbrev parse : GoString → Option Url
parse s =
    if s == app
    then some (record {
      scheme = bytes "https";
      host = bytes "app";
      has_user = false;
      path = [];
      raw_query = [];
      force_query = false;
      fragment = [];
    })
    else none

abbrev static_config : Config
static_config = record {
  server = record { addr = []; environment = bytes " test"; cors_allowed_origins = app ∷ [] };
  auth = record {
    mode = bytes "static";
    static_username = bytes "dev";
    static_password = bytes "pw";
    static_role = bytes "admin";
  };
  dsn = [];
  log_level = [];
}

validate-Sound_example : Sound parse (validate parse static_config).0
unfolding validate valid_cors_origins is_origin_url is_environment production list_beq trim_space
validate-Sound_example = validate-Sound parse static_config refl
