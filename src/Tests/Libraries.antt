-- ===== src/Tests/Libraries.antt =====
-- Concrete libraries for the tests.
use mathlib.Core.Bool.{Bool-discrete}
use nauth.Common.{
  ℤ, pos, negsuc, ℤ-discrete, String, true, false, not, ◌&&◌, none, [], ◌∷◌, ok, is_yes,
}
use nauth.Jwt
use nauth.Jwt.{Library, KeyPair}
use nauth.Domain.Names.{K8s, is_nil}
use nauth.Secrets.{Hashing}

abbrev pub no_limit : ℤ
no_limit = negsuc 0

abbrev pub fresh_limits : Jwt.OperatorLimits
fresh_limits = record {
  nats = record { subs = no_limit; dat = no_limit; payload = no_limit };
  account = record {
    imports = no_limit;
    exports = no_limit;
    wildcard_exports = true;
    disallow_bearer = false;
    conn = no_limit;
    leaf_node_conn = no_limit;
  };
  jet_stream = record {
    memory_storage = pos 0;
    disk_storage = pos 0;
    streams = pos 0;
    consumer = pos 0;
    max_ack_pending = pos 0;
    memory_max_stream_bytes = pos 0;
    disk_max_stream_bytes = pos 0;
    max_bytes_required = false;
  };
  jet_stream_tiered = [];
}

abbrev pub fresh_claims : String → Jwt.AccountClaims
fresh_claims subject = record {
  subject = subject;
  issuer = "operator";
  issued_at = pos 0;
  id = "";
  name = "";
  limits = fresh_limits;
  signing_keys = [];
  exports = [];
  imports = [];
}

abbrev pub fresh_user : String → Jwt.UserClaims
fresh_user subject = record {
  subject = subject;
  name = "";
  expires = pos 0;
  issuer = "";
  issued_at = pos 0;
  id = "";
  not_before = pos 0;
  audience = "";
  issuer_account = "";
  publish = record { allow = []; deny = [] };
  subscribe = record { allow = []; deny = [] };
  resp = none;
  src = [];
  times = [];
  locale = "";
  limits = fresh_limits.nats;
  bearer_token = false;
  proxy_required = false;
  allowed_connection_types = [];
  tags = [];
  type = "";
  version = pos 0;
}

unfoldable pub AccountLimits-discrete : Discrete Jwt.AccountLimits
AccountLimits-discrete = hlevel (ℤ-discrete, Bool-discrete)

unfoldable pub NatsLimits-discrete : Discrete Jwt.NatsLimits
NatsLimits-discrete = hlevel ℤ-discrete

abbrev pub key : String → KeyPair
key handle = record { handle = handle }

-- A JWT is its own ID here, and a key is its own seed and public key.
abbrev pub library : Library
library = record {
  no_limit = no_limit;
  new_account_claims = fresh_claims;
  is_js_enabled = λ l. not (is_yes (ℤ-discrete l.jet_stream.memory_storage (pos 0)));
  account_limits_is_unlimited = λ l. is_yes (AccountLimits-discrete l fresh_limits.account);
  nats_limits_is_unlimited = λ l. is_yes (NatsLimits-discrete l fresh_limits.nats);
  signing_keys_add = λ k ks. k ∷ ks;
  validate_exports = λ es. record { is_blocking = false; errors = [] };
  validate_imports = λ a is. record { is_blocking = false; errors = [] };
  public_key = λ k. ok k.handle;
  seed = λ k. ok k.handle;
  from_seed = λ s. ok (key s);
  parse_decorated_jwt = λ s. ok s;
  decode_user_issuer_account = λ s. ok "SYS";
  decode_account_claims = λ s. ok (record (fresh_claims "A") { id = s });
  validate_account_claims = λ c. [];
  marshal_account_claims = λ c. ok c.subject;
  sha256_hex = λ s. s;
  new_user_claims = fresh_user;
  permission_is_empty = λ p. is_nil p.allow && is_nil p.deny;
  validate_user_claims = λ c. [];
  format_user_config = λ j s. ok j;
}

abbrev pub k8s : K8s
k8s = record {
  validate_namespace_name = λ n. [];
  name_is_dns_subdomain = λ n. [];
  namespaced_name_string = λ namespace name. name;
}

abbrev pub hashing : Hashing
hashing = record { md5_hex = λ s. s }
