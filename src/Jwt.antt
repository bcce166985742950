-- ===== src/Jwt.antt =====
-- What the program uses of the libraries nats-io/jwt and nats-io/nkeys: the fields that it reads
-- and writes, those that its conversions lose, and the calls that it makes, which are parameters of
-- the model.
use nauth.Common.{
  String, Bool, Option, List, ℕ, ℤ, ℤ-discrete, String-discrete, ℕ_discrete, Error, Result,
}

pub data ExportType : Type 0 where
  unknown stream service : ExportType
  other : ℕ → ExportType

-- `absent` is the empty string.
pub data ResponseType : Type 0 where
  absent singleton streamed chunked : ResponseType
  other : String → ResponseType

pub record ServiceLatency : Type 0 where
  pub sampling : ℤ
  pub results : String

-- A map as the list of its entries in the order of the keys; a nil map is `none`.
abbrev pub RevocationList : Type 0
RevocationList = Option (List (String × ℤ))

pub record Export : Type 0 where
  pub name : String
  pub subject : String
  pub type : ExportType
  pub token_req : Bool
  pub revocations : RevocationList
  pub response_type : ResponseType
  pub response_threshold : ℤ
  pub account_token_position : ℕ
  pub advertise : Bool
  pub allow_trace : Bool
  pub latency : Option ServiceLatency
  pub description : String
  pub info_url : String

pub record Import : Type 0 where
  pub account : String
  pub name : String
  pub subject : String
  pub type : ExportType
  pub local_subject : String
  pub share : Bool
  pub allow_trace : Bool
  pub token : String
  pub to : String

unfoldable pub Export-discrete : Discrete Export
Export-discrete = hlevel (String-discrete, ℤ-discrete, ℕ_discrete)

unfoldable pub Import-discrete : Discrete Import
Import-discrete = hlevel (String-discrete, ℕ_discrete)

pub record AccountLimits : Type 0 where
  pub imports : ℤ
  pub exports : ℤ
  pub wildcard_exports : Bool
  pub disallow_bearer : Bool
  pub conn : ℤ
  pub leaf_node_conn : ℤ

pub record NatsLimits : Type 0 where
  pub subs : ℤ
  pub dat : ℤ
  pub payload : ℤ

pub record JetStreamLimits : Type 0 where
  pub memory_storage : ℤ
  pub disk_storage : ℤ
  pub streams : ℤ
  pub consumer : ℤ
  pub max_ack_pending : ℤ
  pub memory_max_stream_bytes : ℤ
  pub disk_max_stream_bytes : ℤ
  pub max_bytes_required : Bool

unfoldable pub JetStreamLimits-discrete : Discrete JetStreamLimits
JetStreamLimits-discrete = hlevel ℤ-discrete

-- The tiered limits are a map from the names of the tiers.
pub record OperatorLimits : Type 0 where
  pub nats : NatsLimits
  pub account : AccountLimits
  pub jet_stream : JetStreamLimits
  pub jet_stream_tiered : List (String × JetStreamLimits)

-- The keys of a map of signing keys are listed in the order in which a `range` meets them.
pub record AccountClaims : Type 0 where
  pub subject : String
  pub issuer : String
  pub issued_at : ℤ
  pub id : String
  pub name : String
  pub limits : OperatorLimits
  pub signing_keys : List String
  pub exports : List (Option Export)
  pub imports : List (Option Import)

pub record Permission : Type 0 where
  pub allow : List String
  pub deny : List String

pub record ResponsePermission : Type 0 where
  pub max_msgs : ℤ
  pub expires : ℤ

pub record TimeRange : Type 0 where
  pub start : String
  pub finish : String

-- The standard fields of a JWT, those of the user, and the kind and the version of the claims.
pub record UserClaims : Type 0 where
  pub subject : String
  pub name : String
  pub expires : ℤ
  pub issuer : String
  pub issued_at : ℤ
  pub id : String
  pub not_before : ℤ
  pub audience : String
  pub issuer_account : String
  pub publish : Permission
  pub subscribe : Permission
  pub resp : Option ResponsePermission
  pub src : List String
  pub times : List TimeRange
  pub locale : String
  pub limits : NatsLimits
  pub bearer_token : Bool
  pub proxy_required : Bool
  pub allowed_connection_types : List String
  pub tags : List String
  pub type : String
  pub version : ℤ

-- `ValidationResults`: `IsBlocking(false)` and `Errors()`.
pub record ValidationResults : Type 0 where
  pub is_blocking : Bool
  pub errors : List Error

-- An `nkeys.KeyPair`, known by what the library answers about it.
pub record KeyPair : Type 0 where
  pub handle : String

pub record Library : Type 0 where
  pub no_limit : ℤ
  pub new_account_claims : String → AccountClaims
  pub is_js_enabled : OperatorLimits → Bool
  pub account_limits_is_unlimited : AccountLimits → Bool
  pub nats_limits_is_unlimited : NatsLimits → Bool
  pub signing_keys_add : String → List String → List String
  pub validate_exports : List (Option Export) → ValidationResults
  pub validate_imports : String → List (Option Import) → ValidationResults
  pub public_key : KeyPair → Result String
  pub seed : KeyPair → Result String
  pub from_seed : String → Result KeyPair
  pub parse_decorated_jwt : String → Result String
  -- The issuer account in the claims that `DecodeUserClaims` returns.
  pub decode_user_issuer_account : String → Result String
  pub decode_account_claims : String → Result AccountClaims
  -- `Errors()` after `Validate`.
  pub validate_account_claims : AccountClaims → List Error
  -- `json.Marshal` of the claims, and the hexadecimal SHA-256 of its bytes.
  pub marshal_account_claims : AccountClaims → Result String
  pub sha256_hex : String → String
  pub new_user_claims : String → UserClaims
  -- `Permission.Empty`.
  pub permission_is_empty : Permission → Bool
  pub validate_user_claims : UserClaims → List Error
  -- The credentials file of a user, from the JWT and the seed.
  pub format_user_config : String → String → Result String
