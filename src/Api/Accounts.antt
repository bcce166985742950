-- ===== src/Api/Accounts.antt =====
-- api/v1alpha1/account_types.go: accounts.
use nauth.Common.{ℕ, ℤ, String, Bool, Option, List}
use nauth.Api.{ObjectMeta, Condition, Text}

abbrev pub account_label_account_id : String
account_label_account_id = "account.nauth.io/id"

abbrev pub account_label_signed_by : String
account_label_signed_by = "account.nauth.io/signed-by"

abbrev pub account_label_nats_cluster_id : String
account_label_nats_cluster_id = "account.nauth.io/nats-cluster-id"

abbrev pub account_label_management_policy : String
account_label_management_policy = "nauth.io/management-policy"

abbrev pub account_management_policy_observe : String
account_management_policy_observe = "observe"

-- `ExportType` and `ResponseType` are strings.
abbrev pub stream : String
stream = "stream"

abbrev pub service : String
service = "service"

abbrev pub response_type_singleton : String
response_type_singleton = "Singleton"

abbrev pub response_type_stream : String
response_type_stream = "Stream"

abbrev pub response_type_chunked : String
response_type_chunked = "Chunked"

pub record NatsClusterRef : Type 0 where
  pub name : String
  pub namespace : String

pub record AccountRef : Type 0 where
  pub name : String
  pub namespace : String

pub record JetStreamLimits : Type 0 where
  pub memory_storage : Option ℤ
  pub disk_storage : Option ℤ
  pub streams : Option ℤ
  pub consumer : Option ℤ
  pub max_ack_pending : Option ℤ
  pub memory_max_stream_bytes : Option ℤ
  pub disk_max_stream_bytes : Option ℤ
  pub max_bytes_required : Option Bool

pub record AccountLimits : Type 0 where
  pub imports : Option ℤ
  pub exports : Option ℤ
  pub wildcard_exports : Option Bool
  pub conn : Option ℤ
  pub leaf_node_conn : Option ℤ

pub record NatsLimits : Type 0 where
  pub subs : Option ℤ
  pub dat : Option ℤ
  pub payload : Option ℤ

pub record ServiceLatency : Type 0 where
  pub sampling : ℤ
  pub results : String

pub record Export : Type 0 where
  pub name : String
  pub subject : String
  pub type : String
  pub token_req : Bool
  pub revocations : Option (List (String × ℤ))
  pub response_type : String
  pub response_threshold : ℤ
  pub latency : Option ServiceLatency
  pub account_token_position : ℕ
  pub advertise : Bool
  pub allow_trace : Bool

pub record Import : Type 0 where
  pub account_ref : AccountRef
  pub name : String
  pub subject : String
  pub account : String
  pub local_subject : String
  pub type : String
  pub share : Bool
  pub allow_trace : Bool

pub record AccountSpec : Type 0 where
  pub nats_cluster_ref : Option NatsClusterRef
  pub display_name : String
  pub jet_stream_enabled : Option Bool
  pub account_limits : Option AccountLimits
  pub exports : List Export
  pub imports : List Import
  pub jet_stream_limits : Option JetStreamLimits
  pub nats_limits : Option NatsLimits

-- A signing key is a struct of its key alone.
pub record AccountClaims : Type 0 where
  pub account_limits : Option AccountLimits
  pub display_name : String
  pub signing_keys : List String
  pub exports : List Export
  pub imports : List Import
  pub jet_stream_enabled : Option Bool
  pub jet_stream_limits : Option JetStreamLimits
  pub nats_limits : Option NatsLimits

pub record AccountAdoptionStatus : Type 0 where
  pub status : String
  pub desired_claim_observed_generation : Option ℤ
  pub reason : String
  pub message : Text

pub record AccountAdoption : Type 0 where
  pub name : String
  pub uid : String
  pub observed_generation : ℤ
  pub status : AccountAdoptionStatus

pub record AccountAdoptions : Type 0 where
  pub exports : List AccountAdoption
  pub imports : List AccountAdoption

pub record AccountStatus : Type 0 where
  pub claims : Option AccountClaims
  pub claims_hash : String
  pub adoptions : Option AccountAdoptions
  pub conditions : List Condition
  pub observed_generation : ℤ
  pub reconcile_timestamp : ℕ
  pub operator_version : String

pub record Account : Type 0 where
  pub meta : ObjectMeta
  pub spec : AccountSpec
  pub status : AccountStatus
