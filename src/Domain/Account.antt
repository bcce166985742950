-- ===== src/Domain/Account.antt =====
-- internal/domain/nauth/account.go: account requests, references, results and their parts.
-- Pointers to structs in the groups are never nil there, and stand for the structs.
pub mod Requests
use nauth.Common.{
  ℕ, ℤ, String, Bool, false, Option, none, some, List, [], ◌∷◌, map, Error, Result, err, str,
  errorf, wrapf, any, ◌==◌, if◌then◌else◌,
}
use nauth.Domain.Names
use nauth.Domain.Names.{K8s, NamespacedName}
use nauth.Domain.Cluster
use nauth.Domain.Cluster.{ClusterTarget}

abbrev pub Ref : Type 0
Ref = String

abbrev pub AccountId : Type 0
AccountId = String

-- `ExportType` and `ResponseType` are strings.
abbrev pub export_type_unknown : String
export_type_unknown = "unknown"

abbrev pub export_type_stream : String
export_type_stream = "stream"

abbrev pub export_type_service : String
export_type_service = "service"

abbrev pub response_type_singleton : String
response_type_singleton = "singleton"

abbrev pub response_type_stream : String
response_type_stream = "stream"

abbrev pub response_type_chunked : String
response_type_chunked = "chunked"

pub record AccountLimits : Type 0 where
  pub imports : Option ℤ
  pub exports : Option ℤ
  pub wildcard_exports : Option Bool
  pub disallow_bearer : Option Bool
  pub conn : Option ℤ
  pub leaf_node_conn : Option ℤ

pub record JetStreamLimits : Type 0 where
  pub memory_storage : Option ℤ
  pub disk_storage : Option ℤ
  pub streams : Option ℤ
  pub consumer : Option ℤ
  pub max_ack_pending : Option ℤ
  pub memory_max_stream_bytes : Option ℤ
  pub disk_max_stream_bytes : Option ℤ
  pub max_bytes_required : Option Bool

pub record NatsLimits : Type 0 where
  pub subs : Option ℤ
  pub dat : Option ℤ
  pub payload : Option ℤ

pub record Import : Type 0 where
  pub account_id : AccountId
  pub name : String
  pub subject : String
  pub local_subject : String
  pub type : String
  pub share : Bool
  pub allow_trace : Bool

pub record ImportGroup : Type 0 where
  pub ref : Ref
  pub required : Bool
  pub name : String
  pub imports : List Import

pub record ServiceLatency : Type 0 where
  pub sampling : ℤ
  pub results : String

-- A map as the list of its entries in the order of the keys; a nil map is `none`.
abbrev pub RevocationList : Type 0
RevocationList = Option (List (String × ℤ))

pub record Export : Type 0 where
  pub name : String
  pub subject : String
  pub type : String
  pub token_req : Bool
  pub revocations : RevocationList
  pub response_type : String
  pub response_threshold : ℤ
  pub latency : Option ServiceLatency
  pub account_token_position : ℕ
  pub advertise : Bool
  pub allow_trace : Bool

pub record ExportGroup : Type 0 where
  pub ref : Ref
  pub required : Bool
  pub name : String
  pub exports : List Export

pub record AccountRequest : Type 0 where
  pub account_ref : NamespacedName
  pub account_id : AccountId
  pub claims_hash : String
  pub display_name : String
  pub cluster_target : ClusterTarget
  pub account_limits : Option AccountLimits
  pub jet_stream_enabled : Option Bool
  pub jet_stream_limits : Option JetStreamLimits
  pub nats_limits : Option NatsLimits
  pub export_groups : List ExportGroup
  pub import_groups : List ImportGroup

pub record AccountReference : Type 0 where
  pub account_ref : NamespacedName
  pub account_id : AccountId
  pub cluster_target : ClusterTarget

-- A nil slice is the empty list. A signing key is a struct of its key alone.
pub record AccountClaims : Type 0 where
  pub account_id : AccountId
  pub display_name : String
  pub account_limits : Option AccountLimits
  pub jet_stream_enabled : Option Bool
  pub jet_stream_limits : Option JetStreamLimits
  pub nats_limits : Option NatsLimits
  pub signing_keys : List String
  pub exports : List Export
  pub imports : List Import

-- The loop over the groups' references, with the references seen so far.
unfoldable pub validate_refs : String → String → List Ref → List Ref → Option Error
validate_refs required duplicate seen [] = none
validate_refs required duplicate seen (ref ∷ refs) =
    let rest = validate_refs required duplicate (ref ∷ seen) refs in
    if ref == ""
    then some (errorf required [])
    else if any (λ r. r == ref) seen
    then some (errorf duplicate (str ref ∷ []))
    else rest

unfoldable pub validate_export_groups : List ExportGroup → Option Error
unfolding validate_refs
validate_export_groups groups =
    validate_refs "export group ref is required" "duplicate export group ref: %q" []
      (map (λ g. g.ref) groups)

unfoldable pub validate_import_groups : List ImportGroup → Option Error
unfolding validate_refs
validate_import_groups groups =
    validate_refs "import group ref is required" "duplicate import group ref: %q" []
      (map (λ g. g.ref) groups)

-- `if err != nil { return err }`, and what follows.
abbrev pub first_error : Option Error → Option Error → Option Error
first_error (some e) rest = some e
first_error none rest = rest

module _ (k8s : K8s) where
  -- `AccountReference.Validate`, and the first half of `AccountRequest.Validate`.
  unfoldable pub validate_target : NamespacedName → ClusterTarget → Option Error
  validate_target account_ref cluster_target = elim (Names.validate k8s account_ref) [
    | some e ↦ some (wrapf "invalid account reference: %w" [] e)
    | none ↦ elim (Cluster.validate cluster_target) [
      | some e ↦ some (wrapf "invalid cluster target: %w" [] e)
      | none ↦ none
    ]
  ]

  unfoldable pub validate : AccountRequest → Option Error
  validate r = first_error (validate_target r.account_ref r.cluster_target) (
      first_error (validate_export_groups r.export_groups) (validate_import_groups r.import_groups))

  unfoldable pub validate_reference : AccountReference → Option Error
  validate_reference r = validate_target r.account_ref r.cluster_target
