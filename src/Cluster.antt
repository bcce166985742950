-- ===== src/Cluster.antt =====
-- internal/core/cluster.go and internal/core/config.go: the operator's configuration, and which
-- cluster an account belongs to.
pub mod Resolved
use nauth.Common.{
  String, Bool, true, false, not, Option, none, some, [], ◌∷◌, Error, Result, ok, err, str, errorf,
  wrapf, wrap, and_then, check, reject, ◌==◌, ◌&&◌, if◌then◌else◌,
}
use nauth.Domain.Names.{K8s}
use nauth.Domain.Names
use nauth.Domain.Cluster
use nauth.Domain.Cluster.{ClusterTarget, ClusterRef, validate_ref}
use nauth.Effects
use nauth.Effects.{World, Fallible, perform, perform_check, deferred}
use nauth.Effects.Fallible.{◌>>=◌, ◌>>◌, pure, lift, wrapping}

pub record OperatorNatsCluster : Type 0 where
  pub cluster_ref : ClusterRef
  pub optional : Bool

pub record Config : Type 0 where
  pub operator_nats_cluster : Option OperatorNatsCluster
  pub operator_namespace : String

module _ (k8s : K8s) where
  unfoldable pub validate_operator_nats_cluster : OperatorNatsCluster → Option Error
  validate_operator_nats_cluster c = validate_ref k8s c.cluster_ref

  unfoldable pub new_operator_nats_cluster : ClusterRef → Bool → Result OperatorNatsCluster
  new_operator_nats_cluster cluster_ref optional =
      let cluster : OperatorNatsCluster = record {
        cluster_ref = cluster_ref;
        optional = optional;
      } in
      and_then (check (validate_operator_nats_cluster cluster)) λ _. ok cluster

  abbrev pub check_cluster : Option OperatorNatsCluster → Result (Unit {0})
  check_cluster none = ok tt
  check_cluster (some c) =
      wrap "invalid operator NATS cluster: %w" [] (check (validate_operator_nats_cluster c))

  abbrev pub check_namespace : String → Result (Unit {0})
  check_namespace n =
      if n == ""
      then ok tt
      else wrap "invalid operator namespace %q: %s" (str n ∷ [])
          (check (Names.validate_namespace k8s n))

  unfoldable pub validate_config : Config → Result (Unit {0})
  validate_config c =
      and_then (check_cluster c.operator_nats_cluster) λ _. check_namespace c.operator_namespace

  unfoldable pub new_config : Option OperatorNatsCluster → String → Result Config
  unfolding validate_config
  new_config cluster namespace =
      let config : Config = record {
        operator_nats_cluster = cluster;
        operator_namespace = namespace;
      } in
      and_then (validate_config config) λ _. ok config

  -- The cluster reference of the operator, if any, and whether accounts must not deviate from it.
  abbrev pub op_cluster_config : Config → Option ClusterRef × Bool
  op_cluster_config config = elim config.operator_nats_cluster [
    | none ↦ (none, false)
    | some cluster ↦ (some cluster.cluster_ref, not cluster.optional)
  ]

  -- The operator's reference in the presence of an account's one.
  abbrev pub check_required : ClusterRef → Option ClusterRef → Bool → Result (Unit {0})
  check_required account_ref (some op_ref) true =
      and_then (wrap "invalid operator cluster ref: %w" [] (check (validate_ref k8s op_ref))) λ _.
        reject (not (op_ref == account_ref)) (
          errorf "account cluster reference %s does not match required operator cluster %s"
            (str account_ref ∷ str op_ref ∷ []))
  check_required account_ref (some _) false = ok tt
  check_required account_ref none required = ok tt

  unfoldable pub get_effective_cluster_ref :
      Option ClusterRef → Option ClusterRef → Bool → Result ClusterRef
  get_effective_cluster_ref (some account_ref) op_ref required =
      and_then (wrap "invalid account cluster ref: %w" [] (check (validate_ref k8s account_ref)))
        λ _. and_then (check_required account_ref op_ref required) λ _. ok account_ref
  get_effective_cluster_ref none (some op_ref) required =
      and_then (wrap "invalid operator cluster ref: %w" [] (check (validate_ref k8s op_ref)))
        λ _. ok op_ref
  get_effective_cluster_ref none none required =
      err (errorf "no cluster reference provided and no operator cluster configured" [])

module _ (k8s : K8s) (world : World) where
  unfoldable pub get_cluster_target : Config → Option ClusterRef → Fallible ClusterTarget
  get_cluster_target config account_cluster_ref = do
    let op = op_cluster_config k8s config
    cluster_ref ← lift (get_effective_cluster_ref k8s account_cluster_ref op.0 op.1)
    result ←
        wrapping "resolve cluster target %q: %w" (str cluster_ref ∷ [])
          (perform (Effects.Call.get_target cluster_ref) (λ h. world.get_target h cluster_ref))
    lift (wrap "invalid cluster target: %w" [] (check (Cluster.validate result)))
    pure result

  -- `ClusterManager.Validate`.
  unfoldable pub validate_cluster : ClusterTarget → Fallible (Unit {0})
  validate_cluster target = do
    lift (wrap "invalid cluster target: %w" [] (check (Cluster.validate target)))
    wrapping "connect to NATS cluster using System Account User Credentials: %w" [] (
        perform_check (Effects.Call.connect_system target.nats_url target.system_admin_creds)
          (λ h. world.connect_system h target.nats_url target.system_admin_creds))
    deferred Effects.Call.disconnect_system (
        wrapping "verify NATS System Account access: %w" [] (
          perform_check Effects.Call.verify_system_account_access
            (λ h. world.verify_system_account_access h)))
