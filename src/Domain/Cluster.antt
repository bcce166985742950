-- ===== src/Domain/Cluster.antt =====
-- internal/domain/nauth/cluster.go: cluster targets and cluster references.
use nauth.Common.{
  String, Option, none, some, [], ◌∷◌, Error, Result, ok, err, str, errorf, wrapf, wrap, and_then,
  check, ◌==◌, if◌then◌else◌,
}
use nauth.Jwt.{KeyPair}
use nauth.Domain.Names.{K8s, NamespacedName, parse_namespaced_name}
use nauth.Domain.Creds
use nauth.Domain.Creds.{NatsUserCreds}

pub record ClusterTarget : Type 0 where
  pub uid : String
  pub nats_url : String
  pub system_admin_creds : NatsUserCreds
  pub operator_signing_key : Option KeyPair

unfoldable pub validate : ClusterTarget → Option Error
validate c =
    if c.uid == ""
    then some (errorf "UID is required" [])
    else if c.nats_url == ""
    then some (errorf "URL is required" [])
    else elim (Creds.validate c.system_admin_creds) [
      | some e ↦ some (wrapf "invalid system admin credentials: %w" [] e)
      | none ↦ elim c.operator_signing_key [
        | none ↦ some (errorf "operator signing key is required" [])
        | some _ ↦ none
      ]
    ]

unfoldable pub new_cluster_target :
    String → String → NatsUserCreds → Option KeyPair → Result ClusterTarget
new_cluster_target uid nats_url creds key =
    let target : ClusterTarget = record {
      uid = uid;
      nats_url = nats_url;
      system_admin_creds = creds;
      operator_signing_key = key;
    } in
    and_then (wrap "invalid cluster target: %w" [] (check (validate target))) λ _. ok target

abbrev pub ClusterRef : Type 0
ClusterRef = String

pub data ClusterRefType : Type 0 where
  unknown namespaced_name : ClusterRefType

module _ (k8s : K8s) where
  unfoldable pub as_namespaced_name : ClusterRef → Result NamespacedName
  as_namespaced_name r =
      wrap "invalid cluster ref %q (expected NamespacedName): %w" (str r ∷ [])
        (parse_namespaced_name k8s r)

  unfoldable pub validate_ref : ClusterRef → Option Error
  unfolding as_namespaced_name
  validate_ref r = elim (as_namespaced_name r) [ ok _ ↦ none | err e ↦ some e ]

  unfoldable pub get_type : ClusterRef → ClusterRefType
  unfolding as_namespaced_name
  get_type r = elim (as_namespaced_name r) [ ok _ ↦ namespaced_name | err _ ↦ unknown ]

  unfoldable pub new_cluster_ref : String → Result ClusterRef
  new_cluster_ref value = and_then (check (validate_ref value)) λ _. ok value
