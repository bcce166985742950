-- ===== src/Tests/NatsClusters.antt =====
-- The theorems about the resources of clusters at a concrete cluster.
use nauth.Common.{String, ◌<>◌, pos, none, some, [], ◌∷◌, ok, ◌≡◌, ◌≢◌, ◌⊎◌, refl, lookup}
use nauth.Account.Keys
use nauth.Cluster
use nauth.Common
use nauth.Controller.Converter
use nauth.Controller.Status
use nauth.Domain.Cluster as DomainCluster
use nauth.Domain.Creds
use nauth.Effects
use nauth.Effects.Fallible
use nauth.Domain.Names
use nauth.Domain.Names.{K8s, NamespacedName, to_string}
use nauth.Domain.Cluster.{ClusterTarget}
use nauth.Effects.{World}
use nauth.Secrets.{default_secret_key_name}
use nauth.Account.Keys.{Setting}
use nauth.Api.Accounts.{Account, NatsClusterRef}
use nauth.Api.Clusters.{NatsCluster}
use nauth.Adapter.Clusters.{resolve_cluster_target}
use nauth.Adapter.Clusters.Resolved.{IsResolved, resolve_cluster_target-IsResolved}
use nauth.Controller.{finalizer_nats_cluster}
use nauth.Controller.Status.{Requeue}
use nauth.Controller.Clusters.{reconcile_cluster, map_account_to_cluster}
use nauth.Controller.Clusters.Cases.{IsReconciled}
use nauth.Controller.Clusters.Reconciled.{reconcile_cluster-IsReconciled}
use nauth.Controller.Clusters.Enqueued.{map_account_to_cluster-enqueued}
use nauth.Tests.Fixtures.{account, account_meta, account_spec, cluster, k8s, key, setting, world}
use nauth.Tests.Machinery.{machinery}

-- A new generation of the cluster "main".
abbrev nats_cluster : NatsCluster
nats_cluster = record {
  meta = record account_meta {
    name = "main";
    uid = "uid";
    labels = [];
    finalizers = finalizer_nats_cluster ∷ [];
  };
  spec = record {
    url = "nats://host";
    url_from = none;
    operator_signing_key_secret_ref = record { name = "operator"; key = "" };
    system_account_user_creds_secret_ref = record { name = "system"; key = "" };
  };
  status = record {
    conditions = [];
    observed_generation = pos 2;
    reconcile_timestamp = 0;
    operator_version = "1.0";
  };
}

-- Every secret is "creds" here.
abbrev with_secrets : Setting
with_secrets = record setting {
  world = record world { get_secret = λ h n. ok (some ((default_secret_key_name, "creds") ∷ [])) };
}

abbrev resolved : ClusterTarget
resolved = record cluster { operator_signing_key = some (key "creds") }

resolve_cluster_target-IsResolved_example : IsResolved with_secrets machinery nats_cluster resolved
unfolding resolve_cluster_target Fallible.◌>>=◌ Fallible.wrapping Fallible.lift Fallible.pure
    Effects.perform Creds.new_nats_user_creds Creds.validate DomainCluster.new_cluster_target
    DomainCluster.validate
resolve_cluster_target-IsResolved_example =
    resolve_cluster_target-IsResolved with_secrets machinery nats_cluster [] refl

reconcile_cluster-IsReconciled_example :
    IsReconciled with_secrets machinery "1.0" nats_cluster []
      (reconcile_cluster with_secrets machinery "1.0" nats_cluster []).1
unfolding reconcile_cluster machinery Common.ℤ-discrete Fallible.◌>>=◌ Status.update_status
    Effects.perform Status.reporting Fallible.wrapping resolve_cluster_target Fallible.lift
    Fallible.pure Creds.new_nats_user_creds Creds.validate DomainCluster.new_cluster_target
    DomainCluster.validate Cluster.validate_cluster Effects.perform_check Effects.deferred Keys.call
    Status.report_status
reconcile_cluster-IsReconciled_example =
    reconcile_cluster-IsReconciled with_secrets machinery "1.0" nats_cluster [] {r = Requeue.spread}
      refl

abbrev joining : K8s
joining = record k8s { namespaced_name_string = λ namespace name. namespace <> ("/" <> name) }

abbrev source : NatsClusterRef
source = record { name = "main"; namespace = "" }

-- The account refers to the cluster "main", without its namespace.
abbrev bound_account : Account
bound_account = record account { spec = record account_spec { nats_cluster_ref = some source } }

map_account_to_cluster-enqueued_example :
    (n : NamespacedName) × (map_account_to_cluster bound_account ≡ n ∷ [])
    × (((source.namespace ≢ "") × (to_string joining n ≡ "ns/main"))
        ⊎ ((source.namespace ≡ "")
            × (n.namespace ≡ "")
            × (Names.validate joining n ≢ none)
            × (to_string joining (record { namespace = "ns"; name = source.name }) ≡ "ns/main")))
unfolding map_account_to_cluster Converter.to_nauth_cluster_ref Names.validate Names.is_blank
    DomainCluster.new_cluster_ref DomainCluster.validate_ref Names.parse_namespaced_name
    Names.split_n
map_account_to_cluster-enqueued_example =
    map_account_to_cluster-enqueued joining bound_account source refl refl
