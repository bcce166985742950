-- ===== src/Tests/Clusters.antt =====
-- The theorems about clusters at a concrete configuration.
use nauth.Common.{false, none, some, [], ◌∷◌, ok, ◌≡◌, refl}
use nauth.Domain.Names
use nauth.Domain.Creds
use nauth.Domain.Cluster
use nauth.Domain.Cluster.{ClusterTarget, ClusterRef, validate_ref}
use nauth.Effects
use nauth.Effects.{World, done}
use nauth.Effects.Fallible
use nauth.Cluster.{Config, get_effective_cluster_ref, get_cluster_target, validate_cluster}
use nauth.Cluster.Resolved.{IsChosen, IsAllowed, get_cluster_target-eq-ok, validate_cluster-eq-ok}
use nauth.Tests.Fixtures.{k8s, world, cluster}

-- An operator with one cluster for all accounts.
abbrev config : Config
config = record {
  operator_nats_cluster = some (record { cluster_ref = "ns/main"; optional = false });
  operator_namespace = "";
}

abbrev one_cluster : World
one_cluster = record world { get_target = λ h r. ok cluster }

get_cluster_target-eq-ok_example :
    (r : ClusterRef) × (validate_ref k8s r ≡ none)
    × IsChosen none (some "ns/main") r
    × IsAllowed config.operator_nats_cluster r
    × (one_cluster.get_target [] r ≡ ok cluster)
    × (Cluster.validate cluster ≡ none)
    × ((get_cluster_target k8s one_cluster config none []).1
        ≡ done (Effects.Call.get_target r) ∷ [])
unfolding get_cluster_target get_effective_cluster_ref validate_ref Cluster.as_namespaced_name
    Names.parse_namespaced_name Names.split_n Names.validate Names.is_blank Cluster.validate
    Creds.validate Fallible.◌>>=◌ Fallible.lift Fallible.wrapping Fallible.pure Effects.perform
get_cluster_target-eq-ok_example =
    get_cluster_target-eq-ok k8s one_cluster config none [] cluster refl

validate_cluster-eq-ok_example :
    (Cluster.validate cluster ≡ none)
    × (world.connect_system [] cluster.nats_url cluster.system_admin_creds ≡ none)
    × ((validate_cluster k8s world cluster []).1
        ≡ done Effects.Call.disconnect_system
          ∷ done Effects.Call.verify_system_account_access
          ∷ done (Effects.Call.connect_system cluster.nats_url cluster.system_admin_creds)
          ∷ [])
unfolding validate_cluster Cluster.validate Creds.validate Fallible.◌>>=◌ Fallible.lift
    Fallible.wrapping Effects.perform_check Effects.perform Effects.deferred
validate_cluster-eq-ok_example = validate_cluster-eq-ok k8s world cluster [] tt refl
