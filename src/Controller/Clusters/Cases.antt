-- ===== src/Controller/Clusters/Cases.antt =====
-- internal/adapter/inbound/controller/natscluster.go: the cases of a reconciliation of a cluster
-- that returns without an error, told by the cluster and by the calls.
use nauth.Common.{ℕ, String, Bool, true, false, not, [], ◌∷◌, ok, ◌≡◌}
use nauth.Domain.Cluster.{ClusterTarget}
use nauth.Effects.{Call, KubeCall, done, History}
use nauth.Account.Keys.{Setting}
use nauth.Cluster.{validate_cluster}
use nauth.Api.{Machinery, literal, is_deleted, condition_true, condition_false}
use nauth.Api.Clusters.{NatsCluster}
use nauth.Adapter.Clusters.Resolved.{IsResolved}
use nauth.Controller.{
  finalizer_nats_cluster, condition_type_ready, condition_reason_reconciled,
  condition_reason_reconciling,
}
use nauth.Controller.Status.{new_condition, set_condition}
use nauth.Controller.Clusters.{cluster_client, with_cluster_finalizers}

module _ (w : Setting) (k : Machinery) (operator_version : String) where
  -- The cluster whose generation this operator has validated at a time.
  abbrev pub as_validated : NatsCluster → ℕ → NatsCluster
  as_validated cluster now =
      set_condition (cluster_client w.world) k
        (record cluster {
          status = record (cluster.status) {
            observed_generation = cluster.meta.generation;
            reconcile_timestamp = now;
            operator_version = operator_version;
          };
        })
        (new_condition condition_type_ready condition_true condition_reason_reconciled
          (literal "Successfully reconciled"))

  abbrev pub as_finalized : NatsCluster → NatsCluster
  as_finalized cluster =
      with_cluster_finalizers cluster
        (k.add_finalizer cluster.meta.finalizers finalizer_nats_cluster).1

  abbrev pub has_finalizer : NatsCluster → Bool
  has_finalizer cluster = not (k.add_finalizer cluster.meta.finalizers finalizer_nats_cluster).0

  -- This operator has validated the cluster's generation already.
  abbrev pub IsValidated : NatsCluster → Type 0
  IsValidated cluster =
      (cluster.status.observed_generation ≡ cluster.meta.generation)
      × (cluster.status.operator_version ≡ operator_version)

  -- The cluster with the condition that a reconciliation has begun.
  abbrev pub as_started : NatsCluster → NatsCluster
  as_started cluster = set_condition (cluster_client w.world) k cluster (
      new_condition condition_type_ready condition_false condition_reason_reconciling
        (literal "Reconciling NatsCluster"))

  -- The status tells that the cluster is looked at; the target that is resolved for the cluster, as
  -- the server has it by then, has been connected to; and then the status is stored.
  pub record IsChecked (cluster : NatsCluster) (before after : History) : Type 0 where
    pub started : NatsCluster
    pub answered : w.world.update_nats_cluster_status before (as_started cluster) ≡ ok started
    pub target : ClusterTarget
    pub resolved : IsResolved w k started target
    pub connecting : History
    pub connected : (validate_cluster w.k8s w.world target connecting).0 ≡ ok tt
    pub now : ℕ
    pub stored :
        after
        ≡ done (Call.kube (KubeCall.update_nats_cluster_status (as_validated started now)))
          ∷ (validate_cluster w.k8s w.world target connecting).1

  -- What has been done, by the branch that is taken, with the history before and after it.
  pub data IsReconciled (cluster : NatsCluster) (before after : History) : Type 0 where
    deleted :
        is_deleted cluster.meta ≡ true
        → w.world.list_cluster_accounts before cluster.meta.uid ≡ ok []
        → after
          ≡ done (
              Call.kube (
                KubeCall.update_nats_cluster (
                  with_cluster_finalizers cluster
                    (k.remove_finalizer cluster.meta.finalizers finalizer_nats_cluster))))
            ∷ done (Call.kube (KubeCall.list_cluster_accounts cluster.meta.uid))
            ∷ before
        → IsReconciled cluster before after
    finalizer_added :
        is_deleted cluster.meta ≡ false
        → has_finalizer cluster ≡ false
        → after ≡ done (Call.kube (KubeCall.update_nats_cluster (as_finalized cluster))) ∷ before
        → IsReconciled cluster before after
    settled :
        is_deleted cluster.meta ≡ false
        → has_finalizer cluster ≡ true
        → IsValidated cluster
        → after ≡ before
        → IsReconciled cluster before after
    checked :
        is_deleted cluster.meta ≡ false
        → has_finalizer cluster ≡ true
        → ¬ IsValidated cluster
        → IsChecked (as_finalized cluster) before after
        → IsReconciled cluster before after
