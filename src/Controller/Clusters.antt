-- ===== src/Controller/Clusters.antt =====
-- internal/adapter/inbound/controller/natscluster.go: the controller of NATS clusters.
pub mod Enqueued
pub mod Cases
pub mod Reconciled
use nauth.Common.{
  ℤ-discrete, is_yes, String, Bool, true, false, not, Option, none, some, List, [], ◌∷◌, length,
  Error, Result, ok, err, num, errorf, ◌==◌, ◌&&◌, if◌then◌else◌,
}
use nauth.Domain.Names.{NamespacedName, is_nil}
use nauth.Effects.{Call, KubeCall, Fallible, World, perform}
use nauth.Effects.Fallible.{◌>>=◌, ◌>>◌, pure, raise, wrapping}
use nauth.Account.Keys.{Setting, call}
use nauth.Cluster.{validate_cluster}
use nauth.Api.{Machinery, literal, is_deleted, condition_false}
use nauth.Api.Accounts.{Account}
use nauth.Api.Clusters.{NatsCluster}
use nauth.Adapter.Clusters.{resolve_cluster_target}
use nauth.Controller.{finalizer_nats_cluster, condition_type_ready, condition_reason_reconciling}
use nauth.Controller.Status.{
  Requeue, Client, new_condition, set_condition, update_status, report, reporting, report_status,
}
use nauth.Controller.Watches.{WatchEvent}

-- The labels of clusters are never patched.
abbrev pub cluster_client : World → Client NatsCluster
cluster_client world = record {
  patch_call = KubeCall.update_nats_cluster;
  patch = world.update_nats_cluster;
  update_status_call = KubeCall.update_nats_cluster_status;
  update_status = world.update_nats_cluster_status;
  conditions = λ c. c.status.conditions;
  with_conditions = λ c cs. record c { status = record (c.status) { conditions = cs } };
}

abbrev pub with_cluster_finalizers : NatsCluster → List String → NatsCluster
with_cluster_finalizers cluster finalizers = record cluster {
  meta = record (cluster.meta) { finalizers = finalizers };
}

module _ (w : Setting) (k : Machinery) (operator_version : String) where
  abbrev update_cluster : NatsCluster → Fallible NatsCluster
  update_cluster cluster =
      perform (Call.kube (KubeCall.update_nats_cluster cluster))
        (λ h. w.world.update_nats_cluster h cluster)

  unfoldable pub release_unbound : NatsCluster → List Account → Fallible Requeue
  release_unbound cluster accounts =
      if not (is_nil accounts)
      then report (cluster_client w.world) k cluster
          (errorf "delete blocked, found %d account bindings" (num (length accounts) ∷ []))
      else (do
        update_cluster (
            with_cluster_finalizers cluster
              (k.remove_finalizer cluster.meta.finalizers finalizer_nats_cluster))
        pure Requeue.never)

  -- A cluster that accounts of any namespace are bound to is kept.
  unfoldable pub delete_cluster : NatsCluster → Fallible Requeue
  unfolding release_unbound
  delete_cluster cluster = do
    accounts ←
        perform (Call.kube (KubeCall.list_cluster_accounts cluster.meta.uid))
          (λ h. w.world.list_cluster_accounts h cluster.meta.uid)
    release_unbound cluster accounts

  unfoldable pub check_cluster : NatsCluster → Fallible Requeue
  check_cluster cluster = do
    cluster ← update_status (cluster_client w.world) (
        set_condition (cluster_client w.world) k cluster (
          new_condition condition_type_ready condition_false condition_reason_reconciling
            (literal "Reconciling NatsCluster")))
    reporting (cluster_client w.world) k cluster
        (wrapping "failed to resolve NatsCluster target: %w" []
          (resolve_cluster_target w k cluster))
        λ target.
          reporting (cluster_client w.world) k cluster
            (wrapping "failed to validate NatsCluster: %w" []
              (validate_cluster w.k8s w.world target))
            λ _. do
              now ← call (λ h. (w.world.now h, h))
              report_status (cluster_client w.world) k (record cluster {
                status = record (cluster.status) {
                  observed_generation = cluster.meta.generation;
                  reconcile_timestamp = now;
                  operator_version = operator_version;
                };
              })

  -- Whether this operator has validated this generation already.
  abbrev pub is_settled : NatsCluster → Bool
  is_settled cluster =
      is_yes (ℤ-discrete cluster.status.observed_generation cluster.meta.generation)
      && cluster.status.operator_version == operator_version

  unfoldable pub reconcile_settled : NatsCluster → Fallible Requeue
  unfolding check_cluster
  reconcile_settled cluster =
      if is_settled cluster then pure Requeue.never else check_cluster cluster

  unfoldable pub reconcile_cluster : NatsCluster → Fallible Requeue
  unfolding delete_cluster reconcile_settled
  reconcile_cluster cluster =
      let (added, finalizers) = k.add_finalizer cluster.meta.finalizers finalizer_nats_cluster in
      let finalized = with_cluster_finalizers cluster finalizers in
      if is_deleted cluster.meta
      then delete_cluster cluster
      else if added
      then update_cluster finalized >> pure Requeue.immediately
      else reconcile_settled finalized

  reconcile_found : Result NatsCluster → Fallible Requeue
  unfolding reconcile_cluster
  reconcile_found (ok cluster) = reconcile_cluster cluster
  reconcile_found (err e) = if k.is_not_found (some e) then pure Requeue.never else raise e

  unfoldable pub reconcile : NamespacedName → Fallible Requeue
  unfolding reconcile_found
  reconcile request h =
      let (found, h') =
        perform (Call.kube (KubeCall.get_nats_cluster request))
          (λ h. w.world.get_nats_cluster h request) h in
      reconcile_found found h'

unfoldable pub delete_only_predicate : {R : Type 0} → WatchEvent R → Bool
delete_only_predicate (WatchEvent.create _) = false
delete_only_predicate (WatchEvent.delete _) = true
delete_only_predicate (WatchEvent.update _ _) = false
delete_only_predicate (WatchEvent.generic _) = false

unfoldable pub map_account_to_cluster : Account → List NamespacedName
map_account_to_cluster account = elim account.spec.nats_cluster_ref [
  | none ↦ []
  | some ref ↦ (record { namespace = ref.namespace; name = ref.name }) ∷ []
]
