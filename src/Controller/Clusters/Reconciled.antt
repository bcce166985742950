-- ===== src/Controller/Clusters/Reconciled.antt =====
-- What the controller of clusters has done when it returns without an error.
use nauth.Common.{
  arith, ℤ-discrete, is_yes_iff, eq_iff, String, true, false, not, List, [], ◌∷◌, length, num,
  errorf, ok, ◌≡◌, refl, sym, subst, ◌∙◌, ap, inl, inr, if◌then◌else◌,
}
use nauth.Domain.Names.{is_nil}
use nauth.Effects.{Call, KubeCall, done, History, perform}
use nauth.Effects.Fallible.{◌>>=◌, pure, wrapping}
use nauth.Effects.Inversion.{then-eq-ok, wrapping-eq-ok, perform-eq-ok, if-eq-ok}
use nauth.Account.Keys.{Setting, call}
use nauth.Cluster.{validate_cluster}
use nauth.Api.{Machinery, is_deleted}
use nauth.Api.Accounts.{Account}
use nauth.Api.Clusters.{NatsCluster}
use nauth.Adapter.Clusters.{resolve_cluster_target}
use nauth.Adapter.Clusters.Resolved.{resolve_cluster_target-IsResolved}
use nauth.Controller.{finalizer_nats_cluster}
use nauth.Controller.Status.{Requeue, update_status, report, report_status}
use nauth.Controller.Status.Steps.{report-fails, reporting-eq-ok, update_status-eq-ok}
use nauth.Controller.Clusters.{
  cluster_client, with_cluster_finalizers, release_unbound, delete_cluster, check_cluster,
  is_settled, reconcile_settled, reconcile_cluster,
}
use nauth.Controller.Clusters.Cases.{
  IsReconciled, IsChecked, IsValidated, as_validated, as_finalized, as_started, has_finalizer,
}

empty-eq : (accounts : List Account) → not (is_nil accounts) ≡ false → accounts ≡ []
empty-eq [] h = refl
empty-eq (a ∷ accounts) h = cc

module _ (w : Setting) (k : Machinery) (operator_version : String) where
  is_settled-yes :
      (cluster : NatsCluster)
      → is_settled w k operator_version cluster ≡ true
      → IsValidated w k operator_version cluster
  is_settled-yes cluster h =
      let version = eq_iff cluster.status.operator_version operator_version in
      let generation =
        is_yes_iff (ℤ-discrete cluster.status.observed_generation cluster.meta.generation) in
      ground (arith, generation, version)

  is_settled-no :
      (cluster : NatsCluster)
      → is_settled w k operator_version cluster ≡ false
      → ¬ IsValidated w k operator_version cluster
  is_settled-no cluster h (same_generation, same_version) =
      let version = (eq_iff cluster.status.operator_version operator_version).1 same_version in
      let generation =
        (is_yes_iff (ℤ-discrete cluster.status.observed_generation cluster.meta.generation)).1
          same_generation in
      let all : is_settled w k operator_version cluster ≡ true = rw (generation, version) refl in cc

  release-eq-ok :
      (cluster : NatsCluster) (accounts : List Account) (h : History) {r : Requeue}
      → (release_unbound w k operator_version cluster accounts h).0 ≡ ok r
      → (accounts ≡ [])
        × ((release_unbound w k operator_version cluster accounts h).1
            ≡ done (
                Call.kube (
                  KubeCall.update_nats_cluster (
                    with_cluster_finalizers cluster
                      (k.remove_finalizer cluster.meta.finalizers finalizer_nats_cluster))))
              ∷ h)
  unfolding release_unbound pure
  release-eq-ok cluster accounts h e =
      let released =
        with_cluster_finalizers cluster
          (k.remove_finalizer cluster.meta.finalizers finalizer_nats_cluster) in
      let update =
        perform (Call.kube (KubeCall.update_nats_cluster released))
          (λ h. w.world.update_nats_cluster h released) in
      let blocked =
        report (cluster_client w.world) k cluster
          (errorf "delete blocked, found %d account bindings" (num (length accounts) ∷ [])) in
      elim (if-eq-ok (not (is_nil accounts)) blocked (update >>= λ _. pure Requeue.never) h e) [
        | inl (_, failed, _) ↦ absurd (report-fails (cluster_client w.world) k cluster _ h failed)
        | inr (empty, e1, same) ↦
            let (_, e2, _, same') = then-eq-ok update (λ _. pure Requeue.never) h e1 in
            let (_, last) = perform-eq-ok _ (λ h. w.world.update_nats_cluster h released) h e2 in
            (empty-eq accounts empty, same ∙ same' ∙ last)
      ]

  check_cluster-IsChecked :
      (cluster : NatsCluster) (h : History) {r : Requeue}
      → (check_cluster w k operator_version cluster h).0 ≡ ok r
      → IsChecked w k operator_version cluster h (check_cluster w k operator_version cluster h).1
  unfolding check_cluster report_status call pure
  check_cluster-IsChecked cluster h e =
      let client = cluster_client w.world in
      let (started, e0, e1, same) =
        then-eq-ok (update_status client (as_started w k operator_version cluster)) _ h e in
      let (answered, _) =
        update_status-eq-ok client k (as_started w k operator_version cluster) h e0 in
      let (target, e2, e3, same') =
        reporting-eq-ok client k started
          (wrapping "failed to resolve NatsCluster target: %w" []
            (resolve_cluster_target w k started))
          _ _ e1 in
      let (e2', _) = wrapping-eq-ok _ _ (resolve_cluster_target w k started) _ e2 in
      let (_, e4, e5, same'') =
        reporting-eq-ok client k started
          (wrapping "failed to validate NatsCluster: %w" [] (validate_cluster w.k8s w.world target))
          _ _ e3 in
      let (e4', same4) = wrapping-eq-ok _ _ (validate_cluster w.k8s w.world target) _ e4 in
      let (now, _, e6, same5) = then-eq-ok (call (λ h. (w.world.now h, h))) _ _ e5 in
      let (_, e7, _, same6) =
        then-eq-ok (update_status client (as_validated w k operator_version started now)) _ _ e6 in
      let (_, last) =
        update_status-eq-ok client k (as_validated w k operator_version started now) _ e7 in
      let saved = done (
        Call.kube
          (KubeCall.update_nats_cluster_status (as_validated w k operator_version started now))) in
      record {
        started = started;
        answered = answered;
        target = target;
        resolved = resolve_cluster_target-IsResolved w k started _ e2';
        connecting = _;
        connected = e4';
        now = now;
        stored = same ∙ same' ∙ same'' ∙ same5 ∙ same6 ∙ last ∙ ap (λ t. saved ∷ t) same4;
      }

  deleted-eq-ok :
      (cluster : NatsCluster) (h : History) {r : Requeue}
      → is_deleted cluster.meta ≡ true
      → (delete_cluster w k operator_version cluster h).0 ≡ ok r
      → IsReconciled w k operator_version cluster h
          (delete_cluster w k operator_version cluster h).1
  unfolding delete_cluster
  deleted-eq-ok cluster h gone e =
      let uid = cluster.meta.uid in
      let listing =
        perform (Call.kube (KubeCall.list_cluster_accounts uid))
          (λ h. w.world.list_cluster_accounts h uid) in
      let (accounts, e1, e2, same) = then-eq-ok listing _ h e in
      let (answered, listed) = perform-eq-ok _ (λ h. w.world.list_cluster_accounts h uid) h e1 in
      let (empty, last) = release-eq-ok cluster accounts _ e2 in
      let released =
        with_cluster_finalizers cluster
          (k.remove_finalizer cluster.meta.finalizers finalizer_nats_cluster) in
      IsReconciled.deleted gone (answered ∙ ap (λ a. ok a) empty) (
        same ∙ last ∙ ap (λ t. done (Call.kube (KubeCall.update_nats_cluster released)) ∷ t) listed)

  settled-eq-ok :
      (cluster : NatsCluster) (h : History) {r : Requeue}
      → is_deleted cluster.meta ≡ false
      → has_finalizer w k operator_version cluster ≡ true
      → (reconcile_settled w k operator_version (as_finalized w k operator_version cluster) h).0
        ≡ ok r
      → IsReconciled w k operator_version cluster h
          (reconcile_settled w k operator_version (as_finalized w k operator_version cluster) h).1
  unfolding reconcile_settled pure
  settled-eq-ok cluster h alive has e =
      let is_done = is_settled w k operator_version cluster in
      let check = check_cluster w k operator_version (as_finalized w k operator_version cluster) in
      elim (if-eq-ok is_done (pure Requeue.never) check h e) [
        | inl (done_so, _, same) ↦
            IsReconciled.settled alive has (is_settled-yes cluster done_so) same
        | inr (open_still, e1, same) ↦
            IsReconciled.checked alive has (is_settled-no cluster open_still) (
              subst (IsChecked w k operator_version (as_finalized w k operator_version cluster) h)
                (sym same)
                (check_cluster-IsChecked (as_finalized w k operator_version cluster) h e1))
      ]

  -- What the controller of clusters has done when it returns without an error. A cluster that is
  -- marked for deletion is let go only if no account of any namespace was listed as bound to it;
  -- one without its finalizer gets it, which is the only call; one whose generation this operator
  -- has validated is left alone, without any call; of any other one the status tells that it is
  -- looked at, the target has been resolved from its secrets and connected to, and then, as the
  -- last call, its status stored, with the generation that was validated.
  pub reconcile_cluster-IsReconciled :
      (cluster : NatsCluster) (h : History) {r : Requeue}
      → (reconcile_cluster w k operator_version cluster h).0 ≡ ok r
      → IsReconciled w k operator_version cluster h
          (reconcile_cluster w k operator_version cluster h).1
  unfolding reconcile_cluster pure
  reconcile_cluster-IsReconciled cluster h e =
      let (added, finalizers) = k.add_finalizer cluster.meta.finalizers finalizer_nats_cluster in
      let finalized = with_cluster_finalizers cluster finalizers in
      let update =
        perform (Call.kube (KubeCall.update_nats_cluster finalized))
          (λ h. w.world.update_nats_cluster h finalized) in
      let adding = update >>= λ _. pure Requeue.immediately in
      let rest = reconcile_settled w k operator_version finalized in
      let live = if added then adding else rest in
      let deleting = delete_cluster w k operator_version cluster in
      elim (if-eq-ok (is_deleted cluster.meta) deleting live h e) [
        | inl (gone, e1, same) ↦
            subst (IsReconciled w k operator_version cluster h) (sym same)
              (deleted-eq-ok cluster h gone e1)
        | inr (alive, e1, same) ↦ elim (if-eq-ok added adding rest h e1) [
          | inl (new, e2, same') ↦
              let (_, e3, _, same'') = then-eq-ok update (λ _. pure Requeue.immediately) h e2 in
              let (_, last) = perform-eq-ok _ (λ h. w.world.update_nats_cluster h finalized) h e3 in
              IsReconciled.finalizer_added alive (ap not new) (same ∙ same' ∙ same'' ∙ last)
          | inr (old, e2, same') ↦
              subst (IsReconciled w k operator_version cluster h) (sym (same ∙ same'))
                (settled-eq-ok cluster h alive (ap not old) e2)
        ]
      ]
