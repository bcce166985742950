-- ===== src/Controller/Accounts/Observed.antt =====
-- What the controller of accounts does to an account that it only observes.
use nauth.Common.{String, Option, none, ◌≡◌, refl, sym, subst, [], if◌then◌else◌, ◌==◌}
use nauth.Domain.Account.{AccountReference}
use nauth.Domain.Adoptions.{AccountResult}
use nauth.Domain.Cluster.{ClusterTarget, ClusterRef}
use nauth.Effects.{Call}
use nauth.Effects.Emits.{
  Emits, Emits-if, Emits-then, Emits-perform, Emits-wrapping, Emits-return, Emits-lift,
  Emits-weaken, call_of,
}
use nauth.Account.Keys.{Setting}
use nauth.Account.Keys.Calls.{Emits-call}
use nauth.Account.Import.Verified.{import_account-Emits}
use nauth.Cluster.{Config, get_cluster_target}
use nauth.Api.{Machinery, get_label, is_deleted}
use nauth.Api.Accounts
use nauth.Api.Accounts.{
  Account, account_label_nats_cluster_id, account_label_management_policy,
  account_management_policy_observe,
}
use nauth.Controller.{finalizer_account}
use nauth.Controller.Status.{account_client}
use nauth.Controller.Status.Steps.{
  Emits-patch_labels, Emits-reconciled, Emits-report, Emits-reporting,
}
use nauth.Controller.Requests.{to_account_reference}
use nauth.Controller.Deletion.{delete_account}
use nauth.Controller.Accounts.{
  apply_result, observe, manage, bind, reconcile_live, reconcile_targeted, reconcile_account,
}
use nauth.Controller.Deletion.Observed.{IsObserving, observing_of_reading, kube, delete-Emits}

module _ (w : Setting) (k : Machinery) (config : Config) (operator_version : String) where
  apply-Emits :
      (account : Account) (result : AccountResult) (adoptions : Option Accounts.AccountAdoptions)
      → Emits IsObserving (apply_result w k config operator_version account result adoptions)
  unfolding apply_result
  apply-Emits account result adoptions =
      Emits-then (Emits-patch_labels kube (account_client w.world) k _) λ account.
        Emits-reporting kube (account_client w.world) k account _ _ (Emits-lift _) λ claims.
          Emits-then (Emits-call (record { events = λ h. ([], refl, tt) })) λ now.
            Emits-then (Emits-reconciled kube (account_client w.world) k _) λ _. Emits-return _

  observe-Emits :
      (account : Account) (reference : AccountReference)
      → Emits IsObserving (observe w k config operator_version account reference)
  unfolding observe
  observe-Emits account reference =
      Emits-reporting kube (account_client w.world) k account _ _
        (Emits-wrapping _ _
          (Emits-weaken (λ e. observing_of_reading (call_of e)) (import_account-Emits w reference)))
        λ result. apply-Emits account result none

  bind-Emits :
      (account : Account) (reference : AccountReference)
      → Emits IsObserving
          (bind w k config operator_version account reference account_management_policy_observe)
  unfolding bind manage
  bind-Emits account reference =
      Emits-if (get_label account.meta account_label_nats_cluster_id == "")
        (observe-Emits _ reference)
        (Emits-if
          (get_label account.meta account_label_nats_cluster_id == reference.cluster_target.uid)
          (observe-Emits account reference)
          (Emits-report kube (account_client w.world) k account _))

  live-Emits :
      (account : Account) (reference : AccountReference)
      → Emits IsObserving (
          reconcile_live w k config operator_version account reference
            account_management_policy_observe)
  unfolding reconcile_live
  live-Emits account reference =
      Emits-if (k.add_finalizer account.meta.finalizers finalizer_account).0
        (Emits-then (Emits-perform _ _ refl refl) λ _. Emits-return _) (bind-Emits _ reference)

  targeted-Emits :
      (account : Account) (target : ClusterTarget)
      → get_label account.meta account_label_management_policy ≡ account_management_policy_observe
      → Emits IsObserving (reconcile_targeted w k config operator_version account target)
  unfolding reconcile_targeted
  targeted-Emits account target observed =
      let reference = to_account_reference account target in
      subst
        (λ policy. Emits IsObserving (
          if is_deleted account.meta
          then delete_account w k account reference policy
          else reconcile_live w k config operator_version account reference policy))
        (sym observed)
        (Emits-if (is_deleted account.meta) (delete-Emits w k account reference)
          (live-Emits account reference))

  target-Emits :
      (cluster_ref : Option ClusterRef)
      → Emits IsObserving (get_cluster_target w.k8s w.world config cluster_ref)
  unfolding get_cluster_target
  target-Emits cluster_ref = Emits-then (Emits-lift _) λ r.
      Emits-then (Emits-wrapping _ _ (Emits-perform (Call.get_target r) _ refl refl))
        λ _. Emits-then (Emits-lift _) λ _. Emits-return _

  -- An account that is labelled to be observed is only read: reconciling it, its deletion included,
  -- makes no call that changes anything in NATS, no key pair and no signature, and stores or
  -- deletes no secret, on any branch and whatever the calls answer.
  pub reconcile_account-Emits :
      (account : Account)
      → get_label account.meta account_label_management_policy ≡ account_management_policy_observe
      → Emits IsObserving (reconcile_account w k config operator_version account)
  unfolding reconcile_account
  reconcile_account-Emits account observed =
      Emits-reporting kube (account_client w.world) k account _ _ (Emits-lift _) λ cluster_ref.
        Emits-reporting kube (account_client w.world) k account _ _ (target-Emits cluster_ref)
          λ target. targeted-Emits account target observed
