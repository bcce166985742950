-- ===== src/Controller/Accounts.antt =====
-- internal/adapter/inbound/controller/account.go: `Reconcile`, the step of the controller of
-- accounts.
pub mod Observed
pub mod Applied
pub mod Managed
pub mod Bound
use nauth.Common.{
  String, Bool, true, false, Option, none, some, [], ◌∷◌, Error, Result, ok, err, str, errorf, wrap,
  and_then, ◌==◌, if◌then◌else◌,
}
use nauth.Domain.Names.{NamespacedName}
use nauth.Domain.Account
use nauth.Domain.Account.{AccountReference}
use nauth.Domain.Adoptions.{AccountResult}
use nauth.Domain.Cluster.{ClusterTarget}
use nauth.Effects.{Call, KubeCall, Fallible, perform}
use nauth.Effects.Fallible.{◌>>=◌, ◌>>◌, pure, raise, lift, wrapping}
use nauth.Account.Keys.{Setting, call}
use nauth.Account.Create.{create_or_update}
use nauth.Account.Import.{import_account}
use nauth.Cluster.{Config, get_cluster_target}
use nauth.Api.{Machinery, get_label, set_label, is_deleted}
use nauth.Api.Accounts
use nauth.Api.Accounts.{
  Account, account_label_account_id, account_label_signed_by, account_label_nats_cluster_id,
  account_label_management_policy, account_management_policy_observe,
}
use nauth.Controller.{finalizer_account}
use nauth.Controller.Converter.{to_nauth_cluster_ref}
use nauth.Controller.Converter.Claims.{to_api_adoptions, to_api_account_claims}
use nauth.Controller.Status.{
  Requeue, account_client, patch_labels, update_ready_status_reconciled, report, reporting,
}
use nauth.Controller.Requests.{
  to_account_reference, to_bootstrap_account_request, to_account_request,
}
use nauth.Controller.Deletion.{delete_account}

-- The claims that the status tells: those of the result, if it has any.
unfoldable pub told_claims :
    Option Accounts.AccountClaims
    → Option Account.AccountClaims
    → Result (Option Accounts.AccountClaims)
told_claims old none = ok old
told_claims old (some claims) =
    and_then (wrap "failed to convert account claims: %w" [] (to_api_account_claims claims))
      λ api_claims. ok (some api_claims)

abbrev pub with_label : Account → String → String → Account
with_label account label value = record account { meta = set_label account.meta label value }

unfoldable pub with_result_labels : Account → AccountResult → Account
unfolding set_label
with_result_labels account result =
    with_label (with_label account account_label_account_id result.account_id)
      account_label_signed_by result.account_signed_by

module _ (w : Setting) (k : Machinery) (config : Config) (operator_version : String) where
  -- The labels first, and then the status, on the resource as the server has it by then.
  unfoldable pub apply_result :
      Account → AccountResult → Option Accounts.AccountAdoptions → Fallible Requeue
  unfolding with_result_labels told_claims
  apply_result account result adoptions = do
    account ← patch_labels (account_client w.world) (with_result_labels account result)
    reporting (account_client w.world) k account
        (lift (told_claims account.status.claims result.claims))
        λ claims. do
          now ← call (λ h. (w.world.now h, h))
          update_ready_status_reconciled (account_client w.world) k (record account {
            status = record (account.status) {
              claims = claims;
              adoptions = adoptions;
              claims_hash = result.claims_hash;
              observed_generation = account.meta.generation;
              reconcile_timestamp = now;
              operator_version = operator_version;
            };
          })
          pure Requeue.spread

  unfoldable pub observe : Account → AccountReference → Fallible Requeue
  unfolding apply_result
  observe account reference =
      reporting (account_client w.world) k account
        (wrapping "failed to import the observed account: %w" [] (import_account w reference))
        λ result. apply_result account result none

  unfoldable pub bootstrap : Account → AccountReference → Fallible Requeue
  unfolding to_bootstrap_account_request with_result_labels
  bootstrap account reference =
      reporting (account_client w.world) k account
        (wrapping "failed to bootstrap account: %w" []
          (create_or_update w (to_bootstrap_account_request account reference)))
        λ result. do
          patch_labels (account_client w.world) (with_result_labels account result)
          pure Requeue.immediately

  unfoldable pub fully_manage : Account → AccountReference → Fallible Requeue
  unfolding apply_result to_account_request
  fully_manage account reference =
      reporting (account_client w.world) k account
        (wrapping "failed to create account request: %w" []
          (to_account_request w account reference))
        λ request.
          reporting (account_client w.world) k account
            (wrapping "failed to apply account: %w" [] (create_or_update w request.0))
            λ result. apply_result account result (to_api_adoptions result.adoptions request.1)

  unfoldable pub manage : Account → AccountReference → String → Fallible Requeue
  unfolding observe bootstrap fully_manage
  manage account reference management_policy =
      if management_policy == account_management_policy_observe
      then observe account reference
      else if reference.account_id == ""
      then bootstrap account reference
      else fully_manage account reference

  -- An account stays with the cluster that it was bound to first.
  unfoldable pub bind : Account → AccountReference → String → Fallible Requeue
  unfolding manage get_label set_label
  bind account reference management_policy =
      let bound_to = get_label account.meta account_label_nats_cluster_id in
      let cluster_id = reference.cluster_target.uid in
      if bound_to == ""
      then manage (with_label account account_label_nats_cluster_id cluster_id) reference
          management_policy
      else if bound_to == cluster_id
      then manage account reference management_policy
      else report (account_client w.world) k account
          (errorf "account already bound to cluster with uid: %s" (str bound_to ∷ []))

  -- The finalizer comes before anything in NATS.
  unfoldable pub reconcile_live : Account → AccountReference → String → Fallible Requeue
  unfolding bind
  reconcile_live account reference management_policy =
      let (added, finalizers) = k.add_finalizer account.meta.finalizers finalizer_account in
      let finalized = record account { meta = record (account.meta) { finalizers = finalizers } } in
      if added
      then (do
        perform (Call.kube (KubeCall.update_account finalized))
            (λ h. w.world.update_account h finalized)
        pure Requeue.immediately)
      else bind finalized reference management_policy

  unfoldable pub reconcile_targeted : Account → ClusterTarget → Fallible Requeue
  unfolding reconcile_live to_account_reference get_label
  reconcile_targeted account target =
      let management_policy = get_label account.meta account_label_management_policy in
      let reference = to_account_reference account target in
      if is_deleted account.meta
      then delete_account w k account reference management_policy
      else reconcile_live account reference management_policy

  unfoldable pub reconcile_account : Account → Fallible Requeue
  unfolding reconcile_targeted
  reconcile_account account =
      reporting (account_client w.world) k account
        (lift (to_nauth_cluster_ref w.k8s account.spec.nats_cluster_ref account.meta.namespace))
        λ cluster_ref.
          reporting (account_client w.world) k account
            (get_cluster_target w.k8s w.world config cluster_ref)
            λ target. reconcile_targeted account target

  reconcile_found : Result Account → Fallible Requeue
  unfolding reconcile_account
  reconcile_found (ok account) = reconcile_account account
  reconcile_found (err e) = if k.is_not_found (some e) then pure Requeue.never else raise e

  unfoldable pub reconcile : NamespacedName → Fallible Requeue
  unfolding reconcile_found
  reconcile request h =
      let (found, h') =
        perform (Call.kube (KubeCall.get_account request)) (λ h. w.world.get_account h request) h in
      reconcile_found found h'
