-- ===== src/Controller/Accounts/Bound.antt =====
-- Which cluster and which labels an account has, when the controller of accounts has reconciled it.
use nauth.Common.{String, List, ◌≡◌, ◌⊎◌}
use nauth.Domain.Account.{AccountReference}
use nauth.Domain.Adoptions.{AccountResult}
use nauth.Effects.{History}
use nauth.Account.Keys.{Setting}
use nauth.Api.{Machinery, get_label}
use nauth.Api.Accounts.{
  Account, account_label_account_id, account_label_signed_by, account_label_nats_cluster_id,
}
use nauth.Controller.Status.{Requeue}
use nauth.Controller.Accounts.{with_result_labels}
use nauth.Controller.Accounts.Managed.{IsManaged}

abbrev pub with_finalizers : Account → List String → Account
with_finalizers account finalizers = record account {
  meta = record (account.meta) { finalizers = finalizers };
}

-- The labels that are stored with a result tell its account ID and its signer, and the cluster that
-- the account was bound to.
pub record HasLabels (account : Account) (result : AccountResult) : Type 0 where
  pub id :
      get_label (with_result_labels account result).meta account_label_account_id
      ≡ result.account_id
  pub signer :
      get_label (with_result_labels account result).meta account_label_signed_by
      ≡ result.account_signed_by
  pub cluster_kept :
      get_label (with_result_labels account result).meta account_label_nats_cluster_id
      ≡ get_label account.meta account_label_nats_cluster_id

-- The account was bound to no cluster, or to the one of the reference; it is bound to that one.
pub record IsBound (w : Setting) (k : Machinery) (operator_version : String) (account : Account)
    (reference : AccountReference) (policy : String) (r : Requeue) (before after : History)
    : Type 0 where
  pub managed : Account
  pub free :
      (get_label account.meta account_label_nats_cluster_id ≡ "")
      ⊎ (get_label account.meta account_label_nats_cluster_id ≡ reference.cluster_target.uid)
  pub cluster : get_label managed.meta account_label_nats_cluster_id ≡ reference.cluster_target.uid
  pub same_spec : managed.spec ≡ account.spec
  pub labels : (result : AccountResult) → HasLabels managed result
  pub done_so : IsManaged w k operator_version managed reference policy before after r
