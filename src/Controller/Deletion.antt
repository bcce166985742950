-- ===== src/Controller/Deletion.antt =====
-- internal/adapter/inbound/controller/account.go: `deleteAccount` and `validateAccountDeletion`.
pub mod Unbound
pub mod Observed
pub mod Released
use nauth.Common.{
  ℕ, String, Bool, true, false, not, Option, none, some, List, [], ◌∷◌, length, Error, Result, ok,
  err, num, errorf, reject, ◌==◌, ◌&&◌, if◌then◌else◌,
}
use nauth.Domain.Errors
use nauth.Domain.Errors.{err_unknown_error, with_cause}
use nauth.Domain.Names.{is_nil}
use nauth.Domain.Account.{AccountReference, AccountId}
use nauth.Effects.{Call, KubeCall, Fallible, perform}
use nauth.Effects.Fallible.{◌>>=◌, ◌>>◌, pure, raise, lift, wrapping}
use nauth.Account.Keys.{Setting}
use nauth.Account.Import.{find_account_id}
use nauth.Account.Delete.{delete}
use nauth.Api.{Machinery, literal, condition_false}
use nauth.Api.Accounts.{Account, account_management_policy_observe}
use nauth.Controller.{condition_type_ready, condition_reason_reconciling, finalizer_account}
use nauth.Controller.Status.{
  Requeue, new_condition, account_client, set_condition, update_status, report, reporting,
}
use nauth.Controller.Requests.{find_exports_by_account_id, find_imports_by_account_id}

unfoldable pub unknown_or : {A : Type 0} → Result A → Result A
unknown_or (ok a) = ok a
unknown_or (err e) = err (with_cause err_unknown_error (some e))

-- `return domain.ErrUnknownError.WithCause(err)` after a call that fails.
unfoldable pub listing : {A : Type 0} → Fallible A → Fallible A
unfolding unknown_or
listing m h = let (r, h') = m h in (unknown_or r, h')

module _ (w : Setting) where
  -- Nothing must be bound to the account in its namespace any more.
  unfoldable pub require_unbound : String → AccountId → Fallible (Unit {0})
  unfolding listing find_exports_by_account_id find_imports_by_account_id
  require_unbound namespace account_id = do
    users ← listing (
        perform (Call.kube (KubeCall.list_users namespace account_id))
          (λ h. w.world.list_users h namespace account_id))
    lift (
        reject (not (is_nil users)) (
          errorf "cannot delete an account with associated users, found %d users"
            (num (length users) ∷ [])))
    exports ← listing (find_exports_by_account_id w.world namespace account_id)
    lift (
        reject (not (is_nil exports))
          (errorf "found %d export bindings" (num (length exports) ∷ [])))
    imports ← listing (find_imports_by_account_id w.world namespace account_id)
    lift (
        reject (not (is_nil imports))
          (errorf "found %d import bindings" (num (length imports) ∷ [])))

  unfoldable pub validate_account_deletion : AccountId → String → Fallible (Unit {0})
  unfolding require_unbound
  validate_account_deletion account_id namespace =
      if account_id == "" then pure tt else require_unbound namespace account_id

  -- The ID of the account, from its secrets where the resource has none.
  unfoldable pub identify : AccountReference → Fallible AccountReference
  identify reference =
      if reference.account_id == ""
      then (do
        found ← find_account_id w reference
        pure (elim found [ none ↦ reference | some id ↦ record reference { account_id = id } ]))
      else pure reference

  module _ (k : Machinery) where
    -- Removes the finalizer, which lets Kubernetes remove the resource.
    unfoldable pub release : Account → Fallible Requeue
    release state = do
      let released = record state {
        meta = record (state.meta) {
          finalizers = k.remove_finalizer state.meta.finalizers finalizer_account;
        };
      }
      perform (Call.kube (KubeCall.update_account released))
          (λ h. w.world.update_account h released)
      pure Requeue.never

    unfoldable pub delete_managed : Account → AccountReference → String → Fallible Requeue
    unfolding release
    delete_managed state reference management_policy =
        if not (management_policy == account_management_policy_observe)
          && not (reference.account_id == "")
        then reporting (account_client w.world) k state
            (wrapping "failed to delete account: %w" [] (delete w reference)) (λ _. release state)
        else release state

    unfoldable pub finish_deletion : Account → AccountReference → String → Fallible Requeue
    unfolding delete_managed
    finish_deletion state reference management_policy =
        if k.contains_finalizer state.meta.finalizers finalizer_account
        then delete_managed state reference management_policy
        else pure Requeue.never

    -- An error that is not known is returned as it is, any other one is reported.
    unfoldable pub validated_deletion :
        Account → AccountReference → String → Result (Unit {0}) → Fallible Requeue
    unfolding finish_deletion
    validated_deletion state reference management_policy (ok _) =
        finish_deletion state reference management_policy
    validated_deletion state reference management_policy (err e) =
        if Errors.is e err_unknown_error then raise e else report (account_client w.world) k state e

    unfoldable pub checked_deletion : Account → AccountReference → String → Fallible Requeue
    unfolding validated_deletion validate_account_deletion
    checked_deletion state reference management_policy h =
        let (r, h') = validate_account_deletion reference.account_id state.meta.namespace h in
        validated_deletion state reference management_policy r h'

    unfoldable pub delete_account : Account → AccountReference → String → Fallible Requeue
    unfolding checked_deletion identify
    delete_account state reference management_policy = do
      state ← update_status (account_client w.world) (
          set_condition (account_client w.world) k state (
            new_condition condition_type_ready condition_false condition_reason_reconciling
              (literal "Deleting account")))
      reporting (account_client w.world) k state
          (wrapping "failed to find account ID for deletion: %w" [] (identify reference))
          (λ reference. checked_deletion state reference management_policy)
