-- ===== src/Controller/Accounts/Applied.antt =====
-- How the controller of accounts stores a result.
use nauth.Common.{ℕ, String, Option, ◌∷◌, ok, ◌≡◌, ◌∙◌, ok-injective}
use nauth.Domain.Adoptions.{AccountResult}
use nauth.Effects.{Call, KubeCall, done, History}
use nauth.Effects.Fallible.{pure, lift}
use nauth.Effects.Inversion.{then-eq-ok, lift-eq-ok, wrapping-eq-ok}
use nauth.Account.Keys.{Setting}
use nauth.Cluster.{Config}
use nauth.Api.{Machinery, literal, condition_true}
use nauth.Api.Accounts
use nauth.Api.Accounts.{
  Account, account_label_account_id, account_label_signed_by, account_label_nats_cluster_id,
  account_management_policy_observe,
}
use nauth.Controller.{condition_type_ready, condition_reason_reconciled}
use nauth.Controller.Status.{
  Requeue, account_client, new_condition, set_condition, patch_labels, update_status,
  update_ready_status, update_ready_status_reconciled,
}
use nauth.Controller.Status.Steps.{reporting-eq-ok, patch_labels-eq-ok, update_status-eq-ok}
use nauth.Controller.Accounts.{told_claims, with_result_labels, apply_result}

-- The status that tells a result: all of it, on the resource `saved`.
abbrev pub told_status :
    Account
    → AccountResult
    → Option Accounts.AccountAdoptions
    → Option Accounts.AccountClaims
    → ℕ
    → String
    → Account
told_status saved result adoptions claims now operator_version = record saved {
  status = record (saved.status) {
    claims = claims;
    adoptions = adoptions;
    claims_hash = result.claims_hash;
    observed_generation = saved.meta.generation;
    reconcile_timestamp = now;
    operator_version = operator_version;
  };
}

-- The labels are patched first, and the last call stores the status, with the condition `Ready`.
pub record IsApplied (w : Setting) (k : Machinery) (operator_version : String) (account : Account)
    (result : AccountResult) (adoptions : Option Accounts.AccountAdoptions) (after : History)
    : Type 0 where
  pub at : History
  pub saved : Account
  pub claims : Option Accounts.AccountClaims
  pub now : ℕ
  pub before : History
  pub patched : w.world.patch_account at (with_result_labels account result) ≡ ok saved
  pub told : told_claims saved.status.claims result.claims ≡ ok claims
  pub last :
      after
      ≡ done (
          Call.kube (
            KubeCall.update_account_status (
              set_condition
                (account_client w.world)
                k
                (told_status saved result adoptions claims now operator_version)
                (new_condition condition_type_ready condition_true condition_reason_reconciled
                  (literal "Successfully reconciled")))))
        ∷ before

module _ (w : Setting) (k : Machinery) where
  pub reconciled-eq-ok :
      (account : Account) (h : History) {r : Account}
      → (update_ready_status_reconciled (account_client w.world) k account h).0 ≡ ok r
      → (update_ready_status_reconciled (account_client w.world) k account h).1
        ≡ done (
            Call.kube (
              KubeCall.update_account_status (
                set_condition (account_client w.world) k account (
                  new_condition condition_type_ready condition_true condition_reason_reconciled
                    (literal "Successfully reconciled")))))
          ∷ h
  unfolding update_ready_status_reconciled update_ready_status
  reconciled-eq-ok account h e =
      let ready = set_condition (account_client w.world) k account (
        new_condition condition_type_ready condition_true condition_reason_reconciled
          (literal "Successfully reconciled")) in
      let (e1, same) = wrapping-eq-ok _ _ (update_status (account_client w.world) ready) h e in
      let (_, added) = update_status-eq-ok (account_client w.world) k ready h e1 in same ∙ added

  pub apply_result-IsApplied :
      (config : Config) (operator_version : String) (account : Account) (result : AccountResult)
      (adoptions : Option Accounts.AccountAdoptions) (h : History) {r : Requeue}
      → (apply_result w k config operator_version account result adoptions h).0 ≡ ok r
      → (Requeue.spread ≡ r)
        × IsApplied w k operator_version account result adoptions
            (apply_result w k config operator_version account result adoptions h).1
  unfolding apply_result pure
  apply_result-IsApplied config operator_version account result adoptions h e =
      let client = account_client w.world in
      let (saved, e1, e2, same) = then-eq-ok (patch_labels client _) _ h e in
      let (patched, _) = patch_labels-eq-ok client k (with_result_labels account result) h e1 in
      let (claims, e3, e4, same') = reporting-eq-ok client k saved (lift _) _ _ e2 in
      let (told, _) = lift-eq-ok _ _ e3 in
      let (now, _, e5, same'') = then-eq-ok _ _ _ e4 in
      let (_, e6, e7, same''') = then-eq-ok (update_ready_status_reconciled client k _) _ _ e5 in
      (
        ok-injective e7,
        record {
          at = h;
          saved = saved;
          claims = claims;
          now = now;
          before = _;
          patched = patched;
          told = told;
          last =
              same
              ∙ same'
              ∙ same''
              ∙ same'''
              ∙ reconciled-eq-ok (told_status saved result adoptions claims now operator_version) _
                  e6;
        },
      )
