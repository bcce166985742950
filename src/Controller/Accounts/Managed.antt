-- ===== src/Controller/Accounts/Managed.antt =====
-- What the controller of accounts has done with an account that it keeps, when it returns without
-- an error.
use nauth.Common.{
  String, false, none, [], ◌∷◌, ok, ◌≡◌, ◌≢◌, sym, subst, ◌∙◌, inl, inr, ok-injective, ◌==◌,
  if◌then◌else◌, eq_iff,
}
use nauth.Domain.Account.{AccountReference, AccountRequest}
use nauth.Domain.Adoptions.{AccountResult}
use nauth.Effects.{Call, KubeCall, done, History}
use nauth.Effects.Fallible.{pure, wrapping}
use nauth.Effects.Inversion.{then-eq-ok, wrapping-eq-ok, if-eq-ok}
use nauth.Account.Keys.{Setting}
use nauth.Account.Create.{create_or_update}
use nauth.Account.Import.{import_account}
use nauth.Cluster.{Config}
use nauth.Api.{Machinery}
use nauth.Api.Accounts.{Account, account_management_policy_observe}
use nauth.Controller.Converter.Claims.{AccountAdoptionRefs, to_api_adoptions}
use nauth.Controller.Status.{Requeue, account_client, patch_labels}
use nauth.Controller.Status.Steps.{reporting-eq-ok, patch_labels-eq-ok}
use nauth.Controller.Requests.{to_bootstrap_account_request, to_account_request}
use nauth.Controller.Accounts.{
  with_result_labels, apply_result, observe, bootstrap, fully_manage, manage,
}
use nauth.Controller.Accounts.Applied.{IsApplied, apply_result-IsApplied}

-- What `manage` has done with an account, by the branch that the policy and the ID select, with the
-- history before and after it: the import for an account that is only observed, the creation without
-- groups for one without an ID, which is looked at again at once, or else the full request.
pub data IsManaged (w : Setting) (k : Machinery) (operator_version : String) (account : Account)
    (reference : AccountReference) (policy : String) (before after : History)
    : Requeue → Type 0 where
  imported :
      (result : AccountResult)
      → policy ≡ account_management_policy_observe
      → (import_account w reference before).0 ≡ ok result
      → IsApplied w k operator_version account result none after
      → IsManaged w k operator_version account reference policy before after Requeue.spread
  bootstrapped :
      (result : AccountResult) (at : History) (saved : Account)
      → policy ≢ account_management_policy_observe
      → reference.account_id ≡ ""
      → (create_or_update w (to_bootstrap_account_request account reference) before).0 ≡ ok result
      → w.world.patch_account at (with_result_labels account result) ≡ ok saved
      → after ≡ done (Call.kube (KubeCall.patch_account (with_result_labels account result))) ∷ at
      → IsManaged w k operator_version account reference policy before after Requeue.immediately
  applied :
      (result : AccountResult) (request : AccountRequest) (refs : AccountAdoptionRefs)
      → policy ≢ account_management_policy_observe
      → reference.account_id ≢ ""
      → (to_account_request w account reference before).0 ≡ ok (request, refs)
      → (create_or_update w request (to_account_request w account reference before).1).0 ≡ ok result
      → IsApplied w k operator_version account result (to_api_adoptions result.adoptions refs) after
      → IsManaged w k operator_version account reference policy before after Requeue.spread

-- A comparison that fails.
pub differs : (a b : String) → (a == b) ≡ false → a ≢ b
differs a b h p = let same = (eq_iff a b).1 p in cc

module _ (w : Setting) (k : Machinery) (config : Config) (operator_version : String) where
  observe-IsManaged :
      (account : Account) (reference : AccountReference) (policy : String) (h : History)
      {r : Requeue}
      → policy ≡ account_management_policy_observe
      → (observe w k config operator_version account reference h).0 ≡ ok r
      → IsManaged w k operator_version account reference policy h
          (observe w k config operator_version account reference h).1
          r
  unfolding observe
  observe-IsManaged account reference policy h {r} observed e =
      let importing =
        wrapping "failed to import the observed account: %w" [] (import_account w reference) in
      let (result, e1, e2, same) =
        reporting-eq-ok (account_client w.world) k account importing
          (λ result. apply_result w k config operator_version account result none) h e in
      let (result_read, _) = wrapping-eq-ok _ _ (import_account w reference) h e1 in
      let (spread, stored) =
        apply_result-IsApplied w k config operator_version account result none _ e2 in
      let done_so =
        IsManaged.imported result observed result_read
          (subst (IsApplied w k operator_version account result none) (sym same) stored) in
      subst
        (IsManaged w k operator_version account reference policy h
          (observe w k config operator_version account reference h).1)
        spread done_so

  bootstrap-IsManaged :
      (account : Account) (reference : AccountReference) (policy : String) (h : History)
      {r : Requeue}
      → policy ≢ account_management_policy_observe
      → reference.account_id ≡ ""
      → (bootstrap w k config operator_version account reference h).0 ≡ ok r
      → IsManaged w k operator_version account reference policy h
          (bootstrap w k config operator_version account reference h).1
          r
  unfolding bootstrap pure
  bootstrap-IsManaged account reference policy h {r} managed no_id e =
      let client = account_client w.world in
      let request = to_bootstrap_account_request account reference in
      let (result, e1, e2, same) =
        reporting-eq-ok client k account
          (wrapping "failed to bootstrap account: %w" [] (create_or_update w request)) _ h e in
      let (made, _) = wrapping-eq-ok _ _ (create_or_update w request) h e1 in
      let (saved, e3, e4, same') =
        then-eq-ok (patch_labels client (with_result_labels account result)) _ _ e2 in
      let (patched, last) = patch_labels-eq-ok client k (with_result_labels account result) _ e3 in
      subst
        (IsManaged w k operator_version account reference policy h
          (bootstrap w k config operator_version account reference h).1)
        (ok-injective e4)
        (IsManaged.bootstrapped result _ saved managed no_id made patched (same ∙ same' ∙ last))

  full-IsManaged :
      (account : Account) (reference : AccountReference) (policy : String) (h : History)
      {r : Requeue}
      → policy ≢ account_management_policy_observe
      → reference.account_id ≢ ""
      → (fully_manage w k config operator_version account reference h).0 ≡ ok r
      → IsManaged w k operator_version account reference policy h
          (fully_manage w k config operator_version account reference h).1
          r
  unfolding fully_manage
  full-IsManaged account reference policy h {r} managed known e =
      let client = account_client w.world in
      let asking = to_account_request w account reference in
      let (request, e1, e2, same) =
        reporting-eq-ok client k account (wrapping "failed to create account request: %w" [] asking)
          _ h e in
      let (asked, same') = wrapping-eq-ok _ _ asking h e1 in
      let (result, e3, e4, same'') =
        reporting-eq-ok client k account
          (wrapping "failed to apply account: %w" [] (create_or_update w request.0)) _ _ e2 in
      let (made, _) = wrapping-eq-ok _ _ (create_or_update w request.0) _ e3 in
      let adoptions = to_api_adoptions result.adoptions request.1 in
      let (spread, stored) =
        apply_result-IsApplied w k config operator_version account result adoptions _ e4 in
      let done_so =
        IsManaged.applied result request.0 request.1 managed known asked
          (subst (λ t. (create_or_update w request.0 t).0 ≡ ok result) same' made)
          (subst (IsApplied w k operator_version account result adoptions) (sym (same ∙ same''))
            stored) in
      subst
        (IsManaged w k operator_version account reference policy h
          (fully_manage w k config operator_version account reference h).1)
        spread done_so

  pub manage-IsManaged :
      (account : Account) (reference : AccountReference) (policy : String) (h : History)
      {r : Requeue}
      → (manage w k config operator_version account reference policy h).0 ≡ ok r
      → IsManaged w k operator_version account reference policy h
          (manage w k config operator_version account reference policy h).1
          r
  unfolding manage
  manage-IsManaged account reference policy h {r} e =
      let observing = observe w k config operator_version account reference in
      let starting = bootstrap w k config operator_version account reference in
      let full = fully_manage w k config operator_version account reference in
      let Managed =
        λ (after : History). IsManaged w k operator_version account reference policy h after r in
      let observed = policy == account_management_policy_observe in
      let no_id = reference.account_id == "" in
      elim (if-eq-ok observed observing (if no_id then starting else full) h e) [
        | inl (yes', e1, same) ↦ subst Managed (sym same) (
            observe-IsManaged account reference policy h
              ((eq_iff policy account_management_policy_observe).0 yes') e1)
        | inr (no', e1, same) ↦
            let managed = differs policy account_management_policy_observe no' in
            elim (if-eq-ok no_id starting full h e1) [
              | inl (empty, e2, same') ↦ subst Managed (sym (same ∙ same')) (
                  bootstrap-IsManaged account reference policy h managed
                    ((eq_iff reference.account_id "").0 empty) e2)
              | inr (known, e2, same') ↦ subst Managed (sym (same ∙ same')) (
                  full-IsManaged account reference policy h managed
                    (differs reference.account_id "" known) e2)
            ]
      ]
