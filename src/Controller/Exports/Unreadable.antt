-- ===== src/Controller/Exports/Unreadable.antt =====
-- What the controller of exports reports of an account that it cannot read.
use nauth.Common.{Bool, true, false, none, some, [], Error, err, ◌≡◌, refl, ◌∙◌, if◌then◌else◌}
use nauth.Account.Keys.{Setting}
use nauth.Api.{Machinery, IsDocumented, literal, error_in, condition_false}
use nauth.Api.Exports.{AccountExport}
use nauth.Controller.{
  condition_type_ready, condition_type_bound_to_account, condition_reason_failed,
  condition_reason_reconciling,
}
use nauth.Controller.Status.{new_condition}
use nauth.Controller.Exports.{
  with_validation, without_account, with_account, with_ready, is_account_export_ready, evaluate,
  update_condition_true, update_condition_false,
}

module _ (w : Setting) (k : Machinery) (doc : IsDocumented k) where
  -- The condition `Ready` leaves that of the binding alone.
  with_ready-bound :
      (state : AccountExport)
      → k.find_status_condition
          (with_ready w k state).status.conditions
          condition_type_bound_to_account
        ≡ k.find_status_condition state.status.conditions condition_type_bound_to_account
  unfolding with_ready
  with_ready-bound state = kept (is_account_export_ready w k state)
    where
      kept :
          (b : Bool)
          → let result : AccountExport =
              if b
              then update_condition_true w k state condition_type_ready
              else update_condition_false w k state condition_type_ready
                  condition_reason_reconciling
                  (literal "All conditions not met") in
            k.find_status_condition result.status.conditions condition_type_bound_to_account
            ≡ k.find_status_condition state.status.conditions condition_type_bound_to_account
      kept true = doc.find-set_other _ _ condition_type_bound_to_account refl
      kept false = doc.find-set_other _ _ condition_type_bound_to_account refl

  without_account-found :
      (state : AccountExport)
      → k.find_status_condition
          (without_account w k state none).status.conditions
          condition_type_bound_to_account
        ≡ some (
            new_condition condition_type_bound_to_account condition_false condition_reason_failed
              (error_in "failed to read account: %v" [] none))
  unfolding without_account
  without_account-found state = rw doc.nil_found (doc.find-set _ _)

  -- An export with valid rules whose account cannot be read is reported to be unbound for the
  -- reason `Failed`, with the text of a nil error, whatever the error of the read is. So an account
  -- that does not exist is never reported as not found. The library keeps conditions by their
  -- types, and takes a nil error for none of the API.
  pub evaluate-unreadable :
      (state : AccountExport) (account_err : Error)
      → k.find_status_condition
          (evaluate w k state none (err account_err)).0.status.conditions
          condition_type_bound_to_account
        ≡ some (
            new_condition condition_type_bound_to_account condition_false condition_reason_failed
              (error_in "failed to read account: %v" [] none))
  unfolding evaluate with_account
  evaluate-unreadable state account_err =
      with_ready-bound (without_account w k (with_validation w k state none) none)
      ∙ without_account-found (with_validation w k state none)
