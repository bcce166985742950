-- ===== src/Controller/References.antt =====
-- internal/adapter/inbound/controller/account_import.go: the accounts that an import refers to.
use nauth.Common.{
  String, not, Option, none, some, [], ◌∷◌, Result, ok, err, str, ◌==◌, ◌&&◌, if◌then◌else◌,
}
use nauth.Domain.Names
use nauth.Domain.Names.{NamespacedName, to_string, is_nil}
use nauth.Effects.{Call, KubeCall, Plain, perform}
use nauth.Account.Keys.{Setting}
use nauth.Api.{
  Condition, Machinery, Text, sprintf, error_in, get_label, condition_true, condition_false,
}
use nauth.Api.Accounts
use nauth.Api.Accounts.{AccountAdoption, account_label_account_id}
use nauth.Controller.{
  condition_reason_ok, condition_reason_invalid, condition_reason_not_found,
  condition_reason_conflict,
}
use nauth.Controller.Status.{new_condition}

-- The condition of a reference to an account; its type is the caller's. The reasons are those of
-- `metav1`.
unfoldable pub account_condition : String → String → Text → Condition
account_condition status reason message = new_condition "" status reason message

module _ (w : Setting) (k : Machinery) where
  -- An account that was read, if it has an ID and the label does not name another one.
  unfoldable pub conditioned :
      String → String → Accounts.Account → Option Accounts.Account × Condition
  unfolding get_label account_condition
  conditioned shown bound_account_id account =
      let account_id = get_label account.meta account_label_account_id in
      if account_id == ""
      then (
        none,
        account_condition condition_false condition_reason_invalid
            (sprintf "Account %s not bound to an Account ID yet" (str shown ∷ [])),
      )
      else if not (bound_account_id == "") && not (bound_account_id == account_id)
      then (
        none,
        account_condition condition_false condition_reason_conflict (
            sprintf "Account ID conflict: previously bound to %s, now found %s"
              (str bound_account_id ∷ str account_id ∷ [])),
      )
      else (
        some account,
        account_condition condition_true condition_reason_ok
            (sprintf "Account ID: %s" (str account_id ∷ [])),
      )

  conditioned_answer :
      String → String → Result Accounts.Account → Option Accounts.Account × Condition
  unfolding conditioned account_condition
  conditioned_answer shown bound_account_id (ok account) =
      conditioned shown bound_account_id account
  conditioned_answer shown bound_account_id (err e) =
      if k.is_not_found (some e)
      then (
        none,
        account_condition condition_false condition_reason_not_found
            (sprintf "Account %s not found" (str shown ∷ [])),
      )
      else (
        none,
        account_condition condition_false "InternalError"
            (error_in "Failed to get Account %s: %q" (str shown ∷ []) (some e)),
      )

  unfoldable pub get_conditioned_account :
      NamespacedName → String → Plain (Option Accounts.Account × Condition)
  unfolding conditioned_answer account_condition
  get_conditioned_account account_ref bound_account_id h =
      let (answer, h') =
        perform (Call.kube (KubeCall.get_account account_ref))
          (λ h. w.world.get_account h account_ref) h in
      elim (Names.validate w.k8s account_ref) [
        | some e ↦ (
          (
            none,
            account_condition condition_false condition_reason_invalid (
                error_in "Invalid Account reference %s: %q" (str (to_string w.k8s account_ref) ∷ [])
                  (some e)),
          ),
          h,
        )
        | none ↦ (conditioned_answer (to_string w.k8s account_ref) bound_account_id answer, h')
      ]

  -- The ID of the account if there is one, and else that of the label.
  abbrev pub id_or_label : Option Accounts.Account → String → String
  id_or_label none label = label
  id_or_label (some account) label = get_label account.meta account_label_account_id
