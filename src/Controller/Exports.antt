-- ===== src/Controller/Exports.antt =====
-- internal/adapter/inbound/controller/account_export.go: the controller of exports.
pub mod Validated
pub mod Conditions
pub mod Ready
pub mod Unreadable
pub mod Adopted
use nauth.Common.{
  ℕ, ℤ, pos, ℤ-discrete, is_yes, String, Bool, true, false, not, Option, none, some, List, [], ◌∷◌,
  map, Error, Result, ok, err, int, str, ◌==◌, ◌&&◌, if◌then◌else◌,
}
use nauth.Domain.Names.{NamespacedName}
use nauth.Domain.Account
use nauth.Effects.{Call, KubeCall, Fallible, World, perform}
use nauth.Effects.Fallible.{◌>>=◌, ◌>>◌, pure, raise}
use nauth.Claims.Builder.{validate_exports}
use nauth.Account.Keys.{Setting}
use nauth.Api.{
  Machinery, Text, literal, sprintf, error_text, error_in, text_in, get_label, set_label,
  condition_true, condition_false,
}
use nauth.Api.Accounts
use nauth.Api.Accounts.{AccountAdoption, account_label_account_id}
use nauth.Api.Exports.{
  AccountExport, AccountExportClaim, AccountExportRule, account_export_label_account_id,
}
use nauth.Controller.{
  condition_type_ready, condition_type_bound_to_account, condition_type_valid_rules,
  condition_type_adopted_by_account, condition_reason_ok, condition_reason_invalid,
  condition_reason_not_found, condition_reason_conflict, condition_reason_adopting,
  condition_reason_reconciling, condition_reason_failed,
}
use nauth.Controller.Converter.{value_or, to_nauth_service_latency}
use nauth.Controller.Status.{
  Requeue, Client, new_condition, sort_conditions, find_adoption_by_uid, conditions_ready,
  patch_labels, set_condition, update_status,
}

unfoldable pub map_export_type : String → String
map_export_type t =
    if t == Accounts.service
    then Account.export_type_service
    else if t == Accounts.stream
    then Account.export_type_stream
    else Account.export_type_unknown

unfoldable pub map_to_export : AccountExportRule → Account.Export
unfolding map_export_type to_nauth_service_latency
map_to_export rule = record {
  name = rule.name;
  subject = rule.subject;
  type = map_export_type rule.type;
  token_req = false;
  revocations = none;
  response_type = rule.response_type;
  response_threshold = value_or (pos 0) rule.response_threshold;
  latency = to_nauth_service_latency rule.latency;
  account_token_position = value_or 0 rule.account_token_position;
  advertise = value_or false rule.advertise;
  allow_trace = value_or false rule.allow_trace;
}

abbrev pub export_client : World → Client AccountExport
export_client world = record {
  patch_call = KubeCall.patch_export;
  patch = world.patch_export;
  update_status_call = KubeCall.update_export_status;
  update_status = world.update_export_status;
  conditions = λ e. e.status.conditions;
  with_conditions = λ e cs. record e { status = record (e.status) { conditions = cs } };
}

abbrev pub same_generation : Option ℤ → ℤ → Bool
same_generation none generation = false
same_generation (some g) generation = is_yes (ℤ-discrete g generation)

-- `claimsReady`: there is a claim of this generation.
abbrev pub is_current : Option AccountExportClaim → ℤ → Bool
is_current none generation = false
is_current (some claim) generation = same_generation (some claim.observed_generation) generation

module _ (w : Setting) (k : Machinery) where
  abbrev pub update_condition_false : AccountExport → String → String → Text → AccountExport
  update_condition_false state type reason message =
      set_condition (export_client w.world) k state
        (new_condition type condition_false reason message)

  abbrev pub update_condition_true : AccountExport → String → AccountExport
  update_condition_true state type =
      set_condition (export_client w.world) k state
        (new_condition type condition_true condition_reason_ok (literal ""))

  -- The rules, which become the claim to adopt if they are valid.
  unfoldable pub with_validation : AccountExport → Option Error → AccountExport
  with_validation state (some e) =
      update_condition_false state condition_type_valid_rules condition_reason_invalid
        (error_text e)
  with_validation state none =
      let state = update_condition_true state condition_type_valid_rules in
      record state {
        status = record (state.status) {
          desired_claim =
              some
                (record { rules = state.spec.rules; observed_generation = state.meta.generation });
        };
      }

  -- An account that cannot be read. The code tests and prints the error of the validation of the
  -- rules, `err`, and not the one of the read.
  unfoldable pub without_account : AccountExport → Option Error → AccountExport
  without_account state validation =
      if not (k.is_not_found validation)
      then update_condition_false state condition_type_bound_to_account condition_reason_failed
          (error_in "failed to read account: %v" [] validation)
      else update_condition_false state condition_type_bound_to_account condition_reason_not_found
          (literal "Account not found")

  -- The binding to an account ID by a label, and whether the label is new.
  unfoldable pub with_binding : AccountExport → String → AccountExport × Bool
  unfolding get_label set_label
  with_binding state account_id =
      let state = record state { status = record (state.status) { account_id = account_id } } in
      let existing_label = get_label state.meta account_export_label_account_id in
      if existing_label == "" && not (account_id == "")
      then (
        record state { meta = set_label state.meta account_export_label_account_id account_id },
        true,
      )
      else if not (existing_label == "") && not (existing_label == account_id)
      then (
        update_condition_false state condition_type_bound_to_account condition_reason_conflict
            (sprintf "account export is already bound to account: %s" (str existing_label ∷ [])),
        false,
      )
      else (update_condition_true state condition_type_bound_to_account, false)

  unfoldable pub with_adoption : AccountExport → Option AccountAdoption → AccountExport
  with_adoption state none =
      update_condition_false state condition_type_adopted_by_account condition_reason_adopting
        (literal "waiting for account to adopt export")
  with_adoption state (some adoption) =
      let same =
        same_generation adoption.status.desired_claim_observed_generation state.meta.generation in
      if adoption.status.status == condition_true && same
      then update_condition_true state condition_type_adopted_by_account
      else if not same
      then update_condition_false state condition_type_adopted_by_account condition_reason_adopting
          (sprintf "waiting for account to adopt generation %d" (int state.meta.generation ∷ []))
      else update_condition_false state condition_type_adopted_by_account condition_reason_failed
          (text_in "%s: %s" (str adoption.status.reason ∷ []) adoption.status.message)

  abbrev pub adoption_of : Accounts.Account → String → Option AccountAdoption
  adoption_of account uid = elim account.status.adoptions [
    | none ↦ none
    | some adoptions ↦ find_adoption_by_uid adoptions.exports uid
  ]

  unfoldable pub with_account :
      AccountExport → Option Error → Result Accounts.Account → AccountExport × Bool
  unfolding without_account with_binding with_adoption get_label find_adoption_by_uid
  with_account state validation (err account_err) = (without_account state validation, false)
  with_account state validation (ok account) =
      let (bound, patch) = with_binding state (get_label account.meta account_label_account_id) in
      (with_adoption bound (adoption_of account bound.meta.uid), patch)

  unfoldable pub is_account_export_ready : AccountExport → Bool
  unfolding conditions_ready
  is_account_export_ready state =
      conditions_ready k state.status.conditions (
        condition_type_bound_to_account ∷ condition_type_valid_rules
        ∷ condition_type_adopted_by_account ∷ [])
      && is_current state.status.desired_claim state.meta.generation

  unfoldable pub with_ready : AccountExport → AccountExport
  unfolding is_account_export_ready
  with_ready state =
      if is_account_export_ready state
      then update_condition_true state condition_type_ready
      else update_condition_false state condition_type_ready condition_reason_reconciling
          (literal "All conditions not met")

  -- What the resource becomes, and whether its labels have changed.
  unfoldable pub evaluate :
      AccountExport → Option Error → Result Accounts.Account → AccountExport × Bool
  unfolding with_validation with_account with_ready
  evaluate state validation account =
      let (state, patch) = with_account (with_validation state validation) validation account in
      (with_ready state, patch)

  unfoldable pub save_export : AccountExport × Bool → Fallible Requeue
  save_export (state, true) = patch_labels (export_client w.world) state >> pure Requeue.immediately
  save_export (state, false) = do
    update_status (export_client w.world) (record state {
      status = record (state.status) { conditions = sort_conditions state.status.conditions };
    })
    pure Requeue.never

  unfoldable pub reconcile_export : AccountExport → Fallible Requeue
  unfolding evaluate save_export map_to_export
  reconcile_export state h =
      let validation = validate_exports w.jwt (map map_to_export state.spec.rules) in
      let account_ref : NamespacedName = record {
        namespace = state.meta.namespace;
        name = state.spec.account_name;
      } in
      let (account, h') =
        perform (Call.kube (KubeCall.get_account account_ref))
          (λ h. w.world.get_account h account_ref) h in
      save_export (evaluate state validation account) h'

  reconcile_found : Result AccountExport → Fallible Requeue
  unfolding reconcile_export
  reconcile_found (ok state) = reconcile_export state
  reconcile_found (err e) = if k.is_not_found (some e) then pure Requeue.never else raise e

  unfoldable pub reconcile : NamespacedName → Fallible Requeue
  unfolding reconcile_found
  reconcile request h =
      let (found, h') =
        perform (Call.kube (KubeCall.get_export request)) (λ h. w.world.get_export h request) h in
      reconcile_found found h'
