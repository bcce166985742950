-- ===== src/Controller/Imports.antt =====
-- internal/adapter/inbound/controller/account_import.go: the controller of imports.
pub mod Derived
use nauth.Common.{
  ℕ, suc, ℤ, String, Bool, true, false, not, Option, none, some, List, [], ◌∷◌, Error, Result, ok,
  err, num, int, str, errorf, wrap, and_then, check, reject, ◌==◌, ◌&&◌, if◌then◌else◌,
}
use nauth.Domain.Names
use nauth.Domain.Names.{NamespacedName, to_string, is_nil}
use nauth.Domain.Account
use nauth.Effects.{Call, KubeCall, Plain, Fallible, World, perform}
use nauth.Effects.Fallible.{◌>>=◌, ◌>>◌, pure, raise}
use nauth.Claims.Builder.{validate_imports}
use nauth.Account.Keys.{Setting}
use nauth.Api.{
  Condition, Machinery, Text, literal, sprintf, error_text, error_in, text_in, get_label, set_label,
  condition_true, condition_false,
}
use nauth.Api.Accounts
use nauth.Api.Accounts.{AccountAdoption, account_label_account_id}
use nauth.Api.Imports.{
  AccountImport, AccountImportRule, AccountImportRuleDerived, account_import_label_account_id,
  account_import_label_export_account_id,
}
use nauth.Controller.{
  condition_type_ready, condition_type_bound_to_account, condition_type_bound_to_export_account,
  condition_type_valid_rules, condition_type_adopted_by_account, condition_reason_ok,
  condition_reason_nok, condition_reason_ready, condition_reason_not_ready,
  condition_reason_invalid, condition_reason_not_found, condition_reason_conflict,
  condition_reason_adopting, condition_reason_failed,
}
use nauth.Controller.Converter.{to_nauth_imports_from_rules, to_api_account_import_rule_derived}
use nauth.Controller.Exports.{same_generation}
use nauth.Controller.Status.{
  Requeue, Client, new_condition, sort_conditions, find_adoption_by_uid, patch_labels,
  set_condition, update_status,
}
use nauth.Controller.References.{get_conditioned_account, id_or_label}

abbrev pub import_client : World → Client AccountImport
import_client world = record {
  patch_call = KubeCall.patch_import;
  patch = world.patch_import;
  update_status_call = KubeCall.update_import_status;
  update_status = world.update_import_status;
  conditions = λ i. i.status.conditions;
  with_conditions = λ i cs. record i { status = record (i.status) { conditions = cs } };
}

unfoldable pub derive_from : ℕ → List Account.Import → Result (List AccountImportRuleDerived)
derive_from i [] = ok []
derive_from i (imp ∷ imports) =
    let rest = derive_from (suc i) imports in
    and_then
      (wrap "failed to convert rule to derived rule for import at index %d: %w" (num i ∷ [])
        (to_api_account_import_rule_derived imp))
      λ derived. and_then rest λ result. ok (derived ∷ result)

module _ (w : Setting) where
  unfoldable pub validate_import_rules :
      String → String → List AccountImportRule → Result (List AccountImportRuleDerived)
  unfolding derive_from
  validate_import_rules import_account_id export_account_id rules =
      and_then (reject (import_account_id == "") (errorf "import account ID is required" [])) λ _.
        and_then (reject (export_account_id == "") (errorf "export account ID is required" [])) λ _.
          and_then (reject (is_nil rules) (errorf "at least one rule is required" [])) λ _.
            and_then
              (wrap "failed to convert rules to domain imports: %w" []
                (to_nauth_imports_from_rules export_account_id rules))
              λ imports.
                and_then
                  (wrap "rules validation failed: %w" []
                    (check (validate_imports w.jwt import_account_id imports)))
                  λ _. derive_from 0 imports

module _ (w : Setting) (k : Machinery) where
  -- The labels that are set, and whether any is.
  unfoldable pub with_labels : AccountImport → String → String → AccountImport × Bool
  unfolding get_label set_label
  with_labels resource import_account_id export_account_id =
      let upsert : String → String → AccountImport × Bool → AccountImport × Bool =
        λ label id (r, patch).
          if not (id == "") && not (id == get_label r.meta label)
          then (record r { meta = set_label r.meta label id }, true)
          else (r, patch) in
      upsert account_import_label_export_account_id export_account_id
        (upsert account_import_label_account_id import_account_id (resource, false))

  abbrev pub set_import_condition : AccountImport → Condition → AccountImport
  set_import_condition state c = set_condition (import_client w.world) k state c

  -- The condition of the rules, and the claim to adopt if they are valid.
  unfoldable pub with_rules :
      AccountImport → Result (List AccountImportRuleDerived) → AccountImport × Condition
  with_rules state (err e) = (
    state,
    new_condition condition_type_valid_rules condition_false condition_reason_nok (error_text e),
  )
  with_rules state (ok derived) = (
    record state {
      status = record (state.status) {
        desired_claim =
            some (record { rules = derived; observed_generation = state.meta.generation });
      };
    },
    new_condition condition_type_valid_rules condition_true condition_reason_ok
        (literal "Rules validation successful"),
  )

  abbrev pub import_adoption_of : Option Accounts.Account → String → Option AccountAdoption
  import_adoption_of none uid = none
  import_adoption_of (some account) uid = elim account.status.adoptions [
    | none ↦ none
    | some adoptions ↦ find_adoption_by_uid adoptions.imports uid
  ]

  unfoldable pub adopted_condition : ℤ → Option AccountAdoption → Condition
  adopted_condition generation none =
      new_condition condition_type_adopted_by_account condition_false condition_reason_adopting
        (literal "waiting for account to adopt import")
  adopted_condition generation (some adoption) =
      let same = same_generation adoption.status.desired_claim_observed_generation generation in
      if adoption.status.status == condition_true && same
      then new_condition condition_type_adopted_by_account condition_true condition_reason_ok
          (literal "")
      else if not same
      then new_condition condition_type_adopted_by_account condition_false condition_reason_adopting
          (sprintf "waiting for account to adopt generation %d" (int generation ∷ []))
      else new_condition condition_type_adopted_by_account condition_false condition_reason_failed
          (text_in "%s: %s" (str adoption.status.reason ∷ []) adoption.status.message)

  -- The loop over the conditions, with the condition `Ready` so far.
  set_conditions_from : AccountImport → Condition → List Condition → AccountImport
  set_conditions_from state ready [] = set_import_condition state ready
  set_conditions_from state ready (c ∷ conditions) =
      set_conditions_from
        (set_import_condition state (record c { observed_generation = state.meta.generation }))
        (if not (c.status == condition_true)
          then record ready { status = condition_false; reason = condition_reason_not_ready }
          else ready)
        conditions

  unfoldable pub set_conditions : AccountImport → List Condition → AccountImport
  unfolding set_conditions_from
  set_conditions state conditions =
      set_conditions_from state
        (record {
          type = condition_type_ready;
          status = condition_true;
          observed_generation = state.meta.generation;
          reason = condition_reason_ready;
          message = literal "";
        })
        conditions

  -- What the status becomes, once both accounts have been looked up and the labels are as they
  -- should be.
  unfoldable pub evaluate_import :
      AccountImport
      → Option Accounts.Account
      → Condition
      → Condition
      → Result (List AccountImportRuleDerived)
      → AccountImport
  unfolding with_rules adopted_condition set_conditions
  evaluate_import state import_account import_condition export_condition derived =
      let (claimed, valid_rules) = with_rules state derived in
      let adopted =
        adopted_condition state.meta.generation
          (import_adoption_of import_account state.meta.uid) in
      set_conditions claimed (import_condition ∷ export_condition ∷ valid_rules ∷ adopted ∷ [])

  finish_import :
      AccountImport × Bool
      → Option Accounts.Account
      → Condition
      → Condition
      → String
      → String
      → Fallible Requeue
  unfolding evaluate_import validate_import_rules
  finish_import (state, true) import_account import_condition export_condition import_id export_id =
      patch_labels (import_client w.world) state >> pure Requeue.immediately
  finish_import (state, false) import_account import_condition export_condition import_id
        export_id =
      let evaluated =
        evaluate_import state import_account import_condition export_condition
          (validate_import_rules w import_id export_id state.spec.rules) in
      update_status (import_client w.world) (record evaluated {
        status = record (evaluated.status) {
          conditions = sort_conditions evaluated.status.conditions;
        };
      })
      >> pure Requeue.never

  unfoldable pub reconcile_import : AccountImport → Fallible Requeue
  unfolding finish_import with_labels get_conditioned_account get_label
  reconcile_import state h =
      let import_label = get_label state.meta account_import_label_account_id in
      let ((import_account, import_found), h') =
        get_conditioned_account w k
          (record { namespace = state.meta.namespace; name = state.spec.account_name }) import_label
          h in
      let import_condition = record import_found { type = condition_type_bound_to_account } in
      let import_id = id_or_label w k import_account import_label in
      let state = set_import_condition state import_condition in
      let export_label = get_label state.meta account_import_label_export_account_id in
      let ((export_account, export_found), h'') =
        get_conditioned_account w k
          (record {
            namespace =
                if state.spec.export_account_ref.namespace == ""
                then state.meta.namespace
                else state.spec.export_account_ref.namespace;
            name = state.spec.export_account_ref.name;
          })
          export_label h' in
      let export_condition = record export_found {
        type = condition_type_bound_to_export_account;
      } in
      let export_id = id_or_label w k export_account export_label in
      let state = set_import_condition state export_condition in
      finish_import (with_labels state import_id export_id) import_account import_condition
        export_condition import_id export_id h''

  reconcile_found : Result AccountImport → Fallible Requeue
  unfolding reconcile_import
  reconcile_found (ok state) = reconcile_import state
  reconcile_found (err e) = if k.is_not_found (some e) then pure Requeue.never else raise e

  unfoldable pub reconcile : NamespacedName → Fallible Requeue
  unfolding reconcile_found
  reconcile request h =
      let (found, h') =
        perform (Call.kube (KubeCall.get_import request)) (λ h. w.world.get_import h request) h in
      reconcile_found found h'
