-- ===== src/Controller/Status.antt =====
-- internal/adapter/inbound/controller: status.go, condition.go, kubernetes.go and adoption.go.
pub mod Steps
use Prim.Native.String.{compare as compare_strings}
use nauth.Common.{
  String, Bool, true, false, Option, none, some, List, [], ◌∷◌, pos, Error, Result, ok, err, ◌==◌,
  if◌then◌else◌,
}
use nauth.Effects
use nauth.Effects.{Call, KubeCall, History, Fallible, World, perform}
use nauth.Effects.Fallible.{◌>>=◌, ◌>>◌, pure, raise, wrapping}
use nauth.Api.{Condition, Text, literal, error_text, Machinery, condition_true, condition_false}
use nauth.Api.Accounts.{Account, AccountAdoption}
use nauth.Controller.{condition_type_ready, condition_reason_errored, condition_reason_reconciled}
use nauth.Controller.Converter.Order.{sort_func}

-- When a resource is looked at again: not by itself, after a quarter of a second, or after about
-- five minutes, spread at random. An error has it looked at again too.
pub data Requeue : Type 0 where
  never immediately spread : Requeue

abbrev pub new_condition : String → String → String → Text → Condition
new_condition type status reason message = record {
  type = type;
  status = status;
  observed_generation = pos 0;
  reason = reason;
  message = message;
}

-- `slices.SortFunc` by `cmp.Compare` of the types.
unfoldable pub sort_conditions : List Condition → List Condition
sort_conditions conditions = sort_func (λ a b. compare_strings a.type b.type) conditions

unfoldable pub find_adoption_by_uid : List AccountAdoption → String → Option AccountAdoption
find_adoption_by_uid [] uid = none
find_adoption_by_uid (adoption ∷ adoptions) uid =
    let rest = find_adoption_by_uid adoptions uid in
    if adoption.uid == uid then some adoption else rest

abbrev is_true : Option Condition → Bool
is_true none = false
is_true (some c) = c.status == condition_true

module _ (k : Machinery) where
  unfoldable pub conditions_ready : List Condition → List String → Bool
  conditions_ready conditions [] = true
  conditions_ready conditions (ct ∷ types) =
      let rest = conditions_ready conditions types in
      if is_true (k.find_status_condition conditions ct) then rest else false

-- What the client does with resources of one kind.
pub record Client (R : Type 0) : Type 0 where
  pub patch_call : R → KubeCall
  pub patch : History → R → Result R
  pub update_status_call : R → KubeCall
  pub update_status : History → R → Result R
  pub conditions : R → List Condition
  pub with_conditions : R → List Condition → R

abbrev pub account_client : World → Client Account
account_client world = record {
  patch_call = KubeCall.patch_account;
  patch = world.patch_account;
  update_status_call = KubeCall.update_account_status;
  update_status = world.update_account_status;
  conditions = λ a. a.status.conditions;
  with_conditions = λ a cs. record a { status = record (a.status) { conditions = cs } };
}

module _ {R : Type 0} (client : Client R) where
  -- The JSON of a map of strings never fails.
  unfoldable pub patch_labels : R → Fallible R
  patch_labels resource =
      wrapping "failed to patch labels: %w" []
        (perform (Call.kube (client.patch_call resource)) (λ h. client.patch h resource))

  unfoldable pub update_status : R → Fallible R
  update_status resource =
      perform (Call.kube (client.update_status_call resource))
        (λ h. client.update_status h resource)

  module _ (k : Machinery) where
    abbrev pub set_condition : R → Condition → R
    set_condition resource c =
        client.with_conditions resource (k.set_status_condition (client.conditions resource) c)

    unfoldable pub update_ready_status : R → String → String → Text → Fallible R
    unfolding update_status
    update_ready_status resource status reason message =
        wrapping "failed to update ready status: %w" [] (
          update_status
            (set_condition resource (new_condition condition_type_ready status reason message)))

    unfoldable pub update_ready_status_reconciled : R → Fallible R
    unfolding update_ready_status
    update_ready_status_reconciled resource =
        update_ready_status resource condition_true condition_reason_reconciled
          (literal "Successfully reconciled")

    -- `statusReporter.error`: it always returns an error, that of the update of the status first.
    unfoldable pub report : R → Error → Fallible Requeue
    unfolding update_status
    report regarding e = do
      perform (Call.kube (KubeCall.record_error e)) (λ h. ok tt)
      update_status (
          set_condition regarding (
            new_condition condition_type_ready condition_false condition_reason_errored
              (error_text e)))
      raise e

    report_or : {A : Type 0} → R → (A → Fallible Requeue) → Result A → Fallible Requeue
    unfolding report
    report_or regarding f (ok a) = f a
    report_or regarding f (err e) = report regarding e

    -- `if err != nil { return r.reporter.error(ctx, regarding, err) }` after a call.
    unfoldable pub reporting :
        {A : Type 0} → R → Fallible A → (A → Fallible Requeue) → Fallible Requeue
    unfolding report_or
    reporting regarding m f h = let (r, h') = m h in report_or regarding f r h'

    -- `statusReporter.status`.
    unfoldable pub report_status : R → Fallible Requeue
    unfolding update_status
    report_status object = do
      update_status (
          set_condition object (
            new_condition condition_type_ready condition_true condition_reason_reconciled
              (literal "Successfully reconciled")))
      pure Requeue.spread
