-- ===== src/Controller/Deletion/Observed.antt =====
-- What the controller of accounts does at the end of an account that it only observes.
use nauth.Common.{String, Bool, true, none, Result, ok, err, ◌≡◌, refl, ◌==◌}
use nauth.Domain.Errors
use nauth.Domain.Errors.{err_unknown_error}
use nauth.Domain.Account.{AccountReference, AccountId}
use nauth.Effects.{Call, KubeCall, Event, done, failed, Fallible}
use nauth.Effects.Emits.{
  Emits, Emits-if, Emits-then, Emits-bind, Emits-perform, Emits-wrapping, Emits-return, Emits-raise,
  Emits-lift, call_of,
}
use nauth.Secrets.Lookups.Calls.{is_lookup}
use nauth.Account.Keys.{Setting}
use nauth.Account.Keys.Calls.{Emits-secrets}
use nauth.Account.Import.{find_account_id}
use nauth.Account.Import.Verified.{is_reading}
use nauth.Api.{Machinery}
use nauth.Api.Accounts.{Account, account_management_policy_observe}
use nauth.Controller.{finalizer_account}
use nauth.Controller.Status.{account_client}
use nauth.Controller.Status.Steps.{Emits-update_status, Emits-report, Emits-reporting}
use nauth.Controller.Requests.{find_exports_by_account_id, find_imports_by_account_id}
use nauth.Controller.Deletion.{
  listing, require_unbound, validate_account_deletion, identify, release, delete_managed,
  finish_deletion, validated_deletion, checked_deletion, delete_account,
}

-- Reading secrets and the JWT of an account in NATS, where a secret may get labels; asking for the
-- cluster of the account; and the calls on the resources themselves.
abbrev pub is_observing : Call → Bool
is_observing (Call.kube _) = true
is_observing (Call.get_target _) = true
is_observing c = is_reading c

abbrev pub IsObserving : Event → Type 0
IsObserving e = is_observing (call_of e) ≡ true

pub observing_of_reading : (c : Call) → is_reading c ≡ true → is_observing c ≡ true
observing_of_reading (Call.kube _) h = refl
observing_of_reading (Call.get_target _) h = refl
observing_of_reading _ h = h

pub observing_of_lookup : (c : Call) → is_lookup c ≡ true → is_observing c ≡ true
observing_of_lookup (Call.get_secret _) h = refl
observing_of_lookup (Call.get_secrets_by_labels _ _) h = refl
observing_of_lookup (Call.label_secret _ _) h = refl
observing_of_lookup _ h = cc

pub kube : (c : KubeCall) → IsObserving (done (Call.kube c)) × IsObserving (failed (Call.kube c))
kube c = (refl, refl)

pub unknown_or-Emits :
    {A : Type 0} {m : Fallible A} → Emits IsObserving m → Emits IsObserving (listing m)
unfolding listing
unknown_or-Emits em = record { events = λ h. em.events h }

module _ (w : Setting) where
  pub exports-Emits :
      (namespace : String) (id : AccountId)
      → Emits IsObserving (find_exports_by_account_id w.world namespace id)
  unfolding find_exports_by_account_id
  exports-Emits namespace id =
      Emits-then (Emits-lift _) λ _. Emits-wrapping _ _ (Emits-perform _ _ refl refl)

  pub imports-Emits :
      (namespace : String) (id : AccountId)
      → Emits IsObserving (find_imports_by_account_id w.world namespace id)
  unfolding find_imports_by_account_id
  imports-Emits namespace id =
      Emits-then (Emits-lift _) λ _. Emits-wrapping _ _ (Emits-perform _ _ refl refl)

  pub unbound-Emits :
      (namespace : String) (id : AccountId) → Emits IsObserving (require_unbound w namespace id)
  unfolding require_unbound
  unbound-Emits namespace id = Emits-then (unknown_or-Emits (Emits-perform _ _ refl refl)) λ _.
      Emits-then (Emits-lift _) λ _. Emits-then (unknown_or-Emits (exports-Emits namespace id)) λ _.
        Emits-then (Emits-lift _)
          λ _. Emits-then (unknown_or-Emits (imports-Emits namespace id)) λ _. Emits-lift _

  pub validate-Emits :
      (id : AccountId) (namespace : String)
      → Emits IsObserving (validate_account_deletion w id namespace)
  unfolding validate_account_deletion
  validate-Emits id namespace = Emits-if (id == "") (Emits-return tt) (unbound-Emits namespace id)

  pub found-Emits : (reference : AccountReference) → Emits IsObserving (find_account_id w reference)
  unfolding find_account_id
  found-Emits reference = Emits-then (Emits-lift _) λ _.
      Emits-then
        (Emits-secrets w reference.account_ref reference.account_id
          (λ e. observing_of_lookup (call_of e)))
        λ found.
          Emits-then (Emits-lift _) λ _. Emits-if found.found (Emits-lift _) (Emits-return none)

  pub identify-Emits : (reference : AccountReference) → Emits IsObserving (identify w reference)
  unfolding identify
  identify-Emits reference =
      Emits-if (reference.account_id == "")
        (Emits-then (found-Emits reference) λ found. Emits-return _) (Emits-return reference)

module _ (w : Setting) (k : Machinery) where
  pub release-Emits : (state : Account) → Emits IsObserving (release w k state)
  unfolding release
  release-Emits state = Emits-then (Emits-perform _ _ refl refl) λ _. Emits-return _

  pub finish-Emits :
      (state : Account) (reference : AccountReference)
      → Emits IsObserving (finish_deletion w k state reference account_management_policy_observe)
  unfolding finish_deletion delete_managed
  finish-Emits state reference =
      Emits-if (k.contains_finalizer state.meta.finalizers finalizer_account) (release-Emits state)
        (Emits-return _)

  pub validated-Emits :
      (state : Account) (reference : AccountReference) (r : Result (Unit {0}))
      → Emits IsObserving
          (validated_deletion w k state reference account_management_policy_observe r)
  unfolding validated_deletion
  validated-Emits state reference (ok _) = finish-Emits state reference
  validated-Emits state reference (err e) =
      Emits-if (Errors.is e err_unknown_error) (Emits-raise e)
        (Emits-report kube (account_client w.world) k state e)

  pub checked-Emits :
      (state : Account) (reference : AccountReference)
      → Emits IsObserving (checked_deletion w k state reference account_management_policy_observe)
  unfolding checked_deletion
  checked-Emits state reference = record {
    events = λ h.
        (Emits-bind (validate-Emits w reference.account_id state.meta.namespace)
            (λ r. validated-Emits state reference r)).events
          h;
  }

  pub delete-Emits :
      (state : Account) (reference : AccountReference)
      → Emits IsObserving (delete_account w k state reference account_management_policy_observe)
  unfolding delete_account
  delete-Emits state reference =
      Emits-then (Emits-update_status kube (account_client w.world) k _) λ state.
        Emits-reporting kube (account_client w.world) k state _ _
          (Emits-wrapping _ _ (identify-Emits w reference))
          λ reference. checked-Emits state reference
