-- ===== src/Adapter/Accounts.antt =====
-- internal/adapter/outbound/k8s/account.go: accounts and their IDs by reference.
use nauth.Common.{
  String, Bool, not, some, [], ◌∷◌, Error, Result, ok, err, str, wrapf, check, reject, ◌==◌,
  if◌then◌else◌,
}
use nauth.Domain.Errors.{
  err_unknown_error, err_bad_request, err_account_not_found, err_account_not_ready, with_cause,
}
use nauth.Domain.Names
use nauth.Domain.Names.{NamespacedName, to_string}
use nauth.Domain.Account.{AccountId}
use nauth.Effects.{Call, KubeCall, Fallible, perform}
use nauth.Effects.Fallible.{◌>>=◌, ◌>>◌, pure, lift}
use nauth.Account.Keys.{Setting}
use nauth.Api.{Machinery, get_label}
use nauth.Api.Accounts.{Account, account_label_account_id}

-- `if err != nil { return nil, domain.ErrX.WithCause(...) }`.
abbrev pub caused_by : {A : Type 0} → String → (Error → Error) → Result A → Result A
caused_by name f (ok a) = ok a
caused_by name f (err e) = err (with_cause name (some (f e)))

module _ (w : Setting) (k : Machinery) where
  unfoldable pub read_answer : NamespacedName → Result Account → Result Account
  read_answer account_ref (ok account) = ok account
  read_answer account_ref (err e) =
      if k.is_not_found (some e)
      then err (Error.sentinel err_account_not_found)
      else err (
          with_cause err_unknown_error (
            some (wrapf "failed to get account %q: %w" (str (to_string w.k8s account_ref) ∷ []) e)))

  unfoldable pub get_raw : NamespacedName → Fallible Account
  unfolding read_answer
  get_raw account_ref = do
    lift (
        caused_by err_bad_request
          (λ e. wrapf "invalid reference %q: %w" (str (to_string w.k8s account_ref) ∷ []) e)
          (check (Names.validate w.k8s account_ref)))
    λ h.
        let (answer, h') =
          perform (Call.kube (KubeCall.get_account account_ref))
            (λ h. w.world.get_account h account_ref) h in
        (read_answer account_ref answer, h')

  unfoldable pub is_ready : Account → Bool
  unfolding get_label
  is_ready account = not (get_label account.meta account_label_account_id == "")

  unfoldable pub get : NamespacedName → Fallible Account
  unfolding get_raw is_ready
  get account_ref = do
    account ← get_raw account_ref
    lift (reject (not (is_ready account)) (Error.sentinel err_account_not_ready))
    pure account

  unfoldable pub get_account_id : NamespacedName → Fallible AccountId
  unfolding get get_label
  get_account_id account_ref = do
    account ← get account_ref
    let account_id = get_label account.meta account_label_account_id
    lift (reject (account_id == "") (Error.sentinel err_account_not_ready))
    pure account_id
