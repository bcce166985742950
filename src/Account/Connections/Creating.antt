-- ===== src/Account/Connections/Creating.antt =====
-- The connections of `CreateOrUpdate`: internal/core/account.go.
use nauth.Common.{String, Bool, true, false, Result, Bool-cases, inl, inr, if◌then◌else◌}
use nauth.Jwt.{KeyPair}
use nauth.Domain.Names.{NamespacedName}
use nauth.Domain.Account.{AccountRequest}
use nauth.Effects.{Call}
use nauth.Effects.Fallible.{lift}
use nauth.Effects.Emits.{
  Emits, Emits-then, Emits-perform, Emits-perform_check, Emits-wrapping, Emits-return, Emits-lift,
}
use nauth.Effects.Connections.{IsBalanced, IsNeutral, IsBalanced-neutral, IsBalanced-then}
use nauth.Secrets.{
  root_name, sign_name, secret_type_account_root, secret_type_account_sign, apply_account_secret,
  apply_root_secret, apply_sign_secret,
}
use nauth.Secrets.Reading.{Lookup}
use nauth.Account.Keys.{Setting}
use nauth.Account.Create.Signing.{sign-Emits}
use nauth.Account.Create.{
  Keys, create_keys, obtain_keys, upload, needs_upload, upload_if_changed, publish,
  create_or_update,
}
use nauth.Account.Connections.Steps.{
  neutral, IsBalanced-lift, secrets-IsBalanced, system-IsBalanced,
}

module _ (w : Setting) where
  apply-Emits :
      (ref : NamespacedName) (id : String) (name : String → String → String) (type : String)
      (key : KeyPair)
      → Emits IsNeutral (apply_account_secret w.k8s w.jwt w.hashing w.world ref id name type key)
  unfolding apply_account_secret
  apply-Emits ref id name type key = Emits-then (Emits-lift _) λ _. Emits-then (Emits-lift _) λ _.
      Emits-then (Emits-lift _)
        λ seed. Emits-wrapping _ _ (Emits-perform_check (Call.apply_secret _ _) _ neutral neutral)

  create_keys-Emits : (request : AccountRequest) → Emits IsNeutral (create_keys w request)
  unfolding create_keys apply_root_secret apply_sign_secret
  create_keys-Emits request =
      Emits-then (Emits-wrapping _ _ (Emits-perform Call.create_account _ neutral neutral)) λ root.
        Emits-then (Emits-wrapping _ _ (Emits-perform Call.create_account _ neutral neutral))
          λ sign.
            Emits-then
              (Emits-wrapping _ _ (
                Emits-then (Emits-lift _)
                  λ id. apply-Emits request.account_ref id root_name secret_type_account_root root))
              λ _.
                Emits-then
                  (Emits-wrapping _ _
                    (apply-Emits request.account_ref _ sign_name secret_type_account_sign sign))
                  λ _. Emits-return _

  obtain_keys-Emits :
      (request : AccountRequest) (l : Lookup) → Emits IsNeutral (obtain_keys w request l)
  unfolding obtain_keys
  obtain_keys-Emits request l = elim (Bool-cases l.found) [
    | inl yes' ↦ rw yes' (Emits-lift _)
    | inr no' ↦ rw no' (create_keys-Emits request)
  ]

  branch-IsBalanced :
      {A : Type 0} (b : Bool) (request : AccountRequest) (jwt : String) (r : Result A)
      → IsBalanced {A = A} (if b then upload w request jwt (lift r) else lift r)
  unfolding upload
  branch-IsBalanced true request jwt r = system-IsBalanced w request.cluster_target _ (
      IsBalanced-neutral (
        Emits-then
          (Emits-wrapping _ _ (Emits-perform_check (Call.upload_account_jwt jwt) _ neutral neutral))
          λ _. Emits-lift r))
  branch-IsBalanced false request jwt r = IsBalanced-lift r

  upload-IsBalanced :
      {A : Type 0} (request : AccountRequest) (jwt hash : String) (r : Result A)
      → IsBalanced (upload_if_changed w request jwt hash (lift r))
  unfolding upload_if_changed
  upload-IsBalanced request jwt hash r =
      branch-IsBalanced (needs_upload w request hash) request jwt r

  publish-IsBalanced :
      (request : AccountRequest) (keys : Keys) → IsBalanced (publish w request keys)
  unfolding publish
  publish-IsBalanced request keys = IsBalanced-then (IsBalanced-lift _) λ _.
      IsBalanced-then (IsBalanced-lift _) λ _. IsBalanced-then (IsBalanced-lift _) λ built.
        IsBalanced-then (IsBalanced-lift _) λ key.
          IsBalanced-then
            (IsBalanced-neutral
              (Emits-wrapping _ _ (sign-Emits w (λ _ _. (neutral, neutral)) built.0 key)))
            λ signed.
              IsBalanced-then (IsBalanced-lift _) λ hash. upload-IsBalanced request signed.0 hash _

  pub create_or_update-IsBalanced :
      (request : AccountRequest) → IsBalanced (create_or_update w request)
  unfolding create_or_update
  create_or_update-IsBalanced request = IsBalanced-then (IsBalanced-lift _) λ _.
      IsBalanced-then (secrets-IsBalanced w _ _) λ found. IsBalanced-then (IsBalanced-lift _) λ _.
        IsBalanced-then (IsBalanced-neutral (obtain_keys-Emits request found))
          λ keys. publish-IsBalanced request keys
