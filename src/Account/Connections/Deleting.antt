-- ===== src/Account/Connections/Deleting.antt =====
-- The connections of `Delete`: internal/core/account.go.
use nauth.Common.{String, [], refl, Bool-cases, inl, inr}
use nauth.Domain.Names.{NamespacedName}
use nauth.Domain.Cluster.{ClusterTarget}
use nauth.Domain.Account.{AccountReference}
use nauth.Effects.{Call}
use nauth.Effects.Emits.{
  Emits, Emits-then, Emits-perform, Emits-perform_check, Emits-wrapping, Emits-return, Emits-lift,
}
use nauth.Effects.Connections.{
  IsBalanced, IsNeutral, IsBalanced-neutral, IsBalanced-then, IsBalanced-wrapping,
  IsBalanced-connection,
}
use nauth.Secrets.{Secrets, delete_all}
use nauth.Secrets.Reading.{Lookup}
use nauth.Account.Keys.{Setting}
use nauth.Account.Delete.Credentials.{credentials-Emits}
use nauth.Account.Delete.{
  list_account_streams, require_no_streams, check_streams, delete_jwt_and_secrets, delete,
}
use nauth.Account.Connections.Steps.{
  neutral, IsBalanced-lift, secrets-IsBalanced, system-IsBalanced,
}

module _ (w : Setting) where
  streams-IsBalanced :
      (cluster : ClusterTarget) (secrets : Secrets) (id : String)
      → IsBalanced (list_account_streams w cluster secrets id)
  unfolding list_account_streams
  streams-IsBalanced cluster secrets id =
      IsBalanced-then
        (IsBalanced-wrapping _ _ (
          IsBalanced-neutral
            (credentials-Emits w (neutral, neutral) (λ _ _. (neutral, neutral)) id secrets.root)))
        λ creds.
          IsBalanced-connection (Call.connect_account cluster.nats_url creds)
            Call.disconnect_account _ [] _ (refl, refl) (refl, refl)
            (IsBalanced-neutral
              (Emits-wrapping _ _ (Emits-perform Call.list_account_streams _ neutral neutral)))
            (λ h. w.world.connect_account h cluster.nats_url creds)

  require-IsBalanced :
      (cluster : ClusterTarget) (id : String) (found : Lookup)
      → IsBalanced (require_no_streams w cluster id found)
  unfolding require_no_streams
  require-IsBalanced cluster id found = IsBalanced-then (IsBalanced-lift _) λ secrets.
      IsBalanced-then (IsBalanced-wrapping _ _ (streams-IsBalanced cluster secrets id))
        λ names. IsBalanced-lift _

  check-IsBalanced :
      (cluster : ClusterTarget) (id : String) (found : Lookup)
      → IsBalanced (check_streams w cluster id found)
  unfolding check_streams
  check-IsBalanced cluster id found = elim (Bool-cases found.found) [
    | inl yes' ↦ rw (yes', check_streams) (require-IsBalanced cluster id found)
    | inr no' ↦ rw (no', check_streams) (IsBalanced-neutral (Emits-return tt))
  ]

  delete_all-Emits :
      (ref : NamespacedName) (id : String)
      → Emits IsNeutral (delete_all w.k8s w.jwt w.hashing w.world ref id)
  unfolding delete_all
  delete_all-Emits ref id =
      Emits-then (Emits-lift _)
        λ _. Emits-perform_check (Call.delete_secrets_by_labels _ _) _ neutral neutral

  removal-IsBalanced :
      (reference : AccountReference) (jwt : String)
      → IsBalanced (delete_jwt_and_secrets w reference jwt)
  unfolding delete_jwt_and_secrets
  removal-IsBalanced reference jwt = system-IsBalanced w reference.cluster_target _ (
      IsBalanced-neutral (
        Emits-then
          (Emits-wrapping _ _ (Emits-perform_check (Call.delete_account_jwt jwt) _ neutral neutral))
          λ _. Emits-wrapping _ _ (delete_all-Emits reference.account_ref reference.account_id)))

  pub delete-IsBalanced : (reference : AccountReference) → IsBalanced (delete w reference)
  unfolding delete
  delete-IsBalanced reference = IsBalanced-then (IsBalanced-lift _) λ _.
      IsBalanced-then (IsBalanced-lift _) λ operator_key_id.
        IsBalanced-then (IsBalanced-lift _) λ _. IsBalanced-then (secrets-IsBalanced w _ _) λ found.
          IsBalanced-then (IsBalanced-lift _) λ _.
            IsBalanced-then (check-IsBalanced reference.cluster_target _ found) λ _.
              IsBalanced-then (IsBalanced-lift _) λ operator_key.
                IsBalanced-then
                  (IsBalanced-neutral (
                    Emits-wrapping _ _
                      (Emits-perform (Call.encode_deletion _ _ _) _ neutral neutral)))
                  λ jwt. removal-IsBalanced reference jwt
