-- ===== src/Account/Connections.antt =====
-- No operation leaves a connection to NATS open: internal/core/account.go, internal/core/cluster.go.
pub mod Steps
pub mod Creating
pub mod Deleting
use nauth.Common.{
  String, Bool, true, false, Option, none, some, List, [], ◌∷◌, Error, Result, ok, err, ◌≡◌, refl,
  Bool-cases, inl, inr, if◌then◌else◌,
}
use nauth.Jwt
use nauth.Jwt.{KeyPair}
use nauth.Domain.Names.{NamespacedName}
use nauth.Domain.Cluster.{ClusterTarget}
use nauth.Domain.Account.{AccountRequest, AccountReference}
use nauth.Effects
use nauth.Effects.{Call, Event, done, failed, World, Fallible, perform_check, deferred}
use nauth.Effects.Fallible.{◌>>=◌, lift, wrapping, pure}
use nauth.Effects.Emits.{
  Emits, Emits-then, Emits-perform, Emits-perform_check, Emits-wrapping, Emits-return, Emits-lift,
  Emits-raise, Emits-only, Emits-pure, call_of,
}
use nauth.Effects.Connections.{
  IsBalanced, IsNeutral, IsBalanced-neutral, IsBalanced-then, IsBalanced-wrapping,
  IsBalanced-connection,
}
use nauth.Secrets.{
  Secrets, root_name, sign_name, secret_type_account_root, secret_type_account_sign,
  apply_account_secret, apply_root_secret, apply_sign_secret, delete_all,
}
use nauth.Secrets.Reading.{Lookup}
use nauth.Secrets.Lookups.Calls.{is_lookup, IsLookup}
use nauth.Account.Keys.{Setting, call, secrets_of}
use nauth.Account.Keys.Calls.{Emits-secrets, Emits-call}
use nauth.Account.Create.{
  Keys, create_keys, obtain_keys, sign_account_jwt, encode_if_valid, upload, needs_upload,
  upload_if_changed, publish, create_or_update,
}
use nauth.Account.Import.{read_account, import_account}
use nauth.Account.Delete.{
  create_temp_jet_stream_creds, list_account_streams, require_no_streams, check_streams,
  delete_jwt_and_secrets, delete,
}
use nauth.Cluster.{validate_cluster}
use nauth.Account.Connections.Steps.{
  neutral, IsBalanced-lift, secrets-IsBalanced, system-IsBalanced,
}
use nauth.Account.Connections.Creating.{create_or_update-IsBalanced}
use nauth.Account.Connections.Deleting.{delete-IsBalanced}

module _ (w : Setting) where
  read_account-Emits : (id : String) → Emits IsNeutral (read_account w id)
  unfolding read_account
  read_account-Emits id =
      Emits-then (Emits-wrapping _ _ (Emits-perform (Call.lookup_account_jwt id) _ neutral neutral))
        λ account_jwt. Emits-then (Emits-lift _) λ _. Emits-then (Emits-lift _) λ claims.
          Emits-then (Emits-lift _) λ nauth_claims. Emits-then (Emits-lift _) λ hash. Emits-return _

  import_account-IsBalanced :
      (reference : AccountReference) → IsBalanced (import_account w reference)
  unfolding import_account
  import_account-IsBalanced reference = IsBalanced-then (IsBalanced-lift _) λ _.
      IsBalanced-then (IsBalanced-lift _) λ _. IsBalanced-then (secrets-IsBalanced w _ _) λ found.
        IsBalanced-then (IsBalanced-lift _) λ _. IsBalanced-then (IsBalanced-lift _) λ _.
          IsBalanced-then (IsBalanced-lift _) λ secrets. IsBalanced-then (IsBalanced-lift _) λ key.
            IsBalanced-then (IsBalanced-lift _) λ _.
              system-IsBalanced w reference.cluster_target _
                (IsBalanced-neutral (read_account-Emits reference.account_id))

  validate_cluster-IsBalanced :
      (target : ClusterTarget) → IsBalanced (validate_cluster w.k8s w.world target)
  unfolding validate_cluster
  validate_cluster-IsBalanced target = IsBalanced-then (IsBalanced-lift _) λ _.
      system-IsBalanced w target _ (
        IsBalanced-neutral (
          Emits-wrapping _ _
            (Emits-perform_check Call.verify_system_account_access _ neutral neutral)))

  -- The operations that connect to NATS close as many connections as they open, on every branch and
  -- whatever the calls answer: `CreateOrUpdate`, `Import` and `Delete` of accounts, and the
  -- validation of a cluster.
  pub operations-IsBalanced :
      (request : AccountRequest) (reference : AccountReference) (target : ClusterTarget)
      → IsBalanced (create_or_update w request)
        × IsBalanced (import_account w reference)
        × IsBalanced (delete w reference)
        × IsBalanced (validate_cluster w.k8s w.world target)
  operations-IsBalanced request reference target = (
    create_or_update-IsBalanced w request,
    import_account-IsBalanced reference,
    delete-IsBalanced w reference,
    validate_cluster-IsBalanced target,
  )
