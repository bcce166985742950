-- ===== src/Secrets/Reading.antt =====
-- internal/core/secret.go: finding the key pairs of an account, by account ID, by account name and
-- by the deprecated names of the secrets.

use nauth.Common.{
  StringMap, lookup, String, Bool, true, ◌||◌, Option, none, some, List, [], ◌∷◌, Error, Result, ok,
  err, str, errorf, wrapf, wrap, and_then, ◌==◌, if◌then◌else◌,
}
use nauth.Jwt.{Library, KeyPair}
use nauth.Domain.Names.{NamespacedName}
use nauth.Effects
use nauth.Effects.{K8sSecret, Schedule, World, History, Plain, perform, perform_check}
use nauth.Effects.Plain.{◌>>=◌, pure}
use nauth.Secrets.{
  Secrets, secret_label_account_id, secret_label_account_name, label_secret_type, label_managed,
  label_managed_value, secret_type_account_root, secret_type_account_sign, default_secret_key_name,
}

-- What `GetSecrets` returns: the secrets (or nil), whether they were found, and an error (or nil).
pub record Lookup : Type 0 where
  pub secrets : Option Secrets
  pub found : Bool
  pub error : Option Error

abbrev pub SecretsByType : Type 0
SecretsByType = List (String × StringMap)

abbrev get_or_empty : Option String → String
get_or_empty none = ""
get_or_empty (some v) = v

module _ (jwt : Library) where
  unfoldable pub to_key_pair : SecretsByType → String → Result KeyPair
  unfolding lookup
  to_key_pair secrets secret_type = elim (lookup secret_type secrets) [
    | none ↦ err (errorf "secret of type '%s' not found" (str secret_type ∷ []))
    | some secret ↦ elim (lookup default_secret_key_name secret) [
      | none ↦ err (
          errorf "secret of type '%s' does not contain key '%s'"
            (str secret_type ∷ str default_secret_key_name ∷ []))
      | some seed ↦
          wrap "create key pair from secret of type '%s': %w" (str secret_type ∷ [])
            (jwt.from_seed seed)
    ]
  ]

  unfoldable pub to_account_secrets : SecretsByType → Result Secrets
  unfolding to_key_pair
  to_account_secrets secrets =
      and_then
        (wrap "resolve account root key pair: %w" [] (to_key_pair secrets secret_type_account_root))
        λ root.
          and_then
            (wrap "resolve account signing key pair: %w" []
              (to_key_pair secrets secret_type_account_sign))
            λ sign. ok (record { root = root; sign = sign })

  -- The loop over the secrets, with the map that it fills.
  unfoldable pub collect_by_type : List K8sSecret → SecretsByType → Result SecretsByType
  unfolding lookup
  collect_by_type [] secrets = ok secrets
  collect_by_type (secret ∷ items) secrets =
      let secret_type = get_or_empty (lookup label_secret_type secret.labels) in
      let rest = collect_by_type items ((secret_type, secret.contents) ∷ secrets) in
      elim (lookup secret_type secrets) [
        | some _ ↦ err (errorf "multiple secrets of type '%s' found" (str secret_type ∷ []))
        | none ↦ rest
      ]

  -- `none` where no secrets are found and there is no error.
  unfoldable pub get_account_secrets_from_k8s_secrets : List K8sSecret → Result (Option Secrets)
  unfolding collect_by_type to_account_secrets
  get_account_secrets_from_k8s_secrets (a ∷ b ∷ []) =
      and_then (collect_by_type (a ∷ b ∷ []) [])
        λ secrets. and_then (to_account_secrets secrets) λ result. ok (some result)
  get_account_secrets_from_k8s_secrets _ = ok none

  unfoldable pub validated_result : Secrets → String → Lookup
  validated_result result account_id = elim (jwt.public_key result.root) [
    | err e ↦ record {
      secrets = none;
      found = true;
      error = some (
          wrapf "unable to validate result, failed to get public key from account root secret: %w"
            [] e);
    }
    | ok root_public_key ↦
        if account_id == "" || root_public_key == account_id
        then record { secrets = some result; found = true; error = none }
        else record {
          secrets = none;
          found = true;
          error = some (
              errorf
                "account root public key (%s) in found secret does not match expected account ID (%s)"
                (str root_public_key ∷ str account_id ∷ []));
        }
  ]

  module _ (world : World) where
    unfoldable pub get_account_secrets_by_labels :
        String → StringMap → Plain (Result (Option Secrets))
    unfolding get_account_secrets_from_k8s_secrets
    get_account_secrets_by_labels namespace labels = do
      found ←
          perform (Effects.Call.get_secrets_by_labels namespace labels)
            (λ h. world.get_secrets_by_labels h namespace labels)
      pure (and_then found get_account_secrets_from_k8s_secrets)

    unfoldable pub get_account_secrets_by_account_id :
        String → String → Plain (Result (Option Secrets))
    unfolding get_account_secrets_by_labels
    get_account_secrets_by_account_id namespace account_id =
        get_account_secrets_by_labels namespace
          ((secret_label_account_id, account_id) ∷ (label_managed, label_managed_value) ∷ [])

    unfoldable pub get_account_secrets_by_account_name :
        NamespacedName → Plain (Result (Option Secrets))
    unfolding get_account_secrets_by_labels
    get_account_secrets_by_account_name account_ref =
        get_account_secrets_by_labels account_ref.namespace (
          (secret_label_account_name, account_ref.name) ∷ (label_managed, label_managed_value) ∷ [])
