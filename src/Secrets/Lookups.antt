-- ===== src/Secrets/Lookups.antt =====
-- internal/core/secret.go: `getDeprecatedAccountSecretsByName` and `GetSecrets`.
pub mod Found
pub mod Calls
pub mod Serving
pub mod Apply
use nauth.Common.{
  StringMap, lookup, String, ◌<>◌, Bool, true, false, Option, none, some, List, [], ◌∷◌, ◌++◌, Arg,
  Error, Result, ok, err, str, wrapf, join, join_all, check, and_then, ◌==◌, if◌then◌else◌,
}
use nauth.Jwt.{Library}
use nauth.Domain.Names
use nauth.Domain.Names.{K8s, NamespacedName, to_string}
use nauth.Effects
use nauth.Effects.{Schedule, World, History, Plain, perform, perform_check}
use nauth.Effects.Plain.{◌>>=◌, ◌>>◌, pure}
use nauth.Secrets.{
  Secrets, secret_label_account_id, label_secret_type, label_managed, label_managed_value,
  secret_type_account_root, secret_type_account_sign,
}
use nauth.Secrets.Reading.{
  Lookup, SecretsByType, to_account_secrets, validated_result, get_account_secrets_by_account_id,
  get_account_secrets_by_account_name,
}

-- What one of the two readers sends: an error, no secret, or the secret marked with its type.
abbrev pub Sent : Type 0
Sent = Result (Option StringMap)

-- A reader after its first call: it has its result, or it has a secret still to be labelled.
pub data Reader : Type 0 where
  finished : Sent → Reader
  labelling : StringMap → Reader

abbrev key_of : Option String → String
key_of none = ""
key_of (some t) = t

-- The loop over the channel: errors are gathered, and secrets are kept by their types.
unfoldable pub receive : List Sent → List Error → SecretsByType → List Error × SecretsByType
unfolding lookup
receive [] errs secrets = (errs, secrets)
receive (err e ∷ sent) errs secrets = receive sent (errs ++ (e ∷ [])) secrets
receive (ok none ∷ sent) errs secrets = receive sent errs secrets
receive (ok (some secret) ∷ sent) errs secrets =
    receive sent errs ((key_of (lookup label_secret_type secret), secret) ∷ secrets)

module _ (jwt : Library) where
  -- The two readers mark their secrets with different types, so the map has two entries or fewer.
  unfoldable pub resolve_secrets : SecretsByType → Result (Option Secrets)
  unfolding to_account_secrets
  resolve_secrets (a ∷ b ∷ rest) =
      and_then (to_account_secrets jwt (a ∷ b ∷ rest)) λ result. ok (some result)
  resolve_secrets _ = ok none

  unfoldable pub resolve : List Error × SecretsByType → Result (Option Secrets)
  unfolding resolve_secrets
  resolve (errs, secrets) = elim (join_all errs) [ some e ↦ err e | none ↦ resolve_secrets secrets ]

  module _ (world : World) where
    unfoldable pub read_deprecated : NamespacedName → Plain Reader
    read_deprecated secret_ref = do
      answer ← perform (Effects.Call.get_secret secret_ref) (λ h. world.get_secret h secret_ref)
      pure (elim answer [
        | err e ↦ finished (err e)
        | ok none ↦ finished (ok none)
        | ok (some secret) ↦ labelling secret
      ])

    -- That a secret cannot be labelled is logged, and no error.
    unfoldable pub label_deprecated : NamespacedName → String → String → Reader → Plain Sent
    label_deprecated secret_ref account_id secret_type (finished sent) = pure sent
    label_deprecated secret_ref account_id secret_type (labelling secret) = do
      let labels =
          (secret_label_account_id, account_id)
          ∷ (label_secret_type, secret_type)
          ∷ (label_managed, label_managed_value)
          ∷ []
      perform_check (Effects.Call.label_secret secret_ref labels)
          (λ h. world.label_secret h secret_ref labels)
      pure (ok (some ((label_secret_type, secret_type) ∷ secret)))

    abbrev pub root_ref : NamespacedName → NamespacedName
    root_ref account_ref = record {
      namespace = account_ref.namespace;
      name = account_ref.name <> "-ac-root";
    }

    abbrev pub sign_ref : NamespacedName → NamespacedName
    sign_ref account_ref = record {
      namespace = account_ref.namespace;
      name = account_ref.name <> "-ac-sign";
    }

    -- The calls of the two readers under each schedule, and what the root's and the sign's send.
    unfoldable pub run_readers : NamespacedName → String → Schedule → Plain (Sent × Sent)
    unfolding read_deprecated label_deprecated
    run_readers account_ref account_id schedule =
        let root = read_deprecated (root_ref account_ref) in
        let sign = read_deprecated (sign_ref account_ref) in
        let label_root =
          label_deprecated (root_ref account_ref) account_id secret_type_account_root in
        let label_sign =
          label_deprecated (sign_ref account_ref) account_id secret_type_account_sign in
        elim schedule [
          | Schedule.root_alone_first ↦ do
            r ← root
            a ← label_root r
            s ← sign
            b ← label_sign s
            pure (a, b)
          | Schedule.root_then_sign ↦ do
            r ← root
            s ← sign
            a ← label_root r
            b ← label_sign s
            pure (a, b)
          | Schedule.root_around_sign ↦ do
            r ← root
            s ← sign
            b ← label_sign s
            a ← label_root r
            pure (a, b)
          | Schedule.sign_alone_first ↦ do
            s ← sign
            b ← label_sign s
            r ← root
            a ← label_root r
            pure (a, b)
          | Schedule.sign_then_root ↦ do
            s ← sign
            r ← root
            b ← label_sign s
            a ← label_root r
            pure (a, b)
          | Schedule.sign_around_root ↦ do
            s ← sign
            r ← root
            a ← label_root r
            b ← label_sign s
            pure (a, b)
        ]

    unfoldable pub get_deprecated_account_secrets_by_name :
        NamespacedName → String → Plain (Result (Option Secrets))
    unfolding run_readers receive resolve
    get_deprecated_account_secrets_by_name account_ref account_id = do
      schedule ← (λ h. (world.schedule h, h))
      sent ← run_readers account_ref account_id schedule
      root_first ← (λ h. (world.root_sends_first h, h))
      let channel : List Sent = if root_first then sent.0 ∷ sent.1 ∷ [] else sent.1 ∷ sent.0 ∷ []
      pure (resolve (receive channel [] []))

-- One of the three attempts: what it finds is checked and returned; otherwise its error is joined
-- to the one before, and the next attempt follows.
module _ (jwt : Library) (account_id : String) (describe : Error → Error) (error : Option Error)
    (next : Option Error → Plain Lookup) where
  unfoldable pub conclude : Result (Option Secrets) → Plain Lookup
  conclude (ok (some secrets)) = pure (validated_result jwt secrets account_id)
  conclude (ok none) = next error
  conclude (err e) = next (some (join error (describe e)))

  unfoldable pub attempt : Plain (Result (Option Secrets)) → Plain Lookup
  unfolding conclude
  attempt search = search >>= conclude

abbrev pub not_found : Option Error → Plain Lookup
not_found error = pure (record { secrets = none; found = false; error = error })

module _ (k8s : K8s) (jwt : Library) (world : World) where
  unfoldable pub get_by_name_or_deprecated : NamespacedName → String → Option Error → Plain Lookup
  get_by_name_or_deprecated account_ref account_id error =
      attempt jwt account_id
        (wrapf "failed to get account secrets by account name %q: %w" (str account_ref.name ∷ []))
        error
        (λ error'.
          attempt jwt account_id
            (wrapf
              "failed to get account secrets by secret name (deprecated) for account name %q: %w"
              (str account_ref.name ∷ []))
            error' not_found
            (get_deprecated_account_secrets_by_name jwt world account_ref account_id))
        (get_account_secrets_by_account_name jwt world account_ref)

  unfoldable pub get_secrets : NamespacedName → String → Plain Lookup
  unfolding get_by_name_or_deprecated
  get_secrets account_ref account_id = elim (Names.validate k8s account_ref) [
    | some e ↦
        not_found
          (some (wrapf "invalid account reference %s: %w" (str (to_string k8s account_ref) ∷ []) e))
    | none ↦
        if account_id == ""
        then get_by_name_or_deprecated account_ref account_id none
        else attempt jwt account_id
            (wrapf "failed to get account secrets by account ID %q: %w" (str account_id ∷ [])) none
            (get_by_name_or_deprecated account_ref account_id)
            (get_account_secrets_by_account_id jwt world account_ref.namespace account_id)
  ]
