-- ===== src/Account/Create.antt =====
-- internal/core/account.go: `CreateOrUpdate`.
pub mod Signing
pub mod Calls
pub mod Upload
use nauth.Common.{
  String, Bool, true, false, not, ◌&&◌, ◌||◌, Option, none, some, List, [], ◌∷◌, Arg, Error, Result,
  ok, err, str, errorf, wrapf, wrap, check, and_then, reject, join_all, ◌==◌, if◌then◌else◌,
}
use nauth.Jwt
use nauth.Jwt.{Library, KeyPair}
use nauth.Domain.Names.{to_string}
use nauth.Domain.Account
use nauth.Domain.Account.{AccountRequest}
use nauth.Domain.Adoptions.{AccountAdoptions, AccountResult}
use nauth.Claims.Builder
use nauth.Claims.Builder.{AccountClaimsBuilder, new_account_claims_builder, build}
use nauth.Claims.Convert.{convert_nats_account_claims}
use nauth.Claims.Hash.{hash_signed_account_jwt_claims}
use nauth.Effects
use nauth.Effects.{World, Fallible, perform, perform_check, deferred}
use nauth.Effects.Fallible.{◌>>=◌, ◌>>◌, pure, raise, lift, wrapping}
use nauth.Secrets.{Secrets, apply_root_secret, apply_sign_secret}
use nauth.Secrets.Reading.{Lookup}
use nauth.Account.Adopt.{adopt_export_groups, adopt_import_groups}
use nauth.Account.Keys.{
  Setting, or_empty, dereference, call, secrets_of, public_key, operator_public_key,
}

-- The root key pair with its public key, and the signing key pair.
pub record Keys : Type 0 where
  pub root : KeyPair
  pub root_public_key : String
  pub sign : KeyPair

abbrev get_display_name : Setting → AccountRequest → String
get_display_name w request =
    if request.display_name == "" then to_string w.k8s request.account_ref else request.display_name

-- The checks of what `GetSecrets` returned: for an update, and for a creation.
unfoldable pub check_secrets : AccountRequest → Lookup → Result (Unit {0})
check_secrets request l =
    if request.account_id == ""
    then (if l.found
        then wrap
            "existing account secrets are invalid; account creation requires manual intervention: %w"
            [] (check l.error)
        else ok tt)
    else (if l.found
        then and_then
            (wrap "failed to get account secrets for account %s: %w" (str request.account_id ∷ [])
              (check l.error))
            (λ _.
              reject (request.account_id == request.cluster_target.system_admin_creds.account_id)
                (errorf "reconciling system account is not supported" []))
        else err (errorf "account secrets not found for account %s" (str request.account_id ∷ [])))

module _ (w : Setting) where
  -- The secrets that were found, or new ones, which are stored before they are used.
  unfoldable pub create_keys : AccountRequest → Fallible Keys
  create_keys request = do
    root ←
        wrapping "failed to create account root key pair: %w" []
          (perform Effects.Call.create_account (λ h. w.world.create_account h))
    let root_public_key : String = or_empty (w.jwt.public_key root)
    sign ←
        wrapping "failed to create account signing key pair: %w" []
          (perform Effects.Call.create_account (λ h. w.world.create_account h))
    wrapping "failed to apply account root secret: %w" []
        (apply_root_secret w.k8s w.jwt w.hashing w.world request.account_ref root)
    wrapping "failed to apply account signing secret: %w" []
        (apply_sign_secret w.k8s w.jwt w.hashing w.world request.account_ref root_public_key sign)
    pure (record { root = root; root_public_key = root_public_key; sign = sign })

  unfoldable pub existing_keys : Lookup → Result Keys
  existing_keys l = and_then (dereference l.secrets) λ secrets.
      and_then
        (public_key w "failed to extract account root public key from existing secret: %w" []
          secrets.root)
        λ root_public_key.
          ok
            (record { root = secrets.root; root_public_key = root_public_key; sign = secrets.sign })

  unfoldable pub obtain_keys : AccountRequest → Lookup → Fallible Keys
  obtain_keys request l = if l.found then lift (existing_keys l) else create_keys request

  -- The chain of the builder's methods, the groups, and `build`.
  unfoldable pub start_claims : AccountRequest → String → String → AccountClaimsBuilder
  start_claims request account_public_key signing_public_key =
      let b = new_account_claims_builder w.jwt account_public_key request.jet_stream_enabled in
      let b = Builder.display_name b (get_display_name w request) in
      let b = Builder.signing_key w.jwt b signing_public_key in
      let b = Builder.account_limits b request.account_limits in
      let b = Builder.jet_stream_limits b request.jet_stream_limits in
      Builder.nats_limits b request.nats_limits

  unfoldable pub build_claims :
      AccountRequest → String → String → Result (Jwt.AccountClaims × AccountAdoptions)
  build_claims request account_public_key signing_public_key =
      let b = start_claims request account_public_key signing_public_key in
      let (export_error, b, exports) = adopt_export_groups w.jwt request.export_groups b [] in
      and_then (wrap "failed to adopt export groups: %w" [] (check export_error)) λ _.
        let (import_error, b, imports) = adopt_import_groups w.jwt request.import_groups b [] in
        and_then (wrap "failed to adopt import groups: %w" [] (check import_error)) λ _.
          and_then (wrap "failed to build NATS account claims: %w" [] (build w.jwt b))
            λ claims. ok (claims, record { exports = exports; imports = imports })

  -- The second half of `signAccountJWT`, with the blocking issues of the validation as one error.
  abbrev pub encode_if_valid :
      Option Error → Jwt.AccountClaims → KeyPair → Fallible (String × Jwt.AccountClaims)
  encode_if_valid (some e) claims operator_signing_key =
      raise (wrapf "account claims validation failed: %v" [] e)
  encode_if_valid none claims operator_signing_key =
      perform (Effects.Call.encode_account_claims claims operator_signing_key)
        (λ h. w.world.encode_account_claims h claims operator_signing_key)

  unfoldable pub sign_account_jwt :
      Jwt.AccountClaims → KeyPair → Fallible (String × Jwt.AccountClaims)
  sign_account_jwt claims operator_signing_key =
      encode_if_valid (join_all (w.jwt.validate_account_claims claims)) claims operator_signing_key

  -- The connection lasts until the function returns, so `rest` is in its scope.
  unfoldable pub upload : {A : Type 0} → AccountRequest → String → Fallible A → Fallible A
  upload request signed_jwt rest = do
    let cluster = request.cluster_target
    wrapping "failed to connect to NATS cluster: %w" [] (
        perform_check (Effects.Call.connect_system cluster.nats_url cluster.system_admin_creds)
          (λ h. w.world.connect_system h cluster.nats_url cluster.system_admin_creds))
    deferred Effects.Call.disconnect_system (do
      wrapping "failed to upload account jwt: %w" [] (
          perform_check (Effects.Call.upload_account_jwt signed_jwt)
            (λ h. w.world.upload_account_jwt h signed_jwt))
      rest)

  abbrev pub needs_upload : AccountRequest → String → Bool
  needs_upload request claims_hash =
      request.claims_hash == "" || not (request.claims_hash == claims_hash)

  unfoldable pub upload_if_changed :
      {A : Type 0} → AccountRequest → String → String → Fallible A → Fallible A
  unfolding upload
  upload_if_changed request signed_jwt claims_hash rest =
      if needs_upload request claims_hash then upload request signed_jwt rest else rest

  unfoldable pub account_result :
      Jwt.AccountClaims → Keys → String → String → AccountAdoptions → Result AccountResult
  account_result claims keys signed_by claims_hash adoptions =
      and_then
        (wrap "failed to convert NATS account claims: %w" []
          (convert_nats_account_claims w.jwt (some claims)))
        λ nauth_claims. ok (record {
          account_id = keys.root_public_key;
          account_signed_by = signed_by;
          claims = some nauth_claims;
          claims_hash = claims_hash;
          adoptions = some adoptions;
        })

  -- The second half of `CreateOrUpdate`, once the keys are there.
  unfoldable pub publish : AccountRequest → Keys → Fallible AccountResult
  unfolding build_claims sign_account_jwt upload_if_changed account_result
  publish request keys = do
    signing_public_key ←
        lift (public_key w "failed to extract account signing public key: %w" [] keys.sign)
    signed_by ← lift (operator_public_key w request.cluster_target)
    built ← lift (build_claims request keys.root_public_key signing_public_key)
    operator_key ← lift (dereference request.cluster_target.operator_signing_key)
    signed ← wrapping "failed to sign account jwt: %w" [] (sign_account_jwt built.0 operator_key)
    claims_hash ← lift (
        wrap "failed to hash account claims: %w" [] (hash_signed_account_jwt_claims w.jwt signed.0))
    upload_if_changed request signed.0 claims_hash
        (lift (account_result signed.1 keys signed_by claims_hash built.1))

  unfoldable pub create_or_update : AccountRequest → Fallible AccountResult
  unfolding check_secrets obtain_keys publish
  create_or_update request = do
    lift (wrap "invalid account request: %w" [] (check (Account.validate w.k8s request)))
    found ← call (secrets_of w request.account_ref request.account_id)
    lift (check_secrets request found)
    keys ← obtain_keys request found
    publish request keys
