-- ===== src/Account/Import.antt =====
-- internal/core/account.go: `Import` and `FindAccountID`.
pub mod Verified
use nauth.Common.{
  String, Bool, true, false, not, Option, none, some, List, [], ◌∷◌, Arg, Error, Result, ok, err,
  str, errorf, wrap, check, reject, and_then, ◌==◌, if◌then◌else◌,
}
use nauth.Jwt
use nauth.Domain.Names
use nauth.Domain.Names.{to_string}
use nauth.Domain.Account
use nauth.Domain.Account.{AccountReference, AccountId}
use nauth.Domain.Adoptions.{AccountResult}
use nauth.Claims.Convert.{convert_nats_account_claims}
use nauth.Claims.Hash.{hash_signed_account_jwt_claims}
use nauth.Effects
use nauth.Effects.{Fallible, perform, perform_check, deferred}
use nauth.Effects.Fallible.{◌>>=◌, ◌>>◌, pure, lift, wrapping}
use nauth.Account.Keys.{Setting, dereference, call, secrets_of, public_key}

module _ (w : Setting) where
  -- What is done over the connection: the JWT is looked up, decoded, converted and hashed.
  unfoldable pub read_account : String → Fallible AccountResult
  read_account account_id = do
    account_jwt ←
        wrapping "failed to lookup account jwt for account %s during import: %w"
          (str account_id ∷ [])
          (perform (Effects.Call.lookup_account_jwt account_id)
            (λ h. w.world.lookup_account_jwt h account_id))
    lift (
        reject (account_jwt == "")
          (errorf "account jwt for account %s not found during import" (str account_id ∷ [])))
    claims ← lift (
        wrap "failed to decode account jwt for account %s during import: %w" (str account_id ∷ [])
          (w.jwt.decode_account_claims account_jwt))
    nauth_claims ← lift (
        wrap "failed to convert NATS account claims for account %s during import: %w"
          (str account_id ∷ []) (convert_nats_account_claims w.jwt (some claims)))
    claims_hash ← lift (
        wrap "failed to hash account claims during import: %w" []
          (hash_signed_account_jwt_claims w.jwt account_jwt))
    pure (record {
      account_id = account_id;
      account_signed_by = claims.issuer;
      claims = some nauth_claims;
      claims_hash = claims_hash;
      adoptions = none;
    })

  unfoldable pub import_account : AccountReference → Fallible AccountResult
  unfolding read_account
  import_account reference = do
    lift (
        wrap "invalid account reference: %w" []
          (check (Account.validate_reference w.k8s reference)))
    let account_id = reference.account_id
    let cluster = reference.cluster_target
    lift (
        reject (account_id == "") (
          errorf "account ID is missing for account %s during import"
            (str (to_string w.k8s reference.account_ref) ∷ [])))
    found ← call (secrets_of w reference.account_ref account_id)
    lift (
        wrap "failed to get secrets for account %s during import: %w" (str account_id ∷ [])
          (check found.error))
    lift (
        reject (not found.found)
          (errorf "account secrets not found for account %s during import" (str account_id ∷ [])))
    secrets ← lift (dereference found.secrets)
    root_public_key ← lift (
        public_key w
          "failed to get account public key for account %s from existing seed during import: %w"
          (str account_id ∷ []) secrets.root)
    lift (
        reject (not (root_public_key == account_id)) (
          errorf "account root seed does not match account ID during import: expected %s, got %s"
            (str account_id ∷ str root_public_key ∷ [])))
    wrapping "failed to connect to NATS cluster during import: %w" [] (
        perform_check (Effects.Call.connect_system cluster.nats_url cluster.system_admin_creds)
          (λ h. w.world.connect_system h cluster.nats_url cluster.system_admin_creds))
    deferred Effects.Call.disconnect_system (read_account account_id)

  -- The account ID, or `none` where no secrets are found.
  unfoldable pub find_account_id : AccountReference → Fallible (Option AccountId)
  find_account_id reference = do
    lift (
        wrap "invalid account reference: %w" []
          (check (Names.validate w.k8s reference.account_ref)))
    found ← call (secrets_of w reference.account_ref reference.account_id)
    lift (wrap "failed to get account secrets for account ID lookup: %w" [] (check found.error))
    if found.found
        then lift (
            and_then (dereference found.secrets) λ secrets.
              and_then
                (public_key w "failed to extract account root public key from existing secret: %w"
                  [] secrets.root)
                λ id. ok (some id))
        else pure none
