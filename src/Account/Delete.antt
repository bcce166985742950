-- ===== src/Account/Delete.antt =====
-- internal/core/account.go: `Delete`.
pub mod Credentials
pub mod Order
use nauth.Common.{
  ℕ, ◌+◌, String, Bool, true, false, not, Option, none, some, List, [], ◌∷◌, length, pos, Arg,
  Error, Result, ok, err, str, num, strs, errorf, wrap, check, reject, ◌==◌, if◌then◌else◌,
}
use nauth.Jwt
use nauth.Jwt.{KeyPair}
use nauth.Domain.Names.{to_string, is_nil}
use nauth.Domain.Creds.{NatsUserCreds, new_nats_user_creds}
use nauth.Domain.Cluster.{ClusterTarget}
use nauth.Domain.Account
use nauth.Domain.Account.{AccountReference}
use nauth.Effects
use nauth.Effects.{Fallible, perform, perform_check, deferred}
use nauth.Effects.Fallible.{◌>>=◌, ◌>>◌, pure, lift, wrapping}
use nauth.Secrets.{Secrets, delete_all}
use nauth.Secrets.Reading.{Lookup}
use nauth.Account.Keys.{Setting, or_empty, dereference, call, secrets_of, operator_public_key}

module _ (w : Setting) where
  -- Credentials of a new user, with thirty seconds to use the JetStream API of the account. The
  -- error of `CreateUser` is ignored, and the nil key pair is used: that ends the function too.
  unfoldable pub create_temp_jet_stream_creds : String → KeyPair → Fallible NatsUserCreds
  create_temp_jet_stream_creds account_id account_key_pair = do
    user ← perform Effects.Call.create_user (λ h. w.world.create_user h)
    let user_public_key = or_empty (w.jwt.public_key user)
    let user_seed = or_empty (w.jwt.seed user)
    expires ← call (λ h. (pos (w.world.now h + 30), h))
    let claims : Jwt.UserClaims = record (w.jwt.new_user_claims user_public_key) {
      issuer_account = account_id;
      expires = expires;
      publish = record { allow = "$JS.API.>" ∷ []; deny = [] };
      subscribe = record { allow = "_INBOX.>" ∷ []; deny = [] };
      resp = none;
    }
    signed ← wrapping "sign temporary user JWT: %w" [] (
        perform (Effects.Call.encode_user_claims claims account_key_pair)
          (λ h. w.world.encode_user_claims h claims account_key_pair))
    user_creds ← lift (
        wrap "format temporary user credentials: %w" []
          (w.jwt.format_user_config signed.0 user_seed))
    lift (wrap "build user credentials: %w" [] (new_nats_user_creds w.jwt user_creds))

  unfoldable pub list_account_streams : ClusterTarget → Secrets → String → Fallible (List String)
  unfolding create_temp_jet_stream_creds
  list_account_streams cluster secrets account_id = do
    creds ←
        wrapping "failed to create temporary account JetStream credentials: %w" []
          (create_temp_jet_stream_creds account_id secrets.root)
    wrapping "failed to connect to NATS cluster for JetStream streams lookup: %w" [] (
        perform_check (Effects.Call.connect_account cluster.nats_url creds)
          (λ h. w.world.connect_account h cluster.nats_url creds))
    deferred Effects.Call.disconnect_account (
        wrapping "failed to lookup account JetStream streams: %w" []
          (perform Effects.Call.list_account_streams (λ h. w.world.list_account_streams h)))

  unfoldable pub require_no_streams : ClusterTarget → String → Lookup → Fallible (Unit {0})
  unfolding list_account_streams
  require_no_streams cluster account_id found = do
    secrets ← lift (dereference found.secrets)
    names ←
        wrapping "failed to list account streams: %w" []
          (list_account_streams cluster secrets account_id)
    lift (
        reject (not (is_nil names)) (
          errorf
            "account deletion aborted due to %d JetStream Stream(s) still exist for account: %s"
            (num (length names) ∷ strs names ∷ [])))

  -- An account whose secrets are found must have no streams. Without its secrets it is taken to be
  -- deleted in NATS already.
  unfoldable pub check_streams : ClusterTarget → String → Lookup → Fallible (Unit {0})
  unfolding require_no_streams
  check_streams cluster account_id found =
      if found.found then require_no_streams cluster account_id found else pure tt

  -- The deletion itself: of the account's JWT in NATS, and then of its secrets.
  unfoldable pub delete_jwt_and_secrets : AccountReference → String → Fallible (Unit {0})
  delete_jwt_and_secrets reference delete_jwt = do
    let cluster = reference.cluster_target
    wrapping "failed to connect to NATS: %w" [] (
        perform_check (Effects.Call.connect_system cluster.nats_url cluster.system_admin_creds)
          (λ h. w.world.connect_system h cluster.nats_url cluster.system_admin_creds))
    deferred Effects.Call.disconnect_system (do
      wrapping "failed to delete account JWT in NATS: %w" [] (
          perform_check (Effects.Call.delete_account_jwt delete_jwt)
            (λ h. w.world.delete_account_jwt h delete_jwt))
      wrapping "failed to delete account secrets: %w" []
          (delete_all w.k8s w.jwt w.hashing w.world reference.account_ref reference.account_id))

  unfoldable pub delete : AccountReference → Fallible (Unit {0})
  unfolding check_streams delete_jwt_and_secrets
  delete reference = do
    lift (
        wrap "invalid account reference: %w" []
          (check (Account.validate_reference w.k8s reference)))
    let account_id = reference.account_id
    operator_key_id ← lift (operator_public_key w reference.cluster_target)
    lift (
        reject (account_id == "") (
          errorf "account ID is missing for account %s"
            (str (to_string w.k8s reference.account_ref) ∷ [])))
    found ← call (secrets_of w reference.account_ref account_id)
    lift (wrap "failed to get secrets for account: %w" [] (check found.error))
    check_streams reference.cluster_target account_id found
    operator_key ← lift (dereference reference.cluster_target.operator_signing_key)
    delete_jwt ← wrapping "failed to sign account JWT: %w" [] (
        perform (Effects.Call.encode_deletion operator_key_id account_id operator_key)
          (λ h. w.world.encode_deletion h operator_key_id account_id operator_key))
    delete_jwt_and_secrets reference delete_jwt
