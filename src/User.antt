-- ===== src/User.antt =====
-- internal/core/user.go: the manager of users, with the User of api/v1alpha1/user_types.go. Claims
-- of users are in the child.
pub mod Claims
pub mod Bound
use nauth.Common.{
  StringMap, ℕ, String, ◌<>◌, Bool, Option, none, some, List, [], ◌∷◌, Arg, Error, Result, ok, err,
  str, wrap, check, ◌==◌, if◌then◌else◌, lookup, set_entry, value_or_empty,
}
use nauth.Domain.Names
use nauth.Domain.Names.{NamespacedName, to_string}
use nauth.Effects
use nauth.Effects.{ObjectMeta, Fallible, perform, perform_check}
use nauth.Effects.Fallible.{◌>>=◌, ◌>>◌, pure, lift, wrapping}
use nauth.Secrets.{label_secret_type, label_managed, label_managed_value}
use nauth.Account.Keys.{Setting, call}
use nauth.Account.Sign.{SignedUserJwt, sign_user_jwt}
use nauth.User.Claims.{UserSpec, UserClaims, new_user_claims, to_nauth_user_claims}

abbrev pub user_label_user_id : String
user_label_user_id = "user.nauth.io/id"

abbrev pub user_label_account_id : String
user_label_account_id = "user.nauth.io/account-id"

abbrev pub user_label_signed_by : String
user_label_signed_by = "user.nauth.io/signed-by"

abbrev pub secret_type_user_credentials : String
secret_type_user_credentials = "user-creds"

abbrev pub user_credential_secret_key_name : String
user_credential_secret_key_name = "user.creds"

-- The parts of the resource that the manager reads or writes.
pub record UserStatus : Type 0 where
  pub claims : UserClaims
  pub observed_generation : ℕ
  pub reconcile_timestamp : ℕ

pub record User : Type 0 where
  pub name : String
  pub namespace : String
  pub generation : ℕ
  pub labels : StringMap
  pub spec : UserSpec
  pub status : UserStatus

unfoldable pub get_label : User → String → String
unfolding lookup
get_label user label = value_or_empty (lookup label user.labels)

unfoldable pub set_label : User → String → String → User
unfolding set_entry
set_label user label value = record user { labels = set_entry label value user.labels }

abbrev pub get_user_secret_name : User → String
get_user_secret_name user = user.name <> "-nats-user-creds"

abbrev pub get_user_display_name : User → String
get_user_display_name user =
    if user.spec.display_name == ""
    then user.namespace <> ("/" <> user.name)
    else user.spec.display_name

abbrev pub user_secret_meta : User → ObjectMeta
user_secret_meta state = record {
  name = get_user_secret_name state;
  namespace = state.namespace;
  labels =
      (label_secret_type, secret_type_user_credentials) ∷ (label_managed, label_managed_value) ∷ [];
}

abbrev pub user_ref : User → NamespacedName
user_ref state = record { namespace = state.namespace; name = state.name }

abbrev pub account_ref_of : User → NamespacedName
account_ref_of state = record { namespace = state.namespace; name = state.spec.account_name }

-- The labels and the status that the user gets in the end.
unfoldable pub finished : User → String → SignedUserJwt → UserClaims → ℕ → User
unfolding set_label
finished state user_public_key signed claims now =
    let state = set_label state user_label_user_id user_public_key in
    let state = set_label state user_label_account_id signed.account_id in
    let state = set_label state user_label_signed_by signed.signed_by in
    record state {
      status = record {
        claims = claims;
        observed_generation = state.generation;
        reconcile_timestamp = now;
      };
    }

module _ (w : Setting) where
  -- The user as it is left in the end; an error leaves it as it was.
  unfoldable pub create_or_update_user : User → Fallible User
  unfolding get_label finished
  create_or_update_user state = do
    let account_ref = account_ref_of state
    lift (
        wrap "invalid account reference %q: %w" (str (to_string w.k8s account_ref) ∷ [])
          (check (Names.validate w.k8s account_ref)))
    user_key_pair ←
        wrapping "failed to create user key pair: %w" []
          (perform Effects.Call.create_user (λ h. w.world.create_user h))
    user_public_key ←
        lift (wrap "failed to get user public key: %w" [] (w.jwt.public_key user_key_pair))
    user_seed ← lift (wrap "failed to get user seed: %w" [] (w.jwt.seed user_key_pair))
    let nats_claims =
        new_user_claims w.jwt (get_user_display_name state) state.spec user_public_key
          (get_label state user_label_account_id)
    signed ←
        wrapping "failed to sign user jwt for %s: %w" (str (to_string w.k8s (user_ref state)) ∷ [])
          (sign_user_jwt w account_ref nats_claims)
    user_creds ← lift (
        wrap "failed to format user credentials: %w" []
          (w.jwt.format_user_config signed.0.user_jwt user_seed))
    let secret_value = (user_credential_secret_key_name, user_creds) ∷ []
    perform_check (Effects.Call.apply_secret (user_secret_meta state) secret_value)
        (λ h. w.world.apply_secret h (user_secret_meta state) secret_value)
    now ← call (λ h. (w.world.now h, h))
    pure (finished state user_public_key signed.0 (to_nauth_user_claims w.jwt signed.1) now)

  unfoldable pub delete_user : User → Fallible (Unit {0})
  delete_user state = do
    let secret_ref : NamespacedName = record {
      namespace = state.namespace;
      name = get_user_secret_name state;
    }
    lift (
        wrap "invalid secret reference %q: %w" (str (to_string w.k8s secret_ref) ∷ [])
          (check (Names.validate w.k8s secret_ref)))
    wrapping "failed to delete user secret %s: %w" (str (to_string w.k8s secret_ref) ∷ []) (
        perform_check (Effects.Call.delete_secret secret_ref)
          (λ h. w.world.delete_secret h secret_ref))
