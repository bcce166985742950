-- ===== src/Account/Sign.antt =====
-- internal/core/account.go: `SignUserJWT`.
pub mod Issuer
use nauth.Common.{
  String, Bool, true, false, not, ◌&&◌, Option, none, some, List, [], ◌∷◌, Arg, Error, Result, ok,
  err, str, errorf, wrapf, wrap, check, reject, join_all, ◌==◌, if◌then◌else◌,
}
use nauth.Jwt
use nauth.Domain.Names
use nauth.Domain.Names.{NamespacedName, to_string}
use nauth.Effects
use nauth.Effects.{Fallible, perform}
use nauth.Effects.Fallible.{◌>>=◌, ◌>>◌, pure, lift, wrapping}
use nauth.Account.Keys.{Setting, dereference, call, secrets_of, public_key}

pub record SignedUserJwt : Type 0 where
  pub user_jwt : String
  pub account_id : String
  pub signed_by : String

module _ (w : Setting) where
  -- `claims.Validate` must report no error.
  abbrev pub validate_claims : Jwt.UserClaims → Result (Unit {0})
  validate_claims claims = elim (join_all (w.jwt.validate_user_claims claims)) [
    | some e ↦ err (wrapf "claims validation failed during user JWT signing: %v" [] e)
    | none ↦ ok tt
  ]

  -- With the signed JWT come the claims, which the function changes for its caller.
  unfoldable pub sign_user_jwt :
      NamespacedName → Jwt.UserClaims → Fallible (SignedUserJwt × Jwt.UserClaims)
  sign_user_jwt account_ref claims = do
    let shown = str (to_string w.k8s account_ref)
    lift (
        wrap "invalid account reference %q: %w" (shown ∷ [])
          (check (Names.validate w.k8s account_ref)))
    account_id ←
        wrapping "failed to lookup Account ID for %q during user JWT signing: %w" (shown ∷ []) (
          perform (Effects.Call.get_account_id account_ref)
            (λ h. w.world.get_account_id h account_ref))
    lift (
        reject (not (claims.issuer_account == "") && not (claims.issuer_account == account_id)) (
          errorf
            "claims issuer account ID %s does not match %s bound to account %q during user JWT signing"
            (str claims.issuer_account ∷ str account_id ∷ shown ∷ [])))
    let claims' : Jwt.UserClaims = record claims {
      issuer_account = if claims.issuer_account == "" then account_id else claims.issuer_account;
    }
    lift (validate_claims claims')
    found ← call (secrets_of w account_ref account_id)
    lift (wrap "failed to get account secrets for user JWT signing: %w" [] (check found.error))
    lift (reject (not found.found) (errorf "account secrets not found for user JWT signing" []))
    secrets ← lift (dereference found.secrets)
    signed_by ← lift (
        public_key w "failed to get account signing public key for user JWT signing: %w" []
          secrets.sign)
    signed ←
        wrapping "failed to sign user JWT using %s for account %s (%q): %w"
          (str signed_by ∷ str account_id ∷ shown ∷ [])
          (perform (Effects.Call.encode_user_claims claims' secrets.sign)
            (λ h. w.world.encode_user_claims h claims' secrets.sign))
    pure (record { user_jwt = signed.0; account_id = account_id; signed_by = signed_by }, signed.1)
