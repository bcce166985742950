-- ===== src/Account/Sign/Issuer.antt =====
-- What a JWT that `SignUserJWT` returns was made from: internal/core/account.go.
use nauth.Common.{
  String, false, not, ◌&&◌, some, ok, ◌≡◌, refl, subst, ◌∙◌, ap, Bool-cases, inl, inr, wrap-eq-ok,
  ok-injective, ◌==◌, eq_iff, arith, ◌⊎◌, if◌then◌else◌,
}
use nauth.Jwt
use nauth.Jwt.{KeyPair}
use nauth.Domain.Names.{NamespacedName}
use nauth.Effects.{History}
use nauth.Effects.Fallible.{pure}
use nauth.Effects.Inversion.{
  then-eq-ok, lift-then-eq-ok, perform-eq-ok, wrapping-eq-ok, reject-eq-ok,
}
use nauth.Secrets.{Secrets}
use nauth.Secrets.Reading.{Lookup}
use nauth.Account.Keys.{Setting, secrets_of}
use nauth.Account.Keys.Calls.{call-eq-ok, dereference-eq-ok}
use nauth.Account.Sign.{SignedUserJwt, sign_user_jwt}

-- What a signed user JWT was made from: the account that the reference is bound to, the secrets of
-- that account, and claims that name this account as their issuer.
pub record IsIssued (w : Setting) (account_ref : NamespacedName) (claims : Jwt.UserClaims)
    (r : SignedUserJwt) (left : Jwt.UserClaims) : Type 0 where
  pub bound_at : History
  pub secrets_at : History
  pub signed_at : History
  pub secrets : Secrets
  pub bound : w.world.get_account_id bound_at account_ref ≡ ok r.account_id
  pub mine : (claims.issuer_account ≡ "") ⊎ (claims.issuer_account ≡ r.account_id)
  pub found : (secrets_of w account_ref r.account_id secrets_at).0.secrets ≡ some secrets
  pub key : w.jwt.public_key secrets.sign ≡ ok r.signed_by
  pub signed :
      w.world.encode_user_claims signed_at
        (record claims { issuer_account = r.account_id })
        secrets.sign
      ≡ ok (r.user_jwt, left)

-- Claims without an issuer get the account, and those with another one are refused.
issuer-same :
    (issuer id : String)
    → (not (issuer == "") && not (issuer == id)) ≡ false
    → ((issuer ≡ "") ⊎ (issuer ≡ id)) × ((if issuer == "" then id else issuer) ≡ id)
issuer-same issuer id e = elim (Bool-cases (issuer == "")) [
  | inl yes' ↦ (inl (ground (arith, eq_iff issuer "")), rw yes' refl)
  | inr no' ↦ let same : issuer ≡ id = ground (arith, eq_iff issuer id) in (inr same, rw no' same)
]

module _ (w : Setting) where
  encoded-as :
      (claims : Jwt.UserClaims) (key : KeyPair) {i id : String} {h : History}
      {signed : String × Jwt.UserClaims}
      → i ≡ id
      → w.world.encode_user_claims h (record claims { issuer_account = i }) key ≡ ok signed
      → w.world.encode_user_claims h (record claims { issuer_account = id }) key ≡ ok signed
  encoded-as claims key same e = rw (← same) e

  -- `SignUserJWT` returns a JWT only if the claims name no issuer account or the one that the
  -- reference is bound to. Then it is the JWT of the claims with this account as their issuer,
  -- signed with the signing key of the secrets that were found for the account, and the result
  -- names this account and the public key of that key.
  pub sign_user_jwt-IsIssued :
      (account_ref : NamespacedName) (claims : Jwt.UserClaims) (h : History) (r : SignedUserJwt)
      (left : Jwt.UserClaims)
      → (sign_user_jwt w account_ref claims h).0 ≡ ok (r, left)
      → IsIssued w account_ref claims r left
  unfolding sign_user_jwt pure
  sign_user_jwt-IsIssued account_ref claims h r left e =
      let (_, _, e1, _) = lift-then-eq-ok _ _ h e in
      let (id, p2, e2, _) = then-eq-ok _ _ h e1 in
      let (_, p3, e3, _) = lift-then-eq-ok _ _ _ e2 in
      let (_, _, e4, _) = lift-then-eq-ok _ _ _ e3 in
      let (found, p5, e5, _) = then-eq-ok _ _ _ e4 in
      let (_, _, e6, _) = lift-then-eq-ok _ _ _ e5 in
      let (_, _, e7, _) = lift-then-eq-ok _ _ _ e6 in
      let (secrets, p8, e8, _) = lift-then-eq-ok _ _ _ e7 in
      let (key, p9, e9, _) = lift-then-eq-ok _ _ _ e8 in
      let (signed, p10, e10, _) = then-eq-ok _ _ _ e9 in
      let (mine, same) = issuer-same claims.issuer_account id (reject-eq-ok _ _ p3) in
      let encoded = (perform-eq-ok _ _ _ (wrapping-eq-ok _ _ _ _ p10).0).0 in
      subst (λ (x : SignedUserJwt × Jwt.UserClaims). IsIssued w account_ref claims x.0 x.1)
        (ok-injective e10)
        (record {
          bound_at = h;
          secrets_at = _;
          signed_at = _;
          secrets = secrets;
          bound = (perform-eq-ok _ _ _ (wrapping-eq-ok _ _ _ _ p2).0).0;
          mine = mine;
          found =
              ap (λ (l : Lookup). l.secrets) (call-eq-ok _ _ p5).0
              ∙ dereference-eq-ok found.secrets p8;
          key = wrap-eq-ok _ _ _ p9;
          signed = encoded-as claims secrets.sign same encoded;
        })
