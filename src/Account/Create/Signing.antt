-- ===== src/Account/Create/Signing.antt =====
-- The calls of `signAccountJWT`: internal/core/account.go.
use nauth.Common.{Option, none, some, Error}
use nauth.Jwt
use nauth.Jwt.{KeyPair}
use nauth.Effects.{Call, Event, done, failed}
use nauth.Effects.Emits.{Emits, Emits-perform, Emits-raise}
use nauth.Account.Keys.{Setting}
use nauth.Account.Create.{sign_account_jwt, encode_if_valid}

-- Signing encodes claims, at most, so it has every property of events that this call has.
module _ {P : Event → Type 0} (w : Setting)
    (encoding : (claims : Jwt.AccountClaims) (key : KeyPair)
      → P (done (Call.encode_account_claims claims key))
        × P (failed (Call.encode_account_claims claims key))) where
  encode-Emits :
      (invalid : Option Error) (claims : Jwt.AccountClaims) (key : KeyPair)
      → Emits P (encode_if_valid w invalid claims key)
  encode-Emits (some e) claims key = Emits-raise _
  encode-Emits none claims key =
      let (succeeds, fails) = encoding claims key in
      Emits-perform (Call.encode_account_claims claims key) _ succeeds fails

  pub sign-Emits :
      (claims : Jwt.AccountClaims) (key : KeyPair) → Emits P (sign_account_jwt w claims key)
  unfolding sign_account_jwt
  sign-Emits claims key = encode-Emits _ claims key
