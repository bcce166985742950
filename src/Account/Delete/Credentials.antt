-- ===== src/Account/Delete/Credentials.antt =====
-- The calls of `createTempJetStreamCreds`: internal/core/account.go.
use nauth.Common.{String, refl}
use nauth.Jwt
use nauth.Jwt.{KeyPair}
use nauth.Effects.{Call, Event, done, failed}
use nauth.Effects.Emits.{
  Emits, Emits-then, Emits-perform, Emits-wrapping, Emits-lift, Emits-only, Emits-pure,
}
use nauth.Account.Keys.{Setting}
use nauth.Account.Keys.Calls.{Emits-call}
use nauth.Account.Delete.{create_temp_jet_stream_creds}

-- Making credentials makes a key pair and encodes claims, so it has every property of events that
-- these calls have.
module _ {P : Event → Type 0} (w : Setting)
    (creating : P (done Call.create_user) × P (failed Call.create_user))
    (encoding : (claims : Jwt.UserClaims) (key : KeyPair)
      → P (done (Call.encode_user_claims claims key))
        × P (failed (Call.encode_user_claims claims key))) where
  pub credentials-Emits :
      (id : String) (key : KeyPair) → Emits P (create_temp_jet_stream_creds w id key)
  unfolding create_temp_jet_stream_creds
  credentials-Emits id key =
      Emits-then (Emits-perform Call.create_user _ creating.0 creating.1) λ user.
        Emits-then (Emits-call (Emits-only (Emits-pure tt) (λ h. refl))) λ expires.
          Emits-then
            (Emits-wrapping _ _
              (Emits-perform (Call.encode_user_claims _ _) _ (encoding _ _).0 (encoding _ _).1))
            λ signed. Emits-then (Emits-lift _) λ creds. Emits-lift _
