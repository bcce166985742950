-- ===== src/Claims/Hash.antt =====
-- internal/core/account_claims.go: `hashSignedAccountJWTClaims`.
use nauth.Common.{String, [], pos, Result, ok, wrap, and_then, ◌≡◌, ap}
use nauth.Jwt
use nauth.Jwt.{Library}

-- `claims.IssuedAt = 0; claims.ID = ""`.
abbrev pub without_metadata : Jwt.AccountClaims → Jwt.AccountClaims
without_metadata claims = record claims { issued_at = pos 0; id = "" }

module _ (jwt : Library) where
  unfoldable pub hash_signed_account_jwt_claims : String → Result String
  hash_signed_account_jwt_claims account_jwt =
      and_then
        (wrap "failed to decode account JWT claims for hashing: %w" []
          (jwt.decode_account_claims account_jwt))
        λ claims.
          and_then (jwt.marshal_account_claims (without_metadata claims))
            λ payload. ok (jwt.sha256_hex payload)

  -- Two account JWTs have the same hash if they decode to claims that differ at most in the time
  -- of issue and in the ID.
  pub hash_ignores_metadata :
      (s t : String) (c d : Jwt.AccountClaims)
      → jwt.decode_account_claims s ≡ ok c
      → jwt.decode_account_claims t ≡ ok d
      → without_metadata c ≡ without_metadata d
      → hash_signed_account_jwt_claims s ≡ hash_signed_account_jwt_claims t
  unfolding hash_signed_account_jwt_claims
  hash_ignores_metadata s t c d p q same =
      rw (p, q)
        (ap (λ x. and_then (jwt.marshal_account_claims x) λ payload. ok (jwt.sha256_hex payload))
          same)
