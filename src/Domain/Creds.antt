-- ===== src/Domain/Creds.antt =====
-- internal/domain/nats.go: the credentials of a NATS user.
use nauth.Common.{
  String, Option, none, some, [], Error, Result, ok, errorf, wrap, and_then, check, reject, ◌==◌,
  if◌then◌else◌,
}
use nauth.Jwt.{Library}

pub record NatsUserCreds : Type 0 where
  pub creds : String
  pub account_id : String

unfoldable pub validate : NatsUserCreds → Option Error
validate n =
    if n.creds == ""
    then some (errorf "credentials cannot be empty" [])
    else if n.account_id == ""
    then some (errorf "user credentials must include an account ID" [])
    else none

module _ (jwt : Library) where
  unfoldable pub new_nats_user_creds : String → Result NatsUserCreds
  new_nats_user_creds creds =
      and_then (reject (creds == "") (errorf "NATS User Credentials cannot be empty" [])) λ _.
        and_then
          (wrap "failed to parse user credentials JWT: %w" [] (jwt.parse_decorated_jwt creds))
          λ user_jwt.
            and_then
              (wrap "failed to decode user claims from JWT: %w" []
                (jwt.decode_user_issuer_account user_jwt))
              λ account_id.
                and_then
                  (reject (account_id == "")
                    (errorf "user credentials JWT does not contain an issuer account ID" []))
                  λ _.
                    let n : NatsUserCreds = record { creds = creds; account_id = account_id } in
                    and_then (wrap "invalid NATS user credentials: %w" [] (check (validate n)))
                      λ _. ok n
