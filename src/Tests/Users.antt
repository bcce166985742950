-- ===== src/Tests/Users.antt =====
-- The theorems about users at a concrete user.
use nauth.Common.{
  pos, ℤ-discrete, String, true, none, some, List, [], ◌∷◌, join_all, ◌≡◌, refl, ◌&&◌,
}
use nauth.Jwt
use nauth.Domain.Names
use nauth.Domain.Names.{is_nil}
use nauth.Effects
use nauth.Effects.Fallible
use nauth.Secrets.Reading
use nauth.Secrets.Lookups
use nauth.Account.Keys.{call}
use nauth.Account.Sign.{sign_user_jwt}
use nauth.User.{User, create_or_update_user, finished}
use nauth.User.Bound.{IsBound, create_or_update_user-IsBound}
use nauth.User.Claims.{UserSpec, new_user_claims, to_nauth_user_claims}
use nauth.User.Claims.Rebuild
use nauth.User.Claims.Rebuild.{IsDocumented, as_spec, to_nauth_user_claims-rebuild}
use nauth.Tests.Fixtures.{library, setting, fresh_user}

abbrev claims : Jwt.UserClaims
claims = record (fresh_user "U") {
  name = "user";
  expires = pos 1000;
  issuer = "S";
  issued_at = pos 7;
  id = "J";
  tags = "prod" ∷ [];
  issuer_account = "A";
  publish = record { allow = "a.>" ∷ []; deny = [] };
  src = "10.0.0.0/8" ∷ [];
  limits = record { subs = pos 5; dat = library.no_limit; payload = pos 10 };
}

lists_empty :
    (allow deny : List String)
    → (is_nil allow && is_nil deny) ≡ true
    → ◌≡◌ {A = Jwt.Permission} (record { allow = allow; deny = deny }) Rebuild.empty
lists_empty [] [] h = refl
lists_empty [] (x ∷ deny) h = cc
lists_empty (x ∷ allow) deny h = cc

to_nauth_user_claims-rebuild_example :
    let r = to_nauth_user_claims library claims in
    new_user_claims library r.display_name (as_spec r) "U" "A" ≡ Rebuild.as_specified claims
to_nauth_user_claims-rebuild_example =
    to_nauth_user_claims-rebuild library
      (record { fresh = λ subject. refl; permission_empty = λ p. lists_empty p.allow p.deny })
      claims

abbrev spec : UserSpec
spec = record {
  account_name = "acc";
  display_name = "user";
  expires_at = some (pos 1000);
  permissions = none;
  user_limits = none;
  nats_limits = none;
}

abbrev user : User
user = record {
  name = "bob";
  namespace = "ns";
  generation = 2;
  labels = ("user.nauth.io/account-id", "A") ∷ [];
  spec = spec;
  status = record {
    claims = record {
      display_name = "";
      expires_at = none;
      permissions = none;
      nats_limits = none;
      user_limits = none;
    };
    observed_generation = 1;
    reconcile_timestamp = 0;
  };
}

abbrev updated : User
updated = record user {
  labels =
      ("user.nauth.io/account-id", "A")
      ∷ ("user.nauth.io/id", "U")
      ∷ ("user.nauth.io/signed-by", "S")
      ∷ [];
  status = record {
    claims = record {
      display_name = "user";
      expires_at = some (pos 1000);
      permissions = none;
      nats_limits = none;
      user_limits = none;
    };
    observed_generation = 2;
    reconcile_timestamp = 0;
  };
}

create_or_update_user-IsBound_example :
    IsBound setting user updated (create_or_update_user setting user []).1
unfolding create_or_update_user finished sign_user_jwt new_user_claims to_nauth_user_claims
    ℤ-discrete Fallible.◌>>=◌ Fallible.lift Names.validate Names.is_blank Fallible.wrapping
    Effects.perform Effects.perform_check call Lookups.get_secrets Lookups.attempt
    Reading.get_account_secrets_by_account_id Reading.validated_result Fallible.pure join_all
create_or_update_user-IsBound_example = create_or_update_user-IsBound setting user updated [] refl
