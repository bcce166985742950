-- ===== src/User/Claims.antt =====
-- internal/core/user_claims.go: the claims of a user's JWT, from the specification of the user and
-- back to what the status reports.
pub mod Rebuild
use nauth.Common.{
  ℤ, pos, ℤ-discrete, String, Bool, true, false, not, ◌||◌, Option, none, some, List, [], ◌∷◌, ◌++◌,
  map, is_yes, ◌==◌, if◌then◌else◌,
}
use nauth.Domain.Names.{is_nil}
use nauth.Jwt
use nauth.Jwt.{Library}
use nauth.Claims.Limits.{assign}

pub record Permission : Type 0 where
  pub allow : List String
  pub deny : List String

pub record ResponsePermission : Type 0 where
  pub max_msgs : ℤ
  pub expires : ℤ

pub record Permissions : Type 0 where
  pub publish : Permission
  pub subscribe : Permission
  pub resp : Option ResponsePermission

pub record TimeRange : Type 0 where
  pub start : String
  pub finish : String

pub record UserLimits : Type 0 where
  pub src : List String
  pub times : List TimeRange
  pub locale : String

pub record NatsLimits : Type 0 where
  pub subs : Option ℤ
  pub dat : Option ℤ
  pub payload : Option ℤ

-- A time is its seconds since 1970. Nil slices are empty lists, and the deprecated `AccountName` of
-- the claims, which the code leaves empty, is left out.
pub record UserSpec : Type 0 where
  pub account_name : String
  pub display_name : String
  pub expires_at : Option ℤ
  pub permissions : Option Permissions
  pub user_limits : Option UserLimits
  pub nats_limits : Option NatsLimits

pub record UserClaims : Type 0 where
  pub display_name : String
  pub expires_at : Option ℤ
  pub permissions : Option Permissions
  pub nats_limits : Option NatsLimits
  pub user_limits : Option UserLimits

abbrev pub to_jwt_permission : Permission → Jwt.Permission
to_jwt_permission p = record { allow = p.allow; deny = p.deny }

abbrev pub to_jwt_resp :
    Option ResponsePermission → Option Jwt.ResponsePermission → Option Jwt.ResponsePermission
to_jwt_resp none d = d
to_jwt_resp (some r) d = some (record { max_msgs = r.max_msgs; expires = r.expires })

abbrev pub to_jwt_time : TimeRange → Jwt.TimeRange
to_jwt_time t = record { start = t.start; finish = t.finish }

-- The three blocks of `newUserClaimsBuilder`, each over the claims so far.
unfoldable pub with_permissions : Option Permissions → Jwt.UserClaims → Jwt.UserClaims
with_permissions none claim = claim
with_permissions (some p) claim = record claim {
  publish = to_jwt_permission p.publish;
  subscribe = to_jwt_permission p.subscribe;
  resp = to_jwt_resp p.resp claim.resp;
}

unfoldable pub with_user_limits : Option UserLimits → Jwt.UserClaims → Jwt.UserClaims
with_user_limits none claim = claim
with_user_limits (some l) claim = record claim {
  src = claim.src ++ l.src;
  times = claim.times ++ map to_jwt_time l.times;
  locale = l.locale;
}

unfoldable pub with_nats_limits : Option NatsLimits → Jwt.UserClaims → Jwt.UserClaims
unfolding assign
with_nats_limits none claim = claim
with_nats_limits (some l) claim = record claim {
  limits = record {
    subs = assign l.subs claim.limits.subs;
    dat = assign l.dat claim.limits.dat;
    payload = assign l.payload claim.limits.payload;
  };
}

abbrev pub to_nauth_time : Jwt.TimeRange → TimeRange
to_nauth_time t = record { start = t.start; finish = t.finish }

abbrev pub no_permission : Permission
no_permission = record { allow = []; deny = [] }

abbrev pub to_nauth_resp : Option Jwt.ResponsePermission → Option ResponsePermission
to_nauth_resp none = none
to_nauth_resp (some r) = some (record { max_msgs = r.max_msgs; expires = r.expires })

abbrev pub is_some {ℓ} : {A : Type ℓ} → Option A → Bool
is_some none = false
is_some (some _) = true

abbrev pub when {ℓ} : {A : Type ℓ} → Bool → A → Option A
when populated a = if populated then some a else none

module _ (jwt : Library) where
  -- `newUserClaimsBuilder` and its `build`.
  unfoldable pub new_user_claims : String → UserSpec → String → String → Jwt.UserClaims
  unfolding assign with_permissions with_user_limits with_nats_limits
  new_user_claims display_name spec user_public_key issuer_account_id =
      let fresh = jwt.new_user_claims user_public_key in
      let claim : Jwt.UserClaims = record fresh {
        name = display_name;
        expires = assign spec.expires_at fresh.expires;
      } in
      let claim = with_permissions spec.permissions claim in
      let claim = with_user_limits spec.user_limits claim in
      let claim = with_nats_limits spec.nats_limits claim in
      record claim { issuer_account = issuer_account_id }

  abbrev pub to_nauth_permission : Jwt.Permission → Permission
  to_nauth_permission p =
      if jwt.permission_is_empty p then no_permission else record { allow = p.allow; deny = p.deny }

  unfoldable pub to_nauth_permissions :
      Jwt.Permission → Jwt.Permission → Option Jwt.ResponsePermission → Option Permissions
  to_nauth_permissions publish subscribe resp =
      when
        (not (jwt.permission_is_empty publish)
          || not (jwt.permission_is_empty subscribe)
          || is_some resp)
        (record {
          publish = to_nauth_permission publish;
          subscribe = to_nauth_permission subscribe;
          resp = to_nauth_resp resp;
        })

  unfoldable pub to_nauth_user_limits :
      List String → List Jwt.TimeRange → String → Option UserLimits
  to_nauth_user_limits src times locale =
      when (not (is_nil src) || not (is_nil times) || not (locale == ""))
        (record { src = src; times = map to_nauth_time times; locale = locale })

  abbrev pub is_limited : ℤ → Bool
  is_limited n = not (is_yes (ℤ-discrete n jwt.no_limit))

  unfoldable pub to_nauth_nats_limits : Jwt.NatsLimits → Option NatsLimits
  to_nauth_nats_limits l =
      when (is_limited l.subs || is_limited l.dat || is_limited l.payload) (record {
        subs = when (is_limited l.subs) l.subs;
        dat = when (is_limited l.dat) l.dat;
        payload = when (is_limited l.payload) l.payload;
      })

  -- Of claims that are not nil.
  unfoldable pub to_nauth_user_claims : Jwt.UserClaims → UserClaims
  unfolding to_nauth_permissions to_nauth_user_limits to_nauth_nats_limits
  to_nauth_user_claims claims = record {
    display_name = claims.name;
    expires_at = when (not (is_yes (ℤ-discrete claims.expires (pos 0)))) claims.expires;
    permissions = to_nauth_permissions claims.publish claims.subscribe claims.resp;
    nats_limits = to_nauth_nats_limits claims.limits;
    user_limits = to_nauth_user_limits claims.src claims.times claims.locale;
  }
