-- ===== src/User/Claims/Rebuild.antt =====
-- What the reported claims of a user tell of the claims: internal/core/user_claims.go.
mod Parts
use nauth.Common.{
  ℤ, pos, ℤ-discrete, String, Bool, true, false, not, ◌||◌, Option, none, some, List, [], ◌∷◌, ◌++◌,
  map, is_yes, is_yes_iff, ◌≡◌, refl, sym, ◌∙◌, ap, inl, inr, Bool-cases, ◌==◌, eq_iff, arith,
}
use nauth.Domain.Names.{is_nil}
use nauth.Jwt
use nauth.Jwt.{Library}
use nauth.Claims.Limits.{assign}
use nauth.User.Claims.{
  UserSpec, UserClaims, to_jwt_permission, to_jwt_resp, to_jwt_time, with_permissions,
  with_user_limits, with_nats_limits, to_nauth_time, to_nauth_resp, is_some, when, new_user_claims,
  to_nauth_permission, to_nauth_permissions, to_nauth_user_limits, is_limited, to_nauth_nats_limits,
  to_nauth_user_claims,
}
use nauth.User.Claims.Rebuild.Parts.{
  resp_back, times_back, assign-when, not_yes, not-false, is_nil-eq, is_some-false, is_blank-eq,
  either, none_of,
}

abbrev pub empty : Jwt.Permission
empty = record { allow = []; deny = [] }

-- Claims of a user who has been given nothing.
abbrev pub blank : Library → String → Jwt.UserClaims
blank jwt subject = record {
  subject = subject;
  name = "";
  expires = pos 0;
  issuer = "";
  issued_at = pos 0;
  id = "";
  not_before = pos 0;
  audience = "";
  issuer_account = "";
  publish = empty;
  subscribe = empty;
  resp = none;
  src = [];
  times = [];
  locale = "";
  limits = record { subs = jwt.no_limit; dat = jwt.no_limit; payload = jwt.no_limit };
  bearer_token = false;
  proxy_required = false;
  allowed_connection_types = [];
  tags = [];
  type = "";
  version = pos 0;
}

-- Claims without what the library writes when it encodes them (issuer, time of issue, ID, kind and
-- version) and without the fields that are neither specified nor reported.
abbrev pub as_specified : Jwt.UserClaims → Jwt.UserClaims
as_specified c = record c {
  issuer = "";
  issued_at = pos 0;
  id = "";
  not_before = pos 0;
  audience = "";
  bearer_token = false;
  proxy_required = false;
  allowed_connection_types = [];
  tags = [];
  type = "";
  version = pos 0;
}

-- What the library documents of new claims and of permissions.
pub record IsDocumented (jwt : Library) : Type 0 where
  pub fresh : (subject : String) → jwt.new_user_claims subject ≡ blank jwt subject
  pub permission_empty : (p : Jwt.Permission) → jwt.permission_is_empty p ≡ true → p ≡ empty

-- The reported claims as a specification.
abbrev pub as_spec : UserClaims → UserSpec
as_spec r = record {
  account_name = "";
  display_name = r.display_name;
  expires_at = r.expires_at;
  permissions = r.permissions;
  user_limits = r.user_limits;
  nats_limits = r.nats_limits;
}

module _ (jwt : Library) (documented : IsDocumented jwt) where
  permission_back : (p : Jwt.Permission) → to_jwt_permission (to_nauth_permission jwt p) ≡ p
  permission_back p = elim (Bool-cases (jwt.permission_is_empty p)) [
    | inl yes' ↦ rw yes' (sym (documented.permission_empty p yes'))
    | inr no' ↦ rw no' refl
  ]

  assign-limit : (n : ℤ) → assign (when (is_limited jwt n) n) jwt.no_limit ≡ n
  assign-limit n = assign-when (is_limited jwt n) n jwt.no_limit (not_yes n jwt.no_limit)

  permissions_back :
      (p s : Jwt.Permission) (r : Option Jwt.ResponsePermission) (claim : Jwt.UserClaims)
      → claim.publish ≡ empty
      → claim.subscribe ≡ empty
      → claim.resp ≡ none
      → with_permissions (to_nauth_permissions jwt p s r) claim
        ≡ record claim { publish = p; subscribe = s; resp = r }
  unfolding with_permissions to_nauth_permissions
  permissions_back p s r claim hp hs hr =
      either (λ o. with_permissions o claim ≡ record claim { publish = p; subscribe = s; resp = r })
        _
        (λ i. record claim {
          publish = permission_back p i;
          subscribe = permission_back s i;
          resp = (ap (to_jwt_resp (to_nauth_resp r)) hr ∙ resp_back r) i;
        })
        λ nothing.
          let (no_p, no_s, no_r) =
            none_of (not (jwt.permission_is_empty p)) (not (jwt.permission_is_empty s)) (is_some r)
              nothing in
          let p_empty = documented.permission_empty p (not-false _ no_p) in
          let s_empty = documented.permission_empty s (not-false _ no_s) in
          λ i. record claim {
            publish = (hp ∙ sym p_empty) i;
            subscribe = (hs ∙ sym s_empty) i;
            resp = (hr ∙ sym (is_some-false r no_r)) i;
          }

  user_limits_back :
      (src : List String) (times : List Jwt.TimeRange) (locale : String) (claim : Jwt.UserClaims)
      → claim.src ≡ []
      → claim.times ≡ []
      → claim.locale ≡ ""
      → with_user_limits (to_nauth_user_limits jwt src times locale) claim
        ≡ record claim { src = src; times = times; locale = locale }
  unfolding with_user_limits to_nauth_user_limits
  user_limits_back src times locale claim h1 h2 h3 =
      either
        (λ o. with_user_limits o claim ≡ record claim { src = src; times = times; locale = locale })
        _
        (λ i. record claim {
          src = ap (λ xs. xs ++ src) h1 i;
          times =
              (ap (λ ts. ts ++ map to_jwt_time (map to_nauth_time times)) h2 ∙ times_back times) i;
          locale = locale;
        })
        λ nothing.
          let (no_src, no_times, no_locale) =
            none_of (not (is_nil src)) (not (is_nil times)) (not (locale == "")) nothing in
          λ i. record claim {
            src = (h1 ∙ sym (is_nil-eq src no_src)) i;
            times = (h2 ∙ sym (is_nil-eq times no_times)) i;
            locale = (h3 ∙ sym (is_blank-eq locale no_locale)) i;
          }

  nats_limits_back :
      (l : Jwt.NatsLimits) (claim : Jwt.UserClaims)
      → claim.limits ≡ record { subs = jwt.no_limit; dat = jwt.no_limit; payload = jwt.no_limit }
      → with_nats_limits (to_nauth_nats_limits jwt l) claim ≡ record claim { limits = l }
  unfolding with_nats_limits to_nauth_nats_limits
  nats_limits_back l claim h =
      either (λ o. with_nats_limits o claim ≡ record claim { limits = l }) _
        (λ i. record claim {
          limits = record {
            subs =
                (ap (λ d. assign (when (is_limited jwt l.subs) l.subs) d.subs) h
                    ∙ assign-limit l.subs)
                  i;
            dat =
                (ap (λ d. assign (when (is_limited jwt l.dat) l.dat) d.dat) h ∙ assign-limit l.dat)
                  i;
            payload =
                (ap (λ d. assign (when (is_limited jwt l.payload) l.payload) d.payload) h
                    ∙ assign-limit l.payload)
                  i;
          };
        })
        λ nothing.
          let (no_subs, no_dat, no_payload) =
            none_of (is_limited jwt l.subs) (is_limited jwt l.dat) (is_limited jwt l.payload)
              nothing in
          λ i. record claim {
            limits =
                (h ∙ (λ i. record {
                  subs = sym (not_yes _ _ no_subs) i;
                  dat = sym (not_yes _ _ no_dat) i;
                  payload = sym (not_yes _ _ no_payload) i;
                }))
                  i;
          }

  -- What a user's status reports of the user's claims, read as a specification, gives these claims
  -- again: the name, the expiry, the permissions, the limits, the sources, the times and the locale
  -- are the same, whatever they are. What encoding writes, that is the issuer, the time of issue,
  -- the ID, the kind and the version, is not reported, and neither are the start, the audience, the
  -- bearer token, the required proxy, the connection types and the tags: all these are blank again.
  -- The library gives new claims nothing and no limits, and calls a permission empty only if it is.
  pub to_nauth_user_claims-rebuild :
      (c : Jwt.UserClaims)
      → let r = to_nauth_user_claims jwt c in
        new_user_claims jwt r.display_name (as_spec r) c.subject c.issuer_account ≡ as_specified c
  unfolding to_nauth_user_claims new_user_claims
  to_nauth_user_claims-rebuild c =
      let expires : Option ℤ = when (not (is_yes (ℤ-discrete c.expires (pos 0)))) c.expires in
      let start : Jwt.UserClaims = record (blank jwt c.subject) {
        name = c.name;
        expires = assign expires (pos 0);
      } in
      let permitted : Jwt.UserClaims = record start {
        publish = c.publish;
        subscribe = c.subscribe;
        resp = c.resp;
      } in
      let bounded : Jwt.UserClaims = record permitted {
        src = c.src;
        times = c.times;
        locale = c.locale;
      } in
      let limited = with_nats_limits (to_nauth_nats_limits jwt c.limits) in
      let bound = with_user_limits (to_nauth_user_limits jwt c.src c.times c.locale) in
      let issued = λ (x : Jwt.UserClaims). record x { issuer_account = c.issuer_account } in
      rw (documented.fresh c.subject) (
        ap (λ x. issued (limited (bound x)))
          (permissions_back c.publish c.subscribe c.resp start refl refl refl)
        ∙ ap (λ x. issued (limited x))
            (user_limits_back c.src c.times c.locale permitted refl refl refl)
        ∙ ap issued (nats_limits_back c.limits bounded refl)
        ∙ (λ i. record (as_specified c) {
          expires = assign-when _ c.expires (pos 0) (not_yes c.expires (pos 0)) i;
        }))
