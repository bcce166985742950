-- ===== src/Claims/Convert/Rebuild.antt =====
-- What claims read back say about the claims: internal/core/account_claims.go.
use mathlib.Core.List.{Perm}
use mathlib.Core.List.Perm
use nauth.Common.{
  String, some, List, [], ◌∷◌, map, ok, and_then-eq-ok, ok-injective, present, ◌≡◌, refl,
  Bool-cases, inl, inr,
}
use Prim.Native.String.{compare}
use text.Mathlib.Text.{is_lt}
use nauth.Jwt
use nauth.Jwt.{Library}
use nauth.Domain.Account
use nauth.Claims.Items.{to_jwt_exports, to_jwt_imports, to_nauth_exports, to_nauth_imports}
use nauth.Claims.Items.Sequences.{to_jwt_exports-to_nauth_exports, to_jwt_imports-to_nauth_imports}
use nauth.Claims.Items.RoundTrip.{without_info, without_token}
use nauth.Claims.Limits.{account_limits, nats_limits, jet_stream_limits}
use nauth.Claims.Limits.RoundTrip.{IsDocumented, limits_round_trip}
use nauth.Claims.Convert.{insert_key, sort_keys, convert_nats_account_claims}

insert_key-perm : (key : String) (keys : List String) → Perm (insert_key key keys) (key ∷ keys)
unfolding insert_key
insert_key-perm key [] = Perm.refl (key ∷ [])
insert_key-perm key (k ∷ keys) = elim (Bool-cases (is_lt (compare k key))) [
  | inl smaller ↦
      rw smaller (Perm.trans (Perm.cons k (insert_key-perm key keys)) (Perm.swap key k keys))
  | inr larger ↦ rw larger (Perm.refl (key ∷ k ∷ keys))
]

sort_keys-perm : (keys : List String) → Perm (sort_keys keys) keys
unfolding sort_keys
sort_keys-perm [] = Perm.refl []
sort_keys-perm (key ∷ keys) =
    Perm.trans (insert_key-perm key (sort_keys keys)) (Perm.cons key (sort_keys-perm keys))

-- What reading back claims tells of them: the exports and imports convert again to those of the
-- claims, in their order, nil ones left out, but without the description and the URL of an export
-- and without the token and the `To` of an import; the limits of the account, of NATS and of
-- JetStream, written over those of fresh claims, give those of the claims again; the signing keys
-- are those of the claims; and JetStream is reported as enabled exactly if the library says so of
-- all the limits, the tiered ones, which are not told themselves, included. The JWT library is as
-- documented, and the claims leave the bearer setting, which is not read, at its default.
pub convert-rebuild :
    (jwt : Library) (c : Jwt.AccountClaims) (a : Account.AccountClaims)
    → IsDocumented jwt
    → c.limits.account.disallow_bearer
      ≡ (jwt.new_account_claims "N/A").limits.account.disallow_bearer
    → convert_nats_account_claims jwt (some c) ≡ ok a
    → let d = (jwt.new_account_claims "N/A").limits in
      (to_jwt_exports a.exports ≡ ok (map (λ j. some (without_info j)) (present c.exports)))
      × (to_jwt_imports a.imports ≡ ok (map (λ j. some (without_token j)) (present c.imports)))
      × (account_limits a.account_limits d.account ≡ c.limits.account)
      × (nats_limits a.nats_limits d.nats ≡ c.limits.nats)
      × (jet_stream_limits a.jet_stream_limits d.jet_stream ≡ c.limits.jet_stream)
      × Perm a.signing_keys c.signing_keys
      × (a.jet_stream_enabled ≡ some (jwt.is_js_enabled c.limits))
      × (a.display_name ≡ c.name)
unfolding convert_nats_account_claims
convert-rebuild jwt c a documented bearer h =
    let (account_back, nats_back, jet_stream_back) =
      limits_round_trip jwt "N/A" c.limits documented bearer in
    let (es, exported, more) = and_then-eq-ok (to_nauth_exports c.exports) _ h in
    let (is, imported, built) = and_then-eq-ok (to_nauth_imports c.imports) _ more in
    rw (← ok-injective built) (
      to_jwt_exports-to_nauth_exports c.exports es exported,
      to_jwt_imports-to_nauth_imports c.imports is imported,
      account_back,
      nats_back,
      jet_stream_back,
      sort_keys-perm c.signing_keys,
      refl,
      refl,
    )
