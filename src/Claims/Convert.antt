-- ===== src/Claims/Convert.antt =====
-- internal/core/account_claims.go: `convertNatsAccountClaims`.
pub mod Rebuild
use text.Mathlib.Text.{is_lt}
use Prim.Native.String.{compare}
use nauth.Common.{
  String, Bool, Option, none, some, List, [], ◌∷◌, Result, ok, and_then, if◌then◌else◌,
}
use nauth.Jwt
use nauth.Jwt.{Library}
use nauth.Domain.Account
use nauth.Claims.Items.{to_nauth_exports, to_nauth_imports}
use nauth.Claims.Limits.{convert_account_limits, convert_nats_limits, convert_jet_stream_limits}

-- `sort.Slice` by the keys, which are those of a map, so that none occurs twice.
insert_key : String → List String → List String
insert_key key [] = key ∷ []
insert_key key (k ∷ keys) =
    let later = k ∷ insert_key key keys in if is_lt (compare k key) then later else key ∷ k ∷ keys

unfoldable pub sort_keys : List String → List String
unfolding insert_key
sort_keys [] = []
sort_keys (key ∷ keys) = insert_key key (sort_keys keys)

abbrev pub no_claims : Account.AccountClaims
no_claims = record {
  account_id = "";
  display_name = "";
  account_limits = none;
  jet_stream_enabled = none;
  jet_stream_limits = none;
  nats_limits = none;
  signing_keys = [];
  exports = [];
  imports = [];
}

module _ (jwt : Library) where
  unfoldable pub convert_nats_account_claims :
      Option Jwt.AccountClaims → Result Account.AccountClaims
  convert_nats_account_claims none = ok no_claims
  convert_nats_account_claims (some claims) =
      let defaults = (jwt.new_account_claims "N/A").limits in
      let limits = claims.limits in
      and_then (to_nauth_exports claims.exports) λ exports.
        and_then (to_nauth_imports claims.imports) λ imports. ok (record {
          account_id = "";
          display_name = claims.name;
          account_limits = convert_account_limits jwt limits.account defaults.account;
          jet_stream_enabled = some (jwt.is_js_enabled limits);
          jet_stream_limits = convert_jet_stream_limits limits.jet_stream defaults.jet_stream;
          nats_limits = convert_nats_limits jwt limits.nats defaults.nats;
          signing_keys = sort_keys claims.signing_keys;
          exports = exports;
          imports = imports;
        })
