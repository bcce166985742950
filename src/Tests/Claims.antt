-- ===== src/Tests/Claims.antt =====
-- The theorems about claims at concrete exports, imports, limits and claims.
use mathlib.Core.List.{Perm}
use nauth.Common.{
  String, ◌<>◌, true, false, Option, none, some, List, [], ◌∷◌, Error, ok, ℤ-discrete, ◌↔◌, ◌⊎◌,
  ◌≡◌, refl, pos, map, present, is_yes_iff, ◌||◌, ◌++◌,
}
use nauth.Jwt
use nauth.Jwt.{Import-discrete}
use nauth.Domain.Names
use nauth.Domain.Names.{parse_namespaced_name}
use nauth.Domain.Names.Parsing.{parse_namespaced_name-join}
use nauth.Domain.Account
use nauth.Domain.Account.{validate, validate_target}
use nauth.Domain.Account.Requests.{AreFresh, validate_iff}
use nauth.Claims.Items
use nauth.Claims.Items.{to_jwt_exports, to_jwt_imports, to_nauth_exports, to_nauth_imports}
use nauth.Claims.Items.RoundTrip.{normal_export, normal_import}
use nauth.Claims.Items.Sequences.{to_nauth_exports-to_jwt_exports, to_nauth_imports-to_jwt_imports}
use nauth.Claims.Limits
use nauth.Claims.Limits.RoundTrip.{IsDocumented, limits_round_trip}
use nauth.Claims.Items.RoundTrip.{without_info, without_token}
use nauth.Claims.Merge.{holds, merge_jwt_items}
use nauth.Claims.Merge.Union.{HasNoDuplicates, merge-union}
use nauth.Claims.Builder
use nauth.Claims.Builder.{
  validate_jwt_exports, validate_jwt_imports, add_export_group, add_import_group,
  new_account_claims_builder,
}
use nauth.Claims.Builder.Groups.{merged_exports, with_exports, add_export_group_atomic}
use nauth.Claims.Convert.{convert_nats_account_claims, sort_keys}
use nauth.Claims.Convert.Rebuild.{convert-rebuild}
use nauth.Tests.Libraries.{AccountLimits-discrete, NatsLimits-discrete}
use nauth.Tests.Fixtures.{library, fresh_claims, fresh_limits, k8s, request, export, import_of}

abbrev unknown_export : Account.Export
unknown_export = record (export "c") { type = "queue" }

abbrev two_exports : List Account.Export
two_exports =
    record (export "a") { type = "" }
    ∷ record (export "b") { type = "service"; response_type = "singleton" }
    ∷ []

abbrev two_imports : List Account.Import
two_imports = import_of "a" ∷ record (import_of "b") { type = "" } ∷ []

abbrev jwt_export : String → Jwt.Export
jwt_export subject = record {
  name = "";
  subject = subject;
  type = Jwt.ExportType.stream;
  token_req = false;
  revocations = none;
  response_type = Jwt.ResponseType.absent;
  response_threshold = pos 0;
  account_token_position = 0;
  advertise = false;
  allow_trace = false;
  latency = none;
  description = "";
  info_url = "";
}

abbrev jwt_import : String → Jwt.Import
jwt_import subject = record {
  account = "B";
  name = "";
  subject = subject;
  type = Jwt.ExportType.stream;
  local_subject = "";
  share = false;
  allow_trace = false;
  token = "";
  to = "";
}

abbrev nats_export : String → Jwt.Export
nats_export subject = record (jwt_export subject) {
  type = Jwt.ExportType.service;
  response_type = Jwt.ResponseType.singleton;
}

abbrev fresh_builder : Builder.AccountClaimsBuilder
fresh_builder = new_account_claims_builder library "A" none

to_nauth_exports-to_jwt_exports_example :
    to_nauth_exports (
      some (record (jwt_export "a") { type = Jwt.ExportType.unknown })
      ∷ some (nats_export "b")
      ∷ [])
    ≡ ok (map normal_export two_exports)
unfolding to_jwt_exports Items.to_jwt_export Items.to_jwt_export_type Items.to_jwt_response_type
    Items.to_jwt_service_latency
to_nauth_exports-to_jwt_exports_example = to_nauth_exports-to_jwt_exports two_exports _ refl

to_nauth_imports-to_jwt_imports_example :
    to_nauth_imports (
      some (jwt_import "a") ∷ some (record (jwt_import "b") { type = Jwt.ExportType.unknown }) ∷ [])
    ≡ ok (map normal_import two_imports)
unfolding to_jwt_imports Items.to_jwt_import Items.to_jwt_export_type
to_nauth_imports-to_jwt_imports_example = to_nauth_imports-to_jwt_imports two_imports _ refl

documented : IsDocumented library
documented = record {
  account_unlimited = λ l subject. (is_yes_iff (AccountLimits-discrete l fresh_limits.account)).0;
  nats_unlimited = λ l subject. (is_yes_iff (NatsLimits-discrete l fresh_limits.nats)).0;
}

limits_round_trip_example :
    let d = fresh_limits in
    let l = record fresh_limits { nats = record { subs = pos 5; dat = pos 6; payload = pos 7 } } in
    (Limits.account_limits (Limits.convert_account_limits library l.account d.account) d.account
      ≡ l.account)
    × (Limits.nats_limits (Limits.convert_nats_limits library l.nats d.nats) d.nats ≡ l.nats)
    × (Limits.jet_stream_limits
          (Limits.convert_jet_stream_limits l.jet_stream d.jet_stream)
          d.jet_stream
        ≡ l.jet_stream)
limits_round_trip_example =
    limits_round_trip library "A"
      (record fresh_limits { nats = record { subs = pos 5; dat = pos 6; payload = pos 7 } })
      documented refl

merge-union_example :
    let additions = some (jwt_import "a") ∷ some (jwt_import "b") ∷ some (jwt_import "a") ∷ [] in
    let result = some (jwt_import "b") ∷ [] in
    ((new : List (Option Jwt.Import)) × (merge_jwt_items Import-discrete result additions true
        ≡ result ++ new))
    × ((x : Jwt.Import)
        → holds Import-discrete (merge_jwt_items Import-discrete result additions true) x
          ≡ (holds Import-discrete result x || holds Import-discrete additions x))
    × HasNoDuplicates Import-discrete (merge_jwt_items Import-discrete result additions true)
unfolding holds
merge-union_example =
    merge-union Import-discrete (some (jwt_import "b") ∷ [])
      (some (jwt_import "a") ∷ some (jwt_import "b") ∷ some (jwt_import "a") ∷ []) (refl, tt)

validate_iff_example : (validate k8s request ≡ none) ↔ (
    (validate_target k8s request.account_ref request.cluster_target ≡ none)
    × AreFresh [] ("one" ∷ "two" ∷ [])
    × AreFresh [] ("one" ∷ "two" ∷ []))
validate_iff_example = validate_iff k8s request

abbrev export_group : Account.ExportGroup
export_group = record { ref = "one"; required = true; name = "one"; exports = two_exports }

abbrev import_group : Account.ImportGroup
import_group = record { ref = "one"; required = true; name = "one"; imports = two_imports }

add_export_group_atomic_example :
    ((e : Error) × (add_export_group library fresh_builder export_group ≡ (some e, fresh_builder)))
    ⊎ ((exports : List (Option Jwt.Export)) × (to_jwt_exports two_exports ≡ ok exports)
        × (validate_jwt_exports library exports ≡ none)
        × (validate_jwt_exports library (merged_exports library fresh_builder exports) ≡ none)
        × (add_export_group library fresh_builder export_group
            ≡ (none, with_exports fresh_builder (merged_exports library fresh_builder exports))))
add_export_group_atomic_example = add_export_group_atomic library fresh_builder export_group

abbrev claims : Jwt.AccountClaims
claims = record (fresh_claims "A") {
  signing_keys = "T" ∷ "S" ∷ [];
  exports = some (nats_export "a") ∷ none ∷ [];
  imports = some (jwt_import "b") ∷ [];
}

convert-rebuild_example :
    (to_jwt_exports (record (export "a") { type = "service"; response_type = "singleton" } ∷ [])
      ≡ ok (map (λ j. some (without_info j)) (present claims.exports)))
    × (to_jwt_imports (import_of "b" ∷ [])
        ≡ ok (map (λ j. some (without_token j)) (present claims.imports)))
    × (Limits.account_limits
          (Limits.convert_account_limits library fresh_limits.account fresh_limits.account)
          fresh_limits.account
        ≡ fresh_limits.account)
    × (Limits.nats_limits
          (Limits.convert_nats_limits library fresh_limits.nats fresh_limits.nats)
          fresh_limits.nats
        ≡ fresh_limits.nats)
    × (Limits.jet_stream_limits
          (Limits.convert_jet_stream_limits fresh_limits.jet_stream fresh_limits.jet_stream)
          fresh_limits.jet_stream
        ≡ fresh_limits.jet_stream)
    × Perm (sort_keys ("T" ∷ "S" ∷ [])) claims.signing_keys
    × (some false ≡ some (library.is_js_enabled claims.limits))
    × ("" ≡ claims.name)
unfolding convert_nats_account_claims ℤ-discrete to_nauth_exports to_nauth_imports
    Items.to_nauth_import Items.to_nauth_export Items.to_nauth_export_type
    Items.to_nauth_response_type Items.to_nauth_service_latency
convert-rebuild_example =
    convert-rebuild library claims
      (record {
        account_id = "";
        display_name = "";
        account_limits =
            Limits.convert_account_limits library fresh_limits.account fresh_limits.account;
        jet_stream_enabled = some false;
        jet_stream_limits =
            Limits.convert_jet_stream_limits fresh_limits.jet_stream fresh_limits.jet_stream;
        nats_limits = Limits.convert_nats_limits library fresh_limits.nats fresh_limits.nats;
        signing_keys = sort_keys ("T" ∷ "S" ∷ []);
        exports = record (export "a") { type = "service"; response_type = "singleton" } ∷ [];
        imports = import_of "b" ∷ [];
      })
      documented refl refl

parse_namespaced_name-join_example :
    parse_namespaced_name k8s ("ns" <> ("/" <> "a/b"))
    ≡ ok (record { namespace = "ns"; name = "a/b" })
unfolding Names.validate Names.is_blank
parse_namespaced_name-join_example =
    parse_namespaced_name-join k8s (record { namespace = "ns"; name = "a/b" }) (refl, (refl, tt))
      refl
