-- ===== src/Claims/Items/RoundTrip.antt =====
-- Converting exports and imports there and back: internal/core/account_claims.go.
use nauth.Common.{
  String, Option, none, some, ok, ◌≡◌, refl, arith, eq_iff, ◌==◌, ◌||◌, and_then-eq-ok,
  ok-injective, if◌then◌else◌,
}
use nauth.Jwt
use nauth.Domain.Account
use nauth.Domain.Account.{export_type_unknown}
use nauth.Claims.Items.{
  to_jwt_export_type, to_nauth_export_type, to_jwt_response_type, to_nauth_response_type,
  to_jwt_service_latency, to_nauth_service_latency, to_jwt_import, to_jwt_export, to_nauth_import,
  to_nauth_export,
}

abbrev pub normal_type : String → String
normal_type t = if t == "" then export_type_unknown else t

abbrev pub normal_response_type : String → String
normal_response_type r = if r == "singleton" || r == "chunked" || r == "stream" then r else ""

-- What a round trip makes of an export: absent types are written out, unknown response types lost.
abbrev pub normal_export : Account.Export → Account.Export
normal_export e = record e {
  type = normal_type e.type;
  response_type = normal_response_type e.response_type;
}

abbrev pub normal_import : Account.Import → Account.Import
normal_import i = record i { type = normal_type i.type }

-- What is not read of an export of the JWT library: its description and the URL to more about it.
abbrev pub without_info : Jwt.Export → Jwt.Export
without_info j = record j { description = ""; info_url = "" }

-- What is not read of an import of the JWT library: its activation token and the deprecated `To`.
abbrev pub without_token : Jwt.Import → Jwt.Import
without_token j = record j { token = ""; to = "" }

to_nauth_export_type-to_jwt_export_type :
    (t : String) (j : Jwt.ExportType)
    → to_jwt_export_type t ≡ ok j
    → to_nauth_export_type j ≡ ok (normal_type t)
unfolding to_jwt_export_type to_nauth_export_type
to_nauth_export_type-to_jwt_export_type t j h =
    ground (arith, eq_iff t "", eq_iff t "service", eq_iff t "stream", eq_iff t "unknown")

to_jwt_export_type-to_nauth_export_type :
    (j : Jwt.ExportType) (t : String) → to_nauth_export_type j ≡ ok t → to_jwt_export_type t ≡ ok j
unfolding to_jwt_export_type to_nauth_export_type
to_jwt_export_type-to_nauth_export_type Jwt.ExportType.service t h = rw (← ok-injective h) refl
to_jwt_export_type-to_nauth_export_type Jwt.ExportType.stream t h = rw (← ok-injective h) refl
to_jwt_export_type-to_nauth_export_type Jwt.ExportType.unknown t h = rw (← ok-injective h) refl
to_jwt_export_type-to_nauth_export_type (Jwt.ExportType.other n) t h = cc

to_nauth_response_type-to_jwt_response_type :
    (r : String) → to_nauth_response_type (to_jwt_response_type r) ≡ ok (normal_response_type r)
unfolding to_jwt_response_type to_nauth_response_type
to_nauth_response_type-to_jwt_response_type r =
    ground (arith, eq_iff r "singleton", eq_iff r "chunked", eq_iff r "stream")

service_latency_there :
    (l : Option Account.ServiceLatency) → to_nauth_service_latency (to_jwt_service_latency l) ≡ l
unfolding to_jwt_service_latency to_nauth_service_latency
service_latency_there none = refl
service_latency_there (some l) = refl

service_latency_back :
    (l : Option Jwt.ServiceLatency) → to_jwt_service_latency (to_nauth_service_latency l) ≡ l
unfolding to_jwt_service_latency to_nauth_service_latency
service_latency_back none = refl
service_latency_back (some l) = refl

to_jwt_response_type-to_nauth_response_type :
    (j : Jwt.ResponseType) (r : String)
    → to_nauth_response_type j ≡ ok r
    → to_jwt_response_type r ≡ j
unfolding to_jwt_response_type to_nauth_response_type
to_jwt_response_type-to_nauth_response_type Jwt.ResponseType.absent r h = rw (← ok-injective h) refl
to_jwt_response_type-to_nauth_response_type Jwt.ResponseType.singleton r h =
    rw (← ok-injective h) refl
to_jwt_response_type-to_nauth_response_type Jwt.ResponseType.chunked r h =
    rw (← ok-injective h) refl
to_jwt_response_type-to_nauth_response_type Jwt.ResponseType.streamed r h =
    rw (← ok-injective h) refl
to_jwt_response_type-to_nauth_response_type (Jwt.ResponseType.other s) r h = cc

pub to_nauth_export-to_jwt_export :
    (e : Account.Export) (j : Jwt.Export)
    → to_jwt_export e ≡ ok j
    → to_nauth_export j ≡ ok (normal_export e)
unfolding to_jwt_export to_nauth_export
to_nauth_export-to_jwt_export e j h =
    let (t, typed, built) = and_then-eq-ok (to_jwt_export_type e.type) _ h in
    rw (← ok-injective built) (
      rw
        (
          to_nauth_export_type-to_jwt_export_type e.type t typed,
          to_nauth_response_type-to_jwt_response_type e.response_type,
          service_latency_there e.latency,
        )
        refl)

pub to_jwt_export-to_nauth_export :
    (j : Jwt.Export) (e : Account.Export)
    → to_nauth_export j ≡ ok e
    → to_jwt_export e ≡ ok (without_info j)
unfolding to_jwt_export to_nauth_export
to_jwt_export-to_nauth_export j e h =
    let (t, typed, more) = and_then-eq-ok (to_nauth_export_type j.type) _ h in
    let (r, answered, built) = and_then-eq-ok (to_nauth_response_type j.response_type) _ more in
    rw (← ok-injective built) (
      rw
        (
          to_jwt_export_type-to_nauth_export_type j.type t typed,
          to_jwt_response_type-to_nauth_response_type j.response_type r answered,
          service_latency_back j.latency,
        )
        refl)

pub to_nauth_import-to_jwt_import :
    (i : Account.Import) (j : Jwt.Import)
    → to_jwt_import i ≡ ok j
    → to_nauth_import j ≡ ok (normal_import i)
unfolding to_jwt_import to_nauth_import
to_nauth_import-to_jwt_import i j h =
    let (t, typed, built) = and_then-eq-ok (to_jwt_export_type i.type) _ h in
    rw (← ok-injective built) (rw (to_nauth_export_type-to_jwt_export_type i.type t typed) refl)

pub to_jwt_import-to_nauth_import :
    (j : Jwt.Import) (i : Account.Import)
    → to_nauth_import j ≡ ok i
    → to_jwt_import i ≡ ok (without_token j)
unfolding to_jwt_import to_nauth_import
to_jwt_import-to_nauth_import j i h =
    let (t, typed, built) = and_then-eq-ok (to_nauth_export_type j.type) _ h in
    rw (← ok-injective built) (rw (to_jwt_export_type-to_nauth_export_type j.type t typed) refl)
