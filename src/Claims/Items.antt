-- ===== src/Claims/Items.antt =====
-- internal/core/account_claims.go: exports and imports, to and from those of the JWT library.
pub mod RoundTrip
pub mod Sequences
use nauth.Common.{
  ℕ, suc, String, Option, none, some, List, [], ◌∷◌, Error, Result, ok, err, str, num, errorf, wrap,
  and_then, ◌==◌, if◌then◌else◌,
}
use nauth.Jwt
use nauth.Domain.Account
use nauth.Domain.Account.{
  export_type_unknown, export_type_stream, export_type_service, response_type_singleton,
  response_type_stream, response_type_chunked,
}

-- The second argument of `%q` for a type or a response type of the JWT library is its own value.
abbrev jwt_type_arg : Jwt.ExportType → ℕ
jwt_type_arg Jwt.ExportType.unknown = 0
jwt_type_arg Jwt.ExportType.stream = 1
jwt_type_arg Jwt.ExportType.service = 2
jwt_type_arg (Jwt.ExportType.other n) = n

unfoldable pub to_jwt_export_type : String → Result Jwt.ExportType
to_jwt_export_type source =
    if source == ""
    then ok Jwt.ExportType.unknown
    else if source == export_type_service
    then ok Jwt.ExportType.service
    else if source == export_type_stream
    then ok Jwt.ExportType.stream
    else if source == export_type_unknown
    then ok Jwt.ExportType.unknown
    else err (errorf "unknown nauth export type: %q" (str source ∷ []))

unfoldable pub to_nauth_export_type : Jwt.ExportType → Result String
to_nauth_export_type Jwt.ExportType.service = ok export_type_service
to_nauth_export_type Jwt.ExportType.stream = ok export_type_stream
to_nauth_export_type Jwt.ExportType.unknown = ok export_type_unknown
to_nauth_export_type (Jwt.ExportType.other n) =
    err (errorf "unknown jwt export type: %q" (num n ∷ []))

unfoldable pub to_jwt_response_type : String → Jwt.ResponseType
to_jwt_response_type source =
    if source == response_type_singleton
    then Jwt.ResponseType.singleton
    else if source == response_type_chunked
    then Jwt.ResponseType.chunked
    else if source == response_type_stream
    then Jwt.ResponseType.streamed
    else Jwt.ResponseType.absent

unfoldable pub to_nauth_response_type : Jwt.ResponseType → Result String
to_nauth_response_type Jwt.ResponseType.absent = ok ""
to_nauth_response_type Jwt.ResponseType.singleton = ok response_type_singleton
to_nauth_response_type Jwt.ResponseType.chunked = ok response_type_chunked
to_nauth_response_type Jwt.ResponseType.streamed = ok response_type_stream
to_nauth_response_type (Jwt.ResponseType.other s) =
    err (errorf "unknown jwt response type: %q" (str s ∷ []))

unfoldable pub to_jwt_service_latency : Option Account.ServiceLatency → Option Jwt.ServiceLatency
to_jwt_service_latency none = none
to_jwt_service_latency (some source) =
    some (record { sampling = source.sampling; results = source.results })

unfoldable pub to_nauth_service_latency : Option Jwt.ServiceLatency → Option Account.ServiceLatency
to_nauth_service_latency none = none
to_nauth_service_latency (some source) =
    some (record { sampling = source.sampling; results = source.results })

unfoldable pub to_jwt_import : Account.Import → Result Jwt.Import
to_jwt_import source = and_then (to_jwt_export_type source.type) λ export_type. ok (record {
  account = source.account_id;
  name = source.name;
  subject = source.subject;
  type = export_type;
  local_subject = source.local_subject;
  share = source.share;
  allow_trace = source.allow_trace;
  token = "";
  to = "";
})

unfoldable pub to_jwt_export : Account.Export → Result Jwt.Export
to_jwt_export source = and_then (to_jwt_export_type source.type) λ export_type. ok (record {
  name = source.name;
  subject = source.subject;
  type = export_type;
  token_req = source.token_req;
  revocations = source.revocations;
  response_type = to_jwt_response_type source.response_type;
  response_threshold = source.response_threshold;
  account_token_position = source.account_token_position;
  advertise = source.advertise;
  allow_trace = source.allow_trace;
  latency = to_jwt_service_latency source.latency;
  description = "";
  info_url = "";
})

unfoldable pub to_nauth_import : Jwt.Import → Result Account.Import
to_nauth_import source = and_then (to_nauth_export_type source.type) λ export_type. ok (record {
  account_id = source.account;
  name = source.name;
  subject = source.subject;
  local_subject = source.local_subject;
  type = export_type;
  share = source.share;
  allow_trace = source.allow_trace;
})

unfoldable pub to_nauth_export : Jwt.Export → Result Account.Export
to_nauth_export source = and_then (to_nauth_export_type source.type) λ export_type.
    and_then (to_nauth_response_type source.response_type) λ response_type. ok (record {
      name = source.name;
      subject = source.subject;
      type = export_type;
      token_req = source.token_req;
      revocations = source.revocations;
      response_type = response_type;
      response_threshold = source.response_threshold;
      latency = to_nauth_service_latency source.latency;
      account_token_position = source.account_token_position;
      advertise = source.advertise;
      allow_trace = source.allow_trace;
    })

-- The loops over the items, from the index of the first of them.
to_jwt_exports_from : ℕ → List Account.Export → Result (List (Option Jwt.Export))
to_jwt_exports_from i [] = ok []
to_jwt_exports_from i (s ∷ sources) =
    let rest = to_jwt_exports_from (suc i) sources in
    and_then (wrap "failed to convert export at index %d: %w" (num i ∷ []) (to_jwt_export s))
      λ t. and_then rest λ ts. ok (some t ∷ ts)

unfoldable pub to_jwt_exports : List Account.Export → Result (List (Option Jwt.Export))
unfolding to_jwt_exports_from
to_jwt_exports sources = to_jwt_exports_from 0 sources

to_jwt_imports_from : ℕ → List Account.Import → Result (List (Option Jwt.Import))
to_jwt_imports_from i [] = ok []
to_jwt_imports_from i (s ∷ sources) =
    let rest = to_jwt_imports_from (suc i) sources in
    and_then (wrap "failed to convert import at index %d: %w" (num i ∷ []) (to_jwt_import s))
      λ t. and_then rest λ ts. ok (some t ∷ ts)

unfoldable pub to_jwt_imports : List Account.Import → Result (List (Option Jwt.Import))
unfolding to_jwt_imports_from
to_jwt_imports sources = to_jwt_imports_from 0 sources

-- The loops of `convertNatsAccountClaims`, which pass over nil items.
unfoldable pub to_nauth_exports : List (Option Jwt.Export) → Result (List Account.Export)
to_nauth_exports [] = ok []
to_nauth_exports (none ∷ sources) = to_nauth_exports sources
to_nauth_exports (some s ∷ sources) =
    let rest = to_nauth_exports sources in
    and_then
      (wrap "failed to convert export %q with subject %q: %w" (str s.name ∷ str s.subject ∷ [])
        (to_nauth_export s))
      λ t. and_then rest λ ts. ok (t ∷ ts)

unfoldable pub to_nauth_imports : List (Option Jwt.Import) → Result (List Account.Import)
to_nauth_imports [] = ok []
to_nauth_imports (none ∷ sources) = to_nauth_imports sources
to_nauth_imports (some s ∷ sources) =
    let rest = to_nauth_imports sources in
    and_then (to_nauth_import s) λ t. and_then rest λ ts. ok (t ∷ ts)
