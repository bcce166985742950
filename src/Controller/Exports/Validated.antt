-- ===== src/Controller/Exports/Validated.antt =====
-- What the controller of exports validates, and what an account adopts.
use nauth.Common.{
  String, pos, true, false, none, ok, ◌≡◌, refl, sym, subst, ◌∙◌, ap, ◌⊎◌, inl, inr, and_then-eq-ok,
  and_then-ok, ok-injective, ◌==◌, eq_iff,
}
use nauth.Jwt
use nauth.Domain.Account
use nauth.Claims.Items.{
  to_jwt_export_type, to_jwt_response_type, to_jwt_service_latency, to_jwt_export,
}
use nauth.Api.Exports.{AccountExportRule}
use nauth.Controller.Converter.{
  to_nauth_export_type, to_nauth_response_type, to_nauth_service_latency, to_nauth_export_from_rule,
  value_or,
}
use nauth.Controller.Converter.Types.{choice-eq-ok}
use nauth.Controller.Exports.{map_export_type, map_to_export}

-- The two conversions of a type agree as far as the JWT library is concerned.
abbrev SameType : String → String → Type 0
SameType t u =
    (j : Jwt.ExportType) × (to_jwt_export_type u ≡ ok j)
    × (to_jwt_export_type (map_export_type t) ≡ ok j)

same_type :
    (t lit own : String) {u : String}
    → (t == lit) ≡ true
    → ok own ≡ ok u
    → SameType lit own
    → SameType t u
same_type t lit own {u} is_lit is_own (j, adopted, validated) =
    let p = sym ((eq_iff t lit).0 is_lit) in
    (
      j,
      subst (λ u. to_jwt_export_type u ≡ ok j) (ok-injective is_own) adopted,
      subst (λ t. to_jwt_export_type (map_export_type t) ≡ ok j) p validated,
    )

types_agree : (t : String) {u : String} → to_nauth_export_type t ≡ ok u → SameType t u
unfolding to_nauth_export_type to_jwt_export_type map_export_type
types_agree t h = elim (choice-eq-ok (t == "") (ok "") _ h) [
  | inl (same, e) ↦ same_type t "" "" same e (Jwt.ExportType.unknown, refl, refl)
  | inr (_, h1) ↦ elim (choice-eq-ok (t == "stream") (ok "stream") _ h1) [
    | inl (same, e) ↦ same_type t "stream" "stream" same e (Jwt.ExportType.stream, refl, refl)
    | inr (_, h2) ↦ elim (choice-eq-ok (t == "service") (ok "service") _ h2) [
      | inl (same, e) ↦ same_type t "service" "service" same e (Jwt.ExportType.service, refl, refl)
      | inr (_, h3) ↦ absurd cc
    ]
  ]
]

-- The response type of the JWT library by its name in the API.
abbrev pub IsNamed : String → Jwt.ResponseType → Type 0
IsNamed t r =
    ((t ≡ "") × (r ≡ Jwt.ResponseType.absent))
    ⊎ ((t ≡ "Singleton") × (r ≡ Jwt.ResponseType.singleton))
    ⊎ ((t ≡ "Stream") × (r ≡ Jwt.ResponseType.streamed))
    ⊎ ((t ≡ "Chunked") × (r ≡ Jwt.ResponseType.chunked))

-- The validated response type is always absent, the adopted one is that of the rule.
abbrev IsDropped : String → String → Type 0
IsDropped t u =
    (to_jwt_response_type t ≡ Jwt.ResponseType.absent) × IsNamed t (to_jwt_response_type u)

dropped :
    (t lit own : String) {u : String}
    → (t == lit) ≡ true
    → ok own ≡ ok u
    → IsDropped lit own
    → IsDropped t u
dropped t lit own {u} is_lit is_own d =
    subst (λ t. IsDropped t u) (sym ((eq_iff t lit).0 is_lit))
      (subst (λ u. IsDropped lit u) (ok-injective is_own) d)

response_type-IsDropped :
    (t : String) {u : String} → to_nauth_response_type t ≡ ok u → IsDropped t u
unfolding to_nauth_response_type to_jwt_response_type
response_type-IsDropped t h = elim (choice-eq-ok (t == "") (ok "") _ h) [
  | inl (same, e) ↦ dropped t "" "" same e (refl, inl (refl, refl))
  | inr (_, h1) ↦ elim (choice-eq-ok (t == "Singleton") (ok "singleton") _ h1) [
    | inl (same, e) ↦ dropped t "Singleton" "singleton" same e (refl, inr (inl (refl, refl)))
    | inr (_, h2) ↦ elim (choice-eq-ok (t == "Stream") (ok "stream") _ h2) [
      | inl (same, e) ↦ dropped t "Stream" "stream" same e (refl, inr (inr (inl (refl, refl))))
      | inr (_, h3) ↦ elim (choice-eq-ok (t == "Chunked") (ok "chunked") _ h3) [
        | inl (same, e) ↦ dropped t "Chunked" "chunked" same e (refl, inr (inr (inr (refl, refl))))
        | inr (_, h4) ↦ absurd cc
      ]
    ]
  ]
]

as_jwt : AccountExportRule → Jwt.ExportType → Jwt.ResponseType → Jwt.Export
unfolding to_nauth_service_latency to_jwt_service_latency
as_jwt rule type response_type = record {
  name = rule.name;
  subject = rule.subject;
  type = type;
  token_req = false;
  revocations = none;
  response_type = response_type;
  response_threshold = value_or (pos 0) rule.response_threshold;
  account_token_position = value_or 0 rule.account_token_position;
  advertise = value_or false rule.advertise;
  allow_trace = value_or false rule.allow_trace;
  latency = to_jwt_service_latency (to_nauth_service_latency rule.latency);
  description = "";
  info_url = "";
}

-- An export that an account adopts from a rule is converted to the JWT library as the controller of
-- exports has it validated, but for the response type: the validated export has none, whereas the
-- adopted one has the one that the rule names, which is none, Singleton, Stream or Chunked.
pub map_to_export-validated :
    (rule : AccountExportRule) {e : Account.Export}
    → to_nauth_export_from_rule rule ≡ ok e
    → (adopted : Jwt.Export) × (to_jwt_export e ≡ ok adopted)
      × (to_jwt_export (map_to_export rule)
          ≡ ok (record adopted { response_type = Jwt.ResponseType.absent }))
      × IsNamed rule.response_type adopted.response_type
unfolding to_nauth_export_from_rule map_to_export to_jwt_export as_jwt
map_to_export-validated rule {e} h =
    let (t, typed, h1) = and_then-eq-ok (to_nauth_export_type rule.type) _ h in
    let (r, responding, h2) = and_then-eq-ok (to_nauth_response_type rule.response_type) _ h1 in
    let (j, adopted, validated) = types_agree rule.type typed in
    let (absent, told) = response_type-IsDropped rule.response_type responding in
    let jwt = as_jwt rule j (to_jwt_response_type r) in
    (
      jwt,
      subst (λ e. to_jwt_export e ≡ ok jwt) (ok-injective h2)
          (and_then-ok (to_jwt_export_type t) _ adopted),
      and_then-ok (to_jwt_export_type (map_export_type rule.type)) _ validated
          ∙ ap (λ a. ok (as_jwt rule j a)) absent,
      told,
    )
