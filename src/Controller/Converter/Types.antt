-- ===== src/Controller/Converter/Types.antt =====
-- Types of exports and of responses survive the conversions between resources and the domain.
use nauth.Common.{
  String, Bool, true, false, Result, ok, ◌≡◌, refl, ◌==◌, eq_iff, arith, if◌then◌else◌, ◌⊎◌, inl,
  inr, subst, ap, sym, ◌∙◌, ok-injective,
}
use nauth.Controller.Converter.{
  to_nauth_export_type, to_api_export_type, to_nauth_response_type, to_api_response_type,
}

pub to_nauth_export_type-to_api_export_type :
    (t : String) {u : String} → to_api_export_type t ≡ ok u → to_nauth_export_type u ≡ ok t
unfolding to_nauth_export_type to_api_export_type
to_nauth_export_type-to_api_export_type t {u} h = ground (
  arith,
  eq_iff t "",
  eq_iff t "stream",
  eq_iff t "service",
  eq_iff u "",
  eq_iff u "stream",
  eq_iff u "service",
)

-- The two cases of a choice.
pub choice-eq-ok :
    {A : Type 0} (b : Bool) (r r' : Result A) {u : A}
    → (if b then r else r') ≡ ok u
    → ((b ≡ true) × (r ≡ ok u)) ⊎ ((b ≡ false) × (r' ≡ ok u))
choice-eq-ok true r r' h = inl (refl, h)
choice-eq-ok false r r' h = inr (refl, h)

-- The text of the API for the text of the domain comes back as that.
comes_back :
    (t own api : String) {u : String}
    → (t == own) ≡ true
    → ok api ≡ ok u
    → to_nauth_response_type api ≡ ok own
    → to_nauth_response_type u ≡ ok t
comes_back t own api is_own is_api back =
    subst (λ u. to_nauth_response_type u ≡ ok t) (ok-injective is_api)
      (back ∙ ap ok (sym ((eq_iff t own).0 is_own)))

pub to_nauth_response_type-to_api_response_type :
    (t : String) {u : String} → to_api_response_type t ≡ ok u → to_nauth_response_type u ≡ ok t
unfolding to_nauth_response_type to_api_response_type
to_nauth_response_type-to_api_response_type t h = elim (choice-eq-ok (t == "") (ok "") _ h) [
  | inl (same, e) ↦ comes_back t "" "" same e refl
  | inr (_, h1) ↦ elim (choice-eq-ok (t == "singleton") (ok "Singleton") _ h1) [
    | inl (same, e) ↦ comes_back t "singleton" "Singleton" same e refl
    | inr (_, h2) ↦ elim (choice-eq-ok (t == "stream") (ok "Stream") _ h2) [
      | inl (same, e) ↦ comes_back t "stream" "Stream" same e refl
      | inr (_, h3) ↦ elim (choice-eq-ok (t == "chunked") (ok "Chunked") _ h3) [
        | inl (same, e) ↦ comes_back t "chunked" "Chunked" same e refl
        | inr (_, h4) ↦ absurd cc
      ]
    ]
  ]
]
