-- ===== src/Claims/Items/Sequences.antt =====
-- Converting lists of exports and imports: internal/core/account_claims.go.
use native.Mathlib.Nat.{add-zero}
use nauth.Common.{
  ℕ, suc, ◌+◌, String, Option, none, some, List, [], ◌∷◌, ◌++◌, map, ok, err, str, num, errorf,
  wrapf, wrap, and_then-eq-ok, and_then-ok, wrap-eq-ok, ok-injective, ◌≡◌, ◌∙◌, refl, arith, eq_iff,
  ◌⊎◌, inl, inr, All, length, present,
}
use nauth.Jwt
use nauth.Domain.Account
use nauth.Claims.Items.{
  to_jwt_export_type, to_jwt_import, to_jwt_export, to_nauth_import, to_nauth_export,
  to_jwt_exports_from, to_jwt_exports, to_nauth_exports, to_jwt_imports_from, to_jwt_imports,
  to_nauth_imports,
}
use nauth.Claims.Items.RoundTrip.{
  normal_export, normal_import, without_info, without_token, to_nauth_export-to_jwt_export,
  to_jwt_export-to_nauth_export, to_nauth_import-to_jwt_import, to_jwt_import-to_nauth_import,
}

exports_there :
    (i : ℕ) (es : List Account.Export) (js : List (Option Jwt.Export))
    → to_jwt_exports_from i es ≡ ok js
    → to_nauth_exports js ≡ ok (map normal_export es)
unfolding to_jwt_exports_from to_nauth_exports
exports_there i [] js h = rw (← ok-injective h) refl
exports_there i (e ∷ es) js h =
    let (t, converted, more) = and_then-eq-ok (wrap _ _ (to_jwt_export e)) _ h in
    let (ts, rest, built) = and_then-eq-ok (to_jwt_exports_from (suc i) es) _ more in
    rw (← ok-injective built) (
      rw
        (
          to_nauth_export-to_jwt_export e t (wrap-eq-ok _ _ _ converted),
          exports_there (suc i) es ts rest,
        )
        refl)

-- Exports that convert to the JWT library's come back in their order, each as it was but for an
-- empty type, which comes back as "unknown", and an unknown response type, which comes back empty.
pub to_nauth_exports-to_jwt_exports :
    (es : List Account.Export) (js : List (Option Jwt.Export))
    → to_jwt_exports es ≡ ok js
    → to_nauth_exports js ≡ ok (map normal_export es)
unfolding to_jwt_exports
to_nauth_exports-to_jwt_exports es js h = exports_there 0 es js h

exports_back :
    (i : ℕ) (js : List (Option Jwt.Export)) (es : List Account.Export)
    → to_nauth_exports js ≡ ok es
    → to_jwt_exports_from i es ≡ ok (map (λ j. some (without_info j)) (present js))
unfolding to_jwt_exports_from to_nauth_exports
exports_back i [] es h = rw (← ok-injective h) refl
exports_back i (none ∷ js) es h = exports_back i js es h
exports_back i (some j ∷ js) es h =
    let (t, converted, more) = and_then-eq-ok (wrap _ _ (to_nauth_export j)) _ h in
    let (ts, rest, built) = and_then-eq-ok (to_nauth_exports js) _ more in
    rw (← ok-injective built) (
      rw
        (
          to_jwt_export-to_nauth_export j t (wrap-eq-ok _ _ _ converted),
          exports_back (suc i) js ts rest,
        )
        refl)

-- Exports read back from claims convert again to the exports of the claims, nil ones left out and
-- the rest without their descriptions and URLs.
pub to_jwt_exports-to_nauth_exports :
    (js : List (Option Jwt.Export)) (es : List Account.Export)
    → to_nauth_exports js ≡ ok es
    → to_jwt_exports es ≡ ok (map (λ j. some (without_info j)) (present js))
unfolding to_jwt_exports
to_jwt_exports-to_nauth_exports js es h = exports_back 0 js es h

imports_there :
    (i : ℕ) (es : List Account.Import) (js : List (Option Jwt.Import))
    → to_jwt_imports_from i es ≡ ok js
    → to_nauth_imports js ≡ ok (map normal_import es)
unfolding to_jwt_imports_from to_nauth_imports
imports_there i [] js h = rw (← ok-injective h) refl
imports_there i (e ∷ es) js h =
    let (t, converted, more) = and_then-eq-ok (wrap _ _ (to_jwt_import e)) _ h in
    let (ts, rest, built) = and_then-eq-ok (to_jwt_imports_from (suc i) es) _ more in
    rw (← ok-injective built) (
      rw
        (
          to_nauth_import-to_jwt_import e t (wrap-eq-ok _ _ _ converted),
          imports_there (suc i) es ts rest,
        )
        refl)

imports_back :
    (i : ℕ) (js : List (Option Jwt.Import)) (es : List Account.Import)
    → to_nauth_imports js ≡ ok es
    → to_jwt_imports_from i es ≡ ok (map (λ j. some (without_token j)) (present js))
unfolding to_jwt_imports_from to_nauth_imports
imports_back i [] es h = rw (← ok-injective h) refl
imports_back i (none ∷ js) es h = imports_back i js es h
imports_back i (some j ∷ js) es h =
    let (t, converted, more) = and_then-eq-ok (to_nauth_import j) _ h in
    let (ts, rest, built) = and_then-eq-ok (to_nauth_imports js) _ more in
    rw (← ok-injective built)
      (rw (to_jwt_import-to_nauth_import j t converted, imports_back (suc i) js ts rest) refl)

-- Imports that convert to the JWT library's come back in their order, each as it was but for an
-- empty type, which comes back as "unknown".
pub to_nauth_imports-to_jwt_imports :
    (is : List Account.Import) (js : List (Option Jwt.Import))
    → to_jwt_imports is ≡ ok js
    → to_nauth_imports js ≡ ok (map normal_import is)
unfolding to_jwt_imports
to_nauth_imports-to_jwt_imports is js h = imports_there 0 is js h

-- Imports read back from claims convert again to the imports of the claims, nil ones left out and
-- the rest without their tokens and targets.
pub to_jwt_imports-to_nauth_imports :
    (js : List (Option Jwt.Import)) (is : List Account.Import)
    → to_nauth_imports js ≡ ok is
    → to_jwt_imports is ≡ ok (map (λ j. some (without_token j)) (present js))
unfolding to_jwt_imports
to_jwt_imports-to_nauth_imports js is h = imports_back 0 js is h

abbrev pub IsKnownType : String → Type 0
IsKnownType t = (t ≡ "") ⊎ (t ≡ "service") ⊎ (t ≡ "stream") ⊎ (t ≡ "unknown")

known_type : (t : String) → IsKnownType t → (j : Jwt.ExportType) × (to_jwt_export_type t ≡ ok j)
unfolding to_jwt_export_type
known_type t (inl e) = (Jwt.ExportType.unknown, rw e refl)
known_type t (inr (inl e)) = (Jwt.ExportType.service, rw e refl)
known_type t (inr (inr (inl e))) = (Jwt.ExportType.stream, rw e refl)
known_type t (inr (inr (inr e))) = (Jwt.ExportType.unknown, rw e refl)

export_of_known :
    (e : Account.Export) → IsKnownType e.type → (j : Jwt.Export) × (to_jwt_export e ≡ ok j)
unfolding to_jwt_export
export_of_known e h =
    let (j, typed) = known_type e.type h in (_, and_then-ok (to_jwt_export_type e.type) _ typed)

export_of_unknown :
    (e : Account.Export)
    → ¬ IsKnownType e.type
    → to_jwt_export e ≡ err (errorf "unknown nauth export type: %q" (str e.type ∷ []))
unfolding to_jwt_export to_jwt_export_type
export_of_unknown e h = ground (
  arith,
  eq_iff e.type "",
  eq_iff e.type "service",
  eq_iff e.type "stream",
  eq_iff e.type "unknown",
)

exports_from_error :
    (i : ℕ) (before : List Account.Export) (e : Account.Export) (after : List Account.Export)
    → All (λ x. IsKnownType x.type) before
    → ¬ IsKnownType e.type
    → to_jwt_exports_from i (before ++ e ∷ after)
      ≡ err (
          wrapf "failed to convert export at index %d: %w"
            (num (i + length before) ∷ [])
            (errorf "unknown nauth export type: %q" (str e.type ∷ [])))
unfolding to_jwt_exports_from
exports_from_error i [] e after _ bad = rw (export_of_unknown e bad, add-zero) refl
exports_from_error i (x ∷ before) e after (known, h) bad =
    let (j, converted) = export_of_known x known in
    let shift : i + suc (length before) ≡ suc i + length before = omega arith in
    rw (converted, exports_from_error (suc i) before e after h bad, shift) refl

-- A list of exports is refused for its first export of an unknown type, whose index the error
-- names.
pub to_jwt_exports_error :
    (before : List Account.Export) (e : Account.Export) (after : List Account.Export)
    → All (λ x. IsKnownType x.type) before
    → ¬ IsKnownType e.type
    → to_jwt_exports (before ++ e ∷ after)
      ≡ err (
          wrapf "failed to convert export at index %d: %w"
            (num (length before) ∷ [])
            (errorf "unknown nauth export type: %q" (str e.type ∷ [])))
unfolding to_jwt_exports
to_jwt_exports_error before e after h bad =
    let start : 0 + length before ≡ length before = omega arith in
    exports_from_error 0 before e after h bad ∙ rw start refl
