-- ===== src/Claims/Builder/Groups.antt =====
-- Adding a group to the claims is all or nothing: internal/core/account_claims.go.
use nauth.Common.{
  true, Option, none, some, List, Error, ok, ◌≡◌, refl, ◌⊎◌, inl, inr, Result-cases, Option-cases,
}
use nauth.Jwt
use nauth.Jwt.{Library, Import-discrete, Export-discrete}
use nauth.Domain.Account
use nauth.Claims.Items.{to_jwt_exports, to_jwt_imports}
use nauth.Claims.Merge.{merge_jwt_items}
use nauth.Claims.Builder.{
  AccountClaimsBuilder, validate_jwt_exports, validate_jwt_imports, add_export_group,
  add_import_group,
}

abbrev pub with_exports : AccountClaimsBuilder → List (Option Jwt.Export) → AccountClaimsBuilder
with_exports b exports = record b { claim = record (b.claim) { exports = exports } }

abbrev pub with_imports : AccountClaimsBuilder → List (Option Jwt.Import) → AccountClaimsBuilder
with_imports b imports = record b { claim = record (b.claim) { imports = imports } }

module _ (jwt : Library) (b : AccountClaimsBuilder) where
  abbrev pub merged_exports : List (Option Jwt.Export) → List (Option Jwt.Export)
  merged_exports exports = merge_jwt_items Export-discrete b.claim.exports exports true

  abbrev pub merged_imports : List (Option Jwt.Import) → List (Option Jwt.Import)
  merged_imports imports = merge_jwt_items Import-discrete b.claim.imports imports true

  -- Adding a group of exports fails and leaves the claims as they were, or succeeds: then the
  -- group's exports are valid alone, they are merged into the claims' exports and nothing else is
  -- changed, and the merged exports are valid.
  pub add_export_group_atomic :
      (group : Account.ExportGroup)
      → ((e : Error) × (add_export_group jwt b group ≡ (some e, b)))
        ⊎ ((exports : List (Option Jwt.Export)) × (to_jwt_exports group.exports ≡ ok exports)
            × (validate_jwt_exports jwt exports ≡ none)
            × (validate_jwt_exports jwt (merged_exports exports) ≡ none)
            × (add_export_group jwt b group ≡ (none, with_exports b (merged_exports exports))))
  unfolding add_export_group
  add_export_group_atomic group = elim (Result-cases (to_jwt_exports group.exports)) [
    | inr (e, failed) ↦ inl (e, rw (failed, add_export_group) refl)
    | inl (exports, converted) ↦ elim (Option-cases (validate_jwt_exports jwt exports)) [
      | inr (e, invalid) ↦ inl (e, rw (converted, invalid, add_export_group) refl)
      | inl valid ↦ elim (Option-cases (validate_jwt_exports jwt (merged_exports exports))) [
        | inr (e, conflict) ↦ inl (e, rw (converted, valid, conflict, add_export_group) refl)
        | inl fits ↦
            inr
              (exports, converted, valid, fits, rw (converted, valid, fits, add_export_group) refl)
      ]
    ]
  ]

  -- Adding a group of imports fails and leaves the claims as they were, or succeeds: then the
  -- group's imports are valid alone for the account of the claims, they are merged into the claims'
  -- imports and nothing else is changed, and the merged imports are valid for that account.
  pub add_import_group_atomic :
      (group : Account.ImportGroup)
      → ((e : Error) × (add_import_group jwt b group ≡ (some e, b)))
        ⊎ ((imports : List (Option Jwt.Import)) × (to_jwt_imports group.imports ≡ ok imports)
            × (validate_jwt_imports jwt b.claim.subject imports ≡ none)
            × (validate_jwt_imports jwt b.claim.subject (merged_imports imports) ≡ none)
            × (add_import_group jwt b group ≡ (none, with_imports b (merged_imports imports))))
  unfolding add_import_group
  add_import_group_atomic group = elim (Result-cases (to_jwt_imports group.imports)) [
    | inr (e, failed) ↦ inl (e, rw (failed, add_import_group) refl)
    | inl (imports, converted) ↦
        elim (Option-cases (validate_jwt_imports jwt b.claim.subject imports)) [
          | inr (e, invalid) ↦ inl (e, rw (converted, invalid, add_import_group) refl)
          | inl valid ↦
              elim (Option-cases
                (validate_jwt_imports jwt b.claim.subject (merged_imports imports))) [
                  | inr (e, conflict) ↦
                      inl (e, rw (converted, valid, conflict, add_import_group) refl)
                  | inl fits ↦ inr (
                    imports,
                    converted,
                    valid,
                    fits,
                    rw (converted, valid, fits, add_import_group) refl,
                  )
                ]
        ]
  ]
