-- ===== src/Account/Adopt/Groups.antt =====
-- What adopting the groups of a request leaves in the claims: internal/core/account.go.
use nauth.Common.{Option, none, some, List, Error, ok, ◌≡◌, ◌∙◌, inl, inr, All, ap, sym, subst}
use nauth.Jwt
use nauth.Jwt.{Library, Export-discrete, Import-discrete}
use nauth.Domain.Account
use nauth.Domain.Account.{Ref}
use nauth.Domain.Adoptions.{AdoptionResults}
use nauth.Claims.Items.{to_jwt_exports, to_jwt_imports}
use nauth.Claims.Merge.Union.{Covers, merge-Covers, merge-Covers_old}
use nauth.Claims.Builder.{AccountClaimsBuilder, add_export_group, add_import_group}
use nauth.Claims.Builder.Groups.{add_export_group_atomic, add_import_group_atomic}
use nauth.Account.Adopt.{export_kind, import_kind, adopt_export_groups, adopt_import_groups}
use nauth.Account.Adopt.Settled.{IsSettled, adopt_groups-IsSettled}

-- Every export of the group is among those of the claims.
abbrev pub IncludesExports : AccountClaimsBuilder → Account.ExportGroup → Type 0
IncludesExports b g =
    (exports : List (Option Jwt.Export)) × (to_jwt_exports g.exports ≡ ok exports)
    × Covers Export-discrete b.claim.exports exports

abbrev pub IncludesImports : AccountClaimsBuilder → Account.ImportGroup → Type 0
IncludesImports b g =
    (imports : List (Option Jwt.Import)) × (to_jwt_imports g.imports ≡ ok imports)
    × Covers Import-discrete b.claim.imports imports

abbrev AddResult : Type 0
AddResult = Option Error × AccountClaimsBuilder

module _ (jwt : Library) where
  export_added :
      (b : AccountClaimsBuilder) (g : Account.ExportGroup)
      → (add_export_group jwt b g).0 ≡ none
      → IncludesExports (add_export_group jwt b g).1 g
  export_added b g h = elim (add_export_group_atomic jwt b g) [
    | inl (e, failed) ↦ let bad : some e ≡ none = sym (ap (λ (r : AddResult). r.0) failed) ∙ h in cc
    | inr (exports, converted, _, _, added) ↦
        subst (λ (r : AddResult). IncludesExports r.1 g) (sym added)
          (exports, converted, merge-Covers Export-discrete b.claim.exports exports)
  ]

  export_kept :
      (b : AccountClaimsBuilder) (g h : Account.ExportGroup)
      → IncludesExports b h
      → IncludesExports (add_export_group jwt b g).1 h
  export_kept b g h (es, converted, covered) = elim (add_export_group_atomic jwt b g) [
    | inl (e, failed) ↦
        subst (λ (r : AddResult). IncludesExports r.1 h) (sym failed) (es, converted, covered)
    | inr (exports, _, _, _, added) ↦
        subst (λ (r : AddResult). IncludesExports r.1 h) (sym added)
          (es, converted, merge-Covers_old Export-discrete b.claim.exports exports es covered)
  ]

  import_added :
      (b : AccountClaimsBuilder) (g : Account.ImportGroup)
      → (add_import_group jwt b g).0 ≡ none
      → IncludesImports (add_import_group jwt b g).1 g
  import_added b g h = elim (add_import_group_atomic jwt b g) [
    | inl (e, failed) ↦ let bad : some e ≡ none = sym (ap (λ (r : AddResult). r.0) failed) ∙ h in cc
    | inr (imports, converted, _, _, added) ↦
        subst (λ (r : AddResult). IncludesImports r.1 g) (sym added)
          (imports, converted, merge-Covers Import-discrete b.claim.imports imports)
  ]

  import_kept :
      (b : AccountClaimsBuilder) (g h : Account.ImportGroup)
      → IncludesImports b h
      → IncludesImports (add_import_group jwt b g).1 h
  import_kept b g h (es, converted, covered) = elim (add_import_group_atomic jwt b g) [
    | inl (e, failed) ↦
        subst (λ (r : AddResult). IncludesImports r.1 h) (sym failed) (es, converted, covered)
    | inr (imports, _, _, _, added) ↦
        subst (λ (r : AddResult). IncludesImports r.1 h) (sym added)
          (es, converted, merge-Covers_old Import-discrete b.claim.imports imports es covered)
  ]

  -- If adopting groups of exports returns no error, then every group has a result, and either the
  -- result is a success and all exports of the group are in the final claims, or it is a failure
  -- and the group was not required.
  pub adopt_export_groups-IsSettled :
      (groups : List Account.ExportGroup) (b : AccountClaimsBuilder) (adoptions : AdoptionResults)
      → (adopt_export_groups jwt groups b adoptions).0 ≡ none
      → All
          (IsSettled
            (export_kind jwt)
            IncludesExports
            (adopt_export_groups jwt groups b adoptions).1
            (adopt_export_groups jwt groups b adoptions).2)
          groups
  unfolding adopt_export_groups
  adopt_export_groups-IsSettled groups b adoptions h =
      adopt_groups-IsSettled (export_kind jwt) IncludesExports
        (record { added = export_added; kept = export_kept }) groups b adoptions h

  -- If adopting groups of imports returns no error, then every group has a result, and either the
  -- result is a success and all imports of the group are in the final claims, or it is a failure
  -- and the group was not required.
  pub adopt_import_groups-IsSettled :
      (groups : List Account.ImportGroup) (b : AccountClaimsBuilder) (adoptions : AdoptionResults)
      → (adopt_import_groups jwt groups b adoptions).0 ≡ none
      → All
          (IsSettled
            (import_kind jwt)
            IncludesImports
            (adopt_import_groups jwt groups b adoptions).1
            (adopt_import_groups jwt groups b adoptions).2)
          groups
  unfolding adopt_import_groups
  adopt_import_groups-IsSettled groups b adoptions h =
      adopt_groups-IsSettled (import_kind jwt) IncludesImports
        (record { added = import_added; kept = import_kept }) groups b adoptions h
