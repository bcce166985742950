-- ===== src/Account/Adopt/Invariant.antt =====
-- What holds of the claims throughout the adoption of groups: internal/core/account.go.
use nauth.Common.{
  String, Option, none, some, List, [], ◌∷◌, Error, ◌≡◌, refl, inl, inr, Option-cases, Bool-cases,
  Result-cases, sym, subst,
}
use nauth.Jwt.{Library, Export-discrete, Import-discrete}
use nauth.Domain.Account
use nauth.Domain.Adoptions
use nauth.Domain.Adoptions.{AdoptionResult, AdoptionResults, adoption_failure_conflict}
use nauth.Claims.Merge.Union.{HasNoDuplicates, merge-HasNoDuplicates}
use nauth.Claims.Builder.{
  AccountClaimsBuilder, add_export_group, add_import_group, validate_jwt_exports,
  validate_jwt_imports,
}
use nauth.Claims.Builder.Groups.{add_export_group_atomic, add_import_group_atomic}
use nauth.Account.Adopt.{
  GroupKind, record_result, adopt_group, adopt_groups, export_kind, import_kind,
  adopt_export_groups, adopt_import_groups,
}

module _ {G : Type 0} (k : GroupKind G) where
  record_result-builder :
      (g : G) (b : AccountClaimsBuilder) (a : AdoptionResults) (failure : String)
      (message : Option Error)
      → (record_result k g b a failure message).1 ≡ b
  record_result-builder g b a failure message =
      elim (Result-cases
        (Adoptions.add a (record { ref = k.ref g; failure = failure; message = message }))) [
          | inl (_, added) ↦ rw (added, record_result) refl
          | inr (_, failed) ↦ rw (failed, record_result) refl
        ]

  adopt_group-builder :
      (g : G) (b : AccountClaimsBuilder) (a : AdoptionResults)
      → (adopt_group k g b a).1 ≡ (k.add_group b g).1
  unfolding adopt_group
  adopt_group-builder g b a = elim (Option-cases (k.add_group b g).0) [
    | inl added ↦ rw (added, adopt_group) (record_result-builder g (k.add_group b g).1 a "" none)
    | inr (e, failed) ↦ elim (Bool-cases (k.required g)) [
      | inl needed ↦ rw (failed, needed, adopt_group) refl
      | inr optional ↦
          rw (failed, optional, adopt_group)
            (record_result-builder g (k.add_group b g).1 a adoption_failure_conflict (some e))
    ]
  ]

module _ {G : Type 0} (k : GroupKind G) (P : AccountClaimsBuilder → Type 0)
    (keep : (b : AccountClaimsBuilder) (g : G) → P b → P (k.add_group b g).1) where
  adopt_group-keeps :
      (g : G) (b : AccountClaimsBuilder) (a : AdoptionResults) → P b → P (adopt_group k g b a).1
  adopt_group-keeps g b a h = subst P (sym (adopt_group-builder k g b a)) (keep b g h)

  adopt_groups-keeps :
      (gs : List G) (b : AccountClaimsBuilder) (a : AdoptionResults)
      → P b
      → P (adopt_groups k gs b a).1
  unfolding adopt_groups
  adopt_groups-keeps [] b a h = h
  adopt_groups-keeps (g ∷ gs) b a h = elim (Option-cases (adopt_group k g b a).0) [
    | inl passed ↦ rw (passed, adopt_groups) (adopt_groups-keeps gs _ _ (adopt_group-keeps g b a h))
    | inr (_, failed) ↦ rw (failed, adopt_groups) (adopt_group-keeps g b a h)
  ]

abbrev AddResult : Type 0
AddResult = Option Error × AccountClaimsBuilder

module _ (jwt : Library) where
  -- The exports of the claims pass the library's validation, and no two of them are equal.
  abbrev pub HasValidExports : AccountClaimsBuilder → Type 0
  HasValidExports b =
      (validate_jwt_exports jwt b.claim.exports ≡ none)
      × HasNoDuplicates Export-discrete b.claim.exports

  abbrev pub HasValidImports : AccountClaimsBuilder → Type 0
  HasValidImports b =
      (validate_jwt_imports jwt b.claim.subject b.claim.imports ≡ none)
      × HasNoDuplicates Import-discrete b.claim.imports

  add_export_group-HasValidExports :
      (b : AccountClaimsBuilder) (g : Account.ExportGroup)
      → HasValidExports b
      → HasValidExports (add_export_group jwt b g).1
  add_export_group-HasValidExports b g h = elim (add_export_group_atomic jwt b g) [
    | inl (_, failed) ↦ subst (λ (r : AddResult). HasValidExports r.1) (sym failed) h
    | inr (exports, _, _, fits, added) ↦
        subst (λ (r : AddResult). HasValidExports r.1) (sym added)
          (fits, merge-HasNoDuplicates Export-discrete b.claim.exports exports h.1)
  ]

  add_import_group-HasValidImports :
      (b : AccountClaimsBuilder) (g : Account.ImportGroup)
      → HasValidImports b
      → HasValidImports (add_import_group jwt b g).1
  add_import_group-HasValidImports b g h = elim (add_import_group_atomic jwt b g) [
    | inl (_, failed) ↦ subst (λ (r : AddResult). HasValidImports r.1) (sym failed) h
    | inr (imports, _, _, fits, added) ↦
        subst (λ (r : AddResult). HasValidImports r.1) (sym added)
          (fits, merge-HasNoDuplicates Import-discrete b.claim.imports imports h.1)
  ]

  -- Whether or not adopting groups of exports succeeds, exports that are valid and free of
  -- duplicates before it are so after it.
  pub adopt_export_groups-HasValidExports :
      (groups : List Account.ExportGroup) (b : AccountClaimsBuilder) (a : AdoptionResults)
      → HasValidExports b
      → HasValidExports (adopt_export_groups jwt groups b a).1
  unfolding adopt_export_groups
  adopt_export_groups-HasValidExports groups b a h =
      adopt_groups-keeps (export_kind jwt) HasValidExports add_export_group-HasValidExports groups b
        a h

  -- Whether or not adopting groups of imports succeeds, imports that are free of duplicates and
  -- valid for the account of the claims before it are so after it.
  pub adopt_import_groups-HasValidImports :
      (groups : List Account.ImportGroup) (b : AccountClaimsBuilder) (a : AdoptionResults)
      → HasValidImports b
      → HasValidImports (adopt_import_groups jwt groups b a).1
  unfolding adopt_import_groups
  adopt_import_groups-HasValidImports groups b a h =
      adopt_groups-keeps (import_kind jwt) HasValidImports add_import_group-HasValidImports groups b
        a h
