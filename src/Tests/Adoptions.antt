-- ===== src/Tests/Adoptions.antt =====
-- The theorems about the adoption of groups at concrete groups.
use nauth.Common.{none, [], All, Any, ◌≡◌, ◌⊎◌, refl}
use nauth.Domain.Account
use nauth.Domain.Account.{validate_export_groups, validate_import_groups}
use nauth.Domain.Adoptions
use nauth.Domain.Adoptions.{AdoptionResult, AccountResult}
use nauth.Claims.Items
use nauth.Claims.Builder
use nauth.Claims.Builder.{new_account_claims_builder}
use nauth.Account.Adopt.{adopt_export_groups, adopt_import_groups, export_kind, import_kind}
use nauth.Account.Adopt.Settled.{IsSettled}
use nauth.Account.Adopt.Groups.{
  IncludesExports, IncludesImports, adopt_export_groups-IsSettled, adopt_import_groups-IsSettled,
}
use nauth.Account.Adopt.Validated.{
  IsRefused, adopt_export_groups-validated, adopt_import_groups-validated,
}
use nauth.Account.Adopt.Invariant.{
  HasValidExports, HasValidImports, adopt_export_groups-HasValidExports,
  adopt_import_groups-HasValidImports,
}
use nauth.Tests.Fixtures.{library, export_groups, import_groups}

abbrev fresh_builder : Builder.AccountClaimsBuilder
fresh_builder = new_account_claims_builder library "A" none

adopt_export_groups-IsSettled_example :
    All
      (IsSettled
        (export_kind library)
        IncludesExports
        (adopt_export_groups library export_groups fresh_builder []).1
        (adopt_export_groups library export_groups fresh_builder []).2)
      export_groups
unfolding adopt_export_groups Builder.add_export_group Items.to_jwt_exports Items.to_jwt_export
    Items.to_jwt_export_type Builder.validate_jwt_exports Adoptions.add
adopt_export_groups-IsSettled_example =
    adopt_export_groups-IsSettled library export_groups fresh_builder [] refl

adopt_import_groups-IsSettled_example :
    All
      (IsSettled
        (import_kind library)
        IncludesImports
        (adopt_import_groups library import_groups fresh_builder []).1
        (adopt_import_groups library import_groups fresh_builder []).2)
      import_groups
unfolding adopt_import_groups Builder.add_import_group Items.to_jwt_imports Items.to_jwt_import
    Items.to_jwt_export_type Builder.validate_jwt_imports Adoptions.add
adopt_import_groups-IsSettled_example =
    adopt_import_groups-IsSettled library import_groups fresh_builder [] refl

adopt_export_groups-validated_example :
    ((adopt_export_groups library export_groups fresh_builder []).0 ≡ none)
    ⊎ Any
        (IsRefused
          (export_kind library)
          (adopt_export_groups library export_groups fresh_builder []))
        export_groups
unfolding validate_export_groups Account.validate_refs
adopt_export_groups-validated_example =
    adopt_export_groups-validated library export_groups fresh_builder refl

adopt_import_groups-validated_example :
    ((adopt_import_groups library import_groups fresh_builder []).0 ≡ none)
    ⊎ Any
        (IsRefused
          (import_kind library)
          (adopt_import_groups library import_groups fresh_builder []))
        import_groups
unfolding validate_import_groups Account.validate_refs
adopt_import_groups-validated_example =
    adopt_import_groups-validated library import_groups fresh_builder refl

adopt_export_groups-HasValidExports_example :
    HasValidExports library (adopt_export_groups library export_groups fresh_builder []).1
unfolding new_account_claims_builder Builder.validate_jwt_exports Builder.blocking_errors
adopt_export_groups-HasValidExports_example =
    adopt_export_groups-HasValidExports library export_groups fresh_builder [] (refl, tt)

adopt_import_groups-HasValidImports_example :
    HasValidImports library (adopt_import_groups library import_groups fresh_builder []).1
unfolding new_account_claims_builder Builder.validate_jwt_imports Builder.blocking_errors
adopt_import_groups-HasValidImports_example =
    adopt_import_groups-HasValidImports library import_groups fresh_builder [] (refl, tt)
