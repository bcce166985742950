-- ===== src/Account/Adopt.antt =====
-- internal/core/account.go: adopting the groups of a request into the claims.
pub mod Settled
pub mod Groups
pub mod Validated
pub mod Invariant
use nauth.Common.{
  String, Bool, Option, none, some, List, [], ◌∷◌, Error, Result, ok, err, str, wrapf,
  if◌then◌else◌,
}
use nauth.Jwt.{Library}
use nauth.Domain.Account
use nauth.Domain.Account.{Ref}
use nauth.Domain.Adoptions
use nauth.Domain.Adoptions.{AdoptionResult, AdoptionResults, adoption_failure_conflict}
use nauth.Claims.Builder.{AccountClaimsBuilder, add_export_group, add_import_group}

-- The error that is returned, the builder and the adoption results after the call.
abbrev pub Adopted : Type 0
Adopted = Option Error × AccountClaimsBuilder × AdoptionResults

-- The two loops differ in the kind of group and in the texts of the errors.
pub record GroupKind (G : Type 0) : Type 0 where
  pub ref : G → Ref
  pub required : G → Bool
  pub include_format : String
  pub result_format : String
  pub add_group : AccountClaimsBuilder → G → Option Error × AccountClaimsBuilder

module _ {G : Type 0} (k : GroupKind G) where
  abbrev pub record_result :
      G → AccountClaimsBuilder → AdoptionResults → String → Option Error → Adopted
  record_result group b adoptions failure message =
      let result : AdoptionResult = record {
        ref = k.ref group;
        failure = failure;
        message = message;
      } in
      elim (Adoptions.add adoptions result) [
        | ok adoptions' ↦ (none, b, adoptions')
        | err e ↦ (some (wrapf k.result_format (str (k.ref group) ∷ []) e), b, adoptions)
      ]

  -- One round of the loop.
  unfoldable pub adopt_group : G → AccountClaimsBuilder → AdoptionResults → Adopted
  adopt_group group b adoptions =
      let (added, b') = k.add_group b group in
      elim added [
        | none ↦ record_result group b' adoptions "" none
        | some e ↦
            if k.required group
            then (some (wrapf k.include_format (str (k.ref group) ∷ []) e), b', adoptions)
            else record_result group b' adoptions adoption_failure_conflict (some e)
      ]

  unfoldable pub adopt_groups : List G → AccountClaimsBuilder → AdoptionResults → Adopted
  unfolding adopt_group
  adopt_groups [] b adoptions = (none, b, adoptions)
  adopt_groups (group ∷ groups) b adoptions =
      let (failed, b', adoptions') = adopt_group group b adoptions in
      elim failed [ some e ↦ (some e, b', adoptions') | none ↦ adopt_groups groups b' adoptions' ]

module _ (jwt : Library) where
  abbrev pub export_kind : GroupKind Account.ExportGroup
  export_kind = record {
    ref = λ g. g.ref;
    required = λ g. g.required;
    include_format = "failed to include required export group %q: %w";
    result_format = "failed to add adoption result for export group %q: %w";
    add_group = add_export_group jwt;
  }

  abbrev pub import_kind : GroupKind Account.ImportGroup
  import_kind = record {
    ref = λ g. g.ref;
    required = λ g. g.required;
    include_format = "failed to include required import group %q: %w";
    result_format = "failed to add adoption result for import group %q: %w";
    add_group = add_import_group jwt;
  }

  unfoldable pub adopt_export_groups :
      List Account.ExportGroup → AccountClaimsBuilder → AdoptionResults → Adopted
  unfolding adopt_groups
  adopt_export_groups groups b exports = adopt_groups export_kind groups b exports

  unfoldable pub adopt_import_groups :
      List Account.ImportGroup → AccountClaimsBuilder → AdoptionResults → Adopted
  unfolding adopt_groups
  adopt_import_groups groups b imports = adopt_groups import_kind groups b imports
