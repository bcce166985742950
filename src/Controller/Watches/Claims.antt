-- ===== src/Controller/Watches/Claims.antt =====
-- internal/adapter/inbound/controller/account.go: which changes of exports and imports have the
-- account looked at that adopts them.
pub mod Kept
use nauth.Common.{
  ℕ, ℤ, ℤ-discrete, String-discrete, String, Bool, true, false, not, Option, none, some, List, [],
  ◌∷◌, is_yes, is_yes_iff, ◌≡◌, refl, ap, sym, ◌∙◌, inl, inr, Bool-cases, ◌==◌, if◌then◌else◌,
  eq_iff,
}
use native.Mathlib.Decide.{ℕ_discrete}
use nauth.Api.{get_label}
use nauth.Api.Exports.{
  AccountExport, AccountExportClaim, AccountExportRule, account_export_label_account_id,
}
use nauth.Api.Imports.{
  AccountImport, AccountImportClaim, AccountImportRuleDerived, account_import_label_account_id,
}
use nauth.Controller.Converter.Groups.{
  export_groups_of, import_groups_of, to_nauth_rule_exports, to_nauth_rule_imports,
}
use nauth.Controller.Watches.{WatchEvent}

-- `accountExportDesiredClaimState` and `accountImportDesiredClaimState`.
pub record ClaimState (Rule : Type 0) : Type 0 where
  pub observed_generation : ℤ
  pub rules : List Rule

unfoldable pub ExportClaimState-discrete : Discrete (Option (ClaimState AccountExportRule))
unfolding ℤ-discrete
ExportClaimState-discrete = hlevel (String-discrete, ℤ-discrete, ℕ_discrete)

unfoldable pub ImportClaimState-discrete : Discrete (Option (ClaimState AccountImportRuleDerived))
unfolding ℤ-discrete
ImportClaimState-discrete = hlevel (String-discrete, ℤ-discrete)

unfoldable pub account_export_desired_claim_snapshot :
    Option AccountExport → Option (ClaimState AccountExportRule)
account_export_desired_claim_snapshot none = none
account_export_desired_claim_snapshot (some export) = elim export.status.desired_claim [
  | none ↦ none
  | some claim ↦
      some (record { observed_generation = claim.observed_generation; rules = claim.rules })
]

unfoldable pub account_import_desired_claim_snapshot :
    Option AccountImport → Option (ClaimState AccountImportRuleDerived)
account_import_desired_claim_snapshot none = none
account_import_desired_claim_snapshot (some imp) = elim imp.status.desired_claim [
  | none ↦ none
  | some claim ↦
      some (record { observed_generation = claim.observed_generation; rules = claim.rules })
]

unfoldable pub account_export_update_affects_accounts :
    Option AccountExport → Option AccountExport → Bool
unfolding account_export_desired_claim_snapshot get_label
account_export_update_affects_accounts none new = false
account_export_update_affects_accounts (some old) none = false
account_export_update_affects_accounts (some old) (some new) =
    let old_account_id = get_label old.meta account_export_label_account_id in
    let new_account_id = get_label new.meta account_export_label_account_id in
    if not (old_account_id == new_account_id)
    then true
    else not (
        is_yes (
          ExportClaimState-discrete (account_export_desired_claim_snapshot (some old))
            (account_export_desired_claim_snapshot (some new))))

unfoldable pub account_import_update_affects_accounts :
    Option AccountImport → Option AccountImport → Bool
unfolding account_import_desired_claim_snapshot get_label
account_import_update_affects_accounts none new = false
account_import_update_affects_accounts (some old) none = false
account_import_update_affects_accounts (some old) (some new) =
    let old_account_id = get_label old.meta account_import_label_account_id in
    let new_account_id = get_label new.meta account_import_label_account_id in
    if not (old_account_id == new_account_id)
    then true
    else not (
        is_yes (
          ImportClaimState-discrete (account_import_desired_claim_snapshot (some old))
            (account_import_desired_claim_snapshot (some new))))

unfoldable pub account_export_watch_predicate_for_accounts : WatchEvent AccountExport → Bool
unfolding account_export_update_affects_accounts get_label
account_export_watch_predicate_for_accounts (WatchEvent.create export) =
    not (get_label export.meta account_export_label_account_id == "")
account_export_watch_predicate_for_accounts (WatchEvent.delete export) =
    not (get_label export.meta account_export_label_account_id == "")
account_export_watch_predicate_for_accounts (WatchEvent.update old new) =
    account_export_update_affects_accounts (some old) (some new)
account_export_watch_predicate_for_accounts (WatchEvent.generic export) = false

unfoldable pub account_import_watch_predicate_for_accounts : WatchEvent AccountImport → Bool
unfolding account_import_update_affects_accounts get_label
account_import_watch_predicate_for_accounts (WatchEvent.create imp) =
    not (get_label imp.meta account_import_label_account_id == "")
account_import_watch_predicate_for_accounts (WatchEvent.delete imp) =
    not (get_label imp.meta account_import_label_account_id == "")
account_import_watch_predicate_for_accounts (WatchEvent.update old new) =
    account_import_update_affects_accounts (some old) (some new)
account_import_watch_predicate_for_accounts (WatchEvent.generic imp) = false
