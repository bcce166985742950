-- ===== src/Controller/Watches/Claims/Kept.antt =====
-- What the updates of exports and imports leave alone that the controller of accounts ignores.
use nauth.Common.{
  ℕ, ℤ, String, false, Option, none, some, List, [], ◌∷◌, Result, ok, and_then, is_yes, is_yes_iff,
  ◌≡◌, refl, ap, ap₂, sym, ◌∙◌, ◌==◌, eq_iff,
}
use nauth.Domain.Account
use nauth.Api.{get_label}
use nauth.Api.Exports.{
  AccountExport, AccountExportClaim, AccountExportRule, account_export_label_account_id,
}
use nauth.Api.Imports.{
  AccountImport, AccountImportClaim, AccountImportRuleDerived, account_import_label_account_id,
}
use nauth.Controller.Converter.Groups.{
  export_groups_of, import_groups_of, to_nauth_rule_exports, to_nauth_rule_imports, export_ref,
  import_ref,
}
use nauth.Controller.Watches.{unaffected}
use nauth.Controller.Watches.Claims.{
  ClaimState, ExportClaimState-discrete, ImportClaimState-discrete,
  account_export_desired_claim_snapshot, account_import_desired_claim_snapshot,
  account_export_update_affects_accounts, account_import_update_affects_accounts,
}

abbrev generation_of : {R : Type 0} → Option (ClaimState R) → Option ℤ
generation_of none = none
generation_of (some s) = some s.observed_generation

abbrev export_groups :
    ℕ → String → String → Option (ClaimState AccountExportRule) → Result (List Account.ExportGroup)
export_groups i name uid none = ok []
export_groups i name uid (some s) =
    and_then (to_nauth_rule_exports i name s.rules)
      λ exports. ok ((record { ref = uid; required = false; name = name; exports = exports }) ∷ [])

abbrev import_groups :
    String
    → String
    → Option (ClaimState AccountImportRuleDerived)
    → Result (List Account.ImportGroup)
import_groups name uid none = ok []
import_groups name uid (some s) =
    and_then (to_nauth_rule_imports 0 name s.rules)
      λ imports. ok ((record { ref = uid; required = false; name = name; imports = imports }) ∷ [])

-- A snapshot has all that the groups and the generation of the claim depend on.
exports-snapshot :
    (i : ℕ) (e : AccountExport)
    → (export_groups_of i e
        ≡ export_groups i e.meta.name e.meta.uid (account_export_desired_claim_snapshot (some e)))
      × ((export_ref e).observed_generation_desired_claim
          ≡ generation_of (account_export_desired_claim_snapshot (some e)))
unfolding export_groups_of account_export_desired_claim_snapshot
exports-snapshot i e = of_claim e.status.desired_claim
  where
    of_claim :
        (c : Option AccountExportClaim)
        → let claimed = record e { status = record (e.status) { desired_claim = c } } in
          (export_groups_of i claimed
            ≡ export_groups i e.meta.name e.meta.uid
                (account_export_desired_claim_snapshot (some claimed)))
          × ((export_ref claimed).observed_generation_desired_claim
              ≡ generation_of (account_export_desired_claim_snapshot (some claimed)))
    of_claim none = (refl, refl)
    of_claim (some c) = (refl, refl)

imports-snapshot :
    (imp : AccountImport)
    → (import_groups_of imp
        ≡ import_groups imp.meta.name imp.meta.uid
            (account_import_desired_claim_snapshot (some imp)))
      × ((import_ref imp).observed_generation_desired_claim
          ≡ generation_of (account_import_desired_claim_snapshot (some imp)))
unfolding import_groups_of account_import_desired_claim_snapshot
imports-snapshot imp = of_claim imp.status.desired_claim
  where
    of_claim :
        (c : Option AccountImportClaim)
        → let claimed = record imp { status = record (imp.status) { desired_claim = c } } in
          (import_groups_of claimed
            ≡ import_groups imp.meta.name imp.meta.uid
                (account_import_desired_claim_snapshot (some claimed)))
          × ((import_ref claimed).observed_generation_desired_claim
              ≡ generation_of (account_import_desired_claim_snapshot (some claimed)))
    of_claim none = (refl, refl)
    of_claim (some c) = (refl, refl)

-- What stays the same of an export or of an import: its account, its group and the generation of
-- its claim.
abbrev pub IsExportKept : AccountExport → AccountExport → Type 0
IsExportKept old new =
    (get_label old.meta account_export_label_account_id
      ≡ get_label new.meta account_export_label_account_id)
    × ((i : ℕ) → export_groups_of i old ≡ export_groups_of i new)
    × ((export_ref old).observed_generation_desired_claim
        ≡ (export_ref new).observed_generation_desired_claim)

abbrev pub IsImportKept : AccountImport → AccountImport → Type 0
IsImportKept old new =
    (get_label old.meta account_import_label_account_id
      ≡ get_label new.meta account_import_label_account_id)
    × (import_groups_of old ≡ import_groups_of new)
    × ((import_ref old).observed_generation_desired_claim
        ≡ (import_ref new).observed_generation_desired_claim)

export-IsExportKept :
    (old new : AccountExport)
    → old.meta.name ≡ new.meta.name
    → old.meta.uid ≡ new.meta.uid
    → account_export_update_affects_accounts (some old) (some new) ≡ false
    → IsExportKept old new
unfolding account_export_update_affects_accounts
export-IsExportKept old new name uid h =
    let old_id = get_label old.meta account_export_label_account_id in
    let new_id = get_label new.meta account_export_label_account_id in
    let a = account_export_desired_claim_snapshot (some old) in
    let b = account_export_desired_claim_snapshot (some new) in
    let (same, equal) = unaffected (old_id == new_id) (is_yes (ExportClaimState-discrete a b)) h in
    let states = (is_yes_iff (ExportClaimState-discrete a b)).0 equal in
    (
      (eq_iff old_id new_id).0 same,
      λ i.
          (exports-snapshot i old).0
          ∙ ap₂ (λ n u. export_groups i n u a) name uid
          ∙ ap (export_groups i new.meta.name new.meta.uid) states
          ∙ sym (exports-snapshot i new).0,
      (exports-snapshot 0 old).1 ∙ ap generation_of states ∙ sym (exports-snapshot 0 new).1,
    )

import-IsImportKept :
    (old new : AccountImport)
    → old.meta.name ≡ new.meta.name
    → old.meta.uid ≡ new.meta.uid
    → account_import_update_affects_accounts (some old) (some new) ≡ false
    → IsImportKept old new
unfolding account_import_update_affects_accounts
import-IsImportKept old new name uid h =
    let old_id = get_label old.meta account_import_label_account_id in
    let new_id = get_label new.meta account_import_label_account_id in
    let a = account_import_desired_claim_snapshot (some old) in
    let b = account_import_desired_claim_snapshot (some new) in
    let (same, equal) = unaffected (old_id == new_id) (is_yes (ImportClaimState-discrete a b)) h in
    let states = (is_yes_iff (ImportClaimState-discrete a b)).0 equal in
    (
      (eq_iff old_id new_id).0 same,
      (imports-snapshot old).0
          ∙ ap₂ (λ n u. import_groups n u a) name uid
          ∙ ap (import_groups new.meta.name new.meta.uid) states
          ∙ sym (imports-snapshot new).0,
      (imports-snapshot old).1 ∙ ap generation_of states ∙ sym (imports-snapshot new).1,
    )

-- An update of an export or of an import that the controller of accounts ignores changes nothing
-- that the account adopts of it: the account that it is bound to, the group that it gives and the
-- generation of its claim stay the same. An update never changes a name or a UID.
pub ignored-kept :
    (old new : AccountExport) (old_import new_import : AccountImport)
    → old.meta.name ≡ new.meta.name
    → old.meta.uid ≡ new.meta.uid
    → old_import.meta.name ≡ new_import.meta.name
    → old_import.meta.uid ≡ new_import.meta.uid
    → account_export_update_affects_accounts (some old) (some new) ≡ false
    → account_import_update_affects_accounts (some old_import) (some new_import) ≡ false
    → IsExportKept old new × IsImportKept old_import new_import
ignored-kept old new old_import new_import name uid name' uid' h h' = (
  export-IsExportKept old new name uid h,
  import-IsImportKept old_import new_import name' uid' h',
)
