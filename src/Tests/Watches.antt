-- ===== src/Tests/Watches.antt =====
-- The theorems about the watches at concrete updates.
use nauth.Common.{
  String, pos, true, false, none, some, [], ◌∷◌, ok, ◌≡◌, refl, lookup, set_entry, is_yes,
  ℤ-discrete,
}
use nauth.Common
use nauth.Api.{Text, literal}
use nauth.Api.Accounts.{Account, AccountAdoption}
use nauth.Api.Exports.{AccountExport}
use nauth.Api.Imports.{AccountImport}
use nauth.Controller.{condition_type_ready}
use nauth.Controller.Status.{conditions_ready, find_adoption_by_uid}
use nauth.Controller.Exports.{evaluate}
use nauth.Controller.Watches
use nauth.Controller.Watches.{account_update_affects_account_exports}
use nauth.Controller.Watches.Ignored.{evaluate-ignored}
use nauth.Controller.Watches.Claims
use nauth.Controller.Watches.Claims.{
  account_export_update_affects_accounts, account_import_update_affects_accounts,
}
use nauth.Controller.Watches.Claims.Kept.{IsExportKept, IsImportKept, ignored-kept}
use nauth.Tests.Fixtures.{account, setting}
use nauth.Tests.Machinery.{machinery, machinery-IsDocumented}
use nauth.Tests.Claimed.{export_named, import_named}

abbrev one_text : Text → String
one_text text = "text"

abbrev adopted : AccountAdoption
adopted = record {
  name = "x";
  uid = "x";
  observed_generation = pos 3;
  status = record {
    status = "True";
    desired_claim_observed_generation = some (pos 3);
    reason = "OK";
    message = literal "Adopted";
  };
}

abbrev adopting : Account
adopting = record account {
  status = record (account.status) {
    adoptions = some (record { exports = adopted ∷ []; imports = [] });
  };
}

-- With a new hash, and an adoption of an import.
abbrev updated : Account
updated = record account {
  status = record (account.status) {
    adoptions = some (record { exports = adopted ∷ []; imports = adopted ∷ [] });
    claims_hash = "newer";
  };
}

evaluate-ignored_example :
    ((evaluate setting machinery (export_named "x") none (ok adopting)).1
      ≡ (evaluate setting machinery (export_named "x") none (ok updated)).1)
    × ((evaluate setting machinery (export_named "x") none (ok adopting)).1 ≡ false
        → conditions_ready machinery
            (evaluate setting machinery (export_named "x") none (ok adopting)).0.status.conditions
            (condition_type_ready ∷ [])
          ≡ conditions_ready machinery
              (evaluate setting machinery (export_named "x") none (ok updated)).0.status.conditions
              (condition_type_ready ∷ []))
unfolding find_adoption_by_uid account_update_affects_account_exports Watches.AdoptionState-discrete
    Common.String-discrete
evaluate-ignored_example =
    evaluate-ignored one_text setting machinery machinery-IsDocumented (export_named "x") none
      adopting updated (refl, tt) (refl, tt) refl

-- Of a later generation, whose rules have not been checked yet.
abbrev edited_export : AccountExport
edited_export = record (export_named "x") {
  meta = record ((export_named "x").meta) { generation = pos 4 };
}

abbrev edited_import : AccountImport
edited_import = record (import_named "x") {
  meta = record ((import_named "x").meta) { generation = pos 4 };
}

ignored-kept_example :
    IsExportKept (export_named "x") edited_export × IsImportKept (import_named "x") edited_import
unfolding account_export_update_affects_accounts account_import_update_affects_accounts lookup
    Claims.ExportClaimState-discrete Common.String-discrete Claims.ImportClaimState-discrete
ignored-kept_example =
    ignored-kept (export_named "x") edited_export (import_named "x") edited_import refl refl refl
      refl refl refl
