-- ===== src/Api/Imports.antt =====
-- api/v1alpha1/account_import_types.go: imports that accounts adopt.
use nauth.Common.{ℤ, String, Bool, Option, List}
use nauth.Api.{ObjectMeta, Condition}
use nauth.Api.Accounts.{AccountRef}

abbrev pub account_import_label_account_id : String
account_import_label_account_id = "accountimport.nauth.io/account-id"

abbrev pub account_import_label_export_account_id : String
account_import_label_export_account_id = "accountimport.nauth.io/export-account-id"

pub record AccountImportRule : Type 0 where
  pub name : String
  pub subject : String
  pub local_subject : String
  pub type : String
  pub share : Option Bool
  pub allow_trace : Option Bool

-- `AccountImportRule` is embedded.
pub record AccountImportRuleDerived : Type 0 where
  pub rule : AccountImportRule
  pub account : String

pub record AccountImportSpec : Type 0 where
  pub account_name : String
  pub export_account_ref : AccountRef
  pub rules : List AccountImportRule

pub record AccountImportClaim : Type 0 where
  pub rules : List AccountImportRuleDerived
  pub observed_generation : ℤ

-- The fields that the program reads or writes.
pub record AccountImportStatus : Type 0 where
  pub desired_claim : Option AccountImportClaim
  pub conditions : List Condition

pub record AccountImport : Type 0 where
  pub meta : ObjectMeta
  pub spec : AccountImportSpec
  pub status : AccountImportStatus
