-- ===== src/Api/Exports.antt =====
-- api/v1alpha1/account_export_types.go: exports that accounts adopt.
use nauth.Common.{ℕ, ℤ, String, Bool, Option, List}
use nauth.Api.{ObjectMeta, Condition}
use nauth.Api.Accounts.{ServiceLatency}

abbrev pub account_export_label_account_id : String
account_export_label_account_id = "accountexport.nauth.io/account-id"

pub record AccountExportRule : Type 0 where
  pub name : String
  pub subject : String
  pub type : String
  pub response_type : String
  pub response_threshold : Option ℤ
  pub latency : Option ServiceLatency
  pub account_token_position : Option ℕ
  pub advertise : Option Bool
  pub allow_trace : Option Bool

pub record AccountExportSpec : Type 0 where
  pub account_name : String
  pub rules : List AccountExportRule

pub record AccountExportClaim : Type 0 where
  pub rules : List AccountExportRule
  pub observed_generation : ℤ

-- The fields that the program reads or writes.
pub record AccountExportStatus : Type 0 where
  pub account_id : String
  pub desired_claim : Option AccountExportClaim
  pub conditions : List Condition

pub record AccountExport : Type 0 where
  pub meta : ObjectMeta
  pub spec : AccountExportSpec
  pub status : AccountExportStatus
