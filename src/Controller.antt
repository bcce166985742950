-- ===== src/Controller.antt =====
-- internal/adapter/inbound/controller: the controllers, which bring the cluster closer to what its
-- resources ask for. Here constants.go.
pub mod Converter
pub mod Status
pub mod Requests
pub mod Deletion
pub mod Accounts
pub mod Exports
pub mod References
pub mod Imports
pub mod Watches
pub mod Clusters
use nauth.Common.{String}

abbrev pub condition_type_ready : String
condition_type_ready = "Ready"

abbrev pub condition_type_bound_to_account : String
condition_type_bound_to_account = "BoundToAccount"

abbrev pub condition_type_bound_to_export_account : String
condition_type_bound_to_export_account = "BoundToExportAccount"

abbrev pub condition_type_valid_rules : String
condition_type_valid_rules = "ValidRules"

abbrev pub condition_type_adopted_by_account : String
condition_type_adopted_by_account = "AdoptedByAccount"

abbrev pub condition_reason_ready : String
condition_reason_ready = "Ready"

abbrev pub condition_reason_not_ready : String
condition_reason_not_ready = "NotReady"

abbrev pub condition_reason_reconciling : String
condition_reason_reconciling = "Reconciling"

abbrev pub condition_reason_reconciled : String
condition_reason_reconciled = "Reconciled"

abbrev pub condition_reason_ok : String
condition_reason_ok = "OK"

abbrev pub condition_reason_nok : String
condition_reason_nok = "NOK"

abbrev pub condition_reason_errored : String
condition_reason_errored = "Errored"

abbrev pub condition_reason_invalid : String
condition_reason_invalid = "Invalid"

abbrev pub condition_reason_conflict : String
condition_reason_conflict = "Conflict"

abbrev pub condition_reason_not_found : String
condition_reason_not_found = "NotFound"

abbrev pub condition_reason_adopting : String
condition_reason_adopting = "Adopting"

abbrev pub condition_reason_failed : String
condition_reason_failed = "Failed"

abbrev pub condition_message_adopted : String
condition_message_adopted = "Adopted"

abbrev pub finalizer_nats_cluster : String
finalizer_nats_cluster = "natscluster.nauth.io/finalizer"

abbrev pub finalizer_account : String
finalizer_account = "account.nauth.io/finalizer"
