-- ===== src/Controller/Converter.antt =====
-- internal/adapter/inbound/controller/account_converter.go: limits, references, types and rules, to
-- and from those of the domain. Groups, claims and adoptions are in the children.
pub mod Order
pub mod Groups
pub mod Claims
pub mod Types
pub mod Listing
use nauth.Common.{
  ℕ, suc, pos, String, false, Option, none, some, List, [], ◌∷◌, Error, Result, ok, err, str, num,
  errorf, wrap, and_then, check, ◌==◌, if◌then◌else◌,
}
use nauth.Domain.Names
use nauth.Domain.Names.{K8s, NamespacedName, to_string}
use nauth.Domain.Cluster.{ClusterRef, new_cluster_ref}
use nauth.Domain.Account
use nauth.Api.Accounts
use nauth.Api.Exports.{AccountExportRule}
use nauth.Api.Imports.{AccountImportRule, AccountImportRuleDerived}

unfoldable pub to_nauth_account_limits :
    Option Accounts.AccountLimits → Option Account.AccountLimits
to_nauth_account_limits none = none
to_nauth_account_limits (some source) = some (record {
  imports = source.imports;
  exports = source.exports;
  wildcard_exports = source.wildcard_exports;
  disallow_bearer = none;
  conn = source.conn;
  leaf_node_conn = source.leaf_node_conn;
})

unfoldable pub to_nauth_jet_stream_limits :
    Option Accounts.JetStreamLimits → Option Account.JetStreamLimits
to_nauth_jet_stream_limits none = none
to_nauth_jet_stream_limits (some source) = some (record {
  memory_storage = source.memory_storage;
  disk_storage = source.disk_storage;
  streams = source.streams;
  consumer = source.consumer;
  max_ack_pending = source.max_ack_pending;
  memory_max_stream_bytes = source.memory_max_stream_bytes;
  disk_max_stream_bytes = source.disk_max_stream_bytes;
  max_bytes_required = source.max_bytes_required;
})

unfoldable pub to_nauth_nats_limits : Option Accounts.NatsLimits → Option Account.NatsLimits
to_nauth_nats_limits none = none
to_nauth_nats_limits (some source) =
    some (record { subs = source.subs; dat = source.dat; payload = source.payload })

module _ (k8s : K8s) where
  abbrev pub defaulted : Accounts.NatsClusterRef → String → NamespacedName
  defaulted source default_namespace = record {
    namespace = if source.namespace == "" then default_namespace else source.namespace;
    name = source.name;
  }

  unfoldable pub to_nauth_cluster_ref :
      Option Accounts.NatsClusterRef → String → Result (Option ClusterRef)
  to_nauth_cluster_ref none default_namespace = ok none
  to_nauth_cluster_ref (some source) default_namespace =
      let namespaced_name = defaulted source default_namespace in
      and_then (wrap "invalid NatsClusterRef: %w" [] (check (Names.validate k8s namespaced_name)))
        λ _.
          and_then
            (wrap "invalid NatsClusterRef: %w" []
              (new_cluster_ref k8s (to_string k8s namespaced_name)))
            λ result. ok (some result)

unfoldable pub to_nauth_service_latency :
    Option Accounts.ServiceLatency → Option Account.ServiceLatency
to_nauth_service_latency none = none
to_nauth_service_latency (some source) =
    some (record { sampling = source.sampling; results = source.results })

unfoldable pub to_nauth_response_type : String → Result String
to_nauth_response_type source =
    if source == ""
    then ok ""
    else if source == Accounts.response_type_singleton
    then ok Account.response_type_singleton
    else if source == Accounts.response_type_stream
    then ok Account.response_type_stream
    else if source == Accounts.response_type_chunked
    then ok Account.response_type_chunked
    else err (errorf "unknown v1alpha1.ResponseType: %s" (str source ∷ []))

unfoldable pub to_nauth_export_type : String → Result String
to_nauth_export_type source =
    if source == ""
    then ok ""
    else if source == Accounts.stream
    then ok Account.export_type_stream
    else if source == Accounts.service
    then ok Account.export_type_service
    else err (errorf "unknown v1alpha1.ExportType: %s" (str source ∷ []))

unfoldable pub to_api_export_type : String → Result String
to_api_export_type source =
    if source == ""
    then ok ""
    else if source == Account.export_type_stream
    then ok Accounts.stream
    else if source == Account.export_type_service
    then ok Accounts.service
    else err (errorf "unsupported nauth.ExportType: %s" (str source ∷ []))

unfoldable pub to_api_response_type : String → Result String
to_api_response_type source =
    if source == ""
    then ok ""
    else if source == Account.response_type_singleton
    then ok Accounts.response_type_singleton
    else if source == Account.response_type_stream
    then ok Accounts.response_type_stream
    else if source == Account.response_type_chunked
    then ok Accounts.response_type_chunked
    else err (errorf "unsupported nauth.ResponseType: %s" (str source ∷ []))

-- `if p != nil { field = *p }`, where the field is zero before.
abbrev pub value_or {ℓ} : {A : Type ℓ} → A → Option A → A
value_or zero_value none = zero_value
value_or zero_value (some a) = a

-- The loop of `toNAuthImportsFromRules`, from the index of the first rule.
imports_from_rules_from : ℕ → String → List AccountImportRule → Result (List Account.Import)
imports_from_rules_from i export_account_id [] = ok []
imports_from_rules_from i export_account_id (rule ∷ rules) =
    let rest = imports_from_rules_from (suc i) export_account_id rules in
    and_then
      (wrap "failed to convert import rule at index %d: %w" (num i ∷ [])
        (to_nauth_export_type rule.type))
      λ export_type.
        let imp : Account.Import = record {
          account_id = export_account_id;
          name = rule.name;
          subject = rule.subject;
          local_subject = rule.local_subject;
          type = export_type;
          share = value_or false rule.share;
          allow_trace = value_or false rule.allow_trace;
        } in
        and_then rest λ target. ok (imp ∷ target)

unfoldable pub to_nauth_imports_from_rules :
    String → List AccountImportRule → Result (List Account.Import)
unfolding imports_from_rules_from
to_nauth_imports_from_rules export_account_id sources =
    imports_from_rules_from 0 export_account_id sources

unfoldable pub to_api_account_import_rule_derived : Account.Import → Result AccountImportRuleDerived
to_api_account_import_rule_derived source =
    and_then
      (wrap "failed to convert export type for import rule: %w" [] (to_api_export_type source.type))
      λ export_type. ok (record {
        account = source.account_id;
        rule = record {
          name = source.name;
          subject = source.subject;
          local_subject = source.local_subject;
          type = export_type;
          share = some source.share;
          allow_trace = some source.allow_trace;
        };
      })

unfoldable pub to_nauth_export_from_rule : AccountExportRule → Result Account.Export
unfolding to_nauth_service_latency
to_nauth_export_from_rule source = and_then (to_nauth_export_type source.type) λ export_type.
    and_then (to_nauth_response_type source.response_type) λ response_type. ok (record {
      name = source.name;
      subject = source.subject;
      type = export_type;
      token_req = false;
      revocations = none;
      response_type = response_type;
      response_threshold = value_or (pos 0) source.response_threshold;
      latency = to_nauth_service_latency source.latency;
      account_token_position = value_or 0 source.account_token_position;
      advertise = value_or false source.advertise;
      allow_trace = value_or false source.allow_trace;
    })

unfoldable pub to_nauth_import_from_rule : AccountImportRuleDerived → Result Account.Import
to_nauth_import_from_rule source = and_then (to_nauth_export_type source.rule.type) λ export_type.
    ok (record {
      account_id = source.account;
      name = source.rule.name;
      subject = source.rule.subject;
      local_subject = source.rule.local_subject;
      type = export_type;
      share = value_or false source.rule.share;
      allow_trace = value_or false source.rule.allow_trace;
    })
