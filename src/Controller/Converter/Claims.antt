-- ===== src/Controller/Converter/Claims.antt =====
-- internal/adapter/inbound/controller/account_converter.go: the claims and the adoptions of an
-- account, as its status tells them.
use nauth.Common.{
  ℕ, suc, false, Option, none, some, List, [], ◌∷◌, map, Error, Result, ok, num, wrap, and_then,
  ◌==◌, if◌then◌else◌,
}
use nauth.Domain.Account
use nauth.Domain.Adoptions
use nauth.Domain.Adoptions.{AdoptionResult, AdoptionResults, get, is_successful}
use nauth.Api.{Text, literal, error_text, condition_true, condition_false}
use nauth.Api.Accounts
use nauth.Api.Accounts.{AccountAdoption, AccountAdoptionStatus}
use nauth.Controller.{condition_reason_ok, condition_reason_nok, condition_message_adopted}
use nauth.Controller.Converter.{to_api_export_type, to_api_response_type}
use nauth.Controller.Converter.Groups.{AdoptionRef}

-- The text of an error that may be missing.
abbrev text_of : Option Error → Text
text_of none = literal ""
text_of (some e) = error_text e

unfoldable pub adoption_status : AdoptionRef → Option AdoptionResult → AccountAdoptionStatus
unfolding is_successful
adoption_status adp_ref none = record {
  status = condition_false;
  desired_claim_observed_generation = adp_ref.observed_generation_desired_claim;
  reason = condition_reason_nok;
  message = elim adp_ref.observed_generation_desired_claim [
    | none ↦ literal "Adoption pending: no desired claim"
    | some _ ↦ literal "WARN: No adoption result reported"
  ];
}
adoption_status adp_ref (some adp_result) =
    if is_successful adp_result
    then record {
      status = condition_true;
      desired_claim_observed_generation = adp_ref.observed_generation_desired_claim;
      reason = condition_reason_ok;
      message = literal condition_message_adopted;
    }
    else if adp_result.failure == ""
    then record {
      status = condition_false;
      desired_claim_observed_generation = adp_ref.observed_generation_desired_claim;
      reason = condition_reason_nok;
      message = literal condition_message_adopted;
    }
    else record {
      status = condition_false;
      desired_claim_observed_generation = adp_ref.observed_generation_desired_claim;
      reason = adp_result.failure;
      message = text_of adp_result.message;
    }

unfoldable pub to_account_adoption : AdoptionResults → AdoptionRef → AccountAdoption
unfolding get adoption_status
to_account_adoption adoption_results adp_ref = record {
  name = adp_ref.name;
  uid = adp_ref.uid;
  observed_generation = adp_ref.observed_generation;
  status = adoption_status adp_ref (get adoption_results adp_ref.ref);
}

unfoldable pub to_account_adoptions : List AdoptionRef → AdoptionResults → List AccountAdoption
unfolding to_account_adoption
to_account_adoptions refs adoption_results = map (to_account_adoption adoption_results) refs

pub record AccountAdoptionRefs : Type 0 where
  pub exports : List AdoptionRef
  pub imports : List AdoptionRef

unfoldable pub to_api_adoptions :
    Option Adoptions.AccountAdoptions → AccountAdoptionRefs → Option Accounts.AccountAdoptions
unfolding to_account_adoptions
to_api_adoptions none adoption_refs = none
to_api_adoptions (some adoptions) adoption_refs = some (record {
  exports = to_account_adoptions adoption_refs.exports adoptions.exports;
  imports = to_account_adoptions adoption_refs.imports adoptions.imports;
})

unfoldable pub to_api_account_limits : Option Account.AccountLimits → Option Accounts.AccountLimits
to_api_account_limits none = none
to_api_account_limits (some source) = some (record {
  imports = source.imports;
  exports = source.exports;
  wildcard_exports = source.wildcard_exports;
  conn = source.conn;
  leaf_node_conn = source.leaf_node_conn;
})

unfoldable pub to_api_jet_stream_limits :
    Option Account.JetStreamLimits → Option Accounts.JetStreamLimits
to_api_jet_stream_limits none = none
to_api_jet_stream_limits (some source) = some (record {
  memory_storage = source.memory_storage;
  disk_storage = source.disk_storage;
  streams = source.streams;
  consumer = source.consumer;
  max_ack_pending = source.max_ack_pending;
  memory_max_stream_bytes = source.memory_max_stream_bytes;
  disk_max_stream_bytes = source.disk_max_stream_bytes;
  max_bytes_required = source.max_bytes_required;
})

unfoldable pub to_api_nats_limits : Option Account.NatsLimits → Option Accounts.NatsLimits
to_api_nats_limits none = none
to_api_nats_limits (some source) =
    some (record { subs = source.subs; dat = source.dat; payload = source.payload })

unfoldable pub to_api_service_latency :
    Option Account.ServiceLatency → Option Accounts.ServiceLatency
to_api_service_latency none = none
to_api_service_latency (some latency) =
    some (record { sampling = latency.sampling; results = latency.results })

to_api_imports_from : ℕ → List Account.Import → Result (List Accounts.Import)
to_api_imports_from i [] = ok []
to_api_imports_from i (imp ∷ imports) =
    let rest = to_api_imports_from (suc i) imports in
    and_then
      (wrap "failed to convert export type for import at index %d: %w" (num i ∷ [])
        (to_api_export_type imp.type))
      λ export_type.
        let api_import : Accounts.Import = record {
          account_ref = record { name = ""; namespace = "" };
          name = imp.name;
          subject = imp.subject;
          account = imp.account_id;
          local_subject = imp.local_subject;
          type = export_type;
          share = imp.share;
          allow_trace = imp.allow_trace;
        } in
        and_then rest λ result. ok (api_import ∷ result)

unfoldable pub to_api_imports : List Account.Import → Result (List Accounts.Import)
unfolding to_api_imports_from
to_api_imports imports = to_api_imports_from 0 imports

-- What the code leaves out of an export: whether it needs a token, and revocations.
to_api_exports_from : ℕ → List Account.Export → Result (List Accounts.Export)
unfolding to_api_service_latency
to_api_exports_from i [] = ok []
to_api_exports_from i (exp ∷ exports) =
    let rest = to_api_exports_from (suc i) exports in
    and_then
      (wrap "failed to convert export type for export at index %d: %w" (num i ∷ [])
        (to_api_export_type exp.type))
      λ export_type.
        and_then
          (wrap "failed to convert response type for export at index %d: %w" (num i ∷ [])
            (to_api_response_type exp.response_type))
          λ response_type.
            let api_export : Accounts.Export = record {
              name = exp.name;
              subject = exp.subject;
              type = export_type;
              token_req = false;
              revocations = none;
              response_type = response_type;
              response_threshold = exp.response_threshold;
              latency = to_api_service_latency exp.latency;
              account_token_position = exp.account_token_position;
              advertise = exp.advertise;
              allow_trace = exp.allow_trace;
            } in
            and_then rest λ result. ok (api_export ∷ result)

unfoldable pub to_api_exports : List Account.Export → Result (List Accounts.Export)
unfolding to_api_exports_from
to_api_exports exports = to_api_exports_from 0 exports

-- `toAPISigningKeys` copies the keys.
unfoldable pub to_api_account_claims : Account.AccountClaims → Result Accounts.AccountClaims
unfolding to_api_account_limits to_api_jet_stream_limits to_api_nats_limits
to_api_account_claims claims =
    and_then (wrap "failed to convert exports: %w" [] (to_api_exports claims.exports)) λ exports.
      and_then (wrap "failed to convert imports: %w" [] (to_api_imports claims.imports)) λ imports.
        ok (record {
          account_limits = to_api_account_limits claims.account_limits;
          display_name = claims.display_name;
          signing_keys = claims.signing_keys;
          exports = exports;
          imports = imports;
          jet_stream_enabled = claims.jet_stream_enabled;
          jet_stream_limits = to_api_jet_stream_limits claims.jet_stream_limits;
          nats_limits = to_api_nats_limits claims.nats_limits;
        })
