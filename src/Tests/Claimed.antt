-- ===== src/Tests/Claimed.antt =====
-- The theorems about the controllers of exports and imports at concrete resources.
use mathlib.Core.List.{Permᴰ}
use nauth.Common.{
  String, pos, true, false, none, some, Option, List, [], ◌∷◌, ok, err, errorf, ◌≡◌, refl, ℕ,
  lookup, inl, inr, ◌==◌, ◌&&◌, map,
}
use nauth.Jwt
use nauth.Domain.Account
use nauth.Domain.Adoptions
use nauth.Domain.Adoptions.{AdoptionResults}
use nauth.Claims.Builder.{validate_exports, validate_imports}
use nauth.Claims.Builder
use nauth.Claims.Items
use nauth.Claims.Items.{to_jwt_export}
use nauth.Api
use nauth.Api.{get_label, error_in, condition_false}
use nauth.Api.Exports.{AccountExport, AccountExportRule, account_export_label_account_id}
use nauth.Api.Imports.{AccountImport, AccountImportRule}
use nauth.Controller.{
  condition_type_ready, condition_type_bound_to_account, condition_reason_failed,
}
use nauth.Controller.Status.{new_condition, conditions_ready, find_adoption_by_uid}
use nauth.Controller.Converter
use nauth.Controller.Converter.{to_nauth_imports_from_rules}
use nauth.Controller.Converter.Groups.{
  to_nauth_export_groups, to_nauth_import_groups, to_nauth_rule_imports, export_ref,
}
use nauth.Controller.Converter.Claims.{to_account_adoptions}
use nauth.Controller.Converter.Listing.{groups_ignore_order}
use nauth.Controller.Exports as Controlled
use nauth.Controller.Exports.{evaluate, map_to_export, adoption_of, same_generation}
use nauth.Controller.Exports.Conditions.{is_adopted}
use nauth.Controller.Exports.Validated.{IsNamed, map_to_export-validated}
use nauth.Controller.Exports.Unreadable.{evaluate-unreadable}
use nauth.Controller.Exports.Ready.{evaluate-ready}
use nauth.Controller.Exports.Adopted.{find_adoption_by_uid-adopted, is_success}
use nauth.Controller.Imports.{validate_import_rules}
use nauth.Controller.Imports.Derived.{derived-validated}
use nauth.Tests.Fixtures.{account, account_meta, library, setting}
use nauth.Tests.Machinery.{machinery, machinery-IsDocumented}

-- A resource of the account "A" by its name, which is its UID too.
abbrev pub named : String → Api.ObjectMeta
named name = record account_meta {
  name = name;
  uid = name;
  labels = (account_export_label_account_id, "A") ∷ [];
  finalizers = [];
}

abbrev rule : AccountExportRule
rule = record {
  name = "replies";
  subject = "ask.>";
  type = "service";
  response_type = "Stream";
  response_threshold = none;
  latency = none;
  account_token_position = none;
  advertise = some true;
  allow_trace = none;
}

abbrev pub export_named : String → AccountExport
export_named name = record {
  meta = named name;
  spec = record { account_name = "a"; rules = rule ∷ [] };
  status = record {
    account_id = "";
    desired_claim = some (record { rules = rule ∷ []; observed_generation = pos 3 });
    conditions = [];
  };
}

abbrev import_rule : AccountImportRule
import_rule = record {
  name = "asks";
  subject = "ask.>";
  local_subject = "b.ask.>";
  type = "service";
  share = none;
  allow_trace = some true;
}

abbrev pub import_named : String → AccountImport
import_named name = record {
  meta = named name;
  spec = record {
    account_name = "a";
    export_account_ref = record { name = "b"; namespace = "ns" };
    rules = import_rule ∷ [];
  };
  status = record { desired_claim = none; conditions = [] };
}

abbrev export_store : String → Option AccountExport
export_store name = some (export_named name)

abbrev import_store : String → Option AccountImport
import_store name = some (import_named name)

groups_ignore_order_example :
    (to_nauth_export_groups (export_named "y" ∷ export_named "x" ∷ [])
      ≡ to_nauth_export_groups (export_named "x" ∷ export_named "y" ∷ []))
    × (to_nauth_import_groups (import_named "y" ∷ [])
        ≡ to_nauth_import_groups (import_named "y" ∷ []))
groups_ignore_order_example =
    groups_ignore_order export_store import_store (Permᴰ.swap refl refl) (refl, (refl, tt))
      (Permᴰ.cons refl Permᴰ.nil) (refl, tt)

map_to_export-validated_example :
    (adopted : Jwt.Export) × (to_jwt_export (record {
      name = "replies";
      subject = "ask.>";
      type = "service";
      token_req = false;
      revocations = none;
      response_type = "stream";
      response_threshold = pos 0;
      latency = none;
      account_token_position = 0;
      advertise = true;
      allow_trace = false;
    })
      ≡ ok adopted)
    × (to_jwt_export (map_to_export rule)
        ≡ ok (record adopted { response_type = Jwt.ResponseType.absent }))
    × IsNamed rule.response_type adopted.response_type
unfolding Converter.to_nauth_export_from_rule Converter.to_nauth_export_type
    Converter.to_nauth_response_type Converter.to_nauth_service_latency
map_to_export-validated_example = map_to_export-validated rule refl

evaluate-unreadable_example :
    machinery.find_status_condition
      (evaluate setting machinery
        (export_named "x")
        none
        (err (errorf "not found" []))).0.status.conditions
      condition_type_bound_to_account
    ≡ some (
        new_condition condition_type_bound_to_account condition_false condition_reason_failed
          (error_in "failed to read account: %v" [] none))
evaluate-unreadable_example =
    evaluate-unreadable setting machinery machinery-IsDocumented (export_named "x")
      (errorf "not found" [])

evaluate-ready_example :
    conditions_ready machinery
      (evaluate setting machinery (export_named "x") none (ok account)).0.status.conditions
      (condition_type_ready ∷ [])
    ≡ (("A" == "A") && (true && is_adopted (adoption_of setting machinery account "x") (pos 3)))
unfolding evaluate Controlled.with_validation Controlled.with_account Controlled.with_binding
    get_label lookup
evaluate-ready_example =
    evaluate-ready setting machinery machinery-IsDocumented (export_named "x") none account refl

abbrev results : AdoptionResults
results = ("x", record { ref = "x"; failure = ""; message = none }) ∷ []

find_adoption_by_uid-adopted_example :
    is_adopted
      (find_adoption_by_uid
        (to_account_adoptions (map export_ref (export_named "y" ∷ export_named "x" ∷ [])) results)
        "x")
      (pos 3)
    ≡ (is_success (Adoptions.get results "x") && same_generation (some (pos 3)) (pos 3))
find_adoption_by_uid-adopted_example =
    find_adoption_by_uid-adopted results (export_named "y" ∷ export_named "x" ∷ [])
      (export_named "x") (pos 3) (inr (inl refl)) (λ same. absurd cc, (λ same. refl, tt))

derived-validated_example :
    (imports : List Account.Import) × (to_nauth_imports_from_rules "B" (import_rule ∷ [])
      ≡ ok imports)
    × (validate_imports library "A" imports ≡ none)
    × ((j : ℕ) (name : String)
        → to_nauth_rule_imports j name (record { rule = import_rule; account = "B" } ∷ [])
          ≡ ok imports)
unfolding validate_import_rules to_nauth_imports_from_rules Converter.to_nauth_export_type
    validate_imports Items.to_jwt_imports Items.to_jwt_import Items.to_jwt_export_type
    Builder.validate_jwt_imports Converter.to_api_account_import_rule_derived
    Converter.to_api_export_type to_nauth_rule_imports Converter.to_nauth_import_from_rule
derived-validated_example = derived-validated setting "A" "B" (import_rule ∷ []) refl
