-- ===== src/Controller/Converter/Groups.antt =====
-- internal/adapter/inbound/controller/account_converter.go: groups of exports and imports, with the
-- references to the resources that account.go keeps of them.
use nauth.Common.{
  ℕ, ℤ, suc, String, Bool, false, Option, none, some, List, [], ◌∷◌, ◌++◌, map, Result, ok, str,
  num, errorf, wrap, and_then, reject, ◌==◌,
}
use nauth.Domain.Names.{K8s, NamespacedName, to_string}
use nauth.Domain.Account
use nauth.Domain.Account.{Ref, AccountId}
use nauth.Effects.{Plain, Fallible}
use nauth.Effects.Fallible.{◌>>=◌, ◌>>◌, pure, lift}
use nauth.Account.Keys.{call}
use nauth.Api.{ObjectMeta}
use nauth.Api.Accounts
use nauth.Api.Exports.{AccountExport, AccountExportClaim, AccountExportRule}
use nauth.Api.Imports.{AccountImport, AccountImportClaim, AccountImportRuleDerived}
use nauth.Controller.Converter.{
  to_nauth_export_type, to_nauth_response_type, to_nauth_service_latency, to_nauth_export_from_rule,
  to_nauth_import_from_rule,
}
use nauth.Controller.Converter.Order.{compare_object_order, sort_func}

pub record AdoptionRef : Type 0 where
  pub ref : Ref
  pub name : String
  pub uid : String
  pub observed_generation : ℤ
  pub observed_generation_desired_claim : Option ℤ

abbrev pub new_adoption_ref : ObjectMeta → Option ℤ → AdoptionRef
new_adoption_ref resource observed = record {
  ref = resource.uid;
  name = resource.name;
  uid = resource.uid;
  observed_generation = resource.generation;
  observed_generation_desired_claim = observed;
}

to_nauth_export : ℕ → Accounts.Export → Result Account.Export
unfolding to_nauth_service_latency
to_nauth_export i source =
    and_then
      (wrap "failed to convert export type for export at index %d: %w" (num i ∷ [])
        (to_nauth_export_type source.type))
      λ export_type.
        and_then
          (wrap "failed to convert response type for export at index %d: %w" (num i ∷ [])
            (to_nauth_response_type source.response_type))
          λ response_type. ok (record {
            name = source.name;
            subject = source.subject;
            type = export_type;
            token_req = source.token_req;
            revocations = source.revocations;
            response_type = response_type;
            response_threshold = source.response_threshold;
            latency = to_nauth_service_latency source.latency;
            account_token_position = source.account_token_position;
            advertise = source.advertise;
            allow_trace = source.allow_trace;
          })

to_nauth_exports_from : ℕ → List Accounts.Export → Result (List Account.Export)
unfolding to_nauth_export
to_nauth_exports_from i [] = ok []
to_nauth_exports_from i (source ∷ sources) =
    let rest = to_nauth_exports_from (suc i) sources in
    and_then (to_nauth_export i source) λ export. and_then rest λ exports. ok (export ∷ exports)

-- The inline exports of an account. There is no group without exports.
unfoldable pub to_nauth_export_group :
    Ref → Bool → List Accounts.Export → Result (Option Account.ExportGroup)
unfolding to_nauth_exports_from
to_nauth_export_group group_ref required [] = ok none
to_nauth_export_group group_ref required (source ∷ sources) =
    and_then (to_nauth_exports_from 0 (source ∷ sources)) λ exports.
      ok (some (record { ref = group_ref; required = required; name = ""; exports = exports }))

-- A function that resolves references to accounts and keeps a state of its own between its calls.
abbrev pub ResolveAccountIdFn : Type 0 → Type 0
ResolveAccountIdFn S = S → NamespacedName → Plain (Result AccountId × S)

module _ (k8s : K8s) {S : Type 0} (reader : ResolveAccountIdFn S) where
  to_nauth_imports_from : ℕ → List Accounts.Import → S → Fallible (List Account.Import)
  to_nauth_imports_from i [] s = pure []
  to_nauth_imports_from i (source ∷ sources) s = do
    let account_ref : NamespacedName = record {
      namespace = source.account_ref.namespace;
      name = source.account_ref.name;
    }
    answer ← call (reader s account_ref)
    account_id ← lift (
        wrap "failed to resolve account ID for inline import at index %d and account ref %q: %w"
          (num i ∷ str (to_string k8s account_ref) ∷ []) answer.0)
    lift (
        reject (account_id == "") (
          errorf "account ID is missing for inline import at index %d and account ref %q"
            (num i ∷ str (to_string k8s account_ref) ∷ [])))
    export_type ← lift (
        wrap "failed to convert export type for inline import at index %d: %w" (num i ∷ [])
          (to_nauth_export_type source.type))
    let imp : Account.Import = record {
      account_id = account_id;
      name = source.name;
      subject = source.subject;
      local_subject = source.local_subject;
      type = export_type;
      share = source.share;
      allow_trace = source.allow_trace;
    }
    imports ← to_nauth_imports_from (suc i) sources answer.1
    pure (imp ∷ imports)

  -- The inline imports of an account.
  unfoldable pub to_nauth_import_group :
      Ref → Bool → List Accounts.Import → S → Fallible (Option Account.ImportGroup)
  unfolding to_nauth_imports_from
  to_nauth_import_group group_ref required [] s = pure none
  to_nauth_import_group group_ref required (source ∷ sources) s = do
    imports ← to_nauth_imports_from 0 (source ∷ sources) s
    pure (some (record { ref = group_ref; required = required; name = ""; imports = imports }))

-- The loops over the rules of a claim: the error tells the index of the group and its name.
unfoldable pub to_nauth_rule_exports :
    ℕ → String → List AccountExportRule → Result (List Account.Export)
to_nauth_rule_exports i name [] = ok []
to_nauth_rule_exports i name (rule ∷ rules) =
    let rest = to_nauth_rule_exports i name rules in
    and_then
      (wrap "failed to convert export rule for export at index %d in %q: %w" (num i ∷ str name ∷ [])
        (to_nauth_export_from_rule rule))
      λ to. and_then rest λ exports. ok (to ∷ exports)

-- The error tells the index of the rule here, which is `i` for the first one.
unfoldable pub to_nauth_rule_imports :
    ℕ → String → List AccountImportRuleDerived → Result (List Account.Import)
to_nauth_rule_imports i name [] = ok []
to_nauth_rule_imports i name (rule ∷ rules) =
    let rest = to_nauth_rule_imports (suc i) name rules in
    and_then
      (wrap "failed to convert import rule for import at index %d in %q: %w" (num i ∷ str name ∷ [])
        (to_nauth_import_from_rule rule))
      λ to. and_then rest λ imports. ok (to ∷ imports)

abbrev generation_of_export_claim : Option AccountExportClaim → Option ℤ
generation_of_export_claim none = none
generation_of_export_claim (some claim) = some claim.observed_generation

abbrev generation_of_import_claim : Option AccountImportClaim → Option ℤ
generation_of_import_claim none = none
generation_of_import_claim (some claim) = some claim.observed_generation

abbrev pub export_ref : AccountExport → AdoptionRef
export_ref exp = new_adoption_ref exp.meta (generation_of_export_claim exp.status.desired_claim)

abbrev pub import_ref : AccountImport → AdoptionRef
import_ref imp = new_adoption_ref imp.meta (generation_of_import_claim imp.status.desired_claim)

-- The groups of one resource: one if it has a claim.
unfoldable pub export_groups_of : ℕ → AccountExport → Result (List Account.ExportGroup)
export_groups_of i exp = elim exp.status.desired_claim [
  | none ↦ ok []
  | some claim ↦ and_then (to_nauth_rule_exports i exp.meta.name claim.rules) λ exports. ok (
      (record { ref = exp.meta.uid; required = false; name = exp.meta.name; exports = exports })
      ∷ [])
]

unfoldable pub import_groups_of : AccountImport → Result (List Account.ImportGroup)
import_groups_of imp = elim imp.status.desired_claim [
  | none ↦ ok []
  | some claim ↦ and_then (to_nauth_rule_imports 0 imp.meta.name claim.rules) λ imports. ok (
      (record { ref = imp.meta.uid; required = false; name = imp.meta.name; imports = imports })
      ∷ [])
]

unfoldable pub export_groups_from : ℕ → List AccountExport → Result (List Account.ExportGroup)
unfolding export_groups_of
export_groups_from i [] = ok []
export_groups_from i (exp ∷ exports) =
    let rest = export_groups_from (suc i) exports in
    and_then (export_groups_of i exp) λ group. and_then rest λ groups. ok (group ++ groups)

unfoldable pub import_groups_from : List AccountImport → Result (List Account.ImportGroup)
unfolding import_groups_of
import_groups_from [] = ok []
import_groups_from (imp ∷ imports) =
    let rest = import_groups_from imports in
    and_then (import_groups_of imp) λ group. and_then rest λ groups. ok (group ++ groups)

abbrev pub sort_exports : List AccountExport → List AccountExport
sort_exports exports = sort_func (λ a b. compare_object_order a.meta b.meta) exports

abbrev pub sort_imports : List AccountImport → List AccountImport
sort_imports imports = sort_func (λ a b. compare_object_order a.meta b.meta) imports

-- The groups, and a reference to every resource, with a claim or without.
unfoldable pub to_nauth_export_groups :
    List AccountExport → Result (List Account.ExportGroup × List AdoptionRef)
unfolding export_groups_from
to_nauth_export_groups exports =
    let sorted = sort_exports exports in
    and_then (export_groups_from 0 sorted) λ groups. ok (groups, map export_ref sorted)

unfoldable pub to_nauth_import_groups :
    List AccountImport → Result (List Account.ImportGroup × List AdoptionRef)
unfolding import_groups_from
to_nauth_import_groups imports =
    let sorted = sort_imports imports in
    and_then (import_groups_from sorted) λ groups. ok (groups, map import_ref sorted)
