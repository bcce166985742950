-- ===== src/Controller/Watches/Requests.antt =====
-- internal/adapter/inbound/controller: account.go, account_export.go and account_import.go on which
-- resources are looked at when another one has changed.
use nauth.Common.{String, List, [], ◌∷◌, map, Result, ok, err, ◌==◌, ◌&&◌, if◌then◌else◌}
use nauth.Domain.Names.{K8s, NamespacedName, to_string}
use nauth.Effects.{Call, KubeCall, Plain, Fallible, World, perform}
use nauth.Api.{ObjectMeta, get_label}
use nauth.Api.Accounts.{Account}
use nauth.Api.Exports.{AccountExport, account_export_label_account_id}
use nauth.Api.Imports.{AccountImport, account_import_label_account_id}

abbrev pub name_of : ObjectMeta → NamespacedName
name_of meta = record { namespace = meta.namespace; name = meta.name }

-- The index functions: the values that a resource is listed by.
unfoldable pub export_by_spec_account_name_index : AccountExport → List String
export_by_spec_account_name_index export =
    if export.spec.account_name == "" then [] else export.spec.account_name ∷ []

unfoldable pub by_account_name_index : AccountImport → List String
by_account_name_index imp = if imp.spec.account_name == "" then [] else imp.spec.account_name ∷ []

module _ (k8s : K8s) where
  unfoldable pub by_export_account_ref_index : AccountImport → List String
  by_export_account_ref_index imp =
      let ref = imp.spec.export_account_ref in
      let nsn : NamespacedName = record {
        namespace = if ref.namespace == "" then imp.meta.namespace else ref.namespace;
        name = ref.name;
      } in
      if ref.name == "" && ref.namespace == "" then [] else to_string k8s nsn ∷ []

-- A list that fails is logged and enqueues nothing.
unfoldable pub requests_of : {R : Type 0} → (R → ObjectMeta) → Result (List R) → List NamespacedName
requests_of meta (ok items) = map (λ r. name_of (meta r)) items
requests_of meta (err e) = []

abbrev requests_for :
    {R : Type 0} → (R → ObjectMeta) → Fallible (List R) → Plain (List NamespacedName)
requests_for meta listing h = let (r, h') = listing h in (requests_of meta r, h')

module _ (world : World) where
  abbrev accounts_with : String → String → Plain (List NamespacedName)
  accounts_with namespace account_id =
      if account_id == ""
      then (λ h. ([], h))
      else requests_for (λ a. a.meta)
          (perform (Call.kube (KubeCall.list_accounts namespace account_id))
            (λ h. world.list_accounts h namespace account_id))

  unfoldable pub map_account_export_to_accounts : AccountExport → Plain (List NamespacedName)
  unfolding requests_of get_label
  map_account_export_to_accounts export =
      accounts_with export.meta.namespace (get_label export.meta account_export_label_account_id)

  unfoldable pub map_account_import_to_accounts : AccountImport → Plain (List NamespacedName)
  unfolding requests_of get_label
  map_account_import_to_accounts imp =
      accounts_with imp.meta.namespace (get_label imp.meta account_import_label_account_id)

  unfoldable pub map_account_to_account_exports : Account → Plain (List NamespacedName)
  unfolding requests_of
  map_account_to_account_exports account =
      requests_for (λ e. e.meta)
        (perform
          (Call.kube (KubeCall.list_exports_by_name account.meta.namespace account.meta.name))
          (λ h. world.list_exports_by_name h account.meta.namespace account.meta.name))

  unfoldable pub map_account_to_account_imports : Account → Plain (List NamespacedName)
  unfolding requests_of
  map_account_to_account_imports account =
      requests_for (λ i. i.meta)
        (perform
          (Call.kube (KubeCall.list_imports_by_name account.meta.namespace account.meta.name))
          (λ h. world.list_imports_by_name h account.meta.namespace account.meta.name))

  unfoldable pub map_export_account_to_account_imports : K8s → Account → Plain (List NamespacedName)
  unfolding requests_of
  map_export_account_to_account_imports k8s account =
      let name = to_string k8s (name_of account.meta) in
      requests_for (λ i. i.meta)
        (perform (Call.kube (KubeCall.list_imports_by_export name))
          (λ h. world.list_imports_by_export h name))
