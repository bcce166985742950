-- ===== src/Controller/Requests.antt =====
-- internal/adapter/inbound/controller/account.go: from the resource of an account, and from the
-- exports and imports that are bound to it, to a request to the account manager.
use nauth.Common.{
  String, Bool, true, Option, none, some, List, [], ◌∷◌, ◌++◌, Result, errorf, wrap, reject, ◌==◌,
  ◌&&◌, if◌then◌else◌,
}
use nauth.Domain.Names.{NamespacedName}
use nauth.Domain.Cluster.{ClusterTarget}
use nauth.Domain.Account.{AccountRequest, AccountReference, AccountId}
use nauth.Effects.{Call, KubeCall, Plain, Fallible, World, perform}
use nauth.Effects.Fallible.{◌>>=◌, ◌>>◌, pure, lift, wrapping}
use nauth.Account.Keys.{Setting}
use nauth.Api.{get_label}
use nauth.Api.Accounts
use nauth.Api.Accounts.{account_label_account_id}
use nauth.Api.Exports.{AccountExport}
use nauth.Api.Imports.{AccountImport}
use nauth.Controller.Converter.{
  to_nauth_account_limits, to_nauth_jet_stream_limits, to_nauth_nats_limits,
}
use nauth.Controller.Converter.Groups.{
  to_nauth_export_group, to_nauth_import_group, to_nauth_export_groups, to_nauth_import_groups,
}
use nauth.Controller.Converter.Claims.{AccountAdoptionRefs}

abbrev pub group_name_inline : String
group_name_inline = "inline"

unfoldable pub to_account_reference : Accounts.Account → ClusterTarget → AccountReference
unfolding get_label
to_account_reference state cluster_target = record {
  account_ref = record { namespace = state.meta.namespace; name = state.meta.name };
  account_id = get_label state.meta account_label_account_id;
  cluster_target = cluster_target;
}

unfoldable pub to_bootstrap_account_request : Accounts.Account → AccountReference → AccountRequest
unfolding to_nauth_account_limits to_nauth_jet_stream_limits to_nauth_nats_limits
to_bootstrap_account_request state reference = record {
  account_ref = record { namespace = state.meta.namespace; name = state.meta.name };
  account_id = reference.account_id;
  claims_hash = state.status.claims_hash;
  display_name = state.spec.display_name;
  cluster_target = reference.cluster_target;
  account_limits = to_nauth_account_limits state.spec.account_limits;
  jet_stream_enabled = state.spec.jet_stream_enabled;
  jet_stream_limits = to_nauth_jet_stream_limits state.spec.jet_stream_limits;
  nats_limits = to_nauth_nats_limits state.spec.nats_limits;
  export_groups = [];
  import_groups = [];
}

abbrev pub to_list {ℓ} : {A : Type ℓ} → Option A → List A
to_list none = []
to_list (some a) = a ∷ []

-- The answers of the account reader so far.
abbrev pub Cache : Type 0
Cache = List (NamespacedName × Result AccountId)

same_name : NamespacedName → NamespacedName → Bool
same_name a b = a.namespace == b.namespace && a.name == b.name

unfoldable pub find_cached : Cache → NamespacedName → Option (Result AccountId)
unfolding same_name
find_cached [] ref = none
find_cached ((k, v) ∷ cache) ref =
    let rest = find_cached cache ref in if same_name k ref then some v else rest

module _ (world : World) where
  read_uncached : Cache → NamespacedName → Plain (Result AccountId × Cache)
  unfolding perform
  read_uncached cache ref h =
      let (answer, h') = perform (Call.get_account_id ref) (λ h. world.get_account_id h ref) h in
      ((answer, (ref, answer) ∷ cache), h')

  -- `newCachedAccountIDReader`: a reference is resolved once, also if that fails.
  unfoldable pub cached_account_id_reader :
      Cache → NamespacedName → Plain (Result AccountId × Cache)
  unfolding read_uncached find_cached
  cached_account_id_reader cache ref = elim (find_cached cache ref) [
    | some answer ↦ λ h. ((answer, cache), h)
    | none ↦ read_uncached cache ref
  ]

  unfoldable pub find_exports_by_account_id : String → AccountId → Fallible (List AccountExport)
  find_exports_by_account_id namespace account_id = do
    lift (reject (account_id == "") (errorf "account ID required" []))
    wrapping "failed to list account exports: %w" [] (
        perform (Call.kube (KubeCall.list_exports namespace account_id))
          (λ h. world.list_exports h namespace account_id))

  unfoldable pub find_imports_by_account_id : String → AccountId → Fallible (List AccountImport)
  find_imports_by_account_id namespace account_id = do
    lift (reject (account_id == "") (errorf "account ID required" []))
    wrapping "failed to list account imports: %w" [] (
        perform (Call.kube (KubeCall.list_imports namespace account_id))
          (λ h. world.list_imports h namespace account_id))

module _ (w : Setting) where
  -- The request without what is bound to the account.
  inline_request : Accounts.Account → AccountReference → Fallible AccountRequest
  unfolding to_bootstrap_account_request cached_account_id_reader
  inline_request state reference = do
    inline_exports ← lift (
        wrap "failed to convert inline exports: %w" []
          (to_nauth_export_group group_name_inline true state.spec.exports))
    inline_imports ← wrapping "failed to convert inline imports: %w" [] (
        to_nauth_import_group w.k8s (cached_account_id_reader w.world) group_name_inline true
          state.spec.imports [])
    pure (record (to_bootstrap_account_request state reference) {
      export_groups = to_list inline_exports;
      import_groups = to_list inline_imports;
    })

  bound_request :
      String → AccountId → AccountRequest → Fallible (AccountRequest × AccountAdoptionRefs)
  unfolding find_exports_by_account_id find_imports_by_account_id
  bound_request namespace account_id request = do
    exports ← find_exports_by_account_id w.world namespace account_id
    new_exports ←
        lift (wrap "failed to convert export groups: %w" [] (to_nauth_export_groups exports))
    imports ← find_imports_by_account_id w.world namespace account_id
    new_imports ←
        lift (wrap "failed to convert import groups: %w" [] (to_nauth_import_groups imports))
    pure (
      record request {
        export_groups = request.export_groups ++ new_exports.0;
        import_groups = request.import_groups ++ new_imports.0;
      },
      record { exports = new_exports.1; imports = new_imports.1 },
    )

  unfoldable pub to_account_request :
      Accounts.Account → AccountReference → Fallible (AccountRequest × AccountAdoptionRefs)
  unfolding inline_request bound_request
  to_account_request state reference = do
    request ← inline_request state reference
    if reference.account_id == ""
        then pure (request, record { exports = []; imports = [] })
        else bound_request state.meta.namespace reference.account_id request
