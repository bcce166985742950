-- ===== src/Adapter/Clusters.antt =====
-- internal/adapter/outbound/k8s: cluster.go, and configmap.go that it reads config maps by.
pub mod Parts
pub mod Resolved
use nauth.Common.{
  StringMap, String, not, Option, none, some, List, [], ◌∷◌, Error, Result, ok, err, str, errorf,
  wrapf, wrap, check, reject, and_then, lookup, set_entry, ◌==◌, ◌&&◌, if◌then◌else◌,
}
use nauth.Jwt.{KeyPair}
use nauth.Domain.Errors.{err_unknown_error, err_bad_request, err_config_map_not_found, with_cause}
use nauth.Domain.Names
use nauth.Domain.Names.{NamespacedName, to_string}
use nauth.Domain.Creds.{NatsUserCreds, new_nats_user_creds}
use nauth.Domain.Cluster
use nauth.Domain.Cluster.{ClusterTarget, ClusterRef, new_cluster_target, as_namespaced_name}
use nauth.Effects
use nauth.Effects.{Call, KubeCall, Fallible, perform}
use nauth.Effects.Fallible.{◌>>=◌, ◌>>◌, pure, raise, lift, wrapping}
use nauth.Secrets.{default_secret_key_name}
use nauth.Account.Keys.{Setting}
use nauth.Api.{Machinery}
use nauth.Api.Clusters.{
  NatsCluster, UrlFromReference, url_from_kind_config_map, url_from_kind_secret,
}
use nauth.Adapter.Accounts.{caused_by}

-- The loop over a map that is written to another one.
unfoldable pub with_entries : StringMap → StringMap → StringMap
unfolding set_entry
with_entries m [] = m
with_entries m ((key, value) ∷ entries) = with_entries (set_entry key value m) entries

module _ (w : Setting) (k : Machinery) where
  unfoldable pub config_map_answer :
      NamespacedName → Result (StringMap × StringMap) → Result StringMap
  unfolding with_entries
  config_map_answer ref (ok (contents, binary)) =
      ok (with_entries (with_entries [] contents) binary)
  config_map_answer ref (err e) =
      if k.is_not_found (some e)
      then err (Error.sentinel err_config_map_not_found)
      else err (
          with_cause err_unknown_error
            (some (wrapf "failed to get ConfigMap %s: %w" (str (to_string w.k8s ref) ∷ []) e)))

  -- `ConfigMapClient.Get`.
  unfoldable pub get_config_map : NamespacedName → Fallible StringMap
  unfolding config_map_answer
  get_config_map ref = do
    lift (
        caused_by err_bad_request
          (λ e. wrapf "invalid ConfigMap reference %q: %w" (str (to_string w.k8s ref) ∷ []) e)
          (check (Names.validate w.k8s ref)))
    λ h.
        let (answer, h') =
          perform (Call.kube (KubeCall.get_config_map ref)) (λ h. w.world.get_config_map h ref) h in
        (config_map_answer ref answer, h')

  abbrev key_or_default : String → String
  key_or_default key = if key == "" then default_secret_key_name else key

  abbrev value_at : NamespacedName → String → StringMap → Result String
  value_at ref key contents = elim (lookup key contents) [
    | some value ↦ ok value
    | none ↦
        err (errorf "secret %s does not contain key %q" (str (to_string w.k8s ref) ∷ str key ∷ []))
  ]

  abbrev found_value : NamespacedName → String → Option StringMap → Result String
  found_value ref key none = err (errorf "secret %s not found" (str (to_string w.k8s ref) ∷ []))
  found_value ref key (some contents) = value_at ref (key_or_default key) contents

  unfoldable pub resolve_secret : NamespacedName → String → Fallible String
  unfolding lookup
  resolve_secret ref key = do
    secret ←
        wrapping "resolve secret %s: %w" (str (to_string w.k8s ref) ∷ [])
          (perform (Effects.Call.get_secret ref) (λ h. w.world.get_secret h ref))
    lift (found_value ref key secret)

  abbrev url_at : NamespacedName → String → StringMap → Result String
  url_at ref key contents = elim (lookup key contents) [
    | some url ↦ ok url
    | none ↦ err (errorf "configMap %s has no key %q" (str (to_string w.k8s ref) ∷ str key ∷ []))
  ]

  unfoldable pub resolve_nats_url_from_resource : UrlFromReference → String → Fallible String
  unfolding get_config_map resolve_secret lookup
  resolve_nats_url_from_resource url_from_ref fallback_namespace =
      let ref : NamespacedName = record {
        namespace =
            if url_from_ref.namespace == "" then fallback_namespace else url_from_ref.namespace;
        name = url_from_ref.name;
      } in
      lift (wrap "invalid resource reference for urlFrom: %w" [] (check (Names.validate w.k8s ref)))
      >> (if url_from_ref.kind == url_from_kind_config_map
          then (wrapping "get ConfigMap %s: %w" (str (to_string w.k8s ref) ∷ [])
                (get_config_map ref)
              >>= λ contents. lift (url_at ref url_from_ref.key contents))
          else if url_from_ref.kind == url_from_kind_secret
          then wrapping "get URL secret: %w" [] (resolve_secret ref url_from_ref.key)
          else raise (errorf "unsupported urlFrom.kind %q" (str url_from_ref.kind ∷ [])))

  -- The URL of the specification, if any, and the one that it refers to must not differ.
  unfoldable pub resolve_nats_url : NatsCluster → Fallible String
  unfolding resolve_nats_url_from_resource
  resolve_nats_url cluster = elim cluster.spec.url_from [
    | some reference ↦ do
      url_from ←
          wrapping "resolve NATS URL from urlFrom reference: %w" []
            (resolve_nats_url_from_resource reference cluster.meta.namespace)
      lift (
          reject (not (cluster.spec.url == "") && not (url_from == cluster.spec.url)) (
            errorf
              "ambiguous NATS URL, url and urlFrom reference resolve to different URLs (%q vs %q)"
              (str cluster.spec.url ∷ str url_from ∷ [])))
      pure url_from
    | none ↦ do
      lift (
          reject (cluster.spec.url == "")
            (errorf "NATS URL must be specified via url or urlFrom" []))
      pure cluster.spec.url
  ]

  unfoldable pub resolve_sys_admin_creds : NatsCluster → Fallible NatsUserCreds
  unfolding resolve_secret
  resolve_sys_admin_creds cluster = do
    let ref : NamespacedName = record {
      namespace = cluster.meta.namespace;
      name = cluster.spec.system_account_user_creds_secret_ref.name;
    }
    creds ← resolve_secret ref cluster.spec.system_account_user_creds_secret_ref.key
    lift (wrap "invalid user creds: %w" [] (new_nats_user_creds w.jwt creds))

  unfoldable pub resolve_operator_signing_key : NatsCluster → Fallible KeyPair
  unfolding resolve_secret
  resolve_operator_signing_key cluster = do
    let ref : NamespacedName = record {
      namespace = cluster.meta.namespace;
      name = cluster.spec.operator_signing_key_secret_ref.name;
    }
    key_data ← resolve_secret ref cluster.spec.operator_signing_key_secret_ref.key
    lift (wrap "invalid operator signing key: %w" [] (w.jwt.from_seed key_data))

  unfoldable pub resolve_cluster_target : NatsCluster → Fallible ClusterTarget
  unfolding resolve_nats_url resolve_sys_admin_creds resolve_operator_signing_key
  resolve_cluster_target cluster = do
    let cluster_ref : NamespacedName = record {
      namespace = cluster.meta.namespace;
      name = cluster.meta.name;
    }
    let told = str (to_string w.k8s cluster_ref) ∷ []
    nats_url ← wrapping "resolve NATS URL for NatsCluster %s: %w" told (resolve_nats_url cluster)
    sys_admin_creds ←
        wrapping "resolve system account user creds for NatsCluster %s: %w" told
          (resolve_sys_admin_creds cluster)
    op_signing_key ←
        wrapping "resolve operator signing key for NatsCluster %s: %w" told
          (resolve_operator_signing_key cluster)
    target ← lift (
        wrap "create cluster target for NatsCluster %s: %w" told
          (new_cluster_target cluster.meta.uid nats_url sys_admin_creds (some op_signing_key)))
    lift (
        wrap "invalid cluster target resolved for NatsCluster %s: %w" told
          (check (Cluster.validate target)))
    pure target

  unfoldable pub get_target : ClusterRef → Fallible ClusterTarget
  unfolding resolve_cluster_target
  get_target cluster_ref = do
    ref ← lift (
        wrap "invalid cluster reference %q (expected NamespacedName): %w" (str cluster_ref ∷ [])
          (as_namespaced_name w.k8s cluster_ref))
    cluster ←
        wrapping "failed getting NatsCluster resource %s: %w" (str (to_string w.k8s ref) ∷ []) (
          perform (Call.kube (KubeCall.get_nats_cluster ref)) (λ h. w.world.get_nats_cluster h ref))
    resolve_cluster_target cluster
