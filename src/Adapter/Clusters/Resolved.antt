-- ===== src/Adapter/Clusters/Resolved.antt =====
-- What the target of a cluster is made of.
use nauth.Common.{
  String, none, some, [], ok, wrap, check, and_then-eq-ok, wrap-eq-ok, ok-injective, ◌≡◌, sym, ◌∙◌,
  ap, ◌⊎◌, inl, inr,
}
use nauth.Jwt.{KeyPair}
use nauth.Domain.Creds.{NatsUserCreds, new_nats_user_creds}
use nauth.Domain.Cluster
use nauth.Domain.Cluster.{ClusterTarget, new_cluster_target}
use nauth.Effects.{History}
use nauth.Effects.Fallible.{wrapping}
use nauth.Effects.Inversion.{then-eq-ok, lift-then-eq-ok, wrapping-eq-ok, wrap-check-eq-ok}
use nauth.Account.Keys.{Setting}
use nauth.Api.{Machinery}
use nauth.Api.Clusters.{NatsCluster}
use nauth.Adapter.Clusters.{
  resolve_nats_url, resolve_sys_admin_creds, resolve_operator_signing_key, resolve_cluster_target,
}
use nauth.Adapter.Clusters.Parts.{
  IsStoredAt, resolve_sys_admin_creds-eq-ok, resolve_operator_signing_key-eq-ok, pure-eq-ok,
  resolve_nats_url-eq-ok,
}

module _ (w : Setting) (k : Machinery) where
  -- Where the parts of the target of a cluster come from.
  pub record IsResolved (cluster : NatsCluster) (target : ClusterTarget) : Type 0 where
    pub uid : target.uid ≡ cluster.meta.uid
    pub url : (cluster.spec.url ≡ "") ⊎ (target.nats_url ≡ cluster.spec.url)
    pub creds :
        (value : String) × IsStoredAt w k cluster.meta.namespace
          cluster.spec.system_account_user_creds_secret_ref value
        × (new_nats_user_creds w.jwt value ≡ ok target.system_admin_creds)
    pub key :
        (value : String) × (key : KeyPair) × IsStoredAt w k cluster.meta.namespace
          cluster.spec.operator_signing_key_secret_ref value
        × (w.jwt.from_seed value ≡ ok key)
        × (target.operator_signing_key ≡ some key)
    pub valid : Cluster.validate target ≡ none

  new_cluster_target-eq-ok :
      (uid nats_url : String) (creds : NatsUserCreds) (key : KeyPair) {target : ClusterTarget}
      → new_cluster_target uid nats_url creds (some key) ≡ ok target
      → (record {
        uid = uid;
        nats_url = nats_url;
        system_admin_creds = creds;
        operator_signing_key = some key;
      })
        ≡ target
  unfolding new_cluster_target
  new_cluster_target-eq-ok uid nats_url creds key h =
      let target : ClusterTarget = record {
        uid = uid;
        nats_url = nats_url;
        system_admin_creds = creds;
        operator_signing_key = some key;
      } in
      let valid = check (Cluster.validate target) in
      let (_, _, made) = and_then-eq-ok (wrap "invalid cluster target: %w" [] valid) _ h in
      ok-injective made

  -- The target that is resolved for a cluster has its UID; its URL is that of the specification if
  -- that has one, whatever the reference beside it says; the credentials of the system account and
  -- the signing key of the operator are what the secrets of the cluster's own namespace have
  -- answered under the keys of the specification, or else under the default key; and it is valid.
  -- This holds whenever no error is returned.
  pub resolve_cluster_target-IsResolved :
      (cluster : NatsCluster) (h : History) {target : ClusterTarget}
      → (resolve_cluster_target w k cluster h).0 ≡ ok target
      → IsResolved cluster target
  unfolding resolve_cluster_target
  resolve_cluster_target-IsResolved cluster h {target} e =
      let (url, e1, e2, _) = then-eq-ok (wrapping _ _ (resolve_nats_url w k cluster)) _ h e in
      let (e1', _) = wrapping-eq-ok _ _ (resolve_nats_url w k cluster) h e1 in
      let (creds, e3, e4, _) =
        then-eq-ok (wrapping _ _ (resolve_sys_admin_creds w k cluster)) _ _ e2 in
      let (e3', _) = wrapping-eq-ok _ _ (resolve_sys_admin_creds w k cluster) _ e3 in
      let (key, e5, e6, _) =
        then-eq-ok (wrapping _ _ (resolve_operator_signing_key w k cluster)) _ _ e4 in
      let (e5', _) = wrapping-eq-ok _ _ (resolve_operator_signing_key w k cluster) _ e5 in
      let making = new_cluster_target cluster.meta.uid url creds (some key) in
      let (made, e7, e8, _) = lift-then-eq-ok (wrap _ _ making) _ _ e6 in
      let (_, e9, e10, _) = lift-then-eq-ok (wrap _ _ (check (Cluster.validate made))) _ _ e8 in
      let is_target = pure-eq-ok w k made _ e10 in
      let parts =
        new_cluster_target-eq-ok cluster.meta.uid url creds key (wrap-eq-ok _ _ making e7)
        ∙ is_target in
      let (creds_value, creds_stored, creds_made) =
        resolve_sys_admin_creds-eq-ok w k cluster _ e3' in
      let (key_value, key_stored, key_made) =
        resolve_operator_signing_key-eq-ok w k cluster _ e5' in
      record {
        uid = sym (ap (λ t. t.uid) parts);
        url = elim (resolve_nats_url-eq-ok w k cluster h e1') [
          | inl absent ↦ inl absent
          | inr given ↦ inr (sym (ap (λ t. t.nats_url) parts) ∙ given)
        ];
        creds = (
          creds_value,
          creds_stored,
          creds_made ∙ ap (λ (t : ClusterTarget). ok t.system_admin_creds) parts,
        );
        key = (key_value, key, key_stored, key_made, sym (ap (λ t. t.operator_signing_key) parts));
        valid =
            ap Cluster.validate (sym is_target) ∙ wrap-check-eq-ok _ _ (Cluster.validate made) e9;
      }
