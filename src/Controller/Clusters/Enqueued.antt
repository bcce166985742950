-- ===== src/Controller/Clusters/Enqueued.antt =====
-- Which cluster is looked at when an account is deleted, and which one the account refers to.
use nauth.Common.{
  String, true, some, none, [], ◌∷◌, ok, wrap, check, and_then-eq-ok, wrap-eq-ok, ok-injective, ◌≡◌,
  ◌≢◌, sym, ◌∙◌, ap, ◌⊎◌, inl, inr, Bool-cases, ◌==◌, if◌then◌else◌, eq_iff,
}
use nauth.Domain.Names
use nauth.Domain.Names.{K8s, NamespacedName, to_string}
use nauth.Domain.Cluster.{ClusterRef, new_cluster_ref, validate_ref}
use nauth.Api.Accounts.{Account, NatsClusterRef}
use nauth.Controller.Converter.{defaulted, to_nauth_cluster_ref}
use nauth.Controller.Clusters.{map_account_to_cluster}

module _ (k8s : K8s) where
  new_cluster_ref-eq-ok :
      (value : String) {r : ClusterRef} → new_cluster_ref k8s value ≡ ok r → value ≡ r
  unfolding new_cluster_ref
  new_cluster_ref-eq-ok value h =
      let (_, _, made) = and_then-eq-ok (check (validate_ref k8s value)) _ h in ok-injective made

  reference-eq-ok :
      (source : NatsClusterRef) (namespace : String) {r : ClusterRef}
      → to_nauth_cluster_ref k8s (some source) namespace ≡ ok (some r)
      → to_string k8s (defaulted k8s source namespace) ≡ r
  unfolding to_nauth_cluster_ref
  reference-eq-ok source namespace {r} h =
      let n = defaulted k8s source namespace in
      let format : String = "invalid NatsClusterRef: %w" in
      let (_, _, h1) = and_then-eq-ok (wrap format [] (check (Names.validate k8s n))) _ h in
      let (made, e, h2) =
        and_then-eq-ok (wrap format [] (new_cluster_ref k8s (to_string k8s n))) _ h1 in
      let value = wrap-eq-ok format [] (new_cluster_ref k8s (to_string k8s n)) e in
      new_cluster_ref-eq-ok (to_string k8s n) value ∙ unwrap (ok-injective h2)
    where
      unwrap : {a b : ClusterRef} → some a ≡ some b → a ≡ b
      unwrap {a} p = ap (λ o. elim o [ none ↦ a | some x ↦ x ]) p

  no_namespace : (n : NamespacedName) → (n.namespace == "") ≡ true → Names.validate k8s n ≢ none
  unfolding Names.validate
  no_namespace n h p = let q = rw h at p in cc

  -- The deletion of an account has one cluster looked at. If the account's reference has a
  -- namespace, it is the one that the controller of accounts resolves the reference to. If not, the
  -- name that is looked at has no namespace and is not valid, whereas that controller resolves the
  -- reference to the cluster of the name in the account's own namespace.
  pub map_account_to_cluster-enqueued :
      (account : Account) (source : NatsClusterRef) {r : ClusterRef}
      → account.spec.nats_cluster_ref ≡ some source
      → to_nauth_cluster_ref k8s account.spec.nats_cluster_ref account.meta.namespace ≡ ok (some r)
      → (n : NamespacedName) × (map_account_to_cluster account ≡ n ∷ [])
        × (((source.namespace ≢ "") × (to_string k8s n ≡ r))
            ⊎ ((source.namespace ≡ "")
                × (n.namespace ≡ "")
                × (Names.validate k8s n ≢ none)
                × (to_string k8s (record { namespace = account.meta.namespace; name = source.name })
                    ≡ r)))
  unfolding map_account_to_cluster
  map_account_to_cluster-enqueued account source {r} has h =
      let own = account.meta.namespace in
      let n : NamespacedName = record { namespace = source.namespace; name = source.name } in
      let resolved =
        reference-eq-ok source own (ap (λ s. to_nauth_cluster_ref k8s s own) (sym has) ∙ h) in
      (
        n,
        ap
            (λ s. elim s [
              | none ↦ []
              | some ref ↦ (record { namespace = ref.namespace; name = ref.name }) ∷ []
            ])
            has,
        elim (Bool-cases (source.namespace == "")) [
          | inl absent ↦ inr (
            (eq_iff source.namespace "").0 absent,
            (eq_iff source.namespace "").0 absent,
            no_namespace n absent,
            ap (λ b. k8s.namespaced_name_string (if b then own else source.namespace) source.name)
                  (sym absent)
                ∙ resolved,
          )
          | inr present ↦ inl (
            (λ p. let q = (eq_iff source.namespace "").1 p in cc),
            ap (λ b. k8s.namespaced_name_string (if b then own else source.namespace) source.name)
                  (sym present)
                ∙ resolved,
          )
        ],
      )
