-- ===== src/Cluster/Resolved.antt =====
-- Which cluster an account gets: internal/core/cluster.go.
use nauth.Common.{
  String, Bool, true, false, not, Option, none, some, [], ◌∷◌, ok, ◌≡◌, refl, errorf, str, wrap,
  check, reject, sym, subst, ◌∙◌, ap, ◌⊎◌, inl, inr, and_then-eq-ok, ok-injective, ◌==◌, eq_iff,
  arith,
}
use nauth.Domain.Names.{K8s}
use nauth.Domain.Cluster
use nauth.Domain.Cluster.{ClusterTarget, ClusterRef, validate_ref}
use nauth.Effects
use nauth.Effects.{World, History, done, deferred}
use nauth.Effects.Fallible.{pure}
use nauth.Effects.Inversion.{
  then-eq-ok, lift-then-eq-ok, wrapping-eq-ok, perform-eq-ok, perform_check-eq-ok, wrap-check-eq-ok,
  reject-eq-ok, check-then-eq-ok,
}
use nauth.Cluster.{
  OperatorNatsCluster, Config, op_cluster_config, check_required, get_effective_cluster_ref,
  get_cluster_target, validate_cluster,
}

-- The reference is the account's own, or the operator's for an account without one.
abbrev pub IsChosen : Option ClusterRef → Option ClusterRef → ClusterRef → Type 0
IsChosen (some a) op r = r ≡ a
IsChosen none op r = op ≡ some r

-- What the operator asks of a reference: a cluster that is not optional is the only one.
abbrev pub IsAllowed : Option OperatorNatsCluster → ClusterRef → Type 0
IsAllowed none r = Unit
IsAllowed (some c) r = (c.optional ≡ true) ⊎ (r ≡ c.cluster_ref)

module _ (k8s : K8s) where
  required-same :
      (a op : ClusterRef) (optional : Bool) {u : Unit {0}}
      → check_required k8s a (some op) (not optional) ≡ ok u
      → (optional ≡ true) ⊎ (a ≡ op)
  required-same a op true e = inl refl
  required-same a op false e =
      let refused =
        errorf "account cluster reference %s does not match required operator cluster %s"
          (str a ∷ str op ∷ []) in
      let (_, _, e1) =
        and_then-eq-ok (wrap "invalid operator cluster ref: %w" [] (check (validate_ref k8s op)))
          (λ _. reject (not (op == a)) refused) e in
      let same = reject-eq-ok (not (op == a)) refused e1 in inr (ground (arith, eq_iff op a))

  required-IsAllowed :
      (a : ClusterRef) (op : Option OperatorNatsCluster) (namespace : String) {u : Unit {0}}
      → let o =
          op_cluster_config k8s
            (record { operator_nats_cluster = op; operator_namespace = namespace }) in
        check_required k8s a o.0 o.1 ≡ ok u → IsAllowed op a
  required-IsAllowed a none namespace e = tt
  required-IsAllowed a (some c) namespace e = required-same a c.cluster_ref c.optional e

  effective-eq-ok :
      (account : Option ClusterRef) (op : Option OperatorNatsCluster) (namespace : String)
      {r : ClusterRef}
      → let o =
          op_cluster_config k8s
            (record { operator_nats_cluster = op; operator_namespace = namespace }) in
        get_effective_cluster_ref k8s account o.0 o.1 ≡ ok r
        → (validate_ref k8s r ≡ none) × IsChosen account o.0 r × IsAllowed op r
  unfolding get_effective_cluster_ref
  effective-eq-ok (some a) op namespace e =
      let (_, valid, e1) = and_then-eq-ok _ _ e in
      let (_, fits, e2) = and_then-eq-ok _ _ e1 in
      let same = ok-injective e2 in
      subst (λ r. (validate_ref k8s r ≡ none) × (r ≡ a) × IsAllowed op r) same
        (wrap-check-eq-ok _ _ _ valid, refl, required-IsAllowed a op namespace fits)
  effective-eq-ok none (some c) namespace e =
      let (_, valid, e1) = and_then-eq-ok _ _ e in
      let same = ok-injective e1 in
      subst
        (λ r. (validate_ref k8s r ≡ none) × (some c.cluster_ref ≡ some r) × IsAllowed (some c) r)
        same (wrap-check-eq-ok _ _ _ valid, refl, inr refl)
  effective-eq-ok none none namespace e = cc

module _ (k8s : K8s) (world : World) where
  -- `GetClusterTarget` returns a target only if it is the valid answer to one request, for a valid
  -- reference: the account's own, or the operator's if the account has none. If the operator's
  -- cluster is not optional, it is the operator's whatever the account asks for.
  pub get_cluster_target-eq-ok :
      (config : Config) (account : Option ClusterRef) (h : History) (t : ClusterTarget)
      → (get_cluster_target k8s world config account h).0 ≡ ok t
      → (r : ClusterRef) × (validate_ref k8s r ≡ none)
        × IsChosen account (op_cluster_config k8s config).0 r
        × IsAllowed config.operator_nats_cluster r
        × (world.get_target h r ≡ ok t)
        × (Cluster.validate t ≡ none)
        × ((get_cluster_target k8s world config account h).1 ≡ done (Effects.Call.get_target r) ∷ h)
  unfolding get_cluster_target pure
  get_cluster_target-eq-ok config account h t e =
      let (r, p1, e1, t1) = lift-then-eq-ok _ _ h e in
      let (result, p2, e2, t2) = then-eq-ok _ _ h e1 in
      let (_, p3, e3, t3) = lift-then-eq-ok _ _ _ e2 in
      let (unwrapped, t4) = wrapping-eq-ok _ _ _ h p2 in
      let (answered, t5) = perform-eq-ok _ _ h unwrapped in
      let same = ok-injective e3 in
      let (valid, chosen, allowed) =
        effective-eq-ok k8s account config.operator_nats_cluster config.operator_namespace p1 in
      (
        r,
        valid,
        chosen,
        allowed,
        answered ∙ ap ok same,
        ap Cluster.validate (sym same) ∙ wrap-check-eq-ok _ _ _ p3,
        t1 ∙ t2 ∙ t3 ∙ t4 ∙ t5,
      )

  -- A cluster that `ClusterManager.Validate` accepts is a valid target, and the connection with its
  -- own credentials and the check of their access both succeeded, in this order, and the connection
  -- was closed.
  pub validate_cluster-eq-ok :
      (t : ClusterTarget) (h : History) (u : Unit {0})
      → (validate_cluster k8s world t h).0 ≡ ok u
      → (Cluster.validate t ≡ none)
        × (world.connect_system h t.nats_url t.system_admin_creds ≡ none)
        × ((validate_cluster k8s world t h).1
            ≡ done Effects.Call.disconnect_system
              ∷ done Effects.Call.verify_system_account_access
              ∷ done (Effects.Call.connect_system t.nats_url t.system_admin_creds)
              ∷ h)
  unfolding validate_cluster deferred
  validate_cluster-eq-ok t h u e =
      let (_, p1, e1, t1) = lift-then-eq-ok _ _ h e in
      let (_, p2, e2, t2) = then-eq-ok _ _ h e1 in
      let (connected, t3) = perform_check-eq-ok _ _ h (wrapping-eq-ok _ _ _ h p2).0 in
      let (e3, t4) = check-then-eq-ok _ _ _ _ _ h e1 in
      let (unwrapped, t5) = wrapping-eq-ok _ _ _ _ e3 in
      let (verified, t6) = perform_check-eq-ok _ _ _ unwrapped in
      (
        wrap-check-eq-ok _ _ _ p1,
        connected,
        t1 ∙ t4 ∙ ap (λ x. done Effects.Call.disconnect_system ∷ x) (t5 ∙ t6),
      )
