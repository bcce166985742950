-- ===== src/Adapter/Clusters/Parts.antt =====
-- Where the URL, the credentials and the signing key of a cluster come from.
use nauth.Common.{
  StringMap, String, Bool, true, false, not, Option, none, some, [], ◌∷◌, ok, err, wrap, reject,
  wrap-eq-ok, ok-injective, lookup, errorf, str, ◌≡◌, refl, sym, ◌∙◌, ap, ◌⊎◌, inl, inr, Bool-cases,
  ◌==◌, ◌&&◌, eq_iff,
}
use nauth.Jwt.{KeyPair}
use nauth.Domain.Names.{NamespacedName, to_string}
use nauth.Domain.Creds.{NatsUserCreds, new_nats_user_creds}
use nauth.Effects
use nauth.Effects.{History, Fallible, perform}
use nauth.Effects.Fallible.{pure, wrapping}
use nauth.Effects.Inversion.{
  then-eq-ok, lift-then-eq-ok, lift-eq-ok, wrapping-eq-ok, perform-eq-ok, reject-eq-ok,
}
use nauth.Account.Keys.{Setting}
use nauth.Api.{Machinery}
use nauth.Api.Clusters.{NatsCluster, SecretKeyReference, UrlFromReference}
use nauth.Adapter.Clusters.{
  key_or_default, found_value, resolve_secret, resolve_nats_url_from_resource, resolve_nats_url,
  resolve_sys_admin_creds, resolve_operator_signing_key,
}

module _ (w : Setting) (k : Machinery) where
  -- A value that a read of a secret has answered, under the key or else the default one.
  pub record IsStoredAt (namespace : String) (reference : SecretKeyReference) (value : String)
      : Type 0 where
    pub before : History
    pub contents : StringMap
    pub answered :
        w.world.get_secret before (record { namespace = namespace; name = reference.name })
        ≡ ok (some contents)
    pub there : lookup (key_or_default w k reference.key) contents ≡ some value

  found_value-eq-ok :
      (ref : NamespacedName) (key : String) (secret : Option StringMap) {value : String}
      → found_value w k ref key secret ≡ ok value
      → (contents : StringMap) × (secret ≡ some contents)
        × (lookup (key_or_default w k key) contents ≡ some value)
  found_value-eq-ok ref key none h = cc
  found_value-eq-ok ref key (some contents) {value} h =
      (contents, refl, of_value (lookup (key_or_default w k key) contents) h)
    where
      of_value :
          (found : Option String)
          → elim found [
            | some v ↦ ok v
            | none ↦ err (
                errorf "secret %s does not contain key %q"
                  (str (to_string w.k8s ref) ∷ str (key_or_default w k key) ∷ []))
          ]
            ≡ ok value
          → found ≡ some value
      of_value none h = cc
      of_value (some v) h = ap (λ v. some v) (ok-injective h)

  resolve_secret-eq-ok :
      (namespace : String) (r : SecretKeyReference) (h : History) {value : String}
      → (resolve_secret w k (record { namespace = namespace; name = r.name }) r.key h).0 ≡ ok value
      → IsStoredAt namespace r value
  unfolding resolve_secret
  resolve_secret-eq-ok namespace r h e =
      let ref : NamespacedName = record { namespace = namespace; name = r.name } in
      let read = perform (Effects.Call.get_secret ref) (λ h. w.world.get_secret h ref) in
      let (secret, e1, e2, _) = then-eq-ok (wrapping _ _ read) _ h e in
      let (e3, _) = wrapping-eq-ok _ _ read h e1 in
      let (answered, _) = perform-eq-ok _ (λ h. w.world.get_secret h ref) h e3 in
      let (found, _) = lift-eq-ok (found_value w k ref r.key secret) _ e2 in
      let (contents, is_some, there) = found_value-eq-ok ref r.key secret found in
      record {
        before = h;
        contents = contents;
        answered = answered ∙ ap (λ s. ok s) is_some;
        there = there;
      }

  pub resolve_sys_admin_creds-eq-ok :
      (cluster : NatsCluster) (h : History) {creds : NatsUserCreds}
      → (resolve_sys_admin_creds w k cluster h).0 ≡ ok creds
      → (value : String) × IsStoredAt cluster.meta.namespace
          cluster.spec.system_account_user_creds_secret_ref value
        × (new_nats_user_creds w.jwt value ≡ ok creds)
  unfolding resolve_sys_admin_creds
  resolve_sys_admin_creds-eq-ok cluster h e =
      let r = cluster.spec.system_account_user_creds_secret_ref in
      let (value, e1, e2, _) = then-eq-ok (resolve_secret w k _ r.key) _ h e in
      let (e3, _) = lift-eq-ok (wrap _ [] (new_nats_user_creds w.jwt value)) _ e2 in
      (
        value,
        resolve_secret-eq-ok cluster.meta.namespace r h e1,
        wrap-eq-ok _ [] (new_nats_user_creds w.jwt value) e3,
      )

  pub resolve_operator_signing_key-eq-ok :
      (cluster : NatsCluster) (h : History) {key : KeyPair}
      → (resolve_operator_signing_key w k cluster h).0 ≡ ok key
      → (value : String) × IsStoredAt cluster.meta.namespace
          cluster.spec.operator_signing_key_secret_ref value
        × (w.jwt.from_seed value ≡ ok key)
  unfolding resolve_operator_signing_key
  resolve_operator_signing_key-eq-ok cluster h e =
      let r = cluster.spec.operator_signing_key_secret_ref in
      let (value, e1, e2, _) = then-eq-ok (resolve_secret w k _ r.key) _ h e in
      let (e3, _) = lift-eq-ok (wrap _ [] (w.jwt.from_seed value)) _ e2 in
      (
        value,
        resolve_secret-eq-ok cluster.meta.namespace r h e1,
        wrap-eq-ok _ [] (w.jwt.from_seed value) e3,
      )

  not_ambiguous :
      (url given : String)
      → (not (given == "") && not (url == given)) ≡ false
      → (given ≡ "") ⊎ (url ≡ given)
  not_ambiguous url given h = elim (Bool-cases (given == "")) [
    | inl absent ↦ inl ((eq_iff given "").0 absent)
    | inr present ↦ elim (Bool-cases (url == given)) [
      | inl same ↦ inr ((eq_iff url given).0 same)
      | inr other ↦ absurd (clash (given == "") (url == given) present other h)
    ]
  ]
    where
      clash : (a b : Bool) → a ≡ false → b ≡ false → (not a && not b) ≡ false → ⊥
      clash true b p q h = cc
      clash false true p q h = cc
      clash false false p q h = cc

  pub pure-eq-ok : {A : Type 0} (a : A) (h : History) {b : A} → (pure a h).0 ≡ ok b → a ≡ b
  unfolding pure
  pure-eq-ok a h e = ok-injective e

  pub resolve_nats_url-eq-ok :
      (cluster : NatsCluster) (h : History) {url : String}
      → (resolve_nats_url w k cluster h).0 ≡ ok url
      → (cluster.spec.url ≡ "") ⊎ (url ≡ cluster.spec.url)
  unfolding resolve_nats_url
  resolve_nats_url-eq-ok cluster h {url} e = of_reference cluster.spec.url_from e
    where
      of_reference :
          (reference : Option UrlFromReference)
          → (resolve_nats_url w k
              (record cluster { spec = record (cluster.spec) { url_from = reference } })
              h).0
            ≡ ok url
          → (cluster.spec.url ≡ "") ⊎ (url ≡ cluster.spec.url)
      of_reference none e =
          let (_, _, e1, _) = lift-then-eq-ok (reject (cluster.spec.url == "") _) _ h e in
          inr (sym (pure-eq-ok cluster.spec.url _ e1))
      of_reference (some r) e =
          let reading = resolve_nats_url_from_resource w k r cluster.meta.namespace in
          let (from, _, e1, _) = then-eq-ok (wrapping _ _ reading) _ h e in
          let ambiguous = not (cluster.spec.url == "") && not (from == cluster.spec.url) in
          let (_, passed, e2, _) = lift-then-eq-ok (reject ambiguous _) _ _ e1 in
          let same = pure-eq-ok from _ e2 in
          elim (not_ambiguous from cluster.spec.url (reject-eq-ok ambiguous _ passed)) [
            | inl absent ↦ inl absent
            | inr agrees ↦ inr (sym same ∙ agrees)
          ]
