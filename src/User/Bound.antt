-- ===== src/User/Bound.antt =====
-- What the labels of a user say after `CreateOrUpdate`: internal/core/user.go.
use nauth.Common.{
  ℕ, String, false, [], ◌∷◌, ok, ◌≡◌, refl, sym, subst, ◌∙◌, ◌⊎◌, inl, inr, ok-injective,
  wrap-eq-ok, ◌==◌, lookup-set_entry_self, lookup-set_entry_other,
}
use nauth.Jwt
use nauth.Jwt.{KeyPair}
use nauth.Effects
use nauth.Effects.{History, done}
use nauth.Effects.Fallible.{pure}
use nauth.Effects.Inversion.{
  then-eq-ok, lift-then-eq-ok, wrapping-eq-ok, perform-eq-ok, perform_check-eq-ok,
}
use nauth.Account.Keys.{Setting}
use nauth.Account.Keys.Calls.{call-eq-ok}
use nauth.Account.Sign.{SignedUserJwt}
use nauth.Account.Sign.Issuer.{IsIssued, sign_user_jwt-IsIssued}
use nauth.User.Claims.{UserClaims, new_user_claims, to_nauth_user_claims}
use nauth.User.{
  User, UserStatus, finished, get_label, set_label, user_label_user_id, user_label_account_id,
  user_label_signed_by, get_user_display_name, user_secret_meta, account_ref_of,
  user_credential_secret_key_name, create_or_update_user,
}

get_label-set_label :
    (user : User) (key value : String) → get_label (set_label user key value) key ≡ value
unfolding get_label set_label
get_label-set_label user key value = rw (lookup-set_entry_self key value user.labels) refl

get_label-set_label_other :
    (user : User) (key other value : String)
    → (key == other) ≡ false
    → get_label (set_label user key value) other ≡ get_label user other
unfolding get_label set_label
get_label-set_label_other user key other value h =
    rw (lookup-set_entry_other key other value user.labels h) refl

abbrev pub claims_of : Setting → User → String → Jwt.UserClaims
claims_of w state public_key =
    new_user_claims w.jwt (get_user_display_name state) state.spec public_key
      (get_label state user_label_account_id)

get_label-status :
    (user : User) (status : UserStatus) (key : String)
    → get_label (record user { status = status }) key ≡ get_label user key
unfolding get_label
get_label-status user status key = refl

-- What `CreateOrUpdate` has done when it returns the user `r` with the history `after`.
pub record IsBound (w : Setting) (state r : User) (after : History) : Type 0 where
  pub key_pair : KeyPair
  pub public_key : String
  pub signed : SignedUserJwt
  pub left : Jwt.UserClaims
  pub seed : String
  pub creds : String
  pub before : History
  pub asked : History
  pub created : w.world.create_user asked ≡ ok key_pair
  pub key : w.jwt.public_key key_pair ≡ ok public_key
  pub seeded : w.jwt.seed key_pair ≡ ok seed
  pub issued : IsIssued w (account_ref_of state) (claims_of w state public_key) signed left
  pub formatted : w.jwt.format_user_config signed.user_jwt seed ≡ ok creds
  pub stored :
      after
      ≡ done (
          Effects.Call.apply_secret
            (user_secret_meta state)
            ((user_credential_secret_key_name, creds) ∷ []))
        ∷ before
  pub user_id : get_label r user_label_user_id ≡ public_key
  pub account_id : get_label r user_label_account_id ≡ signed.account_id
  pub signed_by : get_label r user_label_signed_by ≡ signed.signed_by
  pub claims : r.status.claims ≡ to_nauth_user_claims w.jwt left
  pub same_account :
      (get_label state user_label_account_id ≡ "")
      ⊎ (get_label r user_label_account_id ≡ get_label state user_label_account_id)

-- The three labels that are set one after the other.
finished-labels :
    (state : User) (id : String) (signed : SignedUserJwt) (claims : UserClaims) (now : ℕ)
    → let r = finished state id signed claims now in
      (get_label r user_label_user_id ≡ id)
      × (get_label r user_label_account_id ≡ signed.account_id)
      × (get_label r user_label_signed_by ≡ signed.signed_by)
      × (r.status.claims ≡ claims)
unfolding finished
finished-labels state id signed claims now =
    let a = set_label state user_label_user_id id in
    let b = set_label a user_label_account_id signed.account_id in
    let c = set_label b user_label_signed_by signed.signed_by in
    (
      get_label-status c _ _
          ∙ get_label-set_label_other b _ _ signed.signed_by refl
          ∙ get_label-set_label_other a _ _ signed.account_id refl
          ∙ get_label-set_label state _ id,
      get_label-status c _ _
          ∙ get_label-set_label_other b _ _ signed.signed_by refl
          ∙ get_label-set_label a _ signed.account_id,
      get_label-status c _ _ ∙ get_label-set_label b _ signed.signed_by,
      refl,
    )

issuer_of :
    (w : Setting) (state : User) (public_key : String)
    → (claims_of w state public_key).issuer_account ≡ get_label state user_label_account_id
unfolding new_user_claims
issuer_of w state public_key = refl

same_account_of :
    (old new id issuer : String)
    → issuer ≡ old
    → new ≡ id
    → (issuer ≡ "") ⊎ (issuer ≡ id)
    → (old ≡ "") ⊎ (new ≡ old)
same_account_of old new id issuer p q (inl e) = inl (sym p ∙ e)
same_account_of old new id issuer p q (inr e) = inr (q ∙ sym e ∙ p)

finished-IsBound :
    (w : Setting) (state : User) (key_pair : KeyPair) (public_key : String) (signed : SignedUserJwt)
    (left : Jwt.UserClaims) (seed creds : String) (now : ℕ) {before after : History}
    → (asked : History) → w.world.create_user asked ≡ ok key_pair
    → w.jwt.public_key key_pair ≡ ok public_key
    → w.jwt.seed key_pair ≡ ok seed
    → IsIssued w (account_ref_of state) (claims_of w state public_key) signed left
    → w.jwt.format_user_config signed.user_jwt seed ≡ ok creds
    → after
      ≡ done (
          Effects.Call.apply_secret
            (user_secret_meta state)
            ((user_credential_secret_key_name, creds) ∷ []))
        ∷ before
    → IsBound w state (finished state public_key signed (to_nauth_user_claims w.jwt left) now) after
finished-IsBound w state key_pair public_key signed left seed creds now {before} asked created key
      seeded issued formatted stored =
    let (user_id, account_id, signed_by, claims) =
      finished-labels state public_key signed (to_nauth_user_claims w.jwt left) now in
    record {
      key_pair = key_pair;
      asked = asked;
      created = created;
      key = key;
      seeded = seeded;
      public_key = public_key;
      signed = signed;
      left = left;
      seed = seed;
      creds = creds;
      before = before;
      issued = issued;
      formatted = formatted;
      stored = stored;
      user_id = user_id;
      account_id = account_id;
      signed_by = signed_by;
      claims = claims;
      same_account =
          same_account_of _ _ signed.account_id _ (issuer_of w state public_key) account_id
            issued.mine;
    }

module _ (w : Setting) where
  -- A successful `CreateOrUpdate` of a user has stored, as its last call, the credentials made of a
  -- JWT that was issued for the account that the user names. The labels of the user tell the public
  -- key of the key pair that `nkeys.CreateUser` gave, whose seed is in the credentials, and the
  -- account and the signing key of this JWT; the status tells its claims. A user who was bound to
  -- an account by the label stays with that account.
  pub create_or_update_user-IsBound :
      (state r : User) (h : History)
      → (create_or_update_user w state h).0 ≡ ok r
      → IsBound w state r (create_or_update_user w state h).1
  unfolding create_or_update_user pure
  create_or_update_user-IsBound state r h e =
      let (_, _, e1, t1) = lift-then-eq-ok _ _ h e in
      let (pair, p2, e2, t2) = then-eq-ok _ _ h e1 in
      let (public_key, p3, e3, t3) = lift-then-eq-ok _ _ _ e2 in
      let (seed, p4, e4, t4) = lift-then-eq-ok _ _ _ e3 in
      let (signed, p5, e5, t5) = then-eq-ok _ _ _ e4 in
      let (creds, p6, e6, t6) = lift-then-eq-ok _ _ _ e5 in
      let (_, p7, e7, t7) = then-eq-ok _ _ _ e6 in
      let (now, p8, e8, t8) = then-eq-ok _ _ _ e7 in
      let issued = sign_user_jwt-IsIssued w _ _ _ _ _ (wrapping-eq-ok _ _ _ _ p5).0 in
      let applied = (perform_check-eq-ok _ _ _ p7).1 in
      let waited = (call-eq-ok _ _ p8).1 in
      let made = (perform-eq-ok _ _ _ (wrapping-eq-ok _ _ _ _ p2).0).0 in
      subst (λ x. IsBound w state x (create_or_update_user w state h).1) (ok-injective e8)
        (finished-IsBound w state pair public_key signed.0 signed.1 seed creds now h made
          (wrap-eq-ok _ _ _ p3) (wrap-eq-ok _ _ _ p4) issued (wrap-eq-ok _ _ _ p6)
          (t1 ∙ t2 ∙ t3 ∙ t4 ∙ t5 ∙ t6 ∙ t7 ∙ t8 ∙ waited ∙ applied))
