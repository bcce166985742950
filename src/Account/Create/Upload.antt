-- ===== src/Account/Create/Upload.antt =====
-- What a successful `CreateOrUpdate` uploads: internal/core/account.go.
use nauth.Common.{
  String, Bool, true, false, Option, none, some, [], ◌∷◌, ◌++◌, Error, Result, ok, wrap, ◌≡◌, sym,
  subst, ◌∙◌, ap, ap₂, join_all, wrap-eq-ok, ok-injective, and_then-eq-ok, if◌then◌else◌,
}
use nauth.Jwt
use nauth.Jwt.{KeyPair}
use nauth.Domain.Adoptions.{AccountAdoptions, AccountResult}
use nauth.Domain.Account.{AccountRequest}
use nauth.Claims.Convert.{convert_nats_account_claims}
use nauth.Claims.Hash.{hash_signed_account_jwt_claims}
use nauth.Effects.{Call, done, History, deferred}
use nauth.Effects.Fallible
use nauth.Effects.Fallible.{◌>>=◌, lift, wrapping}
use nauth.Effects.Inversion.{
  then-eq-ok, lift-then-eq-ok, perform-eq-ok, check-then-eq-ok, lift-eq-ok, wrapping-eq-ok,
}
use nauth.Account.Keys.{Setting}
use nauth.Account.Keys.Calls.{dereference-eq-ok}
use nauth.Account.Create.{
  Keys, sign_account_jwt, encode_if_valid, upload, needs_upload, upload_if_changed, account_result,
  publish, create_or_update,
}

-- The events of an upload over a connection of the system account, the latest first.
abbrev pub uploading : AccountRequest → String → History
uploading request signed_jwt =
    done Call.disconnect_system
    ∷ done (Call.upload_account_jwt signed_jwt)
    ∷ done (
        Call.connect_system request.cluster_target.nats_url
          request.cluster_target.system_admin_creds)
    ∷ []

-- What `create_or_update` has done when it returns `r` with the history `after`: it has signed
-- claims, hashed the JWT, and uploaded it last of all, or not if the request has the same hash.
pub record IsPublished (w : Setting) (request : AccountRequest) (r : AccountResult)
    (after : History) : Type 0 where
  pub claims : Jwt.AccountClaims
  pub signed_claims : Jwt.AccountClaims
  pub operator_key : KeyPair
  pub account_jwt : String
  pub before : History
  pub operator : request.cluster_target.operator_signing_key ≡ some operator_key
  pub signed :
      w.world.encode_account_claims before claims operator_key ≡ ok (account_jwt, signed_claims)
  pub hashed : hash_signed_account_jwt_claims w.jwt account_jwt ≡ ok r.claims_hash
  pub told :
      after
      ≡ (if needs_upload w request r.claims_hash then uploading request account_jwt else [])
        ++ done (Call.encode_account_claims claims operator_key) ∷ before

module _ (w : Setting) where
  upload-eq-ok :
      {A : Type 0} (request : AccountRequest) (jwt : String) (r : Result A) (h : History) {a : A}
      → (upload w request jwt (lift r) h).0 ≡ ok a
      → (r ≡ ok a) × ((upload w request jwt (lift r) h).1 ≡ uploading request jwt ++ h)
  unfolding upload deferred lift
  upload-eq-ok request jwt r h e =
      let (e1, after1) = check-then-eq-ok _ _ _ _ _ h e in
      let (e2, after2) = check-then-eq-ok _ _ _ _ _ _ e1 in
      (e2, after1 ∙ ap (λ t. done Call.disconnect_system ∷ t) after2)

  branch-eq-ok :
      {A : Type 0} (b : Bool) (request : AccountRequest) (jwt : String) (r : Result A) (h : History)
      {a : A}
      → ((if b then upload w request jwt (lift r) else lift r) h).0 ≡ ok a
      → (r ≡ ok a)
        × (((if b then upload w request jwt (lift r) else lift r) h).1
            ≡ (if b then uploading request jwt else []) ++ h)
  branch-eq-ok true request jwt r h e = upload-eq-ok request jwt r h e
  branch-eq-ok false request jwt r h e = lift-eq-ok r h e

  upload_if_changed-eq-ok :
      {A : Type 0} (request : AccountRequest) (jwt hash : String) (r : Result A) (h : History)
      {a : A}
      → (upload_if_changed w request jwt hash (lift r) h).0 ≡ ok a
      → (r ≡ ok a)
        × ((upload_if_changed w request jwt hash (lift r) h).1
            ≡ (if needs_upload w request hash then uploading request jwt else []) ++ h)
  unfolding upload_if_changed
  upload_if_changed-eq-ok request jwt hash r h e =
      branch-eq-ok (needs_upload w request hash) request jwt r h e

  result-hash :
      (claims : Jwt.AccountClaims) (keys : Keys) (signed_by claims_hash : String)
      (adoptions : AccountAdoptions) {r : AccountResult}
      → account_result w claims keys signed_by claims_hash adoptions ≡ ok r
      → (claims_hash ≡ r.claims_hash)
        × (keys.root_public_key ≡ r.account_id)
        × (some adoptions ≡ r.adoptions)
  unfolding account_result
  result-hash claims keys signed_by claims_hash adoptions e =
      let (a, _, told) =
        and_then-eq-ok
          (wrap "failed to convert NATS account claims: %w" []
            (convert_nats_account_claims w.jwt (some claims)))
          (λ nauth_claims. ok (record {
            account_id = keys.root_public_key;
            account_signed_by = signed_by;
            claims = some nauth_claims;
            claims_hash = claims_hash;
            adoptions = some adoptions;
          }))
          e in
      let same = ok-injective told in
      (
        ap (λ (x : AccountResult). x.claims_hash) same,
        ap (λ (x : AccountResult). x.account_id) same,
        ap (λ (x : AccountResult). x.adoptions) same,
      )

  encode-eq-ok :
      (invalid : Option Error) (claims : Jwt.AccountClaims) (key : KeyPair) (h : History)
      {signed : String × Jwt.AccountClaims}
      → (encode_if_valid w invalid claims key h).0 ≡ ok signed
      → (w.world.encode_account_claims h claims key ≡ ok signed)
        × ((encode_if_valid w invalid claims key h).1
            ≡ done (Call.encode_account_claims claims key) ∷ h)
  unfolding Fallible.raise
  encode-eq-ok none claims key h e = perform-eq-ok _ _ h e
  encode-eq-ok (some x) claims key h e = cc

  sign-eq-ok :
      (claims : Jwt.AccountClaims) (key : KeyPair) (h : History)
      {signed : String × Jwt.AccountClaims}
      → (sign_account_jwt w claims key h).0 ≡ ok signed
      → (w.world.encode_account_claims h claims key ≡ ok signed)
        × ((sign_account_jwt w claims key h).1 ≡ done (Call.encode_account_claims claims key) ∷ h)
  unfolding sign_account_jwt
  sign-eq-ok claims key h e =
      encode-eq-ok (join_all (w.jwt.validate_account_claims claims)) claims key h e

  uploading-same :
      (request : AccountRequest) (jwt : String) {x y : String} {h h' : History}
      → x ≡ y
      → h ≡ h'
      → (if needs_upload w request x then uploading request jwt else []) ++ h
        ≡ (if needs_upload w request y then uploading request jwt else []) ++ h'
  uploading-same request jwt p q =
      ap₂ (λ x h. (if needs_upload w request x then uploading request jwt else []) ++ h) p q

  publish-IsPublished :
      (request : AccountRequest) (keys : Keys) (h : History) {r : AccountResult}
      → (publish w request keys h).0 ≡ ok r
      → IsPublished w request r (publish w request keys h).1
  unfolding publish
  publish-IsPublished request keys h {r} e =
      let (_, _, e1, t1) = lift-then-eq-ok _ _ h e in
      let (_, _, e2, t2) = lift-then-eq-ok _ _ h e1 in
      let (built, _, e3, t3) = lift-then-eq-ok _ _ h e2 in
      let (key, p4, e4, t4) = lift-then-eq-ok _ _ h e3 in
      let (signed, p5, e5, t5) = then-eq-ok _ _ h e4 in
      let (hash, hashed, e6, t6) = lift-then-eq-ok _ _ _ e5 in
      let (told, t7) = upload_if_changed-eq-ok request signed.0 hash _ _ e6 in
      let same = (result-hash signed.1 keys _ hash built.1 told).0 in
      let (unwrapped, t9) = wrapping-eq-ok _ _ _ h p5 in
      let (answered, t8) = sign-eq-ok built.0 key h unwrapped in
      record {
        claims = built.0;
        signed_claims = signed.1;
        operator_key = key;
        account_jwt = signed.0;
        before = h;
        operator = dereference-eq-ok _ p4;
        signed = answered;
        hashed = wrap-eq-ok _ _ _ hashed ∙ ap ok same;
        told = t1 ∙ t2 ∙ t3 ∙ t4 ∙ t5 ∙ t6 ∙ t7 ∙ uploading-same request signed.0 same (t9 ∙ t8);
      }

  -- A successful `CreateOrUpdate` has signed claims with the operator's key, and the result has the
  -- hash of that JWT. If the request has no hash or another one, the last calls are those that
  -- upload exactly this JWT over a connection of the system account, which is closed again.
  -- Otherwise the signature is the last call, so nothing is uploaded after it.
  pub create_or_update-IsPublished :
      (request : AccountRequest) (h : History) (r : AccountResult)
      → (create_or_update w request h).0 ≡ ok r
      → IsPublished w request r (create_or_update w request h).1
  unfolding create_or_update
  create_or_update-IsPublished request h r e =
      let (_, _, e1, t1) = lift-then-eq-ok _ _ h e in
      let (found, _, e2, t2) = then-eq-ok _ _ h e1 in
      let (_, _, e3, t3) = lift-then-eq-ok _ _ _ e2 in
      let (keys, _, e4, t4) = then-eq-ok _ _ _ e3 in
      subst (λ after. IsPublished w request r after) (sym (t1 ∙ t2 ∙ t3 ∙ t4))
        (publish-IsPublished request keys _ e4)
