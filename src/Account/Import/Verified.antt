-- ===== src/Account/Import/Verified.antt =====
-- What `Import` guarantees: internal/core/account.go.
use nauth.Common.{
  String, Bool, true, false, not, some, ok, ◌≡◌, refl, ◌∙◌, arith, eq_iff, ◌==◌, wrap-eq-ok,
  ok-injective, ap,
}
use nauth.Jwt
use nauth.Jwt.{KeyPair}
use nauth.Domain.Account
use nauth.Domain.Account.{AccountReference}
use nauth.Domain.Adoptions.{AccountResult}
use nauth.Claims.Convert.{convert_nats_account_claims}
use nauth.Claims.Hash.{hash_signed_account_jwt_claims}
use nauth.Effects.{Call, Event, History, deferred}
use nauth.Effects.Emits.{
  Emits, Emits-then, Emits-perform, Emits-perform_check, Emits-deferred, Emits-wrapping,
  Emits-return, Emits-lift, call_of,
}
use nauth.Effects.Fallible.{pure, lift}
use nauth.Effects.Inversion.{then-eq-ok, lift-eq-ok, wrapping-eq-ok, reject-eq-ok, perform-eq-ok}
use nauth.Secrets.{Secrets}
use nauth.Secrets.Reading.{Lookup}
use nauth.Secrets.Lookups.Calls.{is_lookup}
use nauth.Account.Keys.{Setting, secrets_of}
use nauth.Account.Keys.Calls.{Emits-secrets, call-eq-ok, dereference-eq-ok}
use nauth.Account.Import.{read_account, import_account}

-- Looking up secrets and the JWT of an account, over a connection that is closed again.
abbrev pub is_reading : Call → Bool
is_reading (Call.get_secret _) = true
is_reading (Call.get_secrets_by_labels _ _) = true
is_reading (Call.label_secret _ _) = true
is_reading (Call.connect_system _ _) = true
is_reading Call.disconnect_system = true
is_reading (Call.lookup_account_jwt _) = true
is_reading _ = false

abbrev pub IsReading : Event → Type 0
IsReading e = is_reading (call_of e) ≡ true

reading_of_lookup : (c : Call) → is_lookup c ≡ true → is_reading c ≡ true
reading_of_lookup (Call.get_secret _) h = refl
reading_of_lookup (Call.get_secrets_by_labels _ _) h = refl
reading_of_lookup (Call.label_secret _ _) h = refl
reading_of_lookup _ h = cc

module _ (w : Setting) (reference : AccountReference) where
  read_account-Emits : Emits IsReading (read_account w reference.account_id)
  unfolding read_account
  read_account-Emits =
      Emits-then (Emits-wrapping _ _ (Emits-perform (Call.lookup_account_jwt _) _ refl refl)) λ j.
        Emits-then (Emits-lift _) λ _.
          Emits-then (Emits-lift _)
            λ _. Emits-then (Emits-lift _) λ _. Emits-then (Emits-lift _) λ _. Emits-return _

  -- Importing an account writes nothing: it looks up secrets, which it may label, and the JWT of
  -- the account.
  pub import_account-Emits : Emits IsReading (import_account w reference)
  unfolding import_account
  import_account-Emits = Emits-then (Emits-lift _) λ _. Emits-then (Emits-lift _) λ _.
      Emits-then
        (Emits-secrets w reference.account_ref reference.account_id
          (λ e. reading_of_lookup (call_of e)))
        λ found. Emits-then (Emits-lift _) λ _. Emits-then (Emits-lift _) λ _.
          Emits-then (Emits-lift _) λ secrets. Emits-then (Emits-lift _) λ root_public_key.
            Emits-then (Emits-lift _) λ _.
              Emits-then
                (Emits-wrapping _ _ (Emits-perform_check (Call.connect_system _ _) _ refl refl))
                λ _. Emits-deferred Call.disconnect_system refl read_account-Emits

-- A result of `Import` tells what the JWT that was looked up says.
pub record IsReported (w : Setting) (r : AccountResult) : Type 0 where
  pub account_jwt : String
  pub claims : Jwt.AccountClaims
  pub nauth_claims : Account.AccountClaims
  pub at : History
  pub looked_up : w.world.lookup_account_jwt at r.account_id ≡ ok account_jwt
  pub decoded : w.jwt.decode_account_claims account_jwt ≡ ok claims
  pub signed_by : r.account_signed_by ≡ claims.issuer
  pub converted : convert_nats_account_claims w.jwt (some claims) ≡ ok nauth_claims
  pub told : r.claims ≡ some nauth_claims
  pub hashed : hash_signed_account_jwt_claims w.jwt account_jwt ≡ ok r.claims_hash

module _ (w : Setting) (account_id : String) (h : History) (r : AccountResult) where
  read_account-IsReported :
      (read_account w account_id h).0 ≡ ok r → (r.account_id ≡ account_id) × IsReported w r
  unfolding read_account pure
  read_account-IsReported e =
      let (j, found, e1, _) = then-eq-ok _ _ h e in
      let (_, _, e2, _) = then-eq-ok _ _ _ e1 in
      let (c, decoded, e3, _) = then-eq-ok _ _ _ e2 in
      let (a, converted, e4, _) = then-eq-ok _ _ _ e3 in
      let (hash, hashed, e5, _) = then-eq-ok _ _ _ e4 in
      let looked_up = (perform-eq-ok _ _ _ (wrapping-eq-ok _ _ _ _ found).0).0 in
      rw (← ok-injective e5) (
        refl,
        record {
          account_jwt = j;
          claims = c;
          nauth_claims = a;
          at = h;
          looked_up = looked_up;
          decoded = wrap-eq-ok _ _ _ (lift-eq-ok _ _ decoded).0;
          signed_by = refl;
          converted = wrap-eq-ok _ _ _ (lift-eq-ok _ _ converted).0;
          told = refl;
          hashed = wrap-eq-ok _ _ _ (lift-eq-ok _ _ hashed).0;
        },
      )

not-eq-false : (s t : String) → not (s == t) ≡ false → s ≡ t
not-eq-false s t e = ground (arith, eq_iff s t)

-- `Import` returns a result only for the account that was asked for, if secrets were found whose
-- root key is the key of that account, and it tells what the JWT in NATS says of the account: the
-- issuer, the claims and their hash.
pub import_account-IsReported :
    (w : Setting) (reference : AccountReference) (h : History) (r : AccountResult)
    → (import_account w reference h).0 ≡ ok r
    → (r.account_id ≡ reference.account_id)
      × ((s : Secrets) × ((secrets_of w reference.account_ref reference.account_id h).0.secrets
            ≡ some s)
          × (w.jwt.public_key s.root ≡ ok reference.account_id))
      × IsReported w r
unfolding import_account lift deferred
import_account-IsReported w reference h r e =
    let (_, _, e1, _) = then-eq-ok _ _ h e in
    let (_, _, e2, _) = then-eq-ok _ _ _ e1 in
    let (found, p2, e3, _) = then-eq-ok _ _ _ e2 in
    let (_, _, e4, _) = then-eq-ok _ _ _ e3 in
    let (_, _, e5, _) = then-eq-ok _ _ _ e4 in
    let (s, p5, e6, _) = then-eq-ok _ _ _ e5 in
    let (key, p6, e7, _) = then-eq-ok _ _ _ e6 in
    let (_, p7, e8, _) = then-eq-ok _ _ _ e7 in
    let (_, _, e9, _) = then-eq-ok _ _ _ e8 in
    let same = not-eq-false key reference.account_id (reject-eq-ok _ _ p7) in
    let answered = wrap-eq-ok _ _ _ p6 in
    let (told, report) = read_account-IsReported w reference.account_id _ r e9 in
    (
      told,
      (
        s,
        ap (λ (l : Lookup). l.secrets) (call-eq-ok _ h p2).0 ∙ dereference-eq-ok found.secrets p5,
        answered ∙ ap ok same,
      ),
      report,
    )
