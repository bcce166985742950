-- ===== src/Account/Create/Calls.antt =====
-- Which calls `CreateOrUpdate` makes for an account that exists: internal/core/account.go.
use nauth.Common.{
  String, Bool, true, false, [], Result, ok, err, ◌≡◌, refl, Bool-cases, inl, inr, ◌==◌,
  if◌then◌else◌,
}
use nauth.Domain.Account.{AccountRequest}
use nauth.Effects.{Call, Event, Fallible}
use nauth.Effects.Fallible.{◌>>=◌, lift, continue}
use nauth.Effects.Emits.{
  Emits, Emits-then, Emits-perform_check, Emits-deferred, Emits-wrapping, Emits-lift, call_of,
}
use nauth.Secrets.Reading.{Lookup}
use nauth.Secrets.Lookups.Calls.{is_lookup, IsLookup}
use nauth.Account.Keys.{Setting}
use nauth.Account.Keys.Calls.{Emits-secrets}
use nauth.Account.Create.Signing.{sign-Emits}
use nauth.Account.Create.{
  Keys, check_secrets, obtain_keys, upload, needs_upload, upload_if_changed, publish,
  create_or_update,
}

-- The calls that give an account new keys: a new key pair, and a secret that is stored.
abbrev pub changes_keys : Call → Bool
changes_keys Call.create_account = true
changes_keys (Call.apply_secret _ _) = true
changes_keys (Call.delete_secret _) = true
changes_keys (Call.delete_secrets_by_labels _ _) = true
changes_keys _ = false

abbrev pub KeepsKeys : Event → Type 0
KeepsKeys e = changes_keys (call_of e) ≡ false

keeps_of_lookup : (c : Call) → is_lookup c ≡ true → changes_keys c ≡ false
keeps_of_lookup (Call.get_secret _) h = refl
keeps_of_lookup (Call.get_secrets_by_labels _ _) h = refl
keeps_of_lookup (Call.label_secret _ _) h = refl
keeps_of_lookup _ h = cc

lookup_keeps : (e : Event) → IsLookup e → KeepsKeys e
lookup_keeps e h = keeps_of_lookup (call_of e) h

-- What follows a step without calls may assume that the step succeeded.
Emits-lift-then :
    {P : Event → Type 0} {A B : Type 0} (r : Result A) (f : A → Fallible B)
    → ((a : A) → r ≡ ok a → Emits P (f a))
    → Emits P (lift r >>= f)
unfolding ◌>>=◌ lift continue
Emits-lift-then (ok a) f of = record { events = λ h. (of a refl).events h }
Emits-lift-then (err e) f of = record { events = λ h. ([], refl, tt) }

-- The secrets of an account with an ID must be found.
check_secrets-found :
    (request : AccountRequest) (l : Lookup) {u : Unit {0}}
    → (request.account_id == "") ≡ false
    → check_secrets request l ≡ ok u
    → l.found ≡ true
unfolding check_secrets
check_secrets-found request l known e = elim (Bool-cases l.found) [ inl yes' ↦ yes' | inr no' ↦ cc ]

module _ (w : Setting) where
  branch-Emits :
      {A : Type 0} (b : Bool) (request : AccountRequest) (jwt : String) (r : Result A)
      → Emits KeepsKeys {A = Result A} (if b then upload w request jwt (lift r) else lift r)
  unfolding upload
  branch-Emits true request jwt r =
      Emits-then (Emits-wrapping _ _ (Emits-perform_check (Call.connect_system _ _) _ refl refl))
        λ _. Emits-deferred Call.disconnect_system refl (
          Emits-then
            (Emits-wrapping _ _ (Emits-perform_check (Call.upload_account_jwt jwt) _ refl refl))
            λ _. Emits-lift r)
  branch-Emits false request jwt r = Emits-lift r

  upload-Emits :
      {A : Type 0} (request : AccountRequest) (jwt hash : String) (r : Result A)
      → Emits KeepsKeys (upload_if_changed w request jwt hash (lift r))
  unfolding upload_if_changed
  upload-Emits request jwt hash r = branch-Emits (needs_upload w request hash) request jwt r

  publish-Emits :
      (request : AccountRequest) (keys : Keys) → Emits KeepsKeys (publish w request keys)
  unfolding publish
  publish-Emits request keys = Emits-then (Emits-lift _) λ _. Emits-then (Emits-lift _) λ _.
      Emits-then (Emits-lift _) λ built. Emits-then (Emits-lift _) λ key.
        Emits-then (Emits-wrapping _ _ (sign-Emits w (λ _ _. (refl, refl)) built.0 key))
          λ signed. Emits-then (Emits-lift _) λ hash. upload-Emits request signed.0 hash _

  obtain-Emits :
      (request : AccountRequest) (found : Lookup)
      → found.found ≡ true
      → Emits KeepsKeys (obtain_keys w request found)
  unfolding obtain_keys
  obtain-Emits request found yes' = rw yes' (Emits-lift _)

  -- An update, `CreateOrUpdate` with an account ID, never makes a key pair and never stores or
  -- deletes a secret, on any branch and whatever the calls answer.
  pub create_or_update-Emits :
      (request : AccountRequest)
      → (request.account_id == "") ≡ false
      → Emits KeepsKeys (create_or_update w request)
  unfolding create_or_update
  create_or_update-Emits request known = Emits-then (Emits-lift _) λ _.
      Emits-then (Emits-secrets w _ _ lookup_keeps) λ found. Emits-lift-then _ _ λ _ p.
        Emits-then (obtain-Emits request found (check_secrets-found request found known p))
          λ keys. publish-Emits request keys
