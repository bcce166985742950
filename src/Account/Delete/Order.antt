-- ===== src/Account/Delete/Order.antt =====
-- The order of the calls of `Delete`: internal/core/account.go.
use nauth.Common.{
  String, Bool, true, false, Option, none, some, List, [], ◌∷◌, ◌++◌, All, Error, Result, ok, err,
  check, ◌≡◌, refl, sym, subst, Bool-cases, inl, inr, ◌⊎◌,
}
use nauth.Domain.Cluster.{ClusterTarget}
use nauth.Domain.Account.{AccountReference}
use nauth.Effects.{
  Call, Event, done, failed, History, Fallible, deferred, perform_check, perform, outcome,
}
use nauth.Effects.Fallible.{◌>>=◌, lift, wrapping, continue}
use nauth.Effects.Emits.{
  Emits, Emits-then, Emits-perform, Emits-perform_check, Emits-deferred, Emits-wrapping,
  Emits-return, Emits-lift, call_of,
}
use nauth.Secrets.{Secrets, delete_all}
use nauth.Secrets.Reading.{Lookup}
use nauth.Secrets.Lookups.Calls.{is_lookup, IsLookup}
use nauth.Account.Keys.{Setting}
use nauth.Account.Keys.Calls.{Emits-secrets}
use nauth.Account.Delete.Credentials.{credentials-Emits}
use nauth.Account.Delete.{
  list_account_streams, require_no_streams, check_streams, delete_jwt_and_secrets, delete,
}

abbrev pub deletes_secrets : Call → Bool
deletes_secrets (Call.delete_secrets_by_labels _ _) = true
deletes_secrets (Call.delete_secret _) = true
deletes_secrets _ = false

-- Whether the latest call is a deletion of the account's JWT that succeeded.
abbrev pub jwt_deleted : History → Bool
jwt_deleted (done (Call.delete_account_jwt _) ∷ h) = true
jwt_deleted _ = false

-- Secrets are deleted only right after the JWT has been deleted.
abbrev pub IsOrdered : History → Type 0
IsOrdered [] = Unit
IsOrdered (e ∷ h) = ((deletes_secrets (call_of e) ≡ false) ⊎ (jwt_deleted h ≡ true)) × IsOrdered h

abbrev KeepsSecrets : Event → Type 0
KeepsSecrets e = deletes_secrets (call_of e) ≡ false

keeps_of_lookup : (c : Call) → is_lookup c ≡ true → deletes_secrets c ≡ false
keeps_of_lookup (Call.get_secret _) h = refl
keeps_of_lookup (Call.get_secrets_by_labels _ _) h = refl
keeps_of_lookup (Call.label_secret _ _) h = refl
keeps_of_lookup _ h = cc

append-IsOrdered :
    (es : List Event) (h : History) → All KeepsSecrets es → IsOrdered h → IsOrdered (es ++ h)
append-IsOrdered [] h _ o = o
append-IsOrdered (e ∷ es) h (keeps, all) o = (inl keeps, append-IsOrdered es h all o)

-- A step that keeps the order, whatever history it starts from.
record Ordered {A : Type 0} (m : Fallible A) : Type 0 where
  keeps : (h : History) → IsOrdered h → IsOrdered (m h).1

emitting_keeps_order : {A : Type 0} {m : Fallible A} → Emits KeepsSecrets m → Ordered m
emitting_keeps_order em = record {
  keeps = λ h o.
      let (es, added, all) = em.events h in
      subst IsOrdered (sym added) (append-IsOrdered es h all o);
}

continue-Ordered :
    {A B : Type 0} (f : A → Fallible B) (r : Result A)
    → ((a : A) → Ordered (f a))
    → Ordered (continue f r)
unfolding continue
continue-Ordered f (ok a) of = record { keeps = λ h o. (of a).keeps h o }
continue-Ordered f (err e) of = record { keeps = λ h o. o }

Ordered-then :
    {A B : Type 0} {m : Fallible A} {f : A → Fallible B}
    → Ordered m
    → ((a : A) → Ordered (f a))
    → Ordered (m >>= f)
unfolding ◌>>=◌
Ordered-then {m} {f} om of = record {
  keeps = λ h o. (continue-Ordered f (m h).0 of).keeps (m h).1 (om.keeps h o);
}

module _ (w : Setting) where
  streams-Emits :
      (cluster : ClusterTarget) (secrets : Secrets) (id : String)
      → Emits KeepsSecrets (list_account_streams w cluster secrets id)
  unfolding list_account_streams
  streams-Emits cluster secrets id =
      Emits-then
        (Emits-wrapping _ _
          (credentials-Emits w (refl, refl) (λ _ _. (refl, refl)) id secrets.root))
        λ creds.
          Emits-then
            (Emits-wrapping _ _ (Emits-perform_check (Call.connect_account _ _) _ refl refl))
            λ _.
              Emits-deferred Call.disconnect_account refl
                (Emits-wrapping _ _ (Emits-perform Call.list_account_streams _ refl refl))

  require-Emits :
      (cluster : ClusterTarget) (id : String) (found : Lookup)
      → Emits KeepsSecrets (require_no_streams w cluster id found)
  unfolding require_no_streams
  require-Emits cluster id found = Emits-then (Emits-lift _) λ secrets.
      Emits-then (Emits-wrapping _ _ (streams-Emits cluster secrets id)) λ names. Emits-lift _

  check-Emits :
      (cluster : ClusterTarget) (id : String) (found : Lookup)
      → Emits KeepsSecrets (check_streams w cluster id found)
  unfolding check_streams
  check-Emits cluster id found = elim (Bool-cases found.found) [
    | inl yes' ↦ rw (yes', check_streams) (require-Emits cluster id found)
    | inr no' ↦ rw (no', check_streams) (Emits-return tt)
  ]

lift-then-keeps :
    {A B : Type 0} (r : Result A) (f : A → Fallible B) (h : History)
    → IsOrdered h
    → ((a : A) → IsOrdered (f a h).1)
    → IsOrdered ((lift r >>= f) h).1
unfolding ◌>>=◌ lift continue
lift-then-keeps (ok a) f h o of = of a
lift-then-keeps (err e) f h o of = o

-- What follows a call that returns only an error, by the two outcomes of the call.
answer-then-keeps :
    {B : Type 0} (format : String) (c : Call) (answer : Option Error) (f : Unit {0} → Fallible B)
    (h : History)
    → IsOrdered (failed c ∷ h)
    → IsOrdered (f tt (done c ∷ h)).1
    → IsOrdered ((wrapping format [] (perform_check c (λ _. answer)) >>= f) h).1
unfolding ◌>>=◌ wrapping perform_check perform continue
answer-then-keeps format c none f h bad good = good
answer-then-keeps format c (some e) f h bad good = bad

check-then-keeps :
    {B : Type 0} (format : String) (c : Call) (answer : History → Option Error)
    (f : Unit {0} → Fallible B) (h : History)
    → IsOrdered (failed c ∷ h)
    → IsOrdered (f tt (done c ∷ h)).1
    → IsOrdered ((wrapping format [] (perform_check c answer) >>= f) h).1
unfolding ◌>>=◌ wrapping perform_check perform
check-then-keeps format c answer f h bad good = answer-then-keeps format c (answer h) f h bad good

outcome-IsOrdered :
    {A : Type 0} (c : Call) (r : Result A) (h : History)
    → jwt_deleted h ≡ true
    → IsOrdered h
    → IsOrdered (outcome c r ∷ h)
outcome-IsOrdered c r h deleted o = (inr deleted, o)

module _ (w : Setting) where
  secrets-keeps :
      (reference : AccountReference) (h : History)
      → IsOrdered h
      → jwt_deleted h ≡ true
      → IsOrdered
          (delete_all w.k8s w.jwt w.hashing w.world reference.account_ref reference.account_id h).1
  unfolding delete_all perform_check perform
  secrets-keeps reference h o deleted = lift-then-keeps _ _ h o λ _.
      outcome-IsOrdered (Call.delete_secrets_by_labels _ _)
        (check (w.world.delete_secrets_by_labels h _ _)) h deleted o

  removed-keeps :
      (reference : AccountReference) (h : History)
      → IsOrdered h
      → jwt_deleted h ≡ true
      → IsOrdered
          (wrapping "failed to delete account secrets: %w" []
            (delete_all w.k8s w.jwt w.hashing w.world reference.account_ref reference.account_id)
            h).1
  unfolding wrapping
  removed-keeps reference h o deleted = secrets-keeps reference h o deleted

  removal-Ordered :
      (reference : AccountReference) (jwt : String)
      → Ordered (delete_jwt_and_secrets w reference jwt)
  unfolding delete_jwt_and_secrets deferred
  removal-Ordered reference jwt =
      Ordered-then
        (emitting_keeps_order
          (Emits-wrapping _ _ (Emits-perform_check (Call.connect_system _ _) _ refl refl)))
        λ _. record {
          keeps = λ h o. (
            inl refl,
            check-then-keeps _ (Call.delete_account_jwt jwt) (λ t. w.world.delete_account_jwt t jwt)
                _ h (inl refl, o) (removed-keeps reference _ (inl refl, o) refl),
          );
        }

  lookup_keeps : (e : Event) → IsLookup e → KeepsSecrets e
  lookup_keeps e h = keeps_of_lookup (call_of e) h

  delete-Ordered : (reference : AccountReference) → Ordered (delete w reference)
  unfolding delete
  delete-Ordered reference = Ordered-then (emitting_keeps_order (Emits-lift _)) λ _.
      Ordered-then (emitting_keeps_order (Emits-lift _)) λ operator_key_id.
        Ordered-then (emitting_keeps_order (Emits-lift _)) λ _.
          Ordered-then (emitting_keeps_order (Emits-secrets w _ _ lookup_keeps)) λ found.
            Ordered-then (emitting_keeps_order (Emits-lift _)) λ _.
              Ordered-then (emitting_keeps_order (check-Emits w reference.cluster_target _ found))
                λ _. Ordered-then (emitting_keeps_order (Emits-lift _)) λ operator_key.
                  Ordered-then
                    (emitting_keeps_order
                      (Emits-wrapping _ _ (Emits-perform (Call.encode_deletion _ _ _) _ refl refl)))
                    λ jwt. removal-Ordered reference jwt

  -- `Delete` only deletes secrets of an account right after the deletion of a JWT in NATS has
  -- succeeded: if the history has that order before it runs, it has it afterwards, on every branch
  -- and whatever the calls answer.
  pub delete-IsOrdered :
      (reference : AccountReference) (h : History)
      → IsOrdered h
      → IsOrdered (delete w reference h).1
  delete-IsOrdered reference h o = (delete-Ordered reference).keeps h o
