-- ===== src/Account/Keys/Calls.antt =====
-- The steps that the operations of `AccountManager` share, and the calls that they make.
use nauth.Common.{String, ◌≡◌, refl, ok, ok-injective, Option, none, some, ap}
use nauth.Domain.Names.{NamespacedName}
use nauth.Effects.{Event, History, Plain}
use nauth.Effects.Emits.{Emits, Emits-only, Emits-weaken}
use nauth.Secrets.Lookups.Calls.{IsLookup, get_secrets-Emits}
use nauth.Account.Keys.{Setting, dereference, call, secrets_of}

module _ {P : Event → Type 0} where
  pub Emits-call : {A : Type 0} {m : Plain A} → Emits P m → Emits P (call m)
  unfolding call
  Emits-call em = Emits-only em (λ h. refl)

  pub Emits-secrets :
      (w : Setting) (ref : NamespacedName) (id : String)
      → ((e : Event) → IsLookup e → P e)
      → Emits P (call (secrets_of w ref id))
  Emits-secrets w ref id weaken =
      Emits-call (Emits-weaken weaken (get_secrets-Emits w.k8s w.jwt w.world ref id))

pub call-eq-ok :
    {A : Type 0} (m : Plain A) (h : History) {a : A}
    → (call m h).0 ≡ ok a
    → ((m h).0 ≡ a) × ((call m h).1 ≡ (m h).1)
unfolding call
call-eq-ok m h e = (ok-injective e, refl)

pub dereference-eq-ok : {A : Type 0} (o : Option A) {a : A} → dereference o ≡ ok a → o ≡ some a
dereference-eq-ok none e = cc
dereference-eq-ok (some a) e = ap some (ok-injective e)
