-- ===== src/Account/Connections/Steps.antt =====
-- The steps of operations over connections of the system account: internal/core/account.go.
use nauth.Common.{String, [], Result, refl}
use nauth.Domain.Names.{NamespacedName}
use nauth.Domain.Cluster.{ClusterTarget}
use nauth.Effects.{Call, Event, done, failed, Fallible, perform_check, deferred}
use nauth.Effects.Fallible.{◌>>=◌, lift, wrapping}
use nauth.Effects.Emits.{Emits-lift}
use nauth.Effects.Connections.{IsBalanced, IsNeutral, IsBalanced-neutral, IsBalanced-connection}
use nauth.Secrets.Lookups.Calls.{IsLookup}
use nauth.Account.Keys.{Setting, call, secrets_of}
use nauth.Account.Keys.Calls.{Emits-secrets}

pub neutral_lookup : (e : Event) → IsLookup e → IsNeutral e
neutral_lookup (done (Call.get_secret _)) h = (refl, refl)
neutral_lookup (done (Call.get_secrets_by_labels _ _)) h = (refl, refl)
neutral_lookup (done (Call.label_secret _ _)) h = (refl, refl)
neutral_lookup (failed _) h = (refl, refl)
neutral_lookup (done _) h = cc

pub IsBalanced-lift : {A : Type 0} (r : Result A) → IsBalanced (lift r)
IsBalanced-lift r = IsBalanced-neutral (Emits-lift r)

-- The two halves of neutrality, at a call that neither opens nor closes a connection.
abbrev pub neutral : IsNeutral (failed Call.create_user)
neutral = (refl, refl)

-- Over a connection of the system account.
abbrev pub system : {B : Type 0} → Setting → ClusterTarget → String → Fallible B → Fallible B
system w cluster format body =
    wrapping format [] (
      perform_check (Call.connect_system cluster.nats_url cluster.system_admin_creds)
        (λ h. w.world.connect_system h cluster.nats_url cluster.system_admin_creds))
    >>= λ _. deferred Call.disconnect_system body

module _ (w : Setting) where
  pub secrets-IsBalanced :
      (ref : NamespacedName) (id : String) → IsBalanced (call (secrets_of w ref id))
  secrets-IsBalanced ref id = IsBalanced-neutral (Emits-secrets w ref id neutral_lookup)

  pub system-IsBalanced :
      {B : Type 0} (cluster : ClusterTarget) (format : String) {body : Fallible B}
      → IsBalanced body
      → IsBalanced (system w cluster format body)
  system-IsBalanced cluster format {body} within =
      IsBalanced-connection (Call.connect_system cluster.nats_url cluster.system_admin_creds)
        Call.disconnect_system format [] body (refl, refl) (refl, refl) within
        (λ h. w.world.connect_system h cluster.nats_url cluster.system_admin_creds)
