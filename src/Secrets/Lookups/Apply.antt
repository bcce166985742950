-- ===== src/Secrets/Lookups/Apply.antt =====
-- Secrets that were applied are found again: internal/core/secret.go.
use nauth.Common.{String, Bool, true, none, some, ok, ◌≡◌}
use nauth.Jwt.{Library}
use nauth.Domain.Names.{K8s, NamespacedName}
use nauth.Domain.Names
use nauth.Effects.{Call, World, Fallible, Plain, History}
use nauth.Effects.Plain
use nauth.Secrets.{
  Secrets, Hashing, secret_meta, secret_value, root_name, sign_name, secret_type_account_root,
  secret_type_account_sign, apply_root_secret, apply_sign_secret,
}
use nauth.Secrets.Lookups.{get_secrets}
use nauth.Secrets.Reading.{
  Lookup, get_account_secrets_by_account_id, get_account_secrets_by_account_name,
}
use nauth.Secrets.Lookups.Serving.{serving}

module _ (k8s : K8s) (jwt : Library) (hashing : Hashing) (world : World) where
  module _ (account_ref : NamespacedName) (id : String) (keys : Secrets) where
    abbrev root_applied : String → Call
    root_applied seed =
        Call.apply_secret
          (secret_meta k8s jwt hashing account_ref id root_name secret_type_account_root)
          (secret_value k8s jwt hashing seed)

    abbrev sign_applied : String → Call
    sign_applied seed =
        Call.apply_secret
          (secret_meta k8s jwt hashing account_ref id sign_name secret_type_account_sign)
          (secret_value k8s jwt hashing seed)

    abbrev pub applying_root : Fallible (Unit {0})
    applying_root = apply_root_secret k8s jwt hashing world account_ref keys.root

    abbrev pub applying_sign : Fallible (Unit {0})
    applying_sign = apply_sign_secret k8s jwt hashing world account_ref id keys.sign

    abbrev pub complete : Lookup
    complete = record { secrets = some keys; found = true; error = none }

    -- The lookups by the account's ID and by its name both give the key pairs, and so does
    -- `GetSecrets`, with the ID and without it.
    abbrev pub AreFound : Bool → History → Type 0
    AreFound newest_first h =
        let cluster = serving world newest_first in
        let namespace = account_ref.namespace in
        ((get_account_secrets_by_account_id jwt cluster namespace id h).0 ≡ ok (some keys))
        × ((get_account_secrets_by_account_name jwt cluster account_ref h).0 ≡ ok (some keys))
        × ((get_secrets k8s jwt cluster account_ref id h).0 ≡ complete)
        × ((get_secrets k8s jwt cluster account_ref "" h).0 ≡ complete)

    -- What both lookups give on a history.
    abbrev AreListed : Bool → History → Type 0
    AreListed newest_first h =
        let cluster = serving world newest_first in
        let namespace = account_ref.namespace in
        ((get_account_secrets_by_account_id jwt cluster namespace id h).0 ≡ ok (some keys))
        × ((get_account_secrets_by_account_name jwt cluster account_ref h).0 ≡ ok (some keys))
