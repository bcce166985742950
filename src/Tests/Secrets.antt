-- ===== src/Tests/Secrets.antt =====
-- The theorems about secrets at a concrete cluster.
use nauth.Common.{[]}
use nauth.Domain.Names
use nauth.Effects.Fallible
use nauth.Secrets.{Secrets}
use nauth.Secrets.Lookups.Apply
use nauth.Secrets.Lookups.{get_secrets}
use nauth.Secrets.Lookups.Found.{IsSound, get_secrets-IsSound}
use nauth.Tests.Fixtures.{library, k8s, world, account_ref, key}

abbrev keys : Secrets
keys = record { root = key "A"; sign = key "S" }

get_secrets-IsSound_example :
    IsSound library "A" (get_secrets k8s library world account_ref "A" []).0
get_secrets-IsSound_example = get_secrets-IsSound k8s library world account_ref "A" []
