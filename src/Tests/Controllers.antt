-- ===== src/Tests/Controllers.antt =====
-- The theorems about the controllers of accounts and of their claims at concrete resources.
use nauth.Common.{
  lookup, String, pos, true, false, none, some, Option, List, [], ◌∷◌, ok, err, errorf, Error, refl,
}
use nauth.Account.Adopt
use nauth.Account.Create
use nauth.Account.Delete
use nauth.Account.Keys
use nauth.Claims.Builder
use nauth.Claims.Convert
use nauth.Claims.Hash
use nauth.Claims.Items
use nauth.Common
use nauth.Controller.Converter.Claims
use nauth.Controller.Converter.Groups
use nauth.Controller.Converter.Order
use nauth.Domain.Account
use nauth.Domain.Cluster
use nauth.Domain.Creds
use nauth.Domain.Names
use nauth.Effects
use nauth.Effects.Fallible
use nauth.Secrets
use nauth.Secrets.Lookups
use nauth.Secrets.Reading
use nauth.Domain.Cluster.{ClusterTarget}
use nauth.Effects.Emits.{Emits}
use nauth.Cluster.{Config}
use nauth.Account.Keys.{Setting}
use nauth.Api.{get_label}
use nauth.Api.Accounts
use nauth.Api.Accounts.{account_label_management_policy, account_management_policy_observe}
use nauth.Controller.Accounts.{reconcile_account}
use nauth.Controller.Accounts.Observed.{reconcile_account-Emits}
use nauth.Controller.Deletion.Observed.{IsObserving}
use nauth.Controller.Status
use nauth.Tests.Fixtures.{account, account_meta, world, setting, cluster}
use nauth.Tests.Machinery.{machinery}

abbrev config : Config
config = record {
  operator_nats_cluster = some (record { cluster_ref = "ns/main"; optional = false });
  operator_namespace = "";
}

-- The cluster "ns/main" exists here.
abbrev operated : Setting
operated = record setting { world = record world { get_target = λ h r. ok cluster } }

abbrev observed_account : Accounts.Account
observed_account = record account {
  meta = record account_meta {
    labels = (account_label_management_policy, account_management_policy_observe) ∷ [];
  };
}

reconcile_account-Emits_example :
    Emits IsObserving (reconcile_account operated machinery config "1.0" observed_account)
unfolding get_label lookup
reconcile_account-Emits_example =
    reconcile_account-Emits operated machinery config "1.0" observed_account refl

-- An account that nothing is bound to, and that is marked for deletion.
abbrev deleted_account : Accounts.Account
deleted_account = record account { meta = record account_meta { deletion_timestamp = some 9 } }
