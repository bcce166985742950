-- ===== src/Api/Clusters.antt =====
-- api/v1alpha1/natscluster_types.go: the NATS clusters that accounts are bound to.
use nauth.Common.{ℕ, ℤ, String, Option, List}
use nauth.Api.{ObjectMeta, Condition}

abbrev pub url_from_kind_config_map : String
url_from_kind_config_map = "ConfigMap"

abbrev pub url_from_kind_secret : String
url_from_kind_secret = "Secret"

pub record SecretKeyReference : Type 0 where
  pub name : String
  pub key : String

pub record UrlFromReference : Type 0 where
  pub kind : String
  pub name : String
  pub namespace : String
  pub key : String

pub record NatsClusterSpec : Type 0 where
  pub url : String
  pub url_from : Option UrlFromReference
  pub operator_signing_key_secret_ref : SecretKeyReference
  pub system_account_user_creds_secret_ref : SecretKeyReference

pub record NatsClusterStatus : Type 0 where
  pub conditions : List Condition
  pub observed_generation : ℤ
  pub reconcile_timestamp : ℕ
  pub operator_version : String

pub record NatsCluster : Type 0 where
  pub meta : ObjectMeta
  pub spec : NatsClusterSpec
  pub status : NatsClusterStatus
