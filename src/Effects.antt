-- ===== src/Effects.antt =====
-- The calls that internal/core makes through its outbound ports (internal/ports/outbound) and for
-- new keys, and those that the controllers make of the Kubernetes client. A history lists the
-- calls made so far, the latest first; what a call answers is any function of the history and of
-- its arguments, so that nothing is assumed of the other side.
pub mod Plain
pub mod Fallible
pub mod Emits
pub mod Inversion
pub mod Connections
use nauth.Common.{StringMap, ℕ, String, Bool, Option, List, [], ◌∷◌, Error, Result, ok, err, check}
use nauth.Jwt.{KeyPair}
use nauth.Jwt
use nauth.Api
use nauth.Api.Accounts.{Account}
use nauth.Api.Exports.{AccountExport}
use nauth.Api.Imports.{AccountImport}
use nauth.Api.Clusters.{NatsCluster}
use nauth.Domain.Names.{NamespacedName}
use nauth.Domain.Creds.{NatsUserCreds}
use nauth.Domain.Cluster.{ClusterTarget, ClusterRef}

-- Calls of the Kubernetes client and of the recorder of events by the controllers. Lists of exports,
-- imports and users are of those in a namespace with the label of an account.
pub data KubeCall : Type 0 where
  get_account get_export get_import : NamespacedName → KubeCall
  update_account patch_account update_account_status : Account → KubeCall
  patch_export update_export_status : AccountExport → KubeCall
  patch_import update_import_status : AccountImport → KubeCall
  list_users list_exports list_imports : String → String → KubeCall
  get_nats_cluster get_config_map : NamespacedName → KubeCall
  update_nats_cluster update_nats_cluster_status : NatsCluster → KubeCall
  -- Of the accounts that are bound to the cluster with a UID, in all namespaces.
  list_cluster_accounts : String → KubeCall
  -- Of the accounts in a namespace with an ID.
  list_accounts : String → String → KubeCall
  -- Of those in a namespace with the name of an account in their spec.
  list_exports_by_name list_imports_by_name : String → String → KubeCall
  -- Of the imports with the namespaced name of the exporting account.
  list_imports_by_export : String → KubeCall
  record_error : Error → KubeCall

pub record ObjectMeta : Type 0 where
  pub name : String
  pub namespace : String
  pub labels : StringMap

pub record K8sSecret : Type 0 where
  pub labels : StringMap
  pub contents : StringMap

pub data Call : Type 0 where
  create_account create_user : Call
  get_secret : NamespacedName → Call
  get_secrets_by_labels : String → StringMap → Call
  apply_secret : ObjectMeta → StringMap → Call
  delete_secret : NamespacedName → Call
  delete_secrets_by_labels : String → StringMap → Call
  label_secret : NamespacedName → StringMap → Call
  connect_system connect_account : String → NatsUserCreds → Call
  disconnect_system disconnect_account : Call
  verify_system_account_access : Call
  lookup_account_jwt upload_account_jwt delete_account_jwt : String → Call
  list_account_streams : Call
  get_account_id : NamespacedName → Call
  get_target : ClusterRef → Call
  encode_account_claims : Jwt.AccountClaims → KeyPair → Call
  encode_deletion : String → String → KeyPair → Call
  encode_user_claims : Jwt.UserClaims → KeyPair → Call
  kube : KubeCall → Call

pub data Event : Type 0 where
  done failed : Call → Event

abbrev pub History : Type 0
History = List Event

-- Which of the two readers of deprecated secrets moves first, and which is done first.
pub data Schedule : Type 0 where
  root_alone_first sign_alone_first root_then_sign root_around_sign : Schedule
  sign_then_root sign_around_root : Schedule

pub record World : Type 0 where
  pub create_account : History → Result KeyPair
  pub create_user : History → Result KeyPair
  pub get_secret : History → NamespacedName → Result (Option StringMap)
  pub get_secrets_by_labels : History → String → StringMap → Result (List K8sSecret)
  pub apply_secret : History → ObjectMeta → StringMap → Option Error
  pub delete_secret : History → NamespacedName → Option Error
  pub delete_secrets_by_labels : History → String → StringMap → Option Error
  pub label_secret : History → NamespacedName → StringMap → Option Error
  pub connect_system : History → String → NatsUserCreds → Option Error
  pub connect_account : History → String → NatsUserCreds → Option Error
  pub verify_system_account_access : History → Option Error
  pub lookup_account_jwt : History → String → Result String
  pub upload_account_jwt : History → String → Option Error
  pub delete_account_jwt : History → String → Option Error
  pub list_account_streams : History → Result (List String)
  pub get_account_id : History → NamespacedName → Result String
  pub get_target : History → ClusterRef → Result ClusterTarget
  -- `Encode` of the JWT library, which reads the clock: the JWT, and the claims as it leaves them.
  pub encode_account_claims :
      History → Jwt.AccountClaims → KeyPair → Result (String × Jwt.AccountClaims)
  -- The JWT that asks for the deletion of an account, from the operator's key and the account.
  pub encode_deletion : History → String → String → KeyPair → Result String
  pub encode_user_claims : History → Jwt.UserClaims → KeyPair → Result (String × Jwt.UserClaims)
  pub get_account : History → NamespacedName → Result Account
  pub get_export : History → NamespacedName → Result AccountExport
  pub get_import : History → NamespacedName → Result AccountImport
  -- A write answers with the resource as the server has it afterwards.
  pub update_account : History → Account → Result Account
  pub patch_account : History → Account → Result Account
  pub update_account_status : History → Account → Result Account
  pub patch_export : History → AccountExport → Result AccountExport
  pub update_export_status : History → AccountExport → Result AccountExport
  pub patch_import : History → AccountImport → Result AccountImport
  pub update_import_status : History → AccountImport → Result AccountImport
  pub get_nats_cluster : History → NamespacedName → Result NatsCluster
  -- `Data` and `BinaryData` of a config map.
  pub get_config_map : History → NamespacedName → Result (StringMap × StringMap)
  pub update_nats_cluster : History → NatsCluster → Result NatsCluster
  pub update_nats_cluster_status : History → NatsCluster → Result NatsCluster
  pub list_cluster_accounts : History → String → Result (List Account)
  pub list_accounts : History → String → String → Result (List Account)
  pub list_exports_by_name : History → String → String → Result (List AccountExport)
  pub list_imports_by_name : History → String → String → Result (List AccountImport)
  pub list_imports_by_export : History → String → Result (List AccountImport)
  -- Of users only their number counts.
  pub list_users : History → String → String → Result (List Api.ObjectMeta)
  pub list_exports : History → String → String → Result (List AccountExport)
  pub list_imports : History → String → String → Result (List AccountImport)
  -- The clock, in seconds since 1970.
  pub now : History → ℕ
  pub schedule : History → Schedule
  pub root_sends_first : History → Bool

abbrev pub Plain : Type 0 → Type 0
Plain A = History → A × History

-- A call that also returns an error.
abbrev pub Fallible : Type 0 → Type 0
Fallible A = Plain (Result A)

abbrev pub outcome {ℓ} : {A : Type ℓ} → Call → Result A → Event
outcome c (ok _) = done c
outcome c (err _) = failed c

-- Makes a call and takes note of it.
unfoldable pub perform : {A : Type 0} → Call → (History → Result A) → Fallible A
perform c answer h = let r = answer h in (r, outcome c r ∷ h)

unfoldable pub perform_check : Call → (History → Option Error) → Fallible (Unit {0})
unfolding perform
perform_check c answer = perform c (λ h. check (answer h))

-- `defer`: the call is made when the rest returns, whatever it returns.
unfoldable pub deferred : {A : Type 0} → Call → Fallible A → Fallible A
deferred c m h = let (r, h') = m h in (r, done c ∷ h')
