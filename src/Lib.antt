-- ===== src/Lib.antt =====
-- NAuth, a Kubernetes operator that manages NATS accounts: a model of its core, its domain and its
-- controllers (internal/core, internal/domain, internal/adapter), and theorems about it.
--
-- The parts and how they interact. The controller of accounts reconciles a resource: it gives it a
-- finalizer, binds it to a NATS cluster by a label, turns it with the exports and imports that are
-- bound to it into an account request, calls the account manager, and stores what comes of it in
-- labels and in the status. The controllers of exports and imports check their rules, store the
-- claim that an account is to adopt, and read in the status of the account whether it has adopted
-- it; a change of one of these resources has the others looked at. The controller of clusters
-- resolves a cluster to its target, by the cluster client, and connects to it. The account manager
-- looks up the account's key pairs in secrets of the cluster, or makes and stores new ones; builds
-- the claims of the account from the request and from groups of exports and imports, which it
-- adopts one by one; signs them with the operator's key; and uploads the JWT to NATS if the hash
-- of the claims has changed. It also imports accounts from NATS, deletes them, and signs the JWTs
-- of users, which the user manager asks for, turns into credentials and stores. The cluster
-- manager chooses the NATS cluster of an account.
--
-- The files and the code that they model:
--   Jwt                what the program uses of the libraries jwt and nkeys: a record of parameters
--   Domain/Names       internal/domain/k8s.go: NamespacedName, Validate, ParseNamespacedName
--   Domain/Creds       internal/domain/nats.go: NatsUserCreds
--   Domain/Cluster     internal/domain/nauth/cluster.go: ClusterTarget, ClusterRef
--   Domain/Account     internal/domain/nauth/account.go: AccountRequest.Validate and the data
--   Domain/Adoptions   internal/domain/nauth/account.go: AdoptionResults.Add, Get
--   Claims/Items       internal/core/account_claims.go: toJWTExport, toNAuthExport and their like
--   Claims/Merge       internal/core/account_claims.go: mergeJWTItems
--   Claims/Limits      internal/core/account_claims.go: limits, written to claims and read back
--   Claims/Builder     internal/core/account_claims.go: accountClaimsBuilder
--   Claims/Convert     internal/core/account_claims.go: convertNatsAccountClaims
--   Claims/Hash        internal/core/account_claims.go: hashSignedAccountJWTClaims
--   Effects            internal/ports/outbound: the calls that the core makes
--   Secrets            internal/core/secret.go: ApplyRootSecret, ApplySignSecret, DeleteAll
--   Secrets/Reading    internal/core/secret.go: key pairs from secrets, lookups by labels
--   Secrets/Lookups    internal/core/secret.go: GetSecrets and the readers of deprecated secrets
--   Secrets/Lookups/Serving
--                      a cluster that answers lookups with the secrets that were applied to it
--   Account/Adopt      internal/core/account.go: adoptExportGroups, adoptImportGroups
--   Account/Keys       internal/core/account.go: what the operations share
--   Account/Create     internal/core/account.go: CreateOrUpdate
--   Account/Import     internal/core/account.go: Import, FindAccountID
--   Account/Delete     internal/core/account.go: Delete
--   Account/Sign       internal/core/account.go: SignUserJWT
--   Cluster            internal/core/cluster.go, internal/core/config.go
--   Domain/Errors      internal/domain/errors.go: Error, Is, WithCause
--   Api                api/v1alpha1: metadata and conditions, and the Kubernetes library as a record
--   Api/Accounts, Api/Exports, Api/Imports, Api/Clusters
--                      api/v1alpha1: account_types.go, account_export_types.go,
--                      account_import_types.go, natscluster_types.go
--   Controller         internal/adapter/inbound/controller: constants.go, and below it, of the same
--                      folder,
--     Converter        account_converter.go: limits, references, types and rules
--     Converter/Order  account_converter.go: compareObjectOrder, the order of resources
--     Converter/Groups account_converter.go: groups of exports and imports, inline and bound
--     Converter/Claims account_converter.go: claims and adoptions for the status
--     Status           status.go, condition.go, kubernetes.go, adoption.go
--     Requests         account.go: toAccountRequest and what it lists
--     Deletion         account.go: deleteAccount, validateAccountDeletion
--     Accounts         account.go: Reconcile
--     Exports          account_export.go: Reconcile
--     References       account_import.go: getConditionedAccount
--     Imports          account_import.go: Reconcile
--     Watches          account_export.go, account_import.go: which updates of accounts count
--     Watches/Claims   account.go: which updates of exports and imports count
--     Watches/Requests the same files: what is looked at then, and the indices of lists
--     Clusters         natscluster.go: Reconcile, mapAccountToCluster
--     Clusters/Cases   the cases of that Reconcile, told by the cluster and the calls
--   Adapter/Accounts   internal/adapter/outbound/k8s/account.go: AccountClient
--   Adapter/Clusters   internal/adapter/outbound/k8s: cluster.go, ConfigMapClient of configmap.go
--   User               internal/core/user.go: CreateOrUpdate and Delete of users
--   User/Claims        internal/core/user_claims.go, with the types of api/v1alpha1
--   Common, Tests      shared names and lemmas; concrete inputs
-- The names are those of the code in the spelling of this language. Children of a module hold its
-- lemmas and are named for what they prove.
--
-- State and effects. A call through an outbound port is an event of a history, the latest first,
-- and its answer is an arbitrary function of the history and the arguments, so theorems hold for
-- every behaviour of Kubernetes and NATS. A write of a resource is such a call: its answer is the
-- resource as the server has it by then. Texts for people keep their formats and arguments. A
-- fallible operation returns a value or an error beside the history; a deferred call is made on
-- every way out. Errors keep the formats and causes of the code, but are not printed. A pointer
-- that may be nil is an Option; the use of a nil pointer ends the operation in an error of its
-- own. The two goroutines that read deprecated secrets are run by one of six schedules, which the
-- world chooses. Maps are lists of entries.
--
-- Bounds and fuel. All recursion is on lists and strings, so nothing runs on fuel. Limits are
-- integers without a bound: the code copies and compares them and does no arithmetic on them.
--
-- Not modelled: the controller of users, the secret client and the NATS client in
-- internal/adapter/outbound, the wiring of the controllers, logging, the times of conditions,
-- generated code, cmd/main.go and the tests' tools; and of the claims of an account, in Jwt, the
-- fields that the program neither reads nor writes, such as mappings and default permissions. For the core the cluster and account clients
-- are calls with arbitrary answers, which Adapter models beside it. The libraries (JWT, NKeys,
-- Kubernetes) are parameters, of which nothing is assumed beyond the hypotheses that a theorem
-- names: for conditions, IsDocumented in Api.
pub mod Common
pub mod Jwt
pub mod Domain
pub mod Claims
pub mod Effects
pub mod Secrets
pub mod Account
pub mod Adapter
pub mod Api
pub mod Cluster
pub mod Controller
pub mod User
pub mod Tests
