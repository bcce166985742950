-- ===== src/Tests/Fixtures.antt =====
-- A concrete cluster and requests for the tests.
use nauth.Common.{pos, String, true, false, none, some, List, [], ◌∷◌, ok, err, errorf}
use nauth.Api
use nauth.Api.Accounts
use nauth.Api.Accounts.{account_label_account_id}
use nauth.Domain.Names.{NamespacedName}
use nauth.Domain.Cluster.{ClusterTarget}
use nauth.Domain.Account
use nauth.Domain.Account.{AccountRequest, AccountReference}
use nauth.Effects
use nauth.Effects.{World, K8sSecret}
use nauth.Secrets.{
  label_secret_type, secret_type_account_root, secret_type_account_sign, default_secret_key_name,
}
use nauth.Account.Keys.{Setting}
pub use nauth.Tests.Libraries.{
  no_limit, fresh_limits, fresh_claims, fresh_user, key, library, k8s, hashing,
}

abbrev pub stored : String → String → K8sSecret
stored type seed = record {
  labels = (label_secret_type, type) ∷ [];
  contents = (default_secret_key_name, seed) ∷ [];
}

-- An account "a" in the namespace "ns" with the ID "A".
abbrev pub account_meta : Api.ObjectMeta
account_meta = record {
  name = "a";
  namespace = "ns";
  uid = "u-a";
  generation = pos 3;
  creation_timestamp = 7;
  deletion_timestamp = none;
  labels = (account_label_account_id, "A") ∷ [];
  finalizers = "account.nauth.io/finalizer" ∷ [];
}

abbrev pub account_spec : Accounts.AccountSpec
account_spec = record {
  nats_cluster_ref = none;
  display_name = "a";
  jet_stream_enabled = none;
  account_limits = none;
  exports = [];
  imports = [];
  jet_stream_limits = none;
  nats_limits = none;
}

abbrev pub account : Accounts.Account
account = record {
  meta = account_meta;
  spec = account_spec;
  status = record {
    claims = none;
    claims_hash = "";
    adoptions = none;
    conditions = [];
    observed_generation = pos 0;
    reconcile_timestamp = 0;
    operator_version = "";
  };
}

-- A cluster with the secrets of the account "A", whose signing key is "S".
abbrev pub world : World
world = record {
  create_account = λ h. ok (key "A");
  get_account = λ h n. ok account;
  get_export = λ h n. err (errorf "not found" []);
  get_import = λ h n. err (errorf "not found" []);
  update_account = λ h a. ok a;
  patch_account = λ h a. ok a;
  update_account_status = λ h a. ok a;
  patch_export = λ h e. ok e;
  update_export_status = λ h e. ok e;
  patch_import = λ h i. ok i;
  update_import_status = λ h i. ok i;
  get_nats_cluster = λ h n. err (errorf "not found" []);
  get_config_map = λ h n. ok ([], []);
  update_nats_cluster = λ h c. ok c;
  update_nats_cluster_status = λ h c. ok c;
  list_cluster_accounts = λ h uid. ok [];
  list_accounts = λ h n id. ok [];
  list_exports_by_name = λ h n name. ok [];
  list_imports_by_name = λ h n name. ok [];
  list_imports_by_export = λ h name. ok [];
  list_users = λ h n id. ok [];
  list_exports = λ h n id. ok [];
  list_imports = λ h n id. ok [];
  create_user = λ h. ok (key "U");
  get_secret = λ h n. ok none;
  get_secrets_by_labels =
      λ h n l. ok (stored secret_type_account_root "A" ∷ stored secret_type_account_sign "S" ∷ []);
  apply_secret = λ h m v. none;
  delete_secret = λ h n. none;
  delete_secrets_by_labels = λ h n l. none;
  label_secret = λ h n l. none;
  connect_system = λ h u c. none;
  connect_account = λ h u c. none;
  verify_system_account_access = λ h. none;
  lookup_account_jwt = λ h a. ok "jwt";
  upload_account_jwt = λ h j. none;
  delete_account_jwt = λ h j. none;
  list_account_streams = λ h. ok [];
  get_account_id = λ h n. ok "A";
  get_target = λ h r. err (errorf "not found" []);
  encode_account_claims = λ h c k. ok ("jwt", c);
  encode_deletion = λ h o a k. ok "deletion";
  encode_user_claims = λ h c k. ok ("user", c);
  now = λ h. 0;
  schedule = λ h. Effects.Schedule.root_then_sign;
  root_sends_first = λ h. true;
}

abbrev pub setting : Setting
setting = record { k8s = k8s; jwt = library; hashing = hashing; world = world }

abbrev pub account_ref : NamespacedName
account_ref = record { namespace = "ns"; name = "acc" }

abbrev pub cluster : ClusterTarget
cluster = record {
  uid = "uid";
  nats_url = "nats://host";
  system_admin_creds = record { creds = "creds"; account_id = "SYS" };
  operator_signing_key = some (key "O");
}

abbrev pub reference : AccountReference
reference = record { account_ref = account_ref; account_id = "A"; cluster_target = cluster }

abbrev pub export : String → Account.Export
export subject = record {
  name = "";
  subject = subject;
  type = "stream";
  token_req = false;
  revocations = none;
  response_type = "";
  response_threshold = pos 0;
  latency = none;
  account_token_position = 0;
  advertise = false;
  allow_trace = false;
}

abbrev pub import_of : String → Account.Import
import_of subject = record {
  account_id = "B";
  name = "";
  subject = subject;
  local_subject = "";
  type = "stream";
  share = false;
  allow_trace = false;
}

abbrev pub export_groups : List Account.ExportGroup
export_groups =
    record { ref = "one"; required = true; name = "one"; exports = export "a.>" ∷ [] }
    ∷ record { ref = "two"; required = false; name = "two"; exports = export "b" ∷ [] }
    ∷ []

abbrev pub import_groups : List Account.ImportGroup
import_groups =
    record { ref = "one"; required = true; name = "one"; imports = import_of "a.>" ∷ [] }
    ∷ record { ref = "two"; required = false; name = "two"; imports = import_of "b" ∷ [] }
    ∷ []

-- The request for an update of the account "A", of which an older JWT was uploaded.
abbrev pub request : AccountRequest
request = record {
  account_ref = account_ref;
  account_id = "A";
  claims_hash = "older";
  display_name = "";
  cluster_target = cluster;
  account_limits = none;
  jet_stream_enabled = some false;
  jet_stream_limits = none;
  nats_limits = none;
  export_groups = export_groups;
  import_groups = import_groups;
}
