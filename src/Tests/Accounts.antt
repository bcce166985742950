-- ===== src/Tests/Accounts.antt =====
-- The theorems about the operations on accounts at a concrete cluster.
use nauth.Common.{
  String, false, none, some, [], ◌∷◌, ok, ◌≡◌, refl, join_all, ℤ-discrete, String-discrete,
}
use nauth.Jwt
use nauth.Domain.Names
use nauth.Domain.Creds
use nauth.Domain.Cluster
use nauth.Domain.Account
use nauth.Domain.Account.{validate_export_groups, validate_import_groups}
use nauth.Domain.Adoptions
use nauth.Domain.Adoptions.{AdoptionResult, AccountResult}
use nauth.Effects
use nauth.Effects.{Event, done, History}
use nauth.Effects.Emits.{Emits}
use nauth.Claims.Items
use nauth.Claims.Builder
use nauth.Claims.Builder.{new_account_claims_builder}
use nauth.Secrets.{Secrets}
use nauth.Secrets.Reading.{get_account_secrets_from_k8s_secrets}
use nauth.Effects.Fallible
use nauth.Secrets.Reading
use nauth.Secrets.Lookups
use nauth.Secrets.Lookups.{get_secrets}
use nauth.Account.Adopt.{adopt_export_groups, adopt_import_groups}
use nauth.Claims.Convert
use nauth.Claims.Limits
use nauth.Claims.Merge.{merge_jwt_items}
use nauth.Claims.Hash.{hash_signed_account_jwt_claims}
use nauth.Account.Keys.{secrets_of, call}
use nauth.Account.Create.{
  create_or_update, check_secrets, obtain_keys, existing_keys, publish, build_claims, start_claims,
  sign_account_jwt, upload_if_changed, account_result,
}
use nauth.Account.Create.Calls.{KeepsKeys, create_or_update-Emits}
use nauth.Account.Create.Upload.{IsPublished, create_or_update-IsPublished}
use nauth.Account.Import.{import_account}
use nauth.Account.Import.Verified.{IsReported, import_account-IsReported}
use nauth.Account.Delete.{delete}
use nauth.Account.Delete.Order.{IsOrdered, delete-IsOrdered}
use nauth.Account.Sign.{SignedUserJwt, sign_user_jwt}
use nauth.Account.Sign.Issuer.{IsIssued, sign_user_jwt-IsIssued}
use nauth.Effects.Connections.{IsBalanced}
use nauth.Account.Connections.{operations-IsBalanced}
use nauth.Cluster.{validate_cluster}
use nauth.Tests.Libraries.{AccountLimits-discrete, NatsLimits-discrete}
use nauth.Tests.Fixtures.{
  cluster, library, k8s, world, setting, account_ref, reference, request, fresh_user, export,
  import_of,
}

create_or_update-Emits_example : Emits KeepsKeys (create_or_update setting request)
create_or_update-Emits_example = create_or_update-Emits setting request refl

delete-IsOrdered_example : IsOrdered (delete setting reference []).1
delete-IsOrdered_example = delete-IsOrdered setting reference [] tt

abbrev adopted : String → AdoptionResult
adopted ref = record { ref = ref; failure = ""; message = none }

abbrev published : AccountResult
published = record {
  account_id = "A";
  account_signed_by = "O";
  claims = some (record {
    account_id = "";
    display_name = "acc";
    account_limits = none;
    jet_stream_enabled = some false;
    jet_stream_limits = none;
    nats_limits = none;
    signing_keys = "S" ∷ [];
    exports = export "a.>" ∷ export "b" ∷ [];
    imports = import_of "a.>" ∷ import_of "b" ∷ [];
  });
  claims_hash = "A";
  adoptions = some (record {
    exports = ("two", adopted "two") ∷ ("one", adopted "one") ∷ [];
    imports = ("two", adopted "two") ∷ ("one", adopted "one") ∷ [];
  });
}

create_or_update-IsPublished_example :
    IsPublished setting request published (create_or_update setting request []).1
unfolding create_or_update Account.validate Account.validate_export_groups
    Account.validate_import_groups check_secrets obtain_keys existing_keys publish build_claims
    start_claims new_account_claims_builder Builder.display_name Builder.signing_key
    Builder.account_limits Builder.jet_stream_limits Builder.nats_limits Limits.account_limits
    Limits.nats_limits Limits.jet_stream_limits adopt_export_groups adopt_import_groups
    Builder.add_export_group Builder.add_import_group Builder.validate_jwt_exports
    Builder.validate_jwt_imports Items.to_jwt_exports Items.to_jwt_export Items.to_jwt_imports
    Items.to_jwt_import Items.to_jwt_export_type Items.to_jwt_response_type
    Items.to_jwt_service_latency merge_jwt_items Adoptions.add Builder.build sign_account_jwt
    join_all upload_if_changed account_result Fallible.◌>>=◌ Fallible.lift Names.validate
    Names.is_blank Fallible.wrapping Effects.perform call get_secrets Lookups.attempt
    Reading.get_account_secrets_by_account_id Reading.validated_result Account.validate_target
    Cluster.validate Creds.validate Effects.perform_check Effects.deferred
    Convert.convert_nats_account_claims Convert.sort_keys Limits.convert_account_limits
    Limits.convert_nats_limits Limits.convert_jet_stream_limits Items.to_nauth_exports
    Items.to_nauth_export Items.to_nauth_export_type Items.to_nauth_response_type
    Items.to_nauth_service_latency Items.to_nauth_imports Items.to_nauth_import
    hash_signed_account_jwt_claims ℤ-discrete AccountLimits-discrete NatsLimits-discrete
    Jwt.Export-discrete Jwt.Import-discrete String-discrete
create_or_update-IsPublished_example =
    create_or_update-IsPublished setting request [] published refl

abbrev imported : AccountResult
imported = record {
  account_id = "A";
  account_signed_by = "operator";
  claims = some (record Convert.no_claims { jet_stream_enabled = some false });
  claims_hash = "A";
  adoptions = none;
}

import_account-IsReported_example :
    ("A" ≡ reference.account_id)
    × ((s : Secrets) × ((secrets_of setting account_ref "A" []).0.secrets ≡ some s)
        × (library.public_key s.root ≡ ok "A"))
    × IsReported setting imported
unfolding import_account Account.validate_reference Fallible.pure Fallible.◌>>=◌ Fallible.lift
    Names.validate Names.is_blank Fallible.wrapping Effects.perform call get_secrets Lookups.attempt
    Reading.get_account_secrets_by_account_id Reading.validated_result Account.validate_target
    Cluster.validate Creds.validate Effects.perform_check Effects.deferred
    Convert.convert_nats_account_claims Convert.sort_keys Limits.convert_account_limits
    Limits.convert_nats_limits Limits.convert_jet_stream_limits Items.to_nauth_exports
    Items.to_nauth_export Items.to_nauth_export_type Items.to_nauth_response_type
    Items.to_nauth_service_latency Items.to_nauth_imports Items.to_nauth_import
    hash_signed_account_jwt_claims ℤ-discrete AccountLimits-discrete NatsLimits-discrete
import_account-IsReported_example = import_account-IsReported setting reference [] imported refl

abbrev user_claims : Jwt.UserClaims
user_claims = fresh_user "U"

abbrev signed_user : SignedUserJwt
signed_user = record { user_jwt = "user"; account_id = "A"; signed_by = "S" }

sign_user_jwt-IsIssued_example :
    IsIssued setting account_ref user_claims signed_user
      (record user_claims { issuer_account = "A" })
unfolding sign_user_jwt Fallible.◌>>=◌ Fallible.lift Names.validate Names.is_blank Fallible.wrapping
    Effects.perform call get_secrets Lookups.attempt Reading.get_account_secrets_by_account_id
    Reading.validated_result Fallible.pure join_all
sign_user_jwt-IsIssued_example =
    sign_user_jwt-IsIssued setting account_ref user_claims [] signed_user
      (record user_claims { issuer_account = "A" }) refl

operations-IsBalanced_example :
    IsBalanced (create_or_update setting request)
    × IsBalanced (import_account setting reference)
    × IsBalanced (delete setting reference)
    × IsBalanced (validate_cluster k8s world cluster)
operations-IsBalanced_example = operations-IsBalanced setting request reference cluster
