-- ===== src/Claims/Builder.antt =====
-- internal/core/account_claims.go: `accountClaimsBuilder`. A method returns the builder after it.
pub mod Groups
use nauth.Common.{
  ℤ, String, Bool, true, false, not, ◌&&◌, Option, none, some, List, [], ◌∷◌, ◌++◌, Error, Result,
  ok, err, errorf, join_all, if◌then◌else◌,
}
use nauth.Jwt
use nauth.Jwt.{Library, Import-discrete, Export-discrete}
use nauth.Domain.Account
use nauth.Claims.Items.{to_jwt_exports, to_jwt_imports}
use nauth.Claims.Merge.{merge_jwt_items}
use nauth.Claims.Limits

pub record AccountClaimsBuilder : Type 0 where
  pub jet_stream_requested : Option Bool
  pub claim : Jwt.AccountClaims
  pub errs : List Error

-- `jetStreamEnabled == nil || *jetStreamEnabled`
abbrev pub is_nil_or_true : Option Bool → Bool
is_nil_or_true none = true
is_nil_or_true (some b) = b

abbrev pub with_limits : AccountClaimsBuilder → Jwt.OperatorLimits → AccountClaimsBuilder
with_limits b limits = record b { claim = record (b.claim) { limits = limits } }

-- `errors.Join(valResults.Errors()...)`, if the results block.
unfoldable pub blocking_errors : Jwt.ValidationResults → Option Error
blocking_errors results = if results.is_blocking then join_all results.errors else none

unfoldable pub display_name : AccountClaimsBuilder → String → AccountClaimsBuilder
display_name b name = record b { claim = record (b.claim) { name = name } }

unfoldable pub account_limits :
    AccountClaimsBuilder → Option Account.AccountLimits → AccountClaimsBuilder
account_limits b limits =
    let l = b.claim.limits in
    with_limits b (record l { account = Limits.account_limits limits l.account })

unfoldable pub nats_limits : AccountClaimsBuilder → Option Account.NatsLimits → AccountClaimsBuilder
nats_limits b limits =
    let l = b.claim.limits in with_limits b (record l { nats = Limits.nats_limits limits l.nats })

unfoldable pub jet_stream_limits :
    AccountClaimsBuilder → Option Account.JetStreamLimits → AccountClaimsBuilder
jet_stream_limits b limits =
    let l = b.claim.limits in
    with_limits b (record l { jet_stream = Limits.jet_stream_limits limits l.jet_stream })

module _ (jwt : Library) where
  abbrev pub unlimited_jet_stream : Jwt.JetStreamLimits → Jwt.JetStreamLimits
  unlimited_jet_stream l = record l {
    disk_storage = jwt.no_limit;
    memory_storage = jwt.no_limit;
    streams = jwt.no_limit;
    consumer = jwt.no_limit;
    max_ack_pending = jwt.no_limit;
  }

  unfoldable pub new_account_claims_builder : String → Option Bool → AccountClaimsBuilder
  new_account_claims_builder account_public_key jet_stream_enabled =
      let claim = jwt.new_account_claims account_public_key in
      let l = claim.limits in
      record {
        jet_stream_requested = jet_stream_enabled;
        claim =
            if is_nil_or_true jet_stream_enabled
            then record claim {
              limits = record l { jet_stream = unlimited_jet_stream l.jet_stream };
            }
            else claim;
        errs = [];
      }

  unfoldable pub signing_key : AccountClaimsBuilder → String → AccountClaimsBuilder
  signing_key b key = record b {
    claim = record (b.claim) { signing_keys = jwt.signing_keys_add key b.claim.signing_keys };
  }

  unfoldable pub validate_jwt_exports : List (Option Jwt.Export) → Option Error
  unfolding blocking_errors
  validate_jwt_exports exports = blocking_errors (jwt.validate_exports exports)

  unfoldable pub validate_jwt_imports : String → List (Option Jwt.Import) → Option Error
  unfolding blocking_errors
  validate_jwt_imports import_account_id imports =
      blocking_errors (jwt.validate_imports import_account_id imports)

  -- `validateExports`, which `AccountExportManager.ValidateExports` calls.
  unfoldable pub validate_exports : List Account.Export → Option Error
  validate_exports exports = elim (to_jwt_exports exports) [
    | err e ↦ some e
    | ok jwt_exports ↦ validate_jwt_exports jwt_exports
  ]

  -- `validateImports`, which `AccountImportManager.ValidateImports` calls.
  unfoldable pub validate_imports : String → List Account.Import → Option Error
  validate_imports import_account_id imports = elim (to_jwt_imports imports) [
    | err e ↦ some e
    | ok jwt_imports ↦ validate_jwt_imports import_account_id jwt_imports
  ]

  unfoldable pub add_export_group :
      AccountClaimsBuilder → Account.ExportGroup → Option Error × AccountClaimsBuilder
  add_export_group b group = elim (to_jwt_exports group.exports) [
    | err e ↦ (some e, b)
    | ok exports ↦ elim (validate_jwt_exports exports) [
      | some e ↦ (some e, b)
      | none ↦
          let result = merge_jwt_items Export-discrete b.claim.exports exports true in
          elim (validate_jwt_exports result) [
            | some e ↦ (some e, b)
            | none ↦ (none, record b { claim = record (b.claim) { exports = result } })
          ]
    ]
  ]

  unfoldable pub add_import_group :
      AccountClaimsBuilder → Account.ImportGroup → Option Error × AccountClaimsBuilder
  add_import_group b group = elim (to_jwt_imports group.imports) [
    | err e ↦ (some e, b)
    | ok imports ↦ elim (validate_jwt_imports b.claim.subject imports) [
      | some e ↦ (some e, b)
      | none ↦
          let result = merge_jwt_items Import-discrete b.claim.imports imports true in
          elim (validate_jwt_imports b.claim.subject result) [
            | some e ↦ (some e, b)
            | none ↦ (none, record b { claim = record (b.claim) { imports = result } })
          ]
    ]
  ]

  unfoldable pub validate_jet_stream_limits : Option Bool → Jwt.OperatorLimits → Option Error
  validate_jet_stream_limits none limits = none
  validate_jet_stream_limits (some expected) limits =
      if expected && not (jwt.is_js_enabled limits)
      then some (
          errorf
            "ambiguous JetStream config; requested to be enabled, but no allowed MemoryStorage or DiskStorage supplied"
            [])
      else if not expected && jwt.is_js_enabled limits
      then some (
          errorf
            "ambiguous JetStream config; requested to be disabled, but supplied MemoryStorage and/or DiskStorage would implicitly enables it"
            [])
      else none

  unfoldable pub build : AccountClaimsBuilder → Result Jwt.AccountClaims
  unfolding validate_jet_stream_limits
  build b =
      let errs : List Error =
        elim (validate_jet_stream_limits b.jet_stream_requested b.claim.limits) [
          | some e ↦ b.errs ++ (e ∷ [])
          | none ↦ b.errs
        ] in
      elim (join_all errs) [ some e ↦ err e | none ↦ ok b.claim ]
