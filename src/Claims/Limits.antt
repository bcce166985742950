-- ===== src/Claims/Limits.antt =====
-- internal/core/account_claims.go: limits, written into claims and read back from them.
pub mod RoundTrip
use mathlib.Core.Bool.{Bool-discrete}
use nauth.Common.{ℤ, ℤ-discrete, Bool, Option, none, some, is_yes, if◌then◌else◌}
use nauth.Jwt
use nauth.Jwt.{Library, JetStreamLimits-discrete}
use nauth.Domain.Account

-- `if limits.X != nil { target = *limits.X }`
unfoldable pub assign {ℓ} : {A : Type ℓ} → Option A → A → A
assign none target = target
assign (some v) target = v

-- The bodies of the builder's methods `accountLimits`, `natsLimits` and `jetStreamLimits`.
unfoldable pub account_limits : Option Account.AccountLimits → Jwt.AccountLimits → Jwt.AccountLimits
unfolding assign
account_limits none l = l
account_limits (some limits) l = record l {
  imports = assign limits.imports l.imports;
  exports = assign limits.exports l.exports;
  wildcard_exports = assign limits.wildcard_exports l.wildcard_exports;
  conn = assign limits.conn l.conn;
  leaf_node_conn = assign limits.leaf_node_conn l.leaf_node_conn;
}

unfoldable pub nats_limits : Option Account.NatsLimits → Jwt.NatsLimits → Jwt.NatsLimits
unfolding assign
nats_limits none l = l
nats_limits (some limits) l = record {
  subs = assign limits.subs l.subs;
  dat = assign limits.dat l.dat;
  payload = assign limits.payload l.payload;
}

unfoldable pub jet_stream_limits :
    Option Account.JetStreamLimits → Jwt.JetStreamLimits → Jwt.JetStreamLimits
unfolding assign
jet_stream_limits none l = l
jet_stream_limits (some limits) l = record {
  memory_storage = assign limits.memory_storage l.memory_storage;
  disk_storage = assign limits.disk_storage l.disk_storage;
  streams = assign limits.streams l.streams;
  consumer = assign limits.consumer l.consumer;
  max_ack_pending = assign limits.max_ack_pending l.max_ack_pending;
  memory_max_stream_bytes = assign limits.memory_max_stream_bytes l.memory_max_stream_bytes;
  disk_max_stream_bytes = assign limits.disk_max_stream_bytes l.disk_max_stream_bytes;
  max_bytes_required = assign limits.max_bytes_required l.max_bytes_required;
}

module _ {V : Type 0} (decide_eq : Discrete V) where
  unfoldable pub to_pointer_default_nil : V → V → Option V
  to_pointer_default_nil value default_value =
      if is_yes (decide_eq value default_value) then none else some value

abbrev pub int_pointer : ℤ → ℤ → Option ℤ
int_pointer = to_pointer_default_nil ℤ-discrete

abbrev pub bool_pointer : Bool → Bool → Option Bool
bool_pointer = to_pointer_default_nil Bool-discrete

-- The blocks of `convertNatsAccountClaims` about limits.
module _ (jwt : Library) where
  unfoldable pub convert_account_limits :
      Jwt.AccountLimits → Jwt.AccountLimits → Option Account.AccountLimits
  unfolding to_pointer_default_nil
  convert_account_limits source defaults =
      if jwt.account_limits_is_unlimited source
      then none
      else some (record {
        imports = int_pointer source.imports defaults.imports;
        exports = int_pointer source.exports defaults.exports;
        wildcard_exports = bool_pointer source.wildcard_exports defaults.wildcard_exports;
        disallow_bearer = none;
        conn = int_pointer source.conn defaults.conn;
        leaf_node_conn = int_pointer source.leaf_node_conn defaults.leaf_node_conn;
      })

  unfoldable pub convert_nats_limits : Jwt.NatsLimits → Jwt.NatsLimits → Option Account.NatsLimits
  unfolding to_pointer_default_nil
  convert_nats_limits source defaults =
      if jwt.nats_limits_is_unlimited source
      then none
      else some (record {
        subs = int_pointer source.subs defaults.subs;
        dat = int_pointer source.dat defaults.dat;
        payload = int_pointer source.payload defaults.payload;
      })

unfoldable pub convert_jet_stream_limits :
    Jwt.JetStreamLimits → Jwt.JetStreamLimits → Option Account.JetStreamLimits
unfolding to_pointer_default_nil JetStreamLimits-discrete
convert_jet_stream_limits source defaults =
    if is_yes (JetStreamLimits-discrete source defaults)
    then none
    else some (record {
      memory_storage = int_pointer source.memory_storage defaults.memory_storage;
      disk_storage = int_pointer source.disk_storage defaults.disk_storage;
      streams = int_pointer source.streams defaults.streams;
      consumer = int_pointer source.consumer defaults.consumer;
      max_ack_pending = int_pointer source.max_ack_pending defaults.max_ack_pending;
      memory_max_stream_bytes =
          int_pointer source.memory_max_stream_bytes defaults.memory_max_stream_bytes;
      disk_max_stream_bytes =
          int_pointer source.disk_max_stream_bytes defaults.disk_max_stream_bytes;
      max_bytes_required = bool_pointer source.max_bytes_required defaults.max_bytes_required;
    })
