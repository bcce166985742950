-- ===== src/Claims/Limits/RoundTrip.antt =====
-- Limits read back from claims rebuild the claims' limits: internal/core/account_claims.go.
use mathlib.Core.Bool.{Bool-discrete}
use nauth.Common.{
  String, ℤ-discrete, true, is_yes, is_yes_iff, Bool-cases, inl, inr, ◌≡◌, refl, sym,
}
use nauth.Jwt
use nauth.Jwt.{Library, JetStreamLimits-discrete}
use nauth.Claims.Limits.{
  assign, account_limits, nats_limits, jet_stream_limits, to_pointer_default_nil,
  convert_account_limits, convert_nats_limits, convert_jet_stream_limits,
}

pub assign-to_pointer_default_nil :
    {V : Type 0} (decide_eq : Discrete V) (v d : V)
    → assign (to_pointer_default_nil decide_eq v d) d ≡ v
unfolding assign to_pointer_default_nil
assign-to_pointer_default_nil decide_eq v d = elim (Bool-cases (is_yes (decide_eq v d))) [
  | inl same ↦ rw same (sym ((is_yes_iff (decide_eq v d)).0 same))
  | inr different ↦ rw different refl
]

-- The library's documented reading of its limits: only those of fresh claims are unlimited.
pub record IsDocumented (jwt : Library) : Type 0 where
  pub account_unlimited :
      (l : Jwt.AccountLimits) (subject : String)
      → jwt.account_limits_is_unlimited l ≡ true
      → l ≡ (jwt.new_account_claims subject).limits.account
  pub nats_unlimited :
      (l : Jwt.NatsLimits) (subject : String)
      → jwt.nats_limits_is_unlimited l ≡ true
      → l ≡ (jwt.new_account_claims subject).limits.nats

module _ (jwt : Library) (documented : IsDocumented jwt) (subject : String) where
  abbrev defaults : Jwt.OperatorLimits
  defaults = (jwt.new_account_claims subject).limits

  account_there :
      (l : Jwt.AccountLimits)
      → l.disallow_bearer ≡ defaults.account.disallow_bearer
      → account_limits (convert_account_limits jwt l defaults.account) defaults.account ≡ l
  unfolding account_limits convert_account_limits
  account_there l bearer = elim (Bool-cases (jwt.account_limits_is_unlimited l)) [
    | inl unlimited ↦ rw unlimited (sym (documented.account_unlimited l subject unlimited))
    | inr limited ↦ rw limited λ i. record {
      imports = assign-to_pointer_default_nil ℤ-discrete l.imports defaults.account.imports i;
      exports = assign-to_pointer_default_nil ℤ-discrete l.exports defaults.account.exports i;
      wildcard_exports =
          assign-to_pointer_default_nil Bool-discrete l.wildcard_exports
            defaults.account.wildcard_exports i;
      disallow_bearer = sym bearer i;
      conn = assign-to_pointer_default_nil ℤ-discrete l.conn defaults.account.conn i;
      leaf_node_conn =
          assign-to_pointer_default_nil ℤ-discrete l.leaf_node_conn defaults.account.leaf_node_conn
            i;
    }
  ]

  nats_there :
      (l : Jwt.NatsLimits) → nats_limits (convert_nats_limits jwt l defaults.nats) defaults.nats ≡ l
  unfolding nats_limits convert_nats_limits
  nats_there l = elim (Bool-cases (jwt.nats_limits_is_unlimited l)) [
    | inl unlimited ↦ rw unlimited (sym (documented.nats_unlimited l subject unlimited))
    | inr limited ↦ rw limited λ i. record {
      subs = assign-to_pointer_default_nil ℤ-discrete l.subs defaults.nats.subs i;
      dat = assign-to_pointer_default_nil ℤ-discrete l.dat defaults.nats.dat i;
      payload = assign-to_pointer_default_nil ℤ-discrete l.payload defaults.nats.payload i;
    }
  ]

jet_stream_there :
    (l d : Jwt.JetStreamLimits) → jet_stream_limits (convert_jet_stream_limits l d) d ≡ l
unfolding jet_stream_limits convert_jet_stream_limits
jet_stream_there l d = elim (Bool-cases (is_yes (JetStreamLimits-discrete l d))) [
  | inl same ↦ rw same (sym ((is_yes_iff (JetStreamLimits-discrete l d)).0 same))
  | inr different ↦ rw different λ i. record {
    memory_storage = assign-to_pointer_default_nil ℤ-discrete l.memory_storage d.memory_storage i;
    disk_storage = assign-to_pointer_default_nil ℤ-discrete l.disk_storage d.disk_storage i;
    streams = assign-to_pointer_default_nil ℤ-discrete l.streams d.streams i;
    consumer = assign-to_pointer_default_nil ℤ-discrete l.consumer d.consumer i;
    max_ack_pending =
        assign-to_pointer_default_nil ℤ-discrete l.max_ack_pending d.max_ack_pending i;
    memory_max_stream_bytes =
        assign-to_pointer_default_nil ℤ-discrete l.memory_max_stream_bytes d.memory_max_stream_bytes
          i;
    disk_max_stream_bytes =
        assign-to_pointer_default_nil ℤ-discrete l.disk_max_stream_bytes d.disk_max_stream_bytes i;
    max_bytes_required =
        assign-to_pointer_default_nil Bool-discrete l.max_bytes_required d.max_bytes_required i;
  }
]

-- Limits that are read back from claims and written over those of fresh claims give the limits of
-- the claims again, if the JWT library is as documented and the claims leave the bearer setting,
-- which the program does not read, at its default.
pub limits_round_trip :
    (jwt : Library) (subject : String) (l : Jwt.OperatorLimits)
    → IsDocumented jwt
    → l.account.disallow_bearer ≡ (jwt.new_account_claims subject).limits.account.disallow_bearer
    → let d = (jwt.new_account_claims subject).limits in
      (account_limits (convert_account_limits jwt l.account d.account) d.account ≡ l.account)
      × (nats_limits (convert_nats_limits jwt l.nats d.nats) d.nats ≡ l.nats)
      × (jet_stream_limits (convert_jet_stream_limits l.jet_stream d.jet_stream) d.jet_stream
          ≡ l.jet_stream)
limits_round_trip jwt subject l documented bearer = (
  account_there jwt documented subject l.account bearer,
  nats_there jwt documented subject l.nats,
  jet_stream_there l.jet_stream _,
)
