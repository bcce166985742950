-- ===== src/Account/Keys.antt =====
-- internal/core/account.go: what the operations of `AccountManager` share.
pub mod Calls
use nauth.Common.{
  String, Bool, Option, none, some, List, [], ◌∷◌, Arg, Error, Result, ok, err, str, errorf, wrap,
  and_then,
}
use nauth.Jwt.{Library, KeyPair}
use nauth.Domain.Names.{K8s, NamespacedName}
use nauth.Domain.Cluster.{ClusterTarget}
use nauth.Effects.{World, Plain, Fallible}
use nauth.Secrets.{Secrets, Hashing}
use nauth.Secrets.Reading.{Lookup}
use nauth.Secrets.Lookups.{get_secrets}

-- Everything that the program is built on: the libraries and the world outside.
pub record Setting : Type 0 where
  pub k8s : K8s
  pub jwt : Library
  pub hashing : Hashing
  pub world : World

-- The use of a nil pointer. Validation rules it out for the operator's key, and the callers of
-- `GetSecrets` for the secrets.
abbrev pub nil_pointer : Error
nil_pointer = errorf "nil pointer dereference" []

abbrev pub dereference : {A : Type 0} → Option A → Result A
dereference none = err nil_pointer
dereference (some a) = ok a

-- `value, _ = …` of a string.
abbrev pub or_empty : Result String → String
or_empty (ok s) = s
or_empty (err _) = ""

-- A call of a function that has no error of its own.
unfoldable pub call : {A : Type 0} → Plain A → Fallible A
call m h = let (a, h') = m h in (ok a, h')

module _ (w : Setting) where
  abbrev pub secrets_of : NamespacedName → String → Plain Lookup
  secrets_of = get_secrets w.k8s w.jwt w.world

  abbrev pub public_key : String → List Arg → KeyPair → Result String
  public_key format args key = wrap format args (w.jwt.public_key key)

  abbrev pub operator_public_key : ClusterTarget → Result String
  operator_public_key cluster =
      and_then (dereference cluster.operator_signing_key)
        (public_key "failed to get operator signing public key: %w" [])
