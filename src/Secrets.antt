-- ===== src/Secrets.antt =====
-- internal/core/secret.go: `secretManagerImpl`, with the names of
-- internal/adapter/outbound/k8s/labels.go, secret_types.go and internal/core/constants.go.
pub mod Reading
pub mod Lookups
use Prim.Native.String.{len, slice}
use native.Mathlib.Decide.{dec_lt}
use nauth.Common.{
  StringMap, String, ◌<>◌, Bool, Option, none, some, List, [], ◌∷◌, Arg, Error, Result, ok, err,
  str, errorf, wrap, check, reject, is_yes, ◌==◌, if◌then◌else◌,
}
use nauth.Jwt.{Library, KeyPair}
use nauth.Domain.Names
use nauth.Domain.Names.{K8s, NamespacedName, to_string}
use nauth.Effects
use nauth.Effects.{ObjectMeta, K8sSecret, World, Fallible, perform_check}
use nauth.Effects.Fallible.{◌>>=◌, ◌>>◌, raise, lift, wrapping}

abbrev pub secret_label_account_id : String
secret_label_account_id = "account.nauth.io/id"

abbrev pub secret_label_account_name : String
secret_label_account_name = "account.nauth.io/name"

abbrev pub label_secret_type : String
label_secret_type = "nauth.io/secret-type"

abbrev pub label_managed : String
label_managed = "nauth.io/managed"

abbrev pub label_managed_value : String
label_managed_value = "true"

abbrev pub secret_type_account_root : String
secret_type_account_root = "account-root"

abbrev pub secret_type_account_sign : String
secret_type_account_sign = "account-sign"

abbrev pub default_secret_key_name : String
default_secret_key_name = "default"

pub record Secrets : Type 0 where
  pub root : KeyPair
  pub sign : KeyPair

-- `crypto/md5` with `encoding/hex`: a text of hexadecimal digits for each text.
pub record Hashing : Type 0 where
  pub md5_hex : String → String

unfoldable pub must_generate_short_hash_from_id : Hashing → String → String
unfolding dec_lt
must_generate_short_hash_from_id hashing id =
    let hash = hashing.md5_hex id in if is_yes (dec_lt 6 (len hash)) then slice hash 0 6 else hash

-- The templates "%s-ac-root-%s" and "%s-ac-sign-%s".
abbrev pub root_name : String → String → String
root_name name hash = name <> ("-ac-root-" <> hash)

abbrev pub sign_name : String → String → String
sign_name name hash = name <> ("-ac-sign-" <> hash)

module _ (k8s : K8s) (jwt : Library) (hashing : Hashing) where
  abbrev pub secret_meta :
      NamespacedName → String → (String → String → String) → String → ObjectMeta
  secret_meta account_ref account_id name_template secret_type = record {
    name = name_template account_ref.name (must_generate_short_hash_from_id hashing account_id);
    namespace = account_ref.namespace;
    labels =
        (secret_label_account_id, account_id)
        ∷ (secret_label_account_name, account_ref.name)
        ∷ (label_secret_type, secret_type)
        ∷ (label_managed, label_managed_value)
        ∷ [];
  }

  abbrev pub secret_value : String → StringMap
  secret_value seed = (default_secret_key_name, seed) ∷ []

  -- `accountRef.Validate()`, under the text that every operation gives it.
  abbrev pub validate_ref : NamespacedName → Result (Unit {0})
  validate_ref account_ref =
      wrap "invalid account reference %s: %w" (str (to_string k8s account_ref) ∷ [])
        (check (Names.validate k8s account_ref))

  unfoldable pub apply_account_secret :
      World
      → NamespacedName
      → String
      → (String → String → String)
      → String
      → KeyPair
      → Fallible (Unit {0})
  apply_account_secret world account_ref account_id name_template secret_type key_pair = do
    lift (validate_ref account_ref)
    lift (reject (account_id == "") (errorf "account ID cannot be empty" []))
    let meta = secret_meta account_ref account_id name_template secret_type
    seed ← lift (wrap "failed to get seed from key pair: %w" [] (jwt.seed key_pair))
    wrapping "unable to apply secret: %w" [] (
        perform_check (Effects.Call.apply_secret meta (secret_value seed))
          (λ h. world.apply_secret h meta (secret_value seed)))

  unfoldable pub apply_root_secret : World → NamespacedName → KeyPair → Fallible (Unit {0})
  unfolding apply_account_secret
  apply_root_secret world account_ref root_key_pair = do
    account_id ← lift (
        wrap "failed to get public key from account root secret: %w" []
          (jwt.public_key root_key_pair))
    apply_account_secret world account_ref account_id root_name secret_type_account_root
        root_key_pair

  unfoldable pub apply_sign_secret : World → NamespacedName → String → KeyPair → Fallible (Unit {0})
  unfolding apply_account_secret
  apply_sign_secret world account_ref account_id sign_key_pair =
      apply_account_secret world account_ref account_id sign_name secret_type_account_sign
        sign_key_pair

  unfoldable pub delete_all : World → NamespacedName → String → Fallible (Unit {0})
  delete_all world account_ref account_id = do
    lift (validate_ref account_ref)
    let labels =
        (secret_label_account_id, account_id) ∷ (secret_label_account_name, account_ref.name) ∷ []
    perform_check (Effects.Call.delete_secrets_by_labels account_ref.namespace labels)
        (λ h. world.delete_secrets_by_labels h account_ref.namespace labels)
