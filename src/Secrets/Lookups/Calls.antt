-- ===== src/Secrets/Lookups/Calls.antt =====
-- The calls that looking up secrets makes: internal/core/secret.go.
use nauth.Common.{
  String, Bool, true, false, Option, none, some, List, [], ◌∷◌, Error, Result, ok, err, ◌≡◌, refl,
  inl, inr, Option-cases, Bool-cases, ◌==◌,
}
use nauth.Jwt.{Library}
use nauth.Domain.Names
use nauth.Domain.Names.{K8s, NamespacedName}
use nauth.Effects.{Call, Event, Schedule, World, Plain}
use nauth.Effects.Emits.{
  Emits, Emits-only, Emits-pure, Emits-bind, Emits-perform, Emits-perform_check, call_of,
}
use nauth.Secrets.{
  Secrets, secret_label_account_id, label_secret_type, label_managed, label_managed_value,
  secret_type_account_root, secret_type_account_sign,
}
use nauth.Secrets.Reading.{
  Lookup, get_account_secrets_by_labels, get_account_secrets_by_account_id,
  get_account_secrets_by_account_name,
}
use nauth.Secrets.Lookups.{
  root_ref, sign_ref, Reader, finished, labelling, read_deprecated, label_deprecated, run_readers,
  get_deprecated_account_secrets_by_name, conclude, attempt, not_found, get_by_name_or_deprecated,
  get_secrets,
}

abbrev pub is_lookup : Call → Bool
is_lookup (Call.get_secret _) = true
is_lookup (Call.get_secrets_by_labels _ _) = true
is_lookup (Call.label_secret _ _) = true
is_lookup _ = false

abbrev pub IsLookup : Event → Type 0
IsLookup e = is_lookup (call_of e) ≡ true

module _ (jwt : Library) (world : World) where
  by_labels-Emits :
      (namespace : String) (labels : List (String × String))
      → Emits IsLookup (get_account_secrets_by_labels jwt world namespace labels)
  unfolding get_account_secrets_by_labels
  by_labels-Emits namespace labels =
      Emits-only
        (Emits-perform (Call.get_secrets_by_labels namespace labels)
          (λ h. world.get_secrets_by_labels h namespace labels) refl refl)
        (λ h. refl)

  read-Emits : (ref : NamespacedName) → Emits IsLookup (read_deprecated jwt world ref)
  unfolding read_deprecated
  read-Emits ref =
      Emits-only (Emits-perform (Call.get_secret ref) (λ h. world.get_secret h ref) refl refl)
        (λ h. refl)

  label-Emits :
      (ref : NamespacedName) (id type : String) (r : Reader)
      → Emits IsLookup (label_deprecated jwt world ref id type r)
  unfolding label_deprecated
  label-Emits ref id type (finished sent) = Emits-pure sent
  label-Emits ref id type (labelling secret) =
      let labels =
        (secret_label_account_id, id)
        ∷ (label_secret_type, type)
        ∷ (label_managed, label_managed_value)
        ∷ [] in
      Emits-only
        (Emits-perform_check (Call.label_secret ref labels) (λ h. world.label_secret h ref labels)
          refl refl)
        (λ h. refl)

  module _ (ref : NamespacedName) (id : String) where
    read_root : Emits IsLookup (read_deprecated jwt world (root_ref jwt world ref))
    read_root = read-Emits (root_ref jwt world ref)

    read_sign : Emits IsLookup (read_deprecated jwt world (sign_ref jwt world ref))
    read_sign = read-Emits (sign_ref jwt world ref)

    label_root :
        (r : Reader)
        → Emits IsLookup
            (label_deprecated jwt world (root_ref jwt world ref) id secret_type_account_root r)
    label_root r = label-Emits (root_ref jwt world ref) id secret_type_account_root r

    label_sign :
        (r : Reader)
        → Emits IsLookup
            (label_deprecated jwt world (sign_ref jwt world ref) id secret_type_account_sign r)
    label_sign r = label-Emits (sign_ref jwt world ref) id secret_type_account_sign r

    run_readers-Emits : (s : Schedule) → Emits IsLookup (run_readers jwt world ref id s)
    unfolding run_readers
    run_readers-Emits Schedule.root_alone_first = Emits-bind read_root λ r.
        Emits-bind (label_root r)
          λ a. Emits-bind read_sign λ s. Emits-bind (label_sign s) λ b. Emits-pure (a, b)
    run_readers-Emits Schedule.root_then_sign = Emits-bind read_root λ r.
        Emits-bind read_sign
          λ s. Emits-bind (label_root r) λ a. Emits-bind (label_sign s) λ b. Emits-pure (a, b)
    run_readers-Emits Schedule.root_around_sign = Emits-bind read_root λ r.
        Emits-bind read_sign
          λ s. Emits-bind (label_sign s) λ b. Emits-bind (label_root r) λ a. Emits-pure (a, b)
    run_readers-Emits Schedule.sign_alone_first = Emits-bind read_sign λ s.
        Emits-bind (label_sign s)
          λ b. Emits-bind read_root λ r. Emits-bind (label_root r) λ a. Emits-pure (a, b)
    run_readers-Emits Schedule.sign_then_root = Emits-bind read_sign λ s.
        Emits-bind read_root
          λ r. Emits-bind (label_sign s) λ b. Emits-bind (label_root r) λ a. Emits-pure (a, b)
    run_readers-Emits Schedule.sign_around_root = Emits-bind read_sign λ s.
        Emits-bind read_root
          λ r. Emits-bind (label_root r) λ a. Emits-bind (label_sign s) λ b. Emits-pure (a, b)

    deprecated-Emits : Emits IsLookup (get_deprecated_account_secrets_by_name jwt world ref id)
    unfolding get_deprecated_account_secrets_by_name
    deprecated-Emits = record { events = λ h. (run_readers-Emits (world.schedule h)).events h }

  conclude-Emits :
      (id : String) (describe : Error → Error) (error : Option Error)
      (next : Option Error → Plain Lookup) (found : Result (Option Secrets))
      → ((e : Option Error) → Emits IsLookup (next e))
      → Emits IsLookup (conclude jwt id describe error next found)
  unfolding conclude
  conclude-Emits id describe error next (ok (some s)) later = Emits-pure _
  conclude-Emits id describe error next (ok none) later = later error
  conclude-Emits id describe error next (err e) later = later _

  attempt-Emits :
      (id : String) (describe : Error → Error) (error : Option Error)
      (next : Option Error → Plain Lookup) (search : Plain (Result (Option Secrets)))
      → Emits IsLookup search
      → ((e : Option Error) → Emits IsLookup (next e))
      → Emits IsLookup (attempt jwt id describe error next search)
  unfolding attempt
  attempt-Emits id describe error next search es later =
      Emits-bind es λ found. conclude-Emits id describe error next found later

module _ (k8s : K8s) (jwt : Library) (world : World) (ref : NamespacedName) (id : String) where
  by_name-Emits :
      (error : Option Error) → Emits IsLookup (get_by_name_or_deprecated k8s jwt world ref id error)
  unfolding get_by_name_or_deprecated get_account_secrets_by_account_name
  by_name-Emits error =
      attempt-Emits jwt world id _ error _ (get_account_secrets_by_account_name jwt world ref)
        (by_labels-Emits jwt world ref.namespace _)
        λ e.
          attempt-Emits jwt world id _ e not_found
            (get_deprecated_account_secrets_by_name jwt world ref id)
            (deprecated-Emits jwt world ref id) λ e'. Emits-pure _

  -- Looking up secrets reads and labels secrets, and makes no other call.
  pub get_secrets-Emits : Emits IsLookup (get_secrets k8s jwt world ref id)
  unfolding get_secrets get_account_secrets_by_account_id
  get_secrets-Emits = elim (Option-cases (Names.validate k8s ref)) [
    | inr (e, invalid) ↦ rw (invalid, get_secrets) (Emits-pure _)
    | inl valid ↦ elim (Bool-cases (id == "")) [
      | inl unknown ↦ rw (valid, unknown, get_secrets) (by_name-Emits none)
      | inr known ↦
          rw (valid, known, get_secrets)
            (attempt-Emits jwt world id _ none _
              (get_account_secrets_by_account_id jwt world ref.namespace id)
              (by_labels-Emits jwt world ref.namespace _) by_name-Emits)
    ]
  ]
