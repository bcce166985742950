-- ===== src/Secrets/Lookups/Found.antt =====
-- What `GetSecrets` guarantees of its result: internal/core/secret.go.
use nauth.Common.{
  String, true, false, ◌||◌, Option, none, some, Error, Result, ok, err, ◌≡◌, ◌⊎◌, inl, inr, arith,
  eq_iff, ◌==◌, Option-cases, Bool-cases, Result-cases,
}
use nauth.Jwt.{Library}
use nauth.Domain.Names.{K8s, NamespacedName}
use nauth.Domain.Names
use nauth.Effects.{World, History, Plain}
use nauth.Secrets.{Secrets}
use nauth.Secrets.Reading.{
  Lookup, validated_result, get_account_secrets_by_account_id, get_account_secrets_by_account_name,
}
use nauth.Secrets.Lookups.{
  conclude, attempt, not_found, get_by_name_or_deprecated, get_deprecated_account_secrets_by_name,
  get_secrets,
}

module _ (jwt : Library) (account_id : String) where
  -- The three kinds of result: secrets that were found and whose root key is that of the account,
  -- secrets that were found and are in error, and none found.
  pub data IsSound : Lookup → Type 0 where
    sound :
        (s : Secrets) (id : String)
        → jwt.public_key s.root ≡ ok id
        → (account_id ≡ "") ⊎ (id ≡ account_id)
        → IsSound (record { secrets = some s; found = true; error = none })
    broken : (e : Error) → IsSound (record { secrets = none; found = true; error = some e })
    absent : (e : Option Error) → IsSound (record { secrets = none; found = false; error = e })

  same_account :
      (id : String)
      → (account_id == "" || id == account_id) ≡ true
      → (account_id ≡ "") ⊎ (id ≡ account_id)
  same_account id h = ground (arith, eq_iff account_id "", eq_iff id account_id)

  validated_result-IsSound : (s : Secrets) → IsSound (validated_result jwt s account_id)
  unfolding validated_result
  validated_result-IsSound s = elim (Result-cases (jwt.public_key s.root)) [
    | inr (e, failed) ↦ rw (failed, validated_result) (broken _)
    | inl (id, answered) ↦ elim (Bool-cases (account_id == "" || id == account_id)) [
      | inl same ↦
          rw (answered, same, validated_result) (sound s id answered (same_account id same))
      | inr different ↦ rw (answered, different, validated_result) (broken _)
    ]
  ]

  -- A property of every result is one of `attempt` and of what follows.
  abbrev Always : Plain Lookup → Type 0
  Always m = (h : History) → IsSound (m h).0

  conclude-IsSound :
      (describe : Error → Error) (error : Option Error) (next : Option Error → Plain Lookup)
      (found : Result (Option Secrets))
      → ((e : Option Error) → Always (next e))
      → Always (conclude jwt account_id describe error next found)
  unfolding conclude
  conclude-IsSound describe error next (ok (some s)) later h = validated_result-IsSound s
  conclude-IsSound describe error next (ok none) later h = later error h
  conclude-IsSound describe error next (err e) later h = later _ h

  attempt-IsSound :
      (describe : Error → Error) (error : Option Error) (next : Option Error → Plain Lookup)
      (search : Plain (Result (Option Secrets)))
      → ((e : Option Error) → Always (next e))
      → Always (attempt jwt account_id describe error next search)
  unfolding attempt
  attempt-IsSound describe error next search later h =
      conclude-IsSound describe error next (search h).0 later (search h).1

module _ (k8s : K8s) (jwt : Library) (world : World) (account_ref : NamespacedName)
    (account_id : String) where
  by_name-IsSound :
      (error : Option Error)
      → Always jwt account_id (get_by_name_or_deprecated k8s jwt world account_ref account_id error)
  unfolding get_by_name_or_deprecated
  by_name-IsSound error h =
      attempt-IsSound jwt account_id _ error _
        (get_account_secrets_by_account_name jwt world account_ref)
        (λ e.
          attempt-IsSound jwt account_id _ e not_found
            (get_deprecated_account_secrets_by_name jwt world account_ref account_id)
            (λ e' h'. absent e'))
        h

  -- Whatever the cluster answers, `GetSecrets` returns secrets without an error only if their root
  -- key is that of the account that was asked for, or no account ID was given; an error beside
  -- secrets that were found comes with nil secrets, and secrets that were not found are nil.
  pub get_secrets-IsSound :
      (h : History) → IsSound jwt account_id (get_secrets k8s jwt world account_ref account_id h).0
  unfolding get_secrets
  get_secrets-IsSound h = elim (Option-cases (Names.validate k8s account_ref)) [
    | inr (e, invalid) ↦ rw (invalid, get_secrets) (absent _)
    | inl valid ↦ elim (Bool-cases (account_id == "")) [
      | inl unknown ↦ rw (valid, unknown, get_secrets) (by_name-IsSound none h)
      | inr known ↦
          rw (valid, known, get_secrets)
            (attempt-IsSound jwt account_id _ none _
              (get_account_secrets_by_account_id jwt world account_ref.namespace account_id)
              by_name-IsSound h)
    ]
  ]
