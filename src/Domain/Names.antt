-- ===== src/Domain/Names.antt =====
-- internal/domain/k8s.go: namespaces and namespaced names.
pub mod Parsing
use Prim.Native.Char.{Char, code}
use nauth.Common.{
  ℕ, String, Bool, true, false, ◌&&◌, ◌||◌, Option, none, some, List, [], ◌∷◌, Error, Result, ok,
  err, str, strs, errorf, wrapf, wrap, and_then, check, ◌==◌, if◌then◌else◌, ℕ_discrete, is_yes,
}

-- What the program uses of the Kubernetes libraries about names: `ValidateNamespaceName` and
-- `NameIsDNSSubdomain` list what is wrong, and `types.NamespacedName` prints itself.
pub record K8s : Type 0 where
  pub validate_namespace_name : String → List String
  pub name_is_dns_subdomain : String → List String
  pub namespaced_name_string : String → String → String

pub record NamespacedName : Type 0 where
  pub namespace : String
  pub name : String

-- `unicode.IsSpace`.
is_space : Char → Bool
unfolding ℕ_discrete
is_space c =
    let at = λ (n : ℕ). is_yes (ℕ_discrete (code c) n) in
    at 0x9
    || at 0xa
    || at 0xb
    || at 0xc
    || at 0xd
    || at 0x20
    || at 0x85
    || at 0xa0
    || at 0x1680
    || at 0x2000
    || at 0x2001
    || at 0x2002
    || at 0x2003
    || at 0x2004
    || at 0x2005
    || at 0x2006
    || at 0x2007
    || at 0x2008
    || at 0x2009
    || at 0x200a
    || at 0x2028
    || at 0x2029
    || at 0x202f
    || at 0x205f
    || at 0x3000

-- `strings.TrimSpace(s) == ""`.
unfoldable pub is_blank : String → Bool
unfolding is_space
is_blank String.[] = true
is_blank (String.◌∷◌ c s) = is_space c && is_blank s

abbrev cons_first : Char → Option (String × String) → Option (String × String)
cons_first c none = none
cons_first c (some (a, b)) = some (String.◌∷◌ c a, b)

-- `strings.SplitN(value, "/", 2)`, which has one part where there is no slash.
unfoldable pub split_n : String → Option (String × String)
unfolding ℕ_discrete
split_n String.[] = none
split_n (String.◌∷◌ c s) =
    let rest = cons_first c (split_n s) in
    if is_yes (ℕ_discrete (code c) b'/') then some ("", s) else rest

abbrev pub is_nil {ℓ} : {A : Type ℓ} → List A → Bool
is_nil [] = true
is_nil (_ ∷ _) = false

module _ (k8s : K8s) where
  unfoldable pub validate_namespace : String → Option Error
  validate_namespace n =
      if is_blank n
      then some (errorf "value required" [])
      else if is_nil (k8s.validate_namespace_name n)
      then none
      else some (errorf "value invalid %q: %s" (str n ∷ strs (k8s.validate_namespace_name n) ∷ []))

  unfoldable pub validate : NamespacedName → Option Error
  unfolding validate_namespace
  validate n =
      if n.namespace == ""
      then some (errorf "namespace required" [])
      else elim (validate_namespace n.namespace) [
        | some e ↦ some (wrapf "namespace invalid %q: %w" (str n.namespace ∷ []) e)
        | none ↦
            if n.name == ""
            then some (errorf "name required" [])
            else if is_nil (k8s.name_is_dns_subdomain n.name)
            then none
            else some (
                errorf "name invalid %q: %s"
                  (str n.name ∷ strs (k8s.name_is_dns_subdomain n.name) ∷ []))
      ]

  unfoldable pub parse_namespaced_name : String → Result NamespacedName
  parse_namespaced_name value = elim (split_n value) [
    | none ↦
        err (errorf "invalid Namespaced Name format %q: expected namespace/name" (str value ∷ []))
    | some (a, b) ↦
        let result : NamespacedName = record { namespace = a; name = b } in
        and_then (wrap "invalid Namespaced Name %q: %w" (str value ∷ []) (check (validate result)))
          (λ _. ok result)
  ]

  abbrev pub to_string : NamespacedName → String
  to_string n = k8s.namespaced_name_string n.namespace n.name
