-- ===== src/Domain/Names/Parsing.antt =====
-- Namespaced names are read as they are written: internal/domain/k8s.go.
use nauth.Common.{String, ◌<>◌, false, none, some, ok, ◌≡◌, refl, ℕ_discrete, is_yes}
use Prim.Native.Char.{code}
use text.Mathlib.TextLemmas.{nil-append, cons-append}
use nauth.Domain.Names.{K8s, NamespacedName, split_n, parse_namespaced_name, validate}

-- No character of the text is a slash.
abbrev pub HasNoSlash : String → Type 0
HasNoSlash String.[] = Unit
HasNoSlash (String.◌∷◌ c s) = (is_yes (ℕ_discrete (code c) b'/') ≡ false) × HasNoSlash s

split_n-join : (a b : String) → HasNoSlash a → split_n (a <> ("/" <> b)) ≡ some (a, b)
unfolding split_n
split_n-join String.[] b h = rw (nil-append ("/" <> b), cons-append "/" "" b, nil-append b) refl
split_n-join (String.◌∷◌ c s) b (other, h) =
    let ih = split_n-join s b h in rw (cons-append c s ("/" <> b), other, ih) refl

-- A name that is written as its namespace, a slash and its name is read back exactly, if it is valid
-- and its namespace has no slash.
pub parse_namespaced_name-join :
    (k8s : K8s) (n : NamespacedName)
    → HasNoSlash n.namespace
    → validate k8s n ≡ none
    → parse_namespaced_name k8s (n.namespace <> ("/" <> n.name)) ≡ ok n
unfolding parse_namespaced_name
parse_namespaced_name-join k8s n h valid =
    rw (split_n-join n.namespace n.name h, parse_namespaced_name) (rw valid refl)
