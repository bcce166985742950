-- ===== src/Common/Maps.antt =====
-- Go's maps with keys that are strings, as lists of entries in any order.
use Prim.Native.String.{String}
use mathlib.Core.Path.{◌≡◌, refl, ap, ◌∙◌}
use mathlib.Core.Logic.{inl, inr}
use mathlib.Core.Bool.{false}
use mathlib.Core.Option.{Option, none, some}
use mathlib.Core.List.{List, [], ◌∷◌}
use native.Mathlib.Omega.{arith}
use text.Mathlib.Text.{◌==◌}
use text.Mathlib.TextEquality.{eq_iff}
use text.Mathlib.TextPositions.{eq_refl}
use nauth.Common.Tests.{if◌then◌else◌, Bool-cases}

-- A map with the entries in any order.
abbrev pub StringMap : Type 0
StringMap = List (String × String)

-- Reading a map.
unfoldable pub lookup {ℓ} : {V : Type ℓ} → String → List (String × V) → Option V
lookup key [] = none
lookup key ((k, v) ∷ m) = if k == key then some v else lookup key m

-- `m[key] = value`.
unfoldable pub set_entry {ℓ} : {V : Type ℓ} → String → V → List (String × V) → List (String × V)
set_entry key value [] = (key, value) ∷ []
set_entry key value ((k, v) ∷ m) =
    let rest = set_entry key value m in if k == key then (key, value) ∷ m else (k, v) ∷ rest

abbrev pub value_or_empty : Option String → String
value_or_empty none = ""
value_or_empty (some v) = v

pub lookup-set_entry_self {ℓ} :
    {V : Type ℓ} (key : String) (value : V) (m : List (String × V))
    → lookup key (set_entry key value m) ≡ some value
unfolding lookup set_entry
lookup-set_entry_self key value [] = rw (eq_refl key) refl
lookup-set_entry_self key value ((k, v) ∷ m) = elim (Bool-cases (k == key)) [
  | inl same ↦ rw same (rw (eq_refl key) refl)
  | inr other ↦ rw other (rw other (lookup-set_entry_self key value m))
]

pub lookup-set_entry_other {ℓ} :
    {V : Type ℓ} (key other : String) (value : V) (m : List (String × V))
    → (key == other) ≡ false
    → lookup other (set_entry key value m) ≡ lookup other m
unfolding lookup set_entry
lookup-set_entry_other key other value [] h = rw h refl
lookup-set_entry_other key other value ((k, v) ∷ m) h = elim (Bool-cases (k == key)) [
  | inl same ↦
      let same_key : k ≡ key = ground (arith, eq_iff k key) in
      let differs = ap (λ x. x == other) same_key ∙ h in rw (same, h, differs) refl
  | inr differs ↦
      let ih = lookup-set_entry_other key other value m h in
      rw differs (ap (λ x. if k == other then some v else x) ih)
]
