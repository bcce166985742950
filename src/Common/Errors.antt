-- ===== src/Common/Errors.antt =====
-- Go's `error`. An error keeps the format and the arguments that `fmt.Errorf` was given.
use Prim.Native.Nat.{ℕ}
use Prim.Native.String.{String}
use nauth.Common.Int.{ℤ}
use mathlib.Core.Path.{◌≡◌, refl, ap}
use mathlib.Core.Logic.{◌⊎◌, inl, inr}
use mathlib.Core.Bool.{Bool, true, false}
use mathlib.Core.Option.{Option, none, some}
use mathlib.Core.List.{List, [], ◌∷◌}

pub data Arg : Type 0 where
  str : String → Arg
  num : ℕ → Arg
  int : ℤ → Arg
  strs : List String → Arg

-- `wrapf` is a format whose last argument is the wrapped error; `joined` is `errors.Join` of two.
-- `sentinel` is an error of internal/domain/errors.go, and `caused` is one with its cause.
pub data Error : Type 0 where
  errorf : String → List Arg → Error
  wrapf : String → List Arg → Error → Error
  joined : Error → Error → Error
  sentinel : String → Error
  caused : String → Error → Error

-- A function that returns `(T, error)`, of which the caller uses one.
pub data Result {ℓ} (A : Type ℓ) : Type ℓ where
  ok : A → Result A
  err : Error → Result A

abbrev pub and_then {ℓ κ} : {A : Type ℓ} {B : Type κ} → Result A → (A → Result B) → Result B
and_then (ok a) f = f a
and_then (err e) f = err e

-- `if err != nil { return fmt.Errorf(format, …, err) }`
abbrev pub wrap {ℓ} : {A : Type ℓ} → String → List Arg → Result A → Result A
wrap format args (ok a) = ok a
wrap format args (err e) = err (wrapf format args e)

-- A function that returns `error` alone.
abbrev pub check : Option Error → Result (Unit {0})
check none = ok tt
check (some e) = err e

abbrev pub reject : Bool → Error → Result (Unit {0})
reject true e = err e
reject false e = ok tt

-- `errors.Join(err, e)`, where `err` may be nil.
abbrev pub join : Option Error → Error → Error
join none e = e
join (some d) e = joined d e

join_onto : Error → List Error → Error
join_onto d [] = d
join_onto d (e ∷ es) = join_onto (joined d e) es

-- `errors.Join(errs...)`, which is nil when there is none.
unfoldable pub join_all : List Error → Option Error
unfolding join_onto
join_all [] = none
join_all (e ∷ es) = some (join_onto e es)

pub Result-cases {ℓ} :
    {A : Type ℓ} (r : Result A) → ((a : A) × (r ≡ ok a)) ⊎ ((e : Error) × (r ≡ err e))
Result-cases (ok a) = inl (a, refl)
Result-cases (err e) = inr (e, refl)

abbrev value_or {ℓ} : {A : Type ℓ} → A → Result A → A
value_or d (ok a) = a
value_or d (err e) = d

pub ok-injective {ℓ} : {A : Type ℓ} {a b : A} → ok a ≡ ok b → a ≡ b
ok-injective {a} p = ap (value_or a) p

pub and_then-eq-ok {ℓ κ} :
    {A : Type ℓ} {B : Type κ} (m : Result A) (f : A → Result B) {b : B}
    → and_then m f ≡ ok b
    → (a : A) × (m ≡ ok a) × (f a ≡ ok b)
and_then-eq-ok (ok a) f h = (a, refl, h)
and_then-eq-ok (err e) f h = cc

pub wrap-eq-ok {ℓ} :
    {A : Type ℓ} (format : String) (args : List Arg) (r : Result A) {a : A}
    → wrap format args r ≡ ok a
    → r ≡ ok a
wrap-eq-ok format args (ok b) h = h
wrap-eq-ok format args (err e) h = cc

pub and_then-ok {ℓ κ} :
    {A : Type ℓ} {B : Type κ} (m : Result A) (f : A → Result B) {a : A}
    → m ≡ ok a
    → and_then m f ≡ f a
and_then-ok m f p = ap (λ r. and_then r f) p
