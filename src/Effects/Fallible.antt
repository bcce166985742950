-- ===== src/Effects/Fallible.antt =====
-- Sequencing of functions that return an error: the first one ends the function. The operations
-- are shut, so that rules about them apply to the steps of a function.
use nauth.Common.{String, List, Arg, Error, Result, ok, err, wrap}
use nauth.Effects.{Fallible}

unfoldable pub continue : {A B : Type 0} → (A → Fallible B) → Result A → Fallible B
continue f (ok a) h = f a h
continue f (err e) h = (err e, h)

infixl 5 ◌>>=◌ ◌>>◌
unfoldable pub ◌>>=◌ : {A B : Type 0} → Fallible A → (A → Fallible B) → Fallible B
unfolding continue
◌>>=◌ m f h = let (r, h') = m h in continue f r h'

abbrev pub ◌>>◌ : {A B : Type 0} → Fallible A → Fallible B → Fallible B
m >> k = m >>= λ _. k

unfoldable pub pure : {A : Type 0} → A → Fallible A
pure a h = (ok a, h)

unfoldable pub raise : {A : Type 0} → Error → Fallible A
raise e h = (err e, h)

-- A computation without calls.
unfoldable pub lift : {A : Type 0} → Result A → Fallible A
lift r h = (r, h)

-- `if err != nil { return fmt.Errorf(format, …, err) }` after a call.
unfoldable pub wrapping : {A : Type 0} → String → List Arg → Fallible A → Fallible A
wrapping format args m h = let (r, h') = m h in (wrap format args r, h')
