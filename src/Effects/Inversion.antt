-- ===== src/Effects/Inversion.antt =====
-- What a successful run tells about its steps.
use nauth.Common.{
  ◌⊎◌, inl, inr, if◌then◌else◌, String, Bool, true, false, Option, none, some, List, ◌∷◌, Arg,
  Error, Result, ok, err, wrap, check, reject, ◌≡◌, refl, wrap-eq-ok,
}
use nauth.Effects.{Call, done, History, Fallible, perform, perform_check}
use nauth.Effects.Fallible.{continue, ◌>>=◌, lift, wrapping}

continue-eq-ok :
    {A B : Type 0} (f : A → Fallible B) (r : Result A) (h : History) {b : B}
    → (continue f r h).0 ≡ ok b
    → (a : A) × (r ≡ ok a) × ((f a h).0 ≡ ok b) × ((continue f r h).1 ≡ (f a h).1)
unfolding continue
continue-eq-ok f (ok a) h e = (a, refl, e, refl)
continue-eq-ok f (err x) h e = cc

pub then-eq-ok :
    {A B : Type 0} (m : Fallible A) (f : A → Fallible B) (h : History) {b : B}
    → ((m >>= f) h).0 ≡ ok b
    → (a : A) × ((m h).0 ≡ ok a) × ((f a (m h).1).0 ≡ ok b) × (((m >>= f) h).1 ≡ (f a (m h).1).1)
unfolding ◌>>=◌
then-eq-ok m f h e = continue-eq-ok f (m h).0 (m h).1 e

-- A check that passes.
pub check-eq-ok : (e : Option Error) {u : Unit {0}} → check e ≡ ok u → e ≡ none
check-eq-ok none h = refl
check-eq-ok (some e) h = cc

pub wrap-check-eq-ok :
    (format : String) (args : List Arg) (e : Option Error) {u : Unit {0}}
    → wrap format args (check e) ≡ ok u
    → e ≡ none
wrap-check-eq-ok format args e h = check-eq-ok e (wrap-eq-ok format args (check e) h)

pub reject-eq-ok : (b : Bool) (e : Error) {u : Unit {0}} → reject b e ≡ ok u → b ≡ false
reject-eq-ok true e h = cc
reject-eq-ok false e h = refl

pub perform-eq-ok :
    {A : Type 0} (c : Call) (answer : History → Result A) (h : History) {a : A}
    → (perform c answer h).0 ≡ ok a
    → (answer h ≡ ok a) × ((perform c answer h).1 ≡ done c ∷ h)
unfolding perform
perform-eq-ok c answer h e = (e, rw e refl)

pub perform_check-eq-ok :
    (c : Call) (answer : History → Option Error) (h : History) {u : Unit {0}}
    → (perform_check c answer h).0 ≡ ok u
    → (answer h ≡ none) × ((perform_check c answer h).1 ≡ done c ∷ h)
unfolding perform_check
perform_check-eq-ok c answer h e =
    let (checked, added) = perform-eq-ok c (λ t. check (answer t)) h e in
    (check-eq-ok (answer h) checked, added)

pub lift-eq-ok :
    {A : Type 0} (r : Result A) (h : History) {a : A}
    → (lift r h).0 ≡ ok a
    → (r ≡ ok a) × ((lift r h).1 ≡ h)
unfolding lift
lift-eq-ok r h e = (e, refl)

pub wrapping-eq-ok :
    {A : Type 0} (format : String) (args : List Arg) (m : Fallible A) (h : History) {a : A}
    → (wrapping format args m h).0 ≡ ok a
    → ((m h).0 ≡ ok a) × ((wrapping format args m h).1 ≡ (m h).1)
unfolding wrapping
wrapping-eq-ok format args m h e = (wrap-eq-ok format args (m h).0 e, refl)

-- A call that returns only an error, and what follows it.
answer-then-eq-ok :
    {B : Type 0} (format : String) (args : List Arg) (c : Call) (answer : Option Error)
    (f : Unit {0} → Fallible B) (h : History) {b : B}
    → ((wrapping format args (perform_check c (λ _. answer)) >>= f) h).0 ≡ ok b
    → ((f tt (done c ∷ h)).0 ≡ ok b)
      × (((wrapping format args (perform_check c (λ _. answer)) >>= f) h).1 ≡ (f tt (done c ∷ h)).1)
unfolding ◌>>=◌ wrapping perform_check perform continue
answer-then-eq-ok format args c none f h e = (e, refl)
answer-then-eq-ok format args c (some x) f h e = cc

pub check-then-eq-ok :
    {B : Type 0} (format : String) (args : List Arg) (c : Call) (answer : History → Option Error)
    (f : Unit {0} → Fallible B) (h : History) {b : B}
    → ((wrapping format args (perform_check c answer) >>= f) h).0 ≡ ok b
    → ((f tt (done c ∷ h)).0 ≡ ok b)
      × (((wrapping format args (perform_check c answer) >>= f) h).1 ≡ (f tt (done c ∷ h)).1)
unfolding ◌>>=◌ wrapping perform_check perform
check-then-eq-ok format args c answer f h e = answer-then-eq-ok format args c (answer h) f h e

-- A step without calls, and what follows it.
pub lift-then-eq-ok :
    {A B : Type 0} (r : Result A) (f : A → Fallible B) (h : History) {b : B}
    → ((lift r >>= f) h).0 ≡ ok b
    → (a : A) × (r ≡ ok a) × ((f a h).0 ≡ ok b) × (((lift r >>= f) h).1 ≡ (f a h).1)
unfolding ◌>>=◌ lift
lift-then-eq-ok r f h e = continue-eq-ok f r h e

-- A choice between two computations.
pub if-eq-ok :
    {A : Type 0} (b : Bool) (m m' : Fallible A) (h : History) {a : A}
    → ((if b then m else m') h).0 ≡ ok a
    → ((b ≡ true) × ((m h).0 ≡ ok a) × (((if b then m else m') h).1 ≡ (m h).1))
      ⊎ ((b ≡ false) × ((m' h).0 ≡ ok a) × (((if b then m else m') h).1 ≡ (m' h).1))
if-eq-ok true m m' h e = inl (refl, e, refl)
if-eq-ok false m m' h e = inr (refl, e, refl)
