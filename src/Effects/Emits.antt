-- ===== src/Effects/Emits.antt =====
-- Which calls a function can make: a predicate on the events that it adds to the history.
use mathlib.Core.List.{append_assoc}
use nauth.Common.{
  Bool, true, false, if◌then◌else◌, String, Option, List, [], ◌∷◌, ◌++◌, Arg, Error, Result, ok,
  err, ◌≡◌, refl, sym, ap, ◌∙◌, All, All-append, All-map,
}
use nauth.Effects.{
  Call, Event, done, failed, History, Plain, Fallible, outcome, perform, perform_check, deferred,
}
use nauth.Effects.Plain
use nauth.Effects.Fallible

-- Whatever the history is, the events that `m` adds to it have the property.
pub record Emits (P : Event → Type 0) {A : Type 0} (m : Plain A) : Type 0 where
  pub events : (h : History) → (es : List Event) × ((m h).1 ≡ es ++ h) × All P es

outcome-holds :
    {A : Type 0} (P : Event → Type 0) (c : Call) (r : Result A)
    → P (done c)
    → P (failed c)
    → P (outcome c r)
outcome-holds P c (ok _) p q = p
outcome-holds P c (err _) p q = q

module _ {P : Event → Type 0} where
  pub Emits-pure : {A : Type 0} (a : A) → Emits P (λ h. (a, h))
  Emits-pure a = record { events = λ h. ([], refl, tt) }

  pub Emits-if :
      {A : Type 0} (b : Bool) {m m' : Plain A}
      → Emits P m
      → Emits P m'
      → Emits P (if b then m else m')
  Emits-if true em em' = em
  Emits-if false em em' = em'

  pub Emits-bind :
      {A B : Type 0} {m : Plain A} {f : A → Plain B}
      → Emits P m
      → ((a : A) → Emits P (f a))
      → Emits P (Plain.◌>>=◌ m f)
  Emits-bind {m} {f} em ef = record {
    events = λ h.
        let (es, added, ok_es) = em.events h in
        let (fs, more, ok_fs) = (ef (m h).0).events (m h).1 in
        (
          fs ++ es,
          more ∙ ap (λ t. fs ++ t) added ∙ sym (append_assoc fs es h),
          All-append P fs es ok_fs ok_es,
        );
  }

  pub Emits-perform :
      {A : Type 0} (c : Call) (answer : History → Result A)
      → P (done c)
      → P (failed c)
      → Emits P (perform c answer)
  unfolding perform
  Emits-perform c answer p q = record {
    events = λ h. (outcome c (answer h) ∷ [], refl, (outcome-holds P c (answer h) p q, tt));
  }

  pub Emits-perform_check :
      (c : Call) (answer : History → Option Error)
      → P (done c)
      → P (failed c)
      → Emits P (perform_check c answer)
  unfolding perform_check
  Emits-perform_check c answer p q = Emits-perform c _ p q

  pub Emits-deferred :
      {A : Type 0} (c : Call) {m : Fallible A} → P (done c) → Emits P m → Emits P (deferred c m)
  unfolding deferred
  Emits-deferred c {m} p em = record {
    events = λ h.
        let (es, added, ok_es) = em.events h in
        (done c ∷ es, ap (λ t. done c ∷ t) added, (p, ok_es));
  }

  pub Emits-wrapping :
      {A : Type 0} (format : String) (args : List Arg) {m : Fallible A}
      → Emits P m
      → Emits P (Fallible.wrapping format args m)
  unfolding Fallible.wrapping
  Emits-wrapping format args em = record { events = λ h. em.events h }

  pub Emits-lift : {A : Type 0} (r : Result A) → Emits P (Fallible.lift r)
  unfolding Fallible.lift
  Emits-lift r = Emits-pure r

  pub Emits-return : {A : Type 0} (a : A) → Emits P (Fallible.pure a)
  unfolding Fallible.pure
  Emits-return a = Emits-pure (ok a)

  pub Emits-raise : {A : Type 0} (e : Error) → Emits P {A = Result A} (Fallible.raise e)
  unfolding Fallible.raise
  Emits-raise e = Emits-pure (err e)

  -- What follows an error or a value: the two cases of a fallible step.
  continue-events :
      {A B : Type 0} (f : A → Fallible B) (r : Result A)
      → ((a : A) → Emits P (f a))
      → Emits P (Fallible.continue f r)
  unfolding Fallible.continue
  continue-events f (ok a) ef = record { events = λ h. (ef a).events h }
  continue-events f (err e) ef = record { events = λ h. ([], refl, tt) }

  pub Emits-then :
      {A B : Type 0} {m : Fallible A} {f : A → Fallible B}
      → Emits P m
      → ((a : A) → Emits P (f a))
      → Emits P (Fallible.◌>>=◌ m f)
  unfolding Fallible.◌>>=◌
  Emits-then {f} em ef = record {
    events = λ h. (Emits-bind em (λ (r : Result _). continue-events f r ef)).events h;
  }

pub Emits-weaken :
    {P Q : Event → Type 0} {A : Type 0} {m : Plain A}
    → ((e : Event) → P e → Q e)
    → Emits P m
    → Emits Q m
Emits-weaken f em = record {
  events = λ h. let (es, added, all) = em.events h in (es, added, All-map f es all);
}

-- Only the histories count, not the results.
pub Emits-only :
    {P : Event → Type 0} {A B : Type 0} {m : Plain A} {m' : Plain B}
    → Emits P m'
    → ((h : History) → (m h).1 ≡ (m' h).1)
    → Emits P m
Emits-only em same = record {
  events = λ h. let (es, added, all) = em.events h in (es, same h ∙ added, all);
}

-- The call that an event notes.
abbrev pub call_of : Event → Call
call_of (done c) = c
call_of (failed c) = c
