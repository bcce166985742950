-- ===== src/Effects/Connections.antt =====
-- Connections that are opened and closed: of every connection to NATS that a step opens, the step
-- makes the call that closes it.
use nauth.Common.{
  ℕ, ◌+◌, String, Option, none, some, List, [], ◌∷◌, ◌++◌, All, Arg, Error, Result, ok, err, ◌≡◌,
  refl, sym, subst, arith,
}
use nauth.Effects.{Call, Event, done, History, Fallible, perform, perform_check, deferred}
use nauth.Effects.Fallible.{continue, ◌>>=◌, wrapping}
use nauth.Effects.Emits.{Emits}

abbrev pub opens : Event → ℕ
opens (done (Call.connect_system _ _)) = 1
opens (done (Call.connect_account _ _)) = 1
opens _ = 0

abbrev pub closes : Event → ℕ
closes (done Call.disconnect_system) = 1
closes (done Call.disconnect_account) = 1
closes _ = 0

abbrev pub opened : History → ℕ
opened [] = 0
opened (e ∷ h) = opens e + opened h

abbrev pub closed : History → ℕ
closed [] = 0
closed (e ∷ h) = closes e + closed h

abbrev pub IsNeutral : Event → Type 0
IsNeutral e = (opens e ≡ 0) × (closes e ≡ 0)

-- A step closes as many connections as it opens.
pub record IsBalanced {A : Type 0} (m : Fallible A) : Type 0 where
  pub balance : (h : History) → opened (m h).1 + closed h ≡ opened h + closed (m h).1

neutral-same :
    (es : List Event) (h : History)
    → All IsNeutral es
    → (opened (es ++ h) ≡ opened h) × (closed (es ++ h) ≡ closed h)
neutral-same [] h all = (refl, refl)
neutral-same (e ∷ es) h ((o, c), all) =
    let (same_o, same_c) = neutral-same es h all in (ground (arith), ground (arith))

pub IsBalanced-neutral : {A : Type 0} {m : Fallible A} → Emits IsNeutral m → IsBalanced m
IsBalanced-neutral {m} em = record {
  balance = λ h.
      let (es, added, all) = em.events h in
      let (same_o, same_c) = neutral-same es h all in
      subst (λ t. opened t + closed h ≡ opened h + closed t) (sym added) (omega arith);
}

continue-IsBalanced :
    {A B : Type 0} (f : A → Fallible B) (r : Result A)
    → ((a : A) → IsBalanced (f a))
    → IsBalanced (continue f r)
unfolding continue
continue-IsBalanced f (ok a) of = record { balance = λ h. (of a).balance h }
continue-IsBalanced f (err e) of = record { balance = λ h. refl }

add_balances : (a b c d e f : ℕ) → a + d ≡ b + c → e + c ≡ a + f → e + d ≡ b + f
add_balances a b c d e f p q = omega arith

pub IsBalanced-then :
    {A B : Type 0} {m : Fallible A} {f : A → Fallible B}
    → IsBalanced m
    → ((a : A) → IsBalanced (f a))
    → IsBalanced (m >>= f)
unfolding ◌>>=◌
IsBalanced-then {m} {f} om of = record {
  balance = λ h.
      let first = om.balance h in
      let second = (continue-IsBalanced f (m h).0 of).balance (m h).1 in
      add_balances (opened (m h).1) (opened h) (closed (m h).1) (closed h) _ _ first second;
}

pub IsBalanced-wrapping :
    {A : Type 0} (format : String) (args : List Arg) {m : Fallible A}
    → IsBalanced m
    → IsBalanced (wrapping format args m)
unfolding wrapping
IsBalanced-wrapping format args om = record { balance = λ h. om.balance h }

bracket :
    (x y g h oc kc od cd : ℕ)
    → oc ≡ 1
    → kc ≡ 0
    → od ≡ 0
    → cd ≡ 1
    → x + (kc + h) ≡ (oc + g) + y
    → (od + x) + h ≡ g + (cd + y)
bracket x y g h oc kc od cd p q r s e = omega arith

-- A connection that is opened, used, and closed on every way out.
module _ {B : Type 0} (c d : Call) (format : String) (args : List Arg) (body : Fallible B)
    (opening : (opens (done c) ≡ 1) × (closes (done c) ≡ 0))
    (closing : (opens (done d) ≡ 0) × (closes (done d) ≡ 1)) (within : IsBalanced body) where
  answered-balance :
      (answer : Option Error) (h : History)
      → let t =
          ((wrapping format args (perform_check c (λ _. answer))) >>= λ _. deferred d body) h in
        opened t.1 + closed h ≡ opened h + closed t.1
  unfolding ◌>>=◌ continue wrapping perform_check perform deferred
  answered-balance none h =
      bracket _ _ _ _ (opens (done c)) (closes (done c)) (opens (done d)) (closes (done d))
        opening.0 opening.1 closing.0 closing.1 (within.balance (done c ∷ h))
  answered-balance (some e) h = omega arith

  pub IsBalanced-connection :
      (answer : History → Option Error)
      → IsBalanced ((wrapping format args (perform_check c answer)) >>= λ _. deferred d body)
  unfolding ◌>>=◌ wrapping perform_check perform
  IsBalanced-connection answer = record { balance = λ h. answered-balance (answer h) h }
