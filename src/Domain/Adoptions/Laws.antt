-- ===== src/Domain/Adoptions/Laws.antt =====
-- Adding and finding adoption results: internal/domain/nauth/account.go.
use nauth.Common.{
  none, some, ◌∷◌, ok, err, ◌≡◌, refl, arith, eq_iff, eq_refl, ok-injective, Option-cases, inl, inr,
}
use nauth.Domain.Account.{Ref}
use nauth.Domain.Adoptions.{AdoptionResult, AdoptionResults, get, add}

-- What was there stays, and a result is added only under a new reference.
pub add_lem :
    (r : AdoptionResults) (result : AdoptionResult) (r' : AdoptionResults)
    → add r result ≡ ok r'
    → (get r result.ref ≡ none) × (r' ≡ (result.ref, result) ∷ r)
unfolding add
add_lem r result r' h = elim (Option-cases (get r result.ref)) [
  | inl new ↦ (
    new,
    let e : ok ((result.ref, result) ∷ r) ≡ ok r' = (rw (new, add) at h) in rw (ok-injective e),
  )
  | inr (old, found) ↦ let e : err _ ≡ ok r' = (rw (found, add) at h) in cc
]

pub get-add_self :
    (r : AdoptionResults) (result : AdoptionResult) (r' : AdoptionResults)
    → add r result ≡ ok r'
    → get r' result.ref ≡ some result
unfolding get
get-add_self r result r' h = rw ((add_lem r result r' h).1, eq_refl) refl

pub get-add_old :
    (r : AdoptionResults) (result : AdoptionResult) (r' : AdoptionResults) (ref : Ref)
    (v : AdoptionResult)
    → add r result ≡ ok r'
    → get r ref ≡ some v
    → get r' ref ≡ some v
unfolding get
get-add_old r result r' ref v h found =
    let (new, built) = add_lem r result r' h in rw built (ground (arith, eq_iff result.ref ref))

pub add_of_new :
    (r : AdoptionResults) (result : AdoptionResult)
    → get r result.ref ≡ none
    → add r result ≡ ok ((result.ref, result) ∷ r)
unfolding add
add_of_new r result new = rw (new, add) refl
