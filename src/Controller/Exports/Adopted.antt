-- ===== src/Controller/Exports/Adopted.antt =====
-- From the result of an adoption, by the account manager, to what the controller of exports finds
-- of it in the status of the account.
use nauth.Common.{
  ℤ, Bool, true, false, Option, none, some, List, [], ◌∷◌, map, All, Any, ◌≡◌, refl, ap, ap₂, ◌∙◌,
  inl, inr, Bool-cases, ◌==◌, ◌&&◌, eq_refl,
}
use nauth.Domain.Adoptions.{AdoptionResult, AdoptionResults, get, is_successful}
use nauth.Api.{condition_true}
use nauth.Api.Exports.{AccountExport}
use nauth.Controller.Converter.Groups.{AdoptionRef, export_ref}
use nauth.Controller.Converter.Claims.{adoption_status, to_account_adoption, to_account_adoptions}
use nauth.Controller.Status.{find_adoption_by_uid}
use nauth.Controller.Exports.{same_generation}
use nauth.Controller.Exports.Conditions.{is_adopted}

-- A success.
abbrev pub is_success : Option AdoptionResult → Bool
is_success none = false
is_success (some r) = is_successful r

find-adoption :
    (results : AdoptionResults) (refs : List AdoptionRef) (ref : AdoptionRef)
    → Any (λ r. r ≡ ref) refs
    → All (λ r. (r.uid == ref.uid) ≡ true → r ≡ ref) refs
    → find_adoption_by_uid (to_account_adoptions refs results) ref.uid
      ≡ some (to_account_adoption results ref)
unfolding find_adoption_by_uid to_account_adoptions to_account_adoption
find-adoption results [] ref here _ = elim here [ ]
find-adoption results (r ∷ refs) ref here (unique, rest) = elim (Bool-cases (r.uid == ref.uid)) [
  | inl same ↦ rw same (ap (λ r. some (to_account_adoption results r)) (unique same))
  | inr other ↦ rw other (elim here [
    | inl it ↦ let same = ap (λ r. r.uid == ref.uid) it ∙ eq_refl ref.uid in absurd cc
    | inr later ↦ find-adoption results refs ref later rest
  ])
]

status-told :
    (ref : AdoptionRef) (result : Option AdoptionResult)
    → ((adoption_status ref result).status == condition_true) ≡ is_success result
unfolding adoption_status
status-told ref none = refl
status-told ref (some r) = elim (Bool-cases (is_successful r)) [
  | inl good ↦ rw good refl
  | inr bad ↦ rw bad refl
]

generation-told :
    (ref : AdoptionRef) (result : Option AdoptionResult)
    → (adoption_status ref result).desired_claim_observed_generation
      ≡ ref.observed_generation_desired_claim
unfolding adoption_status
generation-told ref none = refl
generation-told ref (some r) = elim (Bool-cases (is_successful r)) [
  | inl good ↦ rw good refl
  | inr bad ↦ rw bad refl
]

-- What the controller of exports reads in the status of an account of the adoption of an export is
-- what the account manager has answered for its group: it takes the export for adopted exactly if
-- the result is a success and the claim that was adopted is of the present generation. The export
-- is among those that the account has asked for, where its UID is that of no other one.
pub find_adoption_by_uid-adopted :
    (results : AdoptionResults) (exports : List AccountExport) (e : AccountExport) (generation : ℤ)
    → Any (λ r. r ≡ export_ref e) (map export_ref exports)
    → All (λ r. (r.uid == e.meta.uid) ≡ true → r ≡ export_ref e) (map export_ref exports)
    → is_adopted
        (find_adoption_by_uid (to_account_adoptions (map export_ref exports) results) e.meta.uid)
        generation
      ≡ (is_success (get results e.meta.uid)
          && same_generation (export_ref e).observed_generation_desired_claim generation)
unfolding to_account_adoption
find_adoption_by_uid-adopted results exports e generation listed unique =
    let ref = export_ref e in
    ap (λ a. is_adopted a generation)
      (find-adoption results (map export_ref exports) ref listed unique)
    ∙ ap₂ ◌&&◌ (status-told ref (get results e.meta.uid))
        (ap (λ g. same_generation g generation) (generation-told ref (get results e.meta.uid)))
