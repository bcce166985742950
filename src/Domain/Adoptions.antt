-- ===== src/Domain/Adoptions.antt =====
-- internal/domain/nauth/account.go: the results of adopting groups of exports and imports.
pub mod Laws
use nauth.Common.{
  String, Bool, Option, none, some, List, [], ◌∷◌, Error, Result, ok, err, str, errorf, ◌==◌,
  if◌then◌else◌,
}
use nauth.Domain.Account.{Ref, AccountClaims}

abbrev pub adoption_failure_conflict : String
adoption_failure_conflict = "Conflict"

-- The message is the text of an error, kept as the error; the empty text is `none`.
pub record AdoptionResult : Type 0 where
  pub ref : Ref
  pub failure : String
  pub message : Option Error

unfoldable pub is_successful : AdoptionResult → Bool
is_successful a = a.failure == ""

-- A map from references to results.
abbrev pub AdoptionResults : Type 0
AdoptionResults = List (Ref × AdoptionResult)

unfoldable pub get : AdoptionResults → Ref → Option AdoptionResult
get [] ref = none
get ((k, v) ∷ r) ref = if k == ref then some v else get r ref

unfoldable pub add : AdoptionResults → AdoptionResult → Result AdoptionResults
unfolding get
add r result = elim (get r result.ref) [
  | some _ ↦ err (errorf "adoption result for Ref %q already exists" (str result.ref ∷ []))
  | none ↦ ok ((result.ref, result) ∷ r)
]

pub record AccountAdoptions : Type 0 where
  pub exports : AdoptionResults
  pub imports : AdoptionResults

abbrev pub new_account_adoptions : AccountAdoptions
new_account_adoptions = record { exports = []; imports = [] }

pub record AccountResult : Type 0 where
  pub account_id : String
  pub account_signed_by : String
  pub claims : Option AccountClaims
  pub claims_hash : String
  pub adoptions : Option AccountAdoptions
