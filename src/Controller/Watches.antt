-- ===== src/Controller/Watches.antt =====
-- internal/adapter/inbound/controller: account.go, account_export.go and account_import.go on which
-- changes of one resource have others looked at.
pub mod Snapshots
pub mod Ignored
pub mod Claims
pub mod Requests
use nauth.Common.{
  ℤ, ℤ-discrete, String-discrete, String, Bool, true, false, not, Option, none, some, List, [], ◌∷◌,
  is_yes, ◌≡◌, refl, lookup, set_entry, ◌==◌, ◌&&◌, if◌then◌else◌,
}
use nauth.Domain.Names.{K8s, NamespacedName, to_string}
use nauth.Api.{Text, get_label}
use nauth.Api.Accounts
use nauth.Api.Accounts.{Account, AccountAdoption, account_label_account_id}
use nauth.Api.Exports.{AccountExport, AccountExportRule, account_export_label_account_id}
use nauth.Api.Imports.{
  AccountImport, AccountImportRule, AccountImportRuleDerived, account_import_label_account_id,
}

-- What happens to a resource; an update has it as it was and as it is.
pub data WatchEvent (R : Type 0) : Type 0 where
  create delete generic : R → WatchEvent R
  update : R → R → WatchEvent R

-- What an account tells of an adoption, to be compared. The message is printed.
pub record AdoptionState : Type 0 where
  pub observed_generation : ℤ
  pub status : String
  pub reason : String
  pub message : String
  pub desired_claim_observed_generation : Option ℤ

unfoldable pub AdoptionState-discrete : Discrete AdoptionState
unfolding ℤ-discrete
AdoptionState-discrete = hlevel (String-discrete, ℤ-discrete)

-- A map from UIDs.
abbrev pub AdoptionStates : Type 0
AdoptionStates = List (String × AdoptionState)

-- `reflect.DeepEqual` of two maps: each has the entries of the other.
abbrev pub maps_to : AdoptionStates → String → AdoptionState → Bool
maps_to m uid state = elim (lookup uid m) [
  | none ↦ false
  | some found ↦ is_yes (AdoptionState-discrete found state)
]

unfoldable pub is_within : AdoptionStates → AdoptionStates → Bool
unfolding lookup
is_within [] m = true
is_within ((uid, state) ∷ entries) m = let rest = is_within entries m in maps_to m uid state && rest

-- A nil map is equal to a nil map only.
unfoldable pub deep_equal : Option AdoptionStates → Option AdoptionStates → Bool
unfolding is_within
deep_equal none none = true
deep_equal none (some b) = false
deep_equal (some a) none = false
deep_equal (some a) (some b) = is_within a b && is_within b a

module _ (print : Text → String) where
  abbrev pub adoption_state : AccountAdoption → AdoptionState
  adoption_state adoption = record {
    observed_generation = adoption.observed_generation;
    status = adoption.status.status;
    reason = adoption.status.reason;
    message = print adoption.status.message;
    desired_claim_observed_generation = adoption.status.desired_claim_observed_generation;
  }

  -- The loop, over the map so far: of adoptions with one UID the last one stays.
  unfoldable pub adoption_states : List AccountAdoption → AdoptionStates → AdoptionStates
  unfolding set_entry
  adoption_states [] m = m
  adoption_states (adoption ∷ adoptions) m =
      adoption_states adoptions (set_entry adoption.uid (adoption_state adoption) m)

  unfoldable pub account_export_adoption_snapshot : Option Account → Option AdoptionStates
  unfolding adoption_states
  account_export_adoption_snapshot none = none
  account_export_adoption_snapshot (some account) = elim account.status.adoptions [
    | none ↦ none
    | some adoptions ↦ some (adoption_states adoptions.exports [])
  ]

  unfoldable pub account_import_adoption_snapshot : Option Account → Option AdoptionStates
  unfolding adoption_states
  account_import_adoption_snapshot none = none
  account_import_adoption_snapshot (some account) = elim account.status.adoptions [
    | none ↦ none
    | some adoptions ↦ some (adoption_states adoptions.imports [])
  ]

  unfoldable pub account_update_affects_account_exports : Option Account → Option Account → Bool
  unfolding account_export_adoption_snapshot deep_equal get_label
  account_update_affects_account_exports none new = false
  account_update_affects_account_exports (some old) none = false
  account_update_affects_account_exports (some old) (some new) =
      let old_account_id = get_label old.meta account_label_account_id in
      let new_account_id = get_label new.meta account_label_account_id in
      if not (old_account_id == new_account_id)
      then true
      else not (
          deep_equal (account_export_adoption_snapshot (some old))
            (account_export_adoption_snapshot (some new)))

  unfoldable pub account_update_affects_account_imports : Option Account → Option Account → Bool
  unfolding account_import_adoption_snapshot deep_equal get_label
  account_update_affects_account_imports none new = false
  account_update_affects_account_imports (some old) none = false
  account_update_affects_account_imports (some old) (some new) =
      let old_account_id = get_label old.meta account_label_account_id in
      let new_account_id = get_label new.meta account_label_account_id in
      if not (old_account_id == new_account_id)
      then true
      else not (
          deep_equal (account_import_adoption_snapshot (some old))
            (account_import_adoption_snapshot (some new)))

  unfoldable pub account_export_account_watch_predicate : WatchEvent Account → Bool
  unfolding account_update_affects_account_exports
  account_export_account_watch_predicate (WatchEvent.create account) = true
  account_export_account_watch_predicate (WatchEvent.delete account) = true
  account_export_account_watch_predicate (WatchEvent.update old new) =
      account_update_affects_account_exports (some old) (some new)
  account_export_account_watch_predicate (WatchEvent.generic account) = false

  unfoldable pub account_import_account_watch_predicate : WatchEvent Account → Bool
  unfolding account_update_affects_account_imports
  account_import_account_watch_predicate (WatchEvent.create account) = true
  account_import_account_watch_predicate (WatchEvent.delete account) = true
  account_import_account_watch_predicate (WatchEvent.update old new) =
      account_update_affects_account_imports (some old) (some new)
  account_import_account_watch_predicate (WatchEvent.generic account) = false

unfoldable pub account_update_affects_export_account_imports :
    Option Account → Option Account → Bool
unfolding get_label
account_update_affects_export_account_imports none new = false
account_update_affects_export_account_imports (some old) none = false
account_update_affects_export_account_imports (some old) (some new) =
    not (get_label old.meta account_label_account_id == get_label new.meta account_label_account_id)

unfoldable pub account_import_export_account_watch_predicate : WatchEvent Account → Bool
unfolding account_update_affects_export_account_imports
account_import_export_account_watch_predicate (WatchEvent.create account) = true
account_import_export_account_watch_predicate (WatchEvent.delete account) = true
account_import_export_account_watch_predicate (WatchEvent.update old new) =
    account_update_affects_export_account_imports (some old) (some new)
account_import_export_account_watch_predicate (WatchEvent.generic account) = false

-- Both tests of an update that is ignored have failed.
pub unaffected :
    (same equal : Bool)
    → (if not same then true else not equal) ≡ false
    → (same ≡ true) × (equal ≡ true)
unaffected true true h = (refl, refl)
unaffected true false h = cc
unaffected false equal h = cc
