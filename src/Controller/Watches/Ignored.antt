-- ===== src/Controller/Watches/Ignored.antt =====
-- The updates of accounts that the controller of exports ignores.
use nauth.Common.{
  String, true, false, Option, none, some, List, [], ◌∷◌, Error, ok, ◌≡◌, refl, sym, ◌∙◌, ap, ap₂,
  ◌==◌, ◌&&◌, eq_iff,
}
use nauth.Account.Keys.{Setting}
use nauth.Api.{Machinery, IsDocumented, Text, get_label}
use nauth.Api.Accounts.{Account, AccountAdoption, AccountAdoptions, account_label_account_id}
use nauth.Api.Exports.{AccountExport, account_export_label_account_id}
use nauth.Controller.{condition_type_ready}
use nauth.Controller.Status.{conditions_ready, find_adoption_by_uid}
use nauth.Controller.Exports.{evaluate, with_account, with_validation, with_binding, adoption_of}
use nauth.Controller.Exports.Conditions.{is_none, is_adopted}
use nauth.Controller.Exports.Ready.{evaluate-ready}
use nauth.Controller.Watches.{
  adoption_states, deep_equal, account_export_adoption_snapshot,
  account_update_affects_account_exports, unaffected,
}
use nauth.Controller.Watches.Snapshots.{HasUniqueUids, adopted_same}

-- The adoptions of exports that an account tells.
abbrev pub export_adoptions : Option AccountAdoptions → List AccountAdoption
export_adoptions none = []
export_adoptions (some adoptions) = adoptions.exports

module _ (print : Text → String) (w : Setting) (k : Machinery) where
  ignored-eq :
      (old new : Account)
      → account_update_affects_account_exports print (some old) (some new) ≡ false
      → (get_label old.meta account_label_account_id ≡ get_label new.meta account_label_account_id)
        × (deep_equal
              (account_export_adoption_snapshot print (some old))
              (account_export_adoption_snapshot print (some new))
            ≡ true)
  unfolding account_update_affects_account_exports
  ignored-eq old new h =
      let old_id = get_label old.meta account_label_account_id in
      let new_id = get_label new.meta account_label_account_id in
      let (same, equal) = unaffected (old_id == new_id) _ h in
      ((eq_iff old_id new_id).0 same, equal)

  told_same :
      (old new : Account) (uid : String) (generation : _)
      → HasUniqueUids (export_adoptions old.status.adoptions)
      → HasUniqueUids (export_adoptions new.status.adoptions)
      → deep_equal
          (account_export_adoption_snapshot print (some old))
          (account_export_adoption_snapshot print (some new))
        ≡ true
      → is_adopted (adoption_of w k old uid) generation
        ≡ is_adopted (adoption_of w k new uid) generation
  unfolding account_export_adoption_snapshot deep_equal
  told_same old new uid generation unique unique' equal =
      of_adoptions old.status.adoptions new.status.adoptions unique unique' equal
    where
      of_adoptions :
          (a b : Option AccountAdoptions)
          → HasUniqueUids (export_adoptions a)
          → HasUniqueUids (export_adoptions b)
          → deep_equal
              (elim a [ none ↦ none | some x ↦ some (adoption_states print x.exports []) ])
              (elim b [ none ↦ none | some x ↦ some (adoption_states print x.exports []) ])
            ≡ true
          → is_adopted
              (elim a [ none ↦ none | some x ↦ find_adoption_by_uid x.exports uid ])
              generation
            ≡ is_adopted
                (elim b [ none ↦ none | some x ↦ find_adoption_by_uid x.exports uid ])
                generation
      of_adoptions none none unique unique' equal = refl
      of_adoptions none (some b) unique unique' equal = cc
      of_adoptions (some a) none unique unique' equal = cc
      of_adoptions (some a) (some b) unique unique' equal =
          adopted_same print a.exports b.exports uid generation unique unique' equal

  patch-eq :
      (state : AccountExport) (validation : Option Error) (account : Account)
      → (evaluate w k state validation (ok account)).1
        ≡ (with_binding w k
            (with_validation w k state validation)
            (get_label account.meta account_label_account_id)).1
  unfolding evaluate with_account
  patch-eq state validation account = refl

  -- An update of an account that the controller of exports ignores changes nothing for an export:
  -- with the account before and after it, the label of the export is new in the same cases, and
  -- where it is not, the export is ready in the same cases. The account tells at most one adoption
  -- for a UID, and the library keeps conditions by their types; messages are compared as they are
  -- printed.
  pub evaluate-ignored :
      IsDocumented k
      → (state : AccountExport) (validation : Option Error) (old new : Account)
      → HasUniqueUids (export_adoptions old.status.adoptions)
      → HasUniqueUids (export_adoptions new.status.adoptions)
      → account_update_affects_account_exports print (some old) (some new) ≡ false
      → ((evaluate w k state validation (ok old)).1 ≡ (evaluate w k state validation (ok new)).1)
        × ((evaluate w k state validation (ok old)).1 ≡ false
            → conditions_ready k
                (evaluate w k state validation (ok old)).0.status.conditions
                (condition_type_ready ∷ [])
              ≡ conditions_ready k
                  (evaluate w k state validation (ok new)).0.status.conditions
                  (condition_type_ready ∷ []))
  evaluate-ignored doc state validation old new unique unique' ignored =
      let (same_id, equal) = ignored-eq old new ignored in
      let patched =
        patch-eq state validation old
        ∙ ap (λ id. (with_binding w k (with_validation w k state validation) id).1) same_id
        ∙ sym (patch-eq state validation new) in
      let told = told_same old new state.meta.uid state.meta.generation unique unique' equal in
      (
        patched,
        λ h.
            evaluate-ready w k doc state validation old h
            ∙ ap₂
                (λ id adopted.
                  (get_label state.meta account_export_label_account_id == id)
                  && (is_none validation && adopted))
                same_id told
            ∙ sym (evaluate-ready w k doc state validation new (sym patched ∙ h)),
      )
