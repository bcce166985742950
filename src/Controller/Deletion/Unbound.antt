-- ===== src/Controller/Deletion/Unbound.antt =====
-- Nothing is bound to an account that the controller of accounts lets go of.
use nauth.Common.{
  String, not, List, [], ◌∷◌, Error, Result, ok, err, reject, ◌≡◌, refl, sym, ◌∙◌, ap, ◌⊎◌, inl,
  inr, ok-injective, ◌==◌, eq_iff, arith,
}
use nauth.Domain.Names.{is_nil}
use nauth.Domain.Account.{AccountReference, AccountId}
use nauth.Effects.{History, Fallible, perform}
use nauth.Effects.Fallible.{pure}
use nauth.Effects.Inversion.{
  then-eq-ok, lift-then-eq-ok, lift-eq-ok, wrapping-eq-ok, perform-eq-ok, if-eq-ok,
}
use nauth.Account.Keys.{Setting}
use nauth.Account.Delete.{delete}
use nauth.Api.Accounts.{account_management_policy_observe}
use nauth.Controller.Requests.{find_exports_by_account_id, find_imports_by_account_id}
use nauth.Controller.Deletion.{
  listing, unknown_or, require_unbound, validate_account_deletion, identify,
}

-- When the users, the exports and the imports with the label of an account were listed, there were
-- none.
pub record IsUnbound (w : Setting) (namespace : String) (id : AccountId) : Type 0 where
  pub users_at : History
  pub exports_at : History
  pub imports_at : History
  pub no_users : w.world.list_users users_at namespace id ≡ ok []
  pub no_exports : w.world.list_exports exports_at namespace id ≡ ok []
  pub no_imports : w.world.list_imports imports_at namespace id ≡ ok []

pub unknown_or-eq-ok : {A : Type 0} (r : Result A) {a : A} → unknown_or r ≡ ok a → r ≡ ok a
unfolding unknown_or
unknown_or-eq-ok (ok b) e = e
unknown_or-eq-ok (err x) e = cc

pub listing-eq-ok :
    {A : Type 0} (m : Fallible A) (h : History) {a : A}
    → (listing m h).0 ≡ ok a
    → ((m h).0 ≡ ok a) × ((listing m h).1 ≡ (m h).1)
unfolding listing
listing-eq-ok m h e = (unknown_or-eq-ok (m h).0 e, refl)

pub nil_of_reject :
    {A : Type 0} (xs : List A) (e : Error) {u : Unit {0}}
    → reject (not (is_nil xs)) e ≡ ok u
    → xs ≡ []
nil_of_reject [] e h = refl
nil_of_reject (x ∷ xs) e h = cc

module _ (w : Setting) where
  pub exports-eq-ok :
      (namespace : String) (id : AccountId) (h : History) {es : List _}
      → (find_exports_by_account_id w.world namespace id h).0 ≡ ok es
      → w.world.list_exports h namespace id ≡ ok es
  unfolding find_exports_by_account_id
  exports-eq-ok namespace id h e =
      let (_, _, e1, _) = lift-then-eq-ok (reject (id == "") _) _ h e in
      let (e2, _) =
        wrapping-eq-ok _ _ (perform _ (λ h. w.world.list_exports h namespace id)) h e1 in
      let (listed, _) = perform-eq-ok _ (λ h. w.world.list_exports h namespace id) h e2 in listed

  pub imports-eq-ok :
      (namespace : String) (id : AccountId) (h : History) {imports : List _}
      → (find_imports_by_account_id w.world namespace id h).0 ≡ ok imports
      → w.world.list_imports h namespace id ≡ ok imports
  unfolding find_imports_by_account_id
  imports-eq-ok namespace id h e =
      let (_, _, e1, _) = lift-then-eq-ok (reject (id == "") _) _ h e in
      let (e2, _) =
        wrapping-eq-ok _ _ (perform _ (λ h. w.world.list_imports h namespace id)) h e1 in
      let (listed, _) = perform-eq-ok _ (λ h. w.world.list_imports h namespace id) h e2 in listed

  pub require_unbound-IsUnbound :
      (namespace : String) (id : AccountId) (h : History) {u : Unit {0}}
      → (require_unbound w namespace id h).0 ≡ ok u
      → IsUnbound w namespace id
  unfolding require_unbound
  require_unbound-IsUnbound namespace id h e =
      let (users, e1, e2, _) = then-eq-ok (listing _) _ h e in
      let (e3, _) = listing-eq-ok (perform _ (λ h. w.world.list_users h namespace id)) h e1 in
      let (users_listed, _) = perform-eq-ok _ (λ h. w.world.list_users h namespace id) h e3 in
      let (_, users_nil, e4, _) = lift-then-eq-ok _ _ _ e2 in
      let (exports, e5, e6, _) = then-eq-ok (listing _) _ _ e4 in
      let (e7, _) = listing-eq-ok (find_exports_by_account_id w.world namespace id) _ e5 in
      let exports_listed = exports-eq-ok namespace id _ e7 in
      let (_, exports_nil, e8, _) = lift-then-eq-ok _ _ _ e6 in
      let (imports, e9, e10, _) = then-eq-ok (listing _) _ _ e8 in
      let (e11, _) = listing-eq-ok (find_imports_by_account_id w.world namespace id) _ e9 in
      let imports_listed = imports-eq-ok namespace id _ e11 in
      let (imports_nil, _) = lift-eq-ok _ _ e10 in
      record {
        users_at = _;
        exports_at = _;
        imports_at = _;
        no_users = users_listed ∙ ap ok (nil_of_reject users _ users_nil);
        no_exports = exports_listed ∙ ap ok (nil_of_reject exports _ exports_nil);
        no_imports = imports_listed ∙ ap ok (nil_of_reject imports _ imports_nil);
      }

  -- The account is identified by the ID of the resource, or of its secrets if that is empty.
  pub identify-eq-ok :
      (reference : AccountReference) (h : History) {r : AccountReference}
      → (identify w reference h).0 ≡ ok r
      → (reference.account_id ≡ "") ⊎ (r ≡ reference)
  unfolding identify pure
  identify-eq-ok reference h e = elim (if-eq-ok (reference.account_id == "") _ _ h e) [
    | inl (empty, _, _) ↦ inl (ground (arith, eq_iff reference.account_id ""))
    | inr (_, kept, _) ↦ inr (sym (ok-injective kept))
  ]

  pub validate-IsUnbound :
      (id : AccountId) (namespace : String) (h : History) {u : Unit {0}}
      → (validate_account_deletion w id namespace h).0 ≡ ok u
      → (id ≡ "") ⊎ IsUnbound w namespace id
  unfolding validate_account_deletion
  validate-IsUnbound id namespace h e = elim (if-eq-ok (id == "") _ _ h e) [
    | inl (empty, _, _) ↦ inl (ground (arith, eq_iff id ""))
    | inr (_, required, _) ↦ inr (require_unbound-IsUnbound namespace id h required)
  ]

-- `Delete` of the account manager has returned without an error, if there was anything to delete.
abbrev pub IsDeleted : Setting → AccountReference → String → History → Type 0
IsDeleted w reference policy after =
    (policy ≡ account_management_policy_observe)
    ⊎ ((reference.account_id ≡ "")
        ⊎ ((at : History) × ((delete w reference at).0 ≡ ok tt)
            × ((delete w reference at).1 ≡ after)))
