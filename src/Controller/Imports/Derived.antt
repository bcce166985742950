-- ===== src/Controller/Imports/Derived.antt =====
-- From the rules of an import to the imports that an account adopts.
use nauth.Common.{
  ℕ, suc, String, none, List, [], ◌∷◌, Result, ok, wrap, check, reject, ◌≡◌, refl, subst, ◌∙◌, ap,
  and_then-eq-ok, and_then-ok, wrap-eq-ok, ok-injective, errorf, ◌==◌,
}
use nauth.Domain.Names.{is_nil}
use nauth.Domain.Account
use nauth.Effects.Inversion.{wrap-check-eq-ok}
use nauth.Claims.Builder.{validate_imports}
use nauth.Account.Keys.{Setting}
use nauth.Api.Imports.{AccountImportRule, AccountImportRuleDerived}
use nauth.Controller.Converter.{
  to_nauth_export_type, to_api_export_type, to_nauth_imports_from_rules, to_nauth_import_from_rule,
  to_api_account_import_rule_derived,
}
use nauth.Controller.Converter.Types.{to_nauth_export_type-to_api_export_type}
use nauth.Controller.Converter.Groups.{to_nauth_rule_imports}
use nauth.Controller.Imports.{derive_from, validate_import_rules}

derived-back :
    (imp : Account.Import) {d : AccountImportRuleDerived}
    → to_api_account_import_rule_derived imp ≡ ok d
    → to_nauth_import_from_rule d ≡ ok imp
unfolding to_api_account_import_rule_derived to_nauth_import_from_rule
derived-back imp {d} h =
    let (t, converted, e) = and_then-eq-ok (wrap _ [] (to_api_export_type imp.type)) _ h in
    let known = wrap-eq-ok _ [] (to_api_export_type imp.type) converted in
    let back = to_nauth_export_type-to_api_export_type imp.type known in
    subst (λ d. to_nauth_import_from_rule d ≡ ok imp) (ok-injective e)
      (and_then-ok (to_nauth_export_type t) _ back)

wrapped-ok :
    {A : Type 0} (format : String) (args : List _) (r : Result A) {a : A}
    → r ≡ ok a
    → wrap format args r ≡ ok a
wrapped-ok format args r h = ap (wrap format args) h

derive_from-back :
    (i j : ℕ) (name : String) (imports : List Account.Import)
    {derived : List AccountImportRuleDerived}
    → derive_from i imports ≡ ok derived
    → to_nauth_rule_imports j name derived ≡ ok imports
unfolding derive_from to_nauth_rule_imports
derive_from-back i j name [] h =
    subst (λ d. to_nauth_rule_imports j name d ≡ ok []) (ok-injective h) refl
derive_from-back i j name (imp ∷ imports) h =
    let (d, e1, e2) = and_then-eq-ok (wrap _ _ (to_api_account_import_rule_derived imp)) _ h in
    let first = derived-back imp (wrap-eq-ok _ _ (to_api_account_import_rule_derived imp) e1) in
    let (ds, e3, e4) = and_then-eq-ok (derive_from (suc i) imports) _ e2 in
    let rest = derive_from-back (suc i) (suc j) name imports e3 in
    subst (λ d. to_nauth_rule_imports j name d ≡ ok (imp ∷ imports)) (ok-injective e4)
      (and_then-ok (wrap _ _ (to_nauth_import_from_rule d)) _
          (wrapped-ok _ _ (to_nauth_import_from_rule d) first)
        ∙ and_then-ok (to_nauth_rule_imports (suc j) name ds) _ rest)

-- The rules that the controller of imports derives, in the claim that an account is to adopt, give
-- the very imports that it has converted from the rules and that were valid for the importing
-- account, when the controller of accounts converts them. The index is that of the first rule.
pub derived-validated :
    (w : Setting) (import_id export_id : String) (rules : List AccountImportRule)
    {derived : List AccountImportRuleDerived}
    → validate_import_rules w import_id export_id rules ≡ ok derived
    → (imports : List Account.Import) × (to_nauth_imports_from_rules export_id rules ≡ ok imports)
      × (validate_imports w.jwt import_id imports ≡ none)
      × ((j : ℕ) (name : String) → to_nauth_rule_imports j name derived ≡ ok imports)
unfolding validate_import_rules
derived-validated w import_id export_id rules h =
    let has_import = reject (import_id == "") (errorf "import account ID is required" []) in
    let has_export = reject (export_id == "") (errorf "export account ID is required" []) in
    let has_rules = reject (is_nil rules) (errorf "at least one rule is required" []) in
    let convert = to_nauth_imports_from_rules export_id rules in
    let format : String = "failed to convert rules to domain imports: %w" in
    let (_, _, h1) = and_then-eq-ok has_import _ h in
    let (_, _, h2) = and_then-eq-ok has_export _ h1 in
    let (_, _, h3) = and_then-eq-ok has_rules _ h2 in
    let (imports, converted, h4) = and_then-eq-ok (wrap format [] convert) _ h3 in
    let checking = check (validate_imports w.jwt import_id imports) in
    let (_, valid, h5) = and_then-eq-ok (wrap "rules validation failed: %w" [] checking) _ h4 in
    (
      imports,
      wrap-eq-ok format [] convert converted,
      wrap-check-eq-ok "rules validation failed: %w" [] (validate_imports w.jwt import_id imports)
          valid,
      λ j name. derive_from-back 0 j name imports h5,
    )
