-- ===== src/Domain/Account/Requests.antt =====
-- What a validated account request guarantees: internal/domain/nauth/account.go.
use nauth.Common.{
  Option, Error, String, false, none, List, [], ◌∷◌, ◌≡◌, ◌≢◌, ◌↔◌, refl, map, some, arith, any,
  ◌==◌, eq_iff,
}
use nauth.Domain.Names.{K8s}
use nauth.Domain.Account
use nauth.Domain.Account.{
  Ref, AccountRequest, validate_refs, validate_export_groups, validate_import_groups,
  validate_target, validate, first_error,
}

-- Non-empty references, none of which occurs in `seen` or twice.
abbrev pub AreFresh : List Ref → List Ref → Type 0
AreFresh seen [] = Unit
AreFresh seen (ref ∷ refs) =
    (ref ≢ "") × (any (λ r. r == ref) seen ≡ false) × AreFresh (ref ∷ seen) refs

pub validate_refs_iff :
    (required duplicate : String) (seen refs : List Ref)
    → (validate_refs required duplicate seen refs ≡ none) ↔ AreFresh seen refs
unfolding validate_refs
validate_refs_iff required duplicate seen [] = (λ _. tt, λ _. refl)
validate_refs_iff required duplicate seen (ref ∷ refs) =
    let ih = validate_refs_iff required duplicate (ref ∷ seen) refs in
    ground (arith, eq_iff ref "", ih)

validate_export_groups_iff :
    (groups : List Account.ExportGroup)
    → (validate_export_groups groups ≡ none) ↔ AreFresh [] (map (λ g. g.ref) groups)
unfolding validate_export_groups
validate_export_groups_iff groups = validate_refs_iff _ _ [] (map (λ g. g.ref) groups)

validate_import_groups_iff :
    (groups : List Account.ImportGroup)
    → (validate_import_groups groups ≡ none) ↔ AreFresh [] (map (λ g. g.ref) groups)
unfolding validate_import_groups
validate_import_groups_iff groups = validate_refs_iff _ _ [] (map (λ g. g.ref) groups)

first_error_iff : (a b : Option Error) → (first_error a b ≡ none) ↔ ((a ≡ none) × (b ≡ none))
first_error_iff none b = (λ h. (refl, h), λ h. h.1)
first_error_iff (some e) b = (λ h. cc, λ h. cc)

module _ (k8s : K8s) (r : AccountRequest) where
  -- A request is valid exactly if the reference of the account and its cluster target are, and the
  -- references of its export groups are non-empty and all different, and so are those of its import
  -- groups.
  pub validate_iff : (validate k8s r ≡ none) ↔ (
      (validate_target k8s r.account_ref r.cluster_target ≡ none)
      × AreFresh [] (map (λ (g : Account.ExportGroup). g.ref) r.export_groups)
      × AreFresh [] (map (λ (g : Account.ImportGroup). g.ref) r.import_groups))
  unfolding validate
  validate_iff =
      let exports = validate_export_groups_iff r.export_groups in
      let imports = validate_import_groups_iff r.import_groups in
      let rest =
        first_error_iff (validate_export_groups r.export_groups)
          (validate_import_groups r.import_groups) in
      let all = first_error_iff (validate_target k8s r.account_ref r.cluster_target) _ in
      (
        λ h.
            let (target, h') = all.0 h in
            let (e, i) = rest.0 h' in (target, exports.0 e, imports.0 i),
        λ (target, e, i). all.1 (target, rest.1 (exports.1 e, imports.1 i)),
      )
