-- ===== src/Controller/Converter/Listing.antt =====
-- The groups that an account adopts do not depend on the order in which resources are listed.
use mathlib.Core.List.{Permᴰ}
use nauth.Common.{
  String, false, Option, none, some, List, All, ◌≡◌, sym, ap, ◌∙◌, and_then, ok, map,
}
use nauth.Api.{ObjectMeta}
use nauth.Api.Exports.{AccountExport}
use nauth.Api.Imports.{AccountImport}
use nauth.Controller.Converter.Order.{compare_object_order, is_after, sort_func}
use nauth.Controller.Converter.Order.Total.{
  object_order_trans, object_order-flip, object_order-neither,
}
use nauth.Controller.Converter.Order.Laws.{sort_func-perm}
use nauth.Controller.Converter.Groups.{
  export_groups_from, import_groups_from, to_nauth_export_groups, to_nauth_import_groups,
  export_ref, import_ref,
}

some-injective : {A : Type 0} {a b : A} → some a ≡ some b → a ≡ b
some-injective {a} p = ap (λ o. elim o [ none ↦ a | some x ↦ x ]) p

-- Resources of one kind and one namespace: a name is that of one resource.
module _ {R : Type 0} (meta : R → ObjectMeta) (store : String → Option R) where
  abbrev pub IsListed : R → Type 0
  IsListed r = store (meta r).name ≡ some r

  one_by_name :
      (a b : R)
      → IsListed a
      → IsListed b
      → is_after (compare_object_order (meta a) (meta b)) ≡ false
      → is_after (compare_object_order (meta b) (meta a)) ≡ false
      → a ≡ b
  one_by_name a b listed_a listed_b h k =
      some-injective
        (sym listed_a ∙ ap store (object_order-neither (meta a) (meta b) h k) ∙ listed_b)

  sorted-perm :
      {l r : List R}
      → Permᴰ l r
      → All IsListed l
      → sort_func (λ a b. compare_object_order (meta a) (meta b)) l
        ≡ sort_func (λ a b. compare_object_order (meta a) (meta b)) r
  sorted-perm p listed =
      sort_func-perm (λ a b. compare_object_order (meta a) (meta b)) IsListed
        (λ a b c. object_order_trans (meta a) (meta b) (meta c))
        (λ a b. object_order-flip (meta a) (meta b)) one_by_name p listed

-- Two listings of the same exports and imports of a namespace, in any orders, give the same groups
-- and the same references in the same order, or the same error: a name stands for one resource.
pub groups_ignore_order :
    (export_store : String → Option AccountExport) (import_store : String → Option AccountImport)
    {exports exports' : List AccountExport} {imports imports' : List AccountImport}
    → Permᴰ exports exports'
    → All (IsListed (λ e. e.meta) export_store) exports
    → Permᴰ imports imports'
    → All (IsListed (λ i. i.meta) import_store) imports
    → (to_nauth_export_groups exports ≡ to_nauth_export_groups exports')
      × (to_nauth_import_groups imports ≡ to_nauth_import_groups imports')
unfolding to_nauth_export_groups to_nauth_import_groups
groups_ignore_order export_store import_store p listed q listed' = (
  ap (λ sorted. and_then (export_groups_from 0 sorted) λ groups. ok (groups, map export_ref sorted))
      (sorted-perm (λ e. e.meta) export_store p listed),
  ap (λ sorted. and_then (import_groups_from sorted) λ groups. ok (groups, map import_ref sorted))
      (sorted-perm (λ i. i.meta) import_store q listed'),
)
