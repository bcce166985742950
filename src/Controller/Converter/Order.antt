-- ===== src/Controller/Converter/Order.antt =====
-- internal/adapter/inbound/controller/account_converter.go: `compareObjectOrder`, and Go's
-- `slices.SortFunc` by it.
pub mod Total
pub mod Laws
use Prim.Native.Nat.{compare, Ordering}
use Prim.Native.String.{compare as compare_strings, then as first_of}
use nauth.Common.{ℕ, Bool, true, false, List, [], ◌∷◌, if◌then◌else◌}
use nauth.Api.{ObjectMeta}

-- The zero time is 0 already.
abbrev pub object_creation_time : ObjectMeta → ℕ
object_creation_time meta = meta.creation_timestamp

-- `cmp.Compare` of strings is by their characters from left to right.
unfoldable pub compare_object_order : ObjectMeta → ObjectMeta → Ordering
compare_object_order a b =
    first_of (compare (object_creation_time a) (object_creation_time b))
      (compare_strings a.name b.name)

abbrev pub is_after : Ordering → Bool
is_after Ordering.gt = true
is_after _ = false

-- `slices.SortFunc`, which leaves the order of items that compare as equal open: here they keep it.
module _ {ℓ} {A : Type ℓ} (cmp : A → A → Ordering) where
  unfoldable pub insert_sorted : A → List A → List A
  insert_sorted x [] = x ∷ []
  insert_sorted x (y ∷ ys) =
      let rest = insert_sorted x ys in if is_after (cmp x y) then y ∷ rest else x ∷ y ∷ ys

  unfoldable pub sort_func : List A → List A
  unfolding insert_sorted
  sort_func [] = []
  sort_func (x ∷ xs) = insert_sorted x (sort_func xs)
