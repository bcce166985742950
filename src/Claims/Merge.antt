-- ===== src/Claims/Merge.antt =====
-- internal/core/account_claims.go: merging the items of a group into those of the claims.
pub mod Union
use nauth.Common.{
  Bool, false, ◌&&◌, ◌||◌, Option, none, some, List, [], ◌∷◌, ◌++◌, is_yes, if◌then◌else◌,
}

-- `deep_equal` is `reflect.DeepEqual`, which on these structs decides equality.
module _ {A : Type 0} (deep_equal : Discrete A) where
  -- The inner loop: whether an item that is not nil equals `a`.
  unfoldable pub holds : List (Option A) → A → Bool
  holds [] a = false
  holds (none ∷ es) a = holds es a
  holds (some e ∷ es) a = is_yes (deep_equal e a) || holds es a

  unfoldable pub merge_jwt_items : List (Option A) → List (Option A) → Bool → List (Option A)
  unfolding holds
  merge_jwt_items result [] merge_duplicates = result
  merge_jwt_items result (none ∷ additions) merge_duplicates =
      merge_jwt_items result additions merge_duplicates
  merge_jwt_items result (some a ∷ additions) merge_duplicates =
      merge_jwt_items
        (if merge_duplicates && holds result a then result else result ++ (some a ∷ [])) additions
        merge_duplicates
