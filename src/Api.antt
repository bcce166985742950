-- ===== src/Api.antt =====
-- api/v1alpha1 and what it uses of Kubernetes: the metadata of resources, their labels and their
-- conditions. The resources are in the children.
pub mod Accounts
pub mod Exports
pub mod Imports
pub mod Clusters
use nauth.Common.{
  ℕ, ℤ, zero, suc, String, StringMap, Bool, true, false, Option, none, some, List, Arg, Error, ◌≡◌,
  refl, lookup, set_entry, value_or_empty, lookup-set_entry_self, lookup-set_entry_other, ◌==◌,
}

-- A text for people. It keeps the format and the arguments it is made of; `error_in` and `text_in`
-- have an error, which may be nil, and a text as their last argument.
pub data Text : Type 0 where
  literal : String → Text
  sprintf : String → List Arg → Text
  error_text : Error → Text
  error_in : String → List Arg → Option Error → Text
  text_in : String → List Arg → Text → Text

-- Times count from the zero time, which is 0. A nil pointer to a time is `none`.
pub record ObjectMeta : Type 0 where
  pub name : String
  pub namespace : String
  pub uid : String
  pub generation : ℤ
  pub creation_timestamp : ℕ
  pub deletion_timestamp : Option ℕ
  pub labels : StringMap
  pub finalizers : List String

-- `!DeletionTimestamp.IsZero()`.
abbrev pub is_deleted : ObjectMeta → Bool
is_deleted meta = elim meta.deletion_timestamp [
  | none ↦ false
  | some zero ↦ false
  | some (suc _) ↦ true
]

-- `GetLabel` and `SetLabel` of the resources.
unfoldable pub get_label : ObjectMeta → String → String
get_label meta label = value_or_empty (lookup label meta.labels)

unfoldable pub set_label : ObjectMeta → String → String → ObjectMeta
set_label meta label value = record meta { labels = set_entry label value meta.labels }

pub get_label-set_label :
    (meta : ObjectMeta) (key value : String) → get_label (set_label meta key value) key ≡ value
unfolding get_label set_label
get_label-set_label meta key value = rw (lookup-set_entry_self key value meta.labels) refl

pub get_label-set_label_other :
    (meta : ObjectMeta) (key other value : String)
    → (key == other) ≡ false
    → get_label (set_label meta key value) other ≡ get_label meta other
unfolding get_label set_label
get_label-set_label_other meta key other value h =
    rw (lookup-set_entry_other key other value meta.labels h) refl

abbrev pub condition_true : String
condition_true = "True"

abbrev pub condition_false : String
condition_false = "False"

-- `metav1.Condition`, but for the time of its last transition, which the program never reads.
pub record Condition : Type 0 where
  pub type : String
  pub status : String
  pub observed_generation : ℤ
  pub reason : String
  pub message : Text

-- What the program uses of the libraries about conditions, finalizers and the errors of the API.
pub record Machinery : Type 0 where
  pub set_status_condition : List Condition → Condition → List Condition
  pub find_status_condition : List Condition → String → Option Condition
  pub contains_finalizer : List String → String → Bool
  -- Whether the finalizer was added, and the finalizers afterwards.
  pub add_finalizer : List String → String → Bool × List String
  pub remove_finalizer : List String → String → List String
  pub is_not_found : Option Error → Bool

-- What the documentation of the libraries says of them.
pub record IsDocumented (k : Machinery) : Type 0 where
  pub find-set :
      (cs : List Condition) (c : Condition)
      → k.find_status_condition (k.set_status_condition cs c) c.type ≡ some c
  pub find-set_other :
      (cs : List Condition) (c : Condition) (type : String)
      → (c.type == type) ≡ false
      → k.find_status_condition (k.set_status_condition cs c) type ≡ k.find_status_condition cs type
  -- `nil` is no error of the API.
  pub nil_found : k.is_not_found none ≡ false
