-- ===== src/Tests/Machinery.antt =====
-- A library about conditions and finalizers that does what the documentation says.
use nauth.Common.{
  String, Bool, true, false, Option, none, some, List, [], ◌∷◌, Error, ◌≡◌, refl, ◌∙◌, ap, inl, inr,
  Bool-cases, ◌==◌, if◌then◌else◌, eq_refl, eq_iff,
}
use nauth.Api.{Condition, Machinery, IsDocumented}

unfoldable pub set_condition : List Condition → Condition → List Condition
set_condition [] c = c ∷ []
set_condition (d ∷ cs) c =
    let rest = set_condition cs c in if d.type == c.type then c ∷ cs else d ∷ rest

unfoldable pub find_condition : List Condition → String → Option Condition
find_condition [] type = none
find_condition (c ∷ cs) type =
    let rest = find_condition cs type in if c.type == type then some c else rest

unfoldable pub contains : List String → String → Bool
contains [] s = false
contains (x ∷ xs) s = let rest = contains xs s in if x == s then true else rest

unfoldable pub remove : List String → String → List String
remove [] s = []
remove (x ∷ xs) s = let rest = remove xs s in if x == s then rest else x ∷ rest

abbrev pub is_some : Option Error → Bool
is_some none = false
is_some (some e) = true

unfoldable pub machinery : Machinery
unfolding set_condition find_condition contains remove
machinery = record {
  set_status_condition = set_condition;
  find_status_condition = find_condition;
  contains_finalizer = contains;
  add_finalizer = λ xs s. if contains xs s then (false, xs) else (true, s ∷ xs);
  remove_finalizer = remove;
  is_not_found = is_some;
}

find-set_itself :
    (cs : List Condition) (c : Condition) → find_condition (set_condition cs c) c.type ≡ some c
unfolding find_condition set_condition
find-set_itself [] c = rw (eq_refl c.type) refl
find-set_itself (d ∷ cs) c = elim (Bool-cases (d.type == c.type)) [
  | inl same ↦ rw (same, eq_refl c.type) refl
  | inr other ↦ rw (other, other) (find-set_itself cs c)
]

find-set_elsewhere :
    (cs : List Condition) (c : Condition) (type : String)
    → (c.type == type) ≡ false
    → find_condition (set_condition cs c) type ≡ find_condition cs type
unfolding find_condition set_condition
find-set_elsewhere [] c type h = rw h refl
find-set_elsewhere (d ∷ cs) c type h = elim (Bool-cases (d.type == c.type)) [
  | inl same ↦
      let d_other = ap (λ t. t == type) ((eq_iff d.type c.type).0 same) ∙ h in
      rw (same, h, d_other) refl
  | inr other ↦ rw (other, find-set_elsewhere cs c type h) refl
]

pub machinery-IsDocumented : IsDocumented machinery
unfolding machinery find_condition set_condition
machinery-IsDocumented = record {
  find-set = find-set_itself;
  find-set_other = find-set_elsewhere;
  nil_found = refl;
}
