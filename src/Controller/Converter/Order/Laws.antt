-- ===== src/Controller/Converter/Order/Laws.antt =====
-- The order of resources is total, and what is sorted by it does not depend on the order before.
use Prim.Native.Nat.{Ordering}
use mathlib.Core.List.{Permᴰ}
use nauth.Common.{
  true, false, List, [], ◌∷◌, All, subst, ◌≡◌, refl, sym, ap, ap₂, ◌∙◌, Bool-cases, inl, inr,
}
use nauth.Controller.Converter.Order.{is_after, insert_sorted, sort_func}

-- A comparison that orders items, up to items that it does not tell apart.
module _ {ℓ} {A : Type ℓ} (cmp : A → A → Ordering)
    (after_trans : (a b c : A)
      → is_after (cmp a b) ≡ false
      → is_after (cmp b c) ≡ false
      → is_after (cmp a c) ≡ false) where
  insert_sorted-after :
      (x y : A) (l : List A)
      → is_after (cmp x y) ≡ true
      → insert_sorted cmp x (y ∷ l) ≡ y ∷ insert_sorted cmp x l
  unfolding insert_sorted
  insert_sorted-after x y l h = rw h refl

  insert_sorted-before :
      (x y : A) (l : List A) → is_after (cmp x y) ≡ false → insert_sorted cmp x (y ∷ l) ≡ x ∷ y ∷ l
  unfolding insert_sorted
  insert_sorted-before x y l h = rw h refl

  insert_sorted-nil : (x : A) → insert_sorted cmp x [] ≡ x ∷ []
  unfolding insert_sorted
  insert_sorted-nil x = refl

  insert_sorted-commute :
      (x y : A) (l : List A)
      → is_after (cmp x y) ≡ true
      → is_after (cmp y x) ≡ false
      → insert_sorted cmp x (insert_sorted cmp y l) ≡ insert_sorted cmp y (insert_sorted cmp x l)
  insert_sorted-commute x y [] more less =
      ap (insert_sorted cmp x) (insert_sorted-nil y)
      ∙ insert_sorted-after x y [] more
      ∙ ap (λ l. y ∷ l) (insert_sorted-nil x)
      ∙ sym (insert_sorted-before y x [] less)
      ∙ ap (insert_sorted cmp y) (sym (insert_sorted-nil x))
  insert_sorted-commute x y (z ∷ zs) more less = elim (Bool-cases (is_after (cmp y z))) [
    | inl y_after ↦ elim (Bool-cases (is_after (cmp x z))) [
      | inl x_after ↦
          ap (insert_sorted cmp x) (insert_sorted-after y z zs y_after)
          ∙ insert_sorted-after x z (insert_sorted cmp y zs) x_after
          ∙ ap (λ l. z ∷ l) (insert_sorted-commute x y zs more less)
          ∙ sym (insert_sorted-after y z (insert_sorted cmp x zs) y_after)
          ∙ ap (insert_sorted cmp y) (sym (insert_sorted-after x z zs x_after))
      | inr x_before ↦ let y_before = after_trans y x z less x_before in absurd cc
    ]
    | inr y_before ↦ elim (Bool-cases (is_after (cmp x z))) [
      | inl x_after ↦
          ap (insert_sorted cmp x) (insert_sorted-before y z zs y_before)
          ∙ insert_sorted-after x y (z ∷ zs) more
          ∙ ap (λ l. y ∷ l) (insert_sorted-after x z zs x_after)
          ∙ sym (insert_sorted-before y z (insert_sorted cmp x zs) y_before)
          ∙ ap (insert_sorted cmp y) (sym (insert_sorted-after x z zs x_after))
      | inr x_before ↦
          ap (insert_sorted cmp x) (insert_sorted-before y z zs y_before)
          ∙ insert_sorted-after x y (z ∷ zs) more
          ∙ ap (λ l. y ∷ l) (insert_sorted-before x z zs x_before)
          ∙ sym (insert_sorted-before y x (z ∷ zs) less)
          ∙ ap (insert_sorted cmp y) (sym (insert_sorted-before x z zs x_before))
    ]
  ]

-- Items of which no two that the comparison does not tell apart are different.
module _ {ℓ κ} {A : Type ℓ} (cmp : A → A → Ordering) (P : A → Type κ)
    (after_trans : (a b c : A)
      → is_after (cmp a b) ≡ false
      → is_after (cmp b c) ≡ false
      → is_after (cmp a c) ≡ false)
    (flip : (a b : A) → is_after (cmp a b) ≡ true → is_after (cmp b a) ≡ false)
    (same : (a b : A)
      → P a
      → P b
      → is_after (cmp a b) ≡ false
      → is_after (cmp b a) ≡ false
      → a ≡ b) where
  insert_sorted-swap :
      (x y : A) (l : List A)
      → P x
      → P y
      → insert_sorted cmp x (insert_sorted cmp y l) ≡ insert_sorted cmp y (insert_sorted cmp x l)
  insert_sorted-swap x y l px py = elim (Bool-cases (is_after (cmp x y))) [
    | inl more ↦ insert_sorted-commute cmp after_trans x y l more (flip x y more)
    | inr less ↦ elim (Bool-cases (is_after (cmp y x))) [
      | inl more ↦ sym (insert_sorted-commute cmp after_trans y x l more less)
      | inr less' ↦
          let equal = same x y px py less less' in
          ap₂ (λ a b. insert_sorted cmp a (insert_sorted cmp b l)) equal (sym equal)
    ]
  ]

  All-perm : {l r : List A} → Permᴰ l r → All P l → All P r
  All-perm Permᴰ.nil h = h
  All-perm (Permᴰ.cons e p) (px, h) = (subst P e px, All-perm p h)
  All-perm (Permᴰ.swap e f) (px, (py, h)) = (subst P f py, (subst P e px, h))
  All-perm (Permᴰ.trans p q) h = All-perm q (All-perm p h)

  pub sort_func-perm : {l r : List A} → Permᴰ l r → All P l → sort_func cmp l ≡ sort_func cmp r
  unfolding sort_func
  sort_func-perm Permᴰ.nil h = refl
  sort_func-perm (Permᴰ.cons e p) (px, h) = ap₂ (insert_sorted cmp) e (sort_func-perm p h)
  sort_func-perm (Permᴰ.swap {a = x} {b = y} {l = l} e f) (px, (py, h)) =
      insert_sorted-swap x y (sort_func cmp l) px py
      ∙ ap₂ (λ a b. insert_sorted cmp a (insert_sorted cmp b (sort_func cmp l))) f e
  sort_func-perm (Permᴰ.trans p q) h = sort_func-perm p h ∙ sort_func-perm q (All-perm p h)
