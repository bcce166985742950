-- ===== src/Claims/Merge/Union.antt =====
-- Merging is the union of two lists of items: internal/core/account_claims.go.
use mathlib.Core.List.{append-nil, append_assoc}
use nauth.Common.{
  true, false, ◌&&◌, ◌||◌, Option, none, some, List, [], ◌∷◌, ◌++◌, is_yes, is_yes_iff,
  if◌then◌else◌, ◌≡◌, ◌∙◌, refl, sym, ap, arith, Bool-cases, inl, inr,
}
use nauth.Claims.Merge.{holds, merge_jwt_items}

module _ {A : Type 0} (deep_equal : Discrete A) where
  -- No item that is not nil equals a later one.
  abbrev pub HasNoDuplicates : List (Option A) → Type 0
  HasNoDuplicates [] = Unit
  HasNoDuplicates (none ∷ es) = HasNoDuplicates es
  HasNoDuplicates (some e ∷ es) = (holds deep_equal es e ≡ false) × HasNoDuplicates es

  pub holds-append :
      (es fs : List (Option A)) (a : A)
      → holds deep_equal (es ++ fs) a ≡ (holds deep_equal es a || holds deep_equal fs a)
  unfolding holds
  holds-append [] fs a = refl
  holds-append (none ∷ es) fs a = holds-append es fs a
  holds-append (some e ∷ es) fs a = ground (arith, holds-append es fs a)

  holds_one : (e a : A) → holds deep_equal (some e ∷ []) a ≡ is_yes (deep_equal e a)
  unfolding holds
  holds_one e a = ground arith

  -- Holding depends on the value alone.
  holds_of_eq :
      (es : List (Option A)) (e a : A)
      → is_yes (deep_equal e a) ≡ true
      → holds deep_equal es e ≡ holds deep_equal es a
  holds_of_eq es e a h = ap (holds deep_equal es) ((is_yes_iff (deep_equal e a)).0 h)

  abbrev step : List (Option A) → A → List (Option A)
  step result a = if true && holds deep_equal result a then result else result ++ (some a ∷ [])

  holds-step :
      (result : List (Option A)) (a x : A)
      → holds deep_equal (step result a) x ≡ (holds deep_equal result x || is_yes (deep_equal a x))
  holds-step result a x =
      ground (arith, holds-append result (some a ∷ []) x, holds_one a x, holds_of_eq result a x)

  pub holds-merge :
      (result additions : List (Option A)) (x : A)
      → holds deep_equal (merge_jwt_items deep_equal result additions true) x
        ≡ (holds deep_equal result x || holds deep_equal additions x)
  unfolding merge_jwt_items
  holds-merge result [] x = ground arith
  holds-merge result (none ∷ additions) x = holds-merge result additions x
  holds-merge result (some a ∷ additions) x =
      holds-merge (step result a) additions x ∙ ground (arith, holds-step result a x)

  -- Every item of the second list that is not nil is held by the first.
  abbrev pub Covers : List (Option A) → List (Option A) → Type 0
  Covers result [] = Unit
  Covers result (none ∷ es) = Covers result es
  Covers result (some e ∷ es) = (holds deep_equal result e ≡ true) × Covers result es

  holds_self : (es : List (Option A)) (a : A) → holds deep_equal (some a ∷ es) a ≡ true
  unfolding holds
  holds_self es a = rw ((is_yes_iff (deep_equal a a)).1 refl)

  holds_later :
      (e : Option A) (es : List (Option A)) (a : A)
      → holds deep_equal es a ≡ true
      → holds deep_equal (e ∷ es) a ≡ true
  unfolding holds
  holds_later none es a h = h
  holds_later (some e) es a h = ground arith

  pub all_held-Covers :
      (result es : List (Option A))
      → ((x : A) → holds deep_equal es x ≡ true → holds deep_equal result x ≡ true)
      → Covers result es
  all_held-Covers result [] h = tt
  all_held-Covers result (none ∷ es) h =
      all_held-Covers result es (λ x held. h x (holds_later none es x held))
  all_held-Covers result (some e ∷ es) h = (
    h e (holds_self es e),
    all_held-Covers result es (λ x held. h x (holds_later (some e) es x held)),
  )

  merge_of_Covers :
      (result es : List (Option A))
      → Covers result es
      → merge_jwt_items deep_equal result es true ≡ result
  unfolding merge_jwt_items
  merge_of_Covers result [] _ = refl
  merge_of_Covers result (none ∷ es) c = merge_of_Covers result es c
  merge_of_Covers result (some e ∷ es) (held, c) = rw held (merge_of_Covers result es c)

  pub merge-Covers :
      (result additions : List (Option A))
      → Covers (merge_jwt_items deep_equal result additions true) additions
  merge-Covers result additions =
      all_held-Covers _ additions λ x held. ground (arith, holds-merge result additions x)

  absent_symm : (e a : A) → is_yes (deep_equal e a) ≡ false → is_yes (deep_equal a e) ≡ false
  absent_symm e a h = elim (Bool-cases (is_yes (deep_equal a e))) [
    | inl same ↦
        let eq : a ≡ e = (is_yes_iff (deep_equal a e)).0 same in
        let back : is_yes (deep_equal e a) ≡ true = (is_yes_iff (deep_equal e a)).1 (sym eq) in cc
    | inr different ↦ different
  ]

  append-HasNoDuplicates :
      (es : List (Option A)) (a : A)
      → holds deep_equal es a ≡ false
      → HasNoDuplicates es
      → HasNoDuplicates (es ++ (some a ∷ []))
  unfolding holds
  append-HasNoDuplicates [] a _ _ = (refl, tt)
  append-HasNoDuplicates (none ∷ es) a new h = append-HasNoDuplicates es a new h
  append-HasNoDuplicates (some e ∷ es) a new (once, h) = (
    ground (arith, holds-append es (some a ∷ []) e, holds_one a e, absent_symm e a),
    append-HasNoDuplicates es a (ground arith) h,
  )

  step-HasNoDuplicates :
      (result : List (Option A)) (a : A) → HasNoDuplicates result → HasNoDuplicates (step result a)
  step-HasNoDuplicates result a h = elim (Bool-cases (holds deep_equal result a)) [
    | inl held ↦ rw held h
    | inr new ↦ rw new (append-HasNoDuplicates result a new h)
  ]

  pub merge-HasNoDuplicates :
      (result additions : List (Option A))
      → HasNoDuplicates result
      → HasNoDuplicates (merge_jwt_items deep_equal result additions true)
  unfolding merge_jwt_items
  merge-HasNoDuplicates result [] h = h
  merge-HasNoDuplicates result (none ∷ additions) h = merge-HasNoDuplicates result additions h
  merge-HasNoDuplicates result (some a ∷ additions) h =
      merge-HasNoDuplicates (step result a) additions (step-HasNoDuplicates result a h)

  step-prefix :
      (result : List (Option A)) (a : A) → (new : List (Option A)) × (step result a ≡ result ++ new)
  step-prefix result a = elim (Bool-cases (holds deep_equal result a)) [
    | inl held ↦ ([], rw held (sym (append-nil result)))
    | inr new ↦ (some a ∷ [], rw new refl)
  ]

  merge-prefix :
      (result additions : List (Option A))
      → (new : List (Option A)) × (merge_jwt_items deep_equal result additions true ≡ result ++ new)
  unfolding merge_jwt_items
  merge-prefix result [] = ([], sym (append-nil result))
  merge-prefix result (none ∷ additions) = merge-prefix result additions
  merge-prefix result (some a ∷ additions) =
      let (first, p) = step-prefix result a in
      let (more, q) = merge-prefix (step result a) additions in
      (first ++ more, q ∙ ap (λ r. r ++ more) p ∙ append_assoc result first more)

  -- Merging with removal of duplicates is a union: the items that the claims had stay first and in
  -- order, an item is held afterwards exactly if one of the lists held it, and no two items are
  -- equal if none were before.
  pub merge-union :
      (result additions : List (Option A))
      → HasNoDuplicates result
      → ((new : List (Option A)) × (merge_jwt_items deep_equal result additions true
            ≡ result ++ new))
        × ((x : A)
            → holds deep_equal (merge_jwt_items deep_equal result additions true) x
              ≡ (holds deep_equal result x || holds deep_equal additions x))
        × HasNoDuplicates (merge_jwt_items deep_equal result additions true)
  merge-union result additions h = (
    merge-prefix result additions,
    holds-merge result additions,
    merge-HasNoDuplicates result additions h,
  )

  -- Merging the same items a second time changes nothing.
  pub merge_twice :
      (result additions : List (Option A))
      → merge_jwt_items deep_equal (merge_jwt_items deep_equal result additions true) additions true
        ≡ merge_jwt_items deep_equal result additions true
  merge_twice result additions = merge_of_Covers _ additions (merge-Covers result additions)

  holds_of_Covers :
      (result es : List (Option A)) (x : A)
      → Covers result es
      → holds deep_equal es x ≡ true
      → holds deep_equal result x ≡ true
  unfolding holds
  holds_of_Covers result [] x c h = cc
  holds_of_Covers result (none ∷ es) x c h = holds_of_Covers result es x c h
  holds_of_Covers result (some e ∷ es) x (held, c) h =
      ground (arith, holds_of_eq result e x, holds_of_Covers result es x c)

  -- What is covered before a merge is covered after it.
  pub merge-Covers_old :
      (result additions es : List (Option A))
      → Covers result es
      → Covers (merge_jwt_items deep_equal result additions true) es
  merge-Covers_old result additions es c =
      all_held-Covers _ es
        λ x held. ground (arith, holds-merge result additions x, holds_of_Covers result es x c held)
