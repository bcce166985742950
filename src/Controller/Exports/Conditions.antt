-- ===== src/Controller/Exports/Conditions.antt =====
-- The conditions of an export, one by one.
use nauth.Common.{
  ℤ, String, Bool, true, false, not, Option, none, some, List, [], ◌∷◌, ◌≡◌, refl, sym, subst, ◌∙◌,
  ap, ◌==◌, ◌&&◌, if◌then◌else◌,
}
use nauth.Api.{Condition, Machinery, IsDocumented, condition_true}
use nauth.Api.Accounts.{AccountAdoption}
use nauth.Api.Exports.{AccountExport}
use nauth.Controller.{
  condition_type_bound_to_account, condition_type_valid_rules, condition_type_adopted_by_account,
}
use nauth.Controller.Status.{conditions_ready}
use nauth.Controller.Exports.{same_generation}

-- One condition is set, which is true exactly if `b` is.
pub record Sets (k : Machinery) (before after : List Condition) (type : String) (b : Bool)
    : Type 0 where
  pub c : Condition
  pub typed : c.type ≡ type
  pub told : (c.status == condition_true) ≡ b
  pub set : after ≡ k.set_status_condition before c

module _ (k : Machinery) (doc : IsDocumented k) where
  pub find-Sets :
      {before after : List Condition} {type : String} {b : Bool} (s : Sets k before after type b)
      → k.find_status_condition after type ≡ some s.c
  find-Sets {before} {type} s =
      ap (λ cs. k.find_status_condition cs type) s.set
      ∙ subst (λ t. k.find_status_condition (k.set_status_condition before s.c) t ≡ some s.c)
          s.typed (doc.find-set before s.c)

  pub find-Sets_other :
      {before after : List Condition} {type : String} {b : Bool} (s : Sets k before after type b)
      (other : String)
      → (type == other) ≡ false
      → k.find_status_condition after other ≡ k.find_status_condition before other
  find-Sets_other {before} s other differs =
      ap (λ cs. k.find_status_condition cs other) s.set
      ∙ doc.find-set_other before s.c other (ap (λ t. t == other) s.typed ∙ differs)

  pub ready_step :
      (cs : List Condition) (type : String) (types : List String) (c : Condition) (b : Bool)
      → k.find_status_condition cs type ≡ some c
      → (c.status == condition_true) ≡ b
      → conditions_ready k cs (type ∷ types) ≡ (b && conditions_ready k cs types)
  unfolding conditions_ready
  ready_step cs type types c true found told = rw found (rw told refl)
  ready_step cs type types c false found told = rw found (rw told refl)

  pub all_ready :
      {cs₀ cs₁ cs₂ cs₃ : List Condition} {v b a : Bool}
      → Sets k cs₀ cs₁ condition_type_valid_rules v
      → Sets k cs₁ cs₂ condition_type_bound_to_account b
      → Sets k cs₂ cs₃ condition_type_adopted_by_account a
      → conditions_ready k cs₃ (
          condition_type_bound_to_account ∷ condition_type_valid_rules
          ∷ condition_type_adopted_by_account ∷ [])
        ≡ (b && (v && (a && true)))
  unfolding conditions_ready
  all_ready {cs₃} {v} {b} {a} sv sb sa =
      let found_bound = find-Sets_other sa condition_type_bound_to_account refl ∙ find-Sets sb in
      let found_valid =
        find-Sets_other sa condition_type_valid_rules refl
        ∙ find-Sets_other sb condition_type_valid_rules refl
        ∙ find-Sets sv in
      ready_step cs₃ condition_type_bound_to_account
        (condition_type_valid_rules ∷ condition_type_adopted_by_account ∷ []) sb.c b found_bound
        sb.told
      ∙ ap (λ x. b && x)
          (ready_step cs₃ condition_type_valid_rules (condition_type_adopted_by_account ∷ []) sv.c v
              found_valid sv.told
            ∙ ap (λ x. v && x)
                (ready_step cs₃ condition_type_adopted_by_account [] sa.c a (find-Sets sa) sa.told))

abbrev pub is_none {ℓ} : {A : Type ℓ} → Option A → Bool
is_none none = true
is_none (some _) = false

-- Adopted in the generation that the resource has.
abbrev pub is_adopted : Option AccountAdoption → ℤ → Bool
is_adopted none generation = false
is_adopted (some adoption) generation =
    adoption.status.status == condition_true
    && same_generation adoption.status.desired_claim_observed_generation generation

-- What holds of every branch holds of the result.
module _ (P : AccountExport → Type 0) where
  pub every_adoption :
      (x y : Bool) (adopted waiting refused : AccountExport)
      → P adopted
      → P waiting
      → P refused
      → P (if x then adopted else if y then waiting else refused)
  every_adoption true y adopted waiting refused p q r = p
  every_adoption false true adopted waiting refused p q r = q
  every_adoption false false adopted waiting refused p q r = r

  pub every_binding :
      (x y : Bool) (binding conflict bound : AccountExport)
      → P conflict
      → P bound
      → let result : AccountExport × Bool =
          if x then (binding, true) else if y then (conflict, false) else (bound, false) in
        result.1 ≡ false → P result.0
  every_binding true y binding conflict bound p q h = cc
  every_binding false true binding conflict bound p q h = p
  every_binding false false binding conflict bound p q h = q

-- The metadata and the claim are those of `state`.
abbrev pub IsKept : AccountExport → AccountExport → Type 0
IsKept state after =
    (after.meta ≡ state.meta) × (after.status.desired_claim ≡ state.status.desired_claim)

module _ (k : Machinery) (cs : List Condition) (type : String) where
  -- The shapes of the branches of the code.
  pub Sets-adoption :
      (x y : Bool) (adopted waiting refused : AccountExport)
      → Sets k cs adopted.status.conditions type true
      → Sets k cs waiting.status.conditions type false
      → Sets k cs refused.status.conditions type false
      → Sets k cs (if x then adopted else if y then waiting else refused).status.conditions type x
  Sets-adoption true y adopted waiting refused s t u = s
  Sets-adoption false true adopted waiting refused s t u = t
  Sets-adoption false false adopted waiting refused s t u = u

  pub Sets-binding :
      (no_label no_id same : Bool) (binding conflict bound : AccountExport)
      → (no_label ≡ true → no_id ≡ true → same ≡ true)
      → Sets k cs conflict.status.conditions type false
      → Sets k cs bound.status.conditions type true
      → let result : AccountExport × Bool =
          if no_label && not no_id
          then (binding, true)
          else if not no_label && not same
          then (conflict, false)
          else (bound, false) in
        result.1 ≡ false → Sets k cs result.0.status.conditions type same
  Sets-binding true false same binding conflict bound both s t h = cc
  Sets-binding true true same binding conflict bound both s t h =
      subst (Sets k cs bound.status.conditions type) (sym (both refl refl)) t
  Sets-binding false no_id true binding conflict bound both s t h = t
  Sets-binding false no_id false binding conflict bound both s t h = s
