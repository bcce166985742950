-- ===== src/Controller/Exports/Ready.antt =====
-- When the controller of exports reports an export as ready.
use nauth.Common.{
  ℤ-discrete, is_yes_iff, String, Bool, true, false, not, Option, none, some, [], ◌∷◌, Error, ok,
  ◌≡◌, refl, ◌∙◌, ap, ap₂, ◌==◌, ◌&&◌, if◌then◌else◌, eq_iff, arith,
}
use nauth.Account.Keys.{Setting}
use nauth.Api.{Machinery, IsDocumented, literal, get_label, condition_true}
use nauth.Api.Accounts
use nauth.Api.Accounts.{AccountAdoption, account_label_account_id}
use nauth.Api.Exports.{AccountExport, account_export_label_account_id}
use nauth.Controller.{
  condition_type_ready, condition_type_bound_to_account, condition_type_valid_rules,
  condition_type_adopted_by_account, condition_reason_reconciling,
}
use nauth.Controller.Status.{conditions_ready}
use nauth.Controller.Exports.{
  same_generation, is_current, with_validation, with_binding, with_adoption, adoption_of,
  with_account, is_account_export_ready, with_ready, evaluate, update_condition_true,
  update_condition_false,
}
use nauth.Controller.Exports.Conditions.{
  Sets, ready_step, all_ready, is_none, is_adopted, every_adoption, every_binding, IsKept,
  Sets-adoption, Sets-binding,
}

module _ (w : Setting) (k : Machinery) where
  validation-Sets :
      (state : AccountExport) (e : Option Error)
      → Sets k state.status.conditions
          (with_validation w k state e).status.conditions
          condition_type_valid_rules
          (is_none e)
  unfolding with_validation
  validation-Sets state none = record { c = _; typed = refl; told = refl; set = refl }
  validation-Sets state (some e) = record { c = _; typed = refl; told = refl; set = refl }

  validation-meta :
      (state : AccountExport) (e : Option Error) → (with_validation w k state e).meta ≡ state.meta
  unfolding with_validation
  validation-meta state none = refl
  validation-meta state (some e) = refl

  adoption-Sets :
      (state : AccountExport) (adoption : Option AccountAdoption)
      → Sets k state.status.conditions
          (with_adoption w k state adoption).status.conditions
          condition_type_adopted_by_account
          (is_adopted adoption state.meta.generation)
  unfolding with_adoption
  adoption-Sets state none = record { c = _; typed = refl; told = refl; set = refl }
  adoption-Sets state (some adoption) =
      let same =
        same_generation adoption.status.desired_claim_observed_generation state.meta.generation in
      Sets-adoption k state.status.conditions condition_type_adopted_by_account
        (adoption.status.status == condition_true && same) (not same) _ _ _
        (record { c = _; typed = refl; told = refl; set = refl })
        (record { c = _; typed = refl; told = refl; set = refl })
        (record { c = _; typed = refl; told = refl; set = refl })

  binding-Sets :
      (state : AccountExport) (id : String)
      → (with_binding w k state id).1 ≡ false
      → Sets k state.status.conditions
          (with_binding w k state id).0.status.conditions
          condition_type_bound_to_account
          (get_label state.meta account_export_label_account_id == id)
  unfolding with_binding
  binding-Sets state id h =
      let label = get_label state.meta account_export_label_account_id in
      Sets-binding k state.status.conditions condition_type_bound_to_account (label == "")
        (id == "") (label == id) _ _ _
        (λ no_label no_id. ground (arith, eq_iff label "", eq_iff id "", eq_iff label id))
        (record { c = _; typed = refl; told = refl; set = refl })
        (record { c = _; typed = refl; told = refl; set = refl }) h

  binding-IsKept :
      (state : AccountExport) (id : String)
      → (with_binding w k state id).1 ≡ false
      → IsKept state (with_binding w k state id).0
  unfolding with_binding
  binding-IsKept state id h =
      let label = get_label state.meta account_export_label_account_id in
      every_binding (IsKept state) (label == "" && not (id == ""))
        (not (label == "") && not (label == id)) _ _ _ (refl, refl) (refl, refl) h

  adoption-IsKept :
      (state : AccountExport) (adoption : Option AccountAdoption)
      → IsKept state (with_adoption w k state adoption)
  unfolding with_adoption
  adoption-IsKept state none = (refl, refl)
  adoption-IsKept state (some adoption) =
      let same =
        same_generation adoption.status.desired_claim_observed_generation state.meta.generation in
      every_adoption (IsKept state) (adoption.status.status == condition_true && same) (not same) _
        _ _ (refl, refl) (refl, refl) (refl, refl)

  ready-eq :
      (state : AccountExport)
      → is_account_export_ready w k state ≡ (
          conditions_ready k state.status.conditions (
            condition_type_bound_to_account ∷ condition_type_valid_rules
            ∷ condition_type_adopted_by_account ∷ [])
          && is_current state.status.desired_claim state.meta.generation)
  unfolding is_account_export_ready
  ready-eq state = refl

  -- The condition `Ready` is true exactly if the resource is ready.
  with_ready-told :
      IsDocumented k
      → (state : AccountExport)
      → conditions_ready k (with_ready w k state).status.conditions (condition_type_ready ∷ [])
        ≡ is_account_export_ready w k state
  unfolding with_ready
  with_ready-told doc state = told_if (is_account_export_ready w k state)
    where
      told_if :
          (b : Bool)
          → let result : AccountExport =
              if b
              then update_condition_true w k state condition_type_ready
              else update_condition_false w k state condition_type_ready
                  condition_reason_reconciling
                  (literal "All conditions not met") in
            conditions_ready k result.status.conditions (condition_type_ready ∷ []) ≡ b
      told_if true = ready_step k doc _ condition_type_ready [] _ true (doc.find-set _ _) refl
      told_if false = ready_step k doc _ condition_type_ready [] _ false (doc.find-set _ _) refl

  current_if_valid :
      (state : AccountExport) (e : Option Error)
      → is_none e ≡ true
      → is_current (with_validation w k state e).status.desired_claim state.meta.generation ≡ true
  unfolding with_validation
  current_if_valid state none h =
      (is_yes_iff (ℤ-discrete state.meta.generation state.meta.generation)).1 refl
  current_if_valid state (some e) h = cc

collapse :
    (bound valid adopted current : Bool)
    → (valid ≡ true → current ≡ true)
    → ((bound && (valid && (adopted && true))) && current) ≡ (bound && (valid && adopted))
collapse false valid adopted current h = refl
collapse true false adopted current h = refl
collapse true true false current h = refl
collapse true true true current h = h refl

module _ (w : Setting) (k : Machinery) (doc : IsDocumented k) where
  -- When the controller of exports has read the account and no label is new, so that it stores the
  -- status, the condition `Ready` is true exactly if the rules are valid, the label of the export
  -- is the ID of the account and the account tells that it has adopted this generation of the
  -- export. An empty label is that of an account without an ID. The library keeps conditions by
  -- their types.
  pub evaluate-ready :
      (state : AccountExport) (validation : Option Error) (account : Accounts.Account)
      → (evaluate w k state validation (ok account)).1 ≡ false
      → conditions_ready k
          (evaluate w k state validation (ok account)).0.status.conditions
          (condition_type_ready ∷ [])
        ≡ ((get_label state.meta account_export_label_account_id
              == get_label account.meta account_label_account_id)
            && (is_none validation
                && is_adopted (adoption_of w k account state.meta.uid) state.meta.generation))
  unfolding evaluate with_account
  evaluate-ready state validation account h =
      let id = get_label account.meta account_label_account_id in
      let valid = with_validation w k state validation in
      let bound = (with_binding w k valid id).0 in
      let adoption = adoption_of w k account bound.meta.uid in
      let (meta, claim) = binding-IsKept w k valid id h in
      let (meta', claim') = adoption-IsKept w k bound adoption in
      let first = validation-meta w k state validation in
      let ready =
        all_ready k doc (validation-Sets w k state validation) (binding-Sets w k valid id h)
          (adoption-Sets w k bound adoption) in
      with_ready-told w k doc (with_adoption w k bound adoption)
      ∙ ap₂ ◌&&◌ ready
          (ap₂ is_current (claim' ∙ claim) (ap (λ m. m.generation) (meta' ∙ meta ∙ first)))
      ∙ collapse (get_label valid.meta account_export_label_account_id == id) (is_none validation)
          (is_adopted adoption bound.meta.generation)
          (is_current valid.status.desired_claim state.meta.generation)
          (current_if_valid w k state validation)
      ∙ ap₂ ◌&&◌ (ap (λ m. get_label m account_export_label_account_id == id) first) (
          ap (λ m. is_none validation && is_adopted (adoption_of w k account m.uid) m.generation)
            (meta ∙ first))
