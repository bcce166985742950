-- ===== src/Controller/Watches/Snapshots.antt =====
-- What the snapshots of two accounts tell of an adoption when they are equal.
use nauth.Common.{
  ℤ, String, Bool, true, false, Option, none, some, List, [], ◌∷◌, ◌≡◌, refl, sym, ◌∙◌, ap, ap₂,
  inl, inr, Bool-cases, is_yes, is_yes_iff, lookup, set_entry, lookup-set_entry_self,
  lookup-set_entry_other, ◌==◌, ◌&&◌, if◌then◌else◌, eq_iff,
}
use nauth.Api.{Text, condition_true}
use nauth.Api.Accounts.{AccountAdoption}
use nauth.Controller.Status.{find_adoption_by_uid}
use nauth.Controller.Exports.{same_generation}
use nauth.Controller.Exports.Conditions.{is_adopted}
use nauth.Controller.Watches.{
  AdoptionState, AdoptionState-discrete, AdoptionStates, maps_to, is_within, adoption_state,
  adoption_states,
}

both-true : (a b : Bool) → (a && b) ≡ true → (a ≡ true) × (b ≡ true)
both-true true true h = (refl, refl)
both-true true false h = cc
both-true false b h = cc

maps_to-lookup :
    (m : AdoptionStates) (uid : String) (state : AdoptionState)
    → maps_to m uid state ≡ true
    → lookup uid m ≡ some state
maps_to-lookup m uid state h = of_found (lookup uid m) h
  where
    of_found :
        (found : Option AdoptionState)
        → (elim found [ none ↦ false | some f ↦ is_yes (AdoptionState-discrete f state) ]) ≡ true
        → found ≡ some state
    of_found none h = cc
    of_found (some f) h = ap (λ f. some f) ((is_yes_iff (AdoptionState-discrete f state)).0 h)

within-lookup :
    (a b : AdoptionStates) (uid : String) {state : AdoptionState}
    → is_within a b ≡ true
    → lookup uid a ≡ some state
    → lookup uid b ≡ some state
unfolding is_within lookup
within-lookup [] b uid h found = cc
within-lookup ((key, own) ∷ a) b uid {state} h found =
    let (here, rest) = both-true (maps_to b key own) (is_within a b) h in
    elim (Bool-cases (key == uid)) [
      | inl same ↦
          let found' : some own ≡ some state =
            ap (λ t. if t then some own else lookup uid a) (sym same) ∙ found in
          ap (λ u. lookup u b) (sym ((eq_iff key uid).0 same))
          ∙ maps_to-lookup b key own here
          ∙ found'
      | inr other ↦
          within-lookup a b uid rest
            (ap (λ t. if t then some own else lookup uid a) (sym other) ∙ found)
    ]

-- Equal maps tell the same of every UID.
pub lookup_same :
    (a b : AdoptionStates) (uid : String)
    → (is_within a b && is_within b a) ≡ true
    → lookup uid a ≡ lookup uid b
lookup_same a b uid h =
    let (ab, ba) = both-true (is_within a b) (is_within b a) h in
    of_found (lookup uid a) (lookup uid b) (λ s e. within-lookup a b uid ab e)
      (λ s e. within-lookup b a uid ba e)
  where
    of_found :
        (x y : Option AdoptionState)
        → ((s : AdoptionState) → x ≡ some s → y ≡ some s)
        → ((s : AdoptionState) → y ≡ some s → x ≡ some s)
        → x ≡ y
    of_found none none f g = refl
    of_found none (some s) f g = g s refl
    of_found (some s) y f g = sym (f s refl)

-- No two adoptions have one UID.
abbrev pub HasUniqueUids : List AccountAdoption → Type 0
HasUniqueUids [] = Unit
HasUniqueUids (adoption ∷ adoptions) =
    (find_adoption_by_uid adoptions adoption.uid ≡ none) × HasUniqueUids adoptions

-- Whether a state is that of an adoption in a generation.
abbrev is_adopted_in : Option AdoptionState → ℤ → Bool
is_adopted_in none generation = false
is_adopted_in (some state) generation =
    state.status == condition_true
    && same_generation state.desired_claim_observed_generation generation

module _ (print : Text → String) where
  abbrev state_of : Option AccountAdoption → Option AdoptionState → Option AdoptionState
  state_of none before = before
  state_of (some adoption) before = some (adoption_state print adoption)

  lookup-adoption_states :
      (adoptions : List AccountAdoption) (m : AdoptionStates) (uid : String)
      → HasUniqueUids adoptions
      → lookup uid (adoption_states print adoptions m)
        ≡ state_of (find_adoption_by_uid adoptions uid) (lookup uid m)
  unfolding adoption_states find_adoption_by_uid
  lookup-adoption_states [] m uid unique = refl
  lookup-adoption_states (adoption ∷ adoptions) m uid (first, rest) =
      let m' = set_entry adoption.uid (adoption_state print adoption) m in
      let ih = lookup-adoption_states adoptions m' uid rest in
      elim (Bool-cases (adoption.uid == uid)) [
        | inl same ↦
            let is_uid = (eq_iff adoption.uid uid).0 same in
            let absent = ap (find_adoption_by_uid adoptions) (sym is_uid) ∙ first in
            let there =
              ap (λ u. lookup u m') (sym is_uid)
              ∙ lookup-set_entry_self adoption.uid (adoption_state print adoption) m in
            rw same (ih ∙ ap₂ state_of absent there)
        | inr other ↦ rw other (
            ih
            ∙ ap (state_of (find_adoption_by_uid adoptions uid))
                (lookup-set_entry_other adoption.uid uid (adoption_state print adoption) m other))
      ]

  adopted-state :
      (adoption : Option AccountAdoption) (generation : ℤ)
      → is_adopted adoption generation ≡ is_adopted_in (state_of adoption none) generation
  adopted-state none generation = refl
  adopted-state (some adoption) generation = refl

  -- Equal snapshots tell the same of an adoption.
  pub adopted_same :
      (old new : List AccountAdoption) (uid : String) (generation : ℤ)
      → HasUniqueUids old
      → HasUniqueUids new
      → let a = adoption_states print old [] in
        let b = adoption_states print new [] in
        (is_within a b && is_within b a) ≡ true
        → is_adopted (find_adoption_by_uid old uid) generation
          ≡ is_adopted (find_adoption_by_uid new uid) generation
  unfolding lookup
  adopted_same old new uid generation unique unique' h =
      let states =
        lookup_same (adoption_states print old []) (adoption_states print new []) uid h in
      let same =
        sym (lookup-adoption_states old [] uid unique)
        ∙ states
        ∙ lookup-adoption_states new [] uid unique' in
      adopted-state (find_adoption_by_uid old uid) generation
      ∙ ap (λ s. is_adopted_in s generation) same
      ∙ sym (adopted-state (find_adoption_by_uid new uid) generation)
