-- ===== src/Account/Adopt/Settled.antt =====
-- Every group of an adopted request is settled: internal/core/account.go.
use nauth.Common.{
  String, true, false, Option, none, some, List, [], ◌∷◌, Error, ok, ◌≡◌, refl, ◌∙◌, ◌⊎◌, inl, inr,
  All, Bool-cases, Option-cases, Result-cases, ap, sym, subst,
}
use nauth.Domain.Adoptions
use nauth.Domain.Adoptions.{
  AdoptionResult, AdoptionResults, get, is_successful, adoption_failure_conflict,
}
use nauth.Domain.Adoptions.Laws.{get-add_self, get-add_old}
use nauth.Claims.Builder.{AccountClaimsBuilder}
use nauth.Account.Adopt.{GroupKind, Adopted, record_result, adopt_group, adopt_groups}

module _ {G : Type 0} (k : GroupKind G) (Included : AccountClaimsBuilder → G → Type 0) where
  -- The group has a result, and either its items are included or it was not required.
  abbrev pub IsSettled : AccountClaimsBuilder → AdoptionResults → G → Type 0
  IsSettled b adoptions group =
      (r : AdoptionResult) × (get adoptions (k.ref group) ≡ some r)
      × (((is_successful r ≡ true) × Included b group)
          ⊎ ((is_successful r ≡ false) × (k.required group ≡ false)))

  -- Adding a group includes its items, and keeps those of the groups before it.
  pub record Includes : Type 0 where
    pub added :
        (b : AccountClaimsBuilder) (g : G)
        → (k.add_group b g).0 ≡ none
        → Included (k.add_group b g).1 g
    pub kept : (b : AccountClaimsBuilder) (g h : G) → Included b h → Included (k.add_group b g).1 h

  abbrev result_for : G → String → Option Error → AdoptionResult
  result_for g failure message = record { ref = k.ref g; failure = failure; message = message }

  record_result-none :
      (g : G) (b : AccountClaimsBuilder) (a : AdoptionResults) (failure : String)
      (message : Option Error)
      → (record_result k g b a failure message).0 ≡ none
      → ((record_result k g b a failure message).1 ≡ b)
        × (Adoptions.add a (result_for g failure message)
            ≡ ok (record_result k g b a failure message).2)
  record_result-none g b a failure message h =
      elim (Result-cases (Adoptions.add a (result_for g failure message))) [
        | inl (a', added) ↦ rw (added, record_result) (refl, refl)
        | inr (e, failed) ↦ let bad : some _ ≡ none = (rw (failed, record_result) at h) in cc
      ]

  -- What a round that returns no error did.
  abbrev Round : G → AccountClaimsBuilder → AdoptionResults → Adopted → Type 0
  Round g b a out =
      (failure : String) × (message : Option Error) × (out.1 ≡ (k.add_group b g).1)
      × (Adoptions.add a (result_for g failure message) ≡ ok out.2)
      × (((failure ≡ "") × ((k.add_group b g).0 ≡ none))
          ⊎ ((failure ≡ adoption_failure_conflict) × (k.required g ≡ false)))

  adopt_group-Round :
      (g : G) (b : AccountClaimsBuilder) (a : AdoptionResults)
      → (adopt_group k g b a).0 ≡ none
      → Round g b a (adopt_group k g b a)
  unfolding adopt_group
  adopt_group-Round g b a h = elim (Option-cases (k.add_group b g).0) [
    | inl added ↦
        let (same, put) =
          record_result-none g (k.add_group b g).1 a "" none (rw (added, adopt_group) at h) in
        rw (added, adopt_group) ("", none, same, put, inl (refl, refl))
    | inr (e, failed) ↦ elim (Bool-cases (k.required g)) [
      | inl needed ↦ let bad : some _ ≡ none = (rw (failed, needed, adopt_group) at h) in cc
      | inr optional ↦
          let (same, put) =
            record_result-none g (k.add_group b g).1 a adoption_failure_conflict (some e)
              (rw (failed, optional, adopt_group) at h) in
          rw (failed, optional, adopt_group)
            (adoption_failure_conflict, some e, same, put, inr (refl, refl))
    ]
  ]

  module _ (w : Includes) where
    adopt_group-IsSettled :
        (g : G) (b : AccountClaimsBuilder) (a : AdoptionResults)
        → (adopt_group k g b a).0 ≡ none
        → IsSettled (adopt_group k g b a).1 (adopt_group k g b a).2 g
    unfolding is_successful
    adopt_group-IsSettled g b a h =
        let (failure, message, same, put, outcome) = adopt_group-Round g b a h in
        (
          result_for g failure message,
          get-add_self a _ _ put,
          elim outcome [
            | inl (no_failure, added) ↦ inl (rw no_failure refl, rw same (w.added b g added))
            | inr (conflict, optional) ↦ inr (rw conflict refl, optional)
          ],
        )

    adopt_group-keeps :
        (g : G) (b : AccountClaimsBuilder) (a : AdoptionResults) (h : G)
        → (adopt_group k g b a).0 ≡ none
        → IsSettled b a h
        → IsSettled (adopt_group k g b a).1 (adopt_group k g b a).2 h
    adopt_group-keeps g b a h e (r, found, outcome) =
        let (failure, message, same, put, _) = adopt_group-Round g b a e in
        (
          r,
          get-add_old a _ _ (k.ref h) r put found,
          elim outcome [
            | inl (success, included) ↦ inl (success, rw same (w.kept b g h included))
            | inr optional ↦ inr optional
          ],
        )

    adopt_groups-cons :
        (g : G) (gs : List G) (b : AccountClaimsBuilder) (a : AdoptionResults)
        → (adopt_group k g b a).0 ≡ none
        → adopt_groups k (g ∷ gs) b a
          ≡ adopt_groups k gs (adopt_group k g b a).1 (adopt_group k g b a).2
    unfolding adopt_groups
    adopt_groups-cons g gs b a passed = rw (passed, adopt_groups) refl

    adopt_groups-passed :
        (g : G) (gs : List G) (b : AccountClaimsBuilder) (a : AdoptionResults)
        → (adopt_groups k (g ∷ gs) b a).0 ≡ none
        → (adopt_group k g b a).0 ≡ none
    unfolding adopt_groups
    adopt_groups-passed g gs b a e = elim (Option-cases (adopt_group k g b a).0) [
      | inl passed ↦ passed
      | inr (_, failed) ↦ let bad : some _ ≡ none = (rw (failed, adopt_groups) at e) in cc
    ]

    adopt_groups-keeps :
        (gs : List G) (b : AccountClaimsBuilder) (a : AdoptionResults) (h : G)
        → (adopt_groups k gs b a).0 ≡ none
        → IsSettled b a h
        → IsSettled (adopt_groups k gs b a).1 (adopt_groups k gs b a).2 h
    unfolding adopt_groups
    adopt_groups-keeps [] b a h e s = s
    adopt_groups-keeps (g ∷ gs) b a h e s =
        let passed = adopt_groups-passed g gs b a e in
        let same = adopt_groups-cons g gs b a passed in
        subst (λ (out : Adopted). IsSettled out.1 out.2 h) (sym same)
          (adopt_groups-keeps gs _ _ h (ap (λ (out : Adopted). out.0) (sym same) ∙ e)
            (adopt_group-keeps g b a h passed s))

    pub adopt_groups-IsSettled :
        (gs : List G) (b : AccountClaimsBuilder) (a : AdoptionResults)
        → (adopt_groups k gs b a).0 ≡ none
        → All (IsSettled (adopt_groups k gs b a).1 (adopt_groups k gs b a).2) gs
    adopt_groups-IsSettled [] b a e = tt
    adopt_groups-IsSettled (g ∷ gs) b a e =
        let passed = adopt_groups-passed g gs b a e in
        let same = adopt_groups-cons g gs b a passed in
        let e' = ap (λ (out : Adopted). out.0) (sym same) ∙ e in
        subst (λ (out : Adopted). All (IsSettled out.1 out.2) (g ∷ gs)) (sym same)
          (
            adopt_groups-keeps gs _ _ g e' (adopt_group-IsSettled g b a passed),
            adopt_groups-IsSettled gs _ _ e',
          )
