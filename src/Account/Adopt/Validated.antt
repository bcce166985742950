-- ===== src/Account/Adopt/Validated.antt =====
-- Adopting the groups of a validated request: internal/core/account.go.
use nauth.Common.{
  true, false, none, some, List, [], ◌∷◌, map, any, Error, str, wrapf, ◌≡◌, refl, ◌⊎◌, inl, inr,
  arith, Any, Option-cases, Bool-cases, ap, sym, subst, ◌==◌,
}
use nauth.Jwt.{Library}
use nauth.Domain.Account
use nauth.Domain.Account.{Ref, validate_refs, validate_export_groups, validate_import_groups}
use nauth.Domain.Account.Requests.{AreFresh, validate_refs_iff}
use nauth.Domain.Adoptions.{AdoptionResult, AdoptionResults, get, adoption_failure_conflict}
use nauth.Domain.Adoptions.Laws.{add_of_new}
use nauth.Claims.Builder.{AccountClaimsBuilder}
use nauth.Account.Adopt.{
  GroupKind, Adopted, record_result, adopt_group, adopt_groups, export_kind, import_kind,
  adopt_export_groups, adopt_import_groups,
}

abbrev keys : AdoptionResults → List Ref
keys = map (λ (e : Ref × AdoptionResult). e.0)

get-none :
    (a : AdoptionResults) (ref : Ref) → any (λ r. r == ref) (keys a) ≡ false → get a ref ≡ none
unfolding get
get-none [] ref h = refl
get-none ((k, v) ∷ a) ref h = ground (arith, get-none a ref)

module _ {G : Type 0} (k : GroupKind G) where
  -- A required group that could not be included ended the loop.
  abbrev pub IsRefused : Adopted → G → Type 0
  IsRefused out g =
      (k.required g ≡ true)
      × (e : Error) × (out.0 ≡ some (wrapf k.include_format (str (k.ref g) ∷ []) e))

  adopt_group_of_new :
      (g : G) (b : AccountClaimsBuilder) (a : AdoptionResults)
      → get a (k.ref g) ≡ none
      → ((r : AdoptionResult) × (adopt_group k g b a
            ≡ (none, (k.add_group b g).1, (k.ref g, r) ∷ a)))
        ⊎ IsRefused (adopt_group k g b a) g
  unfolding adopt_group
  adopt_group_of_new g b a new = elim (Option-cases (k.add_group b g).0) [
    | inl added ↦
        let r : AdoptionResult = record { ref = k.ref g; failure = ""; message = none } in
        inl (r, rw (added, adopt_group) (rw (add_of_new a r new, record_result) refl))
    | inr (e, failed) ↦ elim (Bool-cases (k.required g)) [
      | inl needed ↦ inr (needed, e, rw (failed, needed, adopt_group) refl)
      | inr optional ↦
          let r : AdoptionResult = record {
            ref = k.ref g;
            failure = adoption_failure_conflict;
            message = some e;
          } in
          inl (r, rw (failed, optional, adopt_group) (rw (add_of_new a r new, record_result) refl))
    ]
  ]

  -- How the loop goes on after a round.
  abbrev continue : List G → Adopted → Adopted
  continue gs out = elim out.0 [
    | some e ↦ (some e, out.1, out.2)
    | none ↦ adopt_groups k gs out.1 out.2
  ]

  adopt_groups-continue :
      (g : G) (gs : List G) (b : AccountClaimsBuilder) (a : AdoptionResults) (out : Adopted)
      → adopt_group k g b a ≡ out
      → adopt_groups k (g ∷ gs) b a ≡ continue gs out
  unfolding adopt_groups
  adopt_groups-continue g gs b a out h = ap (continue gs) h

  adopt_groups-refused :
      (g : G) (gs : List G) (b : AccountClaimsBuilder) (a : AdoptionResults) (e : Error)
      → (adopt_group k g b a).0 ≡ some e
      → (adopt_groups k (g ∷ gs) b a).0 ≡ some e
  unfolding adopt_groups
  adopt_groups-refused g gs b a e h = rw (h, adopt_groups) refl

  adopt_groups-nil :
      (b : AccountClaimsBuilder) (a : AdoptionResults) → (adopt_groups k [] b a).0 ≡ none
  unfolding adopt_groups
  adopt_groups-nil b a = refl

  adopt_groups_outcome :
      (gs : List G) (b : AccountClaimsBuilder) (a : AdoptionResults)
      → AreFresh (keys a) (map k.ref gs)
      → ((adopt_groups k gs b a).0 ≡ none) ⊎ Any (IsRefused (adopt_groups k gs b a)) gs
  adopt_groups_outcome [] b a _ = inl (adopt_groups-nil b a)
  adopt_groups_outcome (g ∷ gs) b a (_, new, fresh) =
      elim (adopt_group_of_new g b a (get-none a (k.ref g) new)) [
        | inl (r, passed) ↦
            let rest = adopt_groups_outcome gs (k.add_group b g).1 ((k.ref g, r) ∷ a) fresh in
            let same = adopt_groups-continue g gs b a _ passed in
            subst (λ (out : Adopted). (out.0 ≡ none) ⊎ Any (IsRefused out) (g ∷ gs)) (sym same)
              (elim rest [ inl done ↦ inl done | inr refused ↦ inr (inr refused) ])
        | inr (needed, e, refused) ↦ inr (inl (needed, e, adopt_groups-refused g gs b a _ refused))
      ]

-- Adopting the groups of exports of a validated request fails only because of a required group,
-- which it names.
pub adopt_export_groups-validated :
    (jwt : Library) (groups : List Account.ExportGroup) (b : AccountClaimsBuilder)
    → validate_export_groups groups ≡ none
    → ((adopt_export_groups jwt groups b []).0 ≡ none)
      ⊎ Any (IsRefused (export_kind jwt) (adopt_export_groups jwt groups b [])) groups
unfolding adopt_export_groups validate_export_groups
adopt_export_groups-validated jwt groups b h =
    adopt_groups_outcome (export_kind jwt) groups b [] ((validate_refs_iff _ _ [] _).0 h)

-- Adopting the groups of imports of a validated request fails only because of a required group,
-- which it names.
pub adopt_import_groups-validated :
    (jwt : Library) (groups : List Account.ImportGroup) (b : AccountClaimsBuilder)
    → validate_import_groups groups ≡ none
    → ((adopt_import_groups jwt groups b []).0 ≡ none)
      ⊎ Any (IsRefused (import_kind jwt) (adopt_import_groups jwt groups b [])) groups
unfolding adopt_import_groups validate_import_groups
adopt_import_groups-validated jwt groups b h =
    adopt_groups_outcome (import_kind jwt) groups b [] ((validate_refs_iff _ _ [] _).0 h)
