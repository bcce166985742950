-- ===== src/User/Claims/Rebuild/Parts.antt =====
-- The parts of a user's claims that are read back: internal/core/user_claims.go.
use nauth.Common.{
  ℤ, ℤ-discrete, String, Bool, true, false, not, ◌||◌, Option, none, some, List, [], ◌∷◌, map,
  is_yes, is_yes_iff, ◌≡◌, refl, sym, ap, ◌==◌, eq_iff, arith,
}
use nauth.Domain.Names.{is_nil}
use nauth.Jwt
use nauth.Jwt.{Library}
use nauth.Claims.Limits.{assign}
use nauth.User.Claims.{to_jwt_resp, to_jwt_time, to_nauth_time, to_nauth_resp, is_some, when}

pub resp_back : (r : Option Jwt.ResponsePermission) → to_jwt_resp (to_nauth_resp r) none ≡ r
resp_back none = refl
resp_back (some r) = refl

pub times_back : (times : List Jwt.TimeRange) → map to_jwt_time (map to_nauth_time times) ≡ times
times_back [] = refl
times_back (t ∷ times) = ap (λ ts. t ∷ ts) (times_back times)

pub assign-when : (b : Bool) (n d : ℤ) → (b ≡ false → n ≡ d) → assign (when b n) d ≡ n
unfolding assign
assign-when true n d h = refl
assign-when false n d h = sym (h refl)

pub not_yes : (n d : ℤ) → not (is_yes (ℤ-discrete n d)) ≡ false → n ≡ d
not_yes n d h = (is_yes_iff (ℤ-discrete n d)).0 (ground (arith))

pub not-false : (b : Bool) → not b ≡ false → b ≡ true
not-false b h = ground (arith)

pub is_nil-eq : {A : Type 0} (xs : List A) → not (is_nil xs) ≡ false → xs ≡ []
is_nil-eq [] h = refl
is_nil-eq (x ∷ xs) h = cc

pub is_some-false : {A : Type 0} (o : Option A) → is_some o ≡ false → o ≡ none
is_some-false none h = refl
is_some-false (some a) h = cc

pub is_blank-eq : (s : String) → not (s == "") ≡ false → s ≡ ""
is_blank-eq s h = ground (arith, eq_iff s "")

-- A property of what is reported: of a value, and of none where nothing is populated.
pub either :
    {A : Type 0} (P : Option A → Type 0) (b : Bool) {a : A}
    → P (some a)
    → (b ≡ false → P none)
    → P (when b a)
either P true p q = p
either P false p q = q refl

-- A Boolean `or` of three.
pub none_of : (a b c : Bool) → (a || b || c) ≡ false → (a ≡ false) × (b ≡ false) × (c ≡ false)
none_of a b c h = ground (arith)
