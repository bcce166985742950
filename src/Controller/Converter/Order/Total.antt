-- ===== src/Controller/Converter/Order/Total.antt =====
-- The order of resources is total.
use Prim.Native.Nat.{compare, Ordering}
use Prim.Native.Char.{code}
use Prim.Native.String.{compare as compare_strings, then as first_of}
use Prim.Native.String.compare.{nil-cons, cons-nil, cons-cons}
use text.Mathlib.TextEquality.{Char-path}
use nauth.Common.{ℕ, String, true, false, ◌≡◌, refl, ap₂, arith}
use nauth.Api.{ObjectMeta}
use nauth.Controller.Converter.Order.{compare_object_order, is_after}

-- Numbers come first, and `r` to `t` compare what decides between equal ones.
pub first_of-after_trans :
    (a b c : ℕ) (r s t : Ordering)
    → (is_after r ≡ false → is_after s ≡ false → is_after t ≡ false)
    → is_after (first_of (compare a b) r) ≡ false
    → is_after (first_of (compare b c) s) ≡ false
    → is_after (first_of (compare a c) t) ≡ false
first_of-after_trans a b c r s t rest h k = ground arith

pub first_of-flip :
    (a b : ℕ) (r s : Ordering)
    → (is_after r ≡ true → is_after s ≡ false)
    → is_after (first_of (compare a b) r) ≡ true
    → is_after (first_of (compare b a) s) ≡ false
first_of-flip a b r s rest h = ground arith

pub strings-after_trans :
    (a b c : String)
    → is_after (compare_strings a b) ≡ false
    → is_after (compare_strings b c) ≡ false
    → is_after (compare_strings a c) ≡ false
strings-after_trans String.[] String.[] c h k = k
strings-after_trans String.[] (String.◌∷◌ d t) String.[] h k = refl
strings-after_trans String.[] (String.◌∷◌ d t) (String.◌∷◌ e u) h k = rw (nil-cons e u) refl
strings-after_trans (String.◌∷◌ c s) String.[] e h k = let impossible = rw (cons-nil c s) at h in cc
strings-after_trans (String.◌∷◌ c s) (String.◌∷◌ d t) String.[] h k =
    let impossible = rw (cons-nil d t) at k in cc
strings-after_trans (String.◌∷◌ c s) (String.◌∷◌ d t) (String.◌∷◌ e u) h k =
    rw (cons-cons c e s u) (
      first_of-after_trans (code c) (code d) (code e) (compare_strings s t) (compare_strings t u)
        (compare_strings s u) (strings-after_trans s t u) (rw (cons-cons c d s t) at h)
        (rw (cons-cons d e t u) at k))

pub strings-flip :
    (a b : String) → is_after (compare_strings a b) ≡ true → is_after (compare_strings b a) ≡ false
strings-flip String.[] String.[] h = refl
strings-flip String.[] (String.◌∷◌ d t) h = let impossible = rw (nil-cons d t) at h in cc
strings-flip (String.◌∷◌ c s) String.[] h = rw (nil-cons c s) refl
strings-flip (String.◌∷◌ c s) (String.◌∷◌ d t) h = rw (cons-cons d c t s) (
    first_of-flip (code c) (code d) (compare_strings s t) (compare_strings t s) (strings-flip s t)
      (rw (cons-cons c d s t) at h))

pub object_order_trans :
    (a b c : ObjectMeta)
    → is_after (compare_object_order a b) ≡ false
    → is_after (compare_object_order b c) ≡ false
    → is_after (compare_object_order a c) ≡ false
unfolding compare_object_order
object_order_trans a b c h k =
    first_of-after_trans a.creation_timestamp b.creation_timestamp c.creation_timestamp
      (compare_strings a.name b.name) (compare_strings b.name c.name)
      (compare_strings a.name c.name) (strings-after_trans a.name b.name c.name) h k

pub object_order-flip :
    (a b : ObjectMeta)
    → is_after (compare_object_order a b) ≡ true
    → is_after (compare_object_order b a) ≡ false
unfolding compare_object_order
object_order-flip a b h =
    first_of-flip a.creation_timestamp b.creation_timestamp (compare_strings a.name b.name)
      (compare_strings b.name a.name) (strings-flip a.name b.name) h

-- Texts of which neither comes after the other are the same.
pub first_of-neither :
    (a b : ℕ) (r s : Ordering)
    → is_after (first_of (compare a b) r) ≡ false
    → is_after (first_of (compare b a) s) ≡ false
    → (a ≡ b) × (is_after r ≡ false) × (is_after s ≡ false)
first_of-neither a b r s h k = ground arith

pub strings-neither :
    (a b : String)
    → is_after (compare_strings a b) ≡ false
    → is_after (compare_strings b a) ≡ false
    → a ≡ b
strings-neither String.[] String.[] h k = refl
strings-neither String.[] (String.◌∷◌ d t) h k = let impossible = rw (cons-nil d t) at k in cc
strings-neither (String.◌∷◌ c s) String.[] h k = let impossible = rw (cons-nil c s) at h in cc
strings-neither (String.◌∷◌ c s) (String.◌∷◌ d t) h k =
    let (same, less, more) =
      first_of-neither (code c) (code d) (compare_strings s t) (compare_strings t s)
        (rw (cons-cons c d s t) at h) (rw (cons-cons d c t s) at k) in
    ap₂ String.◌∷◌ (Char-path c d same) (strings-neither s t less more)

pub object_order-neither :
    (a b : ObjectMeta)
    → is_after (compare_object_order a b) ≡ false
    → is_after (compare_object_order b a) ≡ false
    → a.name ≡ b.name
unfolding compare_object_order
object_order-neither a b h k =
    let (_, less, more) =
      first_of-neither a.creation_timestamp b.creation_timestamp (compare_strings a.name b.name)
        (compare_strings b.name a.name) h k in
    strings-neither a.name b.name less more
