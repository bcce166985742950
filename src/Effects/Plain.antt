-- ===== src/Effects/Plain.antt =====
-- Sequencing of functions that return no error of their own.
use nauth.Effects.{Plain}

infixl 5 ◌>>=◌ ◌>>◌
abbrev pub ◌>>=◌ : {A B : Type 0} → Plain A → (A → Plain B) → Plain B
◌>>=◌ m f h = let (a, h') = m h in f a h'

abbrev pub ◌>>◌ : {A B : Type 0} → Plain A → Plain B → Plain B
m >> k = m >>= λ _. k

abbrev pub pure : {A : Type 0} → A → Plain A
pure a h = (a, h)
