-- ===== src/Common/State.antt =====
-- Code that changes a state, as functions from the state to a result and the new state.
use mathlib.Core.Bool.{Bool, true, false}

abbrev pub St : Type 0 → Type 0 → Type 0
St S A = S → A × S

infixl 5 ◌>>=◌ ◌>>◌
abbrev pub ◌>>=◌ : {S A B : Type 0} → St S A → (A → St S B) → St S B
◌>>=◌ m f s = f (m s).0 (m s).1

abbrev pub ◌>>◌ : {S A B : Type 0} → St S A → St S B → St S B
◌>>◌ m k s = k (m s).1

abbrev pub pure : {S A : Type 0} → A → St S A
pure a s = (a, s)

abbrev pub when : {S : Type 0} → Bool → St S (Unit {0}) → St S (Unit {0})
when true m = m
when false m = pure tt
