-- ===== src/Prelude/Checked.antt =====
-- What a call comes to that may panic, and methods on a state that may.
use mathlib.Core.Path.{◌≡◌, subst}
use mathlib.Core.Bool.{Bool, true, false}

pub data Checked {ℓ} (A : Type ℓ) : Type ℓ where
  returns : A → Checked A
  panics : Checked A

-- A method on `&mut self`.
abbrev pub Method : Type 0 → Type 0 → Type 0
Method S A = S → Checked (A × S)

module _ {S : Type 0} where
  infixl 5 ◌>>=◌ ◌>>◌
  abbrev pub ◌>>=◌ : {A B : Type 0} → Method S A → (A → Method S B) → Method S B
  ◌>>=◌ m f s = elim (m s) [ returns (x, s') ↦ f x s' | panics ↦ panics ]

  abbrev pub ◌>>◌ : {B : Type 0} → Method S (Unit {0}) → Method S B → Method S B
  ◌>>◌ m k = m >>= λ _. k

  abbrev pub pure : {A : Type 0} → A → Method S A
  pure x s = returns (x, s)

  -- `assert!`, and `debug_assert!` in a build with debug assertions.
  abbrev pub assert : Bool → Method S (Unit {0})
  assert true s = returns (tt, s)
  assert false s = panics

-- What holds of the state behind a call that returns.
module _ {A S : Type 0} where
  abbrev pub After : (S → Type 0) → Checked (A × S) → Type 0
  After P (returns (a, s)) = P s
  After P panics = Unit {0}

  pub After-elim :
      (P : S → Type 0) {m : Checked (A × S)} {a : A} {s : S} → m ≡ returns (a, s) → After P m → P s
  After-elim P e h = subst (After P) e h
