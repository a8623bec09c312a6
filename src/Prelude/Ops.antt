-- ===== src/Prelude/Ops.antt =====
-- Operations on a state that can fail, with the operator `?` as bind. An error leaves the state as
-- the steps before it have left it.
use mathlib.Core.Path.{◌≡◌, refl, ◌∙◌}
use remerge.Prelude.Results.{Result, ok, err}

abbrev pub Op : Type 0 → Type 0 → Type 0 → Type 0
Op S E A = S → Result E A × S

abbrev pub continue_with : {S E A B : Type 0} → Result E A × S → (A → Op S E B) → Result E B × S
continue_with (ok a, s) f = f a s
continue_with (err e, s) f = (err e, s)

infixl 5 ◌>>=◌ ◌>>◌
abbrev pub ◌>>=◌ : {S E A B : Type 0} → Op S E A → (A → Op S E B) → Op S E B
◌>>=◌ m f s = continue_with (m s) f

abbrev pub ◌>>◌ : {S E B : Type 0} → Op S E (Unit {0}) → Op S E B → Op S E B
◌>>◌ m k s = continue_with (m s) (λ _. k)

abbrev pub pure : {S E A : Type 0} → A → Op S E A
pure a s = (ok a, s)

-- A value that the state determines, or a failure
abbrev pub reads : {S E A : Type 0} → (S → Result E A) → Op S E A
reads f s = (f s, s)

abbrev pub writes : {S E : Type 0} → (S → S) → Op S E (Unit {0})
writes f s = (ok tt, f s)

abbrev pub lifts : {S E A : Type 0} → Result E A → Op S E A
lifts r s = (r, s)

-- What an operation leaves alone
module _ {S E : Type 0} {X : Type 0} (field : S → X) where
  abbrev pub Keeps : {A : Type 0} → Op S E A → Type 0
  Keeps m = (s : S) → field (m s).1 ≡ field s

  continue_with-Keeps :
      {A B : Type 0} (r : Result E A × S) (f : A → Op S E B)
      → ((a : A) → Keeps (f a))
      → field (continue_with r f).1 ≡ field r.1
  continue_with-Keeps (ok a, s) f h = h a s
  continue_with-Keeps (err e, s) f h = refl

  pub >>=-Keeps :
      {A B : Type 0} (m : Op S E A) (f : A → Op S E B)
      → Keeps m
      → ((a : A) → Keeps (f a))
      → Keeps (m >>= f)
  >>=-Keeps m f hm hf s = continue_with-Keeps (m s) f hf ∙ hm s
