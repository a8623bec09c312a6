-- ===== src/Prelude/Counts.antt =====
-- How many entries of a dictionary pass a test, and how the count follows the operations.
use Prim.Native.Nat.{ℕ, ◌+◌}
use mathlib.Core.Path.{◌≡◌, refl}
use mathlib.Core.Logic.{inl, inr}
use mathlib.Core.Bool.{Bool, true, false}
use mathlib.Core.Option.{none, some}
use mathlib.Core.List.{[], ◌∷◌}
use native.Mathlib.Omega.{arith}
use remerge.Prelude.Tests.{Eq, Bool-cases}
use remerge.Prelude.Dict.{Dict, get, insert, remove, modify, passes, IsDistinct}

-- 1 for true
abbrev pub one_if : Bool → ℕ
one_if true = 1
one_if false = 0

module _ {ℓ κ} {K : Type ℓ} {V : Type κ} ⦃e : Eq K⦄ (p : V → Bool) where
  unfoldable pub count_if : Dict K V → ℕ
  count_if [] = 0
  count_if ((k, v) ∷ m) = one_if (p v) + count_if m

  pub count_if-insert :
      (k : K) (v : V) (m : Dict K V)
      → get k m ≡ none
      → count_if (insert k v m) ≡ one_if (p v) + count_if m
  unfolding count_if insert get
  count_if-insert k v [] fresh = refl
  count_if-insert k v ((j, w) ∷ m) fresh = elim (Bool-cases (e.beq j k)) [
    | inl same ↦ ground arith
    | inr other ↦ rw other (let rest = count_if-insert k v m (ground arith) in omega arith)
  ]

  pub count_if-modify :
      (k : K) (f : V → V) (v : V) (m : Dict K V)
      → get k m ≡ some v
      → one_if (p v) + count_if (modify k f m) ≡ one_if (p (f v)) + count_if m
  unfolding count_if modify get
  count_if-modify k f v [] found = ground arith
  count_if-modify k f v ((j, w) ∷ m) found = elim (Bool-cases (e.beq j k)) [
    | inl same ↦ rw same (let here : w ≡ v = ground arith in rw here (omega arith))
    | inr other ↦ rw other (let rest = count_if-modify k f v m (ground arith) in omega arith)
  ]

  pub count_if-remove :
      (k : K) (m : Dict K V)
      → IsDistinct m
      → passes p (get k m) ≡ false
      → count_if (remove k m) ≡ count_if m
  unfolding count_if remove get IsDistinct
  count_if-remove k [] d h = refl
  count_if-remove k ((j, w) ∷ m) d h = elim (Bool-cases (e.beq j k)) [
    | inl same ↦
        let gone : get k m ≡ none = rw (← (e.beq_iff j k).0 same) d.0 in
        let rest = count_if-remove k m d.1 (rw gone refl) in
        let here : p w ≡ false = ground arith in rw (same, here) (omega arith)
    | inr other ↦ rw other (let rest = count_if-remove k m d.1 (ground arith) in omega arith)
  ]
