-- ===== src/Prelude/Dict.antt =====
-- Dictionaries as association lists: `HashMap` and `BTreeMap`. Lookups find the first entry of a
-- key; `insert` replaces it, `remove` drops every entry of it.
use mathlib.Core.Path.{◌≡◌, refl}
use mathlib.Core.Option
use mathlib.Core.Option.{Option, none, some}
use mathlib.Core.Bool.{Bool, false}
use mathlib.Core.Logic.{inl, inr}
use mathlib.Core.List.{List, [], ◌∷◌}
use native.Mathlib.Omega.{arith}
use remerge.Prelude.Tests.{if◌then◌else◌, Eq, Bool-cases, is_some}
use remerge.Prelude.Lists.{any}

abbrev pub Dict {ℓ κ} : Type ℓ → Type κ → Type (ℓ ⊔ κ)
Dict K V = List (K × V)

module _ {ℓ κ} {K : Type ℓ} {V : Type κ} ⦃e : Eq K⦄ where
  unfoldable pub get : K → Dict K V → Option V
  get k [] = none
  get k ((j, v) ∷ m) = if e.beq j k then some v else get k m

  unfoldable pub insert : K → V → Dict K V → Dict K V
  insert k v [] = (k, v) ∷ []
  insert k v ((j, w) ∷ m) =
      let rest = insert k v m in if e.beq j k then (k, v) ∷ m else (j, w) ∷ rest

  unfoldable pub remove : K → Dict K V → Dict K V
  remove k [] = []
  remove k ((j, w) ∷ m) = let rest = remove k m in if e.beq j k then rest else (j, w) ∷ rest

  -- `if let Some(v) = m.get_mut(k) { *v = f(v) }`
  unfoldable pub modify : K → (V → V) → Dict K V → Dict K V
  modify k f [] = []
  modify k f ((j, w) ∷ m) =
      let rest = modify k f m in if e.beq j k then (j, f w) ∷ m else (j, w) ∷ rest

  pub get-insert :
      (k j : K) (v : V) (m : Dict K V)
      → get j (insert k v m) ≡ (if e.beq k j then some v else get j m)
  unfolding get insert
  get-insert k j v [] = refl
  get-insert k j v ((i, w) ∷ m) =
      ground (arith, e.beq_iff k j, e.beq_iff i k, e.beq_iff i j, get-insert k j v m)

  pub get-remove :
      (k j : K) (m : Dict K V) → get j (remove k m) ≡ (if e.beq k j then none else get j m)
  unfolding get remove
  get-remove k j [] = ground arith
  get-remove k j ((i, w) ∷ m) =
      ground (arith, e.beq_iff k j, e.beq_iff i k, e.beq_iff i j, get-remove k j m)

  pub get-modify :
      (k j : K) (f : V → V) (m : Dict K V)
      → get j (modify k f m) ≡ (if e.beq k j then Option.map f (get j m) else get j m)
  unfolding get modify
  get-modify k j f [] = ground arith
  get-modify k j f ((i, w) ∷ m) =
      ground (arith, e.beq_iff k j, e.beq_iff i k, e.beq_iff i j, get-modify k j f m)

pub ruleset dict_laws = (get-insert, get-remove, get-modify)

-- does the entry of a key pass a test
abbrev pub passes {κ} : {V : Type κ} → (V → Bool) → Option V → Bool
passes p none = false
passes p (some v) = p v

-- No key stands twice, as in any map.
module _ {ℓ κ} {K : Type ℓ} {V : Type κ} ⦃e : Eq K⦄ where
  unfoldable pub IsDistinct : Dict K V → Type (ℓ ⊔ κ)
  IsDistinct [] = Unit {ℓ ⊔ κ}
  IsDistinct ((k, v) ∷ m) = (get k m ≡ none) × IsDistinct m

  pub remove-IsDistinct : (k : K) (m : Dict K V) → IsDistinct m → IsDistinct (remove k m)
  unfolding IsDistinct remove
  remove-IsDistinct k [] h = tt
  remove-IsDistinct k ((j, v) ∷ m) h = elim (Bool-cases (e.beq j k)) [
    | inl same ↦ rw same (remove-IsDistinct k m h.1)
    | inr other ↦ rw other (ground (arith, get-remove k j m, h.0), remove-IsDistinct k m h.1)
  ]

  pub modify-IsDistinct :
      (k : K) (f : V → V) (m : Dict K V) → IsDistinct m → IsDistinct (modify k f m)
  unfolding IsDistinct modify
  modify-IsDistinct k f [] h = tt
  modify-IsDistinct k f ((j, v) ∷ m) h = elim (Bool-cases (e.beq j k)) [
    | inl same ↦ rw same h
    | inr other ↦ rw other (ground (arith, get-modify k j f m, h.0), modify-IsDistinct k f m h.1)
  ]

  pub insert-IsDistinct : (k : K) (v : V) (m : Dict K V) → IsDistinct m → IsDistinct (insert k v m)
  unfolding IsDistinct insert get
  insert-IsDistinct k v [] h = (refl, tt)
  insert-IsDistinct k v ((j, w) ∷ m) h = elim (Bool-cases (e.beq j k)) [
    | inl same ↦ rw same (rw (← (e.beq_iff j k).0 same) h)
    | inr other ↦ rw other (
      ground (arith, get-insert k j v m, h.0, e.beq_iff j k, e.beq_iff k j),
      insert-IsDistinct k v m h.1,
    )
  ]

  -- the keys of the entries that pass a test
  unfoldable pub pick : (V → Bool) → Dict K V → List K
  pick p [] = []
  pick p ((k, v) ∷ m) = let rest = pick p m in if p v then k ∷ rest else rest

  pub any-pick :
      (p : V → Bool) (j : K) (m : Dict K V)
      → IsDistinct m
      → any (λ k. e.beq k j) (pick p m) ≡ passes p (get j m)
  unfolding IsDistinct pick get
  any-pick p j [] h = refl
  any-pick p j ((k, v) ∷ m) h = ground (arith, any-pick p j m h.1, h.0, e.beq_iff k j)

module _ {ℓ κ} {K : Type ℓ} {V : Type κ} ⦃e : Eq K⦄ where
  -- `for v in m.values_mut() { *v = f(v) }`
  unfoldable pub map_values : (V → V) → Dict K V → Dict K V
  map_values f [] = []
  map_values f ((k, v) ∷ m) = (k, f v) ∷ map_values f m

  unfoldable pub keys : Dict K V → List K
  keys [] = []
  keys ((k, v) ∷ m) = k ∷ keys m

  pub get-map_values :
      (f : V → V) (k : K) (m : Dict K V) → get k (map_values f m) ≡ Option.map f (get k m)
  unfolding get map_values
  get-map_values f k [] = refl
  get-map_values f k ((j, v) ∷ m) = ground (arith, get-map_values f k m)

  pub any-keys : (k : K) (m : Dict K V) → any (λ j. e.beq j k) (keys m) ≡ is_some (get k m)
  unfolding get keys
  any-keys k [] = refl
  any-keys k ((j, v) ∷ m) = ground (arith, any-keys k m)
