-- ===== src/Prelude/Lists.antt =====
-- Lists measured by native numbers, under the library's names, and predicates on all members.
use Prim.Native.Nat.{ℕ, zero, suc, ◌+◌, ◌-◌, ◌≤◌, min}
use mathlib.Core.Path.{◌≡◌, refl, sym, subst}
use mathlib.Core.Logic.{◌⊎◌, inl, inr}
use mathlib.Core.Bool.{Bool, true, false, ◌&&◌, ◌||◌}
use mathlib.Core.List.{List, [], ◌∷◌, ◌++◌, Memᴰ}
use native.Mathlib.Omega.{arith}
use remerge.Prelude.Tests.{if◌then◌else◌, Bool-cases}

module _ {ℓ} {A : Type ℓ} where
  abbrev pub length : List A → ℕ
  length [] = 0
  length (x ∷ xs) = suc (length xs)

  abbrev pub take : ℕ → List A → List A
  take zero xs = []
  take (suc n) [] = []
  take (suc n) (x ∷ xs) = x ∷ take n xs

  abbrev pub drop : ℕ → List A → List A
  drop zero xs = xs
  drop (suc n) [] = []
  drop (suc n) (x ∷ xs) = drop n xs

  -- `Iterator::all` and `Iterator::any`
  abbrev pub all : (A → Bool) → List A → Bool
  all p [] = true
  all p (x ∷ xs) = p x && all p xs

  abbrev pub any : (A → Bool) → List A → Bool
  any p [] = false
  any p (x ∷ xs) = p x || any p xs

  -- `Iterator::filter` with a Boolean test
  abbrev pub keep_if : (A → Bool) → List A → List A
  keep_if p [] = []
  keep_if p (x ∷ xs) = let rest = keep_if p xs in if p x then x ∷ rest else rest

  pub length-append : (xs ys : List A) → length (xs ++ ys) ≡ length xs + length ys
  length-append [] ys = omega arith
  length-append (x ∷ xs) ys = omega (arith, length-append xs ys)

  pub any-append : (p : A → Bool) (xs ys : List A) → any p (xs ++ ys) ≡ (any p xs || any p ys)
  any-append p [] ys = refl
  any-append p (x ∷ xs) ys = ground (arith, any-append p xs ys)

  pub length-take : (n : ℕ) (xs : List A) → length (take n xs) ≡ min n (length xs)
  length-take zero xs = omega arith
  length-take (suc n) [] = omega arith
  length-take (suc n) (x ∷ xs) = omega (arith, length-take n xs)

  pub length-drop : (n : ℕ) (xs : List A) → length (drop n xs) ≡ length xs - n
  length-drop zero xs = omega arith
  length-drop (suc n) [] = omega arith
  length-drop (suc n) (x ∷ xs) = omega (arith, length-drop n xs)

  pub length-keep_if-le : (p : A → Bool) (xs : List A) → length (keep_if p xs) ≤ length xs
  length-keep_if-le p [] = omega arith
  length-keep_if-le p (x ∷ xs) = ground (arith, length-keep_if-le p xs)

module _ {ℓ κ} {A : Type ℓ} (P : A → Type κ) where
  abbrev pub All : List A → Type κ
  All [] = Unit
  All (x ∷ xs) = P x × All xs

module _ {ℓ κ} {A : Type ℓ} (P : A → Type κ) where
  pub All-append : (xs ys : List A) → All P xs → All P ys → All P (xs ++ ys)
  All-append [] ys hx hy = hy
  All-append (x ∷ xs) ys hx hy = (hx.0, All-append xs ys hx.1 hy)

  pub All-change :
      (xs : List A) (x : A) (ys : List A)
      → All P (xs ++ (x ∷ ys))
      → P x × ((y : A) → P y → All P (xs ++ (y ∷ ys)))
  All-change [] x ys h = (h.0, λ y hy. (hy, h.1))
  All-change (z ∷ xs) x ys h =
      let (here, put) = All-change xs x ys h.1 in (here, λ y hy. (h.0, put y hy))

  -- A test that implies `P` on each member gives `All P`.
  pub All-of_all :
      (p : A → Bool) → ((a : A) → p a ≡ true → P a) → (xs : List A) → all p xs ≡ true → All P xs
  All-of_all p sound [] h = tt
  All-of_all p sound (x ∷ xs) h = (sound x (ground arith), All-of_all p sound xs (ground arith))

  pub All-keep_if : (p : A → Bool) (xs : List A) → All P xs → All P (keep_if p xs)
  All-keep_if p [] h = tt
  All-keep_if p (x ∷ xs) h = ground (arith, All-keep_if p xs h.1)

module _ {ℓ} {A : Type ℓ} (P : A → Type ℓ) where
  pub All-mem : {a : A} (xs : List A) → All P xs → Memᴰ a xs → P a
  All-mem [] h m = elim m [ ]
  All-mem (x ∷ xs) h (Memᴰ.head e) = subst P (sym e) h.0
  All-mem (x ∷ xs) h (Memᴰ.tail m) = All-mem xs h.1 m

-- Membership with its place kept
module _ {ℓ} {A : Type ℓ} where
  pub mem_append_left : {a : A} (xs ys : List A) → Memᴰ a xs → Memᴰ a (xs ++ ys)
  mem_append_left [] ys m = elim m [ ]
  mem_append_left (x ∷ xs) ys (Memᴰ.head e) = Memᴰ.head e
  mem_append_left (x ∷ xs) ys (Memᴰ.tail m) = Memᴰ.tail (mem_append_left xs ys m)

  pub mem_append_right : {a : A} (xs ys : List A) → Memᴰ a ys → Memᴰ a (xs ++ ys)
  mem_append_right [] ys m = m
  mem_append_right (x ∷ xs) ys m = Memᴰ.tail (mem_append_right xs ys m)

  pub mem_append_cases : {a : A} (xs ys : List A) → Memᴰ a (xs ++ ys) → Memᴰ a xs ⊎ Memᴰ a ys
  mem_append_cases [] ys m = inr m
  mem_append_cases (x ∷ xs) ys (Memᴰ.head e) = inl (Memᴰ.head e)
  mem_append_cases (x ∷ xs) ys (Memᴰ.tail m) = elim (mem_append_cases xs ys m) [
    | inl l ↦ inl (Memᴰ.tail l)
    | inr r ↦ inr r
  ]

  mem_cons_kept :
      {a : A} (p : A → Bool) (x : A) (xs : List A)
      → p x ≡ true
      → (Memᴰ a (keep_if p xs) → Memᴰ a xs × (p a ≡ true))
      → Memᴰ a (x ∷ keep_if p xs)
      → Memᴰ a (x ∷ xs) × (p a ≡ true)
  mem_cons_kept p x xs kept rest (Memᴰ.head e) = (Memᴰ.head e, rw e kept)
  mem_cons_kept p x xs kept rest (Memᴰ.tail m) =
      let (there, holds) = rest m in (Memᴰ.tail there, holds)

  pub mem_of_keep_if :
      {a : A} (p : A → Bool) (xs : List A) → Memᴰ a (keep_if p xs) → Memᴰ a xs × (p a ≡ true)
  mem_of_keep_if p [] m = elim m [ ]
  mem_of_keep_if {a} p (x ∷ xs) m = elim (Bool-cases (p x)) [
    | inl kept ↦ mem_cons_kept p x xs kept (λ n. mem_of_keep_if p xs n) (rw kept at m)
    | inr gone ↦ let (there, holds) = mem_of_keep_if p xs (rw gone at m) in (Memᴰ.tail there, holds)
  ]

  pub mem_keep_if :
      {a : A} (p : A → Bool) (xs : List A) → p a ≡ true → Memᴰ a xs → Memᴰ a (keep_if p xs)
  mem_keep_if p [] holds m = elim m [ ]
  mem_keep_if p (x ∷ xs) holds (Memᴰ.head e) = rw (subst (λ y. p y ≡ true) e holds) (Memᴰ.head e)
  mem_keep_if p (x ∷ xs) holds (Memᴰ.tail m) = elim (Bool-cases (p x)) [
    | inl kept ↦ rw kept (Memᴰ.tail (mem_keep_if p xs holds m))
    | inr gone ↦ rw gone (mem_keep_if p xs holds m)
  ]

pub All-imp {ℓ κ μ} :
    {A : Type ℓ} (P : A → Type κ) (Q : A → Type μ) (imp : (a : A) → P a → Q a) (xs : List A)
    → All P xs
    → All Q xs
All-imp P Q imp [] h = tt
All-imp P Q imp (x ∷ xs) h = (imp x h.0, All-imp P Q imp xs h.1)

pub all-append {ℓ} :
    {A : Type ℓ} (p : A → Bool) (xs ys : List A) → all p (xs ++ ys) ≡ (all p xs && all p ys)
all-append p [] ys = refl
all-append p (x ∷ xs) ys = ground (arith, all-append p xs ys)
