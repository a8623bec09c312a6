-- ===== src/Repo/Names.antt =====
-- The package name of a version string.
use remerge.Prelude.{
  ℕ, false, ==_iff, true, ◌&&◌, none, some, [], ◌∷◌, ◌++◌, arith, ◌==◌, ◌≡◌, refl, ◌⊎◌, inl, inr,
  Option-cases, Bool-cases,
}
use remerge.Prelude.Text.{Text, is_ascii_digit}
use remerge.Repo.{starts_with_digit, before_version, extract_package_base}

before_version-split :
    (cpv base : Text)
    → before_version cpv ≡ some base
    → (version : Text) × (cpv ≡ base ++ (45 ∷ version))
      × (starts_with_digit version ≡ true)
      × (before_version version ≡ none)
unfolding before_version
before_version-split [] base e = ground arith
before_version-split (c ∷ cs) base e = elim (Option-cases (before_version cs)) [
  | inr (p, n) ↦
      let (v, split, digit, last) = before_version-split cs p n in (v, ground arith, digit, last)
  | inl n ↦ elim (Bool-cases ((c == 45) && starts_with_digit cs)) [
    | inl here ↦ (cs, ground arith, ground arith, n)
    | inr not_here ↦ ground arith
  ]
]

-- No dash of the text is followed by a digit.
abbrev pub LacksVersion : Text → Type 0
LacksVersion s = (l r : Text) (d : ℕ) → s ≡ l ++ (b'-' ∷ d ∷ r) → is_ascii_digit d ≡ false

lacking_here :
    (a : ℕ) (s l r : Text) (d : ℕ)
    → ((a == b'-') && starts_with_digit s) ≡ false
    → ((m : Text) → s ≡ m ++ (b'-' ∷ d ∷ r) → is_ascii_digit d ≡ false)
    → a ∷ s ≡ l ++ (b'-' ∷ d ∷ r)
    → is_ascii_digit d ≡ false
lacking_here a s [] r d here later split =
    let tail : s ≡ d ∷ r = cc split in
    let head : a ≡ b'-' = cc split in
    let dash : (a == b'-') ≡ true = (==_iff a b'-').1 head in rw (dash, tail) at here
lacking_here a s (c ∷ m) r d here later split = later m (cc split)

before_version-LacksVersion : (s : Text) → before_version s ≡ none → LacksVersion s
unfolding before_version
before_version-LacksVersion [] none_found [] r d split = cc
before_version-LacksVersion [] none_found (c ∷ l) r d split = cc
before_version-LacksVersion (a ∷ s) none_found l r d split =
    elim (Option-cases (before_version s)) [
      | inr (base, n) ↦
          let no : some (a ∷ base) ≡ none = rw (before_version, n) at none_found in cc no
      | inl n ↦ elim (Bool-cases ((a == b'-') && starts_with_digit s)) [
        | inl here ↦ let no : some [] ≡ none = rw (before_version, n, here) at none_found in cc no
        | inr not_here ↦
            lacking_here a s l r d not_here (λ m. before_version-LacksVersion s n m r d) split
      ]
    ]

-- The package name is the whole text, in which then no dash is followed by a digit, or what stands
-- before a dash after which the version starts with a digit, and in the version no dash is followed
-- by a digit.
pub extract_package_base_lem :
    (cpv : Text)
    → (LacksVersion cpv × (extract_package_base cpv ≡ cpv))
      ⊎ ((version : Text) × (cpv ≡ extract_package_base cpv ++ (b'-' ∷ version))
          × (starts_with_digit version ≡ true)
          × LacksVersion version)
unfolding extract_package_base
extract_package_base_lem cpv = elim (Option-cases (before_version cpv)) [
  | inl n ↦ inl (before_version-LacksVersion cpv n, rw n refl)
  | inr (base, n) ↦
      let (v, split, digit, last) = before_version-split cpv base n in
      inr (v, rw n split, digit, before_version-LacksVersion v last)
]
