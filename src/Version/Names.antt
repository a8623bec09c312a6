-- ===== src/Version/Names.antt =====
-- `split_name_version`: where a name ends and its version begins.
use remerge.Prelude.{
  true, ◌&&◌, none, some, Option-cases, Bool-cases, [], ◌∷◌, ◌++◌, arith, ◌≡◌, ◌↔◌, inl, inr, refl,
  ◌∙◌, ◌==◌, ==_iff, nat_eq,
}
use remerge.Prelude.Text.{Text}
use remerge.Version.{starts_with_digit, last_hyphen, split_name_version}

-- The version starts with a digit, and no hyphen in it is followed by a digit.
abbrev pub IsSplit : Text → Text → Text → Type 0
IsSplit s name version =
    (s ≡ name ++ (b'-' ∷ version))
    × (starts_with_digit version ≡ true)
    × (last_hyphen version ≡ none)

last_hyphen-IsSplit :
    (s name version : Text) → last_hyphen s ≡ some (name, version) → IsSplit s name version
unfolding last_hyphen
last_hyphen-IsSplit [] name version e = cc
last_hyphen-IsSplit (c ∷ s) name version e = elim (Option-cases (last_hyphen s)) [
  | inl n ↦ elim (Bool-cases (c == b'-' && starts_with_digit s)) [
    | inl here ↦
        let split : some ([], s) ≡ some (name, version) = rw (last_hyphen, n, here) at e in
        ground (arith, ==_iff c b'-')
    | inr other ↦ let no : none ≡ some (name, version) = rw (last_hyphen, n, other) at e in cc no
  ]
  | inr ((n, v), later) ↦
      let split : some (c ∷ n, v) ≡ some (name, version) = rw (last_hyphen, later) at e in
      let inner = last_hyphen-IsSplit s n v later in ground arith
]

IsSplit-last_hyphen :
    (name version : Text)
    → starts_with_digit version ≡ true
    → last_hyphen version ≡ none
    → last_hyphen (name ++ (b'-' ∷ version)) ≡ some (name, version)
unfolding last_hyphen
IsSplit-last_hyphen [] version digit rest = rw (rest, digit) refl
IsSplit-last_hyphen (c ∷ name) version digit rest =
    rw (IsSplit-last_hyphen name version digit rest) refl

-- A text is split into a name and a version exactly when it is the name, a hyphen and the version,
-- the version starts with a digit, and no later hyphen is followed by a digit.
pub split_name_version_iff :
    (s name version : Text) → (split_name_version s ≡ (name, some version)) ↔ IsSplit s name version
unfolding split_name_version
split_name_version_iff s name version = (
  λ e. elim (Option-cases (last_hyphen s)) [
    | inl n ↦ let no : (s, none) ≡ (name, some version) = rw (split_name_version, n) at e in cc no
    | inr ((n, v), found) ↦
        let split : (n, some v) ≡ (name, some version) = rw (split_name_version, found) at e in
        last_hyphen-IsSplit s name version (found ∙ ground arith)
  ],
  λ h. rw (h.0, split_name_version, IsSplit-last_hyphen name version h.1 h.2) refl,
)
