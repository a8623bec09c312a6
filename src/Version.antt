-- ===== src/Version.antt =====
-- crates/cli/src/portage.rs: package versions. Names with versions and revisions are split, and
-- versions are compared part by part.
pub mod Order
pub mod Keys
pub mod Parts
pub mod Compare
pub mod Names
mod Tests
use remerge.Prelude.{
  ℕ, zero, suc, ◌+◌, ◌-◌, ◌*◌, Bool, true, false, not, ◌&&◌, ◌||◌, Option, none, some, List, [],
  ◌∷◌, ◌++◌, if◌then◌else◌, ltb, leb, ◌==◌, length, all, max, compare, Ordering,
}
use remerge.Prelude.Text.{Text, codes, strip_prefix, or_else, is_ascii_digit, is_ascii_lowercase}
use remerge.Prelude.Int.{ℤ, pos, negsuc}
use remerge.Server.State.{u64_mod}

-- `AtomOp`
pub data AtomOp : Type 0 where
  no_operator equal equal_glob tilde at_least at_most above below : AtomOp

abbrev pub ends_with_star : Text → Bool
ends_with_star [] = false
ends_with_star (c ∷ []) = c == b'*'
ends_with_star (c ∷ d ∷ s) = ends_with_star (d ∷ s)

-- `parse_atom_operator`
unfoldable pub parse_atom_operator : Text → AtomOp × Text
parse_atom_operator atom = elim (strip_prefix (codes ">=") atom) [
  | some rest ↦ (at_least, rest)
  | none ↦ elim (strip_prefix (codes "<=") atom) [
    | some rest ↦ (at_most, rest)
    | none ↦ elim (strip_prefix (codes "=") atom) [
      | some rest ↦ (if ends_with_star rest then equal_glob else equal, rest)
      | none ↦ elim (strip_prefix (codes "~") atom) [
        | some rest ↦ (tilde, rest)
        | none ↦ elim (strip_prefix (codes ">") atom) [
          | some rest ↦ (above, rest)
          | none ↦ elim (strip_prefix (codes "<") atom) [
            | some rest ↦ (below, rest)
            | none ↦ (no_operator, atom)
          ]
        ]
      ]
    ]
  ]
]

abbrev pub starts_with_digit : Text → Bool
starts_with_digit [] = false
starts_with_digit (c ∷ s) = is_ascii_digit c

-- the text around the last `-` that a digit follows
unfoldable pub last_hyphen : Text → Option (Text × Text)
last_hyphen [] = none
last_hyphen (c ∷ s) = elim (last_hyphen s) [
  | some (name, version) ↦ some (c ∷ name, version)
  | none ↦ if c == b'-' && starts_with_digit s then some ([], s) else none
]

-- `split_name_version`
unfoldable pub split_name_version : Text → Text × Option Text
unfolding last_hyphen
split_name_version s = elim (last_hyphen s) [
  | some (name, version) ↦ (name, some version)
  | none ↦ (s, none)
]

-- `rfind("-r")`: the text before the last one and the text after it
unfoldable pub rfind_revision : Text → Option (Text × Text)
rfind_revision [] = none
rfind_revision (c ∷ s) = elim (rfind_revision s) [
  | some (before, after) ↦ some (c ∷ before, after)
  | none ↦ elim (strip_prefix (codes "-r") (c ∷ s)) [ some after ↦ some ([], after) | none ↦ none ]
]

abbrev pub is_number : Text → Bool
is_number [] = false
is_number (c ∷ s) = all is_ascii_digit (c ∷ s)

-- `split_revision`: the revision keeps its `r`
unfoldable pub split_revision : Text → Text × Option Text
unfolding rfind_revision
split_revision version = elim (rfind_revision version) [
  | none ↦ (version, none)
  | some (before, after) ↦
      if is_number after then (before, some (b'r' ∷ after)) else (version, none)
]

abbrev pub digits_value : ℕ → Text → ℕ
digits_value acc [] = acc
digits_value acc (c ∷ s) = digits_value (acc * 10 + (c - b'0')) s

-- `str::parse::<u64>` on a text of digits
unfoldable pub parse_u64 : Text → Option ℕ
parse_u64 [] = none
parse_u64 (c ∷ s) =
    if ltb (digits_value 0 (c ∷ s)) u64_mod then some (digits_value 0 (c ∷ s)) else none

-- `suffix_kind_with_number`
unfoldable pub suffix_kind_with_number : Text → Text → ℤ → Option (ℤ × ℕ)
unfolding parse_u64
suffix_kind_with_number s prefix kind = elim (strip_prefix prefix s) [
  | none ↦ none
  | some [] ↦ some (kind, 0)
  | some (c ∷ rest) ↦
      if not (all is_ascii_digit (c ∷ rest))
      then none
      else elim (parse_u64 (c ∷ rest)) [ none ↦ none | some num ↦ some (kind, num) ]
]

-- the closure `suffix_order`
unfoldable pub suffix_order : Text → Option (ℤ × ℕ)
unfolding suffix_kind_with_number
suffix_order s = or_else (suffix_kind_with_number s (codes "alpha") (negsuc 3)) (
    or_else (suffix_kind_with_number s (codes "beta") (negsuc 2)) (
      or_else (suffix_kind_with_number s (codes "pre") (negsuc 1)) (
        or_else (suffix_kind_with_number s (codes "rc") (negsuc 0))
          (suffix_kind_with_number s (codes "p") (pos 1)))))

abbrev pub take_digits : Text → Text
take_digits [] = []
take_digits (c ∷ s) = let rest = take_digits s in if is_ascii_digit c then c ∷ rest else []

abbrev pub drop_digits : Text → Text
drop_digits [] = []
drop_digits (c ∷ s) = let rest = drop_digits s in if is_ascii_digit c then rest else c ∷ s

abbrev pub first_lowercase : Text → Option ℕ
first_lowercase [] = none
first_lowercase (c ∷ s) = if is_ascii_lowercase c then some c else none

-- `split_numeric_letter`: the number that a part starts with, and the letter after it
unfoldable pub split_numeric_letter : Text → Option ℕ × Option ℕ
unfolding parse_u64
split_numeric_letter s = (parse_u64 (take_digits s), first_lowercase (drop_digits s))

-- `Ordering::then`, and the orders of numbers and texts
abbrev pub then_with : Ordering → Ordering → Ordering
then_with Ordering.lt next = Ordering.lt
then_with Ordering.eq next = next
then_with Ordering.gt next = Ordering.gt

abbrev pub compare_int : ℤ → ℤ → Ordering
compare_int (pos a) (pos b) = compare a b
compare_int (pos a) (negsuc b) = Ordering.gt
compare_int (negsuc a) (pos b) = Ordering.lt
compare_int (negsuc a) (negsuc b) = compare b a

unfoldable pub compare_text : Text → Text → Ordering
compare_text [] [] = Ordering.eq
compare_text [] (b ∷ t) = Ordering.lt
compare_text (a ∷ s) [] = Ordering.gt
compare_text (a ∷ s) (b ∷ t) = then_with (compare a b) (compare_text s t)

abbrev pub compare_letters : Option ℕ → Option ℕ → Ordering
compare_letters none none = Ordering.eq
compare_letters none (some b) = Ordering.lt
compare_letters (some a) none = Ordering.gt
compare_letters (some a) (some b) = compare a b

-- two parts neither of which is a suffix, by their numbers and letters
abbrev pub compare_plain : Text → Text → Option ℕ × Option ℕ → Option ℕ × Option ℕ → Ordering
compare_plain pa pb (some a, la) (some b, lb) = then_with (compare a b) (compare_letters la lb)
compare_plain pa pb (some a, la) (none, lb) = Ordering.gt
compare_plain pa pb (none, la) (some b, lb) = Ordering.lt
compare_plain pa pb (none, la) (none, lb) = compare_text pa pb

abbrev pub compare_by_suffix : Text → Text → Option (ℤ × ℕ) → Option (ℤ × ℕ) → Ordering
compare_by_suffix pa pb (some (k, n)) (some (l, m)) = then_with (compare_int k l) (compare n m)
compare_by_suffix pa pb (some (k, n)) none = compare_int k (pos 0)
compare_by_suffix pa pb none (some (l, m)) = compare_int (pos 0) l
compare_by_suffix pa pb none none =
    compare_plain pa pb (split_numeric_letter pa) (split_numeric_letter pb)

-- the body of the loop of `compare_versions`
unfoldable pub compare_part : Text → Text → Ordering
compare_part pa pb = compare_by_suffix pa pb (suffix_order pa) (suffix_order pb)

abbrev pub in_first : ℕ → List Text → List Text
in_first c [] = (c ∷ []) ∷ []
in_first c (part ∷ parts) = (c ∷ part) ∷ parts

-- `split(['.', '_'])`
unfoldable pub split_parts : Text → List Text
split_parts [] = [] ∷ []
split_parts (c ∷ s) =
    let rest = split_parts s in if c == b'.' || c == b'_' then [] ∷ rest else in_first c rest

-- `parts.get(0)` with its default, and the parts after it
abbrev pub first_part : List Text → Text
first_part [] = []
first_part (part ∷ parts) = part

abbrev pub later_parts : List Text → List Text
later_parts [] = []
later_parts (part ∷ parts) = parts

-- the loop of `compare_versions`, for the given number of rounds
unfoldable pub compare_parts : ℕ → List Text → List Text → Ordering
compare_parts zero ps qs = Ordering.eq
compare_parts (suc n) ps qs =
    then_with (compare_part (first_part ps) (first_part qs))
      (compare_parts n (later_parts ps) (later_parts qs))

abbrev pub revision_number : Option Text → ℕ
revision_number none = 0
revision_number (some r) = elim (strip_prefix (codes "r") r) [
  | none ↦ 0
  | some digits ↦ elim (parse_u64 digits) [ none ↦ 0 | some n ↦ n ]
]

abbrev pub compare_split : Text × Option Text → Text × Option Text → Ordering
compare_split (a_base, a_rev) (b_base, b_rev) =
    let a_parts = split_parts a_base in
    let b_parts = split_parts b_base in
    then_with (compare_parts (max (length a_parts) (length b_parts)) a_parts b_parts)
      (compare (revision_number a_rev) (revision_number b_rev))

-- `compare_versions`
unfoldable pub compare_versions : Text → Text → Ordering
unfolding split_revision
compare_versions a b = compare_split (split_revision a) (split_revision b)
