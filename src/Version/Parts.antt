-- ===== src/Version/Parts.antt =====
-- The parts of versions as they are written, and the order that they have: a suffix with a number, or
-- a number with a letter.
use remerge.Prelude.{
  ℕ, suc, ◌<◌, true, false, Option, none, some, List, [], ◌∷◌, ◌++◌, all, ◌==◌, arith, ◌≡◌, refl,
  ltb,
}
use remerge.Prelude.Text.{Text, codes, strip_prefix, is_ascii_digit, is_ascii_lowercase}
use remerge.Prelude.Int.{ℤ, pos, negsuc}
use remerge.Server.State.{u64_mod}
use remerge.Version.{
  compare_text, compare_part, suffix_kind_with_number, suffix_order, split_numeric_letter,
  parse_u64, digits_value, take_digits, drop_digits, first_lowercase,
}
use remerge.Version.Keys.{key, plain_key, rank, compare_part-key}

pub data Suffix : Type 0 where
  alpha beta pre rc patch : Suffix

pub data Part : Type 0 where
  suffixed : Suffix → Text → Part
  numbered : ℕ → Text → Option ℕ → Part

abbrev pub word : Suffix → Text
word alpha = codes "alpha"
word beta = codes "beta"
word pre = codes "pre"
word rc = codes "rc"
word patch = codes "p"

abbrev letters : Option ℕ → Text
letters none = []
letters (some c) = c ∷ []

-- How a part is written; a number is its first digit and the others.
abbrev pub written : Part → Text
written (suffixed k digits) = word k ++ digits
written (numbered c digits letter) = (c ∷ digits) ++ letters letter

abbrev IsLetter : Option ℕ → Type 0
IsLetter none = Unit {0}
IsLetter (some c) = is_ascii_lowercase c ≡ true

-- The digits are digits and their number fits 64 bits; a suffix may lack them.
abbrev pub IsPart : Part → Type 0
IsPart (suffixed k digits) = (all is_ascii_digit digits ≡ true) × (digits_value 0 digits < u64_mod)
IsPart (numbered c digits letter) =
    (all is_ascii_digit (c ∷ digits) ≡ true)
    × (digits_value 0 (c ∷ digits) < u64_mod)
    × IsLetter letter

-- Where the suffixes stand; numbers stand at 4, between `rc` and `p`.
abbrev pub place : Suffix → ℕ
place alpha = 0
place beta = 1
place pre = 2
place rc = 3
place patch = 5

abbrev letter_place : Option ℕ → ℕ
letter_place none = 0
letter_place (some c) = suc c

abbrev pub order : Part → List ℕ
order (suffixed k digits) = place k ∷ digits_value 0 digits ∷ []
order (numbered c digits letter) = 4 ∷ digits_value 0 (c ∷ digits) ∷ letter_place letter ∷ []

suffix_kind_hit :
    (s prefix digits : Text) (kind : ℤ)
    → strip_prefix prefix s ≡ some digits
    → all is_ascii_digit digits ≡ true
    → digits_value 0 digits < u64_mod
    → suffix_kind_with_number s prefix kind ≡ some (kind, digits_value 0 digits)
unfolding suffix_kind_with_number parse_u64
suffix_kind_hit s prefix [] kind stripped good fits = rw (suffix_kind_with_number, stripped) refl
suffix_kind_hit s prefix (c ∷ digits) kind stripped good fits =
    let small : ltb (digits_value 0 (c ∷ digits)) u64_mod ≡ true = ground arith in
    rw (suffix_kind_with_number, stripped, good, small) refl

suffix_kind_miss :
    (s prefix : Text) (kind : ℤ)
    → strip_prefix prefix s ≡ none
    → suffix_kind_with_number s prefix kind ≡ none
unfolding suffix_kind_with_number
suffix_kind_miss s prefix kind missed = rw (suffix_kind_with_number, missed) refl

abbrev kind : Suffix → ℤ
kind alpha = negsuc 3
kind beta = negsuc 2
kind pre = negsuc 1
kind rc = negsuc 0
kind patch = pos 1

not_pre :
    (digits : Text)
    → all is_ascii_digit digits ≡ true
    → strip_prefix (codes "pre") (word patch ++ digits) ≡ none
not_pre [] good = refl
not_pre (c ∷ digits) good = let other : (c == b'r') ≡ false = ground arith in rw other refl

suffix_order-word :
    (k : Suffix) (digits : Text)
    → all is_ascii_digit digits ≡ true
    → digits_value 0 digits < u64_mod
    → suffix_order (word k ++ digits) ≡ some (kind k, digits_value 0 digits)
unfolding suffix_order
suffix_order-word alpha d good fits =
    rw (suffix_order, suffix_kind_hit (word alpha ++ d) (codes "alpha") d (negsuc 3) refl good fits)
      refl
suffix_order-word beta d good fits =
    rw
      (
        suffix_order,
        suffix_kind_miss (word beta ++ d) (codes "alpha") (negsuc 3) refl,
        suffix_kind_hit (word beta ++ d) (codes "beta") d (negsuc 2) refl good fits,
      )
      refl
suffix_order-word pre d good fits =
    rw
      (
        suffix_order,
        suffix_kind_miss (word pre ++ d) (codes "alpha") (negsuc 3) refl,
        suffix_kind_miss (word pre ++ d) (codes "beta") (negsuc 2) refl,
        suffix_kind_hit (word pre ++ d) (codes "pre") d (negsuc 1) refl good fits,
      )
      refl
suffix_order-word rc d good fits =
    rw
      (
        suffix_order,
        suffix_kind_miss (word rc ++ d) (codes "alpha") (negsuc 3) refl,
        suffix_kind_miss (word rc ++ d) (codes "beta") (negsuc 2) refl,
        suffix_kind_miss (word rc ++ d) (codes "pre") (negsuc 1) refl,
        suffix_kind_hit (word rc ++ d) (codes "rc") d (negsuc 0) refl good fits,
      )
      refl
suffix_order-word patch d good fits =
    rw
      (
        suffix_order,
        suffix_kind_miss (word patch ++ d) (codes "pre") (negsuc 1) (not_pre d good),
        suffix_kind_hit (word patch ++ d) (codes "p") d (pos 1) refl good fits,
      )
      refl

missed :
    (c a : ℕ) (s prefix : Text) (k : ℤ)
    → (c == a) ≡ false
    → suffix_kind_with_number (c ∷ s) (a ∷ prefix) k ≡ none
missed c a s prefix k other = suffix_kind_miss (c ∷ s) (a ∷ prefix) k (rw other refl)

suffix_order-digit : (c : ℕ) (s : Text) → is_ascii_digit c ≡ true → suffix_order (c ∷ s) ≡ none
unfolding suffix_order
suffix_order-digit c s digit =
    rw
      (
        suffix_order,
        missed c b'a' s (codes "lpha") (negsuc 3) (ground arith),
        missed c b'b' s (codes "eta") (negsuc 2) (ground arith),
        missed c b'p' s (codes "re") (negsuc 1) (ground arith),
        missed c b'r' s (codes "c") (negsuc 0) (ground arith),
        missed c b'p' s [] (pos 1) (ground arith),
      )
      refl

take_digits-letters :
    (digits : Text) (letter : Option ℕ)
    → all is_ascii_digit digits ≡ true
    → IsLetter letter
    → (take_digits (digits ++ letters letter) ≡ digits)
      × (first_lowercase (drop_digits (digits ++ letters letter)) ≡ letter)
take_digits-letters [] none good lower = (refl, refl)
take_digits-letters [] (some c) good lower =
    let no_digit : is_ascii_digit c ≡ false = ground arith in
    (rw no_digit refl, rw (no_digit, lower) refl)
take_digits-letters (c ∷ digits) letter good lower =
    let digit : is_ascii_digit c ≡ true = ground arith in
    let (taken, left) = take_digits-letters digits letter (ground arith) lower in
    (rw (digit, taken) refl, rw (digit, left) refl)

-- The key of a written part is its order, with a 1 for the number that it has.
abbrev keyed : Part → List ℕ
keyed (suffixed k digits) = order (suffixed k digits)
keyed (numbered c digits letter) = 4 ∷ 1 ∷ digits_value 0 (c ∷ digits) ∷ letter_place letter ∷ []

rank-kind : (k : Suffix) → rank (kind k) ≡ place k
rank-kind alpha = refl
rank-kind beta = refl
rank-kind pre = refl
rank-kind rc = refl
rank-kind patch = refl

plain_key-letter :
    (s : Text) (n : ℕ) (l : Option ℕ) → plain_key s (some n, l) ≡ 4 ∷ 1 ∷ n ∷ letter_place l ∷ []
plain_key-letter s n none = refl
plain_key-letter s n (some c) = refl

key-written : (a : Part) → IsPart a → key (written a) ≡ keyed a
unfolding key split_numeric_letter parse_u64
key-written (suffixed k d) good = rw (key, suffix_order-word k d good.0 good.1, rank-kind k) refl
key-written (numbered c d letter) good =
    let digit : is_ascii_digit c ≡ true = ground arith in
    let (taken, left) = take_digits-letters (c ∷ d) letter good.0 good.2 in
    let small : ltb (digits_value 0 (c ∷ d)) u64_mod ≡ true = ground arith in
    let split : split_numeric_letter (written (numbered c d letter))
        ≡ (some (digits_value 0 (c ∷ d)), letter) =
      rw (split_numeric_letter, taken, left, parse_u64, small) refl in
    rw (key, suffix_order-digit c (d ++ letters letter) digit, split)
      (plain_key-letter (written (numbered c d letter)) (digits_value 0 (c ∷ d)) letter)

keyed-order : (a b : Part) → compare_text (keyed a) (keyed b) ≡ compare_text (order a) (order b)
unfolding compare_text
keyed-order (suffixed k d) (suffixed l e) = refl
keyed-order (suffixed alpha d) (numbered c e m) = refl
keyed-order (suffixed beta d) (numbered c e m) = refl
keyed-order (suffixed pre d) (numbered c e m) = refl
keyed-order (suffixed rc d) (numbered c e m) = refl
keyed-order (suffixed patch d) (numbered c e m) = refl
keyed-order (numbered c d m) (suffixed alpha e) = refl
keyed-order (numbered c d m) (suffixed beta e) = refl
keyed-order (numbered c d m) (suffixed pre e) = refl
keyed-order (numbered c d m) (suffixed rc e) = refl
keyed-order (numbered c d m) (suffixed patch e) = refl
keyed-order (numbered c d m) (numbered b e n) = refl

-- Two parts as they are written compare by their order: alpha, beta, pre and rc with their numbers
-- below every number, and p above, and numbers by their value and then by their letter, none first.
-- The numbers fit 64 bits, a suffix without one counts as with 0, and letters are lower-case.
pub compare_part-written :
    (a b : Part)
    → IsPart a
    → IsPart b
    → compare_part (written a) (written b) ≡ compare_text (order a) (order b)
compare_part-written a b good good' =
    rw (compare_part-key (written a) (written b), key-written a good, key-written b good')
      (keyed-order a b)
