-- ===== src/Prelude/Text.antt =====
-- Texts as lists of code points, with the `str` and `char` methods that the program calls.
use Prim.Native.Char.{code}
use Prim.Native.Nat.{ℕ, ◌+◌}
use Prim.Native.String.{String}
use mathlib.Core.Path.{◌≡◌, refl}
use mathlib.Core.Logic.{◌↔◌, inl, inr}
use mathlib.Core.Bool.{Bool, true, false, ◌&&◌, ◌||◌}
use mathlib.Core.Option.{Option, none, some}
use mathlib.Core.List.{List, [], ◌∷◌, ◌++◌, Memᴰ}
use native.Mathlib.Omega.{arith}
use remerge.Prelude.Tests.{leb, ◌==◌, if◌then◌else◌, Eq, Bool-cases, Option-cases}

abbrev pub Text : Type 0
Text = List ℕ

abbrev pub codes : String → Text
codes String.[] = []
codes (String.◌∷◌ c s) = code c ∷ codes s

abbrev pub text_beq : Text → Text → Bool
text_beq [] [] = true
text_beq (a ∷ s) (b ∷ t) = a == b && text_beq s t
text_beq _ _ = false

pub text_beq_iff : (s t : Text) → (text_beq s t ≡ true) ↔ (s ≡ t)
text_beq_iff [] [] = (λ _. refl, λ _. refl)
text_beq_iff [] (b ∷ t) = (λ h. cc, λ h. cc)
text_beq_iff (a ∷ s) [] = (λ h. cc, λ h. cc)
text_beq_iff (a ∷ s) (b ∷ t) = ground (arith, text_beq_iff s t)

instance abbrev pub text_eq : Eq Text
text_eq = record { beq = text_beq; beq_iff = text_beq_iff }

-- `char::is_ascii_digit` and its relatives
abbrev pub is_ascii_digit : ℕ → Bool
is_ascii_digit c = leb b'0' c && leb c b'9'

abbrev pub is_ascii_lowercase : ℕ → Bool
is_ascii_lowercase c = leb b'a' c && leb c b'z'

abbrev pub is_ascii_uppercase : ℕ → Bool
is_ascii_uppercase c = leb b'A' c && leb c b'Z'

abbrev pub is_ascii_alphabetic : ℕ → Bool
is_ascii_alphabetic c = is_ascii_lowercase c || is_ascii_uppercase c

abbrev pub is_ascii_alphanumeric : ℕ → Bool
is_ascii_alphanumeric c = is_ascii_alphabetic c || is_ascii_digit c

-- `u8::is_ascii_hexdigit`
abbrev pub is_ascii_hexdigit : ℕ → Bool
is_ascii_hexdigit c = is_ascii_digit c || leb b'a' c && leb c b'f' || leb b'A' c && leb c b'F'

-- `char::is_whitespace`: the code points with the property White_Space
unfoldable pub is_whitespace : ℕ → Bool
is_whitespace c =
    leb 9 c && leb c 13
    || c == 32
    || c == 0x85
    || c == 0xa0
    || c == 0x1680
    || leb 0x2000 c && leb c 0x200a
    || c == 0x2028
    || c == 0x2029
    || c == 0x202f
    || c == 0x205f
    || c == 0x3000

-- `str::trim`, one end at a time
unfoldable pub trim_start : Text → Text
trim_start [] = []
trim_start (c ∷ s) = let rest = trim_start s in if is_whitespace c then rest else c ∷ s

-- `str::is_empty`
abbrev pub is_empty : Text → Bool
is_empty [] = true
is_empty (_ ∷ _) = false

unfoldable pub trim_end : Text → Text
trim_end [] = []
trim_end (c ∷ s) =
    let rest = trim_end s in if is_whitespace c && is_empty rest then [] else c ∷ rest

unfoldable pub trim : Text → Text
unfolding trim_start trim_end
trim s = trim_end (trim_start s)

-- `str::to_lowercase` and `to_ascii_lowercase`. Only the ASCII letters are mapped: the program
-- lowers fingerprints and trace headers, which are ASCII.
abbrev pub lower_char : ℕ → ℕ
lower_char c = if is_ascii_uppercase c then c + 32 else c

unfoldable pub to_lowercase : Text → Text
to_lowercase [] = []
to_lowercase (c ∷ s) = lower_char c ∷ to_lowercase s

-- `str::contains` on a character
abbrev pub contains : ℕ → Text → Bool
contains c [] = false
contains c (a ∷ s) = a == c || contains c s

-- `str::strip_prefix` and `str::starts_with`
abbrev pub strip_prefix : Text → Text → Option Text
strip_prefix [] s = some s
strip_prefix (p ∷ ps) [] = none
strip_prefix (p ∷ ps) (a ∷ s) = if a == p then strip_prefix ps s else none

abbrev pub starts_with : Text → Text → Bool
starts_with [] s = true
starts_with (p ∷ ps) [] = false
starts_with (p ∷ ps) (a ∷ s) = a == p && starts_with ps s

-- `Option::or_else`
abbrev pub or_else {ℓ} : {A : Type ℓ} → Option A → Option A → Option A
or_else none o = o
or_else (some a) o = some a

-- `Option::unwrap_or`
abbrev pub unwrap_or {ℓ} : {A : Type ℓ} → Option A → A → A
unwrap_or none a = a
unwrap_or (some b) a = b

abbrev cons_fst : ℕ → Option (Text × Text) → Option (Text × Text)
cons_fst c none = none
cons_fst c (some (s, t)) = some (c ∷ s, t)

-- `str::split_once` on a character: at its first occurrence
abbrev pub split_once : ℕ → Text → Option (Text × Text)
split_once c [] = none
split_once c (a ∷ s) =
    let rest = cons_fst a (split_once c s) in if a == c then some ([], s) else rest

-- A split puts the text back together, and its first part has no separator.
pub split_once_lem :
    (c : ℕ) (s l r : Text)
    → split_once c s ≡ some (l, r)
    → (s ≡ l ++ c ∷ r) × (contains c l ≡ false)
split_once_lem c [] l r h = cc
split_once_lem c (a ∷ s) l r h = elim (Bool-cases (a == c)) [
  | inl same ↦ ground arith
  | inr differs ↦ elim (Option-cases (split_once c s)) [
    | inl missing ↦ ground arith
    | inr ((l', r'), found) ↦ ground (arith, split_once_lem c s l' r' found)
  ]
]

pub strip_prefix_lem : (p s r : Text) → strip_prefix p s ≡ some r → s ≡ p ++ r
strip_prefix_lem [] s r h = ground arith
strip_prefix_lem (p ∷ ps) [] r h = cc
strip_prefix_lem (p ∷ ps) (a ∷ s) r h = ground (arith, strip_prefix_lem ps s r)

-- A chain of `strip_prefix` calls joined by `or_else`: the first prefix of the list that fits
unfoldable pub strip_first : List Text → Text → Option Text
strip_first [] s = none
strip_first (p ∷ ps) s = or_else (strip_prefix p s) (strip_first ps s)

pub strip_first_lem :
    (ps : List Text) (s r : Text)
    → strip_first ps s ≡ some r
    → (p : Text) × Memᴰ p ps × (s ≡ p ++ r)
unfolding strip_first
strip_first_lem [] s r h = cc
strip_first_lem (p ∷ ps) s r h = elim (Option-cases (strip_prefix p s)) [
  | inr (t, found) ↦
      let same : t ≡ r = ground arith in
      (p, Memᴰ.head refl, rw (← same) (strip_prefix_lem p s t found))
  | inl missing ↦
      let (q, listed, e) = strip_first_lem ps s r (ground arith) in (q, Memᴰ.tail listed, e)
]

-- A separator that the first part lacks is where the split happens.
pub split_once-append :
    (c : ℕ) (l r : Text) → contains c l ≡ false → split_once c (l ++ c ∷ r) ≡ some (l, r)
split_once-append c [] r h = ground arith
split_once-append c (a ∷ l) r h = ground (arith, split_once-append c l r)

pub split_once_of_lacking : (c : ℕ) (s : Text) → contains c s ≡ false → split_once c s ≡ none
split_once_of_lacking c [] h = refl
split_once_of_lacking c (a ∷ s) h = ground (arith, split_once_of_lacking c s)
