-- ===== src/Auth/Fingerprint.antt =====
-- The ways to write one certificate fingerprint have one normal form.
use remerge.Prelude.{
  ℕ, Bool, true, false, ◌||◌, ◌&&◌, none, ◌∙◌, [], ◌∷◌, arith, ◌≡◌, refl, leb, if◌then◌else◌, All,
  ◌⊎◌, inl, inr, Bool-cases,
}
use remerge.Prelude.Text.{
  Text, codes, is_ascii_digit, is_whitespace, is_empty, trim_start, trim_end, lower_char,
  to_lowercase, strip_prefix, unwrap_or,
}
use remerge.Auth.{drop_separators, normalise_fingerprint}

-- A hexadecimal digit in either case
abbrev pub is_hex : ℕ → Bool
is_hex c = is_ascii_digit c || leb b'a' c && leb c b'f' || leb b'A' c && leb c b'F'

-- A fingerprint as it may be written: hexadecimal digits with colons and spaces anywhere.
abbrev pub IsWritten : Text → Type 0
IsWritten s = All (λ c. (is_hex c ≡ true) ⊎ (c ≡ b':') ⊎ (c ≡ b' ')) s

-- The digits of a fingerprint in lower case
unfoldable pub hex_digits : Text → Text
hex_digits [] = []
hex_digits (c ∷ s) = let rest = hex_digits s in if is_hex c then lower_char c ∷ rest else rest

hex-whitespace : (c : ℕ) → is_whitespace c ≡ true → is_hex c ≡ false
unfolding is_whitespace
hex-whitespace c h = ground arith

hex_digits-trim_start : (s : Text) → hex_digits (trim_start s) ≡ hex_digits s
unfolding hex_digits trim_start
hex_digits-trim_start [] = refl
hex_digits-trim_start (c ∷ s) = ground (arith, hex_digits-trim_start s, hex-whitespace c)

IsWritten-trim_start : (s : Text) → IsWritten s → IsWritten (trim_start s)
unfolding trim_start
IsWritten-trim_start [] w = tt
IsWritten-trim_start (c ∷ s) w = elim (Bool-cases (is_whitespace c)) [
  | inl space ↦ rw space (IsWritten-trim_start s w.1)
  | inr other ↦ rw other w
]

IsWritten-trim_end : (s : Text) → IsWritten s → IsWritten (trim_end s)
unfolding trim_end
IsWritten-trim_end [] w = tt
IsWritten-trim_end (c ∷ s) w = elim (Bool-cases (is_whitespace c && is_empty (trim_end s))) [
  | inl space ↦ rw space tt
  | inr other ↦ rw other (w.0, IsWritten-trim_end s w.1)
]

hex_digits_of_empty : (s : Text) → is_empty s ≡ true → hex_digits s ≡ []
unfolding hex_digits
hex_digits_of_empty [] h = refl
hex_digits_of_empty (c ∷ s) h = cc

hex_digits-trim_end : (s : Text) → hex_digits (trim_end s) ≡ hex_digits s
unfolding hex_digits trim_end
hex_digits-trim_end [] = refl
hex_digits-trim_end (c ∷ s) =
    ground (arith, hex_digits-trim_end s, hex-whitespace c, hex_digits_of_empty (trim_end s))

drop_separators-hex : (s : Text) → IsWritten s → drop_separators (to_lowercase s) ≡ hex_digits s
unfolding drop_separators to_lowercase hex_digits
drop_separators-hex [] w = refl
drop_separators-hex (c ∷ s) w = ground (arith, drop_separators-hex s w.1)

strip_prefix_written :
    (s : Text) → IsWritten s → strip_prefix (codes "sha256:") (to_lowercase s) ≡ none
unfolding to_lowercase
strip_prefix_written [] w = refl
strip_prefix_written (c ∷ s) w = ground arith

written :
    (s : Text)
    → IsWritten s
    → drop_separators (unwrap_or (strip_prefix (codes "sha256:") (to_lowercase s)) (to_lowercase s))
      ≡ hex_digits s
written s w = rw (strip_prefix_written s w) (drop_separators-hex s w)

-- Any writing of a fingerprint with colons, spaces and either case has its digits in lower case as
-- the normal form.
normalise_fingerprint-hex : (s : Text) → IsWritten s → normalise_fingerprint s ≡ hex_digits s
unfolding normalise_fingerprint
normalise_fingerprint-hex s w =
    written (trim_end (trim_start s)) (IsWritten-trim_end _ (IsWritten-trim_start s w))
    ∙ hex_digits-trim_end (trim_start s)
    ∙ hex_digits-trim_start s

drop_separators-trim_end :
    (s : Text) → IsWritten s → drop_separators (to_lowercase (trim_end s)) ≡ hex_digits s
drop_separators-trim_end s w =
    drop_separators-hex (trim_end s) (IsWritten-trim_end s w) ∙ hex_digits-trim_end s
