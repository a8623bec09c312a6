-- ===== src/Atom/Grammar.antt =====
-- `validate_atom` accepts exactly the atoms of a grammar.
use mathlib.Core.List.{Memᴰ}
use remerge.Prelude.{
  ℕ, Bool, true, false, [], ◌∷◌, ◌++◌, ok, ◌==◌, all, any, All, All-of_all, All-mem, arith, ◌≡◌,
  ◌↔◌, ◌⊎◌, inl, inr, refl, sym, ◌∙◌, any-append, Option-cases,
}
use remerge.Prelude.Text.{
  Text, codes, text_beq_iff, is_empty, contains, strip_prefix, strip_prefix_lem, split_once,
  split_once_lem, split_once-append, split_once_of_lacking, strip_first, strip_first_lem,
}
use remerge.Atom.{
  shell_chars, is_name_char, is_package_char, validate_package_name, validate_set_name, operators,
  strip_operator, validate_qualified, validate_stripped, validate_atom,
}

-- A text of at least one character, all of which pass the test
abbrev pub IsWord : (ℕ → Bool) → Text → Type 0
IsWord p [] = ⊥
IsWord p (c ∷ s) = (p c ≡ true) × All (λ d. p d ≡ true) s

-- The grammar: a package set, a bare package, or a category and a package with or without an
-- operator before them.
pub data IsAtom (atom : Text) : Type 0 where
  set : (name : Text) → IsWord is_name_char name → atom ≡ b'@' ∷ name → IsAtom atom
  bare : IsWord is_package_char atom → IsAtom atom
  qualified :
      (category name : Text)
      → IsWord is_name_char category
      → IsWord is_package_char name
      → atom ≡ category ++ b'/' ∷ name
      → IsAtom atom
  versioned :
      (operator category name : Text)
      → Memᴰ operator operators
      → IsWord is_name_char category
      → IsWord is_package_char name
      → atom ≡ operator ++ (category ++ b'/' ∷ name)
      → IsAtom atom

all-All : (p : ℕ → Bool) (s : Text) → all p s ≡ true → All (λ d. p d ≡ true) s
all-All p = All-of_all (λ d. p d ≡ true) p (λ c h. h)

All-all : (p : ℕ → Bool) (s : Text) → All (λ d. p d ≡ true) s → all p s ≡ true
All-all p [] h = refl
All-all p (c ∷ s) h = rw (h.0, All-all p s h.1)

IsWord-of_all : (p : ℕ → Bool) (s : Text) → is_empty s ≡ false → all p s ≡ true → IsWord p s
IsWord-of_all p [] e h = cc
IsWord-of_all p (c ∷ s) e h = all-All p (c ∷ s) h

all_of_IsWord : (p : ℕ → Bool) (s : Text) → IsWord p s → (is_empty s ≡ false) × (all p s ≡ true)
all_of_IsWord p [] w = absurd w
all_of_IsWord p (c ∷ s) w = (refl, All-all p (c ∷ s) w)

package_name_sound : (s : Text) → validate_package_name s ≡ ok tt → IsWord is_package_char s
unfolding validate_package_name
package_name_sound s h = IsWord-of_all is_package_char s (ground arith) (ground arith)

package_name_complete : (s : Text) → IsWord is_package_char s → validate_package_name s ≡ ok tt
unfolding validate_package_name
package_name_complete s w =
    let (filled, passed) = all_of_IsWord is_package_char s w in rw (filled, passed)

set_name_sound : (s : Text) → validate_set_name s ≡ ok tt → IsWord is_name_char s
unfolding validate_set_name
set_name_sound s h = IsWord-of_all is_name_char s (ground arith) (ground arith)

set_name_complete : (s : Text) → IsWord is_name_char s → validate_set_name s ≡ ok tt
unfolding validate_set_name
set_name_complete s w = let (filled, passed) = all_of_IsWord is_name_char s w in rw (filled, passed)

qualified_sound :
    (c n : Text) → validate_qualified c n ≡ ok tt → IsWord is_name_char c × IsWord is_package_char n
unfolding validate_qualified
qualified_sound c n h = (
  IsWord-of_all is_name_char c (ground arith) (ground arith),
  IsWord-of_all is_package_char n (ground arith) (ground arith),
)

package-slash : (c : ℕ) → is_package_char c ≡ true → (c == b'/') ≡ false
unfolding is_package_char
package-slash c h = ground arith

name-package : (c : ℕ) → is_name_char c ≡ true → is_package_char c ≡ true
unfolding is_package_char
name-package c h = ground arith

All-no_slash : (s : Text) → All (λ d. is_package_char d ≡ true) s → contains b'/' s ≡ false
All-no_slash [] h = refl
All-no_slash (c ∷ s) h = ground (arith, package-slash c h.0, All-no_slash s h.1)

IsWord-no_slash : (s : Text) → IsWord is_package_char s → contains b'/' s ≡ false
IsWord-no_slash [] w = absurd w
IsWord-no_slash (c ∷ s) w = All-no_slash (c ∷ s) w

All-weaken : (s : Text) → All (λ d. is_name_char d ≡ true) s → All (λ d. is_package_char d ≡ true) s
All-weaken [] h = tt
All-weaken (c ∷ s) h = (name-package c h.0, All-weaken s h.1)

IsWord-weaken : (s : Text) → IsWord is_name_char s → IsWord is_package_char s
IsWord-weaken [] w = absurd w
IsWord-weaken (c ∷ s) w = All-weaken (c ∷ s) w

qualified_complete :
    (c n : Text) → IsWord is_name_char c → IsWord is_package_char n → validate_qualified c n ≡ ok tt
unfolding validate_qualified
qualified_complete c n wc wn =
    let (c_filled, c_passed) = all_of_IsWord is_name_char c wc in
    let (n_filled, n_passed) = all_of_IsWord is_package_char n wn in
    rw (IsWord-no_slash n wn, c_filled, c_passed, n_filled, n_passed)

stripped_sound :
    (s whole : Text)
    → validate_stripped s whole ≡ ok tt
    → ((c : Text) × (n : Text) × (s ≡ c ++ b'/' ∷ n)
        × IsWord is_name_char c
        × IsWord is_package_char n)
      ⊎ ((s ≡ whole) × IsWord is_package_char s)
unfolding validate_stripped
stripped_sound s whole h = elim (Option-cases (split_once b'/' s)) [
  | inl missing ↦ inr ((text_beq_iff s whole).0 (ground arith), package_name_sound s (ground arith))
  | inr ((c, n), found) ↦
      let (wc, wn) = qualified_sound c n (ground arith) in
      inl (c, n, (split_once_lem b'/' s c n found).0, wc, wn)
]

stripped_qualified :
    (c n whole : Text)
    → IsWord is_name_char c
    → IsWord is_package_char n
    → validate_stripped (c ++ b'/' ∷ n) whole ≡ ok tt
unfolding validate_stripped
stripped_qualified c n whole wc wn =
    rw (split_once-append b'/' c n (IsWord-no_slash c (IsWord-weaken c wc)), validate_stripped)
      (qualified_complete c n wc wn)

stripped_bare : (s : Text) → IsWord is_package_char s → validate_stripped s s ≡ ok tt
unfolding validate_stripped
stripped_bare s w =
    rw
      (
        split_once_of_lacking b'/' s (IsWord-no_slash s w),
        validate_stripped,
        (text_beq_iff s s).1 refl,
      )
      (package_name_complete s w)

strip_operator_cases :
    (atom : Text)
    → (strip_operator atom ≡ atom)
      ⊎ ((op : Text) × Memᴰ op operators × (atom ≡ op ++ strip_operator atom))
unfolding strip_operator
strip_operator_cases atom = elim (Option-cases (strip_first operators atom)) [
  | inl missing ↦ inl (rw missing)
  | inr (r, found) ↦
      let (op, listed, e) = strip_first_lem operators atom r found in inr (op, listed, rw found e)
]

-- No package character is an operator's or the mark of a set.
package-symbol :
    (c : ℕ)
    → is_package_char c ≡ true
    → ((c == b'=') ≡ false)
      × ((c == b'<') ≡ false)
      × ((c == b'>') ≡ false)
      × ((c == b'~') ≡ false)
      × ((c == b'@') ≡ false)
unfolding is_package_char
package-symbol c h = ground arith

-- An atom that starts with a package character has no operator.
strip_operator_word : (c : ℕ) (s : Text) → is_package_char c ≡ true → strip_operator (c ∷ s) ≡ c ∷ s
unfolding strip_operator strip_first
strip_operator_word c s h = ground (arith, package-symbol c h)

module _ (c : ℕ) (s : Text) (h : is_package_char c ≡ true) where
  strip_each : All (λ op. strip_operator (op ++ c ∷ s) ≡ c ∷ s) operators
  unfolding strip_operator strip_first
  strip_each =
      let (eq, _, _, _, _) = package-symbol c h in
      (refl, (refl, (refl, (rw eq, (rw eq, (refl, tt))))))

  strip_operator_versioned : (op : Text) → Memᴰ op operators → strip_operator (op ++ c ∷ s) ≡ c ∷ s
  strip_operator_versioned op m =
      All-mem (λ o. strip_operator (o ++ c ∷ s) ≡ c ∷ s) operators strip_each m

abbrev is_shell_char : ℕ → Bool
is_shell_char c = contains c shell_chars

package-shell : (c : ℕ) → is_package_char c ≡ true → is_shell_char c ≡ false
unfolding is_package_char
package-shell c h = ground arith

All-shell : (s : Text) → All (λ d. is_package_char d ≡ true) s → any is_shell_char s ≡ false
All-shell [] h = refl
All-shell (c ∷ s) h = rw (package-shell c h.0, All-shell s h.1)

IsWord-shell : (s : Text) → IsWord is_package_char s → any is_shell_char s ≡ false
IsWord-shell [] w = absurd w
IsWord-shell (c ∷ s) w = All-shell (c ∷ s) w

qualified-shell :
    (c n : Text)
    → IsWord is_name_char c
    → IsWord is_package_char n
    → any is_shell_char (c ++ b'/' ∷ n) ≡ false
qualified-shell c n wc wn =
    rw (
      any-append is_shell_char c (b'/' ∷ n),
      IsWord-shell c (IsWord-weaken c wc),
      IsWord-shell n wn,
    )

-- The branch of `validate_atom` behind the checks for emptiness, shell characters and sets.
validate_past_checks :
    (c : ℕ) (s : Text)
    → any is_shell_char (c ∷ s) ≡ false
    → (c == b'@') ≡ false
    → validate_stripped (strip_operator (c ∷ s)) (c ∷ s) ≡ ok tt
    → validate_atom (c ∷ s) ≡ ok tt
unfolding validate_atom
validate_past_checks c s clean at h = rw (clean, at) h

bare_complete : (s : Text) → IsWord is_package_char s → validate_atom s ≡ ok tt
bare_complete [] w = absurd w
bare_complete (c ∷ s) w =
    let (_, _, _, _, at) = package-symbol c w.0 in
    validate_past_checks c s (IsWord-shell (c ∷ s) w) at
      (rw (strip_operator_word c s w.0) (stripped_bare (c ∷ s) w))

set_accepted : (name : Text) → IsWord is_name_char name → validate_atom (b'@' ∷ name) ≡ ok tt
unfolding validate_atom
set_accepted name w = rw (IsWord-shell name (IsWord-weaken name w), set_name_complete name w)

qualified_accepted :
    (c n : Text)
    → IsWord is_name_char c
    → IsWord is_package_char n
    → validate_atom (c ++ b'/' ∷ n) ≡ ok tt
qualified_accepted [] n wc wn = absurd wc
qualified_accepted (c ∷ s) n wc wn =
    let p = name-package c wc.0 in
    let (_, _, _, _, at) = package-symbol c p in
    validate_past_checks c (s ++ b'/' ∷ n) (qualified-shell (c ∷ s) n wc wn) at
      (rw (strip_operator_word c (s ++ b'/' ∷ n) p) (stripped_qualified (c ∷ s) n _ wc wn))

module _ (c : ℕ) (s n : Text) (wc : IsWord is_name_char (c ∷ s))
    (wn : IsWord is_package_char n) where
  operator_accepted :
      (d : ℕ) (r : Text)
      → Memᴰ (d ∷ r) operators
      → any is_shell_char (d ∷ r) ≡ false
      → (d == b'@') ≡ false
      → validate_atom (d ∷ r ++ (c ∷ s ++ b'/' ∷ n)) ≡ ok tt
  operator_accepted d r m clean at =
      validate_past_checks d (r ++ (c ∷ s ++ b'/' ∷ n))
        (rw (any-append is_shell_char (d ∷ r) (c ∷ s ++ b'/' ∷ n), clean)
          (qualified-shell (c ∷ s) n wc wn))
        at
        (rw (strip_operator_versioned c (s ++ b'/' ∷ n) (name-package c wc.0) (d ∷ r) m)
          (stripped_qualified (c ∷ s) n _ wc wn))

  operators_accepted : All (λ op. validate_atom (op ++ (c ∷ s ++ b'/' ∷ n)) ≡ ok tt) operators
  operators_accepted = (
    operator_accepted _ _ (Memᴰ.head refl) refl refl,
    (
      operator_accepted _ _ (Memᴰ.tail (Memᴰ.head refl)) refl refl,
      (
        operator_accepted _ _ (Memᴰ.tail (Memᴰ.tail (Memᴰ.head refl))) refl refl,
        (
          operator_accepted _ _ (Memᴰ.tail (Memᴰ.tail (Memᴰ.tail (Memᴰ.head refl)))) refl refl,
          (
            operator_accepted _ _ (Memᴰ.tail (Memᴰ.tail (Memᴰ.tail (Memᴰ.tail (Memᴰ.head refl)))))
                refl refl,
            (
              operator_accepted _ _
                  (Memᴰ.tail (Memᴰ.tail (Memᴰ.tail (Memᴰ.tail (Memᴰ.tail (Memᴰ.head refl)))))) refl
                  refl,
              tt,
            ),
          ),
        ),
      ),
    ),
  )

versioned_accepted :
    (op c n : Text)
    → Memᴰ op operators
    → IsWord is_name_char c
    → IsWord is_package_char n
    → validate_atom (op ++ (c ++ b'/' ∷ n)) ≡ ok tt
versioned_accepted op [] n m wc wn = absurd wc
versioned_accepted op (c ∷ s) n m wc wn =
    All-mem (λ o. validate_atom (o ++ (c ∷ s ++ b'/' ∷ n)) ≡ ok tt) operators
      (operators_accepted c s n wc wn) m

atom_complete : (atom : Text) → IsAtom atom → validate_atom atom ≡ ok tt
atom_complete atom (set name w e) = rw e (set_accepted name w)
atom_complete atom (bare w) = bare_complete atom w
atom_complete atom (qualified c n wc wn e) = rw e (qualified_accepted c n wc wn)
atom_complete atom (versioned op c n m wc wn e) = rw e (versioned_accepted op c n m wc wn)

IsAtom-sound : (atom : Text) → validate_atom atom ≡ ok tt → IsAtom atom
unfolding validate_atom
IsAtom-sound atom h = elim (Option-cases (strip_prefix (codes "@") atom)) [
  | inr (name, found) ↦
      set name (set_name_sound name (ground arith)) (strip_prefix_lem (codes "@") atom name found)
  | inl missing ↦ elim (stripped_sound (strip_operator atom) atom (ground arith)) [
    | inr (same, w) ↦ bare (rw same at w)
    | inl (c, n, e, wc, wn) ↦ elim (strip_operator_cases atom) [
      | inl same ↦ qualified c n wc wn (sym same ∙ e)
      | inr (op, m, split) ↦ versioned op c n m wc wn (rw e at split)
    ]
  ]
]

-- The validator accepts exactly the atoms of the grammar.
pub validate_atom_iff : (atom : Text) → (validate_atom atom ≡ ok tt) ↔ IsAtom atom
validate_atom_iff atom = (IsAtom-sound atom, atom_complete atom)
