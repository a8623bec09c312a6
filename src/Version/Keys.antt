-- ===== src/Version/Keys.antt =====
-- The comparison of two parts is the lexicographic order of their keys: first the rank, alpha to rc,
-- plain, p, and for plain parts whether there is a number, the number and the letter.
use remerge.Prelude.{
  ℕ, suc, ◌+◌, ◌-◌, ◌≤◌, ◌<◌, Option, none, some, Option-cases, List, [], ◌∷◌, all, Bool-cases,
  arith, ◌≡◌, inl, inr, refl, sym, ap, ◌∙◌, compare, Ordering,
}
use remerge.Prelude.Text.{Text, codes, strip_prefix, or_else, is_ascii_digit}
use remerge.Prelude.Int.{ℤ, pos, negsuc}
use remerge.Version.{
  then_with, compare_int, compare_text, compare_letters, compare_plain, compare_by_suffix,
  compare_part, suffix_kind_with_number, suffix_order, split_numeric_letter, parse_u64,
}
use remerge.Version.Order.{IsPreorder, flip, compare_text-IsPreorder}

abbrev pub rank : ℤ → ℕ
rank (pos n) = 4 + n
rank (negsuc n) = 3 - n

abbrev pub letter_key : Option ℕ → ℕ
letter_key none = 0
letter_key (some c) = suc c

abbrev pub plain_key : Text → Option ℕ × Option ℕ → List ℕ
plain_key p (some n, letter) = 4 ∷ 1 ∷ n ∷ letter_key letter ∷ []
plain_key p (none, letter) = 4 ∷ 0 ∷ p

abbrev pub key_by_suffix : Text → Option (ℤ × ℕ) → List ℕ
key_by_suffix p (some (k, n)) = rank k ∷ n ∷ []
key_by_suffix p none = plain_key p (split_numeric_letter p)

-- The key by which a part is compared
unfoldable pub key : Text → List ℕ
key p = key_by_suffix p (suffix_order p)

-- the kinds of suffixes
abbrev IsKind : ℤ → Type 0
IsKind (pos n) = 0 < n
IsKind (negsuc n) = n ≤ 3

abbrev IsKindOf : Option (ℤ × ℕ) → Type 0
IsKindOf none = Unit {0}
IsKindOf (some (k, n)) = IsKind k

or_else-IsKindOf : (x y : Option (ℤ × ℕ)) → IsKindOf x → IsKindOf y → IsKindOf (or_else x y)
or_else-IsKindOf none y hx hy = hy
or_else-IsKindOf (some (k, n)) y hx hy = hx

suffix_kind-IsKindOf :
    (s prefix : Text) (kind : ℤ) → IsKind kind → IsKindOf (suffix_kind_with_number s prefix kind)
unfolding suffix_kind_with_number
suffix_kind-IsKindOf s prefix kind h = elim (Option-cases (strip_prefix prefix s)) [
  | inl e ↦ rw (suffix_kind_with_number, e) tt
  | inr ([], e) ↦ rw (suffix_kind_with_number, e) h
  | inr ((c ∷ rest), e) ↦ elim (Bool-cases (all is_ascii_digit (c ∷ rest))) [
    | inr other ↦ rw (suffix_kind_with_number, e, other) tt
    | inl digits ↦ elim (Option-cases (parse_u64 (c ∷ rest))) [
      | inl long ↦ rw (suffix_kind_with_number, e, digits, long) tt
      | inr (n, fits) ↦ rw (suffix_kind_with_number, e, digits, fits) h
    ]
  ]
]

suffix_order-IsKindOf : (s : Text) → IsKindOf (suffix_order s)
unfolding suffix_order
suffix_order-IsKindOf s =
    or_else-IsKindOf (suffix_kind_with_number s (codes "alpha") (negsuc 3)) _
      (suffix_kind-IsKindOf s (codes "alpha") (negsuc 3) (omega arith))
      (or_else-IsKindOf (suffix_kind_with_number s (codes "beta") (negsuc 2)) _
        (suffix_kind-IsKindOf s (codes "beta") (negsuc 2) (omega arith))
        (or_else-IsKindOf (suffix_kind_with_number s (codes "pre") (negsuc 1)) _
          (suffix_kind-IsKindOf s (codes "pre") (negsuc 1) (omega arith))
          (or_else-IsKindOf (suffix_kind_with_number s (codes "rc") (negsuc 0)) _
            (suffix_kind-IsKindOf s (codes "rc") (negsuc 0) (omega arith))
            (suffix_kind-IsKindOf s (codes "p") (pos 1) (omega arith)))))

compare_int-rank : (k l : ℤ) → IsKind k → IsKind l → compare_int k l ≡ compare (rank k) (rank l)
compare_int-rank (pos a) (pos b) h h' = ground arith
compare_int-rank (pos a) (negsuc b) h h' = ground arith
compare_int-rank (negsuc a) (pos b) h h' = ground arith
compare_int-rank (negsuc a) (negsuc b) h h' = ground arith

compare_letters-key :
    (l m : Option ℕ)
    → compare_letters l m ≡ then_with (compare (letter_key l) (letter_key m)) Ordering.eq
compare_letters-key none none = refl
compare_letters-key none (some b) = ground arith
compare_letters-key (some a) none = ground arith
compare_letters-key (some a) (some b) = ground arith

compare_plain-key :
    (p q : Text) (x y : Option ℕ × Option ℕ)
    → compare_plain p q x y ≡ compare_text (plain_key p x) (plain_key q y)
unfolding compare_text
compare_plain-key p q (some a, l) (some b, m) = rw (compare_letters-key l m) refl
compare_plain-key p q (some a, l) (none, m) = refl
compare_plain-key p q (none, l) (some b, m) = refl
compare_plain-key p q (none, l) (none, m) = refl

then_with-nothing : (o : Ordering) → then_with o Ordering.eq ≡ o
then_with-nothing Ordering.lt = refl
then_with-nothing Ordering.eq = refl
then_with-nothing Ordering.gt = refl

-- Any plain part lies between the suffixes of negative kinds and `p`.
compare_int-plain :
    (k : ℤ) (n : ℕ) (p : Text) (x : Option ℕ × Option ℕ)
    → IsKind k
    → (compare_int k (pos 0) ≡ compare_text (rank k ∷ n ∷ []) (plain_key p x))
      × (compare_int (pos 0) k ≡ compare_text (plain_key p x) (rank k ∷ n ∷ []))
unfolding compare_text
compare_int-plain (pos a) n p (some b, m) h = (ground arith, ground arith)
compare_int-plain (pos a) n p (none, m) h = (ground arith, ground arith)
compare_int-plain (negsuc a) n p (some b, m) h = (ground arith, ground arith)
compare_int-plain (negsuc a) n p (none, m) h = (ground arith, ground arith)

compare_by_suffix-key :
    (p q : Text) (x y : Option (ℤ × ℕ))
    → IsKindOf x
    → IsKindOf y
    → compare_by_suffix p q x y ≡ compare_text (key_by_suffix p x) (key_by_suffix q y)
unfolding compare_text
compare_by_suffix-key p q (some (k, n)) (some (l, m)) hx hy =
    rw (compare_int-rank k l hx hy, then_with-nothing (compare n m)) refl
compare_by_suffix-key p q (some (k, n)) none hx hy =
    (compare_int-plain k n q (split_numeric_letter q) hx).0
compare_by_suffix-key p q none (some (l, m)) hx hy =
    (compare_int-plain l m p (split_numeric_letter p) hy).1
compare_by_suffix-key p q none none hx hy =
    compare_plain-key p q (split_numeric_letter p) (split_numeric_letter q)

pub compare_part-key : (p q : Text) → compare_part p q ≡ compare_text (key p) (key q)
unfolding compare_part key
compare_part-key p q =
    compare_by_suffix-key p q (suffix_order p) (suffix_order q) (suffix_order-IsKindOf p)
      (suffix_order-IsKindOf q)

pub compare_part-IsPreorder : IsPreorder compare_part
compare_part-IsPreorder = record {
  flips = λ a b.
      compare_part-key b a
      ∙ compare_text-IsPreorder.flips (key a) (key b)
      ∙ ap flip (sym (compare_part-key a b));
  same = λ a b c e.
      compare_part-key a c
      ∙ compare_text-IsPreorder.same (key a) (key b) (key c) (sym (compare_part-key a b) ∙ e)
      ∙ sym (compare_part-key b c);
  below = λ a b c h k.
      compare_part-key a c
      ∙ compare_text-IsPreorder.below (key a) (key b) (key c) (sym (compare_part-key a b) ∙ h)
          (sym (compare_part-key b c) ∙ k);
}
