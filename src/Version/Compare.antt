-- ===== src/Version/Compare.antt =====
-- `compare_versions` orders versions: it is a total preorder.
use remerge.Prelude.{
  ℕ, zero, suc, ◌+◌, ◌≤◌, List, [], ◌∷◌, arith, ◌≡◌, refl, sym, ap, ◌∙◌, compare, Ordering, length,
  max,
}
use remerge.Prelude.Text.{Text}
use remerge.Version.{
  then_with, compare_part, compare_parts, first_part, later_parts, split_parts, split_revision,
  revision_number, compare_versions, suffix_order, split_numeric_letter, compare_text,
}
use remerge.Version.Order.{IsPreorder, flip, compare-IsPreorder, by_both-IsPreorder, by_both}
use remerge.Version.Keys.{compare_part-IsPreorder}

nothing-IsPreorder : IsPreorder {A = List Text} (λ ps qs. Ordering.eq)
nothing-IsPreorder = record { flips = λ a b. refl; same = λ a b c e. refl; below = λ a b c h k. h }

compare_parts-IsPreorder : (n : ℕ) → IsPreorder (compare_parts n)
unfolding compare_parts
compare_parts-IsPreorder zero = nothing-IsPreorder
compare_parts-IsPreorder (suc n) =
    by_both-IsPreorder first_part later_parts compare_part-IsPreorder (compare_parts-IsPreorder n)

compare_parts-nothing : (n : ℕ) → compare_parts n [] [] ≡ Ordering.eq
unfolding compare_parts compare_part suffix_order split_numeric_letter compare_text
compare_parts-nothing zero = refl
compare_parts-nothing (suc n) = compare_parts-nothing n

later : (ps : List Text) (n : ℕ) → length ps ≤ suc n → length (later_parts ps) ≤ n
later [] n h = omega arith
later (p ∷ ps) n h = omega arith

-- Rounds after the last part change nothing.
compare_parts-more :
    (n m : ℕ) (ps qs : List Text)
    → length ps ≤ n
    → length qs ≤ n
    → n ≤ m
    → compare_parts m ps qs ≡ compare_parts n ps qs
unfolding compare_parts
compare_parts-more zero m [] [] h k l = compare_parts-nothing m
compare_parts-more zero m [] (q ∷ qs) h k l = absurd (omega arith)
compare_parts-more zero m (p ∷ ps) qs h k l = absurd (omega arith)
compare_parts-more (suc n) zero ps qs h k l = absurd (omega arith)
compare_parts-more (suc n) (suc m) ps qs h k l =
    ap (then_with (compare_part (first_part ps) (first_part qs))) (
      compare_parts-more n m (later_parts ps) (later_parts qs) (later ps n h) (later qs n k)
        (omega arith))

abbrev parts_of : Text → List Text
parts_of v = split_parts (split_revision v).0

abbrev revision_of : Text → ℕ
revision_of v = revision_number (split_revision v).1

abbrev compare_at : ℕ → Text → Text → Ordering
compare_at n = by_both parts_of revision_of (compare_parts-IsPreorder n) compare-IsPreorder

compare_versions-at :
    (n : ℕ) (a b : Text)
    → length (parts_of a) ≤ n
    → length (parts_of b) ≤ n
    → compare_versions a b ≡ compare_at n a b
unfolding compare_versions
compare_versions-at n a b h k =
    ap (λ (o : Ordering). then_with o (compare (revision_of a) (revision_of b)))
      (sym (
        compare_parts-more (max (length (parts_of a)) (length (parts_of b))) n (parts_of a)
          (parts_of b) (omega arith) (omega arith) (omega arith)))

compare_at-IsPreorder : (n : ℕ) → IsPreorder (compare_at n)
compare_at-IsPreorder n =
    by_both-IsPreorder parts_of revision_of (compare_parts-IsPreorder n) compare-IsPreorder

-- Comparing versions the other way round gives the opposite answer, versions that compare as equal
-- compare alike with every other version, and the order is transitive.
pub compare_versions-IsPreorder : IsPreorder compare_versions
compare_versions-IsPreorder = record {
  flips = λ a b.
      let n = length (parts_of a) + length (parts_of b) in
      compare_versions-at n b a (omega arith) (omega arith)
      ∙ (compare_at-IsPreorder n).flips a b
      ∙ ap flip (sym (compare_versions-at n a b (omega arith) (omega arith)));
  same = λ a b c e.
      let n = length (parts_of a) + length (parts_of b) + length (parts_of c) in
      compare_versions-at n a c (omega arith) (omega arith)
      ∙ (compare_at-IsPreorder n).same a b c
          (sym (compare_versions-at n a b (omega arith) (omega arith)) ∙ e)
      ∙ sym (compare_versions-at n b c (omega arith) (omega arith));
  below = λ a b c h k.
      let n = length (parts_of a) + length (parts_of b) + length (parts_of c) in
      compare_versions-at n a c (omega arith) (omega arith)
      ∙ (compare_at-IsPreorder n).below a b c
          (sym (compare_versions-at n a b (omega arith) (omega arith)) ∙ h)
          (sym (compare_versions-at n b c (omega arith) (omega arith)) ∙ k);
}
