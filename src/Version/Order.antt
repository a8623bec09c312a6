-- ===== src/Version/Order.antt =====
-- Comparisons that are total preorders, and the lexicographic ones made of them.
use remerge.Prelude.{
  ℕ, List, [], ◌∷◌, arith, ◌≡◌, ◌⊎◌, inl, inr, refl, sym, ap, ◌∙◌, compare, Ordering,
}
use remerge.Version.{then_with, compare_text}

abbrev pub flip : Ordering → Ordering
flip Ordering.lt = Ordering.gt
flip Ordering.eq = Ordering.eq
flip Ordering.gt = Ordering.lt

-- A comparison that answers the other way round when its arguments change places, does not tell
-- equal things apart, and is transitive
pub record IsPreorder {A : Type 0} (cmp : A → A → Ordering) : Type 0 where
  pub flips : (a b : A) → cmp b a ≡ flip (cmp a b)
  pub same : (a b c : A) → cmp a b ≡ Ordering.eq → cmp a c ≡ cmp b c
  pub below : (a b c : A) → cmp a b ≡ Ordering.lt → cmp b c ≡ Ordering.lt → cmp a c ≡ Ordering.lt

pub compare-IsPreorder : IsPreorder compare
compare-IsPreorder = record {
  flips = λ a b. ground arith;
  same = λ a b c e. ground arith;
  below = λ a b c e h. ground arith;
}

pub then_with-flips : (o p : Ordering) → flip (then_with o p) ≡ then_with (flip o) (flip p)
then_with-flips Ordering.lt p = refl
then_with-flips Ordering.eq p = refl
then_with-flips Ordering.gt p = refl

pub then_with-eq :
    (o p : Ordering) → then_with o p ≡ Ordering.eq → (o ≡ Ordering.eq) × (p ≡ Ordering.eq)
then_with-eq Ordering.lt p e = cc
then_with-eq Ordering.eq p e = (refl, e)
then_with-eq Ordering.gt p e = cc

Ordering-cases : (o : Ordering) → (o ≡ Ordering.lt) ⊎ ((o ≡ Ordering.eq) ⊎ (o ≡ Ordering.gt))
Ordering-cases Ordering.lt = inl refl
Ordering-cases Ordering.eq = inr (inl refl)
Ordering-cases Ordering.gt = inr (inr refl)

pub below_same :
    {A : Type 0} {cmp : A → A → Ordering} (p : IsPreorder cmp) (a b c : A)
    → cmp a b ≡ Ordering.lt
    → cmp b c ≡ Ordering.eq
    → cmp a c ≡ Ordering.lt
below_same {cmp = cmp} p a b c l e =
    let turned : cmp b a ≡ Ordering.gt = rw l at (p.flips a b) in
    p.flips c a ∙ ap flip (sym (p.same b c a e) ∙ turned)

-- The comparison by one thing and then by another
module _ {A X Y : Type 0} (f : A → X) (g : A → Y) {cx : X → X → Ordering} {cy : Y → Y → Ordering}
    (px : IsPreorder cx) (py : IsPreorder cy) where
  abbrev pub by_both : A → A → Ordering
  by_both a b = then_with (cx (f a) (f b)) (cy (g a) (g b))

  by_both-same : (a b c : A) → by_both a b ≡ Ordering.eq → by_both a c ≡ by_both b c
  by_both-same a b c e =
      let (e1, e2) = then_with-eq (cx (f a) (f b)) _ e in
      rw (px.same (f a) (f b) (f c) e1, py.same (g a) (g b) (g c) e2) refl

  by_both-below :
      (a b c : A)
      → by_both a b ≡ Ordering.lt
      → by_both b c ≡ Ordering.lt
      → by_both a c ≡ Ordering.lt
  by_both-below a b c h k = elim (Ordering-cases (cx (f a) (f b))) [
    | inr (inr l) ↦ let no : Ordering.gt ≡ Ordering.lt = rw l at h in cc no
    | inl l ↦ elim (Ordering-cases (cx (f b) (f c))) [
      | inl m ↦ rw (px.below (f a) (f b) (f c) l m) refl
      | inr (inl m) ↦ rw (below_same px (f a) (f b) (f c) l m) refl
      | inr (inr m) ↦ let no : Ordering.gt ≡ Ordering.lt = rw m at k in cc no
    ]
    | inr (inl l) ↦ elim (Ordering-cases (cx (f b) (f c))) [
      | inl m ↦ rw (px.same (f a) (f b) (f c) l, m) refl
      | inr (inl m) ↦
          rw (px.same (f a) (f b) (f c) l, m) (py.below (g a) (g b) (g c) (rw l at h) (rw m at k))
      | inr (inr m) ↦ let no : Ordering.gt ≡ Ordering.lt = rw m at k in cc no
    ]
  ]

  pub by_both-IsPreorder : IsPreorder by_both
  by_both-IsPreorder = record {
    flips = λ a b.
        rw (px.flips (f a) (f b), py.flips (g a) (g b))
          (sym (then_with-flips (cx (f a) (f b)) (cy (g a) (g b))));
    same = by_both-same;
    below = by_both-below;
  }

-- The lexicographic order of texts
pub compare_text-eq : (s t : List ℕ) → compare_text s t ≡ Ordering.eq → s ≡ t
unfolding compare_text
compare_text-eq [] [] e = refl
compare_text-eq [] (b ∷ t) e = cc
compare_text-eq (a ∷ s) [] e = cc
compare_text-eq (a ∷ s) (b ∷ t) e =
    let (e1, e2) = then_with-eq (compare a b) (compare_text s t) e in
    ground (arith, compare_text-eq s t e2)

compare_text-flips : (s t : List ℕ) → compare_text t s ≡ flip (compare_text s t)
unfolding compare_text
compare_text-flips [] [] = refl
compare_text-flips [] (b ∷ t) = refl
compare_text-flips (a ∷ s) [] = refl
compare_text-flips (a ∷ s) (b ∷ t) =
    rw (compare-IsPreorder.flips a b, compare_text-flips s t)
      (sym (then_with-flips (compare a b) (compare_text s t)))

compare_text-below :
    (s t u : List ℕ)
    → compare_text s t ≡ Ordering.lt
    → compare_text t u ≡ Ordering.lt
    → compare_text s u ≡ Ordering.lt
unfolding compare_text
compare_text-below [] [] u h k = k
compare_text-below [] (b ∷ t) [] h k = cc k
compare_text-below [] (b ∷ t) (c ∷ u) h k = refl
compare_text-below (a ∷ s) [] u h k = cc h
compare_text-below (a ∷ s) (b ∷ t) [] h k = cc k
compare_text-below (a ∷ s) (b ∷ t) (c ∷ u) h k = ground (arith, compare_text-below s t u)

pub compare_text-IsPreorder : IsPreorder compare_text
compare_text-IsPreorder = record {
  flips = compare_text-flips;
  same = λ a b c e. rw (compare_text-eq a b e) refl;
  below = compare_text-below;
}
