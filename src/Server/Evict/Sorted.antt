-- ===== src/Server/Evict/Sorted.antt =====
-- The order of entries by time.
use remerge.Prelude.{◌≤◌, List, [], ◌∷◌, arith, inl, inr, nat_eq, leb, Bool-cases, All}
use remerge.Types.Client.{WorkorderId, DateTime}
use remerge.Server.Evict.{insert_by_time, sort_by_time}

-- A list in order of time: every entry is no later than those after it.
unfoldable pub IsSorted : List (WorkorderId × DateTime) → Type 0
IsSorted [] = Unit {0}
IsSorted (e ∷ es) = All (λ (f : WorkorderId × DateTime). e.1 ≤ f.1) es × IsSorted es

insert_by_time-All :
    (t : DateTime) (e : WorkorderId × DateTime) (es : List (WorkorderId × DateTime))
    → t ≤ e.1
    → All (λ (f : WorkorderId × DateTime). t ≤ f.1) es
    → All (λ (f : WorkorderId × DateTime). t ≤ f.1) (insert_by_time e es)
insert_by_time-All t e [] h hs = (h, tt)
insert_by_time-All t e (f ∷ fs) h hs = elim (Bool-cases (leb e.1 f.1)) [
  | inl le ↦ rw le (h, hs)
  | inr gt ↦ rw gt (hs.0, insert_by_time-All t e fs h hs.1)
]

All-later :
    (t u : DateTime) (es : List (WorkorderId × DateTime))
    → t ≤ u
    → All (λ (f : WorkorderId × DateTime). u ≤ f.1) es
    → All (λ (f : WorkorderId × DateTime). t ≤ f.1) es
All-later t u [] h hs = tt
All-later t u (f ∷ fs) h hs = (omega (arith, h, hs.0), All-later t u fs h hs.1)

insert_by_time-IsSorted :
    (e : WorkorderId × DateTime) (es : List (WorkorderId × DateTime))
    → IsSorted es
    → IsSorted (insert_by_time e es)
unfolding IsSorted
insert_by_time-IsSorted e [] h = (tt, tt)
insert_by_time-IsSorted e (f ∷ fs) h = elim (Bool-cases (leb e.1 f.1)) [
  | inl le ↦
      let before : e.1 ≤ f.1 = ground arith in rw le ((before, All-later e.1 f.1 fs before h.0), h)
  | inr gt ↦
      let after : f.1 ≤ e.1 = ground arith in
      rw gt (insert_by_time-All f.1 e fs after h.0, insert_by_time-IsSorted e fs h.1)
]

pub sort_by_time-IsSorted : (es : List (WorkorderId × DateTime)) → IsSorted (sort_by_time es)
unfolding IsSorted sort_by_time
sort_by_time-IsSorted [] = tt
sort_by_time-IsSorted (e ∷ es) =
    insert_by_time-IsSorted e (sort_by_time es) (sort_by_time-IsSorted es)
