-- ===== src/Server/Evict/Once.antt =====
-- Lists in which no id stands twice.
use remerge.Prelude.{
  ℕ, zero, suc, ap, false, List, [], ◌∷◌, arith, ◌≡◌, inl, inr, refl, ◌∙◌, nat_eq, leb, take, map,
  Bool-cases,
}
use remerge.Prelude.Dict.{Dict, IsDistinct, passes}
use remerge.Types.Client.{WorkorderId, DateTime}
use remerge.Types.Workorder.{Workorder, is_terminal_status}
use remerge.Server.Evict.Oldest.{
  is_among, has, is_among-map, has-take, has-insert_by_time, has-sort_by_time, has-insert_by_time,
  is_ended, has-ended,
}
use remerge.Server.Evict.{ended, insert_by_time, sort_by_time}

-- No id stands twice in the list.
abbrev pub IsOnce : List WorkorderId → Type 0
IsOnce [] = Unit {0}
IsOnce (i ∷ ids) = (is_among i ids ≡ false) × IsOnce ids

abbrev pub IsOnceAt : List (WorkorderId × DateTime) → Type 0
IsOnceAt [] = Unit {0}
IsOnceAt (e ∷ es) = (has e.0 es ≡ false) × IsOnceAt es

pub IsOnceAt-map :
    (es : List (WorkorderId × DateTime))
    → IsOnceAt es
    → IsOnce (map (λ (e : WorkorderId × DateTime). e.0) es)
IsOnceAt-map [] h = tt
IsOnceAt-map (e ∷ es) h = (is_among-map e.0 es ∙ h.0, IsOnceAt-map es h.1)

has-take_none :
    (id : WorkorderId) (n : ℕ) (es : List (WorkorderId × DateTime))
    → has id es ≡ false
    → has id (take n es) ≡ false
has-take_none id n es h = elim (Bool-cases (has id (take n es))) [
  | inr none_there ↦ none_there
  | inl there ↦ absurd (cc (has-take id n es there, h))
]

pub IsOnceAt-take :
    (n : ℕ) (es : List (WorkorderId × DateTime)) → IsOnceAt es → IsOnceAt (take n es)
IsOnceAt-take zero es h = tt
IsOnceAt-take (suc n) [] h = tt
IsOnceAt-take (suc n) (e ∷ es) h = (has-take_none e.0 n es h.0, IsOnceAt-take n es h.1)

IsOnceAt-insert_by_time :
    (e : WorkorderId × DateTime) (es : List (WorkorderId × DateTime))
    → has e.0 es ≡ false
    → IsOnceAt es
    → IsOnceAt (insert_by_time e es)
IsOnceAt-insert_by_time e [] new h = (refl, tt)
IsOnceAt-insert_by_time e (f ∷ fs) new h = elim (Bool-cases (leb e.1 f.1)) [
  | inl le ↦ rw le (new, h)
  | inr gt ↦ rw gt (
    (has-insert_by_time f.0 e fs ∙ (let rest = h.0 in ground arith)),
    IsOnceAt-insert_by_time e fs (ground arith) h.1,
  )
]

pub IsOnceAt-sort_by_time :
    (es : List (WorkorderId × DateTime)) → IsOnceAt es → IsOnceAt (sort_by_time es)
unfolding sort_by_time
IsOnceAt-sort_by_time [] h = tt
IsOnceAt-sort_by_time (e ∷ es) h =
    IsOnceAt-insert_by_time e (sort_by_time es) (has-sort_by_time e.0 es ∙ h.0)
      (IsOnceAt-sort_by_time es h.1)

pub IsOnceAt-ended : (ws : Dict WorkorderId Workorder) → IsDistinct ws → IsOnceAt (ended ws)
unfolding ended IsDistinct
IsOnceAt-ended [] d = tt
IsOnceAt-ended ((k, w) ∷ ws) d = elim (Bool-cases (is_terminal_status w.status)) [
  | inl listed ↦ rw listed (has-ended k ws d.1 ∙ ap (passes is_ended) d.0, IsOnceAt-ended ws d.1)
  | inr unlisted ↦ rw unlisted (IsOnceAt-ended ws d.1)
]
