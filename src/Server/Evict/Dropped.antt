-- ===== src/Server/Evict/Dropped.antt =====
-- What dropping workorders removes and what it keeps.
use remerge.Prelude.{
  true, false, none, List, [], ◌∷◌, arith, ◌≡◌, inl, inr, refl, ◌∙◌, nat_eq, ◌==◌, Bool-cases,
}
use remerge.Prelude.Dict.{get, get-remove, IsDistinct, remove-IsDistinct}
use remerge.Types.Client.{WorkorderId}
use remerge.Server.State.{AppState}
use remerge.Server.Evict.Oldest.{is_among}
use remerge.Server.Evict.{drop_workorder, drop_all}

-- A workorder, its result, its channels and its container are as before, or they are gone.
pub record IsSame (id : WorkorderId) (s s' : AppState) : Type 0 where
  pub workorder : get id s'.workorders ≡ get id s.workorders
  pub result : get id s'.results ≡ get id s.results
  pub progress : get id s'.progress_txs ≡ get id s.progress_txs
  pub raw : get id s'.raw_output_txs ≡ get id s.raw_output_txs
  pub stdin : get id s'.stdin_txs ≡ get id s.stdin_txs
  pub container : get id s'.container_ids ≡ get id s.container_ids

pub record IsGone (id : WorkorderId) (s' : AppState) : Type 0 where
  pub workorder : get id s'.workorders ≡ none
  pub result : get id s'.results ≡ none
  pub progress : get id s'.progress_txs ≡ none
  pub raw : get id s'.raw_output_txs ≡ none
  pub stdin : get id s'.stdin_txs ≡ none
  pub container : get id s'.container_ids ≡ none

pub IsSame-trans :
    (id : WorkorderId) (s t u : AppState) → IsSame id s t → IsSame id t u → IsSame id s u
IsSame-trans id s t u a b = record {
  workorder = b.workorder ∙ a.workorder;
  result = b.result ∙ a.result;
  progress = b.progress ∙ a.progress;
  raw = b.raw ∙ a.raw;
  stdin = b.stdin ∙ a.stdin;
  container = b.container ∙ a.container;
}

IsGone-later : (id : WorkorderId) (s t : AppState) → IsGone id s → IsSame id s t → IsGone id t
IsGone-later id s t a b = record {
  workorder = b.workorder ∙ a.workorder;
  result = b.result ∙ a.result;
  progress = b.progress ∙ a.progress;
  raw = b.raw ∙ a.raw;
  stdin = b.stdin ∙ a.stdin;
  container = b.container ∙ a.container;
}

drop_workorder-other :
    (i id : WorkorderId) (s : AppState) → (i == id) ≡ false → IsSame id s (drop_workorder i s)
unfolding drop_workorder
drop_workorder-other i id s other = record {
  workorder = rw (get-remove i id, other) refl;
  result = rw (get-remove i id, other) refl;
  progress = rw (get-remove i id, other) refl;
  raw = rw (get-remove i id, other) refl;
  stdin = rw (get-remove i id, other) refl;
  container = rw (get-remove i id, other) refl;
}

drop_workorder-same :
    (i id : WorkorderId) (s : AppState) → (i == id) ≡ true → IsGone id (drop_workorder i s)
unfolding drop_workorder
drop_workorder-same i id s same = record {
  workorder = rw (get-remove i id, same) refl;
  result = rw (get-remove i id, same) refl;
  progress = rw (get-remove i id, same) refl;
  raw = rw (get-remove i id, same) refl;
  stdin = rw (get-remove i id, same) refl;
  container = rw (get-remove i id, same) refl;
}

pub drop_all-other :
    (ids : List WorkorderId) (id : WorkorderId) (s : AppState)
    → is_among id ids ≡ false
    → IsSame id s (drop_all ids s)
unfolding drop_all
drop_all-other [] id s h = record {
  workorder = refl;
  result = refl;
  progress = refl;
  raw = refl;
  stdin = refl;
  container = refl;
}
drop_all-other (i ∷ ids) id s h =
    IsSame-trans id s (drop_workorder i s) (drop_all ids (drop_workorder i s))
      (drop_workorder-other i id s (ground arith))
      (drop_all-other ids id (drop_workorder i s) (ground arith))

pub drop_all-among :
    (ids : List WorkorderId) (id : WorkorderId) (s : AppState)
    → is_among id ids ≡ true
    → IsGone id (drop_all ids s)
unfolding drop_all
drop_all-among [] id s h = ground arith
drop_all-among (i ∷ ids) id s h = elim (Bool-cases (is_among id ids)) [
  | inl later ↦ drop_all-among ids id (drop_workorder i s) later
  | inr never ↦
      IsGone-later id (drop_workorder i s) (drop_all ids (drop_workorder i s))
        (drop_workorder-same i id s (ground arith))
        (drop_all-other ids id (drop_workorder i s) never)
]

pub drop_all-IsDistinct :
    (ids : List WorkorderId) (s : AppState)
    → IsDistinct s.workorders
    → IsDistinct (drop_all ids s).workorders
unfolding drop_all drop_workorder
drop_all-IsDistinct [] s d = d
drop_all-IsDistinct (i ∷ ids) s d =
    drop_all-IsDistinct ids (drop_workorder i s) (remove-IsDistinct i s.workorders d)

pub drop_all-staged :
    (ids : List WorkorderId) (s : AppState)
    → (drop_all ids s).staged_workorder_references ≡ s.staged_workorder_references
unfolding drop_all drop_workorder
drop_all-staged [] s = refl
drop_all-staged (i ∷ ids) s = drop_all-staged ids (drop_workorder i s)

-- What is gone stays gone, whatever else is dropped.
pub drop_all-IsGone :
    (ids : List WorkorderId) (id : WorkorderId) (s : AppState)
    → IsGone id s
    → IsGone id (drop_all ids s)
drop_all-IsGone ids id s g = elim (Bool-cases (is_among id ids)) [
  | inl again ↦ drop_all-among ids id s again
  | inr never ↦ IsGone-later id s (drop_all ids s) g (drop_all-other ids id s never)
]
