-- ===== src/Server/Evict/Capped.antt =====
-- How many workorders stay under the cap on their number.
use remerge.Prelude.{
  ◌<◌, ◌+◌, ◌≤◌, is_some, sym, length-take, ℕ, zero, suc, ap, ◌-◌, Bool, true, false, ◌&&◌, Option,
  none, some, List, [], ◌∷◌, arith, ◌≡◌, ◌⊎◌, inl, inr, refl, ◌∙◌, nat_eq, ◌==◌, ==_iff, ltb,
  length, take, map, Bool-cases,
}
use remerge.Prelude.Dict.{Dict, get, remove, get-remove, IsDistinct, remove-IsDistinct, passes}
use remerge.Types.Client.{WorkorderId, DateTime}
use remerge.Types.Workorder.{Workorder}
use remerge.Server.State.{AppState}
use remerge.Server.Evict.Oldest.{
  is_among, is_among-map, has-take, has-sort_by_time, is_ended, has-ended,
}
use remerge.Server.Evict.Dropped.{drop_all-other, drop_all-among}
use remerge.Server.Evict.Once.{
  IsOnce, IsOnceAt-map, IsOnceAt-take, IsOnceAt-sort_by_time, IsOnceAt-ended,
}
use remerge.Server.Evict.{drop_workorder, drop_all, ended, sort_by_time, over_cap}

pub over_cap-ended :
    (id : WorkorderId) (cap : ℕ) (ws : Dict WorkorderId Workorder)
    → IsDistinct ws
    → is_among id (over_cap cap ws) ≡ true
    → passes is_ended (get id ws) ≡ true
unfolding over_cap
over_cap-ended id cap ws d h = elim (Bool-cases (ltb 0 cap && ltb cap (length ws))) [
  | inr within ↦ ground arith
  | inl over ↦
      let taken = take (length ws - cap) (sort_by_time (ended ws)) in
      let among : is_among id (map (λ (e : WorkorderId × DateTime). e.0) taken) ≡ true =
        rw over at h in
      let sorted =
        has-take id (length ws - cap) (sort_by_time (ended ws))
          (rw (is_among-map id taken) at among) in
      rw (← has-ended id ws d, ← has-sort_by_time id (ended ws)) sorted
]

pub passes-some :
    (p : Workorder → Bool) (o : Option Workorder)
    → passes p o ≡ true
    → (w : Workorder) × (o ≡ some w) × (p w ≡ true)
passes-some p none h = ground arith
passes-some p (some w) h = (w, refl, h)

length-remove_absent :
    (i : WorkorderId) (ws : Dict WorkorderId Workorder)
    → get i ws ≡ none
    → length (remove i ws) ≡ length ws
unfolding get remove
length-remove_absent i [] h = refl
length-remove_absent i ((k, w) ∷ ws) h = elim (Bool-cases (k == i)) [
  | inl same ↦ let no : some w ≡ none = rw same at h in cc no
  | inr other ↦ rw other (ap suc (length-remove_absent i ws (rw other at h)))
]

length-remove :
    (i : WorkorderId) (ws : Dict WorkorderId Workorder)
    → IsDistinct ws
    → is_some (get i ws) ≡ true
    → length (remove i ws) + 1 ≡ length ws
unfolding get remove IsDistinct
length-remove i [] d h = ground arith
length-remove i ((k, w) ∷ ws) d h = elim (Bool-cases (k == i)) [
  | inl same ↦
      let absent : get i ws ≡ none = rw ((==_iff k i).0 same) at d.0 in
      rw same (let rest = length-remove_absent i ws absent in omega arith)
  | inr other ↦ rw other (let rest = length-remove i ws d.1 (rw other at h) in omega arith)
]

later_present :
    (i : WorkorderId) (ids : List WorkorderId) (ws : Dict WorkorderId Workorder)
    → is_among i ids ≡ false
    → ((j : WorkorderId) → is_among j (i ∷ ids) ≡ true → is_some (get j ws) ≡ true)
    → (j : WorkorderId) → is_among j ids ≡ true
    → is_some (get j (remove i ws)) ≡ true
later_present i ids ws new present j among = elim (Bool-cases (i == j)) [
  | inl same ↦ absurd (cc (rw ((==_iff i j).0 same) at new, among))
  | inr other ↦ rw (get-remove i j, other) (present j (ground arith))
]

drop_all-length :
    (ids : List WorkorderId) (s : AppState)
    → IsOnce ids
    → ((i : WorkorderId) → is_among i ids ≡ true → is_some (get i s.workorders) ≡ true)
    → IsDistinct s.workorders
    → length (drop_all ids s).workorders + length ids ≡ length s.workorders
unfolding drop_all drop_workorder
drop_all-length [] s once present d = omega arith
drop_all-length (i ∷ ids) s once present d =
    let first = length-remove i s.workorders d (present i (ground arith)) in
    let rest =
      drop_all-length ids (drop_workorder i s) once.1
        (later_present i ids s.workorders once.0 present) (remove-IsDistinct i s.workorders d) in
    omega arith

over_cap-present :
    (cap : ℕ) (ws : Dict WorkorderId Workorder)
    → IsDistinct ws
    → (j : WorkorderId) → is_among j (over_cap cap ws) ≡ true
    → is_some (get j ws) ≡ true
over_cap-present cap ws d j among =
    let (w, found, _) = passes-some is_ended (get j ws) (over_cap-ended j cap ws d among) in
    rw found refl

over_cap-IsOnce :
    (cap : ℕ) (ws : Dict WorkorderId Workorder) → IsDistinct ws → IsOnce (over_cap cap ws)
unfolding over_cap
over_cap-IsOnce cap ws d = elim (Bool-cases (ltb 0 cap && ltb cap (length ws))) [
  | inr within ↦ rw within tt
  | inl over ↦
      let es = sort_by_time (ended ws) in
      rw over (
        IsOnceAt-map (take (length ws - cap) es) (
          IsOnceAt-take (length ws - cap) es
            (IsOnceAt-sort_by_time (ended ws) (IsOnceAt-ended ws d))))
]

length-map :
    (es : List (WorkorderId × DateTime))
    → length (map (λ (e : WorkorderId × DateTime). e.0) es) ≡ length es
length-map [] = refl
length-map (e ∷ es) = ap suc (length-map es)

take_all : (n : ℕ) (es : List (WorkorderId × DateTime)) → length es ≤ n → take n es ≡ es
take_all zero [] h = refl
take_all zero (e ∷ es) h = absurd (omega (arith, h))
take_all (suc n) [] h = refl
take_all (suc n) (e ∷ es) h = ap (λ xs. e ∷ xs) (take_all n es (omega (arith, h)))

-- Above the cap, as many go as are too many, or all that have ended.
over_cap-enough :
    (cap : ℕ) (ws : Dict WorkorderId Workorder)
    → IsDistinct ws
    → 0 < cap
    → cap < length ws
    → (length (over_cap cap ws) ≡ length ws - cap)
      ⊎ ((id : WorkorderId) → is_among id (over_cap cap ws) ≡ passes is_ended (get id ws))
unfolding over_cap
over_cap-enough cap ws d positive over =
    let es = sort_by_time (ended ws) in
    let n = length ws - cap in
    let test : (ltb 0 cap && ltb cap (length ws)) ≡ true = ground arith in
    elim (Bool-cases (ltb (length es) n)) [
      | inr many ↦ inl (
          rw test (
            length-map (take n es)
            ∙ length-take n es
            ∙ (let more : n ≤ length es = ground arith in omega arith)))
      | inl few ↦ inr (λ id.
          rw (test, take_all n es (ground arith))
            (is_among-map id es ∙ has-sort_by_time id (ended ws) ∙ has-ended id ws d))
    ]

-- With a cap, no more than its number stay, or none that has ended.
pub over_cap-bound :
    (cap : ℕ) (id : WorkorderId) (s : AppState)
    → IsDistinct s.workorders
    → (cap ≡ 0)
      ⊎ (length (drop_all (over_cap cap s.workorders) s).workorders ≤ cap)
      ⊎ (passes is_ended (get id (drop_all (over_cap cap s.workorders) s).workorders) ≡ false)
over_cap-bound cap id s d =
    let ids = over_cap cap s.workorders in
    let gone =
      drop_all-length ids s (over_cap-IsOnce cap s.workorders d)
        (over_cap-present cap s.workorders d) d in
    elim (Bool-cases (ltb 0 cap)) [
      | inr zero_cap ↦ inl (ground arith)
      | inl positive ↦ elim (Bool-cases (ltb cap (length s.workorders))) [
        | inr within ↦ inr (inl (ground arith))
        | inl over ↦ elim (over_cap-enough cap s.workorders d (ground arith) (ground arith)) [
          | inl many ↦
              inr (inl (let more : cap < length s.workorders = ground arith in omega arith))
          | inr all ↦ inr (
              inr (elim (Bool-cases (is_among id ids)) [
                | inl cut ↦ rw (drop_all-among ids id s cut).workorder refl
                | inr kept ↦ rw (drop_all-other ids id s kept).workorder (sym (all id) ∙ kept)
              ]))
        ]
      ]
    ]
