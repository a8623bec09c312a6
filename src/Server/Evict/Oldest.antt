-- ===== src/Server/Evict/Oldest.antt =====
-- The ended workorders in order of time, and which of them come first.
use remerge.Prelude.{
  ℕ, zero, suc, ap, ◌-◌, ◌≤◌, Bool, true, false, ◌&&◌, ◌||◌, none, some, List, [], ◌∷◌, arith, ◌≡◌,
  inl, inr, refl, sym, ◌∙◌, nat_eq, ◌==◌, ==_iff, ltb, leb, length, take, map, any, Bool-cases, All,
}
use remerge.Prelude.Dict.{Dict, get, IsDistinct, passes}
use remerge.Types.Client.{WorkorderId, DateTime}
use remerge.Types.Workorder.{Workorder, is_terminal_status}
use remerge.Server.Evict.Sorted.{IsSorted, sort_by_time-IsSorted}
use remerge.Server.Evict.{ended, insert_by_time, sort_by_time, over_cap}

abbrev pub is_among : WorkorderId → List WorkorderId → Bool
is_among id ids = any (λ i. i == id) ids

-- The id stands in a list of ids with their times.
abbrev pub has : WorkorderId → List (WorkorderId × DateTime) → Bool
has id es = any (λ (e : WorkorderId × DateTime). e.0 == id) es

pub is_among-map :
    (id : WorkorderId) (es : List (WorkorderId × DateTime))
    → is_among id (map (λ (e : WorkorderId × DateTime). e.0) es) ≡ has id es
is_among-map id [] = refl
is_among-map id (e ∷ es) = ground (arith, is_among-map id es)

pub has-take :
    (id : WorkorderId) (n : ℕ) (es : List (WorkorderId × DateTime))
    → has id (take n es) ≡ true
    → has id es ≡ true
has-take id zero es h = ground arith
has-take id (suc n) [] h = ground arith
has-take id (suc n) (e ∷ es) h = ground (arith, has-take id n es)

pub has-insert_by_time :
    (id : WorkorderId) (e : WorkorderId × DateTime) (es : List (WorkorderId × DateTime))
    → has id (insert_by_time e es) ≡ ((e.0 == id) || has id es)
has-insert_by_time id e [] = refl
has-insert_by_time id e (f ∷ fs) = elim (Bool-cases (leb e.1 f.1)) [
  | inl le ↦ rw le refl
  | inr gt ↦ rw gt (ground (arith, has-insert_by_time id e fs))
]

pub has-sort_by_time :
    (id : WorkorderId) (es : List (WorkorderId × DateTime)) → has id (sort_by_time es) ≡ has id es
unfolding sort_by_time
has-sort_by_time id [] = refl
has-sort_by_time id (e ∷ es) =
    has-insert_by_time id e (sort_by_time es) ∙ ap (λ b. (e.0 == id) || b) (has-sort_by_time id es)

unfoldable pub is_ended : Workorder → Bool
is_ended w = is_terminal_status w.status

pub has-ended :
    (id : WorkorderId) (ws : Dict WorkorderId Workorder)
    → IsDistinct ws
    → has id (ended ws) ≡ passes is_ended (get id ws)
unfolding ended IsDistinct get is_ended
has-ended id [] d = refl
has-ended id ((k, w) ∷ ws) d = ground (arith, has-ended id ws d.1, d.0, ==_iff k id)

-- The id stands in the list with this time.
abbrev pub has_at : WorkorderId → DateTime → List (WorkorderId × DateTime) → Bool
has_at id t es = any (λ (e : WorkorderId × DateTime). e.0 == id && e.1 == t) es

has_at-insert_by_time :
    (id : WorkorderId) (t : DateTime) (e : WorkorderId × DateTime)
    (es : List (WorkorderId × DateTime))
    → has_at id t (insert_by_time e es) ≡ ((e.0 == id && e.1 == t) || has_at id t es)
has_at-insert_by_time id t e [] = refl
has_at-insert_by_time id t e (f ∷ fs) = elim (Bool-cases (leb e.1 f.1)) [
  | inl le ↦ rw le refl
  | inr gt ↦ rw gt (ground (arith, has_at-insert_by_time id t e fs))
]

has_at-sort_by_time :
    (id : WorkorderId) (t : DateTime) (es : List (WorkorderId × DateTime))
    → has_at id t (sort_by_time es) ≡ has_at id t es
unfolding sort_by_time
has_at-sort_by_time id t [] = refl
has_at-sort_by_time id t (e ∷ es) =
    has_at-insert_by_time id t e (sort_by_time es)
    ∙ ap (λ b. (e.0 == id && e.1 == t) || b) (has_at-sort_by_time id t es)

-- An ended workorder is listed with its time.
has_at-ended :
    (id : WorkorderId) (w : Workorder) (ws : Dict WorkorderId Workorder)
    → get id ws ≡ some w
    → is_terminal_status w.status ≡ true
    → has_at id w.updated_at (ended ws) ≡ true
unfolding ended get
has_at-ended id w [] found done = cc found
has_at-ended id w ((k, v) ∷ ws) found done = elim (Bool-cases (k == id)) [
  | inl same ↦
      let value : some v ≡ some w = rw same at found in
      let here : v ≡ w = cc value in
      let status : is_terminal_status v.status ≡ true = rw here done in
      let time : (v.updated_at == w.updated_at) ≡ true =
        (==_iff v.updated_at w.updated_at).1 (ap (λ (x : Workorder). x.updated_at) here) in
      rw status (rw (same, time) refl)
  | inr other ↦
      let later : get id ws ≡ some w = rw other at found in
      let rest = has_at-ended id w ws later done in
      elim (Bool-cases (is_terminal_status v.status)) [
        | inl listed ↦ rw listed (ground (arith, rest))
        | inr unlisted ↦ rw unlisted rest
      ]
]

has_at-has :
    (id : WorkorderId) (t : DateTime) (es : List (WorkorderId × DateTime))
    → has id es ≡ false
    → has_at id t es ≡ false
has_at-has id t [] h = refl
has_at-has id t (e ∷ es) h = ground (arith, has_at-has id t es)

ended_absent :
    (id : WorkorderId) (t : DateTime) (ws : Dict WorkorderId Workorder)
    → IsDistinct ws
    → get id ws ≡ none
    → has_at id t (ended ws) ≡ false
ended_absent id t ws d absent =
    has_at-has id t (ended ws) (has-ended id ws d ∙ ap (passes is_ended) absent)

-- and with no other time, each id being stored once
ended-time :
    (id : WorkorderId) (w : Workorder) (t : DateTime) (ws : Dict WorkorderId Workorder)
    → IsDistinct ws
    → get id ws ≡ some w
    → has_at id t (ended ws) ≡ true
    → t ≡ w.updated_at
unfolding ended get IsDistinct
ended-time id w t [] d found h = cc found
ended-time id w t ((k, v) ∷ ws) d found h = elim (Bool-cases (k == id)) [
  | inl same ↦
      let value : some v ≡ some w = rw same at found in
      let here : v ≡ w = cc value in
      let absent : get id ws ≡ none = rw ((==_iff k id).0 same) at d.0 in
      let nothing : has_at id t (ended ws) ≡ false = ended_absent id t ws d.1 absent in
      elim (Bool-cases (is_terminal_status v.status)) [
        | inl listed ↦
            let either : ((k == id && v.updated_at == t) || has_at id t (ended ws)) ≡ true =
              rw listed at h in
            let time : v.updated_at ≡ t = ground arith in
            sym time ∙ ap (λ (x : Workorder). x.updated_at) here
        | inr unlisted ↦
            let there : has_at id t (ended ws) ≡ true = rw unlisted at h in
            absurd (cc (there, nothing))
      ]
  | inr other ↦
      let later : get id ws ≡ some w = rw other at found in
      elim (Bool-cases (is_terminal_status v.status)) [
        | inl listed ↦
            let either : ((k == id && v.updated_at == t) || has_at id t (ended ws)) ≡ true =
              rw listed at h in
            ended-time id w t ws d.1 later (ground arith)
        | inr unlisted ↦ ended-time id w t ws d.1 later (rw unlisted at h)
      ]
]

All-has_at :
    (j : WorkorderId) (t u : DateTime) (es : List (WorkorderId × DateTime))
    → All (λ (f : WorkorderId × DateTime). t ≤ f.1) es
    → has_at j u es ≡ true
    → t ≤ u
All-has_at j t u [] hs h = ground arith
All-has_at j t u (f ∷ fs) hs h = elim (Bool-cases (f.0 == j && f.1 == u)) [
  | inl here ↦ let first = hs.0 in ground arith
  | inr other ↦ All-has_at j t u fs hs.1 (ground arith)
]

-- What is taken from a sorted list is no later than what is not.
take-oldest :
    (id j : WorkorderId) (u : DateTime) (n : ℕ) (es : List (WorkorderId × DateTime))
    → IsSorted es
    → has id (take n es) ≡ true
    → has j (take n es) ≡ false
    → has_at j u es ≡ true
    → (t : DateTime) × (has_at id t es ≡ true) × (t ≤ u)
unfolding IsSorted
take-oldest id j u zero es sorted among not_among h = ground arith
take-oldest id j u (suc n) [] sorted among not_among h = ground arith
take-oldest id j u (suc n) (e ∷ es) sorted among not_among h =
    let later : has_at j u es ≡ true = ground arith in
    elim (Bool-cases (e.0 == id)) [
      | inl here ↦ (e.1, ground arith, All-has_at j e.1 u es sorted.0 later)
      | inr other ↦
          let (t, there, le) =
            take-oldest id j u n es sorted.1 (ground arith) (ground arith) later in
          (t, ground arith, le)
    ]

-- Of two ended workorders, the one that the cap makes too many is not the later one.
pub over_cap-oldest :
    (id j : WorkorderId) (w v : Workorder) (cap : ℕ) (ws : Dict WorkorderId Workorder)
    → IsDistinct ws
    → get id ws ≡ some w
    → get j ws ≡ some v
    → is_terminal_status v.status ≡ true
    → is_among id (over_cap cap ws) ≡ true
    → is_among j (over_cap cap ws) ≡ false
    → w.updated_at ≤ v.updated_at
unfolding over_cap
over_cap-oldest id j w v cap ws d found found' done cut kept =
    elim (Bool-cases (ltb 0 cap && ltb cap (length ws))) [
      | inr within ↦ let no : is_among id [] ≡ true = rw within at cut in cc no
      | inl over ↦
          let es = sort_by_time (ended ws) in
          let n = length ws - cap in
          let taken : is_among id (map (λ (e : WorkorderId × DateTime). e.0) (take n es)) ≡ true =
            rw over at cut in
          let left : is_among j (map (λ (e : WorkorderId × DateTime). e.0) (take n es)) ≡ false =
            rw over at kept in
          let (t, there, le) =
            take-oldest id j v.updated_at n es (sort_by_time-IsSorted (ended ws))
              (rw (is_among-map id (take n es)) at taken) (rw (is_among-map j (take n es)) at left)
              (has_at-sort_by_time j v.updated_at (ended ws) ∙ has_at-ended j v ws found' done) in
          let same : t ≡ w.updated_at =
            ended-time id w t ws d found (sym (has_at-sort_by_time id t (ended ws)) ∙ there) in
          rw (← same) le
    ]
