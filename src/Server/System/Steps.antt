-- ===== src/Server/System/Steps.antt =====
-- What every single operation keeps: a queue depth that counts the pending workorders, one entry for
-- each id, and open channels for the pending ones.
use remerge.Prelude.{
  ℕ, ◌+◌, ◌%◌, true, false, some, Bool-cases, if◌then◌else◌, arith, ◌≡◌, ◌≢◌, inl, inr, refl, sym,
  ◌∙◌, ap, nat_eq, ==_iff, ◌==◌,
}
use remerge.Prelude.Dict.{Dict, get, modify, get-modify, passes, IsDistinct, modify-IsDistinct}
use remerge.Prelude.Counts.{one_if, count_if, count_if-modify}
use remerge.Types.Client.{WorkorderId}
use remerge.Types.Workorder.{Workorder}
use remerge.Server.State.{AppState, u64_mod, fetch_add, fetch_sub}
use remerge.Server.Queue.Claim.{waits}

-- The pending workorders, counted
abbrev pub count_pending : Dict WorkorderId Workorder → ℕ
count_pending ws = count_if waits ws

pub record IsConsistent (s : AppState) : Type 0 where
  pub distinct : IsDistinct s.workorders
  pub keyed : (id : WorkorderId) (w : Workorder) → get id s.workorders ≡ some w → w.id ≡ id
  pub depth : s.metrics.queue_depth ≡ count_pending s.workorders % u64_mod
  pub open_progress :
      (id : WorkorderId)
      → passes waits (get id s.workorders) ≡ true
      → get id s.progress_txs ≡ some tt
  pub open_raw :
      (id : WorkorderId)
      → passes waits (get id s.workorders) ≡ true
      → get id s.raw_output_txs ≡ some tt

-- The same for a state in which no waiting workorder differs.
pub IsConsistent-same :
    (s t : AppState)
    → t.workorders ≡ s.workorders
    → t.metrics.queue_depth ≡ s.metrics.queue_depth
    → ((id : WorkorderId)
        → passes waits (get id s.workorders) ≡ true
        → get id t.progress_txs ≡ get id s.progress_txs)
    → ((id : WorkorderId)
        → passes waits (get id s.workorders) ≡ true
        → get id t.raw_output_txs ≡ get id s.raw_output_txs)
    → IsConsistent s
    → IsConsistent t
IsConsistent-same s t ws depth progress raw c = record {
  distinct = rw ws c.distinct;
  keyed = rw ws c.keyed;
  depth = rw (ws, depth) c.depth;
  open_progress = rw ws (λ id h. progress id h ∙ c.open_progress id h);
  open_raw = rw ws (λ id h. raw id h ∙ c.open_raw id h);
}

-- The counter follows a count that goes up or down by one.
fetch_sub_follows :
    (depth count less : ℕ)
    → depth ≡ count % u64_mod
    → 1 + less ≡ count
    → fetch_sub depth ≡ less % u64_mod
fetch_sub_follows depth count less e h = omega arith

stays : (depth count same : ℕ) → depth ≡ count % u64_mod → 0 + same ≡ count → depth ≡ same % u64_mod
stays depth count same e h = omega arith

pub fetch_add_follows :
    (depth count : ℕ) → depth ≡ count % u64_mod → fetch_add depth 1 ≡ (1 + count) % u64_mod
fetch_add_follows depth count e = omega arith

-- A change of one workorder that leaves it not pending, with the depth following.
module _ (s t : AppState) (id : WorkorderId) (f : Workorder → Workorder) (v : Workorder)
    (found : get id s.workorders ≡ some v) (busy : waits (f v) ≡ false) (named : (f v).id ≡ v.id)
    (ws : t.workorders ≡ modify id f s.workorders) where
  get-same : get id t.workorders ≡ some (f v)
  get-same = rw (ws, get-modify id id, found) (ground arith)

  get-other : (j : WorkorderId) → (id == j) ≡ false → get j t.workorders ≡ get j s.workorders
  get-other j other = rw (ws, get-modify id j, other) refl

  pub get-changed :
      (j : WorkorderId)
      → passes waits (get j t.workorders) ≡ true
      → (j ≢ id) × (passes waits (get j s.workorders) ≡ true)
  get-changed j h = elim (Bool-cases (id == j)) [
    | inl same ↦
        let e : get j t.workorders ≡ some (f v) = rw (← (==_iff id j).0 same) get-same in
        let clash : waits (f v) ≡ true = rw e at h in absurd (cc (clash, busy))
    | inr other ↦ ((λ e. ground arith), rw (← get-other j other) h)
  ]

  keyed-changed :
      ((j : WorkorderId) (w : Workorder) → get j s.workorders ≡ some w → w.id ≡ j)
      → (j : WorkorderId) (w : Workorder) → get j t.workorders ≡ some w
      → w.id ≡ j
  keyed-changed keyed j w n = elim (Bool-cases (id == j)) [
    | inl same ↦
        let e : get j t.workorders ≡ some (f v) = rw (← (==_iff id j).0 same) get-same in
        let here : f v ≡ w = ground (arith, n, e) in
        ap (λ (x : Workorder). x.id) (sym here) ∙ named ∙ keyed id v found ∙ (==_iff id j).0 same
    | inr other ↦ keyed j w (rw (← get-other j other) n)
  ]

  count-changed : one_if (waits v) + count_pending t.workorders ≡ count_pending s.workorders
  count-changed =
      let moved = count_if-modify waits id f v s.workorders found in
      rw ws (omega (arith, (rw busy at moved)))

  pub changed-IsConsistent :
      t.metrics.queue_depth
        ≡ (if waits v then fetch_sub s.metrics.queue_depth else s.metrics.queue_depth)
      → ((j : WorkorderId) → j ≢ id → get j t.progress_txs ≡ get j s.progress_txs)
      → ((j : WorkorderId) → j ≢ id → get j t.raw_output_txs ≡ get j s.raw_output_txs)
      → IsConsistent s
      → IsConsistent t
  changed-IsConsistent depth progress raw c = record {
    distinct = rw ws (modify-IsDistinct id f s.workorders c.distinct);
    keyed = keyed-changed c.keyed;
    depth = elim (Bool-cases (waits v)) [
      | inl waited ↦
          (rw waited at depth)
          ∙ fetch_sub_follows s.metrics.queue_depth (count_pending s.workorders)
              (count_pending t.workorders) c.depth (rw waited at count-changed)
      | inr idle ↦
          (rw idle at depth)
          ∙ stays s.metrics.queue_depth (count_pending s.workorders) (count_pending t.workorders)
              c.depth (rw idle at count-changed)
    ];
    open_progress =
        λ j h. let (other, w) = get-changed j h in progress j other ∙ c.open_progress j w;
    open_raw = λ j h. let (other, w) = get-changed j h in raw j other ∙ c.open_raw j w;
  }
