-- ===== src/Storage/Cleanup/Kept.antt =====
-- A clean-up spares what is referenced or was used lately.
use remerge.Prelude.{
  ℕ, ◌<◌, Bool, true, false, ◌||◌, some, List, Result, ok, err, Result-cases, Bool-cases, arith,
  ◌≡◌, ◌⊎◌, inl, inr, sym, leb, keep_if, All, All-append, All-imp,
}
use mathlib.Core.Path.{subst}
use remerge.Prelude.Text.{Text, text_eq}
use remerge.Prelude.Dict.{get, IsDistinct}
use remerge.Server.State.{SnapshotReferenceSet}
use remerge.Storage.Blobs.{BlobMetadata, BlobStore, BlobError}
use remerge.Storage.Cleanup.{
  Stores, CleanupSettings, EntryKind, blob, tree, CleanupEntry, Sweep, no_summary, is_active,
  is_hard, total_retained, is_floor_eligible, sort_oldest, delete_entries, candidates, then_floor,
  check_listing, cleanup_listed, cleanup_snapshot_storage_at,
}
use remerge.Storage.Cleanup.Spared.{
  store_of, digests_of, IsSpared, IsSpared-refl, IsSpared-trans, Misses, delete_entries-IsSpared,
  sort_oldest-All, keep_if-All, IsListed, unreferenced-IsListed,
}

-- A digest that an active reference names, or whose record, if it has one, was referenced after both
-- cut-off times
abbrev pub IsProtected :
    CleanupSettings → List SnapshotReferenceSet → Stores → EntryKind → Text → Type 0
IsProtected c references stores kind j =
    (is_active j (digests_of kind references) ≡ true)
    ⊎ ((m : BlobMetadata)
        → get j (store_of kind stores).metadata ≡ some m
        → (c.hard_delete_cutoff < m.last_referenced_at) × (c.grace_cutoff < m.last_referenced_at))

not_old :
    (c : CleanupSettings) (time : ℕ)
    → c.hard_delete_cutoff < time
    → c.grace_cutoff < time
    → (leb time c.hard_delete_cutoff || leb time c.grace_cutoff) ≡ true
    → ⊥
not_old c time hard grace old = ground arith

then_floor-IsSpared :
    (kind : EntryKind) (j : Text) (floor : ℕ) (es : List CleanupEntry) (s : BlobStore)
    (r : Result BlobError (Unit {0}) × Sweep)
    → All (Misses kind j) es
    → IsSpared j s (store_of kind r.1.stores)
    → IsSpared j s (store_of kind (then_floor floor es r).1.stores)
then_floor-IsSpared kind j floor es s (err x, t) h spared = spared
then_floor-IsSpared kind j floor es s (ok u, t) h spared =
    IsSpared-trans j s (store_of kind t.stores) _ spared
      (delete_entries-IsSpared kind j floor es t h)

module _ (c : CleanupSettings) (references : List SnapshotReferenceSet) (stores : Stores)
    (blobs_distinct : IsDistinct stores.blobs.metadata)
    (trees_distinct : IsDistinct stores.trees.metadata) where
  abbrev IsCandidate : CleanupEntry → Type 0
  IsCandidate e = IsListed e.kind (digests_of e.kind references) (store_of e.kind stores).metadata e

  of_own_kind :
      (kind : EntryKind) (e : CleanupEntry)
      → IsListed kind (digests_of kind references) (store_of kind stores).metadata e
      → IsCandidate e
  of_own_kind kind e h =
      subst (λ k. IsListed k (digests_of k references) (store_of k stores).metadata e)
        (sym h.of_kind) h

  candidates-IsCandidate : All IsCandidate (candidates references stores)
  unfolding candidates
  candidates-IsCandidate =
      All-append IsCandidate _ _
        (All-imp _ IsCandidate (of_own_kind blob) _ (
          unreferenced-IsListed blob (digests_of blob references) stores.blobs.metadata
            blobs_distinct))
        (All-imp _ IsCandidate (of_own_kind tree) _ (
          unreferenced-IsListed tree (digests_of tree references) stores.trees.metadata
            trees_distinct))

  module _ (kind : EntryKind) (j : Text) (protected : IsProtected c references stores kind j) where
    old-Misses :
        (e : CleanupEntry)
        → IsCandidate e
        → (is_hard c e || leb e.last_referenced_at c.grace_cutoff) ≡ true
        → Misses kind j e
    old-Misses e h old same_kind same_digest =
        let unused : is_active j (digests_of kind references) ≡ false =
          subst (λ k. is_active j (digests_of k references) ≡ false) same_kind
            (subst (λ d. is_active d (digests_of e.kind references) ≡ false) same_digest
              h.inactive) in
        let found : get j (store_of kind stores).metadata ≡ some h.meta =
          subst (λ k. get j (store_of k stores).metadata ≡ some h.meta) same_kind
            (subst (λ d. get d (store_of e.kind stores).metadata ≡ some h.meta) same_digest
              h.found) in
        elim protected [
          | inl used ↦ cc (used, unused)
          | inr recent ↦
              let (hard, grace) = recent h.meta found in
              not_old c e.last_referenced_at (omega (arith, hard, h.time))
                (omega (arith, grace, h.time)) old
        ]

    eligible-Misses :
        (test : CleanupEntry → Bool)
        → ((e : CleanupEntry)
            → test e ≡ true
            → (is_hard c e || leb e.last_referenced_at c.grace_cutoff) ≡ true)
        → All (Misses kind j) (sort_oldest (keep_if test (candidates references stores)))
    eligible-Misses test old =
        sort_oldest-All (Misses kind j) (keep_if test (candidates references stores)) (
          keep_if-All IsCandidate (Misses kind j) test (λ e h t. old-Misses e h (old e t))
            (candidates references stores) candidates-IsCandidate)

    cleanup_listed-IsSpared :
        IsSpared j
          (store_of kind stores)
          (store_of kind (cleanup_listed c references stores).1.stores)
    unfolding cleanup_listed
    cleanup_listed-IsSpared =
        let total = total_retained stores.trees.metadata (total_retained stores.blobs.metadata 0) in
        let begin : Sweep = record {
          stores = stores;
          summary = no_summary;
          total_retained_bytes = total;
        } in
        let floor = c.snapshot_min_retained_bytes in
        let hard = sort_oldest (keep_if (is_hard c) (candidates references stores)) in
        let eligible = sort_oldest (keep_if (is_floor_eligible c) (candidates references stores)) in
        let first = delete_entries floor hard begin in
        let spared =
          delete_entries-IsSpared kind j floor hard begin
            (eligible-Misses (is_hard c) (λ e t. ground arith)) in
        elim (Bool-cases (leb total floor)) [
          | inl low ↦ rw (cleanup_listed, low) (IsSpared-refl j (store_of kind stores))
          | inr high ↦
              rw (cleanup_listed, high)
                (then_floor-IsSpared kind j floor eligible (store_of kind stores) first
                  (eligible-Misses (is_floor_eligible c) (λ e t. ground arith)) spared)
        ]

    -- A clean-up, whether it succeeds or stops at an error, leaves alone all files of a blob or tree
    -- that an active reference names, that was referenced after both cut-off times, or that has no
    -- record. Each record is stored once.
    pub cleanup_snapshot_storage_at-IsSpared :
        IsSpared j
          (store_of kind stores)
          (store_of kind (cleanup_snapshot_storage_at c references stores).1.stores)
    unfolding cleanup_snapshot_storage_at
    cleanup_snapshot_storage_at-IsSpared = elim (Result-cases (check_listing stores)) [
      | inr (x, bad) ↦
          rw (cleanup_snapshot_storage_at, bad) (IsSpared-refl j (store_of kind stores))
      | inl (u, good) ↦ rw (cleanup_snapshot_storage_at, good) cleanup_listed-IsSpared
    ]
