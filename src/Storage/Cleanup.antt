-- ===== src/Storage/Cleanup.antt =====
-- crates/server/src/runtime.rs, `cleanup_snapshot_storage_at`: deleting the blobs and trees that were
-- not used for long, down to the size that may stay. The tree store has the files of the blob store
-- under other names, and `delete_tree` makes the steps of `delete_blob`. The two cut-off times come
-- from outside.
pub mod Spared
pub mod Kept
pub mod Listed
pub mod Reached
mod Tests
use remerge.Prelude.{
  ℕ, ◌+◌, ◌-◌, ◌%◌, Bool, true, false, not, ◌&&◌, ◌||◌, Option, none, some, List, [], ◌∷◌, ◌++◌,
  Result, ok, err, ◌>>◌, if◌then◌else◌, leb, any, keep_if,
}
use remerge.Prelude.Text.{Text, text_beq, text_eq}
use remerge.Prelude.Dict.{Dict}
use remerge.Types.Client.{DateTime}
use remerge.Server.State.{SnapshotReferenceSet, u64_mod}
use remerge.Storage.Blobs.{
  BlobEncoding, BlobMetadata, BlobStore, BlobError, saturating_add, validate_digest, delete_blob,
}

pub record Stores : Type 0 where
  pub blobs : BlobStore
  pub trees : BlobStore

pub record CleanupSettings : Type 0 where
  pub grace_cutoff : DateTime
  pub hard_delete_cutoff : DateTime
  pub snapshot_min_retained_bytes : ℕ

pub data EntryKind : Type 0 where
  blob tree : EntryKind

pub record CleanupEntry : Type 0 where
  pub kind : EntryKind
  pub digest : Text
  pub last_referenced_at : DateTime
  pub retained_bytes : ℕ

pub record SnapshotCleanupSummary : Type 0 where
  pub deleted_blobs : ℕ
  pub deleted_trees : ℕ
  pub reclaimed_bytes : ℕ

-- What the loops over the entries change
pub record Sweep : Type 0 where
  pub stores : Stores
  pub summary : SnapshotCleanupSummary
  pub total_retained_bytes : ℕ

abbrev sum_values : Dict BlobEncoding ℕ → ℕ
sum_values [] = 0
sum_values ((e, n) ∷ ns) = n + sum_values ns

unfoldable pub retained_bytes_of : BlobMetadata → ℕ
retained_bytes_of m = (m.raw_size_bytes + sum_values m.encoded_variants) % u64_mod

unfoldable pub total_retained : Dict Text BlobMetadata → ℕ → ℕ
unfolding retained_bytes_of
total_retained [] total = total
total_retained ((digest, m) ∷ ms) total =
    total_retained ms (saturating_add total (retained_bytes_of m))

abbrev pub is_active : Text → List Text → Bool
is_active digest active = any (λ d. text_beq d digest) active

-- the entries that no active reference names
unfoldable pub unreferenced : EntryKind → List Text → Dict Text BlobMetadata → List CleanupEntry
unfolding retained_bytes_of
unreferenced kind active [] = []
unreferenced kind active ((digest, m) ∷ ms) =
    let rest = unreferenced kind active ms in
    if is_active digest active
    then rest
    else (record {
      kind = kind;
      digest = digest;
      last_referenced_at = m.last_referenced_at;
      retained_bytes = retained_bytes_of m;
    })
      ∷ rest

abbrev pub is_hard : CleanupSettings → CleanupEntry → Bool
is_hard c e = leb e.last_referenced_at c.hard_delete_cutoff

abbrev pub is_floor_eligible : CleanupSettings → CleanupEntry → Bool
is_floor_eligible c e = not (is_hard c e) && leb e.last_referenced_at c.grace_cutoff

-- `sort_by_key` by the time of the last reference
unfoldable pub insert_oldest : CleanupEntry → List CleanupEntry → List CleanupEntry
insert_oldest e [] = e ∷ []
insert_oldest e (f ∷ fs) =
    let rest = insert_oldest e fs in
    if leb e.last_referenced_at f.last_referenced_at then e ∷ f ∷ fs else f ∷ rest

unfoldable pub sort_oldest : List CleanupEntry → List CleanupEntry
unfolding insert_oldest
sort_oldest [] = []
sort_oldest (e ∷ es) = insert_oldest e (sort_oldest es)

unfoldable pub delete_from : EntryKind → Text → Stores → Result BlobError (Unit {0}) × Stores
delete_from blob digest stores =
    let (result, store) = delete_blob digest stores.blobs in
    (result, record stores { blobs = store })
delete_from tree digest stores =
    let (result, store) = delete_blob digest stores.trees in
    (result, record stores { trees = store })

abbrev counted : EntryKind → ℕ → SnapshotCleanupSummary → SnapshotCleanupSummary
counted blob bytes s = record s {
  deleted_blobs = s.deleted_blobs + 1;
  reclaimed_bytes = saturating_add s.reclaimed_bytes bytes;
}
counted tree bytes s = record s {
  deleted_trees = s.deleted_trees + 1;
  reclaimed_bytes = saturating_add s.reclaimed_bytes bytes;
}

-- `delete_cleanup_entry`, and the size that is left
unfoldable pub delete_cleanup_entry : CleanupEntry → Sweep → Result BlobError (Unit {0}) × Sweep
unfolding delete_from
delete_cleanup_entry e s = elim (delete_from e.kind e.digest s.stores).0 [
  | err x ↦ (err x, record s { stores = (delete_from e.kind e.digest s.stores).1 })
  | ok _ ↦ (
    ok tt,
    record {
      stores = (delete_from e.kind e.digest s.stores).1;
      summary = counted e.kind e.retained_bytes s.summary;
      total_retained_bytes = s.total_retained_bytes - e.retained_bytes;
    },
  )
]

-- either loop over entries
unfoldable pub delete_entries : ℕ → List CleanupEntry → Sweep → Result BlobError (Unit {0}) × Sweep
unfolding delete_cleanup_entry
delete_entries floor [] s = (ok tt, s)
delete_entries floor (e ∷ es) s =
    let rest = delete_entries floor es (delete_cleanup_entry e s).1 in
    if leb s.total_retained_bytes floor then (ok tt, s) else elim (delete_cleanup_entry e s).0 [
      | err x ↦ (err x, (delete_cleanup_entry e s).1)
      | ok _ ↦ rest
    ]

abbrev pub no_summary : SnapshotCleanupSummary
no_summary = record { deleted_blobs = 0; deleted_trees = 0; reclaimed_bytes = 0 }

abbrev pub blob_digests_of : List SnapshotReferenceSet → List Text
blob_digests_of [] = []
blob_digests_of (r ∷ rs) = r.blob_digests ++ blob_digests_of rs

abbrev pub tree_digests_of : List SnapshotReferenceSet → List Text
tree_digests_of [] = []
tree_digests_of (r ∷ rs) = r.tree_digests ++ tree_digests_of rs

-- the entries that a cleanup looks at
unfoldable pub candidates : List SnapshotReferenceSet → Stores → List CleanupEntry
unfolding unreferenced
candidates references stores =
    unreferenced blob (blob_digests_of references) stores.blobs.metadata
    ++ unreferenced tree (tree_digests_of references) stores.trees.metadata

abbrev pub then_floor :
    ℕ
    → List CleanupEntry
    → Result BlobError (Unit {0}) × Sweep
    → Result BlobError (Unit {0}) × Sweep
then_floor floor es (err x, s) = (err x, s)
then_floor floor es (ok _, s) = delete_entries floor es s

-- `list_blob_metadata` and `list_tree_metadata` load every record, which fails on a name that is no
-- digest.
unfoldable pub check_digests : Dict Text BlobMetadata → Result BlobError (Unit {0})
check_digests [] = ok tt
check_digests ((digest, m) ∷ ms) = do validate_digest digest; check_digests ms

unfoldable pub check_listing : Stores → Result BlobError (Unit {0})
unfolding check_digests
check_listing stores = do check_digests stores.blobs.metadata; check_digests stores.trees.metadata

-- the clean-up of the records that were listed
unfoldable pub cleanup_listed :
    CleanupSettings → List SnapshotReferenceSet → Stores → Result BlobError (Unit {0}) × Sweep
unfolding total_retained candidates sort_oldest delete_entries
cleanup_listed c references stores =
    let total = total_retained stores.trees.metadata (total_retained stores.blobs.metadata 0) in
    let begin : Sweep = record {
      stores = stores;
      summary = no_summary;
      total_retained_bytes = total;
    } in
    let entries = candidates references stores in
    if leb total c.snapshot_min_retained_bytes
    then (ok tt, begin)
    else then_floor c.snapshot_min_retained_bytes
        (sort_oldest (keep_if (is_floor_eligible c) entries))
        (delete_entries c.snapshot_min_retained_bytes (sort_oldest (keep_if (is_hard c) entries))
          begin)

abbrev pub untouched : Stores → Sweep
untouched stores = record { stores = stores; summary = no_summary; total_retained_bytes = 0 }

-- `cleanup_snapshot_storage_at`: how it ended, with the summary and the stores after it
unfoldable pub cleanup_snapshot_storage_at :
    CleanupSettings → List SnapshotReferenceSet → Stores → Result BlobError (Unit {0}) × Sweep
unfolding check_listing cleanup_listed
cleanup_snapshot_storage_at c references stores = elim (check_listing stores) [
  | err e ↦ (err e, untouched stores)
  | ok _ ↦ cleanup_listed c references stores
]
