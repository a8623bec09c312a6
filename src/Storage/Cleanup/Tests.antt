-- ===== src/Storage/Cleanup/Tests.antt =====
-- A clean-up of a store with an old, a referenced and a recent blob, and the theorems there.
use remerge.Prelude.{ℕ, none, List, [], ◌∷◌, arith, ◌≡◌, inr, refl, err}
use remerge.Prelude.Text.{Text, text_eq}
use remerge.Prelude.Dict.{get, remove, IsDistinct}
use remerge.Server.State.{SnapshotReferenceSet}
use remerge.Storage.Samples.{digest_of}
use remerge.Storage.Blobs.{BlobMetadata, BlobStore, delete_blob, validate_digest, invalid_digest}
use remerge.Storage.Cleanup.{Stores, CleanupSettings, blob, cleanup_snapshot_storage_at}
use remerge.Storage.Cleanup.Spared.{store_of, IsSpared}
use remerge.Storage.Cleanup.Kept.{IsProtected, cleanup_snapshot_storage_at-IsSpared}

abbrev settings : CleanupSettings
settings = record { grace_cutoff = 5; hard_delete_cutoff = 2; snapshot_min_retained_bytes = 2 }

abbrev used_at : ℕ → ℕ → BlobMetadata
used_at size time = record {
  canonical_digest = digest_of [];
  raw_size_bytes = size;
  last_referenced_at = time;
  encoded_variants = [];
}

abbrev old : Text
old = digest_of (0 ∷ [])

abbrev referenced : Text
referenced = digest_of (0 ∷ 0 ∷ [])

abbrev recent : Text
recent = digest_of (0 ∷ 0 ∷ 0 ∷ [])

abbrev files : BlobStore
files = record {
  blobs = (old, 0 ∷ []) ∷ (referenced, 0 ∷ 0 ∷ []) ∷ (recent, 0 ∷ 0 ∷ 0 ∷ []) ∷ [];
  metadata = (old, used_at 1 1) ∷ (referenced, used_at 2 1) ∷ (recent, used_at 3 9) ∷ [];
  zst = [];
}

abbrev stores : Stores
stores = record { blobs = files; trees = record { blobs = []; metadata = []; zst = [] } }

abbrev references : List SnapshotReferenceSet
references =
    (record {
      blob_digests = referenced ∷ [];
      tree_digests = [];
      total_blob_bytes = 2;
      total_tree_bytes = 0;
      last_referenced_at = 1;
    })
    ∷ []

old_goes :
    get old (cleanup_snapshot_storage_at settings references stores).1.stores.blobs.blobs ≡ none
unfolding cleanup_snapshot_storage_at delete_blob get remove validate_digest
old_goes = refl

-- A file whose name is no digest stops the clean-up before anything goes.
stray :
    (cleanup_snapshot_storage_at settings references (record stores {
      trees = record { blobs = []; metadata = ([], used_at 1 1) ∷ []; zst = [] };
    })).0
    ≡ err (invalid_digest [])
unfolding cleanup_snapshot_storage_at validate_digest
stray = refl

files-IsDistinct : IsDistinct files.metadata
unfolding IsDistinct get
files-IsDistinct = (refl, (refl, (refl, tt)))

trees-IsDistinct : IsDistinct stores.trees.metadata
unfolding IsDistinct
trees-IsDistinct = tt

recent-IsProtected : IsProtected settings references stores blob recent
unfolding get
recent-IsProtected = inr (λ m n. ground arith)

cleanup_snapshot_storage_at-IsSpared_example :
    IsSpared recent files
      (store_of blob (cleanup_snapshot_storage_at settings references stores).1.stores)
cleanup_snapshot_storage_at-IsSpared_example =
    cleanup_snapshot_storage_at-IsSpared settings references stores files-IsDistinct
      trees-IsDistinct blob recent recent-IsProtected
