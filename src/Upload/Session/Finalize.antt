-- ===== src/Upload/Session/Finalize.antt =====
-- crates/server/src/api.rs, `finalize_blob_upload_session`: the end of a staged upload.
use remerge.Prelude.{
  ℕ, Bool, not, Option, none, some, List, Result, ok, err, ◌>>=◌, ◌>>◌, bail_if, if◌then◌else◌,
  ◌==◌, length, nat_eq,
}
use remerge.Prelude.Text.{Text, text_beq, text_eq}
use remerge.Prelude.Dict.{get}
use remerge.Types.Client.{DateTime}
use remerge.Storage.Blobs.{
  BlobStore, BlobError, Codec, store_blob_for_digest, store_encoded_blob_variant,
}
use remerge.Upload.Session.{
  PersistedBlobUploadState, Disk, UploadError, unreadable_part, incomplete, bad_raw_size, bad_zstd,
  unsupported_encoding, not_stored, no_session, encoding_zstd, encoding_beq, part_size,
  remove_blob_upload_state,
}

-- the bytes of the blob by the encoding of the stream
unfoldable pub raw_bytes_of : Codec → Option Text → List ℕ → Result UploadError (List ℕ)
raw_bytes_of codec none stream_bytes = ok stream_bytes
raw_bytes_of codec (some encoding) stream_bytes =
    if text_beq encoding encoding_zstd
    then elim (codec.decode_all stream_bytes) [ ok raw ↦ ok raw | err e ↦ err (bad_zstd e) ]
    else err (unsupported_encoding encoding)

-- the checks of `finalize_blob_upload_session`: the bytes of the stream and of the blob
unfoldable pub collect_upload :
    Codec → Text → PersistedBlobUploadState → Disk → Result UploadError (List ℕ × List ℕ)
unfolding raw_bytes_of
collect_upload codec digest state disk = do
  bail_if (not (part_size digest disk == state.stream_size_bytes))
      (incomplete (part_size digest disk) state.stream_size_bytes)
  stream_bytes ← elim (get digest disk.parts) [ none ↦ err unreadable_part | some b ↦ ok b ]
  raw_bytes ← raw_bytes_of codec state.selected_encoding stream_bytes
  bail_if (not (length raw_bytes == state.raw_size_bytes))
      (bad_raw_size (length raw_bytes) state.raw_size_bytes)
  ok (stream_bytes, raw_bytes)

abbrev pub with_store : Disk → BlobStore → Disk
with_store disk store = record disk { store = store }

-- the compressed copy of an upload that came compressed
abbrev pub store_variant :
    DateTime
    → Text
    → PersistedBlobUploadState
    → List ℕ
    → BlobStore
    → Result BlobError (Unit {0}) × BlobStore
store_variant now digest state stream_bytes store =
    if encoding_beq state.selected_encoding (some encoding_zstd)
    then store_encoded_blob_variant now digest state.raw_size_bytes stream_bytes store
    else (ok tt, store)

-- what follows the storing of the blob
abbrev pub finish_upload :
    Text → Bool → Disk → Result BlobError (Unit {0}) × BlobStore → Result UploadError Bool × Disk
finish_upload digest uploaded disk (err e, store) = (err (not_stored e), with_store disk store)
finish_upload digest uploaded disk (ok _, store) =
    (ok uploaded, remove_blob_upload_state digest (with_store disk store))

abbrev pub store_upload :
    DateTime
    → Text
    → PersistedBlobUploadState
    → List ℕ
    → Disk
    → Result BlobError Bool × BlobStore
    → Result UploadError Bool × Disk
store_upload now digest state stream_bytes disk (err e, store) =
    (err (not_stored e), with_store disk store)
store_upload now digest state stream_bytes disk (ok uploaded, store) =
    finish_upload digest uploaded disk (store_variant now digest state stream_bytes store)

-- `finalize_blob_upload_session`: whether the blob was new
unfoldable pub finalize_blob_upload_session :
    Codec → DateTime → Text → Disk → Result UploadError Bool × Disk
unfolding collect_upload remove_blob_upload_state
finalize_blob_upload_session codec now digest disk = elim (get digest disk.metas) [
  | none ↦ (err no_session, disk)
  | some state ↦ elim (collect_upload codec digest state disk) [
    | err e ↦ (err e, disk)
    | ok (stream_bytes, raw_bytes) ↦
        store_upload now digest state stream_bytes disk
          (store_blob_for_digest codec now digest raw_bytes disk.store)
  ]
]
