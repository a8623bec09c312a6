-- ===== src/Upload/Session.antt =====
-- crates/server/src/api.rs: the staged uploads of blobs. For each digest there is a record of the
-- upload and a file with the bytes received so far, next to the blob store. The system calls
-- succeed, and a record reads back as it was written.
pub mod Finalize
pub mod Offers
pub mod Staged
pub mod Appended
pub mod Finished
mod Tests
use remerge.Prelude.{
  ℕ, ◌+◌, ◌-◌, ◌%◌, Bool, true, false, not, ◌&&◌, ◌||◌, Option, none, some, List, [], ◌∷◌, ◌++◌,
  Result, ok, err, ◌>>=◌, ◌>>◌, bail_if, if◌then◌else◌, ltb, ◌==◌, length, nat_eq, any,
}
use remerge.Prelude.Text.{Text, codes, text_beq, text_eq}
use remerge.Prelude.Dict.{Dict, get, insert, remove}
use remerge.Types.Client.{DateTime}
use remerge.Server.State.{u64_mod}
use remerge.Storage.Blobs.{
  BlobStore, BlobError, Codec, saturating_add, store_blob_for_digest, store_encoded_blob_variant,
}

pub record PersistedBlobUploadState : Type 0 where
  pub digest : Text
  pub raw_size_bytes : ℕ
  pub stream_size_bytes : ℕ
  pub chunk_size_bytes : ℕ
  pub selected_encoding : Option Text
  pub next_sequence : ℕ
  pub next_offset_bytes : ℕ
  pub received_bytes : ℕ

-- What the request declares of an upload
pub record Declared : Type 0 where
  pub digest : Text
  pub raw_size_bytes : ℕ
  pub stream_size_bytes : ℕ
  pub chunk_size_bytes : ℕ
  pub selected_encoding : Option Text

-- The session directory, by digest, and the blob store
pub record Disk : Type 0 where
  pub metas : Dict Text PersistedBlobUploadState
  pub parts : Dict Text (List ℕ)
  pub store : BlobStore

pub data UploadError : Type 0 where
  other_raw_size other_stream_size other_chunk_size : ℕ → ℕ → UploadError
  other_encoding : Option Text → Option Text → UploadError
  exceeds_declared_size : ℕ → ℕ → UploadError
  inconsistent : ℕ → ℕ → ℕ → UploadError
  missing_sequence : ℕ → UploadError
  empty_chunk no_session unreadable_part : UploadError
  incomplete bad_raw_size : ℕ → ℕ → UploadError
  bad_zstd : Text → UploadError
  unsupported_encoding : Text → UploadError
  not_stored : BlobError → UploadError

-- `SNAPSHOT_BLOB_ENCODING_ZSTD`
abbrev pub encoding_zstd : Text
encoding_zstd = codes "zstd"

abbrev pub encoding_beq : Option Text → Option Text → Bool
encoding_beq none none = true
encoding_beq (some a) (some b) = text_beq a b
encoding_beq _ _ = false

abbrev pub part_size : Text → Disk → ℕ
part_size digest disk = elim (get digest disk.parts) [ none ↦ 0 | some bytes ↦ length bytes ]

-- `persist_blob_upload_state`
unfoldable pub persist_blob_upload_state : PersistedBlobUploadState → Disk → Disk
persist_blob_upload_state state disk = record disk { metas = insert state.digest state disk.metas }

-- `remove_blob_upload_state`
unfoldable pub remove_blob_upload_state : Text → Disk → Disk
remove_blob_upload_state digest disk = record disk {
  metas = remove digest disk.metas;
  parts = remove digest disk.parts;
}

-- the record of a new upload
abbrev pub new_upload : Declared → PersistedBlobUploadState
new_upload o = record {
  digest = o.digest;
  raw_size_bytes = o.raw_size_bytes;
  stream_size_bytes = o.stream_size_bytes;
  chunk_size_bytes = o.chunk_size_bytes;
  selected_encoding = o.selected_encoding;
  next_sequence = 0;
  next_offset_bytes = 0;
  received_bytes = 0;
}

-- `load_blob_upload_state` and its default
unfoldable pub load_or_new : Declared → Disk → PersistedBlobUploadState
load_or_new o disk = elim (get o.digest disk.metas) [ none ↦ new_upload o | some state ↦ state ]

-- Does a resumed upload declare the same?
unfoldable pub check_declared : Declared → PersistedBlobUploadState → Result UploadError (Unit {0})
check_declared o state = do
  bail_if (not (state.raw_size_bytes == o.raw_size_bytes))
      (other_raw_size state.raw_size_bytes o.raw_size_bytes)
  bail_if (not (state.stream_size_bytes == o.stream_size_bytes))
      (other_stream_size state.stream_size_bytes o.stream_size_bytes)
  bail_if (not (state.chunk_size_bytes == o.chunk_size_bytes))
      (other_chunk_size state.chunk_size_bytes o.chunk_size_bytes)
  bail_if (not (encoding_beq state.selected_encoding o.selected_encoding))
      (other_encoding state.selected_encoding o.selected_encoding)

-- the comparison of the record with the bytes that are there
unfoldable pub resume_at :
    ℕ → PersistedBlobUploadState → Result UploadError PersistedBlobUploadState
resume_at received state =
    if not (state.received_bytes == received) || not (state.next_offset_bytes == received)
    then if received == 0
      then ok (record state { received_bytes = 0; next_offset_bytes = 0; next_sequence = 0 })
      else err (inconsistent state.received_bytes state.next_offset_bytes received)
    else ok state

unfoldable pub check_sequence :
    ℕ → PersistedBlobUploadState → Result UploadError PersistedBlobUploadState
check_sequence received state =
    if ltb 0 received && (state.next_sequence == 0)
    then err (missing_sequence received)
    else ok (record state { received_bytes = received; next_offset_bytes = received })

-- `prepare_blob_upload_session` after the check of what is declared
unfoldable pub resume :
    Declared → PersistedBlobUploadState → Disk → Result UploadError PersistedBlobUploadState × Disk
unfolding resume_at check_sequence persist_blob_upload_state remove_blob_upload_state
resume o state disk =
    let received = part_size o.digest disk in
    if ltb o.stream_size_bytes received
    then (
      err (exceeds_declared_size received o.stream_size_bytes),
      remove_blob_upload_state o.digest disk,
    )
    else elim (resume_at received state >>= check_sequence received) [
      | err e ↦ (err e, disk)
      | ok resumed ↦ (ok resumed, persist_blob_upload_state resumed disk)
    ]

unfoldable pub prepare_from :
    Declared → PersistedBlobUploadState → Disk → Result UploadError PersistedBlobUploadState × Disk
unfolding check_declared resume
prepare_from o state disk = elim (check_declared o state) [
  | err e ↦ (err e, disk)
  | ok _ ↦ resume o state disk
]

-- `prepare_blob_upload_session`
unfoldable pub prepare_blob_upload_session :
    Declared → Disk → Result UploadError PersistedBlobUploadState × Disk
unfolding load_or_new prepare_from
prepare_blob_upload_session o disk = prepare_from o (load_or_new o disk) disk

abbrev pub append_part : Text → List ℕ → Disk → Disk
append_part digest payload disk = record disk {
  parts =
      insert digest
        (elim (get digest disk.parts) [ none ↦ payload | some bytes ↦ bytes ++ payload ])
        disk.parts;
}

abbrev pub is_empty : List ℕ → Bool
is_empty [] = true
is_empty (b ∷ bs) = false

abbrev pub advanced : ℕ → PersistedBlobUploadState → PersistedBlobUploadState
advanced received state = record state {
  received_bytes = received;
  next_offset_bytes = received;
  next_sequence = saturating_add state.next_sequence 1;
}

unfoldable pub append_prepared :
    Declared
    → List ℕ
    → Result UploadError PersistedBlobUploadState × Disk
    → Result UploadError PersistedBlobUploadState × Disk
unfolding persist_blob_upload_state
append_prepared o payload (err e, disk) = (err e, disk)
append_prepared o payload (ok state, disk) =
    let next_received = (state.received_bytes + length payload) % u64_mod in
    if ltb o.stream_size_bytes next_received
    then (err (exceeds_declared_size next_received o.stream_size_bytes), disk)
    else if is_empty payload && ltb next_received o.stream_size_bytes
    then (err empty_chunk, disk)
    else (
      ok (advanced next_received state),
      persist_blob_upload_state (advanced next_received state) (append_part o.digest payload disk),
    )

-- `append_blob_upload_chunk`
unfoldable pub append_blob_upload_chunk :
    Declared → List ℕ → Disk → Result UploadError PersistedBlobUploadState × Disk
unfolding prepare_blob_upload_session append_prepared
append_blob_upload_chunk o payload disk =
    append_prepared o payload (prepare_blob_upload_session o disk)
