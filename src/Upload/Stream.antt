-- ===== src/Upload/Stream.antt =====
-- crates/server/src/api.rs, `handle_blob_upload_ws`: the conversation over one web socket that
-- uploads a blob, from the first message on. Two sends end the conversation when they fail: that of
-- `UploadResume`, which `Connection` says, and that of an acknowledgement, which stands with the
-- chunk that it answers. The other messages are the last ones of their conversations. Counting
-- uploads in the metrics is left out.
pub mod Resumed
pub mod Stored
pub mod Accepted
mod Tests
use remerge.Prelude.{
  ℕ, ◌+◌, Bool, true, false, not, ◌&&◌, Option, none, some, List, [], ◌∷◌, Result, ok, err, ◌>>◌,
  bail_if, if◌then◌else◌, ltb, ◌==◌,
}
use remerge.Prelude.Text.{Text}
use remerge.Types.Client.{DateTime}
use remerge.Storage.Blobs.{saturating_add, BlobStore, BlobError, Codec, has_blob}
use remerge.Upload.Frame.{
  SnapshotBlobChunkHeader, SnapshotBlobChunkFrameError, Checksum, decode, protocol_version,
}
use remerge.Upload.Session.{
  PersistedBlobUploadState, Declared, Disk, UploadError, prepare_blob_upload_session,
  append_blob_upload_chunk, remove_blob_upload_state,
}
use remerge.Upload.Session.Finalize.{finalize_blob_upload_session}
use remerge.Upload.Session.Offers.{SnapshotBlobEncodingOffer, select_upload_encoding}

pub record BlobUploadSession : Type 0 where
  pub upload : Declared
  pub next_sequence : ℕ
  pub received_bytes : ℕ

-- the codes of the refusals, with what their messages name
pub data StreamError : Type 0 where
  unsupported_version unsupported_chunk_size : ℕ → StreamError
  unsupported_encoding resume_prepare_failed persist_failed store_failed : UploadError → StreamError
  invalid_digest : BlobError → StreamError
  invalid_chunk_frame : SnapshotBlobChunkFrameError → StreamError
  unexpected_sequence unexpected_offset chunk_too_large blob_too_large : ℕ → ℕ → StreamError
  unexpected_control_frame : StreamError

-- `SnapshotBlobServerControlMessage`, without the version, workorder and digest that all repeat
pub data ServerMessage : Type 0 where
  upload_resume : ℕ → ℕ → Option Text → ℕ → ServerMessage
  upload_ack : ℕ → ℕ → ℕ → ℕ → ServerMessage
  upload_complete : Text → Bool → ServerMessage
  upload_error : StreamError → ServerMessage

-- What the client sends after the first message; a chunk with whether its acknowledgement arrives
pub data ClientMessage : Type 0 where
  binary : List ℕ → Bool → ClientMessage
  control close ping read_error : ClientMessage

-- A connection after its first message: whether `UploadResume` can be sent, and what comes in
pub record Connection : Type 0 where
  pub resume_sent : Bool
  pub messages : List ClientMessage

-- `UploadInit` of `SnapshotBlobClientControlMessage`
pub record UploadInit : Type 0 where
  pub version : ℕ
  pub digest : Text
  pub total_size_bytes : ℕ
  pub chunk_size_bytes : ℕ
  pub capability_flags : List Text
  pub offered_encodings : List SnapshotBlobEncodingOffer

abbrev pub default_chunk_size_bytes : ℕ
default_chunk_size_bytes = 10485760

-- the checks of a chunk's header
unfoldable pub check_header :
    BlobUploadSession → SnapshotBlobChunkHeader → Result StreamError (Unit {0})
check_header session header = do
  bail_if (not (header.sequence == session.next_sequence))
      (unexpected_sequence session.next_sequence header.sequence)
  bail_if (not (header.offset_bytes == session.received_bytes))
      (unexpected_offset session.received_bytes header.offset_bytes)
  bail_if (ltb session.upload.chunk_size_bytes header.payload_size_bytes)
      (chunk_too_large header.payload_size_bytes session.upload.chunk_size_bytes)
  bail_if
      (ltb session.upload.stream_size_bytes
        (saturating_add session.received_bytes header.payload_size_bytes))
      (blob_too_large (saturating_add session.received_bytes header.payload_size_bytes)
        session.upload.stream_size_bytes)

abbrev pub completed : Text → Result UploadError Bool × Disk → List ServerMessage × Disk
completed digest (err e, disk) = (upload_error (store_failed e) ∷ [], disk)
completed digest (ok uploaded, disk) = (upload_complete digest uploaded ∷ [], disk)

-- the storing of an upload of which all has come
unfoldable pub complete : Codec → DateTime → Text → Disk → List ServerMessage × Disk
complete codec now digest disk =
    completed digest (finalize_blob_upload_session codec now digest disk)

-- After a message the conversation goes on or it ends.
pub data Turn : Type 0 where
  go_on : BlobUploadSession → ServerMessage → Disk → Turn
  stop : List ServerMessage × Disk → Turn

abbrev pub preceded_by : ServerMessage → List ServerMessage × Disk → List ServerMessage × Disk
preceded_by message (messages, disk) = (message ∷ messages, disk)

abbrev pub after_turn :
    Turn → (BlobUploadSession → Disk → List ServerMessage × Disk) → List ServerMessage × Disk
after_turn (stop end) next = end
after_turn (go_on session ack disk) next = preceded_by ack (next session disk)

unfoldable pub acknowledge :
    Codec
    → DateTime
    → BlobUploadSession
    → SnapshotBlobChunkHeader
    → Bool
    → Result UploadError PersistedBlobUploadState × Disk
    → Turn
unfolding complete
acknowledge codec now session header acked (err e, disk) =
    stop (upload_error (persist_failed e) ∷ [], disk)
acknowledge codec now session header false (ok persisted, disk) = stop ([], disk)
acknowledge codec now session header true (ok persisted, disk) =
    let ack =
      upload_ack header.sequence header.offset_bytes header.payload_size_bytes
        persisted.received_bytes in
    if persisted.received_bytes == session.upload.stream_size_bytes
    then stop (preceded_by ack (complete codec now session.upload.digest disk))
    else go_on
        (record session {
          next_sequence = persisted.next_sequence;
          received_bytes = persisted.received_bytes;
        })
        ack disk

-- one chunk
unfoldable pub handle_frame :
    Codec → Checksum → DateTime → BlobUploadSession → List ℕ → Bool → Disk → Turn
unfolding check_header acknowledge
handle_frame codec adler now session frame acked disk = elim (decode adler frame) [
  | err e ↦ stop (upload_error (invalid_chunk_frame e) ∷ [], disk)
  | ok (header, payload) ↦ elim (check_header session header) [
    | err e ↦ stop (upload_error e ∷ [], disk)
    | ok _ ↦
        acknowledge codec now session header acked
          (append_blob_upload_chunk session.upload payload disk)
  ]
]

-- the loop over the messages, up to the end of the connection
unfoldable pub receive :
    Codec
    → Checksum
    → DateTime
    → List ClientMessage
    → BlobUploadSession
    → Disk
    → List ServerMessage × Disk
unfolding handle_frame
receive codec adler now [] session disk = ([], disk)
receive codec adler now (control ∷ messages) session disk =
    (upload_error unexpected_control_frame ∷ [], disk)
receive codec adler now (close ∷ messages) session disk = ([], disk)
receive codec adler now (read_error ∷ messages) session disk = ([], disk)
receive codec adler now (ping ∷ messages) session disk =
    receive codec adler now messages session disk
receive codec adler now (binary frame acked ∷ messages) session disk =
    after_turn (handle_frame codec adler now session frame acked disk)
      (receive codec adler now messages)

abbrev pub session_of : Declared → PersistedBlobUploadState → BlobUploadSession
session_of o resumed = record {
  upload = o;
  next_sequence = resumed.next_sequence;
  received_bytes = resumed.next_offset_bytes;
}

abbrev pub resume_message : PersistedBlobUploadState → ServerMessage
resume_message resumed =
    upload_resume resumed.next_offset_bytes resumed.next_sequence resumed.selected_encoding
      resumed.stream_size_bytes

-- an upload whose session could be prepared, or not
unfoldable pub start :
    Codec
    → Checksum
    → DateTime
    → Connection
    → Declared
    → Result UploadError PersistedBlobUploadState × Disk
    → List ServerMessage × Disk
unfolding complete receive
start codec adler now connection o (err e, disk) =
    (upload_error (resume_prepare_failed e) ∷ [], disk)
start codec adler now connection o (ok resumed, disk) =
    if resumed.received_bytes == o.stream_size_bytes
    then complete codec now o.digest disk
    else if not connection.resume_sent
    then ([], disk)
    else preceded_by (resume_message resumed) (
        if o.stream_size_bytes == 0
        then complete codec now o.digest disk
        else receive codec adler now connection.messages (session_of o resumed) disk)

abbrev pub declared_of : UploadInit → Option Text × ℕ → Declared
declared_of init (selected_encoding, stream_size_bytes) = record {
  digest = init.digest;
  raw_size_bytes = init.total_size_bytes;
  stream_size_bytes = stream_size_bytes;
  chunk_size_bytes = init.chunk_size_bytes;
  selected_encoding = selected_encoding;
}

-- an upload whose first message has been accepted, by whether the blob is there
unfoldable pub start_unless_present :
    Codec
    → Checksum
    → DateTime
    → Connection
    → Declared
    → Disk
    → Result BlobError Bool
    → List ServerMessage × Disk
unfolding start
start_unless_present codec adler now connection o disk (err e) =
    (upload_error (invalid_digest e) ∷ [], disk)
start_unless_present codec adler now connection o disk (ok true) =
    (upload_complete o.digest false ∷ [], remove_blob_upload_state o.digest disk)
start_unless_present codec adler now connection o disk (ok false) =
    start codec adler now connection o (prepare_blob_upload_session o disk)

abbrev pub after_selection :
    Codec
    → Checksum
    → DateTime
    → UploadInit
    → Connection
    → Disk
    → Result UploadError (Option Text × ℕ)
    → List ServerMessage × Disk
after_selection codec adler now init connection disk (err e) =
    (upload_error (unsupported_encoding e) ∷ [], disk)
after_selection codec adler now init connection disk (ok selected) =
    start_unless_present codec adler now connection (declared_of init selected) disk
      (has_blob init.digest disk.store).0

-- `handle_blob_upload_ws` after `upload_init`
unfoldable pub handle_blob_upload_ws :
    Codec → Checksum → DateTime → UploadInit → Connection → Disk → List ServerMessage × Disk
unfolding start_unless_present
handle_blob_upload_ws codec adler now init connection disk =
    if not (init.version == protocol_version)
    then (upload_error (unsupported_version init.version) ∷ [], disk)
    else if not (init.chunk_size_bytes == default_chunk_size_bytes)
    then (upload_error (unsupported_chunk_size init.chunk_size_bytes) ∷ [], disk)
    else after_selection codec adler now init connection disk
        (select_upload_encoding init.total_size_bytes init.capability_flags init.offered_encodings)
