-- ===== src/Upload/Stream/Accepted.antt =====
-- Uploads from the first message on: what they leave in the blob store.
use remerge.Prelude.{
  ℕ, ◌+◌, ◌^◌, ◌<◌, true, false, Option, none, List, [], ◌∷◌, ◌++◌, ok, ◌≡◌, refl, ap, ◌∙◌, ◌==◌,
  ==_iff, length, All,
}
use remerge.Prelude.Text.{Text, text_eq}
use remerge.Prelude.Dict.{get}
use remerge.Types.Client.{DateTime}
use remerge.Server.State.{u64_mod}
use remerge.Storage.Blobs.{Codec, has_blob, store_blob_for_digest}
use remerge.Upload.Frame.{Checksum, protocol_version}
use remerge.Upload.Session.{Disk, unreadable_part, prepare_blob_upload_session}
use remerge.Upload.Session.Offers.{select_upload_encoding}
use remerge.Upload.Session.Staged.{concat, total}
use remerge.Upload.Stream.{
  Connection, ServerMessage, upload_error, store_failed, UploadInit, default_chunk_size_bytes,
  start, declared_of, start_unless_present, handle_blob_upload_ws,
}
use remerge.Upload.Stream.Resumed.{frames, IsChunk}
use remerge.Upload.Stream.Stored.{IsStarted, start-stores, start-refuses_empty}

-- What the first message has to pass before the upload starts.
pub record IsAccepted (init : UploadInit) (selected : Option Text × ℕ) (disk : Disk) : Type 0 where
  pub version : init.version ≡ protocol_version
  pub chunk_size : init.chunk_size_bytes ≡ default_chunk_size_bytes
  pub encoding :
      select_upload_encoding init.total_size_bytes init.capability_flags init.offered_encodings
      ≡ ok selected
  pub missing : (has_blob init.digest disk.store).0 ≡ ok false

handle-accepted :
    (codec : Codec) (adler : Checksum) (now : DateTime) (init : UploadInit)
    (connection : Connection) (selected : Option Text × ℕ) (disk : Disk)
    → IsAccepted init selected disk
    → handle_blob_upload_ws codec adler now init connection disk
      ≡ start codec adler now connection
          (declared_of init selected)
          (prepare_blob_upload_session (declared_of init selected) disk)
unfolding handle_blob_upload_ws start_unless_present
handle-accepted codec adler now init connection selected disk a =
    let known : (init.version == protocol_version) ≡ true = (==_iff _ _).1 a.version in
    let usual : (init.chunk_size_bytes == default_chunk_size_bytes) ≡ true =
      (==_iff _ _).1 a.chunk_size in
    rw (handle_blob_upload_ws, known, usual, a.encoding, a.missing) refl

-- An upload of the raw bytes of a blob that is not there, new or broken off after any chunks, to
-- which a connection sends the rest in chunks that are not empty and not too large, leaves the blob
-- store as storing the concatenation of all chunks at once does. The first message is accepted, the
-- declared size is the true one, the numbers fit their types, and `UploadResume` and the
-- acknowledgements can be sent.
pub handle_blob_upload_ws-stores :
    (codec : Codec) (adler : Checksum) (now : DateTime) (init : UploadInit) (sent : List (List ℕ))
    (p : List ℕ) (ps : List (List ℕ)) (disk : Disk)
    → ((bytes : List ℕ) → adler bytes < 2 ^ 32)
    → init.total_size_bytes < u64_mod
    → IsAccepted init (none, init.total_size_bytes) disk
    → IsStarted (declared_of init (none, init.total_size_bytes)) sent disk
    → length sent + length (p ∷ ps) < u64_mod
    → All (IsChunk (declared_of init (none, init.total_size_bytes))) (p ∷ ps)
    → total sent + total (p ∷ ps) ≡ init.total_size_bytes
    → (handle_blob_upload_ws codec adler now init
        (record { resume_sent = true; messages = frames adler (length sent) (total sent) (p ∷ ps) })
        disk).1.store
      ≡ (store_blob_for_digest codec now init.digest (concat (sent ++ (p ∷ ps))) disk.store).1
handle_blob_upload_ws-stores codec adler now init sent p ps disk short words accepted started
      counted good all =
    let o = declared_of init (none, init.total_size_bytes) in
    ap (λ (r : List ServerMessage × Disk). r.1.store)
      (handle-accepted codec adler now init _ (none, init.total_size_bytes) disk accepted)
    ∙ start-stores codec adler now o refl refl short words sent p ps disk started counted good all

-- An upload whose first message is accepted and of which the selected stream has length 0, as that of
-- an empty blob sent raw, fails when the blob is not there and neither a record nor a file of an
-- earlier session is: the session has no file, so that the conversation ends with an error, whatever
-- the client sends, and nothing is stored.
pub handle_blob_upload_ws-refuses_empty :
    (codec : Codec) (adler : Checksum) (now : DateTime) (init : UploadInit)
    (connection : Connection) (encoding : Option Text) (disk : Disk)
    → IsAccepted init (encoding, 0) disk
    → get init.digest disk.metas ≡ none
    → get init.digest disk.parts ≡ none
    → ((handle_blob_upload_ws codec adler now init connection disk).0
        ≡ upload_error (store_failed unreadable_part) ∷ [])
      × ((handle_blob_upload_ws codec adler now init connection disk).1.store ≡ disk.store)
handle_blob_upload_ws-refuses_empty codec adler now init connection encoding disk accepted unknown
      empty =
    let o = declared_of init (encoding, 0) in
    let (answer, kept) = start-refuses_empty codec adler now o connection disk unknown empty refl in
    let run = handle-accepted codec adler now init connection (encoding, 0) disk accepted in
    (
      ap (λ (r : List ServerMessage × Disk). r.0) run ∙ answer,
      ap (λ (r : List ServerMessage × Disk). r.1.store) run ∙ kept,
    )
