-- ===== src/Upload/Stream/Tests.antt =====
-- Conversations that upload three bytes and none, and the theorems there.
use remerge.Prelude.{ℕ, true, false, none, List, [], ◌∷◌, arith, ◌≡◌, inr, refl, length}
use remerge.Prelude.Text.{codes, text_eq}
use remerge.Prelude.Dict.{get, insert, remove}
use remerge.Storage.Samples.{digest_of, toy_codec, no_blobs}
use remerge.Storage.Blobs.{store_blob_for_digest, record_blob, has_blob}
use remerge.Upload.Frame.{Checksum, from_payload, frame_of, decode}
use remerge.Upload.Session.{
  Declared, Disk, unreadable_part, prepare_blob_upload_session, append_blob_upload_chunk,
}
use remerge.Upload.Session.Finalize.{finalize_blob_upload_session}
use remerge.Upload.Session.Offers.{select_upload_encoding}
use remerge.Upload.Stream.{
  UploadInit, ClientMessage, Connection, upload_resume, upload_ack, upload_complete, upload_error,
  store_failed, handle_blob_upload_ws, default_chunk_size_bytes, control,
}
use remerge.Upload.Stream.Resumed.{frames}
use remerge.Upload.Stream.Accepted.{
  IsAccepted, handle_blob_upload_ws-stores, handle_blob_upload_ws-refuses_empty,
}

abbrev no_sum : Checksum
no_sum bytes = 0

abbrev upload_of : List ℕ → Declared
upload_of bytes = record {
  digest = digest_of bytes;
  raw_size_bytes = length bytes;
  stream_size_bytes = length bytes;
  chunk_size_bytes = default_chunk_size_bytes;
  selected_encoding = none;
}

abbrev three : Declared
three = upload_of (7 ∷ 8 ∷ 9 ∷ [])

abbrev empty_disk : Disk
empty_disk = record { metas = []; parts = []; store = no_blobs }

abbrev chunks : List (List ℕ)
chunks = (7 ∷ 8 ∷ []) ∷ (9 ∷ []) ∷ []

abbrev greeted : List ClientMessage → Connection
greeted messages = record { resume_sent = true; messages = messages }

abbrev init : UploadInit
init = record {
  version = 1;
  digest = three.digest;
  total_size_bytes = 3;
  chunk_size_bytes = default_chunk_size_bytes;
  capability_flags = codes "zstd" ∷ [];
  offered_encodings = [];
}

conversation :
    (handle_blob_upload_ws toy_codec no_sum 5 init
      (greeted (frames no_sum 0 0 chunks))
      empty_disk).0
    ≡ upload_resume 0 0 none 3
      ∷ upload_ack 0 0 2 2
      ∷ upload_ack 1 2 1 3
      ∷ upload_complete three.digest true
      ∷ []
unfolding handle_blob_upload_ws has_blob select_upload_encoding prepare_blob_upload_session
    append_blob_upload_chunk finalize_blob_upload_session store_blob_for_digest record_blob decode
    frame_of from_payload get insert remove
conversation = refl

-- The client has gone before it could be told where to resume.
gone :
    (handle_blob_upload_ws toy_codec no_sum 5 init
      (record { resume_sent = false; messages = frames no_sum 0 0 chunks })
      empty_disk).1.store
    ≡ no_blobs
unfolding handle_blob_upload_ws has_blob select_upload_encoding prepare_blob_upload_session get
    insert
gone = refl

init-IsAccepted : IsAccepted init (none, 3) empty_disk
unfolding select_upload_encoding has_blob get
init-IsAccepted = record { version = refl; chunk_size = refl; encoding = refl; missing = refl }

handle_blob_upload_ws-stores_example :
    (handle_blob_upload_ws toy_codec no_sum 5 init
      (greeted (frames no_sum 0 0 chunks))
      empty_disk).1.store
    ≡ (store_blob_for_digest toy_codec 5 init.digest (7 ∷ 8 ∷ 9 ∷ []) no_blobs).1
unfolding get
handle_blob_upload_ws-stores_example =
    handle_blob_upload_ws-stores toy_codec no_sum 5 init [] (7 ∷ 8 ∷ []) ((9 ∷ []) ∷ []) empty_disk
      (λ bytes. omega arith) (omega arith) init-IsAccepted (inr (refl, refl, refl)) (omega arith)
      (omega arith) refl

abbrev empty_init : UploadInit
empty_init = record init { digest = digest_of []; total_size_bytes = 0 }

empty_init-IsAccepted : IsAccepted empty_init (none, 0) empty_disk
unfolding select_upload_encoding has_blob get
empty_init-IsAccepted = record {
  version = refl;
  chunk_size = refl;
  encoding = refl;
  missing = refl;
}

handle_blob_upload_ws-refuses_empty_example :
    ((handle_blob_upload_ws toy_codec no_sum 5 empty_init (greeted (control ∷ [])) empty_disk).0
      ≡ upload_error (store_failed unreadable_part) ∷ [])
    × ((handle_blob_upload_ws toy_codec no_sum 5 empty_init
          (greeted (control ∷ []))
          empty_disk).1.store
        ≡ no_blobs)
unfolding get
handle_blob_upload_ws-refuses_empty_example =
    handle_blob_upload_ws-refuses_empty toy_codec no_sum 5 empty_init (greeted (control ∷ [])) none
      empty_disk empty_init-IsAccepted refl refl
