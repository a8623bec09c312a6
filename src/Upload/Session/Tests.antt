-- ===== src/Upload/Session/Tests.antt =====
-- A chunk that comes to a new upload, and the theorem there.
use remerge.Prelude.{ℕ, none, List, [], ◌∷◌, arith, refl}
use remerge.Prelude.Text.{text_eq}
use remerge.Prelude.Dict.{get}
use remerge.Storage.Samples.{digest_of, no_blobs}
use remerge.Upload.Session.{Declared, Disk, append_blob_upload_chunk}
use remerge.Upload.Session.Staged.{staged_state, IsStaged}
use remerge.Upload.Session.Appended.{IsAppended, append_blob_upload_chunk-IsAppended}

abbrev upload : Declared
upload = record {
  digest = digest_of (7 ∷ 8 ∷ 9 ∷ []);
  raw_size_bytes = 3;
  stream_size_bytes = 3;
  chunk_size_bytes = 10485760;
  selected_encoding = none;
}

abbrev one_chunk : List (List ℕ)
one_chunk = (7 ∷ 8 ∷ []) ∷ []

abbrev half_done : Disk
half_done = record {
  metas = (upload.digest, staged_state upload one_chunk) ∷ [];
  parts = (upload.digest, 7 ∷ 8 ∷ []) ∷ [];
  store = no_blobs;
}

half_done-IsStaged : IsStaged upload one_chunk half_done
unfolding get
half_done-IsStaged = record { recorded = refl; bytes = refl }

append_blob_upload_chunk-IsAppended_example :
    IsAppended upload one_chunk
      (9 ∷ [])
      half_done
      (append_blob_upload_chunk upload (9 ∷ []) half_done)
append_blob_upload_chunk-IsAppended_example =
    append_blob_upload_chunk-IsAppended upload one_chunk (9 ∷ []) half_done half_done-IsStaged
      (omega arith) (omega arith)
