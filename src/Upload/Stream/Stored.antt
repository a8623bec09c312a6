-- ===== src/Upload/Stream/Stored.antt =====
-- What an upload, once started, leaves in the blob store.
use remerge.Prelude.{
  ℕ, ◌+◌, ◌^◌, ◌≤◌, ◌<◌, Bool, true, false, none, List, [], ◌∷◌, ◌++◌, Result, ok, err, arith, ◌≡◌,
  ◌⊎◌, inl, inr, refl, sym, ap, ◌∙◌, ◌==◌, length, length-append, All,
}
use mathlib.Core.List.{append_assoc}
use remerge.Prelude.Text.{Text, text_eq}
use remerge.Prelude.Dict.{get}
use remerge.Types.Client.{DateTime}
use remerge.Server.State.{u64_mod}
use remerge.Storage.Blobs.{BlobStore, BlobError, Codec, store_blob_for_digest}
use remerge.Upload.Frame.{Checksum}
use remerge.Upload.Session.{
  PersistedBlobUploadState, Declared, Disk, UploadError, unreadable_part,
  prepare_blob_upload_session, persist_blob_upload_state, remove_blob_upload_state,
}
use remerge.Upload.Session.Finalize.{store_upload, finalize_blob_upload_session, raw_bytes_of}
use remerge.Upload.Session.Staged.{
  concat, total, staged_state, IsStaged, IsStaged-persist, prepare-staged, prepare-new,
}
use remerge.Upload.Session.Finished.{finalize-staged, finalize-empty}
use remerge.Upload.Stream.{Connection, upload_error, store_failed, complete, completed, start}
use remerge.Upload.Stream.Resumed.{frames, IsChunk, receive-frames, ne_beq}

-- An upload of which these chunks have come over earlier connections, or a new one
abbrev pub IsStarted : Declared → List (List ℕ) → Disk → Type 0
IsStarted o chunks disk =
    IsStaged o chunks disk
    ⊎ ((chunks ≡ []) × (get o.digest disk.metas ≡ none) × (get o.digest disk.parts ≡ none))

prepare-started :
    (o : Declared) (chunks : List (List ℕ)) (disk : Disk)
    → IsStarted o chunks disk
    → total chunks ≤ o.stream_size_bytes
    → (prepare_blob_upload_session o disk
        ≡ (ok (staged_state o chunks), persist_blob_upload_state (staged_state o chunks) disk))
      × IsStaged o chunks (persist_blob_upload_state (staged_state o chunks) disk)
prepare-started o chunks disk (inl staged) room =
    (prepare-staged o chunks disk staged room, IsStaged-persist o chunks disk staged.bytes)
prepare-started o chunks disk (inr (new, unknown, empty)) room =
    rw new (prepare-new o disk unknown empty, IsStaged-persist o [] disk empty)

store_upload-store :
    (now : DateTime) (digest : Text) (state : PersistedBlobUploadState) (stream : List ℕ)
    (disk : Disk) (r : Result BlobError Bool × BlobStore)
    → state.selected_encoding ≡ none
    → (store_upload now digest state stream disk r).1.store ≡ r.1
unfolding remove_blob_upload_state
store_upload-store now digest state stream disk (err e, store) raw = refl
store_upload-store now digest state stream disk (ok uploaded, store) raw = rw raw refl

completed-disk : (digest : Text) (r : Result UploadError Bool × Disk) → (completed digest r).1 ≡ r.1
completed-disk digest (err e, disk) = refl
completed-disk digest (ok uploaded, disk) = refl

module _ (codec : Codec) (adler : Checksum) (now : DateTime) (o : Declared)
    (raw : o.selected_encoding ≡ none) (sized : o.raw_size_bytes ≡ o.stream_size_bytes) where
  complete-store :
      (c : List ℕ) (cs : List (List ℕ)) (disk : Disk)
      → IsStaged o (c ∷ cs) disk
      → total (c ∷ cs) ≡ o.stream_size_bytes
      → (complete codec now o.digest disk).1.store
        ≡ (store_blob_for_digest codec now o.digest (concat (c ∷ cs)) disk.store).1
  unfolding complete raw_bytes_of
  complete-store c cs disk staged all =
      ap (λ (d : Disk). d.store)
        (completed-disk o.digest (finalize_blob_upload_session codec now o.digest disk)
          ∙ ap (λ (r : Result UploadError Bool × Disk). r.1)
              (finalize-staged codec now o c cs disk (concat (c ∷ cs)) staged all (rw raw refl)
                (all ∙ sym sized)))
      ∙ store_upload-store now o.digest (staged_state o (c ∷ cs)) (concat (c ∷ cs)) disk
          (store_blob_for_digest codec now o.digest (concat (c ∷ cs)) disk.store) raw

  complete_all :
      (chunks : List (List ℕ)) (p : List ℕ) (ps : List (List ℕ)) (disk : Disk)
      → IsStaged o (chunks ++ (p ∷ ps)) disk
      → total (chunks ++ (p ∷ ps)) ≡ o.stream_size_bytes
      → (complete codec now o.digest disk).1.store
        ≡ (store_blob_for_digest codec now o.digest (concat (chunks ++ (p ∷ ps))) disk.store).1
  complete_all [] p ps disk staged all = complete-store p ps disk staged all
  complete_all (c ∷ cs) p ps disk staged all = complete-store c (cs ++ (p ∷ ps)) disk staged all

  concat-++ : (xs ys : List (List ℕ)) → concat (xs ++ ys) ≡ concat xs ++ concat ys
  concat-++ [] ys = refl
  concat-++ (x ∷ xs) ys = rw (concat-++ xs ys) (sym (append_assoc x (concat xs) (concat ys)))

  module _ (short : (bytes : List ℕ) → adler bytes < 2 ^ 32)
      (words : o.stream_size_bytes < u64_mod) where
    pub start-stores :
        (sent : List (List ℕ)) (p : List ℕ) (ps : List (List ℕ)) (disk : Disk)
        → IsStarted o sent disk
        → length sent + length (p ∷ ps) < u64_mod
        → All (IsChunk o) (p ∷ ps)
        → total sent + total (p ∷ ps) ≡ o.stream_size_bytes
        → (start codec adler now
            (record {
              resume_sent = true;
              messages = frames adler (length sent) (total sent) (p ∷ ps);
            })
            o
            (prepare_blob_upload_session o disk)).1.store
          ≡ (store_blob_for_digest codec now o.digest (concat (sent ++ (p ∷ ps))) disk.store).1
    unfolding start persist_blob_upload_state
    start-stores sent p ps disk started counted good all =
        let more : total (p ∷ ps) ≡ length p + total ps = length-append p (concat ps) in
        let filled : 0 < length p = good.0.0 in
        let (prepared, staged) = prepare-started o sent disk started (omega arith) in
        let disk' : Disk = persist_blob_upload_state (staged_state o sent) disk in
        let (d, done, same, run) =
          receive-frames codec adler now o short words p ps sent disk' staged counted good all in
        let partial : (total sent == o.stream_size_bytes) ≡ false = ne_beq _ _ (λ e. omega arith) in
        let nonzero : (o.stream_size_bytes == 0) ≡ false = ne_beq _ _ (λ e. omega arith) in
        let sum : total (sent ++ (p ∷ ps)) ≡ o.stream_size_bytes =
          ap length (concat-++ sent (p ∷ ps))
          ∙ length-append (concat sent) (concat (p ∷ ps))
          ∙ all in
        rw (prepared, start, partial, nonzero)
          (ap (λ (d : Disk). d.store) run ∙ complete_all sent p ps d done sum ∙ rw same refl)

pub start-refuses_empty :
    (codec : Codec) (adler : Checksum) (now : DateTime) (o : Declared) (connection : Connection)
    (disk : Disk)
    → get o.digest disk.metas ≡ none
    → get o.digest disk.parts ≡ none
    → o.stream_size_bytes ≡ 0
    → ((start codec adler now connection o (prepare_blob_upload_session o disk)).0
        ≡ upload_error (store_failed unreadable_part) ∷ [])
      × ((start codec adler now connection o (prepare_blob_upload_session o disk)).1.store
          ≡ disk.store)
unfolding start complete persist_blob_upload_state
start-refuses_empty codec adler now o connection disk unknown empty zero_length =
    let (prepared, staged) = prepare-started o [] disk (inr (refl, unknown, empty)) (omega arith) in
    let disk' : Disk = persist_blob_upload_state (staged_state o []) disk in
    let full : (0 == o.stream_size_bytes) ≡ true = rw zero_length refl in
    let failed = finalize-empty codec now o disk' staged zero_length in
    rw (prepared, start, full, complete, failed) (refl, refl)
