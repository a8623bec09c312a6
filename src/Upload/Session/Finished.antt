-- ===== src/Upload/Session/Finished.antt =====
-- The end of a staged upload: the blob that is stored is the concatenation of the chunks, decoded.
use remerge.Prelude.{ℕ, List, [], ◌∷◌, ok, err, arith, ◌≡◌, refl, length, nat_eq}
use remerge.Prelude.Text.{text_eq}
use remerge.Types.Client.{DateTime}
use remerge.Storage.Blobs.{Codec, store_blob_for_digest}
use remerge.Upload.Session.{
  Declared, Disk, resume, prepare_from, prepare_blob_upload_session, persist_blob_upload_state,
  remove_blob_upload_state, append_prepared, append_blob_upload_chunk, unreadable_part,
}
use remerge.Upload.Session.Finalize.{
  collect_upload, store_upload, finalize_blob_upload_session, raw_bytes_of,
}
use remerge.Upload.Session.Staged.{concat, total, staged_state, IsStaged, staged-size}

prepare-store :
    (o : Declared) (disk : Disk) → (prepare_blob_upload_session o disk).1.store ≡ disk.store
unfolding prepare_blob_upload_session prepare_from resume persist_blob_upload_state
    remove_blob_upload_state
prepare-store o disk = ground arith

pub append-store :
    (o : Declared) (payload : List ℕ) (disk : Disk)
    → (append_blob_upload_chunk o payload disk).1.store ≡ disk.store
unfolding append_blob_upload_chunk append_prepared persist_blob_upload_state
append-store o payload disk = ground (arith, prepare-store o disk)

module _ (codec : Codec) (now : DateTime) (o : Declared) where
  -- The end of an upload of which all has come hands the decoded bytes to the blob store.
  pub finalize-staged :
      (c : List ℕ) (cs : List (List ℕ)) (disk : Disk) (raw : List ℕ)
      → IsStaged o (c ∷ cs) disk
      → total (c ∷ cs) ≡ o.stream_size_bytes
      → raw_bytes_of codec o.selected_encoding (concat (c ∷ cs)) ≡ ok raw
      → length raw ≡ o.raw_size_bytes
      → finalize_blob_upload_session codec now o.digest disk
        ≡ store_upload now o.digest
            (staged_state o (c ∷ cs))
            (concat (c ∷ cs))
            disk
            (store_blob_for_digest codec now o.digest raw disk.store)
  unfolding finalize_blob_upload_session collect_upload
  finalize-staged c cs disk raw staged all decoded sized =
      let collected : collect_upload codec o.digest (staged_state o (c ∷ cs)) disk
          ≡ ok (concat (c ∷ cs), raw) =
        ground (arith, staged-size o (c ∷ cs) disk staged.bytes) in
      rw (finalize_blob_upload_session, staged.recorded, collected) refl

  -- An upload without chunks has no file, and its end fails although nothing is missing.
  pub finalize-empty :
      (disk : Disk)
      → IsStaged o [] disk
      → o.stream_size_bytes ≡ 0
      → finalize_blob_upload_session codec now o.digest disk ≡ (err unreadable_part, disk)
  unfolding finalize_blob_upload_session collect_upload
  finalize-empty disk staged none_missing =
      let failed : collect_upload codec o.digest (staged_state o []) disk ≡ err unreadable_part =
        ground arith in
      rw (finalize_blob_upload_session, staged.recorded, failed) refl
