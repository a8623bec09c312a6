-- ===== src/Upload/Session/Staged.antt =====
-- The staged upload as the list of its accepted chunks.
use remerge.Prelude.{
  ℕ, ◌-◌, ◌≤◌, ◌<◌, true, false, Option, none, some, List, [], ◌∷◌, ◌++◌, ok, if◌then◌else◌, arith,
  ◌≡◌, refl, ltb, length, nat_eq,
}
use remerge.Prelude.Text.{Text, text_beq, text_beq_iff, text_eq}
use remerge.Prelude.Dict.{get, get-insert}
use remerge.Server.State.{u64_mod}
use remerge.Upload.Session.{
  PersistedBlobUploadState, Declared, Disk, new_upload, load_or_new, check_declared, resume_at,
  check_sequence, resume, prepare_from, prepare_blob_upload_session, persist_blob_upload_state,
  encoding_beq, part_size,
}

abbrev pub concat : List (List ℕ) → List ℕ
concat [] = []
concat (c ∷ cs) = c ++ concat cs

abbrev pub total : List (List ℕ) → ℕ
total chunks = length (concat chunks)

-- A count that stops at the largest number of 64 bits
abbrev pub saturated : ℕ → ℕ
saturated n = if ltb n u64_mod then n else u64_mod - 1

-- The record of an upload of which these chunks have come
abbrev pub staged_state : Declared → List (List ℕ) → PersistedBlobUploadState
staged_state o chunks = record (new_upload o) {
  next_sequence = saturated (length chunks);
  next_offset_bytes = total chunks;
  received_bytes = total chunks;
}

-- The file is made by the first chunk.
abbrev pub staged_part : List (List ℕ) → Option (List ℕ)
staged_part [] = none
staged_part (c ∷ cs) = some (concat (c ∷ cs))

pub record IsStaged (o : Declared) (chunks : List (List ℕ)) (disk : Disk) : Type 0 where
  pub recorded : get o.digest disk.metas ≡ some (staged_state o chunks)
  pub bytes : get o.digest disk.parts ≡ staged_part chunks

pub text_beq_refl : (t : Text) → text_beq t t ≡ true
text_beq_refl t = (text_beq_iff t t).1 refl

encoding_beq_refl : (e : Option Text) → encoding_beq e e ≡ true
encoding_beq_refl none = refl
encoding_beq_refl (some e) = text_beq_refl e

check_declared-staged :
    (o : Declared) (chunks : List (List ℕ)) → check_declared o (staged_state o chunks) ≡ ok tt
unfolding check_declared
check_declared-staged o chunks = ground (arith, encoding_beq_refl o.selected_encoding)

pub staged-size :
    (o : Declared) (chunks : List (List ℕ)) (disk : Disk)
    → get o.digest disk.parts ≡ staged_part chunks
    → part_size o.digest disk ≡ total chunks
staged-size o [] disk e = rw (e, part_size) refl
staged-size o (c ∷ cs) disk e = rw (e, part_size) refl

saturated-pos : (chunks : List (List ℕ)) → 0 < total chunks → 0 < saturated (length chunks)
saturated-pos [] h = absurd (omega arith)
saturated-pos (c ∷ cs) h = ground arith

resume_at-staged :
    (o : Declared) (chunks : List (List ℕ))
    → resume_at (total chunks) (staged_state o chunks) ≡ ok (staged_state o chunks)
unfolding resume_at
resume_at-staged o chunks = ground arith

check_sequence-staged :
    (o : Declared) (chunks : List (List ℕ))
    → check_sequence (total chunks) (staged_state o chunks) ≡ ok (staged_state o chunks)
unfolding check_sequence
check_sequence-staged o chunks = ground (arith, saturated-pos chunks)

-- The same session in another state of the disk
pub IsStaged-persist :
    (o : Declared) (chunks : List (List ℕ)) (disk : Disk)
    → get o.digest disk.parts ≡ staged_part chunks
    → IsStaged o chunks (persist_blob_upload_state (staged_state o chunks) disk)
unfolding persist_blob_upload_state
IsStaged-persist o chunks disk e = record {
  recorded = rw (get-insert o.digest o.digest, text_beq_refl o.digest) refl;
  bytes = e;
}

module _ (o : Declared) (chunks : List (List ℕ)) (disk : Disk)
    (part : get o.digest disk.parts ≡ staged_part chunks)
    (room : total chunks ≤ o.stream_size_bytes) where
  resume-staged :
      resume o (staged_state o chunks) disk
      ≡ (ok (staged_state o chunks), persist_blob_upload_state (staged_state o chunks) disk)
  unfolding resume
  resume-staged =
      let fits : ltb o.stream_size_bytes (total chunks) ≡ false = ground arith in
      rw
        (
          staged-size o chunks disk part,
          fits,
          resume_at-staged o chunks,
          check_sequence-staged o chunks,
        )
        refl

  prepare_from-staged :
      prepare_from o (staged_state o chunks) disk
      ≡ (ok (staged_state o chunks), persist_blob_upload_state (staged_state o chunks) disk)
  unfolding prepare_from
  prepare_from-staged = rw (prepare_from, check_declared-staged o chunks) resume-staged

-- An upload under a digest that has none starts with no chunks.
pub prepare-new :
    (o : Declared) (disk : Disk)
    → get o.digest disk.metas ≡ none
    → get o.digest disk.parts ≡ none
    → prepare_blob_upload_session o disk
      ≡ (ok (staged_state o []), persist_blob_upload_state (staged_state o []) disk)
unfolding prepare_blob_upload_session
prepare-new o disk unknown empty =
    rw (prepare_blob_upload_session, unknown, load_or_new)
      (prepare_from-staged o [] disk empty (omega arith))

pub prepare-staged :
    (o : Declared) (chunks : List (List ℕ)) (disk : Disk)
    → IsStaged o chunks disk
    → total chunks ≤ o.stream_size_bytes
    → prepare_blob_upload_session o disk
      ≡ (ok (staged_state o chunks), persist_blob_upload_state (staged_state o chunks) disk)
unfolding prepare_blob_upload_session
prepare-staged o chunks disk staged room =
    rw (prepare_blob_upload_session, staged.recorded, load_or_new)
      (prepare_from-staged o chunks disk staged.bytes room)
