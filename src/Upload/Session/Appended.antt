-- ===== src/Upload/Session/Appended.antt =====
-- What appending a chunk to a staged upload comes to.
use remerge.Prelude.{
  ℕ, ◌+◌, ◌%◌, ◌≤◌, ◌<◌, true, false, ◌&&◌, some, List, [], ◌∷◌, ◌++◌, Result, ok, err, arith, ◌≡◌,
  ◌⊎◌, inl, inr, refl, sym, ap, ◌∙◌, ltb, length, length-append, Bool-cases, nat_eq,
}
use mathlib.Core.List.{append-nil, append_assoc}
use remerge.Prelude.Text.{text_eq}
use remerge.Prelude.Dict.{get, get-insert}
use remerge.Server.State.{u64_mod}
use remerge.Upload.Session.{
  PersistedBlobUploadState, Declared, Disk, UploadError, persist_blob_upload_state, append_part,
  advanced, is_empty, append_prepared, append_blob_upload_chunk,
}
use remerge.Upload.Session.Staged.{
  concat, total, staged_state, staged_part, IsStaged, IsStaged-persist, prepare-staged,
  text_beq_refl,
}

concat-append :
    (chunks : List (List ℕ)) (c : List ℕ) → concat (chunks ++ (c ∷ [])) ≡ concat chunks ++ c
concat-append [] c = append-nil c
concat-append (d ∷ ds) c = rw (concat-append ds c) (sym (append_assoc d (concat ds) c))

pub total-append :
    (chunks : List (List ℕ)) (c : List ℕ) → total (chunks ++ (c ∷ [])) ≡ total chunks + length c
total-append chunks c = ap length (concat-append chunks c) ∙ length-append (concat chunks) c

advanced-staged :
    (o : Declared) (chunks : List (List ℕ)) (c : List ℕ)
    → advanced (total chunks + length c) (staged_state o chunks)
      ≡ staged_state o (chunks ++ (c ∷ []))
advanced-staged o chunks c = ground (arith, total-append chunks c, length-append chunks (c ∷ []))

append_part-staged :
    (o : Declared) (chunks : List (List ℕ)) (c : List ℕ) (disk : Disk)
    → get o.digest disk.parts ≡ staged_part chunks
    → get o.digest (append_part o.digest c disk).parts ≡ staged_part (chunks ++ (c ∷ []))
append_part-staged o [] c disk e =
    rw (e, get-insert o.digest o.digest, text_beq_refl o.digest) (ap some (sym (append-nil c)))
append_part-staged o (d ∷ ds) c disk e =
    rw (e, get-insert o.digest o.digest, text_beq_refl o.digest)
      (ap some (sym (concat-append (d ∷ ds) c)))

-- The chunk has room, and is not empty before the end.
abbrev pub Fits : Declared → List (List ℕ) → List ℕ → Type 0
Fits o chunks payload =
    (total chunks + length payload ≤ o.stream_size_bytes)
    × (payload ≡ [] → o.stream_size_bytes ≤ total chunks)

early-misfit :
    (o : Declared) (chunks : List (List ℕ)) (payload : List ℕ)
    → (is_empty payload && ltb (total chunks + length payload) o.stream_size_bytes) ≡ true
    → Fits o chunks payload
    → ⊥
early-misfit o chunks [] early fits = let late = fits.1 refl in ground arith
early-misfit o chunks (b ∷ bs) early fits = cc early

timely-fits :
    (o : Declared) (chunks : List (List ℕ)) (payload : List ℕ)
    → (is_empty payload && ltb (total chunks + length payload) o.stream_size_bytes) ≡ false
    → payload ≡ []
    → o.stream_size_bytes ≤ total chunks
timely-fits o chunks [] timely e = ground arith
timely-fits o chunks (b ∷ bs) timely e = cc e

-- What appending a chunk comes to.
abbrev pub IsAppended :
    Declared
    → List (List ℕ)
    → List ℕ
    → Disk
    → Result UploadError PersistedBlobUploadState × Disk
    → Type 0
IsAppended o chunks payload disk r =
    (Fits o chunks payload
      × (r.0 ≡ ok (staged_state o (chunks ++ (payload ∷ []))))
      × IsStaged o (chunks ++ (payload ∷ [])) r.1)
    ⊎ ((Fits o chunks payload → ⊥) × ((e : UploadError) × (r.0 ≡ err e)) × IsStaged o chunks r.1)

module _ (o : Declared) (chunks : List (List ℕ)) (payload : List ℕ) (disk : Disk)
    (part : get o.digest disk.parts ≡ staged_part chunks)
    (words : total chunks + length payload < u64_mod) where
  prepared : Disk
  prepared = persist_blob_upload_state (staged_state o chunks) disk

  appended-IsStaged : IsStaged o (chunks ++ (payload ∷ [])) (
      persist_blob_upload_state
        (advanced (total chunks + length payload) (staged_state o chunks))
        (append_part o.digest payload prepared))
  unfolding prepared persist_blob_upload_state
  appended-IsStaged = rw (advanced-staged o chunks payload) (
      IsStaged-persist o (chunks ++ (payload ∷ [])) (append_part o.digest payload prepared)
        (append_part-staged o chunks payload prepared part))

  append_prepared-IsAppended :
      IsAppended o chunks payload disk
        (append_prepared o payload (ok (staged_state o chunks), prepared))
  unfolding append_prepared prepared
  append_prepared-IsAppended =
      let sum : (total chunks + length payload) % u64_mod ≡ total chunks + length payload =
        omega arith in
      elim (Bool-cases (ltb o.stream_size_bytes (total chunks + length payload))) [
        | inl long ↦
            rw (append_prepared, sum, long)
              (inr
                ((λ fits. ground (arith, fits.0)), (_, refl), IsStaged-persist o chunks disk part))
        | inr room ↦
            elim (Bool-cases
              (is_empty payload && ltb (total chunks + length payload) o.stream_size_bytes)) [
                | inl early ↦
                    rw (append_prepared, sum, room, early)
                      (inr (
                        (λ fits. early-misfit o chunks payload early fits),
                        (_, refl),
                        IsStaged-persist o chunks disk part,
                      ))
                | inr timely ↦
                    rw (append_prepared, sum, room, timely)
                      (inl (
                        (ground arith, timely-fits o chunks payload timely),
                        ap ok (advanced-staged o chunks payload),
                        appended-IsStaged,
                      ))
              ]
      ]

-- An upload that has come this far takes a chunk that has room and is not empty before the end, and
-- its file is then the concatenation of all chunks. It refuses any other chunk and stays as it was.
pub append_blob_upload_chunk-IsAppended :
    (o : Declared) (chunks : List (List ℕ)) (payload : List ℕ) (disk : Disk)
    → IsStaged o chunks disk
    → total chunks ≤ o.stream_size_bytes
    → total chunks + length payload < u64_mod
    → IsAppended o chunks payload disk (append_blob_upload_chunk o payload disk)
unfolding append_blob_upload_chunk prepared
append_blob_upload_chunk-IsAppended o chunks payload disk staged room words =
    rw (append_blob_upload_chunk, prepare-staged o chunks disk staged room)
      (append_prepared-IsAppended o chunks payload disk staged.bytes words)
