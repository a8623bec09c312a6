-- ===== src/Upload/Stream/Resumed.antt =====
-- An upload over any number of connections: what the last one stores.
use remerge.Prelude.{
  ℕ, ◌+◌, ◌^◌, ◌≤◌, ◌<◌, true, false, List, [], ◌∷◌, ◌++◌, ok, if◌then◌else◌, arith, ◌≡◌, ◌≢◌, inl,
  inr, refl, ap, ◌∙◌, ◌==◌, ==_iff, length, length-append, nat_eq, All,
}
use mathlib.Core.List.{append-nil, append_assoc}
use remerge.Prelude.Text.{text_eq}
use remerge.Types.Client.{DateTime}
use remerge.Server.State.{u64_mod}
use remerge.Storage.Blobs.{Codec}
use remerge.Upload.Frame.{Checksum, from_payload, frame_of, decode}
use remerge.Upload.Frame.RoundTrip.{IsHeader, from_payload-decodes, encode-from_payload}
use remerge.Upload.Session.{Declared, Disk, append_blob_upload_chunk}
use remerge.Upload.Session.Staged.{concat, total, staged_state, IsStaged}
use remerge.Upload.Session.Appended.{total-append, append_blob_upload_chunk-IsAppended}
use remerge.Upload.Session.Finished.{append-store}
use remerge.Upload.Stream.{
  ClientMessage, binary, ServerMessage, upload_ack, check_header, Turn, go_on, stop, preceded_by,
  complete, acknowledge, after_turn, handle_frame, receive, session_of,
}

-- The chunks of a client that counts from a sequence number and an offset
abbrev pub frames : Checksum → ℕ → ℕ → List (List ℕ) → List ClientMessage
frames adler sequence offset [] = []
frames adler sequence offset (p ∷ ps) =
    binary (frame_of (from_payload adler sequence offset p) p) true
    ∷ frames adler (sequence + 1) (offset + length p) ps

-- A chunk that the upload takes
abbrev pub IsChunk : Declared → List ℕ → Type 0
IsChunk o p = (0 < length p) × (length p ≤ o.chunk_size_bytes)

decode-frame :
    (adler : Checksum) (sequence offset : ℕ) (p : List ℕ)
    → IsHeader (from_payload adler sequence offset p)
    → decode adler (frame_of (from_payload adler sequence offset p) p)
      ≡ ok (from_payload adler sequence offset p, p)
decode-frame adler sequence offset p fits =
    rw (encode-from_payload adler sequence offset p) at
      (from_payload-decodes adler sequence offset p fits)

pub ne_beq : (a b : ℕ) → a ≢ b → (a == b) ≡ false
ne_beq a b h = ground arith

module _ (codec : Codec) (adler : Checksum) (now : DateTime) (o : Declared)
    (short : (bytes : List ℕ) → adler bytes < 2 ^ 32) (words : o.stream_size_bytes < u64_mod) where
  module _ (chunks : List (List ℕ)) (p : List ℕ) (disk : Disk) (staged : IsStaged o chunks disk)
      (counted : length chunks < u64_mod) (filled : 0 < length p)
      (small : length p ≤ o.chunk_size_bytes)
      (room : total chunks + length p ≤ o.stream_size_bytes) where
    appended :
        ((append_blob_upload_chunk o p disk).0 ≡ ok (staged_state o (chunks ++ (p ∷ []))))
        × IsStaged o (chunks ++ (p ∷ [])) (append_blob_upload_chunk o p disk).1
    appended =
        elim (append_blob_upload_chunk-IsAppended o chunks p disk staged (omega arith)
          (omega arith)) [
            | inl (fits, e, done) ↦ (e, done)
            | inr (misfit, _, _) ↦
                absurd (misfit (room, λ e. absurd (omega (arith, (rw e at filled)))))
          ]

    from_payload-IsHeader : IsHeader (from_payload adler (length chunks) (total chunks) p)
    unfolding from_payload
    from_payload-IsHeader = record {
      sequence = counted;
      offset_bytes = omega arith;
      payload_size_bytes = omega arith;
      payload_checksum = short p;
    }

    check_header-staged :
        check_header
          (session_of o (staged_state o chunks))
          (from_payload adler (length chunks) (total chunks) p)
        ≡ ok tt
    unfolding check_header from_payload
    check_header-staged = ground arith

    handle_frame-staged :
        (ack : ServerMessage) × (handle_frame codec adler now
            (session_of o (staged_state o chunks))
            (frame_of (from_payload adler (length chunks) (total chunks) p) p)
            true
            disk
          ≡ (if total (chunks ++ (p ∷ [])) == o.stream_size_bytes
              then stop (
                  preceded_by ack
                    (complete codec now o.digest (append_blob_upload_chunk o p disk).1))
              else go_on
                  (session_of o (staged_state o (chunks ++ (p ∷ []))))
                  ack
                  (append_blob_upload_chunk o p disk).1))
    unfolding handle_frame acknowledge
    handle_frame-staged =
        let h = from_payload adler (length chunks) (total chunks) p in
        let decoded = decode-frame adler (length chunks) (total chunks) p from_payload-IsHeader in
        (
          upload_ack h.sequence h.offset_bytes h.payload_size_bytes (total (chunks ++ (p ∷ []))),
          rw (handle_frame, decoded, check_header-staged, acknowledge, appended.0) refl,
        )

  frames_after :
      (chunks : List (List ℕ)) (p : List ℕ) (ps : List (List ℕ))
      → frames adler (length chunks + 1) (total chunks + length p) ps
        ≡ frames adler (length (chunks ++ (p ∷ []))) (total (chunks ++ (p ∷ []))) ps
  frames_after chunks p ps = rw (length-append chunks (p ∷ []), total-append chunks p) refl

  -- What the rest of the chunks comes to, from any point of the upload.
  pub receive-frames :
      (p : List ℕ) (ps : List (List ℕ)) (chunks : List (List ℕ)) (disk : Disk)
      → IsStaged o chunks disk
      → length chunks + length (p ∷ ps) < u64_mod
      → All (IsChunk o) (p ∷ ps)
      → total chunks + total (p ∷ ps) ≡ o.stream_size_bytes
      → (d : Disk) × IsStaged o (chunks ++ (p ∷ ps)) d
        × (d.store ≡ disk.store)
        × ((receive codec adler now
              (frames adler (length chunks) (total chunks) (p ∷ ps))
              (session_of o (staged_state o chunks))
              disk).1
            ≡ (complete codec now o.digest d).1)
  unfolding receive
  receive-frames p [] chunks disk staged counted good all =
      let sized : total (p ∷ []) ≡ length p = ap length (append-nil p) in
      let room : total chunks + length p ≤ o.stream_size_bytes = omega arith in
      let (ack, step) =
        handle_frame-staged chunks p disk staged (omega arith) good.0.0 good.0.1 room in
      let full : (total (chunks ++ (p ∷ [])) == o.stream_size_bytes) ≡ true =
        (==_iff _ o.stream_size_bytes).1 (omega (arith, total-append chunks p)) in
      (
        (append_blob_upload_chunk o p disk).1,
        (appended chunks p disk staged (omega arith) good.0.0 good.0.1 room).1,
        append-store o p disk,
        ap (λ (t : Turn). (after_turn t (receive codec adler now [])).1) step ∙ rw full refl,
      )
  receive-frames p (q ∷ qs) chunks disk staged counted good all =
      let sized : total (p ∷ q ∷ qs) ≡ length p + total (q ∷ qs) =
        length-append p (concat (q ∷ qs)) in
      let more : total (q ∷ qs) ≡ length q + total qs = length-append q (concat qs) in
      let filled : 0 < length q = good.1.0.0 in
      let room : total chunks + length p ≤ o.stream_size_bytes = omega arith in
      let (ack, step) =
        handle_frame-staged chunks p disk staged (omega arith) good.0.0 good.0.1 room in
      let partial : (total (chunks ++ (p ∷ [])) == o.stream_size_bytes) ≡ false =
        ne_beq _ o.stream_size_bytes (λ e. omega (arith, total-append chunks p)) in
      let here = appended chunks p disk staged (omega arith) good.0.0 good.0.1 room in
      let (d, done, same, run) =
        receive-frames q qs (chunks ++ (p ∷ [])) (append_blob_upload_chunk o p disk).1 here.1
          (omega (arith, length-append chunks (p ∷ []))) good.1
          (omega (arith, total-append chunks p)) in
      (
        d,
        rw (append_assoc chunks (p ∷ []) (q ∷ qs)) at done,
        same ∙ append-store o p disk,
        ap
              (λ (t : Turn).
                (after_turn t (
                  receive codec adler now
                    (frames adler (length chunks + 1) (total chunks + length p) (q ∷ qs)))).1)
              step
            ∙ rw partial (
                ap
                  (λ (fs : List ClientMessage).
                    (receive codec adler now fs (session_of o (staged_state o (chunks ++ (p ∷ []))))
                      (append_blob_upload_chunk o p disk).1).1)
                  (frames_after chunks p (q ∷ qs))
                ∙ run),
      )
