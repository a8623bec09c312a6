-- ===== src/Storage/Samples.antt =====
-- A toy codec and a small store for the tests: the digest of a blob is its length, printed with 64
-- digits.
use remerge.Prelude.{ℕ, zero, suc, [], ◌∷◌, List, ok, length, ◌+◌}
use remerge.Prelude.Text.{Text}
use remerge.Storage.Blobs.{BlobStore, Codec}

abbrev zeros : ℕ → Text → Text
zeros zero rest = rest
zeros (suc n) rest = b'0' ∷ zeros n rest

abbrev pub digest_of : List ℕ → Text
digest_of bytes = zeros 63 ((b'0' + length bytes) ∷ [])

abbrev pub toy_codec : Codec
toy_codec = record {
  sha256_hex = digest_of;
  encode_all = λ bytes. ok bytes;
  decode_all = λ bytes. ok bytes;
}

abbrev pub no_blobs : BlobStore
no_blobs = record { blobs = []; metadata = []; zst = [] }
