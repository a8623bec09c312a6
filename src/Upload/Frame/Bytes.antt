-- ===== src/Upload/Frame/Bytes.antt =====
-- Big-endian bytes of numbers, and parts of byte lists.
use native.Mathlib.Nat.{pow-suc}
use remerge.Prelude.{
  ℕ, zero, suc, ◌+◌, ◌-◌, ◌*◌, ◌/◌, ◌%◌, ◌^◌, ◌<◌, List, [], ◌∷◌, ◌++◌, take, drop, arith, ◌≡◌,
  refl,
}

-- `to_be_bytes` of a number of the given number of bytes
unfoldable pub to_be_bytes : ℕ → ℕ → List ℕ
to_be_bytes zero n = []
to_be_bytes (suc width) n = to_be_bytes width (n / 256) ++ (n % 256 ∷ [])

abbrev pub accumulate : ℕ → List ℕ → ℕ
accumulate acc [] = acc
accumulate acc (b ∷ bytes) = accumulate (acc * 256 + b) bytes

-- `from_be_bytes`
unfoldable pub from_be_bytes : List ℕ → ℕ
from_be_bytes bytes = accumulate 0 bytes

-- `frame[first..end]`
abbrev pub slice : ℕ → ℕ → List ℕ → List ℕ
slice first end bytes = take (end - first) (drop first bytes)

-- `frame[i]`, of a frame that is long enough
abbrev pub byte_at : ℕ → List ℕ → ℕ
byte_at i [] = 0
byte_at zero (b ∷ bytes) = b
byte_at (suc i) (b ∷ bytes) = byte_at i bytes

accumulate-append :
    (acc b : ℕ) (bytes : List ℕ)
    → accumulate acc (bytes ++ (b ∷ [])) ≡ accumulate acc bytes * 256 + b
accumulate-append acc b [] = refl
accumulate-append acc b (c ∷ bytes) = accumulate-append (acc * 256 + c) b bytes

-- Reading back the bytes of a number that fits gives the number.
pub from_be_bytes-to_be_bytes :
    (width n : ℕ) → n < 256 ^ width → from_be_bytes (to_be_bytes width n) ≡ n
unfolding from_be_bytes to_be_bytes
from_be_bytes-to_be_bytes zero n h = omega arith
from_be_bytes-to_be_bytes (suc width) n h =
    let fits : n / 256 < 256 ^ width = omega (arith, pow-suc 256 width, h) in
    omega (
      arith,
      accumulate-append 0 (n % 256) (to_be_bytes width (n / 256)),
      from_be_bytes-to_be_bytes width (n / 256) fits,
    )
