-- ===== src/Bytes/Words.antt =====
-- `binary.BigEndian` of Go's standard library, on 64 and 32 bits.
use t.Prelude.{ℕ, ◌+◌, ◌*◌, ◌/◌, ◌%◌, ◌^◌, ◌<◌, ◌≡◌, List, [], ◌∷◌, length, All, arith}

abbrev pub IsByte : ℕ → Type 0
IsByte octet = octet < 256

abbrev pub IsU32 : ℕ → Type 0
IsU32 v = v < 2 ^ 32

abbrev pub IsU64 : ℕ → Type 0
IsU64 v = v < 2 ^ 64

-- `PutUint64`: the eight bytes of `v`, the highest first.
unfoldable pub put_uint64 : ℕ → List ℕ
put_uint64 v =
    (v / 2 ^ 56 % 256)
    ∷ (v / 2 ^ 48 % 256)
    ∷ (v / 2 ^ 40 % 256)
    ∷ (v / 2 ^ 32 % 256)
    ∷ (v / 2 ^ 24 % 256)
    ∷ (v / 2 ^ 16 % 256)
    ∷ (v / 2 ^ 8 % 256)
    ∷ (v % 256)
    ∷ []

unfoldable pub put_uint32 : ℕ → List ℕ
put_uint32 v = (v / 2 ^ 24 % 256) ∷ (v / 2 ^ 16 % 256) ∷ (v / 2 ^ 8 % 256) ∷ (v % 256) ∷ []

-- The number that a run of bytes spells, the highest byte first: `Uint64` on eight bytes and
-- `Uint32` on four.
unfoldable pub word_from : ℕ → List ℕ → ℕ
word_from acc [] = acc
word_from acc (b ∷ bs) = word_from (acc * 256 + b) bs

unfoldable pub word : List ℕ → ℕ
unfolding word_from
word bs = word_from 0 bs

pub word-put_uint64 : (v : ℕ) → IsU64 v → word (put_uint64 v) ≡ v
unfolding word put_uint64
word-put_uint64 v h = omega arith

pub word-put_uint32 : (v : ℕ) → IsU32 v → word (put_uint32 v) ≡ v
unfolding word put_uint32
word-put_uint32 v h = omega arith

-- Eight bytes are the bytes of the number that they spell, and that number is in range.
pub put_uint64-word : (bs : List ℕ) → length bs ≡ 8 → All IsByte bs → put_uint64 (word bs) ≡ bs
unfolding word put_uint64
put_uint64-word (a ∷ b ∷ c ∷ d ∷ e ∷ f ∷ g ∷ h ∷ []) len small = ground arith
put_uint64-word _ len small = absurd (omega arith)

pub word-IsU64 : (bs : List ℕ) → length bs ≡ 8 → All IsByte bs → IsU64 (word bs)
unfolding word
word-IsU64 (a ∷ b ∷ c ∷ d ∷ e ∷ f ∷ g ∷ h ∷ []) len small = omega arith
word-IsU64 _ len small = absurd (omega arith)

pub put_uint64-IsByte : (v : ℕ) → All IsByte (put_uint64 v)
unfolding put_uint64
put_uint64-IsByte v = omega arith

pub length-put_uint64 : (v : ℕ) → length (put_uint64 v) ≡ 8
unfolding put_uint64
length-put_uint64 v = omega arith
