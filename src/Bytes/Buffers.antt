-- ===== src/Bytes/Buffers.antt =====
-- Slices, `make` and `copy` on byte buffers.
use t.Prelude.{
  ℕ, zero, suc, ◌-◌, ◌≤◌, ◌≡◌, refl, ap, ◌∙◌, List, [], ◌∷◌, ◌++◌, length, take, drop, replicate,
  length-append, length-take, length-drop, arith,
}

-- `b[i:j]`, for `i` and `j` within the buffer
abbrev pub slice : List ℕ → ℕ → ℕ → List ℕ
slice b i j = take (j - i) (drop i b)

-- `make([]byte, n)`
abbrev pub make : ℕ → List ℕ
make n = replicate n 0

-- `copy(dst, src)`: what `dst` holds afterwards
unfoldable pub copy : List ℕ → List ℕ → List ℕ
copy dst src = take (length dst) src ++ drop (length src) dst

-- A copy into a buffer of the source's length is the source.
pub copy-make : (src : List ℕ) → copy (make (length src)) src ≡ src
unfolding copy
copy-make [] = refl
copy-make (x ∷ xs) = ap (λ (r : List ℕ). x ∷ r) (copy-make xs)

-- So is a copy into any other buffer of that length.
pub copy_whole : (dst src : List ℕ) → length dst ≡ length src → copy dst src ≡ src
unfolding copy
copy_whole [] [] h = refl
copy_whole [] (x ∷ src) h = absurd (omega arith)
copy_whole (y ∷ dst) [] h = absurd (omega arith)
copy_whole (y ∷ dst) (x ∷ src) h = ap (λ (r : List ℕ). x ∷ r) (copy_whole dst src (omega arith))

-- A copy keeps the length of its destination.
pub length-copy : (dst src : List ℕ) → length (copy dst src) ≡ length dst
unfolding copy
length-copy dst src =
    rw length-append (omega (arith, length-take (length dst) src, length-drop (length src) dst))

-- A source that is longer than the buffer is cut.
pub copy-make_of_le : (n : ℕ) (src : List ℕ) → n ≤ length src → copy (make n) src ≡ take n src
unfolding copy
copy-make_of_le zero [] h = refl
copy-make_of_le zero (x ∷ xs) h = refl
copy-make_of_le (suc n) [] h = absurd (omega arith)
copy-make_of_le (suc n) (x ∷ xs) h = ap (λ (r : List ℕ). x ∷ r) (copy-make_of_le n xs (omega arith))

-- A source that is shorter is padded with zeros.
pub copy-make_of_ge :
    (n : ℕ) (src : List ℕ) → length src ≤ n → copy (make n) src ≡ src ++ make (n - length src)
unfolding copy
copy-make_of_ge zero [] h = refl
copy-make_of_ge (suc n) [] h = let e : suc n ≡ suc n - 0 = omega arith in ap make e
copy-make_of_ge zero (x ∷ xs) h = absurd (omega arith)
copy-make_of_ge (suc n) (x ∷ xs) h =
    ap (λ (r : List ℕ). x ∷ r) (copy-make_of_ge n xs (omega arith) ∙ pad)
  where
    pad : xs ++ make (n - length xs) ≡ xs ++ make (suc n - suc (length xs))
    pad =
        let e : n - length xs ≡ suc n - suc (length xs) = omega arith in
        ap (λ (k : ℕ). xs ++ make k) e
