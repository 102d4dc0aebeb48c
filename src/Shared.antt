-- ===== src/Shared.antt =====
-- shared/hash.go: the identifier of a client, which is the 64-bit FNV-1a hash of its name.
use Prim.Native.Nat.{bit_xor}
use t.Prelude.{ℕ, ◌*◌, ◌%◌, ◌^◌, List, [], ◌∷◌, arith}
use t.Bytes.{IsU64}

abbrev offset64 : ℕ
offset64 = 14695981039346656037

abbrev prime64 : ℕ
prime64 = 1099511628211

-- `Write` of `hash/fnv`'s `New64a`.
fnv_from : ℕ → List ℕ → ℕ
fnv_from h [] = h
fnv_from h (b ∷ bs) = fnv_from (bit_xor h b * prime64 % 2 ^ 64) bs

unfoldable pub peer_hash : List ℕ → ℕ
unfolding fnv_from
peer_hash name = fnv_from offset64 name

fnv_from-IsU64 : (h : ℕ) (bs : List ℕ) → IsU64 h → IsU64 (fnv_from h bs)
unfolding fnv_from
fnv_from-IsU64 h [] v = v
fnv_from-IsU64 h (b ∷ bs) v = fnv_from-IsU64 (bit_xor h b * prime64 % 2 ^ 64) bs (omega arith)

pub peer_hash-IsU64 : (name : List ℕ) → IsU64 (peer_hash name)
unfolding peer_hash
peer_hash-IsU64 name = fnv_from-IsU64 offset64 name (omega arith)
