-- ===== src/Multiplexer/Link/RoundTrip.antt =====
-- multiplexer/link.go: `MarshalBinary` against `UnmarshalBinary`, both ways.
use t.Prelude.{
  ℕ, ◌≡◌, ◌≢◌, refl, ◌⊎◌, inl, inr, List, [], ◌∷◌, ok, err, length, All, Bool-cases, ◌==◌, arith,
}
use t.Bytes.{IsByte, word-put_uint64, put_uint64-word, word-IsU64, length-put_uint64}
use t.Multiplexer.Link.{Link, IsLink, parse, marshal, unmarshal, link_size, invalid_length}

pub length-marshal : (l : Link) → length (marshal l) ≡ link_size
unfolding marshal
length-marshal l = ground (arith, length-put_uint64 l.source, length-put_uint64 l.destination)

-- Unmarshalling what `MarshalBinary` wrote for a link gives the link back.
pub link_roundtrip : (l : Link) → IsLink l → unmarshal (marshal l) ≡ ok l
unfolding unmarshal marshal
link_roundtrip l v = ground (arith, word-put_uint64 l.source, word-put_uint64 l.destination)

-- Eighteen bytes are what `MarshalBinary` writes for the link read from them.
eighteen :
    (l : Link) (b : List ℕ)
    → length b ≡ link_size
    → All IsByte b
    → unmarshal b ≡ ok l
    → (marshal l ≡ b) × IsLink l
unfolding unmarshal marshal
eighteen l (a ∷ b ∷ c ∷ d ∷ e ∷ f ∷ g ∷ h ∷ i ∷ j ∷ k ∷ m ∷ n ∷ o ∷ p ∷ q ∷ r ∷ s ∷ []) len small
      u =
    let first : List ℕ = a ∷ b ∷ c ∷ d ∷ e ∷ f ∷ g ∷ h ∷ [] in
    let second : List ℕ = i ∷ j ∷ k ∷ m ∷ n ∷ o ∷ p ∷ q ∷ [] in
    ground (
      arith,
      put_uint64-word first refl (omega arith),
      put_uint64-word second refl (omega arith),
      word-IsU64 first refl (omega arith),
      word-IsU64 second refl (omega arith),
    )
eighteen l _ len small u = absurd (omega arith)

length-unmarshal : (b : List ℕ) (l : Link) → unmarshal b ≡ ok l → length b ≡ link_size
unfolding unmarshal
length-unmarshal b l h = ground arith

-- A buffer of bytes that is accepted is what `MarshalBinary` writes for the link read from it, and
-- that link's fields are in range.
pub link_canonical :
    (b : List ℕ) (l : Link) → All IsByte b → unmarshal b ≡ ok l → (marshal l ≡ b) × IsLink l
link_canonical b l small h = eighteen l b (length-unmarshal b l h) small h

-- A buffer is accepted exactly when it has 18 bytes, and the error of any other names its length.
pub link_unmarshal_total :
    (b : List ℕ)
    → ((length b ≡ link_size) × (l : Link) × (unmarshal b ≡ ok l))
      ⊎ (length b ≢ link_size) × (unmarshal b ≡ err (invalid_length (length b)))
link_unmarshal_total b = elim (Bool-cases (length b == link_size)) [
  | inl e ↦ inl (ground arith, parse b, unfold unmarshal in rw e)
  | inr e ↦ inr (ground arith, unfold unmarshal in rw e)
]
