-- ===== src/Server/Meta/RoundTrip.antt =====
-- server/meta.go: `MarshalBinary` against `UnmarshalBinary`.
use t.Prelude.{ℕ, ◌≡◌, ◌||◌, Option, some, String, List, [], ◌∷◌, ok, arith}
use t.Bytes.{IsByte, IsU64, word-put_uint64, slice}
use t.Server.Meta.{Meta, layout, marshal, unmarshal}

pub record IsMeta (m : Meta) : Type 0 where
  pub port_fits : IsU64 m.connect_port
  pub peer_fits : IsU64 m.peer_id
  pub protocol_fits : IsByte m.protocol

module _ (parse_ip : String → Option (List ℕ)) (show_ip : List ℕ → String) (m old : Meta)
    (v : IsMeta m) where
  -- For an address that is parsed into sixteen bytes, the last four of which are shown as it was
  -- written: what `MarshalBinary` wrote is read back, but for `respond_only`, which is also set if
  -- the receiver had it set before.
  pub meta_roundtrip :
      (ip : List ℕ) (a b c d : ℕ)
      → parse_ip m.connect_ip ≡ some ip
      → slice ip 12 16 ≡ a ∷ b ∷ c ∷ d ∷ []
      → show_ip (a ∷ b ∷ c ∷ d ∷ []) ≡ m.connect_ip
      → (buf : List ℕ) × (marshal parse_ip m ≡ ok buf)
        × (unmarshal show_ip old buf
            ≡ ok (record m { respond_only = m.respond_only || old.respond_only }))
  unfolding marshal unmarshal
  meta_roundtrip ip a b c d parsed four shown = (
    layout (a ∷ b ∷ c ∷ d ∷ []) m,
    ground (arith, parsed, four),
    ground (arith, shown, word-put_uint64 m.connect_port, word-put_uint64 m.peer_id),
  )
