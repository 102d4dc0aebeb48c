-- ===== src/State/PeerMap/Checksum/Order.antt =====
-- state/peer_map.go: `CRC64` depends on the peers alone, and not on the order in which `Range` visits.
use t.Prelude.{
  ℕ, ◌<◌, ◌≡◌, refl, sym, ap, ◌∙◌, Bool-cases, true, false, none, some, inl, inr, List, [], ◌∷◌,
  contains, All, ◌==◌, Map, lookup, keys, HasDistinctKeys, arith,
}
use t.State.PeerMap.{PeerMap, has, snapshot}
use t.State.PeerMap.Checksum.{insert_sorted, sorted, write_all, crc64}

abbrev IsIncreasing : List ℕ → Type 0
IsIncreasing [] = Unit
IsIncreasing (low ∷ rest) = All (λ peer. low < peer) rest × IsIncreasing rest

contains-insert_sorted :
    (peer : ℕ) (xs : List ℕ) (k : ℕ) → contains (insert_sorted peer xs) k ≡ contains (peer ∷ xs) k
unfolding insert_sorted
contains-insert_sorted peer [] k = refl
contains-insert_sorted peer (low ∷ rest) k = ground (arith, contains-insert_sorted peer rest k)

contains-sorted : (xs : List ℕ) (k : ℕ) → contains (sorted xs) k ≡ contains xs k
unfolding sorted
contains-sorted [] k = refl
contains-sorted (peer ∷ peers) k =
    ground (arith, contains-insert_sorted peer (sorted peers) k, contains-sorted peers k)

All-insert_sorted :
    (low peer : ℕ) (xs : List ℕ)
    → low < peer
    → All (λ j. low < j) xs
    → All (λ j. low < j) (insert_sorted peer xs)
unfolding insert_sorted
All-insert_sorted low peer [] h v = (h, tt)
All-insert_sorted low peer (j ∷ rest) h v = ground (arith, All-insert_sorted low peer rest h)

All-lower :
    (low peer : ℕ) (xs : List ℕ) → low < peer → All (λ j. peer < j) xs → All (λ j. low < j) xs
All-lower low peer [] h v = tt
All-lower low peer (j ∷ rest) h v = (omega arith, All-lower low peer rest h v.1)

insert_sorted-IsIncreasing :
    (peer : ℕ) (xs : List ℕ)
    → contains xs peer ≡ false
    → IsIncreasing xs
    → IsIncreasing (insert_sorted peer xs)
unfolding insert_sorted
insert_sorted-IsIncreasing peer [] new v = (tt, tt)
insert_sorted-IsIncreasing peer (low ∷ rest) new v = ground (
  arith,
  insert_sorted-IsIncreasing peer rest,
  All-insert_sorted low peer rest,
  All-lower peer low rest,
)

-- No identifier stands twice.
abbrev IsDistinct : List ℕ → Type 0
IsDistinct [] = Unit
IsDistinct (peer ∷ peers) = (contains peers peer ≡ false) × IsDistinct peers

sorted-IsIncreasing : (xs : List ℕ) → IsDistinct xs → IsIncreasing (sorted xs)
unfolding sorted
sorted-IsIncreasing [] v = tt
sorted-IsIncreasing (peer ∷ peers) v =
    insert_sorted-IsIncreasing peer (sorted peers) (contains-sorted peers peer ∙ v.0)
      (sorted-IsIncreasing peers v.1)

not-contains : (low : ℕ) (xs : List ℕ) → All (λ j. low < j) xs → contains xs low ≡ false
not-contains low [] v = refl
not-contains low (j ∷ rest) v = ground (arith, not-contains low rest)

contains-above : (low k : ℕ) (xs : List ℕ) → All (λ j. low < j) xs → contains xs k ≡ true → low < k
contains-above low k [] v h = cc
contains-above low k (j ∷ rest) v h = ground (arith, contains-above low k rest)

members_behind :
    (x y k : ℕ) (xs ys : List ℕ)
    → x ≡ y
    → contains (x ∷ xs) k ≡ contains (y ∷ ys) k
    → contains xs x ≡ false
    → contains ys y ≡ false
    → contains xs k ≡ contains ys k
members_behind x y k xs ys e h a b = elim (Bool-cases (k == x)) [
  | inl same ↦ let at : k ≡ x = ground (arith, same) in ground (arith, at, e)
  | inr other ↦ ground (arith, other)
]

-- Two increasing lists with the same members are equal.
increasing_ext :
    (xs ys : List ℕ)
    → IsIncreasing xs
    → IsIncreasing ys
    → ((k : ℕ) → contains xs k ≡ contains ys k)
    → xs ≡ ys
increasing_ext [] [] v w h = refl
increasing_ext [] (y ∷ ys) v w h = absurd (ground (arith, h y))
increasing_ext (x ∷ xs) [] v w h = absurd (ground (arith, h x))
increasing_ext (x ∷ xs) (y ∷ ys) v w h =
    let first : x ≡ y =
      ground (arith, h x, h y, contains-above x y xs v.0, contains-above y x ys w.0) in
    let behind : (k : ℕ) → contains xs k ≡ contains ys k =
      λ k. members_behind x y k xs ys first (h k) (not-contains x xs v.0) (not-contains y ys w.0) in
    rw first (ap (λ rest. y ∷ rest) (increasing_ext xs ys v.1 w.1 behind))

contains-keys : {P : Type 0} (m : Map P) (k : ℕ) → lookup k m ≡ none → contains (keys m) k ≡ false
unfolding keys lookup
contains-keys [] k h = refl
contains-keys ((j, p) ∷ m) k h = ground (arith, contains-keys m k)

keys-IsDistinct : {P : Type 0} (m : Map P) → HasDistinctKeys m → IsDistinct (keys m)
unfolding keys
keys-IsDistinct [] v = tt
keys-IsDistinct ((k, p) ∷ m) v = (contains-keys m k v.0, keys-IsDistinct m v.1)

has-contains :
    {P : Type 0} (m : Map P) (k : ℕ)
    → (elim (lookup k m) [ none ↦ false | some p ↦ true ]) ≡ contains (keys m) k
unfolding keys lookup
has-contains [] k = refl
has-contains ((j, p) ∷ m) k = ground (arith, has-contains m k)

-- Two maps with one session to a peer, which hold sessions with the same peers, have the same
-- `CRC64`, in whatever order they hold them and whatever the checksum is.
pub crc64-has :
    {H P Q : Type 0} (empty : H) (write : H → List ℕ → H) (sum : H → ℕ) (s : PeerMap P)
    (t : PeerMap Q)
    → HasDistinctKeys s.peers
    → HasDistinctKeys t.peers
    → ((k : ℕ) → has s k ≡ has t k)
    → crc64 empty write sum s ≡ crc64 empty write sum t
unfolding crc64 has snapshot
crc64-has empty write sum s t v w h =
    let same_members : (k : ℕ)
        → contains (sorted (keys s.peers)) k ≡ contains (sorted (keys t.peers)) k =
      λ k.
        contains-sorted (keys s.peers) k
        ∙ sym (has-contains s.peers k)
        ∙ h k
        ∙ has-contains t.peers k
        ∙ sym (contains-sorted (keys t.peers) k) in
    ap (λ peers. sum (write_all empty write sum empty peers))
      (increasing_ext (sorted (keys s.peers)) (sorted (keys t.peers))
        (sorted-IsIncreasing (keys s.peers) (keys-IsDistinct s.peers v))
        (sorted-IsIncreasing (keys t.peers) (keys-IsDistinct t.peers w)) same_members)
