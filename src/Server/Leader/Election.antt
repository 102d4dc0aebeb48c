-- ===== src/Server/Leader/Election.antt =====
-- server/leader.go: the leader that `handleMembershipChange` computes.
use t.Prelude.{
  ℕ, ◌-◌, ◌^◌, ◌≤◌, ◌<◌, ◌≡◌, refl, sym, ◌∙◌, ◌⊎◌, inl, inr, List, [], ◌∷◌, ◌++◌, All, ltb,
  if◌then◌else◌, true, ◌||◌, contains, arith,
}
use t.Bytes.{IsU64}
use t.Server.Leader.{lowest_from, lowest, view}

-- The result is the starting value or stands in the list, and nothing is below it.
lowest_from-contains :
    (low : ℕ) (peers : List ℕ)
    → (lowest_from low peers ≡ low) ⊎ (contains peers (lowest_from low peers) ≡ true)
unfolding lowest_from
lowest_from-contains low [] = inl refl
lowest_from-contains low (peer ∷ peers) =
    ground (arith, lowest_from-contains (if ltb peer low then peer else low) peers)

lowest_from-le : (low : ℕ) (peers : List ℕ) → lowest_from low peers ≤ low
unfolding lowest_from
lowest_from-le low [] = omega arith
lowest_from-le low (peer ∷ peers) =
    ground (arith, lowest_from-le (if ltb peer low then peer else low) peers)

lowest_from-le_contained :
    (low : ℕ) (peers : List ℕ) (k : ℕ) → contains peers k ≡ true → lowest_from low peers ≤ k
unfolding lowest_from
lowest_from-le_contained low [] k h = ground arith
lowest_from-le_contained low (peer ∷ peers) k h = ground (
  arith,
  lowest_from-le (if ltb peer low then peer else low) peers,
  lowest_from-le_contained (if ltb peer low then peer else low) peers k,
)

contains-lt :
    (b : ℕ) (peers : List ℕ) (k : ℕ) → All (λ j. j < b) peers → contains peers k ≡ true → k < b
contains-lt b [] k all h = ground arith
contains-lt b (peer ∷ peers) k (lt, all) h = ground (arith, contains-lt b peers k)

contains-append :
    (js ks : List ℕ) (k : ℕ) → contains (js ++ ks) k ≡ (contains js k || contains ks k)
contains-append [] ks k = refl
contains-append (j ∷ js) ks k = ground (arith, contains-append js ks k)

self-contains : (self : ℕ) (snapshot : List ℕ) → contains (view self snapshot) self ≡ true
self-contains self snapshot = rw (contains-append snapshot (self ∷ []) self) (ground arith)

-- Among identifiers of 64 bits the leader that a node computes is in its view, and no identifier
-- in its view is lower.
pub lowest_lem :
    (self : ℕ) (snapshot : List ℕ)
    → All IsU64 (view self snapshot)
    → (contains (view self snapshot) (lowest (view self snapshot)) ≡ true)
      × ((k : ℕ) → contains (view self snapshot) k ≡ true → lowest (view self snapshot) ≤ k)
unfolding lowest
lowest_lem self snapshot all =
    let peers = view self snapshot in
    let there = self-contains self snapshot in
    (
      elim (lowest_from-contains (2 ^ 64 - 1) peers) [
        | inl top ↦
            let e : lowest_from (2 ^ 64 - 1) peers ≡ self = omega (
              arith,
              top,
              lowest_from-le_contained (2 ^ 64 - 1) peers self there,
              contains-lt (2 ^ 64) peers self all there,
            ) in
            rw e there
        | inr found ↦ found
      ],
      λ k h. lowest_from-le_contained (2 ^ 64 - 1) peers k h,
    )

-- Two nodes whose views have the same identifiers, of 64 bits each, compute the same leader.
pub lowest_agree :
    (a b : ℕ) (as' bs : List ℕ)
    → All IsU64 (view a as')
    → All IsU64 (view b bs)
    → ((k : ℕ) → contains (view a as') k ≡ contains (view b bs) k)
    → lowest (view a as') ≡ lowest (view b bs)
lowest_agree a b as' bs fa fb same =
    let (ia, la) = lowest_lem a as' fa in
    let (ib, lb) = lowest_lem b bs fb in
    omega (
      arith,
      la (lowest (view b bs)) (same (lowest (view b bs)) ∙ ib),
      lb (lowest (view a as')) (sym (same (lowest (view a as'))) ∙ ia),
    )
