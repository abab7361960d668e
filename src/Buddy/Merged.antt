-- ===== src/Buddy/Merged.antt =====
-- `__free_one_page`: the free blocks that are buddies of each other.
use xc.Common.{
  ℕ, zero, suc, ◌+◌, ◌-◌, ◌^◌, ◌≤◌, ◌<◌, ◌≡◌, ◌≢◌, inl, inr, arith, false, Bool-cases, ◌==◌, ==_iff,
}
use xc.Common.Bits.{pow_pos}
use xc.Buddy.{
  Zone, max_order, migrate_types, page_compound, rmv_page_order, set_page_order, list_del, list_add,
  list_add_tail, page_is_buddy, buddy_of, combined_of, merge, higher_buddy_free, put_block,
  free_block, free_one_page,
}
use xc.Buddy.Index.{buddy-IsPair, buddy_of-buddy_of}
use xc.Buddy.Consistent.{marked, removed}
use xc.Buddy.ZoneState.{block_hit, free_at, IsZone, free_one_page_lem}

-- No free block below the highest order has a buddy, in its zone, that is free as a block of that order.
abbrev pub IsMerged : Zone → Type 0
IsMerged z =
    (o q : ℕ) → o + 1 < max_order → marked z o q ≡ 1 → page_is_buddy z q (buddy_of q o) o ≡ false

removed-IsMerged : (z : Zone) (b order : ℕ) → IsMerged z → IsMerged (removed z b order)
unfolding rmv_page_order list_del page_is_buddy
removed-IsMerged z b order v o q h m = ground (arith, m, v o q h)

-- The loop stops at the highest order, or at a block whose buddy is not free.
abbrev IsStopped : Zone × ℕ × ℕ → Type 0
IsStopped (z, p, order) =
    IsMerged z
    × (order < max_order)
    × (order + 1 < max_order → page_is_buddy z p (buddy_of p order) order ≡ false)

merge-IsStopped :
    (n : ℕ) (z : Zone) (p order : ℕ)
    → order + n + 1 ≡ max_order
    → IsMerged z
    → IsStopped (merge n z p order)
unfolding merge
merge-IsStopped zero z p order e v = (v, omega arith, λ h. absurd (omega arith))
merge-IsStopped (suc n) z p order e v =
    let b = buddy_of p order in
    elim (Bool-cases (page_is_buddy z p b order)) [
      | inr no_buddy ↦ rw no_buddy (v, omega arith, λ h. no_buddy)
      | inl is_buddy ↦ rw is_buddy (
          merge-IsStopped n (removed z b order) (combined_of p order) (order + 1) (omega arith)
            (removed-IsMerged z b order v))
    ]

buddy_ne : (p order : ℕ) → order < max_order → buddy_of p order ≢ p
buddy_ne p order h e = absurd (ground (arith, buddy-IsPair p order h, pow_pos order))

-- Marking a block whose buddy is not free.
set-IsMerged :
    (z : Zone) (p order : ℕ) → IsStopped (z, p, order) → IsMerged (set_page_order z p order)
unfolding set_page_order page_is_buddy
set-IsMerged z p order (v, h, stopped) o q k m = elim (Bool-cases (q == p)) [
  | inl here ↦
      let here' : q ≡ p = (==_iff q p).0 here in
      let same_order : o ≡ order = ground (arith, m, here) in
      rw (here', same_order)
        (ground (arith, stopped (omega (arith, same_order)), buddy_ne p order h))
  | inr there ↦ elim (Bool-cases (buddy_of q o == p)) [
    | inl hit ↦
        let back = buddy_of-buddy_of q o (omega arith) in
        let hit' : buddy_of q o ≡ p = (==_iff _ _).0 hit in
        elim (Bool-cases (o == order)) [
          | inl e ↦
              let e' : o ≡ order = (==_iff o order).0 e in
              let at : buddy_of p order ≡ q = rw (hit', e') at back in
              let free = rw at at (stopped (omega arith)) in
              rw hit' (ground (arith, m, there, free))
          | inr e ↦ rw hit' (ground (arith, e))
        ]
    | inr miss ↦ ground (arith, m, there, miss, v o q k)
  ]
]

put_block-IsMerged :
    (z : Zone) (p order t : ℕ) → IsStopped (z, p, order) → IsMerged (put_block z p order t)
unfolding put_block list_add list_add_tail page_is_buddy
put_block-IsMerged z p order t v =
    let w = set-IsMerged z p order v in
    elim (Bool-cases (higher_buddy_free (set_page_order z p order) p order)) [
      | inl tail ↦ rw tail w
      | inr no_tail ↦ rw no_tail w
    ]

free_block-IsMerged :
    (z : Zone) (p order t : ℕ) → order < max_order → IsMerged z → IsMerged (free_block z p order t)
unfolding free_block
free_block-IsMerged z p order t h v =
    let (z', p', order') = merge (max_order - 1 - order) z p order in
    put_block-IsMerged z' p' order' t
      (merge-IsStopped (max_order - 1 - order) z p order (omega arith) v)

-- On a zone in order in which no two free blocks of one order below the highest are buddies, with the same
-- zone id: `__free_one_page` of a block of any order and migrate type, whose pages are all in use and that is
-- no compound page, makes the pages of the block free, and all others stay as they were; lists, marks and
-- counters still agree, and still no page is in two free blocks; and again no two free blocks of one order
-- below the highest, with the same zone id, are buddies.
pub free_one_page-IsMerged :
    (z : Zone) (p order t : ℕ)
    → IsZone z
    → IsMerged z
    → order < max_order
    → t < migrate_types
    → page_compound (z.page p) ≡ false
    → ((q : ℕ) → p ≤ q → q < p + 2 ^ order → free_at z q ≡ 0)
    → let z' = free_one_page z p order t in
      IsZone z' × ((q : ℕ) → free_at z' q ≡ free_at z q + block_hit q order p) × IsMerged z'
unfolding free_one_page
free_one_page-IsMerged z p order t v w h k single used =
    let (v', freed) = free_one_page_lem z p order t v h k single used in
    (v', freed, rw single (free_block-IsMerged z p order t h w))
