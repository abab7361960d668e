-- ===== src/Fallback/Out.antt =====
-- The block that `__rmqueue_fallback` takes leaves the free pages, and no other page does.
use xc.Common.{
  ℕ, ◌+◌, ◌-◌, ◌≤◌, ◌<◌, ◌≡◌, refl, ap, ◌∙◌, inl, inr, arith, List, ◌∷◌, Bool-cases, ◌==◌, ◌&&◌,
  if◌then◌else◌,
}
use xc.Buddy.{Zone, max_order, migrate_types, rmv_page_order, list_del, expand, take_block}
use xc.Buddy.ZoneState.{block_hit, block_hit-IsAdditive, free_at, IsZone}
use xc.Buddy.Alloc.{first-marked, take_block_total, take_block-IsZone}
use xc.Buddy.Consistent.{marked}
use xc.Fallback.{Area, move_freepages_block, takes_pageblock, take_fallback}
use xc.Fallback.Moved.{
  SameOrders, SameOrders-refl, SameOrders-held, SameOrders-IsConsistent,
  move_freepages_block-SameOrders, move_freepages_block-dec,
}

SameOrders-IsZone : (z z' : Zone) → SameOrders z z' → IsZone z → IsZone z'
SameOrders-IsZone z z' same v = record {
  consistent = SameOrders-IsConsistent z z' same v.consistent;
  disjoint = λ q. omega (arith, SameOrders-held z z' (block_hit q) same, v.disjoint q);
}

-- The zone's blocks when the block is taken off its list, after a move of the page block's pages.
abbrev after_move : Area → ℕ → ℕ → ℕ → Zone
after_move a p current_order t =
    if takes_pageblock a current_order t then (move_freepages_block a a.zone p t).1 else a.zone

take_fallback-zone :
    (a : Area) (p order current_order t migratetype : ℕ)
    → (take_fallback a p order current_order t migratetype).zone
      ≡ take_block
          (after_move a p current_order t)
          p
          order
          current_order
          (if takes_pageblock a current_order t then t else migratetype)
unfolding take_fallback take_block rmv_page_order list_del
take_fallback-zone a p order current_order t migratetype =
    let dec = ap (λ r. r.1) (move_freepages_block-dec t a a.zone p current_order) in
    elim (Bool-cases (takes_pageblock a current_order t)) [
      | inl e ↦ rw e (
          ap
            (λ z.
              expand (current_order - order) (rmv_page_order (list_del z p current_order) p) p order
                t)
            dec)
      | inr e ↦ rw e refl
    ]

-- A block of 2 ^ order free pages has left the free pages.
abbrev pub IsOut : Area → ℕ → ℕ → Area → Type 0
IsOut a order p a' =
    IsZone a'.zone × ((q : ℕ) → free_at a'.zone q + block_hit q order p ≡ free_at a.zone q)

module _ (a : Area) (v : IsZone a.zone) (order t : ℕ) (k : t < migrate_types) where
  after_move-SameOrders : (p current_order : ℕ) → SameOrders a.zone (after_move a p current_order t)
  after_move-SameOrders p current_order = elim (Bool-cases (takes_pageblock a current_order t)) [
    | inl e ↦ rw e (move_freepages_block-SameOrders t a a.zone p k v.consistent)
    | inr e ↦ rw e (SameOrders-refl a.zone)
  ]

  pub take_fallback-IsOut :
      (p current_order migratetype : ℕ) (rest : List ℕ)
      → current_order < max_order
      → order ≤ current_order
      → migratetype < migrate_types
      → a.zone.free_list current_order migratetype ≡ p ∷ rest
      → IsOut a order p (take_fallback a p order current_order t migratetype)
  take_fallback-IsOut p current_order migratetype rest h le l first =
      let z' = after_move a p current_order t in
      let same = after_move-SameOrders p current_order in
      let w = SameOrders-IsZone a.zone z' same v in
      let m : marked z' current_order p ≡ 1 =
        ap (λ g. if (g p).buddy && (g p).private == current_order then 1 else 0) same.pages
        ∙ first-marked a.zone current_order migratetype p rest v.consistent h l first in
      let t' = if takes_pageblock a current_order t then t else migratetype in
      let k' : t' < migrate_types = ground arith in
      rw (take_fallback-zone a p order current_order t migratetype) (
        take_block-IsZone z' w p order current_order t' h k' le m,
        λ q.
            (take_block_total z' w p order current_order t' h k' le m (block_hit q)
              (block_hit-IsAdditive q)).1
            ∙ SameOrders-held a.zone z' (block_hit q) same,
      )
