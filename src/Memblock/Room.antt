-- ===== src/Memblock/Room.antt =====
-- A table never gets more regions than it has slots.
use xc.Common.{
  ℕ, zero, suc, ◌+◌, ◌-◌, ◌≤◌, ◌≡◌, refl, ◌⊎◌, inl, inr, arith, either_branch, branch_on, ◌&&◌,
  ◌||◌, ltb, leb, ◌==◌, update, add64, sub64,
}
use xc.Memblock.{
  Region, Table, memblock_remove_region, memblock_memory_can_coalesce, Scan, returned, ended,
  new_block, unfinished, scan, Status, insert_new, insert_ended, finish_scan, memblock_add_region,
}

module _ (slots most : ℕ) (some_slot : 1 ≤ most) where
  -- At most `most` regions, in a table of `slots` slots.
  abbrev IsRoomy : Table → Type 0
  IsRoomy type = (type.cnt ≤ most) × (type.max ≡ slots)

  abbrev ScanIsRoomy : Scan → Type 0
  ScanIsRoomy (returned type) = IsRoomy type
  ScanIsRoomy (ended type base size) = IsRoomy type
  ScanIsRoomy (new_block type base size) = IsRoomy type
  ScanIsRoomy (unfinished type) = IsRoomy type

  removed-IsRoomy : (type : Table) (r : ℕ) → IsRoomy type → IsRoomy (memblock_remove_region type r)
  unfolding memblock_remove_region
  removed-IsRoomy type r (h, e) =
      either_branch IsRoomy (type.cnt - 1 == 0) _ _ (some_slot, e) (omega (arith, h), e)

  scan-IsRoomy :
      (fuel : ℕ) (type : Table) (i end base size : ℕ)
      → IsRoomy type
      → ScanIsRoomy (scan fuel type i end base size)
  unfolding scan
  scan-IsRoomy zero type i end base size v = v
  scan-IsRoomy (suc fuel) type i end base size v =
      let rgn = type.regions i in
      let rend = add64 rgn.base rgn.size in
      let lower : Region = record { base = base; size = sub64 rend base } in
      let extended = record type { regions = update type.regions i lower } in
      either_branch ScanIsRoomy (leb type.cnt i) _ _ v (
        either_branch ScanIsRoomy (ltb end rgn.base || rgn.size == 0) _ _ v (
          either_branch ScanIsRoomy (leb rgn.base base && leb end rend) _ _ v (
            either_branch ScanIsRoomy (ltb base rgn.base && leb rgn.base end) _ _
              (either_branch ScanIsRoomy (memblock_memory_can_coalesce base size rgn.base rgn.size)
                _ _
                (either_branch ScanIsRoomy (leb end rend) _ _ v (
                  either_branch ScanIsRoomy
                    (memblock_memory_can_coalesce base (sub64 rend base) rend (sub64 end rend)) _ _
                    (scan-IsRoomy fuel (memblock_remove_region extended i) i end base _
                      (removed-IsRoomy extended i v))
                    v))
                v)
              (either_branch ScanIsRoomy (leb base rend && leb rend end) _ _
                (either_branch ScanIsRoomy
                  (memblock_memory_can_coalesce rgn.base rgn.size base size) _ _
                  (scan-IsRoomy fuel (memblock_remove_region type i) i end rgn.base _
                    (removed-IsRoomy type i v))
                  v)
                (scan-IsRoomy fuel type (suc i) end base size v)))))

  -- A call that adds a region makes room for it, or has found one.
  abbrev AddIsRoomy : Status × Table → Type 0
  AddIsRoomy (status, type) =
      (type.cnt ≤ suc most) × (type.max ≡ slots) × (type.cnt ≤ most ⊎ (type.cnt ≤ slots))

  insert_new-IsRoomy :
      (type : Table) (base size : ℕ) → IsRoomy type → AddIsRoomy (insert_new type base size)
  unfolding insert_new
  insert_new-IsRoomy type base size (h, e) =
      branch_on AddIsRoomy (leb type.max type.cnt) _ _ (λ q. (omega (arith, h), e, inl h))
        (λ q. (omega (arith, h), e, inr (ground (arith, q, e))))

  finish_scan-IsRoomy : (s : Scan) → ScanIsRoomy s → AddIsRoomy (finish_scan s)
  unfolding finish_scan insert_ended
  finish_scan-IsRoomy (returned type) (h, e) = (omega (arith, h), e, inl h)
  finish_scan-IsRoomy (new_block type base size) v = insert_new-IsRoomy type base size v
  finish_scan-IsRoomy (unfinished type) (h, e) = (omega (arith, h), e, inl h)
  finish_scan-IsRoomy (ended type base size) v =
      either_branch AddIsRoomy (type.cnt == 1 && (type.regions 0).size == 0) _ _
        (omega (arith, v.0), v.1, inl v.0) (insert_new-IsRoomy type base size v)

-- Adding a range to a table with a slot leaves it with at most one region more, and with no more regions
-- than slots, if there were not before.
pub memblock_add_region-cnt :
    (type : Table) (base size : ℕ)
    → 1 ≤ type.cnt
    → type.cnt ≤ type.max
    → ((memblock_add_region type base size).1.cnt ≤ suc type.cnt)
      × ((memblock_add_region type base size).1.cnt ≤ type.max)
unfolding memblock_add_region
memblock_add_region-cnt type base size h k =
    let s = scan (type.cnt + 2) type 0 (add64 base size) base size in
    let (grown, same, few) = finish_scan-IsRoomy type.max type.cnt h s (
      scan-IsRoomy type.max type.cnt h (type.cnt + 2) type 0 (add64 base size) base size
        (omega arith, refl)) in
    (grown, elim few [ inl e ↦ omega (arith, e, k) | inr e ↦ e ])
