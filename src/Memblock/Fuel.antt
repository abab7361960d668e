-- ===== src/Memblock/Fuel.antt =====
-- The first loop of `memblock_add_region` ends: a round moves on to the next region, or takes one out.
use xc.Common.{
  ℕ, zero, suc, ◌+◌, ◌-◌, ◌≤◌, ◌<◌, ◌≡◌, refl, inl, inr, arith, Bool, ltb, leb, ◌==◌, ◌||◌, true,
  false, Bool-cases, update, either_branch, add64, sub64, ◌&&◌,
}
use xc.Memblock.{
  Region, Table, memblock_remove_region, memblock_memory_can_coalesce, Scan, returned, ended,
  new_block, unfinished, scan,
}

unfoldable pub is_finished : Scan → Bool
is_finished (returned type) = true
is_finished (ended type base size) = true
is_finished (new_block type base size) = true
is_finished (unfinished type) = false

-- A loop that ends at region `i`, with `fuel` for its rounds.
abbrev Ends : ℕ → Type 0
Ends fuel =
    (type : Table) (i end base size : ℕ)
    → 0 < fuel
    → type.cnt + 2 ≤ i + fuel
    → is_finished (scan fuel type i end base size) ≡ true

-- After the last region was taken out, one blank region is left.
blank_finished :
    (fuel : ℕ) (type : Table) (end base size : ℕ)
    → 0 < fuel
    → (type.regions 0).size ≡ 0
    → is_finished (scan fuel type 0 end base size) ≡ true
unfolding scan is_finished
blank_finished zero type end base size some_fuel blank = absurd (omega arith)
blank_finished (suc fuel) type end base size some_fuel blank = elim (Bool-cases (leb type.cnt 0)) [
  | inl e ↦ rw e refl
  | inr e ↦
      let stop : (ltb end (type.regions 0).base || (type.regions 0).size == 0) ≡ true =
        ground arith in
      rw (e, stop) refl
]

-- A round that takes out a region leaves one region less, or a blank one.
removed_finished :
    (fuel : ℕ) (type : Table) (i end base size : ℕ)
    → Ends fuel
    → i < type.cnt
    → type.cnt + 2 ≤ i + suc fuel
    → is_finished (scan fuel (memblock_remove_region type i) i end base size) ≡ true
unfolding memblock_remove_region
removed_finished fuel type i end base size ends live h = elim (Bool-cases (type.cnt - 1 == 0)) [
  | inl e ↦
      let first : i ≡ 0 = ground arith in
      rw (e, first) (blank_finished fuel _ end base size (omega arith) refl)
  | inr e ↦ rw e (ends _ i end base size (omega arith) (ground arith))
]

-- The loop of `memblock_add_region` ends, whatever the table holds: from region `i` on it takes no more
-- than `cnt + 2 - i` rounds, and one at least.
pub scan_finished :
    (fuel : ℕ) (type : Table) (i end base size : ℕ)
    → 0 < fuel
    → type.cnt + 2 ≤ i + fuel
    → is_finished (scan fuel type i end base size) ≡ true
unfolding scan is_finished
scan_finished zero type i end base size some_fuel h = absurd (omega arith)
scan_finished (suc fuel) type i end base size some_fuel h = elim (Bool-cases (leb type.cnt i)) [
  | inl e ↦ rw e refl
  | inr e ↦
      let rgn = type.regions i in
      let rend = add64 rgn.base rgn.size in
      let lower : Region = record { base = base; size = sub64 rend base } in
      let extended = record type { regions = update type.regions i lower } in
      let live : i < type.cnt = ground arith in
      let above =
        removed_finished fuel extended i end base (add64 (sub64 end rend) (sub64 rend base))
          (scan_finished fuel) live h in
      let below =
        removed_finished fuel type i end rgn.base (add64 size (sub64 base rgn.base))
          (scan_finished fuel) live h in
      let skip = scan_finished fuel type (suc i) end base size (omega arith) (omega arith) in
      let finished = λ (r : Scan). is_finished r ≡ true in
      either_branch finished (leb type.cnt i) _ _ refl (
        either_branch finished (ltb end rgn.base || rgn.size == 0) _ _ refl (
          either_branch finished (leb rgn.base base && leb end rend) _ _ refl (
            either_branch finished (ltb base rgn.base && leb rgn.base end) _ _
              (either_branch finished (memblock_memory_can_coalesce base size rgn.base rgn.size) _ _
                (either_branch finished (leb end rend) _ _ refl (
                  either_branch finished
                    (memblock_memory_can_coalesce base (sub64 rend base) rend (sub64 end rend)) _ _
                    above refl))
                refl)
              (either_branch finished (leb base rend && leb rend end) _ _
                (either_branch finished (memblock_memory_can_coalesce rgn.base rgn.size base size) _
                  _ below refl)
                skip))))
]
