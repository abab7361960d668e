-- ===== src/Buddy/ZoneState.antt =====
-- What a zone's free lists mean: which pages are free, and how many.
use xc.Common.{
  ℕ, ◌+◌, ◌^◌, ◌≤◌, ◌<◌, ◌≡◌, inl, inr, arith, false, ◌&&◌, leb, ltb, if◌then◌else◌, Bool-cases,
}
use native.Mathlib.Nat.{pow-suc}
use xc.Common.Bits.{pow_pos}
use xc.Buddy.{Zone, max_order, migrate_types, page_compound, free_one_page, free_block}
use xc.Buddy.Lists.{held}
use xc.Buddy.Consistent.{marked, IsConsistent}
use xc.Buddy.Free.{IsAdditive, held-removed, free_block_total}

abbrev pub block_hit : ℕ → ℕ → ℕ → ℕ
block_hit q order p = if leb p q && ltb q (p + 2 ^ order) then 1 else 0

pub block_hit-IsAdditive : (q : ℕ) → IsAdditive (block_hit q)
block_hit-IsAdditive q order p = ground (arith, pow-suc 2 order, pow_pos order)

-- How many free blocks hold the page `q`.
abbrev pub free_at : Zone → ℕ → ℕ
free_at z q = held (block_hit q) z

abbrev pub block_size : ℕ → ℕ → ℕ
block_size order p = 2 ^ order

pub block_size-IsAdditive : IsAdditive block_size
block_size-IsAdditive order p = omega (arith, pow-suc 2 order)

-- Lists, marks and counters agree, and no page is in two free blocks.
pub record IsZone (z : Zone) : Type 0 where
  pub consistent : IsConsistent z
  pub disjoint : (q : ℕ) → free_at z q ≤ 1

-- A page that is marked is free.
pub marked-free :
    (z : Zone) (o p q : ℕ)
    → IsConsistent z
    → o < max_order
    → marked z o p ≡ 1
    → block_hit q o p ≤ free_at z q
marked-free z o p q v h m =
    omega (arith, held-removed (block_hit q) (block_hit-IsAdditive q) z p o v h m)

pub unmarked_of_taken :
    (z : Zone) (p : ℕ) → IsConsistent z → free_at z p ≡ 0 → (z.page p).buddy ≡ false
unmarked_of_taken z p v none = elim (Bool-cases ((z.page p).buddy)) [
  | inr e ↦ e
  | inl e ↦
      let o = (z.page p).private in
      let h = v.ordered p e in
      let m : marked z o p ≡ 1 = ground (arith, e) in
      absurd (ground (arith, none, pow_pos o, marked-free z o p p v h m))
]

-- What follows the test for compound pages.
pub block_freed :
    (z : Zone) (p order t : ℕ)
    → IsZone z
    → order < max_order
    → t < migrate_types
    → ((q : ℕ) → p ≤ q → q < p + 2 ^ order → free_at z q ≡ 0)
    → let z' = free_block z p order t in
      IsZone z' × ((q : ℕ) → free_at z' q ≡ free_at z q + block_hit q order p)
block_freed z p order t v h k used =
    let unmarked =
      unmarked_of_taken z p v.consistent (used p (omega arith) (omega (arith, pow_pos order))) in
    let freed = λ (q : ℕ).
      free_block_total (block_hit q) (block_hit-IsAdditive q) z p order t v.consistent h k
        unmarked in
    (
      record {
        consistent = (freed 0).0;
        disjoint = λ q. ground (arith, (freed q).1, v.disjoint q, used q);
      },
      λ q. (freed q).1,
    )

-- On a zone in order, `__free_one_page` of a block of any order and migrate type, whose pages are all
-- in use and that is no compound page: the pages of the block become free and all others stay as they
-- were; lists, marks and counters still agree, and still no page is in two free blocks.
pub free_one_page_lem :
    (z : Zone) (p order t : ℕ)
    → IsZone z
    → order < max_order
    → t < migrate_types
    → page_compound (z.page p) ≡ false
    → ((q : ℕ) → p ≤ q → q < p + 2 ^ order → free_at z q ≡ 0)
    → let z' = free_one_page z p order t in
      IsZone z' × ((q : ℕ) → free_at z' q ≡ free_at z q + block_hit q order p)
unfolding free_one_page
free_one_page_lem z p order t v h k single used = rw single (block_freed z p order t v h k used)
