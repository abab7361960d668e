-- ===== src/Watermark/Enough.antt =====
-- What the watermark promises, on numbers that do not wrap around.
use xc.Common.{
  ℕ, zero, suc, ◌+◌, ◌-◌, ◌*◌, ◌/◌, ◌^◌, ◌≤◌, ◌<◌, ◌≡◌, ◌↔◌, refl, inl, inr, arith, true, false,
  Bool-cases, leb, ◌==◌, ==_iff, if◌then◌else◌, Array, sum_to, total, long_add, long_sub,
  long_sub_exact, long_add_exact,
}
use native.Mathlib.Nat.{pow-suc, div-div-eq-div-mul}
use xc.Watermark.{
  AllocFlags, long_sign, long_le, long_div, long_half, watermark_min, watermark_loop,
  zone_watermark_ok,
}

-- The free pages in the blocks of the orders below `o`.
abbrev pub in_small : Array ℕ → ℕ → ℕ
in_small nr_free o = sum_to o (λ i. nr_free i * 2 ^ i)

-- The watermark, as the flags lower it.
abbrev pub lowered : ℕ → AllocFlags → ℕ
lowered mark flags =
    let min = if flags.high then mark - mark / 2 else mark in
    if flags.harder then min - min / 4 else min

pub lowered-le : (mark : ℕ) (flags : AllocFlags) → lowered mark flags ≤ mark
lowered-le mark flags = ground arith

watermark_min-lowered :
    (mark : ℕ) (flags : AllocFlags)
    → mark < long_sign
    → watermark_min mark flags ≡ lowered mark flags
unfolding watermark_min long_sub long_div
watermark_min-lowered mark flags h = elim (Bool-cases (flags.high)) [
  | inl e ↦ elim (Bool-cases (flags.harder)) [
    | inl q ↦ rw (e, q) (ground arith)
    | inr q ↦ rw (e, q) (ground arith)
  ]
  | inr e ↦ elim (Bool-cases (flags.harder)) [
    | inl q ↦ rw (e, q) (ground arith)
    | inr q ↦ rw (e, q) (ground arith)
  ]
]

-- One round of the loop, on numbers that stand for themselves.
round_le :
    (free block min : ℕ)
    → free < long_sign
    → block < long_sign
    → min < long_sign
    → long_le (long_sub free block) (long_half min) ≡ leb free (block + min / 2)
unfolding long_le long_sub long_half
round_le free block min h k l = ground arith

round_sub :
    (free block min : ℕ)
    → free < long_sign
    → leb free (block + min / 2) ≡ false
    → long_sub free block ≡ free - block
unfolding long_sub
round_sub free block min h e = ground (arith, e)

round_half : (min : ℕ) → min < long_sign → long_half min ≡ min / 2
unfolding long_half
round_half min h = ground arith

-- Without the blocks of the orders up to `i`, more is left than the watermark halved for each of them.
abbrev pub LeavesEnough : Array ℕ → ℕ → ℕ → ℕ → Type 0
LeavesEnough nr_free free min i = in_small nr_free (suc i) + min / 2 ^ suc i < free

module _ (nr_free : Array ℕ) (free min order : ℕ) (h : free < long_sign) (k : min < long_sign)
    (small : (o : ℕ) → o < order → nr_free o * 2 ^ o < long_sign) where
  min_halved : (o : ℕ) → min / 2 ^ o / 2 ≡ min / 2 ^ suc o
  min_halved o = rw (pow-suc 2 o) (div-div-eq-div-mul min (2 ^ o) 2)

  min_below : (o : ℕ) → min / 2 ^ o < long_sign
  min_below zero = omega (arith, k)
  min_below (suc o) = omega (arith, min_halved o, min_below o)

  pub watermark_loop_iff :
      (n o : ℕ)
      → o + n ≡ order
      → in_small nr_free o ≤ free
      → (watermark_loop n o nr_free (free - in_small nr_free o) (min / 2 ^ o) ≡ true)
        ↔ ((i : ℕ) → o ≤ i → i < order → LeavesEnough nr_free free min i)
  unfolding watermark_loop total
  watermark_loop_iff zero o e le = (λ t i p q. absurd (omega arith), λ all. refl)
  watermark_loop_iff (suc n) o e le =
      let left = free - in_small nr_free o in
      let block = nr_free o * 2 ^ o in
      let below = small o (omega arith) in
      elim (Bool-cases (leb left (block + min / 2 ^ o / 2))) [
        | inl short ↦
            rw (round_le left block (min / 2 ^ o) (omega arith) below (min_below o), short)
              (
                λ t. absurd (ground (arith, t)),
                λ all.
                    absurd (ground (arith, short, min_halved o, all o (omega arith) (omega arith))),
              )
        | inr more ↦
            let (there, back) =
              watermark_loop_iff n (suc o) (omega (arith, e)) (ground (arith, more)) in
            let rest : free - in_small nr_free o - block ≡ free - in_small nr_free (suc o) =
              omega arith in
            rw
              (
                round_le left block (min / 2 ^ o) (omega arith) below (min_below o),
                more,
                round_sub left block (min / 2 ^ o) (omega arith) more,
                round_half (min / 2 ^ o) (min_below o),
                min_halved o,
                rest,
              )
              (
                λ t i p q. elim (Bool-cases (i == o)) [
                  | inl same ↦
                      let same' : i ≡ o = (==_iff _ _).0 same in
                      rw same' (ground (arith, more, min_halved o))
                  | inr up ↦ there t i (ground (arith, up)) q
                ],
                λ all. back (λ i p q. all i (omega arith) q),
              )
      ]

  watermark_start :
      (watermark_loop order 0 nr_free free min ≡ true)
      ↔ ((i : ℕ) → 0 ≤ i → i < order → LeavesEnough nr_free free min i)
  unfolding total
  watermark_start =
      let all_free : free - in_small nr_free 0 ≡ free = omega arith in
      let whole : min / 2 ^ 0 ≡ min = omega arith in
      rw (all_free, whole) at (watermark_loop_iff order 0 (omega arith) (omega arith))

-- Where the sum of the watermark and the reserve, the free pages and the pages of each order are below
-- 2 ^ 31, and there are more free pages than 2 ^ order, `__zone_watermark_ok` says yes exactly when the
-- pages that a block of 2 ^ order and one page more leave are more than the lowered watermark with the
-- reserve; and also more than the lowered watermark halved i + 1 times without the blocks of the orders up
-- to i, for each i below the order.
pub zone_watermark_ok_iff :
    (nr_free : Array ℕ) (reserve order mark : ℕ) (flags : AllocFlags) (free : ℕ)
    → mark + reserve < long_sign
    → free < long_sign
    → 2 ^ order < free
    → ((o : ℕ) → o < order → nr_free o * 2 ^ o < long_sign)
    → (zone_watermark_ok nr_free reserve order mark flags free ≡ true) ↔ (
        (2 ^ order + 1 + lowered mark flags + reserve < free)
        × ((i : ℕ)
            → i < order
            → 2 ^ order + 1 + in_small nr_free (suc i) + lowered mark flags / 2 ^ suc i < free))
unfolding zone_watermark_ok
zone_watermark_ok_iff nr_free reserve order mark flags free h k l small =
    let min = lowered mark flags in
    let left = free - (2 ^ order + 1) in
    let lower = lowered-le mark flags in
    let (there, back) =
      watermark_start nr_free left min order (omega (arith, k)) (omega (arith, h)) small in
    rw
      (
        watermark_min-lowered mark flags (omega (arith, h)),
        long_sub_exact free (2 ^ order + 1) (omega (arith, k)) (omega (arith, l)),
        long_add_exact min reserve (omega (arith, h)),
      )
      (elim (Bool-cases (leb left (min + reserve))) [
        | inl short ↦
            rw short (λ t. absurd (ground (arith, t)), λ all. absurd (ground (arith, short, all.0)))
        | inr more ↦ rw more (
          λ t. (
            ground (arith, more),
            λ i p. let more' = there t i (omega arith) p in omega (arith, more'),
          ),
          λ all. (back (λ i q p. omega (arith, all.1 i p))),
        )
      ])

-- With one free page or none, a single page is granted, whatever the watermark and the reserve, of a sum
-- below 2 ^ 31: the negative number of pages left is compared as an unsigned one.
pub zone_watermark_ok-scarce :
    (nr_free : Array ℕ) (reserve mark : ℕ) (flags : AllocFlags) (free : ℕ)
    → mark + reserve < long_sign
    → free ≤ 1
    → zone_watermark_ok nr_free reserve 0 mark flags free ≡ true
unfolding zone_watermark_ok long_sub long_add watermark_loop
zone_watermark_ok-scarce nr_free reserve mark flags free h k =
    let min = lowered-le mark flags in
    rw (watermark_min-lowered mark flags (omega arith)) (ground (arith, min))
