-- ===== src/Memblock/Separated.antt =====
-- What a table of regions keeps: the live regions are not empty, in order, and do not touch.
use xc.Common.{
  ℕ, zero, suc, ◌+◌, ◌-◌, ◌≤◌, ◌<◌, ◌≡◌, refl, sym, ap, subst, ◌∙◌, lt→ltb, inl, inr, ◌⊎◌, arith,
  ◌&&◌, ltb, leb, ◌==◌, if◌then◌else◌, Bool-cases, Array, update, total, total_zero, u64_mod,
}
use xc.Memblock.{Region, Table, empty_region, shift_down, memblock_remove_region}
use xc.Memblock.Shift.{without, with_cell, total_ext, total-without, shift_down_cell}

-- Regions are half open.
abbrev pub hit : ℕ → Region → ℕ
hit p r = if leb r.base p && ltb p (r.base + r.size) then 1 else 0

-- How many live regions hold the address `p`.
abbrev pub covers : Table → ℕ → ℕ
covers type p = total (hit p) type.cnt type.regions

pub record IsSeparated (a : Array Region) (n : ℕ) : Type 0 where
  pub filled : (k : ℕ) → k < n → 0 < (a k).size
  pub fits : (k : ℕ) → k < n → (a k).base + (a k).size < u64_mod
  pub apart : (j k : ℕ) → j < k → k < n → (a j).base + (a j).size < (a k).base

-- A table with no region has one live slot, of size 0.
abbrev pub IsBlank : Table → Type 0
IsBlank type = (type.cnt ≡ 1) × ((type.regions 0).size ≡ 0)

abbrev pub IsTable : Table → Type 0
IsTable type = IsBlank type ⊎ ((0 < type.cnt) × IsSeparated type.regions type.cnt)

without_below : (a : Array Region) (r k : ℕ) → k < r → without a r k ≡ a k
without_below a r k h = rw (lt→ltb k r h)

pub IsSeparated-ext :
    (a b : Array Region) (n : ℕ) → ((k : ℕ) → k < n → b k ≡ a k) → IsSeparated a n → IsSeparated b n
IsSeparated-ext a b n same v = record {
  filled = λ k p. rw (same k p) (v.filled k p);
  fits = λ k p. rw (same k p) (v.fits k p);
  apart = λ j k p q. rw (same k q, same j (omega arith)) (v.apart j k p q);
}

pub without-IsSeparated :
    (a : Array Region) (n r : ℕ) → r ≤ n → IsSeparated a (suc n) → IsSeparated (without a r) n
without-IsSeparated a n r h v = record {
  filled = λ k p. ground (arith, v.filled k, v.filled (k + 1));
  fits = λ k p. ground (arith, v.fits k, v.fits (k + 1));
  apart = λ j k p q. ground (arith, v.apart j k, v.apart j (k + 1), v.apart (j + 1) (k + 1));
}

-- A region put between its neighbours.
pub with_cell-IsSeparated :
    (a : Array Region) (n q : ℕ) (v : Region)
    → q ≤ n
    → IsSeparated a n
    → 0 < v.size
    → v.base + v.size < u64_mod
    → ((k : ℕ) → k < q → (a k).base + (a k).size < v.base)
    → ((k : ℕ) → q ≤ k → k < n → v.base + v.size < (a k).base)
    → IsSeparated (with_cell a q v) (suc n)
with_cell-IsSeparated a n q v h s pos fit below above = record {
  filled = λ k p. ground (arith, s.filled k, s.filled (k - 1));
  fits = λ k p. ground (arith, s.fits k, s.fits (k - 1));
  apart = λ j k p r. ground (
    arith,
    s.apart j k,
    s.apart j (k - 1),
    s.apart (j - 1) (k - 1),
    below j,
    above (k - 1),
    s.filled (k - 1),
  );
}

-- No address lies in two regions.
pub covers-le-one : (p n : ℕ) (a : Array Region) → IsSeparated a n → total (hit p) n a ≤ 1
unfolding total
covers-le-one p zero a v = omega arith
covers-le-one p (suc n) a v =
    let shorter : IsSeparated a n = record {
      filled = λ k q. v.filled k (omega arith);
      fits = λ k q. v.fits k (omega arith);
      apart = λ j k q r. v.apart j k q (omega arith);
    } in
    elim (Bool-cases (hit p (a n) == 1)) [
      | inl e ↦
          let none : total (hit p) n a ≡ 0 =
            total_zero (hit p) n a (λ k q. ground (arith, v.apart k n)) in
          ground (arith, none)
      | inr e ↦ ground (arith, covers-le-one p n a shorter)
    ]

module _ (type : Table) (r : ℕ) (inside : r < type.cnt) where
  removed_cell :
      (k : ℕ)
      → k < type.cnt - 1
      → shift_down (type.cnt - 1 - r) r type.regions k ≡ without type.regions r k
  removed_cell k h = ground (arith, shift_down_cell (type.cnt - 1 - r) r type.regions k)

  abbrev moved : Array Region
  moved = shift_down (type.cnt - 1 - r) r type.regions

  -- The last region leaves a blank table, any other a table with one region less.
  remove_cases :
      ((type.cnt ≡ 1)
        × (memblock_remove_region type r
            ≡ record type { cnt = 1; regions = update moved 0 empty_region }))
      ⊎ ((1 < type.cnt)
          × (memblock_remove_region type r ≡ record type { cnt = type.cnt - 1; regions = moved }))
  unfolding memblock_remove_region
  remove_cases = elim (Bool-cases (type.cnt - 1 == 0)) [
    | inl e ↦ inl (ground arith, rw e)
    | inr e ↦ inr (ground arith, rw e)
  ]

  more : type.cnt ≡ suc (type.cnt - 1)
  more = omega arith

  covers-without :
      (p : ℕ) → total (hit p) (type.cnt - 1) moved + hit p (type.regions r) ≡ covers type p
  covers-without p = omega (
    arith,
    total_ext (hit p) (type.cnt - 1) moved (without type.regions r) removed_cell,
    total-without (hit p) (type.cnt - 1) r type.regions (omega arith),
    ap (λ n. total (hit p) n type.regions) more,
  )

  pub covers-remove :
      (p : ℕ) → covers (memblock_remove_region type r) p + hit p (type.regions r) ≡ covers type p
  unfolding total
  covers-remove p = elim remove_cases [
    | inl (c, e) ↦
        subst (λ t. covers t p + hit p (type.regions r) ≡ covers type p) (sym e)
          (ground (arith, covers-without p))
    | inr (c, e) ↦
        subst (λ t. covers t p + hit p (type.regions r) ≡ covers type p) (sym e) (covers-without p)
  ]

  pub remove-IsTable : IsSeparated type.regions type.cnt → IsTable (memblock_remove_region type r)
  remove-IsTable v = elim remove_cases [
    | inl (c, e) ↦ subst IsTable (sym e) (inl (refl, refl))
    | inr (c, e) ↦ subst IsTable (sym e) (
        inr (
          omega arith,
          IsSeparated-ext (without type.regions r) moved (type.cnt - 1) removed_cell (
              without-IsSeparated type.regions (type.cnt - 1) r (omega arith)
                (subst (IsSeparated type.regions) more v)),
        ))
  ]

  pub remove_max : (memblock_remove_region type r).max ≡ type.max
  remove_max = elim remove_cases [ inl (c, e) ↦ ap (λ t. t.max) e | inr (c, e) ↦ ap (λ t. t.max) e ]

  pub remove_cnt :
      IsBlank (memblock_remove_region type r) × (type.cnt ≡ 1)
      ⊎ ((memblock_remove_region type r).cnt ≡ type.cnt - 1) × (1 < type.cnt)
  remove_cnt = elim remove_cases [
    | inl (c, e) ↦ inl (subst IsBlank (sym e) (refl, refl), c)
    | inr (c, e) ↦ inr (ap (λ t. t.cnt) e, c)
  ]

  -- The regions before the one removed stay where they are.
  pub remove_below : (k : ℕ) → k < r → (memblock_remove_region type r).regions k ≡ type.regions k
  remove_below k h = elim remove_cases [
    | inl (c, e) ↦ absurd (omega arith)
    | inr (c, e) ↦
        ap (λ t. t.regions k) e ∙ removed_cell k (omega arith) ∙ without_below type.regions r k h
  ]
