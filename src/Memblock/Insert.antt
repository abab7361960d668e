-- ===== src/Memblock/Insert.antt =====
-- Inserting a region that touches none of the table's.
use xc.Common.{
  ℕ, zero, suc, ◌+◌, ◌-◌, ◌≤◌, ◌<◌, ◌≡◌, refl, sym, ap, subst, ◌∙◌, inl, inr, arith, ltb, leb, ◌==◌,
  if◌then◌else◌, ==_iff, true, false, Bool-cases, Array, update, total, u64_mod, max,
}
use xc.Memblock.{Region, Table, Status, success, failure, insert_loop, insert_new, insert_ended}
use xc.Memblock.Shift.{with_cell, total_ext, total-with_cell, insert_loop_cell, insert_loop_first}
use xc.Memblock.Separated.{
  hit, covers, IsSeparated, IsBlank, IsTable, IsSeparated-ext, with_cell-IsSeparated, covers-le-one,
}

-- What adding [base, end) to a table means: on success the result is a table that covers the old
-- addresses and the new ones; on failure the table is the old one, and it is full.
abbrev pub IsAdded : Table → ℕ → ℕ → Status × Table → Type 0
IsAdded old base end (success, type) =
    IsTable type
    × (type.max ≡ old.max)
    × ((p : ℕ)
        → covers type p ≡ max (covers old p) (hit p (record { base = base; size = end - base })))
IsAdded old base end (failure, type) = (type ≡ old) × (old.max ≤ old.cnt)

module _ (type : Table) (base size : ℕ) (pos : 0 < size) (fit : base + size < u64_mod) where
  abbrev new_region : Region
  new_region = record { base = base; size = size }

  module _ (q : ℕ) (live : 0 < type.cnt) (v : IsSeparated type.regions type.cnt)
      (q-le : q ≤ type.cnt)
      (below : (k : ℕ) → k < q → (type.regions k).base + (type.regions k).size < base)
      (above : (k : ℕ) → q ≤ k → k < type.cnt → base + size < (type.regions k).base) where
    abbrev inserted : Array Region
    inserted =
        let a = insert_loop type.cnt new_region type.regions in
        if ltb base (a 0).base then update a 0 new_region else a

    inserted_cell : (k : ℕ) → k < suc type.cnt → inserted k ≡ with_cell type.regions q new_region k
    inserted_cell zero h =
        let first = insert_loop_first type.cnt new_region type.regions in
        rw first (elim (Bool-cases (q == 0)) [
          | inl e ↦
              let up : ltb base (type.regions 0).base ≡ true = ground (arith, above 0) in
              rw up (ground arith)
          | inr e ↦
              let up : ltb base (type.regions 0).base ≡ false = ground (arith, below 0) in
              rw (up, first) (ground arith)
        ])
    inserted_cell (suc k) h =
        let cell =
          insert_loop_cell type.cnt q new_region type.regions q-le (λ m p. omega (arith, below m p))
            (λ m p r. omega (arith, above m p r)) (suc k) (omega arith) (omega arith) in
        elim (Bool-cases (ltb base (insert_loop type.cnt new_region type.regions 0).base)) [
          | inl e ↦ rw e (ground (arith, cell))
          | inr e ↦ rw e cell
        ]

    inserted-IsSeparated : IsSeparated inserted (suc type.cnt)
    inserted-IsSeparated =
        IsSeparated-ext (with_cell type.regions q new_region) inserted (suc type.cnt) inserted_cell
          (with_cell-IsSeparated type.regions type.cnt q new_region q-le v pos fit below above)

    covers-inserted :
        (p : ℕ) → total (hit p) (suc type.cnt) inserted ≡ covers type p + hit p new_region
    covers-inserted p =
        total_ext (hit p) (suc type.cnt) inserted (with_cell type.regions q new_region)
          inserted_cell
        ∙ total-with_cell (hit p) type.cnt q type.regions new_region q-le

    one_more : type.cnt + 1 ≡ suc type.cnt
    one_more = omega arith

    covers_grown :
        (p : ℕ)
        → total (hit p) (type.cnt + 1) inserted
          ≡ max (covers type p) (hit p (record { base = base; size = base + size - base }))
    covers_grown p =
        let same = ap (λ n. total (hit p) n inserted) one_more in
        let at_most_one = covers-le-one p (suc type.cnt) inserted inserted-IsSeparated in
        ground (arith, same, at_most_one, covers-inserted p)

    pub insert_new-IsAdded : IsAdded type base (base + size) (insert_new type base size)
    unfolding insert_new
    insert_new-IsAdded = elim (Bool-cases (leb type.max type.cnt)) [
      | inl e ↦ rw e (refl, ground arith)
      | inr e ↦ rw e (
        inr (omega arith, subst (IsSeparated inserted) (sym one_more) inserted-IsSeparated),
        refl,
        λ p. covers_grown p,
      )
    ]

  -- A blank table takes the region in its one slot.
  pub insert_blank-IsAdded :
      IsBlank type → IsAdded type base (base + size) (insert_ended type base size)
  unfolding insert_ended total
  insert_blank-IsAdded (one, blank) =
      let a = update type.regions 0 new_region in
      let only : IsSeparated a 1 = record {
        filled = λ k p. ground arith;
        fits = λ k p. ground arith;
        apart = λ j k p q. absurd (omega arith);
      } in
      rw ((==_iff _ _).1 one, (==_iff _ _).1 blank)
        (
          inr (omega arith, subst (IsSeparated a) (sym one) only),
          refl,
          λ p.
              ground (
                arith,
                ap (λ n. total (hit p) n a) one,
                ap (λ n. total (hit p) n type.regions) one,
              ),
        )
