-- ===== src/Memblock/Add.antt =====
-- `memblock_add_region` keeps a table in order and adds exactly the addresses it is given.
use xc.Common.{
  ℕ, zero, suc, ◌+◌, ◌-◌, ◌≤◌, ◌<◌, ◌≡◌, refl, sym, subst, ◌∙◌, inl, inr, ◌⊎◌, arith, ◌&&◌, ◌||◌,
  ltb, leb, ◌==◌, if◌then◌else◌, ==_iff, leb-false, true, false, Bool-cases, update, total-update,
  le-total, u64_mod, max, add64, sub64, add64_exact, sub64_exact,
}
use xc.Memblock.{
  Region, Table, Status, success, failure, scan, finish_scan, insert_new, insert_ended,
  memblock_remove_region, memblock_memory_can_coalesce, memblock_add_region,
}
use xc.Memblock.Separated.{
  hit, covers, IsSeparated, IsBlank, IsTable, covers-le-one, covers-remove, remove-IsTable,
  remove_max, remove_cnt, remove_below,
}
use xc.Memblock.Insert.{IsAdded, insert_new-IsAdded, insert_blank-IsAdded}

abbrev inside : ℕ → ℕ → ℕ → ℕ
inside base end p = if leb base p && ltb p end then 1 else 0

module _ (old : Table) (base0 end : ℕ) (fit : end < u64_mod) (room_for_two : 1 < old.max) where
  -- What holds at index `i` of the loop, with [base, base + size) left to insert.
  record IsScanned (type : Table) (i base size : ℕ) : Type 0 where
    table : IsTable type
    same_max : type.max ≡ old.max
    held : type.cnt ≤ type.max
    index : i ≤ type.cnt
    pos : 0 < size
    span : base + size ≡ end
    below : (k : ℕ) → k < i → (type.regions k).base + (type.regions k).size < base
    same :
        (p : ℕ) → max (covers type p) (inside base end p) ≡ max (covers old p) (inside base0 end p)
    room : (type ≡ old) ⊎ (type.cnt < type.max)

  abbrev HasFuel : ℕ → Table → ℕ → Type 0
  HasFuel fuel type i = (0 < fuel) × (IsBlank type ⊎ (type.cnt + 2 ≤ i + fuel))

  -- What was inserted into the table at hand is what was to be inserted into the old one.
  IsAdded-old :
      (type : Table) (i base size : ℕ) (r : Status × Table)
      → IsScanned type i base size
      → IsAdded type base (base + size) r
      → IsAdded old base0 end r
  IsAdded-old type i base size (success, type') s (table, same_max, cover) =
      (table, same_max ∙ s.same_max, λ p. ground (arith, cover p, s.same p))
  IsAdded-old type i base size (failure, type') s (same, full) = elim s.room [
    | inl e ↦ (same ∙ e, subst (λ t. t.max ≤ t.cnt) e full)
    | inr more ↦ absurd (omega arith)
  ]

  insert_ended-insert_new :
      (type : Table) (base size : ℕ)
      → 0 < type.cnt
      → IsSeparated type.regions type.cnt
      → insert_ended type base size ≡ insert_new type base size
  unfolding insert_ended
  insert_ended-insert_new type base size live v =
      let used : ((type.regions 0).size == 0) ≡ false = ground (arith, v.filled 0 live) in
      elim (Bool-cases (type.cnt == 1)) [ inl e ↦ rw (e, used) | inr e ↦ rw e ]

  -- The loop ends at a region above the new one, or behind the last.
  ended-IsAdded :
      (type : Table) (i base size : ℕ)
      → IsScanned type i base size
      → (IsSeparated type.regions type.cnt
          → (k : ℕ) → i ≤ k
          → k < type.cnt
          → end < (type.regions k).base)
      → IsAdded old base0 end (insert_ended type base size)
  ended-IsAdded type i base size s above =
      IsAdded-old type i base size (insert_ended type base size) s (elim s.table [
        | inl blank ↦ insert_blank-IsAdded type base size s.pos (omega (arith, s.span)) blank
        | inr (live, v) ↦
            subst (IsAdded type base (base + size))
              (sym (insert_ended-insert_new type base size live v))
              (insert_new-IsAdded type base size s.pos (omega (arith, s.span)) i live v s.index
                s.below (λ k p q. omega (arith, s.span, above v k p q)))
      ])

  module _ (type : Table) (i base size : ℕ) (s : IsScanned type i base size) (more : i < type.cnt)
      (v : IsSeparated type.regions type.cnt) where
    abbrev rgn : Region
    rgn = type.regions i

    abbrev rend : ℕ
    rend = rgn.base + rgn.size

    abbrev extended : Table
    extended = record type {
      regions = update type.regions i (record { base = base; size = rend - base });
    }

    -- The region `i` holds all of the new one.
    returned-IsAdded : rgn.base ≤ base → end ≤ rend → IsAdded old base0 end (success, type)
    returned-IsAdded low high = (
      s.table,
      s.same_max,
      λ p. ground (
        arith,
        s.same p,
        covers-le-one p type.cnt type.regions v,
        le-total (hit p) type.cnt type.regions i more,
      ),
    )

    extended-IsSeparated : base < rgn.base → IsSeparated extended.regions type.cnt
    extended-IsSeparated low = record {
      filled = λ k p. ground (arith, v.filled k p);
      fits = λ k p. ground (arith, v.fits k p);
      apart = λ j k p q. ground (arith, v.apart j k p q, s.below j, v.filled i more);
    }

    covers-extended :
        base < rgn.base
        → (p : ℕ) → covers extended p + hit p rgn ≡ covers type p + inside base rend p
    covers-extended low p = ground (
      arith,
      total-update (hit p) type.cnt type.regions i (record { base = base; size = rend - base })
          more,
    )

    -- The region `i`, stretched down to the new one, holds all of it.
    stretched-IsAdded :
        base < rgn.base → rgn.base ≤ end → end ≤ rend → IsAdded old base0 end (success, extended)
    stretched-IsAdded low touch high = (
      inr (omega arith, extended-IsSeparated low),
      s.same_max,
      λ p. ground (
        arith,
        s.same p,
        covers-extended low p,
        covers-le-one p type.cnt type.regions v,
        covers-le-one p type.cnt extended.regions (extended-IsSeparated low),
        le-total (hit p) type.cnt type.regions i more,
      ),
    )

    -- A table `x` like this one up to `i`, with the region `i` taken out, goes on with the new region
    -- grown to hold it.
    removed-IsScanned :
        (x : Table) (base' size' : ℕ)
        → x.cnt ≡ type.cnt
        → x.max ≡ type.max
        → IsSeparated x.regions x.cnt
        → ((k : ℕ) → k < i → x.regions k ≡ type.regions k)
        → ((p : ℕ) → covers x p + hit p rgn ≡ covers type p + hit p (x.regions i))
        → base' ≡ (if ltb base rgn.base then base else rgn.base)
        → base' + size' ≡ end
        → base ≤ rend
        → rend ≤ end
        → IsScanned (memblock_remove_region x i) i base' size'
    removed-IsScanned x base' size' cnt max vx before cover low span touch high =
        let more' : i < x.cnt = omega arith in
        record {
          table = remove-IsTable x i more' vx;
          same_max = remove_max x i more' ∙ max ∙ s.same_max;
          held = ground (arith, remove_max x i more', remove_cnt x i more', s.held, s.same_max);
          index = ground (arith, remove_cnt x i more');
          pos = ground (arith, s.pos, s.span, v.filled i more);
          span = span;
          below = λ k p.
              rw (remove_below x i more' k p, before k p)
                (ground (arith, s.below k p, v.apart k i p more, v.filled k (omega arith)));
          same = λ p. ground (
            arith,
            s.same p,
            cover p,
            covers-remove x i more' p,
            s.span,
            s.pos,
            covers-le-one p type.cnt type.regions v,
            le-total (hit p) type.cnt type.regions i more,
          );
          room =
              inr (ground (arith, remove_max x i more', remove_cnt x i more', s.held, s.same_max));
        }

    removed-HasFuel :
        (fuel : ℕ) (x : Table)
        → x.cnt ≡ type.cnt
        → HasFuel (suc fuel) type i
        → HasFuel fuel (memblock_remove_region x i) i
    removed-HasFuel fuel x cnt enough =
        ground (arith, remove_cnt x i (omega arith), v.filled i more)

    absorb_above-IsScanned :
        base < rgn.base
        → rend < end
        → IsScanned
            (memblock_remove_region extended i)
            i
            base
            (add64 (sub64 end rend) (rend - base))
    absorb_above-IsScanned low high =
        removed-IsScanned extended base _ refl refl (extended-IsSeparated low) (λ k p. ground arith)
          (λ p. ground (arith, covers-extended low p)) (ground arith)
          (rw (sub64_exact end rend fit (omega arith))
            (omega (arith, add64_exact (end - rend) (rend - base) (omega arith))))
          (omega arith) (omega arith)

    absorb_below-IsScanned :
        rgn.base ≤ base
        → base ≤ rend
        → rend ≤ end
        → IsScanned (memblock_remove_region type i) i rgn.base (add64 size (sub64 base rgn.base))
    absorb_below-IsScanned low touch high =
        removed-IsScanned type rgn.base _ refl refl v (λ k p. refl) (λ p. refl) (ground arith)
          (rw (sub64_exact base rgn.base (omega (arith, s.span)) low)
            (omega (arith, s.span, add64_exact size (base - rgn.base) (omega (arith, s.span)))))
          touch high

    skip-IsScanned : rend < base → IsScanned type (suc i) base size
    skip-IsScanned gap = record {
      table = s.table;
      same_max = s.same_max;
      held = s.held;
      index = more;
      pos = s.pos;
      span = s.span;
      below = λ k p. elim (Bool-cases (k == i)) [
        | inl e ↦ let e' : k ≡ i = (==_iff k i).0 e in rw e' gap
        | inr e ↦ s.below k (ground arith)
      ];
      same = s.same;
      room = s.room;
    }

    -- One round, given what the later rounds do.
    round-IsAdded :
        (fuel : ℕ)
        → HasFuel (suc fuel) type i
        → ((t : Table) (j b z : ℕ)
            → HasFuel fuel t j
            → IsScanned t j b z
            → IsAdded old base0 end (finish_scan (scan fuel t j end b z)))
        → IsAdded old base0 end (finish_scan (scan (suc fuel) type i end base size))
    unfolding scan finish_scan memblock_memory_can_coalesce
    round-IsAdded fuel enough next =
        let in_table = leb-false type.cnt i more in
        let sum = add64_exact rgn.base rgn.size (v.fits i more) in
        elim (Bool-cases (ltb end rgn.base || rgn.size == 0)) [
          | inl e2 ↦
              rw (in_table, e2)
                (ended-IsAdded type i base size s
                  (λ w k p q. ground (arith, v.filled i more, v.apart i k)))
          | inr e2 ↦ elim (Bool-cases (leb rgn.base base && leb end rend)) [
            | inl e3 ↦ rw (in_table, sum, e2, e3) (returned-IsAdded (ground arith) (ground arith))
            | inr e3 ↦ elim (Bool-cases (ltb base rgn.base && leb rgn.base end)) [
              | inl e4 ↦ elim (Bool-cases (leb end rend)) [
                | inl e5 ↦
                    rw
                      (
                        in_table,
                        sum,
                        e2,
                        e3,
                        e4,
                        e5,
                        sub64_exact rend base (v.fits i more) (ground arith),
                      )
                      (stretched-IsAdded (ground arith) (ground arith) (ground arith))
                | inr e5 ↦
                    rw
                      (
                        in_table,
                        sum,
                        e2,
                        e3,
                        e4,
                        e5,
                        sub64_exact rend base (v.fits i more) (ground arith),
                      )
                      (next (memblock_remove_region extended i) i base _
                        (removed-HasFuel fuel extended refl enough)
                        (absorb_above-IsScanned (ground arith) (ground arith)))
              ]
              | inr e4 ↦ elim (Bool-cases (leb base rend && leb rend end)) [
                | inl e5 ↦
                    rw (in_table, sum, e2, e3, e4, e5)
                      (next (memblock_remove_region type i) i rgn.base _
                        (removed-HasFuel fuel type refl enough)
                        (absorb_below-IsScanned (ground arith) (ground arith) (ground arith)))
                | inr e5 ↦
                    rw (in_table, sum, e2, e3, e4, e5)
                      (next type (suc i) base size (ground (arith, v.filled i more))
                        (skip-IsScanned (ground arith)))
              ]
            ]
          ]
        ]

  scan-IsAdded :
      (fuel : ℕ) (type : Table) (i base size : ℕ)
      → HasFuel fuel type i
      → IsScanned type i base size
      → IsAdded old base0 end (finish_scan (scan fuel type i end base size))
  unfolding scan finish_scan
  scan-IsAdded zero type i base size enough s = absurd (omega (arith, enough.0))
  scan-IsAdded (suc fuel) type i base size enough s = elim (Bool-cases (leb type.cnt i)) [
    | inl e ↦ rw e (ended-IsAdded type i base size s (λ v k p q. absurd (ground arith)))
    | inr e ↦ elim s.table [
      | inl (one, blank) ↦
          let first : i ≡ 0 = ground arith in
          let unused : (type.regions i).size ≡ 0 = rw first blank in
          let stop : (ltb end (type.regions i).base || (type.regions i).size == 0) ≡ true =
            ground arith in
          rw (e, stop)
            (ended-IsAdded type i base size s
              (λ v k p q. absurd (omega (arith, v.filled 0 (omega arith)))))
      | inr (live, v) ↦
          round-IsAdded type i base size s (ground arith) v fuel enough (scan-IsAdded fuel)
    ]
  ]

-- Adding a non-empty range [base, base + size) that does not wrap, to a table in order with more than
-- one slot: on success the result is again in order and covers exactly the old addresses and those of
-- the range, each in one region; on failure the table is unchanged, and it was full.
pub memblock_add_region_lem :
    (type : Table) (base size : ℕ)
    → IsTable type
    → type.cnt ≤ type.max
    → 1 < type.max
    → 0 < size
    → base + size < u64_mod
    → IsAdded type base (base + size) (memblock_add_region type base size)
unfolding memblock_add_region
memblock_add_region_lem type base size table held two pos fit = rw (add64_exact base size fit) (
    scan-IsAdded type base (base + size) fit two (type.cnt + 2) type 0 base size
      (omega arith, inr (omega arith))
      (record {
        table = table;
        same_max = refl;
        held = held;
        index = omega arith;
        pos = pos;
        span = refl;
        below = λ k p. absurd (omega arith);
        same = λ p. refl;
        room = inl refl;
      }))
