-- ===== src/Buddy/Compound.antt =====
-- `__free_one_page` on a compound page.
use xc.Common.{
  ℕ, zero, suc, ◌+◌, ◌-◌, ◌^◌, ◌≤◌, ◌<◌, ◌≡◌, ◌≢◌, ◌⊎◌, refl, sym, ap, ◌∙◌, inl, inr, arith, true,
  false, ◌==◌, ==_iff, ==_ne, Bool-cases,
}
use xc.Buddy.{
  Zone, max_order, migrate_types, page_compound, set_page, compound_order, destroy_tails,
  destroy_compound_page, free_one_page,
}
use xc.Common.Bits.{pow_pos}
use xc.Buddy.Lists.{held_same, at_order_same}
use xc.Buddy.ZoneState.{block_hit, free_at, IsZone, block_freed}

-- The two zones have the same free blocks.
pub record SameBlocks (z z' : Zone) : Type 0 where
  pub lists : z'.free_list ≡ z.free_list
  pub counters : z'.nr_free ≡ z.nr_free
  pub buddies : (q : ℕ) → (z'.page q).buddy ≡ (z.page q).buddy
  pub privates : (q : ℕ) → (z'.page q).private ≡ (z.page q).private

destroy_tails-SameBlocks : (n i p : ℕ) (z : Zone) → SameBlocks z (destroy_tails n i p z).1
unfolding destroy_tails
destroy_tails-SameBlocks zero i p z = record {
  lists = refl;
  counters = refl;
  buddies = λ q. refl;
  privates = λ q. refl;
}
destroy_tails-SameBlocks (suc n) i p z =
    let rest = destroy_tails-SameBlocks n (i + 1) p _ in
    record {
      lists = rest.lists;
      counters = rest.counters;
      buddies = λ q. rest.buddies q ∙ ground arith;
      privates = λ q. rest.privates q ∙ ground arith;
    }

destroy_compound_page-SameBlocks :
    (z : Zone) (p order : ℕ) → SameBlocks z (destroy_compound_page z p order).1
unfolding destroy_compound_page
destroy_compound_page-SameBlocks z p order =
    let rest = destroy_tails-SameBlocks (2 ^ order - 1) 1 p _ in
    record {
      lists = rest.lists;
      counters = rest.counters;
      buddies = λ q. rest.buddies q ∙ ground arith;
      privates = λ q. rest.privates q ∙ ground arith;
    }

SameBlocks-IsZone :
    (z z' : Zone) → SameBlocks z z' → IsZone z → IsZone z' × ((q : ℕ) → free_at z' q ≡ free_at z q)
SameBlocks-IsZone z z' same v =
    let kept : (q : ℕ) → free_at z' q ≡ free_at z q =
      λ q. held_same (block_hit q) z z' same.lists in
    (
      record {
        consistent = record {
          flagged = λ o q h.
              at_order_same _ z z' o same.lists
              ∙ v.consistent.flagged o q h
              ∙ ground (arith, same.buddies q, same.privates q);
          ordered =
              λ q e. ground (arith, e, same.buddies q, same.privates q, v.consistent.ordered q);
          counted = λ o h.
              ap (λ a. a o) same.counters
              ∙ v.consistent.counted o h
              ∙ sym (at_order_same _ z z' o same.lists);
        };
        disjoint = λ q. omega (arith, kept q, v.disjoint q);
      },
      kept,
    )

-- Of the tail pages, each is marked as one, and has `p` as its first page.
abbrev HasTails : ℕ → ℕ → ℕ → Zone → Type 0
HasTails n i p z =
    (k : ℕ) → i ≤ k → k < i + n → ((z.page (p + k)).tail ≡ true) × ((z.page (p + k)).private ≡ p)

destroy_tails-good :
    (n i p : ℕ) (z : Zone) → 0 < i → (destroy_tails n i p z).0 ≡ 0 → HasTails n i p z
unfolding destroy_tails
destroy_tails-good zero i p z pos e k h l = absurd (omega arith)
destroy_tails-good (suc n) i p z pos e k h l =
    let z' = set_page z p (record (z.page p) { tail = false }) in
    elim (Bool-cases (k == i)) [
      | inl here ↦ let same : k ≡ i = (==_iff k i).0 here in rw same (ground (arith, e))
      | inr past ↦
          let rest =
            destroy_tails-good n (i + 1) p z' (omega arith) (ground (arith, e)) k
              (ground (arith, past)) (omega arith) in
          ground (arith, rest)
    ]

destroy_tails-none_bad :
    (n i p : ℕ) (z : Zone) → 0 < i → HasTails n i p z → (destroy_tails n i p z).0 ≡ 0
unfolding destroy_tails
destroy_tails-none_bad zero i p z pos v = refl
destroy_tails-none_bad (suc n) i p z pos v =
    let z' = set_page z p (record (z.page p) { tail = false }) in
    let rest = destroy_tails-none_bad n (i + 1) p z' (omega arith) (λ k h l.
      let (t, f) = v k (omega arith) (omega arith) in (ground (arith, t), ground (arith, f))) in
    ground (arith, rest, v i (omega arith) (omega arith))

destroy_tails-others :
    (n i p : ℕ) (z : Zone) (q : ℕ) → q ≢ p → (destroy_tails n i p z).1.page q ≡ z.page q
unfolding destroy_tails
destroy_tails-others zero i p z q ne = refl
destroy_tails-others (suc n) i p z q ne =
    destroy_tails-others n (i + 1) p _ q ne ∙ rw (==_ne q p ne) refl

-- A compound page as `prep_compound_page` makes it: the first page is the head, page 1 has the order, and
-- every other page is a tail that points to the first.
pub record IsCompound (z : Zone) (p order : ℕ) : Type 0 where
  pub head : (z.page p).head ≡ true
  pub same_order : (z.page (p + 1)).compound ≡ order
  pub tails :
      (k : ℕ)
      → 1 ≤ k
      → k < 2 ^ order
      → ((z.page (p + k)).tail ≡ true) × ((z.page (p + k)).private ≡ p)

destroy-good :
    (z : Zone) (p order : ℕ) → (destroy_compound_page z p order).0 ≡ 0 → IsCompound z p order
unfolding destroy_compound_page compound_order
destroy-good z p order e =
    let z' = set_page z p (record (z.page p) { head = false }) in
    let rest = destroy_tails-good (2 ^ order - 1) 1 p z' (omega arith) (ground (arith, e)) in
    record {
      head = ground (arith, e);
      same_order = ground (arith, e);
      tails = λ k h l. ground (arith, rest k h (omega arith));
    }

destroy-none_bad :
    (z : Zone) (p order : ℕ) → IsCompound z p order → (destroy_compound_page z p order).0 ≡ 0
unfolding destroy_compound_page compound_order
destroy-none_bad z p order v =
    let z' = set_page z p (record (z.page p) { head = false }) in
    let rest = destroy_tails-none_bad (2 ^ order - 1) 1 p z' (omega arith) (λ k h l.
      let (t, f) = v.tails k h (omega (arith, pow_pos order)) in
      (ground (arith, t), ground (arith, f))) in
    ground (arith, rest, v.head, v.same_order)

destroy-others :
    (z : Zone) (p order q : ℕ) → q ≢ p → (destroy_compound_page z p order).1.page q ≡ z.page q
unfolding destroy_compound_page
destroy-others z p order q ne =
    destroy_tails-others (2 ^ order - 1) 1 p _ q ne ∙ rw (==_ne q p ne) refl

-- What is left when nothing was freed: the same free blocks, and every page but `p` as it was.
pub record IsLeft (z : Zone) (p : ℕ) (z' : Zone) : Type 0 where
  pub blocks : SameBlocks z z'
  pub others : (q : ℕ) → q ≢ p → z'.page q ≡ z.page q

-- The compound page was in order and is free, or it was not and is left.
abbrev pub IsFreedOrLeft : Zone → ℕ → ℕ → Zone → Type 0
IsFreedOrLeft z p order z' =
    (IsCompound z p order × ((q : ℕ) → free_at z' q ≡ free_at z q + block_hit q order p))
    ⊎ ((¬ (IsCompound z p order)) × IsLeft z p z')

-- On a zone in order, `__free_one_page` of a compound page whose pages are all in use. When the first
-- page is marked as the head, page 1 has the order, and all others are tails that point to the first, the
-- pages of the block become free, and all others stay as they were. Else the lists, the counters and the
-- marks of free blocks stay, and so does every page but the first. In both cases lists, marks and
-- counters agree, and no page is in two free blocks.
pub free_one_page_compound :
    (z : Zone) (p order t : ℕ)
    → IsZone z
    → order < max_order
    → t < migrate_types
    → page_compound (z.page p) ≡ true
    → ((q : ℕ) → p ≤ q → q < p + 2 ^ order → free_at z q ≡ 0)
    → let z' = free_one_page z p order t in IsZone z' × IsFreedOrLeft z p order z'
unfolding free_one_page
free_one_page_compound z p order t v h k compound used =
    let z' = (destroy_compound_page z p order).1 in
    let same = destroy_compound_page-SameBlocks z p order in
    let (w, kept) = SameBlocks-IsZone z z' same v in
    elim (Bool-cases ((destroy_compound_page z p order).0 == 0)) [
      | inr bad ↦
          let not_good = λ (c : IsCompound z p order).
            absurd (ground (arith, bad, destroy-none_bad z p order c)) in
          rw (compound, bad)
            (w, inr (not_good, record { blocks = same; others = destroy-others z p order }))
      | inl good ↦
          let freed =
            block_freed z' p order t w h k (λ q low up. omega (arith, kept q, used q low up)) in
          rw (compound, good)
            (
              freed.0,
              inl (
                destroy-good z p order ((==_iff _ _).0 good),
                λ q. omega (arith, kept q, freed.1 q),
              ),
            )
    ]
