-- ===== src/Fallback/Moved.antt =====
-- Moving free blocks to the lists of another migrate type leaves the free pages as they are.
use xc.Common.{
  ℕ, zero, suc, ◌+◌, ◌-◌, ◌%◌, ◌^◌, ◌<◌, ◌≡◌, refl, sym, ap, subst, ◌∙◌, inl, inr, arith,
  Bool-cases, ltb, leb, ◌&&◌, ◌==◌, ==_iff, ==_false, if◌then◌else◌, sum_to_ext,
}
use xc.Buddy.{Zone, max_order, migrate_types, list_del, list_add, dec_nr_free}
use xc.Buddy.Lists.{
  held, at_order, at_order-del_once, at_order-del_ne, at_order-add, at_order-add_ne, is_page,
}
use xc.Buddy.Consistent.{marked, IsConsistent}
use xc.Fallback.{Area, pageblock_nr_pages, list_move, move_freepages, move_freepages_block}

-- The two zones have the same pages, counters and blocks of each order.
pub record SameOrders (z z' : Zone) : Type 0 where
  pub pages : z'.page ≡ z.page
  pub counters : z'.nr_free ≡ z.nr_free
  pub orders : (g : ℕ → ℕ) (o : ℕ) → o < max_order → at_order g z' o ≡ at_order g z o

pub SameOrders-refl : (z : Zone) → SameOrders z z
SameOrders-refl z = record { pages = refl; counters = refl; orders = λ g o h. refl }

pub SameOrders-held : (z z' : Zone) (f : ℕ → ℕ → ℕ) → SameOrders z z' → held f z' ≡ held f z
unfolding held
SameOrders-held z z' f same =
    sum_to_ext max_order (λ o. at_order (f o) z o) (λ o. at_order (f o) z' o)
      (λ o h. same.orders (f o) o h)

pub SameOrders-IsConsistent : (z z' : Zone) → SameOrders z z' → IsConsistent z → IsConsistent z'
SameOrders-IsConsistent z z' same v = record {
  flagged = λ o p h.
      same.orders (is_page p) o h
      ∙ v.flagged o p h
      ∙ ap (λ g. if (g p).buddy && (g p).private == o then 1 else 0) (sym same.pages);
  ordered = λ p e.
      let page = ap (λ g. g p) same.pages in
      subst (λ x. x.private < max_order) (sym page)
        (v.ordered p (ap (λ x. x.buddy) (sym page) ∙ e));
  counted = λ o h. ap (λ g. g o) same.counters ∙ v.counted o h ∙ sym (same.orders (λ p. 1) o h);
}

module _ (z : Zone) (v : IsConsistent z) (p order t : ℕ) (h : order < max_order)
    (k : t < migrate_types) (m : marked z order p ≡ 1) where
  pub list_move-SameOrders : SameOrders z (list_move z p order t)
  unfolding list_move list_add list_del
  list_move-SameOrders = record {
    pages = refl;
    counters = refl;
    orders = λ g o q. elim (Bool-cases (o == order)) [
      | inl e ↦
          let same : o ≡ order = (==_iff o order).0 e in
          rw same (
            omega (
              arith,
              at_order-add g (list_del z p order) p order t k,
              at_order-del_once g z p order (v.flagged order p h ∙ m),
            ))
      | inr e ↦
          at_order-add_ne g (list_del z p order) p order t o (==_false o order e)
          ∙ at_order-del_ne g z p order o (==_false o order e)
    ];
  }

SameOrders-trans : (z z' z'' : Zone) → SameOrders z z' → SameOrders z' z'' → SameOrders z z''
SameOrders-trans z z' z'' a b = record {
  pages = b.pages ∙ a.pages;
  counters = b.counters ∙ a.counters;
  orders = λ g o h. b.orders g o h ∙ a.orders g o h;
}

module _ (t : ℕ) where
  -- The loop, on a zone in order.
  move_freepages-SameOrders :
      (fuel : ℕ) (z : Zone) (p end_page : ℕ)
      → t < migrate_types
      → IsConsistent z
      → SameOrders z (move_freepages fuel z p end_page t).1
  unfolding move_freepages
  move_freepages-SameOrders zero z p end_page k v = SameOrders-refl z
  move_freepages-SameOrders (suc fuel) z p end_page k v = elim (Bool-cases (ltb end_page p)) [
    | inl e ↦ rw e (SameOrders-refl z)
    | inr e ↦ elim (Bool-cases ((z.page p).buddy)) [
      | inr q ↦ rw (e, q) (move_freepages-SameOrders fuel z (p + 1) end_page k v)
      | inl q ↦
          let order = (z.page p).private in
          let m : marked z order p ≡ 1 = ground (arith, q) in
          let here = list_move-SameOrders z v p order t (v.ordered p q) k m in
          simp (e, q)
            (SameOrders-trans z (list_move z p order t) _ here (
              move_freepages-SameOrders fuel (list_move z p order t) (p + 2 ^ order) end_page k
                (SameOrders-IsConsistent z (list_move z p order t) here v)))
    ]
  ]

  -- The counter of an order plays no part.
  move_freepages-dec :
      (fuel : ℕ) (z : Zone) (p end_page o : ℕ)
      → move_freepages fuel (dec_nr_free z o) p end_page t ≡ (
        (move_freepages fuel z p end_page t).0,
        dec_nr_free ((move_freepages fuel z p end_page t).1) o,
      )
  unfolding move_freepages list_move list_add list_del
  move_freepages-dec zero z p end_page o = refl
  move_freepages-dec (suc fuel) z p end_page o = elim (Bool-cases (ltb end_page p)) [
    | inl e ↦ rw e refl
    | inr e ↦ elim (Bool-cases ((z.page p).buddy)) [
      | inr q ↦ simp (e, q) (move_freepages-dec fuel z (p + 1) end_page o)
      | inl q ↦
          let order = (z.page p).private in
          simp (e, q, move_freepages-dec fuel (list_move z p order t) (p + 2 ^ order) end_page o)
            refl
    ]
  ]

  pub move_freepages_block-SameOrders :
      (a : Area) (z : Zone) (p : ℕ)
      → t < migrate_types
      → IsConsistent z
      → SameOrders z (move_freepages_block a z p t).1
  unfolding move_freepages_block
  move_freepages_block-SameOrders a z p k v =
      let start_pfn = p - p % pageblock_nr_pages in
      let end_pfn = start_pfn + pageblock_nr_pages - 1 in
      let start_page = if ltb start_pfn a.zone_start_pfn then p else start_pfn in
      elim (Bool-cases (leb (a.zone_start_pfn + a.spanned_pages) end_pfn)) [
        | inl e ↦ rw e (SameOrders-refl z)
        | inr e ↦
            rw e (move_freepages-SameOrders (end_pfn + 1 - start_page) z start_page end_pfn k v)
      ]

  pub move_freepages_block-dec :
      (a : Area) (z : Zone) (p o : ℕ)
      → move_freepages_block a (dec_nr_free z o) p t
        ≡ ((move_freepages_block a z p t).0, dec_nr_free ((move_freepages_block a z p t).1) o)
  unfolding move_freepages_block
  move_freepages_block-dec a z p o =
      let start_pfn = p - p % pageblock_nr_pages in
      let end_pfn = start_pfn + pageblock_nr_pages - 1 in
      let start_page = if ltb start_pfn a.zone_start_pfn then p else start_pfn in
      elim (Bool-cases (leb (a.zone_start_pfn + a.spanned_pages) end_pfn)) [
        | inl e ↦ rw e refl
        | inr e ↦ rw e (move_freepages-dec (end_pfn + 1 - start_page) z start_page end_pfn o)
      ]
