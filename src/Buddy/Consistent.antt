-- ===== src/Buddy/Consistent.antt =====
-- The lists, the page flags and the counters of a zone tell the same story.
use xc.Common.{
  ℕ, ◌+◌, ◌<◌, ◌≡◌, ◌≢◌, refl, ◌∙◌, inl, inr, arith, List, true, false, ◌&&◌, ◌==◌, if◌then◌else◌,
  Bool-cases, ==_iff, ==_false,
}
use xc.Buddy.{
  Zone, max_order, migrate_types, rmv_page_order, set_page_order, list_del, list_add, list_add_tail,
  inc_nr_free, dec_nr_free,
}
use xc.Buddy.Lists.{
  is_page, at_order, listed, at_order-del_ne, at_order-add, at_order-add_ne, at_order-add_tail,
  at_order-add_tail_ne, at_order-del_once, at_order_same,
}

-- The page is marked as the first of a free block of the order.
abbrev pub marked : Zone → ℕ → ℕ → ℕ
marked z o p = if (z.page p).buddy && (z.page p).private == o then 1 else 0

pub record IsConsistent (z : Zone) : Type 0 where
  -- A page is on a list of an order, once, exactly when it is marked with that order.
  pub flagged : (o p : ℕ) → o < max_order → listed z o p ≡ marked z o p
  pub ordered : (p : ℕ) → (z.page p).buddy ≡ true → (z.page p).private < max_order
  -- `nr_free` counts the blocks of each order.
  pub counted : (o : ℕ) → o < max_order → z.nr_free o ≡ at_order (λ p. 1) z o

-- Taking a marked block off its list and unmarking it.
abbrev pub removed : Zone → ℕ → ℕ → Zone
removed z p order = rmv_page_order (dec_nr_free (list_del z p order) order) p

-- Putting an unmarked page on a list, and marking it: `l` are the lists that this leads to.
abbrev pub added : Zone → ℕ → ℕ → (ℕ → ℕ → List ℕ) → Zone
added z p order l = set_page_order (inc_nr_free (record z { free_list = l }) order) p order

module _ (z : Zone) (v : IsConsistent z) (p order : ℕ) (h : order < max_order) where
  module _ (m : marked z order p ≡ 1) where
    once : listed z order p ≡ 1
    once = v.flagged order p h ∙ m

    at_order-removed : (g : ℕ → ℕ) → at_order g (removed z p order) order + g p ≡ at_order g z order
    unfolding rmv_page_order list_del
    at_order-removed g = omega (
      arith,
      at_order_same g (list_del z p order) (removed z p order) order refl,
      at_order-del_once g z p order once,
    )

    at_order-removed_ne :
        (g : ℕ → ℕ) (o : ℕ) → o ≢ order → at_order g (removed z p order) o ≡ at_order g z o
    unfolding rmv_page_order list_del
    at_order-removed_ne g o ne =
        at_order_same g (list_del z p order) (removed z p order) o refl
        ∙ at_order-del_ne g z p order o ne

    pub removed-IsConsistent : IsConsistent (removed z p order)
    unfolding rmv_page_order list_del
    removed-IsConsistent = record {
      flagged = λ o q k. elim (Bool-cases (o == order)) [
        | inl e ↦
            let same : o ≡ order = (==_iff o order).0 e in
            rw same (ground (arith, m, at_order-removed (is_page q), v.flagged order q h))
        | inr e ↦
            ground
              (arith, m, at_order-removed_ne (is_page q) o (==_false o order e), v.flagged o q k)
      ];
      ordered = λ q e. ground (arith, v.ordered q);
      counted = λ o k. elim (Bool-cases (o == order)) [
        | inl e ↦
            let same : o ≡ order = (==_iff o order).0 e in
            rw same (ground (arith, at_order-removed (λ x. 1), v.counted order h))
        | inr e ↦ ground (arith, at_order-removed_ne (λ x. 1) o (==_false o order e), v.counted o k)
      ];
    }

  -- `l` is the zone's lists with `p` put on one of the order.
  module _ (l : ℕ → ℕ → List ℕ)
      (grown : (g : ℕ → ℕ)
        → at_order g (record z { free_list = l }) order ≡ at_order g z order + g p)
      (kept : (g : ℕ → ℕ) (o : ℕ)
        → o ≢ order
        → at_order g (record z { free_list = l }) o ≡ at_order g z o)
      (m : (z.page p).buddy ≡ false) where
    at_order-added : (g : ℕ → ℕ) → at_order g (added z p order l) order ≡ at_order g z order + g p
    unfolding set_page_order
    at_order-added g =
        at_order_same g (record z { free_list = l }) (added z p order l) order refl ∙ grown g

    at_order-added_ne :
        (g : ℕ → ℕ) (o : ℕ) → o ≢ order → at_order g (added z p order l) o ≡ at_order g z o
    unfolding set_page_order
    at_order-added_ne g o ne =
        at_order_same g (record z { free_list = l }) (added z p order l) o refl ∙ kept g o ne

    pub added-IsConsistent : IsConsistent (added z p order l)
    unfolding set_page_order
    added-IsConsistent = record {
      flagged = λ o q k. elim (Bool-cases (o == order)) [
        | inl e ↦
            let same : o ≡ order = (==_iff o order).0 e in
            rw same (ground (arith, m, at_order-added (is_page q), v.flagged order q h))
        | inr e ↦
            ground (arith, m, at_order-added_ne (is_page q) o (==_false o order e), v.flagged o q k)
      ];
      ordered = λ q e. ground (arith, v.ordered q, h);
      counted = λ o k. elim (Bool-cases (o == order)) [
        | inl e ↦
            let same : o ≡ order = (==_iff o order).0 e in
            rw same (ground (arith, at_order-added (λ x. 1), v.counted order h))
        | inr e ↦ ground (arith, at_order-added_ne (λ x. 1) o (==_false o order e), v.counted o k)
      ];
    }

-- Both ways to put a block on a list.
module _ (z : Zone) (p order t : ℕ) (h : order < max_order) (k : t < migrate_types)
    (v : IsConsistent z) (m : (z.page p).buddy ≡ false) where
  pub add-IsConsistent :
      IsConsistent (set_page_order (inc_nr_free (list_add z p order t) order) p order)
  unfolding list_add set_page_order
  add-IsConsistent =
      added-IsConsistent z v p order h (list_add z p order t).free_list
        (λ g. at_order-add g z p order t k) (λ g o. at_order-add_ne g z p order t o) m

  pub add_tail-IsConsistent :
      IsConsistent (set_page_order (inc_nr_free (list_add_tail z p order t) order) p order)
  unfolding list_add_tail set_page_order
  add_tail-IsConsistent =
      added-IsConsistent z v p order h (list_add_tail z p order t).free_list
        (λ g. at_order-add_tail g z p order t k) (λ g o. at_order-add_tail_ne g z p order t o) m
