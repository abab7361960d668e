-- ===== src/Buddy/Free.antt =====
-- `__free_one_page`: the pages of the block, and no others, become free.
use xc.Common.{
  ℕ, zero, suc, ◌+◌, ◌-◌, ◌^◌, ◌<◌, ◌≡◌, refl, sym, ◌∙◌, inl, inr, arith, true, false, Bool-cases,
}
use xc.Buddy.{
  Zone, max_order, migrate_types, rmv_page_order, set_page_order, list_del, list_add, list_add_tail,
  page_is_buddy, buddy_of, combined_of, merge, higher_buddy_free, put_block, free_block,
}
use xc.Buddy.Index.{IsPair, buddy-IsPair}
use xc.Buddy.Lists.{held, held_same, held-del, held-add, held-add_tail}
use xc.Buddy.Consistent.{
  marked, IsConsistent, removed, removed-IsConsistent, add-IsConsistent, add_tail-IsConsistent,
}

-- A measure of blocks that a block has from its two halves.
abbrev pub IsAdditive : (ℕ → ℕ → ℕ) → Type 0
IsAdditive f = (order p : ℕ) → f (suc order) p ≡ f order p + f order (p + 2 ^ order)

is_buddy-marked :
    (z : Zone) (p b order : ℕ) → page_is_buddy z p b order ≡ true → marked z order b ≡ 1
unfolding page_is_buddy
is_buddy-marked z p b order e = ground arith

combined_unmarked :
    (z : Zone) (p order : ℕ)
    → order < max_order
    → (z.page p).buddy ≡ false
    → ((removed z (buddy_of p order) order).page (combined_of p order)).buddy ≡ false
unfolding rmv_page_order list_del
combined_unmarked z p order h free = ground (arith, buddy-IsPair p order h)

module _ (f : ℕ → ℕ → ℕ) (additive : IsAdditive f) where
  pair_total : (order p b c : ℕ) → IsPair order p b c → f order p + f order b ≡ f (suc order) c
  pair_total order p b c (inl (eb, ec)) = rw (eb, ec) (sym (additive order p))
  pair_total order p b c (inr (eb, ec)) = rw (← eb, ec) (omega (arith, additive order b))

  pub held-removed :
      (z : Zone) (p order : ℕ)
      → IsConsistent z
      → order < max_order
      → marked z order p ≡ 1
      → held f (removed z p order) + f order p ≡ held f z
  unfolding rmv_page_order list_del
  held-removed z p order v h m = omega (
    arith,
    held_same f (list_del z p order) (removed z p order) refl,
    held-del f z p order h (v.flagged order p h ∙ m),
  )

  merged_total :
      (z : Zone) (p order before : ℕ)
      → IsConsistent z
      → order < max_order
      → marked z order (buddy_of p order) ≡ 1
      → held f z + f order p ≡ before
      → held f (removed z (buddy_of p order) order) + f (order + 1) (combined_of p order) ≡ before
  merged_total z p order before v h m e =
      let up : order + 1 ≡ suc order = omega arith in
      rw up (
        omega (
          arith,
          e,
          held-removed z (buddy_of p order) order v h m,
          pair_total order p (buddy_of p order) (combined_of p order) (buddy-IsPair p order h),
        ))

  -- What the loop keeps: the measure of the lists with the block in hand.
  abbrev Merged : ℕ → Zone × ℕ × ℕ → Type 0
  Merged before (z, p, order) =
      IsConsistent z
      × (order < max_order)
      × ((z.page p).buddy ≡ false)
      × (held f z + f order p ≡ before)

  merge-Merged :
      (n : ℕ) (z : Zone) (p order before : ℕ)
      → order + n < max_order
      → Merged before (z, p, order)
      → Merged before (merge n z p order)
  unfolding merge
  merge-Merged zero z p order before h m = m
  merge-Merged (suc n) z p order before h (v, o, free, e) =
      elim (Bool-cases (page_is_buddy z p (buddy_of p order) order)) [
        | inr no_buddy ↦ rw no_buddy (v, o, free, e)
        | inl is_buddy ↦ rw is_buddy (
            merge-Merged n (removed z (buddy_of p order) order) (combined_of p order) (order + 1)
              before (omega arith)
              (
                removed-IsConsistent z v (buddy_of p order) order o
                    (is_buddy-marked z p (buddy_of p order) order is_buddy),
                omega arith,
                combined_unmarked z p order o free,
                merged_total z p order before v o
                    (is_buddy-marked z p (buddy_of p order) order is_buddy) e,
              ))
      ]

  put_block_lem :
      (z : Zone) (p order t before : ℕ)
      → t < migrate_types
      → Merged before (z, p, order)
      → IsConsistent (put_block z p order t) × (held f (put_block z p order t) ≡ before)
  unfolding put_block set_page_order list_add list_add_tail
  put_block_lem z p order t before k (v, h, free, e) =
      elim (Bool-cases (higher_buddy_free (set_page_order z p order) p order)) [
        | inl tail ↦ rw tail (
          add_tail-IsConsistent z p order t h k v free,
          held_same f (list_add_tail z p order t) _ refl ∙ held-add_tail f z p order t h k ∙ e,
        )
        | inr no_tail ↦ rw no_tail (
          add-IsConsistent z p order t h k v free,
          held_same f (list_add z p order t) _ refl ∙ held-add f z p order t h k ∙ e,
        )
      ]

  pub free_block_total :
      (z : Zone) (p order t : ℕ)
      → IsConsistent z
      → order < max_order
      → t < migrate_types
      → (z.page p).buddy ≡ false
      → IsConsistent (free_block z p order t)
        × (held f (free_block z p order t) ≡ held f z + f order p)
  unfolding free_block
  free_block_total z p order t v h k free =
      let (z', p', order') = merge (max_order - 1 - order) z p order in
      put_block_lem z' p' order' t (held f z + f order p) k (
        merge-Merged (max_order - 1 - order) z p order (held f z + f order p) (omega arith)
          (v, h, free, refl))
