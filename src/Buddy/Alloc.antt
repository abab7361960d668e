-- ===== src/Buddy/Alloc.antt =====
-- `__rmqueue_smallest`: a block of the order asked for is taken from the free pages, and the rest of
-- the block that it was cut from stays free.
use xc.Common.{
  ℕ, zero, suc, ◌+◌, ◌-◌, ◌^◌, ◌≤◌, ◌<◌, ◌≡◌, refl, sym, subst, ◌∙◌, inl, inr, arith, List, [], ◌∷◌,
  Option, none, some, false, ◌==◌, Bool-cases, List-cases, le-total, ==_iff,
}
use native.Mathlib.Nat.{pow-suc}
use xc.Common.Bits.{pow_pos}
use xc.Buddy.{
  Zone, max_order, migrate_types, rmv_page_order, set_page_order, list_del, list_add, inc_nr_free,
  page_compound, free_one_page, expand, take_block, rmqueue_loop, rmqueue_smallest,
}
use xc.Buddy.Lists.{held, held_same, held-add, at_order, sum, is_page}
use xc.Buddy.Consistent.{marked, IsConsistent, removed, removed-IsConsistent, add-IsConsistent}
use xc.Buddy.Free.{IsAdditive, held-removed}
use xc.Buddy.ZoneState.{
  block_hit, block_hit-IsAdditive, free_at, block_size, block_size-IsAdditive, IsZone, marked-free,
  free_one_page_lem,
}

-- The first block of a list is marked.
pub first-marked :
    (z : Zone) (o t p : ℕ) (rest : List ℕ)
    → IsConsistent z
    → o < max_order
    → t < migrate_types
    → z.free_list o t ≡ p ∷ rest
    → marked z o p ≡ 1
unfolding at_order sum
first-marked z o t p rest v h k e =
    let one : sum (is_page p) (z.free_list o t) ≡ suc (sum (is_page p) rest) =
      rw e (ground arith) in
    ground (
      arith,
      one,
      v.flagged o p h,
      le-total (λ x. x) migrate_types (λ t'. sum (is_page p) (z.free_list o t')) t k,
    )

-- No page of the block is marked.
abbrev Unmarked : Zone → ℕ → ℕ → Type 0
Unmarked z p order = (q : ℕ) → p ≤ q → q < p + 2 ^ order → (z.page q).buddy ≡ false

-- The measure of the lists with the block in hand, over every additive measure.
abbrev InHand : (ℕ → ℕ → ℕ) → ℕ → Zone → ℕ → ℕ → Type 0
InHand f before z p order = held f z + f order p ≡ before

abbrev half_added : Zone → ℕ → ℕ → ℕ → Zone
half_added z half high t = set_page_order (inc_nr_free (list_add z half high t) high) half high

module _ (f : ℕ → ℕ → ℕ) (additive : IsAdditive f) (t : ℕ) (k : t < migrate_types) where
  held-half :
      (z : Zone) (half high : ℕ)
      → high < max_order
      → held f (half_added z half high t) ≡ held f z + f high half
  unfolding set_page_order list_add
  held-half z half high h =
      held_same f (list_add z half high t) _ refl ∙ held-add f z half high t h k

  half-Unmarked :
      (z : Zone) (p high : ℕ)
      → Unmarked z p (suc high)
      → Unmarked (half_added z (p + 2 ^ high) high t) p high
  unfolding set_page_order list_add
  half-Unmarked z p high u q low up = ground (arith, u q, pow-suc 2 high)

  expand_lem :
      (n : ℕ) (z : Zone) (p low before : ℕ)
      → low + n < max_order
      → IsConsistent z
      → Unmarked z p (low + n)
      → InHand f before z p (low + n)
      → IsConsistent (expand n z p low t) × InHand f before (expand n z p low t) p low
  unfolding expand
  expand_lem zero z p low before h v u e = (v, let s : low + 0 ≡ low = omega arith in rw s at e)
  expand_lem (suc n) z p low before h v u e =
      let s : low + suc n ≡ suc (low + n) = omega arith in
      let high = low + n in
      let half = p + 2 ^ high in
      let u' : Unmarked z p (suc high) = subst (Unmarked z p) s u in
      let e' : held f z + f (suc high) p ≡ before = subst (InHand f before z p) s e in
      expand_lem n (half_added z half high t) p low before (omega arith)
        (add-IsConsistent z half high t (omega arith) k v
          (u' half (omega arith) (omega (arith, pow-suc 2 high, pow_pos high))))
        (half-Unmarked z p high u')
        (omega (arith, e', additive high p, held-half z half high (omega arith)))

-- The body of the loop takes the block out of the free pages.
module _ (z : Zone) (v : IsZone z) (p order current_order t : ℕ) (h : current_order < max_order)
    (k : t < migrate_types) (le : order ≤ current_order) (m : marked z current_order p ≡ 1) where
  removed-Unmarked : Unmarked (removed z p current_order) p current_order
  removed-Unmarked q low up = elim (Bool-cases ((removed z p current_order).page q).buddy) [
    | inr e ↦ e
    | inl e ↦
        let w = removed-IsConsistent z v.consistent p current_order h m in
        let o = ((removed z p current_order).page q).private in
        let again : marked (removed z p current_order) o q ≡ 1 = ground (arith, e) in
        absurd (
          ground (
            arith,
            pow_pos o,
            v.disjoint q,
            marked-free (removed z p current_order) o q q w (w.ordered q e) again,
            held-removed (block_hit q) (block_hit-IsAdditive q) z p current_order v.consistent h m,
          ))
  ]

  pub take_block_total :
      (f : ℕ → ℕ → ℕ)
      → IsAdditive f
      → IsConsistent (take_block z p order current_order t)
        × (held f (take_block z p order current_order t) + f order p ≡ held f z)
  unfolding take_block rmv_page_order list_del
  take_block_total f additive =
      let s : order + (current_order - order) ≡ current_order = omega arith in
      expand_lem f additive t k (current_order - order) (removed z p current_order) p order
        (held f z) (omega arith) (removed-IsConsistent z v.consistent p current_order h m)
        (subst (Unmarked (removed z p current_order) p) (sym s) removed-Unmarked)
        (subst (InHand f (held f z) (removed z p current_order) p) (sym s)
          (held-removed f additive z p current_order v.consistent h m))

  pub take_block-IsZone : IsZone (take_block z p order current_order t)
  take_block-IsZone = record {
    consistent = (take_block_total block_size block_size-IsAdditive).0;
    disjoint = λ q.
        omega (arith, v.disjoint q, (take_block_total (block_hit q) (block_hit-IsAdditive q)).1);
  }

-- What `__rmqueue_smallest` may return from the list `current_order` on: a block out of the free pages,
-- or nothing, with no block to be had.
abbrev pub IsTaken : Zone → ℕ → ℕ → ℕ → Option ℕ × Zone → Type 0
IsTaken z order current_order t (some p, z') =
    IsZone z' × ((q : ℕ) → free_at z' q + block_hit q order p ≡ free_at z q)
IsTaken z order current_order t (none, z') =
    (z' ≡ z) × ((o : ℕ) → current_order ≤ o → o < max_order → z.free_list o t ≡ [])

IsTaken-before :
    (z : Zone) (order current_order t : ℕ) (r : Option ℕ × Zone)
    → z.free_list current_order t ≡ []
    → IsTaken z order (suc current_order) t r
    → IsTaken z order current_order t r
IsTaken-before z order current_order t (some p, z') e taken = taken
IsTaken-before z order current_order t (none, z') e (same, empty) = (
  same,
  λ o p q. elim (Bool-cases (o == current_order)) [
    | inl here ↦ let here' : o ≡ current_order = (==_iff _ _).0 here in rw here' e
    | inr up ↦ empty o (ground arith) q
  ],
)

module _ (z : Zone) (v : IsZone z) (order t : ℕ) (k : t < migrate_types) where
  rmqueue_loop-IsTaken :
      (n current_order : ℕ)
      → current_order + n ≡ max_order
      → order ≤ current_order
      → IsTaken z order current_order t (rmqueue_loop n current_order z order t)
  unfolding rmqueue_loop
  rmqueue_loop-IsTaken zero current_order e le = (refl, λ o p q. absurd (omega arith))
  rmqueue_loop-IsTaken (suc n) current_order e le =
      let h : current_order < max_order = omega arith in
      elim (List-cases (z.free_list current_order t)) [
        | inl none_left ↦
            rw (none_left, rmqueue_loop)
              (IsTaken-before z order current_order t (rmqueue_loop n (suc current_order) z order t)
                none_left (rmqueue_loop-IsTaken n (suc current_order) (omega arith) (omega arith)))
        | inr (p, rest, some_left) ↦
            let m = first-marked z current_order t p rest v.consistent h k some_left in
            rw (some_left, rmqueue_loop)
              (
                take_block-IsZone z v p order current_order t h k le m,
                λ q.
                    (take_block_total z v p order current_order t h k le m (block_hit q)
                      (block_hit-IsAdditive q)).1,
              )
      ]

-- On a zone in order, `__rmqueue_smallest` either takes a block of 2 ^ order free pages, and leaves all
-- other free pages free, on a zone in order; or it leaves the zone alone, and no list of the migrate
-- type, of that order or a higher one, has a block.
pub rmqueue_smallest_lem :
    (z : Zone) (order t : ℕ)
    → IsZone z
    → order < max_order
    → t < migrate_types
    → IsTaken z order order t (rmqueue_smallest z order t)
unfolding rmqueue_smallest
rmqueue_smallest_lem z order t v h k =
    rmqueue_loop-IsTaken z v order t k (max_order - order) order (omega arith) (omega arith)

-- A block that `__rmqueue_smallest` took from a zone in order, and whose first page is not marked as
-- compound, can be given back to any migrate type: the zone is in order, and the same pages are free as
-- before the block was taken.
pub free_one_page-rmqueue_smallest :
    (z z' : Zone) (order t t' p : ℕ)
    → IsZone z
    → order < max_order
    → t < migrate_types
    → t' < migrate_types
    → rmqueue_smallest z order t ≡ (some p, z')
    → page_compound (z'.page p) ≡ false
    → IsZone (free_one_page z' p order t')
      × ((q : ℕ) → free_at (free_one_page z' p order t') q ≡ free_at z q)
free_one_page-rmqueue_smallest z z' order t t' p v h k k' taken single =
    let (w, moved) : IsTaken z order order t (some p, z') =
      rw taken at (rmqueue_smallest_lem z order t v h k) in
    let freed =
      free_one_page_lem z' p order t' w h k' single
        (λ q low up. ground (arith, moved q, v.disjoint q)) in
    (freed.0, λ q. freed.1 q ∙ moved q)
