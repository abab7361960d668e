-- ===== src/Sort/Sift.antt =====
-- The sift keeps the values of a[0 .. n), leaves the rest alone, and repairs a heap at one place.
use xc.Common.{
  ℕ, zero, suc, ◌+◌, ◌*◌, ◌≤◌, ◌<◌, ◌≡◌, ◌≢◌, ◌⊎◌, refl, sym, subst, inl, inr, Bool, true, false,
  arith, leb, ◌==◌, Bool-cases, Array, update, total, total-update,
}
use xc.Sort.{swap, bigger_child, sift}
use xc.Sort.Order.{IsOrder, less_irrefl}

module _ {ℓ} {A : Type ℓ} where
  pub total-swap :
      (f : A → ℕ) (n : ℕ) (a : Array A) (i j : ℕ)
      → i < n
      → j < n
      → total f n (swap a i j) ≡ total f n a
  unfolding swap
  total-swap f n a i j p q =
      ground (arith, total-update f n a i (a j) p, total-update f n (update a i (a j)) j (a i) q)

  module _ (less : A → A → Bool) where
    -- `c` is a child of `k`.
    abbrev pub IsChild : ℕ → ℕ → Type 0
    IsChild k c = (c ≡ k * 2 + 1) ⊎ (c ≡ k * 2 + 2)

    pub bigger_child-IsChild : (n r : ℕ) (a : Array A) → IsChild r (bigger_child less n r a)
    unfolding bigger_child
    bigger_child-IsChild n r a = ground arith

    pub bigger_child-lt : (n r : ℕ) (a : Array A) → r * 2 + 1 < n → bigger_child less n r a < n
    unfolding bigger_child
    bigger_child-lt n r a h = ground arith

    pub total-sift :
        (f : A → ℕ) (fuel n r : ℕ) (a : Array A) → total f n (sift less fuel n r a) ≡ total f n a
    unfolding sift
    total-sift f zero n r a = refl
    total-sift f (suc fuel) n r a =
        let c = bigger_child less n r a in
        ground
          (arith, bigger_child-lt n r a, total-sift f fuel n c (swap a r c), total-swap f n a r c)

    -- One round stops with the array as it is, or swaps and goes on at the child.
    sift_cases :
        (fuel n r : ℕ) (a : Array A)
        → let c = bigger_child less n r a in
          ((sift less (suc fuel) n r a ≡ a)
            × ((n ≤ r * 2 + 1) ⊎ ((r * 2 + 1 < n) × (less (a r) (a c) ≡ false))))
          ⊎ ((sift less (suc fuel) n r a ≡ sift less fuel n c (swap a r c))
              × (r * 2 + 1 < n)
              × (less (a r) (a c) ≡ true))
    unfolding sift
    sift_cases fuel n r a = elim (Bool-cases (leb n (r * 2 + 1))) [
      | inl e ↦ inl (rw e, inl (ground arith))
      | inr e ↦ elim (Bool-cases (less (a r) (a (bigger_child less n r a)))) [
        | inl up ↦ inr (rw (e, up), ground arith, up)
        | inr up ↦ inl (rw (e, up), inr (ground arith, up))
      ]
    ]

    pub swap_all {κ} :
        (Q : A → Type κ) (n i j : ℕ) (a : Array A)
        → i < n
        → j < n
        → ((k : ℕ) → k < n → Q (a k))
        → (k : ℕ) → k < n
        → Q (swap a i j k)
    unfolding swap
    swap_all Q n i j a p q h k l = elim (Bool-cases (k == j)) [
      | inl e ↦ rw e (h i p)
      | inr e ↦
          rw e (elim (Bool-cases (k == i)) [ inl e' ↦ rw e' (h j q) | inr e' ↦ rw e' (h k l) ])
    ]

    -- A property of the cells of a[0 .. n) holds after the sift.
    pub sift_all {κ} :
        (Q : A → Type κ) (fuel n r : ℕ) (a : Array A)
        → ((k : ℕ) → k < n → Q (a k))
        → (k : ℕ) → k < n
        → Q (sift less fuel n r a k)
    unfolding sift
    sift_all Q zero n r a h k p = h k p
    sift_all Q (suc fuel) n r a h k p = elim (sift_cases fuel n r a) [
      | inl (e, stop) ↦ subst (λ b. Q (b k)) (sym e) (h k p)
      | inr (e, inside, less_child) ↦
          let c = bigger_child less n r a in
          let moved = swap_all Q n r c a (omega arith) (bigger_child-lt n r a inside) h in
          subst (λ b. Q (b k)) (sym e) (sift_all Q fuel n c (swap a r c) moved k p)
    ]

    pub sift_past : (fuel n r : ℕ) (a : Array A) (k : ℕ) → n ≤ k → sift less fuel n r a k ≡ a k
    unfolding sift swap
    sift_past zero n r a k h = refl
    sift_past (suc fuel) n r a k h =
        let c = bigger_child less n r a in
        ground (arith, bigger_child-lt n r a, sift_past fuel n c (swap a r c) k h)

    -- No parent from `i` on is smaller than its children in a[0 .. n).
    abbrev pub IsHeap : Array A → ℕ → ℕ → Type 0
    IsHeap a n i = (k c : ℕ) → i ≤ k → IsChild k c → c < n → less (a k) (a c) ≡ false

    -- So it is but at `r`, and the children of `r` are not bigger than its parent.
    abbrev pub IsHeapBut : Array A → ℕ → ℕ → ℕ → Type 0
    IsHeapBut a n i r =
        ((k c : ℕ) → i ≤ k → k ≢ r → IsChild k c → c < n → less (a k) (a c) ≡ false)
        × ((k c : ℕ) → i ≤ k → IsChild k r → IsChild r c → c < n → less (a k) (a c) ≡ false)

    module _ (o : IsOrder less) where
      -- The child chosen is not smaller than the other one.
      bigger_child-bigger :
          (n r c : ℕ) (a : Array A)
          → IsChild r c
          → c < n
          → less (a (bigger_child less n r a)) (a c) ≡ false
      unfolding bigger_child
      bigger_child-bigger n r c a h p =
          ground (arith, less_irrefl o (a c), o.asym (a (r * 2 + 1)) (a (r * 2 + 2)))

      swap-IsHeapBut :
          (n i r : ℕ) (a : Array A)
          → let c = bigger_child less n r a in
            i ≤ r
            → r * 2 + 1 < n
            → less (a r) (a c) ≡ true
            → IsHeapBut a n i r
            → IsHeapBut (swap a r c) n i c
      unfolding swap
      swap-IsHeapBut n i r a low inside up (but, grand) =
          let c = bigger_child less n r a in
          (
            λ k d p k≢c ch q. ground (
              arith,
              bigger_child-IsChild n r a,
              bigger_child-bigger n r d a,
              o.asym (a r) (a c) up,
              but k d,
              grand k c,
              bigger_child-lt n r a,
            ),
            λ k d p ch ch' q. ground (arith, bigger_child-IsChild n r a, but c d, grand k d),
          )

      pub sift-IsHeap :
          (fuel n i r : ℕ) (a : Array A)
          → n ≤ r + fuel
          → i ≤ r
          → IsHeapBut a n i r
          → IsHeap (sift less fuel n r a) n i
      unfolding sift
      sift-IsHeap zero n i r a h low (but, grand) = λ k c p ch q. but k c p (omega arith) ch q
      sift-IsHeap (suc fuel) n i r a h low (but, grand) = elim (sift_cases fuel n r a) [
        | inl (e, stop) ↦
            subst (λ b. IsHeap b n i) (sym e)
              (λ k c p ch q. ground (
                arith,
                but k c,
                bigger_child-bigger n r c a,
                o.trans (a c) (a (bigger_child less n r a)) (a r),
              ))
        | inr (e, inside, up) ↦
            let c = bigger_child less n r a in
            subst (λ b. IsHeap b n i) (sym e)
              (sift-IsHeap fuel n i c (swap a r c) (omega (arith, bigger_child-IsChild n r a))
                (omega (arith, bigger_child-IsChild n r a))
                (swap-IsHeapBut n i r a low inside up (but, grand)))
      ]
