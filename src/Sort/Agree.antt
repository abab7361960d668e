-- ===== src/Sort/Agree.antt =====
-- `sort` compares only values of the array: comparisons that agree on those sort alike.
use xc.Common.{
  ℕ, zero, suc, ◌+◌, ◌-◌, ◌*◌, ◌/◌, ◌<◌, ◌≡◌, ◌∙◌, refl, inl, inr, Bool, arith, ltb, leb,
  Bool-cases, Array, ap,
}
use xc.Sort.{swap, bigger_child, sift, heapify, sort_down, sort}
use xc.Sort.Sift.{bigger_child-lt, sift_all, swap_all}

module _ {ℓ} {A : Type ℓ} (P : A → Type 0) (less less' : A → A → Bool)
    (agree : (x y : A) → P x → P y → less x y ≡ less' x y) where
  abbrev Holds : Array A → ℕ → Type 0
  Holds a n = (k : ℕ) → k < n → P (a k)

  bigger_child-agree :
      (n r : ℕ) (a : Array A)
      → Holds a n
      → r * 2 + 1 < n
      → bigger_child less n r a ≡ bigger_child less' n r a
  unfolding bigger_child
  bigger_child-agree n r a h p = elim (Bool-cases (ltb (r * 2 + 1 + 1) n)) [
    | inl e ↦
        rw (agree (a (r * 2 + 1)) (a (r * 2 + 1 + 1)) (h _ (omega arith)) (h _ (ground arith))) refl
    | inr e ↦ rw e refl
  ]

  sift-agree :
      (fuel n r : ℕ) (a : Array A) → Holds a n → sift less fuel n r a ≡ sift less' fuel n r a
  unfolding sift
  sift-agree zero n r a h = refl
  sift-agree (suc fuel) n r a h = elim (Bool-cases (leb n (r * 2 + 1))) [
    | inl e ↦ rw e refl
    | inr e ↦
        let inside : r * 2 + 1 < n = ground arith in
        let c = bigger_child less' n r a in
        let c-lt = bigger_child-lt less' n r a inside in
        rw
          (
            e,
            bigger_child-agree n r a h inside,
            agree (a r) (a c) (h r (omega arith)) (h c c-lt),
            sift-agree fuel n c (swap a r c) (swap_all less P n r c a (omega arith) c-lt h),
          )
          refl
  ]

  heapify-agree : (i n : ℕ) (a : Array A) → Holds a n → heapify less i n a ≡ heapify less' i n a
  unfolding heapify
  heapify-agree zero n a h = refl
  heapify-agree (suc i) n a h =
      heapify-agree i n (sift less n n i a) (sift_all less P n n i a h)
      ∙ ap (heapify less' i n) (sift-agree n n i a h)

  heapify-Holds : (i n : ℕ) (a : Array A) → Holds a n → Holds (heapify less i n a) n
  unfolding heapify
  heapify-Holds zero n a h = h
  heapify-Holds (suc i) n a h = heapify-Holds i n (sift less n n i a) (sift_all less P n n i a h)

  sort_down-agree :
      (i n : ℕ) (a : Array A) → i < n → Holds a n → sort_down less i a ≡ sort_down less' i a
  unfolding sort_down
  sort_down-agree zero n a p h = refl
  sort_down-agree (suc i) n a p h =
      let b = swap a 0 (suc i) in
      let hb = swap_all less P n 0 (suc i) a (omega arith) p h in
      let low : Holds b (suc i) = λ k q. hb k (omega arith) in
      let s = sift less (suc i) (suc i) 0 b in
      let hs : Holds s (suc i) = sift_all less P (suc i) (suc i) 0 b low in
      sort_down-agree i (suc i) s (omega arith) hs
      ∙ ap (sort_down less' i) (sift-agree (suc i) (suc i) 0 b low)

  pub sort-agree : (a : Array A) (num : ℕ) → Holds a num → sort less a num ≡ sort less' a num
  unfolding sort sort_down heapify
  sort-agree a zero h = refl
  sort-agree a (suc n) h =
      sort_down-agree (suc n - 1) (suc n) _ (omega arith) (heapify-Holds (suc n / 2) (suc n) a h)
      ∙ ap (sort_down less' (suc n - 1)) (heapify-agree (suc n / 2) (suc n) a h)
