-- ===== src/Sort/Sorted.antt =====
-- `sort` permutes a[0 .. num) and leaves it in ascending order.
use xc.Common.{
  ℕ, zero, suc, ◌-◌, ◌/◌, ◌≤◌, ◌<◌, ◌≡◌, ◌∙◌, refl, Bool, false, arith, Array, total, total_past,
}
use xc.Sort.{swap, sift, heapify, sort_down, sort}
use xc.Sort.Order.{IsOrder, less_irrefl}
use xc.Sort.Sift.{IsHeap, total-swap, total-sift, sift_all, sift_past, sift-IsHeap}

module _ {ℓ} {A : Type ℓ} (less : A → A → Bool) where
  -- No cell of a[0 .. n) is smaller than one before it.
  abbrev pub IsSorted : Array A → ℕ → Type 0
  IsSorted a n = (i j : ℕ) → i ≤ j → j < n → less (a j) (a i) ≡ false

  total-heapify : (f : A → ℕ) (i n : ℕ) (a : Array A) → total f n (heapify less i n a) ≡ total f n a
  unfolding heapify
  total-heapify f zero n a = refl
  total-heapify f (suc i) n a = total-heapify f i n (sift less n n i a) ∙ total-sift less f n n i a

  total-sort_down :
      (f : A → ℕ) (i n : ℕ) (a : Array A) → i < n → total f n (sort_down less i a) ≡ total f n a
  unfolding sort_down
  total-sort_down f zero n a h = refl
  total-sort_down f (suc i) n a h =
      total-sort_down f i n (sift less (suc i) (suc i) 0 (swap a 0 (suc i))) (omega arith)
      ∙ total_past f (suc i) n (swap a 0 (suc i)) _ (omega arith)
          (total-sift less f (suc i) (suc i) 0 (swap a 0 (suc i)))
          (λ k q. sift_past less (suc i) (suc i) 0 (swap a 0 (suc i)) k q)
      ∙ total-swap f n a 0 (suc i) (omega arith) h

  -- For any comparison at all, every measure of the first `num` elements has the same total before and
  -- after: they are the same values, as often.
  pub total-sort :
      (f : A → ℕ) (a : Array A) (num : ℕ) → total f num (sort less a num) ≡ total f num a
  unfolding sort sort_down heapify
  total-sort f a zero = refl
  total-sort f a (suc n) =
      total-sort_down f (suc n - 1) (suc n) _ (omega arith) ∙ total-heapify f (suc n / 2) (suc n) a

  module _ (o : IsOrder less) where
    heapify-IsHeap :
        (i n : ℕ) (a : Array A) → IsHeap less a n i → IsHeap less (heapify less i n a) n 0
    unfolding heapify
    heapify-IsHeap zero n a h = h
    heapify-IsHeap (suc i) n a h = heapify-IsHeap i n (sift less n n i a) (
        sift-IsHeap less o n n i i a (omega arith) (omega arith)
          (λ k c p ne ch q. h k c (omega arith) ch q, λ k c p ch ch' q. absurd (omega arith)))

    -- The root of a heap is not smaller than any cell.
    root-max :
        (f k n : ℕ) (a : Array A) → k ≤ f → k < n → IsHeap less a n 0 → less (a 0) (a k) ≡ false
    root-max f zero n a p q h = less_irrefl o (a 0)
    root-max zero (suc k) n a p q h = absurd (omega arith)
    root-max (suc f) (suc k) n a p q h = ground (
      arith,
      root-max f (k / 2) n a (omega arith) (omega arith) h,
      h (k / 2) (suc k) (omega arith),
      o.trans (a (suc k)) (a (k / 2)) (a 0),
    )

    -- a[0 .. m) is a heap, a[m .. n) is sorted, and no cell of the first is bigger than one of the
    -- second.
    record IsPhase (a : Array A) (m n : ℕ) : Type 0 where
      heap : IsHeap less a m 0
      sorted : (i j : ℕ) → m ≤ i → i ≤ j → j < n → less (a j) (a i) ≡ false
      split : (i j : ℕ) → i < m → m ≤ j → j < n → less (a j) (a i) ≡ false

    sort_down_step-IsPhase :
        (i n : ℕ) (a : Array A)
        → suc i < n
        → IsPhase a (suc (suc i)) n
        → IsPhase (sift less (suc i) (suc i) 0 (swap a 0 (suc i))) (suc i) n
    unfolding swap
    sort_down_step-IsPhase i n a h v =
        let b = swap a 0 (suc i) in
        let past = sift_past less (suc i) (suc i) 0 b in
        record {
          heap =
              sift-IsHeap less o (suc i) (suc i) 0 0 b (omega arith) (omega arith) (
                λ k c p ne ch q. ground (arith, v.heap k c),
                λ k c p ch ch' q. absurd (omega arith),
              );
          sorted = λ k j p q r.
              rw (past k p, past j (omega arith))
                (ground (arith, less_irrefl o (a 0), v.split 0 j, v.sorted k j));
          split = λ k j p q r. rw (past j q) (
              sift_all less (λ x. less (b j) x ≡ false) (suc i) (suc i) 0 b
                (λ k' p'. ground (
                  arith,
                  root-max k' k' (suc (suc i)) a (omega arith) (omega arith) v.heap,
                  root-max (suc i) (suc i) (suc (suc i)) a (omega arith) (omega arith) v.heap,
                  v.split k' j,
                  v.split (suc i) j,
                ))
                k p);
        }

    sort_down-IsSorted :
        (i n : ℕ) (a : Array A) → i < n → IsPhase a (suc i) n → IsSorted (sort_down less i a) n
    unfolding sort_down
    sort_down-IsSorted zero n a h v =
        λ k j p q. ground (arith, less_irrefl o (a 0), v.split k j, v.sorted k j)
    sort_down-IsSorted (suc i) n a h v =
        sort_down-IsSorted i n _ (omega arith) (sort_down_step-IsPhase i n a h v)

  -- For a comparison that is a strict weak order, `sort` leaves the first `num` elements in ascending
  -- order: no later one is less than an earlier one.
  pub sort-IsSorted : IsOrder less → (a : Array A) (num : ℕ) → IsSorted (sort less a num) num
  unfolding sort
  sort-IsSorted o a zero i j p q = absurd (omega arith)
  sort-IsSorted o a (suc n) i j p q =
      let b = heapify less (suc n / 2) (suc n) a in
      let heap = heapify-IsHeap o (suc n / 2) (suc n) a (λ k c p ch q. absurd (omega arith)) in
      sort_down-IsSorted o (suc n - 1) (suc n) b (omega arith)
        (record {
          heap = λ k c p ch q. heap k c p ch (omega arith);
          sorted = λ k l p q r. absurd (omega arith);
          split = λ k l p q r. absurd (omega arith);
        })
        i j p q
