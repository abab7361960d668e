-- ===== src/Sort.antt =====
-- lib/sort.c: the in-place heapsort. `less x y` is `cmp_func(x, y) < 0`, the only thing that `sort`
-- asks of a comparison. The source scales every index by the size of an element; here an index
-- counts elements, and a swap exchanges two cells as `generic_swap` exchanges their bytes.
pub mod Order
pub mod Sift
pub mod Sorted
pub mod Agree
pub mod Fuel
use xc.Common.{ℕ, zero, suc, ◌+◌, ◌-◌, ◌*◌, ◌/◌, Bool, ◌&&◌, ltb, leb, if◌then◌else◌, Array, update}

module _ {ℓ} {A : Type ℓ} where
  unfoldable pub swap : Array A → ℕ → ℕ → Array A
  swap a i j = update (update a i (a j)) j (a i)

  module _ (less : A → A → Bool) where
    -- The child of `r` to compare with: the right one if it is there and not smaller.
    unfoldable pub bigger_child : ℕ → ℕ → Array A → ℕ
    bigger_child n r a =
        let c = r * 2 + 1 in if ltb (c + 1) n && less (a c) (a (c + 1)) then c + 1 else c

    -- for (r = ...; r * 2 + 1 < n; r = c), with fuel: `r` grows in each round.
    unfoldable pub sift : ℕ → ℕ → ℕ → Array A → Array A
    sift zero n r a = a
    sift (suc fuel) n r a =
        let c = bigger_child n r a in
        let rest = sift fuel n c (swap a r c) in
        if leb n (r * 2 + 1) then a else if less (a r) (a c) then rest else a

    -- for (i = k - 1; i >= 0; i--)
    unfoldable pub heapify : ℕ → ℕ → Array A → Array A
    heapify zero n a = a
    heapify (suc i) n a = heapify i n (sift n n i a)

    -- for (i = ...; i > 0; i--)
    unfoldable pub sort_down : ℕ → Array A → Array A
    sort_down zero a = a
    sort_down (suc i) a = sort_down i (sift (suc i) (suc i) 0 (swap a 0 (suc i)))

    unfoldable pub sort : Array A → ℕ → Array A
    sort a num = sort_down (num - 1) (heapify (num / 2) num a)
