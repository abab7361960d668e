-- ===== src/Sort/Fuel.antt =====
-- The loops of lib/sort.c end: the index of the loop that sifts down grows in each round.
use xc.Common.{ℕ, zero, suc, ◌+◌, ◌*◌, ◌≤◌, ◌<◌, ◌≡◌, refl, arith, leb, Bool, true, Array}
use xc.Sort.{swap, bigger_child, sift}

bigger_child-lt {ℓ} :
    {A : Type ℓ} (less : A → A → Bool) (n r : ℕ) (a : Array A) → r < bigger_child less n r a
unfolding bigger_child
bigger_child-lt less n r a = ground arith

-- The loop that sifts down from `r` in `n` elements has ended after `fuel` rounds when `r + fuel` is at
-- least `n`: with more fuel the result is the same.
pub sift-fuel {ℓ} :
    {A : Type ℓ} (less : A → A → Bool) (fuel more n r : ℕ) (a : Array A)
    → n ≤ r + fuel
    → fuel ≤ more
    → sift less more n r a ≡ sift less fuel n r a
unfolding sift
sift-fuel less zero zero n r a h le = refl
sift-fuel less zero (suc more) n r a h le =
    let stop : leb n (r * 2 + 1) ≡ true = ground arith in rw (stop, sift) refl
sift-fuel less (suc fuel) zero n r a h le = absurd (omega arith)
sift-fuel less (suc fuel) (suc more) n r a h le =
    let c = bigger_child less n r a in
    rw
      (sift-fuel less fuel more n c (swap a r c) (omega (arith, bigger_child-lt less n r a))
        (omega arith))
      refl
