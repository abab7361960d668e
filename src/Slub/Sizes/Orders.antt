-- ===== src/Slub/Sizes/Orders.antt =====
-- mm/slub.c: the order that `calculate_order` chooses, and the slab that it makes.
use xc.Common.{
  ℕ, zero, suc, ◌+◌, ◌-◌, ◌*◌, ◌/◌, ◌%◌, ◌^◌, ◌≤◌, ◌<◌, ◌≡◌, ◌⊎◌, subst, sym, ap, ◌∙◌, inl, inr,
  arith, Bool, true, false, Option, none, some, ltb, leb, if◌then◌else◌, Option-cases, branch_on,
  min, long_sub,
}
use Prim.Native.Nat.{bit_and}
use native.Mathlib.Nat.{mod-lt, mul_comm}
use xc.Common.Bits.{bit_and-low_digits}
use xc.Buddy.{max_order}
use xc.Slub.{KmemCache, oo_shift, oo_mask}
use xc.Slub.Pages.{page_size}
use xc.Slub.Alloc.{oo_objects, oo_order}
use xc.Slub.Fresh.{IsSized}
use xc.Slub.Sizes.{
  fls, fls_rounds, get_order, order_objects, oo_make, slab_order_loop, slab_order, try_fractions,
  try_objects, calculate_order, or_else, slub_max_order, max_objs_per_page, page_shift,
}
use xc.Slub.Sizes.Powers.{
  quotient_positive, times-le, quotient-le, long_sub_none, pow_le, pow_lt, fls_rounds-bounds,
}

-- What the source means by a slab that is large enough.
abbrev pub IsLarge : ℕ → ℕ → Type 0
IsLarge size order = (order ≤ slub_max_order) × (size ≤ page_size * 2 ^ order)

-- The loop ends past the last order, or at an order for which the objects fit.
slab_order_loop_lem :
    (n order size min_objects fraction : ℕ)
    → let r = slab_order_loop n order size min_objects fraction 0 in
      (r ≡ order + n) ⊎ (min_objects * size ≤ page_size * 2 ^ r)
unfolding slab_order_loop
slab_order_loop_lem zero order size min_objects fraction = inl (omega arith)
slab_order_loop_lem (suc n) order size min_objects fraction =
    let at = λ (r : ℕ). (r ≡ order + suc n) ⊎ (min_objects * size ≤ page_size * 2 ^ r) in
    let next : at (slab_order_loop n (order + 1) size min_objects fraction 0) =
      elim (slab_order_loop_lem n (order + 1) size min_objects fraction) [
        | inl e ↦ inl (omega (arith, e))
        | inr e ↦ inr e
      ] in
    let slab_size = page_size * 2 ^ order in
    let rest = slab_order_loop n (order + 1) size min_objects fraction 0 in
    let fits = leb (long_sub slab_size 0 % size) (slab_size / fraction) in
    branch_on at (ltb slab_size (min_objects * size + 0)) rest (if fits then order else rest)
      (λ e. next) (λ e. branch_on at fits order rest (λ f. inr (ground arith)) (λ f. next))

-- With a single object to fit, and any rest allowed, the last order at which it fits is not passed.
slab_order_loop_one :
    (n order size : ℕ)
    → 0 < size
    → order + n ≤ slub_max_order
    → size ≤ page_size * 2 ^ (order + n)
    → slab_order_loop (suc n) order size 1 1 0 ≤ order + n
unfolding slab_order_loop
slab_order_loop_one zero order size h l k =
    let slab_size = page_size * 2 ^ order in
    let at = λ (r : ℕ). r ≤ order + 0 in
    let fits = leb (long_sub slab_size 0 % size) (slab_size / 1) in
    let large : size ≤ slab_size = subst (λ o. size ≤ page_size * 2 ^ o) (omega arith) k in
    let rest = slab_order_loop 0 (order + 1) size 1 1 0 in
    let rem = mod-lt (long_sub slab_size 0) h in
    branch_on at (ltb slab_size (1 * size + 0)) rest (if fits then order else rest)
      (λ e. absurd (ground arith))
      (λ e. branch_on at fits order rest (λ f. omega arith) (λ f. absurd (ground arith)))
slab_order_loop_one (suc n) order size h l k =
    let slab_size = page_size * 2 ^ order in
    let at = λ (r : ℕ). r ≤ order + suc n in
    let fits = leb (long_sub slab_size 0 % size) (slab_size / 1) in
    let rest = slab_order_loop (suc n) (order + 1) size 1 1 0 in
    let next : rest ≤ order + suc n =
      let ih =
        slab_order_loop_one n (order + 1) size h (omega arith)
          (subst (λ o. size ≤ page_size * 2 ^ o) (omega arith) k) in
      omega (arith, ih) in
    branch_on at (ltb slab_size (1 * size + 0)) rest (if fits then order else rest) (λ e. next)
      (λ e. branch_on at fits order rest (λ f. omega arith) (λ f. next))

-- The slab of an order for which the objects fit.
pub slab-IsSized :
    (s : KmemCache) (order : ℕ)
    → 4 ≤ s.size
    → IsLarge s.size order
    → IsSized s (oo_make order s.size 0)
unfolding oo_make order_objects oo_objects oo_order
slab-IsSized s order h (low, fits) =
    let n = page_size * 2 ^ order in
    let bounded : n ≤ 32768 = omega (arith, pow_le order 3 low) in
    let q = n / s.size in
    let whole : long_sub n 0 / s.size ≡ q = ap (λ m. m / s.size) (long_sub_none n (omega arith)) in
    let some_object = quotient_positive s.size n (omega arith) fits in
    let inside = quotient-le s.size n in
    let few : q < 2 ^ 13 + 1 = omega (arith, times-le s.size 4 q h, inside) in
    let objects : bit_and oo_mask (order * 2 ^ oo_shift + long_sub n 0 / s.size) ≡ q =
      rw whole (bit_and-low_digits 16 order q (omega arith)) in
    let same_order : (order * 2 ^ oo_shift + long_sub n 0 / s.size) / 2 ^ oo_shift ≡ order =
      rw whole (omega arith) in
    record {
      some_object = rw objects some_object;
      few_objects = rw objects (omega arith);
      fits = rw (objects, same_order) inside;
    }

pub oo_order-oo_make :
    (s : KmemCache) (order : ℕ)
    → 4 ≤ s.size
    → IsLarge s.size order
    → oo_order (oo_make order s.size 0) ≡ order
unfolding oo_make order_objects oo_order
oo_order-oo_make s order h (low, fits) =
    let n = page_size * 2 ^ order in
    let bounded : n ≤ 32768 = omega (arith, pow_le order 3 low) in
    let q = n / s.size in
    let whole : long_sub n 0 / s.size ≡ q = ap (λ m. m / s.size) (long_sub_none n (omega arith)) in
    let few : q < 2 ^ 13 + 1 = omega (arith, times-le s.size 4 q h, quotient-le s.size n) in
    rw whole (omega arith)

get_or : Option ℕ → ℕ
get_or none = 0
get_or (some o) = o

-- A result, where there is one, is large enough.
abbrev Found : ℕ → Option ℕ → Type 0
Found size r = (o : ℕ) → r ≡ some o → IsLarge size o

Found-some : (size o : ℕ) → IsLarge size o → Found size (some o)
unfolding get_or
Found-some size o h o' e = subst (IsLarge size) (ap get_or e) h

is_some : Option ℕ → Bool
is_some none = false
is_some (some o) = true

Found-none : (size : ℕ) → Found size none
unfolding is_some
Found-none size o e = absurd (ground (arith, ap is_some e))

Found-or_else : (size : ℕ) (a b : Option ℕ) → Found size a → Found size b → Found size (or_else a b)
Found-or_else size (some o) b f g = f
Found-or_else size none b f g = g

module _ (size : ℕ) (positive : 0 < size) where
  first_test : ltb max_objs_per_page (order_objects 0 size 0) ≡ false
  unfolding order_objects
  first_test =
      let q = long_sub (page_size * 2 ^ 0) 0 / size in
      let inside : q * size ≤ 4096 = omega (
        arith,
        quotient-le size (long_sub (page_size * 2 ^ 0) 0),
        long_sub_none 4096 (omega arith),
      ) in
      let at_most : q * 1 ≤ q * size = times-le size 1 q positive in ground (arith, at_most, inside)

  slab_order_is :
      (m max fraction : ℕ)
      → let first = fls (m * size - 1) - page_shift in
        slab_order size m max fraction 0 ≡ slab_order_loop (max + 1 - first) first size m fraction 0
  unfolding slab_order
  slab_order_is m max fraction =
      let first = fls (m * size - 1) - page_shift in
      ap
        (λ b.
          if b
          then get_order (size * max_objs_per_page) - 1
          else slab_order_loop (max + 1 - first) first size m fraction 0)
        first_test

  slab_order-IsLarge :
      (m fraction : ℕ)
      → 0 < m
      → leb (slab_order size m slub_max_order fraction 0) slub_max_order ≡ true
      → IsLarge size (slab_order size m slub_max_order fraction 0)
  slab_order-IsLarge m fraction h k =
      let first = fls (m * size - 1) - page_shift in
      let r = slab_order_loop (slub_max_order + 1 - first) first size m fraction 0 in
      let e = slab_order_is m slub_max_order fraction in
      let small : r ≤ slub_max_order = ground (arith, e) in
      let once : 1 * size ≤ m * size =
        rw (mul_comm 1 size, mul_comm m size) (times-le m 1 size h) in
      subst (IsLarge size) (sym e)
        (elim (slab_order_loop_lem (slub_max_order + 1 - first) first size m fraction) [
          | inl past ↦ absurd (omega (arith, past))
          | inr fits ↦ (small, omega (arith, fits, once))
        ])

  try_fractions-Found : (m : ℕ) → 0 < m → Found size (try_fractions size m 0)
  unfolding try_fractions
  try_fractions-Found m h =
      let at = λ (fraction : ℕ). slab_order size m slub_max_order fraction 0 in
      let found = λ (fraction : ℕ) (e : leb (at fraction) slub_max_order ≡ true).
        Found-some size (at fraction) (slab_order-IsLarge m fraction h e) in
      let last : Option ℕ = if leb (at 4) slub_max_order then some (at 4) else none in
      let middle : Option ℕ = if leb (at 8) slub_max_order then some (at 8) else last in
      branch_on (Found size) (leb (at 16) slub_max_order) (some (at 16)) middle (found 16) (λ e.
        branch_on (Found size) (leb (at 8) slub_max_order) (some (at 8)) last (found 8) (λ f.
          branch_on (Found size) (leb (at 4) slub_max_order) (some (at 4)) none (found 4)
            (λ g. Found-none size)))

  try_objects-Found : (n : ℕ) → Found size (try_objects n size 0)
  unfolding try_objects
  try_objects-Found zero = Found-none size
  try_objects-Found (suc n) =
      Found-or_else size (try_fractions size (n + 2) 0) (try_objects n size 0)
        (try_fractions-Found (n + 2) (omega arith)) (try_objects-Found n)

  module _ (small : size ≤ page_size * 2 ^ slub_max_order) (more : 1 < size) where
    abbrev first_order : ℕ
    first_order = fls (1 * size - 1) - page_shift

    first_order-le : first_order ≤ slub_max_order
    unfolding fls
    first_order-le =
        let (low, high) = fls_rounds-bounds 32 (1 * size - 1) (omega arith) (omega arith) in
        let below = pow_lt (fls_rounds 32 (1 * size - 1)) 16 (omega (arith, high)) in
        omega (arith, below)

    abbrev one_object : ℕ
    one_object = slab_order size 1 slub_max_order 1 0

    one_object-small : leb one_object slub_max_order ≡ true
    one_object-small =
        let first = first_order-le in
        let rounds : slub_max_order + 1 - first_order ≡ suc (slub_max_order - first_order) =
          omega (arith, first) in
        let last : first_order + (slub_max_order - first_order) ≡ slub_max_order =
          omega (arith, first) in
        let at_most =
          slab_order_loop_one (slub_max_order - first_order) first_order size positive
            (omega (arith, last)) (subst (λ o. size ≤ page_size * 2 ^ o) (sym last) small) in
        let e : one_object
            ≡ slab_order_loop (suc (slub_max_order - first_order)) first_order size 1 1 0 =
          slab_order_is 1 slub_max_order 1
          ∙ ap (λ n. slab_order_loop n first_order size 1 1 0) rounds in
        ground (arith, at_most, e, last)

    pub calculate_order-some :
        (order : ℕ) × ((calculate_order size 0 ≡ some order) × IsLarge size order)
    unfolding calculate_order
    calculate_order-some =
        let n = min (4 * (fls 1 + 1)) (order_objects slub_max_order size 0) - 1 in
        let any = slab_order size 1 max_order 1 0 in
        let rest : Option ℕ = if ltb any max_order then some any else none in
        let fallback : Bool → Option ℕ = λ b. if b then some one_object else rest in
        let large = slab_order-IsLarge 1 1 (omega arith) one_object-small in
        elim (Option-cases (try_objects n size 0)) [
          | inl e ↦ (
            one_object,
            (
              ap (λ r. or_else r (fallback (leb one_object slub_max_order))) e
                  ∙ ap fallback one_object-small,
              large,
            ),
          )
          | inr (o, e) ↦ (
            o,
            (
              ap (λ r. or_else r (fallback (leb one_object slub_max_order))) e,
              try_objects-Found n o e,
            ),
          )
        ]

-- For an object size from 4 up to 8 pages, `calculate_order` finds an order, of 3 at most, and the slab
-- of that order which `oo_make` describes holds one object at least, and no more than fit into its pages.
pub calculate_order-IsSized :
    (s : KmemCache)
    → 4 ≤ s.size
    → s.size ≤ page_size * 2 ^ slub_max_order
    → (order : ℕ) × ((calculate_order s.size 0 ≡ some order)
        × ((order ≤ slub_max_order) × IsSized s (oo_make order s.size 0)))
calculate_order-IsSized s h k =
    let (order, (e, large)) = calculate_order-some s.size (omega arith) k (omega arith) in
    (order, (e, (large.0, slab-IsSized s order h large)))
