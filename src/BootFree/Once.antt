-- ===== src/BootFree/Once.antt =====
-- Each page of the range is freed once.
use Prim.Native.Nat.{bit_and, min}
use xc.Common.{
  ℕ, zero, suc, ◌+◌, ◌-◌, ◌*◌, ◌/◌, ◌%◌, ◌^◌, ◌≤◌, ◌<◌, ◌≡◌, ◌∙◌, refl, ap, inl, inr, arith, List,
  [], ◌∷◌, ◌++◌, leb, ltb, ◌&&◌, if◌then◌else◌, true, false, Bool-cases,
}
use xc.Common.Bits.{bit_and_low}
use xc.BootFree.{
  Freed, ulong_mod, bits_per_long, long_down, free_pages, free_blocks, free_pages_memory,
}

-- How many of the calls free the page `q`.
unfoldable pub frees : ℕ → List Freed → ℕ
frees q [] = 0
frees q (f ∷ l) = (if leb f.pfn q && ltb q (f.pfn + 2 ^ f.order) then 1 else 0) + frees q l

frees-append : (q : ℕ) (l m : List Freed) → frees q (l ++ m) ≡ frees q l + frees q m
unfolding frees
frees-append q [] m = omega arith
frees-append q (f ∷ l) m = omega (arith, frees-append q l m)

abbrev pub inside : ℕ → ℕ → ℕ → ℕ
inside q start end = if leb start q && ltb q end then 1 else 0

frees-free_pages : (n i q : ℕ) → frees q (free_pages n i) ≡ inside q i (i + n)
unfolding frees free_pages
frees-free_pages zero i q = ground arith
frees-free_pages (suc n) i q = ground (arith, frees-free_pages n (i + 1) q)

-- The blocks, from an aligned page to another.
frees-free_blocks :
    (fuel k i q : ℕ)
    → k ≤ fuel
    → frees q (free_blocks fuel i (i + k * bits_per_long)) ≡ inside q i (i + k * bits_per_long)
unfolding frees free_blocks
frees-free_blocks zero zero i q h = ground arith
frees-free_blocks zero (suc k) i q h = absurd (omega arith)
frees-free_blocks (suc fuel) zero i q h =
    let stop : ltb i (i + 0 * bits_per_long) ≡ false = ground arith in rw stop (ground arith)
frees-free_blocks (suc fuel) (suc k) i q h =
    let go : ltb i (i + suc k * bits_per_long) ≡ true = ground arith in
    let next : i + suc k * bits_per_long ≡ i + bits_per_long + k * bits_per_long = omega arith in
    rw (go, next) (ground (arith, frees-free_blocks fuel k (i + bits_per_long) q (omega arith)))

-- A mask of ones keeps the low digits.
ones : ℕ → ℕ
ones zero = 0
ones (suc k) = suc (2 * ones k)

bit_and-ones : (k x : ℕ) → x ≤ ones k → bit_and x (ones k) ≡ x
unfolding ones
bit_and-ones zero zero h = refl
bit_and-ones zero (suc x) h = absurd (omega arith)
bit_and-ones (suc k) x h =
    let low : suc (2 * ones k) % 2 ≡ 1 = omega arith in
    let high : suc (2 * ones k) / 2 ≡ ones k = omega arith in
    let digit : bit_and x (suc (2 * ones k)) ≡ min (x % 2) 1 + 2 * bit_and (x / 2) (ones k) =
      rw (low, high) at (bit_and_low x (suc (2 * ones k))) in
    omega (arith, digit, bit_and-ones k (x / 2) (omega arith))

long_down_exact : (x : ℕ) → x < ulong_mod → long_down x + x % bits_per_long ≡ x
unfolding long_down ones
long_down_exact x h =
    let top : bit_and (x / 2 / 2 / 2 / 2 / 2) 134217727 ≡ x / 2 / 2 / 2 / 2 / 2 =
      bit_and-ones 27 (x / 2 / 2 / 2 / 2 / 2) (omega arith) in
    omega (
      arith,
      bit_and_low x 4294967264,
      bit_and_low (x / 2) 2147483632,
      bit_and_low (x / 2 / 2) 1073741816,
      bit_and_low (x / 2 / 2 / 2) 536870908,
      bit_and_low (x / 2 / 2 / 2 / 2) 268435454,
      top,
    )

three_parts :
    (start s e end q : ℕ) {x y z : ℕ}
    → start ≤ s
    → s ≤ e
    → e ≤ end
    → x ≡ inside q start s
    → y ≡ inside q s e
    → z ≡ inside q e end
    → x + (y + z) ≡ inside q start end
three_parts start s e end q h k l before middle behind = ground (arith, before, middle, behind)

-- Where rounding `end` up does not wrap: the calls free each page of [start, end) once, and no other.
pub frees-free_pages_memory :
    (start end q : ℕ)
    → start ≤ end
    → end + bits_per_long ≤ ulong_mod
    → frees q (free_pages_memory start end) ≡ inside q start end
unfolding free_pages_memory
frees-free_pages_memory start end q h fit =
    let up = (start + (bits_per_long - 1)) % ulong_mod in
    let s = long_down up in
    let e = long_down end in
    let s-exact = long_down_exact up (omega arith) in
    let e-exact = long_down_exact end (omega arith) in
    elim (Bool-cases (leb e s)) [
      | inl short ↦ rw short (ground (arith, frees-free_pages (end - start) start q))
      | inr long ↦
          let k = (e - s) / bits_per_long in
          let whole : s + k * bits_per_long ≡ e = ground (arith, s-exact, e-exact) in
          let middle : frees q (free_blocks (e - s) s e) ≡ inside q s e =
            rw whole at (frees-free_blocks (e - s) k s q (omega arith)) in
          let first : start + (s - start) ≡ s = ground (arith, s-exact) in
          let last : e + (end - e) ≡ end = ground (arith, e-exact) in
          let before : frees q (free_pages (s - start) start) ≡ inside q start s =
            rw first at (frees-free_pages (s - start) start q) in
          let behind : frees q (free_pages (end - e) e) ≡ inside q e end =
            rw last at (frees-free_pages (end - e) e q) in
          rw long (
            frees-append q (free_pages (s - start) start)
              (free_blocks (e - s) s e ++ free_pages (end - e) e)
            ∙ ap (λ n. frees q (free_pages (s - start) start) + n)
                (frees-append q (free_blocks (e - s) s e) (free_pages (end - e) e))
            ∙ three_parts start s e end q (omega (arith, first)) (ground arith)
                (omega (arith, last)) before middle behind)
    ]
