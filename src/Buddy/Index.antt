-- ===== src/Buddy/Index.antt =====
-- The buddy of a block lies 2 ^ order above or below it, and the pair begins at the lower of the two.
-- The bit operations on an index below 2 ^ MAX_ORDER are checked at every value.
use Prim.Native.Nat.{bit_and, bit_xor}
use xc.Common.{
  ℕ, zero, suc, ◌+◌, ◌^◌, ◌<◌, ◌≡◌, refl, ◌⊎◌, arith, Bool, true, inl, inr, Bool-cases, ==_iff,
  if◌then◌else◌, ltb, ◌-◌, ◌&&◌, ◌||◌, ◌==◌,
}
use xc.Buddy.{max_order, find_buddy_index, page_index, buddy_of, combined_of}

-- How many indexes below `limit` fail a test.
misses : (ℕ → Bool) → ℕ → ℕ
misses test zero = 0
misses test (suc limit) = (if test limit then 0 else 1) + misses test limit

no_miss : (test : ℕ → Bool) (limit i : ℕ) → i < limit → misses test limit ≡ 0 → test i ≡ true
unfolding misses
no_miss test zero i within none_left = absurd (omega arith)
no_miss test (suc limit) i within none_left = elim (Bool-cases (i == limit)) [
  | inl e ↦ let same : i ≡ limit = (==_iff i limit).0 e in rw same (ground arith)
  | inr e ↦ no_miss test limit i (ground arith) (ground arith)
]

-- The pair of the index `x` at `order`.
is_pair : ℕ → ℕ → Bool
is_pair order x =
    let b = bit_xor x (2 ^ order) in
    let c = bit_and b x in (b == x + 2 ^ order && c == x) || (b + 2 ^ order == x && c == b)

pair_table : misses (λ order. misses (is_pair order) (2 ^ max_order) == 0) max_order ≡ 0
unfolding misses is_pair
pair_table = refl

abbrev pub IsPair : ℕ → ℕ → ℕ → ℕ → Type 0
IsPair order p buddy first =
    ((buddy ≡ p + 2 ^ order) × (first ≡ p)) ⊎ ((buddy + 2 ^ order ≡ p) × (first ≡ buddy))

index-IsPair :
    (order x : ℕ)
    → order < max_order
    → x < 2 ^ max_order
    → let b = find_buddy_index x order in IsPair order x b (bit_and b x)
unfolding find_buddy_index is_pair
index-IsPair order x h k =
    let row = no_miss (λ o. misses (is_pair o) (2 ^ max_order) == 0) max_order order h pair_table in
    let cell = no_miss (is_pair order) (2 ^ max_order) x k ((==_iff _ _).0 row) in
    ground (arith, cell)

pub buddy-IsPair :
    (p order : ℕ) → order < max_order → IsPair order p (buddy_of p order) (combined_of p order)
unfolding buddy_of combined_of
buddy-IsPair p order h = ground (arith, index-IsPair order (page_index p) h (omega arith))

-- The buddy of the buddy is the block itself.
is_involution : ℕ → ℕ → Bool
is_involution order x =
    let b = bit_xor x (2 ^ order) in ltb b (2 ^ max_order) && bit_xor b (2 ^ order) == x

involution_table : misses (λ order. misses (is_involution order) (2 ^ max_order) == 0) max_order ≡ 0
unfolding misses is_involution
involution_table = refl

pub buddy_of-buddy_of : (p order : ℕ) → order < max_order → buddy_of (buddy_of p order) order ≡ p
unfolding buddy_of find_buddy_index is_involution
buddy_of-buddy_of p order h =
    let x = page_index p in
    let row =
      no_miss (λ o. misses (is_involution o) (2 ^ max_order) == 0) max_order order h
        involution_table in
    let cell = no_miss (is_involution order) (2 ^ max_order) x (omega arith) ((==_iff _ _).0 row) in
    let y = bit_xor x (2 ^ order) in
    let low : y < 2 ^ max_order = ground (arith, cell) in
    let back : bit_xor y (2 ^ order) ≡ x = ground (arith, cell) in
    let index : page_index (p - x + y) ≡ y = omega (arith, low) in
    rw (index, back) (omega (arith, low))
