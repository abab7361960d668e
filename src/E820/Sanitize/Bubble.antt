-- ===== src/E820/Sanitize/Bubble.antt =====
-- The sorting of the points ends, with the points in order.
use xc.Common.{
  ℕ, zero, suc, ◌+◌, ◌-◌, ◌≤◌, ◌<◌, ◌≡◌, refl, sym, ap, subst, ◌∙◌, inl, inr, arith, Bool, true,
  false, Bool-cases, branch_on, ◌==◌, ==_iff, Array, total,
}
use xc.Sort.{swap}
use xc.Sort.Order.{IsOrder, less_irrefl}
use xc.Sort.Sorted.{IsSorted}
use xc.Sort.Sift.{total-swap}
use xc.E820.{E820Entry}
use xc.E820.Sanitize.{ChangeMember, comes_before, bubble_pass, bubble_sort}

module _ {ℓ} {A : Type ℓ} (less : A → A → Bool) (o : IsOrder less) (last : ℕ) where
  -- Of the elements 0 to `last`, the last `k` are in order, and none of them is less than one before it.
  abbrev IsTail : ℕ → Array A → Type 0
  IsTail k a = (i j : ℕ) → i ≤ j → j ≤ last → last < j + k → less (a j) (a i) ≡ false

  -- The element at `j` is not less than one before it.
  abbrev IsTop : ℕ → Array A → Type 0
  IsTop j a = (i : ℕ) → i ≤ j → less (a j) (a i) ≡ false

  longer-IsTail : (k j : ℕ) (a : Array A) → j + k ≡ last → IsTail k a → IsTop j a → IsTail (suc k) a
  longer-IsTail k j a e tail top i j' p q r = elim (Bool-cases (j' == j)) [
    | inl here ↦ let here' : j' ≡ j = (==_iff _ _).0 here in rw here' (top i (ground (arith, here)))
    | inr past ↦ tail i j' p q (ground (arith, past))
  ]

  -- In the tail a pass finds nothing to do.
  pass-same :
      (n i k : ℕ) (a : Array A)
      → i + n ≡ last
      → last ≤ i + k
      → IsTail k a
      → bubble_pass less n i a ≡ (false, a)
  unfolding bubble_pass
  pass-same zero i k a e h tail = refl
  pass-same (suc n) i k a e h tail =
      let still = tail i (i + 1) (omega arith) (omega (arith, e)) (omega (arith, h)) in
      let rest = pass-same n (i + 1) k a (omega (arith, e)) (omega (arith, h)) tail in
      rw (still, rest) refl

  -- A swap of two neighbours before the tail.
  swap-IsTail :
      (k i : ℕ) (a : Array A) → i + 1 + k ≤ last → IsTail k a → IsTail k (swap a (i + 1) i)
  unfolding swap
  swap-IsTail k i a h tail i' j p q r = ground (arith, tail i' j, tail i j, tail (i + 1) j)

  swap-IsTop :
      (i : ℕ) (a : Array A)
      → less (a (i + 1)) (a i) ≡ true
      → IsTop i a
      → IsTop (i + 1) (swap a (i + 1) i)
  unfolding swap
  swap-IsTop i a e top i' p =
      ground (arith, top i', o.asym (a (i + 1)) (a i) e, less_irrefl o (a i))

  keep-IsTop : (i : ℕ) (a : Array A) → less (a (i + 1)) (a i) ≡ false → IsTop i a → IsTop (i + 1) a
  keep-IsTop i a e top i' p = elim (Bool-cases (i' == i + 1)) [
    | inl q ↦ let q' : i' ≡ i + 1 = (==_iff _ _).0 q in rw q' (less_irrefl o (a (i + 1)))
    | inr q ↦ o.trans (a i') (a i) (a (i + 1)) (top i' (ground (arith, q))) e
  ]

  -- A pass makes the tail longer by one.
  pass-IsTail :
      (n i k : ℕ) (a : Array A)
      → i + n ≡ last
      → i + k ≤ last
      → IsTail k a
      → IsTop i a
      → IsTail (suc k) (bubble_pass less n i a).1
  unfolding bubble_pass
  pass-IsTail zero i k a e h tail top = longer-IsTail k i a (omega (arith, e, h)) tail top
  pass-IsTail (suc n) i k a e h tail top = elim (Bool-cases (i + k == last)) [
    | inl here ↦
        let longer = longer-IsTail k i a ((==_iff _ _).0 here) tail top in
        subst (λ (r : Bool × Array A). IsTail (suc k) r.1)
          (sym (pass-same (suc n) i (suc k) a e (ground (arith, here)) longer)) longer
    | inr before ↦
        let room : i + 1 + k ≤ last = ground (arith, before, h) in
        branch_on (λ a'. IsTail (suc k) (bubble_pass less n (i + 1) a').1) (less (a (i + 1)) (a i))
          _ _
          (λ q.
            pass-IsTail n (i + 1) k (swap a (i + 1) i) (omega (arith, e)) room
              (swap-IsTail k i a room tail) (swap-IsTop i a q top))
          (λ q. pass-IsTail n (i + 1) k a (omega (arith, e)) room tail (keep-IsTop i a q top))
  ]

  -- A pass that changes nothing leaves the array.
  pass-unchanged :
      (n i : ℕ) (a : Array A) → (bubble_pass less n i a).0 ≡ false → (bubble_pass less n i a).1 ≡ a
  unfolding bubble_pass
  pass-unchanged zero i a e = refl
  pass-unchanged (suc n) i a e = elim (Bool-cases (less (a (i + 1)) (a i))) [
    | inl q ↦ absurd (ground (arith, q, e))
    | inr q ↦
        let e' : (bubble_pass less n (i + 1) a).0 ≡ false = rw q at e in
        rw q (pass-unchanged n (i + 1) a e')
  ]

  first-IsTop : (a : Array A) → IsTop 0 a
  first-IsTop a i h = let e : i ≡ 0 = omega (arith, h) in rw e (less_irrefl o (a 0))

  -- An array that a pass leaves is in order.
  fixed-IsTail :
      (n k : ℕ) (a : Array A)
      → k + n ≡ suc last
      → (bubble_pass less last 0 a).1 ≡ a
      → IsTail k a
      → IsTail (suc last) a
  fixed-IsTail zero k a e same tail = let e' : k ≡ suc last = omega (arith, e) in rw e' at tail
  fixed-IsTail (suc n) k a e same tail = fixed-IsTail n (suc k) a (omega (arith, e)) same (
      subst (IsTail (suc k)) same
        (pass-IsTail last 0 k a (omega arith) (omega (arith, e)) tail (first-IsTop a)))

  bubble_sort-IsTail :
      (fuel k : ℕ) (a : Array A)
      → k + fuel ≡ suc last
      → IsTail k a
      → IsTail (suc last) (bubble_sort less fuel (suc last) a)
  unfolding bubble_sort
  bubble_sort-IsTail zero k a e tail = let e' : k ≡ suc last = omega (arith, e) in rw e' at tail
  bubble_sort-IsTail (suc fuel) k a e tail =
      let one : suc last - 1 ≡ last = omega arith in
      let next = pass-IsTail last 0 k a (omega arith) (omega (arith, e)) tail (first-IsTop a) in
      rw one (
        branch_on (IsTail (suc last)) (bubble_pass less last 0 a).0 _ _
          (λ q.
            bubble_sort-IsTail fuel (suc k) (bubble_pass less last 0 a).1 (omega (arith, e)) next)
          (λ q.
            let same = pass-unchanged last 0 a q in
            subst (IsTail (suc last)) (sym same) (fixed-IsTail (suc fuel) k a e same tail)))

  -- The elements are those that there were.
  total-bubble_pass :
      (f : A → ℕ) (n i : ℕ) (a : Array A)
      → i + n ≡ last
      → total f (suc last) (bubble_pass less n i a).1 ≡ total f (suc last) a
  unfolding bubble_pass
  total-bubble_pass f zero i a e = refl
  total-bubble_pass f (suc n) i a e =
      branch_on (λ a'. total f (suc last) (bubble_pass less n (i + 1) a').1 ≡ total f (suc last) a)
        (less (a (i + 1)) (a i)) _ _
        (λ q.
          total-bubble_pass f n (i + 1) (swap a (i + 1) i) (omega (arith, e))
          ∙ total-swap f (suc last) a (i + 1) i (omega (arith, e)) (omega (arith, e)))
        (λ q. total-bubble_pass f n (i + 1) a (omega (arith, e)))

  total-bubble_sort :
      (f : A → ℕ) (fuel : ℕ) (a : Array A)
      → total f (suc last) (bubble_sort less fuel (suc last) a) ≡ total f (suc last) a
  unfolding bubble_sort
  total-bubble_sort f zero a = refl
  total-bubble_sort f (suc fuel) a =
      let one : suc last - 1 ≡ last = omega arith in
      let pass = total-bubble_pass f last 0 a (omega arith) in
      rw one (
        branch_on (λ r. total f (suc last) r ≡ total f (suc last) a) (bubble_pass less last 0 a).0 _
          _ (λ q. total-bubble_sort f fuel (bubble_pass less last 0 a).1 ∙ pass) (λ q. pass))

comes_before-IsOrder : (biosmap : Array E820Entry) → IsOrder (comes_before biosmap)
unfolding comes_before
comes_before-IsOrder biosmap = record {
  asym = λ x y e. ground (arith, e);
  trans = λ x y z e f. ground (arith, e, f);
}

-- The point stands for the start of its entry.
abbrev pub IsStart : Array E820Entry → ChangeMember → Type 0
IsStart biosmap m = m.addr ≡ (biosmap m.pbios).addr

-- The addresses ascend, and at an address no point at which an entry ends is before one at which an entry
-- starts.
pub record IsInOrder (biosmap : Array E820Entry) (chg_nr : ℕ) (points : Array ChangeMember)
    : Type 0 where
  pub ascends : (i j : ℕ) → i ≤ j → j < chg_nr → (points i).addr ≤ (points j).addr
  pub starts_first :
      (i j : ℕ)
      → i ≤ j
      → j < chg_nr
      → (points i).addr ≡ (points j).addr
      → IsStart biosmap (points j)
      → IsStart biosmap (points i)

IsSorted-IsInOrder :
    (biosmap : Array E820Entry) (chg_nr : ℕ) (points : Array ChangeMember)
    → IsSorted (comes_before biosmap) points chg_nr
    → IsInOrder biosmap chg_nr points
unfolding comes_before
IsSorted-IsInOrder biosmap chg_nr points v = record {
  ascends = λ i j p q. ground (arith, v i j p q);
  starts_first = λ i j p q e start. ground (arith, v i j p q, e, start);
}

-- What sorting the points is to give: they are in order, no round would change them, and they are those
-- that there were, each as often.
abbrev pub IsSortedOf :
    (biosmap : Array E820Entry) (chg_nr : ℕ) → Array ChangeMember → Array ChangeMember → Type 0
IsSortedOf biosmap chg_nr points sorted =
    IsInOrder biosmap chg_nr sorted
    × ((bubble_pass (comes_before biosmap) (chg_nr - 1) 0 sorted).0 ≡ false)
    × ((f : ChangeMember → ℕ) → total f chg_nr sorted ≡ total f chg_nr points)

no_points :
    (biosmap : Array E820Entry) (points : Array ChangeMember)
    → IsSortedOf biosmap 0 points (bubble_sort (comes_before biosmap) 0 0 points)
unfolding bubble_sort bubble_pass
no_points biosmap points = (
  record {
    ascends = λ i j p q. absurd (omega (arith, q));
    starts_first = λ i j p q e start. absurd (omega (arith, q));
  },
  refl,
  λ f. refl,
)

-- Sorting the points of the BIOS map ends within as many rounds as there are points, with the points in
-- order: by their addresses and, at an address, those at which entries start before those at which
-- entries end; and the points are the same ones, each as often as before.
pub bubble_sort-IsSorted :
    (biosmap : Array E820Entry) (chg_nr : ℕ) (points : Array ChangeMember)
    → IsSortedOf biosmap chg_nr points (bubble_sort (comes_before biosmap) chg_nr chg_nr points)
bubble_sort-IsSorted biosmap zero points = no_points biosmap points
bubble_sort-IsSorted biosmap (suc last) points =
    let less = comes_before biosmap in
    let o = comes_before-IsOrder biosmap in
    let tail =
      bubble_sort-IsTail less o last (suc last) 0 points (omega arith)
        (λ i j p q r. absurd (omega (arith, q, r))) in
    let one : suc last - 1 ≡ last = omega arith in
    (
      IsSorted-IsInOrder biosmap (suc last) (bubble_sort less (suc last) (suc last) points)
          (λ i j p q. tail i j p (omega (arith, q)) (omega arith)),
      rw one (
          ap (λ r. r.0)
            (pass-same less o last last 0 (suc last) (bubble_sort less (suc last) (suc last) points)
              (omega arith) (omega arith) tail)),
      λ f. total-bubble_sort less o last f (suc last) points,
    )
