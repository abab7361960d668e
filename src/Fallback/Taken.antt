-- ===== src/Fallback/Taken.antt =====
-- `__rmqueue` takes free pages and nothing else, and finds a block where it looks for one.
use xc.Common.{
  ℕ, zero, suc, ◌+◌, ◌-◌, ◌≤◌, ◌<◌, ◌≡◌, ◌≢◌, refl, ap, subst, inl, inr, arith, Option, none, some,
  List, [], ◌∷◌, Bool-cases, List-cases, Option-cases, ◌==◌, ==_iff,
}
use xc.Buddy.{Zone, max_order, migrate_types, rmqueue_smallest}
use xc.Buddy.ZoneState.{IsZone}
use xc.Buddy.Alloc.{IsTaken, rmqueue_smallest_lem}
use xc.Fallback.{
  Area, migrate_reserve, fallbacks, find_fallback, rmqueue_fallback_loop, rmqueue_fallback,
  with_zone, or_reserve, or_fallback, rmqueue,
}
use xc.Fallback.Out.{IsOut, take_fallback-IsOut}

-- What the search over the types of an order tells.
abbrev IsFallback : Zone → ℕ → ℕ → ℕ → Option (ℕ × ℕ) → Type 0
IsFallback z current_order t i none =
    (j : ℕ)
    → i ≤ j
    → j < migrate_types
    → fallbacks t j ≢ migrate_reserve
    → z.free_list current_order (fallbacks t j) ≡ []
IsFallback z current_order t i (some (migratetype, p)) =
    (migratetype < migrate_types)
    × ((rest : List ℕ) × (z.free_list current_order migratetype ≡ p ∷ rest))

IsFallback-before :
    (z : Zone) (current_order t i : ℕ) (r : Option (ℕ × ℕ))
    → (fallbacks t i ≢ migrate_reserve → z.free_list current_order (fallbacks t i) ≡ [])
    → IsFallback z current_order t (suc i) r
    → IsFallback z current_order t i r
unfolding IsFallback
IsFallback-before z current_order t i (some x) here found = found
IsFallback-before z current_order t i none here empty = λ j le h ne. elim (Bool-cases (j == i)) [
  | inl e ↦ let e' : j ≡ i = (==_iff _ _).0 e in rw e' (here (rw e' at ne))
  | inr e ↦ empty j (ground arith) h ne
]

fallbacks-lt : (t i : ℕ) → fallbacks t i < migrate_types
unfolding fallbacks
fallbacks-lt t i = ground arith

find_fallback-IsFallback :
    (n i : ℕ) (z : Zone) (current_order t : ℕ)
    → i + n ≡ migrate_types
    → IsFallback z current_order t i (find_fallback n i z current_order t)
unfolding find_fallback IsFallback
find_fallback-IsFallback zero i z current_order t e = λ j p q r. absurd (omega arith)
find_fallback-IsFallback (suc n) i z current_order t e =
    let rest = find_fallback-IsFallback n (suc i) z current_order t (omega arith) in
    elim (Bool-cases (fallbacks t i == migrate_reserve)) [
      | inl r ↦ rw r (
          IsFallback-before z current_order t i (find_fallback n (suc i) z current_order t)
            (λ ne. absurd (ne ((==_iff _ _).0 r))) rest)
      | inr r ↦ elim (List-cases (z.free_list current_order (fallbacks t i))) [
        | inl none_left ↦
            rw (r, none_left, find_fallback)
              (IsFallback-before z current_order t i (find_fallback n (suc i) z current_order t)
                (λ ne. none_left) rest)
        | inr (p, l, some_left) ↦
            rw (r, some_left, find_fallback) (fallbacks-lt t i, (l, some_left))
      ]
    ]

-- What `__rmqueue_fallback` may give: a block of free pages, or nothing, with no block to be had.
abbrev pub NoFallback : Zone → ℕ → ℕ → Type 0
NoFallback z order t =
    (o j : ℕ)
    → order ≤ o
    → o < max_order
    → j < migrate_types
    → fallbacks t j ≢ migrate_reserve
    → z.free_list o (fallbacks t j) ≡ []

abbrev IsFallen : Area → ℕ → ℕ → ℕ → Option ℕ × Area → Type 0
IsFallen a order t n (some p, a') = IsOut a order p a'
IsFallen a order t n (none, a') =
    (a' ≡ a)
    × ((o j : ℕ)
        → order ≤ o
        → o < order + n
        → j < migrate_types
        → fallbacks t j ≢ migrate_reserve
        → a.zone.free_list o (fallbacks t j) ≡ [])

IsFallen-after :
    (a : Area) (order t n : ℕ) (r : Option ℕ × Area)
    → IsFallback a.zone (order + n) t 0 none
    → IsFallen a order t n r
    → IsFallen a order t (suc n) r
unfolding IsFallback
IsFallen-after a order t n (some p, a') here fallen = fallen
IsFallen-after a order t n (none, a') here (same, empty) = (
  same,
  λ o j le h k ne. elim (Bool-cases (o == order + n)) [
    | inl e ↦ let e' : o ≡ order + n = (==_iff _ _).0 e in rw e' (here j (omega arith) k ne)
    | inr e ↦ empty o j le (ground arith) k ne
  ],
)

module _ (a : Area) (v : IsZone a.zone) (order t : ℕ) (k : t < migrate_types) where
  fallback_loop-IsFallen :
      (n : ℕ) → order + n ≤ max_order → IsFallen a order t n (rmqueue_fallback_loop n a order t)
  unfolding rmqueue_fallback_loop
  fallback_loop-IsFallen zero h = (refl, λ o j p q. absurd (omega arith))
  fallback_loop-IsFallen (suc n) h =
      let found = find_fallback-IsFallback migrate_types 0 a.zone (order + n) t refl in
      elim (Option-cases (find_fallback migrate_types 0 a.zone (order + n) t)) [
        | inl none_left ↦
            rw (none_left, rmqueue_fallback_loop)
              (IsFallen-after a order t n (rmqueue_fallback_loop n a order t)
                (rw none_left at found) (fallback_loop-IsFallen n (omega arith)))
        | inr ((migratetype, p), some_left) ↦
            let (lt, (rest, first)) = subst (IsFallback a.zone (order + n) t 0) some_left found in
            rw (some_left, rmqueue_fallback_loop)
              (take_fallback-IsOut a v order t k p (order + n) migratetype rest (omega arith)
                (omega arith) lt first)
      ]

abbrev pub NoBlock : Zone → ℕ → ℕ → Type 0
NoBlock z order t = (o : ℕ) → order ≤ o → o < max_order → z.free_list o t ≡ []

-- What `__rmqueue` may give: a block of free pages; or nothing, with no block in any list that it tries.
abbrev pub IsGot : Area → ℕ → ℕ → Option ℕ × Area → Type 0
IsGot a order t (some p, a') = IsOut a order p a'
IsGot a order t (none, a') =
    (a' ≡ a)
    × (NoBlock a.zone order t
        × (t ≢ migrate_reserve → NoFallback a.zone order t × NoBlock a.zone order migrate_reserve))

module _ (a : Area) (v : IsZone a.zone) (order t : ℕ) (h : order < max_order)
    (k : t < migrate_types) (empty : NoBlock a.zone order t) where
  reserve-IsGot :
      (r : Option ℕ × Zone)
      → NoFallback a.zone order t
      → IsTaken a.zone order order migrate_reserve r
      → IsGot a order t (with_zone a r)
  unfolding with_zone
  reserve-IsGot (some p, z') n taken = taken
  reserve-IsGot (none, z') n (same, empty') =
      (ap (λ z. record a { zone = z }) same, (empty, λ ne. (n, empty')))

  fallback-IsGot :
      (r : Option ℕ × Area)
      → IsFallen a order t (max_order - order) r
      → IsGot a order t (or_reserve order r)
  unfolding or_reserve
  fallback-IsGot (some p, a') fallen = fallen
  fallback-IsGot (none, a') (same, none_left) = rw same (
      reserve-IsGot (rmqueue_smallest a.zone order migrate_reserve)
        (λ o j le lt. none_left o j le (omega arith))
        (rmqueue_smallest_lem a.zone order migrate_reserve v h (omega arith)))

module _ (a : Area) (v : IsZone a.zone) (order t : ℕ) (h : order < max_order)
    (k : t < migrate_types) where
  fallback_next : NoBlock a.zone order t → IsGot a order t (or_fallback order t (none, a))
  unfolding or_fallback rmqueue_fallback
  fallback_next empty = elim (Bool-cases (t == migrate_reserve)) [
    | inl r ↦
        let got : IsGot a order t (none, a) =
          (refl, (empty, λ ne. absurd (ne ((==_iff _ _).0 r)))) in
        rw r got
    | inr r ↦ rw r (
        fallback-IsGot a v order t h k empty (rmqueue_fallback_loop (max_order - order) a order t)
          (fallback_loop-IsFallen a v order t k (max_order - order) (omega arith)))
  ]

  smallest-IsGot :
      (r : Option ℕ × Zone)
      → IsTaken a.zone order order t r
      → IsGot a order t (or_fallback order t (with_zone a r))
  unfolding or_fallback with_zone
  smallest-IsGot (some p, z') taken = taken
  smallest-IsGot (none, z') (same, empty) = rw same (fallback_next empty)

-- On a zone in order, `__rmqueue` either takes a block of 2 ^ order free pages, from a list of any migrate
-- type, and leaves all other free pages free, on a zone in order; or it leaves the zone and the types of
-- its page blocks alone, and no list has a block of that order or a higher one: not that of the migrate
-- type, and, where the type is not the reserve, not that of a type that `fallbacks` names, nor the reserve.
pub rmqueue_lem :
    (a : Area) (order t : ℕ)
    → IsZone a.zone
    → order < max_order
    → t < migrate_types
    → IsGot a order t (rmqueue a order t)
unfolding rmqueue
rmqueue_lem a order t v h k =
    smallest-IsGot a v order t h k (rmqueue_smallest a.zone order t)
      (rmqueue_smallest_lem a.zone order t v h k)
