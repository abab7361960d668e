-- ===== src/Buddy/Lists.antt =====
-- Measures of the free lists. `held f z` adds up `f order p` over every block on a list.
use xc.Common.{
  ℕ, zero, suc, ◌+◌, ◌*◌, ◌<◌, ◌≡◌, refl, ap, inl, inr, arith, List, [], ◌∷◌, ◌++◌, true, ◌&&◌,
  ◌==◌, if◌then◌else◌, Bool-cases, total, sum_to, sum_to_one, ==_iff, ==_ne, ◌≢◌,
}
use xc.Buddy.{Zone, max_order, migrate_types, delete, list_del, list_add, list_add_tail, set_list}

module _ (g : ℕ → ℕ) where
  unfoldable pub sum : List ℕ → ℕ
  sum [] = 0
  sum (p ∷ l) = g p + sum l

  sum-append : (l m : List ℕ) → sum (l ++ m) ≡ sum l + sum m
  unfolding sum
  sum-append [] m = omega arith
  sum-append (p ∷ l) m = omega (arith, sum-append l m)

abbrev pub is_page : ℕ → ℕ → ℕ
is_page p q = if q == p then 1 else 0

sum-delete :
    (g : ℕ → ℕ) (p : ℕ) (l : List ℕ) → sum g (delete p l) + sum (is_page p) l * g p ≡ sum g l
unfolding sum
sum-delete g p [] = omega arith
sum-delete g p (x ∷ l) = elim (Bool-cases (x == p)) [
  | inl e ↦ let same : x ≡ p = (==_iff x p).0 e in rw (e, same) (grind (arith, sum-delete g p l))
  | inr e ↦ rw e (omega (arith, sum-delete g p l))
]

-- The blocks of one order, over all migrate types.
unfoldable pub at_order : (ℕ → ℕ) → Zone → ℕ → ℕ
at_order g z order = sum_to migrate_types (λ t. sum g (z.free_list order t))

-- The blocks of all orders.
unfoldable pub held : (ℕ → ℕ → ℕ) → Zone → ℕ
held f z = sum_to max_order (λ o. at_order (f o) z o)

-- How often the page `p` is on a list of an order.
abbrev pub listed : Zone → ℕ → ℕ → ℕ
listed z order p = at_order (is_page p) z order

sum_to-delete :
    (g : ℕ → ℕ) (p n : ℕ) (l : ℕ → List ℕ)
    → sum_to n (λ t. sum g (delete p (l t))) + sum_to n (λ t. sum (is_page p) (l t)) * g p
      ≡ sum_to n (λ t. sum g (l t))
unfolding total
sum_to-delete g p zero l = omega arith
sum_to-delete g p (suc n) l = grind (arith, sum_to-delete g p n l, sum-delete g p (l n))

pub at_order-del :
    (g : ℕ → ℕ) (z : Zone) (p order : ℕ)
    → at_order g (list_del z p order) order + listed z order p * g p ≡ at_order g z order
unfolding at_order list_del
at_order-del g z p order =
    rw ((==_iff order order).1 refl) (sum_to-delete g p migrate_types (z.free_list order))

pub at_order-del_once :
    (g : ℕ → ℕ) (z : Zone) (p order : ℕ)
    → listed z order p ≡ 1
    → at_order g (list_del z p order) order + g p ≡ at_order g z order
at_order-del_once g z p order once = grind (arith, once, at_order-del g z p order)

-- A measure of an order looks at the lists alone.
pub at_order_same :
    (g : ℕ → ℕ) (z z' : Zone) (o : ℕ)
    → z'.free_list ≡ z.free_list
    → at_order g z' o ≡ at_order g z o
unfolding at_order
at_order_same g z z' o e = ap (λ l. sum_to migrate_types (λ t. sum g (l o t))) e

pub held_same : (f : ℕ → ℕ → ℕ) (z z' : Zone) → z'.free_list ≡ z.free_list → held f z' ≡ held f z
unfolding held at_order
held_same f z z' e =
    ap (λ l. sum_to max_order (λ o. sum_to migrate_types (λ t. sum (f o) (l o t)))) e

pub at_order-del_ne :
    (g : ℕ → ℕ) (z : Zone) (p order o : ℕ)
    → o ≢ order
    → at_order g (list_del z p order) o ≡ at_order g z o
unfolding at_order list_del
at_order-del_ne g z p order o h = rw (==_ne o order h)

-- A list exchanged for another one.
at_order-set :
    (g : ℕ → ℕ) (z : Zone) (order t : ℕ) (l : List ℕ)
    → t < migrate_types
    → at_order g (set_list z order t l) order + sum g (z.free_list order t)
      ≡ at_order g z order + sum g l
unfolding at_order
at_order-set g z order t l h =
    let here : (order == order && t == t) ≡ true = ground arith in
    let cell : sum g (if order == order && t == t then l else z.free_list order t) ≡ sum g l =
      rw here refl in
    omega (
      arith,
      cell,
      sum_to_one migrate_types (λ t'. sum g (z.free_list order t'))
          (λ t'. sum g (if order == order && t' == t then l else z.free_list order t')) t h
          (λ k ne. rw (==_ne k t ne, (==_iff order order).1 refl)),
    )

at_order-set_ne :
    (g : ℕ → ℕ) (z : Zone) (order t : ℕ) (l : List ℕ) (o : ℕ)
    → o ≢ order
    → at_order g (set_list z order t l) o ≡ at_order g z o
unfolding at_order
at_order-set_ne g z order t l o h = rw (==_ne o order h)

pub at_order-add :
    (g : ℕ → ℕ) (z : Zone) (p order t : ℕ)
    → t < migrate_types
    → at_order g (list_add z p order t) order ≡ at_order g z order + g p
unfolding list_add sum
at_order-add g z p order t h = omega (arith, at_order-set g z order t (p ∷ z.free_list order t) h)

pub at_order-add_tail :
    (g : ℕ → ℕ) (z : Zone) (p order t : ℕ)
    → t < migrate_types
    → at_order g (list_add_tail z p order t) order ≡ at_order g z order + g p
unfolding list_add_tail sum
at_order-add_tail g z p order t h = omega (
  arith,
  at_order-set g z order t (z.free_list order t ++ p ∷ []) h,
  sum-append g (z.free_list order t) (p ∷ []),
)

pub at_order-add_ne :
    (g : ℕ → ℕ) (z : Zone) (p order t o : ℕ)
    → o ≢ order
    → at_order g (list_add z p order t) o ≡ at_order g z o
unfolding list_add
at_order-add_ne g z p order t o h = at_order-set_ne g z order t _ o h

pub at_order-add_tail_ne :
    (g : ℕ → ℕ) (z : Zone) (p order t o : ℕ)
    → o ≢ order
    → at_order g (list_add_tail z p order t) o ≡ at_order g z o
unfolding list_add_tail
at_order-add_tail_ne g z p order t o h = at_order-set_ne g z order t _ o h

-- Only one order changed.
held-one :
    (f : ℕ → ℕ → ℕ) (z z' : Zone) (order : ℕ)
    → order < max_order
    → ((o : ℕ) → o ≢ order → at_order (f o) z' o ≡ at_order (f o) z o)
    → held f z' + at_order (f order) z order ≡ held f z + at_order (f order) z' order
unfolding held
held-one f z z' order h same =
    sum_to_one max_order (λ o. at_order (f o) z o) (λ o. at_order (f o) z' o) order h same

-- A page that is on one list of the order is taken off it.
pub held-del :
    (f : ℕ → ℕ → ℕ) (z : Zone) (p order : ℕ)
    → order < max_order
    → listed z order p ≡ 1
    → held f (list_del z p order) + f order p ≡ held f z
held-del f z p order h once = grind (
  arith,
  once,
  at_order-del (f order) z p order,
  held-one f z (list_del z p order) order h (λ o ne. at_order-del_ne (f o) z p order o ne),
)

pub held-add :
    (f : ℕ → ℕ → ℕ) (z : Zone) (p order t : ℕ)
    → order < max_order
    → t < migrate_types
    → held f (list_add z p order t) ≡ held f z + f order p
held-add f z p order t h k = omega (
  arith,
  at_order-add (f order) z p order t k,
  held-one f z (list_add z p order t) order h (λ o ne. at_order-add_ne (f o) z p order t o ne),
)

pub held-add_tail :
    (f : ℕ → ℕ → ℕ) (z : Zone) (p order t : ℕ)
    → order < max_order
    → t < migrate_types
    → held f (list_add_tail z p order t) ≡ held f z + f order p
held-add_tail f z p order t h k = omega (
  arith,
  at_order-add_tail (f order) z p order t k,
  held-one f z (list_add_tail z p order t) order h
      (λ o ne. at_order-add_tail_ne (f o) z p order t o ne),
)
