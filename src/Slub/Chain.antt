-- ===== src/Slub/Chain.antt =====
-- Lists of objects that are linked through memory, and how often an object is on a list.
use xc.Common.{
  [], ℕ, zero, suc, ◌+◌, ◌*◌, ◌≤◌, ◌<◌, ◌≡◌, ◌≢◌, refl, subst, sym, inl, inr, arith, List, ◌∷◌,
  ◌++◌, true, if◌then◌else◌, ltb, ◌==◌, ==_iff, ==_ne, Bool-cases, Array, update, none, some, ap,
  lt→ltb, ◌∙◌,
}
use xc.Slub.{KmemCache, delete_page}
use xc.Slub.Alloc.{setup_object, link_objects}

-- The list from the object `p` on, whose next object is at `off` in it, is `xs`.
abbrev pub Chain : ℕ → Array ℕ → ℕ → List ℕ → Type 0
Chain off memory p [] = p ≡ 0
Chain off memory p (x ∷ xs) = (p ≡ x) × ((x ≢ 0) × Chain off memory (memory (x + off)) xs)

abbrev pub same : ℕ → ℕ → ℕ
same x y = if y == x then 1 else 0

unfoldable pub count : ℕ → List ℕ → ℕ
count x [] = 0
count x (y ∷ ys) = same x y + count x ys

unfoldable pub length : List ℕ → ℕ
length [] = 0
length (x ∷ xs) = suc (length xs)

-- A write to an object that is not on a list leaves the list alone.
pub Chain-update :
    (off : ℕ) (memory : Array ℕ) (a v p : ℕ) (xs : List ℕ)
    → count a xs ≡ 0
    → Chain off memory p xs
    → Chain off (update memory (a + off) v) p xs
unfolding count
Chain-update off memory a v p [] h chain = chain
Chain-update off memory a v p (x ∷ xs) h (e, (ne, chain)) =
    let other : x + off ≢ a + off = λ q. absurd (ground arith) in
    let rest : count a xs ≡ 0 = ground arith in
    let next = Chain-update off memory a v (memory (x + off)) xs rest chain in
    (e, (ne, rw (==_ne (x + off) (a + off) other) next))

-- A list whose words are not written stays.
pub Chain-kept :
    (off : ℕ) (memory memory' : Array ℕ) (p : ℕ) (xs : List ℕ)
    → ((x : ℕ) → 1 ≤ count x xs → memory' (x + off) ≡ memory (x + off))
    → Chain off memory p xs
    → Chain off memory' p xs
unfolding count
Chain-kept off memory memory' p [] h chain = chain
Chain-kept off memory memory' p (x ∷ xs) h (e, (ne, chain)) =
    let rest =
      Chain-kept off memory memory' (memory (x + off)) xs (λ y on. h y (omega arith)) chain in
    (e, (ne, subst (λ q. Chain off memory' q xs) (sym (h x (ground arith))) rest))

-- An object in front of a list.
pub Chain-push :
    (off : ℕ) (memory : Array ℕ) (a p : ℕ) (xs : List ℕ)
    → a ≢ 0
    → count a xs ≡ 0
    → Chain off memory p xs
    → Chain off (update memory (a + off) p) a (a ∷ xs)
Chain-push off memory a p xs ne h chain = (
  refl,
  (ne, rw ((==_iff (a + off) (a + off)).1 refl) (Chain-update off memory a p p xs h chain)),
)

pub count-append : (x : ℕ) (xs ys : List ℕ) → count x (xs ++ ys) ≡ count x xs + count x ys
unfolding count
count-append x [] ys = omega arith
count-append x (y ∷ xs) ys = omega (arith, count-append x xs ys)

pub length-append : (xs ys : List ℕ) → length (xs ++ ys) ≡ length xs + length ys
unfolding length
length-append [] ys = omega arith
length-append (y ∷ xs) ys = omega (arith, length-append xs ys)

pub count-delete_ne : (x p : ℕ) (xs : List ℕ) → x ≢ p → count x (delete_page p xs) ≡ count x xs
unfolding count
count-delete_ne x p [] ne = refl
count-delete_ne x p (y ∷ xs) ne = ground (arith, count-delete_ne x p xs ne)

pub count-delete :
    (p : ℕ) (xs : List ℕ) → 1 ≤ count p xs → count p (delete_page p xs) + 1 ≡ count p xs
unfolding count
count-delete p [] h = absurd (omega arith)
count-delete p (y ∷ xs) h = elim (Bool-cases (y == p)) [
  | inl e ↦ rw e (omega arith)
  | inr e ↦ ground (arith, count-delete p xs)
]

pub length-delete :
    (p : ℕ) (xs : List ℕ) → 1 ≤ count p xs → length (delete_page p xs) + 1 ≡ length xs
unfolding count length
length-delete p [] h = absurd (omega arith)
length-delete p (y ∷ xs) h = elim (Bool-cases (y == p)) [
  | inl e ↦ rw e (omega arith)
  | inr e ↦ ground (arith, length-delete p xs)
]

-- The objects of a slab from an address on.
unfoldable pub objects_from : ℕ → ℕ → ℕ → List ℕ
objects_from p size zero = []
objects_from p size (suc n) = p ∷ objects_from (p + size) size n

pub count-below : (x p size n : ℕ) → x < p → count x (objects_from p size n) ≡ 0
unfolding count objects_from
count-below x p size zero h = refl
count-below x p size (suc n) h = ground (arith, count-below x (p + size) size n (omega arith))

-- The objects are different ones.
pub count-objects : (x p size n : ℕ) → 0 < size → count x (objects_from p size n) ≤ 1
unfolding count objects_from
count-objects x p size zero h = omega arith
count-objects x p size (suc n) h = elim (Bool-cases (p == x)) [
  | inl e ↦ rw e (omega (arith, count-below x (p + size) size n (ground arith)))
  | inr e ↦ ground (arith, count-objects x (p + size) size n h)
]

-- An object of the slab lies in it.
pub count-inside :
    (x p size n stop : ℕ)
    → 0 < size
    → p + n * size ≤ stop
    → 1 ≤ count x (objects_from p size n)
    → (p ≤ x) × (x < stop)
unfolding count objects_from
count-inside x p size zero stop h k on = absurd (omega arith)
count-inside x p size (suc n) stop h k on =
    let fits : p + size + n * size ≤ stop = grind arith in
    elim (Bool-cases (p == x)) [
      | inl e ↦ ground arith
      | inr e ↦
          let (low, high) = count-inside x (p + size) size n stop h fits (ground arith) in
          (omega arith, high)
    ]

pub length-objects : (p size n : ℕ) → length (objects_from p size n) ≡ n
unfolding length objects_from
length-objects p size zero = refl
length-objects p size (suc n) = omega (arith, length-objects (p + size) size n)

-- The loop of `new_slab` behind its first round, where `last` is linked to `p` next: the rest of the
-- objects hang on `last`, and no word below is written.
abbrev IsLinked : ℕ → Array ℕ → ℕ → List ℕ → Array ℕ × ℕ → Type 0
IsLinked off memory last xs (memory', end) =
    Chain off (update memory' (end + off) 0) last (last ∷ xs)
    × ((a : ℕ) → a < last + off → update memory' (end + off) 0 a ≡ memory a)

-- One round more, in front.
IsLinked-before :
    (off : ℕ) (memory : Array ℕ) (last p : ℕ) (xs : List ℕ) (r : Array ℕ × ℕ)
    → last < p
    → 0 < last
    → IsLinked off (update memory (last + off) p) p xs r
    → IsLinked off memory last (p ∷ xs) r
IsLinked-before off memory last p xs (memory', end) h k (chain, below) =
    let M = update memory' (end + off) 0 in
    let here : update memory (last + off) p (last + off) ≡ p =
      rw ((==_iff (last + off) (last + off)).1 refl) refl in
    let next : M (last + off) ≡ p = below (last + off) (omega arith) ∙ here in
    (
      (refl, (omega arith, subst (λ q. Chain off M q (p ∷ xs)) (sym next) chain)),
      λ a lt. below a (omega arith) ∙ rw (==_ne a (last + off) (omega arith)) refl,
    )

module _ (s : KmemCache) (plain : s.ctor ≡ none) where
  pub setup_plain : (memory : Array ℕ) (object : ℕ) → setup_object s memory object ≡ memory
  unfolding setup_object
  setup_plain memory object =
      ap (λ c. elim c [ none ↦ memory | some ctor ↦ ctor memory object ]) plain

  pub link_step :
      (n stop : ℕ) (memory : Array ℕ) (p last : ℕ)
      → ltb p stop ≡ true
      → link_objects (suc n) s stop memory p last
        ≡ link_objects n s stop (update memory (last + s.offset) p) (p + s.size) p
  unfolding link_objects
  link_step n stop memory p last inside =
      let run : Array ℕ → Array ℕ × ℕ =
        λ m. link_objects n s stop (update m (last + s.offset) p) (p + s.size) p in
      ap (λ b. if b then run (setup_object s memory last) else (memory, last)) inside
      ∙ ap run (setup_plain memory last)

module _ (s : KmemCache) (plain : s.ctor ≡ none) (positive : 0 < s.size) where
  link_objects-IsLinked :
      (n stop : ℕ) (memory : Array ℕ) (p last : ℕ)
      → last < p
      → 0 < last
      → p ≡ last + s.size
      → stop ≡ p + n * s.size
      → IsLinked s.offset memory last
          (objects_from p s.size n)
          (link_objects n s stop memory p last)
  unfolding link_objects setup_object objects_from
  link_objects-IsLinked zero stop memory p last h k e q =
      let here : update memory (last + s.offset) 0 (last + s.offset) ≡ 0 =
        rw ((==_iff (last + s.offset) (last + s.offset)).1 refl) refl in
      ((refl, (omega arith, here)), λ a lt. rw (==_ne a (last + s.offset) (omega arith)) refl)
  link_objects-IsLinked (suc n) stop memory p last h k e q =
      let inside : ltb p stop ≡ true = lt→ltb p stop (grind arith) in
      let rest =
        link_objects-IsLinked n stop (update memory (last + s.offset) p) (p + s.size) p
          (omega arith) (omega arith) refl (grind arith) in
      subst (IsLinked s.offset memory last (p ∷ objects_from (p + s.size) s.size n))
        (sym (link_step s plain n stop memory p last inside))
        (IsLinked-before s.offset memory last p (objects_from (p + s.size) s.size n)
          (link_objects n s stop (update memory (last + s.offset) p) (p + s.size) p) h k rest)

  -- The whole list of a new slab, from its start.
  pub link_objects-Chain :
      (n start : ℕ) (memory : Array ℕ)
      → 0 < start
      → 0 < n
      → let r = link_objects n s (start + n * s.size) memory start start in
        Chain s.offset (update r.0 (r.1 + s.offset) 0) start (objects_from start s.size n)
  unfolding objects_from
  link_objects-Chain zero start memory h k = absurd (omega arith)
  link_objects-Chain (suc n) start memory h k =
      let stop = start + suc n * s.size in
      let inside : ltb start stop ≡ true = lt→ltb start stop (grind arith) in
      let whole = λ (r : Array ℕ × ℕ).
        Chain s.offset (update r.0 (r.1 + s.offset) 0) start
          (start ∷ objects_from (start + s.size) s.size n) in
      subst whole (sym (link_step s plain n stop memory start start inside))
        (link_objects-IsLinked n stop (update memory (start + s.offset) start) (start + s.size)
          start (omega arith) h refl (grind arith)).0

  link_kept :
      (n stop : ℕ) (memory : Array ℕ) (p last x : ℕ)
      → stop ≡ p + n * s.size
      → count x (last ∷ objects_from p s.size n) ≡ 0
      → let r = link_objects n s stop memory p last in
        update r.0 (r.1 + s.offset) 0 (x + s.offset) ≡ memory (x + s.offset)
  unfolding objects_from link_objects count
  link_kept zero stop memory p last x q h =
      let other : x + s.offset ≢ last + s.offset = λ e. absurd (ground arith) in
      rw (==_ne (x + s.offset) (last + s.offset) other) refl
  link_kept (suc n) stop memory p last x q h =
      let inside : ltb p stop ≡ true = lt→ltb p stop (grind arith) in
      let other : x + s.offset ≢ last + s.offset = λ e. absurd (ground arith) in
      let memory' = update memory (last + s.offset) p in
      let rest : count x (p ∷ objects_from (p + s.size) s.size n) ≡ 0 = omega arith in
      let end = λ (r : Array ℕ × ℕ). update r.0 (r.1 + s.offset) 0 (x + s.offset) in
      ap end (link_step s plain n stop memory p last inside)
      ∙ link_kept n stop memory' (p + s.size) p x (grind arith) rest
      ∙ rw (==_ne (x + s.offset) (last + s.offset) other) refl

  -- The words of other objects are not written.
  pub link_objects-kept :
      (n start : ℕ) (memory : Array ℕ) (x : ℕ)
      → 0 < n
      → count x (objects_from start s.size n) ≡ 0
      → let r = link_objects n s (start + n * s.size) memory start start in
        update r.0 (r.1 + s.offset) 0 (x + s.offset) ≡ memory (x + s.offset)
  unfolding count objects_from
  link_objects-kept zero start memory x k h = absurd (omega arith)
  link_objects-kept (suc n) start memory x k h =
      link_kept (suc n) (start + suc n * s.size) memory start start x refl (omega arith)
