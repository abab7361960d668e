-- ===== src/Slub/Taken.antt =====
-- An object is taken: off the processor's list, or off the list of a page that becomes the processor's.
use xc.Common.{
  [], ℕ, suc, ◌+◌, ◌≡◌, ◌≢◌, ◌⊎◌, refl, subst, sym, ap, ◌∙◌, inl, inr, arith, Bool, true, ◌&&◌,
  Option, none, some, List, ◌∷◌, if◌then◌else◌, ◌==◌, ==_iff, Bool-cases, Array,
}
use xc.Slub.{KmemCache, SlabPage, Counters, same_counters, with_page, try_cmpxchg_double_slab}
use xc.Slub.Pages.{PageAllocator}
use xc.Slub.Release.{State}
use xc.Slub.Alloc.{oo_order, load_freelist, freeze_slab}
use xc.Slub.Chain.{Chain, count, same}
use xc.Slub.Valid.{IsValid, free_count, head_of, in_cache}

pub Chain-none :
    (off : ℕ) (memory : Array ℕ) (p : ℕ) (xs : List ℕ) → Chain off memory p xs → p ≡ 0 → xs ≡ []
Chain-none off memory p [] chain e = refl
Chain-none off memory p (x ∷ xs) (q, (ne, chain)) e = absurd (ne (sym q ∙ e))

pub Chain-some :
    (off : ℕ) (memory : Array ℕ) (p : ℕ) (xs : List ℕ)
    → Chain off memory p xs
    → p ≢ 0
    → (rest : List ℕ) × ((xs ≡ p ∷ rest) × Chain off memory (memory (p + off)) rest)
Chain-some off memory p [] chain ne = absurd (ne chain)
Chain-some off memory p (x ∷ xs) (q, (ne', chain)) ne = (
  xs,
  (ap (λ y. y ∷ xs) (sym q), subst (λ y. Chain off memory (memory (y + off)) xs) (sym q) chain),
)

pub same_counters_refl : (c : Counters) → same_counters c c ≡ true
same_counters_refl c = elim (Bool-cases c.frozen) [
  | inl e ↦ rw e (ground arith)
  | inr e ↦ rw e (ground arith)
]

module _ (P : PageAllocator) (gfp_allowed_mask : ℕ) (s : KmemCache) where
  -- The page's free list is empty, and all its objects count as in use.
  abbrev pub frozen_as : SlabPage → Bool → SlabPage
  frozen_as w frozen = record w {
    freelist = 0;
    counters = record w.counters { inuse = w.counters.objects; frozen = frozen };
  }

  abbrev pub frozen_page : State P → ℕ → Bool → State P
  frozen_page st p frozen = with_page st p (frozen_as (st.page p) frozen)

  -- The page stays a slab of the cache.
  pub frozen-in_cache :
      (st : State P) (p : ℕ) (frozen : Bool) (q : ℕ)
      → in_cache P s st q ≡ true
      → in_cache P s (frozen_page st p frozen) q ≡ true
  frozen-in_cache st p frozen q own = elim (Bool-cases (q == p)) [
    | inl e ↦ rw e (ap (in_cache P s st) (sym ((==_iff q p).0 e)) ∙ own)
    | inr e ↦ rw e own
  ]

  -- The exchange succeeds at the first try, as nothing comes between its reads and itself.
  pub freeze_slab-some :
      (fuel : ℕ) (st : State P) (p : ℕ) (frozen : ℕ → Bool)
      → freeze_slab P gfp_allowed_mask (suc fuel) st p frozen
        ≡ some ((st.page p).freelist, frozen_page st p (frozen (st.page p).freelist))
  unfolding freeze_slab try_cmpxchg_double_slab
  freeze_slab-some fuel st p frozen =
      let c = (st.page p).counters in
      let f = (st.page p).freelist in
      let both : (f == f && same_counters c c) ≡ true =
        ap (λ b. b && same_counters c c) ((==_iff f f).1 refl) ∙ same_counters_refl c in
      ap
        (λ b. elim (if b then some (frozen_page st p (frozen f)) else none) [
          | none ↦ freeze_slab P gfp_allowed_mask fuel st p frozen
          | some st' ↦ some (f, st')
        ])
        both

  -- What taking an object does to the free ones, where `new` came in addition.
  abbrev pub IsTaken : State P → List ℕ → (ℕ → List ℕ) → List ℕ → ℕ × State P → Type 0
  IsTaken st cf pf new (object, st') =
      (cf' : List ℕ) × ((pf' : ℕ → List ℕ) × (IsValid P s st' cf' pf'
          × ((x : ℕ)
              → free_count P s st' cf' pf' x + same x object
                ≡ free_count P s st cf pf x + count x new)))

  -- The object at the front of the processor's list.
  abbrev pub with_list : State P → ℕ → State P
  with_list st object = record st { cpu = record st.cpu { freelist = object } }

  module _ (irqs : Bool) (st : State P) (object : ℕ) (rest : List ℕ) (pf : ℕ → List ℕ)
      (v : IsValid P s (with_list st object) (object ∷ rest) pf) where
    load_freelist-IsValid :
        IsValid P s (load_freelist P gfp_allowed_mask s irqs st object).1 rest pf
    unfolding load_freelist count
    load_freelist-IsValid = record {
      cpu_chain = v.cpu_chain.1.1;
      page_chain = v.page_chain;
      others = v.others;
      inside = v.inside;
      cpu_inside = λ x h. omega (arith, v.cpu_inside x h);
      once = λ x. omega (arith, v.once x);
      cpu_page = v.cpu_page;
      frozen = v.frozen;
      listed = v.listed;
      nr = v.nr;
      in_use = v.in_use;
      owned = v.owned;
    }

    pub load_freelist-IsTaken :
        IsTaken st (object ∷ rest) pf [] (load_freelist P gfp_allowed_mask s irqs st object)
    unfolding load_freelist count
    load_freelist-IsTaken = (rest, (pf, (load_freelist-IsValid, λ x. omega arith)))

  -- The cache is in order, and the free objects are those that were.
  abbrev pub IsKept : State P → List ℕ → (ℕ → List ℕ) → State P → Type 0
  IsKept st cf pf st' =
      (cf' : List ℕ) × ((pf' : ℕ → List ℕ) × (IsValid P s st' cf' pf'
          × ((x : ℕ) → free_count P s st' cf' pf' x ≡ free_count P s st cf pf x)))

  -- Objects that are in no slab that the cache had.
  abbrev pub IsUnused : State P → List ℕ → Type 0
  IsUnused st new = (x : ℕ) → in_cache P s st (head_of P s st x) ≡ true → count x new ≡ 0

  -- The last call of the allocator of pages found no block, not even of the smallest order.
  abbrev pub IsRefused : State P → Type 0
  IsRefused st' =
      (a : P.State) × ((flags : ℕ) × (P.alloc_pages a flags (oo_order s.min) ≡ (none, st'.buddy)))

  -- What an allocation may give: NULL, with the free objects as they were, as the allocator of pages had no
  -- block for a slab; or an object that was free, or that is one of
  -- a new slab, whose other objects are free now.
  abbrev pub IsAllocated : State P → List ℕ → (ℕ → List ℕ) → Option (ℕ × State P) → Type 0
  IsAllocated st cf pf none = ⊥
  IsAllocated st cf pf (some (object, st')) =
      ((object ≡ 0) × (IsRefused st' × IsKept st cf pf st'))
      ⊎ ((object ≢ 0) × ((new : List ℕ) × (IsUnused st new × IsTaken st cf pf new (object, st'))))

  -- From a state that has the same free objects, in the same slabs.
  pub IsAllocated-from :
      (st st1 : State P) (cf cf1 : List ℕ) (pf pf1 : ℕ → List ℕ) (r : Option (ℕ × State P))
      → ((x : ℕ) → free_count P s st1 cf1 pf1 x ≡ free_count P s st cf pf x)
      → ((x : ℕ)
          → in_cache P s st (head_of P s st x) ≡ true
          → in_cache P s st1 (head_of P s st1 x) ≡ true)
      → IsAllocated st1 cf1 pf1 r
      → IsAllocated st cf pf r
  IsAllocated-from st st1 cf cf1 pf pf1 none same_free same_slabs never = elim never [ ]
  IsAllocated-from st st1 cf cf1 pf pf1 (some r) same_free same_slabs
        (inl (e, (refused, (cf', (pf', (v, f)))))) =
      inl (e, (refused, (cf', (pf', (v, λ x. f x ∙ same_free x)))))
  IsAllocated-from st st1 cf cf1 pf pf1 (some r) same_free same_slabs
        (inr (ne, (new, (unused, (cf', (pf', (v, f))))))) =
      inr (
        ne,
        (
          new,
          (
            λ x h. unused x (same_slabs x h),
            (cf', (pf', (v, λ x. f x ∙ ap (λ n. n + count x new) (same_free x)))),
          ),
        ),
      )
