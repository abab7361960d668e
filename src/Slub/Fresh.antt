-- ===== src/Slub/Fresh.antt =====
-- A new slab: the page is the processor's, and its objects are free for the first time.
use xc.Common.{
  [], ℕ, zero, suc, ◌+◌, ◌-◌, ◌*◌, ◌%◌, ◌^◌, ◌≤◌, ◌<◌, ◌≡◌, ◌≢◌, ◌⊎◌, refl, subst, sym, ap, ◌∙◌,
  inl, inr, arith, Bool, true, false, none, some, List, ◌∷◌, if◌then◌else◌, ◌==◌, ==_iff, ==_ne,
  Bool-cases, Array, update, long_add,
}
use xc.Slub.{KmemCache, SlabPage, any_set}
use xc.Common.Flags.{bit}
use xc.Slub.Pages.{PageAllocator, page_address, page_size, comp_bit}
use xc.Slub.Release.{State, is_cpu_page}
use xc.Slub.Alloc.{
  oo_objects, oo_order, slab_poison, slab_allocated, format_slab, adopt_slab, use_slab,
  load_freelist, link_objects, memset, setup_object,
}
use xc.Slub.Chain.{
  Chain, Chain-kept, count, length, objects_from, count-objects, count-inside, link_objects-Chain,
  link_objects-kept, setup_plain,
}
use xc.Slub.Valid.{
  IsValid, IsStep, IsStep-IsValid, free_count, free_count-step, head_of, in_cache, times_partial,
  is_empty, times_full,
}
use xc.Slub.Taken.{IsUnused, IsAllocated, with_list, load_freelist-IsTaken}

-- That the objects of a slab fit into its pages, and that there is one at least.
pub record IsSized (s : KmemCache) (oo : ℕ) : Type 0 where
  pub some_object : 0 < oo_objects oo
  pub few_objects : oo_objects oo < 2 ^ 15
  pub fits : oo_objects oo * s.size ≤ page_size * 2 ^ oo_order oo

-- That a slab of several pages is asked for as a compound page.
abbrev pub IsCompoundSlab : KmemCache → ℕ → Type 0
IsCompoundSlab s oo = (oo_order oo ≡ 0) ⊎ (bit comp_bit s.allocflags ≡ 1)

-- A cache without the parts for debugging: no constructor, no poison.
pub record IsPlain (s : KmemCache) : Type 0 where
  pub no_ctor : s.ctor ≡ none
  pub no_poison : any_set s.flags slab_poison ≡ false
  pub positive : 0 < s.size
  pub sized : IsSized s s.oo
  pub sized_min : IsSized s s.min
  pub compound : IsCompoundSlab s s.oo
  pub compound_min : IsCompoundSlab s s.min

module _ (P : PageAllocator) (gfp_allowed_mask : ℕ) (s : KmemCache) (plain : IsPlain s) where
  format_memory :
      (st : State P) (p : ℕ)
      → let start = page_address p in
        let n = (st.page p).counters.objects in
        let r = link_objects n s (start + n * s.size) st.memory start start in
        (format_slab P gfp_allowed_mask s st p).memory ≡ update r.0 (r.1 + s.offset) 0
  unfolding format_slab
  format_memory st p =
      let start = page_address p in
      let n = (st.page p).counters.objects in
      let r = link_objects n s (start + n * s.size) st.memory start start in
      let linked : Array ℕ → Array ℕ × ℕ =
        λ m. link_objects n s (start + n * s.size) m start start in
      let poisoned =
        memset st.memory start 0x5a5a_5a5a (page_size * 2 ^ P.compound_order st.buddy p) in
      ap
        (λ b.
          let q = linked (if b then poisoned else st.memory) in
          update (setup_object s q.0 q.1) (q.1 + s.offset) 0)
        plain.no_poison
      ∙ ap (λ m. update m (r.1 + s.offset) 0) (setup_plain s plain.no_ctor r.0 r.1)

  -- The page `p` came from the allocator of pages, which is in the state `a` now.
  module _ (st : State P) (cf : List ℕ) (pf : ℕ → List ℕ) (v : IsValid P s st [] pf)
      (idle : st.cpu.page ≡ none) (p oo : ℕ) (sized : IsSized s oo) (lowmem : p < 2 ^ 18)
      (other : in_cache P s st p ≡ false) (used : P.used st.buddy p ≡ true)
      (own : (k : ℕ)
        → k < page_size * 2 ^ oo_order oo
        → P.virt_to_head_page st.buddy (page_address p + k) ≡ p) where
    abbrev fresh_state : State P
    fresh_state =
        let st1 = slab_allocated P gfp_allowed_mask s st p oo in
        let st2 = format_slab P gfp_allowed_mask s st1 p in
        with_list P gfp_allowed_mask s (adopt_slab P gfp_allowed_mask st2 p) (page_address p)

    abbrev fresh_objects : List ℕ
    fresh_objects = objects_from (page_address p) s.size (oo_objects oo)

    abbrev fresh_page : SlabPage
    fresh_page = record {
      freelist = 0;
      counters = record {
        inuse = oo_objects oo % 2 ^ 15;
        objects = oo_objects oo % 2 ^ 15;
        frozen = true;
      };
      is_slab = true;
      slab = s.self;
    }

    objects_fit : oo_objects oo % 2 ^ 15 ≡ oo_objects oo
    objects_fit = let few = sized.few_objects in omega arith

    abbrev fresh_memory : Array ℕ
    fresh_memory =
        let start = page_address p in
        let r =
          link_objects (oo_objects oo) s (start + oo_objects oo * s.size) st.memory start start in
        update r.0 (r.1 + s.offset) 0

    memory_is : fresh_state.memory ≡ fresh_memory
    unfolding slab_allocated adopt_slab
    memory_is =
        let start = page_address p in
        let after : ℕ → Array ℕ = λ n.
          let r = link_objects n s (start + n * s.size) st.memory start start in
          update r.0 (r.1 + s.offset) 0 in
        let here : ((slab_allocated P gfp_allowed_mask s st p oo).page p).counters.objects
            ≡ oo_objects oo % 2 ^ 15 =
          rw ((==_iff p p).1 refl) refl in
        format_memory (slab_allocated P gfp_allowed_mask s st p oo) p
        ∙ ap after (here ∙ objects_fit)

    start_positive : 0 < page_address p
    unfolding long_add
    start_positive = omega arith

    inside_page : (x : ℕ) → 1 ≤ count x fresh_objects → head_of P s st x ≡ p
    inside_page x on =
        let start = page_address p in
        let fits : start + oo_objects oo * s.size ≤ start + page_size * 2 ^ oo_order oo =
          omega (arith, sized.fits) in
        let (low, high) =
          count-inside x start s.size (oo_objects oo) (start + page_size * 2 ^ oo_order oo)
            plain.positive fits on in
        let e : start + (x - start) ≡ x = omega arith in
        subst (λ y. head_of P s st y ≡ p) e (own (x - start) (omega arith))

    outside : (x : ℕ) → head_of P s st x ≢ p → count x fresh_objects ≡ 0
    outside x ne = elim (Bool-cases (count x fresh_objects == 0)) [
      | inl e ↦ (==_iff _ _).0 e
      | inr e ↦ absurd (ne (inside_page x (ground arith)))
    ]

    kept-Chain :
        (q f : ℕ) → q ≢ p → Chain s.offset st.memory f (pf q) → Chain s.offset fresh_memory f (pf q)
    kept-Chain q f ne = Chain-kept s.offset st.memory fresh_memory f (pf q) (λ x on.
        link_objects-kept s plain.no_ctor plain.positive (oo_objects oo) (page_address p) st.memory
          x sized.some_object
          (outside x (λ e. elim (Bool-cases (head_of P s st x == q)) [
            | inl r ↦ ne (sym ((==_iff _ _).0 r) ∙ e)
            | inr r ↦ absurd (omega (arith, v.inside q x (λ h. absurd (ground arith)), on))
          ])))

    fresh-IsStep : IsStep P s st fresh_state p fresh_page [] fresh_objects pf []
    unfolding slab_allocated format_slab adopt_slab count length
    fresh-IsStep = record {
      buddy = refl;
      written = rw ((==_iff p p).1 refl) refl;
      pages = λ q ne. rw (==_ne q p ne) refl;
      kept = λ q f ne chain.
          subst (λ m. Chain s.offset m f (pf q)) (sym memory_is) (kept-Chain q f ne chain);
      cpu_now =
          subst (λ m. Chain s.offset m (page_address p) fresh_objects) (sym memory_is)
            (link_objects-Chain s plain.no_ctor plain.positive (oo_objects oo) (page_address p)
              st.memory start_positive sized.some_object);
      page_now = λ h. refl;
      gone = λ h. refl;
      inside_now = λ x ne. (refl, outside x ne);
      cpu_inside_now = λ x e h. absurd (ground (arith, h));
      once_now = λ x e.
          omega (arith, count-objects x (page_address p) s.size (oo_objects oo) plain.positive);
      same_cpu = λ q ne. ==_ne q p ne ∙ sym (ap (is_cpu_page q) idle);
      cpu_page_now = λ h. ((==_iff s.self s.self).1 refl, refl);
      frozen_now = λ h k. (==_iff p p).1 refl;
      same_listed = λ q ne. refl;
      listed_now =
          v.listed p
          ∙ ap (λ b. times_partial b (st.page p).counters.frozen (is_empty (pf p))) other
          ∙ sym (times_full (s.self == s.self) true);
      nr_now = v.nr;
      in_use_now = λ h. (omega arith, omega arith);
      owned_now = λ h. used;
    }

    abbrev pub used_slab : State P
    used_slab = format_slab P gfp_allowed_mask s (slab_allocated P gfp_allowed_mask s st p oo) p

    fresh-IsValid : IsValid P s fresh_state fresh_objects (update pf p [])
    fresh-IsValid =
        IsStep-IsValid P s st fresh_state p fresh_page [] fresh_objects pf [] v fresh-IsStep

    fresh-free :
        (x : ℕ)
        → free_count P s fresh_state fresh_objects (update pf p []) x
          ≡ free_count P s st [] pf x + count x fresh_objects
    unfolding count
    fresh-free x =
        let no_left : count x (pf p) ≡ 0 = ap (count x) (v.others p other) in
        let step =
          free_count-step P s st fresh_state p fresh_page [] fresh_objects pf [] v fresh-IsStep x 0
            (count x fresh_objects) (λ h. omega arith) (λ h. sym (outside x h)) in
        omega (arith, step)

    unused : IsUnused P gfp_allowed_mask s st fresh_objects
    unused x h = outside x (λ e.
        let clash : false ≡ true = sym other ∙ ap (in_cache P s st) (sym e) ∙ h in
        absurd (ground (arith, clash)))

    first_object :
        (n : ℕ)
        → 0 < n
        → (rest : List ℕ) × (objects_from (page_address p) s.size n ≡ page_address p ∷ rest)
    unfolding objects_from
    first_object zero h = absurd (omega arith)
    first_object (suc n) h = (objects_from (page_address p + s.size) s.size n, refl)

    fresh_loaded :
        (irqs : Bool)
        → use_slab P gfp_allowed_mask s irqs used_slab p
          ≡ load_freelist P gfp_allowed_mask s irqs
              (adopt_slab P gfp_allowed_mask used_slab p)
              (page_address p)
    unfolding use_slab format_slab
    fresh_loaded irqs =
        ap (load_freelist P gfp_allowed_mask s irqs (adopt_slab P gfp_allowed_mask used_slab p))
          (rw ((==_iff p p).1 refl) refl)

    pub fresh-IsAllocated :
        (irqs : Bool)
        → IsAllocated P gfp_allowed_mask s st [] pf
            (some (use_slab P gfp_allowed_mask s irqs used_slab p))
    unfolding load_freelist count
    fresh-IsAllocated irqs =
        let (rest, e) = first_object (oo_objects oo) sized.some_object in
        let valid = subst (λ l. IsValid P s fresh_state l (update pf p [])) e fresh-IsValid in
        let (cf', (pf', (v', free'))) =
          load_freelist-IsTaken P gfp_allowed_mask s irqs
            (adopt_slab P gfp_allowed_mask used_slab p) (page_address p) rest (update pf p [])
            valid in
        let start = start_positive in
        subst (λ r. IsAllocated P gfp_allowed_mask s st [] pf (some r)) (sym (fresh_loaded irqs))
          (inr (
            omega (arith, start),
            (
              fresh_objects,
              (
                unused,
                (
                  cf',
                  (
                    pf',
                    (
                      v',
                      λ x. omega (
                        arith,
                        free' x,
                        fresh-free x,
                        ap (λ l. count x l + count x (update pf p [] (head_of P s st x))) e,
                      ),
                    ),
                  ),
                ),
              ),
            ),
          ))
