-- ===== src/Slub/NewSlab.antt =====
-- The calls of the allocator of pages for a new slab, and the object that is taken from it.
use Prim.Native.Nat.{bit_and, bit_or}
use xc.Common.{
  [], ℕ, ◌⊎◌, ◌≡◌, ◌≢◌, refl, subst, sym, ap, ◌∙◌, inl, inr, arith, Bool, true, false, Option, none,
  some, List, Bool-cases,
}
use xc.Slub.{KmemCache}
use xc.Common.Flags.{bit, bit_le, bit-bit_or, bit-bit_and}
use xc.Slub.Pages.{PageAllocator, comp_bit}
use xc.Slub.Release.{State, deactivate_slab}
use xc.Slub.Alloc.{
  oo_order, gfp_quiet, gfp_may_fail, gfp_slab_mask, alloc_slab_page, irqs_for, finish_slab,
  or_smallest, allocate_slab, slab_allocated, format_allocated, new_slab, flushed, from_new_slab,
  use_slab, format_slab, load_freelist,
}
use xc.Slub.Chain.{count}
use xc.Slub.Valid.{IsValid, head_of, in_cache, IsValid-counters}
use xc.Slub.Apart.{IsApart, IsApart-IsValid, free_count_apart}
use xc.Slub.Taken.{IsAllocated, IsAllocated-from, Chain-some, with_list, load_freelist-IsTaken}
use xc.Slub.Fresh.{IsPlain, IsSized, fresh-IsAllocated}

abbrev is_none : Option ℕ → Bool
is_none none = true
is_none (some p) = false

module _ (P : PageAllocator) (gfp_allowed_mask : ℕ) (s : KmemCache) (plain : IsPlain s) where
  -- The flags that an order above 0 is asked for with.
  compound_flags :
      (oo allowed : ℕ)
      → (oo_order oo ≡ 0) ⊎ (bit comp_bit s.allocflags ≡ 1)
      → (oo_order oo ≡ 0) ⊎ (bit comp_bit (bit_or allowed s.allocflags) ≡ 1)
  compound_flags oo allowed (inl h) = inl h
  compound_flags oo allowed (inr h) =
      inr (omega (arith, h, bit-bit_or comp_bit allowed s.allocflags, bit_le comp_bit allowed))

  compound_quiet :
      (oo allowed : ℕ)
      → (oo_order oo ≡ 0) ⊎ (bit comp_bit s.allocflags ≡ 1)
      → (oo_order oo ≡ 0)
        ⊎ (bit comp_bit (bit_and (bit_or (bit_or allowed s.allocflags) gfp_quiet) gfp_may_fail) ≡ 1)
  compound_quiet oo allowed h = elim (compound_flags oo allowed h) [
    | inl e ↦ inl e
    | inr e ↦
        let flags = bit_or allowed s.allocflags in
        let quiet = bit-bit_or comp_bit flags gfp_quiet in
        let kept = bit-bit_and comp_bit (bit_or flags gfp_quiet) gfp_may_fail in
        let other : bit comp_bit gfp_quiet ≡ 0 = refl in
        let mask : bit comp_bit gfp_may_fail ≡ 1 = refl in
        inr (omega (arith, quiet, kept, other, mask, e))
  ]

  flushed_idle :
      (irqs : Bool) (st : State P) (p : ℕ)
      → st.cpu.page ≡ none
      → flushed P gfp_allowed_mask s irqs st p ≡ some (use_slab P gfp_allowed_mask s irqs st p)
  unfolding flushed
  flushed_idle irqs st p idle =
      ap
        (λ c. elim c [
          | none ↦ some (use_slab P gfp_allowed_mask s irqs st p)
          | some q ↦ elim (deactivate_slab P s st q) [
            | none ↦ none
            | some st' ↦ some (use_slab P gfp_allowed_mask s irqs st' p)
          ]
        ])
        idle

  -- The processor has no page, and no object.
  module _ (st : State P) (pf : ℕ → List ℕ) (v : IsValid P s st [] pf)
      (idle : st.cpu.page ≡ none) where
    alloc-IsApart :
        (flags order : ℕ) (o : Option ℕ) (a : P.State)
        → P.alloc_pages st.buddy flags order ≡ (o, a)
        → IsApart P s st a
    alloc-IsApart flags order o a e = record {
      still_used = λ p own. P.alloc-used st.buddy flags order o a e p (v.owned p own);
      still_head = λ x own. P.alloc-head st.buddy flags order o a e x (v.owned _ own);
    }

    -- One call of the allocator of pages, and what follows it.
    finish-IsAllocated :
        (irqs : Bool) (gfp flags oo : ℕ) (o : Option ℕ) (a : P.State)
        → IsSized s oo
        → P.clean st.buddy ≡ true
        → (oo_order oo ≡ 0) ⊎ (bit comp_bit flags ≡ 1)
        → (o ≡ none → oo ≡ s.min)
        → P.alloc_pages st.buddy flags (oo_order oo) ≡ (o, a)
        → IsAllocated P gfp_allowed_mask s st [] pf (
            from_new_slab P gfp_allowed_mask s irqs (
              format_allocated P gfp_allowed_mask s
                (finish_slab P gfp_allowed_mask s gfp oo (o, record st { buddy = a }))))
    unfolding from_new_slab format_allocated finish_slab irqs_for format_slab slab_allocated
    finish-IsAllocated irqs gfp flags oo none a sized clean comp least e =
        let apart = alloc-IsApart flags (oo_order oo) none a e in
        let valid =
          IsValid-counters P s (record st { buddy = a }) [] pf st.vm_stat irqs st.preempt_count
            st.reclaimed_slab (IsApart-IsValid P s st [] pf v a apart) in
        let smallest : P.alloc_pages st.buddy flags (oo_order s.min) ≡ (none, a) =
          ap (λ k. P.alloc_pages st.buddy flags (oo_order k)) (sym (least refl)) ∙ e in
        inl (
          refl,
          (
            (st.buddy, (flags, smallest)),
            ([], (pf, (valid, free_count_apart P s st [] pf v a apart))),
          ),
        )
    finish-IsAllocated irqs gfp flags oo (some p) a sized clean comp least e =
        let apart = alloc-IsApart flags (oo_order oo) (some p) a e in
        let st1 = irqs_for P gfp_allowed_mask gfp false (record st { buddy = a }) in
        let valid : IsValid P s st1 [] pf =
          IsValid-counters P s (record st { buddy = a }) [] pf st.vm_stat st1.irqs_on
            st.preempt_count st.reclaimed_slab (IsApart-IsValid P s st [] pf v a apart) in
        let (unused, used) = P.alloc-fresh st.buddy flags (oo_order oo) p a e in
        let other : in_cache P s st p ≡ false = elim (Bool-cases (in_cache P s st p)) [
          | inl own ↦
              let clash : false ≡ true = sym unused ∙ v.owned p own in
              absurd (ground (arith, clash))
          | inr h ↦ h
        ] in
        let st2 =
          format_slab P gfp_allowed_mask s (slab_allocated P gfp_allowed_mask s st1 p oo) p in
        let apart_free = free_count_apart P s st [] pf v a apart in
        let same_slabs : (x : ℕ)
            → in_cache P s st (head_of P s st x) ≡ true
            → in_cache P s st (P.virt_to_head_page a x) ≡ true =
          λ x h. ap (in_cache P s st) (apart.still_head x h) ∙ h in
        subst (IsAllocated P gfp_allowed_mask s st [] pf) (sym (flushed_idle irqs st2 p idle)) (
          IsAllocated-from P gfp_allowed_mask s st st1 [] [] pf pf
            (some (use_slab P gfp_allowed_mask s irqs st2 p)) apart_free same_slabs
            (fresh-IsAllocated P gfp_allowed_mask s plain st1 [] pf valid idle p oo sized
              (P.alloc-lowmem st.buddy flags (oo_order oo) p a e) other used
              (P.alloc-own st.buddy flags (oo_order oo) p a e clean comp) irqs))

  -- The second try is at the smallest order.
  smallest-IsAllocated :
      (st : State P) (pf : ℕ → List ℕ) (irqs : Bool) (gfp flags : ℕ) (o : Option ℕ) (a : P.State)
      → IsValid P s st [] pf
      → st.cpu.page ≡ none
      → P.clean st.buddy ≡ true
      → (oo_order s.oo ≡ 0) ⊎ (bit comp_bit flags ≡ 1)
      → (oo_order s.min ≡ 0) ⊎ (bit comp_bit gfp ≡ 1)
      → P.alloc_pages st.buddy flags (oo_order s.oo) ≡ (o, a)
      → IsAllocated P gfp_allowed_mask s st [] pf (
          from_new_slab P gfp_allowed_mask s irqs (
            format_allocated P gfp_allowed_mask s
              (or_smallest P gfp_allowed_mask s gfp (o, record st { buddy = a }))))
  unfolding or_smallest alloc_slab_page
  smallest-IsAllocated st pf irqs gfp flags (some p) a v idle clean comp comp_min e =
      finish-IsAllocated st pf v idle irqs gfp flags s.oo (some p) a plain.sized clean comp
        (λ h. absurd (ground (arith, ap is_none h))) e
  smallest-IsAllocated st pf irqs gfp flags none a v idle clean comp comp_min e =
      let apart = alloc-IsApart st pf v idle flags (oo_order s.oo) none a e in
      let r = P.alloc_pages a gfp (oo_order s.min) in
      let same_slabs : (x : ℕ)
          → in_cache P s st (head_of P s st x) ≡ true
          → in_cache P s st (P.virt_to_head_page a x) ≡ true =
        λ x h. ap (in_cache P s st) (apart.still_head x h) ∙ h in
      IsAllocated-from P gfp_allowed_mask s st (record st { buddy = a }) [] [] pf pf
        (from_new_slab P gfp_allowed_mask s irqs (
          format_allocated P gfp_allowed_mask s
            (finish_slab P gfp_allowed_mask s gfp s.min (r.0, record st { buddy = r.1 }))))
        (free_count_apart P s st [] pf v a apart) same_slabs
        (finish-IsAllocated (record st { buddy = a }) pf (IsApart-IsValid P s st [] pf v a apart)
          idle irqs gfp gfp s.min r.0 r.1 plain.sized_min
          (P.alloc-clean st.buddy flags (oo_order s.oo) none a e clean) comp_min (λ h. refl) refl)

  pub new_slab-IsAllocated :
      (st : State P) (pf : ℕ → List ℕ) (irqs : Bool) (gfp : ℕ)
      → IsValid P s st [] pf
      → st.cpu.page ≡ none
      → P.clean st.buddy ≡ true
      → IsAllocated P gfp_allowed_mask s st [] pf
          (from_new_slab P gfp_allowed_mask s irqs (new_slab P gfp_allowed_mask s st gfp))
  unfolding new_slab allocate_slab alloc_slab_page irqs_for
  new_slab-IsAllocated st pf irqs gfp v idle clean =
      let allowed = bit_and (bit_and gfp gfp_slab_mask) gfp_allowed_mask in
      let flags = bit_or allowed s.allocflags in
      let alloc_gfp = bit_and (bit_or flags gfp_quiet) gfp_may_fail in
      let st1 = irqs_for P gfp_allowed_mask allowed true st in
      let valid : IsValid P s st1 [] pf =
        IsValid-counters P s st [] pf st.vm_stat st1.irqs_on st.preempt_count st.reclaimed_slab v in
      let r = P.alloc_pages st.buddy alloc_gfp (oo_order s.oo) in
      IsAllocated-from P gfp_allowed_mask s st st1 [] [] pf pf
        (from_new_slab P gfp_allowed_mask s irqs (
          format_allocated P gfp_allowed_mask s
            (or_smallest P gfp_allowed_mask s flags (r.0, record st1 { buddy = r.1 }))))
        (λ x. refl) (λ x h. h)
        (smallest-IsAllocated st1 pf irqs flags alloc_gfp r.0 r.1 valid idle clean
          (compound_quiet s.oo allowed plain.compound)
          (compound_flags s.min allowed plain.compound_min) refl)

  -- The list of the processor, which is not empty.
  pub load-IsAllocated :
      (irqs : Bool) (st : State P) (object : ℕ) (cf : List ℕ) (pf : ℕ → List ℕ)
      → object ≢ 0
      → IsValid P s (with_list P gfp_allowed_mask s st object) cf pf
      → IsAllocated P gfp_allowed_mask s st cf pf
          (some (load_freelist P gfp_allowed_mask s irqs st object))
  unfolding load_freelist count
  load-IsAllocated irqs st object cf pf ne v =
      let (rest, (e, chain)) = Chain-some s.offset st.memory object cf v.cpu_chain ne in
      let valid = subst (λ l. IsValid P s (with_list P gfp_allowed_mask s st object) l pf) e v in
      subst
        (λ l.
          IsAllocated P gfp_allowed_mask s st l pf
            (some (load_freelist P gfp_allowed_mask s irqs st object)))
        (sym e)
        (inr (
          ne,
          (
            [],
            (λ x h. refl, load_freelist-IsTaken P gfp_allowed_mask s irqs st object rest pf valid),
          ),
        ))
