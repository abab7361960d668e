-- ===== src/Slub/Freed.antt =====
-- `slab_free` as a whole, on a cache whose slabs are changed under the lock.
use xc.Common.{
  ℕ, suc, ◌-◌, ◌^◌, ◌≤◌, ◌≡◌, refl, subst, sym, ap, ◌∙◌, arith, Bool, true, false, not, ◌&&◌, ◌||◌,
  Option, none, some, List, if◌then◌else◌, ltb, ◌==◌, ==_iff, ==_ne, ==_false,
}
use xc.Slub.{
  KmemCache, Counters, with_page, any_set, cmpxchg_double_flag, same_counters, dec_inuse,
  add_partial, remove_partial, delete_page, counters_word, try_cmpxchg_double_slab,
  cmpxchg_double_slab, set_freepointer,
}
use xc.Slub.Pages.{PageAllocator}
use xc.Slub.Release.{
  State, is_cpu_page, slab_free_loop, finish_free, discard_slab, free_slab_pages, unlock_irqrestore,
  lock_irqsave_if, saved_if, after_free, count_reclaimed, slab_destroy_by_rcu,
}
use xc.Slub.Chain.{count, count-delete, count-delete_ne}
use xc.Slub.Valid.{IsValid}
use xc.Slub.Taken.{same_counters_refl}
use xc.Slub.Given.{
  IsGiven, IsOut, cold, given-IsStep, step-IsGiven, cleared_page, cleared-IsStep, cleared-IsGiven,
  on_list, off_list, added, added_other, added_here, removed,
}

module _ (P : PageAllocator) (s : KmemCache) where
  and_true : (b : Bool) → ((b && not false) && true) ≡ b
  and_true true = refl
  and_true false = refl

  -- Without the flag the exchange is that of the locked branch, and succeeds.
  cmpxchg_some :
      (st : State P) (pointer above p object : ℕ) (c : Counters)
      → any_set s.flags cmpxchg_double_flag ≡ false
      → cmpxchg_double_slab s pointer above st p (st.page p).freelist (st.page p).counters object c
        ≡ some (with_page st p (record (st.page p) { freelist = object; counters = c }))
  unfolding cmpxchg_double_slab try_cmpxchg_double_slab
  cmpxchg_some st pointer above p object c e =
      let f = (st.page p).freelist in
      let now = (st.page p).counters in
      let done = with_page st p (record (st.page p) { freelist = object; counters = c }) in
      let try : Bool → Option (State P) = λ b. if b then some done else none in
      let both : (f == f && same_counters now now) ≡ true =
        ap (λ b. b && same_counters now now) ((==_iff f f).1 refl) ∙ same_counters_refl now in
      ap
        (λ b.
          if b
          then if pointer == f && above == counters_word now then some st else none
          else try (f == f && same_counters now now))
        e
      ∙ ap try both

  module _ (st : State P) (cf : List ℕ) (pf : ℕ → List ℕ) (v : IsValid P s st cf pf) (p object : ℕ)
      (out : IsOut P s st cf pf p object) (elsewhere : is_cpu_page p st.cpu.page ≡ false)
      (no_rcu : any_set s.flags slab_destroy_by_rcu ≡ false) where
    -- The page after the exchange, with the list of pages locked or not.
    abbrev exchanged : Bool → State P
    exchanged b =
        with_page
          (lock_irqsave_if P b
            (record st { memory = set_freepointer s st.memory object (st.page p).freelist }))
          p (record (st.page p) { freelist = object; counters = dec_inuse (st.page p).counters })

    abbrev finished : Bool → State P
    finished b =
        after_free P s p (st.page p).freelist (dec_inuse (st.page p).counters).inuse
          (st.page p).counters.frozen (saved_if P b st.irqs_on none) (exchanged b)

    unlocked-IsGiven :
        ((dec_inuse (st.page p).counters).inuse == 0 || (st.page p).freelist == 0) ≡ false
        → IsGiven P s st cf pf p object (finished false)
    unfolding after_free saved_if lock_irqsave_if
    unlocked-IsGiven e = step-IsGiven P s st cf pf v p object out elsewhere (exchanged false) (
        given-IsStep P s st cf pf v p object out elsewhere (exchanged false) refl refl refl refl
          (λ q ne. refl)
          (on_list P s st cf pf v p object out elsewhere (λ h. absurd (ground arith))) v.nr)

    -- `finish_free` for the two tests: whether the page is empty and may go, and whether it was full.
    abbrev ended : Bool → Bool → State P
    ended empty full =
        let done = exchanged true in
        let without = if full then done else record done { node = remove_partial done.node p } in
        let with_it = if full then record done { node = add_partial done.node p true } else done in
        if empty
        then discard_slab P s (unlock_irqrestore P without st.irqs_on) p
        else unlock_irqrestore P with_it st.irqs_on

    abbrev cleared : State P → State P
    cleared st1 = with_page st1 p (record (st1.page p) {
      is_slab = false;
      counters = record { inuse = 2 ^ 16 - 1; objects = 2 ^ 15 - 1; frozen = true };
    })

    discarded : (st1 : State P) → discard_slab P s st1 p ≡ free_slab_pages P st1 p
    unfolding discard_slab
    discarded st1 = ap (λ b. if b then st1 else free_slab_pages P st1 p) no_rcu

    ended-IsGiven :
        (empty full : Bool)
        → ((st.page p).freelist == 0) ≡ full
        → (empty ≡ true → (dec_inuse (st.page p).counters).inuse ≡ 0)
        → IsGiven P s st cf pf p object (ended empty full)
    unfolding lock_irqsave_if unlock_irqrestore free_slab_pages
    ended-IsGiven false true e emptied =
        let st1 = ended false true in
        step-IsGiven P s st cf pf v p object out elsewhere st1 (
          given-IsStep P s st cf pf v p object out elsewhere st1 refl refl refl refl
            (added_other P s st cf pf v p object out elsewhere)
            (added_here P s st cf pf v p object out elsewhere ((==_iff _ _).0 e))
            (added P s st cf pf v p object out elsewhere))
    ended-IsGiven false false e emptied =
        let st1 = ended false false in
        step-IsGiven P s st cf pf v p object out elsewhere st1 (
          given-IsStep P s st cf pf v p object out elsewhere st1 refl refl refl refl (λ q ne. refl)
            (on_list P s st cf pf v p object out elsewhere (==_false _ _ e)) v.nr)
    ended-IsGiven true true e emptied =
        let done = unlock_irqrestore P (exchanged true) st.irqs_on in
        let st1 = cleared done in
        let page : st1.page p ≡ cleared_page P s st cf pf v p object out elsewhere =
          rw ((==_iff p p).1 refl) refl in
        let here = off_list P s st cf pf v p object out elsewhere ((==_iff _ _).0 e) in
        subst (IsGiven P s st cf pf p object) (sym (discarded done)) (
          cleared-IsGiven P s st cf pf v p object out elsewhere st1
            (count_reclaimed (P.compound_order st.buddy p) st.reclaimed_slab) (emptied refl) page
            (cleared-IsStep P s st cf pf v p object out elsewhere st1 refl
              (λ q ne. rw (==_ne q p ne) refl) page refl refl (λ q ne. refl) here v.nr))
    ended-IsGiven true false e emptied =
        let done =
          unlock_irqrestore P (record (exchanged true) { node = remove_partial st.node p })
            st.irqs_on in
        let st1 = cleared done in
        let page : st1.page p ≡ cleared_page P s st cf pf v p object out elsewhere =
          rw ((==_iff p p).1 refl) refl in
        let on = on_list P s st cf pf v p object out elsewhere (==_false _ _ e) in
        let some_there : 1 ≤ count p st.node.partial = omega (arith, on) in
        let here : count p (delete_page p st.node.partial) ≡ 0 =
          omega (arith, on, count-delete p st.node.partial some_there) in
        subst (IsGiven P s st cf pf p object) (sym (discarded done)) (
          cleared-IsGiven P s st cf pf v p object out elsewhere st1
            (count_reclaimed (P.compound_order st.buddy p) st.reclaimed_slab) (emptied refl) page
            (cleared-IsStep P s st cf pf v p object out elsewhere st1 refl
              (λ q ne. rw (==_ne q p ne) refl) page refl refl
              (λ q ne. count-delete_ne q p st.node.partial ne) here
              (removed P s st cf pf v p object out elsewhere some_there)))

    locked-IsGiven : IsGiven P s st cf pf p object (finished true)
    unfolding after_free saved_if finish_free lock_irqsave_if
    locked-IsGiven =
        let empty =
          (dec_inuse (st.page p).counters).inuse == 0 && ltb s.min_partial st.node.nr_partial in
        let full = (st.page p).freelist == 0 in
        subst (IsGiven P s st cf pf p object)
          (sym (
            ap
              (λ b. if b then unlock_irqrestore P (exchanged true) st.irqs_on else ended empty full)
              (cold P s st cf pf v p object out elsewhere)))
          (ended-IsGiven empty full refl (λ h. ground (arith, h)))

    abbrev needs : Bool
    needs = (dec_inuse (st.page p).counters).inuse == 0 || (st.page p).freelist == 0

    needs_is : ((needs && not (st.page p).counters.frozen) && true) ≡ needs
    needs_is =
        ap (λ b. (needs && not b) && true) (cold P s st cf pf v p object out elsewhere)
        ∙ and_true needs

    -- One round, by whether it locks the list of pages.
    abbrev before_pass : Bool → State P
    before_pass b =
        lock_irqsave_if P b
          (record st { memory = set_freepointer s st.memory object (st.page p).freelist })

    abbrev after_pass : ℕ → (ℕ → ℕ) → ℕ → Bool → Option (State P) → Option (State P)
    after_pass fuel pointer above b tried = elim tried [
      | none ↦
          slab_free_loop P fuel s pointer above (before_pass b) p object
            (saved_if P b st.irqs_on none)
      | some done ↦ some (
          after_free P s p (st.page p).freelist (dec_inuse (st.page p).counters).inuse
            (st.page p).counters.frozen (saved_if P b st.irqs_on none) done)
    ]

    abbrev one_pass : ℕ → (ℕ → ℕ) → ℕ → Bool → Option (State P)
    one_pass fuel pointer above b = after_pass fuel pointer above b (
        cmpxchg_double_slab s (pointer p) above (before_pass b) p (st.page p).freelist
          (st.page p).counters object (dec_inuse (st.page p).counters))

    one_pass-some :
        (fuel : ℕ) (pointer : ℕ → ℕ) (above : ℕ) (b : Bool)
        → any_set s.flags cmpxchg_double_flag ≡ false
        → one_pass fuel pointer above b ≡ some (finished b)
    unfolding lock_irqsave_if
    one_pass-some fuel pointer above true e = ap (after_pass fuel pointer above true) (
        cmpxchg_some (before_pass true) (pointer p) above p object (dec_inuse (st.page p).counters)
          e)
    one_pass-some fuel pointer above false e = ap (after_pass fuel pointer above false) (
        cmpxchg_some (before_pass false) (pointer p) above p object (dec_inuse (st.page p).counters)
          e)

    pass-IsGiven : (b : Bool) → needs ≡ b → IsGiven P s st cf pf p object (finished b)
    pass-IsGiven true e = locked-IsGiven
    pass-IsGiven false e = unlocked-IsGiven e

    -- One pass through the loop is enough.
    pub loop-IsGiven :
        (fuel : ℕ) (pointer : ℕ → ℕ) (above : ℕ)
        → any_set s.flags cmpxchg_double_flag ≡ false
        → (st' : State P) × ((slab_free_loop P (suc fuel) s pointer above st p object none
              ≡ some st')
            × IsGiven P s st cf pf p object st')
    unfolding slab_free_loop
    loop-IsGiven fuel pointer above e = (
      finished needs,
      (
        ap (one_pass fuel pointer above) needs_is ∙ one_pass-some fuel pointer above needs e,
        pass-IsGiven needs refl,
      ),
    )
