-- ===== src/Slub/Acquired.antt =====
-- A page becomes the processor's with its free objects, or is the processor's no more.
use xc.Common.{
  [], ℕ, suc, ◌+◌, ◌%◌, ◌≤◌, ◌≡◌, ◌≢◌, refl, subst, sym, ap, ◌∙◌, arith, true, false, none, some,
  List, if◌then◌else◌, ==_iff, ==_ne, update, long_mod, long_sub,
}
use xc.Slub.{KmemCache, remove_partial, delete_page}
use xc.Slub.Pages.{PageAllocator}
use xc.Slub.Release.{State, is_cpu_page}
use xc.Slub.Alloc.{acquired, acquire_slab}
use xc.Slub.Chain.{count, length, count-delete, count-delete_ne, length-delete}
use xc.Slub.Valid.{
  IsValid, IsStep, IsStep-IsValid, free_count, free_count-step, in_cache, times_partial, is_empty,
  times_frozen, times_full, times_some, is_cpu_page_other,
}
use xc.Slub.Taken.{Chain-none, frozen_as, frozen_page, with_list, freeze_slab-some}

long_sub_one : (n m : ℕ) → m + 1 ≡ n → long_sub (n % long_mod) 1 ≡ m % long_mod
unfolding long_sub
long_sub_one n m h = omega arith

module _ (P : PageAllocator) (gfp_allowed_mask : ℕ) (s : KmemCache) where
  module _ (st : State P) (pf : ℕ → List ℕ) (p : ℕ) (v : IsValid P s st [] pf)
      (own : in_cache P s st p ≡ true) where
    -- The page at hand is the processor's: its list becomes that of the processor.
    pub refill-IsStep :
        is_cpu_page p st.cpu.page ≡ true
        → IsStep P s st
            (with_list P gfp_allowed_mask s
              (frozen_page P gfp_allowed_mask s st p true)
              (st.page p).freelist)
            p
            (frozen_as P gfp_allowed_mask s (st.page p) true)
            []
            (pf p)
            pf
            []
    unfolding count length
    refill-IsStep here = record {
      buddy = refl;
      written = rw ((==_iff p p).1 refl) refl;
      pages = λ q ne. rw (==_ne q p ne) refl;
      kept = λ q f ne chain. chain;
      cpu_now = v.page_chain p own;
      page_now = λ h. refl;
      gone = λ h. refl;
      inside_now = λ x ne. (refl, v.inside p x ne);
      cpu_inside_now = λ x e h. absurd (ground (arith, h, here));
      once_now = λ x e. omega (arith, subst (λ r. count x (pf r) ≤ 1) e (omega (arith, v.once x)));
      same_cpu = λ q ne. refl;
      cpu_page_now = λ h. (own, refl);
      frozen_now = λ h k. here;
      same_listed = λ q ne. refl;
      listed_now =
          v.listed p
          ∙ ap (λ b. times_partial (in_cache P s st p) b (is_empty (pf p))) (v.cpu_page p here).1
          ∙ times_frozen (in_cache P s st p) (is_empty (pf p))
          ∙ sym (times_frozen (in_cache P s st p) true);
      nr_now = v.nr;
      in_use_now = λ h. (omega arith, (v.in_use p own).1);
      owned_now = λ h. v.owned p own;
    }

    -- The page at hand is the processor's and has no free object: the processor has no page then.
    pub drop-IsStep :
        is_cpu_page p st.cpu.page ≡ true
        → st.cpu.freelist ≡ 0
        → pf p ≡ []
        → IsStep P s st
            (let st' = frozen_page P gfp_allowed_mask s st p false in
              record st' { cpu = record st.cpu { page = none } })
            p
            (frozen_as P gfp_allowed_mask s (st.page p) false)
            []
            []
            pf
            []
    unfolding count length
    drop-IsStep here e no_left = record {
      buddy = refl;
      written = rw ((==_iff p p).1 refl) refl;
      pages = λ q ne. rw (==_ne q p ne) refl;
      kept = λ q f ne chain. chain;
      cpu_now = e;
      page_now = λ h. refl;
      gone = λ h. refl;
      inside_now = λ x ne. (refl, refl);
      cpu_inside_now = λ x e h. refl;
      once_now = λ x e. omega arith;
      same_cpu = λ q ne. sym (is_cpu_page_other st.cpu.page p q here ne);
      cpu_page_now = λ h. absurd (ground (arith, h));
      frozen_now = λ h k. absurd (ground (arith, k));
      same_listed = λ q ne. refl;
      listed_now =
          v.listed p
          ∙ ap (λ l. times_partial (in_cache P s st p) (st.page p).counters.frozen (is_empty l))
              no_left
          ∙ times_full (in_cache P s st p) (st.page p).counters.frozen
          ∙ sym (times_full (in_cache P s st p) false);
      nr_now = v.nr;
      in_use_now = λ h. (omega arith, (v.in_use p own).1);
      owned_now = λ h. v.owned p own;
    }

  -- A page of the list of pages becomes the processor's, which had none.
  abbrev pub acquired_state : State P → ℕ → State P
  acquired_state st p =
      let st' = frozen_page P gfp_allowed_mask s st p true in
      record st' {
        node = remove_partial st.node p;
        cpu = record st.cpu { freelist = (st.page p).freelist; page = some p; node = 0 };
      }

  module _ (st : State P) (pf : ℕ → List ℕ) (p : ℕ) (v : IsValid P s st [] pf)
      (e : st.cpu.page ≡ none) (on : 1 ≤ count p st.node.partial) where
    partial_page :
        (in_cache P s st p ≡ true)
        × (((st.page p).counters.frozen ≡ false) × (is_empty (pf p) ≡ false))
    partial_page = times_some _ _ _ (subst (λ n. 1 ≤ n) (v.listed p) on)

    pub some_free : (st.page p).freelist ≢ 0
    some_free h =
        let none_left =
          Chain-none s.offset st.memory (st.page p).freelist (pf p) (v.page_chain p partial_page.0)
            h in
        let clash : false ≡ true = sym partial_page.1.1 ∙ ap is_empty none_left in
        absurd (ground (arith, clash))

    not_frozen : count p (remove_partial st.node p).partial ≡ 0
    not_frozen =
        let before : count p st.node.partial ≤ 1 = rw (v.listed p) (ground arith) in
        omega (arith, before, count-delete p st.node.partial on)

    pub acquire-IsStep :
        IsStep P s st
          (acquired_state st p)
          p
          (frozen_as P gfp_allowed_mask s (st.page p) true)
          []
          (pf p)
          pf
          []
    unfolding count length
    acquire-IsStep =
        let (own, (cold, full)) = partial_page in
        record {
          buddy = refl;
          written = rw ((==_iff p p).1 refl) refl;
          pages = λ q ne. rw (==_ne q p ne) refl;
          kept = λ q f ne chain. chain;
          cpu_now = v.page_chain p own;
          page_now = λ h. refl;
          gone = λ h. refl;
          inside_now = λ x ne. (refl, v.inside p x ne);
          cpu_inside_now = λ x e h. absurd (ground (arith, h));
          once_now =
              λ x e. omega (arith, subst (λ r. count x (pf r) ≤ 1) e (omega (arith, v.once x)));
          same_cpu = λ q ne. ==_ne q p ne ∙ sym (ap (is_cpu_page q) e);
          cpu_page_now = λ h. (own, refl);
          frozen_now = λ h k. (==_iff p p).1 refl;
          same_listed = λ q ne. count-delete_ne q p st.node.partial ne;
          listed_now = not_frozen ∙ sym (times_frozen (in_cache P s st p) true);
          nr_now =
              ap (λ n. long_sub n 1) v.nr
              ∙ long_sub_one (length st.node.partial) (length (delete_page p st.node.partial))
                  (length-delete p st.node.partial on);
          in_use_now = λ h. (omega arith, (v.in_use p own).1);
          owned_now = λ h. v.owned p own;
        }

    pub acquire_slab-some :
        (fuel : ℕ)
        → acquire_slab P gfp_allowed_mask (suc fuel) st p ≡ some (true, acquired_state st p)
    unfolding acquire_slab acquired
    acquire_slab-some fuel =
        ap (λ o. elim o [ none ↦ none | some r ↦ some (acquired P gfp_allowed_mask p r.0 r.1) ])
          (freeze_slab-some P gfp_allowed_mask s fuel st p (λ freelist. true))
        ∙ ap
            (λ b. some (
              if b
              then (
                false,
                record (frozen_page P gfp_allowed_mask s st p true) {
                  node = remove_partial st.node p;
                },
              )
              else (true, acquired_state st p)))
            (==_ne (st.page p).freelist 0 some_free)

    -- The page is acquired, and all objects that were free still are.
    pub acquired-IsValid : IsValid P s (acquired_state st p) (pf p) (update pf p [])
    acquired-IsValid =
        IsStep-IsValid P s st (acquired_state st p) p
          (frozen_as P gfp_allowed_mask s (st.page p) true) [] (pf p) pf [] v acquire-IsStep

    pub acquired-free :
        (x : ℕ)
        → free_count P s (acquired_state st p) (pf p) (update pf p []) x ≡ free_count P s st [] pf x
    unfolding count
    acquired-free x =
        let step =
          free_count-step P s st (acquired_state st p) p
            (frozen_as P gfp_allowed_mask s (st.page p) true) [] (pf p) pf [] v acquire-IsStep x 0 0
            (λ h. omega arith) (λ h. refl) in
        omega (arith, step)
