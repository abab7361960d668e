-- ===== src/Slub/Given.antt =====
-- An object is given back: to the list of the processor, or to that of its page.
use xc.Common.{
  Option, [], ℕ, ◌+◌, ◌-◌, ◌%◌, ◌^◌, ◌≤◌, ◌<◌, ◌≡◌, ◌≢◌, ◌⊎◌, refl, subst, sym, ap, ◌∙◌, inl, inr,
  arith, true, false, List, ◌∷◌, ◌==◌, ==_iff, ==_ne, Bool-cases, Array, update, long_mod, long_add,
  long_sub,
}
use xc.Slub.{KmemCache, SlabPage, dec_inuse, add_partial, remove_partial, set_freepointer, next_tid}
use xc.Slub.Pages.{PageAllocator}
use xc.Slub.Release.{State, is_cpu_page}
use xc.Slub.Chain.{
  Chain, Chain-update, Chain-push, count, length, same, count-append, length-append, length-delete,
}
use xc.Slub.Valid.{
  IsValid, IsStep, IsStep-IsValid, free_count, free_count-step, head_of, in_cache, of_cache,
  times_partial, is_empty, times_full, IsValid-counters,
}
use xc.Slub.Apart.{IsApart, IsApart-IsValid, free_count_apart}
use xc.Slub.Taken.{Chain-none, Chain-some}

module _ (P : PageAllocator) (s : KmemCache) where
  -- An object is given back: it is free in addition, and the blocks of pages are as they were; or it was the
  -- only one of its page in use, and the page is no slab any more and has gone back as a block.
  abbrev pub WasLast : State P → (ℕ → List ℕ) → ℕ → State P → Type 0
  WasLast st pf p st' =
      ((st.page p).counters.inuse ≡ 1)
      × ((length (pf p) + 1 ≡ (st.page p).counters.objects)
          × ((in_cache P s st' p ≡ false)
              × (st'.buddy ≡ P.free_pages st.buddy p (P.compound_order st.buddy p))))

  abbrev pub IsGiven : State P → List ℕ → (ℕ → List ℕ) → ℕ → ℕ → State P → Type 0
  IsGiven st cf pf p object st' =
      (cf' : List ℕ) × ((pf' : ℕ → List ℕ) × (IsValid P s st' cf' pf'
          × (((st'.buddy ≡ st.buddy)
                × ((x : ℕ)
                    → free_count P s st' cf' pf' x ≡ free_count P s st cf pf x + same x object))
              ⊎ (WasLast st pf p st'
                  × ((x : ℕ)
                      → head_of P s st x ≢ p
                      → free_count P s st' cf' pf' x ≡ free_count P s st cf pf x)))))

  -- An object that is given out, of the slab `p`.
  pub record IsOut (st : State P) (cf : List ℕ) (pf : ℕ → List ℕ) (p object : ℕ) : Type 0 where
    pub not_null : object ≢ 0
    pub in_page : head_of P s st object ≡ p
    pub own : in_cache P s st p ≡ true
    pub not_free : free_count P s st cf pf object ≡ 0
    pub counted : 0 < (st.page p).counters.inuse

  module _ (st : State P) (cf : List ℕ) (pf : ℕ → List ℕ) (v : IsValid P s st cf pf) (p object : ℕ)
      (out : IsOut st cf pf p object) where
    not_on_page : (q : ℕ) → count object (pf q) ≡ 0
    not_on_page q = elim (Bool-cases (head_of P s st object == q)) [
      | inl e ↦
          subst (λ r. count object (pf r) ≡ 0) ((==_iff _ _).0 e)
            (let free = out.not_free in omega arith)
      | inr e ↦ v.inside q object (λ h. absurd (ground arith))
    ]

    not_on_cpu : count object cf ≡ 0
    not_on_cpu = let free = out.not_free in omega arith

    -- page == c->page
    abbrev pub cpu_given : State P
    cpu_given = record st {
      memory = set_freepointer s st.memory object st.cpu.freelist;
      cpu = record st.cpu { freelist = object; tid = next_tid st.cpu.tid };
    }

    pub same_object : (x : ℕ) → head_of P s st x ≢ p → same x object ≡ 0
    same_object x ne = elim (Bool-cases (object == x)) [
      | inl e ↦ absurd (ne (ap (head_of P s st) (sym ((==_iff _ _).0 e)) ∙ out.in_page))
      | inr e ↦ rw e refl
    ]

    given_once : (x : ℕ) → head_of P s st x ≡ p → same x object + count x cf + count x (pf p) ≤ 1
    given_once x e = elim (Bool-cases (object == x)) [
      | inl q ↦
          let same_one : object ≡ x = (==_iff _ _).0 q in
          let on_cpu = subst (λ y. count y cf ≡ 0) same_one not_on_cpu in
          let on_page = subst (λ y. count y (pf p) ≡ 0) same_one (not_on_page p) in
          rw q (omega arith)
      | inr q ↦
          rw q (let once = subst (λ r. count x cf + count x (pf r) ≤ 1) e (v.once x) in omega arith)
    ]

    pub cpu_given-IsStep :
        is_cpu_page p st.cpu.page ≡ true
        → IsStep P s st cpu_given p (st.page p) cf (object ∷ cf) pf (pf p)
    unfolding count
    cpu_given-IsStep here = record {
      buddy = refl;
      written = refl;
      pages = λ q ne. refl;
      kept = λ q f ne chain.
          Chain-update s.offset st.memory object st.cpu.freelist f (pf q) (not_on_page q) chain;
      cpu_now =
          Chain-push s.offset st.memory object st.cpu.freelist cf out.not_null not_on_cpu
            v.cpu_chain;
      page_now = λ h.
          Chain-update s.offset st.memory object st.cpu.freelist (st.page p).freelist (pf p)
            (not_on_page p) (v.page_chain p out.own);
      gone = λ h. v.others p h;
      inside_now = λ x ne. (v.inside p x ne, omega (arith, same_object x ne));
      cpu_inside_now = λ x e h. absurd (ground (arith, h, here));
      once_now = λ x e. given_once x e;
      same_cpu = λ q ne. refl;
      cpu_page_now = λ h. v.cpu_page p h;
      frozen_now = λ h k. here;
      same_listed = λ q ne. refl;
      listed_now = v.listed p;
      nr_now = v.nr;
      in_use_now = λ h. v.in_use p h;
      owned_now = λ h. v.owned p h;
    }

    -- page != c->page
    abbrev pub given_page : SlabPage
    given_page = record (st.page p) { freelist = object; counters = dec_inuse (st.page p).counters }

    abbrev pub given_memory : Array ℕ
    given_memory = set_freepointer s st.memory object (st.page p).freelist

    module _ (elsewhere : is_cpu_page p st.cpu.page ≡ false) where
      pub cold : (st.page p).counters.frozen ≡ false
      cold = elim (Bool-cases (st.page p).counters.frozen) [
        | inl e ↦
            let clash : false ≡ true = sym elsewhere ∙ v.frozen p out.own e in
            absurd (ground (arith, clash))
        | inr e ↦ e
      ]

      no_cpu_objects : (x : ℕ) → head_of P s st x ≡ p → count x cf ≡ 0
      no_cpu_objects x e = v.cpu_inside x (ap (λ r. is_cpu_page r st.cpu.page) e ∙ elsewhere)

      times_now :
          (st.page p).counters.frozen ≡ false
          → times_partial (of_cache P s given_page) given_page.counters.frozen false ≡ 1
      times_now e = rw (out.own, e) refl

      kept_there :
          (q f : ℕ) → Chain s.offset st.memory f (pf q) → Chain s.offset given_memory f (pf q)
      kept_there q f =
          Chain-update s.offset st.memory object (st.page p).freelist f (pf q) (not_on_page q)

      -- The object is on the list of the page, and the page on that of pages, if it was or not.
      pub given-IsStep :
          (st' : State P)
          → st'.memory ≡ given_memory
          → st'.page ≡ update st.page p given_page
          → st'.cpu ≡ st.cpu
          → st'.buddy ≡ st.buddy
          → ((q : ℕ) → q ≢ p → count q st'.node.partial ≡ count q st.node.partial)
          → count p st'.node.partial ≡ 1
          → st'.node.nr_partial ≡ length st'.node.partial % long_mod
          → IsStep P s st st' p given_page cf cf pf (object ∷ pf p)
      unfolding count length
      given-IsStep st' memory page cpu buddy others here nr = record {
        buddy = buddy;
        written = ap (λ g. g p) page ∙ rw ((==_iff p p).1 refl) refl;
        pages = λ q ne. ap (λ g. g q) page ∙ rw (==_ne q p ne) refl;
        kept = λ q f ne chain.
            subst (λ m. Chain s.offset m f (pf q)) (sym memory) (kept_there q f chain);
        cpu_now =
            subst (λ c. Chain s.offset st'.memory c.freelist cf) (sym cpu)
              (subst (λ m. Chain s.offset m st.cpu.freelist cf) (sym memory)
                (Chain-update s.offset st.memory object (st.page p).freelist st.cpu.freelist cf
                  not_on_cpu v.cpu_chain));
        page_now = λ h.
            subst (λ m. Chain s.offset m object (object ∷ pf p)) (sym memory)
              (Chain-push s.offset st.memory object (st.page p).freelist (pf p) out.not_null
                (not_on_page p) (v.page_chain p out.own));
        gone = λ h. absurd (ground (arith, h, out.own));
        inside_now = λ x ne. (omega (arith, same_object x ne, v.inside p x ne), refl);
        cpu_inside_now = λ x e h. no_cpu_objects x e;
        once_now = λ x e. omega (arith, given_once x e);
        same_cpu = λ q ne. ap (λ c. is_cpu_page q c.page) cpu;
        cpu_page_now = λ h.
            let clash : false ≡ true =
              sym elsewhere ∙ ap (λ c. is_cpu_page p c.page) (sym cpu) ∙ h in
            absurd (ground (arith, clash));
        frozen_now = λ h k. absurd (ground (arith, k, cold));
        same_listed = others;
        listed_now = here ∙ sym (times_now cold);
        nr_now = nr;
        in_use_now = λ h.
            let (sum, few) = v.in_use p out.own in let counted = out.counted in (omega arith, few);
        owned_now = λ h. v.owned p out.own;
      }

      pub step-IsGiven :
          (st' : State P)
          → IsStep P s st st' p given_page cf cf pf (object ∷ pf p)
          → IsGiven st cf pf p object st'
      unfolding count
      step-IsGiven st' step = (
        cf,
        (
          update pf p (object ∷ pf p),
          (
            IsStep-IsValid P s st st' p given_page cf cf pf (object ∷ pf p) v step,
            inl (
              step.buddy,
              λ x.
                  let moved =
                    free_count-step P s st st' p given_page cf cf pf (object ∷ pf p) v step x 0
                      (same x object) (λ h. omega arith) (λ h. sym (same_object x h)) in
                  omega (arith, moved),
            ),
          ),
        ),
      )

      -- The page is emptied and goes back.
      abbrev pub cleared_page : SlabPage
      cleared_page = record given_page {
        is_slab = false;
        counters = record { inuse = 2 ^ 16 - 1; objects = 2 ^ 15 - 1; frozen = true };
      }

      pub cleared-IsStep :
          (st' : State P)
          → st'.memory ≡ given_memory
          → ((q : ℕ) → q ≢ p → st'.page q ≡ st.page q)
          → st'.page p ≡ cleared_page
          → st'.cpu ≡ st.cpu
          → st'.buddy ≡ st.buddy
          → ((q : ℕ) → q ≢ p → count q st'.node.partial ≡ count q st.node.partial)
          → count p st'.node.partial ≡ 0
          → st'.node.nr_partial ≡ length st'.node.partial % long_mod
          → IsStep P s st st' p cleared_page cf cf pf []
      unfolding count length
      cleared-IsStep st' memory pages page cpu buddy others here nr = record {
        buddy = buddy;
        written = page;
        pages = pages;
        kept = λ q f ne chain.
            subst (λ m. Chain s.offset m f (pf q)) (sym memory) (kept_there q f chain);
        cpu_now =
            subst (λ c. Chain s.offset st'.memory c.freelist cf) (sym cpu)
              (subst (λ m. Chain s.offset m st.cpu.freelist cf) (sym memory)
                (Chain-update s.offset st.memory object (st.page p).freelist st.cpu.freelist cf
                  not_on_cpu v.cpu_chain));
        page_now = λ h. absurd (ground (arith, h));
        gone = λ h. refl;
        inside_now = λ x ne. (refl, refl);
        cpu_inside_now = λ x e h. no_cpu_objects x e;
        once_now = λ x e. omega (arith, no_cpu_objects x e);
        same_cpu = λ q ne. ap (λ c. is_cpu_page q c.page) cpu;
        cpu_page_now = λ h.
            let clash : false ≡ true =
              sym elsewhere ∙ ap (λ c. is_cpu_page p c.page) (sym cpu) ∙ h in
            absurd (ground (arith, clash));
        frozen_now = λ h k. absurd (ground (arith, h));
        same_listed = others;
        listed_now = here;
        nr_now = nr;
        in_use_now = λ h. absurd (ground (arith, h));
        owned_now = λ h. absurd (ground (arith, h));
      }

      cleared-IsApart :
          (st' : State P) (order : ℕ)
          → st'.page p ≡ cleared_page
          → IsValid P s st' cf (update pf p [])
          → IsApart P s st' (P.free_pages st'.buddy p order)
      cleared-IsApart st' order page valid =
          let other : (q : ℕ) → in_cache P s st' q ≡ true → q ≢ p = λ q own e.
            let clash : false ≡ true =
              sym (ap (of_cache P s) page) ∙ ap (in_cache P s st') (sym e) ∙ own in
            absurd (ground (arith, clash)) in
          record {
            still_used = λ q own. P.free-used st'.buddy p order q (other q own) (valid.owned q own);
            still_head = λ x own.
                P.free-head st'.buddy p order x (other (head_of P s st' x) own)
                  (valid.owned (head_of P s st' x) own);
          }

      -- Emptied, the page had one object in use.
      was_last :
          (dec_inuse (st.page p).counters).inuse ≡ 0
          → ((st.page p).counters.inuse ≡ 1) × (length (pf p) + 1 ≡ (st.page p).counters.objects)
      was_last empty =
          let (sum, few) = v.in_use p out.own in
          let counted = out.counted in
          let one : (st.page p).counters.inuse ≡ 1 = omega (arith, sum, few, counted, empty) in
          (one, omega (arith, sum, one))

      pub cleared-IsGiven :
          (st' : State P) (reclaimed : Option ℕ)
          → (dec_inuse (st.page p).counters).inuse ≡ 0
          → st'.page p ≡ cleared_page
          → IsStep P s st st' p cleared_page cf cf pf []
          → IsGiven st cf pf p object (record st' {
            buddy = P.free_pages st'.buddy p (P.compound_order st.buddy p);
            reclaimed_slab = reclaimed;
          })
      unfolding count
      cleared-IsGiven st' reclaimed empty page step =
          let order = P.compound_order st.buddy p in
          let last = was_last empty in
          let valid = IsStep-IsValid P s st st' p cleared_page cf cf pf [] v step in
          let apart = cleared-IsApart st' order page valid in
          let a = P.free_pages st'.buddy p order in
          let whole : IsValid P s (record st' { buddy = a; reclaimed_slab = reclaimed }) cf
              (update pf p []) =
            IsValid-counters P s (record st' { buddy = a }) cf (update pf p []) st'.vm_stat
              st'.irqs_on st'.preempt_count reclaimed
              (IsApart-IsValid P s st' cf (update pf p []) valid a apart) in
          (
            cf,
            (
              update pf p [],
              (
                whole,
                inr (
                  (
                    last.0,
                    (
                      last.1,
                      (
                        ap (of_cache P s) page,
                        ap (λ b. P.free_pages b p (P.compound_order st.buddy p)) step.buddy,
                      ),
                    ),
                  ),
                  λ x ne.
                      let moved =
                        free_count-step P s st st' p cleared_page cf cf pf [] v step x 0 0
                          (λ h. absurd (ne h)) (λ h. refl) in
                      let same_free =
                        free_count_apart P s st' cf (update pf p []) valid a apart x in
                      omega (arith, moved, same_free),
                ),
              ),
            ),
          )

      -- What becomes of the list of pages.
      pub on_list : (st.page p).freelist ≢ 0 → count p st.node.partial ≡ 1
      on_list ne =
          let (rest, (e, chain)) =
            Chain-some s.offset st.memory (st.page p).freelist (pf p) (v.page_chain p out.own) ne in
          v.listed p
          ∙ ap (λ b. times_partial b (st.page p).counters.frozen (is_empty (pf p))) out.own
          ∙ ap (λ b. times_partial true b (is_empty (pf p))) cold
          ∙ ap (λ l. times_partial true false (is_empty l)) e

      pub off_list : (st.page p).freelist ≡ 0 → count p st.node.partial ≡ 0
      off_list e =
          let e' =
            Chain-none s.offset st.memory (st.page p).freelist (pf p) (v.page_chain p out.own) e in
          v.listed p
          ∙ ap (λ l. times_partial (in_cache P s st p) (st.page p).counters.frozen (is_empty l)) e'
          ∙ times_full (in_cache P s st p) (st.page p).counters.frozen

      pub added :
          (add_partial st.node p true).nr_partial
          ≡ length (add_partial st.node p true).partial % long_mod
      unfolding length long_add
      added =
          let nr = v.nr in
          let more = length-append st.node.partial (p ∷ []) in omega (arith, nr, more)

      pub added_other :
          (q : ℕ) → q ≢ p → count q (add_partial st.node p true).partial ≡ count q st.node.partial
      unfolding count
      added_other q ne = ground (arith, count-append q st.node.partial (p ∷ []))

      pub added_here : (st.page p).freelist ≡ 0 → count p (add_partial st.node p true).partial ≡ 1
      unfolding count
      added_here e = ground (arith, count-append p st.node.partial (p ∷ []), off_list e)

      pub removed :
          1 ≤ count p st.node.partial
          → (remove_partial st.node p).nr_partial
            ≡ length (remove_partial st.node p).partial % long_mod
      unfolding long_sub
      removed on =
          let nr = v.nr in let less = length-delete p st.node.partial on in omega (arith, nr, less)
