-- ===== src/Slub/Valid.antt =====
-- When the state of a cache is in order, for the objects that are free: those of the processor, and those
-- on the list of each page. A step that concerns one page, and one of the allocator of pages, keep it so.
use xc.Common.{
  [], ℕ, ◌+◌, ◌%◌, ◌^◌, ◌≤◌, ◌<◌, ◌≡◌, ◌≢◌, refl, subst, sym, ap, ◌∙◌, inl, inr, arith, Bool, true,
  false, not, ◌&&◌, Option, none, some, List, ◌∷◌, if◌then◌else◌, ◌==◌, ==_iff, Bool-cases, Array,
  update, long_mod,
}
use xc.Slub.{KmemCache, SlabPage}
use xc.Slub.Pages.{PageAllocator}
use xc.Slub.Release.{State, is_cpu_page}
use xc.Slub.Chain.{Chain, count, length}

abbrev pub is_empty : List ℕ → Bool
is_empty [] = true
is_empty (x ∷ xs) = false

-- How often a page is on the list of pages: once, when it has a free object and is not the processor's.
abbrev pub times_partial : Bool → Bool → Bool → ℕ
times_partial own frozen full = if own && (not frozen && not full) then 1 else 0

pub times_some :
    (own frozen full : Bool)
    → 1 ≤ times_partial own frozen full
    → (own ≡ true) × ((frozen ≡ false) × (full ≡ false))
times_some true false false h = (refl, (refl, refl))
times_some true false true h = absurd (omega arith)
times_some true true full h = absurd (omega arith)
times_some false frozen full h = absurd (omega arith)

pub is_cpu_page_other :
    (o : Option ℕ) (p q : ℕ) → is_cpu_page p o ≡ true → q ≢ p → is_cpu_page q o ≡ false
is_cpu_page_other none p q h ne = refl
is_cpu_page_other (some r) p q h ne = ground arith

pub times_frozen : (own full : Bool) → times_partial own true full ≡ 0
times_frozen true full = refl
times_frozen false full = refl

pub times_full : (own frozen : Bool) → times_partial own frozen true ≡ 0
times_full true true = refl
times_full true false = refl
times_full false frozen = refl

module _ (P : PageAllocator) (s : KmemCache) where
  abbrev pub head_of : State P → ℕ → ℕ
  head_of st x = P.virt_to_head_page st.buddy x

  -- Whether a page is a slab of this cache.
  abbrev pub of_cache : SlabPage → Bool
  of_cache w = w.is_slab && w.slab == s.self

  abbrev pub in_cache : State P → ℕ → Bool
  in_cache st p = of_cache (st.page p)

  pub record IsValid (st : State P) (on_cpu : List ℕ) (on_page : ℕ → List ℕ) : Type 0 where
    pub cpu_chain : Chain s.offset st.memory st.cpu.freelist on_cpu
    pub page_chain :
        (p : ℕ) → in_cache st p ≡ true → Chain s.offset st.memory (st.page p).freelist (on_page p)
    pub others : (p : ℕ) → in_cache st p ≡ false → on_page p ≡ []
    pub inside : (p x : ℕ) → head_of st x ≢ p → count x (on_page p) ≡ 0
    pub cpu_inside : (x : ℕ) → is_cpu_page (head_of st x) st.cpu.page ≡ false → count x on_cpu ≡ 0
    pub once : (x : ℕ) → count x on_cpu + count x (on_page (head_of st x)) ≤ 1
    pub cpu_page :
        (p : ℕ)
        → is_cpu_page p st.cpu.page ≡ true
        → (in_cache st p ≡ true) × ((st.page p).counters.frozen ≡ true)
    pub frozen :
        (p : ℕ)
        → in_cache st p ≡ true
        → (st.page p).counters.frozen ≡ true
        → is_cpu_page p st.cpu.page ≡ true
    pub listed :
        (p : ℕ)
        → count p st.node.partial
          ≡ times_partial (in_cache st p) (st.page p).counters.frozen (is_empty (on_page p))
    pub nr : st.node.nr_partial ≡ length st.node.partial % long_mod
    pub in_use :
        (p : ℕ)
        → in_cache st p ≡ true
        → ((st.page p).counters.inuse + length (on_page p) ≡ (st.page p).counters.objects)
          × ((st.page p).counters.objects < 2 ^ 15)
    pub owned : (p : ℕ) → in_cache st p ≡ true → P.used st.buddy p ≡ true

  -- How often an object is free.
  abbrev pub free_count : State P → List ℕ → (ℕ → List ℕ) → ℕ → ℕ
  free_count st on_cpu on_page x = count x on_cpu + count x (on_page (head_of st x))

  -- What a step must keep that concerns the page `p` only, which is `w` now, with the list `l`.
  pub record IsStep (st st' : State P) (p : ℕ) (w : SlabPage) (cf cf' : List ℕ) (pf : ℕ → List ℕ)
      (l : List ℕ) : Type 0 where
    pub buddy : st'.buddy ≡ st.buddy
    pub written : st'.page p ≡ w
    pub pages : (q : ℕ) → q ≢ p → st'.page q ≡ st.page q
    pub kept :
        (q f : ℕ) → q ≢ p → Chain s.offset st.memory f (pf q) → Chain s.offset st'.memory f (pf q)
    pub cpu_now : Chain s.offset st'.memory st'.cpu.freelist cf'
    pub page_now : of_cache w ≡ true → Chain s.offset st'.memory w.freelist l
    pub gone : of_cache w ≡ false → l ≡ []
    pub inside_now : (x : ℕ) → head_of st x ≢ p → (count x l ≡ 0) × (count x cf' ≡ count x cf)
    pub cpu_inside_now :
        (x : ℕ) → head_of st x ≡ p → is_cpu_page p st'.cpu.page ≡ false → count x cf' ≡ 0
    pub once_now : (x : ℕ) → head_of st x ≡ p → count x cf' + count x l ≤ 1
    pub same_cpu : (q : ℕ) → q ≢ p → is_cpu_page q st'.cpu.page ≡ is_cpu_page q st.cpu.page
    pub cpu_page_now :
        is_cpu_page p st'.cpu.page ≡ true → (of_cache w ≡ true) × (w.counters.frozen ≡ true)
    pub frozen_now :
        of_cache w ≡ true → w.counters.frozen ≡ true → is_cpu_page p st'.cpu.page ≡ true
    pub same_listed : (q : ℕ) → q ≢ p → count q st'.node.partial ≡ count q st.node.partial
    pub listed_now :
        count p st'.node.partial ≡ times_partial (of_cache w) w.counters.frozen (is_empty l)
    pub nr_now : st'.node.nr_partial ≡ length st'.node.partial % long_mod
    pub in_use_now :
        of_cache w ≡ true
        → (w.counters.inuse + length l ≡ w.counters.objects) × (w.counters.objects < 2 ^ 15)
    pub owned_now : of_cache w ≡ true → P.used st.buddy p ≡ true

  module _ (st st' : State P) (p : ℕ) (w : SlabPage) (cf cf' : List ℕ) (pf : ℕ → List ℕ)
      (l : List ℕ) (v : IsValid st cf pf) (step : IsStep st st' p w cf cf' pf l) where
    same_head : (x : ℕ) → head_of st' x ≡ head_of st x
    same_head x = ap (λ a. P.virt_to_head_page a x) step.buddy

    -- What holds of the page and of each other page holds of all.
    at_page :
        (Q : ℕ → SlabPage → List ℕ → Type 0)
        → Q p w l
        → ((q : ℕ) → q ≢ p → Q q (st.page q) (pf q))
        → (q : ℕ) → Q q (st'.page q) (update pf p l q)
    at_page Q here there q = elim (Bool-cases (q == p)) [
      | inl e ↦
          let e' : q ≡ p = (==_iff q p).0 e in
          rw e (
            subst (λ y. Q q y l) (sym (ap st'.page e' ∙ step.written))
              (subst (λ r. Q r w l) (sym e') here))
      | inr e ↦
          let ne : q ≢ p = λ h. absurd (ground arith) in
          rw e (subst (λ y. Q q y (pf q)) (sym (step.pages q ne)) (there q ne))
    ]

    pub IsStep-IsValid : IsValid st' cf' (update pf p l)
    IsStep-IsValid = record {
      cpu_chain = step.cpu_now;
      page_chain =
          at_page (λ q y xs. of_cache y ≡ true → Chain s.offset st'.memory y.freelist xs)
            step.page_now (λ q ne own. step.kept q _ ne (v.page_chain q own));
      others =
          at_page (λ q y xs. of_cache y ≡ false → xs ≡ []) step.gone (λ q ne own. v.others q own);
      inside =
          at_page (λ q y xs. (x : ℕ) → head_of st' x ≢ q → count x xs ≡ 0)
            (λ x ne. (step.inside_now x (λ e. ne (same_head x ∙ e))).0)
            (λ q r x ne. v.inside q x (λ e. ne (same_head x ∙ e)));
      cpu_inside = λ x.
          at_page
            (λ q y xs. head_of st' x ≡ q → is_cpu_page q st'.cpu.page ≡ false → count x cf' ≡ 0)
            (λ e h. step.cpu_inside_now x (sym (same_head x) ∙ e) h)
            (λ q ne e h.
              let e' : head_of st x ≡ q = sym (same_head x) ∙ e in
              (step.inside_now x (λ r. ne (sym e' ∙ r))).1
              ∙ v.cpu_inside x
                  (ap (λ r. is_cpu_page r st.cpu.page) e' ∙ sym (step.same_cpu q ne) ∙ h))
            (head_of st' x) refl;
      once = λ x.
          at_page (λ q y xs. head_of st' x ≡ q → count x cf' + count x xs ≤ 1)
            (λ e. step.once_now x (sym (same_head x) ∙ e))
            (λ q ne e.
              let e' : head_of st x ≡ q = sym (same_head x) ∙ e in
              let before = subst (λ r. count x cf + count x (pf r) ≤ 1) e' (v.once x) in
              let same_on_cpu = (step.inside_now x (λ r. ne (sym e' ∙ r))).1 in
              omega (arith, before, same_on_cpu))
            (head_of st' x) refl;
      cpu_page =
          at_page
            (λ q y xs.
              is_cpu_page q st'.cpu.page ≡ true → (of_cache y ≡ true) × (y.counters.frozen ≡ true))
            step.cpu_page_now (λ q ne h. v.cpu_page q (sym (step.same_cpu q ne) ∙ h));
      frozen =
          at_page
            (λ q y xs.
              of_cache y ≡ true → y.counters.frozen ≡ true → is_cpu_page q st'.cpu.page ≡ true)
            step.frozen_now (λ q ne own h. step.same_cpu q ne ∙ v.frozen q own h);
      listed =
          at_page
            (λ q y xs.
              count q st'.node.partial ≡ times_partial (of_cache y) y.counters.frozen (is_empty xs))
            step.listed_now (λ q ne. step.same_listed q ne ∙ v.listed q);
      nr = step.nr_now;
      in_use =
          at_page
            (λ q y xs.
              of_cache y ≡ true
              → (y.counters.inuse + length xs ≡ y.counters.objects) × (y.counters.objects < 2 ^ 15))
            step.in_use_now (λ q ne own. v.in_use q own);
      owned = λ q own.
          ap (λ a. P.used a q) step.buddy
          ∙ at_page (λ q y xs. of_cache y ≡ true → P.used st.buddy q ≡ true) step.owned_now
              (λ q ne own. v.owned q own) q own;
    }

    -- The objects that are free now, by those that were.
    pub free_count-step :
        (x a b : ℕ)
        → (head_of st x ≡ p → count x cf' + count x l + a ≡ count x cf + count x (pf p) + b)
        → (head_of st x ≢ p → a ≡ b)
        → free_count st' cf' (update pf p l) x + a ≡ free_count st cf pf x + b
    free_count-step x a b here there =
        at_page
          (λ q y xs. head_of st' x ≡ q → count x cf' + count x xs + a ≡ free_count st cf pf x + b)
          (λ e.
            let e' : head_of st x ≡ p = sym (same_head x) ∙ e in
            here e' ∙ ap (λ r. count x cf + count x (pf r) + b) (sym e'))
          (λ q ne e.
            let e' : head_of st x ≡ q = sym (same_head x) ∙ e in
            let ne' : head_of st x ≢ p = λ r. ne (sym e' ∙ r) in
            let same_list : count x (pf (head_of st x)) ≡ count x (pf q) =
              ap (λ r. count x (pf r)) e' in
            omega (arith, same_list, (step.inside_now x ne').1, there ne'))
          (head_of st' x) refl

  -- Counters of the kernel and the state of the interrupts do not matter.
  pub IsValid-counters :
      (st : State P) (cf : List ℕ) (pf : ℕ → List ℕ) (vm : Array ℕ) (irqs : Bool) (n : ℕ)
      (r : Option ℕ)
      → IsValid st cf pf
      → IsValid
          (record st { vm_stat = vm; irqs_on = irqs; preempt_count = n; reclaimed_slab = r })
          cf
          pf
  IsValid-counters st cf pf vm irqs n r v = record {
    cpu_chain = v.cpu_chain;
    page_chain = v.page_chain;
    others = v.others;
    inside = v.inside;
    cpu_inside = v.cpu_inside;
    once = v.once;
    cpu_page = v.cpu_page;
    frozen = v.frozen;
    listed = v.listed;
    nr = v.nr;
    in_use = v.in_use;
    owned = v.owned;
  }
