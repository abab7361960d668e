-- ===== src/Slub/Apart.antt =====
-- A step of the allocator of pages keeps a cache in order, when it leaves its slabs alone.
use xc.Common.{
  ℕ, ◌+◌, ◌≡◌, ◌≢◌, sym, ap, ◌∙◌, inl, inr, arith, true, false, List, ◌==◌, ==_iff, Bool-cases,
}
use xc.Slub.{KmemCache}
use xc.Slub.Pages.{PageAllocator}
use xc.Slub.Release.{State, is_cpu_page}
use xc.Slub.Chain.{count}
use xc.Slub.Valid.{IsValid, head_of, in_cache, free_count}

module _ (P : PageAllocator) (s : KmemCache) where
  -- A step of the allocator of pages that leaves the slabs of the cache alone.
  pub record IsApart (st : State P) (a : P.State) : Type 0 where
    pub still_used : (p : ℕ) → in_cache P s st p ≡ true → P.used a p ≡ true
    pub still_head :
        (x : ℕ)
        → in_cache P s st (head_of P s st x) ≡ true
        → P.virt_to_head_page a x ≡ head_of P s st x

  module _ (st : State P) (cf : List ℕ) (pf : ℕ → List ℕ) (v : IsValid P s st cf pf) (a : P.State)
      (apart : IsApart st a) where
    on_slab : (p x : ℕ) → (in_cache P s st p ≡ true → count x (pf p) ≡ 0) → count x (pf p) ≡ 0
    unfolding count
    on_slab p x h = elim (Bool-cases (in_cache P s st p)) [
      | inl own ↦ h own
      | inr other ↦ ap (count x) (v.others p other)
    ]

    inside_apart : (p x : ℕ) → P.virt_to_head_page a x ≢ p → count x (pf p) ≡ 0
    inside_apart p x ne = on_slab p x (λ own. elim (Bool-cases (head_of P s st x == p)) [
      | inl e ↦
          let e' : head_of P s st x ≡ p = (==_iff _ _).0 e in
          absurd (ne (apart.still_head x (ap (in_cache P s st) e' ∙ own) ∙ e'))
      | inr e ↦ v.inside p x (λ h. absurd (ground arith))
    ])

    cpu_inside_apart :
        (x : ℕ) → is_cpu_page (P.virt_to_head_page a x) st.cpu.page ≡ false → count x cf ≡ 0
    cpu_inside_apart x h = elim (Bool-cases (is_cpu_page (head_of P s st x) st.cpu.page)) [
      | inl e ↦
          let same_head = apart.still_head x (v.cpu_page _ e).0 in
          let clash : false ≡ true = sym h ∙ ap (λ r. is_cpu_page r st.cpu.page) same_head ∙ e in
          absurd (ground (arith, clash))
      | inr e ↦ v.cpu_inside x e
    ]

    pub free_count_apart :
        (x : ℕ) → free_count P s (record st { buddy = a }) cf pf x ≡ free_count P s st cf pf x
    free_count_apart x = elim (Bool-cases (P.virt_to_head_page a x == head_of P s st x)) [
      | inl e ↦
          let e' : P.virt_to_head_page a x ≡ head_of P s st x = (==_iff _ _).0 e in
          ap (λ r. count x cf + count x (pf r)) e'
      | inr e ↦
          let ne : P.virt_to_head_page a x ≢ head_of P s st x = λ h. absurd (ground arith) in
          let before = inside_apart (head_of P s st x) x ne in
          let now = v.inside (P.virt_to_head_page a x) x (λ h. ne (sym h)) in
          omega (arith, before, now)
    ]

    pub IsApart-IsValid : IsValid P s (record st { buddy = a }) cf pf
    IsApart-IsValid = record {
      cpu_chain = v.cpu_chain;
      page_chain = v.page_chain;
      others = v.others;
      inside = inside_apart;
      cpu_inside = cpu_inside_apart;
      once = λ x. omega (arith, free_count_apart x, v.once x);
      cpu_page = v.cpu_page;
      frozen = v.frozen;
      listed = v.listed;
      nr = v.nr;
      in_use = v.in_use;
      owned = apart.still_used;
    }
