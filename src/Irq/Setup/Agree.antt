-- ===== src/Irq/Setup/Agree.antt =====
-- Actions that may share a line agree pairwise, and have bits of their own; a new one is put behind them.
use xc.Common.{
  ℕ, zero, suc, ◌+◌, ◌<◌, ◌≡◌, ◌≢◌, sym, ◌∙◌, inl, inr, arith, true, false, ◌&&◌, List, [], ◌∷◌,
  Bool-cases,
}
use xc.Irq.Flow.{IrqAction}
use xc.Irq.Setup.{bit_taken, first_zero, all_taken, mismatch, is_mismatch, add_last}

-- Two actions that may share a line.
pub record Agree (a b : IrqAction) : Type 0 where
  pub shares : a.shared ≡ true
  pub shares' : b.shared ≡ true
  pub triggers : a.trigger ≡ b.trigger
  pub oneshots : a.oneshot ≡ b.oneshot
  pub percpus : a.percpu ≡ b.percpu
  pub bits : a.oneshot ≡ true → a.thread_bit ≢ b.thread_bit

-- Every action agrees with each one behind it, and a oneshot action has one of 32 bits.
abbrev pub AgreeAll : IrqAction → List IrqAction → Type 0
AgreeAll a [] = Unit
AgreeAll a (b ∷ l) = Agree a b × AgreeAll a l

abbrev pub IsShareable : List IrqAction → Type 0
IsShareable [] = Unit
IsShareable (a ∷ l) = (a.oneshot ≡ true → a.thread_bit < 32) × (AgreeAll a l × IsShareable l)

-- The bit that is found is below the end, or past all that are taken; no action before it has it.
first_zero-free :
    (n k : ℕ) (l : List IrqAction)
    → first_zero n k l < k + n
    → bit_taken (first_zero n k l) l ≡ false
unfolding first_zero
first_zero-free zero k l h = absurd (omega arith)
first_zero-free (suc n) k l h = elim (Bool-cases (bit_taken k l)) [
  | inl e ↦ rw e (
      first_zero-free n (suc k) l
        (let h' : first_zero n (suc k) l < k + suc n = rw e at h in omega (arith, h')))
  | inr e ↦ rw e e
]

-- A list that agrees with a new action.
bit_taken-ne :
    (k : ℕ) (a : IrqAction) (l : List IrqAction)
    → bit_taken k (a ∷ l) ≡ false
    → (a.thread_bit ≢ k) × (bit_taken k l ≡ false)
unfolding bit_taken
bit_taken-ne k a l e = ground (arith, e)

matches :
    (old action : IrqAction) (bit : ℕ)
    → mismatch old action ≡ false
    → (old.oneshot ≡ true → old.thread_bit ≢ bit)
    → Agree old (record action { thread_bit = bit })
unfolding mismatch
matches old action bit e ne = record {
  shares = ground (arith, e);
  shares' = ground (arith, e);
  triggers = ground (arith, e);
  oneshots = ground (arith, e);
  percpus = ground (arith, e);
  bits = ne;
}

through :
    (first a new : IrqAction)
    → Agree first a
    → Agree first new
    → (a.oneshot ≡ true → a.thread_bit ≢ new.thread_bit)
    → Agree a new
through first a new u v ne = record {
  shares = u.shares';
  shares' = v.shares';
  triggers = sym u.triggers ∙ v.triggers;
  oneshots = sym u.oneshots ∙ v.oneshots;
  percpus = sym u.percpus ∙ v.percpus;
  bits = ne;
}

AgreeAll-append :
    (a new : IrqAction) (l : List IrqAction)
    → AgreeAll a l
    → Agree a new
    → AgreeAll a (add_last l new)
AgreeAll-append a new [] v w = (w, tt)
AgreeAll-append a new (b ∷ l) (u, v) w = (u, AgreeAll-append a new l v w)

-- Each action of the list agrees with the new one.
abbrev AllAgree : List IrqAction → IrqAction → Type 0
AllAgree [] new = Unit
AllAgree (a ∷ l) new = Agree a new × AllAgree l new

pub IsShareable-append :
    (new : IrqAction) (l : List IrqAction)
    → IsShareable l
    → AllAgree l new
    → (new.oneshot ≡ true → new.thread_bit < 32)
    → IsShareable (add_last l new)
IsShareable-append new [] v w few = (few, (tt, tt))
IsShareable-append new (a ∷ l) (f, (u, v)) (w, ws) few =
    (f, (AgreeAll-append a new l u w, IsShareable-append new l v ws few))

-- Those that agree with the first one agree with a new one that does.
rest-agrees :
    (first new : IrqAction) (l : List IrqAction)
    → AgreeAll first l
    → Agree first new
    → (new.oneshot ≡ true → bit_taken new.thread_bit l ≡ false)
    → AllAgree l new
rest-agrees first new [] v w free = tt
rest-agrees first new (a ∷ l) (u, v) w free = (
  through first a new u w
      (λ e. (bit_taken-ne new.thread_bit a l (free (sym w.oneshots ∙ u.oneshots ∙ e))).0),
  rest-agrees first new l v w (λ e. (bit_taken-ne new.thread_bit a l (free e)).1),
)

-- The new action, with the bit that it is given.
abbrev pub placed : List IrqAction → IrqAction → IrqAction
placed l action = record action { thread_bit = first_zero 32 0 l }

pub placed-free :
    (l : List IrqAction) (action : IrqAction)
    → (action.oneshot && all_taken l) ≡ false
    → action.oneshot ≡ true
    → (first_zero 32 0 l < 32) × (bit_taken (first_zero 32 0 l) l ≡ false)
unfolding all_taken
placed-free l action e o =
    let few : first_zero 32 0 l < 32 = ground (arith, e, o) in (few, first_zero-free 32 0 l few)

pub placed-AllAgree :
    (l : List IrqAction) (action : IrqAction)
    → IsShareable l
    → is_mismatch l action ≡ false
    → (action.oneshot && all_taken l) ≡ false
    → AllAgree l (placed l action)
unfolding is_mismatch mismatch
placed-AllAgree [] action v e o = tt
placed-AllAgree (a ∷ l) action (f, (u, v)) e o =
    let bit = first_zero 32 0 (a ∷ l) in
    let free =
      λ (p : action.oneshot ≡ true). bit_taken-ne bit a l (placed-free (a ∷ l) action o p).1 in
    let same : a.oneshot ≡ action.oneshot = ground (arith, e) in
    let w = matches a action bit e (λ p. (free (sym same ∙ p)).0) in
    (w, rest-agrees a (placed (a ∷ l) action) l u w (λ p. (free p).1))
