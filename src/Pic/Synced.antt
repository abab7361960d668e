-- ===== src/Pic/Synced.antt =====
-- The mask registers hold what the copy says, and the copy what was asked for.
use xc.Common.{
  ℕ, ◌/◌, ◌%◌, ◌≤◌, ◌<◌, ◌≡◌, refl, sym, ap, ◌∙◌, inl, inr, arith, Bool, true, not, ◌&&◌, ◌||◌,
  List, [], ◌∷◌, ltb, leb, ◌==◌, ==_iff, if◌then◌else◌, Bool-cases, either_branch, branch_on,
}
use xc.Pic.{
  Pic, Registers, test_bit, set_bit, outb, cached_master_mask, cached_slave_mask, is_slave,
  write_mask, mask_8259a_irq, unmask_8259a_irq, irq_real, handle_real_irq, count_spurious,
  mask_and_ack, mask_8259a, unmask_8259a, init_words, init_8259a,
}
use xc.Pic.Masks.{
  test_bit-set_bit, test_bit-clear_bit, set_bit-slave, set_bit-master, clear_bit-slave,
  clear_bit-master,
}

-- Both mask registers hold their byte of the copy.
pub record IsSynced (pic : Pic) : Type 0 where
  pub master : pic.master_imr ≡ cached_master_mask pic
  pub slave : pic.slave_imr ≡ cached_slave_mask pic

-- The mask registers, after a change of the copy that leaves the byte of the other chip.
write_mask-IsSynced :
    (pic : Pic) (mask irq : ℕ)
    → irq < 16
    → IsSynced pic
    → (irq < 8 → mask / 256 % 256 ≡ pic.cached_irq_mask / 256 % 256)
    → (8 ≤ irq → mask % 256 ≡ pic.cached_irq_mask % 256)
    → IsSynced (write_mask (record pic { cached_irq_mask = mask }) irq)
unfolding write_mask outb cached_master_mask cached_slave_mask is_slave
write_mask-IsSynced pic mask irq h v slave master =
    branch_on IsSynced (leb 8 (irq % 16)) _ _
      (λ e. record { master = v.master ∙ sym (master (ground (arith, e))); slave = refl })
      (λ e. record { master = refl; slave = v.slave ∙ sym (slave (ground (arith, e))) })

handle_real_irq-IsSynced :
    (pic : Pic) (mask irq : ℕ)
    → irq < 16
    → IsSynced pic
    → (irq < 8 → mask / 256 % 256 ≡ pic.cached_irq_mask / 256 % 256)
    → (8 ≤ irq → mask % 256 ≡ pic.cached_irq_mask % 256)
    → IsSynced (handle_real_irq (record pic { cached_irq_mask = mask }) irq)
unfolding handle_real_irq outb cached_master_mask cached_slave_mask is_slave
handle_real_irq-IsSynced pic mask irq h v slave master =
    branch_on IsSynced (leb 8 (irq % 16)) _ _
      (λ e. record { master = v.master ∙ sym (master (ground (arith, e))); slave = refl })
      (λ e. record { master = refl; slave = v.slave ∙ sym (slave (ground (arith, e))) })

-- A call on the controller; the registers are those read while the call runs.
pub data Step : Type 0 where
  mask unmask : ℕ → Step
  ack : Registers → ℕ → Step
  init : Bool → Step
  restart : Step

unfoldable pub step : Pic → Step → Pic
step pic (mask irq) = mask_8259a_irq pic irq
step pic (unmask irq) = unmask_8259a_irq pic irq
step pic (ack registers irq) = mask_and_ack registers pic irq
step pic (init auto_eoi) = init_8259a pic auto_eoi
step pic restart = unmask_8259a (mask_8259a pic)

unfoldable pub run : Pic → List Step → Pic
run pic [] = pic
run pic (s ∷ steps) = run (step pic s) steps

abbrev pub line_of : Step → ℕ
line_of (mask irq) = irq
line_of (unmask irq) = irq
line_of (ack registers irq) = irq
line_of (init auto_eoi) = 0
line_of restart = 0

abbrev pub OnLines : List Step → Type 0
OnLines [] = Unit
OnLines (s ∷ steps) = (line_of s < 16) × OnLines steps

-- Whether a line is masked after a call, and after some.
abbrev pub masked_after : Step → ℕ → Bool → Bool
masked_after (mask irq) j before = j == irq || before
masked_after (unmask irq) j before = not (j == irq) && before
masked_after (ack registers irq) j before = j == irq || before
masked_after (init auto_eoi) j before = before
masked_after restart j before = before

abbrev pub last_masked : List Step → ℕ → Bool → Bool
last_masked [] j before = before
last_masked (s ∷ steps) j before = last_masked steps j (masked_after s j before)

-- What a call leaves.
abbrev IsStepped : Pic → Step → Pic → Type 0
IsStepped pic s pic' =
    IsSynced pic'
    × ((j : ℕ)
        → test_bit pic'.cached_irq_mask j ≡ masked_after s j (test_bit pic.cached_irq_mask j))

write_mask-cached :
    (pic : Pic) (irq : ℕ) → (write_mask pic irq).cached_irq_mask ≡ pic.cached_irq_mask
unfolding write_mask outb
write_mask-cached pic irq = ground arith

handle_real_irq-cached :
    (pic : Pic) (irq : ℕ) → (handle_real_irq pic irq).cached_irq_mask ≡ pic.cached_irq_mask
unfolding handle_real_irq outb
handle_real_irq-cached pic irq = ground arith

irq_real-IsSynced :
    (registers : Registers) (pic : Pic) (irq : ℕ)
    → IsSynced pic
    → IsSynced (irq_real registers pic irq).1
      × ((irq_real registers pic irq).1.cached_irq_mask ≡ pic.cached_irq_mask)
unfolding irq_real outb cached_master_mask cached_slave_mask
irq_real-IsSynced registers pic irq v =
    let same = λ (r : Bool × Pic). IsSynced r.1 × (r.1.cached_irq_mask ≡ pic.cached_irq_mask) in
    either_branch same (ltb irq 8) _ _ (record { master = v.master; slave = v.slave }, refl)
      (record { master = v.master; slave = v.slave }, refl)

module _ (pic : Pic) (irq : ℕ) (h : irq < 16) (v : IsSynced pic) where
  -- The end of an interrupt whose line is masked already.
  masked-IsStepped :
      (registers : Registers) (r : Pic)
      → test_bit pic.cached_irq_mask irq ≡ true
      → IsSynced r
      → r.cached_irq_mask ≡ pic.cached_irq_mask
      → IsStepped pic (ack registers irq) (handle_real_irq r irq)
  masked-IsStepped registers r e w same = (
    handle_real_irq-IsSynced r r.cached_irq_mask irq h w (λ p. refl) (λ p. refl),
    λ j. ap (λ m. test_bit m j) (handle_real_irq-cached r irq ∙ same) ∙ already j,
  )
    where
      already :
          (j : ℕ) → test_bit pic.cached_irq_mask j ≡ (j == irq || test_bit pic.cached_irq_mask j)
      already j = elim (Bool-cases (j == irq)) [
        | inl q ↦ let q' : j ≡ irq = (==_iff _ _).0 q in rw q' (ground (arith, e))
        | inr q ↦ ground (arith, q)
      ]

  spurious-IsStepped :
      (registers : Registers)
      → test_bit pic.cached_irq_mask irq ≡ true
      → let real = irq_real registers pic irq in
        IsStepped pic
          (ack registers irq)
          (handle_real_irq (if real.0 then real.1 else count_spurious real.1 irq) irq)
  unfolding count_spurious cached_master_mask cached_slave_mask
  spurious-IsStepped registers e =
      let real = irq_real registers pic irq in
      let (w, same) = irq_real-IsSynced registers pic irq v in
      let is = λ (r : Pic). IsStepped pic (ack registers irq) (handle_real_irq r irq) in
      either_branch is real.0 _ _ (masked-IsStepped registers real.1 e w same) (
        masked-IsStepped registers (count_spurious real.1 irq) e
          (record { master = w.master; slave = w.slave }) same)

  pub ack-IsStepped :
      (registers : Registers) → IsStepped pic (ack registers irq) (mask_and_ack registers pic irq)
  unfolding mask_and_ack
  ack-IsStepped registers =
      let mask = set_bit pic.cached_irq_mask irq in
      branch_on (IsStepped pic (ack registers irq)) (test_bit pic.cached_irq_mask irq) _ _
        (spurious-IsStepped registers)
        (λ e. (
          handle_real_irq-IsSynced pic mask irq h v (set_bit-slave pic.cached_irq_mask irq)
              (set_bit-master pic.cached_irq_mask irq),
          λ j.
              ap (λ m. test_bit m j)
                (handle_real_irq-cached (record pic { cached_irq_mask = mask }) irq)
              ∙ test_bit-set_bit irq pic.cached_irq_mask j,
        ))

init-IsSynced :
    (pic : Pic) (auto_eoi : Bool)
    → IsSynced (init_8259a pic auto_eoi) × IsSynced (unmask_8259a (mask_8259a pic))
unfolding init_8259a init_words mask_8259a unmask_8259a outb cached_master_mask cached_slave_mask
init-IsSynced pic auto_eoi =
    (record { master = refl; slave = refl }, record { master = refl; slave = refl })

step-IsStepped :
    (pic : Pic) (s : Step) → line_of s < 16 → IsSynced pic → IsStepped pic s (step pic s)
unfolding step mask_8259a_irq unmask_8259a_irq init_8259a init_words mask_8259a unmask_8259a outb
step-IsStepped pic (mask irq) h v = (
  write_mask-IsSynced pic _ irq h v (set_bit-slave pic.cached_irq_mask irq)
      (set_bit-master pic.cached_irq_mask irq),
  λ j.
      ap (λ m. test_bit m j) (write_mask-cached _ irq) ∙ test_bit-set_bit irq pic.cached_irq_mask j,
)
step-IsStepped pic (unmask irq) h v = (
  write_mask-IsSynced pic _ irq h v (clear_bit-slave pic.cached_irq_mask irq)
      (clear_bit-master pic.cached_irq_mask irq),
  λ j.
      ap (λ m. test_bit m j) (write_mask-cached _ irq)
      ∙ test_bit-clear_bit irq pic.cached_irq_mask j,
)
step-IsStepped pic (ack registers irq) h v = ack-IsStepped pic irq h v registers
step-IsStepped pic (init auto_eoi) h v = ((init-IsSynced pic auto_eoi).0, λ j. refl)
step-IsStepped pic restart h v = ((init-IsSynced pic true).1, λ j. refl)

-- Over any calls that mask, unmask or acknowledge lines 0 to 15, initialise the controller, or mask all
-- lines and restore the mask, whatever the controller's registers are when they are read: the mask
-- registers of both chips hold their bytes of the copy, where they did before; and a line is masked in the
-- copy as the last call on it left it.
pub run-IsSynced :
    (steps : List Step) (pic : Pic)
    → OnLines steps
    → IsSynced pic
    → IsSynced (run pic steps)
      × ((j : ℕ)
          → test_bit (run pic steps).cached_irq_mask j
            ≡ last_masked steps j (test_bit pic.cached_irq_mask j))
unfolding run
run-IsSynced [] pic h v = (v, λ j. refl)
run-IsSynced (s ∷ steps) pic (h, hs) v =
    let (w, masked) = step-IsStepped pic s h v in
    let (w', masked') = run-IsSynced steps (step pic s) hs w in
    (w', λ j. masked' j ∙ ap (last_masked steps j) (masked j))
