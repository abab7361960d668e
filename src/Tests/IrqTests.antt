-- ===== src/Tests/IrqTests.antt =====
-- kernel/irq/chip.c and kernel/irq/manage.c on a line of a chip that can only mask and unmask.
use xc.Common.{ℕ, ◌<◌, ◌≡◌, refl, arith, [], ◌∷◌, some, none, true, false}
use xc.Irq.{
  Desc, Chip, Action, irq_state_clr_masked, irq_state_set_masked, irq_state_clr_disabled,
  irq_state_set_disabled, unmask_irq, irq_enable, irq_disable, irq_startup, check_irq_resend,
  u32_mod, disable_irq_depth, disable_irq, enable_irq_depth, enable_irq,
}
use xc.Irq.Nesting.{IsNested, disable, enable, startup, step, run, run-IsNested, length}
use xc.Irq.Balance.{flat, nest, IsRestored, run-IsRestored}

abbrev pub simple_chip : Chip
simple_chip = record {
  is_none = false;
  irq_ack = false;
  irq_mask_ack = false;
  irq_set_type = none;
  set_type_masked = false;
  irq_startup = false;
  irq_enable = false;
  irq_disable = false;
  irq_mask = true;
  irq_unmask = true;
  irq_retrigger = false;
}

abbrev pub started : Desc
started = record {
  chip = simple_chip;
  action = some (record { no_suspend = false; force_resume = false });
  disabled = false;
  masked = false;
  level = true;
  noprobe = false;
  pending = false;
  replay = false;
  suspended = false;
  depth = 0;
  calls = [];
}

-- A line that was masked is still marked as masked when it is unmasked.
unmask_run : (unmask_irq (record started { masked = true })).masked ≡ true
unfolding unmask_irq irq_state_clr_masked
unmask_run = refl

depth_run : (run started (disable false ∷ disable true ∷ enable false ∷ [])).depth ≡ 1
unfolding run step disable_irq enable_irq xc.Irq.suspend_irq disable_irq_depth enable_irq_depth
    irq_disable irq_state_set_disabled
depth_run = refl

started-IsNested : (room : ℕ) → room < u32_mod → IsNested room started
started-IsNested room h = record { disabled_iff = refl; fits = omega (arith, h) }

run-IsNested_example : IsNested 0 (run started (disable true ∷ enable false ∷ startup ∷ []))
unfolding length
run-IsNested_example =
    run-IsNested (disable true ∷ enable false ∷ startup ∷ []) started
      (started-IsNested 3 (omega arith))

run-IsRestored_example :
    IsRestored started
      (run started (disable false ∷ disable false ∷ enable false ∷ enable false ∷ []))
run-IsRestored_example =
    run-IsRestored 2 (disable false ∷ disable false ∷ enable false ∷ enable false ∷ []) started
      (nest (nest flat flat) flat) (started-IsNested 2 (omega arith)) refl
