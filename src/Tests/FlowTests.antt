-- ===== src/Tests/FlowTests.antt =====
-- kernel/irq/chip.c, handle.c and manage.c: two actions on a line.
use xc.Common.{ℕ, ◌≡◌, refl, arith, List, [], ◌∷◌, some, true, false}
use xc.Irq.Nesting.{Step, disable}
use xc.Irq.Flow.{IrqReturn, device_fn, IrqAction, level_flow, Line, handle_level_irq}
use xc.Irq.Flow.Handled.{IsHandled, handles, handle_level_irq-IsHandled}
use xc.Irq.Setup.{ebusy, setup_irq}
use xc.Irq.Setup.Shared.{IsSetUp, setup_irq-IsSetUp}
use xc.Tests.IrqTests.{started}

abbrev action_of : ℕ → IrqAction
action_of n = record {
  suspend = record { no_suspend = false; force_resume = false };
  number = n;
  handler = device_fn n;
  thread_fn = false;
  shared = true;
  oneshot = false;
  percpu = false;
  nobalancing = false;
  trigger = 0;
  thread_bit = 0;
  warned = false;
  died = false;
  run_thread = false;
}

abbrev level_line : Line
level_line = record {
  desc = started;
  actions = action_of 7 ∷ [];
  flow = level_flow;
  in_progress = false;
  waiting = false;
  oneshot_state = false;
  autodetect = false;
  spurious_disabled = false;
  per_cpu = false;
  no_balancing = false;
  level_data = true;
  trigger_type = 4;
  trigger_mask = 4;
  norequest = false;
  nothread = false;
  noautoen = false;
  nested_thread = false;
  threads_oneshot = [];
}

-- The device disables its line.
abbrev quiet : ℕ → IrqReturn × List Step
quiet n = (record { handled = true; wake_thread = false }, disable false ∷ [])

-- An action that does not share is refused.
busy_run : (setup_irq level_line (record (action_of 8) { shared = false })).0 ≡ some ebusy
unfolding setup_irq xc.Irq.Setup.setup_locked xc.Irq.Setup.is_mismatch xc.Irq.Setup.mismatch
busy_run = refl

setup_irq-IsSetUp_example : IsSetUp level_line (action_of 8) (setup_irq level_line (action_of 8))
setup_irq-IsSetUp_example =
    setup_irq-IsSetUp level_line (action_of 8) ((λ e. omega (arith, e)), (tt, tt))

handle_level_irq-IsHandled_example :
    IsHandled quiet level_line (handles quiet level_line) (handle_level_irq quiet level_line)
handle_level_irq-IsHandled_example = handle_level_irq-IsHandled quiet level_line
