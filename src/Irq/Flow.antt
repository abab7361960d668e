-- ===== src/Irq/Flow.antt =====
-- What happens when a level-triggered line raises its interrupt, in kernel/irq/chip.c and
-- kernel/irq/handle.c. The handlers are the drivers' code: `device` says what one returns, and which of
-- the calls of `Irq.Nesting` it makes on its own line meanwhile, when the lock is not held.
pub mod Handled
use xc.Common.{
  ℕ, Option, none, some, Bool, true, false, not, ◌&&◌, ◌||◌, List, [], ◌∷◌, if◌then◌else◌,
}
use xc.Irq.{
  Call, call_mask, call_mask_ack, call_ack, call_action, Chip, Action, Desc, call,
  irq_state_set_masked, irq_state_set_disabled, unmask_irq, irq_startup,
}
use xc.Irq.Nesting.{Step, run}

-- `irqreturn_t`, a set of IRQ_HANDLED and IRQ_WAKE_THREAD: IRQ_NONE is the empty one.
pub record IrqReturn : Type 0 where
  pub handled : Bool
  pub wake_thread : Bool

abbrev pub irq_none : IrqReturn
irq_none = record { handled = false; wake_thread = false }

unfoldable pub or_return : IrqReturn → IrqReturn → IrqReturn
or_return a b = record {
  handled = a.handled || b.handled;
  wake_thread = a.wake_thread || b.wake_thread;
}

-- A device's handler, or `irq_nested_primary_handler`.
pub data HandlerFn : Type 0 where
  device_fn : ℕ → HandlerFn
  nested_primary : HandlerFn

-- `trigger` is the part of the flags under IRQF_TRIGGER_MASK, and `thread_bit` the number of the only bit
-- of `thread_mask`. `warned`, `died` and `run_thread` are the thread_flags.
pub record IrqAction : Type 0 where
  pub suspend : Action
  pub number : ℕ
  pub handler : HandlerFn
  pub thread_fn : Bool
  pub shared : Bool
  pub oneshot : Bool
  pub percpu : Bool
  pub nobalancing : Bool
  pub trigger : ℕ
  pub thread_bit : ℕ
  pub warned : Bool
  pub died : Bool
  pub run_thread : Bool

-- The flow handler of a line.
pub data Flow : Type 0 where
  bad_flow : Flow
  level_flow : Flow
  other_flow : ℕ → Flow

-- A line with the rest of its descriptor: `desc.action` is what disabling and enabling read of the first
-- of the `actions`. `trigger_type` is under IRQD_TRIGGER_MASK, `trigger_mask` under IRQ_TYPE_SENSE_MASK
-- of the settings, and `level_data` is IRQD_LEVEL; `threads_oneshot` is a list of bits.
pub record Line : Type 0 where
  pub desc : Desc
  pub actions : List IrqAction
  pub flow : Flow
  pub in_progress : Bool
  pub waiting : Bool
  pub oneshot_state : Bool
  pub autodetect : Bool
  pub spurious_disabled : Bool
  pub per_cpu : Bool
  pub no_balancing : Bool
  pub level_data : Bool
  pub trigger_type : ℕ
  pub trigger_mask : ℕ
  pub norequest : Bool
  pub nothread : Bool
  pub noautoen : Bool
  pub nested_thread : Bool
  pub threads_oneshot : List ℕ

unfoldable pub mask_ack_irq : Desc → Desc
mask_ack_irq d =
    let masked = call d call_mask in
    irq_state_set_masked (
      if d.chip.irq_mask_ack
      then call d call_mask_ack
      else if d.chip.irq_ack
      then call masked call_ack
      else masked)

unfoldable pub irq_wake_thread : List ℕ → IrqAction → IrqAction × List ℕ
irq_wake_thread threads action =
    if action.died || action.run_thread
    then (action, threads)
    else (record action { run_thread = true }, action.thread_bit ∷ threads)

-- switch (res)
unfoldable pub handle_return : IrqReturn → List ℕ → IrqAction → IrqAction × List ℕ
handle_return res threads action =
    if res.wake_thread && not res.handled
    then (if action.thread_fn
        then irq_wake_thread threads action
        else (record action { warned = true }, threads))
    else (action, threads)

-- One call of a handler.
unfoldable pub respond : (ℕ → IrqReturn × List Step) → HandlerFn → IrqReturn × List Step
respond device (device_fn n) = device n
respond device nested_primary = (irq_none, [])

-- What the loop over the actions leaves.
pub record Handling : Type 0 where
  pub retval : IrqReturn
  pub handled_desc : Desc
  pub handled_actions : List IrqAction
  pub threads : List ℕ

unfoldable pub handle_irq_event_percpu :
    (ℕ → IrqReturn × List Step) → Desc → List ℕ → List IrqAction → Handling
handle_irq_event_percpu device d threads [] = record {
  retval = irq_none;
  handled_desc = d;
  handled_actions = [];
  threads = threads;
}
handle_irq_event_percpu device d threads (action ∷ actions) =
    let answer = respond device action.handler in
    let d' = run (call d (call_action action.number)) answer.1 in
    let woken = handle_return answer.0 threads action in
    let rest = handle_irq_event_percpu device d' woken.1 actions in
    record rest {
      retval = or_return answer.0 rest.retval;
      handled_actions = woken.0 ∷ rest.handled_actions;
    }

unfoldable pub handle_irq_event : (ℕ → IrqReturn × List Step) → Line → Line
handle_irq_event device l =
    let done =
      handle_irq_event_percpu device (record (l.desc) { pending = false }) l.threads_oneshot
        l.actions in
    record l {
      desc = done.handled_desc;
      actions = done.handled_actions;
      threads_oneshot = done.threads;
      in_progress = false;
    }

unfoldable pub has_action : List IrqAction → Bool
has_action [] = false
has_action (action ∷ actions) = true

-- `irq_check_poll` is false, since `irq_wait_for_poll` is.
unfoldable pub handle_level_irq : (ℕ → IrqReturn × List Step) → Line → Line
handle_level_irq device l =
    let masked = record l { desc = mask_ack_irq l.desc } in
    let ready = record masked { desc = record (masked.desc) { replay = false }; waiting = false } in
    let done = handle_irq_event device ready in
    let opened = record done { desc = unmask_irq done.desc } in
    if l.in_progress
    then masked
    else if not (has_action l.actions) || ready.desc.disabled
    then ready
    else if not done.desc.disabled && not done.oneshot_state
    then opened
    else done

-- A null chip stands for `no_irq_chip`; the number of the line is one that has a descriptor.
unfoldable pub irq_set_chip : Chip → Line → Option Chip → Line
irq_set_chip no_irq_chip l none = record l { desc = record (l.desc) { chip = no_irq_chip } }
irq_set_chip no_irq_chip l (some chip) = record l { desc = record (l.desc) { chip = chip } }

unfoldable pub set_flow : Line → Flow → Bool → Line
set_flow l bad_flow is_chained =
    let acked = if l.desc.chip.is_none then l.desc else mask_ack_irq l.desc in
    record l { desc = record (irq_state_set_disabled acked) { depth = 1 }; flow = bad_flow }
set_flow l flow is_chained =
    let chained = record l {
      desc = irq_startup (record (l.desc) { noprobe = true });
      flow = flow;
      norequest = true;
      nothread = true;
    } in
    if is_chained then chained else record l { flow = flow }

-- `__irq_set_handler`, where a null handler stands for `handle_bad_irq`.
unfoldable pub irq_set_handler : Line → Option Flow → Bool → Line
irq_set_handler l none is_chained = set_flow l bad_flow is_chained
irq_set_handler l (some flow) is_chained =
    if l.desc.chip.is_none then l else set_flow l flow is_chained

unfoldable pub irq_set_chip_and_handler : Chip → Line → Option Chip → Option Flow → Line
irq_set_chip_and_handler no_irq_chip l chip flow =
    irq_set_handler (irq_set_chip no_irq_chip l chip) flow false
