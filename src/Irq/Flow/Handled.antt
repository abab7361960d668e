-- ===== src/Irq/Flow/Handled.antt =====
-- Each handler of a line runs once when its interrupt is handled, in the order of the actions.
use xc.Common.{
  ℕ, ◌≡◌, refl, sym, ap, subst, ◌∙◌, arith, Option, none, some, Bool, true, false, not, ◌&&◌, ◌||◌,
  List, [], ◌∷◌, either_branch, branch_on, ◌==◌, if◌then◌else◌,
}
use xc.Irq.{
  Call, call_startup, call_enable, call_disable, call_mask, call_unmask, call_retrigger,
  call_mask_ack, call_ack, call_set_type, call_action, Action, Desc, call, irq_state_clr_masked,
  irq_state_set_masked, irq_state_clr_disabled, irq_state_set_disabled, unmask_irq, irq_enable,
  irq_disable, irq_startup, check_irq_resend, disable_irq_depth, suspend_irq, disable_irq,
  enable_irq_depth, resume_irq, enable_irq,
}
use xc.Irq.Nesting.{Step, disable, enable, startup, step, run}
use xc.Irq.Flow.{
  IrqReturn, IrqAction, Line, mask_ack_irq, respond, handle_return, irq_wake_thread,
  handle_irq_event_percpu, handle_irq_event, has_action, handle_level_irq,
}

-- The numbers of the actions whose handlers were called, the latest first.
abbrev pub handlers_run : List Call → List ℕ
handlers_run [] = []
handlers_run (call_action n ∷ calls) = n ∷ handlers_run calls
handlers_run (call_startup ∷ calls) = handlers_run calls
handlers_run (call_enable ∷ calls) = handlers_run calls
handlers_run (call_disable ∷ calls) = handlers_run calls
handlers_run (call_mask ∷ calls) = handlers_run calls
handlers_run (call_unmask ∷ calls) = handlers_run calls
handlers_run (call_retrigger ∷ calls) = handlers_run calls
handlers_run (call_mask_ack ∷ calls) = handlers_run calls
handlers_run (call_ack ∷ calls) = handlers_run calls
handlers_run (call_set_type n ∷ calls) = handlers_run calls

-- The two lines have had the same handlers called.
abbrev SameRun : Desc → Desc → Type 0
SameRun d d' = handlers_run d'.calls ≡ handlers_run d.calls

irq_enable-SameRun : (d : Desc) → SameRun d (irq_enable d)
unfolding irq_enable irq_state_clr_disabled irq_state_clr_masked
irq_enable-SameRun d =
    either_branch (λ c. handlers_run (c ∷ d.calls) ≡ handlers_run d.calls) d.chip.irq_enable
      call_enable call_unmask refl refl

irq_disable-SameRun : (d : Desc) → SameRun d (irq_disable d)
unfolding irq_disable irq_state_set_disabled irq_state_set_masked
irq_disable-SameRun d = either_branch (SameRun d) d.chip.irq_disable _ _ refl refl

irq_startup-SameRun : (d : Desc) → SameRun d (irq_startup d)
unfolding irq_startup irq_state_clr_disabled irq_state_clr_masked
irq_startup-SameRun d =
    either_branch (SameRun d) d.chip.irq_startup _ _ refl
      (irq_enable-SameRun (record d { disabled = false; depth = 0 }))

check_irq_resend-SameRun : (d : Desc) → SameRun d (check_irq_resend d)
unfolding check_irq_resend
check_irq_resend-SameRun d = either_branch (SameRun d) d.level _ _ refl (
    either_branch (SameRun d) d.replay _ _ refl (
      either_branch (SameRun d) d.pending _ _
        (either_branch (SameRun d) d.chip.irq_retrigger _ _ refl refl) refl))

disable_irq_depth-SameRun : (d : Desc) → SameRun d (disable_irq_depth d)
unfolding disable_irq_depth
disable_irq_depth-SameRun d =
    either_branch (SameRun d) (d.depth == 0) _ _ (irq_disable-SameRun _) refl

enable_irq_depth-SameRun : (d : Desc) → SameRun d (enable_irq_depth d)
unfolding enable_irq_depth
enable_irq_depth-SameRun d = either_branch (SameRun d) (d.depth == 0) _ _ refl (
    either_branch (SameRun d) (d.depth == 1) _ _
      (either_branch (SameRun d) d.suspended _ _ refl (
        check_irq_resend-SameRun (irq_enable (record d { noprobe = true }))
        ∙ irq_enable-SameRun (record d { noprobe = true })))
      refl)

suspend_irq-SameRun : (action : Option Action) (d : Desc) → SameRun d (suspend_irq action d)
unfolding suspend_irq
suspend_irq-SameRun none d = refl
suspend_irq-SameRun (some action) d =
    either_branch (SameRun d) action.no_suspend _ _ refl
      (disable_irq_depth-SameRun (record d { suspended = true }))

resume_irq-SameRun : (action : Option Action) (d : Desc) → SameRun d (resume_irq action d)
unfolding resume_irq
resume_irq-SameRun none d =
    either_branch (SameRun d) d.suspended _ _
      (enable_irq_depth-SameRun (record d { suspended = false })) refl
resume_irq-SameRun (some action) d =
    either_branch (SameRun d) d.suspended _ _
      (enable_irq_depth-SameRun (record d { suspended = false }))
      (either_branch (SameRun d) action.force_resume _ _ (enable_irq_depth-SameRun _) refl)

step-SameRun : (d : Desc) (s : Step) → SameRun d (step d s)
unfolding step disable_irq enable_irq
step-SameRun d (disable true) = suspend_irq-SameRun d.action d
step-SameRun d (disable false) = disable_irq_depth-SameRun d
step-SameRun d (enable true) = resume_irq-SameRun d.action d
step-SameRun d (enable false) = enable_irq_depth-SameRun d
step-SameRun d startup = irq_startup-SameRun d

run-SameRun : (d : Desc) (steps : List Step) → SameRun d (run d steps)
unfolding run
run-SameRun d [] = refl
run-SameRun d (s ∷ steps) = run-SameRun (step d s) steps ∙ step-SameRun d s

mask_ack_irq-SameRun : (d : Desc) → SameRun d (mask_ack_irq d)
unfolding mask_ack_irq irq_state_set_masked
mask_ack_irq-SameRun d =
    either_branch (λ d'. SameRun d (irq_state_set_masked d')) d.chip.irq_mask_ack _ _ refl
      (either_branch (λ d'. SameRun d (irq_state_set_masked d')) d.chip.irq_ack _ _ refl refl)

unmask_irq-SameRun : (d : Desc) → SameRun d (unmask_irq d)
unfolding unmask_irq irq_state_clr_masked
unmask_irq-SameRun d = either_branch (SameRun d) d.chip.irq_unmask _ _ refl refl

-- The numbers of actions, put before others in turn.
abbrev pub numbers_after : List IrqAction → List ℕ → List ℕ
numbers_after [] before = before
numbers_after (action ∷ actions) before = numbers_after actions (action.number ∷ before)

abbrev pub numbers : List IrqAction → List ℕ
numbers [] = []
numbers (action ∷ actions) = action.number ∷ numbers actions

handle_return-number :
    (res : IrqReturn) (threads : List ℕ) (action : IrqAction)
    → (handle_return res threads action).0.number ≡ action.number
unfolding handle_return irq_wake_thread
handle_return-number res threads action =
    let same = λ (r : IrqAction × List ℕ). r.0.number ≡ action.number in
    either_branch same (res.wake_thread && not res.handled) _ _
      (either_branch same action.thread_fn _ _
        (either_branch same (action.died || action.run_thread) _ _ refl refl) refl)
      refl

module _ (device : ℕ → IrqReturn × List Step) where
  handle_irq_event_percpu-runs :
      (d : Desc) (threads : List ℕ) (actions : List IrqAction)
      → (handlers_run (handle_irq_event_percpu device d threads actions).handled_desc.calls
          ≡ numbers_after actions (handlers_run d.calls))
        × (numbers (handle_irq_event_percpu device d threads actions).handled_actions
            ≡ numbers actions)
  unfolding handle_irq_event_percpu
  handle_irq_event_percpu-runs d threads [] = (refl, refl)
  handle_irq_event_percpu-runs d threads (action ∷ actions) =
      let answer = respond device action.handler in
      let called = call d (call_action action.number) in
      let woken = handle_return answer.0 threads action in
      let (runs, kept) = handle_irq_event_percpu-runs (run called answer.1) woken.1 actions in
      (
        runs ∙ ap (numbers_after actions) (run-SameRun called answer.1),
        ap
              (λ n.
                n
                ∷ numbers
                    (handle_irq_event_percpu device (run called answer.1) woken.1
                      actions).handled_actions)
              (handle_return-number answer.0 threads action)
            ∙ ap (λ l. action.number ∷ l) kept,
      )

  -- Whether the handlers are called.
  abbrev pub handles : Line → Bool
  handles l = not l.in_progress && (has_action l.actions && not l.desc.disabled)

  mask_ack_irq-disabled : (d : Desc) → (mask_ack_irq d).disabled ≡ d.disabled
  unfolding mask_ack_irq irq_state_set_masked
  mask_ack_irq-disabled d = ground arith

  -- What is to hold of the line after its interrupt.
  abbrev pub IsHandled : Line → Bool → Line → Type 0
  IsHandled l ran l' =
      (handlers_run l'.desc.calls ≡ (
        if ran
        then numbers_after l.actions (handlers_run l.desc.calls)
        else handlers_run l.desc.calls))
      × (numbers l'.actions ≡ numbers l.actions)
      × (l'.in_progress ≡ l.in_progress)

  event-IsHandled :
      (l ready : Line)
      → handlers_run ready.desc.calls ≡ handlers_run l.desc.calls
      → ready.actions ≡ l.actions
      → l.in_progress ≡ false
      → IsHandled l true (handle_irq_event device ready)
  unfolding handle_irq_event
  event-IsHandled l ready same actions idle =
      let (runs, kept) =
        handle_irq_event_percpu-runs (record (ready.desc) { pending = false }) ready.threads_oneshot
          ready.actions in
      (
        runs
            ∙ ap (numbers_after ready.actions) same
            ∙ ap (λ a. numbers_after a (handlers_run l.desc.calls)) actions,
        kept ∙ ap numbers actions,
        sym idle,
      )

  opened-IsHandled :
      (l done : Line)
      → IsHandled l true done
      → IsHandled l true (record done { desc = unmask_irq done.desc })
  opened-IsHandled l done (runs, kept, idle) = (unmask_irq-SameRun done.desc ∙ runs, kept, idle)

  -- When the interrupt of a level-triggered line is handled, the handlers of its actions are called once
  -- each, in order, where the line has actions, is not disabled and is not being handled already; else none
  -- is called. The line keeps its actions, and whether it is being handled.
  pub handle_level_irq-IsHandled : (l : Line) → IsHandled l (handles l) (handle_level_irq device l)
  unfolding handle_level_irq
  handle_level_irq-IsHandled l =
      let masked = mask_ack_irq l.desc in
      let same = mask_ack_irq-SameRun l.desc in
      let off = mask_ack_irq-disabled l.desc in
      let ready = record l { desc = record masked { replay = false }; waiting = false } in
      let done = handle_irq_event device ready in
      let is = λ (r : Line). IsHandled l (handles l) r in
      branch_on is l.in_progress _ _
        (λ e.
          let idle : handles l ≡ false = ground (arith, e) in
          subst (λ b. IsHandled l b (record l { desc = masked })) (sym idle) (same, refl, refl))
        (λ e.
          branch_on is (not (has_action l.actions) || masked.disabled) _ _
            (λ none_run.
              let idle : handles l ≡ false = ground (arith, none_run, off) in
              subst (λ b. IsHandled l b ready) (sym idle) (same, refl, refl))
            (λ some_run.
              let busy : handles l ≡ true = ground (arith, some_run, off, e) in
              let event = event-IsHandled l ready same refl e in
              either_branch is (not done.desc.disabled && not done.oneshot_state) _ _
                (subst (λ b. IsHandled l b (record done { desc = unmask_irq done.desc })) (sym busy)
                  (opened-IsHandled l done event))
                (subst (λ b. IsHandled l b done) (sym busy) event)))
