-- ===== src/Irq.antt =====
-- Disabling and enabling an interrupt line, in kernel/irq/chip.c and kernel/irq/manage.c. The state is
-- one `struct irq_desc`, under its lock: the flag words are one Bool for each flag that is used here. A
-- chip is which callbacks it has; the calls of them, and of the handlers of the line's actions, are
-- recorded, the latest first.
pub mod Nesting
pub mod Balance
pub mod Flow
pub mod Setup
use xc.Common.{
  ℕ, zero, suc, ◌+◌, ◌-◌, ◌%◌, ◌^◌, Option, none, some, Bool, true, false, not, ◌&&◌, ◌||◌, List,
  [], ◌∷◌, ltb, leb, ◌==◌, if◌then◌else◌,
}

pub data Call : Type 0 where
  call_startup call_enable call_disable call_mask call_unmask call_retrigger call_mask_ack
        call_ack :
      Call
  call_set_type call_action : ℕ → Call

-- What a chip's `irq_set_type` returns: IRQ_SET_MASK_OK, IRQ_SET_MASK_OK_NOCOPY or an error.
pub data SetType : Type 0 where
  set_mask_ok set_mask_ok_nocopy : SetType
  set_failed : ℕ → SetType

-- `is_none` tells `no_irq_chip`, and `set_type_masked` is IRQCHIP_SET_TYPE_MASKED.
pub record Chip : Type 0 where
  pub is_none : Bool
  pub irq_ack : Bool
  pub irq_mask_ack : Bool
  pub irq_set_type : Option SetType
  pub set_type_masked : Bool
  pub irq_startup : Bool
  pub irq_enable : Bool
  pub irq_disable : Bool
  pub irq_mask : Bool
  pub irq_unmask : Bool
  pub irq_retrigger : Bool

-- IRQF_NO_SUSPEND and IRQF_FORCE_RESUME of the first action.
pub record Action : Type 0 where
  pub no_suspend : Bool
  pub force_resume : Bool

-- IRQD_IRQ_DISABLED and IRQD_IRQ_MASKED; IRQ_LEVEL and IRQ_NOPROBE; IRQS_PENDING, IRQS_REPLAY and
-- IRQS_SUSPENDED.
pub record Desc : Type 0 where
  pub chip : Chip
  pub action : Option Action
  pub disabled : Bool
  pub masked : Bool
  pub level : Bool
  pub noprobe : Bool
  pub pending : Bool
  pub replay : Bool
  pub suspended : Bool
  pub depth : ℕ
  pub calls : List Call

abbrev pub call : Desc → Call → Desc
call d c = record d { calls = c ∷ d.calls }

-- The body sets IRQD_IRQ_MASKED, as that of `irq_state_set_masked` does.
unfoldable pub irq_state_clr_masked : Desc → Desc
irq_state_clr_masked d = record d { masked = true }

unfoldable pub irq_state_set_masked : Desc → Desc
irq_state_set_masked d = record d { masked = true }

unfoldable pub irq_state_clr_disabled : Desc → Desc
irq_state_clr_disabled d = record d { disabled = false }

unfoldable pub irq_state_set_disabled : Desc → Desc
irq_state_set_disabled d = record d { disabled = true }

unfoldable pub mask_irq : Desc → Desc
mask_irq d = if d.chip.irq_mask then irq_state_set_masked (call d call_mask) else d

unfoldable pub unmask_irq : Desc → Desc
unmask_irq d = if d.chip.irq_unmask then irq_state_clr_masked (call d call_unmask) else d

unfoldable pub irq_enable : Desc → Desc
irq_enable d =
    let d' = irq_state_clr_disabled d in
    irq_state_clr_masked (call d' (if d.chip.irq_enable then call_enable else call_unmask))

unfoldable pub irq_disable : Desc → Desc
irq_disable d =
    let d' = irq_state_set_disabled d in
    if d.chip.irq_disable then irq_state_set_masked (call d' call_disable) else d'

-- Without the value that a chip's `irq_startup` returns.
unfoldable pub irq_startup : Desc → Desc
irq_startup d =
    let d' = record (irq_state_clr_disabled d) { depth = 0 } in
    if d.chip.irq_startup then irq_state_clr_masked (call d' call_startup) else irq_enable d'

unfoldable pub check_irq_resend : Desc → Desc
check_irq_resend d =
    let d' = record d { pending = false; replay = true } in
    if d.level
    then d
    else if d.replay
    then d
    else if d.pending
    then (if d.chip.irq_retrigger then call d' call_retrigger else d')
    else d

-- `depth` is an unsigned int.
abbrev pub u32_mod : ℕ
u32_mod = 0x1_0000_0000

unfoldable pub disable_irq_depth : Desc → Desc
disable_irq_depth d =
    let d' = record d { depth = (d.depth + 1) % u32_mod } in
    if d.depth == 0 then irq_disable d' else d'

-- With `suspend`, by the first action.
unfoldable pub suspend_irq : Option Action → Desc → Desc
suspend_irq none d = d
suspend_irq (some action) d =
    if action.no_suspend then d else disable_irq_depth (record d { suspended = true })

-- `__disable_irq`.
unfoldable pub disable_irq : Desc → Bool → Desc
disable_irq d suspend = if suspend then suspend_irq d.action d else disable_irq_depth d

-- switch (desc->depth): case 1 falls through to the default.
unfoldable pub enable_irq_depth : Desc → Desc
enable_irq_depth d =
    let d' = check_irq_resend (irq_enable (record d { noprobe = true })) in
    if d.depth == 0
    then d
    else if d.depth == 1
    then (if d.suspended then d else record d' { depth = d'.depth - 1 })
    else record d { depth = d.depth - 1 }

-- With `resume`, by the first action.
unfoldable pub resume_irq : Option Action → Desc → Desc
resume_irq none d = if d.suspended then enable_irq_depth (record d { suspended = false }) else d
resume_irq (some action) d =
    if d.suspended
    then enable_irq_depth (record d { suspended = false })
    else if action.force_resume
    then enable_irq_depth (record d { depth = (d.depth + 1) % u32_mod; suspended = false })
    else d

-- `__enable_irq`.
unfoldable pub enable_irq : Desc → Bool → Desc
enable_irq d resume = if resume then resume_irq d.action d else enable_irq_depth d
