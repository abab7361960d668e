-- ===== src/Irq/Setup.antt =====
-- Setting an action up on a line, in kernel/irq/manage.c. `try_module_get` and `alloc_cpumask_var` always
-- succeed, and `force_irqthreads` is 0.
pub mod Agree
pub mod Shared
use xc.Common.{
  ℕ, zero, suc, ◌+◌, Option, none, some, Bool, true, false, not, ◌&&◌, ◌||◌, List, [], ◌∷◌, leb,
  ◌==◌, if◌then◌else◌,
}
use xc.Irq.{
  call_set_type, SetType, set_mask_ok, set_mask_ok_nocopy, set_failed, Desc, call, mask_irq,
  unmask_irq, irq_startup, enable_irq_depth,
}
use xc.Irq.Flow.{HandlerFn, nested_primary, IrqAction, Line}

-- The negated value that is returned; none for 0.
pub data Errno : Type 0 where
  einval enosys ebusy : Errno
  set_type_errno : ℕ → Errno

-- flags & IRQ_TYPE_LEVEL_MASK, on four bits.
unfoldable pub is_level_type : ℕ → Bool
is_level_type flags = leb 4 flags

-- case IRQ_SET_MASK_OK_NOCOPY
unfoldable pub copy_trigger : Line → Line
copy_trigger l =
    let level = is_level_type l.trigger_type in
    record l {
      desc = record (l.desc) { level = level };
      trigger_mask = l.trigger_type;
      level_data = level;
    }

unfoldable pub set_type_result : SetType → ℕ → Line → Option Errno × Line
set_type_result set_mask_ok flags l = (none, copy_trigger (record l { trigger_type = flags }))
set_type_result set_mask_ok_nocopy flags l = (none, copy_trigger l)
set_type_result (set_failed n) flags l = (some (set_type_errno n), l)

-- `__irq_set_trigger`, with the flags already under the mask, by the chip's callback.
unfoldable pub irq_set_trigger : Option SetType → Line → ℕ → Option Errno × Line
irq_set_trigger none l flags = (none, l)
irq_set_trigger (some answer) l flags =
    let held = l.desc.chip.set_type_masked in
    let masked = if held && not l.desc.masked then mask_irq l.desc else l.desc in
    let unmask = held && not masked.disabled in
    let set =
      set_type_result answer flags (record l { desc = call masked (call_set_type flags) }) in
    (set.0, if unmask then record (set.1) { desc = unmask_irq (set.1).desc } else set.1)

unfoldable pub bit_taken : ℕ → List IrqAction → Bool
bit_taken k [] = false
bit_taken k (action ∷ actions) = (action.thread_bit == k) || bit_taken k actions

-- ffz(thread_mask), from bit `k` on, with `n` bits left: the first bit that no action has.
unfoldable pub first_zero : ℕ → ℕ → List IrqAction → ℕ
first_zero zero k actions = k
first_zero (suc n) k actions =
    let rest = first_zero n (suc k) actions in if bit_taken k actions then rest else k

-- thread_mask == ~0UL
unfoldable pub all_taken : List IrqAction → Bool
all_taken actions = leb 32 (first_zero 32 0 actions)

-- What a second action on a line is refused for.
unfoldable pub mismatch : IrqAction → IrqAction → Bool
mismatch old action =
    not (old.shared && action.shared)
    || (not (old.trigger == action.trigger)
        || (not (if old.oneshot then action.oneshot else not action.oneshot)
            || not (if old.percpu then action.percpu else not action.percpu)))

unfoldable pub is_mismatch : List IrqAction → IrqAction → Bool
is_mismatch [] action = false
is_mismatch (old ∷ rest) action = mismatch old action

unfoldable pub is_shared : List IrqAction → Bool
is_shared [] = false
is_shared (old ∷ rest) = true

-- if (!shared), when the trigger is set.
unfoldable pub setup_first : Line → IrqAction → Line
setup_first l action =
    let cleared = record l {
      autodetect = false;
      spurious_disabled = false;
      oneshot_state = action.oneshot;
      waiting = false;
      in_progress = false;
      per_cpu = l.per_cpu || action.percpu;
      no_balancing = l.no_balancing || action.nobalancing;
    } in
    if l.noautoen
    then record cleared { desc = record (l.desc) { depth = 1 } }
    else record cleared { desc = irq_startup l.desc }

-- if (ret) goto out_mask
abbrev pub and_then : Option Errno × Line → (Line → Option Errno × Line) → Option Errno × Line
and_then (none, l) next = next l
and_then (some e, l) next = (some e, l)

unfoldable pub setup_trigger : Line → IrqAction → Option Errno × Line
setup_trigger l action =
    let set = irq_set_trigger l.desc.chip.irq_set_type l action.trigger in
    let started = and_then set (λ l'. (none, setup_first l' action)) in
    if action.trigger == 0 then (none, setup_first l action) else started

unfoldable pub first_suspend : Line → IrqAction → Desc
first_suspend l action =
    if is_shared l.actions then l.desc else record (l.desc) { action = some action.suspend }

-- *old_ptr = new, at the end of the actions.
abbrev pub add_last : List IrqAction → IrqAction → List IrqAction
add_last [] action = action ∷ []
add_last (old ∷ rest) action = old ∷ add_last rest action

-- *old_ptr = new, and what follows it.
unfoldable pub setup_link : Line → IrqAction → Line
setup_link l action =
    let linked = record l { desc = first_suspend l action; actions = add_last l.actions action } in
    if is_shared l.actions && l.spurious_disabled
    then record linked { desc = enable_irq_depth l.desc; spurious_disabled = false }
    else linked

unfoldable pub setup_locked : Line → IrqAction → Option Errno × Line
setup_locked l action =
    let new = record action { thread_bit = first_zero 32 0 l.actions } in
    let started = and_then (setup_trigger l new) (λ l'. (none, setup_link l' new)) in
    if is_mismatch l.actions action
    then (some ebusy, l)
    else if action.oneshot && all_taken l.actions
    then (some ebusy, l)
    else if is_shared l.actions
    then (none, setup_link l new)
    else started

-- `__setup_irq`
unfoldable pub setup_irq : Line → IrqAction → Option Errno × Line
setup_irq l action =
    if l.desc.chip.is_none
    then (some enosys, l)
    else if l.nested_thread
    then (if action.thread_fn
        then setup_locked l (record action { handler = nested_primary })
        else (some einval, l))
    else setup_locked l action
