-- ===== src/Irq/Setup/Shared.antt =====
-- Setting an action up keeps the actions of a line in agreement, or leaves them as they are.
use xc.Common.{
  ℕ, ◌≡◌, refl, sym, ap, subst, ◌∙◌, inl, inr, arith, Option, none, some, false, not, ◌&&◌,
  Bool-cases, either_branch, ◌==◌, if◌then◌else◌,
}
use xc.Irq.{call, call_set_type, mask_irq, SetType, set_mask_ok, set_mask_ok_nocopy, set_failed}
use xc.Irq.Flow.{IrqAction, Line, nested_primary}
use xc.Irq.Setup.{
  Errno, einval, enosys, all_taken, is_mismatch, is_shared, setup_first, setup_trigger,
  irq_set_trigger, set_type_result, copy_trigger, and_then, add_last, setup_link, setup_locked,
  setup_irq,
}
use xc.Irq.Setup.Agree.{IsShareable, IsShareable-append, placed, placed-free, placed-AllAgree}

set_type_result-actions :
    (answer : SetType) (flags : ℕ) (l : Line)
    → (set_type_result answer flags l).1.actions ≡ l.actions
unfolding set_type_result copy_trigger
set_type_result-actions set_mask_ok flags l = refl
set_type_result-actions set_mask_ok_nocopy flags l = refl
set_type_result-actions (set_failed n) flags l = refl

set_trigger-actions :
    (set_type : Option SetType) (l : Line) (flags : ℕ)
    → (irq_set_trigger set_type l flags).1.actions ≡ l.actions
unfolding irq_set_trigger
set_trigger-actions none l flags = refl
set_trigger-actions (some answer) l flags =
    let held = l.desc.chip.set_type_masked in
    let masked = if held && not l.desc.masked then mask_irq l.desc else l.desc in
    let same =
      set_type_result-actions answer flags
        (record l { desc = call masked (call_set_type flags) }) in
    elim (Bool-cases (held && not masked.disabled)) [ inl e ↦ rw e same | inr e ↦ rw e same ]

-- What setting up an action may do to the actions of the line: it is put behind them, or they stay.
abbrev pub IsSetUp : Line → IrqAction → Option Errno × Line → Type 0
IsSetUp l action (none, l') =
    IsShareable l'.actions
    × ((new : IrqAction) × (new.number ≡ action.number) × (l'.actions ≡ add_last l.actions new))
IsSetUp l action (some e, l') = l'.actions ≡ l.actions

setup_first-actions : (l : Line) (action : IrqAction) → (setup_first l action).actions ≡ l.actions
unfolding setup_first
setup_first-actions l action = ground arith

setup_link-actions :
    (l : Line) (action : IrqAction) → (setup_link l action).actions ≡ add_last l.actions action
unfolding setup_link
setup_link-actions l action = ground arith

started-actions :
    (l : Line) (action : IrqAction) (r : Option Errno × Line)
    → r.1.actions ≡ l.actions
    → (and_then r (λ l'. (none, setup_first l' action))).1.actions ≡ l.actions
started-actions l action (none, l') e = setup_first-actions l' action ∙ e
started-actions l action (some errno, l') e = e

setup_trigger-actions :
    (l : Line) (action : IrqAction) → (setup_trigger l action).1.actions ≡ l.actions
unfolding setup_trigger
setup_trigger-actions l action = elim (Bool-cases (action.trigger == 0)) [
  | inl e ↦ rw e (setup_first-actions l action)
  | inr e ↦ rw e (
      started-actions l action (irq_set_trigger l.desc.chip.irq_set_type l action.trigger)
        (set_trigger-actions l.desc.chip.irq_set_type l action.trigger))
]

module _ (l : Line) (action : IrqAction) (v : IsShareable l.actions) where
  link-IsSetUp :
      (l' : Line)
      → l'.actions ≡ l.actions
      → is_mismatch l.actions action ≡ false
      → (action.oneshot && all_taken l.actions) ≡ false
      → IsSetUp l action (none, setup_link l' (placed l.actions action))
  link-IsSetUp l' same e o =
      let new = placed l.actions action in
      let after : (setup_link l' new).actions ≡ add_last l.actions new =
        setup_link-actions l' new ∙ ap (λ a. add_last a new) same in
      (
        subst IsShareable (sym after) (
            IsShareable-append new l.actions v (placed-AllAgree l.actions action v e o)
              (λ p. (placed-free l.actions action o p).0)),
        (new, refl, after),
      )

  started-IsSetUp :
      is_mismatch l.actions action ≡ false
      → (action.oneshot && all_taken l.actions) ≡ false
      → (r : Option Errno × Line) → r.1.actions ≡ l.actions
      → IsSetUp l action (and_then r (λ l'. (none, setup_link l' (placed l.actions action))))
  started-IsSetUp e o (none, l') same = link-IsSetUp l' same e o
  started-IsSetUp e o (some errno, l') same = same

  setup_locked-IsSetUp : IsSetUp l action (setup_locked l action)
  unfolding setup_locked
  setup_locked-IsSetUp = elim (Bool-cases (is_mismatch l.actions action)) [
    | inl e ↦ rw e refl
    | inr e ↦ elim (Bool-cases (action.oneshot && all_taken l.actions)) [
      | inl o ↦ rw (e, o) refl
      | inr o ↦ elim (Bool-cases (is_shared l.actions)) [
        | inl s ↦ rw (e, o, s) (link-IsSetUp l refl e o)
        | inr s ↦
            rw (e, o, s)
              (started-IsSetUp e o (setup_trigger l (placed l.actions action))
                (setup_trigger-actions l (placed l.actions action)))
      ]
    ]
  ]

-- Setting an action up on a line whose actions agree pairwise - they are marked as shared, have the same
-- trigger, oneshot and per-CPU flags and, where they are oneshot, different bits below 32 - either puts it
-- behind the others, and they all agree; or fails, and leaves the actions as they are.
pub setup_irq-IsSetUp :
    (l : Line) (action : IrqAction) → IsShareable l.actions → IsSetUp l action (setup_irq l action)
unfolding setup_irq
setup_irq-IsSetUp l action v =
    either_branch (IsSetUp l action) l.desc.chip.is_none (some enosys, l) _ refl
      (either_branch (IsSetUp l action) l.nested_thread _ _
        (either_branch (IsSetUp l action) action.thread_fn _ (some einval, l)
          (setup_locked-IsSetUp l (record action { handler = nested_primary }) v) refl)
        (setup_locked-IsSetUp l action v))
