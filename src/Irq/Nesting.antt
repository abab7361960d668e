-- ===== src/Irq/Nesting.antt =====
-- Disables and enables nest.
use xc.Common.{
  ℕ, suc, ◌+◌, ◌-◌, ◌%◌, ◌<◌, ◌≡◌, inl, inr, arith, List, [], ◌∷◌, Option, none, some, Bool, true,
  false, not, ◌&&◌, ◌||◌, ◌==◌, ltb, if◌then◌else◌, Bool-cases,
}
use xc.Irq.{
  Desc, Action, irq_state_clr_masked, irq_state_set_masked, irq_state_clr_disabled,
  irq_state_set_disabled, irq_enable, irq_disable, irq_startup, check_irq_resend, u32_mod,
  disable_irq_depth, suspend_irq, resume_irq, disable_irq, enable_irq_depth, enable_irq,
}

-- The line is disabled exactly when some disable has not been undone; `room` more disables fit.
pub record IsNested (room : ℕ) (d : Desc) : Type 0 where
  pub disabled_iff : d.disabled ≡ ltb 0 d.depth
  pub fits : d.depth + room < u32_mod

-- What a disable does to the depth and the flags.
pub disable_irq_depth_total :
    (d : Desc)
    → ((disable_irq_depth d).depth ≡ (d.depth + 1) % u32_mod)
      × ((disable_irq_depth d).disabled ≡ (d.depth == 0 || d.disabled))
      × ((disable_irq_depth d).suspended ≡ d.suspended)
unfolding disable_irq_depth irq_disable irq_state_set_disabled irq_state_set_masked
disable_irq_depth_total d = ground arith

check_irq_resend-same :
    (d : Desc)
    → ((check_irq_resend d).depth ≡ d.depth)
      × ((check_irq_resend d).disabled ≡ d.disabled)
      × ((check_irq_resend d).suspended ≡ d.suspended)
unfolding check_irq_resend
check_irq_resend-same d = ground arith

-- What an enable does to them. At depth 1 a suspended line stays as it is.
pub enable_irq_depth_total :
    (d : Desc)
    → let stays = d.depth == 0 || (d.depth == 1 && d.suspended) in
      ((enable_irq_depth d).depth ≡ (if stays then d.depth else d.depth - 1))
      × ((enable_irq_depth d).disabled ≡ (if not stays && d.depth == 1 then false else d.disabled))
      × ((enable_irq_depth d).suspended ≡ d.suspended)
unfolding enable_irq_depth irq_enable irq_state_clr_masked irq_state_clr_disabled
enable_irq_depth_total d =
    ground (arith, check_irq_resend-same (irq_enable (record d { noprobe = true })))

irq_startup_total : (d : Desc) → ((irq_startup d).depth ≡ 0) × ((irq_startup d).disabled ≡ false)
unfolding irq_startup irq_enable irq_state_clr_masked irq_state_clr_disabled
irq_startup_total d = ground arith

-- A call of the interface: `true` is the suspend or resume form.
pub data Step : Type 0 where
  disable enable : Bool → Step
  startup : Step

unfoldable pub step : Desc → Step → Desc
step d (disable suspend) = disable_irq d suspend
step d (enable resume) = enable_irq d resume
step d startup = irq_startup d

unfoldable pub run : Desc → List Step → Desc
run d [] = d
run d (s ∷ steps) = run (step d s) steps

pub disable_irq_depth-IsNested :
    (room : ℕ) (d : Desc) → IsNested (suc room) d → IsNested room (disable_irq_depth d)
disable_irq_depth-IsNested room d v =
    let total = disable_irq_depth_total d in
    record {
      disabled_iff = ground (arith, total, v.fits, v.disabled_iff);
      fits = ground (arith, total, v.fits);
    }

enable_irq_depth-IsNested :
    (room : ℕ) (d : Desc) → IsNested room d → IsNested room (enable_irq_depth d)
enable_irq_depth-IsNested room d v =
    let total = enable_irq_depth_total d in
    record {
      disabled_iff = ground (arith, total, v.disabled_iff);
      fits = ground (arith, total, v.fits);
    }

weaken : (room : ℕ) (d : Desc) → IsNested (suc room) d → IsNested room d
weaken room d v = record { disabled_iff = v.disabled_iff; fits = omega (arith, v.fits) }

suspend_irq-IsNested :
    (room : ℕ) (action : Option Action) (d : Desc)
    → IsNested (suc room) d
    → IsNested room (suspend_irq action d)
unfolding suspend_irq
suspend_irq-IsNested room none d v = weaken room d v
suspend_irq-IsNested room (some action) d v = elim (Bool-cases action.no_suspend) [
  | inl e ↦ rw e (weaken room d v)
  | inr e ↦ rw e (
      disable_irq_depth-IsNested room (record d { suspended = true })
        (record { disabled_iff = v.disabled_iff; fits = v.fits }))
]

-- A forced resume of a line that was not suspended leaves its depth.
forced-IsNested :
    (room : ℕ) (d : Desc)
    → IsNested (suc room) d
    → IsNested room
        (enable_irq_depth (record d { depth = (d.depth + 1) % u32_mod; suspended = false }))
forced-IsNested room d v =
    let total =
      enable_irq_depth_total (record d { depth = (d.depth + 1) % u32_mod; suspended = false }) in
    record {
      disabled_iff = ground (arith, total, v.fits, v.disabled_iff);
      fits = ground (arith, total, v.fits);
    }

woken-IsNested :
    (room : ℕ) (d : Desc)
    → IsNested (suc room) d
    → IsNested room (enable_irq_depth (record d { suspended = false }))
woken-IsNested room d v =
    enable_irq_depth-IsNested room (record d { suspended = false })
      (record { disabled_iff = v.disabled_iff; fits = omega (arith, v.fits) })

resume_irq-IsNested :
    (room : ℕ) (action : Option Action) (d : Desc)
    → IsNested (suc room) d
    → IsNested room (resume_irq action d)
unfolding resume_irq
resume_irq-IsNested room none d v = elim (Bool-cases d.suspended) [
  | inl e ↦ simp e (woken-IsNested room d v)
  | inr e ↦ simp e (weaken room d v)
]
resume_irq-IsNested room (some a) d v = elim (Bool-cases d.suspended) [
  | inl e ↦ simp e (woken-IsNested room d v)
  | inr e ↦ elim (Bool-cases a.force_resume) [
    | inl f ↦ simp (e, f) (forced-IsNested room d v)
    | inr f ↦ simp (e, f) (weaken room d v)
  ]
]

step-IsNested : (room : ℕ) (d : Desc) (s : Step) → IsNested (suc room) d → IsNested room (step d s)
unfolding step disable_irq enable_irq
step-IsNested room d (disable false) v = disable_irq_depth-IsNested room d v
step-IsNested room d (disable true) v = suspend_irq-IsNested room d.action d v
step-IsNested room d (enable false) v = weaken room _ (enable_irq_depth-IsNested (suc room) d v)
step-IsNested room d (enable true) v = resume_irq-IsNested room d.action d v
step-IsNested room d startup v =
    let total = irq_startup_total d in
    record { disabled_iff = ground (arith, total); fits = ground (arith, total, v.fits) }

unfoldable pub length : List Step → ℕ
length [] = 0
length (s ∷ steps) = suc (length steps)

-- Over any sequence of disables, enables, suspends, resumes and start-ups, too short for the depth to
-- wrap: the line stays disabled exactly when its depth is not 0.
pub run-IsNested :
    (steps : List Step) (d : Desc) → IsNested (length steps) d → IsNested 0 (run d steps)
unfolding run length
run-IsNested [] d v = v
run-IsNested (s ∷ steps) d v = run-IsNested steps (step d s) (step-IsNested (length steps) d s v)
