-- ===== src/Irq/Balance.antt =====
-- A sequence of disables and enables that match restores the line.
use xc.Common.{ℕ, suc, ◌+◌, ◌≡◌, ◌∙◌, refl, arith, List, [], ◌∷◌, ◌++◌, false}
use xc.Irq.{Desc, disable_irq_depth, disable_irq, enable_irq_depth, enable_irq}
use xc.Irq.Nesting.{
  IsNested, Step, disable, enable, step, run, disable_irq_depth_total, enable_irq_depth_total,
  disable_irq_depth-IsNested,
}

-- Disables and enables that match like brackets, at most `height` open at once.
pub data Balanced : ℕ → List Step → Type 0 where
  flat : {height : ℕ} → Balanced height []
  nest :
      {height : ℕ} {inner after : List Step}
      → Balanced height inner
      → Balanced (suc height) after
      → Balanced (suc height) (disable false ∷ inner ++ enable false ∷ after)

run-append : (l m : List Step) (d : Desc) → run d (l ++ m) ≡ run (run d l) m
unfolding run
run-append [] m d = refl
run-append (s ∷ l) m d = run-append l m (step d s)

-- What a balanced sequence restores.
pub record IsRestored (d d' : Desc) : Type 0 where
  pub depth : d'.depth ≡ d.depth
  pub disabled : d'.disabled ≡ d.disabled
  pub suspended : d'.suspended ≡ d.suspended

-- An enable undoes a disable, whatever restored the state in between.
undone :
    (height : ℕ) (d d2 : Desc)
    → IsNested (suc height) d
    → d.suspended ≡ false
    → IsRestored (disable_irq_depth d) d2
    → IsRestored d (enable_irq_depth d2)
undone height d d2 v awake r =
    let down = disable_irq_depth_total d in
    let up = enable_irq_depth_total d2 in
    let deep : d2.depth ≡ d.depth + 1 = ground (arith, r.depth, down, v.fits) in
    record {
      depth = ground (arith, deep, up, down, r.suspended, awake);
      disabled = ground (arith, deep, up, down, r.suspended, r.disabled, awake, v.disabled_iff);
      suspended = ground (arith, up, down, r.suspended);
    }

restored-IsNested :
    (height : ℕ) (d d' : Desc) → IsNested height d → IsRestored d d' → IsNested height d'
restored-IsNested height d d' v r = record {
  disabled_iff = ground (arith, r.disabled, r.depth, v.disabled_iff);
  fits = omega (arith, r.depth, v.fits);
}

-- On a line that is not suspended, and disabled exactly when its depth is not 0: any sequence of
-- disables and enables that match like brackets, never so many open that the depth wraps, restores the
-- depth and whether the line is disabled.
pub run-IsRestored :
    (height : ℕ) (steps : List Step) (d : Desc)
    → Balanced height steps
    → IsNested height d
    → d.suspended ≡ false
    → IsRestored d (run d steps)
unfolding run step disable_irq enable_irq
run-IsRestored height [] d flat v awake = record { depth = refl; disabled = refl; suspended = refl }
run-IsRestored _ _ d (nest {height} {inner} {after} b c) v awake =
    let d1 = disable_irq_depth d in
    let d2 = run d1 inner in
    let d3 = enable_irq_depth d2 in
    let asleep : d1.suspended ≡ false = ground (arith, disable_irq_depth_total d, awake) in
    let r1 = run-IsRestored height inner d1 b (disable_irq_depth-IsNested height d v) asleep in
    let r2 = undone height d d2 v awake r1 in
    let r3 =
      run-IsRestored (suc height) after d3 c (restored-IsNested (suc height) d d3 v r2)
        (ground (arith, r2.suspended, awake)) in
    rw (run-append inner (enable false ∷ after) d1) (record {
      depth = r3.depth ∙ r2.depth;
      disabled = r3.disabled ∙ r2.disabled;
      suspended = r3.suspended ∙ r2.suspended;
    })
